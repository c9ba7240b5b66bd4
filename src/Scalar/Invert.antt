-- ===== src/Scalar/Invert.antt =====
-- About `invert` and `montgomery_invert` of curve25519/solana-ed25519/src/scalar.rs.
use ed25519_verificationtest.Common.{
  ℕ, zero, suc, ◌+◌, ◌-◌, ◌*◌, ◌^◌, ◌<◌, ◌≤◌, ◌≡◌, refl, arith, Subtle,
}
use ed25519_verificationtest.Common.{Congr, Congr-trans, Congr-of_eq, Congr-mul}
use ed25519_verificationtest.Common.{pow-add, pow-one}
use ed25519_verificationtest.Scalar52.{
  Scalar52, value, order, IsReduced, montgomery_mul, montgomery_square, as_montgomery,
}
use ed25519_verificationtest.Scalar52.Multiply.{
  montgomery_mul-value, montgomery_square-mul, as_montgomery-value, from_montgomery-value,
  cancel_radix,
}
use ed25519_verificationtest.Scalar.{
  Scalar, squarings, square_multiply, montgomery_invert, unpacked_invert, invert, unpack,
}
use ed25519_verificationtest.Scalar.Arithmetic.{
  number, IsScalar, IsCanonical, number-lt, unpack-value, pack-IsCanonical,
}
use native.Mathlib.Nat.{mul-le-mul, pow-suc}

-- `b` is the power of `x` by `n` in Montgomery form, and reduced.
pub record IsMontgomeryPower (x n : ℕ) (b : Scalar52) : Type 0 where
  pub power : Congr order (value b) (x ^ n * 2 ^ 260)
  pub reduced : IsReduced b

reduced_product : (x y : ℕ) → x < order → y < order → x * y < 2 ^ 260 * order
reduced_product x y hx hy =
    let below : x * y ≤ order * order =
      mul-le-mul {n₂ = order} {m₂ = order} (omega arith) (omega arith) in
    omega arith

-- The radix that a product in Montgomery form has once more.
radix_twice : (x j k : ℕ) → x ^ j * 2 ^ 260 * (x ^ k * 2 ^ 260) ≡ x ^ (j + k) * 2 ^ 260 * 2 ^ 260
radix_twice x j k = rw (pow-add x j k) (omega arith)

module _ ⦃s : Subtle⦄ where
  power-mul :
      {x j k : ℕ} {a b : Scalar52}
      → IsMontgomeryPower x j a
      → IsMontgomeryPower x k b
      → IsMontgomeryPower x (j + k) (montgomery_mul a b)
  power-mul {x} {j} {k} {a} {b} ha hb =
      let (same, reduced) =
        montgomery_mul-value a b ha.reduced.normal hb.reduced.normal
          (reduced_product _ _ ha.reduced.below hb.reduced.below) in
      record {
        power = cancel_radix _ _ (
            Congr-trans same
              (Congr-trans (Congr-mul ha.power hb.power) (Congr-of_eq order (radix_twice x j k))));
        reduced = reduced;
      }

  power-square :
      {x j : ℕ} {a : Scalar52}
      → IsMontgomeryPower x j a
      → IsMontgomeryPower x (j * 2) (montgomery_square a)
  power-square {x} {j} {a} h =
      let double : j * 2 ≡ j + j = omega arith in
      rw (montgomery_square-mul a h.reduced.normal, double) (power-mul h h)

  power-squarings :
      {x : ℕ} (k j : ℕ) {a : Scalar52}
      → IsMontgomeryPower x j a
      → IsMontgomeryPower x (j * 2 ^ k) (squarings k a)
  unfolding squarings
  power-squarings zero j h = let e : j * 2 ^ 0 ≡ j = omega arith in rw e h
  power-squarings (suc k) j h =
      let e : j * 2 ^ suc k ≡ j * 2 * 2 ^ k = rw (pow-suc 2 k) (omega arith) in
      rw e (power-squarings k (j * 2) (power-square h))

  power-step :
      {x i j : ℕ} {a b : Scalar52} (k : ℕ)
      → IsMontgomeryPower x i a
      → IsMontgomeryPower x j b
      → IsMontgomeryPower x (i * 2 ^ k + j) (square_multiply k a b)
  unfolding square_multiply
  power-step k ha hb = power-mul (power-squarings k _ ha) hb

  -- If `a` is reduced and is `x` in Montgomery form, `montgomery_invert` gives, reduced, the
  -- Montgomery form of the power of `x` by `order - 2`.
  pub montgomery_invert-IsMontgomeryPower :
      (x : ℕ) (a : Scalar52)
      → IsMontgomeryPower x 1 a
      → IsMontgomeryPower x (order - 2) (montgomery_invert a)
  unfolding montgomery_invert
  montgomery_invert-IsMontgomeryPower x a h =
      let x2 = power-square h in
      let x4 = power-square x2 in
      let x3 = power-mul x2 h in
      let x5 = power-mul x2 x3 in
      let x7 = power-mul x2 x5 in
      let x9 = power-mul x2 x7 in
      let x11 = power-mul x2 x9 in
      let x15 = power-mul x4 x11 in
      let y1 = power-step 126 (power-mul x15 h) x5 in
      let y3 = power-step 5 (power-step 4 y1 x3) x15 in
      let y5 = power-step 4 (power-step 5 y3 x15) x9 in
      let y7 = power-step 5 (power-step 2 y5 x3) x15 in
      let y9 = power-step 6 (power-step 4 y7 x5) x5 in
      let y11 = power-step 5 (power-step 3 y9 x7) x15 in
      let y13 = power-step 4 (power-step 5 y11 x7) x3 in
      let y15 = power-step 6 (power-step 5 y13 x11) x11 in
      let y17 = power-step 4 (power-step 10 y15 x9) x3 in
      let y19 = power-step 5 (power-step 5 y17 x3) x3 in
      let y21 = power-step 4 (power-step 5 y19 x9) x7 in
      let y23 = power-step 5 (power-step 6 y21 x15) x11 in
      let y25 = power-step 6 (power-step 3 y23 x5) x15 in power-step 3 (power-step 3 y25 x5) x3

  -- For every 32-byte scalar `invert` gives a canonical scalar that is congruent to the power by
  -- `order - 2`.
  pub invert-number :
      (a : Scalar)
      → IsScalar a
      → Congr order (number (invert a)) (number a ^ (order - 2)) × IsCanonical (invert a)
  unfolding invert unpacked_invert
  invert-number a h =
      let (same, normal, top) = unpack-value a h in
      let (entry, small) =
        as_montgomery-value (unpack a) normal (omega (arith, same, number-lt a h)) in
      let start : IsMontgomeryPower (number a) 1 (as_montgomery (unpack a)) = record {
        power = Congr-trans entry (Congr-of_eq order (rw (pow-one (number a), same) refl));
        reduced = small;
      } in
      let chain = montgomery_invert-IsMontgomeryPower (number a) _ start in
      let (back, out) = from_montgomery-value _ chain.reduced in
      let (packed, canonical) = pack-IsCanonical _ out in
      (
        Congr-trans (Congr-of_eq order packed) (cancel_radix _ _ (Congr-trans back chain.power)),
        canonical,
      )
