-- ===== src/Field51/Square.antt =====
-- About `square`, `square2` and `pow2k` of
-- curve25519/solana-ed25519/src/backend/serial/u64/field.rs.
use ed25519_verificationtest.Common.{ℕ, zero, suc, ◌*◌, ◌^◌, ◌<◌, ◌≤◌, ◌≡◌, sym, ap, arith}
use ed25519_verificationtest.Common.{
  mul64, Congr, Congr-refl, Congr-of_eq, Congr-trans, Congr-pow, pow-mul, Congr-mul, pow-one,
  pow-two,
}
use native.Mathlib.Nat.{pow-suc}
use ed25519_verificationtest.Field51.{FieldElement51, value, p, IsBelow, m, mul, carry_chain}
use ed25519_verificationtest.Field51.{square_coefficients, square_round, mul_coefficients}
use ed25519_verificationtest.Field51.{square_rounds, pow2k, square, square2}
use ed25519_verificationtest.Field51.Multiply
use ed25519_verificationtest.Field51.Multiply.{exact_coefficients, plain_product}
use ed25519_verificationtest.Common.{refl}

-- 19 times a limb comes first here.
product_19_left : (x y : ℕ) → x < 2 ^ 54 → y < 2 ^ 54 → m x (mul64 19 y) ≡ 19 * (x * y)
product_19_left x y hx hy =
    let swap : mul64 19 y ≡ mul64 y 19 = omega arith in rw swap (Multiply.product_19 x y hx hy)

module _ (a : FieldElement51) (h : IsBelow (2 ^ 54) a) where
  square_coefficients-mul : square_coefficients a ≡ mul_coefficients a a
  unfolding square_coefficients exact_coefficients
  square_coefficients-mul =
      let bounds = Multiply.product_bounds a a h h in
      rw
        (
          Multiply.mul_coefficients_exact a a h h,
          plain_product a.l0 a.l0 h.b0 h.b0,
          plain_product a.l0 a.l1 h.b0 h.b1,
          plain_product a.l0 a.l2 h.b0 h.b2,
          plain_product a.l0 a.l3 h.b0 h.b3,
          plain_product a.l0 a.l4 h.b0 h.b4,
          plain_product a.l1 a.l1 h.b1 h.b1,
          plain_product a.l1 a.l2 h.b1 h.b2,
          plain_product a.l1 a.l3 h.b1 h.b3,
          plain_product a.l2 a.l2 h.b2 h.b2,
          product_19_left a.l1 a.l4 h.b1 h.b4,
          product_19_left a.l2 a.l3 h.b2 h.b3,
          product_19_left a.l2 a.l4 h.b2 h.b4,
          product_19_left a.l3 a.l3 h.b3 h.b3,
          product_19_left a.l4 a.l3 h.b4 h.b3,
          product_19_left a.l4 a.l4 h.b4 h.b4,
        )
        (ground arith)

  -- On limbs below 2^54 `square` gives, limb for limb, what `mul` gives for the element with
  -- itself.
  pub square-mul : square a ≡ mul a a
  unfolding square pow2k square_rounds square_round mul
  square-mul = ap carry_chain square_coefficients-mul

pub IsBelow-mono : (j k : ℕ) (a : FieldElement51) → j ≤ k → IsBelow j a → IsBelow k a
IsBelow-mono j k a le h = omega arith

square_round-value :
    (a : FieldElement51)
    → IsBelow (2 ^ 54) a
    → Congr p (value (square_round a)) (value a * value a) × IsBelow (2 ^ 54) (square_round a)
unfolding square pow2k square_rounds
square_round-value a h =
    let (same, below) = Multiply.mul-value a a h h in
    let e : square_round a ≡ mul a a = square-mul a h in
    rw e (same, IsBelow-mono (2 ^ 52) (2 ^ 54) (mul a a) (omega arith) below)

pow-double : (x k : ℕ) → (x * x) ^ (2 ^ k) ≡ x ^ (2 ^ suc k)
pow-double x k =
    let exponent : 2 ^ suc k ≡ 2 * 2 ^ k = omega (arith, pow-suc 2 k) in
    rw (exponent, pow-mul x 2 (2 ^ k), pow-two x)

square_rounds-value :
    (k : ℕ) (a : FieldElement51)
    → IsBelow (2 ^ 54) a
    → Congr p (value (square_rounds k a)) (value a ^ (2 ^ k)) × IsBelow (2 ^ 54) (square_rounds k a)
unfolding square_rounds
square_rounds-value zero a h = (Congr-of_eq p (sym (pow-one (value a))), h)
square_rounds-value (suc k) a h =
    let (same, below) = square_round-value a h in
    let (rest, rest_below) = square_rounds-value k (square_round a) below in
    (
      Congr-trans rest
          (Congr-trans (Congr-pow (2 ^ k) same) (Congr-of_eq p (pow-double (value a) k))),
      rest_below,
    )

-- The last round leaves limbs below 2^52, as a product does.
square_rounds-IsBelow :
    (k : ℕ) (a : FieldElement51) → IsBelow (2 ^ 54) a → IsBelow (2 ^ 52) (square_rounds (suc k) a)
unfolding square_rounds
square_rounds-IsBelow zero a h =
    unfold square pow2k in rw (square-mul a h) (Multiply.mul-value a a h h).1
square_rounds-IsBelow (suc k) a h =
    square_rounds-IsBelow k (square_round a) (square_round-value a h).1

-- On limbs below 2^54 and for every `k` above zero, `pow2k` computes the power by 2^k modulo 2^255
-- - 19, with limbs below 2^52.
pub pow2k-value :
    (a : FieldElement51) (k : ℕ)
    → IsBelow (2 ^ 54) a
    → 0 < k
    → Congr p (value (pow2k a k)) (value a ^ (2 ^ k)) × IsBelow (2 ^ 52) (pow2k a k)
unfolding pow2k
pow2k-value a zero h pos = absurd (omega arith)
pow2k-value a (suc k) h pos = ((square_rounds-value (suc k) a h).0, square_rounds-IsBelow k a h)

-- On limbs below 2^54 the value of `square2` is congruent to twice the square modulo 2^255 - 19,
-- and its limbs are below 2^53.
pub square2-value :
    (a : FieldElement51)
    → IsBelow (2 ^ 54) a
    → Congr p (value (square2 a)) (2 * (value a * value a)) × IsBelow (2 ^ 53) (square2 a)
unfolding square2
square2-value a h =
    let (same, below) = Multiply.mul-value a a h h in
    rw (square-mul a h)
      (Congr-trans (Congr-of_eq p (omega arith)) (Congr-mul (Congr-refl p 2) same), omega arith)

pub square-pow2k : (a : FieldElement51) → square a ≡ pow2k a 1
unfolding square
square-pow2k a = refl
