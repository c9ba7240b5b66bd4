-- ===== src/Scalar/Arithmetic.antt =====
-- About the ring operations of curve25519/solana-ed25519/src/scalar.rs.
use ed25519_verificationtest.Common.{
  ℕ, ◌+◌, ◌-◌, ◌*◌, ◌^◌, ◌%◌, ◌<◌, ◌≤◌, ◌≡◌, refl, ap, arith, List, Subtle,
}
use ed25519_verificationtest.Common.{
  le_value, le_value-lt, IsBytes, Congr, Congr-refl, Congr-trans, Congr-mul, Congr-residue,
}
use ed25519_verificationtest.Scalar52.{Scalar52, value, order, IsNormal, IsReduced, r, scalar_zero}
use native.Mathlib.Nat.{mul-le-mul}
use ed25519_verificationtest.Scalar52.Bytes.Encode
use ed25519_verificationtest.Scalar52.Bytes.Decode
use ed25519_verificationtest.Scalar52.Bytes.Wide
use ed25519_verificationtest.Scalar52.Multiply
use ed25519_verificationtest.Scalar52.Subtract
use ed25519_verificationtest.Scalar.{Scalar, pack, unpack, reduce, mul, add, sub, neg}
use ed25519_verificationtest.Scalar.{from_bytes_mod_order, from_bytes_mod_order_wide}
use ed25519_verificationtest.Common.{◌∙◌}
use ed25519_verificationtest.Common.{ap₂}
use ed25519_verificationtest.Scalar.{montgomery_reduce}
use ed25519_verificationtest.Scalar.{mul_internal}

-- The number that a scalar stands for.
abbrev pub number : Scalar → ℕ
number a = le_value a.bytes

abbrev pub IsScalar : Scalar → Type 0
IsScalar a = IsBytes 32 a.bytes

-- 32 bytes that stand for a residue.
pub record IsCanonical (a : Scalar) : Type 0 where
  pub scalar : IsScalar a
  pub below : number a < order

pub number-lt : (a : Scalar) → IsScalar a → number a < 2 ^ 256
number-lt a h = le_value-lt 32 a.bytes h

-- For a 32-byte scalar `unpack` gives limbs below 2^52, the top one below 2^48, that stand for the
-- number of the bytes.
pub unpack-value :
    (a : Scalar)
    → IsScalar a
    → (value (unpack a) ≡ number a) × IsNormal (unpack a) × ((unpack a).l4 < 2 ^ 48)
unfolding unpack
unpack-value a h = Decode.from_bytes-value a.bytes h

-- For limbs below 2^52, the top one below 2^48, `pack` gives 32 bytes that stand for the value of
-- the limbs.
pub pack-value :
    (a : Scalar52) → IsNormal a → a.l4 < 2 ^ 48 → (number (pack a) ≡ value a) × IsScalar (pack a)
unfolding pack
pack-value a h top = Encode.to_bytes-value a h top

-- Packing a reduced scalar keeps its value.
pub pack-IsCanonical :
    (a : Scalar52) → IsReduced a → (number (pack a) ≡ value a) × IsCanonical (pack a)
pack-IsCanonical a h =
    let (same, bytes) = pack-value a h.normal (omega (arith, h.below, h.normal)) in
    (same, record { scalar = bytes; below = omega (arith, h.below) })

unpack-IsReduced :
    (a : Scalar) → IsCanonical a → (value (unpack a) ≡ number a) × IsReduced (unpack a)
unpack-IsReduced a h =
    let (same, normal, top) = unpack-value a h.scalar in
    (same, record { normal = normal; below = omega (arith, h.below) })

product_bound : (x y : ℕ) → x < 2 ^ 256 → y < 2 ^ 256 → x * y < 2 ^ 260 * order
product_bound x y hx hy =
    let below : x * y ≤ (2 ^ 256 - 1) * (2 ^ 256 - 1) =
      mul-le-mul {n₂ = 2 ^ 256 - 1} {m₂ = 2 ^ 256 - 1} (omega arith) (omega arith) in
    omega arith

module _ ⦃s : Subtle⦄ where
  -- For all 32-byte scalars, reduced or not, `mul` gives the product of the numbers modulo the
  -- group order, as a canonical scalar.
  pub mul-number :
      (a b : Scalar)
      → IsScalar a
      → IsScalar b
      → (number (mul a b) ≡ number a * number b % order) × IsCanonical (mul a b)
  unfolding mul
  mul-number a b ha hb =
      let (xa, na, ta) = unpack-value a ha in
      let (xb, nb, tb) = unpack-value b hb in
      let bound =
        product_bound _ _ (omega (arith, number-lt a ha)) (omega (arith, number-lt b hb)) in
      let (product, reduced) = Multiply.mul-residue (unpack a) (unpack b) na nb bound in
      let (same, canonical) = pack-IsCanonical _ reduced in
      (same ∙ product ∙ ap (λ (t : ℕ). t % order) (ap₂ ◌*◌ xa xb), canonical)

  -- On canonical scalars `add` gives the sum modulo the group order, as a canonical scalar.
  pub add-number :
      (a b : Scalar)
      → IsCanonical a
      → IsCanonical b
      → (number (add a b) ≡ (number a + number b) % order) × IsCanonical (add a b)
  unfolding add
  add-number a b ha hb =
      let (xa, ra) = unpack-IsReduced a ha in
      let (xb, rb) = unpack-IsReduced b hb in
      let (sum, reduced) = Subtract.add-residue (unpack a) (unpack b) ra rb in
      let (same, canonical) = pack-IsCanonical _ reduced in
      (same ∙ sum ∙ ap (λ (t : ℕ). t % order) (ap₂ ◌+◌ xa xb), canonical)

  -- On canonical scalars `sub` gives the difference modulo the group order, as a canonical scalar.
  pub sub-number :
      (a b : Scalar)
      → IsCanonical a
      → IsCanonical b
      → (number (sub a b) ≡ (number a + order - number b) % order) × IsCanonical (sub a b)
  unfolding sub
  sub-number a b ha hb =
      let (xa, ra) = unpack-IsReduced a ha in
      let (xb, rb) = unpack-IsReduced b hb in
      let (difference, reduced) =
        Subtract.sub-residue (unpack a) (unpack b) ra.normal rb.normal
          (omega (arith, ra.below, rb.below)) (omega (arith, ra.below, rb.below)) in
      let (same, canonical) = pack-IsCanonical _ reduced in
      (
        same ∙ difference ∙ ap (λ (t : ℕ). t % order) (ap₂ (λ (x y : ℕ). x + order - y) xa xb),
        canonical,
      )

  -- The product with `r` and one reduction, which `reduce` and `neg` share.
  residue-value :
      (x : Scalar52)
      → IsNormal x
      → value x < 2 ^ 256
      → (value (montgomery_reduce (mul_internal x r)) ≡ value x % order)
        × IsReduced (montgomery_reduce (mul_internal x r))
  residue-value x h bound =
      let r_normal : IsNormal r = omega arith in
      let (same, reduced) = Multiply.montgomery_mul-value x r h r_normal (omega arith) in
      let r_value : Congr order (value r) (2 ^ 260) = record { same = refl } in
      rw (Multiply.montgomery_reduce-mul_internal x r) (
        Congr-residue order _ _ reduced.below (
            Multiply.cancel_radix _ _
              (Congr-trans same (Congr-mul (Congr-refl order (value x)) r_value))),
        reduced,
      )

  -- For every 32-byte scalar `reduce` gives the remainder of the number by the group order, as a
  -- canonical scalar.
  pub reduce-number :
      (a : Scalar) → IsScalar a → (number (reduce a) ≡ number a % order) × IsCanonical (reduce a)
  unfolding reduce
  reduce-number a h =
      let (xa, na, ta) = unpack-value a h in
      let (residue, reduced) = residue-value (unpack a) na (omega (arith, number-lt a h)) in
      let (same, canonical) = pack-IsCanonical _ reduced in
      (same ∙ residue ∙ ap (λ (t : ℕ). t % order) xa, canonical)

  -- `from_bytes_mod_order` gives the remainder of the 256-bit number by the group order.
  pub from_bytes_mod_order-number :
      (bytes : List ℕ)
      → IsBytes 32 bytes
      → (number (from_bytes_mod_order bytes) ≡ le_value bytes % order)
        × IsCanonical (from_bytes_mod_order bytes)
  unfolding from_bytes_mod_order
  from_bytes_mod_order-number bytes h = reduce-number (record { bytes = bytes }) h

  -- For every 32-byte scalar, reduced or not, `neg` gives the negated number modulo the group
  -- order, as a canonical scalar.
  pub neg-number :
      (a : Scalar)
      → IsScalar a
      → (number (neg a) ≡ (order - number a % order) % order) × IsCanonical (neg a)
  unfolding neg
  neg-number a h =
      let (xa, na, ta) = unpack-value a h in
      let (residue, reduced) = residue-value (unpack a) na (omega (arith, number-lt a h)) in
      let zero_normal : IsNormal scalar_zero = omega arith in
      let (difference, out) =
        Subtract.sub-residue scalar_zero _ zero_normal reduced.normal (omega (arith, reduced.below))
          (omega (arith, reduced.below)) in
      let (same, canonical) = pack-IsCanonical _ out in
      (
        same
            ∙ difference
            ∙ ap (λ (t : ℕ). (order - t) % order) (residue ∙ ap (λ (t : ℕ). t % order) xa),
        canonical,
      )

  -- For 64 bytes `from_bytes_mod_order_wide` gives the remainder of the 512-bit number by the group
  -- order, as a canonical scalar.
  pub from_bytes_mod_order_wide-number :
      (input : List ℕ)
      → IsBytes 64 input
      → (number (from_bytes_mod_order_wide input) ≡ le_value input % order)
        × IsCanonical (from_bytes_mod_order_wide input)
  unfolding from_bytes_mod_order_wide
  from_bytes_mod_order_wide-number input h =
      let (value, reduced) = Wide.from_bytes_wide-value input h in
      let (same, canonical) = pack-IsCanonical _ reduced in (same ∙ value, canonical)
