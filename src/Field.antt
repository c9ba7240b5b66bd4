-- ===== src/Field.antt =====
-- curve25519/solana-ed25519/src/field.rs: what is defined on top of the limb arithmetic.
pub mod Power
pub mod Sign
pub mod Wide
pub mod Modular
pub mod Bounds
pub mod SquareRoot
use ed25519_verificationtest.Common.{ℕ, ◌≡◌, Bool, true, ◌||◌, ◌==◌, bit_and, List, not}
use ed25519_verificationtest.Common.{byte, tabulate, Subtle}
use ed25519_verificationtest.Field51.{FieldElement51, mul, square, pow2k, negate, field_one}
use ed25519_verificationtest.Field51.{conditional_select}
use ed25519_verificationtest.Field51.Bytes.{to_bytes}

-- `SQRT_M1` of backend/serial/u64/constants.rs.
abbrev pub sqrt_m1 : FieldElement51
sqrt_m1 = record {
  l0 = 1718705420411056;
  l1 = 234908883556509;
  l2 = 2233514472574048;
  l3 = 2117202627021982;
  l4 = 765476049583133;
}

-- `(bytes[0] & 1).into()`
unfoldable pub is_negative : FieldElement51 → Bool
is_negative a = bit_and (byte (to_bytes a) 0) 1 == 1

-- The powers 2^250 - 1 and 11.
unfoldable pub pow22501 : FieldElement51 → FieldElement51 × FieldElement51
pow22501 a =
    let t0 = square a in
    let t1 = square (square t0) in
    let t2 = mul a t1 in
    let t3 = mul t0 t2 in
    let t4 = square t3 in
    let t5 = mul t2 t4 in
    let t6 = pow2k t5 5 in
    let t7 = mul t6 t5 in
    let t8 = pow2k t7 10 in
    let t9 = mul t8 t7 in
    let t10 = pow2k t9 20 in
    let t11 = mul t10 t9 in
    let t12 = pow2k t11 10 in
    let t13 = mul t12 t7 in
    let t14 = pow2k t13 50 in
    let t15 = mul t14 t13 in
    let t16 = pow2k t15 100 in
    let t17 = mul t16 t15 in let t18 = pow2k t17 50 in let t19 = mul t18 t13 in (t19, t3)

unfoldable pub invert : FieldElement51 → FieldElement51
invert a = let (t19, t3) = pow22501 a in let t20 = pow2k t19 5 in mul t20 t3

unfoldable pub pow_p58 : FieldElement51 → FieldElement51
pow_p58 a = let (t19, t3) = pow22501 a in let t20 = pow2k t19 2 in mul a t20

module _ ⦃s : Subtle⦄ where
  unfoldable pub ct_eq : FieldElement51 → FieldElement51 → Bool
  ct_eq a b = s.ct_eq (to_bytes a) (to_bytes b)

  pub is_zero : FieldElement51 → Bool
  is_zero a = s.ct_eq (to_bytes a) (tabulate 32 0 (λ i. 0))

  -- The last steps of `sqrt_ratio_i`: the sign that was found to be wrong is corrected, and the
  -- nonnegative root is chosen.
  unfoldable pub flip_root : FieldElement51 → Bool → FieldElement51
  flip_root r flipped = conditional_select r (mul sqrt_m1 r) flipped

  unfoldable pub nonnegative_root : FieldElement51 → FieldElement51
  nonnegative_root r = conditional_select r (negate r) (is_negative r)

  -- `(u v^3) (u v^7)^((p - 5) / 8)`
  unfoldable pub candidate_root : FieldElement51 → FieldElement51 → FieldElement51
  candidate_root u v =
      let v3 = mul (square v) v in let v7 = mul (square v3) v in mul (mul u v3) (pow_p58 (mul u v7))

  unfoldable pub sqrt_ratio_i : FieldElement51 → FieldElement51 → Bool × FieldElement51
  sqrt_ratio_i u v =
      let r = candidate_root u v in
      let check = mul v (square r) in
      let correct_sign_sqrt = ct_eq check u in
      let flipped_sign_sqrt = ct_eq check (negate u) in
      let flipped_sign_sqrt_i = ct_eq check (mul (negate u) sqrt_m1) in
      (
        correct_sign_sqrt || flipped_sign_sqrt,
        nonnegative_root (flip_root r (flipped_sign_sqrt || flipped_sign_sqrt_i)),
      )

  unfoldable pub invsqrt : FieldElement51 → Bool × FieldElement51
  invsqrt a = sqrt_ratio_i field_one a
