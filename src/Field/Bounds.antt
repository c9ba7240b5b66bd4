-- ===== src/Field/Bounds.antt =====
-- The bounds on the limbs that `sqrt_ratio_i` of curve25519/solana-ed25519/src/field.rs gives.
use ed25519_verificationtest.Common.{ℕ, ◌*◌, ◌^◌, arith, Congr, Bool, true, false, Subtle}
use ed25519_verificationtest.Field51.{FieldElement51, value, p, IsBelow, mul, square}
use ed25519_verificationtest.Field51.{conditional_select, conditional_select_lem}
use ed25519_verificationtest.Field51.Reduce.{negate-value}
use ed25519_verificationtest.Field51.Multiply.{mul-value}
use ed25519_verificationtest.Field51.Square.{square-mul, IsBelow-mono}
use ed25519_verificationtest.Field.{
  sqrt_m1, flip_root, nonnegative_root, candidate_root, sqrt_ratio_i,
}
use ed25519_verificationtest.Field.Power.{pow_p58-IsPower}

pub small : (a : FieldElement51) → IsBelow (2 ^ 52) a → IsBelow (2 ^ 54) a
small a h = IsBelow-mono (2 ^ 52) (2 ^ 54) a (omega arith) h

pub wide : (a : FieldElement51) → IsBelow (2 ^ 54) a → IsBelow (2 ^ 64) a
wide a h = IsBelow-mono (2 ^ 54) (2 ^ 64) a (omega arith) h

pub square-value :
    (a : FieldElement51)
    → IsBelow (2 ^ 54) a
    → Congr p (value (square a)) (value a * value a) × IsBelow (2 ^ 52) (square a)
square-value a h = rw (square-mul a h) (mul-value a a h h)

module _ ⦃s : Subtle⦄ where
  select-IsBelow :
      (k : ℕ) (a b : FieldElement51) (choice : Bool)
      → IsBelow k a
      → IsBelow k b
      → IsBelow k (conditional_select a b choice)
  select-IsBelow k a b true ha hb = rw conditional_select_lem hb
  select-IsBelow k a b false ha hb = rw conditional_select_lem ha

  pub candidate_root-IsBelow :
      (u v : FieldElement51)
      → IsBelow (2 ^ 54) u
      → IsBelow (2 ^ 54) v
      → IsBelow (2 ^ 52) (candidate_root u v)
  unfolding candidate_root
  candidate_root-IsBelow u v hu hv =
      let v2 = small (square v) (square-value v hv).1 in
      let v3 = small (mul (square v) v) (mul-value (square v) v v2 hv).1 in
      let w = mul (square v) v in
      let v6 = small (square w) (square-value w v3).1 in
      let v7 = small (mul (square w) v) (mul-value (square w) v v6 hv).1 in
      let uv3 = small (mul u w) (mul-value u w hu v3).1 in
      let uv7 = small (mul u (mul (square w) v)) (mul-value u (mul (square w) v) hu v7).1 in
      let root = pow_p58-IsPower (mul u (mul (square w) v)) uv7 in
      (mul-value (mul u w) _ uv3 root.below).1

  -- The root has limbs as small as those of a product.
  pub sqrt_ratio_i-IsBelow :
      (u v : FieldElement51)
      → IsBelow (2 ^ 54) u
      → IsBelow (2 ^ 54) v
      → IsBelow (2 ^ 52) (sqrt_ratio_i u v).1
  unfolding sqrt_ratio_i flip_root nonnegative_root
  sqrt_ratio_i-IsBelow u v hu hv =
      let r = candidate_root u v in
      let hr = candidate_root-IsBelow u v hu hv in
      let turned : IsBelow (2 ^ 52) (conditional_select r (mul sqrt_m1 r) _) =
        select-IsBelow (2 ^ 52) r (mul sqrt_m1 r) _ hr
          (mul-value sqrt_m1 r (omega arith) (small r hr)).1 in
      select-IsBelow (2 ^ 52) _ _ _ turned (negate-value _ (small _ turned)).1
