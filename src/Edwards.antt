-- ===== src/Edwards.antt =====
-- curve25519/solana-ed25519/src/edwards.rs and curve25519/solana-ed25519/src/edwards/affine.rs:
-- points in extended coordinates, their operations and their encoding.
pub mod Denotes
pub mod Points
pub mod Addition
pub mod Law
pub mod Doubling
pub mod Decompress
pub mod Closure
pub mod Compress
pub mod Mixed
pub mod Validity
use ed25519_verificationtest.Common.{
  ℕ, zero, suc, Bool, ◌&&◌, Option, none, some, if◌then◌else◌, List, byte, shr, ◌==◌, Subtle,
}
use ed25519_verificationtest.Field51.{
  FieldElement51, field_zero, field_one, add, sub, negate, mul, square, square2, conditional_select,
}
use ed25519_verificationtest.Common.{set, bit_xor}
use ed25519_verificationtest.Field51.Bytes.{to_bytes}
use ed25519_verificationtest.Field.{sqrt_ratio_i, invert, is_negative}
use ed25519_verificationtest.Field
use ed25519_verificationtest.Field51
use ed25519_verificationtest.Field51.Bytes.{from_bytes}
use ed25519_verificationtest.Common.{◌^◌}
use ed25519_verificationtest.Common.{◌-◌}
use ed25519_verificationtest.CurveModels.{
  edwards_d, edwards_d2, EdwardsPoint, ProjectivePoint, CompletedPoint, ProjectiveNielsPoint,
  AffineNielsPoint, completed_as_projective, completed_as_extended, projective_as_extended,
  projective_double, add_projective_niels, sub_projective_niels, add_affine_niels, sub_affine_niels,
  niels_neg, affine_niels_neg, projective_is_valid,
}

-- `Identity for EdwardsPoint`
abbrev pub identity : EdwardsPoint
identity = record { x = field_zero; y = field_one; z = field_one; t = field_zero }

unfoldable pub as_projective_niels : EdwardsPoint → ProjectiveNielsPoint
as_projective_niels a = record {
  y_plus_x = add a.y a.x;
  y_minus_x = sub a.y a.x;
  z = a.z;
  t2d = mul a.t edwards_d2;
}

unfoldable pub as_projective : EdwardsPoint → ProjectivePoint
as_projective a = record { x = a.x; y = a.y; z = a.z }

-- `ED25519_BASEPOINT_POINT` of backend/serial/u64/constants.rs.
abbrev pub ed25519_basepoint_point : EdwardsPoint
ed25519_basepoint_point = record {
  x = record {
    l0 = 1738742601995546;
    l1 = 1146398526822698;
    l2 = 2070867633025821;
    l3 = 562264141797630;
    l4 = 587772402128613;
  };
  y = record {
    l0 = 1801439850948184;
    l1 = 1351079888211148;
    l2 = 450359962737049;
    l3 = 900719925474099;
    l4 = 1801439850948198;
  };
  z = field_one;
  t = record {
    l0 = 1841354044333475;
    l1 = 16398895984059;
    l2 = 755974180946558;
    l3 = 900171276175154;
    l4 = 1821297809914039;
  };
}

-- `EdwardsPoint`: sum, difference, double and negation.
unfoldable pub edwards_add : EdwardsPoint → EdwardsPoint → EdwardsPoint
edwards_add a b = completed_as_extended (add_projective_niels a (as_projective_niels b))

unfoldable pub edwards_sub : EdwardsPoint → EdwardsPoint → EdwardsPoint
edwards_sub a b = completed_as_extended (sub_projective_niels a (as_projective_niels b))

unfoldable pub edwards_double : EdwardsPoint → EdwardsPoint
edwards_double a = completed_as_extended (projective_double (as_projective a))

unfoldable pub edwards_neg : EdwardsPoint → EdwardsPoint
edwards_neg a = record { x = negate a.x; y = a.y; z = a.z; t = negate a.t }

-- `AffinePoint` of edwards/affine.rs.
pub record AffinePoint : Type 0 where
  pub x : FieldElement51
  pub y : FieldElement51

unfoldable pub to_affine : EdwardsPoint → AffinePoint
to_affine a =
    let recip = invert a.z in
    let x = mul a.x recip in let y = mul a.y recip in record { x = x; y = y }

unfoldable pub to_edwards : AffinePoint → EdwardsPoint
to_edwards a = record { x = a.x; y = a.y; z = field_one; t = mul a.x a.y }

-- `unwrap_u8() << 7`
abbrev pub sign_mask : Bool → ℕ
sign_mask choice = if choice then 128 else 0

-- `AffinePoint::compress`
unfoldable pub affine_compress : AffinePoint → List ℕ
affine_compress a =
    let s = to_bytes a.y in set s 31 (bit_xor (byte s 31) (sign_mask (is_negative a.x)))

unfoldable pub compress : EdwardsPoint → List ℕ
compress a = affine_compress (to_affine a)

-- The loop of `mul_by_pow_2`, and its last turn.
unfoldable pub doublings : ℕ → ProjectivePoint → ProjectivePoint
doublings zero s = s
doublings (suc k) s = doublings k (completed_as_projective (projective_double s))

-- `k - 1` rounds, and one that goes to extended coordinates.
unfoldable pub mul_by_pow_2 : EdwardsPoint → ℕ → EdwardsPoint
mul_by_pow_2 a zero =
    completed_as_extended (projective_double (doublings (2 ^ 32 - 1) (as_projective a)))
mul_by_pow_2 a (suc k) = completed_as_extended (projective_double (doublings k (as_projective a)))

abbrev pub mul_by_cofactor : EdwardsPoint → EdwardsPoint
mul_by_cofactor a = mul_by_pow_2 a 3

module _ ⦃s : Subtle⦄ where
  -- `ConstantTimeEq for EdwardsPoint`
  unfoldable pub edwards_ct_eq : EdwardsPoint → EdwardsPoint → Bool
  edwards_ct_eq a b =
      Field.ct_eq (mul a.x b.z) (mul b.x a.z) && Field.ct_eq (mul a.y b.z) (mul b.y a.z)

  unfoldable pub edwards_is_valid : EdwardsPoint → Bool
  edwards_is_valid a =
      let point_on_curve = projective_is_valid (as_projective a) in
      let on_segre_image = Field.ct_eq (mul a.x a.y) (mul a.z a.t) in
      point_on_curve && on_segre_image

  -- `decompress::step_1`, without `Z`, which is one.
  unfoldable pub step_1 : List ℕ → Bool × FieldElement51 × FieldElement51
  step_1 repr =
      let y = from_bytes repr in
      let z = field_one in
      let yy = square y in
      let u = sub yy z in
      let v = add (mul yy edwards_d) z in
      let (is_valid_y_coord, x) = sqrt_ratio_i u v in (is_valid_y_coord, x, y)

  -- `conditional_negate`
  unfoldable pub conditional_negate : FieldElement51 → Bool → FieldElement51
  conditional_negate a choice = conditional_select a (negate a) choice

  -- `decompress::step_2`
  unfoldable pub step_2 : List ℕ → FieldElement51 → FieldElement51 → EdwardsPoint
  step_2 repr x0 y =
      let compressed_sign_bit = shr (byte repr 31) 7 == 1 in
      let x = conditional_negate x0 compressed_sign_bit in
      record { x = x; y = y; z = field_one; t = mul x y }

  -- `CompressedEdwardsY::decompress`
  unfoldable pub decompress : List ℕ → Option EdwardsPoint
  decompress repr =
      let (is_valid_y_coord, x, y) = step_1 repr in
      if is_valid_y_coord then some (step_2 repr x y) else none
