-- ===== src/CurveModels.antt =====
-- curve25519/solana-ed25519/src/backend/serial/curve_models.rs: points in five kinds of
-- coordinates, and the formulas between them.
use ed25519_verificationtest.Common.{Bool, Subtle}
use ed25519_verificationtest.Field51.{FieldElement51, add, sub, negate, mul, square, square2}
use ed25519_verificationtest.Field.{sqrt_ratio_i, invert, is_negative}
use ed25519_verificationtest.Field
use ed25519_verificationtest.Field51.{field_one, field_zero}

-- `EDWARDS_D` and `EDWARDS_D2` of backend/serial/u64/constants.rs.
abbrev pub edwards_d : FieldElement51
edwards_d = record {
  l0 = 929955233495203;
  l1 = 466365720129213;
  l2 = 1662059464998953;
  l3 = 2033849074728123;
  l4 = 1442794654840575;
}

abbrev pub edwards_d2 : FieldElement51
edwards_d2 = record {
  l0 = 1859910466990425;
  l1 = 932731440258426;
  l2 = 1072319116312658;
  l3 = 1815898335770999;
  l4 = 633789495995903;
}

-- `pub struct EdwardsPoint { X, Y, Z, T }`
pub record EdwardsPoint : Type 0 where
  pub x : FieldElement51
  pub y : FieldElement51
  pub z : FieldElement51
  pub t : FieldElement51

pub record ProjectivePoint : Type 0 where
  pub x : FieldElement51
  pub y : FieldElement51
  pub z : FieldElement51

pub record CompletedPoint : Type 0 where
  pub x : FieldElement51
  pub y : FieldElement51
  pub z : FieldElement51
  pub t : FieldElement51

pub record ProjectiveNielsPoint : Type 0 where
  pub y_plus_x : FieldElement51
  pub y_minus_x : FieldElement51
  pub z : FieldElement51
  pub t2d : FieldElement51

pub record AffineNielsPoint : Type 0 where
  pub y_plus_x : FieldElement51
  pub y_minus_x : FieldElement51
  pub xy2d : FieldElement51

-- `Identity for ProjectivePoint` and `Identity for AffineNielsPoint`
abbrev pub projective_identity : ProjectivePoint
projective_identity = record { x = field_zero; y = field_one; z = field_one }

abbrev pub affine_niels_identity : AffineNielsPoint
affine_niels_identity = record { y_plus_x = field_one; y_minus_x = field_one; xy2d = field_zero }

-- The conversions out of a completed point.
unfoldable pub completed_as_projective : CompletedPoint → ProjectivePoint
completed_as_projective a = record { x = mul a.x a.t; y = mul a.y a.z; z = mul a.z a.t }

unfoldable pub completed_as_extended : CompletedPoint → EdwardsPoint
completed_as_extended a = record {
  x = mul a.x a.t;
  y = mul a.y a.z;
  z = mul a.z a.t;
  t = mul a.x a.y;
}

unfoldable pub projective_as_extended : ProjectivePoint → EdwardsPoint
projective_as_extended a = record {
  x = mul a.x a.z;
  y = mul a.y a.z;
  z = square a.z;
  t = mul a.x a.y;
}

-- `ProjectivePoint::double`
unfoldable pub projective_double : ProjectivePoint → CompletedPoint
projective_double a =
    let xx = square a.x in
    let yy = square a.y in
    let zz2 = square2 a.z in
    let x_plus_y = add a.x a.y in
    let x_plus_y_sq = square x_plus_y in
    let yy_plus_xx = add yy xx in
    let yy_minus_xx = sub yy xx in
    record {
      x = sub x_plus_y_sq yy_plus_xx;
      y = yy_plus_xx;
      z = yy_minus_xx;
      t = sub zz2 yy_minus_xx;
    }

-- `&EdwardsPoint + &ProjectiveNielsPoint`
unfoldable pub add_projective_niels : EdwardsPoint → ProjectiveNielsPoint → CompletedPoint
add_projective_niels a b =
    let y_plus_x = add a.y a.x in
    let y_minus_x = sub a.y a.x in
    let pp = mul y_plus_x b.y_plus_x in
    let mm = mul y_minus_x b.y_minus_x in
    let tt2d = mul a.t b.t2d in
    let zz = mul a.z b.z in
    let zz2 = add zz zz in
    record { x = sub pp mm; y = add pp mm; z = add zz2 tt2d; t = sub zz2 tt2d }

-- `&EdwardsPoint - &ProjectiveNielsPoint`
unfoldable pub sub_projective_niels : EdwardsPoint → ProjectiveNielsPoint → CompletedPoint
sub_projective_niels a b =
    let y_plus_x = add a.y a.x in
    let y_minus_x = sub a.y a.x in
    let pm = mul y_plus_x b.y_minus_x in
    let mp = mul y_minus_x b.y_plus_x in
    let tt2d = mul a.t b.t2d in
    let zz = mul a.z b.z in
    let zz2 = add zz zz in
    record { x = sub pm mp; y = add pm mp; z = sub zz2 tt2d; t = add zz2 tt2d }

-- `&EdwardsPoint + &AffineNielsPoint`
unfoldable pub add_affine_niels : EdwardsPoint → AffineNielsPoint → CompletedPoint
add_affine_niels a b =
    let y_plus_x = add a.y a.x in
    let y_minus_x = sub a.y a.x in
    let pp = mul y_plus_x b.y_plus_x in
    let mm = mul y_minus_x b.y_minus_x in
    let txy2d = mul a.t b.xy2d in
    let z2 = add a.z a.z in
    record { x = sub pp mm; y = add pp mm; z = add z2 txy2d; t = sub z2 txy2d }

-- `&EdwardsPoint - &AffineNielsPoint`
unfoldable pub sub_affine_niels : EdwardsPoint → AffineNielsPoint → CompletedPoint
sub_affine_niels a b =
    let y_plus_x = add a.y a.x in
    let y_minus_x = sub a.y a.x in
    let pm = mul y_plus_x b.y_minus_x in
    let mp = mul y_minus_x b.y_plus_x in
    let txy2d = mul a.t b.xy2d in
    let z2 = add a.z a.z in
    record { x = sub pm mp; y = add pm mp; z = sub z2 txy2d; t = add z2 txy2d }

-- `Neg for &ProjectiveNielsPoint` and `Neg for &AffineNielsPoint`
unfoldable pub niels_neg : ProjectiveNielsPoint → ProjectiveNielsPoint
niels_neg a = record { y_plus_x = a.y_minus_x; y_minus_x = a.y_plus_x; z = a.z; t2d = negate a.t2d }

unfoldable pub affine_niels_neg : AffineNielsPoint → AffineNielsPoint
affine_niels_neg a = record { y_plus_x = a.y_minus_x; y_minus_x = a.y_plus_x; xy2d = negate a.xy2d }

module _ ⦃s : Subtle⦄ where
  -- `ValidityCheck for ProjectivePoint` and `for EdwardsPoint`
  unfoldable pub projective_is_valid : ProjectivePoint → Bool
  projective_is_valid a =
      let xx = square a.x in
      let yy = square a.y in
      let zz = square a.z in
      let zzzz = square zz in
      let lhs = mul (sub yy xx) zz in
      let rhs = add zzzz (mul edwards_d (mul xx yy)) in Field.ct_eq lhs rhs
