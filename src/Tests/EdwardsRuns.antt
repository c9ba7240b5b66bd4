-- ===== src/Tests/EdwardsRuns.antt =====
-- curve25519/solana-ed25519/src/edwards.rs at concrete points, among them the base point.
use ed25519_verificationtest.CurveModels.{EdwardsPoint}
use ed25519_verificationtest.Common.{
  ℕ, ◌-◌, ◌*◌, ◌≡◌, refl, arith, List, true, some, tabulate, set, All-IsBytes, IsBytes, Congr,
  Congr-refl, plain_subtle, ◌↔◌,
}
use ed25519_verificationtest.Field51.{field_zero, field_one, value, p}
use ed25519_verificationtest.Field.{sqrt_m1, is_negative}
use ed25519_verificationtest.Edwards.{
  edwards_add, edwards_sub, edwards_ct_eq, mul_by_pow_2, decompress,
}
use ed25519_verificationtest.Edwards.{ed25519_basepoint_point, step_1, step_2, conditional_negate}
use ed25519_verificationtest.Field.{
  sqrt_ratio_i, candidate_root, pow_p58, pow22501, flip_root, nonnegative_root, ct_eq,
}
use ed25519_verificationtest.Field51.Bytes.{
  to_bytes, pack_limbs, canonical_limbs, quotient, from_bytes,
}
use ed25519_verificationtest.Common.{load8_at}
use ed25519_verificationtest.Field51.{
  reduce, low_51, mul, mul_coefficients, carry_chain, add, sub, square, square_coefficients,
  square_round, square_rounds, pow2k, negate, conditional_select,
}
use ed25519_verificationtest.Edwards.Points.{
  IsProjective, IsUnit-two, IsAffine, IsSum, IsOnCurve, IsUnit,
}
use ed25519_verificationtest.Edwards.Law
use ed25519_verificationtest.Edwards.Doubling
use ed25519_verificationtest.Edwards.Doubling.{IsDouble, Doublings}
use ed25519_verificationtest.Edwards.Validity
use ed25519_verificationtest.Edwards.{edwards_is_valid, as_projective}
use ed25519_verificationtest.Edwards.Compress
use ed25519_verificationtest.Edwards.Decompress

-- A point of order four, `(sqrt(-1), 0)`, and its double `(0, -1)`.
abbrev turn : ℕ
turn = value sqrt_m1

abbrev quarter : EdwardsPoint
quarter = record { x = sqrt_m1; y = field_zero; z = field_one; t = field_zero }

one-IsUnit : IsUnit 1
one-IsUnit = record { inverse = 1; product = Congr-refl p 1 }

quarter-IsAffine : IsAffine quarter turn 0
quarter-IsAffine = record {
  scale = 1;
  unit = one-IsUnit;
  denotes_x = record { below = omega arith; same = record { same = refl } };
  denotes_y = record { below = omega arith; same = record { same = refl } };
  denotes_z = record { below = omega arith; same = record { same = refl } };
  denotes_t = record { below = omega arith; same = record { same = refl } };
}

quarter-IsOnCurve : IsOnCurve turn 0
unfolding IsOnCurve
quarter-IsOnCurve = record { same = refl }

-- Twice the point of order four.
quarter-IsSum : IsSum turn 0 turn 0 0 (p - 1)
quarter-IsSum = record {
  unit_plus = one-IsUnit;
  unit_minus = one-IsUnit;
  sum_x = record { same = refl };
  sum_y = record { same = refl };
}

quarter-IsDouble : IsDouble turn 0 0 (p - 1)
quarter-IsDouble = record { curve = quarter-IsOnCurve; sum = quarter-IsSum }

half-IsOnCurve : IsOnCurve 0 (p - 1)
unfolding IsOnCurve
half-IsOnCurve = record { same = refl }

half-IsDouble : IsDouble 0 (p - 1) 0 1
half-IsDouble = record {
  curve = half-IsOnCurve;
  sum = record {
    unit_plus = one-IsUnit;
    unit_minus = one-IsUnit;
    sum_x = record { same = refl };
    sum_y = record { same = refl };
  };
}

edwards_add-IsAffine_example : IsAffine (edwards_add quarter quarter) 0 (p - 1)
edwards_add-IsAffine_example =
    Law.edwards_add-IsAffine quarter quarter turn 0 turn 0 0 (p - 1) quarter-IsAffine
      quarter-IsAffine quarter-IsSum

edwards_sub-IsAffine_example : IsAffine (edwards_sub quarter quarter) 0 1
edwards_sub-IsAffine_example =
    Law.edwards_sub-IsAffine quarter quarter turn 0 turn 0 0 1 quarter-IsAffine quarter-IsAffine
      (record {
        unit_plus = one-IsUnit;
        unit_minus = one-IsUnit;
        sum_x = record { same = refl };
        sum_y = record { same = refl };
      })

edwards_ct_eq_iff_example :
    (edwards_ct_eq ⦃s = plain_subtle⦄ quarter quarter ≡ true) ↔ (Congr p turn turn × Congr p 0 0)
edwards_ct_eq_iff_example =
    Law.edwards_ct_eq_iff ⦃s = plain_subtle⦄ quarter quarter turn 0 turn 0 quarter-IsAffine
      quarter-IsAffine

mul_by_pow_2-IsAffine_example : IsAffine (mul_by_pow_2 quarter 2) 0 1
mul_by_pow_2-IsAffine_example =
    Doubling.mul_by_pow_2-IsAffine quarter 1 turn 0 0 (p - 1) 0 1 quarter-IsAffine
      (Doublings.more quarter-IsDouble Doublings.none) half-IsDouble

-- The same point with the scale two.
abbrev scaled_quarter : EdwardsPoint
scaled_quarter = record {
  x = record {
    l0 = 2 * sqrt_m1.l0;
    l1 = 2 * sqrt_m1.l1;
    l2 = 2 * sqrt_m1.l2;
    l3 = 2 * sqrt_m1.l3;
    l4 = 2 * sqrt_m1.l4;
  };
  y = field_zero;
  z = record { l0 = 2; l1 = 0; l2 = 0; l3 = 0; l4 = 0 };
  t = field_zero;
}

scaled_quarter-IsProjective : IsProjective (as_projective scaled_quarter) turn 0
unfolding as_projective
scaled_quarter-IsProjective = record {
  scale = 2;
  unit = IsUnit-two;
  denotes_x = record { below = omega arith; same = record { same = refl } };
  denotes_y = record { below = omega arith; same = record { same = refl } };
  denotes_z = record { below = omega arith; same = record { same = refl } };
}

edwards_is_valid_iff_example : (edwards_is_valid ⦃s = plain_subtle⦄ scaled_quarter ≡ true) ↔ (
    IsOnCurve turn 0
    × Congr p (value scaled_quarter.t) (turn * 0 * scaled_quarter-IsProjective.scale))
edwards_is_valid_iff_example =
    Validity.edwards_is_valid_iff ⦃s = plain_subtle⦄ scaled_quarter turn 0
      scaled_quarter-IsProjective (omega arith)

quarter-is_valid : edwards_is_valid ⦃s = plain_subtle⦄ quarter ≡ true
quarter-is_valid =
    (Validity.edwards_is_valid-IsAffine ⦃s = plain_subtle⦄ quarter turn 0 quarter-IsAffine).1
      quarter-IsOnCurve

edwards_add-edwards_is_valid_example :
    edwards_is_valid ⦃s = plain_subtle⦄ (edwards_add quarter quarter) ≡ true
edwards_add-edwards_is_valid_example =
    Validity.edwards_add-edwards_is_valid ⦃s = plain_subtle⦄ quarter quarter turn 0 turn 0 0 (p - 1)
      quarter-IsAffine quarter-IsAffine quarter-is_valid quarter-is_valid quarter-IsSum

-- The encoding of the base point, `y = 4 / 5`.
abbrev base_bytes : List ℕ
base_bytes = set (tabulate 32 0 (λ i. 0x66)) 0 0x58

base_bytes-IsBytes : IsBytes 32 base_bytes
base_bytes-IsBytes = All-IsBytes 32 base_bytes refl (omega arith)

decompress_base : decompress ⦃s = plain_subtle⦄ base_bytes ≡ some ed25519_basepoint_point
unfolding decompress step_1 step_2 conditional_negate sqrt_ratio_i candidate_root pow_p58 pow22501
    flip_root nonnegative_root is_negative ct_eq to_bytes pack_limbs canonical_limbs quotient
    from_bytes load8_at reduce low_51 mul mul_coefficients carry_chain add sub square
    square_coefficients square_round square_rounds pow2k negate conditional_select
decompress_base = refl

decompress-IsDecompressed_example : Decompress.IsDecompressed base_bytes ed25519_basepoint_point
decompress-IsDecompressed_example =
    Decompress.decompress-IsDecompressed ⦃s = plain_subtle⦄ base_bytes base_bytes-IsBytes
      ed25519_basepoint_point decompress_base
