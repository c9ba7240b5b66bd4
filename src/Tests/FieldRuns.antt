-- ===== src/Tests/FieldRuns.antt =====
-- curve25519/solana-ed25519/src/field.rs at concrete elements, and its test vectors.
use ed25519_verificationtest.Common.{
  ℕ, ◌-◌, ◌*◌, ◌^◌, ◌%◌, ◌≡◌, ◌↔◌, true, false, refl, arith, plain_subtle, Congr,
}
use ed25519_verificationtest.Field51.{
  FieldElement51, value, p, IsBelow, field_one, minus_one, negate,
}
use ed25519_verificationtest.Field.{is_negative, ct_eq, invert, pow_p58, sqrt_ratio_i, invsqrt}
use ed25519_verificationtest.Field.Power
use ed25519_verificationtest.Field.Sign
use ed25519_verificationtest.Field.SquareRoot
use ed25519_verificationtest.Field51.Bytes.{
  from_bytes, to_bytes, pack_limbs, canonical_limbs, quotient,
}
use ed25519_verificationtest.Tests.Field51Runs.{a_bytes, full, overfull}
use ed25519_verificationtest.Field.{candidate_root}
use ed25519_verificationtest.Field.{pow22501}
use ed25519_verificationtest.Field.{flip_root}
use ed25519_verificationtest.Field.{nonnegative_root}
use ed25519_verificationtest.Field51.{reduce}
use ed25519_verificationtest.Field51.{low_51}
use ed25519_verificationtest.Field51.{mul}
use ed25519_verificationtest.Field51.{mul_coefficients}
use ed25519_verificationtest.Field51.{carry_chain}
use ed25519_verificationtest.Field51.{square}
use ed25519_verificationtest.Field51.{square_coefficients}
use ed25519_verificationtest.Field51.{square_round}
use ed25519_verificationtest.Field51.{square_rounds}
use ed25519_verificationtest.Field51.{pow2k}
use ed25519_verificationtest.Field51.{conditional_select}
use ed25519_verificationtest.Common.{List, load8_at}
use ed25519_verificationtest.Common.{◌∷◌}
use ed25519_verificationtest.Common.{[]}

abbrev four : FieldElement51
four = record { l0 = 4; l1 = 0; l2 = 0; l3 = 0; l4 = 0 }

invert-IsPower_example : Power.IsPower full (2 ^ 255 - 21) (invert full)
invert-IsPower_example = Power.invert-IsPower full (omega arith)

is_negative_iff_example : (is_negative overfull ≡ true) ↔ (value overfull % p % 2 ≡ 1)
is_negative_iff_example = Sign.is_negative_iff overfull (omega arith)

ct_eq_iff_example : (ct_eq overfull minus_one ≡ true) ↔ Congr p (value overfull) (value minus_one)
ct_eq_iff_example = Sign.ct_eq_iff overfull minus_one (omega arith) (omega arith)

four_over_one : (sqrt_ratio_i four field_one).0 ≡ true
unfolding sqrt_ratio_i candidate_root pow_p58 pow22501 flip_root nonnegative_root is_negative ct_eq
    to_bytes pack_limbs canonical_limbs quotient reduce low_51 mul mul_coefficients carry_chain
    square square_coefficients square_round square_rounds pow2k negate conditional_select
four_over_one = refl

sqrt_ratio_i-sound_example :
    let root = value (sqrt_ratio_i four field_one).1 in
    Congr p (value field_one * (root * root)) (value four)
sqrt_ratio_i-sound_example =
    SquareRoot.sqrt_ratio_i_sound four field_one (omega arith) (omega arith) four_over_one

sqrt_ratio_i-nonnegative_example :
    (is_negative (sqrt_ratio_i full four).1 ≡ false) × IsBelow (2 ^ 54) (sqrt_ratio_i full four).1
sqrt_ratio_i-nonnegative_example =
    SquareRoot.sqrt_ratio_i_nonnegative full four (omega arith) (omega arith)

four_has_root : (invsqrt four).0 ≡ true
unfolding invsqrt sqrt_ratio_i candidate_root pow_p58 pow22501 flip_root nonnegative_root
    is_negative ct_eq to_bytes pack_limbs canonical_limbs quotient reduce low_51 mul
    mul_coefficients carry_chain square square_coefficients square_round square_rounds pow2k negate
    conditional_select
four_has_root = refl

-- The test vectors of field.rs: the square, the inverse and the power by (p - 5) / 8 of one element.
abbrev asq_bytes : List ℕ
asq_bytes =
    0x75 ∷ 0x97 ∷ 0x24 ∷ 0x9e ∷ 0xe6 ∷ 0x06 ∷ 0xfe ∷ 0xab ∷ 0x24 ∷ 0x04 ∷ 0x56 ∷ 0x68 ∷ 0x07 ∷ 0x91
    ∷ 0x2d ∷ 0x5d ∷ 0x0b ∷ 0x0f ∷ 0x3f ∷ 0x1c ∷ 0xb2 ∷ 0x6e ∷ 0xf2 ∷ 0xe2 ∷ 0x63 ∷ 0x9c ∷ 0x12
    ∷ 0xba ∷ 0x73 ∷ 0x0b ∷ 0xe3 ∷ 0x62 ∷ []

abbrev ainv_bytes : List ℕ
ainv_bytes =
    0x96 ∷ 0x1b ∷ 0xcd ∷ 0x8d ∷ 0x4d ∷ 0x5e ∷ 0xa2 ∷ 0x3a ∷ 0xe9 ∷ 0x36 ∷ 0x37 ∷ 0x93 ∷ 0xdb ∷ 0x7b
    ∷ 0x4d ∷ 0x70 ∷ 0xb8 ∷ 0x0d ∷ 0xc0 ∷ 0x55 ∷ 0xd0 ∷ 0x4c ∷ 0x1d ∷ 0x7b ∷ 0x90 ∷ 0x71 ∷ 0xd8
    ∷ 0xe9 ∷ 0xb6 ∷ 0x18 ∷ 0xe6 ∷ 0x30 ∷ []

abbrev ap58_bytes : List ℕ
ap58_bytes =
    0x6a ∷ 0x4f ∷ 0x24 ∷ 0x89 ∷ 0x1f ∷ 0x57 ∷ 0x60 ∷ 0x36 ∷ 0xd0 ∷ 0xbe ∷ 0x12 ∷ 0x3c ∷ 0x8f ∷ 0xf5
    ∷ 0xb1 ∷ 0x59 ∷ 0xe0 ∷ 0xf0 ∷ 0xb8 ∷ 0x1b ∷ 0x20 ∷ 0xd2 ∷ 0xb5 ∷ 0x1f ∷ 0x15 ∷ 0x21 ∷ 0xf9
    ∷ 0xe3 ∷ 0xe1 ∷ 0x61 ∷ 0x21 ∷ 0x55 ∷ []

a_square_vs_a_squared_constant : to_bytes (square (from_bytes a_bytes)) ≡ asq_bytes
unfolding pow_p58 pow22501 to_bytes pack_limbs canonical_limbs quotient reduce low_51 mul
    mul_coefficients carry_chain square square_coefficients square_round square_rounds pow2k
    from_bytes load8_at
a_square_vs_a_squared_constant = refl

a_invert_vs_inverse_of_a_constant : to_bytes (invert (from_bytes a_bytes)) ≡ ainv_bytes
unfolding invert pow_p58 pow22501 to_bytes pack_limbs canonical_limbs quotient reduce low_51 mul
    mul_coefficients carry_chain square square_coefficients square_round square_rounds pow2k
    from_bytes load8_at
a_invert_vs_inverse_of_a_constant = refl

a_p58_vs_ap58_constant : to_bytes (pow_p58 (from_bytes a_bytes)) ≡ ap58_bytes
unfolding pow_p58 pow22501 to_bytes pack_limbs canonical_limbs quotient reduce low_51 mul
    mul_coefficients carry_chain square square_coefficients square_round square_rounds pow2k
    from_bytes load8_at
a_p58_vs_ap58_constant = refl
