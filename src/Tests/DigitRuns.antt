-- ===== src/Tests/DigitRuns.antt =====
-- The digit expansions of curve25519/solana-ed25519/src/scalar.rs at concrete scalars.
use ed25519_verificationtest.Common.{
  ℕ, ◌+◌, ◌≡◌, refl, arith, List, [], ◌∷◌, length, tabulate, set, All-IsBytes,
}
use ed25519_verificationtest.Scalar.{Scalar}
use ed25519_verificationtest.Scalar.Arithmetic.{number, IsScalar}
use ed25519_verificationtest.Digits.{
  as_radix_2w, as_radix_16, non_adjacent_form, naf_loop, naf_step, naf_round, bit_buf, read_le_u64,
  positive_sum, negative_sum,
}
use ed25519_verificationtest.Digits.Radix16
use ed25519_verificationtest.Digits.FoldCarry
use ed25519_verificationtest.Digits.Signed
use ed25519_verificationtest.Digits.NonAdjacent

-- Every digit of this scalar gives a carry.
abbrev carrying : Scalar
carrying = record { bytes = set (tabulate 32 0 (λ i. 255)) 31 0x7f }

carrying-IsScalar : IsScalar carrying
carrying-IsScalar = All-IsBytes 32 carrying.bytes refl (omega arith)

as_radix_16-value_example :
    (positive_sum 16 (as_radix_16 carrying)
      ≡ number carrying + negative_sum 16 (as_radix_16 carrying))
    × Radix16.IsBalanced (as_radix_16 carrying)
    × (length (as_radix_16 carrying) ≡ 64)
as_radix_16-value_example = Radix16.as_radix_16-value carrying carrying-IsScalar (omega arith)

non_adjacent_form-value_example :
    (positive_sum 2 (non_adjacent_form carrying 5)
      ≡ number carrying + negative_sum 2 (non_adjacent_form carrying 5))
    × NonAdjacent.IsNonAdjacent 5 (non_adjacent_form carrying 5)
non_adjacent_form-value_example =
    NonAdjacent.non_adjacent_form-value carrying 5 carrying-IsScalar (omega arith) (omega arith)
      (omega arith)

as_radix_2w-IsSignedExpansion_example :
    FoldCarry.IsSignedExpansion 8 (number carrying) (as_radix_2w carrying 8)
as_radix_2w-IsSignedExpansion_example =
    Signed.as_radix_2w-IsSignedExpansion carrying 8 carrying-IsScalar (omega arith) (omega arith)
      (omega arith)

-- The test vector of scalar.rs: a scalar and its expansion of width 5.
abbrev a_scalar : Scalar
a_scalar = record {
  bytes =
      0x1a ∷ 0x0e ∷ 0x97 ∷ 0x8a ∷ 0x90 ∷ 0xf6 ∷ 0x62 ∷ 0x2d ∷ 0x37 ∷ 0x47 ∷ 0x02 ∷ 0x3f ∷ 0x8a
      ∷ 0xd8 ∷ 0x26 ∷ 0x4d ∷ 0xa7 ∷ 0x58 ∷ 0xaa ∷ 0x1b ∷ 0x88 ∷ 0xe0 ∷ 0x40 ∷ 0xd1 ∷ 0x58 ∷ 0x9e
      ∷ 0x7b ∷ 0x7f ∷ 0x23 ∷ 0x76 ∷ 0xef ∷ 0x09 ∷ [];
}

abbrev a_naf : List ℕ
a_naf =
    0 ∷ 13 ∷ 0 ∷ 0 ∷ 0 ∷ 0 ∷ 0 ∷ 0 ∷ 0 ∷ 7 ∷ 0 ∷ 0 ∷ 0 ∷ 0 ∷ 0 ∷ 0 ∷ 247 ∷ 0 ∷ 0 ∷ 0 ∷ 0 ∷ 245 ∷ 0
    ∷ 0 ∷ 0 ∷ 0 ∷ 3 ∷ 0 ∷ 0 ∷ 0 ∷ 0 ∷ 1 ∷ 0 ∷ 0 ∷ 0 ∷ 0 ∷ 9 ∷ 0 ∷ 0 ∷ 0 ∷ 0 ∷ 251 ∷ 0 ∷ 0 ∷ 0 ∷ 0
    ∷ 0 ∷ 0 ∷ 3 ∷ 0 ∷ 0 ∷ 0 ∷ 0 ∷ 11 ∷ 0 ∷ 0 ∷ 0 ∷ 0 ∷ 11 ∷ 0 ∷ 0 ∷ 0 ∷ 0 ∷ 0 ∷ 247 ∷ 0 ∷ 0 ∷ 0 ∷ 0
    ∷ 0 ∷ 253 ∷ 0 ∷ 0 ∷ 0 ∷ 0 ∷ 9 ∷ 0 ∷ 0 ∷ 0 ∷ 0 ∷ 0 ∷ 1 ∷ 0 ∷ 0 ∷ 0 ∷ 0 ∷ 0 ∷ 0 ∷ 255 ∷ 0 ∷ 0 ∷ 0
    ∷ 0 ∷ 0 ∷ 9 ∷ 0 ∷ 0 ∷ 0 ∷ 0 ∷ 241 ∷ 0 ∷ 0 ∷ 0 ∷ 0 ∷ 249 ∷ 0 ∷ 0 ∷ 0 ∷ 0 ∷ 247 ∷ 0 ∷ 0 ∷ 0 ∷ 0
    ∷ 0 ∷ 5 ∷ 0 ∷ 0 ∷ 0 ∷ 0 ∷ 13 ∷ 0 ∷ 0 ∷ 0 ∷ 0 ∷ 0 ∷ 253 ∷ 0 ∷ 0 ∷ 0 ∷ 0 ∷ 245 ∷ 0 ∷ 0 ∷ 0 ∷ 0
    ∷ 249 ∷ 0 ∷ 0 ∷ 0 ∷ 0 ∷ 243 ∷ 0 ∷ 0 ∷ 0 ∷ 0 ∷ 11 ∷ 0 ∷ 0 ∷ 0 ∷ 0 ∷ 247 ∷ 0 ∷ 0 ∷ 0 ∷ 0 ∷ 0 ∷ 1
    ∷ 0 ∷ 0 ∷ 0 ∷ 0 ∷ 0 ∷ 241 ∷ 0 ∷ 0 ∷ 0 ∷ 0 ∷ 1 ∷ 0 ∷ 0 ∷ 0 ∷ 0 ∷ 7 ∷ 0 ∷ 0 ∷ 0 ∷ 0 ∷ 0 ∷ 0 ∷ 0
    ∷ 0 ∷ 5 ∷ 0 ∷ 0 ∷ 0 ∷ 0 ∷ 0 ∷ 13 ∷ 0 ∷ 0 ∷ 0 ∷ 0 ∷ 0 ∷ 0 ∷ 11 ∷ 0 ∷ 0 ∷ 0 ∷ 0 ∷ 0 ∷ 15 ∷ 0 ∷ 0
    ∷ 0 ∷ 0 ∷ 0 ∷ 247 ∷ 0 ∷ 0 ∷ 0 ∷ 0 ∷ 0 ∷ 0 ∷ 0 ∷ 255 ∷ 0 ∷ 0 ∷ 0 ∷ 0 ∷ 0 ∷ 0 ∷ 0 ∷ 7 ∷ 0 ∷ 0 ∷ 0
    ∷ 0 ∷ 0 ∷ 241 ∷ 0 ∷ 0 ∷ 0 ∷ 0 ∷ 0 ∷ 15 ∷ 0 ∷ 0 ∷ 0 ∷ 0 ∷ 15 ∷ 0 ∷ 0 ∷ 0 ∷ 0 ∷ 15 ∷ 0 ∷ 0 ∷ 0 ∷ 0
    ∷ 0 ∷ 1 ∷ 0 ∷ 0 ∷ 0 ∷ 0 ∷ []

non_adjacent_form_test_vector : non_adjacent_form a_scalar 5 ≡ a_naf
unfolding non_adjacent_form naf_loop naf_step naf_round bit_buf read_le_u64
non_adjacent_form_test_vector = refl
