-- ===== src/DoubleBase.antt =====
-- curve25519/solana-ed25519/src/backend/serial/scalar_mul/vartime_double_base.rs: a combination of
-- two points, in the build with the feature precomputed-tables.
pub mod Digit
pub mod Combination
pub mod Multiply
use ed25519_verificationtest.Common.{
  ℕ, zero, suc, ◌+◌, ◌-◌, ◌^◌, List, get_or, Bool, not, ◌||◌, ◌==◌, ltb, if◌then◌else◌,
}
use ed25519_verificationtest.CurveModels.{
  EdwardsPoint, ProjectivePoint, ProjectiveNielsPoint, AffineNielsPoint, CompletedPoint,
  projective_identity, affine_niels_identity, add_projective_niels, sub_projective_niels,
  add_affine_niels, sub_affine_niels, completed_as_extended, completed_as_projective,
  projective_as_extended, projective_double,
}
use ed25519_verificationtest.Scalar.{Scalar}
use ed25519_verificationtest.Digits.{non_adjacent_form, sub8}
use ed25519_verificationtest.Window.{naf_lookup_table5, naf_select, niels_identity}
use ed25519_verificationtest.BasepointTable.Verified.{affine_odd_multiples_of_basepoint}

-- `x as usize` of an `i8`.
abbrev pub as_usize : ℕ → ℕ
as_usize x = if ltb x 128 then x else x + (2 ^ 64 - 2 ^ 8)

-- `match digit.cmp(&0)`, with the index that each branch reads.
unfoldable pub by_sign {ℓ} : {A : Type ℓ} → ℕ → A → (ℕ → A) → (ℕ → A) → A
by_sign digit equal greater less =
    if digit == 0
    then equal
    else if ltb digit 128
    then greater (as_usize digit)
    else less (as_usize (sub8 0 digit))

unfoldable pub add_a_digit : List ProjectiveNielsPoint → ℕ → CompletedPoint → CompletedPoint
add_a_digit table_a digit t =
    by_sign digit t
      (λ x. add_projective_niels (completed_as_extended t) (naf_select table_a niels_identity x))
      (λ x. sub_projective_niels (completed_as_extended t) (naf_select table_a niels_identity x))

unfoldable pub add_b_digit : List AffineNielsPoint → ℕ → CompletedPoint → CompletedPoint
add_b_digit table_b digit t =
    by_sign digit t
      (λ x. add_affine_niels (completed_as_extended t) (naf_select table_b affine_niels_identity x))
      (λ x. sub_affine_niels (completed_as_extended t) (naf_select table_b affine_niels_identity x))

-- One round of the loop, on one digit of each scalar.
unfoldable pub double_base_round :
    List ProjectiveNielsPoint → List AffineNielsPoint → ℕ → ℕ → ProjectivePoint → ProjectivePoint
double_base_round table_a table_b x y r =
    let t = projective_double r in
    let t = add_a_digit table_a x t in let t = add_b_digit table_b y t in completed_as_projective t

-- The loop from index `i` down to zero.
unfoldable pub double_base_loop :
    List ProjectiveNielsPoint
    → List AffineNielsPoint
    → List ℕ
    → List ℕ
    → ℕ
    → ProjectivePoint
    → ProjectivePoint
double_base_loop table_a table_b a_naf b_naf zero r =
    double_base_round table_a table_b (get_or a_naf 0 0) (get_or b_naf 0 0) r
double_base_loop table_a table_b a_naf b_naf (suc i) r =
    double_base_loop table_a table_b a_naf b_naf i
      (double_base_round table_a table_b (get_or a_naf (suc i) 0) (get_or b_naf (suc i) 0) r)

-- The search for the first index from above with a digit, below `j`.
unfoldable pub start_index : List ℕ → List ℕ → ℕ → ℕ
start_index a_naf b_naf zero = 0
start_index a_naf b_naf (suc j) =
    if not (get_or a_naf j 0 == 0) || not (get_or b_naf j 0 == 0)
    then j
    else start_index a_naf b_naf j

-- `mul`, with the table of the second point.
unfoldable pub double_base_mul :
    List AffineNielsPoint → Scalar → EdwardsPoint → Scalar → EdwardsPoint
double_base_mul table_b a point b =
    let a_naf = non_adjacent_form a 5 in
    let b_naf = non_adjacent_form b 8 in
    let i = start_index a_naf b_naf 256 in
    let table_a = naf_lookup_table5 point in
    let r = double_base_loop table_a table_b a_naf b_naf i projective_identity in
    projective_as_extended r

-- `vartime_double_base::mul`
abbrev pub vartime_double_base_mul : Scalar → EdwardsPoint → Scalar → EdwardsPoint
vartime_double_base_mul a point b = double_base_mul affine_odd_multiples_of_basepoint a point b
