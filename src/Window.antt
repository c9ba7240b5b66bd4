-- ===== src/Window.antt =====
-- curve25519/solana-ed25519/src/window.rs: the table of the first eight multiples of a point, and
-- the selection from it without branches.
pub mod Entries
pub mod Select
pub mod Table
pub mod Odd
use ed25519_verificationtest.Common.{
  ℕ, zero, suc, ◌+◌, ◌-◌, ◌^◌, ◌%◌, Bool, ◌&&◌, if◌then◌else◌, List, [], ◌∷◌, shr, ltb, ◌==◌,
  Subtle, bit_xor, bit_and,
}
use ed25519_verificationtest.Field51.{field_zero, field_one, conditional_select}
use ed25519_verificationtest.CurveModels.{
  EdwardsPoint, ProjectiveNielsPoint, add_projective_niels, completed_as_extended, niels_neg,
}
use ed25519_verificationtest.Edwards.{as_projective_niels, edwards_double}
use ed25519_verificationtest.Common.{get_or, ◌/◌}

-- `Identity for ProjectiveNielsPoint`
abbrev pub niels_identity : ProjectiveNielsPoint
niels_identity = record {
  y_plus_x = field_one;
  y_minus_x = field_one;
  z = field_one;
  t2d = field_zero;
}

-- An `i16` is its bit pattern, a number below 2^16: `x as i16` for an `i8`, the sum, and `x >> k`,
-- which keeps the sign.
abbrev pub as_i16 : ℕ → ℕ
as_i16 x = if ltb x 128 then x else x + (2 ^ 16 - 2 ^ 8)

abbrev pub add16 : ℕ → ℕ → ℕ
add16 a b = (a + b) % 2 ^ 16

abbrev pub sar16 : ℕ → ℕ → ℕ
sar16 x k = if ltb x (2 ^ 15) then shr x k else 2 ^ 16 - 1 - shr (2 ^ 16 - 1 - x) k

-- The absolute value in `select`.
unfoldable pub x_mask : ℕ → ℕ
x_mask x = sar16 (as_i16 x) 7

unfoldable pub x_abs : ℕ → ℕ
x_abs x = bit_xor (add16 (as_i16 x) (x_mask x)) (x_mask x)

module _ ⦃s : Subtle⦄ where
  -- `conditional_select` and `conditional_assign` of ProjectiveNielsPoint.
  unfoldable pub niels_assign :
      ProjectiveNielsPoint → ProjectiveNielsPoint → Bool → ProjectiveNielsPoint
  niels_assign a b choice = record {
    y_plus_x = conditional_select a.y_plus_x b.y_plus_x choice;
    y_minus_x = conditional_select a.y_minus_x b.y_minus_x choice;
    z = conditional_select a.z b.z choice;
    t2d = conditional_select a.t2d b.t2d choice;
  }

  -- The loop of `select`, over the entries that are left, with `j` for the first of them. An
  -- integer is compared as an array of one.
  unfoldable pub select_loop :
      ℕ → ℕ → List ProjectiveNielsPoint → ProjectiveNielsPoint → ProjectiveNielsPoint
  select_loop j absolute [] t = t
  select_loop j absolute (point ∷ points) t =
      let c = s.ct_eq (absolute ∷ []) (j ∷ []) in
      select_loop (suc j) absolute points (niels_assign t point c)

  -- `LookupTable::select`
  unfoldable pub select : List ProjectiveNielsPoint → ℕ → ProjectiveNielsPoint
  select points x =
      let t = select_loop 1 (x_abs x) points niels_identity in
      let neg_mask = bit_and (x_mask x) 1 == 1 in niels_assign t (niels_neg t) neg_mask

-- The entries of the table from one on, with `n` to come.
unfoldable pub table_loop : ℕ → EdwardsPoint → ProjectiveNielsPoint → List ProjectiveNielsPoint
table_loop zero a point = point ∷ []
table_loop (suc n) a point =
    point
    ∷ table_loop n a (as_projective_niels (completed_as_extended (add_projective_niels a point)))

-- `From<&EdwardsPoint> for LookupTable<ProjectiveNielsPoint>`
unfoldable pub lookup_table : EdwardsPoint → List ProjectiveNielsPoint
lookup_table a = table_loop 7 a (as_projective_niels a)

-- The entries of the table of odd multiples from one on, with `n` to come.
unfoldable pub naf_table_loop : ℕ → EdwardsPoint → ProjectiveNielsPoint → List ProjectiveNielsPoint
naf_table_loop zero a2 point = point ∷ []
naf_table_loop (suc n) a2 point =
    point
    ∷ naf_table_loop n a2
        (as_projective_niels (completed_as_extended (add_projective_niels a2 point)))

-- `From<&EdwardsPoint> for NafLookupTable5<ProjectiveNielsPoint>`
unfoldable pub naf_lookup_table5 : EdwardsPoint → List ProjectiveNielsPoint
naf_lookup_table5 a = naf_table_loop 7 (edwards_double a) (as_projective_niels a)

-- `select` of NafLookupTable5 and of NafLookupTable8, with `default` where the code would panic.
abbrev pub naf_select {ℓ} : {A : Type ℓ} → List A → A → ℕ → A
naf_select points default x = get_or points (x / 2) default
