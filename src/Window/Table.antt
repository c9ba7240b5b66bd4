-- ===== src/Window/Table.antt =====
-- About the table of multiples of curve25519/solana-ed25519/src/window.rs.
use ed25519_verificationtest.Common.{ℕ, zero, suc, ◌+◌, ◌≡◌, refl, subst, arith, length}
use ed25519_verificationtest.CurveModels.{
  EdwardsPoint, ProjectiveNielsPoint, add_projective_niels, completed_as_extended,
}
use ed25519_verificationtest.Edwards.{as_projective_niels}
use ed25519_verificationtest.Edwards.Points.{IsAffine, completed_as_extended-IsAffine}
use ed25519_verificationtest.Edwards.Addition.{
  IsNiels, as_projective_niels-IsNiels, add_projective_niels-IsCompleted,
}
use ed25519_verificationtest.Window.{table_loop, lookup_table}
use ed25519_verificationtest.Window.Entries.{IsMultiples}
use ed25519_verificationtest.Window.Select.{IsTable}

pub length-lookup_table : (a : EdwardsPoint) → length (lookup_table a) ≡ 8
unfolding lookup_table table_loop
length-lookup_table a = refl

module _ (mx my : ℕ → ℕ → ℕ) (multiples : IsMultiples mx my) (a : EdwardsPoint)
    (h : IsAffine a (mx 1 0) (my 1 0)) where
  table_loop-IsTable :
      (n j : ℕ) (point : ProjectiveNielsPoint)
      → IsNiels point (mx j 0) (my j 0)
      → IsTable mx my j (table_loop n a point)
  unfolding table_loop
  table_loop-IsTable zero j point known = (known, tt)
  table_loop-IsTable (suc n) j point known =
      let next = add_projective_niels a point in
      let summed = completed_as_extended-IsAffine next (mx (1 + j) 0) (my (1 + j) 0) (
        add_projective_niels-IsCompleted a point (mx 1 0) (my 1 0) (mx j 0) (my j 0) (mx (1 + j) 0)
          (my (1 + j) 0) h known (multiples.sum 1 0 j 0)) in
      (
        known,
        table_loop-IsTable n (suc j) (as_projective_niels (completed_as_extended next)) (
            subst
              (λ (t : ℕ).
                IsNiels (as_projective_niels (completed_as_extended next)) (mx t 0) (my t 0))
              (omega arith)
              (as_projective_niels-IsNiels (completed_as_extended next) (mx (1 + j) 0)
                (my (1 + j) 0) summed)),
      )

  pub lookup_table-IsTable : IsTable mx my 1 (lookup_table a)
  unfolding lookup_table
  lookup_table-IsTable =
      table_loop-IsTable 7 1 (as_projective_niels a)
        (as_projective_niels-IsNiels a (mx 1 0) (my 1 0) h)
