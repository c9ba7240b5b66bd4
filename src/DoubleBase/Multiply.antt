-- ===== src/DoubleBase/Multiply.antt =====
-- About `mul` of curve25519/solana-ed25519/src/backend/serial/scalar_mul/vartime_double_base.rs,
-- with the digits of curve25519/solana-ed25519/src/scalar.rs and the tables of
-- curve25519/solana-ed25519/src/window.rs.
use ed25519_verificationtest.Common.{ℕ, ◌^◌, ◌<◌, ◌≡◌, refl, arith, List, length, Congr}
use ed25519_verificationtest.Field51.{p}
use ed25519_verificationtest.CurveModels.{EdwardsPoint, AffineNielsPoint}
use ed25519_verificationtest.Edwards.Points.{IsAffine}
use ed25519_verificationtest.Scalar.{Scalar}
use ed25519_verificationtest.Scalar.Arithmetic.{number, IsScalar}
use ed25519_verificationtest.Digits.{positive_sum, negative_sum, non_adjacent_form}
use ed25519_verificationtest.Digits.NonAdjacent.{non_adjacent_form-value}
use ed25519_verificationtest.Digits.Bytes.{non_adjacent_form-lt}
use ed25519_verificationtest.Window.{naf_lookup_table5}
use ed25519_verificationtest.Window.Entries.{IsAffine-change}
use ed25519_verificationtest.Window.Odd.{
  IsCombinations, IsOddAffineTable, naf_lookup_table5-IsOddTable, length-naf_lookup_table5,
}
use ed25519_verificationtest.BasepointTable.Verified.{
  base_x, base_y, affine_odd_multiples_of_basepoint-IsOddAffineTable,
}
use ed25519_verificationtest.DoubleBase.{double_base_mul, vartime_double_base_mul}
use ed25519_verificationtest.DoubleBase.Combination.{
  IsNaf, from_start, projective_as_extended-IsAffine,
}

non_adjacent_form-IsNaf :
    (a : Scalar) (w : ℕ)
    → IsScalar a
    → number a < 2 ^ 255
    → 1 < w
    → w < 9
    → IsNaf w (non_adjacent_form a w)
non_adjacent_form-IsNaf a w h lt wide narrow =
    let (sum, sparse) = non_adjacent_form-value a w h lt wide (omega (arith, narrow)) in
    record { sized = sparse.sized; digit = sparse.digit; byte = non_adjacent_form-lt a w }

module _ (mx my : ℕ → ℕ → ℕ → ℕ → ℕ) (family : IsCombinations mx my) (a : Scalar)
    (point : EdwardsPoint) (b : Scalar) (h : IsAffine point (mx 1 0 0 0) (my 1 0 0 0))
    (bytes_a : IsScalar a) (lt_a : number a < 2 ^ 255) (bytes_b : IsScalar b)
    (lt_b : number b < 2 ^ 255) where
  -- If a family of points of the curve, closed under the addition law, whose denominators do not
  -- vanish on it, is the combinations of two points, then for two 32-byte scalars below 2^255,
  -- coordinates of the first point, and a table of 64 entries that stands for the odd multiples of
  -- the second, `double_base_mul` stands for the combination by the numbers of the scalars.
  pub double_base_mul-IsAffine :
      (table_b : List AffineNielsPoint)
      → IsOddAffineTable (λ n. mx 0 0 n 0) (λ n. my 0 0 n 0) 1 table_b
      → length table_b ≡ 64
      → IsAffine
          (double_base_mul table_b a point b)
          (mx (number a) 0 (number b) 0)
          (my (number a) 0 (number b) 0)
  unfolding double_base_mul
  double_base_mul-IsAffine table_b odd_b many =
      let xs : List ℕ = non_adjacent_form a 5 in
      let ys : List ℕ = non_adjacent_form b 8 in
      let sum_a = (non_adjacent_form-value a 5 bytes_a lt_a (omega arith) (omega arith)).0 in
      let sum_b = (non_adjacent_form-value b 8 bytes_b lt_b (omega arith) (omega arith)).0 in
      let out =
        from_start mx my family (naf_lookup_table5 point)
          (naf_lookup_table5-IsOddTable mx my family point h) (length-naf_lookup_table5 point)
          table_b odd_b many xs ys
          (non_adjacent_form-IsNaf a 5 bytes_a lt_a (omega arith) (omega arith))
          (non_adjacent_form-IsNaf b 8 bytes_b lt_b (omega arith) (omega arith)) in
      IsAffine-change (projective_as_extended-IsAffine _ _ _ out)
        (family.same_x (positive_sum 2 xs) (negative_sum 2 xs) (positive_sum 2 ys)
          (negative_sum 2 ys) (number a) (number b) sum_a sum_b)
        (family.same_y (positive_sum 2 xs) (negative_sum 2 xs) (positive_sum 2 ys)
          (negative_sum 2 ys) (number a) (number b) sum_a sum_b)

  -- With the table of the base point that the source has.
  pub vartime_double_base_mul-IsAffine :
      Congr p (mx 0 0 1 0) base_x
      → Congr p (my 0 0 1 0) base_y
      → IsAffine
          (vartime_double_base_mul a point b)
          (mx (number a) 0 (number b) 0)
          (my (number a) 0 (number b) 0)
  vartime_double_base_mul-IsAffine is_base_x is_base_y =
      double_base_mul-IsAffine _
        (affine_odd_multiples_of_basepoint-IsOddAffineTable mx my family is_base_x is_base_y) refl
