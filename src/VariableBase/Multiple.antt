-- ===== src/VariableBase/Multiple.antt =====
-- About `mul` of curve25519/solana-ed25519/src/backend/serial/scalar_mul/variable_base.rs, with the
-- digits of curve25519/solana-ed25519/src/scalar.rs and the table of
-- curve25519/solana-ed25519/src/window.rs.
use ed25519_verificationtest.Common.{
  ℕ, ◌+◌, ◌^◌, ◌<◌, ◌≤◌, refl, arith, List, get_or, drop, Subtle, Congr-refl, Congr-symm,
}
use ed25519_verificationtest.Field51.{p}
use ed25519_verificationtest.CurveModels.{EdwardsPoint, add_projective_niels}
use ed25519_verificationtest.Edwards.{identity}
use ed25519_verificationtest.Edwards.Points.{IsAffine, IsCompleted, completed_as_extended-IsAffine}
use ed25519_verificationtest.Scalar.{Scalar}
use ed25519_verificationtest.Scalar.Arithmetic.{number, IsScalar}
use ed25519_verificationtest.Digits.{positive, negative, positive_sum, negative_sum, as_radix_16}
use ed25519_verificationtest.Digits.Radix16.{as_radix_16-value, balanced_entry, as_radix_16-lt}
use ed25519_verificationtest.Window.{select, lookup_table}
use ed25519_verificationtest.Window.Entries.{IsMultiples, IsAffine-change}
use ed25519_verificationtest.Window.Table.{lookup_table-IsTable, length-lookup_table}
use ed25519_verificationtest.VariableBase.{variable_base_mul}
use ed25519_verificationtest.Digits.Sums.{
  positive_sum-drop, negative_sum-drop, positive_sum-past, negative_sum-past,
}
use ed25519_verificationtest.VariableBase.Rounds.{
  IsServed, added, digit-IsNiels, mul_loop-IsAt, IsAt-change,
}

-- Of the two parts of a digit one is zero.
one_part : (x : ℕ) → positive x ≤ 8 → negative x ≤ 8 → positive x + negative x ≤ 8
one_part x hp hn = ground arith

as_radix_16-IsServed : (a : Scalar) → IsScalar a → number a < 2 ^ 255 → IsServed (as_radix_16 a)
as_radix_16-IsServed a h lt =
    let (sum, balanced, sized) = as_radix_16-value a h lt in
    record {
      byte = λ i. as_radix_16-lt a i;
      small = λ i.
          let (hp, hn) = balanced_entry (as_radix_16 a) balanced i in
          one_part (get_or (as_radix_16 a) i 0) hp hn;
    }

identity-IsAffine : IsAffine identity 0 1
identity-IsAffine = record {
  scale = 1;
  unit = record { inverse = 1; product = Congr-refl p 1 };
  denotes_x = record { below = omega arith; same = record { same = refl } };
  denotes_y = record { below = omega arith; same = record { same = refl } };
  denotes_z = record { below = omega arith; same = record { same = refl } };
  denotes_t = record { below = omega arith; same = record { same = refl } };
}

module _ ⦃s : Subtle⦄ (mx my : ℕ → ℕ → ℕ) (multiples : IsMultiples mx my) (a : EdwardsPoint)
    (k : Scalar) (h : IsAffine a (mx 1 0) (my 1 0)) (bytes : IsScalar k)
    (lt : number k < 2 ^ 255) where
  abbrev digits : List ℕ
  digits = as_radix_16 k

  -- Before the loop: the last digit.
  start :
      IsCompleted
        (add_projective_niels identity (select (lookup_table a) (get_or digits 63 0)))
        (mx (positive_sum 16 (drop 63 digits)) (negative_sum 16 (drop 63 digits)))
        (my (positive_sum 16 (drop 63 digits)) (negative_sum 16 (drop 63 digits)))
  start =
      let (sum, balanced, sized) = as_radix_16-value k bytes lt in
      let first =
        added mx my multiples identity (select (lookup_table a) (get_or digits 63 0)) 0 0 _ _
          (IsAffine-change identity-IsAffine (Congr-symm multiples.nothing_x)
            (Congr-symm multiples.nothing_y))
          (digit-IsNiels mx my multiples (lookup_table a) (lookup_table-IsTable mx my multiples a h)
            (length-lookup_table a) digits (as_radix_16-IsServed k bytes lt) 63) in
      IsAt-change mx my multiples first
        (omega (
          arith,
          positive_sum-drop 16 63 digits (omega (arith, sized)),
          positive_sum-past 16 64 digits (omega (arith, sized)),
        ))
        (omega (
          arith,
          negative_sum-drop 16 63 digits (omega (arith, sized)),
          negative_sum-past 16 64 digits (omega (arith, sized)),
        ))

  -- If a family of points of the curve is closed under the addition law, whose denominators do not
  -- vanish on it, has the identity at zero and opposites by negated x, and depends on a difference
  -- of two numbers only, so that it is the multiples of its point at one, then for a 32-byte scalar
  -- below 2^255 and coordinates of that point `variable_base_mul` stands for the member at the
  -- number of the scalar.
  pub variable_base_mul-IsAffine :
      IsAffine (variable_base_mul a k) (mx (number k) 0) (my (number k) 0)
  unfolding variable_base_mul
  variable_base_mul-IsAffine =
      let (sum, balanced, sized) = as_radix_16-value k bytes lt in
      let turned =
        mul_loop-IsAt mx my multiples (lookup_table a) (lookup_table-IsTable mx my multiples a h)
          (length-lookup_table a) digits (as_radix_16-IsServed k bytes lt) 63
          (add_projective_niels identity (select (lookup_table a) (get_or digits 63 0)))
          (omega (arith, sized)) start in
      IsAffine-change (completed_as_extended-IsAffine _ _ _ turned)
        (multiples.same_x (positive_sum 16 digits) (negative_sum 16 digits) (number k) sum)
        (multiples.same_y (positive_sum 16 digits) (negative_sum 16 digits) (number k) sum)
