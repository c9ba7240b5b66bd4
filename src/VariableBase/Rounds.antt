-- ===== src/VariableBase/Rounds.antt =====
-- About a round of the loop of
-- curve25519/solana-ed25519/src/backend/serial/scalar_mul/variable_base.rs.
use ed25519_verificationtest.Common.{
  ℕ, zero, suc, ◌+◌, ◌*◌, ◌<◌, ◌≤◌, ◌≡◌, subst, arith, List, length, get_or, drop, Subtle,
}
use ed25519_verificationtest.CurveModels.{
  EdwardsPoint, ProjectiveNielsPoint, CompletedPoint, add_projective_niels, completed_as_extended,
  completed_as_projective, projective_double,
}
use ed25519_verificationtest.Edwards.Points.{
  IsAffine, IsCompleted, completed_as_extended-IsAffine, completed_as_projective-IsProjective,
}
use ed25519_verificationtest.Edwards.Addition.{IsNiels, add_projective_niels-IsCompleted}
use ed25519_verificationtest.Edwards.Doubling.{projective_double-IsCompleted}
use ed25519_verificationtest.Digits.{positive, negative, positive_sum, negative_sum}
use ed25519_verificationtest.Window.{select}
use ed25519_verificationtest.Window.Entries.{IsMultiples}
use ed25519_verificationtest.Window.Select.{IsTable, select-IsNiels}
use ed25519_verificationtest.Digits.Sums.{positive_sum-drop, negative_sum-drop}
use ed25519_verificationtest.VariableBase.{times_16, mul_loop}

-- Digits that a table of eight entries serves.
pub record IsServed (digits : List ℕ) : Type 0 where
  pub byte : (i : ℕ) → get_or digits i 0 < 256
  pub small : (i : ℕ) → positive (get_or digits i 0) + negative (get_or digits i 0) ≤ 8

module _ (mx my : ℕ → ℕ → ℕ) (multiples : IsMultiples mx my) where
  -- Coordinates of a multiple.
  abbrev pub IsAt : CompletedPoint → ℕ → ℕ → Type 0
  IsAt a k l = IsCompleted a (mx k l) (my k l)

  pub IsAt-change : {a : CompletedPoint} {k l i j : ℕ} → IsAt a k l → k ≡ i → l ≡ j → IsAt a i j
  IsAt-change {a} {k} {l} {i} {j} h e f =
      subst (λ (t : ℕ). IsAt a i t) f (subst (λ (t : ℕ). IsAt a t l) e h)

  doubled :
      (a : CompletedPoint) (k l : ℕ)
      → IsAt a k l
      → IsAt (projective_double (completed_as_projective a)) (k + k) (l + l)
  doubled a k l h =
      projective_double-IsCompleted (completed_as_projective a) (mx k l) (my k l)
        (mx (k + k) (l + l)) (my (k + k) (l + l))
        (completed_as_projective-IsProjective a (mx k l) (my k l) h)
        (record { curve = multiples.curve k l; sum = multiples.sum k l k l })

  times_16-IsAt : (a : CompletedPoint) (k l : ℕ) → IsAt a k l → IsAt (times_16 a) (16 * k) (16 * l)
  unfolding times_16
  times_16-IsAt a k l h =
      IsAt-change (doubled _ _ _ (doubled _ _ _ (doubled _ _ _ (doubled a k l h)))) (omega arith)
        (omega arith)

  pub added :
      (a : EdwardsPoint) (b : ProjectiveNielsPoint) (k l i j : ℕ)
      → IsAffine a (mx k l) (my k l)
      → IsNiels b (mx i j) (my i j)
      → IsAt (add_projective_niels a b) (k + i) (l + j)
  added a b k l i j ha hb =
      add_projective_niels-IsCompleted a b (mx k l) (my k l) (mx i j) (my i j) (mx (k + i) (l + j))
        (my (k + i) (l + j)) ha hb (multiples.sum k l i j)

  module _ ⦃s : Subtle⦄ (points : List ProjectiveNielsPoint) (table : IsTable mx my 1 points)
      (eight : length points ≡ 8) (digits : List ℕ) (served : IsServed digits) where
    pub digit-IsNiels :
        (i : ℕ)
        → IsNiels
            (select points (get_or digits i 0))
            (mx (positive (get_or digits i 0)) (negative (get_or digits i 0)))
            (my (positive (get_or digits i 0)) (negative (get_or digits i 0)))
    digit-IsNiels i =
        select-IsNiels mx my multiples points (get_or digits i 0) table (served.byte i)
          (omega (arith, served.small i, eight))

    pub mul_loop-IsAt :
        (i : ℕ) (tmp1 : CompletedPoint)
        → i < length digits
        → IsAt tmp1 (positive_sum 16 (drop i digits)) (negative_sum 16 (drop i digits))
        → IsAt (mul_loop points digits i tmp1) (positive_sum 16 digits) (negative_sum 16 digits)
    unfolding mul_loop
    mul_loop-IsAt zero tmp1 lt h = h
    mul_loop-IsAt (suc i) tmp1 lt h =
        let k : ℕ = positive_sum 16 (drop (suc i) digits) in
        let l : ℕ = negative_sum 16 (drop (suc i) digits) in
        let tmp3 = completed_as_extended (times_16 tmp1) in
        let grown = completed_as_extended-IsAffine (times_16 tmp1) _ _ (times_16-IsAt tmp1 k l h) in
        let inside : i < length digits = omega (arith, lt) in
        mul_loop-IsAt i (add_projective_niels tmp3 (select points (get_or digits i 0))) inside (
          IsAt-change
            (added tmp3 (select points (get_or digits i 0)) (16 * k) (16 * l) _ _ grown
              (digit-IsNiels i))
            (omega (arith, positive_sum-drop 16 i digits inside))
            (omega (arith, negative_sum-drop 16 i digits inside)))
