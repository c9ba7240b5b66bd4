-- ===== src/DoubleBase/Digit.antt =====
-- About the match on the sign of a digit of
-- curve25519/solana-ed25519/src/backend/serial/scalar_mul/vartime_double_base.rs.
use ed25519_verificationtest.Common.{
  ℕ, ◌+◌, ◌-◌, ◌*◌, ◌/◌, ◌^◌, ◌<◌, ◌≤◌, ◌≡◌, refl, ap, sym, subst, arith, List, length, Bool, true,
  false, Bool-cases, if◌then◌else◌, ◌==◌, ltb, Congr-symm, inl, inr,
}
use ed25519_verificationtest.CurveModels.{
  ProjectiveNielsPoint, AffineNielsPoint, CompletedPoint, add_projective_niels,
  sub_projective_niels, add_affine_niels, sub_affine_niels, completed_as_extended,
  affine_niels_identity,
}
use ed25519_verificationtest.Edwards.Points.{IsCompleted, completed_as_extended-IsAffine}
use ed25519_verificationtest.Edwards.Addition.{
  add_projective_niels-IsCompleted, sub_projective_niels-IsCompleted,
}
use ed25519_verificationtest.Edwards.Mixed.{
  add_affine_niels-IsCompleted, sub_affine_niels-IsCompleted,
}
use ed25519_verificationtest.Digits.{positive, negative, sub8}
use ed25519_verificationtest.Digits.Naf.{IsNafDigit, IsOddDigit}
use ed25519_verificationtest.Window.{niels_identity, naf_select}
use ed25519_verificationtest.Window.Odd.{
  IsCombinations, IsSum-change, IsOddTable, IsOddAffineTable, odd_entry, odd_affine_entry,
}
use ed25519_verificationtest.DoubleBase.{by_sign, as_usize, add_a_digit, add_b_digit}
use ed25519_verificationtest.Common.{◌%◌}
use ed25519_verificationtest.Edwards.Mixed.{IsAffineNiels}
use ed25519_verificationtest.Edwards.Addition.{IsNiels}

small_negation : (x : ℕ) → 128 ≤ x → x < 256 → x % 2 ≡ 1 → as_usize (sub8 0 x) ≡ 2 ^ 8 - x
small_negation x le lt odd = ground arith

-- What holds of each branch holds of the match. `i` is the entry that the branch reads.
by_sign_lem :
    {A : Type 0} (P : ℕ → ℕ → A → Type 0) (w digit : ℕ) (equal : A) (greater less : ℕ → A)
    → IsNafDigit w digit
    → digit < 256
    → P 0 0 equal
    → ((i x : ℕ) → x ≡ 2 * i + 1 → x / 2 ≡ i → x < 2 ^ (w - 1) → P x 0 (greater x))
    → ((i x : ℕ) → x ≡ 2 * i + 1 → x / 2 ≡ i → x < 2 ^ (w - 1) → P 0 x (less x))
    → P (positive digit) (negative digit) (by_sign digit equal greater less)
unfolding by_sign
by_sign_lem P w digit equal greater less h lt at_equal at_greater at_less =
    elim (Bool-cases (digit == 0)) [
      | inl none ↦
          subst (λ (t : ℕ). P (positive t) (negative t) (by_sign t equal greater less))
            (sym (is_zero none)) at_equal
      | inr some ↦ elim (Bool-cases (ltb digit 128)) [
        | inl above ↦
            let odd = is_odd some in
            let kept : positive digit ≡ digit = ap (λ (c : Bool). if c then digit else 0) above in
            let found =
              at_greater (digit / 2) digit (omega (arith, odd.odd)) refl
                (omega (arith, odd.high, kept)) in
            rw (some, above) found
        | inr under ↦
            let odd = is_odd some in
            let kept : negative digit ≡ 2 ^ 8 - digit =
              ap (λ (c : Bool). if c then 0 else 2 ^ 8 - digit) under in
            let high : 128 ≤ digit = ground arith in
            let index : as_usize (sub8 0 digit) ≡ 2 ^ 8 - digit =
              small_negation digit high lt odd.odd in
            let found =
              at_less ((2 ^ 8 - digit) / 2) (2 ^ 8 - digit) (omega (arith, odd.odd, lt)) refl
                (omega (arith, odd.low, kept)) in
            rw (some, under) (subst (λ (t : ℕ). P 0 (2 ^ 8 - digit) (less t)) (sym index) found)
      ]
    ]
  where
    is_zero : (digit == 0) ≡ true → digit ≡ 0
    is_zero e = ground arith

    is_odd : (digit == 0) ≡ false → IsOddDigit w digit
    is_odd e = elim h [ inl none ↦ absurd (ground arith) | inr odd ↦ odd ]

module _ (mx my : ℕ → ℕ → ℕ → ℕ → ℕ) (family : IsCombinations mx my) where
  -- A completed point at a combination.
  abbrev pub IsThere : CompletedPoint → ℕ → ℕ → ℕ → ℕ → Type 0
  IsThere t i j k l = IsCompleted t (mx i j k l) (my i j k l)

  pub IsThere-change :
      {t : CompletedPoint} {i j k l a b c e : ℕ}
      → IsThere t i j k l
      → i ≡ a
      → j ≡ b
      → k ≡ c
      → l ≡ e
      → IsThere t a b c e
  IsThere-change {t} {i} {j} {k} {l} {a} {b} {c} {e} h hi hj hk hl =
      subst (λ (n : ℕ). IsThere t a b c n) hl
        (subst (λ (n : ℕ). IsThere t a b n l) hk
          (subst (λ (n : ℕ). IsThere t a n k l) hj (subst (λ (n : ℕ). IsThere t n j k l) hi h)))

  module _ (table_a : List ProjectiveNielsPoint)
      (table : IsOddTable (λ n. mx n 0 0 0) (λ n. my n 0 0 0) 1 table_a)
      (sized : length table_a ≡ 8) where
    a_entry :
        (n x : ℕ)
        → x ≡ 2 * n + 1
        → x / 2 ≡ n
        → x < 2 ^ (5 - 1)
        → IsNiels (naf_select table_a niels_identity x) (mx x 0 0 0) (my x 0 0 0)
    a_entry n x odd index bound =
        subst (λ (m : ℕ). IsNiels (naf_select table_a niels_identity x) (mx m 0 0 0) (my m 0 0 0))
          (omega (arith, odd, index))
          (odd_entry (λ n. mx n 0 0 0) (λ n. my n 0 0 0) 1 (x / 2) table_a niels_identity table
            (omega (arith, bound, sized)))

    pub add_a_digit-IsThere :
        (digit : ℕ) (t : CompletedPoint) (i j k l : ℕ)
        → IsNafDigit 5 digit
        → digit < 256
        → IsThere t i j k l
        → IsThere (add_a_digit table_a digit t) (i + positive digit) (j + negative digit) k l
    unfolding add_a_digit
    add_a_digit-IsThere digit t i j k l h lt at =
        let extended = completed_as_extended-IsAffine t (mx i j k l) (my i j k l) at in
        by_sign_lem (λ (a b : ℕ) (q : CompletedPoint). IsThere q (i + a) (j + b) k l) 5 digit t
          (λ x.
            add_projective_niels (completed_as_extended t) (naf_select table_a niels_identity x))
          (λ x.
            sub_projective_niels (completed_as_extended t) (naf_select table_a niels_identity x))
          h lt (IsThere-change at (omega arith) (omega arith) (omega arith) (omega arith))
          (λ n x odd index bound.
            IsThere-change
              (add_projective_niels-IsCompleted (completed_as_extended t)
                (naf_select table_a niels_identity x) (mx i j k l) (my i j k l) (mx x 0 0 0)
                (my x 0 0 0) (mx (i + x) (j + 0) (k + 0) (l + 0))
                (my (i + x) (j + 0) (k + 0) (l + 0)) extended (a_entry n x odd index bound)
                (family.sum i j k l x 0 0 0))
              refl refl (omega arith) (omega arith))
          (λ n x odd index bound.
            IsThere-change
              (sub_projective_niels-IsCompleted (completed_as_extended t)
                (naf_select table_a niels_identity x) (mx i j k l) (my i j k l) (mx x 0 0 0)
                (my x 0 0 0) (mx (i + 0) (j + x) (k + 0) (l + 0))
                (my (i + 0) (j + x) (k + 0) (l + 0)) extended (a_entry n x odd index bound)
                (IsSum-change (family.sum i j k l 0 x 0 0) (Congr-symm (family.opposite_x x 0 0 0))
                  (Congr-symm (family.opposite_y x 0 0 0))))
              refl refl (omega arith) (omega arith))

  module _ (table_b : List AffineNielsPoint)
      (table : IsOddAffineTable (λ n. mx 0 0 n 0) (λ n. my 0 0 n 0) 1 table_b)
      (sized : length table_b ≡ 64) where
    b_entry :
        (n x : ℕ)
        → x ≡ 2 * n + 1
        → x / 2 ≡ n
        → x < 2 ^ (8 - 1)
        → IsAffineNiels (naf_select table_b affine_niels_identity x) (mx 0 0 x 0) (my 0 0 x 0)
    b_entry n x odd index bound =
        subst
          (λ (m : ℕ).
            IsAffineNiels (naf_select table_b affine_niels_identity x) (mx 0 0 m 0) (my 0 0 m 0))
          (omega (arith, odd, index))
          (odd_affine_entry (λ n. mx 0 0 n 0) (λ n. my 0 0 n 0) 1 (x / 2) table_b
            affine_niels_identity table (omega (arith, bound, sized)))

    pub add_b_digit-IsThere :
        (digit : ℕ) (t : CompletedPoint) (i j k l : ℕ)
        → IsNafDigit 8 digit
        → digit < 256
        → IsThere t i j k l
        → IsThere (add_b_digit table_b digit t) i j (k + positive digit) (l + negative digit)
    unfolding add_b_digit
    add_b_digit-IsThere digit t i j k l h lt at =
        let extended = completed_as_extended-IsAffine t (mx i j k l) (my i j k l) at in
        by_sign_lem (λ (a b : ℕ) (q : CompletedPoint). IsThere q i j (k + a) (l + b)) 8 digit t
          (λ x.
            add_affine_niels (completed_as_extended t) (naf_select table_b affine_niels_identity x))
          (λ x.
            sub_affine_niels (completed_as_extended t) (naf_select table_b affine_niels_identity x))
          h lt (IsThere-change at (omega arith) (omega arith) (omega arith) (omega arith))
          (λ n x odd index bound.
            IsThere-change
              (add_affine_niels-IsCompleted (completed_as_extended t)
                (naf_select table_b affine_niels_identity x) (mx i j k l) (my i j k l) (mx 0 0 x 0)
                (my 0 0 x 0) (mx (i + 0) (j + 0) (k + x) (l + 0))
                (my (i + 0) (j + 0) (k + x) (l + 0)) extended (b_entry n x odd index bound)
                (family.sum i j k l 0 0 x 0))
              (omega arith) (omega arith) refl refl)
          (λ n x odd index bound.
            IsThere-change
              (sub_affine_niels-IsCompleted (completed_as_extended t)
                (naf_select table_b affine_niels_identity x) (mx i j k l) (my i j k l) (mx 0 0 x 0)
                (my 0 0 x 0) (mx (i + 0) (j + 0) (k + 0) (l + x))
                (my (i + 0) (j + 0) (k + 0) (l + x)) extended (b_entry n x odd index bound)
                (IsSum-change (family.sum i j k l 0 0 0 x) (Congr-symm (family.opposite_x 0 0 x 0))
                  (Congr-symm (family.opposite_y 0 0 x 0))))
              (omega arith) (omega arith) refl refl)
