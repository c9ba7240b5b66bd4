-- ===== src/Window/Select.antt =====
-- About `select` of curve25519/solana-ed25519/src/window.rs.
use ed25519_verificationtest.Common.{
  ℕ, zero, suc, ◌+◌, ◌^◌, ◌<◌, ◌≤◌, ◌≡◌, ◌≢◌, ◌-◌, ◌∙◌, get_or, ◌==◌, refl, arith, ap, sym, subst,
  List, [], ◌∷◌, length, Bool, true, false, Bool-cases, Subtle, Congr-refl, Congr-symm,
  if◌then◌else◌, lt-or_le, ltb, bit_and,
}
use ed25519_verificationtest.Field51.{FieldElement51, p, conditional_select_lem}
use ed25519_verificationtest.CurveModels.{ProjectiveNielsPoint, niels_neg}
use ed25519_verificationtest.Edwards.Addition.{IsNiels, niels_neg-IsNiels}
use ed25519_verificationtest.Digits.{positive, negative}
use ed25519_verificationtest.Window.{
  niels_identity, niels_assign, select_loop, select, x_abs, x_mask,
}
use ed25519_verificationtest.Window.Entries.{IsMultiples, IsNiels-change}
use ed25519_verificationtest.Common.{agree, agree-eq}
use ed25519_verificationtest.Common.{inl}
use ed25519_verificationtest.Common.{inr}

-- The absolute value of an `i8`.
pub x_abs-value : (x : ℕ) → x < 256 → x_abs x ≡ positive x + negative x
unfolding agree x_abs x_mask
x_abs-value = agree-eq x_abs (λ x. positive x + negative x) 256 refl

pub x_mask-sign : (x : ℕ) → x < 256 → bit_and (x_mask x) 1 ≡ (if ltb x 128 then 0 else 1)
unfolding agree x_abs x_mask
x_mask-sign = agree-eq (λ x. bit_and (x_mask x) 1) (λ x. if ltb x 128 then 0 else 1) 256 refl

of_parts :
    {a b c e a1 b1 c1 e1 : FieldElement51}
    → a ≡ a1
    → b ≡ b1
    → c ≡ c1
    → e ≡ e1
    → ◌≡◌ {A = ProjectiveNielsPoint}
        (record { y_plus_x = a; y_minus_x = b; z = c; t2d = e })
        (record { y_plus_x = a1; y_minus_x = b1; z = c1; t2d = e1 })
of_parts ha hb hc he = rw (ha, hb, hc, he) refl

module _ ⦃s : Subtle⦄ where
  pub niels_assign_lem :
      (a b : ProjectiveNielsPoint) (choice : Bool)
      → niels_assign a b choice ≡ (if choice then b else a)
  unfolding niels_assign
  niels_assign_lem a b true =
      of_parts (conditional_select_lem _ _ true) (conditional_select_lem _ _ true)
        (conditional_select_lem _ _ true) (conditional_select_lem _ _ true)
  niels_assign_lem a b false =
      of_parts (conditional_select_lem _ _ false) (conditional_select_lem _ _ false)
        (conditional_select_lem _ _ false) (conditional_select_lem _ _ false)

  is_same : (m n : ℕ) → m ≡ n → s.ct_eq (m ∷ []) (n ∷ []) ≡ true
  is_same m n e = (s.ct_eq_iff (m ∷ []) (n ∷ [])).1 (ap (λ (t : ℕ). t ∷ []) e)

  is_other : (m n : ℕ) → m ≢ n → s.ct_eq (m ∷ []) (n ∷ []) ≡ false
  is_other m n other = elim (Bool-cases (s.ct_eq (m ∷ []) (n ∷ []))) [
    | inl same ↦
        absurd (other (ap (λ (t : List ℕ). get_or t 0 0) ((s.ct_eq_iff (m ∷ []) (n ∷ [])).0 same)))
    | inr different ↦ different
  ]

  -- Past the entry that was asked for nothing changes.
  select_loop-past :
      (j n : ℕ) (points : List ProjectiveNielsPoint) (t : ProjectiveNielsPoint)
      → n < j
      → select_loop j n points t ≡ t
  unfolding select_loop
  select_loop-past j n [] t lt = refl
  select_loop-past j n (point ∷ points) t lt =
      ap (select_loop (suc j) n points) (
        niels_assign_lem t point (s.ct_eq (n ∷ []) (j ∷ []))
        ∙ ap (λ (c : Bool). if c then point else t)
            (is_other n j (λ e. absurd (omega (arith, e, lt)))))
      ∙ select_loop-past (suc j) n points t (omega (arith, lt))

-- Entries that are the multiples from `j` on.
abbrev pub IsTable : (ℕ → ℕ → ℕ) → (ℕ → ℕ → ℕ) → ℕ → List ProjectiveNielsPoint → Type 0
IsTable mx my j [] = Unit
IsTable mx my j (point ∷ points) = IsNiels point (mx j 0) (my j 0) × IsTable mx my (suc j) points

niels_identity-IsNiels : IsNiels niels_identity 0 1
niels_identity-IsNiels = record {
  scale = 1;
  unit = record { inverse = 1; product = Congr-refl p 1 };
  denotes_plus = record { below = omega arith; same = record { same = refl } };
  denotes_minus = record { below = omega arith; same = record { same = refl } };
  denotes_z = record { below = omega arith; same = record { same = refl } };
  denotes_t2d = record { below = omega arith; same = record { same = refl } };
}

module _ ⦃s : Subtle⦄ (mx my : ℕ → ℕ → ℕ) (multiples : IsMultiples mx my) where
  -- The loop ends with the entry that was asked for.
  select_loop-IsNiels :
      (j n : ℕ) (points : List ProjectiveNielsPoint) (t : ProjectiveNielsPoint)
      → IsTable mx my j points
      → j ≤ n
      → n < j + length points
      → IsNiels (select_loop j n points t) (mx n 0) (my n 0)
  unfolding select_loop
  select_loop-IsNiels j n [] t table le lt = absurd (omega (arith, le, lt))
  select_loop-IsNiels j n (point ∷ points) t table le lt = elim (lt-or_le j n) [
    | inl later ↦
        select_loop-IsNiels (suc j) n points (niels_assign t point (s.ct_eq (n ∷ []) (j ∷ [])))
          table.1 (omega (arith, later)) (omega (arith, lt))
    | inr here ↦
        let e : n ≡ j = omega (arith, le, here) in
        let taken =
          select_loop-past (suc j) n points (niels_assign t point (s.ct_eq (n ∷ []) (j ∷ [])))
            (omega (arith, e))
          ∙ niels_assign_lem t point (s.ct_eq (n ∷ []) (j ∷ []))
          ∙ ap (λ (c : Bool). if c then point else t) (is_same n j e) in
        subst (λ (q : ProjectiveNielsPoint). IsNiels q (mx n 0) (my n 0)) (sym taken)
          (subst (λ (k : ℕ). IsNiels point (mx k 0) (my k 0)) (sym e) table.0)
  ]

  absolute-IsNiels :
      (n : ℕ) (points : List ProjectiveNielsPoint)
      → IsTable mx my 1 points
      → n ≤ length points
      → IsNiels (select_loop 1 n points niels_identity) (mx n 0) (my n 0)
  absolute-IsNiels zero points table le =
      subst (λ (q : ProjectiveNielsPoint). IsNiels q (mx 0 0) (my 0 0))
        (sym (select_loop-past 1 0 points niels_identity (omega arith)))
        (IsNiels-change niels_identity-IsNiels (Congr-symm multiples.nothing_x)
          (Congr-symm multiples.nothing_y))
  absolute-IsNiels (suc n) points table le =
      select_loop-IsNiels 1 (suc n) points niels_identity table (omega arith) (omega (arith, le))

  -- The sign of the digit.
  signed-IsNiels :
      (x m : ℕ) (t : ProjectiveNielsPoint)
      → IsNiels t (mx (positive x + negative x) 0) (my (positive x + negative x) 0)
      → m ≡ (if ltb x 128 then 0 else 1)
      → IsNiels
          (niels_assign t (niels_neg t) (m == 1))
          (mx (positive x) (negative x))
          (my (positive x) (negative x))
  signed-IsNiels x m t h e = elim (Bool-cases (ltb x 128)) [
    | inl low ↦
        let none : negative x ≡ 0 = ap (λ (c : Bool). if c then 0 else 2 ^ 8 - x) low in
        let kept = taken (e ∙ ap (λ (c : Bool). if c then 0 else 1) low) in
        subst
          (λ (q : ProjectiveNielsPoint).
            IsNiels q (mx (positive x) (negative x)) (my (positive x) (negative x)))
          (sym kept)
          (subst (λ (k : ℕ). IsNiels t (mx (positive x) k) (my (positive x) k)) (sym none)
            (subst (λ (k : ℕ). IsNiels t (mx k 0) (my k 0)) (omega (arith, none)) h))
    | inr high ↦
        let none : positive x ≡ 0 = ap (λ (c : Bool). if c then x else 0) high in
        let turned = taken (e ∙ ap (λ (c : Bool). if c then 0 else 1) high) in
        let n : ℕ = positive x + negative x in
        let opposite =
          IsNiels-change (niels_neg-IsNiels t (mx n 0) (my n 0) h) (multiples.opposite_x n 0)
            (multiples.opposite_y n 0) in
        subst
          (λ (q : ProjectiveNielsPoint).
            IsNiels q (mx (positive x) (negative x)) (my (positive x) (negative x)))
          (sym turned)
          (subst (λ (k : ℕ). IsNiels (niels_neg t) (mx k (negative x)) (my k (negative x)))
            (sym none)
            (subst (λ (k : ℕ). IsNiels (niels_neg t) (mx 0 k) (my 0 k)) (omega (arith, none))
              opposite))
  ]
    where
      taken :
          {k : ℕ}
          → m ≡ k
          → niels_assign t (niels_neg t) (m == 1) ≡ (if k == 1 then niels_neg t else t)
      taken same =
          niels_assign_lem t (niels_neg t) (m == 1)
          ∙ ap (λ (k : ℕ). if k == 1 then niels_neg t else t) same

  -- For a table whose entries are the first multiples in such a family and a digit, as an i8, whose
  -- absolute value is at most the number of entries, `select` stands for the multiple by the digit,
  -- the opposite of one if the digit is negative and the identity if it is zero.
  pub select-IsNiels :
      (points : List ProjectiveNielsPoint) (x : ℕ)
      → IsTable mx my 1 points
      → x < 256
      → positive x + negative x ≤ length points
      → IsNiels (select points x) (mx (positive x) (negative x)) (my (positive x) (negative x))
  unfolding select
  select-IsNiels points x table lt le =
      signed-IsNiels x (bit_and (x_mask x) 1) (select_loop 1 (x_abs x) points niels_identity)
        (subst
          (λ (n : ℕ). IsNiels (select_loop 1 (x_abs x) points niels_identity) (mx n 0) (my n 0))
          (x_abs-value x lt)
          (absolute-IsNiels (x_abs x) points table (omega (arith, x_abs-value x lt, le))))
        (x_mask-sign x lt)
