-- ===== src/DoubleBase/Combination.antt =====
-- About the starting index and the loop of
-- curve25519/solana-ed25519/src/backend/serial/scalar_mul/vartime_double_base.rs.
use ed25519_verificationtest.Common.{
  ℕ, zero, suc, ◌+◌, ◌*◌, ◌^◌, ◌<◌, ◌≤◌, ◌≡◌, refl, ap, sym, subst, arith, List, length, get_or,
  drop, Bool-cases, ◌==◌, ◌||◌, not, inl, inr, Congr-refl, Congr-symm, Congr-of_eq, Congr-mul,
}
use ed25519_verificationtest.Field51.{p, field_zero, field_one}
use ed25519_verificationtest.CurveModels.{
  ProjectivePoint, ProjectiveNielsPoint, AffineNielsPoint, projective_identity, projective_double,
  projective_as_extended,
}
use ed25519_verificationtest.Edwards.Denotes.{
  Denotes, Denotes-mul, Denotes-square, Denotes-wide, Denotes-change,
}
use ed25519_verificationtest.Edwards.Points.{
  IsAffine, IsProjective, IsUnit-mul, completed_as_projective-IsProjective,
}
use ed25519_verificationtest.Edwards.Doubling.{projective_double-IsCompleted}
use ed25519_verificationtest.Digits.{positive, negative, positive_sum, negative_sum}
use ed25519_verificationtest.Digits.Sums.{
  positive_sum-drop, negative_sum-drop, positive_sum-past, negative_sum-past,
}
use ed25519_verificationtest.Digits.Naf.{IsNafDigit}
use ed25519_verificationtest.Window.Odd.{IsCombinations, IsOddTable, IsOddAffineTable}
use ed25519_verificationtest.DoubleBase.{double_base_round, double_base_loop, start_index}
use ed25519_verificationtest.DoubleBase.Digit.{add_a_digit-IsThere, add_b_digit-IsThere}

-- From a place on there are no digits.
abbrev pub IsClear : ℕ → List ℕ → Type 0
IsClear i xs = (positive_sum 2 (drop i xs) ≡ 0) × (negative_sum 2 (drop i xs) ≡ 0)

IsClear-before :
    (i : ℕ) (xs : List ℕ) → i < length xs → get_or xs i 0 ≡ 0 → IsClear (suc i) xs → IsClear i xs
IsClear-before i xs lt none h = (
  omega (arith, positive_sum-drop 2 i xs lt, ap positive none, h.0),
  omega (arith, negative_sum-drop 2 i xs lt, ap negative none, h.1),
)

IsClear-after : (i : ℕ) (xs : List ℕ) → i < length xs → IsClear i xs → IsClear (suc i) xs
IsClear-after i xs lt h = (
  omega (arith, positive_sum-drop 2 i xs lt, h.0),
  omega (arith, negative_sum-drop 2 i xs lt, h.1),
)

start_index-lt : (xs ys : List ℕ) (n : ℕ) → start_index xs ys n < suc n
unfolding start_index
start_index-lt xs ys zero = omega arith
start_index-lt xs ys (suc n) =
    elim (Bool-cases (not (get_or xs n 0 == 0) || not (get_or ys n 0 == 0))) [
      | inl found ↦ rw found (omega arith)
      | inr missing ↦ rw missing (omega (arith, start_index-lt xs ys n))
    ]

start_index-lt_suc : (xs ys : List ℕ) (n : ℕ) → start_index xs ys (suc n) < suc n
unfolding start_index
start_index-lt_suc xs ys n =
    elim (Bool-cases (not (get_or xs n 0 == 0) || not (get_or ys n 0 == 0))) [
      | inl found ↦ rw found (omega arith)
      | inr missing ↦ rw missing (start_index-lt xs ys n)
    ]

-- Past the index that was found there are no digits.
pub start_index-IsClear :
    (xs ys : List ℕ) (n : ℕ)
    → n ≤ length xs
    → n ≤ length ys
    → 0 < length xs
    → 0 < length ys
    → IsClear n xs
    → IsClear n ys
    → IsClear (suc (start_index xs ys n)) xs × IsClear (suc (start_index xs ys n)) ys
unfolding start_index
start_index-IsClear xs ys zero hx hy px py cx cy =
    (IsClear-after 0 xs px cx, IsClear-after 0 ys py cy)
start_index-IsClear xs ys (suc n) hx hy px py cx cy =
    elim (Bool-cases (not (get_or xs n 0 == 0) || not (get_or ys n 0 == 0))) [
      | inl found ↦ rw found (cx, cy)
      | inr missing ↦ rw missing (
          start_index-IsClear xs ys n (omega (arith, hx)) (omega (arith, hy)) px py
            (IsClear-before n xs (omega (arith, hx)) (ground arith) cx)
            (IsClear-before n ys (omega (arith, hy)) (ground arith) cy))
    ]

pub projective_as_extended-IsAffine :
    (a : ProjectivePoint) (x y : ℕ) → IsProjective a x y → IsAffine (projective_as_extended a) x y
unfolding projective_as_extended
projective_as_extended-IsAffine a x y h = record {
  scale = h.scale * h.scale;
  unit = IsUnit-mul h.unit h.unit;
  denotes_x =
      Denotes-change (Denotes-mul (Denotes-wide h.denotes_x) (Denotes-wide h.denotes_z))
        (Congr-of_eq p (omega arith));
  denotes_y =
      Denotes-change (Denotes-mul (Denotes-wide h.denotes_y) (Denotes-wide h.denotes_z))
        (Congr-of_eq p (omega arith));
  denotes_z = Denotes-square (Denotes-wide h.denotes_z);
  denotes_t =
      Denotes-change (Denotes-mul (Denotes-wide h.denotes_x) (Denotes-wide h.denotes_y))
        (Congr-of_eq p (omega arith));
}

field_zero-Denotes : Denotes (2 ^ 52) field_zero 0
field_zero-Denotes = record { below = omega arith; same = record { same = refl } }

field_one-Denotes : Denotes (2 ^ 52) field_one 1
field_one-Denotes = record { below = omega arith; same = record { same = refl } }

-- Digits of an expansion of width `w`.
pub record IsNaf (w : ℕ) (naf : List ℕ) : Type 0 where
  pub sized : length naf ≡ 256
  pub digit : (i : ℕ) → IsNafDigit w (get_or naf i 0)
  pub byte : (i : ℕ) → get_or naf i 0 < 256

module _ (mx my : ℕ → ℕ → ℕ → ℕ → ℕ) (family : IsCombinations mx my)
    (table_a : List ProjectiveNielsPoint)
    (odd_a : IsOddTable (λ n. mx n 0 0 0) (λ n. my n 0 0 0) 1 table_a) (eight : length table_a ≡ 8)
    (table_b : List AffineNielsPoint)
    (odd_b : IsOddAffineTable (λ n. mx 0 0 n 0) (λ n. my 0 0 n 0) 1 table_b)
    (many : length table_b ≡ 64) where
  double_base_round-IsProjective :
      (x y : ℕ) (r : ProjectivePoint) (i j k l : ℕ)
      → IsNafDigit 5 x
      → x < 256
      → IsNafDigit 8 y
      → y < 256
      → IsProjective r (mx i j k l) (my i j k l)
      → IsProjective
          (double_base_round table_a table_b x y r)
          (mx (i + i + positive x) (j + j + negative x) (k + k + positive y) (l + l + negative y))
          (my (i + i + positive x) (j + j + negative x) (k + k + positive y) (l + l + negative y))
  unfolding double_base_round
  double_base_round-IsProjective x y r i j k l hx lx hy ly h =
      let doubled =
        projective_double-IsCompleted r (mx i j k l) (my i j k l)
          (mx (i + i) (j + j) (k + k) (l + l)) (my (i + i) (j + j) (k + k) (l + l)) h
          (record { curve = family.curve i j k l; sum = family.sum i j k l i j k l }) in
      let with_a =
        add_a_digit-IsThere mx my family table_a odd_a eight x (projective_double r) (i + i) (j + j)
          (k + k) (l + l) hx lx doubled in
      let with_b = add_b_digit-IsThere mx my family table_b odd_b many y _ _ _ _ _ hy ly with_a in
      completed_as_projective-IsProjective _ _ _ with_b

  IsHere-change :
      {r : ProjectivePoint} {i j k l a b c e : ℕ}
      → IsProjective r (mx i j k l) (my i j k l)
      → i ≡ a
      → j ≡ b
      → k ≡ c
      → l ≡ e
      → IsProjective r (mx a b c e) (my a b c e)
  IsHere-change {r} {i} {j} {k} {l} {a} {b} {c} {e} h hi hj hk hl =
      subst (λ (n : ℕ). IsProjective r (mx a b c n) (my a b c n)) hl
        (subst (λ (n : ℕ). IsProjective r (mx a b n l) (my a b n l)) hk
          (subst (λ (n : ℕ). IsProjective r (mx a n k l) (my a n k l)) hj
            (subst (λ (n : ℕ). IsProjective r (mx n j k l) (my n j k l)) hi h)))

  nothing-IsHere : IsProjective projective_identity (mx 0 0 0 0) (my 0 0 0 0)
  nothing-IsHere = record {
    scale = 1;
    unit = record { inverse = 1; product = Congr-refl p 1 };
    denotes_x =
        Denotes-change field_zero-Denotes
          (Congr-mul (Congr-symm family.nothing_x) (Congr-refl p 1));
    denotes_y =
        Denotes-change field_one-Denotes (Congr-mul (Congr-symm family.nothing_y) (Congr-refl p 1));
    denotes_z = field_one-Denotes;
  }

  module _ (xs ys : List ℕ) (hx : IsNaf 5 xs) (hy : IsNaf 8 ys) where
    -- The point that belongs before the digits from `i` on have their turn.
    abbrev IsSoFar : ℕ → ProjectivePoint → Type 0
    IsSoFar i r =
        IsProjective r
          (mx (positive_sum 2 (drop i xs)) (negative_sum 2 (drop i xs)) (positive_sum 2 (drop i ys))
            (negative_sum 2 (drop i ys)))
          (my (positive_sum 2 (drop i xs)) (negative_sum 2 (drop i xs)) (positive_sum 2 (drop i ys))
            (negative_sum 2 (drop i ys)))

    round-IsSoFar :
        (i : ℕ) (r : ProjectivePoint)
        → i < 256
        → IsSoFar (suc i) r
        → IsSoFar i (double_base_round table_a table_b (get_or xs i 0) (get_or ys i 0) r)
    round-IsSoFar i r lt h =
        let lx : i < length xs = omega (arith, hx.sized, lt) in
        let ly : i < length ys = omega (arith, hy.sized, lt) in
        IsHere-change
          (double_base_round-IsProjective (get_or xs i 0) (get_or ys i 0) r _ _ _ _ (hx.digit i)
            (hx.byte i) (hy.digit i) (hy.byte i) h)
          (omega (arith, positive_sum-drop 2 i xs lx)) (omega (arith, negative_sum-drop 2 i xs lx))
          (omega (arith, positive_sum-drop 2 i ys ly)) (omega (arith, negative_sum-drop 2 i ys ly))

    double_base_loop-IsSoFar :
        (i : ℕ) (r : ProjectivePoint)
        → i < 256
        → IsSoFar (suc i) r
        → IsSoFar 0 (double_base_loop table_a table_b xs ys i r)
    unfolding double_base_loop
    double_base_loop-IsSoFar zero r lt h = round-IsSoFar 0 r lt h
    double_base_loop-IsSoFar (suc i) r lt h =
        double_base_loop-IsSoFar i _ (omega (arith, lt)) (round-IsSoFar (suc i) r lt h)

    pub from_start :
        IsSoFar 0
          (double_base_loop table_a table_b xs ys (start_index xs ys 256) projective_identity)
    from_start =
        let top = start_index-lt_suc xs ys 255 in
        let (cx, cy) =
          start_index-IsClear xs ys 256 (omega (arith, hx.sized)) (omega (arith, hy.sized))
            (omega (arith, hx.sized)) (omega (arith, hy.sized))
            (
              positive_sum-past 2 256 xs (omega (arith, hx.sized)),
              negative_sum-past 2 256 xs (omega (arith, hx.sized)),
            )
            (
              positive_sum-past 2 256 ys (omega (arith, hy.sized)),
              negative_sum-past 2 256 ys (omega (arith, hy.sized)),
            ) in
        double_base_loop-IsSoFar (start_index xs ys 256) projective_identity top
          (IsHere-change nothing-IsHere (sym cx.0) (sym cx.1) (sym cy.0) (sym cy.1))
