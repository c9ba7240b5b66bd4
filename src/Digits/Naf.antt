-- ===== src/Digits/Naf.antt =====
-- About `naf_round` of curve25519/solana-ed25519/src/scalar.rs: what holds between the rounds of
-- `non_adjacent_form`.
use ed25519_verificationtest.Common.{
  ℕ, suc, ◌+◌, ◌-◌, ◌*◌, ◌/◌, ◌%◌, ◌^◌, ◌<◌, ◌≤◌, ◌≡◌, ◌⊎◌, inl, inr, sym, ap, ◌∙◌, arith, List,
  length, get_or, set,
}
use ed25519_verificationtest.Common.{pow-add}
use ed25519_verificationtest.Digits.{positive, negative, positive_sum, negative_sum, NafState}
use ed25519_verificationtest.Digits.Entries.{
  same_or_apart, length-set, get_or-set, get_or-set_other, positive_sum-set, negative_sum-set,
}
use native.Mathlib.Nat.{div-div-eq-div-mul, pow-suc, pow-le-pow_right}
use ed25519_verificationtest.Common.{◌≢◌}
use ed25519_verificationtest.Common.{subst}

-- A digit is zero, or it is odd and below 2^(w - 1) in absolute value.
pub record IsOddDigit (w x : ℕ) : Type 0 where
  pub odd : x % 2 ≡ 1
  pub high : positive x < 2 ^ (w - 1)
  pub low : negative x < 2 ^ (w - 1)

abbrev pub IsNafDigit : ℕ → ℕ → Type 0
IsNafDigit w x = (x ≡ 0) ⊎ IsOddDigit w x

-- What the bits from the position on and the carry stand for.
abbrev pub remaining : ℕ → NafState → ℕ
remaining n t = n / 2 ^ t.pos + t.carry

pub record IsPartial (n w : ℕ) (t : NafState) : Type 0 where
  pub bit : t.carry < 2
  pub sized : length t.naf ≡ 256
  pub clear : (i : ℕ) → t.pos ≤ i → get_or t.naf i 0 ≡ 0
  pub sum : positive_sum 2 t.naf + 2 ^ t.pos * remaining n t ≡ n + negative_sum 2 t.naf
  pub room : (e : ℕ) → t.pos + e ≡ 255 → remaining n t ≤ 2 ^ e
  pub done : 255 < t.pos → remaining n t ≡ 0
  pub digit : (i : ℕ) → IsNafDigit w (get_or t.naf i 0)
  pub spaced : (i : ℕ) → (get_or t.naf i 0 ≡ 0) ⊎ (i + w ≤ t.pos)
  pub sparse : (i j : ℕ) → i < j → j < i + w → (get_or t.naf i 0 ≡ 0) ⊎ (get_or t.naf j 0 ≡ 0)

pub quotient_shift : (n i j : ℕ) → n / 2 ^ (i + j) ≡ n / 2 ^ i / 2 ^ j
quotient_shift n i j = rw (pow-add 2 i j) (sym (div-div-eq-div-mul n (2 ^ i) (2 ^ j)))

even_remaining :
    (n : ℕ) (t : NafState)
    → t.carry < 2
    → remaining n t % 2 ≡ 0
    → remaining n t ≡ 2 * (n / 2 ^ (t.pos + 1) + t.carry)
even_remaining n t h even = rw (quotient_shift n t.pos 1) (omega arith)

-- An even window moves the position on by one bit.
pub even_round :
    (n w : ℕ) (t : NafState)
    → IsPartial n w t
    → t.pos < 256
    → remaining n t % 2 ≡ 0
    → IsPartial n w (record { pos = t.pos + 1; carry = t.carry; naf = t.naf })
even_round n w t h inside even =
    let half = even_remaining n t h.bit even in
    record {
      bit = h.bit;
      sized = h.sized;
      clear = λ i le. h.clear i (omega arith);
      sum = omega (
        arith,
        h.sum,
        ap (λ (x : ℕ). x * (n / 2 ^ (t.pos + 1) + t.carry)) (pow-add 2 t.pos 1),
        ap (λ (x : ℕ). 2 ^ t.pos * x) half,
      );
      room = λ e place. omega (arith, h.room (suc e) (omega arith), pow-suc 2 e);
      done = λ past. omega (arith, h.room 0 (omega arith));
      digit = h.digit;
      spaced = λ i. elim (h.spaced i) [ inl none ↦ inl none | inr far ↦ inr (omega arith) ];
      sparse = h.sparse;
    }

-- An odd window writes a digit and moves the position on by the width.
module _ (n w : ℕ) (t : NafState) (h : IsPartial n w t) (wide : 1 < w) (inside : t.pos < 256)
    (d c : ℕ) (bit : c < 2) (d_odd : IsOddDigit w d)
    (balance : remaining n t + negative d ≡ positive d + 2 ^ w * (n / 2 ^ (t.pos + w) + c))
    (shrinks : (k : ℕ) → remaining n t ≤ 2 ^ w * k → n / 2 ^ (t.pos + w) + c ≤ k)
    (ends : remaining n t ≤ 2 ^ (w - 1) → n / 2 ^ (t.pos + w) + c ≡ 0) where
  abbrev written : List ℕ
  written = set t.naf t.pos d

  abbrev rest : ℕ
  rest = n / 2 ^ (t.pos + w) + c

  written_sum : positive_sum 2 written + 2 ^ (t.pos + w) * rest ≡ n + negative_sum 2 written
  written_sum =
      let free = h.clear t.pos (omega arith) in
      let room : t.pos < length t.naf = omega (arith, h.sized) in
      omega (
        arith,
        h.sum,
        positive_sum-set 2 t.naf t.pos d room free,
        negative_sum-set 2 t.naf t.pos d room free,
        ap (λ (x : ℕ). 2 ^ t.pos * x) balance,
        ap (λ (x : ℕ). x * rest) (pow-add 2 t.pos w),
      )

  written_elsewhere : (i : ℕ) → t.pos ≢ i → get_or written i 0 ≡ get_or t.naf i 0
  written_elsewhere i = get_or-set_other t.naf t.pos i d

  written_here : (i : ℕ) → t.pos ≡ i → get_or written i 0 ≡ d
  written_here i e =
      ap (λ (x : ℕ). get_or written x 0) (sym e) ∙ get_or-set t.naf t.pos d (omega (arith, h.sized))

  place : (i : ℕ) → (t.pos ≡ i) ⊎ (t.pos ≢ i)
  place i = same_or_apart t.pos i

  -- The digits at `i`, which was there before, and at `j`.
  beside :
      (i j : ℕ)
      → i < j
      → j < i + w
      → t.pos ≢ i
      → (t.pos ≡ j) ⊎ (t.pos ≢ j)
      → (get_or written i 0 ≡ 0) ⊎ (get_or written j 0 ≡ 0)
  beside i j lt near other (inl here) = elim (h.spaced i) [
    | inl none ↦ inl (written_elsewhere i other ∙ none)
    | inr far ↦ absurd (omega arith)
  ]
  beside i j lt near other (inr another) = elim (h.sparse i j lt near) [
    | inl none ↦ inl (written_elsewhere i other ∙ none)
    | inr none ↦ inr (written_elsewhere j another ∙ none)
  ]

  written_sparse :
      (i j : ℕ) → i < j → j < i + w → (get_or written i 0 ≡ 0) ⊎ (get_or written j 0 ≡ 0)
  written_sparse i j lt near = elim (place i) [
    | inl here ↦ inr (written_elsewhere j (λ e. absurd (omega arith)) ∙ h.clear j (omega arith))
    | inr other ↦ beside i j lt near other (place j)
  ]

  written_digit : (i : ℕ) → IsNafDigit w (get_or written i 0)
  written_digit i = elim (place i) [
    | inl here ↦ subst (IsNafDigit w) (sym (written_here i here)) (inr d_odd)
    | inr other ↦ subst (IsNafDigit w) (sym (written_elsewhere i other)) (h.digit i)
  ]

  written_spaced : (i : ℕ) → (get_or written i 0 ≡ 0) ⊎ (i + w ≤ t.pos + w)
  written_spaced i = elim (place i) [
    | inl here ↦ inr (omega arith)
    | inr other ↦ elim (h.spaced i) [
      | inl none ↦ inl (written_elsewhere i other ∙ none)
      | inr far ↦ inr (omega arith)
    ]
  ]

  pub odd_round : IsPartial n w (record { pos = t.pos + w; carry = c; naf = written })
  odd_round = record {
    bit = bit;
    sized = length-set t.naf t.pos d ∙ h.sized;
    clear = λ i le. written_elsewhere i (λ e. absurd (omega arith)) ∙ h.clear i (omega arith);
    sum = written_sum;
    room = λ e place. shrinks (2 ^ e) (rw (sym (pow-add 2 w e)) (h.room (w + e) (omega arith)));
    done = λ past. ends (
        omega (
          arith,
          h.room (255 - t.pos) (omega arith),
          pow-le-pow_right {n = 2} (omega arith) {i = 255 - t.pos} {j = w - 1} (omega arith),
        ));
    digit = written_digit;
    spaced = written_spaced;
    sparse = written_sparse;
  }
