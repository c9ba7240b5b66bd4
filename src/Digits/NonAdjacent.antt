-- ===== src/Digits/NonAdjacent.antt =====
-- About the loop of `non_adjacent_form` of curve25519/solana-ed25519/src/scalar.rs.
use ed25519_verificationtest.Common.{
  ℕ, zero, suc, ◌+◌, ◌*◌, ◌/◌, ◌^◌, ◌<◌, ◌≤◌, ◌≡◌, ◌⊎◌, inl, inr, refl, ap, arith, List, [], ◌∷◌,
  ◌++◌, length, get_or, tabulate, Bool-cases, ltb, ◌==◌, if◌then◌else◌, bit_and,
}
use ed25519_verificationtest.Digits.{
  positive_sum, negative_sum, NafState, naf_round, naf_step, naf_loop, read_le_u64,
  non_adjacent_form,
}
use ed25519_verificationtest.Digits.Naf.{IsPartial, IsNafDigit}
use ed25519_verificationtest.Digits.Rounds.{naf_round-IsPartial}
use ed25519_verificationtest.Digits.Windows.{
  words_value, IsWords, bit_buf-window, read_le_u64-value,
}
use ed25519_verificationtest.Scalar.{Scalar}
use ed25519_verificationtest.Scalar.Arithmetic.{number, IsScalar}

-- An expansion of width `w`: 256 digits that are zero or odd and in range, and of any `w` in a
-- row at most one is not zero.
pub record IsNonAdjacent (w : ℕ) (naf : List ℕ) : Type 0 where
  pub sized : length naf ≡ 256
  pub digit : (i : ℕ) → IsNafDigit w (get_or naf i 0)
  pub sparse : (i j : ℕ) → i < j → j < i + w → (get_or naf i 0 ≡ 0) ⊎ (get_or naf j 0 ≡ 0)

naf_round-pos : (w v : ℕ) (t : NafState) → 0 < w → t.pos < (naf_round w v t).pos
unfolding naf_round
naf_round-pos w v t h = elim (Bool-cases (bit_and v 1 == 0)) [
  | inl even ↦ rw even (omega arith)
  | inr odd ↦ elim (Bool-cases (ltb v (2 ^ w / 2))) [
    | inl small ↦ rw (odd, small) (omega arith)
    | inr large ↦ rw (odd, large) (omega arith)
  ]
]

module _ (xs : List ℕ) (w : ℕ) (words : IsWords xs) (wide : 1 < w) (narrow : w ≤ 8) where
  naf_step-IsPartial :
      (t : NafState)
      → IsPartial (words_value xs) w t
      → t.pos < 256
      → IsPartial (words_value xs) w (naf_step xs w t)
  unfolding naf_step
  naf_step-IsPartial t h inside =
      rw (bit_buf-window xs w t.pos words (omega arith))
        (naf_round-IsPartial (words_value xs) w t h wide narrow inside)

  naf_step-pos : (t : NafState) → t.pos < (naf_step xs w t).pos
  unfolding naf_step
  naf_step-pos t = naf_round-pos w _ t (omega arith)

  guarded_step :
      (fuel : ℕ) (t : NafState)
      → IsPartial (words_value xs) w t
      → 256 ≤ suc fuel + t.pos
      → IsPartial (words_value xs) w (if ltb t.pos 256 then naf_step xs w t else t)
        × (256 ≤ fuel + (if ltb t.pos 256 then naf_step xs w t else t).pos)
  guarded_step fuel t h enough = elim (Bool-cases (ltb t.pos 256)) [
    | inl inside ↦
        let lt : t.pos < 256 = ground arith in
        rw inside (naf_step-IsPartial t h lt, omega (arith, naf_step-pos t))
    | inr past ↦ let le : 256 ≤ t.pos = ground arith in rw past (h, omega arith)
  ]

  -- With as many rounds as positions are left the loop ends.
  naf_loop-IsPartial :
      (fuel : ℕ) (t : NafState)
      → IsPartial (words_value xs) w t
      → 256 ≤ fuel + t.pos
      → IsPartial (words_value xs) w (naf_loop fuel xs w t) × (255 < (naf_loop fuel xs w t).pos)
  unfolding naf_loop
  naf_loop-IsPartial zero t h enough = (h, omega arith)
  naf_loop-IsPartial (suc fuel) t h enough =
      let (next, left) = guarded_step fuel t h enough in naf_loop-IsPartial fuel _ next left

pub zeros : (k j i : ℕ) → get_or (tabulate k j (λ x. 0)) i 0 ≡ 0
zeros zero j i = refl
zeros (suc k) j zero = refl
zeros (suc k) j (suc i) = zeros k (suc j) i

first_state-IsPartial :
    (n w : ℕ)
    → n < 2 ^ 255
    → IsPartial n w (record { pos = 0; carry = 0; naf = tabulate 256 0 (λ i. 0) })
first_state-IsPartial n w h = record {
  bit = omega arith;
  sized = refl;
  clear = λ i le. zeros 256 0 i;
  sum = omega arith;
  room = λ e place. let last : e ≡ 255 = omega arith in rw last (omega arith);
  done = λ past. absurd (omega arith);
  digit = λ i. inl (zeros 256 0 i);
  spaced = λ i. inl (zeros 256 0 i);
  sparse = λ i j lt near. inl (zeros 256 0 i);
}

one_more_word :
    (xs : List ℕ)
    → IsWords xs
    → (words_value (xs ++ (0 ∷ [])) ≡ words_value xs) × IsWords (xs ++ (0 ∷ []))
one_more_word [] h = (refl, (omega arith, tt))
one_more_word (x ∷ xs) h = let (same, words) = one_more_word xs h.1 in (omega arith, (h.0, words))

-- For a scalar of 32 bytes below 2^255 and a width from 2 to 8, `non_adjacent_form` gives 256
-- digits whose sum by powers of 2, the positive ones less the negative ones, is the number; each
-- digit is zero, or it is odd and its absolute value is below 2^(w - 1), and of two digits fewer
-- than w places apart at least one is zero.
pub non_adjacent_form-value :
    (a : Scalar) (w : ℕ)
    → IsScalar a
    → number a < 2 ^ 255
    → 1 < w
    → w ≤ 8
    → (positive_sum 2 (non_adjacent_form a w) ≡ number a + negative_sum 2 (non_adjacent_form a w))
      × IsNonAdjacent w (non_adjacent_form a w)
unfolding non_adjacent_form
non_adjacent_form-value a w h below wide narrow =
    let (exact, words) = read_le_u64-value 4 a.bytes h in
    let (same, all_words) = one_more_word (read_le_u64 4 a.bytes) words in
    let start =
      first_state-IsPartial (words_value (read_le_u64 4 a.bytes ++ (0 ∷ []))) w (omega arith) in
    let last =
      naf_loop 256 (read_le_u64 4 a.bytes ++ (0 ∷ [])) w
        (record { pos = 0; carry = 0; naf = tabulate 256 0 (λ i. 0) }) in
    let (out, past) = naf_loop-IsPartial _ w all_words wide narrow 256 _ start (omega arith) in
    (
      omega (arith, out.sum, ap (λ (x : ℕ). 2 ^ last.pos * x) (out.done past), same, exact),
      record { sized = out.sized; digit = out.digit; sparse = out.sparse },
    )
