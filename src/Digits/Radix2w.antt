-- ===== src/Digits/Radix2w.antt =====
-- About the loop of `as_radix_2w` of curve25519/solana-ed25519/src/scalar.rs.
use ed25519_verificationtest.Common.{
  ℕ, zero, suc, ◌+◌, ◌-◌, ◌*◌, ◌/◌, ◌%◌, ◌^◌, ◌<◌, ◌≤◌, ◌≡◌, ◌⊎◌, inl, inr, refl, sym, ap, ◌∙◌,
  arith, List, [], ◌∷◌, length, get_or, Bool-cases, ltb, ◌==◌, u8, add64, sub64, shl64, shr,
  bit_and, bit_or, bit_or_disjoint,
}
use ed25519_verificationtest.Digits.{
  positive, negative, positive_sum, negative_sum, radix_buf, bit_buf, radix_digits,
}
use ed25519_verificationtest.Digits.Naf.{quotient_shift}
use ed25519_verificationtest.Digits.Windows.{words_value, IsWords, bit_buf-window}
use native.Mathlib.Nat.{div-add-mod, mod-lt, one-le-pow, pow-suc, pow-le-pow_right}
use native.Mathlib.Nat.{div-le_self}
use native.Mathlib.Nat.{pow-zero}
use ed25519_verificationtest.Common.{subst, All}
use native.Mathlib.Nat.{mod-le}

get_or-past : (xs : List ℕ) (i : ℕ) → length xs ≤ i → get_or xs i 0 ≡ 0
get_or-past [] i h = refl
get_or-past (x ∷ xs) zero h = absurd (omega arith)
get_or-past (x ∷ xs) (suc i) h = get_or-past xs i (omega arith)

get_or-IsWord : (xs : List ℕ) (i : ℕ) → IsWords xs → get_or xs i 0 < 2 ^ 64
get_or-IsWord [] i h = omega arith
get_or-IsWord (x ∷ xs) zero h = h.0
get_or-IsWord (x ∷ xs) (suc i) h = get_or-IsWord xs i h.1

or_zero : (x k : ℕ) → x < 2 ^ 64 → bit_or x (shl64 0 k) ≡ x
or_zero x k h =
    let none : shl64 0 k ≡ 0 * 2 ^ 64 = omega arith in
    ap (λ (t : ℕ). bit_or x t) none ∙ bit_or_disjoint 64 x 0 h ∙ omega arith

-- On four words the two ways to read a window agree.
radix_buf-bit_buf :
    (xs : List ℕ) (w pos : ℕ) → length xs ≡ 4 → IsWords xs → radix_buf xs w pos ≡ bit_buf xs w pos
unfolding radix_buf bit_buf
radix_buf-bit_buf xs w pos sized words = elim (Bool-cases (ltb (pos % 64) (64 - w))) [
  | inl inside ↦ rw inside refl
  | inr across ↦ elim (Bool-cases (pos / 64 == 3)) [
    | inl last ↦
        let place : pos / 64 ≡ 3 = ground arith in
        let none : get_or xs (1 + pos / 64) 0 ≡ 0 = get_or-past xs (1 + pos / 64) (omega arith) in
        let small : shr (get_or xs (pos / 64) 0) (pos % 64) < 2 ^ 64 = omega (
          arith,
          get_or-IsWord xs (pos / 64) words,
          div-le_self (get_or xs (pos / 64) 0) (2 ^ (pos % 64)),
        ) in
        rw (across, last, none) (sym (or_zero _ (64 - pos % 64) small))
    | inr before ↦ rw (across, before) refl
  ]
]

-- The widths that the code allows, apart from 4.
pub widths : (w : ℕ) → 4 < w → w ≤ 8 → (w ≡ 5) ⊎ (w ≡ 6) ⊎ (w ≡ 7) ⊎ (w ≡ 8)
widths w h k = grind arith

-- One window `v` with its carry: the digit, and the carry to the next.
record Recoded (m v d next : ℕ) : Type 0 where
  balance : positive d + m * next ≡ v + negative d
  high : positive d ≤ m / 2
  low : negative d ≤ m / 2
  range : d < 256
  bit : next < 2
  small : v < m / 2 → next ≡ 0

abbrev IsRecoded : ℕ → ℕ → Type 0
IsRecoded w v =
    Recoded (2 ^ w) v (u8 (sub64 v (shl64 (shr (add64 v (2 ^ w / 2)) w) w)))
      (shr (add64 v (2 ^ w / 2)) w)

digit_5 : (v : ℕ) → v ≤ 2 ^ 5 → IsRecoded 5 v
digit_5 v h = record {
  balance = ground arith;
  high = ground arith;
  low = ground arith;
  range = omega arith;
  bit = omega arith;
  small = λ lt. omega arith;
}

digit_6 : (v : ℕ) → v ≤ 2 ^ 6 → IsRecoded 6 v
digit_6 v h = record {
  balance = ground arith;
  high = ground arith;
  low = ground arith;
  range = omega arith;
  bit = omega arith;
  small = λ lt. omega arith;
}

digit_7 : (v : ℕ) → v ≤ 2 ^ 7 → IsRecoded 7 v
digit_7 v h = record {
  balance = ground arith;
  high = ground arith;
  low = ground arith;
  range = omega arith;
  bit = omega arith;
  small = λ lt. omega arith;
}

digit_8 : (v : ℕ) → v ≤ 2 ^ 8 → IsRecoded 8 v
digit_8 v h = record {
  balance = ground arith;
  high = ground arith;
  low = ground arith;
  range = omega arith;
  bit = omega arith;
  small = λ lt. omega arith;
}

recoded : (w v : ℕ) → 4 < w → w ≤ 8 → v ≤ 2 ^ w → IsRecoded w v
recoded w v wide narrow h = elim (widths w wide narrow) [
  | inl e ↦ subst (λ (x : ℕ). v ≤ 2 ^ x → IsRecoded x v) (sym e) (digit_5 v) h
  | inr (inl e) ↦ subst (λ (x : ℕ). v ≤ 2 ^ x → IsRecoded x v) (sym e) (digit_6 v) h
  | inr (inr (inl e)) ↦ subst (λ (x : ℕ). v ≤ 2 ^ x → IsRecoded x v) (sym e) (digit_7 v) h
  | inr (inr (inr e)) ↦ subst (λ (x : ℕ). v ≤ 2 ^ x → IsRecoded x v) (sym e) (digit_8 v) h
]

abbrev pub IsRadixDigit : ℕ → ℕ → Type 0
IsRadixDigit w x = (positive x ≤ 2 ^ w / 2) × (negative x ≤ 2 ^ w / 2) × (x < 256)

module _ (xs : List ℕ) (w : ℕ) (sized : length xs ≡ 4) (words : IsWords xs) (wide : 4 < w)
    (narrow : w ≤ 8) where
  abbrev n : ℕ
  n = words_value xs

  window_at : ℕ → ℕ → ℕ
  window_at i c = add64 c (bit_and (radix_buf xs w (i * w)) (2 ^ w - 1))

  window_at-value : (i c : ℕ) → c < 2 → window_at i c ≡ c + n / 2 ^ (i * w) % 2 ^ w
  unfolding window_at
  window_at-value i c bit =
      let bits = bit_buf-window xs w (i * w) words (omega arith) in
      let bound : 2 ^ w ≤ 256 =
        pow-le-pow_right {n = 2} (omega arith) {i = w} {j = 8} (omega arith) in
      let below : n / 2 ^ (i * w) % 2 ^ w < 2 ^ w =
        mod-lt (n / 2 ^ (i * w)) (one-le-pow w 2 (omega arith)) in
      rw (radix_buf-bit_buf xs w (i * w) sized words, bits) (omega arith)

  window_at-IsRecoded : (i c : ℕ) → c < 2 → IsRecoded w (window_at i c)
  window_at-IsRecoded i c bit =
      let below : n / 2 ^ (i * w) % 2 ^ w < 2 ^ w =
        mod-lt (n / 2 ^ (i * w)) (one-le-pow w 2 (omega arith)) in
      recoded w (window_at i c) wide narrow (omega (arith, window_at-value i c bit))

  next_place : (i : ℕ) → n / 2 ^ (suc i * w) ≡ n / 2 ^ (i * w) / 2 ^ w
  next_place i =
      let place : suc i * w ≡ i * w + w = omega arith in rw place (quotient_shift n (i * w) w)

  pub record IsExpansion (left i c : ℕ) (digits : List ℕ) (last : ℕ) : Type 0 where
    pub sum :
        positive_sum (2 ^ w) digits + (2 ^ w) ^ left * (n / 2 ^ ((i + left) * w) + last)
        ≡ n / 2 ^ (i * w) + c + negative_sum (2 ^ w) digits
    pub count : length digits ≡ left
    pub each : All (IsRadixDigit w) digits
    pub bit : last < 2

  pub radix_digits-IsExpansion :
      (left i c : ℕ)
      → c < 2
      → IsExpansion left i c (radix_digits left xs w i c).0 (radix_digits left xs w i c).1
  unfolding radix_digits window_at
  radix_digits-IsExpansion zero i c h =
      let here : i + 0 ≡ i = omega arith in
      record { sum = rw (here, pow-zero (2 ^ w)) (omega arith); count = refl; each = tt; bit = h }
  radix_digits-IsExpansion (suc left) i c h =
      let place : i + suc left ≡ suc i + left = omega arith in
      let digit = window_at-IsRecoded i c h in
      let rest = radix_digits-IsExpansion left (suc i) _ digit.bit in
      record {
        sum = rw place (
            omega (
              arith,
              digit.balance,
              window_at-value i c h,
              div-add-mod (n / 2 ^ (i * w)) (2 ^ w),
              ap (λ (x : ℕ). 2 ^ w * x) rest.sum,
              ap (λ (x : ℕ). 2 ^ w * x) (next_place i),
              ap
                  (λ (x : ℕ).
                    x * (n / 2 ^ ((suc i + left) * w) + (radix_digits (suc left) xs w i c).1))
                  (pow-suc (2 ^ w) left),
            ));
        count = ap suc rest.count;
        each = ((digit.high, digit.low, digit.range), rest.each);
        bit = rest.bit;
      }

  -- Where the last window is below half of the radix, no carry is left.
  pub last_carry :
      (left i c : ℕ)
      → c < 2
      → n / 2 ^ ((i + left) * w) + 1 < 2 ^ w / 2
      → (radix_digits (suc left) xs w i c).1 ≡ 0
  unfolding radix_digits window_at
  last_carry zero i c h room =
      let here : i + 0 ≡ i = omega arith in
      let small : n / 2 ^ (i * w) + 1 < 2 ^ w / 2 =
        subst (λ (x : ℕ). n / 2 ^ (x * w) + 1 < 2 ^ w / 2) here room in
      (window_at-IsRecoded i c h).small
        (omega (arith, window_at-value i c h, mod-le (n / 2 ^ (i * w)) (2 ^ w)))
  last_carry (suc left) i c h room =
      let place : i + suc left ≡ suc i + left = omega arith in
      last_carry left (suc i) _ (window_at-IsRecoded i c h).bit
        (subst (λ (x : ℕ). n / 2 ^ (x * w) + 1 < 2 ^ w / 2) place room)
