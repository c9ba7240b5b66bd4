-- ===== src/Digits/FoldCarry.antt =====
-- About the last carry of `as_radix_2w` of curve25519/solana-ed25519/src/scalar.rs.
use ed25519_verificationtest.Common.{
  ℕ, suc, ◌+◌, ◌-◌, ◌*◌, ◌/◌, ◌^◌, ◌<◌, ◌≤◌, ◌≡◌, inl, inr, refl, sym, ap, ◌∙◌, arith, List, length,
  get_or, set, ◌==◌, u8, shl64, subst,
}
use ed25519_verificationtest.Digits.{
  positive, negative, positive_sum, negative_sum, add8, radix_digits, digits_count, padded,
  fold_carry,
}
use ed25519_verificationtest.Digits.Radix2w.{
  widths, IsExpansion, radix_digits-IsExpansion, last_carry,
}
use ed25519_verificationtest.Digits.Entries.{
  same_or_apart, length-set, get_or-set, get_or-set_other, positive_sum-set, negative_sum-set,
}
use ed25519_verificationtest.Digits.Padded.{
  positive_sum-padded, negative_sum-padded, length-padded, get_or-padded_end,
  get_or-padded-IsRadixDigit, set-get_or,
}
use ed25519_verificationtest.Digits.Windows.{words_value, IsWords}
use ed25519_verificationtest.Common.{false}
use ed25519_verificationtest.Common.{true}

-- The last window, and the bits after it, for each width below 8.
last_window :
    (n w : ℕ)
    → n < 2 ^ 255
    → 4 < w
    → w < 8
    → (n / 2 ^ ((digits_count w - 1) * w) + 1 < 2 ^ w / 2)
      × (n / 2 ^ (digits_count w * w) ≡ 0)
      × (digits_count w ≡ suc (digits_count w - 1))
      × (digits_count w ≤ 64)
last_window n w h wide narrow = elim (widths w wide (omega arith)) [
  | inl e ↦ rw e (omega arith, omega arith, refl, omega arith)
  | inr (inl e) ↦ rw e (omega arith, omega arith, refl, omega arith)
  | inr (inr (inl e)) ↦ rw e (omega arith, omega arith, refl, omega arith)
  | inr (inr (inr e)) ↦ absurd (omega arith)
]

-- What the digits of width `w` are to be for the number `n`.
pub record IsSignedExpansion (w n : ℕ) (digits : List ℕ) : Type 0 where
  pub sum : positive_sum (2 ^ w) digits ≡ n + negative_sum (2 ^ w) digits
  pub sized : length digits ≡ 64
  pub high : (i : ℕ) → positive (get_or digits i 0) ≤ 2 ^ w / 2
  pub low : (i : ℕ) → negative (get_or digits i 0) ≤ 2 ^ w / 2

module _ (xs : List ℕ) (w : ℕ) (words : length xs ≡ 4) (ranged : IsWords xs)
    (below : words_value xs < 2 ^ 255) (wide : 4 < w) where
  abbrev count : ℕ
  count = digits_count w

  abbrev digits : List ℕ
  digits = (radix_digits (digits_count w) xs w 0 0).0

  abbrev carry : ℕ
  carry = (radix_digits (digits_count w) xs w 0 0).1

  total :
      (narrow : w ≤ 8)
      → words_value xs / 2 ^ (count * w) ≡ 0
      → positive_sum (2 ^ w) digits + (2 ^ w) ^ count * carry
        ≡ words_value xs + negative_sum (2 ^ w) digits
  total narrow end =
      let full =
        radix_digits-IsExpansion xs w words ranged wide narrow (digits_count w) 0 0 (omega arith) in
      let first : words_value xs / 2 ^ (0 * w) ≡ words_value xs =
        let place : 0 * w ≡ 0 = omega arith in rw place (omega arith) in
      let after : words_value xs / 2 ^ ((0 + count) * w) ≡ 0 =
        let place : 0 + count ≡ count = omega arith in rw place end in
      omega (arith, full.sum, first, ap (λ (x : ℕ). (2 ^ w) ^ count * x) after)

  no_carry : (narrow : w < 8) → carry ≡ 0
  no_carry narrow =
      let (room, end, some, few) = last_window (words_value xs) w below wide narrow in
      let place : count - 1 ≡ 0 + (count - 1) = omega arith in
      subst (λ (k : ℕ). (radix_digits k xs w 0 0).1 ≡ 0) (sym some)
        (last_carry xs w words ranged wide (omega arith) (count - 1) 0 0 (omega arith)
          (subst (λ (k : ℕ). words_value xs / 2 ^ (k * w) + 1 < 2 ^ w / 2) place room))

  -- Below width 8 no carry is left, and the last digit stays.
  pub fold_carry-narrow :
      w < 8
      → IsSignedExpansion w (words_value xs) (fold_carry w (padded (digits_count w) digits) carry)
  unfolding fold_carry
  fold_carry-narrow narrow =
      let (room, end, some, few) = last_window (words_value xs) w below wide narrow in
      let full =
        radix_digits-IsExpansion xs w words ranged wide (omega arith) (digits_count w) 0 0
          (omega arith) in
      let none = no_carry narrow in
      let not_eight : (w == 8) ≡ false = ground arith in
      let digit = get_or-padded-IsRadixDigit w (64 - digits_count w) 0 digits full.each in
      let kept : add8 (get_or (padded (digits_count w) digits) (digits_count w - 1) 0)
            (u8 (shl64 0 w))
          ≡ get_or (padded (digits_count w) digits) (digits_count w - 1) 0 =
        omega (arith, (digit (digits_count w - 1)).2) in
      rw (not_eight, none, kept, set-get_or (padded (digits_count w) digits) (digits_count w - 1))
        (record {
          sum = omega (
            arith,
            total (omega arith) end,
            ap (λ (x : ℕ). (2 ^ w) ^ count * x) none,
            positive_sum-padded (2 ^ w) (64 - digits_count w) 0 digits,
            negative_sum-padded (2 ^ w) (64 - digits_count w) 0 digits,
          );
          sized = omega (arith, length-padded (64 - digits_count w) 0 digits, full.count);
          high = λ i. (digit i).0;
          low = λ i. (digit i).1;
        })

  -- At width 8 the carry is a digit of its own.
  module _ (eight : w ≡ 8) where
    thirty_two : count ≡ 32
    thirty_two = rw eight refl

    narrow : w ≤ 8
    narrow = omega arith

    full : IsExpansion xs w words ranged wide narrow count 0 0 digits carry
    full = radix_digits-IsExpansion xs w words ranged wide narrow (digits_count w) 0 0 (omega arith)

    abbrev before : List ℕ
    before = padded (digits_count w) digits

    free : get_or before count 0 ≡ 0
    free =
        subst (λ (k : ℕ). get_or before k 0 ≡ 0) full.count
          (get_or-padded_end (64 - digits_count w) 0 digits)

    sized_before : length before ≡ 64
    sized_before =
        omega (arith, length-padded (64 - digits_count w) 0 digits, full.count, thirty_two)

    written : add8 (get_or before count 0) (u8 carry) ≡ carry
    written = omega (arith, free, full.bit)

    written_positive : positive carry ≡ carry
    written_positive = let b = full.bit in ground arith

    written_negative : negative carry ≡ 0
    written_negative = let b = full.bit in ground arith

    entry :
        (i : ℕ)
        → (positive (get_or (set before count carry) i 0) ≤ 2 ^ w / 2)
          × (negative (get_or (set before count carry) i 0) ≤ 2 ^ w / 2)
    entry i =
        let digit = get_or-padded-IsRadixDigit w (64 - digits_count w) 0 digits full.each i in
        let half : 2 ^ w / 2 ≡ 128 = rw eight refl in
        elim (same_or_apart count i) [
          | inl same ↦
              let here : get_or (set before count carry) i 0 ≡ carry =
                ap (λ (k : ℕ). get_or (set before count carry) k 0) (sym same)
                ∙ get_or-set before count carry (omega (arith, sized_before, thirty_two)) in
              rw (here, written_positive, written_negative) (omega (arith, full.bit), omega arith)
          | inr apart ↦ rw (get_or-set_other before count i carry apart) (digit.0, digit.1)
        ]

    pub fold_carry-wide :
        IsSignedExpansion w (words_value xs) (fold_carry w (padded (digits_count w) digits) carry)
    unfolding fold_carry
    fold_carry-wide =
        let is_eight : (w == 8) ≡ true = ground arith in
        let end : words_value xs / 2 ^ (count * w) ≡ 0 = rw eight (omega arith) in
        let inside : count < length before = omega (arith, sized_before, thirty_two) in
        rw (is_eight, written)
          (record {
            sum = omega (
              arith,
              total narrow end,
              positive_sum-set (2 ^ w) before count carry inside free,
              negative_sum-set (2 ^ w) before count carry inside free,
              ap (λ (x : ℕ). (2 ^ w) ^ count * x) written_positive,
              ap (λ (x : ℕ). (2 ^ w) ^ count * x) written_negative,
              positive_sum-padded (2 ^ w) (64 - digits_count w) 0 digits,
              negative_sum-padded (2 ^ w) (64 - digits_count w) 0 digits,
            );
            sized = length-set before count carry ∙ sized_before;
            high = λ i. (entry i).0;
            low = λ i. (entry i).1;
          })
