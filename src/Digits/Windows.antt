-- ===== src/Digits/Windows.antt =====
-- About `read_le_u64_into` of curve25519/solana-ed25519/src/scalar.rs, and the windows of bits that
-- the digit expansions read.
use ed25519_verificationtest.Common.{
  ℕ, zero, suc, ltb, Bool-cases, inl, inr, subst, ◌+◌, ◌-◌, ◌*◌, ◌/◌, ◌%◌, ◌^◌, ◌<◌, ◌≤◌, ◌≡◌, refl,
  sym, ap, ◌∙◌, arith, List, [], ◌∷◌, take, drop, get_or,
}
use ed25519_verificationtest.Common.{
  le_value, le_value-lt, IsBytes, bit_and-low_mask, bit_or_disjoint, pow-add, bit_or, bit_and, shr,
  shl64, All, if◌then◌else◌,
}
use ed25519_verificationtest.Digits.{read_le_u64, bit_buf}
use native.Mathlib.Nat.{
  add-mul-div_left, add-mul-mod_self_left, div-div-eq-div-mul, div-add-mod, one-le-pow,
  div-lt_iff_lt-mul,
}
use native.Mathlib.Nat.{mul-lt-mul_of_pos_right}
use native.Mathlib.Nat.{mod-lt}
use ed25519_verificationtest.Common.{subst, Bool-cases}
use ed25519_verificationtest.Common.{ltb}
use ed25519_verificationtest.Common.{inl}
use ed25519_verificationtest.Common.{inr}
use native.Mathlib.Nat.{zero-div}
use ed25519_verificationtest.Common.{IsBytes-drop}
use ed25519_verificationtest.Common.{IsBytes-take}
use ed25519_verificationtest.Common.{le_value-take}

-- The number that 64-bit words stand for, lowest word first.
abbrev pub words_value : List ℕ → ℕ
words_value [] = 0
words_value (x ∷ xs) = x + 2 ^ 64 * words_value xs

power_split : (w e : ℕ) → w ≤ e → 2 ^ e ≡ 2 ^ w * 2 ^ (e - w)
power_split w e h =
    let whole : w + (e - w) ≡ e = omega arith in
    ap (λ (t : ℕ). 2 ^ t) (sym whole) ∙ pow-add 2 w (e - w)

-- The quotient by a power of two of two numbers side by side.
split_quotient : (x y r : ℕ) → r ≤ 64 → (x + 2 ^ 64 * y) / 2 ^ r ≡ x / 2 ^ r + 2 ^ (64 - r) * y
split_quotient x y r h =
    let product : 2 ^ 64 * y ≡ 2 ^ r * (2 ^ (64 - r) * y) =
      ap (λ (t : ℕ). t * y) (power_split r 64 h) ∙ omega arith in
    rw product (add-mul-div_left x (2 ^ (64 - r) * y) (one-le-pow r 2 (omega arith)))

-- A multiple of 2^w does not change the low w bits.
low_bits : (x y w e : ℕ) → w ≤ e → (x + 2 ^ e * y) % 2 ^ w ≡ x % 2 ^ w
low_bits x y w e h =
    let product : 2 ^ e * y ≡ 2 ^ w * (2 ^ (e - w) * y) =
      ap (λ (t : ℕ). t * y) (power_split w e h) ∙ omega arith in
    rw product (add-mul-mod_self_left x (2 ^ w) (2 ^ (e - w) * y))

-- The window lies in one word.
one_word : (x y r w : ℕ) → r + w ≤ 64 → (x + 2 ^ 64 * y) / 2 ^ r % 2 ^ w ≡ x / 2 ^ r % 2 ^ w
one_word x y r w h =
    rw (split_quotient x y r (omega arith)) (low_bits (x / 2 ^ r) y w (64 - r) (omega arith))

-- A word by the place of its bits in the window: the low ones, and what the shift drops.
split_next : (y r : ℕ) → r ≤ 64 → y * 2 ^ (64 - r) ≡ y % 2 ^ r * 2 ^ (64 - r) + 2 ^ 64 * (y / 2 ^ r)
split_next y r h =
    let parts : 2 ^ r * (y / 2 ^ r) + y % 2 ^ r ≡ y = div-add-mod y (2 ^ r) in
    let product : 2 ^ 64 * (y / 2 ^ r) ≡ 2 ^ r * (y / 2 ^ r) * 2 ^ (64 - r) =
      ap (λ (t : ℕ). t * (y / 2 ^ r)) (power_split r 64 h) ∙ omega arith in
    omega (arith, product, ap (λ (t : ℕ). t * 2 ^ (64 - r)) parts)

shifted_next : (y r : ℕ) → r ≤ 64 → shl64 y (64 - r) ≡ y % 2 ^ r * 2 ^ (64 - r)
shifted_next y r h =
    let below : y % 2 ^ r * 2 ^ (64 - r) < 2 ^ r * 2 ^ (64 - r) =
      mul-lt-mul_of_pos_right (mod-lt y (one-le-pow r 2 (omega arith)))
        (one-le-pow (64 - r) 2 (omega arith)) in
    let small : y % 2 ^ r * 2 ^ (64 - r) < 2 ^ 64 = omega (arith, power_split r 64 h) in
    ap (λ (t : ℕ). t % 2 ^ 64) (split_next y r h) ∙ omega arith

-- The window reaches into the next word.
two_words :
    (x y z r w : ℕ)
    → x < 2 ^ 64
    → r ≤ 64
    → w ≤ 64
    → bit_or (x / 2 ^ r) (shl64 y (64 - r)) % 2 ^ w
      ≡ (x + 2 ^ 64 * (y + 2 ^ 64 * z)) / 2 ^ r % 2 ^ w
two_words x y z r w hx hr hw =
    let high : x / 2 ^ r < 2 ^ (64 - r) =
      (div-lt_iff_lt-mul (one-le-pow r 2 (omega arith))).1 (omega (arith, power_split r 64 hr)) in
    let joined = bit_or_disjoint (64 - r) (x / 2 ^ r) (y % 2 ^ r) high in
    let rest : 2 ^ (64 - r) * (y + 2 ^ 64 * z)
        ≡ y % 2 ^ r * 2 ^ (64 - r) + 2 ^ 64 * (y / 2 ^ r + 2 ^ (64 - r) * z) =
      omega (arith, split_next y r hr) in
    let whole : x / 2 ^ r + 2 ^ (64 - r) * (y + 2 ^ 64 * z)
        ≡ x / 2 ^ r + y % 2 ^ r * 2 ^ (64 - r) + 2 ^ 64 * (y / 2 ^ r + 2 ^ (64 - r) * z) =
      omega arith in
    rw (shifted_next y r hr, joined, split_quotient x (y + 2 ^ 64 * z) r hr, whole)
      (sym (low_bits _ (y / 2 ^ r + 2 ^ (64 - r) * z) w 64 hw))

-- The words of a list of 64-bit words.
abbrev pub IsWords : List ℕ → Type 0
IsWords = All (λ x. x < 2 ^ 64)

-- What `bit_buf` holds for the bit `r` of a word and the word after it.
abbrev window : ℕ → ℕ → ℕ → ℕ → ℕ
window x y r w = if ltb r (64 - w) then shr x r else bit_or (shr x r) (shl64 y (64 - r))

window-value :
    (x y z r w : ℕ)
    → x < 2 ^ 64
    → r < 64
    → w ≤ 64
    → window x y r w % 2 ^ w ≡ (x + 2 ^ 64 * (y + 2 ^ 64 * z)) / 2 ^ r % 2 ^ w
window-value x y z r w hx hr hw = elim (Bool-cases (ltb r (64 - w))) [
  | inl inside ↦
      let fits : r + w ≤ 64 = ground arith in rw inside (sym (one_word x (y + 2 ^ 64 * z) r w fits))
  | inr across ↦ rw across (two_words x y z r w hx (omega arith) hw)
]

next_word :
    (x : ℕ) (xs : List ℕ) (q r : ℕ)
    → x < 2 ^ 64
    → words_value (x ∷ xs) / 2 ^ (64 * suc q + r) ≡ words_value xs / 2 ^ (64 * q + r)
next_word x xs q r h =
    let place : 64 * suc q + r ≡ 64 + (64 * q + r) = omega arith in
    let first : (x + 2 ^ 64 * words_value xs) / 2 ^ 64 ≡ words_value xs = omega arith in
    rw (place, pow-add 2 64 (64 * q + r))
      (sym (div-div-eq-div-mul (words_value (x ∷ xs)) (2 ^ 64) (2 ^ (64 * q + r)))
        ∙ ap (λ (t : ℕ). t / 2 ^ (64 * q + r)) first)

first_place : (r : ℕ) → r ≡ 64 * 0 + r
first_place r = omega arith

window-words :
    (xs : List ℕ) (q r w : ℕ)
    → IsWords xs
    → r < 64
    → w ≤ 64
    → window (get_or xs q 0) (get_or xs (suc q) 0) r w % 2 ^ w
      ≡ words_value xs / 2 ^ (64 * q + r) % 2 ^ w
window-words [] q r w h hr hw =
    window-value 0 0 0 r w (omega arith) hr hw
    ∙ ap (λ (t : ℕ). t % 2 ^ w) (zero-div (2 ^ r) ∙ sym (zero-div (2 ^ (64 * q + r))))
window-words (x ∷ []) zero r w h hr hw =
    window-value x 0 0 r w h.0 hr hw ∙ ap (λ (t : ℕ). (x + 0) / 2 ^ t % 2 ^ w) (first_place r)
window-words (x ∷ y ∷ rest) zero r w h hr hw =
    window-value x y (words_value rest) r w h.0 hr hw
    ∙ ap (λ (t : ℕ). words_value (x ∷ y ∷ rest) / 2 ^ t % 2 ^ w) (first_place r)
window-words (x ∷ xs) (suc q) r w h hr hw =
    window-words xs q r w h.1 hr hw ∙ ap (λ (t : ℕ). t % 2 ^ w) (sym (next_word x xs q r h.0))

-- The window that `bit_buf` holds is that of the number.
pub bit_buf-window :
    (xs : List ℕ) (w pos : ℕ)
    → IsWords xs
    → w ≤ 64
    → bit_and (bit_buf xs w pos) (2 ^ w - 1) ≡ words_value xs / 2 ^ pos % 2 ^ w
unfolding bit_buf
bit_buf-window xs w pos h hw =
    let place : 64 * (pos / 64) + pos % 64 ≡ pos = omega arith in
    let next : 1 + pos / 64 ≡ suc (pos / 64) = omega arith in
    bit_and-low_mask w (bit_buf xs w pos)
    ∙ rw next (window-words xs (pos / 64) (pos % 64) w h (omega arith) hw)
    ∙ ap (λ (t : ℕ). words_value xs / 2 ^ t % 2 ^ w) place

-- Reading the words of 8 n bytes keeps their number.
pub read_le_u64-value :
    (n : ℕ) (src : List ℕ)
    → IsBytes (8 * n) src
    → (words_value (read_le_u64 n src) ≡ le_value src) × IsWords (read_le_u64 n src)
unfolding read_le_u64
read_le_u64-value zero [] h = (refl, tt)
read_le_u64-value zero (x ∷ xs) h = absurd (omega (arith, h.sized))
read_le_u64-value (suc n) src h =
    let e : 8 * suc n ≡ 8 + 8 * n = omega arith in
    let bytes = subst (λ (t : ℕ). IsBytes t src) e h in
    let (rest, words) = read_le_u64-value n (drop 8 src) (IsBytes-drop 8 (8 * n) src bytes) in
    let first = le_value-lt 8 (take 8 src) (IsBytes-take 8 (8 * n) src bytes) in
    (omega (arith, le_value-take 8 src (omega (arith, h.sized))), (first, words))
