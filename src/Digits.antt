-- ===== src/Digits.antt =====
-- curve25519/solana-ed25519/src/scalar.rs: the digit expansions of a scalar.
pub mod Entries
pub mod FoldCarry
pub mod Naf
pub mod Padded
pub mod Signed
pub mod Sums
pub mod NonAdjacent
pub mod Bytes
pub mod Radix16
pub mod Radix2w
pub mod Rounds
pub mod Windows
use ed25519_verificationtest.Common.{
  ℕ, zero, suc, take, drop, ◌+◌, ◌*◌, List, [], ◌∷◌, shr, byte, bit_and, if◌then◌else◌, ltb, u8,
}
use ed25519_verificationtest.Scalar.{Scalar}
use ed25519_verificationtest.Common.{◌^◌, ◌%◌}
use ed25519_verificationtest.Common.{◌-◌}
use ed25519_verificationtest.Common.{suc, ◌==◌, ◌++◌, ◌/◌}
use ed25519_verificationtest.Common.{set, tabulate, get_or, le_value}
use ed25519_verificationtest.Common.{bit_or}
use ed25519_verificationtest.Common.{shl64}
use ed25519_verificationtest.Common.{◌||◌, add64}
use ed25519_verificationtest.Common.{sub64}

-- An `i8` is its bit pattern, a number below 256; every operation wraps.
abbrev pub add8 : ℕ → ℕ → ℕ
add8 a b = (a + b) % 2 ^ 8

abbrev pub sub8 : ℕ → ℕ → ℕ
sub8 a b = (a + 2 ^ 8 - b) % 2 ^ 8

abbrev pub shl8 : ℕ → ℕ → ℕ
shl8 x k = x * 2 ^ k % 2 ^ 8

-- `x >> k` on an `i8` keeps the sign.
abbrev pub sar8 : ℕ → ℕ → ℕ
sar8 x k = if ltb x 128 then shr x k else 2 ^ 8 - 1 - shr (2 ^ 8 - 1 - x) k

-- The positive and the negative part of an `i8`.
abbrev pub positive : ℕ → ℕ
positive x = if ltb x 128 then x else 0

abbrev pub negative : ℕ → ℕ
negative x = if ltb x 128 then 0 else 2 ^ 8 - x

-- The sums of the positive and of the negative digits, by their weight.
abbrev pub positive_sum : ℕ → List ℕ → ℕ
positive_sum radix [] = 0
positive_sum radix (x ∷ xs) = positive x + radix * positive_sum radix xs

abbrev pub negative_sum : ℕ → List ℕ → ℕ
negative_sum radix [] = 0
negative_sum radix (x ∷ xs) = negative x + radix * negative_sum radix xs

-- `bot_half` and `top_half`
abbrev pub bot_half : ℕ → ℕ
bot_half x = bit_and (shr x 0) 15

abbrev pub top_half : ℕ → ℕ
top_half x = bit_and (shr x 4) 15

-- Step 1: two digits for each byte.
pub nibbles : List ℕ → List ℕ
nibbles [] = []
nibbles (x ∷ xs) = bot_half x ∷ top_half x ∷ nibbles xs

-- Step 2: each digit but the last gives a carry to the next.
pub recenter : ℕ → List ℕ → List ℕ
recenter carry [] = []
recenter carry (x ∷ []) = add8 x carry ∷ []
recenter carry (x ∷ y ∷ rest) =
    let digit = add8 x carry in
    let next = sar8 (add8 digit 8) 4 in sub8 digit (shl8 next 4) ∷ recenter next (y ∷ rest)

pub as_radix_16 : Scalar → List ℕ
as_radix_16 a = recenter 0 (nibbles a.bytes)

-- `read_le_u64_into`: one word for every eight bytes.
unfoldable pub read_le_u64 : ℕ → List ℕ → List ℕ
read_le_u64 zero src = []
read_le_u64 (suc n) src = le_value (take 8 src) ∷ read_le_u64 n (drop 8 src)

-- The bits from `pos` on: of one word, or of two where the window reaches into the next.
unfoldable pub bit_buf : List ℕ → ℕ → ℕ → ℕ
bit_buf x w pos =
    let u64_idx = pos / 64 in
    let bit_idx = pos % 64 in
    if ltb bit_idx (64 - w)
    then shr (get_or x u64_idx 0) bit_idx
    else bit_or (shr (get_or x u64_idx 0) bit_idx) (shl64 (get_or x (1 + u64_idx) 0) (64 - bit_idx))

-- What the loop of `non_adjacent_form` changes.
pub record NafState : Type 0 where
  pub pos : ℕ
  pub carry : ℕ
  pub naf : List ℕ

-- One round of the loop, on a window that is even, below half of the width, or above.
unfoldable pub naf_round : ℕ → ℕ → NafState → NafState
naf_round w window t =
    if bit_and window 1 == 0
    then record { pos = t.pos + 1; carry = t.carry; naf = t.naf }
    else if ltb window (2 ^ w / 2)
    then record { pos = t.pos + w; carry = 0; naf = set t.naf t.pos (u8 window) }
    else record {
      pos = t.pos + w;
      carry = 1;
      naf = set t.naf t.pos (sub8 (u8 window) (u8 (2 ^ w)));
    }

unfoldable pub naf_step : List ℕ → ℕ → NafState → NafState
naf_step x w t = naf_round w (t.carry + bit_and (bit_buf x w t.pos) (2 ^ w - 1)) t

-- Every round moves the position on, so that 256 rounds are enough.
unfoldable pub naf_loop : ℕ → List ℕ → ℕ → NafState → NafState
naf_loop zero x w t = t
naf_loop (suc fuel) x w t = naf_loop fuel x w (if ltb t.pos 256 then naf_step x w t else t)

unfoldable pub non_adjacent_form : Scalar → ℕ → List ℕ
non_adjacent_form a w =
    let x = read_le_u64 4 a.bytes ++ (0 ∷ []) in
    (naf_loop 256 x w (record { pos = 0; carry = 0; naf = tabulate 256 0 (λ i. 0) })).naf

-- `256_usize.div_ceil(w)`
abbrev pub digits_count : ℕ → ℕ
digits_count w = (256 + w - 1) / w

-- The bits from `bit_offset` on, where the last word has none after it.
pub radix_buf : List ℕ → ℕ → ℕ → ℕ
radix_buf x w bit_offset =
    let u64_idx = bit_offset / 64 in
    let bit_idx = bit_offset % 64 in
    if ltb bit_idx (64 - w) || u64_idx == 3
    then shr (get_or x u64_idx 0) bit_idx
    else bit_or (shr (get_or x u64_idx 0) bit_idx) (shl64 (get_or x (1 + u64_idx) 0) (64 - bit_idx))

-- The loop of `as_radix_2w` from the index `i` on: the digits, and the carry that is left.
pub radix_digits : ℕ → List ℕ → ℕ → ℕ → ℕ → List ℕ × ℕ
radix_digits zero x w i carry = ([], carry)
radix_digits (suc left) x w i carry =
    let coef = add64 carry (bit_and (radix_buf x w (i * w)) (2 ^ w - 1)) in
    let next = shr (add64 coef (2 ^ w / 2)) w in
    let (digits, last) = radix_digits left x w (suc i) next in
    (u8 (sub64 coef (shl64 next w)) ∷ digits, last)

-- The array of 64 digits, before the last carry.
abbrev pub padded : ℕ → List ℕ → List ℕ
padded count digits = digits ++ tabulate (64 - count) 0 (λ i. 0)

pub fold_carry : ℕ → List ℕ → ℕ → List ℕ
fold_carry w digits carry =
    let count = digits_count w in
    if w == 8
    then set digits count (add8 (get_or digits count 0) (u8 carry))
    else set digits (count - 1) (add8 (get_or digits (count - 1) 0) (u8 (shl64 carry w)))

pub as_radix_2w : Scalar → ℕ → List ℕ
as_radix_2w a w =
    if w == 4
    then as_radix_16 a
    else let (digits, carry) = radix_digits (digits_count w) (read_le_u64 4 a.bytes) w 0 0 in
      fold_carry w (padded (digits_count w) digits) carry
