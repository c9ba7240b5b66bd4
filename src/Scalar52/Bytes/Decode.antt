-- ===== src/Scalar52/Bytes/Decode.antt =====
-- About `from_bytes` of curve25519/solana-ed25519/src/backend/serial/u64/scalar.rs.
use ed25519_verificationtest.Common.{ℕ, ◌+◌, ◌*◌, ◌%◌, ◌^◌, ◌<◌, ◌≡◌, arith, List, byte}
use ed25519_verificationtest.Common.{
  bit_or, shr, shl64, bit_or_disjoint, le_value, IsBytes, or_byte, le_value-tabulate,
  bit_and-low_mask,
}
use ed25519_verificationtest.Scalar52.{value, IsNormal}
use ed25519_verificationtest.Scalar52.Subtract.{low_52_lem}
use ed25519_verificationtest.Scalar52.Bytes.{word, word_loop, from_bytes}

-- The eight bytes of a word.
pub word_sum :
    (bytes : List ℕ) (n i : ℕ)
    → IsBytes n bytes
    → i * 8 + 7 < n
    → word bytes i
      ≡ byte bytes (i * 8 + 0)
        + byte bytes (i * 8 + 1) * 2 ^ 8
        + byte bytes (i * 8 + 2) * 2 ^ 16
        + byte bytes (i * 8 + 3) * 2 ^ 24
        + byte bytes (i * 8 + 4) * 2 ^ 32
        + byte bytes (i * 8 + 5) * 2 ^ 40
        + byte bytes (i * 8 + 6) * 2 ^ 48
        + byte bytes (i * 8 + 7) * 2 ^ 56
unfolding word word_loop
word_sum bytes n i h fits =
    let b = λ (j : ℕ). byte bytes (i * 8 + j) in
    let r0 = h.ranged (i * 8 + 0) (omega arith) in
    let r1 = h.ranged (i * 8 + 1) (omega arith) in
    let r2 = h.ranged (i * 8 + 2) (omega arith) in
    let r3 = h.ranged (i * 8 + 3) (omega arith) in
    let r4 = h.ranged (i * 8 + 4) (omega arith) in
    let r5 = h.ranged (i * 8 + 5) (omega arith) in
    let r6 = h.ranged (i * 8 + 6) (omega arith) in
    let r7 = h.ranged (i * 8 + 7) (omega arith) in
    let s0 : ℕ = 0 + b 0 * 1 in
    let s1 : ℕ = s0 + b 1 * 2 ^ 8 in
    let s2 : ℕ = s1 + b 2 * 2 ^ 16 in
    let s3 : ℕ = s2 + b 3 * 2 ^ 24 in
    let s4 : ℕ = s3 + b 4 * 2 ^ 32 in
    let s5 : ℕ = s4 + b 5 * 2 ^ 40 in
    let s6 : ℕ = s5 + b 6 * 2 ^ 48 in
    rw
      (
        or_byte 0 0 (b 0) (omega arith) (omega arith),
        or_byte 8 s0 (b 1) (omega arith) (omega arith),
        or_byte 16 s1 (b 2) (omega arith) (omega arith),
        or_byte 24 s2 (b 3) (omega arith) (omega arith),
        or_byte 32 s3 (b 4) (omega arith) (omega arith),
        or_byte 40 s4 (b 5) (omega arith) (omega arith),
        or_byte 48 s5 (b 6) (omega arith) (omega arith),
        or_byte 56 s6 (b 7) (omega arith) (omega arith),
      )
      (omega arith)

pub word-lt : (bytes : List ℕ) (n i : ℕ) → IsBytes n bytes → i * 8 + 7 < n → word bytes i < 2 ^ 64
word-lt bytes n i h fits = omega (
  arith,
  word_sum bytes n i h fits,
  h.ranged (i * 8 + 0) (omega arith),
  h.ranged (i * 8 + 1) (omega arith),
  h.ranged (i * 8 + 2) (omega arith),
  h.ranged (i * 8 + 3) (omega arith),
  h.ranged (i * 8 + 4) (omega arith),
  h.ranged (i * 8 + 5) (omega arith),
  h.ranged (i * 8 + 6) (omega arith),
  h.ranged (i * 8 + 7) (omega arith),
)

-- Two words side by side: the high bits of one below the low bits of the next.
pub joined :
    (k low high q : ℕ)
    → low < 2 ^ k
    → shl64 high k ≡ q * 2 ^ k
    → bit_or low (shl64 high k) ≡ low + q * 2 ^ k
joined k low high q small e = rw e (bit_or_disjoint k low q small)

module _ (bytes : List ℕ) (h : IsBytes 32 bytes) where
  abbrev w : ℕ → ℕ
  w = word bytes

  four_words : le_value bytes ≡ w 0 + 2 ^ 64 * w 1 + 2 ^ 128 * w 2 + 2 ^ 192 * w 3
  four_words = omega (
    arith,
    le_value-tabulate 32 bytes h.sized,
    word_sum bytes 32 0 h (omega arith),
    word_sum bytes 32 1 h (omega arith),
    word_sum bytes 32 2 h (omega arith),
    word_sum bytes 32 3 h (omega arith),
  )

  -- Unpacking keeps the whole 256-bit number; the limbs are normal, the top one below 2^48.
  pub from_bytes-value :
      (value (from_bytes bytes) ≡ le_value bytes)
      × IsNormal (from_bytes bytes)
      × ((from_bytes bytes).l4 < 2 ^ 48)
  unfolding from_bytes
  from_bytes-value =
      let h0 = word-lt bytes 32 0 h (omega arith) in
      let h1 = word-lt bytes 32 1 h (omega arith) in
      let h2 = word-lt bytes 32 2 h (omega arith) in
      let h3 = word-lt bytes 32 3 h (omega arith) in
      rw
        (
          four_words,
          joined 12 (shr (w 0) 52) (w 1) (w 1 % 2 ^ 52) (omega arith) (omega arith),
          joined 24 (shr (w 1) 40) (w 2) (w 2 % 2 ^ 40) (omega arith) (omega arith),
          joined 36 (shr (w 2) 28) (w 3) (w 3 % 2 ^ 28) (omega arith) (omega arith),
          bit_and-low_mask 48 (shr (w 3) 16),
        )
        (omega (arith, low_52_lem))
