-- ===== src/Scalar52/Bytes.antt =====
-- `from_bytes`, `from_bytes_wide` and `to_bytes` of
-- curve25519/solana-ed25519/src/backend/serial/u64/scalar.rs.
pub mod Encode
pub mod Decode
pub mod Wide
use ed25519_verificationtest.Common.{
  ℕ, zero, suc, ◌+◌, ◌*◌, List, [], ◌∷◌, bit_and, bit_or, u8, shr, shl64,
}
use ed25519_verificationtest.Common.{byte, low_mask, Subtle}
use ed25519_verificationtest.Scalar52.{Scalar52, low_52, r, rr, add, montgomery_mul}

-- `words[i] |= (bytes[(i * 8) + j] as u64) << (j * 8)`, for the `left` values of `j` that remain.
pub word_loop : List ℕ → ℕ → ℕ → ℕ → ℕ → ℕ
word_loop bytes i zero j word = word
word_loop bytes i (suc left) j word =
    word_loop bytes i left (j + 1) (bit_or word (shl64 (byte bytes (i * 8 + j)) (j * 8)))

pub word : List ℕ → ℕ → ℕ
word bytes i = word_loop bytes i 8 0 0

pub from_bytes : List ℕ → Scalar52
from_bytes bytes =
    let w0 = word bytes 0 in
    let w1 = word bytes 1 in
    let w2 = word bytes 2 in
    let w3 = word bytes 3 in
    record {
      l0 = low_52 w0;
      l1 = low_52 (bit_or (shr w0 52) (shl64 w1 12));
      l2 = low_52 (bit_or (shr w1 40) (shl64 w2 24));
      l3 = low_52 (bit_or (shr w2 28) (shl64 w3 36));
      l4 = bit_and (shr w3 16) (low_mask 48);
    }

-- The low 260 bits and the high 252 bits of 64 bytes.
pub wide_low : List ℕ → Scalar52
wide_low bytes =
    let w0 = word bytes 0 in
    let w1 = word bytes 1 in
    let w2 = word bytes 2 in
    let w3 = word bytes 3 in
    let w4 = word bytes 4 in
    record {
      l0 = low_52 w0;
      l1 = low_52 (bit_or (shr w0 52) (shl64 w1 12));
      l2 = low_52 (bit_or (shr w1 40) (shl64 w2 24));
      l3 = low_52 (bit_or (shr w2 28) (shl64 w3 36));
      l4 = low_52 (bit_or (shr w3 16) (shl64 w4 48));
    }

pub wide_high : List ℕ → Scalar52
wide_high bytes =
    let w4 = word bytes 4 in
    let w5 = word bytes 5 in
    let w6 = word bytes 6 in
    let w7 = word bytes 7 in
    record {
      l0 = low_52 (shr w4 4);
      l1 = low_52 (bit_or (shr w4 56) (shl64 w5 8));
      l2 = low_52 (bit_or (shr w5 44) (shl64 w6 20));
      l3 = low_52 (bit_or (shr w6 32) (shl64 w7 32));
      l4 = shr w7 20;
    }

pub to_bytes : Scalar52 → List ℕ
to_bytes a =
    u8 (shr a.l0 0)
    ∷ u8 (shr a.l0 8)
    ∷ u8 (shr a.l0 16)
    ∷ u8 (shr a.l0 24)
    ∷ u8 (shr a.l0 32)
    ∷ u8 (shr a.l0 40)
    ∷ u8 (bit_or (shr a.l0 48) (shl64 a.l1 4))
    ∷ u8 (shr a.l1 4)
    ∷ u8 (shr a.l1 12)
    ∷ u8 (shr a.l1 20)
    ∷ u8 (shr a.l1 28)
    ∷ u8 (shr a.l1 36)
    ∷ u8 (shr a.l1 44)
    ∷ u8 (shr a.l2 0)
    ∷ u8 (shr a.l2 8)
    ∷ u8 (shr a.l2 16)
    ∷ u8 (shr a.l2 24)
    ∷ u8 (shr a.l2 32)
    ∷ u8 (shr a.l2 40)
    ∷ u8 (bit_or (shr a.l2 48) (shl64 a.l3 4))
    ∷ u8 (shr a.l3 4)
    ∷ u8 (shr a.l3 12)
    ∷ u8 (shr a.l3 20)
    ∷ u8 (shr a.l3 28)
    ∷ u8 (shr a.l3 36)
    ∷ u8 (shr a.l3 44)
    ∷ u8 (shr a.l4 0)
    ∷ u8 (shr a.l4 8)
    ∷ u8 (shr a.l4 16)
    ∷ u8 (shr a.l4 24)
    ∷ u8 (shr a.l4 32)
    ∷ u8 (shr a.l4 40)
    ∷ []

module _ ⦃s : Subtle⦄ where
  pub from_bytes_wide : List ℕ → Scalar52
  from_bytes_wide bytes =
      add (montgomery_mul (wide_high bytes) rr) (montgomery_mul (wide_low bytes) r)
