-- ===== src/Scalar/Clamp.antt =====
-- About `clamp_integer` and `from_bits` of curve25519/solana-ed25519/src/scalar.rs.
use ed25519_verificationtest.Common.{ℕ, ◌+◌, ◌*◌, ◌/◌, ◌^◌, ◌%◌, ◌<◌, ◌≡◌, refl, arith, List, subst}
use ed25519_verificationtest.Common.{
  le_value, IsBytes, All-IsBytes, byte, tabulate, tabulate-byte, bit_and-low_mask,
}
use ed25519_verificationtest.Common.{clear_low_three, set_bit_six}
use ed25519_verificationtest.Scalar.{clamp_integer, from_bits}
use ed25519_verificationtest.Common.{le_value-injective}

module _ (f : ℕ → ℕ) (h : (i : ℕ) → i < 32 → f i < 256) where
  abbrev bytes : List ℕ
  bytes = tabulate 32 0 f

  clamp_tabulated :
      (le_value (clamp_integer bytes) ≡ 2 ^ 254 + le_value bytes % 2 ^ 254 / 8 * 8)
      × IsBytes 32 (clamp_integer bytes)
  unfolding clamp_integer
  clamp_tabulated =
      rw
        (
          clear_low_three (f 0) (h 0 (omega arith)),
          bit_and-low_mask 7 (f 31),
          set_bit_six (f 31 % 2 ^ 7) (omega arith),
        )
        (omega (arith, h), All-IsBytes 32 _ refl (omega (arith, h)))

-- On 32 bytes `clamp_integer` sets bit 254, clears bit 255 and the low three bits, and keeps all
-- others; the result is 32 bytes.
pub clamp_integer-value :
    (bytes : List ℕ)
    → IsBytes 32 bytes
    → (le_value (clamp_integer bytes) ≡ 2 ^ 254 + le_value bytes % 2 ^ 254 / 8 * 8)
      × IsBytes 32 (clamp_integer bytes)
clamp_integer-value bytes h =
    subst
      (λ (xs : List ℕ).
        (le_value (clamp_integer xs) ≡ 2 ^ 254 + le_value xs % 2 ^ 254 / 8 * 8)
        × IsBytes 32 (clamp_integer xs))
      (tabulate-byte 32 bytes h.sized) (clamp_tabulated (byte bytes) h.ranged)

-- Clamping twice is clamping once.
pub clamp_integer_idempotent :
    (bytes : List ℕ) → IsBytes 32 bytes → clamp_integer (clamp_integer bytes) ≡ clamp_integer bytes
clamp_integer_idempotent bytes h =
    let (once, ho) = clamp_integer-value bytes h in
    let (twice, ht) = clamp_integer-value (clamp_integer bytes) ho in
    le_value-injective 32 _ _ ht ho (omega arith)

module _ (f : ℕ → ℕ) (h : (i : ℕ) → i < 32 → f i < 256) where
  from_bits_tabulated :
      le_value (from_bits (tabulate 32 0 f)).bytes ≡ le_value (tabulate 32 0 f) % 2 ^ 255
  unfolding from_bits
  from_bits_tabulated = rw (bit_and-low_mask 7 (f 31)) (omega (arith, h))

-- `from_bits` clears the top bit of the 32 bytes and keeps all others, with no reduction.
pub from_bits-value :
    (bytes : List ℕ)
    → IsBytes 32 bytes
    → le_value (from_bits bytes).bytes ≡ le_value bytes % 2 ^ 255
from_bits-value bytes h =
    subst (λ (xs : List ℕ). le_value (from_bits xs).bytes ≡ le_value xs % 2 ^ 255)
      (tabulate-byte 32 bytes h.sized) (from_bits_tabulated (byte bytes) h.ranged)
