-- ===== src/Field51/Bytes/Decode.antt =====
-- About `from_bytes` of curve25519/solana-ed25519/src/backend/serial/u64/field.rs.
use ed25519_verificationtest.Common.{ℕ, ◌+◌, ◌*◌, ◌/◌, ◌%◌, ◌^◌, ◌≡◌, arith, List}
use ed25519_verificationtest.Common.{byte, IsBytes, le_value, load8_at-sum, le_value-tabulate}
use ed25519_verificationtest.Field51.{value, IsBelow}
use ed25519_verificationtest.Field51.Reduce.{low_51_lem}
use ed25519_verificationtest.Field51.Bytes.{from_bytes}

module _ (bytes : List ℕ) (h : IsBytes 32 bytes) where
  abbrev b : ℕ → ℕ
  b = byte bytes

  limb_zero :
      (from_bytes bytes).l0
      ≡ b 0
        + b 1 * 2 ^ 8
        + b 2 * 2 ^ 16
        + b 3 * 2 ^ 24
        + b 4 * 2 ^ 32
        + b 5 * 2 ^ 40
        + b 6 % 8 * 2 ^ 48
  unfolding from_bytes
  limb_zero = omega (arith, low_51_lem, load8_at-sum bytes 32 0 h (omega arith), h.ranged)

  limb_one :
      (from_bytes bytes).l1
      ≡ b 6 / 8
        + b 7 * 2 ^ 5
        + b 8 * 2 ^ 13
        + b 9 * 2 ^ 21
        + b 10 * 2 ^ 29
        + b 11 * 2 ^ 37
        + b 12 % 64 * 2 ^ 45
  unfolding from_bytes
  limb_one = omega (arith, low_51_lem, load8_at-sum bytes 32 6 h (omega arith), h.ranged)

  limb_two :
      (from_bytes bytes).l2
      ≡ b 12 / 64
        + b 13 * 2 ^ 2
        + b 14 * 2 ^ 10
        + b 15 * 2 ^ 18
        + b 16 * 2 ^ 26
        + b 17 * 2 ^ 34
        + b 18 * 2 ^ 42
        + b 19 % 2 * 2 ^ 50
  unfolding from_bytes
  limb_two = omega (arith, low_51_lem, load8_at-sum bytes 32 12 h (omega arith), h.ranged)

  limb_three :
      (from_bytes bytes).l3
      ≡ b 19 / 2
        + b 20 * 2 ^ 7
        + b 21 * 2 ^ 15
        + b 22 * 2 ^ 23
        + b 23 * 2 ^ 31
        + b 24 * 2 ^ 39
        + b 25 % 16 * 2 ^ 47
  unfolding from_bytes
  limb_three = omega (arith, low_51_lem, load8_at-sum bytes 32 19 h (omega arith), h.ranged)

  limb_four :
      (from_bytes bytes).l4
      ≡ b 25 / 16
        + b 26 * 2 ^ 4
        + b 27 * 2 ^ 12
        + b 28 * 2 ^ 20
        + b 29 * 2 ^ 28
        + b 30 * 2 ^ 36
        + b 31 % 128 * 2 ^ 44
  unfolding from_bytes
  limb_four = omega (arith, low_51_lem, load8_at-sum bytes 32 24 h (omega arith), h.ranged)

  -- For 32 bytes, the value of `from_bytes` is their number with the bit of weight 2^255 left out.
  pub from_bytes-value : value (from_bytes bytes) ≡ le_value bytes % 2 ^ 255
  from_bytes-value = omega (
    arith,
    le_value-tabulate 32 bytes h.sized,
    limb_zero,
    limb_one,
    limb_two,
    limb_three,
    limb_four,
    h.ranged,
  )

  pub from_bytes-IsBelow : IsBelow (2 ^ 51) (from_bytes bytes)
  unfolding from_bytes
  from_bytes-IsBelow = omega (arith, low_51_lem)
