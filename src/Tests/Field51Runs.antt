-- ===== src/Tests/Field51Runs.antt =====
-- curve25519/solana-ed25519/src/backend/serial/u64/field.rs at concrete elements.
use ed25519_verificationtest.Common.{
  ℕ, ◌+◌, ◌-◌, ◌*◌, ◌^◌, ◌%◌, ◌≡◌, refl, arith, List, [], ◌∷◌, plain_subtle,
}
use ed25519_verificationtest.Common.{Congr, le_value, IsBytes, All-IsBytes}
use ed25519_verificationtest.Field51.{
  FieldElement51, value, p, IsBelow, field_one, minus_one, sub, mul, pow2k,
}
use ed25519_verificationtest.Field51.Reduce
use ed25519_verificationtest.Field51.Multiply
use ed25519_verificationtest.Field51.Square
use ed25519_verificationtest.Field51.Bytes.{from_bytes, to_bytes}
use ed25519_verificationtest.Field51.Bytes.Decode
use ed25519_verificationtest.Field51.Bytes.Encode
use ed25519_verificationtest.Field51.Bytes.RoundTrip

-- Limbs just below 2^54.
abbrev pub full : FieldElement51
full = record {
  l0 = 2 ^ 54 - 1;
  l1 = 2 ^ 54 - 1;
  l2 = 2 ^ 54 - 1;
  l3 = 2 ^ 54 - 1;
  l4 = 2 ^ 54 - 1;
}

-- Limbs of 64 bits.
abbrev pub overfull : FieldElement51
overfull = record {
  l0 = 2 ^ 64 - 1;
  l1 = 2 ^ 64 - 1;
  l2 = 2 ^ 64 - 1;
  l3 = 2 ^ 64 - 1;
  l4 = 2 ^ 64 - 1;
}

-- The test vector `A_BYTES` of field.rs.
abbrev pub a_bytes : List ℕ
a_bytes =
    0x04 ∷ 0xfe ∷ 0xdf ∷ 0x98 ∷ 0xa7 ∷ 0xfa ∷ 0x0a ∷ 0x68 ∷ 0x84 ∷ 0x92 ∷ 0xbd ∷ 0x59 ∷ 0x08 ∷ 0x07
    ∷ 0xa7 ∷ 0x03 ∷ 0x9e ∷ 0xd1 ∷ 0xf6 ∷ 0xf2 ∷ 0xe1 ∷ 0xd9 ∷ 0xe2 ∷ 0xa4 ∷ 0xa4 ∷ 0x51 ∷ 0x47
    ∷ 0x36 ∷ 0xf3 ∷ 0xc3 ∷ 0xa9 ∷ 0x17 ∷ []

abbrev pub a_bytes-IsBytes : IsBytes 32 a_bytes
a_bytes-IsBytes = All-IsBytes 32 a_bytes refl (omega arith)

full-IsBelow : IsBelow (2 ^ 54) full
full-IsBelow = omega arith

sub-value_example :
    Congr p (value (sub field_one full) + value full) (value field_one)
    × IsBelow (2 ^ 52) (sub field_one full)
sub-value_example = Reduce.sub-value field_one full (omega arith) full-IsBelow

mul-value_example :
    Congr p (value (mul full minus_one)) (value full * value minus_one)
    × IsBelow (2 ^ 52) (mul full minus_one)
mul-value_example = Multiply.mul-value full minus_one full-IsBelow (omega arith)

pow2k-value_example :
    Congr p (value (pow2k full 3)) (value full ^ (2 ^ 3)) × IsBelow (2 ^ 52) (pow2k full 3)
pow2k-value_example = Square.pow2k-value full 3 full-IsBelow (omega arith)

from_bytes-value_example : value (from_bytes a_bytes) ≡ le_value a_bytes % 2 ^ 255
from_bytes-value_example = Decode.from_bytes-value a_bytes a_bytes-IsBytes

to_bytes-value_example :
    (le_value (to_bytes overfull) ≡ value overfull % p) × IsBytes 32 (to_bytes overfull)
to_bytes-value_example = Encode.to_bytes-value overfull (omega arith)

from_bytes-to_bytes_example : value (from_bytes (to_bytes overfull)) ≡ value overfull % p
from_bytes-to_bytes_example = RoundTrip.from_bytes-to_bytes overfull (omega arith)

to_bytes-from_bytes_example : to_bytes (from_bytes a_bytes) ≡ a_bytes
to_bytes-from_bytes_example = RoundTrip.to_bytes-from_bytes a_bytes a_bytes-IsBytes (omega arith)
