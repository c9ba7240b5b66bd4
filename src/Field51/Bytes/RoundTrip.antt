-- ===== src/Field51/Bytes/RoundTrip.antt =====
-- About `from_bytes` and `to_bytes` of curve25519/solana-ed25519/src/backend/serial/u64/field.rs,
-- one after the other.
use ed25519_verificationtest.Common.{ℕ, ◌%◌, ◌^◌, ◌<◌, ◌≡◌, arith, ◌∙◌, List}
use ed25519_verificationtest.Common.{le_value, IsBytes, le_value-injective}
use ed25519_verificationtest.Field51.{FieldElement51, value, p, IsBelow}
use ed25519_verificationtest.Field51.Bytes.{from_bytes, to_bytes}
use ed25519_verificationtest.Field51.Bytes.Decode.{from_bytes-value, from_bytes-IsBelow}
use ed25519_verificationtest.Field51.Bytes.Encode.{to_bytes-value}

-- For an element with any 64-bit limbs, decoding its encoding gives an element whose value is the
-- remainder of the value by 2^255 - 19.
pub from_bytes-to_bytes :
    (a : FieldElement51) → IsBelow (2 ^ 64) a → value (from_bytes (to_bytes a)) ≡ value a % p
from_bytes-to_bytes a h =
    let (exact, bytes) = to_bytes-value a h in from_bytes-value (to_bytes a) bytes ∙ omega arith

-- For 32 bytes that stand for a number below 2^255 - 19, encoding the decoded element gives the
-- bytes back.
pub to_bytes-from_bytes :
    (bytes : List ℕ) → IsBytes 32 bytes → le_value bytes < p → to_bytes (from_bytes bytes) ≡ bytes
to_bytes-from_bytes bytes h canonical =
    let a = from_bytes bytes in
    let limbs = from_bytes-IsBelow bytes h in
    let (exact, out_bytes) = to_bytes-value a (omega arith) in
    le_value-injective 32 (to_bytes a) bytes out_bytes h (omega (arith, from_bytes-value bytes h))
