-- ===== src/Field51/Bytes.antt =====
-- `from_bytes` and `to_bytes` of curve25519/solana-ed25519/src/backend/serial/u64/field.rs.
pub mod Decode
pub mod Encode
pub mod RoundTrip
use ed25519_verificationtest.Common.{
  ℕ, ◌+◌, ◌*◌, List, [], ◌∷◌, bit_or, u8, add64, mul64, shr, shl64,
}
use ed25519_verificationtest.Common.{load8_at}
use ed25519_verificationtest.Field51.{FieldElement51, low_51, reduce}

-- The low 255 bits of a 256-bit input: each load is shifted to the start of its limb.
unfoldable pub from_bytes : List ℕ → FieldElement51
from_bytes bytes = record {
  l0 = low_51 (load8_at bytes 0);
  l1 = low_51 (shr (load8_at bytes 6) 3);
  l2 = low_51 (shr (load8_at bytes 12) 6);
  l3 = low_51 (shr (load8_at bytes 19) 1);
  l4 = low_51 (shr (load8_at bytes 24) 12);
}

-- The carry of `h + 19` out of the weakly reduced limbs.
unfoldable pub quotient : FieldElement51 → ℕ
quotient limbs =
    let q0 = shr (add64 limbs.l0 19) 51 in
    let q1 = shr (add64 limbs.l1 q0) 51 in
    let q2 = shr (add64 limbs.l2 q1) 51 in
    let q3 = shr (add64 limbs.l3 q2) 51 in shr (add64 limbs.l4 q3) 51

-- Adds `19 q`, carries, and drops the bit of weight 2^255.
unfoldable pub canonical_limbs : FieldElement51 → ℕ → FieldElement51
canonical_limbs limbs q =
    let t0 = add64 limbs.l0 (mul64 19 q) in
    let t1 = add64 limbs.l1 (shr t0 51) in
    let t2 = add64 limbs.l2 (shr t1 51) in
    let t3 = add64 limbs.l3 (shr t2 51) in
    let t4 = add64 limbs.l4 (shr t3 51) in
    record { l0 = low_51 t0; l1 = low_51 t1; l2 = low_51 t2; l3 = low_51 t3; l4 = low_51 t4 }

-- The bits of the limbs as 32 bytes.
unfoldable pub pack_limbs : FieldElement51 → List ℕ
pack_limbs limbs =
    u8 limbs.l0
    ∷ u8 (shr limbs.l0 8)
    ∷ u8 (shr limbs.l0 16)
    ∷ u8 (shr limbs.l0 24)
    ∷ u8 (shr limbs.l0 32)
    ∷ u8 (shr limbs.l0 40)
    ∷ u8 (bit_or (shr limbs.l0 48) (shl64 limbs.l1 3))
    ∷ u8 (shr limbs.l1 5)
    ∷ u8 (shr limbs.l1 13)
    ∷ u8 (shr limbs.l1 21)
    ∷ u8 (shr limbs.l1 29)
    ∷ u8 (shr limbs.l1 37)
    ∷ u8 (bit_or (shr limbs.l1 45) (shl64 limbs.l2 6))
    ∷ u8 (shr limbs.l2 2)
    ∷ u8 (shr limbs.l2 10)
    ∷ u8 (shr limbs.l2 18)
    ∷ u8 (shr limbs.l2 26)
    ∷ u8 (shr limbs.l2 34)
    ∷ u8 (shr limbs.l2 42)
    ∷ u8 (bit_or (shr limbs.l2 50) (shl64 limbs.l3 1))
    ∷ u8 (shr limbs.l3 7)
    ∷ u8 (shr limbs.l3 15)
    ∷ u8 (shr limbs.l3 23)
    ∷ u8 (shr limbs.l3 31)
    ∷ u8 (shr limbs.l3 39)
    ∷ u8 (bit_or (shr limbs.l3 47) (shl64 limbs.l4 4))
    ∷ u8 (shr limbs.l4 4)
    ∷ u8 (shr limbs.l4 12)
    ∷ u8 (shr limbs.l4 20)
    ∷ u8 (shr limbs.l4 28)
    ∷ u8 (shr limbs.l4 36)
    ∷ u8 (shr limbs.l4 44)
    ∷ []

unfoldable pub to_bytes : FieldElement51 → List ℕ
to_bytes a = let limbs = reduce a in pack_limbs (canonical_limbs limbs (quotient limbs))
