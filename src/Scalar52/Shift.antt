-- ===== src/Scalar52/Shift.antt =====
-- About `shr1_assign` of curve25519/solana-ed25519/src/backend/serial/u64/scalar.rs.
use ed25519_verificationtest.Common.{
  ℕ, ◌+◌, ◌*◌, ◌/◌, ◌^◌, ◌%◌, ◌<◌, ◌≡◌, arith, shr, shl64, bit_or_disjoint,
}
use ed25519_verificationtest.Common.{bit_and-low_mask, bit_or, bit_and}
use ed25519_verificationtest.Scalar52.{Scalar52, value, IsNormal, shr1_assign}
use ed25519_verificationtest.Common.{◌∙◌}

shifted_limb :
    (high low : ℕ)
    → low < 2 ^ 52
    → bit_or (shr low 1) (shl64 (bit_and high 1) 51) ≡ low / 2 + high % 2 * 2 ^ 51
shifted_limb high low h =
    let bit : bit_and high 1 ≡ high % 2 = bit_and-low_mask 1 high in
    let whole : shl64 (high % 2) 51 ≡ high % 2 * 2 ^ 51 = omega arith in
    rw (bit, whole) (bit_or_disjoint 51 (shr low 1) (high % 2) (omega arith))

top_limb : (low : ℕ) → low < 2 ^ 52 → bit_or (shr low 1) (shl64 0 51) ≡ low / 2
top_limb low h = bit_or_disjoint 51 (shr low 1) 0 (omega arith) ∙ omega arith

-- On limbs below 2^52, twice the shifted number plus the bit that `shr1_assign` returns is the
-- number; the limbs stay below 2^52 and the bit is 0 or 1.
pub shr1_assign-value :
    (a : Scalar52)
    → IsNormal a
    → (value (shr1_assign a).0 * 2 + (shr1_assign a).1 ≡ value a)
      × IsNormal (shr1_assign a).0
      × ((shr1_assign a).1 < 2)
unfolding shr1_assign
shr1_assign-value a h =
    rw
      (
        top_limb a.l4 h.b4,
        shifted_limb a.l4 a.l3 h.b3,
        shifted_limb a.l3 a.l2 h.b2,
        shifted_limb a.l2 a.l1 h.b1,
        shifted_limb a.l1 a.l0 h.b0,
        bit_and-low_mask 1 a.l0,
      )
      (omega arith)
