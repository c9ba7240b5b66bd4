-- ===== src/Heea/Magnitude.antt =====
-- About `add_limbs`, `sub_limbs` and `cmp_magnitude` of
-- curve25519/solana-ed25519/src/scalar/heea.rs.
use Prim.Native.Nat.{compare}
use ed25519_verificationtest.Common.{ℕ, ◌+◌, ◌*◌, ◌^◌, ◌<◌, ◌≡◌, arith, Bool, true, false}
use ed25519_verificationtest.Heea.{
  Limbs, overflowing_add, overflowing_sub, as_u64, add_limb, add_limbs, sub_limb, sub_limbs,
  cmp_magnitude,
}

-- The number that limbs stand for.
abbrev pub magnitude : Limbs → ℕ
magnitude l = l.l0 + 2 ^ 64 * l.l1 + 2 ^ 128 * l.l2 + 2 ^ 192 * l.l3

-- Limbs that are values of a `u64`.
pub record IsWords (l : Limbs) : Type 0 where
  pub word0 : l.l0 < 2 ^ 64
  pub word1 : l.l1 < 2 ^ 64
  pub word2 : l.l2 < 2 ^ 64
  pub word3 : l.l3 < 2 ^ 64

pub magnitude-lt : (l : Limbs) → IsWords l → magnitude l < 2 ^ 256
magnitude-lt l h = omega (arith, h.word0, h.word1, h.word2, h.word3)

overflowing_add-sum :
    (a b : ℕ)
    → a < 2 ^ 64
    → b < 2 ^ 64
    → ((overflowing_add a b).0 + 2 ^ 64 * as_u64 (overflowing_add a b).1 ≡ a + b)
      × ((overflowing_add a b).0 < 2 ^ 64)
unfolding overflowing_add
overflowing_add-sum a b ha hb = ground arith

overflowing_sub-difference :
    (a b : ℕ)
    → a < 2 ^ 64
    → b < 2 ^ 64
    → ((overflowing_sub a b).0 + b ≡ a + 2 ^ 64 * as_u64 (overflowing_sub a b).1)
      × ((overflowing_sub a b).0 < 2 ^ 64)
unfolding overflowing_sub
overflowing_sub-difference a b ha hb = ground arith

add_limb-sum :
    (a b : ℕ) (c : Bool)
    → a < 2 ^ 64
    → b < 2 ^ 64
    → ((add_limb a b c).0 + 2 ^ 64 * as_u64 (add_limb a b c).1 ≡ a + b + as_u64 c)
      × ((add_limb a b c).0 < 2 ^ 64)
unfolding add_limb overflowing_add
add_limb-sum a b true ha hb = ground arith
add_limb-sum a b false ha hb = ground arith

sub_limb-difference :
    (a b : ℕ) (c : Bool)
    → a < 2 ^ 64
    → b < 2 ^ 64
    → ((sub_limb a b c).0 + b + as_u64 c ≡ a + 2 ^ 64 * as_u64 (sub_limb a b c).1)
      × ((sub_limb a b c).0 < 2 ^ 64)
unfolding sub_limb overflowing_sub
sub_limb-difference a b true ha hb = ground arith
sub_limb-difference a b false ha hb = ground arith

-- On 64-bit limbs `add_limbs` gives 64-bit limbs, and with 2^256 for the overflow flag their number
-- is the sum of the two numbers.
pub add_limbs-magnitude :
    (a b : Limbs)
    → IsWords a
    → IsWords b
    → (magnitude (add_limbs a b).0 + 2 ^ 256 * as_u64 (add_limbs a b).1 ≡ magnitude a + magnitude b)
      × IsWords (add_limbs a b).0
unfolding add_limbs
add_limbs-magnitude a b ha hb =
    let r0 = overflowing_add a.l0 b.l0 in
    let r1 = add_limb a.l1 b.l1 r0.1 in
    let r2 = add_limb a.l2 b.l2 r1.1 in
    let (e0, w0) = overflowing_add-sum a.l0 b.l0 ha.word0 hb.word0 in
    let (e1, w1) = add_limb-sum a.l1 b.l1 r0.1 ha.word1 hb.word1 in
    let (e2, w2) = add_limb-sum a.l2 b.l2 r1.1 ha.word2 hb.word2 in
    let (e3, w3) = add_limb-sum a.l3 b.l3 r2.1 ha.word3 hb.word3 in
    (omega (arith, e0, e1, e2, e3), record { word0 = w0; word1 = w1; word2 = w2; word3 = w3 })

pub sub_limbs-magnitude :
    (a b : Limbs)
    → IsWords a
    → IsWords b
    → (magnitude (sub_limbs a b).0 + magnitude b ≡ magnitude a + 2 ^ 256 * as_u64 (sub_limbs a b).1)
      × IsWords (sub_limbs a b).0
unfolding sub_limbs
sub_limbs-magnitude a b ha hb =
    let r0 = overflowing_sub a.l0 b.l0 in
    let r1 = sub_limb a.l1 b.l1 r0.1 in
    let r2 = sub_limb a.l2 b.l2 r1.1 in
    let (e0, w0) = overflowing_sub-difference a.l0 b.l0 ha.word0 hb.word0 in
    let (e1, w1) = sub_limb-difference a.l1 b.l1 r0.1 ha.word1 hb.word1 in
    let (e2, w2) = sub_limb-difference a.l2 b.l2 r1.1 ha.word2 hb.word2 in
    let (e3, w3) = sub_limb-difference a.l3 b.l3 r2.1 ha.word3 hb.word3 in
    (omega (arith, e0, e1, e2, e3), record { word0 = w0; word1 = w1; word2 = w2; word3 = w3 })

-- On 64-bit limbs `cmp_magnitude` answers as the comparison of the two numbers does.
pub cmp_magnitude-compare :
    (a b : Limbs) → IsWords a → IsWords b → cmp_magnitude a b ≡ compare (magnitude a) (magnitude b)
unfolding cmp_magnitude
cmp_magnitude-compare a b ha hb =
    ground (arith, ha.word0, ha.word1, ha.word2, hb.word0, hb.word1, hb.word2)
