-- ===== src/Heea.antt =====
-- curve25519/solana-ed25519/src/scalar/heea.rs: 256-bit numbers with a sign.
pub mod Magnitude
pub mod Shift
pub mod BitLength
pub mod Signed
pub mod Vartime
pub mod Cofactors
pub mod Turn
pub mod Combine
pub mod Invariant
pub mod Loop
pub mod Bytes
pub mod Decompose
use Prim.Native.Nat.{compare, Ordering}
use ed25519_verificationtest.Common.{
  ℕ, zero, suc, ◌+◌, ◌-◌, ◌*◌, ◌/◌, ◌%◌, ◌^◌, ◌<◌, Bool, true, false, ◌&&◌, ◌||◌, not,
}
use ed25519_verificationtest.Common.{
  List, [], ◌∷◌, ◌++◌, drop, take, le_value, if◌then◌else◌, ltb, leb, ◌==◌, u8, shr, shl64, bit_or,
  bit_and,
}
use ed25519_verificationtest.Common.{add64, sub64}

-- `[u64; 4]`, the lowest limb first.
pub record Limbs : Type 0 where
  pub l0 : ℕ
  pub l1 : ℕ
  pub l2 : ℕ
  pub l3 : ℕ

-- `struct I256 { limbs: [u64; 4], negative: bool }`
pub record I256 : Type 0 where
  pub limbs : Limbs
  pub negative : Bool

abbrev pub zero_limbs : Limbs
zero_limbs = record { l0 = 0; l1 = 0; l2 = 0; l3 = 0 }

abbrev pub i256_zero : I256
i256_zero = record { limbs = zero_limbs; negative = false }

abbrev pub i256_one : I256
i256_one = record { limbs = record { l0 = 1; l1 = 0; l2 = 0; l3 = 0 }; negative = false }

-- `a.overflowing_add(b)` and `a.overflowing_sub(b)` on a `u64`.
unfoldable pub overflowing_add : ℕ → ℕ → ℕ × Bool
overflowing_add a b = (add64 a b, leb (2 ^ 64) (a + b))

unfoldable pub overflowing_sub : ℕ → ℕ → ℕ × Bool
overflowing_sub a b = (sub64 a b, ltb a b)

-- `c as u64`
abbrev pub as_u64 : Bool → ℕ
as_u64 c = if c then 1 else 0

-- One limb of `add_limbs` above the lowest, with the carry of the limb below.
unfoldable pub add_limb : ℕ → ℕ → Bool → ℕ × Bool
add_limb a b c =
    let base = overflowing_add a b in
    let sum = overflowing_add base.0 (as_u64 c) in (sum.0, base.1 || sum.1)

unfoldable pub add_limbs : Limbs → Limbs → Limbs × Bool
add_limbs a b =
    let r0 = overflowing_add a.l0 b.l0 in
    let r1 = add_limb a.l1 b.l1 r0.1 in
    let r2 = add_limb a.l2 b.l2 r1.1 in
    let r3 = add_limb a.l3 b.l3 r2.1 in
    (record { l0 = r0.0; l1 = r1.0; l2 = r2.0; l3 = r3.0 }, r3.1)

-- One limb of `sub_limbs` above the lowest, with the borrow of the limb below.
unfoldable pub sub_limb : ℕ → ℕ → Bool → ℕ × Bool
sub_limb a b c =
    let base = overflowing_sub a b in
    let difference = overflowing_sub base.0 (as_u64 c) in (difference.0, base.1 || difference.1)

unfoldable pub sub_limbs : Limbs → Limbs → Limbs × Bool
sub_limbs a b =
    let r0 = overflowing_sub a.l0 b.l0 in
    let r1 = sub_limb a.l1 b.l1 r0.1 in
    let r2 = sub_limb a.l2 b.l2 r1.1 in
    let r3 = sub_limb a.l3 b.l3 r2.1 in
    (record { l0 = r0.0; l1 = r1.0; l2 = r2.0; l3 = r3.0 }, r3.1)

-- The first limbs that differ, from the top one down, decide.
unfoldable pub cmp_magnitude : Limbs → Limbs → Ordering
cmp_magnitude a b = elim (compare a.l3 b.l3) [
  | Ordering.eq ↦ elim (compare a.l2 b.l2) [
    | Ordering.eq ↦ elim (compare a.l1 b.l1) [ Ordering.eq ↦ compare a.l0 b.l0 | other ↦ other ]
    | other ↦ other
  ]
  | other ↦ other
]

unfoldable pub is_zero : I256 → Bool
is_zero v = v.limbs.l0 == 0 && (v.limbs.l1 == 0 && (v.limbs.l2 == 0 && v.limbs.l3 == 0))

unfoldable pub is_negative : I256 → Bool
is_negative v = v.negative && not (is_zero v)

unfoldable pub wrapping_neg : I256 → I256
wrapping_neg v =
    if is_zero v then i256_zero else record { limbs = v.limbs; negative = not v.negative }

-- Magnitudes of different signs: the smaller one is taken off the larger one, whose sign stays.
unfoldable pub add_opposite : Ordering → I256 → I256 → I256
add_opposite Ordering.gt a b = record {
  limbs = (sub_limbs a.limbs b.limbs).0;
  negative = a.negative;
}
add_opposite Ordering.lt a b = record {
  limbs = (sub_limbs b.limbs a.limbs).0;
  negative = b.negative;
}
add_opposite Ordering.eq a b = i256_zero

-- `==` on `bool`
abbrev pub same_sign : Bool → Bool → Bool
same_sign true b = b
same_sign false b = not b

unfoldable pub wrapping_add : I256 → I256 → I256
wrapping_add a b =
    if same_sign a.negative b.negative
    then record { limbs = (add_limbs a.limbs b.limbs).0; negative = a.negative }
    else add_opposite (cmp_magnitude a.limbs b.limbs) a b

unfoldable pub wrapping_sub : I256 → I256 → I256
wrapping_sub a b = wrapping_add a (wrapping_neg b)

-- The limbs of `wrapping_shl` where the shift is a whole number of limbs.
unfoldable pub shl_limbs : ℕ → Limbs → Limbs
shl_limbs zero l = l
shl_limbs (suc zero) l = record { l0 = 0; l1 = l.l0; l2 = l.l1; l3 = l.l2 }
shl_limbs (suc (suc zero)) l = record { l0 = 0; l1 = 0; l2 = l.l0; l3 = l.l1 }
shl_limbs (suc (suc (suc zero))) l = record { l0 = 0; l1 = 0; l2 = 0; l3 = l.l0 }
shl_limbs _ l = zero_limbs

-- `(high << bit_shift) | (low >> carry)`
unfoldable pub funnel : ℕ → ℕ → ℕ → ℕ
funnel bit_shift high low = bit_or (shl64 high bit_shift) (shr low (64 - bit_shift))

-- The limbs of `wrapping_shl` where it is not.
unfoldable pub shl_bits : ℕ → ℕ → Limbs → Limbs
shl_bits zero k l = record {
  l0 = shl64 l.l0 k;
  l1 = funnel k l.l1 l.l0;
  l2 = funnel k l.l2 l.l1;
  l3 = funnel k l.l3 l.l2;
}
shl_bits (suc zero) k l = record {
  l0 = 0;
  l1 = shl64 l.l0 k;
  l2 = funnel k l.l1 l.l0;
  l3 = funnel k l.l2 l.l1;
}
shl_bits (suc (suc zero)) k l = record {
  l0 = 0;
  l1 = 0;
  l2 = shl64 l.l0 k;
  l3 = funnel k l.l1 l.l0;
}
shl_bits (suc (suc (suc zero))) k l = record { l0 = 0; l1 = 0; l2 = 0; l3 = shl64 l.l0 k }
shl_bits _ k l = zero_limbs

unfoldable pub wrapping_shl : I256 → ℕ → I256
wrapping_shl v shift =
    let limb_shift = shift / 64 in
    let bit_shift = bit_and shift 63 in
    if shift == 0
    then v
    else if leb 256 shift
    then i256_zero
    else if bit_shift == 0
    then record { limbs = shl_limbs limb_shift v.limbs; negative = v.negative }
    else record { limbs = shl_bits limb_shift bit_shift v.limbs; negative = v.negative }

-- The number of the binary digits of a number below 2 ^ n.
abbrev pub binary_digits : ℕ → ℕ → ℕ
binary_digits zero x = 0
binary_digits (suc n) zero = 0
binary_digits (suc n) (suc x) = suc (binary_digits n (suc x / 2))

-- `x.leading_zeros()` on a `u64`.
abbrev pub leading_zeros : ℕ → ℕ
leading_zeros x = 64 - binary_digits 64 x

unfoldable pub bit_length_i256 : I256 → ℕ
bit_length_i256 v =
    if not (v.limbs.l3 == 0)
    then 3 * 64 + (64 - leading_zeros v.limbs.l3)
    else if not (v.limbs.l2 == 0)
    then 2 * 64 + (64 - leading_zeros v.limbs.l2)
    else if not (v.limbs.l1 == 0)
    then 1 * 64 + (64 - leading_zeros v.limbs.l1)
    else if not (v.limbs.l0 == 0)
    then 0 * 64 + (64 - leading_zeros v.limbs.l0)
    else 0

-- `Ord::cmp`
unfoldable pub cmp : I256 → I256 → Ordering
cmp a b =
    if a.negative
    then (if b.negative then cmp_magnitude b.limbs a.limbs else Ordering.lt)
    else (if b.negative then Ordering.gt else cmp_magnitude a.limbs b.limbs)
