-- ===== src/Field51/Reduce.antt =====
-- About `reduce`, `add`, `sub` and `negate` of
-- curve25519/solana-ed25519/src/backend/serial/u64/field.rs.
use ed25519_verificationtest.Common.{ℕ, ◌+◌, ◌*◌, ◌%◌, ◌^◌, ◌≤◌, ◌≡◌, arith}
use ed25519_verificationtest.Common.{shr, Congr, Congr-intro, bit_and-low_mask}
use ed25519_verificationtest.Field51.{FieldElement51, value, field_zero, p, IsBelow, low_51, reduce}
use ed25519_verificationtest.Field51.{add, sub, negate}

pub low_51_lem : (x : ℕ) → low_51 x ≡ x % 2 ^ 51
unfolding low_51
low_51_lem x = bit_and-low_mask 51 x

-- On any 64-bit limbs `reduce` takes 2^255 - 19 off the value as often as the number of the bits of
-- limb 4 above the 51st says, and leaves limbs below 2^51 + 19 * 2^13.
pub reduce-value :
    (a : FieldElement51)
    → IsBelow (2 ^ 64) a
    → (value (reduce a) + p * shr a.l4 51 ≡ value a) × IsBelow (2 ^ 51 + 19 * 2 ^ 13) (reduce a)
unfolding reduce
reduce-value a h = omega (arith, low_51_lem)

-- With no wrap the sum of the limbs stands for the sum of the values, and a bound adds up.
pub add-value :
    (j k : ℕ) (a b : FieldElement51)
    → IsBelow j a
    → IsBelow k b
    → j + k ≤ 2 ^ 64
    → (value (add a b) ≡ value a + value b) × IsBelow (j + k) (add a b)
unfolding add
add-value j k a b ha hb fits = omega arith

-- What `sub` and `negate` hand to `reduce`: `16 p` is added limb by limb, so that nothing wraps.
module _ (a b s : FieldElement51) (s_range : IsBelow (2 ^ 64) s) where
  reduce-sub :
      value s + value b ≡ value a + 16 * p
      → Congr p (value (reduce s) + value b) (value a) × IsBelow (2 ^ 52) (reduce s)
  reduce-sub e =
      let h = reduce-value s s_range in
      (
        Congr-intro p (value (reduce s) + value b) (value a) (shr s.l4 51) 16 (omega arith),
        omega arith,
      )

-- For limbs of `a` below 2^63 and limbs of `b` below 2^54, the value of `sub a b` plus that of `b`
-- is congruent to that of `a` modulo 2^255 - 19, and its limbs are below 2^52.
pub sub-value :
    (a b : FieldElement51)
    → IsBelow (2 ^ 63) a
    → IsBelow (2 ^ 54) b
    → Congr p (value (sub a b) + value b) (value a) × IsBelow (2 ^ 52) (sub a b)
unfolding sub
sub-value a b ha hb = reduce-sub a b _ (omega arith) (omega arith)

-- On limbs below 2^54 the value of `negate a` plus that of `a` is congruent to 0 modulo 2^255 - 19,
-- and its limbs are below 2^52.
pub negate-value :
    (a : FieldElement51)
    → IsBelow (2 ^ 54) a
    → Congr p (value (negate a) + value a) 0 × IsBelow (2 ^ 52) (negate a)
unfolding negate
negate-value a h = reduce-sub field_zero a _ (omega arith) (omega arith)
