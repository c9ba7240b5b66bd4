-- ===== src/Field51.antt =====
-- curve25519/solana-ed25519/src/backend/serial/u64/field.rs: elements modulo 2^255 - 19 in five
-- 64-bit limbs of radix 2^51. A `debug_assert!` has no effect in a release build, and is a
-- hypothesis of the theorems; every machine operation keeps its wrap-around.
pub mod Reduce
pub mod Carry
pub mod Multiply
pub mod Square
pub mod Bytes
use ed25519_verificationtest.Common.{ℕ, zero, suc, ◌+◌, ◌-◌, ◌*◌, ◌^◌, ◌<◌, bit_and}
use ed25519_verificationtest.Common.{Bool, true, false, if◌then◌else◌, Subtle, ◌≡◌}
use ed25519_verificationtest.Common.{u64, add64, sub64, mul64, add128, mul128, shr}
use ed25519_verificationtest.Common.{low_mask}

-- `pub struct FieldElement51(pub(crate) [u64; 5])`
pub record FieldElement51 : Type 0 where
  pub l0 : ℕ
  pub l1 : ℕ
  pub l2 : ℕ
  pub l3 : ℕ
  pub l4 : ℕ

-- The number that the limbs stand for, and the modulus 2^255 - 19.
abbrev pub value : FieldElement51 → ℕ
value a = a.l0 + 2 ^ 51 * a.l1 + 2 ^ 102 * a.l2 + 2 ^ 153 * a.l3 + 2 ^ 204 * a.l4

abbrev pub p : ℕ
p = 2 ^ 255 - 19

-- Every limb is below the bound.
pub record IsBelow (bound : ℕ) (a : FieldElement51) : Type 0 where
  pub b0 : a.l0 < bound
  pub b1 : a.l1 < bound
  pub b2 : a.l2 < bound
  pub b3 : a.l3 < bound
  pub b4 : a.l4 < bound

abbrev pub field_zero : FieldElement51
field_zero = record { l0 = 0; l1 = 0; l2 = 0; l3 = 0; l4 = 0 }

abbrev pub field_one : FieldElement51
field_one = record { l0 = 1; l1 = 0; l2 = 0; l3 = 0; l4 = 0 }

abbrev pub minus_one : FieldElement51
minus_one = record {
  l0 = 2251799813685228;
  l1 = 2251799813685247;
  l2 = 2251799813685247;
  l3 = 2251799813685247;
  l4 = 2251799813685247;
}

-- `x & LOW_51_BIT_MASK`
unfoldable pub low_51 : ℕ → ℕ
low_51 x = bit_and x (low_mask 51)

-- The weak reduction: the carries are taken from the limbs as they come in.
unfoldable pub reduce : FieldElement51 → FieldElement51
reduce limbs =
    let c0 = shr limbs.l0 51 in
    let c1 = shr limbs.l1 51 in
    let c2 = shr limbs.l2 51 in
    let c3 = shr limbs.l3 51 in
    let c4 = shr limbs.l4 51 in
    record {
      l0 = add64 (low_51 limbs.l0) (mul64 c4 19);
      l1 = add64 (low_51 limbs.l1) c0;
      l2 = add64 (low_51 limbs.l2) c1;
      l3 = add64 (low_51 limbs.l3) c2;
      l4 = add64 (low_51 limbs.l4) c3;
    }

-- `add_assign`, which `add` calls on a copy: the limbs are added with no reduction.
unfoldable pub add : FieldElement51 → FieldElement51 → FieldElement51
add a b = record {
  l0 = add64 a.l0 b.l0;
  l1 = add64 a.l1 b.l1;
  l2 = add64 a.l2 b.l2;
  l3 = add64 a.l3 b.l3;
  l4 = add64 a.l4 b.l4;
}

-- `sub` adds 16 p first.
unfoldable pub sub : FieldElement51 → FieldElement51 → FieldElement51
sub a b = reduce (record {
  l0 = sub64 (add64 a.l0 36028797018963664) b.l0;
  l1 = sub64 (add64 a.l1 36028797018963952) b.l1;
  l2 = sub64 (add64 a.l2 36028797018963952) b.l2;
  l3 = sub64 (add64 a.l3 36028797018963952) b.l3;
  l4 = sub64 (add64 a.l4 36028797018963952) b.l4;
})

-- `negate`, which `neg` calls on a copy.
unfoldable pub negate : FieldElement51 → FieldElement51
negate a = reduce (record {
  l0 = sub64 36028797018963664 a.l0;
  l1 = sub64 36028797018963952 a.l1;
  l2 = sub64 36028797018963952 a.l2;
  l3 = sub64 36028797018963952 a.l3;
  l4 = sub64 36028797018963952 a.l4;
})

-- The 128-bit coefficients of a product, before the carries.
pub record Coefficients : Type 0 where
  pub c0 : ℕ
  pub c1 : ℕ
  pub c2 : ℕ
  pub c3 : ℕ
  pub c4 : ℕ

-- `m(x, y)`: a product of two `u64` as a `u128`.
abbrev pub m : ℕ → ℕ → ℕ
m x y = mul128 x y

unfoldable pub mul_coefficients : FieldElement51 → FieldElement51 → Coefficients
mul_coefficients a b =
    let b1_19 = mul64 b.l1 19 in
    let b2_19 = mul64 b.l2 19 in
    let b3_19 = mul64 b.l3 19 in
    let b4_19 = mul64 b.l4 19 in
    record {
      c0 =
          add128
            (add128 (add128 (add128 (m a.l0 b.l0) (m a.l4 b1_19)) (m a.l3 b2_19)) (m a.l2 b3_19))
            (m a.l1 b4_19);
      c1 =
          add128
            (add128 (add128 (add128 (m a.l1 b.l0) (m a.l0 b.l1)) (m a.l4 b2_19)) (m a.l3 b3_19))
            (m a.l2 b4_19);
      c2 =
          add128 (add128 (add128 (add128 (m a.l2 b.l0) (m a.l1 b.l1)) (m a.l0 b.l2)) (m a.l4 b3_19))
            (m a.l3 b4_19);
      c3 =
          add128 (add128 (add128 (add128 (m a.l3 b.l0) (m a.l2 b.l1)) (m a.l1 b.l2)) (m a.l0 b.l3))
            (m a.l4 b4_19);
      c4 =
          add128 (add128 (add128 (add128 (m a.l4 b.l0) (m a.l3 b.l1)) (m a.l2 b.l2)) (m a.l1 b.l3))
            (m a.l0 b.l4);
    }

-- The carry chain that `mul` and `pow2k` share: 64-bit carries, the last one times 19 into limb 0.
unfoldable pub carry_chain : Coefficients → FieldElement51
carry_chain c =
    let c1 = add128 c.c1 (u64 (shr c.c0 51)) in
    let c2 = add128 c.c2 (u64 (shr c1 51)) in
    let c3 = add128 c.c3 (u64 (shr c2 51)) in
    let c4 = add128 c.c4 (u64 (shr c3 51)) in
    let carry = u64 (shr c4 51) in
    let out0 = add64 (low_51 (u64 c.c0)) (mul64 carry 19) in
    record {
      l0 = low_51 out0;
      l1 = add64 (low_51 (u64 c1)) (shr out0 51);
      l2 = low_51 (u64 c2);
      l3 = low_51 (u64 c3);
      l4 = low_51 (u64 c4);
    }

unfoldable pub mul : FieldElement51 → FieldElement51 → FieldElement51
mul a b = carry_chain (mul_coefficients a b)

unfoldable pub square_coefficients : FieldElement51 → Coefficients
square_coefficients a =
    let a3_19 = mul64 19 a.l3 in
    let a4_19 = mul64 19 a.l4 in
    record {
      c0 = add128 (m a.l0 a.l0) (mul128 2 (add128 (m a.l1 a4_19) (m a.l2 a3_19)));
      c1 = add128 (m a.l3 a3_19) (mul128 2 (add128 (m a.l0 a.l1) (m a.l2 a4_19)));
      c2 = add128 (m a.l1 a.l1) (mul128 2 (add128 (m a.l0 a.l2) (m a.l4 a3_19)));
      c3 = add128 (m a.l4 a4_19) (mul128 2 (add128 (m a.l0 a.l3) (m a.l1 a.l2)));
      c4 = add128 (m a.l2 a.l2) (mul128 2 (add128 (m a.l0 a.l4) (m a.l1 a.l3)));
    }

-- One round of the loop of `pow2k`.
unfoldable pub square_round : FieldElement51 → FieldElement51
square_round a = carry_chain (square_coefficients a)

-- The loop squares once, decrements k and ends at 0. At k = 0, which the `debug_assert!` excludes,
-- the decrement wraps and the loop runs 2^32 rounds.
unfoldable pub square_rounds : ℕ → FieldElement51 → FieldElement51
square_rounds zero a = a
square_rounds (suc k) a = square_rounds k (square_round a)

unfoldable pub pow2k : FieldElement51 → ℕ → FieldElement51
pow2k a zero = square_rounds (2 ^ 32) a
pow2k a (suc k) = square_rounds (suc k) a

unfoldable pub square : FieldElement51 → FieldElement51
square a = pow2k a 1

unfoldable pub square2 : FieldElement51 → FieldElement51
square2 a =
    let s = square a in
    record {
      l0 = mul64 s.l0 2;
      l1 = mul64 s.l1 2;
      l2 = mul64 s.l2 2;
      l3 = mul64 s.l3 2;
      l4 = mul64 s.l4 2;
    }

module _ ⦃s : Subtle⦄ where
  unfoldable pub conditional_select : FieldElement51 → FieldElement51 → Bool → FieldElement51
  conditional_select a b choice = record {
    l0 = s.select a.l0 b.l0 choice;
    l1 = s.select a.l1 b.l1 choice;
    l2 = s.select a.l2 b.l2 choice;
    l3 = s.select a.l3 b.l3 choice;
    l4 = s.select a.l4 b.l4 choice;
  }

  -- The new value of the target.
  abbrev pub conditional_assign : FieldElement51 → FieldElement51 → Bool → FieldElement51
  conditional_assign a other choice = record {
    l0 = s.select a.l0 other.l0 choice;
    l1 = s.select a.l1 other.l1 choice;
    l2 = s.select a.l2 other.l2 choice;
    l3 = s.select a.l3 other.l3 choice;
    l4 = s.select a.l4 other.l4 choice;
  }

  -- The new values of both targets.
  unfoldable pub conditional_swap :
      FieldElement51 → FieldElement51 → Bool → FieldElement51 × FieldElement51
  conditional_swap a b choice =
      let (a0, b0) = s.swap a.l0 b.l0 choice in
      let (a1, b1) = s.swap a.l1 b.l1 choice in
      let (a2, b2) = s.swap a.l2 b.l2 choice in
      let (a3, b3) = s.swap a.l3 b.l3 choice in
      let (a4, b4) = s.swap a.l4 b.l4 choice in
      (
        record { l0 = a0; l1 = a1; l2 = a2; l3 = a3; l4 = a4 },
        record { l0 = b0; l1 = b1; l2 = b2; l3 = b3; l4 = b4 },
      )

  pub conditional_select_lem :
      (a b : FieldElement51) (choice : Bool)
      → conditional_select a b choice ≡ (if choice then b else a)
  unfolding conditional_select
  conditional_select_lem a b true = simp s.select_lem
  conditional_select_lem a b false = simp s.select_lem

  pub conditional_swap_lem :
      (a b : FieldElement51) (choice : Bool)
      → conditional_swap a b choice ≡ (if choice then (b, a) else (a, b))
  unfolding conditional_swap
  conditional_swap_lem a b true = simp s.swap_lem
  conditional_swap_lem a b false = simp s.swap_lem
