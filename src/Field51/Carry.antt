-- ===== src/Field51/Carry.antt =====
-- About the carries at the end of `mul` and `pow2k` of
-- curve25519/solana-ed25519/src/backend/serial/u64/field.rs.
use ed25519_verificationtest.Common.{ℕ, ◌+◌, ◌*◌, ◌/◌, ◌%◌, ◌^◌, ◌<◌, ◌≡◌, arith}
use ed25519_verificationtest.Common.{u64, add64, mul64, add128, shr}
use ed25519_verificationtest.Field51.{
  FieldElement51, Coefficients, value, p, IsBelow, low_51, carry_chain,
}
use ed25519_verificationtest.Field51.Reduce.{low_51_lem}

pub record CarryBounds (c : Coefficients) : Type 0 where
  pub b0 : c.c0 < 77 * 2 ^ 108
  pub b1 : c.c1 < 77 * 2 ^ 108
  pub b2 : c.c2 < 77 * 2 ^ 108
  pub b3 : c.c3 < 77 * 2 ^ 108
  pub b4 : c.c4 < 5 * 2 ^ 108

abbrev pub coefficient_value : Coefficients → ℕ
coefficient_value c = c.c0 + 2 ^ 51 * c.c1 + 2 ^ 102 * c.c2 + 2 ^ 153 * c.c3 + 2 ^ 204 * c.c4

-- A carry fits 64 bits, and adding it to the next coefficient does not wrap.
carry_step :
    (c d : ℕ) → c < 78 * 2 ^ 108 → d < 77 * 2 ^ 108 → add128 d (u64 (shr c 51)) ≡ d + c / 2 ^ 51
carry_step c d hc hd = omega arith

-- The last carry is smaller: 19 times it fits beside the lowest limb.
top_carry :
    (c low : ℕ)
    → c < 6 * 2 ^ 108
    → add64 (low % 2 ^ 51) (mul64 (u64 (shr c 51)) 19) ≡ low % 2 ^ 51 + 19 * (c / 2 ^ 51)
top_carry c low h = omega arith

low_word : (c : ℕ) → low_51 (u64 c) ≡ c % 2 ^ 51
low_word c = omega (arith, low_51_lem)

-- The chain with no wrap-around, over the coefficients with their carries added.
exact_chain : (y0 y1 y2 y3 y4 : ℕ) → FieldElement51
exact_chain y0 y1 y2 y3 y4 =
    let out0 = y0 % 2 ^ 51 + 19 * (y4 / 2 ^ 51) in
    record {
      l0 = out0 % 2 ^ 51;
      l1 = y1 % 2 ^ 51 + out0 / 2 ^ 51;
      l2 = y2 % 2 ^ 51;
      l3 = y3 % 2 ^ 51;
      l4 = y4 % 2 ^ 51;
    }

limb_one :
    (y0 y1 y4 : ℕ)
    → y4 < 6 * 2 ^ 108
    → add64 (y1 % 2 ^ 51) (shr (y0 % 2 ^ 51 + 19 * (y4 / 2 ^ 51)) 51)
      ≡ y1 % 2 ^ 51 + (y0 % 2 ^ 51 + 19 * (y4 / 2 ^ 51)) / 2 ^ 51
limb_one y0 y1 y4 h = omega arith

exact_chain-IsBelow :
    (y0 y1 y2 y3 y4 : ℕ) → y4 < 6 * 2 ^ 108 → IsBelow (2 ^ 52) (exact_chain y0 y1 y2 y3 y4)
unfolding exact_chain
exact_chain-IsBelow y0 y1 y2 y3 y4 h = omega arith

-- Every carry moves one power of 2^51 up, and 2^255 wraps round to 19.
exact_chain-value :
    (c0 c1 c2 c3 c4 : ℕ)
    → let y1 = c1 + c0 / 2 ^ 51 in
      let y2 = c2 + y1 / 2 ^ 51 in
      let y3 = c3 + y2 / 2 ^ 51 in
      let y4 = c4 + y3 / 2 ^ 51 in
      value (exact_chain c0 y1 y2 y3 y4) + p * (y4 / 2 ^ 51)
      ≡ c0 + 2 ^ 51 * c1 + 2 ^ 102 * c2 + 2 ^ 153 * c3 + 2 ^ 204 * c4
unfolding exact_chain
exact_chain-value c0 c1 c2 c3 c4 = omega arith

module _ (c : Coefficients) (h : CarryBounds c) where
  abbrev pub x1 : ℕ
  x1 = c.c1 + c.c0 / 2 ^ 51

  abbrev pub x2 : ℕ
  x2 = c.c2 + x1 / 2 ^ 51

  abbrev pub x3 : ℕ
  x3 = c.c3 + x2 / 2 ^ 51

  abbrev pub x4 : ℕ
  x4 = c.c4 + x3 / 2 ^ 51

  carry_chain_exact : carry_chain c ≡ exact_chain c.c0 x1 x2 x3 x4
  unfolding carry_chain exact_chain
  carry_chain_exact = rw (
    carry_step c.c0 c.c1 (omega arith) (omega arith),
    carry_step x1 c.c2 (omega arith) (omega arith),
    carry_step x2 c.c3 (omega arith) (omega arith),
    carry_step x3 c.c4 (omega arith) (omega arith),
    low_word c.c0,
    low_word x1,
    low_word x2,
    low_word x3,
    low_word x4,
    top_carry x4 c.c0 (omega arith),
    low_51_lem (c.c0 % 2 ^ 51 + 19 * (x4 / 2 ^ 51)),
    limb_one c.c0 x1 x4 (omega arith),
  )

  -- On bounded coefficients the chain takes off a multiple of `p`, the last carry times.
  pub carry_chain-value : value (carry_chain c) + p * (x4 / 2 ^ 51) ≡ coefficient_value c
  unfolding exact_chain
  carry_chain-value = rw carry_chain_exact (exact_chain-value c.c0 c.c1 c.c2 c.c3 c.c4)

  pub carry_chain-IsBelow : IsBelow (2 ^ 52) (carry_chain c)
  carry_chain-IsBelow = rw carry_chain_exact (exact_chain-IsBelow c.c0 x1 x2 x3 x4 (omega arith))
