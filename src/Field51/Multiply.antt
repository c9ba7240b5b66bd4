-- ===== src/Field51/Multiply.antt =====
-- About `mul` of curve25519/solana-ed25519/src/backend/serial/u64/field.rs, through the
-- coefficients with no wrap-around.
use ed25519_verificationtest.Common.{ℕ, ◌+◌, ◌-◌, ◌/◌, ◌*◌, ◌^◌, ◌<◌, ◌≤◌, ◌≡◌, arith}
use ed25519_verificationtest.Common.{add128, mul64, Congr, Congr-intro}
use ed25519_verificationtest.Field51.{FieldElement51, Coefficients, value, p, IsBelow, m}
use ed25519_verificationtest.Field51.{mul_coefficients, mul}
use ed25519_verificationtest.Field51.Carry.{CarryBounds, coefficient_value, x4}
use ed25519_verificationtest.Field51.Carry.{carry_chain-value, carry_chain-IsBelow}
use native.Mathlib.Nat.{mul-le-mul}

pub product-lt : (x y : ℕ) → x < 2 ^ 54 → y < 2 ^ 54 → x * y < 2 ^ 108
product-lt x y hx hy =
    let below : x * y ≤ (2 ^ 54 - 1) * (2 ^ 54 - 1) =
      mul-le-mul {n₂ = 2 ^ 54 - 1} {m₂ = 2 ^ 54 - 1} (omega arith) (omega arith) in
    omega arith

pub plain_product : (x y : ℕ) → x < 2 ^ 54 → y < 2 ^ 54 → m x y ≡ x * y
plain_product x y hx hy = omega (arith, product-lt x y hx hy)

pub product_19 : (x y : ℕ) → x < 2 ^ 54 → y < 2 ^ 54 → m x (mul64 y 19) ≡ 19 * (x * y)
product_19 x y hx hy =
    let factor : mul64 y 19 ≡ 19 * y = omega arith in
    rw factor (omega (arith, product-lt x y hx hy))

sum_of_five :
    (s0 s1 s2 s3 s4 : ℕ)
    → s0 + s1 + s2 + s3 + s4 < 2 ^ 128
    → add128 (add128 (add128 (add128 s0 s1) s2) s3) s4 ≡ s0 + s1 + s2 + s3 + s4
sum_of_five s0 s1 s2 s3 s4 h = omega arith

-- The coefficients with no wrap-around: 19 stands for 2^255.
unfoldable pub exact_coefficients : FieldElement51 → FieldElement51 → Coefficients
exact_coefficients a b = record {
  c0 =
      a.l0 * b.l0
      + 19 * (a.l4 * b.l1)
      + 19 * (a.l3 * b.l2)
      + 19 * (a.l2 * b.l3)
      + 19 * (a.l1 * b.l4);
  c1 = a.l1 * b.l0 + a.l0 * b.l1 + 19 * (a.l4 * b.l2) + 19 * (a.l3 * b.l3) + 19 * (a.l2 * b.l4);
  c2 = a.l2 * b.l0 + a.l1 * b.l1 + a.l0 * b.l2 + 19 * (a.l4 * b.l3) + 19 * (a.l3 * b.l4);
  c3 = a.l3 * b.l0 + a.l2 * b.l1 + a.l1 * b.l2 + a.l0 * b.l3 + 19 * (a.l4 * b.l4);
  c4 = a.l4 * b.l0 + a.l3 * b.l1 + a.l2 * b.l2 + a.l1 * b.l3 + a.l0 * b.l4;
}

-- What the coefficients leave out of the product of the values, in multiples of `p`.
overflow : FieldElement51 → FieldElement51 → ℕ
overflow a b =
    a.l4 * b.l1
    + a.l3 * b.l2
    + a.l2 * b.l3
    + a.l1 * b.l4
    + 2 ^ 51 * (a.l4 * b.l2 + a.l3 * b.l3 + a.l2 * b.l4)
    + 2 ^ 102 * (a.l4 * b.l3 + a.l3 * b.l4)
    + 2 ^ 153 * (a.l4 * b.l4)

exact_coefficients-value :
    (a b : FieldElement51)
    → coefficient_value (exact_coefficients a b) + p * overflow a b ≡ value a * value b
unfolding exact_coefficients overflow
exact_coefficients-value a b = omega arith

-- Each product of two limbs is below 2^108.
pub record ProductBounds (a b : FieldElement51) : Type 0 where
  pub p00 : a.l0 * b.l0 < 2 ^ 108
  pub p01 : a.l0 * b.l1 < 2 ^ 108
  pub p02 : a.l0 * b.l2 < 2 ^ 108
  pub p03 : a.l0 * b.l3 < 2 ^ 108
  pub p04 : a.l0 * b.l4 < 2 ^ 108
  pub p10 : a.l1 * b.l0 < 2 ^ 108
  pub p11 : a.l1 * b.l1 < 2 ^ 108
  pub p12 : a.l1 * b.l2 < 2 ^ 108
  pub p13 : a.l1 * b.l3 < 2 ^ 108
  pub p14 : a.l1 * b.l4 < 2 ^ 108
  pub p20 : a.l2 * b.l0 < 2 ^ 108
  pub p21 : a.l2 * b.l1 < 2 ^ 108
  pub p22 : a.l2 * b.l2 < 2 ^ 108
  pub p23 : a.l2 * b.l3 < 2 ^ 108
  pub p24 : a.l2 * b.l4 < 2 ^ 108
  pub p30 : a.l3 * b.l0 < 2 ^ 108
  pub p31 : a.l3 * b.l1 < 2 ^ 108
  pub p32 : a.l3 * b.l2 < 2 ^ 108
  pub p33 : a.l3 * b.l3 < 2 ^ 108
  pub p34 : a.l3 * b.l4 < 2 ^ 108
  pub p40 : a.l4 * b.l0 < 2 ^ 108
  pub p41 : a.l4 * b.l1 < 2 ^ 108
  pub p42 : a.l4 * b.l2 < 2 ^ 108
  pub p43 : a.l4 * b.l3 < 2 ^ 108
  pub p44 : a.l4 * b.l4 < 2 ^ 108

module _ (a b : FieldElement51) (ha : IsBelow (2 ^ 54) a) (hb : IsBelow (2 ^ 54) b) where
  pub product_bounds : ProductBounds a b
  product_bounds = record {
    p00 = product-lt a.l0 b.l0 ha.b0 hb.b0;
    p01 = product-lt a.l0 b.l1 ha.b0 hb.b1;
    p02 = product-lt a.l0 b.l2 ha.b0 hb.b2;
    p03 = product-lt a.l0 b.l3 ha.b0 hb.b3;
    p04 = product-lt a.l0 b.l4 ha.b0 hb.b4;
    p10 = product-lt a.l1 b.l0 ha.b1 hb.b0;
    p11 = product-lt a.l1 b.l1 ha.b1 hb.b1;
    p12 = product-lt a.l1 b.l2 ha.b1 hb.b2;
    p13 = product-lt a.l1 b.l3 ha.b1 hb.b3;
    p14 = product-lt a.l1 b.l4 ha.b1 hb.b4;
    p20 = product-lt a.l2 b.l0 ha.b2 hb.b0;
    p21 = product-lt a.l2 b.l1 ha.b2 hb.b1;
    p22 = product-lt a.l2 b.l2 ha.b2 hb.b2;
    p23 = product-lt a.l2 b.l3 ha.b2 hb.b3;
    p24 = product-lt a.l2 b.l4 ha.b2 hb.b4;
    p30 = product-lt a.l3 b.l0 ha.b3 hb.b0;
    p31 = product-lt a.l3 b.l1 ha.b3 hb.b1;
    p32 = product-lt a.l3 b.l2 ha.b3 hb.b2;
    p33 = product-lt a.l3 b.l3 ha.b3 hb.b3;
    p34 = product-lt a.l3 b.l4 ha.b3 hb.b4;
    p40 = product-lt a.l4 b.l0 ha.b4 hb.b0;
    p41 = product-lt a.l4 b.l1 ha.b4 hb.b1;
    p42 = product-lt a.l4 b.l2 ha.b4 hb.b2;
    p43 = product-lt a.l4 b.l3 ha.b4 hb.b3;
    p44 = product-lt a.l4 b.l4 ha.b4 hb.b4;
  }

  exact_coefficients-CarryBounds : CarryBounds (exact_coefficients a b)
  unfolding exact_coefficients
  exact_coefficients-CarryBounds = let h = product_bounds in omega arith

  pub mul_coefficients_exact : mul_coefficients a b ≡ exact_coefficients a b
  unfolding mul_coefficients exact_coefficients
  mul_coefficients_exact =
      rw
        (
          product_19 a.l1 b.l4 ha.b1 hb.b4,
          product_19 a.l2 b.l3 ha.b2 hb.b3,
          product_19 a.l2 b.l4 ha.b2 hb.b4,
          product_19 a.l3 b.l2 ha.b3 hb.b2,
          product_19 a.l3 b.l3 ha.b3 hb.b3,
          product_19 a.l3 b.l4 ha.b3 hb.b4,
          product_19 a.l4 b.l1 ha.b4 hb.b1,
          product_19 a.l4 b.l2 ha.b4 hb.b2,
          product_19 a.l4 b.l3 ha.b4 hb.b3,
          product_19 a.l4 b.l4 ha.b4 hb.b4,
          plain_product a.l0 b.l0 ha.b0 hb.b0,
          plain_product a.l0 b.l1 ha.b0 hb.b1,
          plain_product a.l0 b.l2 ha.b0 hb.b2,
          plain_product a.l0 b.l3 ha.b0 hb.b3,
          plain_product a.l0 b.l4 ha.b0 hb.b4,
          plain_product a.l1 b.l0 ha.b1 hb.b0,
          plain_product a.l1 b.l1 ha.b1 hb.b1,
          plain_product a.l1 b.l2 ha.b1 hb.b2,
          plain_product a.l1 b.l3 ha.b1 hb.b3,
          plain_product a.l2 b.l0 ha.b2 hb.b0,
          plain_product a.l2 b.l1 ha.b2 hb.b1,
          plain_product a.l2 b.l2 ha.b2 hb.b2,
          plain_product a.l3 b.l0 ha.b3 hb.b0,
          plain_product a.l3 b.l1 ha.b3 hb.b1,
          plain_product a.l4 b.l0 ha.b4 hb.b0,
        )
        (let h = product_bounds in ground arith)

  -- On elements whose limbs are below 2^54, the value of `mul a b` is congruent to the product of
  -- the values modulo 2^255 - 19, and its limbs are below 2^52.
  pub mul-value : Congr p (value (mul a b)) (value a * value b) × IsBelow (2 ^ 52) (mul a b)
  unfolding mul
  mul-value =
      let c = exact_coefficients a b in
      let h = exact_coefficients-CarryBounds in
      rw mul_coefficients_exact (
        Congr-intro p _ (value a * value b) (x4 c h / 2 ^ 51 + overflow a b) 0
            (omega (arith, carry_chain-value c h, exact_coefficients-value a b)),
        carry_chain-IsBelow c h,
      )
