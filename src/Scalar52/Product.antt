-- ===== src/Scalar52/Product.antt =====
-- About `mul_internal` and `square_internal` of
-- curve25519/solana-ed25519/src/backend/serial/u64/scalar.rs.
use ed25519_verificationtest.Common.{ℕ, ◌+◌, ◌-◌, ◌*◌, ◌^◌, ◌≤◌, ◌<◌, ◌≡◌, arith, mul64}
use ed25519_verificationtest.Scalar52.{
  Scalar52, Wide, value, IsNormal, m, mul_internal, square_internal,
}
use native.Mathlib.Nat.{mul-le-mul}

abbrev pub wide_value : Wide → ℕ
wide_value t =
    t.z0
    + 2 ^ 52 * t.z1
    + 2 ^ 104 * t.z2
    + 2 ^ 156 * t.z3
    + 2 ^ 208 * t.z4
    + 2 ^ 260 * t.z5
    + 2 ^ 312 * t.z6
    + 2 ^ 364 * t.z7
    + 2 ^ 416 * t.z8

-- Every coefficient is a sum of at most five products.
pub record IsWide (t : Wide) : Type 0 where
  pub b0 : t.z0 < 5 * 2 ^ 104
  pub b1 : t.z1 < 5 * 2 ^ 104
  pub b2 : t.z2 < 5 * 2 ^ 104
  pub b3 : t.z3 < 5 * 2 ^ 104
  pub b4 : t.z4 < 5 * 2 ^ 104
  pub b5 : t.z5 < 5 * 2 ^ 104
  pub b6 : t.z6 < 5 * 2 ^ 104
  pub b7 : t.z7 < 5 * 2 ^ 104
  pub b8 : t.z8 < 5 * 2 ^ 104

product-lt : (x y : ℕ) → x < 2 ^ 52 → y < 2 ^ 52 → x * y < 2 ^ 104
product-lt x y hx hy =
    let below : x * y ≤ (2 ^ 52 - 1) * (2 ^ 52 - 1) =
      mul-le-mul {n₂ = 2 ^ 52 - 1} {m₂ = 2 ^ 52 - 1} (omega arith) (omega arith) in
    omega arith

whole_product : (x y : ℕ) → x < 2 ^ 52 → y < 2 ^ 52 → m x y ≡ x * y
whole_product x y hx hy = omega (arith, product-lt x y hx hy)

double_product : (x y : ℕ) → x < 2 ^ 52 → y < 2 ^ 52 → m (mul64 x 2) y ≡ 2 * (x * y)
double_product x y hx hy =
    let twice : mul64 x 2 ≡ 2 * x = omega arith in rw twice (omega (arith, product-lt x y hx hy))

-- The coefficients of the product, without wrap-around.
exact_product : Scalar52 → Scalar52 → Wide
exact_product a b = record {
  z0 = a.l0 * b.l0;
  z1 = a.l0 * b.l1 + a.l1 * b.l0;
  z2 = a.l0 * b.l2 + a.l1 * b.l1 + a.l2 * b.l0;
  z3 = a.l0 * b.l3 + a.l1 * b.l2 + a.l2 * b.l1 + a.l3 * b.l0;
  z4 = a.l0 * b.l4 + a.l1 * b.l3 + a.l2 * b.l2 + a.l3 * b.l1 + a.l4 * b.l0;
  z5 = a.l1 * b.l4 + a.l2 * b.l3 + a.l3 * b.l2 + a.l4 * b.l1;
  z6 = a.l2 * b.l4 + a.l3 * b.l3 + a.l4 * b.l2;
  z7 = a.l3 * b.l4 + a.l4 * b.l3;
  z8 = a.l4 * b.l4;
}

record ProductBounds (a b : Scalar52) : Type 0 where
  p00 : a.l0 * b.l0 < 2 ^ 104
  p01 : a.l0 * b.l1 < 2 ^ 104
  p02 : a.l0 * b.l2 < 2 ^ 104
  p03 : a.l0 * b.l3 < 2 ^ 104
  p04 : a.l0 * b.l4 < 2 ^ 104
  p10 : a.l1 * b.l0 < 2 ^ 104
  p11 : a.l1 * b.l1 < 2 ^ 104
  p12 : a.l1 * b.l2 < 2 ^ 104
  p13 : a.l1 * b.l3 < 2 ^ 104
  p14 : a.l1 * b.l4 < 2 ^ 104
  p20 : a.l2 * b.l0 < 2 ^ 104
  p21 : a.l2 * b.l1 < 2 ^ 104
  p22 : a.l2 * b.l2 < 2 ^ 104
  p23 : a.l2 * b.l3 < 2 ^ 104
  p24 : a.l2 * b.l4 < 2 ^ 104
  p30 : a.l3 * b.l0 < 2 ^ 104
  p31 : a.l3 * b.l1 < 2 ^ 104
  p32 : a.l3 * b.l2 < 2 ^ 104
  p33 : a.l3 * b.l3 < 2 ^ 104
  p34 : a.l3 * b.l4 < 2 ^ 104
  p40 : a.l4 * b.l0 < 2 ^ 104
  p41 : a.l4 * b.l1 < 2 ^ 104
  p42 : a.l4 * b.l2 < 2 ^ 104
  p43 : a.l4 * b.l3 < 2 ^ 104
  p44 : a.l4 * b.l4 < 2 ^ 104

module _ (a b : Scalar52) (ha : IsNormal a) (hb : IsNormal b) where
  product_bounds : ProductBounds a b
  product_bounds = record {
    p00 = product-lt a.l0 b.l0 ha.b0 hb.b0;
    p01 = product-lt a.l0 b.l1 ha.b0 hb.b1;
    p02 = product-lt a.l0 b.l2 ha.b0 hb.b2;
    p03 = product-lt a.l0 b.l3 ha.b0 hb.b3;
    p04 = product-lt a.l0 b.l4 ha.b0 hb.b4;
    p10 = product-lt a.l1 b.l0 ha.b1 hb.b0;
    p11 = product-lt a.l1 b.l1 ha.b1 hb.b1;
    p12 = product-lt a.l1 b.l2 ha.b1 hb.b2;
    p13 = product-lt a.l1 b.l3 ha.b1 hb.b3;
    p14 = product-lt a.l1 b.l4 ha.b1 hb.b4;
    p20 = product-lt a.l2 b.l0 ha.b2 hb.b0;
    p21 = product-lt a.l2 b.l1 ha.b2 hb.b1;
    p22 = product-lt a.l2 b.l2 ha.b2 hb.b2;
    p23 = product-lt a.l2 b.l3 ha.b2 hb.b3;
    p24 = product-lt a.l2 b.l4 ha.b2 hb.b4;
    p30 = product-lt a.l3 b.l0 ha.b3 hb.b0;
    p31 = product-lt a.l3 b.l1 ha.b3 hb.b1;
    p32 = product-lt a.l3 b.l2 ha.b3 hb.b2;
    p33 = product-lt a.l3 b.l3 ha.b3 hb.b3;
    p34 = product-lt a.l3 b.l4 ha.b3 hb.b4;
    p40 = product-lt a.l4 b.l0 ha.b4 hb.b0;
    p41 = product-lt a.l4 b.l1 ha.b4 hb.b1;
    p42 = product-lt a.l4 b.l2 ha.b4 hb.b2;
    p43 = product-lt a.l4 b.l3 ha.b4 hb.b3;
    p44 = product-lt a.l4 b.l4 ha.b4 hb.b4;
  }

  mul_internal_exact : mul_internal a b ≡ exact_product a b
  unfolding mul_internal exact_product
  mul_internal_exact =
      rw
        (
          whole_product a.l0 b.l0 ha.b0 hb.b0,
          whole_product a.l0 b.l1 ha.b0 hb.b1,
          whole_product a.l0 b.l2 ha.b0 hb.b2,
          whole_product a.l0 b.l3 ha.b0 hb.b3,
          whole_product a.l0 b.l4 ha.b0 hb.b4,
          whole_product a.l1 b.l0 ha.b1 hb.b0,
          whole_product a.l1 b.l1 ha.b1 hb.b1,
          whole_product a.l1 b.l2 ha.b1 hb.b2,
          whole_product a.l1 b.l3 ha.b1 hb.b3,
          whole_product a.l1 b.l4 ha.b1 hb.b4,
          whole_product a.l2 b.l0 ha.b2 hb.b0,
          whole_product a.l2 b.l1 ha.b2 hb.b1,
          whole_product a.l2 b.l2 ha.b2 hb.b2,
          whole_product a.l2 b.l3 ha.b2 hb.b3,
          whole_product a.l2 b.l4 ha.b2 hb.b4,
          whole_product a.l3 b.l0 ha.b3 hb.b0,
          whole_product a.l3 b.l1 ha.b3 hb.b1,
          whole_product a.l3 b.l2 ha.b3 hb.b2,
          whole_product a.l3 b.l3 ha.b3 hb.b3,
          whole_product a.l3 b.l4 ha.b3 hb.b4,
          whole_product a.l4 b.l0 ha.b4 hb.b0,
          whole_product a.l4 b.l1 ha.b4 hb.b1,
          whole_product a.l4 b.l2 ha.b4 hb.b2,
          whole_product a.l4 b.l3 ha.b4 hb.b3,
          whole_product a.l4 b.l4 ha.b4 hb.b4,
        )
        (let h = product_bounds in ground arith)

  -- On limbs below 2^52 the nine coefficients of `mul_internal` stand for the product of the
  -- values, and each is below 5 times 2^104.
  pub mul_internal-value :
      (wide_value (mul_internal a b) ≡ value a * value b) × IsWide (mul_internal a b)
  unfolding exact_product
  mul_internal-value = let h = product_bounds in rw mul_internal_exact (omega arith, omega arith)

-- On limbs below 2^52 `square_internal` gives the coefficients that `mul_internal` gives for the
-- number with itself.
pub square-mul_internal : (a : Scalar52) → IsNormal a → square_internal a ≡ mul_internal a a
unfolding square_internal exact_product
square-mul_internal a h =
    let bounds = product_bounds a a h h in
    rw
      (
        mul_internal_exact a a h h,
        whole_product a.l0 a.l0 h.b0 h.b0,
        whole_product a.l1 a.l1 h.b1 h.b1,
        whole_product a.l2 a.l2 h.b2 h.b2,
        whole_product a.l3 a.l3 h.b3 h.b3,
        whole_product a.l4 a.l4 h.b4 h.b4,
        double_product a.l0 a.l1 h.b0 h.b1,
        double_product a.l0 a.l2 h.b0 h.b2,
        double_product a.l0 a.l3 h.b0 h.b3,
        double_product a.l0 a.l4 h.b0 h.b4,
        double_product a.l1 a.l2 h.b1 h.b2,
        double_product a.l1 a.l3 h.b1 h.b3,
        double_product a.l1 a.l4 h.b1 h.b4,
        double_product a.l2 a.l3 h.b2 h.b3,
        double_product a.l2 a.l4 h.b2 h.b4,
        double_product a.l3 a.l4 h.b3 h.b4,
      )
      (ground arith)
