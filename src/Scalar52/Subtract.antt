-- ===== src/Scalar52/Subtract.antt =====
-- About `sub`, `add` and `conditional_add_l` of
-- curve25519/solana-ed25519/src/backend/serial/u64/scalar.rs.
use ed25519_verificationtest.Common.{
  ℕ, ◌+◌, ◌-◌, ◌*◌, ◌%◌, ◌^◌, ◌≤◌, ◌<◌, ◌≡◌, arith, Bool, true, false,
}
use ed25519_verificationtest.Common.{Subtle, bit_and-low_mask}
use ed25519_verificationtest.Scalar52.{Scalar52, value, order, IsNormal, IsReduced, l, low_52}
use ed25519_verificationtest.Scalar52.{conditional_add_l, sub, add}
use ed25519_verificationtest.Common.{if◌then◌else◌}
use ed25519_verificationtest.Scalar52.{borrow_loop, carry_loop}
use ed25519_verificationtest.Common.{shr}
use ed25519_verificationtest.Common.{sub64, Bool-cases}
use ed25519_verificationtest.Common.{add64, u8}
use ed25519_verificationtest.Common.{◌==◌}
use ed25519_verificationtest.Common.{inl}
use ed25519_verificationtest.Common.{inr}

pub low_52_lem : (x : ℕ) → low_52 x ≡ x % 2 ^ 52
unfolding low_52
low_52_lem x = bit_and-low_mask 52 x

-- The sum of normal limbs, without a carry out of the top one.
carry_loop-value :
    (a b : Scalar52)
    → IsNormal a
    → IsNormal b
    → (value (carry_loop a b) ≡ (value a + value b) % 2 ^ 260) × IsNormal (carry_loop a b)
unfolding carry_loop
carry_loop-value a b ha hb = omega (arith, low_52_lem)

-- One limb of a subtraction: `w` is the wrapped difference, its top bit the borrow.
record Borrowed (x y k w : ℕ) : Type 0 where
  balance : low_52 w + (y + k) ≡ x + 2 ^ 52 * shr w 63
  limb : low_52 w < 2 ^ 52
  bit : shr w 63 < 2

borrow_step : (x y k : ℕ) → x < 2 ^ 52 → y < 2 ^ 52 → k < 2 → Borrowed x y k (sub64 x (add64 y k))
borrow_step x y k hx hy hk = record {
  balance = omega (arith, low_52_lem);
  limb = omega (arith, low_52_lem);
  bit = omega arith;
}

borrows_add_up :
    (x0 x1 x2 x3 x4 y0 y1 y2 y3 y4 d0 d1 d2 d3 d4 k0 k1 k2 k3 k4 : ℕ)
    → d0 + (y0 + 0) ≡ x0 + 2 ^ 52 * k0
    → d1 + (y1 + k0) ≡ x1 + 2 ^ 52 * k1
    → d2 + (y2 + k1) ≡ x2 + 2 ^ 52 * k2
    → d3 + (y3 + k2) ≡ x3 + 2 ^ 52 * k3
    → d4 + (y4 + k3) ≡ x4 + 2 ^ 52 * k4
    → d0
        + 2 ^ 52 * d1
        + 2 ^ 104 * d2
        + 2 ^ 156 * d3
        + 2 ^ 208 * d4
        + (y0 + 2 ^ 52 * y1 + 2 ^ 104 * y2 + 2 ^ 156 * y3 + 2 ^ 208 * y4)
      ≡ x0 + 2 ^ 52 * x1 + 2 ^ 104 * x2 + 2 ^ 156 * x3 + 2 ^ 208 * x4 + 2 ^ 260 * k4
borrows_add_up x0 x1 x2 x3 x4 y0 y1 y2 y3 y4 d0 d1 d2 d3 d4 k0 k1 k2 k3 k4 e0 e1 e2 e3 e4 =
    omega arith

-- The difference of normal limbs; the top bit of the last borrow tells that it is negative.
borrow_loop-value :
    (a b : Scalar52)
    → IsNormal a
    → IsNormal b
    → (value (borrow_loop a b).0 + value b ≡ value a + 2 ^ 260 * shr (borrow_loop a b).1 63)
      × IsNormal (borrow_loop a b).0
      × (shr (borrow_loop a b).1 63 < 2)
unfolding borrow_loop
borrow_loop-value a b ha hb =
    let s0 = borrow_step a.l0 b.l0 (shr 0 63) ha.b0 hb.b0 (omega arith) in
    let s1 = borrow_step a.l1 b.l1 _ ha.b1 hb.b1 s0.bit in
    let s2 = borrow_step a.l2 b.l2 _ ha.b2 hb.b2 s1.bit in
    let s3 = borrow_step a.l3 b.l3 _ ha.b3 hb.b3 s2.bit in
    let s4 = borrow_step a.l4 b.l4 _ ha.b4 hb.b4 s3.bit in
    (
      borrows_add_up _ _ _ _ _ _ _ _ _ _ _ _ _ _ _ _ _ _ _ _ s0.balance s1.balance s2.balance
          s3.balance s4.balance,
      record { b0 = s0.limb; b1 = s1.limb; b2 = s2.limb; b3 = s3.limb; b4 = s4.limb },
      s4.bit,
    )

module _ ⦃s : Subtle⦄ where
  pub conditional_add_l-value :
      (a : Scalar52) (c : Bool)
      → IsNormal a
      → (value (conditional_add_l a c).0 ≡ (value a + (if c then order else 0)) % 2 ^ 260)
        × IsNormal (conditional_add_l a c).0
  unfolding conditional_add_l
  conditional_add_l-value a true h = simp s.select_lem (omega (arith, low_52_lem))
  conditional_add_l-value a false h = simp s.select_lem (omega (arith, low_52_lem))

  -- For limbs below 2^52 whose values differ by no more than the order, `a` exceeding `b` by less
  -- than it, `sub` gives the difference modulo the order, reduced.
  pub sub-residue :
      (a b : Scalar52)
      → IsNormal a
      → IsNormal b
      → value b ≤ value a + order
      → value a < value b + order
      → (value (sub a b) ≡ (value a + order - value b) % order) × IsReduced (sub a b)
  unfolding sub
  sub-residue a b ha hb low high =
      let (balance, normal, bit) = borrow_loop-value a b ha hb in
      let d = (borrow_loop a b).0 in
      let k = shr (borrow_loop a b).1 63 in
      elim (Bool-cases (u8 k == 1)) [
        | inl negative ↦
            let (sum, out) = conditional_add_l-value d true normal in
            let one : k ≡ 1 = ground arith in
            rw (negative, sub) (omega arith, record { normal = out; below = omega arith })
        | inr positive ↦
            let (sum, out) = conditional_add_l-value d false normal in
            let none : k ≡ 0 = ground arith in
            rw (positive, sub) (omega arith, record { normal = out; below = omega arith })
      ]

  pub add-residue :
      (a b : Scalar52)
      → IsReduced a
      → IsReduced b
      → (value (add a b) ≡ (value a + value b) % order) × IsReduced (add a b)
  unfolding add
  add-residue a b ha hb =
      let (sum, normal) = carry_loop-value a b ha.normal hb.normal in
      let l_normal : IsNormal l = omega arith in
      let (difference, reduced) =
        sub-residue (carry_loop a b) l normal l_normal (omega arith) (omega arith) in
      (omega arith, reduced)
