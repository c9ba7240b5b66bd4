-- ===== src/Scalar52/Montgomery.antt =====
-- About `montgomery_reduce` of curve25519/solana-ed25519/src/backend/serial/u64/scalar.rs.
use ed25519_verificationtest.Common.{ℕ, ◌+◌, ◌*◌, ◌%◌, ◌^◌, ◌<◌, ◌≡◌, ap, arith}
use ed25519_verificationtest.Common.{add128, u64, Congr, Congr-intro, Subtle}
use ed25519_verificationtest.Scalar52.{Wide, value, order, IsNormal, IsReduced, l, lfactor, m}
use ed25519_verificationtest.Scalar52.{part1, part2, montgomery_quotient, montgomery_reduce}
use ed25519_verificationtest.Scalar52.Product.{IsWide, wide_value}
use ed25519_verificationtest.Scalar52.Subtract.{low_52_lem, sub-residue}
use ed25519_verificationtest.Scalar52.{low_52}
use ed25519_verificationtest.Common.{mul64}
use ed25519_verificationtest.Common.{u64-eq_of_lt}
use ed25519_verificationtest.Common.{◌∙◌}
use ed25519_verificationtest.Scalar52.{sub}
use ed25519_verificationtest.Common.{Congr-trans}
use ed25519_verificationtest.Common.{Congr-of_eq}
use ed25519_verificationtest.Common.{Congr-mod}
use ed25519_verificationtest.Common.{Congr-mul}
use ed25519_verificationtest.Common.{Congr-refl}

-- One step of the first half: `n` times the order clears the low 52 bits of the sum.
record Cleared (sum k n : ℕ) : Type 0 where
  balance : 2 ^ 52 * k ≡ sum + n * l.l0
  digit : n < 2 ^ 52
  carry : k < 2 ^ 58

digit_lem : (sum : ℕ) → low_52 (mul64 (u64 sum) lfactor) ≡ sum * lfactor % 2 ^ 52
digit_lem sum = omega (arith, low_52_lem)

-- `lfactor` times the lowest limb of the order is -1 modulo 2^52.
clears : (sum : ℕ) → (sum + sum * lfactor % 2 ^ 52 * l.l0) % 2 ^ 52 ≡ 0
clears sum = omega arith

cleared : (sum : ℕ) → sum < 2 ^ 108 → Cleared sum (part1 sum).0 (part1 sum).1
unfolding part1
cleared sum h =
    rw digit_lem
      (record { balance = omega (arith, clears sum); digit = omega arith; carry = omega arith })

abbrev digit_of : {sum k n : ℕ} → Cleared sum k n → ℕ
digit_of {n} c = n

rebalance : {sum k n exact : ℕ} → Cleared sum k n → sum ≡ exact → 2 ^ 52 * k ≡ exact + n * l.l0
rebalance {n} c e = c.balance ∙ ap (λ (t : ℕ). t + n * l.l0) e

-- One step of the second half.
record Stored (sum k w : ℕ) : Type 0 where
  balance : 2 ^ 52 * k + w ≡ sum
  digit : w < 2 ^ 52
  carry : k < 2 ^ 58

abbrev carry_of : {sum k w : ℕ} → Stored sum k w → ℕ
carry_of {k} d = k

stored : (sum : ℕ) → sum < 2 ^ 108 → Stored sum (part2 sum).0 (part2 sum).1
unfolding part2
stored sum h = omega (arith, low_52_lem)

-- Sums of the steps do not wrap.

-- The balances of all steps, each with its weight: the low half is cleared, and what is left is
-- the sum divided by 2^260.
steps_add_up :
    (z0 z1 z2 z3 z4 z5 z6 z7 z8 k0 k1 k2 k3 k4 k5 k6 k7 k8 n0 n1 n2 n3 n4 w0 w1 w2 w3 : ℕ)
    → 2 ^ 52 * k0 ≡ z0 + n0 * l.l0
    → 2 ^ 52 * k1 ≡ k0 + z1 + n0 * l.l1 + n1 * l.l0
    → 2 ^ 52 * k2 ≡ k1 + z2 + n0 * l.l2 + n1 * l.l1 + n2 * l.l0
    → 2 ^ 52 * k3 ≡ k2 + z3 + n1 * l.l2 + n2 * l.l1 + n3 * l.l0
    → 2 ^ 52 * k4 ≡ k3 + z4 + n0 * l.l4 + n2 * l.l2 + n3 * l.l1 + n4 * l.l0
    → 2 ^ 52 * k5 + w0 ≡ k4 + z5 + n1 * l.l4 + n3 * l.l2 + n4 * l.l1
    → 2 ^ 52 * k6 + w1 ≡ k5 + z6 + n2 * l.l4 + n4 * l.l2
    → 2 ^ 52 * k7 + w2 ≡ k6 + z7 + n3 * l.l4
    → 2 ^ 52 * k8 + w3 ≡ k7 + z8 + n4 * l.l4
    → 2 ^ 260 * (w0 + 2 ^ 52 * w1 + 2 ^ 104 * w2 + 2 ^ 156 * w3 + 2 ^ 208 * k8)
      ≡ z0
        + 2 ^ 52 * z1
        + 2 ^ 104 * z2
        + 2 ^ 156 * z3
        + 2 ^ 208 * z4
        + 2 ^ 260 * z5
        + 2 ^ 312 * z6
        + 2 ^ 364 * z7
        + 2 ^ 416 * z8
        + order * (n0 + 2 ^ 52 * n1 + 2 ^ 104 * n2 + 2 ^ 156 * n3 + 2 ^ 208 * n4)
steps_add_up z0 z1 z2 z3 z4 z5 z6 z7 z8 k0 k1 k2 k3 k4 k5 k6 k7 k8 n0 n1 n2 n3 n4 w0 w1 w2 w3 e0 e1
      e2 e3 e4 e5 e6 e7 e8 =
    omega arith

-- No sum of a step wraps.
sum_1 :
    (k0 z1 n0 : ℕ)
    → k0 < 2 ^ 58
    → z1 < 5 * 2 ^ 104
    → n0 < 2 ^ 52
    → (add128 (add128 k0 z1) (m n0 l.l1) ≡ k0 + z1 + n0 * l.l1)
      × (add128 (add128 k0 z1) (m n0 l.l1) < 2 ^ 108)
sum_1 k0 z1 n0 hk0 hz1 hn0 = omega arith

sum_2 :
    (k1 z2 n0 n1 : ℕ)
    → k1 < 2 ^ 58
    → z2 < 5 * 2 ^ 104
    → n0 < 2 ^ 52
    → n1 < 2 ^ 52
    → (add128 (add128 (add128 k1 z2) (m n0 l.l2)) (m n1 l.l1) ≡ k1 + z2 + n0 * l.l2 + n1 * l.l1)
      × (add128 (add128 (add128 k1 z2) (m n0 l.l2)) (m n1 l.l1) < 2 ^ 108)
sum_2 k1 z2 n0 n1 hk1 hz2 hn0 hn1 = omega arith

sum_3 :
    (k2 z3 n1 n2 : ℕ)
    → k2 < 2 ^ 58
    → z3 < 5 * 2 ^ 104
    → n1 < 2 ^ 52
    → n2 < 2 ^ 52
    → (add128 (add128 (add128 k2 z3) (m n1 l.l2)) (m n2 l.l1) ≡ k2 + z3 + n1 * l.l2 + n2 * l.l1)
      × (add128 (add128 (add128 k2 z3) (m n1 l.l2)) (m n2 l.l1) < 2 ^ 108)
sum_3 k2 z3 n1 n2 hk2 hz3 hn1 hn2 = omega arith

sum_4 :
    (k3 z4 n0 n2 n3 : ℕ)
    → k3 < 2 ^ 58
    → z4 < 5 * 2 ^ 104
    → n0 < 2 ^ 52
    → n2 < 2 ^ 52
    → n3 < 2 ^ 52
    → (add128 (add128 (add128 (add128 k3 z4) (m n0 l.l4)) (m n2 l.l2)) (m n3 l.l1)
        ≡ k3 + z4 + n0 * l.l4 + n2 * l.l2 + n3 * l.l1)
      × (add128 (add128 (add128 (add128 k3 z4) (m n0 l.l4)) (m n2 l.l2)) (m n3 l.l1) < 2 ^ 108)
sum_4 k3 z4 n0 n2 n3 hk3 hz4 hn0 hn2 hn3 = omega arith

sum_5 :
    (k4 z5 n1 n3 n4 : ℕ)
    → k4 < 2 ^ 58
    → z5 < 5 * 2 ^ 104
    → n1 < 2 ^ 52
    → n3 < 2 ^ 52
    → n4 < 2 ^ 52
    → (add128 (add128 (add128 (add128 k4 z5) (m n1 l.l4)) (m n3 l.l2)) (m n4 l.l1)
        ≡ k4 + z5 + n1 * l.l4 + n3 * l.l2 + n4 * l.l1)
      × (add128 (add128 (add128 (add128 k4 z5) (m n1 l.l4)) (m n3 l.l2)) (m n4 l.l1) < 2 ^ 108)
sum_5 k4 z5 n1 n3 n4 hk4 hz5 hn1 hn3 hn4 = omega arith

sum_6 :
    (k5 z6 n2 n4 : ℕ)
    → k5 < 2 ^ 58
    → z6 < 5 * 2 ^ 104
    → n2 < 2 ^ 52
    → n4 < 2 ^ 52
    → (add128 (add128 (add128 k5 z6) (m n2 l.l4)) (m n4 l.l2) ≡ k5 + z6 + n2 * l.l4 + n4 * l.l2)
      × (add128 (add128 (add128 k5 z6) (m n2 l.l4)) (m n4 l.l2) < 2 ^ 108)
sum_6 k5 z6 n2 n4 hk5 hz6 hn2 hn4 = omega arith

sum_7 :
    (k6 z7 n3 : ℕ)
    → k6 < 2 ^ 58
    → z7 < 5 * 2 ^ 104
    → n3 < 2 ^ 52
    → (add128 (add128 k6 z7) (m n3 l.l4) ≡ k6 + z7 + n3 * l.l4)
      × (add128 (add128 k6 z7) (m n3 l.l4) < 2 ^ 108)
sum_7 k6 z7 n3 hk6 hz7 hn3 = omega arith

sum_8 :
    (k7 z8 n4 : ℕ)
    → k7 < 2 ^ 58
    → z8 < 5 * 2 ^ 104
    → n4 < 2 ^ 52
    → (add128 (add128 k7 z8) (m n4 l.l4) ≡ k7 + z8 + n4 * l.l4)
      × (add128 (add128 k7 z8) (m n4 l.l4) < 2 ^ 108)
sum_8 k7 z8 n4 hk7 hz8 hn4 = omega arith

module _ (t : Wide) (h : IsWide t) where
  -- The quotient times 2^260 is the wide number plus a multiple of the order.
  montgomery_quotient-value :
      (n : ℕ) × (2 ^ 260 * value (montgomery_quotient t) ≡ wide_value t + order * n)
      × (n < 2 ^ 260)
      × ((montgomery_quotient t).l0 < 2 ^ 52)
      × ((montgomery_quotient t).l1 < 2 ^ 52)
      × ((montgomery_quotient t).l2 < 2 ^ 52)
      × ((montgomery_quotient t).l3 < 2 ^ 52)
  unfolding montgomery_quotient
  montgomery_quotient-value =
      let c0 = cleared t.z0 (omega arith) in
      let s1 = sum_1 _ _ _ c0.carry h.b1 c0.digit in
      let c1 = cleared _ s1.1 in
      let s2 = sum_2 _ _ _ _ c1.carry h.b2 c0.digit c1.digit in
      let c2 = cleared _ s2.1 in
      let s3 = sum_3 _ _ _ _ c2.carry h.b3 c1.digit c2.digit in
      let c3 = cleared _ s3.1 in
      let s4 = sum_4 _ _ _ _ _ c3.carry h.b4 c0.digit c2.digit c3.digit in
      let c4 = cleared _ s4.1 in
      let s5 = sum_5 _ _ _ _ _ c4.carry h.b5 c1.digit c3.digit c4.digit in
      let d5 = stored _ s5.1 in
      let s6 = sum_6 _ _ _ _ d5.carry h.b6 c2.digit c4.digit in
      let d6 = stored _ s6.1 in
      let s7 = sum_7 _ _ _ d6.carry h.b7 c3.digit in
      let d7 = stored _ s7.1 in
      let s8 = sum_8 _ _ _ d7.carry h.b8 c4.digit in
      let d8 = stored _ s8.1 in
      let k8 = carry_of d8 in
      let whole : u64 k8 ≡ k8 = u64-eq_of_lt _ (omega (arith, d8.carry)) in
      (
        digit_of c0
            + 2 ^ 52 * digit_of c1
            + 2 ^ 104 * digit_of c2
            + 2 ^ 156 * digit_of c3
            + 2 ^ 208 * digit_of c4,
        rw whole (
            steps_add_up t.z0 t.z1 t.z2 t.z3 t.z4 t.z5 t.z6 t.z7 t.z8 _ _ _ _ _ _ _ _ _ _ _ _ _ _ _
              _ _ _ c0.balance (rebalance c1 s1.0) (rebalance c2 s2.0) (rebalance c3 s3.0)
              (rebalance c4 s4.0) (d5.balance ∙ s5.0) (d6.balance ∙ s6.0) (d7.balance ∙ s7.0)
              (d8.balance ∙ s8.0)),
        omega (arith, c0.digit, c1.digit, c2.digit, c3.digit, c4.digit),
        d5.digit,
        d6.digit,
        d7.digit,
        d8.digit,
      )

module _ ⦃s : Subtle⦄ (t : Wide) (h : IsWide t) (bound : wide_value t < 2 ^ 260 * order) where
  montgomery_quotient-IsNormal : IsNormal (montgomery_quotient t)
  montgomery_quotient-IsNormal =
      let (n, balance, small, h0, h1, h2, h3) = montgomery_quotient-value t h in
      record { b0 = h0; b1 = h1; b2 = h2; b3 = h3; b4 = omega arith }

  -- If each coefficient is below 5 * 2^104 and they stand for a number below 2^260 times the order,
  -- then 2^260 times the value of `montgomery_reduce` is congruent to that number modulo the order,
  -- and the result is reduced.
  pub montgomery_reduce-value :
      Congr order (value (montgomery_reduce t) * 2 ^ 260) (wide_value t)
      × IsReduced (montgomery_reduce t)
  unfolding montgomery_reduce
  montgomery_reduce-value =
      let (n, balance, small, h0, h1, h2, h3) = montgomery_quotient-value t h in
      let q = montgomery_quotient t in
      let l_normal : IsNormal l = omega arith in
      let (difference, reduced) =
        sub-residue q l montgomery_quotient-IsNormal l_normal (omega arith) (omega arith) in
      let residue : Congr order (value (sub q l)) (value q) =
        Congr-trans (Congr-of_eq order (omega arith)) (Congr-mod order (value q)) in
      (
        Congr-trans (Congr-mul residue (Congr-refl order (2 ^ 260)))
            (Congr-intro order (value q * 2 ^ 260) (wide_value t) 0 n (omega arith)),
        reduced,
      )
