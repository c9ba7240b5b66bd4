-- ===== src/Edwards/Law.antt =====
-- About the sum, the difference, the negation and the equality of points of
-- curve25519/solana-ed25519/src/edwards.rs.
use ed25519_verificationtest.CurveModels.{EdwardsPoint}
use ed25519_verificationtest.Common.{
  ℕ, ◌*◌, ◌^◌, ◌≡◌, refl, arith, Congr, Congr-refl, Congr-symm, Congr-trans, Congr-of_eq, Congr-mul,
  Bool, true, Subtle, ◌&&◌, ◌↔◌,
}
use ed25519_verificationtest.Field51.{FieldElement51, p, mul}
use ed25519_verificationtest.Field.Sign.{ct_eq_iff}
use ed25519_verificationtest.Field
use ed25519_verificationtest.Edwards.{
  edwards_add, edwards_sub, edwards_neg, as_projective_niels, edwards_ct_eq,
}
use ed25519_verificationtest.Edwards.Denotes.{
  minus, Denotes, Denotes-mul, Denotes-negate, Denotes-wide, Denotes-change, Denotes-weaken,
}
use ed25519_verificationtest.Edwards.Points.{
  cancel_unit, IsAffine, IsSum, IsUnit, completed_as_extended-IsAffine,
}
use ed25519_verificationtest.Edwards.Addition.{
  as_projective_niels-IsNiels, add_projective_niels-IsCompleted, sub_projective_niels-IsCompleted,
}
use ed25519_verificationtest.Edwards.Points.{IsUnit-mul}

-- If `a` and `b` stand in extended coordinates for two affine points, and a third point is their
-- sum by the addition law of the curve, whose two denominators are not zero, then `edwards_add a b`
-- stands for that sum, with limbs below 2^52.
pub edwards_add-IsAffine :
    (a b : EdwardsPoint) (x1 y1 x2 y2 x3 y3 : ℕ)
    → IsAffine a x1 y1
    → IsAffine b x2 y2
    → IsSum x1 y1 x2 y2 x3 y3
    → IsAffine (edwards_add a b) x3 y3
unfolding edwards_add
edwards_add-IsAffine a b x1 y1 x2 y2 x3 y3 ha hb sum = completed_as_extended-IsAffine _ x3 y3 (
    add_projective_niels-IsCompleted a (as_projective_niels b) x1 y1 x2 y2 x3 y3 ha
      (as_projective_niels-IsNiels b x2 y2 hb) sum)

-- If `a` and `b` stand for two affine points, and a third point is the sum by the addition law of
-- the first and the second with x negated, then `edwards_sub a b` stands for it.
pub edwards_sub-IsAffine :
    (a b : EdwardsPoint) (x1 y1 x2 y2 x3 y3 : ℕ)
    → IsAffine a x1 y1
    → IsAffine b x2 y2
    → IsSum x1 y1 (minus * x2) y2 x3 y3
    → IsAffine (edwards_sub a b) x3 y3
unfolding edwards_sub
edwards_sub-IsAffine a b x1 y1 x2 y2 x3 y3 ha hb sum = completed_as_extended-IsAffine _ x3 y3 (
    sub_projective_niels-IsCompleted a (as_projective_niels b) x1 y1 x2 y2 x3 y3 ha
      (as_projective_niels-IsNiels b x2 y2 hb) sum)

pub edwards_neg-IsAffine :
    (a : EdwardsPoint) (x y : ℕ) → IsAffine a x y → IsAffine (edwards_neg a) (minus * x) y
unfolding edwards_neg
edwards_neg-IsAffine a x y h = record {
  scale = h.scale;
  unit = h.unit;
  denotes_x =
      Denotes-change (Denotes-negate (Denotes-wide h.denotes_x)) (Congr-of_eq p (omega arith));
  denotes_y = h.denotes_y;
  denotes_z = h.denotes_z;
  denotes_t =
      Denotes-change (Denotes-negate (Denotes-wide h.denotes_t)) (Congr-of_eq p (omega arith));
}

-- Cross products are equal exactly if the quotients are.
cross_iff :
    ⦃s : Subtle⦄ (a1 z1 a2 z2 : FieldElement51) (x1 x2 s1 s2 : ℕ)
    → IsUnit s1
    → IsUnit s2
    → Denotes (2 ^ 52) a1 (x1 * s1)
    → Denotes (2 ^ 52) z1 s1
    → Denotes (2 ^ 52) a2 (x2 * s2)
    → Denotes (2 ^ 52) z2 s2
    → (Field.ct_eq (mul a1 z2) (mul a2 z1) ≡ true) ↔ Congr p x1 x2
cross_iff ⦃s⦄ a1 z1 a2 z2 x1 x2 s1 s2 u1 u2 d1 e1 d2 e2 =
    let left = Denotes-mul (Denotes-wide d1) (Denotes-wide e2) in
    let right = Denotes-mul (Denotes-wide d2) (Denotes-wide e1) in
    let wide_left = Denotes-weaken (2 ^ 64) left (omega arith) in
    let wide_right = Denotes-weaken (2 ^ 64) right (omega arith) in
    let decided = ct_eq_iff (mul a1 z2) (mul a2 z1) wide_left.below wide_right.below in
    (
      λ e. cancel_unit (s1 * s2) x1 x2 (IsUnit-mul u1 u2) (
          Congr-trans (Congr-of_eq p (omega arith)) (
            Congr-trans (Congr-symm left.same)
              (Congr-trans (decided.0 e) (Congr-trans right.same (Congr-of_eq p (omega arith)))))),
      λ c. decided.1 (
          Congr-trans left.same (
            Congr-trans (Congr-of_eq p (omega arith)) (
              Congr-trans (Congr-mul c (Congr-refl p (s1 * s2)))
                (Congr-trans (Congr-of_eq p (omega arith)) (Congr-symm right.same))))),
    )

-- On extended coordinates of two affine points `edwards_ct_eq` answers true exactly if both
-- coordinates are congruent modulo 2^255 - 19.
pub edwards_ct_eq_iff :
    ⦃s : Subtle⦄ (a b : EdwardsPoint) (x1 y1 x2 y2 : ℕ)
    → IsAffine a x1 y1
    → IsAffine b x2 y2
    → (edwards_ct_eq a b ≡ true) ↔ (Congr p x1 x2 × Congr p y1 y2)
unfolding edwards_ct_eq
edwards_ct_eq_iff ⦃s⦄ a b x1 y1 x2 y2 ha hb =
    let in_x =
      cross_iff a.x a.z b.x b.z x1 x2 ha.scale hb.scale ha.unit hb.unit ha.denotes_x ha.denotes_z
        hb.denotes_x hb.denotes_z in
    let in_y =
      cross_iff a.y a.z b.y b.z y1 y2 ha.scale hb.scale ha.unit hb.unit ha.denotes_y ha.denotes_z
        hb.denotes_y hb.denotes_z in
    (λ e. (in_x.0 (ground arith), in_y.0 (ground arith)), λ c. both (in_x.1 c.0) (in_y.1 c.1))
  where
    both : {m n : Bool} → m ≡ true → n ≡ true → m && n ≡ true
    both em en = rw (em, en) refl
