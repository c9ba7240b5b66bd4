-- ===== src/Edwards/Validity.antt =====
-- About `is_valid` of curve25519/solana-ed25519/src/edwards.rs.
use ed25519_verificationtest.CurveModels.{EdwardsPoint, edwards_d, projective_is_valid}
use ed25519_verificationtest.Common.{
  ℕ, ◌+◌, ◌*◌, ◌^◌, ◌≡◌, refl, sym, arith, Congr, Congr-intro, Congr-refl, Congr-symm, Congr-trans,
  Congr-of_eq, Congr-add, Congr-mul, Congr-cancel, Bool, true, Subtle, ◌&&◌, ◌↔◌,
}
use ed25519_verificationtest.Field51.{p, value, IsBelow}
use ed25519_verificationtest.Field.Sign.{ct_eq_iff}
use ed25519_verificationtest.Edwards.{edwards_is_valid, as_projective, edwards_add}
use ed25519_verificationtest.Edwards.Law.{edwards_add-IsAffine}
use ed25519_verificationtest.Edwards.Closure.{sum-IsOnCurve}
use ed25519_verificationtest.Edwards.Denotes.{
  minus, Denotes, Denotes-mul, Denotes-square, Denotes-add, Denotes-sub, Denotes-wide,
  Denotes-weaken,
}
use ed25519_verificationtest.Edwards.Points.{
  IsAffine, IsProjective, IsUnit-mul, cancel_unit, d, IsOnCurve, IsSum,
}

-- If X, Y and Z are projective coordinates of an affine point, and T is any element with limbs
-- below 2^52, then `edwards_is_valid` answers true exactly if the point lies on the curve and T
-- stands for the product of its two coordinates and the scale.
pub edwards_is_valid_iff :
    ⦃s : Subtle⦄ (a : EdwardsPoint) (x y : ℕ)
    → (h : IsProjective (as_projective a) x y) → IsBelow (2 ^ 52) a.t
    → (edwards_is_valid a ≡ true) ↔ (IsOnCurve x y × Congr p (value a.t) (x * y * h.scale))
unfolding edwards_is_valid projective_is_valid as_projective IsOnCurve
edwards_is_valid_iff ⦃s⦄ a x y h below =
    let z : ℕ = h.scale in
    let xx = Denotes-square (Denotes-wide h.denotes_x) in
    let yy = Denotes-square (Denotes-wide h.denotes_y) in
    let zz = Denotes-square (Denotes-wide h.denotes_z) in
    let zzzz = Denotes-square (Denotes-wide zz) in
    let d_denotes : Denotes (2 ^ 54) edwards_d d = record {
      below = omega arith;
      same = Congr-refl p d;
    } in
    let lhs =
      Denotes-mul (Denotes-wide (Denotes-sub (Denotes-wide yy) (Denotes-wide xx)))
        (Denotes-wide zz) in
    let xxyy = Denotes-mul (Denotes-wide xx) (Denotes-wide yy) in
    let rhs = Denotes-add zzzz (Denotes-mul d_denotes (Denotes-wide xxyy)) (omega arith) in
    let xy = Denotes-mul (Denotes-wide h.denotes_x) (Denotes-wide h.denotes_y) in
    let t_denotes : Denotes (2 ^ 52) a.t (value a.t) = record {
      below = below;
      same = Congr-refl p (value a.t);
    } in
    let zt = Denotes-mul (Denotes-wide h.denotes_z) (Denotes-wide t_denotes) in
    let curve =
      ct_eq_iff _ _ (Denotes-weaken (2 ^ 64) lhs (omega arith)).below
        (Denotes-weaken (2 ^ 64) rhs (omega arith)).below in
    let segre =
      ct_eq_iff _ _ (Denotes-weaken (2 ^ 64) xy (omega arith)).below
        (Denotes-weaken (2 ^ 64) zt (omega arith)).below in
    -- Both sides are the equation times the fourth power of the scale.
    let left : Congr p
        ((y * z * (y * z) + minus * (x * z * (x * z))) * (z * z) + x * x * (z * z * (z * z)))
        (y * y * (z * z * (z * z))) =
      Congr-intro p _ _ 0 (x * x * (z * z * (z * z))) (omega arith) in
    let right : z * z * (z * z)
          + d * (x * z * (x * z) * (y * z * (y * z)))
          + x * x * (z * z * (z * z))
        ≡ (x * x + 1 + d * (x * x * (y * y))) * (z * z * (z * z)) =
      omega arith in
    let unit = IsUnit-mul (IsUnit-mul h.unit h.unit) (IsUnit-mul h.unit h.unit) in
    (
      λ e. (
        let equal =
              Congr-trans (Congr-symm lhs.same) (Congr-trans (curve.0 (ground arith)) rhs.same) in
            cancel_unit (z * z * (z * z)) _ _ unit (
              Congr-trans (Congr-symm left) (
                Congr-trans (Congr-add equal (Congr-refl p (x * x * (z * z * (z * z)))))
                  (Congr-of_eq p right))),
        cancel_unit z _ _ h.unit (
            Congr-trans (Congr-of_eq p (omega arith)) (
              Congr-trans (Congr-symm zt.same) (
                Congr-trans (Congr-symm (segre.0 (ground arith)))
                  (Congr-trans xy.same (Congr-of_eq p (omega arith)))))),
      ),
      λ c.
          both
            (curve.1 (
              Congr-trans lhs.same (
                Congr-trans
                  (Congr-cancel p _ _ (x * x * (z * z * (z * z))) (
                    Congr-trans left (
                      Congr-trans (Congr-mul c.0 (Congr-refl p (z * z * (z * z))))
                        (Congr-of_eq p (sym right)))))
                  (Congr-symm rhs.same))))
            (segre.1 (
              Congr-trans xy.same (
                Congr-trans (Congr-of_eq p (omega arith)) (
                  Congr-trans (Congr-mul (Congr-refl p z) (Congr-symm c.1))
                    (Congr-symm zt.same))))),
    )
  where
    both : {m n : Bool} → m ≡ true → n ≡ true → m && n ≡ true
    both em en = rw (em, en) refl

-- In extended coordinates of an affine point the last coordinate is right.
pub edwards_is_valid-IsAffine :
    ⦃s : Subtle⦄ (a : EdwardsPoint) (x y : ℕ)
    → IsAffine a x y
    → (edwards_is_valid a ≡ true) ↔ IsOnCurve x y
unfolding as_projective
edwards_is_valid-IsAffine a x y h =
    let flat : IsProjective (as_projective a) x y = record {
      scale = h.scale;
      unit = h.unit;
      denotes_x = h.denotes_x;
      denotes_y = h.denotes_y;
      denotes_z = h.denotes_z;
    } in
    let decided = edwards_is_valid_iff a x y flat h.denotes_t.below in
    (λ e. (decided.0 e).0, λ c. decided.1 (c, h.denotes_t.same))

-- If `edwards_is_valid` accepts two points, each in extended coordinates of an affine point, and
-- the addition law has a sum for them, it accepts the result of `edwards_add`.
pub edwards_add-edwards_is_valid :
    ⦃s : Subtle⦄ (a b : EdwardsPoint) (x1 y1 x2 y2 x3 y3 : ℕ)
    → IsAffine a x1 y1
    → IsAffine b x2 y2
    → edwards_is_valid a ≡ true
    → edwards_is_valid b ≡ true
    → IsSum x1 y1 x2 y2 x3 y3
    → edwards_is_valid (edwards_add a b) ≡ true
edwards_add-edwards_is_valid a b x1 y1 x2 y2 x3 y3 ha hb valid_a valid_b sum =
    let on_a = (edwards_is_valid-IsAffine a x1 y1 ha).0 valid_a in
    let on_b = (edwards_is_valid-IsAffine b x2 y2 hb).0 valid_b in
    let affine = edwards_add-IsAffine a b x1 y1 x2 y2 x3 y3 ha hb sum in
    (edwards_is_valid-IsAffine (edwards_add a b) x3 y3 affine).1
      (sum-IsOnCurve x1 y1 x2 y2 on_a on_b x3 y3 sum)
