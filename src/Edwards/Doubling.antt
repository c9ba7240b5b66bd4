-- ===== src/Edwards/Doubling.antt =====
-- About `double` of curve25519/solana-ed25519/src/backend/serial/curve_models.rs, and `double` and
-- `mul_by_pow_2` of curve25519/solana-ed25519/src/edwards.rs.
use ed25519_verificationtest.CurveModels.{EdwardsPoint, ProjectivePoint, projective_double}
use ed25519_verificationtest.Common.{
  ℕ, zero, suc, ◌+◌, ◌*◌, arith, Congr, Congr-intro, Congr-refl, Congr-symm, Congr-trans,
  Congr-of_eq, Congr-add, Congr-mul,
}
use ed25519_verificationtest.Field51.{p}
use ed25519_verificationtest.Edwards.{edwards_double, doublings, mul_by_pow_2, as_projective}
use ed25519_verificationtest.Edwards.Denotes.{
  minus, Denotes-square, Denotes-square2, Denotes-add, Denotes-sub, Denotes-wide, Denotes-wider,
  Denotes-change,
}
use ed25519_verificationtest.Edwards.Points.{
  IsAffine, IsProjective, IsCompleted, IsSum, IsUnit-mul, d, IsOnCurve,
  completed_as_extended-IsAffine, completed_as_projective-IsProjective, as_projective-IsProjective,
}

-- One doubling: from a point of the curve to its sum with itself.
pub record IsDouble (x y x2 y2 : ℕ) : Type 0 where
  pub curve : IsOnCurve x y
  pub sum : IsSum x y x y x2 y2

-- `k` doublings, one after the other.
pub data Doublings : ℕ → ℕ → ℕ → ℕ → ℕ → Type 0 where
  none : {x y : ℕ} → Doublings 0 x y x y
  more :
      {k x y x2 y2 x3 y3 : ℕ}
      → IsDouble x y x2 y2
      → Doublings k x2 y2 x3 y3
      → Doublings (suc k) x y x3 y3

pub projective_double-IsCompleted :
    (a : ProjectivePoint) (x y x2 y2 : ℕ)
    → IsProjective a x y
    → IsDouble x y x2 y2
    → IsCompleted (projective_double a) x2 y2
unfolding projective_double IsOnCurve
projective_double-IsCompleted a x y x2 y2 h double =
    let z : ℕ = h.scale in
    let sum = double.sum in
    let xx = Denotes-square (Denotes-wide h.denotes_x) in
    let yy = Denotes-square (Denotes-wide h.denotes_y) in
    let zz2 = Denotes-square2 (Denotes-wide h.denotes_z) in
    let plus = Denotes-add h.denotes_x h.denotes_y (omega arith) in
    let sq = Denotes-square (Denotes-wider plus) in
    let total = Denotes-add yy xx (omega arith) in
    let less = Denotes-sub (Denotes-wide yy) (Denotes-wide xx) in
    let e : ℕ = d * (x * x * (y * y)) in
    -- On the curve `y^2 - x^2` is `1 + d x^2 y^2`.
    let denominator : Congr p (y * z * (y * z) + minus * (x * z * (x * z))) (z * z * (1 + e)) =
      Congr-trans (Congr-of_eq p (omega arith)) (
        Congr-trans
          (Congr-add (Congr-mul (Congr-refl p (z * z)) double.curve)
            (Congr-refl p (minus * (x * z * (x * z)))))
          (Congr-intro p _ _ 0 (z * z * (x * x)) (omega arith))) in
    let scaled = λ (u v : ℕ) (c : Congr p u v). Congr-mul (Congr-refl p (z * z)) (Congr-symm c) in
    record {
      scale_x = z * z * (1 + e);
      scale_y = z * z * (1 + minus * e);
      unit_x = IsUnit-mul (IsUnit-mul h.unit h.unit) sum.unit_plus;
      unit_y = IsUnit-mul (IsUnit-mul h.unit h.unit) sum.unit_minus;
      denotes_x =
          Denotes-change (Denotes-wide (Denotes-sub (Denotes-wide sq) (Denotes-wider total))) (
            Congr-trans (Congr-intro p _ _ 0 (z * z * (x * x + y * y)) (omega arith))
              (Congr-trans (scaled _ _ sum.sum_x) (Congr-of_eq p (omega arith))));
      denotes_y = Denotes-change (Denotes-wider total) (
          Congr-trans (Congr-of_eq p (omega arith))
            (Congr-trans (scaled _ _ sum.sum_y) (Congr-of_eq p (omega arith))));
      denotes_z = Denotes-change (Denotes-wide less) denominator;
      denotes_t =
          Denotes-change (Denotes-wide (Denotes-sub (Denotes-wider zz2) (Denotes-wide less))) (
            Congr-trans
              (Congr-add (Congr-refl p (2 * (z * z))) (Congr-mul (Congr-refl p minus) denominator))
              (Congr-intro p _ _ 0 (z * z) (omega arith)));
    }

doublings-IsProjective :
    (k : ℕ) (a : ProjectivePoint) (x y x2 y2 : ℕ)
    → IsProjective a x y
    → Doublings k x y x2 y2
    → IsProjective (doublings k a) x2 y2
unfolding doublings
doublings-IsProjective zero a x y x2 y2 h none = h
doublings-IsProjective (suc k) a x y x2 y2 h (more {x2 = u} {y2 = v} double rest) =
    doublings-IsProjective k _ u v x2 y2
      (completed_as_projective-IsProjective _ u v
        (projective_double-IsCompleted a x y u v h double))
      rest

-- For a point of the curve and `k` doublings by the addition law with one more after them,
-- `mul_by_pow_2` by `k + 1` stands for the last of these points.
pub mul_by_pow_2-IsAffine :
    (a : EdwardsPoint) (k x y x2 y2 x3 y3 : ℕ)
    → IsAffine a x y
    → Doublings k x y x2 y2
    → IsDouble x2 y2 x3 y3
    → IsAffine (mul_by_pow_2 a (suc k)) x3 y3
unfolding mul_by_pow_2
mul_by_pow_2-IsAffine a k x y x2 y2 x3 y3 h before last = completed_as_extended-IsAffine _ x3 y3 (
    projective_double-IsCompleted _ x2 y2 x3 y3
      (doublings-IsProjective k (as_projective a) x y x2 y2 (as_projective-IsProjective a x y h)
        before)
      last)

pub edwards_double-IsAffine :
    (a : EdwardsPoint) (x y x2 y2 : ℕ)
    → IsAffine a x y
    → IsDouble x y x2 y2
    → IsAffine (edwards_double a) x2 y2
unfolding edwards_double
edwards_double-IsAffine a x y x2 y2 h double = completed_as_extended-IsAffine _ x2 y2 (
    projective_double-IsCompleted (as_projective a) x y x2 y2 (as_projective-IsProjective a x y h)
      double)
