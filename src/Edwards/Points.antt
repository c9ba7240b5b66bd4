-- ===== src/Edwards/Points.antt =====
-- The points that the coordinates of curve25519/solana-ed25519/src/backend/serial/curve_models.rs
-- stand for, the curve and its addition law, and about the conversions.
use ed25519_verificationtest.CurveModels.{
  EdwardsPoint, ProjectivePoint, CompletedPoint, edwards_d, completed_as_extended,
  completed_as_projective,
}
use ed25519_verificationtest.Common.{
  ℕ, ◌+◌, ◌-◌, ◌*◌, ◌^◌, refl, arith, Congr, Congr-refl, Congr-symm, Congr-trans, Congr-of_eq,
  Congr-mul,
}
use ed25519_verificationtest.Field51.{value, p}
use ed25519_verificationtest.Edwards.{as_projective}
use ed25519_verificationtest.Edwards.Denotes.{minus, Denotes, Denotes-mul, Denotes-change}

-- A number that is not zero modulo p, with its inverse.
pub record IsUnit (z : ℕ) : Type 0 where
  pub inverse : ℕ
  pub product : Congr p (z * inverse) 1

pub IsUnit-mul : {a b : ℕ} → IsUnit a → IsUnit b → IsUnit (a * b)
IsUnit-mul {a} {b} ha hb = record {
  inverse = ha.inverse * hb.inverse;
  product = Congr-trans (Congr-of_eq p (omega arith)) (Congr-mul ha.product hb.product);
}

pub IsUnit-two : IsUnit 2
IsUnit-two = record { inverse = 2 ^ 254 - 9; product = record { same = refl } }

pub IsUnit-change : {a b : ℕ} → IsUnit a → Congr p a b → IsUnit b
IsUnit-change {a} {b} ha e = record {
  inverse = ha.inverse;
  product = Congr-trans (Congr-mul (Congr-symm e) (Congr-refl p ha.inverse)) ha.product;
}

-- A factor that is not zero may be taken off.
pub cancel_unit : (u a b : ℕ) → IsUnit u → Congr p (a * u) (b * u) → Congr p a b
cancel_unit u a b unit h =
    let one = λ (x : ℕ). Congr-mul (Congr-refl p x) unit.product in
    Congr-trans (Congr-of_eq p (omega arith)) (
      Congr-trans (Congr-symm (one a)) (
        Congr-trans (Congr-of_eq p (omega arith)) (
          Congr-trans (Congr-mul h (Congr-refl p unit.inverse)) (
            Congr-trans (Congr-of_eq p (omega arith))
              (Congr-trans (one b) (Congr-of_eq p (omega arith)))))))

-- Extended coordinates of the affine point `(x, y)`.
pub record IsAffine (a : EdwardsPoint) (x y : ℕ) : Type 0 where
  pub scale : ℕ
  pub unit : IsUnit scale
  pub denotes_x : Denotes (2 ^ 52) a.x (x * scale)
  pub denotes_y : Denotes (2 ^ 52) a.y (y * scale)
  pub denotes_z : Denotes (2 ^ 52) a.z scale
  pub denotes_t : Denotes (2 ^ 52) a.t (x * y * scale)

-- Projective coordinates of it.
pub record IsProjective (a : ProjectivePoint) (x y : ℕ) : Type 0 where
  pub scale : ℕ
  pub unit : IsUnit scale
  pub denotes_x : Denotes (2 ^ 52) a.x (x * scale)
  pub denotes_y : Denotes (2 ^ 52) a.y (y * scale)
  pub denotes_z : Denotes (2 ^ 52) a.z scale

-- The coordinates of a completed point: each of `x` and `y` has its own scale.
pub record IsCompleted (a : CompletedPoint) (x y : ℕ) : Type 0 where
  pub scale_x : ℕ
  pub scale_y : ℕ
  pub unit_x : IsUnit scale_x
  pub unit_y : IsUnit scale_y
  pub denotes_x : Denotes (2 ^ 54) a.x (x * scale_x)
  pub denotes_y : Denotes (2 ^ 54) a.y (y * scale_y)
  pub denotes_z : Denotes (2 ^ 54) a.z scale_x
  pub denotes_t : Denotes (2 ^ 54) a.t scale_y

-- The number of `EDWARDS_D`, and the curve `- x^2 + y^2 = 1 + d x^2 y^2`.
abbrev pub d : ℕ
d = value edwards_d

unfoldable pub IsOnCurve : ℕ → ℕ → Type 0
IsOnCurve x y = Congr p (y * y) (x * x + 1 + d * (x * x * (y * y)))

-- `(x3, y3)` is the sum of `(x1, y1)` and `(x2, y2)` by the addition law of the curve: the
-- denominators are not zero, and the quotients are the coordinates.
pub record IsSum (x1 y1 x2 y2 x3 y3 : ℕ) : Type 0 where
  pub unit_plus : IsUnit (1 + d * (x1 * x2 * (y1 * y2)))
  pub unit_minus : IsUnit (1 + minus * (d * (x1 * x2 * (y1 * y2))))
  pub sum_x : Congr p (x3 * (1 + d * (x1 * x2 * (y1 * y2)))) (x1 * y2 + y1 * x2)
  pub sum_y : Congr p (y3 * (1 + minus * (d * (x1 * x2 * (y1 * y2))))) (y1 * y2 + x1 * x2)

pub completed_as_extended-IsAffine :
    (a : CompletedPoint) (x y : ℕ) → IsCompleted a x y → IsAffine (completed_as_extended a) x y
unfolding completed_as_extended
completed_as_extended-IsAffine a x y h = record {
  scale = h.scale_x * h.scale_y;
  unit = IsUnit-mul h.unit_x h.unit_y;
  denotes_x = Denotes-change (Denotes-mul h.denotes_x h.denotes_t) (Congr-of_eq p (omega arith));
  denotes_y = Denotes-change (Denotes-mul h.denotes_y h.denotes_z) (Congr-of_eq p (omega arith));
  denotes_z = Denotes-mul h.denotes_z h.denotes_t;
  denotes_t = Denotes-change (Denotes-mul h.denotes_x h.denotes_y) (Congr-of_eq p (omega arith));
}

pub completed_as_projective-IsProjective :
    (a : CompletedPoint) (x y : ℕ)
    → IsCompleted a x y
    → IsProjective (completed_as_projective a) x y
unfolding completed_as_projective
completed_as_projective-IsProjective a x y h = record {
  scale = h.scale_x * h.scale_y;
  unit = IsUnit-mul h.unit_x h.unit_y;
  denotes_x = Denotes-change (Denotes-mul h.denotes_x h.denotes_t) (Congr-of_eq p (omega arith));
  denotes_y = Denotes-change (Denotes-mul h.denotes_y h.denotes_z) (Congr-of_eq p (omega arith));
  denotes_z = Denotes-mul h.denotes_z h.denotes_t;
}

pub as_projective-IsProjective :
    (a : EdwardsPoint) (x y : ℕ) → IsAffine a x y → IsProjective (as_projective a) x y
unfolding as_projective
as_projective-IsProjective a x y h = record {
  scale = h.scale;
  unit = h.unit;
  denotes_x = h.denotes_x;
  denotes_y = h.denotes_y;
  denotes_z = h.denotes_z;
}
