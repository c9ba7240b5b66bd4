-- ===== src/Edwards/Addition.antt =====
-- About the sums and differences with a ProjectiveNielsPoint of
-- curve25519/solana-ed25519/src/backend/serial/curve_models.rs.
use ed25519_verificationtest.CurveModels.{
  EdwardsPoint, ProjectiveNielsPoint, edwards_d2, add_projective_niels, sub_projective_niels,
  niels_neg,
}
use ed25519_verificationtest.Common.{
  ℕ, ◌+◌, ◌-◌, ◌*◌, ◌^◌, refl, arith, Congr, Congr-intro, Congr-refl, Congr-symm, Congr-trans,
  Congr-of_eq, Congr-mul,
}
use ed25519_verificationtest.Field51.{FieldElement51, p, add, sub}
use ed25519_verificationtest.Edwards.{as_projective_niels}
use ed25519_verificationtest.Edwards.Denotes.{
  minus, Denotes, Denotes-mul, Denotes-add, Denotes-sub, Denotes-negate, Denotes-weaken,
  Denotes-wide, Denotes-wider, Denotes-change,
}
use ed25519_verificationtest.Edwards.Points.{
  IsAffine, IsCompleted, IsSum, IsUnit, IsUnit-mul, IsUnit-two, d,
}

-- Niels coordinates of the affine point `(x, y)`.
pub record IsNiels (b : ProjectiveNielsPoint) (x y : ℕ) : Type 0 where
  pub scale : ℕ
  pub unit : IsUnit scale
  pub denotes_plus : Denotes (2 ^ 53) b.y_plus_x (y * scale + x * scale)
  pub denotes_minus : Denotes (2 ^ 53) b.y_minus_x (y * scale + minus * (x * scale))
  pub denotes_z : Denotes (2 ^ 52) b.z scale
  pub denotes_t2d : Denotes (2 ^ 52) b.t2d (x * y * scale * (2 * d))

pub as_projective_niels-IsNiels :
    (a : EdwardsPoint) (x y : ℕ) → IsAffine a x y → IsNiels (as_projective_niels a) x y
unfolding as_projective_niels
as_projective_niels-IsNiels a x y h =
    let d2 : Denotes (2 ^ 54) edwards_d2 (2 * d) = record {
      below = record {
        b0 = omega arith;
        b1 = omega arith;
        b2 = omega arith;
        b3 = omega arith;
        b4 = omega arith;
      };
      same = record { same = refl };
    } in
    record {
      scale = h.scale;
      unit = h.unit;
      denotes_plus =
          Denotes-weaken (2 ^ 53) (Denotes-add h.denotes_y h.denotes_x (omega arith)) (omega arith);
      denotes_minus =
          Denotes-weaken (2 ^ 53)
            (Denotes-sub (Denotes-wide h.denotes_y) (Denotes-wide h.denotes_x)) (omega arith);
      denotes_z = h.denotes_z;
      denotes_t2d = Denotes-mul (Denotes-wide h.denotes_t) d2;
    }

-- The polynomials of the addition law, with minus one as a factor.
pub cross_difference :
    (x1 y1 x2 y2 s t : ℕ)
    → Congr p
        ((y1 * s + x1 * s) * (y2 * t + x2 * t)
          + minus * ((y1 * s + minus * (x1 * s)) * (y2 * t + minus * (x2 * t))))
        (2 * (s * t) * (x1 * y2 + y1 * x2))
cross_difference x1 y1 x2 y2 s t =
    Congr-intro p _ _ 0
      (s * t * (y1 * y2 + (y1 * x2 + x1 * y2) * (p - 2) + x1 * x2 * (minus * minus - minus + 1)))
      (omega arith)

pub cross_sum :
    (x1 y1 x2 y2 s t : ℕ)
    → Congr p
        ((y1 * s + x1 * s) * (y2 * t + x2 * t)
          + (y1 * s + minus * (x1 * s)) * (y2 * t + minus * (x2 * t)))
        (2 * (s * t) * (y1 * y2 + x1 * x2))
cross_sum x1 y1 x2 y2 s t =
    Congr-intro p _ _ 0 (s * t * (y1 * x2 + x1 * y2 + x1 * x2 * (p - 2))) (omega arith)

-- The four coordinates, for a scale `w` and the cross products `a` and `b` of the two points.
pub complete :
    (pp mm z t : FieldElement51) (a b w x1 y1 x2 y2 x3 y3 : ℕ)
    → IsUnit w
    → IsSum x1 y1 x2 y2 x3 y3
    → Denotes (2 ^ 52) pp a
    → Denotes (2 ^ 52) mm b
    → Congr p (a + minus * b) (2 * w * (x1 * y2 + y1 * x2))
    → Congr p (a + b) (2 * w * (y1 * y2 + x1 * x2))
    → Denotes (2 ^ 54) z (2 * w * (1 + d * (x1 * x2 * (y1 * y2))))
    → Denotes (2 ^ 54) t (2 * w * (1 + minus * (d * (x1 * x2 * (y1 * y2)))))
    → IsCompleted (record { x = sub pp mm; y = add pp mm; z = z; t = t }) x3 y3
complete pp mm z t a b w x1 y1 x2 y2 x3 y3 unit sum dp dm difference total dz dt = record {
  scale_x = 2 * w * (1 + d * (x1 * x2 * (y1 * y2)));
  scale_y = 2 * w * (1 + minus * (d * (x1 * x2 * (y1 * y2))));
  unit_x = IsUnit-mul (IsUnit-mul IsUnit-two unit) sum.unit_plus;
  unit_y = IsUnit-mul (IsUnit-mul IsUnit-two unit) sum.unit_minus;
  denotes_x =
      Denotes-change (Denotes-wide (Denotes-sub (Denotes-wide dp) (Denotes-wide dm)))
        (Congr-trans difference (scaled x3 _ _ sum.sum_x));
  denotes_y =
      Denotes-change (Denotes-wider (Denotes-add dp dm (omega arith)))
        (Congr-trans total (scaled y3 _ _ sum.sum_y));
  denotes_z = dz;
  denotes_t = dt;
}
  where
    scaled : (x e f : ℕ) → Congr p (x * e) f → Congr p (2 * w * f) (x * (2 * w * e))
    scaled x e f h =
        Congr-trans (Congr-mul (Congr-refl p (2 * w)) (Congr-symm h)) (Congr-of_eq p (omega arith))

pub add_projective_niels-IsCompleted :
    (a : EdwardsPoint) (b : ProjectiveNielsPoint) (x1 y1 x2 y2 x3 y3 : ℕ)
    → IsAffine a x1 y1
    → IsNiels b x2 y2
    → IsSum x1 y1 x2 y2 x3 y3
    → IsCompleted (add_projective_niels a b) x3 y3
unfolding add_projective_niels
add_projective_niels-IsCompleted a b x1 y1 x2 y2 x3 y3 ha hb sum =
    let plus = Denotes-wider (Denotes-add ha.denotes_y ha.denotes_x (omega arith)) in
    let less = Denotes-wide (Denotes-sub (Denotes-wide ha.denotes_y) (Denotes-wide ha.denotes_x)) in
    let pp = Denotes-mul plus (Denotes-wider hb.denotes_plus) in
    let mm = Denotes-mul less (Denotes-wider hb.denotes_minus) in
    let tt = Denotes-mul (Denotes-wide ha.denotes_t) (Denotes-wide hb.denotes_t2d) in
    let zz = Denotes-mul (Denotes-wide ha.denotes_z) (Denotes-wide hb.denotes_z) in
    let zz2 = Denotes-add zz zz (omega arith) in
    complete _ _ _ _ _ _ (ha.scale * hb.scale) x1 y1 x2 y2 x3 y3 (IsUnit-mul ha.unit hb.unit) sum pp
      mm (cross_difference x1 y1 x2 y2 ha.scale hb.scale) (cross_sum x1 y1 x2 y2 ha.scale hb.scale)
      (Denotes-change (Denotes-weaken (2 ^ 54) (Denotes-add zz2 tt (omega arith)) (omega arith))
        (Congr-of_eq p (omega arith)))
      (Denotes-change (Denotes-wide (Denotes-sub (Denotes-wider zz2) (Denotes-wide tt)))
        (Congr-of_eq p (omega arith)))

-- The factors of a point whose sign is changed.
module _ (x y t : ℕ) (plus less : FieldElement51) (dp : Denotes (2 ^ 53) plus (y * t + x * t))
    (dm : Denotes (2 ^ 53) less (y * t + minus * (x * t))) where
  pub flipped_plus : Denotes (2 ^ 53) less (y * t + minus * x * t)
  flipped_plus = Denotes-change dm (Congr-of_eq p (omega arith))

  pub flipped_minus : Denotes (2 ^ 53) plus (y * t + minus * (minus * x * t))
  flipped_minus = Denotes-change dp (Congr-intro p _ _ ((p - 2) * (x * t)) 0 (omega arith))

-- Two times the negation is nothing.
pub twice_negated : (w e : ℕ) → Congr p (2 * w + 2 * w * e) (2 * w * (1 + minus * (minus * e)))
twice_negated w e = Congr-intro p _ _ ((p - 2) * (2 * w * e)) 0 (omega arith)

pub niels_neg-IsNiels :
    (b : ProjectiveNielsPoint) (x y : ℕ) → IsNiels b x y → IsNiels (niels_neg b) (minus * x) y
unfolding niels_neg
niels_neg-IsNiels b x y h = record {
  scale = h.scale;
  unit = h.unit;
  denotes_plus = flipped_plus x y h.scale b.y_plus_x b.y_minus_x h.denotes_plus h.denotes_minus;
  denotes_minus = flipped_minus x y h.scale b.y_plus_x b.y_minus_x h.denotes_plus h.denotes_minus;
  denotes_z = h.denotes_z;
  denotes_t2d =
      Denotes-change (Denotes-negate (Denotes-wide h.denotes_t2d)) (Congr-of_eq p (omega arith));
}

pub sub_projective_niels-IsCompleted :
    (a : EdwardsPoint) (b : ProjectiveNielsPoint) (x1 y1 x2 y2 x3 y3 : ℕ)
    → IsAffine a x1 y1
    → IsNiels b x2 y2
    → IsSum x1 y1 (minus * x2) y2 x3 y3
    → IsCompleted (sub_projective_niels a b) x3 y3
unfolding sub_projective_niels
sub_projective_niels-IsCompleted a b x1 y1 x2 y2 x3 y3 ha hb sum =
    let plus = Denotes-wider (Denotes-add ha.denotes_y ha.denotes_x (omega arith)) in
    let less = Denotes-wide (Denotes-sub (Denotes-wide ha.denotes_y) (Denotes-wide ha.denotes_x)) in
    let fp = flipped_plus x2 y2 hb.scale b.y_plus_x b.y_minus_x hb.denotes_plus hb.denotes_minus in
    let fm = flipped_minus x2 y2 hb.scale b.y_plus_x b.y_minus_x hb.denotes_plus hb.denotes_minus in
    let pm = Denotes-mul plus (Denotes-wider fp) in
    let mp = Denotes-mul less (Denotes-wider fm) in
    let tt = Denotes-mul (Denotes-wide ha.denotes_t) (Denotes-wide hb.denotes_t2d) in
    let zz = Denotes-mul (Denotes-wide ha.denotes_z) (Denotes-wide hb.denotes_z) in
    let zz2 = Denotes-add zz zz (omega arith) in
    let w : ℕ = ha.scale * hb.scale in
    let e : ℕ = d * (x1 * x2 * (y1 * y2)) in
    complete _ _ _ _ _ _ w x1 y1 (minus * x2) y2 x3 y3 (IsUnit-mul ha.unit hb.unit) sum pm mp
      (cross_difference x1 y1 (minus * x2) y2 ha.scale hb.scale)
      (cross_sum x1 y1 (minus * x2) y2 ha.scale hb.scale)
      (Denotes-change (Denotes-wide (Denotes-sub (Denotes-wider zz2) (Denotes-wide tt)))
        (Congr-of_eq p (omega arith)))
      (Denotes-change (Denotes-weaken (2 ^ 54) (Denotes-add zz2 tt (omega arith)) (omega arith)) (
        Congr-trans (Congr-of_eq p (omega arith))
          (Congr-trans (twice_negated w e) (Congr-of_eq p (omega arith)))))
