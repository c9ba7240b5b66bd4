-- ===== src/Edwards/Mixed.antt =====
-- About the sums and differences with an AffineNielsPoint of
-- curve25519/solana-ed25519/src/backend/serial/curve_models.rs.
use ed25519_verificationtest.CurveModels.{
  EdwardsPoint, AffineNielsPoint, add_affine_niels, sub_affine_niels, affine_niels_neg,
}
use ed25519_verificationtest.Common.{ℕ, ◌+◌, ◌*◌, ◌^◌, arith, Congr, Congr-trans, Congr-of_eq}
use ed25519_verificationtest.Field51.{p, add, sub, mul}
use ed25519_verificationtest.Edwards.Denotes.{
  minus, Denotes, Denotes-mul, Denotes-add, Denotes-sub, Denotes-negate, Denotes-weaken,
  Denotes-wide, Denotes-wider, Denotes-change,
}
use ed25519_verificationtest.Edwards.Points.{IsAffine, IsCompleted, IsSum, d}
use ed25519_verificationtest.Edwards.Addition.{
  cross_difference, cross_sum, complete, flipped_plus, flipped_minus, twice_negated,
}

-- Niels coordinates of `(x, y)` with scale one.
pub record IsAffineNiels (b : AffineNielsPoint) (x y : ℕ) : Type 0 where
  pub denotes_plus : Denotes (2 ^ 53) b.y_plus_x (y * 1 + x * 1)
  pub denotes_minus : Denotes (2 ^ 53) b.y_minus_x (y * 1 + minus * (x * 1))
  pub denotes_xy2d : Denotes (2 ^ 52) b.xy2d (x * y * (2 * d))

pub affine_niels_neg-IsAffineNiels :
    (b : AffineNielsPoint) (x y : ℕ)
    → IsAffineNiels b x y
    → IsAffineNiels (affine_niels_neg b) (minus * x) y
unfolding affine_niels_neg
affine_niels_neg-IsAffineNiels b x y h = record {
  denotes_plus = flipped_plus x y 1 b.y_plus_x b.y_minus_x h.denotes_plus h.denotes_minus;
  denotes_minus = flipped_minus x y 1 b.y_plus_x b.y_minus_x h.denotes_plus h.denotes_minus;
  denotes_xy2d =
      Denotes-change (Denotes-negate (Denotes-wide h.denotes_xy2d)) (Congr-of_eq p (omega arith));
}

module _ (a : EdwardsPoint) (b : AffineNielsPoint) (x1 y1 x2 y2 x3 y3 : ℕ) (ha : IsAffine a x1 y1)
    (hb : IsAffineNiels b x2 y2) where
  plus : Denotes (2 ^ 54) (add a.y a.x) (y1 * ha.scale + x1 * ha.scale)
  plus = Denotes-wider (Denotes-add ha.denotes_y ha.denotes_x (omega arith))

  less : Denotes (2 ^ 54) (sub a.y a.x) (y1 * ha.scale + minus * (x1 * ha.scale))
  less = Denotes-wide (Denotes-sub (Denotes-wide ha.denotes_y) (Denotes-wide ha.denotes_x))

  tt : Denotes (2 ^ 52) (mul a.t b.xy2d) (x1 * y1 * ha.scale * (x2 * y2 * (2 * d)))
  tt = Denotes-mul (Denotes-wide ha.denotes_t) (Denotes-wide hb.denotes_xy2d)

  z2 : Denotes (2 ^ 53) (add a.z a.z) (ha.scale + ha.scale)
  z2 = Denotes-add ha.denotes_z ha.denotes_z (omega arith)

  one_scale : (e : ℕ) → Congr p (2 * (ha.scale * 1) * e) (2 * ha.scale * e)
  one_scale e = Congr-of_eq p (omega arith)

  pub add_affine_niels-IsCompleted :
      IsSum x1 y1 x2 y2 x3 y3 → IsCompleted (add_affine_niels a b) x3 y3
  unfolding add_affine_niels
  add_affine_niels-IsCompleted sum =
      complete _ _ _ _ _ _ ha.scale x1 y1 x2 y2 x3 y3 ha.unit sum
        (Denotes-mul plus (Denotes-wider hb.denotes_plus))
        (Denotes-mul less (Denotes-wider hb.denotes_minus))
        (Congr-trans (cross_difference x1 y1 x2 y2 ha.scale 1) (one_scale _))
        (Congr-trans (cross_sum x1 y1 x2 y2 ha.scale 1) (one_scale _))
        (Denotes-change (Denotes-weaken (2 ^ 54) (Denotes-add z2 tt (omega arith)) (omega arith))
          (Congr-of_eq p (omega arith)))
        (Denotes-change (Denotes-wide (Denotes-sub (Denotes-wider z2) (Denotes-wide tt)))
          (Congr-of_eq p (omega arith)))

  pub sub_affine_niels-IsCompleted :
      IsSum x1 y1 (minus * x2) y2 x3 y3 → IsCompleted (sub_affine_niels a b) x3 y3
  unfolding sub_affine_niels
  sub_affine_niels-IsCompleted sum =
      let fp = flipped_plus x2 y2 1 b.y_plus_x b.y_minus_x hb.denotes_plus hb.denotes_minus in
      let fm = flipped_minus x2 y2 1 b.y_plus_x b.y_minus_x hb.denotes_plus hb.denotes_minus in
      let e : ℕ = d * (x1 * x2 * (y1 * y2)) in
      complete _ _ _ _ _ _ ha.scale x1 y1 (minus * x2) y2 x3 y3 ha.unit sum
        (Denotes-mul plus (Denotes-wider fp)) (Denotes-mul less (Denotes-wider fm))
        (Congr-trans (cross_difference x1 y1 (minus * x2) y2 ha.scale 1) (one_scale _))
        (Congr-trans (cross_sum x1 y1 (minus * x2) y2 ha.scale 1) (one_scale _))
        (Denotes-change (Denotes-wide (Denotes-sub (Denotes-wider z2) (Denotes-wide tt)))
          (Congr-of_eq p (omega arith)))
        (Denotes-change (Denotes-weaken (2 ^ 54) (Denotes-add z2 tt (omega arith)) (omega arith)) (
          Congr-trans (Congr-of_eq p (omega arith))
            (Congr-trans (twice_negated ha.scale e) (Congr-of_eq p (omega arith)))))
