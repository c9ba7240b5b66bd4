-- ===== src/Edwards/Closure.antt =====
-- The addition law of the curve of curve25519/solana-ed25519/src/edwards.rs keeps to the curve.
use ed25519_verificationtest.Common.{
  ℕ, ◌+◌, ◌-◌, ◌*◌, ◌≡◌, arith, Congr, Congr-intro, Congr-refl, Congr-symm, Congr-trans,
  Congr-of_eq, Congr-add, Congr-mul, Congr-cancel,
}
use ed25519_verificationtest.Field51.{p}
use ed25519_verificationtest.Edwards.Denotes.{minus}
use ed25519_verificationtest.Edwards.Points.{IsSum, IsUnit-mul, d, IsOnCurve, cancel_unit}

-- The same in terms of the squares `a = x^2` and `b = y^2`, and of `1 + d x^2 y^2`.
square_of_sum : (a b s : ℕ) → Congr p b (a + s) → Congr p ((b + a) * (b + a)) (4 * (a * b) + s * s)
square_of_sum a b s h =
    let double = Congr-add h (Congr-refl p a) in
    Congr-trans (Congr-mul double double) (
      Congr-trans (Congr-of_eq p (omega arith)) (
        Congr-trans
          (Congr-add (Congr-mul (Congr-refl p (4 * a)) (Congr-symm h)) (Congr-refl p (s * s)))
          (Congr-of_eq p (omega arith))))

-- The numerators of the addition law.
numerators :
    (x1 y1 x2 y2 s1 s2 : ℕ)
    → Congr p (y1 * y1) (x1 * x1 + s1)
    → Congr p (y2 * y2) (x2 * x2 + s2)
    → Congr p
        ((y1 * y2 + x1 * x2) * (y1 * y2 + x1 * x2))
        ((x1 * y2 + y1 * x2) * (x1 * y2 + y1 * x2) + s1 * s2)
numerators x1 y1 x2 y2 s1 s2 h1 h2 =
    let m : ℕ = x1 * x1 * (x2 * x2) + 2 * (x1 * x2 * (y1 * y2)) in
    let product = Congr-add (Congr-mul h1 h2) (Congr-refl p m) in
    let first = Congr-mul (Congr-refl p (x1 * x1)) (Congr-symm h2) in
    let second = Congr-mul (Congr-symm h1) (Congr-refl p (x2 * x2)) in
    let rest = Congr-refl p (2 * (x1 * x2 * (y1 * y2)) + s1 * s2) in
    Congr-trans (Congr-of_eq p (omega arith)) (
      Congr-trans product (
        Congr-trans (Congr-of_eq p (omega arith))
          (Congr-trans (Congr-add (Congr-add first second) rest) (Congr-of_eq p (omega arith)))))

-- `(1 - e)^2 + 2 e` is `1 + e^2`.
square_of_minus : (e : ℕ) → Congr p ((1 + minus * e) * (1 + minus * e) + 2 * e) (1 + e * e)
square_of_minus e = Congr-intro p _ _ 0 (2 * e + (p - 2) * (e * e)) (omega arith)

product_of_denominators : (e : ℕ) → Congr p ((1 + e) * (1 + minus * e)) (1 + minus * (e * e))
product_of_denominators e = Congr-intro p _ _ 0 e (omega arith)

module _ (x1 y1 x2 y2 : ℕ) (c1 : IsOnCurve x1 y1) (c2 : IsOnCurve x2 y2) where
  abbrev a1 : ℕ
  a1 = x1 * x1

  abbrev b1 : ℕ
  b1 = y1 * y1

  abbrev a2 : ℕ
  a2 = x2 * x2

  abbrev b2 : ℕ
  b2 = y2 * y2

  abbrev s1 : ℕ
  s1 = 1 + d * (a1 * b1)

  abbrev s2 : ℕ
  s2 = 1 + d * (a2 * b2)

  abbrev top_x : ℕ
  top_x = x1 * y2 + y1 * x2

  abbrev top_y : ℕ
  top_y = y1 * y2 + x1 * x2

  abbrev e : ℕ
  e = d * (x1 * x2 * (y1 * y2))

  shape1 : Congr p b1 (a1 + s1)
  unfolding IsOnCurve
  shape1 = Congr-trans c1 (Congr-of_eq p (omega arith))

  shape2 : Congr p b2 (a2 + s2)
  unfolding IsOnCurve
  shape2 = Congr-trans c2 (Congr-of_eq p (omega arith))

  core :
      Congr p (top_y * top_y * ((1 + e) * (1 + e)) + (2 * e * (top_x * top_x) + 2 * (e * e))) (
        top_x * top_x * (1 + e * e) + (1 + e * e * (e * e)) + d * (top_x * top_x * (top_y * top_y)))
  core =
      let m : ℕ = x1 * x2 * (y1 * y2) in
      let sums : ℕ = (b1 + a1) * (b2 + a2) in
      let left =
        Congr-add
          (Congr-mul (numerators x1 y1 x2 y2 s1 s2 shape1 shape2) (Congr-refl p (1 + e * e)))
          (Congr-refl p (2 * e * (sums + 4 * m) + 2 * (e * e))) in
      let right =
        Congr-add
          (Congr-refl p (top_x * top_x * (1 + e * e) + (1 + e * e * (e * e)) + 2 * e * sums))
          (Congr-add (Congr-mul (Congr-refl p (d * (a1 * b1))) (square_of_sum a2 b2 s2 shape2))
            (Congr-mul (Congr-refl p (d * (a2 * b2))) (square_of_sum a1 b1 s1 shape1))) in
      Congr-trans (Congr-of_eq p (omega arith)) (
        Congr-trans left (
          Congr-trans (Congr-of_eq p (omega arith))
            (Congr-trans (Congr-symm right) (Congr-of_eq p (omega arith)))))

  -- The equation of the curve with both denominators multiplied out.
  cleared : Congr p (top_y * top_y * ((1 + e) * (1 + e))) (
      top_x * top_x * ((1 + minus * e) * (1 + minus * e))
      + (1 + e) * (1 + minus * e) * ((1 + e) * (1 + minus * e))
      + d * (top_x * top_x * (top_y * top_y)))
  cleared =
      let n : ℕ = (1 + minus * e) * (1 + minus * e) in
      let f : ℕ = (1 + e) * (1 + minus * e) in
      let rest : ℕ = d * (top_x * top_x * (top_y * top_y)) in
      let first = Congr-mul (Congr-refl p (top_x * top_x)) (square_of_minus e) in
      let second =
        Congr-trans
          (Congr-add (Congr-mul (product_of_denominators e) (product_of_denominators e))
            (Congr-refl p (2 * (e * e))))
          (square_of_minus (e * e)) in
      let both = Congr-add (Congr-add first second) (Congr-refl p rest) in
      Congr-cancel p _ _ (2 * e * (top_x * top_x) + 2 * (e * e)) (
        Congr-trans core
          (Congr-trans (Congr-symm both) (Congr-of_eq p (regroup (top_x * top_x) n f rest e))))
    where
      regroup :
          (a n f g c : ℕ)
          → a * (n + 2 * c) + (f * f + 2 * (c * c)) + g
            ≡ a * n + f * f + g + (2 * c * a + 2 * (c * c))
      regroup a n f g c = omega arith

  pub sum-IsOnCurve : (x3 y3 : ℕ) → IsSum x1 y1 x2 y2 x3 y3 → IsOnCurve x3 y3
  unfolding IsOnCurve
  sum-IsOnCurve x3 y3 h =
      let below : ℕ = 1 + e in
      let above : ℕ = 1 + minus * e in
      let unit =
        IsUnit-mul (IsUnit-mul h.unit_plus h.unit_plus) (IsUnit-mul h.unit_minus h.unit_minus) in
      let xs = Congr-mul h.sum_x h.sum_x in
      let ys = Congr-mul h.sum_y h.sum_y in
      let left = Congr-mul ys (Congr-refl p (below * below)) in
      let right =
        Congr-add
          (Congr-add (Congr-mul xs (Congr-refl p (above * above)))
            (Congr-refl p (below * above * (below * above))))
          (Congr-mul (Congr-refl p d) (Congr-mul xs ys)) in
      cancel_unit (below * below * (above * above)) _ _ unit (
        Congr-trans (Congr-of_eq p (spread_left x3 y3 below above)) (
          Congr-trans left (
            Congr-trans cleared
              (Congr-trans (Congr-symm right) (Congr-of_eq p (spread_right x3 y3 below above))))))
    where
      spread_left : (x y b a : ℕ) → y * y * (b * b * (a * a)) ≡ y * a * (y * a) * (b * b)
      spread_left x y b a = omega arith

      spread_right :
          (x y b a : ℕ)
          → x * b * (x * b) * (a * a) + b * a * (b * a) + d * (x * b * (x * b) * (y * a * (y * a)))
            ≡ (x * x + 1 + d * (x * x * (y * y))) * (b * b * (a * a))
      spread_right x y b a = omega arith
