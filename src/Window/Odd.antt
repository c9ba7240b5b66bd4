-- ===== src/Window/Odd.antt =====
-- The combinations of two points, and about the tables of odd multiples of
-- curve25519/solana-ed25519/src/window.rs.
use ed25519_verificationtest.Common.{
  ℕ, zero, suc, ◌+◌, ◌*◌, ◌<◌, ◌≡◌, refl, subst, arith, List, [], ◌∷◌, length, get_or, Congr,
  Congr-refl, Congr-trans, Congr-mul, Congr-add,
}
use ed25519_verificationtest.Field51.{p}
use ed25519_verificationtest.CurveModels.{
  EdwardsPoint, ProjectiveNielsPoint, AffineNielsPoint, add_projective_niels, completed_as_extended,
}
use ed25519_verificationtest.Edwards.{as_projective_niels, edwards_double}
use ed25519_verificationtest.Edwards.Denotes.{minus}
use ed25519_verificationtest.Edwards.Points.{
  IsAffine, IsSum, IsOnCurve, IsUnit-change, d, completed_as_extended-IsAffine,
}
use ed25519_verificationtest.Edwards.Addition.{
  IsNiels, as_projective_niels-IsNiels, add_projective_niels-IsCompleted,
}
use ed25519_verificationtest.Edwards.Mixed.{IsAffineNiels}
use ed25519_verificationtest.Edwards.Doubling.{edwards_double-IsAffine}
use ed25519_verificationtest.Window.{naf_table_loop, naf_lookup_table5}
use ed25519_verificationtest.Common.{Congr-symm}
use ed25519_verificationtest.Common.{Congr-of_eq}
use ed25519_verificationtest.Edwards.Denotes.{Denotes-change}

-- The combinations of two points of the curve: `(mx a b c e, my a b c e)` stands for `a - b` times
-- the first and `c - e` times the second.
pub record IsCombinations (mx my : ℕ → ℕ → ℕ → ℕ → ℕ) : Type 0 where
  pub nothing_x : Congr p (mx 0 0 0 0) 0
  pub nothing_y : Congr p (my 0 0 0 0) 1
  pub curve : (a b c e : ℕ) → IsOnCurve (mx a b c e) (my a b c e)
  pub sum :
      (a b c e i j k l : ℕ)
      → IsSum
          (mx a b c e)
          (my a b c e)
          (mx i j k l)
          (my i j k l)
          (mx (a + i) (b + j) (c + k) (e + l))
          (my (a + i) (b + j) (c + k) (e + l))
  pub opposite_x : (a b c e : ℕ) → Congr p (minus * mx a b c e) (mx b a e c)
  pub opposite_y : (a b c e : ℕ) → Congr p (my a b c e) (my b a e c)
  pub same_x : (a b c e k l : ℕ) → a ≡ k + b → c ≡ l + e → Congr p (mx a b c e) (mx k 0 l 0)
  pub same_y : (a b c e k l : ℕ) → a ≡ k + b → c ≡ l + e → Congr p (my a b c e) (my k 0 l 0)

-- The addition law looks at residues only.
pub IsSum-change :
    {x1 y1 x2 y2 u v x3 y3 : ℕ}
    → IsSum x1 y1 x2 y2 x3 y3
    → Congr p x2 u
    → Congr p y2 v
    → IsSum x1 y1 u v x3 y3
IsSum-change {x1} {y1} {x2} {y2} {u} {v} {x3} {y3} h cx cy =
    let product =
      Congr-mul (Congr-refl p d)
        (Congr-mul (Congr-mul (Congr-refl p x1) cx) (Congr-mul (Congr-refl p y1) cy)) in
    let plus = Congr-add (Congr-refl p 1) product in
    let less = Congr-add (Congr-refl p 1) (Congr-mul (Congr-refl p minus) product) in
    record {
      unit_plus = IsUnit-change h.unit_plus plus;
      unit_minus = IsUnit-change h.unit_minus less;
      sum_x = Congr-trans (Congr-mul (Congr-refl p x3) (Congr-symm plus)) (
          Congr-trans h.sum_x
            (Congr-add (Congr-mul (Congr-refl p x1) cy) (Congr-mul (Congr-refl p y1) cx)));
      sum_y = Congr-trans (Congr-mul (Congr-refl p y3) (Congr-symm less)) (
          Congr-trans h.sum_y
            (Congr-add (Congr-mul (Congr-refl p y1) cy) (Congr-mul (Congr-refl p x1) cx)));
    }

pub IsSum-swap : {x1 y1 x2 y2 x3 y3 : ℕ} → IsSum x1 y1 x2 y2 x3 y3 → IsSum x2 y2 x1 y1 x3 y3
IsSum-swap {x1} {y1} {x2} {y2} {x3} {y3} h = record {
  unit_plus = IsUnit-change h.unit_plus (Congr-of_eq p (omega arith));
  unit_minus = IsUnit-change h.unit_minus (Congr-of_eq p (omega arith));
  sum_x =
      Congr-trans (Congr-of_eq p (omega arith)) (Congr-trans h.sum_x (Congr-of_eq p (omega arith)));
  sum_y =
      Congr-trans (Congr-of_eq p (omega arith)) (Congr-trans h.sum_y (Congr-of_eq p (omega arith)));
}

pub IsAffineNiels-change :
    {b : AffineNielsPoint} {x y u v : ℕ}
    → IsAffineNiels b x y
    → Congr p x u
    → Congr p y v
    → IsAffineNiels b u v
IsAffineNiels-change h cx cy =
    let x_scaled = Congr-mul cx (Congr-refl p 1) in
    let y_scaled = Congr-mul cy (Congr-refl p 1) in
    record {
      denotes_plus = Denotes-change h.denotes_plus (Congr-add y_scaled x_scaled);
      denotes_minus =
          Denotes-change h.denotes_minus
            (Congr-add y_scaled (Congr-mul (Congr-refl p minus) x_scaled));
      denotes_xy2d = Denotes-change h.denotes_xy2d (Congr-mul (Congr-mul cx cy) (Congr-refl p _));
    }

-- Tables of odd multiples, the first entry by `j`.
abbrev pub IsOddTable : (ℕ → ℕ) → (ℕ → ℕ) → ℕ → List ProjectiveNielsPoint → Type 0
IsOddTable mx my j [] = Unit
IsOddTable mx my j (point ∷ points) = IsNiels point (mx j) (my j) × IsOddTable mx my (2 + j) points

abbrev pub IsOddAffineTable : (ℕ → ℕ) → (ℕ → ℕ) → ℕ → List AffineNielsPoint → Type 0
IsOddAffineTable mx my j [] = Unit
IsOddAffineTable mx my j (point ∷ points) =
    IsAffineNiels point (mx j) (my j) × IsOddAffineTable mx my (2 + j) points

pub odd_entry :
    (mx my : ℕ → ℕ) (j i : ℕ) (points : List ProjectiveNielsPoint) (default : ProjectiveNielsPoint)
    → IsOddTable mx my j points
    → i < length points
    → IsNiels (get_or points i default) (mx (2 * i + j)) (my (2 * i + j))
odd_entry mx my j i [] default table lt = absurd (omega (arith, lt))
odd_entry mx my j zero (point ∷ points) default table lt =
    subst (λ (k : ℕ). IsNiels point (mx k) (my k)) (omega arith) table.0
odd_entry mx my j (suc i) (point ∷ points) default table lt =
    subst (λ (k : ℕ). IsNiels (get_or points i default) (mx k) (my k)) (omega arith)
      (odd_entry mx my (2 + j) i points default table.1 (omega (arith, lt)))

pub odd_affine_entry :
    (mx my : ℕ → ℕ) (j i : ℕ) (points : List AffineNielsPoint) (default : AffineNielsPoint)
    → IsOddAffineTable mx my j points
    → i < length points
    → IsAffineNiels (get_or points i default) (mx (2 * i + j)) (my (2 * i + j))
odd_affine_entry mx my j i [] default table lt = absurd (omega (arith, lt))
odd_affine_entry mx my j zero (point ∷ points) default table lt =
    subst (λ (k : ℕ). IsAffineNiels point (mx k) (my k)) (omega arith) table.0
odd_affine_entry mx my j (suc i) (point ∷ points) default table lt =
    subst (λ (k : ℕ). IsAffineNiels (get_or points i default) (mx k) (my k)) (omega arith)
      (odd_affine_entry mx my (2 + j) i points default table.1 (omega (arith, lt)))

pub length-naf_lookup_table5 : (a : EdwardsPoint) → length (naf_lookup_table5 a) ≡ 8
unfolding naf_lookup_table5 naf_table_loop
length-naf_lookup_table5 a = refl

module _ (mx my : ℕ → ℕ → ℕ → ℕ → ℕ) (family : IsCombinations mx my) (a : EdwardsPoint)
    (h : IsAffine a (mx 1 0 0 0) (my 1 0 0 0)) where
  abbrev first_x : ℕ → ℕ
  first_x k = mx k 0 0 0

  abbrev first_y : ℕ → ℕ
  first_y k = my k 0 0 0

  naf_table_loop-IsOddTable :
      (n j : ℕ) (a2 : EdwardsPoint) (point : ProjectiveNielsPoint)
      → IsAffine a2 (first_x 2) (first_y 2)
      → IsNiels point (first_x j) (first_y j)
      → IsOddTable first_x first_y j (naf_table_loop n a2 point)
  unfolding naf_table_loop
  naf_table_loop-IsOddTable zero j a2 point twice known = (known, tt)
  naf_table_loop-IsOddTable (suc n) j a2 point twice known =
      let next = add_projective_niels a2 point in
      (
        known,
        naf_table_loop-IsOddTable n (2 + j) a2 (as_projective_niels (completed_as_extended next))
            twice
            (as_projective_niels-IsNiels (completed_as_extended next) _ _ (
              completed_as_extended-IsAffine next _ _ (
                add_projective_niels-IsCompleted a2 point (first_x 2) (first_y 2) (first_x j)
                  (first_y j) (first_x (2 + j)) (first_y (2 + j)) twice known
                  (family.sum 2 0 0 0 j 0 0 0)))),
      )

  pub naf_lookup_table5-IsOddTable : IsOddTable first_x first_y 1 (naf_lookup_table5 a)
  unfolding naf_lookup_table5
  naf_lookup_table5-IsOddTable =
      naf_table_loop-IsOddTable 7 1 (edwards_double a) (as_projective_niels a)
        (edwards_double-IsAffine a (first_x 1) (first_y 1) (first_x 2) (first_y 2) h
          (record { curve = family.curve 1 0 0 0; sum = family.sum 1 0 0 0 1 0 0 0 }))
        (as_projective_niels-IsNiels a (first_x 1) (first_y 1) h)
