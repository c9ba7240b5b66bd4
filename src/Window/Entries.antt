-- ===== src/Window/Entries.antt =====
-- The multiples of a point, for curve25519/solana-ed25519/src/window.rs and the code that uses its
-- tables.
use ed25519_verificationtest.Common.{ℕ, ◌+◌, ◌*◌, ◌≡◌, Congr, Congr-refl, Congr-mul, Congr-add}
use ed25519_verificationtest.Field51.{p}
use ed25519_verificationtest.CurveModels.{EdwardsPoint, ProjectiveNielsPoint}
use ed25519_verificationtest.Edwards.Denotes.{minus, Denotes-change}
use ed25519_verificationtest.Edwards.Points.{IsAffine, IsSum, IsOnCurve}
use ed25519_verificationtest.Edwards.Addition.{IsNiels}

-- The multiples of a point of the curve: `(mx a b, my a b)` stands for `a - b` times the point.
pub record IsMultiples (mx my : ℕ → ℕ → ℕ) : Type 0 where
  pub nothing_x : Congr p (mx 0 0) 0
  pub nothing_y : Congr p (my 0 0) 1
  pub curve : (a b : ℕ) → IsOnCurve (mx a b) (my a b)
  pub sum :
      (a b c e : ℕ)
      → IsSum (mx a b) (my a b) (mx c e) (my c e) (mx (a + c) (b + e)) (my (a + c) (b + e))
  pub opposite_x : (a b : ℕ) → Congr p (minus * mx a b) (mx b a)
  pub opposite_y : (a b : ℕ) → Congr p (my a b) (my b a)
  pub same_x : (a b c : ℕ) → a ≡ c + b → Congr p (mx a b) (mx c 0)
  pub same_y : (a b c : ℕ) → a ≡ c + b → Congr p (my a b) (my c 0)

-- Other numbers for the same point.
pub IsAffine-change :
    {a : EdwardsPoint} {x y u v : ℕ} → IsAffine a x y → Congr p x u → Congr p y v → IsAffine a u v
IsAffine-change h cx cy =
    let scaled = Congr-refl p h.scale in
    record {
      scale = h.scale;
      unit = h.unit;
      denotes_x = Denotes-change h.denotes_x (Congr-mul cx scaled);
      denotes_y = Denotes-change h.denotes_y (Congr-mul cy scaled);
      denotes_z = h.denotes_z;
      denotes_t = Denotes-change h.denotes_t (Congr-mul (Congr-mul cx cy) scaled);
    }

pub IsNiels-change :
    {b : ProjectiveNielsPoint} {x y u v : ℕ}
    → IsNiels b x y
    → Congr p x u
    → Congr p y v
    → IsNiels b u v
IsNiels-change h cx cy =
    let scaled = Congr-refl p h.scale in
    let x_scaled = Congr-mul cx scaled in
    let y_scaled = Congr-mul cy scaled in
    record {
      scale = h.scale;
      unit = h.unit;
      denotes_plus = Denotes-change h.denotes_plus (Congr-add y_scaled x_scaled);
      denotes_minus =
          Denotes-change h.denotes_minus
            (Congr-add y_scaled (Congr-mul (Congr-refl p minus) x_scaled));
      denotes_z = h.denotes_z;
      denotes_t2d =
          Denotes-change h.denotes_t2d
            (Congr-mul (Congr-mul (Congr-mul cx cy) scaled) (Congr-refl p _));
    }
