-- ===== src/Edwards/Denotes.antt =====
-- Field elements of curve25519/solana-ed25519/src/field.rs as numbers modulo 2^255 - 19, for the
-- formulas of the point operations.
use ed25519_verificationtest.Common.{
  ℕ, ◌+◌, ◌-◌, ◌*◌, ◌^◌, ◌≤◌, arith, Congr, Congr-intro, Congr-refl, Congr-symm, Congr-trans,
  Congr-of_eq, Congr-add, Congr-mul, Congr-cancel,
}
use ed25519_verificationtest.Field51.{
  FieldElement51, value, p, IsBelow, add, sub, negate, mul, square, square2,
}
use ed25519_verificationtest.Field51.Multiply
use ed25519_verificationtest.Field51.Reduce
use ed25519_verificationtest.Field51.Square
use ed25519_verificationtest.Field.Bounds.{square-value}

-- Minus one.
abbrev pub minus : ℕ
minus = p - 1

-- Limbs below the bound that stand for `x` modulo p.
pub record Denotes (bound : ℕ) (a : FieldElement51) (x : ℕ) : Type 0 where
  pub below : IsBelow bound a
  pub same : Congr p (value a) x

pub Denotes-weaken :
    {j : ℕ} (k : ℕ) {a : FieldElement51} {x : ℕ} → Denotes j a x → j ≤ k → Denotes k a x
Denotes-weaken k h le = record {
  below = record {
    b0 = omega (arith, h.below.b0);
    b1 = omega (arith, h.below.b1);
    b2 = omega (arith, h.below.b2);
    b3 = omega (arith, h.below.b3);
    b4 = omega (arith, h.below.b4);
  };
  same = h.same;
}

-- To the bound that a factor may have.
pub Denotes-wide : {a : FieldElement51} {x : ℕ} → Denotes (2 ^ 52) a x → Denotes (2 ^ 54) a x
Denotes-wide h = Denotes-weaken (2 ^ 54) h (omega arith)

pub Denotes-wider : {a : FieldElement51} {x : ℕ} → Denotes (2 ^ 53) a x → Denotes (2 ^ 54) a x
Denotes-wider h = Denotes-weaken (2 ^ 54) h (omega arith)

pub Denotes-change :
    {j : ℕ} {a : FieldElement51} {x y : ℕ} → Denotes j a x → Congr p x y → Denotes j a y
Denotes-change h c = record { below = h.below; same = Congr-trans h.same c }

pub Denotes-mul :
    {a b : FieldElement51} {x y : ℕ}
    → Denotes (2 ^ 54) a x
    → Denotes (2 ^ 54) b y
    → Denotes (2 ^ 52) (mul a b) (x * y)
Denotes-mul {a} {b} ha hb =
    let (same, below) = Multiply.mul-value a b ha.below hb.below in
    record { below = below; same = Congr-trans same (Congr-mul ha.same hb.same) }

pub Denotes-square :
    {a : FieldElement51} {x : ℕ} → Denotes (2 ^ 54) a x → Denotes (2 ^ 52) (square a) (x * x)
Denotes-square {a} ha =
    let (same, below) = square-value a ha.below in
    record { below = below; same = Congr-trans same (Congr-mul ha.same ha.same) }

pub Denotes-square2 :
    {a : FieldElement51} {x : ℕ} → Denotes (2 ^ 54) a x → Denotes (2 ^ 53) (square2 a) (2 * (x * x))
Denotes-square2 {a} ha =
    let (same, below) = Square.square2-value a ha.below in
    record {
      below = below;
      same = Congr-trans same (Congr-mul (Congr-refl p 2) (Congr-mul ha.same ha.same));
    }

pub Denotes-add :
    {j k : ℕ} {a b : FieldElement51} {x y : ℕ}
    → Denotes j a x
    → Denotes k b y
    → j + k ≤ 2 ^ 64
    → Denotes (j + k) (add a b) (x + y)
Denotes-add {j} {k} {a} {b} ha hb fits =
    let (same, below) = Reduce.add-value j k a b ha.below hb.below fits in
    record { below = below; same = Congr-trans (Congr-of_eq p same) (Congr-add ha.same hb.same) }

-- A difference is a sum with minus one times the other.
moved : (s a b x y : ℕ) → Congr p (s + b) a → Congr p a x → Congr p b y → Congr p s (x + minus * y)
moved s a b x y e ha hb = Congr-cancel p s (x + minus * y) b (
    Congr-trans e (
      Congr-trans ha (
        Congr-trans (Congr-intro p x (x + minus * y + y) y 0 (omega arith))
          (Congr-add (Congr-refl p (x + minus * y)) (Congr-symm hb)))))

pub Denotes-sub :
    {a b : FieldElement51} {x y : ℕ}
    → Denotes (2 ^ 54) a x
    → Denotes (2 ^ 54) b y
    → Denotes (2 ^ 52) (sub a b) (x + minus * y)
Denotes-sub {a} {b} {x} {y} ha hb =
    let wide = Denotes-weaken (2 ^ 63) ha (omega arith) in
    let (same, below) = Reduce.sub-value a b wide.below hb.below in
    record { below = below; same = moved _ _ _ x y same ha.same hb.same }

pub Denotes-negate :
    {a : FieldElement51} {x : ℕ} → Denotes (2 ^ 54) a x → Denotes (2 ^ 52) (negate a) (minus * x)
Denotes-negate {a} {x} ha =
    let (same, below) = Reduce.negate-value a ha.below in
    record {
      below = below;
      same =
          Congr-trans (moved _ _ _ 0 x same (Congr-refl p 0) ha.same) (Congr-of_eq p (omega arith));
    }
