-- ===== src/Common/Congruence.antt =====
-- Congruence of numbers by a modulus, and powers.
use Prim.Native.Nat.{ℕ, zero, suc, ◌+◌, ◌*◌, ◌%◌, ◌/◌, ◌^◌}
use mathlib.Core.Path.{◌≡◌, refl, sym, ap, ◌∙◌}
use native.Mathlib.Omega.{arith}
use native.Mathlib.Nat.{
  mod-mod, mod-eq_of_lt, add-mul-mod_self_left, div-add-mod, pow-suc, pow-zero,
}
use Prim.Native.Nat.{◌<◌}

-- `a` and `b` leave the same remainder by `m`.
pub record Congr (m a b : ℕ) : Type 0 where
  pub same : a % m ≡ b % m

pub Congr-intro : (m a b k j : ℕ) → a + m * k ≡ b + m * j → Congr m a b
Congr-intro m a b k j e = record {
  same = sym (add-mul-mod_self_left a m k) ∙ ap (λ (t : ℕ). t % m) e ∙ add-mul-mod_self_left b m j;
}

-- The other way round: congruent numbers differ by multiples of the modulus.
pub Congr-witness : (m a b : ℕ) → Congr m a b → a + m * (b / m) ≡ b + m * (a / m)
Congr-witness m a b h = omega (arith, div-add-mod a m, div-add-mod b m)

pub Congr-refl : (m a : ℕ) → Congr m a a
Congr-refl m a = record { same = refl }

pub Congr-of_eq : (m : ℕ) {a b : ℕ} → a ≡ b → Congr m a b
Congr-of_eq m e = record { same = ap (λ (t : ℕ). t % m) e }

pub Congr-symm : {m a b : ℕ} → Congr m a b → Congr m b a
Congr-symm h = record { same = sym h.same }

pub Congr-trans : {m a b c : ℕ} → Congr m a b → Congr m b c → Congr m a c
Congr-trans h k = record { same = h.same ∙ k.same }

pub Congr-mul : {m a b c d : ℕ} → Congr m a b → Congr m c d → Congr m (a * c) (b * d)
Congr-mul {m} {a} {b} {c} {d} h k = Congr-trans left right
  where
    left : Congr m (a * c) (b * c)
    left =
        Congr-intro m (a * c) (b * c) (b / m * c) (a / m * c)
          (omega (arith, ap (λ (t : ℕ). t * c) (Congr-witness m a b h)))

    right : Congr m (b * c) (b * d)
    right =
        Congr-intro m (b * c) (b * d) (b * (d / m)) (b * (c / m))
          (omega (arith, ap (λ (t : ℕ). b * t) (Congr-witness m c d k)))

pub Congr-add : {m a b c d : ℕ} → Congr m a b → Congr m c d → Congr m (a + c) (b + d)
Congr-add {m} {a} {b} {c} {d} h k =
    Congr-intro m (a + c) (b + d) (b / m + d / m) (a / m + c / m)
      (omega (arith, Congr-witness m a b h, Congr-witness m c d k))

-- A summand may be taken off both sides.
pub Congr-cancel : (m a b c : ℕ) → Congr m (a + c) (b + c) → Congr m a b
Congr-cancel m a b c h =
    Congr-intro m a b ((b + c) / m) ((a + c) / m) (omega (arith, Congr-witness m (a + c) (b + c) h))

pub Congr-pow : {m a b : ℕ} (n : ℕ) → Congr m a b → Congr m (a ^ n) (b ^ n)
Congr-pow {m} {a} {b} zero h = Congr-of_eq m (pow-zero a ∙ sym (pow-zero b))
Congr-pow {m} {a} {b} (suc n) h =
    Congr-trans (Congr-of_eq m (pow-suc a n))
      (Congr-trans (Congr-mul (Congr-pow n h) h) (Congr-of_eq m (sym (pow-suc b n))))

pub pow-add : (a j k : ℕ) → a ^ (j + k) ≡ a ^ j * a ^ k
pow-add a zero k =
    let e : 0 + k ≡ k = omega arith in rw e (omega (arith, ap (λ (t : ℕ). t * a ^ k) (pow-zero a)))
pow-add a (suc j) k =
    let e : suc j + k ≡ suc (j + k) = omega arith in
    rw (e, pow-suc a (j + k), pow-add a j k, pow-suc a j) (omega arith)

pub pow-mul : (a j k : ℕ) → a ^ (j * k) ≡ (a ^ j) ^ k
pow-mul a j zero = let e : j * 0 ≡ 0 = omega arith in rw (e, pow-zero a, pow-zero (a ^ j))
pow-mul a j (suc k) =
    let e : j * suc k ≡ j * k + j = omega arith in
    rw (e, pow-add a (j * k) j, pow-mul a j k, pow-suc (a ^ j) k)

pub pow-one : (a : ℕ) → a ^ 1 ≡ a
pow-one a = pow-suc a 0 ∙ ap (λ (t : ℕ). t * a) (pow-zero a) ∙ omega arith

pub pow-two : (a : ℕ) → a ^ 2 ≡ a * a
pow-two a = pow-suc a 1 ∙ ap (λ (t : ℕ). t * a) (pow-one a)

pub Congr-mod : (m a : ℕ) → Congr m (a % m) a
Congr-mod m a = record { same = mod-mod a m }

-- A residue that is congruent to a number is its remainder.
pub Congr-residue : (m a b : ℕ) → a < m → Congr m a b → a ≡ b % m
Congr-residue m a b h c = sym (mod-eq_of_lt h) ∙ c.same

pub one_pow : (n : ℕ) → 1 ^ n ≡ 1
one_pow zero = refl
one_pow (suc n) = pow-suc 1 n ∙ ap (λ (t : ℕ). t * 1) (one_pow n)
