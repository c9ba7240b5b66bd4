-- ===== src/Common/ConstantTime.antt =====
-- The crate `subtle`, which the repository only calls: a `Choice` is a Boolean, and what its
-- functions promise is a law. `select` serves `conditional_select` and, on a target that is
-- written back, `conditional_assign`, for every width of integer; `swap` is `conditional_swap`.
use Prim.Native.Nat.{ℕ}
use mathlib.Core.Path.{◌≡◌, refl}
use mathlib.Core.Bool.{Bool, true, false, ◌&&◌}
use mathlib.Core.Logic.{◌↔◌}
use mathlib.Core.List.{List, [], ◌∷◌}
use native.Mathlib.Omega.{arith}
use ed25519_verificationtest.Common.Words.{◌==◌, if◌then◌else◌}

pub record Subtle : Type 0 where
  pub select : ℕ → ℕ → Bool → ℕ
  pub select_lem : (a b : ℕ) (choice : Bool) → select a b choice ≡ (if choice then b else a)
  pub swap : ℕ → ℕ → Bool → ℕ × ℕ
  pub swap_lem : (a b : ℕ) (choice : Bool) → swap a b choice ≡ (if choice then (b, a) else (a, b))
  pub ct_eq : List ℕ → List ℕ → Bool
  pub ct_eq_iff : (xs ys : List ℕ) → (ct_eq xs ys ≡ true) ↔ (xs ≡ ys)

-- A value of the interface, for the runs at concrete inputs.
abbrev pub same_bytes : List ℕ → List ℕ → Bool
same_bytes [] [] = true
same_bytes [] (y ∷ ys) = false
same_bytes (x ∷ xs) [] = false
same_bytes (x ∷ xs) (y ∷ ys) = x == y && same_bytes xs ys

pub same_bytes_sound : (xs ys : List ℕ) → same_bytes xs ys ≡ true → xs ≡ ys
same_bytes_sound [] [] h = refl
same_bytes_sound [] (y ∷ ys) h = ground arith
same_bytes_sound (x ∷ xs) [] h = ground arith
same_bytes_sound (x ∷ xs) (y ∷ ys) h = ground (arith, same_bytes_sound xs ys)

same_bytes_self : (xs : List ℕ) → same_bytes xs xs ≡ true
same_bytes_self [] = refl
same_bytes_self (x ∷ xs) = ground (arith, same_bytes_self xs)

pub same_bytes_iff : (xs ys : List ℕ) → (same_bytes xs ys ≡ true) ↔ (xs ≡ ys)
same_bytes_iff xs ys = (same_bytes_sound xs ys, λ e. rw e (same_bytes_self ys))

instance abbrev pub plain_subtle : Subtle
plain_subtle = record {
  select = λ a b choice. if choice then b else a;
  select_lem = λ a b choice. refl;
  swap = λ a b choice. if choice then (b, a) else (a, b);
  swap_lem = λ a b choice. refl;
  ct_eq = same_bytes;
  ct_eq_iff = same_bytes_iff;
}
