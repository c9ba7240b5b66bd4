-- ===== src/Digits/Entries.antt =====
-- Single entries of the arrays of digits of curve25519/solana-ed25519/src/scalar.rs.
use ed25519_verificationtest.Common.{
  ℕ, zero, suc, ◌⊎◌, inl, inr, Bool-cases, ◌==◌, ◌+◌, ◌*◌, ◌^◌, ◌<◌, ◌≡◌, ◌≢◌, refl, ap, arith,
  List, [], ◌∷◌, length, get_or, set,
}
use ed25519_verificationtest.Digits.{positive, negative, positive_sum, negative_sum}
use native.Mathlib.Nat.{pow-suc, pow-zero}

pub same_or_apart : (i j : ℕ) → (i ≡ j) ⊎ (i ≢ j)
same_or_apart i j = elim (Bool-cases (i == j)) [
  | inl same ↦ inl (ground arith)
  | inr apart ↦ inr (λ e. ground arith)
]

pub length-set : (xs : List ℕ) (i v : ℕ) → length (set xs i v) ≡ length xs
length-set [] i v = refl
length-set (x ∷ xs) zero v = refl
length-set (x ∷ xs) (suc i) v = ap suc (length-set xs i v)

pub get_or-set : (xs : List ℕ) (i v : ℕ) → i < length xs → get_or (set xs i v) i 0 ≡ v
get_or-set [] i v h = absurd (omega arith)
get_or-set (x ∷ xs) zero v h = refl
get_or-set (x ∷ xs) (suc i) v h = get_or-set xs i v (omega arith)

pub get_or-set_other : (xs : List ℕ) (i j v : ℕ) → i ≢ j → get_or (set xs i v) j 0 ≡ get_or xs j 0
get_or-set_other [] i j v h = refl
get_or-set_other (x ∷ xs) zero zero v h = absurd (h refl)
get_or-set_other (x ∷ xs) zero (suc j) v h = refl
get_or-set_other (x ∷ xs) (suc i) zero v h = refl
get_or-set_other (x ∷ xs) (suc i) (suc j) v h = get_or-set_other xs i j v (λ e. h (ap suc e))

-- Writing a digit where there was none adds its parts to the sums.
pub positive_sum-set :
    (radix : ℕ) (xs : List ℕ) (i v : ℕ)
    → i < length xs
    → get_or xs i 0 ≡ 0
    → positive_sum radix (set xs i v) ≡ positive_sum radix xs + radix ^ i * positive v
positive_sum-set radix [] i v h e = absurd (omega arith)
positive_sum-set radix (x ∷ xs) zero v h e =
    let none : positive x ≡ 0 = ground arith in rw (none, pow-zero radix) (omega arith)
positive_sum-set radix (x ∷ xs) (suc i) v h e = omega (
  arith,
  ap (λ (t : ℕ). radix * t) (positive_sum-set radix xs i v (omega arith) e),
  ap (λ (t : ℕ). t * positive v) (pow-suc radix i),
)

pub negative_sum-set :
    (radix : ℕ) (xs : List ℕ) (i v : ℕ)
    → i < length xs
    → get_or xs i 0 ≡ 0
    → negative_sum radix (set xs i v) ≡ negative_sum radix xs + radix ^ i * negative v
negative_sum-set radix [] i v h e = absurd (omega arith)
negative_sum-set radix (x ∷ xs) zero v h e =
    let none : negative x ≡ 0 = ground arith in rw (none, pow-zero radix) (omega arith)
negative_sum-set radix (x ∷ xs) (suc i) v h e = omega (
  arith,
  ap (λ (t : ℕ). radix * t) (negative_sum-set radix xs i v (omega arith) e),
  ap (λ (t : ℕ). t * negative v) (pow-suc radix i),
)
