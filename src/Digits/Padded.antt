-- ===== src/Digits/Padded.antt =====
-- Digits followed by zeros, as in the arrays of curve25519/solana-ed25519/src/scalar.rs.
use ed25519_verificationtest.Common.{
  ℕ, zero, suc, ◌+◌, ◌≡◌, refl, ap, ◌∙◌, arith, List, [], ◌∷◌, ◌++◌, length, get_or, set, tabulate,
  All,
}
use ed25519_verificationtest.Digits.{positive_sum, negative_sum}
use ed25519_verificationtest.Digits.Radix2w.{IsRadixDigit}

pub positive_sum-padded :
    (m k j : ℕ) (xs : List ℕ) → positive_sum m (xs ++ tabulate k j (λ i. 0)) ≡ positive_sum m xs
positive_sum-padded m zero j [] = refl
positive_sum-padded m (suc k) j [] = rw (positive_sum-padded m k (suc j) []) (omega arith)
positive_sum-padded m k j (x ∷ xs) = rw (positive_sum-padded m k j xs) refl

pub negative_sum-padded :
    (m k j : ℕ) (xs : List ℕ) → negative_sum m (xs ++ tabulate k j (λ i. 0)) ≡ negative_sum m xs
negative_sum-padded m zero j [] = refl
negative_sum-padded m (suc k) j [] = rw (negative_sum-padded m k (suc j) []) (omega arith)
negative_sum-padded m k j (x ∷ xs) = rw (negative_sum-padded m k j xs) refl

pub length-padded : (k j : ℕ) (xs : List ℕ) → length (xs ++ tabulate k j (λ i. 0)) ≡ length xs + k
length-padded zero j [] = refl
length-padded (suc k) j [] = ap suc (length-padded k (suc j) []) ∙ omega arith
length-padded k j (x ∷ xs) = ap suc (length-padded k j xs) ∙ omega arith

pub get_or-padded_end :
    (k j : ℕ) (xs : List ℕ) → get_or (xs ++ tabulate k j (λ i. 0)) (length xs) 0 ≡ 0
get_or-padded_end zero j [] = refl
get_or-padded_end (suc k) j [] = refl
get_or-padded_end k j (x ∷ xs) = get_or-padded_end k j xs

pub get_or-padded-IsRadixDigit :
    (w k j : ℕ) (xs : List ℕ)
    → All (IsRadixDigit w) xs
    → (i : ℕ) → IsRadixDigit w (get_or (xs ++ tabulate k j (λ i. 0)) i 0)
get_or-padded-IsRadixDigit w zero j [] h i = (omega arith, omega arith, omega arith)
get_or-padded-IsRadixDigit w (suc k) j [] h zero = (omega arith, omega arith, omega arith)
get_or-padded-IsRadixDigit w (suc k) j [] h (suc i) = get_or-padded-IsRadixDigit w k (suc j) [] h i
get_or-padded-IsRadixDigit w k j (x ∷ xs) h zero = h.0
get_or-padded-IsRadixDigit w k j (x ∷ xs) h (suc i) = get_or-padded-IsRadixDigit w k j xs h.1 i

pub set-get_or : (xs : List ℕ) (i : ℕ) → set xs i (get_or xs i 0) ≡ xs
set-get_or [] i = refl
set-get_or (x ∷ xs) zero = refl
set-get_or (x ∷ xs) (suc i) = ap (λ t. x ∷ t) (set-get_or xs i)
