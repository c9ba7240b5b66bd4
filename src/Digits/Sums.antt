-- ===== src/Digits/Sums.antt =====
-- The numbers of the digits from a place on, for the loops over the digits of
-- curve25519/solana-ed25519/src/scalar.rs.
use ed25519_verificationtest.Common.{
  ℕ, zero, suc, ◌+◌, ◌*◌, ◌<◌, ◌≤◌, ◌≡◌, refl, arith, List, [], ◌∷◌, length, get_or, drop,
}
use ed25519_verificationtest.Digits.{positive, negative, positive_sum, negative_sum}

-- The sum from a place on, by its first digit.
pub positive_sum-drop :
    (radix i : ℕ) (xs : List ℕ)
    → i < length xs
    → positive_sum radix (drop i xs)
      ≡ positive (get_or xs i 0) + radix * positive_sum radix (drop (suc i) xs)
positive_sum-drop radix i [] lt = absurd (omega (arith, lt))
positive_sum-drop radix zero (x ∷ xs) lt = refl
positive_sum-drop radix (suc i) (x ∷ xs) lt = positive_sum-drop radix i xs (omega (arith, lt))

pub positive_sum-past :
    (radix i : ℕ) (xs : List ℕ) → length xs ≤ i → positive_sum radix (drop i xs) ≡ 0
positive_sum-past radix zero [] le = refl
positive_sum-past radix (suc i) [] le = refl
positive_sum-past radix zero (x ∷ xs) le = absurd (omega (arith, le))
positive_sum-past radix (suc i) (x ∷ xs) le = positive_sum-past radix i xs (omega (arith, le))

pub negative_sum-drop :
    (radix i : ℕ) (xs : List ℕ)
    → i < length xs
    → negative_sum radix (drop i xs)
      ≡ negative (get_or xs i 0) + radix * negative_sum radix (drop (suc i) xs)
negative_sum-drop radix i [] lt = absurd (omega (arith, lt))
negative_sum-drop radix zero (x ∷ xs) lt = refl
negative_sum-drop radix (suc i) (x ∷ xs) lt = negative_sum-drop radix i xs (omega (arith, lt))

pub negative_sum-past :
    (radix i : ℕ) (xs : List ℕ) → length xs ≤ i → negative_sum radix (drop i xs) ≡ 0
negative_sum-past radix zero [] le = refl
negative_sum-past radix (suc i) [] le = refl
negative_sum-past radix zero (x ∷ xs) le = absurd (omega (arith, le))
negative_sum-past radix (suc i) (x ∷ xs) le = negative_sum-past radix i xs (omega (arith, le))
