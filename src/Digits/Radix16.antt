-- ===== src/Digits/Radix16.antt =====
-- About `as_radix_16` of curve25519/solana-ed25519/src/scalar.rs.
use ed25519_verificationtest.Common.{
  ℕ, zero, suc, ◌+◌, ◌*◌, ◌^◌, ◌<◌, ◌≤◌, ◌≡◌, refl, arith, List, [], ◌∷◌, length,
}
use ed25519_verificationtest.Common.{le_value, IsBytes, bit_and-low_mask}
use native.Mathlib.Nat.{pow-suc}
use ed25519_verificationtest.Digits.{
  positive, negative, positive_sum, negative_sum, bot_half, top_half, nibbles, recenter,
  as_radix_16,
}
use ed25519_verificationtest.Scalar.{Scalar}
use ed25519_verificationtest.Scalar.Arithmetic.{number, IsScalar}
use ed25519_verificationtest.Digits.{sub8}
use ed25519_verificationtest.Digits.{add8}
use ed25519_verificationtest.Digits.{shl8}
use ed25519_verificationtest.Digits.{sar8}
use ed25519_verificationtest.Common.{◌/◌}
use ed25519_verificationtest.Common.{shr}
use ed25519_verificationtest.Common.{subst, ◌∙◌, ◌%◌, IsBytes-tail}
use ed25519_verificationtest.Common.{ap}
use ed25519_verificationtest.Common.{get_or}

-- The number that digits without a sign stand for.
abbrev digits_value : List ℕ → ℕ
digits_value [] = 0
digits_value (x ∷ xs) = x + 16 * digits_value xs

IsNibble : ℕ → Type 0
IsNibble x = x < 16

-- The digits of a balanced expansion: from -8 to 7, and the last one at most 8.
pub IsBalanced : List ℕ → Type 0
IsBalanced [] = Unit
IsBalanced (x ∷ []) = (positive x ≤ 8) × (negative x ≡ 0)
IsBalanced (x ∷ y ∷ rest) = (positive x < 8) × (negative x ≤ 8) × IsBalanced (y ∷ rest)

-- Each digit of a balanced expansion is from -8 to 8.
pub balanced_entry :
    (xs : List ℕ)
    → IsBalanced xs
    → (i : ℕ) → (positive (get_or xs i 0) ≤ 8) × (negative (get_or xs i 0) ≤ 8)
unfolding IsBalanced
balanced_entry [] h i = (omega arith, omega arith)
balanced_entry (x ∷ []) h zero = (h.0, omega (arith, h.1))
balanced_entry (x ∷ []) h (suc i) = (omega arith, omega arith)
balanced_entry (x ∷ y ∷ rest) h zero = (omega (arith, h.0), h.1)
balanced_entry (x ∷ y ∷ rest) h (suc i) = balanced_entry (y ∷ rest) h.2 i

record Recentered (x k d j : ℕ) : Type 0 where
  balance : positive d + 16 * j ≡ x + k + negative d
  high : positive d < 8
  low : negative d ≤ 8
  bit : j < 2

recenter_step :
    (x k : ℕ)
    → x < 16
    → k < 2
    → Recentered x k
        (sub8 (add8 x k) (shl8 (sar8 (add8 (add8 x k) 8) 4) 4))
        (sar8 (add8 (add8 x k) 8) 4)
recenter_step x k hx hk =
    let sum : add8 x k ≡ x + k = omega arith in
    let carry : sar8 (add8 (x + k) 8) 4 ≡ (x + k + 8) / 16 = ground arith in
    rw (sum, carry)
      (record {
        balance = ground arith;
        high = ground arith;
        low = ground arith;
        bit = omega arith;
      })

-- Digits below 16, the last of which has room for a carry.
IsRoomy : List ℕ → Type 0
IsRoomy [] = ⊥
IsRoomy (x ∷ []) = x < 8
IsRoomy (x ∷ y ∷ rest) = (x < 16) × IsRoomy (y ∷ rest)

recenter-value :
    (xs : List ℕ) (k : ℕ)
    → IsRoomy xs
    → k < 2
    → positive_sum 16 (recenter k xs) ≡ digits_value xs + k + negative_sum 16 (recenter k xs)
unfolding recenter IsRoomy
recenter-value [] k h hk = absurd h
recenter-value (x ∷ []) k h hk = ground arith
recenter-value (x ∷ y ∷ rest) k (hx, h) hk =
    let step = recenter_step x k hx hk in
    omega (arith, step.balance, recenter-value (y ∷ rest) _ h step.bit)

recenter-IsBalanced : (xs : List ℕ) (k : ℕ) → IsRoomy xs → k < 2 → IsBalanced (recenter k xs)
unfolding recenter IsRoomy IsBalanced
recenter-IsBalanced [] k h hk = absurd h
recenter-IsBalanced (x ∷ []) k h hk = (ground arith, ground arith)
recenter-IsBalanced (x ∷ y ∷ []) k (hx, h) hk =
    let step = recenter_step x k hx hk in
    (step.high, step.low, recenter-IsBalanced (y ∷ []) _ h step.bit)
recenter-IsBalanced (x ∷ y ∷ z ∷ rest) k (hx, h) hk =
    let step = recenter_step x k hx hk in
    (step.high, step.low, recenter-IsBalanced (y ∷ z ∷ rest) _ h step.bit)

bot_half-value : (x : ℕ) → bot_half x ≡ x % 16
bot_half-value x = bit_and-low_mask 4 (shr x 0) ∙ omega arith

top_half-value : (x : ℕ) → x < 256 → top_half x ≡ x / 16
top_half-value x h = bit_and-low_mask 4 (shr x 4) ∙ omega arith

nibbles-value : (n : ℕ) (xs : List ℕ) → IsBytes n xs → digits_value (nibbles xs) ≡ le_value xs
unfolding nibbles
nibbles-value n [] h = refl
nibbles-value zero (x ∷ xs) h = absurd (omega (arith, h.sized))
nibbles-value (suc n) (x ∷ xs) h = omega (
  arith,
  bot_half-value x,
  top_half-value x (h.ranged 0 (omega arith)),
  nibbles-value n xs (IsBytes-tail h),
)

-- Below half of the range the last digit has room.
nibbles-IsRoomy :
    (n : ℕ) (xs : List ℕ) → IsBytes (suc n) xs → le_value xs < 128 * 256 ^ n → IsRoomy (nibbles xs)
unfolding nibbles IsRoomy
nibbles-IsRoomy n [] h lt = absurd (omega (arith, h.sized))
nibbles-IsRoomy n (x ∷ []) h lt =
    let one : n ≡ 0 = omega (arith, h.sized) in
    let bound : x + 256 * 0 < 128 * 256 ^ 0 =
      subst (λ (t : ℕ). x + 256 * 0 < 128 * 256 ^ t) one lt in
    let small : x < 128 = omega arith in
    (omega (arith, bot_half-value x), omega (arith, top_half-value x (h.ranged 0 (omega arith))))
nibbles-IsRoomy zero (x ∷ y ∷ rest) h lt = absurd (omega (arith, h.sized))
nibbles-IsRoomy (suc n) (x ∷ y ∷ rest) h lt =
    let below : x < 256 = h.ranged 0 (omega arith) in
    (
      omega (arith, bot_half-value x),
      (
        omega (arith, top_half-value x below),
        nibbles-IsRoomy n (y ∷ rest) (IsBytes-tail h) (omega (arith, pow-suc 256 n)),
      ),
    )

length-nibbles : (xs : List ℕ) → length (nibbles xs) ≡ 2 * length xs
unfolding nibbles
length-nibbles [] = refl
length-nibbles (x ∷ xs) = omega (arith, length-nibbles xs)

length-recenter : (xs : List ℕ) (k : ℕ) → length (recenter k xs) ≡ length xs
unfolding recenter
length-recenter [] k = refl
length-recenter (x ∷ []) k = refl
length-recenter (x ∷ y ∷ rest) k = ap suc (length-recenter (y ∷ rest) _)

-- For a scalar of 32 bytes below 2^255, `as_radix_16` gives 64 digits whose sum by powers of 16,
-- the positive ones less the negative ones, is the number; each digit is from -8 to 7, and the last
-- one from 0 to 8.
pub as_radix_16-value :
    (a : Scalar)
    → IsScalar a
    → number a < 2 ^ 255
    → (positive_sum 16 (as_radix_16 a) ≡ number a + negative_sum 16 (as_radix_16 a))
      × IsBalanced (as_radix_16 a)
      × (length (as_radix_16 a) ≡ 64)
unfolding as_radix_16
as_radix_16-value a h lt =
    let roomy = nibbles-IsRoomy 31 a.bytes h lt in
    (
      omega (
        arith,
        recenter-value (nibbles a.bytes) 0 roomy (omega arith),
        nibbles-value 32 a.bytes h,
      ),
      recenter-IsBalanced (nibbles a.bytes) 0 roomy (omega arith),
      omega (arith, length-recenter (nibbles a.bytes) 0, length-nibbles a.bytes, h.sized),
    )

-- Every digit is an `i8`.
recenter_byte : (xs : List ℕ) (k i : ℕ) → get_or (recenter k xs) i 0 < 256
unfolding recenter
recenter_byte [] k i = omega arith
recenter_byte (x ∷ []) k zero = omega arith
recenter_byte (x ∷ []) k (suc i) = omega arith
recenter_byte (x ∷ y ∷ rest) k zero = omega arith
recenter_byte (x ∷ y ∷ rest) k (suc i) = recenter_byte (y ∷ rest) _ i

pub as_radix_16-lt : (a : Scalar) (i : ℕ) → get_or (as_radix_16 a) i 0 < 256
unfolding as_radix_16
as_radix_16-lt a i = recenter_byte (nibbles a.bytes) 0 i
