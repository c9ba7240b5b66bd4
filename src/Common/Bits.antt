-- ===== src/Common/Bits.antt =====
-- `&` with a mask of low bits and `|` of fields that do not overlap, as arithmetic.
use Prim.Native.Nat.{ℕ, zero, suc, ◌+◌, ◌*◌, ◌/◌, ◌%◌, ◌^◌, ◌≤◌, ◌<◌, min, max}
use Prim.Native.Nat.{bit_xor, bit_and, bit_or, digits, bit_and-bitwise, bit_or-bitwise}
use mathlib.Core.Path.{◌≡◌, refl, ap, ◌∙◌}
use native.Mathlib.Nat.{
  pow-suc, one-le-pow, mul-add-mod_self_left, mod-eq_of_lt, mod-lt, div-add-mod,
}
use native.Mathlib.Omega.{arith}
use mathlib.Core.Bool.{Bool, true, ◌&&◌}
use ed25519_verificationtest.Common.Words.{low_mask, ◌==◌}

-- What the native operations stand for recurs on fuel; any fuel that is enough gives the same.
digits_fuel_irrelevant :
    (z : ℕ → ℕ) (f : ℕ → ℕ → ℕ) (j k a b : ℕ) → a ≤ j → a ≤ k → digits z f j a b ≡ digits z f k a b
digits_fuel_irrelevant z f zero zero a b p q = refl
digits_fuel_irrelevant z f zero (suc k) zero b p q = refl
digits_fuel_irrelevant z f zero (suc k) (suc a) b p q = absurd (omega arith)
digits_fuel_irrelevant z f (suc j) zero zero b p q = refl
digits_fuel_irrelevant z f (suc j) zero (suc a) b p q = absurd (omega arith)
digits_fuel_irrelevant z f (suc j) (suc k) zero b p q = refl
digits_fuel_irrelevant z f (suc j) (suc k) (suc a) b p q =
    omega (arith, digits_fuel_irrelevant z f j k (suc a / 2) (b / 2) (omega arith) (omega arith))

-- The laws for the lowest bit.
bit_and_low : (a b : ℕ) → bit_and a b ≡ 2 * bit_and (a / 2) (b / 2) + min (a % 2) (b % 2)
bit_and_low zero b = omega (arith, bit_and-bitwise 0 b, bit_and-bitwise 0 (b / 2))
bit_and_low (suc a) b = omega (
  arith,
  bit_and-bitwise (suc a) b,
  bit_and-bitwise (suc a / 2) (b / 2),
  digits_fuel_irrelevant (λ y. 0) min a (suc a / 2) (suc a / 2) (b / 2) (omega arith) (omega arith),
)

bit_or_low : (a b : ℕ) → bit_or a b ≡ 2 * bit_or (a / 2) (b / 2) + max (a % 2) (b % 2)
bit_or_low zero b = omega (arith, bit_or-bitwise 0 b, bit_or-bitwise 0 (b / 2))
bit_or_low (suc a) b = omega (
  arith,
  bit_or-bitwise (suc a) b,
  bit_or-bitwise (suc a / 2) (b / 2),
  digits_fuel_irrelevant (λ y. y) max a (suc a / 2) (suc a / 2) (b / 2) (omega arith) (omega arith),
)

bit_and-zero_below : (k a : ℕ) → a ≤ k → bit_and a 0 ≡ 0
bit_and-zero_below k zero h = refl
bit_and-zero_below zero (suc a) h = absurd (omega arith)
bit_and-zero_below (suc k) (suc a) h =
    omega (arith, bit_and_low (suc a) 0, bit_and-zero_below k (suc a / 2) (omega arith))

bit_or-zero_below : (k a : ℕ) → a ≤ k → bit_or a 0 ≡ a
bit_or-zero_below k zero h = refl
bit_or-zero_below zero (suc a) h = absurd (omega arith)
bit_or-zero_below (suc k) (suc a) h =
    omega (arith, bit_or_low (suc a) 0, bit_or-zero_below k (suc a / 2) (omega arith))

-- A remainder by an even modulus keeps the lowest bit.
mod-double : (m a : ℕ) → 1 ≤ m → a % (2 * m) ≡ 2 * (a / 2 % m) + a % 2
mod-double m a h =
    ap (λ (t : ℕ). t % (2 * m)) regroup
    ∙ mul-add-mod_self_left (2 * m) (a / 2 / m) (2 * (a / 2 % m) + a % 2)
    ∙ mod-eq_of_lt (omega (arith, mod-lt (a / 2) {m = m} h))
  where
    regroup : a ≡ 2 * m * (a / 2 / m) + (2 * (a / 2 % m) + a % 2)
    regroup = omega (arith, div-add-mod (a / 2) m)

-- `a & ((1 << k) - 1)` is the remainder by `2 ^ k`.
pub bit_and-low_mask : (k a : ℕ) → bit_and a (low_mask k) ≡ a % 2 ^ k
bit_and-low_mask zero a = omega (arith, bit_and-zero_below a a (omega arith))
bit_and-low_mask (suc k) a = omega (
  arith,
  pow-suc 2 k,
  one-le-pow k 2,
  bit_and_low a (low_mask (suc k)),
  ap (λ (t : ℕ). bit_and (a / 2) t) half_mask,
  bit_and-low_mask k (a / 2),
  mod-double (2 ^ k) a (one-le-pow k 2 (omega arith)),
  ap (λ (t : ℕ). a % t) double,
)
  where
    half_mask : low_mask (suc k) / 2 ≡ low_mask k
    half_mask = omega (arith, pow-suc 2 k, one-le-pow k 2)

    double : 2 ^ suc k ≡ 2 * 2 ^ k
    double = omega (arith, pow-suc 2 k)

-- `low | (high << k)` is a sum if `low` fits `k` bits.
pub bit_or_disjoint :
    (k low high : ℕ) → low < 2 ^ k → bit_or low (high * 2 ^ k) ≡ low + high * 2 ^ k
bit_or_disjoint zero low high h =
    let e : low ≡ 0 = omega arith in rw e (omega (arith, bit_or-bitwise 0 (high * 1)))
bit_or_disjoint (suc k) low high h = omega (
  arith,
  bit_or_low low (high * 2 ^ suc k),
  ap (λ (t : ℕ). high * t) (pow-suc 2 k),
  bit_or_disjoint k (low / 2) high (omega (arith, pow-suc 2 k)),
  ap (λ (t : ℕ). bit_or (low / 2) t) half_high,
)
  where
    half_high : high * 2 ^ suc k / 2 ≡ high * 2 ^ k
    half_high = omega (arith, ap (λ (t : ℕ). high * t) (pow-suc 2 k))

-- Two functions that agree on every number below a bound, by evaluation.
unfoldable pub agree : (ℕ → ℕ) → (ℕ → ℕ) → ℕ → Bool
agree f g zero = true
agree f g (suc n) = f n == g n && agree f g n

pub agree-eq : (f g : ℕ → ℕ) (n : ℕ) → agree f g n ≡ true → (x : ℕ) → x < n → f x ≡ g x
unfolding agree
agree-eq f g zero e x h = absurd (omega arith)
agree-eq f g (suc n) e x h = ground (arith, agree-eq f g n (ground arith) x)

-- The masks of single bytes.
pub clear_low_three : (x : ℕ) → x < 256 → bit_and x 0b1111_1000 ≡ x / 8 * 8
unfolding agree
clear_low_three = agree-eq (λ x. bit_and x 0b1111_1000) (λ x. x / 8 * 8) 256 refl

pub set_bit_six : (x : ℕ) → x < 128 → bit_or x 0b0100_0000 ≡ x % 64 + 64
unfolding agree
set_bit_six = agree-eq (λ x. bit_or x 0b0100_0000) (λ x. x % 64 + 64) 128 refl

pub bit_or_comm : (a b : ℕ) → bit_or a b ≡ bit_or b a
bit_or_comm a b = below (a + b) a b (omega arith)
  where
    below : (k x y : ℕ) → x + y ≤ k → bit_or x y ≡ bit_or y x
    below zero x y h =
        let ex : x ≡ 0 = omega arith in let ey : y ≡ 0 = omega arith in rw (ex, ey) refl
    below (suc k) zero y h = omega (arith, bit_or-zero_below y y (omega arith), bit_or-bitwise 0 y)
    below (suc k) (suc x) y h = omega (
      arith,
      bit_or_low (suc x) y,
      bit_or_low y (suc x),
      below k (suc x / 2) (y / 2) (omega arith),
    )

-- The top bit of a byte turned on, or left alone.
pub xor_top : (x : ℕ) → x < 128 → bit_xor x 128 ≡ x + 128
unfolding agree
xor_top = agree-eq (λ x. bit_xor x 128) (λ x. x + 128) 128 refl

pub xor_none : (x : ℕ) → x < 128 → bit_xor x 0 ≡ x
unfolding agree
xor_none = agree-eq (λ x. bit_xor x 0) (λ x. x) 128 refl
