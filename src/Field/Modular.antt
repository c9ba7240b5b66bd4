-- ===== src/Field/Modular.antt =====
-- Facts on numbers modulo 2^255 - 19 that the square root of curve25519/solana-ed25519/src/field.rs
-- needs.
use ed25519_verificationtest.Common.{ℕ, ◌+◌, ◌*◌, ◌%◌, ◌≢◌, arith}
use ed25519_verificationtest.Common.{Congr, Congr-refl, Congr-symm, Congr-trans, Congr-of_eq}
use ed25519_verificationtest.Common.{Congr-mul, Congr-add, Congr-cancel}
use ed25519_verificationtest.Field51.{p}
use ed25519_verificationtest.Common.{◌≡◌}

-- Additive inverses have one square.
pub square_of_inverse : (x y : ℕ) → Congr p (x + y) 0 → Congr p (x * x) (y * y)
square_of_inverse x y h =
    let left = Congr-mul h (Congr-refl p x) in
    let right = Congr-mul h (Congr-refl p y) in
    Congr-cancel p (x * x) (y * y) (x * y) (
      Congr-trans (Congr-of_eq p (omega arith)) (
        Congr-trans left (
          Congr-trans (Congr-of_eq p (omega arith))
            (Congr-trans (Congr-symm right) (Congr-of_eq p (omega arith))))))

-- If `w` is the inverse of `u`, and `i i` that of 1, then `i i w` is `u`.
pub turned : (i w u : ℕ) → Congr p (i * i + 1) 0 → Congr p (w + u) 0 → Congr p (i * i * w) u
turned i w u hi hw =
    let scaled = Congr-mul hi (Congr-refl p w) in
    Congr-cancel p (i * i * w) u w (
      Congr-trans (Congr-of_eq p (omega arith)) (
        Congr-trans scaled (
          Congr-trans (Congr-of_eq p (omega arith))
            (Congr-trans (Congr-symm hw) (Congr-of_eq p (omega arith))))))

-- An element that equals both `w` and `i w`, for its inverse `w`, is zero.
pub zero_of_turned :
    (i w u : ℕ) → Congr p (i * i + 1) 0 → Congr p (w + u) 0 → Congr p u (w * i) → Congr p u 0
zero_of_turned i w u hi hw hu =
    let turn : Congr p (u * i) u =
      Congr-trans (Congr-mul hu (Congr-refl p i))
        (Congr-trans (Congr-of_eq p (omega arith)) (turned i w u hi hw)) in
    let total : Congr p (w * i + u * i) 0 =
      Congr-trans (Congr-of_eq p (omega arith))
        (Congr-trans (Congr-mul hw (Congr-refl p i)) (Congr-of_eq p (omega arith))) in
    let double : Congr p (u + u) 0 = Congr-trans (Congr-add hu (Congr-symm turn)) total in
    halve u double
  where
    halve : (x : ℕ) → Congr p (x + x) 0 → Congr p x 0
    halve x h = omega arith

pub odd_inverse : (x y : ℕ) → Congr p (x + y) 0 → x % p % 2 ≡ 1 → y % p % 2 ≢ 1
odd_inverse x y h ox oy = omega arith
