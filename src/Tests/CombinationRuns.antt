-- ===== src/Tests/CombinationRuns.antt =====
-- curve25519/solana-ed25519/src/backend/serial/scalar_mul/vartime_double_base.rs at a point of
-- order four.
use ed25519_verificationtest.Common.{
  ℕ, zero, suc, ◌+◌, ◌-◌, ◌*◌, ◌%◌, ◌≡◌, refl, ap, subst, arith, Congr, Congr-of_eq, plain_subtle,
}
use ed25519_verificationtest.Field51.{field_zero, p}
use ed25519_verificationtest.Field.{sqrt_m1}
use ed25519_verificationtest.Edwards.Denotes.{minus}
use ed25519_verificationtest.Edwards.Points.{IsAffine, IsSum}
use ed25519_verificationtest.DoubleBase.Multiply
use ed25519_verificationtest.Window.Odd.{IsCombinations, IsOddAffineTable}
use ed25519_verificationtest.Edwards.Mixed.{IsAffineNiels}
use ed25519_verificationtest.DoubleBase.{double_base_mul}
use ed25519_verificationtest.CurveModels.{AffineNielsPoint}
use ed25519_verificationtest.Common.{List}
use ed25519_verificationtest.Edwards.Denotes.{Denotes}
use ed25519_verificationtest.Field51.{negate}
use ed25519_verificationtest.Common.{[], ◌^◌}
use ed25519_verificationtest.Edwards.Denotes.{Denotes-negate}
use ed25519_verificationtest.Common.{◌∷◌}
use ed25519_verificationtest.Edwards.Denotes.{Denotes-weaken}
use ed25519_verificationtest.Edwards.Denotes.{Denotes-change}
use ed25519_verificationtest.Tests.MultipleRuns.{
  turn, quarter_point, turn_x, turn_y, sixty_three, turn-IsSum, turn-IsOnCurve, turn_opposite,
  point-IsAffine, sixty_three-IsScalar,
}

-- The combinations of the point of order four with itself.
abbrev pair_place : ℕ → ℕ → ℕ → ℕ → ℕ
pair_place a b c e = (a + 3 * b + c + 3 * e) % 4

abbrev pair_x : ℕ → ℕ → ℕ → ℕ → ℕ
pair_x a b c e = turn_x (pair_place a b c e)

abbrev pair_y : ℕ → ℕ → ℕ → ℕ → ℕ
pair_y a b c e = turn_y (pair_place a b c e)

pair-IsCombinations : IsCombinations pair_x pair_y
pair-IsCombinations = record {
  nothing_x = record { same = refl };
  nothing_y = record { same = refl };
  curve = λ a b c e. turn-IsOnCurve (pair_place a b c e) (omega arith);
  sum = λ a b c e i j k l.
      subst
        (λ (t : ℕ).
          IsSum (pair_x a b c e) (pair_y a b c e) (pair_x i j k l) (pair_y i j k l) (turn_x t)
            (turn_y t))
        (omega arith)
        (turn-IsSum (pair_place a b c e) (pair_place i j k l) (omega arith) (omega arith));
  opposite_x = λ a b c e.
      subst (λ (t : ℕ). Congr p (minus * pair_x a b c e) (turn_x t)) (omega arith)
        (turn_opposite (pair_place a b c e) (omega arith)).0;
  opposite_y = λ a b c e.
      subst (λ (t : ℕ). Congr p (pair_y a b c e) (turn_y t)) (omega arith)
        (turn_opposite (pair_place a b c e) (omega arith)).1;
  same_x = λ a b c e k l ea eb. Congr-of_eq p (ap turn_x (omega (arith, ea, eb)));
  same_y = λ a b c e k l ea eb. Congr-of_eq p (ap turn_y (omega (arith, ea, eb)));
}

pair-IsAffine : IsAffine quarter_point (pair_x 1 0 0 0) (pair_y 1 0 0 0)
pair-IsAffine = point-IsAffine

-- The odd multiples are the point and its opposite by turns.
abbrev once : AffineNielsPoint
once = record { y_plus_x = sqrt_m1; y_minus_x = negate sqrt_m1; xy2d = field_zero }

abbrev thrice : AffineNielsPoint
thrice = record { y_plus_x = negate sqrt_m1; y_minus_x = sqrt_m1; xy2d = field_zero }

abbrev by_turns : ℕ → List AffineNielsPoint
by_turns zero = []
by_turns (suc n) = once ∷ thrice ∷ by_turns n

negated_turn : Denotes (2 ^ 52) (negate sqrt_m1) (minus * turn)
negated_turn =
    Denotes-negate {x = turn} (record { below = omega arith; same = record { same = refl } })

once-IsAffineNiels : (x y : ℕ) → x ≡ turn → y ≡ 0 → IsAffineNiels once x y
once-IsAffineNiels x y ex ey =
    rw (ex, ey)
      (record {
        denotes_plus = record { below = omega arith; same = record { same = refl } };
        denotes_minus =
            Denotes-weaken (2 ^ 53) (Denotes-change negated_turn (Congr-of_eq p (omega arith)))
              (omega arith);
        denotes_xy2d = record { below = omega arith; same = record { same = refl } };
      })

thrice-IsAffineNiels : (x y : ℕ) → x ≡ p - turn → y ≡ 0 → IsAffineNiels thrice x y
thrice-IsAffineNiels x y ex ey =
    rw (ex, ey)
      (record {
        denotes_plus =
            Denotes-weaken (2 ^ 53) (Denotes-change negated_turn (record { same = refl }))
              (omega arith);
        denotes_minus = record { below = omega arith; same = record { same = refl } };
        denotes_xy2d = record { below = omega arith; same = record { same = refl } };
      })

by_turns-IsOddAffineTable :
    (n j : ℕ)
    → j % 4 ≡ 1
    → IsOddAffineTable (λ k. pair_x 0 0 k 0) (λ k. pair_y 0 0 k 0) j (by_turns n)
by_turns-IsOddAffineTable zero j e = tt
by_turns-IsOddAffineTable (suc n) j e =
    let first : pair_place 0 0 j 0 ≡ 1 = omega (arith, e) in
    let second : pair_place 0 0 (2 + j) 0 ≡ 3 = omega (arith, e) in
    (
      once-IsAffineNiels (pair_x 0 0 j 0) (pair_y 0 0 j 0) (ap turn_x first) (ap turn_y first),
      (
        thrice-IsAffineNiels (pair_x 0 0 (2 + j) 0) (pair_y 0 0 (2 + j) 0) (ap turn_x second)
            (ap turn_y second),
        by_turns-IsOddAffineTable n (2 + (2 + j)) (omega (arith, e)),
      ),
    )

-- 63 times the point and 63 times the point again is 126 times it, the point of order two.
double_base_mul-IsAffine_example :
    IsAffine (double_base_mul (by_turns 32) sixty_three quarter_point sixty_three) 0 (p - 1)
double_base_mul-IsAffine_example =
    Multiply.double_base_mul-IsAffine pair_x pair_y pair-IsCombinations sixty_three quarter_point
      sixty_three pair-IsAffine sixty_three-IsScalar (omega arith) sixty_three-IsScalar
      (omega arith) (by_turns 32) (by_turns-IsOddAffineTable 32 1 refl) refl
