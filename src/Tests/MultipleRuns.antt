-- ===== src/Tests/MultipleRuns.antt =====
-- curve25519/solana-ed25519/src/window.rs and
-- curve25519/solana-ed25519/src/backend/serial/scalar_mul/variable_base.rs at a point of order
-- four.
use ed25519_verificationtest.Common.{
  ℕ, zero, suc, ◌+◌, ◌-◌, ◌*◌, ◌%◌, ◌<◌, ◌≡◌, refl, ap, subst, sym, arith, tabulate, set,
  All-IsBytes, Congr, Congr-refl, Congr-of_eq, plain_subtle,
}
use ed25519_verificationtest.Field51.{field_zero, field_one, value, p}
use ed25519_verificationtest.Field.{sqrt_m1}
use ed25519_verificationtest.CurveModels.{EdwardsPoint}
use ed25519_verificationtest.Edwards.Denotes.{minus}
use ed25519_verificationtest.Edwards.Points.{IsAffine, IsSum, IsOnCurve, IsUnit, d}
use ed25519_verificationtest.Edwards.Addition.{IsNiels}
use ed25519_verificationtest.Scalar.{Scalar}
use ed25519_verificationtest.Scalar.Arithmetic.{IsScalar}
use ed25519_verificationtest.Window.{select, lookup_table}
use ed25519_verificationtest.Window.Entries.{IsMultiples}
use ed25519_verificationtest.Window.Select
use ed25519_verificationtest.Window.Table.{lookup_table-IsTable}
use ed25519_verificationtest.VariableBase.{variable_base_mul}
use ed25519_verificationtest.VariableBase.Multiple
use ed25519_verificationtest.Window.Table.{length-lookup_table}

-- A point of order four, and its four multiples.
abbrev pub turn : ℕ
turn = value sqrt_m1

abbrev pub quarter_point : EdwardsPoint
quarter_point = record { x = sqrt_m1; y = field_zero; z = field_one; t = field_zero }

abbrev pub turn_x : ℕ → ℕ
turn_x zero = 0
turn_x (suc zero) = turn
turn_x (suc (suc zero)) = 0
turn_x (suc (suc (suc r))) = p - turn

abbrev pub turn_y : ℕ → ℕ
turn_y zero = 1
turn_y (suc zero) = 0
turn_y (suc (suc zero)) = p - 1
turn_y (suc (suc (suc r))) = 0

one-IsUnit : IsUnit 1
one-IsUnit = record { inverse = 1; product = Congr-refl p 1 }

-- The addition law on the axes, where its denominators are one.
axis :
    {x1 y1 x2 y2 x3 y3 : ℕ}
    → 1 + d * (x1 * x2 * (y1 * y2)) ≡ 1
    → 1 + minus * (d * (x1 * x2 * (y1 * y2))) ≡ 1
    → (x3 * (1 + d * (x1 * x2 * (y1 * y2)))) % p ≡ (x1 * y2 + y1 * x2) % p
    → (y3 * (1 + minus * (d * (x1 * x2 * (y1 * y2))))) % p ≡ (y1 * y2 + x1 * x2) % p
    → IsSum x1 y1 x2 y2 x3 y3
axis plus less ex ey = record {
  unit_plus = subst IsUnit (sym plus) one-IsUnit;
  unit_minus = subst IsUnit (sym less) one-IsUnit;
  sum_x = record { same = ex };
  sum_y = record { same = ey };
}

pub turn-IsSum :
    (r s : ℕ)
    → r < 4
    → s < 4
    → IsSum
        (turn_x r)
        (turn_y r)
        (turn_x s)
        (turn_y s)
        (turn_x ((r + s) % 4))
        (turn_y ((r + s) % 4))
turn-IsSum zero zero hr hs = axis refl refl refl refl
turn-IsSum zero (suc zero) hr hs = axis refl refl refl refl
turn-IsSum zero (suc (suc zero)) hr hs = axis refl refl refl refl
turn-IsSum zero (suc (suc (suc zero))) hr hs = axis refl refl refl refl
turn-IsSum (suc zero) zero hr hs = axis refl refl refl refl
turn-IsSum (suc zero) (suc zero) hr hs = axis refl refl refl refl
turn-IsSum (suc zero) (suc (suc zero)) hr hs = axis refl refl refl refl
turn-IsSum (suc zero) (suc (suc (suc zero))) hr hs = axis refl refl refl refl
turn-IsSum (suc (suc zero)) zero hr hs = axis refl refl refl refl
turn-IsSum (suc (suc zero)) (suc zero) hr hs = axis refl refl refl refl
turn-IsSum (suc (suc zero)) (suc (suc zero)) hr hs = axis refl refl refl refl
turn-IsSum (suc (suc zero)) (suc (suc (suc zero))) hr hs = axis refl refl refl refl
turn-IsSum (suc (suc (suc zero))) zero hr hs = axis refl refl refl refl
turn-IsSum (suc (suc (suc zero))) (suc zero) hr hs = axis refl refl refl refl
turn-IsSum (suc (suc (suc zero))) (suc (suc zero)) hr hs = axis refl refl refl refl
turn-IsSum (suc (suc (suc zero))) (suc (suc (suc zero))) hr hs = axis refl refl refl refl
turn-IsSum zero (suc (suc (suc (suc s)))) hr hs = absurd (omega (arith, hs))
turn-IsSum (suc zero) (suc (suc (suc (suc s)))) hr hs = absurd (omega (arith, hs))
turn-IsSum (suc (suc zero)) (suc (suc (suc (suc s)))) hr hs = absurd (omega (arith, hs))
turn-IsSum (suc (suc (suc zero))) (suc (suc (suc (suc s)))) hr hs = absurd (omega (arith, hs))
turn-IsSum (suc (suc (suc (suc r)))) s hr hs = absurd (omega (arith, hr))

pub turn-IsOnCurve : (r : ℕ) → r < 4 → IsOnCurve (turn_x r) (turn_y r)
unfolding IsOnCurve
turn-IsOnCurve zero h = record { same = refl }
turn-IsOnCurve (suc zero) h = record { same = refl }
turn-IsOnCurve (suc (suc zero)) h = record { same = refl }
turn-IsOnCurve (suc (suc (suc zero))) h = record { same = refl }
turn-IsOnCurve (suc (suc (suc (suc r)))) h = absurd (omega (arith, h))

pub turn_opposite :
    (r : ℕ)
    → r < 4
    → Congr p (minus * turn_x r) (turn_x ((4 - r) % 4)) × Congr p (turn_y r) (turn_y ((4 - r) % 4))
turn_opposite zero h = (record { same = refl }, record { same = refl })
turn_opposite (suc zero) h = (record { same = refl }, record { same = refl })
turn_opposite (suc (suc zero)) h = (record { same = refl }, record { same = refl })
turn_opposite (suc (suc (suc zero))) h = (record { same = refl }, record { same = refl })
turn_opposite (suc (suc (suc (suc r)))) h = absurd (omega (arith, h))

abbrev place : ℕ → ℕ → ℕ
place a b = (a + 3 * b) % 4

abbrev quarter_x : ℕ → ℕ → ℕ
quarter_x a b = turn_x (place a b)

abbrev quarter_y : ℕ → ℕ → ℕ
quarter_y a b = turn_y (place a b)

quarter-IsMultiples : IsMultiples quarter_x quarter_y
quarter-IsMultiples = record {
  nothing_x = record { same = refl };
  nothing_y = record { same = refl };
  curve = λ a b. turn-IsOnCurve (place a b) (omega arith);
  sum = λ a b c e.
      subst
        (λ (t : ℕ).
          IsSum (quarter_x a b) (quarter_y a b) (quarter_x c e) (quarter_y c e) (turn_x t)
            (turn_y t))
        (omega arith) (turn-IsSum (place a b) (place c e) (omega arith) (omega arith));
  opposite_x = λ a b.
      subst (λ (t : ℕ). Congr p (minus * quarter_x a b) (turn_x t)) (omega arith)
        (turn_opposite (place a b) (omega arith)).0;
  opposite_y = λ a b.
      subst (λ (t : ℕ). Congr p (quarter_y a b) (turn_y t)) (omega arith)
        (turn_opposite (place a b) (omega arith)).1;
  same_x = λ a b c e. Congr-of_eq p (ap turn_x (omega (arith, e)));
  same_y = λ a b c e. Congr-of_eq p (ap turn_y (omega (arith, e)));
}

pub point-IsAffine : IsAffine quarter_point (quarter_x 1 0) (quarter_y 1 0)
point-IsAffine = record {
  scale = 1;
  unit = one-IsUnit;
  denotes_x = record { below = omega arith; same = record { same = refl } };
  denotes_y = record { below = omega arith; same = record { same = refl } };
  denotes_z = record { below = omega arith; same = record { same = refl } };
  denotes_t = record { below = omega arith; same = record { same = refl } };
}

-- The digit -3.
select-IsNiels_example : IsNiels (select ⦃s = plain_subtle⦄ (lookup_table quarter_point) 253) turn 0
select-IsNiels_example =
    Select.select-IsNiels ⦃s = plain_subtle⦄ quarter_x quarter_y quarter-IsMultiples
      (lookup_table quarter_point) 253
      (lookup_table-IsTable quarter_x quarter_y quarter-IsMultiples quarter_point point-IsAffine)
      (omega arith) (omega (arith, length-lookup_table quarter_point))

-- 63, whose digits are -1 and 4.
abbrev pub sixty_three : Scalar
sixty_three = record { bytes = set (tabulate 32 0 (λ i. 0)) 0 63 }

pub sixty_three-IsScalar : IsScalar sixty_three
sixty_three-IsScalar = All-IsBytes 32 sixty_three.bytes refl (omega arith)

variable_base_mul-IsAffine_example :
    IsAffine (variable_base_mul ⦃s = plain_subtle⦄ quarter_point sixty_three) (p - turn) 0
variable_base_mul-IsAffine_example =
    Multiple.variable_base_mul-IsAffine ⦃s = plain_subtle⦄ quarter_x quarter_y quarter-IsMultiples
      quarter_point sixty_three point-IsAffine sixty_three-IsScalar (omega arith)
