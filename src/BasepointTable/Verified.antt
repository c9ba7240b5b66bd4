-- ===== src/BasepointTable/Verified.antt =====
-- AFFINE_ODD_MULTIPLES_OF_BASEPOINT of
-- curve25519/solana-ed25519/src/backend/serial/u64/constants.rs, and about its entries, by
-- evaluation.
use ed25519_verificationtest.Common.{
  ℕ, ◌+◌, ◌-◌, ◌*◌, ◌%◌, ◌^◌, ◌≡◌, refl, arith, List, [], ◌∷◌, ◌++◌, Bool, true, ◌&&◌, ltb, ◌==◌,
  Congr, Congr-symm, Congr-trans,
}
use ed25519_verificationtest.Field51.{FieldElement51, IsBelow, value, p}
use ed25519_verificationtest.CurveModels.{AffineNielsPoint}
use ed25519_verificationtest.Edwards.{ed25519_basepoint_point}
use ed25519_verificationtest.Edwards.Denotes.{minus, Denotes-weaken}
use ed25519_verificationtest.Edwards.Points.{IsSum, d, cancel_unit}
use ed25519_verificationtest.Edwards.Mixed.{IsAffineNiels}
use ed25519_verificationtest.Window.Odd.{
  IsCombinations, IsOddAffineTable, IsSum-change, IsSum-swap, IsAffineNiels-change,
}
use ed25519_verificationtest.BasepointTable.Lower.{lower_multiples}
use ed25519_verificationtest.BasepointTable.Upper.{upper_multiples}

-- The affine coordinates of the base point and of its double.
abbrev pub base_x : ℕ
base_x = value ed25519_basepoint_point.x

abbrev pub base_y : ℕ
base_y = value ed25519_basepoint_point.y

abbrev double_x : ℕ
double_x = 24727413235106541002554574571675588834622768167397638456726423682521233608206

abbrev double_y : ℕ
double_y = 15549675580280190176352668710449542251549572066445060580507079593062643049417

abbrev half : ℕ
half = 2 ^ 254 - 9

-- The coordinates that an entry stands for.
abbrev entry_x : AffineNielsPoint → ℕ
entry_x q = (value q.y_plus_x + (p - value q.y_minus_x % p)) * half % p

abbrev entry_y : AffineNielsPoint → ℕ
entry_y q = (value q.y_plus_x + value q.y_minus_x) * half % p

-- Tests by evaluation: limbs below 2^52, an entry at given coordinates, and the addition law.
is_below : FieldElement51 → Bool
is_below a =
    ltb a.l0 (2 ^ 52)
    && ltb a.l1 (2 ^ 52)
    && ltb a.l2 (2 ^ 52)
    && ltb a.l3 (2 ^ 52)
    && ltb a.l4 (2 ^ 52)

is_entry : AffineNielsPoint → ℕ → ℕ → Bool
is_entry q x y =
    (is_below q.y_plus_x && is_below q.y_minus_x && is_below q.xy2d)
    && (value q.y_plus_x % p == (y * 1 + x * 1) % p)
    && (value q.y_minus_x % p == (y * 1 + minus * (x * 1)) % p)
    && (value q.xy2d % p == x * y * (2 * d) % p)

is_sum : ℕ → ℕ → ℕ → ℕ → ℕ → ℕ → Bool
is_sum x1 y1 x2 y2 x3 y3 =
    (x3 * (1 + d * (x1 * x2 * (y1 * y2))) % p == (x1 * y2 + y1 * x2) % p)
    && (y3 * (1 + minus * (d * (x1 * x2 * (y1 * y2)))) % p == (y1 * y2 + x1 * x2) % p)

-- Every entry is the one before it plus the double of the base point.
is_chain : ℕ → ℕ → List AffineNielsPoint → Bool
is_chain x y [] = true
is_chain x y (q ∷ qs) =
    (is_entry q (entry_x q) (entry_y q) && is_sum double_x double_y x y (entry_x q) (entry_y q))
    && is_chain (entry_x q) (entry_y q) qs

is_table : List AffineNielsPoint → Bool
is_table [] = true
is_table (q ∷ qs) = is_entry q base_x base_y && is_chain base_x base_y qs

abbrev pub affine_odd_multiples_of_basepoint : List AffineNielsPoint
affine_odd_multiples_of_basepoint = lower_multiples ++ upper_multiples

table_checked : is_table affine_odd_multiples_of_basepoint ≡ true
unfolding is_table is_chain is_entry is_below is_sum
table_checked = refl

both : (a b : Bool) → a && b ≡ true → (a ≡ true) × (b ≡ true)
both a b e = (ground arith, ground arith)

below_sound : (a : FieldElement51) → is_below a ≡ true → IsBelow (2 ^ 52) a
unfolding is_below
below_sound a e = record {
  b0 = ground arith;
  b1 = ground arith;
  b2 = ground arith;
  b3 = ground arith;
  b4 = ground arith;
}

equal_sound : (m n : ℕ) → (m == n) ≡ true → m ≡ n
equal_sound m n e = ground arith

is_entry_sound : (q : AffineNielsPoint) (x y : ℕ) → is_entry q x y ≡ true → IsAffineNiels q x y
unfolding is_entry
is_entry_sound q x y e = record {
  denotes_plus =
      Denotes-weaken (2 ^ 53)
        (record {
          below = below_sound q.y_plus_x (ground arith);
          same = record { same = equal_sound _ _ (ground arith) };
        })
        (omega arith);
  denotes_minus =
      Denotes-weaken (2 ^ 53)
        (record {
          below = below_sound q.y_minus_x (ground arith);
          same = record { same = equal_sound _ _ (ground arith) };
        })
        (omega arith);
  denotes_xy2d = record {
    below = below_sound q.xy2d (ground arith);
    same = record { same = equal_sound _ _ (ground arith) };
  };
}

-- The sum is determined by the law.
sum_determined :
    {x1 y1 x2 y2 x3 y3 : ℕ} (t w u v x y : ℕ)
    → IsSum x1 y1 x2 y2 x3 y3
    → Congr p x1 t
    → Congr p y1 w
    → Congr p x2 u
    → Congr p y2 v
    → is_sum t w u v x y ≡ true
    → Congr p x3 x × Congr p y3 y
unfolding is_sum
sum_determined {x1} {y1} {x2} {y2} {x3} {y3} t w u v x y h c1 e1 c2 e2 e =
    let moved = IsSum-swap (IsSum-change (IsSum-swap (IsSum-change h c2 e2)) c1 e1) in
    (
      cancel_unit _ x3 x moved.unit_plus
          (Congr-trans moved.sum_x (Congr-symm (record { same = equal_sound _ _ (ground arith) }))),
      cancel_unit _ y3 y moved.unit_minus
          (Congr-trans moved.sum_y (Congr-symm (record { same = equal_sound _ _ (ground arith) }))),
    )

module _ (mx my : ℕ → ℕ → ℕ → ℕ → ℕ) (family : IsCombinations mx my)
    (is_base_x : Congr p (mx 0 0 1 0) base_x) (is_base_y : Congr p (my 0 0 1 0) base_y) where
  abbrev pub second_x : ℕ → ℕ
  second_x k = mx 0 0 k 0

  abbrev pub second_y : ℕ → ℕ
  second_y k = my 0 0 k 0

  twice : Congr p (second_x 2) double_x × Congr p (second_y 2) double_y
  unfolding is_sum
  twice =
      sum_determined base_x base_y base_x base_y double_x double_y (family.sum 0 0 1 0 0 0 1 0)
        is_base_x is_base_y is_base_x is_base_y refl

  is_chain-IsOddAffineTable :
      (j : ℕ) (x y : ℕ) (qs : List AffineNielsPoint)
      → Congr p (second_x j) x
      → Congr p (second_y j) y
      → is_chain x y qs ≡ true
      → IsOddAffineTable second_x second_y (2 + j) qs
  unfolding is_chain
  is_chain-IsOddAffineTable j x y [] hx hy e = tt
  is_chain-IsOddAffineTable j x y (q ∷ qs) hx hy e =
      let (here, later) =
        both
          (is_entry q (entry_x q) (entry_y q)
            && is_sum double_x double_y x y (entry_x q) (entry_y q))
          (is_chain (entry_x q) (entry_y q) qs) e in
      let (at_entry, at_sum) =
        both (is_entry q (entry_x q) (entry_y q))
          (is_sum double_x double_y x y (entry_x q) (entry_y q)) here in
      let (cx, cy) =
        sum_determined double_x double_y x y (entry_x q) (entry_y q) (family.sum 0 0 2 0 0 0 j 0)
          twice.0 twice.1 hx hy at_sum in
      (
        IsAffineNiels-change (is_entry_sound q (entry_x q) (entry_y q) at_entry) (Congr-symm cx)
            (Congr-symm cy),
        is_chain-IsOddAffineTable (2 + j) (entry_x q) (entry_y q) qs cx cy later,
      )

  from_first :
      (qs : List AffineNielsPoint) → is_table qs ≡ true → IsOddAffineTable second_x second_y 1 qs
  unfolding is_table
  from_first [] e = tt
  from_first (q ∷ qs) e =
      let (first, rest) = both (is_entry q base_x base_y) (is_chain base_x base_y qs) e in
      (
        IsAffineNiels-change (is_entry_sound q base_x base_y first) (Congr-symm is_base_x)
            (Congr-symm is_base_y),
        is_chain-IsOddAffineTable 1 base_x base_y qs is_base_x is_base_y rest,
      )

  pub affine_odd_multiples_of_basepoint-IsOddAffineTable :
      IsOddAffineTable second_x second_y 1 affine_odd_multiples_of_basepoint
  affine_odd_multiples_of_basepoint-IsOddAffineTable =
      from_first affine_odd_multiples_of_basepoint table_checked
