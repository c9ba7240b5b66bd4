-- ===== src/Edwards/Decompress.antt =====
-- About `decompress` of curve25519/solana-ed25519/src/edwards.rs.
use ed25519_verificationtest.CurveModels.{EdwardsPoint, edwards_d}
use ed25519_verificationtest.Common.{
  ℕ, ◌+◌, ◌-◌, ◌*◌, ◌%◌, ◌^◌, ◌<◌, ◌≡◌, refl, arith, Congr, Congr-intro, Congr-refl, Congr-symm,
  Congr-trans, Congr-of_eq, Congr-add, Congr-mul, Bool, true, false, Subtle, some, none, List,
  le_value, byte, shr, ◌==◌, ◌⊎◌, inl, inr, IsBytes, lt-or_le,
}
use ed25519_verificationtest.Field51.{
  FieldElement51, value, p, IsBelow, negate, field_one, conditional_select_lem,
}
use ed25519_verificationtest.Field51.Bytes.{from_bytes}
use ed25519_verificationtest.Field51.Bytes.Decode
use ed25519_verificationtest.Field.{is_negative, sqrt_ratio_i}
use ed25519_verificationtest.Field.Sign.{is_negative_iff}
use ed25519_verificationtest.Field.Bounds.{sqrt_ratio_i-IsBelow}
use ed25519_verificationtest.Field.SquareRoot.{sqrt_ratio_i_sound, sqrt_ratio_i_nonnegative}
use ed25519_verificationtest.Edwards.{step_1, step_2, conditional_negate, decompress}
use ed25519_verificationtest.Edwards.Denotes.{
  minus, Denotes, Denotes-mul, Denotes-square, Denotes-add, Denotes-sub, Denotes-negate,
  Denotes-wide, Denotes-change, Denotes-weaken,
}
use ed25519_verificationtest.Edwards.Points.{IsAffine, d, IsOnCurve}
use ed25519_verificationtest.Common.{if◌then◌else◌}
use ed25519_verificationtest.Common.{subst}
use ed25519_verificationtest.Edwards.{sub, add}
use ed25519_verificationtest.Edwards.{square, mul}

-- Bit 255 of the encoding.
abbrev pub sign_bit : List ℕ → Bool
sign_bit repr = shr (byte repr 31) 7 == 1

-- A point that an encoding stands for.
pub record IsDecompressed (repr : List ℕ) (a : EdwardsPoint) : Type 0 where
  pub x : ℕ
  pub affine : IsAffine a x (le_value repr % 2 ^ 255)
  pub normal : affine.scale ≡ 1
  pub curve : IsOnCurve x (le_value repr % 2 ^ 255)
  pub sign : (is_negative a.x ≡ sign_bit repr) ⊎ Congr p x 0

-- The parity of a residue that is not zero changes with its sign.
negated_parity : (a b : ℕ) → Congr p (a + b) 0 → b % p % 2 ≡ 0 → 0 < b % p → a % p % 2 ≡ 1
negated_parity a b h even positive = omega (arith, h.same)

module _ ⦃s : Subtle⦄ where
  -- The root with the sign that is asked for.
  record IsSigned (root a : FieldElement51) (choice : Bool) : Type 0 where
    number : ℕ
    denotes : Denotes (2 ^ 52) a number
    square : Congr p (number * number) (value root * value root)
    sign : (is_negative a ≡ choice) ⊎ Congr p number 0

  conditional_negate-IsSigned :
      (root : FieldElement51) (choice : Bool)
      → IsBelow (2 ^ 52) root
      → is_negative root ≡ false
      → IsSigned root (conditional_negate root choice) choice
  unfolding conditional_negate
  conditional_negate-IsSigned root false h positive = rw conditional_select_lem (record {
    number = value root;
    denotes = record { below = h; same = Congr-refl p (value root) };
    square = Congr-refl p (value root * value root);
    sign = inl positive;
  })
  conditional_negate-IsSigned root true h positive = rw conditional_select_lem (record {
    number = minus * value root;
    denotes = negated;
    square = Congr-intro p _ _ 0 ((p - 2) * (value root * value root)) (omega arith);
    sign = elim (lt-or_le 0 (value root % p)) [
      | inl nonzero ↦ inl ((is_negative_iff (negate root) wide.below).1 (odd nonzero))
      | inr vanishes ↦
          let none : Congr p (value root) 0 = record { same = omega arith } in
          inr (Congr-trans (Congr-mul (Congr-refl p minus) none) (Congr-of_eq p (omega arith)))
    ];
  })
    where
      negated : Denotes (2 ^ 52) (negate root) (minus * value root)
      negated =
          Denotes-negate (Denotes-wide (record { below = h; same = Congr-refl p (value root) }))

      wide : Denotes (2 ^ 64) (negate root) (minus * value root)
      wide = Denotes-weaken (2 ^ 64) negated (omega arith)

      odd : 0 < value root % p → value (negate root) % p % 2 ≡ 1
      odd nonzero =
          negated_parity (value (negate root)) (value root)
            (Congr-trans (Congr-add negated.same (Congr-refl p (value root)))
              (Congr-intro p _ _ 0 (value root) (omega arith)))
            (ground (
              arith,
              is_negative_iff root
                  (Denotes-weaken (2 ^ 64) (record { below = h; same = Congr-refl p (value root) })
                    (omega arith)).below,
            ))
            nonzero

-- A choice that has a result.
chosen :
    {A : Type 0} (choice : Bool) (x a : A)
    → (if choice then some x else none) ≡ some a
    → (choice ≡ true) × (x ≡ a)
chosen true x a e = (refl, cc)
chosen false x a e = cc

module _ ⦃s : Subtle⦄ (repr : List ℕ) (h : IsBytes 32 repr) where
  abbrev y : FieldElement51
  y = from_bytes repr

  abbrev y_number : ℕ
  y_number = le_value repr % 2 ^ 255

  y-Denotes : Denotes (2 ^ 52) y y_number
  y-Denotes =
      Denotes-weaken (2 ^ 52)
        (record {
          below = Decode.from_bytes-IsBelow repr h;
          same = Congr-of_eq p (Decode.from_bytes-value repr h);
        })
        (omega arith)

  one-Denotes : Denotes (2 ^ 52) field_one 1
  one-Denotes = record { below = omega arith; same = Congr-refl p 1 }

  d-Denotes : Denotes (2 ^ 52) edwards_d d
  d-Denotes = record { below = omega arith; same = Congr-refl p d }

  abbrev u : FieldElement51
  u = sub (square y) field_one

  abbrev v : FieldElement51
  v = add (mul (square y) edwards_d) field_one

  u-Denotes : Denotes (2 ^ 54) u (y_number * y_number + minus * 1)
  u-Denotes = Denotes-wide (
      Denotes-sub (Denotes-wide (Denotes-square (Denotes-wide y-Denotes)))
        (Denotes-wide one-Denotes))

  v-Denotes : Denotes (2 ^ 54) v (y_number * y_number * d + 1)
  v-Denotes =
      let yy = Denotes-square (Denotes-wide y-Denotes) in
      Denotes-weaken (2 ^ 54)
        (Denotes-add (Denotes-mul (Denotes-wide yy) (Denotes-wide d-Denotes)) one-Denotes
          (omega arith))
        (omega arith)

  -- The root is the other coordinate.
  on_curve : (x : ℕ) → Congr p (value v * (x * x)) (value u) → IsOnCurve x y_number
  unfolding IsOnCurve
  on_curve x root =
      let left = Congr-mul (Congr-symm v-Denotes.same) (Congr-refl p (x * x)) in
      let right = Congr-add (Congr-trans root u-Denotes.same) (Congr-refl p 1) in
      Congr-symm (
        Congr-trans (Congr-of_eq p (omega arith)) (
          Congr-trans (Congr-add left (Congr-refl p 1))
            (Congr-trans right (Congr-intro p _ _ 0 1 (omega arith)))))

  decompressed :
      (sqrt_ratio_i u v).0 ≡ true → IsDecompressed repr (step_2 repr (sqrt_ratio_i u v).1 y)
  unfolding step_2
  decompressed ok =
      let root = (sqrt_ratio_i u v).1 in
      let small = sqrt_ratio_i-IsBelow u v u-Denotes.below v-Denotes.below in
      let (positive, wide) = sqrt_ratio_i_nonnegative u v u-Denotes.below v-Denotes.below in
      let sound = sqrt_ratio_i_sound u v u-Denotes.below v-Denotes.below ok in
      let signed = conditional_negate-IsSigned root (sign_bit repr) small positive in
      record {
        x = signed.number;
        affine = record {
          scale = 1;
          unit = record { inverse = 1; product = Congr-refl p 1 };
          denotes_x = Denotes-change signed.denotes (Congr-of_eq p (omega arith));
          denotes_y = Denotes-change y-Denotes (Congr-of_eq p (omega arith));
          denotes_z = one-Denotes;
          denotes_t =
              Denotes-change (Denotes-mul (Denotes-wide signed.denotes) (Denotes-wide y-Denotes))
                (Congr-of_eq p (omega arith));
        };
        normal = refl;
        curve =
            on_curve signed.number
              (Congr-trans (Congr-mul (Congr-refl p (value v)) signed.square) sound);
        sign = signed.sign;
      }

  -- If `decompress` answers with a point on 32 bytes, the point lies on the curve, its y is the
  -- number of the low 255 bits, its coordinates are normal, and the sign of its x is the top bit
  -- unless x is zero.
  pub decompress-IsDecompressed :
      (a : EdwardsPoint) → decompress repr ≡ some a → IsDecompressed repr a
  unfolding decompress step_1
  decompress-IsDecompressed a e =
      let (ok, same) = chosen (sqrt_ratio_i u v).0 (step_2 repr (sqrt_ratio_i u v).1 y) a e in
      subst (λ (t : EdwardsPoint). IsDecompressed repr t) same (decompressed ok)
