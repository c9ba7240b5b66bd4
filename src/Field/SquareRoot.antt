-- ===== src/Field/SquareRoot.antt =====
-- About `sqrt_ratio_i` and `invsqrt` of curve25519/solana-ed25519/src/field.rs.
use ed25519_verificationtest.Common.{ℕ, ◌+◌, ◌*◌, ◌^◌, ◌≡◌, refl, arith}
use ed25519_verificationtest.Common.{Congr, Congr-refl, Congr-symm, Congr-trans, Congr-of_eq}
use ed25519_verificationtest.Common.{Congr-mul}
use ed25519_verificationtest.Common.{Bool, true, false, ◌||◌, Bool-cases, inl, inr, Subtle}
use ed25519_verificationtest.Field51.{FieldElement51, value, p, IsBelow, mul, square, negate}
use ed25519_verificationtest.Field51.{conditional_select_lem}
use ed25519_verificationtest.Field51.Reduce.{negate-value}
use ed25519_verificationtest.Field51.Multiply.{mul-value}
use ed25519_verificationtest.Field.{sqrt_m1, ct_eq, is_negative, flip_root, nonnegative_root}
use ed25519_verificationtest.Field.{candidate_root, sqrt_ratio_i}
use ed25519_verificationtest.Field.Sign.{is_negative_iff, ct_eq_iff}
use ed25519_verificationtest.Field.Modular.{square_of_inverse, turned, zero_of_turned, odd_inverse}
use ed25519_verificationtest.Field.{invsqrt}
use ed25519_verificationtest.Field.{field_one}
use ed25519_verificationtest.Field.Bounds.{small, wide, square-value, candidate_root-IsBelow}

-- `sqrt_m1` is a square root of -1.
sqrt_m1_squared : Congr p (value sqrt_m1 * value sqrt_m1 + 1) 0
sqrt_m1_squared = record { same = refl }

sqrt_m1-IsBelow : IsBelow (2 ^ 54) sqrt_m1
sqrt_m1-IsBelow = omega arith

-- The inverse of an element with an odd representative has an even one.
inverse_sign :
    (r : FieldElement51)
    → IsBelow (2 ^ 54) r
    → is_negative r ≡ true
    → is_negative (negate r) ≡ false
inverse_sign r h negative =
    let (inverse, below) = negate-value r h in
    let r_odd = (is_negative_iff r (omega arith)).0 negative in
    elim (Bool-cases (is_negative (negate r))) [
      | inl bad ↦ absurd (
          odd_inverse (value (negate r)) (value r) inverse
            ((is_negative_iff (negate r) (omega arith)).0 bad) r_odd)
      | inr good ↦ good
    ]

module _ ⦃s : Subtle⦄ where
  nonnegative_root-value :
      (r : FieldElement51)
      → IsBelow (2 ^ 54) r
      → Congr p (value (nonnegative_root r) * value (nonnegative_root r)) (value r * value r)
        × (is_negative (nonnegative_root r) ≡ false)
        × IsBelow (2 ^ 54) (nonnegative_root r)
  unfolding nonnegative_root
  nonnegative_root-value r h = elim (Bool-cases (is_negative r)) [
    | inl negative ↦
        let (inverse, below) = negate-value r h in
        rw (conditional_select_lem, negative)
          (
            square_of_inverse (value (negate r)) (value r) inverse,
            inverse_sign r h negative,
            small (negate r) below,
          )
    | inr positive ↦ rw (conditional_select_lem, positive) (Congr-refl p _, positive, h)
  ]

  -- The candidate that is squared for the test, turned by `sqrt_m1` where a sign was wrong.
  flip_root-value :
      (r : FieldElement51) (flipped : Bool)
      → IsBelow (2 ^ 54) r
      → IsBelow (2 ^ 54) (flip_root r flipped)
        × (flipped ≡ false → flip_root r flipped ≡ r)
        × (flipped ≡ true → Congr p (value (flip_root r flipped)) (value sqrt_m1 * value r))
  unfolding flip_root
  flip_root-value r true h =
      let (product, below) = mul-value sqrt_m1 r sqrt_m1-IsBelow h in
      rw conditional_select_lem (small (mul sqrt_m1 r) below, λ e. cc, λ e. product)
  flip_root-value r false h = rw conditional_select_lem (h, λ e. refl, λ e. cc)

  module _ (u v : FieldElement51) (hu : IsBelow (2 ^ 54) u) (hv : IsBelow (2 ^ 54) v)
      (r : FieldElement51) (hr : IsBelow (2 ^ 54) r) where
    abbrev check : FieldElement51
    check = mul v (square r)

    check-value : Congr p (value check) (value v * (value r * value r)) × IsBelow (2 ^ 54) check
    check-value =
        let (squared, below) = square-value r hr in
        let (product, out) = mul-value v (square r) hv (small (square r) below) in
        (Congr-trans product (Congr-mul (Congr-refl p (value v)) squared), small check out)

    -- A root that is turned squares to the check times -1.
    turned_root :
        (t : FieldElement51) (w : ℕ)
        → Congr p (value t) (value sqrt_m1 * value r)
        → Congr p (value check) w
        → Congr p (value v * (value t * value t)) (value sqrt_m1 * value sqrt_m1 * w)
    turned_root t w ht hw =
        let i = value sqrt_m1 in
        let squared = Congr-mul (Congr-refl p (value v)) (Congr-mul ht ht) in
        Congr-trans squared (
          Congr-trans (Congr-of_eq p (regroup (value v) i (value r)))
            (Congr-mul (Congr-refl p (i * i)) (Congr-trans (Congr-symm check-value.0) hw)))
      where
        regroup : (x i y : ℕ) → x * (i * y * (i * y)) ≡ i * i * (x * (y * y))
        regroup x i y = omega arith

    flipped_sound :
        (t : FieldElement51)
        → Congr p (value t) (value sqrt_m1 * value r)
        → ct_eq check (negate u) ≡ true
        → Congr p (value v * (value t * value t)) (value u)
    flipped_sound t ht test =
        let (inverse, below) = negate-value u hu in
        let same =
          (ct_eq_iff check (negate u) (wide check check-value.1)
              (wide (negate u) (small _ below))).0
            test in
        Congr-trans (turned_root t (value (negate u)) ht same)
          (turned (value sqrt_m1) (value (negate u)) (value u) sqrt_m1_squared inverse)

    -- Where the check equals `u` and also `-u` times the root of -1, `u` is zero.
    degenerate_sound :
        (t : FieldElement51)
        → Congr p (value t) (value sqrt_m1 * value r)
        → ct_eq check u ≡ true
        → ct_eq check (mul (negate u) sqrt_m1) ≡ true
        → Congr p (value v * (value t * value t)) (value u)
    degenerate_sound t ht test test_i =
        let i = value sqrt_m1 in
        let (inverse, below) = negate-value u hu in
        let (product, out) =
          mul-value (negate u) sqrt_m1 (small (negate u) below) sqrt_m1-IsBelow in
        let c = wide check check-value.1 in
        let same = (ct_eq_iff check u c (wide u hu)).0 test in
        let same_i = (ct_eq_iff check _ c (wide _ (small _ out))).0 test_i in
        let u_zero =
          zero_of_turned i (value (negate u)) (value u) sqrt_m1_squared inverse
            (Congr-trans (Congr-symm same) (Congr-trans same_i product)) in
        let turned_zero = Congr-mul (Congr-refl p (i * i)) (Congr-refl p 0) in
        Congr-trans (turned_root t 0 ht (Congr-trans same u_zero))
          (Congr-trans (Congr-of_eq p (omega arith)) (Congr-symm u_zero))

    correct_sound : ct_eq check u ≡ true → Congr p (value v * (value r * value r)) (value u)
    correct_sound test =
        Congr-trans (Congr-symm check-value.0)
          ((ct_eq_iff check u (wide check check-value.1) (wide u hu)).0 test)

    root_sound :
        (f fi : Bool)
        → ct_eq check (negate u) ≡ f
        → ct_eq check (mul (negate u) sqrt_m1) ≡ fi
        → (ct_eq check u || f) ≡ true
        → let t = flip_root r (f || fi) in Congr p (value v * (value t * value t)) (value u)
    root_sound true fi ef ei ok = flipped_sound _ ((flip_root-value r true hr).2 refl) ef
    root_sound false true ef ei ok =
        degenerate_sound _ ((flip_root-value r true hr).2 refl) (ground arith) ei
    root_sound false false ef ei ok =
        rw ((flip_root-value r false hr).1 refl) (correct_sound (ground arith))

  sqrt_ratio_i_facts :
      (u v : FieldElement51)
      → IsBelow (2 ^ 54) u
      → IsBelow (2 ^ 54) v
      → let result = sqrt_ratio_i u v in
        let root = value result.1 in
        (is_negative result.1 ≡ false)
        × IsBelow (2 ^ 54) result.1
        × (result.0 ≡ true → Congr p (value v * (root * root)) (value u))
  unfolding sqrt_ratio_i
  sqrt_ratio_i_facts u v hu hv =
      let r = candidate_root u v in
      let hr = small r (candidate_root-IsBelow u v hu hv) in
      let c = mul v (square r) in
      let f = ct_eq c (negate u) in
      let fi = ct_eq c (mul (negate u) sqrt_m1) in
      let t = flip_root r (f || fi) in
      let (same, sign, below) = nonnegative_root-value t (flip_root-value r (f || fi) hr).0 in
      (
        sign,
        below,
        λ ok.
            Congr-trans (Congr-mul (Congr-refl p (value v)) same)
              (root_sound u v hu hv r hr f fi refl refl ok),
      )

  -- For `u` and `v` with limbs below 2^54, the root that `sqrt_ratio_i` returns is not negative,
  -- whatever the answer, and its limbs are below 2^54.
  pub sqrt_ratio_i_nonnegative :
      (u v : FieldElement51)
      → IsBelow (2 ^ 54) u
      → IsBelow (2 ^ 54) v
      → (is_negative (sqrt_ratio_i u v).1 ≡ false) × IsBelow (2 ^ 54) (sqrt_ratio_i u v).1
  sqrt_ratio_i_nonnegative u v hu hv =
      let (sign, below, root) = sqrt_ratio_i_facts u v hu hv in (sign, below)

  -- For `u` and `v` with limbs below 2^54, if `sqrt_ratio_i` answers true, then `v` times the
  -- square of the root it returns is congruent to `u` modulo 2^255 - 19.
  pub sqrt_ratio_i_sound :
      (u v : FieldElement51)
      → IsBelow (2 ^ 54) u
      → IsBelow (2 ^ 54) v
      → (sqrt_ratio_i u v).0 ≡ true
      → let root = value (sqrt_ratio_i u v).1 in Congr p (value v * (root * root)) (value u)
  sqrt_ratio_i_sound u v hu hv ok = (sqrt_ratio_i_facts u v hu hv).2 ok

  -- For limbs below 2^54, if `invsqrt` answers true, the element times the square of the root it
  -- returns is congruent to 1 modulo 2^255 - 19.
  pub invsqrt_sound :
      (a : FieldElement51)
      → IsBelow (2 ^ 54) a
      → (invsqrt a).0 ≡ true
      → let root = value (invsqrt a).1 in Congr p (value a * (root * root)) 1
  unfolding invsqrt
  invsqrt_sound a h ok =
      let one_below : IsBelow (2 ^ 54) field_one = omega arith in
      sqrt_ratio_i_sound field_one a one_below h ok
