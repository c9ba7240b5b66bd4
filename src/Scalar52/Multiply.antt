-- ===== src/Scalar52/Multiply.antt =====
-- About `mul`, `square` and the Montgomery form of
-- curve25519/solana-ed25519/src/backend/serial/u64/scalar.rs.
use ed25519_verificationtest.Common.{ℕ, ◌*◌, ◌^◌, ◌%◌, ◌<◌, ◌≡◌, refl, ap, arith}
use ed25519_verificationtest.Common.{
  Congr, Congr-refl, Congr-symm, Congr-trans, Congr-of_eq, Congr-mul,
}
use ed25519_verificationtest.Common.{Congr-residue, Subtle}
use ed25519_verificationtest.Scalar52.{Scalar52, value, order, IsNormal, IsReduced, rr}
use ed25519_verificationtest.Scalar52.{montgomery_reduce, mul_internal, mul, square}
use ed25519_verificationtest.Scalar52.{
  montgomery_mul, montgomery_square, as_montgomery, from_montgomery,
}
use ed25519_verificationtest.Scalar52.Product.{mul_internal-value, square-mul_internal}
use native.Mathlib.Nat.{mod-eq_of_lt}
use ed25519_verificationtest.Scalar52.Montgomery.{montgomery_reduce-value}
use ed25519_verificationtest.Common.{◌∙◌}
use ed25519_verificationtest.Scalar52.{Wide}

-- The inverse of 2^260 modulo the order.
abbrev inverse_of_radix : ℕ
inverse_of_radix = 5706410653605570882457795059301885719620630590890452783038400561109479083972

radix_inverse : Congr order (2 ^ 260 * inverse_of_radix) 1
radix_inverse = record { same = refl }

pub rr-value : Congr order (value rr) (2 ^ 260 * 2 ^ 260)
rr-value = record { same = refl }

-- The radix may be taken off both sides of a congruence.
pub cancel_radix : (x y : ℕ) → Congr order (x * 2 ^ 260) (y * 2 ^ 260) → Congr order x y
cancel_radix x y h = Congr-trans (Congr-symm (unit x)) (Congr-trans scaled (unit y))
  where
    unit : (z : ℕ) → Congr order (z * 2 ^ 260 * inverse_of_radix) z
    unit z = Congr-trans (Congr-of_eq order (omega arith)) (
        Congr-trans (Congr-mul (Congr-refl order z) radix_inverse)
          (Congr-of_eq order (omega arith)))

    scaled : Congr order (x * 2 ^ 260 * inverse_of_radix) (y * 2 ^ 260 * inverse_of_radix)
    scaled = Congr-mul h (Congr-refl order inverse_of_radix)

module _ ⦃s : Subtle⦄ where
  -- The Montgomery product of normal limbs divides by 2^260.
  pub montgomery_mul-value :
      (a b : Scalar52)
      → IsNormal a
      → IsNormal b
      → value a * value b < 2 ^ 260 * order
      → Congr order (value (montgomery_mul a b) * 2 ^ 260) (value a * value b)
        × IsReduced (montgomery_mul a b)
  unfolding montgomery_mul
  montgomery_mul-value a b ha hb bound =
      let (product, wide) = mul_internal-value a b ha hb in
      let (same, reduced) = montgomery_reduce-value (mul_internal a b) wide (omega arith) in
      (Congr-trans same (Congr-of_eq order product), reduced)

  pub montgomery_reduce-mul_internal :
      (a b : Scalar52) → montgomery_reduce (mul_internal a b) ≡ montgomery_mul a b
  unfolding montgomery_mul
  montgomery_reduce-mul_internal a b = refl

  -- Conversion into Montgomery form multiplies by 2^260.
  pub as_montgomery-value :
      (a : Scalar52)
      → IsNormal a
      → value a < 2 ^ 260
      → Congr order (value (as_montgomery a)) (value a * 2 ^ 260) × IsReduced (as_montgomery a)
  unfolding as_montgomery
  as_montgomery-value a h bound =
      let rr_normal : IsNormal rr = omega arith in
      let (same, reduced) = montgomery_mul-value a rr h rr_normal (omega arith) in
      (
        cancel_radix _ _ (
            Congr-trans same (
              Congr-trans (Congr-mul (Congr-refl order (value a)) rr-value)
                (Congr-of_eq order (omega arith)))),
        reduced,
      )

  -- For limbs below 2^52 whose values have a product below 2^260 times the order, `mul` gives the
  -- product modulo the order, reduced.
  pub mul-residue :
      (a b : Scalar52)
      → IsNormal a
      → IsNormal b
      → value a * value b < 2 ^ 260 * order
      → (value (mul a b) ≡ value a * value b % order) × IsReduced (mul a b)
  unfolding mul montgomery_mul as_montgomery
  mul-residue a b ha hb bound =
      let ab = montgomery_mul a b in
      let (same, reduced) = montgomery_mul-value a b ha hb bound in
      let (back, out) = as_montgomery-value ab reduced.normal (omega (arith, reduced.below)) in
      (Congr-residue order _ _ out.below (Congr-trans back same), out)

  -- `square` computes what `mul` computes of the scalar with itself.
  pub square-mul_residue : (a : Scalar52) → IsNormal a → square a ≡ mul a a
  unfolding square mul
  square-mul_residue a h =
      ap (λ t. montgomery_reduce (mul_internal (montgomery_reduce t) rr)) (square-mul_internal a h)

  pub montgomery_square-mul : (a : Scalar52) → IsNormal a → montgomery_square a ≡ montgomery_mul a a
  unfolding montgomery_square montgomery_mul
  montgomery_square-mul a h = ap montgomery_reduce (square-mul_internal a h)

  -- `from_montgomery` divides by 2^260.
  pub from_montgomery-value :
      (a : Scalar52)
      → IsReduced a
      → Congr order (value (from_montgomery a) * 2 ^ 260) (value a) × IsReduced (from_montgomery a)
  unfolding from_montgomery
  from_montgomery-value a h =
      let limbs : Wide = record {
        z0 = a.l0;
        z1 = a.l1;
        z2 = a.l2;
        z3 = a.l3;
        z4 = a.l4;
        z5 = 0;
        z6 = 0;
        z7 = 0;
        z8 = 0;
      } in
      let (same, reduced) =
        montgomery_reduce-value limbs (omega (arith, h.normal)) (omega (arith, h.below)) in
      (Congr-trans same (Congr-of_eq order (omega arith)), reduced)

  -- For a reduced scalar, `from_montgomery` of `as_montgomery` gives the value back.
  pub from_montgomery-as_montgomery :
      (a : Scalar52) → IsReduced a → value (from_montgomery (as_montgomery a)) ≡ value a
  from_montgomery-as_montgomery a h =
      let (there, reduced) = as_montgomery-value a h.normal (omega (arith, h.below)) in
      let (back, out) = from_montgomery-value (as_montgomery a) reduced in
      Congr-residue order _ _ out.below (cancel_radix _ _ (Congr-trans back there))
      ∙ mod-eq_of_lt h.below
