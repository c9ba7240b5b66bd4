-- ===== src/Scalar/Halve.antt =====
-- About `div_by_2` of curve25519/solana-ed25519/src/scalar.rs.
use ed25519_verificationtest.Common.{ℕ, ◌+◌, ◌*◌, ◌^◌, ◌%◌, ◌≡◌, refl, arith, Subtle}
use ed25519_verificationtest.Common.{
  bit_and-low_mask, le_value-low, byte, Bool-cases, Bool, true, false, if◌then◌else◌, inl, inr,
}
use ed25519_verificationtest.Scalar52.{value, order, shr1_assign, conditional_add_l}
use ed25519_verificationtest.Scalar52.Shift.{shr1_assign-value}
use ed25519_verificationtest.Scalar52.Subtract.{conditional_add_l-value}
use ed25519_verificationtest.Scalar.{Scalar, div_by_2, unpack, pack}
use ed25519_verificationtest.Scalar.Arithmetic.{number, IsCanonical, unpack-value, pack-IsCanonical}
use ed25519_verificationtest.Common.{Bool}
use ed25519_verificationtest.Common.{◌≤◌, bit_and}
use ed25519_verificationtest.Common.{◌==◌, ◌∙◌}
use ed25519_verificationtest.Common.{ap}

module _ ⦃s : Subtle⦄ where
  -- What the shift makes of an even sum of a canonical scalar and zero or the order.
  halve :
      (a : Scalar) (c : Bool) (d : ℕ)
      → IsCanonical a
      → (if c then order else 0) ≡ d
      → d ≤ order
      → (number a + d) % 2 ≡ 0
      → (number (pack (shr1_assign (conditional_add_l (unpack a) c).0).0) * 2 ≡ number a + d)
        × IsCanonical (pack (shr1_assign (conditional_add_l (unpack a) c).0).0)
  halve a c d h chosen small even =
      let (same, normal, top) = unpack-value a h.scalar in
      let (sum, sum_normal) = conditional_add_l-value (unpack a) c normal in
      let (half, half_normal, bit) =
        shr1_assign-value (conditional_add_l (unpack a) c).0 sum_normal in
      let total : value (conditional_add_l (unpack a) c).0 ≡ number a + d =
        sum
        ∙ ap (λ (t : ℕ). (value (unpack a) + t) % 2 ^ 260) chosen
        ∙ omega (arith, same, h.below, small) in
      let exact : value (shr1_assign (conditional_add_l (unpack a) c).0).0 * 2 ≡ number a + d =
        omega (arith, total, half, bit, even) in
      let (packed, canonical) =
        pack-IsCanonical (shr1_assign (conditional_add_l (unpack a) c).0).0
          (record { normal = half_normal; below = omega (arith, exact, small, h.below) }) in
      (ap (λ (t : ℕ). t * 2) packed ∙ exact, canonical)

  -- For a canonical scalar, twice `div_by_2` is the number, plus the group order if the number is
  -- odd, and the half is canonical.
  pub div_by_2-number :
      (a : Scalar)
      → IsCanonical a
      → (number (div_by_2 a) * 2 ≡ number a + order * (number a % 2)) × IsCanonical (div_by_2 a)
  unfolding div_by_2
  div_by_2-number a h =
      let low : bit_and (byte a.bytes 0) 1 ≡ byte a.bytes 0 % 2 =
        bit_and-low_mask 1 (byte a.bytes 0) in
      let parity : byte a.bytes 0 % 2 ≡ number a % 2 = omega (arith, le_value-low a.bytes) in
      elim (Bool-cases (bit_and (byte a.bytes 0) 1 == 1)) [
        | inl odd ↦
            let one : number a % 2 ≡ 1 = ground arith in
            rw (odd, one) (halve a true order h refl (omega arith) (omega arith))
        | inr even ↦
            let none : number a % 2 ≡ 0 = ground arith in
            rw (even, none) (halve a false 0 h refl (omega arith) (omega arith))
      ]
