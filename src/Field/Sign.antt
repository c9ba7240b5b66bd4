-- ===== src/Field/Sign.antt =====
-- About `is_negative`, `ct_eq` and `is_zero` of curve25519/solana-ed25519/src/field.rs.
use ed25519_verificationtest.Common.{◌%◌, ◌^◌, ◌≡◌, ◌↔◌, sym, ap, arith}
use ed25519_verificationtest.Common.{
  true, Congr, Subtle, le_value, le_value-injective, byte, le_value-low, bit_and-low_mask, ◌∙◌,
}
use ed25519_verificationtest.Field51.{FieldElement51, value, p, IsBelow}
use ed25519_verificationtest.Field51.Bytes.{to_bytes}
use ed25519_verificationtest.Field51.Bytes.Encode.{to_bytes-value}
use ed25519_verificationtest.Field.{ct_eq, is_negative}
use ed25519_verificationtest.Common.{IsBytes}
use ed25519_verificationtest.Field.{is_zero}
use ed25519_verificationtest.Common.{tabulate}
use ed25519_verificationtest.Common.{All-IsBytes}
use ed25519_verificationtest.Common.{refl}

-- For an element with any 64-bit limbs, `is_negative` answers true exactly if the remainder of the
-- value by 2^255 - 19 is odd.
pub is_negative_iff :
    (a : FieldElement51) → IsBelow (2 ^ 64) a → (is_negative a ≡ true) ↔ (value a % p % 2 ≡ 1)
unfolding is_negative
is_negative_iff a h =
    let (exact, bytes) = to_bytes-value a h in
    ground (arith, bit_and-low_mask 1 (byte (to_bytes a) 0), le_value-low (to_bytes a))

module _ ⦃s : Subtle⦄ (a b : FieldElement51) (ha : IsBelow (2 ^ 64) a)
    (hb : IsBelow (2 ^ 64) b) where
  -- For elements with any 64-bit limbs, `ct_eq` answers true exactly if the values are congruent
  -- modulo 2^255 - 19.
  pub ct_eq_iff : (ct_eq a b ≡ true) ↔ Congr p (value a) (value b)
  unfolding ct_eq
  ct_eq_iff =
      let (xa, wa) = to_bytes-value a ha in
      let (xb, wb) = to_bytes-value b hb in
      (
        λ e. record { same = sym xa ∙ ap le_value ((s.ct_eq_iff _ _).0 e) ∙ xb },
        λ c. (s.ct_eq_iff _ _).1 (le_value-injective 32 _ _ wa wb (xa ∙ c.same ∙ sym xb)),
      )

zero_bytes-IsBytes : IsBytes 32 (tabulate 32 0 (λ i. 0))
zero_bytes-IsBytes = All-IsBytes 32 _ refl (omega arith)

-- For an element with any 64-bit limbs, `is_zero` answers true exactly if the value is a multiple
-- of 2^255 - 19.
pub is_zero_iff :
    ⦃s : Subtle⦄ (a : FieldElement51) → IsBelow (2 ^ 64) a → (is_zero a ≡ true) ↔ (value a % p ≡ 0)
unfolding is_zero
is_zero_iff ⦃s⦄ a h =
    let (exact, bytes) = to_bytes-value a h in
    (
      λ e. sym exact ∙ ap le_value ((s.ct_eq_iff _ _).0 e),
      λ e. (s.ct_eq_iff _ _).1 (le_value-injective 32 _ _ bytes zero_bytes-IsBytes (exact ∙ e)),
    )
