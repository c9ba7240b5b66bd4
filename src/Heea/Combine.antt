-- ===== src/Heea/Combine.antt =====
-- The arithmetic of one turn of `curve25519_heea_vartime` of
-- curve25519/solana-ed25519/src/scalar/heea.rs is exact.
use ed25519_verificationtest.Common.{
  ℕ, ◌*◌, ◌^◌, ◌<◌, ◌≡◌, arith, inl, inr, Bool-cases, true, false,
}
use ed25519_verificationtest.Heea.{
  I256, is_negative, same_sign, wrapping_add, wrapping_sub, wrapping_shl,
}
use ed25519_verificationtest.Heea.Magnitude.{magnitude, IsWords}
use ed25519_verificationtest.Heea.Shift.{IsShifted, wrapping_shl-IsShifted}
use ed25519_verificationtest.Heea.Signed.{
  plus, minus, one_sided, wrapping_add-IsSum, wrapping_sub-IsDifference, is_negative-minus,
  is_negative-plus,
}
use ed25519_verificationtest.Heea.Cofactors.{Parts, flipped, IsOneSided, IsReduction, IsAligned}

abbrev pub parts : I256 → Parts
parts v = record { pos = plus v; neg = minus v }

pub parts-IsOneSided : (v : I256) → IsOneSided (parts v)
unfolding IsOneSided
parts-IsOneSided v = one_sided v

shifted-parts :
    (v w : I256) (s : ℕ) → IsShifted v s w → (plus w ≡ plus v * 2 ^ s) × (minus w ≡ minus v * 2 ^ s)
shifted-parts v w s h = elim (Bool-cases v.negative) [
  | inl below ↦ let sign = h.sign in (ground (arith, h.scaled), ground (arith, h.scaled))
  | inr above ↦ let sign = h.sign in (ground (arith, h.scaled), ground (arith, h.scaled))
]

-- The two operations of a turn, on numbers whose bits leave room for the result.
module _ (a b : I256) (s : ℕ) (ha : IsWords a.limbs) (hb : IsWords b.limbs) (small : s < 256)
    (room_a : magnitude a.limbs < 2 ^ 254) (room_b : magnitude b.limbs * 2 ^ s < 2 ^ 254) where
  shifted : IsShifted b s (wrapping_shl b s)
  shifted = wrapping_shl-IsShifted b s hb small (omega arith)

  pub sub_shifted :
      IsWords (wrapping_sub a (wrapping_shl b s)).limbs
      × IsReduction (2 ^ s) (parts a) (parts b) (parts (wrapping_sub a (wrapping_shl b s)))
  unfolding IsReduction
  sub_shifted =
      let (pos, neg) = shifted-parts b (wrapping_shl b s) s shifted in
      let difference =
        wrapping_sub-IsDifference a (wrapping_shl b s) ha shifted.words
          (omega (arith, shifted.scaled)) in
      (difference.words, omega (arith, difference.exact, pos, neg))

  pub add_shifted :
      IsWords (wrapping_add a (wrapping_shl b s)).limbs
      × IsReduction
          (2 ^ s)
          (parts a)
          (flipped (parts b))
          (parts (wrapping_add a (wrapping_shl b s)))
  unfolding IsReduction
  add_shifted =
      let (pos, neg) = shifted-parts b (wrapping_shl b s) s shifted in
      let sum =
        wrapping_add-IsSum a (wrapping_shl b s) ha shifted.words (omega (arith, shifted.scaled)) in
      (sum.words, omega (arith, sum.exact, pos, neg))

-- What the comparison of the signs decides.
pub same_sign-IsAligned :
    (a b : I256) → same_sign (is_negative a) (is_negative b) ≡ true → IsAligned (parts a) (parts b)
unfolding IsAligned
same_sign-IsAligned a b e = elim (Bool-cases (is_negative a)) [
  | inl below ↦
      let other : is_negative b ≡ true = ground arith in
      inr ((is_negative-minus a below).0, (is_negative-minus b other).0)
  | inr above ↦
      let other : is_negative b ≡ false = ground arith in
      inl (is_negative-plus a above, is_negative-plus b other)
]

pub same_sign-opposite :
    (a b : I256)
    → same_sign (is_negative a) (is_negative b) ≡ false
    → IsAligned (parts a) (flipped (parts b))
unfolding IsAligned
same_sign-opposite a b e = elim (Bool-cases (is_negative a)) [
  | inl below ↦
      let other : is_negative b ≡ false = ground arith in
      inr ((is_negative-minus a below).0, is_negative-plus b other)
  | inr above ↦
      let other : is_negative b ≡ true = ground arith in
      inl (is_negative-plus a above, (is_negative-minus b other).0)
]
