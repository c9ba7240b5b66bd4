-- ===== src/Digits/Signed.antt =====
-- About `as_radix_2w` of curve25519/solana-ed25519/src/scalar.rs, for all widths.
use ed25519_verificationtest.Common.{
  ℕ, zero, suc, ◌^◌, ◌<◌, ◌≤◌, ◌≡◌, inl, inr, refl, sym, ap, arith, List, length, Bool-cases, ◌==◌,
}
use ed25519_verificationtest.Digits.{
  read_le_u64, as_radix_2w, as_radix_16, fold_carry, padded, radix_digits, digits_count,
}
use ed25519_verificationtest.Digits.Radix16.{balanced_entry, as_radix_16-value}
use ed25519_verificationtest.Digits.FoldCarry.{
  IsSignedExpansion, fold_carry-narrow, fold_carry-wide,
}
use ed25519_verificationtest.Digits.Windows.{words_value, IsWords, read_le_u64-value}
use ed25519_verificationtest.Scalar.{Scalar}
use ed25519_verificationtest.Scalar.Arithmetic.{number, IsScalar}

length-read_le_u64 : (n : ℕ) (src : List ℕ) → length (read_le_u64 n src) ≡ n
unfolding read_le_u64
length-read_le_u64 zero src = refl
length-read_le_u64 (suc n) src = ap suc (length-read_le_u64 n _)

by_width :
    (xs : List ℕ) (w : ℕ)
    → length xs ≡ 4
    → IsWords xs
    → words_value xs < 2 ^ 255
    → 4 < w
    → w ≤ 8
    → IsSignedExpansion w (words_value xs) (
        fold_carry w
          (padded (digits_count w) (radix_digits (digits_count w) xs w 0 0).0)
          (radix_digits (digits_count w) xs w 0 0).1)
by_width xs w sized words below wide narrow = elim (Bool-cases (w == 8)) [
  | inl same ↦ let eight : w ≡ 8 = ground arith in fold_carry-wide xs w sized words below wide eight
  | inr apart ↦
      let less : w < 8 = ground arith in fold_carry-narrow xs w sized words below wide less
]

-- For a scalar of 32 bytes below 2^255 and a width from 4 to 8, `as_radix_2w` gives 64 digits whose
-- sum by powers of 2^w, the positive ones less the negative ones, is the number, and each digit is
-- from -2^w / 2 to 2^w / 2.
pub as_radix_2w-IsSignedExpansion :
    (a : Scalar) (w : ℕ)
    → IsScalar a
    → number a < 2 ^ 255
    → 3 < w
    → w ≤ 8
    → IsSignedExpansion w (number a) (as_radix_2w a w)
unfolding as_radix_2w
as_radix_2w-IsSignedExpansion a w h below wide narrow = elim (Bool-cases (w == 4)) [
  | inl same ↦
      let four : w ≡ 4 = ground arith in
      let (sum, balanced, sized) = as_radix_16-value a h below in
      rw (same, four)
        (record {
          sum = sum;
          sized = sized;
          high = λ i. (balanced_entry (as_radix_16 a) balanced i).0;
          low = λ i. (balanced_entry (as_radix_16 a) balanced i).1;
        })
  | inr apart ↦
      let above : 4 < w = ground arith in
      let (exact, words) = read_le_u64-value 4 a.bytes h in
      rw (apart, sym exact)
        (by_width (read_le_u64 4 a.bytes) w (length-read_le_u64 4 a.bytes) words
          (omega (arith, exact)) above narrow)
]
