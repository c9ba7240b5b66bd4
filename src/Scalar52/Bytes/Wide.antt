-- ===== src/Scalar52/Bytes/Wide.antt =====
-- About `from_bytes_wide` of curve25519/solana-ed25519/src/backend/serial/u64/scalar.rs.
use ed25519_verificationtest.Common.{ℕ, ◌+◌, ◌*◌, ◌/◌, ◌%◌, ◌^◌, ◌<◌, ◌≡◌, refl, arith, List}
use ed25519_verificationtest.Common.{shr, le_value, IsBytes, le_value-tabulate, Subtle}
use ed25519_verificationtest.Common.{
  Congr, Congr-refl, Congr-trans, Congr-of_eq, Congr-mul, Congr-add,
}
use ed25519_verificationtest.Scalar52.{value, order, IsNormal, IsReduced, r, rr, montgomery_mul}
use ed25519_verificationtest.Scalar52.Subtract.{low_52_lem, add-residue}
use ed25519_verificationtest.Scalar52.Multiply.{montgomery_mul-value, cancel_radix, rr-value}
use ed25519_verificationtest.Scalar52.Bytes.{word, wide_low, wide_high, from_bytes_wide}
use ed25519_verificationtest.Scalar52.Bytes.Decode.{word_sum, word-lt, joined}
use ed25519_verificationtest.Common.{◌∙◌}
use ed25519_verificationtest.Common.{ap}

r-value : Congr order (value r) (2 ^ 260)
r-value = record { same = refl }

module _ (bytes : List ℕ) (h : IsBytes 64 bytes) where
  abbrev w : ℕ → ℕ
  w = word bytes

  eight_words :
      le_value bytes
      ≡ w 0
        + 2 ^ 64 * w 1
        + 2 ^ 128 * w 2
        + 2 ^ 192 * w 3
        + 2 ^ 256 * w 4
        + 2 ^ 320 * w 5
        + 2 ^ 384 * w 6
        + 2 ^ 448 * w 7
  eight_words =
      rw
        (
          le_value-tabulate 64 bytes h.sized,
          word_sum bytes 64 0 h (omega arith),
          word_sum bytes 64 1 h (omega arith),
          word_sum bytes 64 2 h (omega arith),
          word_sum bytes 64 3 h (omega arith),
          word_sum bytes 64 4 h (omega arith),
          word_sum bytes 64 5 h (omega arith),
          word_sum bytes 64 6 h (omega arith),
          word_sum bytes 64 7 h (omega arith),
        )
        (omega arith)

  low_value :
      (value (wide_low bytes)
        ≡ w 0 + 2 ^ 64 * w 1 + 2 ^ 128 * w 2 + 2 ^ 192 * w 3 + 2 ^ 256 * (w 4 % 2 ^ 4))
      × IsNormal (wide_low bytes)
  unfolding wide_low
  low_value =
      let h0 = word-lt bytes 64 0 h (omega arith) in
      let h1 = word-lt bytes 64 1 h (omega arith) in
      let h2 = word-lt bytes 64 2 h (omega arith) in
      let h3 = word-lt bytes 64 3 h (omega arith) in
      rw
        (
          joined 12 (shr (w 0) 52) (w 1) (w 1 % 2 ^ 52) (omega arith) (omega arith),
          joined 24 (shr (w 1) 40) (w 2) (w 2 % 2 ^ 40) (omega arith) (omega arith),
          joined 36 (shr (w 2) 28) (w 3) (w 3 % 2 ^ 28) (omega arith) (omega arith),
          joined 48 (shr (w 3) 16) (w 4) (w 4 % 2 ^ 16) (omega arith) (omega arith),
        )
        (omega (arith, low_52_lem))

  high_value :
      (value (wide_high bytes) ≡ w 4 / 2 ^ 4 + 2 ^ 60 * w 5 + 2 ^ 124 * w 6 + 2 ^ 188 * w 7)
      × IsNormal (wide_high bytes)
      × (value (wide_high bytes) < 2 ^ 252)
  unfolding wide_high
  high_value =
      let h4 = word-lt bytes 64 4 h (omega arith) in
      let h5 = word-lt bytes 64 5 h (omega arith) in
      let h6 = word-lt bytes 64 6 h (omega arith) in
      let h7 = word-lt bytes 64 7 h (omega arith) in
      rw
        (
          joined 8 (shr (w 4) 56) (w 5) (w 5 % 2 ^ 56) (omega arith) (omega arith),
          joined 20 (shr (w 5) 44) (w 6) (w 6 % 2 ^ 44) (omega arith) (omega arith),
          joined 32 (shr (w 6) 32) (w 7) (w 7 % 2 ^ 32) (omega arith) (omega arith),
        )
        (omega (arith, low_52_lem))

  halves : value (wide_low bytes) + 2 ^ 260 * value (wide_high bytes) ≡ le_value bytes
  halves = omega (arith, eight_words, low_value, high_value)

  -- Reducing 64 bytes gives the remainder of the 512-bit number by the group order.
  pub from_bytes_wide-value :
      ⦃s : Subtle⦄
      → (value (from_bytes_wide bytes) ≡ le_value bytes % order) × IsReduced (from_bytes_wide bytes)
  unfolding from_bytes_wide
  from_bytes_wide-value =
      let lo = wide_low bytes in
      let hi = wide_high bytes in
      let (hi_sum, hi_normal, hi_bound) = high_value in
      let lo_normal = low_value.1 in
      let constants : IsNormal r × IsNormal rr = omega arith in
      let (hi_same, hi_reduced) = montgomery_mul-value hi rr hi_normal constants.1 (omega arith) in
      let (lo_same, lo_reduced) = montgomery_mul-value lo r lo_normal constants.0 (omega arith) in
      let hi_part : Congr order (value (montgomery_mul hi rr)) (value hi * 2 ^ 260) =
        cancel_radix _ _ (
          Congr-trans hi_same (
            Congr-trans (Congr-mul (Congr-refl order (value hi)) rr-value)
              (Congr-of_eq order (omega arith)))) in
      let lo_part : Congr order (value (montgomery_mul lo r)) (value lo) =
        cancel_radix _ _ (Congr-trans lo_same (Congr-mul (Congr-refl order (value lo)) r-value)) in
      let (total, reduced) = add-residue _ _ hi_reduced lo_reduced in
      let sum = Congr-add hi_part lo_part in
      (total ∙ (sum.same ∙ ap (λ (t : ℕ). t % order) (omega (arith, halves))), reduced)
