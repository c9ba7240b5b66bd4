-- ===== src/Tests/HeeaRuns.antt =====
-- curve25519/solana-ed25519/src/scalar/heea.rs at concrete numbers, and the edge cases of its
-- tests.
use ed25519_verificationtest.Common.{
  ◌+◌, ◌-◌, ◌^◌, ◌<◌, ◌≡◌, refl, arith, true, false, Option, some, none, tabulate, All-IsBytes,
  Returns,
}
use ed25519_verificationtest.Scalar.{Scalar}
use ed25519_verificationtest.Scalar.Arithmetic.{IsCanonical}
use ed25519_verificationtest.Heea.{
  is_zero, is_negative, add_opposite, add_limb, sub_limb, overflowing_add, overflowing_sub,
  shl_limbs, shl_bits, funnel, Limbs, I256, i256_zero, i256_one, add_limbs, sub_limbs,
  cmp_magnitude, wrapping_add, wrapping_sub, wrapping_shl, wrapping_neg, bit_length_i256,
}
use ed25519_verificationtest.Heea.Vartime.{
  combine, settle, into_i256, from_le_bytes, to_le_bytes, heea_start, heea_turn, heea_loop,
  curve25519_heea_vartime, heea_decompose,
}
use ed25519_verificationtest.Heea.Magnitude.{IsWords}
use ed25519_verificationtest.Heea.Signed
use ed25519_verificationtest.Heea.Combine.{parts}
use ed25519_verificationtest.Heea.Invariant
use ed25519_verificationtest.Heea.Loop
use ed25519_verificationtest.Heea.Bytes
use ed25519_verificationtest.Heea.Decompose
use ed25519_verificationtest.Common.{◌%◌}
use ed25519_verificationtest.Common.{◌∷◌, List, set, Bool}
use ed25519_verificationtest.Heea.Vartime.{to_scalars}
use ed25519_verificationtest.Heea.Vartime.{make_positive}
use ed25519_verificationtest.Common.{[]}
use ed25519_verificationtest.Heea.Vartime.{less}
use ed25519_verificationtest.Heea.{cmp}

-- Limbs that carry and borrow at every place.
abbrev full : Limbs
full = record { l0 = 2 ^ 64 - 1; l1 = 2 ^ 64 - 1; l2 = 2 ^ 64 - 1; l3 = 2 ^ 64 - 1 }

abbrev middle : Limbs
middle = record { l0 = 5; l1 = 2 ^ 63; l2 = 7; l3 = 2 ^ 59 }

full-IsWords : IsWords full
full-IsWords = record {
  word0 = omega arith;
  word1 = omega arith;
  word2 = omega arith;
  word3 = omega arith;
}

middle-IsWords : IsWords middle
middle-IsWords = record {
  word0 = omega arith;
  word1 = omega arith;
  word2 = omega arith;
  word3 = omega arith;
}

abbrev below_zero : I256
below_zero = record { limbs = middle; negative = true }

abbrev above_zero : I256
above_zero = record { limbs = middle; negative = false }

-- The scalar of the bytes 1, 2, …, 31, 0.
abbrev hash : Scalar
hash = record { bytes = tabulate 32 0 (λ i. (i + 1) % 32) }

hash-IsCanonical : IsCanonical hash
hash-IsCanonical = record {
  scalar = All-IsBytes 32 hash.bytes refl (omega arith);
  below = omega arith;
}

wrapping_sub-IsDifference_example :
    Signed.IsDifference below_zero above_zero (wrapping_sub below_zero above_zero)
wrapping_sub-IsDifference_example =
    Signed.wrapping_sub-IsDifference below_zero above_zero middle-IsWords middle-IsWords
      (omega arith)

heea_turn-IsInvariant_example :
    Invariant.IsInvariant (parts above_zero) (heea_turn (heea_start above_zero))
    × ((heea_turn (heea_start above_zero)).bl_r0 + (heea_turn (heea_start above_zero)).bl_r1
        < (heea_start above_zero).bl_r0 + (heea_start above_zero).bl_r1)
unfolding heea_start bit_length_i256
heea_turn-IsInvariant_example =
    Invariant.heea_turn-IsInvariant (parts above_zero) (heea_start above_zero)
      (Loop.start-IsInvariant above_zero middle-IsWords (omega arith)) (omega arith)

heea_loop-IsHalving_example :
    Returns (Loop.IsHalving (parts below_zero)) (heea_loop 260 (heea_start below_zero))
unfolding heea_start bit_length_i256
heea_loop-IsHalving_example =
    Loop.heea_loop-IsHalving 260 (parts below_zero) (heea_start below_zero)
      (Loop.start-IsInvariant below_zero middle-IsWords (omega arith)) (omega arith)

curve25519_heea_vartime-IsHalving_example :
    Returns (Loop.IsHalving (parts below_zero)) (curve25519_heea_vartime below_zero)
curve25519_heea_vartime-IsHalving_example =
    Loop.curve25519_heea_vartime-IsHalving below_zero middle-IsWords (omega arith)

to_le_bytes-from_le_bytes_example : to_le_bytes (from_le_bytes hash.bytes) ≡ hash.bytes
to_le_bytes-from_le_bytes_example =
    Bytes.to_le_bytes-from_le_bytes hash.bytes hash-IsCanonical.scalar

heea_decompose-IsDecomposition_example :
    Returns (Decompose.IsDecomposition hash) (heea_decompose hash)
heea_decompose-IsDecomposition_example =
    Decompose.heea_decompose-IsDecomposition hash hash-IsCanonical

-- The edge cases of the tests of heea.rs.
abbrev minus_one_i256 : I256
minus_one_i256 = record { limbs = record { l0 = 1; l1 = 0; l2 = 0; l3 = 0 }; negative = true }

heea_of_zero : curve25519_heea_vartime i256_zero ≡ some (i256_zero, i256_one)
unfolding curve25519_heea_vartime heea_loop heea_start bit_length_i256
heea_of_zero = refl

heea_of_one : curve25519_heea_vartime i256_one ≡ some (i256_one, i256_one)
unfolding curve25519_heea_vartime heea_loop heea_start bit_length_i256
heea_of_one = refl

heea_of_minus_one :
    curve25519_heea_vartime (wrapping_neg i256_one) ≡ some (minus_one_i256, i256_one)
unfolding curve25519_heea_vartime heea_loop heea_start bit_length_i256 wrapping_neg is_zero
heea_of_minus_one = refl

abbrev tau_of : Option (I256 × I256) → I256
tau_of none = i256_zero
tau_of (some pair) = pair.1

heea_of_power : tau_of (curve25519_heea_vartime (wrapping_shl i256_one 252)) ≡ minus_one_i256
unfolding curve25519_heea_vartime heea_loop heea_start heea_turn combine settle bit_length_i256
    is_negative wrapping_neg is_zero wrapping_sub wrapping_add add_opposite add_limbs add_limb
    sub_limbs sub_limb overflowing_add overflowing_sub cmp_magnitude wrapping_shl shl_limbs shl_bits
    funnel into_i256 from_le_bytes
heea_of_power = refl

-- There the flag is set, though the first number of the loop is positive.
abbrev power_scalar : Scalar
power_scalar = record { bytes = set (tabulate 32 0 (λ i. 0)) 31 16 }

abbrev signs_of : Option (I256 × I256) → List Bool
signs_of none = []
signs_of (some pair) = pair.0.negative ∷ pair.1.negative ∷ []

abbrev flag_of : Option (Scalar × Scalar × Bool) → Bool
flag_of none = false
flag_of (some result) = result.2

heea_signs_of_power :
    signs_of (curve25519_heea_vartime (wrapping_shl i256_one 252)) ≡ false ∷ true ∷ []
unfolding curve25519_heea_vartime heea_loop heea_start heea_turn combine settle bit_length_i256
    is_negative wrapping_neg is_zero wrapping_sub wrapping_add add_opposite add_limbs add_limb
    sub_limbs sub_limb overflowing_add overflowing_sub cmp_magnitude wrapping_shl shl_limbs shl_bits
    funnel into_i256 from_le_bytes
heea_signs_of_power = refl

heea_flag_of_power : flag_of (heea_decompose power_scalar) ≡ true
unfolding curve25519_heea_vartime heea_loop heea_start heea_turn combine settle bit_length_i256
    is_negative wrapping_neg is_zero wrapping_sub wrapping_add add_opposite add_limbs add_limb
    sub_limbs sub_limb overflowing_add overflowing_sub cmp_magnitude wrapping_shl shl_limbs shl_bits
    funnel into_i256 from_le_bytes heea_decompose to_scalars make_positive less cmp
heea_flag_of_power = refl
