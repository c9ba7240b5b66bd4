-- ===== src/Tests/ScalarRuns.antt =====
-- curve25519/solana-ed25519/src/scalar.rs at concrete scalars.
use ed25519_verificationtest.Common.{
  ℕ, ◌+◌, ◌-◌, ◌*◌, ◌^◌, ◌%◌, ◌≡◌, if◌then◌else◌, ltb, refl, arith, List, some, none, plain_subtle,
}
use ed25519_verificationtest.Common.{Congr, le_value, tabulate, IsBytes, All-IsBytes}
use ed25519_verificationtest.Scalar52.{Scalar52, order, r}
use ed25519_verificationtest.Scalar.{
  Scalar, reduce, from_bytes_mod_order_wide, from_canonical_bytes, mul, add, div_by_2, invert,
}
use ed25519_verificationtest.Scalar.Arithmetic.{number, IsScalar, IsCanonical}
use ed25519_verificationtest.Scalar.Arithmetic
use ed25519_verificationtest.Scalar.Canonical
use ed25519_verificationtest.Scalar.Halve
use ed25519_verificationtest.Scalar.Invert

-- All bits set.
abbrev ones : List ℕ
ones = tabulate 32 0 (λ i. 255)

ones-IsBytes : IsBytes 32 ones
ones-IsBytes = All-IsBytes 32 ones refl (omega arith)

abbrev wide_ones : List ℕ
wide_ones = tabulate 64 0 (λ i. 255)

wide_ones-IsBytes : IsBytes 64 wide_ones
wide_ones-IsBytes = All-IsBytes 64 wide_ones refl (omega arith)

abbrev largest : Scalar
largest = record { bytes = ones }

-- The scalar of the bytes 1, 2, …, 31, 0, which is canonical and odd.
abbrev counted : Scalar
counted = record { bytes = tabulate 32 0 (λ i. (i + 1) % 32) }

counted-IsCanonical : IsCanonical counted
counted-IsCanonical = record {
  scalar = All-IsBytes 32 counted.bytes refl (omega arith);
  below = omega arith;
}

abbrev half_radix : Scalar52
half_radix = record { l0 = 0; l1 = 0; l2 = 0; l3 = 0; l4 = 2 ^ 47 }

mul-number_example :
    (number (mul largest counted) ≡ number largest * number counted % order)
    × IsCanonical (mul largest counted)
mul-number_example = Arithmetic.mul-number largest counted ones-IsBytes counted-IsCanonical.scalar

add-number_example :
    (number (add counted counted) ≡ (number counted + number counted) % order)
    × IsCanonical (add counted counted)
add-number_example = Arithmetic.add-number counted counted counted-IsCanonical counted-IsCanonical

reduce-number_example :
    (number (reduce largest) ≡ number largest % order) × IsCanonical (reduce largest)
reduce-number_example = Arithmetic.reduce-number largest ones-IsBytes

from_bytes_mod_order_wide-number_example :
    (number (from_bytes_mod_order_wide wide_ones) ≡ le_value wide_ones % order)
    × IsCanonical (from_bytes_mod_order_wide wide_ones)
from_bytes_mod_order_wide-number_example =
    Arithmetic.from_bytes_mod_order_wide-number wide_ones wide_ones-IsBytes

from_canonical_bytes_lem_example :
    from_canonical_bytes ones
    ≡ (if ltb (le_value ones) order then some (record { bytes = ones }) else none)
from_canonical_bytes_lem_example = Canonical.from_canonical_bytes_lem ones ones-IsBytes

div_by_2-number_example :
    (number (div_by_2 counted) * 2 ≡ number counted + order * (number counted % 2))
    × IsCanonical (div_by_2 counted)
div_by_2-number_example = Halve.div_by_2-number counted counted-IsCanonical

-- The Montgomery form of one.
one_power : Invert.IsMontgomeryPower 1 1 r
one_power = record {
  power = record { same = refl };
  reduced = record { normal = omega arith; below = omega arith };
}

invert-number_example :
    Congr order (number (invert largest)) (number largest ^ (order - 2))
    × IsCanonical (invert largest)
invert-number_example = Invert.invert-number largest ones-IsBytes
