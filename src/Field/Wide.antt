-- ===== src/Field/Wide.antt =====
-- curve25519/solana-ed25519/src/field.rs: `from_bytes_wide`.
use ed25519_verificationtest.Common.{
  ℕ, ◌+◌, ◌*◌, ◌/◌, ◌^◌, ◌%◌, ◌<◌, ◌≡◌, refl, ap, ◌∙◌, arith, List, subst, bit_and, shr, u8, set,
  take, drop, byte, tabulate, tabulate-byte, bit_and-low_mask,
}
use ed25519_verificationtest.Common.{
  le_value, IsBytes, All-IsBytes, Congr, Congr-intro, Congr-witness,
}
use ed25519_verificationtest.Field51.{FieldElement51, value, p, IsBelow, add, mul}
use ed25519_verificationtest.Field51.Reduce.{add-value}
use ed25519_verificationtest.Field51.Multiply.{mul-value}
use ed25519_verificationtest.Field51.Bytes.{from_bytes}
use ed25519_verificationtest.Field51.Bytes.Decode.{from_bytes-value, from_bytes-IsBelow}
use ed25519_verificationtest.Common.{IsBytes-take}
use ed25519_verificationtest.Common.{IsBytes-drop}
use ed25519_verificationtest.Common.{le_value-take}

-- The top bit of 32 bytes, and the bytes without it.
abbrev pub top_bit : List ℕ → ℕ
top_bit bytes = shr (byte bytes 31) 7

abbrev pub without_top_bit : List ℕ → List ℕ
without_top_bit bytes = set bytes 31 (bit_and (byte bytes 31) 0x7f)

-- `addend_bytes`: a `u16` in 32 bytes.
abbrev pub addend_bytes : ℕ → List ℕ
addend_bytes addend = set (set (tabulate 32 0 (λ i. 0)) 0 (u8 addend)) 1 (u8 (shr addend 8))

abbrev pub thirty_eight : FieldElement51
thirty_eight = from_bytes (set (tabulate 32 0 (λ i. 0)) 0 38)

pub from_bytes_wide : List ℕ → FieldElement51
from_bytes_wide bytes =
    let fl = take 32 bytes in
    let gl = drop 32 bytes in
    let addend = (top_bit fl * 19 + top_bit gl * 722) % 2 ^ 16 in
    let fe_f = from_bytes (without_top_bit fl) in
    let fe_g = from_bytes (without_top_bit gl) in
    add (add fe_f (from_bytes (addend_bytes addend))) (mul thirty_eight fe_g)

thirty_eight-value : (value thirty_eight ≡ 38) × IsBelow (2 ^ 51) thirty_eight
thirty_eight-value =
    let bytes : IsBytes 32 (set (tabulate 32 0 (λ i. 0)) 0 38) =
      All-IsBytes 32 _ refl (omega arith) in
    (from_bytes-value _ bytes ∙ omega arith, from_bytes-IsBelow _ bytes)

-- What becomes of 32 bytes.
record Halved (bytes : List ℕ) : Type 0 where
  split : le_value (without_top_bit bytes) + 2 ^ 255 * top_bit bytes ≡ le_value bytes
  whole : IsBytes 32 (without_top_bit bytes)
  low : le_value (without_top_bit bytes) < 2 ^ 255
  bit : top_bit bytes < 2

tabulated : (f : ℕ → ℕ) → ((i : ℕ) → i < 32 → f i < 256) → Halved (tabulate 32 0 f)
tabulated f h =
    let mask : bit_and (f 31) 0x7f ≡ f 31 % 128 = bit_and-low_mask 7 (f 31) in
    record {
      split = rw mask (omega (arith, h));
      whole = rw mask (All-IsBytes 32 _ refl (omega (arith, h)));
      low = rw mask (omega (arith, h));
      bit = omega (arith, h);
    }

halved : (bytes : List ℕ) → IsBytes 32 bytes → Halved bytes
halved bytes h = subst Halved (tabulate-byte 32 bytes h.sized) (tabulated (byte bytes) h.ranged)

addend-value :
    (a : ℕ)
    → a < 2 ^ 16
    → (value (from_bytes (addend_bytes a)) ≡ a) × IsBelow (2 ^ 51) (from_bytes (addend_bytes a))
addend-value a h =
    let bytes : IsBytes 32 (addend_bytes a) = All-IsBytes 32 _ refl (omega arith) in
    (
      from_bytes-value (addend_bytes a) bytes ∙ omega arith,
      from_bytes-IsBelow (addend_bytes a) bytes,
    )

-- For 64 bytes `from_bytes_wide` of the field gives an element that is congruent to their number
-- modulo 2^255 - 19, with limbs below 2^53.
pub from_bytes_wide-value :
    (bytes : List ℕ)
    → IsBytes 64 bytes
    → Congr p (value (from_bytes_wide bytes)) (le_value bytes)
      × IsBelow (2 ^ 53) (from_bytes_wide bytes)
unfolding from_bytes_wide
from_bytes_wide-value bytes h =
    let f = halved (take 32 bytes) (IsBytes-take 32 32 bytes h) in
    let g = halved (drop 32 bytes) (IsBytes-drop 32 32 bytes h) in
    let fe_f = from_bytes (without_top_bit (take 32 bytes)) in
    let fe_g = from_bytes (without_top_bit (drop 32 bytes)) in
    let addend : ℕ = (top_bit (take 32 bytes) * 19 + top_bit (drop 32 bytes) * 722) % 2 ^ 16 in
    let (extra, extra_below) = addend-value addend (omega arith) in
    let f_value = from_bytes-value (without_top_bit (take 32 bytes)) f.whole in
    let g_value = from_bytes-value (without_top_bit (drop 32 bytes)) g.whole in
    let f_below = from_bytes-IsBelow (without_top_bit (take 32 bytes)) f.whole in
    let g_below = from_bytes-IsBelow (without_top_bit (drop 32 bytes)) g.whole in
    let (high, high_below) =
      mul-value thirty_eight fe_g (omega (arith, thirty_eight-value.1)) (omega (arith, g_below)) in
    let (low, low_below) =
      add-value (2 ^ 51) (2 ^ 51) fe_f (from_bytes (addend_bytes addend)) f_below extra_below
        (omega arith) in
    let (sum, sum_below) =
      add-value (2 ^ 52) (2 ^ 52) (add fe_f (from_bytes (addend_bytes addend)))
        (mul thirty_eight fe_g) low_below high_below (omega arith) in
    let product : value thirty_eight * value fe_g ≡ 38 * value fe_g =
      ap (λ (t : ℕ). t * value fe_g) thirty_eight-value.0 in
    let witness = Congr-witness p _ _ high in
    let addend_exact : addend ≡ top_bit (take 32 bytes) * 19 + top_bit (drop 32 bytes) * 722 =
      omega (arith, f.bit, g.bit) in
    (
      Congr-intro p (value (from_bytes_wide bytes)) (le_value bytes)
          (value thirty_eight * value fe_g / p
            + top_bit (take 32 bytes)
            + 2 * value fe_g
            + (2 * p + 76) * top_bit (drop 32 bytes))
          (value (mul thirty_eight fe_g) / p)
          (omega (
            arith,
            witness,
            product,
            sum,
            low,
            extra,
            addend_exact,
            f_value,
            g_value,
            f.split,
            f.low,
            g.split,
            g.low,
            le_value-take 32 bytes (omega (arith, h.sized)),
          )),
      sum_below,
    )
