-- ===== src/Scalar.antt =====
-- curve25519/solana-ed25519/src/scalar.rs: scalars as 32 bytes, over the limb arithmetic.
pub mod Arithmetic
pub mod Canonical
pub mod Clamp
pub mod Halve
pub mod Invert
use ed25519_verificationtest.Common.{
  ℕ, zero, suc, ◌+◌, ◌*◌, ◌&&◌, Bool, true, List, [], ◌∷◌, bit_and, bit_or,
}
use ed25519_verificationtest.Common.{
  Option, none, some, if◌then◌else◌, ◌==◌, shr, byte, set, low_mask, Subtle,
}
use ed25519_verificationtest.Scalar52.{Scalar52, r, rr, scalar_zero, conditional_add_l, shr1_assign}
use ed25519_verificationtest.Scalar52.{
  mul_internal, montgomery_reduce, montgomery_mul, montgomery_square,
}
use ed25519_verificationtest.Scalar52.{as_montgomery, from_montgomery}
use ed25519_verificationtest.Scalar52
use ed25519_verificationtest.Scalar52.Bytes

-- `pub struct Scalar { pub(crate) bytes: [u8; 32] }`
pub record Scalar : Type 0 where
  pub bytes : List ℕ

pub unpack : Scalar → Scalar52
unpack a = Bytes.from_bytes a.bytes

pub pack : Scalar52 → Scalar
pack a = record { bytes = Bytes.to_bytes a }

-- `clamp_integer`: the low three bits and the top bit are cleared, and bit 254 is set.
pub clamp_integer : List ℕ → List ℕ
clamp_integer bytes =
    let b0 = set bytes 0 (bit_and (byte bytes 0) 0b1111_1000) in
    let b31 = set b0 31 (bit_and (byte b0 31) 0b0111_1111) in
    set b31 31 (bit_or (byte b31 31) 0b0100_0000)

-- `from_bits` of the feature `legacy_compatibility`.
pub from_bits : List ℕ → Scalar
from_bits bytes = record { bytes = set bytes 31 (bit_and (byte bytes 31) 0b0111_1111) }

module _ ⦃s : Subtle⦄ where
  pub reduce : Scalar → Scalar
  reduce a =
      let x = unpack a in
      let x_r = mul_internal x r in let x_mod_l = montgomery_reduce x_r in pack x_mod_l

  pub ct_eq : Scalar → Scalar → Bool
  ct_eq a b = s.ct_eq a.bytes b.bytes

  pub is_canonical : Scalar → Bool
  is_canonical a = ct_eq a (reduce a)

  pub from_bytes_mod_order : List ℕ → Scalar
  from_bytes_mod_order bytes = reduce (record { bytes = bytes })

  pub from_bytes_mod_order_wide : List ℕ → Scalar
  from_bytes_mod_order_wide input = pack (Bytes.from_bytes_wide input)

  -- A `CtOption` is an `Option`.
  pub from_canonical_bytes : List ℕ → Option Scalar
  from_canonical_bytes bytes =
      let high_bit_unset = s.ct_eq (shr (byte bytes 31) 7 ∷ []) (0 ∷ []) in
      let candidate : Scalar = record { bytes = bytes } in
      if high_bit_unset && is_canonical candidate then some candidate else none

  pub mul : Scalar → Scalar → Scalar
  mul a b = pack (Scalar52.mul (unpack a) (unpack b))

  pub add : Scalar → Scalar → Scalar
  add a b = pack (Scalar52.add (unpack a) (unpack b))

  pub sub : Scalar → Scalar → Scalar
  sub a b = pack (Scalar52.sub (unpack a) (unpack b))

  pub neg : Scalar → Scalar
  neg a =
      let self_r = mul_internal (unpack a) r in
      let self_mod_l = montgomery_reduce self_r in pack (Scalar52.sub scalar_zero self_mod_l)

  pub div_by_2 : Scalar → Scalar
  div_by_2 a =
      let is_odd = bit_and (byte a.bytes 0) 1 == 1 in
      let scalar = (conditional_add_l (unpack a) is_odd).0 in pack (shr1_assign scalar).0

  pub squarings : ℕ → Scalar52 → Scalar52
  squarings zero y = y
  squarings (suc k) y = squarings k (montgomery_square y)

  pub square_multiply : ℕ → Scalar52 → Scalar52 → Scalar52
  square_multiply k y x = montgomery_mul (squarings k y) x

  pub montgomery_invert : Scalar52 → Scalar52
  montgomery_invert a =
      let x2 = montgomery_square a in
      let x4 = montgomery_square x2 in
      let x3 = montgomery_mul x2 a in
      let x5 = montgomery_mul x2 x3 in
      let x7 = montgomery_mul x2 x5 in
      let x9 = montgomery_mul x2 x7 in
      let x11 = montgomery_mul x2 x9 in
      let x15 = montgomery_mul x4 x11 in
      let y0 = montgomery_mul x15 a in
      let y1 = square_multiply 126 y0 x5 in
      let y2 = square_multiply 4 y1 x3 in
      let y3 = square_multiply 5 y2 x15 in
      let y4 = square_multiply 5 y3 x15 in
      let y5 = square_multiply 4 y4 x9 in
      let y6 = square_multiply 2 y5 x3 in
      let y7 = square_multiply 5 y6 x15 in
      let y8 = square_multiply 4 y7 x5 in
      let y9 = square_multiply 6 y8 x5 in
      let y10 = square_multiply 3 y9 x7 in
      let y11 = square_multiply 5 y10 x15 in
      let y12 = square_multiply 5 y11 x7 in
      let y13 = square_multiply 4 y12 x3 in
      let y14 = square_multiply 5 y13 x11 in
      let y15 = square_multiply 6 y14 x11 in
      let y16 = square_multiply 10 y15 x9 in
      let y17 = square_multiply 4 y16 x3 in
      let y18 = square_multiply 5 y17 x3 in
      let y19 = square_multiply 5 y18 x3 in
      let y20 = square_multiply 5 y19 x9 in
      let y21 = square_multiply 4 y20 x7 in
      let y22 = square_multiply 6 y21 x15 in
      let y23 = square_multiply 5 y22 x11 in
      let y24 = square_multiply 3 y23 x5 in
      let y25 = square_multiply 6 y24 x15 in
      let y26 = square_multiply 3 y25 x5 in let y27 = square_multiply 3 y26 x3 in y27

  pub unpacked_invert : Scalar52 → Scalar52
  unpacked_invert a = from_montgomery (montgomery_invert (as_montgomery a))

  pub invert : Scalar → Scalar
  invert a = pack (unpacked_invert (unpack a))
