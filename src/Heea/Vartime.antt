-- ===== src/Heea/Vartime.antt =====
-- curve25519/solana-ed25519/src/scalar/heea.rs: `curve25519_heea_vartime`, and `heea_decompose` of
-- curve25519/solana-ed25519/src/scalar.rs.
use Prim.Native.Nat.{Ordering}
use ed25519_verificationtest.Common.{
  ℕ, zero, suc, ◌+◌, ◌-◌, ◌%◌, ◌^◌, Bool, true, false, not, List, [], ◌∷◌, ◌++◌, drop, take,
  le_value, if◌then◌else◌, ltb, leb, u8, shr, Option, none, some,
}
use ed25519_verificationtest.Scalar.{Scalar}
use ed25519_verificationtest.Heea.{
  I256, i256_zero, i256_one, is_negative, same_sign, wrapping_neg, wrapping_add, wrapping_sub,
  wrapping_shl, bit_length_i256, cmp,
}

-- `I256::from_le_bytes`: eight bytes for each limb.
unfoldable pub from_le_bytes : List ℕ → I256
from_le_bytes bytes = record {
  limbs = record {
    l0 = le_value (take 8 bytes);
    l1 = le_value (take 8 (drop 8 bytes));
    l2 = le_value (take 8 (drop 16 bytes));
    l3 = le_value (take 8 (drop 24 bytes));
  };
  negative = false;
}

-- The bytes of one limb.
abbrev pub limb_bytes : ℕ → List ℕ
limb_bytes l =
    u8 l
    ∷ u8 (shr l 8)
    ∷ u8 (shr l 16)
    ∷ u8 (shr l 24)
    ∷ u8 (shr l 32)
    ∷ u8 (shr l 40)
    ∷ u8 (shr l 48)
    ∷ u8 (shr l 56)
    ∷ []

-- `I256::to_le_bytes`: the sign is dropped.
unfoldable pub to_le_bytes : I256 → List ℕ
to_le_bytes v =
    let l = v.limbs in limb_bytes l.l0 ++ limb_bytes l.l1 ++ limb_bytes l.l2 ++ limb_bytes l.l3

-- `constants::BASEPOINT_ORDER`
abbrev pub basepoint_order : Scalar
basepoint_order = record {
  bytes =
      0xed ∷ 0xd3 ∷ 0xf5 ∷ 0x5c ∷ 0x1a ∷ 0x63 ∷ 0x12 ∷ 0x58 ∷ 0xd6 ∷ 0x9c ∷ 0xf7 ∷ 0xa2 ∷ 0xde
      ∷ 0xf9 ∷ 0xde ∷ 0x14 ∷ 0x00 ∷ 0x00 ∷ 0x00 ∷ 0x00 ∷ 0x00 ∷ 0x00 ∷ 0x00 ∷ 0x00 ∷ 0x00 ∷ 0x00
      ∷ 0x00 ∷ 0x00 ∷ 0x00 ∷ 0x00 ∷ 0x00 ∷ 0x10 ∷ [];
}

-- `From<&Scalar> for I256`
unfoldable pub into_i256 : Scalar → I256
into_i256 s = from_le_bytes s.bytes

-- The variables of the loop.
pub record HeeaState : Type 0 where
  pub r0 : I256
  pub r1 : I256
  pub t0 : I256
  pub t1 : I256
  pub bl_r0 : ℕ
  pub bl_r1 : ℕ

-- `bl_r0 - bl_r1` on a `u32`.
abbrev pub sub32 : ℕ → ℕ → ℕ
sub32 a b = (a + 2 ^ 32 - b) % 2 ^ 32

-- `r` and `t` of one turn.
unfoldable pub combine : HeeaState → I256 × I256
combine v =
    let s = sub32 v.bl_r0 v.bl_r1 in
    let sign_r0 = is_negative v.r0 in
    let sign_r1 = is_negative v.r1 in
    if same_sign sign_r0 sign_r1
    then (wrapping_sub v.r0 (wrapping_shl v.r1 s), wrapping_sub v.t0 (wrapping_shl v.t1 s))
    else (wrapping_add v.r0 (wrapping_shl v.r1 s), wrapping_add v.t0 (wrapping_shl v.t1 s))

-- The end of a turn: `r` stays in `r0` or the pairs are swapped.
unfoldable pub settle : HeeaState → I256 → I256 → HeeaState
settle v r t =
    let bl_r = bit_length_i256 r in
    if ltb v.bl_r1 bl_r
    then record { r0 = r; r1 = v.r1; t0 = t; t1 = v.t1; bl_r0 = bl_r; bl_r1 = v.bl_r1 }
    else record { r0 = v.r1; r1 = r; t0 = v.t1; t1 = t; bl_r0 = v.bl_r1; bl_r1 = bl_r }

unfoldable pub heea_turn : HeeaState → HeeaState
heea_turn v = let (r, t) = combine v in settle v r t

-- The loop, or `none` where the fuel does not last.
unfoldable pub heea_loop : ℕ → HeeaState → Option (I256 × I256)
heea_loop zero v = if leb v.bl_r1 127 then some (v.r1, v.t1) else none
heea_loop (suc fuel) v =
    let rest = heea_loop fuel (heea_turn v) in if leb v.bl_r1 127 then some (v.r1, v.t1) else rest

-- The variables before the loop.
unfoldable pub heea_start : I256 → HeeaState
heea_start v = record {
  r0 = into_i256 basepoint_order;
  r1 = v;
  t0 = i256_zero;
  t1 = i256_one;
  bl_r0 = 253;
  bl_r1 = bit_length_i256 v;
}

-- A turn takes at least one bit off `r0` and `r1` together, and 256 bits are left before the last.
unfoldable pub curve25519_heea_vartime : I256 → Option (I256 × I256)
curve25519_heea_vartime v = heea_loop 251 (heea_start v)

-- `Scalar::from_positive_i256`
unfoldable pub from_positive_i256 : I256 → Scalar
from_positive_i256 val = record { bytes = to_le_bytes val }

-- `a < b` by `Ord::cmp`.
abbrev pub is_less : Ordering → Bool
is_less Ordering.lt = true
is_less Ordering.eq = false
is_less Ordering.gt = false

unfoldable pub less : I256 → I256 → Bool
less a b = is_less (cmp a b)

-- A negative number is made positive, and the flag changes.
unfoldable pub make_positive : I256 → Bool → I256 × Bool
make_positive v flip = if less v i256_zero then (wrapping_neg v, not flip) else (v, flip)

-- The end of `heea_decompose`.
unfoldable pub to_scalars : I256 × I256 → Scalar × Scalar × Bool
to_scalars (rho_i, tau_i) =
    let (rho_p, flip_rho) = make_positive rho_i false in
    let (tau_p, flip_h) = make_positive tau_i flip_rho in
    (from_positive_i256 rho_p, from_positive_i256 tau_p, flip_h)

unfoldable pub heea_decompose : Scalar → Option (Scalar × Scalar × Bool)
heea_decompose h = elim (curve25519_heea_vartime (into_i256 h)) [
  | none ↦ none
  | some pair ↦ some (to_scalars pair)
]
