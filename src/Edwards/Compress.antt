-- ===== src/Edwards/Compress.antt =====
-- About `compress` of curve25519/solana-ed25519/src/edwards.rs and
-- curve25519/solana-ed25519/src/edwards/affine.rs.
use ed25519_verificationtest.CurveModels.{EdwardsPoint}
use ed25519_verificationtest.Common.{
  ℕ, ◌+◌, ◌-◌, ◌*◌, ◌%◌, ◌^◌, ◌<◌, ◌≡◌, ◌∙◌, arith, Congr, Congr-refl, Congr-trans, Congr-of_eq,
  Congr-mul, Bool, true, false, Bool-cases, List, le_value, byte, bit_xor, xor_top, xor_none, inl,
  inr, IsBytes, IsBytes-set, le_value-set,
}
use ed25519_verificationtest.Field51.{FieldElement51, value, p, IsBelow}
use ed25519_verificationtest.Field51.Bytes.{to_bytes}
use ed25519_verificationtest.Field51.Bytes.Encode.{to_bytes-value}
use ed25519_verificationtest.Field.{is_negative, invert}
use ed25519_verificationtest.Field.Power.{IsPower, invert-IsPower}
use ed25519_verificationtest.Field.Sign.{is_negative_iff}
use ed25519_verificationtest.Edwards.{AffinePoint, to_affine, affine_compress, compress, sign_mask}
use ed25519_verificationtest.Edwards.Denotes.{
  Denotes, Denotes-mul, Denotes-wide, Denotes-change, Denotes-weaken,
}
use ed25519_verificationtest.Edwards.Points.{IsAffine}
use ed25519_verificationtest.Edwards.{mul}
use ed25519_verificationtest.Common.{◌↔◌, Congr-pow}

xor_sign : (x : ℕ) (choice : Bool) → x < 128 → bit_xor x (sign_mask choice) ≡ x + sign_mask choice
xor_sign x true h = xor_top x h
xor_sign x false h = xor_none x h ∙ omega arith

-- The coordinate below p, and the sign of the other one in bit 255.
affine_compress-value :
    (a : AffinePoint)
    → IsBelow (2 ^ 52) a.y
    → (le_value (affine_compress a) ≡ value a.y % p + 2 ^ 248 * sign_mask (is_negative a.x))
      × IsBytes 32 (affine_compress a)
unfolding affine_compress
affine_compress-value a h =
    let (exact, bytes) = to_bytes-value a.y (omega arith) in
    let s : List ℕ = to_bytes a.y in
    let sign : Bool = is_negative a.x in
    let top : byte s 31 < 128 =
      omega (arith, le_value-set 31 0 s (omega (arith, bytes.sized)), exact) in
    let xor = xor_sign (byte s 31) sign top in
    (
      omega (
        arith,
        le_value-set 31 (bit_xor (byte s 31) (sign_mask sign)) s (omega (arith, bytes.sized)),
        xor,
        exact,
      ),
      IsBytes-set 32 31 (bit_xor (byte s 31) (sign_mask sign)) s (rw xor (ground arith)) bytes,
    )

-- The sign bit is the parity of the residue.
sign_mask-parity :
    (a : FieldElement51) (x : ℕ)
    → (is_negative a ≡ true) ↔ (value a % p % 2 ≡ 1)
    → Congr p (value a) x
    → sign_mask (is_negative a) ≡ 128 * (x % p % 2)
sign_mask-parity a x sign same = elim (Bool-cases (is_negative a)) [
  | inl odd ↦ ground (arith, sign.0 odd, same.same)
  | inr even ↦ ground (arith, sign.1, same.same)
]

-- What compress gives for an affine point: `y` below p, and the parity of `x` in bit 255.
pub record IsCompressed (x y : ℕ) (bytes : List ℕ) : Type 0 where
  pub sized : IsBytes 32 bytes
  pub exact : le_value bytes ≡ y % p + 2 ^ 255 * (x % p % 2)

-- The inverse of the scale is a power of it.
pub compress-IsCompressed :
    (a : EdwardsPoint) (x y : ℕ) (h : IsAffine a x y)
    → Congr p (h.scale * h.scale ^ (2 ^ 255 - 21)) 1
    → IsCompressed x y (compress a)
unfolding compress to_affine
compress-IsCompressed a x y h fermat = record { sized = encoded.1; exact = exact }
  where
    power : IsPower a.z (2 ^ 255 - 21) (invert a.z)
    power = invert-IsPower a.z (Denotes-wide h.denotes_z).below

    recip : Denotes (2 ^ 54) (invert a.z) (h.scale ^ (2 ^ 255 - 21))
    recip = record {
      below = power.below;
      same = Congr-trans power.power (Congr-pow (2 ^ 255 - 21) h.denotes_z.same);
    }

    normal : (c : ℕ) → Congr p (c * h.scale * h.scale ^ (2 ^ 255 - 21)) c
    normal c =
        Congr-trans (Congr-of_eq p (omega arith))
          (Congr-trans (Congr-mul (Congr-refl p c) fermat) (Congr-of_eq p (omega arith)))

    to_x : Denotes (2 ^ 52) (mul a.x (invert a.z)) x
    to_x = Denotes-change (Denotes-mul (Denotes-wide h.denotes_x) recip) (normal x)

    to_y : Denotes (2 ^ 52) (mul a.y (invert a.z)) y
    to_y = Denotes-change (Denotes-mul (Denotes-wide h.denotes_y) recip) (normal y)

    encoded :
        (le_value (affine_compress (record { x = mul a.x (invert a.z); y = mul a.y (invert a.z) }))
          ≡ value (mul a.y (invert a.z)) % p
            + 2 ^ 248 * sign_mask (is_negative (mul a.x (invert a.z))))
        × IsBytes 32
            (affine_compress (record { x = mul a.x (invert a.z); y = mul a.y (invert a.z) }))
    encoded =
        affine_compress-value (record { x = mul a.x (invert a.z); y = mul a.y (invert a.z) })
          to_y.below

    parity : sign_mask (is_negative (mul a.x (invert a.z))) ≡ 128 * (x % p % 2)
    parity =
        sign_mask-parity _ x (is_negative_iff _ (Denotes-weaken (2 ^ 64) to_x (omega arith)).below)
          to_x.same

    exact :
        le_value (affine_compress (record { x = mul a.x (invert a.z); y = mul a.y (invert a.z) }))
        ≡ y % p + 2 ^ 255 * (x % p % 2)
    exact = omega (arith, encoded.0, parity, to_y.same.same)
