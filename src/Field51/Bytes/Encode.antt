-- ===== src/Field51/Bytes/Encode.antt =====
-- About `to_bytes` of curve25519/solana-ed25519/src/backend/serial/u64/field.rs.
use ed25519_verificationtest.Common.{ℕ, ◌+◌, ◌*◌, ◌/◌, ◌%◌, ◌^◌, ◌<◌, ◌≡◌, refl, arith, ◌∙◌}
use ed25519_verificationtest.Common.{
  u8, bit_or, shr, shl64, bit_or_disjoint, le_value, IsBytes, All-IsBytes, Congr-intro,
}
use ed25519_verificationtest.Field51.{FieldElement51, value, p, IsBelow, reduce}
use ed25519_verificationtest.Field51.Reduce.{low_51_lem, reduce-value}
use ed25519_verificationtest.Field51.Bytes.{quotient, canonical_limbs, pack_limbs, to_bytes}

-- A byte that two limbs share: the upper bits of one and the lower bits of the next.
shared_byte :
    (high next k : ℕ)
    → high < 2 ^ k
    → next * 2 ^ k < 2 ^ 64
    → bit_or high (shl64 next k) ≡ high + next * 2 ^ k
shared_byte high next k small fits =
    let whole : shl64 next k ≡ next * 2 ^ k = omega arith in
    rw whole (bit_or_disjoint k high next small)

-- The bytes that a limb fills, up to the one that it shares with the next limb; `t` stands for
-- the bytes above.
module _ (c : FieldElement51) (h : IsBelow (2 ^ 51) c) where
  bytes_zero :
      (t : ℕ)
      → u8 c.l0
          + 256
            * (u8 (shr c.l0 8)
                + 256
                  * (u8 (shr c.l0 16)
                      + 256
                        * (u8 (shr c.l0 24)
                            + 256
                              * (u8 (shr c.l0 32)
                                  + 256
                                    * (u8 (shr c.l0 40)
                                        + 256
                                          * (u8 (bit_or (shr c.l0 48) (shl64 c.l1 3))
                                              + 256 * t))))))
        ≡ c.l0 / 2 ^ 0 + 2 ^ 51 * (c.l1 % 2 ^ 5) + 2 ^ 56 * t
  bytes_zero t = omega (arith, shared_byte (shr c.l0 48) c.l1 3 (omega arith) (omega arith))

  bytes_one :
      (t : ℕ)
      → u8 (shr c.l1 5)
          + 256
            * (u8 (shr c.l1 13)
                + 256
                  * (u8 (shr c.l1 21)
                      + 256
                        * (u8 (shr c.l1 29)
                            + 256
                              * (u8 (shr c.l1 37)
                                  + 256 * (u8 (bit_or (shr c.l1 45) (shl64 c.l2 6)) + 256 * t)))))
        ≡ c.l1 / 2 ^ 5 + 2 ^ 46 * (c.l2 % 2 ^ 2) + 2 ^ 48 * t
  bytes_one t = omega (arith, shared_byte (shr c.l1 45) c.l2 6 (omega arith) (omega arith))

  bytes_two :
      (t : ℕ)
      → u8 (shr c.l2 2)
          + 256
            * (u8 (shr c.l2 10)
                + 256
                  * (u8 (shr c.l2 18)
                      + 256
                        * (u8 (shr c.l2 26)
                            + 256
                              * (u8 (shr c.l2 34)
                                  + 256
                                    * (u8 (shr c.l2 42)
                                        + 256
                                          * (u8 (bit_or (shr c.l2 50) (shl64 c.l3 1))
                                              + 256 * t))))))
        ≡ c.l2 / 2 ^ 2 + 2 ^ 49 * (c.l3 % 2 ^ 7) + 2 ^ 56 * t
  bytes_two t = omega (arith, shared_byte (shr c.l2 50) c.l3 1 (omega arith) (omega arith))

  bytes_three :
      (t : ℕ)
      → u8 (shr c.l3 7)
          + 256
            * (u8 (shr c.l3 15)
                + 256
                  * (u8 (shr c.l3 23)
                      + 256
                        * (u8 (shr c.l3 31)
                            + 256
                              * (u8 (shr c.l3 39)
                                  + 256 * (u8 (bit_or (shr c.l3 47) (shl64 c.l4 4)) + 256 * t)))))
        ≡ c.l3 / 2 ^ 7 + 2 ^ 44 * (c.l4 % 2 ^ 4) + 2 ^ 48 * t
  bytes_three t = omega (arith, shared_byte (shr c.l3 47) c.l4 4 (omega arith) (omega arith))

  bytes_four :
      u8 (shr c.l4 4)
        + 256
          * (u8 (shr c.l4 12)
              + 256
                * (u8 (shr c.l4 20)
                    + 256
                      * (u8 (shr c.l4 28)
                          + 256 * (u8 (shr c.l4 36) + 256 * (u8 (shr c.l4 44) + 256 * 0)))))
      ≡ c.l4 / 2 ^ 4
  bytes_four = omega arith

  -- The bytes hold every bit of the limbs.
  pack_limbs-value : le_value (pack_limbs c) ≡ value c
  unfolding pack_limbs
  pack_limbs-value = rw (bytes_four, bytes_three, bytes_two, bytes_one, bytes_zero) (omega arith)

  pack_limbs-IsBytes : IsBytes 32 (pack_limbs c)
  unfolding pack_limbs
  pack_limbs-IsBytes = All-IsBytes 32 _ refl (omega arith)

-- After the weak reduction the limbs stand for less than `2 p`.
module _ (r : FieldElement51) (h : IsBelow (2 ^ 51 + 19 * 2 ^ 13) r) where
  quotient-value : quotient r ≡ (value r + 19) / 2 ^ 255
  unfolding quotient
  quotient-value = omega arith

  canonical_limbs-value :
      (q : ℕ)
      → q < 2
      → (value (canonical_limbs r q) ≡ (value r + 19 * q) % 2 ^ 255)
        × IsBelow (2 ^ 51) (canonical_limbs r q)
  unfolding canonical_limbs
  canonical_limbs-value q hq = omega (arith, low_51_lem)

-- For an element with any 64-bit limbs, `to_bytes` writes 32 bytes whose number is the remainder of
-- the value by 2^255 - 19.
pub to_bytes-value :
    (a : FieldElement51)
    → IsBelow (2 ^ 64) a
    → (le_value (to_bytes a) ≡ value a % p) × IsBytes 32 (to_bytes a)
unfolding to_bytes
to_bytes-value a h =
    let r = reduce a in
    let (reduced, small) = reduce-value a h in
    let q : quotient r ≡ (value r + 19) / 2 ^ 255 = quotient-value r small in
    let (exact, below) = canonical_limbs-value r small (quotient r) (omega arith) in
    let canonical : value r % p ≡ value a % p =
      (Congr-intro p (value r) (value a) (shr a.l4 51) 0 (omega arith)).same in
    let c = canonical_limbs r (quotient r) in
    (pack_limbs-value c below ∙ (omega arith ∙ canonical), pack_limbs-IsBytes c below)
