-- ===== src/Scalar52/Bytes/Encode.antt =====
-- About `to_bytes` of curve25519/solana-ed25519/src/backend/serial/u64/scalar.rs.
use ed25519_verificationtest.Common.{ℕ, ◌+◌, ◌*◌, ◌/◌, ◌%◌, ◌^◌, ◌<◌, ◌≡◌, refl, arith}
use ed25519_verificationtest.Common.{
  u8, bit_or, shr, shl64, bit_or_disjoint, le_value, IsBytes, All-IsBytes,
}
use ed25519_verificationtest.Scalar52.{Scalar52, value, IsNormal}
use ed25519_verificationtest.Scalar52.Bytes.{to_bytes}

shared_byte :
    (high next k : ℕ)
    → high < 2 ^ k
    → next * 2 ^ k < 2 ^ 64
    → bit_or high (shl64 next k) ≡ high + next * 2 ^ k
shared_byte high next k small fits =
    let whole : shl64 next k ≡ next * 2 ^ k = omega arith in
    rw whole (bit_or_disjoint k high next small)

-- `t` stands for the bytes above those of one limb. The top limb has 48 bits.
module _ (a : Scalar52) (h : IsNormal a) (top : a.l4 < 2 ^ 48) where
  bytes_zero :
      (t : ℕ)
      → u8 (shr a.l0 0)
          + 256
            * (u8 (shr a.l0 8)
                + 256
                  * (u8 (shr a.l0 16)
                      + 256
                        * (u8 (shr a.l0 24)
                            + 256
                              * (u8 (shr a.l0 32)
                                  + 256
                                    * (u8 (shr a.l0 40)
                                        + 256
                                          * (u8 (bit_or (shr a.l0 48) (shl64 a.l1 4))
                                              + 256 * t))))))
        ≡ a.l0 + 2 ^ 52 * (a.l1 % 2 ^ 4) + 2 ^ 56 * t
  bytes_zero t = omega (arith, shared_byte (shr a.l0 48) a.l1 4 (omega arith) (omega arith))

  bytes_one :
      (t : ℕ)
      → u8 (shr a.l1 4)
          + 256
            * (u8 (shr a.l1 12)
                + 256
                  * (u8 (shr a.l1 20)
                      + 256
                        * (u8 (shr a.l1 28)
                            + 256 * (u8 (shr a.l1 36) + 256 * (u8 (shr a.l1 44) + 256 * t)))))
        ≡ a.l1 / 2 ^ 4 + 2 ^ 48 * t
  bytes_one t = omega arith

  bytes_two :
      (t : ℕ)
      → u8 (shr a.l2 0)
          + 256
            * (u8 (shr a.l2 8)
                + 256
                  * (u8 (shr a.l2 16)
                      + 256
                        * (u8 (shr a.l2 24)
                            + 256
                              * (u8 (shr a.l2 32)
                                  + 256
                                    * (u8 (shr a.l2 40)
                                        + 256
                                          * (u8 (bit_or (shr a.l2 48) (shl64 a.l3 4))
                                              + 256 * t))))))
        ≡ a.l2 + 2 ^ 52 * (a.l3 % 2 ^ 4) + 2 ^ 56 * t
  bytes_two t = omega (arith, shared_byte (shr a.l2 48) a.l3 4 (omega arith) (omega arith))

  bytes_three :
      (t : ℕ)
      → u8 (shr a.l3 4)
          + 256
            * (u8 (shr a.l3 12)
                + 256
                  * (u8 (shr a.l3 20)
                      + 256
                        * (u8 (shr a.l3 28)
                            + 256 * (u8 (shr a.l3 36) + 256 * (u8 (shr a.l3 44) + 256 * t)))))
        ≡ a.l3 / 2 ^ 4 + 2 ^ 48 * t
  bytes_three t = omega arith

  bytes_four :
      u8 (shr a.l4 0)
        + 256
          * (u8 (shr a.l4 8)
              + 256
                * (u8 (shr a.l4 16)
                    + 256
                      * (u8 (shr a.l4 24)
                          + 256 * (u8 (shr a.l4 32) + 256 * (u8 (shr a.l4 40) + 256 * 0)))))
      ≡ a.l4
  bytes_four = omega arith

  -- The bytes hold every bit of normal limbs below 2^256.
  pub to_bytes-value : (le_value (to_bytes a) ≡ value a) × IsBytes 32 (to_bytes a)
  unfolding to_bytes
  to_bytes-value = (
    rw (bytes_four, bytes_three, bytes_two, bytes_one, bytes_zero) (omega arith),
    All-IsBytes 32 _ refl (omega arith),
  )
