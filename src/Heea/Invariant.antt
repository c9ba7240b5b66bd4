-- ===== src/Heea/Invariant.antt =====
-- What holds before every turn of `curve25519_heea_vartime` of
-- curve25519/solana-ed25519/src/scalar/heea.rs.
use ed25519_verificationtest.Common.{
  ℕ, suc, ◌+◌, ◌-◌, ◌*◌, ◌^◌, ◌<◌, ◌≤◌, ◌≡◌, sym, ap, subst, arith, inl, inr, Bool-cases, pow-add,
  ltb,
}
use native.Mathlib.Nat.{mul-le-mul_right, one-le-pow, pow-le-pow_right}
use ed25519_verificationtest.Scalar52.{order}
use ed25519_verificationtest.Heea.{
  I256, is_negative, same_sign, wrapping_add, wrapping_sub, wrapping_shl, bit_length_i256,
}
use ed25519_verificationtest.Heea.Vartime.{HeeaState, combine, settle, heea_turn, sub32}
use ed25519_verificationtest.Heea.Magnitude.{magnitude, IsWords}
use ed25519_verificationtest.Heea.BitLength.{IsBitLength, bit_length_i256-IsBitLength}
use ed25519_verificationtest.Heea.Signed.{plus-minus}
use ed25519_verificationtest.Heea.Cofactors.{Parts, size}
use ed25519_verificationtest.Heea.Turn.{
  IsBalanced, IsTurned, IsReduction-IsTurned, opposite-IsTurned, kept-IsBalanced,
  swapped-IsBalanced,
}
use ed25519_verificationtest.Heea.Combine.{
  parts, parts-IsOneSided, sub_shifted, add_shifted, same_sign-IsAligned, same_sign-opposite,
}
use ed25519_verificationtest.Heea.BitLength.{IsBitLength-le}

-- What holds before every turn.
pub record IsInvariant (v : Parts) (s : HeeaState) : Type 0 where
  pub words_r0 : IsWords s.r0.limbs
  pub words_r1 : IsWords s.r1.limbs
  pub words_t0 : IsWords s.t0.limbs
  pub words_t1 : IsWords s.t1.limbs
  pub balanced :
      IsBalanced order v (parts s.r0) (parts s.r1) (parts s.t0) (parts s.t1) s.bl_r0 s.bl_r1
  pub ordered : s.bl_r1 ≤ s.bl_r0
  pub long : 127 < s.bl_r0
  pub fits : s.bl_r0 ≤ 253

-- The two numbers that a turn computes.
record IsCombined (v : Parts) (s : HeeaState) (i k : ℕ) (pair : I256 × I256) : Type 0 where
  words_r : IsWords pair.0.limbs
  words_t : IsWords pair.1.limbs
  turned : IsTurned order v (parts s.r1) (parts s.t1) (parts pair.0) (parts pair.1) i k

pub parts-IsBitLength :
    (w : I256) → IsWords w.limbs → IsBitLength (size (parts w)) (bit_length_i256 w)
parts-IsBitLength w h =
    subst (λ (x : ℕ). IsBitLength x (bit_length_i256 w)) (sym (plus-minus w))
      (bit_length_i256-IsBitLength w h)

-- One turn: `i` is the top bit of `r1`, and `d` the number of bits that `r0` has more.
module _ (v : Parts) (s : HeeaState) (i d : ℕ) (h : IsInvariant v s) (more : 127 < s.bl_r1)
    (e1 : s.bl_r1 ≡ suc i) (e0 : s.bl_r0 ≡ suc (i + d)) where
  balanced :
      IsBalanced order v (parts s.r0) (parts s.r1) (parts s.t0) (parts s.t1) (suc (i + d)) (suc i)
  balanced =
      subst
        (λ (x : ℕ).
          IsBalanced order v (parts s.r0) (parts s.r1) (parts s.t0) (parts s.t1) x (suc i))
        e0
        (subst
          (λ (x : ℕ).
            IsBalanced order v (parts s.r0) (parts s.r1) (parts s.t0) (parts s.t1) s.bl_r0 x)
          e1 h.balanced)

  combine-IsCombined : IsCombined v s i (i + d) (combine s)
  unfolding combine
  combine-IsCombined = elim (Bool-cases (same_sign (is_negative s.r0) (is_negative s.r1))) [
    | inl same ↦
        rw (shift, same)
          (let (words_r, er) =
              sub_shifted s.r0 s.r1 d h.words_r0 h.words_r1 small room_r0 room_r1 in
            let (words_t, et) =
              sub_shifted s.t0 s.t1 d h.words_t0 h.words_t1 small room_t0 room_t1 in
            record {
              words_r = words_r;
              words_t = words_t;
              turned =
                  IsReduction-IsTurned order i d v _ _ _ _ _ _ balanced
                    (parts-IsOneSided (wrapping_sub s.r0 (wrapping_shl s.r1 d)))
                    (parts-IsOneSided (wrapping_sub s.t0 (wrapping_shl s.t1 d)))
                    (same_sign-IsAligned s.r0 s.r1 same) er et;
            })
    | inr apart ↦
        rw (shift, apart)
          (let (words_r, er) =
              add_shifted s.r0 s.r1 d h.words_r0 h.words_r1 small room_r0 room_r1 in
            let (words_t, et) =
              add_shifted s.t0 s.t1 d h.words_t0 h.words_t1 small room_t0 room_t1 in
            record {
              words_r = words_r;
              words_t = words_t;
              turned =
                  opposite-IsTurned order i d v _ _ _ _ _ _ balanced
                    (parts-IsOneSided (wrapping_add s.r0 (wrapping_shl s.r1 d)))
                    (parts-IsOneSided (wrapping_add s.t0 (wrapping_shl s.t1 d)))
                    (same_sign-opposite s.r0 s.r1 apart) er et;
            })
  ]
    where
      shift : sub32 s.bl_r0 s.bl_r1 ≡ d
      shift = omega (arith, h.fits)

      small : d < 256
      small = omega (arith, h.fits)

      power : 2 ^ s.bl_r0 ≤ 2 ^ 253
      power = pow-le-pow_right (omega arith) {j = 253} h.fits

      top : 2 ^ (suc i + d) ≤ 2 ^ 253
      top = pow-le-pow_right (omega arith) {i = suc i + d} {j = 253} (omega (arith, h.fits))

      room_r0 : magnitude s.r0.limbs < 2 ^ 254
      room_r0 = omega (arith, h.balanced.length0.above, plus-minus s.r0, power)

      room_r1 : magnitude s.r1.limbs * 2 ^ d < 2 ^ 254
      room_r1 =
          let scaled : (magnitude s.r1.limbs + 1) * 2 ^ d ≤ 2 ^ suc i * 2 ^ d =
            mul-le-mul_right (2 ^ d) (omega (arith, balanced.length1.above, plus-minus s.r1)) in
          omega (arith, pow-add 2 (suc i) d, top, one-le-pow d 2 (omega arith))

      room_t0 : magnitude s.t0.limbs < 2 ^ 254
      room_t0 = omega (arith, h.balanced.bound0 0 (omega arith), plus-minus s.t0)

      room_t1 : magnitude s.t1.limbs * 2 ^ d < 2 ^ 254
      room_t1 =
          omega
            (arith, h.balanced.bound1 d (omega arith), ap (λ (x : ℕ). x * 2 ^ d) (plus-minus s.t1))

  settle-IsInvariant :
      (r t : I256)
      → IsCombined v s i (i + d) (r, t)
      → IsInvariant v (settle s r t)
        × ((settle s r t).bl_r0 + (settle s r t).bl_r1 < s.bl_r0 + s.bl_r1)
  unfolding settle
  settle-IsInvariant r t c = elim (Bool-cases (ltb s.bl_r1 (bit_length_i256 r))) [
    | inl grew ↦ rw grew (
      record {
        words_r0 = c.words_r;
        words_r1 = h.words_r1;
        words_t0 = c.words_t;
        words_t1 = h.words_t1;
        balanced =
            subst
              (λ (x : ℕ).
                IsBalanced order v (parts r) (parts s.r1) (parts t) (parts s.t1) (bit_length_i256 r)
                  x)
              (sym e1)
              (kept-IsBalanced order i (i + d) (bit_length_i256 r) v _ _ _ _ _ _ balanced c.turned
                (parts-IsOneSided t) length);
        ordered = ground arith;
        long = ground arith;
        fits = omega (arith, fewer, h.fits);
      },
      omega (arith, fewer),
    )
    | inr shrunk ↦ rw shrunk (
      record {
        words_r0 = h.words_r1;
        words_r1 = c.words_r;
        words_t0 = h.words_t1;
        words_t1 = c.words_t;
        balanced =
            subst
              (λ (x : ℕ).
                IsBalanced order v (parts s.r1) (parts r) (parts s.t1) (parts t) x
                  (bit_length_i256 r))
              (sym e1)
              (swapped-IsBalanced order i (i + d) (bit_length_i256 r) v _ _ _ _ _ _ balanced
                c.turned (parts-IsOneSided t) length);
        ordered = ground arith;
        long = more;
        fits = omega (arith, h.ordered, h.fits);
      },
      omega (arith, fewer),
    )
  ]
    where
      length : IsBitLength (size (parts r)) (bit_length_i256 r)
      length = parts-IsBitLength r c.words_r

      fewer : bit_length_i256 r ≤ i + d
      fewer = IsBitLength-le (size (parts r)) (bit_length_i256 r) (i + d) length c.turned.smaller

-- A turn of `curve25519_heea_vartime` on a state with `bl_r1` above 127 keeps the invariant (64-bit
-- limbs, exact bit lengths, remainders that are the cofactors times the input modulo the order, a
-- determinant that is the order up to its sign, cofactors bounded by the bit lengths) and makes the
-- sum of the bit lengths smaller.
pub heea_turn-IsInvariant :
    (v : Parts) (s : HeeaState)
    → IsInvariant v s
    → 127 < s.bl_r1
    → IsInvariant v (heea_turn s) × ((heea_turn s).bl_r0 + (heea_turn s).bl_r1 < s.bl_r0 + s.bl_r1)
unfolding heea_turn
heea_turn-IsInvariant v s h more =
    let i : ℕ = s.bl_r1 - 1 in
    let d : ℕ = s.bl_r0 - s.bl_r1 in
    let e1 : s.bl_r1 ≡ suc i = omega arith in
    let e0 : s.bl_r0 ≡ suc (i + d) = omega (arith, h.ordered) in
    settle-IsInvariant v s i d h more e1 e0 (combine s).0 (combine s).1
      (combine-IsCombined v s i d h more e1 e0)
