-- ===== src/Heea/Loop.antt =====
-- About the loop of `curve25519_heea_vartime` of curve25519/solana-ed25519/src/scalar/heea.rs as a
-- whole.
use ed25519_verificationtest.Common.{
  ℕ, zero, suc, ◌+◌, ◌^◌, ◌<◌, ◌≤◌, ◌≡◌, arith, inl, inr, Bool-cases, leb, Congr, lt-or_le, Returns,
}
use native.Mathlib.Nat.{pow-le-pow_right}
use ed25519_verificationtest.Scalar52.{order}
use ed25519_verificationtest.Heea.{I256, bit_length_i256}
use ed25519_verificationtest.Heea.Vartime.{
  HeeaState, heea_turn, heea_loop, heea_start, curve25519_heea_vartime, into_i256, basepoint_order,
  from_le_bytes,
}
use ed25519_verificationtest.Heea.Magnitude.{magnitude, IsWords}
use ed25519_verificationtest.Heea.BitLength.{
  IsBitLength, IsBitLength-le, bit_length_i256-IsBitLength,
}
use ed25519_verificationtest.Heea.Signed.{plus-minus}
use ed25519_verificationtest.Heea.Cofactors.{
  Parts, size, cross, IsOneSided, IsCombination, IsPlusMinus,
}
use ed25519_verificationtest.Heea.Turn.{IsBalanced}
use ed25519_verificationtest.Heea.Combine.{parts, parts-IsOneSided}
use ed25519_verificationtest.Heea.Invariant.{IsInvariant, parts-IsBitLength, heea_turn-IsInvariant}
use ed25519_verificationtest.Common.{true}
use ed25519_verificationtest.Heea.{i256_zero}
use ed25519_verificationtest.Heea.{i256_one}
use ed25519_verificationtest.Common.{Congr-intro}
use ed25519_verificationtest.Common.{Congr-of_eq}

-- What the two numbers are: `rho` is `tau * v` modulo the group order, both are short, and `tau` is
-- not zero.
pub record IsHalving (v : Parts) (pair : I256 × I256) : Type 0 where
  pub words_rho : IsWords pair.0.limbs
  pub words_tau : IsWords pair.1.limbs
  pub combination : IsCombination order v (parts pair.0) (parts pair.1)
  pub rho_short : magnitude pair.0.limbs < 2 ^ 127
  pub tau_short : magnitude pair.1.limbs ≤ 2 ^ 125
  pub tau_nonzero : 0 < magnitude pair.1.limbs

-- A cofactor that is zero would make the determinant zero.
cofactor_nonzero :
    (v r0 r1 t0 t1 : Parts)
    → IsCombination order v r1 t1
    → IsOneSided r1
    → IsPlusMinus order (cross r0 r1 t0 t1)
    → size r1 < 2 ^ 127
    → 0 < size t1
unfolding IsCombination IsOneSided IsPlusMinus
cofactor_nonzero v r0 r1 t0 t1 second sided det short = elim (lt-or_le 0 (size t1)) [
  | inl positive ↦ positive
  | inr small ↦
      let p : t1.pos ≡ 0 = omega arith in
      let n : t1.neg ≡ 0 = omega arith in
      let same : Congr order r1.pos r1.neg = grind (arith, second.same) in
      let p1 : r1.pos ≡ 0 = grind (arith, same.same) in
      let n1 : r1.neg ≡ 0 = grind (arith, same.same) in grind arith
]

stopped-IsHalving :
    (v : Parts) (s : HeeaState) → IsInvariant v s → s.bl_r1 ≤ 127 → IsHalving v (s.r1, s.t1)
stopped-IsHalving v s h short =
    let b = h.balanced in
    let power : 2 ^ s.bl_r1 ≤ 2 ^ 127 = pow-le-pow_right (omega arith) {j = 127} short in
    let rho : size (parts s.r1) < 2 ^ 127 = omega (arith, b.length1.above) in
    let tau = b.bound1 127 h.long in
    let positive =
      cofactor_nonzero v (parts s.r0) (parts s.r1) (parts s.t0) (parts s.t1) b.second
        (parts-IsOneSided s.r1) b.determinant rho in
    record {
      words_rho = h.words_r1;
      words_tau = h.words_t1;
      combination = b.second;
      rho_short = omega (arith, plus-minus s.r1);
      tau_short = omega (arith, plus-minus s.t1);
      tau_nonzero = omega (arith, plus-minus s.t1);
    }

-- From every state that meets the invariant, with fuel for each bit of the two remainders above
-- 255, the loop of `curve25519_heea_vartime` ends, and its result is short, is a combination of the
-- input modulo the group order, and has a cofactor that is not zero.
pub heea_loop-IsHalving :
    (fuel : ℕ) (v : Parts) (s : HeeaState)
    → IsInvariant v s
    → s.bl_r0 + s.bl_r1 ≤ fuel + 255
    → Returns (IsHalving v) (heea_loop fuel s)
unfolding heea_loop Returns
heea_loop-IsHalving zero v s h enough =
    let stop : leb s.bl_r1 127 ≡ true = ground (arith, h.long) in
    rw stop (stopped-IsHalving v s h (ground arith))
heea_loop-IsHalving (suc fuel) v s h enough = elim (Bool-cases (leb s.bl_r1 127)) [
  | inl stop ↦ rw stop (stopped-IsHalving v s h (ground arith))
  | inr on ↦
      let (next, less) = heea_turn-IsInvariant v s h (ground arith) in
      rw on (heea_loop-IsHalving fuel v (heea_turn s) next (omega (arith, less)))
]

module _ (v : I256) (h : IsWords v.limbs) (below : magnitude v.limbs < order) where
  order_value : magnitude (into_i256 basepoint_order).limbs ≡ order
  unfolding into_i256 from_le_bytes
  order_value = omega arith

  order-IsWords : IsWords (into_i256 basepoint_order).limbs
  unfolding into_i256 from_le_bytes
  order-IsWords = record {
    word0 = omega arith;
    word1 = omega arith;
    word2 = omega arith;
    word3 = omega arith;
  }

  order_length : IsBitLength (size (parts (into_i256 basepoint_order))) 253
  unfolding bit_length_i256 into_i256 from_le_bytes
  order_length = parts-IsBitLength (into_i256 basepoint_order) order-IsWords

  short_enough : bit_length_i256 v ≤ 253
  short_enough =
      IsBitLength-le (magnitude v.limbs) (bit_length_i256 v) 253 (bit_length_i256-IsBitLength v h)
        (omega arith)

  start-IsBalanced :
      IsBalanced order
        (parts v)
        (parts (into_i256 basepoint_order))
        (parts v)
        (parts i256_zero)
        (parts i256_one)
        253
        (bit_length_i256 v)
  unfolding IsCombination IsPlusMinus into_i256 from_le_bytes
  start-IsBalanced = record {
    length0 = order_length;
    length1 = parts-IsBitLength v h;
    first = Congr-intro order _ _ 0 1 (omega arith);
    second = Congr-of_eq order (omega arith);
    determinant = inl (omega arith);
    bound0 = λ j lt. omega arith;
    bound1 = λ j lt. omega (arith, order_length.below j lt);
    sided0 = parts-IsOneSided i256_zero;
    sided1 = parts-IsOneSided i256_one;
  }

  pub start-IsInvariant : IsInvariant (parts v) (heea_start v)
  unfolding heea_start
  start-IsInvariant = record {
    words_r0 = order-IsWords;
    words_r1 = h;
    words_t0 = record {
      word0 = omega arith;
      word1 = omega arith;
      word2 = omega arith;
      word3 = omega arith;
    };
    words_t1 = record {
      word0 = omega arith;
      word1 = omega arith;
      word2 = omega arith;
      word3 = omega arith;
    };
    balanced = start-IsBalanced;
    ordered = short_enough;
    long = omega arith;
    fits = omega arith;
  }

-- For every signed number whose magnitude is below the group order, `curve25519_heea_vartime` gives
-- a result within 251 turns: the first number is below 2^127 in magnitude, the second at most 2^125
-- and not zero, and the first is the second times the input modulo the order.
pub curve25519_heea_vartime-IsHalving :
    (v : I256)
    → IsWords v.limbs
    → magnitude v.limbs < order
    → Returns (IsHalving (parts v)) (curve25519_heea_vartime v)
unfolding curve25519_heea_vartime heea_start
curve25519_heea_vartime-IsHalving v h below =
    heea_loop-IsHalving 251 (parts v) (heea_start v) (start-IsInvariant v h below)
      (omega (arith, short_enough v h below))
