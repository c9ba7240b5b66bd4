-- ===== src/Digits/Bytes.antt =====
-- The digits of `non_adjacent_form` of curve25519/solana-ed25519/src/scalar.rs are bytes.
use ed25519_verificationtest.Common.{
  ℕ, zero, suc, ◌<◌, arith, List, [], ◌∷◌, get_or, set, tabulate, Bool-cases, inl, inr, ◌==◌,
  bit_and, if◌then◌else◌, ltb, ◌/◌, ◌^◌, ◌++◌,
}
use ed25519_verificationtest.Scalar.{Scalar}
use ed25519_verificationtest.Digits.{
  NafState, naf_round, naf_step, naf_loop, non_adjacent_form, read_le_u64,
}
use ed25519_verificationtest.Digits.NonAdjacent.{zeros}

set_byte : (xs : List ℕ) (i v j : ℕ) → v < 256 → get_or xs j 0 < 256 → get_or (set xs i v) j 0 < 256
set_byte [] i v j hv h = h
set_byte (x ∷ xs) zero v zero hv h = hv
set_byte (x ∷ xs) zero v (suc j) hv h = h
set_byte (x ∷ xs) (suc i) v zero hv h = h
set_byte (x ∷ xs) (suc i) v (suc j) hv h = set_byte xs i v j hv h

naf_round_byte :
    (w v : ℕ) (t : NafState) (i : ℕ)
    → get_or t.naf i 0 < 256
    → get_or (naf_round w v t).naf i 0 < 256
unfolding naf_round
naf_round_byte w v t i h = elim (Bool-cases (bit_and v 1 == 0)) [
  | inl even ↦ rw even h
  | inr odd ↦ elim (Bool-cases (ltb v (2 ^ w / 2))) [
    | inl small ↦ rw (odd, small) (set_byte t.naf t.pos _ i (omega arith) h)
    | inr large ↦ rw (odd, large) (set_byte t.naf t.pos _ i (omega arith) h)
  ]
]

guarded_byte :
    (x : List ℕ) (w : ℕ) (t : NafState) (i : ℕ)
    → get_or t.naf i 0 < 256
    → get_or (if ltb t.pos 256 then naf_step x w t else t).naf i 0 < 256
unfolding naf_step
guarded_byte x w t i h = elim (Bool-cases (ltb t.pos 256)) [
  | inl inside ↦ rw inside (naf_round_byte w _ t i h)
  | inr past ↦ rw past h
]

naf_loop_byte :
    (fuel : ℕ) (x : List ℕ) (w : ℕ) (t : NafState) (i : ℕ)
    → get_or t.naf i 0 < 256
    → get_or (naf_loop fuel x w t).naf i 0 < 256
unfolding naf_loop
naf_loop_byte zero x w t i h = h
naf_loop_byte (suc fuel) x w t i h =
    naf_loop_byte fuel x w (if ltb t.pos 256 then naf_step x w t else t) i (guarded_byte x w t i h)

pub non_adjacent_form-lt : (a : Scalar) (w i : ℕ) → get_or (non_adjacent_form a w) i 0 < 256
unfolding non_adjacent_form
non_adjacent_form-lt a w i =
    naf_loop_byte 256 (read_le_u64 4 a.bytes ++ (0 ∷ [])) w
      (record { pos = 0; carry = 0; naf = tabulate 256 0 (λ i. 0) }) i
      (omega (arith, zeros 256 0 i))
