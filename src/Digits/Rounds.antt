-- ===== src/Digits/Rounds.antt =====
-- About the three ways through a round of `non_adjacent_form` of
-- curve25519/solana-ed25519/src/scalar.rs.
use ed25519_verificationtest.Common.{
  ℕ, zero, suc, ◌+◌, ◌-◌, ◌*◌, ◌/◌, ◌%◌, ◌^◌, ◌<◌, ◌≤◌, ◌≡◌, inl, inr, refl, ap, ◌∙◌, arith,
  Bool-cases, ltb, if◌then◌else◌, u8, bit_and-low_mask, bit_and, ◌==◌,
}
use ed25519_verificationtest.Digits.{positive, negative, sub8, NafState, naf_round}
use ed25519_verificationtest.Digits.Naf.{
  IsPartial, remaining, quotient_shift, even_round, odd_round,
}
use native.Mathlib.Nat.{
  div-add-mod, pow-suc, mod-lt, one-le-pow, le_of_mul-le-mul_left, pow-le-pow_right,
}
use ed25519_verificationtest.Common.{set}
use native.Mathlib.Nat.{lt_of_mul-lt-mul_left}

positive-low : (x : ℕ) → x < 128 → positive x ≡ x
positive-low x h = ground arith

negative-low : (x : ℕ) → x < 128 → negative x ≡ 0
negative-low x h = ground arith

positive-high : (x : ℕ) → 128 ≤ x → positive x ≡ 0
positive-high x h = ground arith

negative-high : (x : ℕ) → 128 ≤ x → negative x ≡ 256 - x
negative-high x h = ground arith

wrapped : (v m : ℕ) → v < m → m ≤ 256 → sub8 (u8 v) (u8 m) ≡ 256 + v - m
wrapped v m lt le = omega arith

-- What is left after a window: it shrinks by the width, rounded up by at most one.
shrink_small : (m v z k : ℕ) → 0 < m → v + m * z ≤ m * k → z + 0 ≤ k
shrink_small m v z k pos le =
    let bound : z ≤ k = le_of_mul-le-mul_left {m = z} {n = k} {k = m} (omega arith) pos in
    omega arith

shrink_large : (m v z k : ℕ) → 0 < m → 0 < v → v + m * z ≤ m * k → z + 1 ≤ k
shrink_large m v z k pos some le =
    let bound : z < k = lt_of_mul-lt-mul_left m {m = z} {n = k} (omega arith) in omega arith

end_small : (m half v z : ℕ) → m ≡ 2 * half → 0 < half → v + m * z ≤ half → z + 0 ≡ 0
end_small m half v zero e pos le = refl
end_small m half v (suc z) e pos le = absurd (omega arith)

module _ (n w : ℕ) (t : NafState) (h : IsPartial n w t) (wide : 1 < w) (narrow : w ≤ 8)
    (inside : t.pos < 256) where
  abbrev bits : ℕ
  bits = n / 2 ^ t.pos

  abbrev width : ℕ
  width = 2 ^ w

  abbrev half : ℕ
  half = 2 ^ (w - 1)

  abbrev window : ℕ
  window = t.carry + bits % width

  width-half : width ≡ 2 * half
  width-half =
      let e : w ≡ suc (w - 1) = omega arith in
      ap (λ (x : ℕ). 2 ^ x) e ∙ pow-suc 2 (w - 1) ∙ omega arith

  half-even : half ≡ 2 * 2 ^ (w - 2)
  half-even =
      let e : w - 1 ≡ suc (w - 2) = omega arith in
      ap (λ (x : ℕ). 2 ^ x) e ∙ pow-suc 2 (w - 2) ∙ omega arith

  half-bound : half ≤ 128
  half-bound = pow-le-pow_right {n = 2} (omega arith) {i = w - 1} {j = 7} (omega arith)

  split : remaining n t ≡ window + width * (bits / width)
  split = omega (arith, div-add-mod bits width)

  below : bits % width < width
  below = mod-lt bits (one-le-pow w 2 (omega arith))

  parity : remaining n t % 2 ≡ window % 2
  parity = omega (arith, split, ap (λ (x : ℕ). x * (bits / width)) width-half)

  low_bit : bit_and window 1 ≡ window % 2
  low_bit = bit_and-low_mask 1 window

  -- Below half of the width the window is the digit.
  small_round :
      window % 2 ≡ 1
      → window < half
      → IsPartial n w (record { pos = t.pos + w; carry = 0; naf = set t.naf t.pos (u8 window) })
  small_round odd small =
      let digit : u8 window ≡ window = omega (arith, half-bound) in
      let next : n / 2 ^ (t.pos + w) ≡ bits / width = quotient_shift n t.pos w in
      rw digit (
        odd_round n w t h wide inside window 0 (omega arith)
          (record {
            odd = odd;
            high = omega (arith, positive-low window (omega (arith, half-bound)));
            low = omega (arith, negative-low window (omega (arith, half-bound)));
          })
          (rw next (
            omega (
              arith,
              split,
              positive-low window (omega (arith, half-bound)),
              negative-low window (omega (arith, half-bound)),
            )))
          (λ k le. rw next (
            shrink_small width window (bits / width) k (one-le-pow w 2 (omega arith))
              (omega (arith, split))))
          (λ le. rw next (
            end_small width half window (bits / width) width-half (omega arith)
              (omega (arith, split)))))

  -- Above, the digit is the window less the width, and there is a carry.
  large_round :
      window % 2 ≡ 1
      → half ≤ window
      → IsPartial n w (record {
        pos = t.pos + w;
        carry = 1;
        naf = set t.naf t.pos (sub8 (u8 window) (u8 width));
      })
  large_round odd large =
      let d = sub8 (u8 window) (u8 width) in
      let fits : window < width = omega (arith, below, h.bit, width-half) in
      let digit : d ≡ 256 + window - width =
        wrapped window width fits (omega (arith, width-half, half-bound)) in
      let high : 128 ≤ d = omega (arith, width-half, half-bound) in
      let next : n / 2 ^ (t.pos + w) ≡ bits / width = quotient_shift n t.pos w in
      odd_round n w t h wide inside d 1 (omega arith)
        (record {
          odd = omega (arith, digit, width-half);
          high = omega (arith, positive-high d high, one-le-pow (w - 1) 2);
          low = omega (arith, negative-high d high, width-half, half-even);
        })
        (rw next (omega (arith, split, digit, positive-high d high, negative-high d high)))
        (λ k le. rw next (
          shrink_large width window (bits / width) k (one-le-pow w 2 (omega arith)) (omega arith)
            (omega (arith, split))))
        (λ le. absurd (omega (arith, split, half-even)))

  by_size :
      window % 2 ≡ 1
      → IsPartial n w (
          if ltb window (width / 2)
          then record { pos = t.pos + w; carry = 0; naf = set t.naf t.pos (u8 window) }
          else record {
            pos = t.pos + w;
            carry = 1;
            naf = set t.naf t.pos (sub8 (u8 window) (u8 width));
          })
  by_size odd = elim (Bool-cases (ltb window (width / 2))) [
    | inl small ↦
        let lt : window < half = ground (arith, width-half) in rw small (small_round odd lt)
    | inr large ↦
        let le : half ≤ window = ground (arith, width-half) in rw large (large_round odd le)
  ]

  pub naf_round-IsPartial : IsPartial n w (naf_round w window t)
  unfolding naf_round
  naf_round-IsPartial = elim (Bool-cases (bit_and window 1 == 0)) [
    | inl even ↦
        let none : window % 2 ≡ 0 = ground (arith, low_bit) in
        rw even (even_round n w t h inside (omega (arith, parity)))
    | inr odd ↦ let one : window % 2 ≡ 1 = ground (arith, low_bit) in rw odd (by_size one)
  ]
