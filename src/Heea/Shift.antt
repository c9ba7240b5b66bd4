-- ===== src/Heea/Shift.antt =====
-- About `wrapping_shl` of curve25519/solana-ed25519/src/scalar/heea.rs.
use ed25519_verificationtest.Common.{
  ℕ, zero, suc, ◌+◌, ◌-◌, ◌*◌, ◌/◌, ◌%◌, ◌^◌, ◌<◌, ◌≤◌, ◌≡◌, refl, sym, ap, ◌∙◌, arith, Bool-cases,
  inl, inr, ◌==◌, leb,
}
use ed25519_verificationtest.Common.{
  shr, shl64, bit_or, bit_and, bit_or_comm, bit_or_disjoint, bit_and-low_mask, pow-add,
}
use native.Mathlib.Nat.{
  mul-add-mod_self_left, mod-eq_of_lt, mod-lt, div-add-mod, mul-le-mul, one-le-pow,
  div-lt_iff_lt-mul,
}
use ed25519_verificationtest.Heea.{Limbs, I256, funnel, shl_limbs, shl_bits, wrapping_shl}
use ed25519_verificationtest.Heea.Magnitude.{magnitude, IsWords}
use ed25519_verificationtest.Common.{false}

mod_scaled : (m d x : ℕ) → 0 < m → 0 < d → x * d % (m * d) ≡ x % m * d
mod_scaled m d x hm hd =
    ap (λ (t : ℕ). t % (m * d)) regroup
    ∙ mul-add-mod_self_left (m * d) (x / m) (x % m * d)
    ∙ mod-eq_of_lt below
  where
    regroup : x * d ≡ m * d * (x / m) + x % m * d
    regroup = omega (arith, ap (λ (t : ℕ). t * d) (div-add-mod x m))

    below : x % m * d < m * d
    below =
        let small : x % m + 1 ≤ m = omega (arith, mod-lt x {m = m} hm) in
        let scaled : (x % m + 1) * d ≤ m * d = mul-le-mul small (omega arith) in omega arith

-- One word shifted by fewer than 64 bits: what stays, and what goes into the next word.
module _ (k : ℕ) (positive : 0 < k) (narrow : k < 64) where
  whole : 2 ^ (64 - k) * 2 ^ k ≡ 2 ^ 64
  whole =
      let e : 64 - k + k ≡ 64 = omega arith in sym (pow-add 2 (64 - k) k) ∙ ap (λ (t : ℕ). 2 ^ t) e

  kept : (x : ℕ) → shl64 x k ≡ x % 2 ^ (64 - k) * 2 ^ k
  kept x =
      ap (λ (t : ℕ). x * 2 ^ k % t) (sym whole)
      ∙ mod_scaled (2 ^ (64 - k)) (2 ^ k) x (one-le-pow (64 - k) 2 (omega arith))
          (one-le-pow k 2 (omega arith))

  split : (x : ℕ) → x * 2 ^ k ≡ shl64 x k + 2 ^ 64 * shr x (64 - k)
  split x = omega (
    arith,
    kept x,
    ap (λ (t : ℕ). t * 2 ^ k) (div-add-mod x (2 ^ (64 - k))),
    ap (λ (t : ℕ). t * (x / 2 ^ (64 - k))) whole,
  )

  carried-lt : (x : ℕ) → x < 2 ^ 64 → shr x (64 - k) < 2 ^ k
  carried-lt x h =
      (div-lt_iff_lt-mul {k = 2 ^ (64 - k)} {x = x} {y = 2 ^ k}
          (one-le-pow (64 - k) 2 (omega arith))).1
        (omega (arith, whole))

  kept-le : (x : ℕ) → shl64 x k + 2 ^ k ≤ 2 ^ 64
  kept-le x =
      let small = mod-lt x {m = 2 ^ (64 - k)} (one-le-pow (64 - k) 2 (omega arith)) in
      let scaled : (x % 2 ^ (64 - k) + 1) * 2 ^ k ≤ 2 ^ (64 - k) * 2 ^ k =
        mul-le-mul (omega (arith, small)) (omega arith) in
      omega (arith, whole, kept x)

  funnel-sum :
      (high low : ℕ)
      → low < 2 ^ 64
      → (funnel k high low ≡ shl64 high k + shr low (64 - k)) × (funnel k high low < 2 ^ 64)
  unfolding funnel
  funnel-sum high low h =
      let sum : bit_or (shl64 high k) (shr low (64 - k)) ≡ shl64 high k + shr low (64 - k) =
        bit_or_comm (shl64 high k) (shr low (64 - k))
        ∙ ap (λ (t : ℕ). bit_or (shr low (64 - k)) t) (kept high)
        ∙ bit_or_disjoint k (shr low (64 - k)) (high % 2 ^ (64 - k)) (carried-lt low h)
        ∙ omega (arith, kept high) in
      (sum, omega (arith, sum, kept-le high, carried-lt low h))

  -- A number of 256 bits that is still one after the shift.
  shl_bits-magnitude :
      (j : ℕ) (l : Limbs)
      → IsWords l
      → j < 4
      → magnitude l * 2 ^ k * 2 ^ (64 * j) < 2 ^ 256
      → (magnitude (shl_bits j k l) ≡ magnitude l * 2 ^ k * 2 ^ (64 * j)) × IsWords (shl_bits j k l)
  unfolding shl_bits
  shl_bits-magnitude zero l h small fits =
      let (e1, w1) = funnel-sum l.l1 l.l0 h.word0 in
      let (e2, w2) = funnel-sum l.l2 l.l1 h.word1 in
      let (e3, w3) = funnel-sum l.l3 l.l2 h.word2 in
      (
        omega (arith, e1, e2, e3, split l.l0, split l.l1, split l.l2, split l.l3),
        record { word0 = omega arith; word1 = w1; word2 = w2; word3 = w3 },
      )
  shl_bits-magnitude (suc zero) l h small fits =
      let (e2, w2) = funnel-sum l.l1 l.l0 h.word0 in
      let (e3, w3) = funnel-sum l.l2 l.l1 h.word1 in
      (
        omega (arith, e2, e3, split l.l0, split l.l1, split l.l2, split l.l3),
        record { word0 = omega arith; word1 = omega arith; word2 = w2; word3 = w3 },
      )
  shl_bits-magnitude (suc (suc zero)) l h small fits =
      let (e3, w3) = funnel-sum l.l1 l.l0 h.word0 in
      (
        omega (arith, e3, split l.l0, split l.l1, split l.l2, split l.l3),
        record { word0 = omega arith; word1 = omega arith; word2 = omega arith; word3 = w3 },
      )
  shl_bits-magnitude (suc (suc (suc zero))) l h small fits = (
    omega (arith, split l.l0, split l.l1, split l.l2, split l.l3),
    record { word0 = omega arith; word1 = omega arith; word2 = omega arith; word3 = omega arith },
  )
  shl_bits-magnitude (suc (suc (suc (suc j)))) l h small fits = absurd (omega arith)

shl_limbs-magnitude :
    (j : ℕ) (l : Limbs)
    → IsWords l
    → j < 4
    → magnitude l * 2 ^ (64 * j) < 2 ^ 256
    → (magnitude (shl_limbs j l) ≡ magnitude l * 2 ^ (64 * j)) × IsWords (shl_limbs j l)
unfolding shl_limbs
shl_limbs-magnitude zero l h small fits = (omega arith, h)
shl_limbs-magnitude (suc zero) l h small fits =
    (omega arith, record { word0 = omega arith; word1 = h.word0; word2 = h.word1; word3 = h.word2 })
shl_limbs-magnitude (suc (suc zero)) l h small fits = (
  omega arith,
  record { word0 = omega arith; word1 = omega arith; word2 = h.word0; word3 = h.word1 },
)
shl_limbs-magnitude (suc (suc (suc zero))) l h small fits = (
  omega arith,
  record { word0 = omega arith; word1 = omega arith; word2 = omega arith; word3 = h.word0 },
)
shl_limbs-magnitude (suc (suc (suc (suc j)))) l h small fits = absurd (omega arith)

-- What a shift gives: the number times the power of two, with the same sign.
pub record IsShifted (v : I256) (shift : ℕ) (shifted : I256) : Type 0 where
  pub words : IsWords shifted.limbs
  pub scaled : magnitude shifted.limbs ≡ magnitude v.limbs * 2 ^ shift
  pub sign : shifted.negative ≡ v.negative

-- For a number with 64-bit limbs and a shift below 256, if the shifted number fits 256 bits
-- `wrapping_shl` gives it, with the same sign and 64-bit limbs.
pub wrapping_shl-IsShifted :
    (v : I256) (shift : ℕ)
    → IsWords v.limbs
    → shift < 256
    → magnitude v.limbs * 2 ^ shift < 2 ^ 256
    → IsShifted v shift (wrapping_shl v shift)
unfolding wrapping_shl
wrapping_shl-IsShifted v shift h small fits =
    let bits : bit_and shift 63 ≡ shift % 64 = bit_and-low_mask 6 shift in
    let narrow : leb 256 shift ≡ false = ground arith in
    let parts : 2 ^ shift ≡ 2 ^ (shift % 64) * 2 ^ (64 * (shift / 64)) =
      ap (λ (t : ℕ). 2 ^ t) (omega arith) ∙ pow-add 2 (shift % 64) (64 * (shift / 64)) in
    let regroup = ap (λ (t : ℕ). magnitude v.limbs * t) parts in
    elim (Bool-cases (shift == 0)) [
      | inl none ↦
          let e : shift ≡ 0 = ground arith in
          rw (bits, narrow, none) (record { words = h; scaled = rw e (omega arith); sign = refl })
      | inr some ↦ elim (Bool-cases (shift % 64 == 0)) [
        | inl aligned ↦
            let e : shift % 64 ≡ 0 = ground arith in
            let one = ap (λ (t : ℕ). magnitude v.limbs * (2 ^ t * 2 ^ (64 * (shift / 64)))) e in
            let (scaled, words) =
              shl_limbs-magnitude (shift / 64) v.limbs h (omega arith) (omega arith) in
            rw (bits, narrow, some, aligned)
              (record { words = words; scaled = omega arith; sign = refl })
        | inr across ↦
            let positive : 0 < shift % 64 = ground arith in
            let (scaled, words) =
              shl_bits-magnitude (shift % 64) positive (omega arith) (shift / 64) v.limbs h
                (omega arith) (omega arith) in
            rw (bits, narrow, some, across)
              (record { words = words; scaled = omega arith; sign = refl })
      ]
    ]
