-- ===== src/Heea/BitLength.antt =====
-- About `bit_length_i256` of curve25519/solana-ed25519/src/scalar/heea.rs.
use ed25519_verificationtest.Common.{ℕ, zero, suc, ◌+◌, ◌-◌, ◌*◌, ◌/◌, ◌^◌, ◌<◌, ◌≤◌, ◌≡◌, arith}
use native.Mathlib.Nat.{pow-suc}
use ed25519_verificationtest.Heea.{I256, binary_digits, bit_length_i256}
use ed25519_verificationtest.Heea.Magnitude.{magnitude, IsWords}
use ed25519_verificationtest.Common.{Bool-cases, ◌==◌, lt-or_le}
use native.Mathlib.Nat.{mul-le-mul}
use ed25519_verificationtest.Common.{inr, false, pow-add, inl}
use native.Mathlib.Nat.{pow-le-pow_right}
use ed25519_verificationtest.Common.{subst}
use ed25519_verificationtest.Heea.{leading_zeros}
use ed25519_verificationtest.Common.{ap}

-- `n` is the number of the binary digits of `x`.
pub record IsBitLength (x n : ℕ) : Type 0 where
  pub above : x < 2 ^ n
  pub below : (j : ℕ) → j < n → 2 ^ j ≤ x

binary_digits-IsBitLength : (n x : ℕ) → x < 2 ^ n → IsBitLength x (binary_digits n x)
binary_digits-IsBitLength zero x h = record { above = h; below = λ j lt. absurd (omega arith) }
binary_digits-IsBitLength (suc n) zero h = record {
  above = omega arith;
  below = λ j lt. absurd (omega arith);
}
binary_digits-IsBitLength (suc n) (suc x) h =
    let half = binary_digits-IsBitLength n (suc x / 2) (omega (arith, pow-suc 2 n)) in
    let d : ℕ = binary_digits n (suc x / 2) in
    record { above = omega (arith, half.above, pow-suc 2 d); below = lower d half }
  where
    lower : (d : ℕ) → IsBitLength (suc x / 2) d → (j : ℕ) → j < suc d → 2 ^ j ≤ suc x
    lower d half zero lt = omega arith
    lower d half (suc j) lt = omega (arith, half.below j (omega arith), pow-suc 2 j)

-- A number of `k` low bits and a part above them that is not zero.
IsBitLength-shift :
    (k low high n : ℕ)
    → low < 2 ^ k
    → 0 < high
    → IsBitLength high n
    → IsBitLength (low + high * 2 ^ k) (k + n)
IsBitLength-shift k low high n h positive length = record {
  above =
      let scaled : (high + 1) * 2 ^ k ≤ 2 ^ n * 2 ^ k =
        mul-le-mul (omega (arith, length.above)) (omega arith) in
      omega (arith, pow-add 2 k n);
  below = λ j lt. elim (lt-or_le j k) [
    | inl low_bit ↦
        let smaller : 2 ^ j ≤ 2 ^ k = pow-le-pow_right (omega arith) (omega arith) in
        let scaled : 1 * 2 ^ k ≤ high * 2 ^ k = mul-le-mul (omega arith) (omega arith) in
        omega arith
    | inr high_bit ↦
        let e : j ≡ k + (j - k) = omega arith in
        let scaled : 2 ^ (j - k) * 2 ^ k ≤ high * 2 ^ k =
          mul-le-mul (length.below (j - k) (omega arith)) (omega arith) in
        omega (arith, ap (λ (t : ℕ). 2 ^ t) e, pow-add 2 k (j - k))
  ];
}

-- The limb that `bit_length_i256` stops at, with the number of the bits below it.
module _ (x : ℕ) (word : x < 2 ^ 64) where
  digits-le : binary_digits 64 x ≤ 64
  digits-le = elim (lt-or_le 64 (binary_digits 64 x)) [
    | inl more ↦ absurd (omega (arith, (binary_digits-IsBitLength 64 x word).below 64 more))
    | inr fits ↦ fits
  ]

  top_limb-IsBitLength :
      (k low total : ℕ)
      → low < 2 ^ k
      → (x == 0) ≡ false
      → low + x * 2 ^ k ≡ total
      → IsBitLength total (k + (64 - leading_zeros x))
  top_limb-IsBitLength k low total h nonzero sum =
      let e : 64 - leading_zeros x ≡ binary_digits 64 x = omega (arith, digits-le) in
      let shifted =
        IsBitLength-shift k low x (binary_digits 64 x) h (ground arith)
          (binary_digits-IsBitLength 64 x word) in
      rw e (subst (λ (t : ℕ). IsBitLength t (k + binary_digits 64 x)) sum shifted)

-- On 64-bit limbs `bit_length_i256` gives the number of the binary digits of the magnitude.
pub bit_length_i256-IsBitLength :
    (v : I256) → IsWords v.limbs → IsBitLength (magnitude v.limbs) (bit_length_i256 v)
unfolding bit_length_i256
bit_length_i256-IsBitLength v h =
    let l = v.limbs in
    let low2 : ℕ = l.l0 + 2 ^ 64 * l.l1 in
    let low3 : ℕ = low2 + 2 ^ 128 * l.l2 in
    let w0 = h.word0 in
    let w1 = h.word1 in
    let w2 = h.word2 in
    elim (Bool-cases (l.l3 == 0)) [
      | inr stop ↦
          rw stop
            (top_limb-IsBitLength l.l3 h.word3 (3 * 64) low3 _ (omega arith) stop (omega arith))
      | inl on3 ↦
          let e3 : l.l3 ≡ 0 = ground arith in
          elim (Bool-cases (l.l2 == 0)) [
            | inr stop ↦
                rw (on3, stop)
                  (top_limb-IsBitLength l.l2 w2 (2 * 64) low2 _ (omega arith) stop (omega arith))
            | inl on2 ↦
                let e2 : l.l2 ≡ 0 = ground arith in
                elim (Bool-cases (l.l1 == 0)) [
                  | inr stop ↦
                      rw (on3, on2, stop)
                        (top_limb-IsBitLength l.l1 w1 (1 * 64) l.l0 _ (omega arith) stop
                          (omega arith))
                  | inl on1 ↦
                      let e1 : l.l1 ≡ 0 = ground arith in
                      elim (Bool-cases (l.l0 == 0)) [
                        | inr stop ↦
                            rw (on3, on2, on1, stop)
                              (top_limb-IsBitLength l.l0 w0 (0 * 64) 0 _ (omega arith) stop
                                (omega arith))
                        | inl on0 ↦
                            let e0 : l.l0 ≡ 0 = ground arith in
                            rw (on3, on2, on1, on0)
                              (record { above = omega arith; below = λ j lt. absurd (omega arith) })
                      ]
                ]
          ]
    ]

-- A number below a power of two has no more digits than that.
pub IsBitLength-le : (x m n : ℕ) → IsBitLength x m → x < 2 ^ n → m ≤ n
IsBitLength-le x m n hm h = elim (lt-or_le n m) [
  | inl more ↦ absurd (omega (arith, hm.below n more))
  | inr fits ↦ fits
]
