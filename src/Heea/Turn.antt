-- ===== src/Heea/Turn.antt =====
-- About one turn of `curve25519_heea_vartime` of curve25519/solana-ed25519/src/scalar/heea.rs, on
-- signed numbers by their parts.
use ed25519_verificationtest.Common.{
  ℕ, suc, ◌+◌, ◌*◌, ◌^◌, ◌<◌, ◌≤◌, ◌≡◌, ap, arith, inl, inr, pow-add,
}
use ed25519_verificationtest.Common.{Congr-symm}
use native.Mathlib.Nat.{mul-le-mul_right, pow-le-pow_right, one-le-pow, pow-suc}
use ed25519_verificationtest.Heea.BitLength.{IsBitLength}
use ed25519_verificationtest.Heea.Cofactors.{
  Parts, size, flipped, cross, IsOneSided, IsReduction, IsCombination, IsPlusMinus, IsAligned,
  IsReduction-IsCombination, IsReduction-IsPlusMinus, cofactor_bound,
}
use ed25519_verificationtest.Heea.BitLength.{IsBitLength-le}
use ed25519_verificationtest.Heea.Cofactors.{swapped-IsPlusMinus}
use ed25519_verificationtest.Common.{subst}

-- What holds of the remainders and the cofactors before a turn; `b0` and `b1` are the bit lengths.
pub record IsBalanced (m : ℕ) (v r0 r1 t0 t1 : Parts) (b0 b1 : ℕ) : Type 0 where
  pub length0 : IsBitLength (size r0) b0
  pub length1 : IsBitLength (size r1) b1
  pub first : IsCombination m v r0 t0
  pub second : IsCombination m v r1 t1
  pub determinant : IsPlusMinus m (cross r0 r1 t0 t1)
  pub bound0 : (j : ℕ) → j < b1 → 2 ^ j * size t0 ≤ m
  pub bound1 : (j : ℕ) → j < b0 → 2 ^ j * size t1 ≤ m
  pub sided0 : IsOneSided t0
  pub sided1 : IsOneSided t1

-- What the turn gives: `i` is the top bit of `r1`, and `k` that of `r0`.
pub record IsTurned (m : ℕ) (v r1 t1 r t : Parts) (i k : ℕ) : Type 0 where
  pub combination : IsCombination m v r t
  pub determinant : IsPlusMinus m (cross r r1 t t1)
  pub bound : 2 ^ i * size t ≤ m
  pub smaller : size r < 2 ^ k

pub flipped-IsCombination :
    (m : ℕ) (v r t : Parts) → IsCombination m v r t → IsCombination m v (flipped r) (flipped t)
unfolding IsCombination
flipped-IsCombination m v r t h = Congr-symm h

pub flipped-IsPlusMinus :
    (m : ℕ) (r0 r1 t0 t1 : Parts)
    → IsPlusMinus m (cross r0 r1 t0 t1)
    → IsPlusMinus m (cross r0 (flipped r1) t0 (flipped t1))
unfolding IsPlusMinus
flipped-IsPlusMinus m r0 r1 t0 t1 h = elim h [
  | inl above ↦ inr (omega arith)
  | inr below ↦ inl (omega arith)
]

-- Two numbers of one sign and one bit length differ by a number with fewer bits.
difference-lt :
    (k q : ℕ) (r0 r1 r : Parts)
    → IsOneSided r
    → IsAligned r0 r1
    → IsReduction q r0 r1 r
    → IsBitLength (size r0) (suc k)
    → 2 ^ k ≤ q * size r1
    → q * size r1 < 2 ^ suc k
    → size r < 2 ^ k
unfolding IsOneSided IsAligned IsReduction
difference-lt k q r0 r1 r sided aligned e length low high =
    let below = length.below k (omega arith) in
    elim aligned [
      | inl signs ↦ elim sided [
        | inl p ↦ grind (arith, below, length.above, pow-suc 2 k)
        | inr p ↦ grind (arith, below, length.above, pow-suc 2 k)
      ]
      | inr signs ↦ elim sided [
        | inl p ↦ grind (arith, below, length.above, pow-suc 2 k)
        | inr p ↦ grind (arith, below, length.above, pow-suc 2 k)
      ]
    ]

-- A turn on remainders of one sign.
pub IsReduction-IsTurned :
    (m i s : ℕ) (v r0 r1 t0 t1 r t : Parts)
    → IsBalanced m v r0 r1 t0 t1 (suc (i + s)) (suc i)
    → IsOneSided r
    → IsOneSided t
    → IsAligned r0 r1
    → IsReduction (2 ^ s) r0 r1 r
    → IsReduction (2 ^ s) t0 t1 t
    → IsTurned m v r1 t1 r t i (i + s)
IsReduction-IsTurned m i s v r0 r1 t0 t1 r t h sr st aligned er et =
    let q : ℕ = 2 ^ s in
    let u : ℕ = 2 ^ i in
    let w : 2 ^ (i + s) ≡ u * q = pow-add 2 i s in
    let low0 = h.length0.below (i + s) (omega arith) in
    let low1 = h.length1.below i (omega arith) in
    let scaled_low : u * q ≤ size r1 * q = mul-le-mul_right q low1 in
    let scaled_high : size r1 * q + q ≤ 2 ^ suc i * q =
      omega (arith, mul-le-mul_right q h.length1.above) in
    record {
      combination = IsReduction-IsCombination m q v r0 t0 r1 t1 r t er et h.first h.second;
      determinant = IsReduction-IsPlusMinus m q r0 t0 r1 t1 r t er et h.determinant;
      bound =
          cofactor_bound m u q r0 t0 r1 t1 t h.sided0 h.sided1 st aligned et h.determinant
            (omega (arith, w, low0)) low1 (one-le-pow i 2 (omega arith))
            (one-le-pow s 2 (omega arith)) (h.bound0 i (omega arith))
            (omega (arith, h.bound1 (i + s) (omega arith), ap (λ (x : ℕ). x * size t1) w));
      smaller = difference-lt (i + s) q r0 r1 r sr aligned er h.length0 (omega (arith, w)) (
          omega (
            arith,
            pow-suc 2 (i + s),
            w,
            ap (λ (x : ℕ). x * q) (pow-suc 2 i),
            scaled_high,
            one-le-pow s 2 (omega arith),
          ));
    }

flipped-IsBalanced :
    (m : ℕ) (v r0 r1 t0 t1 : Parts) (b0 b1 : ℕ)
    → IsBalanced m v r0 r1 t0 t1 b0 b1
    → IsBalanced m v r0 (flipped r1) t0 (flipped t1) b0 b1
unfolding IsOneSided
flipped-IsBalanced m v r0 r1 t0 t1 b0 b1 h = record {
  length0 = h.length0;
  length1 = subst (λ (x : ℕ). IsBitLength x b1) (omega arith) h.length1;
  first = h.first;
  second = flipped-IsCombination m v r1 t1 h.second;
  determinant = flipped-IsPlusMinus m r0 r1 t0 t1 h.determinant;
  bound0 = h.bound0;
  bound1 = λ j lt. omega (arith, h.bound1 j lt);
  sided0 = h.sided0;
  sided1 = elim h.sided1 [ inl none ↦ inr none | inr none ↦ inl none ];
}

-- A turn on remainders of opposite signs.
pub opposite-IsTurned :
    (m i s : ℕ) (v r0 r1 t0 t1 r t : Parts)
    → IsBalanced m v r0 r1 t0 t1 (suc (i + s)) (suc i)
    → IsOneSided r
    → IsOneSided t
    → IsAligned r0 (flipped r1)
    → IsReduction (2 ^ s) r0 (flipped r1) r
    → IsReduction (2 ^ s) t0 (flipped t1) t
    → IsTurned m v r1 t1 r t i (i + s)
opposite-IsTurned m i s v r0 r1 t0 t1 r t h sr st aligned er et =
    let turned =
      IsReduction-IsTurned m i s v r0 (flipped r1) t0 (flipped t1) r t
        (flipped-IsBalanced m v r0 r1 t0 t1 (suc (i + s)) (suc i) h) sr st aligned er et in
    record {
      combination = turned.combination;
      determinant = flipped-IsPlusMinus m r (flipped r1) t (flipped t1) turned.determinant;
      bound = turned.bound;
      smaller = turned.smaller;
    }

-- The end of a turn, for the bit length `b` of `r`.
module _ (m i k b : ℕ) (v r0 r1 t0 t1 r t : Parts) (h : IsBalanced m v r0 r1 t0 t1 (suc k) (suc i))
    (turned : IsTurned m v r1 t1 r t i k) (sided : IsOneSided t)
    (length : IsBitLength (size r) b) where
  fewer_bits : b ≤ k
  fewer_bits = IsBitLength-le (size r) b k length turned.smaller

  below_top : (j : ℕ) → j < suc i → 2 ^ j * size t ≤ m
  below_top j lt =
      let power : 2 ^ j ≤ 2 ^ i = pow-le-pow_right (omega arith) (omega arith) in
      let scaled : 2 ^ j * size t ≤ 2 ^ i * size t = mul-le-mul_right (size t) power in
      omega (arith, turned.bound)

  pub kept-IsBalanced : IsBalanced m v r r1 t t1 b (suc i)
  kept-IsBalanced = record {
    length0 = length;
    length1 = h.length1;
    first = turned.combination;
    second = h.second;
    determinant = turned.determinant;
    bound0 = below_top;
    bound1 = λ j lt. h.bound1 j (omega (arith, fewer_bits));
    sided0 = sided;
    sided1 = h.sided1;
  }

  pub swapped-IsBalanced : IsBalanced m v r1 r t1 t (suc i) b
  swapped-IsBalanced = record {
    length0 = h.length1;
    length1 = length;
    first = h.second;
    second = turned.combination;
    determinant = swapped-IsPlusMinus m r t r1 t1 turned.determinant;
    bound0 = λ j lt. h.bound1 j (omega (arith, fewer_bits));
    bound1 = below_top;
    sided0 = h.sided1;
    sided1 = sided;
  }
