-- ===== src/Heea/Cofactors.antt =====
-- Signed numbers by their parts: what one turn of `curve25519_heea_vartime` of
-- curve25519/solana-ed25519/src/scalar/heea.rs does to them.
use ed25519_verificationtest.Common.{
  ℕ, ◌+◌, ◌-◌, ◌*◌, ◌<◌, ◌≤◌, ◌≡◌, ap, arith, ◌⊎◌, inl, inr, lt-or_le,
}
use ed25519_verificationtest.Common.{
  Congr, Congr-trans, Congr-add, Congr-mul, Congr-refl, Congr-of_eq, Congr-symm, Congr-cancel,
}
use native.Mathlib.Nat.{mul-le-mul_right}
use native.Mathlib.Nat.{le_of_mul-le-mul_left}
use native.Mathlib.Nat.{one-le-mul}
use native.Mathlib.Nat.{mul-le-mul_left}

-- A signed number as a difference of two, one of which is zero.
pub record Parts : Type 0 where
  pub pos : ℕ
  pub neg : ℕ

unfoldable pub IsOneSided : Parts → Type 0
IsOneSided a = (a.pos ≡ 0) ⊎ (a.neg ≡ 0)

abbrev pub size : Parts → ℕ
size a = a.pos + a.neg

abbrev pub flipped : Parts → Parts
flipped a = record { pos = a.neg; neg = a.pos }

-- `c` is `a - q * b`.
unfoldable pub IsReduction : ℕ → Parts → Parts → Parts → Type 0
IsReduction q a b c = c.pos + a.neg + q * b.pos ≡ c.neg + a.pos + q * b.neg

-- `r` is `t * v` modulo `m`.
unfoldable pub IsCombination : ℕ → Parts → Parts → Parts → Type 0
IsCombination m v r t =
    Congr m (r.pos + t.neg * v.pos + t.pos * v.neg) (r.neg + t.pos * v.pos + t.neg * v.neg)

-- The positive and the negative terms of `r0 * t1 - r1 * t0`.
abbrev pub cross : Parts → Parts → Parts → Parts → Parts
cross r0 r1 t0 t1 = record {
  pos = r0.pos * t1.pos + r0.neg * t1.neg + r1.pos * t0.neg + r1.neg * t0.pos;
  neg = r0.pos * t1.neg + r0.neg * t1.pos + r1.pos * t0.pos + r1.neg * t0.neg;
}

-- `a` is `m` or `- m`.
unfoldable pub IsPlusMinus : ℕ → Parts → Type 0
IsPlusMinus m a = (a.pos ≡ a.neg + m) ⊎ (a.neg ≡ a.pos + m)

-- A turn keeps `r ≡ t * v`.
pub IsReduction-IsCombination :
    (m q : ℕ) (v r0 t0 r1 t1 r t : Parts)
    → IsReduction q r0 r1 r
    → IsReduction q t0 t1 t
    → IsCombination m v r0 t0
    → IsCombination m v r1 t1
    → IsCombination m v r t
unfolding IsReduction IsCombination
IsReduction-IsCombination m q v r0 t0 r1 t1 r t er et h0 h1 =
    let f0 : ℕ = r0.pos + t0.neg * v.pos + t0.pos * v.neg in
    let g0 : ℕ = r0.neg + t0.pos * v.pos + t0.neg * v.neg in
    let f1 : ℕ = r1.pos + t1.neg * v.pos + t1.pos * v.neg in
    let g1 : ℕ = r1.neg + t1.pos * v.pos + t1.neg * v.neg in
    let f : ℕ = r.pos + t.neg * v.pos + t.pos * v.neg in
    let g : ℕ = r.neg + t.pos * v.pos + t.neg * v.neg in
    let balance : f + (g0 + q * f1) ≡ g + (f0 + q * g1) =
      omega (arith, er, ap (λ (x : ℕ). x * v.pos) et, ap (λ (x : ℕ). x * v.neg) et) in
    let back : Congr m (f0 + q * g1) (g0 + q * f1) =
      Congr-add h0 (Congr-mul (Congr-refl m q) (Congr-symm h1)) in
    Congr-cancel m f g (g0 + q * f1)
      (Congr-trans (Congr-of_eq m balance) (Congr-add (Congr-refl m g) back))

-- A turn keeps `r0 * t1 - r1 * t0`, and a swap changes its sign.
pub IsReduction-IsPlusMinus :
    (m q : ℕ) (r0 t0 r1 t1 r t : Parts)
    → IsReduction q r0 r1 r
    → IsReduction q t0 t1 t
    → IsPlusMinus m (cross r0 r1 t0 t1)
    → IsPlusMinus m (cross r r1 t t1)
unfolding IsReduction IsPlusMinus
IsReduction-IsPlusMinus m q r0 t0 r1 t1 r t er et h =
    let old = cross r0 r1 t0 t1 in
    let new = cross r r1 t t1 in
    let same : new.pos + old.neg ≡ new.neg + old.pos = omega (
      arith,
      ap (λ (x : ℕ). x * t1.pos) er,
      ap (λ (x : ℕ). x * t1.neg) er,
      ap (λ (x : ℕ). x * r1.pos) et,
      ap (λ (x : ℕ). x * r1.neg) et,
    ) in
    elim h [ inl above ↦ inl (omega arith) | inr below ↦ inr (omega arith) ]

pub swapped-IsPlusMinus :
    (m : ℕ) (r0 t0 r1 t1 : Parts)
    → IsPlusMinus m (cross r0 r1 t0 t1)
    → IsPlusMinus m (cross r1 r0 t1 t0)
unfolding IsPlusMinus
swapped-IsPlusMinus m r0 t0 r1 t1 h = elim h [
  | inl above ↦ inr (omega arith)
  | inr below ↦ inl (omega arith)
]

-- Where the cofactors have opposite signs, as the remainders do not, their sizes add up.
cofactor_grows :
    (m u q R0 R1 T0 T1 : ℕ)
    → u * q ≤ R0
    → u ≤ R1
    → 0 < R1
    → 0 < q
    → R0 * T1 + R1 * T0 ≡ m
    → u * q * T1 ≤ m
    → u * (T0 + q * T1) ≤ m
cofactor_grows m u q R0 R1 T0 T1 h0 h1 positive some det before = elim (lt-or_le R0 (q * R1)) [
  | inr under ↦
      let less : q * R1 * T1 ≤ R0 * T1 = mul-le-mul_right T1 under in
      let scaled : u * (T0 + q * T1) ≤ R1 * (T0 + q * T1) = mul-le-mul_right (T0 + q * T1) h1 in
      omega arith
  | inl over ↦ beyond (q * R1 - R0) (omega arith)
]
  where
    -- `r` has the other sign than `r0`.
    beyond : (d : ℕ) → R0 + d ≡ q * R1 → u * (T0 + q * T1) ≤ m
    beyond d e =
        let expanded : R1 * (T0 + q * T1) ≡ m + d * T1 = omega (arith, ap (λ (x : ℕ). x * T1) e) in
        let first : u * q * m ≤ R0 * m = mul-le-mul_right m h0 in
        let second : u * q * T1 * d ≤ m * d = mul-le-mul_right d before in
        let both : q * R1 * (u * (T0 + q * T1)) ≤ q * R1 * m =
          omega
            (arith, ap (λ (x : ℕ). u * q * x) expanded, ap (λ (x : ℕ). x * m) e, first, second) in
        le_of_mul-le-mul_left both (one-le-mul some positive)

-- Signs of the remainders that agree.
unfoldable pub IsAligned : Parts → Parts → Type 0
IsAligned a b = ((a.neg ≡ 0) × (b.neg ≡ 0)) ⊎ ((a.pos ≡ 0) × (b.pos ≡ 0))

-- What the bits of the cofactors are bounded by: `u` and `u * q` have the top bits of `r1` and `r0`.
pub cofactor_bound :
    (m u q : ℕ) (r0 t0 r1 t1 t : Parts)
    → IsOneSided t0
    → IsOneSided t1
    → IsOneSided t
    → IsAligned r0 r1
    → IsReduction q t0 t1 t
    → IsPlusMinus m (cross r0 r1 t0 t1)
    → u * q ≤ size r0
    → u ≤ size r1
    → 0 < u
    → 0 < q
    → u * size t0 ≤ m
    → u * q * size t1 ≤ m
    → u * size t ≤ m
unfolding IsOneSided IsAligned IsReduction IsPlusMinus
cofactor_bound m u q r0 t0 r1 t1 t s0 s1 s aligned et det h0 h1 pu pq b0 b1 = elim trichotomy [
  | inl smaller ↦ let scaled : u * size t ≤ u * size t0 = mul-le-mul_left u smaller in omega arith
  | inr (inl larger) ↦
      let scaled : u * size t ≤ u * (q * size t1) = mul-le-mul_left u larger in omega arith
  | inr (inr (sum, whole)) ↦
      let grown =
        cofactor_grows m u q (size r0) (size r1) (size t0) (size t1) h0 h1 (omega arith) pq sum
          b1 in
      omega (arith, grown, ap (λ (x : ℕ). u * x) whole)
]
  where
    trichotomy :
        (size t ≤ size t0)
        ⊎ ((size t ≤ q * size t1)
            ⊎ ((size r0 * size t1 + size r1 * size t0 ≡ m) × (size t ≡ size t0 + q * size t1)))
    trichotomy = elim (lt-or_le (size t0) (size t)) [
      | inr smaller ↦ inl smaller
      | inl more ↦ elim s0 [
        | inl p0 ↦ elim s1 [
          | inl p1 ↦ inr (inl (grind arith))
          | inr n1 ↦ inr (inr (grind arith, grind arith))
        ]
        | inr n0 ↦ elim s1 [
          | inl p1 ↦ inr (inr (grind arith, grind arith))
          | inr n1 ↦ inr (inl (grind arith))
        ]
      ]
    ]
