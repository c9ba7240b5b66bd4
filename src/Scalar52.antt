-- ===== src/Scalar52.antt =====
-- curve25519/solana-ed25519/src/backend/serial/u64/scalar.rs: numbers modulo the group order in
-- five 64-bit limbs of radix 2^52, with Montgomery reduction. Every machine operation keeps its
-- wrap-around.
pub mod Bytes
pub mod Subtract
pub mod Shift
pub mod Product
pub mod Montgomery
pub mod Multiply
use ed25519_verificationtest.Common.{
  ℕ, zero, suc, ◌+◌, ◌-◌, ◌*◌, ◌^◌, ◌<◌, bit_and, bit_or, Bool, ◌==◌,
}
use ed25519_verificationtest.Common.{List, [], ◌∷◌, u8, u64, add64, sub64, mul64, add128, mul128}
use ed25519_verificationtest.Common.{shr, shl64, low_mask, byte, Subtle}

-- `pub struct Scalar52(pub [u64; 5])`
pub record Scalar52 : Type 0 where
  pub l0 : ℕ
  pub l1 : ℕ
  pub l2 : ℕ
  pub l3 : ℕ
  pub l4 : ℕ

abbrev pub value : Scalar52 → ℕ
value a = a.l0 + 2 ^ 52 * a.l1 + 2 ^ 104 * a.l2 + 2 ^ 156 * a.l3 + 2 ^ 208 * a.l4

-- The order of the group.
abbrev pub order : ℕ
order = 2 ^ 252 + 27742317777372353535851937790883648493

-- Every limb fits 52 bits.
pub record IsNormal (a : Scalar52) : Type 0 where
  pub b0 : a.l0 < 2 ^ 52
  pub b1 : a.l1 < 2 ^ 52
  pub b2 : a.l2 < 2 ^ 52
  pub b3 : a.l3 < 2 ^ 52
  pub b4 : a.l4 < 2 ^ 52

-- The result of every operation: normal limbs, and a value below the order.
pub record IsReduced (a : Scalar52) : Type 0 where
  pub normal : IsNormal a
  pub below : value a < order

-- Constants of backend/serial/u64/constants.rs.
abbrev pub l : Scalar52
l = record {
  l0 = 0x0002631a5cf5d3ed;
  l1 = 0x000dea2f79cd6581;
  l2 = 0x000000000014def9;
  l3 = 0;
  l4 = 0x0000100000000000;
}

abbrev pub lfactor : ℕ
lfactor = 0x51da312547e1b

abbrev pub r : Scalar52
r = record {
  l0 = 0x000f48bd6721e6ed;
  l1 = 0x0003bab5ac67e45a;
  l2 = 0x000fffffeb35e51b;
  l3 = 0x000fffffffffffff;
  l4 = 0x00000fffffffffff;
}

abbrev pub rr : Scalar52
rr = record {
  l0 = 0x0009d265e952d13b;
  l1 = 0x000d63c715bea69f;
  l2 = 0x0005be65cb687604;
  l3 = 0x0003dceec73d217f;
  l4 = 0x000009411b7c309a;
}

abbrev pub scalar_zero : Scalar52
scalar_zero = record { l0 = 0; l1 = 0; l2 = 0; l3 = 0; l4 = 0 }

-- `x & ((1 << 52) - 1)`
pub low_52 : ℕ → ℕ
low_52 x = bit_and x (low_mask 52)

abbrev pub m : ℕ → ℕ → ℕ
m x y = mul128 x y

-- The first loop of `sub`: the difference of the limbs, and the last `wrapping_sub`.
pub borrow_loop : Scalar52 → Scalar52 → Scalar52 × ℕ
borrow_loop a b =
    let b0 = sub64 a.l0 (add64 b.l0 (shr 0 63)) in
    let b1 = sub64 a.l1 (add64 b.l1 (shr b0 63)) in
    let b2 = sub64 a.l2 (add64 b.l2 (shr b1 63)) in
    let b3 = sub64 a.l3 (add64 b.l3 (shr b2 63)) in
    let b4 = sub64 a.l4 (add64 b.l4 (shr b3 63)) in
    (record { l0 = low_52 b0; l1 = low_52 b1; l2 = low_52 b2; l3 = low_52 b3; l4 = low_52 b4 }, b4)

-- The loop of `add`.
pub carry_loop : Scalar52 → Scalar52 → Scalar52
carry_loop a b =
    let c0 = add64 (add64 a.l0 b.l0) (shr 0 52) in
    let c1 = add64 (add64 a.l1 b.l1) (shr c0 52) in
    let c2 = add64 (add64 a.l2 b.l2) (shr c1 52) in
    let c3 = add64 (add64 a.l3 b.l3) (shr c2 52) in
    let c4 = add64 (add64 a.l4 b.l4) (shr c3 52) in
    record { l0 = low_52 c0; l1 = low_52 c1; l2 = low_52 c2; l3 = low_52 c3; l4 = low_52 c4 }

module _ ⦃s : Subtle⦄ where
  -- The new limbs, and the last carry that is returned.
  pub conditional_add_l : Scalar52 → Bool → Scalar52 × ℕ
  conditional_add_l a condition =
      let c0 = add64 (add64 (shr 0 52) a.l0) (s.select 0 l.l0 condition) in
      let c1 = add64 (add64 (shr c0 52) a.l1) (s.select 0 l.l1 condition) in
      let c2 = add64 (add64 (shr c1 52) a.l2) (s.select 0 l.l2 condition) in
      let c3 = add64 (add64 (shr c2 52) a.l3) (s.select 0 l.l3 condition) in
      let c4 = add64 (add64 (shr c3 52) a.l4) (s.select 0 l.l4 condition) in
      (
        record { l0 = low_52 c0; l1 = low_52 c1; l2 = low_52 c2; l3 = low_52 c3; l4 = low_52 c4 },
        c4,
      )

  pub sub : Scalar52 → Scalar52 → Scalar52
  sub a b =
      let (difference, borrow) = borrow_loop a b in
      (conditional_add_l difference (u8 (shr borrow 63) == 1)).0

  pub add : Scalar52 → Scalar52 → Scalar52
  add a b = sub (carry_loop a b) l

-- From the highest limb down; the bit that falls out is returned.
pub shr1_assign : Scalar52 → Scalar52 × ℕ
shr1_assign a =
    let c4 = bit_and a.l4 1 in
    let c3 = bit_and a.l3 1 in
    let c2 = bit_and a.l2 1 in
    let c1 = bit_and a.l1 1 in
    let c0 = bit_and a.l0 1 in
    (
      record {
        l4 = bit_or (shr a.l4 1) (shl64 0 51);
        l3 = bit_or (shr a.l3 1) (shl64 c4 51);
        l2 = bit_or (shr a.l2 1) (shl64 c3 51);
        l1 = bit_or (shr a.l1 1) (shl64 c2 51);
        l0 = bit_or (shr a.l0 1) (shl64 c1 51);
      },
      c0,
    )

-- `[u128; 9]`
pub record Wide : Type 0 where
  pub z0 : ℕ
  pub z1 : ℕ
  pub z2 : ℕ
  pub z3 : ℕ
  pub z4 : ℕ
  pub z5 : ℕ
  pub z6 : ℕ
  pub z7 : ℕ
  pub z8 : ℕ

pub mul_internal : Scalar52 → Scalar52 → Wide
mul_internal a b = record {
  z0 = m a.l0 b.l0;
  z1 = add128 (m a.l0 b.l1) (m a.l1 b.l0);
  z2 = add128 (add128 (m a.l0 b.l2) (m a.l1 b.l1)) (m a.l2 b.l0);
  z3 = add128 (add128 (add128 (m a.l0 b.l3) (m a.l1 b.l2)) (m a.l2 b.l1)) (m a.l3 b.l0);
  z4 =
      add128 (add128 (add128 (add128 (m a.l0 b.l4) (m a.l1 b.l3)) (m a.l2 b.l2)) (m a.l3 b.l1))
        (m a.l4 b.l0);
  z5 = add128 (add128 (add128 (m a.l1 b.l4) (m a.l2 b.l3)) (m a.l3 b.l2)) (m a.l4 b.l1);
  z6 = add128 (add128 (m a.l2 b.l4) (m a.l3 b.l3)) (m a.l4 b.l2);
  z7 = add128 (m a.l3 b.l4) (m a.l4 b.l3);
  z8 = m a.l4 b.l4;
}

pub square_internal : Scalar52 → Wide
square_internal a =
    let aa0 = mul64 a.l0 2 in
    let aa1 = mul64 a.l1 2 in
    let aa2 = mul64 a.l2 2 in
    let aa3 = mul64 a.l3 2 in
    record {
      z0 = m a.l0 a.l0;
      z1 = m aa0 a.l1;
      z2 = add128 (m aa0 a.l2) (m a.l1 a.l1);
      z3 = add128 (m aa0 a.l3) (m aa1 a.l2);
      z4 = add128 (add128 (m aa0 a.l4) (m aa1 a.l3)) (m a.l2 a.l2);
      z5 = add128 (m aa1 a.l4) (m aa2 a.l3);
      z6 = add128 (m aa2 a.l4) (m a.l3 a.l3);
      z7 = m aa3 a.l4;
      z8 = m a.l4 a.l4;
    }

-- The carry, and the multiple of the order that clears the low 52 bits.
pub part1 : ℕ → ℕ × ℕ
part1 sum = let n = low_52 (mul64 (u64 sum) lfactor) in (shr (add128 sum (m n l.l0)) 52, n)

pub part2 : ℕ → ℕ × ℕ
part2 sum = (shr sum 52, low_52 (u64 sum))

-- The upper half of the limbs, once multiples of the order have cleared the lower half.
pub montgomery_quotient : Wide → Scalar52
montgomery_quotient t =
    let (k0, n0) = part1 t.z0 in
    let (k1, n1) = part1 (add128 (add128 k0 t.z1) (m n0 l.l1)) in
    let (k2, n2) = part1 (add128 (add128 (add128 k1 t.z2) (m n0 l.l2)) (m n1 l.l1)) in
    let (k3, n3) = part1 (add128 (add128 (add128 k2 t.z3) (m n1 l.l2)) (m n2 l.l1)) in
    let (k4, n4) =
      part1 (add128 (add128 (add128 (add128 k3 t.z4) (m n0 l.l4)) (m n2 l.l2)) (m n3 l.l1)) in
    let (k5, r0) =
      part2 (add128 (add128 (add128 (add128 k4 t.z5) (m n1 l.l4)) (m n3 l.l2)) (m n4 l.l1)) in
    let (k6, r1) = part2 (add128 (add128 (add128 k5 t.z6) (m n2 l.l4)) (m n4 l.l2)) in
    let (k7, r2) = part2 (add128 (add128 k6 t.z7) (m n3 l.l4)) in
    let (k8, r3) = part2 (add128 (add128 k7 t.z8) (m n4 l.l4)) in
    record { l0 = r0; l1 = r1; l2 = r2; l3 = r3; l4 = u64 k8 }

module _ ⦃s : Subtle⦄ where
  pub montgomery_reduce : Wide → Scalar52
  montgomery_reduce t = sub (montgomery_quotient t) l

  pub mul : Scalar52 → Scalar52 → Scalar52
  mul a b = let ab = montgomery_reduce (mul_internal a b) in montgomery_reduce (mul_internal ab rr)

  pub square : Scalar52 → Scalar52
  square a =
      let aa = montgomery_reduce (square_internal a) in montgomery_reduce (mul_internal aa rr)

  pub montgomery_mul : Scalar52 → Scalar52 → Scalar52
  montgomery_mul a b = montgomery_reduce (mul_internal a b)

  pub montgomery_square : Scalar52 → Scalar52
  montgomery_square a = montgomery_reduce (square_internal a)

  pub as_montgomery : Scalar52 → Scalar52
  as_montgomery a = montgomery_mul a rr

  pub from_montgomery : Scalar52 → Scalar52
  from_montgomery a = montgomery_reduce (record {
    z0 = a.l0;
    z1 = a.l1;
    z2 = a.l2;
    z3 = a.l3;
    z4 = a.l4;
    z5 = 0;
    z6 = 0;
    z7 = 0;
    z8 = 0;
  })
