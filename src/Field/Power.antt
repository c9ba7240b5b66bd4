-- ===== src/Field/Power.antt =====
-- About the addition chains `pow22501`, `invert` and `pow_p58` of
-- curve25519/solana-ed25519/src/field.rs.
use ed25519_verificationtest.Common.{ℕ, ◌+◌, ◌-◌, ◌*◌, ◌^◌, ◌<◌, sym, arith}
use ed25519_verificationtest.Common.{Congr, Congr-trans, Congr-of_eq, Congr-mul, Congr-pow}
use ed25519_verificationtest.Common.{pow-add, pow-mul, pow-one}
use ed25519_verificationtest.Field51.{FieldElement51, value, p, IsBelow, mul, square, pow2k}
use ed25519_verificationtest.Field51.Multiply.{mul-value}
use ed25519_verificationtest.Field51.Square.{pow2k-value, square-pow2k, IsBelow-mono}
use ed25519_verificationtest.Field.{pow22501, invert, pow_p58}

-- `b` is the power of `a` by `n` in the field, with limbs small enough for the next operation.
pub record IsPower (a : FieldElement51) (n : ℕ) (b : FieldElement51) : Type 0 where
  pub power : Congr p (value b) (value a ^ n)
  pub below : IsBelow (2 ^ 54) b

IsPower-self : (a : FieldElement51) → IsBelow (2 ^ 54) a → IsPower a 1 a
IsPower-self a h = record { power = Congr-of_eq p (sym (pow-one (value a))); below = h }

IsPower-mul :
    {a x y : FieldElement51} {j k : ℕ} → IsPower a j x → IsPower a k y → IsPower a (j + k) (mul x y)
IsPower-mul {a} {x} {y} {j} {k} hx hy =
    let (product, below) = mul-value x y hx.below hy.below in
    record {
      power =
          Congr-trans product (
            Congr-trans (Congr-mul hx.power hy.power)
              (Congr-of_eq p (sym (pow-add (value a) j k))));
      below = IsBelow-mono (2 ^ 52) (2 ^ 54) (mul x y) (omega arith) below;
    }

IsPower-pow2k :
    {a x : FieldElement51} {j : ℕ} (k : ℕ)
    → 0 < k
    → IsPower a j x
    → IsPower a (j * 2 ^ k) (pow2k x k)
IsPower-pow2k {a} {x} {j} k pos h =
    let (same, below) = pow2k-value x k h.below pos in
    record {
      power = Congr-trans same (
          Congr-trans (Congr-pow (2 ^ k) h.power)
            (Congr-of_eq p (sym (pow-mul (value a) j (2 ^ k)))));
      below = IsBelow-mono (2 ^ 52) (2 ^ 54) (pow2k x k) (omega arith) below;
    }

IsPower-square : {a x : FieldElement51} {j : ℕ} → IsPower a j x → IsPower a (j * 2) (square x)
IsPower-square {x} h = rw (square-pow2k x) (IsPower-pow2k 1 (omega arith) h)

pow22501-IsPower :
    (a : FieldElement51)
    → IsBelow (2 ^ 54) a
    → IsPower a (2 ^ 250 - 1) (pow22501 a).0 × IsPower a 11 (pow22501 a).1
unfolding pow22501
pow22501-IsPower a h =
    let t = IsPower-self a h in
    let t0 = IsPower-square t in
    let t1 = IsPower-square (IsPower-square t0) in
    let t2 = IsPower-mul t t1 in
    let t3 = IsPower-mul t0 t2 in
    let t4 = IsPower-square t3 in
    let t5 = IsPower-mul t2 t4 in
    let t6 = IsPower-pow2k 5 (omega arith) t5 in
    let t7 = IsPower-mul t6 t5 in
    let t8 = IsPower-pow2k 10 (omega arith) t7 in
    let t9 = IsPower-mul t8 t7 in
    let t10 = IsPower-pow2k 20 (omega arith) t9 in
    let t11 = IsPower-mul t10 t9 in
    let t12 = IsPower-pow2k 10 (omega arith) t11 in
    let t13 = IsPower-mul t12 t7 in
    let t14 = IsPower-pow2k 50 (omega arith) t13 in
    let t15 = IsPower-mul t14 t13 in
    let t16 = IsPower-pow2k 100 (omega arith) t15 in
    let t17 = IsPower-mul t16 t15 in
    let t18 = IsPower-pow2k 50 (omega arith) t17 in (IsPower-mul t18 t13, t3)

-- On limbs below 2^54 `invert` computes the power by 2^255 - 21, which is p - 2, modulo p, with
-- limbs below 2^54.
pub invert-IsPower : (a : FieldElement51) → IsBelow (2 ^ 54) a → IsPower a (2 ^ 255 - 21) (invert a)
unfolding invert
invert-IsPower a h =
    let (t19, t3) = pow22501-IsPower a h in IsPower-mul (IsPower-pow2k 5 (omega arith) t19) t3

-- On limbs below 2^54 `pow_p58` computes the power by 2^252 - 3, which is (p - 5) / 8, modulo p,
-- with limbs below 2^54.
pub pow_p58-IsPower :
    (a : FieldElement51) → IsBelow (2 ^ 54) a → IsPower a (2 ^ 252 - 3) (pow_p58 a)
unfolding pow_p58
pow_p58-IsPower a h =
    let (t19, t3) = pow22501-IsPower a h in
    IsPower-mul (IsPower-self a h) (IsPower-pow2k 2 (omega arith) t19)
