-- ===== src/Heea/Signed.antt =====
-- About `is_negative`, `wrapping_neg`, `wrapping_add` and `wrapping_sub` of
-- curve25519/solana-ed25519/src/scalar/heea.rs.
use Prim.Native.Nat.{compare, Ordering}
use ed25519_verificationtest.Common.{
  ℕ, ◌+◌, ◌^◌, ◌<◌, ◌≤◌, ◌≡◌, refl, arith, Bool, true, false, Bool-cases, inl, inr, if◌then◌else◌,
  not,
}
use ed25519_verificationtest.Heea.{
  Limbs, I256, is_zero, is_negative, wrapping_neg, wrapping_add, wrapping_sub, add_opposite,
  add_limbs, sub_limbs, cmp_magnitude,
}
use ed25519_verificationtest.Heea.Magnitude.{
  magnitude, IsWords, magnitude-lt, add_limbs-magnitude, sub_limbs-magnitude, cmp_magnitude-compare,
}
use ed25519_verificationtest.Heea.{zero_limbs}
use ed25519_verificationtest.Common.{◌⊎◌}

-- The positive and the negative part of a number, one of which is zero.
abbrev pub plus : I256 → ℕ
plus v = if v.negative then 0 else magnitude v.limbs

abbrev pub minus : I256 → ℕ
minus v = if v.negative then magnitude v.limbs else 0

-- Evidence that `c` is the sum of `a` and `b`.
pub record IsSum (a b c : I256) : Type 0 where
  pub words : IsWords c.limbs
  pub exact : plus c + minus a + minus b ≡ minus c + plus a + plus b

pub zero_limbs-IsWords : IsWords zero_limbs
zero_limbs-IsWords = record {
  word0 = omega arith;
  word1 = omega arith;
  word2 = omega arith;
  word3 = omega arith;
}

abbrev signed : Limbs → Bool → I256
signed l s = record { limbs = l; negative = s }

-- With the smaller one taken off nothing is borrowed at the top.
difference :
    (a b : Limbs)
    → IsWords a
    → IsWords b
    → magnitude b ≤ magnitude a
    → (magnitude (sub_limbs a b).0 + magnitude b ≡ magnitude a) × IsWords (sub_limbs a b).0
difference a b ha hb le =
    let (exact, words) = sub_limbs-magnitude a b ha hb in
    (omega (arith, exact, magnitude-lt (sub_limbs a b).0 words), words)

add_opposite-IsSum :
    (a b : Limbs) (s : Bool) (o : Ordering)
    → IsWords a
    → IsWords b
    → compare (magnitude a) (magnitude b) ≡ o
    → IsSum (signed a s) (signed b (not s)) (add_opposite o (signed a s) (signed b (not s)))
unfolding add_opposite
add_opposite-IsSum a b true Ordering.gt ha hb e =
    let (exact, words) = difference a b ha hb (ground arith) in
    record { words = words; exact = omega arith }
add_opposite-IsSum a b false Ordering.gt ha hb e =
    let (exact, words) = difference a b ha hb (ground arith) in
    record { words = words; exact = omega arith }
add_opposite-IsSum a b true Ordering.lt ha hb e =
    let (exact, words) = difference b a hb ha (ground arith) in
    record { words = words; exact = omega arith }
add_opposite-IsSum a b false Ordering.lt ha hb e =
    let (exact, words) = difference b a hb ha (ground arith) in
    record { words = words; exact = omega arith }
add_opposite-IsSum a b true Ordering.eq ha hb e = record {
  words = zero_limbs-IsWords;
  exact = ground arith;
}
add_opposite-IsSum a b false Ordering.eq ha hb e = record {
  words = zero_limbs-IsWords;
  exact = ground arith;
}

opposite-IsSum :
    (a b : Limbs) (s : Bool)
    → IsWords a
    → IsWords b
    → IsSum
        (signed a s)
        (signed b (not s))
        (add_opposite (cmp_magnitude a b) (signed a s) (signed b (not s)))
opposite-IsSum a b s ha hb =
    rw (cmp_magnitude-compare a b ha hb)
      (add_opposite-IsSum a b s (compare (magnitude a) (magnitude b)) ha hb refl)

same-IsSum :
    (a b : Limbs) (s : Bool)
    → IsWords a
    → IsWords b
    → magnitude a + magnitude b < 2 ^ 256
    → IsSum (signed a s) (signed b s) (signed (add_limbs a b).0 s)
same-IsSum a b true ha hb fits =
    let (sum, words) = add_limbs-magnitude a b ha hb in
    record { words = words; exact = omega arith }
same-IsSum a b false ha hb fits =
    let (sum, words) = add_limbs-magnitude a b ha hb in
    record { words = words; exact = omega arith }

by_sign :
    (a b : Limbs) (s t : Bool)
    → IsWords a
    → IsWords b
    → magnitude a + magnitude b < 2 ^ 256
    → IsSum (signed a s) (signed b t) (wrapping_add (signed a s) (signed b t))
unfolding wrapping_add
by_sign a b true true ha hb fits = same-IsSum a b true ha hb fits
by_sign a b true false ha hb fits = opposite-IsSum a b true ha hb
by_sign a b false true ha hb fits = opposite-IsSum a b false ha hb
by_sign a b false false ha hb fits = same-IsSum a b false ha hb fits

pub wrapping_add-IsSum :
    (a b : I256)
    → IsWords a.limbs
    → IsWords b.limbs
    → magnitude a.limbs + magnitude b.limbs < 2 ^ 256
    → IsSum a b (wrapping_add a b)
wrapping_add-IsSum a b ha hb fits = by_sign a.limbs b.limbs a.negative b.negative ha hb fits

is_zero-magnitude : (v : I256) → is_zero v ≡ true → magnitude v.limbs ≡ 0
unfolding is_zero
is_zero-magnitude v e = ground arith

magnitude-is_zero : (v : I256) → magnitude v.limbs ≡ 0 → is_zero v ≡ true
unfolding is_zero
magnitude-is_zero v e = ground arith

-- Evidence that `n` is `v` with the parts changed over.
pub record IsNegation (v n : I256) : Type 0 where
  pub words : IsWords n.limbs
  pub positive : plus n ≡ minus v
  pub opposite : minus n ≡ plus v

pub wrapping_neg-IsNegation : (v : I256) → IsWords v.limbs → IsNegation v (wrapping_neg v)
unfolding wrapping_neg
wrapping_neg-IsNegation v h = elim (Bool-cases (is_zero v)) [
  | inl zero_value ↦
      let none = is_zero-magnitude v zero_value in
      rw zero_value
        (record { words = zero_limbs-IsWords; positive = ground arith; opposite = ground arith })
  | inr nonzero ↦
      rw nonzero
        (record { words = h; positive = changed v.negative; opposite = changed_back v.negative })
]
  where
    changed : (s : Bool) → plus (signed v.limbs (not s)) ≡ minus (signed v.limbs s)
    changed true = refl
    changed false = refl

    changed_back : (s : Bool) → minus (signed v.limbs (not s)) ≡ plus (signed v.limbs s)
    changed_back true = refl
    changed_back false = refl

-- Evidence that `c` is the difference of `a` and `b`.
pub record IsDifference (a b c : I256) : Type 0 where
  pub words : IsWords c.limbs
  pub exact : plus c + minus a + plus b ≡ minus c + plus a + minus b

pub plus-minus : (v : I256) → plus v + minus v ≡ magnitude v.limbs
plus-minus v = ground arith

pub one_sided : (v : I256) → (plus v ≡ 0) ⊎ (minus v ≡ 0)
one_sided v = elim (Bool-cases v.negative) [
  | inl below ↦ inl (ground arith)
  | inr above ↦ inr (ground arith)
]

-- For numbers with 64-bit limbs whose magnitudes add up to less than 2^256, `wrapping_sub` gives
-- 64-bit limbs and the exact difference, whatever the signs.
pub wrapping_sub-IsDifference :
    (a b : I256)
    → IsWords a.limbs
    → IsWords b.limbs
    → magnitude a.limbs + magnitude b.limbs < 2 ^ 256
    → IsDifference a b (wrapping_sub a b)
unfolding wrapping_sub
wrapping_sub-IsDifference a b ha hb fits =
    let opposite = wrapping_neg-IsNegation b hb in
    let sum = wrapping_add-IsSum a (wrapping_neg b) ha opposite.words (
      omega
        (arith, plus-minus b, plus-minus (wrapping_neg b), opposite.positive, opposite.opposite)) in
    record {
      words = sum.words;
      exact = omega (arith, sum.exact, opposite.positive, opposite.opposite);
    }

-- `is_negative` is true exactly if the number is below zero.
pub is_negative-minus : (v : I256) → is_negative v ≡ true → (plus v ≡ 0) × (0 < minus v)
unfolding is_negative
is_negative-minus v e = elim (Bool-cases (is_zero v)) [
  | inl zero_value ↦ ground (arith, is_zero-magnitude v zero_value)
  | inr nonzero ↦ ground (arith, magnitude-is_zero v)
]

pub is_negative-plus : (v : I256) → is_negative v ≡ false → minus v ≡ 0
unfolding is_negative
is_negative-plus v e = elim (Bool-cases (is_zero v)) [
  | inl zero_value ↦ ground (arith, is_zero-magnitude v zero_value)
  | inr nonzero ↦ ground arith
]
