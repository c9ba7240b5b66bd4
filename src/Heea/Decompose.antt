-- ===== src/Heea/Decompose.antt =====
-- About `heea_decompose` of curve25519/solana-ed25519/src/scalar.rs.
use Prim.Native.Nat.{compare, Ordering}
use ed25519_verificationtest.Common.{
  ℕ, ◌+◌, ◌*◌, ◌^◌, ◌<◌, ◌≤◌, ◌≡◌, refl, sym, ap, ◌∙◌, arith, inl, inr, Bool, true, false, not,
  Bool-cases, if◌then◌else◌, Option, none, some, Returns, Congr, Congr-symm, Congr-trans,
  Congr-of_eq,
}
use ed25519_verificationtest.Scalar52.{order}
use ed25519_verificationtest.Scalar.{Scalar}
use ed25519_verificationtest.Scalar.Arithmetic.{number, IsScalar, IsCanonical}
use ed25519_verificationtest.Heea.{Limbs, I256, i256_zero, zero_limbs, cmp, wrapping_neg}
use ed25519_verificationtest.Heea.Vartime.{
  from_le_bytes, into_i256, curve25519_heea_vartime, from_positive_i256, less, make_positive,
  to_scalars, heea_decompose,
}
use ed25519_verificationtest.Heea.Magnitude.{magnitude, IsWords, cmp_magnitude-compare}
use ed25519_verificationtest.Heea.Signed.{plus-minus, zero_limbs-IsWords, wrapping_neg-IsNegation}
use ed25519_verificationtest.Heea.Cofactors.{IsCombination}
use ed25519_verificationtest.Heea.Combine.{parts}
use ed25519_verificationtest.Heea.Loop.{IsHalving, curve25519_heea_vartime-IsHalving}
use ed25519_verificationtest.Heea.Bytes.{to_le_bytes-magnitude, from_le_bytes-magnitude}
use ed25519_verificationtest.Heea.Vartime.{is_less}

never_less : (x : ℕ) (o : Ordering) → compare x 0 ≡ o → is_less o ≡ false
never_less x Ordering.lt e = absurd (ground arith)
never_less x Ordering.eq e = refl
never_less x Ordering.gt e = refl

-- Below zero by `Ord::cmp` is the sign.
less-zero :
    (l : Limbs) (s : Bool) → IsWords l → less (record { limbs = l; negative = s }) i256_zero ≡ s
unfolding less cmp
less-zero l true h = refl
less-zero l false h =
    ap is_less (cmp_magnitude-compare l zero_limbs h zero_limbs-IsWords)
    ∙ never_less (magnitude l) _ refl

-- The size of a number as a scalar, and whether the flag changes.
record IsMadePositive (v : I256) (flip : Bool) (made : I256 × Bool) : Type 0 where
  scalar : IsScalar (from_positive_i256 made.0)
  size : number (from_positive_i256 made.0) ≡ magnitude v.limbs
  flag : made.1 ≡ (if v.negative then not flip else flip)

make_positive-IsMadePositive :
    (v : I256) (flip : Bool) → IsWords v.limbs → IsMadePositive v flip (make_positive v flip)
unfolding make_positive from_positive_i256
make_positive-IsMadePositive v flip h =
    let sign = less-zero v.limbs v.negative h in
    let keep : Bool → Bool = λ s. if s then not flip else flip in
    elim (Bool-cases (less v i256_zero)) [
      | inl below ↦
          let negation = wrapping_neg-IsNegation v h in
          let (size, scalar) = to_le_bytes-magnitude (wrapping_neg v) negation.words in
          rw below (record {
            scalar = scalar;
            size = omega (
              arith,
              size,
              plus-minus v,
              plus-minus (wrapping_neg v),
              negation.positive,
              negation.opposite,
            );
            flag = ap keep (sym below ∙ sign);
          })
      | inr above ↦
          let (size, scalar) = to_le_bytes-magnitude v h in
          rw above (record { scalar = scalar; size = size; flag = ap keep (sym above ∙ sign) })
    ]

-- `rho` is `tau * h`, or its negative, by the group order.
abbrev pub IsProduct : Bool → ℕ → ℕ → ℕ → Type 0
IsProduct flip rho tau h = if flip then Congr order (rho + tau * h) 0 else Congr order rho (tau * h)

abbrev flag_of : Bool → Bool → Bool
flag_of s flip = if s then not flip else flip

-- The signs of the two numbers give the flag.
IsCombination-IsProduct :
    (rho tau : Limbs) (s t : Bool) (h : ℕ)
    → IsCombination order
        (record { pos = h; neg = 0 })
        (parts (record { limbs = rho; negative = s }))
        (parts (record { limbs = tau; negative = t }))
    → IsProduct (flag_of t (flag_of s false)) (magnitude rho) (magnitude tau) h
unfolding IsCombination
IsCombination-IsProduct rho tau true true h c =
    Congr-trans (Congr-of_eq order (omega arith))
      (Congr-trans (Congr-symm c) (Congr-of_eq order (omega arith)))
IsCombination-IsProduct rho tau true false h c =
    Congr-trans (Congr-of_eq order (omega arith))
      (Congr-trans (Congr-symm c) (Congr-of_eq order (omega arith)))
IsCombination-IsProduct rho tau false true h c =
    Congr-trans (Congr-of_eq order (omega arith)) (Congr-trans c (Congr-of_eq order (omega arith)))
IsCombination-IsProduct rho tau false false h c =
    Congr-trans (Congr-of_eq order (omega arith)) (Congr-trans c (Congr-of_eq order (omega arith)))

-- Exactly one of two numbers is negative.
abbrev pub one_negative : I256 → I256 → Bool
one_negative rho_i tau_i = if tau_i.negative then not rho_i.negative else rho_i.negative

-- What the scalars are for a hash value `h`: the magnitudes of the two signed numbers of the loop,
-- and the flag says that exactly one of these is negative, so that one scalar is to be negated.
pub record IsDecomposition (h : Scalar) (result : Scalar × Scalar × Bool) : Type 0 where
  pub rho_i : I256
  pub tau_i : I256
  pub run : curve25519_heea_vartime (into_i256 h) ≡ some (rho_i, tau_i)
  pub rho_size : number result.0 ≡ magnitude rho_i.limbs
  pub tau_size : number result.1 ≡ magnitude tau_i.limbs
  pub flag : result.2 ≡ one_negative rho_i tau_i
  pub rho_scalar : IsScalar result.0
  pub tau_scalar : IsScalar result.1
  pub rho_short : number result.0 < 2 ^ 127
  pub tau_short : number result.1 ≤ 2 ^ 125
  pub tau_nonzero : 0 < number result.1
  pub equation : IsProduct result.2 (number result.0) (number result.1) (number h)

one_sign : (s : Bool) → flag_of s false ≡ s
one_sign true = refl
one_sign false = refl

to_scalars-IsDecomposition :
    (h : Scalar) (pair : I256 × I256)
    → IsScalar h
    → curve25519_heea_vartime (into_i256 h) ≡ some pair
    → IsHalving (parts (into_i256 h)) pair
    → IsDecomposition h (to_scalars pair)
unfolding to_scalars into_i256 from_le_bytes
to_scalars-IsDecomposition h pair scalar run halving =
    let rho = make_positive-IsMadePositive pair.0 false halving.words_rho in
    let tau =
      make_positive-IsMadePositive pair.1 (make_positive pair.0 false).1 halving.words_tau in
    record {
      rho_i = pair.0;
      tau_i = pair.1;
      run = run;
      rho_size = rho.size;
      tau_size = tau.size;
      flag = tau.flag ∙ ap (flag_of pair.1.negative) (rho.flag ∙ one_sign pair.0.negative);
      rho_scalar = rho.scalar;
      tau_scalar = tau.scalar;
      rho_short = omega (arith, rho.size, halving.rho_short);
      tau_short = omega (arith, tau.size, halving.tau_short);
      tau_nonzero = omega (arith, tau.size, halving.tau_nonzero);
      equation =
          rw
            (rho.size, tau.size, tau.flag, rho.flag, sym (from_le_bytes-magnitude h.bytes scalar).0)
            (IsCombination-IsProduct pair.0.limbs pair.1.limbs pair.0.negative pair.1.negative
              (magnitude (from_le_bytes h.bytes).limbs) halving.combination);
    }

-- For a canonical scalar `h`, `heea_decompose` gives a result: two scalars `rho` below 2^127 and
-- `tau` at most 2^125 but not zero, which are the magnitudes of the two signed numbers of
-- `curve25519_heea_vartime`, and a flag, which is true exactly if one of these two numbers is
-- negative and the other is not; if the flag is false `rho` is congruent to `tau` times `h` modulo
-- the group order, and if it is true `rho` plus `tau` times `h` is congruent to zero.
pub heea_decompose-IsDecomposition :
    (h : Scalar) → IsCanonical h → Returns (IsDecomposition h) (heea_decompose h)
unfolding heea_decompose Returns into_i256
heea_decompose-IsDecomposition h canonical =
    let (value, words) = from_le_bytes-magnitude h.bytes canonical.scalar in
    returned (curve25519_heea_vartime (into_i256 h)) refl (
      curve25519_heea_vartime-IsHalving (into_i256 h) words (omega (arith, value, canonical.below)))
  where
    returned :
        (o : Option (I256 × I256))
        → curve25519_heea_vartime (into_i256 h) ≡ o
        → Returns (IsHalving (parts (into_i256 h))) o
        → Returns (IsDecomposition h) (elim o [ none ↦ none | some pair ↦ some (to_scalars pair) ])
    returned none e r = r
    returned (some pair) e r = to_scalars-IsDecomposition h pair canonical.scalar e r
