-- ===== src/Scalar/Canonical.antt =====
-- About `is_canonical` and `from_canonical_bytes` of curve25519/solana-ed25519/src/scalar.rs.
use ed25519_verificationtest.Common.{ℕ, ◌<◌, ◌≡◌, ◌↔◌, ap, arith, List, Subtle}
use ed25519_verificationtest.Common.{true, Bool-cases, inl, inr, some, none, if◌then◌else◌, ltb}
use ed25519_verificationtest.Common.{le_value, IsBytes, le_value-injective, byte, shr}
use ed25519_verificationtest.Scalar52.{order}
use ed25519_verificationtest.Scalar.{Scalar, is_canonical, ct_eq, from_canonical_bytes}
use ed25519_verificationtest.Scalar.Arithmetic.{number, IsScalar, reduce-number}
use ed25519_verificationtest.Common.{le_value-tabulate}
use ed25519_verificationtest.Common.{◌∷◌}
use ed25519_verificationtest.Common.{[]}

module _ ⦃s : Subtle⦄ where
  pub is_canonical_iff : (a : Scalar) → IsScalar a → (is_canonical a ≡ true) ↔ (number a < order)
  unfolding is_canonical ct_eq
  is_canonical_iff a h =
      let (residue, canonical) = reduce-number a h in
      (
        λ e. let same = ap le_value ((s.ct_eq_iff _ _).0 e) in omega (arith, canonical.below),
        λ lt. (s.ct_eq_iff _ _).1 (le_value-injective 32 _ _ h canonical.scalar (omega arith)),
      )

  -- On 32 bytes `from_canonical_bytes` answers with the scalar of those bytes if they stand for a
  -- number below the group order, and with `none` if not.
  pub from_canonical_bytes_lem :
      (bytes : List ℕ)
      → IsBytes 32 bytes
      → from_canonical_bytes bytes
        ≡ (if ltb (le_value bytes) order then some (record { bytes = bytes }) else none)
  unfolding from_canonical_bytes
  from_canonical_bytes_lem bytes h =
      let candidate : Scalar = record { bytes = bytes } in
      elim (Bool-cases (is_canonical candidate)) [
        | inl canonical ↦
            let small : le_value bytes < order = (is_canonical_iff candidate h).0 canonical in
            let top : shr (byte bytes 31) 7 ≡ 0 =
              omega (arith, le_value-tabulate 32 bytes h.sized) in
            let unset = (s.ct_eq_iff _ _).1 (ap (λ (t : ℕ). t ∷ []) top) in
            rw (unset, canonical) (ground arith)
        | inr large ↦ let bound = (is_canonical_iff candidate h).1 in ground arith
      ]
