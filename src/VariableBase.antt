-- ===== src/VariableBase.antt =====
-- curve25519/solana-ed25519/src/backend/serial/scalar_mul/variable_base.rs: a scalar times a point,
-- by digits of radix 16 from the top.
pub mod Rounds
pub mod Multiple
use ed25519_verificationtest.Common.{ℕ, zero, suc, List, get_or, Subtle}
use ed25519_verificationtest.CurveModels.{
  EdwardsPoint, ProjectiveNielsPoint, CompletedPoint, add_projective_niels, completed_as_extended,
  completed_as_projective, projective_double,
}
use ed25519_verificationtest.Edwards.{identity}
use ed25519_verificationtest.Scalar.{Scalar}
use ed25519_verificationtest.Digits.{as_radix_16}
use ed25519_verificationtest.Window.{lookup_table, select}

-- Four doublings.
unfoldable pub times_16 : CompletedPoint → CompletedPoint
times_16 tmp1 =
    let tmp1 = projective_double (completed_as_projective tmp1) in
    let tmp1 = projective_double (completed_as_projective tmp1) in
    let tmp1 = projective_double (completed_as_projective tmp1) in
    projective_double (completed_as_projective tmp1)

module _ ⦃s : Subtle⦄ where
  -- The loop from digit `i - 1` down to digit zero.
  unfoldable pub mul_loop : List ProjectiveNielsPoint → List ℕ → ℕ → CompletedPoint → CompletedPoint
  mul_loop points digits zero tmp1 = tmp1
  mul_loop points digits (suc i) tmp1 =
      let tmp3 = completed_as_extended (times_16 tmp1) in
      mul_loop points digits i (add_projective_niels tmp3 (select points (get_or digits i 0)))

  -- `variable_base::mul`
  unfoldable pub variable_base_mul : EdwardsPoint → Scalar → EdwardsPoint
  variable_base_mul point scalar =
      let points = lookup_table point in
      let scalar_digits = as_radix_16 scalar in
      let tmp1 = add_projective_niels identity (select points (get_or scalar_digits 63 0)) in
      completed_as_extended (mul_loop points scalar_digits 63 tmp1)
