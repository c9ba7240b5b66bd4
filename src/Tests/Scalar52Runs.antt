-- ===== src/Tests/Scalar52Runs.antt =====
-- curve25519/solana-ed25519/src/backend/serial/u64/scalar.rs at concrete limbs.
use ed25519_verificationtest.Common.{◌-◌, ◌*◌, ◌^◌, arith, plain_subtle, Congr}
use ed25519_verificationtest.Scalar52.{Scalar52, Wide, value, order, IsNormal, IsReduced, r}
use ed25519_verificationtest.Scalar52.{montgomery_reduce}
use ed25519_verificationtest.Scalar52.Product
use ed25519_verificationtest.Scalar52.Montgomery

-- The largest 256-bit number in limbs.
abbrev largest : Scalar52
largest = record {
  l0 = 2 ^ 52 - 1;
  l1 = 2 ^ 52 - 1;
  l2 = 2 ^ 52 - 1;
  l3 = 2 ^ 52 - 1;
  l4 = 2 ^ 48 - 1;
}

largest-IsNormal : IsNormal largest
largest-IsNormal = omega arith

-- Coefficients of 104 bits, with the value of 2^104 plus 2^261.
abbrev coefficients : Wide
coefficients = record {
  z0 = 2 ^ 104;
  z1 = 0;
  z2 = 0;
  z3 = 0;
  z4 = 0;
  z5 = 2;
  z6 = 0;
  z7 = 0;
  z8 = 0;
}

r-IsReduced : IsReduced r
r-IsReduced = record { normal = omega arith; below = omega arith }

montgomery_reduce-value_example :
    Congr order (value (montgomery_reduce coefficients) * 2 ^ 260) (Product.wide_value coefficients)
    × IsReduced (montgomery_reduce coefficients)
montgomery_reduce-value_example =
    Montgomery.montgomery_reduce-value coefficients (omega arith) (omega arith)
