-- ===== src/BasepointTable.antt =====
-- How the table of odd multiples of the base point of
-- curve25519/solana-ed25519/src/backend/serial/u64/constants.rs is written.
pub mod Lower
pub mod Upper
pub mod Verified
use ed25519_verificationtest.Common.{ℕ, List}
use ed25519_verificationtest.Field51.{FieldElement51}
use ed25519_verificationtest.CurveModels.{AffineNielsPoint}

-- `FieldElement51::from_limbs`
abbrev pub from_limbs : ℕ → ℕ → ℕ → ℕ → ℕ → FieldElement51
from_limbs a b c e f = record { l0 = a; l1 = b; l2 = c; l3 = e; l4 = f }

-- An entry of the table: y + x, y - x and 2dxy.
abbrev pub entry : FieldElement51 → FieldElement51 → FieldElement51 → AffineNielsPoint
entry a b c = record { y_plus_x = a; y_minus_x = b; xy2d = c }
