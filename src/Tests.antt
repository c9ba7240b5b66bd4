-- ===== src/Tests.antt =====
-- Runs of the modelled code at concrete inputs.
pub mod DigitRuns
pub mod Field51Runs
pub mod EdwardsRuns
pub mod MultipleRuns
pub mod CombinationRuns
pub mod FieldRuns
pub mod HeeaRuns
pub mod Scalar52Runs
pub mod ScalarRuns
