-- ===== src/Common/Outcomes.antt =====
-- Results of code that may have none.
use mathlib.Core.Option.{Option, none, some}
use Prim.{⊥}

-- There is a result, and it meets `P`.
unfoldable pub Returns {ℓ} : {A : Type ℓ} → (A → Type 0) → Option A → Type 0
Returns P none = ⊥
Returns P (some x) = P x
