-- ===== src/Common/Updates.antt =====
-- Entries of an array that are written over.
use Prim.Native.Nat.{ℕ, zero, suc, ◌+◌, ◌*◌, ◌^◌, ◌<◌}
use mathlib.Core.Path.{◌≡◌, refl, ap}
use mathlib.Core.List.{List, [], ◌∷◌}
use native.Mathlib.Omega.{arith}
use native.Mathlib.Nat.{pow-suc}
use ed25519_verificationtest.Common.Lists.{length, set}
use ed25519_verificationtest.Common.Bytes.{byte, le_value, IsBytes}

pub length-set : (i v : ℕ) (xs : List ℕ) → length (set xs i v) ≡ length xs
length-set i v [] = refl
length-set zero v (x ∷ xs) = refl
length-set (suc i) v (x ∷ xs) = ap suc (length-set i v xs)

-- The value changes by the weight of the entry.
pub le_value-set :
    (i v : ℕ) (xs : List ℕ)
    → i < length xs
    → le_value (set xs i v) + 256 ^ i * byte xs i ≡ le_value xs + 256 ^ i * v
le_value-set i v [] h = absurd (omega arith)
le_value-set zero v (x ∷ xs) h = omega arith
le_value-set (suc i) v (x ∷ xs) h = omega (
  arith,
  le_value-set i v xs (omega arith),
  ap (λ (t : ℕ). t * byte xs i) (pow-suc 256 i),
  ap (λ (t : ℕ). t * v) (pow-suc 256 i),
)

byte-set : (i v j : ℕ) (xs : List ℕ) → v < 256 → byte xs j < 256 → byte (set xs i v) j < 256
byte-set i v j [] hv h = h
byte-set zero v zero (x ∷ xs) hv h = hv
byte-set zero v (suc j) (x ∷ xs) hv h = h
byte-set (suc i) v zero (x ∷ xs) hv h = h
byte-set (suc i) v (suc j) (x ∷ xs) hv h = byte-set i v j xs hv h

pub IsBytes-set : (n i v : ℕ) (xs : List ℕ) → v < 256 → IsBytes n xs → IsBytes n (set xs i v)
IsBytes-set n i v xs hv h = record {
  sized = omega (arith, length-set i v xs, h.sized);
  ranged = λ j lt. byte-set i v j xs hv (h.ranged j lt);
}
