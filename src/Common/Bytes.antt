-- ===== src/Common/Bytes.antt =====
-- Byte arrays of a fixed length, and the numbers that they stand for, lowest byte first.
use Prim.Native.Nat.{ℕ, zero, suc, ◌+◌, ◌*◌, ◌^◌, ◌<◌, bit_or}
use mathlib.Core.Path.{◌≡◌, refl, ap, ap₂, sym, ◌∙◌}
use mathlib.Core.List.{List, [], ◌∷◌}
use native.Mathlib.Omega.{arith}
use native.Mathlib.Nat.{pow-suc}
use ed25519_verificationtest.Common.Lists.{length, get_or, All}
use ed25519_verificationtest.Common.Words.{shl64}
use ed25519_verificationtest.Common.Bits.{bit_or_disjoint}
use Prim.Native.Nat.{◌%◌}
use ed25519_verificationtest.Common.Lists.{take, drop}
use Prim.Native.Nat.{◌≤◌}
use mathlib.Core.Path.{subst}

-- `bytes[i]`
abbrev pub byte : List ℕ → ℕ → ℕ
byte bytes i = get_or bytes i 0

-- A value of `[u8; n]`.
pub record IsBytes (n : ℕ) (bytes : List ℕ) : Type 0 where
  pub sized : length bytes ≡ n
  pub ranged : (i : ℕ) → i < n → byte bytes i < 256

abbrev pub le_value : List ℕ → ℕ
le_value [] = 0
le_value (x ∷ xs) = x + 256 * le_value xs

-- The list of `f i`, `f (i + 1)`, … with `n` entries.
abbrev pub tabulate : ℕ → ℕ → (ℕ → ℕ) → List ℕ
tabulate zero i f = []
tabulate (suc n) i f = f i ∷ tabulate n (suc i) f

tabulate-suc : (n i : ℕ) (f : ℕ → ℕ) → tabulate n (suc i) f ≡ tabulate n i (λ j. f (suc j))
tabulate-suc zero i f = refl
tabulate-suc (suc n) i f = ap (λ t. f (suc i) ∷ t) (tabulate-suc n (suc i) f)

-- An array is the list of its entries, so that its value is a sum over them.
pub tabulate-byte : (n : ℕ) (bytes : List ℕ) → length bytes ≡ n → tabulate n 0 (byte bytes) ≡ bytes
tabulate-byte zero [] e = refl
tabulate-byte zero (x ∷ xs) e = absurd (omega arith)
tabulate-byte (suc n) [] e = absurd (omega arith)
tabulate-byte (suc n) (x ∷ xs) e =
    ap (λ t. x ∷ t) (tabulate-suc n 0 (byte (x ∷ xs)) ∙ tabulate-byte n xs (omega arith))

pub le_value-tabulate :
    (n : ℕ) (bytes : List ℕ)
    → length bytes ≡ n
    → le_value bytes ≡ le_value (tabulate n 0 (byte bytes))
le_value-tabulate n bytes e = ap le_value (sym (tabulate-byte n bytes e))

-- `load8_at`: eight bytes as a `u64`, put together by shifts and `|`.
unfoldable pub load8_at : List ℕ → ℕ → ℕ
load8_at input i =
    bit_or
      (bit_or
        (bit_or
          (bit_or
            (bit_or
              (bit_or (bit_or (byte input i) (shl64 (byte input (i + 1)) 8))
                (shl64 (byte input (i + 2)) 16))
              (shl64 (byte input (i + 3)) 24))
            (shl64 (byte input (i + 4)) 32))
          (shl64 (byte input (i + 5)) 40))
        (shl64 (byte input (i + 6)) 48))
      (shl64 (byte input (i + 7)) 56)

-- One more byte above the `k` bits that are there.
pub or_byte :
    (k low b : ℕ) → low < 2 ^ k → b * 2 ^ k < 2 ^ 64 → bit_or low (shl64 b k) ≡ low + b * 2 ^ k
or_byte k low b h fits =
    let whole : shl64 b k ≡ b * 2 ^ k = omega arith in rw whole (bit_or_disjoint k low b h)

pub load8_at-sum :
    (bytes : List ℕ) (n i : ℕ)
    → IsBytes n bytes
    → i + 7 < n
    → load8_at bytes i
      ≡ byte bytes i
        + byte bytes (i + 1) * 2 ^ 8
        + byte bytes (i + 2) * 2 ^ 16
        + byte bytes (i + 3) * 2 ^ 24
        + byte bytes (i + 4) * 2 ^ 32
        + byte bytes (i + 5) * 2 ^ 40
        + byte bytes (i + 6) * 2 ^ 48
        + byte bytes (i + 7) * 2 ^ 56
unfolding load8_at
load8_at-sum bytes n i h fits =
    let r0 = h.ranged i (omega arith) in
    let r1 = h.ranged (i + 1) (omega arith) in
    let r2 = h.ranged (i + 2) (omega arith) in
    let r3 = h.ranged (i + 3) (omega arith) in
    let r4 = h.ranged (i + 4) (omega arith) in
    let r5 = h.ranged (i + 5) (omega arith) in
    let r6 = h.ranged (i + 6) (omega arith) in
    let r7 = h.ranged (i + 7) (omega arith) in
    let b = λ (k : ℕ). byte bytes (i + k) in
    let s1 : ℕ = byte bytes i + b 1 * 2 ^ 8 in
    let s2 : ℕ = s1 + b 2 * 2 ^ 16 in
    let s3 : ℕ = s2 + b 3 * 2 ^ 24 in
    let s4 : ℕ = s3 + b 4 * 2 ^ 32 in
    let s5 : ℕ = s4 + b 5 * 2 ^ 40 in
    let s6 : ℕ = s5 + b 6 * 2 ^ 48 in
    rw (
      or_byte 8 (byte bytes i) (b 1) (omega arith) (omega arith),
      or_byte 16 s1 (b 2) (omega arith) (omega arith),
      or_byte 24 s2 (b 3) (omega arith) (omega arith),
      or_byte 32 s3 (b 4) (omega arith) (omega arith),
      or_byte 40 s4 (b 5) (omega arith) (omega arith),
      or_byte 48 s5 (b 6) (omega arith) (omega arith),
      or_byte 56 s6 (b 7) (omega arith) (omega arith),
    )

-- Bounds on the entries of a literal list give bounds at every index.
All-byte : (xs : List ℕ) → All (λ b. b < 256) xs → (i : ℕ) → i < length xs → byte xs i < 256
All-byte [] h i lt = absurd (omega arith)
All-byte (x ∷ xs) h zero lt = h.0
All-byte (x ∷ xs) h (suc i) lt = All-byte xs h.1 i (omega arith)

pub All-IsBytes : (n : ℕ) (xs : List ℕ) → length xs ≡ n → All (λ b. b < 256) xs → IsBytes n xs
All-IsBytes n xs e h = record { sized = e; ranged = λ i lt. All-byte xs h i (omega arith) }

pub IsBytes-tail : {n x : ℕ} {xs : List ℕ} → IsBytes (suc n) (x ∷ xs) → IsBytes n xs
IsBytes-tail h = record {
  sized = omega (arith, h.sized);
  ranged = λ i lt. h.ranged (suc i) (omega arith);
}

-- Two arrays of one length with one value are the same array.
pub le_value-injective :
    (n : ℕ) (xs ys : List ℕ) → IsBytes n xs → IsBytes n ys → le_value xs ≡ le_value ys → xs ≡ ys
le_value-injective n [] [] hx hy e = refl
le_value-injective n [] (y ∷ ys) hx hy e = absurd (omega (arith, hx.sized, hy.sized))
le_value-injective n (x ∷ xs) [] hx hy e = absurd (omega (arith, hx.sized, hy.sized))
le_value-injective zero (x ∷ xs) (y ∷ ys) hx hy e = absurd (omega (arith, hx.sized))
le_value-injective (suc n) (x ∷ xs) (y ∷ ys) hx hy e =
    let x_byte : x < 256 = hx.ranged 0 (omega arith) in
    let y_byte : y < 256 = hy.ranged 0 (omega arith) in
    let rest : xs ≡ ys =
      le_value-injective n xs ys (IsBytes-tail hx) (IsBytes-tail hy) (omega arith) in
    let head : x ≡ y = omega arith in ap₂ ◌∷◌ head rest

pub le_value-lt : (n : ℕ) (xs : List ℕ) → IsBytes n xs → le_value xs < 256 ^ n
le_value-lt zero [] h = omega arith
le_value-lt zero (x ∷ xs) h = absurd (omega (arith, h.sized))
le_value-lt (suc n) [] h = absurd (omega (arith, h.sized))
le_value-lt (suc n) (x ∷ xs) h =
    let x_byte : x < 256 = h.ranged 0 (omega arith) in
    omega (arith, le_value-lt n xs (IsBytes-tail h), pow-suc 256 n)

-- The number's lowest byte is the first entry.
pub le_value-low : (xs : List ℕ) → le_value xs % 256 ≡ byte xs 0 % 256
le_value-low [] = refl
le_value-low (x ∷ xs) = omega arith

-- The first bytes and the others.
pub le_value-take :
    (n : ℕ) (xs : List ℕ)
    → n ≤ length xs
    → le_value (take n xs) + 256 ^ n * le_value (drop n xs) ≡ le_value xs
le_value-take zero xs h = omega arith
le_value-take (suc n) [] h = absurd (omega arith)
le_value-take (suc n) (x ∷ xs) h = omega (
  arith,
  ap (λ (t : ℕ). t * le_value (drop n xs)) (pow-suc 256 n),
  le_value-take n xs (omega arith),
)

pub IsBytes-take : (n k : ℕ) (xs : List ℕ) → IsBytes (n + k) xs → IsBytes n (take n xs)
IsBytes-take zero k xs h = record { sized = refl; ranged = λ i lt. absurd (omega arith) }
IsBytes-take (suc n) k [] h = absurd (omega (arith, h.sized))
IsBytes-take (suc n) k (x ∷ xs) h =
    let e : suc n + k ≡ suc (n + k) = omega arith in
    let rest = IsBytes-take n k xs (IsBytes-tail (subst (λ (t : ℕ). IsBytes t (x ∷ xs)) e h)) in
    record {
      sized = ap suc rest.sized;
      ranged = λ i. elim i as (λ t. t < suc n → byte (x ∷ take n xs) t < 256) [
        | zero ↦ λ lt. h.ranged 0 (omega arith)
        | suc j ↦ λ lt. rest.ranged j (omega arith)
      ];
    }

pub IsBytes-drop : (n k : ℕ) (xs : List ℕ) → IsBytes (n + k) xs → IsBytes k (drop n xs)
IsBytes-drop zero k xs h = subst (λ (t : ℕ). IsBytes t xs) (omega arith) h
IsBytes-drop (suc n) k [] h = absurd (omega (arith, h.sized))
IsBytes-drop (suc n) k (x ∷ xs) h =
    let e : suc n + k ≡ suc (n + k) = omega arith in
    IsBytes-drop n k xs (IsBytes-tail (subst (λ (t : ℕ). IsBytes t (x ∷ xs)) e h))
