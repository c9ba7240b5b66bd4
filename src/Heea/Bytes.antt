-- ===== src/Heea/Bytes.antt =====
-- About `from_le_bytes` and `to_le_bytes` of curve25519/solana-ed25519/src/scalar/heea.rs.
use ed25519_verificationtest.Common.{
  ℕ, zero, suc, ◌+◌, ◌*◌, ◌^◌, ◌<◌, ◌≡◌, refl, sym, ap, ◌∙◌, arith, List, [], ◌∷◌, ◌++◌, take, drop,
  le_value, le_value-take, le_value-lt, le_value-injective, IsBytes, IsBytes-take, IsBytes-drop,
  All-IsBytes,
}
use ed25519_verificationtest.Heea.{I256}
use ed25519_verificationtest.Heea.Vartime.{from_le_bytes, to_le_bytes, limb_bytes}
use ed25519_verificationtest.Heea.Magnitude.{magnitude, IsWords}
use ed25519_verificationtest.Common.{subst}

drop-none : (n : ℕ) → drop {A = ℕ} n [] ≡ []
drop-none zero = refl
drop-none (suc n) = refl

drop-drop : (m n : ℕ) (xs : List ℕ) → drop n (drop m xs) ≡ drop (m + n) xs
drop-drop zero n xs = ap (λ (t : ℕ). drop t xs) (omega arith)
drop-drop (suc m) n [] = drop-none n ∙ sym (drop-none (suc m + n))
drop-drop (suc m) n (x ∷ xs) =
    let e : suc (m + n) ≡ suc m + n = omega arith in
    drop-drop m n xs ∙ ap (λ (t : ℕ). drop t (x ∷ xs)) e

limb_bytes-value :
    (x : ℕ) (rest : List ℕ)
    → x < 2 ^ 64
    → le_value (limb_bytes x ++ rest) ≡ x + 2 ^ 64 * le_value rest
limb_bytes-value x rest h = omega arith

-- `to_le_bytes` gives 32 bytes that stand for the magnitude.
pub to_le_bytes-magnitude :
    (v : I256)
    → IsWords v.limbs
    → (le_value (to_le_bytes v) ≡ magnitude v.limbs) × IsBytes 32 (to_le_bytes v)
unfolding to_le_bytes
to_le_bytes-magnitude v h =
    let l = v.limbs in
    let top = limb_bytes l.l3 in
    let third = limb_bytes l.l2 ++ top in
    let second = limb_bytes l.l1 ++ third in
    (
      omega (
        arith,
        limb_bytes-value l.l0 second h.word0,
        limb_bytes-value l.l1 third h.word1,
        limb_bytes-value l.l2 top h.word2,
        limb_bytes-value l.l3 [] h.word3,
      ),
      All-IsBytes 32 (limb_bytes l.l0 ++ second) refl (omega arith),
    )

pub from_le_bytes-magnitude :
    (bytes : List ℕ)
    → IsBytes 32 bytes
    → (magnitude (from_le_bytes bytes).limbs ≡ le_value bytes) × IsWords (from_le_bytes bytes).limbs
unfolding from_le_bytes
from_le_bytes-magnitude bytes h =
    let r1 = IsBytes-drop 8 24 bytes h in
    let r2 = subst (λ (t : List ℕ). IsBytes 16 t) (drop-drop 8 8 bytes) (IsBytes-drop 8 16 _ r1) in
    let r3 = subst (λ (t : List ℕ). IsBytes 8 t) (drop-drop 16 8 bytes) (IsBytes-drop 8 8 _ r2) in
    let r4 = IsBytes-drop 8 0 (drop 24 bytes) r3 in
    let w0 = le_value-lt 8 (take 8 bytes) (IsBytes-take 8 24 bytes h) in
    let w1 = le_value-lt 8 (take 8 (drop 8 bytes)) (IsBytes-take 8 16 _ r1) in
    let w2 = le_value-lt 8 (take 8 (drop 16 bytes)) (IsBytes-take 8 8 _ r2) in
    let w3 = le_value-lt 8 (take 8 (drop 24 bytes)) (IsBytes-take 8 0 _ r3) in
    (
      omega (
        arith,
        le_value-take 8 bytes (omega (arith, h.sized)),
        le_value-take 8 (drop 8 bytes) (omega (arith, r1.sized)),
        le_value-take 8 (drop 16 bytes) (omega (arith, r2.sized)),
        le_value-take 8 (drop 24 bytes) (omega (arith, r3.sized)),
        ap le_value (drop-drop 8 8 bytes),
        ap le_value (drop-drop 16 8 bytes),
        le_value-lt 0 (drop 8 (drop 24 bytes)) r4,
      ),
      record { word0 = w0; word1 = w1; word2 = w2; word3 = w3 },
    )

-- For 32 bytes `to_le_bytes` of `from_le_bytes` gives the bytes back.
pub to_le_bytes-from_le_bytes :
    (bytes : List ℕ) → IsBytes 32 bytes → to_le_bytes (from_le_bytes bytes) ≡ bytes
to_le_bytes-from_le_bytes bytes h =
    let (same, words) = from_le_bytes-magnitude bytes h in
    let (back, sized) = to_le_bytes-magnitude (from_le_bytes bytes) words in
    le_value-injective 32 (to_le_bytes (from_le_bytes bytes)) bytes sized h (back ∙ same)
