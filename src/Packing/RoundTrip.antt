-- ===== src/Packing/RoundTrip.antt =====
-- The minimal encoding of Req/rust/src/lib.rs: `get_minimal_from_indices` and
-- `get_indices_from_minimal` undo each other.
use requihash.Base.{
  ℕ, zero, suc, ◌+◌, ◌-◌, ◌*◌, ◌/◌, ◌%◌, ◌^◌, ◌≤◌, ◌<◌, ◌≡◌, refl, sym, ap, ◌∙◌, List, [], ◌∷◌,
  ◌++◌, length, replicate, All, arith,
}
use requihash.Base.Pow.{pow-le}
use requihash.Packing.{
  compress_array, be_bytes, index_array, get_minimal_from_indices, from_be_chunks,
  get_indices_from_minimal,
}
use requihash.Packing.Bytes.{be}
use requihash.Packing.Fields.{fields, chunk, chunks}
use requihash.Packing.Expansion.{expand_array-fields}
use requihash.Packing.Octets.{octets}
use requihash.Packing.Compression.{compress_array-octets}
use requihash.Packing.Digits.{length-octets, octets-All, octets-fields, fields-octets, fields-count}
use native.Mathlib.Nat.{mul-div_cancel_left}

same_bytes :
    {a b c d a' b' c' d' : ℕ}
    → a ≡ a'
    → b ≡ b'
    → c ≡ c'
    → d ≡ d'
    → a ∷ b ∷ c ∷ d ∷ [] ≡ a' ∷ b' ∷ c' ∷ d' ∷ []
same_bytes p q r t = cc

-- Leading zero bytes are written for the bytes that a small index does not need.
short_index :
    (width x : ℕ)
    → 2 ≤ width
    → width ≤ 4
    → x < 2 ^ (8 * width)
    → be_bytes x ≡ replicate (4 - width) 0 ++ be width x
unfolding be_bytes be
short_index zero x lo hi small = absurd (omega arith)
short_index (suc zero) x lo hi small = absurd (omega arith)
short_index (suc (suc zero)) x lo hi small =
    same_bytes (omega arith) (omega arith) (omega arith) (omega arith)
short_index (suc (suc (suc zero))) x lo hi small =
    same_bytes (omega arith) (omega arith) (omega arith) (omega arith)
short_index (suc (suc (suc (suc zero)))) x lo hi small =
    same_bytes (omega arith) (omega arith) (omega arith) (omega arith)
short_index (suc (suc (suc (suc (suc width))))) x lo hi small = absurd (omega arith)

abbrev pad : ℕ → ℕ
pad w = 4 - (w + 7) / 8

index_array-chunks :
    (w : ℕ) (s : List ℕ)
    → 9 ≤ w
    → w ≤ 26
    → All (λ i. i < 2 ^ w) s
    → index_array s ≡ chunks w (pad w) s
unfolding index_array chunks
index_array-chunks w [] lo hi fits = refl
index_array-chunks w (x ∷ xs) lo hi (fit, fits) =
    let small : x < 2 ^ (8 * ((w + 7) / 8)) =
      omega (arith, fit, pow-le w (8 * ((w + 7) / 8)) (omega arith)) in
    ap (λ t. t ++ index_array xs) (short_index ((w + 7) / 8) x (omega arith) (omega arith) small)
    ∙ ap (λ t. chunk w (pad w) x ++ t) (index_array-chunks w xs lo hi fits)

length-index_array : (s : List ℕ) → length (index_array s) ≡ 4 * length s
unfolding index_array be_bytes
length-index_array [] = refl
length-index_array (x ∷ xs) = omega (arith, length-index_array xs)

from_be_chunks-index_array :
    (w : ℕ) (s : List ℕ) → w ≤ 26 → All (λ i. i < 2 ^ w) s → from_be_chunks (index_array s) ≡ s
unfolding from_be_chunks index_array be_bytes
from_be_chunks-index_array w [] hi fits = refl
from_be_chunks-index_array w (x ∷ xs) hi (fit, fits) =
    let small : x < 2 ^ 32 = omega (arith, fit, pow-le w 32 (omega arith)) in
    let whole : x / 2 ^ 24 % 256 * 2 ^ 24
          + x / 2 ^ 16 % 256 * 2 ^ 16
          + x / 2 ^ 8 % 256 * 2 ^ 8
          + x % 256
        ≡ x =
      omega arith in
    ap (λ t. t ∷ from_be_chunks (index_array xs)) whole
    ∙ ap (◌∷◌ x) (from_be_chunks-index_array w xs hi fits)

-- What `get_minimal_from_indices` writes: the octets of the indices.
minimal-octets :
    (s : List ℕ) (cbitlen n : ℕ)
    → 8 ≤ cbitlen
    → cbitlen ≤ 25
    → All (λ i. i < 2 ^ (cbitlen + 1)) s
    → (cbitlen + 1) * length s ≡ 8 * n
    → get_minimal_from_indices s cbitlen ≡ octets (cbitlen + 1) n 0 0 s
unfolding get_minimal_from_indices
minimal-octets s cbitlen n lo hi fits whole =
    let w = cbitlen + 1 in
    let size : w * length s / 8 ≡ n = omega arith in
    ap (λ t. compress_array t (w * length s / 8) w (pad w))
      (index_array-chunks w s (omega arith) (omega arith) fits)
    ∙ ap (λ t. compress_array (chunks w (pad w) s) t w (pad w)) size
    ∙ compress_array-octets w (pad w) n s (omega arith) (omega arith) fits (omega (arith, whole))

-- What `get_indices_from_minimal` reads: the fields of the bytes.
indices-fields :
    (minimal : List ℕ) (cbitlen m : ℕ)
    → 8 ≤ cbitlen
    → cbitlen ≤ 25
    → All (λ b. b < 256) minimal
    → 8 * length minimal ≡ (cbitlen + 1) * m
    → get_indices_from_minimal minimal cbitlen ≡ fields (cbitlen + 1) 0 0 minimal
unfolding get_indices_from_minimal
indices-fields minimal cbitlen m lo hi bytes whole =
    let w = cbitlen + 1 in
    let fs = fields w 0 0 minimal in
    let (count, each) =
      fields-count w 0 0 m minimal (omega arith) (omega arith) (omega arith) bytes (omega arith) in
    let same = index_array-chunks w fs (omega arith) (omega arith) each in
    let size : 8 * 4 * length minimal / w ≡ length (chunks w (pad w) fs) =
      ap (λ t. t / w) {x = 8 * 4 * length minimal} {y = w * (4 * m)} (omega (arith, whole))
      ∙ mul-div_cancel_left (4 * m) (omega arith)
      ∙ omega (arith, count, length-index_array fs, ap length same) in
    ap from_be_chunks (
      expand_array-fields minimal (8 * 4 * length minimal / w) w (pad w) (omega arith) (omega arith)
        bytes size
      ∙ sym same)
    ∙ from_be_chunks-index_array w fs (omega arith) each

-- Decoding undoes encoding: when the indices have `cbitlen + 1` bits each and fill whole bytes,
-- for every collision length that `Params::new` accepts.
pub get_indices-get_minimal :
    (s : List ℕ) (cbitlen n : ℕ)
    → 8 ≤ cbitlen
    → cbitlen ≤ 25
    → All (λ i. i < 2 ^ (cbitlen + 1)) s
    → (cbitlen + 1) * length s ≡ 8 * n
    → get_indices_from_minimal (get_minimal_from_indices s cbitlen) cbitlen ≡ s
get_indices-get_minimal s cbitlen n lo hi fits whole =
    let w = cbitlen + 1 in
    let bs = octets w n 0 0 s in
    let bytes = octets-All w n 0 0 s (omega arith) (omega arith) fits (omega (arith, whole)) in
    ap (λ t. get_indices_from_minimal t cbitlen) (minimal-octets s cbitlen n lo hi fits whole)
    ∙ indices-fields bs cbitlen (length s) lo hi bytes
        (omega (arith, whole, length-octets w n 0 0 s))
    ∙ fields-octets w n s (omega arith) fits whole

-- Encoding undoes decoding: when the bytes hold a whole number of indices, so no two encodings of
-- that length stand for the same indices.
pub get_minimal-get_indices :
    (minimal : List ℕ) (cbitlen m : ℕ)
    → 8 ≤ cbitlen
    → cbitlen ≤ 25
    → All (λ b. b < 256) minimal
    → 8 * length minimal ≡ (cbitlen + 1) * m
    → get_minimal_from_indices (get_indices_from_minimal minimal cbitlen) cbitlen ≡ minimal
get_minimal-get_indices minimal cbitlen m lo hi bytes whole =
    let w = cbitlen + 1 in
    let fs = fields w 0 0 minimal in
    let (count, each) =
      fields-count w 0 0 m minimal (omega arith) (omega arith) (omega arith) bytes (omega arith) in
    ap (λ t. get_minimal_from_indices t cbitlen)
      (indices-fields minimal cbitlen m lo hi bytes whole)
    ∙ minimal-octets fs cbitlen (length minimal) lo hi each
        (omega (arith, whole, ap (λ (t : ℕ). w * t) count))
    ∙ octets-fields w m minimal (omega arith) bytes whole
