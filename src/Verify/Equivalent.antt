-- ===== src/Verify/Equivalent.antt =====
-- The arena verifier and the early-reject verifier return what the reference verifier returns.
use requihash.Base.{
  ℕ, zero, suc, ◌+◌, ◌-◌, ◌*◌, ◌≤◌, ◌≡◌, refl, sym, ap, ◌∙◌, List, [], ◌∷◌, ◌++◌, map, length,
  length-map, arith,
}
use requihash.Outcome.{Outcome, ok, ◌>>=◌, ◌>>◌, >>=_assoc, >>=_congr}
use requihash.Params.{Error, collision_byte_length}
use requihash.Engine.{Requihash, leaf_row}
use requihash.Engine.Keying.{length-leaf_row}
use requihash.Verify.{Row, check_indices, leaf_rows, is_valid_solution}
use requihash.Verify.Shrink.{
  shrink_round, shrink_rounds, shrink_root, Wide, shrink_round-Wide, fold-shrink,
}
use requihash.Verify.Flat.{flat, Even}
use requihash.Verify.Arena.{flat_leaves, check_flat_root, arena_verify}
use requihash.Verify.Early.{early_rounds, early_verify}
use requihash.Verify.Agree.{
  bytes, indices_of, from_start, half_length, next_stride, shrink_round-indices, early_round-shrink,
  arena_rounds-shrink, check_flat_root-shrink, shrink_rounds-Wide,
}

early_rounds-shrink :
    (cbyte left round stride span : ℕ) (indices : List ℕ) (y : List Row)
    → left * cbyte ≤ stride
    → Wide stride y
    → Even span (indices_of y)
    → indices ≡ flat (indices_of y)
    → early_rounds cbyte indices left round stride span (length y) (flat (bytes y)) ≡ (
        shrink_rounds cbyte left round y >>= λ z.
        ok (flat (bytes z), stride - left * cbyte, length z))
unfolding early_rounds shrink_rounds
early_rounds-shrink cbyte zero round stride span indices y fits h g ei =
    ap {B = Outcome Error (List ℕ × ℕ × ℕ)} (λ t. ok (flat (bytes y), t, length y)) {x = stride}
      (omega arith)
early_rounds-shrink cbyte (suc left) round stride span indices y fits h g ei =
    rw
      (early_round-shrink cbyte stride span round indices (flat (bytes y)) 0 y (omega arith) h g
        (from_start stride (flat (bytes y))) (from_start span indices ∙ ei))
      (>>=_assoc (shrink_round cbyte round y) _ _
        ∙ >>=_congr (shrink_round cbyte round y) _ _ (λ z e.
          let (wide, len) = shrink_round-Wide cbyte stride round y h e in
          let (even, kept) = shrink_round-indices cbyte span round y g e in
          rw (half_length (length y) (length z) len, next_stride stride left cbyte)
            (early_rounds-shrink cbyte left (round + 1) (stride - cbyte) (span * 2) indices z
              (omega arith) wide even (ei ∙ sym kept)))
        ∙ sym (>>=_assoc (shrink_round cbyte round y) _ _))

leaf_rows-Wide :
    (e : Requihash) (indices : List ℕ)
    → Wide ((e.p.k + 1) * collision_byte_length e.p) (leaf_rows e indices)
unfolding leaf_rows
leaf_rows-Wide e [] = tt
leaf_rows-Wide e (i ∷ is) = (length-leaf_row e i, leaf_rows-Wide e is)

leaf_rows-bytes :
    (e : Requihash) (indices : List ℕ) → flat_leaves e indices ≡ flat (bytes (leaf_rows e indices))
unfolding leaf_rows flat_leaves flat
leaf_rows-bytes e [] = refl
leaf_rows-bytes e (i ∷ is) = ap (◌++◌ (leaf_row e i)) (leaf_rows-bytes e is)

leaf_rows-idx :
    (e : Requihash) (indices : List ℕ)
    → map (λ i. i ∷ []) indices ≡ indices_of (leaf_rows e indices)
unfolding leaf_rows
leaf_rows-idx e [] = refl
leaf_rows-idx e (i ∷ is) = ap (◌∷◌ (i ∷ [])) (leaf_rows-idx e is)

leaf_rows-Even : (e : Requihash) (indices : List ℕ) → Even 1 (indices_of (leaf_rows e indices))
unfolding leaf_rows
leaf_rows-Even e [] = tt
leaf_rows-Even e (i ∷ is) = (refl, leaf_rows-Even e is)

leaf_rows-flat_idx :
    (e : Requihash) (indices : List ℕ) → indices ≡ flat (indices_of (leaf_rows e indices))
unfolding leaf_rows flat
leaf_rows-flat_idx e [] = refl
leaf_rows-flat_idx e (i ∷ is) = ap (◌∷◌ i) (leaf_rows-flat_idx e is)

length-leaf_rows :
    (e : Requihash) (indices : List ℕ) → length (leaf_rows e indices) ≡ length indices
unfolding leaf_rows
length-leaf_rows e indices = length-map _ indices

module _ (e : Requihash) (indices : List ℕ) where
  abbrev pub cbyte : ℕ
  cbyte = collision_byte_length e.p

  abbrev pub full : ℕ
  full = (e.p.k + 1) * cbyte

  abbrev pub leaves : List Row
  leaves = leaf_rows e indices

  fits : e.p.k * cbyte ≤ full
  fits = omega arith

  root-shrink :
      (z : List Row)
      → shrink_rounds cbyte e.p.k 1 leaves ≡ ok z
      → check_flat_root (flat (bytes z)) (full - e.p.k * cbyte) (length z) ≡ shrink_root z
  root-shrink z r =
      check_flat_root-shrink _ z
        (shrink_rounds-Wide cbyte e.p.k 1 full leaves fits (leaf_rows-Wide e indices) r)

  -- The shrinking fold on the leaf rows of the input.
  abbrev pub shrink_verify : Outcome Error (Unit {0})
  shrink_verify = check_indices e indices >> (shrink_rounds cbyte e.p.k 1 leaves >>= shrink_root)

  pub reference-shrink : is_valid_solution e indices ≡ shrink_verify
  unfolding is_valid_solution
  reference-shrink =
      ap (λ m. check_indices e indices >> m)
        (fold-shrink cbyte e.p.k full leaves fits (leaf_rows-Wide e indices))

  arena-shrink : arena_verify e indices ≡ shrink_verify
  unfolding arena_verify
  arena-shrink =
      rw
        (
          leaf_rows-bytes e indices,
          leaf_rows-idx e indices,
          ← length-leaf_rows e indices,
          arena_rounds-shrink cbyte e.p.k 1 full leaves fits (leaf_rows-Wide e indices),
        )
        (ap (λ m. check_indices e indices >> m)
          (>>=_assoc (shrink_rounds cbyte e.p.k 1 leaves) _ _
            ∙ >>=_congr (shrink_rounds cbyte e.p.k 1 leaves) _ _ root-shrink))

  early-shrink : early_verify e indices ≡ shrink_verify
  unfolding early_verify
  early-shrink =
      rw
        (
          leaf_rows-bytes e indices,
          ← length-leaf_rows e indices,
          early_rounds-shrink cbyte e.p.k 1 full 1 indices leaves fits (leaf_rows-Wide e indices)
              (leaf_rows-Even e indices) (leaf_rows-flat_idx e indices),
        )
        (ap (λ m. check_indices e indices >> m)
          (>>=_assoc (shrink_rounds cbyte e.p.k 1 leaves) _ _
            ∙ >>=_congr (shrink_rounds cbyte e.p.k 1 leaves) _ _ root-shrink))

-- On every engine and every index vector, well formed or not, the arena verifier returns the very
-- result of the reference verifier, the kind and the round of an error included.
pub arena_verify-eq-reference :
    (e : Requihash) (indices : List ℕ) → arena_verify e indices ≡ is_valid_solution e indices
arena_verify-eq-reference e indices = arena-shrink e indices ∙ sym (reference-shrink e indices)

-- On every engine and every index vector, well formed or not, the early-reject verifier returns the
-- very result of the reference verifier, the kind and the round of an error included.
pub early_verify-eq-reference :
    (e : Requihash) (indices : List ℕ) → early_verify e indices ≡ is_valid_solution e indices
early_verify-eq-reference e indices = early-shrink e indices ∙ sym (reference-shrink e indices)
