-- ===== src/Verify/Arena.antt =====
-- Req/rust/src/verify/arena.rs: the same checks over one flat buffer, whose rows lose the collided
-- segment in each round.
use requihash.Base.{
  ℕ, zero, suc, ◌+◌, ◌-◌, ◌*◌, ◌/◌, list_eq, list_lt, List, [], ◌∷◌, ◌++◌, map, length, get_or,
  take, drop,
}
use requihash.Outcome.{Outcome, ok, panic, ◌>>=◌, ◌>>◌}
use requihash.Params.{
  Error, collision_failed, ordering_failed, non_zero_root, collision_byte_length,
}
use requihash.Engine.{Requihash, leaf_row}
use requihash.Verify.{guard, check_indices, xor_bytes, all_zero}

-- What a round leaves: the rows' bytes behind one another, and their index vectors.
pub record Level : Type 0 where
  pub hashes : List ℕ
  pub idx : List (List ℕ)

-- `hashes[r * stride + off..][..len]`
abbrev pub slice : List ℕ → ℕ → ℕ → List ℕ
slice hashes at len = take len (drop at hashes)

-- The `while r < nrows`, with `left` rows from `r` on. The slots of `out_hashes` are filled from
-- the left, each once; the index vectors are moved out of `idx`.
unfoldable pub arena_round : ℕ → ℕ → ℕ → Level → ℕ → ℕ → Outcome Error Level
unfolding xor_bytes
arena_round cbyte stride round s r zero = ok (record { hashes = []; idx = [] })
arena_round cbyte stride round s r (suc zero) = panic
arena_round cbyte stride round s r (suc (suc left)) =
    let a = r in
    let b = r + 1 in
    let new_stride = stride - cbyte in
    let idx_a = get_or s.idx a [] in
    let idx_b = get_or s.idx b [] in
    let more = arena_round cbyte stride round s (r + 2) left in
    do
      guard (list_eq (slice s.hashes (a * stride) cbyte) (slice s.hashes (b * stride) cbyte))
          (collision_failed round)
      guard (list_lt idx_a idx_b) (ordering_failed round)
      out ← more
      ok (record {
        hashes =
            xor_bytes (slice s.hashes (a * stride + cbyte) new_stride)
              (slice s.hashes (b * stride + cbyte) new_stride)
            ++ out.hashes;
        idx = (idx_a ++ idx_b) ∷ out.idx;
      })

-- `for round in 1..=k`, with `left` rounds left: the result is the last level, its stride and its
-- number of rows.
unfoldable pub arena_rounds : ℕ → ℕ → ℕ → ℕ → ℕ → Level → Outcome Error (Level × ℕ × ℕ)
arena_rounds cbyte zero round stride nrows s = ok (s, stride, nrows)
arena_rounds cbyte (suc left) round stride nrows s = do
  s' ← arena_round cbyte stride round s 0 nrows
  arena_rounds cbyte left (round + 1) (stride - cbyte) (nrows / 2) s'

-- The leaf rows, copied behind one another.
unfoldable pub flat_leaves : Requihash → List ℕ → List ℕ
flat_leaves e [] = []
flat_leaves e (i ∷ is) = leaf_row e i ++ flat_leaves e is

-- The assertion on the number of rows, and the test of the surviving segment.
unfoldable pub check_flat_root : List ℕ → ℕ → ℕ → Outcome Error (Unit {0})
check_flat_root hashes stride (suc zero) = guard (all_zero (take stride hashes)) non_zero_root
check_flat_root hashes stride _ = panic

-- `ArenaVerifier::verify`
unfoldable pub arena_verify : Requihash → List ℕ → Outcome Error (Unit {0})
arena_verify e indices =
    let cbyte = collision_byte_length e.p in
    let leaves : Level = record {
      hashes = flat_leaves e indices;
      idx = map (λ i. i ∷ []) indices;
    } in
    do
      check_indices e indices
      (s, stride, nrows) ← arena_rounds cbyte e.p.k 1 ((e.p.k + 1) * cbyte) (length indices) leaves
      check_flat_root s.hashes stride nrows
