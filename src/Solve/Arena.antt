-- ===== src/Solve/Arena.antt =====
-- `solve_arena` and `solve_arena_with_leaves` of Req/rust/src/lib.rs, which
-- Req/rust/src/solve/arena.rs delegates to: the rows live in two flat buffers, and a round sorts row
-- numbers. Row numbers are not cut to 32 bits here: 2 ^ 32 rows do not fit a machine's memory.
use requihash.Base.{
  ℕ, zero, suc, ◌+◌, ◌-◌, ◌*◌, ◌/◌, ◌^◌, ◌==◌, ◌||◌, list_lt, if◌then◌else◌, Option, none, some,
  List, [], ◌∷◌, ◌++◌, map, length, take, drop, replicate,
}
use requihash.Params.{collision_bit_length, collision_byte_length}
use requihash.Engine.{Requihash, leaf_row_into}
use requihash.Distinct.{all_distinct, slices_distinct}
use requihash.Verify.{Row, xor_bytes, all_zero}
use requihash.Verify.Arena.{slice}
use requihash.Verify.Flat.{flat}
use requihash.Collisions.{merge_round}

pub record Arena : Type 0 where
  pub hashes : List ℕ
  pub idxs : List ℕ
  pub hstride : ℕ
  pub icount : ℕ
  pub nrows : ℕ

-- `from..from + count`
unfoldable pub range : ℕ → ℕ → List ℕ
range from zero = []
range from (suc count) = from ∷ range (from + 1) count

-- The leaf fill of `solve_arena`: each chunk of `full` bytes takes the row of its leaf.
unfoldable pub fill_leaves : Requihash → ℕ → ℕ → ℕ → List ℕ → List ℕ
fill_leaves e full leaf zero hashes = []
fill_leaves e full leaf (suc count) hashes =
    leaf_row_into e leaf (take full hashes)
    ++ fill_leaves e full (leaf + 1) count (drop full hashes)

-- `hashes[r * hstride..r * hstride + cbyte]`
abbrev pub row_key : ℕ → Arena → ℕ → List ℕ
row_key cbyte s r = slice s.hashes (r * s.hstride) cbyte

-- `idxs[r * icount..(r + 1) * icount]`
abbrev pub row_idx : Arena → ℕ → List ℕ
row_idx s r = slice s.idxs (r * s.icount) s.icount

-- `hashes[r * hstride + cbyte..r * hstride + hstride]`
abbrev pub row_rest : ℕ → Arena → ℕ → List ℕ
row_rest cbyte s r = slice s.hashes (r * s.hstride + cbyte) (s.hstride - cbyte)

-- What a pair of rows appends to `out_hashes` and to `out_idxs`.
unfoldable pub merge_ids : ℕ → Arena → ℕ → ℕ → Option Row
merge_ids cbyte s ra rb =
    let ia = row_idx s ra in
    let ib = row_idx s rb in
    if slices_distinct ia ib
    then some (record {
      h = xor_bytes (row_rest cbyte s ra) (row_rest cbyte s rb);
      idx = if list_lt ia ib then ia ++ ib else ib ++ ia;
    })
    else none

-- The buffers that the appended pieces make up, and the number of rows in them.
unfoldable pub collect : ℕ → ℕ → List Row → Arena
collect new_hstride new_icount out =
    let out_hashes = flat (map (λ (r : Row). r.h) out) in
    let out_idxs = flat (map (λ (r : Row). r.idx) out) in
    record {
      hashes = out_hashes;
      idxs = out_idxs;
      hstride = new_hstride;
      icount = new_icount;
      nrows =
          if new_hstride == 0
          then length out_idxs / new_icount
          else length out_hashes / new_hstride;
    }

-- The body of `for _round in 1..=k`.
unfoldable pub merge_arena : ℕ → Arena → Arena
merge_arena cbyte s =
    collect (s.hstride - cbyte) (s.icount * 2)
      (merge_round (merge_ids cbyte s) (row_key cbyte s) (range 0 s.nrows))

unfoldable pub arena_rounds : ℕ → ℕ → Arena → Arena
arena_rounds cbyte zero s = s
arena_rounds cbyte (suc left) s =
    let s' = merge_arena cbyte s in
    let rest = arena_rounds cbyte left s' in if s'.nrows == 0 then s' else rest

-- `for r in 0..nrows`, with `left` rows from `r` on.
unfoldable pub arena_solutions : Arena → ℕ → ℕ → List (List ℕ)
arena_solutions s r zero = []
arena_solutions s r (suc left) =
    let zero_row = s.hstride == 0 || all_zero (slice s.hashes (r * s.hstride) s.hstride) in
    let idx = row_idx s r in
    let rest = arena_solutions s (r + 1) left in
    if zero_row then (if all_distinct idx then idx ∷ rest else rest) else rest

-- `solve_arena_with_leaves`; `fill` is given the number of rows, their width and the buffer.
unfoldable pub solve_arena_with_leaves : Requihash → (ℕ → ℕ → List ℕ → List ℕ) → List (List ℕ)
solve_arena_with_leaves e fill =
    let cbyte = collision_byte_length e.p in
    let full_hash = (e.p.k + 1) * cbyte in
    let init_size = 2 ^ (collision_bit_length e.p + 1) in
    let s = arena_rounds cbyte e.p.k (record {
      hashes = fill init_size full_hash (replicate (init_size * full_hash) 0);
      idxs = range 0 init_size;
      hstride = full_hash;
      icount = 1;
      nrows = init_size;
    }) in
    arena_solutions s 0 s.nrows

unfoldable pub solve_arena : Requihash → List (List ℕ)
unfolding solve_arena_with_leaves
solve_arena e = solve_arena_with_leaves e (λ nrows full hashes. fill_leaves e full 0 nrows hashes)
