-- ===== src/Solve.antt =====
-- `Requihash::solve_reference` of Req/rust/src/lib.rs, which Req/rust/src/solve/reference.rs and
-- `solve` delegate to.
pub mod Arena
pub mod Buffers
pub mod Agree
pub mod Pointer
pub mod Pairs
pub mod Walk
pub mod Bucket
pub mod Counting
pub mod Grouped
pub mod Laid
pub mod Merged
pub mod Nodes
pub mod Exact
pub mod Instrumented
use requihash.Base.{
  ℕ, zero, suc, ◌+◌, ◌^◌, Bool, true, false, list_lt, if◌then◌else◌, Option, none, some, List, [],
  ◌∷◌, ◌++◌, map, take, drop,
}
use requihash.Params.{collision_bit_length, collision_byte_length}
use requihash.Engine.{Requihash, leaf_row}
use requihash.Distinct.{all_distinct, slices_distinct}
use requihash.Verify.{Row, xor_bytes, all_zero}
use requihash.Collisions.{merge_round}

-- `0..init_size`, of which `count` leaves are left, with the row of each.
unfoldable pub initial_rows : Requihash → ℕ → ℕ → List Row
initial_rows e leaf zero = []
initial_rows e leaf (suc count) =
    record { h = leaf_row e leaf; idx = leaf ∷ [] } ∷ initial_rows e (leaf + 1) count

-- `x[a].h[..cbyte]`
abbrev pub key : ℕ → Row → List ℕ
key cbyte r = take cbyte r.h

-- The body of the two `for` loops: rows that share an index are skipped, the collided segment is
-- dropped, and the smaller index vector comes first.
unfoldable pub merge_rows : ℕ → Row → Row → Option Row
merge_rows cbyte a b =
    if slices_distinct a.idx b.idx
    then some (record {
      h = xor_bytes (drop cbyte a.h) (drop cbyte b.h);
      idx = if list_lt a.idx b.idx then a.idx ++ b.idx else b.idx ++ a.idx;
    })
    else none

abbrev pub is_empty : List Row → Bool
is_empty [] = true
is_empty (r ∷ rs) = false

-- `for _round in 1..=k`, with `left` rounds left, and its `break`.
unfoldable pub solve_rounds : ℕ → ℕ → List Row → List Row
unfolding merge_rows
solve_rounds cbyte zero x = x
solve_rounds cbyte (suc left) x =
    let xc = merge_round (merge_rows cbyte) (key cbyte) x in
    let rest = solve_rounds cbyte left xc in if is_empty xc then xc else rest

-- `filter`, `map`, `filter`: rows that have come to zero, and whose indices differ.
unfoldable pub solutions : List Row → List (List ℕ)
solutions [] = []
solutions (r ∷ rs) =
    if all_zero r.h
    then (if all_distinct r.idx then r.idx ∷ solutions rs else solutions rs)
    else solutions rs

unfoldable pub solve_reference : Requihash → List (List ℕ)
unfolding initial_rows solve_rounds solutions
solve_reference e = solutions (
    solve_rounds (collision_byte_length e.p) e.p.k
      (initial_rows e 0 (2 ^ (collision_bit_length e.p + 1))))
