-- ===== src/Examples.antt =====
-- Concrete runs, and the theorems at concrete inputs.
mod KList
mod Khovratovich
mod Tromp
mod Seam
use requihash.Base.{
  Option, ◌+◌, list_lt_single, list_eq_single, ℕ, ◌-◌, ◌/◌, ◌%◌, ◌^◌, ◌++◌, some, arith, ◌≡◌, ◌↔◌,
  refl, true, List, [], ◌∷◌, replicate, take,
}
use requihash.Base.Elem.{Elem}
use requihash.Outcome.{ok, panic}
use requihash.Params.{
  Params, n_bounds, lcm_8, gcd, gcd_loop, valid_n, hash_output, person, collision_bit_length,
}
use requihash.Params.Listing.{valid_n-exact}
use requihash.Params.New.{IsValid, new-iff_IsValid}
use requihash.Blake2b.{State, init, update, finalize}
use requihash.Blake2b.Streaming.{update-append}
use requihash.Packing.{expand_array_into, get_minimal_from_indices, get_indices_from_minimal}
use requihash.Packing.RoundTrip.{get_indices-get_minimal, get_minimal-get_indices}
use requihash.Engine.{Requihash, le_bytes, leaf_row_into}
use requihash.Engine.Message.{leaf_row_into-message}
use requihash.Engine as Engine
use requihash.Distinct.{Distinct, Disjoint, all_distinct, slices_distinct}
use requihash.Distinct.Decides.{all_distinct_iff, slices_distinct_iff}
use requihash.Verify.{is_valid_solution}
use requihash.Verify.Arena.{arena_verify}
use requihash.Verify.Early.{early_verify}
use requihash.Verify.Equivalent.{arena_verify-eq-reference, early_verify-eq-reference}
use requihash.Verify.Solution.{IsSolution}
use requihash.Verify.Validity.{is_valid_solution_iff}
use requihash.Solve.{solve_reference}
use requihash.Solve.Arena.{solve_arena}
use requihash.Solve.Agree.{solve_arena-eq-reference}
use requihash.Solve.Pointer.{solve_pointer}
use requihash.Solve.Walk.{solve_pointer-eq-reference}
use requihash.Collisions.{merge_round}
use requihash.Solve.Arena.{range}
use requihash.Solve.Bucket.{bucket_round}
use requihash.Solve.Merged.{bucket_round-sorted}
use requihash.Solve.Exact.{solve_reference-exact}

-- BLAKE2b-512 of the empty message begins 78 6a 02 f7.
empty_digest : take 4 (finalize (init 64 (replicate 16 0))) ≡ 0x78 ∷ 0x6a ∷ 0x02 ∷ 0xf7 ∷ []
unfolding init finalize
empty_digest = refl

-- n = 16, k = 1: two leaves of two bytes each, which collide on the first and cancel on both.
abbrev small : Params
small = record { n = 16; k = 1 }

abbrev engine : Requihash
engine = Engine.new small (b'a' ∷ b'b' ∷ []) (1 ∷ 0 ∷ 0 ∷ 0 ∷ [])

abbrev pair : List ℕ
pair = 3 ∷ 7 ∷ []

new-iff_IsValid_example :
    (requihash.Params.new 200 9 ≡ ok (record { n = 200; k = 9 })) ↔ IsValid 200 9
new-iff_IsValid_example = new-iff_IsValid 200 9

all_distinct_iff_example : (all_distinct (7 ∷ 3 ∷ 7 ∷ []) ≡ true) ↔ Distinct (7 ∷ 3 ∷ 7 ∷ [])
all_distinct_iff_example = all_distinct_iff (7 ∷ 3 ∷ 7 ∷ [])

arena_verify-eq-reference_example : arena_verify engine pair ≡ is_valid_solution engine pair
arena_verify-eq-reference_example = arena_verify-eq-reference engine pair

early_verify-eq-reference_example : early_verify engine pair ≡ is_valid_solution engine pair
early_verify-eq-reference_example = early_verify-eq-reference engine pair

is_valid_solution_iff_example : (is_valid_solution engine pair ≡ ok tt) ↔ IsSolution engine pair
is_valid_solution_iff_example = is_valid_solution_iff engine pair

solve_reference-exact_example :
    Elem pair (solve_reference engine) ↔ (is_valid_solution engine pair ≡ ok tt)
solve_reference-exact_example = solve_reference-exact engine pair

slices_distinct_iff_example :
    (slices_distinct (7 ∷ 3 ∷ []) (4 ∷ 3 ∷ []) ≡ true) ↔ Disjoint (7 ∷ 3 ∷ []) (4 ∷ 3 ∷ [])
slices_distinct_iff_example = slices_distinct_iff (7 ∷ 3 ∷ []) (4 ∷ 3 ∷ [])

-- Two indices of twelve bits fill three bytes.
abbrev indices : List ℕ
indices = 300 ∷ 4095 ∷ []

get_indices-get_minimal_example :
    get_indices_from_minimal (get_minimal_from_indices indices 11) 11 ≡ indices
get_indices-get_minimal_example =
    get_indices-get_minimal indices 11 3 (omega arith) (omega arith)
      (omega arith, (omega arith, tt)) (omega arith)

abbrev minimal : List ℕ
minimal = 150 ∷ 1 ∷ 127 ∷ []

get_minimal-get_indices_example :
    get_minimal_from_indices (get_indices_from_minimal minimal 11) 11 ≡ minimal
get_minimal-get_indices_example =
    get_minimal-get_indices minimal 11 2 (omega arith) (omega arith)
      (omega arith, (omega arith, (omega arith, tt))) (omega arith)

valid_n-exact_example : (ns : List ℕ) × (valid_n 9 ≡ ok ns) × ((n : ℕ) → Elem n ns ↔ IsValid n 9)
valid_n-exact_example = valid_n-exact 9 (omega arith)

-- `2 ^ 32 - 1` wraps to `k + 1 = 0`, and the range divides by zero.
n_bounds_wraps : n_bounds (2 ^ 32 - 1) ≡ panic
unfolding n_bounds lcm_8 gcd gcd_loop
n_bounds_wraps = refl

-- For `k + 1 = 2 ^ 29`, `8 * (k + 1)` wraps to 0, and a range is returned that no `n` is in.
n_bounds_zero : n_bounds (2 ^ 29 - 1) ≡ ok (some (0, 0))
unfolding n_bounds lcm_8 gcd gcd_loop
n_bounds_zero = refl

abbrev start : State
start = init 64 (replicate 16 0)

update-append_example :
    update start ((b'a' ∷ b'b' ∷ []) ++ (b'c' ∷ []))
    ≡ update (update start (b'a' ∷ b'b' ∷ [])) (b'c' ∷ [])
unfolding init
update-append_example = update-append start (b'a' ∷ b'b' ∷ []) (b'c' ∷ []) (omega arith)

leaf_row_into-message_example :
    leaf_row_into engine 5 (0 ∷ 0 ∷ [])
    ≡ expand_array_into
        (take (small.n / 8) (
          finalize (
            update (init (hash_output small) (person small)) (
              (b'a' ∷ b'b' ∷ [])
              ++ ((1 ∷ 0 ∷ 0 ∷ 0 ∷ []) ++ (le_bytes (5 % small.k) ++ le_bytes (5 / small.k)))))))
        (0 ∷ 0 ∷ [])
        (collision_bit_length small)
        0
leaf_row_into-message_example =
    leaf_row_into-message small (b'a' ∷ b'b' ∷ []) (1 ∷ 0 ∷ 0 ∷ 0 ∷ []) 5 (0 ∷ 0 ∷ [])

solve_arena-eq-reference_example : solve_arena engine ≡ solve_reference engine
solve_arena-eq-reference_example = solve_arena-eq-reference engine

solve_pointer-eq-reference_example : solve_pointer engine ≡ solve_reference engine
solve_pointer-eq-reference_example = solve_pointer-eq-reference engine

-- Four rows in two buckets, told apart by their parity.
abbrev parity : ℕ → List ℕ
parity r = (r % 2) ∷ []

abbrev sum_rows : ℕ → ℕ → Option ℕ
sum_rows a b = some (a + b)

bucket_round-sorted_example :
    bucket_round sum_rows parity (λ r. r % 2) 2 4 ≡ merge_round sum_rows parity (range 0 4)
bucket_round-sorted_example =
    bucket_round-sorted sum_rows parity (λ r. r % 2) 2 4
      (λ x y hx hy. list_lt_single (x % 2) (y % 2)) (λ x y hx hy. list_eq_single (x % 2) (y % 2))
      (λ x h. omega arith)
