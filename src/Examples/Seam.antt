-- ===== src/Examples/Seam.antt =====
-- Leaf hashing and the instrumented solver at concrete inputs.
use requihash.Base.{
  ℕ, ◌/◌, ◌%◌, ◌≡◌, ◌↔◌, ◌⊎◌, refl, Bool, true, List, [], ◌∷◌, ◌++◌, length, length-replicate, take,
  replicate,
}
use requihash.Base.Elem.{Elem}
use requihash.Outcome.{ok, Returns}
use requihash.Params.{Params, person, hash_output, collision_bit_length, collision_byte_length}
use requihash.Packing.{expand_array_into}
use requihash.Engine as Engine
use requihash.Engine.{Requihash, leaf_row_into}
use requihash.Solve.{solve_reference}
use requihash.Solve.Instrumented.{
  solve_instrumented, IsTally, first_rows, solve_instrumented-eq-reference,
}
use requihash.LeafHash.{LeafHasher, blake2b_scalar, agrees_with_reference, autodetect}
use requihash.LeafHash.Batches.{rows_of, scalar_row, blake2b_scalar-rows, scalar_one-leaf_row_into}
use requihash.LeafHash.Choice.{Passes, Runs, agrees_with_reference_iff, autodetect-Passes}

-- n = 16, k = 1.
abbrev small : Params
small = record { n = 16; k = 1 }

abbrev engine : Requihash
engine = Engine.new small (b'a' ∷ b'b' ∷ []) (1 ∷ 0 ∷ 0 ∷ 0 ∷ [])

solve_instrumented-eq-reference_example :
    (sizes : List ℕ) × (solve_instrumented engine 5 7
      ≡ (solve_reference engine, 5, 7, length (first_rows engine) ∷ sizes))
    × IsTally (collision_byte_length engine.p) engine.p.k (first_rows engine) sizes
solve_instrumented-eq-reference_example = solve_instrumented-eq-reference engine 5 7

abbrev two_keys : List (ℕ × ℕ)
two_keys = (0, 0) ∷ (1, 0) ∷ []

blake2b_scalar-rows_example :
    blake2b_scalar.hash_many (replicate 16 0) (b'a' ∷ []) two_keys (replicate 128 0)
    ≡ ok (rows_of (scalar_row 64 (replicate 16 0) (b'a' ∷ [])) two_keys)
blake2b_scalar-rows_example =
    blake2b_scalar-rows (replicate 16 0) (b'a' ∷ []) two_keys (replicate 128 0) refl

scalar_one-leaf_row_into_example :
    (digest : List ℕ) × (blake2b_scalar.hash_one
        (person small)
        ((b'a' ∷ b'b' ∷ []) ++ (1 ∷ 0 ∷ 0 ∷ 0 ∷ []))
        (5 % 1)
        (5 / 1)
        (replicate (hash_output small) 0)
      ≡ ok digest)
    × (leaf_row_into engine 5 (0 ∷ 0 ∷ [])
        ≡ expand_array_into (take (16 / 8) digest) (0 ∷ 0 ∷ []) (collision_bit_length small) 0)
scalar_one-leaf_row_into_example =
    scalar_one-leaf_row_into small (b'a' ∷ b'b' ∷ []) (1 ∷ 0 ∷ 0 ∷ 0 ∷ []) 5
      (replicate (hash_output small) 0) (0 ∷ 0 ∷ []) (length-replicate (hash_output small) 0)

-- A back end that leaves its buffers as they are.
abbrev idle : LeafHasher
idle = record {
  output_len = 64;
  hash_one = λ person prefix class counter out. ok out;
  hash_many = λ person prefix keys out. ok out;
}

idle-Runs : Runs idle
idle-Runs = (replicate 4096 0, refl)

agrees_with_reference_iff_example :
    (same : Bool) × (agrees_with_reference blake2b_scalar idle ≡ ok same)
    × ((same ≡ true) ↔ Passes idle)
agrees_with_reference_iff_example = agrees_with_reference_iff idle idle-Runs

autodetect-Passes_example :
    Returns (λ h. Passes h × ((h ≡ blake2b_scalar) ⊎ Elem h (idle ∷ []))) (autodetect (idle ∷ []))
autodetect-Passes_example = autodetect-Passes (idle ∷ []) (idle-Runs, tt)
