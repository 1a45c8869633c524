-- ===== src/Examples/Khovratovich.antt =====
-- Khovratovich's solver at concrete inputs.
use requihash.Base.{
  ℕ, zero, suc, ◌+◌, ◌/◌, ◌%◌, ◌^◌, ◌≤◌, ◌<◌, ◌≡◌, ◌≢◌, ◌↔◌, ◌⊎◌, refl, Bool, true, List, [], ◌∷◌,
  length, length-replicate, replicate, arith,
}
use requihash.Outcome.{ok, err, panic, Returns}
use requihash.Distinct.{Distinct}
use requihash.KList.Values.{Bytes}
use requihash.Khovratovich.{
  Tuple, Proof, Equihash, k_below_1, not_divisible, ell_above_32, max_nonce, list_length, check_nk,
  block_bits, new_tuple, test, fill_memory, single_attempt, find_proof,
}
use requihash.Khovratovich.Tables.{empty-Shape, empty-Contents}
use requihash.Khovratovich.Leaves.{IsDigest, sum}
use requihash.Khovratovich.Filling.{Fits, state, IsLeaf, Leaves, IsFilled, fill_memory-IsFilled}
use requihash.Khovratovich.Attempts.{IsAttempt, single_attempt-IsAttempt}
use requihash.Khovratovich.Checks.{test_iff}
use requihash.Khovratovich.Search.{find_proof-test}
use requihash.Khovratovich.Overrun.{check_nk_iff, single_attempt_panic}

-- A hash that adds up the message stands for that of the library.
abbrev add_up : List ℕ → ℕ
add_up [] = 0
add_up (b ∷ bytes) = b + add_up bytes

abbrev toy_hash : List ℕ → List ℕ
toy_hash message = replicate 32 (add_up message % 256)

replicate-Bytes : (n b : ℕ) → b < 256 → Bytes (replicate n b)
replicate-Bytes zero b h = tt
replicate-Bytes (suc n) b h = (h, replicate-Bytes n b h)

toy_hash-IsDigest : IsDigest toy_hash
toy_hash-IsDigest message = (
  length-replicate 32 (add_up message % 256),
  replicate-Bytes 32 (add_up message % 256) (omega arith),
)

-- n = 16, k = 1: blocks of eight bits.
abbrev solver : Equihash
solver = record {
  tuple_list = [];
  filled_list = [];
  solutions = [];
  forks = [];
  n = 16;
  k = 1;
  seed = 3 ∷ 3 ∷ 3 ∷ 3 ∷ [];
  nonce = 0;
}

solver-Fits : Fits 16 1
unfolding block_bits
solver-Fits = record {
  some_rounds = omega arith;
  few_blocks = omega arith;
  some_bits = omega arith;
  few_bits = omega arith;
}

find_proof-test_example :
    (proof : Proof) × (find_proof toy_hash solver ≡ ok proof)
    × (((proof.inputs ≡ []) × (proof.nonce ≡ max_nonce))
        ⊎ ((length proof.inputs ≡ 2)
            × Distinct proof.inputs
            × (proof.nonce ≤ max_nonce)
            × (test toy_hash proof ≡ ok true)))
find_proof-test_example = find_proof-test toy_hash toy_hash-IsDigest solver solver-Fits

single_attempt-IsAttempt_example :
    Returns
      (IsAttempt toy_hash toy_hash-IsDigest 16 1 solver-Fits (3 ∷ 3 ∷ 3 ∷ 3 ∷ []) 2 1 0)
      (single_attempt toy_hash 2 solver)
single_attempt-IsAttempt_example =
    single_attempt-IsAttempt toy_hash toy_hash-IsDigest solver solver-Fits 2

abbrev empty_list : List (List Tuple)
empty_list = replicate (2 ^ block_bits 16 1) (replicate list_length (new_tuple 1))

abbrev empty_counts : List ℕ
empty_counts = replicate (2 ^ block_bits 16 1) 0

empty-Leaves :
    Leaves toy_hash toy_hash-IsDigest 16 1 solver-Fits
      (3 ∷ 3 ∷ 3 ∷ 3 ∷ [])
      2
      empty_list
      empty_counts
empty-Leaves = record {
  shape = empty-Shape (2 ^ block_bits 16 1) 1;
  contents =
      empty-Contents (2 ^ block_bits 16 1) 1
        (IsLeaf toy_hash toy_hash-IsDigest 16 1 solver-Fits (3 ∷ 3 ∷ 3 ∷ 3 ∷ []) 2) empty_list;
}

fill_memory-IsFilled_example :
    Returns (IsFilled toy_hash toy_hash-IsDigest 16 1 solver-Fits (3 ∷ 3 ∷ 3 ∷ 3 ∷ []) 2) (
      fill_memory toy_hash 0 512 (
        state toy_hash toy_hash-IsDigest 16 1 solver-Fits
          (3 ∷ 3 ∷ 3 ∷ 3 ∷ [])
          2
          empty_list
          empty_counts
          []
          []))
fill_memory-IsFilled_example =
    fill_memory-IsFilled toy_hash toy_hash-IsDigest 16 1 solver-Fits (3 ∷ 3 ∷ 3 ∷ 3 ∷ []) 2 0 512
      empty_list empty_counts empty-Leaves

abbrev two_inputs : Proof
two_inputs = record { n = 16; k = 1; seed = 3 ∷ 3 ∷ 3 ∷ 3 ∷ []; nonce = 2; inputs = 1 ∷ 256 ∷ [] }

test_iff_example :
    (accepted : Bool) × (test toy_hash two_inputs ≡ ok accepted)
    × ((accepted ≡ true) ↔ (
        (two_inputs.inputs ≢ [])
        × ((q : ℕ)
            → q < 2
            → sum toy_hash two_inputs.seed 2 (block_bits 16 1) q two_inputs.inputs ≡ 0)))
test_iff_example = test_iff toy_hash two_inputs (omega arith)

check_nk_iff_example :
    ((check_nk 60 4 ≡ ok tt) ↔ ((1 ≤ 4) × (60 % 5 ≡ 0) × (60 / 5 ≤ 32)))
    × ((check_nk 60 4 ≡ err k_below_1) ↔ ◌≡◌ {A = ℕ} 4 0)
    × ((check_nk 60 4 ≡ err (not_divisible 5 60)) ↔ ((1 ≤ 4) × (60 % 5 ≢ 0)))
    × ((check_nk 60 4 ≡ err (ell_above_32 (60 / 5))) ↔ ((1 ≤ 4) × (60 % 5 ≡ 0) × (32 < 60 / 5)))
check_nk_iff_example = check_nk_iff 60 4 (omega arith)

-- `check_nk` accepts (72, 8).
check_nk_overrun : check_nk 72 8 ≡ ok tt
unfolding check_nk
check_nk_overrun = refl

abbrev wide_solver : Equihash
wide_solver = record solver { n = 72; k = 8 }

eight_bits : block_bits 72 8 ≡ 8
unfolding block_bits
eight_bits = refl

single_attempt_panic_example : single_attempt toy_hash 2 wide_solver ≡ panic
single_attempt_panic_example =
    single_attempt_panic toy_hash toy_hash-IsDigest wide_solver 2 (omega arith)
      (omega (arith, eight_bits)) (omega (arith, eight_bits))
