-- ===== src/LeafHash.antt =====
-- Req/rust/src/hash/mod.rs and scalar.rs: the seam through which leaves are hashed, its reference back
-- end and the choice of a back end. An output buffer is a list that a call takes and returns.
pub mod Batches
pub mod Choice
use requihash.Base.{
  ℕ, zero, suc, ◌+◌, ◌*◌, ◌/◌, ◌%◌, Bool, true, false, ltb, ◌==◌, list_eq, if◌then◌else◌, List, [],
  ◌∷◌, ◌++◌, map, length, take, drop, replicate,
}
use requihash.Outcome.{Outcome, ok, panic, ◌>>=◌}
use requihash.Blake2b.{init, update, finalize}
use requihash.Engine.{le_bytes}
use requihash.Solve.Arena.{range}

-- The trait; a back end may bring its own `hash_many`.
pub record LeafHasher : Type 0 where
  pub output_len : ℕ
  pub hash_one : List ℕ → List ℕ → ℕ → ℕ → List ℕ → Outcome (Unit {0}) (List ℕ)
  pub hash_many : List ℕ → List ℕ → List (ℕ × ℕ) → List ℕ → Outcome (Unit {0}) (List ℕ)

module _ (n : ℕ) (hash_one : List ℕ → List ℕ → ℕ → ℕ → List ℕ → Outcome (Unit {0}) (List ℕ)) where
  -- The loop of the default `hash_many`, from the key `i` on; the slice of `out` is checked.
  unfoldable pub many_loop :
      List ℕ → List ℕ → ℕ → List (ℕ × ℕ) → List ℕ → Outcome (Unit {0}) (List ℕ)
  many_loop person prefix i [] out = ok out
  many_loop person prefix i (key ∷ keys) out = if ltb (length out) ((i + 1) * n) then panic else (do
    digest ← hash_one person prefix (key.0) (key.1) (take n (drop (i * n) out))
    many_loop person prefix (i + 1) keys (take (i * n) out ++ (digest ++ drop ((i + 1) * n) out)))

-- `Blake2bScalar::hash_one`; `finalize` cannot take more than 64 bytes from its state.
unfoldable pub scalar_one : List ℕ → List ℕ → ℕ → ℕ → List ℕ → Outcome (Unit {0}) (List ℕ)
scalar_one person prefix class counter out =
    let s = update (update (init (length out) person) prefix) (le_bytes class) in
    if ltb 64 (length out) then panic else ok (finalize (update s (le_bytes counter)))

unfoldable pub blake2b_scalar : LeafHasher
blake2b_scalar = record {
  output_len = 64;
  hash_one = scalar_one;
  hash_many = λ person prefix keys out. many_loop 64 scalar_one person prefix 0 keys out;
}

abbrev pub self_test_person : List ℕ
self_test_person =
    b'R' ∷ b'e' ∷ b'q' ∷ b'P' ∷ b'o' ∷ b'W' ∷ 0 ∷ 0 ∷ 0 ∷ 0 ∷ 0x60 ∷ 0 ∷ 0 ∷ 0 ∷ 5 ∷ 0 ∷ []

abbrev pub self_test_prefix : List ℕ
self_test_prefix =
    b's' ∷ b'e' ∷ b'l' ∷ b'f' ∷ b'-' ∷ b't' ∷ b'e' ∷ b's' ∷ b't' ∷ b'-' ∷ b'p' ∷ b'r' ∷ b'e' ∷ b'f'
    ∷ b'i' ∷ b'x' ∷ []

abbrev pub self_test_keys : List (ℕ × ℕ)
self_test_keys = map (λ (i : ℕ). (i % 5, i / 5)) (range 0 64)

unfoldable pub agrees_with_reference : LeafHasher → LeafHasher → Outcome (Unit {0}) Bool
agrees_with_reference reference cand =
    let n = reference.output_len in
    if n == cand.output_len
    then (do
      a ←
          reference.hash_many self_test_person self_test_prefix self_test_keys
            (replicate (64 * n) 0)
      b ← cand.hash_many self_test_person self_test_prefix self_test_keys (replicate (64 * n) 0)
      ok (list_eq a b))
    else ok false

-- The loop over the candidates.
unfoldable pub first_agreeing : LeafHasher → List LeafHasher → Outcome (Unit {0}) LeafHasher
first_agreeing reference [] = ok reference
first_agreeing reference (c ∷ candidates) = do
  same ← agrees_with_reference reference c
  (if same then ok c else first_agreeing reference candidates)

-- `autodetect`, for the candidates that the build has.
unfoldable pub autodetect : List LeafHasher → Outcome (Unit {0}) LeafHasher
autodetect candidates = first_agreeing blake2b_scalar candidates
