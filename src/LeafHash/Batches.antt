-- ===== src/LeafHash/Batches.antt =====
-- What the scalar back end writes, for one leaf and for a batch.
use requihash.Base.{
  ℕ, suc, ◌+◌, ◌*◌, ◌/◌, ◌%◌, ◌≤◌, ◌≡◌, refl, sym, ap, ◌∙◌, ltb-≥, take-append-drop, List, [], ◌∷◌,
  ◌++◌, length, length-append, length-take, length-drop, take, drop, take_append, drop_append,
  arith,
}
use requihash.Outcome.{Outcome, ok}
use requihash.Params.{Params, collision_bit_length, hash_output, person}
use requihash.Blake2b.{State, init, update, finalize}
use requihash.Blake2b.Digest.{init-HasShape, update-HasShape, finalize-bytes}
use requihash.Blake2b.Streaming.{update-append}
use requihash.Packing.{expand_array_into}
use requihash.Engine.{new, le_bytes, leaf_row_into}
use requihash.Engine.Message.{init-room}
use requihash.LeafHash.{many_loop, scalar_one, blake2b_scalar}
use native.Mathlib.Nat.{add-mul, suc-mul, div-mul-le_self, mul-le-mul_left, mul_assoc}
use mathlib.Core.List.{append_assoc}

-- The digests of the keys, one behind the other.
abbrev pub rows_of : (ℕ → ℕ → List ℕ) → List (ℕ × ℕ) → List ℕ
rows_of row [] = []
rows_of row (key ∷ keys) = row (key.0) (key.1) ++ rows_of row keys

-- On a buffer of `n` bytes `hash_one` writes the `n` bytes of `row`.
abbrev pub Writes : ℕ → (ℕ → ℕ → List ℕ → Outcome (Unit {0}) (List ℕ)) → (ℕ → ℕ → List ℕ) → Type 0
Writes n hash_one row =
    (class counter : ℕ) (out : List ℕ)
    → length out ≡ n
    → (hash_one class counter out ≡ ok (row class counter)) × (length (row class counter) ≡ n)

module _ (n : ℕ) (hash_one : List ℕ → List ℕ → ℕ → ℕ → List ℕ → Outcome (Unit {0}) (List ℕ))
    (person prefix : List ℕ) (row : ℕ → ℕ → List ℕ)
    (writes : Writes n (hash_one person prefix) row) where
  many_loop-rows :
      (i : ℕ) (keys : List (ℕ × ℕ)) (done rest : List ℕ)
      → length done ≡ i * n
      → length rest ≡ length keys * n
      → many_loop n hash_one person prefix i keys (done ++ rest) ≡ ok (done ++ rows_of row keys)
  unfolding many_loop
  many_loop-rows i [] done [] size room = refl
  many_loop-rows i [] done (x ∷ rest) size room = absurd (omega arith)
  many_loop-rows i (key ∷ keys) done rest size room =
      let more : (i + 1) * n ≡ i * n + n = add-mul i 1 n ∙ omega arith in
      let all : suc (length keys) * n ≡ length keys * n + n = suc-mul (length keys) n in
      let whole = length-append done rest in
      let taken = length-take n rest in
      let (written, row_size) = writes (key.0) (key.1) (take n rest) (omega arith) in
      let behind : drop ((i + 1) * n) (done ++ rest) ≡ drop n rest =
        ap (λ t. drop ((i + 1) * n) (done ++ t)) (sym (take-append-drop n rest))
        ∙ ap (drop ((i + 1) * n)) (sym (append_assoc done (take n rest) (drop n rest)))
        ∙ drop_append (done ++ take n rest) (drop n rest) ((i + 1) * n)
            (omega (arith, length-append done (take n rest))) in
      rw
        (
          ltb-≥ (length (done ++ rest)) ((i + 1) * n) (omega arith),
          drop_append done rest (i * n) (sym size),
          written,
          take_append done rest (i * n) (sym size),
          behind,
          sym (append_assoc done (row (key.0) (key.1)) (drop n rest)),
          sym (append_assoc done (row (key.0) (key.1)) (rows_of row keys)),
        )
        (many_loop-rows (i + 1) keys (done ++ row (key.0) (key.1)) (drop n rest)
          (omega (arith, length-append done (row (key.0) (key.1))))
          (omega (arith, length-drop n rest)))

-- The digest that the scalar back end writes for a leaf, into a buffer of `n` bytes.
abbrev pub scalar_row : ℕ → List ℕ → List ℕ → ℕ → ℕ → List ℕ
scalar_row n person prefix class counter =
    finalize (update (update (update (init n person) prefix) (le_bytes class)) (le_bytes counter))

pub scalar_one-Writes :
    (n : ℕ) (person prefix : List ℕ)
    → n ≤ 64
    → Writes n (scalar_one person prefix) (scalar_row n person prefix)
unfolding scalar_one
scalar_one-Writes n person prefix few class counter out size =
    rw (size, ltb-≥ 64 n few)
      (
        refl,
        (finalize-bytes n _ few (
            update-HasShape n _ (le_bytes counter) (
              update-HasShape n _ (le_bytes class)
                (update-HasShape n _ prefix (init-HasShape n person))))).0,
      )

-- A batch of the scalar back end does not panic on a buffer of 64 bytes for each key, and writes each
-- key's own digest in its place.
pub blake2b_scalar-rows :
    (person prefix : List ℕ) (keys : List (ℕ × ℕ)) (out : List ℕ)
    → length out ≡ length keys * 64
    → blake2b_scalar.hash_many person prefix keys out
      ≡ ok (rows_of (scalar_row 64 person prefix) keys)
unfolding blake2b_scalar
blake2b_scalar-rows person prefix keys out size =
    many_loop-rows 64 scalar_one person prefix (scalar_row 64 person prefix)
      (scalar_one-Writes 64 person prefix (omega arith)) 0 keys [] out refl size

hash_output_le : (p : Params) → hash_output p ≤ 64
unfolding hash_output
hash_output_le p =
    let whole = div-mul-le_self 512 p.n in
    let part : 512 / p.n * (p.n / 8 * 8) ≤ 512 / p.n * p.n =
      mul-le-mul_left (512 / p.n) (div-mul-le_self p.n 8) in
    let regroup : 512 / p.n * (p.n / 8) * 8 ≡ 512 / p.n * (p.n / 8 * 8) = mul_assoc _ _ _ in
    omega (arith, whole, part, regroup)

-- Keyed with an engine's personalization, its input and nonce and a leaf's list class and counter, the
-- back end writes, without a panic, the digest from which the engine expands the leaf's row.
pub scalar_one-leaf_row_into :
    (p : Params) (input nonce : List ℕ) (leaf : ℕ) (out row : List ℕ)
    → length out ≡ hash_output p
    → (digest : List ℕ) × (blake2b_scalar.hash_one
          (person p)
          (input ++ nonce)
          (leaf % p.k)
          (leaf / p.k)
          out
        ≡ ok digest)
      × (leaf_row_into (new p input nonce) leaf row
          ≡ expand_array_into (take (p.n / 8) digest) row (collision_bit_length p) 0)
unfolding new leaf_row_into blake2b_scalar
scalar_one-leaf_row_into p input nonce leaf out row size =
    let (written, length) =
      scalar_one-Writes (hash_output p) (person p) (input ++ nonce) (hash_output_le p) (leaf % p.k)
        (leaf / p.k) out size in
    (
      scalar_row (hash_output p) (person p) (input ++ nonce) (leaf % p.k) (leaf / p.k),
      written,
      sym (
          ap
            (λ (t : State).
              expand_array_into
                (take (p.n / 8)
                  (finalize (update (update t (le_bytes (leaf % p.k))) (le_bytes (leaf / p.k)))))
                row (collision_bit_length p) 0)
            (update-append (init (hash_output p) (person p)) input nonce
              (rw (init-room (hash_output p) (person p)) (omega arith)))),
    )
