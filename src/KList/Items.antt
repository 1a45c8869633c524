-- ===== src/KList/Items.antt =====
-- The items of the lists, where the hash gives them.
use requihash.Base.{
  ℕ, zero, suc, ◌+◌, ◌-◌, ◌*◌, ◌%◌, ◌^◌, ◌≤◌, ◌<◌, ◌≡◌, refl, ◌⊎◌, ltb-≥, List, [], ◌∷◌, length,
  arith,
}
use requihash.Base.Pow.{pow-le}
use requihash.Outcome.{Outcome, ok, err, panic}
use requihash.KList.{
  HashItem, KListWagnerAlgorithm, Message, with_capacity, compute_item, items_from,
  compute_hash_list,
}
use requihash.KList.Values.{Bytes}

-- At this size every digest is given, has the length asked for, and consists of bytes.
abbrev pub IsDigest : (ℕ → List ℕ → Outcome Message (List ℕ)) → ℕ → Type 0
IsDigest hash size =
    (message : List ℕ)
    → (digest : List ℕ) × (hash size message ≡ ok digest) × (length digest ≡ size) × Bytes digest

-- What blake2b_simd documents: lengths from 1 to 64 are given, and others are a panic.
pub record IsBlake2b (hash : ℕ → List ℕ → Outcome Message (List ℕ)) : Type 0 where
  pub digests : (size : ℕ) → 1 ≤ size → size ≤ 64 → IsDigest hash size
  pub refuses :
      (size : ℕ) → (size ≡ 0) ⊎ (64 < size) → (message : List ℕ) → hash size message ≡ panic

abbrev pub bytes_of : Outcome Message (List ℕ) → List ℕ
bytes_of (ok bytes) = bytes
bytes_of (err e) = []
bytes_of panic = []

given :
    (m : Outcome Message (List ℕ)) {size : ℕ}
    → (digest : List ℕ) × (m ≡ ok digest) × (length digest ≡ size) × Bytes digest
    → (m ≡ ok (bytes_of m)) × (length (bytes_of m) ≡ size) × Bytes (bytes_of m)
given m (digest, e, size, bytes) = rw e (refl, size, bytes)

module _ (hash : ℕ → List ℕ → Outcome Message (List ℕ)) (alg : KListWagnerAlgorithm) where
  abbrev pub item : ℕ → ℕ → List ℕ
  item i j = bytes_of (compute_item hash alg i j)

  abbrev pub leaf : ℕ → ℕ → HashItem
  leaf i j = record { value = item i j; index_vector = j ∷ [] }

  -- The items of list `i` with the numbers `j` to `j + left`.
  unfoldable pub leaves : ℕ → ℕ → ℕ → List HashItem
  leaves i j zero = []
  leaves i j (suc left) = leaf i (j % 2 ^ 32) ∷ leaves i (j + 1) left

  pub item-digest :
      IsDigest hash alg.hash_size
      → (i j : ℕ)
      → (compute_item hash alg i j ≡ ok (item i j))
        × (length (item i j) ≡ alg.hash_size)
        × Bytes (item i j)
  unfolding compute_item
  item-digest digest i j = given (compute_item hash alg i j) (digest _)

  items_from-leaves :
      IsDigest hash alg.hash_size
      → (i j left : ℕ) → items_from hash alg i j left ≡ ok (leaves i j left)
  unfolding items_from leaves
  items_from-leaves digest i j zero = refl
  items_from-leaves digest i j (suc left) =
      rw ((item-digest digest i (j % 2 ^ 32)).0, items_from-leaves digest i (j + 1) left)

  -- A list of at most 2 ^ 32 items is made.
  pub compute_hash_list-leaves :
      IsDigest hash alg.hash_size
      → alg.ell ≤ 32
      → (i : ℕ) → compute_hash_list hash alg i ≡ ok (leaves i 0 (2 ^ (alg.ell % 64)))
  unfolding compute_hash_list with_capacity
  compute_hash_list-leaves digest narrow i =
      let few = pow-le (alg.ell % 64) 32 (omega arith) in
      rw (
        ltb-≥ (2 ^ 63 - 1) (2 ^ (alg.ell % 64) * 48) (omega arith),
        items_from-leaves digest i 0 (2 ^ (alg.ell % 64)),
      )
