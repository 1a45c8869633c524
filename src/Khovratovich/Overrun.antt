-- ===== src/Khovratovich/Overrun.antt =====
-- What `check_nk` accepts, and where the digest has too few words for the parameters it accepts.
use requihash.Base.{
  ℕ, zero, suc, ◌+◌, ◌-◌, ◌*◌, ◌/◌, ◌%◌, ◌^◌, ◌≤◌, ◌<◌, ◌≡◌, ◌≢◌, ap, ◌∙◌, ◌↔◌, false, ◌==◌, List,
  [], length, length-set, get_or, set, replicate, arith,
}
use requihash.Base.Bits.{pow_pos}
use requihash.Base.Pow.{pow-le}
use requihash.Outcome.{ok, err, panic}
use requihash.Indexing.{write, read-get_or, read_panic, write-set, get_or-replicate}
use requihash.Khovratovich.{
  Tuple, Equihash, Refusal, k_below_1, not_divisible, ell_above_32, check_nk, block_bits, top_bits,
  fill_blocks, list_length, new_tuple, hash_leaf, initialize_memory, store_leaf, fill_leaf,
  fill_memory, single_attempt,
}
use requihash.Khovratovich.Tables.{no_tuple, tuple_at, empty-Shape}
use requihash.Khovratovich.Leaves.{IsDigest, block, length-hash_leaf, block_lt}
use native.Mathlib.Decide.{dec_lt}

-- `check_nk` accepts exactly a `k` from 1 on whose `k + 1` divides `n` into parts of at most 32 bits, and
-- its errors come in the order of the rules, for every `k` below 2 ^ 32 - 1.
pub check_nk_iff :
    (n k : ℕ)
    → k + 1 < 2 ^ 32
    → ((check_nk n k ≡ ok tt) ↔ ((1 ≤ k) × (n % (k + 1) ≡ 0) × (n / (k + 1) ≤ 32)))
      × ((check_nk n k ≡ err k_below_1) ↔ (k ≡ 0))
      × ((check_nk n k ≡ err (not_divisible (k + 1) n)) ↔ ((1 ≤ k) × (n % (k + 1) ≢ 0)))
      × ((check_nk n k ≡ err (ell_above_32 (n / (k + 1))))
          ↔ ((1 ≤ k) × (n % (k + 1) ≡ 0) × (32 < n / (k + 1))))
unfolding check_nk
check_nk_iff n k h =
    let word : (k + 1) % 2 ^ 32 ≡ k + 1 = omega arith in
    let some : (k + 1 == 0) ≡ false = ground arith in
    rw (word, some) (ground arith, ground arith, ground arith, ground arith)

-- The word behind the last one is read.
fill_blocks_panic :
    (bits : ℕ) (buf : List ℕ) (left l : ℕ) (t : Tuple)
    → length buf ≡ 8
    → l + left ≡ length t.blocks
    → 8 ≤ l + left
    → l < 8
    → fill_blocks bits buf (l + 1) left t ≡ panic
unfolding fill_blocks
fill_blocks_panic bits buf zero l t eb et h hl = absurd (omega arith)
fill_blocks_panic bits buf (suc left) l t eb et h hl = elim (dec_lt (l + 1) 8) [
  | no ge ↦ rw (read_panic {E = Refusal} buf (l + 1) (omega arith))
  | yes lt ↦
      let x : ℕ = top_bits bits (get_or buf (l + 1) 0) in
      let size = length-set t.blocks l x in
      rw (read-get_or {E = Refusal} buf (l + 1) 0 (omega arith), written t.blocks l x (omega arith))
        (fill_blocks_panic bits buf left (l + 1) (record t { blocks = set t.blocks l x }) eb
          (omega arith) (omega arith) lt)
]
  where
    written :
        (v : List ℕ) (l x : ℕ) → l < length v → write {E = Refusal} v (l + 1 - 1) x ≡ ok (set v l x)
    written v l x h =
        let place : l + 1 - 1 ≡ l = omega arith in ap (λ i. write v i x) place ∙ write-set v l x h

module _ (hash : List ℕ → List ℕ) (digest : IsDigest hash) (eq : Equihash) (nonce : ℕ)
    (many : 8 ≤ eq.k) (some_bits : 1 ≤ block_bits eq.n eq.k)
    (few_bits : block_bits eq.n eq.k ≤ 30) where
  abbrev list : List (List Tuple)
  list = replicate (2 ^ block_bits eq.n eq.k) (replicate list_length (new_tuple eq.k))

  abbrev ready : Equihash
  ready = record {
    tuple_list = list;
    filled_list = replicate (2 ^ block_bits eq.n eq.k) 0;
    solutions = [];
    forks = [];
    n = eq.n;
    k = eq.k;
    seed = eq.seed;
    nonce = nonce;
  }

  -- The first leaf already.
  fill_leaf_panic : fill_leaf hash 0 ready ≡ panic
  unfolding fill_leaf store_leaf
  fill_leaf_panic =
      let shape = empty-Shape (2 ^ block_bits eq.n eq.k) eq.k in
      let words = length-hash_leaf hash eq.seed nonce (block_bits eq.n eq.k) 0 in
      let index : ℕ = block hash eq.seed nonce (block_bits eq.n eq.k) 0 0 in
      let hi =
        block_lt hash eq.seed nonce (block_bits eq.n eq.k) digest some_bits (omega arith) 0 0 in
      let none_yet = get_or-replicate {A = ℕ} (2 ^ block_bits eq.n eq.k) index 0 0 hi in
      let size = shape.sized index 0 hi (omega arith) in
      rw (
        read-get_or {E = Refusal} (hash_leaf hash eq.seed nonce 0) 0 0 (omega arith),
        read-get_or {E = Refusal} {A = ℕ} (replicate (2 ^ block_bits eq.n eq.k) 0) index 0
            (omega (arith, shape.counts)),
        none_yet,
        read-get_or {E = Refusal} list index [] (omega (arith, shape.rows)),
        read-get_or {E = Refusal} (get_or list index []) 0 no_tuple
            (omega (arith, shape.row index hi)),
        fill_blocks_panic (block_bits eq.n eq.k) (hash_leaf hash eq.seed nonce 0) eq.k 0
            (tuple_at list index 0) words (omega arith) (omega arith) (omega arith),
      )

  fill_memory_panic : (count : ℕ) → 0 < count → fill_memory hash 0 count ready ≡ panic
  unfolding fill_memory
  fill_memory_panic zero h = absurd (omega arith)
  fill_memory_panic (suc count) h = rw fill_leaf_panic

  -- With `k` of 8 or more and blocks of 1 to 30 bits, an attempt panics at whatever nonce, for a hash whose
  -- digests are 32 bytes: the blocks of a leaf take more than the eight words of its digest.
  pub single_attempt_panic : single_attempt hash nonce eq ≡ panic
  unfolding single_attempt initialize_memory
  single_attempt_panic =
      let whole : block_bits eq.n eq.k % 64 ≡ block_bits eq.n eq.k = omega arith in
      let amount : (block_bits eq.n eq.k + 2 ^ 32 - 1) % 2 ^ 32 % 32 ≡ block_bits eq.n eq.k - 1 =
        omega arith in
      let wide = pow-le (block_bits eq.n eq.k - 1) 29 (omega arith) in
      let positive = pow_pos (block_bits eq.n eq.k - 1) in
      rw (
        whole,
        amount,
        fill_memory_panic (4 * 2 ^ (block_bits eq.n eq.k - 1) % 2 ^ 32) (omega arith),
      )
