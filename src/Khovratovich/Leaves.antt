-- ===== src/Khovratovich/Leaves.antt =====
-- The blocks of leaves, and what a tuple stands for.
use requihash.Base.{
  ℕ, zero, suc, ◌+◌, ◌-◌, ◌*◌, ◌%◌, ◌^◌, ◌≤◌, ◌<◌, bit_xor, ◌≡◌, ◌≢◌, refl, sym, ap, ◌∙◌, List, [],
  ◌∷◌, ◌++◌, length, length-set, get_or, set, arith,
}
use requihash.Base.Bits.{pow_pos, zero-bit_xor, bit_xor_assoc}
use requihash.Base.Pow.{div-lt_pow}
use requihash.Base.Xor.{bit_xor_lt}
use requihash.Outcome.{ok, Returns}
use requihash.Indexing.{write, read-get_or, write-set, get_or-set_self, get_or-set_other}
use requihash.Engine.{le_bytes}
use requihash.KList.Values.{Bytes}
use requihash.Khovratovich.{
  Tuple, Refusal, top_bits, le_words, fill_blocks, xor_blocks, hash_leaf, seed_bytes,
}
use native.Mathlib.Decide.{ℕ_discrete}

-- What the solver relies on of the hash.
abbrev pub IsDigest : (List ℕ → List ℕ) → Type 0
IsDigest hash = (message : List ℕ) → (length (hash message) ≡ 32) × Bytes (hash message)

get_or-Bytes : (v : List ℕ) (i : ℕ) → Bytes v → get_or v i 0 < 256
get_or-Bytes [] i h = omega arith
get_or-Bytes (b ∷ v) zero h = h.0
get_or-Bytes (b ∷ v) (suc i) h = get_or-Bytes v i h.1

length-le_words : (bytes : List ℕ) (i left : ℕ) → length (le_words bytes i left) ≡ left
unfolding le_words
length-le_words bytes i zero = refl
length-le_words bytes i (suc left) = ap suc (length-le_words bytes (i + 1) left)

le_words-lt :
    (bytes : List ℕ) (i left q : ℕ) → Bytes bytes → get_or (le_words bytes i left) q 0 < 2 ^ 32
unfolding le_words
le_words-lt bytes i zero q h = omega arith
le_words-lt bytes i (suc left) zero h = omega (
  arith,
  get_or-Bytes bytes (i * 4) h,
  get_or-Bytes bytes (i * 4 + 1) h,
  get_or-Bytes bytes (i * 4 + 2) h,
  get_or-Bytes bytes (i * 4 + 3) h,
)
le_words-lt bytes i (suc left) (suc q) h = le_words-lt bytes (i + 1) left q h

-- `buf[q] >> (32 - bits)` is a number of `bits` bits.
top_bits_lt : (bits x : ℕ) → 1 ≤ bits → bits ≤ 32 → x < 2 ^ 32 → top_bits bits x < 2 ^ bits
unfolding top_bits
top_bits_lt bits x lo hi hx =
    let amount : (32 + 2 ^ 32 - bits) % 2 ^ 32 % 32 ≡ 32 - bits = omega arith in
    let whole : (32 - bits) + bits ≡ 32 = omega arith in
    rw amount (div-lt_pow x (32 - bits) bits (rw whole hx))

-- `for l in 0..new_blocks`: the blocks behind the first, block by block.
pub xor_blocks_lem :
    (a b : Tuple) (l left : ℕ) (t : Tuple)
    → l + left ≡ length t.blocks
    → length a.blocks ≡ suc (length t.blocks)
    → length b.blocks ≡ suc (length t.blocks)
    → Returns
        (λ (t' : Tuple).
          (length t'.blocks ≡ length t.blocks)
          × ((j : ℕ) → j < l → get_or t'.blocks j 0 ≡ get_or t.blocks j 0)
          × ((j : ℕ)
              → l ≤ j
              → j < length t.blocks
              → get_or t'.blocks j 0
                ≡ bit_xor (get_or a.blocks (j + 1) 0) (get_or b.blocks (j + 1) 0)))
        (xor_blocks a b l left t)
unfolding xor_blocks
xor_blocks_lem a b l zero t e ea eb =
    (t, refl, (refl, λ j h. refl, λ j lo hi. absurd (omega arith)))
xor_blocks_lem a b l (suc left) t e ea eb =
    let x : ℕ = bit_xor (get_or a.blocks (l + 1) 0) (get_or b.blocks (l + 1) 0) in
    let in_range : l < length t.blocks = omega arith in
    let t1 : Tuple = record t { blocks = set t.blocks l x } in
    let same = length-set t.blocks l x in
    let (t', e', (size, before, after)) =
      xor_blocks_lem a b (l + 1) left t1 (omega arith) (omega arith) (omega arith) in
    (
      t',
      rw
          (
            read-get_or {E = Refusal} a.blocks (l + 1) 0 (omega arith),
            read-get_or {E = Refusal} b.blocks (l + 1) 0 (omega arith),
            write-set {E = Refusal} t.blocks l x in_range,
          )
          e',
      (
        size ∙ same,
        λ j h.
            before j (omega arith)
            ∙ get_or-set_other t.blocks l j x 0 (λ (p : l ≡ j). absurd (omega arith)),
        λ j lo hi. elim (ℕ_discrete l j) [
          | yes p ↦
              before j (omega arith)
              ∙ ap (λ i. get_or (set t.blocks l x) i 0) (sym p)
              ∙ get_or-set_self t.blocks l x 0 in_range
              ∙ ap (λ i. bit_xor (get_or a.blocks (i + 1) 0) (get_or b.blocks (i + 1) 0)) p
          | no ne ↦
              let later : l ≢ j → l + 1 ≤ j = λ n. omega arith in after j (later ne) (omega arith)
        ],
      ),
    )

write_before :
    (v : List ℕ) (l x : ℕ) → l < length v → write {E = Refusal} v (l + 1 - 1) x ≡ ok (set v l x)
write_before v l x h =
    let place : l + 1 - 1 ≡ l = omega arith in ap (λ i. write v i x) place ∙ write-set v l x h

-- `for j in 1..(k + 1)`, from the block `l` on.
pub fill_blocks_lem :
    (bits : ℕ) (buf : List ℕ) (l left : ℕ) (t : Tuple)
    → l + left ≡ length t.blocks
    → length t.blocks < length buf
    → Returns
        (λ (t' : Tuple).
          (length t'.blocks ≡ length t.blocks)
          × ((j : ℕ) → j < l → get_or t'.blocks j 0 ≡ get_or t.blocks j 0)
          × ((j : ℕ)
              → l ≤ j
              → j < length t.blocks
              → get_or t'.blocks j 0 ≡ top_bits bits (get_or buf (j + 1) 0)))
        (fill_blocks bits buf (l + 1) left t)
unfolding fill_blocks
fill_blocks_lem bits buf l zero t e eb =
    (t, refl, (refl, λ j h. refl, λ j lo hi. absurd (omega arith)))
fill_blocks_lem bits buf l (suc left) t e eb =
    let x : ℕ = top_bits bits (get_or buf (l + 1) 0) in
    let in_range : l < length t.blocks = omega arith in
    let t1 : Tuple = record t { blocks = set t.blocks l x } in
    let same = length-set t.blocks l x in
    let (t', e', (size, before, after)) =
      fill_blocks_lem bits buf (l + 1) left t1 (omega arith) (omega arith) in
    (
      t',
      rw (read-get_or {E = Refusal} buf (l + 1) 0 (omega arith), write_before t.blocks l x in_range)
          e',
      (
        size ∙ same,
        λ j h.
            before j (omega arith)
            ∙ get_or-set_other t.blocks l j x 0 (λ (p : l ≡ j). absurd (omega arith)),
        λ j lo hi. elim (ℕ_discrete l j) [
          | yes p ↦
              before j (omega arith)
              ∙ ap (λ i. get_or (set t.blocks l x) i 0) (sym p)
              ∙ get_or-set_self t.blocks l x 0 in_range
              ∙ ap (λ i. top_bits bits (get_or buf (i + 1) 0)) p
          | no ne ↦
              let later : l ≢ j → l + 1 ≤ j = λ n. omega arith in after j (later ne) (omega arith)
        ],
      ),
    )

module _ (hash : List ℕ → List ℕ) (seed : List ℕ) (nonce bits : ℕ) where
  -- Block `q` of a leaf.
  abbrev pub block : ℕ → ℕ → ℕ
  block leaf q = top_bits bits (get_or (hash_leaf hash seed nonce leaf) q 0)

  -- The exclusive or of the blocks `q` of the leaves.
  abbrev pub sum : ℕ → List ℕ → ℕ
  sum q [] = 0
  sum q (leaf ∷ leaves) = bit_xor (block leaf q) (sum q leaves)

  pub sum-append : (q : ℕ) (v w : List ℕ) → sum q (v ++ w) ≡ bit_xor (sum q v) (sum q w)
  sum-append q [] w = sym (zero-bit_xor (sum q w))
  sum-append q (leaf ∷ v) w =
      ap (bit_xor (block leaf q)) (sum-append q v w)
      ∙ sym (bit_xor_assoc (block leaf q) (sum q v) (sum q w))

  pub length-hash_leaf : (leaf : ℕ) → length (hash_leaf hash seed nonce leaf) ≡ 8
  unfolding hash_leaf
  length-hash_leaf leaf =
      length-le_words (hash (seed_bytes seed ++ (le_bytes nonce ++ le_bytes leaf))) 0 8

  -- A tuple of a round: its bucket and its blocks are sums of blocks of its leaves, and the blocks
  -- of the rounds before cancel.
  pub record Represents (round index : ℕ) (t : Tuple) (leaves : List ℕ) : Type 0 where
    pub size : length leaves ≡ 2 ^ round
    pub cleared : (q : ℕ) → q < round → sum q leaves ≡ 0
    pub bucket : sum round leaves ≡ index
    pub rest : (l : ℕ) → l < length t.blocks → get_or t.blocks l 0 ≡ sum (round + 1 + l) leaves

  module _ (digest : IsDigest hash) (some_bits : 1 ≤ bits) (word_bits : bits ≤ 32) where
    pub block_lt : (leaf q : ℕ) → block leaf q < 2 ^ bits
    unfolding hash_leaf
    block_lt leaf q =
        let (size, bytes) = digest _ in
        top_bits_lt bits _ some_bits word_bits (le_words-lt _ 0 8 q bytes)

    pub sum_lt : (q : ℕ) (leaves : List ℕ) → sum q leaves < 2 ^ bits
    sum_lt q [] = pow_pos bits
    sum_lt q (leaf ∷ leaves) =
        bit_xor_lt bits (block leaf q) (sum q leaves) (block_lt leaf q) (sum_lt q leaves)
