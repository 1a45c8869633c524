-- ===== src/Khovratovich/Filling.antt =====
-- `fill_memory` does not panic, and puts each leaf it keeps into the bucket of its first block.
use requihash.Base.{
  ℕ, zero, suc, ◌+◌, ◌^◌, ◌≤◌, ◌<◌, ◌≡◌, refl, sym, ap, ◌∙◌, inl, inr, ltb, ltb-<, Bool-cases, List,
  [], ◌∷◌, length, get_or, set, arith,
}
use requihash.Base.Bits.{bit_xor-zero}
use requihash.Outcome.{Outcome, ok, ◌>>=◌, Returns, Returns-bind}
use requihash.Indexing.{read-get_or, write-set}
use requihash.Khovratovich.{
  Tuple, Fork, Proof, Equihash, Refusal, block_bits, fill_blocks, list_length, hash_leaf,
  store_leaf, fill_leaf, fill_memory,
}
use requihash.Khovratovich.Tables.{
  tuple_at, put, Shape, update_at-put, put-Shape, Contents, put-Contents,
}
use requihash.Khovratovich.Leaves.{
  IsDigest, fill_blocks_lem, block, length-hash_leaf, Represents, block_lt,
}
use mathlib.Core.Path.{subst}

-- Parameters for which every access stays in range: at most eight blocks, the words of a digest, and
-- tables whose references fit a u32.
pub record Fits (n k : ℕ) : Type 0 where
  pub some_rounds : 1 ≤ k
  pub few_blocks : k ≤ 7
  pub some_bits : 1 ≤ block_bits n k
  pub few_bits : block_bits n k ≤ 30

module _ (hash : List ℕ → List ℕ) (digest : IsDigest hash) (n k : ℕ) (fits : Fits n k)
    (seed : List ℕ) (nonce : ℕ) where
  abbrev pub bits : ℕ
  bits = block_bits n k

  abbrev pub size : ℕ
  size = 2 ^ block_bits n k

  -- A tuple of the first table stands for its own leaf.
  abbrev pub IsLeaf : ℕ → Tuple → Type 0
  IsLeaf i t = Represents hash seed nonce (block_bits n k) 0 i t (t.reference ∷ [])

  -- A solver with these parameters.
  abbrev pub state : List (List Tuple) → List ℕ → List (List Fork) → List Proof → Equihash
  state list filled forks solutions = record {
    tuple_list = list;
    filled_list = filled;
    solutions = solutions;
    forks = forks;
    n = n;
    k = k;
    seed = seed;
    nonce = nonce;
  }

  -- The first table, well formed, with tuples of leaves in their buckets.
  pub record Leaves (list : List (List Tuple)) (filled : List ℕ) : Type 0 where
    pub shape : Shape (2 ^ block_bits n k) k list filled
    pub contents : Contents (2 ^ block_bits n k) k IsLeaf list filled

  -- A solver in its first round.
  abbrev pub IsFilled : Equihash → Type 0
  IsFilled eq =
      (list : List (List Tuple)) × (filled : List ℕ) × Leaves list filled
      × (eq ≡ state list filled [] [])

  -- The tuple that `fill_memory` writes for a leaf.
  abbrev leaf_change : ℕ → Tuple → Outcome Refusal Tuple
  leaf_change i tuple =
      fill_blocks (block_bits n k) (hash_leaf hash seed nonce i) 1 k tuple >>= λ (filled : Tuple).
      ok (record filled { reference = i })

  leaf_change_lem :
      (i : ℕ) (t : Tuple)
      → length t.blocks ≡ k
      → Returns
          (λ (t' : Tuple).
            (length t'.blocks ≡ k) × IsLeaf (block hash seed nonce (block_bits n k) i 0) t')
          (leaf_change i t)
  leaf_change_lem i t e =
      let words = length-hash_leaf hash seed nonce (block_bits n k) i in
      let few = fits.few_blocks in
      let (t', e', (same, before, after)) =
        fill_blocks_lem (block_bits n k) (hash_leaf hash seed nonce i) 0 k t (omega arith)
          (omega arith) in
      (
        record t' { reference = i },
        ap
            (λ (r : Outcome Refusal Tuple).
              r >>= λ (filled : Tuple). ok (record filled { reference = i }))
            e',
        (
          same ∙ e,
          record {
            size = refl;
            cleared = λ q h. absurd (omega arith);
            bucket = bit_xor-zero (block hash seed nonce (block_bits n k) i 0);
            rest = λ l h.
                after l (omega arith) (omega arith)
                ∙ ap (λ q. block hash seed nonce (block_bits n k) i q) (place l)
                ∙ sym (bit_xor-zero (block hash seed nonce (block_bits n k) i (0 + 1 + l)));
          },
        ),
      )
    where
      place : (l : ℕ) → l + 1 ≡ 0 + 1 + l
      place l = omega arith

  index_lt : (i : ℕ) → block hash seed nonce (block_bits n k) i 0 < 2 ^ block_bits n k
  index_lt i =
      let few = fits.few_bits in
      block_lt hash seed nonce (block_bits n k) digest fits.some_bits (omega arith) i 0

  store_leaf-IsFilled :
      (i c : ℕ) (list : List (List Tuple)) (filled : List ℕ)
      → Leaves list filled
      → get_or filled (block hash seed nonce (block_bits n k) i 0) 0 ≡ c
      → c < list_length
      → Returns IsFilled (
          store_leaf
            (hash_leaf hash seed nonce i)
            (block hash seed nonce (block_bits n k) i 0)
            c
            i
            (state list filled [] []))
  unfolding store_leaf
  store_leaf-IsFilled i c list filled f ec hc =
      let index : ℕ = block hash seed nonce (block_bits n k) i 0 in
      let hi = index_lt i in
      let leaf = leaf_change_lem i (tuple_at list index c) (f.shape.sized index c hi hc) in
      let (list', el, (t, (sized, is_leaf), same)) =
        update_at-put (2 ^ block_bits n k) k list filled index c (leaf_change i) f.shape hi hc
          leaf in
      let in_counts : index < length filled = omega (arith, f.shape.counts) in
      let leaves : Leaves (put list index c t) (set filled index (c + 1)) = record {
        shape = put-Shape (2 ^ block_bits n k) k list filled index c t f.shape hi hc sized;
        contents =
            put-Contents (2 ^ block_bits n k) k IsLeaf list filled index c t f.shape hi hc ec
              f.contents is_leaf;
      } in
      (
        state list' (set filled index (c + 1)) [] [],
        rw (el, write-set {E = Refusal} filled index (c + 1) in_counts),
        (
          put list index c t,
          set filled index (c + 1),
          leaves,
          ap (λ l. state l (set filled index (c + 1)) [] []) same,
        ),
      )

  -- One round of the loop.
  fill_leaf-IsFilled :
      (i : ℕ) (list : List (List Tuple)) (filled : List ℕ)
      → Leaves list filled
      → Returns IsFilled (fill_leaf hash i (state list filled [] []))
  unfolding fill_leaf
  fill_leaf-IsFilled i list filled f =
      let words = length-hash_leaf hash seed nonce (block_bits n k) i in
      let index : ℕ = block hash seed nonce (block_bits n k) i 0 in
      let hi = index_lt i in
      rw
        (
          read-get_or {E = Refusal} (hash_leaf hash seed nonce i) 0 0 (omega arith),
          read-get_or {E = Refusal} filled index 0 (omega (arith, f.shape.counts)),
        )
        (elim (Bool-cases (ltb (get_or filled index 0) list_length)) [
          | inl e ↦
              rw e (store_leaf-IsFilled i (get_or filled index 0) list filled f refl (ltb-< _ _ e))
          | inr e ↦ rw e (state list filled [] [], refl, (list, filled, f, refl))
        ])

  -- From tables that are well formed, `fill_memory` returns tables that are, whatever the count.
  pub fill_memory-IsFilled :
      (i left : ℕ) (list : List (List Tuple)) (filled : List ℕ)
      → Leaves list filled
      → Returns IsFilled (fill_memory hash i left (state list filled [] []))
  unfolding fill_memory
  fill_memory-IsFilled i zero list filled f =
      (state list filled [] [], refl, (list, filled, f, refl))
  fill_memory-IsFilled i (suc left) list filled f =
      Returns-bind (fill_leaf hash i (state list filled [] [])) (fill_memory hash (i + 1) left)
        (fill_leaf-IsFilled i list filled f)
        (λ next (list', filled', g, e).
          subst (λ s. Returns IsFilled (fill_memory hash (i + 1) left s)) (sym e)
            (fill_memory-IsFilled (i + 1) left list' filled' g))
