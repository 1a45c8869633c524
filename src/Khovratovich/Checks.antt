-- ===== src/Khovratovich/Checks.antt =====
-- `Proof::test` decides that the blocks of a proof's inputs cancel.
use requihash.Base.{
  ℕ, zero, suc, ◌+◌, ◌%◌, ◌^◌, ◌≤◌, ◌<◌, bit_xor, ◌≡◌, ◌≢◌, refl, sym, ap, ◌∙◌, ◌↔◌, Bool, true,
  not, ◌&&◌, ==_iff, &&-parts, List, [], ◌∷◌, length, length-replicate, get_or, replicate, arith,
}
use requihash.Base.Bits.{bit_xor_assoc, bit_xor-zero, zero-bit_xor}
use requihash.Outcome.{Outcome, ok, ◌>>=◌, Returns}
use requihash.Indexing.{read-get_or, get_or-replicate}
use requihash.Khovratovich.{
  Proof, Refusal, block_bits, top_bits, xor_leaf, blocks_zero, no_inputs, hash_leaf, xor_leaves,
  test,
}
use requihash.Khovratovich.Leaves.{sum, length-hash_leaf}

xor_leaf_lem :
    (bits : ℕ) (buf : List ℕ) (j : ℕ) (blocks : List ℕ)
    → j + length blocks ≤ length buf
    → Returns
        (λ out.
          (length out ≡ length blocks)
          × ((l : ℕ)
              → l < length blocks
              → get_or out l 0
                ≡ bit_xor (get_or blocks l 0) (top_bits bits (get_or buf (j + l) 0))))
        (xor_leaf bits buf j blocks)
unfolding xor_leaf
xor_leaf_lem bits buf j [] h = ([], refl, (refl, λ l g. absurd (omega arith)))
xor_leaf_lem bits buf j (b ∷ blocks) h =
    let (rest, e, (size, each)) = xor_leaf_lem bits buf (j + 1) blocks (omega arith) in
    let first : ℕ = bit_xor b (top_bits bits (get_or buf j 0)) in
    (
      first ∷ rest,
      rw (read-get_or {E = Refusal} buf j 0 (omega arith), e),
      (ap suc size, at rest each),
    )
  where
    at :
        (rest : List ℕ)
        → ((l : ℕ)
            → l < length blocks
            → get_or rest l 0
              ≡ bit_xor (get_or blocks l 0) (top_bits bits (get_or buf (j + 1 + l) 0)))
        → (l : ℕ) → l < suc (length blocks)
        → get_or (bit_xor b (top_bits bits (get_or buf j 0)) ∷ rest) l 0
          ≡ bit_xor (get_or (b ∷ blocks) l 0) (top_bits bits (get_or buf (j + l) 0))
    at rest each zero g =
        let place : j ≡ j + 0 = omega arith in
        ap (λ p. bit_xor b (top_bits bits (get_or buf p 0))) place
    at rest each (suc l) g =
        let place : j + 1 + l ≡ j + suc l = omega arith in
        each l (omega arith)
        ∙ ap (λ p. bit_xor (get_or blocks l 0) (top_bits bits (get_or buf p 0))) place

module _ (hash : List ℕ → List ℕ) (proof : Proof) (bits : ℕ) where
  xor_leaves_lem :
      (inputs blocks : List ℕ)
      → length blocks ≤ 8
      → Returns
          (λ out.
            (length out ≡ length blocks)
            × ((l : ℕ)
                → l < length blocks
                → get_or out l 0
                  ≡ bit_xor (get_or blocks l 0) (sum hash proof.seed proof.nonce bits l inputs)))
          (xor_leaves hash proof bits inputs blocks)
  unfolding xor_leaves
  xor_leaves_lem [] blocks h = (blocks, refl, (refl, λ l g. sym (bit_xor-zero (get_or blocks l 0))))
  xor_leaves_lem (leaf ∷ inputs) blocks h =
      let words = length-hash_leaf hash proof.seed proof.nonce bits leaf in
      let (next, e, (size, each)) =
        xor_leaf_lem bits (hash_leaf hash proof.seed proof.nonce leaf) 0 blocks (omega arith) in
      let (out, e', (size', each')) = xor_leaves_lem inputs next (omega arith) in
      (
        out,
        rw e e',
        (
          size' ∙ size,
          λ l g.
              let place : 0 + l ≡ l = omega arith in
              each' l (omega arith)
              ∙ ap (λ t. bit_xor t (sum hash proof.seed proof.nonce bits l inputs)) (each l g)
              ∙ bit_xor_assoc (get_or blocks l 0) _ (sum hash proof.seed proof.nonce bits l inputs)
              ∙ ap
                  (λ p. bit_xor (get_or blocks l 0) (
                    bit_xor
                      (top_bits bits (get_or (hash_leaf hash proof.seed proof.nonce leaf) p 0))
                      (sum hash proof.seed proof.nonce bits l inputs)))
                  place,
        ),
      )

blocks_zero_iff :
    (v : List ℕ) → (blocks_zero v ≡ true) ↔ ((l : ℕ) → l < length v → get_or v l 0 ≡ 0)
unfolding blocks_zero
blocks_zero_iff [] = (λ _ l h. absurd (omega arith), λ _. refl)
blocks_zero_iff (b ∷ v) =
    let (to, from) = blocks_zero_iff v in
    (
      λ h. let (first, rest) = &&-parts _ _ h in each ((==_iff b 0).0 first) (to rest),
      λ all. rw ((==_iff b 0).1 (all 0 (omega arith)), from (λ l h. all (suc l) (omega arith))),
    )
  where
    each :
        b ≡ 0
        → ((l : ℕ) → l < length v → get_or v l 0 ≡ 0)
        → (l : ℕ) → l < suc (length v)
        → get_or (b ∷ v) l 0 ≡ 0
    each e rest zero h = e
    each e rest (suc l) h = rest l (omega arith)

some_inputs : (inputs : List ℕ) → (not (no_inputs inputs) ≡ true) ↔ (inputs ≢ [])
unfolding no_inputs
some_inputs [] = (λ h e. cc, λ h. absurd (h refl))
some_inputs (x ∷ inputs) = (λ h e. cc, λ h. refl)

-- For `k` of at most 7 `test` returns, and it returns true exactly if there are inputs and each of their
-- `k + 1` blocks cancels.
pub test_iff :
    (hash : List ℕ → List ℕ) (proof : Proof)
    → proof.k ≤ 7
    → (accepted : Bool) × (test hash proof ≡ ok accepted)
      × ((accepted ≡ true) ↔ (
          (proof.inputs ≢ [])
          × ((q : ℕ)
              → q < suc proof.k
              → sum hash proof.seed proof.nonce (block_bits proof.n proof.k) q proof.inputs ≡ 0)))
unfolding test
test_iff hash proof few =
    let count : (proof.k + 1) % 2 ^ 32 ≡ suc proof.k = omega arith in
    let start : List ℕ = replicate (suc proof.k) 0 in
    let len = length-replicate {A = ℕ} (suc proof.k) 0 in
    let (out, e, (size, each)) =
      xor_leaves_lem hash proof (block_bits proof.n proof.k) proof.inputs start (omega arith) in
    let (to, from) = blocks_zero_iff out in
    let (some, others) = some_inputs proof.inputs in
    let value : (q : ℕ)
        → q < suc proof.k
        → get_or out q 0
          ≡ sum hash proof.seed proof.nonce (block_bits proof.n proof.k) q proof.inputs =
      λ q h.
        each q (omega arith)
        ∙ ap
            (λ t.
              bit_xor t
                (sum hash proof.seed proof.nonce (block_bits proof.n proof.k) q proof.inputs))
            (get_or-replicate {A = ℕ} (suc proof.k) q 0 0 h)
        ∙ zero-bit_xor _ in
    (
      blocks_zero out && not (no_inputs proof.inputs),
      ap
            (λ c.
              xor_leaves hash proof (block_bits proof.n proof.k) proof.inputs (replicate c 0)
              >>= verdict)
            count
          ∙ ap (λ r. r >>= verdict) e,
      (
        λ h.
            let (zeros, inputs) = &&-parts _ _ h in
            (some inputs, λ q g. sym (value q g) ∙ to zeros q (omega arith)),
        λ (inputs, cancels).
            rw (from (λ q g. value q (omega arith) ∙ cancels q (omega arith)), others inputs),
      ),
    )
  where
    verdict : List ℕ → Outcome Refusal Bool
    verdict blocks = ok (blocks_zero blocks && not (no_inputs proof.inputs))
