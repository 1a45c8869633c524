-- ===== src/Khovratovich/Merging.antt =====
-- Two tuples of a bucket make a tuple of the next round, or a solution.
use requihash.Base.{
  ℕ, suc, ◌+◌, ◌^◌, ◌<◌, bit_xor, ◌≡◌, sym, ap, ◌∙◌, List, ◌++◌, length, length-append, get_or,
  arith,
}
use requihash.Base.Bits.{bit_xor_self}
use requihash.Khovratovich.{Tuple}
use requihash.Khovratovich.Leaves.{sum, sum-append, Represents}
use native.Mathlib.Decide.{ℕ_discrete}
use native.Mathlib.Nat.{pow-suc}

module _ (hash : List ℕ → List ℕ) (seed : List ℕ) (nonce bits : ℕ) (round i : ℕ) (a b : Tuple)
    (la lb : List ℕ) (ra : Represents hash seed nonce bits round i a la)
    (rb : Represents hash seed nonce bits round i b lb) where
  joined_size : length (la ++ lb) ≡ 2 ^ suc round
  joined_size = omega (arith, length-append la lb, ra.size, rb.size, pow-suc 2 round)

  -- The bits of the rounds so far cancel, those of the bucket included.
  joined_cleared : (q : ℕ) → q < suc round → sum hash seed nonce bits q (la ++ lb) ≡ 0
  joined_cleared q h = sum-append hash seed nonce bits q la lb ∙ elim (ℕ_discrete q round) [
    | yes e ↦
        ap (λ t. bit_xor (sum hash seed nonce bits t la) (sum hash seed nonce bits t lb)) e
        ∙ rw (ra.bucket, rb.bucket) (bit_xor_self i)
    | no ne ↦ let earlier = before ne in rw (ra.cleared q earlier, rb.cleared q earlier)
  ]
    where
      before : (q ≡ round → ⊥) → q < round
      before ne = omega arith

  module _ (some_a : 0 < length a.blocks) (some_b : 0 < length b.blocks) where
    -- The exclusive or of the first blocks is the next block of the leaves.
    pub next_block :
        bit_xor (get_or a.blocks 0 0) (get_or b.blocks 0 0)
        ≡ sum hash seed nonce bits (suc round) (la ++ lb)
    next_block =
        let place : round + 1 + 0 ≡ suc round = omega arith in
        rw (ra.rest 0 some_a, rb.rest 0 some_b)
          (sym (sum-append hash seed nonce bits (round + 1 + 0) la lb)
            ∙ ap (λ t. sum hash seed nonce bits t (la ++ lb)) place)

    -- The tuple with the other blocks is one of the next round.
    pub merged-Represents :
        (t : Tuple)
        → ((l : ℕ)
            → l < length t.blocks
            → get_or t.blocks l 0 ≡ bit_xor (get_or a.blocks (l + 1) 0) (get_or b.blocks (l + 1) 0))
        → length a.blocks ≡ suc (length t.blocks)
        → length b.blocks ≡ suc (length t.blocks)
        → Represents hash seed nonce bits
            (suc round)
            (bit_xor (get_or a.blocks 0 0) (get_or b.blocks 0 0))
            t
            (la ++ lb)
    merged-Represents t blocks ea eb = record {
      size = joined_size;
      cleared = joined_cleared;
      bucket = sym next_block;
      rest = λ l h.
          let place : round + 1 + (l + 1) ≡ suc round + 1 + l = omega arith in
          blocks l h
          ∙ rw (ra.rest (l + 1) (omega arith), rb.rest (l + 1) (omega arith))
              (sym (sum-append hash seed nonce bits (round + 1 + (l + 1)) la lb)
                ∙ ap (λ t. sum hash seed nonce bits t (la ++ lb)) place);
    }

    -- In the last round all the blocks cancel, where the first ones are equal.
    pub solution-cancels :
        bit_xor (get_or a.blocks 0 0) (get_or b.blocks 0 0) ≡ 0
        → (length (la ++ lb) ≡ 2 ^ suc round)
          × ((q : ℕ) → q < suc (suc round) → sum hash seed nonce bits q (la ++ lb) ≡ 0)
    solution-cancels none = (joined_size, all)
      where
        all : (q : ℕ) → q < suc (suc round) → sum hash seed nonce bits q (la ++ lb) ≡ 0
        all q h = elim (ℕ_discrete q (suc round)) [
          | yes e ↦ ap (λ t. sum hash seed nonce bits t (la ++ lb)) e ∙ sym next_block ∙ none
          | no ne ↦ let earlier = below ne in joined_cleared q earlier
        ]
          where
            below : (q ≡ suc round → ⊥) → q < suc round
            below ne = omega arith
