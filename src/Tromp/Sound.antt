-- ===== src/Tromp/Sound.antt =====
-- The solver does not panic, and returns vectors of 32 distinct indices in the order of the tree.
use requihash.Base.{ℕ, zero, suc, ◌+◌, ◌-◌, ◌≤◌, ◌≡◌, refl, ◌∙◌, List, length, All, arith}
use requihash.Outcome.{Returns, Returns-bind}
use requihash.Indexing.{read-All, write-All}
use requihash.Tromp.{
  wk, hashout, hashesperblake, nblocks, maxsols, Digit, Equi, new, block_loop, digit0, solve_144_4,
}
use requihash.Tromp.Digits.{IsByte, IsDigit}
use requihash.Tromp.Indices.{IsRecorded}
use requihash.Tromp.Leaves.{put_leaves-IsDigit}
use requihash.Tromp.Rounds.{IsEqui, new-IsEqui, digit_rounds-IsEqui, digit_k-IsEqui}

-- What the solver relies on of the hash: a digest has the length asked for, and consists of bytes.
abbrev pub IsDigest : (List ℕ → ℕ → List ℕ → List ℕ) → Type 0
IsDigest hash =
    (personal : List ℕ) (size : ℕ) (message : List ℕ)
    → 1 ≤ size
    → size ≤ 64
    → (length (hash personal size message) ≡ size) × All IsByte (hash personal size message)

module _ (hash : List ℕ → ℕ → List ℕ → List ℕ) (digest : IsDigest hash) where
  block_loop-IsDigit :
      (personal absorbed : List ℕ) (block left : ℕ) (digit : Digit)
      → IsDigit digit
      → Returns IsDigit (block_loop hash personal absorbed block left digit)
  unfolding block_loop
  block_loop-IsDigit personal absorbed block zero digit d = (digit, refl, d)
  block_loop-IsDigit personal absorbed block (suc left) digit d =
      let (size, bytes) = digest personal hashout _ (omega arith) (omega arith) in
      Returns-bind _ (block_loop hash personal absorbed (block + 1) left)
        (put_leaves-IsDigit _ block 0 hashesperblake digit size bytes (omega arith) d)
        (λ next g. block_loop-IsDigit personal absorbed (block + 1) left next g)

  digit0-IsEqui : (eq : Equi) → IsEqui eq → Returns IsEqui (digit0 hash eq)
  unfolding digit0
  digit0-IsEqui eq g =
      let three = g.three in
      let (digit, ed, d) = read-All {E = Unit {0}} IsDigit eq.trees0 0 g.good0 (omega arith) in
      let (filled, ef, df) = block_loop-IsDigit eq.personal eq.absorbed 0 nblocks digit d in
      let (trees0, e0, (l0, a0)) =
        write-All {E = Unit {0}} IsDigit eq.trees0 0 filled g.good0 df (omega arith) in
      (
        record eq { trees0 = trees0 },
        rw (ed, ef, e0),
        record { good0 = a0; good1 = g.good1; three = l0 ∙ three; two = g.two; found = g.found },
      )

-- For every input and nonce the solver returns without a panic: at most eight vectors of 32 distinct
-- indices, at every node of whose tree the left half begins with the smaller index.
pub solve_144_4-IsRecorded :
    (hash : List ℕ → ℕ → List ℕ → List ℕ)
    → IsDigest hash
    → (input nonce : List ℕ)
    → Returns (λ sols. (length sols ≤ maxsols) × All IsRecorded sols) (solve_144_4 hash input nonce)
unfolding solve_144_4
solve_144_4-IsRecorded hash digest input nonce =
    Returns-bind _ _ (digit0-IsEqui hash digest (new input nonce) (new-IsEqui input nonce))
      (λ eq0 g0.
        Returns-bind _ _ (digit_rounds-IsEqui 1 (wk - 1) eq0 (omega arith) (omega arith) g0)
          (λ eq4 g4. Returns-bind _ _ (digit_k-IsEqui eq4 g4) (λ eq5 g5.
            let kept = g5.found.kept in (eq5.found.sols, refl, (omega arith, g5.found.vectors)))))
