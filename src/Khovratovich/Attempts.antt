-- ===== src/Khovratovich/Attempts.antt =====
-- An attempt does not panic, and every solution that it keeps is a proof.
use requihash.Base.{
  ℕ, zero, suc, ◌+◌, ◌-◌, ◌*◌, ◌%◌, ◌^◌, ◌≤◌, ◌≡◌, refl, sym, ap, Bool, true, ◌==◌, ==_iff, List,
  [], ◌∷◌, ◌++◌, length, length-append, length-replicate, get_or, replicate, All, arith,
}
use requihash.Base.Bits.{pow_pos}
use requihash.Outcome.{ok, ◌>>=◌, Returns, Returns-bind}
use requihash.Indexing.{read-get_or, get_or-replicate}
use requihash.Khovratovich.{
  Tuple, Fork, Proof, Equihash, Round, Refusal, block_bits, list_length, new_tuple, default_fork,
  initialize_memory, fill_memory, blocks_left, resolve_collisions, rounds_from, single_attempt,
}
use requihash.Khovratovich.Tables.{tuple_at, no_tuple, Shape, Contents, empty-Shape, empty-Contents}
use requihash.Khovratovich.Leaves.{IsDigest}
use requihash.Khovratovich.Filling.{Fits, state, IsLeaf, Leaves, fill_memory-IsFilled}
use requihash.Khovratovich.Trees.{no_fork, Linked, leaves-new, Linked-append}
use requihash.Khovratovich.Rounds.{IsProof, IsNode, IsNext, Building, bucket_loop-Building}
use mathlib.Core.Path.{subst}

blocks_left_lem : (v : List ℕ) (blocks : ℕ) → length v ≡ suc blocks → blocks_left v ≡ ok blocks
unfolding blocks_left
blocks_left_lem [] blocks h = absurd (omega arith)
blocks_left_lem (b ∷ v) blocks h = let e : length v ≡ blocks = omega arith in ap ok e

module _ (hash : List ℕ → List ℕ) (digest : IsDigest hash) (n k : ℕ) (fits : Fits n k)
    (seed : List ℕ) (nonce : ℕ) where
  -- What a solver holds behind some rounds, with the blocks that are left.
  pub record Attempt (forks : List (List Fork)) (list : List (List Tuple)) (filled : List ℕ)
      (solved : List Proof) (left : ℕ) : Type 0 where
    pub linked : Linked (2 ^ block_bits n k * 3) forks
    pub shape : Shape (2 ^ block_bits n k) left list filled
    pub nodes :
        Contents
          (2 ^ block_bits n k)
          left
          (IsNode hash digest n k fits seed nonce forks)
          list
          filled
    pub proofs : All (IsProof hash digest n k fits seed nonce) solved

  abbrev pub IsAttempt : ℕ → ℕ → Equihash → Type 0
  IsAttempt rounds left eq =
      (forks : List (List Fork)) × (list : List (List Tuple)) × (filled : List ℕ) × (solved : List
        Proof)
      × (eq ≡ state hash digest n k fits seed nonce list filled forks solved)
      × (length forks ≡ rounds)
      × Attempt forks list filled solved left

  module _ (forks : List (List Fork)) (list : List (List Tuple)) (filled : List ℕ)
      (solved : List Proof) (blocks : ℕ) (at : Attempt forks list filled solved (suc blocks)) where
    abbrev start : Round
    start = record {
      new_forks = replicate (2 ^ block_bits n k * 3) default_fork;
      collision_list = replicate (2 ^ block_bits n k) (replicate list_length (new_tuple blocks));
      new_filled_list = replicate (2 ^ block_bits n k) 0;
      new_colls = 0;
      solutions = solved;
    }

    start-Building : Building hash digest n k fits seed nonce forks blocks start
    unfolding default_fork
    start-Building = record {
      shape = empty-Shape (2 ^ block_bits n k) blocks;
      contents =
          empty-Contents (2 ^ block_bits n k) blocks
            (IsNext hash digest n k fits seed nonce forks start.new_forks 0) start.collision_list;
      room = length-replicate (2 ^ block_bits n k * 3) default_fork;
      colls = omega arith;
      within = λ r hr hl.
          let same = get_or-replicate (2 ^ block_bits n k * 3) r default_fork no_fork hr in
          rw same (omega arith, omega arith);
      proofs = at.proofs;
    }

    -- The tuples that were built are those of the next round.
    IsNext-IsNode :
        (new_forks : List Fork) (colls i : ℕ) (t : Tuple)
        → colls ≤ 2 ^ block_bits n k * 3
        → IsNext hash digest n k fits seed nonce forks new_forks colls i t
        → IsNode hash digest n k fits seed nonce (forks ++ new_forks ∷ []) i t
    IsNext-IsNode new_forks colls i t h g =
        let one_more : length (forks ++ new_forks ∷ []) ≡ suc (length forks) =
          omega (arith, length-append forks (new_forks ∷ [])) in
        let made = g.made in
        record {
          stands = rw (one_more, leaves-new forks new_forks t.reference) g.stands;
          inside = λ hl. omega arith;
        }

    finish :
        (round : Round)
        → Building hash digest n k fits seed nonce forks blocks round
        → Attempt
            (forks ++ round.new_forks ∷ [])
            round.collision_list
            round.new_filled_list
            round.solutions
            blocks
    finish round g = record {
      linked =
          Linked-append (2 ^ block_bits n k * 3) forks round.new_forks at.linked g.room g.within;
      shape = g.shape;
      nodes = λ i c hi hc.
          IsNext-IsNode round.new_forks round.new_colls i (tuple_at round.collision_list i c)
            g.colls (g.contents i c hi hc);
      proofs = g.proofs;
    }

    resolve_collisions-IsAttempt :
        (store : Bool)
        → (store ≡ true → suc (length forks) ≡ k)
        → Returns (IsAttempt (suc (length forks)) blocks) (
            resolve_collisions
              (state hash digest n k fits seed nonce list filled forks solved)
              store)
    unfolding resolve_collisions
    resolve_collisions-IsAttempt store last =
        let some = pow_pos (block_bits n k) in
        let first = tuple_at list 0 0 in
        let (round, e, g) =
          bucket_loop-Building hash digest n k fits seed nonce forks at.linked blocks list filled
            solved at.shape at.nodes store last 0 (2 ^ block_bits n k) start (omega arith)
            start-Building in
        (
          state hash digest n k fits seed nonce round.collision_list round.new_filled_list
              (forks ++ round.new_forks ∷ []) round.solutions,
          rw (
            read-get_or {E = Refusal} list 0 [] (omega (arith, at.shape.rows)),
            read-get_or {E = Refusal} (get_or list 0 []) 0 no_tuple
                (omega (arith, at.shape.row 0 (omega arith))),
            blocks_left_lem first.blocks blocks (at.shape.sized 0 0 (omega arith) (omega arith)),
            at.shape.rows,
            e,
          ),
          (
            forks ++ round.new_forks ∷ [],
            round.collision_list,
            round.new_filled_list,
            round.solutions,
            refl,
            omega (arith, length-append forks (round.new_forks ∷ [])),
            finish round g,
          ),
        )

  -- The rounds that are left, of `k` in all.
  rounds_from-IsAttempt :
      (left i : ℕ) (forks : List (List Fork)) (list : List (List Tuple)) (filled : List ℕ)
      (solved : List Proof)
      → i ≡ length forks + 1
      → length forks + left ≡ k
      → Attempt forks list filled solved left
      → Returns
          (IsAttempt k 0)
          (rounds_from i left (state hash digest n k fits seed nonce list filled forks solved))
  unfolding rounds_from
  rounds_from-IsAttempt zero i forks list filled solved ei el at = (
    state hash digest n k fits seed nonce list filled forks solved,
    refl,
    (forks, list, filled, solved, refl, omega arith, at),
  )
  rounds_from-IsAttempt (suc left) i forks list filled solved ei el at =
      Returns-bind
        (resolve_collisions (state hash digest n k fits seed nonce list filled forks solved)
          (i == k))
        (rounds_from (i + 1) left)
        (resolve_collisions-IsAttempt forks list filled solved left at (i == k)
          (λ h. let e = (==_iff i k).0 h in omega arith))
        (λ next (forks', list', filled', solved', e, el', at').
          subst (λ s. Returns (IsAttempt k 0) (rounds_from (i + 1) left s)) (sym e)
            (rounds_from-IsAttempt left (i + 1) forks' list' filled' solved' (omega arith)
              (omega arith) at'))

  Leaves-Attempt :
      (list : List (List Tuple)) (filled : List ℕ)
      → Leaves hash digest n k fits seed nonce list filled
      → Attempt [] list filled [] k
  Leaves-Attempt list filled f = record {
    linked = record {
      rooms = λ l h. absurd (omega arith);
      within = λ l r h hl hr. absurd (omega arith);
    };
    shape = f.shape;
    nodes =
        λ i c hi hc. record { stands = f.contents i c hi hc; inside = λ hl. absurd (omega arith) };
    proofs = tt;
  }

  empty-Leaves :
      Leaves hash digest n k fits seed nonce
        (replicate (2 ^ block_bits n k) (replicate list_length (new_tuple k)))
        (replicate (2 ^ block_bits n k) 0)
  empty-Leaves = record {
    shape = empty-Shape (2 ^ block_bits n k) k;
    contents =
        empty-Contents (2 ^ block_bits n k) k (IsLeaf hash digest n k fits seed nonce)
          (replicate (2 ^ block_bits n k) (replicate list_length (new_tuple k)));
  }

  pub filled-IsAttempt :
      (count : ℕ)
      → Returns (IsAttempt k 0) (
          fill_memory hash 0 count (
            state hash digest n k fits seed nonce
              (replicate (2 ^ block_bits n k) (replicate list_length (new_tuple k)))
              (replicate (2 ^ block_bits n k) 0)
              []
              [])
          >>= rounds_from 1 k)
  filled-IsAttempt count =
      Returns-bind _ (rounds_from 1 k)
        (fill_memory-IsFilled hash digest n k fits seed nonce 0 count _ _ empty-Leaves)
        (λ next (list, filled, f, e).
          subst (λ s. Returns (IsAttempt k 0) (rounds_from 1 k s)) (sym e)
            (rounds_from-IsAttempt k 1 [] list filled [] refl (omega arith)
              (Leaves-Attempt list filled f)))

-- For parameters that fit, an attempt at a nonce does not panic, whatever the solver held before: the
-- solver then has no blocks left, 2 ^ bits buckets with at most five tuples each, `k` lists of forks, and
-- proofs only.
pub single_attempt-IsAttempt :
    (hash : List ℕ → List ℕ) (digest : IsDigest hash) (eq : Equihash) (fits : Fits eq.n eq.k)
    (nonce : ℕ)
    → Returns
        (IsAttempt hash digest eq.n eq.k fits eq.seed nonce eq.k 0)
        (single_attempt hash nonce eq)
unfolding single_attempt initialize_memory
single_attempt-IsAttempt hash digest eq fits nonce =
    let few = fits.few_bits in
    let whole : block_bits eq.n eq.k % 64 ≡ block_bits eq.n eq.k = omega arith in
    rw whole (
      filled-IsAttempt hash digest eq.n eq.k fits eq.seed nonce
        (4 * 2 ^ ((block_bits eq.n eq.k + 2 ^ 32 - 1) % 2 ^ 32 % 32) % 2 ^ 32))
