-- ===== src/Khovratovich/Rounds.antt =====
-- A round of `resolve_collisions` does not panic, and its tuples and solutions stand for leaves that cancel.
use requihash.Base.{
  ℕ, zero, suc, ◌+◌, ◌-◌, ◌*◌, ◌%◌, ◌^◌, ◌≤◌, ◌<◌, bit_xor, ◌≡◌, refl, ap, ◌∙◌, inl, inr, Bool,
  true, false, ◌&&◌, &&-parts, ltb, ltb-<, ◌==◌, ==_iff, Bool-cases, if◌then◌else◌, List, [], ◌∷◌,
  ◌++◌, length, length-set, get_or, set, All, All-append, arith,
}
use requihash.Outcome.{Outcome, ok, ◌>>=◌, Returns, Returns-bind}
use requihash.Indexing.{read-get_or, write-set, get_or-set_self, get_or-set_other}
use requihash.Khovratovich.{
  Tuple, Fork, Proof, Equihash, Round, Refusal, block_bits, list_length, xor_blocks, resolve_tree,
  keep_solution, store_pair, keep_pair, pair_step, later_loop, first_loop, bucket_loop,
}
use requihash.Khovratovich.Tables.{
  tuple_at, no_tuple, Shape, update_at-put, put-Shape, Contents, put-Contents,
}
use requihash.Khovratovich.Leaves.{IsDigest, xor_blocks_lem, sum, sum_lt, Represents}
use requihash.Khovratovich.Filling.{Fits, state}
use requihash.Khovratovich.Trees.{
  no_fork, leaves, pair_leaves, Within, Linked, resolve_tree_by_level-leaves,
}
use requihash.Khovratovich.Merging.{next_block, merged-Represents, solution-cancels}
use requihash.Base.Pow.{pow-le}
use native.Mathlib.Decide.{ℕ_discrete}

module _ (hash : List ℕ → List ℕ) (digest : IsDigest hash) (n k : ℕ) (fits : Fits n k)
    (seed : List ℕ) (nonce : ℕ) where
  -- A proof of this attempt: `2 ^ k` inputs, whose `k + 1` blocks all cancel.
  pub record IsProof (proof : Proof) : Type 0 where
    pub same_n : proof.n ≡ n
    pub same_k : proof.k ≡ k
    pub same_seed : proof.seed ≡ seed
    pub same_nonce : proof.nonce ≡ nonce
    pub size : length proof.inputs ≡ 2 ^ k
    pub cancels : (q : ℕ) → q < suc k → sum hash seed nonce (block_bits n k) q proof.inputs ≡ 0

  -- A tuple of the round behind `forks`, in bucket `i`.
  pub record IsNode (forks : List (List Fork)) (i : ℕ) (t : Tuple) : Type 0 where
    pub stands :
        Represents hash seed nonce
          (block_bits n k)
          (length forks)
          i
          t
          (leaves forks (length forks) t.reference)
    pub inside : 0 < length forks → t.reference < 2 ^ block_bits n k * 3

  -- A tuple of the round that is being built.
  pub record IsNext (forks : List (List Fork)) (new_forks : List Fork) (colls : ℕ) (i : ℕ)
      (t : Tuple) : Type 0 where
    pub stands :
        Represents hash seed nonce
          (block_bits n k)
          (suc (length forks))
          i
          t
          (pair_leaves forks (length forks) (get_or new_forks t.reference no_fork))
    pub made : t.reference < colls

  -- The state of the three loops.
  pub record Building (forks : List (List Fork)) (blocks : ℕ) (round : Round) : Type 0 where
    pub shape : Shape (2 ^ block_bits n k) blocks round.collision_list round.new_filled_list
    pub contents :
        Contents
          (2 ^ block_bits n k)
          blocks
          (IsNext forks round.new_forks round.new_colls)
          round.collision_list
          round.new_filled_list
    pub room : length round.new_forks ≡ 2 ^ block_bits n k * 3
    pub colls : round.new_colls ≤ 2 ^ block_bits n k * 3
    pub within :
        (r : ℕ)
        → r < 2 ^ block_bits n k * 3
        → 0 < length forks
        → Within (2 ^ block_bits n k * 3) (get_or round.new_forks r no_fork)
    pub proofs : All IsProof round.solutions

  module _ (forks : List (List Fork)) (linked : Linked (2 ^ block_bits n k * 3) forks)
      (blocks i : ℕ) (a b : Tuple) (na : IsNode forks i a) (nb : IsNode forks i b)
      (ea : length a.blocks ≡ suc blocks) (eb : length b.blocks ≡ suc blocks) where
    abbrev fork : Fork
    fork = record { ref1 = a.reference; ref2 = b.reference }

    abbrev new_index : ℕ
    new_index = bit_xor (get_or a.blocks 0 0) (get_or b.blocks 0 0)

    new_index_lt : bit_xor (get_or a.blocks 0 0) (get_or b.blocks 0 0) < 2 ^ block_bits n k
    new_index_lt =
        let few = fits.few_bits in
        rw
          (next_block hash seed nonce (block_bits n k) (length forks) i a b _ _ na.stands nb.stands
            (omega arith) (omega arith))
          (sum_lt hash seed nonce (block_bits n k) digest fits.some_bits (omega arith)
            (suc (length forks)) _)

    -- The last step.
    keep_solution-Building :
        (list : List (List Tuple)) (filled : List ℕ) (solved : List Proof) (round : Round)
        → suc (length forks) ≡ k
        → Building forks blocks round
        → Returns (Building forks blocks) (
            keep_solution
              (state hash digest n k fits seed nonce list filled forks solved)
              new_index
              fork
              round)
    unfolding keep_solution resolve_tree
    keep_solution-Building list filled solved round last g = elim (Bool-cases (new_index == 0)) [
      | inr e ↦ rw e (round, refl, g)
      | inl e ↦
          let inputs : List ℕ = pair_leaves forks (length forks) fork in
          let (size, cancels) =
            solution-cancels hash seed nonce (block_bits n k) (length forks) i a b _ _ na.stands
              nb.stands (omega arith) (omega arith) ((==_iff new_index 0).0 e) in
          let found : Proof = record {
            n = n;
            k = k;
            seed = seed;
            nonce = nonce;
            inputs = inputs;
          } in
          let is_proof : IsProof found = record {
            same_n = refl;
            same_k = refl;
            same_seed = refl;
            same_nonce = refl;
            size = size ∙ ap (λ t. 2 ^ t) last;
            cancels = λ q h. cancels q (omega arith);
          } in
          rw
            (
              e,
              resolve_tree_by_level-leaves (2 ^ block_bits n k * 3) forks (length forks) fork linked
                  (omega arith) (λ h. (na.inside h, nb.inside h)),
            )
            (
              record round { solutions = round.solutions ++ found ∷ [] },
              refl,
              record {
                shape = g.shape;
                contents = g.contents;
                room = g.room;
                colls = g.colls;
                within = g.within;
                proofs = All-append IsProof round.solutions (found ∷ []) g.proofs (is_proof, tt);
              },
            )
    ]

    -- What is written for the pair.
    abbrev pair_change : ℕ → Tuple → Outcome Refusal Tuple
    pair_change colls tuple = xor_blocks a b 0 blocks tuple >>= λ (merged : Tuple).
        ok (record merged { reference = colls % 2 ^ 32 })

    pair_change_lem :
        (colls : ℕ) (t : Tuple)
        → colls < 2 ^ block_bits n k * 3
        → length t.blocks ≡ blocks
        → Returns
            (λ (t' : Tuple).
              (length t'.blocks ≡ blocks)
              × (t'.reference ≡ colls)
              × Represents hash seed nonce
                  (block_bits n k)
                  (suc (length forks))
                  new_index
                  t'
                  (pair_leaves forks (length forks) fork))
            (pair_change colls t)
    pair_change_lem colls t h et =
        let (t', e', (same, before, after)) =
          xor_blocks_lem a b 0 blocks t (omega arith) (omega arith) (omega arith) in
        let wide = pow-le (block_bits n k) 30 fits.few_bits in
        let word : colls % 2 ^ 32 ≡ colls = omega arith in
        (
          record t' { reference = colls % 2 ^ 32 },
          ap
              (λ (r : Outcome Refusal Tuple).
                r >>= λ (merged : Tuple). ok (record merged { reference = colls % 2 ^ 32 }))
              e',
          (
            same ∙ et,
            word,
            merged-Represents hash seed nonce (block_bits n k) (length forks) i a b _ _ na.stands
                nb.stands (omega arith) (omega arith) (record t' { reference = colls % 2 ^ 32 })
                (λ l hl. after l (omega arith) (omega arith)) (omega arith) (omega arith),
          ),
        )

    -- A later fork does not change what the earlier tuples stand for.
    older-IsNext :
        (new_forks : List Fork) (colls j : ℕ) (t : Tuple)
        → IsNext forks new_forks colls j t
        → IsNext forks (set new_forks colls fork) (colls + 1) j t
    older-IsNext new_forks colls j t g =
        let made = g.made in
        let apart : colls ≡ t.reference → ⊥ = λ e. omega arith in
        record {
          stands = rw (get_or-set_other new_forks colls t.reference fork no_fork apart) g.stands;
          made = omega arith;
        }

    store_pair-Building :
        (count : ℕ) (round : Round)
        → Building forks blocks round
        → get_or round.new_filled_list new_index 0 ≡ count
        → count < list_length
        → round.new_colls < 2 ^ block_bits n k * 3
        → Returns (Building forks blocks) (store_pair blocks a b new_index count round)
    unfolding store_pair
    store_pair-Building count round g ec hc hcolls =
        let list : List (List Tuple) = round.collision_list in
        let filled : List ℕ = round.new_filled_list in
        let colls : ℕ = round.new_colls in
        let hi = new_index_lt in
        let change =
          pair_change_lem colls (tuple_at list new_index count) hcolls
            (g.shape.sized new_index count hi hc) in
        let (list', el, (t, (sized, made, stands), same)) =
          update_at-put (2 ^ block_bits n k) blocks list filled new_index count (pair_change colls)
            g.shape hi hc change in
        let in_room : colls < length round.new_forks = omega (arith, g.room) in
        let in_counts : new_index < length filled = omega (arith, g.shape.counts) in
        let last : get_or (set round.new_forks colls fork) t.reference no_fork ≡ fork =
          ap (λ r. get_or (set round.new_forks colls fork) r no_fork) made
          ∙ get_or-set_self round.new_forks colls fork no_fork in_room in
        let next : IsNext forks (set round.new_forks colls fork) (colls + 1) new_index t = record {
          stands = rw last stands;
          made = omega arith;
        } in
        let older : Contents (2 ^ block_bits n k) blocks
            (IsNext forks (set round.new_forks colls fork) (colls + 1)) list filled =
          λ j c hj h.
            older-IsNext round.new_forks colls j (tuple_at list j c) (g.contents j c hj h) in
        (
          record {
            new_forks = set round.new_forks colls fork;
            collision_list = list';
            new_filled_list = set filled new_index (count + 1);
            new_colls = colls + 1;
            solutions = round.solutions;
          },
          rw (
            el,
            write-set {E = Refusal} round.new_forks colls fork in_room,
            write-set {E = Refusal} filled new_index (count + 1) in_counts,
          ),
          record {
            shape = rw same (
                put-Shape (2 ^ block_bits n k) blocks list filled new_index count t g.shape hi hc
                  sized);
            contents = rw same (
                put-Contents (2 ^ block_bits n k) blocks
                  (IsNext forks (set round.new_forks colls fork) (colls + 1)) list filled new_index
                  count t g.shape hi hc ec older next);
            room = length-set round.new_forks colls fork ∙ g.room;
            colls = omega arith;
            within = λ r hr hl. elim (ℕ_discrete colls r) [
              | yes e ↦
                  let new = get_or-set_self round.new_forks colls fork no_fork in_room in
                  rw (← e, new) (na.inside hl, nb.inside hl)
              | no ne ↦
                  rw (get_or-set_other round.new_forks colls r fork no_fork ne) (g.within r hr hl)
            ];
            proofs = g.proofs;
          },
        )

    keep_pair-Building :
        (round : Round)
        → Building forks blocks round
        → Returns
            (Building forks blocks)
            (keep_pair (2 ^ block_bits n k * 3) blocks a b new_index round)
    unfolding keep_pair
    keep_pair-Building round g =
        let count : ℕ = get_or round.new_filled_list new_index 0 in
        let hi = new_index_lt in
        rw
          (read-get_or {E = Refusal} round.new_filled_list new_index 0
            (omega (arith, g.shape.counts)))
          (elim (Bool-cases
            (ltb count list_length && ltb round.new_colls (2 ^ block_bits n k * 3))) [
              | inr e ↦ rw e (round, refl, g)
              | inl e ↦
                  let (p, q) = &&-parts _ _ e in
                  rw e (store_pair-Building count round g refl (ltb-< _ _ p) (ltb-< _ _ q))
            ])

  -- The loops over the pairs of the buckets, in a solver that is at the round behind `forks`.
  module _ (forks : List (List Fork)) (linked : Linked (2 ^ block_bits n k * 3) forks) (blocks : ℕ)
      (list : List (List Tuple)) (filled : List ℕ) (solved : List Proof)
      (shape : Shape (2 ^ block_bits n k) (suc blocks) list filled)
      (nodes : Contents (2 ^ block_bits n k) (suc blocks) (IsNode forks) list filled) (store : Bool)
      (last : store ≡ true → suc (length forks) ≡ k) where
    abbrev eq : Equihash
    eq = state hash digest n k fits seed nonce list filled forks solved

    pair_step-Building :
        (i j m : ℕ) (round : Round)
        → i < 2 ^ block_bits n k
        → j < get_or filled i 0
        → m < get_or filled i 0
        → Building forks blocks round
        → Returns
            (Building forks blocks)
            (pair_step eq store (2 ^ block_bits n k * 3) blocks i j m round)
    unfolding pair_step
    pair_step-Building i j m round hi hj hm g =
        let cap = shape.cap i hi in
        let row = shape.row i hi in
        let a : Tuple = tuple_at list i j in
        let b : Tuple = tuple_at list i m in
        let ea = shape.sized i j hi (omega arith) in
        let eb = shape.sized i m hi (omega arith) in
        rw
          (
            read-get_or {E = Refusal} list i [] (omega (arith, shape.rows)),
            read-get_or {E = Refusal} (get_or list i []) j no_tuple (omega arith),
            read-get_or {E = Refusal} (get_or list i []) m no_tuple (omega arith),
            read-get_or {E = Refusal} a.blocks 0 0 (omega arith),
            read-get_or {E = Refusal} b.blocks 0 0 (omega arith),
          )
          (branch store last a b (nodes i j hi hj) (nodes i m hi hm) ea eb)
      where
        branch :
            (s : Bool)
            → (s ≡ true → suc (length forks) ≡ k)
            → (a b : Tuple) → IsNode forks i a
            → IsNode forks i b
            → length a.blocks ≡ suc blocks
            → length b.blocks ≡ suc blocks
            → Returns (Building forks blocks) (
                if s
                then keep_solution eq
                    (bit_xor (get_or a.blocks 0 0) (get_or b.blocks 0 0))
                    (record { ref1 = a.reference; ref2 = b.reference })
                    round
                else keep_pair
                    (2 ^ block_bits n k * 3)
                    blocks
                    a
                    b
                    (bit_xor (get_or a.blocks 0 0) (get_or b.blocks 0 0))
                    round)
        branch true last a b na nb ea eb =
            keep_solution-Building forks linked blocks i a b na nb ea eb list filled solved round
              (last refl) g
        branch false last a b na nb ea eb =
            keep_pair-Building forks linked blocks i a b na nb ea eb round g

    later_loop-Building :
        (i j m left : ℕ) (round : Round)
        → i < 2 ^ block_bits n k
        → j < get_or filled i 0
        → m + left ≤ get_or filled i 0
        → Building forks blocks round
        → Returns
            (Building forks blocks)
            (later_loop eq store (2 ^ block_bits n k * 3) blocks i j m left round)
    unfolding later_loop
    later_loop-Building i j m zero round hi hj hm g = (round, refl, g)
    later_loop-Building i j m (suc left) round hi hj hm g =
        Returns-bind (pair_step eq store (2 ^ block_bits n k * 3) blocks i j m round)
          (later_loop eq store (2 ^ block_bits n k * 3) blocks i j (m + 1) left)
          (pair_step-Building i j m round hi hj (omega arith) g)
          (λ next h. later_loop-Building i j (m + 1) left next hi hj (omega arith) h)

    first_loop-Building :
        (i j left : ℕ) (round : Round)
        → i < 2 ^ block_bits n k
        → j + left ≡ get_or filled i 0
        → Building forks blocks round
        → Returns
            (Building forks blocks)
            (first_loop eq store (2 ^ block_bits n k * 3) blocks i (get_or filled i 0) j left round)
    unfolding first_loop
    first_loop-Building i j zero round hi hj g = (round, refl, g)
    first_loop-Building i j (suc left) round hi hj g =
        Returns-bind
          (later_loop eq store (2 ^ block_bits n k * 3) blocks i j (j + 1)
            (get_or filled i 0 - (j + 1)) round)
          (first_loop eq store (2 ^ block_bits n k * 3) blocks i (get_or filled i 0) (j + 1) left)
          (later_loop-Building i j (j + 1) (get_or filled i 0 - (j + 1)) round hi (omega arith)
            (omega arith) g)
          (λ next h. first_loop-Building i (j + 1) left next hi (omega arith) h)

    pub bucket_loop-Building :
        (i left : ℕ) (round : Round)
        → i + left ≤ 2 ^ block_bits n k
        → Building forks blocks round
        → Returns
            (Building forks blocks)
            (bucket_loop eq store (2 ^ block_bits n k * 3) blocks i left round)
    unfolding bucket_loop
    bucket_loop-Building i zero round hi g = (round, refl, g)
    bucket_loop-Building i (suc left) round hi g =
        rw (read-get_or {E = Refusal} filled i 0 (omega (arith, shape.counts))) (
          Returns-bind
            (first_loop eq store (2 ^ block_bits n k * 3) blocks i (get_or filled i 0) 0
              (get_or filled i 0) round)
            (bucket_loop eq store (2 ^ block_bits n k * 3) blocks (i + 1) left)
            (first_loop-Building i 0 (get_or filled i 0) round (omega arith) (omega arith) g)
            (λ next h. bucket_loop-Building (i + 1) left next (omega arith) h))
