-- ===== src/Solve/Nodes.antt =====
-- The rows of each round of the reference solver are the nodes over index vectors that the rounds
-- before have found consistent.
use requihash.Base.{
  ℕ, suc, ◌+◌, ◌^◌, ◌<◌, ◌≡◌, ◌≢◌, ◌↔◌, refl, sym, ap, ◌∙◌, inl, inr, Bool-cases, if◌then◌else◌,
  list_lt, list_lt_asymm, list_lt_total, Option, none, some, List, [], ◌∷◌, ◌++◌, length, take,
  drop, All, All-append, All-left, All-right, take-append-drop, length-take, length-drop, arith,
}
use requihash.Base.Elem.{Elem, here, there, Elem-append_cases, Elem-append_left, Elem-append_right}
use requihash.Params.{collision_bit_length}
use requihash.Engine.{Requihash}
use requihash.Distinct.{Distinct, Disjoint, slices_distinct}
use requihash.Distinct.Decides.{slices_distinct_iff}
use requihash.Verify.{Row, xor_bytes}
use requihash.Verify.Solution.{IsTree}
use requihash.Base.Bits.{pow_pos}
use requihash.Verify.Xor.{xor_bytes_comm}
use requihash.Verify.Blocks.{cbyte, node, IsNode, Collide, join-IsNode, split-IsNode, merge-node}
use requihash.Collisions.{merge_round}
use requihash.Collisions.Pairing.{merge_round-Merges, merge_round_complete}
use requihash.Solve.{key, merge_rows}
use mathlib.Core.Path.{subst}
use native.Mathlib.Nat.{two-pow-succ}

Distinct-append :
    (xs ys : List ℕ) → Distinct (xs ++ ys) ↔ (Distinct xs × Distinct ys × Disjoint xs ys)
Distinct-append [] ys = (λ d. (tt, d, λ a m. elim m [ ]), λ (p, d, q). d)
Distinct-append (x ∷ xs) ys = (forth (Distinct-append xs ys).0, back (Distinct-append xs ys).1)
  where
    forth :
        (Distinct (xs ++ ys) → Distinct xs × Distinct ys × Disjoint xs ys)
        → Distinct (x ∷ (xs ++ ys))
        → Distinct (x ∷ xs) × Distinct ys × Disjoint (x ∷ xs) ys
    forth ih (new, d) =
        let (dx, dy, apart) = ih d in
        (
          (λ m. new (Elem-append_left x xs ys m), dx),
          dy,
          λ a m. elim m [
            | here e ↦ λ q. new (Elem-append_right x xs ys (subst (λ t. Elem t ys) e q))
            | there m' ↦ apart a m'
          ],
        )

    back :
        (Distinct xs × Distinct ys × Disjoint xs ys → Distinct (xs ++ ys))
        → Distinct (x ∷ xs) × Distinct ys × Disjoint (x ∷ xs) ys
        → Distinct (x ∷ (xs ++ ys))
    back ih ((new, dx), dy, apart) = (
      λ m. elim (Elem-append_cases x xs ys m) [ inl p ↦ new p | inr q ↦ apart x (here refl) q ],
      ih (dx, dy, λ a m. apart a (there m)),
    )

module _ (e : Requihash) where
  abbrev pub bound : ℕ
  bound = 2 ^ (collision_bit_length e.p + 1)

  -- What the solver has established of a row's index vector after `d` rounds.
  pub record IsPartial (d : ℕ) (b : List ℕ) : Type 0 where
    pub node : IsNode e d b
    pub distinct : Distinct b
    pub in_range : All (λ i. i < bound) b

  -- The rows are those of the partial solutions of height `d`.
  abbrev pub Rows : ℕ → List Row → Type 0
  Rows d x = (r : Row) → Elem r x ↔ ((b : List ℕ) × (r ≡ node e d b) × IsPartial d b)

  apart-ne : (d : ℕ) (p q : List ℕ) → length p ≡ 2 ^ d → Disjoint p q → p ≢ q
  apart-ne d [] q size apart same = absurd (omega (arith, pow_pos d))
  apart-ne d (x ∷ p) q size apart same =
      apart x (here refl) (subst (λ t. Elem x t) same (here refl))

  join-IsPartial :
      (d : ℕ) (p q : List ℕ)
      → IsPartial d p
      → IsPartial d q
      → Disjoint p q
      → Collide e d p q
      → IsPartial (suc d) (p ++ q)
  join-IsPartial d p q gp gq apart c = record {
    node = join-IsNode e d p q gp.node gq.node c;
    distinct = (Distinct-append p q).1 (gp.distinct, gq.distinct, apart);
    in_range = All-append (λ i. i < bound) p q gp.in_range gq.in_range;
  }

  Disjoint-symm : (p q : List ℕ) → Disjoint p q → Disjoint q p
  Disjoint-symm p q apart a mq mp = apart a mp mq

  swapped-node :
      (d : ℕ) (p q : List ℕ)
      → record {
        h = xor_bytes (drop (cbyte e) (node e d p).h) (drop (cbyte e) (node e d q).h);
        idx = q ++ p;
      }
        ≡ node e (suc d) (q ++ p)
  swapped-node d p q =
      ap {B = Row} (λ t. record { h = t; idx = q ++ p }) (xor_bytes_comm _ _) ∙ merge-node e d q p

  -- The row that `merge_rows` makes of two rows without a common index.
  merged_row : ℕ → Row → Row → Row
  merged_row c a b = record {
    h = xor_bytes (drop c a.h) (drop c b.h);
    idx = if list_lt a.idx b.idx then a.idx ++ b.idx else b.idx ++ a.idx;
  }

  merge_rows-some :
      (c : ℕ) (a b : Row) {r : Row}
      → merge_rows c a b ≡ some r
      → Disjoint a.idx b.idx × (r ≡ merged_row c a b)
  unfolding merge_rows merged_row
  merge_rows-some c a b h = elim (Bool-cases (slices_distinct a.idx b.idx)) [
    | inl t ↦ ((slices_distinct_iff a.idx b.idx).0 t, got (rw t at h))
    | inr t ↦ absurd (never (rw t at h))
  ]
    where
      got : {r : Row} → some (merged_row c a b) ≡ some r → r ≡ merged_row c a b
      got h = cc

      never : {r : Row} → ◌≡◌ {A = Option Row} none (some r) → ⊥
      never h = cc

  merge_rows-apart :
      (c : ℕ) (a b : Row) → Disjoint a.idx b.idx → merge_rows c a b ≡ some (merged_row c a b)
  unfolding merge_rows merged_row
  merge_rows-apart c a b apart = rw ((slices_distinct_iff a.idx b.idx).1 apart)

  merged-IsPartial :
      (d : ℕ) (p q : List ℕ)
      → IsPartial d p
      → IsPartial d q
      → Disjoint p q
      → take (cbyte e) (node e d p).h ≡ take (cbyte e) (node e d q).h
      → (b : List ℕ) × (merged_row (cbyte e) (node e d p) (node e d q) ≡ node e (suc d) b)
        × IsPartial (suc d) b
  unfolding merged_row
  merged-IsPartial d p q gp gq apart same = elim (Bool-cases (list_lt p q)) [
    | inl lt ↦ (
      p ++ q,
      rw lt (merge-node e d p q),
      join-IsPartial d p q gp gq apart (record { same = same; order = lt }),
    )
    | inr ge ↦ elim (list_lt_total p q ge) [
      | inl equal ↦ absurd (apart-ne d p q gp.node.size apart equal)
      | inr gt ↦ (
        q ++ p,
        rw ge (swapped-node d p q),
        join-IsPartial d q p gq gp (Disjoint-symm p q apart)
            (record { same = sym same; order = gt }),
      )
    ]
  ]

  -- A partial solution is the merge of its halves, in either order.
  pub split-IsPartial :
      (d : ℕ) (b : List ℕ)
      → IsPartial (suc d) b
      → (p q : List ℕ) × IsPartial d p
        × IsPartial d q
        × Disjoint p q
        × Collide e d p q
        × (p ++ q ≡ b)
  split-IsPartial d b g =
      let p = take (2 ^ d) b in
      let q = drop (2 ^ d) b in
      let whole = take-append-drop (2 ^ d) b in
      let size_p : length p ≡ 2 ^ d =
        omega (arith, length-take (2 ^ d) b, g.node.size, two-pow-succ d) in
      let size_q : length q ≡ 2 ^ d =
        omega (arith, length-drop (2 ^ d) b, g.node.size, two-pow-succ d) in
      let tree = subst (IsTree e (suc d)) (sym whole) g.node.tree in
      let (np, nq, c) = split-IsNode e d p q size_p size_q tree in
      let (dp, dq, apart) = (Distinct-append p q).0 (subst Distinct (sym whole) g.distinct) in
      let range = subst (All (λ i. i < bound)) (sym whole) g.in_range in
      (
        p,
        q,
        record { node = np; distinct = dp; in_range = All-left (λ i. i < bound) p q range },
        record { node = nq; distinct = dq; in_range = All-right (λ i. i < bound) p q range },
        apart,
        c,
        whole,
      )

  merged-halves :
      (d : ℕ) (p q : List ℕ)
      → Collide e d p q
      → (merged_row (cbyte e) (node e d p) (node e d q) ≡ node e (suc d) (p ++ q))
        × (merged_row (cbyte e) (node e d q) (node e d p) ≡ node e (suc d) (p ++ q))
  unfolding merged_row
  merged-halves d p q c =
      (rw c.order (merge-node e d p q), rw (list_lt_asymm p q c.order) (swapped-node d q p))

  -- One round of the solver.
  pub merge_round-Rows :
      (d : ℕ) (x : List Row)
      → Rows d x
      → Rows (suc d) (merge_round (merge_rows (cbyte e)) (key (cbyte e)) x)
  merge_round-Rows d x rows r = (forth, back)
    where
      forth :
          Elem r (merge_round (merge_rows (cbyte e)) (key (cbyte e)) x)
          → (b : List ℕ) × (r ≡ node e (suc d) b) × IsPartial (suc d) b
      forth m =
          let (u, v, mu, mv, same, f) =
            merge_round-Merges (merge_rows (cbyte e)) (key (cbyte e)) r x m in
          let (p, eu, gp) = (rows u).0 mu in
          let (q, ev, gq) = (rows v).0 mv in
          let f' = rw (eu, ev) at f in
          let same' = rw (eu, ev) at same in
          let (apart, er) = merge_rows-some (cbyte e) (node e d p) (node e d q) f' in
          let (b, eb, gb) = merged-IsPartial d p q gp gq apart same' in (b, er ∙ eb, gb)

      back :
          ((b : List ℕ) × (r ≡ node e (suc d) b) × IsPartial (suc d) b)
          → Elem r (merge_round (merge_rows (cbyte e)) (key (cbyte e)) x)
      back (b, er, g) =
          let (p, q, gp, gq, apart, c, whole) = split-IsPartial d b g in
          let (pq, qp) = merged-halves d p q c in
          let to_r : node e (suc d) (p ++ q) ≡ r = ap (node e (suc d)) whole ∙ sym er in
          merge_round_complete (merge_rows (cbyte e)) (key (cbyte e)) r (node e d p) (node e d q) x
            (λ same. apart-ne d p q gp.node.size apart (ap (λ (t : Row). t.idx) same))
            ((rows (node e d p)).1 (p, refl, gp)) ((rows (node e d q)).1 (q, refl, gq)) c.same
            (merge_rows-apart (cbyte e) (node e d p) (node e d q) apart ∙ ap some (pq ∙ to_r))
            (merge_rows-apart (cbyte e) (node e d q) (node e d p) (Disjoint-symm p q apart)
              ∙ ap some (qp ∙ to_r))
