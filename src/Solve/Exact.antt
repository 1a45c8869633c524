-- ===== src/Solve/Exact.antt =====
-- The reference solver finds the solutions, all of them and nothing else.
use requihash.Base.{
  ℕ, zero, suc, ◌+◌, ◌≤◌, ◌<◌, ◌≡◌, ◌↔◌, refl, sym, ap, ◌∙◌, inl, inr, true, Bool-cases,
  if◌then◌else◌, List, [], ◌∷◌, arith,
}
use requihash.Base.Elem.{Elem, here, there}
use requihash.Outcome.{ok}
use requihash.Engine.{Requihash, leaf_row}
use requihash.Distinct.{all_distinct}
use requihash.Distinct.Decides.{all_distinct_iff}
use requihash.Verify.{Row, all_zero, is_valid_solution}
use requihash.Verify.Solution.{IsSolution}
use requihash.Verify.Blocks.{cbyte, node}
use requihash.Verify.Validity.{leaf-node, tree-root, is_valid_solution_iff}
use requihash.Collisions.{merge_round}
use requihash.Solve.{
  key, merge_rows, initial_rows, solve_rounds, solutions, is_empty, solve_reference,
}
use requihash.Solve.Nodes.{bound, IsPartial, Rows, merge_round-Rows, split-IsPartial}
use mathlib.Core.Path.{subst}
use native.Mathlib.Decide.{dec_lt}

-- A row that `solutions` keeps as `s`.
abbrev Kept : List ℕ → List Row → Type 0
Kept s x = (r : Row) × Elem r x × (all_zero r.h ≡ true) × (all_distinct r.idx ≡ true) × (s ≡ r.idx)

Kept-there : (s : List ℕ) (r : Row) (x : List Row) → Kept s x → Kept s (r ∷ x)
Kept-there s r x (t, m, z, n, e) = (t, there m, z, n, e)

solutions→Kept : (s : List ℕ) (x : List Row) → Elem s (solutions x) → Kept s x
unfolding solutions
solutions→Kept s [] m = elim m [ ]
solutions→Kept s (r ∷ x) m = elim (Bool-cases (all_zero r.h)) [
  | inr z ↦ Kept-there s r x (solutions→Kept s x (rw z at m))
  | inl z ↦ elim (Bool-cases (all_distinct r.idx)) [
    | inr n ↦ Kept-there s r x (solutions→Kept s x (rw (z, n) at m))
    | inl n ↦ step z n (solutions→Kept s x) (rw (z, n) at m)
  ]
]
  where
    step :
        all_zero r.h ≡ true
        → all_distinct r.idx ≡ true
        → (Elem s (solutions x) → Kept s x)
        → Elem s (r.idx ∷ solutions x)
        → Kept s (r ∷ x)
    step z n more (here e) = (r, here refl, z, n, e)
    step z n more (there m) = Kept-there s r x (more m)

Kept→solutions :
    (r : Row) (x : List Row)
    → Elem r x
    → all_zero r.h ≡ true
    → all_distinct r.idx ≡ true
    → Elem r.idx (solutions x)
unfolding solutions
Kept→solutions r [] m z n = elim m [ ]
Kept→solutions r (t ∷ x) (here e) z n =
    let z' = subst (λ (u : Row). all_zero u.h ≡ true) e z in
    let n' = subst (λ (u : Row). all_distinct u.idx ≡ true) e n in
    rw (z', n') (here (ap (λ (u : Row). u.idx) e))
Kept→solutions r (t ∷ x) (there m) z n = elim (Bool-cases (all_zero t.h)) [
  | inr z' ↦ rw z' (Kept→solutions r x m z n)
  | inl z' ↦ elim (Bool-cases (all_distinct t.idx)) [
    | inr n' ↦ rw (z', n') (Kept→solutions r x m z n)
    | inl n' ↦ rw (z', n') (there (Kept→solutions r x m z n))
  ]
]

module _ (e : Requihash) where
  abbrev leaf_record : ℕ → Row
  leaf_record i = record { h = leaf_row e i; idx = i ∷ [] }

  -- The initial rows are those of the leaves from `leaf` on.
  initial→leaf :
      (leaf count : ℕ) (r : Row)
      → Elem r (initial_rows e leaf count)
      → (i : ℕ) × (i < leaf + count) × (r ≡ leaf_record i)
  unfolding initial_rows
  initial→leaf leaf zero r m = elim m [ ]
  initial→leaf leaf (suc count) r (here p) = (leaf, omega arith, p)
  initial→leaf leaf (suc count) r (there m) =
      let (i, lt, p) = initial→leaf (leaf + 1) count r m in (i, omega arith, p)

  leaf→initial :
      (leaf count i : ℕ)
      → leaf ≤ i
      → i < leaf + count
      → Elem (leaf_record i) (initial_rows e leaf count)
  unfolding initial_rows
  leaf→initial leaf zero i lo hi = absurd (omega arith)
  leaf→initial leaf (suc count) i lo hi = elim (dec_lt leaf i) [
    | yes lt ↦ there (leaf→initial (leaf + 1) count i (omega arith) (omega arith))
    | no ge ↦ let same : i ≡ leaf = omega arith in here (ap leaf_record same)
  ]

  initial-Rows : Rows e 0 (initial_rows e 0 (bound e))
  initial-Rows r = (forth, back)
    where
      forth :
          Elem r (initial_rows e 0 (bound e)) → (b : List ℕ) × (r ≡ node e 0 b) × IsPartial e 0 b
      forth m =
          let (i, lt, p) = initial→leaf 0 (bound e) r m in
          (
            i ∷ [],
            p ∙ leaf-node e i,
            record {
              node = record { size = refl; tree = tt };
              distinct = (λ q. elim q [ ], tt);
              in_range = (omega arith, tt);
            },
          )

      single : (b : List ℕ) → r ≡ node e 0 b → IsPartial e 0 b → Elem r (initial_rows e 0 (bound e))
      single [] p g = absurd (omega (arith, g.node.size))
      single (i ∷ []) p g =
          subst (λ t. Elem t (initial_rows e 0 (bound e))) (leaf-node e i ∙ sym p)
            (leaf→initial 0 (bound e) i (omega arith) (omega (arith, g.in_range.0)))
      single (i ∷ j ∷ b) p g = absurd (omega (arith, g.node.size))

      back :
          ((b : List ℕ) × (r ≡ node e 0 b) × IsPartial e 0 b) → Elem r (initial_rows e 0 (bound e))
      back (b, p, g) = single b p g

  -- Where a round leaves no row, none of the later ones would.
  no-Rows : (left d m : ℕ) → m ≡ d + left → Rows e d [] → Rows e m []
  no-Rows zero d m em rows = let same : m ≡ d = omega arith in rw same rows
  no-Rows (suc left) d m em rows = no-Rows left (suc d) m (omega arith) (λ r. (forth r, back r))
    where
      forth : (r : Row) → Elem r [] → (b : List ℕ) × (r ≡ node e (suc d) b) × IsPartial e (suc d) b
      forth r m = elim m [ ]

      back : (r : Row) → (b : List ℕ) × (r ≡ node e (suc d) b) × IsPartial e (suc d) b → Elem r []
      back r (b, er, g) =
          let (p, q, gp, gq, apart, c, whole) = split-IsPartial e d b g in
          elim ((rows (node e d p)).1 (p, refl, gp)) [ ]

  solve_rounds-Rows :
      (left d m : ℕ) (x : List Row)
      → m ≡ d + left
      → Rows e d x
      → Rows e m (solve_rounds (cbyte e) left x)
  unfolding solve_rounds
  solve_rounds-Rows zero d m x em rows = let same : m ≡ d = omega arith in rw same rows
  solve_rounds-Rows (suc left) d m x em rows =
      let xc = merge_round (merge_rows (cbyte e)) (key (cbyte e)) x in
      let rows' = merge_round-Rows e d x rows in
      break xc (solve_rounds (cbyte e) left xc) rows'
        (solve_rounds-Rows left (suc d) m xc (omega arith) rows')
    where
      break :
          (xc rest : List Row)
          → Rows e (suc d) xc
          → Rows e m rest
          → Rows e m (if is_empty xc then xc else rest)
      break [] rest none_left more = no-Rows left (suc d) m (omega arith) none_left
      break (r ∷ xc) rest rows more = more

  final-Rows : Rows e e.p.k (solve_rounds (cbyte e) e.p.k (initial_rows e 0 (bound e)))
  final-Rows =
      solve_rounds-Rows e.p.k 0 e.p.k (initial_rows e 0 (bound e)) (omega arith) initial-Rows

  solve_reference-IsSolution : (s : List ℕ) → Elem s (solve_reference e) ↔ IsSolution e s
  unfolding solve_reference
  solve_reference-IsSolution s = (forth, back)
    where
      forth : Elem s (solve_reference e) → IsSolution e s
      forth m =
          let (r, mr, z, n, es) =
            solutions→Kept s (solve_rounds (cbyte e) e.p.k (initial_rows e 0 (bound e))) m in
          let (b, er, g) = (final-Rows r).0 mr in
          let same : b ≡ s = sym (es ∙ ap (λ (t : Row). t.idx) er) in
          let z' = subst (λ (t : Row). all_zero t.h ≡ true) er z in
          subst (IsSolution e) same (record {
            size = g.node.size;
            distinct = g.distinct;
            in_range = g.in_range;
            tree = g.node.tree;
            root = (tree-root e b g.node.tree).0 z';
          })

      back : IsSolution e s → Elem s (solve_reference e)
      back v =
          let g : IsPartial e e.p.k s = record {
            node = record { size = v.size; tree = v.tree };
            distinct = v.distinct;
            in_range = v.in_range;
          } in
          Kept→solutions (node e e.p.k s) _ ((final-Rows (node e e.p.k s)).1 (s, refl, g))
            ((tree-root e s v.tree).1 v.root) ((all_distinct_iff s).1 v.distinct)

-- The reference solver and the reference verifier agree on every engine: `solve_reference` lists
-- exactly the index vectors on which `is_valid_solution` returns `Ok`.
pub solve_reference-exact :
    (e : Requihash) (s : List ℕ) → Elem s (solve_reference e) ↔ (is_valid_solution e s ≡ ok tt)
solve_reference-exact e s =
    let (found, finds) = solve_reference-IsSolution e s in
    let (sound, complete) = is_valid_solution_iff e s in
    (λ m. complete (found m), λ h. finds (sound h))
