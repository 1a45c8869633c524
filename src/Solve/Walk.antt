-- ===== src/Solve/Walk.antt =====
-- The pointer solver of Req/rust/src/solve/pointer.rs returns the list of the reference solver: walking
-- back gives the index vectors that the reference solver carries along.
use requihash.Base.{
  ℕ, zero, suc, ◌+◌, ◌-◌, ◌*◌, ◌^◌, ◌≤◌, ◌≡◌, refl, sym, ap, ◌∙◌, inl, inr, Bool-cases,
  if◌then◌else◌, Option, List, [], ◌∷◌, map, length, take, drop, take_all, length-drop, arith,
}
use requihash.Base.Elem.{Elem, here, there, Elem-map}
use requihash.Params.{collision_bit_length, collision_byte_length}
use requihash.Engine.{Requihash, leaf_row}
use requihash.Verify.{Row}
use requihash.Collisions.{sort_by, merge_groups, merge_round}
use requihash.Collisions.Renaming.{merge_round-map, map-merge_round, read_out}
use requihash.Solve.{
  key, merge_rows, initial_rows, solve_rounds, solutions, is_empty, solve_reference,
}
use requihash.Solve.Arena.{range}
use requihash.Solve.Agree.{IsRows, merge_round-IsRows, initial-IsRows}
use requihash.Solve.Pointer.{
  PtrRow, row, shares, leaves_share, ptr_key, merge_ptrs, ptr_groups, rest_len, next_level, roots,
  ptr_rounds, leaf_level, solve_pointer,
}
use requihash.Solve.Pairs.{
  ptr_groups-merge_groups, shares-slices_distinct, join-order, leaves, seen_row, reconstruct-leaves,
}

row-≤ :
    (w : ℕ) (prev : List PtrRow) (r : ℕ)
    → ((t : PtrRow) → Elem t prev → length t.hash ≡ w)
    → length (row prev r).hash ≤ w
row-≤ w [] r v = omega arith
row-≤ w (t ∷ prev) zero v = omega (arith, v t (here refl))
row-≤ w (t ∷ prev) (suc r) v = row-≤ w prev r (λ u m. v u (there m))

module _ (cbyte w : ℕ) (prev : List PtrRow) (older : List (List PtrRow))
    (wide : (t : PtrRow) → Elem t prev → length t.hash ≡ w) where
  abbrev seen_at : ℕ → Row
  seen_at r = seen_row older (row prev r)

  rest-drop :
      (r : ℕ) → take (w - cbyte) (drop cbyte (row prev r).hash) ≡ drop cbyte (row prev r).hash
  rest-drop r =
      take_all (w - cbyte) (drop cbyte (row prev r).hash)
        (omega (arith, length-drop cbyte (row prev r).hash, row-≤ w prev r wide))

  merge_ptrs-rows :
      (a b : ℕ)
      → read_out
          (merge_ptrs cbyte (w - cbyte) prev older)
          (seen_row (prev ∷ older))
          (merge_ptrs cbyte (w - cbyte) prev older a b)
        ≡ merge_rows cbyte (seen_at a) (seen_at b)
  unfolding merge_ptrs leaves_share merge_rows leaves
  merge_ptrs-rows a b =
      let ia = leaves older (row prev a).ptr in
      let ib = leaves older (row prev b).ptr in
      let ea = reconstruct-leaves prev older a in
      let eb = reconstruct-leaves prev older b in
      elim (Bool-cases (shares ia ib)) [
        | inl e ↦ rw (ea, eb, shares-slices_distinct ia ib, e)
        | inr e ↦ rw (
          ea,
          eb,
          shares-slices_distinct ia ib,
          e,
          rest-drop a,
          rest-drop b,
          ea,
          eb,
          join-order ia ib,
        )
      ]

map-range-suc {ℓ} :
    {B : Type ℓ} (h : ℕ → B) (from count : ℕ)
    → map h (range (from + 1) count) ≡ map (λ r. h (suc r)) (range from count)
unfolding range
map-range-suc h from zero = refl
map-range-suc h from (suc count) =
    ap (λ n. h n ∷ map h (range (from + 1 + 1) count)) {x = from + 1} {y = suc from} (omega arith)
    ∙ ap (◌∷◌ (h (suc from))) (map-range-suc h (from + 1) count)

map-rows {ℓ} :
    {B : Type ℓ} (f : PtrRow → B) (level : List PtrRow)
    → map (λ r. f (row level r)) (range 0 (length level)) ≡ map f level
unfolding range
map-rows f [] = refl
map-rows f (t ∷ level) =
    ap (◌∷◌ (f t)) (map-range-suc (λ r. f (row (t ∷ level) r)) 0 (length level) ∙ map-rows f level)

length-range : (from count : ℕ) → length (range from count) ≡ count
unfolding range
length-range from zero = refl
length-range from (suc count) = ap suc (length-range (from + 1) count)

-- A level of pointers is a level of the reference solver, seen through the pointers.
next_level-rows :
    (cbyte w : ℕ) (prev : List PtrRow) (older : List (List PtrRow))
    → ((t : PtrRow) → Elem t prev → length t.hash ≡ w)
    → rest_len cbyte prev ≡ w - cbyte
    → map (seen_row (prev ∷ older)) (next_level cbyte prev older)
      ≡ merge_round (merge_rows cbyte) (key cbyte) (map (seen_row older) prev)
unfolding next_level merge_round
next_level-rows cbyte w prev older wide len =
    let ids = range 0 (length prev) in
    let merge = merge_ptrs cbyte (w - cbyte) prev older in
    let f = seen_row (prev ∷ older) in
    let k = ptr_key cbyte prev in
    ap (λ n. map f (ptr_groups (merge_ptrs cbyte n prev older) k (length prev) (sort_by k ids))) len
    ∙ ap (map f) (ptr_groups-merge_groups merge k (length prev) (sort_by k ids))
    ∙ ap (λ n. map f (merge_groups merge k n (sort_by k ids))) (sym (length-range 0 (length prev)))
    ∙ map-merge_round merge f k ids
    ∙ ap (λ (m : ℕ → ℕ → Option Row). merge_round m k ids)
        (λ i a b. merge_ptrs-rows cbyte w prev older wide a b i)
    ∙ merge_round-map (merge_rows cbyte) (λ r. seen_row older (row prev r)) (key cbyte) ids
    ∙ ap (merge_round (merge_rows cbyte) (key cbyte)) (map-rows (seen_row older) prev)

roots-solutions :
    (level : List PtrRow) (older : List (List PtrRow)) (r left : ℕ)
    → roots level older r left ≡ solutions (map (λ i. seen_row older (row level i)) (range r left))
unfolding roots solutions range
roots-solutions level older r zero = refl
roots-solutions level older r (suc left) =
    rw (reconstruct-leaves level older r, roots-solutions level older (r + 1) left)

next_or_stop :
    (f : PtrRow → Row) (next : List PtrRow) (xc x : List Row) (rest : List (List ℕ))
    → map f next ≡ xc
    → rest ≡ solutions x
    → elim next [ [] ↦ [] | _ ∷ _ ↦ rest ] ≡ solutions (if is_empty xc then xc else x)
unfolding solutions
next_or_stop f [] [] x rest e same = refl
next_or_stop f [] (t ∷ xc) x rest e same = cc
next_or_stop f (n ∷ next) [] x rest e same = cc
next_or_stop f (n ∷ next) (t ∷ xc) x rest e same = same

widths :
    (w c : ℕ) (prev : List PtrRow) (older : List (List PtrRow))
    → IsRows w c (map (seen_row older) prev)
    → (t : PtrRow) → Elem t prev
    → length t.hash ≡ w
unfolding IsRows
widths w c prev older v t m = (v (seen_row older t) (Elem-map (seen_row older) t prev m)).0

no_rows : (cbyte left : ℕ) → [] ≡ solutions (solve_rounds cbyte (suc left) [])
unfolding solutions solve_rounds merge_round merge_groups
no_rows cbyte left = refl

ptr_rounds-solutions :
    (cbyte left w c : ℕ) (prev : List PtrRow) (older : List (List PtrRow))
    → IsRows w c (map (seen_row older) prev)
    → ptr_rounds cbyte left prev older
      ≡ solutions (solve_rounds cbyte left (map (seen_row older) prev))
unfolding ptr_rounds solve_rounds
ptr_rounds-solutions cbyte zero w c prev older v =
    roots-solutions prev older 0 (length prev) ∙ ap solutions (map-rows (seen_row older) prev)
ptr_rounds-solutions cbyte (suc left) w c [] older v = no_rows cbyte left
ptr_rounds-solutions cbyte (suc left) w c (r ∷ prev) older v =
    let level = r ∷ prev in
    let next = next_level cbyte level older in
    let wide = widths w c level older v in
    let len : rest_len cbyte level ≡ w - cbyte = ap (λ n. n - cbyte) (wide r (here refl)) in
    let e = next_level-rows cbyte w level older wide len in
    let v' : IsRows (w - cbyte) (c * 2) (map (seen_row (level ∷ older)) next) =
      rw e (merge_round-IsRows cbyte w c (map (seen_row older) level) v) in
    next_or_stop (seen_row (level ∷ older)) next
      (merge_round (merge_rows cbyte) (key cbyte) (map (seen_row older) level)) _ _ e
      (ptr_rounds-solutions cbyte left (w - cbyte) (c * 2) next (level ∷ older) v'
        ∙ ap (λ x. solutions (solve_rounds cbyte left x)) e)

leaf_level-rows :
    (e : Requihash) (from count : ℕ)
    → map (seen_row []) (leaf_level e from count) ≡ initial_rows e from count
unfolding leaf_level initial_rows leaves
leaf_level-rows e from zero = refl
leaf_level-rows e from (suc count) =
    ap (◌∷◌ (record { h = leaf_row e from; idx = from ∷ [] })) (leaf_level-rows e (from + 1) count)

-- On every engine the pointer solver returns the list of the reference solver: the same solutions, in
-- the same order, each with the index vector that walking its pointers back gives.
pub solve_pointer-eq-reference : (e : Requihash) → solve_pointer e ≡ solve_reference e
unfolding solve_pointer solve_reference
solve_pointer-eq-reference e =
    let cbyte = collision_byte_length e.p in
    let count = 2 ^ (collision_bit_length e.p + 1) in
    let same = leaf_level-rows e 0 count in
    ptr_rounds-solutions cbyte e.p.k ((e.p.k + 1) * cbyte) 1 (leaf_level e 0 count) []
      (rw same (initial-IsRows e 0 count))
    ∙ ap (λ x. solutions (solve_rounds cbyte e.p.k x)) same
