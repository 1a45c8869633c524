-- ===== src/Solve/Agree.antt =====
-- The arena solver and the reference solver of Req/rust/src/lib.rs return the same list.
use requihash.Base.{
  ℕ, zero, suc, ◌+◌, ◌-◌, ◌*◌, ◌^◌, ◌≤◌, ◌<◌, ◌≡◌, refl, sym, ap, ◌∙◌, inl, inr, false, Bool-cases,
  ◌==◌, if◌then◌else◌, list_lt, none, some, List, [], ◌∷◌, ◌++◌, map, length, length-append,
  length-drop, length-replicate, replicate-add, take, drop, take_append, drop_append, replicate,
  arith,
}
use requihash.Base.Elem.{Elem, here, there}
use requihash.Params.{collision_bit_length, collision_byte_length}
use requihash.Engine.{Requihash, leaf_row_into}
use requihash.Engine.Keying.{length-leaf_row, leaf_row-zeros}
use requihash.Distinct.{slices_distinct}
use requihash.Verify.{Row}
use requihash.Verify.Shrink.{length-xor_bytes}
use requihash.Verify.Flat.{flat, Even}
use requihash.Collisions.{merge_round}
use requihash.Collisions.Pairing.{merge_round-Merges}
use requihash.Solve.{key, merge_rows, initial_rows, solve_rounds, is_empty, solve_reference}
use requihash.Solve.Arena.{
  Arena, range, fill_leaves, collect, merge_arena, arena_rounds, solve_arena_with_leaves,
  solve_arena,
}
use requihash.Solve.Buffers.{Holds, Holds-rows, Holds-solutions, round-rows, collect-Holds}
use mathlib.Core.Path.{subst}
use native.Mathlib.Nat.{suc-mul}

-- The widths of a row.
abbrev IsRow : ℕ → ℕ → Row → Type 0
IsRow w c r = (length r.h ≡ w) × (length r.idx ≡ c)

merge_rows-IsRow :
    (cbyte w c : ℕ) (a b r : Row)
    → IsRow w c a
    → IsRow w c b
    → merge_rows cbyte a b ≡ some r
    → IsRow (w - cbyte) (c * 2) r
unfolding merge_rows
merge_rows-IsRow cbyte w c a b r (ha, ia) (hb, ib) e =
    elim (Bool-cases (slices_distinct a.idx b.idx)) [
      | inr n ↦ absurd (not_some (rw n at e))
      | inl y ↦
          let e' = rw y at e in
          let merged = inside e' in
          subst (IsRow (w - cbyte) (c * 2)) merged (
            length-xor_bytes (drop cbyte a.h) (drop cbyte b.h)
                  (length-drop cbyte a.h ∙ rw (ha, sym hb) (sym (length-drop cbyte b.h)))
                ∙ length-drop cbyte a.h
                ∙ ap (λ t. t - cbyte) ha,
            ordered,
          )
    ]
  where
    not_some : none ≡ some r → ⊥
    not_some e = cc

    inside : {x y : Row} → some x ≡ some y → x ≡ y
    inside e = cc

    ordered : length (if list_lt a.idx b.idx then a.idx ++ b.idx else b.idx ++ a.idx) ≡ c * 2
    ordered = elim (Bool-cases (list_lt a.idx b.idx)) [
      | inl l ↦ rw l (length-append a.idx b.idx ∙ omega (arith, ia, ib))
      | inr l ↦ rw l (length-append b.idx a.idx ∙ omega (arith, ia, ib))
    ]

-- All rows of a list have the widths, in the two forms that are in use.
unfoldable pub IsRows : ℕ → ℕ → List Row → Type 0
IsRows w c x = (r : Row) → Elem r x → IsRow w c r

IsRows-Even :
    (w c : ℕ) (x : List Row)
    → IsRows w c x
    → Even w (map (λ (r : Row). r.h) x) × Even c (map (λ (r : Row). r.idx) x)
unfolding IsRows
IsRows-Even w c [] v = (tt, tt)
IsRows-Even w c (r ∷ x) v =
    let (h, i) = v r (here refl) in
    let (hs, is) = IsRows-Even w c x (λ t m. v t (there m)) in ((h, hs), (i, is))

pub merge_round-IsRows :
    (cbyte w c : ℕ) (x : List Row)
    → IsRows w c x
    → IsRows (w - cbyte) (c * 2) (merge_round (merge_rows cbyte) (key cbyte) x)
unfolding IsRows
merge_round-IsRows cbyte w c x v r m =
    let (a, b, ma, mb, e, f) = merge_round-Merges (merge_rows cbyte) (key cbyte) r x m in
    merge_rows-IsRow cbyte w c a b r (v a ma) (v b mb) f

-- One round keeps the buffers and the rows together.
merge_arena-Holds :
    (cbyte : ℕ) (s : Arena) (x : List Row)
    → cbyte ≤ s.hstride
    → 0 < s.icount
    → IsRows s.hstride s.icount x
    → Holds s x
    → Holds (merge_arena cbyte s) (merge_round (merge_rows cbyte) (key cbyte) x)
unfolding merge_arena
merge_arena-Holds cbyte s x room pos v holds =
    let out = merge_round (merge_rows cbyte) (key cbyte) x in
    let (wide, long) =
      IsRows-Even (s.hstride - cbyte) (s.icount * 2) out
        (merge_round-IsRows cbyte s.hstride s.icount x v) in
    rw (round-rows cbyte s room (range 0 s.nrows), Holds-rows s x holds)
      (collect-Holds (s.hstride - cbyte) (s.icount * 2) out (omega arith) wide long)

empty_iff : (x : List Row) → is_empty x ≡ (length x == 0)
empty_iff [] = refl
empty_iff (r ∷ x) = sym (differs (length x))
  where
    differs : (n : ℕ) → (suc n == 0) ≡ false
    differs n = ground arith

widths :
    (cbyte : ℕ) (s : Arena)
    → ((merge_arena cbyte s).hstride ≡ s.hstride - cbyte)
      × ((merge_arena cbyte s).icount ≡ s.icount * 2)
unfolding merge_arena collect
widths cbyte s = (refl, refl)

arena_rounds-Holds :
    (cbyte left : ℕ) (s : Arena) (x : List Row)
    → left * cbyte ≤ s.hstride
    → 0 < s.icount
    → IsRows s.hstride s.icount x
    → Holds s x
    → Holds (arena_rounds cbyte left s) (solve_rounds cbyte left x)
unfolding arena_rounds solve_rounds
arena_rounds-Holds cbyte zero s x room pos v holds = holds
arena_rounds-Holds cbyte (suc left) s x room pos v holds =
    let s' = merge_arena cbyte s in
    let x' = merge_round (merge_rows cbyte) (key cbyte) x in
    let holds' = merge_arena-Holds cbyte s x (omega arith) pos v holds in
    let (narrower, longer) = widths cbyte s in
    let same : (s'.nrows == 0) ≡ is_empty x' = ap (λ n. n == 0) holds'.count ∙ sym (empty_iff x') in
    let v' : IsRows s'.hstride s'.icount x' =
      rw (narrower, longer) (merge_round-IsRows cbyte s.hstride s.icount x v) in
    elim (Bool-cases (is_empty x')) [
      | inl e ↦ rw (same ∙ e, e) holds'
      | inr e ↦
          rw (same ∙ e, e)
            (arena_rounds-Holds cbyte left s' x' (omega (arith, narrower)) (omega (arith, longer))
              v' holds')
    ]

abbrev blank : ℕ → List ℕ
blank n = replicate n 0

module _ (e : Requihash) where
  abbrev full : ℕ
  full = (e.p.k + 1) * collision_byte_length e.p

  fill_leaves-rows :
      (leaf count : ℕ)
      → fill_leaves e full leaf count (blank (count * full))
        ≡ flat (map (λ (r : Row). r.h) (initial_rows e leaf count))
  unfolding fill_leaves initial_rows flat
  fill_leaves-rows leaf zero = refl
  fill_leaves-rows leaf (suc count) =
      let more = count * full in
      let split : blank (suc count * full) ≡ blank full ++ blank more =
        ap blank {x = suc count * full} {y = full + more} (omega (arith, suc-mul count full))
        ∙ replicate-add {A = ℕ} full more 0 in
      let len = sym (length-replicate {A = ℕ} full 0) in
      ap
        (λ (t : List ℕ).
          leaf_row_into e leaf (take full t) ++ fill_leaves e full (leaf + 1) count (drop full t))
        split
      ∙ rw (
        take_append (blank full) (blank more) full len,
        drop_append (blank full) (blank more) full len,
        fill_leaves-rows (leaf + 1) count,
        leaf_row-zeros e leaf,
      )

  range-rows :
      (leaf count : ℕ)
      → range leaf count ≡ flat (map (λ (r : Row). r.idx) (initial_rows e leaf count))
  unfolding range initial_rows flat
  range-rows leaf zero = refl
  range-rows leaf (suc count) = ap (◌∷◌ leaf) (range-rows (leaf + 1) count)

  length-initial_rows : (leaf count : ℕ) → length (initial_rows e leaf count) ≡ count
  unfolding initial_rows
  length-initial_rows leaf zero = refl
  length-initial_rows leaf (suc count) = ap suc (length-initial_rows (leaf + 1) count)

  pub initial-IsRows : (leaf count : ℕ) → IsRows full 1 (initial_rows e leaf count)
  unfolding initial_rows IsRows
  initial-IsRows leaf zero r m = elim m [ ]
  initial-IsRows leaf (suc count) r (here p) =
      subst (IsRow full 1) (sym p) (length-leaf_row e leaf, refl)
  initial-IsRows leaf (suc count) r (there m) = initial-IsRows (leaf + 1) count r m

  start : ℕ → Arena
  start count = record {
    hashes = fill_leaves e full 0 count (blank (count * full));
    idxs = range 0 count;
    hstride = full;
    icount = 1;
    nrows = count;
  }

  start-Holds : (count : ℕ) → Holds (start count) (initial_rows e 0 count)
  unfolding start
  start-Holds count =
      let (wide, long) = IsRows-Even full 1 (initial_rows e 0 count) (initial-IsRows 0 count) in
      record {
        hashes = fill_leaves-rows 0 count;
        idxs = range-rows 0 count;
        wide = wide;
        long = long;
        count = sym (length-initial_rows 0 count);
      }

-- On every engine the arena solver returns the list of the reference solver: the same solutions, in
-- the same order.
pub solve_arena-eq-reference : (e : Requihash) → solve_arena e ≡ solve_reference e
unfolding solve_arena solve_arena_with_leaves solve_reference start
solve_arena-eq-reference e =
    let cbyte = collision_byte_length e.p in
    let count = 2 ^ (collision_bit_length e.p + 1) in
    Holds-solutions (arena_rounds cbyte e.p.k (start e count))
      (solve_rounds cbyte e.p.k (initial_rows e 0 count))
      (arena_rounds-Holds cbyte e.p.k (start e count) (initial_rows e 0 count)
        (omega (arith, suc-mul e.p.k cbyte)) (omega arith) (initial-IsRows e 0 count)
        (start-Holds e count))
