-- ===== src/Tromp/Indices.antt =====
-- The indices of a candidate: their count, their order, and what is recorded of them.
use requihash.Base.{
  ℕ, zero, suc, ◌/◌, ◌%◌, ◌^◌, ◌≤◌, ◌<◌, min, ◌≡◌, refl, sym, ap, ◌∙◌, inl, inr, true, ltb, ltb-<,
  ltb-false, leb, leb-≤, leb-false, take, take_all, ◌+◌, Bool-cases, List, [], ◌∷◌, ◌++◌, length,
  length-append, get_or, take_append, drop_append, All, All-append, arith,
}
use requihash.Base.Bits.{pow_pos}
use requihash.Base.Elem.{here}
use requihash.Outcome.{ok, Returns, Returns-bind}
use requihash.Indexing.{read-get_or, read-All, IsRow}
use requihash.Distinct.{Distinct, sort_unstable}
use requihash.Distinct.Decides.{
  Ascending, sort_unstable-Ascending, sort_unstable-Distinct, above-not_Elem,
}
use requihash.Tromp.{
  wk, maxsols, nbuckets, nslots_max, Digit, tree_bucketid, tree_slotid0, tree_slotid1,
  order_indices, slot_attr, listindices0, listindices1, ascends, Solutions, record_solution,
  candidate,
}
use requihash.Tromp.Attributes.{tree_bounds}
use requihash.Tromp.Digits.{IsSlot, IsDigit}
use native.Mathlib.Nat.{pow-suc}

-- At every node of the binary tree the first index of the left half is at most that of the right half.
abbrev pub IsOrdered : ℕ → List ℕ → Type 0
IsOrdered zero v = Unit
IsOrdered (suc r) v =
    (l : List ℕ) × (m : List ℕ) × (v ≡ l ++ m)
    × (length l ≡ 2 ^ r)
    × (length m ≡ 2 ^ r)
    × IsOrdered r l
    × IsOrdered r m
    × (get_or l 0 0 ≤ get_or m 0 0)

abbrev pub IsVector : ℕ → List ℕ → Type 0
IsVector r v = (length v ≡ 2 ^ r) × IsOrdered r v

get_or-append_right : (l m : List ℕ) → get_or (l ++ m) (length l) 0 ≡ get_or m 0 0
get_or-append_right [] m = refl
get_or-append_right (x ∷ l) m = get_or-append_right l m

get_or-append_left : (l m : List ℕ) → 0 < length l → get_or (l ++ m) 0 0 ≡ get_or l 0 0
get_or-append_left [] m h = absurd (omega arith)
get_or-append_left (x ∷ l) m h = refl

order_indices-IsVector :
    (r : ℕ) (l m : List ℕ)
    → IsVector r l
    → IsVector r m
    → Returns (IsVector (suc r)) (order_indices (l ++ m) (2 ^ r))
unfolding order_indices
order_indices-IsVector r l m (ll, ol) (lm, om) =
    let some = pow_pos r in
    let both = length-append l m in
    let twice = pow-suc 2 r in
    let first = get_or-append_left l m (omega arith) in
    let second : get_or (l ++ m) (2 ^ r) 0 ≡ get_or m 0 0 =
      ap (λ t. get_or (l ++ m) t 0) (sym ll) ∙ get_or-append_right l m in
    rw
      (
        read-get_or {E = Unit {0}} (l ++ m) 0 0 (omega arith),
        read-get_or {E = Unit {0}} (l ++ m) (2 ^ r) 0 (omega arith),
        first,
        second,
        drop_append l m (2 ^ r) (sym ll),
        take_append l m (2 ^ r) (sym ll),
      )
      (elim (Bool-cases (ltb (get_or m 0 0) (get_or l 0 0))) [
        | inl e ↦
            let swapped = length-append m l in
            rw e (
              m ++ l,
              refl,
              (omega arith, (m, l, refl, lm, ll, om, ol, omega (arith, ltb-< _ _ e))),
            )
        | inr e ↦ rw e (l ++ m, refl, (omega arith, (l, m, refl, ll, lm, ol, om, ltb-false _ _ e)))
      ])

slot_attr_lt :
    (trees : List Digit) (i bucketid s : ℕ)
    → All IsDigit trees
    → i < length trees
    → bucketid < nbuckets
    → s < nslots_max
    → Returns (λ attr. attr < 2 ^ 32) (slot_attr trees i bucketid s)
unfolding slot_attr
slot_attr_lt trees i bucketid s all hi hb hs =
    Returns-bind _ _ (read-All IsDigit trees i all hi) (λ digit d.
      Returns-bind _ _
        (read-All (IsRow IsSlot nslots_max) digit.slots bucketid d.slots (omega (arith, d.rows)))
        (λ row (len, slots).
          Returns-bind _ _ (read-All IsSlot row s slots (omega arith))
            (λ slot h. (slot.attr, refl, h.1))))

-- The tables from which the indices are unfolded.
module _ (trees0 trees1 : List Digit) (good0 : All IsDigit trees0) (good1 : All IsDigit trees1)
    (three : length trees0 ≡ 3) (two : length trees1 ≡ 2) where
  mutual
    unfolding listindices0 listindices1

    listindices0-IsVector :
        (r t : ℕ)
        → r ≤ 4
        → r % 2 ≡ 0
        → t < 2 ^ 32
        → Returns (IsVector r) (listindices0 trees0 trees1 r t)
    listindices0-IsVector zero t h even ht = (t ∷ [], refl, (refl, tt))
    listindices0-IsVector (suc r) t h even ht =
        let (hb, h0, h1) = tree_bounds t ht in
        let (attr0, e0, lt0) =
          slot_attr_lt trees1 (r / 2) (tree_bucketid t) (tree_slotid0 t) good1 (omega arith) hb
            h0 in
        let (attr1, e1, lt1) =
          slot_attr_lt trees1 (r / 2) (tree_bucketid t) (tree_slotid1 t) good1 (omega arith) hb
            h1 in
        let (l, el, vl) = listindices1-IsVector r attr0 (omega arith) (omega arith) lt0 in
        let (m, em, vm) = listindices1-IsVector r attr1 (omega arith) (omega arith) lt1 in
        rw (e0, e1, el, em) (order_indices-IsVector r l m vl vm)

    listindices1-IsVector :
        (r t : ℕ)
        → r ≤ 5
        → r % 2 ≡ 1
        → t < 2 ^ 32
        → Returns (IsVector r) (listindices1 trees0 trees1 r t)
    listindices1-IsVector zero t h odd ht = absurd (omega arith)
    listindices1-IsVector (suc r) t h odd ht =
        let (hb, h0, h1) = tree_bounds t ht in
        let (attr0, e0, lt0) =
          slot_attr_lt trees0 (r / 2) (tree_bucketid t) (tree_slotid0 t) good0 (omega arith) hb
            h0 in
        let (attr1, e1, lt1) =
          slot_attr_lt trees0 (r / 2) (tree_bucketid t) (tree_slotid1 t) good0 (omega arith) hb
            h1 in
        let (l, el, vl) = listindices0-IsVector r attr0 (omega arith) (omega arith) lt0 in
        let (m, em, vm) = listindices0-IsVector r attr1 (omega arith) (omega arith) lt1 in
        rw (e0, e1, el, em) (order_indices-IsVector r l m vl vm)

ascends-Distinct : (xs : List ℕ) → Ascending xs → ascends xs ≡ true → Distinct xs
unfolding ascends
ascends-Distinct [] a h = tt
ascends-Distinct (x ∷ []) a h = (λ m. elim m [ ], tt)
ascends-Distinct (x ∷ y ∷ rest) a h = elim (Bool-cases (leb y x)) [
  | inl e ↦ let r = rw e at h in cc
  | inr e ↦
      let lt = leb-false _ _ e in
      (
        λ m. above-not_Elem x y (y ∷ rest) lt (omega arith, a.1.0) m,
        ascends-Distinct (y ∷ rest) a.1 (rw e at h),
      )
]

Distinct-ascends : (xs : List ℕ) → Ascending xs → Distinct xs → ascends xs ≡ true
unfolding ascends
Distinct-ascends [] a d = refl
Distinct-ascends (x ∷ []) a d = refl
Distinct-ascends (x ∷ y ∷ rest) a (new, d) = elim (Bool-cases (leb y x)) [
  | inl e ↦
      let le = leb-≤ _ _ e in let same : x ≡ y = omega (arith, a.0.0) in absurd (new (here same))
  | inr e ↦ rw e (Distinct-ascends (y ∷ rest) a.1 d)
]

-- A vector that is recorded: 32 distinct indices, in the order of the tree.
abbrev pub IsRecorded : List ℕ → Type 0
IsRecorded v = IsVector wk v × Distinct v

-- What is recorded so far: the first eight of the solutions that were counted.
pub record IsFound (st : Solutions) : Type 0 where
  pub kept : length st.sols ≡ min st.nsols maxsols
  pub vectors : All IsRecorded st.sols

-- One vector's outcome: if its indices are distinct it is counted, and it is appended to the kept
-- solutions, of which the first eight stay; if not, nothing changes.
pub record Outcomes (prf : List ℕ) (st next : Solutions) : Type 0 where
  pub counted : Distinct prf → next.nsols ≡ suc st.nsols
  pub kept : Distinct prf → next.sols ≡ take maxsols (st.sols ++ prf ∷ [])
  pub ignored : ¬ Distinct prf → next ≡ st

one_more : (n : ℕ) → n + 1 ≡ suc n
one_more n = omega arith

record_solution-Outcomes :
    (prf : List ℕ) (st : Solutions)
    → IsVector wk prf
    → IsFound st
    → IsFound (record_solution prf st) × Outcomes prf st (record_solution prf st)
unfolding record_solution
record_solution-Outcomes prf st v f = elim (Bool-cases (ascends (sort_unstable prf))) [
  | inr e ↦
      let twice : ¬ Distinct prf = λ d.
        let hit =
          Distinct-ascends (sort_unstable prf) (sort_unstable-Ascending prf)
            ((sort_unstable-Distinct prf).1 d) in
        cc in
      rw e (
        f,
        record {
          counted = λ d. absurd (twice d);
          kept = λ d. absurd (twice d);
          ignored = λ _. refl;
        },
      )
  | inl e ↦
      let distinct =
        (sort_unstable-Distinct prf).0
          (ascends-Distinct (sort_unstable prf) (sort_unstable-Ascending prf) e) in
      let kept = f.kept in
      let longer = length-append st.sols (prf ∷ []) in
      rw e (elim (Bool-cases (ltb st.nsols maxsols)) [
        | inl room ↦
            let lt = ltb-< _ _ room in
            rw room (
              record {
                kept = omega arith;
                vectors = All-append IsRecorded st.sols (prf ∷ []) f.vectors ((v, distinct), tt);
              },
              record {
                counted = λ _. one_more st.nsols;
                kept = λ _. sym (take_all maxsols (st.sols ++ prf ∷ []) (omega arith));
                ignored = λ twice. absurd (twice distinct);
              },
            )
        | inr full ↦
            let le = ltb-false _ _ full in
            rw full (
              record { kept = omega arith; vectors = f.vectors },
              record {
                counted = λ _. one_more st.nsols;
                kept = λ _. sym (take_append st.sols (prf ∷ []) maxsols (omega arith));
                ignored = λ twice. absurd (twice distinct);
              },
            )
      ])
]

-- A candidate from well-formed tables unfolds, without a panic, to a vector of 32 indices in the order of
-- the tree. If they are distinct the vector is counted and appended to the kept solutions, of which
-- the first eight stay, and if not, what is recorded does not change; what is kept stays good.
pub candidate-Outcomes :
    (trees0 trees1 : List Digit) (t : ℕ) (st : Solutions)
    → All IsDigit trees0
    → All IsDigit trees1
    → length trees0 ≡ 3
    → length trees1 ≡ 2
    → t < 2 ^ 32
    → IsFound st
    → (prf : List ℕ) × (listindices1 trees0 trees1 wk t ≡ ok prf)
      × IsVector wk prf
      × Returns (λ next. IsFound next × Outcomes prf st next) (candidate trees0 trees1 t st)
unfolding candidate
candidate-Outcomes trees0 trees1 t st good0 good1 three two ht f =
    let (prf, e, v) =
      listindices1-IsVector trees0 trees1 good0 good1 three two wk t (omega arith) refl ht in
    (prf, e, v, rw e (record_solution prf st, refl, record_solution-Outcomes prf st v f))
