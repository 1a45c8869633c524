-- ===== src/Solve/Pairs.antt =====
-- The steps of the pointer solver of Req/rust/src/solve/pointer.rs in the reference solver's terms.
use requihash.Base.{
  ℕ, zero, suc, ◌≡◌, refl, inl, inr, true, false, Bool, not, ◌&&◌, Bool-cases, ◌==◌, if◌then◌else◌,
  list_lt, list_lt_total, list_lt_asymm, list_eq, Option, List, [], ◌∷◌, ◌++◌, arith,
}
use requihash.Distinct.{absent, slices_distinct}
use requihash.Verify.{Row}
use requihash.Collisions.{same_key, after_key, all_pairs, merge_groups}
use requihash.Solve.{key}
use requihash.Solve.Pointer.{
  Ptr, leaf, pair, PtrRow, row, join, reconstruct, contains, shares, ptr_groups,
}

-- A row that is passed over makes a group of its own, which gives no pair.
pub ptr_groups-merge_groups :
    (merge : ℕ → ℕ → Option PtrRow) (key : ℕ → List ℕ) (fuel : ℕ) (xs : List ℕ)
    → ptr_groups merge key fuel xs ≡ merge_groups merge key fuel xs
unfolding ptr_groups merge_groups same_key after_key all_pairs
ptr_groups-merge_groups merge key zero xs = refl
ptr_groups-merge_groups merge key (suc fuel) [] = refl
ptr_groups-merge_groups merge key (suc fuel) (x ∷ []) = refl
ptr_groups-merge_groups merge key (suc fuel) (x ∷ y ∷ rest) =
    elim (Bool-cases (list_eq (key y) (key x))) [
      | inl e ↦ rw (e, ptr_groups-merge_groups merge key fuel (after_key key (key x) rest))
      | inr e ↦ rw (e, ptr_groups-merge_groups merge key fuel (y ∷ rest))
    ]

absent-contains : (x : ℕ) (ys : List ℕ) → absent x ys ≡ not (contains ys x)
unfolding absent contains
absent-contains x [] = refl
absent-contains x (y ∷ ys) = rw (absent-contains x ys, swapped x y) (both (y == x) (contains ys x))
  where
    swapped : (x y : ℕ) → (x == y) ≡ (y == x)
    swapped x y = ground arith

    both : (p q : Bool) → (not p && not q) ≡ not (if p then true else q)
    both true q = refl
    both false q = refl

pub shares-slices_distinct : (la lb : List ℕ) → slices_distinct la lb ≡ not (shares la lb)
unfolding slices_distinct shares
shares-slices_distinct [] lb = refl
shares-slices_distinct (x ∷ la) lb =
    rw (absent-contains x lb, shares-slices_distinct la lb) (both (contains lb x) (shares la lb))
  where
    both : (p q : Bool) → (not p && not q) ≡ not (if p then true else q)
    both true q = refl
    both false q = refl

-- The two ways of putting the smaller index vector first.
pub join-order : (a b : List ℕ) → join a b ≡ (if list_lt a b then a ++ b else b ++ a)
join-order a b = elim (Bool-cases (list_lt b a)) [
  | inl less ↦ rw (less, list_lt_asymm b a less)
  | inr not_less ↦ elim (list_lt_total b a not_less) [
    | inl same ↦ rw same (either (list_lt a a))
    | inr less ↦ rw (not_less, less)
  ]
]
  where
    either : (p : Bool) → (if p then a ++ a else a ++ a) ≡ (if p then a ++ a else a ++ a)
    either p = refl

-- The index vector that a pointer into the level above `older` stands for.
unfoldable pub leaves : List (List PtrRow) → Ptr → List ℕ
leaves older (leaf l) = l ∷ []
leaves older (pair a b) = join (reconstruct older a) (reconstruct older b)

abbrev pub seen_row : List (List PtrRow) → PtrRow → Row
seen_row older r = record { h = r.hash; idx = leaves older r.ptr }

pub reconstruct-leaves :
    (level : List PtrRow) (older : List (List PtrRow)) (r : ℕ)
    → reconstruct (level ∷ older) r ≡ leaves older (row level r).ptr
unfolding reconstruct leaves
reconstruct-leaves level older r = by_ptr (row level r).ptr
  where
    by_ptr :
        (p : Ptr)
        → elim p [ leaf l ↦ l ∷ [] | pair a b ↦ join (reconstruct older a) (reconstruct older b) ]
          ≡ leaves older p
    by_ptr (leaf l) = refl
    by_ptr (pair a b) = refl
