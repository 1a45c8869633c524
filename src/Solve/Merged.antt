-- ===== src/Solve/Merged.antt =====
-- The bucket walk of Req/rust/src/solve/bucket.rs merges what the walk over sorted rows merges.
use requihash.Base.{
  ℕ, zero, suc, ◌+◌, ◌≤◌, ◌<◌, ◌≡◌, refl, sym, ap, ◌∙◌, inl, inr, true, false, Bool-cases, ◌==◌,
  ==_iff, ltb, list_lt, list_eq, Option, List, [], ◌∷◌, ◌++◌, length, length-append,
  length-replicate, replicate, All, All-append, arith,
}
use requihash.Collisions.{same_key, after_key, all_pairs, merge_groups, merge_round}
use requihash.Solve.Counting.{picks}
use requihash.Solve.Grouped.{grouped}
use mathlib.Core.List.{append-nil}
use requihash.Collisions.Sorting.{sort_by-length}
use requihash.Solve.Arena.{range}
use requihash.Solve.Bucket.{bucket_round}
use requihash.Solve.Grouped.{walk-grouped}
use requihash.Solve.Laid.{laid, sort_by-laid}

module _ {ℓ} {B : Type ℓ} (merge : ℕ → ℕ → Option B) (key : ℕ → List ℕ) where
  no_groups : (fuel : ℕ) → merge_groups merge key fuel [] ≡ []
  unfolding merge_groups
  no_groups zero = refl
  no_groups (suc fuel) = refl

  same_key-split :
      (k : List ℕ) (xs rest : List ℕ)
      → All (λ x. list_eq (key x) k ≡ true) xs
      → All (λ x. list_eq (key x) k ≡ false) rest
      → (same_key key k (xs ++ rest) ≡ xs) × (after_key key k (xs ++ rest) ≡ rest)
  unfolding same_key after_key
  same_key-split k [] [] v w = (refl, refl)
  same_key-split k [] (y ∷ rest) v (w, ws) = (rw w, rw w)
  same_key-split k (x ∷ xs) rest (v, vs) w =
      let (same, after) = same_key-split k xs rest vs w in (rw (v, same), rw (v, after))

  first_group :
      (fuel x y : ℕ) (rest : List ℕ)
      → merge_groups merge key (suc fuel) (x ∷ y ∷ rest)
        ≡ all_pairs merge (x ∷ same_key key (key x) (y ∷ rest))
          ++ merge_groups merge key fuel (after_key key (key x) (y ∷ rest))
  unfolding merge_groups
  first_group fuel x y rest = refl

  one_row : (fuel x : ℕ) → merge_groups merge key (suc fuel) (x ∷ []) ≡ []
  unfolding merge_groups
  one_row fuel x = refl

  no_pairs : (x : ℕ) → all_pairs merge (x ∷ []) ≡ []
  unfolding all_pairs
  no_pairs x = refl

  -- The rows with the key of the first make up a group.
  group_front :
      (fuel x : ℕ) (xs rest : List ℕ)
      → All (λ y. list_eq (key y) (key x) ≡ true) xs
      → All (λ y. list_eq (key y) (key x) ≡ false) rest
      → merge_groups merge key (suc fuel) (x ∷ (xs ++ rest))
        ≡ all_pairs merge (x ∷ xs) ++ merge_groups merge key fuel rest
  group_front fuel x [] [] v w = one_row fuel x ∙ sym (rw (no_pairs x, no_groups fuel))
  group_front fuel x [] (y ∷ rest) v w =
      let (same, after) = same_key-split (key x) [] (y ∷ rest) v w in
      first_group fuel x y rest ∙ rw (same, after)
  group_front fuel x (y ∷ xs) rest v w =
      let (same, after) = same_key-split (key x) (y ∷ xs) rest v w in
      first_group fuel x y (xs ++ rest) ∙ rw (same, after)

  whole_group :
      (x : ℕ) (xs : List ℕ)
      → All (λ y. list_eq (key y) (key x) ≡ true) xs
      → merge_groups merge key (suc (length xs)) (x ∷ xs) ≡ all_pairs merge (x ∷ xs)
  whole_group x xs v =
      ap (λ l. merge_groups merge key (suc (length xs)) (x ∷ l)) (sym (append-nil xs))
      ∙ group_front (length xs) x xs [] v tt
      ∙ rw (no_groups (length xs)) (append-nil (all_pairs merge (x ∷ xs)))

  module _ (bkey : ℕ → ℕ) (P : ℕ → Type 0)
      (alike : (x y : ℕ) → P x → P y → list_eq (key x) (key y) ≡ (bkey x == bkey y)) where
    abbrev In : ℕ → ℕ → Type 0
    In b x = P x × (bkey x ≡ b)

    abbrev Above : ℕ → ℕ → Type 0
    Above b x = P x × (b ≤ bkey x)

    picks-In : (b : ℕ) (rs : List ℕ) → All P rs → All (In b) (picks bkey b rs)
    unfolding picks
    picks-In b [] ps = tt
    picks-In b (r ∷ rs) (p, ps) = elim (Bool-cases (bkey r == b)) [
      | inl e ↦ rw e ((p, (==_iff (bkey r) b).0 e), picks-In b rs ps)
      | inr e ↦ rw e (picks-In b rs ps)
    ]

    laid-Above : (b left : ℕ) (rs : List ℕ) → All P rs → All (Above b) (laid bkey rs b left)
    unfolding laid
    laid-Above b zero rs ps = tt
    laid-Above b (suc left) rs ps =
        All-append (Above b) (picks bkey b rs) (laid bkey rs (b + 1) left)
          (weaken_In (picks bkey b rs) (picks-In b rs ps))
          (weaken (laid bkey rs (b + 1) left) (laid-Above (b + 1) left rs ps))
      where
        weaken_In : (xs : List ℕ) → All (In b) xs → All (Above b) xs
        weaken_In [] v = tt
        weaken_In (x ∷ xs) ((p, e), vs) = ((p, omega arith), weaken_In xs vs)

        weaken : (xs : List ℕ) → All (Above (b + 1)) xs → All (Above b) xs
        weaken [] v = tt
        weaken (x ∷ xs) ((p, e), vs) = ((p, omega arith), weaken xs vs)

    same_keys :
        (b x : ℕ) (xs : List ℕ)
        → In b x
        → All (In b) xs
        → All (λ y. list_eq (key y) (key x) ≡ true) xs
    same_keys b x [] v vs = tt
    same_keys b x (y ∷ xs) (p, e) ((q, f), vs) =
        (alike y x q p ∙ (==_iff (bkey y) (bkey x)).1 (f ∙ sym e), same_keys b x xs (p, e) vs)

    other_keys :
        (b x : ℕ) (ys : List ℕ)
        → In b x
        → All (Above (b + 1)) ys
        → All (λ y. list_eq (key y) (key x) ≡ false) ys
    other_keys b x [] v vs = tt
    other_keys b x (y ∷ ys) (p, e) ((q, f), vs) =
        (alike y x q p ∙ differs (bkey y) (bkey x) (omega arith), other_keys b x ys (p, e) vs)
      where
        differs : (m n : ℕ) → n < m → (m == n) ≡ false
        differs m n h = ground arith

    bucket_first :
        (b fuel : ℕ) (xs rest : List ℕ) (merged : List B)
        → All (In b) xs
        → All (Above (b + 1)) rest
        → length (xs ++ rest) ≤ fuel
        → ((n : ℕ) → length rest ≤ n → merge_groups merge key n rest ≡ merged)
        → merge_groups merge key fuel (xs ++ rest) ≡ merge_groups merge key (length xs) xs ++ merged
    bucket_first b fuel [] rest merged v w h more = more fuel h ∙ sym (rw (no_groups 0))
    bucket_first b zero (x ∷ xs) rest merged v w h more = absurd (omega arith)
    bucket_first b (suc fuel) (x ∷ xs) rest merged (v, vs) w h more =
        let same = same_keys b x xs v vs in
        group_front fuel x xs rest same (other_keys b x rest v w)
        ∙ rw (more fuel (omega (arith, h, length-append xs rest)), whole_group x xs same)

    laid-grouped :
        (rs : List ℕ) (b left fuel : ℕ)
        → All P rs
        → length (laid bkey rs b left) ≤ fuel
        → merge_groups merge key fuel (laid bkey rs b left) ≡ grouped merge key bkey rs b left
    unfolding laid grouped
    laid-grouped rs b zero fuel ps h = no_groups fuel
    laid-grouped rs b (suc left) fuel ps h =
        bucket_first b fuel (picks bkey b rs) (laid bkey rs (b + 1) left)
          (grouped merge key bkey rs (b + 1) left) (picks-In b rs ps)
          (laid-Above (b + 1) left rs ps) h (λ n le. laid-grouped rs (b + 1) left n ps le)

length-rows : (from count : ℕ) → length (range from count) ≡ count
unfolding range
length-rows from zero = refl
length-rows from (suc count) = ap suc (length-rows (from + 1) count)

rows_inside : (n from count : ℕ) → from + count ≤ n → All (λ x. x < n) (range from count)
unfolding range
rows_inside n from zero h = tt
rows_inside n from (suc count) h = (omega arith, rows_inside n (from + 1) count (omega arith))

-- One round of the bucket solver makes the list that a stable sort by the whole key and the grouping of
-- neighbours make, whenever the bucket numbers are in range and order and tell apart the rows as
-- their keys do.
pub bucket_round-sorted {ℓ} :
    {B : Type ℓ} (merge : ℕ → ℕ → Option B) (key : ℕ → List ℕ) (bkey : ℕ → ℕ) (nbuckets nrows : ℕ)
    → ((x y : ℕ) → x < nrows → y < nrows → list_lt (key x) (key y) ≡ ltb (bkey x) (bkey y))
    → ((x y : ℕ) → x < nrows → y < nrows → list_eq (key x) (key y) ≡ (bkey x == bkey y))
    → ((x : ℕ) → x < nrows → bkey x < nbuckets)
    → bucket_round merge key bkey nbuckets nrows ≡ merge_round merge key (range 0 nrows)
unfolding bucket_round merge_round
bucket_round-sorted merge key bkey nb nrows ordered alike bound =
    let rows = range 0 nrows in
    let inside = rows_inside nrows 0 nrows (omega arith) in
    let valid = bounded nrows bkey nb bound rows inside in
    let laid_out = sort_by-laid key bkey (λ x. x < nrows) ordered nb rows inside valid in
    let size : length (laid bkey rows 0 nb) ≤ length rows =
      omega (arith, ap (λ (l : List ℕ). length l) laid_out, sort_by-length key rows) in
    walk-grouped merge key bkey nb rows (replicate nrows 0) valid 0 nb
      (length-replicate {A = ℕ} nrows 0 ∙ sym (length-rows 0 nrows)) (omega arith)
    ∙ sym (laid-grouped merge key bkey (λ x. x < nrows) alike rows 0 nb (length rows) inside size)
    ∙ ap (merge_groups merge key (length rows)) (sym laid_out)
  where
    bounded :
        (n : ℕ) (bkey : ℕ → ℕ) (nb : ℕ)
        → ((x : ℕ) → x < n → bkey x < nb)
        → (xs : List ℕ) → All (λ x. x < n) xs
        → All (λ x. bkey x < nb) xs
    bounded n bkey nb f [] v = tt
    bounded n bkey nb f (x ∷ xs) (v, vs) = (f x v, bounded n bkey nb f xs vs)
