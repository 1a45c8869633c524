-- ===== src/Collisions.antt =====
-- One round of Wagner's merge, as the solvers of Req/rust/src make it: rows sorted by their collision
-- key, groups of rows with one key, and the pairs of each group in order. The solvers differ in
-- what a row is and in what they make of a pair.
pub mod Sorting
pub mod Groups
pub mod Pairing
pub mod Renaming
use requihash.Base.{
  ℕ, zero, suc, Bool, not, list_eq, list_lt, if◌then◌else◌, Option, none, some, List, [], ◌∷◌, ◌++◌,
  length,
}

module _ {ℓ} {A : Type ℓ} (key : A → List ℕ) where
  -- A stable insertion: `x` comes before the rows that do not have a smaller key.
  unfoldable pub insert_by : A → List A → List A
  insert_by x [] = x ∷ []
  insert_by x (y ∷ ys) = if list_lt (key y) (key x) then y ∷ insert_by x ys else x ∷ y ∷ ys

  -- `sort_by(|a, b| key(a).cmp(key(b)))`, which is stable.
  unfoldable pub sort_by : List A → List A
  unfolding insert_by
  sort_by [] = []
  sort_by (x ∷ xs) = insert_by x (sort_by xs)

  -- The inner `while`, which steps over the rows with the key `k`: those rows, and what follows.
  unfoldable pub same_key : List ℕ → List A → List A
  same_key k [] = []
  same_key k (y ∷ ys) = if list_eq (key y) k then y ∷ same_key k ys else []

  unfoldable pub after_key : List ℕ → List A → List A
  after_key k [] = []
  after_key k (y ∷ ys) = if list_eq (key y) k then after_key k ys else y ∷ ys

module _ {ℓ κ} {A : Type ℓ} {B : Type κ} (merge : A → A → Option B) where
  -- `for b in (a + 1)..j`: a pair that is skipped gives nothing.
  unfoldable pub pairs_with : A → List A → List B
  pairs_with a [] = []
  pairs_with a (b ∷ bs) =
      let rest = pairs_with a bs in elim (merge a b) [ none ↦ rest | some r ↦ r ∷ rest ]

  -- `for a in i..j`
  unfoldable pub all_pairs : List A → List B
  unfolding pairs_with
  all_pairs [] = []
  all_pairs (a ∷ rest) = pairs_with a rest ++ all_pairs rest

  -- `while i + 1 < x.len()` over the rows that are left; every round takes a row at least.
  unfoldable pub merge_groups : (A → List ℕ) → ℕ → List A → List B
  unfolding all_pairs same_key after_key
  merge_groups key (suc fuel) (x ∷ y ∷ rest) =
      all_pairs (x ∷ same_key key (key x) (y ∷ rest))
      ++ merge_groups key fuel (after_key key (key x) (y ∷ rest))
  merge_groups key _ _ = []

  -- The sort and the loop.
  unfoldable pub merge_round : (A → List ℕ) → List A → List B
  unfolding sort_by merge_groups
  merge_round key x = merge_groups key (length x) (sort_by key x)
