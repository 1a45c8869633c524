-- ===== src/Collisions/Renaming.antt =====
-- A round does not look at its rows but through the key and the merge: rows may be represented by
-- what stands for them.
use requihash.Base.{
  ◌++◌, ℕ, zero, suc, ◌≡◌, refl, sym, ap, ◌∙◌, inl, inr, Bool-cases, list_eq, list_lt, Option, none,
  some, List, [], ◌∷◌, map, length, length-map,
}
use requihash.Collisions.{
  insert_by, sort_by, same_key, after_key, pairs_with, all_pairs, merge_groups, merge_round,
}

map-append {ℓ κ} :
    {A : Type ℓ} {B : Type κ} (f : A → B) (xs ys : List A) → map f (xs ++ ys) ≡ map f xs ++ map f ys
map-append f [] ys = refl
map-append f (x ∷ xs) ys = ap (◌∷◌ (f x)) (map-append f xs ys)

module _ {ℓ κ} {A : Type ℓ} {B : Type κ} (key : B → List ℕ) (g : A → B) where
  insert_by-map :
      (x : A) (ys : List A)
      → map g (insert_by (λ a. key (g a)) x ys) ≡ insert_by key (g x) (map g ys)
  unfolding insert_by
  insert_by-map x [] = refl
  insert_by-map x (y ∷ ys) = elim (Bool-cases (list_lt (key (g y)) (key (g x)))) [
    | inl e ↦ rw e (ap (◌∷◌ (g y)) (insert_by-map x ys))
    | inr e ↦ rw e
  ]

  sort_by-map : (xs : List A) → map g (sort_by (λ a. key (g a)) xs) ≡ sort_by key (map g xs)
  unfolding sort_by
  sort_by-map [] = refl
  sort_by-map (x ∷ xs) =
      insert_by-map x (sort_by (λ a. key (g a)) xs) ∙ ap (insert_by key (g x)) (sort_by-map xs)

  same_key-map :
      (k : List ℕ) (xs : List A)
      → map g (same_key (λ a. key (g a)) k xs) ≡ same_key key k (map g xs)
  unfolding same_key
  same_key-map k [] = refl
  same_key-map k (x ∷ xs) = elim (Bool-cases (list_eq (key (g x)) k)) [
    | inl e ↦ rw e (ap (◌∷◌ (g x)) (same_key-map k xs))
    | inr e ↦ rw e
  ]

  after_key-map :
      (k : List ℕ) (xs : List A)
      → map g (after_key (λ a. key (g a)) k xs) ≡ after_key key k (map g xs)
  unfolding after_key
  after_key-map k [] = refl
  after_key-map k (x ∷ xs) = elim (Bool-cases (list_eq (key (g x)) k)) [
    | inl e ↦ rw e (after_key-map k xs)
    | inr e ↦ rw e
  ]

module _ {ℓ κ ι} {A : Type ℓ} {B : Type κ} {C : Type ι} (merge : B → B → Option C) (g : A → B) where
  abbrev renamed : A → A → Option C
  renamed a b = merge (g a) (g b)

  pairs_with-map :
      (x : A) (ys : List A) → pairs_with renamed x ys ≡ pairs_with merge (g x) (map g ys)
  unfolding pairs_with
  pairs_with-map x [] = refl
  pairs_with-map x (y ∷ ys) =
      ap (λ (rest : List C). elim (merge (g x) (g y)) [ none ↦ rest | some r ↦ r ∷ rest ])
        (pairs_with-map x ys)

  all_pairs-map : (xs : List A) → all_pairs renamed xs ≡ all_pairs merge (map g xs)
  unfolding all_pairs
  all_pairs-map [] = refl
  all_pairs-map (x ∷ xs) = rw (pairs_with-map x xs, all_pairs-map xs)

  merge_groups-map :
      (key : B → List ℕ) (fuel : ℕ) (xs : List A)
      → merge_groups renamed (λ a. key (g a)) fuel xs ≡ merge_groups merge key fuel (map g xs)
  unfolding merge_groups
  merge_groups-map key zero xs = refl
  merge_groups-map key (suc fuel) [] = refl
  merge_groups-map key (suc fuel) (x ∷ []) = refl
  merge_groups-map key (suc fuel) (x ∷ y ∷ rest) =
      let k = key (g x) in
      rw (
        all_pairs-map (x ∷ same_key (λ a. key (g a)) k (y ∷ rest)),
        merge_groups-map key fuel (after_key (λ a. key (g a)) k (y ∷ rest)),
        same_key-map key g k (y ∷ rest),
        after_key-map key g k (y ∷ rest),
      )

  -- A round over names is the round over the rows that they stand for.
  pub merge_round-map :
      (key : B → List ℕ) (xs : List A)
      → merge_round renamed (λ a. key (g a)) xs ≡ merge_round merge key (map g xs)
  unfolding merge_round
  merge_round-map key xs =
      merge_groups-map key (length xs) (sort_by (λ a. key (g a)) xs)
      ∙ ap (λ n. merge_groups merge key n (map g (sort_by (λ a. key (g a)) xs)))
          (sym (length-map g xs))
      ∙ ap (merge_groups merge key (length (map g xs))) (sort_by-map key g xs)

-- What a round makes may be represented as well.
module _ {ℓ κ ι} {A : Type ℓ} {B : Type κ} {C : Type ι} (merge : A → A → Option B) (f : B → C) where
  abbrev pub read_out : Option B → Option C
  read_out none = none
  read_out (some r) = some (f r)

  abbrev seen : A → A → Option C
  seen a b = read_out (merge a b)

  map-pairs_with : (x : A) (ys : List A) → map f (pairs_with merge x ys) ≡ pairs_with seen x ys
  unfolding pairs_with
  map-pairs_with x [] = refl
  map-pairs_with x (y ∷ ys) = one (merge x y) (map-pairs_with x ys)
    where
      one :
          (o : Option B)
          → map f (pairs_with merge x ys) ≡ pairs_with seen x ys
          → map f (elim o [ none ↦ pairs_with merge x ys | some r ↦ r ∷ pairs_with merge x ys ])
            ≡ elim (read_out o) [ none ↦ pairs_with seen x ys | some r ↦ r ∷ pairs_with seen x ys ]
      one none e = e
      one (some r) e = ap (◌∷◌ (f r)) e

  map-all_pairs : (xs : List A) → map f (all_pairs merge xs) ≡ all_pairs seen xs
  unfolding all_pairs
  map-all_pairs [] = refl
  map-all_pairs (x ∷ xs) =
      map-append f (pairs_with merge x xs) (all_pairs merge xs)
      ∙ rw (map-pairs_with x xs, map-all_pairs xs)

  map-merge_groups :
      (key : A → List ℕ) (fuel : ℕ) (xs : List A)
      → map f (merge_groups merge key fuel xs) ≡ merge_groups seen key fuel xs
  unfolding merge_groups
  map-merge_groups key zero xs = refl
  map-merge_groups key (suc fuel) [] = refl
  map-merge_groups key (suc fuel) (x ∷ []) = refl
  map-merge_groups key (suc fuel) (x ∷ y ∷ rest) =
      map-append f (all_pairs merge (x ∷ same_key key (key x) (y ∷ rest)))
        (merge_groups merge key fuel (after_key key (key x) (y ∷ rest)))
      ∙ rw (
        map-all_pairs (x ∷ same_key key (key x) (y ∷ rest)),
        map-merge_groups key fuel (after_key key (key x) (y ∷ rest)),
      )

  pub map-merge_round :
      (key : A → List ℕ) (xs : List A) → map f (merge_round merge key xs) ≡ merge_round seen key xs
  unfolding merge_round
  map-merge_round key xs = map-merge_groups key (length xs) (sort_by key xs)
