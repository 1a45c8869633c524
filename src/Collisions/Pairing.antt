-- ===== src/Collisions/Pairing.antt =====
-- A round finds the pairs of rows with equal keys, and no others.
use requihash.Base.{
  ℕ, zero, suc, ◌≤◌, ◌≡◌, ◌≢◌, ◌⊎◌, refl, sym, ap, ◌∙◌, inl, inr, true, false, Bool-cases, list_eq,
  list_eq_iff, Option, none, some, List, [], ◌∷◌, length, arith,
}
use requihash.Base.Elem.{Elem, here, there, Elem-append_left, Elem-append_right, Elem-append_cases}
use requihash.Collisions.{
  sort_by, same_key, after_key, pairs_with, all_pairs, merge_groups, merge_round,
}
use requihash.Collisions.Sorting.{
  Before, first, later, Before-Elem, Before-total, SortedBy, sort_by-SortedBy, sort_by-Elem,
  sort_by-length,
}
use requihash.Collisions.Groups.{
  same_key-Elem, after_key-SortedBy, after_key-length, after_key-Elem, same_key-first,
  same_key-Before, after_key-Before,
}
use mathlib.Core.Path.{subst}

Option-cases {ℓ} : {A : Type ℓ} (o : Option A) → (o ≡ none) ⊎ ((a : A) × (o ≡ some a))
Option-cases none = inl refl
Option-cases (some a) = inr (a, refl)

module _ {ℓ κ} {A : Type ℓ} {B : Type κ} (merge : A → A → Option B) where
  pairs_with-Elem :
      (r : B) (a : A) (bs : List A)
      → Elem r (pairs_with merge a bs)
      → (b : A) × Elem b bs × (merge a b ≡ some r)
  unfolding pairs_with
  pairs_with-Elem r a [] m = elim m [ ]
  pairs_with-Elem r a (b ∷ bs) m = elim (Option-cases (merge a b)) [
    | inl e ↦
        let (b', m', e') = pairs_with-Elem r a bs (rw (e, pairs_with) at m) in (b', there m', e')
    | inr (t, e) ↦ step t e (pairs_with-Elem r a bs) (rw (e, pairs_with) at m)
  ]
    where
      step :
          (t : B)
          → merge a b ≡ some t
          → (Elem r (pairs_with merge a bs) → (b : A) × Elem b bs × (merge a b ≡ some r))
          → Elem r (t ∷ pairs_with merge a bs)
          → (b' : A) × Elem b' (b ∷ bs) × (merge a b' ≡ some r)
      step t e more (here p) = (b, here refl, e ∙ ap some (sym p))
      step t e more (there m) = let (b', m', e') = more m in (b', there m', e')

  pairs_with_complete :
      (r : B) (a b : A) (bs : List A)
      → merge a b ≡ some r
      → Elem b bs
      → Elem r (pairs_with merge a bs)
  unfolding pairs_with
  pairs_with_complete r a b [] e m = elim m [ ]
  pairs_with_complete r a b (y ∷ bs) e (here p) = rw (← p, e, pairs_with) (here refl)
  pairs_with_complete r a b (y ∷ bs) e (there m) = elim (Option-cases (merge a y)) [
    | inl q ↦ rw (q, pairs_with) (pairs_with_complete r a b bs e m)
    | inr (t, q) ↦ rw (q, pairs_with) (there (pairs_with_complete r a b bs e m))
  ]

  all_pairs-Elem :
      (r : B) (xs : List A)
      → Elem r (all_pairs merge xs)
      → (a b : A) × Before a b xs × (merge a b ≡ some r)
  unfolding all_pairs
  all_pairs-Elem r [] m = elim m [ ]
  all_pairs-Elem r (x ∷ xs) m = elim (Elem-append_cases r (pairs_with merge x xs) _ m) [
    | inl p ↦ let (b, mb, e) = pairs_with-Elem r x xs p in (x, b, first refl mb, e)
    | inr q ↦ let (a, b, h, e) = all_pairs-Elem r xs q in (a, b, later h, e)
  ]

  all_pairs_complete :
      (r : B) (a b : A) (xs : List A)
      → merge a b ≡ some r
      → Before a b xs
      → Elem r (all_pairs merge xs)
  unfolding all_pairs
  all_pairs_complete r a b [] e h = elim h [ ]
  all_pairs_complete r a b (x ∷ xs) e (first p m) =
      Elem-append_left r (pairs_with merge x xs) _
        (pairs_with_complete r x b xs (subst (λ t. merge t b ≡ some r) p e) m)
  all_pairs_complete r a b (x ∷ xs) e (later h) =
      Elem-append_right r (pairs_with merge x xs) _ (all_pairs_complete r a b xs e h)

module _ {ℓ κ} {A : Type ℓ} {B : Type κ} (merge : A → A → Option B) (key : A → List ℕ) where
  -- Two rows that a round may merge into `r`.
  abbrev pub Merges : B → List A → Type (ℓ ⊔ κ)
  Merges r xs = (a b : A) × Elem a xs × Elem b xs × (key a ≡ key b) × (merge a b ≡ some r)

  Merges-there : (r : B) (x : A) (xs : List A) → Merges r xs → Merges r (x ∷ xs)
  Merges-there r x xs (a, b, ma, mb, e, f) = (a, b, there ma, there mb, e, f)

  group-Merges :
      (r : B) (x : A) (xs : List A)
      → Elem r (all_pairs merge (x ∷ same_key key (key x) xs))
      → Merges r (x ∷ xs)
  group-Merges r x xs m =
      let (a, b, h, e) = all_pairs-Elem merge r (x ∷ same_key key (key x) xs) m in
      let (ma, mb) = Before-Elem (x ∷ same_key key (key x) xs) h in
      let (ma', ea) = member a ma in let (mb', eb) = member b mb in (a, b, ma', mb', ea ∙ sym eb, e)
    where
      member : (c : A) → Elem c (x ∷ same_key key (key x) xs) → Elem c (x ∷ xs) × (key c ≡ key x)
      member c (here p) = (here p, ap key p)
      member c (there q) = let (q', e) = same_key-Elem key (key x) c xs q in (there q', e)

  pub merge_groups-Merges :
      (r : B) (fuel : ℕ) (xs : List A) → Elem r (merge_groups merge key fuel xs) → Merges r xs
  unfolding merge_groups
  merge_groups-Merges r zero xs m = elim m [ ]
  merge_groups-Merges r (suc fuel) [] m = elim m [ ]
  merge_groups-Merges r (suc fuel) (x ∷ []) m = elim m [ ]
  merge_groups-Merges r (suc fuel) (x ∷ y ∷ rest) m =
      elim (Elem-append_cases r (all_pairs merge (x ∷ same_key key (key x) (y ∷ rest))) _ m) [
        | inl p ↦ group-Merges r x (y ∷ rest) p
        | inr q ↦
            let (a, b, ma, mb, e, f) =
              merge_groups-Merges r fuel (after_key key (key x) (y ∷ rest)) q in
            (
              a,
              b,
              there (after_key-Elem key (key x) a (y ∷ rest) ma),
              there (after_key-Elem key (key x) b (y ∷ rest) mb),
              e,
              f,
            )
      ]

  merge_groups_complete :
      (r : B) (a b : A) (fuel : ℕ) (xs : List A)
      → length xs ≤ fuel
      → SortedBy key xs
      → Before a b xs
      → key a ≡ key b
      → merge a b ≡ some r
      → Elem r (merge_groups merge key fuel xs)
  unfolding merge_groups
  merge_groups_complete r a b fuel [] fits s h e f = elim h [ ]
  merge_groups_complete r a b zero (x ∷ xs) fits s h e f = absurd (omega arith)
  merge_groups_complete r a b (suc fuel) (x ∷ []) fits s (first p m) e f = elim m [ ]
  merge_groups_complete r a b (suc fuel) (x ∷ []) fits s (later h) e f = elim h [ ]
  merge_groups_complete r a b (suc fuel) (x ∷ y ∷ rest) fits s (first p m) e f =
      Elem-append_left r (all_pairs merge (x ∷ same_key key (key x) (y ∷ rest))) _ (
        all_pairs_complete merge r a b (x ∷ same_key key (key x) (y ∷ rest)) f
          (first p (same_key-first key (key x) b (y ∷ rest) s.1 s.0 (sym e ∙ ap key p) m)))
  merge_groups_complete r a b (suc fuel) (x ∷ y ∷ rest) fits s (later h) e f =
      elim (Bool-cases (list_eq (key a) (key x))) [
        | inl same ↦
            let ea = (list_eq_iff (key a) (key x)).0 same in
            Elem-append_left r (all_pairs merge (x ∷ same_key key (key x) (y ∷ rest))) _ (
              all_pairs_complete merge r a b (x ∷ same_key key (key x) (y ∷ rest)) f
                (later (same_key-Before key (key x) a b (y ∷ rest) s.1 s.0 ea (sym e ∙ ea) h)))
        | inr differs ↦
            Elem-append_right r (all_pairs merge (x ∷ same_key key (key x) (y ∷ rest))) _ (
              merge_groups_complete r a b fuel (after_key key (key x) (y ∷ rest))
                (omega (arith, after_key-length key (key x) (y ∷ rest)))
                (after_key-SortedBy key (key x) (y ∷ rest) s.1)
                (after_key-Before key (key x) a b (y ∷ rest) (λ q. other differs q) h) e f)
      ]
    where
      other : list_eq (key a) (key x) ≡ false → key a ≡ key x → ⊥
      other differs q = clash (sym differs ∙ (list_eq_iff _ _).1 q)
        where
          clash : false ≡ true → ⊥
          clash p = cc

  -- What a round produces comes from two rows with one key.
  pub merge_round-Merges : (r : B) (xs : List A) → Elem r (merge_round merge key xs) → Merges r xs
  unfolding merge_round
  merge_round-Merges r xs m =
      let (a, b, ma, mb, e, f) = merge_groups-Merges r (length xs) (sort_by key xs) m in
      (a, b, (sort_by-Elem key a xs).0 ma, (sort_by-Elem key b xs).0 mb, e, f)

  -- Two different rows with one key are merged, in the order in which the sort leaves them.
  pub merge_round_complete :
      (r : B) (a b : A) (xs : List A)
      → a ≢ b
      → Elem a xs
      → Elem b xs
      → key a ≡ key b
      → merge a b ≡ some r
      → merge b a ≡ some r
      → Elem r (merge_round merge key xs)
  unfolding merge_round
  merge_round_complete r a b xs ne ma mb e f g =
      let ma' = (sort_by-Elem key a xs).1 ma in
      let mb' = (sort_by-Elem key b xs).1 mb in
      let fits : length (sort_by key xs) ≤ length xs = omega (arith, sort_by-length key xs) in
      let s = sort_by-SortedBy key xs in
      elim (Before-total a b (sort_by key xs) ne ma' mb') [
        | inl h ↦ merge_groups_complete r a b (length xs) (sort_by key xs) fits s h e f
        | inr h ↦ merge_groups_complete r b a (length xs) (sort_by key xs) fits s h (sym e) g
      ]
