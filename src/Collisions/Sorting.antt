-- ===== src/Collisions/Sorting.antt =====
-- The sort keeps the rows and brings equal keys together.
use requihash.Base.{
  ℕ, suc, ◌≡◌, ◌≢◌, ◌↔◌, ◌⊎◌, refl, sym, ap, ◌∙◌, inl, inr, true, false, Bool-cases, list_lt,
  list_lt_asymm, list_lt_total, list_lt_trans, List, [], ◌∷◌, length,
}
use requihash.Base.Elem.{Elem, here, there}
use requihash.Collisions.{insert_by, sort_by}

-- `a` stands before `b`.
pub data Before {ℓ} {A : Type ℓ} (a b : A) : List A → Type ℓ where
  first : {x : A} {xs : List A} → a ≡ x → Elem b xs → Before a b (x ∷ xs)
  later : {x : A} {xs : List A} → Before a b xs → Before a b (x ∷ xs)

module _ {ℓ} {A : Type ℓ} where
  pub Before-Elem : {a b : A} (xs : List A) → Before a b xs → Elem a xs × Elem b xs
  Before-Elem [] h = elim h [ ]
  Before-Elem (x ∷ xs) (first e m) = (here e, there m)
  Before-Elem (x ∷ xs) (later h) = let (ma, mb) = Before-Elem xs h in (there ma, there mb)

  -- Of two different members one stands before the other.
  pub Before-total :
      (a b : A) (xs : List A) → a ≢ b → Elem a xs → Elem b xs → Before a b xs ⊎ Before b a xs
  Before-total a b [] ne ma mb = elim ma [ ]
  Before-total a b (x ∷ xs) ne (here e) (here f) = absurd (ne (e ∙ sym f))
  Before-total a b (x ∷ xs) ne (here e) (there mb) = inl (first e mb)
  Before-total a b (x ∷ xs) ne (there ma) (here f) = inr (first f ma)
  Before-total a b (x ∷ xs) ne (there ma) (there mb) = elim (Before-total a b xs ne ma mb) [
    | inl h ↦ inl (later h)
    | inr h ↦ inr (later h)
  ]

module _ {ℓ} {A : Type ℓ} (key : A → List ℕ) where
  -- No row's key is below an earlier row's.
  abbrev pub NotBelow : List ℕ → List A → Type 0
  NotBelow k [] = Unit
  NotBelow k (y ∷ ys) = (list_lt (key y) k ≡ false) × NotBelow k ys

  abbrev pub SortedBy : List A → Type 0
  SortedBy [] = Unit
  SortedBy (x ∷ xs) = NotBelow (key x) xs × SortedBy xs

  not_lt_trans : (p q r : List ℕ) → list_lt q p ≡ false → list_lt r q ≡ false → list_lt r p ≡ false
  not_lt_trans p q r h g = elim (Bool-cases (list_lt r p)) [
    | inr e ↦ e
    | inl e ↦ elim (list_lt_total q p h) [
      | inl same ↦ rw same at g
      | inr lt ↦ absurd (false-true (sym g ∙ list_lt_trans r p q e lt))
    ]
  ]
    where
      false-true : false ≡ true → ⊥
      false-true e = cc

  NotBelow-trans :
      (p q : List ℕ) (ys : List A) → list_lt q p ≡ false → NotBelow q ys → NotBelow p ys
  NotBelow-trans p q [] h n = tt
  NotBelow-trans p q (y ∷ ys) h n = (not_lt_trans p q (key y) h n.0, NotBelow-trans p q ys h n.1)

  NotBelow-insert_by :
      (k : List ℕ) (x : A) (ys : List A)
      → list_lt (key x) k ≡ false
      → NotBelow k ys
      → NotBelow k (insert_by key x ys)
  unfolding insert_by
  NotBelow-insert_by k x [] h n = (h, tt)
  NotBelow-insert_by k x (y ∷ ys) h n = elim (Bool-cases (list_lt (key y) (key x))) [
    | inl e ↦ rw e (n.0, NotBelow-insert_by k x ys h n.1)
    | inr e ↦ rw e (h, n)
  ]

  insert_by-SortedBy : (x : A) (ys : List A) → SortedBy ys → SortedBy (insert_by key x ys)
  unfolding insert_by
  insert_by-SortedBy x [] s = (tt, tt)
  insert_by-SortedBy x (y ∷ ys) s = elim (Bool-cases (list_lt (key y) (key x))) [
    | inl e ↦ rw e (
      NotBelow-insert_by (key y) x ys (list_lt_asymm (key y) (key x) e) s.0,
      insert_by-SortedBy x ys s.1,
    )
    | inr e ↦ rw e ((e, NotBelow-trans (key x) (key y) ys e s.0), s)
  ]

  pub sort_by-SortedBy : (xs : List A) → SortedBy (sort_by key xs)
  unfolding sort_by
  sort_by-SortedBy [] = tt
  sort_by-SortedBy (x ∷ xs) = insert_by-SortedBy x (sort_by key xs) (sort_by-SortedBy xs)

  insert_by-Elem : (a x : A) (ys : List A) → Elem a (insert_by key x ys) ↔ Elem a (x ∷ ys)
  unfolding insert_by
  insert_by-Elem a x [] = (λ h. h, λ h. h)
  insert_by-Elem a x (y ∷ ys) = elim (Bool-cases (list_lt (key y) (key x))) [
    | inr e ↦ rw e (λ h. h, λ h. h)
    | inl e ↦
        let (to, from) = insert_by-Elem a x ys in
        rw e (
          λ h. elim h [ here p ↦ there (here p) | there m ↦ under (to m) ],
          λ h. elim h [
            | here p ↦ there (from (here p))
            | there (here p) ↦ here p
            | there (there m) ↦ there (from (there m))
          ],
        )
  ]
    where
      under : Elem a (x ∷ ys) → Elem a (x ∷ y ∷ ys)
      under (here p) = here p
      under (there m) = there (there m)

  pub sort_by-Elem : (a : A) (xs : List A) → Elem a (sort_by key xs) ↔ Elem a xs
  unfolding sort_by
  sort_by-Elem a [] = (λ h. h, λ h. h)
  sort_by-Elem a (x ∷ xs) =
      let (to, from) = sort_by-Elem a xs in
      let (split, join) = insert_by-Elem a x (sort_by key xs) in
      (
        λ h. elim (split h) [ here e ↦ here e | there m ↦ there (to m) ],
        λ h. join (elim h [ here e ↦ here e | there m ↦ there (from m) ]),
      )

  insert_by-length : (x : A) (ys : List A) → length (insert_by key x ys) ≡ suc (length ys)
  unfolding insert_by
  insert_by-length x [] = refl
  insert_by-length x (y ∷ ys) = elim (Bool-cases (list_lt (key y) (key x))) [
    | inl e ↦ rw e (ap suc (insert_by-length x ys))
    | inr e ↦ rw e
  ]

  pub sort_by-length : (xs : List A) → length (sort_by key xs) ≡ length xs
  unfolding sort_by
  sort_by-length [] = refl
  sort_by-length (x ∷ xs) = insert_by-length x (sort_by key xs) ∙ ap suc (sort_by-length xs)
