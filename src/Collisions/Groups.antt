-- ===== src/Collisions/Groups.antt =====
-- The group of rows with one key at the head of a sorted list, and what follows it.
use requihash.Base.{
  ℕ, ◌≤◌, ◌≡◌, ◌≢◌, sym, ap, ◌∙◌, inl, inr, true, false, Bool-cases, list_eq, list_eq_iff, list_lt,
  list_lt_total, List, [], ◌∷◌, length, arith,
}
use requihash.Base.Elem.{Elem, here, there}
use requihash.Collisions.{same_key, after_key}
use requihash.Collisions.Sorting.{Before, first, later, Before-Elem, NotBelow, SortedBy}
use mathlib.Core.Path.{subst}

module _ {ℓ} {A : Type ℓ} (key : A → List ℕ) where
  pub same_key-Elem :
      (k : List ℕ) (b : A) (ys : List A) → Elem b (same_key key k ys) → Elem b ys × (key b ≡ k)
  unfolding same_key
  same_key-Elem k b [] m = elim m [ ]
  same_key-Elem k b (y ∷ ys) m = elim (Bool-cases (list_eq (key y) k)) [
    | inr e ↦ none_left (rw e at m)
    | inl e ↦ step ((list_eq_iff _ _).0 e) (same_key-Elem k b ys) (rw e at m)
  ]
    where
      none_left : Elem b [] → Elem b (y ∷ ys) × (key b ≡ k)
      none_left m = elim m [ ]

      step :
          key y ≡ k
          → (Elem b (same_key key k ys) → Elem b ys × (key b ≡ k))
          → Elem b (y ∷ same_key key k ys)
          → Elem b (y ∷ ys) × (key b ≡ k)
      step e more (here p) = (here p, ap key p ∙ e)
      step e more (there m) = let (m', same) = more m in (there m', same)

  pub after_key-NotBelow :
      (k p : List ℕ) (ys : List A) → NotBelow key p ys → NotBelow key p (after_key key k ys)
  unfolding after_key
  after_key-NotBelow k p [] n = tt
  after_key-NotBelow k p (y ∷ ys) n = elim (Bool-cases (list_eq (key y) k)) [
    | inl e ↦ rw e (after_key-NotBelow k p ys n.1)
    | inr e ↦ rw e n
  ]

  pub after_key-SortedBy :
      (k : List ℕ) (ys : List A) → SortedBy key ys → SortedBy key (after_key key k ys)
  unfolding after_key
  after_key-SortedBy k [] s = tt
  after_key-SortedBy k (y ∷ ys) s = elim (Bool-cases (list_eq (key y) k)) [
    | inl e ↦ rw e (after_key-SortedBy k ys s.1)
    | inr e ↦ rw e s
  ]

  pub after_key-length : (k : List ℕ) (ys : List A) → length (after_key key k ys) ≤ length ys
  unfolding after_key
  after_key-length k [] = omega arith
  after_key-length k (y ∷ ys) = ground (arith, after_key-length k ys)

  pub after_key-Elem : (k : List ℕ) (b : A) (ys : List A) → Elem b (after_key key k ys) → Elem b ys
  unfolding after_key
  after_key-Elem k b [] m = m
  after_key-Elem k b (y ∷ ys) m = elim (Bool-cases (list_eq (key y) k)) [
    | inl e ↦ there (after_key-Elem k b ys (rw e at m))
    | inr e ↦ rw e at m
  ]

  pub NotBelow-Elem :
      (k : List ℕ) (b : A) (ys : List A) → NotBelow key k ys → Elem b ys → list_lt (key b) k ≡ false
  NotBelow-Elem k b [] n m = elim m [ ]
  NotBelow-Elem k b (y ∷ ys) n (here p) = rw p n.0
  NotBelow-Elem k b (y ∷ ys) n (there m) = NotBelow-Elem k b ys n.1 m

  -- In a sorted list the rows with the least key come first.
  pub same_key-first :
      (k : List ℕ) (b : A) (ys : List A)
      → SortedBy key ys
      → NotBelow key k ys
      → key b ≡ k
      → Elem b ys
      → Elem b (same_key key k ys)
  unfolding same_key
  same_key-first k b [] s n e m = elim m [ ]
  same_key-first k b (y ∷ ys) s n e m = elim (Bool-cases (list_eq (key y) k)) [
    | inl p ↦
        rw p (elim m [ here q ↦ here q | there m' ↦ there (same_key-first k b ys s.1 n.1 e m') ])
    | inr p ↦ absurd (differs p m)
  ]
    where
      larger : list_eq (key y) k ≡ false → list_lt k (key y) ≡ true
      larger p = elim (list_lt_total (key y) k n.0) [
        | inl same ↦ absurd (clash (sym p ∙ (list_eq_iff _ _).1 same))
        | inr lt ↦ lt
      ]
        where
          clash : false ≡ true → ⊥
          clash q = cc

      differs : list_eq (key y) k ≡ false → Elem b (y ∷ ys) → ⊥
      differs p (here q) = clash (sym p ∙ (list_eq_iff _ _).1 (sym (ap key q) ∙ e))
        where
          clash : false ≡ true → ⊥
          clash q = cc
      differs p (there m') = clash (
          sym (NotBelow-Elem (key y) b ys s.0 m')
          ∙ subst (λ t. list_lt t (key y) ≡ true) (sym e) (larger p))
        where
          clash : false ≡ true → ⊥
          clash q = cc

  pub same_key-Before :
      (k : List ℕ) (a b : A) (ys : List A)
      → SortedBy key ys
      → NotBelow key k ys
      → key a ≡ k
      → key b ≡ k
      → Before a b ys
      → Before a b (same_key key k ys)
  unfolding same_key
  same_key-Before k a b [] s n ea eb h = elim h [ ]
  same_key-Before k a b (y ∷ ys) s n ea eb h = elim (Bool-cases (list_eq (key y) k)) [
    | inl p ↦ rw p (elim h [
      | first q m ↦ first q (same_key-first k b ys s.1 n.1 eb m)
      | later h' ↦ later (same_key-Before k a b ys s.1 n.1 ea eb h')
    ])
    | inr p ↦ absurd (
        not_here (
          unfold same_key in
          rw p at (same_key-first k a (y ∷ ys) s n ea (Before-Elem (y ∷ ys) h).0)))
  ]
    where
      not_here : Elem a [] → ⊥
      not_here m = elim m [ ]

  pub after_key-Before :
      (k : List ℕ) (a b : A) (ys : List A)
      → key a ≢ k
      → Before a b ys
      → Before a b (after_key key k ys)
  unfolding after_key
  after_key-Before k a b [] ne h = elim h [ ]
  after_key-Before k a b (y ∷ ys) ne h = elim (Bool-cases (list_eq (key y) k)) [
    | inr p ↦ rw p h
    | inl p ↦ rw p (elim h [
      | first q m ↦ absurd (ne (ap key q ∙ (list_eq_iff _ _).0 p))
      | later h' ↦ after_key-Before k a b ys ne h'
    ])
  ]
