-- ===== src/Base/Elem.antt =====
-- Membership, with the position kept.
use mathlib.Core.Path.{◌≡◌, refl, ap}
use mathlib.Core.Logic.{◌⊎◌, inl, inr}
use mathlib.Core.List.{List, [], ◌∷◌, ◌++◌, map}

pub data Elem {ℓ} {A : Type ℓ} (a : A) : List A → Type ℓ where
  here : {x : A} {xs : List A} → a ≡ x → Elem a (x ∷ xs)
  there : {x : A} {xs : List A} → Elem a xs → Elem a (x ∷ xs)

module _ {ℓ} {A : Type ℓ} where
  pub Elem-append_left : (a : A) (xs ys : List A) → Elem a xs → Elem a (xs ++ ys)
  Elem-append_left a [] ys h = elim h [ ]
  Elem-append_left a (x ∷ xs) ys (here e) = here e
  Elem-append_left a (x ∷ xs) ys (there h) = there (Elem-append_left a xs ys h)

  pub Elem-append_right : (a : A) (xs ys : List A) → Elem a ys → Elem a (xs ++ ys)
  Elem-append_right a [] ys h = h
  Elem-append_right a (x ∷ xs) ys h = there (Elem-append_right a xs ys h)

  pub Elem-append_cases : (a : A) (xs ys : List A) → Elem a (xs ++ ys) → Elem a xs ⊎ Elem a ys
  Elem-append_cases a [] ys h = inr h
  Elem-append_cases a (x ∷ xs) ys (here e) = inl (here e)
  Elem-append_cases a (x ∷ xs) ys (there h) = elim (Elem-append_cases a xs ys h) [
    | inl p ↦ inl (there p)
    | inr q ↦ inr q
  ]

pub Elem-map {ℓ κ} :
    {A : Type ℓ} {B : Type κ} (f : A → B) (a : A) (xs : List A) → Elem a xs → Elem (f a) (map f xs)
Elem-map f a [] h = elim h [ ]
Elem-map f a (x ∷ xs) (here e) = here (ap f e)
Elem-map f a (x ∷ xs) (there h) = there (Elem-map f a xs h)

pub Elem-map_cases {ℓ κ} :
    {A : Type ℓ} {B : Type κ} (f : A → B) (b : B) (xs : List A)
    → Elem b (map f xs)
    → (a : A) × Elem a xs × (b ≡ f a)
Elem-map_cases f b [] h = elim h [ ]
Elem-map_cases f b (x ∷ xs) (here e) = (x, here refl, e)
Elem-map_cases f b (x ∷ xs) (there h) = let (a, m, e) = Elem-map_cases f b xs h in (a, there m, e)
