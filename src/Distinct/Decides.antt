-- ===== src/Distinct/Decides.antt =====
-- The tests of Distinct.antt decide what they are for.
use requihash.Base.{
  ℕ, suc, ◌≤◌, ◌<◌, ◌≡◌, refl, sym, ap, ◌∙◌, ◌↔◌, inl, inr, true, leb, ◌==◌, ==_iff, Bool-cases,
  &&-parts, List, [], ◌∷◌, length, All, arith,
}
use requihash.Base.Elem.{Elem, here, there}
use requihash.Distinct.{
  insert_sorted, sort_unstable, dedup, all_distinct, absent, slices_distinct, Distinct, Disjoint,
}
use mathlib.Core.Path.{subst}

-- Each element is at most all that follow it.
abbrev pub Ascending : List ℕ → Type 0
Ascending [] = Unit
Ascending (x ∷ xs) = All (λ y. x ≤ y) xs × Ascending xs

insert_sorted-length : (x : ℕ) (ys : List ℕ) → length (insert_sorted x ys) ≡ suc (length ys)
unfolding insert_sorted
insert_sorted-length x [] = refl
insert_sorted-length x (y ∷ ys) = ground (arith, insert_sorted-length x ys)

sort_unstable-length : (xs : List ℕ) → length (sort_unstable xs) ≡ length xs
unfolding sort_unstable
sort_unstable-length [] = refl
sort_unstable-length (x ∷ xs) =
    omega (arith, insert_sorted-length x (sort_unstable xs), sort_unstable-length xs)

All-le_trans : (x y : ℕ) (ys : List ℕ) → x ≤ y → All (λ z. y ≤ z) ys → All (λ z. x ≤ z) ys
All-le_trans x y [] h a = tt
All-le_trans x y (z ∷ ys) h a = (omega arith, All-le_trans x y ys h a.1)

insert_sorted-All :
    (m x : ℕ) (ys : List ℕ) → m ≤ x → All (λ z. m ≤ z) ys → All (λ z. m ≤ z) (insert_sorted x ys)
unfolding insert_sorted
insert_sorted-All m x [] h a = (h, tt)
insert_sorted-All m x (y ∷ ys) h a = ground (arith, insert_sorted-All m x ys h a.1)

insert_sorted-Ascending : (x : ℕ) (ys : List ℕ) → Ascending ys → Ascending (insert_sorted x ys)
unfolding insert_sorted
insert_sorted-Ascending x [] a = (tt, tt)
insert_sorted-Ascending x (y ∷ ys) a =
    ground (arith, insert_sorted-Ascending x ys a.1, insert_sorted-All y x ys, All-le_trans x y ys)

pub sort_unstable-Ascending : (xs : List ℕ) → Ascending (sort_unstable xs)
unfolding sort_unstable
sort_unstable-Ascending [] = tt
sort_unstable-Ascending (x ∷ xs) =
    insert_sorted-Ascending x (sort_unstable xs) (sort_unstable-Ascending xs)

Elem-under :
    {a y : ℕ} {xs ys : List ℕ} → (Elem a xs → Elem a ys) → Elem a (y ∷ xs) → Elem a (y ∷ ys)
Elem-under f (here e) = here e
Elem-under f (there h) = there (f h)

Elem-swap : {a x y : ℕ} {ys : List ℕ} → Elem a (x ∷ y ∷ ys) → Elem a (y ∷ x ∷ ys)
Elem-swap (here e) = there (here e)
Elem-swap (there (here e)) = here e
Elem-swap (there (there h)) = there (there h)

insert_sorted-Elem : (a x : ℕ) (ys : List ℕ) → Elem a (insert_sorted x ys) ↔ Elem a (x ∷ ys)
unfolding insert_sorted
insert_sorted-Elem a x [] = (λ h. h, λ h. h)
insert_sorted-Elem a x (y ∷ ys) = elim (Bool-cases (leb x y)) [
  | inl e ↦ rw e (λ h. h, λ h. h)
  | inr e ↦
      let (to, from) = insert_sorted-Elem a x ys in
      rw e (λ h. Elem-swap (Elem-under to h), λ h. Elem-under from (Elem-swap h))
]

-- Where `zs` holds `x` and `ys`, so it does behind a further element.
Distinct-under :
    (x y : ℕ) (ys zs : List ℕ)
    → ((a : ℕ) → Elem a zs ↔ Elem a (x ∷ ys))
    → Distinct zs ↔ Distinct (x ∷ ys)
    → Distinct (y ∷ zs) ↔ Distinct (x ∷ y ∷ ys)
Distinct-under x y ys zs same (to, from) = (forth, back)
  where
    forth : Distinct (y ∷ zs) → Distinct (x ∷ y ∷ ys)
    forth (y_new, d) =
        let (x_new, rest) = to d in
        (
          λ h. elim h [ here e ↦ y_new ((same y).1 (here (sym e))) | there m ↦ x_new m ],
          (λ h. y_new ((same y).1 (there h)), rest),
        )

    back : Distinct (x ∷ y ∷ ys) → Distinct (y ∷ zs)
    back (x_new, (y_new, rest)) = (λ h. y_case ((same y).0 h), from (λ h. x_new (there h), rest))
      where
        y_case : Elem y (x ∷ ys) → ⊥
        y_case (here e) = x_new (here (sym e))
        y_case (there m) = y_new m

insert_sorted-Distinct : (x : ℕ) (ys : List ℕ) → Distinct (insert_sorted x ys) ↔ Distinct (x ∷ ys)
unfolding insert_sorted
insert_sorted-Distinct x [] = (λ h. h, λ h. h)
insert_sorted-Distinct x (y ∷ ys) = elim (Bool-cases (leb x y)) [
  | inl e ↦ rw e (λ h. h, λ h. h)
  | inr e ↦ rw e (
      Distinct-under x y ys (insert_sorted x ys) (λ a. insert_sorted-Elem a x ys)
        (insert_sorted-Distinct x ys))
]

sort_unstable-Elem : (a : ℕ) (xs : List ℕ) → Elem a (sort_unstable xs) ↔ Elem a xs
unfolding sort_unstable
sort_unstable-Elem a [] = (λ h. h, λ h. h)
sort_unstable-Elem a (x ∷ xs) =
    let (to, from) = sort_unstable-Elem a xs in
    let (split, join) = insert_sorted-Elem a x (sort_unstable xs) in
    (λ h. Elem-under to (split h), λ h. join (Elem-under from h))

pub sort_unstable-Distinct : (xs : List ℕ) → Distinct (sort_unstable xs) ↔ Distinct xs
unfolding sort_unstable
sort_unstable-Distinct [] = (λ h. h, λ h. h)
sort_unstable-Distinct (x ∷ xs) =
    let (to, from) = sort_unstable-Distinct xs in
    let (split, join) = insert_sorted-Distinct x (sort_unstable xs) in
    (
      λ h. let (x_new, d) = split h in (λ m. x_new ((sort_unstable-Elem x xs).1 m), to d),
      λ (x_new, d). join (λ m. x_new ((sort_unstable-Elem x xs).0 m), from d),
    )

dedup-le : (xs : List ℕ) → length (dedup xs) ≤ length xs
unfolding dedup
dedup-le [] = omega arith
dedup-le (x ∷ []) = omega arith
dedup-le (x ∷ y ∷ ys) = ground (arith, dedup-le (y ∷ ys))

pub above-not_Elem : (x y : ℕ) (ys : List ℕ) → x < y → All (λ z. y ≤ z) ys → ¬ Elem x ys
above-not_Elem x y [] h a m = elim m [ ]
above-not_Elem x y (z ∷ ys) h a (here e) = omega arith
above-not_Elem x y (z ∷ ys) h a (there m) = above-not_Elem x y ys h a.1 m

-- An ascending list loses nothing to `dedup` exactly when nothing in it occurs twice.
dedup-Distinct : (xs : List ℕ) → Ascending xs → (length (dedup xs) ≡ length xs) ↔ Distinct xs
unfolding dedup
dedup-Distinct [] a = (λ _. tt, λ _. refl)
dedup-Distinct (x ∷ []) a = (λ _. (λ m. elim m [ ], tt), λ _. refl)
dedup-Distinct (x ∷ y ∷ ys) a =
    let (to, from) = dedup-Distinct (y ∷ ys) a.1 in
    elim (Bool-cases (x == y)) [
      | inl e ↦ rw e (
        λ h. absurd (omega (arith, dedup-le (y ∷ ys))),
        λ d. absurd (d.0 (here ((==_iff x y).0 e))),
      )
      | inr e ↦
          let x_lt : x < y = ground arith in
          rw e (
            λ h. (λ m. above-not_Elem x y (y ∷ ys) x_lt (omega arith, a.1.0) m, to (omega arith)),
            λ d. ap suc (from d.1),
          )
    ]

-- `sort_unstable`, `dedup` and the comparison of lengths find out whether an index occurs twice.
pub all_distinct_iff : (xs : List ℕ) → (all_distinct xs ≡ true) ↔ Distinct xs
unfolding all_distinct
all_distinct_iff xs =
    let (to, from) = dedup-Distinct (sort_unstable xs) (sort_unstable-Ascending xs) in
    let (down, up) = sort_unstable-Distinct xs in
    (
      λ h. down (to ((==_iff _ _).0 h ∙ sym (sort_unstable-length xs))),
      λ d. (==_iff _ _).1 (from (up d) ∙ sort_unstable-length xs),
    )

absent_iff : (x : ℕ) (ys : List ℕ) → (absent x ys ≡ true) ↔ (¬ Elem x ys)
unfolding absent
absent_iff x [] = (λ _ m. elim m [ ], λ _. refl)
absent_iff x (y ∷ ys) =
    let (to, from) = absent_iff x ys in
    elim (Bool-cases (x == y)) [
      | inl e ↦ rw e (λ h. cc, λ n. absurd (n (here ((==_iff x y).0 e))))
      | inr e ↦
          rw e (
            λ h m. elim m [ here p ↦ ground arith | there q ↦ to h q ],
            λ n. from (λ m. n (there m)),
          )
    ]

-- `slices_distinct` finds out whether two index vectors share an index.
pub slices_distinct_iff : (xs ys : List ℕ) → (slices_distinct xs ys ≡ true) ↔ Disjoint xs ys
unfolding slices_distinct
slices_distinct_iff [] ys = (λ _ a m. elim m [ ], λ _. refl)
slices_distinct_iff (x ∷ xs) ys =
    let (to, from) = slices_distinct_iff xs ys in
    let (out, back) = absent_iff x ys in
    (
      λ h a m. elim m [
        | here e ↦ λ n. out (&&-parts _ _ h).0 (subst (λ b. Elem b ys) e n)
        | there q ↦ to (&&-parts _ _ h).1 a q
      ],
      λ d. rw (back (d x (here refl)), from (λ a m. d a (there m))),
    )
