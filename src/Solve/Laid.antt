-- ===== src/Solve/Laid.antt =====
-- Rows laid out bucket by bucket are sorted, and the merges bucket by bucket are the merges of the
-- sorted rows, when the numbers that choose the buckets order the rows as their keys do.
use requihash.Base.{
  ℕ, zero, suc, ◌+◌, ◌≤◌, ◌<◌, ◌≡◌, refl, sym, ap, ◌∙◌, inl, inr, true, false, Bool-cases, ◌==◌,
  ltb, list_lt, List, [], ◌∷◌, ◌++◌, All, All-append, arith,
}
use requihash.Collisions.{insert_by, sort_by}
use requihash.Solve.Counting.{picks, picks_here, picks_other}
use native.Mathlib.Decide.{ℕ_discrete}
use mathlib.Core.Path.{subst}

-- The buckets from `b` on, behind one another.
unfoldable pub laid : (ℕ → ℕ) → List ℕ → ℕ → ℕ → List ℕ
laid bkey rs b zero = []
laid bkey rs b (suc left) = picks bkey b rs ++ laid bkey rs (b + 1) left

module _ (key : ℕ → List ℕ) (bkey : ℕ → ℕ) (P : ℕ → Type 0)
    (ordered : (r s : ℕ) → P r → P s → list_lt (key r) (key s) ≡ ltb (bkey r) (bkey s)) where
  -- A row goes behind those with smaller keys, and no further.
  insert_behind :
      (r : ℕ) (xs ys : List ℕ)
      → All (λ x. list_lt (key x) (key r) ≡ true) xs
      → insert_by key r (xs ++ ys) ≡ xs ++ insert_by key r ys
  unfolding insert_by
  insert_behind r [] ys v = refl
  insert_behind r (x ∷ xs) ys (v, vs) = rw v (ap (◌∷◌ x) (insert_behind r xs ys vs))

  insert_front :
      (r : ℕ) (ys : List ℕ)
      → All (λ y. list_lt (key y) (key r) ≡ false) ys
      → insert_by key r ys ≡ r ∷ ys
  unfolding insert_by
  insert_front r [] v = refl
  insert_front r (y ∷ ys) (v, vs) = rw v

  picks-less :
      (r b : ℕ) (rs : List ℕ)
      → P r
      → All P rs
      → b < bkey r
      → All (λ x. list_lt (key x) (key r) ≡ true) (picks bkey b rs)
  unfolding picks
  picks-less r b [] p ps h = tt
  picks-less r b (s ∷ rs) p (q, qs) h = elim (Bool-cases (bkey s == b)) [
    | inl e ↦ rw e (ordered s r q p ∙ less (bkey s) b (bkey r) e h, picks-less r b rs p qs h)
    | inr e ↦ rw e (picks-less r b rs p qs h)
  ]
    where
      less : (x b y : ℕ) → (x == b) ≡ true → b < y → ltb x y ≡ true
      less x b y e h = ground arith

  picks-not_less :
      (r b : ℕ) (rs : List ℕ)
      → P r
      → All P rs
      → bkey r ≤ b
      → All (λ x. list_lt (key x) (key r) ≡ false) (picks bkey b rs)
  unfolding picks
  picks-not_less r b [] p ps h = tt
  picks-not_less r b (s ∷ rs) p (q, qs) h = elim (Bool-cases (bkey s == b)) [
    | inl e ↦
        rw e (ordered s r q p ∙ not_less (bkey s) b (bkey r) e h, picks-not_less r b rs p qs h)
    | inr e ↦ rw e (picks-not_less r b rs p qs h)
  ]
    where
      not_less : (x b y : ℕ) → (x == b) ≡ true → y ≤ b → ltb x y ≡ false
      not_less x b y e h = ground arith

  laid-not_less :
      (r b left : ℕ) (rs : List ℕ)
      → P r
      → All P rs
      → bkey r ≤ b
      → All (λ x. list_lt (key x) (key r) ≡ false) (laid bkey rs b left)
  unfolding laid
  laid-not_less r b zero rs p ps h = tt
  laid-not_less r b (suc left) rs p ps h =
      All-append (λ x. list_lt (key x) (key r) ≡ false) (picks bkey b rs)
        (laid bkey rs (b + 1) left) (picks-not_less r b rs p ps h)
        (laid-not_less r (b + 1) left rs p ps (omega arith))

  laid_past :
      (r b left : ℕ) (rs : List ℕ) → bkey r < b → laid bkey (r ∷ rs) b left ≡ laid bkey rs b left
  unfolding laid
  laid_past r b zero rs h = refl
  laid_past r b (suc left) rs h =
      rw (picks_other bkey b r rs (λ e. omega arith), laid_past r (b + 1) left rs (omega arith))

  picks_at : (r b : ℕ) (rs : List ℕ) → bkey r ≡ b → picks bkey b (r ∷ rs) ≡ r ∷ picks bkey b rs
  picks_at r b rs e =
      subst (λ b. picks bkey b (r ∷ rs) ≡ r ∷ picks bkey b rs) e (picks_here bkey r rs)

  insert-laid :
      (r b left : ℕ) (rs : List ℕ)
      → P r
      → All P rs
      → b ≤ bkey r
      → bkey r < b + left
      → insert_by key r (laid bkey rs b left) ≡ laid bkey (r ∷ rs) b left
  unfolding laid
  insert-laid r b zero rs p ps lo hi = absurd (omega arith)
  insert-laid r b (suc left) rs p ps lo hi = elim (ℕ_discrete (bkey r) b) [
    | yes e ↦
        insert_front r (laid bkey rs b (suc left))
          (laid-not_less r b (suc left) rs p ps (omega arith))
        ∙ sym (rw (picks_at r b rs e, laid_past r (b + 1) left rs (omega arith)))
    | no ne ↦
        insert_behind r (picks bkey b rs) (laid bkey rs (b + 1) left)
          (picks-less r b rs p ps (omega arith))
        ∙ rw (
          picks_other bkey b r rs ne,
          insert-laid r (b + 1) left rs p ps (omega arith) (omega arith),
        )
  ]

  laid-nil : (b left : ℕ) → laid bkey [] b left ≡ []
  unfolding laid picks
  laid-nil b zero = refl
  laid-nil b (suc left) = laid-nil (b + 1) left

  -- The stable sort lays the rows out bucket by bucket.
  pub sort_by-laid :
      (nb : ℕ) (rs : List ℕ)
      → All P rs
      → All (λ r. bkey r < nb) rs
      → sort_by key rs ≡ laid bkey rs 0 nb
  unfolding sort_by
  sort_by-laid nb [] ps hs = sym (laid-nil 0 nb)
  sort_by-laid nb (r ∷ rs) (p, ps) (h, hs) =
      ap (insert_by key r) (sort_by-laid nb rs ps hs)
      ∙ insert-laid r 0 nb rs p ps (omega arith) (omega arith)
