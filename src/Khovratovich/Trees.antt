-- ===== src/Khovratovich/Trees.antt =====
-- The forks of the rounds lead back to the leaves.
use requihash.Base.{
  ℕ, zero, suc, ◌≤◌, ◌<◌, ◌≡◌, refl, ap, ◌∙◌, List, [], ◌∷◌, ◌++◌, length, length-append, get_or,
  arith,
}
use requihash.Outcome.{ok}
use requihash.Indexing.{read-get_or}
use requihash.Khovratovich.{Fork, Refusal, resolve_tree_by_level}
use native.Mathlib.Decide.{ℕ_discrete}

abbrev pub no_fork : Fork
no_fork = record { ref1 = 0; ref2 = 0 }

abbrev pub fork_at : List (List Fork) → ℕ → ℕ → Fork
fork_at forks l r = get_or (get_or forks l []) r no_fork

-- The leaves below a reference into the forks of round `l`, or below a leaf in round 0.
abbrev pub leaves : List (List Fork) → ℕ → ℕ → List ℕ
leaves forks zero r = r ∷ []
leaves forks (suc l) r =
    leaves forks l (fork_at forks l r).ref1 ++ leaves forks l (fork_at forks l r).ref2

abbrev pub pair_leaves : List (List Fork) → ℕ → Fork → List ℕ
pair_leaves forks l fork = leaves forks l fork.ref1 ++ leaves forks l fork.ref2

-- Both references of a fork lie in the table of the round before it.
abbrev pub Within : ℕ → Fork → Type 0
Within room fork = (fork.ref1 < room) × (fork.ref2 < room)

-- Every round has `room` forks, and from the second on they refer to the forks of the round before.
pub record Linked (room : ℕ) (forks : List (List Fork)) : Type 0 where
  pub rooms : (l : ℕ) → l < length forks → length (get_or forks l []) ≡ room
  pub within : (l r : ℕ) → l < length forks → 0 < l → r < room → Within room (fork_at forks l r)

pub resolve_tree_by_level-leaves :
    (room : ℕ) (forks : List (List Fork)) (l : ℕ) (fork : Fork)
    → Linked room forks
    → l ≤ length forks
    → (0 < l → Within room fork)
    → resolve_tree_by_level forks fork l ≡ ok (pair_leaves forks l fork)
unfolding resolve_tree_by_level
resolve_tree_by_level-leaves room forks zero fork linked h inside = refl
resolve_tree_by_level-leaves room forks (suc l) fork linked h inside =
    let (in1, in2) = inside (omega arith) in
    let size = linked.rooms l (omega arith) in
    let row = read-get_or {E = Refusal} forks l [] (omega arith) in
    let below : (r : ℕ) → r < room → 0 < l → Within room (fork_at forks l r) =
      λ r hr hl. linked.within l r (omega arith) hl hr in
    rw (
      row,
      read-get_or {E = Refusal} (get_or forks l []) fork.ref1 no_fork (omega arith),
      read-get_or {E = Refusal} (get_or forks l []) fork.ref2 no_fork (omega arith),
      resolve_tree_by_level-leaves room forks l (fork_at forks l fork.ref1) linked (omega arith)
          (below fork.ref1 in1),
      resolve_tree_by_level-leaves room forks l (fork_at forks l fork.ref2) linked (omega arith)
          (below fork.ref2 in2),
    )

get_or-append_left :
    (forks : List (List Fork)) (x : List Fork) (l : ℕ)
    → l < length forks
    → get_or (forks ++ x ∷ []) l [] ≡ get_or forks l []
get_or-append_left [] x l h = absurd (omega arith)
get_or-append_left (row ∷ forks) x zero h = refl
get_or-append_left (row ∷ forks) x (suc l) h = get_or-append_left forks x l (omega arith)

get_or-append_last :
    (forks : List (List Fork)) (x : List Fork) → get_or (forks ++ x ∷ []) (length forks) [] ≡ x
get_or-append_last [] x = refl
get_or-append_last (row ∷ forks) x = get_or-append_last forks x

-- A new round leaves the leaves of the earlier ones as they are.
leaves-append :
    (forks : List (List Fork)) (x : List Fork) (l r : ℕ)
    → l ≤ length forks
    → leaves (forks ++ x ∷ []) l r ≡ leaves forks l r
leaves-append forks x zero r h = refl
leaves-append forks x (suc l) r h =
    let same : fork_at (forks ++ x ∷ []) l r ≡ fork_at forks l r =
      ap (λ row. get_or row r no_fork) (get_or-append_left forks x l (omega arith)) in
    rw (
      same,
      leaves-append forks x l (fork_at forks l r).ref1 (omega arith),
      leaves-append forks x l (fork_at forks l r).ref2 (omega arith),
    )

pub leaves-new :
    (forks : List (List Fork)) (x : List Fork) (r : ℕ)
    → leaves (forks ++ x ∷ []) (suc (length forks)) r
      ≡ pair_leaves forks (length forks) (get_or x r no_fork)
leaves-new forks x r =
    let same : fork_at (forks ++ x ∷ []) (length forks) r ≡ get_or x r no_fork =
      ap (λ row. get_or row r no_fork) (get_or-append_last forks x) in
    rw (
      same,
      leaves-append forks x (length forks) (get_or x r no_fork).ref1 (omega arith),
      leaves-append forks x (length forks) (get_or x r no_fork).ref2 (omega arith),
    )

pub Linked-append :
    (room : ℕ) (forks : List (List Fork)) (x : List Fork)
    → Linked room forks
    → length x ≡ room
    → ((r : ℕ) → r < room → 0 < length forks → Within room (get_or x r no_fork))
    → Linked room (forks ++ x ∷ [])
Linked-append room forks x linked size inside = record {
  rooms = λ l h. elim (ℕ_discrete l (length forks)) [
    | yes e ↦
        ap (λ i. length (get_or (forks ++ x ∷ []) i [])) e
        ∙ ap length (get_or-append_last forks x)
        ∙ size
    | no ne ↦
        let earlier = before l ne h in
        ap length (get_or-append_left forks x l earlier) ∙ linked.rooms l earlier
  ];
  within = λ l r h hl hr. elim (ℕ_discrete l (length forks)) [
    | yes e ↦ rw (e, get_or-append_last forks x) (inside r hr (omega arith))
    | no ne ↦
        let earlier = before l ne h in
        rw (get_or-append_left forks x l earlier) (linked.within l r earlier hl hr)
  ];
}
  where
    before : (l : ℕ) → (l ≡ length forks → ⊥) → l < length (forks ++ x ∷ []) → l < length forks
    before l ne h = omega (arith, length-append forks (x ∷ []))
