-- ===== src/Distinct.antt =====
-- The two tests for repeated indices in Req/rust/src: `sort_unstable`, `dedup` and the comparison
-- of lengths, which the verifiers and the solvers share, and `slices_distinct` of lib.rs.
pub mod Decides
use requihash.Base.{
  ℕ, suc, Bool, true, false, not, ◌&&◌, leb, ◌==◌, if◌then◌else◌, List, [], ◌∷◌, length,
}
use requihash.Base.Elem.{Elem}

-- `sort_unstable` of numbers: equal numbers are one value, so any sort gives this list.
insert_sorted : ℕ → List ℕ → List ℕ
insert_sorted x [] = x ∷ []
insert_sorted x (y ∷ ys) = if leb x y then x ∷ y ∷ ys else y ∷ insert_sorted x ys

unfoldable pub sort_unstable : List ℕ → List ℕ
unfolding insert_sorted
sort_unstable [] = []
sort_unstable (x ∷ xs) = insert_sorted x (sort_unstable xs)

-- `dedup`: of equal neighbours one is kept.
pub dedup : List ℕ → List ℕ
dedup (x ∷ y ∷ ys) = let rest = dedup (y ∷ ys) in if x == y then rest else x ∷ rest
dedup xs = xs

-- `u.len() == indices.len()` after both.
pub all_distinct : List ℕ → Bool
unfolding sort_unstable dedup
all_distinct xs = length (dedup (sort_unstable xs)) == length xs

-- The inner loop of `slices_distinct`.
unfoldable pub absent : ℕ → List ℕ → Bool
absent x [] = true
absent x (y ∷ ys) = not (x == y) && absent x ys

unfoldable pub slices_distinct : List ℕ → List ℕ → Bool
unfolding absent
slices_distinct [] ys = true
slices_distinct (x ∷ xs) ys = absent x ys && slices_distinct xs ys

-- No number occurs twice.
abbrev pub Distinct : List ℕ → Type 0
Distinct [] = Unit
Distinct (x ∷ xs) = (¬ Elem x xs) × Distinct xs

-- No number occurs in both.
abbrev pub Disjoint : List ℕ → List ℕ → Type 0
Disjoint xs ys = (a : ℕ) → Elem a xs → ¬ Elem a ys
