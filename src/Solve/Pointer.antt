-- ===== src/Solve/Pointer.antt =====
-- `PointerSolverPrototype` of Req/rust/src/solve/pointer.rs: a row keeps the numbers of the two rows
-- that it comes from, and index vectors are made by walking back. `history` is a list of levels, the
-- last one first. Row numbers are not cut to 32 bits.
use requihash.Base.{
  ℕ, zero, suc, ◌+◌, ◌-◌, ◌^◌, Bool, true, false, ◌==◌, list_eq, list_lt, if◌then◌else◌, Option,
  none, some, List, [], ◌∷◌, ◌++◌, length, get_or, take,
}
use requihash.Params.{collision_bit_length, collision_byte_length}
use requihash.Engine.{Requihash, leaf_row}
use requihash.Distinct.{all_distinct}
use requihash.Verify.{xor_bytes, all_zero}
use requihash.Verify.Arena.{slice}
use requihash.Collisions.{sort_by, same_key, after_key, all_pairs}
use requihash.Solve.Arena.{range}

pub data Ptr : Type 0 where
  leaf : ℕ → Ptr
  pair : ℕ → ℕ → Ptr

pub record PtrRow : Type 0 where
  pub hash : List ℕ
  pub ptr : Ptr

-- `prev[r]`
abbrev pub row : List PtrRow → ℕ → PtrRow
row level r = get_or level r (record { hash = []; ptr = leaf 0 })

-- `if left > right { swap }`, and `left.extend(right)`.
abbrev pub join : List ℕ → List ℕ → List ℕ
join left right = if list_lt right left then right ++ left else left ++ right

-- `reconstruct(history, round, at)`, where `round` is the number of the last level.
unfoldable pub reconstruct : List (List PtrRow) → ℕ → List ℕ
reconstruct [] at = []
reconstruct (level ∷ older) at = elim (row level at).ptr [
  | leaf l ↦ l ∷ []
  | pair a b ↦ join (reconstruct older a) (reconstruct older b)
]

-- `lb.contains(x)`
unfoldable pub contains : List ℕ → ℕ → Bool
contains [] x = false
contains (y ∷ ys) x = if y == x then true else contains ys x

-- `la.iter().any(|x| lb.contains(x))`
unfoldable pub shares : List ℕ → List ℕ → Bool
unfolding contains
shares [] lb = false
shares (x ∷ la) lb = if contains lb x then true else shares la lb

unfoldable pub leaves_share : List (List PtrRow) → ℕ → ℕ → Bool
unfolding shares reconstruct
leaves_share history a b = shares (reconstruct history a) (reconstruct history b)

-- `prev[r].hash[..cbyte]`
abbrev pub ptr_key : ℕ → List PtrRow → ℕ → List ℕ
ptr_key cbyte prev r = take cbyte (row prev r).hash

-- The body of the two `for` loops.
unfoldable pub merge_ptrs : ℕ → ℕ → List PtrRow → List (List PtrRow) → ℕ → ℕ → Option PtrRow
unfolding leaves_share
merge_ptrs cbyte new_len prev older ra rb =
    if leaves_share (prev ∷ older) ra rb
    then none
    else some (record {
      hash =
          xor_bytes (slice (row prev ra).hash cbyte new_len)
            (slice (row prev rb).hash cbyte new_len);
      ptr = pair ra rb;
    })

-- The `while`: a row whose successor has another key is passed over.
unfoldable pub ptr_groups {ℓ} :
    {B : Type ℓ} → (ℕ → ℕ → Option B) → (ℕ → List ℕ) → ℕ → List ℕ → List B
unfolding all_pairs same_key after_key
ptr_groups merge key (suc fuel) (x ∷ y ∷ rest) =
    let skipped = ptr_groups merge key fuel (y ∷ rest) in
    let more = ptr_groups merge key fuel (after_key key (key x) (y ∷ rest)) in
    if list_eq (key y) (key x)
    then all_pairs merge (x ∷ same_key key (key x) (y ∷ rest)) ++ more
    else skipped
ptr_groups merge key _ _ = []

-- `prev[0].hash.len() - cbyte`
abbrev pub rest_len : ℕ → List PtrRow → ℕ
rest_len cbyte prev = length (row prev 0).hash - cbyte

-- The body of `for _round in 1..=k`, up to the test of `next`.
unfoldable pub next_level : ℕ → List PtrRow → List (List PtrRow) → List PtrRow
unfolding ptr_groups merge_ptrs
next_level cbyte prev older =
    ptr_groups (merge_ptrs cbyte (rest_len cbyte prev) prev older) (ptr_key cbyte prev)
      (length prev) (sort_by (ptr_key cbyte prev) (range 0 (length prev)))

-- The loop over the roots, with `left` rows from `ri` on.
unfoldable pub roots : List PtrRow → List (List PtrRow) → ℕ → ℕ → List (List ℕ)
roots level older ri zero = []
roots level older ri (suc left) =
    let idx = reconstruct (level ∷ older) ri in
    let rest = roots level older (ri + 1) left in
    if all_zero (row level ri).hash then (if all_distinct idx then idx ∷ rest else rest) else rest

-- The rounds, with `left` of them left, and what comes behind them.
unfoldable pub ptr_rounds : ℕ → ℕ → List PtrRow → List (List PtrRow) → List (List ℕ)
unfolding next_level roots
ptr_rounds cbyte zero prev older = roots prev older 0 (length prev)
ptr_rounds cbyte (suc left) [] older = []
ptr_rounds cbyte (suc left) (r ∷ prev) older =
    let next = next_level cbyte (r ∷ prev) older in
    let rest = ptr_rounds cbyte left next ((r ∷ prev) ∷ older) in
    elim next [ [] ↦ [] | _ ∷ _ ↦ rest ]

-- Round 0.
unfoldable pub leaf_level : Requihash → ℕ → ℕ → List PtrRow
leaf_level e from zero = []
leaf_level e from (suc count) =
    record { hash = leaf_row e from; ptr = leaf from } ∷ leaf_level e (from + 1) count

-- `PointerSolverPrototype::solve`
unfoldable pub solve_pointer : Requihash → List (List ℕ)
unfolding leaf_level ptr_rounds
solve_pointer e =
    ptr_rounds (collision_byte_length e.p) e.p.k
      (leaf_level e 0 (2 ^ (collision_bit_length e.p + 1))) []
