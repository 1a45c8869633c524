-- ===== src/Solve/Instrumented.antt =====
-- `hash_all_leaves` and `solve_instrumented` of Req/rust/src/lib.rs. The two times that the clock gives
-- are arguments.
use requihash.Base.{
  ℕ, zero, suc, ◌+◌, ◌^◌, ◌≤◌, ◌<◌, ◌≡◌, refl, sym, ap, ◌∙◌, ◌⊎◌, inl, inr, true, false, Bool-cases,
  if◌then◌else◌, List, [], ◌∷◌, ◌++◌, length, get_or, map, arith,
}
use mathlib.Core.List.{append_assoc, append-nil}
use requihash.Params.{collision_bit_length, collision_byte_length}
use requihash.Engine.{Requihash, leaf_row}
use requihash.Verify.{Row}
use requihash.Collisions.{merge_round}
use requihash.Solve.{
  initial_rows, key, merge_rows, is_empty, solve_rounds, solutions, solve_reference,
}

-- `for leaf in 0..init_size`, of which `count` leaves are left.
unfoldable pub push_rows : Requihash → ℕ → ℕ → List (List ℕ)
push_rows e leaf zero = []
push_rows e leaf (suc count) = leaf_row e leaf ∷ push_rows e (leaf + 1) count

unfoldable pub hash_all_leaves : Requihash → List (List ℕ) × ℕ
unfolding push_rows
hash_all_leaves e =
    let init_size = 2 ^ (collision_bit_length e.p + 1) in (push_rows e 0 init_size, init_size)

-- The loop of the rounds, with `left` rounds left, its `break`, and the sizes so far.
unfoldable pub counted_rounds : ℕ → ℕ → List Row → List ℕ → List Row × List ℕ
unfolding merge_rows
counted_rounds cbyte zero x round_sizes = (x, round_sizes)
counted_rounds cbyte (suc left) x round_sizes =
    let xc = merge_round (merge_rows cbyte) (key cbyte) x in
    let sizes = round_sizes ++ length xc ∷ [] in
    let rest = counted_rounds cbyte left xc sizes in if is_empty xc then (xc, sizes) else rest

unfoldable pub solve_instrumented : Requihash → ℕ → ℕ → List (List ℕ) × ℕ × ℕ × List ℕ
unfolding initial_rows solutions
solve_instrumented e gen_nanos merge_nanos =
    let x = initial_rows e 0 (2 ^ (collision_bit_length e.p + 1)) in
    let done = counted_rounds (collision_byte_length e.p) e.p.k x (length x ∷ []) in
    (solutions (done.0), gen_nanos, merge_nanos, done.1)

rows_agree :
    (e : Requihash) (leaf count : ℕ)
    → (push_rows e leaf count ≡ map (λ (r : Row). r.h) (initial_rows e leaf count))
      × (length (push_rows e leaf count) ≡ count)
unfolding push_rows initial_rows
rows_agree e leaf zero = (refl, refl)
rows_agree e leaf (suc count) =
    let (same, size) = rows_agree e (leaf + 1) count in
    (ap (λ t. leaf_row e leaf ∷ t) same, omega arith)

-- The benchmark hashes exactly the rows that the reference solver starts with, and reports how many.
pub hash_all_leaves_lem :
    (e : Requihash)
    → ((hash_all_leaves e).0
        ≡ map (λ (r : Row). r.h) (initial_rows e 0 (2 ^ (collision_bit_length e.p + 1))))
      × (length ((hash_all_leaves e).0) ≡ (hash_all_leaves e).1)
unfolding hash_all_leaves
hash_all_leaves_lem e = rows_agree e 0 (2 ^ (collision_bit_length e.p + 1))

-- The sizes `sizes` of rounds from the rows `x` on: each is what the plain loop has after so many
-- rounds; a size before the last is not 0, and they end with the last round or with a size of 0.
pub record IsTally (cbyte left : ℕ) (x : List Row) (sizes : List ℕ) : Type 0 where
  pub rounds : (i : ℕ) → i < length sizes → get_or sizes i 0 ≡ length (solve_rounds cbyte (suc i) x)
  pub few : length sizes ≤ left
  pub running : (i : ℕ) → suc i < length sizes → 0 < get_or sizes i 0
  pub ends : (length sizes ≡ left) ⊎ ((m : ℕ) × (length sizes ≡ suc m) × (get_or sizes m 0 ≡ 0))

some_rows : (x : List Row) → is_empty x ≡ false → 0 < length x
some_rows [] h = absurd (cc)
some_rows (r ∷ x) h = omega arith

is_empty-[] : (x : List Row) → is_empty x ≡ true → x ≡ []
is_empty-[] [] h = refl
is_empty-[] (r ∷ x) h = absurd (cc)

abbrev next_rows : ℕ → List Row → List Row
next_rows cbyte x = merge_round (merge_rows cbyte) (key cbyte) x

solve_rounds-stop :
    (cbyte left : ℕ) (x : List Row)
    → is_empty (next_rows cbyte x) ≡ true
    → solve_rounds cbyte (suc left) x ≡ next_rows cbyte x
unfolding solve_rounds
solve_rounds-stop cbyte left x e = rw e refl

solve_rounds-go :
    (cbyte left : ℕ) (x : List Row)
    → is_empty (next_rows cbyte x) ≡ false
    → solve_rounds cbyte (suc left) x ≡ solve_rounds cbyte left (next_rows cbyte x)
unfolding solve_rounds
solve_rounds-go cbyte left x e = rw e refl

no_rounds : (cbyte : ℕ) (x : List Row) → solve_rounds cbyte 0 x ≡ x
unfolding solve_rounds
no_rounds cbyte x = refl

stop-IsTally :
    (cbyte left : ℕ) (x : List Row)
    → is_empty (next_rows cbyte x) ≡ true
    → IsTally cbyte (suc left) x (length (next_rows cbyte x) ∷ [])
stop-IsTally cbyte left x e = record {
  rounds = rounds;
  few = omega arith;
  running = λ i h. absurd (omega arith);
  ends = inr (0, refl, ap length (is_empty-[] (next_rows cbyte x) e));
}
  where
    rounds :
        (i : ℕ)
        → i < 1
        → get_or (length (next_rows cbyte x) ∷ []) i 0 ≡ length (solve_rounds cbyte (suc i) x)
    rounds zero h = ap length (sym (solve_rounds-stop cbyte 0 x e))
    rounds (suc i) h = absurd (omega arith)

go-IsTally :
    (cbyte left : ℕ) (x : List Row) (sizes : List ℕ)
    → is_empty (next_rows cbyte x) ≡ false
    → IsTally cbyte left (next_rows cbyte x) sizes
    → IsTally cbyte (suc left) x (length (next_rows cbyte x) ∷ sizes)
go-IsTally cbyte left x sizes e tally = record {
  rounds = rounds;
  few = omega (arith, tally.few);
  running = running;
  ends = elim tally.ends [
    | inl all ↦ inl (omega arith)
    | inr (m, size, none) ↦ inr (suc m, omega arith, none)
  ];
}
  where
    running :
        (i : ℕ) → suc i < suc (length sizes) → 0 < get_or (length (next_rows cbyte x) ∷ sizes) i 0
    running zero h = some_rows (next_rows cbyte x) e
    running (suc i) h = tally.running i (omega arith)

    rounds :
        (i : ℕ)
        → i < suc (length sizes)
        → get_or (length (next_rows cbyte x) ∷ sizes) i 0 ≡ length (solve_rounds cbyte (suc i) x)
    rounds zero h =
        ap length (sym (solve_rounds-go cbyte 0 x e ∙ no_rounds cbyte (next_rows cbyte x)))
    rounds (suc i) h =
        tally.rounds i (omega arith) ∙ ap length (sym (solve_rounds-go cbyte (suc i) x e))

counted_rounds_lem :
    (cbyte left : ℕ) (x : List Row) (before : List ℕ)
    → (sizes : List ℕ) × (counted_rounds cbyte left x before
        ≡ (solve_rounds cbyte left x, before ++ sizes))
      × IsTally cbyte left x sizes
unfolding counted_rounds solve_rounds
counted_rounds_lem cbyte zero x before = (
  [],
  rw append-nil,
  record {
    rounds = λ i h. absurd (omega arith);
    few = omega arith;
    running = λ i h. absurd (omega arith);
    ends = inl refl;
  },
)
counted_rounds_lem cbyte (suc left) x before = elim (Bool-cases (is_empty (next_rows cbyte x))) [
  | inl e ↦ rw e (length (next_rows cbyte x) ∷ [], refl, stop-IsTally cbyte left x e)
  | inr e ↦
      let (sizes, same, tally) =
        counted_rounds_lem cbyte left (next_rows cbyte x)
          (before ++ length (next_rows cbyte x) ∷ []) in
      rw (e, same)
        (
          length (next_rows cbyte x) ∷ sizes,
          rw (append_assoc before (length (next_rows cbyte x) ∷ []) sizes),
          go-IsTally cbyte left x sizes e tally,
        )
]

abbrev pub first_rows : Requihash → List Row
first_rows e = initial_rows e 0 (2 ^ (collision_bit_length e.p + 1))

-- The instrumented solver finds what the reference solver finds, and passes the two times on. Its sizes
-- begin with that of the leaves; the others are those of the plain loop after one round, two rounds
-- and so on, to the last round or to the first that leaves nothing, whose size 0 is the last.
pub solve_instrumented-eq-reference :
    (e : Requihash) (gen_nanos merge_nanos : ℕ)
    → (sizes : List ℕ) × (solve_instrumented e gen_nanos merge_nanos
        ≡ (solve_reference e, gen_nanos, merge_nanos, length (first_rows e) ∷ sizes))
      × IsTally (collision_byte_length e.p) e.p.k (first_rows e) sizes
unfolding solve_instrumented solve_reference
solve_instrumented-eq-reference e gen_nanos merge_nanos =
    let (sizes, same, tally) =
      counted_rounds_lem (collision_byte_length e.p) e.p.k (first_rows e)
        (length (first_rows e) ∷ []) in
    (sizes, rw same, tally)
