-- ===== src/Solve/Buffers.antt =====
-- Rows in flat buffers, in the arena solver of Req/rust/src/lib.rs.
use requihash.Base.{
  ℕ, zero, suc, ◌+◌, ◌-◌, ◌*◌, ◌/◌, ◌≤◌, ◌<◌, ◌≡◌, refl, sym, ap, ◌∙◌, inl, inr, false, Bool-cases,
  ◌==◌, ◌||◌, if◌then◌else◌, Option, List, [], ◌∷◌, map, length, length-map, length-append, take,
  drop, drop-drop, arith,
}
use requihash.Distinct.{all_distinct}
use requihash.Verify.{Row, all_zero}
use requihash.Verify.Arena.{slice}
use requihash.Verify.Flat.{flat, Even, next_row, row_whole}
use requihash.Collisions.{merge_round}
use requihash.Collisions.Renaming.{merge_round-map}
use requihash.Solve.{key, merge_rows, solutions}
use requihash.Solve.Arena.{
  Arena, range, row_key, row_idx, row_rest, merge_ids, collect, arena_solutions,
}
use native.Mathlib.Nat.{mul-div_cancel, suc-mul}

module _ {ℓ} {A : Type ℓ} where
  take-take : (c w : ℕ) (xs : List A) → c ≤ w → take c (take w xs) ≡ take c xs
  take-take zero w xs h = refl
  take-take (suc c) zero xs h = absurd (omega arith)
  take-take (suc c) (suc w) [] h = refl
  take-take (suc c) (suc w) (x ∷ xs) h = ap (◌∷◌ x) (take-take c w xs (omega arith))

  drop-take : (c w : ℕ) (xs : List A) → drop c (take (c + w) xs) ≡ take w (drop c xs)
  drop-take zero w xs = ap (λ n. take n xs) {x = 0 + w} {y = w} (omega arith)
  drop-take (suc c) w [] =
      ap (λ n. drop (suc c) (take n [])) {x = suc c + w} {y = suc (c + w)} (omega arith)
      ∙ sym (nothing w)
    where
      nothing : (w : ℕ) → take {A = A} w [] ≡ []
      nothing zero = refl
      nothing (suc w) = refl
  drop-take (suc c) w (x ∷ xs) =
      ap (λ n. drop (suc c) (take n (x ∷ xs))) {x = suc c + w} {y = suc (c + w)} (omega arith)
      ∙ drop-take c w xs

-- The row that stands at a number.
abbrev pub row_at : Arena → ℕ → Row
row_at s r = record { h = slice s.hashes (r * s.hstride) s.hstride; idx = row_idx s r }

module _ (cbyte : ℕ) (s : Arena) (room : cbyte ≤ s.hstride) where
  row_key-at : (r : ℕ) → row_key cbyte s r ≡ key cbyte (row_at s r)
  row_key-at r = sym (take-take cbyte s.hstride (drop (r * s.hstride) s.hashes) room)

  row_rest-at : (r : ℕ) → row_rest cbyte s r ≡ drop cbyte (row_at s r).h
  row_rest-at r =
      let l = drop (r * s.hstride) s.hashes in
      ap (take (s.hstride - cbyte)) (sym (drop-drop (r * s.hstride) cbyte s.hashes))
      ∙ sym (drop-take cbyte (s.hstride - cbyte) l)
      ∙ ap (λ n. drop cbyte (take n l)) {x = cbyte + (s.hstride - cbyte)} {y = s.hstride}
          (omega arith)

  merge_ids-at : (a b : ℕ) → merge_ids cbyte s a b ≡ merge_rows cbyte (row_at s a) (row_at s b)
  unfolding merge_ids merge_rows
  merge_ids-at a b = rw (row_rest-at a, row_rest-at b)

  -- A round over row numbers is the round over the rows.
  pub round-rows :
      (ids : List ℕ)
      → merge_round (merge_ids cbyte s) (row_key cbyte s) ids
        ≡ merge_round (merge_rows cbyte) (key cbyte) (map (row_at s) ids)
  round-rows ids =
      ap (λ (m : ℕ → ℕ → Option Row). merge_round m (row_key cbyte s) ids)
        (λ i a b. merge_ids-at a b i)
      ∙ ap
          (λ (k : ℕ → List ℕ).
            merge_round (λ a b. merge_rows cbyte (row_at s a) (row_at s b)) k ids)
          (λ i r. row_key-at r i)
      ∙ merge_round-map (merge_rows cbyte) (row_at s) (key cbyte) ids

-- `s` holds the rows `x`.
pub record Holds (s : Arena) (x : List Row) : Type 0 where
  pub hashes : s.hashes ≡ flat (map (λ (r : Row). r.h) x)
  pub idxs : s.idxs ≡ flat (map (λ (r : Row). r.idx) x)
  pub wide : Even s.hstride (map (λ (r : Row). r.h) x)
  pub long : Even s.icount (map (λ (r : Row). r.idx) x)
  pub count : s.nrows ≡ length x

rows_from :
    (s : Arena) (r : ℕ) (x : List Row)
    → drop (r * s.hstride) s.hashes ≡ flat (map (λ (t : Row). t.h) x)
    → drop (r * s.icount) s.idxs ≡ flat (map (λ (t : Row). t.idx) x)
    → Even s.hstride (map (λ (t : Row). t.h) x)
    → Even s.icount (map (λ (t : Row). t.idx) x)
    → map (row_at s) (range r (length x)) ≡ x
unfolding range flat
rows_from s r [] eh ei wh wi = refl
rows_from s r (t ∷ x) eh ei (wh, whs) (wi, wis) =
    let hs = map (λ (t : Row). t.h) x in
    let is = map (λ (t : Row). t.idx) x in
    let at : row_at s r ≡ t = λ i. record {
      h = row_whole s.hstride s.hashes t.h hs r wh eh i;
      idx = row_whole s.icount s.idxs t.idx is r wi ei i;
    } in
    ap (λ (u : Row). u ∷ map (row_at s) (range (r + 1) (length x))) at
    ∙ ap (◌∷◌ t) (
        rows_from s (r + 1) x (next_row s.hstride s.hashes t.h hs r wh eh)
          (next_row s.icount s.idxs t.idx is r wi ei) whs wis)

pub Holds-rows : (s : Arena) (x : List Row) → Holds s x → map (row_at s) (range 0 s.nrows) ≡ x
Holds-rows s x v =
    ap (λ n. map (row_at s) (range 0 n)) v.count
    ∙ rows_from s 0 x
        (ap (λ n. drop n s.hashes) {x = 0 * s.hstride} {y = 0} (omega arith) ∙ v.hashes)
        (ap (λ n. drop n s.idxs) {x = 0 * s.icount} {y = 0} (omega arith) ∙ v.idxs) v.wide v.long

length-flat : (w : ℕ) (xs : List (List ℕ)) → Even w xs → length (flat xs) ≡ length xs * w
unfolding flat
length-flat w [] v = omega arith
length-flat w (x ∷ xs) (wx, v) =
    length-append x (flat xs) ∙ omega (arith, wx, length-flat w xs v, suc-mul (length xs) w)

-- The appended pieces hold the merged rows.
pub collect-Holds :
    (w c : ℕ) (out : List Row)
    → 0 < c
    → Even w (map (λ (r : Row). r.h) out)
    → Even c (map (λ (r : Row). r.idx) out)
    → Holds (collect w c out) out
unfolding collect
collect-Holds w c out pos wide long = record {
  hashes = refl;
  idxs = refl;
  wide = wide;
  long = long;
  count = elim (Bool-cases (w == 0)) [
    | inl e ↦ rw e (counted c (map (λ (r : Row). r.idx) out) pos long ∙ length-map _ out)
    | inr e ↦ rw e (counted w (map (λ (r : Row). r.h) out) (not_zero w e) wide ∙ length-map _ out)
  ];
}
  where
    not_zero : (w : ℕ) → (w == 0) ≡ false → 0 < w
    not_zero w e = ground arith

    counted : (w : ℕ) (xs : List (List ℕ)) → 0 < w → Even w xs → length (flat xs) / w ≡ length xs
    counted w xs pos v = ap (λ t. t / w) (length-flat w xs v) ∙ mul-div_cancel (length xs) pos

no_width : (w : ℕ) (l : List ℕ) → (w == 0 || all_zero (take w l)) ≡ all_zero (take w l)
unfolding all_zero
no_width zero l = refl
no_width (suc w) l = rw (differs w)
  where
    differs : (w : ℕ) → (suc w == 0) ≡ false
    differs w = ground arith

solutions-rows :
    (s : Arena) (r left : ℕ) → arena_solutions s r left ≡ solutions (map (row_at s) (range r left))
unfolding arena_solutions solutions range
solutions-rows s r zero = refl
solutions-rows s r (suc left) =
    ap
      (λ b.
        if b
        then (if all_distinct (row_idx s r)
            then row_idx s r ∷ arena_solutions s (r + 1) left
            else arena_solutions s (r + 1) left)
        else arena_solutions s (r + 1) left)
      (no_width s.hstride (drop (r * s.hstride) s.hashes))
    ∙ rw (solutions-rows s (r + 1) left)

-- The filter at the end sees the rows.
pub Holds-solutions :
    (s : Arena) (x : List Row) → Holds s x → arena_solutions s 0 s.nrows ≡ solutions x
Holds-solutions s x v = solutions-rows s 0 s.nrows ∙ ap solutions (Holds-rows s x v)
