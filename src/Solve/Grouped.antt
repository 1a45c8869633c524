-- ===== src/Solve/Grouped.antt =====
-- The walk of Req/rust/src/solve/bucket.rs over its buckets, without the arrays.
use requihash.Base.{
  ℕ, zero, suc, ◌+◌, ◌-◌, ◌≤◌, ◌<◌, ◌≡◌, refl, sym, ap, ◌∙◌, inl, inr, Bool-cases, ltb, leb,
  leb-false, if◌then◌else◌, Option, List, [], ◌∷◌, ◌++◌, length, length-replicate, get_or, take,
  drop, replicate, arith,
}
use requihash.Verify.Arena.{slice}
use requihash.Collisions.{merge_groups}
use requihash.Solve.Bucket.{count_rows, prefix_sums, scatter, walk}
use requihash.Solve.Counting.{
  picks, length-count_rows, count_rows-get, count_rows_zero, length-prefix_sums, prefix_sums-get,
  prefix_sums_before, Apart, Valid, Fits, length-scatter, scatter-get,
}

get_or-replicate : (n i : ℕ) → get_or (replicate {A = ℕ} n 0) i 0 ≡ 0
get_or-replicate zero i = refl
get_or-replicate (suc n) zero = refl
get_or-replicate (suc n) (suc i) = get_or-replicate n i

-- A part of a list that is known place by place.
part-get :
    (l xs : List ℕ) (lo : ℕ)
    → lo + length xs ≤ length l
    → ((i : ℕ) → i < length xs → get_or l (lo + i) 0 ≡ get_or xs i 0)
    → take (length xs) (drop lo l) ≡ xs
part-get l [] zero h same = refl
part-get [] (x ∷ xs) zero h same = absurd (omega arith)
part-get (y ∷ l) (x ∷ xs) zero h same =
    ap (λ t. t ∷ take (length xs) l) (same 0 (omega arith))
    ∙ ap (◌∷◌ x) (
        part-get l xs zero (omega arith) (λ i lt.
          ap (λ n. get_or l n 0) {x = 0 + i} {y = i} (omega arith)
          ∙ ap (λ n. get_or (y ∷ l) n 0) {x = suc i} {y = 0 + suc i} (omega arith)
          ∙ same (suc i) (omega arith)))
part-get [] [] (suc lo) h same = refl
part-get [] (x ∷ xs) (suc lo) h same = absurd (omega arith)
part-get (y ∷ l) xs (suc lo) h same = part-get l xs lo (omega arith) (λ i lt.
    ap (λ n. get_or (y ∷ l) n 0) {x = suc (lo + i)} {y = suc lo + i} (omega arith) ∙ same i lt)

module _ (bkey : ℕ → ℕ) where
  -- How many rows have a smaller key.
  below : ℕ → List ℕ → ℕ
  below b [] = 0
  below b (r ∷ rs) = if ltb (bkey r) b then suc (below b rs) else below b rs

  below_zero : (rs : List ℕ) → below 0 rs ≡ 0
  unfolding below
  below_zero [] = refl
  below_zero (r ∷ rs) = ground (arith, below_zero rs)

  below_next : (b : ℕ) (rs : List ℕ) → below (b + 1) rs ≡ below b rs + length (picks bkey b rs)
  unfolding below picks
  below_next b [] = refl
  below_next b (r ∷ rs) = ground (arith, below_next b rs)

  below-≤ : (b : ℕ) (rs : List ℕ) → below b rs ≤ length rs
  unfolding below
  below-≤ b [] = omega arith
  below-≤ b (r ∷ rs) = ground (arith, below-≤ b rs)

  below_mono : (b c : ℕ) (rs : List ℕ) → b ≤ c → below b rs ≤ below c rs
  unfolding below
  below_mono b c [] h = omega arith
  below_mono b c (r ∷ rs) h = ground (arith, below_mono b c rs h)

module _ (bkey : ℕ → ℕ) (nb : ℕ) (rs : List ℕ) (valid : Valid bkey nb rs) where
  abbrev tallies : List ℕ
  tallies = count_rows bkey rs (replicate (nb + 1) 0)

  abbrev counts : List ℕ
  counts = prefix_sums 0 nb tallies

  length-tallies : length tallies ≡ nb + 1
  length-tallies =
      length-count_rows bkey rs (replicate (nb + 1) 0) ∙ length-replicate {A = ℕ} (nb + 1) 0

  counts_first : get_or counts 0 0 ≡ 0
  counts_first =
      prefix_sums_before 0 nb 0 tallies (omega arith)
      ∙ count_rows_zero bkey rs (replicate (nb + 1) 0)
      ∙ get_or-replicate (nb + 1) 0

  counts_next :
      (b : ℕ) → b < nb → get_or counts (b + 1) 0 ≡ get_or counts b 0 + length (picks bkey b rs)
  counts_next b h =
      let tally =
        count_rows-get bkey rs (replicate (nb + 1) 0) b
          (omega (arith, length-replicate {A = ℕ} (nb + 1) 0)) in
      omega (
        arith,
        prefix_sums-get 0 nb b tallies (omega arith) (omega arith) (omega (arith, length-tallies)),
        tally,
        get_or-replicate (nb + 1) (b + 1),
      )

  counts-below : (b : ℕ) → b ≤ nb → get_or counts b 0 ≡ below bkey b rs
  counts-below zero h = counts_first ∙ sym (below_zero bkey rs)
  counts-below (suc b) h =
      let e : suc b ≡ b + 1 = omega arith in
      ap (λ n. get_or counts n 0) e
      ∙ omega
          (arith, counts_next b (omega arith), counts-below b (omega arith), below_next bkey b rs)
      ∙ ap (λ n. below bkey n rs) (sym e)

  counts-Apart : Apart bkey nb rs counts
  unfolding Apart
  counts-Apart b c lt hi = omega (
    arith,
    counts-below b (omega arith),
    counts-below c (omega arith),
    below_next bkey b rs,
    below_mono bkey (b + 1) c rs (omega arith),
  )

  counts-Fits : Fits bkey nb rs counts (length rs)
  counts-Fits c hi =
      omega (arith, counts-below c (omega arith), below_next bkey c rs, below-≤ bkey (c + 1) rs)

  -- The part of `order` between two counts is the bucket.
  bucket-picks :
      (order : List ℕ) (b : ℕ)
      → length order ≡ length rs
      → b < nb
      → slice
          (scatter bkey rs counts order)
          (get_or counts b 0)
          (get_or counts (b + 1) 0 - get_or counts b 0)
        ≡ picks bkey b rs
  bucket-picks order b size h =
      let out = scatter bkey rs counts order in
      let n : get_or counts (b + 1) 0 - get_or counts b 0 ≡ length (picks bkey b rs) =
        omega (arith, counts_next b h) in
      let wide : nb ≤ length counts =
        omega (arith, length-prefix_sums 0 nb tallies, length-tallies) in
      let fits : Fits bkey nb rs counts (length order) =
        λ c hi. omega (arith, size, counts-Fits c hi) in
      ap (λ n. take n (drop (get_or counts b 0) out)) n
      ∙ part-get out (picks bkey b rs) (get_or counts b 0)
          (omega (arith, length-scatter bkey nb rs counts order, fits b h))
          (λ i lt. scatter-get bkey nb rs counts order b i valid wide counts-Apart fits lt)

-- The merges bucket by bucket.
unfoldable pub grouped {ℓ} :
    {B : Type ℓ} → (ℕ → ℕ → Option B) → (ℕ → List ℕ) → (ℕ → ℕ) → List ℕ → ℕ → ℕ → List B
grouped merge key bkey rs b zero = []
grouped merge key bkey rs b (suc left) =
    merge_groups merge key (length (picks bkey b rs)) (picks bkey b rs)
    ++ grouped merge key bkey rs (b + 1) left

module _ {ℓ} {B : Type ℓ} (merge : ℕ → ℕ → Option B) (key : ℕ → List ℕ) where
  -- A bucket of one row has nothing to merge.
  too_few : (fuel : ℕ) (xs : List ℕ) → length xs < 2 → merge_groups merge key fuel xs ≡ []
  unfolding merge_groups
  too_few zero xs h = refl
  too_few (suc fuel) [] h = refl
  too_few (suc fuel) (x ∷ []) h = refl
  too_few (suc fuel) (x ∷ y ∷ xs) h = absurd (omega arith)

  pub walk-grouped :
      (bkey : ℕ → ℕ) (nb : ℕ) (rs order : List ℕ) (valid : Valid bkey nb rs) (b left : ℕ)
      → length order ≡ length rs
      → b + left ≤ nb
      → walk merge key
          (counts bkey nb rs valid)
          (scatter bkey rs (counts bkey nb rs valid) order)
          b
          left
        ≡ grouped merge key bkey rs b left
  unfolding walk grouped
  walk-grouped bkey nb rs order valid b zero size h = refl
  walk-grouped bkey nb rs order valid b (suc left) size h =
      let cs = counts bkey nb rs valid in
      let out = scatter bkey rs cs order in
      let n = get_or cs (b + 1) 0 - get_or cs b 0 in
      let xs = picks bkey b rs in
      let len : n ≡ length xs = omega (arith, counts_next bkey nb rs valid b (omega arith)) in
      let part = bucket-picks bkey nb rs valid order b size (omega arith) in
      let more = walk-grouped bkey nb rs order valid (b + 1) left size (omega arith) in
      elim (Bool-cases (leb 2 n)) [
        | inl many ↦ rw many (
            ap
              (λ m.
                merge_groups merge key m (slice out (get_or cs b 0) n)
                ++ walk merge key cs out (b + 1) left)
              len
            ∙ ap (λ l. merge_groups merge key (length xs) l ++ walk merge key cs out (b + 1) left)
                part
            ∙ ap (λ l. merge_groups merge key (length xs) xs ++ l) more)
        | inr few ↦ rw few (
            more
            ∙ ap (λ l. l ++ grouped merge key bkey rs (b + 1) left)
                (sym (too_few (length xs) xs (omega (arith, len, leb-false 2 n few)))))
      ]
