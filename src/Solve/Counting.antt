-- ===== src/Solve/Counting.antt =====
-- The counting sort of Req/rust/src/solve/bucket.rs puts the rows of each bucket behind one another, in
-- their order.
use requihash.Base.{
  ℕ, zero, suc, ◌+◌, ◌≤◌, ◌<◌, ◌≡◌, ◌≢◌, refl, sym, ap, ◌∙◌, false, ◌==◌, ==_refl, if◌then◌else◌,
  List, [], ◌∷◌, length, length-set, get_or, set, All, arith,
}
use requihash.Solve.Bucket.{count_rows, prefix_sums, scatter}
use mathlib.Core.Path.{subst}
use native.Mathlib.Decide.{dec_lt, ℕ_discrete}

get_or-set : (xs : List ℕ) (i v : ℕ) → i < length xs → get_or (set xs i v) i 0 ≡ v
get_or-set [] i v h = absurd (omega arith)
get_or-set (x ∷ xs) zero v h = refl
get_or-set (x ∷ xs) (suc i) v h = get_or-set xs i v (omega arith)

get_or-set_other : (xs : List ℕ) (i j v : ℕ) → i ≢ j → get_or (set xs i v) j 0 ≡ get_or xs j 0
get_or-set_other [] i j v ne = refl
get_or-set_other (x ∷ xs) zero zero v ne = absurd (ne refl)
get_or-set_other (x ∷ xs) zero (suc j) v ne = refl
get_or-set_other (x ∷ xs) (suc i) zero v ne = refl
get_or-set_other (x ∷ xs) (suc i) (suc j) v ne = get_or-set_other xs i j v (λ e. ne (ap suc e))

module _ (bkey : ℕ → ℕ) where
  -- The rows of a bucket.
  unfoldable pub picks : ℕ → List ℕ → List ℕ
  picks b [] = []
  picks b (r ∷ rs) = if bkey r == b then r ∷ picks b rs else picks b rs

  pub picks_here : (r : ℕ) (rs : List ℕ) → picks (bkey r) (r ∷ rs) ≡ r ∷ picks (bkey r) rs
  unfolding picks
  picks_here r rs = rw (==_refl (bkey r))

  pub picks_other : (b r : ℕ) (rs : List ℕ) → bkey r ≢ b → picks b (r ∷ rs) ≡ picks b rs
  unfolding picks
  picks_other b r rs ne = rw (differs (bkey r) b ne)
    where
      differs : (x y : ℕ) → x ≢ y → (x == y) ≡ false
      differs x y ne = ground arith

  pub length-count_rows : (rs counts : List ℕ) → length (count_rows bkey rs counts) ≡ length counts
  unfolding count_rows
  length-count_rows [] counts = refl
  length-count_rows (r ∷ rs) counts = length-count_rows rs _ ∙ length-set counts (bkey r + 1) _

  -- A bucket's count stands one place on.
  pub count_rows-get :
      (rs counts : List ℕ) (b : ℕ)
      → b + 1 < length counts
      → get_or (count_rows bkey rs counts) (b + 1) 0 ≡ get_or counts (b + 1) 0 + length (picks b rs)
  unfolding count_rows picks
  count_rows-get [] counts b h = omega arith
  count_rows-get (r ∷ rs) counts b h =
      let v = get_or counts (bkey r + 1) 0 + 1 in
      let more =
        count_rows-get rs (set counts (bkey r + 1) v) b
          (omega (arith, length-set counts (bkey r + 1) v)) in
      elim (ℕ_discrete (bkey r) b) [
        | yes e ↦
            let at = get_or-set counts (b + 1) (get_or counts (b + 1) 0 + 1) h in
            more ∙ rw (e, ==_refl b, at) (omega arith)
        | no ne ↦
            more
            ∙ ap (λ t. t + length (picks b rs))
                (get_or-set_other counts (bkey r + 1) (b + 1) v (λ e. ne (omega arith)))
            ∙ ap (λ (l : List ℕ). get_or counts (b + 1) 0 + length l) (sym (picks_other b r rs ne))
      ]

  pub count_rows_zero :
      (rs counts : List ℕ) → get_or (count_rows bkey rs counts) 0 0 ≡ get_or counts 0 0
  unfolding count_rows
  count_rows_zero [] counts = refl
  count_rows_zero (r ∷ rs) counts =
      count_rows_zero rs _ ∙ get_or-set_other counts (bkey r + 1) 0 _ (λ e. omega arith)

pub length-prefix_sums :
    (b left : ℕ) (counts : List ℕ) → length (prefix_sums b left counts) ≡ length counts
unfolding prefix_sums
length-prefix_sums b zero counts = refl
length-prefix_sums b (suc left) counts =
    length-prefix_sums (b + 1) left _ ∙ length-set counts (b + 1) _

-- The sums leave what stands before them.
pub prefix_sums_before :
    (b left j : ℕ) (counts : List ℕ)
    → j ≤ b
    → get_or (prefix_sums b left counts) j 0 ≡ get_or counts j 0
unfolding prefix_sums
prefix_sums_before b zero j counts h = refl
prefix_sums_before b (suc left) j counts h =
    prefix_sums_before (b + 1) left j _ (omega arith)
    ∙ get_or-set_other counts (b + 1) j _ (λ e. omega arith)

prefix_sums_first :
    (b left : ℕ) (counts : List ℕ)
    → b + 1 < length counts
    → get_or
        (prefix_sums
          (b + 1)
          left
          (set counts (b + 1) (get_or counts (b + 1) 0 + get_or counts b 0)))
        (b + 1)
        0
      ≡ get_or counts (b + 1) 0
        + get_or
            (prefix_sums
              (b + 1)
              left
              (set counts (b + 1) (get_or counts (b + 1) 0 + get_or counts b 0)))
            b
            0
prefix_sums_first b left counts fits =
    let v = get_or counts (b + 1) 0 + get_or counts b 0 in
    let next = set counts (b + 1) v in
    rw (
      prefix_sums_before (b + 1) left (b + 1) next (omega arith),
      prefix_sums_before (b + 1) left b next (omega arith),
      get_or-set counts (b + 1) v fits,
      get_or-set_other counts (b + 1) b v (λ e. omega arith),
    )

-- Each place holds its count and the sum before it.
pub prefix_sums-get :
    (b left j : ℕ) (counts : List ℕ)
    → b ≤ j
    → j < b + left
    → j + 1 < length counts
    → get_or (prefix_sums b left counts) (j + 1) 0
      ≡ get_or counts (j + 1) 0 + get_or (prefix_sums b left counts) j 0
unfolding prefix_sums
prefix_sums-get b zero j counts lo hi fits = absurd (omega arith)
prefix_sums-get b (suc left) j counts lo hi fits =
    let v = get_or counts (b + 1) 0 + get_or counts b 0 in
    let next = set counts (b + 1) v in
    elim (ℕ_discrete b j) [
      | yes e ↦
          let sums = prefix_sums (b + 1) left next in
          subst (λ j. get_or sums (j + 1) 0 ≡ get_or counts (j + 1) 0 + get_or sums j 0) e
            (prefix_sums_first b left counts (omega (arith, fits, e)))
      | no ne ↦
          prefix_sums-get (b + 1) left j next (omega arith) (omega arith)
            (omega (arith, length-set counts (b + 1) v))
          ∙ ap (λ t. t + get_or (prefix_sums (b + 1) left next) j 0)
              (get_or-set_other counts (b + 1) (j + 1) v (λ e. ne (omega arith)))
    ]

module _ (bkey : ℕ → ℕ) (nb : ℕ) where
  -- Where the rows that are left will go: the buckets do not overlap.
  unfoldable pub Apart : List ℕ → List ℕ → Type 0
  Apart rs cursor =
      (b c : ℕ) → b < c → c < nb → get_or cursor b 0 + length (picks bkey b rs) ≤ get_or cursor c 0

  unfoldable pub Outside : List ℕ → List ℕ → ℕ → Type 0
  Outside rs cursor p =
      (b : ℕ)
      → b < nb
      → get_or cursor b 0 ≤ p
      → p < get_or cursor b 0 + length (picks bkey b rs)
      → ⊥

  pub length-scatter :
      (rs cursor order : List ℕ) → length (scatter bkey rs cursor order) ≡ length order
  unfolding scatter
  length-scatter [] cursor order = refl
  length-scatter (r ∷ rs) cursor order =
      length-scatter rs _ _ ∙ length-set order (get_or cursor (bkey r) 0) r

  no_picks : (b i : ℕ) → i < length (picks bkey b []) → ⊥
  unfolding picks
  no_picks b i lt = omega arith

  -- What a step does to the cursors.
  module _ (r : ℕ) (rs cursor : List ℕ) (valid : bkey r < nb) (wide : nb ≤ length cursor) where
    abbrev moved : List ℕ
    moved = set cursor (bkey r) (get_or cursor (bkey r) 0 + 1)

    moved_here : get_or moved (bkey r) 0 ≡ get_or cursor (bkey r) 0 + 1
    moved_here = get_or-set cursor (bkey r) _ (omega arith)

    moved_other : (b : ℕ) → bkey r ≢ b → get_or moved b 0 ≡ get_or cursor b 0
    moved_other b ne = get_or-set_other cursor (bkey r) b _ ne

    count_here : length (picks bkey (bkey r) (r ∷ rs)) ≡ suc (length (picks bkey (bkey r) rs))
    count_here = ap (λ (l : List ℕ). length l) (picks_here bkey r rs)

    count_other : (b : ℕ) → bkey r ≢ b → length (picks bkey b (r ∷ rs)) ≡ length (picks bkey b rs)
    count_other b ne = ap (λ (l : List ℕ). length l) (picks_other bkey b r rs ne)

    -- The end of a bucket stays, and its cursor does not go back.
    same_end :
        (b : ℕ)
        → (get_or moved b 0 + length (picks bkey b rs)
            ≡ get_or cursor b 0 + length (picks bkey b (r ∷ rs)))
          × (get_or cursor b 0 ≤ get_or moved b 0)
    same_end b = elim (ℕ_discrete (bkey r) b) [
      | yes e ↦ at_key b e
      | no ne ↦ (omega (arith, moved_other b ne, count_other b ne), omega (arith, moved_other b ne))
    ]
      where
        at_key :
            (b : ℕ)
            → bkey r ≡ b
            → (get_or moved b 0 + length (picks bkey b rs)
                ≡ get_or cursor b 0 + length (picks bkey b (r ∷ rs)))
              × (get_or cursor b 0 ≤ get_or moved b 0)
        at_key b e =
            subst
              (λ b.
                (get_or moved b 0 + length (picks bkey b rs)
                  ≡ get_or cursor b 0 + length (picks bkey b (r ∷ rs)))
                × (get_or cursor b 0 ≤ get_or moved b 0))
              e (omega (arith, moved_here, count_here), omega (arith, moved_here))

    Apart-moved : Apart (r ∷ rs) cursor → Apart rs moved
    unfolding Apart
    Apart-moved apart b c lt hi = omega (arith, apart b c lt hi, same_end b, same_end c)

    -- The place that is written is behind no other bucket's part.
    written_Outside : Apart (r ∷ rs) cursor → Outside rs moved (get_or cursor (bkey r) 0)
    unfolding Apart Outside
    written_Outside apart b hi lo up = elim (dec_lt b (bkey r)) [
      | yes lt ↦ omega (arith, apart b (bkey r) lt valid, same_end b, up)
      | no ge ↦ elim (dec_lt (bkey r) b) [
        | yes lt ↦ omega (arith, apart (bkey r) b lt hi, same_end b, lo, count_here)
        | no le ↦
            let e : bkey r ≡ b = omega arith in
            let lo' : get_or moved (bkey r) 0 ≤ get_or cursor (bkey r) 0 =
              subst (λ b. get_or moved b 0 ≤ get_or cursor (bkey r) 0) (sym e) lo in
            omega (arith, lo', moved_here)
      ]
    ]

    Outside-moved : (p : ℕ) → Outside (r ∷ rs) cursor p → Outside rs moved p
    unfolding Outside
    Outside-moved p out b hi lo up =
        out b hi (omega (arith, same_end b, lo)) (omega (arith, same_end b, up))

    Outside-written : (p : ℕ) → Outside (r ∷ rs) cursor p → get_or cursor (bkey r) 0 ≢ p
    unfolding Outside
    Outside-written p out e = out (bkey r) valid (omega (arith, e)) (omega (arith, e, count_here))

  abbrev pub Valid : List ℕ → Type 0
  Valid rs = All (λ r. bkey r < nb) rs

  -- Nothing else is written.
  scatter-Outside :
      (rs cursor order : List ℕ) (p : ℕ)
      → Valid rs
      → nb ≤ length cursor
      → Outside rs cursor p
      → get_or (scatter bkey rs cursor order) p 0 ≡ get_or order p 0
  unfolding scatter
  scatter-Outside [] cursor order p v wide out = refl
  scatter-Outside (r ∷ rs) cursor order p (v, vs) wide out =
      scatter-Outside rs _ _ p vs
        (omega (arith, length-set cursor (bkey r) (get_or cursor (bkey r) 0 + 1)))
        (Outside-moved r rs cursor v wide p out)
      ∙ get_or-set_other order (get_or cursor (bkey r) 0) p r
          (Outside-written r rs cursor v wide p out)

  abbrev pub Fits : List ℕ → List ℕ → ℕ → Type 0
  Fits rs cursor size = (c : ℕ) → c < nb → get_or cursor c 0 + length (picks bkey c rs) ≤ size

  module _ (r : ℕ) (rs cursor order : List ℕ) (v : bkey r < nb) (vs : Valid rs)
      (wide : nb ≤ length cursor) (apart : Apart (r ∷ rs) cursor)
      (fits : Fits (r ∷ rs) cursor (length order)) where
    abbrev place : ℕ
    place = get_or cursor (bkey r) 0

    abbrev next : List ℕ
    next = moved r rs cursor v wide

    abbrev result : List ℕ
    result = scatter bkey rs next (set order place r)

    wide_next : nb ≤ length next
    wide_next = omega (arith, wide, length-set cursor (bkey r) (place + 1))

    Fits-next : Fits rs next (length (set order place r))
    Fits-next c hi =
        omega (arith, fits c hi, same_end r rs cursor v wide c, length-set order place r)

    -- The rows of the bucket that `r` goes to.
    result_here :
        (i : ℕ)
        → i < length (picks bkey (bkey r) (r ∷ rs))
        → ((j : ℕ)
            → j < length (picks bkey (bkey r) rs)
            → get_or result (get_or next (bkey r) 0 + j) 0 ≡ get_or (picks bkey (bkey r) rs) j 0)
        → get_or result (place + i) 0 ≡ get_or (picks bkey (bkey r) (r ∷ rs)) i 0
    result_here zero lt more =
        ap (λ n. get_or result n 0) {x = place + 0} {y = place} (omega arith)
        ∙ scatter-Outside rs next (set order place r) place vs wide_next
            (written_Outside r rs cursor v wide apart)
        ∙ get_or-set order place r (omega (arith, fits (bkey r) v, count_here r rs cursor v wide))
        ∙ ap (λ l. get_or l 0 0) (sym (picks_here bkey r rs))
    result_here (suc j) lt more =
        ap (λ n. get_or result n 0) {x = place + suc j} {y = get_or next (bkey r) 0 + j}
          (omega (arith, moved_here r rs cursor v wide))
        ∙ more j (omega (arith, lt, count_here r rs cursor v wide))
        ∙ ap (λ l. get_or l (suc j) 0) (sym (picks_here bkey r rs))

  -- Each row of a bucket goes to its place.
  pub scatter-get :
      (rs cursor order : List ℕ) (b i : ℕ)
      → Valid rs
      → nb ≤ length cursor
      → Apart rs cursor
      → Fits rs cursor (length order)
      → i < length (picks bkey b rs)
      → get_or (scatter bkey rs cursor order) (get_or cursor b 0 + i) 0
        ≡ get_or (picks bkey b rs) i 0
  unfolding scatter
  scatter-get [] cursor order b i v wide apart fits lt = absurd (no_picks b i lt)
  scatter-get (r ∷ rs) cursor order b i (v, vs) wide apart fits lt =
      let p = get_or cursor (bkey r) 0 in
      let cursor' = moved r rs cursor v wide in
      let wide' : nb ≤ length cursor' = omega (arith, length-set cursor (bkey r) (p + 1)) in
      let apart' = Apart-moved r rs cursor v wide apart in
      let fits' = Fits-next r rs cursor order v vs wide apart fits in
      let out = scatter bkey rs cursor' (set order p r) in
      elim (ℕ_discrete (bkey r) b) [
        | yes e ↦
            subst (λ b. get_or out (get_or cursor b 0 + i) 0 ≡ get_or (picks bkey b (r ∷ rs)) i 0) e
              (result_here r rs cursor order v vs wide apart fits i
                (subst (λ b. i < length (picks bkey b (r ∷ rs))) (sym e) lt)
                (λ j h. scatter-get rs cursor' (set order p r) (bkey r) j vs wide' apart' fits' h))
        | no ne ↦
            ap (λ n. get_or out (n + i) 0) (sym (moved_other r rs cursor v wide b ne))
            ∙ scatter-get rs cursor' (set order p r) b i vs wide' apart' fits'
                (omega (arith, lt, count_other r rs cursor v wide b ne))
            ∙ ap (λ l. get_or l i 0) (sym (picks_other bkey b r rs ne))
      ]
