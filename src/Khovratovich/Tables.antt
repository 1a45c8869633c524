-- ===== src/Khovratovich/Tables.antt =====
-- Tables of buckets: what they look like, and what a bucket's tuples satisfy.
use requihash.Base.{
  ℕ, ◌+◌, ◌≤◌, ◌<◌, ◌≡◌, ◌≢◌, refl, sym, ap, ◌∙◌, List, [], length, length-set, get_or, set,
  replicate, length-replicate, arith,
}
use requihash.Outcome.{Outcome, Returns}
use requihash.Indexing.{
  update_at, read-get_or, write-set, get_or-set_self, get_or-set_other, get_or-replicate,
}
use requihash.Khovratovich.{Tuple, Refusal, new_tuple, list_length}
use native.Mathlib.Decide.{ℕ_discrete}

abbrev pub no_tuple : Tuple
no_tuple = record { blocks = []; reference = 0 }

abbrev pub tuple_at : List (List Tuple) → ℕ → ℕ → Tuple
tuple_at list i c = get_or (get_or list i []) c no_tuple

-- A write to one place of a table.
abbrev pub put : List (List Tuple) → ℕ → ℕ → Tuple → List (List Tuple)
put list i c t = set list i (set (get_or list i []) c t)

module _ (size blocks : ℕ) where
  -- `size` buckets of `list_length` tuples with `blocks` blocks each, and as many counts.
  pub record Shape (list : List (List Tuple)) (filled : List ℕ) : Type 0 where
    pub rows : length list ≡ size
    pub counts : length filled ≡ size
    pub row : (i : ℕ) → i < size → length (get_or list i []) ≡ list_length
    pub sized : (i c : ℕ) → i < size → c < list_length → length (tuple_at list i c).blocks ≡ blocks
    pub cap : (i : ℕ) → i < size → get_or filled i 0 ≤ list_length

  -- An update in range returns, if the change does.
  pub update_at-put {ι} :
      {Q : Tuple → Type ι} (list : List (List Tuple)) (filled : List ℕ) (i c : ℕ)
      (change : Tuple → Outcome Refusal Tuple)
      → Shape list filled
      → i < size
      → c < list_length
      → Returns Q (change (tuple_at list i c))
      → Returns (λ list'. (t : Tuple) × Q t × (list' ≡ put list i c t)) (update_at list i c change)
  update_at-put list filled i c change s hi hc (t, e, q) =
      let in_rows : i < length list = omega (arith, s.rows) in
      let in_row : c < length (get_or list i []) = omega (arith, s.row i hi) in
      (
        put list i c t,
        rw (
          read-get_or {E = Refusal} list i [] in_rows,
          read-get_or {E = Refusal} (get_or list i []) c no_tuple in_row,
          e,
          write-set {E = Refusal} (get_or list i []) c t in_row,
          write-set {E = Refusal} list i (set (get_or list i []) c t) in_rows,
        ),
        (t, q, refl),
      )

  -- The places of the written table.
  module _ (list : List (List Tuple)) (filled : List ℕ) (i c : ℕ) (t : Tuple)
      (s : Shape list filled) (hi : i < size) (hc : c < list_length) where
    row_of : get_or (put list i c t) i [] ≡ set (get_or list i []) c t
    row_of = get_or-set_self list i (set (get_or list i []) c t) [] (omega (arith, s.rows))

    pub put_self : tuple_at (put list i c t) i c ≡ t
    put_self =
        ap (λ row. get_or row c no_tuple) row_of
        ∙ get_or-set_self (get_or list i []) c t no_tuple (omega (arith, s.row i hi))

    pub put_beside : (c' : ℕ) → c ≢ c' → tuple_at (put list i c t) i c' ≡ tuple_at list i c'
    put_beside c' h =
        ap (λ row. get_or row c' no_tuple) row_of
        ∙ get_or-set_other (get_or list i []) c c' t no_tuple h

    pub put_elsewhere : (i' c' : ℕ) → i ≢ i' → tuple_at (put list i c t) i' c' ≡ tuple_at list i' c'
    put_elsewhere i' c' h =
        ap (λ row. get_or row c' no_tuple)
          (get_or-set_other list i i' (set (get_or list i []) c t) [] h)

    pub put-Shape : length t.blocks ≡ blocks → Shape (put list i c t) (set filled i (c + 1))
    put-Shape sized = record {
      rows = length-set list i (set (get_or list i []) c t) ∙ s.rows;
      counts = length-set filled i (c + 1) ∙ s.counts;
      row = row';
      sized = sized';
      cap = cap';
    }
      where
        row' : (i' : ℕ) → i' < size → length (get_or (put list i c t) i' []) ≡ list_length
        row' i' h = elim (ℕ_discrete i i') [
          | yes e ↦
              ap (λ j. length (get_or (put list i c t) j [])) (sym e)
              ∙ ap length row_of
              ∙ length-set (get_or list i []) c t
              ∙ s.row i hi
          | no ne ↦
              ap length (get_or-set_other list i i' (set (get_or list i []) c t) [] ne) ∙ s.row i' h
        ]

        sized' :
            (i' c' : ℕ)
            → i' < size
            → c' < list_length
            → length (tuple_at (put list i c t) i' c').blocks ≡ blocks
        sized' i' c' h g = elim (ℕ_discrete i i') [
          | no ne ↦ ap (λ (u : Tuple). length u.blocks) (put_elsewhere i' c' ne) ∙ s.sized i' c' h g
          | yes e ↦
              ap (λ j. length (tuple_at (put list i c t) j c').blocks) (sym e)
              ∙ elim (ℕ_discrete c c') [
                | yes f ↦
                    ap (λ j. length (tuple_at (put list i c t) i j).blocks) (sym f)
                    ∙ ap (λ (u : Tuple). length u.blocks) put_self
                    ∙ sized
                | no nf ↦ ap (λ (u : Tuple). length u.blocks) (put_beside c' nf) ∙ s.sized i c' hi g
              ]
        ]

        cap' : (i' : ℕ) → i' < size → get_or (set filled i (c + 1)) i' 0 ≤ list_length
        cap' i' h = elim (ℕ_discrete i i') [
          | yes e ↦
              let here = get_or-set_self filled i (c + 1) 0 (omega (arith, s.counts)) in
              rw (← e, here) (omega arith)
          | no ne ↦ rw (get_or-set_other filled i i' (c + 1) 0 ne) (s.cap i' h)
        ]

  -- Every tuple that a bucket counts satisfies `P` at the bucket's number.
  abbrev pub Contents {ι} : (ℕ → Tuple → Type ι) → List (List Tuple) → List ℕ → Type ι
  Contents P list filled = (i c : ℕ) → i < size → c < get_or filled i 0 → P i (tuple_at list i c)

  -- A tuple is added at the end of its bucket.
  pub put-Contents {ι} :
      (P : ℕ → Tuple → Type ι) (list : List (List Tuple)) (filled : List ℕ) (i c : ℕ) (t : Tuple)
      → Shape list filled
      → i < size
      → c < list_length
      → get_or filled i 0 ≡ c
      → Contents P list filled
      → P i t
      → Contents P (put list i c t) (set filled i (c + 1))
  put-Contents P list filled i c t s hi hc at_end all p i' c' h g = elim (ℕ_discrete i i') [
    | no ne ↦
        rw (put_elsewhere list filled i c t s hi hc i' c' ne)
          (all i' c' h (rw (get_or-set_other filled i i' (c + 1) 0 ne) at g))
    | yes e ↦ in_bucket e (ℕ_discrete c c')
  ]
    where
      in_bucket : i ≡ i' → Dec (c ≡ c') → P i' (tuple_at (put list i c t) i' c')
      in_bucket e (yes f) = rw (← e, ← f, put_self list filled i c t s hi hc) p
      in_bucket e (no nf) =
          let count = get_or-set_self filled i (c + 1) 0 (omega (arith, s.counts)) in
          let old : c' < get_or filled i 0 =
            omega (arith, ap (λ j. get_or (set filled i (c + 1)) j 0) e) in
          rw (← e, put_beside list filled i c t s hi hc c' nf) (all i c' hi old)

  pub empty-Shape :
      Shape (replicate size (replicate list_length (new_tuple blocks))) (replicate size 0)
  unfolding new_tuple
  empty-Shape = record {
    rows = length-replicate size (replicate list_length (new_tuple blocks));
    counts = length-replicate {A = ℕ} size 0;
    row =
        λ i h. ap length (get_or-replicate size i (replicate list_length (new_tuple blocks)) [] h);
    sized = λ i c h g.
        ap (λ row. length (get_or row c no_tuple).blocks)
          (get_or-replicate size i (replicate list_length (new_tuple blocks)) [] h)
        ∙ ap (λ (u : Tuple). length u.blocks)
            (get_or-replicate list_length c (new_tuple blocks) no_tuple g)
        ∙ length-replicate {A = ℕ} blocks 0;
    cap = λ i h. rw (get_or-replicate {A = ℕ} size i 0 0 h) (omega arith);
  }

  pub empty-Contents {ι} :
      (P : ℕ → Tuple → Type ι) (list : List (List Tuple)) → Contents P list (replicate size 0)
  empty-Contents P list i c h g = absurd (omega (arith, get_or-replicate {A = ℕ} size i 0 0 h))
