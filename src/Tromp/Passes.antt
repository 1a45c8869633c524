-- ===== src/Tromp/Passes.antt =====
-- A pass over the buckets meets pairs of different slots only, and stays in range.
use requihash.Base.{
  ℕ, zero, suc, ◌+◌, ◌%◌, ◌^◌, ◌≤◌, ◌<◌, ◌≡◌, refl, sym, ap, ◌∙◌, inl, inr, leb, leb-≤, leb-false,
  Bool-cases, Option, none, some, List, [], ◌∷◌, length, length-set, length-take, get_or, set, take,
  replicate, All, arith,
}
use requihash.Outcome.{Returns}
use requihash.Indexing.{
  read-get_or, write-set, get_or-set_self, get_or-set_other, get_or-replicate, read-All, IsRow,
}
use requihash.Tromp.{
  Res, HtLayout, Slot, Digit, nbuckets, nslots_max, nrests, xfull, CollisionData, new_collisions,
  clear, addslot, pair_loop, added_pairs, slot_loop, bucket_pass,
}
use requihash.Tromp.Digits.{IsSlot, IsDigit, LayoutFits, getxhash_lt, getnslots-IsDigit}
use native.Mathlib.Decide.{ℕ_discrete}

abbrev entry : List (List ℕ) → ℕ → ℕ → ℕ
entry xhashslots xh c = get_or (get_or xhashslots xh []) c 0

-- The scratch space, when the slots below `s1` have been added.
pub record IsCollisions (s1 : ℕ) (cd : CollisionData) : Type 0 where
  counts : length cd.nxhashslots ≡ nrests
  rows : length cd.xhashslots ≡ nrests
  row : (xh : ℕ) → xh < nrests → length (get_or cd.xhashslots xh []) ≡ xfull
  few : (xh : ℕ) → xh < nrests → get_or cd.nxhashslots xh 0 ≤ s1
  earlier :
      (xh c : ℕ)
      → xh < nrests
      → c < xfull
      → c < get_or cd.nxhashslots xh 0
      → entry cd.xhashslots xh c < s1

-- What the iterator over the earlier slots gives.
abbrev Ready : Option ℕ → List (List ℕ) → ℕ → ℕ → Type 0
Ready none xhashslots xh s1 = Unit
Ready (some n1) xhashslots xh s1 =
    (length xhashslots ≡ nrests)
    × (length (get_or xhashslots xh []) ≡ xfull)
    × (n1 < xfull)
    × ((c : ℕ) → c < n1 → entry xhashslots xh c < s1)

module _ (cd : CollisionData) (s1 xh : ℕ) (h : xh < nrests) (hs : s1 < nslots_max)
    (g : IsCollisions s1 cd) where
  abbrev n1 : ℕ
  n1 = get_or cd.nxhashslots xh 0

  abbrev counted : List ℕ
  counted = set cd.nxhashslots xh (get_or cd.nxhashslots xh 0 + 1)

  counted-le : (x : ℕ) → x < nrests → get_or counted x 0 ≤ suc s1
  counted-le x hx = elim (ℕ_discrete xh x) [
    | yes e ↦
        let new = get_or-set_self cd.nxhashslots xh (n1 + 1) 0 (omega (arith, g.counts)) in
        rw (← e, new) (omega (arith, g.few xh h))
    | no ne ↦ rw (get_or-set_other cd.nxhashslots xh x (n1 + 1) 0 ne) (omega (arith, g.few x hx))
  ]

  -- The slot finds its row full.
  full-IsCollisions : xfull ≤ n1 → IsCollisions (suc s1) (record cd { nxhashslots = counted })
  full-IsCollisions full = record {
    counts = length-set cd.nxhashslots xh (n1 + 1) ∙ g.counts;
    rows = g.rows;
    row = g.row;
    few = counted-le;
    earlier = λ x c hx hc lt. elim (ℕ_discrete xh x) [
      | yes e ↦ let old = g.earlier xh c h hc (omega arith) in rw (← e) (omega arith)
      | no ne ↦
          let lt' = rw (get_or-set_other cd.nxhashslots xh x (n1 + 1) 0 ne) at lt in
          let old = g.earlier x c hx hc lt' in omega arith
    ];
  }

  module _ (room : n1 < xfull) where
    abbrev new_row : List ℕ
    new_row = set (get_or cd.xhashslots xh []) n1 s1

    abbrev new_rows : List (List ℕ)
    new_rows = set cd.xhashslots xh new_row

    in_rows : xh < length cd.xhashslots
    in_rows = omega (arith, g.rows)

    in_row : n1 < length (get_or cd.xhashslots xh [])
    in_row = omega (arith, g.row xh h)

    row_self : get_or new_rows xh [] ≡ new_row
    row_self = get_or-set_self cd.xhashslots xh new_row [] in_rows

    row_size : length (get_or new_rows xh []) ≡ xfull
    row_size = ap length row_self ∙ length-set (get_or cd.xhashslots xh []) n1 s1 ∙ g.row xh h

    -- The places before the new one are as they were.
    older : (c : ℕ) → c < n1 → entry new_rows xh c < s1
    older c hc =
        let apart : n1 ≡ c → ⊥ = λ e. omega arith in
        rw (row_self, get_or-set_other (get_or cd.xhashslots xh []) n1 c s1 0 apart)
          (g.earlier xh c h (omega arith) hc)

    added-IsCollisions :
        IsCollisions (suc s1) (record { nxhashslots = counted; xhashslots = new_rows })
    added-IsCollisions = record {
      counts = length-set cd.nxhashslots xh (n1 + 1) ∙ g.counts;
      rows = length-set cd.xhashslots xh new_row ∙ g.rows;
      row = λ x hx. elim (ℕ_discrete xh x) [
        | yes e ↦ ap (λ y. length (get_or new_rows y [])) (sym e) ∙ row_size
        | no ne ↦ ap length (get_or-set_other cd.xhashslots xh x new_row [] ne) ∙ g.row x hx
      ];
      few = counted-le;
      earlier = λ x c hx hc lt. elim (ℕ_discrete xh x) [
        | no ne ↦
            let lt' = rw (get_or-set_other cd.nxhashslots xh x (n1 + 1) 0 ne) at lt in
            let old = g.earlier x c hx hc lt' in
            rw (get_or-set_other cd.xhashslots xh x new_row [] ne) (omega arith)
        | yes e ↦ rw (← e) (own c hc (rw (← e) at lt))
      ];
    }
      where
        own : (c : ℕ) → c < xfull → c < get_or counted xh 0 → entry new_rows xh c < suc s1
        own c hc lt = elim (ℕ_discrete n1 c) [
          | yes e ↦
              let last = get_or-set_self (get_or cd.xhashslots xh []) n1 s1 0 in_row in
              rw (← e, row_self, last) (omega arith)
          | no ne ↦
              let count = get_or-set_self cd.nxhashslots xh (n1 + 1) 0 (omega (arith, g.counts)) in
              let old = older c (before ne (rw count at lt)) in omega arith
        ]
          where
            before : (n1 ≡ c → ⊥) → c < n1 + 1 → c < n1
            before ne lt = omega arith

  -- Adding a slot returns the number of the earlier slots with its rest, or nothing.
  addslot-IsCollisions :
      Returns
        (λ (added : Option ℕ × CollisionData).
          IsCollisions (suc s1) (added.1) × Ready (added.0) (added.1).xhashslots xh s1)
        (addslot cd s1 xh)
  unfolding addslot
  addslot-IsCollisions =
      let few = g.few xh h in
      let word : (get_or cd.nxhashslots xh 0 + 1) % 2 ^ 16 ≡ get_or cd.nxhashslots xh 0 + 1 =
        omega arith in
      let small : s1 % 2 ^ 16 ≡ s1 = omega arith in
      let in_counts : xh < length cd.nxhashslots = omega (arith, g.counts) in
      rw
        (
          read-get_or {E = Unit {0}} cd.nxhashslots xh 0 in_counts,
          word,
          write-set {E = Unit {0}} cd.nxhashslots xh (get_or cd.nxhashslots xh 0 + 1) in_counts,
          small,
          read-get_or {E = Unit {0}} cd.xhashslots xh [] (omega (arith, g.rows)),
        )
        (elim (Bool-cases (leb xfull (get_or cd.nxhashslots xh 0))) [
          | inl e ↦ rw e (
            (none, record cd { nxhashslots = counted }),
            refl,
            (full-IsCollisions (leb-≤ _ _ e), tt),
          )
          | inr e ↦
              let room = leb-false _ _ e in
              rw
                (
                  e,
                  write-set {E = Unit {0}} (get_or cd.xhashslots xh []) n1 s1 (in_row room),
                  write-set {E = Unit {0}} cd.xhashslots xh (new_row room) (in_rows room),
                )
                (
                  (some n1, record { nxhashslots = counted; xhashslots = new_rows room }),
                  refl,
                  (
                    added-IsCollisions room,
                    (
                      length-set cd.xhashslots xh (new_row room) ∙ g.rows,
                      row_size room,
                      room,
                      older room,
                    ),
                  ),
                )
        ])

-- What a visit of two slots must do: from the second slot on and an earlier one, keep the state good.
abbrev pub Keeps : {S : Type 0} → (S → Type 0) → (ℕ → Slot → ℕ → Slot → S → Res S) → Type 0
Keeps P visit =
    (s0 s1 : ℕ) (p0 p1 : Slot) (st : _)
    → s0 < s1
    → s1 < nslots_max
    → IsSlot p0
    → IsSlot p1
    → P st
    → Returns P (visit s0 p0 s1 p1 st)

module _ {S : Type 0} (P : S → Type 0) (visit : ℕ → Slot → ℕ → Slot → S → Res S)
    (keeps : Keeps P visit) (htl : HtLayout) (fits : LayoutFits htl) (bucket : List Slot)
    (slots : All IsSlot bucket) (few : length bucket ≤ nslots_max) where
  pair_loop-Keeps :
      (xhashslots : List (List ℕ)) (xh s1 n1 : ℕ) (pslot1 : Slot) (n0 left : ℕ) (st : S)
      → xh < nrests
      → s1 < length bucket
      → IsSlot pslot1
      → Ready (some n1) xhashslots xh s1
      → n0 + left ≡ n1
      → P st
      → Returns P (pair_loop visit htl bucket xhashslots xh s1 pslot1 n0 left st)
  unfolding pair_loop
  pair_loop-Keeps xhashslots xh s1 n1 pslot1 n0 zero st hx hs p1 ready e p = (st, refl, p)
  pair_loop-Keeps xhashslots xh s1 n1 pslot1 n0 (suc left) st hx hs p1 ready e p =
      let (rows, row, room, earlier) = ready in
      let s0 : ℕ = entry xhashslots xh n0 in
      let lt : s0 < s1 = earlier n0 (omega arith) in
      let (pslot0, e0, p0) = read-All {E = Unit {0}} IsSlot bucket s0 slots (omega arith) in
      let (next, en, pn) = keeps s0 s1 pslot0 pslot1 st lt (omega arith) p0 p1 p in
      rw
        (
          read-get_or {E = Unit {0}} xhashslots xh [] (omega arith),
          read-get_or {E = Unit {0}} (get_or xhashslots xh []) n0 0 (omega arith),
          e0,
          en,
        )
        (pair_loop-Keeps xhashslots xh s1 n1 pslot1 (n0 + 1) left next hx hs p1 ready (omega arith)
          pn)

  added_pairs-Keeps :
      (added : Option ℕ) (xhashslots : List (List ℕ)) (xh s1 : ℕ) (pslot1 : Slot) (st : S)
      → xh < nrests
      → s1 < length bucket
      → IsSlot pslot1
      → Ready added xhashslots xh s1
      → P st
      → Returns P (added_pairs visit htl bucket added xhashslots xh s1 pslot1 st)
  unfolding added_pairs
  added_pairs-Keeps none xhashslots xh s1 pslot1 st hx hs p1 ready p = (st, refl, p)
  added_pairs-Keeps (some n1) xhashslots xh s1 pslot1 st hx hs p1 ready p =
      pair_loop-Keeps xhashslots xh s1 n1 pslot1 0 n1 st hx hs p1 ready (omega arith) p

  slot_loop-Keeps :
      (s1 left : ℕ) (cd : CollisionData) (st : S)
      → s1 + left ≡ length bucket
      → IsCollisions s1 cd
      → P st
      → Returns
          (λ (done : CollisionData × S). ((s : ℕ) × IsCollisions s (done.0)) × P (done.1))
          (slot_loop visit htl bucket s1 left cd st)
  unfolding slot_loop
  slot_loop-Keeps s1 zero cd st e g p = ((cd, st), refl, ((s1, g), p))
  slot_loop-Keeps s1 (suc left) cd st e g p =
      let (pslot1, e1, p1) = read-All {E = Unit {0}} IsSlot bucket s1 slots (omega arith) in
      let (xh, ex, hx) = getxhash_lt htl pslot1 fits p1 in
      let (added, ea, (g', ready)) = addslot-IsCollisions cd s1 xh hx (omega arith) g in
      let (next, en, pn) =
        added_pairs-Keeps (added.0) (added.1).xhashslots xh s1 pslot1 st hx (omega arith) p1 ready
          p in
      let next_slot : s1 + 1 ≡ suc s1 = omega arith in
      rw (e1, ex, ea, en, next_slot)
        (slot_loop-Keeps (suc s1) left (added.1) next (omega arith) g' pn)

-- The rows of the scratch space are not cleared, but none of their entries counts.
clear-IsCollisions : (s : ℕ) (cd : CollisionData) → IsCollisions s cd → IsCollisions 0 (clear cd)
unfolding clear
clear-IsCollisions s cd g = record {
  counts = refl;
  rows = g.rows;
  row = g.row;
  few = λ xh h. rw (get_or-replicate {A = ℕ} nrests xh 0 0 h) (omega arith);
  earlier = λ xh c h hc lt. absurd (omega (arith, get_or-replicate {A = ℕ} nrests xh 0 0 h));
}

pub new_collisions-IsCollisions : IsCollisions 0 new_collisions
unfolding new_collisions
new_collisions-IsCollisions = record {
  counts = refl;
  rows = refl;
  row = λ xh h. ap length (get_or-replicate nrests xh (replicate xfull 0) [] h);
  few = λ xh h. rw (get_or-replicate {A = ℕ} nrests xh 0 0 h) (omega arith);
  earlier = λ xh c h hc lt. absurd (omega (arith, get_or-replicate {A = ℕ} nrests xh 0 0 h));
}

take-All : (n : ℕ) (v : List Slot) → All IsSlot v → All IsSlot (take n v)
take-All zero v h = tt
take-All (suc n) [] h = tt
take-All (suc n) (x ∷ v) h = (h.0, take-All n v h.1)

-- A pass keeps what every visit keeps, and its source stays well formed.
pub bucket_pass-Keeps :
    {S : Type 0} (P : S → Type 0) (visit : ℕ → ℕ → Slot → ℕ → Slot → S → Res S)
    → ((bucketid : ℕ) → bucketid < nbuckets → Keeps P (visit bucketid))
    → (htl : HtLayout) → LayoutFits htl
    → (bucketid left : ℕ) (s : ℕ) (cd : CollisionData) (src : Digit) (st : S)
    → bucketid + left ≤ nbuckets
    → IsCollisions s cd
    → IsDigit src
    → P st
    → Returns
        (λ (done : Digit × S). IsDigit (done.0) × P (done.1))
        (bucket_pass visit htl bucketid left cd src st)
unfolding bucket_pass
bucket_pass-Keeps P visit keeps htl fits bucketid zero s cd src st h g d p =
    ((src, st), refl, (d, p))
bucket_pass-Keeps P visit keeps htl fits bucketid (suc left) s cd src st h g d p =
    let (taken, et, (few, d')) = getnslots-IsDigit src bucketid d (omega arith) in
    let (row, er, (len, all)) =
      read-All {E = Unit {0}} (IsRow IsSlot nslots_max) (taken.1).slots bucketid d'.slots
        (omega (arith, d'.rows)) in
    let size : length (take (taken.0) row) ≡ taken.0 = omega (arith, length-take (taken.0) row) in
    let (done, es, ((s', g'), p')) =
      slot_loop-Keeps P (visit bucketid) (keeps bucketid (omega arith)) htl fits
        (take (taken.0) row) (take-All (taken.0) row all) (omega arith) 0 (taken.0) (clear cd) st
        (omega arith) (clear-IsCollisions s cd g) p in
    rw (et, er, es)
      (bucket_pass-Keeps P visit keeps htl fits (bucketid + 1) left s' (done.0) (taken.1) (done.1)
        (omega arith) g' d' p')
