-- ===== src/Tromp/Pairs.antt =====
-- What `digitodd` and `digiteven` make of two slots of one rest.
use requihash.Base.{
  ℕ, zero, suc, ◌+◌, ◌-◌, ◌%◌, ◌^◌, ◌≤◌, ◌<◌, bit_xor, ◌≡◌, refl, sym, ◌∙◌, inl, inr, false, leb,
  leb-≤, leb-false, ◌==◌, ==_iff, Bool-cases, List, [], get_or, set, length-set, arith,
}
use requihash.Outcome.{Outcome, ok}
use requihash.Indexing.{
  update_at, update_at-set, read-get_or, write-set, get_or-All, get_or-set_self, get_or-set_other,
  IsRow,
}
use requihash.Tromp.{
  HtLayout, Slot, hash_bytes, default_slot, Digit, nbuckets, nslots_max, getslot, htlayout_equal,
  tree_from_bid, xor_bucket, xor_words, store_xor,
}
use requihash.Tromp.Attributes.{tree_round_trip}
use requihash.Tromp.Digits.{
  IsSlot, IsDigit, LayoutFits, hash_bytes-bytes, xor_bucket_lt, store_xor-IsDigit,
}
use mathlib.Core.Path.{subst}

abbrev pub word : Slot → ℕ → ℕ
word slot i = get_or slot.hash i 0

-- The words from `i` on, `left` of them, are the exclusive or of those of the two slots, `dunits`
-- places to the left.
abbrev pub Words : Slot → Slot → ℕ → ℕ → ℕ → Slot → Type 0
Words a b dunits i left out =
    (q : ℕ) → i ≤ q → q < i + left → word out (q - dunits) ≡ bit_xor (word a q) (word b q)

xor_words-Words :
    (a b : Slot) (dunits i left : ℕ) (xs : Slot)
    → dunits ≤ i
    → i + left ≤ 4
    → IsSlot a
    → IsSlot b
    → IsSlot xs
    → (out : Slot) × (xor_words a b dunits i left xs ≡ ok out)
      × (out.attr ≡ xs.attr)
      × Words a b dunits i left out
      × ((q : ℕ) → q < i - dunits → word out q ≡ word xs q)
unfolding xor_words
xor_words-Words a b dunits i zero xs lo hi ha hb hx =
    (xs, refl, refl, λ q l u. absurd (omega arith), λ q l. refl)
xor_words-Words a b dunits i (suc left) xs lo hi ha hb hx =
    let new : ℕ = bit_xor (word a i) (word b i) in
    let (out, e, attr, words, before) =
      xor_words-Words a b dunits (i + 1) left (record xs { hash = set xs.hash (i - dunits) new })
        (omega arith) (omega arith) ha hb (length-set xs.hash (i - dunits) new ∙ hx.0, hx.1) in
    rw
      (
        read-get_or {E = Unit {0}} a.hash i 0 (omega (arith, ha.0)),
        read-get_or {E = Unit {0}} b.hash i 0 (omega (arith, hb.0)),
        write-set {E = Unit {0}} xs.hash (i - dunits) new (omega (arith, hx.0)),
      )
      (
        out,
        e,
        attr,
        λ q l u. elim (Bool-cases (q == i)) [
          | inl same ↦
              let here : q ≡ i = (==_iff q i).0 same in
              subst (λ t. word out (t - dunits) ≡ bit_xor (word a t) (word b t)) (sym here)
                (before (i - dunits) (omega arith)
                  ∙ get_or-set_self xs.hash (i - dunits) new 0 (omega (arith, hx.0)))
          | inr other ↦ words q (ground arith) (omega arith)
        ],
        λ q l.
            before q (omega arith)
            ∙ get_or-set_other xs.hash (i - dunits) q new 0 (λ same. omega arith),
      )

-- The slot in which the pair is stored: the reference to the pair, and the exclusive or of the words
-- from `dunits` on.
pub record IsXor (htl : HtLayout) (bucketid s0 : ℕ) (pslot0 : Slot) (s1 : ℕ) (pslot1 slot : Slot)
    : Type 0 where
  pub reference : slot.attr ≡ tree_from_bid bucketid s0 s1
  pub words :
      (q : ℕ)
      → htl.dunits ≤ q
      → q < htl.prevhashunits
      → word slot (q - htl.dunits) ≡ bit_xor (word pslot0 q) (word pslot1 q)

-- A pair that differs: its bucket's count goes up, and if the bucket had room, the slot at the old count
-- is the pair's; no other slot changes.
pub record Claimed (htl : HtLayout) (bucketid s0 : ℕ) (pslot0 : Slot) (s1 : ℕ) (pslot1 : Slot)
    (dst next : Digit) : Type 0 where
  pub bucket : ℕ
  pub found : xor_bucket (hash_bytes pslot0) (hash_bytes pslot1) htl.prevbo ≡ ok bucket
  pub in_range : bucket < nbuckets
  pub counted : next.nslots ≡ set dst.nslots bucket ((get_or dst.nslots bucket 0 + 1) % 2 ^ 32)
  pub full : nslots_max ≤ get_or dst.nslots bucket 0 → next.slots ≡ dst.slots
  pub room :
      get_or dst.nslots bucket 0 < nslots_max
      → (slot : Slot) × IsXor htl bucketid s0 pslot0 s1 pslot1 slot
        × (next.slots
            ≡ set dst.slots bucket
                (set (get_or dst.slots bucket []) (get_or dst.nslots bucket 0) slot))

abbrev last_word : HtLayout → Slot → ℕ
last_word htl slot = word slot (htl.prevhashunits - 1)

abbrev pub SameEnd : HtLayout → Slot → Slot → Type 0
SameEnd htl a b = word a (htl.prevhashunits - 1) ≡ word b (htl.prevhashunits - 1)

module _ (htl : HtLayout) (bucketid s0 : ℕ) (pslot0 : Slot) (s1 : ℕ) (pslot1 : Slot) (dst : Digit)
    (fits : LayoutFits htl) (p0 : IsSlot pslot0) (p1 : IsSlot pslot1) (d : IsDigit dst) where
  htlayout_equal-words :
      htlayout_equal htl pslot0 pslot1 ≡ ok (last_word htl pslot0 == last_word htl pslot1)
  unfolding htlayout_equal
  htlayout_equal-words =
      let some = fits.some_units in
      let few = fits.few_units in
      rw (
        read-get_or {E = Unit {0}} pslot0.hash (htl.prevhashunits - 1) 0 (omega (arith, p0.0)),
        read-get_or {E = Unit {0}} pslot1.hash (htl.prevhashunits - 1) 0 (omega (arith, p1.0)),
      )

  abbrev counts : ℕ → List ℕ
  counts b = set dst.nslots b ((get_or dst.nslots b 0 + 1) % 2 ^ 32)

  getslot-count :
      (b : ℕ)
      → b < nbuckets
      → getslot dst b ≡ ok (get_or dst.nslots b 0, record dst { nslots = counts b })
  unfolding getslot
  getslot-count b hb = rw (
    read-get_or {E = Unit {0}} dst.nslots b 0 (omega (arith, d.counts)),
    write-set {E = Unit {0}} dst.nslots b ((get_or dst.nslots b 0 + 1) % 2 ^ 32)
        (omega (arith, d.counts)),
  )

  store_xor-same :
      SameEnd htl pslot0 pslot1 → store_xor htl bucketid s0 pslot0 s1 pslot1 dst ≡ ok dst
  unfolding store_xor
  store_xor-same same = rw (htlayout_equal-words, (==_iff _ _).1 same)

  abbrev change : Slot → Outcome (Unit {0}) Slot
  change xs =
      xor_words pslot0 pslot1 htl.dunits htl.dunits (htl.prevhashunits - htl.dunits)
        (record xs { attr = tree_from_bid bucketid s0 s1 })

  change-IsXor :
      tree_from_bid bucketid s0 s1 < 2 ^ 32
      → (xs : Slot) → IsSlot xs
      → (slot : Slot) × (change xs ≡ ok slot) × IsXor htl bucketid s0 pslot0 s1 pslot1 slot
  change-IsXor small xs h =
      let few = fits.few_units in
      let fewer = fits.fewer_dropped in
      let (slot, e, attr, words, before) =
        xor_words-Words pslot0 pslot1 htl.dunits htl.dunits (htl.prevhashunits - htl.dunits)
          (record xs { attr = tree_from_bid bucketid s0 s1 }) (omega arith) (omega arith) p0 p1
          (h.0, small) in
      (slot, e, record { reference = attr; words = λ q l u. words q l (omega arith) })

  -- The place of a bucket that has room.
  store-room :
      tree_from_bid bucketid s0 s1 < 2 ^ 32
      → (b n : ℕ) → b < nbuckets
      → n < nslots_max
      → (slot : Slot) × IsXor htl bucketid s0 pslot0 s1 pslot1 slot
        × (update_at dst.slots b n change
            ≡ ok (set dst.slots b (set (get_or dst.slots b []) n slot)))
  store-room small b n hb room =
      let (len, slots) =
        get_or-All (IsRow IsSlot nslots_max) dst.slots b [] d.slots (omega (arith, d.rows)) in
      let old = get_or-All IsSlot (get_or dst.slots b []) n default_slot slots (omega arith) in
      let (slot, e, good) =
        change-IsXor small (get_or (get_or dst.slots b []) n default_slot) old in
      (
        slot,
        good,
        update_at-set dst.slots b n change default_slot slot (omega (arith, d.rows)) (omega arith)
            e,
      )

  store_xor-Claimed :
      tree_from_bid bucketid s0 s1 < 2 ^ 32
      → ¬ SameEnd htl pslot0 pslot1
      → (next : Digit) × (store_xor htl bucketid s0 pslot0 s1 pslot1 dst ≡ ok next)
        × Claimed htl bucketid s0 pslot0 s1 pslot1 dst next
  unfolding store_xor
  store_xor-Claimed small differ =
      let (size0, bytes0) = hash_bytes-bytes pslot0 p0 in
      let (size1, bytes1) = hash_bytes-bytes pslot1 p1 in
      let (b, eb, hb) =
        xor_bucket_lt (hash_bytes pslot0) (hash_bytes pslot1) htl.prevbo fits.early size0 size1
          bytes0 bytes1 in
      let apart : (last_word htl pslot0 == last_word htl pslot1) ≡ false = ground arith in
      rw (htlayout_equal-words, apart, eb, getslot-count b hb)
        (elim (Bool-cases (leb nslots_max (get_or dst.nslots b 0))) [
          | inl full ↦
              let le = leb-≤ _ _ full in
              rw full (
                record dst { nslots = counts b },
                refl,
                record {
                  bucket = b;
                  found = eb;
                  in_range = hb;
                  counted = refl;
                  full = λ h. refl;
                  room = λ h. absurd (omega arith);
                },
              )
          | inr room ↦
              let lt = leb-false _ _ room in
              let (slot, good, stored) = store-room small b (get_or dst.nslots b 0) hb lt in
              rw (room, stored)
                (
                  record {
                    slots =
                        set dst.slots b (set (get_or dst.slots b []) (get_or dst.nslots b 0) slot);
                    nslots = counts b;
                  },
                  refl,
                  record {
                    bucket = b;
                    found = eb;
                    in_range = hb;
                    counted = refl;
                    full = λ h. absurd (omega arith);
                    room = λ h. (slot, good, refl);
                  },
                )
        ])

one_value : {A : Type 0} (m : Outcome (Unit {0}) A) {a b : A} → m ≡ ok a → m ≡ ok b → a ≡ b
one_value m h1 h2 = cc

-- For two well-formed slots of a bucket and a layout that fits, no access is out of range and the table
-- stays well formed. If the last words of the slots are equal, the table does not change. If not, the
-- bucket that the exclusive or of their bytes names counts one slot more; if it was full, no slot
-- changes, and if it had room, only the slot at the old count does: it then holds the reference to the
-- pair and the exclusive or of their words from `dunits` on.
pub store_xor-Outcomes :
    (htl : HtLayout) (bucketid s0 s1 : ℕ) (pslot0 pslot1 : Slot) (dst : Digit)
    → LayoutFits htl
    → bucketid < nbuckets
    → s0 < nslots_max
    → s1 < nslots_max
    → IsSlot pslot0
    → IsSlot pslot1
    → IsDigit dst
    → (next : Digit) × (store_xor htl bucketid s0 pslot0 s1 pslot1 dst ≡ ok next)
      × IsDigit next
      × (SameEnd htl pslot0 pslot1 → next ≡ dst)
      × (¬ SameEnd htl pslot0 pslot1 → Claimed htl bucketid s0 pslot0 s1 pslot1 dst next)
store_xor-Outcomes htl bucketid s0 s1 pslot0 pslot1 dst fits hb h0 h1 p0 p1 d =
    let (next, e, good) =
      store_xor-IsDigit htl bucketid s0 s1 pslot0 pslot1 dst fits hb h0 h1 p0 p1 d in
    let small = (tree_round_trip bucketid s0 s1 hb h0 h1).0 in
    (
      next,
      e,
      good,
      λ same. one_value _ e (store_xor-same htl bucketid s0 pslot0 s1 pslot1 dst fits p0 p1 d same),
      λ differ.
          let (other, e', claimed) =
            store_xor-Claimed htl bucketid s0 pslot0 s1 pslot1 dst fits p0 p1 d small differ in
          subst (Claimed htl bucketid s0 pslot0 s1 pslot1 dst) (one_value _ e' e) claimed,
    )
