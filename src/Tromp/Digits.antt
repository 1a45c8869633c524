-- ===== src/Tromp/Digits.antt =====
-- The tables of a digit and the slots in them: what they look like, and that accesses stay in range.
use requihash.Base.{
  ℕ, zero, suc, ◌+◌, ◌-◌, ◌*◌, ◌/◌, ◌%◌, ◌^◌, ◌≤◌, ◌<◌, min, bit_and, bit_xor, ◌≡◌, refl, ◌∙◌, inl,
  inr, Bool, true, false, leb, leb-false, ◌==◌, Bool-cases, if◌then◌else◌, List, [], ◌∷◌, length,
  length-append, length-replicate, replicate, All, All-append, arith,
}
use requihash.Base.Bits.{bit_and_mask}
use requihash.Base.Xor.{bit_xor_lt}
use requihash.Outcome.{ok, ◌>>=◌, Returns, Returns-bind}
use requihash.Indexing.{read, update_at, read-All, write-All, IsRow, update_at-All}
use requihash.Engine.{le_bytes}
use requihash.Tromp.{
  Res, HtLayout, new_layout, Slot, default_slot, words_bytes, hash_bytes, hash_byte, Digit,
  new_digit, nbuckets, nslots_max, getslot, getnslots, htlayout_equal, getxhash, bucket_of,
  xor_bucket, xor_words, tree_from_bid, store_xor,
}
use requihash.Tromp.Attributes.{tree_round_trip, bucket_of_lt}

abbrev pub IsByte : ℕ → Type 0
IsByte b = b < 256

-- Four words and an attribute of 32 bits.
abbrev pub IsSlot : Slot → Type 0
IsSlot slot = (length slot.hash ≡ 4) × (slot.attr < 2 ^ 32)

pub record IsDigit (digit : Digit) : Type 0 where
  pub rows : length digit.slots ≡ nbuckets
  pub counts : length digit.nslots ≡ nbuckets
  pub slots : All (IsRow IsSlot nslots_max) digit.slots

-- What the layout of a round must satisfy for its accesses to stay in a slot.
pub record LayoutFits (htl : HtLayout) : Type 0 where
  pub some_units : 1 ≤ htl.prevhashunits
  pub few_units : htl.prevhashunits ≤ 4
  pub fewer_dropped : htl.dunits ≤ htl.prevhashunits
  pub early : htl.prevbo ≤ 3

-- The layouts of the rounds from 1 to `WK` fit.
pub new_layout-LayoutFits : (r : ℕ) → 1 ≤ r → r ≤ 5 → LayoutFits (new_layout r)
unfolding new_layout
new_layout-LayoutFits zero lo hi = absurd (omega arith)
new_layout-LayoutFits (suc zero) lo hi = ground arith
new_layout-LayoutFits (suc (suc zero)) lo hi = ground arith
new_layout-LayoutFits (suc (suc (suc zero))) lo hi = ground arith
new_layout-LayoutFits (suc (suc (suc (suc zero)))) lo hi = ground arith
new_layout-LayoutFits (suc (suc (suc (suc (suc zero))))) lo hi = ground arith
new_layout-LayoutFits (suc (suc (suc (suc (suc (suc r)))))) lo hi = absurd (omega arith)

All-replicate {ℓ ι} : {A : Type ℓ} (P : A → Type ι) (n : ℕ) (a : A) → P a → All P (replicate n a)
All-replicate P zero a p = tt
All-replicate P (suc n) a p = (p, All-replicate P n a p)

pub default_slot-IsSlot : IsSlot default_slot
unfolding default_slot
default_slot-IsSlot = (refl, omega arith)

pub new_digit-IsDigit : IsDigit new_digit
unfolding new_digit
new_digit-IsDigit = record {
  rows = length-replicate nbuckets (replicate nslots_max default_slot);
  counts = length-replicate {A = ℕ} nbuckets 0;
  slots = All-replicate (IsRow IsSlot nslots_max) nbuckets (replicate nslots_max default_slot) (
    length-replicate nslots_max default_slot,
    All-replicate IsSlot nslots_max default_slot default_slot-IsSlot,
  );
}

pub le_bytes-bytes : (word : ℕ) → (length (le_bytes word) ≡ 4) × All IsByte (le_bytes word)
unfolding le_bytes
le_bytes-bytes word = (refl, (omega arith, (omega arith, (omega arith, (omega arith, tt)))))

words_bytes-bytes :
    (words : List ℕ)
    → (length (words_bytes words) ≡ length words * 4) × All IsByte (words_bytes words)
unfolding words_bytes
words_bytes-bytes [] = (refl, tt)
words_bytes-bytes (word ∷ words) =
    let (size, bytes) = le_bytes-bytes word in
    let (sizes, rest) = words_bytes-bytes words in
    (
      omega (arith, length-append (le_bytes word) (words_bytes words)),
      All-append IsByte (le_bytes word) (words_bytes words) bytes rest,
    )

pub hash_bytes-bytes :
    (slot : Slot) → IsSlot slot → (length (hash_bytes slot) ≡ 16) × All IsByte (hash_bytes slot)
unfolding hash_bytes
hash_bytes-bytes slot h = let (size, bytes) = words_bytes-bytes slot.hash in (omega arith, bytes)

-- Of a number nothing is asked.
abbrev pub Any : ℕ → Type 0
Any x = Unit

pub All-Any : (v : List ℕ) → All Any v
All-Any [] = tt
All-Any (x ∷ v) = (tt, All-Any v)

-- A read of a list of numbers in range.
pub read-Any : (v : List ℕ) (i : ℕ) → i < length v → Returns {E = Unit {0}} Any (read v i)
read-Any v i h = read-All Any v i (All-Any v) h

pub getxhash_lt :
    (htl : HtLayout) (slot : Slot)
    → LayoutFits htl
    → IsSlot slot
    → Returns (λ xh. xh < 16) (getxhash htl slot)
unfolding getxhash hash_byte
getxhash_lt htl slot fits h =
    let early = fits.early in
    Returns-bind (hash_byte slot htl.prevbo) _
      (Returns-bind (read slot.hash (htl.prevbo / 4)) _
        (read-Any slot.hash (htl.prevbo / 4) (omega arith))
        (λ word any.
          let (size, bytes) = le_bytes-bytes word in
          read-All IsByte (le_bytes word) (htl.prevbo % 4) bytes (omega arith)))
      (λ byte small. (bit_and byte 0xf, refl, omega (arith, bit_and_mask 4 byte)))

pub htlayout_equal_total :
    (htl : HtLayout) (a b : Slot)
    → LayoutFits htl
    → IsSlot a
    → IsSlot b
    → (same : Bool) × (htlayout_equal htl a b ≡ ok same)
unfolding htlayout_equal
htlayout_equal_total htl a b fits ha hb =
    let some = fits.some_units in
    let few = fits.few_units in
    let (x, ex, px) = read-Any a.hash (htl.prevhashunits - 1) (omega arith) in
    let (y, ey, py) = read-Any b.hash (htl.prevhashunits - 1) (omega arith) in (x == y, rw (ex, ey))

pub xor_bucket_lt :
    (bytes0 bytes1 : List ℕ) (pb : ℕ)
    → pb ≤ 3
    → length bytes0 ≡ 16
    → length bytes1 ≡ 16
    → All IsByte bytes0
    → All IsByte bytes1
    → Returns (λ b. b < nbuckets) (xor_bucket bytes0 bytes1 pb)
unfolding xor_bucket
xor_bucket_lt bytes0 bytes1 pb hp s0 s1 b0 b1 =
    let (x1, ex1, px1) = read-All {E = Unit {0}} IsByte bytes0 (pb + 1) b0 (omega arith) in
    let (y1, ey1, py1) = read-All {E = Unit {0}} IsByte bytes1 (pb + 1) b1 (omega arith) in
    let (x2, ex2, px2) = read-All {E = Unit {0}} IsByte bytes0 (pb + 2) b0 (omega arith) in
    let (y2, ey2, py2) = read-All {E = Unit {0}} IsByte bytes1 (pb + 2) b1 (omega arith) in
    let (x3, ex3, px3) = read-All {E = Unit {0}} IsByte bytes0 (pb + 3) b0 (omega arith) in
    let (y3, ey3, py3) = read-All {E = Unit {0}} IsByte bytes1 (pb + 3) b1 (omega arith) in
    (
      bucket_of (bit_xor x1 y1) (bit_xor x2 y2) (bit_xor x3 y3),
      rw (ex1, ey1, ex2, ey2, ex3, ey3),
      bucket_of_lt _ _ _ (bit_xor_lt 8 x1 y1 px1 py1) (bit_xor_lt 8 x2 y2 px2 py2)
          (bit_xor_lt 8 x3 y3 px3 py3),
    )

pub xor_words-IsSlot :
    (a b : Slot) (dunits i left : ℕ) (xs : Slot)
    → i + left ≤ 4
    → IsSlot a
    → IsSlot b
    → IsSlot xs
    → Returns IsSlot (xor_words a b dunits i left xs)
unfolding xor_words
xor_words-IsSlot a b dunits i zero xs h ha hb hx = (xs, refl, hx)
xor_words-IsSlot a b dunits i (suc left) xs h ha hb hx =
    let (x, ex, px) = read-Any a.hash i (omega arith) in
    let (y, ey, py) = read-Any b.hash i (omega arith) in
    let (words, ew, (size, any)) =
      write-All {E = Unit {0}} Any xs.hash (i - dunits) (bit_xor x y) (All-Any xs.hash) tt
        (omega arith) in
    let slot : IsSlot (record xs { hash = words }) = (omega arith, hx.1) in
    rw (ex, ey, ew)
      (xor_words-IsSlot a b dunits (i + 1) left (record xs { hash = words }) (omega arith) ha hb
        slot)

pub getslot-IsDigit :
    (digit : Digit) (bucketid : ℕ)
    → IsDigit digit
    → bucketid < nbuckets
    → Returns (λ (claimed : ℕ × Digit). IsDigit (claimed.1)) (getslot digit bucketid)
unfolding getslot
getslot-IsDigit digit bucketid d h =
    let (s, es, ps) = read-Any digit.nslots bucketid (omega (arith, d.counts)) in
    let (counts, ec, (size, any)) =
      write-All {E = Unit {0}} Any digit.nslots bucketid ((s + 1) % 2 ^ 32) (All-Any digit.nslots)
        tt (omega (arith, d.counts)) in
    (
      (s, record digit { nslots = counts }),
      rw (es, ec),
      record { rows = d.rows; counts = size ∙ d.counts; slots = d.slots },
    )

pub getnslots-IsDigit :
    (digit : Digit) (bucketid : ℕ)
    → IsDigit digit
    → bucketid < nbuckets
    → Returns
        (λ (taken : ℕ × Digit). (taken.0 ≤ nslots_max) × IsDigit (taken.1))
        (getnslots digit bucketid)
unfolding getnslots
getnslots-IsDigit digit bucketid d h =
    let (s, es, ps) = read-Any digit.nslots bucketid (omega (arith, d.counts)) in
    let (counts, ec, (size, any)) =
      write-All {E = Unit {0}} Any digit.nslots bucketid 0 (All-Any digit.nslots) tt
        (omega (arith, d.counts)) in
    (
      (min s nslots_max, record digit { nslots = counts }),
      rw (es, ec),
      (omega arith, record { rows = d.rows; counts = size ∙ d.counts; slots = d.slots }),
    )

-- Storing the exclusive or of two slots keeps the tables well formed.
pub store_xor-IsDigit :
    (htl : HtLayout) (bucketid s0 s1 : ℕ) (pslot0 pslot1 : Slot) (dst : Digit)
    → LayoutFits htl
    → bucketid < nbuckets
    → s0 < nslots_max
    → s1 < nslots_max
    → IsSlot pslot0
    → IsSlot pslot1
    → IsDigit dst
    → Returns IsDigit (store_xor htl bucketid s0 pslot0 s1 pslot1 dst)
unfolding store_xor
store_xor-IsDigit htl bucketid s0 s1 pslot0 pslot1 dst fits hb h0 h1 p0 p1 d =
    let (same, es) = htlayout_equal_total htl pslot0 pslot1 fits p0 p1 in rw es (choose same)
  where
    room : ℕ
    room = htl.prevhashunits - htl.dunits

    change : Slot → Res Slot
    change xs =
        xor_words pslot0 pslot1 htl.dunits htl.dunits (htl.prevhashunits - htl.dunits)
          (record xs { attr = tree_from_bid bucketid s0 s1 })

    change-IsSlot : (xs : Slot) → IsSlot xs → Returns IsSlot (change xs)
    change-IsSlot xs h =
        let few = fits.few_units in
        let fewer = fits.fewer_dropped in
        let word = (tree_round_trip bucketid s0 s1 hb h0 h1).0 in
        xor_words-IsSlot pslot0 pslot1 htl.dunits htl.dunits (htl.prevhashunits - htl.dunits)
          (record xs { attr = tree_from_bid bucketid s0 s1 }) (omega arith) p0 p1 (h.0, word)

    fill :
        (b s : ℕ) (digit : Digit)
        → b < nbuckets
        → IsDigit digit
        → Returns IsDigit (
            if leb nslots_max s
            then ok digit
            else (update_at digit.slots b s change >>= λ slots.
                ok (record digit { slots = slots })))
    fill b s digit hb' g = elim (Bool-cases (leb nslots_max s)) [
      | inl e ↦ rw e (digit, refl, g)
      | inr e ↦
          let (slots, eu, (size, all)) =
            update_at-All IsSlot nslots_max digit.slots b s change g.slots (omega (arith, g.rows))
              (leb-false _ _ e) change-IsSlot in
          rw (e, eu)
            (
              record digit { slots = slots },
              refl,
              record { rows = size ∙ g.rows; counts = g.counts; slots = all },
            )
    ]

    choose :
        (same : Bool)
        → Returns IsDigit (
            if same
            then ok dst
            else (xor_bucket (hash_bytes pslot0) (hash_bytes pslot1) htl.prevbo >>= λ xorbucketid.
                getslot dst xorbucketid >>= λ (claimed : ℕ × Digit).
                (if leb nslots_max (claimed.0)
                  then ok (claimed.1)
                  else (update_at (claimed.1).slots xorbucketid (claimed.0) change >>= λ slots.
                      ok (record (claimed.1) { slots = slots })))))
    choose true = (dst, refl, d)
    choose false =
        let (size0, bytes0) = hash_bytes-bytes pslot0 p0 in
        let (size1, bytes1) = hash_bytes-bytes pslot1 p1 in
        Returns-bind _ _ (xor_bucket_lt _ _ htl.prevbo fits.early size0 size1 bytes0 bytes1)
          (λ b hb'.
            Returns-bind _ _ (getslot-IsDigit dst b d hb')
              (λ claimed g. fill b (claimed.0) (claimed.1) hb' g))
