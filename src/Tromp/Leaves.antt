-- ===== src/Tromp/Leaves.antt =====
-- The leaves that `digit0` puts into the first table.
use requihash.Base.{
  ℕ, zero, suc, ◌+◌, ◌*◌, ◌%◌, ◌^◌, ◌≤◌, ◌<◌, ◌≡◌, refl, ◌∙◌, inl, inr, leb, leb-false, Bool-cases,
  if◌then◌else◌, List, [], ◌∷◌, ◌++◌, length, length-append, length-take, length-drop, take, drop,
  All, arith,
}
use requihash.Outcome.{ok, ◌>>=◌, Returns, Returns-bind}
use requihash.Indexing.{update_at, read-All, write-All, update_at-All}
use requihash.Tromp.{
  hashesperblake, nbuckets, nslots_max, hashsize, new_layout, Slot, hash_bytes, Digit, bucket_of,
  le_word, set_words, set_leaf, put_leaf, put_leaves,
}
use requihash.Tromp.Attributes.{bucket_of_lt}
use requihash.Tromp.Digits.{
  IsByte, IsSlot, IsDigit, hash_bytes-bytes, Any, All-Any, read-Any, getslot-IsDigit,
}

le_word_total :
    (bytes : List ℕ) (at : ℕ) → at + 4 ≤ length bytes → (word : ℕ) × (le_word bytes at ≡ ok word)
unfolding le_word
le_word_total bytes at h =
    let (b0, e0, p0) = read-Any bytes at (omega arith) in
    let (b1, e1, p1) = read-Any bytes (at + 1) (omega arith) in
    let (b2, e2, p2) = read-Any bytes (at + 2) (omega arith) in
    let (b3, e3, p3) = read-Any bytes (at + 3) (omega arith) in
    (b0 + b1 * 2 ^ 8 + b2 * 2 ^ 16 + b3 * 2 ^ 24, rw (e0, e1, e2, e3))

set_words-IsSlot :
    (hb : List ℕ) (w left : ℕ) (slot : Slot)
    → length hb ≡ 16
    → w + left ≤ 4
    → IsSlot slot
    → Returns IsSlot (set_words hb w left slot)
unfolding set_words
set_words-IsSlot hb w zero slot len h s = (slot, refl, s)
set_words-IsSlot hb w (suc left) slot len h s =
    let (word, e) = le_word_total hb (w * 4) (omega arith) in
    let (words, ew, (size, any)) =
      write-All {E = Unit {0}} Any slot.hash w word (All-Any slot.hash) tt (omega arith) in
    rw (e, ew)
      (set_words-IsSlot hb (w + 1) left (record slot { hash = words }) len (omega arith)
        (size ∙ s.0, s.1))

first_layout : ((new_layout 0).nextbo ≡ 0) × (hashsize 0 ≡ 16)
unfolding new_layout
first_layout = (refl, refl)

set_leaf-IsSlot :
    (ph : List ℕ) (attr : ℕ) (slot : Slot)
    → length ph ≡ 18
    → attr < 2 ^ 32
    → IsSlot slot
    → Returns IsSlot (set_leaf (new_layout 0) (hashsize 0) ph attr slot)
unfolding set_leaf
set_leaf-IsSlot ph attr slot len word s =
    let (offset, size) = first_layout in
    let hb : List ℕ = hash_bytes slot in
    let (bytes, all) = hash_bytes-bytes slot s in
    rw (offset, size)
      (set_words-IsSlot (take 0 hb ++ (take 16 (drop 2 ph) ++ drop 16 hb)) 0 4
        (record slot { attr = attr })
        (omega (
          arith,
          length-append (take 16 (drop 2 ph)) (drop 16 hb),
          length-take 16 (drop 2 ph),
          length-drop 2 ph,
          length-drop 16 hb,
        ))
        (omega arith) (s.0, word))

take-All : (n : ℕ) (v : List ℕ) → All IsByte v → All IsByte (take n v)
take-All zero v h = tt
take-All (suc n) [] h = tt
take-All (suc n) (x ∷ v) h = (h.0, take-All n v h.1)

drop-All : (n : ℕ) (v : List ℕ) → All IsByte v → All IsByte (drop n v)
drop-All zero v h = h
drop-All (suc n) [] h = tt
drop-All (suc n) (x ∷ v) h = drop-All n v h.1

put_leaf-IsDigit :
    (hash : List ℕ) (block i : ℕ) (digit : Digit)
    → length hash ≡ 54
    → All IsByte hash
    → i < 3
    → IsDigit digit
    → Returns IsDigit (put_leaf hash block i digit)
unfolding put_leaf
put_leaf-IsDigit hash block i digit len bytes hi d =
    let ph : List ℕ = take 18 (drop (i * 18) hash) in
    let size : length ph ≡ 18 =
      omega (arith, length-take 18 (drop (i * 18) hash), length-drop (i * 18) hash) in
    let all = take-All 18 (drop (i * 18) hash) (drop-All (i * 18) hash bytes) in
    let (b0, e0, p0) = read-All {E = Unit {0}} IsByte ph 0 all (omega arith) in
    let (b1, e1, p1) = read-All {E = Unit {0}} IsByte ph 1 all (omega arith) in
    let (b2, e2, p2) = read-All {E = Unit {0}} IsByte ph 2 all (omega arith) in
    let hb = bucket_of_lt b0 b1 b2 p0 p1 p2 in
    rw (e0, e1, e2)
      (Returns-bind _ _ (getslot-IsDigit digit (bucket_of b0 b1 b2) d hb)
        (λ claimed g. fill ph size (bucket_of b0 b1 b2) (claimed.0) (claimed.1) hb g))
  where
    attr : ℕ
    attr = (block * hashesperblake + i) % 2 ^ 32

    fill :
        (ph : List ℕ)
        → length ph ≡ 18
        → (b s : ℕ) (digit : Digit) → b < nbuckets
        → IsDigit digit
        → Returns IsDigit (
            if leb nslots_max s
            then ok digit
            else (update_at digit.slots b s
                  (set_leaf (new_layout 0) (hashsize 0) ph ((block * hashesperblake + i) % 2 ^ 32))
                >>= λ slots. ok (record digit { slots = slots })))
    fill ph size b s digit hb g = elim (Bool-cases (leb nslots_max s)) [
      | inl e ↦ rw e (digit, refl, g)
      | inr e ↦
          let (slots, eu, (rows, all)) =
            update_at-All {E = Unit {0}} IsSlot nslots_max digit.slots b s
              (set_leaf (new_layout 0) (hashsize 0) ph ((block * hashesperblake + i) % 2 ^ 32))
              g.slots (omega (arith, g.rows)) (leb-false _ _ e)
              (λ slot h.
                set_leaf-IsSlot ph ((block * hashesperblake + i) % 2 ^ 32) slot size (omega arith)
                  h) in
          rw (e, eu)
            (
              record digit { slots = slots },
              refl,
              record { rows = rows ∙ g.rows; counts = g.counts; slots = all },
            )
    ]

pub put_leaves-IsDigit :
    (hash : List ℕ) (block i left : ℕ) (digit : Digit)
    → length hash ≡ 54
    → All IsByte hash
    → i + left ≤ 3
    → IsDigit digit
    → Returns IsDigit (put_leaves hash block i left digit)
unfolding put_leaves
put_leaves-IsDigit hash block i zero digit len bytes h d = (digit, refl, d)
put_leaves-IsDigit hash block i (suc left) digit len bytes h d =
    Returns-bind (put_leaf hash block i digit) (put_leaves hash block (i + 1) left)
      (put_leaf-IsDigit hash block i digit len bytes (omega arith) d)
      (λ next g. put_leaves-IsDigit hash block (i + 1) left next len bytes (omega arith) g)
