-- ===== src/Tromp.antt =====
-- Req/SOLVER_CORPUS/rz/src/lib.rs: the bucketed solver for n = 144, k = 5. The BLAKE2b of blake2b_simd is a
-- parameter, `hash personal length message`.
pub mod Attributes
pub mod Digits
pub mod Pairs
pub mod Passes
pub mod Indices
pub mod Leaves
pub mod Rounds
pub mod Sound
use requihash.Base.{
  ℕ, zero, suc, ◌+◌, ◌-◌, ◌*◌, ◌/◌, ◌%◌, ◌^◌, min, bit_and, bit_or, bit_xor, Bool, true, false, ltb,
  leb, ◌==◌, if◌then◌else◌, Option, none, some, List, [], ◌∷◌, ◌++◌, map, length, get_or, set, take,
  drop, replicate,
}
use requihash.Outcome.{Outcome, ok, err, panic, ◌>>=◌}
use requihash.Indexing.{read, write, update_at}
use requihash.Engine.{le_bytes}
use requihash.Distinct.{sort_unstable}

-- The constants for (WN, WK, RESTBITS) = (144, 5, 4).
abbrev pub wn : ℕ
wn = 144

abbrev pub wk : ℕ
wk = 5

abbrev pub restbits : ℕ
restbits = 4

abbrev pub digitbits : ℕ
digitbits = wn / (wk + 1)

abbrev pub proofsize : ℕ
proofsize = 2 ^ wk

abbrev pub nhashes : ℕ
nhashes = 2 * 2 ^ digitbits

abbrev pub hashesperblake : ℕ
hashesperblake = 512 / wn

abbrev pub hashout : ℕ
hashout = hashesperblake * wn / 8

abbrev pub nbuckets : ℕ
nbuckets = 2 ^ (digitbits - restbits)

abbrev pub slotbits : ℕ
slotbits = restbits + 1 + 1

abbrev pub nslots_max : ℕ
nslots_max = 2 ^ slotbits

abbrev pub xfull : ℕ
xfull = 16

abbrev pub nrests : ℕ
nrests = 2 ^ restbits

abbrev pub nblocks : ℕ
nblocks = (nhashes + hashesperblake - 1) / hashesperblake

abbrev pub maxsols : ℕ
maxsols = 8

-- No call returns an error value.
abbrev pub Res : Type 0 → Type 0
Res A = Outcome (Unit {0}) A

unfoldable pub hashsize : ℕ → ℕ
hashsize r = (wn - (r + 1) * digitbits + restbits + 7) / 8

unfoldable pub hashwords : ℕ → ℕ
hashwords bytes = (bytes + 3) / 4

pub record HtLayout : Type 0 where
  pub prevhashunits : ℕ
  pub dunits : ℕ
  pub prevbo : ℕ
  pub nextbo : ℕ

unfoldable pub new_layout : ℕ → HtLayout
unfolding hashsize hashwords
new_layout r =
    let nexthashbytes = hashsize r in
    let nexthashunits = hashwords nexthashbytes in
    let prevhashbytes = hashsize (r - 1) in
    let units = hashwords prevhashbytes in
    let first = r == 0 in
    record {
      prevhashunits = if first then 0 else units;
      dunits = if first then 0 else units - nexthashunits;
      prevbo = if first then 0 else units * 4 - prevhashbytes;
      nextbo = nexthashunits * 4 - nexthashbytes;
    }

pub record Slot : Type 0 where
  pub attr : ℕ
  pub hash : List ℕ

unfoldable pub default_slot : Slot
default_slot = record { attr = 0; hash = replicate 4 0 }

unfoldable pub words_bytes : List ℕ → List ℕ
unfolding le_bytes
words_bytes [] = []
words_bytes (word ∷ words) = le_bytes word ++ words_bytes words

unfoldable pub hash_bytes : Slot → List ℕ
unfolding words_bytes
hash_bytes slot = words_bytes slot.hash

unfoldable pub hash_byte : Slot → ℕ → Res ℕ
unfolding le_bytes
hash_byte slot bo = do word ← read slot.hash (bo / 4); read (le_bytes word) (bo % 4)

-- `tree_from_bid`; a shift of a u32 drops the high bits.
unfoldable pub tree_from_bid : ℕ → ℕ → ℕ → ℕ
tree_from_bid bucketid s0 s1 =
    bit_or (bit_or (bucketid * 2 ^ slotbits % 2 ^ 32) s0 * 2 ^ slotbits % 2 ^ 32) s1

unfoldable pub tree_bucketid : ℕ → ℕ
tree_bucketid t = t / 2 ^ (2 * slotbits)

unfoldable pub tree_slotid0 : ℕ → ℕ
tree_slotid0 t = bit_and (t / 2 ^ slotbits) (2 ^ slotbits - 1)

unfoldable pub tree_slotid1 : ℕ → ℕ
tree_slotid1 t = bit_and t (2 ^ slotbits - 1)

pub record Digit : Type 0 where
  pub slots : List (List Slot)
  pub nslots : List ℕ

unfoldable pub new_digit : Digit
unfolding default_slot
new_digit = record {
  slots = replicate nbuckets (replicate nslots_max default_slot);
  nslots = replicate nbuckets 0;
}

unfoldable pub getslot : Digit → ℕ → Res (ℕ × Digit)
getslot digit bucketid = do
  s ← read digit.nslots bucketid
  counts ← write digit.nslots bucketid ((s + 1) % 2 ^ 32)
  ok (s, record digit { nslots = counts })

unfoldable pub getnslots : Digit → ℕ → Res (ℕ × Digit)
getnslots digit bucketid = do
  s ← read digit.nslots bucketid
  counts ← write digit.nslots bucketid 0
  ok (min s nslots_max, record digit { nslots = counts })

pub record CollisionData : Type 0 where
  pub nxhashslots : List ℕ
  pub xhashslots : List (List ℕ)

unfoldable pub new_collisions : CollisionData
new_collisions = record {
  nxhashslots = replicate nrests 0;
  xhashslots = replicate nrests (replicate xfull 0);
}

unfoldable pub clear : CollisionData → CollisionData
clear cd = record cd { nxhashslots = replicate nrests 0 }

-- The iterator that is returned stands for its `n1`; its `xh` is the argument and its `n0` is 0.
unfoldable pub addslot : CollisionData → ℕ → ℕ → Res (Option ℕ × CollisionData)
addslot cd s1 xh = do
  n1 ← read cd.nxhashslots xh
  counts ← write cd.nxhashslots xh ((n1 + 1) % 2 ^ 16)
  (if leb xfull n1 then ok (none, record cd { nxhashslots = counts }) else (do
    row ← read cd.xhashslots xh
    row' ← write row n1 (s1 % 2 ^ 16)
    rows ← write cd.xhashslots xh row'
    ok (some n1, record { nxhashslots = counts; xhashslots = rows })))

unfoldable pub htlayout_equal : HtLayout → Slot → Slot → Res Bool
htlayout_equal htl a b = do
  x ← read a.hash (htl.prevhashunits - 1)
  y ← read b.hash (htl.prevhashunits - 1)
  ok (x == y)

unfoldable pub getxhash : HtLayout → Slot → Res ℕ
unfolding hash_byte
getxhash htl slot = hash_byte slot htl.prevbo >>= λ byte. ok (bit_and byte 0xf)

-- A bucket number from three bytes, and from the exclusive or of three bytes of two slots.
unfoldable pub bucket_of : ℕ → ℕ → ℕ → ℕ
bucket_of b0 b1 b2 = bit_or (bit_or (b0 * 2 ^ 8 % 2 ^ 32) b1 * 2 ^ 4 % 2 ^ 32) (b2 / 2 ^ 4)

unfoldable pub xor_bucket : List ℕ → List ℕ → ℕ → Res ℕ
unfolding bucket_of
xor_bucket bytes0 bytes1 pb = do
  x1 ← read bytes0 (pb + 1)
  y1 ← read bytes1 (pb + 1)
  x2 ← read bytes0 (pb + 2)
  y2 ← read bytes1 (pb + 2)
  x3 ← read bytes0 (pb + 3)
  y3 ← read bytes1 (pb + 3)
  ok (bucket_of (bit_xor x1 y1) (bit_xor x2 y2) (bit_xor x3 y3))

-- `for i in htl.dunits..htl.prevhashunits`, with the rounds that are left.
unfoldable pub xor_words : Slot → Slot → ℕ → ℕ → ℕ → Slot → Res Slot
xor_words pslot0 pslot1 dunits i zero xs = ok xs
xor_words pslot0 pslot1 dunits i (suc left) xs = do
  x ← read pslot0.hash i
  y ← read pslot1.hash i
  words ← write xs.hash (i - dunits) (bit_xor x y)
  xor_words pslot0 pslot1 dunits (i + 1) left (record xs { hash = words })

-- What `digitodd` and `digiteven` do with two slots of one rest.
unfoldable pub store_xor : HtLayout → ℕ → ℕ → Slot → ℕ → Slot → Digit → Res Digit
store_xor htl bucketid s0 pslot0 s1 pslot1 dst = do
  same ← htlayout_equal htl pslot0 pslot1
  (if same then ok dst else (do
    xorbucketid ← xor_bucket (hash_bytes pslot0) (hash_bytes pslot1) htl.prevbo
    claimed ← getslot dst xorbucketid
    (if leb nslots_max (claimed.0) then ok (claimed.1) else (do
      slots ← update_at (claimed.1).slots xorbucketid (claimed.0) (λ xs.
          xor_words pslot0 pslot1 htl.dunits htl.dunits (htl.prevhashunits - htl.dunits)
            (record xs { attr = tree_from_bid bucketid s0 s1 }))
      ok (record (claimed.1) { slots = slots })))))

module _ {S : Type 0} (visit : ℕ → Slot → ℕ → Slot → S → Res S) (htl : HtLayout)
    (bucket : List Slot) where
  -- `while let Some(s0) = it.next(&cd)`, with the slots that are left to `n1`.
  unfoldable pub pair_loop : List (List ℕ) → ℕ → ℕ → Slot → ℕ → ℕ → S → Res S
  pair_loop xhashslots xh s1 pslot1 n0 zero st = ok st
  pair_loop xhashslots xh s1 pslot1 n0 (suc left) st = do
    row ← read xhashslots xh
    s0 ← read row n0
    pslot0 ← read bucket s0
    next ← visit s0 pslot0 s1 pslot1 st
    pair_loop xhashslots xh s1 pslot1 (n0 + 1) left next

  -- The pairs of a slot, if it was added.
  unfoldable pub added_pairs : Option ℕ → List (List ℕ) → ℕ → ℕ → Slot → S → Res S
  added_pairs none xhashslots xh s1 pslot1 st = ok st
  added_pairs (some n1) xhashslots xh s1 pslot1 st = pair_loop xhashslots xh s1 pslot1 0 n1 st

  -- `for s1 in 0..bsize`, with the rounds that are left.
  unfoldable pub slot_loop : ℕ → ℕ → CollisionData → S → Res (CollisionData × S)
  slot_loop s1 zero cd st = ok (cd, st)
  slot_loop s1 (suc left) cd st = do
    pslot1 ← read bucket s1
    xh ← getxhash htl pslot1
    added ← addslot cd s1 xh
    next ← added_pairs (added.0) (added.1).xhashslots xh s1 pslot1 st
    slot_loop (s1 + 1) left (added.1) next

-- `for bucketid in 0..NBUCKETS`, with the rounds that are left, over the buckets of `src`.
unfoldable pub bucket_pass :
    {S : Type 0}
    → (ℕ → ℕ → Slot → ℕ → Slot → S → Res S)
    → HtLayout
    → ℕ
    → ℕ
    → CollisionData
    → Digit
    → S
    → Res (Digit × S)
bucket_pass visit htl bucketid zero cd src st = ok (src, st)
bucket_pass visit htl bucketid (suc left) cd src st = do
  taken ← getnslots src bucketid
  row ← read (taken.1).slots bucketid
  done ← slot_loop (visit bucketid) htl (take (taken.0) row) 0 (taken.0) (clear cd) st
  bucket_pass visit htl (bucketid + 1) left (done.0) (taken.1) (done.1)

-- The swaps of `i` and `size + i` exchange the halves.
unfoldable pub order_indices : List ℕ → ℕ → Res (List ℕ)
order_indices indices size = do
  first ← read indices 0
  second ← read indices size
  ok (if ltb second first then drop size indices ++ take size indices else indices)

-- `self.trees[i].slots[bucketid][s].attr`
unfoldable pub slot_attr : List Digit → ℕ → ℕ → ℕ → Res ℕ
slot_attr trees i bucketid s = do
  digit ← read trees i
  row ← read digit.slots bucketid
  slot ← read row s
  ok slot.attr

module _ (trees0 trees1 : List Digit) where
  -- The slice of `2 ^ r` indices that is filled; `r - 1` at 0 wraps, and no table has that index.
  unfoldable mutual
    pub listindices0 : ℕ → ℕ → Res (List ℕ)
    listindices0 zero t = ok (t ∷ [])
    listindices0 (suc r) t = do
      attr0 ← slot_attr trees1 (r / 2) (tree_bucketid t) (tree_slotid0 t)
      attr1 ← slot_attr trees1 (r / 2) (tree_bucketid t) (tree_slotid1 t)
      left ← listindices1 r attr0
      right ← listindices1 r attr1
      order_indices (left ++ right) (2 ^ r)

    pub listindices1 : ℕ → ℕ → Res (List ℕ)
    listindices1 zero t = panic
    listindices1 (suc r) t = do
      attr0 ← slot_attr trees0 (r / 2) (tree_bucketid t) (tree_slotid0 t)
      attr1 ← slot_attr trees0 (r / 2) (tree_bucketid t) (tree_slotid1 t)
      left ← listindices0 r attr0
      right ← listindices0 r attr1
      order_indices (left ++ right) (2 ^ r)

-- `sorted[i] <= sorted[i - 1]` for no `i`.
unfoldable pub ascends : List ℕ → Bool
ascends (x ∷ y ∷ rest) = if leb y x then false else ascends (y ∷ rest)
ascends _ = true

pub record Solutions : Type 0 where
  pub sols : List (List ℕ)
  pub nsols : ℕ

-- `candidate`, from the indices on.
unfoldable pub record_solution : List ℕ → Solutions → Solutions
record_solution prf st =
    if ascends (sort_unstable prf)
    then record {
      sols = if ltb st.nsols maxsols then st.sols ++ prf ∷ [] else st.sols;
      nsols = st.nsols + 1;
    }
    else st

unfoldable pub candidate : List Digit → List Digit → ℕ → Solutions → Res Solutions
candidate trees0 trees1 t st =
    listindices1 trees0 trees1 wk t >>= λ prf. ok (record_solution prf st)

-- What `digit_k` does with two slots of one rest.
unfoldable pub check_pair :
    List Digit → List Digit → HtLayout → ℕ → ℕ → Slot → ℕ → Slot → Solutions → Res Solutions
check_pair trees0 trees1 htl bucketid s0 pslot0 s1 pslot1 st = do
  same ← htlayout_equal htl pslot0 pslot1
  (if same then candidate trees0 trees1 (tree_from_bid bucketid s0 s1) st else ok st)

pub record Equi : Type 0 where
  pub personal : List ℕ
  pub absorbed : List ℕ
  pub trees0 : List Digit
  pub trees1 : List Digit
  pub found : Solutions

-- `Equi::new` of `base_state(input, nonce)`: the state of the hash stands for what it was given.
unfoldable pub new : List ℕ → List ℕ → Equi
new input nonce = record {
  personal =
      (b'Z' ∷ b'c' ∷ b'a' ∷ b's' ∷ b'h' ∷ b'P' ∷ b'o' ∷ b'W' ∷ []) ++ (le_bytes wn ++ le_bytes wk);
  absorbed = input ++ nonce;
  trees0 = replicate ((wk + 1) / 2) new_digit;
  trees1 = replicate (wk / 2) new_digit;
  found = record { sols = []; nsols = 0 };
}

-- The pass of an odd round, from `trees0` to `trees1`.
unfoldable pub digitodd : ℕ → Equi → Res Equi
digitodd r eq = do
  src ← read eq.trees0 ((r - 1) / 2)
  dst ← read eq.trees1 (r / 2)
  done ← bucket_pass (store_xor (new_layout r)) (new_layout r) 0 nbuckets new_collisions src dst
  trees0 ← write eq.trees0 ((r - 1) / 2) (done.0)
  trees1 ← write eq.trees1 (r / 2) (done.1)
  ok (record eq { trees0 = trees0; trees1 = trees1 })

-- The pass of an even round, from `trees1` to `trees0`.
unfoldable pub digiteven : ℕ → Equi → Res Equi
digiteven r eq = do
  src ← read eq.trees1 ((r - 1) / 2)
  dst ← read eq.trees0 (r / 2)
  done ← bucket_pass (store_xor (new_layout r)) (new_layout r) 0 nbuckets new_collisions src dst
  trees1 ← write eq.trees1 ((r - 1) / 2) (done.0)
  trees0 ← write eq.trees0 (r / 2) (done.1)
  ok (record eq { trees0 = trees0; trees1 = trees1 })

-- The last round; a candidate reads the slots of the tables, which the pass leaves as they are.
unfoldable pub digit_k : Equi → Res Equi
digit_k eq = do
  src ← read eq.trees0 ((wk - 1) / 2)
  done ←
      bucket_pass (check_pair eq.trees0 eq.trees1 (new_layout wk)) (new_layout wk) 0 nbuckets
        new_collisions src eq.found
  trees0 ← write eq.trees0 ((wk - 1) / 2) (done.0)
  ok (record eq { trees0 = trees0; found = done.1 })

-- `for r in 1..WK`, with the rounds that are left.
unfoldable pub digit_rounds : ℕ → ℕ → Equi → Res Equi
digit_rounds r zero eq = ok eq
digit_rounds r (suc left) eq = (if r % 2 == 1 then digitodd r eq else digiteven r eq) >>= λ next.
    digit_rounds (r + 1) left next

-- `u32::from_le_bytes` of the four bytes from `at` on.
unfoldable pub le_word : List ℕ → ℕ → Res ℕ
le_word bytes at = do
  b0 ← read bytes at
  b1 ← read bytes (at + 1)
  b2 ← read bytes (at + 2)
  b3 ← read bytes (at + 3)
  ok (b0 + b1 * 2 ^ 8 + b2 * 2 ^ 16 + b3 * 2 ^ 24)

-- `for w in 0..4`, with the rounds that are left.
unfoldable pub set_words : List ℕ → ℕ → ℕ → Slot → Res Slot
set_words hb w zero slot = ok slot
set_words hb w (suc left) slot = do
  word ← le_word hb (w * 4)
  words ← write slot.hash w word
  set_words hb (w + 1) left (record slot { hash = words })

-- A leaf's slot: the last `hashbytes` bytes of its hash, at `nextbo`.
unfoldable pub set_leaf : HtLayout → ℕ → List ℕ → ℕ → Slot → Res Slot
set_leaf htl hashbytes ph attr slot =
    let src = drop (wn / 8 - hashbytes) ph in
    let hb = hash_bytes slot in
    let filled = take htl.nextbo hb ++ (take hashbytes src ++ drop (htl.nextbo + hashbytes) hb) in
    set_words filled 0 4 (record slot { attr = attr })

-- `for i in 0..HASHESPERBLAKE`: leaf `i` of a block.
unfoldable pub put_leaf : List ℕ → ℕ → ℕ → Digit → Res Digit
put_leaf hash block i digit =
    let ph = take (wn / 8) (drop (i * (wn / 8)) hash) in
    do
      b0 ← read ph 0
      b1 ← read ph 1
      b2 ← read ph 2
      claimed ← getslot digit (bucket_of b0 b1 b2)
      (if leb nslots_max (claimed.0) then ok (claimed.1) else (do
        slots ←
            update_at (claimed.1).slots (bucket_of b0 b1 b2) (claimed.0)
              (set_leaf (new_layout 0) (hashsize 0) ph ((block * hashesperblake + i) % 2 ^ 32))
        ok (record (claimed.1) { slots = slots })))

unfoldable pub put_leaves : List ℕ → ℕ → ℕ → ℕ → Digit → Res Digit
put_leaves hash block i zero digit = ok digit
put_leaves hash block i (suc left) digit =
    put_leaf hash block i digit >>= λ next. put_leaves hash block (i + 1) left next

module _ (hash : List ℕ → ℕ → List ℕ → List ℕ) where
  -- `for block in 0..NBLOCKS`, with the rounds that are left.
  unfoldable pub block_loop : List ℕ → List ℕ → ℕ → ℕ → Digit → Res Digit
  block_loop personal absorbed block zero digit = ok digit
  block_loop personal absorbed block (suc left) digit =
      put_leaves (hash personal hashout (absorbed ++ le_bytes block)) block 0 hashesperblake digit
      >>= λ next. block_loop personal absorbed (block + 1) left next

  unfoldable pub digit0 : Equi → Res Equi
  digit0 eq = do
    digit ← read eq.trees0 0
    filled ← block_loop eq.personal eq.absorbed 0 nblocks digit
    trees0 ← write eq.trees0 0 filled
    ok (record eq { trees0 = trees0 })

  unfoldable pub solve_144_4 : List ℕ → List ℕ → Res (List (List ℕ))
  solve_144_4 input nonce = do
    eq0 ← digit0 (new input nonce)
    eq4 ← digit_rounds 1 (wk - 1) eq0
    eq5 ← digit_k eq4
    ok eq5.found.sols
