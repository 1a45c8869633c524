-- ===== src/KList.antt =====
-- Req/SOLVER_CORPUS/cs-rs/src/lib.rs: the k-list algorithm with its merge tree on a stack. The hash
-- of blake2b_simd is a parameter, `hash length message`, which may panic.
pub mod Values
pub mod Shift
pub mod Keys
pub mod New
pub mod Merge
pub mod Items
pub mod Tree
pub mod Exact
pub mod Sound
pub mod Refused
use requihash.Base.{
  ℕ, zero, suc, ◌+◌, ◌-◌, ◌*◌, ◌/◌, ◌%◌, ◌^◌, min, bit_and, bit_or, bit_xor, Bool, true, false, not,
  ◌&&◌, ltb, leb, ◌==◌, if◌then◌else◌, Option, none, some, List, [], ◌∷◌, ◌++◌, map, length, get_or,
  set, replicate,
}
use requihash.Outcome.{Outcome, ok, err, panic, ◌>>=◌, ◌>>◌}
use mathlib.Core.List.{reverse}

-- `value` is a number of bytes, the most significant first.
pub record HashItem : Type 0 where
  pub value : List ℕ
  pub index_vector : List ℕ

pub record KListWagnerAlgorithm : Type 0 where
  pub n : ℕ
  pub k : ℕ
  pub lgk : ℕ
  pub ell : ℕ
  pub nonce : List ℕ
  pub hash_size : ℕ

-- The messages of `new` and of `solve_internal`.
pub data Message : Type 0 where
  n_not_bytes nonce_not_16 k_not_power n_not_divisible not_reduced : Message

-- `zip` stops with the shorter list.
unfoldable pub big_xor : List ℕ → List ℕ → List ℕ
big_xor (x ∷ a) (y ∷ b) = bit_xor x y ∷ big_xor a b
big_xor _ _ = []

-- A byte of `big_shr`, from the byte at its place and the one before.
unfoldable pub shifted_byte : ℕ → ℕ → ℕ → ℕ
shifted_byte bit_shift lo_part hi_part =
    if bit_shift == 0
    then lo_part % 256
    else bit_or (lo_part / 2 ^ bit_shift) (hi_part * 2 ^ (8 - bit_shift) % 65536) % 256

-- `for j in 0..(n - byte_shift)`, with the rounds that are left.
unfoldable pub shr_loop : List ℕ → ℕ → ℕ → ℕ → ℕ → List ℕ → List ℕ
unfolding shifted_byte
shr_loop v byte_shift bit_shift zero j out = out
shr_loop v byte_shift bit_shift (suc left) j out =
    let out_idx = length v - 1 - j in
    let src_idx = out_idx - byte_shift in
    let lo_part = get_or v src_idx 0 in
    let hi_part = if ltb 0 src_idx then get_or v (src_idx - 1) 0 else 0 in
    shr_loop v byte_shift bit_shift left (j + 1)
      (set out out_idx (shifted_byte bit_shift lo_part hi_part))

unfoldable pub big_shr : List ℕ → ℕ → List ℕ
unfolding shr_loop
big_shr v bits =
    let n = length v in
    let byte_shift = bits / 8 in
    if leb n byte_shift
    then replicate n 0
    else shr_loop v byte_shift (bits % 8) (n - byte_shift) 0 (replicate n 0)

-- The loop of `low_bits_key` over the bytes from the last one; a shift by 64 or more is masked.
unfoldable pub key_loop : ℕ → List ℕ → ℕ → ℕ → ℕ
key_loop mask_bit [] key bits_taken = key
key_loop mask_bit (byte ∷ bytes) key bits_taken =
    let take = min 8 (mask_bit - bits_taken) in
    let byte_bits = if ltb take 8 then bit_and byte (2 ^ take - 1) else byte in
    let rest =
      key_loop mask_bit bytes (bit_or key (byte_bits * 2 ^ (bits_taken % 64) % 2 ^ 64))
        (bits_taken + take) in
    if leb mask_bit bits_taken then key else rest

unfoldable pub low_bits_key : List ℕ → ℕ → ℕ
unfolding key_loop
low_bits_key v mask_bit = key_loop mask_bit (reverse v) 0 0

unfoldable pub is_all_zero : List ℕ → Bool
is_all_zero [] = true
is_all_zero (b ∷ v) = b == 0 && is_all_zero v

-- `while kk > 1`; a u32 is halved 31 times at most.
unfoldable pub log2_loop : ℕ → ℕ → ℕ → ℕ
log2_loop zero kk lgk = lgk
log2_loop (suc fuel) kk lgk =
    let rest = log2_loop fuel (kk / 2) (lgk + 1) in if ltb 1 kk then rest else lgk

unfoldable pub new : ℕ → ℕ → List ℕ → Outcome Message KListWagnerAlgorithm
unfolding log2_loop
new n k nonce =
    let lgk = log2_loop 32 k 0 in
    if not (n % 8 == 0)
    then err n_not_bytes
    else if not (length nonce == 16)
    then err nonce_not_16
    else if not (2 ^ (lgk % 32) == k)
    then err k_not_power
    else if not (n % (lgk + 1) == 0)
    then err n_not_divisible
    else ok
        (record { n = n; k = k; lgk = lgk; ell = n / (lgk + 1); nonce = nonce; hash_size = n / 8 })

-- The decimal digits of a u32, ten at most, before `rest`.
unfoldable pub decimal : ℕ → ℕ → List ℕ → List ℕ
decimal zero n rest = rest
decimal (suc fuel) n rest =
    let digits = (b'0' + n % 10) ∷ rest in
    let more = decimal fuel (n / 10) digits in if n / 10 == 0 then digits else more

-- `table.entry(key).or_default().push(item)`
unfoldable pub entry_push : ℕ → HashItem → List (ℕ × List HashItem) → List (ℕ × List HashItem)
entry_push key item [] = (key, item ∷ []) ∷ []
entry_push key item ((other, bucket) ∷ table) =
    if other == key
    then (other, bucket ++ item ∷ []) ∷ table
    else (other, bucket) ∷ entry_push key item table

-- `table.get(&key)`
unfoldable pub table_get : ℕ → List (ℕ × List HashItem) → Option (List HashItem)
table_get key [] = none
table_get key ((other, bucket) ∷ table) = if other == key then some bucket else table_get key table

-- `for item in l1`
unfoldable pub fill_table : ℕ → List HashItem → List (ℕ × List HashItem) → List (ℕ × List HashItem)
unfolding low_bits_key entry_push
fill_table mask_bit [] table = table
fill_table mask_bit (item ∷ l1) table =
    fill_table mask_bit l1 (entry_push (low_bits_key item.value mask_bit) item table)

-- What is pushed for one pair.
unfoldable pub merge_items : ℕ → HashItem → HashItem → HashItem
unfolding big_shr big_xor
merge_items mask_bit item2 item1 = record {
  value = big_shr (big_xor item1.value item2.value) mask_bit;
  index_vector = item1.index_vector ++ item2.index_vector;
}

-- `for item1 in bucket`, where there is one.
unfoldable pub merge_bucket : ℕ → HashItem → Option (List HashItem) → List HashItem
unfolding merge_items
merge_bucket mask_bit item2 none = []
merge_bucket mask_bit item2 (some bucket) = map (merge_items mask_bit item2) bucket

-- `for item2 in l2`
unfoldable pub probe_table : ℕ → List HashItem → List (ℕ × List HashItem) → List HashItem
unfolding low_bits_key table_get merge_bucket
probe_table mask_bit [] table = []
probe_table mask_bit (item2 ∷ l2) table =
    merge_bucket mask_bit item2 (table_get (low_bits_key item2.value mask_bit) table)
    ++ probe_table mask_bit l2 table

unfoldable pub hash_merge : List HashItem → List HashItem → ℕ → List HashItem
unfolding fill_table probe_table
hash_merge l1 l2 mask_bit = probe_table mask_bit l2 (fill_table mask_bit l1 [])

pub record StackEntry : Type 0 where
  pub list : List HashItem
  pub depth : ℕ

-- The `while let` loop and the push after it. The top of the stack stands first; `lgk - 1` wraps.
unfoldable pub carry : KListWagnerAlgorithm → List StackEntry → ℕ → List HashItem → List StackEntry
unfolding hash_merge
carry alg [] current_depth merged_list = record { list = merged_list; depth = current_depth } ∷ []
carry alg (top ∷ stack) current_depth merged_list =
    let mask_bit =
      if current_depth == (alg.lgk + 2 ^ 32 - 1) % 2 ^ 32 then alg.ell * 2 else alg.ell in
    let rest = carry alg stack (current_depth + 1) (hash_merge top.list merged_list mask_bit) in
    if top.depth == current_depth
    then rest
    else record { list = merged_list; depth = current_depth } ∷ top ∷ stack

-- `Result::expect`
unfoldable pub expect : Outcome Message (List (List ℕ)) → Outcome Message (List (List ℕ))
expect (ok solutions) = ok solutions
expect (err e) = panic
expect panic = panic

-- `Vec::with_capacity` of `HashItem`s, which are two vectors of 24 bytes each: a request for more
-- than `isize::MAX` bytes is a capacity overflow.
unfoldable pub with_capacity : ℕ → Outcome Message (Unit {0})
with_capacity count = if ltb (2 ^ 63 - 1) (count * 48) then panic else ok tt

module _ (hash : ℕ → List ℕ → Outcome Message (List ℕ)) (alg : KListWagnerAlgorithm) where
  unfoldable pub compute_item : ℕ → ℕ → Outcome Message (List ℕ)
  unfolding decimal
  compute_item i j = hash alg.hash_size (alg.nonce ++ (decimal 10 i [] ++ (b'-' ∷ decimal 10 j [])))

  -- `for j in 0..count`, with the rounds that are left.
  unfoldable pub items_from : ℕ → ℕ → ℕ → Outcome Message (List HashItem)
  unfolding compute_item
  items_from i j zero = ok []
  items_from i j (suc left) = do
    value ← compute_item i (j % 2 ^ 32)
    rest ← items_from i (j + 1) left
    ok (record { value = value; index_vector = (j % 2 ^ 32) ∷ [] } ∷ rest)

  unfoldable pub compute_hash_list : ℕ → Outcome Message (List HashItem)
  unfolding items_from with_capacity
  compute_hash_list i =
      let count = 2 ^ (alg.ell % 64) in with_capacity count >> items_from i 0 count

  -- `for i in 1..self.k`, with the rounds that are left.
  unfoldable pub push_lists : ℕ → ℕ → List StackEntry → Outcome Message (List StackEntry)
  unfolding carry compute_hash_list
  push_lists i zero stack = ok stack
  push_lists i (suc left) stack =
      compute_hash_list i >>= λ merged_list. push_lists (i + 1) left (carry alg stack 0 merged_list)

  -- The test of the last stack: one entry, at depth `lgk`.
  unfoldable pub root : List StackEntry → Outcome Message (List (List ℕ))
  root (top ∷ []) =
      if top.depth == alg.lgk
      then ok (map (λ (item : HashItem). item.index_vector) top.list)
      else err not_reduced
  root _ = err not_reduced

  unfoldable pub solve_internal : Outcome Message (List (List ℕ))
  unfolding push_lists root
  solve_internal = do
    first ← compute_hash_list 0
    stack ← push_lists 1 (alg.k - 1) (record { list = first; depth = 0 } ∷ [])
    root stack

  unfoldable pub solve : Outcome Message (List (List ℕ))
  unfolding solve_internal expect
  solve = expect solve_internal

  unfoldable pub all_sized : List (List ℕ) → Bool
  all_sized [] = true
  all_sized (indices ∷ solutions) = length indices == alg.k && all_sized solutions

  -- `for (i, &j) in indices.iter().enumerate()`
  unfoldable pub xor_items : ℕ → List ℕ → List ℕ → Outcome Message (List ℕ)
  unfolding big_xor compute_item
  xor_items i [] acc = ok acc
  xor_items i (j ∷ indices) acc =
      compute_item i j >>= λ value. xor_items (i + 1) indices (big_xor acc value)

  unfoldable pub all_cancel : List (List ℕ) → Outcome Message Bool
  unfolding xor_items is_all_zero
  all_cancel [] = ok true
  all_cancel (indices ∷ solutions) =
      let rest = all_cancel solutions in
      xor_items 0 indices (replicate alg.hash_size 0) >>= λ acc.
      (if is_all_zero acc then rest else ok false)

  unfoldable pub is_none : List (List ℕ) → Bool
  is_none [] = true
  is_none (indices ∷ solutions) = false

  unfoldable pub verify : List (List ℕ) → Outcome Message Bool
  unfolding is_none all_sized all_cancel
  verify solutions =
      if is_none solutions
      then ok true
      else if not (all_sized solutions)
      then ok false
      else all_cancel solutions
