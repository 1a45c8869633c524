-- ===== src/Khovratovich.antt =====
-- Req/SOLVER_CORPUS/rk/src/lib.rs: Khovratovich's solver. BLAKE2b-256 of blake2b_simd is a parameter,
-- `hash message`, which gives 32 bytes.
pub mod Tables
pub mod Leaves
pub mod Filling
pub mod Trees
pub mod Merging
pub mod Rounds
pub mod Attempts
pub mod Checks
pub mod Search
pub mod Overrun
use requihash.Base.{
  ℕ, zero, suc, ◌+◌, ◌-◌, ◌*◌, ◌/◌, ◌%◌, ◌^◌, bit_xor, Bool, true, false, not, ◌&&◌, ◌||◌, ltb,
  ◌==◌, if◌then◌else◌, Option, none, some, List, [], ◌∷◌, ◌++◌, length, get_or, replicate,
}
use requihash.Outcome.{Outcome, ok, err, panic, ◌>>=◌}
use requihash.Indexing.{read, write, update_at}
use requihash.Engine.{le_bytes}
use requihash.Distinct.{sort_unstable}

abbrev pub max_nonce : ℕ
max_nonce = 0xFFFFF

abbrev pub list_length : ℕ
list_length = 5

abbrev pub fork_multiplier : ℕ
fork_multiplier = 3

-- `Seed::from_u32`; a seed is a list of four words.
unfoldable pub from_u32 : ℕ → List ℕ
from_u32 x = replicate 4 x

pub record Proof : Type 0 where
  pub n : ℕ
  pub k : ℕ
  pub seed : List ℕ
  pub nonce : ℕ
  pub inputs : List ℕ

pub record Tuple : Type 0 where
  pub blocks : List ℕ
  pub reference : ℕ

pub record Fork : Type 0 where
  pub ref1 : ℕ
  pub ref2 : ℕ

unfoldable pub new_tuple : ℕ → Tuple
new_tuple len = record { blocks = replicate len 0; reference = 0 }

unfoldable pub default_fork : Fork
default_fork = record { ref1 = 0; ref2 = 0 }

-- The messages of `check_nk`, with the numbers that they print.
pub data Refusal : Type 0 where
  k_below_1 : Refusal
  not_divisible : ℕ → ℕ → Refusal
  ell_above_32 : ℕ → Refusal

unfoldable pub check_nk : ℕ → ℕ → Outcome Refusal (Unit {0})
check_nk n k =
    let parts = (k + 1) % 2 ^ 32 in
    if ltb k 1
    then err k_below_1
    else if parts == 0
    then panic
    else if not (n % parts == 0)
    then err (not_divisible parts n)
    else if ltb 32 (n / parts)
    then err (ell_above_32 (n / parts))
    else ok tt

-- `x >> (32 - bits)` on a u32: the amount wraps, and its low five bits count.
unfoldable pub top_bits : ℕ → ℕ → ℕ
top_bits bits x = x / 2 ^ ((32 + 2 ^ 32 - bits) % 2 ^ 32 % 32)

-- `n / (k + 1)`
unfoldable pub block_bits : ℕ → ℕ → ℕ
block_bits n k = n / ((k + 1) % 2 ^ 32)

unfoldable pub seed_bytes : List ℕ → List ℕ
unfolding le_bytes
seed_bytes [] = []
seed_bytes (word ∷ seed) = le_bytes word ++ seed_bytes seed

-- `u32::from_le_bytes` of the four bytes from `at` on.
unfoldable pub le_word : List ℕ → ℕ → ℕ
le_word bytes at =
    get_or bytes at 0
    + get_or bytes (at + 1) 0 * 2 ^ 8
    + get_or bytes (at + 2) 0 * 2 ^ 16
    + get_or bytes (at + 3) 0 * 2 ^ 24

unfoldable pub le_words : List ℕ → ℕ → ℕ → List ℕ
unfolding le_word
le_words bytes i zero = []
le_words bytes i (suc left) = le_word bytes (i * 4) ∷ le_words bytes (i + 1) left

-- `for (j, block) in blocks.iter_mut().enumerate()`
unfoldable pub xor_leaf : ℕ → List ℕ → ℕ → List ℕ → Outcome Refusal (List ℕ)
unfolding top_bits
xor_leaf bits buf j [] = ok []
xor_leaf bits buf j (block ∷ blocks) = do
  word ← read buf j
  rest ← xor_leaf bits buf (j + 1) blocks
  ok (bit_xor block (top_bits bits word) ∷ rest)

unfoldable pub blocks_zero : List ℕ → Bool
blocks_zero [] = true
blocks_zero (b ∷ blocks) = b == 0 && blocks_zero blocks

unfoldable pub no_inputs : List ℕ → Bool
no_inputs [] = true
no_inputs (x ∷ inputs) = false

-- `for j in 1..(k + 1)`: the blocks of a tuple, with the rounds that are left.
unfoldable pub fill_blocks : ℕ → List ℕ → ℕ → ℕ → Tuple → Outcome Refusal Tuple
unfolding top_bits
fill_blocks bits buf j zero tuple = ok tuple
fill_blocks bits buf j (suc left) tuple = do
  word ← read buf j
  blocks ← write tuple.blocks (j - 1) (top_bits bits word)
  fill_blocks bits buf (j + 1) left (record tuple { blocks = blocks })

-- `for l in 0..new_blocks`
unfoldable pub xor_blocks : Tuple → Tuple → ℕ → ℕ → Tuple → Outcome Refusal Tuple
xor_blocks a b l zero tuple = ok tuple
xor_blocks a b l (suc left) tuple = do
  x ← read a.blocks (l + 1)
  y ← read b.blocks (l + 1)
  blocks ← write tuple.blocks l (bit_xor x y)
  xor_blocks a b (l + 1) left (record tuple { blocks = blocks })

pub record Equihash : Type 0 where
  pub tuple_list : List (List Tuple)
  pub filled_list : List ℕ
  pub solutions : List Proof
  pub forks : List (List Fork)
  pub n : ℕ
  pub k : ℕ
  pub seed : List ℕ
  pub nonce : ℕ

unfoldable pub new : ℕ → ℕ → List ℕ → Equihash
new n k seed = record {
  tuple_list = [];
  filled_list = [];
  solutions = [];
  forks = [];
  n = n;
  k = k;
  seed = seed;
  nonce = 0;
}

unfoldable pub initialize_memory : Equihash → Equihash
initialize_memory eq =
    let tuple_n = 2 ^ (block_bits eq.n eq.k % 64) in
    record eq {
      tuple_list = replicate tuple_n (replicate list_length (new_tuple eq.k));
      filled_list = replicate tuple_n 0;
      solutions = [];
      forks = [];
    }

unfoldable pub resolve_tree_by_level : List (List Fork) → Fork → ℕ → Outcome Refusal (List ℕ)
resolve_tree_by_level forks fork zero = ok (fork.ref1 ∷ fork.ref2 ∷ [])
resolve_tree_by_level forks fork (suc level) = do
  row1 ← read forks level
  fork1 ← read row1 fork.ref1
  v1 ← resolve_tree_by_level forks fork1 level
  row2 ← read forks level
  fork2 ← read row2 fork.ref2
  v2 ← resolve_tree_by_level forks fork2 level
  ok (v1 ++ v2)

unfoldable pub resolve_tree : List (List Fork) → Fork → Outcome Refusal (List ℕ)
unfolding resolve_tree_by_level
resolve_tree forks fork = resolve_tree_by_level forks fork (length forks)

-- What a round of `resolve_collisions` changes.
pub record Round : Type 0 where
  pub new_forks : List Fork
  pub collision_list : List (List Tuple)
  pub new_filled_list : List ℕ
  pub new_colls : ℕ
  pub solutions : List Proof

-- The last step of a pair: a proof, where the last blocks are equal.
unfoldable pub keep_solution : Equihash → ℕ → Fork → Round → Outcome Refusal Round
keep_solution eq new_index fork round =
    if new_index == 0
    then (do
      inputs ← resolve_tree eq.forks fork
      ok (record round {
        solutions =
            round.solutions
            ++ record { n = eq.n; k = eq.k; seed = eq.seed; nonce = eq.nonce; inputs = inputs }
              ∷ [];
      }))
    else ok round

-- The merged row, in its bucket.
unfoldable pub store_pair : ℕ → Tuple → Tuple → ℕ → ℕ → Round → Outcome Refusal Round
store_pair new_blocks a b new_index count round = do
  list ← update_at round.collision_list new_index count (λ tuple. do
    merged ← xor_blocks a b 0 new_blocks tuple
    ok (record merged { reference = round.new_colls % 2 ^ 32 }))
  forks ← write round.new_forks round.new_colls (record { ref1 = a.reference; ref2 = b.reference })
  filled ← write round.new_filled_list new_index (count + 1)
  ok (record round {
    new_forks = forks;
    collision_list = list;
    new_filled_list = filled;
    new_colls = round.new_colls + 1;
  })

unfoldable pub keep_pair : ℕ → ℕ → Tuple → Tuple → ℕ → Round → Outcome Refusal Round
keep_pair max_new_collisions new_blocks a b new_index round = do
  count ← read round.new_filled_list new_index
  (if ltb count list_length && ltb round.new_colls max_new_collisions
      then store_pair new_blocks a b new_index count round
      else ok round)

module _ (eq : Equihash) (store : Bool) (max_new_collisions new_blocks : ℕ) where
  unfoldable pub pair_step : ℕ → ℕ → ℕ → Round → Outcome Refusal Round
  pair_step i j m round = do
    row ← read eq.tuple_list i
    a ← read row j
    b ← read row m
    x ← read a.blocks 0
    y ← read b.blocks 0
    (if store
        then keep_solution eq (bit_xor x y) (record { ref1 = a.reference; ref2 = b.reference })
            round
        else keep_pair max_new_collisions new_blocks a b (bit_xor x y) round)

  -- `for m in (j + 1)..filled`, with the rounds that are left.
  unfoldable pub later_loop : ℕ → ℕ → ℕ → ℕ → Round → Outcome Refusal Round
  later_loop i j m zero round = ok round
  later_loop i j m (suc left) round =
      pair_step i j m round >>= λ next. later_loop i j (m + 1) left next

  -- `for j in 0..filled`
  unfoldable pub first_loop : ℕ → ℕ → ℕ → ℕ → Round → Outcome Refusal Round
  first_loop i filled j zero round = ok round
  first_loop i filled j (suc left) round =
      later_loop i j (j + 1) (filled - (j + 1)) round >>= λ next.
      first_loop i filled (j + 1) left next

  -- `for i in 0..table_length`
  unfoldable pub bucket_loop : ℕ → ℕ → Round → Outcome Refusal Round
  bucket_loop i zero round = ok round
  bucket_loop i (suc left) round = do
    filled ← read eq.filled_list i
    next ← first_loop i filled 0 filled round
    bucket_loop (i + 1) left next

-- `blocks.len() - 1` of the first tuple; the vectors of a wrapped length cannot be allocated.
unfoldable pub blocks_left : List ℕ → Outcome Refusal ℕ
blocks_left [] = panic
blocks_left (b ∷ blocks) = ok (length blocks)

unfoldable pub resolve_collisions : Equihash → Bool → Outcome Refusal Equihash
resolve_collisions eq store =
    let table_length = length eq.tuple_list in
    let max_new_collisions = table_length * fork_multiplier in
    do
      row ← read eq.tuple_list 0
      first ← read row 0
      new_blocks ← blocks_left first.blocks
      round ← bucket_loop eq store max_new_collisions new_blocks 0 table_length (record {
        new_forks = replicate max_new_collisions default_fork;
        collision_list = replicate table_length (replicate list_length (new_tuple new_blocks));
        new_filled_list = replicate table_length 0;
        new_colls = 0;
        solutions = eq.solutions;
      })
      ok (record eq {
        forks = eq.forks ++ round.new_forks ∷ [];
        tuple_list = round.collision_list;
        filled_list = round.new_filled_list;
        solutions = round.solutions;
      })

-- `for i in 1..=self.k`, with the rounds that are left.
unfoldable pub rounds_from : ℕ → ℕ → Equihash → Outcome Refusal Equihash
rounds_from i zero eq = ok eq
rounds_from i (suc left) eq =
    resolve_collisions eq (i == eq.k) >>= λ next. rounds_from (i + 1) left next

-- `vec.windows(2).any(|w| w[0] == w[1])`
unfoldable pub has_repeat : List ℕ → Bool
has_repeat (x ∷ y ∷ rest) = x == y || has_repeat (y ∷ rest)
has_repeat _ = false

-- `for sol in &self.solutions`
unfoldable pub first_distinct : List Proof → Option Proof
first_distinct [] = none
first_distinct (sol ∷ solutions) =
    if has_repeat (sort_unstable sol.inputs) then first_distinct solutions else some sol

-- The tuple of a leaf, in its bucket.
unfoldable pub store_leaf : List ℕ → ℕ → ℕ → ℕ → Equihash → Outcome Refusal Equihash
unfolding fill_blocks block_bits
store_leaf buf index count i eq = do
  list ← update_at eq.tuple_list index count (λ tuple. do
    filled ← fill_blocks (block_bits eq.n eq.k) buf 1 eq.k tuple
    ok (record filled { reference = i }))
  filled_list ← write eq.filled_list index (count + 1)
  ok (record eq { tuple_list = list; filled_list = filled_list })

module _ (hash : List ℕ → List ℕ) where
  unfoldable pub hash_leaf : List ℕ → ℕ → ℕ → List ℕ
  unfolding seed_bytes le_words
  hash_leaf seed nonce leaf =
      le_words (hash (seed_bytes seed ++ (le_bytes nonce ++ le_bytes leaf))) 0 8

  -- `for &leaf in &self.inputs`
  unfoldable pub xor_leaves : Proof → ℕ → List ℕ → List ℕ → Outcome Refusal (List ℕ)
  xor_leaves proof bits [] blocks = ok blocks
  xor_leaves proof bits (leaf ∷ inputs) blocks =
      xor_leaf bits (hash_leaf proof.seed proof.nonce leaf) 0 blocks >>= λ next.
      xor_leaves proof bits inputs next

  -- `Proof::test`
  unfoldable pub test : Proof → Outcome Refusal Bool
  test proof = do
    blocks ←
        xor_leaves proof (block_bits proof.n proof.k) proof.inputs
          (replicate ((proof.k + 1) % 2 ^ 32) 0)
    ok (blocks_zero blocks && not (no_inputs proof.inputs))

  unfoldable pub fill_leaf : ℕ → Equihash → Outcome Refusal Equihash
  fill_leaf i eq =
      let buf = hash_leaf eq.seed eq.nonce i in
      do
        word ← read buf 0
        let index = top_bits (block_bits eq.n eq.k) word
        count ← read eq.filled_list index
        (if ltb count list_length then store_leaf buf index count i eq else ok eq)

  -- `for i in 0..length`, with the rounds that are left.
  unfoldable pub fill_memory : ℕ → ℕ → Equihash → Outcome Refusal Equihash
  fill_memory i zero eq = ok eq
  fill_memory i (suc left) eq = fill_leaf i eq >>= λ next. fill_memory (i + 1) left next

  -- `single_attempt`, and the body of the loop of `find_proof` up to its test.
  unfoldable pub single_attempt : ℕ → Equihash → Outcome Refusal Equihash
  single_attempt nonce eq =
      let bits = block_bits eq.n eq.k in
      let length = 4 * 2 ^ ((bits + 2 ^ 32 - 1) % 2 ^ 32 % 32) % 2 ^ 32 in
      do
        filled ← fill_memory 0 length (initialize_memory (record eq { nonce = nonce }))
        rounds_from 1 eq.k filled

  -- `while self.nonce < MAX_NONCE`, with the rounds that are left.
  unfoldable pub nonce_loop : ℕ → Equihash → Outcome Refusal Proof
  nonce_loop zero eq =
      ok (record { n = eq.n; k = eq.k; seed = eq.seed; nonce = eq.nonce; inputs = [] })
  nonce_loop (suc left) eq = single_attempt (eq.nonce + 1) eq >>= λ next.
      elim (first_distinct next.solutions) [ some sol ↦ ok sol | none ↦ nonce_loop left next ]

  unfoldable pub find_proof : Equihash → Outcome Refusal Proof
  find_proof eq = nonce_loop (max_nonce - 1) (record eq { nonce = 1 })
