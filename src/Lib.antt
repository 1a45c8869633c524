-- ===== src/Lib.antt =====
-- Requihash, the regularity-repaired Equihash proof of work: models of its Rust implementation under
-- Req/rust/src, with proofs.
--
-- The program. A parameter pair (n, k) fixes the sizes. An engine is a BLAKE2b state that has taken
-- the parameters' personalization, the input and the nonce. A leaf is a number below 2^(cbl + 1); its
-- row is the digest of the engine's message with the leaf's list class and counter behind it,
-- expanded into k + 1 segments of whole bytes. A solution is a vector of 2^k different leaves whose
-- rows cancel along a binary tree. Three verifiers check such a vector, the solvers search for all of
-- them, and the minimal encoding puts a vector on the wire.
--
-- The files, and the code they model:
--  * Base, with Base/...: lists over native numbers, Boolean tests, the lexicographic order of slices,
--    bit operations as arithmetic. No code.
--  * Outcome: the result of code that returns `Result` and may panic; `Returns` says that it does neither
--    fail nor panic. Indexing: reads and writes of a slice that panic out of range.
--  * Params: `Params`, `Error`, `Params::new`, `n_bounds`, `valid_n` and the sizes, in Req/rust/src/lib.rs.
--    Params/New is about `new`; Params/Gcd, Params/Bounds and Params/Listing about the range of `n`.
--  * Blake2b: Req/rust/src/blake2b.rs, whole. Blake2b/Streaming is about `update` in pieces,
--    Blake2b/Digest about the length of a digest.
--  * Engine: `Requihash`, its `new`, `leaf_row` and `leaf_row_into`. Engine/Keying has the size of a row,
--    Engine/Message the message that is hashed.
--  * Packing: `expand_array`, `compress_array` and the minimal encoding. Packing/Fields to
--    Packing/Digits give the sequence of bits in between, Packing/RoundTrip the two directions.
--  * Distinct: the tests for repeated indices, which the verifiers and the solvers share.
--  * Verify: `is_valid_solution`, with Verify/Arena and Verify/Early for Req/rust/src/verify/arena.rs and
--    early.rs. Verify/Shrink to Verify/Equivalent compare the three; Verify/Solution says what a
--    solution is, and Verify/Blocks to Verify/Validity compare the verifier with that.
--  * Collisions: one round of the merge, generic in the rows and in what is made of a pair.
--  * Solve: `solve_reference`. Solve/Nodes and Solve/Exact say what it finds.
--  * Solve/Arena: `solve_arena` and `solve_arena_with_leaves`. Collisions/Renaming, Solve/Buffers and
--    Solve/Agree compare them with `solve_reference`.
--  * Solve/Pointer: Req/rust/src/solve/pointer.rs. Solve/Pairs and Solve/Walk compare it with
--    `solve_reference`.
--  * Solve/Bucket: Req/rust/src/solve/bucket.rs. Solve/Counting is about its counting sort, Solve/Grouped
--    about the walk over the buckets, Solve/Laid and Solve/Merged compare a round with a sorted one.
--  * KList: Req/SOLVER_CORPUS/cs-rs/src/lib.rs, the k-list algorithm. KList/Values and KList/Shift are
--    about its big-endian numbers, KList/Keys and KList/Merge about the merge of two lists, KList/New about
--    the constructor, KList/Items about the leaf lists, KList/Tree, KList/Exact and KList/Sound about
--    `solve` and `verify`, KList/Refused about what `new` should have refused.
--  * Khovratovich: Req/SOLVER_CORPUS/rk/src/lib.rs. Khovratovich/Tables, Leaves and Filling are about
--    `fill_memory`, Trees and Merging about the forks and one round, Rounds, Attempts and Search about
--    the loops around them, Checks about `Proof::test`, Overrun about `check_nk`.
--  * Tromp: Req/SOLVER_CORPUS/rz/src/lib.rs, the bucketed solver for n = 144, k = 5. Tromp/Attributes is
--    about the packed references of a slot, Tromp/Digits about the tables, Tromp/Pairs about what is made of two slots,
--    Tromp/Passes about the walk over the buckets, Tromp/Indices about the unfolding of a candidate,
--    Tromp/Leaves and Tromp/Rounds about the steps of the solver, Tromp/Sound about the solver.
--  * Solve/Instrumented: `hash_all_leaves` and `solve_instrumented`, with the times of the clock as arguments.
--  * LeafHash: Req/rust/src/hash/mod.rs and scalar.rs. LeafHash/Batches is about the scalar back end,
--    LeafHash/Choice about the self-test and `autodetect`.
--  * Examples: the theorems at concrete inputs, and tests.
--
-- Conventions. Numbers are native naturals: a `u32` or `u64` operation that can wrap has its
-- remainder written out, bytes are numbers below 256, and an array is a list of its length. Loops over
-- a slice are recursion on the list; counted loops are recursion on the rounds that are left; the loop of
-- `update`, the merge over groups of rows and `gcd` take fuel that is their input's length or number, and every
-- round uses up a part of it. A panic is a value where the code can reach one. `sort_unstable` on
-- numbers is an insertion sort, since equal numbers cannot be told apart; the stable `sort_by` is a
-- stable insertion sort.
--
-- The theorems about an engine hold for every parameter pair. For those that `Params::new` refuses, the
-- code may panic where the model goes on (a division by `k` = 0, a shift by 32 or more), so they say
-- something about the code for accepted pairs only.
--
-- The three solvers under Req/SOLVER_CORPUS take the hash of the blake2b_simd crate as a parameter; what
-- they rely on is that a digest has the length asked for and consists of bytes. Every index of a table
-- is checked, so a result that is returned is one without a panic. The k-list solver's hash may panic,
-- as the crate does for a length outside 1 to 64, and its request for a whole list overflows a 64-bit
-- address space where the source's does; that it returns is shown for `ell` up to 32, which its `new` does
-- not demand, and for digests of a size that the hash gives. Memory is not bounded otherwise, neither for
-- a vector that grows nor for a hash table. Khovratovich's solver is shown to work for parameters that
-- fit: k from 1 to 7 and blocks of 1 to 30 bits. The solver for n = 144, k = 5 has the tables of the source
-- at full size; its loops are counted by the rounds that are left.
--
-- Not modelled: threads, SIMD and file output, which have
-- no result of their own to state, and the vendored libraries. Of the solver for n = 144, k = 5 it is not
-- stated that the rows of a solution cancel.
pub mod Base
pub mod Outcome
pub mod Params
pub mod Blake2b
pub mod Packing
pub mod Engine
pub mod Distinct
pub mod Verify
pub mod Collisions
pub mod Solve
pub mod Indexing
pub mod KList
pub mod Khovratovich
pub mod Tromp
pub mod LeafHash
mod Examples
