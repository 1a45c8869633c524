-- ===== src/Solve/Bucket.antt =====
-- `BucketSolver` of Req/rust/src/solve/bucket.rs: rows are put into buckets by a counting sort on the
-- first one or two bytes, and neighbours in a bucket are grouped by the whole segment. Row numbers and
-- counts are not cut to 32 bits.
use requihash.Base.{
  ℕ, zero, suc, ◌+◌, ◌-◌, ◌*◌, ◌^◌, min, bit_or, leb, ◌==◌, ◌||◌, list_lt, if◌then◌else◌, Option,
  none, some, List, [], ◌∷◌, ◌++◌, map, length, get_or, set, replicate,
}
use requihash.Params.{collision_bit_length, collision_byte_length}
use requihash.Engine.{Requihash}
use requihash.Distinct.{all_distinct, slices_distinct}
use requihash.Verify.{Row, xor_bytes, all_zero}
use requihash.Verify.Arena.{slice}
use requihash.Verify.Flat.{flat}
use requihash.Collisions.{merge_groups}
use requihash.Solve.Arena.{range, fill_leaves}

pub record Buckets : Type 0 where
  pub hashes : List ℕ
  pub idxs : List (List ℕ)
  pub stride : ℕ
  pub nrows : ℕ

-- `bkey(r)`
unfoldable pub bkey : ℕ → Buckets → ℕ → ℕ
bkey key_bytes s r =
    let base = r * s.stride in
    if key_bytes == 1
    then get_or s.hashes base 0
    else bit_or (get_or s.hashes base 0 * 2 ^ 8) (get_or s.hashes (base + 1) 0)

-- `for r in 0..nrows { counts[bkey(r) + 1] += 1 }`
unfoldable pub count_rows : (ℕ → ℕ) → List ℕ → List ℕ → List ℕ
count_rows bkey [] counts = counts
count_rows bkey (r ∷ rs) counts =
    count_rows bkey rs (set counts (bkey r + 1) (get_or counts (bkey r + 1) 0 + 1))

-- `for b in 0..nbuckets { counts[b + 1] += counts[b] }`, with `left` buckets from `b` on.
unfoldable pub prefix_sums : ℕ → ℕ → List ℕ → List ℕ
prefix_sums b zero counts = counts
prefix_sums b (suc left) counts =
    prefix_sums (b + 1) left (set counts (b + 1) (get_or counts (b + 1) 0 + get_or counts b 0))

-- The loop that fills `order`.
unfoldable pub scatter : (ℕ → ℕ) → List ℕ → List ℕ → List ℕ → List ℕ
scatter bkey [] cursor order = order
scatter bkey (r ∷ rs) cursor order =
    let b = bkey r in
    scatter bkey rs (set cursor b (get_or cursor b 0 + 1)) (set order (get_or cursor b 0) r)

-- `while b < nbuckets`, with `left` buckets from `b` on.
unfoldable pub walk {ℓ} :
    {B : Type ℓ} → (ℕ → ℕ → Option B) → (ℕ → List ℕ) → List ℕ → List ℕ → ℕ → ℕ → List B
walk merge key counts order b zero = []
walk merge key counts order b (suc left) =
    let lo = get_or counts b 0 in
    let hi = get_or counts (b + 1) 0 in
    let more = walk merge key counts order (b + 1) left in
    if leb 2 (hi - lo)
    then merge_groups merge key (hi - lo) (slice order lo (hi - lo)) ++ more
    else more

-- The counting sort of the rows `0..nrows`, and the walk over its buckets.
unfoldable pub bucket_round {ℓ} :
    {B : Type ℓ} → (ℕ → ℕ → Option B) → (ℕ → List ℕ) → (ℕ → ℕ) → ℕ → ℕ → List B
unfolding count_rows prefix_sums scatter walk
bucket_round merge key bkey nbuckets nrows =
    let rows = range 0 nrows in
    let counts = prefix_sums 0 nbuckets (count_rows bkey rows (replicate (nbuckets + 1) 0)) in
    walk merge key counts (scatter bkey rows counts (replicate nrows 0)) 0 nbuckets

-- What a pair of rows appends.
unfoldable pub merge_bucketed : ℕ → Buckets → ℕ → ℕ → Option Row
merge_bucketed cbyte s ra rc =
    let ia = get_or s.idxs ra [] in
    let ic = get_or s.idxs rc [] in
    if slices_distinct ia ic
    then some (record {
      h =
          xor_bytes (slice s.hashes (ra * s.stride + cbyte) (s.stride - cbyte))
            (slice s.hashes (rc * s.stride + cbyte) (s.stride - cbyte));
      idx = if list_lt ia ic then ia ++ ic else ic ++ ia;
    })
    else none

-- The body of `for _round in 1..=k`.
unfoldable pub merge_buckets : ℕ → Buckets → Buckets
unfolding bkey bucket_round merge_bucketed
merge_buckets cbyte s =
    let key_bytes = min cbyte 2 in
    let out =
      bucket_round (merge_bucketed cbyte s) (λ r. slice s.hashes (r * s.stride) cbyte)
        (bkey key_bytes s) (2 ^ (8 * key_bytes)) s.nrows in
    record {
      hashes = flat (map (λ (r : Row). r.h) out);
      idxs = map (λ (r : Row). r.idx) out;
      stride = s.stride - cbyte;
      nrows = length out;
    }

unfoldable pub bucket_rounds : ℕ → ℕ → Buckets → Buckets
unfolding merge_buckets
bucket_rounds cbyte zero s = s
bucket_rounds cbyte (suc left) s =
    let s' = merge_buckets cbyte s in
    let rest = bucket_rounds cbyte left s' in if s'.nrows == 0 then s' else rest

-- `for r in 0..nrows`, with `left` rows from `r` on.
unfoldable pub bucket_solutions : Buckets → ℕ → ℕ → List (List ℕ)
bucket_solutions s r zero = []
bucket_solutions s r (suc left) =
    let zero_row = s.stride == 0 || all_zero (slice s.hashes (r * s.stride) s.stride) in
    let idx = get_or s.idxs r [] in
    let rest = bucket_solutions s (r + 1) left in
    if zero_row then (if all_distinct idx then idx ∷ rest else rest) else rest

-- `BucketSolver::solve`
unfoldable pub solve_bucket : Requihash → List (List ℕ)
unfolding bucket_rounds bucket_solutions
solve_bucket e =
    let cbyte = collision_byte_length e.p in
    let full = (e.p.k + 1) * cbyte in
    let init = 2 ^ (collision_bit_length e.p + 1) in
    let s = bucket_rounds cbyte e.p.k (record {
      hashes = fill_leaves e full 0 init (replicate (init * full) 0);
      idxs = map (λ leaf. leaf ∷ []) (range 0 init);
      stride = full;
      nrows = init;
    }) in
    bucket_solutions s 0 s.nrows
