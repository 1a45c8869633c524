-- ===== src/Tromp/Attributes.antt =====
-- The tree attribute of a slot holds the numbers that it is made of.
use requihash.Base.{ℕ, ◌+◌, ◌*◌, ◌/◌, ◌%◌, ◌^◌, ◌<◌, bit_or, ◌≡◌, ap, ◌∙◌, arith}
use requihash.Base.Bits.{bit_or_fields, bit_and_mask}
use requihash.Tromp.{
  nslots_max, nbuckets, tree_from_bid, tree_bucketid, tree_slotid0, tree_slotid1, bucket_of,
}

pub tree_from_bid_lem :
    (bucketid s0 s1 : ℕ)
    → bucketid < nbuckets
    → s0 < nslots_max
    → s1 < nslots_max
    → tree_from_bid bucketid s0 s1 ≡ (bucketid * 64 + s0) * 64 + s1
unfolding tree_from_bid
tree_from_bid_lem bucketid s0 s1 hb h0 h1 =
    let wide : bucketid * 2 ^ 6 % 2 ^ 32 ≡ bucketid * 2 ^ 6 = omega arith in
    let wider : (bucketid * 2 ^ 6 + s0) * 2 ^ 6 % 2 ^ 32 ≡ (bucketid * 2 ^ 6 + s0) * 2 ^ 6 =
      omega arith in
    ap (λ t. bit_or (bit_or t s0 * 2 ^ 6 % 2 ^ 32) s1) wide
    ∙ ap (λ t. bit_or (t * 2 ^ 6 % 2 ^ 32) s1) (bit_or_fields 6 bucketid s0 h0)
    ∙ ap (λ t. bit_or t s1) wider
    ∙ bit_or_fields 6 (bucketid * 2 ^ 6 + s0) s1 h1

-- For a bucket and two slots of the tables, the attribute fits a u32 and gives the three numbers back.
pub tree_round_trip :
    (bucketid s0 s1 : ℕ)
    → bucketid < nbuckets
    → s0 < nslots_max
    → s1 < nslots_max
    → (tree_from_bid bucketid s0 s1 < 2 ^ 32)
      × (tree_bucketid (tree_from_bid bucketid s0 s1) ≡ bucketid)
      × (tree_slotid0 (tree_from_bid bucketid s0 s1) ≡ s0)
      × (tree_slotid1 (tree_from_bid bucketid s0 s1) ≡ s1)
unfolding tree_bucketid tree_slotid0 tree_slotid1
tree_round_trip bucketid s0 s1 hb h0 h1 =
    let e = tree_from_bid_lem bucketid s0 s1 hb h0 h1 in
    let t : ℕ = (bucketid * 64 + s0) * 64 + s1 in
    rw e (
      omega arith,
      omega arith,
      bit_and_mask 6 (t / 64) ∙ omega arith,
      bit_and_mask 6 t ∙ omega arith,
    )

-- Any u32 names a bucket and two slots of the tables.
pub tree_bounds :
    (t : ℕ)
    → t < 2 ^ 32
    → (tree_bucketid t < nbuckets) × (tree_slotid0 t < nslots_max) × (tree_slotid1 t < nslots_max)
unfolding tree_bucketid tree_slotid0 tree_slotid1
tree_bounds t h =
    let low0 = bit_and_mask 6 (t / 64) in
    let low1 = bit_and_mask 6 t in (omega arith, omega arith, omega arith)

-- Twenty bits: two bytes and the high half of a third.
pub bucket_of_lt : (b0 b1 b2 : ℕ) → b0 < 256 → b1 < 256 → b2 < 256 → bucket_of b0 b1 b2 < nbuckets
unfolding bucket_of
bucket_of_lt b0 b1 b2 h0 h1 h2 =
    let wide : b0 * 2 ^ 8 % 2 ^ 32 ≡ b0 * 2 ^ 8 = omega arith in
    let wider : (b0 * 2 ^ 8 + b1) * 2 ^ 4 % 2 ^ 32 ≡ (b0 * 2 ^ 8 + b1) * 2 ^ 4 = omega arith in
    let small : b2 / 2 ^ 4 < 2 ^ 4 = omega arith in
    let value : bit_or (bit_or (b0 * 2 ^ 8 % 2 ^ 32) b1 * 2 ^ 4 % 2 ^ 32) (b2 / 2 ^ 4)
        ≡ (b0 * 2 ^ 8 + b1) * 2 ^ 4 + b2 / 2 ^ 4 =
      ap (λ t. bit_or (bit_or t b1 * 2 ^ 4 % 2 ^ 32) (b2 / 2 ^ 4)) wide
      ∙ ap (λ t. bit_or (t * 2 ^ 4 % 2 ^ 32) (b2 / 2 ^ 4)) (bit_or_fields 8 b0 b1 h1)
      ∙ ap (λ t. bit_or t (b2 / 2 ^ 4)) wider
      ∙ bit_or_fields 4 (b0 * 2 ^ 8 + b1) (b2 / 2 ^ 4) small in
    omega arith
