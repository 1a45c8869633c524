-- ===== src/Blake2b.antt =====
-- Req/rust/src/blake2b.rs: BLAKE2b with personalization. A `u64` is a number below 2 ^ 64, an array
-- a list of its length, and bytes are numbers below 256.
pub mod Streaming
pub mod Digest
use requihash.Base.{
  ℕ, zero, suc, ◌+◌, ◌-◌, ◌*◌, ◌/◌, ◌%◌, ◌^◌, min, bit_xor, Bool, true, false, ltb, ◌==◌,
  if◌then◌else◌, List, [], ◌∷◌, ◌++◌, map, length, get_or, set, take, drop, replicate,
}

abbrev pub u64 : ℕ → ℕ
u64 x = x % 2 ^ 64

unfoldable pub iv : List ℕ
iv =
    0x6a09e667f3bcc908 ∷ 0xbb67ae8584caa73b ∷ 0x3c6ef372fe94f82b ∷ 0xa54ff53a5f1d36f1
    ∷ 0x510e527fade682d1 ∷ 0x9b05688c2b3e6c1f ∷ 0x1f83d9abfb41bd6b ∷ 0x5be0cd19137e2179 ∷ []

-- The ten rows of the message schedule; rounds 10 and 11 use rows 0 and 1 again.
sigma_row : ℕ → List ℕ
sigma_row r =
    if r == 1
    then 14 ∷ 10 ∷ 4 ∷ 8 ∷ 9 ∷ 15 ∷ 13 ∷ 6 ∷ 1 ∷ 12 ∷ 0 ∷ 2 ∷ 11 ∷ 7 ∷ 5 ∷ 3 ∷ []
    else if r == 2
    then 11 ∷ 8 ∷ 12 ∷ 0 ∷ 5 ∷ 2 ∷ 15 ∷ 13 ∷ 10 ∷ 14 ∷ 3 ∷ 6 ∷ 7 ∷ 1 ∷ 9 ∷ 4 ∷ []
    else if r == 3
    then 7 ∷ 9 ∷ 3 ∷ 1 ∷ 13 ∷ 12 ∷ 11 ∷ 14 ∷ 2 ∷ 6 ∷ 5 ∷ 10 ∷ 4 ∷ 0 ∷ 15 ∷ 8 ∷ []
    else if r == 4
    then 9 ∷ 0 ∷ 5 ∷ 7 ∷ 2 ∷ 4 ∷ 10 ∷ 15 ∷ 14 ∷ 1 ∷ 11 ∷ 12 ∷ 6 ∷ 8 ∷ 3 ∷ 13 ∷ []
    else if r == 5
    then 2 ∷ 12 ∷ 6 ∷ 10 ∷ 0 ∷ 11 ∷ 8 ∷ 3 ∷ 4 ∷ 13 ∷ 7 ∷ 5 ∷ 15 ∷ 14 ∷ 1 ∷ 9 ∷ []
    else if r == 6
    then 12 ∷ 5 ∷ 1 ∷ 15 ∷ 14 ∷ 13 ∷ 4 ∷ 10 ∷ 0 ∷ 7 ∷ 6 ∷ 3 ∷ 9 ∷ 2 ∷ 8 ∷ 11 ∷ []
    else if r == 7
    then 13 ∷ 11 ∷ 7 ∷ 14 ∷ 12 ∷ 1 ∷ 3 ∷ 9 ∷ 5 ∷ 0 ∷ 15 ∷ 4 ∷ 8 ∷ 6 ∷ 2 ∷ 10 ∷ []
    else if r == 8
    then 6 ∷ 15 ∷ 14 ∷ 9 ∷ 11 ∷ 3 ∷ 0 ∷ 8 ∷ 12 ∷ 2 ∷ 13 ∷ 7 ∷ 1 ∷ 4 ∷ 10 ∷ 5 ∷ []
    else if r == 9
    then 10 ∷ 2 ∷ 8 ∷ 4 ∷ 7 ∷ 6 ∷ 1 ∷ 5 ∷ 15 ∷ 11 ∷ 9 ∷ 14 ∷ 3 ∷ 12 ∷ 13 ∷ 0 ∷ []
    else 0 ∷ 1 ∷ 2 ∷ 3 ∷ 4 ∷ 5 ∷ 6 ∷ 7 ∷ 8 ∷ 9 ∷ 10 ∷ 11 ∷ 12 ∷ 13 ∷ 14 ∷ 15 ∷ []

sigma : ℕ → List ℕ
unfolding sigma_row
sigma r = sigma_row (r % 10)

pub record State : Type 0 where
  pub h : List ℕ
  pub t0 : ℕ
  pub t1 : ℕ
  pub buf : List ℕ
  pub buflen : ℕ
  pub outlen : ℕ

-- Eight bytes, the lowest first.
load64 : List ℕ → ℕ
load64 [] = 0
load64 (b ∷ bs) = b + 256 * load64 bs

-- `v.rotate_right(n)` of 64 bits.
rotate_right : ℕ → ℕ → ℕ
rotate_right x n = x / 2 ^ n + u64 (x * 2 ^ (64 - n))

at : List ℕ → ℕ → ℕ
at v i = get_or v i 0

-- One of the two halves of `g!`, which rotate by different amounts.
half_mix : ℕ → ℕ → ℕ → ℕ → ℕ → ℕ → ℕ → List ℕ → List ℕ
unfolding at rotate_right
half_mix word rot_d rot_b a b c d v =
    let v1 = set v a (u64 (u64 (at v a + at v b) + word)) in
    let v2 = set v1 d (rotate_right (bit_xor (at v1 d) (at v1 a)) rot_d) in
    let v3 = set v2 c (u64 (at v2 c + at v2 d)) in
    set v3 b (rotate_right (bit_xor (at v3 b) (at v3 c)) rot_b)

-- The macro `g!`.
mix : ℕ → ℕ → ℕ → ℕ → ℕ → ℕ → List ℕ → List ℕ → List ℕ
unfolding half_mix sigma
mix r i a b c d m v =
    half_mix (at m (at (sigma r) (2 * i + 1))) 16 63 a b c d
      (half_mix (at m (at (sigma r) (2 * i))) 32 24 a b c d v)

mix_round : List ℕ → ℕ → List ℕ → List ℕ
unfolding mix
mix_round m r v = mix r 7 3 4 9 14 m (
    mix r 6 2 7 8 13 m (
      mix r 5 1 6 11 12 m (
        mix r 4 0 5 10 15 m
          (mix r 3 3 7 11 15 m (mix r 2 2 6 10 14 m (mix r 1 1 5 9 13 m (mix r 0 0 4 8 12 m v)))))))

mix_rounds : List ℕ → ℕ → ℕ → List ℕ → List ℕ
unfolding mix_round
mix_rounds m zero r v = v
mix_rounds m (suc left) r v = mix_rounds m left (r + 1) (mix_round m r v)

-- The words of a block: `count` groups of eight bytes.
unfoldable pub words : ℕ → List ℕ → List ℕ
unfolding load64
words zero block = []
words (suc count) block = load64 (take 8 block) ∷ words count (drop 8 block)

-- `s.h[i] ^= v[i] ^ v[8 + i]`
unfoldable pub fold_words : List ℕ → List ℕ → List ℕ → List ℕ
fold_words [] lo hi = []
fold_words (h ∷ hs) [] hi = h ∷ hs
fold_words (h ∷ hs) (l ∷ lo) [] = h ∷ hs
fold_words (h ∷ hs) (l ∷ lo) (u ∷ hi) = bit_xor h (bit_xor l u) ∷ fold_words hs lo hi

unfoldable pub compress : State → List ℕ → Bool → State
unfolding words mix_rounds fold_words iv at
compress s block last =
    let m = words 16 block in
    let v0 = s.h ++ iv in
    let v1 = set v0 12 (bit_xor (at v0 12) s.t0) in
    let v2 = set v1 13 (bit_xor (at v1 13) s.t1) in
    let v3 = if last then set v2 14 (2 ^ 64 - 1 - at v2 14) else v2 in
    let v = mix_rounds m 12 0 v3 in record s { h = fold_words s.h v (drop 8 v) }

unfoldable pub xor_words : List ℕ → List ℕ → List ℕ
xor_words [] ws = []
xor_words (h ∷ hs) [] = h ∷ hs
xor_words (h ∷ hs) (w ∷ ws) = bit_xor h w ∷ xor_words hs ws

-- `init`: the parameter block holds the output length, fanout 1, depth 1 and the personalization.
unfoldable pub init : ℕ → List ℕ → State
unfolding xor_words words iv
init outlen person =
    let block = (outlen % 256) ∷ 0 ∷ 1 ∷ 1 ∷ replicate 44 0 ++ person in
    record {
      h = xor_words iv (words 8 block);
      t0 = 0;
      t1 = 0;
      buf = replicate 128 0;
      buflen = 0;
      outlen = outlen;
    }

-- The 128-bit byte counter.
unfoldable pub count_bytes : ℕ → State → State
count_bytes n s =
    let low = u64 (s.t0 + n) in
    record s { t0 = low; t1 = if ltb low n then u64 (s.t1 + 1) else s.t1 }

-- The `if` at the head of the loop of `update`: a full buffer is compressed.
unfoldable pub flush : State → State
flush s =
    let counted = count_bytes 128 s in
    let packed = compress counted s.buf false in
    if s.buflen == 128 then record packed { buflen = 0 } else s

-- `dst[at..].copy_from_slice(src)`
unfoldable pub copy_from_slice : List ℕ → ℕ → List ℕ → List ℕ
copy_from_slice dst i [] = dst
copy_from_slice dst i (b ∷ bs) = copy_from_slice (set dst i b) (i + 1) bs

-- The rest of the loop's body: what fits is copied behind what the buffer holds.
unfoldable pub fill_buf : State → List ℕ → State
unfolding copy_from_slice
fill_buf s part = record s {
  buf = copy_from_slice s.buf s.buflen part;
  buflen = s.buflen + length part;
}

-- The loop of `update`. Every round takes a byte at least.
unfoldable pub update_loop : ℕ → State → List ℕ → State
update_loop fuel s [] = s
update_loop zero s (b ∷ bs) = s
update_loop (suc fuel) s (b ∷ bs) =
    let s' = flush s in
    let count = min (128 - s'.buflen) (length (b ∷ bs)) in
    update_loop fuel (fill_buf s' (take count (b ∷ bs))) (drop count (b ∷ bs))

unfoldable pub update : State → List ℕ → State
update s input = update_loop (length input) s input

unfoldable pub le64_bytes : ℕ → ℕ → List ℕ
le64_bytes zero x = []
le64_bytes (suc n) x = (x % 256) ∷ le64_bytes n (x / 256)

unfoldable pub digest_bytes : List ℕ → List ℕ
unfolding le64_bytes
digest_bytes [] = []
digest_bytes (h ∷ hs) = le64_bytes 8 h ++ digest_bytes hs

-- `finalize` pads the buffer with zeros, compresses it as the last block, and returns the first
-- `outlen` bytes of the state.
unfoldable pub finalize : State → List ℕ
unfolding count_bytes compress digest_bytes
finalize s =
    let counted = count_bytes s.buflen s in
    let block = take s.buflen s.buf ++ replicate (128 - s.buflen) 0 in
    let last = compress counted block true in take s.outlen (digest_bytes last.h)
