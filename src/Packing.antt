-- ===== src/Packing.antt =====
-- The bit packing of Req/rust/src/lib.rs: `expand_array`, `compress_array` and the minimal encoding
-- of an index vector.
pub mod Size
pub mod Bytes
pub mod Fields
pub mod Expansion
pub mod Reading
pub mod Octets
pub mod Compression
pub mod Values
pub mod Digits
pub mod RoundTrip
use requihash.Base.{
  ℕ, zero, suc, ◌+◌, ◌-◌, ◌*◌, ◌/◌, ◌%◌, ◌^◌, bit_and, bit_or, leb, ltb, if◌then◌else◌, List, [],
  ◌∷◌, ◌++◌, length, get_or, set, take, drop, replicate,
}
use requihash.Params.{u32}

-- The variables of the loop in `expand_array_into`.
pub record Expand : Type 0 where
  pub acc_bits : ℕ
  pub acc_value : ℕ
  pub j : ℕ
  pub out : List ℕ

-- `(mask >> 8 * s) & 0xFF`, the part of the mask that byte `s` from the right end takes.
unfoldable pub mask_byte : ℕ → ℕ → ℕ
mask_byte bit_len s = bit_and ((2 ^ bit_len - 1) / 2 ^ (8 * s)) 0xFF

-- `for x in 0..byte_pad { out[j + x] = 0 }`, of which `left` rounds are left.
unfoldable pub write_zeros : ℕ → ℕ → List ℕ → List ℕ
write_zeros at zero out = out
write_zeros at (suc left) out = write_zeros (at + 1) left (set out at 0)

-- `for x in byte_pad..out_width`; with `left` rounds left, `out_width - x - 1` is `left - 1`.
unfoldable pub write_value : ℕ → ℕ → ℕ → ℕ → ℕ → List ℕ → List ℕ
write_value bit_len acc bits at zero out = out
write_value bit_len acc bits at (suc left) out =
    write_value bit_len acc bits (at + 1) left
      (set out at (bit_and (acc / 2 ^ (bits + 8 * left)) (mask_byte bit_len left) % 256))

-- One input byte.
unfoldable pub expand_step : ℕ → ℕ → Expand → ℕ → Expand
unfolding write_zeros write_value mask_byte
expand_step bit_len byte_pad s b =
    let width = (bit_len + 7) / 8 in
    let acc = bit_or (u32 (s.acc_value * 2 ^ 8)) b in
    let bits = s.acc_bits + 8 in
    if leb bit_len bits
    then record {
      acc_bits = bits - bit_len;
      acc_value = acc;
      j = s.j + (width + byte_pad);
      out =
          write_value bit_len acc (bits - bit_len) (s.j + byte_pad) width
            (write_zeros s.j byte_pad s.out);
    }
    else record s { acc_bits = bits; acc_value = acc }

unfoldable pub expand_loop : ℕ → ℕ → List ℕ → Expand → Expand
unfolding expand_step
expand_loop bit_len byte_pad [] s = s
expand_loop bit_len byte_pad (b ∷ bs) s =
    expand_loop bit_len byte_pad bs (expand_step bit_len byte_pad s b)

unfoldable pub expand_array_into : List ℕ → List ℕ → ℕ → ℕ → List ℕ
unfolding expand_loop
expand_array_into input out bit_len byte_pad =
    (expand_loop bit_len byte_pad input
      (record { acc_bits = 0; acc_value = 0; j = 0; out = out })).out

unfoldable pub expand_array : List ℕ → ℕ → ℕ → ℕ → List ℕ
unfolding expand_array_into
expand_array input out_len bit_len byte_pad =
    expand_array_into input (replicate out_len 0) bit_len byte_pad

-- The inner loop of `compress_array`, which takes the bytes of a field into the accumulator.
unfoldable pub read_value : ℕ → List ℕ → ℕ → ℕ → ℕ → ℕ
unfolding mask_byte
read_value bit_len input at zero acc = acc
read_value bit_len input at (suc left) acc =
    read_value bit_len input (at + 1) left
      (bit_or acc (u32 (bit_and (get_or input at 0) (mask_byte bit_len left) * 2 ^ (8 * left))))

-- The variables of the loop in `compress_array`; `out` holds the bytes written so far.
pub record Compress : Type 0 where
  pub acc_bits : ℕ
  pub acc_value : ℕ
  pub j : ℕ
  pub out : List ℕ

-- `if acc_bits < 8 { … }`: the next field is taken in.
unfoldable pub refill : ℕ → ℕ → List ℕ → Compress → Compress
unfolding read_value
refill bit_len byte_pad input s =
    let width = (bit_len + 7) / 8 in
    if ltb s.acc_bits 8
    then record s {
      acc_value = read_value bit_len input (s.j + byte_pad) width (u32 (s.acc_value * 2 ^ bit_len));
      j = s.j + (width + byte_pad);
      acc_bits = s.acc_bits + bit_len;
    }
    else s

-- One output byte.
unfoldable pub compress_step : ℕ → ℕ → List ℕ → Compress → Compress
unfolding refill
compress_step bit_len byte_pad input s =
    let r = refill bit_len byte_pad input s in
    record r {
      acc_bits = r.acc_bits - 8;
      out = r.out ++ bit_and (r.acc_value / 2 ^ (r.acc_bits - 8)) 0xFF ∷ [];
    }

unfoldable pub compress_loop : ℕ → ℕ → List ℕ → ℕ → Compress → Compress
unfolding compress_step
compress_loop bit_len byte_pad input zero s = s
compress_loop bit_len byte_pad input (suc left) s =
    compress_loop bit_len byte_pad input left (compress_step bit_len byte_pad input s)

unfoldable pub compress_array : List ℕ → ℕ → ℕ → ℕ → List ℕ
unfolding compress_loop
compress_array input out_len bit_len byte_pad =
    (compress_loop bit_len byte_pad input out_len
      (record { acc_bits = 0; acc_value = 0; j = 0; out = [] })).out

-- `idx.to_be_bytes()`
unfoldable pub be_bytes : ℕ → List ℕ
be_bytes x = (x / 2 ^ 24 % 256) ∷ (x / 2 ^ 16 % 256) ∷ (x / 2 ^ 8 % 256) ∷ (x % 256) ∷ []

-- The array that the loop of `get_minimal_from_indices` fills, four bytes for each index.
unfoldable pub index_array : List ℕ → List ℕ
unfolding be_bytes
index_array [] = []
index_array (x ∷ xs) = be_bytes x ++ index_array xs

unfoldable pub get_minimal_from_indices : List ℕ → ℕ → List ℕ
unfolding compress_array index_array
get_minimal_from_indices indices cbitlen =
    let min_len = (cbitlen + 1) * length indices / 8 in
    let byte_pad = 4 - (cbitlen + 1 + 7) / 8 in
    compress_array (index_array indices) min_len (cbitlen + 1) byte_pad

-- `array.chunks_exact(4).map(u32::from_be_bytes)`
unfoldable pub from_be_chunks : List ℕ → List ℕ
from_be_chunks (a ∷ b ∷ c ∷ d ∷ rest) =
    (a * 2 ^ 24 + b * 2 ^ 16 + c * 2 ^ 8 + d) ∷ from_be_chunks rest
from_be_chunks _ = []

unfoldable pub get_indices_from_minimal : List ℕ → ℕ → List ℕ
unfolding expand_array from_be_chunks
get_indices_from_minimal minimal cbitlen =
    let len_indices = 8 * 4 * length minimal / (cbitlen + 1) in
    let byte_pad = 4 - (cbitlen + 1 + 7) / 8 in
    from_be_chunks (expand_array minimal len_indices (cbitlen + 1) byte_pad)
