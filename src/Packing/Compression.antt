-- ===== src/Packing/Compression.antt =====
-- The loop of `compress_array` of Req/rust/src/lib.rs writes the octets of the fields that its
-- input holds.
use requihash.Base.{
  ℕ, zero, suc, ◌+◌, ◌-◌, ◌*◌, ◌/◌, ◌%◌, ◌^◌, ◌≤◌, ◌<◌, ltb, ltb-<, ltb-false, ltb-≥, Bool-cases,
  ◌≡◌, refl, sym, ap, ◌∙◌, inl, inr, true, false, List, [], ◌∷◌, ◌++◌, length, drop, drop-drop,
  drop_append, replicate, All, length-replicate, arith,
}
use requihash.Packing.{Compress, refill, compress_loop, compress_array}
use requihash.Packing.Bytes.{be}
use requihash.Packing.Fields.{chunk, chunks, chunks_cons, length-chunk, top_field}
use requihash.Packing.Octets.{
  octets, Narrow, Narrow-taken, Narrow-emitted, held, taken, taken-mod, refill_few, refill_enough,
  emit-byte, step-emit,
}
use native.Mathlib.Nat.{mul-suc}
use native.Mathlib.Decide.{dec_le}
use mathlib.Core.List.{append_assoc, append-nil}

-- The next chunk of the input: where its bytes begin, and what follows it.
next_bytes :
    (w pad j f : ℕ) (input fs : List ℕ)
    → drop j input ≡ chunks w pad (f ∷ fs)
    → drop (j + pad) input ≡ be ((w + 7) / 8) f ++ chunks w pad fs
next_bytes w pad j f input fs e =
    sym (drop-drop j pad input)
    ∙ rw
        (
          e,
          chunks_cons w pad f fs,
          append_assoc (replicate pad 0) (be ((w + 7) / 8) f) (chunks w pad fs),
        )
        (drop_append {A = ℕ} (replicate pad 0) _ pad (sym (length-replicate {A = ℕ} pad 0)))

next_chunks :
    (w pad j f : ℕ) (input fs : List ℕ)
    → drop j input ≡ chunks w pad (f ∷ fs)
    → drop (j + ((w + 7) / 8 + pad)) input ≡ chunks w pad fs
next_chunks w pad j f input fs e =
    sym (drop-drop j ((w + 7) / 8 + pad) input)
    ∙ rw (e, chunks_cons w pad f fs)
        (drop_append (chunk w pad f) _ ((w + 7) / 8 + pad) (omega (arith, length-chunk w pad f)))

pub octets_few :
    (w n bits r f : ℕ) (fs : List ℕ)
    → ltb bits 8 ≡ true
    → octets w (suc n) bits r (f ∷ fs)
      ≡ ((r * 2 ^ w + f) / 2 ^ (bits + w - 8))
        ∷ octets w n (bits + w - 8) ((r * 2 ^ w + f) % 2 ^ (bits + w - 8)) fs
unfolding octets
octets_few w n bits r f fs h = rw h

pub octets_enough :
    (w n bits r : ℕ) (fs : List ℕ)
    → ltb bits 8 ≡ false
    → octets w (suc n) bits r fs
      ≡ (r / 2 ^ (bits - 8)) ∷ octets w n (bits - 8) (r % 2 ^ (bits - 8)) fs
unfolding octets
octets_enough w n bits r [] h = refl
octets_enough w n bits r (f ∷ fs) h = rw h

-- One round, once the accumulator holds eight bits at least.
no_rounds :
    (w pad bits r : ℕ) (input fs : List ℕ) (s : Compress)
    → (compress_loop w pad input zero s).out ≡ s.out ++ octets w zero bits r fs
unfolding compress_loop octets
no_rounds w pad bits r input fs s = sym (append-nil s.out)

room_suc :
    (w n bits m : ℕ) → 8 * suc n ≤ bits + w * suc m → 8 ≤ bits + w → 8 * n ≤ bits + w - 8 + w * m
room_suc w n bits m h left = omega (arith, h, mul-suc w m)

loop-emit :
    (w pad n bits acc r j : ℕ) (input out : List ℕ) (s : Compress)
    → refill w pad input s ≡ held bits acc j out
    → 8 ≤ bits
    → acc % 2 ^ bits ≡ r
    → (compress_loop w pad input (suc n) s).out
      ≡ (compress_loop w pad input n
          (held (bits - 8) acc j (out ++ ((r / 2 ^ (bits - 8)) ∷ [])))).out
unfolding compress_loop
loop-emit w pad n bits acc r j input out s e h low =
    ap (λ (t : Compress). (compress_loop w pad input n t).out)
      (step-emit w pad input s _ e ∙ emit-byte bits acc r j out h low)

compress_loop-octets :
    (w pad n bits r acc j : ℕ) (input fs out : List ℕ)
    → 8 ≤ w
    → Narrow w bits
    → All (λ f. f < 2 ^ w) fs
    → acc % 2 ^ bits ≡ r
    → drop j input ≡ chunks w pad fs
    → 8 * n ≤ bits + w * length fs
    → (compress_loop w pad input n (held bits acc j out)).out ≡ out ++ octets w n bits r fs
compress_loop-octets w pad zero bits r acc j input fs out wide narrow fits low here room =
    no_rounds w pad bits r input fs (held bits acc j out)
compress_loop-octets w pad (suc n) bits r acc j input [] out wide narrow fits low here room =
    let left : 8 ≤ bits = omega arith in
    loop-emit w pad n bits acc r j input out _
      (refill_enough w pad bits acc j input out (ltb-≥ bits 8 left)) left low
    ∙ compress_loop-octets w pad n (bits - 8) (r % 2 ^ (bits - 8)) acc j input [] _ wide
        (Narrow-emitted w bits narrow left) tt (top_field acc 8 bits r left low).1 here
        (omega arith)
    ∙ rw (octets_enough w n bits r [] (ltb-≥ bits 8 left)) (append_assoc out _ _)
compress_loop-octets w pad (suc n) bits r acc j input (f ∷ fs) out wide narrow (fit, fits) low here
      room =
    elim (Bool-cases (ltb bits 8)) [
      | inl few ↦
          let lt = ltb-< bits 8 few in
          let acc' = taken w pad acc j input in
          let r' = r * 2 ^ w + f in
          let low' =
            taken-mod w pad bits acc r j f input (chunks w pad fs) narrow lt fit low
              (next_bytes w pad j f input fs here) in
          let left : 8 ≤ bits + w = omega arith in
          loop-emit w pad n (bits + w) acc' r' (j + ((w + 7) / 8 + pad)) input out _
            (refill_few w pad bits acc j input out few) left low'
          ∙ compress_loop-octets w pad n (bits + w - 8) (r' % 2 ^ (bits + w - 8)) acc'
              (j + ((w + 7) / 8 + pad)) input fs _ wide
              (Narrow-emitted w (bits + w) (Narrow-taken w bits narrow) left) fits
              (top_field acc' 8 (bits + w) r' left low').1 (next_chunks w pad j f input fs here)
              (omega (arith, left, room_suc w n bits (length fs) room left))
          ∙ rw (octets_few w n bits r f fs few) (append_assoc out _ _)
      | inr enough ↦
          let left = ltb-false bits 8 enough in
          loop-emit w pad n bits acc r j input out _
            (refill_enough w pad bits acc j input out enough) left low
          ∙ compress_loop-octets w pad n (bits - 8) (r % 2 ^ (bits - 8)) acc j input (f ∷ fs) _ wide
              (Narrow-emitted w bits narrow left) (fit, fits) (top_field acc 8 bits r left low).1
              here (omega arith)
          ∙ rw (octets_enough w n bits r (f ∷ fs) enough) (append_assoc out _ _)
    ]

-- The whole of `compress_array`: its input holds the fields, and `out_len` bytes of them are
-- written.
pub compress_array-octets :
    (w pad out_len : ℕ) (fs : List ℕ)
    → 8 ≤ w
    → w ≤ 26
    → All (λ f. f < 2 ^ w) fs
    → 8 * out_len ≤ w * length fs
    → compress_array (chunks w pad fs) out_len w pad ≡ octets w out_len 0 0 fs
unfolding compress_array
compress_array-octets w pad out_len fs wide narrow fits room =
    compress_loop-octets w pad out_len 0 0 0 0 (chunks w pad fs) fs [] wide start fits refl refl
      (omega arith)
  where
    start : Narrow w 0
    start = elim (dec_le w 25) [ yes h ↦ inl h | no h ↦ inr (omega arith, refl) ]
