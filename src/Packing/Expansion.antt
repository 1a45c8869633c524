-- ===== src/Packing/Expansion.antt =====
-- `expand_array` of Req/rust/src/lib.rs writes one chunk for each field of its input.
use requihash.Base.{
  ℕ, ◌+◌, ◌-◌, ◌*◌, ◌/◌, ◌%◌, ◌^◌, ◌≤◌, ◌<◌, bit_or, leb, leb-≤, leb-false, Bool-cases, ◌≡◌, refl,
  ap, ◌∙◌, inl, inr, true, false, List, [], ◌∷◌, ◌++◌, length, drop, replicate, All, length-append,
  length-replicate, length-drop, drop-drop, drop_all, arith,
}
use requihash.Params.{u32}
use requihash.Packing.{
  Expand, write_zeros, write_value, expand_step, expand_loop, expand_array_into, expand_array,
}
use requihash.Packing.Bytes.{be, write_zeros-append, write_value-append}
use native.Mathlib.Decide.{dec_le}
use mathlib.Core.List.{append_assoc, append-nil}
use requihash.Packing.Fields.{
  fields, Held, Held-room, Held-next, Held-more, shift_in, chunk, chunks, length-chunk, top_field,
  length-chunks_cons, append-chunks_cons, no_fields, fields_full, fields_more,
}

-- `write_zeros` and `write_value` together write one chunk.
write_chunk :
    (w pad acc bits j : ℕ) (done rest : List ℕ)
    → j ≡ length done
    → pad + (w + 7) / 8 ≤ length rest
    → write_value w acc bits (j + pad) ((w + 7) / 8) (write_zeros j pad (done ++ rest))
      ≡ (done ++ chunk w pad (acc / 2 ^ bits % 2 ^ w)) ++ drop (pad + (w + 7) / 8) rest
write_chunk w pad acc bits j done rest e room =
    let f = acc / 2 ^ bits % 2 ^ w in
    rw (write_zeros-append j pad done rest e (omega arith)) (
      write_value-append w acc bits (j + pad) ((w + 7) / 8) (done ++ replicate pad 0)
        (drop pad rest)
        (omega (arith, length-append done (replicate pad 0), length-replicate {A = ℕ} pad 0))
        (omega (arith, length-drop pad rest)) (omega arith)
      ∙ rw (
        append_assoc done (replicate pad 0) (be ((w + 7) / 8) f),
        drop-drop pad ((w + 7) / 8) rest,
      ))

abbrev state : ℕ → ℕ → ℕ → List ℕ → Expand
state bits acc j out = record { acc_bits = bits; acc_value = acc; j = j; out = out }

abbrev shifted : ℕ → ℕ → ℕ
shifted acc b = bit_or (u32 (acc * 2 ^ 8)) b

step_full :
    (w pad bits acc j b : ℕ) (out : List ℕ)
    → leb w (bits + 8) ≡ true
    → expand_step w pad (state bits acc j out) b
      ≡ state (bits + 8 - w) (shifted acc b) (j + ((w + 7) / 8 + pad)) (
          write_value w
            (shifted acc b)
            (bits + 8 - w)
            (j + pad)
            ((w + 7) / 8)
            (write_zeros j pad out))
unfolding expand_step
step_full w pad bits acc j b out h = rw h

step_more :
    (w pad bits acc j b : ℕ) (out : List ℕ)
    → leb w (bits + 8) ≡ false
    → expand_step w pad (state bits acc j out) b ≡ state (bits + 8) (shifted acc b) j out
unfolding expand_step
step_more w pad bits acc j b out h = rw h

expand_loop-fields :
    (w pad bits r acc j : ℕ) (bs done rest : List ℕ)
    → 8 ≤ w
    → Held w bits
    → All (λ b. b < 256) bs
    → acc % 2 ^ bits ≡ r
    → j ≡ length done
    → length (chunks w pad (fields w bits r bs)) ≤ length rest
    → (expand_loop w pad bs (state bits acc j (done ++ rest))).out
      ≡ (done ++ chunks w pad (fields w bits r bs))
        ++ drop (length (chunks w pad (fields w bits r bs))) rest
unfolding expand_loop
expand_loop-fields w pad bits r acc j [] done rest wide held all low e room =
    rw (no_fields w pad bits r, append-nil)
expand_loop-fields w pad bits r acc j (b ∷ bs) done rest wide held (small, all) low e room =
    let acc' = shifted acc b in
    let r' = r * 256 + b in
    let low' = shift_in acc bits r b (Held-room w bits held) small low in
    elim (Bool-cases (leb w (bits + 8))) [
      | inl full ↦
          let over = leb-≤ w (bits + 8) full in
          let b'' = bits + 8 - w in
          let (here, below) = top_field acc' w (bits + 8) r' (omega arith) low' in
          let f = r' / 2 ^ b'' in
          let fs = fields w b'' (r' % 2 ^ b'') bs in
          let size = length-chunks_cons w pad f fs in
          let room' : length (chunks w pad (f ∷ fs)) ≤ length rest =
            rw (← fields_full w bits r b bs full) room in
          ap (λ (t : Expand). (expand_loop w pad bs t).out)
            (step_full w pad bits acc j b (done ++ rest) full
              ∙ ap (state b'' acc' (j + ((w + 7) / 8 + pad))) (
                  write_chunk w pad acc' b'' j done rest e (omega (arith, size, room'))
                  ∙ ap (λ t. (done ++ chunk w pad t) ++ drop (pad + (w + 7) / 8) rest) here))
          ∙ rw (fields_full w bits r b bs full) (
              expand_loop-fields w pad b'' (r' % 2 ^ b'') acc' (j + ((w + 7) / 8 + pad)) bs
                (done ++ chunk w pad f) (drop (pad + (w + 7) / 8) rest) wide
                (Held-next w bits wide held (omega arith)) all below
                (omega (arith, length-append done (chunk w pad f), length-chunk w pad f))
                (omega (arith, size, room', length-drop (pad + (w + 7) / 8) rest))
              ∙ append-chunks_cons w pad f fs done rest)
      | inr more ↦
          ap (λ (t : Expand). (expand_loop w pad bs t).out)
            (step_more w pad bits acc j b (done ++ rest) more)
          ∙ rw (fields_more w bits r b bs more) (
              expand_loop-fields w pad (bits + 8) r' acc' j bs done rest wide
                (Held-more w bits held (leb-false w (bits + 8) more)) all low' e
                (rw (← fields_more w bits r b bs more) room))
    ]

-- The expansion of a whole array: it reads the fields, and stores each in its chunk.
pub expand_array-fields :
    (input : List ℕ) (out_len w pad : ℕ)
    → 8 ≤ w
    → w ≤ 26
    → All (λ b. b < 256) input
    → out_len ≡ length (chunks w pad (fields w 0 0 input))
    → expand_array input out_len w pad ≡ chunks w pad (fields w 0 0 input)
unfolding expand_array expand_array_into
expand_array-fields input out_len w pad wide narrow small size =
    let fs = chunks w pad (fields w 0 0 input) in
    let room = length-replicate {A = ℕ} out_len 0 in
    expand_loop-fields w pad 0 0 0 0 input [] (replicate out_len 0) wide held small refl refl
      (omega (arith, room, size))
    ∙ rw
        (drop_all {A = ℕ} (length fs) (replicate out_len 0) (omega (arith, room, size)), append-nil)
  where
    held : Held w 0
    held = (omega arith, elim (dec_le w 25) [ yes h ↦ inl h | no h ↦ inr (omega arith, refl) ])
