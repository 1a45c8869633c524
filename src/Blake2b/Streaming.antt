-- ===== src/Blake2b/Streaming.antt =====
-- `update` of Req/rust/src/blake2b.rs takes a message in pieces.
use requihash.Base.{
  ℕ, zero, suc, ◌+◌, ◌-◌, ◌≤◌, ◌<◌, min, ◌==◌, ◌≡◌, refl, sym, ap, ◌∙◌, false, Bool-cases, inl, inr,
  List, [], ◌∷◌, ◌++◌, length, length-append, length-take, length-drop, set, take, drop,
  take-append-drop, arith,
}
use requihash.Blake2b.{State, flush, copy_from_slice, fill_buf, update_loop, update}
use mathlib.Core.List.{append_assoc, append-nil}

-- One byte at a time.
push : State → ℕ → State
push s b = fill_buf (flush s) (b ∷ [])

pushes : State → List ℕ → State
pushes s [] = s
pushes s (b ∷ bs) = pushes (push s b) bs

copy-append :
    (dst : List ℕ) (i : ℕ) (p q : List ℕ)
    → copy_from_slice (copy_from_slice dst i p) (i + length p) q ≡ copy_from_slice dst i (p ++ q)
unfolding copy_from_slice
copy-append dst i [] q = ap (λ n. copy_from_slice dst n q) {x = i + 0} {y = i} (omega arith)
copy-append dst i (b ∷ p) q =
    ap (λ n. copy_from_slice (copy_from_slice (set dst i b) (i + 1) p) n q) {x = i + suc (length p)}
      {y = i + 1 + length p} (omega arith)
    ∙ copy-append (set dst i b) (i + 1) p q

fill_buf-append : (s : State) (p q : List ℕ) → fill_buf (fill_buf s p) q ≡ fill_buf s (p ++ q)
unfolding fill_buf
fill_buf-append s p q =
    let e : s.buflen + length p + length q ≡ s.buflen + length (p ++ q) =
      omega (arith, length-append p q) in
    rw (copy-append s.buf s.buflen p q, e)

flush_room : (s : State) → s.buflen < 128 → flush s ≡ s
unfolding flush
flush_room s h = rw (not_full s.buflen h)
  where
    not_full : (n : ℕ) → n < 128 → (n == 128) ≡ false
    not_full n h = ground arith

buflen-flush : (s : State) → s.buflen ≤ 128 → (flush s).buflen < 128
unfolding flush
buflen-flush s h = elim (Bool-cases (s.buflen == 128)) [
  | inl full ↦ rw full (omega arith)
  | inr room ↦ rw room (below s.buflen h room)
]
  where
    below : (n : ℕ) → n ≤ 128 → (n == 128) ≡ false → n < 128
    below n h e = ground arith

buflen-fill_buf : (s : State) (p : List ℕ) → (fill_buf s p).buflen ≡ s.buflen + length p
unfolding fill_buf
buflen-fill_buf s p = refl

-- A part that fits behind what the buffer holds, byte by byte.
pushes-fill_buf :
    (s : State) (done p rest : List ℕ)
    → 0 < length done
    → s.buflen + length done + length p ≤ 128
    → pushes (fill_buf s done) (p ++ rest) ≡ pushes (fill_buf s (done ++ p)) rest
unfolding pushes push
pushes-fill_buf s done [] rest some fits =
    ap (λ t. pushes (fill_buf s t) rest) (sym (append-nil done))
pushes-fill_buf s done (b ∷ p) rest some fits =
    let room : (fill_buf s done).buflen < 128 = omega (arith, buflen-fill_buf s done) in
    let one = length-append done (b ∷ []) in
    ap (λ (t : State). pushes (fill_buf t (b ∷ [])) (p ++ rest)) (flush_room (fill_buf s done) room)
    ∙ ap (λ (t : State). pushes t (p ++ rest)) (fill_buf-append s done (b ∷ []))
    ∙ pushes-fill_buf s (done ++ (b ∷ [])) p rest (omega (arith, one)) (omega (arith, one))
    ∙ ap (λ t. pushes (fill_buf s t) rest) (append_assoc done (b ∷ []) p)

-- The first byte of a part flushes the buffer when it is full.
pushes_part :
    (s : State) (b : ℕ) (p rest : List ℕ)
    → (flush s).buflen + suc (length p) ≤ 128
    → pushes s ((b ∷ p) ++ rest) ≡ pushes (fill_buf (flush s) (b ∷ p)) rest
unfolding pushes push
pushes_part s b p rest fits = pushes-fill_buf (flush s) (b ∷ []) p rest (omega arith) (omega arith)

update_loop-pushes :
    (fuel : ℕ) (s : State) (bs : List ℕ)
    → s.buflen ≤ 128
    → length bs ≤ fuel
    → update_loop fuel s bs ≡ pushes s bs
unfolding update_loop pushes
update_loop-pushes fuel s [] h enough = refl
update_loop-pushes zero s (b ∷ bs) h enough = absurd (omega arith)
update_loop-pushes (suc fuel) s (b ∷ bs) h enough =
    let s' = flush s in
    let room = buflen-flush s h in
    let count = min (128 - s'.buflen) (length (b ∷ bs)) in
    let some : 0 < count = omega arith in
    let taken = length-take count (b ∷ bs) in
    update_loop-pushes fuel (fill_buf s' (take count (b ∷ bs))) (drop count (b ∷ bs))
      (omega (arith, buflen-fill_buf s' (take count (b ∷ bs)), taken))
      (omega (arith, length-drop count (b ∷ bs)))
    ∙ sym (
        by_part (take count (b ∷ bs)) (drop count (b ∷ bs)) (omega (arith, taken))
          (omega (arith, taken)))
    ∙ ap (pushes s) (take-append-drop count (b ∷ bs))
  where
    by_part :
        (p rest : List ℕ)
        → 0 < length p
        → (flush s).buflen + length p ≤ 128
        → pushes s (p ++ rest) ≡ pushes (fill_buf (flush s) p) rest
    by_part [] rest some fits = absurd (omega arith)
    by_part (x ∷ p) rest some fits = pushes_part s x p rest fits

pushes-append : (s : State) (xs ys : List ℕ) → pushes s (xs ++ ys) ≡ pushes (pushes s xs) ys
unfolding pushes
pushes-append s [] ys = refl
pushes-append s (x ∷ xs) ys = pushes-append (push s x) xs ys

buflen-pushes : (s : State) (bs : List ℕ) → s.buflen ≤ 128 → (pushes s bs).buflen ≤ 128
unfolding pushes push
buflen-pushes s [] h = h
buflen-pushes s (b ∷ bs) h =
    buflen-pushes (push s b) bs
      (omega (arith, buflen-fill_buf (flush s) (b ∷ []), buflen-flush s h))

update-pushes : (s : State) (bs : List ℕ) → s.buflen ≤ 128 → update s bs ≡ pushes s bs
unfolding update
update-pushes s bs h = update_loop-pushes (length bs) s bs h (omega arith)

-- The buffer never overflows.
pub buflen-update : (s : State) (bs : List ℕ) → s.buflen ≤ 128 → (update s bs).buflen ≤ 128
buflen-update s bs h = rw (update-pushes s bs h) (buflen-pushes s bs h)

-- Two calls of `update` do what one call on the whole message does: every state whose buffer holds
-- at most 128 bytes, and wherever the message is cut.
pub update-append :
    (s : State) (xs ys : List ℕ) → s.buflen ≤ 128 → update s (xs ++ ys) ≡ update (update s xs) ys
update-append s xs ys h =
    update-pushes s (xs ++ ys) h
    ∙ pushes-append s xs ys
    ∙ ap (λ (t : State). pushes t ys) (sym (update-pushes s xs h))
    ∙ sym (update-pushes (update s xs) ys (buflen-update s xs h))
