-- ===== src/Blake2b/Digest.antt =====
-- The digests of Req/rust/src/blake2b.rs: their length and their bytes.
use requihash.Base.{
  ℕ, zero, suc, ◌-◌, ◌*◌, ◌/◌, ◌%◌, ◌≤◌, ◌<◌, ◌==◌, ◌≡◌, refl, ap, ◌∙◌, inl, inr, Bool, true, false,
  Bool-cases, List, [], ◌∷◌, ◌++◌, length, length-append, length-take, take, replicate, All,
  All-append, arith,
}
use requihash.Blake2b.{
  State, iv, words, count_bytes, fold_words, compress, xor_words, init, flush, fill_buf,
  update_loop, update, le64_bytes, digest_bytes, finalize,
}

length-fold_words : (h lo hi : List ℕ) → length (fold_words h lo hi) ≡ length h
unfolding fold_words
length-fold_words [] lo hi = refl
length-fold_words (w ∷ h) [] hi = refl
length-fold_words (w ∷ h) (l ∷ lo) [] = refl
length-fold_words (w ∷ h) (l ∷ lo) (u ∷ hi) = ap suc (length-fold_words h lo hi)

length-xor_words : (h ws : List ℕ) → length (xor_words h ws) ≡ length h
unfolding xor_words
length-xor_words [] ws = refl
length-xor_words (x ∷ h) [] = refl
length-xor_words (x ∷ h) (w ∷ ws) = ap suc (length-xor_words h ws)

-- A state of eight words that is to give `outlen` bytes.
pub record HasShape (outlen : ℕ) (s : State) : Type 0 where
  pub eight : length s.h ≡ 8
  pub same : s.outlen ≡ outlen

compress-HasShape :
    (outlen : ℕ) (s : State) (block : List ℕ) (last : Bool)
    → HasShape outlen s
    → HasShape outlen (compress s block last)
unfolding compress
compress-HasShape outlen s block last g = record {
  eight = length-fold_words s.h _ _ ∙ g.eight;
  same = g.same;
}

pub init-HasShape : (outlen : ℕ) (person : List ℕ) → HasShape outlen (init outlen person)
unfolding init iv
init-HasShape outlen person = record {
  eight = length-xor_words iv (words 8 ((outlen % 256) ∷ 0 ∷ 1 ∷ 1 ∷ replicate 44 0 ++ person));
  same = refl;
}

count_bytes-HasShape :
    (outlen n : ℕ) (s : State) → HasShape outlen s → HasShape outlen (count_bytes n s)
unfolding count_bytes
count_bytes-HasShape outlen n s g = record { eight = g.eight; same = g.same }

flush-HasShape : (outlen : ℕ) (s : State) → HasShape outlen s → HasShape outlen (flush s)
unfolding flush
flush-HasShape outlen s g = elim (Bool-cases (s.buflen == 128)) [
  | inl full ↦
      let packed = compress-HasShape outlen _ s.buf false (count_bytes-HasShape outlen 128 s g) in
      rw full (record { eight = packed.eight; same = packed.same })
  | inr room ↦ rw room g
]

update_loop-HasShape :
    (outlen fuel : ℕ) (s : State) (input : List ℕ)
    → HasShape outlen s
    → HasShape outlen (update_loop fuel s input)
unfolding update_loop fill_buf
update_loop-HasShape outlen fuel s [] g = g
update_loop-HasShape outlen zero s (b ∷ bs) g = g
update_loop-HasShape outlen (suc fuel) s (b ∷ bs) g =
    let flushed = flush-HasShape outlen s g in
    update_loop-HasShape outlen fuel _ _ (record { eight = flushed.eight; same = flushed.same })

pub update-HasShape :
    (outlen : ℕ) (s : State) (input : List ℕ) → HasShape outlen s → HasShape outlen (update s input)
unfolding update
update-HasShape outlen s input g = update_loop-HasShape outlen (length input) s input g

le64_bytes-bytes : (n x : ℕ) → (length (le64_bytes n x) ≡ n) × All (λ b. b < 256) (le64_bytes n x)
unfolding le64_bytes
le64_bytes-bytes zero x = (refl, tt)
le64_bytes-bytes (suc n) x =
    let (size, bytes) = le64_bytes-bytes n (x / 256) in (omega arith, (omega arith, bytes))

digest_bytes-bytes :
    (h : List ℕ) → (length (digest_bytes h) ≡ 8 * length h) × All (λ b. b < 256) (digest_bytes h)
unfolding digest_bytes
digest_bytes-bytes [] = (refl, tt)
digest_bytes-bytes (w ∷ h) =
    let (size, bytes) = digest_bytes-bytes h in
    let (eight, first) = le64_bytes-bytes 8 w in
    (
      omega (arith, length-append (le64_bytes 8 w) (digest_bytes h)),
      All-append (λ b. b < 256) (le64_bytes 8 w) (digest_bytes h) first bytes,
    )

take-bytes : (n : ℕ) (v : List ℕ) → All (λ b. b < 256) v → All (λ b. b < 256) (take n v)
take-bytes zero v h = tt
take-bytes (suc n) [] h = tt
take-bytes (suc n) (x ∷ v) h = (h.0, take-bytes n v h.1)

first_bytes :
    (n : ℕ) (h : List ℕ)
    → n ≤ 64
    → length h ≡ 8
    → (length (take n (digest_bytes h)) ≡ n) × All (λ b. b < 256) (take n (digest_bytes h))
first_bytes n h few eight =
    let (size, bytes) = digest_bytes-bytes h in
    (omega (arith, length-take n (digest_bytes h)), take-bytes n (digest_bytes h) bytes)

pub finalize-bytes :
    (outlen : ℕ) (s : State)
    → outlen ≤ 64
    → HasShape outlen s
    → (length (finalize s) ≡ outlen) × All (λ b. b < 256) (finalize s)
unfolding finalize
finalize-bytes outlen s few g =
    let counted : State = count_bytes s.buflen s in
    let block : List ℕ = take s.buflen s.buf ++ replicate (128 - s.buflen) 0 in
    let packed =
      compress-HasShape outlen counted block true (count_bytes-HasShape outlen s.buflen s g) in
    rw (g.same) (first_bytes outlen (compress counted block true).h few packed.eight)
