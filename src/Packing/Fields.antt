-- ===== src/Packing/Fields.antt =====
-- The expansion reads its input as a sequence of fields, the highest bit first.
use requihash.Base.{
  ℕ, ◌+◌, ◌-◌, ◌*◌, ◌/◌, ◌%◌, ◌^◌, ◌≤◌, ◌<◌, bit_or, leb, if◌then◌else◌, ◌≡◌, ◌⊎◌, refl, sym, ap,
  ◌∙◌, inl, inr, true, false, List, [], ◌∷◌, ◌++◌, length, drop, replicate, length-append,
  length-replicate, drop-drop, arith,
}
use requihash.Base.Bits.{bit_or_fields}
use requihash.Base.Pow.{mod-div, mod-mod_le, mul-mod_pow, append-mod}
use requihash.Params.{u32}
use requihash.Packing.Bytes.{be, length-be}
use mathlib.Core.List.{append_assoc}

-- The fields of `w` bits in the input, with `r`, of `bits` bits, in front of it.
unfoldable pub fields : ℕ → ℕ → ℕ → List ℕ → List ℕ
fields w bits r [] = []
fields w bits r (b ∷ bs) =
    let r' = r * 256 + b in
    let more = fields w (bits + 8) r' bs in
    let next = fields w (bits + 8 - w) (r' % 2 ^ (bits + 8 - w)) bs in
    if leb w (bits + 8) then r' / 2 ^ (bits + 8 - w) ∷ next else more

-- The accumulator never holds more than 24 bits between two bytes. For fields of 26 bits, the
-- widest that a valid parameter gives, that is so because its bits are an even number.
abbrev pub Held : ℕ → ℕ → Type 0
Held w bits = (bits < w) × ((w ≤ 25) ⊎ ((w ≡ 26) × (bits % 2 ≡ 0)))

pub Held-room : (w bits : ℕ) → Held w bits → bits + 8 ≤ 32
Held-room w bits h = omega arith

pub Held-next : (w bits : ℕ) → 8 ≤ w → Held w bits → w ≤ bits + 8 → Held w (bits + 8 - w)
Held-next w bits wide (lt, inl small) h = (omega arith, inl small)
Held-next w bits wide (lt, inr (e, even)) h = (omega arith, inr (e, omega arith))

pub Held-more : (w bits : ℕ) → Held w bits → bits + 8 < w → Held w (bits + 8)
Held-more w bits (lt, inl small) h = (h, inl small)
Held-more w bits (lt, inr (e, even)) h = (h, inr (e, omega arith))

-- The accumulator takes a byte in: the bits that are held are those of the input.
pub shift_in :
    (acc bits r b : ℕ)
    → bits + 8 ≤ 32
    → b < 256
    → acc % 2 ^ bits ≡ r
    → bit_or (u32 (acc * 2 ^ 8)) b % 2 ^ (bits + 8) ≡ r * 256 + b
shift_in acc bits r b room small held =
    let low = mul-mod_pow acc 8 24 in
    let e : bits + 8 ≡ 8 + bits = omega arith in
    rw (
      low,
      bit_or_fields 8 (acc % 2 ^ 24) b small,
      e,
      append-mod (acc % 2 ^ 24) b 8 bits small,
      mod-mod_le acc bits 24 (omega arith),
      held,
    )

-- A field as the expansion stores it: zeros in front, then its bytes.
abbrev pub chunk : ℕ → ℕ → ℕ → List ℕ
chunk w pad f = replicate pad 0 ++ be ((w + 7) / 8) f

unfoldable pub chunks : ℕ → ℕ → List ℕ → List ℕ
chunks w pad [] = []
chunks w pad (f ∷ fs) = chunk w pad f ++ chunks w pad fs

pub length-chunk : (w pad f : ℕ) → length (chunk w pad f) ≡ pad + (w + 7) / 8
length-chunk w pad f =
    length-append (replicate pad 0) (be ((w + 7) / 8) f)
    ∙ rw (length-replicate {A = ℕ} pad 0, length-be ((w + 7) / 8) f)

-- The field on top of what is held, and what is left below it.
pub top_field :
    (acc w bits r : ℕ)
    → w ≤ bits
    → acc % 2 ^ bits ≡ r
    → (acc / 2 ^ (bits - w) % 2 ^ w ≡ r / 2 ^ (bits - w))
      × (acc % 2 ^ (bits - w) ≡ r % 2 ^ (bits - w))
top_field acc w bits r h held =
    let e : bits - w + w ≡ bits = omega arith in
    (
      sym (mod-div acc (bits - w) w)
          ∙ ap (λ n. acc % 2 ^ n / 2 ^ (bits - w)) e
          ∙ ap (λ t. t / 2 ^ (bits - w)) held,
      sym (mod-mod_le acc (bits - w) bits (omega arith)) ∙ ap (λ t. t % 2 ^ (bits - w)) held,
    )

pub fields_full :
    (w bits r b : ℕ) (bs : List ℕ)
    → leb w (bits + 8) ≡ true
    → fields w bits r (b ∷ bs)
      ≡ ((r * 256 + b) / 2 ^ (bits + 8 - w))
        ∷ fields w (bits + 8 - w) ((r * 256 + b) % 2 ^ (bits + 8 - w)) bs
unfolding fields
fields_full w bits r b bs h = rw h

pub fields_more :
    (w bits r b : ℕ) (bs : List ℕ)
    → leb w (bits + 8) ≡ false
    → fields w bits r (b ∷ bs) ≡ fields w (bits + 8) (r * 256 + b) bs
unfolding fields
fields_more w bits r b bs h = rw h

pub chunks_cons :
    (w pad f : ℕ) (fs : List ℕ) → chunks w pad (f ∷ fs) ≡ chunk w pad f ++ chunks w pad fs
unfolding chunks
chunks_cons w pad f fs = refl

pub length-chunks_cons :
    (w pad f : ℕ) (fs : List ℕ)
    → length (chunks w pad (f ∷ fs)) ≡ pad + (w + 7) / 8 + length (chunks w pad fs)
unfolding chunks
length-chunks_cons w pad f fs =
    length-append (chunk w pad f) (chunks w pad fs) ∙ rw (length-chunk w pad f)

pub append-chunks_cons :
    (w pad f : ℕ) (fs done rest : List ℕ)
    → ((done ++ chunk w pad f) ++ chunks w pad fs)
        ++ drop (length (chunks w pad fs)) (drop (pad + (w + 7) / 8) rest)
      ≡ (done ++ chunks w pad (f ∷ fs)) ++ drop (length (chunks w pad (f ∷ fs))) rest
append-chunks_cons w pad f fs done rest = rw (
  length-chunks_cons w pad f fs,
  ← drop-drop (pad + (w + 7) / 8) (length (chunks w pad fs)) rest,
  append_assoc done (chunk w pad f) (chunks w pad fs),
  chunks_cons w pad f fs,
)

pub no_fields : (w pad bits r : ℕ) → chunks w pad (fields w bits r []) ≡ []
unfolding fields chunks
no_fields w pad bits r = refl
