-- ===== src/Packing/Octets.antt =====
-- `compress_array` of Req/rust/src/lib.rs writes a sequence of fields as bytes, the highest bit
-- first.
use requihash.Base.{
  ℕ, zero, suc, ◌+◌, ◌-◌, ◌*◌, ◌/◌, ◌%◌, ◌^◌, ◌≤◌, ◌<◌, bit_and, ltb, if◌then◌else◌, ◌≡◌, ◌⊎◌, ap,
  ◌∙◌, inl, inr, true, false, List, [], ◌∷◌, ◌++◌, drop, arith,
}
use requihash.Base.Bits.{bit_and_mask}
use requihash.Base.Pow.{mod-mod_le, mul-mod_pow, append-mod, pow-le}
use requihash.Params.{u32}
use requihash.Packing.{Compress, read_value, refill, compress_step}
use requihash.Packing.Bytes.{be}
use requihash.Packing.Fields.{top_field}
use requihash.Packing.Reading.{read_value-be}
use native.Mathlib.Nat.{mod-eq_of_lt}

-- The next `n` bytes of the fields `fs` of `w` bits, with `r`, of `bits` bits, in front of them.
unfoldable pub octets : ℕ → ℕ → ℕ → ℕ → List ℕ → List ℕ
octets w zero bits r fs = []
octets w (suc n) bits r [] = (r / 2 ^ (bits - 8)) ∷ octets w n (bits - 8) (r % 2 ^ (bits - 8)) []
octets w (suc n) bits r (f ∷ fs) =
    let bits' = bits + w in
    let r' = r * 2 ^ w + f in
    let held = octets w n (bits - 8) (r % 2 ^ (bits - 8)) (f ∷ fs) in
    let taken = octets w n (bits' - 8) (r' % 2 ^ (bits' - 8)) fs in
    if ltb bits 8 then r' / 2 ^ (bits' - 8) ∷ taken else r / 2 ^ (bits - 8) ∷ held

-- The accumulator has room for a field when fewer than eight bits are held. For fields of 26 bits
-- that is so because its bits are an even number.
abbrev pub Narrow : ℕ → ℕ → Type 0
Narrow w bits = (w ≤ 25) ⊎ ((w ≡ 26) × (bits % 2 ≡ 0))

Narrow-room : (w bits : ℕ) → Narrow w bits → bits < 8 → bits + w ≤ 32
Narrow-room w bits h lt = omega arith

pub Narrow-taken : (w bits : ℕ) → Narrow w bits → Narrow w (bits + w)
Narrow-taken w bits (inl small) = inl small
Narrow-taken w bits (inr (e, even)) = inr (e, omega arith)

pub Narrow-emitted : (w bits : ℕ) → Narrow w bits → 8 ≤ bits → Narrow w (bits - 8)
Narrow-emitted w bits (inl small) h = inl small
Narrow-emitted w bits (inr (e, even)) h = inr (e, omega arith)

abbrev pub held : ℕ → ℕ → ℕ → List ℕ → Compress
held bits acc j out = record { acc_bits = bits; acc_value = acc; j = j; out = out }

-- `acc_value <<= bit_len` and the loop behind it.
abbrev pub taken : ℕ → ℕ → ℕ → ℕ → List ℕ → ℕ
taken w pad acc j input = read_value w input (j + pad) ((w + 7) / 8) (u32 (acc * 2 ^ w))

pub taken-mod :
    (w pad bits acc r j f : ℕ) (input rest : List ℕ)
    → Narrow w bits
    → bits < 8
    → f < 2 ^ w
    → acc % 2 ^ bits ≡ r
    → drop (j + pad) input ≡ be ((w + 7) / 8) f ++ rest
    → taken w pad acc j input % 2 ^ (bits + w) ≡ r * 2 ^ w + f
taken-mod w pad bits acc r j f input rest narrow few fits low e =
    let room = Narrow-room w bits narrow few in
    let x = acc % 2 ^ (32 - w) in
    let whole : f % 2 ^ (8 * ((w + 7) / 8)) ≡ f =
      mod-eq_of_lt {n = f} {m = 2 ^ (8 * ((w + 7) / 8))}
        (omega (arith, fits, pow-le w (8 * ((w + 7) / 8)) (omega arith))) in
    ap (λ t. read_value w input (j + pad) ((w + 7) / 8) t % 2 ^ (bits + w))
      (shift w acc (omega arith))
    ∙ rw
        (
          read_value-be w ((w + 7) / 8) w x f (j + pad) input rest (omega arith) (omega arith)
              (omega arith) fits (omega (arith, fits, whole)) e,
          whole,
        )
        (ap (λ n. (x * 2 ^ w + f) % 2 ^ n) {x = bits + w} {y = w + bits} (omega arith)
          ∙ append-mod x f w bits fits
          ∙ rw (mod-mod_le acc bits (32 - w) (omega arith), low))
  where
    shift : (w acc : ℕ) → w ≤ 32 → u32 (acc * 2 ^ w) ≡ acc % 2 ^ (32 - w) * 2 ^ w
    shift w acc h =
        ap (λ n. acc * 2 ^ w % 2 ^ n) {x = 32} {y = w + (32 - w)} (omega arith)
        ∙ mul-mod_pow acc w (32 - w)

pub refill_few :
    (w pad bits acc j : ℕ) (input out : List ℕ)
    → ltb bits 8 ≡ true
    → refill w pad input (held bits acc j out)
      ≡ held (bits + w) (taken w pad acc j input) (j + ((w + 7) / 8 + pad)) out
unfolding refill
refill_few w pad bits acc j input out h = rw h

pub refill_enough :
    (w pad bits acc j : ℕ) (input out : List ℕ)
    → ltb bits 8 ≡ false
    → refill w pad input (held bits acc j out) ≡ held bits acc j out
unfolding refill
refill_enough w pad bits acc j input out h = rw h

-- The byte that a step writes when eight bits at least are held.
abbrev pub emit : Compress → Compress
emit s = record s {
  acc_bits = s.acc_bits - 8;
  out = s.out ++ bit_and (s.acc_value / 2 ^ (s.acc_bits - 8)) 0xFF ∷ [];
}

pub emit-byte :
    (bits acc r j : ℕ) (out : List ℕ)
    → 8 ≤ bits
    → acc % 2 ^ bits ≡ r
    → emit (held bits acc j out) ≡ held (bits - 8) acc j (out ++ ((r / 2 ^ (bits - 8)) ∷ []))
emit-byte bits acc r j out h low =
    ap (λ b. held (bits - 8) acc j (out ++ (b ∷ [])))
      (bit_and_mask 8 (acc / 2 ^ (bits - 8)) ∙ (top_field acc 8 bits r h low).0)

pub step-emit :
    (w pad : ℕ) (input : List ℕ) (s s' : Compress)
    → refill w pad input s ≡ s'
    → compress_step w pad input s ≡ emit s'
unfolding compress_step
step-emit w pad input s s' e = ap emit e
