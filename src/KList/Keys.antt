-- ===== src/KList/Keys.antt =====
-- `low_bits_key` is the remainder of the number by a power of two.
use requihash.Base.{
  ℕ, suc, ◌+◌, ◌-◌, ◌*◌, ◌%◌, ◌^◌, ◌≤◌, ◌<◌, min, bit_and, bit_or, ◌≡◌, refl, sym, ap, ◌∙◌, inl,
  inr, true, ltb, leb, leb-≤, leb-false, Bool-cases, if◌then◌else◌, List, [], ◌∷◌, ◌++◌, length,
  length-append, All-append, arith,
}
use requihash.Base.Bits.{pow-add, pow_pos, bit_or_fields, bit_or_comm, bit_and_mask}
use requihash.Base.Pow.{append-mod, mod-mod_le, pow-le}
use requihash.KList.{key_loop, low_bits_key}
use requihash.KList.Values.{Bytes, be_value}
use mathlib.Core.List.{reverse, reverse-append}
use native.Mathlib.Decide.{dec_le}
use native.Mathlib.Nat.{mul_assoc, mul_comm, mod-lt, mod-eq_of_lt}

-- The value of bytes that come with the least significant first.
le_value : List ℕ → ℕ
le_value [] = 0
le_value (b ∷ v) = le_value v * 256 + b

le_value-append_one :
    (v : List ℕ) (b : ℕ) → le_value (v ++ b ∷ []) ≡ b * 2 ^ (8 * length v) + le_value v
unfolding le_value
le_value-append_one [] b = omega arith
le_value-append_one (c ∷ v) b =
    let e : 8 * suc (length v) ≡ 8 + 8 * length v = omega arith in
    let weight : b * 2 ^ (8 * suc (length v)) ≡ b * 2 ^ (8 * length v) * 256 =
      ap (λ t. b * 2 ^ t) e
      ∙ ap (λ t. b * t) (pow-add 8 (8 * length v) ∙ mul_comm 256 (2 ^ (8 * length v)))
      ∙ sym (mul_assoc b (2 ^ (8 * length v)) 256) in
    omega (arith, weight, le_value-append_one v b)

no_bits : (a c : ℕ) → a % 2 ^ 0 * c ≡ 0
no_bits a c = let none : a % 2 ^ 0 ≡ 0 = omega arith in rw none (omega arith)

-- What the loop takes of a byte, and what is left for the bytes after it.
take_bits :
    (b l m t : ℕ)
    → b < 256
    → t ≡ min 8 m
    → (l * 256 + b) % 2 ^ m
      ≡ (l % 2 ^ (m - t)) * 2 ^ t + (if ltb t 8 then bit_and b (2 ^ t - 1) else b)
take_bits b l m t hb et = elim (dec_le 8 m) [
  | yes h ↦
      let e : t ≡ 8 = omega arith in
      let whole : m ≡ 8 + (m - 8) = omega arith in
      rw e (ap (λ u. (l * 256 + b) % 2 ^ u) whole ∙ append-mod l b 8 (m - 8) (omega arith))
  | no h ↦
      let e : t ≡ m = omega arith in
      let none : m - m ≡ 0 = omega arith in
      let small : ltb m 8 ≡ true = ground arith in
      let last : (l * 256 + b) % 2 ^ 8 ≡ b = omega arith in
      rw (e, none, small, bit_and_mask m b, no_bits l (2 ^ m))
        (sym (mod-mod_le (l * 256 + b) m 8 (omega arith)) ∙ ap (λ u. u % 2 ^ m) last ∙ omega arith)
]

taken_lt : (b t : ℕ) → b < 256 → t ≤ 8 → (if ltb t 8 then bit_and b (2 ^ t - 1) else b) < 2 ^ t
taken_lt b t hb ht = elim (Bool-cases (ltb t 8)) [
  | inl e ↦ rw (e, bit_and_mask t b) (mod-lt b (pow_pos t))
  | inr e ↦ let whole : t ≡ 8 = ground arith in rw (e, whole) hb
]

-- No bit of the key is shifted out, and the key grows by the bits taken.
module _ (key x bits_taken t : ℕ) (below : key < 2 ^ bits_taken) (fits : x < 2 ^ t) where
  key_grows :
      bits_taken < 64
      → bits_taken + t ≤ 64
      → bit_or key (x * 2 ^ (bits_taken % 64) % 2 ^ 64) ≡ x * 2 ^ bits_taken + key
  key_grows lt le =
      let place : bits_taken % 64 ≡ bits_taken = omega arith in
      let room = pow-le (bits_taken + t) 64 le in
      let small : x * 2 ^ bits_taken < 2 ^ 64 = omega (arith, key_lt) in
      ap (λ p. bit_or key (x * 2 ^ p % 2 ^ 64)) place
      ∙ ap (bit_or key) (mod-eq_of_lt small)
      ∙ bit_or_comm key (x * 2 ^ bits_taken)
      ∙ bit_or_fields bits_taken x key below
    where
      key_lt : x * 2 ^ bits_taken + 2 ^ bits_taken ≤ 2 ^ (bits_taken + t)
      key_lt = rw (pow-add bits_taken t) (grind (arith, fits))

  key_below : x * 2 ^ bits_taken + key < 2 ^ (bits_taken + t)
  key_below = rw (pow-add bits_taken t) (grind (arith, fits, below))

factor : (y p q z c : ℕ) → y * (p * q) + (z * p + c) ≡ (y * q + z) * p + c
factor y p q z c = grind arith

-- The bits taken so far stand below those that the rest of the bytes give.
key_loop_lem :
    (mask_bit : ℕ) (v : List ℕ) (key bits_taken : ℕ)
    → mask_bit ≤ 64
    → Bytes v
    → bits_taken ≤ mask_bit
    → key < 2 ^ bits_taken
    → key_loop mask_bit v key bits_taken
      ≡ (le_value v % 2 ^ (mask_bit - bits_taken)) * 2 ^ bits_taken + key
unfolding key_loop le_value
key_loop_lem mask_bit [] key bits_taken hm hv ht hk =
    let none : 0 % 2 ^ (mask_bit - bits_taken) ≡ 0 =
      mod-eq_of_lt (pow_pos (mask_bit - bits_taken)) in
    rw none (omega arith)
key_loop_lem mask_bit (b ∷ v) key bits_taken hm hv ht hk =
    elim (Bool-cases (leb mask_bit bits_taken)) [
      | inl e ↦
          let none : mask_bit - bits_taken ≡ 0 = omega (arith, leb-≤ _ _ e) in
          rw (e, none, no_bits (le_value (b ∷ v)) (2 ^ bits_taken)) (omega arith)
      | inr e ↦
          let t : ℕ = min 8 (mask_bit - bits_taken) in
          let more : bits_taken < mask_bit = leb-false _ _ e in
          rw (e, step t (omega arith) more)
            (key_loop_lem mask_bit v (x t * 2 ^ bits_taken + key) (bits_taken + t) hm hv.1
                (omega arith)
                (key_below key (x t) bits_taken t hk (taken_lt b t hv.0 (omega arith)))
              ∙ sums t more (omega arith))
    ]
  where
    x : ℕ → ℕ
    x t = if ltb t 8 then bit_and b (2 ^ t - 1) else b

    step :
        (t : ℕ)
        → t ≡ min 8 (mask_bit - bits_taken)
        → bits_taken < mask_bit
        → bit_or key (x t * 2 ^ (bits_taken % 64) % 2 ^ 64) ≡ x t * 2 ^ bits_taken + key
    step t et lt =
        key_grows key (x t) bits_taken t hk (taken_lt b t hv.0 (omega arith)) (omega arith)
          (omega arith)

    sums :
        (t : ℕ)
        → bits_taken < mask_bit
        → t ≡ min 8 (mask_bit - bits_taken)
        → (le_value v % 2 ^ (mask_bit - (bits_taken + t))) * 2 ^ (bits_taken + t)
            + (x t * 2 ^ bits_taken + key)
          ≡ ((le_value v * 256 + b) % 2 ^ (mask_bit - bits_taken)) * 2 ^ bits_taken + key
    sums t lt et =
        let left : mask_bit - (bits_taken + t) ≡ mask_bit - bits_taken - t = omega arith in
        let y : ℕ = le_value v % 2 ^ (mask_bit - bits_taken - t) in
        rw (left, take_bits b (le_value v) (mask_bit - bits_taken) t hv.0 et, pow-add bits_taken t)
          (factor y (2 ^ bits_taken) (2 ^ t) (x t) key)

length-reverse : (v : List ℕ) → length (reverse v) ≡ length v
length-reverse [] = refl
length-reverse (b ∷ v) =
    ap length (reverse-append (b ∷ []) v)
    ∙ omega (arith, length-append (reverse v) (b ∷ []), length-reverse v)

le_value-reverse : (v : List ℕ) → le_value (reverse v) ≡ be_value v
unfolding le_value
le_value-reverse [] = refl
le_value-reverse (b ∷ v) =
    ap le_value (reverse-append (b ∷ []) v)
    ∙ le_value-append_one (reverse v) b
    ∙ rw (length-reverse v, le_value-reverse v)

reverse-Bytes : (v : List ℕ) → Bytes v → Bytes (reverse v)
reverse-Bytes [] h = tt
reverse-Bytes (b ∷ v) h =
    rw (reverse-append (b ∷ []) v)
      (All-append (λ c. c < 256) (reverse v) (b ∷ []) (reverse-Bytes v h.1) (h.0, tt))

-- For a mask of at most 64 bits `low_bits_key` is the number of the string modulo `2 ^ mask_bit`.
pub low_bits_key-eq-mod :
    (v : List ℕ) (mask_bit : ℕ)
    → mask_bit ≤ 64
    → Bytes v
    → low_bits_key v mask_bit ≡ be_value v % 2 ^ mask_bit
unfolding low_bits_key
low_bits_key-eq-mod v mask_bit hm hv =
    let whole : mask_bit - 0 ≡ mask_bit = omega arith in
    key_loop_lem mask_bit (reverse v) 0 0 hm (reverse-Bytes v hv) (omega arith) (omega arith)
    ∙ rw (whole, le_value-reverse v) (omega arith)
