-- ===== src/Packing/Digits.antt =====
-- Digits in the packing of Req/rust/src/lib.rs: how many there are, that they fit, and that a number
-- has one expansion.
use requihash.Base.{
  ℕ, zero, suc, ◌+◌, ◌-◌, ◌*◌, ◌/◌, ◌%◌, ◌^◌, ◌≤◌, ◌<◌, ltb, ltb-false, leb, leb-≤, leb-false,
  Bool-cases, ◌≡◌, refl, sym, ap, ◌∙◌, inl, inr, List, [], ◌∷◌, length, All, arith,
}
use requihash.Base.Bits.{pow_pos}
use requihash.Base.Pow.{div-lt_pow}
use requihash.Packing.Fields.{fields, fields_full, fields_more}
use requihash.Packing.Octets.{octets}
use requihash.Packing.Compression.{octets_few, octets_enough}
use requihash.Packing.Values.{value, value-fields, value-octets, taken-<, one_less}
use native.Mathlib.Nat.{add_comm, zero-add, mod-lt, mul-suc, add-mul-div_right, div-eq_of_lt}

-- The digit below `t` bits, of `t + s` in all.
top-< : (r s t : ℕ) → s ≤ t → r < 2 ^ t → r / 2 ^ (t - s) < 2 ^ s
top-< r s t h small =
    div-lt_pow r (t - s) s
      (omega (arith, small, ap (λ n. 2 ^ n) {x = t - s + s} {y = t} (omega arith)))

pub length-octets : (w n bits r : ℕ) (fs : List ℕ) → length (octets w n bits r fs) ≡ n
unfolding octets
length-octets w zero bits r fs = refl
length-octets w (suc n) bits r [] = ap suc (length-octets w n _ _ [])
length-octets w (suc n) bits r (f ∷ fs) = elim (Bool-cases (ltb bits 8)) [
  | inl few ↦ rw (octets_few w n bits r f fs few) (ap suc (length-octets w n _ _ fs))
  | inr enough ↦
      rw (octets_enough w n bits r (f ∷ fs) enough) (ap suc (length-octets w n _ _ (f ∷ fs)))
]

pub octets-All :
    (w n bits r : ℕ) (fs : List ℕ)
    → 8 ≤ w
    → r < 2 ^ bits
    → All (λ f. f < 2 ^ w) fs
    → bits + w * length fs ≡ 8 * n
    → All (λ b. b < 256) (octets w n bits r fs)
unfolding octets
octets-All w zero bits r fs wide small fits size = tt
octets-All w (suc n) bits r [] wide small fits size =
    let left : 8 ≤ bits = omega arith in
    (
      top-< r 8 bits left small,
      octets-All w n (bits - 8) (r % 2 ^ (bits - 8)) [] wide (mod-lt r (pow_pos (bits - 8))) tt
          (omega arith),
    )
octets-All w (suc n) bits r (f ∷ fs) wide small (fit, fits) size = elim (Bool-cases (ltb bits 8)) [
  | inl few ↦
      let t = bits + w in
      let r' = r * 2 ^ w + f in
      rw (octets_few w n bits r f fs few) (
        top-< r' 8 t (omega arith) (taken-< r w bits f small fit),
        octets-All w n (t - 8) (r' % 2 ^ (t - 8)) fs wide (mod-lt r' (pow_pos (t - 8))) fits
            (omega (arith, size, mul-suc w (length fs))),
      )
  | inr enough ↦
      let left = ltb-false bits 8 enough in
      rw (octets_enough w n bits r (f ∷ fs) enough) (
        top-< r 8 bits left small,
        octets-All w n (bits - 8) (r % 2 ^ (bits - 8)) (f ∷ fs) wide (mod-lt r (pow_pos (bits - 8)))
            (fit, fits) (omega (arith, size)),
      )
]

-- `fields` reads as many fields as its bits make up, and each fits.
pub fields-count :
    (w bits r m : ℕ) (bs : List ℕ)
    → 8 ≤ w
    → bits < w
    → r < 2 ^ bits
    → All (λ b. b < 256) bs
    → bits + 8 * length bs ≡ w * m
    → (length (fields w bits r bs) ≡ m) × All (λ f. f < 2 ^ w) (fields w bits r bs)
unfolding fields
fields-count w bits r m [] wide lt small fits size = (no_field w bits m lt (omega arith), tt)
  where
    no_field : (w bits m : ℕ) → bits < w → bits ≡ w * m → 0 ≡ m
    no_field w bits zero lt e = refl
    no_field w bits (suc m) lt e = absurd (omega (arith, mul-suc w m))
fields-count w bits r m (b ∷ bs) wide lt small (fit, fits) size =
    let t = bits + 8 in
    let r' = r * 256 + b in
    let small' = taken-< r 8 bits b small fit in
    elim (Bool-cases (leb w t)) [
      | inl full ↦
          let over = leb-≤ w t full in
          let left = one_less w (t + 8 * length bs) m wide (omega arith) (omega arith) in
          let (count, each) =
            fields-count w (t - w) (r' % 2 ^ (t - w)) (m - 1) bs wide (omega arith)
              (mod-lt r' (pow_pos (t - w))) fits (omega arith) in
          rw (fields_full w bits r b bs full) (
            ap suc count ∙ some_field w (t + 8 * length bs) m (omega arith) (omega arith),
            (top-< r' w t over small', each),
          )
      | inr more ↦
          rw (fields_more w bits r b bs more)
            (fields-count w t r' m bs wide (leb-false w t more) small' fits (omega arith))
    ]
  where
    some_field : (w x m : ℕ) → 0 < x → x ≡ w * m → suc (m - 1) ≡ m
    some_field w x zero h e = absurd (omega arith)
    some_field w x (suc m) h e = omega arith

-- Digits that fit are determined by the number that they write.
digit_unique :
    (s a b x y : ℕ) → x < 2 ^ s → y < 2 ^ s → a * 2 ^ s + x ≡ b * 2 ^ s + y → (a ≡ b) × (x ≡ y)
digit_unique s a b x y hx hy e =
    let high : a ≡ b = sym (high_part a x hx) ∙ ap (λ t. t / 2 ^ s) e ∙ high_part b y hy in
    (high, omega (arith, e, ap (λ (t : ℕ). t * 2 ^ s) high))
  where
    high_part : (a x : ℕ) → x < 2 ^ s → (a * 2 ^ s + x) / 2 ^ s ≡ a
    high_part a x h =
        ap (λ t. t / 2 ^ s) (add_comm (a * 2 ^ s) x)
        ∙ add-mul-div_right x a (pow_pos s)
        ∙ rw (div-eq_of_lt h) (zero-add a)

value_unique :
    (s a b : ℕ) (xs ys : List ℕ)
    → All (λ f. f < 2 ^ s) xs
    → All (λ f. f < 2 ^ s) ys
    → length xs ≡ length ys
    → value s a xs ≡ value s b ys
    → (a ≡ b) × (xs ≡ ys)
unfolding value
value_unique s a b [] [] hx hy len e = (e, refl)
value_unique s a b [] (y ∷ ys) hx hy len e = absurd (omega arith)
value_unique s a b (x ∷ xs) [] hx hy len e = absurd (omega arith)
value_unique s a b (x ∷ xs) (y ∷ ys) (hx, hxs) (hy, hys) len e =
    let (head, tail) =
      value_unique s (a * 2 ^ s + x) (b * 2 ^ s + y) xs ys hxs hys (omega arith) e in
    let (high, low) = digit_unique s a b x y hx hy head in
    (high, ap (λ t. t ∷ xs) low ∙ ap (◌∷◌ y) tail)

-- The bytes of the fields that bytes hold are those bytes.
pub octets-fields :
    (w m : ℕ) (bs : List ℕ)
    → 8 ≤ w
    → All (λ b. b < 256) bs
    → 8 * length bs ≡ w * m
    → octets w (length bs) 0 0 (fields w 0 0 bs) ≡ bs
octets-fields w m bs wide bytes size =
    let fs = fields w 0 0 bs in
    let small : 0 < 2 ^ 0 = omega arith in
    let whole : 0 + 8 * length bs ≡ w * m = omega (arith, size) in
    let (count, each) = fields-count w 0 0 m bs wide (omega arith) small bytes whole in
    let back : 0 + w * length fs ≡ 8 * length bs =
      omega (arith, size, ap (λ (t : ℕ). w * t) count) in
    (value_unique 8 0 0 (octets w (length bs) 0 0 fs) bs
      (octets-All w (length bs) 0 0 fs wide small each back) bytes
      (length-octets w (length bs) 0 0 fs)
      (value-octets w (length bs) 0 0 0 fs wide small each back
        ∙ value-fields w 0 0 0 m bs wide (omega arith) small bytes whole)).1

-- The expansion of the bytes of the fields is the fields.
pub fields-octets :
    (w n : ℕ) (fs : List ℕ)
    → 8 ≤ w
    → All (λ f. f < 2 ^ w) fs
    → w * length fs ≡ 8 * n
    → fields w 0 0 (octets w n 0 0 fs) ≡ fs
fields-octets w n fs wide fits size =
    let bs = octets w n 0 0 fs in
    let len = length-octets w n 0 0 fs in
    let small : 0 < 2 ^ 0 = omega arith in
    let bytes = octets-All w n 0 0 fs wide small fits (omega arith) in
    let whole : 0 + 8 * length bs ≡ w * length fs = omega (arith, len, size) in
    let (count, each) = fields-count w 0 0 (length fs) bs wide (omega arith) small bytes whole in
    (value_unique w 0 0 (fields w 0 0 bs) fs each fits count (
      value-fields w 0 0 0 (length fs) bs wide (omega arith) small bytes whole
      ∙ value-octets w n 0 0 0 fs wide small fits (omega arith))).1
