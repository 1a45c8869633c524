-- ===== src/Packing/Values.antt =====
-- The number that a sequence of digits writes, and what the packing of Req/rust/src/lib.rs does to it.
use requihash.Base.{
  ℕ, zero, suc, ◌+◌, ◌-◌, ◌*◌, ◌/◌, ◌%◌, ◌^◌, ◌≤◌, ◌<◌, ltb, ltb-<, ltb-false, leb, leb-≤,
  leb-false, Bool-cases, ◌≡◌, sym, ap, ◌∙◌, inl, inr, List, [], ◌∷◌, length, All, arith,
}
use requihash.Base.Bits.{pow-add, pow_pos}
use requihash.Packing.Fields.{fields, fields_full, fields_more}
use requihash.Packing.Octets.{octets}
use requihash.Packing.Compression.{octets_few, octets_enough}
use native.Mathlib.Nat.{mod-lt, div-add-mod', mul-suc}

-- `a`, and behind it the digits of `s` bits.
unfoldable pub value : ℕ → ℕ → List ℕ → ℕ
value s a [] = a
value s a (d ∷ ds) = value s (a * 2 ^ s + d) ds

-- The top `s` bits of `r` move over to `q`.
regroup : (q r s t : ℕ) → (q * 2 ^ s + r / 2 ^ t) * 2 ^ t + r % 2 ^ t ≡ q * 2 ^ (s + t) + r
regroup q r s t = grind (arith, ap (λ x. q * x) (pow-add s t), div-add-mod' r (2 ^ t))

-- A digit of `s` bits is put below `r`.
shift : (q r s t d : ℕ) → (q * 2 ^ t + r) * 2 ^ s + d ≡ q * 2 ^ (t + s) + (r * 2 ^ s + d)
shift q r s t d = grind (arith, ap (λ x. q * x) (pow-add t s))

regroup_top :
    (q r s t : ℕ)
    → s ≤ t
    → (q * 2 ^ s + r / 2 ^ (t - s)) * 2 ^ (t - s) + r % 2 ^ (t - s) ≡ q * 2 ^ t + r
regroup_top q r s t h =
    regroup q r s (t - s) ∙ ap (λ n. q * 2 ^ n + r) {x = s + (t - s)} {y = t} (omega arith)

no_bits : (bits r q : ℕ) → bits ≡ 0 → r < 2 ^ bits → q * 2 ^ bits + r ≡ q
no_bits bits r q e h =
    let one : 2 ^ bits ≡ 1 = ap (λ n. 2 ^ n) e in
    let zero : r ≡ 0 = omega arith in rw (one, zero) (omega arith)

-- A field taken in, whose bits stay within their number.
pub taken-< : (r w bits f : ℕ) → r < 2 ^ bits → f < 2 ^ w → r * 2 ^ w + f < 2 ^ (bits + w)
taken-< r w bits f hr hf = grind (arith, pow-add bits w)

pub value-octets :
    (w n bits r q : ℕ) (fs : List ℕ)
    → 8 ≤ w
    → r < 2 ^ bits
    → All (λ f. f < 2 ^ w) fs
    → bits + w * length fs ≡ 8 * n
    → value 8 q (octets w n bits r fs) ≡ value w (q * 2 ^ bits + r) fs
unfolding value octets
value-octets w zero bits r q [] wide small fits size = sym (no_bits bits r q (omega arith) small)
value-octets w zero bits r q (f ∷ fs) wide small fits size =
    absurd (omega (arith, size, mul-suc w (length fs)))
value-octets w (suc n) bits r q [] wide small fits size =
    let left : 8 ≤ bits = omega arith in
    value-octets w n (bits - 8) (r % 2 ^ (bits - 8)) (q * 2 ^ 8 + r / 2 ^ (bits - 8)) [] wide
      (mod-lt r (pow_pos (bits - 8))) tt (omega arith)
    ∙ regroup_top q r 8 bits left
value-octets w (suc n) bits r q (f ∷ fs) wide small (fit, fits) size =
    elim (Bool-cases (ltb bits 8)) [
      | inl few ↦
          let lt = ltb-< bits 8 few in
          let t = bits + w in
          let r' = r * 2 ^ w + f in
          rw (octets_few w n bits r f fs few) (
            value-octets w n (t - 8) (r' % 2 ^ (t - 8)) (q * 2 ^ 8 + r' / 2 ^ (t - 8)) fs wide
              (mod-lt r' (pow_pos (t - 8))) fits (omega (arith, size, mul-suc w (length fs)))
            ∙ ap (λ x. value w x fs)
                (regroup_top q r' 8 t (omega arith) ∙ sym (shift q r w bits f)))
      | inr enough ↦
          let left = ltb-false bits 8 enough in
          rw (octets_enough w n bits r (f ∷ fs) enough) (
            value-octets w n (bits - 8) (r % 2 ^ (bits - 8)) (q * 2 ^ 8 + r / 2 ^ (bits - 8))
              (f ∷ fs) wide (mod-lt r (pow_pos (bits - 8))) (fit, fits) (omega (arith, size))
            ∙ ap (λ x. value w x (f ∷ fs)) (regroup_top q r 8 bits left))
    ]

pub one_less : (w x m : ℕ) → 8 ≤ w → w ≤ x → x ≡ w * m → x - w ≡ w * (m - 1)
one_less w x zero wide h e = absurd (omega arith)
one_less w x (suc m) wide h e =
    let back : suc m - 1 ≡ m = omega arith in rw back (omega (arith, e, mul-suc w m))

-- The fields that the expansion reads have the value of its input, when the bits come out even.
pub value-fields :
    (w bits r q m : ℕ) (bs : List ℕ)
    → 8 ≤ w
    → bits < w
    → r < 2 ^ bits
    → All (λ b. b < 256) bs
    → bits + 8 * length bs ≡ w * m
    → value w q (fields w bits r bs) ≡ value 8 (q * 2 ^ bits + r) bs
unfolding value fields
value-fields w bits r q m [] wide lt small fits size =
    sym (no_bits bits r q (no_field w bits m lt (omega arith)) small)
  where
    no_field : (w bits m : ℕ) → bits < w → bits ≡ w * m → bits ≡ 0
    no_field w bits zero lt e = omega arith
    no_field w bits (suc m) lt e = absurd (omega (arith, mul-suc w m))
value-fields w bits r q m (b ∷ bs) wide lt small (fit, fits) size =
    let t = bits + 8 in
    let r' = r * 256 + b in
    let small' = taken-< r 8 bits b small fit in
    elim (Bool-cases (leb w t)) [
      | inl full ↦
          let over = leb-≤ w t full in
          let left = one_less w (t + 8 * length bs) m wide (omega arith) (omega arith) in
          rw (fields_full w bits r b bs full) (
            value-fields w (t - w) (r' % 2 ^ (t - w)) (q * 2 ^ w + r' / 2 ^ (t - w)) (m - 1) bs wide
              (omega arith) (mod-lt r' (pow_pos (t - w))) fits (omega arith)
            ∙ ap (λ x. value 8 x bs) (regroup_top q r' w t over ∙ sym (shift q r 8 bits b)))
      | inr more ↦ rw (fields_more w bits r b bs more) (
          value-fields w t r' q m bs wide (leb-false w t more) small' fits (omega arith)
          ∙ ap (λ x. value 8 x bs) (sym (shift q r 8 bits b)))
    ]
