-- ===== src/KList/Shift.antt =====
-- `big_shr` divides the number by a power of two.
use requihash.Base.{
  ℕ, zero, suc, ◌+◌, ◌-◌, ◌*◌, ◌/◌, ◌%◌, ◌^◌, ◌≤◌, ◌<◌, bit_or, ◌≡◌, refl, sym, ap, ◌∙◌, inl, inr,
  ltb, leb, ◌==◌, ==_iff, leb-≤, leb-false, Bool-cases, if◌then◌else◌, true, List, [], ◌∷◌, ◌++◌,
  length, length-append, length-replicate, length-take, get_or, set, take, drop, drop_all,
  take-append-drop, length-drop, replicate, All-append, arith,
}
use requihash.Base.Bits.{pow-add, pow_pos, bit_or_fields, bit_or_comm}
use requihash.Base.Pow.{append-mod, div-div_pow, div-lt_pow, pow-le}
use requihash.KList.{shifted_byte, shr_loop, big_shr}
use requihash.KList.Values.{Bytes, be_value, be_value_lt, be_value-append, be_value-zeros}
use mathlib.Core.Path.{subst}
use mathlib.Core.List.{append-nil}
use native.Mathlib.Decide.{dec_lt}
use native.Mathlib.Nat.{
  add_comm, div-add-mod', mod-lt, div-eq_of_lt, mod-eq_of_lt, add-mul-div_right, zero-add,
}

-- A byte of the result in numbers: `s` bits of the byte before, and the rest of `lo`.
byte_lem :
    (s lo hi : ℕ)
    → s < 8
    → lo < 256
    → hi < 256
    → shifted_byte s lo hi ≡ hi % 2 ^ s * 2 ^ (8 - s) + lo / 2 ^ s
unfolding shifted_byte
byte_lem s lo hi hs hl hh = elim (Bool-cases (s == 0)) [
  | inl e ↦ let none : s ≡ 0 = (==_iff s 0).0 e in rw (e, none) (omega arith)
  | inr e ↦ rw e (apart (8 - s) (omega arith) (omega arith))
]
  where
    apart :
        (r : ℕ)
        → r + s ≡ 8
        → r ≤ 8
        → bit_or (lo / 2 ^ s) (hi * 2 ^ r % 65536) % 256 ≡ hi % 2 ^ s * 2 ^ r + lo / 2 ^ s
    apart r room le =
        let small : lo / 2 ^ s < 2 ^ r = div-lt_pow lo s r (rw (add_comm s r, room) hl) in
        let wide : hi * 2 ^ r ≤ hi * 2 ^ 8 = grind (arith, pow-le r 8 le) in
        let fits : hi * 2 ^ r % 65536 ≡ hi * 2 ^ r = omega arith in
        ap (λ h. bit_or (lo / 2 ^ s) h % 256) fits
        ∙ ap (λ t. t % 256)
            (bit_or_comm (lo / 2 ^ s) (hi * 2 ^ r) ∙ bit_or_fields r hi (lo / 2 ^ s) small)
        ∙ ap (λ t. (hi * 2 ^ r + lo / 2 ^ s) % 2 ^ t) (sym room)
        ∙ append-mod hi (lo / 2 ^ s) r s small

-- The bytes of a string shifted by less than a byte, after the byte `hi`.
shift_bytes : ℕ → ℕ → List ℕ → List ℕ
shift_bytes s hi [] = []
shift_bytes s hi (lo ∷ v) = shifted_byte s lo hi ∷ shift_bytes s lo v

length-shift_bytes : (s hi : ℕ) (v : List ℕ) → length (shift_bytes s hi v) ≡ length v
unfolding shift_bytes
length-shift_bytes s hi [] = refl
length-shift_bytes s hi (lo ∷ v) = ap suc (length-shift_bytes s lo v)

regroup :
    (h c p w q r v : ℕ)
    → c * p ≡ 256
    → h * (256 * w) + ((q * p + r) * w + v) ≡ (r * w + v) + (h * c + q) * w * p
regroup h c p w q r v e =
    let a : h * (256 * w) ≡ h * c * w * p = rw (← e) (grind arith) in
    let b : (q * p + r) * w ≡ q * w * p + r * w = grind arith in
    let d : (h * c + q) * w * p ≡ h * c * w * p + q * w * p = grind arith in omega arith

be_value-shift_bytes :
    (s hi : ℕ) (v : List ℕ)
    → s < 8
    → hi < 256
    → Bytes v
    → be_value (shift_bytes s hi v) ≡ (hi % 2 ^ s * 2 ^ (8 * length v) + be_value v) / 2 ^ s
unfolding shift_bytes
be_value-shift_bytes s hi [] hs hh hv =
    sym (ap (λ t. t / 2 ^ s) (omega arith) ∙ div-eq_of_lt (mod-lt hi (pow_pos s)))
be_value-shift_bytes s hi (lo ∷ v) hs hh hv =
    let w : ℕ = 2 ^ (8 * length v) in
    let p : ℕ = 2 ^ s in
    let weight : 2 ^ (8 * suc (length v)) ≡ 256 * w =
      let e : 8 * suc (length v) ≡ 8 + 8 * length v = omega arith in
      ap (λ t. 2 ^ t) e ∙ pow-add 8 (8 * length v) in
    let whole : 2 ^ (8 - s) * 2 ^ s ≡ 256 =
      let e : (8 - s) + s ≡ 8 = omega arith in sym (pow-add (8 - s) s) ∙ ap (λ t. 2 ^ t) e in
    let numerator : hi % p * 2 ^ (8 * suc (length v)) + (lo * w + be_value v)
        ≡ (lo % p * w + be_value v) + (hi % p * 2 ^ (8 - s) + lo / p) * w * p =
      ap (λ t. hi % p * t + (lo * w + be_value v)) weight
      ∙ ap (λ t. hi % p * (256 * w) + (t * w + be_value v)) (sym (div-add-mod' lo p))
      ∙ regroup (hi % p) (2 ^ (8 - s)) p w (lo / p) (lo % p) (be_value v) whole in
    ap (λ l. shifted_byte s lo hi * 2 ^ (8 * l) + be_value (shift_bytes s lo v))
      (length-shift_bytes s lo v)
    ∙ rw (byte_lem s lo hi hs hv.0 hh, be_value-shift_bytes s lo v hs hv.0 hv.1)
        (add_comm ((hi % p * 2 ^ (8 - s) + lo / p) * w) ((lo % p * w + be_value v) / p))
    ∙ sym (
        add-mul-div_right (lo % p * w + be_value v) ((hi % p * 2 ^ (8 - s) + lo / p) * w)
          (pow_pos s))
    ∙ ap (λ t. t / p) (sym numerator)

get_or-take : (n : ℕ) (v : List ℕ) (i : ℕ) → i < n → get_or (take n v) i 0 ≡ get_or v i 0
get_or-take zero v i h = absurd (omega arith)
get_or-take (suc n) [] i h = refl
get_or-take (suc n) (b ∷ v) zero h = refl
get_or-take (suc n) (b ∷ v) (suc i) h = get_or-take n v i (omega arith)

-- The byte of `v` before the place `i`.
abbrev before : List ℕ → ℕ → ℕ → ℕ
before v i hi = if ltb 0 i then get_or v (i - 1) 0 else hi

before_lem : (v : List ℕ) (i hi : ℕ) → before v (suc i) hi ≡ get_or v i 0
before_lem v i hi =
    let test : ltb 0 (suc i) ≡ true = ground arith in
    let place : suc i - 1 ≡ i = omega arith in rw test (ap (λ t. get_or v t 0) place)

before-suc : (lo hi : ℕ) (v : List ℕ) (i : ℕ) → before v i lo ≡ before (lo ∷ v) (suc i) hi
before-suc lo hi v zero = refl
before-suc lo hi v (suc i) = before_lem v i lo ∙ sym (before_lem (lo ∷ v) (suc i) hi)

drop-shift_bytes :
    (s hi : ℕ) (v : List ℕ) (i : ℕ)
    → i < length v
    → drop i (shift_bytes s hi v)
      ≡ shifted_byte s (get_or v i 0) (before v i hi) ∷ drop (suc i) (shift_bytes s hi v)
unfolding shift_bytes
drop-shift_bytes s hi [] i h = absurd (omega arith)
drop-shift_bytes s hi (lo ∷ v) zero h = refl
drop-shift_bytes s hi (lo ∷ v) (suc i) h =
    drop-shift_bytes s lo v i (omega arith)
    ∙ ap (λ b. shifted_byte s (get_or v i 0) b ∷ drop (suc i) (shift_bytes s lo v))
        (before-suc lo hi v i)

set_last :
    (m : ℕ) (x : ℕ) (rest : List ℕ)
    → set (replicate (suc m) 0 ++ rest) m x ≡ replicate m 0 ++ (x ∷ rest)
set_last zero x rest = refl
set_last (suc m) x rest = ap (◌∷◌ 0) (set_last m x rest)

-- The zeros that are left stand before the bytes that have been written.
shr_loop_lem :
    (v : List ℕ) (bs s m left j : ℕ)
    → bs + m ≡ length v
    → left + j ≡ m
    → shr_loop v bs s left j (replicate (bs + left) 0 ++ drop left (shift_bytes s 0 (take m v)))
      ≡ replicate bs 0 ++ shift_bytes s 0 (take m v)
unfolding shr_loop
shr_loop_lem v bs s m zero j em el =
    let e : bs + 0 ≡ bs = omega arith in ap (λ t. replicate t 0 ++ shift_bytes s 0 (take m v)) e
shr_loop_lem v bs s m (suc left) j em el =
    let at_out : length v - 1 - j ≡ bs + left = omega arith in
    let at_src : length v - 1 - j - bs ≡ left = omega arith in
    let x : ℕ = shifted_byte s (get_or v left 0) (before v left 0) in
    let len : left < length (take m v) = omega (arith, length-take m v) in
    let written : set (replicate (bs + suc left) 0 ++ drop (suc left) (shift_bytes s 0 (take m v)))
          (bs + left) x
        ≡ replicate (bs + left) 0 ++ (x ∷ drop (suc left) (shift_bytes s 0 (take m v))) =
      let e : bs + suc left ≡ suc (bs + left) = omega arith in
      ap (λ t. set (replicate t 0 ++ drop (suc left) (shift_bytes s 0 (take m v))) (bs + left) x) e
      ∙ set_last (bs + left) x (drop (suc left) (shift_bytes s 0 (take m v))) in
    let known : drop left (shift_bytes s 0 (take m v))
        ≡ x ∷ drop (suc left) (shift_bytes s 0 (take m v)) =
      drop-shift_bytes s 0 (take m v) left len
      ∙ ap
          (λ b.
            shifted_byte s b (before (take m v) left 0)
            ∷ drop (suc left) (shift_bytes s 0 (take m v)))
          (get_or-take m v left (omega arith))
      ∙ ap (λ b. shifted_byte s (get_or v left 0) b ∷ drop (suc left) (shift_bytes s 0 (take m v)))
          (before-take left (omega arith)) in
    rw (at_src, at_out, written, ← known) (shr_loop_lem v bs s m left (j + 1) em (omega arith))
  where
    before-take : (i : ℕ) → i < m → before (take m v) i 0 ≡ before v i 0
    before-take zero h = refl
    before-take (suc i) h =
        before_lem (take m v) i 0 ∙ get_or-take m v i (omega arith) ∙ sym (before_lem v i 0)

module _ (v : List ℕ) (bits : ℕ) where
  big_shr-bytes :
      bits / 8 < length v
      → big_shr v bits
        ≡ replicate (bits / 8) 0 ++ shift_bytes (bits % 8) 0 (take (length v - bits / 8) v)
  unfolding big_shr
  big_shr-bytes h = elim (Bool-cases (leb (length v) (bits / 8))) [
    | inl e ↦ absurd (omega (arith, leb-≤ _ _ e))
    | inr e ↦
        let m : ℕ = length v - bits / 8 in
        let whole : bits / 8 + m ≡ length v = omega arith in
        let len = length-shift_bytes (bits % 8) 0 (take m v) in
        let none : drop m (shift_bytes (bits % 8) 0 (take m v)) ≡ [] =
          drop_all m _ (omega (arith, len, length-take m v)) in
        rw e (
          ap (shr_loop v (bits / 8) (bits % 8) m 0) (
            ap (λ t. replicate t 0) (sym whole)
            ∙ sym (append-nil (replicate (bits / 8 + m) 0))
            ∙ ap (λ t. replicate (bits / 8 + m) 0 ++ t) (sym none))
          ∙ shr_loop_lem v (bits / 8) (bits % 8) m m 0 whole (omega arith))
  ]

  big_shr-zeros : length v ≤ bits / 8 → big_shr v bits ≡ replicate (length v) 0
  unfolding big_shr
  big_shr-zeros h = elim (Bool-cases (leb (length v) (bits / 8))) [
    | inl e ↦ rw e
    | inr e ↦ absurd (omega (arith, leb-false _ _ e))
  ]

pub Bytes-zeros : (n : ℕ) → Bytes (replicate n 0)
Bytes-zeros zero = tt
Bytes-zeros (suc n) = (omega arith, Bytes-zeros n)

Bytes-take : (m : ℕ) (v : List ℕ) → Bytes v → Bytes (take m v)
Bytes-take zero v h = tt
Bytes-take (suc m) [] h = tt
Bytes-take (suc m) (b ∷ v) h = (h.0, Bytes-take m v h.1)

shifted_byte_lt : (s lo hi : ℕ) → shifted_byte s lo hi < 256
unfolding shifted_byte
shifted_byte_lt s lo hi = ground arith

shift_bytes-Bytes : (s hi : ℕ) (v : List ℕ) → Bytes (shift_bytes s hi v)
unfolding shift_bytes
shift_bytes-Bytes s hi [] = tt
shift_bytes-Bytes s hi (lo ∷ v) = (shifted_byte_lt s lo hi, shift_bytes-Bytes s lo v)

pub be_value-replicate : (n : ℕ) → be_value (replicate n 0) ≡ 0
be_value-replicate n = ap be_value (sym (append-nil (replicate n 0))) ∙ be_value-zeros n []

-- `big_shr` gives a string of the same length.
pub length-big_shr : (v : List ℕ) (bits : ℕ) → length (big_shr v bits) ≡ length v
length-big_shr v bits = elim (dec_lt (bits / 8) (length v)) [
  | yes h ↦
      ap length (big_shr-bytes v bits h)
      ∙ omega (
        arith,
        length-append (replicate (bits / 8) 0)
            (shift_bytes (bits % 8) 0 (take (length v - bits / 8) v)),
        length-replicate {A = ℕ} (bits / 8) 0,
        length-shift_bytes (bits % 8) 0 (take (length v - bits / 8) v),
        length-take (length v - bits / 8) v,
      )
  | no h ↦ ap length (big_shr-zeros v bits (omega arith)) ∙ length-replicate (length v) 0
]

pub big_shr-Bytes : (v : List ℕ) (bits : ℕ) → Bytes (big_shr v bits)
big_shr-Bytes v bits = elim (dec_lt (bits / 8) (length v)) [
  | yes h ↦ rw (big_shr-bytes v bits h) (
      All-append (λ b. b < 256) (replicate (bits / 8) 0) _ (Bytes-zeros (bits / 8))
        (shift_bytes-Bytes (bits % 8) 0 (take (length v - bits / 8) v)))
  | no h ↦ rw (big_shr-zeros v bits (omega arith)) (Bytes-zeros (length v))
]

-- Whole bytes are dropped from the end.
be_value-take :
    (v : List ℕ) (bs : ℕ)
    → bs ≤ length v
    → Bytes v
    → be_value (take (length v - bs) v) ≡ be_value v / 2 ^ (8 * bs)
be_value-take v bs h hv =
    let m : ℕ = length v - bs in
    let len : length (drop m v) ≡ bs = omega (arith, length-drop m v) in
    let low : be_value (drop m v) < 2 ^ (8 * bs) =
      let lt = be_value_lt (drop m v) (All-drop m v hv) in
      subst (λ (l : ℕ). be_value (drop m v) < 2 ^ (8 * l)) len lt in
    sym (
      ap (λ t. be_value t / 2 ^ (8 * bs)) (sym (take-append-drop m v))
      ∙ ap (λ t. t / 2 ^ (8 * bs)) (be_value-append (take m v) (drop m v))
      ∙ ap (λ l. (be_value (take m v) * 2 ^ (8 * l) + be_value (drop m v)) / 2 ^ (8 * bs)) len
      ∙ ap (λ t. t / 2 ^ (8 * bs))
          (add_comm (be_value (take m v) * 2 ^ (8 * bs)) (be_value (drop m v)))
      ∙ add-mul-div_right (be_value (drop m v)) (be_value (take m v)) (pow_pos (8 * bs))
      ∙ rw (div-eq_of_lt low, zero-add))
  where
    All-drop : (m : ℕ) (v : List ℕ) → Bytes v → Bytes (drop m v)
    All-drop zero v h = h
    All-drop (suc m) [] h = tt
    All-drop (suc m) (b ∷ v) h = All-drop m v h.1

-- `big_shr` keeps the length of the string and divides its number by `2 ^ bits`, rounding down, for
-- every count of bits.
pub be_value-big_shr :
    (v : List ℕ) (bits : ℕ)
    → Bytes v
    → (length (big_shr v bits) ≡ length v) × (be_value (big_shr v bits) ≡ be_value v / 2 ^ bits)
be_value-big_shr v bits hv = (
  length-big_shr v bits,
  elim (dec_lt (bits / 8) (length v)) [
    | yes h ↦
        let m : ℕ = length v - bits / 8 in
        let parts : 8 * (bits / 8) + bits % 8 ≡ bits = omega arith in
        ap be_value (big_shr-bytes v bits h)
        ∙ be_value-zeros (bits / 8) (shift_bytes (bits % 8) 0 (take m v))
        ∙ be_value-shift_bytes (bits % 8) 0 (take m v) (omega arith) (omega arith)
            (Bytes-take m v hv)
        ∙ ap (λ t. t / 2 ^ (bits % 8)) (clear m)
        ∙ ap (λ t. t / 2 ^ (bits % 8)) (be_value-take v (bits / 8) (omega arith) hv)
        ∙ div-div_pow (be_value v) (8 * (bits / 8)) (bits % 8)
        ∙ ap (λ t. be_value v / 2 ^ t) parts
    | no h ↦
        let all = be_value_lt v hv in
        let wide = pow-le (8 * length v) bits (omega arith) in
        ap be_value (big_shr-zeros v bits (omega arith))
        ∙ be_value-replicate (length v)
        ∙ sym (div-eq_of_lt (omega arith))
  ],
)
  where
    clear :
        (m : ℕ)
        → 0 % 2 ^ (bits % 8) * 2 ^ (8 * length (take m v)) + be_value (take m v)
          ≡ be_value (take m v)
    clear m =
        let none : 0 % 2 ^ (bits % 8) ≡ 0 = mod-eq_of_lt (pow_pos (bits % 8)) in
        ap (λ t. t * 2 ^ (8 * length (take m v)) + be_value (take m v)) none ∙ omega arith
