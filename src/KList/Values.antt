-- ===== src/KList/Values.antt =====
-- The number that a byte string stands for, and what `big_xor` and `is_all_zero` do to it.
use requihash.Base.{
  ℕ, zero, suc, ◌+◌, ◌*◌, ◌^◌, ◌≤◌, ◌<◌, bit_xor, ◌≡◌, refl, sym, ap, ◌∙◌, ◌↔◌, true, ==_iff,
  &&-parts, List, [], ◌∷◌, ◌++◌, length, length-append, replicate, All, arith,
}
use requihash.Base.Bits.{pow-add, pow_pos}
use requihash.Base.Xor.{bit_xor_fields, bit_xor_lt}
use requihash.KList.{big_xor, is_all_zero}
use native.Mathlib.Nat.{mul_assoc}

abbrev pub Bytes : List ℕ → Type 0
Bytes v = All (λ b. b < 256) v

-- The big-endian value.
abbrev pub be_value : List ℕ → ℕ
be_value [] = 0
be_value (b ∷ v) = b * 2 ^ (8 * length v) + be_value v

pub be_value_lt : (v : List ℕ) → Bytes v → be_value v < 2 ^ (8 * length v)
be_value_lt [] h = omega arith
be_value_lt (b ∷ v) h =
    let e : 8 * suc (length v) ≡ 8 + 8 * length v = omega arith in
    let below = be_value_lt v h.1 in
    let room : b * 2 ^ (8 * length v) + 2 ^ (8 * length v) ≤ 2 ^ 8 * 2 ^ (8 * length v) =
      grind (arith, h.0) in
    rw (e, pow-add 8 (8 * length v)) (omega arith)

pub be_value-append :
    (v w : List ℕ) → be_value (v ++ w) ≡ be_value v * 2 ^ (8 * length w) + be_value w
be_value-append [] w = omega arith
be_value-append (b ∷ v) w =
    let e : 8 * length (v ++ w) ≡ 8 * length v + 8 * length w = omega (arith, length-append v w) in
    let weight : b * 2 ^ (8 * length (v ++ w)) ≡ b * 2 ^ (8 * length v) * 2 ^ (8 * length w) =
      ap (λ t. b * 2 ^ t) e
      ∙ ap (λ t. b * t) (pow-add (8 * length v) (8 * length w))
      ∙ sym (mul_assoc b (2 ^ (8 * length v)) (2 ^ (8 * length w))) in
    let split : (b * 2 ^ (8 * length v) + be_value v) * 2 ^ (8 * length w)
        ≡ b * 2 ^ (8 * length v) * 2 ^ (8 * length w) + be_value v * 2 ^ (8 * length w) =
      grind arith in
    omega (arith, weight, split, be_value-append v w)

pub be_value-zeros : (m : ℕ) (v : List ℕ) → be_value (replicate m 0 ++ v) ≡ be_value v
be_value-zeros zero v = refl
be_value-zeros (suc m) v = omega (arith, be_value-zeros m v)

pub length-big_xor : (a b : List ℕ) → length a ≡ length b → length (big_xor a b) ≡ length b
unfolding big_xor
length-big_xor [] [] h = refl
length-big_xor [] (y ∷ b) h = absurd (omega arith)
length-big_xor (x ∷ a) [] h = refl
length-big_xor (x ∷ a) (y ∷ b) h = ap suc (length-big_xor a b (omega arith))

pub big_xor-Bytes : (a b : List ℕ) → Bytes a → Bytes b → Bytes (big_xor a b)
unfolding big_xor
big_xor-Bytes [] b ha hb = tt
big_xor-Bytes (x ∷ a) [] ha hb = tt
big_xor-Bytes (x ∷ a) (y ∷ b) ha hb =
    (bit_xor_lt 8 x y (omega arith) (omega arith), big_xor-Bytes a b ha.1 hb.1)

-- `big_xor` of byte strings of one length is the exclusive or of the numbers.
pub be_value-big_xor :
    (a b : List ℕ)
    → length a ≡ length b
    → Bytes a
    → Bytes b
    → be_value (big_xor a b) ≡ bit_xor (be_value a) (be_value b)
unfolding big_xor
be_value-big_xor [] [] h ha hb = refl
be_value-big_xor [] (y ∷ b) h ha hb = absurd (omega arith)
be_value-big_xor (x ∷ a) [] h ha hb = absurd (omega arith)
be_value-big_xor (x ∷ a) (y ∷ b) h ha hb =
    let same : length a ≡ length b = omega arith in
    let small : be_value a < 2 ^ (8 * length b) = rw (← same) (be_value_lt a ha.1) in
    ap (λ l. bit_xor x y * 2 ^ (8 * l) + be_value (big_xor a b)) (length-big_xor a b same)
    ∙ ap (λ t. bit_xor x y * 2 ^ (8 * length b) + t) (be_value-big_xor a b same ha.1 hb.1)
    ∙ sym (bit_xor_fields (8 * length b) x y (be_value a) (be_value b) small (be_value_lt b hb.1))
    ∙ ap (λ l. bit_xor (x * 2 ^ (8 * l) + be_value a) (y * 2 ^ (8 * length b) + be_value b))
        (sym same)

pub is_all_zero_iff : (v : List ℕ) → (is_all_zero v ≡ true) ↔ (be_value v ≡ 0)
unfolding is_all_zero
is_all_zero_iff [] = (λ _. refl, λ _. refl)
is_all_zero_iff (b ∷ v) =
    let (to, from) = is_all_zero_iff v in
    let weight = pow_pos (8 * length v) in
    (
      λ h.
          let (zero_b, zero_v) = &&-parts _ _ h in
          let none : b ≡ 0 = (==_iff b 0).0 zero_b in rw none (omega (arith, to zero_v)),
      λ h.
          let none : b ≡ 0 = grind arith in
          let rest : be_value v ≡ 0 = omega arith in rw ((==_iff b 0).1 none, from rest),
    )
