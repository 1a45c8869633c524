-- ===== src/Packing/Bytes.antt =====
-- The bytes of one field, and how the expansion writes them.
use requihash.Base.{
  ℕ, zero, suc, ◌+◌, ◌-◌, ◌*◌, ◌/◌, ◌%◌, ◌^◌, ◌≤◌, ◌<◌, bit_and, ◌≡◌, refl, sym, ap, ◌∙◌, List, [],
  ◌∷◌, ◌++◌, length, set, drop, replicate, length-append, arith,
}
use requihash.Base.Bits.{bit_and_mask, pow-add, pow_pos}
use requihash.Base.Pow.{mod-div, mod-mod_le, div-div_pow, pow-le}
use requihash.Packing.{mask_byte, write_zeros, write_value}
use native.Mathlib.Nat.{mod-lt, mod-eq_of_lt, add-mul-div_right, div-eq_of_lt, zero-add}
use native.Mathlib.Decide.{dec_le}
use mathlib.Core.List.{append_assoc, append-nil}

-- The low `n` bytes of `x`, the highest first.
unfoldable pub be : ℕ → ℕ → List ℕ
be zero x = []
be (suc n) x = (x / 2 ^ (8 * n) % 256) ∷ be n x

pub length-be : (n x : ℕ) → length (be n x) ≡ n
unfolding be
length-be zero x = refl
length-be (suc n) x = ap suc (length-be n x)

spread : (a b : ℕ) → 1 ≤ a → 1 ≤ b → b * a - 1 ≡ b - 1 + (a - 1) * b
spread zero b p q = absurd (omega arith)
spread (suc a) zero p q = absurd (omega arith)
spread (suc a) (suc b) p q = let back : suc a - 1 ≡ a = omega arith in rw back (omega arith)

shifted_ones : (m s : ℕ) → (2 ^ (s + m) - 1) / 2 ^ s ≡ 2 ^ m - 1
shifted_ones m s =
    ap (λ t. t / 2 ^ s) parts
    ∙ add-mul-div_right (2 ^ s - 1) (2 ^ m - 1) (pow_pos s)
    ∙ rw (div-eq_of_lt low, zero-add)
  where
    low : 2 ^ s - 1 < 2 ^ s
    low = omega (arith, pow_pos s)

    parts : 2 ^ (s + m) - 1 ≡ 2 ^ s - 1 + (2 ^ m - 1) * 2 ^ s
    parts = rw (pow-add s m) (spread (2 ^ m) (2 ^ s) (pow_pos m) (pow_pos s))

-- `y & mask_byte` keeps the bits that belong to the field.
pub masked :
    (bit_len s y : ℕ)
    → 8 * s ≤ bit_len
    → bit_and y (mask_byte bit_len s) ≡ y % 2 ^ (bit_len - 8 * s) % 256
unfolding mask_byte
masked bit_len s y h =
    let m = bit_len - 8 * s in
    let e : bit_len ≡ 8 * s + m = omega arith in
    ap (λ n. bit_and y (bit_and ((2 ^ n - 1) / 2 ^ (8 * s)) 0xFF)) e
    ∙ rw (shifted_ones m (8 * s), bit_and_mask 8 (2 ^ m - 1))
        (elim (dec_le 8 m) [
          | yes wide ↦ rw (full_byte m wide, bit_and_mask 8 y) (sym (mod-mod_le y 8 m wide))
          | no narrow ↦
              rw (part_byte m (omega arith), bit_and_mask m y)
                (sym (mod-eq_of_lt {n = y % 2 ^ m} {m = 256} (small y m (omega arith))))
        ])
  where
    full_byte : (m : ℕ) → 8 ≤ m → (2 ^ m - 1) % 256 ≡ 255
    full_byte m wide =
        let e : m ≡ 8 + (m - 8) = omega arith in
        ap (λ n. (2 ^ n - 1) % 256) e ∙ rw (pow-add 8 (m - 8)) (omega (arith, pow_pos (m - 8)))

    part_byte : (m : ℕ) → m ≤ 8 → (2 ^ m - 1) % 256 ≡ 2 ^ m - 1
    part_byte m narrow = omega (arith, pow-le m 8 narrow, pow_pos m)

    small : (y m : ℕ) → m ≤ 8 → y % 2 ^ m < 256
    small y m narrow = omega (arith, pow-le m 8 narrow, pow_pos m, mod-lt y (pow_pos m))

-- Byte `s` of the field that the accumulator holds above `bits`.
pub field_byte :
    (bit_len acc bits s : ℕ)
    → 8 * s ≤ bit_len
    → bit_and (acc / 2 ^ (bits + 8 * s)) (mask_byte bit_len s) % 256
      ≡ acc / 2 ^ bits % 2 ^ bit_len / 2 ^ (8 * s) % 256
field_byte bit_len acc bits s h =
    let e : bit_len ≡ 8 * s + (bit_len - 8 * s) = omega arith in
    rw (masked bit_len s (acc / 2 ^ (bits + 8 * s)) h, ← div-div_pow acc bits (8 * s))
      (twice _
        ∙ ap (λ t. t % 256) (sym (mod-div (acc / 2 ^ bits) (8 * s) (bit_len - 8 * s)))
        ∙ ap (λ n. acc / 2 ^ bits % 2 ^ n / 2 ^ (8 * s) % 256) (sym e))
  where
    twice : (x : ℕ) → x % 256 % 256 ≡ x % 256
    twice x = omega arith

module _ {ℓ} {A : Type ℓ} where
  set-append :
      (done rest : List A) (i : ℕ) (x v : A)
      → i ≡ length done
      → set (done ++ (x ∷ rest)) i v ≡ (done ++ (v ∷ [])) ++ rest
  set-append [] rest zero x v e = refl
  set-append [] rest (suc i) x v e = absurd (omega arith)
  set-append (d ∷ done) rest zero x v e = absurd (omega arith)
  set-append (d ∷ done) rest (suc i) x v e = ap (◌∷◌ d) (set-append done rest i x v (omega arith))

-- `write_zeros` and `write_value` write behind what is done.
pub write_zeros-append :
    (i left : ℕ) (done rest : List ℕ)
    → i ≡ length done
    → left ≤ length rest
    → write_zeros i left (done ++ rest) ≡ (done ++ replicate left 0) ++ drop left rest
unfolding write_zeros
write_zeros-append i zero done rest e h = rw append-nil
write_zeros-append i (suc left) done [] e h = absurd (omega arith)
write_zeros-append i (suc left) done (x ∷ rest) e h = rw (set-append done rest i x 0 e) (
    write_zeros-append (i + 1) left (done ++ (0 ∷ [])) rest
      (omega (arith, length-append done (0 ∷ []))) (omega arith)
    ∙ ap (λ t. t ++ drop left rest) (append_assoc done (0 ∷ []) (replicate left 0)))

pub write_value-append :
    (bit_len acc bits i left : ℕ) (done rest : List ℕ)
    → i ≡ length done
    → left ≤ length rest
    → 8 * left ≤ bit_len + 7
    → write_value bit_len acc bits i left (done ++ rest)
      ≡ (done ++ be left (acc / 2 ^ bits % 2 ^ bit_len)) ++ drop left rest
unfolding write_value be
write_value-append bit_len acc bits i zero done rest e h w = rw append-nil
write_value-append bit_len acc bits i (suc left) done [] e h w = absurd (omega arith)
write_value-append bit_len acc bits i (suc left) done (x ∷ rest) e h w =
    let b = acc / 2 ^ bits % 2 ^ bit_len / 2 ^ (8 * left) % 256 in
    rw (field_byte bit_len acc bits left (omega arith), set-append done rest i x b e)
      (write_value-append bit_len acc bits (i + 1) left (done ++ (b ∷ [])) rest
          (omega (arith, length-append done (b ∷ []))) (omega arith) (omega arith)
        ∙ ap (λ t. t ++ drop left rest) (append_assoc done (b ∷ []) _))
