-- ===== src/Packing/Reading.antt =====
-- The inner loop of `compress_array` of Req/rust/src/lib.rs takes a field in.
use requihash.Base.{
  ℕ, zero, suc, ◌+◌, ◌-◌, ◌*◌, ◌/◌, ◌%◌, ◌^◌, ◌≤◌, ◌<◌, bit_and, ◌≡◌, ap, ◌∙◌, List, ◌++◌,
  get_or-drop, drop, arith,
}
use requihash.Base.Bits.{bit_or_fields, pow-add, pow_pos}
use requihash.Base.Pow.{mod-pow_add, pow-le, div-lt_pow}
use requihash.Packing.{mask_byte, read_value}
use requihash.Packing.Bytes.{be, masked}
use native.Mathlib.Nat.{mod-lt, mod-eq_of_lt}

-- The mask changes nothing in a byte of a field that fits.
masked_fits :
    (w left f : ℕ)
    → 8 * left ≤ w
    → f < 2 ^ w
    → bit_and (f / 2 ^ (8 * left) % 256) (mask_byte w left) ≡ f / 2 ^ (8 * left) % 256
masked_fits w left f h fits =
    masked w left (f / 2 ^ (8 * left) % 256) h
    ∙ rw (mod-eq_of_lt {n = f / 2 ^ (8 * left) % 256} {m = 2 ^ (w - 8 * left)} low) (twice _)
  where
    twice : (x : ℕ) → x % 256 % 256 ≡ x % 256
    twice x = omega arith

    e : w ≡ 8 * left + (w - 8 * left)
    e = omega arith

    top : f / 2 ^ (8 * left) < 2 ^ (w - 8 * left)
    top = div-lt_pow f (8 * left) (w - 8 * left) (omega (arith, fits, ap (λ n. 2 ^ n) e))

    low : f / 2 ^ (8 * left) % 256 < 2 ^ (w - 8 * left)
    low = omega (arith, top)

byte_fits : (x left : ℕ) → x < 256 → left ≤ 3 → x * 2 ^ (8 * left) < 2 ^ 32
byte_fits x left small h = grind (arith, pow-le (8 * left) 24 (omega arith))

-- The bytes of `f` are put below `y`.
pub read_value-be :
    (w left m y f at : ℕ) (input rest : List ℕ)
    → left ≤ 4
    → 8 * left ≤ w + 7
    → 8 * left ≤ m + 8
    → f < 2 ^ w
    → f % 2 ^ (8 * left) < 2 ^ m
    → drop at input ≡ be left f ++ rest
    → read_value w input at left (y * 2 ^ m) ≡ y * 2 ^ m + f % 2 ^ (8 * left)
unfolding read_value be
read_value-be w zero m y f at input rest four hw hm fits low e = omega arith
read_value-be w (suc left) m y f at input rest four hw hm fits low e =
    let (here, next) = get_or-drop input at 0 (f / 2 ^ (8 * left) % 256) (be left f ++ rest) e in
    let x = f / 2 ^ (8 * left) % 256 in
    rw
      (
        here,
        masked_fits w left f (omega arith) fits,
        mod-eq_of_lt (byte_fits x left (omega arith) (omega arith)),
        bit_or_fields m y (x * 2 ^ (8 * left)) (omega (arith, low, split)),
        regroup,
      )
      (read_value-be w left (8 * left) (y * 2 ^ (m - 8 * left) + x) f (at + 1) input rest
          (omega arith) (omega arith) (omega arith) fits (mod-lt f (pow_pos (8 * left))) next
        ∙ omega (arith, regroup, split))
  where
    split : f % 2 ^ (8 * suc left) ≡ f % 2 ^ (8 * left) + f / 2 ^ (8 * left) % 256 * 2 ^ (8 * left)
    split =
        ap (λ n. f % 2 ^ n) {x = 8 * suc left} {y = 8 * left + 8} (omega arith)
        ∙ mod-pow_add f (8 * left) 8

    regroup :
        y * 2 ^ m + f / 2 ^ (8 * left) % 256 * 2 ^ (8 * left)
        ≡ (y * 2 ^ (m - 8 * left) + f / 2 ^ (8 * left) % 256) * 2 ^ (8 * left)
    regroup =
        let parts : 2 ^ m ≡ 2 ^ (m - 8 * left) * 2 ^ (8 * left) =
          ap (λ n. 2 ^ n) {x = m} {y = m - 8 * left + 8 * left} (omega arith)
          ∙ pow-add (m - 8 * left) (8 * left) in
        grind (arith, ap (λ t. y * t) parts)
