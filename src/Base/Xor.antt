-- ===== src/Base/Xor.antt =====
-- `^` of numbers that are read as fields of bits.
use Prim.Native.Nat.{ℕ, zero, suc, ◌+◌, ◌*◌, ◌/◌, ◌%◌, ◌^◌, ◌<◌, differ, bit_xor}
use mathlib.Core.Path.{◌≡◌, sym, ap, ◌∙◌}
use native.Mathlib.Nat.{
  add_comm, div-add-mod', mod-eq_of_lt, div-eq_of_lt, div-lt_iff_lt-mul, add-mul-div_right,
  add-mul-mod_self_right, zero-add,
}
use native.Mathlib.Omega.{arith}
use requihash.Base.Bits.{
  xor_halves, bit_xor_parts, bit_xor_self, bit_xor_assoc, zero-bit_xor, bit_xor-zero, pow_pos,
}
use requihash.Base.Pow.{mod-div, mod-mod_pow, mod-pow_add, div-div_pow}

pub div-bit_xor : (k a b : ℕ) → bit_xor a b / 2 ^ k ≡ bit_xor (a / 2 ^ k) (b / 2 ^ k)
div-bit_xor zero a b =
    let one : (n : ℕ) → n / 2 ^ 0 ≡ n = λ n. omega arith in rw (one a, one b, one (bit_xor a b))
div-bit_xor (suc k) a b =
    let e : suc k ≡ 1 + k = omega arith in
    let below : (n : ℕ) → n / 2 ^ suc k ≡ n / 2 / 2 ^ k =
      λ n. ap (λ t. n / 2 ^ t) e ∙ sym (div-div_pow n 1 k) in
    below (bit_xor a b)
    ∙ ap (λ t. t / 2 ^ k) (bit_xor_parts a b).0
    ∙ div-bit_xor k (a / 2) (b / 2)
    ∙ rw (below a, below b)

pub mod-bit_xor : (k a b : ℕ) → bit_xor a b % 2 ^ k ≡ bit_xor (a % 2 ^ k) (b % 2 ^ k)
mod-bit_xor zero a b =
    let one : (n : ℕ) → n % 2 ^ 0 ≡ 0 = λ n. omega arith in rw (one a, one b, one (bit_xor a b))
mod-bit_xor (suc k) a b =
    let e : suc k ≡ 1 + k = omega arith in
    let high : (n : ℕ) → n % 2 ^ (1 + k) / 2 ≡ n / 2 % 2 ^ k = λ n. mod-div n 1 k in
    let low : (n : ℕ) → n % 2 ^ (1 + k) % 2 ≡ n % 2 = λ n. mod-mod_pow n 1 k in
    let whole : bit_xor a b % 2 ^ (1 + k) ≡ bit_xor a b % 2 + bit_xor a b / 2 % 2 ^ k * 2 =
      mod-pow_add (bit_xor a b) 1 k in
    let parts : bit_xor (a % 2 ^ (1 + k)) (b % 2 ^ (1 + k))
        ≡ bit_xor (a / 2 % 2 ^ k) (b / 2 % 2 ^ k) * 2 + differ (a % 2) (b % 2) =
      xor_halves (a % 2 ^ (1 + k)) (b % 2 ^ (1 + k)) ∙ rw (high a, high b, low a, low b) in
    rw e (
      whole
      ∙ rw (bit_xor_parts a b).0
          (rw (bit_xor_parts a b).1 (rw (mod-bit_xor k (a / 2) (b / 2)) (omega (arith, parts)))))

-- Two fields side by side.
pub bit_xor_fields :
    (k a b r s : ℕ)
    → r < 2 ^ k
    → s < 2 ^ k
    → bit_xor (a * 2 ^ k + r) (b * 2 ^ k + s) ≡ bit_xor a b * 2 ^ k + bit_xor r s
bit_xor_fields k a b r s hr hs =
    sym (div-add-mod' (bit_xor (a * 2 ^ k + r) (b * 2 ^ k + s)) (2 ^ k))
    ∙ rw (
      div-bit_xor k (a * 2 ^ k + r) (b * 2 ^ k + s),
      mod-bit_xor k (a * 2 ^ k + r) (b * 2 ^ k + s),
      high a r hr,
      high b s hs,
      low a r hr,
      low b s hs,
    )
  where
    high : (c t : ℕ) → t < 2 ^ k → (c * 2 ^ k + t) / 2 ^ k ≡ c
    high c t h =
        ap (λ u. u / 2 ^ k) (add_comm (c * 2 ^ k) t)
        ∙ add-mul-div_right t c (pow_pos k)
        ∙ rw (div-eq_of_lt h, zero-add)

    low : (c t : ℕ) → t < 2 ^ k → (c * 2 ^ k + t) % 2 ^ k ≡ t
    low c t h =
        ap (λ u. u % 2 ^ k) (add_comm (c * 2 ^ k) t)
        ∙ add-mul-mod_self_right t c (2 ^ k)
        ∙ mod-eq_of_lt h

pub bit_xor_lt : (k a b : ℕ) → a < 2 ^ k → b < 2 ^ k → bit_xor a b < 2 ^ k
bit_xor_lt k a b ha hb =
    let none : bit_xor a b / 2 ^ k ≡ 0 =
      div-bit_xor k a b ∙ rw (div-eq_of_lt ha, div-eq_of_lt hb) in
    let (to, from) = div-lt_iff_lt-mul {k = 2 ^ k} {x = bit_xor a b} {y = 1} (pow_pos k) in
    omega (arith, to (omega arith))

-- `a ^ b` is 0 exactly when `a` and `b` are equal.
pub eq_of_bit_xor : (a b : ℕ) → bit_xor a b ≡ 0 → a ≡ b
eq_of_bit_xor a b h =
    sym (bit_xor-zero a)
    ∙ ap (bit_xor a) (sym h)
    ∙ sym (bit_xor_assoc a a b)
    ∙ rw (bit_xor_self, zero-bit_xor)
