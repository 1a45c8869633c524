-- ===== src/Base/Pow.antt =====
-- Quotients and remainders by powers of two.
use Prim.Native.Nat.{ℕ, ◌+◌, ◌-◌, ◌*◌, ◌/◌, ◌%◌, ◌^◌, ◌≤◌, ◌<◌}
use mathlib.Core.Path.{◌≡◌, ap, ◌∙◌}
use native.Mathlib.Nat.{
  add_comm, mul_comm, div-add-mod', mod-lt, add-mul-mod_self_right, mod-eq_of_lt, add-mul-div_right,
  div-eq_of_lt, div-lt_iff_lt-mul, div-div-eq-div-mul, zero-add, mul-mod_left, mul-div_cancel,
  pow-le-pow_right,
}
use native.Mathlib.Omega.{arith}
use requihash.Base.Bits.{pow-add, pow_pos}

-- The low digit in base `p` and the one above it in base `q`.
split_mod : (a p q : ℕ) → 0 < p → 0 < q → a % (p * q) ≡ a % p + a / p % q * p
split_mod a p q hp hq =
    ap (λ t. t % (p * q)) whole
    ∙ add-mul-mod_self_right (a % p + a / p % q * p) (a / p / q) (p * q)
    ∙ mod-eq_of_lt small
  where
    whole : a ≡ a % p + a / p % q * p + a / p / q * (p * q)
    whole = omega (arith, div-add-mod' a p, ap (λ (t : ℕ). t * p) (div-add-mod' (a / p) q))

    small : a % p + a / p % q * p < p * q
    small = grind (arith, mod-lt a hp, mod-lt (a / p) hq)

pub mod-div : (a s t : ℕ) → a % 2 ^ (s + t) / 2 ^ s ≡ a / 2 ^ s % 2 ^ t
mod-div a s t = rw (
  pow-add s t,
  split_mod a (2 ^ s) (2 ^ t) (pow_pos s) (pow_pos t),
  add-mul-div_right (a % 2 ^ s) (a / 2 ^ s % 2 ^ t) (pow_pos s),
  div-eq_of_lt (mod-lt a (pow_pos s)),
  zero-add,
)

pub mod-mod_pow : (a s t : ℕ) → a % 2 ^ (s + t) % 2 ^ s ≡ a % 2 ^ s
mod-mod_pow a s t = rw (
  pow-add s t,
  split_mod a (2 ^ s) (2 ^ t) (pow_pos s) (pow_pos t),
  add-mul-mod_self_right (a % 2 ^ s) (a / 2 ^ s % 2 ^ t) (2 ^ s),
  mod-eq_of_lt (mod-lt a (pow_pos s)),
)

-- The low `s + t` bits are the `t` above and the `s` below.
pub mod-pow_add : (a s t : ℕ) → a % 2 ^ (s + t) ≡ a % 2 ^ s + a / 2 ^ s % 2 ^ t * 2 ^ s
mod-pow_add a s t = rw (pow-add s t) (split_mod a (2 ^ s) (2 ^ t) (pow_pos s) (pow_pos t))

pub mod-mod_le : (a m n : ℕ) → m ≤ n → a % 2 ^ n % 2 ^ m ≡ a % 2 ^ m
mod-mod_le a m n h =
    let e : n ≡ m + (n - m) = omega arith in ap (λ t. a % 2 ^ t % 2 ^ m) e ∙ mod-mod_pow a m (n - m)

pub div-div_pow : (a s t : ℕ) → a / 2 ^ s / 2 ^ t ≡ a / 2 ^ (s + t)
div-div_pow a s t = rw pow-add (div-div-eq-div-mul a (2 ^ s) (2 ^ t))

-- A number shifted left: its low bits are zeros.
pub mul-mod_pow : (a s t : ℕ) → a * 2 ^ s % 2 ^ (s + t) ≡ a % 2 ^ t * 2 ^ s
mul-mod_pow a s t = rw (
  pow-add s t,
  split_mod (a * 2 ^ s) (2 ^ s) (2 ^ t) (pow_pos s) (pow_pos t),
  mul-mod_left a (2 ^ s),
  mul-div_cancel a (pow_pos s),
  zero-add,
)

-- Low bits appended below.
pub append-mod : (a b s t : ℕ) → b < 2 ^ s → (a * 2 ^ s + b) % 2 ^ (s + t) ≡ a % 2 ^ t * 2 ^ s + b
append-mod a b s t h =
    rw (pow-add s t, split_mod (a * 2 ^ s + b) (2 ^ s) (2 ^ t) (pow_pos s) (pow_pos t))
      (omega (arith, ap (λ (u : ℕ). u % 2 ^ t * 2 ^ s) (append-div a b s h), append-low a b s h))
  where
    append-div : (a b s : ℕ) → b < 2 ^ s → (a * 2 ^ s + b) / 2 ^ s ≡ a
    append-div a b s h =
        ap (λ t. t / 2 ^ s) (add_comm (a * 2 ^ s) b)
        ∙ add-mul-div_right b a (pow_pos s)
        ∙ rw (div-eq_of_lt h, zero-add)

    append-low : (a b s : ℕ) → b < 2 ^ s → (a * 2 ^ s + b) % 2 ^ s ≡ b
    append-low a b s h =
        ap (λ t. t % 2 ^ s) (add_comm (a * 2 ^ s) b)
        ∙ add-mul-mod_self_right b a (2 ^ s)
        ∙ mod-eq_of_lt h

pub pow-le : (m n : ℕ) → m ≤ n → 2 ^ m ≤ 2 ^ n
pow-le m n h = pow-le-pow_right {n = 2} (omega arith) h

pub div-lt_pow : (f s t : ℕ) → f < 2 ^ (s + t) → f / 2 ^ s < 2 ^ t
div-lt_pow f s t h =
    (div-lt_iff_lt-mul {k = 2 ^ s} {x = f} {y = 2 ^ t} (pow_pos s)).1
      (omega (arith, h, pow-add s t, mul_comm (2 ^ t) (2 ^ s)))
