-- ===== src/Params/Gcd.antt =====
-- The step of `Params::valid_n` of Req/rust/src/lib.rs is the least common multiple of 8 and `k + 1`.
use requihash.Base.{
  ℕ, zero, suc, ◌+◌, ◌-◌, ◌*◌, ◌/◌, ◌%◌, ◌≤◌, ◌<◌, ◌==◌, false, if◌then◌else◌, ◌≡◌, ◌↔◌, refl, sym,
  ap, ◌∙◌, arith,
}
use requihash.Params.{gcd_loop, gcd}
use native.Mathlib.Nat.{mul-add, mod-eq_of_lt, mul_assoc, div-add-mod'}
use native.Mathlib.Decide.{dec_le}

-- What `8 / gcd(8, m)` is, by the remainder of `m`.
abbrev pub cofactor : ℕ → ℕ
cofactor r = if r == 0 then 1 else if r == 4 then 2 else if r % 2 == 0 then 4 else 8

small_gcd : (m : ℕ) → m ≤ 7 → 0 < m → 8 / gcd 8 m ≡ cofactor m
unfolding gcd gcd_loop
small_gcd zero h p = absurd (omega arith)
small_gcd (suc zero) h p = refl
small_gcd (suc (suc zero)) h p = refl
small_gcd (suc (suc (suc zero))) h p = refl
small_gcd (suc (suc (suc (suc zero)))) h p = refl
small_gcd (suc (suc (suc (suc (suc zero))))) h p = refl
small_gcd (suc (suc (suc (suc (suc (suc zero)))))) h p = refl
small_gcd (suc (suc (suc (suc (suc (suc (suc zero))))))) h p = refl
small_gcd (suc (suc (suc (suc (suc (suc (suc (suc m)))))))) h p = absurd (omega arith)

-- Fuel is left over.
loop_gcd :
    (j r : ℕ) → r ≤ 7 → 8 / gcd_loop (suc (suc (suc (suc (suc (suc (suc j))))))) 8 r ≡ cofactor r
unfolding gcd_loop
loop_gcd j zero h = refl
loop_gcd j (suc zero) h = refl
loop_gcd j (suc (suc zero)) h = refl
loop_gcd j (suc (suc (suc zero))) h = refl
loop_gcd j (suc (suc (suc (suc zero)))) h = refl
loop_gcd j (suc (suc (suc (suc (suc zero))))) h = refl
loop_gcd j (suc (suc (suc (suc (suc (suc zero)))))) h = refl
loop_gcd j (suc (suc (suc (suc (suc (suc (suc zero))))))) h = refl
loop_gcd j (suc (suc (suc (suc (suc (suc (suc (suc m)))))))) h = absurd (omega arith)

pub not_zero : (b : ℕ) → 0 < b → (b == 0) ≡ false
not_zero b h = ground arith

next_round : (fuel a b : ℕ) → 0 < b → gcd_loop (suc fuel) a b ≡ gcd_loop fuel b (a % b)
unfolding gcd_loop
next_round fuel a b h = rw (not_zero b h)

gcd_eight : 8 / gcd 8 8 ≡ 1
unfolding gcd gcd_loop
gcd_eight = refl

large_gcd : (m : ℕ) → 9 ≤ m → 8 / gcd 8 m ≡ cofactor (m % 8)
unfolding gcd
large_gcd m h =
    let e : m ≡ suc (suc (suc (suc (suc (suc (suc (suc (m - 8)))))))) = omega arith in
    ap (λ t. 8 / t)
      (next_round m 8 m (omega arith)
        ∙ ap (gcd_loop m m) {x = 8 % m} {y = 8} (mod-eq_of_lt (omega arith))
        ∙ ap (λ n. gcd_loop n m 8) e
        ∙ next_round (suc (suc (suc (suc (suc (suc (suc (m - 8)))))))) m 8 (omega arith))
    ∙ loop_gcd (m - 8) (m % 8) (omega arith)

-- The cofactor of every `m`.
pub gcd-cofactor : (m : ℕ) → 0 < m → 8 / gcd 8 m ≡ cofactor (m % 8)
gcd-cofactor m pos = elim (dec_le m 7) [
  | yes small ↦
      small_gcd m small pos
      ∙ ap (λ r. cofactor r) {x = m} {y = m % 8} (sym (mod-eq_of_lt (omega arith)))
  | no large ↦ elim (dec_le m 8) [
    | yes eight ↦ let e : m ≡ 8 = omega arith in rw e gcd_eight
    | no more ↦ large_gcd m (omega arith)
  ]
]

-- A cofactor divides 8.
abbrev pub codivisor : ℕ → ℕ
codivisor r = if r == 0 then 8 else if r == 4 then 4 else if r % 2 == 0 then 2 else 1

pub codivisor_lem : (r : ℕ) → codivisor r * cofactor r ≡ 8
codivisor_lem r = ground arith

-- The step divides a number just when 8 and `m` do.
pub cofactor-divides : (m q : ℕ) → (q * m % 8 ≡ 0) ↔ (q % cofactor (m % 8) ≡ 0)
cofactor-divides m q =
    let t = m / 8 in
    let e : q * m ≡ 8 * (q * (m / 8)) + q * (m % 8) = omega (
      arith,
      ap (λ (t : ℕ). q * t) (div-add-mod' m 8),
      mul-add q (m / 8 * 8) (m % 8),
      mul_assoc q (m / 8) 8,
    ) in
    rw e (by_rest (m % 8) (q * (m / 8)) q (omega arith))
  where
    by_rest : (r x q : ℕ) → r < 8 → ((8 * x + q * r) % 8 ≡ 0) ↔ (q % cofactor r ≡ 0)
    by_rest zero x q h = (λ e. omega arith, λ e. omega arith)
    by_rest (suc zero) x q h = (λ e. omega arith, λ e. omega arith)
    by_rest (suc (suc zero)) x q h = (λ e. omega arith, λ e. omega arith)
    by_rest (suc (suc (suc zero))) x q h = (λ e. omega arith, λ e. omega arith)
    by_rest (suc (suc (suc (suc zero)))) x q h = (λ e. omega arith, λ e. omega arith)
    by_rest (suc (suc (suc (suc (suc zero))))) x q h = (λ e. omega arith, λ e. omega arith)
    by_rest (suc (suc (suc (suc (suc (suc zero)))))) x q h = (λ e. omega arith, λ e. omega arith)
    by_rest (suc (suc (suc (suc (suc (suc (suc zero))))))) x q h =
        (λ e. omega arith, λ e. omega arith)
    by_rest (suc (suc (suc (suc (suc (suc (suc (suc r)))))))) x q h = absurd (omega arith)
