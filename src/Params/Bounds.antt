-- ===== src/Params/Bounds.antt =====
-- `Params::n_bounds` and `Params::valid_n` of Req/rust/src/lib.rs list what `Params::new` accepts.
use requihash.Base.{
  ℕ, zero, suc, ◌+◌, ◌*◌, ◌/◌, ◌%◌, ◌^◌, ◌≤◌, ◌<◌, min, leb, if◌then◌else◌, ◌≡◌, sym, ap, ◌∙◌, none,
  some, arith,
}
use requihash.Base.Elem.{Elem, here, there}
use requihash.Outcome.{ok}
use requihash.Params.{u32, lcm_8, div_ceil, n_bounds, step_by}
use requihash.Params.Gcd.{not_zero, cofactor, codivisor, codivisor_lem, gcd-cofactor}
use native.Mathlib.Nat.{
  mod-eq_of_lt, mul_assoc, mul-mod_left, mul-div_cancel, suc-mul, mul-le-mul_right,
}

pub step_by→ :
    (n lo step count : ℕ)
    → Elem n (step_by lo step count)
    → (i : ℕ) × (i < count) × (n ≡ lo + i * step)
unfolding step_by
step_by→ n lo step zero h = elim h [ ]
step_by→ n lo step (suc count) (here e) = (0, omega arith, omega arith)
step_by→ n lo step (suc count) (there h) =
    let (i, lt, e) = step_by→ n (lo + step) step count h in
    (suc i, omega arith, omega (arith, e, suc-mul i step))

pub →step_by :
    (n lo step count i : ℕ) → i < count → n ≡ lo + i * step → Elem n (step_by lo step count)
unfolding step_by
→step_by n lo step zero i lt e = absurd (omega arith)
→step_by n lo step (suc count) zero lt e = here (omega arith)
→step_by n lo step (suc count) (suc i) lt e =
    there (→step_by n (lo + step) step count i (omega arith) (omega (arith, e, suc-mul i step)))

cofactor-bounds : (r : ℕ) → (0 < cofactor r) × (cofactor r ≤ 8)
cofactor-bounds r = ground arith

abbrev pub step_of : ℕ → ℕ
step_of m = cofactor (m % 8) * m

step-≤ : (m : ℕ) → step_of m ≤ 8 * m
step-≤ m = mul-le-mul_right m (cofactor-bounds (m % 8)).1

pub step_pos : (m : ℕ) → 0 < m → 0 < step_of m
step_pos m pos = omega (arith, mul-le-mul_right m (cofactor-bounds (m % 8)).0)

pub lcm_8-step : (m : ℕ) → 0 < m → m ≤ 2 ^ 27 → lcm_8 m ≡ step_of m
unfolding lcm_8
lcm_8-step m pos small = rw (gcd-cofactor m pos) (mod-eq_of_lt (omega (arith, step-≤ m, small)))

div_ceil-multiple : (g s : ℕ) → 0 < s → div_ceil (g * s) s * s ≡ g * s
div_ceil-multiple g s pos = rw (mul-mod_left g s, mul-div_cancel g pos)

pub steps-8 : (m : ℕ) → codivisor (m % 8) * step_of m ≡ 8 * m
steps-8 m =
    sym (mul_assoc (codivisor (m % 8)) (cofactor (m % 8)) m)
    ∙ ap (λ t. t * m) (codivisor_lem (m % 8))

-- The least multiple of the step that is not below `8 * m` is `8 * m` itself.
lo-eq : (m : ℕ) → 0 < m → div_ceil (8 * m) (step_of m) * step_of m ≡ 8 * m
lo-eq m pos =
    ap (λ t. div_ceil t (step_of m) * step_of m) (sym (steps-8 m))
    ∙ div_ceil-multiple (codivisor (m % 8)) (step_of m) (step_pos m pos)
    ∙ steps-8 m

abbrev pub top_of : ℕ → ℕ
top_of m = min (25 * m) 512 / step_of m * step_of m

pub n_bounds-eq :
    (k : ℕ)
    → 0 < k
    → k < 2 ^ 27
    → n_bounds k
      ≡ ok (if leb (8 * (k + 1)) (top_of (k + 1)) then some (8 * (k + 1), top_of (k + 1)) else none)
unfolding n_bounds
n_bounds-eq k pos small =
    let m = k + 1 in
    let e : u32 m ≡ m = mod-eq_of_lt (omega arith) in
    let a : u32 (8 * m) ≡ 8 * m = mod-eq_of_lt (omega arith) in
    let b : u32 (25 * m) ≡ 25 * m = mod-eq_of_lt (omega arith) in
    rw (e, lcm_8-step m (omega arith) (omega arith))
      (rw (
        not_zero k pos,
        not_zero (step_of m) (step_pos m (omega arith)),
        a,
        lo-eq m (omega arith),
        a,
        b,
      ))
