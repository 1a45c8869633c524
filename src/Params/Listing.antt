-- ===== src/Params/Listing.antt =====
-- The numbers that `Params::valid_n` of Req/rust/src/lib.rs lists are those that `Params::new` takes.
use requihash.Base.{
  ℕ, zero, suc, ◌+◌, ◌-◌, ◌*◌, ◌/◌, ◌%◌, ◌^◌, ◌≤◌, ◌<◌, min, leb, leb-≤, leb-false, Bool,
  Bool-cases, true, false, if◌then◌else◌, ◌≡◌, ◌↔◌, refl, sym, ap, inl, inr, ◌∙◌, List, [], Option,
  none, some, arith,
}
use requihash.Base.Elem.{Elem}
use requihash.Outcome.{ok}
use requihash.Params.{lcm_8, u32, n_bounds, step_by, list_range, valid_n}
use requihash.Params.Gcd.{cofactor, codivisor, cofactor-divides}
use requihash.Params.New.{IsValid}
use requihash.Params.Bounds.{
  step_by→, →step_by, step_of, step_pos, steps-8, top_of, lcm_8-step, n_bounds-eq,
}
use native.Mathlib.Nat.{
  mod-eq_of_lt, mul_assoc, mul-mod_left, mul-div_cancel, add-mul, suc-mul, mul-le-mul_right,
  div-add-mod', div-mul-le_self, le-div_iff_mul-le,
}
use native.Mathlib.Decide.{dec_le}

-- A multiple of the step between the bounds.
abbrev IsStep : ℕ → ℕ → Type 0
IsStep n m = (p : ℕ) × (n ≡ p * step_of m) × (8 * m ≤ n) × (n ≤ min (25 * m) 512)

-- A quotient below the next one.
at_most : (x m n : ℕ) → 0 < m → n ≤ x * m → n / m ≤ x
at_most x m n pos h = elim (dec_le (n / m) x) [
  | yes le ↦ le
  | no gt ↦
      let more = (le-div_iff_mul-le {k = m} {x = suc x} {y = n} pos).0 (omega arith) in
      absurd (omega (arith, more, h, suc-mul x m))
]

cancel_mul : (g p st : ℕ) → g * st ≤ p * st → 0 < st → g ≤ p
cancel_mul g p st h pos = elim (dec_le g p) [
  | yes le ↦ le
  | no gt ↦
      let more = mul-le-mul_right {m = suc p} {n = g} st (omega arith) in
      absurd (omega (arith, more, h, suc-mul p st))
]

module _ (n k : ℕ) (pos : 0 < k) where
  abbrev m : ℕ
  m = k + 1

  valid→step : IsValid n k → IsStep n m
  valid→step v =
      let q = n / m in
      let c = cofactor (m % 8) in
      let en : n ≡ q * m = omega (arith, div-add-mod' n m, v.whole_rounds) in
      let even : q % c ≡ 0 = (cofactor-divides m q).0 (ap (λ t. t % 8) (sym en) ∙ v.whole_bytes) in
      let eq : q ≡ q / c * c = omega (arith, div-add-mod' q c, even) in
      let lo : 8 * m ≤ n = (le-div_iff_mul-le {k = m} {x = 8} {y = n} (omega arith)).0 v.cbl_lo in
      let hi : n ≤ 25 * m = omega (arith, en, mul-le-mul_right m v.cbl_hi) in
      (q / c, en ∙ ap (λ t. t * m) eq ∙ mul_assoc (q / c) c m, lo, omega (arith, hi, v.n_le))

  step→valid : IsStep n m → IsValid n k
  step→valid (p, e, lo, hi) =
      let c = cofactor (m % 8) in
      let q = p * c in
      let en : n ≡ q * m = e ∙ sym (mul_assoc p c m) in
      let eq : n / m ≡ q = ap (λ t. t / m) en ∙ mul-div_cancel q (omega arith) in
      record {
        k_pos = pos;
        k_lt = omega arith;
        whole_bytes = ap (λ t. t % 8) en ∙ (cofactor-divides m q).1 (mul-mod_left p c);
        whole_rounds = ap (λ t. t % m) en ∙ mul-mod_left q m;
        n_le = omega arith;
        cbl_lo = (le-div_iff_mul-le {k = m} {x = 8} {y = n} (omega arith)).1 lo;
        cbl_hi = at_most 25 m n (omega arith) (omega arith);
      }

  abbrev listed : List ℕ
  listed = step_by (8 * m) (step_of m) ((top_of m - 8 * m) / step_of m + 1)

  below_top : top_of m ≤ min (25 * m) 512
  below_top = div-mul-le_self (min (25 * m) 512) (step_of m)

  step-≤-top : IsStep n m → n ≤ top_of m
  step-≤-top (p, e, lo, hi) =
      let h =
        (le-div_iff_mul-le {k = step_of m} {x = p} {y = min (25 * m) 512}
            (step_pos m (omega arith))).1
          (omega (arith, e, hi)) in
      omega (arith, e, mul-le-mul_right (step_of m) h)

  listed→step : 8 * m ≤ top_of m → Elem n listed → IsStep n m
  listed→step h el =
      let (i, lt, e) = step_by→ n (8 * m) (step_of m) ((top_of m - 8 * m) / step_of m + 1) el in
      let g = codivisor (m % 8) in
      let at_most =
        mul-le-mul_right {m = i} {n = (top_of m - 8 * m) / step_of m} (step_of m) (omega arith) in
      let rest = div-mul-le_self (top_of m - 8 * m) (step_of m) in
      (
        g + i,
        omega (arith, e, steps-8 m, add-mul g i (step_of m)),
        omega (arith, e),
        omega (arith, e, h, at_most, rest, below_top),
      )

  step→listed : IsStep n m → Elem n listed
  step→listed (p, e, lo, hi) =
      let g = codivisor (m % 8) in
      let st = step_of m in
      let st_pos = step_pos m (omega arith) in
      let g-≤ = cancel_mul g p st (omega (arith, e, lo, steps-8 m)) st_pos in
      let i = p - g in
      let back : p ≡ g + i = omega arith in
      let en : n ≡ 8 * m + i * st =
        omega (arith, e, ap (λ (t : ℕ). t * st) back, add-mul g i st, steps-8 m) in
      let top = step-≤-top (p, e, lo, hi) in
      let few =
        (le-div_iff_mul-le {k = st} {x = i} {y = top_of m - 8 * m} st_pos).1
          (omega (arith, en, top)) in
      →step_by n (8 * m) st ((top_of m - 8 * m) / st + 1) i (omega (arith, few)) en

valid_n-eq :
    (k : ℕ) (r : Option (ℕ × ℕ))
    → k < 2 ^ 27
    → n_bounds k ≡ ok r
    → valid_n k ≡ list_range (step_of (k + 1)) (ok r)
unfolding valid_n
valid_n-eq k r small e =
    let wraps : u32 (k + 1) ≡ k + 1 = mod-eq_of_lt (omega arith) in
    ap (list_range (lcm_8 (u32 (k + 1)))) e
    ∙ ap (λ t. list_range t (ok r))
        (ap lcm_8 wraps ∙ lcm_8-step (k + 1) (omega arith) (omega arith))

range-eq :
    (k : ℕ) (b : Bool)
    → 0 < k
    → k < 2 ^ 27
    → leb (8 * (k + 1)) (top_of (k + 1)) ≡ b
    → n_bounds k ≡ ok (if b then some (8 * (k + 1), top_of (k + 1)) else none)
range-eq k b pos small e =
    n_bounds-eq k pos small
    ∙ ap (λ t. ok (if t then some (8 * (k + 1), top_of (k + 1)) else none)) e

no_range : valid_n 0 ≡ ok []
unfolding valid_n n_bounds
no_range = refl

-- For every `k` below 2 ^ 27, `valid_n` returns, and lists exactly the `n` for which `Params::new`
-- accepts `(n, k)`.
pub valid_n-exact :
    (k : ℕ) → k < 2 ^ 27 → (ns : List ℕ) × (valid_n k ≡ ok ns) × ((n : ℕ) → Elem n ns ↔ IsValid n k)
unfolding list_range
valid_n-exact zero small =
    ([], no_range, λ n. (λ h. elim h [ ], λ v. absurd (omega (arith, v.k_pos))))
valid_n-exact (suc k') small =
    let k = suc k' in
    let pos : 0 < k = omega arith in
    elim (Bool-cases (leb (8 * m 0 k pos) (top_of (m 0 k pos)))) [
      | inl h ↦
          let le = leb-≤ (8 * m 0 k pos) (top_of (m 0 k pos)) h in
          (
            listed 0 k pos,
            valid_n-eq k _ small (range-eq k true pos small h),
            λ n. (
              λ el. step→valid n k pos (listed→step n k pos le el),
              λ v. step→listed n k pos (valid→step n k pos v),
            ),
          )
      | inr h ↦ (
        [],
        valid_n-eq k _ small (range-eq k false pos small h),
        λ n. (
          λ h. elim h [ ],
          λ v.
              let s = valid→step n k pos v in
              let lt = leb-false (8 * m n k pos) (top_of (m n k pos)) h in
              absurd (omega (arith, s.2, step-≤-top n k pos s, lt)),
        ),
      )
    ]
