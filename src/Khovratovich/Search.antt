-- ===== src/Khovratovich/Search.antt =====
-- `find_proof` returns a proof that passes the test, or none after the last nonce.
use requihash.Base.{
  ℕ, zero, suc, ◌+◌, ◌-◌, ◌^◌, ◌≤◌, ◌<◌, ◌≡◌, ◌≢◌, refl, sym, ap, ◌∙◌, ◌⊎◌, inl, inr, true, false,
  ◌==◌, Bool-cases, Option, none, some, List, [], ◌∷◌, length, All, arith,
}
use requihash.Base.Bits.{pow_pos}
use requihash.Outcome.{Outcome, ok, Returns, Returns-bind}
use requihash.Distinct.{Distinct, sort_unstable}
use requihash.Distinct.Decides.{
  Ascending, sort_unstable-Ascending, sort_unstable-Distinct, above-not_Elem,
}
use requihash.Khovratovich.{
  Proof, Equihash, Refusal, block_bits, max_nonce, has_repeat, first_distinct, single_attempt,
  nonce_loop, find_proof, test,
}
use requihash.Khovratovich.Leaves.{IsDigest, sum}
use requihash.Khovratovich.Filling.{Fits, state}
use requihash.Khovratovich.Rounds.{IsProof}
use requihash.Khovratovich.Attempts.{single_attempt-IsAttempt}
use requihash.Khovratovich.Checks.{test_iff}
use mathlib.Core.Path.{subst}

-- In an ascending list without equal neighbours nothing occurs twice.
has_repeat-Distinct : (xs : List ℕ) → Ascending xs → has_repeat xs ≡ false → Distinct xs
unfolding has_repeat
has_repeat-Distinct [] a h = tt
has_repeat-Distinct (x ∷ []) a h = (λ m. elim m [ ], tt)
has_repeat-Distinct (x ∷ y ∷ rest) a h = elim (Bool-cases (x == y)) [
  | inl e ↦ let r = rw e at h in cc
  | inr e ↦
      let lt : x < y = ground arith in
      (
        λ m. above-not_Elem x y (y ∷ rest) lt (omega arith, a.1.0) m,
        has_repeat-Distinct (y ∷ rest) a.1 (rw e at h),
      )
]

-- The proof that is picked is one of the solutions, and its inputs are distinct.
first_distinct-Distinct :
    (P : Proof → Type 0) (solutions : List Proof) (sol : Proof)
    → All P solutions
    → first_distinct solutions ≡ some sol
    → P sol × Distinct sol.inputs
unfolding first_distinct
first_distinct-Distinct P [] sol all h = cc
first_distinct-Distinct P (s ∷ solutions) sol all h =
    elim (Bool-cases (has_repeat (sort_unstable s.inputs))) [
      | inl e ↦ first_distinct-Distinct P solutions sol all.1 (rw e at h)
      | inr e ↦
          let same : s ≡ sol = some-inj _ _ (rw e at h) in
          let distinct =
            (sort_unstable-Distinct s.inputs).0
              (has_repeat-Distinct _ (sort_unstable-Ascending s.inputs) e) in
          (subst P same all.0, subst (λ (p : Proof). Distinct p.inputs) same distinct)
    ]
  where
    some-inj : (a b : Proof) → some a ≡ some b → a ≡ b
    some-inj a b e = cc

module _ (hash : List ℕ → List ℕ) (digest : IsDigest hash) where
  -- What a search returns: a proof at a nonce it tried, with distinct inputs, or no inputs at the last one.
  abbrev pub Found : (n k : ℕ) → Fits n k → List ℕ → ℕ → Proof → Type 0
  Found n k fits seed last proof =
      (proof ≡ record { n = n; k = k; seed = seed; nonce = last; inputs = [] })
      ⊎ ((nonce : ℕ) × (nonce ≤ last)
          × IsProof hash digest n k fits seed nonce proof
          × Distinct proof.inputs)

  nonce_loop-Found :
      (left : ℕ) (eq : Equihash) (fits : Fits eq.n eq.k) (last : ℕ)
      → eq.nonce + left ≡ last
      → Returns (Found eq.n eq.k fits eq.seed last) (nonce_loop hash left eq)
  unfolding nonce_loop
  nonce_loop-Found zero eq fits last e =
      let here : eq.nonce ≡ last = omega arith in
      (
        record { n = eq.n; k = eq.k; seed = eq.seed; nonce = eq.nonce; inputs = [] },
        refl,
        inl (ap (λ t. record { n = eq.n; k = eq.k; seed = eq.seed; nonce = t; inputs = [] }) here),
      )
  nonce_loop-Found (suc left) eq fits last e =
      Returns-bind (single_attempt hash (eq.nonce + 1) eq)
        (λ next. elim (first_distinct next.solutions) [
          | some sol ↦ ok sol
          | none ↦ nonce_loop hash left next
        ])
        (single_attempt-IsAttempt hash digest eq fits (eq.nonce + 1))
        (λ next (forks, list, filled, solved, same, rounds, at).
          subst
            (λ (s : Equihash).
              Returns (Found eq.n eq.k fits eq.seed last) (elim (first_distinct s.solutions) [
                | some sol ↦ ok sol
                | none ↦ nonce_loop hash left s
              ]))
            (sym same)
            (pick (first_distinct solved)
              (nonce_loop hash left
                (state hash digest eq.n eq.k fits eq.seed (eq.nonce + 1) list filled forks solved))
              (λ sol es.
                let (proof, distinct) =
                  first_distinct-Distinct
                    (IsProof hash digest eq.n eq.k fits eq.seed (eq.nonce + 1)) solved sol at.proofs
                    es in
                (eq.nonce + 1, omega arith, proof, distinct))
              (nonce_loop-Found left
                (state hash digest eq.n eq.k fits eq.seed (eq.nonce + 1) list filled forks solved)
                fits last (omega arith))))
    where
      pick :
          (found : Option Proof) (rest : Outcome Refusal Proof)
          → ((sol : Proof)
              → found ≡ some sol
              → (nonce : ℕ) × (nonce ≤ last)
                × IsProof hash digest eq.n eq.k fits eq.seed nonce sol
                × Distinct sol.inputs)
          → Returns (Found eq.n eq.k fits eq.seed last) rest
          → Returns
              (Found eq.n eq.k fits eq.seed last)
              (elim found [ some sol ↦ ok sol | none ↦ rest ])
      pick (some sol) rest good more = (sol, refl, inr (good sol refl))
      pick none rest good more = more

-- For parameters that fit, `find_proof` returns without a panic, and what it returns is either the empty
-- proof at the last nonce or `2 ^ k` distinct inputs for a nonce up to it, on which `test` returns true.
pub find_proof-test :
    (hash : List ℕ → List ℕ) (digest : IsDigest hash) (eq : Equihash)
    → Fits eq.n eq.k
    → (proof : Proof) × (find_proof hash eq ≡ ok proof)
      × (((proof.inputs ≡ []) × (proof.nonce ≡ max_nonce))
          ⊎ ((length proof.inputs ≡ 2 ^ eq.k)
              × Distinct proof.inputs
              × (proof.nonce ≤ max_nonce)
              × (test hash proof ≡ ok true)))
unfolding find_proof
find_proof-test hash digest eq fits =
    let (proof, e, found) =
      nonce_loop-Found hash digest (max_nonce - 1) (record eq { nonce = 1 }) fits max_nonce refl in
    (proof, e, conclude proof found)
  where
    accepted :
        (proof : Proof)
        → proof.k ≤ 7
        → proof.inputs ≢ []
        → ((q : ℕ)
            → q < suc proof.k
            → sum hash proof.seed proof.nonce (block_bits proof.n proof.k) q proof.inputs ≡ 0)
        → test hash proof ≡ ok true
    accepted proof few inputs cancels =
        let (b, e, (to, from)) = test_iff hash proof few in e ∙ ap ok (from (inputs, cancels))

    conclude :
        (proof : Proof)
        → Found hash digest eq.n eq.k fits eq.seed max_nonce proof
        → ((proof.inputs ≡ []) × (proof.nonce ≡ max_nonce))
          ⊎ ((length proof.inputs ≡ 2 ^ eq.k)
              × Distinct proof.inputs
              × (proof.nonce ≤ max_nonce)
              × (test hash proof ≡ ok true))
    conclude proof (inl e) = inl (ap (λ (p : Proof). p.inputs) e, ap (λ (p : Proof). p.nonce) e)
    conclude proof (inr (nonce, le, g, distinct)) =
        let few = fits.few_blocks in
        let some_size = pow_pos eq.k in
        let same = g.same_nonce in
        let size = g.size in
        inr (
          g.size,
          distinct,
          omega arith,
          accepted proof (omega (arith, g.same_k))
              (λ none_left. let z = ap length none_left in omega arith)
              (rw (g.same_n, g.same_k, g.same_seed, g.same_nonce) g.cancels),
        )
