-- ===== src/KList/New.antt =====
-- What `KListWagnerAlgorithm::new` accepts, and the message of what it refuses.
use requihash.Base.{
  ℕ, zero, suc, ◌+◌, ◌*◌, ◌/◌, ◌%◌, ◌^◌, ◌≤◌, ◌<◌, ◌≡◌, ◌≢◌, refl, sym, ap, ◌∙◌, ◌↔◌, inl, inr,
  true, false, ltb, ◌==◌, ==_iff, Bool-cases, List, length, arith,
}
use requihash.Base.Bits.{pow_pos}
use requihash.Outcome.{Outcome, ok, err}
use requihash.KList.{
  KListWagnerAlgorithm, Message, n_not_bytes, nonce_not_16, k_not_power, n_not_divisible, log2_loop,
  new,
}
use native.Mathlib.Nat.{pow-suc, div-add-mod', mul-mod_left, mul-div_cancel}
use mathlib.Core.Path.{subst}
use native.Mathlib.Decide.{dec_lt}
use requihash.Base.Pow.{pow-le}

abbrev pub IsPower : ℕ → Type 0
IsPower k = (l : ℕ) × (k ≡ 2 ^ l)

-- What a `KListWagnerAlgorithm` that `new` returns satisfies.
pub record IsAlgorithm (alg : KListWagnerAlgorithm) : Type 0 where
  pub nonce_size : length alg.nonce ≡ 16
  pub depth : alg.lgk < 32
  pub power : alg.k ≡ 2 ^ alg.lgk
  pub bytes : alg.n ≡ alg.hash_size * 8
  pub parts : alg.n ≡ alg.ell * (alg.lgk + 1)

log2_loop-pow : (fuel l g : ℕ) → l ≤ fuel → log2_loop fuel (2 ^ l) g ≡ g + l
unfolding log2_loop
log2_loop-pow zero zero g h = omega arith
log2_loop-pow zero (suc l) g h = absurd (omega arith)
log2_loop-pow (suc fuel) zero g h = omega arith
log2_loop-pow (suc fuel) (suc l) g h =
    let more : ltb 1 (2 ^ suc l) ≡ true = ground (arith, pow-suc 2 l, pow_pos l) in
    let half : 2 ^ suc l / 2 ≡ 2 ^ l = omega (arith, pow-suc 2 l) in
    rw (more, half) (log2_loop-pow fuel l (g + 1) (omega arith) ∙ omega arith)

log2_loop-le : (fuel m kk g : ℕ) → kk < 2 ^ suc m → log2_loop fuel kk g ≤ g + m
unfolding log2_loop
log2_loop-le zero m kk g h = omega arith
log2_loop-le (suc fuel) zero kk g h =
    let last : ltb 1 kk ≡ false = ground arith in rw last (omega arith)
log2_loop-le (suc fuel) (suc m) kk g h = elim (Bool-cases (ltb 1 kk)) [
  | inl e ↦
      let rest = log2_loop-le fuel m (kk / 2) (g + 1) (omega (arith, pow-suc 2 (suc m))) in
      rw e (omega arith)
  | inr e ↦ rw e (omega arith)
]

pow_lt_inv : (l m : ℕ) → 2 ^ l < 2 ^ m → l < m
pow_lt_inv l m h = elim (dec_lt l m) [
  | yes lt ↦ lt
  | no ge ↦ let wide = pow-le m l (omega arith) in absurd (omega arith)
]

module _ (k : ℕ) (word : k < 2 ^ 32) where
  log2_lt : log2_loop 32 k 0 < 32
  log2_lt = omega (arith, log2_loop-le 32 31 k 0 word)

  log2_power : (l : ℕ) → k ≡ 2 ^ l → log2_loop 32 k 0 ≡ l
  log2_power l e =
      let small : 2 ^ l < 2 ^ 32 = omega arith in
      let below = pow_lt_inv l 32 small in
      ap (λ t. log2_loop 32 t 0) e ∙ log2_loop-pow 32 l 0 (omega arith) ∙ omega arith

  -- The shift gives `k` back exactly for the powers of two.
  log2_loop_iff : ((2 ^ (log2_loop 32 k 0 % 32) == k) ≡ true) ↔ IsPower k
  log2_loop_iff = (
    λ h. (log2_loop 32 k 0 % 32, sym ((==_iff _ k).0 h)),
    λ (l, e).
        let same : log2_loop 32 k 0 % 32 ≡ l = omega (arith, log2_power l e, log2_lt) in
        (==_iff _ k).1 (ap (λ t. 2 ^ t) same ∙ sym e),
  )

  pub log2_loop-exact : (2 ^ (log2_loop 32 k 0 % 32) == k) ≡ true → k ≡ 2 ^ log2_loop 32 k 0
  log2_loop-exact h =
      let place : log2_loop 32 k 0 % 32 ≡ log2_loop 32 k 0 = omega (arith, log2_lt) in
      sym ((==_iff _ k).0 h) ∙ ap (λ t. 2 ^ t) place

-- The record that `new` builds.
abbrev built : ℕ → ℕ → List ℕ → KListWagnerAlgorithm
built n k nonce = record {
  n = n;
  k = k;
  lgk = log2_loop 32 k 0;
  ell = n / (log2_loop 32 k 0 + 1);
  nonce = nonce;
  hash_size = n / 8;
}

module _ (n k : ℕ) (nonce : List ℕ) (word : k < 2 ^ 32) where
  built-IsAlgorithm :
      n % 8 ≡ 0
      → length nonce ≡ 16
      → (2 ^ (log2_loop 32 k 0 % 32) == k) ≡ true
      → n % (log2_loop 32 k 0 + 1) ≡ 0
      → IsAlgorithm (built n k nonce)
  built-IsAlgorithm e1 e2 e3 e4 = record {
    nonce_size = e2;
    depth = log2_lt k word;
    power = log2_loop-exact k word e3;
    bytes = omega arith;
    parts = omega (arith, div-add-mod' n (log2_loop 32 k 0 + 1));
  }

  IsAlgorithm-built :
      (alg : KListWagnerAlgorithm)
      → alg.n ≡ n
      → alg.k ≡ k
      → alg.nonce ≡ nonce
      → IsAlgorithm alg
      → (alg ≡ built n k nonce) × (n % (log2_loop 32 k 0 + 1) ≡ 0)
  IsAlgorithm-built alg en ek eo v =
      let lg : alg.lgk ≡ log2_loop 32 k 0 = sym (log2_power k word alg.lgk (sym ek ∙ v.power)) in
      let whole : n ≡ alg.ell * (log2_loop 32 k 0 + 1) =
        sym en ∙ v.parts ∙ ap (λ t. alg.ell * (t + 1)) lg in
      let parts : alg.ell ≡ n / (log2_loop 32 k 0 + 1) = sym (
        ap (λ t. t / (log2_loop 32 k 0 + 1)) whole
        ∙ mul-div_cancel alg.ell (positive (log2_loop 32 k 0))) in
      let bytes : alg.hash_size ≡ n / 8 = omega (arith, v.bytes) in
      (
        λ i. record {
          n = en i;
          k = ek i;
          lgk = lg i;
          ell = parts i;
          nonce = eo i;
          hash_size = bytes i;
        },
        ap (λ t. t % (log2_loop 32 k 0 + 1)) whole ∙ mul-mod_left alg.ell (log2_loop 32 k 0 + 1),
      )
    where
      positive : (m : ℕ) → 0 < m + 1
      positive m = omega arith

ok-inj :
    (a b : KListWagnerAlgorithm)
    → ◌≡◌ {A = Outcome Message KListWagnerAlgorithm} (ok a) (ok b)
    → a ≡ b
ok-inj a b h = cc

-- `new` returns an algorithm exactly for a 16-byte nonce, an `n` of whole bytes and a power of two `k`
-- whose `lg k + 1` divides `n`; it keeps `n`, `k` and `nonce`, and its `lgk`, `ell` and `hash_size` are
-- log k, n / (lgk + 1) and n / 8.
pub new_iff :
    (n k : ℕ) (nonce : List ℕ)
    → k < 2 ^ 32
    → (alg : KListWagnerAlgorithm)
    → (new n k nonce ≡ ok alg) ↔ ((alg.n ≡ n) × (alg.k ≡ k) × (alg.nonce ≡ nonce) × IsAlgorithm alg)
unfolding new
new_iff n k nonce word alg = (forth, back)
  where
    kept : (b : KListWagnerAlgorithm) → Type 0
    kept b = (b.n ≡ n) × (b.k ≡ k) × (b.nonce ≡ nonce) × IsAlgorithm b

    forth :
        new n k nonce ≡ ok alg → (alg.n ≡ n) × (alg.k ≡ k) × (alg.nonce ≡ nonce) × IsAlgorithm alg
    forth h = elim (Bool-cases (n % 8 == 0)) [
      | inr e1 ↦ let r = rw e1 at h in cc
      | inl e1 ↦ elim (Bool-cases (length nonce == 16)) [
        | inr e2 ↦ let r = rw (e1, e2) at h in cc
        | inl e2 ↦ elim (Bool-cases (2 ^ (log2_loop 32 k 0 % 32) == k)) [
          | inr e3 ↦ let r = rw (e1, e2, e3) at h in cc
          | inl e3 ↦ elim (Bool-cases (n % (log2_loop 32 k 0 + 1) == 0)) [
            | inr e4 ↦ let r = rw (e1, e2, e3, e4) at h in cc
            | inl e4 ↦
                let same : built n k nonce ≡ alg = ok-inj _ _ (rw (e1, e2, e3, e4) at h) in
                let v =
                  built-IsAlgorithm n k nonce word ((==_iff _ 0).0 e1) ((==_iff _ 16).0 e2) e3
                    ((==_iff _ 0).0 e4) in
                (
                  ap (λ (b : KListWagnerAlgorithm). b.n) (sym same),
                  ap (λ (b : KListWagnerAlgorithm). b.k) (sym same),
                  ap (λ (b : KListWagnerAlgorithm). b.nonce) (sym same),
                  subst IsAlgorithm same v,
                )
          ]
        ]
      ]
    ]

    back :
        (alg.n ≡ n) × (alg.k ≡ k) × (alg.nonce ≡ nonce) × IsAlgorithm alg → new n k nonce ≡ ok alg
    back (en, ek, eo, v) =
        let (same, divides) = IsAlgorithm-built n k nonce word alg en ek eo v in
        let e1 : n % 8 ≡ 0 = omega (arith, v.bytes) in
        let e2 : length nonce ≡ 16 = ap length (sym eo) ∙ v.nonce_size in
        let t1 = (==_iff (n % 8) 0).1 e1 in
        let t2 = (==_iff (length nonce) 16).1 e2 in
        let t3 = (log2_loop_iff k word).1 (alg.lgk, sym ek ∙ v.power) in
        let t4 = (==_iff (n % (log2_loop 32 k 0 + 1)) 0).1 divides in
        rw (t1, t2, t3, t4) (ap ok (sym same))

-- `new` refuses with each of its messages exactly where the condition of that message fails and those
-- tested before it hold, for every `k` of 32 bits.
pub new_errors :
    (n k : ℕ) (nonce : List ℕ)
    → k < 2 ^ 32
    → ((new n k nonce ≡ err n_not_bytes) ↔ (n % 8 ≢ 0))
      × ((new n k nonce ≡ err nonce_not_16) ↔ ((n % 8 ≡ 0) × (length nonce ≢ 16)))
      × ((new n k nonce ≡ err k_not_power) ↔ ((n % 8 ≡ 0) × (length nonce ≡ 16) × (¬ IsPower k)))
      × ((new n k nonce ≡ err n_not_divisible)
          ↔ ((n % 8 ≡ 0) × (length nonce ≡ 16) × ((l : ℕ) × (k ≡ 2 ^ l) × (n % (l + 1) ≢ 0))))
unfolding new
new_errors n k nonce word = elim (Bool-cases (n % 8 == 0)) [
  | inr e1 ↦ rw e1 (ground arith, ground arith, ground arith, ground arith)
  | inl e1 ↦ elim (Bool-cases (length nonce == 16)) [
    | inr e2 ↦ rw (e1, e2) (ground arith, ground arith, ground arith, ground arith)
    | inl e2 ↦ elim (Bool-cases (2 ^ (log2_loop 32 k 0 % 32) == k)) [
      | inr e3 ↦
          let no_power : ¬ IsPower k = λ p. let e = (log2_loop_iff k word).1 p in cc in
          rw (e1, e2, e3)
            (
              ground arith,
              ground arith,
              (λ _. (ground arith, ground arith, no_power), λ _. refl),
              (λ h. cc, λ (p, q, (l, e, r)). absurd (no_power (l, e))),
            )
      | inl e3 ↦
          let power = (log2_loop_iff k word).0 e3 in
          elim (Bool-cases (n % (log2_loop 32 k 0 + 1) == 0)) [
            | inr e4 ↦
                rw (e1, e2, e3, e4)
                  (
                    ground arith,
                    ground arith,
                    (λ h. cc, λ (p, q, r). absurd (r power)),
                    (
                      λ _. (
                        ground arith,
                        ground arith,
                        (log2_loop 32 k 0, log2_loop-exact k word e3, ground arith),
                      ),
                      λ _. refl,
                    ),
                  )
            | inl e4 ↦
                rw (e1, e2, e3, e4)
                  (
                    ground arith,
                    ground arith,
                    (λ h. cc, λ (p, q, r). absurd (r power)),
                    (
                      λ h. cc,
                      λ (p, q, (l, e, r)).
                          let same = log2_power k word l e in
                          absurd (r (ap (λ t. n % (t + 1)) (sym same) ∙ (==_iff _ 0).0 e4)),
                    ),
                  )
          ]
    ]
  ]
]
