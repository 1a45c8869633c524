-- ===== src/LeafHash/Choice.antt =====
-- The self-test of Req/rust/src/hash/mod.rs, and the back end that it lets through.
use requihash.Base.{
  ℕ, ◌*◌, ◌≡◌, ◌↔◌, ◌⊎◌, refl, sym, ap, ◌∙◌, inl, inr, Bool, true, false, Bool-cases, ◌==◌, ==_iff,
  list_eq, list_eq_iff, if◌then◌else◌, List, [], ◌∷◌, length, length-replicate, replicate, All,
}
use requihash.Base.Elem.{Elem, here, there}
use requihash.Outcome.{Outcome, ok, Returns}
use requihash.Solve.Arena.{range}
use requihash.LeafHash.{
  LeafHasher, blake2b_scalar, self_test_person, self_test_prefix, self_test_keys,
  agrees_with_reference, first_agreeing, autodetect,
}
use requihash.LeafHash.Batches.{rows_of, scalar_row, blake2b_scalar-rows}

abbrev pub self_test : LeafHasher → Outcome (Unit {0}) (List ℕ)
self_test h = h.hash_many self_test_person self_test_prefix self_test_keys (replicate 4096 0)

-- The digests of the 64 keys of the self-test.
abbrev pub self_test_rows : List ℕ
self_test_rows = rows_of (scalar_row 64 self_test_person self_test_prefix) self_test_keys

-- A back end that passes: 64 bytes for a digest, and the reference's digests.
abbrev pub Passes : LeafHasher → Type 0
Passes h = (h.output_len ≡ 64) × (self_test h ≡ ok self_test_rows)

-- A back end whose batch on the self-test's buffer does not panic.
abbrev pub Runs : LeafHasher → Type 0
Runs h = (out : List ℕ) × (self_test h ≡ ok out)

blake2b_scalar-len : blake2b_scalar.output_len ≡ 64
unfolding blake2b_scalar
blake2b_scalar-len = refl

self_test_size : length self_test_keys ≡ 64
unfolding range
self_test_size = refl

blake2b_scalar-Passes : Passes blake2b_scalar
blake2b_scalar-Passes = (
  blake2b_scalar-len,
  blake2b_scalar-rows self_test_person self_test_prefix self_test_keys (replicate 4096 0)
      (length-replicate {A = ℕ} 4096 0 ∙ ap (λ n. n * 64) (sym self_test_size)),
)

one_value : {A : Type 0} (m : Outcome (Unit {0}) A) {a b : A} → m ≡ ok a → m ≡ ok b → a ≡ b
one_value m h1 h2 = cc

-- The self-test returns true exactly if the back end passes.
pub agrees_with_reference_iff :
    (cand : LeafHasher)
    → Runs cand
    → (same : Bool) × (agrees_with_reference blake2b_scalar cand ≡ ok same)
      × ((same ≡ true) ↔ Passes cand)
unfolding agrees_with_reference
agrees_with_reference_iff cand (out, runs) =
    let (len, rows) = blake2b_scalar-Passes in
    elim (Bool-cases (64 == cand.output_len)) [
      | inl e ↦
          rw (len, e, rows, runs)
            (
              list_eq self_test_rows out,
              refl,
              (
                λ h. (sym ((==_iff _ _).0 e), ap ok (sym ((list_eq_iff self_test_rows out).0 h))),
                λ passes. (list_eq_iff self_test_rows out).1 (one_value (ok out) passes.1 refl),
              ),
            )
      | inr e ↦
          rw (len, e)
            (false, refl, (λ h. cc, λ passes. sym e ∙ (==_iff 64 cand.output_len).1 (sym passes.0)))
    ]

first_agreeing-Passes :
    (candidates : List LeafHasher)
    → All Runs candidates
    → Returns
        (λ h. Passes h × ((h ≡ blake2b_scalar) ⊎ Elem h candidates))
        (first_agreeing blake2b_scalar candidates)
unfolding first_agreeing
first_agreeing-Passes [] runs = (blake2b_scalar, refl, (blake2b_scalar-Passes, inl refl))
first_agreeing-Passes (c ∷ candidates) (run, runs) =
    let (same, returned, passes) = agrees_with_reference_iff c run in
    rw returned (choose (first_agreeing-Passes candidates runs) same passes)
  where
    choose :
        Returns
          (λ h. Passes h × ((h ≡ blake2b_scalar) ⊎ Elem h candidates))
          (first_agreeing blake2b_scalar candidates)
        → (same : Bool) → ((same ≡ true) ↔ Passes c)
        → Returns
            (λ h. Passes h × ((h ≡ blake2b_scalar) ⊎ Elem h (c ∷ candidates)))
            (if same then ok c else first_agreeing blake2b_scalar candidates)
    choose rest true passes = (c, refl, (passes.0 refl, inr (here refl)))
    choose rest false passes =
        let (h, e, (good, from)) = rest in
        (h, e, (good, elim from [ inl s ↦ inl s | inr m ↦ inr (there m) ]))

-- Whatever the build's candidates are, as long as their batches run, the choice returns the reference or
-- a candidate, with digests of 64 bytes, whose batch on the self-test equals the reference's digests.
pub autodetect-Passes :
    (candidates : List LeafHasher)
    → All Runs candidates
    → Returns (λ h. Passes h × ((h ≡ blake2b_scalar) ⊎ Elem h candidates)) (autodetect candidates)
unfolding autodetect
autodetect-Passes candidates runs = first_agreeing-Passes candidates runs
