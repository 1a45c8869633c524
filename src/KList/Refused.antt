-- ===== src/KList/Refused.antt =====
-- Where `solve` panics although `new` has accepted the parameters.
use requihash.Base.{
  ℕ, zero, suc, ◌-◌, ◌*◌, ◌%◌, ◌^◌, ◌≤◌, ◌<◌, ◌≡◌, ◌⊎◌, inl, inr, ltb, ltb-false, Bool-cases, List,
  arith,
}
use requihash.Base.Bits.{pow_pos}
use requihash.Base.Pow.{pow-le}
use requihash.Outcome.{Outcome, ok, panic}
use requihash.KList.{
  KListWagnerAlgorithm, Message, new, with_capacity, compute_item, items_from, compute_hash_list,
  solve_internal, expect, solve,
}
use requihash.KList.Items.{IsBlake2b}
use requihash.KList.New.{IsAlgorithm, new_iff}

-- What the algorithm cannot work with: a digest of a size that the hash does not give, or lists that are
-- too long to ask memory for.
abbrev pub IsRefused : KListWagnerAlgorithm → Type 0
IsRefused alg = (alg.n ≡ 0) ⊎ (512 < alg.n) ⊎ (58 ≤ alg.ell % 64)

module _ (hash : ℕ → List ℕ → Outcome Message (List ℕ)) (alg : KListWagnerAlgorithm) where
  with_capacity_panic : 58 ≤ alg.ell % 64 → with_capacity (2 ^ (alg.ell % 64)) ≡ panic
  unfolding with_capacity
  with_capacity_panic wide =
      let many = pow-le 58 (alg.ell % 64) wide in
      elim (Bool-cases (ltb (2 ^ 63 - 1) (2 ^ (alg.ell % 64) * 48))) [
        | inl e ↦ rw e
        | inr e ↦ let le = ltb-false _ _ e in absurd (omega arith)
      ]

  items_from_panic :
      ((message : List ℕ) → hash alg.hash_size message ≡ panic)
      → (i j left : ℕ) → 1 ≤ left
      → items_from hash alg i j left ≡ panic
  unfolding items_from compute_item
  items_from_panic none i j zero h = absurd (omega arith)
  items_from_panic none i j (suc left) h = rw (none _)

  no_list :
      ((message : List ℕ) → hash alg.hash_size message ≡ panic) ⊎ (58 ≤ alg.ell % 64)
      → compute_hash_list hash alg 0 ≡ panic
  unfolding compute_hash_list with_capacity
  no_list (inr wide) = rw (with_capacity_panic wide)
  no_list (inl none) =
      let few = items_from_panic none 0 0 (2 ^ (alg.ell % 64)) (pow_pos (alg.ell % 64)) in
      elim (Bool-cases (ltb (2 ^ 63 - 1) (2 ^ (alg.ell % 64) * 48))) [
        | inl e ↦ rw e
        | inr e ↦ rw (e, few)
      ]

-- `new` accepts an `n` of 0 or above 512, for which the hash gives no digest, and an `ell` of 58 to 63
-- modulo 64, for which the first list is too long to ask memory for: `solve` then panics.
pub solve_panic :
    (hash : ℕ → List ℕ → Outcome Message (List ℕ))
    → IsBlake2b hash
    → (n k : ℕ) (nonce : List ℕ) (alg : KListWagnerAlgorithm) → k < 2 ^ 32
    → new n k nonce ≡ ok alg
    → IsRefused alg
    → solve hash alg ≡ panic
unfolding solve solve_internal expect
solve_panic hash blake n k nonce alg word accepted refused =
    let (e1, e2, e3, v) = (new_iff n k nonce word alg).0 accepted in
    rw (no_list hash alg (why v refused))
  where
    why :
        IsAlgorithm alg
        → IsRefused alg
        → ((message : List ℕ) → hash alg.hash_size message ≡ panic) ⊎ (58 ≤ alg.ell % 64)
    why v (inl none) = inl (blake.refuses alg.hash_size (inl (omega (arith, v.bytes))))
    why v (inr (inl many)) = inl (blake.refuses alg.hash_size (inr (omega (arith, v.bytes))))
    why v (inr (inr wide)) = inr wide
