-- ===== src/KList/Sound.antt =====
-- The check of `verify` accepts what `solve` returns.
use requihash.Base.{
  ℕ, zero, suc, ◌+◌, ◌*◌, ◌%◌, ◌^◌, ◌≤◌, ◌<◌, bit_xor, ◌≡◌, refl, sym, ap, ◌∙◌, ◌↔◌, Bool, true,
  false, &&-parts, inl, inr, Bool-cases, ==_iff, List, [], ◌∷◌, length, length-replicate, replicate,
  All, arith,
}
use requihash.Base.Elem.{Elem, here, there}
use requihash.Base.Bits.{pow_pos, zero-bit_xor, bit_xor-zero, bit_xor_assoc}
use requihash.Outcome.{Outcome, ok, Returns}
use requihash.KList.{
  KListWagnerAlgorithm, big_xor, is_all_zero, Message, solve, all_sized, xor_items, all_cancel,
  verify,
}
use requihash.KList.Values.{
  Bytes, be_value, be_value_lt, big_xor-Bytes, length-big_xor, be_value-big_xor, is_all_zero_iff,
}
use requihash.KList.Shift.{Bytes-zeros, be_value-replicate}
use requihash.KList.New.{IsAlgorithm}
use requihash.KList.Items.{IsDigest, IsBlake2b, item, item-digest}
use requihash.KList.Tree.{mask_at}
use requihash.KList.Exact.{
  total, cleared, IsPartial, IsPartial-length, IsPartial-cancels, solve-exact,
}
use requihash.Base.Xor.{bit_xor_lt}
use native.Mathlib.Nat.{mod-eq_of_lt}
use mathlib.Core.Path.{subst}

module _ (hash : ℕ → List ℕ → Outcome Message (List ℕ)) (alg : KListWagnerAlgorithm) where
  -- What a string of the digest's length stands for.
  record Sums (acc : List ℕ) (value : ℕ) : Type 0 where
    size : length acc ≡ alg.hash_size
    bytes : Bytes acc
    same : be_value acc ≡ value

  xor_items-Sums :
      IsDigest hash alg.hash_size
      → (i : ℕ) (s : List ℕ) (acc : List ℕ) (value : ℕ) → Sums acc value
      → Returns (λ out. Sums out (bit_xor value (total hash alg i s))) (xor_items hash alg i s acc)
  unfolding xor_items
  xor_items-Sums digest i [] acc value h = (
    acc,
    refl,
    record { size = h.size; bytes = h.bytes; same = h.same ∙ sym (bit_xor-zero value) },
  )
  xor_items-Sums digest i (j ∷ s) acc value h =
      let new : List ℕ = item hash alg i j in
      let (given, item_size, item_bytes) = item-digest hash alg digest i j in
      let sized : length acc ≡ length new = h.size ∙ sym item_size in
      let next : Sums (big_xor acc new) (bit_xor value (be_value new)) = record {
        size = length-big_xor acc new sized ∙ item_size;
        bytes = big_xor-Bytes acc new h.bytes item_bytes;
        same =
            be_value-big_xor acc new sized h.bytes item_bytes
            ∙ ap (λ t. bit_xor t (be_value new)) h.same;
      } in
      let (out, e, sums) =
        xor_items-Sums digest (i + 1) s (big_xor acc new) (bit_xor value (be_value new)) next in
      (
        out,
        rw (given, e),
        subst (Sums out) (bit_xor_assoc value (be_value new) (total hash alg (i + 1) s)) sums,
      )

  -- The accumulator of `verify` is zero exactly when the total is.
  accumulator_iff :
      IsDigest hash alg.hash_size
      → (s : List ℕ)
      → (out : List ℕ) × (xor_items hash alg 0 s (replicate alg.hash_size 0) ≡ ok out)
        × ((is_all_zero out ≡ true) ↔ (total hash alg 0 s ≡ 0))
  accumulator_iff digest s =
      let start : Sums (replicate alg.hash_size 0) 0 = record {
        size = length-replicate alg.hash_size 0;
        bytes = Bytes-zeros alg.hash_size;
        same = be_value-replicate alg.hash_size;
      } in
      let (out, e, h) = xor_items-Sums digest 0 s (replicate alg.hash_size 0) 0 start in
      let value = h.same ∙ zero-bit_xor (total hash alg 0 s) in
      let (to, from) = is_all_zero_iff out in
      (out, e, (λ z. sym value ∙ to z, λ z. from (value ∙ z)))

  total_lt :
      IsDigest hash alg.hash_size
      → (i : ℕ) (s : List ℕ) → total hash alg i s < 2 ^ (8 * alg.hash_size)
  total_lt digest i [] = pow_pos (8 * alg.hash_size)
  total_lt digest i (j ∷ s) =
      let new : List ℕ = item hash alg i j in
      let (given, size, bytes) = item-digest hash alg digest i j in
      let lt = be_value_lt new bytes in
      bit_xor_lt (8 * alg.hash_size) (be_value new) (total hash alg (i + 1) s)
        (subst (λ (t : ℕ). be_value new < 2 ^ (8 * t)) size lt) (total_lt digest (i + 1) s)

  module _ (v : IsAlgorithm alg) (several : 1 ≤ alg.lgk) where
    cleared-below : (d : ℕ) → d < alg.lgk → cleared hash alg d ≡ alg.ell * d
    cleared-below zero h = omega arith
    cleared-below (suc d) h =
        let e : mask_at alg d ≡ alg.ell = ground (arith, v.depth) in
        ap (λ t. cleared hash alg d + t) e ∙ grind (arith, cleared-below d (omega arith))

    -- All the `n` bits are taken.
    cleared-all : cleared hash alg alg.lgk ≡ alg.n
    cleared-all = go alg.lgk refl
      where
        go : (d : ℕ) → d ≡ alg.lgk → cleared hash alg d ≡ alg.n
        go zero e = absurd (omega arith)
        go (suc d) e =
            let last : mask_at alg d ≡ alg.ell * 2 = ground (arith, v.depth) in
            let whole : alg.n ≡ alg.ell * (suc d + 1) =
              v.parts ∙ ap (λ t. alg.ell * (t + 1)) (sym e) in
            ap (λ t. cleared hash alg d + t) last
            ∙ grind (arith, cleared-below d (omega arith), whole)

    -- The totals of the vectors that the solver finds are zero.
    partial-cancels :
        IsDigest hash alg.hash_size
        → (s : List ℕ) → IsPartial hash alg alg.lgk 0 s
        → total hash alg 0 s ≡ 0
    partial-cancels digest s p =
        let wide : 8 * alg.hash_size ≡ alg.n = omega (arith, v.bytes) in
        let lt = total_lt digest 0 s in
        let small : total hash alg 0 s < 2 ^ alg.n =
          subst (λ (t : ℕ). total hash alg 0 s < 2 ^ t) wide lt in
        let clears =
          ap (λ t. total hash alg 0 s % 2 ^ t) (sym cleared-all)
          ∙ IsPartial-cancels hash alg alg.lgk 0 s p in
        sym (mod-eq_of_lt small) ∙ clears

    -- The vectors that the solver finds are what `verify` asks for.
    partial-Cancels :
        IsDigest hash alg.hash_size
        → (s : List ℕ) → IsPartial hash alg alg.lgk 0 s
        → (length s ≡ alg.k) × (total hash alg 0 s ≡ 0)
    partial-Cancels digest s p =
        (IsPartial-length hash alg alg.lgk 0 s p ∙ sym v.power, partial-cancels digest s p)

-- What `verify` asks of a vector: `k` indices, whose items cancel.
abbrev pub Cancels :
    (ℕ → List ℕ → Outcome Message (List ℕ)) → KListWagnerAlgorithm → List ℕ → Type 0
Cancels hash alg s = (length s ≡ alg.k) × (total hash alg 0 s ≡ 0)

module _ (hash : ℕ → List ℕ → Outcome Message (List ℕ)) (alg : KListWagnerAlgorithm) where
  all_sized_iff :
      (solutions : List (List ℕ))
      → (all_sized hash alg solutions ≡ true) ↔ All (λ s. length s ≡ alg.k) solutions
  unfolding all_sized
  all_sized_iff [] = (λ _. tt, λ _. refl)
  all_sized_iff (s ∷ solutions) =
      let (to, from) = all_sized_iff solutions in
      (
        λ h. let (size, sizes) = &&-parts _ _ h in ((==_iff _ _).0 size, to sizes),
        λ (size, sizes). rw ((==_iff _ _).1 size, from sizes),
      )

  all_cancel_iff :
      IsDigest hash alg.hash_size
      → (solutions : List (List ℕ))
      → (accepted : Bool) × (all_cancel hash alg solutions ≡ ok accepted)
        × ((accepted ≡ true) ↔ All (λ s. total hash alg 0 s ≡ 0) solutions)
  unfolding all_cancel
  all_cancel_iff digest [] = (true, refl, (λ _. tt, λ _. refl))
  all_cancel_iff digest (s ∷ solutions) =
      let (accepted, e, (to, from)) = all_cancel_iff digest solutions in
      let (out, ex, (nothing, cancels)) = accumulator_iff hash alg digest s in
      elim (Bool-cases (is_all_zero out)) [
        | inl z ↦ rw (ex, z, e) (accepted, refl, (λ h. (nothing z, to h), λ (sum, sums). from sums))
        | inr z ↦ rw (ex, z) (false, refl, (λ h. cc, λ (sum, sums). let hit = cancels sum in cc))
      ]

  both_All :
      (solutions : List (List ℕ))
      → All (λ s. length s ≡ alg.k) solutions
      → All (λ s. total hash alg 0 s ≡ 0) solutions
      → All (Cancels hash alg) solutions
  both_All [] a b = tt
  both_All (s ∷ solutions) a b = ((a.0, b.0), both_All solutions a.1 b.1)

  parts_All :
      (solutions : List (List ℕ))
      → All (Cancels hash alg) solutions
      → All (λ s. length s ≡ alg.k) solutions × All (λ s. total hash alg 0 s ≡ 0) solutions
  parts_All [] a = (tt, tt)
  parts_All (s ∷ solutions) a =
      let (sizes, sums) = parts_All solutions a.1 in ((a.0.0, sizes), (a.0.1, sums))

  Elem-All :
      {P : List ℕ → Type 0} (solutions : List (List ℕ))
      → ((s : List ℕ) → Elem s solutions → P s)
      → All P solutions
  Elem-All [] found = tt
  Elem-All (s ∷ solutions) found =
      (found s (here refl), Elem-All solutions (λ t m. found t (there m)))

-- Where the hash gives digests of the size, `verify` returns, and it accepts a list of index vectors
-- exactly if each has `k` indices and the numbers of the items that they choose cancel.
pub verify_iff :
    (hash : ℕ → List ℕ → Outcome Message (List ℕ)) (alg : KListWagnerAlgorithm)
    → IsDigest hash alg.hash_size
    → (solutions : List (List ℕ))
    → (accepted : Bool) × (verify hash alg solutions ≡ ok accepted)
      × ((accepted ≡ true) ↔ All (Cancels hash alg) solutions)
unfolding verify
verify_iff hash alg digest [] = (true, refl, (λ _. tt, λ _. refl))
verify_iff hash alg digest (s ∷ solutions) =
    let (sized, unsized) = all_sized_iff hash alg (s ∷ solutions) in
    let (accepted, e, (to, from)) = all_cancel_iff hash alg digest (s ∷ solutions) in
    elim (Bool-cases (all_sized hash alg (s ∷ solutions))) [
      | inl z ↦
          rw (z, e)
            (
              accepted,
              refl,
              (
                λ h. both_All hash alg (s ∷ solutions) (sized z) (to h),
                λ a. from (parts_All hash alg (s ∷ solutions) a).1,
              ),
            )
      | inr z ↦ rw z (
        false,
        refl,
        (λ h. cc, λ a. let hit = unsized (parts_All hash alg (s ∷ solutions) a).0 in cc),
      )
    ]

-- For an algorithm that `new` returns, with more than one list, lists of at most 2 ^ 32 items and
-- digests of 1 to 64 bytes, which the hash documents to give, `solve` returns a list, on which `verify`
-- returns true.
pub verify-solve :
    (hash : ℕ → List ℕ → Outcome Message (List ℕ)) (alg : KListWagnerAlgorithm)
    → IsBlake2b hash
    → IsAlgorithm alg
    → 1 ≤ alg.lgk
    → alg.ell ≤ 32
    → 8 ≤ alg.n
    → alg.n ≤ 512
    → (solutions : List (List ℕ)) × (solve hash alg ≡ ok solutions)
      × (verify hash alg solutions ≡ ok true)
verify-solve hash alg blake v several narrow some few =
    let digest = blake.digests alg.hash_size (omega (arith, v.bytes)) (omega (arith, v.bytes)) in
    let (solutions, returned, exact) = solve-exact hash alg digest narrow v.power in
    let (accepted, e, (to, from)) = verify_iff hash alg digest solutions in
    let cancels =
      Elem-All hash alg solutions
        (λ s m. partial-Cancels hash alg v several digest s ((exact s).0 m)) in
    (solutions, returned, e ∙ ap ok (from cancels))
