-- ===== src/KList/Tree.antt =====
-- The stack of `solve_internal` is a binary counter: it carries out a balanced merge tree, and `solve`
-- does not panic.
use requihash.Base.{
  ℕ, zero, suc, ◌+◌, ◌-◌, ◌*◌, ◌%◌, ◌^◌, ◌≤◌, ◌≡◌, refl, sym, ap, ◌∙◌, false, ◌==◌, ==_refl,
  if◌then◌else◌, List, [], ◌∷◌, map, arith,
}
use requihash.Base.Bits.{pow_pos}
use requihash.Outcome.{Outcome, ok}
use requihash.KList.{
  HashItem, KListWagnerAlgorithm, StackEntry, hash_merge, carry, push_lists, Message, root,
  solve_internal, expect, solve,
}
use requihash.KList.Items.{IsDigest, leaves, compute_hash_list-leaves}
use native.Mathlib.Nat.{pow-suc}

-- The bits that the merge at a depth takes.
abbrev pub mask_at : KListWagnerAlgorithm → ℕ → ℕ
mask_at alg depth = if depth == (alg.lgk + 2 ^ 32 - 1) % 2 ^ 32 then alg.ell * 2 else alg.ell

-- No entry of a counter is less deep than its top.
abbrev Above : ℕ → List StackEntry → Type 0
Above d [] = Unit
Above d (top ∷ stack) = d ≤ top.depth

module _ (hash : ℕ → List ℕ → Outcome Message (List ℕ)) (alg : KListWagnerAlgorithm) where
  -- The lists from `i` on, `2 ^ d` of them, merged in a balanced tree.
  unfoldable pub tree : ℕ → ℕ → List HashItem
  tree zero i = leaves hash alg i 0 (2 ^ (alg.ell % 64))
  tree (suc d) i = hash_merge (tree d i) (tree d (i + 2 ^ d)) (mask_at alg d)

  carry-push :
      (d : ℕ) (l : List HashItem) (stack : List StackEntry)
      → Above (suc d) stack
      → carry alg stack d l ≡ record { list = l; depth = d } ∷ stack
  unfolding carry
  carry-push d l [] h = refl
  carry-push d l (top ∷ stack) h = let apart : (top.depth == d) ≡ false = ground arith in rw apart

  carry-merge :
      (d : ℕ) (l1 l2 : List HashItem) (stack : List StackEntry)
      → carry alg (record { list = l1; depth = d } ∷ stack) d l2
        ≡ carry alg stack (suc d) (hash_merge l1 l2 (mask_at alg d))
  unfolding carry
  carry-merge d l1 l2 stack = let e : d + 1 ≡ suc d = omega arith in rw (==_refl d, e)

  Above-pred : (d : ℕ) (stack : List StackEntry) → Above (suc d) stack → Above d stack
  Above-pred d [] h = tt
  Above-pred d (top ∷ stack) h = omega arith

  module _ (digest : IsDigest hash alg.hash_size) (narrow : alg.ell ≤ 32) where
    -- A block of `2 ^ d` lists comes to one carry of its tree.
    push_lists-tree :
        (d i left : ℕ) (stack : List StackEntry)
        → Above d stack
        → push_lists hash alg i (2 ^ d + left) stack
          ≡ push_lists hash alg (i + 2 ^ d) left (carry alg stack d (tree d i))
    unfolding tree push_lists
    push_lists-tree zero i left stack h =
        let e : 1 + left ≡ suc left = omega arith in
        rw (e, compute_hash_list-leaves hash alg digest narrow i)
    push_lists-tree (suc d) i left stack h =
        let half : ℕ = 2 ^ d in
        let twice : 2 ^ suc d + left ≡ half + (half + left) = omega (arith, pow-suc 2 d) in
        let after : i + half + half ≡ i + 2 ^ suc d = omega (arith, pow-suc 2 d) in
        ap (λ t. push_lists hash alg i t stack) twice
        ∙ push_lists-tree d i (half + left) stack (Above-pred d stack h)
        ∙ ap (push_lists hash alg (i + half) (half + left)) (carry-push d (tree d i) stack h)
        ∙ push_lists-tree d (i + half) left (record { list = tree d i; depth = d } ∷ stack)
            (omega arith)
        ∙ ap (push_lists hash alg (i + half + half) left)
            (carry-merge d (tree d i) (tree d (i + half)) stack)
        ∙ ap (λ t. push_lists hash alg t left (carry alg stack (suc d) (tree (suc d) i))) after

    first_pushed :
        push_lists hash alg 0 (suc (alg.k - 1)) []
        ≡ push_lists hash alg 1 (alg.k - 1) (record { list = tree 0 0; depth = 0 } ∷ [])
    unfolding push_lists carry tree
    first_pushed = rw (compute_hash_list-leaves hash alg digest narrow 0)

    all_pushed :
        alg.k ≡ 2 ^ alg.lgk
        → push_lists hash alg 1 (alg.k - 1) (record { list = tree 0 0; depth = 0 } ∷ [])
          ≡ ok (record { list = tree alg.lgk 0; depth = alg.lgk } ∷ [])
    unfolding push_lists carry
    all_pushed whole =
        let enough = pow_pos alg.lgk in
        let rounds : suc (alg.k - 1) ≡ 2 ^ alg.lgk + 0 = omega arith in
        sym first_pushed
        ∙ ap (λ t. push_lists hash alg 0 t []) rounds
        ∙ push_lists-tree alg.lgk 0 0 [] tt

    -- Where `k` is `2 ^ lgk`, which `new` ensures, lists have at most 2 ^ 32 items, and the hash gives
    -- digests of the size it is asked for, the stack comes down to one entry at depth `lgk`: `solve`
    -- returns, without a panic, the index vectors of the balanced merge tree over the `k` lists.
    pub solve-tree :
        alg.k ≡ 2 ^ alg.lgk
        → solve hash alg ≡ ok (map (λ (item : HashItem). item.index_vector) (tree alg.lgk 0))
    unfolding solve solve_internal root expect tree
    solve-tree whole =
        rw (compute_hash_list-leaves hash alg digest narrow 0, all_pushed whole, ==_refl alg.lgk)
