-- ===== src/Verify/Rounds.antt =====
-- All the rounds over the blocks of the input.
use requihash.Base.{
  ℕ, zero, suc, ◌+◌, ◌*◌, ◌^◌, ◌≡◌, refl, sym, ap, ◌∙◌, List, [], ◌∷◌, ◌++◌, map, length, take,
  drop, All, All-append, All-left, All-right, take_append, drop_append, take-append-drop,
  length-take, length-drop, length-append, arith,
}
use requihash.Base.Bits.{pow-add}
use requihash.Outcome.{ok, >>=-eq-ok}
use requihash.Engine.{Requihash}
use requihash.Verify.{Row}
use requihash.Verify.Shrink.{shrink_round, shrink_rounds}
use requihash.Verify.Flat.{flat, Even}
use requihash.Verify.Solution.{IsTree}
use requihash.Verify.Blocks.{pairs, cbyte, node, IsNode, shrink_round→nodes, nodes→shrink_round}
use mathlib.Core.List.{append-nil, append_assoc}
use mathlib.Core.Path.{subst}
use native.Mathlib.Nat.{two-pow-succ, mul_comm}

flat-append : (xs ys : List (List ℕ)) → flat (xs ++ ys) ≡ flat xs ++ flat ys
unfolding flat
flat-append [] ys = refl
flat-append (x ∷ xs) ys = ap (◌++◌ x) (flat-append xs ys) ∙ sym (append_assoc x (flat xs) (flat ys))

length-flat : (w : ℕ) (xs : List (List ℕ)) → Even w xs → length (flat xs) ≡ length xs * w
unfolding flat
length-flat w [] h = omega arith
length-flat w (x ∷ xs) h = omega (arith, length-append x (flat xs), length-flat w xs h.1)

pairs-shape :
    (d n : ℕ) (bs : List (List ℕ))
    → length bs ≡ n + n
    → Even (2 ^ d) bs
    → Even (2 ^ suc d) (pairs bs) × (length (pairs bs) ≡ n) × (flat (pairs bs) ≡ flat bs)
unfolding pairs flat
pairs-shape d n [] h g = (tt, omega arith, refl)
pairs-shape d n (a ∷ []) h g = absurd (omega arith)
pairs-shape d zero (a ∷ b ∷ rest) h g = absurd (omega arith)
pairs-shape d (suc n) (a ∷ b ∷ rest) h g =
    let (even, len, same) = pairs-shape d n rest (omega arith) g.1.1 in
    (
      (omega (arith, length-append a b, two-pow-succ d), even),
      omega arith,
      append_assoc a b (flat (pairs rest)) ∙ ap (λ t. a ++ (b ++ t)) same,
    )

module _ (e : Requihash) where
  -- The subtrees over the blocks of a tree.
  subtrees :
      (left d m : ℕ) (cs : List (List ℕ))
      → m ≡ d + left
      → length cs ≡ 2 ^ left
      → Even (2 ^ d) cs
      → IsTree e m (flat cs)
      → All (IsTree e d) cs
  subtrees zero d m [] em len g t = absurd (omega arith)
  subtrees zero d m (c ∷ []) em len g t =
      let same : m ≡ d = omega arith in (unfold flat in rw (same, append-nil) at t, tt)
  subtrees zero d m (c ∷ _ ∷ _) em len g t = absurd (omega arith)
  subtrees (suc left) d zero cs em len g t = absurd (omega arith)
  subtrees (suc left) d (suc m) cs em len g t =
      let half = 2 ^ left in
      let l = take half cs in
      let r = drop half cs in
      let whole = take-append-drop half cs in
      let g' : Even (2 ^ d) (l ++ r) = subst (Even (2 ^ d)) (sym whole) g in
      let gl = All-left (λ x. length x ≡ 2 ^ d) l r g' in
      let gr = All-right (λ x. length x ≡ 2 ^ d) l r g' in
      let len_l : length l ≡ half = omega (arith, length-take half cs, two-pow-succ left) in
      let len_r : length r ≡ half = omega (arith, length-drop half cs, two-pow-succ left) in
      let em' : m ≡ d + left = omega arith in
      let size : 2 ^ m ≡ length (flat l) =
        rw (length-flat (2 ^ d) l gl, len_l, em', pow-add d left) (mul_comm (2 ^ d) (2 ^ left)) in
      let t' : IsTree e (suc m) (flat l ++ flat r) =
        subst (IsTree e (suc m)) (sym (ap flat whole) ∙ flat-append l r) t in
      let tl = subst (IsTree e m) (take_append (flat l) (flat r) (2 ^ m) size) t'.0 in
      let tr = subst (IsTree e m) (drop_append (flat l) (flat r) (2 ^ m) size) t'.1 in
      subst (All (IsTree e d)) whole (
        All-append (IsTree e d) l r (subtrees left d m l em' len_l gl tl)
          (subtrees left d m r em' len_r gr tr))

  -- Rounds that return have built trees over the blocks.
  pub shrink_rounds→nodes :
      (left d m round : ℕ) (bs : List (List ℕ)) {z : List Row}
      → m ≡ d + left
      → All (IsNode e d) bs
      → shrink_rounds (cbyte e) left round (map (node e d) bs) ≡ ok z
      → (cs : List (List ℕ)) × (z ≡ map (node e m) cs) × All (IsNode e m) cs × (flat cs ≡ flat bs)
  unfolding shrink_rounds
  shrink_rounds→nodes zero d m round bs em g h =
      let same : m ≡ d = omega arith in
      (bs, rw same (cc), subst (λ t. All (IsNode e t) bs) (sym same) g, refl)
  shrink_rounds→nodes (suc left) d m round bs {z} em g h =
      let (x, h1, h2) = >>=-eq-ok (shrink_round (cbyte e) round (map (node e d) bs)) _ h in
      let (ex, gx, fx) = shrink_round→nodes e d round bs g h1 in
      let h3 = subst (λ t. shrink_rounds (cbyte e) left (round + 1) t ≡ ok z) ex h2 in
      let (cs, ez, gz, fz) =
        shrink_rounds→nodes left (suc d) m (round + 1) (pairs bs) (omega arith) gx h3 in
      (cs, ez, gz, fz ∙ fx)

  -- Over the blocks of a tree the rounds return the row of the whole.
  pub nodes→shrink_rounds :
      (left d m round : ℕ) (bs : List (List ℕ))
      → m ≡ d + left
      → length bs ≡ 2 ^ left
      → Even (2 ^ d) bs
      → IsTree e m (flat bs)
      → shrink_rounds (cbyte e) left round (map (node e d) bs) ≡ ok (node e m (flat bs) ∷ [])
  unfolding shrink_rounds
  nodes→shrink_rounds zero d m round [] em len g t = absurd (omega arith)
  nodes→shrink_rounds zero d m round (b ∷ []) em len g t =
      let same : m ≡ d = omega arith in rw same (unfold flat in rw append-nil)
  nodes→shrink_rounds zero d m round (b ∷ _ ∷ _) em len g t = absurd (omega arith)
  nodes→shrink_rounds (suc left) d m round bs em len g t =
      let em' : m ≡ suc d + left = omega arith in
      let len' : length bs ≡ 2 ^ left + 2 ^ left = omega (arith, two-pow-succ left) in
      let (even, half, same) = pairs-shape d (2 ^ left) bs len' g in
      let t' = subst (IsTree e m) (sym same) t in
      let trees = subtrees left (suc d) m (pairs bs) em' half even t' in
      rw (
        nodes→shrink_round e d round (2 ^ left) bs len' g trees,
        nodes→shrink_rounds left (suc d) m (round + 1) (pairs bs) em' half even t',
        same,
      )
