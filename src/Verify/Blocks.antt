-- ===== src/Verify/Blocks.antt =====
-- The rounds of the fold over the blocks of the input that the rows stand for.
use requihash.Base.{
  ℕ, zero, suc, ◌+◌, ◌*◌, ◌^◌, ◌≡◌, refl, sym, ap, ◌∙◌, true, list_eq_iff, list_lt, List, [], ◌∷◌,
  ◌++◌, map, length, drop, All, take_append, drop_append, drop-drop, length-append, arith,
}
use requihash.Outcome.{ok}
use requihash.Params.{collision_byte_length}
use requihash.Engine.{Requihash}
use requihash.Verify.{Row, xor_bytes, segment}
use requihash.Verify.Shrink.{shrink_round, shrink_round-eq-ok}
use requihash.Verify.Flat.{flat}
use requihash.Verify.Xor.{drop-xor_bytes}
use requihash.Verify.Solution.{xor_rows, IsTree, length-xor_rows, xor_rows-append}
use mathlib.Core.List.{append_assoc}
use native.Mathlib.Nat.{two-pow-succ}

-- Neighbours joined.
unfoldable pub pairs : List (List ℕ) → List (List ℕ)
pairs (a ∷ b ∷ rest) = (a ++ b) ∷ pairs rest
pairs _ = []

module _ (e : Requihash) where
  abbrev pub cbyte : ℕ
  cbyte = collision_byte_length e.p

  -- The row over a block after `d` rounds.
  abbrev pub node : ℕ → List ℕ → Row
  node d b = record { h = drop (d * cbyte) (xor_rows e b); idx = b }

  pub record IsNode (d : ℕ) (b : List ℕ) : Type 0 where
    pub size : length b ≡ 2 ^ d
    pub tree : IsTree e d b

  -- Two blocks may be merged.
  pub record Collide (d : ℕ) (a b : List ℕ) : Type 0 where
    pub same : segment (d * cbyte) cbyte (xor_rows e a) ≡ segment (d * cbyte) cbyte (xor_rows e b)
    pub order : list_lt a b ≡ true

  pub join-IsNode :
      (d : ℕ) (a b : List ℕ) → IsNode d a → IsNode d b → Collide d a b → IsNode (suc d) (a ++ b)
  join-IsNode d a b na nb c =
      let l = take_append a b (2 ^ d) (sym na.size) in
      let r = drop_append a b (2 ^ d) (sym na.size) in
      record {
        size = omega (arith, length-append a b, na.size, nb.size, two-pow-succ d);
        tree = rw (l, r) (na.tree, nb.tree, c.same, c.order);
      }

  pub split-IsNode :
      (d : ℕ) (a b : List ℕ)
      → length a ≡ 2 ^ d
      → length b ≡ 2 ^ d
      → IsTree e (suc d) (a ++ b)
      → IsNode d a × IsNode d b × Collide d a b
  split-IsNode d a b la lb t =
      let l = take_append a b (2 ^ d) (sym la) in
      let r = drop_append a b (2 ^ d) (sym la) in
      let t' = rw (l, r) at t in
      (
        record { size = la; tree = t'.0 },
        record { size = lb; tree = t'.1 },
        record { same = t'.2; order = t'.3 },
      )

  pub merge-node :
      (d : ℕ) (a b : List ℕ)
      → record { h = xor_bytes (drop cbyte (node d a).h) (drop cbyte (node d b).h); idx = a ++ b }
        ≡ node (suc d) (a ++ b)
  merge-node d a b = ap {B = Row} (λ t. record { h = t; idx = a ++ b }) bytes
    where
      next : suc d * cbyte ≡ d * cbyte + cbyte
      next = omega arith

      bytes :
          xor_bytes
            (drop cbyte (drop (d * cbyte) (xor_rows e a)))
            (drop cbyte (drop (d * cbyte) (xor_rows e b)))
          ≡ drop (suc d * cbyte) (xor_rows e (a ++ b))
      bytes = rw (
        drop-drop (d * cbyte) cbyte (xor_rows e a),
        drop-drop (d * cbyte) cbyte (xor_rows e b),
        next,
        xor_rows-append e a b,
        drop-xor_bytes (d * cbyte + cbyte) (xor_rows e a) (xor_rows e b)
            (length-xor_rows e a ∙ sym (length-xor_rows e b)),
      )

  -- A round that returns has merged neighbours that may be merged.
  pub shrink_round→nodes :
      (d round : ℕ) (bs : List (List ℕ)) {z : List Row}
      → All (IsNode d) bs
      → shrink_round cbyte round (map (node d) bs) ≡ ok z
      → (z ≡ map (node (suc d)) (pairs bs))
        × All (IsNode (suc d)) (pairs bs)
        × (flat (pairs bs) ≡ flat bs)
  unfolding shrink_round pairs flat
  shrink_round→nodes d round [] g h = (cc, tt, refl)
  shrink_round→nodes d round (a ∷ []) g h = cc
  shrink_round→nodes d round (a ∷ b ∷ rest) g h =
      let (same, order, xc, r, e') =
        shrink_round-eq-ok cbyte round (node d a) (node d b) (map (node d) rest) h in
      let (er, gr, fr) = shrink_round→nodes d round rest g.1.1 r in
      let c : Collide d a b = record { same = same; order = order } in
      (
        e' ∙ rw (merge-node d a b, er),
        (join-IsNode d a b g.0 g.1.0 c, gr),
        append_assoc a b (flat (pairs rest)) ∙ ap (λ t. a ++ (b ++ t)) fr,
      )

  -- A round over blocks whose pairs are trees returns.
  pub nodes→shrink_round :
      (d round n : ℕ) (bs : List (List ℕ))
      → length bs ≡ n + n
      → All (λ b. length b ≡ 2 ^ d) bs
      → All (IsTree e (suc d)) (pairs bs)
      → shrink_round cbyte round (map (node d) bs) ≡ ok (map (node (suc d)) (pairs bs))
  unfolding shrink_round pairs
  nodes→shrink_round d round n [] even sizes trees = refl
  nodes→shrink_round d round n (a ∷ []) even sizes trees = absurd (omega arith)
  nodes→shrink_round d round zero (a ∷ b ∷ rest) even sizes trees = absurd (omega arith)
  nodes→shrink_round d round (suc n) (a ∷ b ∷ rest) even sizes trees =
      let (na, nb, c) = split-IsNode d a b sizes.0 sizes.1.0 trees.0 in
      rw (
        (list_eq_iff _ _).1 c.same,
        c.order,
        nodes→shrink_round d round n rest (omega arith) sizes.1.1 trees.1,
        merge-node d a b,
      )
