-- ===== src/Verify/Validity.antt =====
-- The reference verifier decides what a solution is.
use requihash.Base.{
  ℕ, zero, suc, ◌+◌, ◌*◌, ◌^◌, ◌≤◌, ◌<◌, ◌≡◌, ◌↔◌, refl, sym, ap, ◌∙◌, Bool, true, false, not,
  ==_iff, List, [], ◌∷◌, ◌++◌, map, length, take, drop, replicate, All, drop_append,
  length-replicate, length-drop, length-map, take-append-drop, take_append, arith,
}
use requihash.Outcome.{ok, >>=-eq-ok}
use requihash.Params.{Error, collision_bit_length}
use requihash.Engine.{Requihash, leaf_row}
use requihash.Engine.Keying.{length-leaf_row}
use requihash.Distinct.{Distinct}
use requihash.Distinct.Decides.{all_distinct_iff}
use requihash.Verify.{
  Row, guard, guard-eq-ok, any_at_least, check_indices, all_zero, leaf_rows, is_valid_solution,
}
use requihash.Verify.Shrink.{shrink_rounds, shrink_root, xor_bytes_collide}
use requihash.Verify.Flat.{flat, Even}
use requihash.Verify.Xor.{xor_bytes-zeros, all_zero_iff}
use requihash.Verify.Equivalent.{reference-shrink, shrink_verify}
use requihash.Verify.Solution.{
  row_width, xor_rows, IsTree, IsSolution, length-xor_rows, xor_rows-append,
}
use requihash.Verify.Blocks.{cbyte, node, IsNode}
use requihash.Verify.Rounds.{shrink_rounds→nodes, nodes→shrink_rounds}
use mathlib.Core.List.{append-nil}
use mathlib.Core.Path.{subst, ap₂}
use native.Mathlib.Nat.{zero-add, suc-add}

any_at_least_iff :
    (bound : ℕ) (is : List ℕ) → (any_at_least bound is ≡ false) ↔ All (λ i. i < bound) is
unfolding any_at_least
any_at_least_iff bound [] = (λ _. tt, λ _. refl)
any_at_least_iff bound (i ∷ is) =
    let (to, from) = any_at_least_iff bound is in (λ h. ground arith, λ h. ground (arith, from h.1))

false_of_not : (b : Bool) → not b ≡ true → b ≡ false
false_of_not true h = cc
false_of_not false h = refl

last_guard : (b : Bool) (x : Error) → guard b x ≡ ok tt → b ≡ true
last_guard true x h = refl
last_guard false x h = cc

-- The first three checks.
record Indices (e : Requihash) (s : List ℕ) : Type 0 where
  size : length s ≡ 2 ^ e.p.k
  distinct : Distinct s
  in_range : All (λ i. i < 2 ^ (collision_bit_length e.p + 1)) s

check_indices_iff : (e : Requihash) (s : List ℕ) → (check_indices e s ≡ ok tt) ↔ Indices e s
unfolding check_indices
check_indices_iff e s = (forth, back)
  where
    bound : ℕ
    bound = 2 ^ (collision_bit_length e.p + 1)

    forth : check_indices e s ≡ ok tt → Indices e s
    forth h =
        let (size, h1) = guard-eq-ok _ _ _ h in
        let (new, h2) = guard-eq-ok _ _ _ h1 in
        let small = false_of_not (any_at_least bound s) (last_guard _ _ h2) in
        record {
          size = (==_iff _ _).0 size;
          distinct = (all_distinct_iff s).0 new;
          in_range = (any_at_least_iff bound s).0 small;
        }

    back : Indices e s → check_indices e s ≡ ok tt
    back v = rw (
      (==_iff _ _).1 v.size,
      (all_distinct_iff s).1 v.distinct,
      (any_at_least_iff bound s).1 v.in_range,
    )

singles : List ℕ → List (List ℕ)
singles = map (λ i. i ∷ [])

singles-Even : (s : List ℕ) → Even 1 (singles s)
unfolding singles
singles-Even [] = tt
singles-Even (i ∷ s) = (refl, singles-Even s)

length-singles : (s : List ℕ) → length (singles s) ≡ length s
unfolding singles
length-singles s = length-map _ s

singles-IsNode : (e : Requihash) (s : List ℕ) → All (IsNode e 0) (singles s)
unfolding singles
singles-IsNode e [] = tt
singles-IsNode e (i ∷ s) = (record { size = refl; tree = tt }, singles-IsNode e s)

flat-singles : (s : List ℕ) → flat (singles s) ≡ s
unfolding singles flat
flat-singles [] = refl
flat-singles (i ∷ s) = ap (◌∷◌ i) (flat-singles s)

pub leaf-node :
    (e : Requihash) (i : ℕ)
    → ◌≡◌ {A = Row} (record { h = leaf_row e i; idx = i ∷ [] }) (node e 0 (i ∷ []))
leaf-node e i = rw start (ap {B = Row} (λ t. record { h = t; idx = i ∷ [] }) bytes)
  where
    start : 0 * cbyte e ≡ 0
    start = omega arith

    bytes : leaf_row e i ≡ xor_rows e (i ∷ [])
    bytes = unfold xor_rows in sym (xor_bytes-zeros (leaf_row e i) _ (length-leaf_row e i))

leaf_rows-nodes : (e : Requihash) (s : List ℕ) → leaf_rows e s ≡ map (node e 0) (singles s)
unfolding leaf_rows singles
leaf_rows-nodes e [] = refl
leaf_rows-nodes e (i ∷ s) = rw (leaf_rows-nodes e s, leaf-node e i)

take_add : (m n : ℕ) (xs : List ℕ) → take (m + n) xs ≡ take m xs ++ take n (drop m xs)
take_add zero n xs = rw zero-add
take_add (suc m) n [] = rw (suc-add, drop-nil n)
  where
    drop-nil : (n : ℕ) → take {A = ℕ} n [] ≡ []
    drop-nil zero = refl
    drop-nil (suc n) = refl
take_add (suc m) n (x ∷ xs) = rw suc-add (ap (◌∷◌ x) (take_add m n xs))

-- In a tree the segments that the nodes below have collided on are zero.
tree-zeros :
    (e : Requihash) (d : ℕ) (s : List ℕ)
    → d ≤ e.p.k + 1
    → IsTree e d s
    → take (d * cbyte e) (xor_rows e s) ≡ replicate (d * cbyte e) 0
tree-zeros e zero s h t = rw (start (cbyte e))
  where
    start : (c : ℕ) → 0 * c ≡ 0
    start c = omega arith
tree-zeros e (suc d) s h t =
    let c = cbyte e in
    let l = take (2 ^ d) s in
    let r = drop (2 ^ d) s in
    let zl = tree-zeros e d l (omega arith) t.0 in
    let zr = tree-zeros e d r (omega arith) t.1 in
    let next : suc d * c ≡ d * c + c = omega arith in
    let fits : d * c + c ≤ row_width e = grind arith in
    let front : take (d * c + c) (xor_rows e l) ≡ take (d * c + c) (xor_rows e r) =
      take_add (d * c) c (xor_rows e l)
      ∙ ap₂ ◌++◌ (zl ∙ sym zr) t.2
      ∙ sym (take_add (d * c) c (xor_rows e r)) in
    let gone =
      xor_bytes_collide (d * c + c) (xor_rows e l) (xor_rows e r)
        (subst (λ w. d * c + c ≤ w) (sym (length-xor_rows e l)) fits)
        (subst (λ w. d * c + c ≤ w) (sym (length-xor_rows e r)) fits) front in
    rw next (
      ap (λ u. take (d * c + c) (xor_rows e u)) (sym (take-append-drop (2 ^ d) s))
      ∙ ap (take (d * c + c)) (xor_rows-append e l r ∙ gone)
      ∙ take_append (replicate (d * c + c) 0) _ (d * c + c) (sym (length-replicate (d * c + c) 0)))

replicates : (m n : ℕ) → replicate {A = ℕ} m 0 ++ replicate n 0 ≡ replicate (m + n) 0
replicates zero n = rw zero-add
replicates (suc m) n = rw suc-add (ap (◌∷◌ 0) (replicates m n))

all_zero-replicate : (n : ℕ) → all_zero (replicate n 0) ≡ true
unfolding all_zero
all_zero-replicate zero = refl
all_zero-replicate (suc n) = all_zero-replicate n

-- The surviving segment decides about the whole row.
pub tree-root :
    (e : Requihash) (s : List ℕ)
    → IsTree e e.p.k s
    → (all_zero (node e e.p.k s).h ≡ true) ↔ (xor_rows e s ≡ replicate (row_width e) 0)
tree-root e s t = (forth, back)
  where
    m : ℕ
    m = e.p.k * cbyte e

    width : row_width e ≡ m + cbyte e
    width = omega arith

    size : length (drop m (xor_rows e s)) ≡ cbyte e
    size = omega (arith, length-drop m (xor_rows e s), length-xor_rows e s, width)

    forth : all_zero (drop m (xor_rows e s)) ≡ true → xor_rows e s ≡ replicate (row_width e) 0
    forth z =
        let back_zero = rw size at ((all_zero_iff (drop m (xor_rows e s))).0 z) in
        sym (take-append-drop m (xor_rows e s))
        ∙ ap₂ ◌++◌ (tree-zeros e e.p.k s (omega arith) t) back_zero
        ∙ replicates m (cbyte e)
        ∙ ap (λ n. replicate n 0) (sym width)

    back : xor_rows e s ≡ replicate (row_width e) 0 → all_zero (drop m (xor_rows e s)) ≡ true
    back z =
        rw
          (
            z,
            width,
            ← replicates m (cbyte e),
            drop_append {A = ℕ} (replicate m 0) (replicate (cbyte e) 0) m
                (sym (length-replicate m 0)),
          )
          (all_zero-replicate (cbyte e))

root_of :
    (e : Requihash) (d : ℕ) (cs : List (List ℕ))
    → All (IsNode e d) cs
    → shrink_root (map (node e d) cs) ≡ ok tt
    → IsNode e d (flat cs) × (all_zero (node e d (flat cs)).h ≡ true)
unfolding shrink_root flat
root_of e d [] g h = cc
root_of e d (c ∷ []) g h = rw append-nil (g.0, (guard-true _ _ h))
  where
    guard-true : (t : Bool) (x : Error) → guard t x ≡ ok tt → t ≡ true
    guard-true true x h = refl
    guard-true false x h = cc
root_of e d (c ∷ _ ∷ _) g h = cc

-- `is_valid_solution` returns `Ok` exactly on the solutions.
pub is_valid_solution_iff :
    (e : Requihash) (s : List ℕ) → (is_valid_solution e s ≡ ok tt) ↔ IsSolution e s
is_valid_solution_iff e s = rw (reference-shrink e s) (forth, back)
  where
    forth : shrink_verify e s ≡ ok tt → IsSolution e s
    forth h =
        let (u, hc, h1) = >>=-eq-ok (check_indices e s) _ h in
        let (x, hr, hz) = >>=-eq-ok (shrink_rounds (cbyte e) e.p.k 1 (leaf_rows e s)) _ h1 in
        let v = (check_indices_iff e s).0 hc in
        let hr' = subst (λ y. shrink_rounds (cbyte e) e.p.k 1 y ≡ ok x) (leaf_rows-nodes e s) hr in
        let (cs, ex, g, fz) =
          shrink_rounds→nodes e e.p.k 0 e.p.k 1 (singles s) (omega arith) (singles-IsNode e s)
            hr' in
        let (n, z) = root_of e e.p.k cs g (subst (λ y. shrink_root y ≡ ok tt) ex hz) in
        let whole = fz ∙ flat-singles s in
        let t = subst (IsTree e e.p.k) whole n.tree in
        record {
          size = v.size;
          distinct = v.distinct;
          in_range = v.in_range;
          tree = t;
          root = (tree-root e s t).0 (subst (λ y. all_zero (node e e.p.k y).h ≡ true) whole z);
        }

    back : IsSolution e s → shrink_verify e s ≡ ok tt
    back v =
        let c =
          (check_indices_iff e s).1
            (record { size = v.size; distinct = v.distinct; in_range = v.in_range }) in
        let t = subst (IsTree e e.p.k) (sym (flat-singles s)) v.tree in
        let r =
          nodes→shrink_rounds e e.p.k 0 e.p.k 1 (singles s) (omega arith)
            (length-singles s ∙ v.size) (singles-Even s) t in
        let z = (tree-root e s v.tree).1 v.root in
        rw (c, leaf_rows-nodes e s, r, flat-singles s) (unfold shrink_root in rw z)
