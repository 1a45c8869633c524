-- ===== src/KList/Exact.antt =====
-- The items of the merge tree are the index vectors that collide at every node.
use requihash.Base.{
  ℕ, zero, suc, ◌+◌, ◌*◌, ◌/◌, ◌%◌, ◌^◌, ◌≤◌, ◌<◌, bit_xor, ◌≡◌, refl, sym, ap, ◌∙◌, ◌↔◌, List, [],
  ◌∷◌, ◌++◌, length, length-append, map, arith,
}
use requihash.Base.Elem.{Elem, here, there, Elem-map, Elem-map_cases}
use requihash.Base.Bits.{pow_pos, zero-bit_xor, bit_xor-zero, bit_xor_self, bit_xor_assoc}
use requihash.Base.Pow.{div-div_pow, mod-pow_add, pow-le}
use requihash.Base.Xor.{div-bit_xor, mod-bit_xor, eq_of_bit_xor}
use requihash.Outcome.{Outcome, ok}
use requihash.KList.{
  HashItem, KListWagnerAlgorithm, big_xor, low_bits_key, merge_items, solve, Message,
}
use requihash.KList.Values.{Bytes, be_value, big_xor-Bytes, length-big_xor, be_value-big_xor}
use requihash.KList.Shift.{big_shr-Bytes, be_value-big_shr}
use requihash.KList.Keys.{low_bits_key-eq-mod}
use requihash.KList.Merge.{Collision, hash_merge-Collision}
use requihash.KList.Items.{IsDigest, item, leaf, leaves, item-digest}
use requihash.KList.Tree.{mask_at, tree, solve-tree}
use mathlib.Core.Path.{subst}
use native.Mathlib.Decide.{dec_lt}
use native.Mathlib.Nat.{pow-suc, mod-eq_of_lt}

module _ (hash : ℕ → List ℕ → Outcome Message (List ℕ)) (alg : KListWagnerAlgorithm) where
  abbrev pub number : ℕ → ℕ → ℕ
  number i j = be_value (item hash alg i j)

  -- The exclusive or of the items that the indices choose from the lists from `i` on.
  abbrev pub total : ℕ → List ℕ → ℕ
  total i [] = 0
  total i (j ∷ indices) = bit_xor (number i j) (total (i + 1) indices)

  -- The bits that have been shifted out at a depth.
  abbrev pub cleared : ℕ → ℕ
  cleared zero = 0
  cleared (suc d) = cleared d + mask_at alg d

  -- One index for each of the `2 ^ d` lists from `i` on; at every node of the balanced tree over
  -- them the bits of the rounds up to it cancel.
  abbrev pub IsPartial : ℕ → ℕ → List ℕ → Type 0
  IsPartial zero i s = (j : ℕ) × (j < 2 ^ alg.ell) × (s ≡ j ∷ [])
  IsPartial (suc d) i s =
      (l : List ℕ) × (r : List ℕ) × IsPartial d i l
      × IsPartial d (i + 2 ^ d) r
      × (s ≡ l ++ r)
      × (total i s % 2 ^ cleared (suc d) ≡ 0)

  total-append :
      (i : ℕ) (l r : List ℕ) → total i (l ++ r) ≡ bit_xor (total i l) (total (i + length l) r)
  total-append i [] r = sym (zero-bit_xor (total (i + 0) r) ∙ ap (λ t. total t r) (omega arith))
  total-append i (j ∷ l) r =
      let place : i + 1 + length l ≡ i + suc (length l) = omega arith in
      ap (bit_xor (number i j))
        (total-append (i + 1) l r ∙ ap (λ t. bit_xor (total (i + 1) l) (total t r)) place)
      ∙ sym (bit_xor_assoc (number i j) (total (i + 1) l) (total (i + suc (length l)) r))

  pub IsPartial-length : (d i : ℕ) (s : List ℕ) → IsPartial d i s → length s ≡ 2 ^ d
  IsPartial-length zero i s (j, lt, e) = ap length e
  IsPartial-length (suc d) i s (l, r, pl, pr, e, z) =
      ap length e
      ∙ omega (
        arith,
        length-append l r,
        IsPartial-length d i l pl,
        IsPartial-length d (i + 2 ^ d) r pr,
        pow-suc 2 d,
      )

  pub IsPartial-cancels : (d i : ℕ) (s : List ℕ) → IsPartial d i s → total i s % 2 ^ cleared d ≡ 0
  IsPartial-cancels zero i s h = omega arith
  IsPartial-cancels (suc d) i s (l, r, pl, pr, e, z) = z

  -- An item of the tree: its number is what is left of the total of its indices.
  record Holds (d i : ℕ) (item : HashItem) : Type 0 where
    partial : IsPartial d i item.index_vector
    size : length item.value ≡ alg.hash_size
    bytes : Bytes item.value
    left : be_value item.value ≡ total i item.index_vector / 2 ^ cleared d

  module _ (digest : IsDigest hash alg.hash_size) (narrow : alg.ell ≤ 32) where
    mask_narrow : (d : ℕ) → mask_at alg d ≤ 64
    mask_narrow d = ground arith

    leaf-Holds : (i j : ℕ) → j < 2 ^ alg.ell → Holds 0 i (leaf hash alg i j)
    leaf-Holds i j lt =
        let (given, size, bytes) = item-digest hash alg digest i j in
        record {
          partial = (j, lt, refl);
          size = size;
          bytes = bytes;
          left = sym (ap (λ t. t / 2 ^ 0) (bit_xor-zero (number i j)) ∙ omega arith);
        }

    index_word : (j : ℕ) → j < 2 ^ alg.ell → j % 2 ^ 32 ≡ j
    index_word j lt =
        let wide = pow-le alg.ell 32 narrow in
        let word : j < 2 ^ 32 = omega arith in mod-eq_of_lt word

    leaves-Holds :
        (i j left : ℕ) (item : HashItem)
        → j + left ≤ 2 ^ alg.ell
        → Elem item (leaves hash alg i j left)
        → Holds 0 i item
    unfolding leaves
    leaves-Holds i j zero item h m = elim m [ ]
    leaves-Holds i j (suc left) item h (here e) =
        let lt : j < 2 ^ alg.ell = omega arith in
        subst (Holds 0 i) (sym (e ∙ ap (leaf hash alg i) (index_word j lt))) (leaf-Holds i j lt)
    leaves-Holds i j (suc left) item h (there m) = leaves-Holds i (j + 1) left item (omega arith) m

    leaves-leaf :
        (i j left c : ℕ)
        → j + left ≤ 2 ^ alg.ell
        → j ≤ c
        → c < j + left
        → Elem (leaf hash alg i c) (leaves hash alg i j left)
    unfolding leaves
    leaves-leaf i j zero c h lo hi = absurd (omega arith)
    leaves-leaf i j (suc left) c h lo hi = elim (dec_lt j c) [
      | yes lt ↦ there (leaves-leaf i (j + 1) left c (omega arith) (omega arith) (omega arith))
      | no ge ↦
          let same : c ≡ j = omega arith in
          let word : j % 2 ^ 32 ≡ j = index_word j (omega arith) in
          here (ap (leaf hash alg i) (same ∙ sym word))
    ]

    count : 2 ^ (alg.ell % 64) ≡ 2 ^ alg.ell
    count = let e : alg.ell % 64 ≡ alg.ell = omega arith in ap (λ t. 2 ^ t) e

    -- The number of a merged pair.
    module _ (d i : ℕ) (a b : HashItem) (ha : Holds d i a) (hb : Holds d (i + 2 ^ d) b) where
      joined : List ℕ
      joined = a.index_vector ++ b.index_vector

      total-joined :
          total i (a.index_vector ++ b.index_vector)
          ≡ bit_xor (total i a.index_vector) (total (i + 2 ^ d) b.index_vector)
      total-joined =
          total-append i a.index_vector b.index_vector
          ∙ ap (λ t. bit_xor (total i a.index_vector) (total (i + t) b.index_vector))
              (IsPartial-length d i a.index_vector ha.partial)

      numbers :
          bit_xor (be_value a.value) (be_value b.value)
          ≡ total i (a.index_vector ++ b.index_vector) / 2 ^ cleared d
      numbers =
          rw (ha.left, hb.left)
            (sym (
              ap (λ t. t / 2 ^ cleared d) total-joined
              ∙ div-bit_xor (cleared d) (total i a.index_vector)
                  (total (i + 2 ^ d) b.index_vector)))

      low_cancels : total i (a.index_vector ++ b.index_vector) % 2 ^ cleared d ≡ 0
      low_cancels =
          ap (λ t. t % 2 ^ cleared d) total-joined
          ∙ mod-bit_xor (cleared d) (total i a.index_vector) (total (i + 2 ^ d) b.index_vector)
          ∙ rw (
            IsPartial-cancels d i a.index_vector ha.partial,
            IsPartial-cancels d (i + 2 ^ d) b.index_vector hb.partial,
          )

      -- The keys are equal exactly when the bits of the round cancel.
      same_key_iff :
          (low_bits_key a.value (mask_at alg d) ≡ low_bits_key b.value (mask_at alg d))
          ↔ (total i (a.index_vector ++ b.index_vector) % 2 ^ cleared (suc d) ≡ 0)
      same_key_iff =
          let m : ℕ = mask_at alg d in
          let ka = low_bits_key-eq-mod a.value m (mask_narrow d) ha.bytes in
          let kb = low_bits_key-eq-mod b.value m (mask_narrow d) hb.bytes in
          let parts = mod-pow_add (total i (a.index_vector ++ b.index_vector)) (cleared d) m in
          let round : total i (a.index_vector ++ b.index_vector) / 2 ^ cleared d % 2 ^ m
              ≡ bit_xor (be_value a.value % 2 ^ m) (be_value b.value % 2 ^ m) =
            ap (λ t. t % 2 ^ m) (sym numbers)
            ∙ mod-bit_xor m (be_value a.value) (be_value b.value) in
          (
            λ e.
                let none : bit_xor (be_value a.value % 2 ^ m) (be_value b.value % 2 ^ m) ≡ 0 =
                  ap (λ t. bit_xor (be_value a.value % 2 ^ m) t) (sym kb ∙ sym e ∙ ka)
                  ∙ bit_xor_self (be_value a.value % 2 ^ m) in
                parts ∙ rw (low_cancels, round, none) (omega arith),
            λ z.
                let none : bit_xor (be_value a.value % 2 ^ m) (be_value b.value % 2 ^ m) ≡ 0 =
                  sym round ∙ factor _ _ _ (sym parts ∙ z) (pow_pos (cleared d)) in
                ka ∙ eq_of_bit_xor _ _ none ∙ sym kb,
          )
        where
          factor : (x y p : ℕ) → x + y * p ≡ 0 → 1 ≤ p → y ≡ 0
          factor x y p e h = grind arith

      merged-Holds :
          total i (a.index_vector ++ b.index_vector) % 2 ^ cleared (suc d) ≡ 0
          → Holds (suc d) i (merge_items (mask_at alg d) b a)
      unfolding merge_items
      merged-Holds z =
          let m : ℕ = mask_at alg d in
          let sized : length a.value ≡ length b.value = ha.size ∙ sym hb.size in
          let bytes = big_xor-Bytes a.value b.value ha.bytes hb.bytes in
          let shifted = be_value-big_shr (big_xor a.value b.value) m bytes in
          record {
            partial = (a.index_vector, b.index_vector, ha.partial, hb.partial, refl, z);
            size = shifted.0 ∙ length-big_xor a.value b.value sized ∙ hb.size;
            bytes = big_shr-Bytes (big_xor a.value b.value) m;
            left =
                shifted.1
                ∙ ap (λ t. t / 2 ^ m)
                    (be_value-big_xor a.value b.value sized ha.bytes hb.bytes ∙ numbers)
                ∙ div-div_pow (total i (a.index_vector ++ b.index_vector)) (cleared d) m;
          }

    tree-Holds : (d i : ℕ) (item : HashItem) → Elem item (tree hash alg d i) → Holds d i item
    unfolding tree
    tree-Holds zero i item m =
        let whole : 0 + 2 ^ (alg.ell % 64) ≤ 2 ^ alg.ell = omega (arith, count) in
        leaves-Holds i 0 (2 ^ (alg.ell % 64)) item whole m
    tree-Holds (suc d) i item m =
        let c = (hash_merge-Collision _ _ _ item).0 m in
        let ha = tree-Holds d i c.left c.from_l1 in
        let hb = tree-Holds d (i + 2 ^ d) c.right c.from_l2 in
        subst (Holds (suc d) i) (sym c.merged) (
          merged-Holds d i c.left c.right ha hb
            ((same_key_iff d i c.left c.right ha hb).0 c.same_key))

    -- Every such index vector is that of an item.
    tree_complete :
        (d i : ℕ) (s : List ℕ)
        → IsPartial d i s
        → (item : HashItem) × Elem item (tree hash alg d i) × (item.index_vector ≡ s)
    unfolding tree merge_items
    tree_complete zero i s (j, lt, e) =
        let whole : 0 + 2 ^ (alg.ell % 64) ≤ 2 ^ alg.ell = omega (arith, count) in
        (
          leaf hash alg i j,
          leaves-leaf i 0 (2 ^ (alg.ell % 64)) j whole (omega arith) (omega (arith, count)),
          sym e,
        )
    tree_complete (suc d) i s (l, r, pl, pr, e, z) =
        let (a, ma, ea) = tree_complete d i l pl in
        let (b, mb, eb) = tree_complete d (i + 2 ^ d) r pr in
        let ha = tree-Holds d i a ma in
        let hb = tree-Holds d (i + 2 ^ d) b mb in
        let joins : a.index_vector ++ b.index_vector ≡ s =
          ap (λ t. t ++ b.index_vector) ea ∙ ap (λ t. l ++ t) eb ∙ sym e in
        let z' = ap (λ t. total i t % 2 ^ cleared (suc d)) joins ∙ z in
        let c : Collision (mask_at alg d) (tree hash alg d i) (tree hash alg d (i + 2 ^ d))
            (merge_items (mask_at alg d) b a) =
          record {
            left = a;
            right = b;
            from_l1 = ma;
            from_l2 = mb;
            same_key = (same_key_iff d i a b ha hb).1 z';
            merged = refl;
          } in
        (merge_items (mask_at alg d) b a, (hash_merge-Collision _ _ _ _).1 c, joins)

-- Where `k` is `2 ^ lgk`, lists have at most 2 ^ 32 items and the hash gives digests of the size, `solve` returns a list, and it holds
-- exactly the vectors with one index for each of the `k` lists at which the bits of each round cancel.
pub solve-exact :
    (hash : ℕ → List ℕ → Outcome Message (List ℕ)) (alg : KListWagnerAlgorithm)
    → IsDigest hash alg.hash_size
    → alg.ell ≤ 32
    → alg.k ≡ 2 ^ alg.lgk
    → (solutions : List (List ℕ)) × (solve hash alg ≡ ok solutions)
      × ((s : List ℕ) → Elem s solutions ↔ IsPartial hash alg alg.lgk 0 s)
solve-exact hash alg digest narrow power = (
  map (λ (item : HashItem). item.index_vector) (tree hash alg alg.lgk 0),
  solve-tree hash alg digest narrow power,
  λ s. (forth s, back s),
)
  where
    forth :
        (s : List ℕ)
        → Elem s (map (λ (item : HashItem). item.index_vector) (tree hash alg alg.lgk 0))
        → IsPartial hash alg alg.lgk 0 s
    forth s m =
        let (item, mi, e) = Elem-map_cases (λ (item : HashItem). item.index_vector) s _ m in
        let h = tree-Holds hash alg digest narrow alg.lgk 0 item mi in
        subst (IsPartial hash alg alg.lgk 0) (sym e) h.partial

    back :
        (s : List ℕ)
        → IsPartial hash alg alg.lgk 0 s
        → Elem s (map (λ (item : HashItem). item.index_vector) (tree hash alg alg.lgk 0))
    back s p =
        let (item, mi, e) = tree_complete hash alg digest narrow alg.lgk 0 s p in
        subst (λ t. Elem t (map (λ (item : HashItem). item.index_vector) (tree hash alg alg.lgk 0)))
          e (Elem-map (λ (item : HashItem). item.index_vector) item _ mi)
