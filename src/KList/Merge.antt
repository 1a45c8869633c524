-- ===== src/KList/Merge.antt =====
-- `hash_merge` pairs the items of the two lists that have one key.
use requihash.Base.{
  ℕ, Bool, true, false, ◌≡◌, refl, sym, ap, ◌∙◌, inl, inr, ◌↔◌, ◌==◌, ==_iff, Bool-cases,
  if◌then◌else◌, Option, none, some, List, [], ◌∷◌, ◌++◌, map, arith,
}
use requihash.Base.Elem.{
  Elem, here, there, Elem-append_left, Elem-append_right, Elem-append_cases, Elem-map,
  Elem-map_cases,
}
use requihash.KList.{
  HashItem, low_bits_key, entry_push, table_get, fill_table, merge_items, merge_bucket, probe_table,
  hash_merge,
}
use mathlib.Core.Path.{subst}
use mathlib.Core.List.{append-nil, append_assoc}

-- The items that the table holds under a key.
bucket : Option (List HashItem) → List HashItem
bucket none = []
bucket (some items) = items

table_get-entry_push :
    (key other : ℕ) (item : HashItem) (table : List (ℕ × List HashItem))
    → bucket (table_get other (entry_push key item table)) ≡ (
        if key == other
        then bucket (table_get other table) ++ item ∷ []
        else bucket (table_get other table))
unfolding bucket table_get entry_push
table_get-entry_push key other item [] = ground arith
table_get-entry_push key other item ((k, items) ∷ table) =
    ground (arith, table_get-entry_push key other item table)

abbrev keyed : ℕ → ℕ → List HashItem → List HashItem
keyed mask_bit key [] = []
keyed mask_bit key (item ∷ l1) =
    if low_bits_key item.value mask_bit == key
    then item ∷ keyed mask_bit key l1
    else keyed mask_bit key l1

fill_table-keyed :
    (mask_bit key : ℕ) (l1 : List HashItem) (table : List (ℕ × List HashItem))
    → bucket (table_get key (fill_table mask_bit l1 table))
      ≡ bucket (table_get key table) ++ keyed mask_bit key l1
unfolding fill_table
fill_table-keyed mask_bit key [] table = sym (append-nil (bucket (table_get key table)))
fill_table-keyed mask_bit key (item ∷ l1) table =
    fill_table-keyed mask_bit key l1 (entry_push (low_bits_key item.value mask_bit) item table)
    ∙ ap (λ b. b ++ keyed mask_bit key l1)
        (table_get-entry_push (low_bits_key item.value mask_bit) key item table)
    ∙ split (low_bits_key item.value mask_bit == key)
  where
    split :
        (b : Bool)
        → (if b then bucket (table_get key table) ++ item ∷ [] else bucket (table_get key table))
            ++ keyed mask_bit key l1
          ≡ bucket (table_get key table)
            ++ (if b then item ∷ keyed mask_bit key l1 else keyed mask_bit key l1)
    split true = append_assoc (bucket (table_get key table)) (item ∷ []) (keyed mask_bit key l1)
    split false = refl

merge_bucket-map :
    (mask_bit : ℕ) (item2 : HashItem) (found : Option (List HashItem))
    → merge_bucket mask_bit item2 found ≡ map (merge_items mask_bit item2) (bucket found)
unfolding bucket merge_bucket
merge_bucket-map mask_bit item2 none = refl
merge_bucket-map mask_bit item2 (some items) = refl

-- The pairs that the merge makes: every item of the second list with those of the first that have its key.
key_pairs : ℕ → List HashItem → List HashItem → List HashItem
key_pairs mask_bit l1 [] = []
key_pairs mask_bit l1 (item2 ∷ l2) =
    map (merge_items mask_bit item2) (keyed mask_bit (low_bits_key item2.value mask_bit) l1)
    ++ key_pairs mask_bit l1 l2

probe_table-pairs :
    (mask_bit : ℕ) (l1 l2 : List HashItem)
    → probe_table mask_bit l2 (fill_table mask_bit l1 []) ≡ key_pairs mask_bit l1 l2
unfolding probe_table key_pairs bucket
probe_table-pairs mask_bit l1 [] = refl
probe_table-pairs mask_bit l1 (item2 ∷ l2) =
    let key : ℕ = low_bits_key item2.value mask_bit in
    rw (
      merge_bucket-map mask_bit item2 (table_get key (fill_table mask_bit l1 [])),
      fill_table-keyed mask_bit key l1 [],
      probe_table-pairs mask_bit l1 l2,
    )

keyed-Elem :
    (mask_bit key : ℕ) (a : HashItem) (l1 : List HashItem)
    → Elem a (keyed mask_bit key l1) ↔ (Elem a l1 × (low_bits_key a.value mask_bit ≡ key))
keyed-Elem mask_bit key a [] = (λ m. elim m [ ], λ (m, e). elim m [ ])
keyed-Elem mask_bit key a (item ∷ l1) =
    let (to, from) = keyed-Elem mask_bit key a l1 in
    elim (Bool-cases (low_bits_key item.value mask_bit == key)) [
      | inl e ↦ rw e (λ m. forth to ((==_iff _ _).0 e) m, λ (m, k). back from m k)
      | inr e ↦ rw e (λ m. let (n, k) = to m in (there n, k), λ (m, k). skip from e m k)
    ]
  where
    forth :
        (Elem a (keyed mask_bit key l1) → Elem a l1 × (low_bits_key a.value mask_bit ≡ key))
        → low_bits_key item.value mask_bit ≡ key
        → Elem a (item ∷ keyed mask_bit key l1)
        → Elem a (item ∷ l1) × (low_bits_key a.value mask_bit ≡ key)
    forth to e (here p) = (here p, ap (λ (t : HashItem). low_bits_key t.value mask_bit) p ∙ e)
    forth to e (there m) = let (n, k) = to m in (there n, k)

    back :
        (Elem a l1 × (low_bits_key a.value mask_bit ≡ key) → Elem a (keyed mask_bit key l1))
        → Elem a (item ∷ l1)
        → low_bits_key a.value mask_bit ≡ key
        → Elem a (item ∷ keyed mask_bit key l1)
    back from (here p) k = here p
    back from (there m) k = there (from (m, k))

    skip :
        (Elem a l1 × (low_bits_key a.value mask_bit ≡ key) → Elem a (keyed mask_bit key l1))
        → (low_bits_key item.value mask_bit == key) ≡ false
        → Elem a (item ∷ l1)
        → low_bits_key a.value mask_bit ≡ key
        → Elem a (keyed mask_bit key l1)
    skip from e (here p) k =
        let same = sym (ap (λ (t : HashItem). low_bits_key t.value mask_bit) p) ∙ k in
        let hit = (==_iff _ _).1 same in cc
    skip from e (there m) k = from (m, k)

-- An item that a merge makes, and the two that it is made of.
pub record Collision (mask_bit : ℕ) (l1 l2 : List HashItem) (item : HashItem) : Type 0 where
  pub left : HashItem
  pub right : HashItem
  pub from_l1 : Elem left l1
  pub from_l2 : Elem right l2
  pub same_key : low_bits_key left.value mask_bit ≡ low_bits_key right.value mask_bit
  pub merged : item ≡ merge_items mask_bit right left

key_pairs-Collision :
    (mask_bit : ℕ) (l1 l2 : List HashItem) (item : HashItem)
    → Elem item (key_pairs mask_bit l1 l2)
    → Collision mask_bit l1 l2 item
unfolding key_pairs
key_pairs-Collision mask_bit l1 [] item m = elim m [ ]
key_pairs-Collision mask_bit l1 (item2 ∷ l2) item m = elim (Elem-append_cases item _ _ m) [
  | inl p ↦
      let (item1, q, e) = Elem-map_cases (merge_items mask_bit item2) item _ p in
      let (from, k) = (keyed-Elem mask_bit (low_bits_key item2.value mask_bit) item1 l1).0 q in
      record {
        left = item1;
        right = item2;
        from_l1 = from;
        from_l2 = here refl;
        same_key = k;
        merged = e;
      }
  | inr p ↦
      let c = key_pairs-Collision mask_bit l1 l2 item p in
      record {
        left = c.left;
        right = c.right;
        from_l1 = c.from_l1;
        from_l2 = there c.from_l2;
        same_key = c.same_key;
        merged = c.merged;
      }
]

Collision-key_pairs :
    (mask_bit : ℕ) (l1 l2 : List HashItem) (item1 item2 : HashItem)
    → Elem item1 l1
    → Elem item2 l2
    → low_bits_key item1.value mask_bit ≡ low_bits_key item2.value mask_bit
    → Elem (merge_items mask_bit item2 item1) (key_pairs mask_bit l1 l2)
unfolding key_pairs
Collision-key_pairs mask_bit l1 [] item1 item2 m1 m2 k = elim m2 [ ]
Collision-key_pairs mask_bit l1 (t ∷ l2) item1 item2 m1 (here e) k =
    subst
      (λ u. Elem (merge_items mask_bit u item1) (
        map (merge_items mask_bit t) (keyed mask_bit (low_bits_key t.value mask_bit) l1)
        ++ key_pairs mask_bit l1 l2))
      (sym e)
      (Elem-append_left _ _ _ (
        Elem-map (merge_items mask_bit t) item1 _ (
          (keyed-Elem mask_bit (low_bits_key t.value mask_bit) item1 l1).1
            (m1, k ∙ ap (λ (u : HashItem). low_bits_key u.value mask_bit) e))))
Collision-key_pairs mask_bit l1 (t ∷ l2) item1 item2 m1 (there m2) k =
    Elem-append_right _ _ _ (Collision-key_pairs mask_bit l1 l2 item1 item2 m1 m2 k)

-- `hash_merge` makes an item of each item of the first list and each of the second that has the same
-- key, and no other.
pub hash_merge-Collision :
    (l1 l2 : List HashItem) (mask_bit : ℕ) (item : HashItem)
    → Elem item (hash_merge l1 l2 mask_bit) ↔ Collision mask_bit l1 l2 item
unfolding hash_merge
hash_merge-Collision l1 l2 mask_bit item = rw (probe_table-pairs mask_bit l1 l2) (
  key_pairs-Collision mask_bit l1 l2 item,
  λ c.
      subst (λ t. Elem t (key_pairs mask_bit l1 l2)) (sym c.merged)
        (Collision-key_pairs mask_bit l1 l2 c.left c.right c.from_l1 c.from_l2 c.same_key),
)
