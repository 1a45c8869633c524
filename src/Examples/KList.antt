-- ===== src/Examples/KList.antt =====
-- The k-list algorithm at concrete inputs.
use requihash.Base.{
  ℕ, zero, suc, ◌+◌, ◌%◌, ◌^◌, ◌<◌, ◌≡◌, ◌≢◌, ◌↔◌, ◌≤◌, ◌⊎◌, inl, inr, ltb, ltb-≥, ◌==◌,
  if◌then◌else◌, Bool, refl, true, false, List, [], ◌∷◌, map, length, length-replicate, replicate,
  All, arith,
}
use requihash.Base.Elem.{Elem}
use requihash.Outcome.{Outcome, ok, err, panic}
use requihash.KList.{
  Message, HashItem, KListWagnerAlgorithm, n_not_bytes, nonce_not_16, k_not_power, n_not_divisible,
  big_shr, low_bits_key, hash_merge, solve, verify,
}
use requihash.KList.Values.{Bytes, be_value}
use requihash.KList.Shift.{be_value-big_shr}
use requihash.KList.Keys.{low_bits_key-eq-mod}
use requihash.KList.New.{IsPower, IsAlgorithm, new_iff, new_errors}
use requihash.KList.Merge.{Collision, hash_merge-Collision}
use requihash.KList.Tree.{tree, solve-tree}
use requihash.KList.Items.{IsDigest, IsBlake2b}
use requihash.KList.Refused.{solve_panic}
use requihash.KList.Exact.{IsPartial, solve-exact}
use requihash.KList.Sound.{Cancels, verify_iff, verify-solve}

-- A hash that adds up the message stands for that of the library.
abbrev sum : List ℕ → ℕ
sum [] = 0
sum (b ∷ bytes) = b + sum bytes

abbrev toy_hash : ℕ → List ℕ → Outcome Message (List ℕ)
toy_hash size message =
    if size == 0
    then panic
    else if ltb 64 size
    then panic
    else ok (replicate size (sum message % 256))

replicate-Bytes : (n b : ℕ) → b < 256 → Bytes (replicate n b)
replicate-Bytes zero b h = tt
replicate-Bytes (suc n) b h = (h, replicate-Bytes n b h)

toy_hash-IsDigest : (size : ℕ) → 1 ≤ size → size ≤ 64 → IsDigest toy_hash size
toy_hash-IsDigest size some few message =
    let positive : (size == 0) ≡ false = ground arith in
    rw (positive, ltb-≥ 64 size few)
      (
        replicate size (sum message % 256),
        refl,
        length-replicate size (sum message % 256),
        replicate-Bytes size (sum message % 256) (omega arith),
      )

toy_hash-refuses :
    (size : ℕ) → (size ≡ 0) ⊎ (64 < size) → (message : List ℕ) → toy_hash size message ≡ panic
toy_hash-refuses size (inl none) message = rw none
toy_hash-refuses size (inr many) message =
    let positive : (size == 0) ≡ false = ground arith in
    let above : ltb 64 size ≡ true = ground arith in rw (positive, above)

toy_hash-IsBlake2b : IsBlake2b toy_hash
toy_hash-IsBlake2b = record { digests = toy_hash-IsDigest; refuses = toy_hash-refuses }

-- Digests of two bytes.
two_bytes : IsDigest toy_hash 2
two_bytes = toy_hash-IsDigest 2 (omega arith) (omega arith)

abbrev zero_nonce : List ℕ
zero_nonce = replicate 16 0

-- n = 16, k = 2: two lists of 2 ^ 8 items.
abbrev two_lists : KListWagnerAlgorithm
two_lists = record { n = 16; k = 2; lgk = 1; ell = 8; nonce = replicate 16 0; hash_size = 2 }

two_lists-IsAlgorithm : IsAlgorithm two_lists
two_lists-IsAlgorithm = record {
  nonce_size = refl;
  depth = omega arith;
  power = refl;
  bytes = refl;
  parts = refl;
}

verify-solve_example :
    (solutions : List (List ℕ)) × (solve toy_hash two_lists ≡ ok solutions)
    × (verify toy_hash two_lists solutions ≡ ok true)
verify-solve_example =
    verify-solve toy_hash two_lists toy_hash-IsBlake2b two_lists-IsAlgorithm (omega arith)
      (omega arith) (omega arith) (omega arith)

solve-exact_example :
    (solutions : List (List ℕ)) × (solve toy_hash two_lists ≡ ok solutions)
    × ((s : List ℕ) → Elem s solutions ↔ IsPartial toy_hash two_lists 1 0 s)
solve-exact_example = solve-exact toy_hash two_lists two_bytes (omega arith) refl

solve-tree_example :
    solve toy_hash two_lists
    ≡ ok (map (λ (item : HashItem). item.index_vector) (tree toy_hash two_lists 1 0))
solve-tree_example = solve-tree toy_hash two_lists two_bytes (omega arith) refl

verify_iff_example :
    (accepted : Bool) × (verify toy_hash two_lists ((3 ∷ 3 ∷ []) ∷ []) ≡ ok accepted)
    × ((accepted ≡ true) ↔ All (Cancels toy_hash two_lists) ((3 ∷ 3 ∷ []) ∷ []))
verify_iff_example = verify_iff toy_hash two_lists two_bytes ((3 ∷ 3 ∷ []) ∷ [])

-- n = 0 is accepted, with digests of no bytes.
abbrev no_bits : KListWagnerAlgorithm
no_bits = record { n = 0; k = 2; lgk = 1; ell = 0; nonce = replicate 16 0; hash_size = 0 }

no_bits-accepted : requihash.KList.new 0 2 zero_nonce ≡ ok no_bits
no_bits-accepted = (new_iff 0 2 zero_nonce (omega arith) no_bits).1 (
  refl,
  refl,
  refl,
  record { nonce_size = refl; depth = omega arith; power = refl; bytes = refl; parts = refl },
)

solve_panic_example : solve toy_hash no_bits ≡ panic
solve_panic_example =
    solve_panic toy_hash toy_hash-IsBlake2b 0 2 zero_nonce no_bits (omega arith) no_bits-accepted
      (inl refl)

abbrev first_items : List HashItem
first_items =
    record { value = 1 ∷ 5 ∷ []; index_vector = 0 ∷ [] }
    ∷ record { value = 7 ∷ 5 ∷ []; index_vector = 1 ∷ [] }
    ∷ []

abbrev second_items : List HashItem
second_items = record { value = 3 ∷ 5 ∷ []; index_vector = 4 ∷ [] } ∷ []

hash_merge-Collision_example :
    Elem
      (record { value = 0 ∷ 2 ∷ []; index_vector = 0 ∷ 4 ∷ [] })
      (hash_merge first_items second_items 8)
    ↔ Collision 8 first_items second_items
        (record { value = 0 ∷ 2 ∷ []; index_vector = 0 ∷ 4 ∷ [] })
hash_merge-Collision_example =
    hash_merge-Collision first_items second_items 8
      (record { value = 0 ∷ 2 ∷ []; index_vector = 0 ∷ 4 ∷ [] })

be_value-big_shr_example :
    (length (big_shr (0xAB ∷ 0xCD ∷ 0xEF ∷ []) 12) ≡ 3)
    × (be_value (big_shr (0xAB ∷ 0xCD ∷ 0xEF ∷ []) 12) ≡ 0xABC)
be_value-big_shr_example =
    be_value-big_shr (0xAB ∷ 0xCD ∷ 0xEF ∷ []) 12 (omega arith, (omega arith, (omega arith, tt)))

low_bits_key-eq-mod_example : low_bits_key (0xAB ∷ 0xCD ∷ 0xEF ∷ []) 12 ≡ 0xDEF
low_bits_key-eq-mod_example =
    low_bits_key-eq-mod (0xAB ∷ 0xCD ∷ 0xEF ∷ []) 12 (omega arith)
      (omega arith, (omega arith, (omega arith, tt)))

new_iff_example : (requihash.KList.new 16 2 zero_nonce ≡ ok two_lists) ↔ (
    (two_lists.n ≡ 16) × (two_lists.k ≡ 2) × (two_lists.nonce ≡ zero_nonce) × IsAlgorithm two_lists)
new_iff_example = new_iff 16 2 zero_nonce (omega arith) two_lists

new_errors_example :
    ((requihash.KList.new 24 6 zero_nonce ≡ err n_not_bytes) ↔ (24 % 8 ≢ 0))
    × ((requihash.KList.new 24 6 zero_nonce ≡ err nonce_not_16)
        ↔ ((24 % 8 ≡ 0) × (length zero_nonce ≢ 16)))
    × ((requihash.KList.new 24 6 zero_nonce ≡ err k_not_power)
        ↔ ((24 % 8 ≡ 0) × (length zero_nonce ≡ 16) × (¬ IsPower 6)))
    × ((requihash.KList.new 24 6 zero_nonce ≡ err n_not_divisible)
        ↔ ((24 % 8 ≡ 0) × (length zero_nonce ≡ 16) × ((l : ℕ) × (6 ≡ 2 ^ l) × (24 % (l + 1) ≢ 0))))
new_errors_example = new_errors 24 6 zero_nonce (omega arith)
