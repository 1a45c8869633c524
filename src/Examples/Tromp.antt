-- ===== src/Examples/Tromp.antt =====
-- The bucketed solver for n = 144, k = 5 at concrete inputs.
use requihash.Base.{
  ℕ, zero, suc, ◌+◌, ◌%◌, ◌^◌, ◌≤◌, ◌<◌, ◌≡◌, refl, List, [], ◌∷◌, length, length-replicate,
  replicate, All, arith,
}
use requihash.Outcome.{ok, Returns}
use requihash.Tromp.{
  wk, listindices1, maxsols, new_layout, Slot, Digit, default_slot, new_digit, tree_from_bid,
  tree_bucketid, tree_slotid0, tree_slotid1, bucket_of, store_xor, Solutions, candidate,
  solve_144_4,
}
use requihash.Tromp.Attributes.{tree_round_trip}
use requihash.Tromp.Digits.{
  IsByte, IsDigit, new_layout-LayoutFits, default_slot-IsSlot, new_digit-IsDigit,
}
use requihash.Tromp.Pairs.{SameEnd, Claimed, store_xor-Outcomes}
use requihash.Tromp.Indices.{IsRecorded, IsVector, IsFound, Outcomes, candidate-Outcomes}
use requihash.Tromp.Sound.{IsDigest, solve_144_4-IsRecorded}

-- A hash that adds up the message stands for that of the library.
abbrev add_up : List ℕ → ℕ
add_up [] = 0
add_up (b ∷ bytes) = b + add_up bytes

abbrev toy_hash : List ℕ → ℕ → List ℕ → List ℕ
toy_hash personal size message = replicate size (add_up message % 256)

replicate-bytes : (n b : ℕ) → b < 256 → All IsByte (replicate n b)
replicate-bytes zero b h = tt
replicate-bytes (suc n) b h = (h, replicate-bytes n b h)

toy_hash-IsDigest : IsDigest toy_hash
toy_hash-IsDigest personal size message some few = (
  length-replicate size (add_up message % 256),
  replicate-bytes size (add_up message % 256) (omega arith),
)

solve_144_4-IsRecorded_example :
    Returns
      (λ sols. (length sols ≤ maxsols) × All IsRecorded sols)
      (solve_144_4 toy_hash (b'a' ∷ b'b' ∷ []) (1 ∷ 0 ∷ 0 ∷ 0 ∷ []))
solve_144_4-IsRecorded_example =
    solve_144_4-IsRecorded toy_hash toy_hash-IsDigest (b'a' ∷ b'b' ∷ []) (1 ∷ 0 ∷ 0 ∷ 0 ∷ [])

abbrev even_tables : List Digit
even_tables = new_digit ∷ new_digit ∷ new_digit ∷ []

abbrev odd_tables : List Digit
odd_tables = new_digit ∷ new_digit ∷ []

abbrev nothing_yet : Solutions
nothing_yet = record { sols = []; nsols = 0 }

candidate-Outcomes_example :
    (prf : List ℕ) × (listindices1 even_tables odd_tables wk 70000 ≡ ok prf)
    × IsVector wk prf
    × Returns
        (λ next. IsFound next × Outcomes prf nothing_yet next)
        (candidate even_tables odd_tables 70000 nothing_yet)
candidate-Outcomes_example =
    candidate-Outcomes even_tables odd_tables 70000 nothing_yet
      (new_digit-IsDigit, (new_digit-IsDigit, (new_digit-IsDigit, tt)))
      (new_digit-IsDigit, (new_digit-IsDigit, tt)) refl refl (omega arith)
      (record { kept = refl; vectors = tt })

abbrev one_slot : Slot
one_slot = record { attr = 9; hash = 1 ∷ 2 ∷ 3 ∷ 4 ∷ [] }

store_xor-Outcomes_example :
    (next : Digit) × (store_xor (new_layout 1) 5 0 default_slot 1 one_slot new_digit ≡ ok next)
    × IsDigit next
    × (SameEnd (new_layout 1) default_slot one_slot → next ≡ new_digit)
    × (¬ SameEnd (new_layout 1) default_slot one_slot
        → Claimed (new_layout 1) 5 0 default_slot 1 one_slot new_digit next)
store_xor-Outcomes_example =
    store_xor-Outcomes (new_layout 1) 5 0 1 default_slot one_slot new_digit
      (new_layout-LayoutFits 1 (omega arith) (omega arith)) (omega arith) (omega arith)
      (omega arith) default_slot-IsSlot (refl, omega arith) new_digit-IsDigit

tree_round_trip_example :
    (tree_from_bid 1000 7 63 < 2 ^ 32)
    × (tree_bucketid (tree_from_bid 1000 7 63) ≡ 1000)
    × (tree_slotid0 (tree_from_bid 1000 7 63) ≡ 7)
    × (tree_slotid1 (tree_from_bid 1000 7 63) ≡ 63)
tree_round_trip_example = tree_round_trip 1000 7 63 (omega arith) (omega arith) (omega arith)

-- The bytes 0xab, 0xcd and 0xef name the bucket 0xabcde.
three_bytes : bucket_of 0xab 0xcd 0xef ≡ 0xabcde
unfolding bucket_of
three_bytes = refl
