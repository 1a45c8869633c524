-- ===== src/Verify.antt =====
-- The reference verifier, `Requihash::is_valid_solution` of Req/rust/src/lib.rs, which
-- Req/rust/src/verify/reference.rs delegates to.
pub mod Arena
pub mod Early
pub mod Shrink
pub mod Flat
pub mod Agree
pub mod Equivalent
pub mod Xor
pub mod Solution
pub mod Blocks
pub mod Rounds
pub mod Validity
use requihash.Base.{
  ℕ, zero, suc, ◌+◌, ◌-◌, ◌*◌, ◌^◌, ◌≡◌, refl, bit_xor, Bool, true, false, not, ◌&&◌, leb, ◌==◌,
  if◌then◌else◌, list_eq, list_lt, List, [], ◌∷◌, ◌++◌, map, length, take, drop,
}
use requihash.Outcome.{Outcome, ok, err, panic, ◌>>=◌, ◌>>◌}
use requihash.Params.{
  Error, wrong_length, not_distinct, index_out_of_range, collision_failed, ordering_failed,
  non_zero_root, collision_bit_length, collision_byte_length,
}
use requihash.Engine.{Requihash, leaf_row}
use requihash.Distinct.{all_distinct}

pub record Row : Type 0 where
  pub h : List ℕ
  pub idx : List ℕ

abbrev pub guard : Bool → Error → Outcome Error (Unit {0})
guard true e = ok tt
guard false e = err e

pub guard-eq-ok {ℓ} :
    {B : Type ℓ} (t : Bool) (e : Error) (m : Outcome Error B) {b : B}
    → (guard t e >> m) ≡ ok b
    → (t ≡ true) × (m ≡ ok b)
guard-eq-ok true e m h = (refl, h)
guard-eq-ok false e m h = cc

-- `indices.iter().any(|&i| (i as u64) >= max_leaf)`
unfoldable pub any_at_least : ℕ → List ℕ → Bool
any_at_least bound [] = false
any_at_least bound (i ∷ is) = if leb bound i then true else any_at_least bound is

-- The checks that all three verifiers make first, in the same words.
unfoldable pub check_indices : Requihash → List ℕ → Outcome Error (Unit {0})
check_indices e indices = do
  guard (length indices == 2 ^ e.p.k) wrong_length
  guard (all_distinct indices) not_distinct
  guard (not (any_at_least (2 ^ (collision_bit_length e.p + 1)) indices)) index_out_of_range

-- `h[t] = a.h[t] ^ b.h[t]`
unfoldable pub xor_bytes : List ℕ → List ℕ → List ℕ
xor_bytes [] ys = []
xor_bytes (x ∷ xs) [] = []
xor_bytes (x ∷ xs) (y ∷ ys) = bit_xor x y ∷ xor_bytes xs ys

-- `h[off..off + cbyte]`
abbrev pub segment : ℕ → ℕ → List ℕ → List ℕ
segment off cbyte h = take cbyte (drop off h)

-- The inner `while`: neighbours collide on this round's segment and are merged. A row without a
-- neighbour would be an index out of bounds.
unfoldable pub fold_round : ℕ → ℕ → List Row → Outcome Error (List Row)
unfolding xor_bytes
fold_round cbyte round [] = ok []
fold_round cbyte round (a ∷ []) = panic
fold_round cbyte round (a ∷ b ∷ rest) =
    let off = (round - 1) * cbyte in
    let more = fold_round cbyte round rest in
    do
      guard (list_eq (segment off cbyte a.h) (segment off cbyte b.h)) (collision_failed round)
      guard (list_lt a.idx b.idx) (ordering_failed round)
      xc ← more
      ok (record { h = xor_bytes a.h b.h; idx = a.idx ++ b.idx } ∷ xc)

-- `for round in 1..=k`, with `left` rounds left.
unfoldable pub fold_rounds : ℕ → ℕ → ℕ → List Row → Outcome Error (List Row)
fold_rounds cbyte zero round x = ok x
fold_rounds cbyte (suc left) round x = do
  x' ← fold_round cbyte round x
  fold_rounds cbyte left (round + 1) x'

-- `h.iter().all(|&c| c == 0)`
unfoldable pub all_zero : List ℕ → Bool
all_zero [] = true
all_zero (c ∷ cs) = c == 0 && all_zero cs

-- The assertion on the number of rows, and the test of the root.
unfoldable pub check_root : List Row → Outcome Error (Unit {0})
check_root [] = panic
check_root (r ∷ []) = guard (all_zero r.h) non_zero_root
check_root (r ∷ _ ∷ _) = panic

-- One row for each index.
unfoldable pub leaf_rows : Requihash → List ℕ → List Row
leaf_rows e = map (λ i. record { h = leaf_row e i; idx = i ∷ [] })

unfoldable pub is_valid_solution : Requihash → List ℕ → Outcome Error (Unit {0})
is_valid_solution e indices = do
  check_indices e indices
  x ← fold_rounds (collision_byte_length e.p) e.p.k 1 (leaf_rows e indices)
  check_root x
