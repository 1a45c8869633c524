-- ===== src/Verify/Solution.antt =====
-- What a solution is, in terms of the leaves alone: no rows are merged here.
use requihash.Base.{
  ℕ, zero, suc, ◌+◌, ◌*◌, ◌^◌, ◌<◌, ◌≡◌, ◌∙◌, true, list_lt, List, [], ◌∷◌, ◌++◌, length, take,
  drop, replicate, length-replicate, All, sym, ap,
}
use requihash.Params.{collision_bit_length, collision_byte_length}
use requihash.Engine.{Requihash, leaf_row}
use requihash.Engine.Keying.{length-leaf_row}
use requihash.Distinct.{Distinct}
use requihash.Verify.{xor_bytes, segment}
use requihash.Verify.Shrink.{length-xor_bytes}
use requihash.Verify.Xor.{xor_bytes_assoc, zeros-xor_bytes}

abbrev pub row_width : Requihash → ℕ
row_width e = (e.p.k + 1) * collision_byte_length e.p

-- The exclusive or of the rows of some leaves.
unfoldable pub xor_rows : Requihash → List ℕ → List ℕ
xor_rows e [] = replicate (row_width e) 0
xor_rows e (i ∷ is) = xor_bytes (leaf_row e i) (xor_rows e is)

-- Over 2 ^ d leaves, at every inner node of the binary tree: the two halves collide on the segment
-- of the node's height, and the left half comes first in the lexicographic order.
abbrev pub IsTree : Requihash → ℕ → List ℕ → Type 0
IsTree e zero s = Unit
IsTree e (suc d) s =
    let l = take (2 ^ d) s in
    let r = drop (2 ^ d) s in
    let cbyte = collision_byte_length e.p in
    IsTree e d l
    × IsTree e d r
    × (segment (d * cbyte) cbyte (xor_rows e l) ≡ segment (d * cbyte) cbyte (xor_rows e r))
    × (list_lt l r ≡ true)

pub record IsSolution (e : Requihash) (s : List ℕ) : Type 0 where
  pub size : length s ≡ 2 ^ e.p.k
  pub distinct : Distinct s
  pub in_range : All (λ i. i < 2 ^ (collision_bit_length e.p + 1)) s
  pub tree : IsTree e e.p.k s
  pub root : xor_rows e s ≡ replicate (row_width e) 0

pub length-xor_rows : (e : Requihash) (s : List ℕ) → length (xor_rows e s) ≡ row_width e
unfolding xor_rows
length-xor_rows e [] = length-replicate (row_width e) 0
length-xor_rows e (i ∷ is) =
    length-xor_bytes (leaf_row e i) (xor_rows e is)
      (length-leaf_row e i ∙ sym (length-xor_rows e is))
    ∙ length-leaf_row e i

pub xor_rows-append :
    (e : Requihash) (s t : List ℕ) → xor_rows e (s ++ t) ≡ xor_bytes (xor_rows e s) (xor_rows e t)
unfolding xor_rows
xor_rows-append e [] t = sym (zeros-xor_bytes (xor_rows e t) (row_width e) (length-xor_rows e t))
xor_rows-append e (i ∷ is) t =
    ap (xor_bytes (leaf_row e i)) (xor_rows-append e is t)
    ∙ sym (xor_bytes_assoc (leaf_row e i) (xor_rows e is) (xor_rows e t))
