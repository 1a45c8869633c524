-- ===== src/Engine/Keying.antt =====
-- The rows of the leaves.
use requihash.Base.{ℕ, ◌+◌, ◌*◌, ◌≡◌, refl, ◌∙◌, length, replicate, length-replicate}
use requihash.Params.{collision_byte_length}
use requihash.Packing.Size.{length-expand_array_into}
use requihash.Engine.{Requihash, leaf_row_into, leaf_row}

-- A row has `k + 1` segments of whole bytes.
pub length-leaf_row :
    (e : Requihash) (leaf : ℕ) → length (leaf_row e leaf) ≡ (e.p.k + 1) * collision_byte_length e.p
unfolding leaf_row
length-leaf_row e leaf = length-expand_array_into _ _ _ _ ∙ length-replicate _ 0

-- `leaf_row` is `leaf_row_into` on a buffer of zeros.
pub leaf_row-zeros :
    (e : Requihash) (leaf : ℕ)
    → leaf_row_into e leaf (replicate ((e.p.k + 1) * collision_byte_length e.p) 0) ≡ leaf_row e leaf
unfolding leaf_row
leaf_row-zeros e leaf = refl
