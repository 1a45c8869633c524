-- ===== src/Packing/Size.antt =====
-- The expansion writes in place.
use requihash.Base.{
  ℕ, zero, suc, ◌+◌, ◌≡◌, refl, ◌∙◌, leb, Bool-cases, inl, inr, List, [], ◌∷◌, length, length-set,
}
use requihash.Packing.{
  Expand, write_zeros, write_value, expand_step, expand_loop, expand_array_into,
}

length-write_zeros : (i left : ℕ) (out : List ℕ) → length (write_zeros i left out) ≡ length out
unfolding write_zeros
length-write_zeros i zero out = refl
length-write_zeros i (suc left) out = length-write_zeros (i + 1) left _ ∙ length-set out i 0

length-write_value :
    (bit_len acc bits i left : ℕ) (out : List ℕ)
    → length (write_value bit_len acc bits i left out) ≡ length out
unfolding write_value
length-write_value bit_len acc bits i zero out = refl
length-write_value bit_len acc bits i (suc left) out =
    length-write_value bit_len acc bits (i + 1) left _ ∙ length-set out i _

length-expand_step :
    (bit_len byte_pad : ℕ) (s : Expand) (b : ℕ)
    → length (expand_step bit_len byte_pad s b).out ≡ length s.out
unfolding expand_step
length-expand_step bit_len byte_pad s b = elim (Bool-cases (leb bit_len (s.acc_bits + 8))) [
  | inl e ↦ rw e (simp (length-write_value, length-write_zeros))
  | inr e ↦ rw e
]

length-expand_loop :
    (bit_len byte_pad : ℕ) (bs : List ℕ) (s : Expand)
    → length (expand_loop bit_len byte_pad bs s).out ≡ length s.out
unfolding expand_loop
length-expand_loop bit_len byte_pad [] s = refl
length-expand_loop bit_len byte_pad (b ∷ bs) s =
    length-expand_loop bit_len byte_pad bs _ ∙ length-expand_step bit_len byte_pad s b

pub length-expand_array_into :
    (input out : List ℕ) (bit_len byte_pad : ℕ)
    → length (expand_array_into input out bit_len byte_pad) ≡ length out
unfolding expand_array_into
length-expand_array_into input out bit_len byte_pad = length-expand_loop bit_len byte_pad input _
