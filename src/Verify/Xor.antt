-- ===== src/Verify/Xor.antt =====
-- The exclusive or of rows.
use requihash.Base.{
  ℕ, zero, suc, ◌≡◌, ◌↔◌, refl, ap, true, &&-parts, ==_iff, List, [], ◌∷◌, length, drop, replicate,
  arith,
}
use mathlib.Core.Path.{ap₂}
use requihash.Base.Bits.{bit_xor_assoc, bit_xor_comm, zero-bit_xor, bit_xor-zero}
use requihash.Verify.{xor_bytes, all_zero}

pub xor_bytes_assoc :
    (xs ys zs : List ℕ) → xor_bytes (xor_bytes xs ys) zs ≡ xor_bytes xs (xor_bytes ys zs)
unfolding xor_bytes
xor_bytes_assoc [] ys zs = refl
xor_bytes_assoc (x ∷ xs) [] zs = refl
xor_bytes_assoc (x ∷ xs) (y ∷ ys) [] = refl
xor_bytes_assoc (x ∷ xs) (y ∷ ys) (z ∷ zs) = rw (bit_xor_assoc x y z, xor_bytes_assoc xs ys zs)

pub xor_bytes_comm : (xs ys : List ℕ) → xor_bytes xs ys ≡ xor_bytes ys xs
unfolding xor_bytes
xor_bytes_comm [] [] = refl
xor_bytes_comm [] (y ∷ ys) = refl
xor_bytes_comm (x ∷ xs) [] = refl
xor_bytes_comm (x ∷ xs) (y ∷ ys) = rw (bit_xor_comm x y, xor_bytes_comm xs ys)

pub zeros-xor_bytes : (ys : List ℕ) (n : ℕ) → length ys ≡ n → xor_bytes (replicate n 0) ys ≡ ys
unfolding xor_bytes
zeros-xor_bytes [] zero e = refl
zeros-xor_bytes [] (suc n) e = absurd (omega arith)
zeros-xor_bytes (y ∷ ys) zero e = absurd (omega arith)
zeros-xor_bytes (y ∷ ys) (suc n) e =
    rw (zero-bit_xor y) (ap (◌∷◌ y) (zeros-xor_bytes ys n (omega arith)))

pub drop-xor_bytes :
    (n : ℕ) (xs ys : List ℕ)
    → length xs ≡ length ys
    → drop n (xor_bytes xs ys) ≡ xor_bytes (drop n xs) (drop n ys)
unfolding xor_bytes
drop-xor_bytes zero xs ys e = refl
drop-xor_bytes (suc n) [] ys e = refl
drop-xor_bytes (suc n) (x ∷ xs) [] e = absurd (omega arith)
drop-xor_bytes (suc n) (x ∷ xs) (y ∷ ys) e = drop-xor_bytes n xs ys (omega arith)

pub xor_bytes-zeros : (xs : List ℕ) (n : ℕ) → length xs ≡ n → xor_bytes xs (replicate n 0) ≡ xs
unfolding xor_bytes
xor_bytes-zeros [] n e = refl
xor_bytes-zeros (x ∷ xs) zero e = absurd (omega arith)
xor_bytes-zeros (x ∷ xs) (suc n) e = rw (bit_xor-zero x, xor_bytes-zeros xs n (omega arith))

pub all_zero_iff : (h : List ℕ) → (all_zero h ≡ true) ↔ (h ≡ replicate (length h) 0)
unfolding all_zero
all_zero_iff [] = (λ _. refl, λ _. refl)
all_zero_iff (c ∷ cs) =
    let (to, from) = all_zero_iff cs in
    (
      λ h. let (e, z) = &&-parts _ _ h in ap₂ ◌∷◌ ((==_iff c 0).0 e) (to z),
      λ h.
          let first : c ≡ 0 = cc in
          let rest : cs ≡ replicate (length cs) 0 = cc in rw (first, from rest),
    )
