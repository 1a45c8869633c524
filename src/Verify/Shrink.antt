-- ===== src/Verify/Shrink.antt =====
-- The fold on rows that lose the collided segment in each round, which all three verifiers amount
-- to, and the reference verifier as that fold.
use requihash.Base.{
  ℕ, zero, suc, ◌+◌, ◌-◌, ◌*◌, ◌≤◌, ◌≡◌, refl, sym, ap, ◌∙◌, inl, inr, true, Bool-cases, list_eq,
  list_eq_iff, list_lt, List, [], ◌∷◌, ◌++◌, map, length, take, drop, replicate, All, drop_append,
  length-replicate, length-drop, arith,
}
use native.Mathlib.Nat.{zero-add, suc-add}
use requihash.Base.Bits.{bit_xor_self}
use requihash.Outcome.{Outcome, ok, panic, ◌>>=◌, ◌>>◌, >>=_assoc, >>=_congr, >>=-eq-ok}
use requihash.Params.{Error, collision_failed, ordering_failed, non_zero_root}
use requihash.Verify.{
  Row, segment, guard, guard-eq-ok, xor_bytes, fold_round, fold_rounds, all_zero, check_root,
}

unfoldable pub shrink_round : ℕ → ℕ → List Row → Outcome Error (List Row)
shrink_round cbyte round [] = ok []
shrink_round cbyte round (a ∷ []) = panic
shrink_round cbyte round (a ∷ b ∷ rest) =
    let more = shrink_round cbyte round rest in
    do
      guard (list_eq (take cbyte a.h) (take cbyte b.h)) (collision_failed round)
      guard (list_lt a.idx b.idx) (ordering_failed round)
      xc ← more
      ok (record { h = xor_bytes (drop cbyte a.h) (drop cbyte b.h); idx = a.idx ++ b.idx } ∷ xc)

unfoldable pub shrink_rounds : ℕ → ℕ → ℕ → List Row → Outcome Error (List Row)
shrink_rounds cbyte zero round x = ok x
shrink_rounds cbyte (suc left) round x = do
  x' ← shrink_round cbyte round x
  shrink_rounds cbyte left (round + 1) x'

-- Every row has `w` bytes.
abbrev pub Wide : ℕ → List Row → Type 0
Wide w = All (λ r. length r.h ≡ w)

-- A full row: `off` zeros in front of what the shrinking fold keeps.
abbrev pad : ℕ → Row → Row
pad off r = record { h = replicate off 0 ++ r.h; idx = r.idx }

pub length-xor_bytes :
    (xs ys : List ℕ) → length xs ≡ length ys → length (xor_bytes xs ys) ≡ length xs
unfolding xor_bytes
length-xor_bytes [] ys e = refl
length-xor_bytes (x ∷ xs) [] e = absurd (omega arith)
length-xor_bytes (x ∷ xs) (y ∷ ys) e = ap suc (length-xor_bytes xs ys (omega arith))

xor_bytes_pad :
    (off : ℕ) (xs ys : List ℕ)
    → xor_bytes (replicate off 0 ++ xs) (replicate off 0 ++ ys) ≡ replicate off 0 ++ xor_bytes xs ys
unfolding xor_bytes
xor_bytes_pad zero xs ys = refl
xor_bytes_pad (suc off) xs ys = ap (◌∷◌ 0) (xor_bytes_pad off xs ys)

-- Where the first `c` bytes agree, they cancel.
pub xor_bytes_collide :
    (c : ℕ) (xs ys : List ℕ)
    → c ≤ length xs
    → c ≤ length ys
    → take c xs ≡ take c ys
    → xor_bytes xs ys ≡ replicate c 0 ++ xor_bytes (drop c xs) (drop c ys)
unfolding xor_bytes
xor_bytes_collide zero xs ys p q e = refl
xor_bytes_collide (suc c) [] ys p q e = absurd (omega arith)
xor_bytes_collide (suc c) (x ∷ xs) [] p q e = absurd (omega arith)
xor_bytes_collide (suc c) (x ∷ xs) (y ∷ ys) p q e =
    let same : x ≡ y = cc in
    let rest : take c xs ≡ take c ys = cc in
    rw (same, bit_xor_self y, xor_bytes_collide c xs ys (omega arith) (omega arith) rest)

pub shrink_round-eq-ok :
    (cbyte round : ℕ) (a b : Row) (rest : List Row) {z : List Row}
    → shrink_round cbyte round (a ∷ b ∷ rest) ≡ ok z
    → (take cbyte a.h ≡ take cbyte b.h)
      × (list_lt a.idx b.idx ≡ true)
      × (xc : List Row) × (shrink_round cbyte round rest ≡ ok xc)
      × (z ≡ record { h = xor_bytes (drop cbyte a.h) (drop cbyte b.h); idx = a.idx ++ b.idx } ∷ xc)
unfolding shrink_round
shrink_round-eq-ok cbyte round a b rest e =
    let (same, e1) = guard-eq-ok _ _ _ e in
    let (order, e2) = guard-eq-ok _ _ _ e1 in
    let (xc, r, e3) = >>=-eq-ok (shrink_round cbyte round rest) _ e2 in
    ((list_eq_iff _ _).0 same, order, xc, r, cc)

pub shrink_round-Wide :
    (cbyte w round : ℕ) (x : List Row) {z : List Row}
    → Wide w x
    → shrink_round cbyte round x ≡ ok z
    → Wide (w - cbyte) z × (length x ≡ length z + length z)
unfolding shrink_round
shrink_round-Wide cbyte w round [] {z} h e = nil_case z e
  where
    nil_case :
        (z : List Row)
        → ◌≡◌ {A = Outcome Error (List Row)} (ok []) (ok z)
        → Wide (w - cbyte) z × (0 ≡ length z + length z)
    nil_case [] e = (tt, omega arith)
    nil_case (r ∷ z) e = cc
shrink_round-Wide cbyte w round (a ∷ []) h e = cc
shrink_round-Wide cbyte w round (a ∷ b ∷ rest) h e =
    let (same, order, xc, r, e') = shrink_round-eq-ok cbyte round a b rest e in
    let (wide, len) = shrink_round-Wide cbyte w round rest h.1.1 r in
    rw e' (
      (
        length-xor_bytes (drop cbyte a.h) (drop cbyte b.h)
              (omega (arith, length-drop cbyte a.h, length-drop cbyte b.h))
            ∙ omega (arith, length-drop cbyte a.h),
        wide,
      ),
      omega arith,
    )

segment-pad : (off cbyte : ℕ) (h : List ℕ) → segment off cbyte (replicate off 0 ++ h) ≡ take cbyte h
segment-pad off cbyte h =
    ap (take cbyte) (drop_append (replicate off 0) h off (sym (length-replicate off 0)))

pub replicate_add :
    (m n : ℕ) (h : List ℕ) → replicate m 0 ++ (replicate n 0 ++ h) ≡ replicate (m + n) 0 ++ h
replicate_add zero n h = rw zero-add
replicate_add (suc m) n h = rw suc-add (ap (◌∷◌ 0) (replicate_add m n h))

merge-pad :
    (off cbyte w : ℕ) (a b : Row)
    → cbyte ≤ w
    → length a.h ≡ w
    → length b.h ≡ w
    → take cbyte a.h ≡ take cbyte b.h
    → xor_bytes (replicate off 0 ++ a.h) (replicate off 0 ++ b.h)
      ≡ replicate (off + cbyte) 0 ++ xor_bytes (drop cbyte a.h) (drop cbyte b.h)
merge-pad off cbyte w a b fits la lb same =
    xor_bytes_pad off a.h b.h
    ∙ ap (◌++◌ (replicate off 0)) (xor_bytes_collide cbyte a.h b.h (omega arith) (omega arith) same)
    ∙ replicate_add off cbyte _

-- One round of the reference verifier is one round on the rows without their leading zeros.
fold_round-shrink :
    (cbyte round off w : ℕ) (y : List Row)
    → off ≡ (round - 1) * cbyte
    → cbyte ≤ w
    → Wide w y
    → fold_round cbyte round (map (pad off) y)
      ≡ (shrink_round cbyte round y >>= λ z. ok (map (pad (off + cbyte)) z))
unfolding fold_round shrink_round
fold_round-shrink cbyte round off w [] eo fits h = refl
fold_round-shrink cbyte round off w (a ∷ []) eo fits h = refl
fold_round-shrink cbyte round off w (a ∷ b ∷ rest) eo fits h =
    rw (← eo, segment-pad off cbyte a.h, segment-pad off cbyte b.h)
      (elim (Bool-cases (list_eq (take cbyte a.h) (take cbyte b.h))) [
        | inr e ↦ rw e
        | inl e ↦ rw e (elim (Bool-cases (list_lt a.idx b.idx)) [
          | inr o ↦ rw o
          | inl o ↦
              rw
                (
                  o,
                  fold_round-shrink cbyte round off w rest eo fits h.1.1,
                  merge-pad off cbyte w a b fits h.0 h.1.0 ((list_eq_iff _ _).0 e),
                )
                (>>=_assoc (shrink_round cbyte round rest) _ _
                  ∙ sym (>>=_assoc (shrink_round cbyte round rest) _ _))
        ])
      ])

next_offset : (off left cbyte : ℕ) → off + suc left * cbyte ≡ off + cbyte + left * cbyte
next_offset off left cbyte = omega arith

next_round :
    (off round cbyte : ℕ)
    → 1 ≤ round
    → off ≡ (round - 1) * cbyte
    → off + cbyte ≡ (round + 1 - 1) * cbyte
next_round off (suc r) cbyte pos e =
    let same : suc r + 1 - 1 ≡ suc r = omega arith in
    let before : suc r - 1 ≡ r = omega arith in rw (e, before, same) (omega arith)
next_round off zero cbyte pos e = absurd (omega arith)

-- All the rounds, and the test of the root.
fold_rounds-shrink :
    (cbyte left round off w : ℕ) (y : List Row)
    → off ≡ (round - 1) * cbyte
    → 1 ≤ round
    → left * cbyte ≤ w
    → Wide w y
    → fold_rounds cbyte left round (map (pad off) y)
      ≡ (shrink_rounds cbyte left round y >>= λ z. ok (map (pad (off + left * cbyte)) z))
unfolding fold_rounds shrink_rounds
fold_rounds-shrink cbyte zero round off w y eo pos fits h =
    ap (λ t. ok (map (pad t) y)) {x = off} (omega arith)
fold_rounds-shrink cbyte (suc left) round off w y eo pos fits h =
    rw (fold_round-shrink cbyte round off w y eo (omega arith) h) (
      >>=_assoc (shrink_round cbyte round y) _ _
      ∙ >>=_congr (shrink_round cbyte round y) _ _ (λ z e. rw (next_offset off left cbyte) (
          fold_rounds-shrink cbyte left (round + 1) (off + cbyte) (w - cbyte) z
            (next_round off round cbyte pos eo) (omega arith) (omega arith)
            (shrink_round-Wide cbyte w round y h e).0))
      ∙ sym (>>=_assoc (shrink_round cbyte round y) _ _))

unfoldable pub shrink_root : List Row → Outcome Error (Unit {0})
shrink_root [] = panic
shrink_root (r ∷ []) = guard (all_zero r.h) non_zero_root
shrink_root (r ∷ _ ∷ _) = panic

all_zero-pad : (off : ℕ) (h : List ℕ) → all_zero (replicate off 0 ++ h) ≡ all_zero h
unfolding all_zero
all_zero-pad zero h = refl
all_zero-pad (suc off) h = all_zero-pad off h

check_root-pad : (off : ℕ) (z : List Row) → check_root (map (pad off) z) ≡ shrink_root z
unfolding check_root shrink_root
check_root-pad off [] = refl
check_root-pad off (r ∷ []) = rw all_zero-pad
check_root-pad off (r ∷ _ ∷ _) = refl

map-pad_zero : (y : List Row) → map (pad 0) y ≡ y
map-pad_zero [] = refl
map-pad_zero (r ∷ y) = ap (◌∷◌ r) (map-pad_zero y)

-- The reference verifier's fold and root test are those of the shrinking fold.
pub fold-shrink :
    (cbyte k w : ℕ) (y : List Row)
    → k * cbyte ≤ w
    → Wide w y
    → (fold_rounds cbyte k 1 y >>= check_root) ≡ (shrink_rounds cbyte k 1 y >>= shrink_root)
fold-shrink cbyte k w y fits h =
    ap (λ t. t >>= check_root)
      (ap (fold_rounds cbyte k 1) (sym (map-pad_zero y))
        ∙ fold_rounds-shrink cbyte k 1 0 w y (omega arith) (omega arith) fits h)
    ∙ >>=_assoc (shrink_rounds cbyte k 1 y) _ check_root
    ∙ >>=_congr (shrink_rounds cbyte k 1 y) _ _ (λ z e. check_root-pad _ z)
