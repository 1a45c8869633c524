-- ===== src/Verify/Agree.antt =====
-- The three verifiers return the same result.
use requihash.Base.{
  ℕ, zero, suc, ◌+◌, ◌-◌, ◌*◌, ◌/◌, ◌≤◌, ◌≡◌, refl, sym, ap, ◌∙◌, inl, inr, Bool-cases, list_eq,
  list_lt, List, [], ◌∷◌, ◌++◌, map, length, take, drop, take_append, length-append, arith,
}
use mathlib.Core.List.{append_assoc}
use native.Mathlib.Nat.{zero-mul}
use requihash.Outcome.{Outcome, ok, ◌>>=◌, >>=_assoc, >>=_congr, >>=-eq-ok}
use requihash.Params.{Error}
use requihash.Verify.{Row}
use requihash.Verify.Shrink.{
  shrink_round, shrink_rounds, shrink_root, Wide, shrink_round-Wide, shrink_round-eq-ok,
}
use requihash.Verify.Flat.{
  flat, Even, get_or-drop, drop_next, next_row, row_front, row_back, row_whole,
}
use requihash.Verify.Arena.{Level, arena_round, arena_rounds, check_flat_root}
use requihash.Verify.Early.{early_round}

abbrev pub bytes : List Row → List (List ℕ)
bytes = map (λ r. r.h)

abbrev pub indices_of : List Row → List (List ℕ)
indices_of = map (λ r. r.idx)

abbrev pub level_of : List Row → Level
level_of z = record { hashes = flat (bytes z); idx = indices_of z }

two_on : (w : ℕ) (l : List ℕ) (r : ℕ) → drop ((r + 2) * w) l ≡ drop ((r + 1 + 1) * w) l
two_on w l r = ap (λ t. drop t l) same
  where
    same : (r + 2) * w ≡ (r + 1 + 1) * w
    same = omega arith

two_on_rows : (l : List (List ℕ)) (r : ℕ) → drop (r + 2) l ≡ drop (r + 1 + 1) l
two_on_rows l r = ap (λ t. drop t l) same
  where
    same : r + 2 ≡ r + 1 + 1
    same = omega arith

pub next_stride :
    (stride left cbyte : ℕ) → stride - suc left * cbyte ≡ stride - cbyte - left * cbyte
next_stride stride left cbyte = omega arith

next_start : (r span : ℕ) → r * span + span ≡ (r + 1) * span
next_start r span = omega arith

arena_round-shrink :
    (cbyte stride round : ℕ) (s : Level) (r : ℕ) (y : List Row)
    → cbyte ≤ stride
    → Wide stride y
    → drop (r * stride) s.hashes ≡ flat (bytes y)
    → drop r s.idx ≡ indices_of y
    → arena_round cbyte stride round s r (length y)
      ≡ (shrink_round cbyte round y >>= λ z. ok (level_of z))
unfolding arena_round shrink_round flat
arena_round-shrink cbyte stride round s r [] fits h eh ei = refl
arena_round-shrink cbyte stride round s r (a ∷ []) fits h eh ei = refl
arena_round-shrink cbyte stride round s r (a ∷ b ∷ rest) fits h eh ei =
    let ei' = drop_next s.idx r a.idx (b.idx ∷ indices_of rest) ei in
    let eh' = next_row stride s.hashes a.h (b.h ∷ bytes rest) r h.0 eh in
    let ea = get_or-drop s.idx r a.idx [] (b.idx ∷ indices_of rest) ei in
    let eb = get_or-drop s.idx (r + 1) b.idx [] (indices_of rest) ei' in
    let fa = row_front stride s.hashes a.h (b.h ∷ bytes rest) r h.0 eh cbyte fits in
    let fb = row_front stride s.hashes b.h (bytes rest) (r + 1) h.1.0 eh' cbyte fits in
    let ba = row_back stride s.hashes a.h (b.h ∷ bytes rest) r h.0 eh cbyte fits in
    let bb = row_back stride s.hashes b.h (bytes rest) (r + 1) h.1.0 eh' cbyte fits in
    let eh'' =
      two_on stride s.hashes r ∙ next_row stride s.hashes b.h (bytes rest) (r + 1) h.1.0 eh' in
    let ei'' = two_on_rows s.idx r ∙ drop_next s.idx (r + 1) b.idx (indices_of rest) ei' in
    rw (ea, eb, fa, fb, ba, bb)
      (elim (Bool-cases (list_eq (take cbyte a.h) (take cbyte b.h))) [
        | inr e ↦ rw e
        | inl e ↦ rw e (elim (Bool-cases (list_lt a.idx b.idx)) [
          | inr o ↦ rw o
          | inl o ↦
              rw (o, arena_round-shrink cbyte stride round s (r + 2) rest fits h.1.1 eh'' ei'')
                (>>=_assoc (shrink_round cbyte round rest) _ _
                  ∙ sym (>>=_assoc (shrink_round cbyte round rest) _ _))
        ])
      ])

-- The slices of the input that stand for the index vectors of the rows.
pub early_round-shrink :
    (cbyte stride span round : ℕ) (indices level : List ℕ) (r : ℕ) (y : List Row)
    → cbyte ≤ stride
    → Wide stride y
    → Even span (indices_of y)
    → drop (r * stride) level ≡ flat (bytes y)
    → drop (r * span) indices ≡ flat (indices_of y)
    → early_round cbyte stride span round indices level r (length y)
      ≡ (shrink_round cbyte round y >>= λ z. ok (flat (bytes z)))
unfolding early_round shrink_round flat
early_round-shrink cbyte stride span round indices level r [] fits h g eh ei = refl
early_round-shrink cbyte stride span round indices level r (a ∷ []) fits h g eh ei = refl
early_round-shrink cbyte stride span round indices level r (a ∷ b ∷ rest) fits h g eh ei =
    let ei' = next_row span indices a.idx (b.idx ∷ indices_of rest) r g.0 ei in
    let eh' = next_row stride level a.h (b.h ∷ bytes rest) r h.0 eh in
    let ea = row_whole span indices a.idx (b.idx ∷ indices_of rest) r g.0 ei in
    let eb = row_whole span indices b.idx (indices_of rest) (r + 1) g.1.0 ei' in
    let fa = row_front stride level a.h (b.h ∷ bytes rest) r h.0 eh cbyte fits in
    let fb = row_front stride level b.h (bytes rest) (r + 1) h.1.0 eh' cbyte fits in
    let ba = row_back stride level a.h (b.h ∷ bytes rest) r h.0 eh cbyte fits in
    let bb = row_back stride level b.h (bytes rest) (r + 1) h.1.0 eh' cbyte fits in
    let eh'' = two_on stride level r ∙ next_row stride level b.h (bytes rest) (r + 1) h.1.0 eh' in
    let ei'' =
      two_on span indices r ∙ next_row span indices b.idx (indices_of rest) (r + 1) g.1.0 ei' in
    rw (next_start r span, ea, eb, fa, fb, ba, bb)
      (elim (Bool-cases (list_eq (take cbyte a.h) (take cbyte b.h))) [
        | inr e ↦ rw e
        | inl e ↦ rw e (elim (Bool-cases (list_lt a.idx b.idx)) [
          | inr o ↦ rw o
          | inl o ↦
              rw
                (
                  o,
                  early_round-shrink cbyte stride span round indices level (r + 2) rest fits h.1.1
                      g.1.1 eh'' ei'',
                )
                (>>=_assoc (shrink_round cbyte round rest) _ _
                  ∙ sym (>>=_assoc (shrink_round cbyte round rest) _ _))
        ])
      ])

-- Merging keeps the order of the indices and doubles what lies under a row.
pub shrink_round-indices :
    (cbyte span round : ℕ) (y : List Row) {z : List Row}
    → Even span (indices_of y)
    → shrink_round cbyte round y ≡ ok z
    → Even (span * 2) (indices_of z) × (flat (indices_of z) ≡ flat (indices_of y))
unfolding shrink_round flat
shrink_round-indices cbyte span round [] {z} g e = nil_case z e
  where
    nil_case :
        (z : List Row)
        → ◌≡◌ {A = Outcome Error (List Row)} (ok []) (ok z)
        → Even (span * 2) (indices_of z) × (flat (indices_of z) ≡ [])
    nil_case [] e = (tt, refl)
    nil_case (r ∷ z) e = cc
shrink_round-indices cbyte span round (a ∷ []) g e = cc
shrink_round-indices cbyte span round (a ∷ b ∷ rest) g e =
    let (same, order, xc, r, e') = shrink_round-eq-ok cbyte round a b rest e in
    let (even, kept) = shrink_round-indices cbyte span round rest g.1.1 r in
    rw e' (
      (omega (arith, length-append a.idx b.idx), even),
      append_assoc a.idx b.idx _ ∙ ap (λ t. a.idx ++ (b.idx ++ t)) kept,
    )

pub from_start : (w : ℕ) (l : List ℕ) → drop (0 * w) l ≡ l
from_start w l = rw zero-mul

pub half_length : (m n : ℕ) → m ≡ n + n → m / 2 ≡ n
half_length m n e = omega arith

pub arena_rounds-shrink :
    (cbyte left round stride : ℕ) (y : List Row)
    → left * cbyte ≤ stride
    → Wide stride y
    → arena_rounds cbyte left round stride (length y) (level_of y)
      ≡ (shrink_rounds cbyte left round y >>= λ z. ok (level_of z, stride - left * cbyte, length z))
unfolding arena_rounds shrink_rounds
arena_rounds-shrink cbyte zero round stride y fits h =
    ap {B = Outcome Error (Level × ℕ × ℕ)} (λ t. ok (level_of y, t, length y)) {x = stride}
      (omega arith)
arena_rounds-shrink cbyte (suc left) round stride y fits h =
    rw
      (arena_round-shrink cbyte stride round (level_of y) 0 y (omega arith) h
        (from_start stride (flat (bytes y))) refl)
      (>>=_assoc (shrink_round cbyte round y) _ _
        ∙ >>=_congr (shrink_round cbyte round y) _ _ (λ z e.
          let (wide, len) = shrink_round-Wide cbyte stride round y h e in
          rw (half_length (length y) (length z) len, next_stride stride left cbyte)
            (arena_rounds-shrink cbyte left (round + 1) (stride - cbyte) z (omega arith) wide))
        ∙ sym (>>=_assoc (shrink_round cbyte round y) _ _))

pub check_flat_root-shrink :
    (w : ℕ) (z : List Row)
    → Wide w z
    → check_flat_root (flat (bytes z)) w (length z) ≡ shrink_root z
unfolding check_flat_root shrink_root flat
check_flat_root-shrink w [] h = refl
check_flat_root-shrink w (r ∷ []) h = rw (take_append r.h [] w (sym h.0))
check_flat_root-shrink w (r ∷ _ ∷ _) h = refl

pub shrink_rounds-Wide :
    (cbyte left round w : ℕ) (y : List Row) {z : List Row}
    → left * cbyte ≤ w
    → Wide w y
    → shrink_rounds cbyte left round y ≡ ok z
    → Wide (w - left * cbyte) z
unfolding shrink_rounds
shrink_rounds-Wide cbyte zero round w y {z} fits h e =
    let same : y ≡ z = cc in
    let none_off : w - 0 * cbyte ≡ w = omega arith in rw (none_off, ← same) h
shrink_rounds-Wide cbyte (suc left) round w y fits h e =
    let (x, e1, e2) = >>=-eq-ok (shrink_round cbyte round y) _ e in
    rw (next_stride w left cbyte) (
      shrink_rounds-Wide cbyte left (round + 1) (w - cbyte) x (omega arith)
        (shrink_round-Wide cbyte w round y h e1).0 e2)
