-- ===== src/Base/Tests.antt =====
-- Boolean tests on the native numbers, the conditional, and the lexicographic tests on lists
-- that Rust derives for slices.
use Prim.Native.Nat.{ℕ, ◌≤◌, ◌<◌, compare, Ordering}
use mathlib.Core.Path.{◌≡◌, refl}
use mathlib.Core.Logic.{◌↔◌, ◌⊎◌, inl, inr}
use mathlib.Core.Bool.{Bool, true, false, ◌&&◌, ◌||◌}
use mathlib.Core.List.{List, [], ◌∷◌}
use native.Mathlib.Omega.{arith}

abbrev pub ltb : ℕ → ℕ → Bool
ltb a b = elim (compare a b) [ Ordering.lt ↦ true | _ ↦ false ]

abbrev pub leb : ℕ → ℕ → Bool
leb a b = elim (compare a b) [ Ordering.gt ↦ false | _ ↦ true ]

infix 50 ◌==◌
abbrev pub ◌==◌ : ℕ → ℕ → Bool
a == b = elim (compare a b) [ Ordering.eq ↦ true | _ ↦ false ]

infix 1 if◌then◌else◌
abbrev pub if◌then◌else◌ {ℓ} : {A : Type ℓ} → Bool → A → A → A
if true then x else y = x
if false then x else y = y

pub ==_iff : (a b : ℕ) → ((a == b) ≡ true) ↔ (a ≡ b)
==_iff a b = ground arith

pub ==_refl : (a : ℕ) → (a == a) ≡ true
==_refl a = (==_iff a a).1 refl

pub leb-≤ : (a b : ℕ) → leb a b ≡ true → a ≤ b
leb-≤ a b h = ground arith

pub leb-false : (a b : ℕ) → leb a b ≡ false → b < a
leb-false a b h = ground arith

pub ltb-< : (a b : ℕ) → ltb a b ≡ true → a < b
ltb-< a b h = ground arith

pub ltb-false : (a b : ℕ) → ltb a b ≡ false → b ≤ a
ltb-false a b h = ground arith

pub ltb-≥ : (a b : ℕ) → b ≤ a → ltb a b ≡ false
ltb-≥ a b h = ground arith

-- To split on a computed value and keep the equation.
pub Bool-cases : (b : Bool) → (b ≡ true) ⊎ (b ≡ false)
Bool-cases true = inl refl
Bool-cases false = inr refl

pub &&-parts : (a b : Bool) → (a && b) ≡ true → (a ≡ true) × (b ≡ true)
&&-parts true b h = (refl, h)
&&-parts false b h = cc

-- `a == b` on slices.
pub list_eq : List ℕ → List ℕ → Bool
list_eq [] [] = true
list_eq [] (y ∷ ys) = false
list_eq (x ∷ xs) [] = false
list_eq (x ∷ xs) (y ∷ ys) = x == y && list_eq xs ys

-- `a < b` on slices: the first difference decides, and a proper prefix is less.
pub list_lt : List ℕ → List ℕ → Bool
list_lt [] [] = false
list_lt [] (y ∷ ys) = true
list_lt (x ∷ xs) [] = false
list_lt (x ∷ xs) (y ∷ ys) = ltb x y || (x == y && list_lt xs ys)

pub list_eq_iff : (xs ys : List ℕ) → (list_eq xs ys ≡ true) ↔ (xs ≡ ys)
unfolding list_eq
list_eq_iff [] [] = (λ _. refl, λ _. refl)
list_eq_iff [] (y ∷ ys) = (λ h. cc, λ h. cc)
list_eq_iff (x ∷ xs) [] = (λ h. cc, λ h. cc)
list_eq_iff (x ∷ xs) (y ∷ ys) =
    let (to, from) = list_eq_iff xs ys in (λ h. ground arith, λ h. ground arith)

pub list_eq_refl : (xs : List ℕ) → list_eq xs xs ≡ true
list_eq_refl xs = (list_eq_iff xs xs).1 refl

pub list_lt_trans :
    (xs ys zs : List ℕ) → list_lt xs ys ≡ true → list_lt ys zs ≡ true → list_lt xs zs ≡ true
unfolding list_lt
list_lt_trans [] [] zs p q = cc
list_lt_trans [] (y ∷ ys) [] p q = cc
list_lt_trans [] (y ∷ ys) (z ∷ zs) p q = refl
list_lt_trans (x ∷ xs) [] zs p q = cc
list_lt_trans (x ∷ xs) (y ∷ ys) [] p q = cc
list_lt_trans (x ∷ xs) (y ∷ ys) (z ∷ zs) p q = ground (arith, list_lt_trans xs ys zs)

-- Exactly one of `<`, `=`, `>` holds.
pub list_lt_total : (xs ys : List ℕ) → list_lt xs ys ≡ false → (xs ≡ ys) ⊎ (list_lt ys xs ≡ true)
unfolding list_lt
list_lt_total [] [] h = inl refl
list_lt_total [] (y ∷ ys) h = cc
list_lt_total (x ∷ xs) [] h = inr refl
list_lt_total (x ∷ xs) (y ∷ ys) h = ground (arith, list_lt_total xs ys)

pub list_lt_asymm : (xs ys : List ℕ) → list_lt xs ys ≡ true → list_lt ys xs ≡ false
unfolding list_lt
list_lt_asymm [] [] h = refl
list_lt_asymm [] (y ∷ ys) h = refl
list_lt_asymm (x ∷ xs) [] h = cc
list_lt_asymm (x ∷ xs) (y ∷ ys) h = ground (arith, list_lt_asymm xs ys)

pub list_lt_irrefl : (xs : List ℕ) → list_lt xs xs ≡ false
unfolding list_lt
list_lt_irrefl [] = refl
list_lt_irrefl (x ∷ xs) = ground (arith, list_lt_irrefl xs)

-- Slices of one element.
pub list_lt_single : (a b : ℕ) → list_lt (a ∷ []) (b ∷ []) ≡ ltb a b
unfolding list_lt
list_lt_single a b = ground arith

pub list_eq_single : (a b : ℕ) → list_eq (a ∷ []) (b ∷ []) ≡ (a == b)
unfolding list_eq
list_eq_single a b = ground arith
