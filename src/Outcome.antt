-- ===== src/Outcome.antt =====
-- What a call of the program comes to: a value, an error value, or a panic.
use mathlib.Core.Path.{◌≡◌, refl, ap, ◌∙◌}

pub data Outcome {ℓ κ} (E : Type κ) (A : Type ℓ) : Type (ℓ ⊔ κ) where
  ok : A → Outcome E A
  err : E → Outcome E A
  panic : Outcome E A

infixl 5 ◌>>=◌ ◌>>◌
-- What follows a value is run; an error or a panic ends the chain.
abbrev pub ◌>>=◌ {ℓ κ ι} :
    {E : Type κ} {A : Type ℓ} {B : Type ι} → Outcome E A → (A → Outcome E B) → Outcome E B
panic >>= next = panic
err e >>= next = err e
ok a >>= next = next a

-- A step whose value is not used.
abbrev pub ◌>>◌ {κ ι} : {E : Type κ} {B : Type ι} → Outcome E (Unit {0}) → Outcome E B → Outcome E B
first >> second = first >>= (λ (u : Unit {0}). second)

pub >>=_assoc {ℓ κ ι η} :
    {E : Type κ} {A : Type ℓ} {B : Type ι} {C : Type η} (m : Outcome E A) (f : A → Outcome E B)
    (g : B → Outcome E C)
    → (m >>= f >>= g) ≡ (m >>= λ a. f a >>= g)
>>=_assoc (ok a) f g = refl
>>=_assoc (err e) f g = refl
>>=_assoc panic f g = refl

-- Two chains with one first step agree if they agree on what that step returns.
pub >>=_congr {ℓ κ ι} :
    {E : Type κ} {A : Type ℓ} {B : Type ι} (m : Outcome E A) (f g : A → Outcome E B)
    → ((a : A) → m ≡ ok a → f a ≡ g a)
    → (m >>= f) ≡ (m >>= g)
>>=_congr (ok a) f g same = same a refl
>>=_congr (err e) f g same = refl
>>=_congr panic f g same = refl

-- Inversion of a chain that returned.
pub >>=-eq-ok {ℓ κ ι} :
    {E : Type κ} {A : Type ℓ} {B : Type ι} (m : Outcome E A) (f : A → Outcome E B) {b : B}
    → (m >>= f) ≡ ok b
    → (a : A) × (m ≡ ok a) × (f a ≡ ok b)
>>=-eq-ok panic f h = cc
>>=-eq-ok (err e) f h = cc
>>=-eq-ok (ok a) f h = (a, refl, h)

-- The call returns a value, and the value satisfies `P`.
abbrev pub Returns {ℓ κ ι} :
    {E : Type κ} {A : Type ℓ} → (A → Type ι) → Outcome E A → Type (ℓ ⊔ κ ⊔ ι)
Returns {A = A} P m = (a : A) × (m ≡ ok a) × P a

-- A chain returns if its first step does and what follows does on every value that the step may give.
pub Returns-bind {ℓ κ ι η θ} :
    {E : Type κ} {A : Type ℓ} {B : Type ι} {P : A → Type η} {Q : B → Type θ} (m : Outcome E A)
    (f : A → Outcome E B)
    → Returns P m
    → ((a : A) → P a → Returns Q (f a))
    → Returns Q (m >>= f)
Returns-bind m f (a, e, p) next = let (b, e', q) = next a p in (b, ap (λ t. t >>= f) e ∙ e', q)
