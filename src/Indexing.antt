-- ===== src/Indexing.antt =====
-- Indexing with its bounds check: a read or a write out of range panics.
use requihash.Base.{
  ℕ, zero, suc, ◌≤◌, ◌<◌, ◌≡◌, ◌≢◌, refl, ap, List, [], ◌∷◌, length, get_or, set, replicate, All,
  ◌∙◌, arith,
}
use requihash.Outcome.{Outcome, ok, panic, ◌>>=◌, Returns, Returns-bind}

module _ {ℓ κ} {E : Type κ} {A : Type ℓ} where
  -- `v[i]`
  abbrev pub read : List A → ℕ → Outcome E A
  read [] i = panic
  read (x ∷ v) zero = ok x
  read (x ∷ v) (suc i) = read v i

  -- `v[i] = a`
  abbrev pub write : List A → ℕ → A → Outcome E (List A)
  write [] i a = panic
  write (x ∷ v) zero a = ok (a ∷ v)
  write (x ∷ v) (suc i) a = write v i a >>= λ rest. ok (x ∷ rest)

  pub read-get_or : (v : List A) (i : ℕ) (d : A) → i < length v → read v i ≡ ok (get_or v i d)
  read-get_or [] i d h = absurd (omega arith)
  read-get_or (x ∷ v) zero d h = refl
  read-get_or (x ∷ v) (suc i) d h = read-get_or v i d (omega arith)

  pub read_panic : (v : List A) (i : ℕ) → length v ≤ i → read v i ≡ panic
  read_panic [] i h = refl
  read_panic (x ∷ v) zero h = absurd (omega arith)
  read_panic (x ∷ v) (suc i) h = read_panic v i (omega arith)

  pub write-set : (v : List A) (i : ℕ) (a : A) → i < length v → write v i a ≡ ok (set v i a)
  write-set [] i a h = absurd (omega arith)
  write-set (x ∷ v) zero a h = refl
  write-set (x ∷ v) (suc i) a h = rw (write-set v i a (omega arith))

module _ {ℓ} {A : Type ℓ} where
  pub get_or-set_self : (v : List A) (i : ℕ) (a d : A) → i < length v → get_or (set v i a) i d ≡ a
  get_or-set_self [] i a d h = absurd (omega arith)
  get_or-set_self (x ∷ v) zero a d h = refl
  get_or-set_self (x ∷ v) (suc i) a d h = get_or-set_self v i a d (omega arith)

  pub get_or-set_other :
      (v : List A) (i j : ℕ) (a d : A) → i ≢ j → get_or (set v i a) j d ≡ get_or v j d
  get_or-set_other [] i j a d h = refl
  get_or-set_other (x ∷ v) zero zero a d h = absurd (h refl)
  get_or-set_other (x ∷ v) zero (suc j) a d h = refl
  get_or-set_other (x ∷ v) (suc i) zero a d h = refl
  get_or-set_other (x ∷ v) (suc i) (suc j) a d h = get_or-set_other v i j a d (λ e. h (ap suc e))

  pub get_or-replicate : (n i : ℕ) (a d : A) → i < n → get_or (replicate n a) i d ≡ a
  get_or-replicate zero i a d h = absurd (omega arith)
  get_or-replicate (suc n) zero a d h = refl
  get_or-replicate (suc n) (suc i) a d h = get_or-replicate n i a d (omega arith)

  pub get_or-out : (v : List A) (i : ℕ) (d : A) → length v ≤ i → get_or v i d ≡ d
  get_or-out [] i d h = refl
  get_or-out (x ∷ v) zero d h = absurd (omega arith)
  get_or-out (x ∷ v) (suc i) d h = get_or-out v i d (omega arith)

-- `v[i][c]` changed in place.
abbrev pub update_at {ℓ κ} :
    {E : Type κ} {A : Type ℓ}
    → List (List A)
    → ℕ
    → ℕ
    → (A → Outcome E A)
    → Outcome E (List (List A))
update_at v i c change = do
  row ← read v i
  old ← read row c
  new ← change old
  row' ← write row c new
  write v i row'

-- An update in range sets one place.
pub update_at-set {ℓ κ} :
    {E : Type κ} {A : Type ℓ} (v : List (List A)) (i c : ℕ) (change : A → Outcome E A) (d new : A)
    → i < length v
    → c < length (get_or v i [])
    → change (get_or (get_or v i []) c d) ≡ ok new
    → update_at v i c change ≡ ok (set v i (set (get_or v i []) c new))
update_at-set {E = E} v i c change d new hi hc e = rw (
  read-get_or {E = E} v i [] hi,
  read-get_or {E = E} (get_or v i []) c d hc,
  e,
  write-set {E = E} (get_or v i []) c new hc,
  write-set {E = E} v i (set (get_or v i []) c new) hi,
)

module _ {ℓ ι} {A : Type ℓ} (P : A → Type ι) where
  pub get_or-All : (v : List A) (i : ℕ) (d : A) → All P v → i < length v → P (get_or v i d)
  get_or-All [] i d a h = absurd (omega arith)
  get_or-All (x ∷ v) zero d a h = a.0
  get_or-All (x ∷ v) (suc i) d a h = get_or-All v i d a.1 (omega arith)

-- Accesses in range of lists whose elements all satisfy a predicate.
module _ {ℓ κ ι} {E : Type κ} {A : Type ℓ} (P : A → Type ι) where
  pub read-All : (v : List A) (i : ℕ) → All P v → i < length v → Returns P (read {E = E} v i)
  read-All [] i a h = absurd (omega arith)
  read-All (x ∷ v) zero a h = (x, refl, a.0)
  read-All (x ∷ v) (suc i) a h = read-All v i a.1 (omega arith)

  pub write-All :
      (v : List A) (i : ℕ) (x : A)
      → All P v
      → P x
      → i < length v
      → Returns (λ w. (length w ≡ length v) × All P w) (write {E = E} v i x)
  write-All [] i x a p h = absurd (omega arith)
  write-All (y ∷ v) zero x a p h = (x ∷ v, refl, (refl, (p, a.1)))
  write-All (y ∷ v) (suc i) x a p h =
      let (w, e, (size, all)) = write-All v i x a.1 p (omega arith) in
      (y ∷ w, rw e, (ap suc size, (a.0, all)))

-- Rows of one length whose elements satisfy a predicate.
abbrev pub IsRow {ℓ ι} : {A : Type ℓ} → (A → Type ι) → ℕ → List A → Type ι
IsRow P size row = (length row ≡ size) × All P row

-- An update in range of such rows.
pub update_at-All {ℓ κ ι} :
    {E : Type κ} {A : Type ℓ} (P : A → Type ι) (size : ℕ) (v : List (List A)) (i c : ℕ)
    (change : A → Outcome E A)
    → All (IsRow P size) v
    → i < length v
    → c < size
    → ((x : A) → P x → Returns P (change x))
    → Returns (λ w. (length w ≡ length v) × All (IsRow P size) w) (update_at v i c change)
update_at-All P size v i c change all hi hc keeps =
    Returns-bind (read v i) _ (read-All (IsRow P size) v i all hi) (λ row (len, ps).
      Returns-bind (read row c) _ (read-All P row c ps (omega arith)) (λ old p.
        Returns-bind (change old) _ (keeps old p) (λ new q.
          Returns-bind (write row c new) _ (write-All P row c new ps q (omega arith))
            (λ row' (len', qs). write-All (IsRow P size) v i row' all (len' ∙ len, qs) hi))))
