-- ===== src/Verify/Flat.antt =====
-- Rows behind one another in one buffer.
use requihash.Base.{
  ℕ, zero, suc, ◌+◌, ◌-◌, ◌*◌, ◌≤◌, ◌≡◌, refl, sym, ap, ◌∙◌, List, [], ◌∷◌, ◌++◌, length, get_or,
  take, drop, All, take_append, drop_append, drop-drop, length-drop, arith,
}

unfoldable pub flat : List (List ℕ) → List ℕ
flat [] = []
flat (x ∷ xs) = x ++ flat xs

-- Every part has `w` elements.
abbrev pub Even : ℕ → List (List ℕ) → Type 0
Even w = All (λ x. length x ≡ w)

module _ {ℓ} {A : Type ℓ} where
  pub get_or-drop :
      (l : List A) (r : ℕ) (x d : A) (t : List A) → drop r l ≡ x ∷ t → get_or l r d ≡ x
  get_or-drop [] zero x d t e = cc
  get_or-drop [] (suc r) x d t e = cc
  get_or-drop (y ∷ l) zero x d t e = cc
  get_or-drop (y ∷ l) (suc r) x d t e = get_or-drop l r x d t e

  pub drop_next : (l : List A) (r : ℕ) (x : A) (t : List A) → drop r l ≡ x ∷ t → drop (r + 1) l ≡ t
  drop_next l r x t e = sym (drop-drop r 1 l) ∙ ap (drop 1) e

  pub take_within : (n : ℕ) (xs ys : List A) → n ≤ length xs → take n (xs ++ ys) ≡ take n xs
  take_within zero xs ys h = refl
  take_within (suc n) [] ys h = absurd (omega arith)
  take_within (suc n) (x ∷ xs) ys h = ap (◌∷◌ x) (take_within n xs ys (omega arith))

  pub drop_within : (n : ℕ) (xs ys : List A) → n ≤ length xs → drop n (xs ++ ys) ≡ drop n xs ++ ys
  drop_within zero xs ys h = refl
  drop_within (suc n) [] ys h = absurd (omega arith)
  drop_within (suc n) (x ∷ xs) ys h = drop_within n xs ys (omega arith)

-- What stands in the buffer `l` from row `r` on, for rows of `w` elements.
module _ (w : ℕ) (l x : List ℕ) (xs : List (List ℕ)) (r : ℕ) (wide : length x ≡ w)
    (here_on : drop (r * w) l ≡ x ++ flat xs) where
  pub next_row : drop ((r + 1) * w) l ≡ flat xs
  next_row =
      ap (λ t. drop t l) step
      ∙ sym (drop-drop (r * w) w l)
      ∙ ap (drop w) here_on
      ∙ drop_append x (flat xs) w (sym wide)
    where
      step : (r + 1) * w ≡ r * w + w
      step = omega arith

  pub row_front : (c : ℕ) → c ≤ w → take c (drop (r * w) l) ≡ take c x
  row_front c h = ap (take c) here_on ∙ take_within c x (flat xs) (omega arith)

  pub row_back : (c : ℕ) → c ≤ w → take (w - c) (drop (r * w + c) l) ≡ drop c x
  row_back c h =
      ap (take (w - c)) (
        sym (drop-drop (r * w) c l) ∙ ap (drop c) here_on ∙ drop_within c x (flat xs) (omega arith))
      ∙ take_append (drop c x) (flat xs) (w - c) (omega (arith, length-drop c x))

  pub row_whole : take w (drop (r * w) l) ≡ x
  row_whole = ap (take w) here_on ∙ take_append x (flat xs) w (sym wide)
