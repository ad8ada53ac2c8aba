-- ===== src/Metadata/Arranged.antt =====
-- A list in another order, given by positions.
use mathlib.Core.List.{Permᴰ}
use mathlib.Core.List.Permᴰ as PermD
use mathlib.Core.Path.{subst}
use worker_template.Prelude.{All, ℕ, zero, suc, List, [], ◌∷◌, refl}

module _ {A : Type 0} where
  abbrev pub behind_first : A → List A → List A
  behind_first x [] = x ∷ []
  behind_first x (y ∷ ys) = y ∷ x ∷ ys

  -- The list with the element at the position in front.
  abbrev pub to_front : ℕ → List A → List A
  to_front n [] = []
  to_front zero (x ∷ xs) = x ∷ xs
  to_front (suc n) (x ∷ xs) = behind_first x (to_front n xs)

  behind_first-Perm : (x : A) (xs : List A) → Permᴰ (x ∷ xs) (behind_first x xs)
  behind_first-Perm x [] = PermD.refl (x ∷ [])
  behind_first-Perm x (y ∷ ys) = Permᴰ.swap refl refl

  to_front-Perm : (n : ℕ) (xs : List A) → Permᴰ xs (to_front n xs)
  to_front-Perm n [] = Permᴰ.nil
  to_front-Perm zero (x ∷ xs) = PermD.refl (x ∷ xs)
  to_front-Perm (suc n) (x ∷ xs) =
      Permᴰ.trans (Permᴰ.cons refl (to_front-Perm n xs)) (behind_first-Perm x (to_front n xs))

  -- All but the first element, by `f`.
  abbrev pub on_rest : (List A → List A) → List A → List A
  on_rest f [] = []
  on_rest f (x ∷ xs) = x ∷ f xs

  on_rest-Perm :
      (f : List A → List A)
      → ((xs : List A) → Permᴰ xs (f xs))
      → (xs : List A) → Permᴰ xs (on_rest f xs)
  on_rest-Perm f h [] = Permᴰ.nil
  on_rest-Perm f h (x ∷ xs) = Permᴰ.cons refl (h xs)

  -- Each position counts in what is left.
  abbrev pub arrange : List ℕ → List A → List A
  arrange [] xs = xs
  arrange (n ∷ ns) xs = on_rest (arrange ns) (to_front n xs)

  pub arrange-Perm : (ns : List ℕ) (xs : List A) → Permᴰ xs (arrange ns xs)
  arrange-Perm [] xs = PermD.refl xs
  arrange-Perm (n ∷ ns) xs =
      Permᴰ.trans (to_front-Perm n xs) (on_rest-Perm (arrange ns) (arrange-Perm ns) (to_front n xs))

pub All-Perm : {A : Type 0} (P : A → Type 0) {xs ys : List A} → Permᴰ xs ys → All P xs → All P ys
All-Perm P Permᴰ.nil h = tt
All-Perm P (Permᴰ.cons e d) h = (subst P e h.0, All-Perm P d h.1)
All-Perm P (Permᴰ.swap e₁ e₂) h = (subst P e₂ h.1.0, (subst P e₁ h.0, h.1.1))
All-Perm P (Permᴰ.trans d₁ d₂) h = All-Perm P d₂ (All-Perm P d₁ h)
