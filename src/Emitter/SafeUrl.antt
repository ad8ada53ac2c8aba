-- ===== src/Emitter/SafeUrl.antt =====
-- The URL that `init_emitter` logs.
use Prim.Native.Char.{Char}
use Prim.Native.String.append
use mathlib.Core.Bool.{false≢true}
use worker_template.Prelude.{
  String, ◌≡◌, refl, sym, ap, ◌∙◌, ◌⊎◌, inl, inr, true, false, arith, Bool-cases,
}
use worker_template.Text.{◌+++◌}
use worker_template.Emitter.{is_at, has_at, safe_url}

-- Nothing was cut off, or what was cut off ends with an `@`.
abbrev pub IsCut : String → String → Type 0
IsCut url rest =
    (rest ≡ url)
    ⊎ ((front : String) × (c : Char) × (is_at c ≡ true) × (front +++ String.◌∷◌ c rest ≡ url))

safe_url-whole : (s : String) → has_at s ≡ false → safe_url s ≡ s
unfolding safe_url has_at
safe_url-whole String.[] h = refl
safe_url-whole (String.◌∷◌ c s) h = ground (arith, safe_url-whole s)

safe_url-has_at : (s : String) → has_at (safe_url s) ≡ false
unfolding safe_url has_at
safe_url-has_at String.[] = refl
safe_url-has_at (String.◌∷◌ c s) = elim (Bool-cases (is_at c)) [
  | inl at ↦ rw at (safe_url-has_at s)
  | inr other ↦ elim (Bool-cases (has_at s)) [
    | inl more ↦ rw other (rw more (safe_url-has_at s))
    | inr none ↦ rw other (rw none (ground arith))
  ]
]

-- After a character that is an `@`, and after any other one where an `@` follows.
IsCut-after :
    (c : Char) (s rest : String) → is_at c ≡ true → IsCut s rest → IsCut (String.◌∷◌ c s) rest
IsCut-after c s rest at (inl e) =
    inr ("", c, at, append.nil (String.◌∷◌ c rest) ∙ ap (λ x. String.◌∷◌ c x) e)
IsCut-after c s rest at (inr (front, d, at', e)) = inr (
  String.◌∷◌ c front,
  d,
  at',
  append.cons c front (String.◌∷◌ d rest) ∙ ap (λ x. String.◌∷◌ c x) e,
)

IsCut-before :
    (c : Char) (s rest : String)
    → has_at s ≡ true
    → has_at rest ≡ false
    → IsCut s rest
    → IsCut (String.◌∷◌ c s) rest
IsCut-before c s rest more clean (inl e) = absurd (false≢true (sym clean ∙ ap has_at e ∙ more))
IsCut-before c s rest more clean (inr (front, d, at', e)) = inr (
  String.◌∷◌ c front,
  d,
  at',
  append.cons c front (String.◌∷◌ d rest) ∙ ap (λ x. String.◌∷◌ c x) e,
)

safe_url-IsCut : (s : String) → IsCut s (safe_url s)
unfolding safe_url
safe_url-IsCut String.[] = inl refl
safe_url-IsCut (String.◌∷◌ c s) = elim (Bool-cases (is_at c)) [
  | inl at ↦ rw at (IsCut-after c s (safe_url s) at (safe_url-IsCut s))
  | inr other ↦ elim (Bool-cases (has_at s)) [
    | inl more ↦
        rw other
          (rw more (IsCut-before c s (safe_url s) more (safe_url-has_at s) (safe_url-IsCut s)))
    | inr none ↦ rw other (rw none (inl refl))
  ]
]

-- The URL that is logged has no `@`, and it is the whole URL, or what follows an `@` of it.
pub safe_url-IsSafe : (url : String) → (has_at (safe_url url) ≡ false) × IsCut url (safe_url url)
safe_url-IsSafe url = (safe_url-has_at url, safe_url-IsCut url)
