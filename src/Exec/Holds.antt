-- ===== src/Exec/Holds.antt =====
-- Hoare triples for actions: what holds when an action returns, and when it raises.
use worker_template.Prelude.{Bool, true, false, ◌≡◌, refl, if◌then◌else◌}
use worker_template.Exec.Defs.{
  Error, Result, ok, err, Exec, pure, raise, lift, gets, modify, continue, ◌>>=◌,
}

abbrev pub Post : {S A : Type 0} → (A → S → Type 0) → (S → Type 0) → Result A × S → Type 0
Post Q E (ok a, s) = Q a s
Post Q E (err e, s) = E s

-- From a state where `P` holds, `m` returns with `Q` or raises with `E`.
pub record Holds {S A : Type 0} (P : S → Type 0) (m : Exec S A) (Q : A → S → Type 0)
    (E : S → Type 0) : Type 0 where
  pub at : (s : S) → P s → Post Q E (m s)

-- `m` keeps `P`, whether it returns or raises.
abbrev pub Keeps : {S A : Type 0} → (S → Type 0) → Exec S A → Type 0
Keeps P m = Holds P m (λ _. P) P

module _ {S A : Type 0} {P : S → Type 0} {E : S → Type 0} where
  pub Holds-pure : {Q : A → S → Type 0} (a : A) → ((s : S) → P s → Q a s) → Holds P (pure a) Q E
  unfolding pure
  Holds-pure a h = record { at = h }

  pub Holds-raise : {Q : A → S → Type 0} (e : Error) → ((s : S) → P s → E s) → Holds P (raise e) Q E
  unfolding raise
  Holds-raise e h = record { at = h }

  pub Holds-lift :
      {Q : A → S → Type 0} (r : Result A)
      → ((a : A) → r ≡ ok a → (s : S) → P s → Q a s)
      → ((s : S) → P s → E s)
      → Holds P (lift r) Q E
  unfolding lift
  Holds-lift (ok a) h he = record { at = h a refl }
  Holds-lift (err e) h he = record { at = he }

  pub Holds-gets :
      {Q : A → S → Type 0} (f : S → A) → ((s : S) → P s → Q (f s) s) → Holds P (gets f) Q E
  unfolding gets
  Holds-gets f h = record { at = h }

  pub Holds-if :
      {Q : A → S → Type 0} (b : Bool) (m n : Exec S A)
      → (b ≡ true → Holds P m Q E)
      → (b ≡ false → Holds P n Q E)
      → Holds P (if b then m else n) Q E
  Holds-if true m n hm hn = hm refl
  Holds-if false m n hm hn = hn refl

Post-continue :
    {S A B : Type 0} (Q : A → S → Type 0) (R : B → S → Type 0) (E : S → Type 0) (r : Result A × S)
    (f : A → Exec S B)
    → Post Q E r
    → ((a : A) → Holds (Q a) (f a) R E)
    → Post R E (continue r f)
Post-continue Q R E (ok a, s) f h hf = (hf a).at s h
Post-continue Q R E (err e, s) f h hf = h

module _ {S A B : Type 0} {P : S → Type 0} {Q : A → S → Type 0} {R : B → S → Type 0}
    {E : S → Type 0} where
  pub Holds-bind :
      (m : Exec S A) (f : A → Exec S B)
      → Holds P m Q E
      → ((a : A) → Holds (Q a) (f a) R E)
      → Holds P (m >>= f) R E
  unfolding ◌>>=◌
  Holds-bind m f hm hf = record { at = λ s h. Post-continue Q R E (m s) f (hm.at s h) hf }

pub Post-mono :
    {S A : Type 0} (Q Q' : A → S → Type 0) (E E' : S → Type 0) (r : Result A × S)
    → ((a : A) (s : S) → Q a s → Q' a s)
    → ((s : S) → E s → E' s)
    → Post Q E r
    → Post Q' E' r
Post-mono Q Q' E E' (ok a, s) hq he h = hq a s h
Post-mono Q Q' E E' (err e, s) hq he h = he s h

module _ {S A : Type 0} {P : S → Type 0} {Q : A → S → Type 0} {E : S → Type 0} where
  -- A stronger precondition and weaker postconditions.
  pub Holds-mono :
      (m : Exec S A) {P' : S → Type 0} {Q' : A → S → Type 0} {E' : S → Type 0}
      → Holds P m Q E
      → ((s : S) → P' s → P s)
      → ((a : A) (s : S) → Q a s → Q' a s)
      → ((s : S) → E s → E' s)
      → Holds P' m Q' E'
  Holds-mono m {Q' = Q'} {E' = E'} h hp hq he = record {
    at = λ s p. Post-mono Q Q' E E' (m s) hq he (h.at s (hp s p));
  }

pub Holds-modify :
    {S : Type 0} {P : S → Type 0} {Q : Unit {0} → S → Type 0} {E : S → Type 0} (f : S → S)
    → ((s : S) → P s → Q tt (f s))
    → Holds P (modify f) Q E
unfolding modify
Holds-modify f h = record { at = h }

-- What holds at the end, however the action ended.
pub Post-final : {S A : Type 0} (P : S → Type 0) (r : Result A × S) → Post (λ _. P) P r → P r.1
Post-final P (ok a, s) h = h
Post-final P (err e, s) h = h
