-- ===== src/StateTracking/Sends/Quiet.antt =====
-- Actions that send nothing to the broker.
use worker_template.Prelude.{◌≡◌, refl, ◌∙◌, Bool, true, false, List, [], ◌∷◌, if◌then◌else◌}
use worker_template.Exec.{Error, Result, ok, err, pure, raise, lift, gets, modify, continue, ◌>>=◌}
use worker_template.Models.{Tables}
use worker_template.World.{
  Outcome, fine, fault, late, World, Worker, effect, execute, flush, refresh, commit, reading,
}

pub record Quiet {A : Type 0} (m : Worker A) : Type 0 where
  pub at : (w : World) → (m w).1.sent ≡ w.sent

module _ {A : Type 0} where
  pub Quiet-pure : (a : A) → Quiet (pure a)
  unfolding pure
  Quiet-pure a = record { at = λ w. refl }

  pub Quiet-raise : (e : Error) → Quiet (raise {A = A} e)
  unfolding raise
  Quiet-raise e = record { at = λ w. refl }

  pub Quiet-lift : (r : Result A) → Quiet (lift r)
  unfolding lift
  Quiet-lift r = record { at = λ w. refl }

  pub Quiet-gets : (f : World → A) → Quiet (gets f)
  unfolding gets
  Quiet-gets f = record { at = λ w. refl }

  pub Quiet-if : (b : Bool) (m n : Worker A) → Quiet m → Quiet n → Quiet (if b then m else n)
  Quiet-if true m n hm hn = hm
  Quiet-if false m n hm hn = hn

module _ {A B : Type 0} where
  continue-sent :
      (r : Result A × World) (f : A → Worker B)
      → ((a : A) → Quiet (f a))
      → (continue r f).1.sent ≡ r.1.sent
  continue-sent (ok a, w) f hf = (hf a).at w
  continue-sent (err e, w) f hf = refl

  pub Quiet-bind :
      (m : Worker A) (f : A → Worker B) → Quiet m → ((a : A) → Quiet (f a)) → Quiet (m >>= f)
  unfolding ◌>>=◌
  Quiet-bind m f hm hf = record { at = λ w. continue-sent (m w) f hf ∙ hm.at w }

pub Quiet-modify : (f : World → World) → ((w : World) → (f w).sent ≡ w.sent) → Quiet (modify f)
unfolding modify
Quiet-modify f h = record { at = h }

effect-sent :
    (f : World → World) (outcomes : List Outcome) (w : World)
    → ((w : World) → (f w).sent ≡ w.sent)
    → (effect f (record w { schedule = outcomes })).1.sent ≡ w.sent
unfolding effect
effect-sent f [] w h = h (record w { schedule = [] })
effect-sent f (fine ∷ rest) w h = h (record w { schedule = rest })
effect-sent f (fault e ∷ rest) w h = refl
effect-sent f (late e ∷ rest) w h = h (record w { schedule = rest })

Quiet-effect : (f : World → World) → ((w : World) → (f w).sent ≡ w.sent) → Quiet (effect f)
Quiet-effect f h = record { at = λ w. effect-sent f w.schedule w h }

pub Quiet-reading : Quiet reading
unfolding reading
Quiet-reading = record { at = λ w. refl }

pub Quiet-flush : (write : Tables → Tables) → Quiet (flush write)
unfolding flush
Quiet-flush write = Quiet-effect _ (λ w. refl)

pub Quiet-refresh : Quiet refresh
unfolding refresh
Quiet-refresh = Quiet-effect _ (λ w. refl)

pub Quiet-commit : Quiet commit
unfolding commit
Quiet-commit = Quiet-effect _ (λ w. refl)

pub Quiet-execute : {A : Type 0} (query : Tables → A) → Quiet (execute query)
unfolding execute
Quiet-execute query = Quiet-bind _ _ (Quiet-effect _ (λ w. refl)) (λ _. Quiet-gets _)

pub ruleset quiet_rules = (
  Quiet-pure, Quiet-raise, Quiet-lift, Quiet-gets, Quiet-if, Quiet-bind, Quiet-reading, Quiet-flush,
  Quiet-refresh, Quiet-commit, Quiet-execute,
)
