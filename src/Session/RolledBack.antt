-- ===== src/Session/RolledBack.antt =====
-- What a failed block leaves of a session.
use worker_template.Prelude.{◌≡◌, ◌≢◌, ◌⊎◌, inl, inr, refl, sym, ap, List, [], ◌∷◌}
use worker_template.Exec.{Error, Result, ok, err, raise, ◌>>=◌, ◌>>◌}
use worker_template.World.{World, Worker, Outcome, fine, fault, late, effect, with_session}
use worker_template.Session.{rollback, rolled_back, get_session}

-- The block's exception `e` left the world `w`: the session raises, commits nothing and sends nothing;
-- and where no call is to fail it raises `e` itself, and what was not committed is gone.
pub record IsRolledBack {A : Type 0} (e : Error) (w : World) (outcome : Result A × World)
    : Type 0 where
  pub raised : (x : Error) × (outcome.0 ≡ err x)
  pub committed : outcome.1.committed ≡ w.committed
  pub sent : outcome.1.sent ≡ w.sent
  pub calm : (w.schedule ≢ []) ⊎ (outcome ≡ (err e, record w { tables = w.committed }))

rolls_back :
    {A : Type 0} (e : Error) (outcomes : List Outcome) (w : World)
    → w.schedule ≡ outcomes
    → IsRolledBack {A = A} e w ((rollback >> raise e) (record w { schedule = outcomes }))
unfolding rollback effect raise ◌>>=◌
rolls_back e [] w s = record {
  raised = (e, refl);
  committed = refl;
  sent = refl;
  calm = inr (ap (λ l. (err e, record w { tables = w.committed; schedule = l })) (sym s));
}
rolls_back e (fine ∷ rest) w s = record {
  raised = (e, refl);
  committed = refl;
  sent = refl;
  calm = inl (λ quiet. cc);
}
rolls_back e (fault x ∷ rest) w s = record {
  raised = (x, refl);
  committed = refl;
  sent = refl;
  calm = inl (λ quiet. cc);
}
rolls_back e (late x ∷ rest) w s = record {
  raised = (x, refl);
  committed = refl;
  sent = refl;
  calm = inl (λ quiet. cc);
}

-- What `get_session` does, by what its block has done.
abbrev pub Unwound : {A : Type 0} → Result A × World → Result A × World → Type 0
Unwound (ok a, after) outcome = outcome ≡ (ok a, after)
Unwound (err e, after) outcome = IsRolledBack e after outcome

unwinds : {A : Type 0} (done : Result A × World) → Unwound done (rolled_back done)
unwinds (ok a, after) = refl
unwinds (err e, after) = rolls_back e after.schedule after refl

-- Whatever the block is: where it returns, `get_session` returns the same and leaves the same; where
-- it raises, `get_session` raises, commits nothing more and sends nothing more, and, where no call is
-- to fail, raises the block's exception with the session's tables back at what is committed.
pub get_session-Unwound :
    {A : Type 0} (block : Worker A) (w : World)
    → Unwound (with_session block w) (get_session block w)
unfolding get_session with_session
get_session-Unwound block w = unwinds (block (record w { tables = w.committed }))
