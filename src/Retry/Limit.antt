-- ===== src/Retry/Limit.antt =====
-- What a retried action keeps.
use worker_template.Prelude.{ℕ, zero, suc, String, ◌≡◌, refl}
use worker_template.Exec.{operational, failure, Result, ok, err, Exec}
use worker_template.Exec.Holds.{Holds, Post, Keeps}
use worker_template.Retry.Defs.{Tenacity, db_retry}

module _ {S A : Type 0} (tenacity : Tenacity S) where
  -- One run, by how it ended. `next` is the claim about the runs that are left.
  retry_step :
      (Q : A → S → Type 0) (E : S → Type 0) (m : Exec S A) (n : ℕ) (s : S) (r : Result A × S)
      → m s ≡ r
      → Post Q E r
      → ((s' : S) (x : String)
          → m s ≡ (err (operational x), s')
          → E s'
          → Post Q E (tenacity.retry A (suc n) m s))
      → Post Q E (tenacity.retry A (suc n) m s)
  retry_step Q E m n s (ok a, s') e h next = rw (tenacity.returns A n m s s' a e) h
  retry_step Q E m n s (err (failure x), s') e h next = rw (tenacity.reraises A n m s s' x e) h
  retry_step Q E m n s (err (operational x), s') e h next = next s' x e h

  -- An invariant that each run reaches or keeps, and from which it can run again.
  retry_Holds :
      (Q : A → S → Type 0) (E : S → Type 0) (m : Exec S A) (n : ℕ)
      → Holds E m Q E
      → Holds E (tenacity.retry A (suc n) m) Q E
  retry_Holds Q E m zero hm = record {
    at = λ s h.
        retry_step Q E m zero s (m s) refl (hm.at s h)
          (λ s' x e h'. rw (tenacity.stops A m s s' x e) h');
  }
  retry_Holds Q E m (suc n) hm = record {
    at = λ s h.
        retry_step Q E m (suc n) s (m s) refl (hm.at s h)
          (λ s' x e h'. rw (tenacity.again A n m s s' x e) ((retry_Holds Q E m n hm).at s' h'));
  }

  -- What one run keeps, three keep.
  pub db_retry-Keeps : (P : S → Type 0) (m : Exec S A) → Keeps P m → Keeps P (db_retry tenacity m)
  unfolding db_retry
  db_retry-Keeps P m hm = retry_Holds (λ _. P) P m 2 hm

  -- What holds of a counter that each run raises by at most one, after at most three runs.
  pub db_retry_count :
      (P : ℕ → S → Type 0) (m : Exec S A)
      → ((n : ℕ) → Holds (P n) m (λ _. P (suc n)) (P (suc n)))
      → ((n : ℕ) (s : S) → P n s → P (suc n) s)
      → (s : S) → P 0 s
      → Post (λ _. P 3) (P 3) (db_retry tenacity m s)
  unfolding db_retry
  db_retry_count P m run more s h =
      retry_step (λ _. P 3) (P 3) m 2 s (m s) refl (weaken (m s) ((run 0).at s h))
        (λ s' x e _. rw (tenacity.again A 1 m s s' x e) (second s' (start s s' x e h)))
    where
      weaken : (r : Result A × S) → Post (λ _. P 1) (P 1) r → Post (λ _. P 3) (P 3) r
      weaken (ok a, s') h = more 2 s' (more 1 s' h)
      weaken (err e, s') h = more 2 s' (more 1 s' h)

      weaken_one : (r : Result A × S) → Post (λ _. P 2) (P 2) r → Post (λ _. P 3) (P 3) r
      weaken_one (ok a, s') h = more 2 s' h
      weaken_one (err e, s') h = more 2 s' h

      start : (s s' : S) (x : String) → m s ≡ (err (operational x), s') → P 0 s → P 1 s'
      start s s' x e h = rw e at ((run 0).at s h)

      middle : (s s' : S) (x : String) → m s ≡ (err (operational x), s') → P 1 s → P 2 s'
      middle s s' x e h = rw e at ((run 1).at s h)

      third : (s : S) → P 2 s → Post (λ _. P 3) (P 3) (tenacity.retry A 1 m s)
      third s h =
          retry_step (λ _. P 3) (P 3) m 0 s (m s) refl ((run 2).at s h)
            (λ s' x e h'. rw (tenacity.stops A m s s' x e) h')

      second : (s : S) → P 1 s → Post (λ _. P 3) (P 3) (tenacity.retry A 2 m s)
      second s h =
          retry_step (λ _. P 3) (P 3) m 1 s (m s) refl (weaken_one (m s) ((run 1).at s h))
            (λ s' x e _. rw (tenacity.again A 0 m s s' x e) (third s' (middle s s' x e h)))
