-- ===== src/Retry/Defs.antt =====
-- The decorator and the library interface that it stands on.
use worker_template.Prelude.{ℕ, suc, String, ◌≡◌}
use worker_template.Exec.{operational, failure, ok, err, Exec}

-- tenacity's `retry` with `retry_if_exception_type(OperationalError)`, `stop_after_attempt(n)` and
-- `reraise=True`, as its documentation describes it: `retry A n m` runs `m` until it returns, until it
-- raises another exception, or until it has run `n` times.
pub record Tenacity (S : Type 0) : Type 1 where
  pub retry : (A : Type 0) → ℕ → Exec S A → Exec S A
  pub returns :
      (A : Type 0) (n : ℕ) (m : Exec S A) (s s' : S) (a : A)
      → m s ≡ (ok a, s')
      → retry A (suc n) m s ≡ (ok a, s')
  pub reraises :
      (A : Type 0) (n : ℕ) (m : Exec S A) (s s' : S) (x : String)
      → m s ≡ (err (failure x), s')
      → retry A (suc n) m s ≡ (err (failure x), s')
  pub stops :
      (A : Type 0) (m : Exec S A) (s s' : S) (x : String)
      → m s ≡ (err (operational x), s')
      → retry A 1 m s ≡ (err (operational x), s')
  pub again :
      (A : Type 0) (n : ℕ) (m : Exec S A) (s s' : S) (x : String)
      → m s ≡ (err (operational x), s')
      → retry A (suc (suc n)) m s ≡ retry A (suc n) m s'

abbrev pub default_max_attempts : ℕ
default_max_attempts = 3

module _ {S : Type 0} (tenacity : Tenacity S) where
  unfoldable pub create_db_retry : (A : Type 0) → ℕ → Exec S A → Exec S A
  create_db_retry A max_attempts m = tenacity.retry A max_attempts m

  unfoldable pub db_retry : {A : Type 0} → Exec S A → Exec S A
  unfolding create_db_retry
  db_retry {A} m = create_db_retry A default_max_attempts m
