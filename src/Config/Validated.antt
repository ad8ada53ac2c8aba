-- ===== src/Config/Validated.antt =====
-- What `validate_config` reports of settings that were loaded.
use mathlib.Core.Bool.{false≢true}
use worker_template.Prelude.{
  sym, ◌∙◌, ℕ, String, ◌≡◌, ◌≢◌, refl, ◌↔◌, ◌⊎◌, inl, inr, Bool, true, false, not, ◌&&◌, List, [],
  ◌∷◌, ◌++◌, arith, str_eq, eq_iff, ltb, leb, Bool-cases, if◌then◌else◌,
}
use worker_template.Text.{join, starts_with, contains, starts_with-nonempty}
use worker_template.Exec.{Result, ok, err, failure}
use worker_template.Config.{
  Settings, in_bounds, validate_rabbitmq_url, validate_redis_url, accepted, new_settings,
  echo_warning, single_warning, validate_production_config, validate_config,
}

-- The URL has one of two schemes.
abbrev pub HasScheme : String → String → String → Type 0
HasScheme plain secure url = (starts_with plain url ≡ true) ⊎ (starts_with secure url ≡ true)

-- Settings that `Settings()` may return.
pub record IsLoaded (s : Settings) : Type 0 where
  pub in_range : in_bounds s ≡ true
  pub concurrent : leb 1 s.worker_concurrency ≡ true
  pub rabbitmq_given : str_eq s.rabbitmq_url "" ≡ false
  pub redis_given : str_eq s.redis_url "" ≡ false
  pub rabbitmq_scheme : HasScheme "amqp://" "amqps://" s.rabbitmq_url
  pub redis_scheme : HasScheme "redis://" "rediss://" s.redis_url

ok_injective : {A : Type 0} (a b : A) → ok a ≡ ok b → a ≡ b
ok_injective a b e = cc

rabbitmq_schemed :
    (url value : String) → validate_rabbitmq_url url ≡ ok value → HasScheme "amqp://" "amqps://" url
unfolding validate_rabbitmq_url
rabbitmq_schemed url value h = elim (Bool-cases (starts_with "amqp://" url)) [
  | inl plain ↦ inl plain
  | inr other ↦ elim (Bool-cases (starts_with "amqps://" url)) [
    | inl secure ↦ inr secure
    | inr neither ↦ ground arith
  ]
]

redis_schemed :
    (url value : String) → validate_redis_url url ≡ ok value → HasScheme "redis://" "rediss://" url
unfolding validate_redis_url
redis_schemed url value h = elim (Bool-cases (starts_with "redis://" url)) [
  | inl plain ↦ inl plain
  | inr other ↦ elim (Bool-cases (starts_with "rediss://" url)) [
    | inl secure ↦ inr secure
    | inr neither ↦ ground arith
  ]
]

rabbitmq_nonempty : (url : String) → HasScheme "amqp://" "amqps://" url → str_eq url "" ≡ false
rabbitmq_nonempty url (inl plain) = starts_with-nonempty "a" "mqp://" url plain
rabbitmq_nonempty url (inr secure) = starts_with-nonempty "a" "mqps://" url secure

redis_nonempty : (url : String) → HasScheme "redis://" "rediss://" url → str_eq url "" ≡ false
redis_nonempty url (inl plain) = starts_with-nonempty "r" "edis://" url plain
redis_nonempty url (inr secure) = starts_with-nonempty "r" "ediss://" url secure

accepted_ok :
    {A : Type 0} (r : Result String) (x : Result A) (message : String) (a : A)
    → accepted r x (err (failure message)) ≡ ok a
    → (value : String) × (r ≡ ok value) × (x ≡ ok a)
accepted_ok (ok value) x message a h = (value, refl, h)
accepted_ok (err e) x message a h = cc

if_ok :
    {A : Type 0} (b : Bool) (x : Result A) (message : String) (a : A)
    → (if b then x else err (failure message)) ≡ ok a
    → (b ≡ true) × (x ≡ ok a)
if_ok true x message a h = (refl, h)
if_ok false x message a h = cc

in_bounds-concurrent : (s : Settings) → in_bounds s ≡ true → leb 1 s.worker_concurrency ≡ true
unfolding in_bounds
in_bounds-concurrent s h = ground arith

-- `Settings()` returns the values of the environment, and they have passed the checks.
pub new_settings-IsLoaded :
    (given s : Settings) → new_settings given ≡ ok s → (given ≡ s) × IsLoaded given
unfolding new_settings
new_settings-IsLoaded given s h =
    let bounded = if_ok (in_bounds given) _ "ValidationError" s h in
    let first =
      accepted_ok (validate_rabbitmq_url given.rabbitmq_url) _ "ValidationError" s bounded.1 in
    let second = accepted_ok (validate_redis_url given.redis_url) _ "ValidationError" s first.2 in
    let rabbitmq = rabbitmq_schemed given.rabbitmq_url first.0 first.1 in
    let redis = redis_schemed given.redis_url second.0 second.1 in
    (
      ok_injective given s second.2,
      record {
        in_range = bounded.0;
        concurrent = in_bounds-concurrent given bounded.0;
        rabbitmq_given = rabbitmq_nonempty given.rabbitmq_url rabbitmq;
        redis_given = redis_nonempty given.redis_url redis;
        rabbitmq_scheme = rabbitmq;
        redis_scheme = redis;
      },
    )

-- What is reported: an error exactly for an empty database URL, or else the warnings that are true.
abbrev pub Reports : Settings → Result (List String) → Type 0
Reports s (err e) =
    (s.database_url ≡ "") × (e ≡ failure "Configuration errors: DATABASE_URL is required")
Reports s (ok warnings) =
    (s.database_url ≢ "")
    × ((contains echo_warning warnings ≡ true)
        ↔ ((s.environment ≡ "production") × (s.sqlalchemy_echo ≡ true)))
    × ((contains single_warning warnings ≡ true)
        ↔ ((s.environment ≡ "production") × (s.worker_concurrency ≡ 1)))

-- The warnings by the three tests.
abbrev warned : Bool → Bool → Bool → List String
warned production echo single =
    if not production
    then []
    else (let echoed = if echo then [] ++ echo_warning ∷ [] else [] in
        if single then echoed ++ single_warning ∷ [] else echoed)

contains-warned :
    (production echo single : Bool)
    → (contains echo_warning (warned production echo single) ≡ production && echo)
      × (contains single_warning (warned production echo single) ≡ production && single)
unfolding contains
contains-warned false echo single = (refl, refl)
contains-warned true true true = (refl, refl)
contains-warned true true false = (refl, refl)
contains-warned true false true = (refl, refl)
contains-warned true false false = (refl, refl)

both :
    (a b c : Bool) (P Q : Type 0)
    → c ≡ a && b
    → (a ≡ true) ↔ P
    → (b ≡ true) ↔ Q
    → (c ≡ true) ↔ (P × Q)
both true true c P Q e p q = (λ _. (p.0 refl, q.0 refl), λ _. e)
both true false c P Q e p q = (λ h. cc, λ h. absurd (false≢true (q.1 h.1)))
both false b c P Q e p q = (λ h. cc, λ h. absurd (false≢true (p.1 h.0)))

single_iff : (n : ℕ) → leb 1 n ≡ true → (ltb n 2 ≡ true) ↔ (n ≡ 1)
single_iff n one = (λ h. ground arith, λ h. ground arith)

production_warnings :
    (s : Settings)
    → leb 1 s.worker_concurrency ≡ true
    → ((contains echo_warning (validate_production_config s []) ≡ true)
        ↔ ((s.environment ≡ "production") × (s.sqlalchemy_echo ≡ true)))
      × ((contains single_warning (validate_production_config s []) ≡ true)
          ↔ ((s.environment ≡ "production") × (s.worker_concurrency ≡ 1)))
unfolding validate_production_config
production_warnings s one =
    let found =
      contains-warned (str_eq s.environment "production") s.sqlalchemy_echo
        (ltb s.worker_concurrency 2) in
    let named = eq_iff s.environment "production" in
    (
      both _ _ _ _ _ found.0 named (λ e. e, λ e. e),
      both _ _ _ _ _ found.1 named (single_iff s.worker_concurrency one),
    )

empty_given : (url : String) → url ≡ "" → str_eq url "" ≡ false → ⊥
empty_given url e given = false≢true (sym given ∙ (eq_iff url "").1 e)

IsLoaded-Reports : (s : Settings) → IsLoaded s → Reports s (validate_config s)
unfolding validate_config join
IsLoaded-Reports s h = elim (Bool-cases (str_eq s.database_url "")) [
  | inl empty ↦
      rw empty (rw h.rabbitmq_given (rw h.redis_given ((eq_iff s.database_url "").0 empty, refl)))
  | inr given ↦
      let warnings = production_warnings s h.concurrent in
      rw given (
        rw h.rabbitmq_given
          (rw h.redis_given (λ e. empty_given s.database_url e given, warnings.0, warnings.1)))
]

-- Settings that `Settings()` returned have a configuration error exactly where the database URL is
-- empty, and that error is the only one; otherwise `validate_config` returns warnings: the one about
-- SQL logging is among them exactly in production with `sqlalchemy_echo` on, and the one that says
-- that the concurrency is 1 exactly in production with a concurrency of 1.
pub new_settings-validate_config :
    (given s : Settings) → new_settings given ≡ ok s → Reports s (validate_config s)
new_settings-validate_config given s h =
    let loaded = new_settings-IsLoaded given s h in rw loaded.0 at (IsLoaded-Reports given loaded.1)
