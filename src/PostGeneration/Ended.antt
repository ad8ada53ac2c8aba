-- ===== src/PostGeneration/Ended.antt =====
-- The script where every call succeeds.
use worker_template.Prelude.{ℕ, String, ◌≡◌, refl, ◌∙◌, Option, none, some, List, [], ◌∷◌, ap}
use worker_template.Exec.{Result, ok, err, Exec, pure, modify, ◌>>=◌}
use worker_template.Exec.Holds.{
  Post, Holds, Holds-pure, Holds-gets, Holds-bind, Holds-modify, Holds-if, Holds-mono,
}
use worker_template.Services.TaskExecutionService.Updates.{or_else}
use worker_template.PostGeneration.{
  unless_raised, after_copy, after_sync, Script, CallError, Project, Line, call, print,
  is_shell_script, set_mode, in_scripts, chmod, chmod_entry, chmod_each, chmod_in,
  make_scripts_executable, copy_unless, copy_env_file, sync_with, run_uv_sync, main,
}

-- `m` returns and keeps `P`.
abbrev Returns : {A : Type 0} → (Project → Type 0) → Exec Project A → Type 0
Returns P m = Holds P m (λ _. P) (λ _. ⊥)

-- No call is to fail, and the environment files are these.
abbrev At : Option String → Option String → Project → Type 0
At example env_file p = (p.schedule ≡ []) × (p.env_example ≡ example) × (p.env_file ≡ env_file)

calls : (f : Project → Project) (p : Project) → p.schedule ≡ [] → call f p ≡ (ok none, f p)
unfolding call modify pure ◌>>=◌
calls f p quiet = rw quiet refl

module _ (example : Option String) where
  print-Returns :
      (env_file : Option String) (lines : List Line) → Returns (At example env_file) (print lines)
  print-Returns env_file lines = Holds-modify _ (λ p h. h)

  -- A call that leads to the environment file `new`.
  call-At :
      (old new : Option String) (f : Project → Project)
      → ((p : Project) → At example old p → At example new (f p))
      → Holds (At example old) (call f) (λ e p. (e ≡ none) × At example new p) (λ _. ⊥)
  call-At old new f effect = record { at = λ p h. rw (calls f p h.0) (refl, effect p h) }

  module _ (env_file : Option String) where
    chmod-Returns : (name : String) → Returns (At example env_file) (chmod name)
    unfolding chmod
    chmod-Returns name =
        Holds-bind _ _ (call-At env_file env_file (in_scripts (set_mode name)) (λ p h. h)) raised
      where
        raised :
            (e : Option CallError)
            → Holds
                (λ p. (e ≡ none) × At example env_file p)
                (unless_raised e)
                (λ _. At example env_file)
                (λ _. ⊥)
        raised none = Holds-pure _ (λ p h. h.1)
        raised (some e) = record { at = λ p h. cc (h.0) }

    chmod_entry-Returns :
        (s : Script) (count : ℕ) → Returns (At example env_file) (chmod_entry s count)
    unfolding chmod_entry
    chmod_entry-Returns s count =
        Holds-if (is_shell_script s.name) _ _
          (λ shell.
            Holds-bind _ _ (chmod-Returns s.name)
              λ _. Holds-bind _ _ (print-Returns env_file _) (λ _. Holds-pure _ (λ p h. h)))
          (λ other. Holds-pure _ (λ p h. h))

    chmod_each-Returns :
        (scripts : List Script) (count : ℕ)
        → Returns (At example env_file) (chmod_each scripts count)
    unfolding chmod_each
    chmod_each-Returns [] count = Holds-pure _ (λ p h. h)
    chmod_each-Returns (s ∷ scripts) count =
        Holds-bind _ _ (chmod_entry-Returns s count) (chmod_each-Returns scripts)

    make_scripts_executable-Returns : Returns (At example env_file) make_scripts_executable
    unfolding make_scripts_executable chmod_in
    make_scripts_executable-Returns =
        Holds-bind _ _ (print-Returns env_file _)
          λ _. Holds-bind _ _ (Holds-gets {Q = λ _. At example env_file} _ (λ p h. h)) in_directory
      where
        in_directory :
            (scripts : Option (List Script)) → Returns (At example env_file) (chmod_in scripts)
        in_directory none = print-Returns env_file _
        in_directory (some scripts) =
            Holds-bind _ _ (chmod_each-Returns scripts 0) (λ _. print-Returns env_file _)

    run_uv_sync-Returns : Returns (At example env_file) run_uv_sync
    unfolding run_uv_sync sync_with
    run_uv_sync-Returns =
        Holds-bind _ _ (print-Returns env_file _)
          λ _. Holds-bind _ _ (Holds-gets {Q = λ _. At example env_file} _ (λ p h. h)) synced_with
      where
        synced :
            (e : Option CallError)
            → Holds
                (λ p. (e ≡ none) × At example env_file p)
                (after_sync e)
                (λ _. At example env_file)
                (λ _. ⊥)
        synced none = Holds-mono _ (print-Returns env_file _) (λ p h. h.1) (λ _ p h. h) (λ p h. h)
        synced (some e) = record { at = λ p h. cc (h.0) }

        synced_with : (uv_path : Option String) → Returns (At example env_file) (sync_with uv_path)
        synced_with none = print-Returns env_file _
        synced_with (some uv_path) = Holds-bind _ _ (call-At env_file env_file _ (λ p h. h)) synced

copied :
    (text : String) (e : Option CallError)
    → Holds
        (λ p. (e ≡ none) × At (some text) (some text) p)
        (after_copy e)
        (λ _. At (some text) (some text))
        (λ _. ⊥)
copied text none =
    Holds-mono _ (print-Returns (some text) (some text) _) (λ p h. h.1) (λ _ p h. h) (λ p h. h)
copied text (some e) = record { at = λ p h. cc (h.0) }

copy_unless-Ends :
    (example env_file : Option String)
    → Holds
        (At example env_file)
        (copy_unless example env_file)
        (λ _. At example (or_else env_file example))
        (λ _. ⊥)
unfolding copy_unless
copy_unless-Ends none none = print-Returns none none _
copy_unless-Ends none (some old) = print-Returns none (some old) _
copy_unless-Ends (some text) (some old) = print-Returns (some text) (some old) _
copy_unless-Ends (some text) none =
    Holds-bind _ _ (call-At (some text) none (some text) _ (λ p h. (h.0, h.1, refl))) (copied text)

copy_env_file-Ends :
    (example env_file : Option String)
    → Holds
        (At example env_file)
        copy_env_file
        (λ _. At example (or_else env_file example))
        (λ _. ⊥)
unfolding copy_env_file
copy_env_file-Ends example env_file = Holds-bind _ _ (print-Returns example env_file _) λ _.
    Holds-bind {Q = λ e p. At example env_file p × (e ≡ example)} _ _
      (Holds-gets _ (λ p h. (h, h.1)))
      λ e.
        Holds-bind {Q = λ f p. At example env_file p × (e ≡ example) × (f ≡ env_file)} _ _
          (Holds-gets _ (λ p h. (h.0, h.1, h.0.2)))
          λ f. record { at = λ p h. rw h.1 (rw h.2 ((copy_unless-Ends example env_file).at p h.0)) }

main-Ends :
    (example env_file : Option String)
    → Holds
        (At example env_file)
        main
        (λ code p. (code ≡ 0) × At example (or_else env_file example) p)
        (λ _. ⊥)
unfolding main
main-Ends example env_file = Holds-bind _ _ (print-Returns example env_file _) λ _.
    Holds-bind _ _ (make_scripts_executable-Returns example env_file) λ _.
      Holds-bind _ _ (copy_env_file-Ends example env_file) λ _.
        Holds-bind _ _ (run_uv_sync-Returns example (or_else env_file example)) λ _.
          Holds-bind _ _ (print-Returns example (or_else env_file example) _)
            (λ _. Holds-pure _ (λ p h. (refl, h)))

exits :
    (r : Result ℕ × Project) (Q : Project → Type 0)
    → Post (λ code p. (code ≡ 0) × Q p) (λ _. ⊥) r
    → (r.0 ≡ ok 0) × Q r.1
exits (ok code, p) Q h = (ap ok h.0, h.1)
exits (err e, p) Q h = absurd h

or_else_again :
    {a b : Option String} (f e : Option String) → a ≡ or_else f e → b ≡ e → or_else a b ≡ a
or_else_again none none h k = rw h (rw k refl)
or_else_again none (some text) h k = rw h refl
or_else_again (some old) e h k = rw h refl

-- Where every call succeeds the script exits with 0; `.env` is what it was, or else a copy of
-- `dotenv.example` if there is one, and `dotenv.example` is the same. A second run exits with 0 and
-- leaves both as they are.
pub main_twice :
    (p : Project)
    → p.schedule ≡ []
    → let (code, once) = main p in
      let (again, twice) = main once in
      (code ≡ ok 0)
      × (once.env_file ≡ or_else p.env_file p.env_example)
      × (once.env_example ≡ p.env_example)
      × (again ≡ ok 0)
      × (twice.env_file ≡ once.env_file)
main_twice p quiet =
    let first = exits (main p) _ ((main-Ends p.env_example p.env_file).at p (quiet, refl, refl)) in
    let once = (main p).1 in
    let second =
      exits (main once) _
        ((main-Ends once.env_example once.env_file).at once (first.1.0, refl, refl)) in
    (
      first.0,
      first.1.2,
      first.1.1,
      second.0,
      second.1.2 ∙ or_else_again p.env_file p.env_example first.1.2 first.1.1,
    )
