-- ===== src/PostGeneration/Kept.antt =====
-- What the script keeps of the project, however its calls end.
use worker_template.Prelude.{
  ℕ, String, ◌≡◌, refl, sym, ◌∙◌, inl, inr, true, Option, none, some, List, [], ◌∷◌,
}
use worker_template.Exec.Holds.{
  Post-final, Holds, Keeps, Holds-pure, Holds-raise, Holds-if, Holds-gets, Holds-bind, Holds-modify,
  Holds-mono,
}
use worker_template.PostGeneration.{
  called_process, other_error, unless_raised, after_copy, after_sync, Script, CallError,
  CallOutcome, Project, Line, print, is_shell_script, chmod, chmod_entry, chmod_each, chmod_in,
  make_scripts_executable, copy_unless, copy_env_file, sync_with, run_uv_sync, main,
}
use worker_template.PostGeneration.Untouched.{
  IsSameDirectory-set_mode, IsSameDirectory-refl, call-Keeps, IsKept,
}

module _ (base : Project) where
  abbrev Kept : Project → Type 0
  Kept p = IsKept base p

  IsKept-schedule : (p : Project) (l : List CallOutcome) → Kept p → Kept (record p { schedule = l })
  IsKept-schedule p l h = record {
    env_example = h.env_example;
    env_file = h.env_file;
    scripts = h.scripts;
  }

  print-Keeps : (lines : List Line) → Keeps Kept (print lines)
  print-Keeps lines =
      Holds-modify _
        (λ p h. record { env_example = h.env_example; env_file = h.env_file; scripts = h.scripts })

  raised-Keeps : (e : Option CallError) → Keeps Kept (unless_raised e)
  raised-Keeps none = Holds-pure _ (λ p h. h)
  raised-Keeps (some e) = Holds-raise _ (λ p h. h)

  chmod-Keeps : (name : String) → is_shell_script name ≡ true → Keeps Kept (chmod name)
  unfolding chmod
  chmod-Keeps name shell =
      Holds-bind _ _
        (call-Keeps Kept _
          (λ p h. record {
            env_example = h.env_example;
            env_file = h.env_file;
            scripts = IsSameDirectory-set_mode name base.scripts p.scripts shell h.scripts;
          })
          IsKept-schedule)
        raised-Keeps

  chmod_entry-Keeps : (s : Script) (count : ℕ) → Keeps Kept (chmod_entry s count)
  unfolding chmod_entry
  chmod_entry-Keeps s count =
      Holds-if (is_shell_script s.name) _ _
        (λ shell.
          Holds-bind _ _ (chmod-Keeps s.name shell)
            λ _. Holds-bind _ _ (print-Keeps _) (λ _. Holds-pure _ (λ p h. h)))
        (λ other. Holds-pure _ (λ p h. h))

  chmod_each-Keeps : (scripts : List Script) (count : ℕ) → Keeps Kept (chmod_each scripts count)
  unfolding chmod_each
  chmod_each-Keeps [] count = Holds-pure _ (λ p h. h)
  chmod_each-Keeps (s ∷ scripts) count =
      Holds-bind _ _ (chmod_entry-Keeps s count) (chmod_each-Keeps scripts)

  make_scripts_executable-Keeps : Keeps Kept make_scripts_executable
  unfolding make_scripts_executable chmod_in
  make_scripts_executable-Keeps =
      Holds-bind _ _ (print-Keeps _)
        λ _. Holds-bind _ _ (Holds-gets {Q = λ _. Kept} _ (λ p h. h)) chmod_in-Keeps
    where
      chmod_in-Keeps : (scripts : Option (List Script)) → Keeps Kept (chmod_in scripts)
      chmod_in-Keeps none = print-Keeps _
      chmod_in-Keeps (some scripts) =
          Holds-bind _ _ (chmod_each-Keeps scripts 0) (λ _. print-Keeps _)

  -- The text that is copied is the example, and there was no `.env`.
  copy_unless-Keeps :
      (example env_file : Option String)
      → Holds
          (λ p. Kept p × (example ≡ p.env_example) × (env_file ≡ p.env_file))
          (copy_unless example env_file)
          (λ _. Kept)
          Kept
  unfolding copy_unless
  copy_unless-Keeps none env_file =
      Holds-mono _ (print-Keeps _) (λ p h. h.0) (λ _ p h. h) (λ p h. h)
  copy_unless-Keeps (some text) (some old) =
      Holds-mono _ (print-Keeps _) (λ p h. h.0) (λ _ p h. h) (λ p h. h)
  copy_unless-Keeps (some text) none =
      Holds-bind {Q = λ _. Kept} _ _
        (Holds-mono _
          (call-Keeps Copied _
            (λ p h. (
              record {
                env_example = h.0.env_example;
                env_file = inr (h.1, h.2);
                scripts = h.0.scripts;
              },
              h.1,
              h.2,
            ))
            (λ p l h. (IsKept-schedule p l h.0, h.1, h.2)))
          (λ p h. (h.0, missing p h.0 h.2, h.1 ∙ h.0.env_example)) (λ _ p h. h.0) (λ p h. h.0))
        (λ raised. after_copy-Keeps raised)
    where
      Copied : Project → Type 0
      Copied p = Kept p × (base.env_file ≡ none) × (some text ≡ base.env_example)

      missing : (p : Project) → Kept p → none ≡ p.env_file → base.env_file ≡ none
      missing p h e = elim h.env_file [ inl same ↦ sym same ∙ sym e | inr copied ↦ copied.0 ]

      after_copy-Keeps : (e : Option CallError) → Keeps Kept (after_copy e)
      after_copy-Keeps none = print-Keeps _
      after_copy-Keeps (some e) = print-Keeps _

  copy_env_file-Keeps : Keeps Kept copy_env_file
  unfolding copy_env_file
  copy_env_file-Keeps = Holds-bind _ _ (print-Keeps _) λ _.
      Holds-bind {Q = λ example p. Kept p × (example ≡ p.env_example)} _ _
        (Holds-gets _ (λ p h. (h, refl)))
        λ example.
          Holds-bind
            {Q = λ env_file p. Kept p × (example ≡ p.env_example) × (env_file ≡ p.env_file)} _ _
            (Holds-gets _ (λ p h. (h.0, h.1, refl))) (copy_unless-Keeps example)

  run_uv_sync-Keeps : Keeps Kept run_uv_sync
  unfolding run_uv_sync sync_with
  run_uv_sync-Keeps =
      Holds-bind _ _ (print-Keeps _)
        λ _. Holds-bind _ _ (Holds-gets {Q = λ _. Kept} _ (λ p h. h)) sync_with-Keeps
    where
      after_sync-Keeps : (e : Option CallError) → Keeps Kept (after_sync e)
      after_sync-Keeps none = print-Keeps _
      after_sync-Keeps (some (called_process text stderr)) = print-Keeps _
      after_sync-Keeps (some (other_error text)) = print-Keeps _

      sync_with-Keeps : (uv_path : Option String) → Keeps Kept (sync_with uv_path)
      sync_with-Keeps none = print-Keeps _
      sync_with-Keeps (some uv_path) =
          Holds-bind _ _
            (call-Keeps Kept _
              (λ p h. record {
                env_example = h.env_example;
                env_file = h.env_file;
                scripts = h.scripts;
              })
              IsKept-schedule)
            after_sync-Keeps

  main-Keeps : Keeps Kept main
  unfolding main
  main-Keeps = Holds-bind _ _ (print-Keeps _) λ _. Holds-bind _ _ make_scripts_executable-Keeps λ _.
      Holds-bind _ _ copy_env_file-Keeps λ _.
        Holds-bind _ _ run_uv_sync-Keeps
          λ _. Holds-bind _ _ (print-Keeps _) (λ _. Holds-pure _ (λ p h. h))

-- However the calls of the script end: an `.env` that is there is never changed, and one that is made
-- is a copy of `dotenv.example`, which is never changed; and `scripts/` has the same entries, in which
-- at most the permissions of shell scripts have changed, to 0o755.
pub main-IsKept : (p : Project) → IsKept p (main p).1
main-IsKept p = Post-final (IsKept p) (main p) (
    (main-Keeps p).at p (record {
      env_example = refl;
      env_file = inl refl;
      scripts = IsSameDirectory-refl p.scripts;
    }))
