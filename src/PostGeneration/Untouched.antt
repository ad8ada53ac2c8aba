-- ===== src/PostGeneration/Untouched.antt =====
-- A project that the script may change in nothing but what it is for.
use worker_template.Prelude.{
  String, ◌≡◌, refl, sym, ◌∙◌, ◌⊎◌, inl, inr, true, Option, none, some, List, [], ◌∷◌, Bool-cases,
  str_eq, eq_iff,
}
use worker_template.Exec.{pure, modify, ◌>>=◌}
use worker_template.Exec.Holds.{Keeps}
use worker_template.PostGeneration.{
  answer, Script, CallOutcome, done, raises, raises_late, Project, call, is_shell_script,
  executable, set_mode,
}

-- The same file, whose permissions are the same or, for a shell script, 0o755.
abbrev pub IsSameScript : Script → Script → Type 0
IsSameScript old new =
    (new.name ≡ old.name)
    × ((new.mode ≡ old.mode) ⊎ ((is_shell_script old.name ≡ true) × (new.mode ≡ executable)))

abbrev pub AreSameScripts : List Script → List Script → Type 0
AreSameScripts [] [] = Unit
AreSameScripts [] (b ∷ new) = ⊥
AreSameScripts (a ∷ old) [] = ⊥
AreSameScripts (a ∷ old) (b ∷ new) = IsSameScript a b × AreSameScripts old new

abbrev pub IsSameDirectory : Option (List Script) → Option (List Script) → Type 0
IsSameDirectory none none = Unit
IsSameDirectory none (some new) = ⊥
IsSameDirectory (some old) none = ⊥
IsSameDirectory (some old) (some new) = AreSameScripts old new

pub record IsKept (old new : Project) : Type 0 where
  pub env_example : new.env_example ≡ old.env_example
  pub env_file :
      (new.env_file ≡ old.env_file) ⊎ ((old.env_file ≡ none) × (new.env_file ≡ old.env_example))
  pub scripts : IsSameDirectory old.scripts new.scripts

AreSameScripts-refl : (l : List Script) → AreSameScripts l l
AreSameScripts-refl [] = tt
AreSameScripts-refl (s ∷ l) = ((refl, inl refl), AreSameScripts-refl l)

pub IsSameDirectory-refl : (d : Option (List Script)) → IsSameDirectory d d
IsSameDirectory-refl none = tt
IsSameDirectory-refl (some l) = AreSameScripts-refl l

-- A shell script becomes executable.
AreSameScripts-set_mode :
    (name : String) (old new : List Script)
    → is_shell_script name ≡ true
    → AreSameScripts old new
    → AreSameScripts old (set_mode name new)
unfolding set_mode
AreSameScripts-set_mode name [] [] shell h = tt
AreSameScripts-set_mode name [] (b ∷ new) shell h = absurd h
AreSameScripts-set_mode name (a ∷ old) [] shell h = absurd h
AreSameScripts-set_mode name (a ∷ old) (b ∷ new) shell h =
    let rest = AreSameScripts-set_mode name old new shell h.1 in
    elim (Bool-cases (str_eq b.name name)) [
      | inl same ↦
          rw same ((h.0.0, inr (rw (sym h.0.0 ∙ (eq_iff b.name name).0 same) shell, refl)), rest)
      | inr other ↦ rw other (h.0, rest)
    ]

pub IsSameDirectory-set_mode :
    (name : String) (old new : Option (List Script))
    → is_shell_script name ≡ true
    → IsSameDirectory old new
    → IsSameDirectory old (elim new [ none ↦ none | some l ↦ some (set_mode name l) ])
IsSameDirectory-set_mode name none none shell h = tt
IsSameDirectory-set_mode name none (some new) shell h = absurd h
IsSameDirectory-set_mode name (some old) none shell h = absurd h
IsSameDirectory-set_mode name (some old) (some new) shell h =
    AreSameScripts-set_mode name old new shell h

-- A call whose effect keeps the project, and which may raise.
module _ (P : Project → Type 0) (f : Project → Project) (effect : (p : Project) → P p → P (f p))
    (calls : (p : Project) (l : List CallOutcome) → P p → P (record p { schedule = l })) where
  answer-Keeps : (l : List CallOutcome) → Keeps P (answer l f)
  unfolding modify pure ◌>>=◌
  answer-Keeps [] = record { at = λ p h. effect p h }
  answer-Keeps (done ∷ rest) = record { at = λ p h. effect _ (calls p rest h) }
  answer-Keeps (raises e ∷ rest) = record { at = λ p h. calls p rest h }
  answer-Keeps (raises_late e ∷ rest) = record { at = λ p h. effect _ (calls p rest h) }

  pub call-Keeps : Keeps P (call f)
  unfolding call
  call-Keeps = record { at = λ p h. (answer-Keeps p.schedule).at p h }
