-- ===== src/PostGeneration.antt =====
-- _tasks.py: what is done to a project once it is generated from the template.
pub mod Untouched
pub mod Kept
pub mod Ended
use worker_template.Prelude.{
  ℕ, zero, suc, ◌+◌, String, Bool, true, false, not, ◌&&◌, ◌||◌, Option, none, some, is_some, List,
  [], ◌∷◌, ◌++◌, map, str_eq, ◌==◌, if◌then◌else◌,
}
use Prim.Native.Char.{Char, code}
use worker_template.Text.{◌+++◌, str_nat}
use worker_template.Exec.{Exec, pure, raise, failure, gets, modify, ◌>>=◌, ◌>>◌}

-- An entry of `scripts/`, with its permissions.
pub record Script : Type 0 where
  pub name : String
  pub mode : ℕ

-- `CalledProcessError` with its text and what the process wrote to `stderr`, or another exception.
pub data CallError : Type 0 where
  called_process : String → String → CallError
  other_error : String → CallError

-- How a call of the file system or of a process ends: it takes effect, or it raises, without effect or
-- after it.
pub data CallOutcome : Type 0 where
  done : CallOutcome
  raises raises_late : CallError → CallOutcome

pub data Line : Type 0 where
  step success error_line warning plain : String → Line

-- The generated project: the entries of `scripts/` in their order, if it is a directory; the texts of
-- `dotenv.example` and of `.env`, if they exist; what `shutil.which("uv")` finds, and whether the
-- dependencies were installed; what was printed; and how the calls to come end, with none left they
-- take effect.
pub record Project : Type 0 where
  pub scripts : Option (List Script)
  pub env_example : Option String
  pub env_file : Option String
  pub uv_path : Option String
  pub synced : Bool
  pub printed : List Line
  pub schedule : List CallOutcome

abbrev answer : List CallOutcome → (Project → Project) → Exec Project (Option CallError)
answer [] f = modify f >> pure none
answer (done ∷ rest) f = modify (λ p. f (record p { schedule = rest })) >> pure none
answer (raises e ∷ rest) f = modify (λ p. record p { schedule = rest }) >> pure (some e)
answer (raises_late e ∷ rest) f = modify (λ p. f (record p { schedule = rest })) >> pure (some e)

-- What the call raised, if anything.
unfoldable pub call : (Project → Project) → Exec Project (Option CallError)
call f p = answer p.schedule f p

abbrev pub print : List Line → Exec Project (Unit {0})
print lines = modify (λ p. record p { printed = p.printed ++ lines })

abbrev pub call_error_text : CallError → String
call_error_text (called_process text stderr) = text
call_error_text (other_error text) = text

abbrev is_dot : Char → Bool
is_dot c = code c == b'.'

-- What follows the dots that a name starts with.
unfoldable pub undotted : String → String
undotted String.[] = ""
undotted (String.◌∷◌ c s) = let rest = undotted s in if is_dot c then rest else String.◌∷◌ c s

unfoldable pub ends_with_sh : String → Bool
ends_with_sh String.[] = false
ends_with_sh (String.◌∷◌ c s) = let rest = ends_with_sh s in str_eq (String.◌∷◌ c s) ".sh" || rest

-- `script.suffix == ".sh"`: the name ends so after a character that is not a leading dot.
abbrev pub is_shell_script : String → Bool
is_shell_script name = ends_with_sh (undotted name)

-- `0o755`
abbrev pub executable : ℕ
executable = 493

unfoldable pub set_mode : String → List Script → List Script
set_mode name = map (λ s. if str_eq s.name name then record s { mode = executable } else s)

abbrev pub in_scripts : (List Script → List Script) → Project → Project
in_scripts f p = record p { scripts = elim p.scripts [ none ↦ none | some l ↦ some (f l) ] }

-- What `chmod` raises is not caught.
abbrev unless_raised : Option CallError → Exec Project (Unit {0})
unless_raised none = pure tt
unless_raised (some e) = raise (failure (call_error_text e))

unfoldable pub chmod : String → Exec Project (Unit {0})
chmod name = call (in_scripts (set_mode name)) >>= unless_raised

-- One round of the loop over the entries, with the count so far.
unfoldable pub chmod_entry : Script → ℕ → Exec Project ℕ
chmod_entry s count =
    if is_shell_script s.name
    then (do
      chmod s.name
      print (success ("Made executable: scripts/" +++ s.name) ∷ [])
      pure (count + 1))
    else pure count

unfoldable pub chmod_each : List Script → ℕ → Exec Project ℕ
chmod_each [] count = pure count
chmod_each (s ∷ scripts) count = chmod_entry s count >>= chmod_each scripts

abbrev count_line : ℕ → Line
count_line zero = warning "No .sh scripts found in scripts/"
count_line (suc n) = success ("Made " +++ str_nat (suc n) +++ " scripts executable")

unfoldable pub chmod_in : Option (List Script) → Exec Project (Unit {0})
chmod_in none = print (warning "scripts/ directory not found - skipping" ∷ [])
chmod_in (some scripts) = do count ← chmod_each scripts 0; print (count_line count ∷ [])

unfoldable pub make_scripts_executable : Exec Project (Unit {0})
make_scripts_executable = do
  print (step "Step 1/4: Make Scripts Executable" ∷ [])
  scripts ← gets (λ p. p.scripts)
  chmod_in scripts

abbrev after_copy : Option CallError → Exec Project (Unit {0})
after_copy none = print (
    success "Created .env from dotenv.example"
    ∷ warning "IMPORTANT: Edit .env and set DATABASE_URL, RABBITMQ_URL, REDIS_URL"
    ∷ [])
after_copy (some e) =
    print (error_line ("Failed to copy dotenv.example to .env" +++ ": " +++ call_error_text e) ∷ [])

unfoldable pub copy_unless : Option String → Option String → Exec Project (Unit {0})
copy_unless none env_file =
    print (error_line "dotenv.example not found - this shouldn't happen" ∷ [])
copy_unless (some text) (some old) = print (
    warning ".env already exists - skipping copy"
    ∷ warning "If you want fresh defaults, run: cp dotenv.example .env"
    ∷ [])
copy_unless (some text) none = call (λ p. record p { env_file = some text }) >>= after_copy

unfoldable pub copy_env_file : Exec Project (Unit {0})
copy_env_file = do
  print (step "Step 2/4: Environment Configuration" ∷ [])
  example ← gets (λ p. p.env_example)
  env_file ← gets (λ p. p.env_file)
  copy_unless example env_file

abbrev after_sync : Option CallError → Exec Project (Unit {0})
after_sync none = print (success "Dependencies installed successfully" ∷ [])
after_sync (some (called_process text stderr)) = print (
    error_line ("Failed to install dependencies: " +++ text)
    ∷ ((if str_eq stderr "" then [] else plain stderr ∷ [])
        ++ warning "You can manually install later with: uv sync --dev" ∷ []))
after_sync (some (other_error text)) =
    print (error_line ("Unexpected error during uv sync: " +++ text) ∷ [])

unfoldable pub sync_with : Option String → Exec Project (Unit {0})
sync_with none = print (
    warning "uv not found - skipping dependency installation"
    ∷ warning "Install uv: https://docs.astral.sh/uv/"
    ∷ warning "Then run: uv sync --dev"
    ∷ [])
sync_with (some uv_path) = call (λ p. record p { synced = true }) >>= after_sync

unfoldable pub run_uv_sync : Exec Project (Unit {0})
run_uv_sync = do
  print (step "Step 3/4: Install Dependencies" ∷ [])
  uv_path ← gets (λ p. p.uv_path)
  sync_with uv_path

-- The exit code, or what it raises.
unfoldable pub main : Exec Project ℕ
main = do
  print (plain "  Worker Template - Post-Generation Setup" ∷ [])
  make_scripts_executable
  copy_env_file
  run_uv_sync
  print
      (step "Step 4/4: Setup Complete" ∷ plain "Your worker project is ready for development!" ∷ [])
  pure 0
