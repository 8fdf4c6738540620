-- ===== src/Workflow/Launch.antt =====
-- internal/workflow/launch.go: the parts of a launch, and `WriteContext` of internal/runner/runner.go.
pub mod Steps
pub mod Marked
pub mod Safety
use Prim.Native.Char.{code}
use issueq.Prelude.{
  ℕ, String, Bool, true, false, none, some, [], ◌∷◌, ◌==◌, ◌&&◌, ◌||◌, leb, if◌then◌else◌, str_eq,
  append,
}
use issueq.Model
use issueq.Errors.{plain_error}
use issueq.Runner.{Paths, Context}
use issueq.Effects.{Outside, Io, pure, raise, ◌>>=◌, ◌>>◌, request, effect, or_wrapped}

abbrev is_letter_or_digit : ℕ → Bool
is_letter_or_digit c = (leb 48 c && leb c 57) || (leb 65 c && leb c 90) || (leb 97 c && leb c 122)

-- `[A-Za-z0-9_.-]*`
all_token_chars : String → Bool
all_token_chars String.[] = true
all_token_chars (String.◌∷◌ c s) =
    (is_letter_or_digit (code c) || code c == 95 || code c == 46 || code c == 45)
    && all_token_chars s

matches_token_pattern : String → Bool
unfolding all_token_chars
matches_token_pattern String.[] = false
matches_token_pattern (String.◌∷◌ c s) = is_letter_or_digit (code c) && all_token_chars s

module _ (o : Outside) where
  unfoldable pub valid_launch_token : String → Bool
  unfolding matches_token_pattern
  valid_launch_token token = matches_token_pattern token && str_eq (o.base_name token) token

  abbrev checked_token : String → Io String
  checked_token token =
      if valid_launch_token token
      then pure token
      else raise (plain_error (append "invalid launch token " (o.json.quoted token)))

  unfoldable pub launch_token : Io String
  unfolding valid_launch_token
  launch_token = elim o.new_token [
    | some new ↦ request new >>= checked_token
    | none ↦
        or_wrapped "generate launch token" (request o.ulid) >>= λ id. pure (append "launch_" id)
  ]

  unfoldable pub absolute_paths : Paths → Io Paths
  absolute_paths paths = do
    dir ← request (λ n. o.abs n paths.dir)
    context_path ← request (λ n. o.abs n paths.context_path)
    result_path ← request (λ n. o.abs n paths.result_path)
    stdout_path ← request (λ n. o.abs n paths.stdout_path)
    stderr_path ← request (λ n. o.abs n paths.stderr_path)
    pure (record {
      dir = dir;
      context_path = context_path;
      result_path = result_path;
      stdout_path = stdout_path;
      stderr_path = stderr_path;
    })

  unfoldable pub write_context : Paths → Context → Io (Unit {0})
  write_context paths context = do
    or_wrapped "create job workdir" (effect (λ n. o.mkdir_all n paths.dir))
    data' ← or_wrapped "marshal context" (request (λ n. o.marshal_context n context))
    or_wrapped "write context" (effect (λ n. o.write_file n paths.context_path data'))
