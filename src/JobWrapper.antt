-- ===== src/JobWrapper.antt =====
-- internal/jobwrapper/spec.go and run.go: the launch spec, the metadata that the wrapper of a job leaves
-- behind, and what a supervisor makes of it. What the operating system answers is a parameter.
pub mod Endings
pub mod Inspect
use issueq.Prelude.{
  ℤ, pos, negsuc, String, Bool, true, false, not, Option, none, some, List, [], ◌∷◌, ◌&&◌, ◌||◌,
  leb_ℤ, ltb_ℤ, if◌then◌else◌, str_eq, append,
}
use issueq.Model.{Time}
use issueq.Supervisor.{RunState, Observation}

pub record Spec : Type 0 where
  pub version : ℤ
  pub job_id : String
  pub launch_token : String
  pub command : List String
  pub env : List String
  pub workdir : String
  pub context_path : String
  pub result_path : String
  pub stdout_path : String
  pub stderr_path : String
  pub metadata_path : String
  pub timeout_seconds : ℤ

pub record Metadata : Type 0 where
  pub version : ℤ
  pub job_id : String
  pub launch_token : String
  pub pid : ℤ
  pub pgid : ℤ
  pub started_at : Time
  pub finished_at : Time
  pub exit_code : ℤ
  pub timed_out : Bool
  pub cancelled : Bool
  pub error : String
  pub context_path : String
  pub result_path : String
  pub stdout_path : String
  pub stderr_path : String

abbrev eq_ℤ : ℤ → ℤ → Bool
eq_ℤ a b = leb_ℤ a b && leb_ℤ b a

abbrev has_no_command : List String → Bool
has_no_command [] = true
has_no_command (c ∷ cs) = str_eq c ""

-- The message of the first check that fails; `decimal` prints a number.
unfoldable pub validate_spec : (ℤ → String) → Spec → Option String
validate_spec decimal s =
    if not (eq_ℤ s.version (pos 1))
    then some (append "unsupported launch spec version " (decimal s.version))
    else if str_eq s.job_id ""
    then some "job_id is required"
    else if str_eq s.launch_token ""
    then some "launch_token is required"
    else if has_no_command s.command
    then some "command is required"
    else if str_eq s.context_path ""
        || str_eq s.result_path ""
        || str_eq s.stdout_path ""
        || str_eq s.stderr_path ""
        || str_eq s.metadata_path ""
    then some "context_path, result_path, stdout_path, stderr_path, and metadata_path are required"
    else if leb_ℤ s.timeout_seconds (pos 0)
    then some "timeout_seconds must be positive"
    else none

abbrev pub unknown_observation : String → Observation
unknown_observation message = record {
  state = RunState.unknown;
  exit_code = pos 0;
  has_exit_code = false;
  error = message;
  started_at = 0;
  finished_at = 0;
  result_path = "";
  stdout_path = "";
  stderr_path = "";
}

abbrev observed : Metadata → RunState → Bool → Observation
observed m state has_exit_code = record {
  state = state;
  exit_code = m.exit_code;
  has_exit_code = has_exit_code;
  error = m.error;
  started_at = m.started_at;
  finished_at = m.finished_at;
  result_path = m.result_path;
  stdout_path = m.stdout_path;
  stderr_path = m.stderr_path;
}

abbrev pub identity_matches : Metadata → String → String → Bool
identity_matches m job_id token =
    (str_eq job_id "" || str_eq m.job_id job_id) && str_eq m.launch_token token

unfoldable pub observation_from_metadata : Metadata → String → String → Observation
observation_from_metadata m job_id token =
    if not (identity_matches m job_id token)
    then unknown_observation "metadata launch identity mismatch"
    else if m.cancelled
    then observed m RunState.cancelled false
    else if m.timed_out
    then observed m RunState.timed_out false
    else if not (str_eq m.error "") && ltb_ℤ m.exit_code (pos 0)
    then observed m RunState.failed false
    else observed m RunState.exited true

-- What the wait for the command returns: no error, an `exec.ExitError` with its code, another error.
pub data WaitResult : Type 0 where
  succeeded : WaitResult
  exit_error : ℤ → String → WaitResult
  wait_error : String → WaitResult

-- Which case of the `select` came first.
pub data Decision : Type 0 where
  wait timeout cancel : Decision

-- How a run goes: an error of a step before the command has started, or the process, the case of the
-- `select` and what the wait returned; and the readings of the clock.
pub data Progress : Type 0 where
  not_started : String → Progress
  ran : ℤ → ℤ → Decision → WaitResult → Progress

abbrev pub fresh_metadata : Spec → Time → Metadata
fresh_metadata spec started = record {
  version = pos 1;
  job_id = spec.job_id;
  launch_token = spec.launch_token;
  pid = pos 0;
  pgid = pos 0;
  started_at = started;
  finished_at = 0;
  exit_code = negsuc 0;
  timed_out = false;
  cancelled = false;
  error = "";
  context_path = spec.context_path;
  result_path = spec.result_path;
  stdout_path = spec.stdout_path;
  stderr_path = spec.stderr_path;
}

abbrev is_timeout : Decision → Bool
is_timeout timeout = true
is_timeout _ = false

abbrev is_cancel : Decision → Bool
is_cancel cancel = true
is_cancel _ = false

-- The error of a run that was not left to its end; `timed_out` is the text with the timeout in it.
abbrev decision_error : String → Decision → String → String
decision_error timed_out wait text = text
decision_error timed_out timeout text = timed_out
decision_error timed_out cancel text = "subprocess cancelled"

abbrev with_wait : String → Decision → WaitResult → Metadata → Metadata
with_wait timed_out d succeeded m = record m { exit_code = pos 0 }
with_wait timed_out d (exit_error code text) m = record m {
  exit_code = code;
  error = decision_error timed_out d text;
}
with_wait timed_out d (wait_error text) m = record m { error = decision_error timed_out d text }

-- A run that was ended from outside has an error in any case.
abbrev with_decision : String → Decision → Metadata → Metadata
with_decision timed_out d m = record m {
  error = if str_eq m.error "" then decision_error timed_out d "" else m.error;
}

-- `Run`: the metadata that it writes. `timed_out` is what `fmt` prints of the timeout.
unfoldable pub run_metadata : String → Spec → Time → Time → Progress → Metadata
run_metadata timed_out spec started finished (not_started message) =
    record (fresh_metadata spec started) { error = message; finished_at = finished }
run_metadata timed_out spec started finished (ran pid pgid d w) = with_decision timed_out d (
    with_wait timed_out d w (record (fresh_metadata spec started) {
      pid = pid;
      pgid = pgid;
      timed_out = is_timeout d;
      cancelled = is_cancel d;
      finished_at = finished;
    }))
