-- ===== src/Supervisor.antt =====
-- internal/supervisor/supervisor.go: what a supervisor is asked and what it reports. A supervisor
-- itself is a parameter of the parts that ask it.
use issueq.Prelude.{ℕ, ℤ, String, Bool, List}
use issueq.Model.{Time}

pub record LaunchSpec : Type 0 where
  pub job_id : String
  pub launch_token : String
  pub command : List String
  pub env : List String
  pub workdir : String
  pub context_path : String
  pub result_path : String
  pub stdout_path : String
  pub stderr_path : String
  pub metadata_path : String
  pub timeout : ℤ
  pub spec_path : String

pub record LaunchRecord : Type 0 where
  pub kind : String
  pub id : String
  pub job_id : String
  pub launch_token : String
  pub pid : ℤ
  pub pgid : ℤ
  pub process_started_at : Time
  pub metadata_path : String
  pub started_at : Time
  pub timeout_at : Time

pub data RunState : Type 0 where
  starting running exited failed timed_out cancelled unknown : RunState

pub record Observation : Type 0 where
  pub state : RunState
  pub exit_code : ℤ
  pub has_exit_code : Bool
  pub error : String
  pub started_at : Time
  pub finished_at : Time
  pub result_path : String
  pub stdout_path : String
  pub stderr_path : String

-- The outcome of `Inspect`: what it sees, or an error.
pub data Inspection : Type 0 where
  seen : Observation → Inspection
  inspect_failed : String → Inspection

-- `Inspect`, as the answers to its calls in their order.
abbrev pub Inspector : Type 0
Inspector = ℕ → LaunchRecord → Inspection
