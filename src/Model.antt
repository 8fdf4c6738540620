-- ===== src/Model.antt =====
-- internal/model/model.go: the domain types. A status or a launch state is the constant that the
-- code writes, as a constructor; an absent pointer or an empty launch state is `none`. A
-- `time.Time` is the number of nanoseconds since the zero time, which is 0.
use issueq.Prelude.{ℕ, ℤ, String, Bool, true, false, Option, List, append}

abbrev pub Time : Type 0
Time = ℕ

-- `t.IsZero()`
abbrev pub is_zero : Time → Bool
is_zero ℕ.zero = true
is_zero (ℕ.suc t) = false

pub data JobStatus : Type 0 where
  pending running succeeded failed skipped dead cancelled : JobStatus

pub data GateBlockReason : Type 0 where
  missing_handoff decision_not_allowed next_route_mismatch source_stale target_stale :
      GateBlockReason

pub data LaunchState : Type 0 where
  preparing launching running unknown : LaunchState

abbrev pub is_pending : JobStatus → Bool
is_pending JobStatus.pending = true
is_pending _ = false

abbrev pub is_running : JobStatus → Bool
is_running JobStatus.running = true
is_running _ = false

pub record IssueSnapshot : Type 0 where
  pub issue_key : String
  pub node_id : String
  pub host : String
  pub owner : String
  pub repo : String
  pub number : ℤ
  pub title : String
  pub body : String
  pub labels : List String
  pub state : String
  pub github_updated_at : Time
  pub synced_at : Time

-- `IssueKey`, where `decimal` is `strconv.Itoa`.
unfoldable pub issue_key_text : (ℤ → String) → String → String → String → ℤ → String
issue_key_text decimal host owner repo number =
    append host (append "/" (append owner (append "/" (append repo (append "#" (decimal number))))))

pub record Handoff : Type 0 where
  pub id : String
  pub issue_key : String
  pub route_name : String
  pub decision : String
  pub next_route : String
  pub source_kind : String
  pub source_key : String
  pub source_fingerprint : String
  pub target_kind : String
  pub target_key : String
  pub payload_json : String
  pub created_at : Time

pub record HandoffQuery : Type 0 where
  pub issue_key : String
  pub route_names : List String
  pub decisions : List String
  pub next_route : String
  pub target_kind : String
  pub target_key : String

pub record GateBlock : Type 0 where
  pub issue_key : String
  pub generation : ℕ
  pub route_name : String
  pub reason : String
  pub scope_hash : String
  pub created_at : Time
  pub updated_at : Time

pub record JobCreate : Type 0 where
  pub issue_key : String
  pub route_name : String
  pub kind : String
  pub priority : ℤ
  pub dedupe_key : String
  pub available_at : Time

pub record Job : Type 0 where
  pub id : String
  pub issue_key : String
  pub route_name : String
  pub kind : String
  pub status : JobStatus
  pub priority : ℤ
  pub attempts : ℕ
  pub attempt_generation : ℕ
  pub attempt_scope_hash : String
  pub dedupe_key : String
  pub available_at : Time
  pub locked_by : String
  pub runner_instance_id : String
  pub lease_until : Option Time
  pub pid : ℤ
  pub pgid : ℤ
  pub supervisor_kind : String
  pub supervisor_id : String
  pub launch_token : String
  pub launch_state : Option LaunchState
  pub process_started_at : Option Time
  pub run_metadata_path : String
  pub launch_spec_path : String
  pub context_path : String
  pub result_path : String
  pub stdout_path : String
  pub stderr_path : String
  pub timeout_at : Option Time
  pub created_at : Time
  pub updated_at : Time
  pub started_at : Option Time
  pub finished_at : Option Time
  pub last_error : String

pub record JobEvent : Type 0 where
  pub id : String
  pub job_id : String
  pub issue_key : String
  pub event_type : String
  pub message : String
  pub data_json : String
  pub created_at : Time

pub record RunnerIdentity : Type 0 where
  pub runner_id : String
  pub instance_id : String

pub record LaunchSpecRecord : Type 0 where
  pub supervisor_kind : String
  pub launch_token : String
  pub launch_spec_path : String
  pub context_path : String
  pub result_path : String
  pub stdout_path : String
  pub stderr_path : String
  pub run_metadata_path : String
  pub timeout_at : Time

pub record LaunchRecord : Type 0 where
  pub supervisor_kind : String
  pub supervisor_id : String
  pub launch_token : String
  pub pid : ℤ
  pub pgid : ℤ
  pub process_started_at : Time
  pub run_metadata_path : String
  pub launch_spec_path : String
  pub context_path : String
  pub result_path : String
  pub stdout_path : String
  pub stderr_path : String
  pub timeout_at : Time

pub record JobFinalize : Type 0 where
  pub status : JobStatus
  pub last_error : String
  pub result_path : String
  pub stdout_path : String
  pub stderr_path : String
  pub finished_at : Time
  pub work_started : Option Bool
