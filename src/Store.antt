-- ===== src/Store.antt =====
-- internal/store/sqlite/sqlite.go: the tables of internal/store/sqlite/migrations/*.sql, one record
-- for a row, and what the store's methods return. A nullable column is an `Option`. The methods
-- are in the children, one for each part of the store; a call to the driver that fails (disk,
-- cancelled context) is not modelled here, and is a value of the queue's interface in `Workflow`.
pub mod Scan
pub mod Tx
pub mod Owned
pub mod Claim
pub mod Leases
pub mod Stale
pub mod Launch
pub mod Attempts
pub mod Finalize
pub mod Heartbeats
pub mod Issues
pub mod Handoffs
pub mod Gates
pub mod Queue
pub mod Consistent
pub mod WellFormed
pub mod Others
pub mod Foreign
pub mod Steps
use issueq.Prelude.{ℕ, ℤ, String, Option, List}
use issueq.Model.{Time, JobStatus, LaunchState}

pub record IssueRow : Type 0 where
  pub issue_key : String
  pub node_id : String
  pub host : String
  pub owner : String
  pub repo : String
  pub number : ℤ
  pub title : String
  pub body : String
  pub labels_json : List String
  pub state : String
  pub github_updated_at : Time
  pub synced_at : Time

pub record IssueStateRow : Type 0 where
  pub issue_key : String
  pub node_id : String
  pub generation : ℕ
  pub transition_count : ℕ
  pub created_at : Time
  pub updated_at : Time

pub record JobRow : Type 0 where
  pub id : String
  pub issue_key : String
  pub route_name : String
  pub kind : String
  pub status : JobStatus
  pub priority : ℤ
  pub attempts : ℕ
  pub attempt_generation : ℕ
  pub attempt_scope_hash : Option String
  pub dedupe_key : String
  pub available_at : Time
  pub locked_by : Option String
  pub runner_instance_id : Option String
  pub lease_until : Option Time
  pub pid : Option ℤ
  pub pgid : Option ℤ
  pub supervisor_kind : Option String
  pub supervisor_id : Option String
  pub launch_token : Option String
  pub launch_state : Option LaunchState
  pub process_started_at : Option Time
  pub run_metadata_path : Option String
  pub launch_spec_path : Option String
  pub timeout_at : Option Time
  pub context_path : Option String
  pub result_path : Option String
  pub stdout_path : Option String
  pub stderr_path : Option String
  pub created_at : Time
  pub updated_at : Time
  pub started_at : Option Time
  pub finished_at : Option Time
  pub last_error : Option String

pub record RouteAttemptRow : Type 0 where
  pub issue_key : String
  pub generation : ℕ
  pub route_name : String
  pub scope_hash : String
  pub attempts : ℕ
  pub updated_at : Time

pub record HeartbeatRow : Type 0 where
  pub runner_instance_id : String
  pub runner_id : String
  pub pid : ℤ
  pub heartbeat_at : Time
  pub created_at : Time
  pub updated_at : Time

pub record HandoffRow : Type 0 where
  pub id : String
  pub issue_key : String
  pub route_name : String
  pub decision : String
  pub next_route : Option String
  pub source_kind : Option String
  pub source_key : Option String
  pub source_fingerprint : Option String
  pub target_kind : Option String
  pub target_key : Option String
  pub payload_json : String
  pub created_at : Time

pub record GateBlockRow : Type 0 where
  pub issue_key : String
  pub generation : ℕ
  pub route_name : String
  pub reason : String
  pub scope_hash : String
  pub count : ℕ
  pub action_applied_at : Option Time
  pub created_at : Time
  pub updated_at : Time

pub record JobEventRow : Type 0 where
  pub id : String
  pub job_id : Option String
  pub issue_key : Option String
  pub event_type : String
  pub message : Option String
  pub data_json : Option String
  pub created_at : Time

pub record Db : Type 0 where
  pub issues : List IssueRow
  pub issue_state : List IssueStateRow
  pub jobs : List JobRow
  pub route_attempts : List RouteAttemptRow
  pub runner_heartbeats : List HeartbeatRow
  pub handoffs : List HandoffRow
  pub gate_blocks : List GateBlockRow
  pub job_events : List JobEventRow

-- internal/store/store.go has the first two; `no_rows` is `sql.ErrNoRows`, `constraint` a primary
-- key that an INSERT would repeat, and `invalid` a check of
-- the arguments, with its message.
pub data StoreError : Type 0 where
  not_owner lost_lease no_rows constraint : StoreError
  invalid : String → StoreError

pub data Result {ℓ} (A : Type ℓ) : Type ℓ where
  ok : A → Result A
  err : StoreError → Result A

-- A method of the store: its result, and the tables after it.
abbrev pub Op : Type 0 → Type 0
Op A = Db → Result A × Db

-- The outcome of `bool, int, bool, error` and the like is a tuple in `Result`.
abbrev pub fail : {A : Type 0} → String → Op A
fail message db = (err (invalid message), db)
