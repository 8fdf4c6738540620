-- ===== src/Store/Launch.antt =====
-- sqlite.go: `PersistLaunchSpecOwned`, `MarkJobLaunchingOwned`, `PersistLaunchRecordOwned` and the
-- checks of their records.
use issueq.Prelude.{String, Bool, true, false, Option, none, some, ◌&&◌, if◌then◌else◌, str_eq}
use issueq.Sql.{col_eq, keep_if_empty, coalesce, null_time}
use issueq.Model.{Time, LaunchState, preparing, launching, is_zero, LaunchSpecRecord, LaunchRecord}
use issueq.Store.{JobRow, Op, fail}
use issueq.Store.Owned.{is_owned, exec_owned}
use issueq.Store.Leases.{is_preparing}

-- The message of the first check that fails.
unfoldable pub validate_launch_spec_record : LaunchSpecRecord → Option String
validate_launch_spec_record l =
    if str_eq l.supervisor_kind ""
    then some "supervisor kind is required"
    else if str_eq l.launch_token ""
    then some "launch token is required"
    else if str_eq l.launch_spec_path ""
    then some "launch spec path is required"
    else if str_eq l.run_metadata_path ""
    then some "run metadata path is required"
    else if is_zero l.timeout_at
    then some "timeout_at is required"
    else none

unfoldable pub launch_spec_row : LaunchSpecRecord → Time → JobRow → JobRow
launch_spec_row l now r = record r {
  supervisor_kind = some l.supervisor_kind;
  launch_token = some l.launch_token;
  launch_state = some preparing;
  launch_spec_path = some l.launch_spec_path;
  context_path = some l.context_path;
  result_path = some l.result_path;
  stdout_path = some l.stdout_path;
  stderr_path = some l.stderr_path;
  run_metadata_path = some l.run_metadata_path;
  timeout_at = some l.timeout_at;
  updated_at = now;
}

unfoldable pub persist_launch_spec_owned :
    String → String → LaunchSpecRecord → Time → Time → Op (Unit {0})
unfolding validate_launch_spec_record launch_spec_row exec_owned
persist_launch_spec_owned job_id instance l now checked_at db =
    elim (validate_launch_spec_record l) [
      | some message ↦ fail message db
      | none ↦
          exec_owned job_id instance checked_at
            (λ r. is_owned job_id instance now r && is_preparing r.launch_state)
            (launch_spec_row l now) db
    ]

abbrev pub launching_row : Time → JobRow → JobRow
launching_row now r = record r { launch_state = some launching; updated_at = now }

unfoldable pub mark_job_launching_owned : String → String → String → Time → Time → Op (Unit {0})
unfolding exec_owned
mark_job_launching_owned job_id instance token now checked_at =
    exec_owned job_id instance checked_at
      (λ r.
        is_owned job_id instance now r
        && col_eq r.launch_token token
        && is_preparing r.launch_state)
      (launching_row now)

unfoldable pub validate_launch_record : LaunchRecord → Option String
validate_launch_record l =
    if str_eq l.supervisor_kind ""
    then some "supervisor kind is required"
    else if str_eq l.supervisor_id "" && str_eq l.run_metadata_path ""
    then some "supervisor id or run metadata path is required"
    else if str_eq l.launch_token ""
    then some "launch token is required"
    else none

unfoldable pub launch_record_row : LaunchRecord → Time → JobRow → JobRow
launch_record_row l now r = record r {
  supervisor_kind = keep_if_empty l.supervisor_kind r.supervisor_kind;
  supervisor_id = some l.supervisor_id;
  launch_token = keep_if_empty l.launch_token r.launch_token;
  launch_state = some LaunchState.running;
  pid = some l.pid;
  pgid = some l.pgid;
  process_started_at = coalesce (null_time l.process_started_at) r.process_started_at;
  run_metadata_path = keep_if_empty l.run_metadata_path r.run_metadata_path;
  launch_spec_path = keep_if_empty l.launch_spec_path r.launch_spec_path;
  context_path = keep_if_empty l.context_path r.context_path;
  result_path = keep_if_empty l.result_path r.result_path;
  stdout_path = keep_if_empty l.stdout_path r.stdout_path;
  stderr_path = keep_if_empty l.stderr_path r.stderr_path;
  timeout_at = coalesce (null_time l.timeout_at) r.timeout_at;
  updated_at = now;
}

abbrev pub is_launching : Option LaunchState → Bool
is_launching (some LaunchState.launching) = true
is_launching _ = false

unfoldable pub persist_launch_record_owned :
    String → String → LaunchRecord → Time → Time → Op (Unit {0})
unfolding validate_launch_record launch_record_row exec_owned
persist_launch_record_owned job_id instance l now checked_at db = elim (validate_launch_record l) [
  | some message ↦ fail message db
  | none ↦
      exec_owned job_id instance checked_at
        (λ r.
          is_owned job_id instance now r
          && col_eq r.launch_token l.launch_token
          && is_launching r.launch_state)
        (launch_record_row l now) db
]
