-- ===== src/Store/Queue.antt =====
-- sqlite.go: `EnqueueJob`, `jobByDedupeKey`, `ListJobs`, `ListOwnedRunningJobs`, `InsertJobEvent`,
-- `ListJobEvents`. The result of `newID` is an argument.
use issueq.Prelude.{
  String, Bool, true, false, none, some, List, [], ◌∷◌, ◌++◌, map, ◌&&◌, ◌||◌, if◌then◌else◌, ltb,
  ◌==◌, str_eq, str_leb,
}
use issueq.Sql.{select_where, count_where, first_where, order_by, insert_by, col_eq, null_string}
use issueq.Model.{Time, is_zero, JobStatus, is_running, Job, JobCreate, JobEvent}
use issueq.Store.{JobRow, JobEventRow, Db, no_rows, constraint, Result, ok, err, Op}
use issueq.Store.Scan.{scan_job, scan_job_event}
use issueq.Store.Claim.{queue_before}

-- The row that `EnqueueJob` inserts.
unfoldable pub new_job_row : String → JobCreate → Time → JobRow
new_job_row id create now = record {
  id = id;
  issue_key = create.issue_key;
  route_name = create.route_name;
  kind = create.kind;
  status = JobStatus.pending;
  priority = create.priority;
  attempts = 0;
  attempt_generation = 0;
  attempt_scope_hash = none;
  dedupe_key = create.dedupe_key;
  available_at = if is_zero create.available_at then now else create.available_at;
  locked_by = none;
  runner_instance_id = none;
  lease_until = none;
  pid = none;
  pgid = none;
  supervisor_kind = none;
  supervisor_id = none;
  launch_token = none;
  launch_state = none;
  process_started_at = none;
  run_metadata_path = none;
  launch_spec_path = none;
  timeout_at = none;
  context_path = none;
  result_path = none;
  stdout_path = none;
  stderr_path = none;
  created_at = now;
  updated_at = now;
  started_at = none;
  finished_at = none;
  last_error = none;
}

-- A row that `INSERT OR IGNORE` would repeat the primary key or the unique key of.
abbrev pub collides : String → String → JobRow → Bool
collides id dedupe_key r = str_eq r.id id || str_eq r.dedupe_key dedupe_key

abbrev pub has_dedupe_key : String → JobRow → Bool
has_dedupe_key dedupe_key r = str_eq r.dedupe_key dedupe_key

unfoldable pub job_by_dedupe_key : String → Db → Result Job
unfolding first_where scan_job
job_by_dedupe_key dedupe_key db = elim (first_where (has_dedupe_key dedupe_key) db.jobs) [
  | none ↦ err no_rows
  | some r ↦ ok (scan_job r)
]

abbrev pub existing_job : Result Job → Result (Job × Bool)
existing_job (ok job) = ok (job, false)
existing_job (err e) = err e

-- The job, and whether it was inserted.
unfoldable pub enqueue_job : String → JobCreate → Time → Op (Job × Bool)
unfolding new_job_row count_where job_by_dedupe_key
enqueue_job id create now db =
    if count_where (collides id create.dedupe_key) db.jobs == 0
    then (
      ok (scan_job (new_job_row id create now), true),
      record db { jobs = db.jobs ++ new_job_row id create now ∷ [] },
    )
    else (existing_job (job_by_dedupe_key create.dedupe_key db), db)

unfoldable pub list_jobs : Db → List Job
unfolding queue_before order_by insert_by scan_job
list_jobs db = map scan_job (order_by queue_before db.jobs)

-- `ORDER BY started_at ASC, id ASC`; NULL sorts first.
unfoldable pub started_before : JobRow → JobRow → Bool
started_before a b = elim a.started_at [
  | none ↦ elim b.started_at [ none ↦ str_leb a.id b.id | some t ↦ true ]
  | some s ↦ elim b.started_at [
    | none ↦ false
    | some t ↦ if ltb s t then true else if ltb t s then false else str_leb a.id b.id
  ]
]

abbrev pub runs_for : String → JobRow → Bool
runs_for instance r = is_running r.status && col_eq r.runner_instance_id instance

unfoldable pub list_owned_running_jobs : String → Db → List Job
unfolding started_before select_where order_by insert_by scan_job
list_owned_running_jobs instance db =
    map scan_job (order_by started_before (select_where (runs_for instance) db.jobs))

abbrev pub event_row : JobEvent → JobEventRow
event_row e = record {
  id = e.id;
  job_id = null_string e.job_id;
  issue_key = null_string e.issue_key;
  event_type = e.event_type;
  message = null_string e.message;
  data_json = null_string e.data_json;
  created_at = e.created_at;
}

-- The defaults that `InsertJobEvent` fills in.
abbrev pub filled_event : String → JobEvent → Time → JobEvent
filled_event new_id e now = record e {
  id = if str_eq e.id "" then new_id else e.id;
  created_at = if is_zero e.created_at then now else e.created_at;
}

abbrev pub is_event : String → JobEventRow → Bool
is_event id r = str_eq r.id id

unfoldable pub insert_job_event : String → JobEvent → Time → Op JobEvent
unfolding count_where
insert_job_event new_id event now db =
    let e = filled_event new_id event now in
    if count_where (is_event e.id) db.job_events == 0
    then (ok e, record db { job_events = db.job_events ++ event_row e ∷ [] })
    else (err constraint, db)

-- `ORDER BY created_at ASC, id ASC`
unfoldable pub event_before : JobEventRow → JobEventRow → Bool
event_before a b =
    if ltb a.created_at b.created_at
    then true
    else if ltb b.created_at a.created_at
    then false
    else str_leb a.id b.id

-- `WHERE (? = '' OR job_id = ?)`
unfoldable pub list_job_events : String → Db → List JobEvent
unfolding event_before select_where order_by insert_by scan_job_event
list_job_events job_id db = map scan_job_event (
    order_by event_before
      (select_where (λ r. str_eq job_id "" || col_eq r.job_id job_id) db.job_events))
