-- ===== src/Store/Stale.antt =====
-- sqlite.go: `ListStaleDurableRunningJobs`, `AdoptStaleRunningJob`, `MarkStaleRunningJobUnknown`.
use issueq.Prelude.{
  ℤ, pos, String, Bool, true, false, not, Option, some, List, map, ◌&&◌, ◌||◌, if◌then◌else◌, ltb,
  leb, ◌==◌, leb_ℤ, add_duration, str_eq, str_leb, is_blank, get_or,
}
use issueq.Sql.{
  update_where, count_where, select_where, order_by, insert_by, is_empty, col_eq, before_time,
}
use issueq.Model.{Time, LaunchState, unknown, is_running, Job, RunnerIdentity}
use issueq.Store.{JobRow, Db, not_owner, ok, err, Op, fail}
use issueq.Store.Scan.{scan_job}
use issueq.Store.Owned.{has_id, update_jobs, job_by_id}
use issueq.Store.Leases.{owner_is_gone}

-- `launch_state != 'preparing' AND launch_state != 'unknown'`, which NULL does not meet.
abbrev pub was_launched : Option LaunchState → Bool
was_launched (some LaunchState.launching) = true
was_launched (some LaunchState.running) = true
was_launched _ = false

-- What the three statements ask of the columns of a durable launch.
unfoldable pub is_durable : JobRow → Bool
is_durable r =
    was_launched r.launch_state
    && not (is_empty r.supervisor_kind)
    && not (is_empty r.launch_token)
    && (not (is_empty r.supervisor_id) || not (is_empty r.run_metadata_path))

unfoldable pub is_stale_durable : Time → Time → Db → JobRow → Bool
unfolding is_durable owner_is_gone
is_stale_durable now stale_before db r =
    is_running r.status
    && before_time r.lease_until now
    && is_durable r
    && owner_is_gone stale_before db r

-- `ORDER BY lease_until ASC, id ASC`, over rows whose lease is not NULL
unfoldable pub lease_order : JobRow → JobRow → Bool
lease_order a b =
    let s = get_or a.lease_until 0 in
    let t = get_or b.lease_until 0 in
    if ltb s t then true else if ltb t s then false else str_leb a.id b.id

unfoldable pub list_stale_durable_running_jobs : Time → Time → Db → List Job
unfolding is_stale_durable lease_order select_where order_by insert_by scan_job
list_stale_durable_running_jobs now stale_before db =
    map scan_job
      (order_by lease_order (select_where (is_stale_durable now stale_before db) db.jobs))

-- `EXISTS (SELECT 1 FROM runner_heartbeats h WHERE h.runner_instance_id = ? AND h.heartbeat_at >= ?)`
unfoldable pub has_fresh_beat : String → Time → Db → Bool
unfolding count_where
has_fresh_beat instance stale_before db = not (
    count_where (λ h. str_eq h.runner_instance_id instance && leb stale_before h.heartbeat_at)
      db.runner_heartbeats
    == 0)

-- The WHERE clause that the two updates share.
unfoldable pub can_take_over : String → String → Time → Time → Db → JobRow → Bool
unfolding is_durable has_fresh_beat
can_take_over job_id old_instance now stale_before db r =
    has_id job_id r
    && is_running r.status
    && col_eq r.runner_instance_id old_instance
    && before_time r.lease_until now
    && is_durable r
    && not (has_fresh_beat old_instance stale_before db)

abbrev pub adopted_row : RunnerIdentity → Time → Time → JobRow → JobRow
adopted_row identity lease_until now r = record r {
  locked_by = some identity.runner_id;
  runner_instance_id = some identity.instance_id;
  lease_until = some lease_until;
  updated_at = now;
}

unfoldable pub adopt_stale_running_job : String → String → RunnerIdentity → ℤ → Time → Time → Op Job
unfolding can_take_over update_where count_where job_by_id
adopt_stale_running_job job_id old_instance identity lease_duration now stale_before db =
    if is_blank identity.runner_id
    then fail "runner id is required" db
    else if is_blank identity.instance_id
    then fail "runner instance id is required" db
    else if leb_ℤ lease_duration (pos 0)
    then fail "lease duration must be positive" db
    else let p = can_take_over job_id old_instance now stale_before db in
      let db' = update_jobs p (adopted_row identity (add_duration now lease_duration) now) db in
      if count_where p db.jobs == 0 then (err not_owner, db') else (job_by_id job_id db', db')

abbrev pub unknown_row : Time → JobRow → JobRow
unknown_row now r = record r { launch_state = some unknown; updated_at = now }

unfoldable pub mark_stale_running_job_unknown : String → String → Time → Time → Op (Unit {0})
unfolding can_take_over update_where count_where
mark_stale_running_job_unknown job_id old_instance now stale_before db =
    let p = can_take_over job_id old_instance now stale_before db in
    let db' = update_jobs p (unknown_row now) db in
    if count_where p db.jobs == 0 then (err not_owner, db') else (ok tt, db')
