-- ===== src/Store/Leases.antt =====
-- sqlite.go: `RenewJobLease` and `ReleaseExpiredLeases`.
use issueq.Prelude.{
  ℕ, ℤ, pos, ◌+◌, String, Bool, true, false, not, Option, none, some, List, [], ◌∷◌, map, ◌&&◌,
  ◌||◌, if◌then◌else◌, ltb, leb_ℤ, add_duration, str_eq, get_or, contains,
}
use issueq.Sql.{update_where, count_where, select_where, first_where, is_empty, before_time}
use issueq.Model.{Time, JobStatus, LaunchState, is_running}
use issueq.Store.{JobRow, HeartbeatRow, Db, ok, Op, fail}
use issueq.Store.Owned.{has_id, is_owned, update_jobs, exec_owned}

abbrev pub renewed_row : Time → Time → JobRow → JobRow
renewed_row lease_until now r = record r { lease_until = some lease_until; updated_at = now }

unfoldable pub renew_job_lease : String → String → ℤ → Time → Time → Op (Unit {0})
unfolding exec_owned
renew_job_lease job_id instance lease_duration now checked_at db =
    if leb_ℤ lease_duration (pos 0)
    then fail "lease duration must be positive" db
    else exec_owned job_id instance checked_at (is_owned job_id instance now)
        (renewed_row (add_duration now lease_duration) now) db

-- The row that `LEFT JOIN runner_heartbeats h ON h.runner_instance_id = …` joins: the column is the
-- primary key of that table, and NULL joins nothing.
unfoldable pub heartbeat_of : Option String → Db → Option HeartbeatRow
unfolding first_where
heartbeat_of none db = none
heartbeat_of (some instance) db =
    first_where (λ h. str_eq h.runner_instance_id instance) db.runner_heartbeats

-- `h.runner_instance_id IS NULL OR h.heartbeat_at < ?`
abbrev pub beat_is_stale : Time → Option HeartbeatRow → Bool
beat_is_stale stale_before none = true
beat_is_stale stale_before (some h) = ltb h.heartbeat_at stale_before

-- The owner is unknown, or has not been heard of since `stale_before`.
unfoldable pub owner_is_gone : Time → Db → JobRow → Bool
unfolding heartbeat_of
owner_is_gone stale_before db r =
    is_empty r.runner_instance_id
    || beat_is_stale stale_before (heartbeat_of r.runner_instance_id db)

abbrev pub is_preparing : Option LaunchState → Bool
is_preparing (some LaunchState.preparing) = true
is_preparing _ = false

-- The WHERE clause of `ReleaseExpiredLeases`: a running job with a passed lease, whose owner is
-- gone, and of which no durable launch is recorded.
unfoldable pub is_expired : Time → Time → Db → JobRow → Bool
unfolding owner_is_gone
is_expired now stale_before db r =
    is_running r.status
    && before_time r.lease_until now
    && owner_is_gone stale_before db r
    && (is_empty r.supervisor_kind || is_empty r.launch_token || is_preparing r.launch_state)

-- The row is skipped if the runner that asks still works on it.
abbrev pub is_active_here : String → List String → JobRow → Bool
is_active_here current active r =
    contains active r.id
    && not (str_eq current "")
    && str_eq (get_or r.runner_instance_id "") current

unfoldable pub expired_ids : Time → Time → String → List String → Db → List String
unfolding select_where is_expired
expired_ids now stale_before current active db =
    map (λ r. r.id)
      (select_where (λ r. not (is_active_here current active r))
        (select_where (is_expired now stale_before db) db.jobs))

unfoldable pub released_row : Time → JobRow → JobRow
released_row now r = record r {
  status = JobStatus.pending;
  locked_by = none;
  runner_instance_id = none;
  lease_until = none;
  pid = none;
  pgid = none;
  supervisor_kind = none;
  supervisor_id = none;
  launch_token = none;
  launch_state = none;
  process_started_at = none;
  run_metadata_path = none;
  launch_spec_path = none;
  timeout_at = none;
  updated_at = now;
  last_error = some "lease expired";
}

-- `WHERE id = ? AND status = 'running'`
abbrev pub still_running : String → JobRow → Bool
still_running job_id r = has_id job_id r && is_running r.status

-- The loop over the ids, which adds up the rows affected.
unfoldable pub release_ids : Time → List String → ℕ → Db → ℕ × Db
unfolding released_row update_where count_where
release_ids now [] updated db = (updated, db)
release_ids now (i ∷ is) updated db =
    release_ids now is (updated + count_where (still_running i) db.jobs)
      (update_jobs (still_running i) (released_row now) db)

unfoldable pub release_expired_leases : Time → Time → String → List String → Op ℕ
unfolding expired_ids release_ids
release_expired_leases now stale_before current active db =
    let (updated, db') = release_ids now (expired_ids now stale_before current active db) 0 db in
    (ok updated, db')
