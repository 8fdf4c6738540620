-- ===== src/Store/Owned.antt =====
-- sqlite.go: `execOwned`, `ownershipError`, `assertJobOwnedTx`, `AssertJobOwned`, `jobByID`. Each
-- reading of the clock is an argument.
use issueq.Prelude.{
  String, Bool, not, Option, none, some, ◌&&◌, if◌then◌else◌, ◌==◌, str_eq, get_or,
}
use issueq.Sql.{update_where, count_where, first_where, col_eq, before_time}
use issueq.Model.{Time, is_running, Job}
use issueq.Store.{JobRow, Db, not_owner, lost_lease, no_rows, Result, ok, err, Op}
use issueq.Store.Scan.{scan_job}
use issueq.Store.Tx.{Tx, pure, abort, transaction}

-- `id = ?`
abbrev pub has_id : String → JobRow → Bool
has_id job_id r = str_eq r.id job_id

-- `SELECT … FROM jobs WHERE id = ?`
abbrev pub find_job : String → Db → Option JobRow
find_job job_id db = first_where (has_id job_id) db.jobs

-- `id = ? AND runner_instance_id = ? AND status = 'running' AND (lease_until IS NULL OR
-- lease_until >= ?)`, the condition of every owned update.
abbrev pub is_owned : String → String → Time → JobRow → Bool
is_owned job_id instance now r =
    has_id job_id r
    && col_eq r.runner_instance_id instance
    && is_running r.status
    && not (before_time r.lease_until now)

-- `UPDATE jobs SET … WHERE …`
abbrev pub update_jobs : (JobRow → Bool) → (JobRow → JobRow) → Db → Db
update_jobs p f db = record db { jobs = update_where p f db.jobs }

-- The row that the error is about: `Valid`, `String` and `Before` of the columns read.
abbrev pub lease_passed : Option Time → Time → Bool
lease_passed = before_time

unfoldable pub ownership_error : String → String → Time → Op (Unit {0})
unfolding first_where
ownership_error job_id instance checked_at db = elim (find_job job_id db) [
  | none ↦ (err not_owner, db)
  | some r ↦
      if is_running r.status
        && str_eq (get_or r.runner_instance_id "") instance
        && lease_passed r.lease_until checked_at
      then (err lost_lease, db)
      else (err not_owner, db)
]

-- The update is one statement outside a transaction, so it stands whatever it affected.
unfoldable pub exec_owned :
    String → String → Time → (JobRow → Bool) → (JobRow → JobRow) → Op (Unit {0})
unfolding ownership_error update_where count_where
exec_owned job_id instance checked_at p f db =
    if count_where p db.jobs == 1
    then (ok tt, update_jobs p f db)
    else ownership_error job_id instance checked_at (update_jobs p f db)

unfoldable pub assert_row_owned : String → Time → JobRow → Tx (Unit {0})
assert_row_owned instance checked_at r =
    if not (is_running r.status && str_eq (get_or r.runner_instance_id "") instance)
    then abort not_owner
    else if lease_passed r.lease_until checked_at
    then abort lost_lease
    else pure tt

unfoldable pub assert_job_owned_tx : String → String → Time → Tx (Unit {0})
unfolding first_where assert_row_owned
assert_job_owned_tx job_id instance checked_at db = elim (find_job job_id db) [
  | none ↦ err not_owner
  | some r ↦ assert_row_owned instance checked_at r db
]

unfoldable pub assert_job_owned : String → String → Time → Op (Unit {0})
unfolding assert_job_owned_tx
assert_job_owned job_id instance checked_at =
    transaction (assert_job_owned_tx job_id instance checked_at)

unfoldable pub job_by_id : String → Db → Result Job
unfolding first_where scan_job
job_by_id job_id db = elim (find_job job_id db) [ none ↦ err no_rows | some r ↦ ok (scan_job r) ]
