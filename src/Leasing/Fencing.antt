-- ===== src/Leasing/Fencing.antt =====
-- A runner that does not own a job, or whose lease has passed, cannot change it.
use issueq.Prelude.{
  String, ◌≡◌, Bool, true, false, not, Option, none, some, ◌&&◌, if◌then◌else◌, str_eq, get_or,
  Option-cases, inl, inr,
}
use issueq.Sql.{before_time}
use issueq.Model.{Time, is_running, JobFinalize}
use issueq.Store.{JobRow, Db, StoreError, not_owner, lost_lease, Result, err}
use issueq.Store.Owned.{find_job, assert_row_owned, assert_job_owned_tx}
use issueq.Store.Tx.{Tx, pure, abort, ◌>>=◌, ◌>>◌, transaction}
use issueq.Store.Attempts.{AttemptKey, increment_attempts_for_job, increment_transitions_for_job}
use issueq.Store.Finalize.{finalize_job_owned}

-- Why a runner may not change a job: it is not running under the runner, or the lease has passed.
abbrev pub refusal : String → Time → Option JobRow → Option StoreError
refusal instance at none = some not_owner
refusal instance at (some r) =
    if not (is_running r.status && str_eq (get_or r.runner_instance_id "") instance)
    then some not_owner
    else if before_time r.lease_until at
    then some lost_lease
    else none

the_error : {x y : StoreError} → some x ≡ some y → ◌≡◌ {A = Result (Unit {0} × Db)} (err x) (err y)
the_error h = cc

refused :
    (a b : Bool) (db : Db) {x : StoreError}
    → (if not a then some not_owner else if b then some lost_lease else none) ≡ some x
    → (if not a then abort not_owner else if b then abort lost_lease else pure tt) db ≡ err x
refused false b db h = the_error h
refused true true db h = the_error h
refused true false db h = absurd cc

assert_row_owned-refusal :
    (instance : String) (at : Time) (r : JobRow) (db : Db) {x : StoreError}
    → refusal instance at (some r) ≡ some x
    → assert_row_owned instance at r db ≡ err x
unfolding assert_row_owned
assert_row_owned-refusal instance at r db h =
    refused (is_running r.status && str_eq (get_or r.runner_instance_id "") instance)
      (before_time r.lease_until at) db h

assert_job_owned_tx-refusal :
    (job_id instance : String) (at : Time) (db : Db) {x : StoreError}
    → refusal instance at (find_job job_id db) ≡ some x
    → assert_job_owned_tx job_id instance at db ≡ err x
unfolding assert_job_owned_tx
assert_job_owned_tx-refusal job_id instance at db h = elim (Option-cases (find_job job_id db)) [
  | inl e ↦ rw (e, assert_job_owned_tx) (the_error (rw e at h))
  | inr (r, e) ↦ rw (e, assert_job_owned_tx) (assert_row_owned-refusal instance at r db (rw e at h))
]

aborts :
    {A : Type 0} (m : Tx (Unit {0})) (k : Tx A) (db : Db) {x : StoreError}
    → m db ≡ err x
    → transaction (m >> k) db ≡ (err x, db)
aborts m k db h = rw (h, ◌>>=◌, transaction)

-- A runner that may not change a job, because the job does not run under it or its lease has passed,
-- is told so by each call that counts an attempt, counts a transition or ends the job, and the call
-- leaves the tables as they were.
pub owned_calls-fenced :
    (job_id instance : String) (db : Db) {x : StoreError} (checked_at : Time)
    → refusal instance checked_at (find_job job_id db) ≡ some x
    → ((k : AttemptKey) (counted_at now : Time)
        → increment_attempts_for_job job_id instance k checked_at counted_at now db ≡ (err x, db))
      × ((issue_key : String) (now : Time)
          → increment_transitions_for_job job_id instance issue_key checked_at now db ≡ (err x, db))
      × ((result : JobFinalize) (finished_at reversed_at now : Time)
          → finalize_job_owned job_id instance result
              (record {
                finished_at = finished_at;
                checked_at = checked_at;
                reversed_at = reversed_at;
                now = now;
              })
              db
            ≡ (err x, db))
unfolding increment_attempts_for_job increment_transitions_for_job finalize_job_owned
owned_calls-fenced job_id instance db checked_at h =
    let stops = assert_job_owned_tx-refusal job_id instance checked_at db h in
    (
      (λ k counted_at now. aborts (assert_job_owned_tx job_id instance checked_at) _ db stops),
      (λ issue_key now. aborts (assert_job_owned_tx job_id instance checked_at) _ db stops),
      (λ result finished_at reversed_at now.
          aborts (assert_job_owned_tx job_id instance checked_at) _ db stops),
    )
