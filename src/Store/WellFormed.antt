-- ===== src/Store/WellFormed.antt =====
-- The invariant of the tables: the keys of each table are unique, and every job is consistent.
pub mod Owned
pub mod Counters
pub mod Leases
pub mod Tables
use issueq.Prelude.{String, ◌≡◌, Bool, true, arith, All}
use issueq.Sql.Laws.{All-update}
use issueq.Sql.Keys.{HasUniqueKeys, HasUniqueKeys-update}
use issueq.Model.{Time}
use issueq.Store.{IssueRow, IssueStateRow, JobRow, HeartbeatRow, HandoffRow, Db}
use issueq.Store.Owned.{update_jobs, exec_owned}
use issueq.Store.Consistent.{IsConsistent}

abbrev pub job_key : JobRow → String
job_key r = r.id

abbrev pub dedupe_of : JobRow → String
dedupe_of r = r.dedupe_key

abbrev pub issue_of : IssueRow → String
issue_of r = r.issue_key

abbrev pub state_of : IssueStateRow → String
state_of r = r.issue_key

abbrev pub instance_of : HeartbeatRow → String
instance_of r = r.runner_instance_id

abbrev pub handoff_of : HandoffRow → String
handoff_of r = r.id

pub record IsWellFormed (db : Db) : Type 0 where
  pub issue_keys : HasUniqueKeys issue_of db.issues
  pub state_keys : HasUniqueKeys state_of db.issue_state
  pub job_keys : HasUniqueKeys job_key db.jobs
  pub dedupe_keys : HasUniqueKeys dedupe_of db.jobs
  pub beat_keys : HasUniqueKeys instance_of db.runner_heartbeats
  pub handoff_keys : HasUniqueKeys handoff_of db.handoffs
  pub consistent : All IsConsistent db.jobs

-- An update of jobs that keeps both keys, and keeps each row that it changes consistent.
pub update_jobs-IsWellFormed :
    (p : JobRow → Bool) (f : JobRow → JobRow)
    → ((r : JobRow) → (f r).id ≡ r.id)
    → ((r : JobRow) → (f r).dedupe_key ≡ r.dedupe_key)
    → ((r : JobRow) → p r ≡ true → IsConsistent r → IsConsistent (f r))
    → (db : Db) → IsWellFormed db
    → IsWellFormed (update_jobs p f db)
update_jobs-IsWellFormed p f same_id same_key keep db w = record {
  issue_keys = w.issue_keys;
  state_keys = w.state_keys;
  job_keys = HasUniqueKeys-update job_key p f (λ r _. same_id r) db.jobs w.job_keys;
  dedupe_keys = HasUniqueKeys-update dedupe_of p f (λ r _. same_key r) db.jobs w.dedupe_keys;
  beat_keys = w.beat_keys;
  handoff_keys = w.handoff_keys;
  consistent = All-update IsConsistent p f keep db.jobs w.consistent;
}

-- The tables after an owned update are those after its one statement, whatever it returns.
pub exec_owned_tables :
    (job_id instance : String) (t : Time) (p : JobRow → Bool) (f : JobRow → JobRow) (db : Db)
    → (exec_owned job_id instance t p f db).1 ≡ update_jobs p f db
unfolding exec_owned
exec_owned_tables job_id instance t p f db = ground arith
