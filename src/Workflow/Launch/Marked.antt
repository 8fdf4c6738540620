-- ===== src/Workflow/Launch/Marked.antt =====
-- What the tables have of a job when its run is started.
use issueq.Prelude.{
  ◌≤◌, String, ◌≡◌, Bool, true, false, ◌==◌, ◌&&◌, arith, Bool-cases, Option-cases, inl, inr,
  if◌then◌else◌,
}
use issueq.Sql.{count_where, col_eq}
use issueq.Sql.Laws.{count_where-update_meets}
use issueq.Model.{Time, is_running}
use issueq.Supervisor.{LaunchSpec}
use issueq.Store.{JobRow, Db, StoreError, Result, ok, err}
use issueq.Store.Owned.{has_id, is_owned, exec_owned, ownership_error, find_job, update_jobs}
use issueq.Store.Launch.{is_launching, mark_job_launching_owned, launching_row}
use issueq.Store.Leases.{is_preparing}

-- The row of a job that runs under the instance and is being launched with the token.
abbrev pub is_marked : String → LaunchSpec → JobRow → Bool
is_marked instance spec r =
    has_id spec.job_id r
    && col_eq r.runner_instance_id instance
    && is_running r.status
    && col_eq r.launch_token spec.launch_token
    && is_launching r.launch_state

abbrev pub HasMarked : String → LaunchSpec → Db → Type 0
HasMarked instance spec db = 1 ≤ count_where (is_marked instance spec) db.jobs

abbrev pub OnOk : (Db → Type 0) → Result (Unit {0}) × Db → Type 0
OnOk Q (ok _, db) = Q db
OnOk Q (err x, db) = Unit

module _ (spec : LaunchSpec) (instance : String) (now checked_at : Time) where
  refused-OnOk :
      (b : Bool) (x y : StoreError) (db : Db)
      → OnOk (HasMarked instance spec) (if b then (err x, db) else (err y, db))
  refused-OnOk true x y db = tt
  refused-OnOk false x y db = tt

  ownership_error-OnOk :
      (db : Db)
      → OnOk (HasMarked instance spec) (ownership_error spec.job_id instance checked_at db)
  unfolding ownership_error
  ownership_error-OnOk db = elim (Option-cases (find_job spec.job_id db)) [
    | inl e ↦ rw (e, ownership_error) tt
    | inr (r, e) ↦ rw (e, ownership_error) (refused-OnOk _ _ _ db)
  ]

  is_preparing_row : JobRow → Bool
  is_preparing_row r =
      is_owned spec.job_id instance now r
      && col_eq r.launch_token spec.launch_token
      && is_preparing r.launch_state

  marks :
      (r : JobRow)
      → is_preparing_row r ≡ true
      → is_marked instance spec (launching_row now r) ≡ true
  unfolding is_preparing_row
  marks r h = ground arith

  pub mark_job_launching_owned-OnOk :
      (db : Db)
      → OnOk
          (HasMarked instance spec)
          (mark_job_launching_owned spec.job_id instance spec.launch_token now checked_at db)
  unfolding mark_job_launching_owned exec_owned is_preparing_row
  mark_job_launching_owned-OnOk db = elim (Bool-cases (count_where is_preparing_row db.jobs == 1)) [
    | inl e ↦
        let meets =
          count_where-update_meets (is_marked instance spec) is_preparing_row (launching_row now)
            marks db.jobs in
        let at : HasMarked instance spec (update_jobs is_preparing_row (launching_row now) db) =
          ground arith in
        rw e at
    | inr e ↦ rw e (ownership_error-OnOk (update_jobs is_preparing_row (launching_row now) db))
  ]
