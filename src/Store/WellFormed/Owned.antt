-- ===== src/Store/WellFormed/Owned.antt =====
-- The owned updates keep the tables well formed.
use issueq.Prelude.{
  ℤ, String, ◌≡◌, refl, Bool, true, arith, Bool-cases, pos, leb_ℤ, inl, inr, Option-cases,
}
use issueq.Model.{Time, LaunchSpecRecord, LaunchRecord}
use issueq.Store.{JobRow, Db}
use issueq.Store.Owned.{exec_owned}
use issueq.Store.Consistent.{
  IsConsistent, renewed_row-IsConsistent, launch_spec_row-IsConsistent, launching_row-IsConsistent,
  launch_record_row-IsConsistent,
}
use issueq.Store.Leases.{renew_job_lease}
use issueq.Store.Launch.{
  persist_launch_spec_owned, mark_job_launching_owned, persist_launch_record_owned,
  validate_launch_spec_record, validate_launch_record,
}
use issueq.Store.WellFormed.{IsWellFormed, update_jobs-IsWellFormed, exec_owned_tables}

-- An owned update of rows that run keeps the tables well formed, if it keeps such rows consistent.
exec_owned-IsWellFormed :
    (job_id instance : String) (t : Time) (p : JobRow → Bool) (f : JobRow → JobRow)
    → ((r : JobRow) → (f r).id ≡ r.id)
    → ((r : JobRow) → (f r).dedupe_key ≡ r.dedupe_key)
    → ((r : JobRow) → p r ≡ true → IsConsistent r → IsConsistent (f r))
    → (db : Db) → IsWellFormed db
    → IsWellFormed (exec_owned job_id instance t p f db).1
exec_owned-IsWellFormed job_id instance t p f i d keep db w =
    rw (exec_owned_tables job_id instance t p f db) (update_jobs-IsWellFormed p f i d keep db w)

pub renew_job_lease-IsWellFormed :
    (job_id instance : String) (d : ℤ) (now t : Time) (db : Db)
    → IsWellFormed db
    → IsWellFormed (renew_job_lease job_id instance d now t db).1
unfolding renew_job_lease
renew_job_lease-IsWellFormed job_id instance d now t db w = elim (Bool-cases (leb_ℤ d (pos 0))) [
  | inl e ↦ rw e w
  | inr e ↦ rw e (
      exec_owned-IsWellFormed job_id instance t _ _ (λ r. refl) (λ r. refl)
        (λ r q c. renewed_row-IsConsistent _ now r (ground arith) c) db w)
]

pub persist_launch_spec_owned-IsWellFormed :
    (job_id instance : String) (l : LaunchSpecRecord) (now t : Time) (db : Db)
    → IsWellFormed db
    → IsWellFormed (persist_launch_spec_owned job_id instance l now t db).1
unfolding persist_launch_spec_owned
persist_launch_spec_owned-IsWellFormed job_id instance l now t db w =
    elim (Option-cases (validate_launch_spec_record l)) [
      | inl v ↦
          rw (v, persist_launch_spec_owned)
            (exec_owned-IsWellFormed job_id instance t _ _ (λ r. refl) (λ r. refl)
              (λ r q c. launch_spec_row-IsConsistent l now r v (ground arith) c) db w)
      | inr (m, v) ↦ rw (v, persist_launch_spec_owned) w
    ]

pub mark_job_launching_owned-IsWellFormed :
    (job_id instance token : String) (now t : Time) (db : Db)
    → IsWellFormed db
    → IsWellFormed (mark_job_launching_owned job_id instance token now t db).1
unfolding mark_job_launching_owned
mark_job_launching_owned-IsWellFormed job_id instance token now t db w =
    exec_owned-IsWellFormed job_id instance t _ _ (λ r. refl) (λ r. refl)
      (λ r q c. launching_row-IsConsistent now r token (ground arith) (ground arith) c) db w

pub persist_launch_record_owned-IsWellFormed :
    (job_id instance : String) (l : LaunchRecord) (now t : Time) (db : Db)
    → IsWellFormed db
    → IsWellFormed (persist_launch_record_owned job_id instance l now t db).1
unfolding persist_launch_record_owned
persist_launch_record_owned-IsWellFormed job_id instance l now t db w =
    elim (Option-cases (validate_launch_record l)) [
      | inl v ↦
          rw (v, persist_launch_record_owned)
            (exec_owned-IsWellFormed job_id instance t _ _ (λ r. refl) (λ r. refl)
              (λ r q c. launch_record_row-IsConsistent l now r v (ground arith) c) db w)
      | inr (m, v) ↦ rw (v, persist_launch_record_owned) w
    ]
