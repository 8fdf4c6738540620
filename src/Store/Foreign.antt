-- ===== src/Store/Foreign.antt =====
-- The calls of the store for a job that does not run under the caller's instance.
use issueq.Prelude.{
  String, ap, str_eq, ◌≡◌, ◌∙◌, refl, Bool, false, some, ◌&&◌, arith, Bool-cases, Option-cases, inl,
  inr, leb_ℤ, pos, get_or,
}
use issueq.Sql.Laws.{first_where-update}
use issueq.Model.{Time, is_running}
use issueq.Store.{JobRow, Db, not_owner}
use issueq.Store.Owned.{has_id, update_jobs, find_job, is_owned, exec_owned, ownership_error}
use issueq.Store.Leases.{renew_job_lease}
use issueq.Store.Launch.{
  persist_launch_spec_owned, mark_job_launching_owned, persist_launch_record_owned,
  validate_launch_spec_record, validate_launch_record, launch_spec_row, launch_record_row,
}
use issueq.Store.Steps.{
  JobStep, puts_issue, renews_own, prepares_own, launches_own, records_own, counts_own_attempt,
  counts_own_transition, finalizes_own, logs_event,
}
use issueq.Store.Issues.{upsert_issue}
use issueq.Store.Queue.{insert_job_event}
use issueq.Leasing.Fencing.{refusal, owned_calls-fenced}

abbrev pub runs_under : String → JobRow → Bool
runs_under instance r = is_running r.status && str_eq (get_or r.runner_instance_id "") instance

module _ (job_id instance : String) (r : JobRow) (foreign : runs_under instance r ≡ false) where
  update_jobs-foreign :
      (p : JobRow → Bool) (f : JobRow → JobRow)
      → (p r ≡ false)
      → ((s : JobRow) → (f s).id ≡ s.id)
      → (db : Db) → find_job job_id db ≡ some r
      → find_job job_id (update_jobs p f db) ≡ some r
  update_jobs-foreign p f spared same db h =
      first_where-update (has_id job_id) p f (λ s _. ap (λ i. str_eq i job_id) (same s)) db.jobs
      ∙ rw h (rw spared refl)

  exec_owned-foreign :
      (t : Time) (p : JobRow → Bool) (f : JobRow → JobRow)
      → (p r ≡ false)
      → ((s : JobRow) → (f s).id ≡ s.id)
      → (db : Db) → find_job job_id db ≡ some r
      → find_job job_id (exec_owned job_id instance t p f db).1 ≡ some r
  unfolding exec_owned ownership_error
  exec_owned-foreign t p f spared same db h =
      let k = update_jobs-foreign p f spared same db h in ground (arith, k)

  spared_owned : (now : Time) → is_owned job_id instance now r ≡ false
  spared_owned now = elim (Option-cases r.runner_instance_id) [
    | inl e ↦ rw e (ground arith)
    | inr (i, e) ↦ let other = foreign in rw e (ground arith)
  ]

  refused :
      (t : Time) (db : Db)
      → find_job job_id db ≡ some r
      → refusal instance t (find_job job_id db) ≡ some not_owner
  refused t db h = rw h (rw foreign refl)

  pub JobStep-foreign :
      {db db' : Db}
      → JobStep job_id instance db db'
      → find_job job_id db ≡ some r
      → find_job job_id db' ≡ some r
  unfolding upsert_issue insert_job_event renew_job_lease persist_launch_spec_owned
      mark_job_launching_owned persist_launch_record_owned launch_spec_row launch_record_row
  JobStep-foreign {db} (puts_issue i now) h = h
  JobStep-foreign {db} (logs_event id e now) h = ground arith
  JobStep-foreign {db} (renews_own d now t) h = elim (Bool-cases (leb_ℤ d (pos 0))) [
    | inl e ↦ rw e h
    | inr e ↦ rw e (exec_owned-foreign t _ _ (spared_owned now) (λ s. refl) db h)
  ]
  JobStep-foreign {db} (prepares_own l now t) h =
      let spared = spared_owned now in
      elim (Option-cases (validate_launch_spec_record l)) [
        | inl e ↦
            rw (e, persist_launch_spec_owned)
              (exec_owned-foreign t _ _ (ground arith) (λ s. refl) db h)
        | inr (m, e) ↦ rw (e, persist_launch_spec_owned) h
      ]
  JobStep-foreign {db} (launches_own token now t) h =
      let spared = spared_owned now in exec_owned-foreign t _ _ (ground arith) (λ s. refl) db h
  JobStep-foreign {db} (records_own l now t) h =
      let spared = spared_owned now in
      elim (Option-cases (validate_launch_record l)) [
        | inl e ↦
            rw (e, persist_launch_record_owned)
              (exec_owned-foreign t _ _ (ground arith) (λ s. refl) db h)
        | inr (m, e) ↦ rw (e, persist_launch_record_owned) h
      ]
  JobStep-foreign {db} (counts_own_attempt k t₁ t₂ now) h =
      let (attempts, _, _) = owned_calls-fenced job_id instance db t₁ (refused t₁ db h) in
      ap (λ out. find_job job_id out.1) (attempts k t₂ now) ∙ h
  JobStep-foreign {db} (counts_own_transition key t now) h =
      let (_, transitions, _) = owned_calls-fenced job_id instance db t (refused t db h) in
      ap (λ out. find_job job_id out.1) (transitions key now) ∙ h
  JobStep-foreign {db} (finalizes_own result clock k) h =
      let (_, _, ends) =
        owned_calls-fenced job_id instance db clock.checked_at (refused clock.checked_at db h) in
      ap (λ out. find_job job_id out.1) (ends result clock.finished_at clock.reversed_at clock.now)
      ∙ h
