-- ===== src/Store/Others.antt =====
-- The calls of the store for one job, and the row of another job.
use mathlib.Core.Path.{subst}
use issueq.Prelude.{
  String, ap, str_eq, ◌≡◌, ◌≢◌, refl, sym, ◌∙◌, Bool, true, Option, none, some, arith, Bool-cases,
  Option-cases, inl, inr, ◌==◌, leb_ℤ, pos,
}
use issueq.Prelude.Text.Equal.{same_text}
use issueq.Sql.{count_where}
use issueq.Sql.Laws.{first_where-update, first_where-meets}
use issueq.Model.{Time}
use issueq.Store.{JobRow, Db}
use issueq.Store.Tx.{pure}
use issueq.Store.Tx.Keeps.{
  Keeps, Keeps-transaction, Keeps-bind, Keeps-if, Keeps-pure, Keeps-query_row, Keeps-exec,
}
use issueq.Store.Owned.{
  has_id, update_jobs, find_job, is_owned, assert_job_owned_tx, exec_owned, ownership_error,
}
use issueq.Store.Attempts.{
  AttemptKey, increment_attempts_for_job, increment_attempts_tx, update_owned_tx,
  reverse_attempt_tx, reverse_key_tx, increment_transitions_for_job, transitions_of, attempts_of,
  provenance, ensure_attempt, bump_attempt, bump_transition, scoped, has_counted_key, has_attempts,
  uncounted_row, reversed,
}
use issueq.Store.Leases.{renew_job_lease}
use issueq.Store.Launch.{
  persist_launch_spec_owned, mark_job_launching_owned, persist_launch_record_owned,
  validate_launch_spec_record, validate_launch_record, launch_spec_row, launch_record_row,
}
use issueq.Store.Steps.{
  JobStep, puts_issue, renews_own, prepares_own, launches_own, records_own, counts_own_attempt,
  counts_own_transition, finalizes_own, logs_event,
}
use issueq.Store.Issues.{upsert_issue}
use issueq.Store.Queue.{insert_job_event}
use issueq.Store.Finalize.{finalized_row, finalize_job_owned, work_not_started}

-- The row of the job `other` is `row`.
abbrev pub HasRow : String → Option JobRow → Db → Type 0
HasRow other row db = find_job other db ≡ row

module _ {job_id other : String} (ne : other ≢ job_id) where
  update_jobs-other :
      (p : JobRow → Bool) (f : JobRow → JobRow)
      → ((r : JobRow) → p r ≡ true → has_id job_id r ≡ true)
      → ((r : JobRow) → (f r).id ≡ r.id)
      → (db : Db) → find_job other (update_jobs p f db) ≡ find_job other db
  update_jobs-other p f own same db =
      first_where-update (has_id other) p f (λ r _. ap (λ i. str_eq i other) (same r)) db.jobs
      ∙ elim (Option-cases (find_job other db)) [
        | inl e ↦ rw e
        | inr (r, e) ↦
            let at : has_id other r ≡ true = first_where-meets (has_id other) db.jobs e in
            elim (Bool-cases (p r)) [
              | inl q ↦ absurd (ne (sym (same_text at) ∙ same_text (own r q)))
              | inr q ↦ rw e (rw q)
            ]
      ]

  exec_owned-other :
      (instance : String) (t : Time) (p : JobRow → Bool) (f : JobRow → JobRow)
      → ((r : JobRow) → p r ≡ true → has_id job_id r ≡ true)
      → ((r : JobRow) → (f r).id ≡ r.id)
      → (db : Db) → find_job other (exec_owned job_id instance t p f db).1 ≡ find_job other db
  unfolding exec_owned ownership_error
  exec_owned-other instance t p f own same db =
      let k = update_jobs-other p f own same db in ground (arith, k)

  module _ (row : Option JobRow) where
    assert_job_owned_tx-Keeps :
        (instance : String) (t : Time)
        → Keeps (HasRow other row) (assert_job_owned_tx job_id instance t)
    unfolding assert_job_owned_tx
    assert_job_owned_tx-Keeps instance t = record {
      at = λ db db' a e w. let same : db ≡ db' = ground arith in subst (HasRow other row) same w;
    }

    update_owned_tx-Keeps :
        (p : JobRow → Bool) (f : JobRow → JobRow)
        → ((r : JobRow) → p r ≡ true → has_id job_id r ≡ true)
        → ((r : JobRow) → (f r).id ≡ r.id)
        → Keeps (HasRow other row) (update_owned_tx p f)
    update_owned_tx-Keeps p f own same = record {
      at = λ db db' a e w.
          let after : update_jobs p f db ≡ db' = ground arith in
          subst (HasRow other row) after (update_jobs-other p f own same db ∙ w);
    }

    increment_attempts_tx-Keeps :
        (k : AttemptKey) (t : Time) → Keeps (HasRow other row) (increment_attempts_tx k t)
    unfolding increment_attempts_tx
    increment_attempts_tx-Keeps k t =
        Keeps-bind _ _ (Keeps-exec (ensure_attempt (scoped k) t) (λ db w. w)) λ _.
          Keeps-bind _ _ (Keeps-exec (bump_attempt (scoped k) t) (λ db w. w))
            λ _. Keeps-query_row (attempts_of (scoped k))

    reverse_key_tx-Keeps :
        (k : AttemptKey) (t : Time) → Keeps (HasRow other row) (reverse_key_tx job_id k t)
    unfolding reverse_key_tx
    reverse_key_tx-Keeps k t = record {
      at = λ db db' a e w.
          elim (Bool-cases (count_where (has_counted_key k) db.route_attempts == 0)) [
            | inl z ↦ let same : db ≡ db' = ground arith in subst (HasRow other row) same w
            | inr z ↦
                let same : reversed job_id k t db ≡ db' = ground arith in
                subst (HasRow other row) same (
                  update_jobs-other (has_attempts job_id) (uncounted_row t) (λ r h. ground arith)
                    (λ r. refl) db
                  ∙ w)
          ];
    }

    by_provenance :
        (t : Time) (o : Option AttemptKey)
        → Keeps (HasRow other row) (elim o [ none ↦ pure tt | some k ↦ reverse_key_tx job_id k t ])
    by_provenance t none = Keeps-pure _
    by_provenance t (some k) = reverse_key_tx-Keeps k t

    reverse_attempt_tx-Keeps : (t : Time) → Keeps (HasRow other row) (reverse_attempt_tx job_id t)
    unfolding reverse_attempt_tx
    reverse_attempt_tx-Keeps t =
        Keeps-bind _ _ (Keeps-query_row (find_job job_id)) λ r. by_provenance t (provenance r)

  pub JobStep-other :
      {instance : String} {db db' : Db}
      → JobStep job_id instance db db'
      → find_job other db' ≡ find_job other db
  unfolding upsert_issue insert_job_event renew_job_lease persist_launch_spec_owned
      mark_job_launching_owned persist_launch_record_owned increment_attempts_for_job
      increment_transitions_for_job finalize_job_owned finalized_row launch_spec_row
      launch_record_row
  JobStep-other {instance} {db} (puts_issue i now) = refl
  JobStep-other {instance} {db} (logs_event id e now) = ground arith
  JobStep-other {instance} {db} (renews_own d now t) = elim (Bool-cases (leb_ℤ d (pos 0))) [
    | inl e ↦ rw e
    | inr e ↦ rw e (exec_owned-other instance t _ _ (λ r h. ground arith) (λ r. refl) db)
  ]
  JobStep-other {instance} {db} (prepares_own l now t) =
      elim (Option-cases (validate_launch_spec_record l)) [
        | inl e ↦
            rw (e, persist_launch_spec_owned)
              (exec_owned-other instance t _ _ (λ r h. ground arith) (λ r. refl) db)
        | inr (m, e) ↦ rw (e, persist_launch_spec_owned)
      ]
  JobStep-other {instance} {db} (launches_own token now t) =
      exec_owned-other instance t _ _ (λ r h. ground arith) (λ r. refl) db
  JobStep-other {instance} {db} (records_own l now t) =
      elim (Option-cases (validate_launch_record l)) [
        | inl e ↦
            rw (e, persist_launch_record_owned)
              (exec_owned-other instance t _ _ (λ r h. ground arith) (λ r. refl) db)
        | inr (m, e) ↦ rw (e, persist_launch_record_owned)
      ]
  JobStep-other {instance} {db} (counts_own_attempt k t₁ t₂ now) =
      Keeps-transaction _
        (Keeps-bind _ _ (assert_job_owned_tx-Keeps _ instance t₁) λ _.
          Keeps-bind _ _ (increment_attempts_tx-Keeps _ _ t₂) λ n.
            Keeps-bind _ _
              (update_owned_tx-Keeps _ (is_owned job_id instance now) _ (λ r h. ground arith)
                (λ r. refl))
              λ _. Keeps-pure n)
        db refl
  JobStep-other {instance} {db} (counts_own_transition key t now) =
      Keeps-transaction _
        (Keeps-bind _ _ (assert_job_owned_tx-Keeps _ instance t) λ _.
          Keeps-bind _ _ (Keeps-exec (bump_transition key now) (λ db w. w))
            λ _. Keeps-query_row (transitions_of key))
        db refl
  JobStep-other {instance} {db} (finalizes_own result clock h) =
      Keeps-transaction _
        (Keeps-bind _ _ (assert_job_owned_tx-Keeps _ instance clock.checked_at) λ _.
          Keeps-bind _ _
            (Keeps-if (work_not_started result.work_started) _ _
              (reverse_attempt_tx-Keeps _ clock.reversed_at) (Keeps-pure tt))
            λ _.
              update_owned_tx-Keeps _ (is_owned job_id instance clock.now) _ (λ r h. ground arith)
                (λ r. refl))
        db refl
