-- ===== src/Store/WellFormed/Counters.antt =====
-- The transactions that count attempts and transitions, and the one that finalizes a job, keep the
-- tables well formed.
use mathlib.Core.Path.{subst}
use issueq.Prelude.{
  String, ◌≡◌, refl, Bool, true, false, Option, none, some, arith, Bool-cases, inl, inr, List, ◌==◌,
}
use issueq.Sql.{count_where}
use issueq.Sql.Keys.{HasUniqueKeys-update}
use issueq.Model.{Time, is_running, JobFinalize}
use issueq.Store.{JobRow, RouteAttemptRow, Db}
use issueq.Store.Tx.{pure}
use issueq.Store.Tx.Keeps.{
  Keeps, Keeps-transaction, Keeps-bind, Keeps-if, Keeps-pure, Keeps-query_row, Keeps-exec,
}
use issueq.Store.Owned.{update_jobs, find_job, is_owned, assert_job_owned_tx}
use issueq.Store.Consistent.{
  IsConsistent, uncounted_row-IsConsistent, counted_row-IsConsistent, finalized_row-IsConsistent,
}
use issueq.Store.Attempts.{
  AttemptKey, increment_attempts_for_job, increment_attempts_tx, update_owned_tx,
  reverse_attempt_tx, reverse_key_tx, increment_transitions_for_job, has_issue_key,
  bump_transitions, transitions_of, attempts_of, provenance, ensure_attempt, bump_attempt,
  bump_transition, scoped, has_counted_key, has_attempts, uncounted_row, reversed,
}
use issueq.Store.Finalize.{FinalizeClock, finalize_job_owned, work_not_started}
use issueq.Store.WellFormed.{IsWellFormed, update_jobs-IsWellFormed, state_of}

with_attempts-IsWellFormed :
    (rows : Db → List RouteAttemptRow) (db : Db)
    → IsWellFormed db
    → IsWellFormed (record db { route_attempts = rows db })
with_attempts-IsWellFormed rows db w = record {
  issue_keys = w.issue_keys;
  state_keys = w.state_keys;
  job_keys = w.job_keys;
  dedupe_keys = w.dedupe_keys;
  beat_keys = w.beat_keys;
  handoff_keys = w.handoff_keys;
  consistent = w.consistent;
}

assert_job_owned_tx-Keeps :
    (job_id instance : String) (t : Time)
    → Keeps IsWellFormed (assert_job_owned_tx job_id instance t)
unfolding assert_job_owned_tx
assert_job_owned_tx-Keeps job_id instance t = record {
  at = λ db db' a e w. let same : db ≡ db' = ground arith in subst IsWellFormed same w;
}

update_owned_tx-Keeps :
    (p : JobRow → Bool) (f : JobRow → JobRow)
    → ((r : JobRow) → (f r).id ≡ r.id)
    → ((r : JobRow) → (f r).dedupe_key ≡ r.dedupe_key)
    → ((r : JobRow) → p r ≡ true → IsConsistent r → IsConsistent (f r))
    → Keeps IsWellFormed (update_owned_tx p f)
update_owned_tx-Keeps p f i d keep = record {
  at = λ db db' a e w.
      let same : update_jobs p f db ≡ db' = ground arith in
      subst IsWellFormed same (update_jobs-IsWellFormed p f i d keep db w);
}

increment_attempts_tx-Keeps :
    (k : AttemptKey) (t : Time) → Keeps IsWellFormed (increment_attempts_tx k t)
unfolding increment_attempts_tx
increment_attempts_tx-Keeps k t =
    Keeps-bind _ _
      (Keeps-exec (ensure_attempt (scoped k) t)
        (with_attempts-IsWellFormed (λ db. (ensure_attempt (scoped k) t db).route_attempts)))
      λ _.
        Keeps-bind _ _
          (Keeps-exec (bump_attempt (scoped k) t)
            (with_attempts-IsWellFormed (λ db. (bump_attempt (scoped k) t db).route_attempts)))
          λ _. Keeps-query_row (attempts_of (scoped k))

pub increment_attempts_for_job-IsWellFormed :
    (job_id instance : String) (k : AttemptKey) (t₁ t₂ now : Time) (db : Db)
    → IsWellFormed db
    → IsWellFormed (increment_attempts_for_job job_id instance k t₁ t₂ now db).1
unfolding increment_attempts_for_job
increment_attempts_for_job-IsWellFormed job_id instance k t₁ t₂ now db w =
    Keeps-transaction _
      (Keeps-bind _ _ (assert_job_owned_tx-Keeps job_id instance t₁) λ _.
        Keeps-bind _ _ (increment_attempts_tx-Keeps _ t₂) λ n.
          Keeps-bind _ _
            (update_owned_tx-Keeps (is_owned job_id instance now) _ (λ r. refl) (λ r. refl)
              (λ r q c. counted_row-IsConsistent n _ _ now r c))
            λ _. Keeps-pure n)
      db w

reversed-IsWellFormed :
    (job_id : String) (k : AttemptKey) (t : Time) (db : Db)
    → IsWellFormed db
    → IsWellFormed (reversed job_id k t db)
reversed-IsWellFormed job_id k t db w =
    with_attempts-IsWellFormed (λ _. (reversed job_id k t db).route_attempts)
      (update_jobs (has_attempts job_id) (uncounted_row t) db)
      (update_jobs-IsWellFormed (has_attempts job_id) (uncounted_row t) (λ r. refl) (λ r. refl)
        (λ r q c. uncounted_row-IsConsistent t r c) db w)

reverse_key_tx-Keeps :
    (job_id : String) (k : AttemptKey) (t : Time) → Keeps IsWellFormed (reverse_key_tx job_id k t)
unfolding reverse_key_tx
reverse_key_tx-Keeps job_id k t = record {
  at = λ db db' a e w. elim (Bool-cases (count_where (has_counted_key k) db.route_attempts == 0)) [
    | inl z ↦ let same : db ≡ db' = ground arith in subst IsWellFormed same w
    | inr z ↦
        let same : reversed job_id k t db ≡ db' = ground arith in
        subst IsWellFormed same (reversed-IsWellFormed job_id k t db w)
  ];
}

reverse_attempt_tx-Keeps :
    (job_id : String) (t : Time) → Keeps IsWellFormed (reverse_attempt_tx job_id t)
unfolding reverse_attempt_tx
reverse_attempt_tx-Keeps job_id t =
    Keeps-bind _ _ (Keeps-query_row (find_job job_id)) λ r. by_provenance (provenance r)
  where
    by_provenance :
        (o : Option AttemptKey)
        → Keeps IsWellFormed (elim o [ none ↦ pure tt | some k ↦ reverse_key_tx job_id k t ])
    by_provenance none = Keeps-pure tt
    by_provenance (some k) = reverse_key_tx-Keeps job_id k t

pub finalize_job_owned-IsWellFormed :
    (job_id instance : String) (result : JobFinalize) (clock : FinalizeClock) (db : Db)
    → is_running result.status ≡ false
    → IsWellFormed db
    → IsWellFormed (finalize_job_owned job_id instance result clock db).1
unfolding finalize_job_owned
finalize_job_owned-IsWellFormed job_id instance result clock db e w =
    Keeps-transaction _
      (Keeps-bind _ _ (assert_job_owned_tx-Keeps job_id instance clock.checked_at) λ _.
        Keeps-bind _ _
          (Keeps-if (work_not_started result.work_started) _ _
            (reverse_attempt_tx-Keeps job_id clock.reversed_at) (Keeps-pure tt))
          λ _.
            update_owned_tx-Keeps (is_owned job_id instance clock.now) _ (λ r. refl) (λ r. refl)
              (λ r q c. finalized_row-IsConsistent result _ r e c))
      db w

pub increment_transitions_for_job-IsWellFormed :
    (job_id instance issue_key : String) (t now : Time) (db : Db)
    → IsWellFormed db
    → IsWellFormed (increment_transitions_for_job job_id instance issue_key t now db).1
unfolding increment_transitions_for_job
increment_transitions_for_job-IsWellFormed job_id instance issue_key t now db w =
    Keeps-transaction _
      (Keeps-bind _ _ (assert_job_owned_tx-Keeps job_id instance t) λ _.
        Keeps-bind _ _
          (Keeps-exec (bump_transition issue_key now) (λ db w. record {
            issue_keys = w.issue_keys;
            state_keys =
                HasUniqueKeys-update state_of (has_issue_key issue_key) (bump_transitions now)
                  (λ r _. refl) db.issue_state w.state_keys;
            job_keys = w.job_keys;
            dedupe_keys = w.dedupe_keys;
            beat_keys = w.beat_keys;
            handoff_keys = w.handoff_keys;
            consistent = w.consistent;
          }))
          λ _. Keeps-query_row (transitions_of issue_key))
      db w
