-- ===== src/Records/Enqueue.antt =====
-- A job is enqueued once for its dedupe key.
use mathlib.Core.Path.{subst}
use issueq.Prelude.{
  String, ◌≡◌, refl, sym, ap, ◌∙◌, Bool, true, false, none, some, List, [], ◌∷◌, ◌++◌, ◌==◌, arith,
  Bool-cases, Option-cases, inl, inr, eq_refl,
}
use issueq.Sql.{count_where, first_where}
use issueq.Sql.Laws.{first_where-append}
use issueq.Model.{Time, Job, JobCreate}
use issueq.Store.{JobRow, Db, no_rows, Result, ok, err}
use issueq.Store.Scan.{scan_job}
use issueq.Store.Queue.{collides, has_dedupe_key, job_by_dedupe_key, new_job_row, enqueue_job}

-- A row with the dedupe key stops the insertion.
count_where-found :
    (p q : JobRow → Bool)
    → ((r : JobRow) → p r ≡ true → q r ≡ true)
    → (rows : List JobRow) (r : JobRow) → first_where p rows ≡ some r
    → (count_where q rows == 0) ≡ false
unfolding first_where count_where
count_where-found p q le [] r h = absurd cc
count_where-found p q le (s ∷ rows) r h = elim (Bool-cases (p s)) [
  | inl e ↦ let k = le s e in ground (arith, k)
  | inr e ↦
      let ih = count_where-found p q le rows r (ground arith) in
      elim (Bool-cases (q s)) [ inl k ↦ ground (arith, k) | inr k ↦ rw (k, ih) ]
]

same_job : {a b : Job} {x y : Bool} → ◌≡◌ {A = Result (Job × Bool)} (ok (a, x)) (ok (b, y)) → a ≡ b
same_job h = cc

no_job : {a : Job × Bool} → err no_rows ≡ ok a → ⊥
no_job h = cc

module _ (id : String) (create : JobCreate) (now : Time) (db : Db) where
  enqueue_job-existing :
      {r : JobRow}
      → first_where (has_dedupe_key create.dedupe_key) db.jobs ≡ some r
      → enqueue_job id create now db ≡ (ok (scan_job r, false), db)
  unfolding enqueue_job
  enqueue_job-existing {r = r} found =
      let taken : (count_where (collides id create.dedupe_key) db.jobs == 0) ≡ false =
        count_where-found (has_dedupe_key create.dedupe_key) (collides id create.dedupe_key)
          (λ s e. ground (arith, e)) db.jobs r found in
      let read : job_by_dedupe_key create.dedupe_key db ≡ ok (scan_job r) =
        rw (job_by_dedupe_key, found) refl in
      rw (taken, read)

  abbrev inserted_jobs : Db
  inserted_jobs = record db { jobs = db.jobs ++ new_job_row id create now ∷ [] }

  enqueue_job-new :
      (count_where (collides id create.dedupe_key) db.jobs == 0) ≡ true
      → enqueue_job id create now db
        ≡ (ok (scan_job (new_job_row id create now), true), inserted_jobs)
  unfolding enqueue_job
  enqueue_job-new h = rw h

  enqueue_job-collides :
      (count_where (collides id create.dedupe_key) db.jobs == 0) ≡ false
      → first_where (has_dedupe_key create.dedupe_key) db.jobs ≡ none
      → enqueue_job id create now db ≡ (err no_rows, db)
  unfolding enqueue_job job_by_dedupe_key
  enqueue_job-collides h e = rw h (rw (job_by_dedupe_key, e))

  first_inserted :
      first_where (has_dedupe_key create.dedupe_key) db.jobs ≡ none
      → first_where (has_dedupe_key create.dedupe_key) inserted_jobs.jobs
        ≡ some (new_job_row id create now)
  unfolding new_job_row
  first_inserted e =
      first_where-append (has_dedupe_key create.dedupe_key) db.jobs (new_job_row id create now)
      ∙ rw e (ground (arith, eq_refl create.dedupe_key))

  -- The job that a call returns is the one that its dedupe key finds afterwards.
  enqueue_job-stores :
      {job : Job} {inserted : Bool}
      → (enqueue_job id create now db).0 ≡ ok (job, inserted)
      → (r : JobRow) × (first_where
            (has_dedupe_key create.dedupe_key)
            (enqueue_job id create now db).1.jobs
          ≡ some r)
        × (scan_job r ≡ job)
  enqueue_job-stores h =
      elim (Option-cases (first_where (has_dedupe_key create.dedupe_key) db.jobs)) [
        | inr (r, found) ↦
            let e = enqueue_job-existing found in
            (r, rw e found, same_job (ap (λ x. x.0) (sym e) ∙ h))
        | inl none_found ↦
            elim (Bool-cases (count_where (collides id create.dedupe_key) db.jobs == 0)) [
              | inl z ↦
                  let e = enqueue_job-new z in
                  (
                    new_job_row id create now,
                    rw e (first_inserted none_found),
                    same_job (ap (λ x. x.0) (sym e) ∙ h),
                  )
              | inr z ↦
                  absurd (no_job (ap (λ x. x.0) (sym (enqueue_job-collides z none_found)) ∙ h))
            ]
      ]

-- After a call that returned a job, any call with the same dedupe key, whatever its other
-- arguments, its new id and its clock are, returns that job, reports that it inserted none, and
-- leaves the tables as they were.
pub enqueue_job-idempotent :
    (id id' : String) (create create' : JobCreate) (now now' : Time) (db : Db) {job : Job}
    {inserted : Bool}
    → create'.dedupe_key ≡ create.dedupe_key
    → (enqueue_job id create now db).0 ≡ ok (job, inserted)
    → enqueue_job id' create' now' (enqueue_job id create now db).1
      ≡ (ok (job, false), (enqueue_job id create now db).1)
enqueue_job-idempotent id id' create create' now now' db key h =
    let after : Db = (enqueue_job id create now db).1 in
    let (r, found, same) = enqueue_job-stores id create now db h in
    enqueue_job-existing id' create' now' after
      (subst (λ k. first_where (has_dedupe_key k) after.jobs ≡ some r) (sym key) found)
    ∙ ap (λ j. (ok (j, false), after)) same
