-- ===== src/Leasing/Adoption.antt =====
-- A stale job is taken over once.
use mathlib.Core.Path.{subst}
use issueq.Prelude.{
  ℤ, pos, String, ◌≡◌, ◌≢◌, refl, sym, ◌∙◌, Bool, true, false, some, arith, ◌==◌, leb_ℤ, str_eq,
  eq_iff, is_blank, add_duration, Bool-cases, Option-cases, inl, inr,
}
use issueq.Sql.{count_where}
use issueq.Sql.Laws.{first_where-update, update_where-none}
use issueq.Sql.Keys.{HasUniqueKeys, count_where-key, HasUniqueKeys-update}
use issueq.Model.{Time, Job, RunnerIdentity}
use issueq.Store.{JobRow, Db, not_owner, ok, err}
use issueq.Store.Owned.{has_id, find_job, update_jobs}
use issueq.Store.Stale.{
  can_take_over, adopted_row, adopt_stale_running_job, unknown_row, mark_stale_running_job_unknown,
}
use issueq.Store.WellFormed.{IsWellFormed, job_key}

module _ (job_id old : String) (identity : RunnerIdentity) (d : ℤ) (now stale_before : Time)
    (db : Db) where
  abbrev taken : JobRow → Bool
  taken = can_take_over job_id old now stale_before db

  abbrev taken_row : JobRow → JobRow
  taken_row = adopted_row identity (add_duration now d) now

  -- A call that returns a job has affected a row.
  adopts :
      {job : Job}
      → (adopt_stale_running_job job_id old identity d now stale_before db).0 ≡ ok job
      → ((count_where taken db.jobs == 0) ≡ false)
        × ((adopt_stale_running_job job_id old identity d now stale_before db).1
            ≡ update_jobs taken taken_row db)
  unfolding adopt_stale_running_job
  adopts h = (ground arith, ground arith)

  taken_id : (r : JobRow) → taken r ≡ true → has_id job_id r ≡ true
  unfolding can_take_over
  taken_id r h = ground arith

  -- The row that was affected is the one with the id.
  adopted_at :
      IsWellFormed db
      → (count_where taken db.jobs == 0) ≡ false
      → (r : JobRow) × (find_job job_id (update_jobs taken taken_row db) ≡ some (taken_row r))
  adopted_at w h =
      let counted = count_where-key job_key taken job_id taken_id db.jobs w.job_keys in
      elim (Option-cases (find_job job_id db)) [
        | inl e ↦ absurd (ground (arith, h, counted, e))
        | inr (r, e) ↦
            let t : taken r ≡ true = ground (arith, h, counted, e) in
            (
              r,
              first_where-update (has_id job_id) taken taken_row (λ s _. refl) db.jobs
                  ∙ rw e (rw t),
            )
      ]

  after_keys : IsWellFormed db → HasUniqueKeys job_key (update_jobs taken taken_row db).jobs
  after_keys w = HasUniqueKeys-update job_key taken taken_row (λ s _. refl) db.jobs w.job_keys

  module _ (now' stale_before' : Time) where
    abbrev after : Db
    after = update_jobs taken taken_row db

    abbrev taken_again : JobRow → Bool
    taken_again = can_take_over job_id old now' stale_before' after

    taken_again_id : (r : JobRow) → taken_again r ≡ true → has_id job_id r ≡ true
    unfolding can_take_over
    taken_again_id r h = ground arith

    not_taken_again : (r : JobRow) → identity.instance_id ≢ old → taken_again (taken_row r) ≡ false
    unfolding can_take_over
    not_taken_again r ne = elim (Bool-cases (str_eq identity.instance_id old)) [
      | inl e ↦ absurd (ne ((eq_iff identity.instance_id old).0 e))
      | inr e ↦ ground (arith, e)
    ]

    none_again :
        IsWellFormed db
        → identity.instance_id ≢ old
        → (count_where taken db.jobs == 0) ≡ false
        → count_where taken_again after.jobs ≡ 0
    none_again w ne h =
        let (r, found) = adopted_at w h in
        let skipped = not_taken_again r ne in
        count_where-key job_key taken_again job_id taken_again_id after.jobs (after_keys w)
        ∙ rw found (rw skipped)

adopt_none :
    (job_id old : String) (other : RunnerIdentity) (d : ℤ) (now stale_before : Time) (db : Db)
    → is_blank other.runner_id ≡ false
    → is_blank other.instance_id ≡ false
    → leb_ℤ d (pos 0) ≡ false
    → count_where (can_take_over job_id old now stale_before db) db.jobs ≡ 0
    → adopt_stale_running_job job_id old other d now stale_before db ≡ (err not_owner, db)
unfolding adopt_stale_running_job
adopt_none job_id old other d now stale_before db named instanced positive zero =
    let p = can_take_over job_id old now stale_before db in
    let same = update_where-none p (adopted_row other (add_duration now d) now) db.jobs zero in
    rw (named, instanced, positive) (rw zero (rw same))

mark_none :
    (job_id old : String) (now stale_before : Time) (db : Db)
    → count_where (can_take_over job_id old now stale_before db) db.jobs ≡ 0
    → mark_stale_running_job_unknown job_id old now stale_before db ≡ (err not_owner, db)
unfolding mark_stale_running_job_unknown
mark_none job_id old now stale_before db zero =
    let p = can_take_over job_id old now stale_before db in
    let same = update_where-none p (unknown_row now) db.jobs zero in rw zero (rw same)

-- From well-formed tables: a stale job that a runner has adopted, under an instance other than that
-- of the old owner, is not taken over from the same old owner again: at whatever time, another
-- adoption with a runner's names and a positive lease, and a call that marks the job as unknown, are
-- told that they do not own it, and leave the tables as they were.
pub adopt_stale_running_job-once :
    (job_id old : String) (identity : RunnerIdentity) (d : ℤ) (now stale_before : Time) (db : Db)
    {job : Job} (other : RunnerIdentity) (d' : ℤ) (now' stale_before' : Time)
    → IsWellFormed db
    → identity.instance_id ≢ old
    → is_blank other.runner_id ≡ false
    → is_blank other.instance_id ≡ false
    → leb_ℤ d' (pos 0) ≡ false
    → (adopt_stale_running_job job_id old identity d now stale_before db).0 ≡ ok job
    → (adopt_stale_running_job job_id old other d' now' stale_before'
          (adopt_stale_running_job job_id old identity d now stale_before db).1
        ≡ (err not_owner, (adopt_stale_running_job job_id old identity d now stale_before db).1))
      × (mark_stale_running_job_unknown job_id old now' stale_before'
            (adopt_stale_running_job job_id old identity d now stale_before db).1
          ≡ (err not_owner, (adopt_stale_running_job job_id old identity d now stale_before db).1))
adopt_stale_running_job-once job_id old identity d now stale_before db other d' now' stale_before' w
      ne named instanced positive h =
    let (some_row, same) = adopts job_id old identity d now stale_before db h in
    let zero =
      none_again job_id old identity d now stale_before db now' stale_before' w ne some_row in
    let t =
      update_jobs (can_take_over job_id old now stale_before db)
        (adopted_row identity (add_duration now d) now) db in
    subst
      (λ t.
        (adopt_stale_running_job job_id old other d' now' stale_before' t ≡ (err not_owner, t))
        × (mark_stale_running_job_unknown job_id old now' stale_before' t ≡ (err not_owner, t)))
      (sym same)
      (
        adopt_none job_id old other d' now' stale_before' t named instanced positive zero,
        mark_none job_id old now' stale_before' t zero,
      )
