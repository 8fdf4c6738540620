-- ===== src/Claiming/Priority.antt =====
-- The order in which jobs are claimed.
use mathlib.Core.Path.{subst}
use issueq.Prelude.Text.Order.{str_leb_total, str_leb_trans}
use issueq.Prelude.{
  ℤ, ◌≡◌, refl, sym, ap, ◌∙◌, Bool, true, false, Option, none, some, arith, Option-cases, inl, inr,
  All, eq_refl, add_duration,
}
use issueq.Sql.Laws.{All-map₂, All-map, count_where_self, All-of_first_none}
use issueq.Sql.Order.{first_where-order_by, All-of_select_where, All-of_order_by}
use issueq.Model.{Time, is_pending, Job, RunnerIdentity}
use issueq.Store.{JobRow, Db, Result, ok}
use issueq.Store.Scan.{scan_job}
use issueq.Store.Owned.{find_job}
use issueq.Store.Claim.{
  ClaimFilter, is_claimable, still_pending, is_eligible, queue_before, claimed_row, claim_next_job,
}
use issueq.Store.WellFormed.{IsWellFormed}
use issueq.Claiming.Loop.{
  CanSearch, can_claim, first_claimable, claim_inverts, claim_none, claim_returns,
}

queue_before-total : (a b : JobRow) → queue_before a b ≡ false → queue_before b a ≡ true
unfolding queue_before
queue_before-total a b h = ground (arith, str_leb_total a.id b.id)

queue_before_trans :
    (a b c : JobRow) → queue_before a b ≡ true → queue_before b c ≡ true → queue_before a c ≡ true
unfolding queue_before
queue_before_trans a b c h k = ground (arith, str_leb_trans a.id b.id c.id)

-- A pending row is one that the claim's UPDATE affects.
claimable_rows :
    (f : ClaimFilter) (now : Time) (db : Db)
    → All
        (λ s. is_eligible now s ≡ true → is_claimable f db s ≡ true → can_claim f db s ≡ true)
        db.jobs
claimable_rows f now db =
    All-map (λ s counted e c. ground (arith, counted (ground arith))) db.jobs
      (count_where_self (λ r. still_pending r.id) (λ r. is_pending r.status)
        (λ r p. ground (arith, p, eq_refl r.id)) db.jobs)

refuted : {a b : Bool} → (a ≡ true → b ≡ true) → b ≡ false → a ≡ false
refuted {a = true} h e = cc (h refl)
refuted {a = false} h e = refl

returns_a_job : {x : Result (Option Job)} {job : Job} → x ≡ ok none → x ≡ ok (some job) → ⊥
returns_a_job h k = cc

id_of_claimed :
    (identity : RunnerIdentity) (now lease : Time) (r : JobRow)
    → (scan_job (claimed_row identity now lease r)).id ≡ r.id
unfolding scan_job claimed_row
id_of_claimed identity now lease r = refl

module _ (identity : RunnerIdentity) (f : ClaimFilter) (max d : ℤ) (now : Time) (db : Db) where
  -- The job returned by a claim is pending and available, passes the filters of kind, frontier and
  -- route limit, and precedes in the queue (higher priority, then older, then by id) every job of
  -- the tables that is pending, available and passes them too.
  pub claim-priority :
      {job : Job}
      → IsWellFormed db
      → (claim_next_job identity f max d now db).0 ≡ ok (some job)
      → (r : JobRow) × (find_job job.id db ≡ some r)
        × (is_eligible now r ≡ true)
        × (is_claimable f db r ≡ true)
        × All
            (λ s. is_eligible now s ≡ true → is_claimable f db s ≡ true → queue_before r s ≡ true)
            db.jobs
  unfolding first_claimable
  claim-priority w h =
      let c = claim_inverts identity f max d now db w h in
      (
        c.row,
        subst (λ i. find_job i db ≡ some c.row)
            (sym (ap (λ j. j.id) c.result ∙ id_of_claimed identity now (add_duration now d) c.row))
            c.stored,
        c.eligible,
        c.claimable,
        All-map₂ (λ s can before e k. before e (can e k)) db.jobs (claimable_rows f now db)
            (first_where-order_by queue_before queue_before-total queue_before_trans
              (can_claim f db) (is_eligible now) db.jobs c.found),
      )

  -- With room for a job and a named runner, a claim that returns no job leaves the tables as they
  -- were, and there was no pending and available job that passes the filters.
  pub claim_complete :
      IsWellFormed db
      → CanSearch identity max db
      → (claim_next_job identity f max d now db).0 ≡ ok none
      → ((claim_next_job identity f max d now db).1 ≡ db)
        × All (λ s. is_eligible now s ≡ true → is_claimable f db s ≡ false) db.jobs
  unfolding first_claimable
  claim_complete w c h = elim (Option-cases (first_claimable f now db)) [
    | inr (r, found) ↦ absurd (returns_a_job h (claim_returns identity f max d now db r w c found))
    | inl empty ↦ (
      ap (λ x. x.1) (claim_none identity f max d now db c empty),
      All-map₂ (λ s can none_can e. refuted (can e) (none_can e)) db.jobs (claimable_rows f now db)
          (All-of_select_where (λ s. can_claim f db s ≡ false) (is_eligible now) db.jobs
            (All-of_order_by (λ s. can_claim f db s ≡ false) queue_before _
              (All-of_first_none (can_claim f db) _ empty))),
    )
  ]
