-- ===== src/Claiming/Capacity.antt =====
-- A claim keeps the limits on running jobs, and takes one pending job.
use mathlib.Core.Path.{subst}
use issueq.Prelude.{
  ℕ, ℤ, pos, ◌+◌, ◌≤◌, String, ◌≡◌, ◌≢◌, refl, sym, ap, ◌∙◌, true, false, some, arith, Option-cases,
  inl, inr, leb_ℤ, ltb_ℤ, eq_iff, add_duration,
}
use issueq.Sql.{count_where}
use issueq.Sql.Laws.{
  count_where-update_on, count_where-update_le, first_where-update, first_where-meets,
}
use issueq.Model.{Time, is_pending, is_running, Job, RunnerIdentity}
use issueq.Store.{JobRow, Db, ok}
use issueq.Store.Scan.{scan_job}
use issueq.Store.Owned.{has_id, find_job}
use issueq.Store.Claim.{
  ClaimFilter, is_claimable, route_is_full, claimed_row, still_pending, runs_route,
  count_running_jobs, count_running_jobs_by_route, claim_next_job,
}
use issueq.Store.WellFormed.{IsWellFormed}
use issueq.Claiming.Loop.{claim_inverts, claimed_by_search, claimed_tables, find_job-after_claim}

-- The claim's UPDATE adds the rows that it affects to those that run.
running_after :
    (identity : RunnerIdentity) (now lease : Time) (job_id : String) (db : Db)
    → count_running_jobs (claimed_tables identity now lease job_id db)
      ≡ count_running_jobs db + count_where (still_pending job_id) db.jobs
unfolding count_running_jobs claimed_row
running_after identity now lease job_id db =
    count_where-update_on (λ r. is_running r.status) (still_pending job_id)
      (claimed_row identity now lease) (λ r h. ground arith) (λ r h. refl) db.jobs

route_after :
    (identity : RunnerIdentity) (now lease : Time) (job_id route : String) (db : Db)
    → count_running_jobs_by_route route (claimed_tables identity now lease job_id db)
      ≤ count_running_jobs_by_route route db + count_where (still_pending job_id) db.jobs
unfolding count_running_jobs_by_route
route_after identity now lease job_id route db =
    count_where-update_le (runs_route route) (still_pending job_id) (claimed_row identity now lease)
      db.jobs

-- The claim's UPDATE leaves the rows with another id alone.
other_row :
    (identity : RunnerIdentity) (now lease : Time) (job_id other : String) (db : Db)
    → other ≢ job_id
    → find_job other (claimed_tables identity now lease job_id db) ≡ find_job other db
unfolding claimed_row
other_row identity now lease job_id other db ne =
    first_where-update (has_id other) (still_pending job_id) (claimed_row identity now lease)
      (λ s _. refl) db.jobs
    ∙ elim (Option-cases (find_job other db)) [
      | inl e ↦ rw e
      | inr (r, e) ↦
          let at : has_id other r ≡ true = first_where-meets (has_id other) db.jobs e in
          rw e (ground (arith, at, eq_iff r.id other, eq_iff r.id job_id))
    ]

one_more_fits :
    (n n' : ℕ) (limit : ℤ) → leb_ℤ limit (pos n) ≡ false → n' ≤ n + 1 → leb_ℤ (pos n') limit ≡ true
one_more_fits n n' limit room le = ground arith

claimable_room :
    (f : ClaimFilter) (db : Db) (r : JobRow)
    → ltb_ℤ (pos 0) (f.per_route_limit r.route_name) ≡ true
    → is_claimable f db r ≡ true
    → leb_ℤ (f.per_route_limit r.route_name) (pos (count_running_jobs_by_route r.route_name db))
      ≡ false
unfolding is_claimable route_is_full
claimable_room f db r limited h = ground arith

module _ (identity : RunnerIdentity) (f : ClaimFilter) (max d : ℤ) (now : Time) (db : Db)
    {job : Job} (w : IsWellFormed db)
    (h : (claim_next_job identity f max d now db).0 ≡ ok (some job)) where
  abbrev after : Db
  after = (claim_next_job identity f max d now db).1

  -- A claim that returns a job adds one running job, and the number that then runs is at most the
  -- global limit that the claim was given.
  pub claim-global_limit :
      (count_running_jobs after ≡ count_running_jobs db + 1)
      × (leb_ℤ (pos (count_running_jobs after)) max ≡ true)
  claim-global_limit =
      let c = claim_inverts identity f max d now db w h in
      let s = claimed_by_search identity f max d now db h in
      let more : count_running_jobs after ≡ count_running_jobs db + 1 =
        ap count_running_jobs c.tables
        ∙ running_after identity now (add_duration now d) c.row.id db
        ∙ ap (λ n. count_running_jobs db + n) c.single in
      (more, rw more (ground (arith, s.room)))

  -- If the route of the job returned has a positive limit, then after the claim at most that many
  -- jobs of the route run.
  pub claim-route_limit :
      ltb_ℤ (pos 0) (f.per_route_limit job.route_name) ≡ true
      → leb_ℤ
          (pos (count_running_jobs_by_route job.route_name after))
          (f.per_route_limit job.route_name)
        ≡ true
  claim-route_limit limited =
      let c = claim_inverts identity f max d now db w h in
      let route : job.route_name ≡ c.row.route_name =
        ap (λ j. j.route_name) c.result ∙ (unfold scan_job claimed_row in refl) in
      let at_row : ltb_ℤ (pos 0) (f.per_route_limit c.row.route_name) ≡ true =
        subst (λ r. ltb_ℤ (pos 0) (f.per_route_limit r) ≡ true) route limited in
      let bound = route_after identity now (add_duration now d) c.row.id c.row.route_name db in
      subst (λ r. leb_ℤ (pos (count_running_jobs_by_route r after)) (f.per_route_limit r) ≡ true)
        (sym route)
        (subst
          (λ t.
            leb_ℤ (pos (count_running_jobs_by_route c.row.route_name t))
              (f.per_route_limit c.row.route_name)
            ≡ true)
          (sym c.tables)
          (one_more_fits (count_running_jobs_by_route c.row.route_name db) _ _
            (claimable_room f db c.row at_row c.claimable) (omega (arith, bound, c.single))))

  -- The job that a claim returns was pending; its row now runs under the claiming runner until the
  -- lease ends, with a launch that is preparing, and the row of every other job is as it was.
  pub claim-exclusive :
      (r : JobRow) × (find_job job.id db ≡ some r)
      × (is_pending r.status ≡ true)
      × (find_job job.id after ≡ some (claimed_row identity now (add_duration now d) r))
      × ((other : String) → other ≢ job.id → find_job other after ≡ find_job other db)
  claim-exclusive =
      let c = claim_inverts identity f max d now db w h in
      let same : c.row.id ≡ job.id =
        sym (ap (λ j. j.id) c.result ∙ (unfold scan_job claimed_row in refl)) in
      (
        c.row,
        subst (λ i. find_job i db ≡ some c.row) same c.stored,
        ground (arith, c.eligible),
        subst (λ i. find_job i after ≡ some (claimed_row identity now (add_duration now d) c.row))
            same
            (ap (find_job c.row.id) c.tables
              ∙ find_job-after_claim identity f max d now db c.row c.stored
                  (ground (arith, c.eligible))),
        λ other ne.
            ap (find_job other) c.tables
            ∙ other_row identity now (add_duration now d) c.row.id other db (λ e. ne (e ∙ same)),
      )
