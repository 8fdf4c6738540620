-- ===== src/Store/Claim.antt =====
-- sqlite.go: `ClaimNextJob`, `ClaimNextJobInFrontier`, `claimNextJob`, `ListEligibleJobIDs`,
-- `CountRunningJobs`, `CountRunningJobsByRoute`. The limits of a Go map are a function that is 0 at
-- a missing route.
use issueq.Prelude.{
  ℕ, ℤ, pos, String, Bool, true, false, not, Option, none, some, List, [], ◌∷◌, map, ◌&&◌,
  if◌then◌else◌, ltb, leb, ◌==◌, ltb_ℤ, leb_ℤ, add_duration, str_eq, str_leb, is_blank, contains,
}
use issueq.Sql.{update_where, count_where, select_where, order_by, insert_by, coalesce}
use issueq.Model.{Time, JobStatus, is_pending, is_running, preparing, Job, RunnerIdentity}
use issueq.Store.{JobRow, Db, Result, ok, err, Op, fail}
use issueq.Store.Owned.{has_id, update_jobs, job_by_id}

-- `ORDER BY priority DESC, created_at ASC, id ASC`
unfoldable pub queue_before : JobRow → JobRow → Bool
queue_before a b =
    if ltb_ℤ b.priority a.priority
    then true
    else if ltb_ℤ a.priority b.priority
    then false
    else if ltb a.created_at b.created_at
    then true
    else if ltb b.created_at a.created_at
    then false
    else str_leb a.id b.id

-- `status = 'pending' AND available_at <= ?`
abbrev pub is_eligible : Time → JobRow → Bool
is_eligible now r = is_pending r.status && leb r.available_at now

unfoldable pub eligible_rows : Time → Db → List JobRow
unfolding select_where order_by insert_by queue_before
eligible_rows now db = order_by queue_before (select_where (is_eligible now) db.jobs)

unfoldable pub list_eligible_job_ids : Time → Db → List String
unfolding eligible_rows
list_eligible_job_ids now db = map (λ r. r.id) (eligible_rows now db)

unfoldable pub count_running_jobs : Db → ℕ
unfolding count_where
count_running_jobs db = count_where (λ r. is_running r.status) db.jobs

abbrev pub runs_route : String → JobRow → Bool
runs_route route_name r = is_running r.status && str_eq r.route_name route_name

unfoldable pub count_running_jobs_by_route : String → Db → ℕ
unfolding count_where
count_running_jobs_by_route route_name db = count_where (runs_route route_name) db.jobs

-- What the loop reads of its arguments: the kinds allowed, the limit of each route, and the
-- frontier, if there is one.
pub record ClaimFilter : Type 0 where
  pub allowed_kinds : List String
  pub per_route_limit : String → ℤ
  pub frontier : Option (List String)

abbrev pub in_frontier : Option (List String) → String → Bool
in_frontier none job_id = true
in_frontier (some ids) job_id = contains ids job_id

abbrev pub allows_kind : List String → String → Bool
allows_kind [] kind = true
allows_kind (k ∷ ks) kind = contains (k ∷ ks) kind

-- `limit > 0` and the route runs as many jobs as its limit.
unfoldable pub route_is_full : ClaimFilter → String → Db → Bool
unfolding count_running_jobs_by_route
route_is_full f route_name db =
    ltb_ℤ (pos 0) (f.per_route_limit route_name)
    && leb_ℤ (f.per_route_limit route_name) (pos (count_running_jobs_by_route route_name db))

unfoldable pub is_claimable : ClaimFilter → Db → JobRow → Bool
unfolding route_is_full
is_claimable f db r =
    in_frontier f.frontier r.id
    && allows_kind f.allowed_kinds r.kind
    && not (route_is_full f r.route_name db)

-- The SET list of the claim.
unfoldable pub claimed_row : RunnerIdentity → Time → Time → JobRow → JobRow
claimed_row identity now lease_until r = record r {
  status = JobStatus.running;
  locked_by = some identity.runner_id;
  runner_instance_id = some identity.instance_id;
  lease_until = some lease_until;
  started_at = coalesce r.started_at (some now);
  updated_at = now;
  last_error = none;
  launch_state = some preparing;
  supervisor_kind = none;
  supervisor_id = none;
  launch_token = none;
  pgid = none;
  process_started_at = none;
  run_metadata_path = none;
  launch_spec_path = none;
  timeout_at = none;
}

-- `WHERE id = ? AND status = 'pending'`
abbrev pub still_pending : String → JobRow → Bool
still_pending job_id r = has_id job_id r && is_pending r.status

-- The loop over the pending rows: the id of the job claimed, if any, and the tables after it.
unfoldable pub claim_rows :
    ClaimFilter → RunnerIdentity → Time → Time → List JobRow → Db → Option String × Db
unfolding is_claimable claimed_row update_where count_where
claim_rows f identity now lease_until [] db = (none, db)
claim_rows f identity now lease_until (r ∷ rs) db =
    let next = claim_rows f identity now lease_until rs db in
    let db' = update_jobs (still_pending r.id) (claimed_row identity now lease_until) db in
    let retry = claim_rows f identity now lease_until rs db' in
    if not (is_claimable f db r)
    then next
    else if count_where (still_pending r.id) db.jobs == 0
    then retry
    else (some r.id, db')

-- A claimed job is read again after the commit.
abbrev pub read_claimed : Option String → Db → Result (Option Job)
read_claimed none db = ok none
read_claimed (some job_id) db = elim (job_by_id job_id db) [
  | ok job ↦ ok (some job)
  | err e ↦ err e
]

unfoldable pub claim_next_job : RunnerIdentity → ClaimFilter → ℤ → ℤ → Time → Op (Option Job)
unfolding count_running_jobs claim_rows eligible_rows job_by_id
claim_next_job identity f max_global lease_duration now db =
    if leb_ℤ max_global (pos 0)
    then (ok none, db)
    else if is_blank identity.runner_id
    then fail "runner id is required" db
    else if is_blank identity.instance_id
    then fail "runner instance id is required" db
    else if leb_ℤ max_global (pos (count_running_jobs db))
    then (ok none, db)
    else let (claimed, db') =
        claim_rows f identity now (add_duration now lease_duration) (eligible_rows now db) db in
      (read_claimed claimed db', db')

-- `ClaimNextJob` passes no frontier; `ClaimNextJobInFrontier` returns at once on an empty one.
unfoldable pub claim_next_job_in_frontier :
    RunnerIdentity → List String → ℤ → (String → ℤ) → ℤ → List String → Time → Op (Option Job)
unfolding claim_next_job
claim_next_job_in_frontier identity kinds max_global limits lease_duration [] now db = (ok none, db)
claim_next_job_in_frontier identity kinds max_global limits lease_duration (j ∷ js) now db =
    claim_next_job identity
      (record { allowed_kinds = kinds; per_route_limit = limits; frontier = some (j ∷ js) })
      max_global lease_duration now db
