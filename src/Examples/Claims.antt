-- ===== src/Examples/Claims.antt =====
-- Witnesses of the claims.
use issueq.Prelude.{
  ◌≡◌, ◌≢◌, refl, pos, ◌+◌, String, true, false, none, some, [], ◌∷◌, is_blank, All, leb_ℤ,
}
use issueq.Model.{Job, is_pending}
use issueq.Store.{JobRow, ok}
use issueq.Store.Scan.{scan_job}
use issueq.Store.Owned.{find_job}
use issueq.Store.Claim.{
  ClaimFilter, is_eligible, is_claimable, queue_before, count_running_jobs,
  count_running_jobs_by_route, claimed_row, claim_next_job,
}
use issueq.Store.Queue.{new_job_row, enqueue_job}
use issueq.Store.Steps.{here, then, enqueues, Reaches-IsWellFormed}
use issueq.Store.WellFormed.{IsWellFormed}
use issueq.Claiming.Loop.{CanSearch}
use issueq.Claiming.Capacity.{claim-global_limit, claim-route_limit, claim-exclusive}
use issueq.Claiming.Priority.{claim-priority, claim_complete}
use issueq.Examples.Data.{low_job, high_job, runner_a, any_job, two_queued}

queued-IsWellFormed : IsWellFormed two_queued
queued-IsWellFormed =
    Reaches-IsWellFormed two_queued
      (then (then here (enqueues "job_1" low_job 10)) (enqueues "job_2" high_job 20))

abbrev job_2 : Job
job_2 = scan_job (claimed_row runner_a 30 130 (new_job_row "job_2" high_job 20))

job_2-claimed :
    (claim_next_job runner_a any_job (pos 2) (pos 100) 30 two_queued).0 ≡ ok (some job_2)
unfolding enqueue_job claim_next_job is_blank
job_2-claimed = refl

job_2-limited : leb_ℤ (pos 1) (any_job.per_route_limit job_2.route_name) ≡ true
job_2-limited = refl

queued-CanSearch : CanSearch runner_a (pos 2) two_queued
unfolding count_running_jobs enqueue_job is_blank
queued-CanSearch = record { positive = refl; named = refl; instanced = refl; room = refl }

claim-global_limit_example :
    (count_running_jobs (claim_next_job runner_a any_job (pos 2) (pos 100) 30 two_queued).1
      ≡ count_running_jobs two_queued + 1)
    × (leb_ℤ
          (pos (
            count_running_jobs (claim_next_job runner_a any_job (pos 2) (pos 100) 30 two_queued).1))
          (pos 2)
        ≡ true)
claim-global_limit_example =
    claim-global_limit runner_a any_job (pos 2) (pos 100) 30 two_queued queued-IsWellFormed
      job_2-claimed

claim-route_limit_example :
    leb_ℤ
      (pos (
        count_running_jobs_by_route job_2.route_name
          (claim_next_job runner_a any_job (pos 2) (pos 100) 30 two_queued).1))
      (pos 1)
    ≡ true
claim-route_limit_example =
    claim-route_limit runner_a any_job (pos 2) (pos 100) 30 two_queued queued-IsWellFormed
      job_2-claimed job_2-limited

claim-exclusive_example :
    (r : JobRow) × (find_job job_2.id two_queued ≡ some r)
    × (is_pending r.status ≡ true)
    × (find_job job_2.id (claim_next_job runner_a any_job (pos 2) (pos 100) 30 two_queued).1
        ≡ some (claimed_row runner_a 30 130 r))
    × ((other : String)
        → other ≢ job_2.id
        → find_job other (claim_next_job runner_a any_job (pos 2) (pos 100) 30 two_queued).1
          ≡ find_job other two_queued)
claim-exclusive_example =
    claim-exclusive runner_a any_job (pos 2) (pos 100) 30 two_queued queued-IsWellFormed
      job_2-claimed

claim-priority_example :
    (r : JobRow) × (find_job job_2.id two_queued ≡ some r)
    × (is_eligible 30 r ≡ true)
    × (is_claimable any_job two_queued r ≡ true)
    × All
        (λ s.
          is_eligible 30 s ≡ true
          → is_claimable any_job two_queued s ≡ true
          → queue_before r s ≡ true)
        two_queued.jobs
claim-priority_example =
    claim-priority runner_a any_job (pos 2) (pos 100) 30 two_queued queued-IsWellFormed
      job_2-claimed

abbrev shell_only : ClaimFilter
shell_only = record any_job { allowed_kinds = "shell" ∷ [] }

nothing_claimed : (claim_next_job runner_a shell_only (pos 2) (pos 100) 30 two_queued).0 ≡ ok none
unfolding enqueue_job claim_next_job is_blank
nothing_claimed = refl

claim_complete_example :
    ((claim_next_job runner_a shell_only (pos 2) (pos 100) 30 two_queued).1 ≡ two_queued)
    × All
        (λ s. is_eligible 30 s ≡ true → is_claimable shell_only two_queued s ≡ false)
        two_queued.jobs
claim_complete_example =
    claim_complete runner_a shell_only (pos 2) (pos 100) 30 two_queued queued-IsWellFormed
      queued-CanSearch nothing_claimed
