-- ===== src/Examples/Queue.antt =====
-- Witnesses and tests of the queue.
use issueq.Prelude.{◌≡◌, refl, pos, [], ◌∷◌, map, is_blank}
use issueq.Model.{JobStatus}
use issueq.Store.Claim.{claim_next_job}
use issueq.Store.Queue.{enqueue_job}
use issueq.Store.Steps.{Reaches, here, then, enqueues, claims, empty_db, Reaches-IsWellFormed}
use issueq.Store.WellFormed.{IsWellFormed}
use issueq.Examples.Data.{low_job, high_job, runner_a, any_job, one_claimed}

abbrev reaches_claimed : Reaches empty_db one_claimed
reaches_claimed =
    then (then (then here (enqueues "job_1" low_job 10)) (enqueues "job_2" high_job 20))
      (claims runner_a any_job (pos 2) (pos 100) 30)

Reaches-IsWellFormed_example : IsWellFormed one_claimed
Reaches-IsWellFormed_example = Reaches-IsWellFormed one_claimed reaches_claimed

-- The claim took the job of the higher priority.
claimed_statuses : map (λ j. j.status) one_claimed.jobs ≡ JobStatus.pending ∷ JobStatus.running ∷ []
unfolding enqueue_job claim_next_job is_blank
claimed_statuses = refl
