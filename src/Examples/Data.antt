-- ===== src/Examples/Data.antt =====
-- Test data: a route's jobs, two runners, and a store after a few calls.
use issueq.Prelude.{pos, none, []}
use issueq.Model.{JobCreate, RunnerIdentity}
use issueq.Store.{Db}
use issueq.Store.Claim.{ClaimFilter, claim_next_job}
use issueq.Store.Queue.{enqueue_job}
use issueq.Store.Steps.{empty_db}

abbrev pub low_job : JobCreate
low_job = record {
  issue_key = "github.com/o/r#1";
  route_name = "plan";
  kind = "agent";
  priority = pos 1;
  dedupe_key = "k1";
  available_at = 0;
}

abbrev pub high_job : JobCreate
high_job = record low_job { issue_key = "github.com/o/r#2"; priority = pos 5; dedupe_key = "k2" }

abbrev pub runner_a : RunnerIdentity
runner_a = record { runner_id = "a"; instance_id = "a-1" }

abbrev pub runner_b : RunnerIdentity
runner_b = record { runner_id = "b"; instance_id = "b-1" }

abbrev pub any_job : ClaimFilter
any_job = record { allowed_kinds = []; per_route_limit = λ _. pos 1; frontier = none }

abbrev pub two_queued : Db
two_queued = (enqueue_job "job_2" high_job 20 (enqueue_job "job_1" low_job 10 empty_db).1).1

-- Runner `a` holds the job of the higher priority until time 130.
abbrev pub one_claimed : Db
one_claimed = (claim_next_job runner_a any_job (pos 2) (pos 100) 30 two_queued).1
