-- ===== src/Examples/Owners.antt =====
-- Witnesses of leases and owners.
use issueq.Prelude.{
  ◌+◌, ◌==◌, false, if◌then◌else◌, map, ◌≡◌, refl, String, pos, none, some, [], ◌∷◌, length,
  is_blank,
}
use issueq.Model.{Time, Job, LaunchState, JobStatus, JobFinalize}
use issueq.Store.{not_owner, ok, err}
use issueq.Store.Scan.{scan_job}
use issueq.Store.Owned.{is_owned, find_job}
use issueq.Store.Claim.{claimed_row, claim_next_job}
use issueq.Store.Leases.{released_row, release_expired_leases}
use issueq.Sql.{update_where, count_where}
use issueq.Leasing.Attempts.{counted_so_far, increment_attempts_for_job-counts}
use issueq.Store.Attempts.{
  AttemptKey, scoped, attempts_of, counted_row, increment_attempts_for_job,
  increment_transitions_for_job,
}
use issueq.Store.Finalize.{FinalizeClock, finalize_job_owned}
use issueq.Store.Queue.{new_job_row, enqueue_job}
use issueq.Store.Steps.{here, then, enqueues, claims, Reaches-IsWellFormed}
use issueq.Store.WellFormed.{IsWellFormed}
use issueq.Leasing.Release.{map_row, is_released, release_expired_leases-row}
use issueq.Leasing.Fencing.{refusal, owned_calls-fenced}
use issueq.Workflow.Observe.{JobObservation}
use issueq.Workflow.Finalize.{finalize_owned_observation, finalize_owned_observations}
use issueq.Workflow.Counts.{Adds, no_finalizations, finalize_owned_observations-Adds}
use issueq.Workflow.StoreQueue.{store_finalizer, IsDropped, finalize_owned_observation-refused}
use issueq.Examples.Sample.{printing, no_files, clean_exit}
use issueq.Examples.Data.{low_job, high_job, runner_a, runner_b, any_job, one_claimed}

claimed-IsWellFormed : IsWellFormed one_claimed
claimed-IsWellFormed = Reaches-IsWellFormed one_claimed (
    (then) ((then) ((then) here (enqueues "job_1" low_job 10)) (enqueues "job_2" high_job 20))
      (claims runner_a any_job (pos 2) (pos 100) 30))

release_expired_leases-row_example :
    find_job "job_2" (release_expired_leases 200 100 "b-1" [] one_claimed).1
    ≡ map_row
        (λ r. if is_released 200 100 "b-1" [] one_claimed r then released_row 200 r else r)
        (find_job "job_2" one_claimed)
release_expired_leases-row_example =
    release_expired_leases-row 200 100 "b-1" [] one_claimed "job_2" claimed-IsWellFormed

-- The lease of the claimed job has passed at 200, and its runner has no heartbeat.
job_2-released :
    map (λ r. r.status) (release_expired_leases 200 100 "b-1" [] one_claimed).1.jobs
    ≡ JobStatus.pending ∷ JobStatus.pending ∷ []
unfolding release_expired_leases enqueue_job claim_next_job is_blank
job_2-released = refl

-- The job as the runner `a` recorded it.
abbrev job_2 : Job
job_2 = record (scan_job (claimed_row runner_a 30 130 (new_job_row "job_2" high_job 20))) {
  id = "job_2";
  supervisor_kind = "wrapper";
  launch_token = "token";
  launch_state = some LaunchState.running;
  run_metadata_path = "run.json";
}

job_2-refused : refusal "b-1" 50 (find_job job_2.id one_claimed) ≡ some not_owner
unfolding enqueue_job claim_next_job is_blank
job_2-refused = refl

owned_calls-fenced_example :
    ((k : AttemptKey) (counted_at now : Time)
      → increment_attempts_for_job "job_2" "b-1" k 50 counted_at now one_claimed
        ≡ (err not_owner, one_claimed))
    × ((issue_key : String) (now : Time)
        → increment_transitions_for_job "job_2" "b-1" issue_key 50 now one_claimed
          ≡ (err not_owner, one_claimed))
    × ((result : JobFinalize) (finished_at reversed_at now : Time)
        → finalize_job_owned "job_2" "b-1" result
            (record {
              finished_at = finished_at;
              checked_at = 50;
              reversed_at = reversed_at;
              now = now;
            })
            one_claimed
          ≡ (err not_owner, one_claimed))
owned_calls-fenced_example = owned_calls-fenced "job_2" "b-1" one_claimed 50 job_2-refused

abbrev finalize_clock : FinalizeClock
finalize_clock = record { finished_at = 40; checked_at = 50; reversed_at = 51; now = 52 }

-- The runner `b` observes the end of the job that runs under the runner `a`.
finalize_owned_observation-refused_example :
    IsDropped printing no_files finalize_clock runner_b job_2 clean_exit 41 one_claimed (
      finalize_owned_observation printing no_files
        (store_finalizer finalize_clock)
        runner_b
        job_2
        clean_exit
        41
        one_claimed)
finalize_owned_observation-refused_example =
    finalize_owned_observation-refused printing no_files finalize_clock runner_b job_2 clean_exit 41
      one_claimed job_2-refused

abbrev observed_job : JobObservation
observed_job = record { job = job_2; observation = clean_exit }

no_error_seen :
    (finalize_owned_observations printing no_files
      (store_finalizer finalize_clock)
      runner_a
      (observed_job ∷ [])
      41
      no_finalizations
      one_claimed).0.1
    ≡ none
unfolding finalize_owned_observations enqueue_job claim_next_job is_blank finalize_job_owned
no_error_seen = refl

finalize_owned_observations-Adds_example :
    Adds
      (finalize_owned_observations printing no_files
        (store_finalizer finalize_clock)
        runner_a
        (observed_job ∷ [])
        41
        no_finalizations
        one_claimed).0.0
    × ((finalize_owned_observations printing no_files
          (store_finalizer finalize_clock)
          runner_a
          (observed_job ∷ [])
          41
          no_finalizations
          one_claimed).0.0.observed
        ≡ length (observed_job ∷ []))
finalize_owned_observations-Adds_example =
    finalize_owned_observations-Adds printing no_files (store_finalizer finalize_clock) runner_a 41
      (observed_job ∷ []) one_claimed no_error_seen

abbrev plan_key : AttemptKey
plan_key = record {
  issue_key = "github.com/o/r#2";
  generation = 0;
  route_name = "plan";
  scope_hash = "";
}

job_2-allowed : refusal "a-1" 50 (find_job "job_2" one_claimed) ≡ none
unfolding enqueue_job claim_next_job is_blank
job_2-allowed = refl

job_2-still_owned : (count_where (is_owned "job_2" "a-1" 52) one_claimed.jobs == 0) ≡ false
unfolding enqueue_job claim_next_job is_blank
job_2-still_owned = refl

increment_attempts_for_job-counts_example :
    ((increment_attempts_for_job "job_2" "a-1" plan_key 50 51 52 one_claimed).0
      ≡ ok (counted_so_far (scoped plan_key) one_claimed + 1))
    × (attempts_of
          (scoped plan_key)
          (increment_attempts_for_job "job_2" "a-1" plan_key 50 51 52 one_claimed).1
        ≡ some (counted_so_far (scoped plan_key) one_claimed + 1))
    × ((increment_attempts_for_job "job_2" "a-1" plan_key 50 51 52 one_claimed).1.jobs
        ≡ update_where
            (is_owned "job_2" "a-1" 52)
            (counted_row
              (counted_so_far (scoped plan_key) one_claimed + 1)
              plan_key.generation
              (scoped plan_key).scope_hash
              52)
            one_claimed.jobs)
increment_attempts_for_job-counts_example =
    increment_attempts_for_job-counts "job_2" "a-1" plan_key 50 51 52 one_claimed job_2-allowed
      job_2-still_owned
