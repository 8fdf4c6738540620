-- ===== src/Examples/Lifecycles.antt =====
-- Witnesses of preparing, launching and finalizing a job, and of the dispatcher's wave.
use issueq.Store.Scan.{scan_job}
use issueq.Store.Claim.{claimed_row}
use issueq.Store.Queue.{new_job_row}
use issueq.Prelude.{
  ◌≢◌, contains, ℕ, pos, false, true, Option, none, some, [], ◌∷◌, All, ◌≡◌, refl, arith, is_blank,
}
use issueq.Store
use issueq.Effects
use issueq.Actions
use issueq.Store.{Db}
use issueq.Store.Steps.{Reaches-IsWellFormed, here, then, upserts_issue, upserts_handoff, enqueues}
use issueq.Store.WellFormed.{IsWellFormed}
use issueq.Effects.Ends.{OnValue}
use issueq.Workflow.Guarded.{
  IsGuarded, start, prepare_claimed_wrapper_launch-IsGuarded, finalize_with_lifecycle-IsGuarded,
}
use issueq.Errors.{Answer, value, error}
use issueq.Workflow.Prepare.{Prepared, PrepareOutcome, launch, prepare_claimed_wrapper_launch}
use issueq.Workflow.Lifecycle.{finalize_owned_observation_with_lifecycle}
use issueq.Workflow.Launch.Steps.{launch_claimed_wrapper}
use issueq.Workflow.Launch.Safety.{StartsMarked, launch_claimed_wrapper-StartsMarked}
use issueq.Store.Owned.{find_job}
use issueq.Routing.Gating.{not_eq}
use issueq.Workflow.Others.{workflow-others, workflow-fenced}
use issueq.Store.Foreign.{runs_under}
use issueq.Dispatcher.{refill}
use issueq.Store.Queue.{list_owned_running_jobs}
use issueq.Dispatcher.Reaping.{reap_renew_active}
use issueq.Dispatcher.Reaping.Owned.{IsKept, reap_renew_active-IsKept}
use issueq.Dispatcher.Reaping.Stable.{reap_renew_active-others}
use issueq.Dispatcher.Refilling.{refill-unfinished}
use issueq.Poller.{poll}
use issueq.Poller.Polled.{IsCounted, poll-HasAll}
use issueq.Poller.Stored.{HasAll}
use issueq.Examples.Data.{runner_a}
use issueq.Examples.Sample.{ready_issue, approval, clean_exit, config}
use issueq.Examples.Outer.{
  outside, doing_config, doing_route, claimed_job, claimed_world, queued_world, queued_db,
  issue_job, launch_input, wave_config, no_wave, active_wave, claimed_wave, two_jobs_world,
  empty_world, foreign_input, row_of_a, poll_client, handoff_text,
}

prepare_claimed_wrapper_launch-IsGuarded_example :
    IsGuarded claimed_job.id
      (prepare_claimed_wrapper_launch outside doing_config runner_a
        (pos 100)
        doing_route
        claimed_job
        true
        claimed_world).1.trace
prepare_claimed_wrapper_launch-IsGuarded_example =
    prepare_claimed_wrapper_launch-IsGuarded outside doing_config runner_a (pos 100) claimed_job
      true claimed_world doing_route start

finalize_with_lifecycle-IsGuarded_example :
    IsGuarded claimed_job.id
      (finalize_owned_observation_with_lifecycle outside doing_config runner_a
        (pos 100)
        claimed_job
        clean_exit
        40
        true
        claimed_world).1.trace
finalize_with_lifecycle-IsGuarded_example =
    finalize_with_lifecycle-IsGuarded outside doing_config runner_a (pos 100) claimed_job true
      claimed_world clean_exit 40 start

other_id : "job_2" ≢ claimed_job.id
unfolding scan_job claimed_row new_job_row
other_id = not_eq refl

other_active : contains claimed_wave.active "job_2" ≡ false
unfolding scan_job claimed_row new_job_row
other_active = refl

workflow-others_example :
    (find_job "job_2"
        (prepare_claimed_wrapper_launch outside doing_config runner_a
          (pos 100)
          doing_route
          claimed_job
          true
          two_jobs_world).1.db
      ≡ find_job "job_2" two_jobs_world.db)
    × (find_job "job_2" (launch_claimed_wrapper outside launch_input two_jobs_world).1.db
        ≡ find_job "job_2" two_jobs_world.db)
    × (find_job "job_2"
          (finalize_owned_observation_with_lifecycle outside doing_config runner_a
            (pos 100)
            claimed_job
            clean_exit
            40
            true
            two_jobs_world).1.db
        ≡ find_job "job_2" two_jobs_world.db)
workflow-others_example =
    workflow-others outside doing_config runner_a (pos 100) doing_route claimed_job clean_exit 40
      true launch_input two_jobs_world "job_2" other_id other_id

row_of_a_stored : find_job claimed_job.id claimed_world.db ≡ some row_of_a
unfolding scan_job claimed_row new_job_row is_blank Store.Claim.claim_next_job
    Store.Queue.enqueue_job Store.Handoffs.upsert_handoff Store.Issues.upsert_issue
row_of_a_stored = refl

runs_under_a : runs_under foreign_input.identity.instance_id row_of_a ≡ false
unfolding claimed_row new_job_row
runs_under_a = refl

workflow-fenced_example :
    (find_job claimed_job.id
        (prepare_claimed_wrapper_launch outside doing_config foreign_input.identity
          (pos 100)
          doing_route
          claimed_job
          true
          claimed_world).1.db
      ≡ some row_of_a)
    × (find_job claimed_job.id (launch_claimed_wrapper outside foreign_input claimed_world).1.db
        ≡ some row_of_a)
    × (find_job claimed_job.id
          (finalize_owned_observation_with_lifecycle outside doing_config foreign_input.identity
            (pos 100)
            claimed_job
            clean_exit
            40
            true
            claimed_world).1.db
        ≡ some row_of_a)
workflow-fenced_example =
    workflow-fenced outside doing_config (pos 100) doing_route clean_exit 40 true foreign_input
      claimed_world row_of_a row_of_a_stored runs_under_a

launch_claimed_wrapper-StartsMarked_example :
    All (StartsMarked "a-1") (launch_claimed_wrapper outside launch_input claimed_world).1.trace
launch_claimed_wrapper-StartsMarked_example =
    launch_claimed_wrapper-StartsMarked outside launch_input claimed_world tt

queued-IsWellFormed : IsWellFormed queued_db
queued-IsWellFormed = Reaches-IsWellFormed queued_db (
    (then) ((then) ((then) here (upserts_issue ready_issue 6)) (upserts_handoff approval 8))
      (enqueues "job_1" issue_job 10))

refill-unfinished_example :
    OnValue
      (λ r _. r.unfinished ≡ false)
      (refill outside wave_config 2 no_wave ("job_1" ∷ []) queued_world)
refill-unfinished_example =
    refill-unfinished outside wave_config 2 no_wave ("job_1" ∷ []) queued_world (omega arith)
      queued-IsWellFormed

reap_renew_active-IsKept_example :
    OnValue
      (λ r _.
        IsKept
          (list_owned_running_jobs wave_config.identity.instance_id claimed_world.db)
          active_wave
          r)
      (reap_renew_active outside wave_config active_wave claimed_world)
reap_renew_active-IsKept_example =
    reap_renew_active-IsKept outside wave_config active_wave claimed_world

reap_renew_active-others_example :
    find_job "job_2" (reap_renew_active outside wave_config claimed_wave two_jobs_world).1.db
    ≡ find_job "job_2" two_jobs_world.db
reap_renew_active-others_example =
    reap_renew_active-others outside wave_config claimed_wave two_jobs_world "job_2" other_active

poll-HasAll_example :
    OnValue
      (λ r w.
        HasAll outside poll_client handoff_text config (outside.clock 1) (ready_issue ∷ []) w
        × IsCounted 0 0 r)
      (poll outside poll_client handoff_text config empty_world)
poll-HasAll_example =
    poll-HasAll outside poll_client handoff_text config empty_world (ready_issue ∷ []) refl

-- The claimed job is prepared for a launch with its first attempt, after the label and the comment.
abbrev outcome_of : Answer Prepared → Option (PrepareOutcome × ℕ)
outcome_of (value p) = some (p.outcome, p.attempts)
outcome_of (error x) = none

claimed-prepared :
    outcome_of
      (prepare_claimed_wrapper_launch outside doing_config runner_a
        (pos 100)
        doing_route
        claimed_job
        true
        claimed_world).0
    ≡ some (launch, 1)
unfolding prepare_claimed_wrapper_launch Effects.Queue.stored_issue Effects.call
    Store.Issues.get_issue Store.Claim.claim_next_job is_blank Store.Queue.enqueue_job
    Store.Handoffs.upsert_handoff Store.Issues.upsert_issue Effects.Queue.renew_lease
    Store.Leases.renew_job_lease Effects.Queue.store_issue Effects.Queue.issue_state
    Store.Attempts.get_issue_state Effects.Queue.count_attempt
    Store.Attempts.increment_attempts_for_job Actions.Apply.apply_with_hooks
    Actions.Labels.same_label_set
claimed-prepared = refl
