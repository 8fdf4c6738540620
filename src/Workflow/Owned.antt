-- ===== src/Workflow/Owned.antt =====
-- What internal/workflow does to a job that a runner owns: `ApplyOwned` of workflow.go, and
-- `FinalizeClaimedJobOwned` and `CheckTransitionLimitOwned` of lifecycle.go. A nil client of GitHub
-- is the flag `has_github`.
use issueq.Prelude.{ℕ, ℤ, pos, String, Bool, true, false, none, ◌&&◌, if◌then◌else◌, leb_ℤ, append}
use issueq.Model.{JobStatus, IssueSnapshot, Job, RunnerIdentity, JobFinalize}
use issueq.Config.{Config, ActionConfig}
use issueq.Errors.{CallError, wrapped}
use issueq.Effects.{Outside, Io, pure, raise, ◌>>=◌, ◌>>◌, attempt, ask, handle}
use issueq.Effects.Queue.{renew_lease, count_transition, insert_event, finalize_job}
use issueq.Actions.Apply.{ApplyResult, apply_with_hooks}
use issueq.Workflow.{is_ownership_loss}

abbrev pub status_text : JobStatus → String
status_text JobStatus.pending = "pending"
status_text JobStatus.running = "running"
status_text JobStatus.succeeded = "succeeded"
status_text JobStatus.failed = "failed"
status_text JobStatus.skipped = "skipped"
status_text JobStatus.dead = "dead"
status_text JobStatus.cancelled = "cancelled"

-- `DropOnOwnershipLoss` of a call.
abbrev pub drop_on_loss : Io (Unit {0}) → Io Bool
drop_on_loss m =
    handle m (λ _. pure false) (λ x. if is_ownership_loss x then pure true else raise x)

module _ (o : Outside) (identity : RunnerIdentity) (job : Job) where
  -- An event of the job, with its error dropped.
  abbrev pub log_event : String → String → String → Io (Unit {0})
  log_event issue_key event_type message = do
    attempt (
        insert_event o (record {
          id = "";
          job_id = job.id;
          issue_key = issue_key;
          event_type = event_type;
          message = message;
          data_json = "";
          created_at = 0;
        }))
    pure tt

  abbrev pub claimed_result : JobStatus → String → ℕ → JobFinalize
  claimed_result status message now = record {
    status = status;
    last_error = message;
    result_path = "";
    stdout_path = "";
    stderr_path = "";
    finished_at = now;
    work_started = none;
  }

  -- Whether the job was finalized.
  unfoldable pub finalize_claimed_job : JobStatus → String → Io Bool
  finalize_claimed_job status message = do
    now ← ask o.clock
    dropped ←
        drop_on_loss
          (finalize_job o job.id identity.instance_id (claimed_result status message now))
    if dropped
        then pure false
        else (log_event job.issue_key (append "job_" (status_text status)) message >> pure true)

  module _ (lease : ℤ) where
    abbrev pub renew : Io (Unit {0})
    renew = renew_lease o job.id identity.instance_id lease

    -- Every side effect comes after a renewal of the lease.
    unfoldable pub apply_owned : IssueSnapshot → ActionConfig → Io ApplyResult
    apply_owned issue action = apply_with_hooks o renew issue action

    abbrev pub transition_limit : Config → ℤ
    transition_limit cfg =
        let limit = cfg.workflow.max_transitions_per_issue in
        if leb_ℤ (pos 0) limit && leb_ℤ limit (pos 0) then pos 10 else limit

    abbrev pub within_limit : ℤ → ℕ → Bool
    within_limit limit count = leb_ℤ (pos 0) limit && leb_ℤ (pos count) limit

    abbrev transitions_failed : IssueSnapshot → CallError → Io Bool
    transitions_failed issue x =
        if is_ownership_loss x
        then raise x
        else (log_event issue.issue_key "terminal_action_failed" x.text
            >> raise (wrapped "apply transitions-exceeded actions" x))

    abbrev pub exceed_transitions : Config → Bool → IssueSnapshot → Io Bool
    exceed_transitions cfg false issue = pure true
    exceed_transitions cfg true issue =
        renew
        >> handle (apply_owned issue cfg.workflow.on_transitions_exceeded) (λ _. pure true)
            (transitions_failed issue)

    -- Whether the issue has had more transitions than it may.
    unfoldable pub check_transition_limit : Config → Bool → IssueSnapshot → Io Bool
    unfolding apply_owned
    check_transition_limit cfg has_github issue = do
      renew
      count ← count_transition o job.id identity.instance_id issue.issue_key
      if within_limit (transition_limit cfg) count
          then pure false
          else exceed_transitions cfg has_github issue
