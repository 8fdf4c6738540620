-- ===== src/Workflow/Lifecycle.antt =====
-- lifecycle.go: `FinalizeOwnedObservationWithLifecycle`, `finalizeObservedTerminal`. A result beside
-- an error is left out.
use issueq.Prelude.{
  String, Bool, true, false, not, Option, none, some, ◌&&◌, if◌then◌else◌, str_eq, append, ℤ,
}
use issueq.Model.{Time, is_zero, JobStatus, IssueSnapshot, Job, RunnerIdentity, JobFinalize}
use issueq.Config.{Config, RouteConfig, ActionConfig}
use issueq.Supervisor.{Observation}
use issueq.Errors.{CallError, Answer, value, error}
use issueq.Effects.{Outside, Io, pure, raise, ◌>>=◌, ◌>>◌, ask, handle}
use issueq.Effects.Queue.{stored_issue, finalize_job}
use issueq.Actions.{ResultAction, merge}
use issueq.Actions.Results.{parse_result_file}
use issueq.Actions.Apply.{ApplyResult}
use issueq.Workflow.{
  is_ownership_loss, status_for_observation, observation_to_decision, route_by_name,
}
use issueq.Workflow.Finalize.{
  ResultFiles, last_error_for_observation, work_started_of, ObservationFinalization, started_result,
}
use issueq.Workflow.Owned.{
  status_text, drop_on_loss, log_event, renew, apply_owned, check_transition_limit,
}

-- What the file with the result says of an observed job, and the status and the error so far.
pub record Outcome : Type 0 where
  pub status : JobStatus
  pub last_error : String
  pub action : Option ResultAction
  pub work_started : Option Bool

abbrev pub is_cancelled : JobStatus → Bool
is_cancelled JobStatus.cancelled = true
is_cancelled _ = false

abbrev pub is_succeeded : JobStatus → Bool
is_succeeded JobStatus.succeeded = true
is_succeeded _ = false

abbrev pub work_started : Option ResultAction → Option Bool
work_started none = none
work_started (some action) = action.work_started

-- A result that does not parse makes the job a failed one.
abbrev pub with_result : JobStatus → String → Answer (Option ResultAction) → Outcome
with_result status last_error (error x) = record {
  status = JobStatus.failed;
  last_error = x.text;
  action = none;
  work_started = none;
}
with_result status last_error (value action) = record {
  status = status;
  last_error = last_error;
  action = action;
  work_started = work_started action;
}

abbrev pub final_action : RouteConfig → Outcome → ActionConfig
final_action route out =
    let configured =
      if is_succeeded out.status then route.job.on_success else route.job.on_failure in
    elim out.action [ none ↦ configured | some action ↦ merge configured action ]

module _ (o : Outside) (cfg : Config) (identity : RunnerIdentity) (lease : ℤ) (job : Job)
    (obs : Observation) (now : Time) where
  unfoldable pub outcome_of_result : Bool → JobStatus → ResultFiles → Outcome
  unfolding last_error_for_observation parse_result_file
  outcome_of_result has_github status files =
      let last_error = last_error_for_observation o.printing obs in
      if not has_github
      then record {
        status = status;
        last_error = last_error;
        action = none;
        work_started = work_started_of files obs;
      }
      else with_result status last_error (
          if str_eq obs.result_path ""
          then value none
          else parse_result_file o.json files obs.result_path)

  abbrev pub start : ObservationFinalization
  start = started_result job (observation_to_decision obs)

  abbrev pub lost_result : ObservationFinalization
  lost_result = record start { ownership_lost = true }

  abbrev pub terminal_result : JobStatus → String → Option Bool → JobFinalize
  terminal_result status last_error started = record {
    status = status;
    last_error = last_error;
    result_path = obs.result_path;
    stdout_path = obs.stdout_path;
    stderr_path = obs.stderr_path;
    finished_at = if is_zero obs.finished_at then now else obs.finished_at;
    work_started = started;
  }

  abbrev pub log_terminal : JobStatus → String → Bool → Io ObservationFinalization
  log_terminal status last_error dropped =
      if dropped
      then pure lost_result
      else (log_event o identity job job.issue_key (append "job_" (status_text status)) last_error
          >> pure (record start { status = some status; finalized = true }))

  unfoldable pub finalize_observed_terminal :
      JobStatus → String → Option Bool → Io ObservationFinalization
  finalize_observed_terminal status last_error started =
      drop_on_loss
        (finalize_job o job.id identity.instance_id (terminal_result status last_error started))
      >>= log_terminal status last_error

  abbrev pub finalize_as : Outcome → Io ObservationFinalization
  finalize_as out = finalize_observed_terminal out.status out.last_error out.work_started

  abbrev pub lost_or :
      (CallError → Io ObservationFinalization) → CallError → Io ObservationFinalization
  lost_or f x = if is_ownership_loss x then pure lost_result else f x

  abbrev pub fail_observed : Outcome → String → CallError → Io ObservationFinalization
  fail_observed out prefix x =
      finalize_observed_terminal JobStatus.failed (append prefix (append ": " x.text))
        out.work_started

  abbrev pub with_limit : Outcome → Bool → Io ObservationFinalization
  with_limit out dead =
      if dead
      then finalize_observed_terminal JobStatus.dead "max transitions exceeded" out.work_started
      else finalize_as out

  abbrev pub after_apply : Outcome → ApplyResult → Io ObservationFinalization
  after_apply out applied =
      if applied.changed
      then handle (check_transition_limit o identity job lease cfg true applied.updated_issue)
          (with_limit out) (lost_or (fail_observed out "check transition limit"))
      else finalize_as out

  abbrev pub after_apply_error : Outcome → CallError → Io ObservationFinalization
  after_apply_error out x = finalize_observed_terminal JobStatus.failed x.text out.work_started

  abbrev pub apply_final : Outcome → RouteConfig → IssueSnapshot → Io ObservationFinalization
  apply_final out route issue =
      handle (renew o identity job lease)
        (λ _.
          handle (apply_owned o identity job lease issue (final_action route out)) (after_apply out)
            (lost_or (after_apply_error out)))
        (lost_or raise)

  abbrev pub apply_route : Outcome → Option RouteConfig → Io ObservationFinalization
  apply_route out none = finalize_as out
  apply_route out (some route) =
      handle (stored_issue o job.issue_key) (apply_final out route) (fail_observed out "load issue")

  unfoldable pub finalize_outcome : Bool → Outcome → Io ObservationFinalization
  unfolding finalize_observed_terminal route_by_name
  finalize_outcome has_github out =
      if has_github && not (is_cancelled out.status)
      then apply_route out (route_by_name cfg job.route_name)
      else finalize_as out

  abbrev pub finalize_status : Bool → Option JobStatus → Io ObservationFinalization
  finalize_status has_github none = pure start
  finalize_status has_github (some status) = ask o.files >>= λ files.
      finalize_outcome has_github (outcome_of_result has_github status files)

  unfoldable pub finalize_owned_observation_with_lifecycle : Bool → Io ObservationFinalization
  unfolding finalize_outcome outcome_of_result
  finalize_owned_observation_with_lifecycle has_github =
      finalize_status has_github (status_for_observation obs)
