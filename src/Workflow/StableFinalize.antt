-- ===== src/Workflow/StableFinalize.antt =====
-- Finalizing an observation, and the stable predicates.
use issueq.Prelude.{ℤ, String, ◌≡◌, refl, Bool, true, false, Option, none, some}
use issueq.Model.{Time, JobStatus, is_running, IssueSnapshot, Job, RunnerIdentity}
use issueq.Config.{Config, RouteConfig}
use issueq.Supervisor.{Observation}
use issueq.Errors.{Answer, value, error}
use issueq.Actions.{ResultAction}
use issueq.Actions.Apply.{ApplyResult}
use issueq.Effects.{World, Outside}
use issueq.Effects.Keeps.{Keeps, Keeps-pure}
use issueq.Effects.Stable.{IsStable, Keeps-finalize_job}
use issueq.Workflow.{
  ObservationDecision, terminal_status, observation_to_decision, status_for_observation,
}
use issueq.Workflow.Finalize.{ResultFiles}
use issueq.Workflow.Stable.{owned_rules, Keeps-apply_owned, Keeps-check_transition_limit}
use issueq.Workflow.Lifecycle.{
  Outcome, with_result, outcome_of_result, finalize_observed_terminal, after_apply, apply_final,
  apply_route, finalize_status, finalize_outcome, finalize_owned_observation_with_lifecycle,
  log_terminal,
}

module _ {P : World → Type 0} (o : Outside) (cfg : Config) (identity : RunnerIdentity) (lease : ℤ)
    (job : Job) (obs : Observation) (now : Time) (s : IsStable job.id identity.instance_id P) where
  ruleset program_rules = (owned_rules, Keeps-apply_owned, Keeps-check_transition_limit)

  Keeps-log_terminal :
      (status : JobStatus) (last_error : String) (dropped : Bool)
      → Keeps P (log_terminal o cfg identity lease job obs now status last_error dropped)
  Keeps-log_terminal status last_error dropped = search owned_rules

  Keeps-finalize_observed_terminal :
      (status : JobStatus) (last_error : String) (started : Option Bool)
      → is_running status ≡ false
      → Keeps P
          (finalize_observed_terminal o cfg identity lease job obs now status last_error started)
  unfolding finalize_observed_terminal
  Keeps-finalize_observed_terminal status last_error started h =
      search (owned_rules, Keeps-finalize_job, Keeps-log_terminal) depth 20

  ruleset finalize_rules = (program_rules, Keeps-finalize_observed_terminal)

  Keeps-after_apply :
      (out : Outcome) (applied : ApplyResult)
      → is_running out.status ≡ false
      → Keeps P (after_apply o cfg identity lease job obs now out applied)
  Keeps-after_apply out applied h = search finalize_rules depth 20

  Keeps-apply_final :
      (out : Outcome) (route : RouteConfig) (issue : IssueSnapshot)
      → is_running out.status ≡ false
      → Keeps P (apply_final o cfg identity lease job obs now out route issue)
  Keeps-apply_final out route issue h = search (finalize_rules, Keeps-after_apply) depth 20

  Keeps-apply_route :
      (out : Outcome) (route : Option RouteConfig)
      → is_running out.status ≡ false
      → Keeps P (apply_route o cfg identity lease job obs now out route)
  Keeps-apply_route out none h = search finalize_rules depth 20
  Keeps-apply_route out (some route) h = search (finalize_rules, Keeps-apply_final) depth 20

  Keeps-finalize_outcome :
      (has_github : Bool) (out : Outcome)
      → is_running out.status ≡ false
      → Keeps P (finalize_outcome o cfg identity lease job obs now has_github out)
  unfolding finalize_outcome
  Keeps-finalize_outcome has_github out h = search (finalize_rules, Keeps-apply_route) depth 20

  with_result-status :
      (status : JobStatus) (last_error : String) (r : Answer (Option ResultAction))
      → is_running status ≡ false
      → is_running (with_result status last_error r).status ≡ false
  with_result-status status last_error (value action) h = h
  with_result-status status last_error (error x) h = refl

  outcome_of_result-status :
      (has_github : Bool) (status : JobStatus) (files : ResultFiles)
      → is_running status ≡ false
      → is_running
          (outcome_of_result o cfg identity lease job obs now has_github status files).status
        ≡ false
  unfolding outcome_of_result
  outcome_of_result-status false status files h = h
  outcome_of_result-status true status files h = with_result-status status _ _ h

  Keeps-finalize_status :
      (has_github : Bool) (status : JobStatus)
      → is_running status ≡ false
      → Keeps P (finalize_status o cfg identity lease job obs now has_github (some status))
  Keeps-finalize_status has_github status h =
      search (finalize_rules, Keeps-finalize_outcome, outcome_of_result-status) depth 20

  Keeps-finalize_decision :
      (has_github : Bool) (d : ObservationDecision)
      → Keeps P (finalize_status o cfg identity lease job obs now has_github (terminal_status d))
  Keeps-finalize_decision has_github ObservationDecision.succeeded = Keeps-finalize_status _ _ refl
  Keeps-finalize_decision has_github ObservationDecision.failed = Keeps-finalize_status _ _ refl
  Keeps-finalize_decision has_github ObservationDecision.cancelled = Keeps-finalize_status _ _ refl
  Keeps-finalize_decision has_github ObservationDecision.keep_running = Keeps-pure _
  Keeps-finalize_decision has_github ObservationDecision.unknown = Keeps-pure _

  pub Keeps-finalize :
      (has_github : Bool)
      → Keeps P
          (finalize_owned_observation_with_lifecycle o cfg identity lease job obs now has_github)
  unfolding finalize_owned_observation_with_lifecycle status_for_observation
  Keeps-finalize has_github = Keeps-finalize_decision has_github (observation_to_decision obs)
