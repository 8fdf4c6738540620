-- ===== src/Workflow/StablePrograms.antt =====
-- Preparing a launch and finalizing an observation, and the stable predicates.
use issueq.Prelude.{ℕ, ℤ, String, ◌≡◌, Bool, true, false}
use issueq.Model.{JobStatus, is_running, IssueSnapshot, Job, RunnerIdentity}
use issueq.Config.{Config, RouteConfig}
use issueq.Errors.{CallError}
use issueq.Actions.Apply.{ApplyResult}
use issueq.Effects.{World, Outside}
use issueq.Effects.Keeps.{Keeps, keeps_rules}
use issueq.Effects.Stable.{IsStable}
use issueq.Workflow.Stable.{
  owned_rules, Keeps-finalize_claimed_job, Keeps-apply_owned, Keeps-check_transition_limit,
}
use issueq.Workflow.Prepare.{
  finalize_prepared, drop_prepared, limit_transitions, limit_attempts, check_route,
  refresh_prepared, prepare_claimed_wrapper_launch,
}

module _ {P : World → Type 0} (o : Outside) (cfg : Config) (identity : RunnerIdentity) (lease : ℤ)
    (route : RouteConfig) (job : Job) (s : IsStable job.id identity.instance_id P) where
  ruleset program_rules = (owned_rules, Keeps-apply_owned, Keeps-check_transition_limit)

  Keeps-finalize_prepared :
      (attempts : ℕ) (status : JobStatus) (message : String)
      → is_running status ≡ false
      → Keeps P (finalize_prepared o cfg identity lease route job attempts status message)
  unfolding finalize_prepared
  Keeps-finalize_prepared attempts status message h =
      search (program_rules, Keeps-finalize_claimed_job) depth 20

  ruleset prepare_rules = (program_rules, Keeps-finalize_prepared)

  Keeps-drop_prepared :
      (attempts : ℕ) (x : CallError)
      → Keeps P (drop_prepared o cfg identity lease route job attempts x)
  unfolding drop_prepared
  Keeps-drop_prepared attempts x = search keeps_rules

  Keeps-limit_transitions :
      (attempts : ℕ) (applied : ApplyResult)
      → Keeps P (limit_transitions o cfg identity lease route job attempts applied)
  Keeps-limit_transitions attempts applied = search (prepare_rules) depth 20

  Keeps-limit_attempts :
      (issue : IssueSnapshot) (attempts : ℕ)
      → Keeps P (limit_attempts o cfg identity lease route job issue attempts)
  Keeps-limit_attempts issue attempts =
      search (prepare_rules, Keeps-drop_prepared, Keeps-limit_transitions) depth 20

  Keeps-check_route :
      (issue : IssueSnapshot) → Keeps P (check_route o cfg identity lease route job issue)
  Keeps-check_route issue = search (prepare_rules, Keeps-limit_attempts) depth 20

  Keeps-refresh_prepared :
      (has_github : Bool) (issue : IssueSnapshot)
      → Keeps P (refresh_prepared o cfg identity lease route job has_github issue)
  Keeps-refresh_prepared false issue = search keeps_rules
  Keeps-refresh_prepared true issue =
      search (prepare_rules, Keeps-drop_prepared, Keeps-check_route) depth 20

  pub Keeps-prepare :
      (has_github : Bool)
      → Keeps P (prepare_claimed_wrapper_launch o cfg identity lease route job has_github)
  unfolding prepare_claimed_wrapper_launch
  Keeps-prepare has_github = search (prepare_rules, Keeps-refresh_prepared) depth 20
