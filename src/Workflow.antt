-- ===== src/Workflow.antt =====
-- internal/workflow/workflow.go: what is decided of an observation, and which errors mean that a
-- job has another owner now.
pub mod Observe
pub mod Finalize
pub mod Adopt
pub mod Counts
pub mod StoreQueue
pub mod Durable
pub mod Owned
pub mod Prepare
pub mod Lifecycle
pub mod Stable
pub mod StablePrograms
pub mod StableFinalize
pub mod Guarded
pub mod Others
pub mod Launchable
pub mod Launch
use issueq.Prelude.{
  ℤ, pos, String, Bool, true, false, Option, none, some, List, [], ◌∷◌, ◌&&◌, if◌then◌else◌, leb_ℤ,
  str_eq,
}
use issueq.Model.{JobStatus, IssueSnapshot}
use issueq.Config.{Config, RouteConfig}
use issueq.Errors.{CallError, loses_ownership}
use issueq.Supervisor.{RunState, Observation}
use issueq.Router.{matches}

pub data ObservationDecision : Type 0 where
  keep_running succeeded failed cancelled unknown : ObservationDecision

abbrev pub exited_zero : Observation → Bool
exited_zero obs = obs.has_exit_code && leb_ℤ obs.exit_code (pos 0) && leb_ℤ (pos 0) obs.exit_code

abbrev decision_of : RunState → Observation → ObservationDecision
decision_of RunState.starting obs = ObservationDecision.keep_running
decision_of RunState.running obs = ObservationDecision.keep_running
decision_of RunState.exited obs =
    if exited_zero obs then ObservationDecision.succeeded else ObservationDecision.failed
decision_of RunState.failed obs = ObservationDecision.failed
decision_of RunState.timed_out obs = ObservationDecision.failed
decision_of RunState.cancelled obs = ObservationDecision.cancelled
decision_of RunState.unknown obs = ObservationDecision.unknown

unfoldable pub observation_to_decision : Observation → ObservationDecision
observation_to_decision obs = decision_of obs.state obs

-- The status that ends the job, if the decision ends it.
abbrev pub terminal_status : ObservationDecision → Option JobStatus
terminal_status ObservationDecision.succeeded = some JobStatus.succeeded
terminal_status ObservationDecision.failed = some JobStatus.failed
terminal_status ObservationDecision.cancelled = some JobStatus.cancelled
terminal_status ObservationDecision.keep_running = none
terminal_status ObservationDecision.unknown = none

unfoldable pub status_for_observation : Observation → Option JobStatus
unfolding observation_to_decision
status_for_observation obs = terminal_status (observation_to_decision obs)

abbrev pub is_ownership_loss : CallError → Bool
is_ownership_loss x = loses_ownership x.kind

-- Whether the work is dropped, and the error that remains.
unfoldable pub drop_on_ownership_loss : Option CallError → Bool × Option CallError
drop_on_ownership_loss none = (false, none)
drop_on_ownership_loss (some x) = if is_ownership_loss x then (true, none) else (false, some x)

unfoldable pub max_global_concurrency : Config → ℤ
max_global_concurrency cfg =
    if leb_ℤ cfg.queue.max_global_concurrency (pos 0)
    then pos 1
    else cfg.queue.max_global_concurrency

-- The loop over the routes.
unfoldable pub find_route : List RouteConfig → String → Option RouteConfig
find_route [] name = none
find_route (r ∷ rs) name =
    let rest = find_route rs name in if str_eq r.name name then some r else rest

unfoldable pub route_by_name : Config → String → Option RouteConfig
unfolding find_route
route_by_name cfg name = find_route cfg.routes name

unfoldable pub route_still_matches : Config → RouteConfig → IssueSnapshot → Bool
unfolding matches
route_still_matches cfg route issue = matches cfg route issue
