-- ===== src/Dispatcher.antt =====
-- internal/dispatcher/dispatcher.go: `Wave`, `NewWave`, `Preflight`, `refill`, `countPrepare` and
-- `countFinalized`. The map of the active jobs is the list of its keys, since nothing reads its
-- values; the map of limits is a function that is 0 at a missing key. What the code has done to the
-- wave when a call fails is part of the answer.
pub mod Intervals
pub mod Reaping
pub mod Refilling
use issueq.Prelude.{
  ℕ, suc, ◌+◌, ℤ, pos, String, Bool, true, false, not, Option, none, some, List, [], ◌∷◌, ◌++◌,
  ◌&&◌, leb_ℤ, ltb_ℤ, if◌then◌else◌, str_eq, length, sub_duration, get_or,
}
use issueq.Model.{JobStatus, IssueSnapshot, Job, RunnerIdentity}
use issueq.Config.{Config, RouteConfig}
use issueq.Errors.{CallError}
use issueq.Effects.{Outside, Io, pure, ◌>>=◌, ◌>>◌, ask, handle}
use issueq.Effects.Queue.{claim_in_frontier, heartbeat, release_expired, prune_heartbeats}
use issueq.Actions.Labels.{remove_without}
use issueq.Workflow.{is_ownership_loss, max_global_concurrency, route_by_name}
use issueq.Workflow.Owned.{finalize_claimed_job}
use issueq.Workflow.Prepare.{PrepareOutcome, Prepared, prepare_claimed_wrapper_launch}
use issueq.Config.Defaults.{default_lease_duration}
use issueq.Workflow.Launch.Steps.{LaunchInput, launch_claimed_wrapper}

pub record DispatchResult : Type 0 where
  pub claimed : ℕ
  pub succeeded : ℕ
  pub failed : ℕ
  pub skipped : ℕ
  pub dead : ℕ

pub record Wave : Type 0 where
  pub result : DispatchResult
  pub active : List String

-- The parts of a `Wave` that do not change.
pub record WaveConfig : Type 0 where
  pub cfg : Config
  pub has_github : Bool
  pub identity : RunnerIdentity
  pub lease : ℤ
  pub max_global : ℤ
  pub limits : String → ℤ
  pub process_id : ℤ

-- The loop of `perRouteLimits` over the routes, with the map so far.
unfoldable pub per_route_limits : List RouteConfig → (String → ℤ) → String → ℤ
per_route_limits [] limits = limits
per_route_limits (r ∷ rs) limits =
    per_route_limits rs (λ name. if str_eq r.name name then r.job.concurrency else limits name)

unfoldable pub runner_id : Config → String
runner_id cfg = if not (str_eq cfg.runner.name "") then cfg.runner.name else "issueq-local"

-- `NewWave`; the identity has the instance that `newRunnerIdentity` makes of the process and the clock.
unfoldable pub new_wave : Config → Bool → RunnerIdentity → ℤ → WaveConfig
unfolding per_route_limits max_global_concurrency
new_wave cfg has_github identity process_id = record {
  cfg = cfg;
  has_github = has_github;
  identity = identity;
  lease =
      if leb_ℤ cfg.queue.lease_duration (pos 0)
      then default_lease_duration
      else cfg.queue.lease_duration;
  max_global = max_global_concurrency cfg;
  limits = per_route_limits cfg.routes (λ _. pos 0);
  process_id = process_id;
}

abbrev pub count_claimed : Wave → Wave
count_claimed w = record w { result = record w.result { claimed = w.result.claimed + 1 } }

abbrev pub count_failed : Wave → Wave
count_failed w = record w { result = record w.result { failed = w.result.failed + 1 } }

abbrev count_skipped : Wave → Wave
count_skipped w = record w { result = record w.result { skipped = w.result.skipped + 1 } }

abbrev count_dead : Wave → Wave
count_dead w = record w { result = record w.result { dead = w.result.dead + 1 } }

abbrev count_succeeded : Wave → Wave
count_succeeded w = record w { result = record w.result { succeeded = w.result.succeeded + 1 } }

-- The switch of `countPrepare`.
abbrev count_prepared_status : Option JobStatus → Wave → Wave
count_prepared_status (some JobStatus.skipped) w = count_skipped w
count_prepared_status (some JobStatus.dead) w = count_dead w
count_prepared_status (some JobStatus.succeeded) w = count_succeeded w
count_prepared_status _ w = count_failed w

unfoldable pub count_prepare : Prepared → Wave → Wave
count_prepare p w = if not p.finalized then w else count_prepared_status p.status w

-- A cancelled job is not counted.
unfoldable pub count_finalized : Option JobStatus → Wave → Wave
count_finalized (some JobStatus.succeeded) w = count_succeeded w
count_finalized (some JobStatus.skipped) w = count_skipped w
count_finalized (some JobStatus.dead) w = count_dead w
count_finalized (some JobStatus.cancelled) w = w
count_finalized _ w = count_failed w

abbrev pub is_launch : PrepareOutcome → Bool
is_launch PrepareOutcome.launch = true
is_launch _ = false

-- The wave and the frontier that remains when `refill` returns, its error, and whether the loop was
-- left for want of fuel.
pub record Refilled : Type 0 where
  pub wave : Wave
  pub frontier : List String
  pub error : Option CallError
  pub unfinished : Bool

abbrev pub stopped : Wave → List String → Option CallError → Refilled
stopped wave frontier error = record {
  wave = wave;
  frontier = frontier;
  error = error;
  unfinished = false;
}

abbrev pub zero_issue : IssueSnapshot
zero_issue = record {
  issue_key = "";
  node_id = "";
  host = "";
  owner = "";
  repo = "";
  number = pos 0;
  title = "";
  body = "";
  labels = [];
  state = "";
  github_updated_at = 0;
  synced_at = 0;
}

abbrev pub is_empty_list : List String → Bool
is_empty_list [] = true
is_empty_list (x ∷ xs) = false

module _ (o : Outside) (c : WaveConfig) where
  unfoldable pub preflight : Io (Unit {0})
  preflight = do
    heartbeat o c.identity c.process_id
    now ← ask o.clock
    release_expired o now (sub_duration now c.lease) c.identity.instance_id []
    prune_heartbeats o (sub_duration now c.lease)
    pure tt

  -- Where the loop goes on, or stops with the wave and the frontier so far.
  module _ (loop : Wave → List String → Io Refilled) where
    abbrev pub launch_input : Job → RouteConfig → Prepared → LaunchInput
    launch_input job route p = record {
      cfg = c.cfg;
      route = route;
      job = record job { attempts = p.attempts };
      issue = get_or p.issue zero_issue;
      identity = c.identity;
      runner_id = c.identity.runner_id;
      runner_name = c.cfg.runner.name;
    }

    abbrev pub add_active : Job → Wave → Wave
    add_active job wave = record wave { active = wave.active ++ job.id ∷ [] }

    abbrev pub refill_launch : Job → RouteConfig → Wave → List String → Prepared → Io Refilled
    refill_launch job route wave frontier p =
        handle (launch_claimed_wrapper o (launch_input job route p))
          (λ _. loop (add_active job wave) frontier)
          (λ x.
            if is_ownership_loss x
            then loop wave frontier
            else pure (stopped wave frontier (some x)))

    abbrev pub refill_prepared : Job → RouteConfig → Wave → List String → Prepared → Io Refilled
    refill_prepared job route wave frontier p =
        if is_launch p.outcome
        then refill_launch job route (count_prepare p wave) frontier p
        else loop (count_prepare p wave) frontier

    abbrev pub refill_route : Job → Wave → List String → Option RouteConfig → Io Refilled
    refill_route job wave frontier none =
        handle (finalize_claimed_job o c.identity job JobStatus.failed "route not found")
          (λ finalized. loop (if finalized then count_failed wave else wave) frontier)
          (λ x. pure (stopped wave frontier (some x)))
    refill_route job wave frontier (some route) =
        handle (prepare_claimed_wrapper_launch o c.cfg c.identity c.lease route job c.has_github)
          (refill_prepared job route wave frontier) (λ x. pure (stopped wave frontier (some x)))

    -- What follows a claim.
    abbrev pub refill_claimed : Wave → List String → Option Job → Io Refilled
    refill_claimed wave frontier none = pure (stopped wave frontier none)
    refill_claimed wave frontier (some job) =
        refill_route job (count_claimed wave) (remove_without frontier job.id)
          (route_by_name c.cfg job.route_name)

  -- The condition of the loop.
  abbrev pub has_room : Wave → List String → Bool
  has_room wave frontier =
      ltb_ℤ (pos (length wave.active)) c.max_global && not (is_empty_list frontier)

  -- The loop of `refill`, on fuel.
  unfoldable pub refill : ℕ → Wave → List String → Io Refilled
  unfolding claim_in_frontier finalize_claimed_job prepare_claimed_wrapper_launch count_prepare
      launch_claimed_wrapper route_by_name max_global_concurrency
  refill ℕ.zero wave frontier =
      if has_room wave frontier
      then pure (record (stopped wave frontier none) { unfinished = true })
      else pure (stopped wave frontier none)
  refill (suc fuel) wave frontier =
      let loop = refill fuel in
      if has_room wave frontier
      then handle
          (claim_in_frontier o c.identity c.cfg.runner.capabilities (max_global_concurrency c.cfg)
            c.limits c.lease frontier)
          (refill_claimed loop wave frontier) (λ x. pure (stopped wave frontier (some x)))
      else pure (stopped wave frontier none)
