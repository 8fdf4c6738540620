-- ===== src/Workflow/Launch/Steps.antt =====
-- launch.go: `LaunchClaimedWrapper`, `finalizeLaunchTerminal`, `cleanupLaunchedWrapper`. The store and
-- the supervisor are there, as the dispatcher and the daemon pass them, and the clock is the
-- system's; a result beside an error is left out.
use issueq.Prelude.{
  ℕ, ℤ, pos, String, Bool, true, false, Option, none, some, List, [], ◌∷◌, ◌++◌, ltb, leb_ℤ,
  if◌then◌else◌, str_eq, append, add_duration,
}
use issueq.Model.{
  Time, is_zero, JobStatus, IssueSnapshot, Job, RunnerIdentity, JobFinalize, LaunchSpecRecord,
}
use issueq.Model
use issueq.Config.{Config, RouteConfig}
use issueq.Supervisor.{LaunchSpec, LaunchRecord}
use issueq.Errors.{ErrorKind, other, CallError, plain_error, wrapped}
use issueq.Runner.{Paths, Context, prepare_paths, build_env}
use issueq.Effects.{
  Outside, Io, pure, raise, ◌>>=◌, ◌>>◌, attempt, ask, handle, or_wrapped, start_run, cancel_run,
}
use issueq.Effects.Queue.{persist_spec, mark_launching, persist_record, finalize_job}
use issueq.Workflow.{is_ownership_loss}
use issueq.Workflow.Owned.{drop_on_loss}
use issueq.Config.Defaults.{default_lease_duration}
use issueq.Workflow.Launch.{launch_token, absolute_paths, write_context}

unfoldable pub launch_attempt : ℕ → ℕ
launch_attempt attempts = if ltb attempts 1 then 1 else attempts

-- `errors.Join`
abbrev is_other : ErrorKind → Bool
is_other other = true
is_other _ = false

abbrev pub joined : CallError → CallError → CallError
joined x y = record {
  kind = if is_other x.kind then y.kind else x.kind;
  text = append x.text (append "\n" y.text);
}

abbrev is_context_done : ErrorKind → Bool
is_context_done ErrorKind.context_done = true
is_context_done _ = false

abbrev pub launch_timeout : RouteConfig → ℤ
launch_timeout route =
    if leb_ℤ route.job.timeout (pos 0) then default_lease_duration else route.job.timeout

abbrev pub command_is_empty : List String → Bool
command_is_empty [] = true
command_is_empty (c ∷ cs) = str_eq c ""

pub record LaunchInput : Type 0 where
  pub cfg : Config
  pub route : RouteConfig
  pub job : Job
  pub issue : IssueSnapshot
  pub identity : RunnerIdentity
  pub runner_id : String
  pub runner_name : String

-- What the launch is made of; all is known before the store is told of it.
pub record LaunchPlan : Type 0 where
  pub now : Time
  pub token : String
  pub paths : Paths
  pub timeout : ℤ
  pub spec : LaunchSpec

abbrev pub Launched : Type 0
Launched = LaunchPlan × LaunchRecord

module _ (o : Outside) where
  module _ (in' : LaunchInput) where
    abbrev launch_context : Context
    launch_context = record {
      issue = in'.issue;
      job = record {
        id = in'.job.id;
        route = in'.job.route_name;
        kind = in'.job.kind;
        attempt = launch_attempt in'.job.attempts;
        max_attempts = in'.route.job.max_attempts;
      };
      runner_id = in'.runner_id;
      runner_name = in'.runner_name;
    }

    abbrev pub plan_of : Time → String → Paths → LaunchPlan
    plan_of now token paths =
        let timeout = launch_timeout in'.route in
        record {
          now = now;
          token = token;
          paths = paths;
          timeout = timeout;
          spec = record {
            job_id = in'.job.id;
            launch_token = token;
            command = in'.route.job.command ++ paths.context_path ∷ paths.result_path ∷ [];
            env = build_env o.process o.encodings.decimal in'.cfg in'.route in'.job in'.issue paths;
            workdir = "";
            context_path = paths.context_path;
            result_path = paths.result_path;
            stdout_path = paths.stdout_path;
            stderr_path = paths.stderr_path;
            metadata_path = o.join (paths.dir ∷ append token "-run.json" ∷ []);
            timeout = timeout;
            spec_path = o.join (paths.dir ∷ append token "-spec.json" ∷ []);
          };
        }

    unfoldable pub finalize_launch_terminal : JobStatus → String → Time → Io (Unit {0})
    finalize_launch_terminal status message now =
        drop_on_loss (
          finalize_job o in'.job.id in'.identity.instance_id (record {
            status = status;
            last_error = message;
            result_path = "";
            stdout_path = "";
            stderr_path = "";
            finished_at = now;
            work_started = none;
          }))
        >> pure tt

    -- The job is finalized as failed, or as cancelled if the context has ended; then the launch ends
    -- with the error.
    abbrev pub fail_launch : LaunchPlan → String → CallError → Io Launched
    fail_launch plan prefix x =
        attempt (
          if is_context_done x.kind
          then finalize_launch_terminal JobStatus.cancelled x.text plan.now
          else finalize_launch_terminal JobStatus.failed (append prefix (append ": " x.text))
              plan.now)
        >> raise (wrapped prefix x)

    abbrev pub fail_context : LaunchPlan → CallError → Io Launched
    fail_context plan x =
        attempt (
          finalize_launch_terminal JobStatus.failed (append "prepare wrapper launch: " x.text)
            plan.now)
        >> raise (wrapped "prepare wrapper launch" x)

    unfoldable pub cleanup_launched_wrapper : LaunchRecord → Io (Unit {0})
    cleanup_launched_wrapper launched =
        or_wrapped "cancel wrapper after launch-record persistence failure" (cancel_run o launched)

    -- The run that the store does not know of is cancelled.
    abbrev pub unrecorded : LaunchPlan → LaunchRecord → CallError → Io Launched
    unrecorded plan launched x =
        handle (cleanup_launched_wrapper launched)
          (λ _.
            if is_ownership_loss x
            then raise (wrapped "persist wrapper launch record" x)
            else fail_launch plan "persist wrapper launch record" x)
          (λ y. raise (joined (wrapped "persist wrapper launch record" x) y))

    abbrev pub record_of : LaunchPlan → LaunchRecord → Model.LaunchRecord
    record_of plan launched = record {
      supervisor_kind = "wrapper";
      supervisor_id = launched.id;
      launch_token = plan.token;
      pid = launched.pid;
      pgid = launched.pgid;
      process_started_at = launched.process_started_at;
      run_metadata_path = plan.spec.metadata_path;
      launch_spec_path = plan.spec.spec_path;
      context_path = plan.paths.context_path;
      result_path = plan.paths.result_path;
      stdout_path = plan.paths.stdout_path;
      stderr_path = plan.paths.stderr_path;
      timeout_at =
          if is_zero launched.timeout_at
          then add_duration plan.now plan.timeout
          else launched.timeout_at;
    }

    abbrev pub spec_record_of : LaunchPlan → LaunchSpecRecord
    spec_record_of plan = record {
      supervisor_kind = "wrapper";
      launch_token = plan.token;
      launch_spec_path = plan.spec.spec_path;
      context_path = plan.paths.context_path;
      result_path = plan.paths.result_path;
      stdout_path = plan.paths.stdout_path;
      stderr_path = plan.paths.stderr_path;
      run_metadata_path = plan.spec.metadata_path;
      timeout_at = add_duration plan.now plan.timeout;
    }

    abbrev pub record_launched : LaunchPlan → LaunchRecord → Io Launched
    record_launched plan launched =
        handle (persist_record o in'.job.id in'.identity.instance_id (record_of plan launched))
          (λ _. pure (plan, launched)) (unrecorded plan launched)

    -- `MarkJobLaunchingOwned`, and then `Launch`.
    abbrev pub mark_and_start : LaunchPlan → Io Launched
    mark_and_start plan =
        or_wrapped "mark wrapper job launching"
          (mark_launching o in'.job.id in'.identity.instance_id plan.token)
        >> handle (start_run o plan.spec) (record_launched plan)
            (fail_launch plan "wrapper launch failed")

    abbrev pub start_plan : LaunchPlan → Io Launched
    start_plan plan =
        or_wrapped "persist wrapper launch spec"
          (persist_spec o in'.job.id in'.identity.instance_id (spec_record_of plan))
        >> mark_and_start plan

    abbrev pub prepare_plan : LaunchPlan → Io Launched
    prepare_plan plan =
        handle (write_context o plan.paths launch_context) (λ _. start_plan plan)
          (fail_context plan)

    abbrev pub launch_valid : Io Launched
    launch_valid = do
      now ← ask o.clock
      token ← launch_token o
      paths ←
          or_wrapped "prepare wrapper paths"
            (absolute_paths o (prepare_paths o.join in'.cfg.workdir_path in'.job.id))
      prepare_plan (plan_of now token paths)

    -- The message of the first check of the input that fails.
    unfoldable pub invalid_input : Option String
    invalid_input =
        if str_eq in'.identity.instance_id ""
        then some "runner instance id is required"
        else if str_eq in'.job.id ""
        then some "job id is required"
        else if command_is_empty in'.route.job.command
        then some "job command is empty"
        else none

    abbrev pub launch_checked : Option String → Io Launched
    launch_checked (some message) = raise (plain_error message)
    launch_checked none = launch_valid

    unfoldable pub launch_claimed_wrapper : Io Launched
    unfolding launch_attempt prepare_paths build_env launch_token absolute_paths write_context
        finalize_launch_terminal cleanup_launched_wrapper invalid_input
    launch_claimed_wrapper = launch_checked invalid_input
