-- ===== src/Examples/Settings.antt =====
-- Witnesses of the configuration, the actions, the job's environment, the wrapper and the parser.
use issueq.Prelude.{
  ◌++◌, ℕ, ◌+◌, ◌≤◌, ◌<◌, pos, false, true, not, none, some, [], ◌∷◌, ◌++◌, ◌&&◌, ◌||◌, ◌≡◌, refl,
  ◌↔◌, String, All, contains, occurrences, str_eq, arith,
}
use Prim.Native.Nat.{◌*◌}
use issueq.Model.{JobStatus}
use issueq.Supervisor.{LaunchRecord}
use issueq.Config.{Config}
use issueq.Config.Validate.{Texts, validate_action}
use issueq.Config.Validate.Whole.{ValidateOptions}
use issueq.Config.Validate.Labels.{IsClean, validate_action_iff}
use issueq.Actions.{ResultAction, merge}
use issueq.Actions.Labels.{same_label_set}
use issueq.Actions.Merging.{merge-labels}
use issueq.Actions.Sameness.{same_label_set_iff}
use issueq.Runner.{Paths, env_of}
use issueq.Runner.Environment.{has_variable, is_own, inherited, is_set, env_of_iff}
use issueq.Workflow.{status_for_observation}
use issueq.JobWrapper.{Progress, ran, wait, exit_error, observation_from_metadata, run_metadata}
use issueq.JobWrapper.Endings.{status_of_run, run_metadata-status}
use issueq.JobWrapper.Inspect.{
  Machine, loaded, HasOwnMetadata, inspect, inspect-own, timeout_seconds, timeout_seconds-bounds,
}
use issueq.Dispatcher.Intervals.{
  heartbeat_interval, active_poll_interval, heartbeat_interval-bounds,
}
use issueq.Handoff.{parse_comment}
use issueq.Handoff.Parsing.{IsOfIssue, parse_comment-All}
use issueq.Examples.Sample.{config, encodings, ready_issue}
use issueq.Examples.Outer.{
  doing, outside, doing_config, doing_route, claimed_job, handoff_text, spec,
}

abbrev result : ResultAction
result = record {
  comment = "done";
  labels_add = "ready" ∷ [];
  labels_remove = "doing" ∷ [];
  work_started = none;
}

merge-labels_example :
    (contains (merge doing result).labels_add "doing" ≡ (
      (contains doing.labels_add "doing" || contains result.labels_add "doing")
      && not (contains result.labels_remove "doing")))
    × (contains (merge doing result).labels_remove "doing" ≡ (
        (contains doing.labels_remove "doing" && not (contains result.labels_add "doing"))
        || contains result.labels_remove "doing"))
merge-labels_example = merge-labels doing result "doing"

same_label_set_iff_example :
    same_label_set ("a" ∷ "b" ∷ []) ("b" ∷ "a" ∷ []) ≡ true
    ↔ ((l : String) → occurrences ("a" ∷ "b" ∷ []) l ≡ occurrences ("b" ∷ "a" ∷ []) l)
same_label_set_iff_example = same_label_set_iff ("a" ∷ "b" ∷ []) ("b" ∷ "a" ∷ [])

abbrev texts : Texts
texts = record { number = λ n. "0"; quoted = λ s. s }

validate_action_iff_example : validate_action texts "on_start" doing ≡ [] ↔ IsClean texts doing
validate_action_iff_example = validate_action_iff texts "on_start" doing

-- A configuration that leaves out what has a default.
abbrev sparse_config : Config
sparse_config = record config {
  queue = record config.queue {
    backend = "";
    max_global_concurrency = pos 0;
    lease_duration = pos 0;
  };
  workdir_path = "";
  polling_interval = pos 0;
  github = record config.github { host = ""; token_env = "" };
  workflow = record config.workflow { max_transitions_per_issue = pos 0 };
}

abbrev validate_options : ValidateOptions
validate_options = record { require_github_token = false; getenv = λ name. "" }

abbrev paths : Paths
paths = record {
  dir = "d";
  context_path = "c";
  result_path = "r";
  stdout_path = "o";
  stderr_path = "e";
}

env_of_iff_example :
    has_variable
      (env_of outside.process encodings.decimal doing_config doing_route claimed_job ready_issue
        paths)
      "T"
    ≡ (is_own "T"
        || (not (str_eq doing_config.github.token_env "T")
            && ((doing_config.runner.env_inherit && inherited outside.process.environ "T")
                || (contains (doing_config.runner.env_pass ++ doing_route.job.env_pass) "T"
                    && is_set (outside.process.lookup_env "T")))))
env_of_iff_example =
    env_of_iff outside.process encodings.decimal doing_config doing_route claimed_job ready_issue
      paths "T"

abbrev failed_run : Progress
failed_run = ran (pos 7) (pos 7) wait (exit_error (pos 2) "exit status 2")

run_metadata-status_example :
    status_for_observation
      (observation_from_metadata (run_metadata "timed out" spec 40 50 failed_run) "job_1" "t")
    ≡ some (status_of_run failed_run)
run_metadata-status_example = run_metadata-status "timed out" spec 40 50 failed_run tt

abbrev machine : Machine
machine = record {
  read_metadata = λ path. loaded (run_metadata "timed out" spec 40 50 failed_run);
  process_matches = λ pid t. false;
  now = 60;
  decimal = λ n. "1";
}

abbrev run : LaunchRecord
run = record {
  kind = "wrapper";
  id = "7";
  job_id = "job_1";
  launch_token = "t";
  pid = pos 7;
  pgid = pos 7;
  process_started_at = 41;
  metadata_path = "m";
  started_at = 41;
  timeout_at = 90;
}

run-failed : status_for_observation (inspect machine run) ≡ some JobStatus.failed
unfolding inspect run_metadata status_for_observation
run-failed = refl

inspect-own_example : HasOwnMetadata machine run
inspect-own_example = inspect-own machine run JobStatus.failed run-failed

timeout_seconds-bounds_example :
    (s : ℕ) × (timeout_seconds (pos 1500000000) ≡ pos s)
    × (1500000000 ≤ s * 1000000000)
    × (s * 1000000000 < 1500000000 + 1000000000)
timeout_seconds-bounds_example = timeout_seconds-bounds 1500000000 (omega arith)

heartbeat_interval-bounds_example :
    (0 < heartbeat_interval (pos 1800000000000))
    × (heartbeat_interval (pos 1800000000000) ≤ 1000000000)
    × (heartbeat_interval (pos 1800000000000) * 4 ≤ 1800000000000)
    × (active_poll_interval (pos 1800000000000) ≤ heartbeat_interval (pos 1800000000000))
heartbeat_interval-bounds_example = heartbeat_interval-bounds 1800000000000 (omega arith)

parse_comment-All_example :
    All
      (IsOfIssue handoff_text "k" 7)
      (parse_comment handoff_text "k" "issueq-handoff/v1" 7).handoffs
parse_comment-All_example = parse_comment-All handoff_text "k" 7 "issueq-handoff/v1"
