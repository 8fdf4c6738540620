-- ===== src/Workflow/Observe.antt =====
-- internal/workflow/observe.go: which jobs have a durable launch, and their observations.
use issueq.Prelude.{
  ℕ, ◌+◌, ℤ, pos, String, false, not, Option, none, some, List, [], ◌∷◌, ◌&&◌, if◌then◌else◌, leb_ℤ,
  str_eq, get_or, append,
}
use issueq.Model.{LaunchState, preparing, launching, is_running, Job}
use issueq.Supervisor.{
  LaunchRecord, RunState, Observation, Inspection, seen, inspect_failed, Inspector,
}

-- What `fmt` prints of a number and of a quoted text.
pub record Printing : Type 0 where
  pub decimal : ℤ → String
  pub quoted : String → String

pub record JobObservation : Type 0 where
  pub job : Job
  pub observation : Observation

-- The supervisor's record of a launch, or why there is none.
pub data DurableLaunch : Type 0 where
  durable : LaunchRecord → DurableLaunch
  not_durable : String → DurableLaunch

-- Why the launch state rules a durable launch out.
abbrev pub launch_state_reason : Option LaunchState → Option String
launch_state_reason none = some "missing launch state"
launch_state_reason (some preparing) = some "launch is still preparing"
launch_state_reason (some LaunchState.unknown) = some "launch state is unknown"
launch_state_reason (some launching) = none
launch_state_reason (some LaunchState.running) = none

abbrev pub supervisor_record : Job → LaunchRecord
supervisor_record job = record {
  kind = job.supervisor_kind;
  id = job.supervisor_id;
  job_id = job.id;
  launch_token = job.launch_token;
  pid = job.pid;
  pgid = job.pgid;
  process_started_at = get_or job.process_started_at 0;
  metadata_path = job.run_metadata_path;
  started_at = get_or job.started_at 0;
  timeout_at = get_or job.timeout_at 0;
}

-- The first reason against a durable launch.
unfoldable pub durable_reason : Printing → Job → Option String
durable_reason p job =
    if not (is_running job.status)
    then some "job is not running"
    else if str_eq job.supervisor_kind ""
    then some "missing supervisor kind"
    else if not (str_eq job.supervisor_kind "wrapper")
    then some (append "unsupported supervisor kind " (p.quoted job.supervisor_kind))
    else if str_eq job.launch_token ""
    then some "missing launch token"
    else elim (launch_state_reason job.launch_state) [
      | some reason ↦ some reason
      | none ↦
          if str_eq job.run_metadata_path "" && str_eq job.supervisor_id "" && leb_ℤ job.pid (pos 0)
          then some "missing durable launch evidence"
          else none
    ]

unfoldable pub durable_launch_record : Printing → Job → DurableLaunch
unfolding durable_reason
durable_launch_record p job = elim (durable_reason p job) [
  | some reason ↦ not_durable reason
  | none ↦ durable (supervisor_record job)
]

-- The observation of a job without a durable launch.
abbrev pub unobserved : String → Observation
unobserved reason = record {
  state = RunState.unknown;
  exit_code = pos 0;
  has_exit_code = false;
  error = reason;
  started_at = 0;
  finished_at = 0;
  result_path = "";
  stdout_path = "";
  stderr_path = "";
}

module _ (p : Printing) (inspect : Inspector) where
  -- The call `n` of the supervisor.
  unfoldable pub inspect_durable_job : Job → ℕ → Inspection
  unfolding durable_launch_record
  inspect_durable_job job n = elim (durable_launch_record p job) [
    | not_durable reason ↦ seen (unobserved reason)
    | durable launch ↦ inspect n launch
  ]

  abbrev observed : Job → Inspection → Option (List JobObservation) → Option (List JobObservation)
  observed job (inspect_failed message) rest = none
  observed job (seen obs) none = none
  observed job (seen obs) (some rest) = some (record { job = job; observation = obs } ∷ rest)

  -- The loop over the owned jobs; an inspection that fails ends it, and its observations are lost.
  unfoldable pub observe_jobs : List Job → ℕ → Option (List JobObservation)
  unfolding inspect_durable_job
  observe_jobs [] n = some []
  observe_jobs (job ∷ jobs) n = observed job (inspect_durable_job job n) (observe_jobs jobs (n + 1))
