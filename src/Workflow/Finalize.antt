-- ===== src/Workflow/Finalize.antt =====
-- internal/workflow/finalize.go, and `ParseWorkStartedFile` of internal/actions/actions.go. The
-- queue is the interface `ObservationFinalizer` over any state; files and JSON are parameters.
use issueq.Prelude.{
  ℕ, ◌+◌, String, Bool, true, false, not, Option, none, some, List, [], ◌∷◌, if◌then◌else◌, str_eq,
  is_blank, append,
}
use issueq.Model.{Time, is_zero, JobStatus, Job, JobFinalize, RunnerIdentity}
use issueq.Supervisor.{RunState, Observation}
use issueq.Errors.{CallError}
use issueq.Workflow.{
  ObservationDecision, exited_zero, observation_to_decision, status_for_observation,
  drop_on_ownership_loss,
}
use issueq.Workflow.Observe.{Printing, JobObservation, durable, not_durable, durable_launch_record}

-- What `os.ReadFile` returns.
pub data FileRead : Type 0 where
  absent unreadable : FileRead
  contents : String → FileRead

-- Files, and `json.Unmarshal`: the value of the field `work_started` of a text that is an object,
-- and a value as a boolean; `none` is an error.
pub record ResultFiles : Type 0 where
  pub read_file : String → FileRead
  pub work_started_field : String → Option (Option String)
  pub bool_of_json : String → Option Bool

-- `none` is an error.
abbrev pub field_value : ResultFiles → Option (Option String) → Option (Option Bool)
field_value files none = none
field_value files (some none) = some none
field_value files (some (some raw)) = elim (files.bool_of_json raw) [
  | none ↦ none
  | some b ↦ some (some b)
]

unfoldable pub parse_work_started_file : ResultFiles → String → Option (Option Bool)
parse_work_started_file files path = elim (files.read_file path) [
  | absent ↦ some none
  | unreadable ↦ none
  | contents text ↦
      if is_blank text then some none else field_value files (files.work_started_field text)
]

-- The interface of `FinalizeJobOwned`, over the state of the queue.
pub record ObservationFinalizer (S : Type 0) : Type 0 where
  pub finalize_job_owned : String → String → JobFinalize → S → Option CallError × S

pub record ObservationFinalization : Type 0 where
  pub job_id : String
  pub decision : ObservationDecision
  pub status : Option JobStatus
  pub finalized : Bool
  pub ownership_lost : Bool

abbrev exit_error : Printing → Observation → String
exit_error p obs =
    if not obs.has_exit_code
    then "process exited without exit code"
    else if exited_zero obs
    then ""
    else append "exit code " (p.decimal obs.exit_code)

abbrev state_error : Printing → RunState → Observation → String
state_error p RunState.exited obs = exit_error p obs
state_error p RunState.failed obs = "run failed"
state_error p RunState.timed_out obs = "run timed out"
state_error p RunState.cancelled obs = "run cancelled"
state_error p _ obs = ""

unfoldable pub last_error_for_observation : Printing → Observation → String
last_error_for_observation p obs =
    if not (str_eq obs.error "") then obs.error else state_error p obs.state obs

abbrev pub work_started_of : ResultFiles → Observation → Option Bool
work_started_of files obs =
    if str_eq obs.result_path ""
    then none
    else elim (parse_work_started_file files obs.result_path) [ none ↦ none | some w ↦ w ]

-- What the queue is told of a job that has ended.
unfoldable pub finalize_of : Printing → ResultFiles → Observation → JobStatus → Time → JobFinalize
unfolding last_error_for_observation parse_work_started_file
finalize_of p files obs status now = record {
  status = status;
  last_error = last_error_for_observation p obs;
  result_path = obs.result_path;
  stdout_path = obs.stdout_path;
  stderr_path = obs.stderr_path;
  finished_at = if is_zero obs.finished_at then now else obs.finished_at;
  work_started = work_started_of files obs;
}

-- The result, and the error if the call ends with one.
abbrev pub Finalized : Type 0
Finalized = ObservationFinalization × Option CallError

abbrev pub started_result : Job → ObservationDecision → ObservationFinalization
started_result job decision = record {
  job_id = job.id;
  decision = decision;
  status = none;
  finalized = false;
  ownership_lost = false;
}

-- What the answer of the queue makes of the result.
unfoldable pub after_finalize :
    ObservationFinalization → JobStatus → Bool × Option CallError → Finalized
after_finalize r status (dropped, some x) = (r, some x)
after_finalize r status (true, none) = (record r { ownership_lost = true }, none)
after_finalize r status (false, none) = (record r { status = some status; finalized = true }, none)

pub record ObservationFinalizationSummary : Type 0 where
  pub observed : ℕ
  pub finalized : ℕ
  pub succeeded : ℕ
  pub failed : ℕ
  pub cancelled : ℕ
  pub kept_running : ℕ
  pub unknown : ℕ
  pub ownership_lost : ℕ

-- The switch on the status of a job that was finalized.
abbrev pub count_status :
    Option JobStatus → ObservationFinalizationSummary → ObservationFinalizationSummary
count_status (some JobStatus.succeeded) s = record s { succeeded = s.succeeded + 1 }
count_status (some JobStatus.cancelled) s = record s { cancelled = s.cancelled + 1 }
count_status _ s = record s { failed = s.failed + 1 }

-- The switch on the decision about a job that was not.
abbrev pub count_decision :
    ObservationDecision → ObservationFinalizationSummary → ObservationFinalizationSummary
count_decision ObservationDecision.unknown s = record s { unknown = s.unknown + 1 }
count_decision _ s = record s { kept_running = s.kept_running + 1 }

abbrev pub count_observed : ObservationFinalizationSummary → ObservationFinalizationSummary
count_observed s = record s { observed = s.observed + 1 }

unfoldable pub count_finalization :
    ObservationFinalization → ObservationFinalizationSummary → ObservationFinalizationSummary
count_finalization f s =
    if f.ownership_lost
    then record s { ownership_lost = s.ownership_lost + 1 }
    else if f.finalized
    then count_status f.status (record s { finalized = s.finalized + 1 })
    else count_decision f.decision s

module _ {S : Type 0} (p : Printing) (files : ResultFiles) (queue : ObservationFinalizer S) where
  unfoldable pub finalize_owned_observation :
      RunnerIdentity → Job → Observation → Time → S → Finalized × S
  unfolding durable_launch_record observation_to_decision status_for_observation finalize_of
      drop_on_ownership_loss after_finalize
  finalize_owned_observation identity job obs now s = elim (durable_launch_record p job) [
    | not_durable reason ↦ ((started_result job ObservationDecision.unknown, none), s)
    | durable launch ↦ elim (status_for_observation obs) [
      | none ↦ ((started_result job (observation_to_decision obs), none), s)
      | some status ↦
          let (answer, s') =
            queue.finalize_job_owned job.id identity.instance_id
              (finalize_of p files obs status now) s in
          (
            after_finalize (started_result job (observation_to_decision obs)) status
                (drop_on_ownership_loss answer),
            s',
          )
    ]
  ]

  -- The loop over the observations; an error ends it with the counts so far.
  unfoldable pub finalize_owned_observations :
      RunnerIdentity
      → List JobObservation
      → Time
      → ObservationFinalizationSummary
      → S
      → (ObservationFinalizationSummary × Option CallError) × S
  unfolding finalize_owned_observation count_finalization
  finalize_owned_observations identity [] now summary s = ((summary, none), s)
  finalize_owned_observations identity (item ∷ items) now summary s =
      let ((f, x), s') = finalize_owned_observation identity item.job item.observation now s in
      let rest =
        finalize_owned_observations identity items now
          (count_finalization f (count_observed summary)) s' in
      elim x [ none ↦ rest | some e ↦ ((count_observed summary, some e), s') ]
