-- ===== src/Dispatcher/Reaping.antt =====
-- dispatcher.go: `reapRenewActive`, and `InspectDurableJob` of internal/workflow/observe.go with the
-- supervisor of the outside. The wave is kept when a call fails.
pub mod Owned
pub mod Shrinking
pub mod Stable
use issueq.Prelude.{String, Option, none, some, List, [], ◌∷◌, if◌then◌else◌, str_eq}
use issueq.Model.{Time, Job}
use issueq.Supervisor.{Observation}
use issueq.Errors.{CallError}
use issueq.Effects.{Outside, Io, pure, ◌>>=◌, ask, handle, request}
use issueq.Effects.Queue.{renew_lease, owned_running_jobs}
use issueq.Actions.Labels.{remove_without}
use issueq.Workflow.{ObservationDecision, observation_to_decision, is_ownership_loss}
use issueq.Workflow.Observe.{DurableLaunch, durable, not_durable, durable_launch_record, unobserved}
use issueq.Workflow.Finalize.{ObservationFinalization}
use issueq.Workflow.Lifecycle.{finalize_owned_observation_with_lifecycle}
use issueq.Dispatcher.{Wave, WaveConfig, count_finalized, is_empty_list}

pub record Reap : Type 0 where
  pub wave : Wave
  pub error : Option CallError

abbrev pub reaped : Wave → Option CallError → Reap
reaped wave error = record { wave = wave; error = error }

-- A lookup in the map `owned`, in which a later job replaces one with the same id.
abbrev pub owned_job : List Job → String → Option Job
owned_job [] id = none
owned_job (job ∷ jobs) id = elim (owned_job jobs id) [
  | some later ↦ some later
  | none ↦ if str_eq job.id id then some job else none
]

abbrev pub drop_active : String → Wave → Wave
drop_active id wave = record wave { active = remove_without wave.active id }

abbrev pub observed_by : Outside → DurableLaunch → Io Observation
observed_by o (not_durable reason) = pure (unobserved reason)
observed_by o (durable launch) = request (λ n. o.inspect n launch)

unfoldable pub inspect_job : Outside → Job → Io Observation
unfolding durable_launch_record
inspect_job o job = observed_by o (durable_launch_record o.printing job)

unfoldable pub count_reaped : ObservationFinalization → Wave → Wave
unfolding count_finalized
count_reaped f wave = if f.finalized then count_finalized f.status wave else wave

module _ (o : Outside) (c : WaveConfig) where
  abbrev pub fail_reap : Wave → CallError → Io Reap
  fail_reap wave x = pure (reaped wave (some x))

  abbrev pub reap_running : Job → Wave → Io Reap
  reap_running job wave =
      handle (renew_lease o job.id c.identity.instance_id c.lease) (λ _. pure (reaped wave none))
        (λ x.
          if is_ownership_loss x
          then pure (reaped (drop_active job.id wave) none)
          else fail_reap wave x)

  abbrev pub reap_unknown : Job → Wave → Io Reap
  reap_unknown job wave =
      handle (renew_lease o job.id c.identity.instance_id c.lease) (λ _. pure (reaped wave none))
        (λ x. if is_ownership_loss x then pure (reaped wave none) else fail_reap wave x)

  abbrev pub reap_finalized : Job → Observation → Wave → Time → Io Reap
  reap_finalized job obs wave now =
      handle
        (finalize_owned_observation_with_lifecycle o c.cfg c.identity c.lease job obs now
          c.has_github)
        (λ f. pure (reaped (drop_active job.id (count_reaped f wave)) none)) (fail_reap wave)

  abbrev pub reap_ended : Job → Observation → Wave → Io Reap
  reap_ended job obs wave = ask o.clock >>= reap_finalized job obs wave

  abbrev pub reap_decided : Job → Wave → Observation → ObservationDecision → Io Reap
  reap_decided job wave obs ObservationDecision.keep_running = reap_running job wave
  reap_decided job wave obs ObservationDecision.unknown = reap_unknown job wave
  reap_decided job wave obs _ = reap_ended job obs wave

  abbrev pub reap_job : Job → Wave → Io Reap
  reap_job job wave =
      handle (inspect_job o job) (λ obs. reap_decided job wave obs (observation_to_decision obs))
        (fail_reap wave)

  -- What the loop does with one key of the active jobs.
  abbrev pub reap_key : String → Wave → Option Job → Io Reap
  reap_key id wave none = pure (reaped (drop_active id wave) none)
  reap_key id wave (some job) = reap_job job wave

  abbrev pub reap_on : (Wave → Io Reap) → Reap → Io Reap
  reap_on rest r = elim r.error [ some x ↦ pure r | none ↦ rest r.wave ]

  -- The loop over the keys.
  unfoldable pub reap_keys : List Job → List String → Wave → Io Reap
  unfolding inspect_job count_reaped renew_lease finalize_owned_observation_with_lifecycle
      observation_to_decision
  reap_keys jobs [] wave = pure (reaped wave none)
  reap_keys jobs (id ∷ ids) wave =
      let rest = reap_keys jobs ids in reap_key id wave (owned_job jobs id) >>= reap_on rest

  unfoldable pub reap_renew_active : Wave → Io Reap
  unfolding reap_keys owned_running_jobs
  reap_renew_active wave =
      if is_empty_list wave.active
      then pure (reaped wave none)
      else handle (owned_running_jobs o c.identity.instance_id)
          (λ jobs. reap_keys jobs wave.active wave) (fail_reap wave)
