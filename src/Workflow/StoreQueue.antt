-- ===== src/Workflow/StoreQueue.antt =====
-- The store as the queue that internal/workflow/finalize.go asks.
use mathlib.Core.Path.{subst}
use issueq.Prelude.{
  String, ◌≡◌, refl, Bool, true, false, Option, none, some, inl, inr, ◌⊎◌, if◌then◌else◌, not, ◌&&◌,
  str_eq, get_or, Option-cases,
}
use issueq.Model.{Time, is_running, JobStatus, Job, RunnerIdentity}
use issueq.Supervisor.{LaunchRecord, Observation}
use issueq.Sql.{before_time}
use issueq.Store.{JobRow, Db, StoreError, not_owner, lost_lease, Result, ok, err}
use issueq.Store.Owned.{find_job}
use issueq.Store.Finalize.{FinalizeClock, finalize_job_owned}
use issueq.Leasing.Fencing.{refusal, owned_calls-fenced}
use issueq.Errors.{CallError, store_error}
use issueq.Workflow.{drop_on_ownership_loss, status_for_observation}
use issueq.Workflow.Observe.{Printing, DurableLaunch, durable, not_durable, durable_launch_record}
use issueq.Workflow.Finalize.{
  ResultFiles, ObservationFinalizer, Finalized, after_finalize, finalize_of,
  finalize_owned_observation,
}

abbrev pub call_error : Result (Unit {0}) → Option CallError
call_error (ok _) = none
call_error (err x) = some (store_error x)

-- `*sqlite.Store` as an `ObservationFinalizer`; the clock's readings are arguments.
abbrev pub store_finalizer : FinalizeClock → ObservationFinalizer Db
store_finalizer clock = record {
  finalize_job_owned = λ job_id instance result db.
      let (x, db') = finalize_job_owned job_id instance result clock db in (call_error x, db');
}

same_drop :
    {x y : StoreError}
    → drop_on_ownership_loss (some (store_error x)) ≡ (true, none)
    → some x ≡ some y
    → drop_on_ownership_loss (some (store_error y)) ≡ (true, none)
same_drop {x} {y} h e =
    let same : x ≡ y = cc in
    subst (λ z. drop_on_ownership_loss (some (store_error z)) ≡ (true, none)) same h

-- A refusal is an ownership loss.
choice-dropped :
    (a b : Bool) {x : StoreError}
    → (if not a then some not_owner else if b then some lost_lease else none) ≡ some x
    → drop_on_ownership_loss (some (store_error x)) ≡ (true, none)
unfolding drop_on_ownership_loss
choice-dropped false b h = same_drop refl h
choice-dropped true true h = same_drop refl h
choice-dropped true false h = absurd cc

refusal-dropped :
    (instance : String) (at : Time) (o : Option JobRow) {x : StoreError}
    → refusal instance at o ≡ some x
    → drop_on_ownership_loss (some (store_error x)) ≡ (true, none)
unfolding drop_on_ownership_loss
refusal-dropped instance at none h = same_drop refl h
refusal-dropped instance at (some r) h =
    choice-dropped (is_running r.status && str_eq (get_or r.runner_instance_id "") instance)
      (before_time r.lease_until at) h

launch_cases :
    (d : DurableLaunch)
    → ((launch : LaunchRecord) × (d ≡ durable launch))
      ⊎ ((reason : String) × (d ≡ not_durable reason))
launch_cases (durable launch) = inl (launch, refl)
launch_cases (not_durable reason) = inr (reason, refl)

module _ (p : Printing) (files : ResultFiles) (clock : FinalizeClock) (identity : RunnerIdentity)
    (job : Job) (obs : Observation) (now : Time) (db : Db) where
  abbrev outcome : Finalized × Db
  outcome = finalize_owned_observation p files (store_finalizer clock) identity job obs now db

  -- The outcome has no error, finalized nothing, and left the tables alone.
  pub record IsDropped (out : Finalized × Db) : Type 0 where
    pub no_error : out.0.1 ≡ none
    pub not_finalized : out.0.0.finalized ≡ false
    pub untouched : out.1 ≡ db

  not_durable-IsDropped :
      {reason : String} → durable_launch_record p job ≡ not_durable reason → IsDropped outcome
  unfolding finalize_owned_observation
  not_durable-IsDropped e =
      rw (e, finalize_owned_observation)
        (record { no_error = refl; not_finalized = refl; untouched = refl })

  unfinished-IsDropped :
      {launch : LaunchRecord}
      → durable_launch_record p job ≡ durable launch
      → status_for_observation obs ≡ none
      → IsDropped outcome
  unfolding finalize_owned_observation
  unfinished-IsDropped e k =
      rw (e, k, finalize_owned_observation)
        (record { no_error = refl; not_finalized = refl; untouched = refl })

  refused-IsDropped :
      {launch : LaunchRecord} {status : JobStatus} {x : StoreError}
      → durable_launch_record p job ≡ durable launch
      → status_for_observation obs ≡ some status
      → finalize_job_owned job.id identity.instance_id (finalize_of p files obs status now) clock db
        ≡ (err x, db)
      → drop_on_ownership_loss (some (store_error x)) ≡ (true, none)
      → IsDropped outcome
  unfolding finalize_owned_observation after_finalize
  refused-IsDropped e k f d =
      rw (e, k, finalize_owned_observation)
        (rw f (rw d (record { no_error = refl; not_finalized = refl; untouched = refl })))

  -- If the store no longer lets the runner change the job, because the job does not run under it or
  -- its lease has passed, then finalizing an observation of the job ends without an error, finalizes
  -- nothing, and leaves the tables as they were, whatever was observed.
  pub finalize_owned_observation-refused :
      {x : StoreError}
      → refusal identity.instance_id clock.checked_at (find_job job.id db) ≡ some x
      → IsDropped outcome
  finalize_owned_observation-refused {x} h = elim (launch_cases (durable_launch_record p job)) [
    | inr (reason, e) ↦ not_durable-IsDropped e
    | inl (launch, e) ↦ elim (Option-cases (status_for_observation obs)) [
      | inl k ↦ unfinished-IsDropped e k
      | inr (status, k) ↦
          let (_, _, fenced) =
            owned_calls-fenced job.id identity.instance_id db clock.checked_at h in
          refused-IsDropped e k
            (fenced (finalize_of p files obs status now) clock.finished_at clock.reversed_at
              clock.now)
            (refusal-dropped identity.instance_id clock.checked_at (find_job job.id db) h)
    ]
  ]
