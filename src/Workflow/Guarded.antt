-- ===== src/Workflow/Guarded.antt =====
-- What the workflow writes to GitHub for a job.
use issueq.Prelude.{ℤ, String, ◌≡◌, refl, Bool, false, true, List, [], ◌∷◌}
use issueq.Model.{Time, Job, RunnerIdentity}
use issueq.Config.{Config, RouteConfig}
use issueq.Supervisor.{Observation}
use issueq.Effects.{World, Outside, Call, renewed}
use issueq.Effects.Stable.{IsStable, is_write}
use issueq.Workflow.Prepare.{prepare_claimed_wrapper_launch}
use issueq.Workflow.StablePrograms.{Keeps-prepare}
use issueq.Workflow.Lifecycle.{finalize_owned_observation_with_lifecycle}
use issueq.Workflow.StableFinalize.{Keeps-finalize}

-- Each write to GitHub comes directly after a renewal of the job's lease; the last call is first.
pub data IsGuarded (job_id : String) : List Call → Type 0 where
  start : IsGuarded job_id []
  other :
      {calls : List Call} (c : Call)
      → is_write c ≡ false
      → IsGuarded job_id calls
      → IsGuarded job_id (c ∷ calls)
  write :
      {calls : List Call} (c : Call)
      → is_write c ≡ true
      → IsGuarded job_id (renewed job_id ∷ calls)
      → IsGuarded job_id (c ∷ renewed job_id ∷ calls)

IsGuarded-IsStable :
    (job_id instance : String) → IsStable job_id instance (λ w. IsGuarded job_id w.trace)
IsGuarded-IsStable job_id instance = record {
  turns = λ w h. h;
  steps = λ w step h. h;
  renewals = λ w h. other (renewed job_id) refl h;
  writes = λ w c is h. write c is h;
}

module _ (o : Outside) (cfg : Config) (identity : RunnerIdentity) (lease : ℤ) (job : Job)
    (has_github : Bool) (w : World) where
  -- Whatever GitHub, the store and the clock answer, when a claimed job is prepared for its
  -- launch, each write to GitHub comes directly after a renewal of the job's lease that
  -- succeeded, if that held before.
  pub prepare_claimed_wrapper_launch-IsGuarded :
      (route : RouteConfig)
      → IsGuarded job.id w.trace
      → IsGuarded job.id
          (prepare_claimed_wrapper_launch o cfg identity lease route job has_github w).1.trace
  prepare_claimed_wrapper_launch-IsGuarded route h =
      (Keeps-prepare o cfg identity lease route job (IsGuarded-IsStable job.id identity.instance_id)
          has_github).at
        w h

  -- Whatever GitHub, the store, the clock and the files answer, when the observation of a job is
  -- finalized, each write to GitHub comes directly after a renewal of the job's lease that
  -- succeeded, if that held before.
  pub finalize_with_lifecycle-IsGuarded :
      (obs : Observation) (now : Time)
      → IsGuarded job.id w.trace
      → IsGuarded job.id
          (finalize_owned_observation_with_lifecycle o cfg identity lease job obs now has_github
            w).1.trace
  finalize_with_lifecycle-IsGuarded obs now h =
      (Keeps-finalize o cfg identity lease job obs now
          (IsGuarded-IsStable job.id identity.instance_id) has_github).at
        w h
