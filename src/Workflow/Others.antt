-- ===== src/Workflow/Others.antt =====
-- The workflow of a job, and the rows that it leaves alone.
use issueq.Prelude.{ℤ, String, ◌≡◌, ◌≢◌, ◌∙◌, refl, Bool, false, Option, some}
use issueq.Model.{Time, Job, RunnerIdentity}
use issueq.Config.{Config, RouteConfig}
use issueq.Supervisor.{Observation}
use issueq.Store.{JobRow}
use issueq.Store.Owned.{find_job}
use issueq.Store.Foreign.{runs_under, JobStep-foreign}
use issueq.Store.Others.{HasRow, JobStep-other}
use issueq.Effects.{World, Outside}
use issueq.Effects.Stable.{IsStable}
use issueq.Workflow.Prepare.{prepare_claimed_wrapper_launch}
use issueq.Workflow.StablePrograms.{Keeps-prepare}
use issueq.Workflow.Lifecycle.{finalize_owned_observation_with_lifecycle}
use issueq.Workflow.StableFinalize.{Keeps-finalize}
use issueq.Workflow.Launch.Steps.{LaunchInput, launch_claimed_wrapper}
use issueq.Workflow.Launch.Safety.{IsLaunchStable, Keeps-launch}

pub HasRow-IsStable :
    {job_id instance other : String} (ne : other ≢ job_id) (row : Option JobRow)
    → IsStable job_id instance (λ w. HasRow other row w.db)
HasRow-IsStable ne row = record {
  turns = λ w h. h;
  steps = λ w step h. JobStep-other ne step ∙ h;
  renewals = λ w h. h;
  writes = λ w c is h. h;
}

HasRow-IsLaunchStable :
    {job_id other : String} (instance : String) (ne : other ≢ job_id) (row : Option JobRow)
    → IsLaunchStable job_id instance (λ w. HasRow other row w.db)
HasRow-IsLaunchStable instance ne row = record {
  stable = HasRow-IsStable ne row;
  starts = λ w spec marked h. h;
  cancels = λ w run h. h;
}

-- Whatever GitHub, the store, the supervisor and the operating system answer, and wherever they end:
-- preparing the launch of a claimed job, launching a job, and finalizing the observation of a job
-- leave the row of every other job as it was.
pub workflow-others :
    (o : Outside) (cfg : Config) (identity : RunnerIdentity) (lease : ℤ) (route : RouteConfig)
    (job : Job) (obs : Observation) (now : Time) (has_github : Bool) (in' : LaunchInput) (w : World)
    (other : String)
    → other ≢ job.id
    → other ≢ in'.job.id
    → (find_job other
          (prepare_claimed_wrapper_launch o cfg identity lease route job has_github w).1.db
        ≡ find_job other w.db)
      × (find_job other (launch_claimed_wrapper o in' w).1.db ≡ find_job other w.db)
      × (find_job other
            (finalize_owned_observation_with_lifecycle o cfg identity lease job obs now has_github
              w).1.db
          ≡ find_job other w.db)
workflow-others o cfg identity lease route job obs now has_github in' w other ne ne' =
    let row = find_job other w.db in
    let s = HasRow-IsStable ne row in
    (
      (Keeps-prepare o cfg identity lease route job s has_github).at w refl,
      (Keeps-launch o in' (HasRow-IsLaunchStable in'.identity.instance_id ne' row)).at w refl,
      (Keeps-finalize o cfg identity lease job obs now s has_github).at w refl,
    )

Foreign-IsStable :
    (job_id instance : String) (r : JobRow)
    → runs_under instance r ≡ false
    → IsStable job_id instance (λ w. HasRow job_id (some r) w.db)
Foreign-IsStable job_id instance r foreign = record {
  turns = λ w h. h;
  steps = λ w step h. JobStep-foreign job_id instance r foreign step h;
  renewals = λ w h. h;
  writes = λ w c is h. h;
}

-- If the tables have a job as one that does not run under a runner's instance, then preparing its
-- launch, launching it and finalizing its observation for that instance leave its row as it is,
-- whatever GitHub, the store, the supervisor and the operating system answer, and wherever they end.
pub workflow-fenced :
    (o : Outside) (cfg : Config) (lease : ℤ) (route : RouteConfig) (obs : Observation) (now : Time)
    (has_github : Bool) (in' : LaunchInput) (w : World) (r : JobRow)
    → find_job in'.job.id w.db ≡ some r
    → runs_under in'.identity.instance_id r ≡ false
    → (find_job in'.job.id
          (prepare_claimed_wrapper_launch o cfg in'.identity lease route in'.job has_github w).1.db
        ≡ some r)
      × (find_job in'.job.id (launch_claimed_wrapper o in' w).1.db ≡ some r)
      × (find_job in'.job.id
            (finalize_owned_observation_with_lifecycle o cfg in'.identity lease in'.job obs now
              has_github w).1.db
          ≡ some r)
workflow-fenced o cfg lease route obs now has_github in' w r h foreign =
    let s = Foreign-IsStable in'.job.id in'.identity.instance_id r foreign in
    let ls : IsLaunchStable in'.job.id in'.identity.instance_id
        (λ w. HasRow in'.job.id (some r) w.db) =
      record { stable = s; starts = λ w spec marked h. h; cancels = λ w run h. h } in
    (
      (Keeps-prepare o cfg in'.identity lease route in'.job s has_github).at w h,
      (Keeps-launch o in' ls).at w h,
      (Keeps-finalize o cfg in'.identity lease in'.job obs now s has_github).at w h,
    )
