-- ===== src/Workflow/Launch/Safety.antt =====
-- What holds at each start of a run.
use issueq.Prelude.{suc, String, ◌≡◌, true, false, Option, none, some, All, Option-cases, inl, inr}
use issueq.Model.{Time, JobStatus, is_running}
use issueq.Supervisor.{LaunchSpec, LaunchRecord}
use issueq.Store.{Db, Result, ok, err}
use issueq.Store.Launch.{mark_job_launching_owned}
use issueq.Store.Steps.{launches_own}
use issueq.Errors.{CallError, Failure, Answer, value, error}
use issueq.Runner.{Paths, Context}
use issueq.Effects.{
  World, Outside, Io, resume, prefixed, handle, Call, renewed, launched, cancelled, removed_labels,
  added_labels, commented, traced, store_call, call, result_of, next_turn, start_run, on_answer,
  answer_of,
}
use issueq.Effects.Queue.{mark_launching}
use issueq.Effects.Keeps.{Keeps, Keeps-raise}
use issueq.Effects.Stable.{IsStable, stepped, is_write, Keeps-finalize_job, stable_rules}
use issueq.Workflow.Launch.{launch_token, absolute_paths, write_context}
use issueq.Workflow.Launch.Steps.{
  LaunchInput, LaunchPlan, Launched, finalize_launch_terminal, cleanup_launched_wrapper,
  fail_launch, fail_context, record_launched, mark_and_start, prepare_plan, launch_valid,
  invalid_input, launch_claimed_wrapper, plan_of, launch_checked,
}
use issueq.Workflow.Launch.Marked.{HasMarked, OnOk, mark_job_launching_owned-OnOk}

-- A stable predicate that also holds after a run of the job was started, where the store has the job
-- marked for it, and after a run was cancelled.
pub record IsLaunchStable (job_id instance : String) (P : World → Type 0) : Type 0 where
  pub stable : IsStable job_id instance P
  pub starts :
      (w : World) (spec : LaunchSpec)
      → HasMarked instance spec w.db
      → P w
      → P (traced (launched spec w.db) w)
  pub cancels : (w : World) (run : LaunchRecord) → P w → P (traced (cancelled run) w)

module _ {P : World → Type 0} (o : Outside) (in' : LaunchInput)
    (ls : IsLaunchStable in'.job.id in'.identity.instance_id P) where
  abbrev s : IsStable in'.job.id in'.identity.instance_id P
  s = ls.stable

  Keeps-launch_token : Keeps P (launch_token o)
  unfolding launch_token
  Keeps-launch_token = elim (Option-cases o.new_token) [
    | inl e ↦ rw (e, launch_token) (search stable_rules depth 20)
    | inr (new, e) ↦ rw (e, launch_token) (search stable_rules depth 20)
  ]

  Keeps-absolute_paths : (paths : Paths) → Keeps P (absolute_paths o paths)
  unfolding absolute_paths
  Keeps-absolute_paths paths = search stable_rules depth 20

  Keeps-write_context : (paths : Paths) (c : Context) → Keeps P (write_context o paths c)
  unfolding write_context
  Keeps-write_context paths c = search stable_rules depth 20

  Keeps-finalize_launch_terminal :
      (status : JobStatus) (message : String) (now : Time)
      → is_running status ≡ false
      → Keeps P (finalize_launch_terminal o in' status message now)
  unfolding finalize_launch_terminal
  Keeps-finalize_launch_terminal status message now h =
      search (stable_rules, Keeps-finalize_job) depth 20

  Keeps-fail_launch :
      (plan : LaunchPlan) (prefix : String) (x : CallError)
      → Keeps P (fail_launch o in' plan prefix x)
  Keeps-fail_launch plan prefix x = search (stable_rules, Keeps-finalize_launch_terminal) depth 20

  Keeps-fail_context : (plan : LaunchPlan) (x : CallError) → Keeps P (fail_context o in' plan x)
  Keeps-fail_context plan x = search (stable_rules, Keeps-finalize_launch_terminal) depth 20

  Keeps-cleanup : (run : LaunchRecord) → Keeps P (cleanup_launched_wrapper o in' run)
  unfolding cleanup_launched_wrapper
  Keeps-cleanup run = record { at = λ w h. ls.cancels w run h }

  ruleset launch_rules = (stable_rules, Keeps-fail_launch, Keeps-fail_context, Keeps-cleanup)

  Keeps-record_launched :
      (plan : LaunchPlan) (run : LaunchRecord) → Keeps P (record_launched o in' plan run)
  Keeps-record_launched plan run = search launch_rules depth 20

  module _ (now : Time) (token : String) (paths : Paths) where
    abbrev plan : LaunchPlan
    plan = plan_of o in' now token paths

    abbrev IsReady : Db → Type 0
    IsReady db = HasMarked in'.identity.instance_id plan.spec db

    -- What follows the mark.
    abbrev start : Io Launched
    start =
        handle (start_run o plan.spec) (record_launched o in' plan)
          (fail_launch o in' plan "wrapper launch failed")

    started :
        (r : Answer LaunchRecord)
        → Keeps P (
            on_answer
              (record_launched o in' plan)
              (fail_launch o in' plan "wrapper launch failed")
              r)
    started (value run) = Keeps-record_launched plan run
    started (error x) = Keeps-fail_launch plan "wrapper launch failed" x

    Keeps-start : (w : World) → IsReady w.db → P w → P (start w).1
    Keeps-start w ready h =
        (started (answer_of (o.start w.turn plan.spec))).at _ (ls.starts w plan.spec ready h)

    abbrev AfterMark : Answer (Unit {0}) × World → Type 0
    AfterMark (value _, w) = IsReady w.db × P w
    AfterMark (error _, w) = P w

    stepped-AfterMark :
        (r : Result (Unit {0})) (db : Db) (w : World)
        → OnOk IsReady (r, db)
        → P (stepped db w)
        → AfterMark (result_of r, stepped db w)
    stepped-AfterMark (ok _) db w ready h = (ready, h)
    stepped-AfterMark (err x) db w ready h = h

    store_call-AfterMark :
        (d : Option Failure) (t₁ t₂ : Time) (w : World)
        → P w
        → AfterMark (
            store_call d
              (mark_job_launching_owned in'.job.id in'.identity.instance_id token t₁ t₂)
              w)
    store_call-AfterMark (some x) t₁ t₂ w h = s.turns w h
    store_call-AfterMark none t₁ t₂ w h =
        let (r, db) =
          mark_job_launching_owned in'.job.id in'.identity.instance_id token t₁ t₂ w.db in
        stepped-AfterMark r db w
          (mark_job_launching_owned-OnOk plan.spec in'.identity.instance_id t₁ t₂ w.db)
          (s.steps w (launches_own token t₁ t₂) h)

    mark_launching-AfterMark :
        (w : World) → P w → AfterMark (mark_launching o in'.job.id in'.identity.instance_id token w)
    unfolding mark_launching call
    mark_launching-AfterMark w h =
        store_call-AfterMark (o.driver (suc (suc w.turn))) (o.clock w.turn) (o.clock (suc w.turn))
          (next_turn (next_turn w)) (s.turns (next_turn w) (s.turns w h))

    resumed :
        (prefix : String) (out : Answer (Unit {0}) × World)
        → AfterMark out
        → P (resume (λ _. start) (prefixed prefix out.0) out.1).1
    resumed prefix (value _, w) (ready, h) = Keeps-start w ready h
    resumed prefix (error x, w) h = h

    Keeps-mark_and_start : Keeps P (mark_and_start o in' plan)
    Keeps-mark_and_start = record {
      at = λ w h.
          resumed "mark wrapper job launching"
            (mark_launching o in'.job.id in'.identity.instance_id token w)
            (mark_launching-AfterMark w h);
    }

    Keeps-prepare_plan : Keeps P (prepare_plan o in' plan)
    Keeps-prepare_plan = search (launch_rules, Keeps-write_context, Keeps-mark_and_start) depth 20

  Keeps-launch_valid : Keeps P (launch_valid o in')
  Keeps-launch_valid =
      search (stable_rules, Keeps-launch_token, Keeps-absolute_paths, Keeps-prepare_plan) depth 20

  Keeps-checked : (invalid : Option String) → Keeps P (launch_checked o in' invalid)
  Keeps-checked none = Keeps-launch_valid
  Keeps-checked (some message) = Keeps-raise _

  pub Keeps-launch : Keeps P (launch_claimed_wrapper o in')
  unfolding launch_claimed_wrapper
  Keeps-launch = Keeps-checked (invalid_input o in')

-- Each start of a run in the trace came when the tables had the job running under the instance, and
-- marked as launching with the token of the run.
abbrev pub StartsMarked : String → Call → Type 0
StartsMarked instance (launched spec db) = HasMarked instance spec db
StartsMarked instance _ = Unit

write_of : (instance : String) (c : Call) → is_write c ≡ true → StartsMarked instance c
write_of instance (renewed j) h = tt
write_of instance (removed_labels n ls) h = tt
write_of instance (added_labels n ls) h = tt
write_of instance (commented n c) h = tt
write_of instance (launched spec db) h = absurd cc
write_of instance (cancelled r) h = tt

Starts-IsLaunchStable :
    (job_id instance : String)
    → IsLaunchStable job_id instance (λ w. All (StartsMarked instance) w.trace)
Starts-IsLaunchStable job_id instance = record {
  stable = record {
    turns = λ w h. h;
    steps = λ w step h. h;
    renewals = λ w h. (tt, h);
    writes = λ w c is h. (write_of instance c is, h);
  };
  starts = λ w spec marked h. (marked, h);
  cancels = λ w run h. (tt, h);
}

-- Whatever the store, the supervisor and the operating system answer, a launch starts a run only
-- when the tables have the job running under the launching instance, with the run's token, in the
-- state `launching`; each start in the trace did so, if those before the launch did.
pub launch_claimed_wrapper-StartsMarked :
    (o : Outside) (in' : LaunchInput) (w : World)
    → All (StartsMarked in'.identity.instance_id) w.trace
    → All (StartsMarked in'.identity.instance_id) (launch_claimed_wrapper o in' w).1.trace
launch_claimed_wrapper-StartsMarked o in' w h =
    (Keeps-launch o in' (Starts-IsLaunchStable in'.job.id in'.identity.instance_id)).at w h
