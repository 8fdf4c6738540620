-- ===== src/Workflow/Launchable.antt =====
-- When preparing a claimed job lets it launch.
use issueq.Prelude.{some, none, ℕ, ℤ, pos, String, ◌≡◌, refl, Bool, true, Option, leb_ℤ}
use issueq.Model.{Time, JobStatus, Job, RunnerIdentity}
use issueq.Config.{Config, RouteConfig}
use issueq.Errors.{CallError, Failure}
use issueq.Effects.{World, Outside, Io, pure, store_call, result_of}
use issueq.Effects.Stable.{stepped}
use issueq.Effects.Ends.{Ends, OnValue, Ends-pure, ends_rules}
use issueq.Store.{Db, Result, ok, err}
use issueq.Store.Attempts.{AttemptKey, increment_attempts_for_job}
use issueq.Workflow.Prepare.{
  launch, done, dropped, Prepared, lost, ended, finalize_prepared, drop_prepared,
}

-- A call of the store counted an attempt of the job for the instance, and this is its answer.
pub record HasCounted (job_id instance : String) (attempts : ℕ) : Type 0 where
  pub key : AttemptKey
  pub checked_at : Time
  pub counted_at : Time
  pub now : Time
  pub db : Db
  pub answer :
      (increment_attempts_for_job job_id instance key checked_at counted_at now db).0 ≡ ok attempts

-- The attempts of a job that is to be launched are those that the store counted, and no more than the
-- route allows; a finalized job is done, and a job that is dropped was lost.
pub record IsDecided (job_id instance : String) (route : RouteConfig) (p : Prepared) : Type 0 where
  pub counted : p.outcome ≡ launch → HasCounted job_id instance p.attempts
  pub attempts : p.outcome ≡ launch → leb_ℤ (pos p.attempts) route.job.max_attempts ≡ true
  pub finalized : p.finalized ≡ true → p.outcome ≡ done
  pub lost : p.outcome ≡ dropped → p.ownership_lost ≡ true

module _ (o : Outside) (cfg : Config) (identity : RunnerIdentity) (lease : ℤ) (route : RouteConfig)
    (job : Job) where
  abbrev Decided : Io Prepared → Type 0
  Decided m = Ends (λ p _. IsDecided job.id identity.instance_id route p) m

  lost-Decided : (attempts : ℕ) → IsDecided job.id identity.instance_id route (lost attempts)
  lost-Decided attempts = record {
    counted = λ e. absurd cc;
    attempts = λ e. absurd cc;
    finalized = λ e. absurd cc;
    lost = λ e. refl;
  }

  ended-Decided :
      (attempts : ℕ) (status : JobStatus) (finalized : Bool)
      → IsDecided job.id identity.instance_id route (ended attempts status finalized)
  ended-Decided attempts status finalized = record {
    counted = λ e. absurd cc;
    attempts = λ e. absurd cc;
    finalized = λ e. refl;
    lost = λ e. absurd cc;
  }

  Ends-ended :
      (attempts : ℕ) (status : JobStatus) (finalized : Bool)
      → Decided (pure (ended attempts status finalized))
  Ends-ended attempts status finalized = Ends-pure _ (λ w. ended-Decided attempts status finalized)

  Ends-finalize_prepared :
      (attempts : ℕ) (status : JobStatus) (message : String)
      → Decided (finalize_prepared o cfg identity lease route job attempts status message)
  unfolding finalize_prepared
  Ends-finalize_prepared attempts status message = search (ends_rules, Ends-ended)

  Ends-lost : (attempts : ℕ) → Decided (pure (lost attempts))
  Ends-lost attempts = Ends-pure _ (λ w. lost-Decided attempts)

  Ends-drop_prepared :
      (attempts : ℕ) (x : CallError)
      → Decided (drop_prepared o cfg identity lease route job attempts x)
  unfolding drop_prepared
  Ends-drop_prepared attempts x = search (ends_rules, Ends-lost)

  ruleset decided_rules = (ends_rules, Ends-lost, Ends-finalize_prepared, Ends-drop_prepared)

  counted :
      (f : Option Failure) (key : AttemptKey) (t₁ t₂ now : Time) (w : World)
      → OnValue
          (λ n _. HasCounted job.id identity.instance_id n)
          (store_call f (increment_attempts_for_job job.id identity.instance_id key t₁ t₂ now) w)
  counted (some x) key t₁ t₂ now w = tt
  counted none key t₁ t₂ now w = answered _ refl
    where
      answered :
          (r : Result ℕ)
          → (increment_attempts_for_job job.id identity.instance_id key t₁ t₂ now w.db).0 ≡ r
          → OnValue
              (λ n _. HasCounted job.id identity.instance_id n)
              (
                result_of r,
                stepped
                    (increment_attempts_for_job job.id identity.instance_id key t₁ t₂ now w.db).1
                    w,
              )
      answered (ok n) e = record {
        key = key;
        checked_at = t₁;
        counted_at = t₂;
        now = now;
        db = w.db;
        answer = e;
      }
      answered (err x) e = tt
