-- ===== src/JobWrapper/Endings.antt =====
-- How the end of a run is seen by the workflow.
use issueq.Prelude.{
  ℕ, pos, negsuc, String, ◌≡◌, refl, true, false, not, Option, some, ◌&&◌, ◌||◌, ltb_ℤ, leb_ℤ,
  str_eq, arith, Bool-cases, inl, inr,
}
use issueq.Prelude.Text.Equal.{str_eq_self}
use issueq.Model.{Time, JobStatus}
use issueq.JobWrapper.{
  Spec, Metadata, succeeded, exit_error, wait_error, wait, timeout, cancel, Progress, not_started,
  ran, identity_matches, observation_from_metadata, run_metadata,
}
use issueq.Workflow.{status_for_observation, observation_to_decision}

-- The status that the end of a run stands for.
abbrev pub status_of_run : Progress → JobStatus
status_of_run (not_started message) = JobStatus.failed
status_of_run (ran pid pgid cancel w) = JobStatus.cancelled
status_of_run (ran pid pgid timeout w) = JobStatus.failed
status_of_run (ran pid pgid wait succeeded) = JobStatus.succeeded
status_of_run (ran pid pgid wait (exit_error code text)) = JobStatus.failed
status_of_run (ran pid pgid wait (wait_error text)) = JobStatus.failed

-- The exit code of an `exec.ExitError` is not 0.
abbrev pub IsPlain : Progress → Type 0
IsPlain (ran pid pgid d (exit_error (pos ℕ.zero) text)) = ⊥
IsPlain _ = Unit

module _ (timed_out : String) (spec : Spec) (started finished : Time) where
  abbrev seen : Progress → Option JobStatus
  seen p = status_for_observation (
      observation_from_metadata (run_metadata timed_out spec started finished p) spec.job_id
        spec.launch_token)

  same : (str_eq spec.job_id "" || str_eq spec.job_id spec.job_id) ≡ true
  same = let own = str_eq_self spec.job_id in ground arith

  own_identity :
      (m : Metadata)
      → m.job_id ≡ spec.job_id
      → m.launch_token ≡ spec.launch_token
      → identity_matches m spec.job_id spec.launch_token ≡ true
  own_identity m h k = rw (h, k, same, str_eq_self spec.launch_token)

  -- A run that was left to its end and has an exit code other than 0.
  failed_code :
      (m : Metadata)
      → m.job_id ≡ spec.job_id
      → m.launch_token ≡ spec.launch_token
      → m.cancelled ≡ false
      → m.timed_out ≡ false
      → (leb_ℤ m.exit_code (pos 0) && leb_ℤ (pos 0) m.exit_code) ≡ false
      → status_for_observation (observation_from_metadata m spec.job_id spec.launch_token)
        ≡ some JobStatus.failed
  unfolding observation_from_metadata status_for_observation observation_to_decision
  failed_code m h k c t code =
      let own = own_identity m h k in
      elim (Bool-cases (not (str_eq m.error "") && ltb_ℤ m.exit_code (pos 0))) [
        | inl e ↦ rw (own, c, t, e, observation_from_metadata)
        | inr e ↦ rw (own, c, t, e, code, observation_from_metadata)
      ]

  positive_code : (n : ℕ) → (leb_ℤ (pos (ℕ.suc n)) (pos 0) && leb_ℤ (pos 0) (pos (ℕ.suc n))) ≡ false
  positive_code n = ground arith

  negative_code : (n : ℕ) → (leb_ℤ (negsuc n) (pos 0) && leb_ℤ (pos 0) (negsuc n)) ≡ false
  negative_code n = ground arith

  -- What the wrapper of a job writes down of the end of a run, read back for the same launch,
  -- ends the job with the status that the end stands for: `succeeded` for a command that ended by
  -- itself without an error, `cancelled` for one that was cancelled, and `failed` for all others,
  -- if no command that failed has the exit code 0.
  pub run_metadata-status : (p : Progress) → IsPlain p → seen p ≡ some (status_of_run p)
  unfolding observation_from_metadata run_metadata status_for_observation observation_to_decision
  run_metadata-status (not_started message) h =
      failed_code (run_metadata timed_out spec started finished (not_started message)) refl refl
        refl refl refl
  run_metadata-status (ran pid pgid cancel succeeded) h = rw (same, str_eq_self spec.launch_token)
  run_metadata-status (ran pid pgid cancel (exit_error code text)) h =
      rw (same, str_eq_self spec.launch_token)
  run_metadata-status (ran pid pgid cancel (wait_error text)) h =
      rw (same, str_eq_self spec.launch_token)
  run_metadata-status (ran pid pgid timeout succeeded) h = rw (same, str_eq_self spec.launch_token)
  run_metadata-status (ran pid pgid timeout (exit_error code text)) h =
      rw (same, str_eq_self spec.launch_token)
  run_metadata-status (ran pid pgid timeout (wait_error text)) h =
      rw (same, str_eq_self spec.launch_token)
  run_metadata-status (ran pid pgid wait succeeded) h = rw (same, str_eq_self spec.launch_token)
  run_metadata-status (ran pid pgid wait (exit_error (pos ℕ.zero) text)) h = absurd h
  run_metadata-status (ran pid pgid wait (exit_error (pos (ℕ.suc n)) text)) h =
      failed_code
        (run_metadata timed_out spec started finished
          (ran pid pgid wait (exit_error (pos (ℕ.suc n)) text)))
        refl refl refl refl (positive_code n)
  run_metadata-status (ran pid pgid wait (exit_error (negsuc n) text)) h =
      failed_code
        (run_metadata timed_out spec started finished
          (ran pid pgid wait (exit_error (negsuc n) text)))
        refl refl refl refl (negative_code n)
  run_metadata-status (ran pid pgid wait (wait_error text)) h =
      failed_code
        (run_metadata timed_out spec started finished (ran pid pgid wait (wait_error text))) refl
        refl refl refl refl
