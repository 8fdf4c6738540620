-- ===== src/JobWrapper/Inspect.antt =====
-- internal/supervisor/wrapper/wrapper.go: `Inspect`, `timeoutSeconds`, and `LoadMetadata` of
-- internal/jobwrapper/spec.go. The context has not ended; files and processes are parameters.
use Prim.Native.Nat.{◌/◌, ◌%◌, ◌*◌}
use issueq.Prelude.{
  ℕ, suc, ◌+◌, ◌-◌, ◌≤◌, ◌<◌, ℤ, pos, negsuc, String, ◌≡◌, refl, Bool, true, false, not, some, ◌==◌,
  ◌&&◌, ◌||◌, leb_ℤ, ltb_ℤ, ltb, if◌then◌else◌, str_eq, append, arith, Bool-cases, inl, inr,
}
use issueq.Prelude.Text.Equal.{same_text}
use issueq.Model.{Time, is_zero, JobStatus}
use issueq.Supervisor.{LaunchRecord, RunState, Observation}
use issueq.JobWrapper.{Metadata, unknown_observation, identity_matches, observation_from_metadata}
use issueq.Workflow.{status_for_observation, observation_to_decision}

-- What reading the metadata of a run gives; a file that is not there is told from other errors.
pub data Loaded : Type 0 where
  loaded : Metadata → Loaded
  not_there : Loaded
  unreadable : String → Loaded

abbrev eq_ℤ : ℤ → ℤ → Bool
eq_ℤ a b = leb_ℤ a b && leb_ℤ b a

-- Files, processes, the clock, and what `fmt` prints of a number.
pub record Machine : Type 0 where
  pub read_metadata : String → Loaded
  pub process_matches : ℤ → Time → Bool
  pub now : Time
  pub decimal : ℤ → String

abbrev versioned : Machine → Loaded → Loaded
versioned mc (loaded m) =
    if eq_ℤ m.version (pos 1)
    then loaded m
    else unreadable (append "unsupported metadata version " (mc.decimal m.version))
versioned mc other = other

unfoldable pub load_metadata : Machine → String → Loaded
load_metadata mc path = versioned mc (mc.read_metadata path)

abbrev running_since : RunState → Time → Observation
running_since state started = record (unknown_observation "") {
  state = state;
  started_at = started;
}

-- Without metadata.
unfoldable pub inspect_process : Machine → LaunchRecord → Observation
inspect_process mc r =
    if ltb_ℤ (pos 0) r.pid && mc.process_matches r.pid r.process_started_at
    then running_since RunState.running r.started_at
    else if not (is_zero r.started_at) && ltb (mc.now - r.started_at) 2000000000
    then running_since RunState.starting r.started_at
    else unknown_observation "wrapper metadata missing and process is not verified running"

abbrev inspect_loaded : Machine → LaunchRecord → Loaded → Observation
inspect_loaded mc r (loaded m) = observation_from_metadata m r.job_id r.launch_token
inspect_loaded mc r not_there = inspect_process mc r
inspect_loaded mc r (unreadable message) = unknown_observation message

unfoldable pub inspect : Machine → LaunchRecord → Observation
unfolding load_metadata inspect_process observation_from_metadata
inspect mc r =
    if not (str_eq r.kind "") && not (str_eq r.kind "wrapper")
    then unknown_observation "supervisor kind mismatch"
    else if str_eq r.job_id "" || str_eq r.launch_token ""
    then unknown_observation "launch identity is incomplete"
    else if str_eq r.metadata_path ""
    then inspect_process mc r
    else inspect_loaded mc r (load_metadata mc r.metadata_path)

unfoldable pub timeout_seconds : ℤ → ℤ
timeout_seconds (pos n) =
    let seconds = if n % 1000000000 == 0 then n / 1000000000 else suc (n / 1000000000) in
    if seconds == 0 then pos 1 else pos seconds
timeout_seconds (negsuc n) = pos 1

-- A positive timeout is rounded up to whole seconds: the seconds are at least the timeout, and
-- one second less is less than the timeout.
pub timeout_seconds-bounds :
    (n : ℕ)
    → 0 < n
    → (s : ℕ) × (timeout_seconds (pos n) ≡ pos s)
      × (n ≤ s * 1000000000)
      × (s * 1000000000 < n + 1000000000)
unfolding timeout_seconds
timeout_seconds-bounds n h = elim (Bool-cases (n % 1000000000 == 0)) [
  | inl e ↦
      let some_seconds : (n / 1000000000 == 0) ≡ false = ground arith in
      (n / 1000000000, rw (e, some_seconds), ground arith, ground arith)
  | inr e ↦
      let some_seconds : (suc (n / 1000000000) == 0) ≡ false = ground arith in
      (suc (n / 1000000000), rw (e, some_seconds), ground arith, ground arith)
]

module _ (mc : Machine) (r : LaunchRecord) where
  -- The run's metadata carries the job and the token of the record.
  abbrev pub HasOwnMetadata : Type 0
  HasOwnMetadata =
      (m : Metadata) × (load_metadata mc r.metadata_path ≡ loaded m)
      × (m.job_id ≡ r.job_id)
      × (m.launch_token ≡ r.launch_token)

  abbrev Ends : Observation → Type 0
  Ends obs = (status : JobStatus) → status_for_observation obs ≡ some status → HasOwnMetadata

  unknown-Ends : (message : String) → Ends (unknown_observation message)
  unfolding status_for_observation observation_to_decision
  unknown-Ends message status h = absurd cc

  Ends-if : (b : Bool) (x y : Observation) → Ends x → Ends y → Ends (if b then x else y)
  Ends-if true x y ex ey = ex
  Ends-if false x y ex ey = ey

  running-Ends : Ends (running_since RunState.running r.started_at)
  unfolding status_for_observation observation_to_decision
  running-Ends status h = absurd cc

  starting-Ends : Ends (running_since RunState.starting r.started_at)
  unfolding status_for_observation observation_to_decision
  starting-Ends status h = absurd cc

  process-Ends : Ends (inspect_process mc r)
  unfolding inspect_process
  process-Ends =
      Ends-if (ltb_ℤ (pos 0) r.pid && mc.process_matches r.pid r.process_started_at) _ _
        running-Ends
        (Ends-if (not (is_zero r.started_at) && ltb (mc.now - r.started_at) 2000000000) _ _
          starting-Ends (unknown-Ends _))

  metadata-Ends :
      (m : Metadata)
      → load_metadata mc r.metadata_path ≡ loaded m
      → (str_eq r.job_id "") ≡ false
      → Ends (observation_from_metadata m r.job_id r.launch_token)
  unfolding observation_from_metadata
  metadata-Ends m e named = elim (Bool-cases (identity_matches m r.job_id r.launch_token)) [
    | inl own ↦ λ status h. (m, e, same_text (ground arith), same_text (ground arith))
    | inr other ↦ rw (other) (unknown-Ends "metadata launch identity mismatch")
  ]

  loaded-Ends :
      (l : Loaded)
      → load_metadata mc r.metadata_path ≡ l
      → str_eq r.job_id "" ≡ false
      → Ends (inspect_loaded mc r l)
  loaded-Ends (loaded m) e named = metadata-Ends m e named
  loaded-Ends not_there e named = process-Ends
  loaded-Ends (unreadable message) e named = unknown-Ends message

  named-Ends :
      (b : Bool)
      → (str_eq r.job_id "" || b) ≡ false
      → Ends (
          if str_eq r.metadata_path ""
          then inspect_process mc r
          else inspect_loaded mc r (load_metadata mc r.metadata_path))
  named-Ends b h =
      Ends-if (str_eq r.metadata_path "") _ _ process-Ends
        (loaded-Ends (load_metadata mc r.metadata_path) refl (ground arith))

  -- An inspection ends a job only on metadata that the run left behind with the job and the
  -- launch token of the record.
  pub inspect-own :
      (status : JobStatus) → status_for_observation (inspect mc r) ≡ some status → HasOwnMetadata
  unfolding inspect
  inspect-own =
      Ends-if (not (str_eq r.kind "") && not (str_eq r.kind "wrapper")) _ _ (unknown-Ends _)
        (elim (Bool-cases (str_eq r.job_id "" || str_eq r.launch_token "")) [
          | inl e ↦ rw e (unknown-Ends _)
          | inr e ↦ rw e (named-Ends _ e)
        ])
