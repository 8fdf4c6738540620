-- ===== src/Store/Consistent.antt =====
-- What holds of every row of `jobs` between two calls of the store, and that each SET list of
-- sqlite.go keeps it.
use issueq.Prelude.{ℕ, String, ◌≡◌, Bool, true, false, not, Option, none, some, arith}
use issueq.Sql.{is_empty, col_eq}
use issueq.Model.{
  Time, LaunchState, is_running, RunnerIdentity, LaunchSpecRecord, LaunchRecord, JobFinalize,
  JobCreate,
}
use issueq.Store.{JobRow}
use issueq.Store.Claim.{claimed_row}
use issueq.Store.Leases.{renewed_row, released_row}
use issueq.Store.Stale.{adopted_row, unknown_row, is_durable}
use issueq.Store.Launch.{
  launch_spec_row, launching_row, launch_record_row, validate_launch_spec_record,
  validate_launch_record,
}
use issueq.Store.Attempts.{counted_row, uncounted_row}
use issueq.Store.Finalize.{finalized_row}
use issueq.Store.Queue.{new_job_row}

abbrev pub is_some {ℓ} : {A : Type ℓ} → Option A → Bool
is_some none = false
is_some (some a) = true

-- The launch state is `launching`, `running` or `unknown`.
abbrev pub past_preparing : Option LaunchState → Bool
past_preparing none = false
past_preparing (some LaunchState.preparing) = false
past_preparing _ = true

pub record IsConsistent (r : JobRow) : Type 0 where
  pub owned :
      is_running r.status ≡ true
      → (is_some r.locked_by ≡ true)
        × (is_some r.runner_instance_id ≡ true)
        × (is_some r.lease_until ≡ true)
        × (is_some r.launch_state ≡ true)
  pub free :
      is_running r.status ≡ false
      → (r.locked_by ≡ none)
        × (r.runner_instance_id ≡ none)
        × (r.lease_until ≡ none)
        × (r.launch_state ≡ none)
        × (r.supervisor_kind ≡ none)
        × (r.launch_token ≡ none)
  pub paired : is_empty r.supervisor_kind ≡ is_empty r.launch_token
  pub named : is_some r.launch_token ≡ not (is_empty r.launch_token)
  pub launched : past_preparing r.launch_state ≡ true → is_empty r.launch_token ≡ false

pub new_job_row-IsConsistent :
    (id : String) (c : JobCreate) (now : Time) → IsConsistent (new_job_row id c now)
unfolding new_job_row
new_job_row-IsConsistent id c now = ground arith

pub claimed_row-IsConsistent :
    (identity : RunnerIdentity) (now lease : Time) (r : JobRow)
    → IsConsistent r
    → IsConsistent (claimed_row identity now lease r)
unfolding claimed_row
claimed_row-IsConsistent identity now lease r h = ground arith

pub renewed_row-IsConsistent :
    (lease now : Time) (r : JobRow)
    → is_running r.status ≡ true
    → IsConsistent r
    → IsConsistent (renewed_row lease now r)
renewed_row-IsConsistent lease now r e h = ground arith

pub released_row-IsConsistent :
    (now : Time) (r : JobRow) → IsConsistent r → IsConsistent (released_row now r)
unfolding released_row
released_row-IsConsistent now r h = ground arith

pub adopted_row-IsConsistent :
    (identity : RunnerIdentity) (lease now : Time) (r : JobRow)
    → is_running r.status ≡ true
    → IsConsistent r
    → IsConsistent (adopted_row identity lease now r)
adopted_row-IsConsistent identity lease now r e h = ground arith

pub unknown_row-IsConsistent :
    (now : Time) (r : JobRow)
    → is_running r.status ≡ true
    → is_durable r ≡ true
    → IsConsistent r
    → IsConsistent (unknown_row now r)
unfolding is_durable
unknown_row-IsConsistent now r e d h = ground arith

pub counted_row-IsConsistent :
    (n g : ℕ) (s : String) (now : Time) (r : JobRow)
    → IsConsistent r
    → IsConsistent (counted_row n g s now r)
counted_row-IsConsistent n g s now r h = ground arith

pub uncounted_row-IsConsistent :
    (now : Time) (r : JobRow) → IsConsistent r → IsConsistent (uncounted_row now r)
uncounted_row-IsConsistent now r h = ground arith

pub launch_spec_row-IsConsistent :
    (l : LaunchSpecRecord) (now : Time) (r : JobRow)
    → validate_launch_spec_record l ≡ none
    → is_running r.status ≡ true
    → IsConsistent r
    → IsConsistent (launch_spec_row l now r)
unfolding launch_spec_row validate_launch_spec_record
launch_spec_row-IsConsistent l now r v e h = ground arith

pub launching_row-IsConsistent :
    (now : Time) (r : JobRow) (token : String)
    → is_running r.status ≡ true
    → col_eq r.launch_token token ≡ true
    → IsConsistent r
    → IsConsistent (launching_row now r)
launching_row-IsConsistent now r token e t h = ground arith

pub launch_record_row-IsConsistent :
    (l : LaunchRecord) (now : Time) (r : JobRow)
    → validate_launch_record l ≡ none
    → is_running r.status ≡ true
    → IsConsistent r
    → IsConsistent (launch_record_row l now r)
unfolding launch_record_row validate_launch_record
launch_record_row-IsConsistent l now r v e h = ground arith

pub finalized_row-IsConsistent :
    (result : JobFinalize) (finished : Time) (r : JobRow)
    → is_running result.status ≡ false
    → IsConsistent r
    → IsConsistent (finalized_row result finished r)
unfolding finalized_row
finalized_row-IsConsistent result finished r e h = ground arith
