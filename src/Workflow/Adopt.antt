-- ===== src/Workflow/Adopt.antt =====
-- internal/workflow/adopt.go. The queue is the interface `StaleDurableStore` over any state.
use issueq.Prelude.{
  ℕ, ◌+◌, ℤ, String, Bool, true, false, Option, none, some, List, [], ◌∷◌, if◌then◌else◌,
  sub_duration, length,
}
use issueq.Model.{Time, Job, RunnerIdentity}
use issueq.Supervisor.{LaunchRecord, Observation, Inspection, seen, inspect_failed, Inspector}
use issueq.Errors.{CallError, plain_error, Answer, value, error}
use issueq.Workflow.{ObservationDecision, observation_to_decision, is_ownership_loss}
use issueq.Workflow.Observe.{Printing, durable, not_durable, durable_launch_record}

pub record StaleDurableStore (S : Type 0) : Type 0 where
  pub list_stale : Time → Time → S → Answer (List Job)
  pub adopt : String → String → RunnerIdentity → ℤ → Time → Time → S → Answer Job × S
  pub mark_unknown : String → String → Time → Time → S → Option CallError × S

pub record StaleDurableRecovery : Type 0 where
  pub job : Job
  pub observation : Option Observation
  pub adopted : Bool
  pub marked_unknown : Bool
  pub ownership_lost : Bool

pub record StaleDurableRecoverySummary : Type 0 where
  pub scanned : ℕ
  pub adopted : ℕ
  pub marked_unknown : ℕ
  pub ownership_lost : ℕ

abbrev pub Recovered : Type 0
Recovered = StaleDurableRecovery × Option CallError

abbrev pub found_stale : Job → Option Observation → StaleDurableRecovery
found_stale job obs = record {
  job = job;
  observation = obs;
  adopted = false;
  marked_unknown = false;
  ownership_lost = false;
}

-- `markStaleUnknown`: whether the job was marked, and the error that remains.
unfoldable pub marked : Option CallError → Bool × Option CallError
marked none = (true, none)
marked (some x) = if is_ownership_loss x then (false, none) else (false, some x)

-- `item.OwnershipLost = !marked && err == nil`
abbrev pub mark_result : StaleDurableRecovery → Bool × Option CallError → Recovered
mark_result item (true, x) = (record item { marked_unknown = true }, x)
mark_result item (false, none) = (record item { ownership_lost = true }, none)
mark_result item (false, some x) = (item, some x)

-- What the second inspection makes of an adopted job.
abbrev pub adopt_result : StaleDurableRecovery → Job → Inspection → Recovered
adopt_result item job (inspect_failed message) = (item, some (plain_error message))
adopt_result item job (seen obs) =
    (record item { job = job; observation = some obs; adopted = true }, none)

abbrev pub lost_result : StaleDurableRecovery → CallError → Recovered
lost_result item x =
    if is_ownership_loss x then (record item { ownership_lost = true }, none) else (item, some x)

abbrev pub is_unknown : ObservationDecision → Bool
is_unknown ObservationDecision.unknown = true
is_unknown _ = false

-- The switch that counts an item.
unfoldable pub count_recovery :
    StaleDurableRecovery → StaleDurableRecoverySummary → StaleDurableRecoverySummary
count_recovery item s =
    if item.adopted
    then record s { adopted = s.adopted + 1 }
    else if item.marked_unknown
    then record s { marked_unknown = s.marked_unknown + 1 }
    else if item.ownership_lost
    then record s { ownership_lost = s.ownership_lost + 1 }
    else s

abbrev pub scanned_jobs : ℕ → StaleDurableRecoverySummary
scanned_jobs n = record { scanned = n; adopted = 0; marked_unknown = 0; ownership_lost = 0 }

-- An adopted item is kept.
abbrev pub keep_adopted :
    StaleDurableRecovery → List StaleDurableRecovery → List StaleDurableRecovery
keep_adopted item items = if item.adopted then item ∷ items else items

pub record RecoveryPass : Type 0 where
  pub recovered : List StaleDurableRecovery
  pub summary : StaleDurableRecoverySummary
  pub error : Option CallError

-- The items recovered after this one stand behind it.
abbrev pub with_item : StaleDurableRecovery → RecoveryPass → RecoveryPass
with_item item pass = record pass { recovered = keep_adopted item pass.recovered }

module _ {S : Type 0} (p : Printing) (inspect : Inspector) (queue : StaleDurableStore S) where
  abbrev pub mark_stale : StaleDurableRecovery → Job → Time → Time → S → Recovered × S
  mark_stale item job now stale_before s =
      let (x, s') = queue.mark_unknown job.id job.runner_instance_id now stale_before s in
      (mark_result item (marked x), s')

  abbrev pub adopt_answer : StaleDurableRecovery → LaunchRecord → ℕ → Answer Job × S → Recovered × S
  adopt_answer item launch n (error x, s) = (lost_result item x, s)
  adopt_answer item launch n (value job, s) =
      (adopt_result item job (inspect (n + n + 1) launch), s)

  -- The inspections of the turn `n` are the calls 2n and 2n + 1 of the supervisor.
  unfoldable pub recover_one_stale_durable :
      RunnerIdentity → ℤ → Time → Time → Job → ℕ → S → Recovered × S
  unfolding durable_launch_record marked observation_to_decision
  recover_one_stale_durable identity lease now stale_before job n s =
      elim (durable_launch_record p job) [
        | not_durable reason ↦ mark_stale (found_stale job none) job now stale_before s
        | durable launch ↦ elim (inspect (n + n) launch) [
          | inspect_failed message ↦ ((found_stale job none, some (plain_error message)), s)
          | seen obs ↦
              if is_unknown (observation_to_decision obs)
              then mark_stale (found_stale job (some obs)) job now stale_before s
              else adopt_answer (found_stale job (some obs)) launch n
                  (queue.adopt job.id job.runner_instance_id identity lease now stale_before s)
        ]
      ]

  unfoldable pub recover_jobs :
      RunnerIdentity
      → ℤ
      → Time
      → Time
      → List Job
      → ℕ
      → StaleDurableRecoverySummary
      → S
      → RecoveryPass × S
  unfolding recover_one_stale_durable count_recovery
  recover_jobs identity lease now stale_before [] n summary s =
      (record { recovered = []; summary = summary; error = none }, s)
  recover_jobs identity lease now stale_before (job ∷ jobs) n summary s =
      let ((item, x), s') = recover_one_stale_durable identity lease now stale_before job n s in
      let (pass, s'') =
        recover_jobs identity lease now stale_before jobs (n + 1) (count_recovery item summary)
          s' in
      elim x [
        | none ↦ (with_item item pass, s'')
        | some e ↦ (record { recovered = []; summary = summary; error = some e }, s')
      ]

  -- A heartbeat is stale if it is older than one lease.
  unfoldable pub recover_stale_durable_running_jobs :
      RunnerIdentity → ℤ → Time → S → RecoveryPass × S
  unfolding recover_jobs
  recover_stale_durable_running_jobs identity lease now s =
      let stale_before = sub_duration now lease in
      elim (queue.list_stale now stale_before s) [
        | error x ↦ (record { recovered = []; summary = scanned_jobs 0; error = some x }, s)
        | value jobs ↦
            recover_jobs identity lease now stale_before jobs 0 (scanned_jobs (length jobs)) s
      ]
