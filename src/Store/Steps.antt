-- ===== src/Store/Steps.antt =====
-- The calls that change the store, as a step relation: any number of runners and commands make them
-- in any order, with any arguments and clock readings. A job is finalized with a status that is not
-- `running`, which is what every caller passes.
use issueq.Prelude.{ℤ, String, ◌≡◌, false, List, []}
use issueq.Model.{
  Time, is_running, IssueSnapshot, Handoff, GateBlock, JobCreate, JobEvent, RunnerIdentity,
  LaunchSpecRecord, LaunchRecord, JobFinalize,
}
use issueq.Store.{Db}
use issueq.Store.Claim.{ClaimFilter, claim_next_job}
use issueq.Store.Leases.{renew_job_lease, release_expired_leases}
use issueq.Store.Stale.{adopt_stale_running_job, mark_stale_running_job_unknown}
use issueq.Store.Launch.{
  persist_launch_spec_owned, mark_job_launching_owned, persist_launch_record_owned,
}
use issueq.Store.Attempts.{AttemptKey, increment_attempts_for_job, increment_transitions_for_job}
use issueq.Store.Finalize.{FinalizeClock, finalize_job_owned}
use issueq.Store.Heartbeats.{
  heartbeat_runner, delete_runner_heartbeat, prune_stale_runner_heartbeats,
}
use issueq.Store.Issues.{upsert_issue}
use issueq.Store.Handoffs.{upsert_handoff}
use issueq.Store.Gates.{record_gate_block, mark_gate_block_action_applied}
use issueq.Store.Queue.{enqueue_job, insert_job_event}
use issueq.Store.WellFormed.{IsWellFormed}
use issueq.Store.WellFormed.Owned.{
  renew_job_lease-IsWellFormed, persist_launch_spec_owned-IsWellFormed,
  mark_job_launching_owned-IsWellFormed, persist_launch_record_owned-IsWellFormed,
}
use issueq.Store.WellFormed.Counters.{
  increment_attempts_for_job-IsWellFormed, increment_transitions_for_job-IsWellFormed,
  finalize_job_owned-IsWellFormed,
}
use issueq.Store.WellFormed.Leases.{
  claim_next_job-IsWellFormed, release_expired_leases-IsWellFormed,
  adopt_stale_running_job-IsWellFormed, mark_stale_running_job_unknown-IsWellFormed,
}
use issueq.Store.WellFormed.Tables.{
  enqueue_job-IsWellFormed, heartbeat_runner-IsWellFormed, delete_runner_heartbeat-IsWellFormed,
  prune_stale_runner_heartbeats-IsWellFormed, upsert_issue-IsWellFormed,
  upsert_handoff-IsWellFormed, record_gate_block-IsWellFormed,
  mark_gate_block_action_applied-IsWellFormed, insert_job_event-IsWellFormed,
}

pub data StoreStep (db : Db) : Db → Type 0 where
  upserts_issue : (i : IssueSnapshot) (now : Time) → StoreStep db (upsert_issue i now db).1
  upserts_handoff : (h : Handoff) (now : Time) → StoreStep db (upsert_handoff h now db).1
  enqueues : (id : String) (c : JobCreate) (now : Time) → StoreStep db (enqueue_job id c now db).1
  claims :
      (identity : RunnerIdentity) (f : ClaimFilter) (max d : ℤ) (now : Time)
      → StoreStep db (claim_next_job identity f max d now db).1
  renews :
      (job_id instance : String) (d : ℤ) (now t : Time)
      → StoreStep db (renew_job_lease job_id instance d now t db).1
  releases :
      (now t : Time) (current : String) (active : List String)
      → StoreStep db (release_expired_leases now t current active db).1
  prepares :
      (job_id instance : String) (l : LaunchSpecRecord) (now t : Time)
      → StoreStep db (persist_launch_spec_owned job_id instance l now t db).1
  launches :
      (job_id instance token : String) (now t : Time)
      → StoreStep db (mark_job_launching_owned job_id instance token now t db).1
  records :
      (job_id instance : String) (l : LaunchRecord) (now t : Time)
      → StoreStep db (persist_launch_record_owned job_id instance l now t db).1
  adopts :
      (job_id old : String) (identity : RunnerIdentity) (d : ℤ) (now t : Time)
      → StoreStep db (adopt_stale_running_job job_id old identity d now t db).1
  loses :
      (job_id old : String) (now t : Time)
      → StoreStep db (mark_stale_running_job_unknown job_id old now t db).1
  counts_attempt :
      (job_id instance : String) (k : AttemptKey) (t₁ t₂ now : Time)
      → StoreStep db (increment_attempts_for_job job_id instance k t₁ t₂ now db).1
  counts_transition :
      (job_id instance issue_key : String) (t now : Time)
      → StoreStep db (increment_transitions_for_job job_id instance issue_key t now db).1
  finalizes :
      (job_id instance : String) (result : JobFinalize) (clock : FinalizeClock)
      → is_running result.status ≡ false
      → StoreStep db (finalize_job_owned job_id instance result clock db).1
  beats :
      (identity : RunnerIdentity) (pid : ℤ) (now : Time)
      → StoreStep db (heartbeat_runner identity pid now db).1
  leaves : (instance : String) → StoreStep db (delete_runner_heartbeat instance db).1
  prunes : (t : Time) → StoreStep db (prune_stale_runner_heartbeats t db).1
  blocks : (b : GateBlock) (now : Time) → StoreStep db (record_gate_block b now db).1
  applies : (b : GateBlock) (now : Time) → StoreStep db (mark_gate_block_action_applied b now db).1
  logs : (id : String) (e : JobEvent) (now : Time) → StoreStep db (insert_job_event id e now db).1

-- The calls that a runner makes for the job that it works on.
pub data JobStep (job_id instance : String) (db : Db) : Db → Type 0 where
  puts_issue :
      (i : IssueSnapshot) (now : Time) → JobStep job_id instance db (upsert_issue i now db).1
  logs_event :
      (id : String) (e : JobEvent) (now : Time)
      → JobStep job_id instance db (insert_job_event id e now db).1
  renews_own :
      (d : ℤ) (now t : Time)
      → JobStep job_id instance db (renew_job_lease job_id instance d now t db).1
  prepares_own :
      (l : LaunchSpecRecord) (now t : Time)
      → JobStep job_id instance db (persist_launch_spec_owned job_id instance l now t db).1
  launches_own :
      (token : String) (now t : Time)
      → JobStep job_id instance db (mark_job_launching_owned job_id instance token now t db).1
  records_own :
      (l : LaunchRecord) (now t : Time)
      → JobStep job_id instance db (persist_launch_record_owned job_id instance l now t db).1
  counts_own_attempt :
      (k : AttemptKey) (t₁ t₂ now : Time)
      → JobStep job_id instance db (increment_attempts_for_job job_id instance k t₁ t₂ now db).1
  counts_own_transition :
      (issue_key : String) (t now : Time)
      → JobStep job_id instance db
          (increment_transitions_for_job job_id instance issue_key t now db).1
  finalizes_own :
      (result : JobFinalize) (clock : FinalizeClock)
      → is_running result.status ≡ false
      → JobStep job_id instance db (finalize_job_owned job_id instance result clock db).1

pub JobStep-StoreStep :
    {job_id instance : String} {db db' : Db} → JobStep job_id instance db db' → StoreStep db db'
JobStep-StoreStep (puts_issue i now) = upserts_issue i now
JobStep-StoreStep (logs_event id e now) = logs id e now
JobStep-StoreStep (renews_own d now t) = renews _ _ d now t
JobStep-StoreStep (prepares_own l now t) = prepares _ _ l now t
JobStep-StoreStep (launches_own token now t) = launches _ _ token now t
JobStep-StoreStep (records_own l now t) = records _ _ l now t
JobStep-StoreStep (counts_own_attempt k t₁ t₂ now) = counts_attempt _ _ k t₁ t₂ now
JobStep-StoreStep (counts_own_transition key t now) = counts_transition _ _ key t now
JobStep-StoreStep (finalizes_own result clock h) = finalizes _ _ result clock h

-- A store after any number of calls.
pub data Reaches (start : Db) : Db → Type 0 where
  here : Reaches start start
  then : {mid end : Db} → Reaches start mid → StoreStep mid end → Reaches start end

-- The tables that the migrations create.
abbrev pub empty_db : Db
empty_db = record {
  issues = [];
  issue_state = [];
  jobs = [];
  route_attempts = [];
  runner_heartbeats = [];
  handoffs = [];
  gate_blocks = [];
  job_events = [];
}

pub StoreStep-IsWellFormed : {db db' : Db} → StoreStep db db' → IsWellFormed db → IsWellFormed db'
StoreStep-IsWellFormed (upserts_issue i now) w = upsert_issue-IsWellFormed i now _ w
StoreStep-IsWellFormed (upserts_handoff h now) w = upsert_handoff-IsWellFormed h now _ w
StoreStep-IsWellFormed (enqueues id c now) w = enqueue_job-IsWellFormed id c now _ w
StoreStep-IsWellFormed (claims identity f max d now) w =
    claim_next_job-IsWellFormed identity f max d now _ w
StoreStep-IsWellFormed (renews j i d now t) w = renew_job_lease-IsWellFormed j i d now t _ w
StoreStep-IsWellFormed (releases now t c a) w = release_expired_leases-IsWellFormed now t c a _ w
StoreStep-IsWellFormed (prepares j i l now t) w =
    persist_launch_spec_owned-IsWellFormed j i l now t _ w
StoreStep-IsWellFormed (launches j i k now t) w =
    mark_job_launching_owned-IsWellFormed j i k now t _ w
StoreStep-IsWellFormed (records j i l now t) w =
    persist_launch_record_owned-IsWellFormed j i l now t _ w
StoreStep-IsWellFormed (adopts j o i d now t) w =
    adopt_stale_running_job-IsWellFormed j o i d now t _ w
StoreStep-IsWellFormed (loses j o now t) w =
    mark_stale_running_job_unknown-IsWellFormed j o now t _ w
StoreStep-IsWellFormed (counts_attempt j i k t₁ t₂ now) w =
    increment_attempts_for_job-IsWellFormed j i k t₁ t₂ now _ w
StoreStep-IsWellFormed (counts_transition j i k t now) w =
    increment_transitions_for_job-IsWellFormed j i k t now _ w
StoreStep-IsWellFormed (finalizes j i r c e) w = finalize_job_owned-IsWellFormed j i r c _ e w
StoreStep-IsWellFormed (beats i pid now) w = heartbeat_runner-IsWellFormed i pid now _ w
StoreStep-IsWellFormed (leaves i) w = delete_runner_heartbeat-IsWellFormed i _ w
StoreStep-IsWellFormed (prunes t) w = prune_stale_runner_heartbeats-IsWellFormed t _ w
StoreStep-IsWellFormed (blocks b now) w = record_gate_block-IsWellFormed b now _ w
StoreStep-IsWellFormed (applies b now) w = mark_gate_block_action_applied-IsWellFormed b now _ w
StoreStep-IsWellFormed (logs id e now) w = insert_job_event-IsWellFormed id e now _ w

-- Whatever calls are made of a new store, in whatever order and with whatever results, if none
-- finalizes a job as `running`, then the keys of its issues, issue states, jobs, dedupe keys,
-- heartbeats and handoffs are unique, a running job has an owner, a lease and a launch state, any
-- other job has none of these, no supervisor and no launch token, and a job whose launch went past
-- its preparation has a launch token.
pub Reaches-IsWellFormed : (db : Db) → Reaches empty_db db → IsWellFormed db
Reaches-IsWellFormed db here = record {
  issue_keys = tt;
  state_keys = tt;
  job_keys = tt;
  dedupe_keys = tt;
  beat_keys = tt;
  handoff_keys = tt;
  consistent = tt;
}
Reaches-IsWellFormed db (then {mid = m} r s) = StoreStep-IsWellFormed s (Reaches-IsWellFormed m r)
