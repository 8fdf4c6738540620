-- ===== src/Effects/Queue.antt =====
-- internal/store/store.go: the calls of `QueueStore`, each with the clock readings that the method
-- takes. A lease that is renewed is put on the trace.
use issueq.Prelude.{Option, ℕ, ℤ, String, List}
use issueq.Model.{
  Time, IssueSnapshot, JobEvent, JobFinalize, Job, RunnerIdentity, LaunchSpecRecord, LaunchRecord,
}
use issueq.Store.{ok}
use issueq.Store.Claim.{claim_next_job_in_frontier}
use issueq.Store.Leases.{renew_job_lease, release_expired_leases}
use issueq.Store.Heartbeats.{heartbeat_runner, prune_stale_runner_heartbeats}
use issueq.Store.Launch.{
  persist_launch_spec_owned, mark_job_launching_owned, persist_launch_record_owned,
}
use issueq.Store.Attempts.{
  AttemptKey, increment_attempts_for_job, increment_transitions_for_job, get_issue_state,
}
use issueq.Store.Finalize.{finalize_job_owned}
use issueq.Store.Issues.{upsert_issue, get_issue}
use issueq.Store.Queue.{insert_job_event, list_owned_running_jobs}
use issueq.Effects.{Outside, Io, ◌>>=◌, ◌>>◌, ask, call, query, note, renewed}

module _ (o : Outside) where
  unfoldable pub renew_lease : String → String → ℤ → Io (Unit {0})
  renew_lease job_id instance lease = do
    now ← ask o.clock
    checked_at ← ask o.clock
    call o (renew_job_lease job_id instance lease now checked_at)
    note (renewed job_id)

  unfoldable pub store_issue : IssueSnapshot → Io (Unit {0})
  store_issue issue = do now ← ask o.clock; call o (upsert_issue issue now)

  unfoldable pub stored_issue : String → Io IssueSnapshot
  stored_issue issue_key = query o (get_issue issue_key)

  unfoldable pub issue_state : String → Io (ℕ × ℕ)
  issue_state issue_key = query o (get_issue_state issue_key)

  unfoldable pub count_attempt : String → String → AttemptKey → Io ℕ
  count_attempt job_id instance key = do
    checked_at ← ask o.clock
    counted_at ← ask o.clock
    now ← ask o.clock
    call o (increment_attempts_for_job job_id instance key checked_at counted_at now)

  unfoldable pub count_transition : String → String → String → Io ℕ
  count_transition job_id instance issue_key = do
    checked_at ← ask o.clock
    now ← ask o.clock
    call o (increment_transitions_for_job job_id instance issue_key checked_at now)

  unfoldable pub insert_event : JobEvent → Io JobEvent
  insert_event event = do
    new_id ← ask o.new_id
    now ← ask o.clock
    call o (insert_job_event new_id event now)

  unfoldable pub finalize_job : String → String → JobFinalize → Io (Unit {0})
  finalize_job job_id instance result = do
    finished_at ← ask o.clock
    checked_at ← ask o.clock
    reversed_at ← ask o.clock
    now ← ask o.clock
    call o (
        finalize_job_owned job_id instance result (record {
          finished_at = finished_at;
          checked_at = checked_at;
          reversed_at = reversed_at;
          now = now;
        }))

  unfoldable pub persist_spec : String → String → LaunchSpecRecord → Io (Unit {0})
  persist_spec job_id instance l = do
    now ← ask o.clock
    checked_at ← ask o.clock
    call o (persist_launch_spec_owned job_id instance l now checked_at)

  unfoldable pub mark_launching : String → String → String → Io (Unit {0})
  mark_launching job_id instance token = do
    now ← ask o.clock
    checked_at ← ask o.clock
    call o (mark_job_launching_owned job_id instance token now checked_at)

  unfoldable pub persist_record : String → String → LaunchRecord → Io (Unit {0})
  persist_record job_id instance l = do
    now ← ask o.clock
    checked_at ← ask o.clock
    call o (persist_launch_record_owned job_id instance l now checked_at)

  -- `ClaimNextJobInFrontier`
  unfoldable pub claim_in_frontier :
      RunnerIdentity → List String → ℤ → (String → ℤ) → ℤ → List String → Io (Option Job)
  claim_in_frontier identity kinds max_global limits lease frontier = do
    now ← ask o.clock
    call o (claim_next_job_in_frontier identity kinds max_global limits lease frontier now)

  unfoldable pub heartbeat : RunnerIdentity → ℤ → Io (Unit {0})
  heartbeat identity pid = do now ← ask o.clock; call o (heartbeat_runner identity pid now)

  unfoldable pub release_expired : Time → Time → String → List String → Io ℕ
  release_expired now before current active =
      call o (release_expired_leases now before current active)

  unfoldable pub prune_heartbeats : Time → Io ℕ
  prune_heartbeats before = call o (prune_stale_runner_heartbeats before)

  unfoldable pub owned_running_jobs : String → Io (List Job)
  owned_running_jobs instance = query o (λ db. ok (list_owned_running_jobs instance db))
