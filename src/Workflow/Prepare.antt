-- ===== src/Workflow/Prepare.antt =====
-- lifecycle.go: `PrepareClaimedWrapperLaunch`, `finalizePrepared`, `dropPrepared`. What the code
-- writes through the pointer to the job is part of the result; a result beside an error is left out.
use issueq.Prelude.{
  ℕ, ℤ, pos, String, Bool, true, false, not, Option, none, some, if◌then◌else◌, leb_ℤ, append,
}
use issueq.Model.{JobStatus, IssueSnapshot, Job, RunnerIdentity}
use issueq.Config.{Config, RouteConfig}
use issueq.Store.{ok}
use issueq.Errors.{ErrorKind, CallError, Answer, value, error}
use issueq.Effects.{Outside, Io, pure, raise, ◌>>=◌, ◌>>◌, request, query, handle, answered}
use issueq.Effects.Queue.{store_issue, stored_issue, issue_state, count_attempt}
use issueq.Router.Scope.{
  ScopeResult, scope_hash, blocked_scope, attempt_scope_for, is_legacy, attempt_scope_hash,
}
use issueq.Actions.Apply.{ApplyResult}
use issueq.Workflow.{is_ownership_loss, route_still_matches}
use issueq.Workflow.Owned.{
  log_event, finalize_claimed_job, renew, apply_owned, check_transition_limit,
}

pub data PrepareOutcome : Type 0 where
  launch done dropped : PrepareOutcome

pub record Prepared : Type 0 where
  pub issue : Option IssueSnapshot
  pub outcome : PrepareOutcome
  pub status : Option JobStatus
  pub finalized : Bool
  pub ownership_lost : Bool
  pub attempts : ℕ

-- Outcome `launch`, with the job's number of attempts.
abbrev pub ready : ℕ → Option IssueSnapshot → Prepared
ready attempts issue = record {
  issue = issue;
  outcome = launch;
  status = none;
  finalized = false;
  ownership_lost = false;
  attempts = attempts;
}

abbrev pub lost : ℕ → Prepared
lost attempts = record (ready attempts none) { outcome = dropped; ownership_lost = true }

abbrev pub ended : ℕ → JobStatus → Bool → Prepared
ended attempts status finalized = record (ready attempts none) {
  outcome = done;
  status = some status;
  finalized = finalized;
  ownership_lost = not finalized;
}

-- `router.AttemptScopeHash`: the store is asked unless the scope is the legacy one.
abbrev pub scope_answer : ScopeResult → Answer String
scope_answer (scope_hash hash) = value hash
scope_answer (blocked_scope reason) = error (record {
  kind = ErrorKind.scope_blocked;
  text = append "attempt scope blocked by handoff gate: " reason;
})

abbrev pub attempt_scope : Outside → RouteConfig → IssueSnapshot → Io String
attempt_scope o route issue =
    if is_legacy (attempt_scope_for route.job.attempt_scope)
    then pure "legacy"
    else (query o (λ db. ok (attempt_scope_hash o.encodings route issue db)) >>= λ r.
        answered (scope_answer r))

abbrev pub is_scope_blocked : ErrorKind → Bool
is_scope_blocked ErrorKind.scope_blocked = true
is_scope_blocked _ = false

module _ (o : Outside) (cfg : Config) (identity : RunnerIdentity) (lease : ℤ) (route : RouteConfig)
    (job : Job) where
  unfoldable pub finalize_prepared : ℕ → JobStatus → String → Io Prepared
  unfolding finalize_claimed_job
  finalize_prepared attempts status message = do
    finalized ← finalize_claimed_job o identity job status message
    pure (ended attempts status finalized)

  unfoldable pub drop_prepared : ℕ → CallError → Io Prepared
  drop_prepared attempts x = if is_ownership_loss x then pure (lost attempts) else raise x

  abbrev pub fail_prepared : ℕ → String → CallError → Io Prepared
  fail_prepared attempts prefix x =
      finalize_prepared attempts JobStatus.failed (append prefix (append ": " x.text))

  abbrev pub drop_or_fail : ℕ → String → CallError → Io Prepared
  drop_or_fail attempts prefix x =
      if is_ownership_loss x then pure (lost attempts) else fail_prepared attempts prefix x

  abbrev pub renewed_or_dropped : ℕ → Io Prepared → Io Prepared
  renewed_or_dropped attempts m =
      handle (renew o identity job lease) (λ _. m) (drop_prepared attempts)

  -- The end of the function, and the code before it back to its beginning.
  abbrev pub ready_to_launch : ℕ → IssueSnapshot → Io Prepared
  ready_to_launch attempts issue = do
    log_event o identity job job.issue_key "action_on_start" ""
    pure (ready attempts (some issue))

  abbrev pub end_dead_or_launch : ℕ → IssueSnapshot → Bool → Io Prepared
  end_dead_or_launch attempts issue dead =
      if dead
      then finalize_prepared attempts JobStatus.dead "max transitions exceeded"
      else ready_to_launch attempts issue

  abbrev pub limit_transitions : ℕ → ApplyResult → Io Prepared
  limit_transitions attempts applied =
      if applied.changed
      then handle (check_transition_limit o identity job lease cfg true applied.updated_issue)
          (end_dead_or_launch attempts applied.updated_issue)
          (drop_or_fail attempts "check transition limit")
      else ready_to_launch attempts applied.updated_issue

  abbrev pub start_attempt : ℕ → IssueSnapshot → Io Prepared
  start_attempt attempts issue = renewed_or_dropped attempts (
      handle (apply_owned o identity job lease issue route.job.on_start)
        (limit_transitions attempts) (drop_or_fail attempts "apply on_start actions"))

  abbrev pub exceed_attempts : ℕ → IssueSnapshot → Io Prepared
  exceed_attempts attempts issue = renewed_or_dropped attempts (
      handle (apply_owned o identity job lease issue route.job.on_attempts_exceeded)
        (λ _. finalize_prepared attempts JobStatus.dead "max attempts exceeded")
        (drop_or_fail attempts "apply attempts-exceeded actions"))

  abbrev pub limit_attempts : IssueSnapshot → ℕ → Io Prepared
  limit_attempts issue attempts =
      if leb_ℤ (pos attempts) route.job.max_attempts
      then start_attempt attempts issue
      else exceed_attempts attempts issue

  abbrev pub count_prepared : IssueSnapshot → ℕ → String → Io Prepared
  count_prepared issue generation hash =
      handle
        (count_attempt o job.id identity.instance_id (record {
          issue_key = issue.issue_key;
          generation = generation;
          route_name = route.name;
          scope_hash = hash;
        }))
        (limit_attempts issue) (drop_or_fail job.attempts "increment attempts")

  abbrev pub blocked_or_failed : CallError → Io Prepared
  blocked_or_failed x =
      if is_scope_blocked x.kind
      then finalize_prepared job.attempts JobStatus.skipped x.text
      else fail_prepared job.attempts "derive attempt scope" x

  abbrev pub scope_prepared : IssueSnapshot → ℕ → Io Prepared
  scope_prepared issue generation =
      handle (attempt_scope o route issue) (count_prepared issue generation) blocked_or_failed

  abbrev pub check_route : IssueSnapshot → Io Prepared
  check_route latest =
      if route_still_matches cfg route latest
      then handle (issue_state o latest.issue_key)
          (λ (generation, _). scope_prepared latest generation)
          (fail_prepared job.attempts "load issue state")
      else finalize_prepared job.attempts JobStatus.skipped "stale route predicate"

  abbrev pub store_latest : IssueSnapshot → Io Prepared
  store_latest latest = renewed_or_dropped job.attempts (
      handle (store_issue o latest) (λ _. check_route latest)
        (fail_prepared job.attempts "store refreshed issue"))

  abbrev pub refresh_prepared : Bool → IssueSnapshot → Io Prepared
  refresh_prepared false issue = pure (ready job.attempts (some issue))
  refresh_prepared true issue = renewed_or_dropped job.attempts (
      handle (request (λ n. o.get_issue n issue.number)) store_latest
        (fail_prepared job.attempts "refresh issue"))

  unfoldable pub prepare_claimed_wrapper_launch : Bool → Io Prepared
  unfolding finalize_prepared drop_prepared route_still_matches apply_owned check_transition_limit
      attempt_scope_hash attempt_scope_for
  prepare_claimed_wrapper_launch has_github =
      handle (stored_issue o job.issue_key) (refresh_prepared has_github)
        (fail_prepared job.attempts "load issue")
