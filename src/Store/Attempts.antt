-- ===== src/Store/Attempts.antt =====
-- sqlite.go: `IncrementAttemptsForJob`, `incrementAttemptsTx`, `reverseAttemptTx`,
-- `IncrementTransitionsForJob`, `GetIssueState`. Counters are not bounded.
use issueq.Prelude.{
  ℕ, ◌+◌, ◌-◌, String, Bool, Option, none, some, List, [], ◌∷◌, ◌++◌, ◌&&◌, ◌||◌, if◌then◌else◌,
  ltb, ◌==◌, str_eq, is_blank, get_or,
}
use issueq.Sql.{update_where, count_where, first_where}
use issueq.Model.{Time}
use issueq.Store.{
  IssueStateRow, JobRow, RouteAttemptRow, Db, not_owner, no_rows, Result, ok, err, Op,
}
use issueq.Store.Tx.{Tx, pure, ◌>>=◌, ◌>>◌, exec, query_row, transaction}
use issueq.Store.Owned.{has_id, find_job, is_owned, update_jobs, assert_job_owned_tx}

-- The primary key of `route_attempts`.
pub record AttemptKey : Type 0 where
  pub issue_key : String
  pub generation : ℕ
  pub route_name : String
  pub scope_hash : String

unfoldable pub has_attempt_key : AttemptKey → RouteAttemptRow → Bool
has_attempt_key k r =
    str_eq r.issue_key k.issue_key
    && r.generation == k.generation
    && str_eq r.route_name k.route_name
    && str_eq r.scope_hash k.scope_hash

-- `INSERT … ON CONFLICT DO NOTHING`
unfoldable pub ensure_attempt_row : AttemptKey → Time → List RouteAttemptRow → List RouteAttemptRow
unfolding has_attempt_key first_where
ensure_attempt_row k now rows = elim (first_where (has_attempt_key k) rows) [
  | some r ↦ rows
  | none ↦
      rows
      ++ record {
        issue_key = k.issue_key;
        generation = k.generation;
        route_name = k.route_name;
        scope_hash = k.scope_hash;
        attempts = 0;
        updated_at = now;
      }
        ∷ []
]

abbrev pub bump_attempts : Time → RouteAttemptRow → RouteAttemptRow
bump_attempts now r = record r { attempts = r.attempts + 1; updated_at = now }

-- `SELECT attempts FROM route_attempts WHERE …`
unfoldable pub attempts_of : AttemptKey → Db → Option ℕ
unfolding has_attempt_key first_where
attempts_of k db = elim (first_where (has_attempt_key k) db.route_attempts) [
  | none ↦ none
  | some r ↦ some r.attempts
]

abbrev pub or_legacy : String → String
or_legacy scope_hash = if is_blank scope_hash then "legacy" else scope_hash

abbrev pub ensure_attempt : AttemptKey → Time → Db → Db
ensure_attempt k now db = record db { route_attempts = ensure_attempt_row k now db.route_attempts }

abbrev pub bump_attempt : AttemptKey → Time → Db → Db
bump_attempt k now db = record db {
  route_attempts = update_where (has_attempt_key k) (bump_attempts now) db.route_attempts;
}

abbrev pub scoped : AttemptKey → AttemptKey
scoped k = record k { scope_hash = or_legacy k.scope_hash }

unfoldable pub increment_attempts_tx : AttemptKey → Time → Tx ℕ
unfolding ensure_attempt_row update_where attempts_of
increment_attempts_tx key now = do
  exec (ensure_attempt (scoped key) now)
  exec (bump_attempt (scoped key) now)
  query_row (attempts_of (scoped key))

abbrev pub counted_row : ℕ → ℕ → String → Time → JobRow → JobRow
counted_row attempts generation scope_hash now r = record r {
  attempts = attempts;
  attempt_generation = generation;
  attempt_scope_hash = some scope_hash;
  updated_at = now;
}

-- `UPDATE jobs …`, and `ErrNotOwner` where it affects no row.
abbrev pub update_owned_tx : (JobRow → Bool) → (JobRow → JobRow) → Tx (Unit {0})
update_owned_tx p f db =
    if count_where p db.jobs == 0 then err not_owner else ok (tt, update_jobs p f db)

unfoldable pub increment_attempts_for_job : String → String → AttemptKey → Time → Time → Time → Op ℕ
unfolding assert_job_owned_tx increment_attempts_tx update_where count_where
increment_attempts_for_job job_id instance key checked_at counted_at now =
    let k = scoped key in
    transaction do
      assert_job_owned_tx job_id instance checked_at
      attempts ← increment_attempts_tx k counted_at
      update_owned_tx (is_owned job_id instance now)
          (counted_row attempts k.generation k.scope_hash now)
      pure attempts

-- The provenance of a job's last attempt, if it has one.
abbrev pub provenance : JobRow → Option AttemptKey
provenance r =
    if r.attempts == 0 || is_blank (get_or r.attempt_scope_hash "")
    then none
    else some (record {
      issue_key = r.issue_key;
      generation = r.attempt_generation;
      route_name = r.route_name;
      scope_hash = get_or r.attempt_scope_hash "";
    })

abbrev pub drop_attempt : Time → RouteAttemptRow → RouteAttemptRow
drop_attempt now r = record r { attempts = r.attempts - 1; updated_at = now }

abbrev pub has_counted_key : AttemptKey → RouteAttemptRow → Bool
has_counted_key k r = has_attempt_key k r && ltb 0 r.attempts

-- `WHERE id = ? AND attempts > 0`
abbrev pub has_attempts : String → JobRow → Bool
has_attempts job_id r = has_id job_id r && ltb 0 r.attempts

abbrev pub uncounted_row : Time → JobRow → JobRow
uncounted_row now r = record r { attempts = r.attempts - 1; updated_at = now }

abbrev pub reversed : String → AttemptKey → Time → Db → Db
reversed job_id k now db = record db {
  route_attempts = update_where (has_counted_key k) (drop_attempt now) db.route_attempts;
  jobs = update_where (has_attempts job_id) (uncounted_row now) db.jobs;
}

unfoldable pub reverse_key_tx : String → AttemptKey → Time → Tx (Unit {0})
unfolding has_attempt_key update_where count_where
reverse_key_tx job_id k now db =
    if count_where (has_counted_key k) db.route_attempts == 0
    then ok (tt, db)
    else ok (tt, reversed job_id k now db)

unfoldable pub reverse_attempt_tx : String → Time → Tx (Unit {0})
unfolding first_where reverse_key_tx
reverse_attempt_tx job_id now = do
  r ← query_row (find_job job_id)
  elim (provenance r) [ none ↦ pure tt | some k ↦ reverse_key_tx job_id k now ]

abbrev pub has_issue_key : String → IssueStateRow → Bool
has_issue_key issue_key r = str_eq r.issue_key issue_key

unfoldable pub transitions_of : String → Db → Option ℕ
unfolding first_where
transitions_of issue_key db = elim (first_where (has_issue_key issue_key) db.issue_state) [
  | none ↦ none
  | some r ↦ some r.transition_count
]

abbrev pub bump_transitions : Time → IssueStateRow → IssueStateRow
bump_transitions now r = record r { transition_count = r.transition_count + 1; updated_at = now }

abbrev pub bump_transition : String → Time → Db → Db
bump_transition issue_key now db = record db {
  issue_state = update_where (has_issue_key issue_key) (bump_transitions now) db.issue_state;
}

unfoldable pub increment_transitions_for_job : String → String → String → Time → Time → Op ℕ
unfolding assert_job_owned_tx update_where transitions_of
increment_transitions_for_job job_id instance issue_key checked_at now = transaction do
  assert_job_owned_tx job_id instance checked_at
  exec (bump_transition issue_key now)
  query_row (transitions_of issue_key)

unfoldable pub get_issue_state : String → Db → Result (ℕ × ℕ)
unfolding first_where
get_issue_state issue_key db = elim (first_where (has_issue_key issue_key) db.issue_state) [
  | none ↦ err no_rows
  | some r ↦ ok (r.generation, r.transition_count)
]
