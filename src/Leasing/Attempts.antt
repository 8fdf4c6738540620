-- ===== src/Leasing/Attempts.antt =====
-- What counting an attempt does.
use issueq.Prelude.{
  ℕ, ◌+◌, String, ◌≡◌, refl, ap, ◌∙◌, Bool, true, false, not, Option, none, some, ◌&&◌, arith,
  if◌then◌else◌, ◌==◌, str_eq, eq_refl, is_blank, get_or, Bool-cases, Option-cases, inl, inr,
}
use issueq.Sql.{update_where, count_where, first_where, before_time}
use issueq.Sql.Laws.{first_where-append, first_where-update, first_where-meets}
use issueq.Model.{Time, is_running}
use issueq.Store.{JobRow, RouteAttemptRow, Db, not_owner, lost_lease, ok}
use issueq.Store.Tx.{Tx, pure, abort, query_row, ◌>>=◌, ◌>>◌, transaction}
use issueq.Store.Owned.{find_job, is_owned, update_jobs, assert_row_owned, assert_job_owned_tx}
use issueq.Store.Attempts.{
  AttemptKey, has_attempt_key, ensure_attempt_row, bump_attempts, attempts_of, or_legacy, scoped,
  ensure_attempt, bump_attempt, increment_attempts_tx, counted_row, update_owned_tx,
  increment_attempts_for_job,
}
use issueq.Leasing.Fencing.{refusal}

-- How often the key was counted so far.
abbrev pub counted_so_far : AttemptKey → Db → ℕ
counted_so_far k db = get_or (attempts_of k db) 0

module _ (k : AttemptKey) (now : Time) (db : Db) where
  abbrev key_row : RouteAttemptRow
  key_row = record {
    issue_key = k.issue_key;
    generation = k.generation;
    route_name = k.route_name;
    scope_hash = k.scope_hash;
    attempts = 0;
    updated_at = now;
  }

  key_row-has_key : has_attempt_key k key_row ≡ true
  unfolding has_attempt_key
  key_row-has_key = ground (arith, eq_refl k.issue_key, eq_refl k.route_name, eq_refl k.scope_hash)

  ensured :
      (r : RouteAttemptRow) × (first_where
          (has_attempt_key k)
          (ensure_attempt k now db).route_attempts
        ≡ some r)
      × (r.attempts ≡ counted_so_far k db)
  unfolding ensure_attempt_row attempts_of
  ensured = elim (Option-cases (first_where (has_attempt_key k) db.route_attempts)) [
    | inl e ↦ (
      key_row,
      rw (e, ensure_attempt_row)
          (first_where-append (has_attempt_key k) db.route_attempts key_row
            ∙ rw (e, key_row-has_key)),
      rw (e, attempts_of),
    )
    | inr (r, e) ↦ (r, rw (e, ensure_attempt_row) e, rw (e, attempts_of))
  ]

  bumped :
      attempts_of k (bump_attempt k now (ensure_attempt k now db)) ≡ some (counted_so_far k db + 1)
  unfolding attempts_of has_attempt_key
  bumped =
      let (r, found, same) = ensured in
      let at : has_attempt_key k r ≡ true = first_where-meets (has_attempt_key k) _ found in
      let bumped_row : first_where (has_attempt_key k) (
            update_where (has_attempt_key k) (bump_attempts now)
              (ensure_attempt k now db).route_attempts)
          ≡ some (bump_attempts now r) =
        first_where-update (has_attempt_key k) (has_attempt_key k) (bump_attempts now) (λ s _. refl)
          (ensure_attempt k now db).route_attempts
        ∙ rw found (rw at) in
      rw (bumped_row, attempts_of) (ap (λ n. some (n + 1)) same)

granted :
    (a b : Bool) (db : Db)
    → (if not a then some not_owner else if b then some lost_lease else none) ≡ none
    → (if not a then abort not_owner else if b then abort lost_lease else pure tt) db ≡ ok (tt, db)
granted false b db h = absurd cc
granted true true db h = absurd cc
granted true false db h = refl

granted_none : some not_owner ≡ none → ⊥
granted_none h = cc

legacy_named : is_blank "legacy" ≡ false
unfolding is_blank
legacy_named = refl

scope_twice : (s : String) → or_legacy (or_legacy s) ≡ or_legacy s
scope_twice s = elim (Bool-cases (is_blank s)) [
  | inl e ↦ rw e (rw legacy_named)
  | inr e ↦ rw e (rw e)
]

scoped_twice : (key : AttemptKey) → scoped (scoped key) ≡ scoped key
scoped_twice key = ap (λ s. record key { scope_hash = s }) (scope_twice key.scope_hash)

same_attempts :
    (k : AttemptKey) (p : JobRow → Bool) (f : JobRow → JobRow) (db : Db)
    → attempts_of k (update_jobs p f db) ≡ attempts_of k db
unfolding attempts_of
same_attempts k p f db = refl

query_row_lem :
    {A : Type 0} (f : Db → Option A) (db : Db) {a : A} → f db ≡ some a → query_row f db ≡ ok (a, db)
query_row_lem f db h = rw (h, query_row)

bind_ok :
    {A B : Type 0} (m : Tx A) (f : A → Tx B) (db : Db) {db' : Db} {a : A}
    → m db ≡ ok (a, db')
    → (m >>= f) db ≡ f a db'
bind_ok m f db h = rw (h, ◌>>=◌)

commits :
    {A : Type 0} (m : Tx A) (db : Db) {db' : Db} {a : A}
    → m db ≡ ok (a, db')
    → transaction m db ≡ (ok a, db')
commits m db h = rw (h, transaction)

increment_attempts_tx_lem :
    (key : AttemptKey) (now : Time) (db : Db)
    → increment_attempts_tx key now db
      ≡ ok (
        counted_so_far (scoped key) db + 1,
        bump_attempt (scoped key) now (ensure_attempt (scoped key) now db),
      )
unfolding increment_attempts_tx
increment_attempts_tx_lem key now db =
    query_row_lem (attempts_of (scoped key)) _ (bumped (scoped key) now db)

assert_row_owned_lem :
    (instance : String) (at : Time) (r : JobRow) (db : Db)
    → refusal instance at (some r) ≡ none
    → assert_row_owned instance at r db ≡ ok (tt, db)
unfolding assert_row_owned
assert_row_owned_lem instance at r db h =
    granted (is_running r.status && str_eq (get_or r.runner_instance_id "") instance)
      (before_time r.lease_until at) db h

assert_job_owned_tx_lem :
    (job_id instance : String) (at : Time) (db : Db)
    → refusal instance at (find_job job_id db) ≡ none
    → assert_job_owned_tx job_id instance at db ≡ ok (tt, db)
unfolding assert_job_owned_tx
assert_job_owned_tx_lem job_id instance at db h = elim (Option-cases (find_job job_id db)) [
  | inl e ↦ absurd (granted_none (rw e at h))
  | inr (r, e) ↦ rw (e, assert_job_owned_tx) (assert_row_owned_lem instance at r db (rw e at h))
]

module _ (job_id instance : String) (key : AttemptKey) (checked_at counted_at now : Time)
    (db : Db) where
  abbrev attempts : ℕ
  attempts = counted_so_far (scoped key) db + 1

  abbrev counted : Db
  counted = bump_attempt (scoped key) counted_at (ensure_attempt (scoped key) counted_at db)

  abbrev record_attempt : JobRow → JobRow
  record_attempt = counted_row attempts key.generation (scoped key).scope_hash now

  abbrev recorded : Db
  recorded = update_jobs (is_owned job_id instance now) record_attempt counted

  abbrev record_tx : ℕ → Tx ℕ
  record_tx n =
      update_owned_tx (is_owned job_id instance now)
        (counted_row n key.generation (scoped key).scope_hash now)
      >> pure n

  abbrev count_tx : Tx ℕ
  count_tx = increment_attempts_tx (scoped key) counted_at >>= record_tx

  incremented : increment_attempts_tx (scoped key) counted_at db ≡ ok (attempts, counted)
  incremented =
      increment_attempts_tx_lem (scoped key) counted_at db
      ∙ ap
          (λ k.
            ok
              (counted_so_far k db + 1, bump_attempt k counted_at (ensure_attempt k counted_at db)))
          (scoped_twice key)

  updates :
      (count_where (is_owned job_id instance now) db.jobs == 0) ≡ false
      → update_owned_tx (is_owned job_id instance now) record_attempt counted ≡ ok (tt, recorded)
  updates owned = rw owned

  counts_attempt :
      refusal instance checked_at (find_job job_id db) ≡ none
      → (count_where (is_owned job_id instance now) db.jobs == 0) ≡ false
      → increment_attempts_for_job job_id instance key checked_at counted_at now db
        ≡ (ok attempts, recorded)
  unfolding increment_attempts_for_job
  counts_attempt h owned = commits (assert_job_owned_tx job_id instance checked_at >> count_tx) db (
      bind_ok (assert_job_owned_tx job_id instance checked_at) (λ _. count_tx) db
        (assert_job_owned_tx_lem job_id instance checked_at db h)
      ∙ bind_ok (increment_attempts_tx (scoped key) counted_at) record_tx db incremented
      ∙ bind_ok (update_owned_tx (is_owned job_id instance now) record_attempt) (λ _. pure attempts)
          counted (updates owned))

-- A runner that may change a job, and still owns it at the last reading of the clock, counts an
-- attempt: the call returns one more than the attempts of the key so far, and both the key's row and
-- the job's row then have that number, the job's with the key's generation and scope.
pub increment_attempts_for_job-counts :
    (job_id instance : String) (key : AttemptKey) (checked_at counted_at now : Time) (db : Db)
    → refusal instance checked_at (find_job job_id db) ≡ none
    → (count_where (is_owned job_id instance now) db.jobs == 0) ≡ false
    → ((increment_attempts_for_job job_id instance key checked_at counted_at now db).0
        ≡ ok (counted_so_far (scoped key) db + 1))
      × (attempts_of
            (scoped key)
            (increment_attempts_for_job job_id instance key checked_at counted_at now db).1
          ≡ some (counted_so_far (scoped key) db + 1))
      × ((increment_attempts_for_job job_id instance key checked_at counted_at now db).1.jobs
          ≡ update_where
              (is_owned job_id instance now)
              (counted_row
                (counted_so_far (scoped key) db + 1)
                key.generation
                (scoped key).scope_hash
                now)
              db.jobs)
increment_attempts_for_job-counts job_id instance key checked_at counted_at now db h owned =
    let run = counts_attempt job_id instance key checked_at counted_at now db h owned in
    (
      ap (λ x. x.0) run,
      ap (λ x. attempts_of (scoped key) x.1) run
          ∙ same_attempts (scoped key) (is_owned job_id instance now)
              (record_attempt job_id instance key checked_at counted_at now db)
              (counted job_id instance key checked_at counted_at now db)
          ∙ bumped (scoped key) counted_at db,
      ap (λ x. x.1.jobs) run,
    )
