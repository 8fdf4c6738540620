-- ===== src/Effects/Stable.antt =====
-- Predicates that hold before and after each thing that the workflow does for a job: a call of the
-- store for that job, a renewal of the job's lease, a write to GitHub directly after such a renewal.
use mathlib.Core.Path.{subst}
use issueq.Prelude.{Option, ℕ, ℤ, String, ◌≡◌, refl, sym, Bool, true, false}
use issueq.Model.{IssueSnapshot, JobEvent, JobFinalize, is_running, LaunchSpecRecord, LaunchRecord}
use issueq.Store.{Db, Result, Op}
use issueq.Store.Attempts.{AttemptKey, increment_attempts_for_job, increment_transitions_for_job}
use issueq.Store.Issues.{upsert_issue}
use issueq.Store.Queue.{insert_job_event}
use issueq.Store.Finalize.{finalize_job_owned}
use issueq.Store.Leases.{renew_job_lease}
use issueq.Store.Launch.{
  persist_launch_spec_owned, mark_job_launching_owned, persist_launch_record_owned,
}
use issueq.Store.Steps.{
  JobStep, puts_issue, renews_own, counts_own_attempt, counts_own_transition, finalizes_own,
  logs_event, prepares_own, launches_own, records_own,
}
use issueq.Errors.{Answer, value, error, Failure}
use issueq.Effects.{
  World, Outside, Io, ◌>>=◌, ◌>>◌, resume, ask, next_turn, call, query, Call, renewed,
  removed_labels, added_labels, commented, traced, note, noted, Reply, request, effect, or_wrapped,
}
use issueq.Effects.Queue.{
  renew_lease, store_issue, stored_issue, issue_state, count_attempt, count_transition,
  insert_event, finalize_job, persist_spec, mark_launching, persist_record,
}
use issueq.Effects.Keeps.{Keeps, Keeps-bind, Keeps-ask, Keeps-call, Keeps-request, keeps_rules}

abbrev pub is_write : Call → Bool
is_write (removed_labels _ _) = true
is_write (added_labels _ _) = true
is_write (commented _ _) = true
is_write _ = false

-- The world after a step of the store.
abbrev pub stepped : Db → World → World
stepped db w = record w { db = db; turn = ℕ.suc w.turn }

pub record IsStable (job_id instance : String) (P : World → Type 0) : Type 0 where
  pub turns : (w : World) → P w → P (next_turn w)
  pub steps : (w : World) {db : Db} → JobStep job_id instance w.db db → P w → P (stepped db w)
  pub renewals : (w : World) → P w → P (noted (renewed job_id) w)
  pub writes :
      (w : World) (c : Call)
      → is_write c ≡ true
      → P (noted (renewed job_id) w)
      → P (traced c (noted (renewed job_id) w))

module _ {job_id instance : String} {P : World → Type 0} (s : IsStable job_id instance P)
    (o : Outside) where
  -- A renewal that succeeds has just been put on the trace.
  abbrev Renewed : Answer (Unit {0}) × World → Type 0
  Renewed (value _, w) = (before : World) × P before × (w ≡ noted (renewed job_id) before)
  Renewed (error _, w) = P w

  note-Renewed :
      (r : Answer (Unit {0})) (w : World) → P w → Renewed (resume (λ _. note (renewed job_id)) r w)
  note-Renewed (value _) w h = (w, h, refl)
  note-Renewed (error x) w h = h

  renew_lease-Renewed :
      (lease : ℤ) (w : World) → P w → Renewed (renew_lease o job_id instance lease w)
  unfolding renew_lease
  renew_lease-Renewed lease w h =
      let now = o.clock w.turn in
      let checked_at = o.clock (ℕ.suc w.turn) in
      let kept : Keeps P (call o (renew_job_lease job_id instance lease now checked_at)) =
        Keeps-call o _ s.turns (λ w h. s.steps w (renews_own lease now checked_at) h) in
      let before = next_turn (next_turn w) in
      let out = call o (renew_job_lease job_id instance lease now checked_at) before in
      note-Renewed out.0 out.1 (kept.at before (s.turns (next_turn w) (s.turns w h)))

  pub Keeps-renew : (lease : ℤ) → Keeps P (renew_lease o job_id instance lease)
  Keeps-renew lease = record {
    at = λ w h. settled (renew_lease o job_id instance lease w) (renew_lease-Renewed lease w h);
  }
    where
      settled : (out : Answer (Unit {0}) × World) → Renewed out → P out.1
      settled (value _, w) (before, h, e) = subst P (sym e) (s.renewals before h)
      settled (error x, w) h = h

  -- A program that starts with a renewal.
  pub Keeps-renewed :
      {A : Type 0} (lease : ℤ) (k : Io A)
      → ((w : World) → P w → P (k (noted (renewed job_id) w)).1)
      → Keeps P (renew_lease o job_id instance lease >> k)
  Keeps-renewed lease k kept = record {
    at = λ w h. settled (renew_lease o job_id instance lease w) (renew_lease-Renewed lease w h);
  }
    where
      settled : (out : Answer (Unit {0}) × World) → Renewed out → P (resume (λ _. k) out.0 out.1).1
      settled (value _, w) (before, h, e) = subst (λ w. P (k w).1) (sym e) (kept before h)
      settled (error x, w) h = h

  pub Keeps-query : {A : Type 0} (f : Db → Result A) → Keeps P (query o f)
  Keeps-query f = Keeps-call o _ s.turns s.turns

  pub Keeps-step :
      {A : Type 0} (op : Op A)
      → ((db : Db) → JobStep job_id instance db (op db).1)
      → Keeps P (call o op)
  Keeps-step op step = Keeps-call o op s.turns (λ w h. s.steps w (step w.db) h)

  pub Keeps-clock : {A : Type 0} (f : ℕ → A) → Keeps P (ask f)
  Keeps-clock f = Keeps-ask f s.turns

  -- A program that reads something, and goes on.
  pub Keeps-ask_bind :
      {A B : Type 0} (f : ℕ → A) (k : A → Io B) → ((a : A) → Keeps P (k a)) → Keeps P (ask f >>= k)
  Keeps-ask_bind f k kk = Keeps-bind (ask f) k (Keeps-clock f) kk

  pub Keeps-store_issue : (issue : IssueSnapshot) → Keeps P (store_issue o issue)
  unfolding store_issue
  Keeps-store_issue issue =
      Keeps-ask_bind o.clock _
        (λ now. Keeps-step (upsert_issue issue now) (λ db. puts_issue issue now))

  pub Keeps-stored_issue : (issue_key : String) → Keeps P (stored_issue o issue_key)
  unfolding stored_issue
  Keeps-stored_issue issue_key = Keeps-query _

  pub Keeps-issue_state : (issue_key : String) → Keeps P (issue_state o issue_key)
  unfolding issue_state
  Keeps-issue_state issue_key = Keeps-query _

  pub Keeps-count_attempt : (key : AttemptKey) → Keeps P (count_attempt o job_id instance key)
  unfolding count_attempt
  Keeps-count_attempt key = Keeps-ask_bind o.clock _ (λ t₁. Keeps-ask_bind o.clock _ (λ t₂.
      Keeps-ask_bind o.clock _ (λ now.
        Keeps-step (increment_attempts_for_job job_id instance key t₁ t₂ now)
          (λ db. counts_own_attempt key t₁ t₂ now))))

  pub Keeps-count_transition :
      (issue_key : String) → Keeps P (count_transition o job_id instance issue_key)
  unfolding count_transition
  Keeps-count_transition issue_key = Keeps-ask_bind o.clock _ (λ t. Keeps-ask_bind o.clock _ (λ now.
      Keeps-step (increment_transitions_for_job job_id instance issue_key t now)
        (λ db. counts_own_transition issue_key t now)))

  pub Keeps-insert_event : (event : JobEvent) → Keeps P (insert_event o event)
  unfolding insert_event
  Keeps-insert_event event = Keeps-ask_bind o.new_id _ (λ id.
      Keeps-ask_bind o.clock _
        (λ now. Keeps-step (insert_job_event id event now) (λ db. logs_event id event now)))

  pub Keeps-finalize_job :
      (result : JobFinalize)
      → is_running result.status ≡ false
      → Keeps P (finalize_job o job_id instance result)
  unfolding finalize_job
  Keeps-finalize_job result h = Keeps-ask_bind o.clock _ (λ t₁. Keeps-ask_bind o.clock _ (λ t₂.
      Keeps-ask_bind o.clock _ (λ t₃. Keeps-ask_bind o.clock _ (λ now.
        Keeps-step
          (finalize_job_owned job_id instance result
            (record { finished_at = t₁; checked_at = t₂; reversed_at = t₃; now = now }))
          (λ db. finalizes_own result _ h)))))

  pub Keeps-persist_spec : (l : LaunchSpecRecord) → Keeps P (persist_spec o job_id instance l)
  unfolding persist_spec
  Keeps-persist_spec l = Keeps-ask_bind o.clock _ (λ now. Keeps-ask_bind o.clock _ (λ t.
      Keeps-step (persist_launch_spec_owned job_id instance l now t) (λ db. prepares_own l now t)))

  pub Keeps-mark_launching : (token : String) → Keeps P (mark_launching o job_id instance token)
  unfolding mark_launching
  Keeps-mark_launching token = Keeps-ask_bind o.clock _ (λ now. Keeps-ask_bind o.clock _ (λ t.
      Keeps-step (mark_job_launching_owned job_id instance token now t)
        (λ db. launches_own token now t)))

  pub Keeps-persist_record : (l : LaunchRecord) → Keeps P (persist_record o job_id instance l)
  unfolding persist_record
  Keeps-persist_record l = Keeps-ask_bind o.clock _ (λ now. Keeps-ask_bind o.clock _ (λ t.
      Keeps-step (persist_launch_record_owned job_id instance l now t) (λ db. records_own l now t)))

  pub Keeps-effect : (f : ℕ → Option Failure) → Keeps P (effect f)
  Keeps-effect f = record { at = s.turns }

  pub Keeps-or_wrapped :
      {A : Type 0} (prefix : String) (m : Io A) → Keeps P m → Keeps P (or_wrapped prefix m)
  Keeps-or_wrapped prefix m km = record { at = km.at }

  pub Keeps-read : {A : Type 0} (f : ℕ → Reply A) → Keeps P (request f)
  Keeps-read f = Keeps-request f s.turns

pub ruleset stable_rules = (
  keeps_rules, Keeps-renew, Keeps-query, Keeps-clock, Keeps-read, Keeps-store_issue,
  Keeps-stored_issue, Keeps-issue_state, Keeps-count_attempt, Keeps-count_transition,
  Keeps-insert_event, Keeps-persist_spec, Keeps-mark_launching, Keeps-persist_record, Keeps-effect,
  Keeps-or_wrapped,
)
