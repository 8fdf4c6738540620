-- ===== src/Workflow/Stable.antt =====
-- What the workflow does for a job, and the stable predicates.
use issueq.Prelude.{ℤ, String, ◌≡◌, refl, Bool, true, false, List, [], ◌∷◌, is_blank}
use issueq.Model.{JobStatus, is_running, IssueSnapshot, Job, RunnerIdentity}
use issueq.Config.{Config, ActionConfig}
use issueq.Errors.{Answer, value, error}
use issueq.Effects.{World, Outside, Io, or_wrapped, outcome_of, ◌>>◌, perform, Call, removed_labels}
use issueq.Effects.Queue.{renew_lease}
use issueq.Effects.Keeps.{Keeps, keeps_rules, Keeps-if, Keeps-pure}
use issueq.Effects.Stable.{IsStable, is_write, Keeps-renewed, Keeps-finalize_job, stable_rules}
use issueq.Actions.Apply.{
  tolerate, apply_removals, apply_additions, apply_comment, refresh_after, apply_with_hooks,
}
use issueq.Workflow.Owned.{
  log_event, drop_on_loss, finalize_claimed_job, exceed_transitions, apply_owned,
  check_transition_limit,
}

module _ {job_id instance : String} {P : World → Type 0} (s : IsStable job_id instance P)
    (o : Outside) (lease : ℤ) where
  abbrev hook : Io (Unit {0})
  hook = renew_lease o job_id instance lease

  Keeps-tolerate : (r : Answer (Unit {0})) → Keeps P (tolerate o r)
  Keeps-tolerate (value _) = search keeps_rules
  Keeps-tolerate (error x) = search keeps_rules

  Keeps-wrapped_write :
      (prefix : String) (c : Call)
      → is_write c ≡ true
      → Keeps P (hook >> or_wrapped prefix (perform o.write_github c))
  Keeps-wrapped_write prefix c h =
      Keeps-renewed s o lease _ (λ w k. s.writes w c h (s.renewals w k))

  Keeps-apply_removals :
      (number : ℤ) (labels : List String) → Keeps P (apply_removals o hook number labels)
  unfolding apply_removals
  Keeps-apply_removals number [] = Keeps-pure _
  Keeps-apply_removals number (l ∷ ls) =
      let c = removed_labels number (l ∷ ls) in
      Keeps-renewed s o lease _ (λ w k.
        (Keeps-tolerate (outcome_of (o.write_github w.turn))).at _
          (s.writes w c refl (s.renewals w k)))

  Keeps-apply_additions :
      (number : ℤ) (labels : List String) → Keeps P (apply_additions o hook number labels)
  unfolding apply_additions
  Keeps-apply_additions number [] = Keeps-pure _
  Keeps-apply_additions number (l ∷ ls) = Keeps-wrapped_write _ _ refl

  Keeps-apply_comment :
      (number : ℤ) (comment : String) → Keeps P (apply_comment o hook number comment)
  unfolding apply_comment
  Keeps-apply_comment number comment =
      Keeps-if (is_blank comment) _ _ (Keeps-pure _) (Keeps-wrapped_write _ _ refl)

  ruleset apply_rules =
      (stable_rules, Keeps-apply_removals, Keeps-apply_additions, Keeps-apply_comment)

  Keeps-refresh_after :
      (mutated : Bool) (number : ℤ) (latest : IssueSnapshot)
      → Keeps P (refresh_after o hook mutated number latest)
  unfolding refresh_after
  Keeps-refresh_after mutated number latest = search apply_rules

  pub Keeps-apply_with_hooks :
      (issue : IssueSnapshot) (action : ActionConfig)
      → Keeps P (apply_with_hooks o hook issue action)
  unfolding apply_with_hooks
  Keeps-apply_with_hooks issue action = search (apply_rules, Keeps-refresh_after) depth 20

module _ {P : World → Type 0} (o : Outside) (identity : RunnerIdentity) (job : Job)
    (s : IsStable job.id identity.instance_id P) where
  pub Keeps-drop_on_loss : (m : Io (Unit {0})) → Keeps P m → Keeps P (drop_on_loss m)
  Keeps-drop_on_loss m km = search keeps_rules

  pub Keeps-log_event :
      (issue_key event_type message : String)
      → Keeps P (log_event o identity job issue_key event_type message)
  Keeps-log_event issue_key event_type message = search stable_rules

  pub ruleset owned_rules = (stable_rules, Keeps-log_event, Keeps-drop_on_loss)

  pub Keeps-finalize_claimed_job :
      (status : JobStatus) (message : String)
      → is_running status ≡ false
      → Keeps P (finalize_claimed_job o identity job status message)
  unfolding finalize_claimed_job
  Keeps-finalize_claimed_job status message h = search (owned_rules, Keeps-finalize_job) depth 20

  module _ (lease : ℤ) where
    pub Keeps-apply_owned :
        (issue : IssueSnapshot) (action : ActionConfig)
        → Keeps P (apply_owned o identity job lease issue action)
    unfolding apply_owned
    Keeps-apply_owned issue action = Keeps-apply_with_hooks s o lease issue action

    pub Keeps-exceed_transitions :
        (cfg : Config) (has_github : Bool) (issue : IssueSnapshot)
        → Keeps P (exceed_transitions o identity job lease cfg has_github issue)
    Keeps-exceed_transitions cfg false issue = search keeps_rules
    Keeps-exceed_transitions cfg true issue = search (owned_rules, Keeps-apply_owned) depth 20

    pub Keeps-check_transition_limit :
        (cfg : Config) (has_github : Bool) (issue : IssueSnapshot)
        → Keeps P (check_transition_limit o identity job lease cfg has_github issue)
    unfolding check_transition_limit
    Keeps-check_transition_limit cfg has_github issue =
        search (owned_rules, Keeps-exceed_transitions) depth 20
