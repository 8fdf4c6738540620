-- ===== src/Actions/Apply.antt =====
-- actions.go: `ApplyWithHooks`, `Apply`, `isAbsentLabelError`. The writes to GitHub go on the trace.
use issueq.Prelude.{ℤ, String, Bool, not, List, [], ◌∷◌, ◌||◌, if◌then◌else◌, is_blank, has_part}
use issueq.Model.{IssueSnapshot, issue_key_text}
use issueq.Config.{ActionConfig}
use issueq.Errors.{CallError, Answer, value, error, wrapped}
use issueq.Router.Gate.{is_nil}
use issueq.Actions.Labels.{same_label_set}
use issueq.Effects.{
  Outside, Io, pure, raise, ◌>>=◌, ◌>>◌, attempt, or_wrapped, request, perform, removed_labels,
  added_labels, commented,
}
use issueq.Effects.Queue.{store_issue}

pub record ApplyResult : Type 0 where
  pub updated_issue : IssueSnapshot
  pub changed : Bool

module _ (o : Outside) where
  unfoldable pub is_absent_label_error : CallError → Bool
  is_absent_label_error x =
      has_part "not found" (o.lower_case x.text) || has_part "404" (o.lower_case x.text)

  -- `RemoveLabels`, with an error for a label that is not there dropped.
  abbrev pub tolerate : Answer (Unit {0}) → Io (Unit {0})
  tolerate (value _) = pure tt
  tolerate (error x) =
      if is_absent_label_error x then pure tt else raise (wrapped "remove labels" x)

  abbrev pub remove_labels : ℤ → List String → Io (Unit {0})
  remove_labels number labels = do
    r ← attempt (perform o.write_github (removed_labels number labels))
    tolerate r

  abbrev pub refresh_issue : ℤ → Io IssueSnapshot
  refresh_issue number = request (λ n. o.get_issue n number)

  abbrev pub keyed : IssueSnapshot → IssueSnapshot
  keyed issue = record issue {
    issue_key = issue_key_text o.encodings.decimal issue.host issue.owner issue.repo issue.number;
  }

  module _ (hook : Io (Unit {0})) where
    -- Each step runs the hook before its side effect.
    unfoldable pub apply_removals : ℤ → List String → Io (Unit {0})
    unfolding is_absent_label_error
    apply_removals number [] = pure tt
    apply_removals number (l ∷ ls) = hook >> remove_labels number (l ∷ ls)

    unfoldable pub apply_additions : ℤ → List String → Io (Unit {0})
    apply_additions number [] = pure tt
    apply_additions number (l ∷ ls) =
        hook >> or_wrapped "add labels" (perform o.write_github (added_labels number (l ∷ ls)))

    unfoldable pub apply_comment : ℤ → String → Io (Unit {0})
    apply_comment number comment =
        if is_blank comment
        then pure tt
        else (hook
            >> or_wrapped "create comment" (perform o.write_github (commented number comment)))

    -- Whether the action has anything to write.
    abbrev pub mutates : ActionConfig → Bool
    mutates action =
        not (is_nil action.labels_remove)
        || not (is_nil action.labels_add)
        || not (is_blank action.comment)

    unfoldable pub refresh_after : Bool → ℤ → IssueSnapshot → Io IssueSnapshot
    refresh_after mutated number latest =
        if mutated
        then (hook >> or_wrapped "refresh issue after action" (refresh_issue number))
        else pure latest

    unfoldable pub apply_with_hooks : IssueSnapshot → ActionConfig → Io ApplyResult
    unfolding issue_key_text apply_removals apply_additions apply_comment refresh_after
    apply_with_hooks issue action = do
      hook
      before ← or_wrapped "refresh issue before action" (refresh_issue issue.number)
      apply_removals issue.number action.labels_remove
      apply_additions issue.number action.labels_add
      apply_comment issue.number action.comment
      refreshed ← refresh_after (mutates action) issue.number before
      let latest : IssueSnapshot = keyed refreshed
      hook
      or_wrapped "update local issue snapshot" (store_issue o latest)
      pure (record {
        updated_issue = latest;
        changed = not (same_label_set before.labels latest.labels);
      })
