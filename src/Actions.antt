-- ===== src/Actions.antt =====
-- internal/actions/actions.go: merging the action of a result with the configured one, and applying
-- an action to an issue.
pub mod Labels
pub mod Apply
pub mod Results
pub mod Merging
pub mod Sameness
use issueq.Prelude.{String, Bool, Option, List, [], ◌∷◌, if◌then◌else◌, str_eq, append}
use issueq.Config.{ActionConfig}
use issueq.Actions.Labels.{LabelSet, ordered_set, add_label, drop_label}

pub record ResultAction : Type 0 where
  pub comment : String
  pub labels_add : List String
  pub labels_remove : List String
  pub work_started : Option Bool

-- `json.Unmarshal` on the contents of a result: the fields of an object in the order of the loop over
-- them, and its value as a `ResultAction`; `none` is an error. The texts of errors are of the libraries.
pub record ResultJson : Type 0 where
  pub fields : String → Option (List String)
  pub result_action : String → Option ResultAction
  pub quoted : String → String
  pub read_failure : String → String
  pub parse_failure : String → String

abbrev pub merge_comment : String → String → String
merge_comment base result =
    if str_eq result ""
    then base
    else if str_eq base ""
    then result
    else append base (append "\n\n" result)

-- The loop over the result's labels to add: the sets of labels to add and to remove.
unfoldable pub add_all : List String → LabelSet → LabelSet → LabelSet × LabelSet
add_all [] add remove = (add, remove)
add_all (label ∷ labels) add remove = add_all labels (add_label label add) (drop_label label remove)

-- The loop over the result's labels to remove.
unfoldable pub remove_all : List String → LabelSet → LabelSet → LabelSet × LabelSet
remove_all [] add remove = (add, remove)
remove_all (label ∷ labels) add remove =
    remove_all labels (drop_label label add) (add_label label remove)

unfoldable pub merge : ActionConfig → ResultAction → ActionConfig
unfolding add_all remove_all
merge base result =
    let (add, remove) =
      add_all result.labels_add (ordered_set base.labels_add) (ordered_set base.labels_remove) in
    let (add', remove') = remove_all result.labels_remove add remove in
    record {
      labels_add = add'.values;
      labels_remove = remove'.values;
      comment = merge_comment base.comment result.comment;
    }
