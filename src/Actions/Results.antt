-- ===== src/Actions/Results.antt =====
-- actions.go: `ParseResultFile`.
use issueq.Prelude.{
  String, Bool, Option, none, some, List, [], ◌∷◌, ◌||◌, if◌then◌else◌, str_eq, is_blank, append,
}
use issueq.Errors.{Answer, value, error, plain_error}
use issueq.Actions.{ResultAction, ResultJson}
use issueq.Workflow.Finalize.{ResultFiles, absent, unreadable, contents}

abbrev pub is_result_field : String → Bool
is_result_field field =
    str_eq field "comment"
    || str_eq field "labels_add"
    || str_eq field "labels_remove"
    || str_eq field "work_started"

-- The loop over the fields of the object.
unfoldable pub unsupported_field : List String → Option String
unsupported_field [] = none
unsupported_field (field ∷ fields) =
    let rest = unsupported_field fields in if is_result_field field then rest else some field

module _ (json : ResultJson) where
  abbrev parsed_action : String → Option ResultAction → Answer (Option ResultAction)
  parsed_action text none =
      error (plain_error (append "parse result JSON: " (json.parse_failure text)))
  parsed_action text (some action) = value (some action)

  abbrev checked_fields : String → Option String → Answer (Option ResultAction)
  checked_fields text (some field) =
      error (plain_error (append "unsupported result JSON field " (json.quoted field)))
  checked_fields text none = parsed_action text (json.result_action text)

  abbrev parsed_object : String → Option (List String) → Answer (Option ResultAction)
  parsed_object text none =
      error (plain_error (append "parse result JSON: " (json.parse_failure text)))
  parsed_object text (some fields) = checked_fields text (unsupported_field fields)

  -- `none` is a file that is not there or is blank.
  unfoldable pub parse_result_file : ResultFiles → String → Answer (Option ResultAction)
  unfolding unsupported_field
  parse_result_file files path = elim (files.read_file path) [
    | absent ↦ value none
    | unreadable ↦ error (plain_error (append "read result JSON: " (json.read_failure path)))
    | contents text ↦ if is_blank text then value none else parsed_object text (json.fields text)
  ]
