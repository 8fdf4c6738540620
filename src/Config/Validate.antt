-- ===== src/Config/Validate.antt =====
-- config.go: `Validate` and the functions that it calls. What `fmt` prints of a number and of a quoted
-- text is a parameter; the answer is the list of messages, and no message is no error. A set of texts
-- is the list of its texts.
pub mod Whole
pub mod Filled
pub mod Labels
use Prim.Native.Char.{code}
use issueq.Prelude.{
  ℕ, suc, ◌+◌, ℤ, pos, String, Bool, true, false, not, List, [], ◌∷◌, ◌++◌, ◌==◌, ◌&&◌, ◌||◌, leb,
  leb_ℤ, if◌then◌else◌, str_eq, str_leb, is_blank, trim_space, contains, append,
}
use issueq.Sql.{order_by}
use issueq.Config.{
  PredicateConfig, HandoffNextRouteMode, exact, ActionConfig, GateConfig, JobConfig,
}

-- What `fmt` prints.
pub record Texts : Type 0 where
  pub number : ℕ → String
  pub quoted : String → String

is_name_start : ℕ → Bool
is_name_start c = (leb 65 c && leb c 90) || c == 95 || (leb 97 c && leb c 122)

all_name_chars : String → Bool
unfolding is_name_start
all_name_chars String.[] = true
all_name_chars (String.◌∷◌ c s) =
    (is_name_start (code c) || (leb 48 (code c) && leb (code c) 57)) && all_name_chars s

-- `^[A-Za-z_][A-Za-z0-9_]*$`
unfoldable pub valid_env_name : String → Bool
unfolding is_name_start all_name_chars
valid_env_name String.[] = false
valid_env_name (String.◌∷◌ c s) = is_name_start (code c) && all_name_chars s

abbrev pub valid_handoff_freshness : String → Bool
valid_handoff_freshness s = contains ("none" ∷ "source_unchanged" ∷ "target_head_unchanged" ∷ []) s

abbrev pub valid_attempt_scope : String → Bool
valid_attempt_scope s = contains ("legacy" ∷ "handoff" ∷ "issue" ∷ "pr_head" ∷ "ci_head" ∷ []) s

-- A message if the test holds.
abbrev pub error_if : Bool → String → List String
error_if b message = if b then message ∷ [] else []

module _ (t : Texts) where
  -- `path[i]`
  abbrev indexed : String → ℕ → String
  indexed path i = append path (append "[" (append (t.number i) "]"))

  -- The loop over the names that are passed on.
  unfoldable pub validate_names : String → String → List String → ℕ → List String → List String
  unfolding valid_env_name
  validate_names path token_env seen i [] = []
  validate_names path token_env seen i (name ∷ names) =
      error_if (not (valid_env_name name)) (
        append (indexed path i)
          (append " " (append (t.quoted name) " is not a valid environment variable name")))
      ++ error_if (str_eq name token_env)
          (append path (append " must not include github.token_env " (t.quoted token_env)))
      ++ error_if (contains seen name) (append path (append " contains duplicate " (t.quoted name)))
      ++ validate_names path token_env (name ∷ seen) (suc i) names

  abbrev pub validate_env_pass : String → List String → String → List String
  validate_env_pass path names token_env = validate_names path token_env [] 0 names

  -- The loop over labels, with those seen so far.
  unfoldable pub duplicate_labels : String → List String → List String → List String
  duplicate_labels path seen [] = []
  duplicate_labels path seen (label ∷ labels) =
      error_if (contains seen label) (append path (append " contains duplicate " (t.quoted label)))
      ++ duplicate_labels path (label ∷ seen) labels

  -- The labels of the first list that are in the second, each once.
  unfoldable pub common_labels : List String → List String → List String → List String
  common_labels seen [] others = []
  common_labels seen (label ∷ labels) others =
      let rest = common_labels (label ∷ seen) labels others in
      if not (contains seen label) && contains others label then label ∷ rest else rest

  abbrev pub conflict_errors : String → List String → List String
  conflict_errors prefix [] = []
  conflict_errors prefix (label ∷ labels) =
      append prefix (t.quoted label) ∷ conflict_errors prefix labels

  abbrev pub label_errors :
      String → String → String → String → List String → List String → List String
  label_errors path first second conflict labels others =
      duplicate_labels (append path first) [] labels
      ++ duplicate_labels (append path second) [] others
      ++ conflict_errors (append path conflict) (order_by str_leb (common_labels [] labels others))

  unfoldable pub validate_predicate : String → PredicateConfig → List String
  unfolding duplicate_labels common_labels order_by
  validate_predicate path p =
      label_errors path ".labels_include" ".labels_exclude" " includes and excludes label "
        p.labels_include p.labels_exclude

  unfoldable pub validate_action : String → ActionConfig → List String
  unfolding duplicate_labels common_labels order_by
  validate_action path a =
      label_errors path ".labels_add" ".labels_remove" " adds and removes label " a.labels_add
        a.labels_remove

  -- The loop of `validateStringList`.
  unfoldable pub validate_string_list : String → List String → ℕ → List String → List String
  validate_string_list path seen i [] = []
  validate_string_list path seen i (text ∷ texts) =
      error_if (str_eq (trim_space text) "") (append (indexed path i) " must not be empty")
      ++ error_if (contains seen (trim_space text))
          (append path (append " contains duplicate " (t.quoted text)))
      ++ validate_string_list path (trim_space text ∷ seen) (suc i) texts

  -- The loop over the routes that a gate names.
  unfoldable pub unknown_routes : String → List String → List String → List String
  unknown_routes path names [] = []
  unknown_routes path names (from ∷ froms) =
      error_if (not (is_blank from) && not (contains names (trim_space from)))
        (append path (append ".handoff.from references unknown route " (t.quoted from)))
      ++ unknown_routes path names froms

  abbrev is_empty_exact : HandoffNextRouteMode → String → Bool
  is_empty_exact exact text = is_blank text
  is_empty_exact _ text = false

  abbrev has_none : List String → Bool
  has_none [] = true
  has_none (x ∷ xs) = false

  unfoldable pub validate_gate : String → GateConfig → List String → List String
  unfolding validate_action validate_string_list unknown_routes
  validate_gate path gate names =
      let handoff = gate.handoff in
      validate_action (append path ".on_block") gate.on_block
      ++ error_if
          (not (is_blank handoff.freshness) && not (valid_handoff_freshness handoff.freshness))
          (append path (
            append ".handoff.freshness " (append (t.quoted handoff.freshness) " is not supported")))
      ++ error_if (handoff.required && has_none handoff.from)
          (append path ".handoff.from is required when handoff.required is true")
      ++ validate_string_list (append path ".handoff.from") [] 0 handoff.from
      ++ validate_string_list (append path ".handoff.decisions") [] 0 handoff.decisions
      ++ unknown_routes path names handoff.from
      ++ error_if (is_empty_exact handoff.next_route.mode handoff.next_route.value)
          (append path ".handoff.next_route must not be empty")

  -- The loop over the parts of a command.
  unfoldable pub empty_parts : String → ℕ → List String → List String
  empty_parts path i [] = []
  empty_parts path i (part ∷ parts) =
      error_if (is_blank part) (append (indexed (append path ".command") i) " must not be empty")
      ++ empty_parts path (suc i) parts

  abbrev validate_command : String → List String → List String
  validate_command path [] =
      append path ".command is required and must be a non-empty argv list" ∷ []
  validate_command path (c ∷ cs) = empty_parts path 0 (c ∷ cs)

  abbrev is_not_positive : ℤ → Bool
  is_not_positive n = leb_ℤ n (pos 0)

  unfoldable pub validate_job : String → JobConfig → String → List String
  unfolding validate_action validate_names empty_parts
  validate_job path job token_env =
      error_if (is_blank job.kind) (append path ".kind is required")
      ++ validate_command path job.command
      ++ error_if (is_not_positive job.timeout) (append path ".timeout must be positive")
      ++ error_if (is_not_positive job.concurrency) (append path ".concurrency must be positive")
      ++ error_if (is_not_positive job.max_attempts) (append path ".max_attempts must be positive")
      ++ error_if
          (not (is_blank job.attempt_scope)
            && not (valid_attempt_scope (trim_space job.attempt_scope)))
          (append path
            (append ".attempt_scope " (append (t.quoted job.attempt_scope) " is not supported")))
      ++ validate_env_pass (append path ".env.pass") job.env_pass token_env
      ++ validate_action (append path ".on_start") job.on_start
      ++ validate_action (append path ".on_success") job.on_success
      ++ validate_action (append path ".on_failure") job.on_failure
      ++ validate_action (append path ".on_attempts_exceeded") job.on_attempts_exceeded
