-- ===== src/Router/Scope.antt =====
-- router.go: `AttemptScopeHash`, `DedupeKey`, `LabelHash`, `gateScopeHash` and the texts that they
-- hash.
use issueq.Prelude.{
  String, Bool, true, false, not, Option, none, some, List, [], ◌∷◌, ◌||◌, if◌then◌else◌, str_eq,
  str_leb, is_blank, trim_space, contains, append,
}
use issueq.Sql.{order_by, insert_by}
use issueq.Model.{IssueSnapshot, Handoff, JobCreate, missing_handoff}
use issueq.Config.{RouteConfig}
use issueq.Store.{Db}
use issueq.Router.Gate.{Encodings, GateDecision, evaluate_gate, reason_text}

-- The parts, each behind a zero byte.
abbrev pub zero_separated : List String → String
zero_separated [] = ""
zero_separated (part ∷ parts) = append "\0" (append part (zero_separated parts))

unfoldable pub hash_scope : Encodings → String → List String → String
hash_scope e namespace parts = e.sha256_hex (append namespace (zero_separated parts))

unfoldable pub gate_scope_hash : Encodings → IssueSnapshot → GateDecision → String
unfolding hash_scope
gate_scope_hash e issue decision = elim decision.handoff [
  | some h ↦ hash_scope e "handoff" (h.id ∷ [])
  | none ↦ hash_scope e "issue" (issue.issue_key ∷ e.rfc3339_nano issue.github_updated_at ∷ [])
]

-- The namespaces that `attemptScopeDescriptorFor` returns.
pub data AttemptScope : Type 0 where
  legacy handoff issue pr_head ci_head : AttemptScope

abbrev pub namespace_of : AttemptScope → String
namespace_of legacy = "legacy"
namespace_of handoff = "handoff"
namespace_of issue = "issue"
namespace_of pr_head = "pr_head"
namespace_of ci_head = "ci_head"

abbrev pub target_kinds_of : AttemptScope → List String
target_kinds_of pr_head = "github_pr" ∷ "github_pull_request" ∷ "pull_request" ∷ []
target_kinds_of ci_head = "github_ci" ∷ "github_check_run" ∷ "ci_run" ∷ []
target_kinds_of _ = []

abbrev scope_named : String → AttemptScope
scope_named scope =
    if str_eq scope "handoff"
    then handoff
    else if str_eq scope "issue"
    then issue
    else if str_eq scope "pr_head"
    then pr_head
    else if str_eq scope "ci_head"
    then ci_head
    else legacy

unfoldable pub attempt_scope_for : String → AttemptScope
attempt_scope_for scope = scope_named (trim_space scope)

unfoldable pub handoff_attempt_scope_hash : Encodings → Handoff → String
unfolding hash_scope
handoff_attempt_scope_hash e h =
    hash_scope e "handoff" ((if not (is_blank h.id) then h.id else h.source_fingerprint) ∷ [])

unfoldable pub issue_attempt_scope_hash : Encodings → IssueSnapshot → String
unfolding hash_scope
issue_attempt_scope_hash e i =
    hash_scope e "issue"
      (i.issue_key ∷ e.rfc3339_nano i.github_updated_at ∷ e.sha256_hex i.body ∷ [])

unfoldable pub target_attempt_scope_hash : Encodings → AttemptScope → Option Handoff → String
unfolding hash_scope
target_attempt_scope_hash e scope none = "legacy"
target_attempt_scope_hash e scope (some h) =
    let kind = trim_space h.target_kind in
    let key = trim_space h.target_key in
    if str_eq kind "" || str_eq key "" || not (contains (target_kinds_of scope) kind)
    then "legacy"
    else hash_scope e (namespace_of scope) (kind ∷ key ∷ [])

-- The hash, or the reason with which the gate blocks.
pub data ScopeResult : Type 0 where
  scope_hash blocked_scope : String → ScopeResult

-- The switch on the namespace, after the gate has let the issue pass.
unfoldable pub passed_scope :
    Encodings → AttemptScope → IssueSnapshot → Option Handoff → ScopeResult
unfolding handoff_attempt_scope_hash issue_attempt_scope_hash target_attempt_scope_hash
passed_scope e legacy i h = scope_hash "legacy"
passed_scope e handoff i none = blocked_scope (reason_text missing_handoff)
passed_scope e handoff i (some h) = scope_hash (handoff_attempt_scope_hash e h)
passed_scope e issue i h = scope_hash (issue_attempt_scope_hash e i)
passed_scope e pr_head i h = scope_hash (target_attempt_scope_hash e pr_head h)
passed_scope e ci_head i h = scope_hash (target_attempt_scope_hash e ci_head h)

abbrev gated_scope : Encodings → AttemptScope → IssueSnapshot → GateDecision → ScopeResult
gated_scope e scope i d =
    if d.blocked then blocked_scope d.reason else passed_scope e scope i d.handoff

abbrev pub is_legacy : AttemptScope → Bool
is_legacy legacy = true
is_legacy _ = false

unfoldable pub attempt_scope_hash : Encodings → RouteConfig → IssueSnapshot → Db → ScopeResult
unfolding attempt_scope_for evaluate_gate passed_scope
attempt_scope_hash e route i db =
    let scope = attempt_scope_for route.job.attempt_scope in
    if is_legacy scope
    then scope_hash "legacy"
    else gated_scope e scope i (evaluate_gate e route i db)

-- The labels in order, each before a zero byte.
abbrev pub zero_ended : List String → String
zero_ended [] = ""
zero_ended (label ∷ labels) = append label (append "\0" (zero_ended labels))

unfoldable pub label_hash : Encodings → List String → String
unfolding order_by insert_by
label_hash e labels = e.sha256_hex (zero_ended (order_by str_leb labels))

-- The four parts, joined by a colon.
unfoldable pub dedupe_key : Encodings → IssueSnapshot → String → String
unfolding label_hash
dedupe_key e i route_name = append i.issue_key (
    append ":" (
      append route_name (
        append ":"
          (append (label_hash e i.labels) (append ":" (e.rfc3339_nano i.github_updated_at))))))

unfoldable pub job_create : Encodings → RouteConfig → IssueSnapshot → JobCreate
unfolding dedupe_key
job_create e route i = record {
  issue_key = i.issue_key;
  route_name = route.name;
  kind = route.job.kind;
  priority = route.job.priority;
  dedupe_key = dedupe_key e i route.name;
  available_at = 0;
}
