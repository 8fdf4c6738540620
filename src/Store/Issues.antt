-- ===== src/Store/Issues.antt =====
-- sqlite.go: `UpsertIssue`, `GetIssue`, `ListRoutableIssues`, `ListIssues`, `listIssues`. The labels
-- pass through JSON unchanged.
use issueq.Prelude.{
  String, Bool, none, some, List, [], ◌∷◌, ◌++◌, map, if◌then◌else◌, leb_ℤ, str_eq,
}
use issueq.Sql.{update_where, select_where, first_where, order_by, insert_by}
use issueq.Model.{Time, is_zero, IssueSnapshot}
use issueq.Store.{IssueRow, IssueStateRow, Db, no_rows, Result, ok, err, Op}
use issueq.Store.Scan.{scan_issue}
use issueq.Store.Attempts.{has_issue_key}

abbrev pub issue_row : IssueSnapshot → IssueRow
issue_row i = record {
  issue_key = i.issue_key;
  node_id = i.node_id;
  host = i.host;
  owner = i.owner;
  repo = i.repo;
  number = i.number;
  title = i.title;
  body = i.body;
  labels_json = i.labels;
  state = i.state;
  github_updated_at = i.github_updated_at;
  synced_at = i.synced_at;
}

abbrev pub is_issue : String → IssueRow → Bool
is_issue issue_key r = str_eq r.issue_key issue_key

unfoldable pub upsert_issue_row : IssueSnapshot → List IssueRow → List IssueRow
unfolding first_where update_where
upsert_issue_row i rows = elim (first_where (is_issue i.issue_key) rows) [
  | some r ↦ update_where (is_issue i.issue_key) (λ _. issue_row i) rows
  | none ↦ rows ++ issue_row i ∷ []
]

unfoldable pub upsert_state_row : IssueSnapshot → List IssueStateRow → List IssueStateRow
unfolding first_where update_where
upsert_state_row i rows = elim (first_where (has_issue_key i.issue_key) rows) [
  | some r ↦
      update_where (has_issue_key i.issue_key)
        (λ s. record s { node_id = i.node_id; updated_at = i.synced_at }) rows
  | none ↦
      rows
      ++ record {
        issue_key = i.issue_key;
        node_id = i.node_id;
        generation = 0;
        transition_count = 0;
        created_at = i.synced_at;
        updated_at = i.synced_at;
      }
        ∷ []
]

-- `if issue.SyncedAt.IsZero() { issue.SyncedAt = time.Now().UTC() }`
abbrev pub synced : IssueSnapshot → Time → IssueSnapshot
synced i now = record i { synced_at = if is_zero i.synced_at then now else i.synced_at }

unfoldable pub upsert_issue : IssueSnapshot → Time → Op (Unit {0})
unfolding upsert_issue_row upsert_state_row
upsert_issue issue now db = (
  ok tt,
  record db {
    issues = upsert_issue_row (synced issue now) db.issues;
    issue_state = upsert_state_row (synced issue now) db.issue_state;
  },
)

unfoldable pub get_issue : String → Db → Result IssueSnapshot
unfolding first_where scan_issue
get_issue issue_key db = elim (first_where (is_issue issue_key) db.issues) [
  | none ↦ err no_rows
  | some r ↦ ok (scan_issue r)
]

-- `ORDER BY number ASC`
abbrev pub number_before : IssueRow → IssueRow → Bool
number_before a b = leb_ℤ a.number b.number

unfoldable pub list_issues : Db → List IssueSnapshot
unfolding order_by insert_by scan_issue
list_issues db = map scan_issue (order_by number_before db.issues)

unfoldable pub list_routable_issues : Db → List IssueSnapshot
unfolding select_where order_by insert_by scan_issue
list_routable_issues db =
    map scan_issue (order_by number_before (select_where (λ r. str_eq r.state "open") db.issues))
