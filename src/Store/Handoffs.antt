-- ===== src/Store/Handoffs.antt =====
-- sqlite.go: `UpsertHandoff`, `ListHandoffsForIssue`, `LatestMatchingHandoff`.
use issueq.Prelude.{
  String, Bool, true, false, Option, none, some, List, [], ◌∷◌, ◌++◌, map, ◌&&◌, ◌||◌,
  if◌then◌else◌, ltb, ◌==◌, str_eq, str_leb, is_blank, contains,
}
use issueq.Sql.{
  update_where, select_where, count_where, first_where, order_by, insert_by, null_string, col_eq,
}
use issueq.Model.{Time, is_zero, Handoff, HandoffQuery}
use issueq.Store.{HandoffRow, Db, ok, Op, fail}
use issueq.Store.Scan.{scan_handoff}

abbrev pub handoff_row : Handoff → HandoffRow
handoff_row h = record {
  id = h.id;
  issue_key = h.issue_key;
  route_name = h.route_name;
  decision = h.decision;
  next_route = null_string h.next_route;
  source_kind = null_string h.source_kind;
  source_key = null_string h.source_key;
  source_fingerprint = null_string h.source_fingerprint;
  target_kind = null_string h.target_kind;
  target_key = null_string h.target_key;
  payload_json = h.payload_json;
  created_at = h.created_at;
}

abbrev pub is_handoff : String → HandoffRow → Bool
is_handoff id r = str_eq r.id id

unfoldable pub upsert_handoff_row : Handoff → List HandoffRow → List HandoffRow
unfolding first_where update_where
upsert_handoff_row h rows = elim (first_where (is_handoff h.id) rows) [
  | some r ↦ update_where (is_handoff h.id) (λ _. handoff_row h) rows
  | none ↦ rows ++ handoff_row h ∷ []
]

-- The message of the first check that fails.
unfoldable pub missing_handoff_field : Handoff → Option String
missing_handoff_field h =
    if is_blank h.id
    then some "handoff id is required"
    else if is_blank h.issue_key
    then some "handoff issue key is required"
    else if is_blank h.route_name
    then some "handoff route name is required"
    else if is_blank h.decision
    then some "handoff decision is required"
    else if is_blank h.payload_json
    then some "handoff payload JSON is required"
    else none

abbrev pub stamped : Handoff → Time → Handoff
stamped h now = record h { created_at = if is_zero h.created_at then now else h.created_at }

-- Whether the handoff is new, by a count in the same transaction.
unfoldable pub upsert_handoff : Handoff → Time → Op Bool
unfolding missing_handoff_field upsert_handoff_row count_where
upsert_handoff handoff now db = elim (missing_handoff_field handoff) [
  | some message ↦ fail message db
  | none ↦ (
    ok (count_where (is_handoff handoff.id) db.handoffs == 0),
    record db { handoffs = upsert_handoff_row (stamped handoff now) db.handoffs },
  )
]

-- `ORDER BY created_at ASC, id ASC`
unfoldable pub handoff_before : HandoffRow → HandoffRow → Bool
handoff_before a b =
    if ltb a.created_at b.created_at
    then true
    else if ltb b.created_at a.created_at
    then false
    else str_leb a.id b.id

unfoldable pub list_handoffs_for_issue : String → Db → List Handoff
unfolding handoff_before select_where order_by insert_by scan_handoff
list_handoffs_for_issue issue_key db =
    map scan_handoff
      (order_by handoff_before (select_where (λ r. str_eq r.issue_key issue_key) db.handoffs))

-- An `=` clause is left out if its value is blank.
abbrev pub text_clause : String → Option String → Bool
text_clause wanted column = is_blank wanted || col_eq column wanted

-- The placeholders of an `IN` clause: the values that are not blank.
unfoldable pub named : List String → List String
named [] = []
named (s ∷ ss) = let rest = named ss in if is_blank s then rest else s ∷ rest

-- An `IN` clause is left out if it has no placeholder.
abbrev pub in_list : List String → String → Bool
in_list [] s = true
in_list (w ∷ ws) s = contains (w ∷ ws) s

unfoldable pub matches_query : HandoffQuery → HandoffRow → Bool
unfolding named
matches_query q r =
    text_clause q.issue_key (some r.issue_key)
    && in_list (named q.route_names) r.route_name
    && in_list (named q.decisions) r.decision
    && text_clause q.next_route r.next_route
    && text_clause q.target_kind r.target_kind
    && text_clause q.target_key r.target_key

-- `ORDER BY created_at DESC, id DESC`
unfoldable pub newest_before : HandoffRow → HandoffRow → Bool
unfolding handoff_before
newest_before a b = handoff_before b a

-- `LIMIT 1`
abbrev pub first_of_rows : List HandoffRow → Option HandoffRow
first_of_rows [] = none
first_of_rows (r ∷ rs) = some r

unfoldable pub latest_matching_handoff : HandoffQuery → Db → Option Handoff
unfolding matches_query newest_before select_where order_by insert_by scan_handoff
latest_matching_handoff q db =
    elim (first_of_rows (order_by newest_before (select_where (matches_query q) db.handoffs))) [
      | none ↦ none
      | some r ↦ some (scan_handoff r)
    ]
