-- ===== src/Poller/Stored.antt =====
-- Which issues the tables have after a poll.
use issueq.Prelude.{
  suc, String, ◌≡◌, ap, ◌∙◌, Bool, true, false, none, some, List, [], ◌∷◌, ◌++◌, ◌||◌, All, arith,
  Option-cases, inl, inr, eq_iff, length, append, Option,
}
use issueq.Prelude.Text.Equal.{str_eq_self}
use issueq.Sql.{first_where, update_where}
use issueq.Model.{Time, IssueSnapshot, Handoff}
use issueq.Config.{Config}
use issueq.Handoff.{HandoffText, parse_comment}
use issueq.Store.{IssueRow, Db}
use issueq.Store.Issues.{is_issue, issue_row, synced, upsert_issue_row, upsert_issue}
use issueq.Store.Handoffs.{upsert_handoff, missing_handoff_field}
use issueq.Errors.{Failure}
use issueq.Effects.{World, Outside, replied, ◌>>=◌, or_wrapped, next_turn, store_call, call}
use issueq.Effects.Queue.{store_issue}
use issueq.Effects.Keeps.{Keeps, Keeps-pure, Keeps-bind, Keeps-ask, Keeps-call}
use issueq.Effects.Ends.{Ends, OnValue, Ends-pure, Ends-bind, Ends-kept, Ends-both}
use issueq.Poller.{
  Comment, PollClient, PollResult, count_upserted, count_found, count_inserted, completed, fetched,
  insert_handoff, poll_handoffs, poll_comments, upsert_polled, comments_of, poll_issue, poll_issues,
  poll,
}

-- Whether a row has the key.
abbrev pub has_issue : String → List IssueRow → Bool
has_issue key [] = false
has_issue key (r ∷ rs) = is_issue key r || has_issue key rs

has_issue-append :
    (key : String) (rows : List IssueRow) (r : IssueRow)
    → has_issue key (rows ++ r ∷ []) ≡ (has_issue key rows || is_issue key r)
has_issue-append key [] r = ground arith
has_issue-append key (s ∷ rows) r = let ih = has_issue-append key rows r in ground arith

has_issue-found :
    (key : String) (rows : List IssueRow) {r : IssueRow}
    → first_where (is_issue key) rows ≡ some r
    → has_issue key rows ≡ true
unfolding first_where
has_issue-found key [] h = absurd cc
has_issue-found key (s ∷ rows) {r} h = let ih = has_issue-found key rows {r = r} in ground arith

has_issue-update :
    (key : String) (row : IssueRow) (rows : List IssueRow)
    → has_issue key rows ≡ true
    → has_issue key (update_where (is_issue row.issue_key) (λ _. row) rows) ≡ true
unfolding update_where
has_issue-update key row [] h = absurd cc
has_issue-update key row (r ∷ rows) h =
    let ih = has_issue-update key row rows in
    ground (
      arith,
      ih,
      eq_iff r.issue_key key,
      eq_iff r.issue_key row.issue_key,
      eq_iff row.issue_key key,
    )

upsert_issue_row-keeps :
    (key : String) (i : IssueSnapshot) (rows : List IssueRow)
    → has_issue key rows ≡ true
    → has_issue key (upsert_issue_row i rows) ≡ true
unfolding upsert_issue_row
upsert_issue_row-keeps key i rows h =
    elim (Option-cases (first_where (is_issue i.issue_key) rows)) [
      | inl e ↦
          let add = has_issue-append key rows (issue_row i) in
          rw (e, upsert_issue_row) (ground arith)
      | inr (r, e) ↦ rw (e, upsert_issue_row) (has_issue-update key (issue_row i) rows h)
    ]

upsert_issue_row-has :
    (i : IssueSnapshot) (rows : List IssueRow)
    → has_issue i.issue_key (upsert_issue_row i rows) ≡ true
unfolding upsert_issue_row
upsert_issue_row-has i rows = elim (Option-cases (first_where (is_issue i.issue_key) rows)) [
  | inl e ↦
      let add = has_issue-append i.issue_key rows (issue_row i) in
      let self = str_eq_self i.issue_key in rw (e, upsert_issue_row) (ground arith)
  | inr (r, e) ↦
      rw (e, upsert_issue_row)
        (has_issue-update i.issue_key (issue_row i) rows (has_issue-found i.issue_key rows e))
]

upsert_handoff-issues :
    (h : Handoff) (now : Time) (db : Db) → (upsert_handoff h now db).1.issues ≡ db.issues
unfolding upsert_handoff
upsert_handoff-issues h now db = elim (Option-cases (missing_handoff_field h)) [
  | inl e ↦ rw (e, upsert_handoff)
  | inr (m, e) ↦ rw (e, upsert_handoff)
]

module _ (o : Outside) (client : PollClient) (text : HandoffText) (cfg : Config) where
  abbrev Has : String → World → Type 0
  Has key w = has_issue key w.db.issues ≡ true

  module _ (key : String) where
    Keeps-store_issue : (issue : IssueSnapshot) → Keeps (Has key) (store_issue o issue)
    unfolding store_issue upsert_issue
    Keeps-store_issue issue = Keeps-bind _ _ (Keeps-ask o.clock (λ w h. h)) (λ now.
        Keeps-call o (upsert_issue issue now) (λ w h. h)
          (λ w h. upsert_issue_row-keeps key (synced issue now) w.db.issues h))

    Keeps-upsert_polled :
        (issue : IssueSnapshot) → Keeps (Has key) (upsert_polled o client text cfg issue)
    Keeps-upsert_polled issue = record { at = (Keeps-store_issue issue).at }

    Keeps-insert_handoff :
        (issue : IssueSnapshot) (h : Handoff)
        → Keeps (Has key) (insert_handoff o client text cfg issue h)
    Keeps-insert_handoff issue h = record {
      at = λ w k. (insertion (o.clock w.turn)).at (next_turn w) k;
    }
      where
        insertion : (now : Time) → Keeps (Has key) (call o (upsert_handoff h now))
        insertion now =
            Keeps-call o (upsert_handoff h now) (λ w k. k)
              (λ w k. ap (has_issue key) (upsert_handoff-issues h now w.db) ∙ k)

    Keeps-poll_handoffs :
        (issue : IssueSnapshot) (hs : List Handoff) (r : PollResult)
        → Keeps (Has key) (poll_handoffs o client text cfg issue hs r)
    unfolding poll_handoffs
    Keeps-poll_handoffs issue [] r = Keeps-pure r
    Keeps-poll_handoffs issue (h ∷ hs) r =
        Keeps-bind (insert_handoff o client text cfg issue h) _ (Keeps-insert_handoff issue h)
          (λ b. Keeps-poll_handoffs issue hs (count_inserted b r))

    Keeps-poll_comments :
        (issue : IssueSnapshot) (cs : List Comment) (r : PollResult)
        → Keeps (Has key) (poll_comments o client text cfg issue cs r)
    unfolding poll_comments
    Keeps-poll_comments issue [] r = Keeps-pure r
    Keeps-poll_comments issue (c ∷ cs) r =
        let hs = (parse_comment text issue.issue_key c.body c.created_at).handoffs in
        Keeps-bind (poll_handoffs o client text cfg issue hs (count_found (length hs) r)) _
          (Keeps-poll_handoffs issue hs (count_found (length hs) r)) (Keeps-poll_comments issue cs)

    Keeps-comments :
        (issue : IssueSnapshot) (r : PollResult)
        → Keeps (Has key) (
            comments_of o client text cfg issue >>= λ comments.
            poll_comments o client text cfg issue comments (count_upserted r))
    Keeps-comments issue r =
        Keeps-bind (comments_of o client text cfg issue) _ (record { at = λ w h. h })
          (λ cs. Keeps-poll_comments issue cs (count_upserted r))

    Keeps-poll_issue :
        (issue : IssueSnapshot) (r : PollResult)
        → Keeps (Has key) (poll_issue o client text cfg issue r)
    Keeps-poll_issue issue r =
        Keeps-bind (upsert_polled o client text cfg issue) _ (Keeps-upsert_polled issue)
          (λ _. Keeps-comments issue r)

    Keeps-poll_issues :
        (t : Time) (is : List IssueSnapshot) (r : PollResult)
        → Keeps (Has key) (poll_issues o client text cfg t is r)
    unfolding poll_issues
    Keeps-poll_issues t [] r = Keeps-pure r
    Keeps-poll_issues t (i ∷ is) r =
        Keeps-bind (poll_issue o client text cfg (completed o client text cfg t i) r) _
          (Keeps-poll_issue _ r) (Keeps-poll_issues t is)

  upserted-Has :
      (issue : IssueSnapshot)
      → Ends (λ _ w. Has issue.issue_key w) (upsert_polled o client text cfg issue)
  unfolding store_issue upsert_issue call
  upserted-Has issue = record { at = λ w. stored w (o.driver (suc w.turn)) }
    where
      stored :
          (w : World) (f : Option Failure)
          → OnValue
              (λ _ w. Has issue.issue_key w)
              (or_wrapped
                (append "upsert issue " issue.issue_key)
                (store_call f (upsert_issue issue (o.clock w.turn)))
                (next_turn w))
      stored w (some x) = tt
      stored w none = upsert_issue_row-has (synced issue (o.clock w.turn)) w.db.issues

  poll_issue-Has :
      (issue : IssueSnapshot) (r : PollResult)
      → Ends (λ _ w. Has issue.issue_key w) (poll_issue o client text cfg issue r)
  poll_issue-Has issue r =
      Ends-kept (upsert_polled o client text cfg issue) _ (upserted-Has issue)
        (λ _. Keeps-comments issue.issue_key issue r)

  -- The tables have an issue with the key of each issue of the list.
  abbrev pub HasAll : Time → List IssueSnapshot → World → Type 0
  HasAll t is w = All (λ i. Has (completed o client text cfg t i).issue_key w) is

  poll_issues-HasAll :
      (t : Time) (is : List IssueSnapshot) (r : PollResult)
      → Ends (λ _ w. HasAll t is w) (poll_issues o client text cfg t is r)
  unfolding poll_issues
  poll_issues-HasAll t [] r = Ends-pure r (λ w. tt)
  poll_issues-HasAll t (i ∷ is) r =
      let polled = completed o client text cfg t i in
      Ends-both (poll_issues o client text cfg t (i ∷ is) r)
        (Ends-kept (poll_issue o client text cfg polled r) (poll_issues o client text cfg t is)
          (poll_issue-Has polled r) (Keeps-poll_issues polled.issue_key t is))
        (Ends-bind (poll_issue o client text cfg polled r) (poll_issues o client text cfg t is)
          (poll_issues-HasAll t is))

  pub polled-HasAll :
      (w : World) (issues : List IssueSnapshot)
      → client.open_issues w.turn ≡ replied issues
      → OnValue (λ _ w'. HasAll (o.clock (suc w.turn)) issues w') (poll o client text cfg w)
  unfolding poll
  polled-HasAll w issues e = rw e (
      (poll_issues-HasAll (o.clock (suc w.turn)) issues (fetched issues)).at
        (next_turn (next_turn w)))
