-- ===== src/Poller/Polled.antt =====
-- What a poll stores and counts.
use issueq.Prelude.{ℕ, suc, ◌+◌, ◌≤◌, ◌≡◌, Bool, true, false, List, [], ◌∷◌, length, arith}
use issueq.Model.{Time, IssueSnapshot, Handoff}
use issueq.Config.{Config}
use issueq.Handoff.{HandoffText, parse_comment}
use issueq.Effects.{replied, World, Outside, Io, ask, request, or_wrapped}
use issueq.Effects.Ends.{Ends, OnValue, OnValue-both, Ends-pure, Ends-bind, Ends-then}
use issueq.Poller.Stored.{HasAll, polled-HasAll}
use issueq.Poller.{
  Comment, PollClient, PollResult, count_upserted, count_found, count_inserted, completed, fetched,
  insert_handoff, poll_handoffs, poll_comments, upsert_polled, comments_of, poll_issue, poll_issues,
  poll,
}

-- Before the results `todo` more issues; the handoffs found cover those inserted and `more` to come.
pub record IsCounted (todo more : ℕ) (r : PollResult) : Type 0 where
  pub all : r.issues_fetched ≡ r.issues_upserted + todo
  pub found : r.handoffs_inserted + more ≤ r.handoffs_found

module _ (o : Outside) (client : PollClient) (text : HandoffText) (cfg : Config) where
  abbrev Counted : ℕ → ℕ → Io PollResult → Type 0
  Counted todo more m = Ends (λ r _. IsCounted todo more r) m

  inserted-IsCounted :
      (todo more : ℕ) (b : Bool) (r : PollResult)
      → IsCounted todo (suc more) r
      → IsCounted todo more (count_inserted b r)
  inserted-IsCounted todo more true r h =
      let found = h.found in record { all = h.all; found = omega arith }
  inserted-IsCounted todo more false r h =
      let found = h.found in record { all = h.all; found = omega arith }

  handoffs-Counted :
      (todo : ℕ) (issue : IssueSnapshot) (hs : List Handoff) (r : PollResult)
      → IsCounted todo (length hs) r
      → Counted todo 0 (poll_handoffs o client text cfg issue hs r)
  unfolding poll_handoffs
  handoffs-Counted todo issue [] r h = Ends-pure r (λ w. h)
  handoffs-Counted todo issue (x ∷ hs) r h =
      Ends-bind (insert_handoff o client text cfg issue x) _ (λ b.
        handoffs-Counted todo issue hs (count_inserted b r)
          (inserted-IsCounted todo (length hs) b r h))

  found-IsCounted :
      (todo n : ℕ) (r : PollResult) → IsCounted todo 0 r → IsCounted todo n (count_found n r)
  found-IsCounted todo n r h = let found = h.found in record { all = h.all; found = omega arith }

  comments-Counted :
      (todo : ℕ) (issue : IssueSnapshot) (cs : List Comment) (r : PollResult)
      → IsCounted todo 0 r
      → Counted todo 0 (poll_comments o client text cfg issue cs r)
  unfolding poll_comments
  comments-Counted todo issue [] r h = Ends-pure r (λ w. h)
  comments-Counted todo issue (c ∷ cs) r h =
      let hs = (parse_comment text issue.issue_key c.body c.created_at).handoffs in
      Ends-then (poll_handoffs o client text cfg issue hs (count_found (length hs) r)) _
        (handoffs-Counted todo issue hs _ (found-IsCounted todo (length hs) r h))
        (comments-Counted todo issue cs)

  upserted-IsCounted :
      (todo : ℕ) (r : PollResult) → IsCounted (suc todo) 0 r → IsCounted todo 0 (count_upserted r)
  upserted-IsCounted todo r h = let all = h.all in record { all = omega arith; found = h.found }

  issue-Counted :
      (todo : ℕ) (issue : IssueSnapshot) (r : PollResult)
      → IsCounted (suc todo) 0 r
      → Counted todo 0 (poll_issue o client text cfg issue r)
  issue-Counted todo issue r h = Ends-bind (upsert_polled o client text cfg issue) _ (λ _.
      Ends-bind (comments_of o client text cfg issue) _
        (λ cs. comments-Counted todo issue cs (count_upserted r) (upserted-IsCounted todo r h)))

  issues-Counted :
      (synced_at : Time) (is : List IssueSnapshot) (r : PollResult)
      → IsCounted (length is) 0 r
      → Counted 0 0 (poll_issues o client text cfg synced_at is r)
  unfolding poll_issues
  issues-Counted synced_at [] r h = Ends-pure r (λ w. h)
  issues-Counted synced_at (i ∷ is) r h =
      Ends-then (poll_issue o client text cfg (completed o client text cfg synced_at i) r) _
        (issue-Counted (length is) _ r h) (issues-Counted synced_at is)

  poll-Counted : Counted 0 0 (poll o client text cfg)
  unfolding poll
  poll-Counted =
      Ends-bind (or_wrapped "list GitHub issues" (request client.open_issues)) _ (λ issues.
        Ends-bind (ask o.clock) _ (λ t.
          issues-Counted t issues (fetched issues)
            (record { all = omega arith; found = omega arith })))

  -- After a poll that returns, the tables have an issue with the key of every issue that GitHub
  -- listed; every issue that was fetched is counted as stored, and at most as many handoffs are
  -- counted as inserted as were found.
  pub poll-HasAll :
      (w : World) (issues : List IssueSnapshot)
      → client.open_issues w.turn ≡ replied issues
      → OnValue
          (λ r w'. HasAll o client text cfg (o.clock (suc w.turn)) issues w' × IsCounted 0 0 r)
          (poll o client text cfg w)
  poll-HasAll w issues e =
      OnValue-both _ _ (poll o client text cfg w) (polled-HasAll o client text cfg w issues e)
        (poll-Counted.at w)
