-- ===== src/Poller.antt =====
-- internal/poller/poller.go: `Poll`. The two calls of GitHub that only the poller makes are parameters.
pub mod Polled
pub mod Stored
use issueq.Prelude.{
  ℕ, ◌+◌, ℤ, String, Bool, true, false, List, [], ◌∷◌, if◌then◌else◌, str_eq, append, length,
}
use issueq.Model.{Time, IssueSnapshot, Handoff, issue_key_text}
use issueq.Config.{Config}
use issueq.Store.Handoffs.{upsert_handoff}
use issueq.Handoff.{HandoffText, parse_comment}
use issueq.Effects.{Outside, Io, Reply, pure, ◌>>=◌, ◌>>◌, ask, request, call, or_wrapped}
use issueq.Effects.Queue.{store_issue}

pub record Comment : Type 0 where
  pub body : String
  pub created_at : Time

-- `ListOpenIssues` and `ListIssueComments`
pub record PollClient : Type 0 where
  pub open_issues : ℕ → Reply (List IssueSnapshot)
  pub comments : ℕ → ℤ → Reply (List Comment)

pub record PollResult : Type 0 where
  pub issues_fetched : ℕ
  pub issues_upserted : ℕ
  pub handoffs_found : ℕ
  pub handoffs_inserted : ℕ

abbrev text_or : String → String → String
text_or s d = if str_eq s "" then d else s

abbrev pub count_upserted : PollResult → PollResult
count_upserted r = record r { issues_upserted = r.issues_upserted + 1 }

abbrev pub count_found : ℕ → PollResult → PollResult
count_found n r = record r { handoffs_found = r.handoffs_found + n }

abbrev pub count_inserted : Bool → PollResult → PollResult
count_inserted true r = record r { handoffs_inserted = r.handoffs_inserted + 1 }
count_inserted false r = r

abbrev pub fetched : List IssueSnapshot → PollResult
fetched issues = record {
  issues_fetched = length issues;
  issues_upserted = 0;
  handoffs_found = 0;
  handoffs_inserted = 0;
}

module _ (o : Outside) (client : PollClient) (text : HandoffText) (cfg : Config) where
  unfoldable pub completed : Time → IssueSnapshot → IssueSnapshot
  unfolding issue_key_text
  completed synced_at i =
      let host = text_or i.host cfg.github.host in
      let owner = text_or i.owner cfg.github.owner in
      let repo = text_or i.repo cfg.github.repo in
      record i {
        host = host;
        owner = owner;
        repo = repo;
        issue_key =
            text_or i.issue_key (issue_key_text o.encodings.decimal host owner repo i.number);
        synced_at = synced_at;
      }

  abbrev pub insert_handoff : IssueSnapshot → Handoff → Io Bool
  insert_handoff issue h = ask o.clock >>= λ now.
      or_wrapped (append "upsert handoff " (append h.id (append " for issue " issue.issue_key)))
        (call o (upsert_handoff h now))

  -- The loop over the handoffs of a comment.
  unfoldable pub poll_handoffs : IssueSnapshot → List Handoff → PollResult → Io PollResult
  poll_handoffs issue [] r = pure r
  poll_handoffs issue (h ∷ hs) r =
      insert_handoff issue h >>= λ inserted. poll_handoffs issue hs (count_inserted inserted r)

  -- The loop over the comments of an issue.
  unfoldable pub poll_comments : IssueSnapshot → List Comment → PollResult → Io PollResult
  unfolding poll_handoffs parse_comment
  poll_comments issue [] r = pure r
  poll_comments issue (c ∷ cs) r =
      let hs = (parse_comment text issue.issue_key c.body c.created_at).handoffs in
      poll_handoffs issue hs (count_found (length hs) r) >>= poll_comments issue cs

  abbrev pub upsert_polled : IssueSnapshot → Io (Unit {0})
  upsert_polled issue = or_wrapped (append "upsert issue " issue.issue_key) (store_issue o issue)

  abbrev pub comments_of : IssueSnapshot → Io (List Comment)
  comments_of issue =
      or_wrapped (append "list issue comments for " issue.issue_key)
        (request (λ n. client.comments n issue.number))

  abbrev pub poll_issue : IssueSnapshot → PollResult → Io PollResult
  poll_issue issue r =
      upsert_polled issue
      >> (comments_of issue >>= λ comments. poll_comments issue comments (count_upserted r))

  -- The loop over the issues.
  unfoldable pub poll_issues : Time → List IssueSnapshot → PollResult → Io PollResult
  unfolding completed poll_comments
  poll_issues synced_at [] r = pure r
  poll_issues synced_at (i ∷ is) r =
      poll_issue (completed synced_at i) r >>= poll_issues synced_at is

  unfoldable pub poll : Io PollResult
  unfolding poll_issues
  poll = or_wrapped "list GitHub issues" (request client.open_issues) >>= λ issues.
      ask o.clock >>= λ synced_at. poll_issues synced_at issues (fetched issues)
