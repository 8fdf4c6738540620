-- ===== src/Examples/Routes.antt =====
-- Witnesses of the router.
use issueq.Prelude.{◌≡◌, ◌↔◌, refl, true, false, All, is_blank}
use issueq.Store.{HandoffRow, ok}
use issueq.Store.Scan.{scan_handoff}
use issueq.Store.Issues.{upsert_issue, list_routable_issues}
use issueq.Store.Handoffs.{newest_before, matches_query, upsert_handoff}
use issueq.Router.{matches}
use issueq.Router.Gate.{gate_query, evaluate_gate}
use issueq.Router.Pass.{RouteResult, no_results, count_match, count_job, count_block, route}
use issueq.Routing.Matching.{IsMatch, matches_iff}
use issueq.Routing.Gating.{Satisfies, evaluate_gate-required}
use issueq.Routing.Counts.{IsBalanced, matching_pairs, route-IsBalanced}
use issueq.Examples.Sample.{
  encodings, build_route, config, ready_issue, issue_db, approved_db, draws,
}

matches_iff_example :
    matches config build_route ready_issue ≡ true ↔ IsMatch config build_route ready_issue
matches_iff_example = matches_iff config build_route ready_issue

ready-passes : (evaluate_gate encodings build_route ready_issue approved_db).blocked ≡ false
unfolding evaluate_gate upsert_handoff is_blank upsert_issue
ready-passes = refl

evaluate_gate-required_example :
    (r : HandoffRow) × (matches_query (gate_query build_route ready_issue) r ≡ true)
    × Satisfies encodings build_route ready_issue (scan_handoff r)
    × All
        (λ s.
          matches_query (gate_query build_route ready_issue) s ≡ true → newest_before r s ≡ true)
        approved_db.handoffs
evaluate_gate-required_example =
    evaluate_gate-required encodings build_route ready_issue approved_db refl ready-passes

abbrev one_job : RouteResult
one_job = count_job true (count_match (no_results 1))

approved-routed : (route encodings config draws approved_db).0 ≡ ok one_job
unfolding route upsert_issue upsert_handoff is_blank
approved-routed = refl

route-IsBalanced_example :
    IsBalanced
      (matching_pairs config (list_routable_issues approved_db))
      approved_db
      (route encodings config draws approved_db).1
      one_job
route-IsBalanced_example = route-IsBalanced encodings config draws approved_db approved-routed

-- Without the handoff the gate blocks the issue.
abbrev one_block : RouteResult
one_block = count_block true (count_match (no_results 1))

unapproved-routed : (route encodings config draws issue_db).0 ≡ ok one_block
unfolding route upsert_issue is_blank
unapproved-routed = refl
