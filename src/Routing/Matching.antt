-- ===== src/Routing/Matching.antt =====
-- When a route matches an issue.
use issueq.Prelude.{
  String, ◌≡◌, ◌↔◌, refl, true, false, List, [], ◌∷◌, arith, str_eq, eq_iff, contains, All,
}
use issueq.Model.{IssueSnapshot}
use issueq.Config.{Config, RouteConfig}
use issueq.Router.{capability_allows, includes_all, excludes_all, matches}

-- The conditions of the route on the issue, apart from any order of the checks.
pub record IsMatch (cfg : Config) (route : RouteConfig) (issue : IssueSnapshot) : Type 0 where
  pub is_open : issue.state ≡ "open"
  pub capable : capability_allows cfg.runner.capabilities route.job.kind ≡ true
  pub included : All (λ label. contains issue.labels label ≡ true) route.when.labels_include
  pub excluded : All (λ label. contains issue.labels label ≡ false) route.when.labels_exclude

includes_all-All :
    (labels wants : List String)
    → includes_all labels wants ≡ true
    → All (λ label. contains labels label ≡ true) wants
includes_all-All labels [] h = tt
includes_all-All labels (w ∷ ws) h = (ground arith, includes_all-All labels ws (ground arith))

includes_all-of_All :
    (labels wants : List String)
    → All (λ label. contains labels label ≡ true) wants
    → includes_all labels wants ≡ true
includes_all-of_All labels [] all = refl
includes_all-of_All labels (w ∷ ws) (h, all) = rw (h, includes_all-of_All labels ws all)

excludes_all-All :
    (labels blocked : List String)
    → excludes_all labels blocked ≡ true
    → All (λ label. contains labels label ≡ false) blocked
excludes_all-All labels [] h = tt
excludes_all-All labels (b ∷ bs) h = (ground arith, excludes_all-All labels bs (ground arith))

excludes_all-of_All :
    (labels blocked : List String)
    → All (λ label. contains labels label ≡ false) blocked
    → excludes_all labels blocked ≡ true
excludes_all-of_All labels [] all = refl
excludes_all-of_All labels (b ∷ bs) (h, all) = rw (h, excludes_all-of_All labels bs all)

module _ (cfg : Config) (route : RouteConfig) (issue : IssueSnapshot) where
  matches-IsMatch : matches cfg route issue ≡ true → IsMatch cfg route issue
  unfolding matches
  matches-IsMatch h = record {
    is_open = (eq_iff issue.state "open").0 (ground arith);
    capable = ground arith;
    included = includes_all-All issue.labels route.when.labels_include (ground arith);
    excluded = excludes_all-All issue.labels route.when.labels_exclude (ground arith);
  }

  matches-of_IsMatch : IsMatch cfg route issue → matches cfg route issue ≡ true
  unfolding matches
  matches-of_IsMatch m =
      let is_open : str_eq issue.state "open" ≡ true = (eq_iff issue.state "open").1 m.is_open in
      let included = includes_all-of_All issue.labels route.when.labels_include m.included in
      let excluded = excludes_all-of_All issue.labels route.when.labels_exclude m.excluded in
      rw (is_open, m.capable, included, excluded)

  -- A route matches an issue exactly if the issue is open, the runner is capable of the job's kind,
  -- and the issue has every label that the route includes and none that it excludes.
  pub matches_iff : matches cfg route issue ≡ true ↔ IsMatch cfg route issue
  matches_iff = (matches-IsMatch, matches-of_IsMatch)
