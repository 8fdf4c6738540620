-- ===== src/Router.antt =====
-- internal/router/router.go: which routes an issue matches, and the jobs that are enqueued for it.
-- The gate is in Router/Gate, the scopes and keys that are hashed in Router/Scope, the pass over
-- the issues in Router/Pass.
pub mod Gate
pub mod Scope
pub mod Pass
use issueq.Prelude.{
  String, Bool, true, false, not, List, [], ◌∷◌, ◌&&◌, if◌then◌else◌, str_eq, contains,
}
use issueq.Model.{IssueSnapshot}
use issueq.Config.{Config, RouteConfig}

-- `capabilityAllows`
abbrev pub capability_allows : List String → String → Bool
capability_allows [] kind = true
capability_allows (c ∷ cs) kind = contains (c ∷ cs) kind

-- The loop over `LabelsInclude`.
abbrev pub includes_all : List String → List String → Bool
includes_all labels [] = true
includes_all labels (want ∷ wants) = contains labels want && includes_all labels wants

-- The loop over `LabelsExclude`.
abbrev pub excludes_all : List String → List String → Bool
excludes_all labels [] = true
excludes_all labels (blocked ∷ rest) = not (contains labels blocked) && excludes_all labels rest

unfoldable pub matches : Config → RouteConfig → IssueSnapshot → Bool
matches cfg route issue =
    if not (str_eq issue.state "open")
    then false
    else if not (capability_allows cfg.runner.capabilities route.job.kind)
    then false
    else includes_all issue.labels route.when.labels_include
      && excludes_all issue.labels route.when.labels_exclude
