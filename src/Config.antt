-- ===== src/Config.antt =====
-- internal/config/config.go: the types that the other parts read. A `Duration` is its nanoseconds.
pub mod Defaults
pub mod Validate
use issueq.Prelude.{ℤ, String, Bool, List}

pub record PredicateConfig : Type 0 where
  pub labels_include : List String
  pub labels_exclude : List String

-- The only modes that `UnmarshalYAML` sets.
pub data HandoffNextRouteMode : Type 0 where
  disabled current exact : HandoffNextRouteMode

pub record HandoffNextRouteConfig : Type 0 where
  pub mode : HandoffNextRouteMode
  pub value : String

pub record HandoffGateConfig : Type 0 where
  pub required : Bool
  pub from : List String
  pub decisions : List String
  pub next_route : HandoffNextRouteConfig
  pub freshness : String

pub record ActionConfig : Type 0 where
  pub labels_add : List String
  pub labels_remove : List String
  pub comment : String

pub record GateConfig : Type 0 where
  pub handoff : HandoffGateConfig
  pub on_block : ActionConfig

pub record JobConfig : Type 0 where
  pub kind : String
  pub command : List String
  pub timeout : ℤ
  pub concurrency : ℤ
  pub max_attempts : ℤ
  pub priority : ℤ
  pub attempt_scope : String
  pub env_pass : List String
  pub on_start : ActionConfig
  pub on_success : ActionConfig
  pub on_failure : ActionConfig
  pub on_attempts_exceeded : ActionConfig

pub record RouteConfig : Type 0 where
  pub name : String
  pub when : PredicateConfig
  pub gate : GateConfig
  pub job : JobConfig

pub record RunnerConfig : Type 0 where
  pub name : String
  pub capabilities : List String
  pub env_inherit : Bool
  pub env_pass : List String

pub record QueueConfig : Type 0 where
  pub backend : String
  pub sqlite_path : String
  pub max_global_concurrency : ℤ
  pub lease_duration : ℤ

pub record GitHubConfig : Type 0 where
  pub host : String
  pub owner : String
  pub repo : String
  pub token_env : String

pub record WorkflowConfig : Type 0 where
  pub max_transitions_per_issue : ℤ
  pub on_transitions_exceeded : ActionConfig

pub record Config : Type 0 where
  pub runner : RunnerConfig
  pub queue : QueueConfig
  pub workdir_path : String
  pub polling_interval : ℤ
  pub github : GitHubConfig
  pub terminal_labels : List String
  pub workflow : WorkflowConfig
  pub routes : List RouteConfig
