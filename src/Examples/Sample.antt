-- ===== src/Examples/Sample.antt =====
-- Test data: a route with a handoff gate, an issue, its handoff, and simple functions for what the
-- standard library computes.
use issueq.Prelude.{ℕ, pos, true, false, none, some, [], ◌∷◌}
use issueq.Model.{IssueSnapshot, Handoff, HandoffQuery, GateBlock}
use issueq.Config.{HandoffNextRouteMode, ActionConfig, JobConfig, RouteConfig, Config}
use issueq.Supervisor.{RunState, Observation}
use issueq.Store.{Db}
use issueq.Store.Steps.{empty_db}
use issueq.Store.Issues.{upsert_issue}
use issueq.Store.Handoffs.{upsert_handoff}
use issueq.Router.Gate.{Encodings}
use issueq.Router.Pass.{Drawn}
use issueq.Workflow.Observe.{Printing}
use issueq.Workflow.Finalize.{ResultFiles, absent}

abbrev pub encodings : Encodings
encodings = record { sha256_hex = λ s. s; rfc3339_nano = λ t. "t"; decimal = λ n. "1" }

abbrev pub no_action : ActionConfig
no_action = record { labels_add = []; labels_remove = []; comment = "" }

abbrev pub agent_job : JobConfig
agent_job = record {
  kind = "agent";
  command = "run" ∷ [];
  timeout = pos 10;
  concurrency = pos 1;
  max_attempts = pos 3;
  priority = pos 1;
  attempt_scope = "handoff";
  env_pass = [];
  on_start = no_action;
  on_success = no_action;
  on_failure = no_action;
  on_attempts_exceeded = no_action;
}

-- The route asks for a handoff of the route `plan` with the decision `approve` that names it.
abbrev pub build_route : RouteConfig
build_route = record {
  name = "build";
  when = record { labels_include = "ready" ∷ []; labels_exclude = "hold" ∷ [] };
  gate = record {
    handoff = record {
      required = true;
      from = "plan" ∷ [];
      decisions = "approve" ∷ [];
      next_route = record { mode = HandoffNextRouteMode.current; value = "" };
      freshness = "source_unchanged";
    };
    on_block = no_action;
  };
  job = agent_job;
}

abbrev pub config : Config
config = record {
  runner = record { name = "r"; capabilities = "agent" ∷ []; env_inherit = false; env_pass = [] };
  queue = record {
    backend = "sqlite";
    sqlite_path = "q";
    max_global_concurrency = pos 2;
    lease_duration = pos 100;
  };
  workdir_path = "w";
  polling_interval = pos 1;
  github = record { host = "github.com"; owner = "o"; repo = "r"; token_env = "T" };
  terminal_labels = [];
  workflow = record { max_transitions_per_issue = pos 9; on_transitions_exceeded = no_action };
  routes = build_route ∷ [];
}

abbrev pub ready_issue : IssueSnapshot
ready_issue = record {
  issue_key = "k";
  node_id = "n";
  host = "github.com";
  owner = "o";
  repo = "r";
  number = pos 1;
  title = "t";
  body = "b";
  labels = "ready" ∷ [];
  state = "open";
  github_updated_at = 5;
  synced_at = 6;
}

abbrev pub approval : Handoff
approval = record {
  id = "h1";
  issue_key = "k";
  route_name = "plan";
  decision = "approve";
  next_route = "build";
  source_kind = "github_issue";
  source_key = "k";
  source_fingerprint = "b";
  target_kind = "";
  target_key = "";
  payload_json = "j";
  created_at = 7;
}

abbrev pub issue_db : Db
issue_db = (upsert_issue ready_issue 6 empty_db).1

abbrev pub approved_db : Db
approved_db = (upsert_handoff approval 8 issue_db).1

abbrev pub plan_query : HandoffQuery
plan_query = record {
  issue_key = "k";
  route_names = "plan" ∷ [];
  decisions = [];
  next_route = "";
  target_kind = "";
  target_key = "";
}

abbrev pub block : GateBlock
block = record {
  issue_key = "k";
  generation = 0;
  route_name = "build";
  reason = "missing_handoff";
  scope_hash = "s";
  created_at = 9;
  updated_at = 0;
}

abbrev pub draws : ℕ → Drawn
draws n = record { id = "job_9"; block_at = 20; now = 21 }

abbrev pub printing : Printing
printing = record { decimal = λ n. "1"; quoted = λ s. s }

abbrev pub no_files : ResultFiles
no_files = record {
  read_file = λ p. absent;
  work_started_field = λ s. some none;
  bool_of_json = λ s. none;
}

abbrev pub clean_exit : Observation
clean_exit = record {
  state = RunState.exited;
  exit_code = pos 0;
  has_exit_code = true;
  error = "";
  started_at = 31;
  finished_at = 40;
  result_path = "";
  stdout_path = "out";
  stderr_path = "err";
}
