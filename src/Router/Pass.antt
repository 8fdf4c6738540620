-- ===== src/Router/Pass.antt =====
-- router.go: `Route`, which is `RouteWithGitHub` without a client, and `recordGateBlock`. Without a
-- client no action of a gate is applied, and the issue stays as it was read.
use issueq.Prelude.{ℕ, ◌+◌, String, Bool, true, false, not, List, [], ◌∷◌, if◌then◌else◌, length}
use issueq.Model.{Time, IssueSnapshot, GateBlock}
use issueq.Config.{Config, RouteConfig}
use issueq.Store.{Db, Result, ok, err, Op}
use issueq.Store.Attempts.{get_issue_state}
use issueq.Store.Gates.{record_gate_block}
use issueq.Store.Issues.{list_routable_issues}
use issueq.Store.Queue.{enqueue_job}
use issueq.Router.{matches}
use issueq.Router.Gate.{Encodings, GateDecision, evaluate_gate}
use issueq.Router.Scope.{gate_scope_hash, job_create}

-- `Result`
pub record RouteResult : Type 0 where
  pub issues_evaluated : ℕ
  pub routes_matched : ℕ
  pub jobs_created : ℕ
  pub jobs_existing : ℕ
  pub gate_blocked : ℕ
  pub gate_blocks_recorded : ℕ
  pub gate_blocks_existing : ℕ

-- What one turn of the loop draws from outside: the id of a job, and two readings of the clock.
pub record Drawn : Type 0 where
  pub id : String
  pub block_at : Time
  pub now : Time

abbrev pub gate_block :
    Encodings → RouteConfig → IssueSnapshot → GateDecision → ℕ → Time → GateBlock
gate_block e route issue decision generation at = record {
  issue_key = issue.issue_key;
  generation = generation;
  route_name = route.name;
  reason = decision.reason;
  scope_hash = gate_scope_hash e issue decision;
  created_at = at;
  updated_at = 0;
}

-- Whether the block is new, how often it was recorded, and whether its action was applied.
unfoldable pub record_block :
    Encodings → RouteConfig → IssueSnapshot → GateDecision → Drawn → Op (Bool × ℕ × Bool)
unfolding get_issue_state gate_scope_hash record_gate_block
record_block e route issue decision drawn db = elim (get_issue_state issue.issue_key db) [
  | err x ↦ (err x, db)
  | ok (generation, transitions) ↦
      record_gate_block (gate_block e route issue decision generation drawn.block_at) drawn.now db
]

abbrev pub count_match : RouteResult → RouteResult
count_match r = record r { routes_matched = r.routes_matched + 1 }

abbrev pub count_block : Bool → RouteResult → RouteResult
count_block true r = record r {
  gate_blocked = r.gate_blocked + 1;
  gate_blocks_recorded = r.gate_blocks_recorded + 1;
}
count_block false r = record r {
  gate_blocked = r.gate_blocked + 1;
  gate_blocks_existing = r.gate_blocks_existing + 1;
}

abbrev pub count_job : Bool → RouteResult → RouteResult
count_job true r = record r { jobs_created = r.jobs_created + 1 }
count_job false r = record r { jobs_existing = r.jobs_existing + 1 }

abbrev pub blocked_result : RouteResult → Result (Bool × ℕ × Bool) → Result RouteResult
blocked_result r (err x) = err x
blocked_result r (ok (inserted, _, _)) = ok (count_block inserted r)

abbrev pub enqueued_result : {A : Type 0} → RouteResult → Result (A × Bool) → Result RouteResult
enqueued_result r (err x) = err x
enqueued_result r (ok (_, inserted)) = ok (count_job inserted r)

-- One turn of the inner loop, for a route that matches.
unfoldable pub route_matched :
    Encodings → RouteConfig → IssueSnapshot → Drawn → RouteResult → Op RouteResult
unfolding evaluate_gate record_block job_create enqueue_job
route_matched e route issue drawn r db =
    let decision = evaluate_gate e route issue db in
    if decision.blocked
    then (let (x, db') = record_block e route issue decision drawn db in
        (blocked_result (count_match r) x, db'))
    else let (x, db') = enqueue_job drawn.id (job_create e route issue) drawn.now db in
      (enqueued_result (count_match r) x, db')

unfoldable pub route_one :
    Encodings → Config → IssueSnapshot → RouteConfig → Drawn → RouteResult → Op RouteResult
unfolding matches route_matched
route_one e cfg issue route drawn r db =
    if not (matches cfg route issue) then (ok r, db) else route_matched e route issue drawn r db

-- An error ends the pass.
abbrev pub proceed :
    Result RouteResult × Db → (RouteResult → Op RouteResult) → Result RouteResult × Db
proceed (err x, db) next = (err x, db)
proceed (ok r, db) next = next r db

-- The counts at the start of a pass over `n` issues.
abbrev pub no_results : ℕ → RouteResult
no_results n = record {
  issues_evaluated = n;
  routes_matched = 0;
  jobs_created = 0;
  jobs_existing = 0;
  gate_blocked = 0;
  gate_blocks_recorded = 0;
  gate_blocks_existing = 0;
}

module _ (e : Encodings) (cfg : Config) (drawn : ℕ → Drawn) where
  -- The inner loop, from the turn `n` on.
  unfoldable pub route_issue : IssueSnapshot → List RouteConfig → ℕ → RouteResult → Op RouteResult
  unfolding route_one
  route_issue issue [] n r db = (ok r, db)
  route_issue issue (route ∷ routes) n r db =
      proceed (route_one e cfg issue route (drawn n) r db) (route_issue issue routes (n + 1))

  unfoldable pub route_issues : List IssueSnapshot → ℕ → RouteResult → Op RouteResult
  unfolding route_issue
  route_issues [] n r db = (ok r, db)
  route_issues (issue ∷ issues) n r db =
      proceed (route_issue issue cfg.routes n r db) (route_issues issues (n + length cfg.routes))

  unfoldable pub route : Op RouteResult
  unfolding list_routable_issues route_issues
  route db =
      route_issues (list_routable_issues db) 0 (no_results (length (list_routable_issues db))) db
