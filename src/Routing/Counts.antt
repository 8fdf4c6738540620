-- ===== src/Routing/Counts.antt =====
-- The counts of a routing pass.
use mathlib.Core.Path.{subst}
use issueq.Prelude.{
  ℕ, ◌+◌, String, ◌≡◌, refl, ap, Bool, true, false, List, [], ◌∷◌, ◌++◌, ◌==◌, arith, Bool-cases,
  Option-cases, inl, inr, length, ◌∙◌,
}
use issueq.Sql.{count_where, first_where, update_where}
use issueq.Model.{Time, IssueSnapshot, Job, JobCreate, GateBlock}
use issueq.Config.{Config, RouteConfig}
use issueq.Store.{Db, Result, ok, err}
use issueq.Store.Attempts.{get_issue_state}
use issueq.Store.Gates.{record_gate_block, missing_block_field, is_block, recounted}
use issueq.Store.Issues.{list_routable_issues}
use issueq.Store.Queue.{enqueue_job, collides, existing_job, job_by_dedupe_key}
use issueq.Router.{matches}
use issueq.Router.Gate.{Encodings, evaluate_gate}
use issueq.Router.Scope.{job_create}
use issueq.Router.Pass.{
  RouteResult, Drawn, count_match, blocked_result, enqueued_result, proceed, record_block,
  gate_block, route_matched, route_one, route_issue, route_issues, no_results, route,
}

length-append_one {ℓ} :
    {A : Type ℓ} (rows : List A) (r : A) → length (rows ++ r ∷ []) ≡ length rows + 1
length-append_one [] r = refl
length-append_one (s ∷ rows) r = let ih = length-append_one rows r in omega arith

length-update_where {ℓ} :
    {A : Type ℓ} (p : A → Bool) (f : A → A) (rows : List A)
    → length (update_where p f rows) ≡ length rows
unfolding update_where
length-update_where p f [] = refl
length-update_where p f (r ∷ rows) = let ih = length-update_where p f rows in omega arith

abbrev one_if : Bool → ℕ
one_if true = 1
one_if false = 0

-- How many of the routes match the issue, and how many pairs of an issue and a route match.
abbrev pub matching_routes : Config → IssueSnapshot → List RouteConfig → ℕ
matching_routes cfg issue [] = 0
matching_routes cfg issue (r ∷ rs) = one_if (matches cfg r issue) + matching_routes cfg issue rs

abbrev pub matching_pairs : Config → List IssueSnapshot → ℕ
matching_pairs cfg [] = 0
matching_pairs cfg (i ∷ is) = matching_routes cfg i cfg.routes + matching_pairs cfg is

-- The counts of a pass that found `pairs` matches, and that changed the tables from `before` to
-- `after`: every match is a job or a block, and what is new is a row more.
pub record IsBalanced (pairs : ℕ) (before after : Db) (r : RouteResult) : Type 0 where
  pub found : r.routes_matched ≡ pairs
  pub matched : r.routes_matched ≡ r.jobs_created + r.jobs_existing + r.gate_blocked
  pub blocked : r.gate_blocked ≡ r.gate_blocks_recorded + r.gate_blocks_existing
  pub jobs : length after.jobs ≡ length before.jobs + r.jobs_created
  pub blocks : length after.gate_blocks ≡ length before.gate_blocks + r.gate_blocks_recorded

-- What a call that inserts a row if it is new does to the numbers of jobs and blocks.
abbrev Enqueues : Db → Result (Job × Bool) × Db → Type 0
Enqueues db (err x, db') = Unit
Enqueues db (ok (_, new), db') =
    (length db'.jobs ≡ length db.jobs + one_if new) × (db'.gate_blocks ≡ db.gate_blocks)

abbrev Records : Db → Result (Bool × ℕ × Bool) × Db → Type 0
Records db (err x, db') = Unit
Records db (ok (new, _, _), db') =
    (length db'.gate_blocks ≡ length db.gate_blocks + one_if new) × (db'.jobs ≡ db.jobs)

existing-Enqueues : (db : Db) (x : Result Job) → Enqueues db (existing_job x, db)
existing-Enqueues db (err x) = tt
existing-Enqueues db (ok job) = (omega arith, refl)

enqueue_job-Enqueues :
    (id : String) (create : JobCreate) (now : Time) (db : Db)
    → Enqueues db (enqueue_job id create now db)
unfolding enqueue_job
enqueue_job-Enqueues id create now db =
    elim (Bool-cases (count_where (collides id create.dedupe_key) db.jobs == 0)) [
      | inl e ↦ rw e (length-append_one db.jobs _, refl)
      | inr e ↦ rw e (existing-Enqueues db (job_by_dedupe_key create.dedupe_key db))
    ]

record_gate_block-Records :
    (block : GateBlock) (now : Time) (db : Db) → Records db (record_gate_block block now db)
unfolding record_gate_block
record_gate_block-Records block now db = elim (Option-cases (missing_block_field block)) [
  | inr (m, e) ↦ rw (e, record_gate_block) tt
  | inl e ↦ elim (Option-cases (first_where (is_block block) db.gate_blocks)) [
    | inl k ↦ rw (e, k, record_gate_block) (length-append_one db.gate_blocks _, refl)
    | inr (r, k) ↦
        let same =
          length-update_where (is_block block) (recounted block now (r.count + 1)) db.gate_blocks in
        rw (e, k, record_gate_block) (omega (arith, same), refl)
  ]
]

module _ (e : Encodings) (cfg : Config) (first : Db) where
  abbrev Balances : ℕ → Result RouteResult × Db → Type 0
  Balances n (err x, db) = Unit
  Balances n (ok r, db) = IsBalanced n first db r

  enqueued-Balances :
      (n : ℕ) (r : RouteResult) (db : Db) (x : Result (Job × Bool)) (db' : Db)
      → IsBalanced n first db r
      → Enqueues db (x, db')
      → Balances (n + 1) (enqueued_result (count_match r) x, db')
  enqueued-Balances n r db (err x) db' w h = tt
  enqueued-Balances n r db (ok (_, true)) db' w (jobs, blocks) = record {
    found = omega (arith, w.found);
    matched = omega (arith, w.matched);
    blocked = w.blocked;
    jobs = omega (arith, w.jobs, jobs);
    blocks = ap length blocks ∙ w.blocks;
  }
  enqueued-Balances n r db (ok (_, false)) db' w (jobs, blocks) = record {
    found = omega (arith, w.found);
    matched = omega (arith, w.matched);
    blocked = w.blocked;
    jobs = omega (arith, w.jobs, jobs);
    blocks = ap length blocks ∙ w.blocks;
  }

  blocked-Balances :
      (n : ℕ) (r : RouteResult) (db : Db) (x : Result (Bool × ℕ × Bool)) (db' : Db)
      → IsBalanced n first db r
      → Records db (x, db')
      → Balances (n + 1) (blocked_result (count_match r) x, db')
  blocked-Balances n r db (err x) db' w h = tt
  blocked-Balances n r db (ok (true, _, _)) db' w (blocks, jobs) = record {
    found = omega (arith, w.found);
    matched = omega (arith, w.matched);
    blocked = omega (arith, w.blocked);
    jobs = ap length jobs ∙ w.jobs;
    blocks = omega (arith, w.blocks, blocks);
  }
  blocked-Balances n r db (ok (false, _, _)) db' w (blocks, jobs) = record {
    found = omega (arith, w.found);
    matched = omega (arith, w.matched);
    blocked = omega (arith, w.blocked);
    jobs = ap length jobs ∙ w.jobs;
    blocks = omega (arith, w.blocks, blocks);
  }

  record_block-Records :
      (route : RouteConfig) (issue : IssueSnapshot) (drawn : Drawn) (db : Db)
      → Records db (record_block e route issue (evaluate_gate e route issue db) drawn db)
  unfolding record_block
  record_block-Records route issue drawn db = by_state (get_issue_state issue.issue_key db)
    where
      by_state :
          (state : Result (ℕ × ℕ))
          → Records db (elim state [
            | err x ↦ (err x, db)
            | ok (generation, transitions) ↦
                record_gate_block
                  (gate_block e route issue
                    (evaluate_gate e route issue db)
                    generation
                    drawn.block_at)
                  drawn.now
                  db
          ])
      by_state (err x) = tt
      by_state (ok (generation, transitions)) =
          record_gate_block-Records
            (gate_block e route issue (evaluate_gate e route issue db) generation drawn.block_at)
            drawn.now db

  route_matched-Balances :
      (n : ℕ) (route : RouteConfig) (issue : IssueSnapshot) (drawn : Drawn) (r : RouteResult)
      (db : Db)
      → IsBalanced n first db r
      → Balances (n + 1) (route_matched e route issue drawn r db)
  unfolding route_matched
  route_matched-Balances n route issue drawn r db w =
      elim (Bool-cases (evaluate_gate e route issue db).blocked) [
        | inl b ↦
            let (x, db') = record_block e route issue (evaluate_gate e route issue db) drawn db in
            rw b (blocked-Balances n r db x db' w (record_block-Records route issue drawn db))
        | inr b ↦
            let (x, db') = enqueue_job drawn.id (job_create e route issue) drawn.now db in
            rw b (
              enqueued-Balances n r db x db' w
                (enqueue_job-Enqueues drawn.id (job_create e route issue) drawn.now db))
      ]

  route_one-Balances :
      (n : ℕ) (issue : IssueSnapshot) (route : RouteConfig) (drawn : Drawn) (r : RouteResult)
      (db : Db)
      → IsBalanced n first db r
      → Balances (n + one_if (matches cfg route issue)) (route_one e cfg issue route drawn r db)
  unfolding route_one
  route_one-Balances n issue route drawn r db w = elim (Bool-cases (matches cfg route issue)) [
    | inl m ↦ rw m (route_matched-Balances n route issue drawn r db w)
    | inr m ↦ rw m (same_count w)
  ]
    where
      same_count : IsBalanced n first db r → IsBalanced (n + 0) first db r
      same_count w = subst (λ n. IsBalanced n first db r) (omega arith) w

  proceed-Balances :
      (n m : ℕ) (x : Result RouteResult × Db) (next : RouteResult → Db → Result RouteResult × Db)
      → Balances n x
      → ((r : RouteResult) (db : Db) → IsBalanced n first db r → Balances m (next r db))
      → Balances m (proceed x next)
  proceed-Balances n m (err x, db) next w step = tt
  proceed-Balances n m (ok r, db) next w step = step r db w

  as_many : {n m : ℕ} (x : Result RouteResult × Db) → n ≡ m → Balances n x → Balances m x
  as_many x same w = subst (λ n. Balances n x) same w

  module _ (drawn : ℕ → Drawn) where
    route_issue-Balances :
        (n : ℕ) (issue : IssueSnapshot) (routes : List RouteConfig) (turn : ℕ) (r : RouteResult)
        (db : Db)
        → IsBalanced n first db r
        → Balances
            (n + matching_routes cfg issue routes)
            (route_issue e cfg drawn issue routes turn r db)
    unfolding route_issue
    route_issue-Balances n issue [] turn r db w = as_many (ok r, db) (omega arith) w
    route_issue-Balances n issue (route ∷ routes) turn r db w = as_many _ (omega arith) (
        proceed-Balances _ _ (route_one e cfg issue route (drawn turn) r db)
          (route_issue e cfg drawn issue routes (turn + 1))
          (route_one-Balances n issue route (drawn turn) r db w)
          (route_issue-Balances (n + one_if (matches cfg route issue)) issue routes (turn + 1)))

    route_issues-Balances :
        (n : ℕ) (issues : List IssueSnapshot) (turn : ℕ) (r : RouteResult) (db : Db)
        → IsBalanced n first db r
        → Balances (n + matching_pairs cfg issues) (route_issues e cfg drawn issues turn r db)
    unfolding route_issues
    route_issues-Balances n [] turn r db w = as_many (ok r, db) (omega arith) w
    route_issues-Balances n (issue ∷ issues) turn r db w = as_many _ (omega arith) (
        proceed-Balances _ _ (route_issue e cfg drawn issue cfg.routes turn r db)
          (route_issues e cfg drawn issues (turn + length cfg.routes))
          (route_issue-Balances n issue cfg.routes turn r db w)
          (route_issues-Balances (n + matching_routes cfg issue cfg.routes) issues
            (turn + length cfg.routes)))

-- A pass that returns has found as many matches as there are pairs of a routable issue and a route
-- of the configuration that match; each match is counted as one job, created or existing, or as one
-- block, recorded or existing; the tables have as many jobs more as were created, and as many gate
-- blocks more as were recorded.
pub route-IsBalanced :
    (e : Encodings) (cfg : Config) (drawn : ℕ → Drawn) (db : Db) {r : RouteResult}
    → (route e cfg drawn db).0 ≡ ok r
    → IsBalanced (matching_pairs cfg (list_routable_issues db)) db (route e cfg drawn db).1 r
unfolding route
route-IsBalanced e cfg drawn db {r} h =
    let issues = list_routable_issues db in
    let out = route_issues e cfg drawn issues 0 (no_results (length issues)) db in
    subst (λ x. Balances e cfg db (matching_pairs cfg issues) (x, out.1)) h
      (as_many e cfg db out (omega arith) (
        route_issues-Balances e cfg db drawn 0 issues 0 (no_results (length issues)) db (record {
          found = refl;
          matched = refl;
          blocked = refl;
          jobs = omega arith;
          blocks = omega arith;
        })))
