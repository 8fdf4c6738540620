-- ===== src/Runner.antt =====
-- internal/runner/runner.go: the files of a job, and the environment of its command. The environment
-- of this process, and the paths that `filepath.Join` makes, are parameters. A Go map is the list of its
-- pairs, in the order in which the keys were added; Go's loop over it has no order.
pub mod Environment
use Prim.Native.Char.{code}
use issueq.Prelude.{
  ℕ, ℤ, pos, String, Option, none, some, List, [], ◌∷◌, ◌++◌, ◌==◌, ltb, if◌then◌else◌, str_eq,
  append,
}
use issueq.Model.{Job, IssueSnapshot}
use issueq.Config.{Config, RouteConfig}

pub record Paths : Type 0 where
  pub dir : String
  pub context_path : String
  pub result_path : String
  pub stdout_path : String
  pub stderr_path : String

-- What the wrapper hands to the job's command.
pub record JobContext : Type 0 where
  pub id : String
  pub route : String
  pub kind : String
  pub attempt : ℕ
  pub max_attempts : ℤ

pub record Context : Type 0 where
  pub issue : IssueSnapshot
  pub job : JobContext
  pub runner_id : String
  pub runner_name : String

-- `os.Environ` and `os.LookupEnv`
pub record Process : Type 0 where
  pub environ : List String
  pub lookup_env : String → Option String

unfoldable pub prepare_paths : (List String → String) → String → String → Paths
prepare_paths join workdir job_id =
    let dir = join (workdir ∷ "jobs" ∷ job_id ∷ []) in
    record {
      dir = dir;
      context_path = join (dir ∷ "context.json" ∷ []);
      result_path = join (dir ∷ "result.json" ∷ []);
      stdout_path = join (dir ∷ "stdout.log" ∷ []);
      stderr_path = join (dir ∷ "stderr.log" ∷ []);
    }

unfoldable pub current_attempt : ℕ → ℕ
current_attempt attempts = if ltb attempts 1 then 1 else attempts

abbrev pub Env : Type 0
Env = List (String × String)

abbrev pub set_env : String → String → Env → Env
set_env name text [] = (name, text) ∷ []
set_env name text ((k, v) ∷ env) =
    let rest = set_env name text env in if str_eq k name then (k, text) ∷ env else (k, v) ∷ rest

abbrev pub delete_env : String → Env → Env
delete_env name [] = []
delete_env name ((k, v) ∷ env) =
    let rest = delete_env name env in if str_eq k name then rest else (k, v) ∷ rest

after_first : String → Option (String × String) → Option (String × String)
after_first first none = none
after_first first (some (before, after)) = some (append first before, after)

-- `strings.Cut(pair, "=")`; `none` if there is no separator.
unfoldable pub cut_pair : String → Option (String × String)
unfolding after_first
cut_pair String.[] = none
cut_pair (String.◌∷◌ c s) =
    let rest = cut_pair s in
    if code c == 61 then some ("", s) else after_first (String.◌∷◌ c String.[]) rest

abbrev pub set_pair : Option (String × String) → Env → Env
set_pair none env = env
set_pair (some (k, v)) env = set_env k v env

-- The loop over the environment of this process.
unfoldable pub inherit_all : List String → Env → Env
unfolding cut_pair
inherit_all [] env = env
inherit_all (pair ∷ pairs) env = inherit_all pairs (set_pair (cut_pair pair) env)

abbrev pub set_found : String → Option String → Env → Env
set_found name none env = env
set_found name (some text) env = set_env name text env

-- The loop over the names that the configuration passes on.
unfoldable pub pass_all : Process → String → List String → Env → Env
pass_all os token_env [] env = env
pass_all os token_env (name ∷ names) env =
    pass_all os token_env names
      (if str_eq name token_env then env else set_found name (os.lookup_env name) env)

-- The assignments of one list of names and values.
unfoldable pub set_all : List (String × String) → Env → Env
set_all [] env = env
set_all ((k, v) ∷ more) env = set_all more (set_env k v env)

unfoldable pub own_variables : (ℤ → String) → Job → IssueSnapshot → Paths → List (String × String)
unfolding current_attempt
own_variables decimal job issue paths =
    ("ISSUEQ_JOB_ID", job.id)
    ∷ ("ISSUEQ_ROUTE", job.route_name)
    ∷ ("ISSUEQ_KIND", job.kind)
    ∷ ("ISSUEQ_ATTEMPT", decimal (pos (current_attempt job.attempts)))
    ∷ ("ISSUEQ_CONTEXT_PATH", paths.context_path)
    ∷ ("ISSUEQ_RESULT_PATH", paths.result_path)
    ∷ ("ISSUEQ_ISSUE_KEY", issue.issue_key)
    ∷ ("GITHUB_HOST", issue.host)
    ∷ ("GITHUB_OWNER", issue.owner)
    ∷ ("GITHUB_REPO", issue.repo)
    ∷ ("GITHUB_ISSUE_NUMBER", decimal issue.number)
    ∷ []

-- The map that `BuildEnv` fills.
unfoldable pub env_of :
    Process → (ℤ → String) → Config → RouteConfig → Job → IssueSnapshot → Paths → Env
unfolding inherit_all pass_all set_all own_variables
env_of os decimal cfg route job issue paths =
    let inherited = if cfg.runner.env_inherit then inherit_all os.environ [] else [] in
    let passed =
      pass_all os cfg.github.token_env (cfg.runner.env_pass ++ route.job.env_pass) inherited in
    set_all (own_variables decimal job issue paths) (delete_env cfg.github.token_env passed)

abbrev pub env_pairs : Env → List String
env_pairs [] = []
env_pairs ((k, v) ∷ env) = append k (append "=" v) ∷ env_pairs env

unfoldable pub build_env :
    Process → (ℤ → String) → Config → RouteConfig → Job → IssueSnapshot → Paths → List String
unfolding env_of
build_env os decimal cfg route job issue paths =
    env_pairs (env_of os decimal cfg route job issue paths)
