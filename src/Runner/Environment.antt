-- ===== src/Runner/Environment.antt =====
-- Which variables the command of a job sees.
use issueq.Prelude.{
  ℤ, String, ◌≡◌, refl, sym, ap, ◌∙◌, Bool, true, false, not, Option, none, some, List, [], ◌∷◌,
  ◌++◌, ◌&&◌, ◌||◌, Bool-cases, inl, inr, if◌then◌else◌, str_eq, contains, arith,
}
use issueq.Prelude.Text.Equal.{same_text, text_same, other_text}
use issueq.Model.{Job, IssueSnapshot}
use issueq.Config.{Config, RouteConfig}
use issueq.Runner.{
  Paths, Process, Env, set_env, delete_env, cut_pair, set_pair, inherit_all, set_found, pass_all,
  set_all, own_variables, env_of,
}

abbrev pub has_variable : Env → String → Bool
has_variable [] name = false
has_variable ((k, v) ∷ env) name = str_eq k name || has_variable env name

has_variable-set_env :
    (x text : String) (env : Env) (n : String)
    → has_variable (set_env x text env) n ≡ (has_variable env n || str_eq x n)
has_variable-set_env x text [] n = ground arith
has_variable-set_env x text ((k, v) ∷ env) n =
    let ih = has_variable-set_env x text env n in
    elim (Bool-cases (str_eq k x)) [
      | inl e ↦
          let at : str_eq k n ≡ str_eq x n = ap (λ z. str_eq z n) (same_text e) in ground arith
      | inr e ↦ ground arith
    ]

has_variable-delete_env :
    (x : String) (env : Env) (n : String)
    → has_variable (delete_env x env) n ≡ (has_variable env n && not (str_eq x n))
has_variable-delete_env x [] n = refl
has_variable-delete_env x ((k, v) ∷ env) n =
    let ih = has_variable-delete_env x env n in
    elim (Bool-cases (str_eq k x)) [
      | inl e ↦
          let at : str_eq k n ≡ str_eq x n = ap (λ z. str_eq z n) (same_text e) in ground arith
      | inr e ↦ elim (Bool-cases (str_eq k n)) [
        | inl h ↦ let other = other_text k x n e h in ground arith
        | inr h ↦ ground arith
      ]
    ]

-- The variables that this process has.
abbrev pair_named : Option (String × String) → String → Bool
pair_named none n = false
pair_named (some (k, v)) n = str_eq k n

abbrev pub inherited : List String → String → Bool
unfolding cut_pair
inherited [] n = false
inherited (pair ∷ pairs) n = pair_named (cut_pair pair) n || inherited pairs n

has_variable-set_pair :
    (p : Option (String × String)) (env : Env) (n : String)
    → has_variable (set_pair p env) n ≡ (has_variable env n || pair_named p n)
has_variable-set_pair none env n = ground arith
has_variable-set_pair (some (k, v)) env n = has_variable-set_env k v env n

has_variable-inherit_all :
    (pairs : List String) (env : Env) (n : String)
    → has_variable (inherit_all pairs env) n ≡ (has_variable env n || inherited pairs n)
unfolding inherit_all
has_variable-inherit_all [] env n = ground arith
has_variable-inherit_all (pair ∷ pairs) env n =
    let ih = has_variable-inherit_all pairs (set_pair (cut_pair pair) env) n in
    let at = has_variable-set_pair (cut_pair pair) env n in ground arith

abbrev pub is_set : Option String → Bool
is_set none = false
is_set (some text) = true

has_variable-set_found :
    (x : String) (o : Option String) (env : Env) (n : String)
    → has_variable (set_found x o env) n ≡ (has_variable env n || (str_eq x n && is_set o))
has_variable-set_found x none env n = ground arith
has_variable-set_found x (some text) env n =
    let at = has_variable-set_env x text env n in ground arith

-- A name that is passed on, if it is set and is not the token's.
abbrev passes : Process → String → List String → String → Bool
passes os token_env names n =
    contains names n && is_set (os.lookup_env n) && not (str_eq token_env n)

has_variable-pass_all :
    (os : Process) (token_env : String) (names : List String) (env : Env) (n : String)
    → has_variable (pass_all os token_env names env) n
      ≡ (has_variable env n || passes os token_env names n)
unfolding pass_all
has_variable-pass_all os token_env [] env n = ground arith
has_variable-pass_all os token_env (x ∷ xs) env n = elim (Bool-cases (str_eq x token_env)) [
  | inl e ↦
      let ih = has_variable-pass_all os token_env xs env n in
      rw e (elim (Bool-cases (str_eq x n)) [
        | inl k ↦
            let at : str_eq token_env n ≡ true = text_same (sym (same_text e) ∙ same_text k) in
            ground arith
        | inr k ↦ ground arith
      ])
  | inr e ↦
      let ih = has_variable-pass_all os token_env xs (set_found x (os.lookup_env x) env) n in
      let at = has_variable-set_found x (os.lookup_env x) env n in
      rw e (elim (Bool-cases (str_eq x n)) [
        | inl k ↦
            let set : is_set (os.lookup_env x) ≡ is_set (os.lookup_env n) =
              ap (λ z. is_set (os.lookup_env z)) (same_text k) in
            let other : str_eq token_env n ≡ false = other_text x token_env n e k in ground arith
        | inr k ↦ ground arith
      ])
]

has_variable-set_all :
    (more env : Env) (n : String)
    → has_variable (set_all more env) n ≡ (has_variable env n || has_variable more n)
unfolding set_all
has_variable-set_all [] env n = ground arith
has_variable-set_all ((k, v) ∷ more) env n =
    let ih = has_variable-set_all more (set_env k v env) n in
    let at = has_variable-set_env k v env n in ground arith

has_variable-base :
    (inherit : Bool) (environ : List String) (n : String)
    → has_variable (if inherit then inherit_all environ [] else []) n
      ≡ (inherit && inherited environ n)
has_variable-base false environ n = refl
has_variable-base true environ n = has_variable-inherit_all environ [] n

arranged :
    (b c s t o : Bool)
    → (((b || (c && s && not t)) && not t) || o) ≡ (o || (not t && (b || (c && s))))
arranged b c s t o = ground arith

-- The variables that the program sets itself.
abbrev pub is_own : String → Bool
is_own n =
    contains
      ("ISSUEQ_JOB_ID" ∷ "ISSUEQ_ROUTE" ∷ "ISSUEQ_KIND" ∷ "ISSUEQ_ATTEMPT" ∷ "ISSUEQ_CONTEXT_PATH"
        ∷ "ISSUEQ_RESULT_PATH" ∷ "ISSUEQ_ISSUE_KEY" ∷ "GITHUB_HOST" ∷ "GITHUB_OWNER" ∷ "GITHUB_REPO"
        ∷ "GITHUB_ISSUE_NUMBER" ∷ [])
      n

-- The command of a job sees exactly the variables that the program sets itself and, but for the
-- variable with the token of GitHub, those that this process has if it inherits them, and those
-- that the configuration passes on and this process has set.
pub env_of_iff :
    (os : Process) (decimal : ℤ → String) (cfg : Config) (route : RouteConfig) (job : Job)
    (issue : IssueSnapshot) (paths : Paths) (n : String)
    → has_variable (env_of os decimal cfg route job issue paths) n ≡ (
        is_own n
        || (not (str_eq cfg.github.token_env n)
            && ((cfg.runner.env_inherit && inherited os.environ n)
                || (contains (cfg.runner.env_pass ++ route.job.env_pass) n
                    && is_set (os.lookup_env n)))))
unfolding env_of own_variables
env_of_iff os decimal cfg route job issue paths n =
    let token_env = cfg.github.token_env in
    let base : Env = if cfg.runner.env_inherit then inherit_all os.environ [] else [] in
    let names : List String = cfg.runner.env_pass ++ route.job.env_pass in
    let passed : Env = pass_all os token_env names base in
    let own = own_variables decimal job issue paths in
    has_variable-set_all own (delete_env token_env passed) n
    ∙ ap (λ z. z || is_own n)
        (has_variable-delete_env token_env passed n
          ∙ ap (λ z. z && not (str_eq token_env n))
              (has_variable-pass_all os token_env names base n
                ∙ ap (λ z. z || passes os token_env names n)
                    (has_variable-base cfg.runner.env_inherit os.environ n)))
    ∙ arranged (cfg.runner.env_inherit && inherited os.environ n) (contains names n)
        (is_set (os.lookup_env n)) (str_eq token_env n) (is_own n)
