-- ===== src/Config/Validate/Whole.antt =====
-- config.go: the loops of `Validate` over the routes, and `Validate`.
use issueq.Prelude.{
  ℕ, suc, pos, String, Bool, not, List, [], ◌∷◌, ◌++◌, ◌&&◌, leb_ℤ, ltb_ℤ, if◌then◌else◌, str_eq,
  is_blank, trim_space, contains, append,
}
use issueq.Config.{RouteConfig, Config}
use issueq.Config.Validate.{
  Texts, valid_env_name, error_if, validate_names, validate_env_pass, validate_action,
  validate_predicate, validate_gate, validate_job,
}

-- The loop that collects the names of the routes.
unfoldable pub route_names : List RouteConfig → List String
route_names [] = []
route_names (r ∷ rs) =
    let rest = route_names rs in if is_blank r.name then rest else trim_space r.name ∷ rest

-- `RequireGitHubToken`, and `os.Getenv`.
pub record ValidateOptions : Type 0 where
  pub require_github_token : Bool
  pub getenv : String → String

module _ (t : Texts) where
  abbrev validate_route_name : String → List String → RouteConfig → List String
  validate_route_name prefix seen r =
      if is_blank r.name
      then append prefix ".name is required" ∷ []
      else error_if (contains seen (trim_space r.name))
          (append prefix (append ".name " (append (t.quoted (trim_space r.name)) " is duplicated")))

  -- The loop over the routes, with the names validated so far.
  unfoldable pub validate_routes : Config → List String → ℕ → List RouteConfig → List String
  unfolding validate_predicate validate_gate validate_job route_names
  validate_routes c seen i [] = []
  validate_routes c seen i (r ∷ rs) =
      let prefix = append "routes[" (append (t.number i) "]") in
      validate_route_name prefix seen r
      ++ validate_predicate t (append prefix ".when") r.when
      ++ validate_gate t (append prefix ".gate") r.gate (route_names c.routes)
      ++ validate_job t (append prefix ".job") r.job c.github.token_env
      ++ validate_routes c (if is_blank r.name then seen else trim_space r.name ∷ seen) (suc i) rs

  abbrev pub validate_token_env : ValidateOptions → String → List String
  validate_token_env opts name =
      if is_blank name
      then "github.token_env is required" ∷ []
      else if not (valid_env_name name)
      then append "github.token_env "
          (append (t.quoted name) " is not a valid environment variable name")
        ∷ []
      else error_if (opts.require_github_token && is_blank (opts.getenv name))
          (append "environment variable " (append name " named by github.token_env is not set"))

  unfoldable pub validate : ValidateOptions → Config → List String
  unfolding valid_env_name validate_names validate_action validate_routes
  validate opts c =
      error_if (is_blank c.github.owner) "github.owner is required"
      ++ error_if (is_blank c.github.repo) "github.repo is required"
      ++ validate_token_env opts c.github.token_env
      ++ error_if (is_blank c.queue.backend) "queue.backend is required"
      ++ error_if (not (str_eq c.queue.backend "sqlite"))
          (append "queue.backend " (append (t.quoted c.queue.backend) " is not supported in v1"))
      ++ error_if (is_blank c.queue.sqlite_path) "queue.sqlite.path is required"
      ++ error_if (leb_ℤ c.queue.max_global_concurrency (pos 0))
          "queue.max_global_concurrency must be positive"
      ++ error_if (leb_ℤ c.queue.lease_duration (pos 0)) "queue.lease_duration must be positive"
      ++ error_if (leb_ℤ c.polling_interval (pos 0)) "polling.interval must be positive"
      ++ error_if (is_blank c.workdir_path) "workdir.path is required"
      ++ error_if (ltb_ℤ c.workflow.max_transitions_per_issue (pos 0))
          "workflow.max_transitions_per_issue must be non-negative"
      ++ validate_env_pass t "runner.env.pass" c.runner.env_pass c.github.token_env
      ++ validate_action t "workflow.on_transitions_exceeded" c.workflow.on_transitions_exceeded
      ++ validate_routes c [] 0 c.routes
