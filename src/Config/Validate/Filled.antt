-- ===== src/Config/Validate/Filled.antt =====
-- Which checks of `Validate` a configuration with defaults filled in passes.
use issueq.Prelude.{pos, ◌≡◌, ◌≢◌, true, false, not, ◌&&◌, ◌||◌, leb_ℤ, str_eq, is_blank}
use issueq.Config.{Config}
use issueq.Config.Validate.{valid_env_name}

-- The repository and the database are named, and each setting that has a default is left out or is one
-- that the program can work with.
pub record IsUsable (c : Config) : Type 0 where
  pub owner : is_blank c.github.owner ≡ false
  pub repo : is_blank c.github.repo ≡ false
  pub sqlite_path : is_blank c.queue.sqlite_path ≡ false
  pub token_env :
      (str_eq c.github.token_env ""
        || (not (is_blank c.github.token_env) && valid_env_name c.github.token_env))
      ≡ true
  pub backend : (str_eq c.queue.backend "" || str_eq c.queue.backend "sqlite") ≡ true
  pub workdir : (str_eq c.workdir_path "" || not (is_blank c.workdir_path)) ≡ true
  pub max_global : leb_ℤ (pos 0) c.queue.max_global_concurrency ≡ true
  pub lease : leb_ℤ (pos 0) c.queue.lease_duration ≡ true
  pub polling : leb_ℤ (pos 0) c.polling_interval ≡ true
  pub transitions : leb_ℤ (pos 0) c.workflow.max_transitions_per_issue ≡ true

-- Each setting of `c` that is given is as it was in `d`.
pub record HasGiven (c d : Config) : Type 0 where
  pub token_env : str_eq c.github.token_env "" ≡ false → d.github.token_env ≡ c.github.token_env
  pub host : str_eq c.github.host "" ≡ false → d.github.host ≡ c.github.host
  pub backend : str_eq c.queue.backend "" ≡ false → d.queue.backend ≡ c.queue.backend
  pub workdir : str_eq c.workdir_path "" ≡ false → d.workdir_path ≡ c.workdir_path
  pub max_global :
      c.queue.max_global_concurrency ≢ pos 0
      → d.queue.max_global_concurrency ≡ c.queue.max_global_concurrency
  pub lease : c.queue.lease_duration ≢ pos 0 → d.queue.lease_duration ≡ c.queue.lease_duration
  pub polling : c.polling_interval ≢ pos 0 → d.polling_interval ≡ c.polling_interval
  pub transitions :
      c.workflow.max_transitions_per_issue ≢ pos 0
      → d.workflow.max_transitions_per_issue ≡ c.workflow.max_transitions_per_issue
