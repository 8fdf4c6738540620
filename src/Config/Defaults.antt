-- ===== src/Config/Defaults.antt =====
-- config.go: `ApplyDefaults`. A nil slice of names is told from an empty one by a flag; the defaults
-- are the constants that the code names.
use issueq.Prelude.{ℤ, pos, String, Bool, [], ◌∷◌, if◌then◌else◌, zero, str_eq}
use issueq.Config.{Config}

abbrev pub default_polling : ℤ
default_polling = pos 180000000000

abbrev pub default_lease_duration : ℤ
default_lease_duration = pos 1800000000000

-- The number, or the default if it is 0.
abbrev pub number_or : ℤ → ℤ → ℤ
number_or (pos zero) d = d
number_or n d = n

abbrev pub text_or : String → String → String
text_or s d = if str_eq s "" then d else s

unfoldable pub apply_defaults : Bool → Config → Config
apply_defaults env_pass_is_nil c = record c {
  queue = record c.queue {
    backend = text_or c.queue.backend "sqlite";
    lease_duration = number_or c.queue.lease_duration default_lease_duration;
    max_global_concurrency = number_or c.queue.max_global_concurrency (pos 1);
  };
  workdir_path = text_or c.workdir_path "./.issueq";
  polling_interval = number_or c.polling_interval default_polling;
  github = record c.github {
    host = text_or c.github.host "github.com";
    token_env = text_or c.github.token_env "GITHUB_TOKEN";
  };
  runner = record c.runner {
    env_pass = if env_pass_is_nil then "PATH" ∷ "HOME" ∷ [] else c.runner.env_pass;
  };
  workflow = record c.workflow {
    max_transitions_per_issue = number_or c.workflow.max_transitions_per_issue (pos 10);
  };
}
