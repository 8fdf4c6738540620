-- ===== src/Examples/Outer.antt =====
-- Test data: a world in which every call outside succeeds, with one job claimed for an approved issue.
use issueq.Prelude.{pos, Bool, false, none, some, [], ◌∷◌}
use issueq.Model.{JobCreate, Job}
use issueq.Config.{ActionConfig, JobConfig, RouteConfig, Config}
use issueq.Supervisor.{LaunchSpec, LaunchRecord}
use issueq.Supervisor
use issueq.Store.{Db}
use issueq.Store.Scan.{scan_job}
use issueq.Store.Claim.{claim_next_job, claimed_row}
use issueq.Store.Steps.{empty_db}
use issueq.Store.{JobRow}
use issueq.Store.Queue.{new_job_row, enqueue_job}
use issueq.Effects.{World, Outside, replied}
use issueq.Workflow.Launch.Steps.{LaunchInput}
use issueq.Handoff.{EndpointBlock, Envelope, HandoffText}
use issueq.Poller.{PollClient}
use issueq.JobWrapper.{Spec}
use issueq.Dispatcher.{Wave, WaveConfig, new_wave}
use issueq.Examples.Sample.{
  encodings, printing, no_files, no_action, agent_job, build_route, config, ready_issue,
  approved_db,
}
use issueq.Examples.Data.{runner_a, any_job}

-- The route labels the issue when a job starts.
abbrev pub doing : ActionConfig
doing = record no_action { labels_add = "doing" ∷ []; comment = "started" }

abbrev pub doing_job : JobConfig
doing_job = record agent_job { on_start = doing; on_success = doing }

abbrev pub doing_route : RouteConfig
doing_route = record build_route { job = doing_job }

abbrev pub doing_config : Config
doing_config = record config { routes = doing_route ∷ [] }

abbrev pub issue_job : JobCreate
issue_job = record {
  issue_key = "k";
  route_name = "build";
  kind = "agent";
  priority = pos 1;
  dedupe_key = "k1";
  available_at = 0;
}

abbrev pub queued_db : Db
queued_db = (enqueue_job "job_1" issue_job 10 approved_db).1

abbrev pub claimed_db : Db
claimed_db = (claim_next_job runner_a any_job (pos 2) (pos 100) 30 queued_db).1

abbrev pub claimed_job : Job
claimed_job = scan_job (claimed_row runner_a 30 130 (new_job_row "job_1" issue_job 10))

abbrev pub run_of : LaunchSpec → LaunchRecord
run_of spec = record {
  kind = "wrapper";
  id = "7";
  job_id = spec.job_id;
  launch_token = spec.launch_token;
  pid = pos 7;
  pgid = pos 7;
  process_started_at = 41;
  metadata_path = spec.metadata_path;
  started_at = 41;
  timeout_at = 90;
}

abbrev pub outside : Outside
outside = record {
  encodings = encodings;
  printing = printing;
  lower_case = λ s. s;
  clock = λ n. 40;
  new_id = λ n. "event";
  driver = λ n. none;
  files = λ n. no_files;
  json = record {
    fields = λ s. none;
    result_action = λ s. none;
    quoted = λ s. s;
    read_failure = λ s. s;
    parse_failure = λ s. s;
  };
  get_issue = λ n number. replied ready_issue;
  write_github = λ n. none;
  process = record { environ = "HOME=/h" ∷ []; lookup_env = λ s. some "v" };
  join = λ parts. "p";
  abs = λ n path. replied path;
  base_name = λ s. s;
  mkdir_all = λ n path. none;
  marshal_context = λ n c. replied "{}";
  write_file = λ n path text. none;
  new_token = none;
  ulid = λ n. replied "1";
  start = λ n spec. replied (run_of spec);
  stop = λ n run. none;
  inspect = λ n run. replied (record {
    state = Supervisor.RunState.running;
    exit_code = pos 0;
    has_exit_code = false;
    error = "";
    started_at = 0;
    finished_at = 0;
    result_path = "";
    stdout_path = "";
    stderr_path = "";
  });
}

abbrev pub claimed_world : World
claimed_world = record { db = claimed_db; turn = 0; trace = [] }

abbrev pub queued_world : World
queued_world = record { db = queued_db; turn = 0; trace = [] }

abbrev pub launch_input : LaunchInput
launch_input = record {
  cfg = doing_config;
  route = doing_route;
  job = claimed_job;
  issue = ready_issue;
  identity = runner_a;
  runner_id = "a";
  runner_name = "r";
}

abbrev pub wave_config : WaveConfig
wave_config = new_wave doing_config Bool.true runner_a (pos 1)

abbrev pub no_wave : Wave
no_wave = record {
  result = record { claimed = 0; succeeded = 0; failed = 0; skipped = 0; dead = 0 };
  active = [];
}

abbrev pub endpoint : EndpointBlock
endpoint = record {
  kind = "github_issue";
  key = "k";
  issue_key = "";
  issue_number = pos 0;
  fingerprint = "f";
  source_fingerprint = "";
  body_sha256 = "";
  updated_at = "";
}

abbrev pub envelope : Envelope
envelope = record {
  schema = "issueq-handoff/v1";
  schema_version = "";
  route = "plan";
  decision = "approve";
  next_route = "build";
  source = endpoint;
  target = endpoint;
}

abbrev pub handoff_text : HandoffText
handoff_text = record {
  blocks = λ s. s ∷ [];
  decode = λ s. some envelope;
  canonical = λ s. some s;
  sha256_hex = λ s. s;
  decimal = λ n. "1";
  quoted = λ s. s;
}

abbrev pub poll_client : PollClient
poll_client = record {
  open_issues = λ n. replied (ready_issue ∷ []);
  comments = λ n number. replied (record { body = "issueq-handoff/v1"; created_at = 7 } ∷ []);
}

abbrev pub spec : Spec
spec = record {
  version = pos 1;
  job_id = "job_1";
  launch_token = "t";
  command = "run" ∷ [];
  env = [];
  workdir = "";
  context_path = "c";
  result_path = "r";
  stdout_path = "o";
  stderr_path = "e";
  metadata_path = "m";
  timeout_seconds = pos 5;
}

-- A wave with the claimed job, and one that is gone.
abbrev pub active_wave : Wave
active_wave = record no_wave { active = claimed_job.id ∷ "job_2" ∷ [] }

-- The claimed job, and another one that waits.
abbrev pub two_jobs_world : World
two_jobs_world = record claimed_world {
  db = (enqueue_job "job_2" (record issue_job { dedupe_key = "k2" }) 50 claimed_db).1;
}

abbrev pub claimed_wave : Wave
claimed_wave = record no_wave { active = claimed_job.id ∷ [] }

abbrev pub empty_world : World
empty_world = record { db = empty_db; turn = 0; trace = [] }

-- Another runner, with the same job.
abbrev pub foreign_input : LaunchInput
foreign_input = record launch_input { identity = record { runner_id = "b"; instance_id = "b-1" } }

abbrev pub row_of_a : JobRow
row_of_a = claimed_row runner_a 30 130 (new_job_row "job_1" issue_job 10)
