-- ===== src/Store/Scan.antt =====
-- `scanJob`, `scanIssue` and `scanHandoff` of sqlite.go: a row read back as a domain value, NULL as
-- the zero value. `formatTime` and `parseTime` are the identity on the numbers that stand for times.
use issueq.Prelude.{pos, get_or}
use issueq.Model.{IssueSnapshot, Handoff, Job, JobEvent}
use issueq.Store.{IssueRow, JobRow, HandoffRow, JobEventRow}

unfoldable pub scan_job : JobRow → Job
scan_job r = record {
  id = r.id;
  issue_key = r.issue_key;
  route_name = r.route_name;
  kind = r.kind;
  status = r.status;
  priority = r.priority;
  attempts = r.attempts;
  attempt_generation = r.attempt_generation;
  attempt_scope_hash = get_or r.attempt_scope_hash "";
  dedupe_key = r.dedupe_key;
  available_at = r.available_at;
  locked_by = get_or r.locked_by "";
  runner_instance_id = get_or r.runner_instance_id "";
  lease_until = r.lease_until;
  pid = get_or r.pid (pos 0);
  pgid = get_or r.pgid (pos 0);
  supervisor_kind = get_or r.supervisor_kind "";
  supervisor_id = get_or r.supervisor_id "";
  launch_token = get_or r.launch_token "";
  launch_state = r.launch_state;
  process_started_at = r.process_started_at;
  run_metadata_path = get_or r.run_metadata_path "";
  launch_spec_path = get_or r.launch_spec_path "";
  context_path = get_or r.context_path "";
  result_path = get_or r.result_path "";
  stdout_path = get_or r.stdout_path "";
  stderr_path = get_or r.stderr_path "";
  timeout_at = r.timeout_at;
  created_at = r.created_at;
  updated_at = r.updated_at;
  started_at = r.started_at;
  finished_at = r.finished_at;
  last_error = get_or r.last_error "";
}

unfoldable pub scan_issue : IssueRow → IssueSnapshot
scan_issue r = record {
  issue_key = r.issue_key;
  node_id = r.node_id;
  host = r.host;
  owner = r.owner;
  repo = r.repo;
  number = r.number;
  title = r.title;
  body = r.body;
  labels = r.labels_json;
  state = r.state;
  github_updated_at = r.github_updated_at;
  synced_at = r.synced_at;
}

unfoldable pub scan_handoff : HandoffRow → Handoff
scan_handoff r = record {
  id = r.id;
  issue_key = r.issue_key;
  route_name = r.route_name;
  decision = r.decision;
  next_route = get_or r.next_route "";
  source_kind = get_or r.source_kind "";
  source_key = get_or r.source_key "";
  source_fingerprint = get_or r.source_fingerprint "";
  target_kind = get_or r.target_kind "";
  target_key = get_or r.target_key "";
  payload_json = r.payload_json;
  created_at = r.created_at;
}

unfoldable pub scan_job_event : JobEventRow → JobEvent
scan_job_event r = record {
  id = r.id;
  job_id = get_or r.job_id "";
  issue_key = get_or r.issue_key "";
  event_type = r.event_type;
  message = get_or r.message "";
  data_json = get_or r.data_json "";
  created_at = r.created_at;
}
