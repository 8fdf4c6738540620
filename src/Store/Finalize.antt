-- ===== src/Store/Finalize.antt =====
-- sqlite.go: `FinalizeJobOwned`.
use issueq.Prelude.{String, Bool, true, false, Option, none, some, if◌then◌else◌}
use issueq.Sql.{update_where, count_where, keep_if_empty, null_string}
use issueq.Model.{Time, is_zero, JobFinalize}
use issueq.Store.{JobRow, Op}
use issueq.Store.Tx.{pure, ◌>>◌, transaction}
use issueq.Store.Owned.{is_owned, assert_job_owned_tx}
use issueq.Store.Attempts.{update_owned_tx, reverse_attempt_tx}

unfoldable pub finalized_row : JobFinalize → Time → JobRow → JobRow
finalized_row result finished r = record r {
  status = result.status;
  locked_by = none;
  runner_instance_id = none;
  lease_until = none;
  pid = none;
  pgid = none;
  supervisor_kind = none;
  supervisor_id = none;
  launch_token = none;
  launch_state = none;
  process_started_at = none;
  run_metadata_path = none;
  launch_spec_path = none;
  timeout_at = none;
  result_path = keep_if_empty result.result_path r.result_path;
  stdout_path = keep_if_empty result.stdout_path r.stdout_path;
  stderr_path = keep_if_empty result.stderr_path r.stderr_path;
  finished_at = some finished;
  updated_at = finished;
  last_error = null_string result.last_error;
}

-- The clock readings of one call, in the order in which the code takes them; the first is used
-- only if the result has no time of its own.
pub record FinalizeClock : Type 0 where
  pub finished_at : Time
  pub checked_at : Time
  pub reversed_at : Time
  pub now : Time

abbrev pub finish_time : JobFinalize → FinalizeClock → Time
finish_time result clock =
    if is_zero result.finished_at then clock.finished_at else result.finished_at

-- `result.WorkStarted != nil && !*result.WorkStarted`
abbrev pub work_not_started : Option Bool → Bool
work_not_started (some false) = true
work_not_started _ = false

unfoldable pub finalize_job_owned : String → String → JobFinalize → FinalizeClock → Op (Unit {0})
unfolding assert_job_owned_tx reverse_attempt_tx finalized_row update_where count_where
finalize_job_owned job_id instance result clock = transaction do
  assert_job_owned_tx job_id instance clock.checked_at
  (if work_not_started result.work_started
      then reverse_attempt_tx job_id clock.reversed_at
      else pure tt)
  update_owned_tx (is_owned job_id instance clock.now)
      (finalized_row result (finish_time result clock))
