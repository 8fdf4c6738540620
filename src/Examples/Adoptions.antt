-- ===== src/Examples/Adoptions.antt =====
-- The witness of an adoption: a launched job whose runner is gone.
use issueq.Prelude.{true, some, ◌≡◌, ◌≢◌, refl, String, pos, str_eq, eq_iff, false, is_blank}
use issueq.Model.{Job, LaunchSpecRecord, LaunchRecord}
use issueq.Store.{JobRow, Db, not_owner, err, ok}
use issueq.Store.Scan.{scan_job}
use issueq.Store.Claim.{claimed_row, claim_next_job}
use issueq.Store.Launch.{
  launch_spec_row, persist_launch_spec_owned, launching_row, mark_job_launching_owned,
  launch_record_row, persist_launch_record_owned,
}
use issueq.Store.Owned.{find_job}
use issueq.Workflow.Observe.{durable, supervisor_record, durable_launch_record}
use issueq.Workflow.Durable.{durable_launch_record-stale}
use issueq.Examples.Sample.{printing}
use issueq.Store.Stale.{
  is_stale_durable, adopted_row, adopt_stale_running_job, mark_stale_running_job_unknown,
}
use issueq.Store.Queue.{new_job_row, enqueue_job}
use issueq.Store.Steps.{
  here, then, enqueues, claims, prepares, launches, records, Reaches-IsWellFormed,
}
use issueq.Store.WellFormed.{IsWellFormed}
use issueq.Leasing.Adoption.{adopt_stale_running_job-once}
use issueq.Examples.Data.{low_job, high_job, runner_a, runner_b, any_job, one_claimed}

abbrev launch_spec : LaunchSpecRecord
launch_spec = record {
  supervisor_kind = "wrapper";
  launch_token = "token";
  launch_spec_path = "spec.json";
  context_path = "context.json";
  result_path = "result.json";
  stdout_path = "out";
  stderr_path = "err";
  run_metadata_path = "run.json";
  timeout_at = 500;
}

abbrev launch : LaunchRecord
launch = record {
  supervisor_kind = "wrapper";
  supervisor_id = "s1";
  launch_token = "token";
  pid = pos 7;
  pgid = pos 7;
  process_started_at = 42;
  run_metadata_path = "run.json";
  launch_spec_path = "spec.json";
  context_path = "context.json";
  result_path = "result.json";
  stdout_path = "out";
  stderr_path = "err";
  timeout_at = 500;
}

abbrev launched : Db
launched =
    (persist_launch_record_owned "job_2" "a-1" launch 42 42
      (mark_job_launching_owned "job_2" "a-1" "token" 41 41
        (persist_launch_spec_owned "job_2" "a-1" launch_spec 40 40 one_claimed).1).1).1

launched-IsWellFormed : IsWellFormed launched
launched-IsWellFormed = Reaches-IsWellFormed launched (
    then
      (then
        (then
          (then (then (then here (enqueues "job_1" low_job 10)) (enqueues "job_2" high_job 20))
            (claims runner_a any_job (pos 2) (pos 100) 30))
          (prepares "job_2" "a-1" launch_spec 40 40))
        (launches "job_2" "a-1" "token" 41 41))
      (records "job_2" "a-1" launch 42 42))

abbrev launched_row : JobRow
launched_row = launch_record_row launch 42 (
    launching_row 41 (
      launch_spec_row launch_spec 40
        (claimed_row runner_a 30 130 (new_job_row "job_2" high_job 20))))

launched_row-stored : find_job "job_2" launched ≡ some launched_row
unfolding persist_launch_record_owned mark_job_launching_owned persist_launch_spec_owned enqueue_job
    claim_next_job is_blank
launched_row-stored = refl

launched_row-stale : is_stale_durable 200 100 launched launched_row ≡ true
unfolding is_stale_durable persist_launch_record_owned mark_job_launching_owned
    persist_launch_spec_owned enqueue_job claim_next_job is_blank
launched_row-stale = refl

launched_row-wrapper : launched_row.supervisor_kind ≡ some "wrapper"
unfolding launch_record_row
launched_row-wrapper = refl

durable_launch_record-stale_example :
    durable_launch_record printing (scan_job launched_row)
    ≡ durable (supervisor_record (scan_job launched_row))
durable_launch_record-stale_example =
    durable_launch_record-stale 200 100 launched launched_row printing launched_row-wrapper
      launched_row-stale

abbrev adopted_job : Job
adopted_job = scan_job (
    adopted_row runner_b 300 200 (
      launch_record_row launch 42 (
        launching_row 41 (
          launch_spec_row launch_spec 40
            (claimed_row runner_a 30 130 (new_job_row "job_2" high_job 20))))))

job_2-adopted :
    (adopt_stale_running_job "job_2" "a-1" runner_b (pos 100) 200 100 launched).0 ≡ ok adopted_job
unfolding adopt_stale_running_job persist_launch_record_owned mark_job_launching_owned
    persist_launch_spec_owned enqueue_job claim_next_job is_blank
job_2-adopted = refl

names_differ : (s t : String) → str_eq s t ≡ false → s ≢ t
names_differ s t h e = let k = (eq_iff s t).1 e in cc

blank_a : (is_blank "a" ≡ false) × (is_blank "a-1" ≡ false)
unfolding is_blank
blank_a = (refl, refl)

abbrev adopted : Db
adopted = (adopt_stale_running_job "job_2" "a-1" runner_b (pos 100) 200 100 launched).1

-- The runner `a` itself comes too late.
adopt_stale_running_job-once_example :
    (adopt_stale_running_job "job_2" "a-1" runner_a (pos 50) 400 350 adopted
      ≡ (err not_owner, adopted))
    × (mark_stale_running_job_unknown "job_2" "a-1" 400 350 adopted ≡ (err not_owner, adopted))
adopt_stale_running_job-once_example =
    adopt_stale_running_job-once "job_2" "a-1" runner_b (pos 100) 200 100 launched runner_a (pos 50)
      400 350 launched-IsWellFormed (names_differ "b-1" "a-1" refl) blank_a.0 blank_a.1 refl
      job_2-adopted
