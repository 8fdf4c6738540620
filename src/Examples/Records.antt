-- ===== src/Examples/Records.antt =====
-- Witnesses of jobs, gate blocks and handoffs that are kept once.
use issueq.Prelude.{◌+◌, ◌≡◌, refl, true, false, some, All, is_blank}
use issueq.Model.{Job}
use issueq.Store.{HandoffRow, ok}
use issueq.Store.Scan.{scan_job, scan_handoff}
use issueq.Store.Queue.{new_job_row, enqueue_job}
use issueq.Store.Gates.{record_gate_block, mark_gate_block_action_applied}
use issueq.Store.Handoffs.{newest_before, matches_query, latest_matching_handoff, upsert_handoff}
use issueq.Store.Issues.{upsert_issue}
use issueq.Store.Steps.{empty_db}
use issueq.Records.Enqueue.{enqueue_job-idempotent}
use issueq.Records.Blocks.{restamped, record_gate_block-repeat, record_gate_block-marked}
use issueq.Records.Newest.{latest_matching_handoff-newest}
use issueq.Examples.Data.{low_job}
use issueq.Examples.Sample.{approval, issue_db, approved_db, plan_query, block}

abbrev job_1 : Job
job_1 = scan_job (new_job_row "job_1" low_job 10)

job_1-enqueued : (enqueue_job "job_1" low_job 10 empty_db).0 ≡ ok (job_1, true)
unfolding enqueue_job
job_1-enqueued = refl

enqueue_job-idempotent_example :
    enqueue_job "job_8" low_job 99 (enqueue_job "job_1" low_job 10 empty_db).1
    ≡ (ok (job_1, false), (enqueue_job "job_1" low_job 10 empty_db).1)
enqueue_job-idempotent_example =
    enqueue_job-idempotent "job_1" "job_8" low_job low_job 10 99 empty_db refl job_1-enqueued

block-recorded : (record_gate_block block 10 issue_db).0 ≡ ok (true, 1, false)
unfolding record_gate_block is_blank upsert_issue
block-recorded = refl

record_gate_block-repeat_example :
    (record_gate_block (restamped block 11 0) 12 (record_gate_block block 10 issue_db).1).0
    ≡ ok (false, 1 + 1, false)
record_gate_block-repeat_example = record_gate_block-repeat block 10 issue_db 11 0 12 block-recorded

record_gate_block-marked_example :
    (record_gate_block
      (restamped block 12 0)
      13
      (mark_gate_block_action_applied block 11 (record_gate_block block 10 issue_db).1).1).0
    ≡ ok (false, 2, true)
record_gate_block-marked_example =
    record_gate_block-marked block 10 11 issue_db 12 0 13 refl block-recorded

approval-found : latest_matching_handoff plan_query approved_db ≡ some approval
unfolding latest_matching_handoff upsert_handoff is_blank upsert_issue
approval-found = refl

latest_matching_handoff-newest_example :
    (r : HandoffRow) × (approval ≡ scan_handoff r)
    × (matches_query plan_query r ≡ true)
    × All (λ s. matches_query plan_query s ≡ true → newest_before r s ≡ true) approved_db.handoffs
latest_matching_handoff-newest_example =
    latest_matching_handoff-newest plan_query approved_db approval-found
