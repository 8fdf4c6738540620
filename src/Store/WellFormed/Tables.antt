-- ===== src/Store/WellFormed/Tables.antt =====
-- The inserts, upserts and deletions keep the tables well formed.
use issueq.Prelude.{
  ℤ, String, ◌≡◌, refl, sym, eq_iff, arith, Bool-cases, Option-cases, inl, inr, List, ◌==◌,
  is_blank,
}
use issueq.Sql.{count_where, first_where}
use issueq.Sql.Laws.{All-append, count_where-first_none}
use issueq.Sql.Keys.{
  HasUniqueKeys, HasUniqueKeys-append, HasUniqueKeys-delete, HasUniqueKeys-update, count_where_zero,
}
use issueq.Model.{Time, IssueSnapshot, Handoff, GateBlock, JobCreate, JobEvent, RunnerIdentity}
use issueq.Store.{IssueStateRow, HeartbeatRow, IssueRow, HandoffRow, GateBlockRow, JobEventRow, Db}
use issueq.Store.Consistent.{IsConsistent, new_job_row-IsConsistent}
use issueq.Store.Heartbeats.{
  upsert_heartbeat, heartbeat_runner, delete_runner_heartbeat, prune_stale_runner_heartbeats,
  beats_for, beat_before,
}
use issueq.Store.Issues.{
  issue_row, is_issue, upsert_issue_row, upsert_state_row, synced, upsert_issue,
}
use issueq.Store.Handoffs.{
  handoff_row, is_handoff, upsert_handoff_row, missing_handoff_field, stamped, upsert_handoff,
}
use issueq.Store.Attempts.{has_issue_key}
use issueq.Store.Gates.{
  is_block, missing_block_field, record_gate_block, mark_gate_block_action_applied,
}
use issueq.Store.Queue.{
  collides, new_job_row, enqueue_job, is_event, filled_event, insert_job_event,
}
use issueq.Store.WellFormed.{
  IsWellFormed, job_key, dedupe_of, instance_of, handoff_of, issue_of, state_of,
}

pub enqueue_job-IsWellFormed :
    (id : String) (c : JobCreate) (now : Time) (db : Db)
    → IsWellFormed db
    → IsWellFormed (enqueue_job id c now db).1
unfolding enqueue_job
enqueue_job-IsWellFormed id c now db w =
    elim (Bool-cases (count_where (collides id c.dedupe_key) db.jobs == 0)) [
      | inr e ↦ rw e w
      | inl e ↦
          let free : count_where (collides id c.dedupe_key) db.jobs ≡ 0 = ground arith in
          rw e (record {
            issue_keys = w.issue_keys;
            state_keys = w.state_keys;
            job_keys = HasUniqueKeys-append job_key db.jobs (new_job_row id c now) w.job_keys (
                unfold new_job_row in
                count_where_zero job_key _ (collides id c.dedupe_key) (λ r h. ground arith) db.jobs
                  free);
            dedupe_keys =
                HasUniqueKeys-append dedupe_of db.jobs (new_job_row id c now) w.dedupe_keys (
                  unfold new_job_row in
                  count_where_zero dedupe_of _ (collides id c.dedupe_key) (λ r h. ground arith)
                    db.jobs free);
            beat_keys = w.beat_keys;
            handoff_keys = w.handoff_keys;
            consistent =
                All-append IsConsistent db.jobs (new_job_row id c now) w.consistent
                  (new_job_row-IsConsistent id c now);
          })
    ]

with_beats-IsWellFormed :
    (rows : List HeartbeatRow) (db : Db)
    → HasUniqueKeys instance_of rows
    → IsWellFormed db
    → IsWellFormed (record db { runner_heartbeats = rows })
with_beats-IsWellFormed rows db u w = record {
  issue_keys = w.issue_keys;
  state_keys = w.state_keys;
  job_keys = w.job_keys;
  dedupe_keys = w.dedupe_keys;
  beat_keys = u;
  handoff_keys = w.handoff_keys;
  consistent = w.consistent;
}

upsert_heartbeat-HasUniqueKeys :
    (identity : RunnerIdentity) (pid : ℤ) (now : Time) (rows : List HeartbeatRow)
    → HasUniqueKeys instance_of rows
    → HasUniqueKeys instance_of (upsert_heartbeat identity pid now rows)
unfolding upsert_heartbeat
upsert_heartbeat-HasUniqueKeys identity pid now rows u =
    elim (Option-cases (first_where (beats_for identity.instance_id) rows)) [
      | inl e ↦
          rw (e, upsert_heartbeat)
            (HasUniqueKeys-append instance_of rows _ u
              (count_where-first_none (beats_for identity.instance_id) rows e))
      | inr (h, e) ↦
          rw (e, upsert_heartbeat)
            (HasUniqueKeys-update instance_of (beats_for identity.instance_id) _ (λ r _. refl) rows
              u)
    ]

pub heartbeat_runner-IsWellFormed :
    (identity : RunnerIdentity) (pid : ℤ) (now : Time) (db : Db)
    → IsWellFormed db
    → IsWellFormed (heartbeat_runner identity pid now db).1
unfolding heartbeat_runner
heartbeat_runner-IsWellFormed identity pid now db w =
    elim (Bool-cases (is_blank identity.runner_id)) [
      | inl e ↦ rw e w
      | inr e ↦ elim (Bool-cases (is_blank identity.instance_id)) [
        | inl b ↦ rw (e, b) w
        | inr b ↦
            rw (e, b)
              (with_beats-IsWellFormed _ db
                (upsert_heartbeat-HasUniqueKeys identity pid now db.runner_heartbeats w.beat_keys)
                w)
      ]
    ]

pub delete_runner_heartbeat-IsWellFormed :
    (instance : String) (db : Db)
    → IsWellFormed db
    → IsWellFormed (delete_runner_heartbeat instance db).1
unfolding delete_runner_heartbeat
delete_runner_heartbeat-IsWellFormed instance db w =
    with_beats-IsWellFormed _ db
      (HasUniqueKeys-delete instance_of (beats_for instance) db.runner_heartbeats w.beat_keys) w

pub prune_stale_runner_heartbeats-IsWellFormed :
    (t : Time) (db : Db) → IsWellFormed db → IsWellFormed (prune_stale_runner_heartbeats t db).1
unfolding prune_stale_runner_heartbeats
prune_stale_runner_heartbeats-IsWellFormed t db w =
    with_beats-IsWellFormed _ db
      (HasUniqueKeys-delete instance_of (beat_before t) db.runner_heartbeats w.beat_keys) w

upsert_issue_row-HasUniqueKeys :
    (i : IssueSnapshot) (rows : List IssueRow)
    → HasUniqueKeys issue_of rows
    → HasUniqueKeys issue_of (upsert_issue_row i rows)
unfolding upsert_issue_row
upsert_issue_row-HasUniqueKeys i rows u =
    elim (Option-cases (first_where (is_issue i.issue_key) rows)) [
      | inl e ↦
          rw (e, upsert_issue_row)
            (HasUniqueKeys-append issue_of rows (issue_row i) u
              (count_where-first_none (is_issue i.issue_key) rows e))
      | inr (r, e) ↦
          rw (e, upsert_issue_row)
            (HasUniqueKeys-update issue_of (is_issue i.issue_key) (λ _. issue_row i)
              (λ r h. sym ((eq_iff r.issue_key i.issue_key).0 h)) rows u)
    ]

upsert_state_row-HasUniqueKeys :
    (i : IssueSnapshot) (rows : List IssueStateRow)
    → HasUniqueKeys state_of rows
    → HasUniqueKeys state_of (upsert_state_row i rows)
unfolding upsert_state_row
upsert_state_row-HasUniqueKeys i rows u =
    elim (Option-cases (first_where (has_issue_key i.issue_key) rows)) [
      | inl e ↦
          rw (e, upsert_state_row)
            (HasUniqueKeys-append state_of rows _ u
              (count_where-first_none (has_issue_key i.issue_key) rows e))
      | inr (r, e) ↦
          rw (e, upsert_state_row)
            (HasUniqueKeys-update state_of (has_issue_key i.issue_key) _ (λ r _. refl) rows u)
    ]

pub upsert_issue-IsWellFormed :
    (i : IssueSnapshot) (now : Time) (db : Db)
    → IsWellFormed db
    → IsWellFormed (upsert_issue i now db).1
unfolding upsert_issue
upsert_issue-IsWellFormed i now db w = record {
  issue_keys = upsert_issue_row-HasUniqueKeys (synced i now) db.issues w.issue_keys;
  state_keys = upsert_state_row-HasUniqueKeys (synced i now) db.issue_state w.state_keys;
  job_keys = w.job_keys;
  dedupe_keys = w.dedupe_keys;
  beat_keys = w.beat_keys;
  handoff_keys = w.handoff_keys;
  consistent = w.consistent;
}

upsert_handoff_row-HasUniqueKeys :
    (h : Handoff) (rows : List HandoffRow)
    → HasUniqueKeys handoff_of rows
    → HasUniqueKeys handoff_of (upsert_handoff_row h rows)
unfolding upsert_handoff_row
upsert_handoff_row-HasUniqueKeys h rows u =
    elim (Option-cases (first_where (is_handoff h.id) rows)) [
      | inl e ↦
          rw (e, upsert_handoff_row)
            (HasUniqueKeys-append handoff_of rows (handoff_row h) u
              (count_where-first_none (is_handoff h.id) rows e))
      | inr (r, e) ↦
          rw (e, upsert_handoff_row)
            (HasUniqueKeys-update handoff_of (is_handoff h.id) (λ _. handoff_row h)
              (λ r q. sym ((eq_iff r.id h.id).0 q)) rows u)
    ]

pub upsert_handoff-IsWellFormed :
    (h : Handoff) (now : Time) (db : Db)
    → IsWellFormed db
    → IsWellFormed (upsert_handoff h now db).1
unfolding upsert_handoff
upsert_handoff-IsWellFormed h now db w = elim (Option-cases (missing_handoff_field h)) [
  | inr (m, e) ↦ rw (e, upsert_handoff) w
  | inl e ↦
      rw (e, upsert_handoff)
        (record {
          issue_keys = w.issue_keys;
          state_keys = w.state_keys;
          job_keys = w.job_keys;
          dedupe_keys = w.dedupe_keys;
          beat_keys = w.beat_keys;
          handoff_keys =
              upsert_handoff_row-HasUniqueKeys (stamped h now) db.handoffs w.handoff_keys;
          consistent = w.consistent;
        })
]

with_log-IsWellFormed :
    (blocks : List GateBlockRow) (events : List JobEventRow) (db : Db)
    → IsWellFormed db
    → IsWellFormed (record db { gate_blocks = blocks; job_events = events })
with_log-IsWellFormed blocks events db w = record {
  issue_keys = w.issue_keys;
  state_keys = w.state_keys;
  job_keys = w.job_keys;
  dedupe_keys = w.dedupe_keys;
  beat_keys = w.beat_keys;
  handoff_keys = w.handoff_keys;
  consistent = w.consistent;
}

pub record_gate_block-IsWellFormed :
    (b : GateBlock) (now : Time) (db : Db)
    → IsWellFormed db
    → IsWellFormed (record_gate_block b now db).1
unfolding record_gate_block
record_gate_block-IsWellFormed b now db w = elim (Option-cases (missing_block_field b)) [
  | inr (m, e) ↦ rw (e, record_gate_block) w
  | inl e ↦ elim (Option-cases (first_where (is_block b) db.gate_blocks)) [
    | inl q ↦ rw (e, q, record_gate_block) (with_log-IsWellFormed _ db.job_events db w)
    | inr (r, q) ↦ rw (e, q, record_gate_block) (with_log-IsWellFormed _ db.job_events db w)
  ]
]

pub mark_gate_block_action_applied-IsWellFormed :
    (b : GateBlock) (now : Time) (db : Db)
    → IsWellFormed db
    → IsWellFormed (mark_gate_block_action_applied b now db).1
unfolding mark_gate_block_action_applied
mark_gate_block_action_applied-IsWellFormed b now db w = with_log-IsWellFormed _ db.job_events db w

pub insert_job_event-IsWellFormed :
    (id : String) (e : JobEvent) (now : Time) (db : Db)
    → IsWellFormed db
    → IsWellFormed (insert_job_event id e now db).1
unfolding insert_job_event
insert_job_event-IsWellFormed id e now db w =
    elim (Bool-cases (count_where (is_event (filled_event id e now).id) db.job_events == 0)) [
      | inl q ↦ rw q (with_log-IsWellFormed db.gate_blocks _ db w)
      | inr q ↦ rw q w
    ]
