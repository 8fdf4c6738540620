-- ===== src/Store/Heartbeats.antt =====
-- sqlite.go: `HeartbeatRunner`, `DeleteRunnerHeartbeat`, `PruneStaleRunnerHeartbeats`.
use issueq.Prelude.{
  ℕ, ℤ, String, Bool, none, some, List, [], ◌∷◌, ◌++◌, if◌then◌else◌, ltb, str_eq, is_blank,
}
use issueq.Sql.{update_where, delete_where, count_where, first_where}
use issueq.Model.{Time, RunnerIdentity}
use issueq.Store.{HeartbeatRow, ok, Op, fail}

abbrev pub beats_for : String → HeartbeatRow → Bool
beats_for instance h = str_eq h.runner_instance_id instance

-- `INSERT … ON CONFLICT(runner_instance_id) DO UPDATE SET …`
unfoldable pub upsert_heartbeat : RunnerIdentity → ℤ → Time → List HeartbeatRow → List HeartbeatRow
unfolding first_where update_where
upsert_heartbeat identity pid now rows = elim (first_where (beats_for identity.instance_id) rows) [
  | some h ↦
      update_where (beats_for identity.instance_id)
        (λ r. record r {
          runner_id = identity.runner_id;
          pid = pid;
          heartbeat_at = now;
          updated_at = now;
        })
        rows
  | none ↦
      rows
      ++ record {
        runner_instance_id = identity.instance_id;
        runner_id = identity.runner_id;
        pid = pid;
        heartbeat_at = now;
        created_at = now;
        updated_at = now;
      }
        ∷ []
]

unfoldable pub heartbeat_runner : RunnerIdentity → ℤ → Time → Op (Unit {0})
unfolding upsert_heartbeat
heartbeat_runner identity pid now db =
    if is_blank identity.runner_id
    then fail "runner id is required" db
    else if is_blank identity.instance_id
    then fail "runner instance id is required" db
    else (
      ok tt,
      record db { runner_heartbeats = upsert_heartbeat identity pid now db.runner_heartbeats },
    )

unfoldable pub delete_runner_heartbeat : String → Op (Unit {0})
unfolding delete_where
delete_runner_heartbeat instance db = (
  ok tt,
  record db { runner_heartbeats = delete_where (beats_for instance) db.runner_heartbeats },
)

abbrev pub beat_before : Time → HeartbeatRow → Bool
beat_before t h = ltb h.heartbeat_at t

unfoldable pub prune_stale_runner_heartbeats : Time → Op ℕ
unfolding delete_where count_where
prune_stale_runner_heartbeats t db = (
  ok (count_where (beat_before t) db.runner_heartbeats),
  record db { runner_heartbeats = delete_where (beat_before t) db.runner_heartbeats },
)
