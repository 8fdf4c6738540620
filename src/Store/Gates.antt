-- ===== src/Store/Gates.antt =====
-- sqlite.go: `RecordGateBlock`, `MarkGateBlockActionApplied`.
use issueq.Prelude.{
  ℕ, ◌+◌, String, Bool, true, false, not, Option, none, some, [], ◌∷◌, ◌++◌, ◌&&◌, if◌then◌else◌,
  ◌==◌, str_eq, is_blank,
}
use issueq.Sql.{update_where, first_where, coalesce}
use issueq.Model.{Time, is_zero, GateBlock}
use issueq.Store.{GateBlockRow, ok, Op, fail}

-- The primary key of `gate_blocks`.
unfoldable pub is_block : GateBlock → GateBlockRow → Bool
is_block b r =
    str_eq r.issue_key b.issue_key
    && r.generation == b.generation
    && str_eq r.route_name b.route_name
    && str_eq r.reason b.reason
    && str_eq r.scope_hash b.scope_hash

unfoldable pub missing_block_field : GateBlock → Option String
missing_block_field b =
    if is_blank b.issue_key
    then some "gate block issue key is required"
    else if is_blank b.route_name
    then some "gate block route name is required"
    else if is_blank b.reason
    then some "gate block reason is required"
    else if is_blank b.scope_hash
    then some "gate block scope hash is required"
    else none

-- The column holds a text that is not blank.
abbrev pub is_applied : Option Time → Bool
is_applied none = false
is_applied (some t) = not (is_zero t)

abbrev pub new_block : GateBlock → Time → GateBlockRow
new_block b now = record {
  issue_key = b.issue_key;
  generation = b.generation;
  route_name = b.route_name;
  reason = b.reason;
  scope_hash = b.scope_hash;
  count = 1;
  action_applied_at = none;
  created_at = if is_zero b.created_at then now else b.created_at;
  updated_at = if is_zero b.updated_at then now else b.updated_at;
}

abbrev pub recounted : GateBlock → Time → ℕ → GateBlockRow → GateBlockRow
recounted b now count r = record r {
  count = count;
  updated_at = if is_zero b.updated_at then now else b.updated_at;
}

-- Whether the block is new, how often it was recorded, and whether its action was applied before.
unfoldable pub record_gate_block : GateBlock → Time → Op (Bool × ℕ × Bool)
unfolding missing_block_field is_block first_where update_where
record_gate_block block now db = elim (missing_block_field block) [
  | some message ↦ fail message db
  | none ↦ elim (first_where (is_block block) db.gate_blocks) [
    | none ↦ (
      ok (true, 1, false),
      record db { gate_blocks = db.gate_blocks ++ new_block block now ∷ [] },
    )
    | some r ↦ (
      ok (false, r.count + 1, is_applied r.action_applied_at),
      record db {
        gate_blocks =
            update_where (is_block block) (recounted block now (r.count + 1)) db.gate_blocks;
      },
    )
  ]
]

abbrev pub applied_block : Time → GateBlockRow → GateBlockRow
applied_block now r = record r {
  action_applied_at = coalesce r.action_applied_at (some now);
  updated_at = now;
}

unfoldable pub mark_gate_block_action_applied : GateBlock → Time → Op (Unit {0})
unfolding is_block update_where
mark_gate_block_action_applied block now db = (
  ok tt,
  record db { gate_blocks = update_where (is_block block) (applied_block now) db.gate_blocks },
)
