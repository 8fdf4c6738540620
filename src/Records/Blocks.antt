-- ===== src/Records/Blocks.antt =====
-- A gate block is kept once for its key, and counted.
use mathlib.Core.Path.{subst}
use issueq.Prelude.{
  ℕ, ◌+◌, String, ◌≡◌, refl, sym, ap, ◌∙◌, Bool, true, false, none, some, [], ◌∷◌, ◌++◌, arith,
  Option-cases, inl, inr, eq_refl,
}
use issueq.Sql.{first_where}
use issueq.Sql.Laws.{updated, first_where-append, first_where-update, first_where-meets}
use issueq.Model.{Time, is_zero, GateBlock}
use issueq.Store.{GateBlockRow, Db, invalid, Result, ok, err}
use issueq.Store.Gates.{
  is_block, missing_block_field, is_applied, new_block, recounted, record_gate_block, applied_block,
  mark_gate_block_action_applied,
}

-- The same block at another time.
abbrev pub restamped : GateBlock → Time → Time → GateBlock
restamped b created updated = record b { created_at = created; updated_at = updated }

-- The block is in the tables with this count, and its action was applied or not.
pub record IsRecorded (b : GateBlock) (count : ℕ) (applied : Bool) (db : Db) : Type 0 where
  pub complete : missing_block_field b ≡ none
  pub row : GateBlockRow
  pub found : first_where (is_block b) db.gate_blocks ≡ some row
  pub counted : row.count ≡ count
  pub marked : is_applied row.action_applied_at ≡ applied

not_recorded :
    {message : String} {x : Bool × ℕ × Bool}
    → ◌≡◌ {A = Result (Bool × ℕ × Bool)} (err (invalid message)) (ok x)
    → ⊥
not_recorded h = cc

not_new :
    {n m : ℕ} {a c : Bool}
    → ◌≡◌ {A = Result (Bool × ℕ × Bool)} (ok (false, n, a)) (ok (true, m, c))
    → ⊥
not_new h = cc

same_record :
    {b : GateBlock} {db : Db} {i j : Bool} {n m : ℕ} {a c : Bool}
    → ◌≡◌ {A = Result (Bool × ℕ × Bool)} (ok (i, n, a)) (ok (j, m, c))
    → IsRecorded b n a db
    → IsRecorded b m c db
same_record h w = record {
  complete = w.complete;
  row = w.row;
  found = w.found;
  counted = cc (h, w.counted);
  marked = cc (h, w.marked);
}

module _ (b : GateBlock) where
  new_block-is_block : (now : Time) → is_block b (new_block b now) ≡ true
  unfolding is_block
  new_block-is_block now =
      ground
        (arith, eq_refl b.issue_key, eq_refl b.route_name, eq_refl b.reason, eq_refl b.scope_hash)

  repeat-result :
      {n : ℕ} {applied : Bool} (now : Time) (db : Db)
      → IsRecorded b n applied db
      → (record_gate_block b now db).0 ≡ ok (false, n + 1, applied)
  unfolding record_gate_block
  repeat-result now db w = rw (w.complete, w.found, record_gate_block) (rw (w.counted, w.marked))

  found_again :
      {n : ℕ} {applied : Bool} (now : Time) (db : Db) (w : IsRecorded b n applied db)
      → first_where (is_block b) (record_gate_block b now db).1.gate_blocks
        ≡ some (recounted b now (w.row.count + 1) w.row)
  unfolding record_gate_block is_block
  found_again now db w =
      let meets : is_block b w.row ≡ true = first_where-meets (is_block b) db.gate_blocks w.found in
      rw (w.complete, w.found, record_gate_block)
        (first_where-update (is_block b) (is_block b) (recounted b now (w.row.count + 1))
            (λ r _. refl) db.gate_blocks
          ∙ rw w.found (ground (arith, meets)))

  repeat-stores :
      {n : ℕ} {applied : Bool} (now : Time) (db : Db)
      → IsRecorded b n applied db
      → IsRecorded b (n + 1) applied (record_gate_block b now db).1
  repeat-stores now db w = record {
    complete = w.complete;
    row = recounted b now (w.row.count + 1) w.row;
    found = found_again now db w;
    counted = ap (λ n. n + 1) w.counted;
    marked = w.marked;
  }

  missing_result :
      (message : String) (now : Time) (db : Db)
      → missing_block_field b ≡ some message
      → (record_gate_block b now db).0 ≡ err (invalid message)
  unfolding record_gate_block
  missing_result message now db h = rw (h, record_gate_block)

  new_result :
      (now : Time) (db : Db)
      → missing_block_field b ≡ none
      → first_where (is_block b) db.gate_blocks ≡ none
      → record_gate_block b now db
        ≡ (ok (true, 1, false), record db { gate_blocks = db.gate_blocks ++ new_block b now ∷ [] })
  unfolding record_gate_block
  new_result now db h k = rw (h, k, record_gate_block)

  new-stores :
      (now : Time) (db : Db)
      → missing_block_field b ≡ none
      → first_where (is_block b) db.gate_blocks ≡ none
      → IsRecorded b 1 false (record_gate_block b now db).1
  new-stores now db h k =
      subst (IsRecorded b 1 false) (sym (ap (λ x. x.1) (new_result now db h k))) (record {
        complete = h;
        row = new_block b now;
        found =
            first_where-append (is_block b) db.gate_blocks (new_block b now)
            ∙ rw (k, new_block-is_block now);
        counted = refl;
        marked = refl;
      })

  -- A call that returns leaves the block in the tables, as it says.
  record_gate_block-stores :
      {inserted : Bool} {n : ℕ} {applied : Bool} (now : Time) (db : Db)
      → (record_gate_block b now db).0 ≡ ok (inserted, n, applied)
      → IsRecorded b n applied (record_gate_block b now db).1
  record_gate_block-stores now db h = elim (Option-cases (missing_block_field b)) [
    | inr (m, e) ↦ absurd (not_recorded (sym (missing_result m now db e) ∙ h))
    | inl e ↦ elim (Option-cases (first_where (is_block b) db.gate_blocks)) [
      | inl k ↦
          same_record (sym (ap (λ x. x.0) (new_result now db e k)) ∙ h) (new-stores now db e k)
      | inr (r, k) ↦
          let w : IsRecorded b r.count (is_applied r.action_applied_at) db = record {
            complete = e;
            row = r;
            found = k;
            counted = refl;
            marked = refl;
          } in
          same_record (sym (repeat-result now db w) ∙ h) (repeat-stores now db w)
    ]
  ]

  mark-stores :
      {n : ℕ} {applied : Bool} (now : Time) (db : Db)
      → is_zero now ≡ false
      → (w : IsRecorded b n applied db) → w.row.action_applied_at ≡ none
      → IsRecorded b n true (mark_gate_block_action_applied b now db).1
  unfolding mark_gate_block_action_applied is_block
  mark-stores now db nz w fresh = record {
    complete = w.complete;
    row = applied_block now w.row;
    found =
        let meets : is_block b w.row ≡ true =
          first_where-meets (is_block b) db.gate_blocks w.found in
        first_where-update (is_block b) (is_block b) (applied_block now) (λ r _. refl)
          db.gate_blocks
        ∙ rw w.found (ground (arith, meets));
    counted = w.counted;
    marked = rw (fresh, nz);
  }

  new-unmarked :
      {n : ℕ} {applied : Bool} (now : Time) (db : Db)
      → (h : (record_gate_block b now db).0 ≡ ok (true, n, applied))
      → (w : IsRecorded b 1 false (record_gate_block b now db).1) × (w.row.action_applied_at ≡ none)
  unfolding new-stores
  new-unmarked now db h = elim (Option-cases (missing_block_field b)) [
    | inr (m, e) ↦ absurd (not_recorded (sym (missing_result m now db e) ∙ h))
    | inl e ↦ elim (Option-cases (first_where (is_block b) db.gate_blocks)) [
      | inl k ↦ (new-stores now db e k, refl)
      | inr (r, k) ↦
          let w : IsRecorded b r.count (is_applied r.action_applied_at) db = record {
            complete = e;
            row = r;
            found = k;
            counted = refl;
            marked = refl;
          } in
          absurd (not_new (sym (repeat-result now db w) ∙ h))
    ]
  ]

-- The time of a block is no part of its key.
restamped-IsRecorded :
    (b : GateBlock) (created updated_at : Time) {n : ℕ} {applied : Bool} (db : Db)
    → IsRecorded b n applied db
    → IsRecorded (restamped b created updated_at) n applied db
unfolding is_block missing_block_field
restamped-IsRecorded b created updated_at db w = record {
  complete = w.complete;
  row = w.row;
  found = w.found;
  counted = w.counted;
  marked = w.marked;
}

-- A block that was recorded with the count `n` is not inserted when it is recorded again, at
-- whatever time: it then has the count `n + 1`, and its action is applied if it was before.
pub record_gate_block-repeat :
    (b : GateBlock) {inserted : Bool} {n : ℕ} {applied : Bool} (now : Time) (db : Db)
    (created updated_at later : Time)
    → (record_gate_block b now db).0 ≡ ok (inserted, n, applied)
    → (record_gate_block (restamped b created updated_at) later (record_gate_block b now db).1).0
      ≡ ok (false, n + 1, applied)
record_gate_block-repeat b now db created updated_at later h =
    repeat-result (restamped b created updated_at) later (record_gate_block b now db).1 (
      restamped-IsRecorded b created updated_at (record_gate_block b now db).1
        (record_gate_block-stores b now db h))

-- If a block was new when it was recorded, and is marked as applied at a time that is not zero, then
-- its action is applied when it is recorded again, at whatever time, and its count is 2.
pub record_gate_block-marked :
    (b : GateBlock) {n : ℕ} {applied : Bool} (now marked_at : Time) (db : Db)
    (created updated_at later : Time)
    → is_zero marked_at ≡ false
    → (record_gate_block b now db).0 ≡ ok (true, n, applied)
    → (record_gate_block
        (restamped b created updated_at)
        later
        (mark_gate_block_action_applied b marked_at (record_gate_block b now db).1).1).0
      ≡ ok (false, 2, true)
record_gate_block-marked b now marked_at db created updated_at later nz h =
    let recorded = (record_gate_block b now db).1 in
    let (w, fresh) = new-unmarked b now db h in
    let marked = (mark_gate_block_action_applied b marked_at recorded).1 in
    repeat-result (restamped b created updated_at) later marked (
      restamped-IsRecorded b created updated_at marked
        (mark-stores b marked_at recorded nz w fresh))
