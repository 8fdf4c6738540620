-- ===== src/Workflow/Durable.antt =====
-- Which stale jobs have a durable launch for the store and for the workflow.
use issueq.Prelude.{
  pos, String, ◌≡◌, refl, Bool, true, false, not, Option, none, some, ◌&&◌, ◌||◌, arith, leb_ℤ,
  str_eq, get_or, Bool-cases, inl, inr,
}
use issueq.Sql.{is_empty}
use issueq.Model.{Time, LaunchState, preparing, launching, is_running}
use issueq.Store.{JobRow, Db}
use issueq.Store.Scan.{scan_job}
use issueq.Store.Stale.{was_launched, is_durable, is_stale_durable}
use issueq.Workflow.Observe.{
  Printing, durable, launch_state_reason, supervisor_record, durable_reason, durable_launch_record,
}

present : (o : Option String) → is_empty o ≡ false → str_eq (get_or o "") "" ≡ false
present none h = absurd cc
present (some s) h = h

no_reason : (o : Option LaunchState) → was_launched o ≡ true → launch_state_reason o ≡ none
no_reason none h = absurd cc
no_reason (some preparing) h = absurd cc
no_reason (some launching) h = refl
no_reason (some LaunchState.running) h = refl
no_reason (some LaunchState.unknown) h = absurd cc

module _ (now stale_before : Time) (db : Db) (r : JobRow) where
  record Columns : Type 0 where
    pub runs : is_running r.status ≡ true
    pub launched : was_launched r.launch_state ≡ true
    pub token : is_empty r.launch_token ≡ false
    pub evidence : (not (is_empty r.supervisor_id) || not (is_empty r.run_metadata_path)) ≡ true

  columns : is_stale_durable now stale_before db r ≡ true → Columns
  unfolding is_stale_durable is_durable
  columns h = record {
    runs = ground arith;
    launched = ground arith;
    token = ground arith;
    evidence = ground arith;
  }

  has_evidence :
      (c : Bool)
      → (not (is_empty r.supervisor_id) || not (is_empty r.run_metadata_path)) ≡ true
      → (str_eq (get_or r.run_metadata_path "") "" && str_eq (get_or r.supervisor_id "") "" && c)
        ≡ false
  has_evidence c h = elim (Bool-cases (is_empty r.run_metadata_path)) [
    | inr e ↦ let k = present r.run_metadata_path e in rw k
    | inl e ↦
        let k = present r.supervisor_id (ground (arith, h, e)) in
        elim (Bool-cases (str_eq (get_or r.run_metadata_path "") "")) [
          | inl m ↦ rw (m, k)
          | inr m ↦ rw m
        ]
  ]

  no_durable_reason :
      (p : Printing)
      → r.supervisor_kind ≡ some "wrapper"
      → Columns
      → durable_reason p (scan_job r) ≡ none
  unfolding durable_reason scan_job
  no_durable_reason p kind c =
      let token = present r.launch_token c.token in
      let state = no_reason r.launch_state c.launched in
      let evidence = has_evidence (leb_ℤ (get_or r.pid (pos 0)) (pos 0)) c.evidence in
      rw (c.runs, kind, token, state, evidence, durable_reason)

  -- A row of the wrapper that the store takes for a stale durable job has a durable launch for the
  -- workflow, which is the one that the row records.
  pub durable_launch_record-stale :
      (p : Printing)
      → r.supervisor_kind ≡ some "wrapper"
      → is_stale_durable now stale_before db r ≡ true
      → durable_launch_record p (scan_job r) ≡ durable (supervisor_record (scan_job r))
  unfolding durable_launch_record
  durable_launch_record-stale p kind h =
      let e = no_durable_reason p kind (columns h) in rw (e, durable_launch_record)
