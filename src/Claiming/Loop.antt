-- ===== src/Claiming/Loop.antt =====
-- The loop of `claimNextJob` is a search for the first row that can be claimed.
use issueq.Prelude.{
  ℤ, pos, String, ◌≡◌, refl, sym, ap, ◌∙◌, Bool, true, false, not, Option, none, some, List, [],
  ◌∷◌, ◌&&◌, arith, Bool-cases, Option-cases, inl, inr, ◌==◌, leb_ℤ, is_blank, add_duration,
  eq_refl,
}
use issueq.Sql.{count_where, first_where, order_by, select_where}
use issueq.Sql.Laws.{update_where-none, first_where-meets, first_where-update, updated}
use issueq.Sql.Keys.{first_where_self, count_where-key}
use issueq.Sql.Order.{first_where_selected}
use issueq.Model.{Time, is_pending, Job, RunnerIdentity}
use issueq.Store.{JobRow, Db, ok}
use issueq.Store.Scan.{scan_job}
use issueq.Store.Owned.{has_id, find_job, update_jobs, job_by_id}
use issueq.Store.Claim.{
  ClaimFilter, is_claimable, claimed_row, still_pending, claim_rows, is_eligible, eligible_rows,
  queue_before, count_running_jobs, claim_next_job, read_claimed,
}
use issueq.Store.WellFormed.{IsWellFormed, job_key}

-- The tables after the claim of the job with this id.
abbrev pub claimed_tables : RunnerIdentity → Time → Time → String → Db → Db
claimed_tables identity now lease job_id =
    update_jobs (still_pending job_id) (claimed_row identity now lease)

-- A row that passes the filters, and that the claim's UPDATE affects.
abbrev pub can_claim : ClaimFilter → Db → JobRow → Bool
can_claim f db r = is_claimable f db r && not (count_where (still_pending r.id) db.jobs == 0)

abbrev pub claim_first : RunnerIdentity → Time → Time → Db → Option JobRow → Option String × Db
claim_first identity now lease db none = (none, db)
claim_first identity now lease db (some r) = (some r.id, claimed_tables identity now lease r.id db)

untouched_tables :
    (identity : RunnerIdentity) (now lease : Time) (job_id : String) (db : Db)
    → count_where (still_pending job_id) db.jobs ≡ 0
    → claimed_tables identity now lease job_id db ≡ db
untouched_tables identity now lease job_id db h =
    ap (λ rows. record db { jobs = rows })
      (update_where-none (still_pending job_id) (claimed_row identity now lease) db.jobs h)

pub claim_rows-eq-first :
    (f : ClaimFilter) (identity : RunnerIdentity) (now lease : Time) (rows : List JobRow) (db : Db)
    → claim_rows f identity now lease rows db
      ≡ claim_first identity now lease db (first_where (can_claim f db) rows)
unfolding claim_rows first_where
claim_rows-eq-first f identity now lease [] db = refl
claim_rows-eq-first f identity now lease (r ∷ rs) db =
    let ih = claim_rows-eq-first f identity now lease rs db in
    elim (Bool-cases (is_claimable f db r)) [
      | inr e ↦ rw e ih
      | inl e ↦ elim (Bool-cases (count_where (still_pending r.id) db.jobs == 0)) [
        | inl z ↦ rw (e, z) (rw (untouched_tables identity now lease r.id db (ground arith)) ih)
        | inr z ↦ rw (e, z)
      ]
    ]

job_by_id_lem :
    (job_id : String) (db : Db) {r : JobRow}
    → find_job job_id db ≡ some r
    → job_by_id job_id db ≡ ok (scan_job r)
unfolding job_by_id
job_by_id_lem job_id db h = rw (h, job_by_id)

read_claimed_lem :
    (job_id : String) (db : Db) {job : Job}
    → job_by_id job_id db ≡ ok job
    → read_claimed (some job_id) db ≡ ok (some job)
read_claimed_lem job_id db h = rw (h, read_claimed)

returned-injective : {a b : Job} → ok (some a) ≡ ok (some b) → a ≡ b
returned-injective h = cc

-- The conditions under which the tables are searched at all.
pub record CanSearch (identity : RunnerIdentity) (max : ℤ) (db : Db) : Type 0 where
  pub positive : leb_ℤ max (pos 0) ≡ false
  pub named : is_blank identity.runner_id ≡ false
  pub instanced : is_blank identity.instance_id ≡ false
  pub room : leb_ℤ max (pos (count_running_jobs db)) ≡ false

-- The first row, in the order of the queue, that can be claimed.
unfoldable pub first_claimable : ClaimFilter → Time → Db → Option JobRow
first_claimable f now db =
    first_where (can_claim f db) (order_by queue_before (select_where (is_eligible now) db.jobs))

module _ (identity : RunnerIdentity) (f : ClaimFilter) (max d : ℤ) (now : Time) (db : Db) where
  abbrev after_claim : JobRow → Db
  after_claim r = claimed_tables identity now (add_duration now d) r.id db

  pub claim_next_job-search :
      CanSearch identity max db
      → claim_next_job identity f max d now db ≡ (
          let (o, db') =
            claim_first identity now (add_duration now d) db (first_claimable f now db) in
          (read_claimed o db', db'))
  unfolding claim_next_job first_claimable
  claim_next_job-search c =
      rw (c.positive, c.named, c.instanced, c.room)
        (rw (claim_rows-eq-first f identity now (add_duration now d) (eligible_rows now db) db)
          refl)

  claim_found :
      {r : JobRow}
      → CanSearch identity max db
      → first_claimable f now db ≡ some r
      → claim_next_job identity f max d now db
        ≡ (read_claimed (some r.id) (after_claim r), after_claim r)
  claim_found c found = rw (claim_next_job-search c) (rw found)

  pub claim_none :
      CanSearch identity max db
      → first_claimable f now db ≡ none
      → claim_next_job identity f max d now db ≡ (ok none, db)
  claim_none c h = rw (claim_next_job-search c) (rw h)

  -- A job is returned only by a search.
  pub claimed_by_search :
      {job : Job}
      → (claim_next_job identity f max d now db).0 ≡ ok (some job)
      → CanSearch identity max db
  unfolding claim_next_job
  claimed_by_search h = record {
    positive = ground arith;
    named = ground arith;
    instanced = ground arith;
    room = ground arith;
  }

  -- What a returned job says of the tables before and after the claim.
  pub record Claimed (job : Job) : Type 0 where
    pub row : JobRow
    pub found : first_claimable f now db ≡ some row
    pub stored : find_job row.id db ≡ some row
    pub eligible : is_eligible now row ≡ true
    pub claimable : is_claimable f db row ≡ true
    pub single : count_where (still_pending row.id) db.jobs ≡ 1
    pub tables : (claim_next_job identity f max d now db).1 ≡ after_claim row
    pub result : job ≡ scan_job (claimed_row identity now (add_duration now d) row)

  -- The claim's UPDATE, at the row that it was meant for.
  pub find_job-after_claim :
      (r : JobRow)
      → find_job r.id db ≡ some r
      → is_pending r.status ≡ true
      → find_job r.id (after_claim r) ≡ some (claimed_row identity now (add_duration now d) r)
  unfolding claimed_row
  find_job-after_claim r stored p =
      first_where-update (has_id r.id) (still_pending r.id)
        (claimed_row identity now (add_duration now d)) (λ s _. refl) db.jobs
      ∙ ap (updated (still_pending r.id) (claimed_row identity now (add_duration now d))) stored
      ∙ ground (arith, p, eq_refl r.id)

  -- The row that the search finds.
  found_row :
      {r : JobRow}
      → IsWellFormed db
      → first_claimable f now db ≡ some r
      → (is_eligible now r ≡ true) × (find_job r.id db ≡ some r)
  unfolding first_claimable
  found_row w found =
      first_where_selected (λ s. find_job s.id db ≡ some s) queue_before (can_claim f db)
        (is_eligible now) db.jobs (first_where_self job_key db.jobs w.job_keys) found

  pub claim_returns :
      (r : JobRow)
      → IsWellFormed db
      → CanSearch identity max db
      → first_claimable f now db ≡ some r
      → (claim_next_job identity f max d now db).0
        ≡ ok (some (scan_job (claimed_row identity now (add_duration now d) r)))
  claim_returns r w c found =
      let (eligible, stored) = found_row w found in
      ap (λ x. x.0) (claim_found c found)
      ∙ read_claimed_lem r.id (after_claim r)
          (job_by_id_lem r.id (after_claim r) (find_job-after_claim r stored (ground arith)))

  inversion_at :
      {job : Job} (r : JobRow)
      → IsWellFormed db
      → CanSearch identity max db
      → first_claimable f now db ≡ some r
      → (claim_next_job identity f max d now db).0 ≡ ok (some job)
      → Claimed job
  unfolding first_claimable
  inversion_at r w c found h =
      let (eligible, stored) = found_row w found in
      let can : can_claim f db r ≡ true = first_where-meets (can_claim f db) _ found in
      record {
        row = r;
        found = found;
        stored = stored;
        eligible = eligible;
        claimable = ground arith;
        single =
            count_where-key job_key (still_pending r.id) r.id (λ s q. ground arith) db.jobs
              w.job_keys
            ∙ ground (arith, stored, eligible, eq_refl r.id);
        tables = ap (λ x. x.1) (claim_found c found);
        result = returned-injective (sym h ∙ claim_returns r w c found);
      }

  pub claim_inverts :
      {job : Job}
      → IsWellFormed db
      → (claim_next_job identity f max d now db).0 ≡ ok (some job)
      → Claimed job
  claim_inverts w h =
      let c = claimed_by_search h in
      elim (Option-cases (first_claimable f now db)) [
        | inr (r, found) ↦ inversion_at r w c found h
        | inl empty ↦ let nothing = ap (λ x. x.0) (claim_none c empty) in cc (h, nothing)
      ]
