-- ===== src/Store/WellFormed/Leases.antt =====
-- Claims, releases, adoptions and the marking of lost jobs keep the tables well formed.
use issueq.Prelude.{
  ℕ, ℤ, pos, String, refl, arith, Bool-cases, inl, inr, List, [], ◌∷◌, ◌==◌, leb_ℤ, is_blank,
  add_duration,
}
use issueq.Sql.{count_where}
use issueq.Model.{Time, RunnerIdentity}
use issueq.Store.{JobRow, Db}
use issueq.Store.Owned.{update_jobs}
use issueq.Store.Consistent.{
  claimed_row-IsConsistent, released_row-IsConsistent, adopted_row-IsConsistent,
  unknown_row-IsConsistent,
}
use issueq.Store.Claim.{
  ClaimFilter, is_claimable, claimed_row, still_pending, claim_rows, count_running_jobs,
  eligible_rows, claim_next_job,
}
use issueq.Store.Leases.{
  still_running, released_row, release_ids, expired_ids, release_expired_leases,
}
use issueq.Store.Stale.{
  can_take_over, adopted_row, unknown_row, adopt_stale_running_job, mark_stale_running_job_unknown,
}
use issueq.Store.WellFormed.{IsWellFormed, update_jobs-IsWellFormed}

module _ (f : ClaimFilter) (identity : RunnerIdentity) (now lease : Time) where
  pub claim_rows-IsWellFormed :
      (rows : List JobRow) (db : Db)
      → IsWellFormed db
      → IsWellFormed (claim_rows f identity now lease rows db).1
  unfolding claim_rows
  claim_rows-IsWellFormed [] db w = w
  claim_rows-IsWellFormed (r ∷ rows) db w =
      let claimed : IsWellFormed
          (update_jobs (still_pending r.id) (claimed_row identity now lease) db) =
        update_jobs-IsWellFormed (still_pending r.id) (claimed_row identity now lease)
          (λ s. unfold claimed_row in refl) (λ s. unfold claimed_row in refl)
          (λ s q c. claimed_row-IsConsistent identity now lease s c) db w in
      elim (Bool-cases (is_claimable f db r)) [
        | inr e ↦ rw e (claim_rows-IsWellFormed rows db w)
        | inl e ↦ elim (Bool-cases (count_where (still_pending r.id) db.jobs == 0)) [
          | inl z ↦ rw (e, z) (claim_rows-IsWellFormed rows _ claimed)
          | inr z ↦ rw (e, z) claimed
        ]
      ]

pub claim_next_job-IsWellFormed :
    (identity : RunnerIdentity) (f : ClaimFilter) (max d : ℤ) (now : Time) (db : Db)
    → IsWellFormed db
    → IsWellFormed (claim_next_job identity f max d now db).1
unfolding claim_next_job
claim_next_job-IsWellFormed identity f max d now db w = elim (Bool-cases (leb_ℤ max (pos 0))) [
  | inl e ↦ rw e w
  | inr e ↦ elim (Bool-cases (is_blank identity.runner_id)) [
    | inl b ↦ rw (e, b) w
    | inr b ↦ elim (Bool-cases (is_blank identity.instance_id)) [
      | inl c ↦ rw (e, b, c) w
      | inr c ↦ elim (Bool-cases (leb_ℤ max (pos (count_running_jobs db)))) [
        | inl g ↦ rw (e, b, c, g) w
        | inr g ↦
            rw (e, b, c, g) (claim_rows-IsWellFormed f identity now _ (eligible_rows now db) db w)
      ]
    ]
  ]
]

pub release_ids-IsWellFormed :
    (now : Time) (ids : List String) (n : ℕ) (db : Db)
    → IsWellFormed db
    → IsWellFormed (release_ids now ids n db).1
unfolding release_ids
release_ids-IsWellFormed now [] n db w = w
release_ids-IsWellFormed now (i ∷ ids) n db w = release_ids-IsWellFormed now ids _ _ (
    update_jobs-IsWellFormed (still_running i) (released_row now) (λ r. unfold released_row in refl)
      (λ r. unfold released_row in refl) (λ r q c. released_row-IsConsistent now r c) db w)

pub release_expired_leases-IsWellFormed :
    (now t : Time) (current : String) (active : List String) (db : Db)
    → IsWellFormed db
    → IsWellFormed (release_expired_leases now t current active db).1
unfolding release_expired_leases
release_expired_leases-IsWellFormed now t current active db w =
    release_ids-IsWellFormed now (expired_ids now t current active db) 0 db w

adopted-IsWellFormed :
    (job_id old : String) (identity : RunnerIdentity) (lease now t : Time) (db : Db)
    → IsWellFormed db
    → IsWellFormed
        (update_jobs (can_take_over job_id old now t db) (adopted_row identity lease now) db)
unfolding can_take_over
adopted-IsWellFormed job_id old identity lease now t db w =
    update_jobs-IsWellFormed _ _ (λ r. refl) (λ r. refl)
      (λ r q c. adopted_row-IsConsistent identity lease now r (ground arith) c) db w

pub adopt_stale_running_job-IsWellFormed :
    (job_id old : String) (identity : RunnerIdentity) (d : ℤ) (now t : Time) (db : Db)
    → IsWellFormed db
    → IsWellFormed (adopt_stale_running_job job_id old identity d now t db).1
unfolding adopt_stale_running_job
adopt_stale_running_job-IsWellFormed job_id old identity d now t db w =
    let kept = adopted-IsWellFormed job_id old identity (add_duration now d) now t db w in
    elim (Bool-cases (is_blank identity.runner_id)) [
      | inl e ↦ rw e w
      | inr e ↦ elim (Bool-cases (is_blank identity.instance_id)) [
        | inl b ↦ rw (e, b) w
        | inr b ↦ elim (Bool-cases (leb_ℤ d (pos 0))) [
          | inl c ↦ rw (e, b, c) w
          | inr c ↦
              elim (Bool-cases (count_where (can_take_over job_id old now t db) db.jobs == 0)) [
                | inl z ↦ rw (e, b, c, z) kept
                | inr z ↦ rw (e, b, c, z) kept
              ]
        ]
      ]
    ]

pub mark_stale_running_job_unknown-IsWellFormed :
    (job_id old : String) (now t : Time) (db : Db)
    → IsWellFormed db
    → IsWellFormed (mark_stale_running_job_unknown job_id old now t db).1
unfolding mark_stale_running_job_unknown can_take_over
mark_stale_running_job_unknown-IsWellFormed job_id old now t db w =
    let kept =
      update_jobs-IsWellFormed (can_take_over job_id old now t db) (unknown_row now) (λ r. refl)
        (λ r. refl) (λ r q c. unknown_row-IsConsistent now r (ground arith) (ground arith) c) db
        w in
    elim (Bool-cases (count_where (can_take_over job_id old now t db) db.jobs == 0)) [
      | inl z ↦ rw z kept
      | inr z ↦ rw z kept
    ]
