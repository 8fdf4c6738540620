-- ===== src/Leasing/Release.antt =====
-- Which jobs the release of expired leases gives back, row by row.
use mathlib.Core.Path.{subst}
use issueq.Prelude.{
  ℕ, String, ◌≡◌, refl, ap, sym, ◌∙◌, Bool, true, false, not, Option, none, some, List, [], ◌∷◌,
  map, ◌&&◌, ◌||◌, arith, if◌then◌else◌, str_eq, eq_iff, contains, Bool-cases, Option-cases, inl,
  inr,
}
use issueq.Sql.{count_where, select_where, first_where}
use issueq.Sql.Laws.{first_where-update, first_where-meets}
use issueq.Sql.Keys.{HasUniqueKeys}
use issueq.Model.{Time, is_running}
use issueq.Store.{JobRow, Db}
use issueq.Store.Owned.{has_id, find_job, update_jobs}
use issueq.Store.Leases.{
  is_expired, is_active_here, expired_ids, released_row, still_running, release_ids,
  release_expired_leases,
}
use issueq.Store.WellFormed.{IsWellFormed, job_key}

-- The row of a job after the release, given whether its id is in the list.
abbrev released_if : Bool → Time → JobRow → JobRow
released_if b now r = if b && is_running r.status then released_row now r else r

abbrev pub map_row : (JobRow → JobRow) → Option JobRow → Option JobRow
map_row f none = none
map_row f (some r) = some (f r)

one_release :
    (i j : String) (now : Time) (db : Db)
    → find_job i (update_jobs (still_running j) (released_row now) db)
      ≡ map_row (released_if (str_eq j i) now) (find_job i db)
unfolding released_row
one_release i j now db =
    first_where-update (has_id i) (still_running j) (released_row now) (λ r _. refl) db.jobs
    ∙ elim (Option-cases (find_job i db)) [
      | inl e ↦ rw e
      | inr (r, e) ↦
          let at : has_id i r ≡ true = first_where-meets (has_id i) db.jobs e in
          rw e (ground (arith, at, eq_iff r.id i, eq_iff r.id j, eq_iff j i))
    ]

released_again :
    (b : Bool) (now : Time) (r : JobRow)
    → released_if b now (released_row now r) ≡ released_row now r
unfolding released_row
released_again true now r = refl
released_again false now r = refl

released_twice :
    (a b : Bool) (now : Time) (r : JobRow)
    → released_if b now (released_if a now r) ≡ released_if (a || b) now r
unfolding released_row
released_twice false b now r = refl
released_twice true b now r = elim (Bool-cases (is_running r.status)) [
  | inl e ↦ rw e (released_again b now r)
  | inr e ↦ rw e (ground (arith, e))
]

released_all :
    (a b : Bool) (now : Time) (o : Option JobRow)
    → map_row (released_if b now) (map_row (released_if a now) o)
      ≡ map_row (released_if (a || b) now) o
released_all a b now none = refl
released_all a b now (some r) = ap some (released_twice a b now r)

release_ids-row :
    (i : String) (now : Time) (ids : List String) (n : ℕ) (db : Db)
    → find_job i (release_ids now ids n db).1
      ≡ map_row (released_if (contains ids i) now) (find_job i db)
unfolding release_ids
release_ids-row i now [] n db = elim (Option-cases (find_job i db)) [
  | inl e ↦ rw e
  | inr (r, e) ↦ rw e
]
release_ids-row i now (j ∷ js) n db =
    release_ids-row i now js _ (update_jobs (still_running j) (released_row now) db)
    ∙ ap (map_row (released_if (contains js i) now)) (one_release i j now db)
    ∙ released_all (str_eq j i) (contains js i) now (find_job i db)

abbrev ids_where : (JobRow → Bool) → List JobRow → List String
ids_where p rows = map (λ r. r.id) (select_where p rows)

select_twice :
    (p q : JobRow → Bool) (rows : List JobRow)
    → select_where p (select_where q rows) ≡ select_where (λ r. q r && p r) rows
unfolding select_where
select_twice p q [] = refl
select_twice p q (r ∷ rs) =
    let ih = select_twice p q rs in
    elim (Bool-cases (q r)) [
      | inr e ↦ rw (e, select_where) ih
      | inl e ↦ elim (Bool-cases (p r)) [
        | inl k ↦ rw (e, k, select_where) (ap (λ rows. r ∷ rows) ih)
        | inr k ↦ rw (e, k, select_where) ih
      ]
    ]

absent_id :
    (i : String) (p : JobRow → Bool) (rows : List JobRow)
    → count_where (has_id i) rows ≡ 0
    → contains (ids_where p rows) i ≡ false
unfolding select_where count_where
absent_id i p [] h = refl
absent_id i p (r ∷ rs) h =
    let e : str_eq r.id i ≡ false = ground (arith, h) in
    let ih = absent_id i p rs (ground (arith, h)) in
    elim (Bool-cases (p r)) [ inl k ↦ rw (k, e) ih | inr k ↦ rw k ih ]

abbrev chosen : (JobRow → Bool) → Option JobRow → Bool
chosen p none = false
chosen p (some r) = p r

ids_where-contains :
    (i : String) (p : JobRow → Bool) (rows : List JobRow)
    → HasUniqueKeys job_key rows
    → contains (ids_where p rows) i ≡ chosen p (first_where (has_id i) rows)
unfolding select_where first_where
ids_where-contains i p [] u = refl
ids_where-contains i p (r ∷ rs) (fresh, u) = elim (Bool-cases (str_eq r.id i)) [
  | inr e ↦
      let ih = ids_where-contains i p rs u in
      elim (Bool-cases (p r)) [ inl k ↦ rw (k, e) ih | inr k ↦ rw (k, e) ih ]
  | inl e ↦
      let absent =
        absent_id i p rs (subst (λ k. count_where (has_id k) rs ≡ 0) ((eq_iff r.id i).0 e) fresh) in
      elim (Bool-cases (p r)) [ inl k ↦ rw (k, e) (rw k) | inr k ↦ rw (k, e) (absent ∙ sym k) ]
]

module _ (now stale_before : Time) (current : String) (active : List String) (db : Db) where
  -- The rows that the release gives back.
  abbrev pub is_released : JobRow → Bool
  is_released r = is_expired now stale_before db r && not (is_active_here current active r)

  listed :
      (job_id : String)
      → IsWellFormed db
      → contains (expired_ids now stale_before current active db) job_id
        ≡ chosen is_released (find_job job_id db)
  unfolding expired_ids
  listed job_id w =
      ap (λ rows. contains (map (λ r. r.id) rows) job_id)
        (select_twice (λ r. not (is_active_here current active r)) (is_expired now stale_before db)
          db.jobs)
      ∙ ids_where-contains job_id is_released db.jobs w.job_keys

  runs_if_released : (r : JobRow) → is_released r ≡ true → is_running r.status ≡ true
  unfolding is_expired
  runs_if_released r h = ground arith

  chosen_row :
      (o : Option JobRow)
      → map_row (released_if (chosen is_released o) now) o
        ≡ map_row (λ r. if is_released r then released_row now r else r) o
  chosen_row none = refl
  chosen_row (some r) = elim (Bool-cases (is_released r)) [
    | inr e ↦ rw e
    | inl e ↦ let runs = runs_if_released r e in rw (e, runs)
  ]

  -- Releasing the expired leases gives back exactly the running jobs with a passed lease whose owner
  -- has no fresh heartbeat, of which no durable launch is recorded, and which the caller does not
  -- work on itself; the row of every other job is as it was.
  pub release_expired_leases-row :
      (job_id : String)
      → IsWellFormed db
      → find_job job_id (release_expired_leases now stale_before current active db).1
        ≡ map_row (λ r. if is_released r then released_row now r else r) (find_job job_id db)
  unfolding release_expired_leases
  release_expired_leases-row job_id w =
      release_ids-row job_id now (expired_ids now stale_before current active db) 0 db
      ∙ ap (λ b. map_row (released_if b now) (find_job job_id db)) (listed job_id w)
      ∙ chosen_row (find_job job_id db)
