-- ===== src/Dispatcher/Refilling.antt =====
-- How many rounds the loop of `refill` takes.
use mathlib.Core.Path.{subst}
use issueq.Prelude.{
  ℕ, suc, ◌≤◌, ◌<◌, ℤ, String, ◌≡◌, refl, true, false, Option, none, some, List, [], ◌∷◌, str_eq,
  contains, length, arith, Bool-cases, inl, inr,
}
use issueq.Prelude.Text.Equal.{same_text}
use issueq.Sql.Laws.{first_where-meets}
use issueq.Model.{Time, JobStatus, Job, RunnerIdentity}
use issueq.Config.{RouteConfig}
use issueq.Store.{JobRow, Db, Result, ok, err}
use issueq.Store.Owned.{has_id}
use issueq.Store.Claim.{ClaimFilter, is_claimable, claim_next_job_in_frontier}
use issueq.Store.WellFormed.{IsWellFormed}
use issueq.Store.Steps.{StoreStep-IsWellFormed, JobStep-StoreStep, claims}
use issueq.Claiming.Priority.{claim-priority}
use issueq.Errors.{CallError, Failure, Answer, value, error}
use issueq.Effects.{World, Outside, Io, pure, on_answer, store_call, call, result_of, next_turn}
use issueq.Effects.Queue.{claim_in_frontier}
use issueq.Effects.Ends.{OnValue}
use issueq.Effects.From.{From, From-pure, From-if, From-handle, from_rules}
use issueq.Actions.Labels.{remove_without}
use issueq.Workflow.{route_by_name, max_global_concurrency}
use issueq.Workflow.Prepare.{Prepared}
use issueq.Workflow.Stable.{Keeps-finalize_claimed_job}
use issueq.Workflow.StablePrograms.{Keeps-prepare}
use issueq.Workflow.Launch.Safety.{IsLaunchStable, Keeps-launch}
use issueq.Dispatcher.{
  Wave, WaveConfig, Refilled, stopped, count_claimed, launch_input, refill_launch, refill_prepared,
  refill_route, refill_claimed, has_room, refill,
}

abbrev Sound : World → Type 0
Sound w = IsWellFormed w.db

Sound-IsLaunchStable : (job_id instance : String) → IsLaunchStable job_id instance Sound
Sound-IsLaunchStable job_id instance = record {
  stable = record {
    turns = λ w h. h;
    steps = λ w step h. StoreStep-IsWellFormed (JobStep-StoreStep step) h;
    renewals = λ w h. h;
    writes = λ w c is h. h;
  };
  starts = λ w spec marked h. h;
  cancels = λ w run h. h;
}

claimable-in_frontier :
    (kinds ids : List String) (limits : String → ℤ) (db : Db) (r : JobRow)
    → is_claimable
        (record { allowed_kinds = kinds; per_route_limit = limits; frontier = some ids })
        db
        r
      ≡ true
    → contains ids r.id ≡ true
unfolding is_claimable
claimable-in_frontier kinds ids limits db r h = ground arith

-- The job that a claim returns is in the frontier.
claimed-in_frontier :
    (identity : RunnerIdentity) (kinds : List String) (limits : String → ℤ) (ids : List String)
    (max d : ℤ) (now : Time) (db : Db) {job : Job}
    → IsWellFormed db
    → (claim_next_job_in_frontier identity kinds max limits d ids now db).0 ≡ ok (some job)
    → contains ids job.id ≡ true
unfolding claim_next_job_in_frontier
claimed-in_frontier identity kinds limits [] max d now db w h = absurd cc
claimed-in_frontier identity kinds limits (x ∷ xs) max d now db {job} w h =
    let f : ClaimFilter = record {
      allowed_kinds = kinds;
      per_route_limit = limits;
      frontier = some (x ∷ xs);
    } in
    let (r, found, eligible, claimable, first) = claim-priority identity f max d now db w h in
    let same : r.id ≡ job.id = same_text (first_where-meets (has_id job.id) db.jobs found) in
    subst (λ i. contains (x ∷ xs) i ≡ true) same
      (claimable-in_frontier kinds (x ∷ xs) limits db r claimable)

claim-IsWellFormed :
    (identity : RunnerIdentity) (kinds : List String) (limits : String → ℤ) (ids : List String)
    (max d : ℤ) (now : Time) (db : Db)
    → IsWellFormed db
    → IsWellFormed (claim_next_job_in_frontier identity kinds max limits d ids now db).1
unfolding claim_next_job_in_frontier
claim-IsWellFormed identity kinds limits [] max d now db w = w
claim-IsWellFormed identity kinds limits (x ∷ xs) max d now db w =
    let f : ClaimFilter = record {
      allowed_kinds = kinds;
      per_route_limit = limits;
      frontier = some (x ∷ xs);
    } in
    StoreStep-IsWellFormed (claims identity f max d now) w

length-remove_le : (ls : List String) (x : String) → length (remove_without ls x) ≤ length ls
length-remove_le [] x = omega arith
length-remove_le (y ∷ ys) x = let ih = length-remove_le ys x in ground arith

length-remove :
    (ls : List String) (x : String)
    → contains ls x ≡ true
    → length (remove_without ls x) < length ls
length-remove [] x h = absurd cc
length-remove (y ∷ ys) x h = elim (Bool-cases (str_eq y x)) [
  | inl e ↦ let le = length-remove_le ys x in ground arith
  | inr e ↦ let ih = length-remove ys x (ground arith) in ground arith
]

module _ (o : Outside) (c : WaveConfig) where
  abbrev Finishes : Io Refilled → Type 0
  Finishes m = From Sound (λ r _. r.unfinished ≡ false) m

  stopped-Finishes :
      (wave : Wave) (frontier : List String) (x : Option CallError)
      → Finishes (pure (stopped wave frontier x))
  stopped-Finishes wave frontier x = From-pure _ (λ w. refl)

  module _ (loop : Wave → List String → Io Refilled) (frontier : List String)
      (ends : (wave : Wave) → Finishes (loop wave frontier)) where
    launch-Finishes :
        (job : Job) (route : RouteConfig) (wave : Wave) (p : Prepared)
        → Finishes (refill_launch o c loop job route wave frontier p)
    launch-Finishes job route wave p =
        From-handle _ _ _
          (Keeps-launch o (launch_input o c loop job route p)
            (Sound-IsLaunchStable job.id c.identity.instance_id))
          (λ a. ends _) (λ x. search (from_rules, ends, stopped-Finishes))

    prepared-Finishes :
        (job : Job) (route : RouteConfig) (wave : Wave) (p : Prepared)
        → Finishes (refill_prepared o c loop job route wave frontier p)
    prepared-Finishes job route wave p = search (from_rules, ends, launch-Finishes)

    route-Finishes :
        (job : Job) (wave : Wave) (route : Option RouteConfig)
        → Finishes (refill_route o c loop job wave frontier route)
    route-Finishes job wave none =
        From-handle _ _ _
          (Keeps-finalize_claimed_job o c.identity job
            (Sound-IsLaunchStable job.id c.identity.instance_id).stable JobStatus.failed _ refl)
          (λ a. ends _) (λ x. stopped-Finishes _ _ _)
    route-Finishes job wave (some route) =
        From-handle _ _ _
          (Keeps-prepare o c.cfg c.identity c.lease route job
            (Sound-IsLaunchStable job.id c.identity.instance_id).stable c.has_github)
          (prepared-Finishes job route wave) (λ x. stopped-Finishes _ _ _)

  -- What is known after a claim.
  abbrev AfterClaim : List String → Answer (Option Job) × World → Type 0
  AfterClaim ids (value (some job), w) = (contains ids job.id ≡ true) × Sound w
  AfterClaim ids (value none, w) = Sound w
  AfterClaim ids (error x, w) = Sound w

  answered-AfterClaim :
      (ids : List String) (w : World) (r : Result (Option Job))
      → ((job : Job) → r ≡ ok (some job) → contains ids job.id ≡ true)
      → Sound w
      → AfterClaim ids (result_of r, w)
  answered-AfterClaim ids w (ok (some job)) inside h = (inside job refl, h)
  answered-AfterClaim ids w (ok none) inside h = h
  answered-AfterClaim ids w (err x) inside h = h

  call-AfterClaim :
      (ids : List String) (d : Option Failure) (now : Time) (w : World)
      → Sound w
      → AfterClaim ids (
          store_call d
            (claim_next_job_in_frontier c.identity c.cfg.runner.capabilities
              (max_global_concurrency c.cfg)
              c.limits
              c.lease
              ids
              now)
            w)
  call-AfterClaim ids (some x) now w h = h
  call-AfterClaim ids none now w h =
      answered-AfterClaim ids _ _
        (λ job e.
          claimed-in_frontier c.identity c.cfg.runner.capabilities c.limits ids
            (max_global_concurrency c.cfg) c.lease now w.db h e)
        (claim-IsWellFormed c.identity c.cfg.runner.capabilities c.limits ids
          (max_global_concurrency c.cfg) c.lease now w.db h)

  claim-AfterClaim :
      (ids : List String) (w : World)
      → Sound w
      → AfterClaim ids (
          claim_in_frontier o c.identity c.cfg.runner.capabilities
            (max_global_concurrency c.cfg)
            c.limits
            c.lease
            ids
            w)
  unfolding claim_in_frontier call
  claim-AfterClaim ids w h =
      call-AfterClaim ids (o.driver (suc w.turn)) (o.clock w.turn) (next_turn w) h

  claimed-Finishes :
      (loop : Wave → List String → Io Refilled) (wave : Wave) (ids : List String)
      → ((job : Job)
          → contains ids job.id ≡ true
          → (next : Wave) → Finishes (loop next (remove_without ids job.id)))
      → (out : Answer (Option Job) × World) → AfterClaim ids out
      → OnValue
          (λ r _. r.unfinished ≡ false)
          (on_answer
            (refill_claimed o c loop wave ids)
            (λ x. pure (stopped wave ids (some x)))
            out.0
            out.1)
  claimed-Finishes loop wave ids ends (value (some job), w) (inside, h) =
      (route-Finishes loop (remove_without ids job.id) (ends job inside) job (count_claimed wave)
          (route_by_name c.cfg job.route_name)).at
        w h
  claimed-Finishes loop wave ids ends (value none, w) h = refl
  claimed-Finishes loop wave ids ends (error x, w) h = refl

  no_room : (wave : Wave) (ids : List String) → length ids ≤ 0 → has_room o c wave ids ≡ false
  no_room wave [] h = ground arith
  no_room wave (x ∷ xs) h = absurd (omega arith)

  refill-Finishes :
      (fuel : ℕ) (wave : Wave) (ids : List String)
      → length ids ≤ fuel
      → Finishes (refill o c fuel wave ids)
  unfolding refill
  refill-Finishes ℕ.zero wave ids h = rw (no_room wave ids h) (stopped-Finishes wave ids none)
  refill-Finishes (suc fuel) wave ids h =
      From-if (has_room o c wave ids) _ _
        (record {
          at = λ w k.
              claimed-Finishes (refill o c fuel) wave ids
                (λ job inside next.
                  let less = length-remove ids job.id inside in
                  refill-Finishes fuel next (remove_without ids job.id) (omega arith))
                _ (claim-AfterClaim ids w k);
        })
        (stopped-Finishes wave ids none)

  -- From well-formed tables, the loop that refills a wave ends within as many rounds as the
  -- frontier has jobs, whatever the store, GitHub, the supervisor and the operating system
  -- answer.
  pub refill-unfinished :
      (fuel : ℕ) (wave : Wave) (frontier : List String) (w : World)
      → length frontier ≤ fuel
      → IsWellFormed w.db
      → OnValue (λ r _. r.unfinished ≡ false) (refill o c fuel wave frontier w)
  refill-unfinished fuel wave frontier w h sound = (refill-Finishes fuel wave frontier h).at w sound
