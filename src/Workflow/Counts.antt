-- ===== src/Workflow/Counts.antt =====
-- The counts of the workflow's passes over observations and stale jobs.
use mathlib.Core.Path.{subst}
use issueq.Prelude.{
  ℕ, suc, ◌+◌, ◌≡◌, refl, sym, ap, ◌∙◌, Option, none, some, List, [], ◌∷◌, arith, length, inl, inr,
  Option-cases,
}
use issueq.Model.{Time, RunnerIdentity}
use issueq.Errors.{CallError}
use issueq.Workflow.Observe.{Printing, JobObservation}
use issueq.Workflow.Finalize.{
  Finalized, ResultFiles, ObservationFinalizer, ObservationFinalization,
  ObservationFinalizationSummary, count_finalization, count_observed, finalize_owned_observation,
  finalize_owned_observations,
}

-- Every observation is counted as one outcome, and every job finalized as one status.
pub record Adds (s : ObservationFinalizationSummary) : Type 0 where
  pub outcomes : s.observed ≡ s.finalized + s.ownership_lost + s.unknown + s.kept_running
  pub statuses : s.finalized ≡ s.succeeded + s.failed + s.cancelled

count_finalization-Adds :
    (f : ObservationFinalization) (s : ObservationFinalizationSummary)
    → Adds s
    → Adds (count_finalization f (count_observed s))
unfolding count_finalization
count_finalization-Adds f s w = record {
  outcomes = ground (arith, w.outcomes);
  statuses = ground (arith, w.statuses);
}

abbrev pub no_finalizations : ObservationFinalizationSummary
no_finalizations = record {
  observed = 0;
  finalized = 0;
  succeeded = 0;
  failed = 0;
  cancelled = 0;
  kept_running = 0;
  unknown = 0;
  ownership_lost = 0;
}

count_finalization-observed :
    (f : ObservationFinalization) (s : ObservationFinalizationSummary)
    → (count_finalization f (count_observed s)).observed ≡ s.observed + 1
unfolding count_finalization
count_finalization-observed f s = ground arith

module _ {S : Type 0} (p : Printing) (files : ResultFiles) (queue : ObservationFinalizer S)
    (identity : RunnerIdentity) (now : Time) where
  abbrev finalized_all :
      List JobObservation
      → ObservationFinalizationSummary
      → S
      → (ObservationFinalizationSummary × Option CallError) × S
  finalized_all items = finalize_owned_observations p files queue identity items now

  abbrev turn : JobObservation → S → Finalized × S
  turn item s = finalize_owned_observation p files queue identity item.job item.observation now s

  next_turn :
      (item : JobObservation) (items : List JobObservation)
      (summary : ObservationFinalizationSummary) (s : S)
      → (turn item s).0.1 ≡ none
      → finalized_all (item ∷ items) summary s
        ≡ finalized_all items
            (count_finalization (turn item s).0.0 (count_observed summary))
            (turn item s).1
  unfolding finalize_owned_observations
  next_turn item items summary s e = rw (e, finalize_owned_observations)

  last_turn :
      (item : JobObservation) (items : List JobObservation)
      (summary : ObservationFinalizationSummary) (s : S) (x : CallError)
      → (turn item s).0.1 ≡ some x
      → (finalized_all (item ∷ items) summary s).0.1 ≡ some x
  unfolding finalize_owned_observations
  last_turn item items summary s x e = rw (e, finalize_owned_observations)

  -- The counts after a loop over `n` observations.
  abbrev Finishes :
      ℕ
      → ObservationFinalizationSummary
      → (ObservationFinalizationSummary × Option CallError) × S
      → Type 0
  Finishes n start out = Adds out.0.0 × (out.0.0.observed ≡ start.observed + n)

  finalized_all-Finishes :
      (items : List JobObservation) (summary : ObservationFinalizationSummary) (s : S)
      → Adds summary
      → (finalized_all items summary s).0.1 ≡ none
      → Finishes (length items) summary (finalized_all items summary s)
  unfolding finalize_owned_observations
  finalized_all-Finishes [] summary s w h = (w, omega arith)
  finalized_all-Finishes (item ∷ items) summary s w h = elim (Option-cases (turn item s).0.1) [
    | inr (x, e) ↦ let stopped = last_turn item items summary s x e in absurd cc
    | inl e ↦
        let f = (turn item s).0.0 in
        let step = next_turn item items summary s e in
        let counted = count_finalization-observed f summary in
        let rest =
          finalized_all-Finishes items (count_finalization f (count_observed summary))
            (turn item s).1 (count_finalization-Adds f summary w)
            (sym (ap (λ o. o.0.1) step) ∙ h) in
        subst (Finishes (suc (length items)) summary) (sym step)
          (rest.0, rest.1 ∙ omega (arith, counted))
  ]

  -- A pass over observations that ends without an error has counted each of them once: as a job
  -- finalized, a job whose owner is another now, one that keeps running, or one of which nothing is
  -- known; and each job finalized once, as succeeded, failed or cancelled.
  pub finalize_owned_observations-Adds :
      (items : List JobObservation) (s : S)
      → (finalized_all items no_finalizations s).0.1 ≡ none
      → Adds (finalized_all items no_finalizations s).0.0
        × ((finalized_all items no_finalizations s).0.0.observed ≡ length items)
  finalize_owned_observations-Adds items s h =
      let (adds, observed) =
        finalized_all-Finishes items no_finalizations s
          (record { outcomes = refl; statuses = refl }) h in
      (adds, omega (arith, observed))
