-- ===== src/Dispatcher/Reaping/Owned.antt =====
-- Which jobs are active after a pass over the active jobs.
use mathlib.Core.Path.{subst}
use issueq.Prelude.{
  String, ◌≡◌, refl, sym, Bool, true, false, if◌then◌else◌, Option, none, some, List, [], ◌∷◌,
  contains, Bool-cases, inl, inr, arith,
}
use issueq.Prelude.Text.Equal.{same_text, str_eq_self}
use issueq.Model.{Time, Job}
use issueq.Supervisor.{Observation}
use issueq.Store.{ok}
use issueq.Store.Queue.{list_owned_running_jobs}
use issueq.Effects.Queue.{owned_running_jobs}
use issueq.Errors.{Failure, CallError}
use issueq.Effects.{World, Outside, Io, pure, ask, handle, store_call, call, next_turn}
use issueq.Effects.Ends.{
  OnValue, Ends, Ends-pure, Ends-then, Ends-weaken, Ends-bind, Ends-handle, ends_rules,
}
use issueq.Actions.Merging.{contains-remove_without}
use issueq.Workflow.{ObservationDecision, observation_to_decision}
use issueq.Workflow.Finalize.{ObservationFinalization}
use issueq.Dispatcher.{Wave, WaveConfig, is_empty_list}
use issueq.Dispatcher.Reaping.Shrinking.{
  Shrinks, Shrinks-refl, Shrinks-drop, Shrinks-trans, Shrinks-count,
}
use issueq.Dispatcher.Reaping.{
  Reap, reaped, inspect_job, owned_job, drop_active, count_reaped, reap_finalized, reap_ended,
  reap_decided, reap_job, reap_key, reap_on, reap_keys, reap_renew_active, fail_reap,
}

abbrev pub is_found : Option Job → Bool
is_found none = false
is_found (some job) = true

abbrev Reaps : Wave → Reap → Type 0
Reaps wave r = Shrinks wave r.wave

-- The wave after a pass over the keys `ids`, when the instance owns `jobs`: if no call failed, each of
-- the keys that is still active is the key of an owned job.
pub record IsReaped (jobs : List Job) (ids : List String) (wave : Wave) (r : Reap) : Type 0 where
  pub shrinks : Shrinks wave r.wave
  pub owned :
      r.error ≡ none
      → (l : String) → contains ids l ≡ true
      → contains r.wave.active l ≡ true
      → is_found (owned_job jobs l) ≡ true

-- No job was claimed, and each active job was active before; if no call failed, it is one of `jobs`.
pub record IsKept (jobs : List Job) (wave : Wave) (r : Reap) : Type 0 where
  pub shrinks : Shrinks wave r.wave
  pub owned :
      r.error ≡ none
      → (l : String) → contains r.wave.active l ≡ true
      → is_found (owned_job jobs l) ≡ true

empty_has_none :
    (ls : List String) (l : String) → is_empty_list ls ≡ true → ¬ (contains ls l ≡ true)
empty_has_none [] l e h = absurd cc
empty_has_none (x ∷ xs) l e h = absurd cc

module _ (o : Outside) (c : WaveConfig) where
  kept-Reaps :
      (wave : Wave) (x : Option CallError) → Ends (λ r _. Reaps wave r) (pure (reaped wave x))
  kept-Reaps wave x = Ends-pure (reaped wave x) (λ _. Shrinks-refl wave)

  dropped-Reaps :
      (id : String) (wave : Wave)
      → Ends (λ r _. Reaps wave r) (pure (reaped (drop_active id wave) none))
  dropped-Reaps id wave = Ends-pure (reaped (drop_active id wave) none) (λ _. Shrinks-drop id wave)

  finalized-Reaps :
      (job : Job) (wave : Wave) (f : ObservationFinalization)
      → Ends (λ r _. Reaps wave r) (pure (reaped (drop_active job.id (count_reaped f wave)) none))
  finalized-Reaps job wave f =
      Ends-pure (reaped (drop_active job.id (count_reaped f wave)) none)
        (λ _. Shrinks-trans (Shrinks-count f wave) (Shrinks-drop job.id (count_reaped f wave)))

  reap_finalized-Reaps :
      (job : Job) (wave : Wave) (obs : Observation) (now : Time)
      → Ends (λ r _. Reaps wave r) (reap_finalized o c job obs wave now)
  reap_finalized-Reaps job wave obs now = search (ends_rules, kept-Reaps, finalized-Reaps) depth 12

  reap_ended-Reaps :
      (job : Job) (wave : Wave) (obs : Observation)
      → Ends (λ r _. Reaps wave r) (reap_ended o c job obs wave)
  reap_ended-Reaps job wave obs =
      Ends-bind (ask o.clock) (reap_finalized o c job obs wave) (reap_finalized-Reaps job wave obs)

  reap_decided-Reaps :
      (job : Job) (wave : Wave) (obs : Observation) (d : ObservationDecision)
      → Ends (λ r _. Reaps wave r) (reap_decided o c job wave obs d)
  reap_decided-Reaps job wave obs ObservationDecision.keep_running =
      search (ends_rules, kept-Reaps, dropped-Reaps) depth 12
  reap_decided-Reaps job wave obs ObservationDecision.unknown =
      search (ends_rules, kept-Reaps) depth 12
  reap_decided-Reaps job wave obs ObservationDecision.succeeded = reap_ended-Reaps job wave obs
  reap_decided-Reaps job wave obs ObservationDecision.failed = reap_ended-Reaps job wave obs
  reap_decided-Reaps job wave obs ObservationDecision.cancelled = reap_ended-Reaps job wave obs

  -- What the loop makes of a key.
  abbrev ReapsKey : String → Wave → Option Job → Reap → Type 0
  ReapsKey id wave found r =
      Shrinks wave r.wave × (is_found found ≡ false → contains r.wave.active id ≡ false)

  IsReaped-IsReaped :
      (jobs : List Job) (id : String) (ids : List String) (wave next : Wave) (r : Reap)
      → ReapsKey id wave (owned_job jobs id) (reaped next none)
      → IsReaped jobs ids next r
      → IsReaped jobs (id ∷ ids) wave r
  IsReaped-IsReaped jobs id ids wave next r (step, gone) h = record {
    shrinks = Shrinks-trans step h.shrinks;
    owned = λ e l m a. elim (Bool-cases (contains ids l)) [
      | inl later ↦ h.owned e l later a
      | inr first ↦ elim (Bool-cases (is_found (owned_job jobs l))) [
        | inl found ↦ found
        | inr lost ↦
            let same : id ≡ l = same_text (ground arith) in
            let still : contains next.active l ≡ true = h.shrinks.active l a in
            let left =
              subst (λ i. contains next.active i ≡ false) same
                (gone (subst (λ i. is_found (owned_job jobs i) ≡ false) (sym same) lost)) in
            absurd cc
      ]
    ];
  }

  reap_key-Reaps :
      (id : String) (wave : Wave) (found : Option Job)
      → Ends (λ r _. ReapsKey id wave found r) (reap_key o c id wave found)
  reap_key-Reaps id wave none = Ends-pure _ (λ _. (
    Shrinks-drop id wave,
    λ _.
        let e = contains-remove_without wave.active id id in
        let same = str_eq_self id in ground arith,
  ))
  reap_key-Reaps id wave (some job) =
      Ends-weaken (reap_job o c job wave) (λ r h. (h, λ e. absurd cc))
        (Ends-handle (inspect_job o job) _ _
          (λ obs. reap_decided-Reaps job wave obs (observation_to_decision obs))
          (λ x. kept-Reaps wave (some x)))

  reap_on-Reaps :
      (jobs : List Job) (id : String) (ids : List String) (wave : Wave) (rest : Wave → Io Reap)
      (next : Wave) (x : Option CallError)
      → ReapsKey id wave (owned_job jobs id) (reaped next x)
      → ((wave : Wave) → Ends (λ r _. IsReaped jobs ids wave r) (rest wave))
      → Ends (λ r _. IsReaped jobs (id ∷ ids) wave r) (reap_on o c rest (reaped next x))
  reap_on-Reaps jobs id ids wave rest next none h k =
      Ends-weaken (rest next) (λ r. IsReaped-IsReaped jobs id ids wave next r h) (k next)
  reap_on-Reaps jobs id ids wave rest next (some x) h k =
      Ends-pure _ (λ _. record { shrinks = h.0; owned = λ e l m a. absurd cc })

  reap_keys-Reaps :
      (jobs : List Job) (ids : List String) (wave : Wave)
      → Ends (λ r _. IsReaped jobs ids wave r) (reap_keys o c jobs ids wave)
  unfolding reap_keys
  reap_keys-Reaps jobs [] wave =
      Ends-pure _ (λ _. record { shrinks = Shrinks-refl wave; owned = λ e l k h. absurd cc })
  reap_keys-Reaps jobs (id ∷ ids) wave =
      Ends-then _ _ (reap_key-Reaps id wave (owned_job jobs id))
        (λ r h. reap_on-Reaps jobs id ids wave _ r.wave r.error h (reap_keys-Reaps jobs ids))

  IsReaped-IsKept :
      (jobs : List Job) (wave : Wave) (r : Reap)
      → IsReaped jobs wave.active wave r
      → IsKept jobs wave r
  IsReaped-IsKept jobs wave r h = record {
    shrinks = h.shrinks;
    owned = λ e l a. h.owned e l (h.shrinks.active l a) a;
  }

  reap_listed :
      (wave : Wave) (w : World) (failure : Option Failure)
      → OnValue
          (λ r _. IsKept (list_owned_running_jobs c.identity.instance_id w.db) wave r)
          (handle
            (store_call failure
              (λ db. (ok (list_owned_running_jobs c.identity.instance_id db), db)))
            (λ jobs. reap_keys o c jobs wave.active wave)
            (fail_reap o c wave)
            w)
  reap_listed wave w none =
      let jobs = list_owned_running_jobs c.identity.instance_id w.db in
      (Ends-weaken (reap_keys o c jobs wave.active wave) (IsReaped-IsKept jobs wave)
          (reap_keys-Reaps jobs wave.active wave)).at
        (next_turn w)
  reap_listed wave w (some x) = record { shrinks = Shrinks-refl wave; owned = λ e l a. absurd cc }

  reap_some :
      (wave : Wave) (w : World) (empty : Bool)
      → empty ≡ is_empty_list wave.active
      → OnValue
          (λ r _. IsKept (list_owned_running_jobs c.identity.instance_id w.db) wave r)
          ((if empty
              then pure (reaped wave none)
              else handle
                  (owned_running_jobs o c.identity.instance_id)
                  (λ jobs. reap_keys o c jobs wave.active wave)
                  (fail_reap o c wave))
            w)
  unfolding owned_running_jobs call
  reap_some wave w true e = record {
    shrinks = Shrinks-refl wave;
    owned = λ x l a. absurd (empty_has_none wave.active l (sym e) a);
  }
  reap_some wave w false e = reap_listed wave w (o.driver w.turn)

  -- After a pass over the active jobs, no job has been claimed, each active job was active before,
  -- and, if no call failed, it is one that the tables had running under the wave's instance when the
  -- pass began.
  pub reap_renew_active-IsKept :
      (wave : Wave) (w : World)
      → OnValue
          (λ r _. IsKept (list_owned_running_jobs c.identity.instance_id w.db) wave r)
          (reap_renew_active o c wave w)
  unfolding reap_renew_active
  reap_renew_active-IsKept wave w = reap_some wave w (is_empty_list wave.active) refl
