-- ===== src/Dispatcher/Reaping/Stable.antt =====
-- A pass over the active jobs, and the stable predicates.
use mathlib.Core.Path.{subst}
use issueq.Prelude.{
  String, ◌≡◌, refl, sym, ap, ◌∙◌, true, false, Option, none, some, List, [], ◌∷◌, contains, str_eq,
  arith, Option-cases, Bool-cases, inl, inr,
}
use issueq.Prelude.Text.Equal.{same_text, str_eq_self}
use issueq.Model.{Time, Job}
use issueq.Supervisor.{Observation}
use issueq.Errors.{CallError}
use issueq.Effects.{World, Outside, Io, next_turn}
use issueq.Effects.Queue.{owned_running_jobs}
use issueq.Effects.Keeps.{
  Keeps, Keeps-pure, Keeps-bind, Keeps-if, Keeps-handle, Keeps-call, Keeps-request, keeps_rules,
}
use issueq.Effects.Stable.{IsStable, Keeps-ask_bind, Keeps-renew}
use issueq.Workflow.{ObservationDecision}
use issueq.Workflow.Observe.{DurableLaunch, durable, not_durable}
use issueq.Workflow.StableFinalize.{Keeps-finalize}
use issueq.Store.Owned.{find_job}
use issueq.Workflow.Others.{HasRow-IsStable}
use issueq.Dispatcher.{Wave, WaveConfig}
use issueq.Dispatcher.Reaping.{
  Reap, reaped, owned_job, observed_by, inspect_job, reap_running, reap_unknown, reap_finalized,
  reap_ended, reap_decided, reap_key, reap_on, reap_keys, reap_renew_active,
}

owned_job-id :
    (jobs : List Job) (id : String) {job : Job} → owned_job jobs id ≡ some job → job.id ≡ id
owned_job-id [] id {job} h = absurd cc
owned_job-id (j ∷ jobs) id {job} h = elim (Option-cases (owned_job jobs id)) [
  | inr (later, e) ↦
      let same : later ≡ job = ground arith in ap (λ j. j.id) (sym same) ∙ owned_job-id jobs id e
  | inl e ↦ elim (Bool-cases (str_eq j.id id)) [
    | inl same ↦ let at : j ≡ job = ground arith in ap (λ j. j.id) (sym at) ∙ same_text same
    | inr differs ↦ absurd (ground arith)
  ]
]

module _ (o : Outside) (c : WaveConfig) {P : World → Type 0} (keys : List String)
    (turns : (w : World) → P w → P (next_turn w))
    (s : (job_id : String)
      → contains keys job_id ≡ true
      → IsStable job_id c.identity.instance_id P) where
  Keeps-observed_by : (d : DurableLaunch) → Keeps P (observed_by o d)
  Keeps-observed_by (not_durable reason) = Keeps-pure _
  Keeps-observed_by (durable launch) = Keeps-request _ turns

  Keeps-inspect_job : (job : Job) → Keeps P (inspect_job o job)
  unfolding inspect_job
  Keeps-inspect_job job = Keeps-observed_by _

  Keeps-reap_running :
      (job : Job) (wave : Wave)
      → IsStable job.id c.identity.instance_id P
      → Keeps P (reap_running o c job wave)
  Keeps-reap_running job wave st =
      let renewal = Keeps-renew st o c.lease in search keeps_rules depth 12

  Keeps-reap_unknown :
      (job : Job) (wave : Wave)
      → IsStable job.id c.identity.instance_id P
      → Keeps P (reap_unknown o c job wave)
  Keeps-reap_unknown job wave st =
      let renewal = Keeps-renew st o c.lease in search keeps_rules depth 12

  Keeps-reap_finalized :
      (job : Job) (obs : Observation) (wave : Wave) (now : Time)
      → IsStable job.id c.identity.instance_id P
      → Keeps P (reap_finalized o c job obs wave now)
  Keeps-reap_finalized job obs wave now st =
      let kept = Keeps-finalize o c.cfg c.identity c.lease job obs now st c.has_github in
      search keeps_rules depth 12

  Keeps-reap_ended :
      (job : Job) (obs : Observation) (wave : Wave)
      → IsStable job.id c.identity.instance_id P
      → Keeps P (reap_ended o c job obs wave)
  Keeps-reap_ended job obs wave st =
      Keeps-ask_bind st o o.clock _ (λ now. Keeps-reap_finalized job obs wave now st)

  Keeps-reap_decided :
      (job : Job) (wave : Wave) (obs : Observation) (d : ObservationDecision)
      → IsStable job.id c.identity.instance_id P
      → Keeps P (reap_decided o c job wave obs d)
  Keeps-reap_decided job wave obs ObservationDecision.keep_running st =
      Keeps-reap_running job wave st
  Keeps-reap_decided job wave obs ObservationDecision.unknown st = Keeps-reap_unknown job wave st
  Keeps-reap_decided job wave obs ObservationDecision.succeeded st =
      Keeps-reap_ended job obs wave st
  Keeps-reap_decided job wave obs ObservationDecision.failed st = Keeps-reap_ended job obs wave st
  Keeps-reap_decided job wave obs ObservationDecision.cancelled st =
      Keeps-reap_ended job obs wave st

  Keeps-reap_key :
      (id : String) (wave : Wave) (found : Option Job)
      → ((job : Job) → found ≡ some job → IsStable job.id c.identity.instance_id P)
      → Keeps P (reap_key o c id wave found)
  Keeps-reap_key id wave none st = Keeps-pure _
  Keeps-reap_key id wave (some job) st =
      Keeps-handle _ _ _ (Keeps-inspect_job job)
        (λ obs. Keeps-reap_decided job wave obs _ (st job refl)) (λ x. Keeps-pure _)

  Keeps-reap_on :
      (rest : Wave → Io Reap) (wave : Wave) (x : Option CallError)
      → ((wave : Wave) → Keeps P (rest wave))
      → Keeps P (reap_on o c rest (reaped wave x))
  Keeps-reap_on rest wave none k = k wave
  Keeps-reap_on rest wave (some x) k = Keeps-pure _

  Keeps-reap_keys :
      (jobs : List Job) (ids : List String) (wave : Wave)
      → ((id : String) → contains ids id ≡ true → contains keys id ≡ true)
      → Keeps P (reap_keys o c jobs ids wave)
  unfolding reap_keys
  Keeps-reap_keys jobs [] wave among = Keeps-pure _
  Keeps-reap_keys jobs (id ∷ ids) wave among =
      let key = among id (let self = str_eq_self id in ground arith) in
      Keeps-bind _ _
        (Keeps-reap_key id wave (owned_job jobs id) (λ job e.
          subst (λ i. IsStable i c.identity.instance_id P) (sym (owned_job-id jobs id e))
            (s id key)))
        (λ r.
          Keeps-reap_on _ r.wave r.error
            (λ wave. Keeps-reap_keys jobs ids wave (λ i h. among i (ground arith))))

pub Keeps-reap :
    (o : Outside) (c : WaveConfig) {P : World → Type 0} (wave : Wave)
    → ((w : World) → P w → P (next_turn w))
    → ((job_id : String)
        → contains wave.active job_id ≡ true
        → IsStable job_id c.identity.instance_id P)
    → Keeps P (reap_renew_active o c wave)
unfolding reap_renew_active owned_running_jobs
Keeps-reap o c wave turns s = Keeps-if _ _ _ (Keeps-pure _) (
    Keeps-handle _ _ _ (Keeps-call o _ turns turns)
      (λ jobs. Keeps-reap_keys o c wave.active turns s jobs wave.active wave (λ i h. h))
      (λ x. Keeps-pure _))

-- A pass over the active jobs leaves the row of every job that is not active as it was, wherever it
-- ends.
pub reap_renew_active-others :
    (o : Outside) (c : WaveConfig) (wave : Wave) (w : World) (other : String)
    → contains wave.active other ≡ false
    → find_job other (reap_renew_active o c wave w).1.db ≡ find_job other w.db
reap_renew_active-others o c wave w other out =
    (Keeps-reap o c wave (λ w h. h)
        (λ job_id active.
          HasRow-IsStable {other = other} (λ same. cc (ap (contains wave.active) same, active, out))
            (find_job other w.db))).at
      w refl
