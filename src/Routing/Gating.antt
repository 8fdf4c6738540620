-- ===== src/Routing/Gating.antt =====
-- What a handoff gate asks before a job is enqueued.
use mathlib.Core.Path.{subst}
use issueq.Prelude.{
  String, ◌≡◌, ◌≢◌, refl, ap, sym, ◌∙◌, Bool, true, false, not, Option, none, some, arith, ◌&&◌,
  if◌then◌else◌, str_eq, eq_iff, contains, trim_space, All, Bool-cases, Option-cases, inl, inr,
}
use issueq.Model.{decision_not_allowed, next_route_mismatch, IssueSnapshot, Handoff}
use issueq.Config.{RouteConfig}
use issueq.Store.{HandoffRow, Db}
use issueq.Store.Scan.{scan_handoff}
use issueq.Store.Handoffs.{newest_before, matches_query, latest_matching_handoff}
use issueq.Router.Gate.{
  Encodings, GateDecision, blocks, is_nil, handoff_gate_enabled, next_route_wanted, source_fresh,
  freshness_decision, handoff_decision, gate_query, evaluate_gate,
}
use issueq.Records.Newest.{latest_matching_handoff-newest}

-- What the gate of the route asks of a handoff.
pub record Satisfies (e : Encodings) (route : RouteConfig) (issue : IssueSnapshot) (h : Handoff)
    : Type 0 where
  pub allowed :
      is_nil route.gate.handoff.decisions ≡ false
      → contains route.gate.handoff.decisions h.decision ≡ true
  pub routed :
      next_route_wanted route.gate.handoff.next_route route.name ≢ ""
      → h.next_route ≡ next_route_wanted route.gate.handoff.next_route route.name
  pub fresh :
      trim_space route.gate.handoff.freshness ≡ "source_unchanged" → source_fresh e h issue ≡ true
  pub untargeted : trim_space route.gate.handoff.freshness ≢ "target_head_unchanged"

pub not_eq : {s t : String} → str_eq s t ≡ false → s ≢ t
not_eq {s} {t} h e = let k = (eq_iff s t).1 e in cc

text_cases : (s t : String) → (s ≢ t → str_eq s t ≡ false)
text_cases s t ne = elim (Bool-cases (str_eq s t)) [
  | inl e ↦ absurd (ne ((eq_iff s t).0 e))
  | inr e ↦ e
]

last_passes :
    (a b : Bool) (x y z : GateDecision)
    → x.blocked ≡ true
    → y.blocked ≡ true
    → (if a then x else if b then y else z).blocked ≡ false
    → z.blocked ≡ false
last_passes true b x y z h k pass = cc
last_passes false true x y z h k pass = cc
last_passes false false x y z h k pass = pass

module _ (e : Encodings) (h : Handoff) (issue : IssueSnapshot) where
  stale_blocks :
      source_fresh e h issue ≡ false
      → (freshness_decision e "source_unchanged" h issue).blocked ≡ true
  unfolding freshness_decision
  stale_blocks x = rw (x, freshness_decision)

  freshness-fresh :
      (freshness : String)
      → freshness ≡ "source_unchanged"
      → (freshness_decision e freshness h issue).blocked ≡ false
      → source_fresh e h issue ≡ true
  freshness-fresh freshness same pass = elim (Bool-cases (source_fresh e h issue)) [
    | inl f ↦ f
    | inr x ↦
        let stops = ap (λ f. (freshness_decision e f h issue).blocked) same ∙ stale_blocks x in
        cc (stops, pass)
  ]

  target_blocks : (freshness_decision e "target_head_unchanged" h issue).blocked ≡ true
  unfolding freshness_decision
  target_blocks = refl

  freshness-untargeted :
      (freshness : String)
      → (freshness_decision e freshness h issue).blocked ≡ false
      → freshness ≢ "target_head_unchanged"
  freshness-untargeted freshness pass same =
      let stops = ap (λ f. (freshness_decision e f h issue).blocked) same ∙ target_blocks in
      cc (stops, pass)

module _ (e : Encodings) (route : RouteConfig) (issue : IssueSnapshot) where
  reaches_freshness :
      (h : Handoff)
      → (handoff_decision e route issue h).blocked ≡ false
      → (freshness_decision e (trim_space route.gate.handoff.freshness) h issue).blocked ≡ false
  unfolding handoff_decision
  reaches_freshness h pass =
      let gate = route.gate.handoff in
      let wanted = next_route_wanted gate.next_route route.name in
      last_passes (not (is_nil gate.decisions) && not (contains gate.decisions h.decision))
        (not (str_eq wanted "") && not (str_eq h.next_route wanted))
        (blocks decision_not_allowed (some h)) (blocks next_route_mismatch (some h))
        (freshness_decision e (trim_space gate.freshness) h issue) refl refl pass

  handoff_decision-Satisfies :
      (h : Handoff) → (handoff_decision e route issue h).blocked ≡ false → Satisfies e route issue h
  unfolding handoff_decision
  handoff_decision-Satisfies h pass =
      let freshness = trim_space route.gate.handoff.freshness in
      let wanted = next_route_wanted route.gate.handoff.next_route route.name in
      record {
        allowed = λ some_decisions. ground arith;
        routed = λ wants.
            let ne = text_cases wanted "" wants in
            (eq_iff h.next_route wanted).0 (ground (arith, ne));
        fresh = λ same. freshness-fresh e h issue freshness same (reaches_freshness h pass);
        untargeted = freshness-untargeted e h issue freshness (reaches_freshness h pass);
      }

  module _ (db : Db) (required : route.gate.handoff.required ≡ true) where
    abbrev found_handoff : Option Handoff
    found_handoff = latest_matching_handoff (gate_query route issue) db

    missing_blocks : found_handoff ≡ none → (evaluate_gate e route issue db).blocked ≡ true
    unfolding evaluate_gate handoff_gate_enabled
    missing_blocks none_found = rw (required, none_found, evaluate_gate) (rw required)

    decides :
        (h : Handoff)
        → found_handoff ≡ some h
        → evaluate_gate e route issue db ≡ handoff_decision e route issue h
    unfolding evaluate_gate handoff_gate_enabled
    decides h found = rw (required, found, evaluate_gate)

    -- A gate that requires a handoff lets an issue pass only on the newest handoff of the issue that
    -- is from one of the gate's routes, and only if the handoff satisfies the gate: its decision is
    -- one of those allowed, it names the route wanted, and, if the gate asks for that, it is of the
    -- issue as it now is; a gate on an unchanged target lets nothing pass.
    pub evaluate_gate-required :
        (evaluate_gate e route issue db).blocked ≡ false
        → (r : HandoffRow) × (matches_query (gate_query route issue) r ≡ true)
          × Satisfies e route issue (scan_handoff r)
          × All
              (λ s. matches_query (gate_query route issue) s ≡ true → newest_before r s ≡ true)
              db.handoffs
    evaluate_gate-required pass = elim (Option-cases found_handoff) [
      | inl none_found ↦ let stops = missing_blocks none_found in absurd cc
      | inr (h, found) ↦
          let (r, same, meets, newest) =
            latest_matching_handoff-newest (gate_query route issue) db found in
          let passes : (handoff_decision e route issue h).blocked ≡ false =
            sym (ap (λ d. d.blocked) (decides h found)) ∙ pass in
          (
            r,
            meets,
            subst (Satisfies e route issue) same (handoff_decision-Satisfies h passes),
            newest,
          )
    ]
