-- ===== src/Router/Gate.antt =====
-- router.go: `EvaluateGate` and what it calls. What the standard library computes of a text, a time
-- or a number is a parameter.
use issueq.Prelude.{
  ℤ, String, Bool, true, false, not, Option, none, some, List, [], ◌∷◌, ◌&&◌, ◌||◌, if◌then◌else◌,
  str_eq, is_blank, trim_space, contains,
}
use issueq.Model.{
  Time, is_zero, GateBlockReason, missing_handoff, decision_not_allowed, next_route_mismatch,
  source_stale, target_stale, IssueSnapshot, Handoff, HandoffQuery,
}
use issueq.Config.{HandoffNextRouteMode, HandoffNextRouteConfig, HandoffGateConfig, RouteConfig}
use issueq.Store.{Db}
use issueq.Store.Handoffs.{latest_matching_handoff}

-- The hexadecimal digits of the SHA-256 of a text, a UTC time in the layout of `RFC3339Nano`, and a
-- number in decimals.
pub record Encodings : Type 0 where
  pub sha256_hex : String → String
  pub rfc3339_nano : Time → String
  pub decimal : ℤ → String

pub record GateDecision : Type 0 where
  pub blocked : Bool
  pub reason : String
  pub handoff : Option Handoff

abbrev pub reason_text : GateBlockReason → String
reason_text missing_handoff = "missing_handoff"
reason_text decision_not_allowed = "decision_not_allowed"
reason_text next_route_mismatch = "next_route_mismatch"
reason_text source_stale = "source_stale"
reason_text target_stale = "target_stale"

abbrev pub blocks : GateBlockReason → Option Handoff → GateDecision
blocks reason handoff = record { blocked = true; reason = reason_text reason; handoff = handoff }

abbrev pub lets_pass : Option Handoff → GateDecision
lets_pass handoff = record { blocked = false; reason = ""; handoff = handoff }

abbrev is_disabled : HandoffNextRouteMode → Bool
is_disabled HandoffNextRouteMode.disabled = true
is_disabled _ = false

abbrev pub is_nil : List String → Bool
is_nil [] = true
is_nil (x ∷ xs) = false

unfoldable pub handoff_gate_enabled : HandoffGateConfig → Bool
handoff_gate_enabled gate =
    gate.required
    || not (is_nil gate.from)
    || not (is_nil gate.decisions)
    || not (is_disabled gate.next_route.mode)
    || not (is_blank gate.freshness)

abbrev wanted_by_mode : HandoffNextRouteMode → String → String → String
wanted_by_mode HandoffNextRouteMode.current value current = current
wanted_by_mode HandoffNextRouteMode.exact value current = value
wanted_by_mode HandoffNextRouteMode.disabled value current = ""

unfoldable pub next_route_wanted : HandoffNextRouteConfig → String → String
next_route_wanted next current = wanted_by_mode next.mode next.value current

-- The two layouts of the time are one.
unfoldable pub issue_fingerprints : Encodings → IssueSnapshot → List String
issue_fingerprints e issue =
    if is_zero issue.github_updated_at
    then e.sha256_hex issue.body ∷ []
    else e.rfc3339_nano issue.github_updated_at
      ∷ e.rfc3339_nano issue.github_updated_at
      ∷ e.sha256_hex issue.body
      ∷ []

unfoldable pub source_fresh : Encodings → Handoff → IssueSnapshot → Bool
unfolding issue_fingerprints
source_fresh e handoff issue =
    if not (str_eq handoff.source_kind "") && not (str_eq handoff.source_kind "github_issue")
    then false
    else if not (str_eq handoff.source_key "")
        && not (str_eq handoff.source_key issue.issue_key)
        && not (str_eq handoff.source_key (String.◌∷◌ "#" (e.decimal issue.number)))
    then false
    else if str_eq handoff.source_fingerprint ""
    then false
    else contains (issue_fingerprints e issue) handoff.source_fingerprint

-- The switch on the freshness that the gate asks for.
unfoldable pub freshness_decision : Encodings → String → Handoff → IssueSnapshot → GateDecision
unfolding source_fresh
freshness_decision e freshness handoff issue =
    if str_eq freshness "" || str_eq freshness "none"
    then lets_pass (some handoff)
    else if str_eq freshness "source_unchanged"
    then (if source_fresh e handoff issue
        then lets_pass (some handoff)
        else blocks source_stale (some handoff))
    else if str_eq freshness "target_head_unchanged"
    then blocks target_stale (some handoff)
    else lets_pass (some handoff)

-- The checks of the handoff that was found.
unfoldable pub handoff_decision : Encodings → RouteConfig → IssueSnapshot → Handoff → GateDecision
unfolding next_route_wanted freshness_decision
handoff_decision e route issue handoff =
    let gate = route.gate.handoff in
    let wanted = next_route_wanted gate.next_route route.name in
    if not (is_nil gate.decisions) && not (contains gate.decisions handoff.decision)
    then blocks decision_not_allowed (some handoff)
    else if not (str_eq wanted "") && not (str_eq handoff.next_route wanted)
    then blocks next_route_mismatch (some handoff)
    else freshness_decision e (trim_space gate.freshness) handoff issue

abbrev pub gate_query : RouteConfig → IssueSnapshot → HandoffQuery
gate_query route issue = record {
  issue_key = issue.issue_key;
  route_names = route.gate.handoff.from;
  decisions = [];
  next_route = "";
  target_kind = "";
  target_key = "";
}

unfoldable pub evaluate_gate : Encodings → RouteConfig → IssueSnapshot → Db → GateDecision
unfolding handoff_gate_enabled handoff_decision latest_matching_handoff
evaluate_gate e route issue db =
    if not (handoff_gate_enabled route.gate.handoff)
    then lets_pass none
    else elim (latest_matching_handoff (gate_query route issue) db) [
      | none ↦ if route.gate.handoff.required then blocks missing_handoff none else lets_pass none
      | some handoff ↦ handoff_decision e route issue handoff
    ]
