-- ===== src/Handoff.antt =====
-- internal/handoff/parser.go: the handoffs in a comment. The matches of the regular expression, JSON and
-- `crypto/sha256` are parameters; `none` is an error of the decoder, whose text
-- is left out of the diagnostic.
pub mod Parsing
use issueq.Prelude.{
  ℤ, pos, String, not, Option, none, some, List, [], ◌∷◌, ◌&&◌, leb_ℤ, if◌then◌else◌, str_eq,
  is_blank, trim_space, has_part, append,
}
use issueq.Model.{Time, Handoff}

pub record EndpointBlock : Type 0 where
  pub kind : String
  pub key : String
  pub issue_key : String
  pub issue_number : ℤ
  pub fingerprint : String
  pub source_fingerprint : String
  pub body_sha256 : String
  pub updated_at : String

pub record Envelope : Type 0 where
  pub schema : String
  pub schema_version : String
  pub route : String
  pub decision : String
  pub next_route : String
  pub source : EndpointBlock
  pub target : EndpointBlock

-- `blocks` is what the regular expression captures; `canonical` is `json.Marshal` of what
-- `json.Unmarshal` reads.
pub record HandoffText : Type 0 where
  pub blocks : String → List String
  pub decode : String → Option Envelope
  pub canonical : String → Option String
  pub sha256_hex : String → String
  pub decimal : ℤ → String
  pub quoted : String → String

pub record ParseResult : Type 0 where
  pub handoffs : List Handoff
  pub diagnostics : List String

pub data Parsed : Type 0 where
  parsed : Handoff → Parsed
  invalid : String → Parsed

abbrev pub schema_v1 : String
schema_v1 = "issueq-handoff/v1"

unfoldable pub first_non_empty : List String → String
first_non_empty [] = ""
first_non_empty (s ∷ ss) = let rest = first_non_empty ss in if not (is_blank s) then s else rest

module _ (t : HandoffText) where
  unfoldable pub issue_number_key : ℤ → String
  issue_number_key number =
      if leb_ℤ number (pos 0) && leb_ℤ (pos 0) number then "" else append "#" (t.decimal number)

  unfoldable pub stable_id : String → String → String
  stable_id issue_key payload_json =
      append "hnd_" (t.sha256_hex (append issue_key (append "\0" payload_json)))

  unfoldable pub built_handoff : String → String → Time → Envelope → String → Handoff
  unfolding issue_number_key stable_id first_non_empty
  built_handoff issue_key payload created_at env payload_json = record {
    id = stable_id issue_key payload_json;
    issue_key = issue_key;
    route_name = env.route;
    decision = env.decision;
    next_route = env.next_route;
    source_kind = env.source.kind;
    source_key =
        first_non_empty
          (env.source.key ∷ env.source.issue_key ∷ issue_number_key env.source.issue_number ∷ []);
    source_fingerprint = first_non_empty (
        env.source.fingerprint ∷ env.source.source_fingerprint ∷ env.source.body_sha256
        ∷ env.source.updated_at ∷ []);
    target_kind = env.target.kind;
    target_key =
        first_non_empty
          (env.target.key ∷ env.target.issue_key ∷ issue_number_key env.target.issue_number ∷ []);
    payload_json = payload;
    created_at = created_at;
  }

  abbrev pub checked_envelope : String → String → Time → Envelope → Parsed
  checked_envelope issue_key payload created_at env =
      if not (str_eq env.schema schema_v1)
      then invalid (append "unsupported handoff schema " (t.quoted env.schema))
      else if is_blank env.route
      then invalid "handoff route is required"
      else if is_blank env.decision
      then invalid "handoff decision is required"
      else elim (t.canonical payload) [
        | none ↦ invalid "parse handoff JSON for canonical payload"
        | some payload_json ↦ parsed (built_handoff issue_key payload created_at env payload_json)
      ]

  unfoldable pub parse_payload : String → String → Time → Parsed
  unfolding built_handoff
  parse_payload issue_key payload created_at = elim (t.decode payload) [
    | none ↦ invalid "parse handoff JSON"
    | some env ↦ checked_envelope issue_key payload created_at env
  ]

  abbrev pub add_parsed : Parsed → ParseResult → ParseResult
  add_parsed (parsed h) r = record r { handoffs = h ∷ r.handoffs }
  add_parsed (invalid message) r = record r { diagnostics = message ∷ r.diagnostics }

  -- The loop over the blocks, which are trimmed.
  unfoldable pub parse_blocks : String → Time → List String → ParseResult
  unfolding parse_payload
  parse_blocks issue_key created_at [] = record { handoffs = []; diagnostics = [] }
  parse_blocks issue_key created_at (block ∷ blocks) =
      let rest = parse_blocks issue_key created_at blocks in
      if not (has_part schema_v1 (trim_space block))
      then rest
      else add_parsed (parse_payload issue_key (trim_space block) created_at) rest

  unfoldable pub parse_comment : String → String → Time → ParseResult
  unfolding parse_blocks
  parse_comment issue_key body created_at = parse_blocks issue_key created_at (t.blocks body)
