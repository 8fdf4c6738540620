-- ===== src/Handoff/Parsing.antt =====
-- What a parsed handoff is like.
use issueq.Prelude.{
  String, ◌≡◌, refl, false, some, List, [], ◌∷◌, All, Bool-cases, Option-cases, inl, inr, str_eq,
  is_blank, trim_space, has_part,
}
use issueq.Model.{Time, Handoff}
use issueq.Handoff.{
  HandoffText, Envelope, ParseResult, Parsed, parsed, invalid, schema_v1, stable_id, built_handoff,
  parse_payload, parse_blocks, parse_comment, checked_envelope, add_parsed,
}

module _ (t : HandoffText) (issue_key : String) (created_at : Time) where
  -- A handoff of the issue with a route and a decision, that is identified by the issue and by the
  -- canonical form of its payload.
  pub record IsOfIssue (h : Handoff) : Type 0 where
    pub issue : h.issue_key ≡ issue_key
    pub routed : is_blank h.route_name ≡ false
    pub decided : is_blank h.decision ≡ false
    pub canonical : String
    pub canonical_of : t.canonical h.payload_json ≡ some canonical
    pub identified : h.id ≡ stable_id t issue_key canonical

  abbrev OnParsed : Parsed → Type 0
  OnParsed (parsed h) = IsOfIssue h
  OnParsed (invalid message) = Unit

  envelope-OnParsed :
      (payload : String) (env : Envelope)
      → OnParsed (checked_envelope t issue_key payload created_at env)
  unfolding built_handoff
  envelope-OnParsed payload env = elim (Bool-cases (str_eq env.schema schema_v1)) [
    | inr e ↦ rw e tt
    | inl e ↦ rw e (elim (Bool-cases (is_blank env.route)) [
      | inl k ↦ rw k tt
      | inr k ↦ rw k (elim (Bool-cases (is_blank env.decision)) [
        | inl d ↦ rw d tt
        | inr d ↦ rw d (elim (Option-cases (t.canonical payload)) [
          | inl n ↦ rw n tt
          | inr (c, n) ↦ rw n (record {
            issue = refl;
            routed = k;
            decided = d;
            canonical = c;
            canonical_of = n;
            identified = refl;
          })
        ])
      ])
    ])
  ]

  payload-OnParsed : (payload : String) → OnParsed (parse_payload t issue_key payload created_at)
  unfolding parse_payload
  payload-OnParsed payload = elim (Option-cases (t.decode payload)) [
    | inl e ↦ rw (e, parse_payload) tt
    | inr (env, e) ↦ rw (e, parse_payload) (envelope-OnParsed payload env)
  ]

  added :
      (p : Parsed) (r : ParseResult)
      → OnParsed p
      → All IsOfIssue r.handoffs
      → All IsOfIssue (add_parsed t p r).handoffs
  added (parsed h) r k rest = (k, rest)
  added (invalid message) r k rest = rest

  blocks-All :
      (blocks : List String) → All IsOfIssue (parse_blocks t issue_key created_at blocks).handoffs
  unfolding parse_blocks
  blocks-All [] = tt
  blocks-All (block ∷ blocks) = elim (Bool-cases (has_part schema_v1 (trim_space block))) [
    | inr e ↦ rw e (blocks-All blocks)
    | inl e ↦ rw e (added _ _ (payload-OnParsed (trim_space block)) (blocks-All blocks))
  ]

  -- Every handoff that is parsed from a comment belongs to the comment's issue, has a route and a
  -- decision, and is identified by the issue and the canonical form of its payload, so that the
  -- layout of the payload does not matter.
  pub parse_comment-All :
      (body : String) → All IsOfIssue (parse_comment t issue_key body created_at).handoffs
  unfolding parse_comment
  parse_comment-All body = blocks-All (t.blocks body)
