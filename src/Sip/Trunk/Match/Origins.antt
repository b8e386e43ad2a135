-- ===== src/Sip/Trunk/Match/Origins.antt =====
-- internal/sip/trunk_invite_match.go: where an INVITE came from, and the choice among trunks by it.
use webrtc_gateway.Base.{
  [], ◌∷◌, none, some, Option, List, Bool, true, ℕ, if◌then◌else◌, length, ◌++◌, keep_if, false,
  ◌&&◌, is_empty, ◌==◌, ltb,
}
use webrtc_gateway.Sip.Trunk.Match.{
  MatchResult, Rule, MatchState, username_origin_contact_relaxed, username_origin_contact,
  select_single, username_origin_via, first_result, with_reason, username_origin_via_relaxed,
  multiple_source_matches, username_only_online, username_origin_source,
  indistinguishable_eligible_candidates, zero_result, no_match, username_origin_source_relaxed,
  no_eligible_candidates, missing_origin_multiple_eligible,
}
use webrtc_gateway.Sip.Trunk.{
  Endpoint, any, Trunk, same_key, matches_relaxed, parse_host_port, matches_exact,
  normalize_endpoint, normalize_host, normalize_port,
}
use webrtc_gateway.Text.{Text, codes, trim_space}

-- What matching reads of a SIP URI and of a request of emiago/sipgo. A text that is not there is empty.
pub record Uri : Type 0 where
  pub uri_user : Text
  pub uri_host : Text
  pub uri_port : ℕ

pub record Via : Type 0 where
  pub via_host : Text
  pub via_port : ℕ
  pub via_transport : Text

pub record Request : Type 0 where
  pub recipient : Uri
  pub to : Option Uri
  pub source : Text
  pub transport : Text
  pub via : Option Via
  pub contact : Option Uri

pub data Provenance : Type 0 where
  from_source from_via from_contact : Provenance

abbrev pub same_provenance : Provenance → Provenance → Bool
same_provenance from_source from_source = true
same_provenance from_via from_via = true
same_provenance from_contact from_contact = true
same_provenance _ _ = false

-- inviteOriginEvidence
pub record Origin : Type 0 where
  pub endpoint : Endpoint
  pub provenance : Provenance

unfoldable pub is_seen : Origin → List Origin → Bool
is_seen o os =
    any (λ p. same_provenance o.provenance p.provenance && same_key o.endpoint p.endpoint) os

-- `add` of extractInviteOrigins.
unfoldable pub add_origin : Option Endpoint → Provenance → List Origin → List Origin
unfolding is_seen
add_origin none p os = os
add_origin (some ep) p os =
    let o : Origin = record { endpoint = ep; provenance = p } in
    if is_seen o os then os else os ++ (o ∷ [])

abbrev pub or_else : Text → Text → Text
or_else t d = if is_empty (trim_space t) then d else t

module _ (canonical_ip : Text → Option Text) where
  -- extractInviteOrigins
  unfoldable pub extract_origins : Request → List Origin
  unfolding add_origin
  extract_origins req =
      let via_transport : Text = elim req.via [
        | none ↦ codes "tcp"
        | some v ↦ or_else v.via_transport (codes "tcp")
      ] in
      let source_transport : Text = or_else (trim_space req.transport) via_transport in
      let by_source : List Origin =
        elim (parse_host_port canonical_ip (trim_space req.source) 5060) [
          | none ↦ []
          | some (h, p) ↦
              add_origin (normalize_endpoint canonical_ip h p source_transport) from_source []
        ] in
      let by_via : List Origin = elim req.via [
        | none ↦ by_source
        | some v ↦
            add_origin (normalize_endpoint canonical_ip v.via_host v.via_port v.via_transport)
              from_via by_source
      ] in
      elim req.contact [
        | none ↦ by_via
        | some u ↦
            add_origin
              (normalize_endpoint canonical_ip (normalize_host canonical_ip u.uri_host)
                (normalize_port u.uri_port) via_transport)
              from_contact by_via
      ]

abbrev pub exact_rule : Provenance → Rule
exact_rule from_contact = username_origin_contact
exact_rule _ = username_origin_via

abbrev pub relaxed_rule : Provenance → Rule
relaxed_rule from_contact = username_origin_contact_relaxed
relaxed_rule _ = username_origin_via_relaxed

module _ (st : MatchState) where
  unfoldable pub exact_for : Origin → List Trunk → List Trunk
  exact_for o pool = keep_if (λ t. matches_exact (st.identity_for t.id) o.endpoint) pool

  unfoldable pub relaxed_for : Origin → List Trunk → List Trunk
  relaxed_for o pool = keep_if (λ t. matches_relaxed (st.identity_for t.id) o.endpoint) pool

module _ (canonical_ip : Text → Option Text) (st : MatchState) where
  -- The two loops of selectByOrigin over the origins other than the source.
  unfoldable pub select_exact : List Origin → List Trunk → Option MatchResult
  select_exact [] pool = none
  select_exact (o ∷ os) pool =
      let one = exact_for st o pool in
      let more = select_exact os pool in
      if same_provenance o.provenance from_source
      then more
      else if length one == 1
      then some (select_single canonical_ip one (exact_rule o.provenance))
      else more

  unfoldable pub select_relaxed : List Origin → List Trunk → Option MatchResult
  select_relaxed [] pool = none
  select_relaxed (o ∷ os) pool =
      let one = relaxed_for st o pool in
      let more = select_relaxed os pool in
      if same_provenance o.provenance from_source
      then more
      else if length one == 1
      then some (select_single canonical_ip one (relaxed_rule o.provenance))
      else more

-- What the first origin of provenance source does: it settles the choice, leaves fewer trunks, or none of these.
pub data Narrowed : Type 0 where
  decided : MatchResult → Narrowed
  remains : List Trunk → Rule → Narrowed
  all_remain : Narrowed

module _ (canonical_ip : Text → Option Text) (st : MatchState) where
  unfoldable pub narrow_by : Origin → List Trunk → Narrowed
  narrow_by o candidates =
      let exact = exact_for st o candidates in
      let relaxed = relaxed_for st o candidates in
      if length exact == 1
      then decided (select_single canonical_ip exact username_origin_source)
      else if ltb 1 (length exact)
      then remains exact username_origin_source
      else if length relaxed == 1
      then decided (select_single canonical_ip relaxed username_origin_source_relaxed)
      else if ltb 1 (length relaxed)
      then remains relaxed username_origin_source_relaxed
      else all_remain

  unfoldable pub narrow : List Origin → List Trunk → Narrowed
  narrow [] candidates = all_remain
  narrow (o ∷ os) candidates =
      let more = narrow os candidates in
      if same_provenance o.provenance from_source then narrow_by o candidates else more

  -- What is tried on the trunks that remain, and at last the choice itself.
  unfoldable pub select_remaining : List Origin → List Trunk → MatchResult → MatchResult
  unfolding select_exact select_relaxed
  select_remaining os pool last =
      first_result (select_exact canonical_ip st os pool)
        (first_result (select_relaxed canonical_ip st os pool) last)

  unfoldable pub after_narrowing : Narrowed → List Trunk → List Origin → MatchResult
  unfolding select_remaining
  after_narrowing (decided r) ts os = r
  after_narrowing (remains pool rule) ts os =
      select_remaining os pool
        (with_reason multiple_source_matches (select_single canonical_ip pool rule))
  after_narrowing all_remain ts os = select_remaining os ts (
      with_reason indistinguishable_eligible_candidates
        (select_single canonical_ip ts username_only_online))

  -- selectByOrigin
  unfoldable pub select_by_origin : List Trunk → List Origin → MatchResult
  unfolding narrow narrow_by after_narrowing
  select_by_origin candidates os =
      let online = select_single canonical_ip candidates username_only_online in
      if is_empty candidates
      then record zero_result { rule = no_match; reason = no_eligible_candidates }
      else if length candidates == 1
      then online
      else if is_empty os
      then with_reason missing_origin_multiple_eligible online
      else after_narrowing (narrow os candidates) candidates os
