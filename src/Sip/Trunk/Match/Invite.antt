-- ===== src/Sip/Trunk/Match/Invite.antt =====
-- internal/sip/trunk_invite_match.go: MatchTrunkFromInviteDetailed, the rules in their order.
use webrtc_gateway.Base.{none, some, Option, ℕ, Bool, List, if◌then◌else◌, false}
use webrtc_gateway.Sip.Trunk.Match.{
  no_rule, MatchState, MatchResult, owned_by, Rule, candidate_ids_of, apply_ownership,
  to_user_domain_port, is_settled, snapshot, select_single, ruri_user_domain_port, first_result,
  to_user_domain, no_match, is_found, ruri_domain_port_fallback, ruri_user_domain,
  to_domain_port_fallback, no_eligible_owned_registration,
}
use webrtc_gateway.Text.{Text}
use webrtc_gateway.Sip.Trunk.Match.Origins.{Request, extract_origins, Origin, select_by_origin}
use webrtc_gateway.Sip.Trunk.Registrar.{Manager}
use webrtc_gateway.Sip.Trunk.{Trunk}
use webrtc_gateway.Sip.Trunk.Match.Rules.{
  Named, sip_user_of, name_uri, owned_by_username, eligible_by_username, by_user_domain_port,
  eligible_by_username_and_domain_port, by_user_domain, name_to, filter_eligible,
}

-- The branches on the Request-URI, on the To header and on a fallback, of the results that they look at.
unfoldable pub pick_by_uri : Bool → MatchResult → MatchResult → MatchResult → Option MatchResult
pick_by_uri local_uri first second by_origin =
    if local_uri
    then none
    else if is_settled first
    then some first
    else if is_found second
    then some second
    else if second.ambiguous
    then some (if is_settled by_origin then by_origin else second)
    else none

unfoldable pub pick_by_to : Bool → MatchResult → MatchResult → Option MatchResult
pick_by_to local_uri first second =
    if local_uri
    then none
    else if is_settled first
    then some first
    else if is_found second
    then some second
    else none

unfoldable pub pick_settled : Bool → MatchResult → Option MatchResult
pick_settled local_uri r = if local_uri then none else if is_settled r then some r else none

-- A result with no rule names the last one.
unfoldable pub or_no_match : Rule → MatchResult → MatchResult
or_no_match no_rule r = record r { rule = no_match; reason = no_eligible_owned_registration }
or_no_match _ r = r

module _ (canonical_ip : Text → Option Text) (st : MatchState) (now : ℕ) where
  unfoldable pub choose : List Trunk → Rule → MatchResult
  choose ts rule = apply_ownership st (select_single canonical_ip ts rule)

  -- The Request-URI by user, domain and port, then by user and domain; where the latter names several
  -- trunks the origin decides.
  unfoldable pub by_request_uri : Named → Text → List Origin → Option MatchResult
  unfolding choose by_user_domain_port by_user_domain filter_eligible pick_by_uri
  by_request_uri n user os =
      pick_by_uri n.is_local
        (choose (filter_eligible canonical_ip st now (by_user_domain_port canonical_ip st n))
          ruri_user_domain_port)
        (choose (filter_eligible canonical_ip st now (by_user_domain canonical_ip st n))
          ruri_user_domain)
        (select_by_origin canonical_ip st (eligible_by_username canonical_ip st now user) os)

  -- The To header likewise, but with no look at the origin.
  unfoldable pub by_to : Named → Option MatchResult
  unfolding choose by_user_domain_port by_user_domain filter_eligible pick_by_to
  by_to n =
      pick_by_to n.is_local
        (choose (filter_eligible canonical_ip st now (by_user_domain_port canonical_ip st n))
          to_user_domain_port)
        (choose (filter_eligible canonical_ip st now (by_user_domain canonical_ip st n))
          to_user_domain)

  -- One of the fallbacks by domain and port.
  unfoldable pub by_fallback : Named → Text → Rule → Option MatchResult
  unfolding choose eligible_by_username_and_domain_port pick_settled
  by_fallback n user rule =
      pick_settled n.is_local
        (choose (eligible_by_username_and_domain_port canonical_ip st now user n) rule)

  -- The last rule, and the default that follows it.
  unfoldable pub by_origin : Text → List Origin → MatchResult
  unfolding eligible_by_username or_no_match
  by_origin user os =
      let r = select_by_origin canonical_ip st (eligible_by_username canonical_ip st now user) os in
      or_no_match r.rule r

  -- finalizeSelected
  unfoldable pub finalize : Text → Bool → Bool → MatchResult → MatchResult
  unfolding owned_by
  finalize user local_ruri local_to r = record r {
    sip_user = user;
    owned_candidates = candidate_ids_of (owned_by_username canonical_ip st user);
    eligible_ids = candidate_ids_of (eligible_by_username canonical_ip st now user);
    local_request_uri = local_ruri;
    local_to_uri = local_to;
    owned = owned_by st r.trunk r.owned;
  }

  -- The rules in their order.
  unfoldable pub by_rules : Named → Named → Text → List Origin → MatchResult
  unfolding by_request_uri by_to by_fallback by_origin
  by_rules ruri to user os = first_result (by_request_uri ruri user os) (
      first_result (by_to to) (
        first_result (by_fallback ruri user ruri_domain_port_fallback)
          (first_result (by_fallback to user to_domain_port_fallback) (by_origin user os))))

  unfoldable pub match_in_state : Request → MatchResult
  unfolding by_rules finalize
  match_in_state req =
      let ruri = name_uri canonical_ip st req.recipient in
      let to = name_to canonical_ip st req.to in
      let user = sip_user_of ruri to in
      finalize user ruri.is_local to.is_local
        (by_rules ruri to user (extract_origins canonical_ip req))

-- MatchTrunkFromInviteDetailed
unfoldable pub match_invite : (Text → Option Text) → ℕ → Request → Manager → MatchResult
unfolding match_in_state
match_invite canonical_ip now req m = match_in_state canonical_ip (snapshot m) now req

-- MatchTrunkFromInvite
unfoldable pub match_trunk : (Text → Option Text) → ℕ → Request → Manager → Option Trunk × Bool
match_trunk canonical_ip now req m =
    let r = match_invite canonical_ip now req m in
    elim r.trunk [ none ↦ (none, false) | some t ↦ (some t, r.owned) ]
