-- ===== src/Sip/Trunk/Match.antt =====
-- internal/sip/trunk_invite_match.go: which trunk an INVITE is for. The registrar evidence and the summary
-- of the origins in a result are only logged, and left out.
pub mod Origins
pub mod Rules
pub mod Invite
pub mod Sound
pub mod Fit
pub mod Eligible
use webrtc_gateway.Base.{
  [], ◌∷◌, Option, ℕ, List, Bool, if◌then◌else◌, none, some, false, ◌&&◌, ◌||◌, true, not, map,
}
use webrtc_gateway.Sip.Trunk.Registrar.{Manager}
use webrtc_gateway.Text.{Text}
use webrtc_gateway.Sip.Trunk.{Trunk, is_current, Identity}
use webrtc_gateway.Sip.Trunk.Order.{sort_by_id}
use webrtc_gateway.Sip.Trunk.Groups.{collapse}

pub data Rule : Type 0 where
  no_rule no_match : Rule
  ruri_user_domain_port ruri_user_domain ruri_domain_port_fallback : Rule
  to_user_domain_port to_user_domain to_domain_port_fallback : Rule
  username_only_online username_origin_source username_origin_source_relaxed : Rule
  username_origin_via username_origin_via_relaxed : Rule
  username_origin_contact username_origin_contact_relaxed : Rule

pub data Reason : Type 0 where
  no_reason multiple_candidates no_eligible_candidates no_eligible_owned_registration : Reason
  missing_origin_multiple_eligible multiple_source_matches : Reason
  indistinguishable_eligible_candidates : Reason

-- TrunkInviteMatchResult
pub record MatchResult : Type 0 where
  pub trunk : Option Trunk
  pub owned : Bool
  pub rule : Rule
  pub candidate_ids : List ℕ
  pub sip_user : Text
  pub owned_candidates : List ℕ
  pub ambiguous : Bool
  pub local_request_uri : Bool
  pub local_to_uri : Bool
  pub eligible_ids : List ℕ
  pub reason : Reason

abbrev pub zero_result : MatchResult
zero_result = record {
  trunk = none;
  owned = false;
  rule = no_rule;
  candidate_ids = [];
  sip_user = [];
  owned_candidates = [];
  ambiguous = false;
  local_request_uri = false;
  local_to_uri = false;
  eligible_ids = [];
  reason = no_reason;
}

-- inviteMatchState
pub record MatchState : Type 0 where
  pub public_ip : Text
  pub local_port : ℕ
  pub trunks : List Trunk
  pub owned_ids : ℕ → Bool
  pub identity_for : ℕ → Option Identity

-- snapshotInviteMatchState
unfoldable pub snapshot : Manager → MatchState
snapshot m = record {
  public_ip = m.public_ip;
  local_port = m.local_port;
  trunks = sort_by_id m.trunks;
  owned_ids = m.owned_leases;
  identity_for = m.identities;
}

-- collectCandidateIDs
unfoldable pub candidate_ids_of : List Trunk → List ℕ
candidate_ids_of ts = map (λ (t : Trunk). t.id) (sort_by_id ts)

-- isEligible
unfoldable pub is_eligible : MatchState → ℕ → Trunk → Bool
is_eligible st now t = t.enabled && st.owned_ids t.id && is_current now (st.identity_for t.id)

unfoldable pub settle : List Trunk → MatchResult → MatchResult
settle [] r = r
settle (t ∷ []) r = record r { trunk = some t }
settle (t ∷ u ∷ ts) r = record r { ambiguous = true; reason = multiple_candidates }

-- selectSingleMatch
unfoldable pub select_single : (Text → Option Text) → List Trunk → Rule → MatchResult
unfolding settle
select_single ip matches rule =
    settle (collapse ip matches)
      (record zero_result { rule = rule; candidate_ids = candidate_ids_of matches })

abbrev pub is_some {ℓ} : {A : Type ℓ} → Option A → Bool
is_some none = false
is_some (some a) = true

-- `result.Trunk != nil || result.Ambiguous`
abbrev pub is_settled : MatchResult → Bool
is_settled r = is_some r.trunk || r.ambiguous

-- `result.Trunk != nil && !result.Ambiguous`
abbrev pub is_found : MatchResult → Bool
is_found r = is_some r.trunk && not r.ambiguous

unfoldable pub owned_by : MatchState → Option Trunk → Bool → Bool
owned_by st none b = b
owned_by st (some t) b = st.owned_ids t.id

-- applyOwnershipSafety
unfoldable pub apply_ownership : MatchState → MatchResult → MatchResult
unfolding owned_by
apply_ownership st r = if r.ambiguous then r else record r { owned = owned_by st r.trunk r.owned }

abbrev pub with_reason : Reason → MatchResult → MatchResult
with_reason why r = if r.ambiguous then record r { reason = why } else r

-- The first result that there is.
abbrev pub first_result : Option MatchResult → MatchResult → MatchResult
first_result none r = r
first_result (some q) r = q
