-- ===== src/Sip/Trunk/Match/Rules.antt =====
-- internal/sip/trunk_invite_match.go: the rules that MatchTrunkFromInviteDetailed tries.
use webrtc_gateway.Base.{
  [], none, some, Option, ℕ, Bool, List, if◌then◌else◌, keep_if, is_empty, not, ◌==◌, ◌&&◌, ◌||◌,
}
use webrtc_gateway.Sip.Trunk.Match.{MatchState, is_eligible}
use webrtc_gateway.Text.{Text, trim_space, text_eq}
use webrtc_gateway.Sip.Trunk.Match.Origins.{Uri}
use webrtc_gateway.Sip.Trunk.{Trunk, normalize_host, normalize_port}

-- normalizeInviteURI, and the local URI test, from what the request says.
pub record Named : Type 0 where
  pub named_host : Text
  pub named_user : Text
  pub named_port : ℕ
  pub is_local : Bool

abbrev pub has_user : Text → Trunk → Bool
has_user user t = text_eq (trim_space t.username) user

abbrev pub has_port : ℕ → Trunk → Bool
has_port port t = normalize_port t.port == normalize_port port

-- The user of the Request-URI, or else that of the To header.
abbrev pub sip_user_of : Named → Named → Text
sip_user_of ruri to =
    if is_empty (trim_space ruri.named_user)
    then trim_space to.named_user
    else trim_space ruri.named_user

module _ (canonical_ip : Text → Option Text) (st : MatchState) where
  -- isLocalGatewayContact
  unfoldable pub is_local_contact : Text → ℕ → Bool
  is_local_contact host port =
      let public = normalize_host canonical_ip st.public_ip in
      not (is_empty public)
      && not (is_empty host)
      && text_eq host public
      && (normalize_port port == normalize_port st.local_port)

  unfoldable pub name_uri : Uri → Named
  unfolding is_local_contact
  name_uri u =
      let host = normalize_host canonical_ip u.uri_host in
      let port = normalize_port u.uri_port in
      record {
        named_host = host;
        named_user = trim_space u.uri_user;
        named_port = port;
        is_local = is_local_contact host port;
      }

  -- A request with no To header.
  unfoldable pub name_to : Option Uri → Named
  unfolding name_uri is_local_contact
  name_to none = record {
    named_host = [];
    named_user = [];
    named_port = 5060;
    is_local = is_local_contact [] 5060;
  }
  name_to (some u) = name_uri u

  unfoldable pub has_domain : Text → Trunk → Bool
  has_domain host t = text_eq (normalize_host canonical_ip t.domain) host

  unfoldable pub by_user_domain_port : Named → List Trunk
  by_user_domain_port n =
      if is_empty n.named_host || is_empty n.named_user
      then []
      else keep_if
          (λ t. has_domain n.named_host t && has_port n.named_port t && has_user n.named_user t)
          st.trunks

  unfoldable pub by_user_domain : Named → List Trunk
  by_user_domain n =
      if is_empty n.named_host || is_empty n.named_user
      then []
      else keep_if (λ t. has_domain n.named_host t && has_user n.named_user t) st.trunks

  unfoldable pub by_domain_port : Named → List Trunk
  by_domain_port n =
      if is_empty n.named_host
      then []
      else keep_if (λ t. has_domain n.named_host t && has_port n.named_port t) st.trunks

  module _ (now : ℕ) where
    unfoldable pub filter_eligible : List Trunk → List Trunk
    filter_eligible ts = keep_if (is_eligible st now) ts

    unfoldable pub eligible_by_username : Text → List Trunk
    eligible_by_username user =
        let u = trim_space user in
        if is_empty u then [] else keep_if (λ t. is_eligible st now t && has_user u t) st.trunks

    unfoldable pub eligible_by_username_and_domain_port : Text → Named → List Trunk
    unfolding filter_eligible by_domain_port
    eligible_by_username_and_domain_port user n =
        let candidates = filter_eligible (by_domain_port n) in
        let u = trim_space user in
        if is_empty n.named_host
        then []
        else if is_empty u
        then candidates
        else keep_if (has_user u) candidates

  unfoldable pub owned_by_username : Text → List Trunk
  owned_by_username user =
      let u = trim_space user in
      if is_empty u then [] else keep_if (λ t. st.owned_ids t.id && has_user u t) st.trunks
