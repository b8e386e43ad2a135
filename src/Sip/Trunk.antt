-- ===== src/Sip/Trunk.antt =====
-- The trunks of internal/sip/trunk_manager.go as an INVITE is matched with them, and the identity that a
-- registration gives a trunk (internal/sip/trunk_registrar_identity.go).
--
-- A port that is not positive is 0. `canonical_ip host` is net.ParseIP(host).String(), and `none` where
-- the host is no IP address.
pub mod Order
pub mod Groups
pub mod Registrar
pub mod Match
pub mod Tests
use webrtc_gateway.Text.{
  Text, codes, text_eq, trim_space, to_lower, strip_last, has_prefix, split_host_port, atoi,
}
use webrtc_gateway.Base.{
  Option, if◌then◌else◌, ℕ, Bool, false, ◌&&◌, is_empty, List, ◌++◌, ◌∷◌, ◌==◌, some, none, not,
  ◌||◌, [], is_before,
}

-- The fields of a Trunk that matching reads.
pub record Trunk : Type 0 where
  pub id : ℕ
  pub name : Text
  pub domain : Text
  pub port : ℕ
  pub username : Text
  pub transport : Text
  pub enabled : Bool

-- registrarEndpoint
pub record Endpoint : Type 0 where
  pub host : Text
  pub endpoint_port : ℕ
  pub endpoint_transport : Text

-- registrarIdentity
pub record Identity : Type 0 where
  pub generation : ℕ
  pub trunk_id : ℕ
  pub identity_username : Text
  pub hostname : Text
  pub identity_port : ℕ
  pub identity_transport : Text
  pub endpoints : List Endpoint
  pub success_at : ℕ
  pub expires_at : Option ℕ

-- IsAgentDeviceTrunkName
unfoldable pub is_agent_device : Text → Bool
is_agent_device name = has_prefix (codes "sipclient-agent-device-") (trim_space name)

-- IsAgentTrunkName
unfoldable pub is_agent : Text → Bool
unfolding is_agent_device
is_agent name =
    has_prefix (codes "sipclient-agent-") (trim_space name) && not (is_agent_device name)

unfoldable pub normalize_port : ℕ → ℕ
normalize_port port = if port == 0 then 5060 else port

unfoldable pub normalize_transport : Text → Text
normalize_transport transport =
    let t = to_lower (trim_space transport) in if is_empty t then codes "tcp" else t

-- The text between a pair of brackets, or the text itself.
unfoldable pub unbracket : Text → Text
unfolding strip_last
unbracket [] = []
unbracket (c ∷ s) =
    if c == b'[' then elim (strip_last b']' s) [ none ↦ c ∷ s | some r ↦ r ] else c ∷ s

module _ (canonical_ip : Text → Option Text) where
  unfoldable pub normalize_host : Text → Text
  unfolding unbracket strip_last
  normalize_host host =
      let h = to_lower (trim_space host) in
      if is_empty h then [] else elim (canonical_ip (unbracket h)) [
        | some ip ↦ ip
        | none ↦ elim (strip_last b'.' (unbracket h)) [ none ↦ unbracket h | some r ↦ r ]
      ]

  -- parseHostPort
  unfoldable pub parse_host_port : Text → ℕ → Option (Text × ℕ)
  unfolding normalize_host normalize_port
  parse_host_port value default_port =
      let v = trim_space value in
      let named : Text → ℕ → Option (Text × ℕ) = λ h port.
        if is_empty (normalize_host h)
        then none
        else some (normalize_host h, normalize_port port) in
      if is_empty v then none else elim (split_host_port v) [
        | none ↦ named v default_port
        | some (h, p) ↦ elim (atoi p) [ none ↦ named h default_port | some port ↦ named h port ]
      ]

  -- normalizeRegistrarEndpoint
  unfoldable pub normalize_endpoint : Text → ℕ → Text → Option Endpoint
  unfolding normalize_host normalize_port normalize_transport
  normalize_endpoint h port transport =
      if is_empty (normalize_host h)
      then none
      else some (record {
        host = normalize_host h;
        endpoint_port = normalize_port port;
        endpoint_transport = normalize_transport transport;
      })

-- registrarEndpointKey: the port follows the last bar of the key, so that it is compared as a number.
unfoldable pub same_key : Endpoint → Endpoint → Bool
same_key a b =
    text_eq (a.endpoint_transport ++ (b'|' ∷ a.host)) (b.endpoint_transport ++ (b'|' ∷ b.host))
    && (a.endpoint_port == b.endpoint_port)

unfoldable pub endpoints_equal_exact : Endpoint → Endpoint → Bool
endpoints_equal_exact a b =
    text_eq a.host b.host
    && (a.endpoint_port == b.endpoint_port)
    && text_eq a.endpoint_transport b.endpoint_transport

unfoldable pub endpoints_equal_relaxed : Endpoint → Endpoint → Bool
endpoints_equal_relaxed a b =
    text_eq a.host b.host && text_eq a.endpoint_transport b.endpoint_transport

unfoldable pub any {ℓ} : {A : Type ℓ} → (A → Bool) → List A → Bool
any p [] = false
any p (x ∷ xs) = p x || any p xs

unfoldable pub matches_exact : Option Identity → Endpoint → Bool
unfolding any endpoints_equal_exact
matches_exact none origin = false
matches_exact (some i) origin = any (λ ep. endpoints_equal_exact ep origin) i.endpoints

unfoldable pub matches_relaxed : Option Identity → Endpoint → Bool
unfolding any endpoints_equal_relaxed
matches_relaxed none origin = false
matches_relaxed (some i) origin = any (λ ep. endpoints_equal_relaxed ep origin) i.endpoints

-- isCurrent
unfoldable pub is_current : ℕ → Option Identity → Bool
is_current now none = false
is_current now (some i) = is_before now i.expires_at
