-- ===== src/Sip/Trunk/Tests.antt =====
-- Runs of the trunk matching and of the registrar identities of internal/sip, and the witnesses.
use mathlib.Core.List.{reverse, reverse_aux}
use webrtc_gateway.Base.{
  [], ◌∷◌, none, some, Member, List, Option, ◌≡◌, ltb, refl, true, if◌then◌else◌, ◌↔◌, arith, false,
}
use webrtc_gateway.Sip.Trunk.Match.Origins.{Request, select_by_origin}
use webrtc_gateway.Sip.Trunk.{
  Trunk, parse_host_port, Identity, is_current, normalize_host, unbracket, normalize_port,
  normalize_transport, is_agent, is_agent_device,
}
use webrtc_gateway.Sip.Trunk.Registrar.{
  superseded, Manager, try_publish, Event, begin_operation, begins, run, loads, publish_iff, prunes,
  step, is_pruned, bump,
}
use webrtc_gateway.Sip.Trunk.Match.Invite.{
  match_invite, match_in_state, by_rules, by_request_uri, by_to, by_fallback, by_origin,
  pick_by_uri, pick_by_to, pick_settled, choose, finalize, or_no_match,
}
use webrtc_gateway.Sip.Trunk.Match.Rules.{
  name_uri, name_to, is_local_contact, filter_eligible, eligible_by_username,
  eligible_by_username_and_domain_port, by_user_domain_port, by_user_domain, by_domain_port,
  has_domain, owned_by_username,
}
use webrtc_gateway.Text.{
  Text, codes, to_lower, atoi, trim_space, split_host_port, trim_left, strip_last, text_eq,
  has_prefix, strip_prefix,
}
use webrtc_gateway.Sip.Trunk.Match.Eligible.{match_invite-Shuffle, match_invite_eligible}
use webrtc_gateway.Sip.Trunk.Order.{swap, sort_by_id, put_by_id}
use webrtc_gateway.Sip.Trunk.Match.{
  snapshot, apply_ownership, owned_by, select_single, settle, candidate_ids_of, is_eligible,
}
use webrtc_gateway.Sip.Trunk.Groups.{
  collapse, grouped, group_all, add_to_groups, in_group, same_identity, canonicals, canonical,
  canonical_from, better_of,
}

abbrev no_ip : Text → Option Text
no_ip host = none

abbrev agent : Trunk
agent = record {
  id = 7;
  name = codes "sipclient-agent-a";
  domain = codes "Pbx.Example.";
  port = 0;
  username = codes " 1001";
  transport = [];
  enabled = true;
}

abbrev device : Trunk
device = record agent { id = 9; name = codes "sipclient-agent-device-a" }

abbrev idle : Trunk
idle = record agent { id = 3; username = codes "1002" }

abbrev registered : Identity
registered = record {
  generation = 1;
  trunk_id = 7;
  identity_username = codes "1001";
  hostname = codes "pbx.example";
  identity_port = 5060;
  identity_transport = codes "tcp";
  endpoints = [];
  success_at = 50;
  expires_at = some 500;
}

abbrev manager : Manager
manager = record {
  public_ip = codes "192.0.2.1";
  local_port = 5060;
  trunks = device ∷ agent ∷ idle ∷ [];
  owned_leases = λ id. ltb 5 id;
  generations = λ id. 1;
  identities = λ id. if ltb 5 id then some registered else none;
}

abbrev invite : Request
invite = record {
  recipient = record { uri_user = codes "1001"; uri_host = codes "192.0.2.1"; uri_port = 0 };
  to = some (record { uri_user = codes "1001"; uri_host = codes "pbx.example"; uri_port = 5060 });
  source = codes "[2001:db8::1]:5062";
  transport = [];
  via = none;
  contact = none;
}

-- Two trunks have the identity of the callee, and the device trunk stands for both.
invite_to_device : (match_invite no_ip 100 invite manager).trunk ≡ some device
unfolding match_invite match_in_state name_uri name_to is_local_contact normalize_host to_lower
    trim_space trim_left unbracket strip_last snapshot text_eq normalize_port normalize_transport
    by_rules by_request_uri by_to by_fallback by_origin pick_by_uri pick_by_to pick_settled choose
    filter_eligible eligible_by_username eligible_by_username_and_domain_port by_user_domain_port
    by_user_domain by_domain_port apply_ownership owned_by select_single settle collapse grouped
    is_agent is_agent_device has_prefix strip_prefix group_all add_to_groups in_group same_identity
    canonicals canonical canonical_from better_of sort_by_id put_by_id candidate_ids_of has_domain
    is_eligible is_current finalize owned_by_username select_by_origin or_no_match reverse
    reverse_aux
invite_to_device = refl

match_invite_eligible_example :
    Member device manager.trunks
    × (device.enabled ≡ true)
    × (manager.owned_leases 9 ≡ true)
    × (is_current 100 (manager.identities 9) ≡ true)
    × ((match_invite no_ip 100 invite manager).owned ≡ true)
    × ((match_invite no_ip 100 invite manager).ambiguous ≡ false)
match_invite_eligible_example = match_invite_eligible no_ip 100 invite manager invite_to_device

match_invite-Shuffle_example :
    match_invite no_ip 100 invite (record manager { trunks = agent ∷ device ∷ idle ∷ [] })
    ≡ match_invite no_ip 100 invite manager
match_invite-Shuffle_example =
    match_invite-Shuffle no_ip 100 invite manager (swap device agent (idle ∷ []) (ground arith))

-- The registration of trunk 7 is overtaken by a newer one.
abbrev overtaken : List Event
overtaken = begins 9 ∷ loads (agent ∷ []) ∷ begins 7 ∷ prunes ∷ []

publish_iff_example :
    ((try_publish 7
        (begin_operation 7 manager).1
        registered
        (run overtaken (begin_operation 7 manager).0)).1
      ≡ true)
    ↔ (superseded 7 overtaken (begin_operation 7 manager).0 ≡ 0)
unfolding is_pruned step bump
publish_iff_example = publish_iff 7 registered overtaken manager (omega arith)

overtaken_once : superseded 7 overtaken (begin_operation 7 manager).0 ≡ 1
unfolding is_pruned step bump
overtaken_once = refl

source_read :
    parse_host_port no_ip (codes "[2001:db8::1]:5062") 5060 ≡ some (codes "2001:db8::1", 5062)
unfolding parse_host_port trim_space split_host_port atoi to_lower
source_read = refl

no_port : parse_host_port no_ip (codes " Pbx.Example. ") 5060 ≡ some (codes "pbx.example", 5060)
unfolding parse_host_port trim_space split_host_port to_lower
no_port = refl
