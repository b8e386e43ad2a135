-- ===== src/Session/Feedback.antt =====
-- internal/session/sip_rtcp_fb.go and switch_feedback.go: keyframe requests to the SIP side as RTCP feedback, and their
-- targets (video_feedback.go). The decision and the preparation of a request each hold the session lock.
pub mod Requests
pub mod Events
pub mod Spacing
pub mod Bypassing
pub mod Waiting
pub mod Tests
use webrtc_gateway.Text.{Text, to_lower, text_eq, trim_space, codes}
use webrtc_gateway.Base.{
  Bool, List, Option, true, ◌+◌, [], ◌∷◌, if◌then◌else◌, ℕ, some, false, ◌++◌, ◌&&◌, is_empty, ◌==◌,
  none,
}
use webrtc_gateway.Session.Recovery.{Recovery}
use webrtc_gateway.Sip.Trunk.{any}

-- The kinds of request that the callers of sendSIPFeedback give.
pub data Kind : Type 0 where
  pli fir : Kind

abbrev pub is_fir : Kind → Bool
is_fir fir = true
is_fir pli = false

pub record Address : Type 0 where
  pub ip : Text
  pub port : ℕ

abbrev pub same_address : Address → Address → Bool
same_address a b = text_eq a.ip b.ip && a.port == b.port

-- videoFeedbackTarget
pub record Target : Type 0 where
  pub address : Address
  pub to_rtp : Bool
  pub is_primary : Bool

pub data Transport : Type 0 where
  auto rtp rtcp dual : Transport

-- normalizedVideoFeedbackTransport
unfoldable pub normalize_transport_mode : Text → Transport
normalize_transport_mode mode =
    let m = to_lower (trim_space mode) in
    if text_eq m (codes "rtp")
    then rtp
    else if text_eq m (codes "rtcp")
    then rtcp
    else if text_eq m (codes "dual")
    then dual
    else auto

abbrev pub is_known : Target → List Target → Bool
is_known t ts = any (λ u. same_address t.address u.address) ts

-- `add` of buildVideoFeedbackTargets
unfoldable pub add_target : Target → List Target → List Target
add_target t ts = if is_known t ts then ts else ts ++ t ∷ []

unfoldable pub add_all : List Target → List Target → List Target
add_all [] ts = ts
add_all (t ∷ rest) ts = add_all rest (add_target t ts)

-- The targets that buildVideoFeedbackTargets adds, in their order.
unfoldable pub candidates : Transport → Address → Option Address → Bool → List Target
candidates mode destination learned fallback =
    let rtcp_address : Address = record destination { port = destination.port + 1 } in
    let primary : Address = elim learned [ none ↦ rtcp_address | some a ↦ a ] in
    let media : Target = record { address = destination; to_rtp = true; is_primary = true } in
    let control : Target = record { address = primary; to_rtp = false; is_primary = false } in
    let last : Target = record { address = rtcp_address; to_rtp = false; is_primary = false } in
    elim mode [
      | rtp ↦ media ∷ []
      | rtcp ↦ record control { is_primary = true } ∷ []
      | dual ↦ media ∷ control ∷ []
      | auto ↦ media ∷ control ∷ (if fallback then last ∷ [] else [])
    ]

-- buildVideoFeedbackTargets
unfoldable pub build_targets : Transport → Option Address → Option Address → Bool → List Target
build_targets mode none learned fallback = []
build_targets mode (some destination) learned fallback =
    if is_empty destination.ip
    then []
    else add_all (candidates mode destination learned fallback) []

-- A request that waits for the end of a frame; its authority is the generation and media epoch of a switch.
pub record Request : Type 0 where
  pub kind : Kind
  pub trigger : Text
  pub force : Bool
  pub authority : Option (ℕ × ℕ)

-- What the requests read and write of a session. Durations that are not positive are 0, and a connection is
-- whether it is there.
pub record Feedback : Type 0 where
  pub recovery : Recovery
  pub rtp_conn : Bool
  pub rtcp_conn : Bool
  pub destination : Option Address
  pub learned : Option Address
  pub transport : Text
  pub video_ssrc : ℕ
  pub remote_video_ssrc : ℕ
  pub fir_seq : ℕ
  pub pli_sent : ℕ
  pub last_pli_sent : Option ℕ
  pub last_sip_pli : Option ℕ
  pub last_sip_fir : Option ℕ
  pub last_keyframe : Option ℕ
  -- the gate of sip_rtcp_fb.go
  pub request_mode : Text
  pub idr_in_flight : Bool
  pub idr_complete_at : Option ℕ
  pub packet_seen : Bool
  pub last_packet_marker : Bool
  pub guard : ℕ
  pub min_interval : ℕ
  pub pending : Option Request
