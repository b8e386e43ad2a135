-- ===== src/Session/Feedback/Events.antt =====
-- Histories of the keyframe requests to the SIP side (internal/session/switch_feedback.go, sip_rtcp_fb.go), and what they
-- send.
use webrtc_gateway.Session.Feedback.{Feedback, Kind, Request, Address, is_fir}
use webrtc_gateway.Base.{
  ℕ, Option, List, if◌then◌else◌, some, ◌∷◌, none, Bool, not, [], ◌&&◌, false,
}
use webrtc_gateway.Session.Feedback.Requests.{decide_request, prepare, note_marker, pli_bypass}
use webrtc_gateway.Session.Recovery.{Recovery}
use webrtc_gateway.Session.Recovery.Events.{Event as RecoveryEvent, step as recovery_step}
use webrtc_gateway.Session.Recovery.Events.{reset_recovery}

-- A request whose RTCP is sent, and whether a PLI passed the limits by a bypass.
pub record Sent : Type 0 where
  pub at : ℕ
  pub kind_sent : Kind
  pub bypassed : Bool

-- What ResetMediaState does to the requests; the times of the last requests to the SIP side stay.
abbrev pub reset_feedback : Feedback → Feedback
reset_feedback s = record s {
  recovery = reset_recovery s.recovery;
  destination = none;
  learned = none;
  video_ssrc = 0;
  remote_video_ssrc = 0;
  idr_in_flight = false;
  idr_complete_at = none;
  packet_seen = false;
  last_packet_marker = false;
  pending = none;
}

-- What happens to the state of the requests; the rest of the session may change the recovery, the addresses and
-- SSRCs, the keyframe of the SIP side and the progress of an uplink IDR as it likes.
pub data Event : Type 0 where
  decides : ℕ → Request → Event
  prepares : ℕ → Request → Event
  forwards : Bool → Event
  recovery_does : RecoveryEvent → Event
  recovers : Recovery → Event
  reaches : Option Address → Option Address → ℕ → Event
  sees_keyframe : ℕ → Event
  sends_idr : Bool → Option ℕ → Event
  resets_media : Event

unfoldable pub step : Event → Feedback → Feedback
step (decides now r) s = (decide_request now r s).0
step (prepares now r) s = (prepare now r s).0
step (forwards marker) s = (note_marker marker s).0
step (recovery_does e) s = record s { recovery = recovery_step e s.recovery }
step (recovers recovery) s = record s { recovery = recovery }
step (reaches destination learned ssrc) s = record s {
  destination = destination;
  learned = learned;
  remote_video_ssrc = ssrc;
}
step (sees_keyframe now) s = record s { last_keyframe = some now }
step (sends_idr in_flight complete) s = record s {
  idr_in_flight = in_flight;
  idr_complete_at = complete;
}
step resets_media s = reset_feedback s

abbrev pub sent_by : Event → Feedback → Option Sent
sent_by (prepares now r) s =
    if (prepare now r s).1.ready
    then some (record {
      at = now;
      kind_sent = r.kind;
      bypassed = not (is_fir r.kind) && (pli_bypass now r s).1;
    })
    else none
sent_by _ s = none

abbrev pub cons_option : {A : Type 0} → Option A → List A → List A
cons_option none xs = xs
cons_option (some x) xs = x ∷ xs

unfoldable pub sent : List Event → Feedback → List Sent
sent [] s = []
sent (e ∷ es) s = cons_option (sent_by e s) (sent es (step e s))

unfoldable pub run : List Event → Feedback → Feedback
run [] s = s
run (e ∷ es) s = run es (step e s)
