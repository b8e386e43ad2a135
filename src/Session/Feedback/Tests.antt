-- ===== src/Session/Feedback/Tests.antt =====
-- Runs of the keyframe requests (internal/session/switch_feedback.go) at concrete instants, in milliseconds.
use webrtc_gateway.Session.Feedback.{
  fir, pli, Kind, Feedback, build_targets, Request, Address, candidates, add_all, add_target,
  normalize_transport_mode,
}
use webrtc_gateway.Session.Recovery.Tests.{idle}
use webrtc_gateway.Session.Feedback.Events.{
  sent, run, step, Event, forwards, prepares, recovery_does, sees_keyframe,
}
use webrtc_gateway.Session.Feedback.Bypassing.{hurried_once, hurries, gives, times}
use webrtc_gateway.Session.Recovery.Events.{starts, once, step as recovery_step}
use webrtc_gateway.Session.Recovery.{start_recovery, begin_recovery}
use webrtc_gateway.Session.Feedback.Waiting.{are_quiet, waits_for_marker}
use webrtc_gateway.Base.{
  ◌+◌, ◌≤◌, ℕ, List, [], ◌*◌, true, ◌≡◌, refl, some, false, ◌&&◌, none, ◌∷◌, not, map,
}
use webrtc_gateway.Session.Feedback.Requests.{
  decide_request, note_marker, decide_feedback, normalize_request_mode, prepare, pass_limits,
  last_rtcp, pli_bypass, trigger_of, pli_throttled, fir_throttled, aim,
}
use webrtc_gateway.Session.Feedback.Spacing.{IsPaced, sent-IsPaced}
use webrtc_gateway.Text.{codes, to_lower, trim_space, text_eq}
use webrtc_gateway.Sip.Trunk.{any}

abbrev ms : ℕ → ℕ
ms n = n * 1_000_000

abbrev asterisk : Address
asterisk = record { ip = codes "10.0.0.5"; port = 40000 }

abbrev connected : Feedback
connected = record {
  recovery = idle;
  rtp_conn = true;
  rtcp_conn = true;
  destination = some asterisk;
  learned = none;
  transport = codes " Auto ";
  video_ssrc = 7;
  remote_video_ssrc = 9;
  fir_seq = 255;
  pli_sent = 0;
  last_pli_sent = none;
  last_sip_pli = none;
  last_sip_fir = none;
  last_keyframe = none;
  request_mode = codes "both";
  idr_in_flight = false;
  idr_complete_at = none;
  packet_seen = true;
  last_packet_marker = false;
  guard = ms 200;
  min_interval = ms 500;
  pending = none;
}

abbrev ask : Kind → Request
ask k = record { kind = k; trigger = []; force = false; authority = some (2, 1) }

abbrev attempts : List Event
attempts =
    prepares (ms 100) (ask fir)
    ∷ prepares (ms 200) (ask pli)
    ∷ prepares (ms 700) (ask fir)
    ∷ prepares (ms 800) (ask pli)
    ∷ prepares (ms 1100) (ask fir)
    ∷ []

attempts_sent : map (λ x. x.at) (sent attempts connected) ≡ ms 100 ∷ ms 800 ∷ ms 1100 ∷ []
unfolding sent step prepare pass_limits pli_bypass pli_throttled fir_throttled aim build_targets
    candidates add_all add_target normalize_transport_mode text_eq to_lower trim_space any
attempts_sent = refl

fir_wraps : (run attempts connected).fir_seq ≡ 2
unfolding run step prepare pass_limits pli_bypass pli_throttled fir_throttled aim build_targets
    candidates add_all add_target normalize_transport_mode text_eq to_lower trim_space any
fir_wraps = refl

-- Both addresses of a destination, the media port first.
targets_of_asterisk :
    map
      (λ t. t.address.port)
      (build_targets (normalize_transport_mode (codes " Auto ")) (some asterisk) none true)
    ≡ 40000 ∷ 40001 ∷ []
unfolding build_targets candidates add_all add_target normalize_transport_mode trim_space to_lower
    text_eq any
targets_of_asterisk = refl

put_off : (decide_request (ms 50) (ask pli) connected).1.pending_rtcp ≡ true
unfolding decide_request decide_feedback normalize_request_mode last_rtcp text_eq to_lower
    trim_space
put_off = refl

abbrev meanwhile : List Event
meanwhile = forwards false ∷ sees_keyframe (ms 60) ∷ prepares (ms 70) (ask fir) ∷ []

meanwhile-quiet : are_quiet meanwhile (decide_request (ms 50) (ask pli) connected).0 ≡ true
unfolding are_quiet
meanwhile-quiet = refl

sent-IsPaced_example :
    IsPaced connected.last_sip_pli connected.last_sip_fir (sent attempts connected)
sent-IsPaced_example = sent-IsPaced attempts connected

waits_for_marker_example :
    let d = decide_request (ms 50) (ask pli) connected in
    let (after, handed) = note_marker true (run meanwhile d.0) in
    (d.1.send_rtcp ≡ false)
    × ((connected.packet_seen && not connected.last_packet_marker) ≡ true)
    × (handed ≡ some (record (ask pli) { trigger = trigger_of (ask pli) }))
    × ((note_marker true after).1 ≡ none)
waits_for_marker_example =
    waits_for_marker (ms 50) (ask pli) meanwhile connected put_off meanwhile-quiet

-- A recovery starts; of two PLIs for it right after the last request one is sent.
abbrev for_switch : Request
for_switch = record { kind = pli; trigger = codes "switch"; force = true; authority = none }

abbrev hurry : List Event
hurry =
    prepares (ms 90) (ask pli)
    ∷ recovery_does (starts (ms 100) 0 0 none)
    ∷ prepares (ms 110) for_switch
    ∷ prepares (ms 120) for_switch
    ∷ []

hurry_once : times hurries hurry connected ≡ 1
unfolding times step prepare pass_limits pli_bypass pli_throttled aim build_targets candidates
    add_all add_target normalize_transport_mode text_eq to_lower trim_space any start_recovery
    begin_recovery recovery_step
hurry_once = refl

hurried_once_example :
    times hurries hurry connected + once (run hurry connected).recovery.one_shot_pli
    ≤ times gives hurry connected + once connected.recovery.one_shot_pli
hurried_once_example = hurried_once hurry connected
