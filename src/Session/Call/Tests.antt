-- ===== src/Session/Call/Tests.antt =====
-- Runs of the call of internal/session, and the witnesses.
use mathlib.Core.List.{reverse, reverse_aux}
use webrtc_gateway.Base.{[], ◌∷◌, none, some, List, ◌≡◌, false, take, refl, ◌≤◌, true, arith, ◌+◌}
use webrtc_gateway.Session.Call.Midcall.{
  Request, snapshot_of, try_begin, try_claim, complete, fail, begin_terminal, to_upper, decimal,
}
use webrtc_gateway.Session.Call.{
  set_state, ended, Call, new, completed, incoming, reconnecting, active, begins_telemetry,
  enter_state, records_setup, records_completed, set_call_info, begin_telemetry, mark_recorded,
  report_if, terminal_outcome,
}
use webrtc_gateway.Session.Call.Progress.{mark_video_ready, reset_media}
use webrtc_gateway.Session.Call.Events.{
  uses_in, run, setup_report, completed_report, Event, sets_info, begins, completes, latched,
  sets_state, aborts, video_ready, ends_by, step, resets_media, video_notice, once_if, renewals,
  started_report,
}
use webrtc_gateway.Text.{codes, trim_space, text_eq, trim_left}
use webrtc_gateway.Session.Call.Once.{latch_once}
use webrtc_gateway.Session.Call.Pending.{pending_stays}

abbrev incoming_call : Call
incoming_call = record {
  state = new;
  direction = [];
  updated_at = 0;
  answered_at = none;
  terminal_action = [];
  terminal_action_at = none;
  terminal_reason = [];
  incoming_claimed = false;
  claimed_by = [];
  last_notified = none;
  video_ready_notified = false;
  audio_ready_notified = false;
  join_kick_done = false;
  rtcp_kick_done = false;
  call_started = false;
  call_active = false;
  setup_recorded = false;
  call_completed = false;
  transferred = false;
  call_started_at = 0;
  call_active_at = 0;
  idr_cached = true;
  cancelled = false;
  pending = none;
  claimed_generation = 0;
  renegotiate_hold = false;
  replacement_ready = false;
  remote_audio_direction = [];
  remote_video_direction = [];
  has_active_video = false;
  peer = some 1;
  audio_track = some 2;
  video_track = some 3;
  legacy_peer = none;
  legacy_audio = none;
  legacy_video = none;
  pending_ice = [];
}

-- A call that rings, is answered, loses its network, comes back and ends twice.
abbrev life : List Event
life =
    sets_info 5 (codes "inbound")
    ∷ sets_state 10 incoming
    ∷ sets_state 20 active
    ∷ video_ready false
    ∷ video_ready true
    ∷ video_ready true
    ∷ sets_state 30 reconnecting
    ∷ sets_state 40 active
    ∷ ends_by 50 (codes "bye")
    ∷ sets_state 60 ended
    ∷ sets_state 70 ended
    ∷ []

setup_once : uses_in setup_report life incoming_call ≡ 1
unfolding uses_in set_call_info begins_telemetry text_eq set_state enter_state step records_setup
    records_completed begin_terminal
setup_once = refl

completed_once : uses_in completed_report life incoming_call ≡ 1
unfolding uses_in set_call_info begins_telemetry text_eq set_state enter_state step records_setup
    records_completed begin_terminal
completed_once = refl

last_report :
    (set_state 60 ended (run (take 9 life) incoming_call)).1
    ≡ completed (codes "inbound") (codes "success") (codes "none") 50 ∷ []
unfolding run step set_state set_call_info begin_telemetry begins_telemetry mark_recorded
    records_setup records_completed report_if enter_state terminal_outcome text_eq mark_video_ready
    begin_terminal
last_report = refl

-- A reset in the middle of a call makes the notice of the first video due again.
abbrev reset_life : List Event
reset_life =
    video_ready true ∷ video_ready true ∷ resets_media ∷ video_ready true ∷ video_ready true ∷ []

notified_twice : uses_in video_notice reset_life incoming_call ≡ 2
unfolding uses_in step mark_video_ready reset_media
notified_twice = refl

latch_once_example :
    (uses_in video_notice reset_life incoming_call + once_if (latched video_notice incoming_call)
      ≤ 1 + renewals video_notice reset_life)
    × (renewals started_report reset_life
          + renewals setup_report reset_life
          + renewals completed_report reset_life
        ≡ 0)
latch_once_example = latch_once video_notice reset_life incoming_call (λ h. ground arith)

abbrev hold_request : Request
hold_request = record {
  request_id = [];
  source = codes " switch_message ";
  request_method = codes "ws";
  request_offer = [];
  request_answer = [];
  request_reason = codes "agent_switch";
  request_started = some 120;
  request_timeout = 0;
}

named_by_time : (snapshot_of 7 hold_request).id ≡ codes "reneg-120"
unfolding snapshot_of trim_space
named_by_time = refl

abbrev meanwhile : List Event
meanwhile =
    begins 130 hold_request
    ∷ completes 140 (codes "reneg-12")
    ∷ sets_state 150 reconnecting
    ∷ aborts
    ∷ []

pending_stays_example :
    ((run meanwhile (try_begin 7 hold_request incoming_call).0).pending
      ≡ some (snapshot_of 7 hold_request))
    × ((try_begin 160 hold_request (run meanwhile (try_begin 7 hold_request incoming_call).0)).1
        ≡ false)
    × ((try_claim 2 (run meanwhile (try_begin 7 hold_request incoming_call).0)).1 ≡ false)
    × (complete 160 (codes "x") (run meanwhile (try_begin 7 hold_request incoming_call).0)
        ≡ (run meanwhile (try_begin 7 hold_request incoming_call).0, false))
    × (fail 160 (codes "x") (run meanwhile (try_begin 7 hold_request incoming_call).0)
        ≡ (run meanwhile (try_begin 7 hold_request incoming_call).0, false))
    × ((complete 160
          (snapshot_of 7 hold_request).id
          (run meanwhile (try_begin 7 hold_request incoming_call).0)).1
        ≡ true)
    × ((complete 160
          (snapshot_of 7 hold_request).id
          (run meanwhile (try_begin 7 hold_request incoming_call).0)).0.pending
        ≡ none)
unfolding try_begin snapshot_of trim_space trim_left text_eq to_upper decimal reverse reverse_aux
pending_stays_example =
    pending_stays 7 hold_request meanwhile incoming_call refl (refl, (refl, (refl, (refl, tt)))) 160
      hold_request 2 (codes "x") refl
