-- ===== src/Session/Uplink/Tests.antt =====
-- Requests for a keyframe of the browser (internal/session/uplink_keyframe_gate.go) around an IDR, in milliseconds.
use webrtc_gateway.Session.Uplink.{
  Uplink, decide_session, is_switch_kind, observe_forward, is_remote_join_kind, note_progress,
  flying, is_sip_kind, fresh,
}
use webrtc_gateway.Session.Uplink.Waits.{forward, Forwarded, requests_wait}
use webrtc_gateway.Base.{
  List, ℕ, ◌*◌, Bool, true, false, ◌∷◌, none, ◌≡◌, [], some, refl, ◌⊎◌, arith,
}
use webrtc_gateway.Text.{codes, text_eq}
use webrtc_gateway.Session.Recovery.{is_after}
use webrtc_gateway.Sip.Trunk.{any}

abbrev ms : ℕ → ℕ
ms n = n * 1_000_000

abbrev quiet : Uplink
quiet = record {
  in_flight = false;
  in_flight_ts = 0;
  complete_at = none;
  last_keyframe = none;
  idr_seen = false;
  last_idr_ts = 0;
  last_idr = none;
  last_request = none;
  ssrc_learned = none;
  far_end_seen = none;
}

abbrev packet : ℕ → ℕ → Bool → Bool → Forwarded
packet now ts idr marker = record { at = ms now; timestamp = ts; is_idr = idr; marker = marker }

abbrev started : Uplink
started = forward (packet 100 9000 true false ∷ []) quiet

abbrev middle : List Forwarded
middle = packet 101 9000 true false ∷ packet 140 12000 false true ∷ []

-- The marker of a packet that is no IDR does not end the picture.
still_in_flight : (forward middle started).in_flight ≡ true
unfolding forward observe_forward note_progress
still_in_flight = refl

started-in_flight : started.in_flight ≡ true
unfolding forward observe_forward note_progress
started-in_flight = refl

newest : is_after (ms 150) (forward middle started).last_keyframe ≡ true
unfolding forward observe_forward note_progress
newest = refl

startup_kind :
    (is_switch_kind (codes "startup") ≡ false) × (is_remote_join_kind (codes "startup") ≡ false)
unfolding is_switch_kind is_remote_join_kind text_eq any
startup_kind = (refl, refl)

requests_wait_example :
    (decide_session (codes "startup") (ms 145) (forward middle started) ≡ some flying)
    × ((observe_forward (ms 150) 9000 true true (forward middle started)).in_flight ≡ false)
    × ((is_sip_kind (codes "startup") ≡ true)
        ⊎ (decide_session
              (codes "startup")
              (ms 1600)
              (observe_forward (ms 150) 9000 true true (forward middle started))
            ≡ some fresh))
requests_wait_example =
    requests_wait middle started (codes "startup") (ms 145) 9000 (ms 150) (ms 1600)
      started-in_flight (refl, (refl, tt)) startup_kind.0 startup_kind.1 newest (ground arith)
      (ground arith)
