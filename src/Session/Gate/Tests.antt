-- ===== src/Session/Gate/Tests.antt =====
-- Runs of the gate (internal/session/switch_video_gate.go and its neighbours) at concrete inputs: a
-- switch to a second agent whose keyframe comes two seconds later.
use webrtc_gateway.Session.Gate.Calls.{start_gate, commit, evaluate, abort, newly_active}
use webrtc_gateway.Session.Gate.Watch.{schedule_pli, maybe_fail_open, cap_limit, same_limit}
use webrtc_gateway.Session.Gate.Target.{
  next_target, SwitchMessage, activate_target, prepare_and_activate, accept_target, within_debounce,
  same_target,
}
use webrtc_gateway.Session.Gate.Hold.{start_hold, blocks_release}
use webrtc_gateway.Base.{
  ℕ, arith, true, false, refl, [], ◌∷◌, List, none, some, ◌≡◌, ◌↔◌, ◌⊎◌, ◌≤◌, length, ◌≢◌, ◌^◌, ◌-◌,
}
use webrtc_gateway.Session.Rtp.{Packet, AccessUnit}
use webrtc_gateway.Session.Gate.Safety.{Step, run-Step}
use webrtc_gateway.Session.Gate.Switching.{IsNewTarget, switch_blocks_old}
use webrtc_gateway.Session.Gate.Events.{
  IsValid, run, step, Event, switches, evaluates, commits, holds,
}
use webrtc_gateway.Session.Gate.{
  Gate, blackout, opened_matches, holds_for_renegotiation, min_packets, elapsed, preserve,
  stall_threshold,
}
use webrtc_gateway.Session.Gate.Release.{no_stale_emission, lease_once, active-emit}
use webrtc_gateway.Session.Gate.Limits.{fails_open_iff, Reached, IsOpenTo}

abbrev initial : Gate
initial = record {
  remote_ssrc = 7;
  rtp_source = "10.0.0.1:4000";
  asterisk_addr = none;
  opened_ssrc = 5;
  opened_source = "10.0.0.1:4000";
  switch_generation = 0;
  target_queue = "sales";
  target_agent = "ann";
  target_at = some 100;
  media_ssrc = 7;
  media_source = "10.0.0.1:4000";
  duplicates = 0;
  media_epoch = 3;
  normalize = true;
  active = false;
  releasing = false;
  generation = 0;
  accepted = 0;
  started_at = none;
  start_reason = "";
  feedback_baseline = 0;
  rejected = 0;
  last_reject = none;
  last_reject_log = none;
  last_stall_log = none;
  pli_scheduled = false;
  pli_generation = 0;
  still_emitted = false;
  lease_nonce = 0;
  reservation = 0;
  reserved_packets = 0;
  reserved_ssrc = 0;
  reserved_injection = false;
  min_idr_packets = 2;
  fail_open = 0;
  fail_open_cap = 0;
  discontinuity_at = none;
  pli_sent = 0;
  last_sip_pli = none;
  idr_cached = true;
  idr_replay_pending = true;
  require_healthy_idr = false;
  healthy_idr = true;
  parameter_sets = true;
  mode = blackout;
  hold_until = none;
  hold_max_wait = none;
  hold_started = none;
  hold_keyframe_at = none;
  renegotiate_hold = false;
  pending_switch_renegotiation = false;
  recovery_until = none;
  stable_window = 0;
  min_packet_delta = 0;
  released_at = none;
  burst_satisfied = false;
}

initial-IsValid : IsValid initial
initial-IsValid = ground arith

abbrev to_bob : SwitchMessage
to_bob = record { queue = "sales"; agent = "bob"; window = 0; debounce = true }

-- The gate that the switch to bob opens, for generation 1.
abbrev held : Gate
held = record initial {
  switch_generation = 1;
  active = true;
  generation = 1;
  started_at = some 1000;
  hold_until = some 2000;
  hold_max_wait = some 5000;
}

held-IsValid : IsValid held
held-IsValid = ground arith

abbrev packet : ℕ → Packet
packet n = record {
  marker = false;
  payload_type = 96;
  sequence_number = n;
  timestamp = 9000;
  ssrc = 7;
  payload = 101 ∷ 0 ∷ [];
}

-- A keyframe of three packets.
abbrev keyframe : ℕ → AccessUnit
keyframe generation = record {
  packets = packet 1 ∷ packet 2 ∷ packet 3 ∷ [];
  is_idr = true;
  injected_parameter_sets = false;
  parameter_sets_ready = true;
  generation = generation;
  source_timestamp = 9000;
  discontinuity = none;
  same_timestamp_split = none;
}

keyframe_passes : (evaluate (keyframe 1) 3000 held).1.emit ≡ true
unfolding evaluate blocks_release
keyframe_passes = refl

switch_holds : (prepare_and_activate to_bob 1000 initial).0.activation ≡ newly_active
unfolding prepare_and_activate activate_target accept_target start_gate next_target
switch_holds = refl

abbrev history : List Event
history =
    switches to_bob 1000
    ∷ evaluates (keyframe 1) 2000
    ∷ commits 1 1 2001
    ∷ holds true none preserve 0 0 2002
    ∷ []

history_accepts : (run history initial).accepted ≡ 1
unfolding run step start_hold commit evaluate prepare_and_activate activate_target accept_target
    start_gate next_target schedule_pli blocks_release
history_accepts = refl

run-Step_example : Step initial (run history initial)
run-Step_example = run-Step history initial initial-IsValid

abbrev shown : Gate
shown = record initial { switch_generation = 2; accepted = 2 }

shown-IsValid : IsValid shown
shown-IsValid = ground arith

no_stale_emission_example : (evaluate (keyframe 1) 3000 (run history shown)).1.emit ≡ false
no_stale_emission_example =
    no_stale_emission history (keyframe 1) 3000 shown shown-IsValid (omega arith)

abbrev leased : Gate
leased = record held { releasing = true; lease_nonce = 4; reservation = 4 }

leased-IsValid : IsValid leased
leased-IsValid = ground arith

lease_once_example :
    ((commit 1 4 3001 (run history (commit 1 4 3000 leased).0)).1 ≡ false)
    × ((abort 1 4 (run history (commit 1 4 3000 leased).0)).1 ≡ false)
unfolding commit
lease_once_example = lease_once history 1 4 3000 3001 leased leased-IsValid refl

active-emit_example : ((evaluate (keyframe 1) 3000 held).1.emit ≡ true) ↔ (
    (blocks_release 3000 held ≡ false)
    × (holds_for_renegotiation held ≡ false)
    × (held.releasing ≡ false)
    × ((keyframe 1).generation ≡ held.generation)
    × ((keyframe 1).is_idr ≡ true)
    × ((keyframe 1).parameter_sets_ready ≡ true)
    × ((min_packets held ≤ length (keyframe 1).packets)
        ⊎ (stall_threshold ≤ elapsed held.started_at 3000))
    × (held.lease_nonce ≢ 2 ^ 64 - 1))
active-emit_example = active-emit (keyframe 1) 3000 held refl

fails_open_iff_example :
    (same_limit held ≤ cap_limit held)
    × (((maybe_fail_open true 6000000000 held).0.active ≡ false) ↔ Reached true 6000000000 held)
    × (IsOpenTo (keyframe 1) 7000000000 held.generation (maybe_fail_open true 6000000000 held).0
        ⊎ (maybe_fail_open true 6000000000 held ≡ (held, none)))
fails_open_iff_example =
    fails_open_iff true (keyframe 1) 6000000000 7000000000 held held-IsValid refl (omega arith)

to_bob-IsNewTarget : IsNewTarget to_bob 1000 initial
unfolding IsNewTarget within_debounce same_target opened_matches
to_bob-IsNewTarget = (refl, refl)

switch_blocks_old_example :
    (evaluate (keyframe 0) 3000 (prepare_and_activate to_bob 1000 initial).0.gate).1.emit ≡ false
switch_blocks_old_example =
    switch_blocks_old to_bob 1000 3000 (keyframe 0) initial initial-IsValid refl to_bob-IsNewTarget
      (omega arith)
