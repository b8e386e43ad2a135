-- ===== src/Session/Gate/Events.antt =====
-- Histories of the gate: the calls of internal/session/switch_video_gate.go, switch_target.go and
-- switch_blackout.go in any order, and what the rest of the session may change between them.
use Prim.Native.String.{String}
use webrtc_gateway.Base.{
  ℕ, ◌+◌, ◌^◌, ◌≤◌, ◌<◌, ◌≡◌, Bool, true, false, Option, some, List, [], ◌∷◌, ◌⊎◌,
}
use webrtc_gateway.Session.Rtp.{AccessUnit}
use webrtc_gateway.Session.Gate.{Gate, Token, Mode, note_opened, note_discontinuity_idr}
use webrtc_gateway.Session.Gate.Hold.{start_hold, stop_hold, should_hold}
use webrtc_gateway.Session.Gate.Calls.{evaluate, commit, abort, start_gate}
use webrtc_gateway.Session.Gate.Watch.{
  schedule_pli, stop_gate, maybe_fail_open, observe_stall, clear_still_emitted,
}
use webrtc_gateway.Session.Gate.Target.{SwitchMessage, prepare_and_activate}

pub data Event : Type 0 where
  evaluates : AccessUnit → ℕ → Event
  commits : ℕ → ℕ → ℕ → Event
  aborts : ℕ → ℕ → Event
  starts : ℕ → ℕ → String → Event
  schedules : ℕ → ℕ → Event
  stops : ℕ → Event
  fails_open : Bool → ℕ → Event
  stalls : ℕ → Event
  switches : SwitchMessage → ℕ → Event
  notes_opened : ℕ → ℕ → Event
  notes_discontinuity : ℕ → Event
  holds : Bool → Option Token → Mode → ℕ → ℕ → ℕ → Event
  offers : ℕ → Bool → Event
  unholds : Event
  clears_still : Event
  -- the stream, a renegotiation, a PLI and the recovery window, which other code sets
  streams : ℕ → String → Option String → Event
  renegotiates : Bool → Bool → Event
  sends_pli : ℕ → Event
  recovers : Option ℕ → ℕ → Event

unfoldable pub step : Event → Gate → Gate
step (evaluates au now) g = (evaluate au now g).0
step (commits generation reservation now) g = (commit generation reservation now g).0
step (aborts generation reservation) g = (abort generation reservation g).0
step (starts generation now reason) g = (start_gate generation now reason g).0
step (schedules generation now) g = (schedule_pli generation now g).0
step (stops generation) g = (stop_gate generation g).0
step (fails_open healthy now) g = (maybe_fail_open healthy now g).0
step (stalls now) g = (observe_stall now g).0
step (switches m now) g = (prepare_and_activate m now g).0.gate
step (notes_opened ssrc now) g = note_opened ssrc now g
step (notes_discontinuity now) g = note_discontinuity_idr now g
step (holds enabled token mode least most now) g =
    (start_hold enabled token mode least most now g).0
step (offers now is_keyframe) g = (should_hold now is_keyframe g).0
step unholds g = stop_hold g
step clears_still g = clear_still_emitted g
step (streams ssrc source addr) g = record g {
  remote_ssrc = ssrc;
  rtp_source = source;
  asterisk_addr = addr;
}
step (renegotiates hold pending) g = record g {
  renegotiate_hold = hold;
  pending_switch_renegotiation = pending;
}
step (sends_pli now) g = record g { pli_sent = g.pli_sent + 1; last_sip_pli = some now }
step (recovers until window) g = record g { recovery_until = until; stable_window = window }

unfoldable pub run : List Event → Gate → Gate
run [] g = g
run (e ∷ es) g = run es (step e g)

pub record IsValid (g : Gate) : Type 0 where
  pub accepted_le : g.accepted ≤ g.switch_generation
  pub active_ge : g.active ≡ true → g.accepted ≤ g.generation
  pub active_le : g.active ≡ true → g.generation ≤ g.switch_generation
  pub lease_active : g.releasing ≡ true → g.active ≡ true
  pub lease_latest : g.releasing ≡ true → g.reservation ≡ g.lease_nonce
  pub lease_some : g.releasing ≡ true → 0 < g.reservation
  pub lease_none : g.releasing ≡ false → g.reservation ≡ 0
  pub nonce_in : g.lease_nonce < 2 ^ 64

-- What a step does to the numbers that only grow.
pub record Grows (g h : Gate) : Type 0 where
  pub accepted_grows : g.accepted ≤ h.accepted
  pub switch_grows : g.switch_generation ≤ h.switch_generation
  pub nonce_grows : g.lease_nonce ≤ h.lease_nonce
  -- a lease after the step is the lease before it, none, or new
  pub lease_fresh :
      (h.reservation ≡ g.reservation) ⊎ (h.reservation ≡ 0) ⊎ (g.lease_nonce < h.reservation)
