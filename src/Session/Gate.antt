-- ===== src/Session/Gate.antt =====
-- The state that internal/session/switch_video_gate.go, switch_target.go, switch_blackout.go and
-- switch_renegotiate.go share: the fields of Session that decide whether a video access unit may go
-- to the browser after an @switch. Each function holds the session lock throughout.
pub mod Hold
pub mod Calls
pub mod Watch
pub mod Target
pub mod Events
pub mod Steps
pub mod Safety
pub mod Release
pub mod Limits
pub mod Switching
pub mod Tests
use Prim.Native.String.{String}
use text.Mathlib.Text.{◌==◌ as str_eq}
use webrtc_gateway.Base.{
  ℕ, ◌-◌, ◌*◌, ◌≤◌, Bool, true, false, not, ◌&&◌, ◌||◌, Option, none, some, ltb, leb, ◌==◌, ◌!=◌,
  if◌then◌else◌, is_zero, is_before, is_within, millisecond, second,
}

pub data Mode : Type 0 where
  blackout preserve unset : Mode

pub data Reason : Type 0 where
  blackout_hold renegotiate_pending release_in_progress stale_generation non_idr : Reason
  parameter_sets_not_ready undersized_idr reservation_exhausted : Reason
  stale_accepted_generation inactive complete_idr_reserved : Reason

pub record Gate : Type 0 where
  -- the SIP video stream
  pub remote_ssrc : ℕ
  pub rtp_source : String
  pub asterisk_addr : Option String
  pub opened_ssrc : ℕ
  pub opened_source : String
  -- the accepted switch target
  pub switch_generation : ℕ
  pub target_queue : String
  pub target_agent : String
  pub target_at : Option ℕ
  pub media_ssrc : ℕ
  pub media_source : String
  pub duplicates : ℕ
  pub media_epoch : ℕ
  -- the gate
  pub normalize : Bool
  pub active : Bool
  pub releasing : Bool
  pub generation : ℕ
  pub accepted : ℕ
  pub started_at : Option ℕ
  pub start_reason : String
  pub feedback_baseline : ℕ
  pub rejected : ℕ
  pub last_reject : Option Reason
  pub last_reject_log : Option ℕ
  pub last_stall_log : Option ℕ
  pub pli_scheduled : Bool
  pub pli_generation : ℕ
  pub still_emitted : Bool
  pub lease_nonce : ℕ
  pub reservation : ℕ
  pub reserved_packets : ℕ
  pub reserved_ssrc : ℕ
  pub reserved_injection : Bool
  pub min_idr_packets : ℕ
  pub fail_open : ℕ
  pub fail_open_cap : ℕ
  pub discontinuity_at : Option ℕ
  -- feedback, the cached IDR and the parameter sets
  pub pli_sent : ℕ
  pub last_sip_pli : Option ℕ
  pub idr_cached : Bool
  pub idr_replay_pending : Bool
  pub require_healthy_idr : Bool
  pub healthy_idr : Bool
  pub parameter_sets : Bool
  -- the transition hold
  pub mode : Mode
  pub hold_until : Option ℕ
  pub hold_max_wait : Option ℕ
  pub hold_started : Option ℕ
  pub hold_keyframe_at : Option ℕ
  -- renegotiation
  pub renegotiate_hold : Bool
  pub pending_switch_renegotiation : Bool
  -- the recovery window
  pub recovery_until : Option ℕ
  pub stable_window : ℕ
  pub min_packet_delta : ℕ
  pub released_at : Option ℕ
  pub burst_satisfied : Bool

abbrev pub stall_threshold : ℕ
stall_threshold = 2 * second

abbrev pub stall_interval : ℕ
stall_interval = 2 * second

abbrev pub reject_log_interval : ℕ
reject_log_interval = second

abbrev pub retry_pli_delay : ℕ
retry_pli_delay = 800 * millisecond

abbrev pub pli_force_min_interval : ℕ
pli_force_min_interval = 300 * millisecond

abbrev pub discontinuity_credit : ℕ
discontinuity_credit = 150 * millisecond

-- A switch token: the generation and the media epoch that its handler was started with.
pub record Token : Type 0 where
  pub token_generation : ℕ
  pub token_epoch : ℕ

pub is_authority : Token → Gate → Bool
is_authority t g = (g.media_epoch == t.token_epoch) && (g.switch_generation == t.token_generation)

-- `switchVideoGateElapsed`: 0 before the start, which is where `-` stops.
abbrev pub elapsed : Option ℕ → ℕ → ℕ
elapsed none now = 0
elapsed (some start) now = now - start

unfoldable pub clear_reservation : Gate → Gate
clear_reservation g = record g {
  reservation = 0;
  reserved_packets = 0;
  reserved_ssrc = 0;
  reserved_injection = false;
}

unfoldable pub clear_gate : Gate → Gate
unfolding clear_reservation
clear_gate g = clear_reservation (record g {
  active = false;
  releasing = false;
  generation = 0;
  started_at = none;
  start_reason = "";
  feedback_baseline = 0;
  rejected = 0;
  last_reject = none;
  last_reject_log = none;
  last_stall_log = none;
  pli_scheduled = false;
  pli_generation = 0;
  still_emitted = false;
})

pub reset_gate : Gate → Gate
unfolding clear_gate
reset_gate g = record (clear_gate g) { accepted = 0 }

pub clear_idr_cache : Gate → Gate
clear_idr_cache g = record g { idr_cached = false; idr_replay_pending = false }

pub min_packets : Gate → ℕ
min_packets g = if ltb 0 g.min_idr_packets then g.min_idr_packets else 1

-- An IDR on a repaired timestamp stands for the gate's keyframe for 150 ms.
pub discontinuity_fresh : Gate → ℕ → Bool
discontinuity_fresh g now = elim g.discontinuity_at [
  | none ↦ false
  | some t ↦ leb t now && leb (now - t) discontinuity_credit
]

pub note_discontinuity_idr : ℕ → Gate → Gate
note_discontinuity_idr now g = record g { discontinuity_at = some now }

pub current_source : Gate → String
current_source g =
    if not (str_eq g.rtp_source "")
    then g.rtp_source
    else elim g.asterisk_addr [ some a ↦ a | none ↦ "" ]

unfoldable pub note_opened : ℕ → ℕ → Gate → Gate
unfolding current_source
note_opened ssrc now g =
    let source = current_source g in
    if ssrc == 0 then g else if str_eq source "" then g else record g {
      opened_ssrc = ssrc;
      opened_source = source;
      media_ssrc = ssrc;
      media_source = source;
      target_at = if is_zero g.target_at then some now else g.target_at;
    }

pub opened_matches : ℕ → String → Gate → Bool
opened_matches ssrc source g =
    (g.opened_ssrc != 0)
    && not (str_eq g.opened_source "")
    && (ssrc == g.opened_ssrc)
    && str_eq source g.opened_source

pub holds_for_renegotiation : Gate → Bool
holds_for_renegotiation g = g.renegotiate_hold || g.pending_switch_renegotiation

pub recovery_active : Gate → ℕ → Bool
recovery_active g now = is_before now g.recovery_until

unfoldable pub soften_recovery : ℕ → Gate → Gate
unfolding recovery_active
soften_recovery now g = if not (recovery_active g now) then g else record g {
  stable_window =
      if ltb (300 * millisecond) g.stable_window then 300 * millisecond else g.stable_window;
  min_packet_delta = if ltb 15 g.min_packet_delta then 15 else g.min_packet_delta;
  released_at = some now;
  burst_satisfied = true;
}
