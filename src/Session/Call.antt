-- ===== src/Session/Call.antt =====
-- The life of a call in internal/session: its states and one-time latches (session_state.go), the terminal action and the
-- claim of an incoming call (session.go), mid-call renegotiation (midcall.go), the claim of a switch
-- renegotiation (switch_renegotiate.go) and the make-before-break handoff (make_before_break.go). Each
-- function holds the session lock throughout, or where it takes it twice says so.
pub mod Progress
pub mod Midcall
pub mod Events
pub mod Latches
pub mod Once
pub mod Pending
pub mod Offer
pub mod Reading
pub mod Offered
pub mod Malformed
pub mod OfferTests
pub mod Tests
use webrtc_gateway.Base.{
  none, some, [], ◌∷◌, if◌then◌else◌, ℕ, ◌||◌, Bool, not, false, Option, true, List, ◌&&◌, ◌++◌,
  is_zero, ◌-◌, some,
}
use webrtc_gateway.Text.{Text, text_eq, codes}

-- SessionState
pub data CallState : Type 0 where
  new incoming connecting ringing active reconnecting ended : CallState

abbrev pub same_state : CallState → CallState → Bool
same_state new new = true
same_state incoming incoming = true
same_state connecting connecting = true
same_state ringing ringing = true
same_state active active = true
same_state reconnecting reconnecting = true
same_state ended ended = true
same_state _ _ = false

-- MidCallRenegotiationSnapshot, of a negotiation that is pending; times are instants of the clock.
pub record Snapshot : Type 0 where
  pub id : Text
  pub origin : Text
  pub method : Text
  pub offer_sdp : Text
  pub answer_sdp : Text
  pub reason : Text
  pub started_at : ℕ
  pub timeout : ℕ

pub record Call : Type 0 where
  pub state : CallState
  pub direction : Text
  pub updated_at : ℕ
  pub answered_at : Option ℕ
  -- the terminal action, and the claim of an incoming call
  pub terminal_action : Text
  pub terminal_action_at : Option ℕ
  pub terminal_reason : Text
  pub incoming_claimed : Bool
  pub claimed_by : Text
  -- latches
  pub last_notified : Option CallState
  pub video_ready_notified : Bool
  pub audio_ready_notified : Bool
  pub join_kick_done : Bool
  pub rtcp_kick_done : Bool
  -- telemetry
  pub call_started : Bool
  pub call_active : Bool
  pub setup_recorded : Bool
  pub call_completed : Bool
  pub transferred : Bool
  pub call_started_at : ℕ
  pub call_active_at : ℕ
  pub idr_cached : Bool
  pub cancelled : Bool
  -- mid-call renegotiation
  pub pending : Option Snapshot
  pub claimed_generation : ℕ
  pub renegotiate_hold : Bool
  pub replacement_ready : Bool
  pub remote_audio_direction : Text
  pub remote_video_direction : Text
  pub has_active_video : Bool
  -- the live peer connection and its tracks, and the parked ones, by their identity
  pub peer : Option ℕ
  pub audio_track : Option ℕ
  pub video_track : Option ℕ
  pub legacy_peer : Option ℕ
  pub legacy_audio : Option ℕ
  pub legacy_video : Option ℕ
  pub pending_ice : List ℕ

-- What SetState and SetCallInfo report to telemetry after the lock.
pub data Report : Type 0 where
  started : Text → Report
  setup : Text → ℕ → Report
  completed : Text → Text → Text → ℕ → Report

-- beginCallTelemetryLocked
abbrev pub is_underway : CallState → Bool
is_underway incoming = true
is_underway connecting = true
is_underway ringing = true
is_underway active = true
is_underway _ = false

unfoldable pub begins_telemetry : Call → Bool
begins_telemetry c =
    not c.call_started
    && not c.transferred
    && (text_eq c.direction (codes "inbound") || text_eq c.direction (codes "outbound"))
    && is_underway c.state

unfoldable pub begin_telemetry : ℕ → Call → Call
begin_telemetry now c =
    if begins_telemetry c
    then record c { call_started = true; call_active = true; call_started_at = now }
    else c

-- terminalTelemetryOutcome
unfoldable pub terminal_outcome : Text → Text → Text × Text
terminal_outcome action reason =
    if text_eq action (codes "reject")
    then (codes "rejected", codes "remote_rejected")
    else if text_eq action (codes "timeout")
    then (codes "timeout", codes "deadline_exceeded")
    else if text_eq action (codes "cancel")
    then (codes "cancelled", codes "none")
    else if text_eq reason (codes "ice_failed") || text_eq reason (codes "ice_failed_pre_sip")
    then (codes "failure", codes "peer_closed")
    else (codes "success", codes "none")

-- The first part of SetState: the new state, and when the call was answered.
unfoldable pub enter_state : ℕ → CallState → Call → Call
enter_state now s c = record c {
  state = s;
  updated_at = now;
  answered_at = if same_state s active && is_zero c.answered_at then some now else c.answered_at;
}

-- recordSetup and recordCompleted, of the call after beginCallTelemetryLocked.
unfoldable pub records_setup : CallState → Call → Bool
records_setup previous c =
    same_state c.state active
    && not (same_state previous active)
    && c.call_started
    && not c.setup_recorded
    && not c.transferred

unfoldable pub records_completed : Call → Bool
records_completed c =
    same_state c.state ended && c.call_started && not c.call_completed && not c.transferred

unfoldable pub mark_recorded : ℕ → CallState → Call → Call
mark_recorded now previous c =
    let setup_now = records_setup previous c in
    record c {
      setup_recorded = c.setup_recorded || setup_now;
      call_active_at = if setup_now then now else c.call_active_at;
      call_completed = c.call_completed || records_completed c;
      idr_cached = if same_state c.state ended then false else c.idr_cached;
      cancelled = c.cancelled || same_state c.state ended;
    }

unfoldable pub report_if : Bool → Report → List Report
report_if b r = if b then r ∷ [] else []

-- SetState
unfoldable pub set_state : ℕ → CallState → Call → Call × List Report
unfolding begin_telemetry mark_recorded report_if
set_state now s c =
    let entered = enter_state now s c in
    let begun = begin_telemetry now entered in
    let outcome = terminal_outcome begun.terminal_action begun.terminal_reason in
    (
      mark_recorded now c.state begun,
      report_if (begins_telemetry entered) (started begun.direction)
          ++ report_if (records_setup c.state begun)
              (setup begun.direction (now - begun.call_started_at))
          ++ report_if (records_completed begun)
              (completed begun.direction outcome.0 outcome.1 (now - begun.call_started_at)),
    )

-- SetCallInfo, of which the parties and the Call-ID are left out.
unfoldable pub set_call_info : ℕ → Text → Call → Call × List Report
unfolding begin_telemetry report_if
set_call_info now direction c =
    let named = record c { direction = direction; updated_at = now } in
    (begin_telemetry now named, report_if (begins_telemetry named) (started direction))

-- transferCallTelemetry, and what CopyIncomingInviteFrom makes of it at the other session.
unfoldable pub transfer_out : Call → Call
transfer_out c = record c { transferred = c.transferred || c.call_started }

unfoldable pub transfer_in : Call → Call → Call
transfer_in source c =
    if source.call_started && not c.call_started
    then record c {
      call_started = true;
      call_active = source.call_active;
      setup_recorded = source.setup_recorded;
      call_started_at = source.call_started_at;
      call_active_at = source.call_active_at;
    }
    else c
