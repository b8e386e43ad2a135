-- ===== src/Session/Call/Latches.antt =====
-- What the reports and the latches of a call hang on, operation by operation (internal/session/session_state.go).
use webrtc_gateway.Base.{[], ℕ, ◌+◌, Bool, ◌≡◌, arith, ◌++◌, if◌then◌else◌, true, false, ap, refl}
use webrtc_gateway.Session.Call.{
  set_state, records_setup, records_completed, enter_state, begins_telemetry, CallState, Call,
  mark_recorded, report_if, begin_telemetry, Report, started, setup, completed, set_call_info,
}
use webrtc_gateway.Session.Call.Events.{
  Latch, count_reports, once_if, latched, started_report, setup_report, completed_report, is_report,
  video_notice, audio_notice, join_request, rtcp_request,
}
use webrtc_gateway.Text.{Text}
use webrtc_gateway.Session.Call.Midcall.{abort_handoff, complete, fail, settle_pending, clear_hold}

count_three :
    (l : Latch) (a b d : Bool) (p q r : Report)
    → count_reports l (report_if a p ++ report_if b q ++ report_if d r)
      ≡ (if is_report l p then once_if a else 0)
        + (if is_report l q then once_if b else 0)
        + (if is_report l r then once_if d else 0)
unfolding report_if
count_three l true true true p q r = ground arith
count_three l true true false p q r = ground arith
count_three l true false true p q r = ground arith
count_three l true false false p q r = ground arith
count_three l false true true p q r = ground arith
count_three l false true false p q r = ground arith
count_three l false false true p q r = ground arith
count_three l false false false p q r = ground arith

-- What the reports of SetState hang on.
begin_flags :
    (now : ℕ) (c : Call)
    → (once_if (begins_telemetry c) + once_if c.call_started
        ≡ once_if (begin_telemetry now c).call_started)
      × ((begin_telemetry now c).setup_recorded ≡ c.setup_recorded)
      × ((begin_telemetry now c).call_completed ≡ c.call_completed)
unfolding begin_telemetry begins_telemetry
begin_flags now c = ground arith

mark_flags :
    (now : ℕ) (s : CallState) (c : Call)
    → ((mark_recorded now s c).call_started ≡ c.call_started)
      × (once_if (records_setup s c) + once_if c.setup_recorded
          ≡ once_if (mark_recorded now s c).setup_recorded)
      × (once_if (records_completed c) + once_if c.call_completed
          ≡ once_if (mark_recorded now s c).call_completed)
unfolding mark_recorded records_setup records_completed
mark_flags now s c = ground arith

state_count :
    (l : Latch) (now : ℕ) (s : CallState) (c : Call)
    → count_reports l (set_state now s c).1
      ≡ (if is_report l (started []) then once_if (begins_telemetry (enter_state now s c)) else 0)
        + (if is_report l (setup [] 0)
            then once_if (records_setup c.state (begin_telemetry now (enter_state now s c)))
            else 0)
        + (if is_report l (completed [] [] [] 0)
            then once_if (records_completed (begin_telemetry now (enter_state now s c)))
            else 0)
unfolding set_state
state_count started_report now s c = count_three started_report _ _ _ _ _ _
state_count setup_report now s c = count_three setup_report _ _ _ _ _ _
state_count completed_report now s c = count_three completed_report _ _ _ _ _ _
state_count video_notice now s c = count_three video_notice _ _ _ _ _ _
state_count audio_notice now s c = count_three audio_notice _ _ _ _ _ _
state_count join_request now s c = count_three join_request _ _ _ _ _ _
state_count rtcp_request now s c = count_three rtcp_request _ _ _ _ _ _

begin_others :
    (now : ℕ) (c : Call)
    → ((begin_telemetry now c).video_ready_notified ≡ c.video_ready_notified)
      × ((begin_telemetry now c).audio_ready_notified ≡ c.audio_ready_notified)
      × ((begin_telemetry now c).join_kick_done ≡ c.join_kick_done)
      × ((begin_telemetry now c).rtcp_kick_done ≡ c.rtcp_kick_done)
unfolding begin_telemetry
begin_others now c = ground arith

state_flags :
    (l : Latch) (now : ℕ) (s : CallState) (c : Call)
    → (if is_report l (started []) then once_if (begins_telemetry c) else 0)
        + (if is_report l (setup [] 0)
            then once_if (records_setup s (begin_telemetry now c))
            else 0)
        + (if is_report l (completed [] [] [] 0)
            then once_if (records_completed (begin_telemetry now c))
            else 0)
        + once_if (latched l c)
      ≡ once_if (latched l (mark_recorded now s (begin_telemetry now c)))
state_flags started_report now s c =
    omega (arith, begin_flags now c, ap once_if (mark_flags now s (begin_telemetry now c)).0)
state_flags setup_report now s c =
    omega (arith, ap once_if (begin_flags now c).1, mark_flags now s (begin_telemetry now c))
state_flags completed_report now s c =
    omega (arith, ap once_if (begin_flags now c).2, mark_flags now s (begin_telemetry now c))
state_flags video_notice now s c =
    unfold mark_recorded in omega (arith, ap once_if (begin_others now c).0)
state_flags audio_notice now s c =
    unfold mark_recorded in omega (arith, ap once_if (begin_others now c).1)
state_flags join_request now s c =
    unfold mark_recorded in omega (arith, ap once_if (begin_others now c).2)
state_flags rtcp_request now s c =
    unfold mark_recorded in omega (arith, ap once_if (begin_others now c).3)

latched-enter :
    (l : Latch) (now : ℕ) (s : CallState) (c : Call) → latched l (enter_state now s c) ≡ latched l c
unfolding enter_state
latched-enter started_report now s c = refl
latched-enter setup_report now s c = refl
latched-enter completed_report now s c = refl
latched-enter video_notice now s c = refl
latched-enter audio_notice now s c = refl
latched-enter join_request now s c = refl
latched-enter rtcp_request now s c = refl

pub state_step :
    (l : Latch) (now : ℕ) (s : CallState) (c : Call)
    → count_reports l (set_state now s c).1 + once_if (latched l c)
      ≡ once_if (latched l (set_state now s c).0)
unfolding set_state
state_step l now s c =
    let n = enter_state now s c in
    rw (state_count l now s c, ← latched-enter l now s c) (state_flags l now c.state n)

pub info_step :
    (l : Latch) (now : ℕ) (d : Text) (c : Call)
    → count_reports l (set_call_info now d c).1 + once_if (latched l c)
      ≡ once_if (latched l (set_call_info now d c).0)
unfolding set_call_info report_if begin_telemetry begins_telemetry
info_step started_report now d c = ground arith
info_step setup_report now d c = ground arith
info_step completed_report now d c = ground arith
info_step video_notice now d c = ground arith
info_step audio_notice now d c = ground arith
info_step join_request now d c = ground arith
info_step rtcp_request now d c = ground arith

-- The latches of two states are the same.
abbrev pub Same : Call → Call → Type 0
Same c d =
    (c.call_started ≡ d.call_started)
    × (c.setup_recorded ≡ d.setup_recorded)
    × (c.call_completed ≡ d.call_completed)
    × (c.video_ready_notified ≡ d.video_ready_notified)
    × (c.audio_ready_notified ≡ d.audio_ready_notified)
    × (c.join_kick_done ≡ d.join_kick_done)
    × (c.rtcp_kick_done ≡ d.rtcp_kick_done)

pub latched-Same : (l : Latch) (c d : Call) → Same c d → latched l c ≡ latched l d
latched-Same started_report c d h = h.0
latched-Same setup_report c d h = h.1
latched-Same completed_report c d h = h.2
latched-Same video_notice c d h = h.3
latched-Same audio_notice c d h = h.4
latched-Same join_request c d h = h.5
latched-Same rtcp_request c d h = h.6

pub complete-Same : (now : ℕ) (i : Text) (c : Call) → Same c (complete now i c).0
unfolding complete settle_pending clear_hold
complete-Same now i c = ground arith

pub abort-Same : (c : Call) → Same c (abort_handoff c).0
unfolding abort_handoff
abort-Same c = ground arith

pub fail-Same : (now : ℕ) (i : Text) (c : Call) → Same c (fail now i c).0
unfolding fail settle_pending clear_hold
fail-Same now i c = ground (arith, abort-Same (settle_pending now c))
