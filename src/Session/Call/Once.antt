-- ===== src/Session/Call/Once.antt =====
-- The one-time effects of a call: telemetry reports (session_state.go, session.go), the notices of the first remote
-- media and the first uplink keyframe requests.
use webrtc_gateway.Base.{[], ◌∷◌, ℕ, ◌+◌, ◌≤◌, Bool, ◌≡◌, arith, true, ap, refl, List}
use webrtc_gateway.Session.Call.{
  set_state, records_setup, enter_state, CallState, Call, mark_recorded, begin_telemetry,
  set_call_info, transfer_out, transfer_in,
}
use webrtc_gateway.Session.Call.Progress.{
  claim_join_kick, claim_rtcp_kick, mark_audio_ready, mark_video_ready, take_progress, reset_media,
}
use webrtc_gateway.Session.Call.Events.{
  Latch, once_if, latched, started_report, setup_report, completed_report, video_notice,
  audio_notice, join_request, rtcp_request, step, Event, sets_state, uses, uses_in, transfers_in,
  video_ready, audio_ready, join_kick, rtcp_kick, sets_info, notifies, begins, completes, fails,
  claims, releases, ends_by, ends_incoming_by, clears_terminal, claims_incoming, validates, arms,
  commits, transfers_out, drops_audio, aborts, renews, renewals, resets_media,
}
use webrtc_gateway.Text.{Text}
use webrtc_gateway.Session.Call.Midcall.{
  abort_handoff, complete, fail, try_begin, try_claim, release_claim, begin_terminal,
  begin_incoming_terminal, clear_terminal, claim_incoming, apply_validation, arm_handoff,
  commit_handoff, drop_legacy_audio,
}
use webrtc_gateway.Session.Call.Latches.{
  Same, abort-Same, complete-Same, fail-Same, info_step, latched-Same, state_step,
}

-- A latch is set by its use, and stays until the effect is due again.
abbrev Guards : Latch → Event → Call → Type 0
Guards l e c = uses l e c + once_if (latched l c) ≤ once_if (latched l (step e c)) + renews l e

quiet-Guards :
    (l : Latch) (e : Event) (c : Call) → uses l e c ≡ 0 → Same c (step e c) → Guards l e c
quiet-Guards l e c u h = omega (arith, u, ap once_if (latched-Same l c (step e c) h))

video_ready-Guards : (l : Latch) (b : Bool) (c : Call) → Guards l (video_ready b) c
unfolding step uses mark_video_ready
video_ready-Guards started_report b c = ground arith
video_ready-Guards setup_report b c = ground arith
video_ready-Guards completed_report b c = ground arith
video_ready-Guards video_notice b c = ground arith
video_ready-Guards audio_notice b c = ground arith
video_ready-Guards join_request b c = ground arith
video_ready-Guards rtcp_request b c = ground arith

audio_ready-Guards : (l : Latch) (c : Call) → Guards l audio_ready c
unfolding step uses mark_audio_ready
audio_ready-Guards started_report c = ground arith
audio_ready-Guards setup_report c = ground arith
audio_ready-Guards completed_report c = ground arith
audio_ready-Guards video_notice c = ground arith
audio_ready-Guards audio_notice c = ground arith
audio_ready-Guards join_request c = ground arith
audio_ready-Guards rtcp_request c = ground arith

join_kick-Guards : (l : Latch) (c : Call) → Guards l join_kick c
unfolding step uses claim_join_kick
join_kick-Guards started_report c = ground arith
join_kick-Guards setup_report c = ground arith
join_kick-Guards completed_report c = ground arith
join_kick-Guards video_notice c = ground arith
join_kick-Guards audio_notice c = ground arith
join_kick-Guards join_request c = ground arith
join_kick-Guards rtcp_request c = ground arith

rtcp_kick-Guards : (l : Latch) (c : Call) → Guards l rtcp_kick c
unfolding step uses claim_rtcp_kick
rtcp_kick-Guards started_report c = ground arith
rtcp_kick-Guards setup_report c = ground arith
rtcp_kick-Guards completed_report c = ground arith
rtcp_kick-Guards video_notice c = ground arith
rtcp_kick-Guards audio_notice c = ground arith
rtcp_kick-Guards join_request c = ground arith
rtcp_kick-Guards rtcp_request c = ground arith

transfer_in-Guards :
    (l : Latch) (source c : Call)
    → once_if c.setup_recorded ≤ once_if c.call_started
    → Guards l (transfers_in source) c
unfolding step uses transfer_in
transfer_in-Guards started_report source c o = ground arith
transfer_in-Guards setup_report source c o = ground arith
transfer_in-Guards completed_report source c o = ground arith
transfer_in-Guards video_notice source c o = ground arith
transfer_in-Guards audio_notice source c o = ground arith
transfer_in-Guards join_request source c o = ground arith
transfer_in-Guards rtcp_request source c o = ground arith

resets_media-Guards : (l : Latch) (c : Call) → Guards l resets_media c
unfolding step uses reset_media
resets_media-Guards started_report c = ground arith
resets_media-Guards setup_report c = ground arith
resets_media-Guards completed_report c = ground arith
resets_media-Guards video_notice c = ground arith
resets_media-Guards audio_notice c = ground arith
resets_media-Guards join_request c = ground arith
resets_media-Guards rtcp_request c = ground arith

step-Guards :
    (l : Latch) (e : Event) (c : Call)
    → once_if c.setup_recorded ≤ once_if c.call_started
    → Guards l e c
unfolding step uses transfer_out take_progress try_begin try_claim release_claim begin_terminal
    begin_incoming_terminal clear_terminal claim_incoming apply_validation arm_handoff
    commit_handoff drop_legacy_audio
step-Guards l (sets_state now s) c o = omega (arith, state_step l now s c)
step-Guards l (sets_info now d) c o = omega (arith, info_step l now d c)
step-Guards l (transfers_in source) c o = transfer_in-Guards l source c o
step-Guards l (video_ready b) c o = video_ready-Guards l b c
step-Guards l audio_ready c o = audio_ready-Guards l c
step-Guards l join_kick c o = join_kick-Guards l c
step-Guards l rtcp_kick c o = rtcp_kick-Guards l c
step-Guards l resets_media c o = resets_media-Guards l c
step-Guards l transfers_out c o = quiet-Guards l transfers_out c refl (ground arith)
step-Guards l (notifies s) c o = quiet-Guards l (notifies s) c refl (ground arith)
step-Guards l (begins now r) c o = quiet-Guards l (begins now r) c refl (ground arith)
step-Guards l (completes now i) c o =
    quiet-Guards l (completes now i) c refl (complete-Same now i c)
step-Guards l (fails now i) c o = quiet-Guards l (fails now i) c refl (fail-Same now i c)
step-Guards l (claims g) c o = quiet-Guards l (claims g) c refl (ground arith)
step-Guards l (releases g) c o = quiet-Guards l (releases g) c refl (ground arith)
step-Guards l (ends_by now a) c o = quiet-Guards l (ends_by now a) c refl (ground arith)
step-Guards l (ends_incoming_by now a) c o =
    quiet-Guards l (ends_incoming_by now a) c refl (ground arith)
step-Guards l (clears_terminal now) c o = quiet-Guards l (clears_terminal now) c refl (ground arith)
step-Guards l (claims_incoming now client) c o =
    quiet-Guards l (claims_incoming now client) c refl (ground arith)
step-Guards l (validates now v) c o = quiet-Guards l (validates now v) c refl (ground arith)
step-Guards l (arms old audio video) c o =
    quiet-Guards l (arms old audio video) c refl (ground arith)
step-Guards l (commits fresh) c o = quiet-Guards l (commits fresh) c refl (ground arith)
step-Guards l drops_audio c o = quiet-Guards l drops_audio c refl (ground arith)
step-Guards l aborts c o = quiet-Guards l aborts c refl (abort-Same c)

-- A call reports its setup only once it is started.
abbrev IsOrderly : Call → Type 0
IsOrderly c = once_if c.setup_recorded ≤ once_if c.call_started

Same-IsOrderly : (c d : Call) → Same c d → IsOrderly c → IsOrderly d
Same-IsOrderly c d h o = omega (arith, ap once_if h.0, ap once_if h.1)

begin_telemetry-IsOrderly : (now : ℕ) (c : Call) → IsOrderly c → IsOrderly (begin_telemetry now c)
unfolding begin_telemetry
begin_telemetry-IsOrderly now c o = ground arith

set_state-IsOrderly :
    (now : ℕ) (s : CallState) (c : Call) → IsOrderly c → IsOrderly (set_state now s c).0
unfolding set_state mark_recorded records_setup enter_state
set_state-IsOrderly now s c o =
    ground (arith, begin_telemetry-IsOrderly now (enter_state now s c) o)

set_call_info-IsOrderly :
    (now : ℕ) (d : Text) (c : Call) → IsOrderly c → IsOrderly (set_call_info now d c).0
unfolding set_call_info
set_call_info-IsOrderly now d c o = begin_telemetry-IsOrderly now _ o

step-IsOrderly : (e : Event) (c : Call) → IsOrderly c → IsOrderly (step e c)
unfolding step transfer_in transfer_out take_progress mark_video_ready mark_audio_ready
    claim_join_kick claim_rtcp_kick try_begin try_claim release_claim begin_terminal
    begin_incoming_terminal clear_terminal claim_incoming apply_validation arm_handoff
    commit_handoff drop_legacy_audio reset_media
step-IsOrderly (sets_state now s) c o = set_state-IsOrderly now s c o
step-IsOrderly (sets_info now d) c o = set_call_info-IsOrderly now d c o
step-IsOrderly (completes now i) c o =
    Same-IsOrderly c (complete now i c).0 (complete-Same now i c) o
step-IsOrderly (fails now i) c o = Same-IsOrderly c (fail now i c).0 (fail-Same now i c) o
step-IsOrderly aborts c o = Same-IsOrderly c (abort_handoff c).0 (abort-Same c) o
step-IsOrderly _ c o = ground arith

never_renewed :
    (es : List Event)
    → renewals started_report es + renewals setup_report es + renewals completed_report es ≡ 0
unfolding renewals
never_renewed [] = refl
never_renewed (e ∷ es) = omega (arith, never_renewed es)

uses-latched :
    (l : Latch) (es : List Event) (c : Call)
    → IsOrderly c
    → uses_in l es c + once_if (latched l c) ≤ 1 + renewals l es
unfolding uses_in renewals
uses-latched l [] c o = ground arith
uses-latched l (e ∷ es) c o =
    omega (arith, step-Guards l e c o, uses-latched l es (step e c) (step-IsOrderly e c o))

-- In any history, from a call that is started if its setup is recorded: the reports of the start, the setup and the
-- end of a call happen at most once each; the notices of the first remote video and audio and the two first keyframe
-- requests at most once, and once more for each reset of the media state, which makes them due again. An
-- effect whose latch is set already happens at most as often as such a reset makes it due.
pub latch_once :
    (l : Latch) (es : List Event) (c : Call)
    → (c.setup_recorded ≡ true → c.call_started ≡ true)
    → (uses_in l es c + once_if (latched l c) ≤ 1 + renewals l es)
      × (renewals started_report es + renewals setup_report es + renewals completed_report es ≡ 0)
latch_once l es c o = (uses-latched l es c (ground arith), never_renewed es)
