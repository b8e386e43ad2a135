-- ===== src/Session/Call/Events.antt =====
-- Histories of a call: any order of the calls of internal/session that Session/Call and Session/Call/Midcall model.
use webrtc_gateway.Base.{[], ◌∷◌, Bool, List, ℕ, if◌then◌else◌, ◌+◌, true, Option, false}
use webrtc_gateway.Session.Call.{
  set_state, set_call_info, Call, CallState, Report, transfer_out, started, transfer_in, setup,
  completed,
}
use webrtc_gateway.Session.Call.Progress.{
  mark_video_ready, mark_audio_ready, claim_join_kick, take_progress, claim_rtcp_kick, reset_media,
}
use webrtc_gateway.Text.{Text}
use webrtc_gateway.Session.Call.Midcall.{
  Request, Validation, try_begin, complete, fail, try_claim, release_claim, begin_terminal,
  begin_incoming_terminal, clear_terminal, claim_incoming, apply_validation, arm_handoff,
  commit_handoff, drop_legacy_audio, abort_handoff,
}

pub data Event : Type 0 where
  sets_state : ℕ → CallState → Event
  sets_info : ℕ → Text → Event
  transfers_out : Event
  transfers_in : Call → Event
  notifies : CallState → Event
  video_ready : Bool → Event
  audio_ready join_kick rtcp_kick resets_media : Event
  begins : ℕ → Request → Event
  completes : ℕ → Text → Event
  fails : ℕ → Text → Event
  claims : ℕ → Event
  releases : ℕ → Event
  ends_by : ℕ → Text → Event
  ends_incoming_by : ℕ → Text → Event
  clears_terminal : ℕ → Event
  claims_incoming : ℕ → Text → Event
  validates : ℕ → Validation → Event
  arms : Option ℕ → Option ℕ → Option ℕ → Event
  commits : Option ℕ → Event
  drops_audio aborts : Event

unfoldable pub step : Event → Call → Call
unfolding set_state set_call_info transfer_out transfer_in take_progress mark_video_ready
step (sets_state now s) c = (set_state now s c).0
step (sets_info now d) c = (set_call_info now d c).0
step transfers_out c = transfer_out c
step (transfers_in source) c = transfer_in source c
step (notifies s) c = (take_progress s c).0
step (video_ready b) c = (mark_video_ready b c).0
step audio_ready c = (mark_audio_ready c).0
step join_kick c = (claim_join_kick c).0
step rtcp_kick c = (claim_rtcp_kick c).0
step resets_media c = reset_media c
step (begins now r) c = (try_begin now r c).0
step (completes now i) c = (complete now i c).0
step (fails now i) c = (fail now i c).0
step (claims g) c = (try_claim g c).0
step (releases g) c = release_claim g c
step (ends_by now a) c = (begin_terminal now a c).0
step (ends_incoming_by now a) c = (begin_incoming_terminal now a c).0
step (clears_terminal now) c = clear_terminal now c
step (claims_incoming now client) c = (claim_incoming now client c).0
step (validates now v) c = apply_validation now v c
step (arms old audio video) c = arm_handoff old audio video c
step (commits fresh) c = commit_handoff fresh c
step drops_audio c = drop_legacy_audio c
step aborts c = (abort_handoff c).0

unfoldable pub run : List Event → Call → Call
run [] c = c
run (e ∷ es) c = run es (step e c)

-- What may happen once in the life of a call, or of its media state.
pub data Latch : Type 0 where
  started_report setup_report completed_report : Latch
  video_notice audio_notice join_request rtcp_request : Latch

abbrev pub latched : Latch → Call → Bool
latched started_report c = c.call_started
latched setup_report c = c.setup_recorded
latched completed_report c = c.call_completed
latched video_notice c = c.video_ready_notified
latched audio_notice c = c.audio_ready_notified
latched join_request c = c.join_kick_done
latched rtcp_request c = c.rtcp_kick_done

abbrev pub is_report : Latch → Report → Bool
is_report started_report (started d) = true
is_report setup_report (setup d t) = true
is_report completed_report (completed d o r t) = true
is_report _ _ = false

abbrev pub count_reports : Latch → List Report → ℕ
count_reports l [] = 0
count_reports l (r ∷ rs) = (if is_report l r then 1 else 0) + count_reports l rs

abbrev pub once_if : Bool → ℕ
once_if b = if b then 1 else 0

-- How often an event does what the latch guards: a report of SetState or SetCallInfo, or a granted claim.
unfoldable pub uses : Latch → Event → Call → ℕ
uses l (sets_state now s) c = count_reports l (set_state now s c).1
uses l (sets_info now d) c = count_reports l (set_call_info now d c).1
uses video_notice (video_ready b) c = once_if (mark_video_ready b c).1
uses audio_notice audio_ready c = once_if (mark_audio_ready c).1
uses join_request join_kick c = once_if (claim_join_kick c).1
uses rtcp_request rtcp_kick c = once_if (claim_rtcp_kick c).1
uses _ _ c = 0

unfoldable pub uses_in : Latch → List Event → Call → ℕ
unfolding uses
uses_in l [] c = 0
uses_in l (e ∷ es) c = uses l e c + uses_in l es (step e c)

-- Whether an event makes the effect due again: a reset of the media state, for the notices and keyframe requests.
abbrev pub renews : Latch → Event → ℕ
renews video_notice resets_media = 1
renews audio_notice resets_media = 1
renews join_request resets_media = 1
renews rtcp_request resets_media = 1
renews _ _ = 0

unfoldable pub renewals : Latch → List Event → ℕ
renewals l [] = 0
renewals l (e ∷ es) = renews l e + renewals l es
