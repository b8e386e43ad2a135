-- ===== src/Session/Recovery/Events.antt =====
-- Histories of a recovery: any order of the calls of switch_recovery.go and video_recovery.go (internal/session), and of
-- the reset of the media state.
use webrtc_gateway.Base.{
  ℕ, List, Bool, true, ◌&&◌, Option, ◌∷◌, false, none, ◌+◌, [], if◌then◌else◌, ◌==◌, ◌^◌, ◌-◌,
}
use webrtc_gateway.Session.Recovery.{Recovery, start_recovery, soften, no_summary, stop_recovery}
use webrtc_gateway.Session.Recovery.Progress.{
  consume_bypass, mark_keyframe, mark_progress, update_summary,
}
use webrtc_gateway.Session.Recovery.Burst.{start_burst, Limits, recovery_policy, stop_burst}
use webrtc_gateway.Text.{Text}
use webrtc_gateway.Session.Disorder.{Summary}

-- What ResetMediaState does to a recovery.
unfoldable pub reset_recovery : Recovery → Recovery
reset_recovery r = record r {
  media_epoch = if r.media_epoch == 2 ^ 64 - 1 then r.media_epoch else r.media_epoch + 1;
  switch_generation = 0;
  feedback_satisfied = false;
  fallback_until = none;
  started_at = none;
  recovery_until = none;
  first_keyframe_at = none;
  one_shot_pli = false;
  summary = no_summary;
  baseline = no_summary;
  baseline_at = none;
  last_unstable_log = none;
  unstable_count = 0;
}

pub data Event : Type 0 where
  starts : (now max_window stable : ℕ) → Option (ℕ × ℕ) → Event
  bursts : ℕ → Text → Event
  softens : ℕ → Event
  consumes : ℕ → Event
  keyframe_at : ℕ → Event
  progresses : ℕ → Bool → Event
  updates : ℕ → Summary → Event
  asks : ℕ → Limits → Event
  stops_burst : Text → Event
  stops_recovery resets : Event

unfoldable pub step : Event → Recovery → Recovery
step (starts now max_window stable authority) r =
    (start_recovery now max_window stable authority r).0
step (bursts now reason) r = start_burst now reason r
step (softens now) r = soften now r
step (consumes now) r = (consume_bypass now r).0
step (keyframe_at now) r = mark_keyframe now r
step (progresses now is_keyframe) r = (mark_progress now is_keyframe r).0
step (updates now s) r = update_summary now s r
step (asks now l) r = (recovery_policy now l r).0
step (stops_burst reason) r = (stop_burst reason r).0
step stops_recovery r = stop_recovery r
step resets r = reset_recovery r

unfoldable pub run : List Event → Recovery → Recovery
run [] r = r
run (e ∷ es) r = run es (step e r)

abbrev pub once : Bool → ℕ
once true = 1
once false = 0

-- Whether an event hands out a bypass, and whether it starts a recovery.
abbrev pub hands_out : Event → Recovery → Bool
hands_out (consumes now) r = (consume_bypass now r).1
hands_out _ r = false

abbrev pub is_start : Event → Recovery → Bool
is_start (starts now max_window stable authority) r =
    r.burst_enabled && (start_recovery now max_window stable authority r).1
is_start _ r = false
