-- ===== src/Session/Recovery/Burst.antt =====
-- internal/session/video_recovery.go: the burst window of keyframe requests, and the decision of a watchdog tick.
use webrtc_gateway.Base.{
  if◌then◌else◌, Bool, Option, ℕ, is_zero, ltb, none, not, ◌+◌, false, ◌||◌, ◌&&◌, [], second, some,
  ◌*◌, is_empty, is_before, true,
}
use webrtc_gateway.Session.Recovery.{finish_recovery, Recovery, is_started, raise_fallback}
use webrtc_gateway.Text.{Text, text_eq, codes}
use webrtc_gateway.Session.Normalizer.{positive}

-- StartVideoRecoveryBurst
unfoldable pub start_burst : ℕ → Text → Recovery → Recovery
start_burst now reason r =
    let until = now + positive r.burst_window (12 * second) in
    if not r.burst_enabled then r else record r {
      burst_started = some now;
      burst_until = some until;
      burst_reason = reason;
      fallback_until = raise_fallback until r.fallback_until;
    }

abbrev pub is_bursting : Recovery → Bool
is_bursting r =
    not (is_zero r.burst_until) || not (is_zero r.burst_started) || not (is_empty r.burst_reason)

abbrev pub clear_burst : Recovery → Recovery
clear_burst r = record r {
  burst_until = none;
  burst_started = none;
  burst_reason = [];
  fallback_until = none;
}

-- The reason that is reported, when a switch is the cause of the burst and its stream never was stable.
abbrev pub end_reason : Text → Recovery → Text
end_reason reason r =
    if text_eq r.burst_reason (codes "switch")
      && text_eq reason (codes "timeout")
      && ltb 0 r.unstable_count
    then codes "timeout-rtp-unstable"
    else reason

-- endVideoRecoveryBurst: the reason that it reports, or `none` where it returns false.
unfoldable pub end_burst : Text → Recovery → Recovery × Option Text
unfolding finish_recovery
end_burst reason r = if not (is_bursting r) && not (is_started r) then (r, none) else (
  if is_started r then finish_recovery (clear_burst r) else clear_burst r,
  some (end_reason reason r),
)

-- StopVideoRecoveryBurstIfActive
unfoldable pub stop_burst : Text → Recovery → Recovery × Option Text
unfolding end_burst
stop_burst reason r = if is_zero r.burst_until then (r, none) else end_burst reason r

-- Limits of the watchdog: the interval between requests and the ages that ask for a PLI and for a FIR.
pub record Limits : Type 0 where
  pub interval : ℕ
  pub stale : ℕ
  pub fir_stale : ℕ

-- A configured value that is positive and lower than the usual one.
abbrev pub lower : ℕ → ℕ → ℕ
lower configured usual = if ltb 0 configured && ltb configured usual then configured else usual

unfoldable pub lowered : Recovery → Limits → Limits
lowered r l =
    let stale = lower r.burst_stale l.stale in
    let fir_stale = lower r.burst_fir_stale l.fir_stale in
    record {
      interval = lower r.burst_interval l.interval;
      stale = stale;
      fir_stale = if ltb fir_stale stale then stale else fir_stale;
    }

-- getVideoRecoveryPolicy, with whether the burst window is open.
unfoldable pub recovery_policy : ℕ → Limits → Recovery → Recovery × Limits × Bool
unfolding end_burst
recovery_policy now l r =
    if not r.burst_enabled || is_zero r.burst_until
    then (r, l, false)
    else if not (is_before now r.burst_until)
    then ((end_burst (codes "timeout") r).0, l, false)
    else (r, lowered r l, true)

-- KeyframeWatchdogInput
pub record Tick : Type 0 where
  pub now : ℕ
  pub last_keyframe : Option ℕ
  pub last_rtp : Option ℕ
  pub last_sip_pli : Option ℕ
  pub last_sip_fir : Option ℕ
  pub stale_after : ℕ
  pub fir_stale_after : ℕ
  pub request_interval : ℕ
  pub burst_active : Bool
  pub gate_active : Bool
  pub healthy_idr : Bool

-- KeyframeWatchdogDecision, its action and its reason.
pub data Decision : Type 0 where
  fresh_keyframe rtp_flowing fir_throttled pli_throttled : Decision
  sends_fir : Decision
  sends_pli : (is_burst_stale : Bool) → Decision

-- `keyframeAge < d`, where without a keyframe the age is a second over the limit for a PLI.
abbrev pub is_younger : ℕ → Tick → Bool
is_younger d t = elim t.last_keyframe [
  | none ↦ ltb (t.stale_after + second) d
  | some k ↦ ltb t.now (k + d)
]

-- `!t.IsZero() && now.Sub(t) < d`, which holds of an instant after now too.
abbrev pub is_recent : Option ℕ → ℕ → ℕ → Bool
is_recent none now d = false
is_recent (some t) now d = ltb now (t + d)

-- DecideKeyframeWatchdog
unfoldable pub decide_watchdog : Tick → Decision
decide_watchdog t =
    if is_younger t.stale_after t
    then fresh_keyframe
    else if not t.burst_active
        && not t.gate_active
        && t.healthy_idr
        && is_recent t.last_rtp t.now t.stale_after
    then rtp_flowing
    else if not (is_younger t.fir_stale_after t)
    then if is_recent t.last_sip_fir t.now t.request_interval then fir_throttled else sends_fir
    else if is_recent t.last_sip_pli t.now t.request_interval
    then pli_throttled
    else sends_pli t.burst_active
