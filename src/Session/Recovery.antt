-- ===== src/Session/Recovery.antt =====
-- internal/session/switch_recovery.go and video_recovery.go: the recovery of the SIP video after a switch, and the
-- burst window in which keyframes are asked for more often. An operation holds the session lock throughout.
pub mod Progress
pub mod Burst
pub mod Ending
pub mod Stable
pub mod Events
pub mod Bounded
pub mod Bypass
pub mod Tests
use webrtc_gateway.Base.{
  if◌then◌else◌, Bool, ℕ, ◌*◌, ◌==◌, Option, not, is_before, ◌+◌, is_zero, millisecond, ◌&&◌, true,
  ltb, none, second, some, ◌||◌, false,
}
use webrtc_gateway.Session.Disorder.{Summary, Delta}
use webrtc_gateway.Session.Normalizer.{positive}
use webrtc_gateway.Text.{Text, codes}

-- The zero Time is `none`, and an empty reason the empty text. Configured durations and limits that are not
-- positive are 0.
pub record Recovery : Type 0 where
  -- the burst window
  pub burst_enabled : Bool
  pub burst_window : ℕ
  pub burst_interval : ℕ
  pub burst_stale : ℕ
  pub burst_fir_stale : ℕ
  pub burst_until : Option ℕ
  pub burst_started : Option ℕ
  pub burst_reason : Text
  pub fallback_until : Option ℕ
  -- the recovery of a switch
  pub received_at : Option ℕ
  pub started_at : Option ℕ
  pub recovery_until : Option ℕ
  pub first_keyframe_at : Option ℕ
  pub stable_window : ℕ
  pub one_shot_pli : Bool
  pub feedback_satisfied : Bool
  pub summary : Summary
  pub baseline : Summary
  pub baseline_at : Option ℕ
  pub last_unstable_log : Option ℕ
  pub unstable_count : ℕ
  pub gate_released_at : Option ℕ
  -- the stability of the stream
  pub stability_enabled : Bool
  pub min_packet_delta : ℕ
  pub max_gap_delta : ℕ
  pub max_missing_delta : ℕ
  pub max_out_of_order_delta : ℕ
  pub max_reorder_drop_delta : ℕ
  pub max_reorder_timeout_delta : ℕ
  -- the authority of a switch
  pub media_epoch : ℕ
  pub switch_generation : ℕ

abbrev pub no_summary : Summary
no_summary = record {
  packets = 0;
  gaps = 0;
  missing = 0;
  out_of_order = 0;
  duplicates = 0;
  reorder_buffered = 0;
  reorder_released = 0;
  reorder_dropped = 0;
  reorder_timed_out = 0;
  reorder_pending = 0;
  last_keyframe_age = 0;
}

abbrev pub default_stable_window : ℕ
default_stable_window = 750 * millisecond

-- `t.After(u)` for an instant t: every instant is after the zero Time.
abbrev pub is_after : ℕ → Option ℕ → Bool
is_after t none = true
is_after t (some u) = ltb u t

-- VideoRecoveryBurstUntil, once it is set, raises VideoRTCPFallbackUntil.
abbrev pub raise_fallback : ℕ → Option ℕ → Option ℕ
raise_fallback until fallback = if is_after until fallback then some until else fallback

abbrev pub has_authority : ℕ → ℕ → Recovery → Bool
has_authority generation epoch r = r.media_epoch == epoch && r.switch_generation == generation

-- The fields that startSwitchVideoRecovery sets under the lock.
unfoldable pub begin_recovery : (now max_window stable : ℕ) → Recovery → Recovery
begin_recovery now max_window stable r =
    let until = now + positive max_window (5 * second) in
    record r {
      received_at = some now;
      started_at = some now;
      recovery_until = some until;
      first_keyframe_at = none;
      stable_window = positive stable default_stable_window;
      one_shot_pli = true;
      feedback_satisfied = false;
      summary = no_summary;
      baseline = no_summary;
      baseline_at = none;
      last_unstable_log = none;
      unstable_count = 0;
      burst_started = some now;
      burst_until = some until;
      burst_reason = codes "switch";
      fallback_until = raise_fallback until r.fallback_until;
    }

-- startSwitchVideoRecovery up to the flush of a pending browser request, with `none` for no required
-- authority; the second result is whether it goes on.
unfoldable pub start_recovery :
    (now max_window stable : ℕ) → Option (ℕ × ℕ) → Recovery → Recovery × Bool
start_recovery now max_window stable none r =
    (if r.burst_enabled then begin_recovery now max_window stable r else r, true)
start_recovery now max_window stable (some (generation, epoch)) r =
    let granted = has_authority generation epoch r in
    (if r.burst_enabled && granted then begin_recovery now max_window stable r else r, granted)

-- isSwitchVideoRecoveryActiveLocked
abbrev pub is_recovering : ℕ → Recovery → Bool
is_recovering now r = is_before now r.recovery_until

-- applyPostGateRecoverySofteningLocked
unfoldable pub soften : ℕ → Recovery → Recovery
soften now r = if not (is_recovering now r) then r else record r {
  stable_window =
      if ltb (300 * millisecond) r.stable_window then 300 * millisecond else r.stable_window;
  min_packet_delta = if ltb 15 r.min_packet_delta then 15 else r.min_packet_delta;
  gate_released_at = some now;
  feedback_satisfied = true;
}

-- The tests of finishSwitchVideoRecoveryLocked and of StopSwitchVideoRecoveryIfActive.
abbrev pub is_started : Recovery → Bool
is_started r = not (is_zero r.started_at) || not (is_zero r.recovery_until)

-- finishSwitchVideoRecoveryLocked
unfoldable pub finish_recovery : Recovery → Recovery
finish_recovery r = if not (is_started r) then r else record r {
  started_at = none;
  recovery_until = none;
  first_keyframe_at = none;
  one_shot_pli = false;
  summary = no_summary;
  baseline = no_summary;
  baseline_at = none;
  last_unstable_log = none;
  unstable_count = 0;
  gate_released_at = none;
}

-- StopSwitchVideoRecoveryIfActive
unfoldable pub stop_recovery : Recovery → Recovery
stop_recovery r = if is_started r then finish_recovery r else r

pub record StabilityPolicy : Type 0 where
  pub min_packets : ℕ
  pub max_gaps : ℕ
  pub max_missing : ℕ
  pub max_out_of_order : ℕ
  pub max_drops : ℕ
  pub max_timeouts : ℕ

-- switchRTPStabilityPolicyLocked
unfoldable pub stability_policy : Recovery → StabilityPolicy
stability_policy r = record {
  min_packets = positive r.min_packet_delta 30;
  max_gaps = positive r.max_gap_delta 12;
  max_missing = positive r.max_missing_delta 20;
  max_out_of_order = positive r.max_out_of_order_delta 20;
  max_drops = r.max_reorder_drop_delta;
  max_timeouts = positive r.max_reorder_timeout_delta 5;
}

pub data Unstable : Type 0 where
  insufficient_packet_progress gap_delta missing_delta ooo_delta reorder_drop_delta : Unstable
  reorder_timeout_delta : Unstable

-- switchRTPStabilityFailure
unfoldable pub stability_failure : Delta → StabilityPolicy → Option Unstable
stability_failure d p =
    if ltb d.delta_packets p.min_packets
    then some insufficient_packet_progress
    else if ltb p.max_gaps d.delta_gaps
    then some gap_delta
    else if ltb p.max_missing d.delta_missing
    then some missing_delta
    else if ltb p.max_out_of_order d.delta_out_of_order
    then some ooo_delta
    else if ltb p.max_drops d.delta_dropped
    then some reorder_drop_delta
    else if ltb p.max_timeouts d.delta_timed_out
    then some reorder_timeout_delta
    else none
