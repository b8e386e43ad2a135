-- ===== src/Session/Recovery/Tests.antt =====
-- Runs of the recovery of a switch (internal/session/switch_recovery.go) at concrete instants, in milliseconds.
use webrtc_gateway.Session.Recovery.{
  Recovery, no_summary, start_recovery, begin_recovery, is_started, stability_failure,
  stability_policy, soften, finish_recovery,
}
use webrtc_gateway.Session.Recovery.Stable.{Clears, progress_ends_iff}
use webrtc_gateway.Session.Recovery.Ending.{has_ended, IsStable}
use webrtc_gateway.Session.Recovery.Burst.{Limits, recovery_policy, end_burst}
use webrtc_gateway.Session.Recovery.Events.{run, step, Event, starts, consumes, progresses, updates}
use webrtc_gateway.Base.{
  ℕ, List, ◌*◌, refl, true, none, ◌≡◌, false, [], some, ◌&&◌, ◌↔◌, ◌∷◌, is_before, ◌≤◌, ◌⊎◌, arith,
}
use webrtc_gateway.Session.Recovery.Bounded.{IsValid}
use webrtc_gateway.Session.Recovery.Progress.{
  mark_progress, consume_bypass, follow_keyframe, settle_progress, move_baseline, judge, judge_by,
  update_summary,
}
use webrtc_gateway.Session.Disorder.{Summary, rtp_delta}
use webrtc_gateway.Session.Recovery.Bypass.{policy_bounds}

abbrev ms : ℕ → ℕ
ms n = n * 1_000_000

abbrev pub idle : Recovery
idle = record {
  burst_enabled = true;
  burst_window = ms 8000;
  burst_interval = ms 1000;
  burst_stale = ms 4000;
  burst_fir_stale = ms 7000;
  burst_until = none;
  burst_started = none;
  burst_reason = [];
  fallback_until = none;
  received_at = none;
  started_at = none;
  recovery_until = none;
  first_keyframe_at = none;
  stable_window = 0;
  one_shot_pli = false;
  feedback_satisfied = false;
  summary = no_summary;
  baseline = no_summary;
  baseline_at = none;
  last_unstable_log = none;
  unstable_count = 0;
  gate_released_at = none;
  stability_enabled = true;
  min_packet_delta = 30;
  max_gap_delta = 12;
  max_missing_delta = 20;
  max_out_of_order_delta = 20;
  max_reorder_drop_delta = 0;
  max_reorder_timeout_delta = 5;
  media_epoch = 1;
  switch_generation = 2;
}

abbrev counted : ℕ → ℕ → Summary
counted received lost = record no_summary { packets = received; missing = lost }

-- A switch whose first window loses packets, and whose second is in order.
abbrev history : List Event
history =
    starts (ms 100) 0 0 (some (2, 1))
    ∷ consumes (ms 110)
    ∷ consumes (ms 120)
    ∷ progresses (ms 200) true
    ∷ updates (ms 900) (counted 60 40)
    ∷ progresses (ms 1000) false
    ∷ updates (ms 1700) (counted 120 45)
    ∷ []

abbrev recovering : Recovery
recovering = run history idle

lost_window : recovering.unstable_count ≡ 1
unfolding run step start_recovery begin_recovery consume_bypass mark_progress follow_keyframe
    settle_progress move_baseline judge judge_by update_summary stability_failure rtp_delta
    stability_policy end_burst
lost_window = refl

stable_at : has_ended (mark_progress (ms 1750) false recovering) ≡ true
unfolding run step start_recovery begin_recovery consume_bypass mark_progress follow_keyframe
    settle_progress move_baseline judge judge_by update_summary stability_failure rtp_delta
    stability_policy end_burst
stable_at = refl

idle-IsValid : IsValid idle
idle-IsValid = record {
  both_ends = refl;
  measured = refl;
  keyframe_inside = refl;
  bypass_inside = refl;
  window_open = refl;
}

abbrev usual : Limits
usual = record { interval = ms 2000; stale = ms 6000; fir_stale = ms 9000 }

progress_ends_iff_example :
    ((has_ended (mark_progress (ms 1750) false recovering) ≡ true) ↔ IsStable (ms 1750) recovering)
    × Clears (mark_progress (ms 1750) false recovering)
progress_ends_iff_example = progress_ends_iff (ms 1750) false recovering

policy_bounds_example :
    let h = run history idle in
    let (after, limits, bursting) = recovery_policy (ms 6000) usual h in
    (bursting ≡ (h.burst_enabled && is_before (ms 6000) h.burst_until))
    × (is_started after ≡ (is_started h && bursting))
    × (limits.interval ≤ usual.interval)
    × (limits.stale ≤ usual.stale)
    × (limits.fir_stale ≤ usual.fir_stale)
    × (limits.stale ≤ limits.fir_stale)
    × ((bursting ≡ true) ⊎ (limits ≡ usual))
policy_bounds_example = policy_bounds history (ms 6000) usual idle idle-IsValid (ground arith)

-- The limit that the release of a gate lowers stays low in the recovery of the next switch.
softened_stays :
    (run
      (starts (ms 9000) 0 0 none ∷ [])
      (finish_recovery (soften (ms 300) recovering))).min_packet_delta
    ≡ 15
unfolding run step start_recovery begin_recovery consume_bypass mark_progress follow_keyframe
    settle_progress move_baseline judge judge_by update_summary stability_failure rtp_delta
    stability_policy end_burst soften finish_recovery
softened_stays = refl
