-- ===== src/Session/Recovery/Bypass.antt =====
-- The promises of a recovery over its histories (switch_recovery.go, video_recovery.go of internal/session).
use webrtc_gateway.Session.Recovery.Progress.{
  mark_progress, move_baseline, follow_keyframe, judge_by, settle_progress, judge, note_keyframe,
  consume_bypass, mark_keyframe, update_summary,
}
use webrtc_gateway.Session.Recovery.Events.{
  step, run, Event, once, hands_out, is_start, reset_recovery, starts, progresses, asks,
  stops_burst, bursts, softens, consumes, keyframe_at, updates, stops_recovery, resets,
}
use webrtc_gateway.Session.Recovery.Burst.{
  end_burst, recovery_policy, lowered, Limits, start_burst, stop_burst,
}
use webrtc_gateway.Base.{
  ℕ, not, Option, List, ◌≡◌, Bool, ◌||◌, arith, false, true, ◌+◌, Option-cases, ◌≤◌, ◌&&◌, inl,
  some, inr, is_before, none, ◌⊎◌,
}
use webrtc_gateway.Session.Recovery.{
  finish_recovery, start_recovery, Recovery, begin_recovery, is_started, Unstable, soften,
  stop_recovery,
}
use webrtc_gateway.Text.{Text, codes}
use webrtc_gateway.Session.Recovery.Bounded.{IsValid, run-IsValid}
use webrtc_gateway.Session.Recovery.Ending.{failure_of, stable_window_of}

-- The bypass that is left is never more than the starts gave.
abbrev pub Paid : Event → Recovery → Type 0
Paid e r =
    once (hands_out e r) + once (step e r).one_shot_pli ≤ once (is_start e r) + once r.one_shot_pli

end_burst-bypass :
    (reason : Text) (r : Recovery)
    → (not (end_burst reason r).0.one_shot_pli || r.one_shot_pli) ≡ true
unfolding end_burst finish_recovery
end_burst-bypass reason r = ground arith

judge_by-bypass :
    (now : ℕ) (x : Option Unstable) (r : Recovery)
    → (not (judge_by now x r).0.one_shot_pli || r.one_shot_pli) ≡ true
unfolding judge_by
judge_by-bypass now none r = end_burst-bypass (codes "stable-rtp") r
judge_by-bypass now (some _) r = ground arith

settle_progress-bypass :
    (now stable keyframe : ℕ) (r : Recovery)
    → (not (settle_progress now stable keyframe r).0.one_shot_pli || r.one_shot_pli) ≡ true
unfolding settle_progress judge
settle_progress-bypass now stable keyframe r =
    let a = judge_by-bypass now (failure_of r) r in
    let b = end_burst-bypass (codes "stable-media") r in ground arith

move_baseline-bypass :
    (now stable keyframe : ℕ) (r : Recovery)
    → (move_baseline now stable keyframe r).one_shot_pli ≡ r.one_shot_pli
unfolding move_baseline
move_baseline-bypass now stable keyframe r = ground arith

follow_keyframe-bypass :
    (now : ℕ) (r : Recovery) → (not (follow_keyframe now r).0.one_shot_pli || r.one_shot_pli) ≡ true
unfolding follow_keyframe
follow_keyframe-bypass now r = elim (Option-cases r.first_keyframe_at) [
  | inl n ↦ ground arith
  | inr (k, e) ↦
      (let w = stable_window_of r in
        let t = settle_progress-bypass now w k (move_baseline now w k r) in
        let m = move_baseline-bypass now w k r in ground arith)
]

mark_progress-bypass :
    (now : ℕ) (is_keyframe : Bool) (r : Recovery)
    → (not (mark_progress now is_keyframe r).0.one_shot_pli || r.one_shot_pli) ≡ true
unfolding mark_progress
mark_progress-bypass now is_keyframe r =
    let a = follow_keyframe-bypass now r in
    let b = follow_keyframe-bypass now (note_keyframe now r) in ground arith

pub step-Paid : (e : Event) (r : Recovery) → Paid e r
unfolding step start_recovery begin_recovery start_burst soften consume_bypass mark_keyframe
    update_summary recovery_policy stop_burst stop_recovery finish_recovery reset_recovery
step-Paid (starts now w s none) r = ground arith
step-Paid (starts now w s (some (g, e))) r = ground arith
step-Paid (progresses now k) r = let a = mark_progress-bypass now k r in ground arith
step-Paid (asks now l) r = let a = end_burst-bypass (codes "timeout") r in ground arith
step-Paid (stops_burst reason) r = let a = end_burst-bypass reason r in ground arith
step-Paid (bursts now reason) r = ground arith
step-Paid (softens now) r = ground arith
step-Paid (consumes now) r = ground arith
step-Paid (keyframe_at now) r = ground arith
step-Paid (updates now s) r = ground arith
step-Paid stops_recovery r = ground arith
step-Paid resets r = ground arith

end_burst_ends : (reason : Text) (r : Recovery) → is_started (end_burst reason r).0 ≡ false
unfolding end_burst finish_recovery
end_burst_ends reason r = ground arith

-- From a valid state and after any history, the question for the limits of the watchdog closes a recovery whose burst
-- window is over: what is left runs inside of an open window. Where the usual age for a PLI is at most that for a
-- FIR, the limits that come back are at most the usual ones, keep that order, and are the usual ones outside of a window.
pub policy_bounds :
    (es : List Event) (now : ℕ) (l : Limits) (r : Recovery)
    → IsValid r
    → l.stale ≤ l.fir_stale
    → let h = run es r in
      let (after, limits, bursting) = recovery_policy now l h in
      (bursting ≡ (h.burst_enabled && is_before now h.burst_until))
      × (is_started after ≡ (is_started h && bursting))
      × (limits.interval ≤ l.interval)
      × (limits.stale ≤ l.stale)
      × (limits.fir_stale ≤ l.fir_stale)
      × (limits.stale ≤ limits.fir_stale)
      × ((bursting ≡ true) ⊎ (limits ≡ l))
unfolding recovery_policy lowered
policy_bounds es now l r v o =
    let h = run es r in
    let w = run-IsValid es r v in
    let e = end_burst_ends (codes "timeout") h in let x = w.window_open in ground arith
