-- ===== src/Session/Recovery/Progress.antt =====
-- internal/session/switch_recovery.go: what the packets of the stream do to a recovery that is running.
use webrtc_gateway.Base.{
  ℕ, Bool, Option, ltb, if◌then◌else◌, some, true, not, ◌+◌, is_zero, ◌||◌, none, ◌*◌, ◌&&◌, false,
  millisecond, ◌==◌,
}
use webrtc_gateway.Session.Disorder.{Summary, rtp_delta}
use webrtc_gateway.Session.Recovery.{
  Recovery, is_recovering, stability_failure, default_stable_window, stability_policy, Unstable,
}
use webrtc_gateway.Text.{Text, codes}
use webrtc_gateway.Session.Normalizer.{positive}
use webrtc_gateway.Session.Recovery.Burst.{end_burst}

-- ConsumeSwitchPLIBypass
unfoldable pub consume_bypass : ℕ → Recovery → Recovery × Bool
consume_bypass now r =
    if not (is_recovering now r) || not r.one_shot_pli
    then (r, false)
    else (record r { one_shot_pli = false }, true)

-- resetSwitchRTPStableBaselineLocked
abbrev pub reset_baseline : ℕ → Recovery → Recovery
reset_baseline now r = record r { baseline = r.summary; baseline_at = some now }

abbrev pub note_keyframe : ℕ → Recovery → Recovery
note_keyframe now r =
    reset_baseline now (record r { first_keyframe_at = some now; feedback_satisfied = true })

-- MarkSwitchVideoKeyframe
unfoldable pub mark_keyframe : ℕ → Recovery → Recovery
mark_keyframe now r =
    if not (is_recovering now r)
    then r
    else if is_zero r.first_keyframe_at
    then note_keyframe now r
    else r

-- UpdateSwitchVideoRecoverySummary
unfoldable pub update_summary : ℕ → Summary → Recovery → Recovery
update_summary now s r = if is_recovering now r then record r { summary = s } else r

-- `now.Sub(t) < window`
abbrev pub is_young : ℕ → ℕ → ℕ → Bool
is_young now window t = ltb now (t + window)

-- logSwitchRTPUnstableLocked, which logs at most twice a second.
abbrev pub log_unstable : ℕ → Recovery → Recovery
log_unstable now r = record r {
  last_unstable_log = elim r.last_unstable_log [
    | none ↦ some now
    | some t ↦ if is_young now (500 * millisecond) t then some t else some now
  ];
}

-- The end of MarkSwitchVideoProgress, when the newest stable window is over: it ends the recovery, or counts an
-- unstable window and starts the next.
unfoldable pub judge_by : ℕ → Option Unstable → Recovery → Recovery × Option Text
judge_by now none r = end_burst (codes "stable-rtp") r
judge_by now (some reason) r = (
  reset_baseline now (log_unstable now (record r { unstable_count = r.unstable_count + 1 })),
  none,
)

unfoldable pub judge : ℕ → Recovery → Recovery × Option Text
judge now r =
    judge_by now (stability_failure (rtp_delta r.summary r.baseline) (stability_policy r)) r

-- A baseline without packets moves on to the first packets that are counted soon after the keyframe.
unfoldable pub move_baseline : (now stable keyframe : ℕ) → Recovery → Recovery
move_baseline now stable keyframe r =
    if not (is_zero r.baseline_at)
      && (r.baseline.packets == 0)
      && ltb 0 r.summary.packets
      && is_young now stable keyframe
    then reset_baseline now r
    else r

-- The rest of MarkSwitchVideoProgress, when the first keyframe is known.
unfoldable pub settle_progress : (now stable keyframe : ℕ) → Recovery → Recovery × Option Text
settle_progress now stable keyframe r =
    if is_young now stable keyframe
    then (r, none)
    else if not r.stability_enabled
    then end_burst (codes "stable-media") r
    else elim r.baseline_at [
      | none ↦ (reset_baseline now r, none)
      | some b ↦ if is_young now stable b then (r, none) else judge now r
    ]

unfoldable pub follow_keyframe : ℕ → Recovery → Recovery × Option Text
follow_keyframe now r =
    let stable = positive r.stable_window default_stable_window in
    elim r.first_keyframe_at [
      | none ↦ (r, none)
      | some k ↦ settle_progress now stable k (move_baseline now stable k r)
    ]

-- MarkSwitchVideoProgress: the reason that it reports, if it ends the recovery.
unfoldable pub mark_progress : ℕ → Bool → Recovery → Recovery × Option Text
mark_progress now is_keyframe r =
    if not (is_recovering now r)
    then (r, none)
    else follow_keyframe now
        (if is_keyframe && is_zero r.first_keyframe_at then note_keyframe now r else r)
