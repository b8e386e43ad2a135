-- ===== src/Session/Recovery/Stable.antt =====
-- When internal/session/switch_recovery.go takes a stream for stable, and ends the recovery.
use webrtc_gateway.Session.Recovery.{
  Recovery, stability_failure, StabilityPolicy, is_started, is_recovering, stability_policy,
  Unstable, finish_recovery,
}
use webrtc_gateway.Session.Recovery.Progress.{
  judge, judge_by, settle_progress, follow_keyframe, mark_progress, move_baseline, note_keyframe,
}
use webrtc_gateway.Session.Recovery.Burst.{end_burst, is_bursting}
use webrtc_gateway.Session.Disorder.{Delta, rtp_delta}
use webrtc_gateway.Base.{
  ℕ, Option, Bool, arith, ◌≡◌, true, none, some, ◌&&◌, refl, not, ◌||◌, ◌↔◌, Bool-cases,
  Option-cases, inl, inr, ap, ◌∙◌, sym,
}
use webrtc_gateway.Text.{Text, codes}
use webrtc_gateway.Session.Recovery.Ending.{
  InLimits, IsStable, failure_of, has_ended, limits_of, mark_progress_ends, no_failure, passes,
  stable_window_of, would_end,
}

passes_none : (x : Option Unstable) → passes x ≡ true → x ≡ none
passes_none none h = refl
passes_none (some _) h = absurd (ground arith)

InLimits-of :
    (d : Delta) (p : StabilityPolicy) → passes (stability_failure d p) ≡ true → InLimits d p
InLimits-of d p h =
    let (a, b, c, e, f, g) = limits_of d p (passes_none (stability_failure d p) h) in
    record {
      enough_packets = a;
      few_gaps = b;
      few_missing = c;
      few_out_of_order = e;
      few_drops = f;
      few_timeouts = g;
    }

IsStable-of :
    (now : ℕ) (r : Recovery) → (is_recovering now r && would_end now r) ≡ true → IsStable now r
unfolding would_end
IsStable-of now r h = record {
  running = ground arith;
  old_keyframe = ground arith;
  observed = elim (Bool-cases r.stability_enabled) [
    | inl e ↦ inr (
      ground arith,
      InLimits-of (rtp_delta r.summary r.baseline) (stability_policy r) (ground arith),
    )
    | inr n ↦ inl n
  ];
}

of-IsStable :
    (now : ℕ) (r : Recovery) → IsStable now r → (is_recovering now r && would_end now r) ≡ true
unfolding would_end
of-IsStable now r h =
    let a = h.running in
    let b = h.old_keyframe in
    elim h.observed [
      | inl n ↦ ground arith
      | inr (c, l) ↦
          (let d = ap passes (no_failure (rtp_delta r.summary r.baseline) (stability_policy r) l) in
            ground arith)
    ]

-- Nothing is left of the recovery and its burst window.
abbrev pub is_cleared : Recovery → Bool
is_cleared r = not (is_started r) && not (is_bursting r) && not r.one_shot_pli

-- An operation that ends a recovery clears it.
abbrev pub Clears : Recovery × Option Text → Type 0
Clears x = (not (has_ended x) || is_cleared x.0) ≡ true

end_burst-Clears :
    (reason : Text) (r : Recovery) → is_started r ≡ true → Clears (end_burst reason r)
unfolding end_burst finish_recovery
end_burst-Clears reason r s = ground arith

judge_by-Clears :
    (now : ℕ) (x : Option Unstable) (r : Recovery) → is_started r ≡ true → Clears (judge_by now x r)
unfolding judge_by
judge_by-Clears now none r s = end_burst-Clears (codes "stable-rtp") r s
judge_by-Clears now (some _) r s = ground arith

settle_progress-Clears :
    (now stable keyframe : ℕ) (r : Recovery)
    → is_started r ≡ true
    → Clears (settle_progress now stable keyframe r)
unfolding settle_progress judge
settle_progress-Clears now stable keyframe r s =
    let a = judge_by-Clears now (failure_of r) r s in
    let b = end_burst-Clears (codes "stable-media") r s in ground arith

move_baseline-started :
    (now stable keyframe : ℕ) (r : Recovery)
    → is_started r ≡ true
    → is_started (move_baseline now stable keyframe r) ≡ true
unfolding move_baseline
move_baseline-started now stable keyframe r s = ground arith

follow_keyframe-Clears :
    (now : ℕ) (r : Recovery) → is_started r ≡ true → Clears (follow_keyframe now r)
unfolding follow_keyframe
follow_keyframe-Clears now r s = elim (Option-cases r.first_keyframe_at) [
  | inl n ↦ ground arith
  | inr (k, e) ↦
      (let w = stable_window_of r in
        let t =
          settle_progress-Clears now w k (move_baseline now w k r)
            (move_baseline-started now w k r s) in
        ground arith)
]

mark_progress-Clears :
    (now : ℕ) (is_keyframe : Bool) (r : Recovery) → Clears (mark_progress now is_keyframe r)
unfolding mark_progress
mark_progress-Clears now is_keyframe r =
    let a = follow_keyframe-Clears now r in
    let b = follow_keyframe-Clears now (note_keyframe now r) in ground arith

-- MarkSwitchVideoProgress, at a packet of the stream, ends the recovery exactly where it runs, the first keyframe
-- is at least the stable window old, and, with the stability observed, the newest window is at least that long
-- and has enough packets and no counter over its limit; then recovery and burst window are cleared.
pub progress_ends_iff :
    (now : ℕ) (is_keyframe : Bool) (r : Recovery)
    → ((has_ended (mark_progress now is_keyframe r) ≡ true) ↔ IsStable now r)
      × Clears (mark_progress now is_keyframe r)
progress_ends_iff now is_keyframe r =
    let e = mark_progress_ends now is_keyframe r in
    (
      (λ h. IsStable-of now r (sym e ∙ h), λ h. e ∙ of-IsStable now r h),
      mark_progress-Clears now is_keyframe r,
    )
