-- ===== src/Session/Recovery/Ending.antt =====
-- When a packet of the stream ends the recovery of a switch (internal/session/switch_recovery.go).
use webrtc_gateway.Session.Recovery.{
  Recovery, stability_failure, StabilityPolicy, is_started, is_recovering, default_stable_window,
  stability_policy, Unstable,
}
use webrtc_gateway.Session.Recovery.Progress.{
  judge, judge_by, settle_progress, follow_keyframe, mark_progress, move_baseline, note_keyframe,
  is_young,
}
use webrtc_gateway.Session.Recovery.Burst.{end_burst}
use webrtc_gateway.Session.Disorder.{Delta, rtp_delta}
use webrtc_gateway.Base.{
  ℕ, ◌<◌, Option, Bool, ◌≤◌, arith, ◌≡◌, false, true, none, some, leb, ◌+◌, ◌&&◌, refl, not, ◌||◌,
  Bool-cases, is_zero, Option-cases, inl, inr, ap, ◌∙◌, ◌⊎◌,
}
use webrtc_gateway.Text.{Text, codes}
use webrtc_gateway.Session.Normalizer.{positive}

-- No counter of the newest window is beyond its limit.
pub record InLimits (d : Delta) (p : StabilityPolicy) : Type 0 where
  pub enough_packets : p.min_packets ≤ d.delta_packets
  pub few_gaps : d.delta_gaps ≤ p.max_gaps
  pub few_missing : d.delta_missing ≤ p.max_missing
  pub few_out_of_order : d.delta_out_of_order ≤ p.max_out_of_order
  pub few_drops : d.delta_dropped ≤ p.max_drops
  pub few_timeouts : d.delta_timed_out ≤ p.max_timeouts

pub limits_of :
    (d : Delta) (p : StabilityPolicy)
    → stability_failure d p ≡ none
    → (p.min_packets ≤ d.delta_packets)
      × (d.delta_gaps ≤ p.max_gaps)
      × (d.delta_missing ≤ p.max_missing)
      × (d.delta_out_of_order ≤ p.max_out_of_order)
      × (d.delta_dropped ≤ p.max_drops)
      × (d.delta_timed_out ≤ p.max_timeouts)
unfolding stability_failure
limits_of d p h = ground arith

pub no_failure : (d : Delta) (p : StabilityPolicy) → InLimits d p → stability_failure d p ≡ none
unfolding stability_failure
no_failure d p h =
    let a = h.enough_packets in
    let b = h.few_gaps in
    let c = h.few_missing in
    let e = h.few_out_of_order in let f = h.few_drops in let g = h.few_timeouts in ground arith

abbrev pub stable_window_of : Recovery → ℕ
stable_window_of r = positive r.stable_window default_stable_window

-- Whether an instant is known and at least this old.
abbrev pub is_aged : ℕ → ℕ → Option ℕ → Bool
is_aged now window none = false
is_aged now window (some t) = leb (t + window) now

-- What a packet that ends the recovery finds: it runs, its first keyframe is a stable window old, and, where the
-- stability is observed, so is the start of the newest window, whose counters are in their limits.
pub record IsStable (now : ℕ) (r : Recovery) : Type 0 where
  pub running : is_recovering now r ≡ true
  pub old_keyframe : is_aged now (stable_window_of r) r.first_keyframe_at ≡ true
  pub observed :
      (r.stability_enabled ≡ false)
      ⊎ ((is_aged now (stable_window_of r) r.baseline_at ≡ true)
          × InLimits (rtp_delta r.summary r.baseline) (stability_policy r))

-- Whether the operation ended the recovery.
abbrev pub has_ended : Recovery × Option Text → Bool
has_ended x = elim x.1 [ none ↦ false | some _ ↦ true ]

ends-started :
    (reason : Text) (r : Recovery) → is_started r ≡ true → has_ended (end_burst reason r) ≡ true
unfolding end_burst
ends-started reason r h = ground arith

positive-stable : (r : Recovery) → 0 < stable_window_of r
positive-stable r = ground arith

abbrev pub passes : Option Unstable → Bool
passes none = true
passes (some _) = false

abbrev pub failure_of : Recovery → Option Unstable
failure_of r = stability_failure (rtp_delta r.summary r.baseline) (stability_policy r)

judge_by_ends :
    (now : ℕ) (x : Option Unstable) (r : Recovery)
    → is_started r ≡ true
    → has_ended (judge_by now x r) ≡ passes x
unfolding judge_by
judge_by_ends now none r s = ends-started (codes "stable-rtp") r s
judge_by_ends now (some _) r s = refl

judge_ends :
    (now : ℕ) (r : Recovery) → is_started r ≡ true → has_ended (judge now r) ≡ passes (failure_of r)
unfolding judge
judge_ends now r s = judge_by_ends now (failure_of r) r s

settle_progress_ends :
    (now stable keyframe : ℕ) (r : Recovery)
    → is_started r ≡ true
    → has_ended (settle_progress now stable keyframe r) ≡ (
        leb (keyframe + stable) now
        && (not r.stability_enabled || (is_aged now stable r.baseline_at && passes (failure_of r))))
unfolding settle_progress
settle_progress_ends now stable keyframe r s =
    let a = judge_ends now r s in let b = ends-started (codes "stable-media") r s in ground arith

unmoved :
    (now stable keyframe : ℕ) (r : Recovery)
    → is_young now stable keyframe ≡ false
    → move_baseline now stable keyframe r ≡ r
unfolding move_baseline
unmoved now stable keyframe r y = ground arith

young_stays :
    (now stable keyframe : ℕ) (r : Recovery)
    → is_young now stable keyframe ≡ true
    → has_ended (settle_progress now stable keyframe r) ≡ false
unfolding settle_progress
young_stays now stable keyframe r y = ground arith

-- A window that is moved on belongs to a keyframe that is too young to end the recovery.
moved_ends :
    (now stable keyframe : ℕ) (r : Recovery)
    → is_started r ≡ true
    → has_ended (settle_progress now stable keyframe (move_baseline now stable keyframe r)) ≡ (
        leb (keyframe + stable) now
        && (not r.stability_enabled || (is_aged now stable r.baseline_at && passes (failure_of r))))
moved_ends now stable keyframe r s = elim (Bool-cases (is_young now stable keyframe)) [
  | inl y ↦
      (let t = young_stays now stable keyframe (move_baseline now stable keyframe r) y in
        ground arith)
  | inr n ↦
      ap (λ x. has_ended (settle_progress now stable keyframe x)) (unmoved now stable keyframe r n)
      ∙ settle_progress_ends now stable keyframe r s
]

unfoldable pub would_end : ℕ → Recovery → Bool
would_end now r =
    is_aged now (stable_window_of r) r.first_keyframe_at
    && (not r.stability_enabled
        || (is_aged now (stable_window_of r) r.baseline_at && passes (failure_of r)))

follow_keyframe_ends :
    (now : ℕ) (r : Recovery)
    → is_started r ≡ true
    → has_ended (follow_keyframe now r) ≡ would_end now r
unfolding follow_keyframe would_end
follow_keyframe_ends now r s = elim (Option-cases r.first_keyframe_at) [
  | inl h ↦ ground arith
  | inr (k, h) ↦ (let t = moved_ends now (stable_window_of r) k r s in ground arith)
]

keyframe_now : (now : ℕ) (r : Recovery) → would_end now (note_keyframe now r) ≡ false
unfolding would_end
keyframe_now now r = ground arith

no_keyframe :
    (now : ℕ) (r : Recovery) → is_zero r.first_keyframe_at ≡ true → would_end now r ≡ false
unfolding would_end
no_keyframe now r h = ground arith

pub mark_progress_ends :
    (now : ℕ) (is_keyframe : Bool) (r : Recovery)
    → has_ended (mark_progress now is_keyframe r) ≡ (is_recovering now r && would_end now r)
unfolding mark_progress
mark_progress_ends now is_keyframe r =
    let f = follow_keyframe_ends now r in
    let g = follow_keyframe_ends now (note_keyframe now r) in
    let a = keyframe_now now r in let b = no_keyframe now r in ground arith
