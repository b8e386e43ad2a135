-- ===== src/Session/Recovery/Bounded.antt =====
-- What holds in every history of a recovery (switch_recovery.go, video_recovery.go of internal/session): it is
-- bounded by its burst window, and hands out one bypass at most.
use webrtc_gateway.Session.Recovery.{
  start_recovery, Recovery, begin_recovery, is_started, soften, stop_recovery, finish_recovery,
  Unstable,
}
use webrtc_gateway.Base.{
  is_zero, ℕ, ◌≡◌, ◌||◌, Option, some, true, not, ◌&&◌, none, arith, false, List, Option-cases,
  Bool, inl, ◌∷◌, inr, [], ap,
}
use webrtc_gateway.Session.Recovery.Events.{
  run, reset_recovery, step, Event, starts, bursts, softens, consumes, keyframe_at, progresses,
  updates, asks, stops_burst, stops_recovery, resets,
}
use webrtc_gateway.Session.Recovery.Progress.{
  judge_by, consume_bypass, mark_keyframe, follow_keyframe, update_summary, mark_progress,
  settle_progress, move_baseline, judge, note_keyframe,
}
use webrtc_gateway.Session.Recovery.Burst.{
  stop_burst, recovery_policy, start_burst, end_burst, Limits,
}
use webrtc_gateway.Session.Disorder.{Summary}
use webrtc_gateway.Text.{Text, codes}
use webrtc_gateway.Session.Recovery.Ending.{failure_of, stable_window_of}

-- A recovery that runs has a burst window, and one that does not run has no bypass and no keyframe; a stable window is
-- measured from the first keyframe on.
pub record IsValid (r : Recovery) : Type 0 where
  pub both_ends : is_zero r.started_at ≡ is_zero r.recovery_until
  pub measured : is_zero r.baseline_at ≡ is_zero r.first_keyframe_at
  pub keyframe_inside : (is_zero r.first_keyframe_at || is_started r) ≡ true
  pub bypass_inside : (not r.one_shot_pli || is_started r) ≡ true
  pub window_open : (not (is_started r) || (r.burst_enabled && not (is_zero r.burst_until))) ≡ true

start_recovery-IsValid :
    (now max_window stable : ℕ) (a : Option (ℕ × ℕ)) (r : Recovery)
    → IsValid r
    → IsValid (start_recovery now max_window stable a r).0
unfolding start_recovery begin_recovery
start_recovery-IsValid now max_window stable none r v = ground arith
start_recovery-IsValid now max_window stable (some (g, e)) r v = ground arith

start_burst-IsValid :
    (now : ℕ) (reason : Text) (r : Recovery) → IsValid r → IsValid (start_burst now reason r)
unfolding start_burst
start_burst-IsValid now reason r v = ground arith

soften-IsValid : (now : ℕ) (r : Recovery) → IsValid r → IsValid (soften now r)
unfolding soften
soften-IsValid now r v = ground arith

consume_bypass-IsValid : (now : ℕ) (r : Recovery) → IsValid r → IsValid ((consume_bypass now r).0)
unfolding consume_bypass
consume_bypass-IsValid now r v = ground arith

mark_keyframe-IsValid : (now : ℕ) (r : Recovery) → IsValid r → IsValid (mark_keyframe now r)
unfolding mark_keyframe
mark_keyframe-IsValid now r v = ground arith

update_summary-IsValid :
    (now : ℕ) (s : Summary) (r : Recovery) → IsValid r → IsValid (update_summary now s r)
unfolding update_summary
update_summary-IsValid now s r v = ground arith

finish_recovery-IsValid : (r : Recovery) → IsValid r → IsValid (finish_recovery r)
unfolding finish_recovery
finish_recovery-IsValid r v = ground arith

reset_recovery-IsValid : (r : Recovery) → IsValid r → IsValid (reset_recovery r)
unfolding reset_recovery
reset_recovery-IsValid r v = ground arith

stop_recovery-IsValid : (r : Recovery) → IsValid r → IsValid (stop_recovery r)
unfolding stop_recovery
stop_recovery-IsValid r v = let t = finish_recovery-IsValid r v in ground arith

end_burst-IsValid : (reason : Text) (r : Recovery) → IsValid r → IsValid ((end_burst reason r).0)
unfolding end_burst finish_recovery
end_burst-IsValid reason r v = ground arith

stop_burst-IsValid : (reason : Text) (r : Recovery) → IsValid r → IsValid (stop_burst reason r).0
unfolding stop_burst
stop_burst-IsValid reason r v = let t = end_burst-IsValid reason r v in ground arith

recovery_policy-IsValid :
    (now : ℕ) (l : Limits) (r : Recovery) → IsValid r → IsValid (recovery_policy now l r).0
unfolding recovery_policy
recovery_policy-IsValid now l r v = let t = end_burst-IsValid (codes "timeout") r v in ground arith

judge_by-IsValid :
    (now : ℕ) (x : Option Unstable) (r : Recovery)
    → is_started r ≡ true
    → is_zero r.first_keyframe_at ≡ false
    → IsValid r
    → IsValid (judge_by now x r).0
unfolding judge_by
judge_by-IsValid now none r s k v = end_burst-IsValid (codes "stable-rtp") r v
judge_by-IsValid now (some _) r s k v = ground arith

module _ (now stable keyframe : ℕ) (r : Recovery) (s : is_started r ≡ true)
    (k : is_zero r.first_keyframe_at ≡ false) (v : IsValid r) where
  settle_progress-IsValid : IsValid (settle_progress now stable keyframe r).0
  unfolding settle_progress judge
  settle_progress-IsValid =
      let a = judge_by-IsValid now (failure_of r) r s k v in
      let b = end_burst-IsValid (codes "stable-media") r v in ground arith

  move_baseline-IsValid : IsValid (move_baseline now stable keyframe r)
  unfolding move_baseline
  move_baseline-IsValid = ground arith

  move_baseline-kept :
      (is_started (move_baseline now stable keyframe r) ≡ true)
      × (is_zero (move_baseline now stable keyframe r).first_keyframe_at ≡ false)
  unfolding move_baseline
  move_baseline-kept = ground arith

follow_keyframe-IsValid :
    (now : ℕ) (r : Recovery) → is_started r ≡ true → IsValid r → IsValid (follow_keyframe now r).0
unfolding follow_keyframe
follow_keyframe-IsValid now r s v = elim (Option-cases r.first_keyframe_at) [
  | inl n ↦ ground arith
  | inr (k, e) ↦
      (let w = stable_window_of r in
        let z = ap is_zero e in
        let (c, d) = move_baseline-kept now w k r s z v in
        let t =
          settle_progress-IsValid now w k (move_baseline now w k r) c d
            (move_baseline-IsValid now w k r s z v) in
        ground arith)
]

mark_progress-IsValid :
    (now : ℕ) (is_keyframe : Bool) (r : Recovery)
    → IsValid r
    → IsValid (mark_progress now is_keyframe r).0
unfolding mark_progress
mark_progress-IsValid now is_keyframe r v =
    let a = follow_keyframe-IsValid now r in
    let b = follow_keyframe-IsValid now (note_keyframe now r) in ground arith

step-IsValid : (e : Event) (r : Recovery) → IsValid r → IsValid (step e r)
unfolding step
step-IsValid (starts now w s a) r v = start_recovery-IsValid now w s a r v
step-IsValid (bursts now reason) r v = start_burst-IsValid now reason r v
step-IsValid (softens now) r v = soften-IsValid now r v
step-IsValid (consumes now) r v = consume_bypass-IsValid now r v
step-IsValid (keyframe_at now) r v = mark_keyframe-IsValid now r v
step-IsValid (progresses now k) r v = mark_progress-IsValid now k r v
step-IsValid (updates now s) r v = update_summary-IsValid now s r v
step-IsValid (asks now l) r v = recovery_policy-IsValid now l r v
step-IsValid (stops_burst reason) r v = stop_burst-IsValid reason r v
step-IsValid stops_recovery r v = stop_recovery-IsValid r v
step-IsValid resets r v = reset_recovery-IsValid r v

pub run-IsValid : (es : List Event) (r : Recovery) → IsValid r → IsValid (run es r)
unfolding run
run-IsValid [] r v = v
run-IsValid (e ∷ es) r v = run-IsValid es (step e r) (step-IsValid e r v)
