-- ===== src/Session/Gate/Release.antt =====
-- What the gate of internal/session/switch_video_gate.go lets pass: stale access units never, a lease
-- at most once, and while it is active only a complete IDR of its own generation.
use webrtc_gateway.Base.{
  ℕ, arith, List, ◌≡◌, ◌<◌, true, false, ◌↔◌, ◌≤◌, ◌≢◌, length, ◌⊎◌, ◌^◌, ◌-◌, subst,
}
use webrtc_gateway.Session.Rtp.{AccessUnit}
use webrtc_gateway.Session.Gate.{
  Gate, min_packets, holds_for_renegotiation, stall_threshold, elapsed, clear_reservation,
  clear_gate, note_opened, soften_recovery,
}
use webrtc_gateway.Session.Gate.Calls.{
  evaluate, commit, abort, holds_lease, evaluate_active, evaluate_inactive, reject_reason, reserve,
}
use webrtc_gateway.Session.Gate.Events.{Event, run, IsValid}
use webrtc_gateway.Session.Gate.Safety.{run-Step, Step}
use webrtc_gateway.Session.Gate.Hold.{blocks_release, transition_active, clear_hold, stop_hold}
use webrtc_gateway.Session.Gate.Steps.{commit-IsValid}

stale-emit :
    (au : AccessUnit) (now : ℕ) (g : Gate)
    → IsValid g
    → au.generation < g.accepted
    → (evaluate au now g).1.emit ≡ false
unfolding evaluate evaluate_active evaluate_inactive reject_reason
stale-emit au now g v l = ground arith

-- Once a generation has been shown, no history makes an access unit of an older one pass. A history
-- has no reset of the media state, which forgets what was shown.
pub no_stale_emission :
    (es : List Event) (au : AccessUnit) (now : ℕ) (g : Gate)
    → IsValid g
    → au.generation < g.accepted
    → (evaluate au now (run es g)).1.emit ≡ false
unfolding Step
no_stale_emission es au now g v l =
    let (w, a) = run-Step es g v in
    let m = a.accepted_grows in
    let l' : au.generation < (run es g).accepted = omega arith in stale-emit au now (run es g) w l'

-- A lease that was given out before and is not held now can neither be committed nor aborted later.
pub spent_lease :
    (es : List Event) (generation r now : ℕ) (g : Gate)
    → IsValid g
    → r ≤ g.lease_nonce
    → g.reservation ≢ r
    → ((commit generation r now (run es g)).1 ≡ false) × ((abort generation r (run es g)).1 ≡ false)
unfolding Step commit abort holds_lease
spent_lease es generation r now g v l n =
    let (w, a) = run-Step es g v in let f = a.lease_fresh in ground arith

commit-spends :
    (generation r now : ℕ) (g : Gate)
    → IsValid g
    → (commit generation r now g).1 ≡ true
    → (r ≤ (commit generation r now g).0.lease_nonce)
      × ((commit generation r now g).0.reservation ≢ r)
unfolding commit holds_lease
commit-spends generation r now g v c = ground arith

-- A lease is committed at most once: after the commit no history lets a second one, or an abort, through.
pub lease_once :
    (es : List Event) (generation r now later : ℕ) (g : Gate)
    → IsValid g
    → (commit generation r now g).1 ≡ true
    → ((commit generation r later (run es (commit generation r now g).0)).1 ≡ false)
      × ((abort generation r (run es (commit generation r now g).0)).1 ≡ false)
lease_once es generation r now later g v c =
    let h = (commit generation r now g).0 in
    let (l, n) = commit-spends generation r now g v c in
    spent_lease es generation r later h (commit-IsValid generation r now g v) l n

-- An active gate passes an access unit exactly when no hold, renegotiation or lease is in the way, it is an IDR of
-- the gate's generation with its parameter sets ready, it has the least number of packets or the gate has stalled, and a
-- lease number is left.
pub active-emit :
    (au : AccessUnit) (now : ℕ) (g : Gate)
    → g.active ≡ true
    → ((evaluate au now g).1.emit ≡ true) ↔ (
        (blocks_release now g ≡ false)
        × (holds_for_renegotiation g ≡ false)
        × (g.releasing ≡ false)
        × (au.generation ≡ g.generation)
        × (au.is_idr ≡ true)
        × (au.parameter_sets_ready ≡ true)
        × ((min_packets g ≤ length au.packets) ⊎ (stall_threshold ≤ elapsed g.started_at now))
        × (g.lease_nonce ≢ 2 ^ 64 - 1))
unfolding evaluate evaluate_active evaluate_inactive reject_reason
active-emit au now g a = ground arith

evaluate-holds_lease :
    (au : AccessUnit) (now : ℕ) (g : Gate)
    → IsValid g
    → g.active ≡ true
    → (evaluate au now g).1.emit ≡ true
    → let (h, d) = evaluate au now g in
      (holds_lease d.generation d.reservation h ≡ true)
      × (h.accepted ≤ d.generation)
      × (d.generation ≡ au.generation)
      × (h.accepted ≡ g.accepted)
      × (h.generation ≡ g.generation)
      × (h.active ≡ true)
unfolding evaluate evaluate_active evaluate_inactive reject_reason reserve holds_lease
evaluate-holds_lease au now g v a e = ground arith

commit-opens :
    (generation r now : ℕ) (g : Gate)
    → holds_lease generation r g ≡ true
    → g.accepted ≤ generation
    → let (k, ok) = commit generation r now g in
      (ok ≡ true) × (k.active ≡ false) × (k.accepted ≡ generation) × (transition_active k ≡ false)
unfolding commit transition_active clear_hold stop_hold clear_gate clear_reservation note_opened
    soften_recovery
commit-opens generation r now g v l = ground arith

-- An access unit that an active gate passes can be committed with the generation and the lease of the decision: then the
-- gate is no longer active, that generation is accepted and the transition hold is over.
evaluate-commit :
    (au : AccessUnit) (now later : ℕ) (g : Gate)
    → IsValid g
    → g.active ≡ true
    → (evaluate au now g).1.emit ≡ true
    → let (h, d) = evaluate au now g in
      let (k, ok) = commit d.generation d.reservation later h in
      (ok ≡ true)
      × (k.active ≡ false)
      × (k.accepted ≡ au.generation)
      × (transition_active k ≡ false)
evaluate-commit au now later g v a e =
    let (h, d) = evaluate au now g in
    let (l, m, n, _, _, _) = evaluate-holds_lease au now g v a e in
    subst
      (λ (x : ℕ).
        let (k, ok) = commit d.generation d.reservation later h in
        (ok ≡ true) × (k.active ≡ false) × (k.accepted ≡ x) × (transition_active k ≡ false))
      n (commit-opens d.generation d.reservation later h l m)

-- An access unit that an active gate passes can be aborted instead: then the gate stays active for its
-- generation, accepts no more than before and takes the next complete IDR.
evaluate-abort :
    (au : AccessUnit) (now : ℕ) (g : Gate)
    → IsValid g
    → g.active ≡ true
    → (evaluate au now g).1.emit ≡ true
    → let (h, d) = evaluate au now g in
      let (k, ok) = abort d.generation d.reservation h in
      (ok ≡ true)
      × (k.active ≡ true)
      × (k.generation ≡ g.generation)
      × (k.accepted ≡ g.accepted)
      × (k.releasing ≡ false)
unfolding abort clear_reservation
evaluate-abort au now g v a e = let f = evaluate-holds_lease au now g v a e in ground arith
