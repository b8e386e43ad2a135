-- ===== src/Session/Gate/Limits.antt =====
-- How long video is held after an @switch (internal/session/switch_video_gate.go and switch_blackout.go),
-- and when a message of it counts (internal/session/switch_target.go).
use webrtc_gateway.Base.{
  ℕ, arith, Bool, is_before, ◌≡◌, false, true, ◌↔◌, ◌≤◌, ◌⊎◌, ◌≢◌, none, ◌<◌, subst, sym, inl, inr,
}
use webrtc_gateway.Session.Gate.Calls.{evaluate, evaluate_inactive}
use webrtc_gateway.Session.Gate.Watch.{maybe_fail_open, opening, cap_limit, same_limit}
use webrtc_gateway.Session.Gate.Hold.{
  should_hold, transition_active, clear_hold, stop_hold, normalize_mode,
}
use webrtc_gateway.Session.Gate.{
  clear_gate, Gate, clear_reservation, elapsed, opened_matches, current_source, blackout,
}
use webrtc_gateway.Session.Rtp.{AccessUnit}
use webrtc_gateway.Session.Gate.Events.{IsValid}

opening-cases :
    (healthy : Bool) (now : ℕ) (g : Gate)
    → ((opening healthy now g ≢ none)
        → (cap_limit g ≤ elapsed g.started_at now)
          ⊎ ((opened_matches g.remote_ssrc (current_source g) g ≡ true)
              × (healthy ≡ true)
              × (same_limit g ≤ elapsed g.started_at now)))
      × (opening healthy now g ≡ none
          → (elapsed g.started_at now < cap_limit g)
            × ((opened_matches g.remote_ssrc (current_source g) g ≡ false)
                ⊎ (healthy ≡ false)
                ⊎ (elapsed g.started_at now < same_limit g)))
unfolding opening
opening-cases healthy now g = ground arith

maybe-cases :
    (healthy : Bool) (now : ℕ) (g : Gate)
    → g.active ≡ true
    → ((opening healthy now g ≢ none) × ((maybe_fail_open healthy now g).0.active ≡ false))
      ⊎ ((opening healthy now g ≡ none) × ((maybe_fail_open healthy now g).0.active ≡ true))
unfolding maybe_fail_open clear_gate clear_reservation stop_hold clear_hold
maybe-cases healthy now g a = ground arith

-- The gate has held for the cap, or for the limit of the same stream while that is the one last shown and healthy.
abbrev pub Reached : Bool → ℕ → Gate → Type 0
Reached healthy now g =
    (cap_limit g ≤ elapsed g.started_at now)
    ⊎ ((opened_matches g.remote_ssrc (current_source g) g ≡ true)
        × (healthy ≡ true)
        × (same_limit g ≤ elapsed g.started_at now))

-- An open gate has accepted this generation and has no lease or hold, and it passes this access unit.
abbrev pub IsOpenTo : AccessUnit → ℕ → ℕ → Gate → Type 0
IsOpenTo au later generation h =
    (h.active ≡ false)
    × (h.accepted ≡ generation)
    × (h.releasing ≡ false)
    × (h.reservation ≡ 0)
    × (transition_active h ≡ false)
    × ((evaluate au later h).1.emit ≡ true)

opened_state :
    (healthy : Bool) (now : ℕ) (g : Gate)
    → IsValid g
    → g.active ≡ true
    → opening healthy now g ≢ none
    → let h = (maybe_fail_open healthy now g).0 in
      (h.active ≡ false)
      × (h.accepted ≡ g.generation)
      × (h.releasing ≡ false)
      × (h.reservation ≡ 0)
      × (transition_active h ≡ false)
unfolding maybe_fail_open clear_gate clear_reservation stop_hold clear_hold transition_active
opened_state healthy now g v a o = ground arith

passes_inactive :
    (au : AccessUnit) (now : ℕ) (g : Gate)
    → g.active ≡ false
    → g.accepted ≤ au.generation
    → (evaluate au now g).1.emit ≡ true
unfolding evaluate evaluate_inactive
passes_inactive au now g a l = ground arith

opened-IsOpenTo :
    (healthy : Bool) (au : AccessUnit) (now later : ℕ) (g : Gate)
    → IsValid g
    → g.active ≡ true
    → g.generation ≤ au.generation
    → opening healthy now g ≢ none
    → IsOpenTo au later g.generation (maybe_fail_open healthy now g).0
opened-IsOpenTo healthy au now later g v a l o =
    let h = (maybe_fail_open healthy now g).0 in
    let (p, q, r, n, t) = opened_state healthy now g v a o in
    (p, q, r, n, t, passes_inactive au later h p (subst (λ x. x ≤ au.generation) (sym q) l))

stays_closed :
    (healthy : Bool) (now : ℕ) (g : Gate)
    → opening healthy now g ≡ none
    → maybe_fail_open healthy now g ≡ (g, none)
unfolding maybe_fail_open
stays_closed healthy now g n = ground arith

-- The cap is never below the limit for the same stream. An active gate fails open exactly when the time it has held
-- reaches the cap, or reaches the limit for the same stream while that stream is the one last shown and healthy: then
-- its generation is accepted, no lease is left, the transition hold is over and any access unit that is not of an
-- earlier generation passes from then on, keyframe or not. Otherwise the gate stays as it is.
pub fails_open_iff :
    (healthy : Bool) (au : AccessUnit) (now later : ℕ) (g : Gate)
    → IsValid g
    → g.active ≡ true
    → g.generation ≤ au.generation
    → (same_limit g ≤ cap_limit g)
      × (((maybe_fail_open healthy now g).0.active ≡ false) ↔ Reached healthy now g)
      × (IsOpenTo au later g.generation (maybe_fail_open healthy now g).0
          ⊎ (maybe_fail_open healthy now g ≡ (g, none)))
fails_open_iff healthy au now later g v a l =
    let o = opening-cases healthy now g in
    let c = maybe-cases healthy now g a in
    (
      ground arith,
      ground arith,
      elim c [
        | inl (opens, _) ↦ inl (opened-IsOpenTo healthy au now later g v a l opens)
        | inr (waits, _) ↦ inr (stays_closed healthy now g waits)
      ],
    )

-- From the time at which the longest wait ends, the transition hold drops no packet and is over once one is offered; in
-- preserve mode a keyframe ends it at any time.
hold_ends :
    (now : ℕ) (is_keyframe : Bool) (g : Gate)
    → (is_before now g.hold_max_wait ≡ false)
    → (is_before now g.hold_until ≡ false)
    → ((should_hold now is_keyframe g).1 ≡ false)
      × (transition_active (should_hold now is_keyframe g).0 ≡ false)
unfolding should_hold transition_active clear_hold
hold_ends now is_keyframe g a b = ground arith

-- Before the longest wait ends the blackout drops every packet, and every packet but a keyframe is dropped in any
-- mode; the hold goes on as it was.
hold_drops :
    (now : ℕ) (is_keyframe : Bool) (g : Gate)
    → is_before now g.hold_max_wait ≡ true
    → (is_before now g.hold_until ≡ true × normalize_mode g.mode ≡ blackout) ⊎ (is_keyframe ≡ false)
    → ((should_hold now is_keyframe g).1 ≡ true) × ((should_hold now is_keyframe g).0 ≡ g)
unfolding should_hold transition_active normalize_mode
hold_drops now is_keyframe g a b = ground arith
