-- ===== src/Session/Gate/Switching.antt =====
-- What an @switch message does (internal/session/switch_target.go): it is ignored, keeps the stream, or
-- opens the next generation and its gate in one step.
use webrtc_gateway.Base.{
  refl, sym, subst, ◌∙◌, ℕ, arith, ◌≡◌, true, ◌<◌, false, ◌⊎◌, ◌↔◌, ◌&&◌, ◌+◌, ◌≤◌,
}
use webrtc_gateway.Session.Gate.Target.{
  activate_target, ignore_target, keep_stream, accept_target, decide, SwitchMessage, next_target,
  within_debounce, take_target, same_media, prepare_and_activate, TargetOutcome,
}
use webrtc_gateway.Session.Gate.Calls.{
  start_gate, open_gate, newly_active, evaluate, satisfied, evaluate_active, evaluate_inactive,
  reject_reason,
}
use webrtc_gateway.Session.Gate.Watch.{schedule_pli}
use webrtc_gateway.Session.Gate.{
  clear_gate, clear_reservation, Gate, opened_matches, current_source,
}
use webrtc_gateway.Session.Rtp.{AccessUnit}
use webrtc_gateway.Session.Gate.Events.{IsValid}

-- A message is ignored exactly when it repeats the current target within the debounce window on the same media; then only
-- the number of duplicates changes.
ignores_iff :
    (m : SwitchMessage) (now : ℕ) (g : Gate)
    → let o = activate_target m now g in
      ((o.decision.ignore ≡ true) ↔ ((within_debounce m now g ≡ true) × (same_media g ≡ true)))
      × (o.decision.ignore ≡ true → o.gate ≡ record g { duplicates = g.duplicates + 1 })
unfolding activate_target ignore_target keep_stream accept_target decide
ignores_iff m now g = ground arith

-- Neither a repeated message nor one for the stream already shown.
unfoldable pub IsNewTarget : SwitchMessage → ℕ → Gate → Type 0
IsNewTarget m now g =
    ((within_debounce m now g && same_media g) ≡ false)
    × (opened_matches g.remote_ssrc (current_source g) g ≡ false)

activate-accept :
    (m : SwitchMessage) (now : ℕ) (g : Gate)
    → IsNewTarget m now g
    → activate_target m now g ≡ accept_target m now g
unfolding IsNewTarget activate_target
activate-accept m now g (a, b) = rw (a, b)

start_gate-cases :
    (generation now : ℕ) (g : Gate)
    → g.normalize ≡ true
    → generation ≡ g.switch_generation
    → g.accepted < generation
    → (g.active ≡ true → g.generation < generation)
    → opened_matches g.remote_ssrc (current_source g) g ≡ false
    → let (h, a) = start_gate generation now "agent-switch" g in
      ((h.active ≡ true)
        × (h.generation ≡ generation)
        × (h.accepted ≡ g.accepted)
        × (a ≡ newly_active))
      ⊎ ((h.active ≡ false) × (h.accepted ≡ generation) × (a ≡ satisfied))
unfolding start_gate open_gate clear_gate clear_reservation
start_gate-cases generation now g n e l m o = ground arith

next_target-start :
    (m : SwitchMessage) (now : ℕ) (g : Gate)
    → IsValid g
    → IsNewTarget m now g
    → let t = next_target m now g in
      (t.switch_generation ≡ g.switch_generation + 1)
      × (t.accepted < t.switch_generation)
      × (t.active ≡ true → t.generation < t.switch_generation)
      × (opened_matches t.remote_ssrc (current_source t) t ≡ false)
      × (t.normalize ≡ g.normalize)
unfolding IsNewTarget next_target take_target opened_matches current_source
next_target-start m now g v n = ground arith

old-blocked :
    (au : AccessUnit) (now : ℕ) (g : Gate)
    → ((g.active ≡ true) × (au.generation < g.generation))
      ⊎ ((g.active ≡ false) × (au.generation < g.accepted))
    → (evaluate au now g).1.emit ≡ false
unfolding evaluate evaluate_active evaluate_inactive reject_reason
old-blocked au now g c = ground arith

accepted_gate :
    (m : SwitchMessage) (now : ℕ) (g : Gate)
    → IsValid g
    → g.normalize ≡ true
    → IsNewTarget m now g
    → let o = accept_target m now g in
      let next = g.switch_generation + 1 in
      ((o.gate.active ≡ true) × (o.gate.generation ≡ next) × (o.activation ≡ newly_active))
      ⊎ ((o.gate.active ≡ false) × (o.gate.accepted ≡ next) × (o.activation ≡ satisfied))
unfolding accept_target
accepted_gate m now g v n t =
    let (e, l, k, o, f) = next_target-start m now g v t in
    let next = g.switch_generation + 1 in
    let c =
      start_gate-cases next now (next_target m now g) (f ∙ n) (sym e)
        (subst (λ x. (next_target m now g).accepted < x) e l)
        (λ h. subst (λ x. (next_target m now g).generation < x) e (k h)) o in
    ground arith

-- A new target opens the next generation together with its gate, or, on a keyframe shown a moment ago, accepts it at once; the message is the target and the generation counts up by one.
switch_opens_generation :
    (m : SwitchMessage) (now : ℕ) (g : Gate)
    → IsValid g
    → g.normalize ≡ true
    → IsNewTarget m now g
    → let o = activate_target m now g in
      let next = g.switch_generation + 1 in
      (o.decision.generation ≡ next)
      × (((o.gate.active ≡ true) × (o.gate.generation ≡ next) × (o.activation ≡ newly_active))
          ⊎ ((o.gate.active ≡ false) × (o.gate.accepted ≡ next) × (o.activation ≡ satisfied)))
unfolding accept_target decide
switch_opens_generation m now g v n t =
    let c = accepted_gate m now g v n t in
    subst
      (λ (o : TargetOutcome).
        (o.decision.generation ≡ g.switch_generation + 1)
        × (((o.gate.active ≡ true)
              × (o.gate.generation ≡ g.switch_generation + 1)
              × (o.activation ≡ newly_active))
            ⊎ ((o.gate.active ≡ false)
                × (o.gate.accepted ≡ g.switch_generation + 1)
                × (o.activation ≡ satisfied))))
      (sym (activate-accept m now g t)) (refl, c)

prepare-gate :
    (m : SwitchMessage) (now : ℕ) (g : Gate)
    → let o = activate_target m now g in
      let h = (prepare_and_activate m now g).0.gate in
      (h.active ≡ o.gate.active)
      × (h.generation ≡ o.gate.generation)
      × (h.accepted ≡ o.gate.accepted)
unfolding prepare_and_activate schedule_pli
prepare-gate m now g = ground arith

-- Where the normalizer is on, no access unit of the generations before it passes right after a new
-- target is taken.
pub switch_blocks_old :
    (m : SwitchMessage) (now later : ℕ) (au : AccessUnit) (g : Gate)
    → IsValid g
    → g.normalize ≡ true
    → IsNewTarget m now g
    → au.generation ≤ g.switch_generation
    → (evaluate au later (prepare_and_activate m now g).0.gate).1.emit ≡ false
switch_blocks_old m now later au g v n t l =
    let h = (prepare_and_activate m now g).0.gate in
    let (_, c) = switch_opens_generation m now g v n t in
    let p = prepare-gate m now g in old-blocked au later h (ground arith)
