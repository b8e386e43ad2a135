-- ===== src/Session/Gate/Safety.antt =====
-- Histories of the gate of internal/session/switch_video_gate.go: its invariant holds throughout,
-- and no access unit of an older generation passes once a newer one was shown.
use webrtc_gateway.Session.Gate.Events.{
  unholds, Event, step, run, IsValid, Grows, evaluates, renegotiates, sends_pli, recovers, commits,
  streams, aborts, starts, schedules, stops, fails_open, stalls, switches, notes_opened,
  notes_discontinuity, holds, offers, clears_still,
}
use webrtc_gateway.Base.{[], ℕ, arith, Bool, ◌+◌, Option, List, if_elim, ◌∷◌, ◌&&◌}
use webrtc_gateway.Session.Gate.Target.{
  TargetOutcome, SwitchMessage, activate_target, prepare_and_activate, accept_target, next_target,
  keep_stream, ignore_target, within_debounce, same_media,
}
use webrtc_gateway.Session.Gate.{Gate, String, opened_matches, current_source}
use webrtc_gateway.Session.Gate.Watch.{schedule_pli, clear_still_emitted}
use webrtc_gateway.Session.Gate.Steps.{
  next_target-IsValid, next_target-Grows, start_gate-IsValid, start_gate-Grows,
  ignore_target-IsValid, ignore_target-Grows, abort-IsValid, abort-Grows, stop_gate-IsValid,
  stop_gate-Grows, commit-IsValid, commit-Grows, evaluate-IsValid, evaluate-Grows,
  maybe_fail_open-IsValid, maybe_fail_open-Grows, observe_stall-IsValid, observe_stall-Grows,
  note_opened-IsValid, note_opened-Grows, note_discontinuity_idr-IsValid,
  note_discontinuity_idr-Grows, start_hold-IsValid, start_hold-Grows, should_hold-IsValid,
  should_hold-Grows, stop_hold-IsValid, stop_hold-Grows, keep_stream-IsValid, keep_stream-Grows,
  schedule_pli-IsValid, schedule_pli-Grows, Grows-trans, Grows-refl,
}

unfoldable pub Step : Gate → Gate → Type 0
Step g h = IsValid h × Grows g h

accept_target-Step :
    (m : SwitchMessage) (now : ℕ) (g : Gate) → IsValid g → Step g (accept_target m now g).gate
unfolding Step accept_target
accept_target-Step m now g v =
    let n = next_target-IsValid m now g v in
    let next = g.switch_generation + 1 in
    (
      start_gate-IsValid next now "agent-switch" (next_target m now g) n,
      Grows-trans g (next_target m now g) (accept_target m now g).gate (next_target-Grows m now g v)
          (start_gate-Grows next now "agent-switch" (next_target m now g) n),
    )

ignore_target-Step : (m : SwitchMessage) (g : Gate) → IsValid g → Step g (ignore_target m g).gate
unfolding Step
ignore_target-Step m g v = (ignore_target-IsValid m g v, ignore_target-Grows m g v)

keep_stream-Step :
    (m : SwitchMessage) (now : ℕ) (g : Gate) → IsValid g → Step g (keep_stream m now g).gate
unfolding Step
keep_stream-Step m now g v = (keep_stream-IsValid m now g v, keep_stream-Grows m now g v)

activate_target-Step :
    (m : SwitchMessage) (now : ℕ) (g : Gate) → IsValid g → Step g (activate_target m now g).gate
unfolding activate_target
activate_target-Step m now g v =
    let P = λ (o : TargetOutcome). Step g o.gate in
    if_elim P (within_debounce m now g && same_media g) (ignore_target-Step m g v) (
      if_elim P (opened_matches g.remote_ssrc (current_source g) g) (keep_stream-Step m now g v)
        (accept_target-Step m now g v))

prepare-Step :
    (m : SwitchMessage) (now : ℕ) (g : Gate)
    → IsValid g
    → Step g (prepare_and_activate m now g).0.gate
unfolding prepare_and_activate Step
prepare-Step m now g v =
    let o = activate_target m now g in
    let (w, u) = activate_target-Step m now g v in
    let x = schedule_pli-IsValid o.decision.generation now o.gate w in
    let y =
      Grows-trans g o.gate (schedule_pli o.decision.generation now o.gate).0 u
        (schedule_pli-Grows o.decision.generation now o.gate w) in
    ground arith

streams-Step :
    (ssrc : ℕ) (source : String) (addr : Option String) (g : Gate)
    → IsValid g
    → Step g (step (streams ssrc source addr) g)
unfolding Step step
streams-Step ssrc source addr g v = ground arith

renegotiates-Step :
    (hold pending : Bool) (g : Gate) → IsValid g → Step g (step (renegotiates hold pending) g)
unfolding Step step
renegotiates-Step hold pending g v = ground arith

sends_pli-Step : (now : ℕ) (g : Gate) → IsValid g → Step g (step (sends_pli now) g)
unfolding Step step
sends_pli-Step now g v = ground arith

recovers-Step :
    (until : Option ℕ) (window : ℕ) (g : Gate) → IsValid g → Step g (step (recovers until window) g)
unfolding Step step
recovers-Step until window g v = ground arith

clears_still-Step : (g : Gate) → IsValid g → Step g (step clears_still g)
unfolding Step step clear_still_emitted
clears_still-Step g v = ground arith

step-Step : (e : Event) (g : Gate) → IsValid g → Step g (step e g)
unfolding Step step
step-Step (evaluates au now) g v = (evaluate-IsValid au now g v, evaluate-Grows au now g v)
step-Step (commits n r now) g v = (commit-IsValid n r now g v, commit-Grows n r now g v)
step-Step (aborts n r) g v = (abort-IsValid n r g v, abort-Grows n r g v)
step-Step (starts n now reason) g v =
    (start_gate-IsValid n now reason g v, start_gate-Grows n now reason g v)
step-Step (schedules n now) g v = (schedule_pli-IsValid n now g v, schedule_pli-Grows n now g v)
step-Step (stops n) g v = (stop_gate-IsValid n g v, stop_gate-Grows n g v)
step-Step (fails_open h now) g v =
    (maybe_fail_open-IsValid h now g v, maybe_fail_open-Grows h now g v)
step-Step (stalls now) g v = (observe_stall-IsValid now g v, observe_stall-Grows now g v)
step-Step (switches m now) g v = prepare-Step m now g v
step-Step (notes_opened ssrc now) g v =
    (note_opened-IsValid ssrc now g v, note_opened-Grows ssrc now g v)
step-Step (notes_discontinuity now) g v =
    (note_discontinuity_idr-IsValid now g v, note_discontinuity_idr-Grows now g v)
step-Step (holds on t mode least most now) g v =
    (start_hold-IsValid on t mode least most now g v, start_hold-Grows on t mode least most now g v)
step-Step (offers now key) g v = (should_hold-IsValid now key g v, should_hold-Grows now key g v)
step-Step unholds g v = (stop_hold-IsValid g v, stop_hold-Grows g v)
step-Step clears_still g v = clears_still-Step g v
step-Step (streams ssrc source addr) g v = streams-Step ssrc source addr g v
step-Step (renegotiates hold pending) g v = renegotiates-Step hold pending g v
step-Step (sends_pli now) g v = sends_pli-Step now g v
step-Step (recovers until window) g v = recovers-Step until window g v

-- Every history of the gate keeps the invariant, and its numbers only grow.
pub run-Step : (es : List Event) (g : Gate) → IsValid g → Step g (run es g)
unfolding Step run
run-Step [] g v = (v, Grows-refl g)
run-Step (e ∷ es) g v =
    let (w, a) = step-Step e g v in
    let (u, b) = run-Step es (step e g) w in (u, Grows-trans g (step e g) (run es (step e g)) a b)
