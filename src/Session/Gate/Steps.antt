-- ===== src/Session/Gate/Steps.antt =====
-- Each call of the gate (internal/session/switch_video_gate.go and its neighbours) keeps the
-- invariant, and its numbers only grow.
use webrtc_gateway.Base.{ℕ, arith, Bool, Option}
use webrtc_gateway.Session.Rtp.{AccessUnit}
use webrtc_gateway.Session.Gate.{Gate, note_opened, note_discontinuity_idr, String, Token, Mode}
use webrtc_gateway.Session.Gate.Calls.{evaluate, commit, abort, start_gate}
use webrtc_gateway.Session.Gate.Watch.{stop_gate, maybe_fail_open, observe_stall, schedule_pli}
use webrtc_gateway.Session.Gate.Hold.{start_hold, should_hold, stop_hold}
use webrtc_gateway.Session.Gate.Target.{SwitchMessage, next_target, ignore_target, keep_stream}
use webrtc_gateway.Session.Gate.Events.{IsValid, Grows}

pub abort-IsValid :
    (generation reservation : ℕ) (g : Gate) → IsValid g → IsValid (abort generation reservation g).0
unfolding abort
abort-IsValid generation reservation g v = ground arith

pub abort-Grows :
    (generation reservation : ℕ) (g : Gate) → IsValid g → Grows g (abort generation reservation g).0
unfolding abort
abort-Grows generation reservation g v = ground arith

pub stop_gate-IsValid : (generation : ℕ) (g : Gate) → IsValid g → IsValid (stop_gate generation g).0
unfolding stop_gate
stop_gate-IsValid generation g v = ground arith

pub stop_gate-Grows : (generation : ℕ) (g : Gate) → IsValid g → Grows g (stop_gate generation g).0
unfolding stop_gate
stop_gate-Grows generation g v = ground arith

pub commit-IsValid :
    (generation reservation now : ℕ) (g : Gate)
    → IsValid g
    → IsValid (commit generation reservation now g).0
unfolding commit
commit-IsValid generation reservation now g v = ground arith

pub commit-Grows :
    (generation reservation now : ℕ) (g : Gate)
    → IsValid g
    → Grows g (commit generation reservation now g).0
unfolding commit
commit-Grows generation reservation now g v = ground arith

pub evaluate-IsValid :
    (au : AccessUnit) (now : ℕ) (g : Gate) → IsValid g → IsValid (evaluate au now g).0
unfolding evaluate
evaluate-IsValid au now g v = ground arith

pub evaluate-Grows :
    (au : AccessUnit) (now : ℕ) (g : Gate) → IsValid g → Grows g (evaluate au now g).0
unfolding evaluate
evaluate-Grows au now g v = ground arith

pub start_gate-IsValid :
    (generation now : ℕ) (reason : String) (g : Gate)
    → IsValid g
    → IsValid (start_gate generation now reason g).0
unfolding start_gate
start_gate-IsValid generation now reason g v = ground arith

pub start_gate-Grows :
    (generation now : ℕ) (reason : String) (g : Gate)
    → IsValid g
    → Grows g (start_gate generation now reason g).0
unfolding start_gate
start_gate-Grows generation now reason g v = ground arith

pub schedule_pli-IsValid :
    (generation now : ℕ) (g : Gate) → IsValid g → IsValid (schedule_pli generation now g).0
unfolding schedule_pli
schedule_pli-IsValid generation now g v = ground arith

pub schedule_pli-Grows :
    (generation now : ℕ) (g : Gate) → IsValid g → Grows g (schedule_pli generation now g).0
unfolding schedule_pli
schedule_pli-Grows generation now g v = ground arith

pub maybe_fail_open-IsValid :
    (healthy : Bool) (now : ℕ) (g : Gate) → IsValid g → IsValid (maybe_fail_open healthy now g).0
unfolding maybe_fail_open
maybe_fail_open-IsValid healthy now g v = ground arith

pub maybe_fail_open-Grows :
    (healthy : Bool) (now : ℕ) (g : Gate) → IsValid g → Grows g (maybe_fail_open healthy now g).0
unfolding maybe_fail_open
maybe_fail_open-Grows healthy now g v = ground arith

pub observe_stall-IsValid : (now : ℕ) (g : Gate) → IsValid g → IsValid (observe_stall now g).0
unfolding observe_stall
observe_stall-IsValid now g v = ground arith

pub observe_stall-Grows : (now : ℕ) (g : Gate) → IsValid g → Grows g (observe_stall now g).0
unfolding observe_stall
observe_stall-Grows now g v = ground arith

pub note_opened-IsValid : (ssrc now : ℕ) (g : Gate) → IsValid g → IsValid (note_opened ssrc now g)
unfolding note_opened
note_opened-IsValid ssrc now g v = ground arith

pub note_opened-Grows : (ssrc now : ℕ) (g : Gate) → IsValid g → Grows g (note_opened ssrc now g)
unfolding note_opened
note_opened-Grows ssrc now g v = ground arith

pub note_discontinuity_idr-IsValid :
    (now : ℕ) (g : Gate) → IsValid g → IsValid (note_discontinuity_idr now g)
unfolding note_discontinuity_idr
note_discontinuity_idr-IsValid now g v = ground arith

pub note_discontinuity_idr-Grows :
    (now : ℕ) (g : Gate) → IsValid g → Grows g (note_discontinuity_idr now g)
unfolding note_discontinuity_idr
note_discontinuity_idr-Grows now g v = ground arith

pub start_hold-IsValid :
    (enabled : Bool) (token : Option Token) (mode : Mode) (least most now : ℕ) (g : Gate)
    → IsValid g
    → IsValid (start_hold enabled token mode least most now g).0
unfolding start_hold
start_hold-IsValid enabled token mode least most now g v = ground arith

pub start_hold-Grows :
    (enabled : Bool) (token : Option Token) (mode : Mode) (least most now : ℕ) (g : Gate)
    → IsValid g
    → Grows g (start_hold enabled token mode least most now g).0
unfolding start_hold
start_hold-Grows enabled token mode least most now g v = ground arith

pub should_hold-IsValid :
    (now : ℕ) (is_keyframe : Bool) (g : Gate)
    → IsValid g
    → IsValid (should_hold now is_keyframe g).0
unfolding should_hold
should_hold-IsValid now is_keyframe g v = ground arith

pub should_hold-Grows :
    (now : ℕ) (is_keyframe : Bool) (g : Gate)
    → IsValid g
    → Grows g (should_hold now is_keyframe g).0
unfolding should_hold
should_hold-Grows now is_keyframe g v = ground arith

pub stop_hold-IsValid : (g : Gate) → IsValid g → IsValid (stop_hold g)
unfolding stop_hold
stop_hold-IsValid g v = ground arith

pub stop_hold-Grows : (g : Gate) → IsValid g → Grows g (stop_hold g)
unfolding stop_hold
stop_hold-Grows g v = ground arith

pub next_target-IsValid :
    (m : SwitchMessage) (now : ℕ) (g : Gate) → IsValid g → IsValid (next_target m now g)
unfolding next_target
next_target-IsValid m now g v = ground arith

pub next_target-Grows :
    (m : SwitchMessage) (now : ℕ) (g : Gate) → IsValid g → Grows g (next_target m now g)
unfolding next_target
next_target-Grows m now g v = ground arith

pub ignore_target-IsValid :
    (m : SwitchMessage) (g : Gate) → IsValid g → IsValid (ignore_target m g).gate
unfolding ignore_target
ignore_target-IsValid m g v = ground arith

pub ignore_target-Grows :
    (m : SwitchMessage) (g : Gate) → IsValid g → Grows g (ignore_target m g).gate
unfolding ignore_target
ignore_target-Grows m g v = ground arith

pub keep_stream-IsValid :
    (m : SwitchMessage) (now : ℕ) (g : Gate) → IsValid g → IsValid (keep_stream m now g).gate
unfolding keep_stream
keep_stream-IsValid m now g v = ground arith

pub keep_stream-Grows :
    (m : SwitchMessage) (now : ℕ) (g : Gate) → IsValid g → Grows g (keep_stream m now g).gate
unfolding keep_stream
keep_stream-Grows m now g v = ground arith

pub Grows-trans : (g h k : Gate) → Grows g h → Grows h k → Grows g k
Grows-trans g h k a b = ground arith

pub Grows-refl : (g : Gate) → Grows g g
Grows-refl g = ground arith
