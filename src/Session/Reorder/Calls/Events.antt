-- ===== src/Session/Reorder/Calls/Events.antt =====
-- Histories of the reorder buffer (internal/session/reorder_buffer.go): any sequence of its calls,
-- with timers that run out, and callbacks that come late when a reset crosses them.
use webrtc_gateway.Base.{ℕ, ◌^◌, ◌<◌, List, [], ◌∷◌}
use webrtc_gateway.Session.Reorder.Window.{Entry}
use webrtc_gateway.Session.Reorder.{Buffer, Timer, stopped, armed, fired}
use webrtc_gateway.Session.Reorder.Calls.{
  push, timeout_flush, reset, drain, set_pacing, set_skip_handler,
}

pub data Event : Type 0 where
  arrives : ℕ → Entry → Event
  timer_ends timeout resets drains skip_handler : Event
  paces : ℕ → Event

abbrev pub IsWord : Event → Type 0
IsWord (arrives seq e) = seq < 2 ^ 16
IsWord _ = Unit

abbrev pub run_out : Timer → Timer
run_out armed = fired
run_out fired = fired
run_out stopped = stopped

unfoldable pub step : Event → Buffer → Buffer
step (arrives seq e) b = (push seq e b).buffer
step timer_ends b = record b { timer = run_out b.timer }
step timeout b = (timeout_flush b).buffer
step resets b = reset b
step drains b = (drain b).buffer
step skip_handler b = set_skip_handler b
step (paces d) b = set_pacing d b

unfoldable pub run : List Event → Buffer → Buffer
run [] b = b
run (e ∷ es) b = run es (step e b)
