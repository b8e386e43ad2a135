-- ===== src/Session/Reorder/Calls/Tests.antt =====
-- Runs of the reorder buffer (internal/session/reorder_buffer.go) at concrete inputs.
use mathlib.Core.List.{map}
use webrtc_gateway.Base.{ℕ, ◌^◌, ◌<◌, ◌≡◌, refl, true, false, List, [], ◌∷◌, arith, length, sub16}
use webrtc_gateway.Session.Reorder.Window.{Entry, lookup, delete}
use webrtc_gateway.Session.Reorder.Advance.{IsValid, skip_total}
use webrtc_gateway.Session.Reorder.{
  Buffer, armed, window_size, new_buffer, flush_loop, flush_consecutive,
}
use webrtc_gateway.Session.Reorder.Calls.Valid.{Accepts}
use webrtc_gateway.Session.Reorder.Calls.Drain.{drain_loop_ends}
use webrtc_gateway.Session.Reorder.Calls.Events.{arrives, timeout, timer_ends, drains, Event, run}
use webrtc_gateway.Session.Reorder.Calls.Delivery.{
  HandsOut, LossCounted, push_in_order, timeout_flush_progress, run_bounded,
}
use webrtc_gateway.Session.Reorder.Calls.{
  push, push_expected, insert_absent, timeout_flush, drain_loop, skip_to, lowest_from,
  rearm_if_pending,
}

abbrev packet : ℕ → Entry
packet n = record { payload = n ∷ []; is_keyframe = false }

-- 65535 is awaited while 0 and 3 are held: the window goes round the end of the numbers.
abbrev waiting : Buffer
waiting = record {
  packets = (3, packet 3) ∷ (0, packet 0) ∷ [];
  next_seq = 65535;
  has_base = true;
  has_write_fn = true;
  has_on_skip = true;
  pace = 5;
  timer = armed;
  closed = false;
  buffered = 2;
  released = 7;
  dropped_old = 0;
  timed_out = 0;
  skip_events = 0;
}

waiting-IsValid : IsValid waiting
unfolding lookup
waiting-IsValid = record {
  next_in = omega arith;
  window = omega arith;
  distinct = omega arith;
  gap = refl;
  pending_timed = λ _ e. cc;
  pending_based = λ _. refl;
  pending_open = λ _. refl;
}

accepts : (seq : ℕ) → seq < 2 ^ 16 → sub16 seq 65535 < 0x8000 → Accepts seq waiting
accepts seq w h = record { still_open = refl; based = refl; word = w; ahead = h }

push_fills_the_gap :
    map (λ w. w.payload) (push 65535 (packet 9) waiting).writes ≡ (9 ∷ []) ∷ (0 ∷ []) ∷ []
unfolding push push_expected flush_consecutive flush_loop lookup delete
push_fills_the_gap = refl

timeout_reports_the_gap :
    (timeout_flush waiting).skips ≡ record { count = 1; from_seq = 65535; to_seq = 65535 } ∷ []
unfolding timeout_flush skip_to lowest_from flush_consecutive flush_loop lookup delete
    rearm_if_pending
timeout_reports_the_gap = refl

push_in_order_example :
    HandsOut
      (insert_absent 65535 (packet 9) waiting.packets)
      waiting
      (push 65535 (packet 9) waiting)
push_in_order_example =
    push_in_order 65535 (packet 9) waiting waiting-IsValid
      (accepts 65535 (omega arith) (omega arith))

timeout_flush_progress_example :
    HandsOut waiting.packets waiting (timeout_flush waiting)
    × LossCounted waiting (timeout_flush waiting)
    × (0 < length (timeout_flush waiting).writes)
    × (skip_total (timeout_flush waiting).skips < window_size)
timeout_flush_progress_example = timeout_flush_progress waiting waiting-IsValid refl

-- A packet behind the awaited number is discarded, and the loop still ends.
drain_loop_ends_example :
    (drain_loop 65536 ((5, packet 5) ∷ (65000, packet 1) ∷ []) 65535).left ≡ []
drain_loop_ends_example =
    drain_loop_ends 65536 65535 ((5, packet 5) ∷ (65000, packet 1) ∷ []) (omega arith) (omega arith)
      (omega arith)

abbrev history : List Event
history = arrives 10 (packet 10) ∷ arrives 12 (packet 12) ∷ timer_ends ∷ timeout ∷ drains ∷ []

run_bounded_example :
    IsValid (run history (new_buffer true))
    × (length (run history (new_buffer true)).packets < window_size)
run_bounded_example = run_bounded true history (omega arith)
