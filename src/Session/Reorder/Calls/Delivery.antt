-- ===== src/Session/Reorder/Calls/Delivery.antt =====
-- What a client of the reorder buffer (internal/session/reorder_buffer.go) sees: packets in
-- sequence order, each loss reported, and a bounded wait.
use mathlib.Core.List.{map}
use webrtc_gateway.Base.{
  ℕ, ◌+◌, ◌^◌, ◌<◌, ◌≡◌, false, none, List, arith, length, is_empty, All, sub16, ltb, if◌then◌else◌,
  subst, Bool,
}
use webrtc_gateway.Session.Reorder.Window.{Entry, Packets, lookup, collect}
use webrtc_gateway.Session.Reorder.Passes.{entry_of}
use webrtc_gateway.Session.Reorder.Advance.{IsValid, Advance, skip_total, pending_bound}
use webrtc_gateway.Session.Reorder.{Buffer, Outcome, window_size, new_buffer}
use webrtc_gateway.Session.Reorder.Calls.Valid.{Accepts, push_lem}
use webrtc_gateway.Session.Reorder.Calls.Runs.{run-IsValid, new_buffer-IsValid, timeout_flush_lem}
use webrtc_gateway.Session.Reorder.Calls.Events.{Event, IsWord, run}
use webrtc_gateway.Session.Reorder.Calls.{push, timeout_flush, insert_absent}

-- The packets of `m` from one expected number to the next go out in order, and only those leave.
pub record HandsOut (m : Packets) (b : Buffer) (o : Outcome) : Type 0 where
  pub handed_out : map entry_of o.writes ≡ collect (sub16 o.buffer.next_seq b.next_seq) b.next_seq m
  pub stays :
      (j : ℕ)
      → j < 2 ^ 16
      → lookup j o.buffer.packets ≡ (
          if ltb (sub16 j b.next_seq) (sub16 o.buffer.next_seq b.next_seq)
          then none
          else lookup j m)
  pub stopped_at_gap : lookup o.buffer.next_seq o.buffer.packets ≡ none

Advance-HandsOut :
    (n k : ℕ) (m : Packets) (b : Buffer) (o : Outcome)
    → IsValid b
    → Advance n k m b o
    → HandsOut m b o
Advance-HandsOut n k m b o v a = record {
  handed_out = subst (λ t. map entry_of o.writes ≡ collect t b.next_seq m) count a.passes.entries;
  stays = λ j hj.
      subst
        (λ t. lookup j o.buffer.packets ≡ (if ltb (sub16 j b.next_seq) t then none else lookup j m))
        count (a.passes.rest j hj);
  stopped_at_gap = a.gap;
}
  where
    count : n ≡ sub16 o.buffer.next_seq b.next_seq
    count = omega (arith, a.passes.at, a.small, v.next_in)

-- Each number that is passed over without a packet is counted as lost and reported as skipped.
pub record LossCounted (b : Buffer) (o : Outcome) : Type 0 where
  pub gaps : skip_total o.skips + length o.writes ≡ sub16 o.buffer.next_seq b.next_seq
  pub lost : o.buffer.timed_out ≡ b.timed_out + skip_total o.skips
  pub released : o.buffer.released ≡ b.released + length o.writes
  pub not_dropped : o.buffer.dropped_old ≡ b.dropped_old

Advance-LossCounted :
    (n k : ℕ) (m : Packets) (b : Buffer) (o : Outcome)
    → IsValid b
    → Advance n k m b o
    → LossCounted b o
Advance-LossCounted n k m b o v a = record {
  gaps = omega (arith, a.passes.at, a.small, v.next_in, a.passes.tally, a.reported);
  lost = omega (arith, a.lost, a.reported);
  released = a.counted;
  not_dropped = a.not_dropped;
}

-- A push that is not late hands out, in sequence order, exactly the packets held from the old
-- expected number up to the new one, with the pushed packet among those held; the others stay, and
-- the buffer waits at a number that is not held.
pub push_in_order :
    (seq : ℕ) (e : Entry) (b : Buffer)
    → IsValid b
    → Accepts seq b
    → HandsOut (insert_absent seq e b.packets) b (push seq e b)
push_in_order seq e b v a =
    let (n, k, adv, _) = push_lem seq e b v a in
    Advance-HandsOut n k (insert_absent seq e b.packets) b (push seq e b) v adv

-- While packets wait, the timeout hands out at least one of them, in order, after skipping fewer
-- than 64 numbers, and counts and reports the skipped ones; it discards nothing as stale.
pub timeout_flush_progress :
    (b : Buffer)
    → IsValid b
    → is_empty b.packets ≡ false
    → HandsOut b.packets b (timeout_flush b)
      × LossCounted b (timeout_flush b)
      × (0 < length (timeout_flush b).writes)
      × (skip_total (timeout_flush b).skips < window_size)
timeout_flush_progress b v pending =
    let (k, n, adv, valid, near, some_out) = timeout_flush_lem b v pending in
    (
      Advance-HandsOut (k + n) k b.packets b (timeout_flush b) v adv,
      Advance-LossCounted (k + n) k b.packets b (timeout_flush b) v adv,
      omega (arith, adv.passes.tally),
      omega (arith, adv.reported),
    )

-- In every history of pushes, timer runs, timeouts, resets and drains from a new buffer, the
-- buffer is valid and holds fewer than 64 packets.
pub run_bounded :
    (f : Bool) (es : List Event)
    → All IsWord es
    → IsValid (run es (new_buffer f)) × (length (run es (new_buffer f)).packets < window_size)
run_bounded f es w =
    let v = run-IsValid es (new_buffer f) w (new_buffer-IsValid f) in
    (v, pending_bound (run es (new_buffer f)) v)
