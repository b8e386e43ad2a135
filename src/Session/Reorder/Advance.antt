-- ===== src/Session/Reorder/Advance.antt =====
-- One account of what each method of internal/session/reorder_buffer.go does to a valid buffer: it
-- moves the expected sequence number on, and hands out what is held on the way.
use webrtc_gateway.Base.{
  ℕ, ◌+◌, ◌^◌, ◌<◌, ◌≡◌, ◌≢◌, refl, true, false, none, List, [], ◌∷◌, arith, length, is_empty, All,
  u16, sub16, subst,
}
use webrtc_gateway.Session.Reorder.Window.{
  Packets, InWindow, Distinct, lookup, lookup-none, delete_unheld, slide-InWindow, delete-InWindow,
}
use webrtc_gateway.Session.Reorder.Passes.{Passes, flush_loop_lem, force_loop_lem}
use webrtc_gateway.Session.Reorder.Counting.{length-InWindow}
use webrtc_gateway.Session.Reorder.{
  Buffer, Outcome, Skip, stopped, Flush, window_size, force_loop, flush_consecutive, force_flush_to,
}

-- What holds between any two calls.
pub record IsValid (b : Buffer) : Type 0 where
  pub next_in : b.next_seq < 2 ^ 16
  pub window : All (InWindow window_size b.next_seq) b.packets
  pub distinct : Distinct b.packets
  pub gap : lookup b.next_seq b.packets ≡ none
  -- A timer runs, or has run out and its callback is still to come.
  pub pending_timed : is_empty b.packets ≡ false → b.timer ≢ stopped
  pub pending_based : is_empty b.packets ≡ false → b.has_base ≡ true
  pub pending_open : is_empty b.packets ≡ false → b.closed ≡ false

abbrev pub skip_total : List Skip → ℕ
skip_total [] = 0
skip_total (s ∷ ss) = s.count + skip_total ss

abbrev pub passed : ℕ → Outcome → Flush
passed k o = record {
  left = o.buffer.packets;
  next = o.buffer.next_seq;
  out = o.writes;
  skipped = k;
}

-- `o` comes from `b` by passing over `n` numbers, with `m` held.
pub record Advance (n skipped : ℕ) (m : Packets) (b : Buffer) (o : Outcome) : Type 0 where
  pub passes : Passes window_size n m b.next_seq (passed skipped o)
  pub gap : lookup o.buffer.next_seq o.buffer.packets ≡ none
  pub small : n < 2 ^ 16
  pub counted : o.buffer.released ≡ b.released + length o.writes
  pub lost : o.buffer.timed_out ≡ b.timed_out + skipped
  pub reported : skip_total o.skips ≡ skipped
  pub not_dropped : o.buffer.dropped_old ≡ b.dropped_old

-- The window of a valid buffer is open at its first number, so it holds fewer than 64 packets.
pub pending_bound : (b : Buffer) → IsValid b → length b.packets < window_size
pending_bound b v = omega (
  arith,
  length-InWindow 63 (u16 (b.next_seq + 1)) b.packets (omega arith) (omega arith)
      (subst (All (InWindow 63 (u16 (b.next_seq + 1))))
        (delete_unheld b.next_seq b.packets (lookup-none b.next_seq b.packets v.gap))
        (delete-InWindow 63 b.next_seq b.packets v.next_in (omega arith) v.window))
      v.distinct,
)

pub slide_gap :
    (b : Buffer) → IsValid b → All (InWindow window_size (u16 (b.next_seq + 1))) b.packets
slide_gap b v =
    subst (All (InWindow window_size (u16 (b.next_seq + 1))))
      (delete_unheld b.next_seq b.packets (lookup-none b.next_seq b.packets v.gap))
      (slide-InWindow window_size b.next_seq b.packets v.next_in v.window)

pub flush_consecutive_lem :
    (b : Buffer)
    → b.next_seq < 2 ^ 16
    → All (InWindow window_size b.next_seq) b.packets
    → Distinct b.packets
    → Advance (length (flush_consecutive b).writes) 0 b.packets b (flush_consecutive b)
unfolding flush_consecutive
flush_consecutive_lem b hs w d =
    let few = length-InWindow window_size b.next_seq b.packets hs (omega arith) w d in
    let loop =
      flush_loop_lem window_size (length b.packets) b.packets b.next_seq hs (omega arith)
        (omega arith) w d in
    record {
      passes = record {
        at = loop.0.at;
        entries = loop.0.entries;
        tally = omega arith;
        kept = loop.0.kept;
        window = loop.0.window;
        distinct = loop.0.distinct;
        rest = loop.0.rest;
      };
      gap = loop.1;
      small = omega (arith, loop.0.kept);
      counted = refl;
      lost = omega arith;
      reported = refl;
      not_dropped = refl;
    }

-- The forced flush alone, which may stop at a packet.
pub force_flush_to_lem :
    (n target : ℕ) (b : Buffer)
    → b.next_seq < 2 ^ 16
    → target < 2 ^ 16
    → n ≡ sub16 target b.next_seq
    → All (InWindow window_size b.next_seq) b.packets
    → Distinct b.packets
    → let o = force_flush_to target b in
      (k : ℕ) × Passes window_size n b.packets b.next_seq (passed k o)
      × (o.buffer.released ≡ b.released + length o.writes)
      × (o.buffer.timed_out ≡ b.timed_out + k)
      × (skip_total o.skips ≡ k)
      × (o.buffer.dropped_old ≡ b.dropped_old)
      × (o.buffer.has_base ≡ b.has_base)
      × (o.buffer.closed ≡ b.closed)
unfolding force_flush_to
force_flush_to_lem n target b hs ht e w d =
    let f = force_loop (2 ^ 16) target b.packets b.next_seq in
    let p =
      force_loop_lem window_size n (2 ^ 16) target b.packets b.next_seq hs ht e (omega arith) w d in
    (
      f.skipped,
      record {
        at = p.at;
        entries = p.entries;
        tally = p.tally;
        kept = p.kept;
        window = p.window;
        distinct = p.distinct;
        rest = p.rest;
      },
      refl,
      refl,
      ground arith,
      refl,
      refl,
      refl,
    )
