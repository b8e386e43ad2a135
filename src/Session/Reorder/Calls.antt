-- ===== src/Session/Reorder/Calls.antt =====
-- The methods of VideoReorderBuffer (internal/session/reorder_buffer.go), each holding `mu`
-- throughout, and `emit`, which runs after it is released.
pub mod Push
pub mod Far
pub mod Skipping
pub mod Tests
pub mod Delivery
pub mod Events
pub mod Runs
pub mod Drain
pub mod Valid
pub mod Lowest
use webrtc_gateway.Base.{
  ℕ, zero, suc, ◌+◌, ◌/◌, ◌^◌, Bool, true, false, not, ◌&&◌, ◌||◌, Option, none, some, List, [],
  ◌∷◌, ◌++◌, ltb, leb, ◌==◌, ◌!=◌, if◌then◌else◌, length, is_empty, u16, sub16,
}
use webrtc_gateway.Session.Reorder.Window.{Entry, Packets, lookup, delete}
use webrtc_gateway.Session.Reorder.{
  Buffer, Outcome, Write, Skip, stopped, armed, to_write, flush_consecutive, force_flush_to,
  window_size,
}

abbrev quiet : Buffer → Outcome
quiet b = record { buffer = b; writes = []; skips = [] }

pub set_skip_handler : Buffer → Buffer
set_skip_handler b = record b { has_on_skip = true }

-- Nanoseconds; a negative duration is cut to 0 by the caller.
abbrev pub max_pacing : ℕ
max_pacing = 10_000_000

pub set_pacing : ℕ → Buffer → Buffer
set_pacing d b = record b { pace = if ltb max_pacing d then max_pacing else d }

pub insert_absent : ℕ → Entry → Packets → Packets
insert_absent seq e m = elim (lookup seq m) [ none ↦ (seq, e) ∷ m | some _ ↦ m ]

-- The first packet sets the baseline.
pub push_first : ℕ → Entry → Buffer → Outcome
unfolding to_write
push_first seq e b = record {
  buffer = record b { next_seq = u16 (seq + 1); has_base = true; released = b.released + 1 };
  writes = to_write false e ∷ [];
  skips = [];
}

pub push_expected : Entry → Buffer → Outcome
unfolding to_write
push_expected e b =
    let o =
      flush_consecutive (record b { released = b.released + 1; next_seq = u16 (b.next_seq + 1) }) in
    record o { writes = to_write false e ∷ o.writes }

pub push_ahead : ℕ → Entry → Buffer → Outcome
push_ahead seq e b = elim (lookup seq b.packets) [
  | none ↦
      quiet (record b { packets = (seq, e) ∷ b.packets; buffered = b.buffered + 1; timer = armed })
  | some _ ↦ quiet b
]

pub rearm_if_pending : Buffer → Buffer
rearm_if_pending b = if is_empty b.packets then b else record b { timer = armed }

pub push_far : ℕ → Entry → Buffer → Outcome
unfolding insert_absent rearm_if_pending
push_far seq e b =
    let o = force_flush_to (sub16 seq (window_size / 2)) b in
    let m = o.buffer.packets in
    let fresh : ℕ = elim (lookup seq m) [ none ↦ 1 | some _ ↦ 0 ] in
    let o' = flush_consecutive (record (o.buffer) {
      packets = insert_absent seq e m;
      buffered = o.buffer.buffered + fresh;
    }) in
    record { buffer = rearm_if_pending o'.buffer; writes = o.writes ++ o'.writes; skips = o.skips }

pub push_old : Buffer → Outcome
push_old b = quiet (record b { dropped_old = b.dropped_old + 1 })

pub push : ℕ → Entry → Buffer → Outcome
push seq e b =
    if b.closed
    then quiet b
    else if not b.has_base
    then push_first seq e b
    else let offset = sub16 seq b.next_seq in
      if offset == 0
      then push_expected e b
      else if ltb offset 0x8000 && ltb offset window_size
      then push_ahead seq e b
      else if ltb offset 0x8000 && leb window_size offset
      then push_far seq e b
      else push_old b

-- `a` comes before `b` in the 16-bit sequence space.
pub seq_before : ℕ → ℕ → Bool
seq_before a b = let d = sub16 b a in (d != 0) && ltb d 0x8000

pub better : ℕ → Option ℕ → Option ℕ
unfolding seq_before
better seq none = some seq
better seq (some low) = if seq_before seq low then some seq else some low

-- The lowest buffered sequence number ahead of `next`.
pub lowest_from : ℕ → Packets → Option ℕ → Option ℕ
unfolding better
lowest_from next [] best = best
lowest_from next ((seq, e) ∷ m) best =
    lowest_from next m (if ltb (sub16 seq next) 0x8000 then better seq best else best)

pub skip_to : ℕ → Buffer → Outcome
unfolding rearm_if_pending
skip_to low b =
    let skipped = sub16 low b.next_seq in
    let gap = ltb 0 skipped in
    let o = flush_consecutive (record b {
      next_seq = low;
      timed_out = b.timed_out + skipped;
      skip_events = if gap then b.skip_events + 1 else b.skip_events;
    }) in
    record {
      buffer = rearm_if_pending o.buffer;
      writes = o.writes;
      skips =
          if gap
          then record { count = skipped; from_seq = b.next_seq; to_seq = sub16 low 1 } ∷ []
          else [];
    }

pub timeout_flush : Buffer → Outcome
timeout_flush b =
    if b.closed || is_empty b.packets
    then quiet b
    else elim (lowest_from b.next_seq b.packets none) [
      | none ↦ quiet (record b { packets = []; dropped_old = b.dropped_old + length b.packets })
      | some low ↦ skip_to low b
    ]

pub reset : Buffer → Buffer
reset b = record b { timer = stopped; packets = []; has_base = false }

pub any_ahead : ℕ → Packets → Bool
any_ahead next [] = false
any_ahead next ((seq, e) ∷ m) = ltb (sub16 seq next) 0x8000 || any_ahead next m

pub record Drained : Type 0 where
  pub left : Packets
  pub next : ℕ
  pub out : List Write
  pub stale : ℕ

-- `for len(b.packets) > 0`, with fuel.
pub drain_loop : ℕ → Packets → ℕ → Drained
unfolding any_ahead to_write
drain_loop zero m s = record { left = m; next = s; out = []; stale = 0 }
drain_loop (suc fuel) m s = elim (is_empty m) [
  | true ↦ record { left = m; next = s; out = []; stale = 0 }
  | false ↦ elim (lookup s m) [
    | some e ↦
        let rest = drain_loop fuel (delete s m) (u16 (s + 1)) in
        record rest { out = to_write false e ∷ rest.out }
    | none ↦ elim (any_ahead (u16 (s + 1)) m) [
      | true ↦ drain_loop fuel m (u16 (s + 1))
      | false ↦ record { left = []; next = u16 (s + 1); out = []; stale = length m }
    ]
  ]
]

pub drain : Buffer → Outcome
drain b =
    let d = drain_loop (2 ^ 16) b.packets b.next_seq in
    record {
      buffer = record b {
        closed = true;
        timer = stopped;
        packets = d.left;
        next_seq = d.next;
        released = b.released + length d.out;
        dropped_old = b.dropped_old + d.stale;
      };
      writes = d.out;
      skips = [];
    }

-- What `emit` does, in order.
pub data Effect : Type 0 where
  sleeps : ℕ → Effect
  writes_out : List ℕ → Bool → Effect
  reports : Skip → Effect

pub any_paced : List Write → Bool
any_paced [] = false
any_paced (w ∷ ws) = w.paced || any_paced ws

pub emit_write : Buffer → Write → List Effect
emit_write b w = if b.has_write_fn then writes_out w.payload w.is_keyframe ∷ [] else []

-- The writes at `i > 0`.
pub emit_rest : Buffer → Bool → List Write → List Effect
unfolding emit_write
emit_rest b burst [] = []
emit_rest b burst (w ∷ ws) =
    (if burst && ltb 0 b.pace then sleeps b.pace ∷ [] else [])
    ++ (emit_write b w ++ emit_rest b burst ws)

pub emit_writes : Buffer → List Write → List Effect
unfolding emit_rest any_paced
emit_writes b [] = []
emit_writes b (w ∷ ws) = emit_write b w ++ emit_rest b (any_paced (w ∷ ws)) ws

pub emit_skips : List Skip → List Effect
emit_skips [] = []
emit_skips (s ∷ ss) = (if ltb 0 s.count then reports s ∷ [] else []) ++ emit_skips ss

pub emit : Buffer → List Write → List Skip → List Effect
unfolding emit_writes emit_skips
emit b ws ss = emit_writes b ws ++ (if b.has_on_skip then emit_skips ss else [])
