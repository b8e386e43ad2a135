-- ===== src/Session/Reorder.antt =====
-- internal/session/reorder_buffer.go: the window that puts SIP video packets back in order.
-- The map of packets is an association list; its iteration order is that of the list. The write
-- and skip callbacks are the lists that a call returns. Counters do not wrap.
pub mod Window
pub mod Passes
pub mod Counting
pub mod Calls
pub mod Advance
use webrtc_gateway.Base.{
  ℕ, zero, suc, ◌+◌, ◌^◌, Bool, true, false, none, some, List, [], ◌∷◌, ltb, ◌==◌, if◌then◌else◌,
  length, is_empty, u16, sub16,
}
use Window.{Entry, Packets, lookup, delete}

abbrev pub window_size : ℕ
window_size = 64

pub record Write : Type 0 where
  pub payload : List ℕ
  pub is_keyframe : Bool
  pub paced : Bool

pub record Skip : Type 0 where
  pub count : ℕ
  pub from_seq : ℕ
  pub to_seq : ℕ

-- `b.timer`: nil, running, or run out (still not nil).
pub data Timer : Type 0 where
  stopped armed fired : Timer

pub record Buffer : Type 0 where
  pub packets : Packets
  pub next_seq : ℕ
  pub has_base : Bool
  pub has_write_fn : Bool
  pub has_on_skip : Bool
  pub pace : ℕ
  pub timer : Timer
  pub closed : Bool
  pub buffered : ℕ
  pub released : ℕ
  pub dropped_old : ℕ
  pub timed_out : ℕ
  pub skip_events : ℕ

-- A call returns the new buffer with what it hands to `emit`.
pub record Outcome : Type 0 where
  pub buffer : Buffer
  pub writes : List Write
  pub skips : List Skip

pub new_buffer : Bool → Buffer
new_buffer has_write_fn = record {
  packets = [];
  next_seq = 0;
  has_base = false;
  has_write_fn = has_write_fn;
  has_on_skip = false;
  pace = 0;
  timer = stopped;
  closed = false;
  buffered = 0;
  released = 0;
  dropped_old = 0;
  timed_out = 0;
  skip_events = 0;
}

pub to_write : Bool → Entry → Write
to_write paced e = record { payload = e.payload; is_keyframe = e.is_keyframe; paced = paced }

-- What a flush loop leaves behind.
pub record Flush : Type 0 where
  pub left : Packets
  pub next : ℕ
  pub out : List Write
  pub skipped : ℕ

-- `for { entry, ok := b.packets[b.nextSeq]; if !ok { break } … }`: each round removes a packet.
pub flush_loop : ℕ → Packets → ℕ → Flush
unfolding to_write
flush_loop zero m s = record { left = m; next = s; out = []; skipped = 0 }
flush_loop (suc fuel) m s = elim (lookup s m) [
  | none ↦ record { left = m; next = s; out = []; skipped = 0 }
  | some e ↦
      let rest = flush_loop fuel (delete s m) (u16 (s + 1)) in
      record rest { out = to_write true e ∷ rest.out }
]

-- `for b.nextSeq != target`: there are fewer than 2¹⁶ rounds.
pub force_loop : ℕ → ℕ → Packets → ℕ → Flush
unfolding to_write
force_loop zero target m s = record { left = m; next = s; out = []; skipped = 0 }
force_loop (suc fuel) target m s = elim (s == target) [
  | true ↦ record { left = m; next = s; out = []; skipped = 0 }
  | false ↦ elim (lookup s m) [
    | none ↦
        let rest = force_loop fuel target m (u16 (s + 1)) in
        record rest { skipped = rest.skipped + 1 }
    | some e ↦
        let rest = force_loop fuel target (delete s m) (u16 (s + 1)) in
        record rest { out = to_write true e ∷ rest.out }
  ]
]

abbrev pub stop_if_empty : Packets → Timer → Timer
stop_if_empty m t = if is_empty m then stopped else t

pub flush_consecutive : Buffer → Outcome
flush_consecutive b =
    let f = flush_loop (length b.packets) b.packets b.next_seq in
    record {
      buffer = record b {
        packets = f.left;
        next_seq = f.next;
        timer = stop_if_empty f.left b.timer;
        released = b.released + length f.out;
      };
      writes = f.out;
      skips = [];
    }

pub force_flush_to : ℕ → Buffer → Outcome
force_flush_to target b =
    let f = force_loop (2 ^ 16) target b.packets b.next_seq in
    let gap = ltb 0 f.skipped in
    record {
      buffer = record b {
        packets = f.left;
        next_seq = f.next;
        released = b.released + length f.out;
        timed_out = b.timed_out + f.skipped;
        skip_events = if gap then b.skip_events + 1 else b.skip_events;
      };
      writes = f.out;
      skips =
          if gap
          then record { count = f.skipped; from_seq = b.next_seq; to_seq = sub16 target 1 } ∷ []
          else [];
    }
