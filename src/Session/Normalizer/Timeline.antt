-- ===== src/Session/Normalizer/Timeline.antt =====
-- The outbound numbering of internal/session/h264_access_unit_normalizer.go: mapTimestampLocked,
-- NumberAccessUnit and RewriteForReplay.
use Prim.Native.String.{◌++◌ as append, String}
use webrtc_gateway.Session.Normalizer.Nal.{first_mb}
use webrtc_gateway.Base.{
  ℕ, Bool, ◌==◌, if◌then◌else◌, List, leb, Option, ◌∷◌, u32, ◌||◌, sub32, true, none, false, u16,
  not, ◌+◌, ◌^◌, ◌-◌, ◌&&◌, some, ◌*◌, ltb, ◌%◌, ◌/◌, [], is_empty, length,
}
use webrtc_gateway.Session.Rtp.{Packet, Discontinuity, AccessUnit, SameTimestampSplit}
use webrtc_gateway.Session.Normalizer.{Normalizer}
use text.Mathlib.Text.{◌==◌ as str_eq}

abbrev pub max_timestamp_gap : ℕ
max_timestamp_gap = 900000

abbrev pub max_timestamp_step : ℕ
max_timestamp_step = 0x7fffffff

abbrev pub default_timestamp_step : ℕ
default_timestamp_step = 3000

-- `wallClockH264TimestampStep`: the product is an int64, and a negative one gives a step of 1.
unfoldable pub wall_clock_step : ℕ → ℕ → ℕ × ℕ
wall_clock_step last now =
    if leb now last
    then (1, 0)
    else let elapsed = now - last in
      let product = (elapsed * 90000) % 2 ^ 64 in
      let ticks = if leb (2 ^ 63) product then 0 else product / 1_000_000_000 in
      if ltb ticks 1
      then (1, elapsed)
      else if ltb max_timestamp_step ticks
      then (max_timestamp_step, elapsed)
      else (ticks, elapsed)

-- The difference is not positive as an int32, or is too large.
unfoldable pub source_broken : ℕ → Bool
source_broken delta = (delta == 0) || leb (2 ^ 31) delta || ltb max_timestamp_gap delta

pub record Mapped : Type 0 where
  pub state : Normalizer
  pub timestamp : ℕ
  pub discontinuity : Option Discontinuity
  pub reused : Bool

abbrev pub gap_reason : Bool → Bool → String → String
gap_reason switched broken pending =
    if not switched
    then "source-gap"
    else let reason = if str_eq pending "" then "switch" else pending in
      if broken then append reason "+source-gap" else reason

unfoldable pub first_output : ℕ → ℕ → ℕ → Normalizer → Mapped
first_output source seq now n = record {
  state = record n {
    have_output = true;
    next_seq = seq;
    output_ts = source;
    last_source_ts = source;
    last_output_at = now;
    step_after_switch = false;
    pending_switch_reason = "";
    replay_after_output = false;
  };
  timestamp = source;
  discontinuity = none;
  reused = false;
}

unfoldable pub reuse_output : ℕ → Normalizer → Mapped
reuse_output now n = record {
  state = record n { last_output_at = now };
  timestamp = n.output_ts;
  discontinuity = none;
  reused = true;
}

unfoldable pub follow_source : ℕ → ℕ → Normalizer → Mapped
follow_source source now n =
    let out = u32 (n.output_ts + sub32 source n.last_source_ts) in
    record {
      state = record n {
        output_ts = out;
        last_source_ts = source;
        last_output_at = now;
        replay_after_output = false;
      };
      timestamp = out;
      discontinuity = none;
      reused = false;
    }

unfoldable pub step_by_wall : ℕ → ℕ → Normalizer → Mapped
step_by_wall source now n =
    let (ticks, wall) = wall_clock_step n.last_output_at now in
    let out = u32 (n.output_ts + ticks) in
    let broken = source_broken (sub32 source n.last_source_ts) in
    record {
      state = record n {
        output_ts = out;
        last_source_ts = source;
        last_output_at = now;
        replay_after_output = false;
        step_after_switch = false;
        pending_switch_reason = "";
      };
      timestamp = out;
      discontinuity = some (record {
        reason = gap_reason n.step_after_switch broken n.pending_switch_reason;
        incoming = source;
        previous_incoming = n.last_source_ts;
        outgoing = out;
        previous_outgoing = n.output_ts;
        wall = wall;
      });
      reused = false;
    }

-- mapTimestampLocked
unfoldable pub map_timestamp : ℕ → ℕ → ℕ → Normalizer → Mapped
map_timestamp source seq now n =
    let delta = sub32 source n.last_source_ts in
    if not n.have_output
    then first_output source seq now n
    else if (delta == 0)
        && not n.step_after_switch
        && not n.replay_after_output
        && n.config.reuse_same_source_timestamp
    then reuse_output now n
    else if not n.step_after_switch && not (source_broken delta)
    then follow_source source now n
    else step_by_wall source now n

abbrev pub first_seq : List Packet → ℕ
first_seq [] = 0
first_seq (p ∷ ps) = p.sequence_number

-- applyOutboundRTPLocked on packets, from a sequence number.
unfoldable pub stamp : ℕ → ℕ → List Packet → List Packet
stamp seq ts [] = []
stamp seq ts (p ∷ ps) =
    record p { sequence_number = seq; timestamp = ts } ∷ stamp (u16 (seq + 1)) ts ps

unfoldable pub next_after : ℕ → List Packet → ℕ
next_after seq [] = seq
next_after seq (p ∷ ps) = next_after (u16 (seq + 1)) ps

-- What NumberAccessUnit does with a mapped timestamp.
unfoldable pub number_with : Mapped → AccessUnit → ℕ → Normalizer → Normalizer × AccessUnit
number_with m au now n =
    let splits = if m.reused then n.same_ts_splits + 1 else n.same_ts_splits in
    let split : SameTimestampSplit = record {
      incoming = au.source_timestamp;
      outgoing = m.timestamp;
      count = splits;
      wall = now - n.last_output_at;
      first_mb = first_mb au.packets;
      packets = length au.packets;
      previous_packets = n.last_au_packets;
    } in
    (
      record m.state {
        same_ts_splits = splits;
        last_au_packets = length au.packets;
        next_seq = next_after m.state.next_seq au.packets;
        force_prefix_remaining =
            if au.injected_parameter_sets
            then n.force_prefix_remaining - 1
            else n.force_prefix_remaining;
        emitted = n.emitted + 1;
      },
      record au {
        packets = stamp m.state.next_seq m.timestamp au.packets;
        discontinuity = m.discontinuity;
        same_timestamp_split = if m.reused then some split else au.same_timestamp_split;
      },
    )

-- NumberAccessUnit
unfoldable pub number : AccessUnit → ℕ → Normalizer → Normalizer × AccessUnit
number au now n =
    if is_empty au.packets
    then (n, au)
    else number_with (map_timestamp au.source_timestamp (first_seq au.packets) now n) au now n

-- The marker stands on the last packet alone.
unfoldable pub mark_last : List Packet → List Packet
mark_last [] = []
mark_last (p ∷ ps) = record p { marker = is_empty ps } ∷ mark_last ps

-- The numbering of a replay, before its packets are stamped.
unfoldable pub replay_base : ℕ → ℕ → ℕ → Normalizer → Normalizer
replay_base source seq now n =
    let m = map_timestamp source seq now n in
    if not n.have_output
    then record m.state { output_ts = m.timestamp; replay_after_output = true }
    else record n {
      output_ts = u32 (n.output_ts + default_timestamp_step);
      last_output_at = now;
      replay_after_output = true;
    }

-- RewriteForReplay
unfoldable pub rewrite_for_replay : List Packet → ℕ → Normalizer → Normalizer × List Packet
rewrite_for_replay [] now n = (n, [])
rewrite_for_replay (p ∷ ps) now n =
    let base = replay_base p.timestamp p.sequence_number now n in
    (
      record base { next_seq = next_after base.next_seq (p ∷ ps) },
      stamp base.next_seq base.output_ts (mark_last (p ∷ ps)),
    )
