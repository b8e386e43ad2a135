-- ===== src/Session/Normalizer.antt =====
-- internal/session/h264_access_unit_normalizer.go: the state of the normalizer, which gathers the
-- packets of one access unit and numbers the units that go out. Every method holds its lock; the
-- callback of Push is the unit that push returns. A cloned packet is equal to the packet.
pub mod Nal
pub mod Assemble
pub mod Timeline
pub mod Numbering
pub mod Continuity
pub mod Complete
pub mod Emission
pub mod History
pub mod Caches
pub mod Decodable
pub mod Idr
pub mod Ready
pub mod Tests
use webrtc_gateway.Base.{
  ℕ, ◌*◌, ◌^◌, Bool, false, Option, none, List, [], millisecond, if◌then◌else◌, ◌==◌, not, ◌+◌,
  true,
}
use webrtc_gateway.Session.Rtp.{Packet}
use Prim.Native.String.{String}
use text.Mathlib.Text.{◌==◌ as str_eq}

-- A limit that is not positive is 0.
pub record Config : Type 0 where
  pub max_packets : ℕ
  pub max_bytes : ℕ
  pub max_age : ℕ
  pub reuse_same_source_timestamp : Bool

pub record Normalizer : Type 0 where
  pub config : Config
  -- the access unit that is being gathered
  pub have_au : Bool
  pub source_ts : ℕ
  pub started_at : ℕ
  pub packets : List Packet
  pub bytes : ℕ
  pub invalid : Bool
  pub overflow : Bool
  pub have_last_seq : Bool
  pub last_seq : ℕ
  pub fu_open : Bool
  pub fu_nal_type : ℕ
  -- the outbound numbering
  pub have_output : Bool
  pub next_seq : ℕ
  pub output_ts : ℕ
  pub last_source_ts : ℕ
  pub last_output_at : ℕ
  pub step_after_switch : Bool
  pub pending_switch_reason : String
  pub replay_after_output : Bool
  pub last_au_packets : ℕ
  pub same_ts_splits : ℕ
  -- the parameter sets and the counters
  pub cached_sps : List ℕ
  pub cached_pps : List ℕ
  pub generation : ℕ
  pub force_prefix_remaining : ℕ
  pub dropped_incomplete : ℕ
  pub dropped_overflow : ℕ
  pub emitted : ℕ

abbrev pub default_max_packets : ℕ
default_max_packets = 2048

abbrev pub default_max_bytes : ℕ
default_max_bytes = 4 * 1024 * 1024

abbrev pub default_max_age : ℕ
default_max_age = 500 * millisecond

abbrev pub positive : ℕ → ℕ → ℕ
positive value fallback = if value == 0 then fallback else value

pub new_normalizer : Config → Normalizer
new_normalizer c = record {
  config = record c {
    max_packets = positive c.max_packets default_max_packets;
    max_bytes = positive c.max_bytes default_max_bytes;
    max_age = positive c.max_age default_max_age;
  };
  have_au = false;
  source_ts = 0;
  started_at = 0;
  packets = [];
  bytes = 0;
  invalid = false;
  overflow = false;
  have_last_seq = false;
  last_seq = 0;
  fu_open = false;
  fu_nal_type = 0;
  have_output = false;
  next_seq = 0;
  output_ts = 0;
  last_source_ts = 0;
  last_output_at = 0;
  step_after_switch = false;
  pending_switch_reason = "";
  replay_after_output = false;
  last_au_packets = 0;
  same_ts_splits = 0;
  cached_sps = [];
  cached_pps = [];
  generation = 0;
  force_prefix_remaining = 0;
  dropped_incomplete = 0;
  dropped_overflow = 0;
  emitted = 0;
}

-- resetCurrentLocked
unfoldable pub reset_current : Normalizer → Normalizer
reset_current n = record n {
  have_au = false;
  packets = [];
  bytes = 0;
  invalid = false;
  overflow = false;
  have_last_seq = false;
  fu_open = false;
  fu_nal_type = 0;
}

-- dropCurrentLocked
unfoldable pub drop_current : Bool → Normalizer → Normalizer
unfolding reset_current
drop_current over n =
    let counted =
      if not n.have_au
      then n
      else if over
      then record n { dropped_overflow = n.dropped_overflow + 1 }
      else record n { dropped_incomplete = n.dropped_incomplete + 1 } in
    reset_current counted

-- Drain and ResetSource
unfoldable pub reset_source : Normalizer → Normalizer
reset_source n = drop_current false n

-- ResetForStreamSwitch; ResetForSwitch gives the reason "switch".
unfoldable pub reset_for_switch : ℕ → String → Normalizer → Normalizer
reset_for_switch generation reason n = record (drop_current false n) {
  cached_sps = [];
  cached_pps = [];
  generation = generation;
  step_after_switch = true;
  pending_switch_reason = if str_eq reason "" then "switch" else reason;
  force_prefix_remaining = 1;
}
