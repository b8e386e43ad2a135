-- ===== src/Session/Rebase.antt =====
-- internal/session/uplink_video_ts_rebase.go: the browser's video timestamps on the timeline toward SIP.
pub mod Order
pub mod Tests
use Prim.Native.String.{String}
use webrtc_gateway.Base.{
  ℕ, Bool, sub32, if◌then◌else◌, true, ltb, Option, u32, ◌+◌, ◌==◌, not, ◌^◌, none, some, ◌!=◌,
  false, ◌&&◌, leb,
}
use webrtc_gateway.Session.Normalizer.Timeline.{wall_clock_step, max_timestamp_gap}

abbrev pub default_base : ℕ
default_base = 5400000

abbrev pub reorder_window : ℕ
reorder_window = 90000

pub record Rebaser : Type 0 where
  pub started : Bool
  pub base : ℕ
  pub ssrc : ℕ
  pub last_in : ℕ
  pub last_out : ℕ
  pub last_at : ℕ
  pub discs : ℕ

pub record Rebase : Type 0 where
  pub reason : String
  pub prev_in : ℕ
  pub in_ts : ℕ
  pub prev_out : ℕ
  pub out : ℕ
  pub prev_ssrc : ℕ
  pub new_ssrc : ℕ
  pub wall : ℕ
  pub count : ℕ
  pub started_this_call : Bool

pub record Rebased : Type 0 where
  pub state : Rebaser
  pub timestamp : ℕ
  pub event : Option Rebase

abbrev pub is_ahead : ℕ → Bool
is_ahead delta = ltb delta (2 ^ 31)

pub first_packet : ℕ → ℕ → ℕ → Rebaser → Rebased
first_packet ts ssrc now r = record {
  state = record r { started = true; ssrc = ssrc; last_in = ts; last_out = r.base; last_at = now };
  timestamp = r.base;
  event = some (record {
    reason = "start";
    prev_in = 0;
    in_ts = ts;
    prev_out = 0;
    out = r.base;
    prev_ssrc = 0;
    new_ssrc = ssrc;
    wall = 0;
    count = 0;
    started_this_call = true;
  });
}

pub follow_browser : ℕ → ℕ → Rebaser → Rebased
follow_browser ts now r =
    let out = u32 (r.last_out + sub32 ts r.last_in) in
    record {
      state = record r { last_in = ts; last_out = out; last_at = now };
      timestamp = out;
      event = none;
    }

-- A late packet of an earlier frame leaves the timeline as it is.
pub late_packet : ℕ → Rebaser → Rebased
late_packet ts r = record {
  state = r;
  timestamp = sub32 r.last_out (sub32 r.last_in ts);
  event = none;
}

abbrev pub jump_reason : ℕ → ℕ → Rebaser → String
jump_reason ts ssrc r =
    if ssrc != r.ssrc
    then "ssrc-change"
    else if not (is_ahead (sub32 ts r.last_in))
    then "ts-backward"
    else "ts-jump"

pub jump : ℕ → ℕ → ℕ → Rebaser → Rebased
jump ts ssrc now r =
    let (step, wall) = wall_clock_step r.last_at now in
    let out = u32 (r.last_out + step) in
    record {
      state = record r {
        ssrc = ssrc;
        last_in = ts;
        last_out = out;
        last_at = now;
        discs = r.discs + 1;
      };
      timestamp = out;
      event = some (record {
        reason = jump_reason ts ssrc r;
        prev_in = r.last_in;
        in_ts = ts;
        prev_out = r.last_out;
        out = out;
        prev_ssrc = r.ssrc;
        new_ssrc = ssrc;
        wall = wall;
        count = r.discs + 1;
        started_this_call = false;
      });
    }

-- mapTS
pub map_ts : ℕ → ℕ → ℕ → Rebaser → Rebased
unfolding first_packet follow_browser late_packet jump
map_ts ts ssrc now r =
    let delta = sub32 ts r.last_in in
    if not r.started
    then first_packet ts ssrc now r
    else if (ssrc == r.ssrc) && is_ahead delta && leb delta max_timestamp_gap
    then follow_browser ts now r
    else if (ssrc == r.ssrc) && not (is_ahead delta) && leb (sub32 r.last_in ts) reorder_window
    then late_packet ts r
    else jump ts ssrc now r

-- uplinkVideoOutboundTSLocked: whether the rebase is on, and the configured base, 0 for none.
pub outbound_ts : Bool → ℕ → ℕ → ℕ → ℕ → Rebaser → Rebaser × ℕ
unfolding map_ts
outbound_ts on configured ts ssrc now r =
    let base = if configured == 0 then default_base else configured in
    let based = if r.started then r else record r { base = base } in
    let m = map_ts ts ssrc now based in if not on then (r, ts) else (m.state, m.timestamp)
