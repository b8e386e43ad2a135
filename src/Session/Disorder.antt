-- ===== src/Session/Disorder.antt =====
-- internal/session/rtp_disorder.go: bad windows of the SIP video stream, and the containment that several of them in
-- a row start; with the deltas of internal/session/switch_recovery.go. Counters do not go below 0, and a configured
-- limit that is not positive is 0.
pub mod Windows
pub mod Tests
use webrtc_gateway.Base.{
  ℕ, Bool, if◌then◌else◌, none, some, ◌+◌, not, Option, ◌-◌, false, ltb, leb, ◌*◌, is_zero, second,
  true, ◌||◌, ◌&&◌,
}
use webrtc_gateway.Session.Normalizer.{positive}

-- VideoRecoverySummary
pub record Summary : Type 0 where
  pub packets : ℕ
  pub gaps : ℕ
  pub missing : ℕ
  pub out_of_order : ℕ
  pub duplicates : ℕ
  pub reorder_buffered : ℕ
  pub reorder_released : ℕ
  pub reorder_dropped : ℕ
  pub reorder_timed_out : ℕ
  pub reorder_pending : ℕ
  pub last_keyframe_age : ℕ

pub record Delta : Type 0 where
  pub delta_packets : ℕ
  pub delta_gaps : ℕ
  pub delta_missing : ℕ
  pub delta_out_of_order : ℕ
  pub delta_dropped : ℕ
  pub delta_timed_out : ℕ

-- switchRTPDelta; `-` stops at 0 as nonNegativeDeltaInt does.
unfoldable pub rtp_delta : Summary → Summary → Delta
rtp_delta current baseline = record {
  delta_packets = current.packets - baseline.packets;
  delta_gaps = current.gaps - baseline.gaps;
  delta_missing = current.missing - baseline.missing;
  delta_out_of_order = current.out_of_order - baseline.out_of_order;
  delta_dropped = current.reorder_dropped - baseline.reorder_dropped;
  delta_timed_out = current.reorder_timed_out - baseline.reorder_timed_out;
}

pub record Policy : Type 0 where
  pub min_packets : ℕ
  pub max_gaps : ℕ
  pub max_missing : ℕ
  pub max_out_of_order : ℕ
  pub max_timeouts : ℕ
  pub consecutive_windows : ℕ
  pub log_interval : ℕ
  pub containment_enabled : Bool
  pub containment_duration : ℕ

-- rtpDisorderPolicyLocked, of the configured values.
unfoldable pub policy_of : Policy → Policy
policy_of p = record p {
  min_packets = positive p.min_packets 300;
  max_gaps = positive p.max_gaps 45;
  max_missing = positive p.max_missing 80;
  max_out_of_order = positive p.max_out_of_order 80;
  max_timeouts = positive p.max_timeouts 20;
  consecutive_windows = positive p.consecutive_windows 3;
  log_interval = positive p.log_interval (5 * second);
  containment_duration = positive p.containment_duration (10 * second);
}

pub data Failure : Type 0 where
  gap_delta missing_delta ooo_delta reorder_timeout_delta : Failure

-- rtpDisorderFailure
unfoldable pub failure : Delta → Policy → Option Failure
failure d p =
    if ltb d.delta_packets p.min_packets
    then none
    else if ltb p.max_gaps d.delta_gaps
    then some gap_delta
    else if ltb p.max_missing d.delta_missing
    then some missing_delta
    else if ltb p.max_out_of_order d.delta_out_of_order
    then some ooo_delta
    else if ltb p.max_timeouts d.delta_timed_out
    then some reorder_timeout_delta
    else none

pub record Monitor : Type 0 where
  pub enabled : Bool
  pub configured : Policy
  pub last_summary : Summary
  pub last_at : Option ℕ
  pub consecutive_bad : ℕ
  pub last_log : Option ℕ
  pub contained_from : Option ℕ
  pub contained_until : Option ℕ
  pub contained_for : Option Failure

pub record Observation : Type 0 where
  pub bad_window : Bool
  pub sustained : Bool
  pub reason : Option Failure
  pub count_bad : ℕ
  pub containment_started : Bool
  pub containment_ended : Bool
  pub containment_active : Bool
  pub containment_reason : Option Failure

abbrev pub quiet : Observation
quiet = record {
  bad_window = false;
  sustained = false;
  reason = none;
  count_bad = 0;
  containment_started = false;
  containment_ended = false;
  containment_active = false;
  containment_reason = none;
}

-- `!t.IsZero() && now.After(t)`
abbrev pub is_over : ℕ → Option ℕ → Bool
is_over now none = false
is_over now (some t) = ltb t now

-- endRTPDisorderContainmentLocked
unfoldable pub end_containment : Monitor → Monitor
end_containment m = record m { contained_from = none; contained_until = none; contained_for = none }

-- startRTPDisorderContainmentLocked
unfoldable pub start_containment : ℕ → Failure → ℕ → Monitor → Monitor
start_containment now reason duration m = record m {
  contained_from = some now;
  contained_until = some (now + duration);
  contained_for = some reason;
}

unfoldable pub good_window : Monitor → Monitor × Observation
good_window m = (
  end_containment (record m { consecutive_bad = 0 }),
  record quiet { containment_ended = not (is_zero m.contained_until) },
)

unfoldable pub bad_window_of : Failure → Policy → ℕ → Monitor → Monitor × Observation
bad_window_of reason p now m =
    let over = is_over now m.contained_until in
    let counted = record (if over then end_containment m else m) {
      consecutive_bad = m.consecutive_bad + 1;
    } in
    let lasting = leb p.consecutive_windows counted.consecutive_bad in
    let logs : Bool = elim counted.last_log [
      | none ↦ true
      | some t ↦ leb p.log_interval (now - t)
    ] in
    let logged = if lasting && logs then record counted { last_log = some now } else counted in
    let starts =
      lasting
      && p.containment_enabled
      && (is_zero counted.contained_until || is_over now counted.contained_until) in
    (
      if starts then start_containment now reason p.containment_duration logged else logged,
      record {
        bad_window = true;
        sustained = lasting;
        reason = some reason;
        count_bad = counted.consecutive_bad;
        containment_started = starts;
        containment_ended = over;
        containment_active = starts || not (is_zero counted.contained_until);
        containment_reason = if starts then some reason else counted.contained_for;
      },
    )

abbrev pub keep_summary : Summary → ℕ → Monitor × Observation → Monitor × Observation
keep_summary s now (m, o) = (record m { last_summary = s; last_at = some now }, o)

-- ObserveSIPVideoRTPDisorder, whose observation leaves out the delta and the switch generation.
unfoldable pub observe : Summary → ℕ → Monitor → Monitor × Observation
observe s now m =
    let p = policy_of m.configured in
    if not m.enabled
    then (m, quiet)
    else if is_zero m.last_at
    then keep_summary s now (m, quiet)
    else elim (failure (rtp_delta s m.last_summary) p) [
      | none ↦ keep_summary s now (good_window m)
      | some reason ↦ keep_summary s now (bad_window_of reason p now m)
    ]
