-- ===== src/Session/Gate/Watch.antt =====
-- What internal/session/switch_video_gate.go does with a gate while it waits: the delayed PLI, the stop, the opening that
-- fails open, and the report of a stall.
use webrtc_gateway.Base.{
  ℕ, ◌+◌, ◌-◌, ◌*◌, Bool, true, false, not, ◌&&◌, ◌||◌, Option, none, some, ltb, leb, ◌==◌, ◌!=◌,
  if◌then◌else◌, is_within, second, millisecond,
}
use webrtc_gateway.Session.Gate.{
  Gate, elapsed, stall_threshold, stall_interval, retry_pli_delay, pli_force_min_interval,
  clear_gate, reset_gate, current_source, opened_matches,
}
use webrtc_gateway.Session.Gate.Hold.{stop_hold}
use webrtc_gateway.Session.Gate.Calls.{raise_accepted}

abbrev pub throttle : ℕ → Option ℕ → ℕ
throttle now none = 0
throttle now (some last) =
    let next = last + pli_force_min_interval in if ltb now next then next - now + millisecond else 0

-- scheduleUndersizedIDRPLI: one delayed PLI for each generation.
unfoldable pub schedule_pli : ℕ → ℕ → Gate → Gate × Option ℕ
schedule_pli generation now g =
    if not g.active || g.releasing || (g.generation != generation)
    then (g, none)
    else if g.pli_scheduled && (g.pli_generation == generation)
    then (g, none)
    else let wait = throttle now g.last_sip_pli in
      (
        record g { pli_scheduled = true; pli_generation = generation },
        some (if ltb retry_pli_delay wait then wait else retry_pli_delay),
      )

-- sendScheduledUndersizedIDRPLI: the token for which a PLI is sent, if one is.
pub send_scheduled_pli : Bool → ℕ → Gate → Option (ℕ × ℕ)
send_scheduled_pli ended generation g =
    if not g.active || g.releasing || (g.generation != generation)
    then none
    else if ended
    then none
    else some (generation, g.media_epoch)

-- ClearSwitchVideoGateStillEmitted
unfoldable pub clear_still_emitted : Gate → Gate
clear_still_emitted g = record g { still_emitted = false }

-- StopSwitchVideoGate
unfoldable pub stop_gate : ℕ → Gate → Gate × Bool
unfolding clear_gate
stop_gate generation g =
    if not g.active || (g.generation != generation) then (g, false) else (clear_gate g, true)

-- ForceStopSwitchVideoGate
pub force_stop : Gate → Gate
unfolding reset_gate
force_stop g = reset_gate g

abbrev pub same_limit : Gate → ℕ
same_limit g = if g.fail_open == 0 then 3 * second else g.fail_open

abbrev pub cap_limit : Gate → ℕ
cap_limit g =
    let cap = if g.fail_open_cap == 0 then 5 * second else g.fail_open_cap in
    if ltb cap (same_limit g) then same_limit g else cap

pub data Opening : Type 0 where
  healthy_same_stream stall_cap : Opening

unfoldable pub opening : Bool → ℕ → Gate → Option Opening
unfolding opened_matches current_source
opening healthy now g =
    let held = elapsed g.started_at now in
    if opened_matches g.remote_ssrc (current_source g) g && healthy && leb (same_limit g) held
    then some healthy_same_stream
    else if leb (cap_limit g) held
    then some stall_cap
    else none

-- MaybeFailOpenSwitchVideoGate
unfoldable pub maybe_fail_open : Bool → ℕ → Gate → Gate × Option Opening
unfolding opening clear_gate stop_hold
maybe_fail_open healthy now g = if not g.active then (g, none) else elim (opening healthy now g) [
  | none ↦ (g, none)
  | some r ↦ (stop_hold (clear_gate (raise_accepted g.generation g)), some r)
]

-- ObserveSwitchVideoGateStall: at most one report in two seconds.
unfoldable pub observe_stall : ℕ → Gate → Gate × Bool
observe_stall now g =
    if not g.active
    then (g, false)
    else if ltb (elapsed g.started_at now) stall_threshold
    then (g, false)
    else if is_within g.last_stall_log now stall_interval
    then (g, false)
    else (record g { last_stall_log = some now }, true)
