-- ===== src/Session/Gate/Calls.antt =====
-- internal/session/switch_video_gate.go: the gate that holds SIP video after an @switch until a
-- complete IDR of the new generation is written. Generations count up from 0, durations and times
-- are nanoseconds, and a configured duration that is not positive is 0.
use Prim.Native.String.{String}
use text.Mathlib.Text.{◌==◌ as str_eq}
use webrtc_gateway.Base.{
  ℕ, ◌+◌, ◌-◌, ◌^◌, Bool, true, false, not, ◌&&◌, ◌||◌, Option, none, some, List, [], ◌∷◌, ltb, leb,
  ◌==◌, ◌!=◌, if◌then◌else◌, length,
}
use webrtc_gateway.Session.Rtp.{AccessUnit, Packet}
use webrtc_gateway.Session.Gate.{
  Gate, Reason, blackout_hold, renegotiate_pending, release_in_progress, stale_generation, non_idr,
  parameter_sets_not_ready, undersized_idr, reservation_exhausted, stale_accepted_generation,
  inactive, complete_idr_reserved, elapsed, stall_threshold, reject_log_interval, clear_gate,
  clear_reservation, clear_idr_cache, min_packets, discontinuity_fresh, current_source, note_opened,
  opened_matches, holds_for_renegotiation, soften_recovery,
}
use webrtc_gateway.Session.Gate.Hold.{blocks_release, stop_hold}

pub record Decision : Type 0 where
  pub emit : Bool
  pub reason : Reason
  pub generation : ℕ
  pub reservation : ℕ

-- The cases of the `switch` in order: the first that applies.
unfoldable pub reject_reason : AccessUnit → ℕ → Gate → Option Reason
unfolding min_packets holds_for_renegotiation
reject_reason au now g =
    if blocks_release now g
    then some blackout_hold
    else if holds_for_renegotiation g
    then some renegotiate_pending
    else if g.releasing
    then some release_in_progress
    else if au.generation != g.generation
    then some stale_generation
    else if not au.is_idr
    then some non_idr
    else if not au.parameter_sets_ready
    then some parameter_sets_not_ready
    else if ltb (length au.packets) (min_packets g)
        && ltb (elapsed g.started_at now) stall_threshold
    then some undersized_idr
    else if g.lease_nonce == 2 ^ 64 - 1
    then some reservation_exhausted
    else none

unfoldable pub reject : Reason → ℕ → Gate → Gate
reject r now g =
    let log : Bool = elim g.last_reject_log [
      | none ↦ true
      | some t ↦ ltb now t || leb reject_log_interval (now - t)
    ] in
    record g {
      rejected = g.rejected + 1;
      last_reject = some r;
      last_reject_log = if log then some now else g.last_reject_log;
    }

abbrev pub first_ssrc : List Packet → ℕ
first_ssrc [] = 0
first_ssrc (p ∷ ps) = p.ssrc

unfoldable pub reserve : AccessUnit → Gate → Gate
reserve au g = record g {
  releasing = true;
  lease_nonce = g.lease_nonce + 1;
  reservation = g.lease_nonce + 1;
  reserved_packets = length au.packets;
  reserved_ssrc = first_ssrc au.packets;
  reserved_injection = au.injected_parameter_sets;
}

unfoldable pub evaluate_inactive : AccessUnit → Gate → Decision
evaluate_inactive au g =
    if ltb au.generation g.accepted
    then record {
      emit = false;
      reason = stale_accepted_generation;
      generation = g.accepted;
      reservation = 0;
    }
    else record { emit = true; reason = inactive; generation = au.generation; reservation = 0 }

unfoldable pub evaluate_active : AccessUnit → ℕ → Gate → Gate × Decision
unfolding reject_reason reject reserve
evaluate_active au now g = elim (reject_reason au now g) [
  | some r ↦ (
    reject r now g,
    record { emit = false; reason = r; generation = g.generation; reservation = 0 },
  )
  | none ↦ (
    reserve au g,
    record {
      emit = true;
      reason = complete_idr_reserved;
      generation = g.generation;
      reservation = g.lease_nonce + 1;
    },
  )
]

-- EvaluateSwitchVideoAccessUnit
unfoldable pub evaluate : AccessUnit → ℕ → Gate → Gate × Decision
unfolding evaluate_inactive evaluate_active
evaluate au now g = if not g.active then (g, evaluate_inactive au g) else evaluate_active au now g

unfoldable pub holds_lease : ℕ → ℕ → Gate → Bool
holds_lease generation reservation g =
    g.active
    && g.releasing
    && (g.generation == generation)
    && (reservation != 0)
    && (g.reservation == reservation)

abbrev pub raise_accepted : ℕ → Gate → Gate
raise_accepted generation g = record g {
  accepted = if ltb g.accepted generation then generation else g.accepted;
}

-- CommitSwitchVideoGateRelease
unfoldable pub commit : ℕ → ℕ → ℕ → Gate → Gate × Bool
unfolding holds_lease note_opened soften_recovery clear_gate stop_hold
commit generation reservation now g =
    if not (holds_lease generation reservation g) then (g, false) else (
      stop_hold (
          clear_gate
            (soften_recovery now (note_opened g.remote_ssrc now (raise_accepted generation g)))),
      true,
    )

-- AbortSwitchVideoGateRelease
unfoldable pub abort : ℕ → ℕ → Gate → Gate × Bool
unfolding holds_lease clear_reservation
abort generation reservation g =
    if not (holds_lease generation reservation g)
    then (g, false)
    else (clear_reservation (record g { releasing = false }), true)

pub data Activation : Type 0 where
  disabled satisfied same_stream unchanged : Activation
  non_authoritative stale_accepted stale_active : Activation
  already_active newly_active : Activation

unfoldable pub open_gate : ℕ → ℕ → String → Gate → Gate
unfolding clear_idr_cache clear_gate
open_gate generation now reason g = record (clear_idr_cache (clear_gate g)) {
  require_healthy_idr = true;
  healthy_idr = false;
  active = true;
  generation = generation;
  started_at = some now;
  start_reason = reason;
  feedback_baseline = g.pli_sent;
}

-- startSwitchVideoGateLocked
unfoldable pub start_gate : ℕ → ℕ → String → Gate → Gate × Activation
unfolding open_gate clear_gate opened_matches current_source discontinuity_fresh
start_gate generation now reason g =
    let by_agent = str_eq reason "agent-switch" in
    if not g.normalize
    then (clear_gate g, disabled)
    else if generation != g.switch_generation
    then (g, non_authoritative)
    else if ltb generation g.accepted
    then (g, stale_accepted)
    else if g.active && ltb generation g.generation
    then (g, stale_active)
    else if g.active && (generation == g.generation)
    then (g, already_active)
    else if by_agent && opened_matches g.remote_ssrc (current_source g) g
    then (g, same_stream)
    else if by_agent && discontinuity_fresh g now
    then (clear_gate (record (raise_accepted generation g) { discontinuity_at = none }), satisfied)
    else (open_gate generation now reason g, newly_active)
