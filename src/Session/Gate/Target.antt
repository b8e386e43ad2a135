-- ===== src/Session/Gate/Target.antt =====
-- internal/session/switch_target.go: whether an @switch message is a duplicate, and what a new
-- target does to the gate.
use Prim.Native.String.{String}
use text.Mathlib.Text.{◌==◌ as str_eq}
use webrtc_gateway.Base.{
  ℕ, ◌+◌, ◌*◌, Bool, true, false, not, ◌&&◌, Option, none, some, ◌==◌, if◌then◌else◌, is_zero,
  is_within, second,
}
use webrtc_gateway.Session.Gate.{Gate, current_source, opened_matches}
use webrtc_gateway.Session.Gate.Calls.{Activation, unchanged, same_stream, newly_active, start_gate}
use webrtc_gateway.Session.Gate.Watch.{schedule_pli}

pub data TargetReason : Type 0 where
  duplicate_target already_satisfied new_target media_generation_changed : TargetReason
  debounce_window_expired debounce_disabled : TargetReason

pub record TargetDecision : Type 0 where
  pub ignore : Bool
  pub reason : TargetReason
  pub generation : ℕ
  pub media_epoch : ℕ
  pub queue : String
  pub agent : String
  pub media_ssrc : ℕ
  pub media_source : String
  pub duplicate_count : ℕ
  pub debounce_window : ℕ
  pub previous_at : Option ℕ

-- An @switch message as its handler reads it; a debounce window that is not positive is 0.
pub record SwitchMessage : Type 0 where
  pub queue : String
  pub agent : String
  pub window : ℕ
  pub debounce : Bool

abbrev pub debounce_window : SwitchMessage → ℕ
debounce_window m = if m.window == 0 then 60 * second else m.window

unfoldable pub same_target : SwitchMessage → Gate → Bool
same_target m g = str_eq g.target_queue m.queue && str_eq g.target_agent m.agent

unfoldable pub within_debounce : SwitchMessage → ℕ → Gate → Bool
unfolding same_target
within_debounce m now g =
    m.debounce && same_target m g && is_within g.target_at now (debounce_window m)

unfoldable pub same_media : Gate → Bool
unfolding current_source
same_media g = (g.media_ssrc == g.remote_ssrc) && str_eq g.media_source (current_source g)

pub target_reason : SwitchMessage → ℕ → Gate → TargetReason
unfolding same_target within_debounce same_media
target_reason m now g =
    if same_target m g && within_debounce m now g && not (same_media g)
    then media_generation_changed
    else if same_target m g && not (is_zero g.target_at) && m.debounce
    then debounce_window_expired
    else if not m.debounce && same_target m g
    then debounce_disabled
    else new_target

-- The message becomes the current target.
unfoldable pub take_target : SwitchMessage → ℕ → Gate → Gate
unfolding current_source
take_target m now g = record g {
  target_queue = m.queue;
  target_agent = m.agent;
  target_at = some now;
  media_ssrc = g.remote_ssrc;
  media_source = current_source g;
  duplicates = 0;
}

unfoldable pub decide : SwitchMessage → Bool → TargetReason → ℕ → ℕ → Gate → TargetDecision
unfolding current_source
decide m ignore reason generation duplicates g = record {
  ignore = ignore;
  reason = reason;
  generation = generation;
  media_epoch = g.media_epoch;
  queue = m.queue;
  agent = m.agent;
  media_ssrc = g.remote_ssrc;
  media_source = current_source g;
  duplicate_count = duplicates;
  debounce_window = debounce_window m;
  previous_at = g.target_at;
}

pub record TargetOutcome : Type 0 where
  pub gate : Gate
  pub decision : TargetDecision
  pub activation : Activation

unfoldable pub ignore_target : SwitchMessage → Gate → TargetOutcome
unfolding decide
ignore_target m g = record {
  gate = record g { duplicates = g.duplicates + 1 };
  decision = decide m true duplicate_target g.switch_generation (g.duplicates + 1) g;
  activation = unchanged;
}

unfoldable pub keep_stream : SwitchMessage → ℕ → Gate → TargetOutcome
unfolding decide take_target
keep_stream m now g = record {
  gate = take_target m now g;
  decision = decide m false already_satisfied g.switch_generation 0 g;
  activation = same_stream;
}

-- The message opens the next generation.
unfoldable pub next_target : SwitchMessage → ℕ → Gate → Gate
unfolding take_target
next_target m now g = record (take_target m now g) {
  switch_generation = g.switch_generation + 1;
  parameter_sets = false;
}

-- The next generation, published together with its gate.
unfoldable pub accept_target : SwitchMessage → ℕ → Gate → TargetOutcome
unfolding decide target_reason
accept_target m now g =
    let next = g.switch_generation + 1 in
    let started = start_gate next now "agent-switch" (next_target m now g) in
    record {
      gate = started.0;
      decision = decide m false (target_reason m now g) next 0 g;
      activation = started.1;
    }

-- The part of PrepareAndActivateSwitchVideoTarget under the session lock.
unfoldable pub activate_target : SwitchMessage → ℕ → Gate → TargetOutcome
unfolding within_debounce same_media opened_matches current_source
activate_target m now g =
    if within_debounce m now g && same_media g
    then ignore_target m g
    else if opened_matches g.remote_ssrc (current_source g) g
    then keep_stream m now g
    else accept_target m now g

-- PrepareAndActivateSwitchVideoTarget, with the delay of the PLI that it schedules.
unfoldable pub prepare_and_activate : SwitchMessage → ℕ → Gate → TargetOutcome × Option ℕ
prepare_and_activate m now g =
    let o = activate_target m now g in
    elim o.activation [
      | newly_active ↦
          let (g', delay) = schedule_pli o.decision.generation now o.gate in
          (record o { gate = g' }, delay)
      | _ ↦ (o, none)
    ]
