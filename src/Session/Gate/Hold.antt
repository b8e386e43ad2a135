-- ===== src/Session/Gate/Hold.antt =====
-- internal/session/switch_blackout.go: the hold that drops video after an @switch until a keyframe
-- comes or a time limit passes.
use webrtc_gateway.Base.{
  ℕ, ◌+◌, ◌*◌, Bool, true, false, not, ◌&&◌, ◌||◌, none, some, ltb, ◌==◌, if◌then◌else◌, is_zero,
  is_before, millisecond, Option,
}
use webrtc_gateway.Session.Gate.{Gate, Mode, blackout, preserve, unset, Token, is_authority}

unfoldable pub normalize_mode : Mode → Mode
normalize_mode blackout = blackout
normalize_mode preserve = preserve
normalize_mode unset = blackout

abbrev pub is_blackout : Mode → Bool
is_blackout blackout = true
is_blackout _ = false

-- Without a token no authority is required.
unfoldable pub start_hold : Bool → Option Token → Mode → ℕ → ℕ → ℕ → Gate → Gate × Bool
unfolding normalize_mode
start_hold enabled token mode blackout_for max_wait now g =
    let authoritative : Bool = elim token [ none ↦ true | some t ↦ is_authority t g ] in
    if not enabled
    then (g, authoritative)
    else if not authoritative
    then (g, false)
    else let m = normalize_mode mode in
      let least = if blackout_for == 0 then 300 * millisecond else blackout_for in
      let most = if ltb max_wait least then least else max_wait in
      (
        record g {
          mode = m;
          hold_started = some now;
          hold_until = some (if is_blackout m then now + least else now);
          hold_max_wait = some (now + most);
          hold_keyframe_at = none;
        },
        true,
      )

unfoldable pub transition_active : Gate → Bool
transition_active g = not (is_zero g.hold_until) || not (is_zero g.hold_max_wait)

unfoldable pub clear_hold : Gate → Gate
clear_hold g = record g {
  hold_until = none;
  hold_max_wait = none;
  hold_started = none;
  hold_keyframe_at = none;
}

unfoldable pub stop_hold : Gate → Gate
unfolding transition_active clear_hold
stop_hold g = if transition_active g then clear_hold g else g

-- The new state, and whether this packet is dropped.
unfoldable pub should_hold : ℕ → Bool → Gate → Gate × Bool
unfolding transition_active normalize_mode clear_hold
should_hold now is_keyframe g =
    if not (transition_active g)
    then (g, false)
    else if is_blackout (normalize_mode g.mode) && is_before now g.hold_until
    then (g, true)
    else if is_keyframe
    then (clear_hold g, false)
    else if is_before now g.hold_max_wait
    then (g, true)
    else (clear_hold g, false)

unfoldable pub blocks_release : ℕ → Gate → Bool
unfolding transition_active normalize_mode
blocks_release now g =
    transition_active g && is_blackout (normalize_mode g.mode) && is_before now g.hold_until
