-- ===== src/Session/Call/Midcall.antt =====
-- internal/session/midcall.go, switch_renegotiate.go, make_before_break.go and the terminal actions of session.go: one
-- negotiation at a time, and what it holds back.
use webrtc_gateway.Base.{
  [], ◌∷◌, none, some, Option, Bool, ℕ, map, true, suc, if◌then◌else◌, ◌==◌, ◌||◌, is_zero, leb,
  ◌&&◌, not, false, ◌/◌, is_empty, ◌+◌, ◌-◌, ◌%◌, ◌++◌, ltb, zero,
}
use webrtc_gateway.Text.{Text, text_eq, codes, trim_space}
use webrtc_gateway.Session.Call.{Snapshot, Call, same_state, incoming}

-- MidCallRenegotiationRequest; a zero time is `none`.
pub record Request : Type 0 where
  pub request_id : Text
  pub source : Text
  pub request_method : Text
  pub request_offer : Text
  pub request_answer : Text
  pub request_reason : Text
  pub request_started : Option ℕ
  pub request_timeout : ℕ

abbrev pub upper_byte : ℕ → ℕ
upper_byte c = if leb b'a' c && leb c b'z' then c - 32 else c

unfoldable pub to_upper : Text → Text
to_upper s = map upper_byte s

-- The decimal digits of a number below 10 ^ 20, in front of a text.
unfoldable pub decimal : ℕ → ℕ → Text → Text
decimal zero n rest = rest
decimal (suc fuel) n rest =
    let more = decimal fuel (n / 10) ((b'0' + n % 10) ∷ rest) in
    if ltb n 10 then (b'0' + n) ∷ rest else more

unfoldable pub snapshot_of : ℕ → Request → Snapshot
unfolding to_upper decimal
snapshot_of now r =
    let started : ℕ = elim r.request_started [ none ↦ now | some t ↦ t ] in
    let named = trim_space r.request_id in
    record {
      id = if is_empty named then codes "reneg-" ++ decimal 20 started [] else named;
      origin = trim_space r.source;
      method = to_upper (trim_space r.request_method);
      offer_sdp = r.request_offer;
      answer_sdp = r.request_answer;
      reason = trim_space r.request_reason;
      started_at = started;
      timeout = r.request_timeout;
    }

abbrev pub is_pending : Call → Bool
is_pending c = elim c.pending [ none ↦ false | some r ↦ true ]

-- `s.TerminalAction != "" || s.PendingMidCallRenegotiation != nil`
abbrev pub is_busy : Call → Bool
is_busy c = not (is_empty c.terminal_action) || is_pending c

-- TryBeginMidCallRenegotiation
unfoldable pub try_begin : ℕ → Request → Call → Call × Bool
try_begin now r c =
    let snap = snapshot_of now r in
    if is_busy c
    then (c, false)
    else (record c { pending = some snap; updated_at = snap.started_at }, true)

-- IsSwitchVideoRenegotiationSource
unfoldable pub is_switch_source : Text → Bool
is_switch_source source =
    text_eq source (codes "switch_message") || text_eq source (codes "switch_gate_release")

-- clearSwitchVideoRenegotiateHoldLocked
unfoldable pub clear_hold : Text → Call → Call
unfolding is_switch_source
clear_hold source c = record c {
  renegotiate_hold = c.renegotiate_hold && not (is_switch_source source);
}

-- `s.PendingMidCallRenegotiation == nil || s.PendingMidCallRenegotiation.ID != id` is false.
abbrev pub is_for : Text → Call → Bool
is_for i c = elim c.pending [ none ↦ false | some r ↦ text_eq r.id i ]

abbrev pub pending_origin : Call → Text
pending_origin c = elim c.pending [ none ↦ [] | some r ↦ r.origin ]

unfoldable pub settle_pending : ℕ → Call → Call
unfolding clear_hold
settle_pending now c = record (clear_hold (pending_origin c) c) { pending = none; updated_at = now }

-- CompleteMidCallRenegotiation; the answer is written to the negotiation that is dropped.
unfoldable pub complete : ℕ → Text → Call → Call × Bool
unfolding settle_pending
complete now i c = if is_for i c then (settle_pending now c, true) else (c, false)

abbrev pub or_keep : Option ℕ → Option ℕ → Option ℕ
or_keep none old = old
or_keep (some n) old = some n

-- armMakeBeforeBreakLocked
unfoldable pub arm_handoff : Option ℕ → Option ℕ → Option ℕ → Call → Call
arm_handoff none audio video c = c
arm_handoff (some old) audio video c = record c {
  legacy_peer = some old;
  legacy_audio = audio;
  legacy_video = video;
}

-- commitMakeBeforeBreak, and the end of the goroutine that it starts.
abbrev pub same_peer : Option ℕ → Option ℕ → Bool
same_peer none none = true
same_peer (some a) (some b) = a == b
same_peer _ _ = false

unfoldable pub commit_handoff : Option ℕ → Call → Call
commit_handoff fresh c =
    if is_zero c.legacy_peer || (not (is_zero fresh) && not (same_peer c.peer fresh))
    then c
    else record c { legacy_peer = none; legacy_video = none }

unfoldable pub drop_legacy_audio : Call → Call
drop_legacy_audio c = record c { legacy_audio = none }

-- AbortMakeBeforeBreak
unfoldable pub abort_handoff : Call → Call × Bool
abort_handoff c = elim c.legacy_peer [
  | none ↦ (c, false)
  | some old ↦ (
    record c {
      peer = some old;
      audio_track = or_keep c.legacy_audio c.audio_track;
      video_track = or_keep c.legacy_video c.video_track;
      legacy_peer = none;
      legacy_audio = none;
      legacy_video = none;
      pending_ice = [];
      replacement_ready = false;
    },
    true,
  )
]

-- FailMidCallRenegotiation, which takes the lock a second time in AbortMakeBeforeBreak.
unfoldable pub fail : ℕ → Text → Call → Call × Bool
unfolding settle_pending abort_handoff
fail now i c = if is_for i c then ((abort_handoff (settle_pending now c)).0, true) else (c, false)

-- TryClaimSwitchVideoRenegotiation; a generation that is not positive is 0.
unfoldable pub try_claim : ℕ → Call → Call × Bool
try_claim generation c =
    if (generation == 0) || is_busy c || (c.claimed_generation == generation) then (c, false) else (
      record c {
        claimed_generation = generation;
        renegotiate_hold = true;
        replacement_ready = false;
      },
      true,
    )

-- ReleaseSwitchVideoRenegotiationClaim
unfoldable pub release_claim : ℕ → Call → Call
release_claim generation c =
    if c.claimed_generation == generation
    then record c { claimed_generation = 0; renegotiate_hold = false; replacement_ready = false }
    else c

-- switchVideoShouldHoldForRenegotiateLocked
unfoldable pub holds_video : Call → Bool
unfolding is_switch_source
holds_video c = c.renegotiate_hold || (is_pending c && is_switch_source (pending_origin c))

-- TryBeginTerminalAction, of an action that is not empty.
unfoldable pub begin_terminal : ℕ → Text → Call → Call × Bool
begin_terminal now action c = if not (is_empty c.terminal_action) then (c, false) else (
  record c {
    terminal_action = action;
    terminal_action_at = some now;
    pending = none;
    updated_at = now;
  },
  true,
)

-- TryBeginIncomingTerminalAction
unfoldable pub begin_incoming_terminal : ℕ → Text → Call → Call × Bool
unfolding begin_terminal
begin_incoming_terminal now action c =
    if same_state c.state incoming then begin_terminal now action c else (c, false)

-- ClearTerminalAction
unfoldable pub clear_terminal : ℕ → Call → Call
clear_terminal now c = record c {
  terminal_action = [];
  terminal_action_at = none;
  updated_at = now;
}

-- TryClaimIncoming
unfoldable pub claim_incoming : ℕ → Text → Call → Call × Bool
claim_incoming now client c =
    if c.incoming_claimed
    then (c, text_eq c.claimed_by client)
    else (record c { incoming_claimed = true; claimed_by = client; updated_at = now }, true)

-- MidCallMedia and MidCallSDPValidation, as far as they are stored.
pub record Validation : Type 0 where
  pub accept : Bool
  pub audio_direction : Text
  pub video_direction : Text
  pub active_video : Bool

-- ApplyMidCallSDPValidation
unfoldable pub apply_validation : ℕ → Validation → Call → Call
apply_validation now v c = if not v.accept then c else record c {
  remote_audio_direction = v.audio_direction;
  remote_video_direction = v.video_direction;
  has_active_video = v.active_video;
  updated_at = now;
}
