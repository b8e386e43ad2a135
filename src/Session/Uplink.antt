-- ===== src/Session/Uplink.antt =====
-- internal/session/uplink_keyframe_gate.go: when the browser is asked for a keyframe, by the progress of the IDR picture on
-- its way to SIP, which ObserveUplinkVideoForwardMarked of proactive_browser_pli.go follows.
pub mod Waits
pub mod Tests
use webrtc_gateway.Base.{
  Bool, ℕ, Option, false, ◌*◌, not, if◌then◌else◌, List, true, ◌||◌, some, second, millisecond,
  none, is_zero, ◌∷◌, [], ◌!=◌, is_within, ◌&&◌, ltb,
}
use webrtc_gateway.Text.{Text, codes, text_eq, has_prefix}
use webrtc_gateway.Sip.Trunk.{any}

-- The clocks of the gate.
pub record Uplink : Type 0 where
  pub in_flight : Bool
  pub in_flight_ts : ℕ
  pub complete_at : Option ℕ
  pub last_keyframe : Option ℕ
  pub idr_seen : Bool
  pub last_idr_ts : ℕ
  pub last_idr : Option ℕ
  pub last_request : Option ℕ
  pub ssrc_learned : Option ℕ
  pub far_end_seen : Option ℕ

abbrev pub startup_fresh : ℕ
startup_fresh = 1500 * millisecond

abbrev pub join_fresh : ℕ
join_fresh = 10 * second

abbrev pub coalesce_gap : ℕ
coalesce_gap = 1 * second

abbrev pub is_one_of : Text → List Text → Bool
is_one_of kind kinds = any (λ k. text_eq kind k) kinds

-- isSwitchUplinkKeyframeKind
unfoldable pub is_switch_kind : Text → Bool
is_switch_kind kind = is_one_of kind (codes "switch" ∷ codes "implicit-switch" ∷ [])

-- isDecoderJoinKeyframeKind
unfoldable pub is_join_kind : Text → Bool
is_join_kind kind =
    is_one_of kind (
      codes "sip-rtcp-first"
      ∷ codes "sip-video-dest-ready"
      ∷ codes "remote-ssrc-learn"
      ∷ codes "sip-video-rtp-learn"
      ∷ [])
    || has_prefix (codes "bridged-") kind

-- isSIPUplinkKeyframeKind
unfoldable pub is_sip_kind : Text → Bool
is_sip_kind kind =
    is_one_of kind
      (codes "sip_info_fir" ∷ codes "sip_info_fir_retry" ∷ codes "pli" ∷ codes "fir" ∷ [])

-- isRemoteJoinKeyframeKind
unfoldable pub is_remote_join_kind : Text → Bool
is_remote_join_kind kind = is_one_of kind (codes "remote-ssrc-learn" ∷ codes "sip-rtcp-first" ∷ [])

pub data Refusal : Type 0 where
  flying fresh coalesced : Refusal

-- A request that waits for an IDR in flight, and is not needed soon after a complete one.
abbrev pub unless_fresh : ℕ → Bool → Option ℕ → ℕ → Option Refusal
unless_fresh window in_flight complete now =
    if in_flight then some flying else if is_within complete now window then some fresh else none

-- DecideUplinkKeyframeRequest: the reason of a refusal, or `none` for a request that is sent.
unfoldable pub decide_uplink : Text → Bool → Option ℕ → Option ℕ → ℕ → Option Refusal
decide_uplink kind in_flight complete last_request now =
    if is_switch_kind kind
    then none
    else if is_join_kind kind
    then unless_fresh join_fresh in_flight complete now
    else if is_sip_kind kind
    then if in_flight
      then some flying
      else if is_within last_request now coalesce_gap
      then some coalesced
      else none
    else unless_fresh startup_fresh in_flight complete now

-- `!event.IsZero() && t.Before(event)`
abbrev pub precedes : ℕ → Option ℕ → Bool
precedes t none = false
precedes t (some event) = ltb t event

-- uplinkIDRBeforeFarEnd
abbrev pub is_too_early : Option ℕ → Uplink → Bool
is_too_early none u = false
is_too_early (some t) u = precedes t u.ssrc_learned || precedes t u.far_end_seen

-- ignorePreLearnUplinkIDR, without its flag: the clocks without an IDR that was too early for the far end.
unfoldable pub ignore_early : Uplink → Bool × Option ℕ
ignore_early u =
    if is_zero u.ssrc_learned && is_zero u.far_end_seen then (u.in_flight, u.complete_at) else (
      u.in_flight && not (is_zero u.last_keyframe || is_too_early u.last_keyframe u),
      if is_too_early u.complete_at u then none else u.complete_at,
    )

-- DecideSessionUplinkKeyframeRequest
unfoldable pub decide_session : Text → ℕ → Uplink → Option Refusal
decide_session kind now u =
    if is_remote_join_kind kind
    then decide_uplink kind (ignore_early u).0 (ignore_early u).1 u.last_request now
    else decide_uplink kind u.in_flight u.complete_at u.last_request now

-- noteUplinkIDRProgressLocked, at an instant.
unfoldable pub note_progress : (now ts : ℕ) → (is_idr marker : Bool) → Uplink → Uplink
note_progress now ts is_idr marker u =
    let starts = not u.idr_seen || (ts != u.last_idr_ts) || not u.in_flight in
    if not is_idr then u else record u {
      in_flight = not marker;
      in_flight_ts = if starts then ts else u.in_flight_ts;
      complete_at =
          if marker
          then if is_zero u.last_keyframe then some now else u.last_keyframe
          else u.complete_at;
    }

abbrev pub raise_keyframe : ℕ → Uplink → Uplink
raise_keyframe now u = record u {
  last_keyframe = elim u.last_keyframe [
    | none ↦ some now
    | some t ↦ if ltb t now then some now else some t
  ];
}

-- What ObserveUplinkVideoForwardMarked does to the clocks.
unfoldable pub observe_forward : (now ts : ℕ) → (is_idr marker : Bool) → Uplink → Uplink
observe_forward now ts is_idr marker u =
    let n = note_progress now ts true marker (raise_keyframe now u) in
    if not is_idr
    then u
    else if not u.idr_seen || (ts != u.last_idr_ts)
    then record n { last_idr = some now; last_idr_ts = ts; idr_seen = true }
    else n
