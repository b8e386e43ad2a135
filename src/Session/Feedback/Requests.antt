-- ===== src/Session/Feedback/Requests.antt =====
-- internal/session/sip_rtcp_fb.go and switch_feedback.go: a request for a keyframe of the SIP side, from its decision
-- to what is sent.
use webrtc_gateway.Session.Feedback.{pli, fir}
use webrtc_gateway.Text.{Text, to_lower, trim_space, text_eq, codes}
use webrtc_gateway.Session.Feedback.{
  Request, Feedback, build_targets, Address, Target, is_fir, normalize_transport_mode,
}
use webrtc_gateway.Base.{
  Bool, Option, false, ℕ, true, some, [], if◌then◌else◌, List, none, not, leb, ◌==◌, ◌*◌, is_empty,
  is_within, ◌&&◌, ◌+◌, is_before, ◌||◌, millisecond, ◌%◌, ◌!=◌, ◌^◌,
}
use webrtc_gateway.Session.Recovery.Burst.{is_recent}
use webrtc_gateway.Session.Recovery.{has_authority, is_after, is_recovering}

pub data RequestMode : Type 0 where
  info_only rtcp_only both : RequestMode

-- NormalizeSIPKeyframeRequestMode
unfoldable pub normalize_request_mode : Text → RequestMode
normalize_request_mode mode =
    let m = to_lower (trim_space mode) in
    if text_eq m (codes "rtcp")
    then rtcp_only
    else if text_eq m (codes "both")
    then both
    else if text_eq m (codes "info")
    then info_only
    else if is_empty m
    then rtcp_only
    else info_only

-- sipKeyframeWantsRTCP
abbrev pub wants_rtcp : RequestMode → Bool
wants_rtcp info_only = false
wants_rtcp rtcp_only = true
wants_rtcp both = true

-- sipKeyframeWantsINFO
abbrev pub wants_info : RequestMode → Bool
wants_info info_only = true
wants_info rtcp_only = false
wants_info both = true

pub data Skipped : Type 0 where
  mode_info in_flight idr_guard rate_limit mid_frame : Skipped

-- SIPKeyframeFeedbackDecision, whose reason is absent where the RTCP is sent.
pub record FeedbackDecision : Type 0 where
  pub send_rtcp : Bool
  pub send_info : Bool
  pub pending_rtcp : Bool
  pub skipped : Option Skipped

abbrev pub skips : Bool → Bool → Skipped → FeedbackDecision
skips info waits reason = record {
  send_rtcp = false;
  send_info = info;
  pending_rtcp = waits;
  skipped = some reason;
}

-- The later of the last PLI and the last FIR, in sipKeyframeFeedbackInputLocked.
unfoldable pub last_rtcp : Feedback → Option ℕ
last_rtcp s = elim s.last_sip_fir [
  | none ↦ s.last_sip_pli
  | some t ↦ if is_after t s.last_sip_pli then some t else s.last_sip_pli
]

-- DecideSIPKeyframeFeedback, of the input of sipKeyframeFeedbackInputLocked, for a PLI or a FIR.
unfoldable pub decide_feedback : ℕ → Feedback → FeedbackDecision
decide_feedback now s =
    let mode = normalize_request_mode s.request_mode in
    let info = wants_info mode in
    if not (wants_rtcp mode)
    then skips info false mode_info
    else if s.idr_in_flight
    then skips info false in_flight
    else if is_within s.idr_complete_at now s.guard
    then skips info false idr_guard
    else if is_within (last_rtcp s) now s.min_interval
    then skips info false rate_limit
    else if s.packet_seen && not s.last_packet_marker
    then skips info true mid_frame
    else record { send_rtcp = true; send_info = info; pending_rtcp = false; skipped = none }

-- queuePendingSIPRTCPLocked
abbrev pub queue_pending : Request → Feedback → Feedback
queue_pending r s = record s { pending = some r }

-- takePendingSIPRTCPLocked
abbrev pub take_pending : Feedback → Feedback × Option Request
take_pending s = (record s { pending = none }, s.pending)

-- noteUplinkForwardMarkerLocked, with the request that is to be sent now.
unfoldable pub note_marker : Bool → Feedback → Feedback × Option Request
note_marker marker s =
    let seen = record s { packet_seen = true; last_packet_marker = marker } in
    if marker then take_pending seen else (seen, none)

-- feedbackAuthorityLocked
abbrev pub is_authorized : Option (ℕ × ℕ) → Feedback → Bool
is_authorized none s = true
is_authorized (some (generation, epoch)) s = has_authority generation epoch s.recovery

abbrev pub trigger_of : Request → Text
trigger_of r =
    if is_empty (trim_space r.trigger)
    then elim r.kind [ pli ↦ codes "pli" | fir ↦ codes "fir" ]
    else r.trigger

-- The first lock of sendSIPFeedback: the decision, and the queue that a request in the middle of a frame waits in.
unfoldable pub decide_request : ℕ → Request → Feedback → Feedback × FeedbackDecision
decide_request now r s =
    let d = decide_feedback now s in
    (if d.pending_rtcp then queue_pending (record r { trigger = trigger_of r }) s else s, d)

-- sipFeedbackSnapshot, without the connections.
pub record Prepared : Type 0 where
  pub authorized : Bool
  pub ready : Bool
  pub targets : List Target
  pub sender_ssrc : ℕ
  pub media_ssrc : ℕ
  pub fir_number : ℕ
  pub count : ℕ

abbrev pub unauthorized : Prepared
unauthorized = record {
  authorized = false;
  ready = false;
  targets = [];
  sender_ssrc = 0;
  media_ssrc = 0;
  fir_number = 0;
  count = 0;
}

-- Whether a PLI passes the limits without regard to the time of the last one, and what is left of the one-time
-- bypass of a switch.
unfoldable pub pli_bypass : ℕ → Request → Feedback → Feedback × Bool
pli_bypass now r s =
    if r.force
      && text_eq r.trigger (codes "switch")
      && is_recovering now s.recovery
      && s.recovery.one_shot_pli
    then (record s { recovery = record s.recovery { one_shot_pli = false } }, true)
    else (s, r.force && text_eq r.trigger (codes "watchdog-fir"))

-- `!t.IsZero() && now.Sub(t) <= d`
abbrev pub is_at_most : Option ℕ → ℕ → ℕ → Bool
is_at_most none now d = false
is_at_most (some t) now d = leb now (t + d)

-- Both minimum intervals of a PLI are 300 ms.
unfoldable pub pli_throttled : ℕ → Bool → Feedback → Bool
pli_throttled now force s =
    is_recent s.last_sip_pli now (300 * millisecond)
    || (not force && is_at_most s.last_keyframe now (400 * millisecond))

unfoldable pub fir_throttled : ℕ → Feedback → Bool
fir_throttled now s = is_recent s.last_sip_fir now (1000 * millisecond)

-- The end of prepareSIPFeedbackLocked, past the limits of time.
unfoldable pub aim : ℕ → Request → Prepared → Feedback → Feedback × Prepared
aim now r p s =
    let ts =
      build_targets (normalize_transport_mode s.transport) s.destination s.learned
        (is_before now s.recovery.fallback_until) in
    if is_empty ts then (s, record p { targets = ts }) else (
      record s {
        pli_sent = s.pli_sent + 1;
        last_pli_sent = some now;
        last_sip_pli = some now;
        last_sip_fir = if is_fir r.kind then some now else s.last_sip_fir;
      },
      record p { targets = ts; count = s.pli_sent + 1; ready = true },
    )

abbrev pub is_absent : Option Address → Bool
is_absent none = true
is_absent (some a) = false

-- Whether the SIP side can be reached at all.
abbrev pub is_reachable : Feedback → Bool
is_reachable s =
    not (is_absent s.destination) && (s.rtp_conn || s.rtcp_conn) && (s.remote_video_ssrc != 0)

abbrev pub sender_of : Feedback → ℕ
sender_of s = if s.video_ssrc == 0 then 0x87654321 else s.video_ssrc

-- The limits of time of prepareSIPFeedbackLocked, by the kind of the request.
unfoldable pub pass_limits : ℕ → Request → Prepared → Feedback → Feedback × Prepared
pass_limits now r p s = elim r.kind [
  | pli ↦
      (let (left, bypass) = pli_bypass now r s in
        if not bypass && pli_throttled now r.force left then (left, p) else aim now r p left)
  | fir ↦ if fir_throttled now s then (s, p) else aim now r p s
]

abbrev pub numbered : Request → Feedback → Feedback
numbered r s = if is_fir r.kind then record s { fir_seq = (s.fir_seq + 1) % 2 ^ 8 } else s

-- The snapshot before the limits are read.
abbrev pub prepared_of : Request → Feedback → Prepared
prepared_of r s = record unauthorized {
  authorized = true;
  sender_ssrc = sender_of s;
  media_ssrc = s.remote_video_ssrc;
  fir_number = if is_fir r.kind then s.fir_seq else 0;
}

-- prepareSIPFeedbackLocked: a FIR takes its number before it is known whether it is sent.
unfoldable pub prepare : ℕ → Request → Feedback → Feedback × Prepared
prepare now r s =
    if not (is_authorized r.authority s)
    then (s, unauthorized)
    else if is_reachable s
    then pass_limits now r (prepared_of r s) (numbered r s)
    else (numbered r s, prepared_of r s)
