-- ===== src/Session/Call/Progress.antt =====
-- internal/session/session_state.go: the one-time notices and claims of a call, and the answers that only read.
use webrtc_gateway.Base.{none, some, [], if◌then◌else◌, ◌||◌, Bool, not, false, true}
use webrtc_gateway.Text.{Text, text_eq, codes}
use webrtc_gateway.Session.Call.{
  Call, CallState, active, connecting, ended, reconnecting, ringing, same_state,
}

-- TakeProgressNotify
unfoldable pub take_progress : CallState → Call → Call × Bool
take_progress s c =
    if elim c.last_notified [ none ↦ false | some t ↦ same_state t s ]
    then (c, false)
    else (record c { last_notified = some s }, true)

-- TryMarkRemoteVideoReady, TryMarkRemoteAudioReady and the two TryClaimUplinkKeyframeKick functions.
unfoldable pub mark_video_ready : Bool → Call → Call × Bool
mark_video_ready has_sets c =
    if not has_sets || c.video_ready_notified
    then (c, false)
    else (record c { video_ready_notified = true }, true)

unfoldable pub mark_audio_ready : Call → Call × Bool
mark_audio_ready c =
    if c.audio_ready_notified then (c, false) else (record c { audio_ready_notified = true }, true)

unfoldable pub claim_join_kick : Call → Call × Bool
claim_join_kick c =
    if c.join_kick_done then (c, false) else (record c { join_kick_done = true }, true)

unfoldable pub claim_rtcp_kick : Call → Call × Bool
claim_rtcp_kick c =
    if c.rtcp_kick_done then (c, false) else (record c { rtcp_kick_done = true }, true)

-- What ResetMediaState does to a call: the notices of the first media and the first keyframe requests are due again.
unfoldable pub reset_media : Call → Call
reset_media c = record c {
  audio_ready_notified = false;
  video_ready_notified = false;
  join_kick_done = false;
  rtcp_kick_done = false;
  idr_cached = false;
}

-- ApplyICEConnectedCallProgress: the next state, the reason of a recovery, and whether the state changes.
unfoldable pub ice_connected : CallState → CallState × Text × Bool
ice_connected reconnecting = (active, codes "ice-reconnected", true)
ice_connected connecting = (connecting, codes "initial-call", false)
ice_connected ringing = (ringing, codes "initial-call", false)
ice_connected s = (s, [], false)

-- OutboundCallAckState
unfoldable pub outbound_ack : CallState → CallState
outbound_ack ringing = ringing
outbound_ack active = active
outbound_ack ended = ended
outbound_ack _ = connecting

-- isTerminalCleanupState
unfoldable pub is_terminal_cleanup : CallState → Text → Bool
is_terminal_cleanup s action =
    same_state s ended
    || text_eq action (codes "bye")
    || text_eq action (codes "reject")
    || text_eq action (codes "cancel")
    || text_eq action (codes "end")
