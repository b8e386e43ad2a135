-- ===== src/Lib.antt =====
-- A verification library of the WebRTC to SIP gateway, apps/gateway. The gateway joins a browser (WebRTC)
-- and an Asterisk trunk (SIP and plain RTP): it forwards audio and H.264 video between them and lets an
-- @switch message move a call to another agent. The parts that are modelled lie on the way of the video
-- from SIP to the browser in apps/gateway/internal/session, with some of the way back, and in the signalling
-- around it:
--
--   the reorder buffer       puts the RTP packets of the trunk back in sequence;
--   the normalizer           gathers them to whole access units and numbers what goes out;
--   the switch video gate    holds access units after an @switch until a keyframe of the new agent;
--   the call                 has its states, its one-time reports and claims, and one negotiation at a
--                            time with the browser;
--   the trunk matching       finds the trunk of an INVITE among those that are registered.
--
-- The buffer feeds the normalizer packet by packet, the normalizer hands each whole access unit to the
-- gate (evaluate), and an access unit that the gate passes is numbered, written, and then committed to
-- the gate or aborted. A new target bumps the generation of the gate and resets the normalizer.
--
-- Files:
--
--   Base                     the shared names; Base/Words wraps machine words, Base/Times reads a
--                            time.Time as nanoseconds with `none` for the zero Time
--   Session/Rtp              the RTP packet of pion/rtp as its fields, and the access unit
--   Session/Reorder          reorder_buffer.go: VideoReorderBuffer. Push, timeoutFlush, Reset and Drain
--                            are push, timeout_flush, reset and drain of Session/Reorder/Calls, which
--                            return the packets to write and the skips to report; the timer is a field
--                            and its callback an event of a history. Below it one file for each
--                            argument: Push and Far for the branches of Push, Skipping and Lowest for
--                            the timeout, Drain, Events and Runs for histories, Delivery for what is promised
--   Text                     texts as lists of ASCII bytes, and what the code uses of Go's strings,
--                            strconv and net
--   Session/Bits             h264_sps.go: the bit reader, Exp-Golomb codes and emulation prevention;
--                            uplink_picture.go: the first macroblock of a slice. Reads sees the reader as
--                            a parser of a list of bits
--   Session/Sps              h264_sps.go: h264SPSPictureSize is picture_size, a sequence of parsers.
--                            Writer writes a parameter set as H.264 lays it out, Size is the cropping
--                            rectangle of H.264; Codes, Reads and RoundTrip read a written set back
--   Session/Call             session_state.go, with the terminal actions and claims of session.go: SetState
--                            is set_state, whose second result is what it reports. Midcall has
--                            midcall.go, switch_renegotiate.go and make_before_break.go, Events the
--                            histories, Latches and Once the one-time effects, Pending the
--                            negotiation; Offer is ValidateMidCallSDP, Reading, Offered and Malformed
--                            compare what it decides with the lines of the text
--   Session/Normalizer       h264_access_unit_normalizer.go: H264AccessUnitNormalizer. Assemble has
--                            Push and its parts, Nal what is read from payloads, Timeline
--                            NumberAccessUnit, RewriteForReplay and mapTimestampLocked; Complete,
--                            Emission and History follow an access unit from its first packet,
--                            Numbering and Continuity the outbound numbers
--   Session/Mode0            h264_mode0.go: h264Mode0Reassembler, the FU-A packets of the browser for a peer
--                            with packetization mode 0; RoundTrip cuts a NAL unit and joins it again
--   Session/Cache            rtp_cache.go: the ring of sent packets, and what a NACK gets from it
--   Session/Disorder         rtp_disorder.go: the monitor of bad windows and its containment
--   Session/Recovery         switch_recovery.go: the recovery after a switch; Progress has what packets do to
--                            it, Burst video_recovery.go, Ending and Stable when it ends, Events its
--                            histories, Bounded their invariant, Bypass what is promised of them
--   Session/Feedback         switch_feedback.go, sip_rtcp_fb.go, video_feedback.go: keyframe requests to the SIP
--                            side. Requests has the decision (decide_request) and prepareSIPFeedbackLocked
--                            (prepare), Events the histories, in which other calls come between the two,
--                            Spacing the distances of what is sent, Bypassing the bypass of a switch,
--                            Waiting the request that waits
--   Session/Uplink           uplink_keyframe_gate.go: keyframe requests to the browser around an IDR; decide_uplink
--                            is DecideUplinkKeyframeRequest, Waits has what it promises
--   Session/Rebase           uplink_video_ts_rebase.go: the outbound timestamps of the browser's video
--   Session/Gate             switch_video_gate.go, switch_target.go, switch_blackout.go and what they
--                            use of switch_renegotiate.go and switch_recovery.go: the fields of Session
--                            that decide about an access unit as one record. Hold, Calls, Watch and Target
--                            have the operations, Events their histories, Steps and Safety the
--                            invariant, Release, Switching and Limits what is promised. Histories
--                            leave out force_stop and a reset of the media state, which forget the
--                            accepted generation
--   Sip/Trunk                apps/gateway/internal/sip/trunk_registrar_identity.go: endpoints and identities; Order
--                            and Groups the sorts and the collapse of agent trunks, Registrar the
--                            generations and the publication of an identity
--   Sip/Trunk/Match          apps/gateway/internal/sip/trunk_invite_match.go: MatchTrunkFromInviteDetailed is
--                            match_invite of Invite, its rules in Rules, selectByOrigin in Origins; Sound and Fit follow
--                            the candidates through the rules, Eligible has what is promised
--   Sip/Registry             apps/gateway/internal/sip/public_registry.go: the public accounts, as objects that the map,
--                            the registrations and the refresh workers share (Store). Counting and InUse
--                            have the calls on an account, Valid and Steps the invariant, Acquire
--                            AcquireAndRegister as a whole
--   Logstore                 apps/gateway/internal/logstore/queue.go, with LogEvent and RecordStats of logstore.go: the
--                            queues and their batch workers; Conserved and Stopped say what becomes of a record
--   Store                    shared objects by their addresses, and association lists
--   Sip/Dtmf                 apps/gateway/internal/sip/dtmf.go: telephone events, the packets of a tone, and how
--                            a receiver reads them
--
-- The methods of the video types hold one lock while they change state, so that a method is a function from
-- state to state and a history a list of calls; what a callback gets is a result. Log output is left
-- out. Where the source takes two locks one after the other, they are one step in: the commit and the opening of
-- the gate, which end the transition hold under a second lock; the change of the calls on a public account,
-- which is looked up in the map first; and acquire of Sip/Registry, whose parts are also steps of their own. Two functions
-- that only tests call are modelled: pruneRegistrarIdentitiesLocked (prune) and ConsumeSwitchPLIBypass
-- (consume_bypass). Histories of a call, a recovery and the keyframe requests have ResetMediaState as an event, each for
-- the fields it keeps. Sequence numbers, timestamps and SSRCs are numbers with their wrap-around written out. Generations
-- and counters of Go's int are numbers that do not wrap. Clock readings are nanoseconds of a clock that
-- does not run backwards, and a configured duration that is not positive is 0.
--
-- Fuel: the flush loop of the reorder buffer and the loop of Drain have 65536 rounds, one for each sequence
-- number. The loops over a STAP-A payload have one round more than it has bytes, and each round takes
-- two bytes or more. The loop of ue has 32 rounds, since it ends at the 32nd zero. The decimal digits of
-- an instant are at most 20.
--
-- Parameters: the size of a packet on the wire (MarshalSize of pion/rtp), whether a write of a packet
-- succeeds (Session/Cache, Sip/Dtmf), and what net.ParseIP says of a host (Sip/Trunk, Sip/Registry).
-- Not modelled: the rest of SIP signalling and the database behind the trunks, the HTTP and WebSocket
-- interface, storage, push notifications and the media transport itself, which are input and output or
-- other packages' code around the parts above.
pub mod Base
pub mod Text
pub mod Store
pub mod Session
pub mod Sip
pub mod Logstore
