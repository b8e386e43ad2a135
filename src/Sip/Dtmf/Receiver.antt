-- ===== src/Sip/Dtmf/Receiver.antt =====
-- A telephone event of internal/sip/dtmf.go is read back as it was written, and the packets of a tone are one event
-- of the stream.
use webrtc_gateway.Base.{
  ℕ, arith, Bool, true, false, [], ◌∷◌, refl, some, List, ◌≡◌, u16, ◌<◌, leb, ◌^◌, ◌+◌,
  if◌then◌else◌, ◌==◌, ◌*◌, ap, Option, subst, sym,
}
use webrtc_gateway.Session.Rtp.{Packet}
use webrtc_gateway.Sip.Dtmf.{
  tone_packets, unmarshal, tone_packet, Tone, tone_loop, marshal, parse_dtmf, end_loop, DtmfEvent,
  dtmf_volume, send_tone, event_id, write_all, Audio, tone_sent, send_event, write_failed,
}

-- An event whose fields fit their bits is read back as it was written.
pub unmarshal-marshal :
    (d : DtmfEvent)
    → d.event < 256
    → d.volume < 64
    → d.duration < 2 ^ 16
    → unmarshal (marshal d) ≡ some d
unfolding unmarshal marshal
unmarshal-marshal d a b c = ground arith

-- A packet of the tone at its place, as its receiver reads it.
pub IsToneAt : Tone → ℕ → Bool → ℕ → Packet → Type 0
IsToneAt t offset ends duration p =
    (p.sequence_number ≡ u16 (t.base_seq + offset + 1))
    × (p.timestamp ≡ t.base_timestamp)
    × (p.ssrc ≡ t.tone_ssrc)
    × (p.marker ≡ (offset == 0))
    × (parse_dtmf p
        ≡ some (
            some (record {
              event = t.tone_event;
              is_end = ends;
              volume = dtmf_volume;
              duration = duration;
            })))

-- Packets from an offset on: ten with growing durations, then three that end the event.
pub IsToneFrom : Tone → ℕ → List Packet → Type 0
IsToneFrom t offset [] = offset ≡ 13
IsToneFrom t offset (p ∷ ps) =
    IsToneAt t offset (leb 10 offset) (if leb 10 offset then 1600 else (offset + 1) * 160) p
    × IsToneFrom t (offset + 1) ps

tone_packet-IsToneAt :
    (t : Tone) (first ends : Bool) (offset duration : ℕ)
    → t.tone_event < 256
    → duration < 2 ^ 16
    → first ≡ (offset == 0)
    → IsToneAt t offset ends duration (tone_packet t first ends offset duration)
unfolding IsToneAt tone_packet parse_dtmf
tone_packet-IsToneAt t first ends offset duration e l f =
    let d : DtmfEvent = record {
      event = t.tone_event;
      is_end = ends;
      volume = dtmf_volume;
      duration = duration;
    } in
    let r = unmarshal-marshal d e (omega arith) l in (refl, refl, refl, f, rw r refl)

-- The tone of an event has thirteen packets of one timestamp whose numbers follow each other; only the first has the marker,
-- and the receiver reads the event with growing durations and then its end three times.
pub tone_packets-IsToneFrom : (t : Tone) → t.tone_event < 256 → IsToneFrom t 0 (tone_packets t)
unfolding IsToneFrom tone_packets tone_loop end_loop
tone_packets-IsToneFrom t e =
    let at = λ (first ends : Bool) (offset duration : ℕ).
      tone_packet-IsToneAt t first ends offset duration e in
    (
      at true false 0 160 (omega arith) refl,
      (
        at false false 1 320 (omega arith) refl,
        (
          at false false 2 480 (omega arith) refl,
          (
            at false false 3 640 (omega arith) refl,
            (
              at false false 4 800 (omega arith) refl,
              (
                at false false 5 960 (omega arith) refl,
                (
                  at false false 6 1120 (omega arith) refl,
                  (
                    at false false 7 1280 (omega arith) refl,
                    (
                      at false false 8 1440 (omega arith) refl,
                      (
                        at false false 9 1600 (omega arith) refl,
                        (
                          at false true 10 1600 (omega arith) refl,
                          (
                            at false true 11 1600 (omega arith) refl,
                            (at false true 12 1600 (omega arith) refl, refl),
                          ),
                        ),
                      ),
                    ),
                  ),
                ),
              ),
            ),
          ),
        ),
      ),
    )

event_id-bound : (digit e : ℕ) → event_id digit ≡ some e → e < 16
unfolding event_id
event_id-bound digit e h = ground arith

write_all-whole : (ps : List Packet) → write_all (λ (p : Packet). true) ps ≡ (ps, true)
unfolding write_all
write_all-whole [] = refl
write_all-whole (p ∷ ps) = ap (λ (r : List Packet × Bool). (p ∷ r.0, r.1)) (write_all-whole ps)

-- A digit with an event is sent whole where packets can be written: its receiver reads the event, and the next tone goes on
-- with the number after its last packet.
pub send_tone-IsToneFrom :
    (digit e now : ℕ) (a : Audio)
    → event_id digit ≡ some e
    → let ssrc = if a.audio_ssrc == 0 then 0x12345678 else a.audio_ssrc in
      let t : Tone = record {
        tone_event = e;
        tone_ssrc = ssrc;
        base_seq = a.audio_seq;
        base_timestamp = now;
      } in
      let (b, (packets, result)) = send_tone (λ (p : Packet). true) digit true now a in
      (result ≡ tone_sent) × IsToneFrom t 0 packets × (b.audio_seq ≡ u16 (a.audio_seq + 12 + 1))
unfolding send_tone send_event
send_tone-IsToneFrom digit e now a h =
    let ssrc = if a.audio_ssrc == 0 then 0x12345678 else a.audio_ssrc in
    let t : Tone = record {
      tone_event = e;
      tone_ssrc = ssrc;
      base_seq = a.audio_seq;
      base_timestamp = now;
    } in
    let l = event_id-bound digit e h in
    let w = write_all-whole (tone_packets t) in
    let k = tone_packets-IsToneFrom t (omega arith) in
    let sent = λ (o : Option ℕ). send_event (λ (p : Packet). true) o true now a in
    subst
      (λ (o : Option ℕ).
        ((sent o).1.1 ≡ tone_sent)
        × IsToneFrom t 0 (sent o).1.0
        × ((sent o).0.audio_seq ≡ u16 (a.audio_seq + 12 + 1)))
      (sym h)
      (subst
        (λ (r : List Packet × Bool).
          ((if r.1 then tone_sent else write_failed) ≡ tone_sent)
          × IsToneFrom t 0 r.0
          × (u16 (a.audio_seq + 13) ≡ u16 (a.audio_seq + 12 + 1)))
        (sym w) (refl, k, omega arith))
