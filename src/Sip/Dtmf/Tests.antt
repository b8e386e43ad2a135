-- ===== src/Sip/Dtmf/Tests.antt =====
-- Runs of internal/sip/dtmf.go at concrete inputs.
use webrtc_gateway.Base.{arith, [], ◌∷◌, refl, true, some, if◌then◌else◌, ◌≡◌, ◌==◌, u16, ◌+◌}
use webrtc_gateway.Sip.Dtmf.{
  event_id, Audio, marshal, DtmfEvent, unmarshal, Tone, send_tone, Packet, tone_sent,
}
use webrtc_gateway.Sip.Dtmf.Receiver.{unmarshal-marshal, IsToneFrom, send_tone-IsToneFrom}

abbrev hash_end : DtmfEvent
hash_end = record { event = 11; is_end = true; volume = 10; duration = 1600 }

marshals_big_endian : marshal hash_end ≡ 11 ∷ 138 ∷ 6 ∷ 64 ∷ []
unfolding marshal
marshals_big_endian = refl

unmarshal-marshal_example : unmarshal (marshal hash_end) ≡ some hash_end
unmarshal-marshal_example = unmarshal-marshal hash_end (omega arith) (omega arith) (omega arith)

abbrev at_the_end : Audio
at_the_end = record { audio_seq = 65530; audio_ssrc = 0 }

send_tone-IsToneFrom_example :
    let ssrc = if at_the_end.audio_ssrc == 0 then 0x12345678 else at_the_end.audio_ssrc in
    let t : Tone = record {
      tone_event = 11;
      tone_ssrc = ssrc;
      base_seq = 65530;
      base_timestamp = 800;
    } in
    let (b, (packets, result)) = send_tone (λ (p : Packet). true) 35 true 800 at_the_end in
    (result ≡ tone_sent) × IsToneFrom t 0 packets × (b.audio_seq ≡ u16 (65530 + 12 + 1))
unfolding event_id
send_tone-IsToneFrom_example = send_tone-IsToneFrom 35 11 800 at_the_end refl
