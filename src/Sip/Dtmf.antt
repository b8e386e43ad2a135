-- ===== src/Sip/Dtmf.antt =====
-- internal/sip/dtmf.go: telephone events (RFC 2833) and the packets of one tone. A digit is its code point. Whether a
-- packet can be written is a parameter.
pub mod Receiver
pub mod Tests
use webrtc_gateway.Base.{
  ℕ, Bool, if◌then◌else◌, [], ◌∷◌, none, some, true, false, List, u16, Option, ◌/◌, ◌!=◌, ◌==◌, ◌+◌,
  u8, suc, leb, not, ◌%◌, ◌&&◌, ◌++◌, ◌*◌, ◌-◌,
}
use webrtc_gateway.Session.Rtp.{Packet}
use webrtc_gateway.Session.Bits.{bit7}
use Prim.Native.Nat.{zero}

abbrev pub dtmf_payload_type : ℕ
dtmf_payload_type = 101

abbrev pub dtmf_volume : ℕ
dtmf_volume = 10

abbrev pub dtmf_duration : ℕ
dtmf_duration = 160

abbrev pub dtmf_total_duration : ℕ
dtmf_total_duration = 1600

pub record DtmfEvent : Type 0 where
  pub event : ℕ
  pub is_end : Bool
  pub volume : ℕ
  pub duration : ℕ

-- Marshal
pub marshal : DtmfEvent → List ℕ
marshal d =
    u8 d.event
    ∷ (d.volume % 64 + (if d.is_end then 128 else 0))
    ∷ (u16 d.duration / 256)
    ∷ (d.duration % 256)
    ∷ []

-- Unmarshal, with `none` for its error.
pub unmarshal : List ℕ → Option DtmfEvent
unmarshal (a ∷ b ∷ c ∷ d ∷ rest) =
    some (record { event = a; is_end = bit7 b; volume = b % 64; duration = c * 256 + d })
unmarshal _ = none

-- GetEventID, with `none` for its error.
pub event_id : ℕ → Option ℕ
event_id digit =
    if leb 48 digit && leb digit 57
    then some (digit - 48)
    else if digit == 42
    then some 10
    else if digit == 35
    then some 11
    else if leb 65 digit && leb digit 68
    then some (digit - 65 + 12)
    else if leb 97 digit && leb digit 100
    then some (digit - 97 + 12)
    else none

-- Who a tone comes from, and its place in the stream.
pub record Tone : Type 0 where
  pub tone_event : ℕ
  pub tone_ssrc : ℕ
  pub base_seq : ℕ
  pub base_timestamp : ℕ

pub tone_packet : Tone → Bool → Bool → ℕ → ℕ → Packet
unfolding marshal
tone_packet t first ends offset duration = record {
  marker = first;
  payload_type = dtmf_payload_type;
  sequence_number = u16 (t.base_seq + offset + 1);
  timestamp = t.base_timestamp;
  ssrc = t.tone_ssrc;
  payload =
      marshal
        (record { event = t.tone_event; is_end = ends; volume = dtmf_volume; duration = duration });
}

-- The packets of the first loop from the `i`th on.
pub tone_loop : Tone → ℕ → ℕ → List Packet
unfolding tone_packet
tone_loop t i zero = []
tone_loop t i (suc n) =
    tone_packet t (i == 0) false i (u16 ((i + 1) * dtmf_duration)) ∷ tone_loop t (i + 1) n

pub end_loop : Tone → ℕ → ℕ → List Packet
unfolding tone_packet
end_loop t i zero = []
end_loop t i (suc n) =
    tone_packet t false true (dtmf_total_duration / dtmf_duration + i) dtmf_total_duration
    ∷ end_loop t (i + 1) n

pub tone_packets : Tone → List Packet
unfolding tone_loop end_loop
tone_packets t = tone_loop t 0 (dtmf_total_duration / dtmf_duration) ++ end_loop t 0 3

-- The audio stream of a session: its next sequence number and its SSRC, 0 before the first use.
pub record Audio : Type 0 where
  pub audio_seq : ℕ
  pub audio_ssrc : ℕ

pub data SendResult : Type 0 where
  invalid_digit no_connection write_failed tone_sent : SendResult

module _ (can_write : Packet → Bool) where
  -- The packets up to the first that cannot be written, and whether all were.
  pub write_all : List Packet → List Packet × Bool
  write_all [] = ([], true)
  write_all (p ∷ ps) =
      let (written, ok) = write_all ps in if can_write p then (p ∷ written, ok) else ([], false)

  -- SendDTMFTone for the event of its digit, with whether there is a connection and a destination.
  pub send_event : Option ℕ → Bool → ℕ → Audio → Audio × (List Packet × SendResult)
  unfolding tone_packets write_all
  send_event none connected now a = (a, ([], invalid_digit))
  send_event (some e) connected now a =
      let ssrc = if a.audio_ssrc == 0 then 0x12345678 else a.audio_ssrc in
      let out = write_all (
        tone_packets (record {
          tone_event = e;
          tone_ssrc = ssrc;
          base_seq = a.audio_seq;
          base_timestamp = now;
        })) in
      if not connected then (a, ([], no_connection)) else (
        record { audio_seq = u16 (a.audio_seq + 13); audio_ssrc = ssrc },
        (out.0, if out.1 then tone_sent else write_failed),
      )

  -- SendDTMFTone
  pub send_tone : ℕ → Bool → ℕ → Audio → Audio × (List Packet × SendResult)
  unfolding event_id send_event
  send_tone digit connected now a = send_event (event_id digit) connected now a

-- ParseDTMFFromRTP: `none` for an error, and then no event for a packet of another kind.
pub parse_dtmf : Packet → Option (Option DtmfEvent)
unfolding unmarshal
parse_dtmf p =
    if p.payload_type != dtmf_payload_type
    then some none
    else elim (unmarshal p.payload) [ none ↦ none | some e ↦ some (some e) ]
