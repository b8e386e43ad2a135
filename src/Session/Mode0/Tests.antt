-- ===== src/Session/Mode0/Tests.antt =====
-- Runs of the reassembler of internal/session/h264_mode0.go at concrete inputs.
use webrtc_gateway.Base.{arith, [], ◌∷◌, refl, true, false, ◌≡◌}
use webrtc_gateway.Session.Rtp.{Packet}
use webrtc_gateway.Session.Mode0.{push, Reassembler, waits, gives, reassembled}
use webrtc_gateway.Session.Mode0.RoundTrip.{
  NonEmpty, cut, feed, middles, next, after, push-reassembles, joined,
}

abbrev header : Packet
header = record {
  marker = false;
  payload_type = 96;
  sequence_number = 65535;
  timestamp = 9000;
  ssrc = 7;
  payload = [];
}

abbrev idle : Reassembler
idle = record { active = false; ssrc = 0; timestamp = 0; next_seq = 0; payload_type = 0; nal = [] }

a_gap_drops_the_unit :
    (push (cut 101 64 (3 ∷ []) header) (push (cut 101 128 (1 ∷ []) header) idle).0).1.reason
    ≡ "discontinuous-fua"
unfolding push cut
a_gap_drops_the_unit = refl

push-reassembles_example :
    let (s, d) = push (cut 101 128 (1 ∷ 2 ∷ []) header) idle in
    let (k, ok) = feed (middles 101 ((3 ∷ []) ∷ []) header) s in
    let q = next (after ((3 ∷ []) ∷ []) header) in
    (d ≡ waits)
    × (ok ≡ true)
    × ((push (cut 101 64 (4 ∷ []) q) k).1
        ≡ gives (record q { payload = 101 ∷ 1 ∷ 2 ∷ 3 ∷ 4 ∷ [] }) reassembled)
unfolding NonEmpty joined after
push-reassembles_example =
    push-reassembles 101 (1 ∷ 2 ∷ []) ((3 ∷ []) ∷ []) (4 ∷ []) header idle (omega arith)
      (omega arith, (omega arith, (omega arith, tt))) (omega arith)
