-- ===== src/Session/Normalizer/Tests.antt =====
-- Runs of the normalizer (internal/session/h264_access_unit_normalizer.go) at concrete inputs: an access unit
-- of two fragments, then a switch and a replay.
use webrtc_gateway.Base.{
  ℕ, arith, Bool, true, false, [], ◌∷◌, refl, none, List, ◌+◌, ◌≡◌, length, ◌⊎◌, ◌≤◌, sub32,
}
use webrtc_gateway.Session.Rtp.{Packet, AccessUnit}
use webrtc_gateway.Session.Normalizer.Assemble.{
  push, is_some, open_au, set_parameter_sets, take_packet, gather, check_size, observe, fragment,
  check_seq, set_fragment, push_locked, start_au, observe_fua,
}
use webrtc_gateway.Session.Normalizer.Numbering.{
  HasOutput, seqs, calls, concat, Call, numbers, counting, seeds, switches, Forward, arrives,
  replays, map_timestamp-advances, call,
}
use webrtc_gateway.Session.Normalizer.{
  Normalizer, Config, new_normalizer, reset_for_switch, drop_current, reset_current,
}
use webrtc_gateway.Session.Normalizer.Timeline.{
  map_timestamp, max_timestamp_step, number, number_with, stamp, rewrite_for_replay, mark_last,
  source_broken, replay_base, follow_source, step_by_wall, wall_clock_step, next_after,
}
use webrtc_gateway.Session.Normalizer.Emission.{IsEmission}
use webrtc_gateway.Session.Normalizer.History.{emissions_complete}
use webrtc_gateway.Session.Normalizer.Continuity.{calls_continuous}
use webrtc_gateway.Session.Normalizer.Idr.{IsDecodable}
use webrtc_gateway.Session.Normalizer.Ready.{idr-IsDecodable}

abbrev size : Packet → ℕ
size p = 12 + length p.payload

abbrev fragment_of : Bool → ℕ → ℕ → Packet
fragment_of marker seq header = record {
  marker = marker;
  payload_type = 96;
  sequence_number = seq;
  timestamp = 9000;
  ssrc = 7;
  payload = 124 ∷ header ∷ 1 ∷ [];
}

abbrev first_half : Packet
first_half = fragment_of false 65535 133

abbrev second_half : Packet
second_half = fragment_of true 0 69

abbrev limits : Config
limits = record { max_packets = 0; max_bytes = 0; max_age = 0; reuse_same_source_timestamp = true }

abbrev history : List Call
history = seeds (103 ∷ 66 ∷ []) (104 ∷ 1 ∷ []) ∷ switches 1 "" ∷ arrives first_half 10 ∷ []

both_halves_come_out :
    is_some (push size second_half 20 (calls size history (new_normalizer limits)).0).1 ≡ true
unfolding push calls push_locked gather take_packet check_size check_seq open_au call
    reset_for_switch drop_current start_au set_parameter_sets new_normalizer set_fragment observe
    observe_fua fragment
both_halves_come_out = refl

emissions_complete_example :
    let r = push size second_half 20 (calls size history (new_normalizer limits)).0 in
    IsEmission second_half r.0 r.1
emissions_complete_example = emissions_complete size limits history second_half 20

idr-IsDecodable_example :
    IsDecodable (push size second_half 20 (calls size history (new_normalizer limits)).0).1
idr-IsDecodable_example = idr-IsDecodable size limits history second_half 20

-- A normalizer that has numbered packets up to 65534.
abbrev running : Normalizer
running = record (new_normalizer limits) {
  have_output = true;
  next_seq = 65535;
  output_ts = 4294967290;
  last_source_ts = 100;
  last_output_at = 1000;
}

running-HasOutput : HasOutput running
unfolding HasOutput
running-HasOutput = (refl, omega arith)

abbrev idr : AccessUnit
idr = record {
  packets = first_half ∷ second_half ∷ [];
  is_idr = true;
  injected_parameter_sets = false;
  parameter_sets_ready = true;
  generation = 1;
  source_timestamp = 9000;
  discontinuity = none;
  same_timestamp_split = none;
}

abbrev outbound : List Call
outbound = numbers idr 2000 ∷ switches 2 "ssrc" ∷ replays (second_half ∷ []) 3000 ∷ []

numbers_go_on : seqs (concat (calls size outbound running).1) ≡ 65535 ∷ 0 ∷ 1 ∷ []
unfolding seqs concat calls call number number_with stamp map_timestamp rewrite_for_replay mark_last
    new_normalizer source_broken replay_base follow_source step_by_wall wall_clock_step
    reset_for_switch drop_current reset_current next_after
numbers_go_on = refl

calls_continuous_example :
    let outs = (calls size outbound running).1 in
    (seqs (concat outs) ≡ counting 65535 (length (concat outs))) × Forward 4294967290 outs
calls_continuous_example = calls_continuous size outbound running running-HasOutput

map_timestamp-advances_example :
    let m = map_timestamp 9000 7 2000 running in
    ((m.reused ≡ true) × (m.timestamp ≡ 4294967290))
    ⊎ ((m.reused ≡ false)
        × (1 ≤ sub32 m.timestamp 4294967290)
        × (sub32 m.timestamp 4294967290 ≤ max_timestamp_step))
map_timestamp-advances_example = map_timestamp-advances 9000 7 2000 running running-HasOutput
