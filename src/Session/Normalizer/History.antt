-- ===== src/Session/Normalizer/History.antt =====
-- Histories of internal/session/h264_access_unit_normalizer.go, from a new normalizer on: what the other calls
-- leave of an access unit that is being gathered.
use webrtc_gateway.Base.{
  ℕ, false, [], ◌∷◌, refl, List, ◌≡◌, if_elim, sym, is_empty, not, subst, sub32, ◌==◌, ◌&&◌, true,
  Bool, Option,
}
use webrtc_gateway.Session.Rtp.{Packet, AccessUnit}
use webrtc_gateway.Session.Normalizer.Assemble.{push, fragment, set_parameter_sets, Fragment}
use webrtc_gateway.Session.Normalizer.Timeline.{
  map_timestamp, number, rewrite_for_replay, replay_base, first_output, number_with, first_seq,
  reuse_output, follow_source, step_by_wall, Mapped, source_broken,
}
use webrtc_gateway.Session.Normalizer.Numbering.{
  call, calls, Call, arrives, numbers, replays, switches, seeds, drains,
}
use webrtc_gateway.Session.Normalizer.{
  new_normalizer, Normalizer, Config, reset_source, reset_for_switch, drop_current, reset_current,
}
use webrtc_gateway.Session.Normalizer.Complete.{IsGathering, last_of, Gathered, open_type}
use webrtc_gateway.Session.Normalizer.Emission.{
  IsEmission, push-IsEmission, reset-IsGathering, push-IsGathering,
}

-- What a state holds of the access unit that is being gathered.
record Gathering : Type 0 where
  have_au : Bool
  source_ts : ℕ
  packets : List Packet
  invalid : Bool
  last : Option ℕ
  unit : Fragment

gathering : Normalizer → Gathering
unfolding fragment
gathering n = record {
  have_au = n.have_au;
  source_ts = n.source_ts;
  packets = n.packets;
  invalid = n.invalid;
  last = last_of n;
  unit = fragment n;
}

same-IsGathering : (n m : Normalizer) → gathering m ≡ gathering n → IsGathering n → IsGathering m
unfolding IsGathering gathering
same-IsGathering n m s g =
    subst
      (λ (x : Gathering).
        x.have_au ≡ true
        → x.invalid ≡ false
        → Gathered x.source_ts x.packets x.last (open_type x.unit))
      (sym s) g

map_timestamp-same :
    (source seq now : ℕ) (n : Normalizer)
    → gathering (map_timestamp source seq now n).state ≡ gathering n
unfolding gathering map_timestamp first_output reuse_output follow_source step_by_wall fragment
map_timestamp-same source seq now n =
    let delta = sub32 source n.last_source_ts in
    let P = λ (m : Mapped). gathering m.state ≡ gathering n in
    if_elim P (not n.have_output) refl (
      if_elim P
        ((delta == 0)
          && not n.step_after_switch
          && not n.replay_after_output
          && n.config.reuse_same_source_timestamp)
        refl (if_elim P (not n.step_after_switch && not (source_broken delta)) refl refl))

number-same :
    (au : AccessUnit) (now : ℕ) (n : Normalizer) → gathering (number au now n).0 ≡ gathering n
unfolding gathering number number_with fragment
number-same au now n =
    let s = map_timestamp-same au.source_timestamp (first_seq au.packets) now n in
    if_elim (λ (r : Normalizer × AccessUnit). gathering r.0 ≡ gathering n) (is_empty au.packets)
      refl s

replay_base-same :
    (source seq now : ℕ) (n : Normalizer) → gathering (replay_base source seq now n) ≡ gathering n
unfolding gathering replay_base fragment
replay_base-same source seq now n =
    let s = map_timestamp-same source seq now n in
    if_elim (λ (m : Normalizer). gathering m ≡ gathering n) (not n.have_output) s refl

rewrite_for_replay-same :
    (ps : List Packet) (now : ℕ) (n : Normalizer)
    → gathering (rewrite_for_replay ps now n).0 ≡ gathering n
unfolding gathering rewrite_for_replay fragment
rewrite_for_replay-same [] now n = refl
rewrite_for_replay-same (p ∷ ps) now n =
    let s = replay_base-same p.timestamp p.sequence_number now n in s

module _ (marshal_size : Packet → ℕ) where
  call-IsGathering :
      (c : Call) (n : Normalizer) → IsGathering n → IsGathering (call marshal_size c n).0
  unfolding gathering call reset_source reset_for_switch drop_current reset_current
      set_parameter_sets fragment
  call-IsGathering (arrives p now) n g = push-IsGathering marshal_size p now n g
  call-IsGathering (numbers au now) n g =
      same-IsGathering n (number au now n).0 (number-same au now n) g
  call-IsGathering (replays ps now) n g =
      same-IsGathering n (rewrite_for_replay ps now n).0 (rewrite_for_replay-same ps now n) g
  call-IsGathering (switches generation reason) n g =
      reset-IsGathering (reset_for_switch generation reason n) refl
  call-IsGathering drains n g = reset-IsGathering (drop_current false n) refl
  call-IsGathering (seeds sps pps) n g = same-IsGathering n (set_parameter_sets sps pps n) refl g

  calls-IsGathering :
      (cs : List Call) (n : Normalizer) → IsGathering n → IsGathering (calls marshal_size cs n).0
  unfolding calls
  calls-IsGathering [] n g = g
  calls-IsGathering (c ∷ cs) n g =
      calls-IsGathering cs (call marshal_size c n).0 (call-IsGathering c n g)

  -- From a new normalizer, after any calls, every access unit that a push hands out is complete: its packets came in
  -- sequence on one timestamp, all fragments are there, and the last has the marker; before them only parameter sets are put.
  pub emissions_complete :
      (config : Config) (cs : List Call) (p : Packet) (now : ℕ)
      → let r = push marshal_size p now (calls marshal_size cs (new_normalizer config)).0 in
        IsEmission p r.0 r.1
  unfolding new_normalizer
  emissions_complete config cs p now =
      let n = (calls marshal_size cs (new_normalizer config)).0 in
      push-IsEmission marshal_size p now n (
        calls-IsGathering cs (new_normalizer config)
          (reset-IsGathering (new_normalizer config) refl))
