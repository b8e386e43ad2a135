-- ===== src/Session/Normalizer/Ready.antt =====
-- Histories of internal/session/h264_access_unit_normalizer.go and its parameter sets: an IDR that comes out as
-- ready has them.
use webrtc_gateway.Base.{
  ℕ, arith, Bool, false, [], ◌∷◌, refl, subst, List, ◌≡◌, Option, sym, if_elim, inl, if_cases,
  is_empty, inr, not, ◌||◌,
}
use webrtc_gateway.Session.Rtp.{Packet, AccessUnit}
use webrtc_gateway.Session.Normalizer.Assemble.{
  push, gather, push_locked, finish, open_au, start_au, set_parameter_sets, take_packet, check_size,
  check_seq, set_fragment,
}
use webrtc_gateway.Session.Normalizer.Timeline.{
  rewrite_for_replay, number, map_timestamp, replay_base, number_with, first_output, first_seq,
  reuse_output, follow_source, step_by_wall,
}
use webrtc_gateway.Session.Normalizer.{
  Normalizer, drop_current, new_normalizer, reset_current, reset_source, Config, reset_for_switch,
  String,
}
use webrtc_gateway.Session.Normalizer.Numbering.{
  call, calls, Call, arrives, numbers, replays, switches, seeds, drains,
}
use webrtc_gateway.Session.Normalizer.Idr.{CachesOk, IsDecodable, finish-IsDecodable}
use webrtc_gateway.Session.Normalizer.Caches.{IsCached, update_cached-IsCached}
use Prim.Native.String.{String}
use webrtc_gateway.Session.Normalizer.Nal.{is_single}

-- The two caches are the same.
Same : Normalizer → Normalizer → Type 0
Same n m = (m.cached_sps ≡ n.cached_sps) × (m.cached_pps ≡ n.cached_pps)

Same-CachesOk : (n m : Normalizer) → Same n m → CachesOk n → CachesOk m
unfolding Same CachesOk
Same-CachesOk n m (e, f) (c, d) = (subst (IsCached 7) (sym e) c, subst (IsCached 8) (sym f) d)

drop_current-Same : (over : Bool) (n : Normalizer) → Same n (drop_current over n)
unfolding Same drop_current reset_current
drop_current-Same over n = ground arith

map_timestamp-Same :
    (source seq now : ℕ) (n : Normalizer) → Same n (map_timestamp source seq now n).state
unfolding Same map_timestamp first_output reuse_output follow_source step_by_wall
map_timestamp-Same source seq now n = ground arith

number-Same : (au : AccessUnit) (now : ℕ) (n : Normalizer) → Same n (number au now n).0
unfolding Same number number_with
number-Same au now n =
    let s = map_timestamp-Same au.source_timestamp (first_seq au.packets) now n in
    if_elim (λ (r : Normalizer × AccessUnit). Same n r.0) (is_empty au.packets) (refl, refl) s

rewrite_for_replay-Same :
    (ps : List Packet) (now : ℕ) (n : Normalizer) → Same n (rewrite_for_replay ps now n).0
unfolding Same rewrite_for_replay replay_base
rewrite_for_replay-Same [] now n = (refl, refl)
rewrite_for_replay-Same (p ∷ ps) now n =
    let s = map_timestamp-Same p.timestamp p.sequence_number now n in ground arith

reset_for_switch-CachesOk :
    (generation : ℕ) (reason : String) (n : Normalizer)
    → CachesOk (reset_for_switch generation reason n)
unfolding CachesOk IsCached reset_for_switch
reset_for_switch-CachesOk generation reason n = (inl refl, inl refl)

set_parameter_sets-CachesOk :
    (sps pps : List ℕ) (n : Normalizer) → CachesOk n → CachesOk (set_parameter_sets sps pps n)
unfolding CachesOk IsCached set_parameter_sets
set_parameter_sets-CachesOk sps pps n (c, d) = (
  if_cases (IsCached 7) (is_single sps 7) (λ e. inr e) (λ _. c),
  if_cases (IsCached 8) (is_single pps 8) (λ e. inr e) (λ _. d),
)

finish-CachesOk : (n : Normalizer) → CachesOk n → CachesOk (finish n).0
unfolding CachesOk finish reset_current
finish-CachesOk n (c, d) = (
  update_cached-IsCached n.cached_sps n.packets 7 (omega arith) c,
  update_cached-IsCached n.cached_pps n.packets 8 (omega arith) d,
)

module _ (marshal_size : Packet → ℕ) where
  gather-Same : (p : Packet) (now : ℕ) (n : Normalizer) → Same n (gather marshal_size p now n)
  unfolding Same gather open_au start_au take_packet check_size check_seq set_fragment
  gather-Same p now n = let d = drop_current-Same false n in ground arith

  push-CachesOk :
      (p : Packet) (now : ℕ) (n : Normalizer)
      → CachesOk n
      → CachesOk (push marshal_size p now n).0 × IsDecodable (push marshal_size p now n).1
  unfolding push push_locked IsDecodable
  push-CachesOk p now n c =
      let m = gather marshal_size p now n in
      let k = Same-CachesOk n m (gather-Same p now n) c in
      let P = λ (r : Normalizer × Option AccessUnit). CachesOk r.0 × IsDecodable r.1 in
      let d = Same-CachesOk m (drop_current m.overflow m) (drop_current-Same m.overflow m) k in
      if_elim P (is_empty p.payload) (c, tt)
        (if_elim P (not p.marker) (k, tt)
          (if_elim P (m.invalid || m.fu_open || is_empty m.packets) (d, tt)
            (finish-CachesOk m k, finish-IsDecodable m k)))

  call-CachesOk : (c : Call) (n : Normalizer) → CachesOk n → CachesOk (call marshal_size c n).0
  unfolding call reset_source
  call-CachesOk (arrives p now) n k = (push-CachesOk p now n k).0
  call-CachesOk (numbers au now) n k = Same-CachesOk n (number au now n).0 (number-Same au now n) k
  call-CachesOk (replays ps now) n k =
      Same-CachesOk n (rewrite_for_replay ps now n).0 (rewrite_for_replay-Same ps now n) k
  call-CachesOk (switches generation reason) n k = reset_for_switch-CachesOk generation reason n
  call-CachesOk drains n k = Same-CachesOk n (drop_current false n) (drop_current-Same false n) k
  call-CachesOk (seeds sps pps) n k = set_parameter_sets-CachesOk sps pps n k

  calls-CachesOk :
      (cs : List Call) (n : Normalizer) → CachesOk n → CachesOk (calls marshal_size cs n).0
  unfolding calls
  calls-CachesOk [] n k = k
  calls-CachesOk (c ∷ cs) n k = calls-CachesOk cs (call marshal_size c n).0 (call-CachesOk c n k)

  -- From a new normalizer, after any calls, an IDR that a push hands out with its parameter sets ready has an SPS, a PPS
  -- and the IDR among its packets, however the parameter sets came.
  pub idr-IsDecodable :
      (config : Config) (cs : List Call) (p : Packet) (now : ℕ)
      → IsDecodable (push marshal_size p now (calls marshal_size cs (new_normalizer config)).0).1
  unfolding new_normalizer CachesOk IsCached
  idr-IsDecodable config cs p now =
      let n = (calls marshal_size cs (new_normalizer config)).0 in
      (push-CachesOk p now n (calls-CachesOk cs (new_normalizer config) (inl refl, inl refl))).1
