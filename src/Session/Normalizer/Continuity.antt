-- ===== src/Session/Normalizer/Continuity.antt =====
-- Every history of calls of internal/session/h264_access_unit_normalizer.go numbers its packets as one
-- stream, across switches, dropped access units and replays.
use webrtc_gateway.Base.{
  ℕ, arith, [], refl, sub32, List, ◌≤◌, ◌≡◌, length, All, ◌∙◌, subst, ◌<◌, ◌^◌, sym, ap₂, ◌∷◌, u16,
  is_empty, false, ◌+◌, true, Bool-cases, inl, inr, ◌++◌, ap,
}
use webrtc_gateway.Session.Rtp.{Packet, AccessUnit}
use webrtc_gateway.Session.Normalizer.{Normalizer, reset_source, reset_for_switch, drop_current}
use webrtc_gateway.Session.Normalizer.Numbering.{
  HasOutput, seqs, counting, after, Keeps, map_timestamp-advances, length-stamp, seqs-stamp,
  next_after-length, All-stamp, sub32-step, call, calls, concat, Call, Forward, seqs-append,
  arrives, push-Keeps, numbers, counting-append, replays, switches, reset_for_switch-Keeps,
  drop_current-Keeps, seeds, set_parameter_sets-Keeps, drains,
}
use webrtc_gateway.Session.Normalizer.Timeline.{
  map_timestamp, reuse_output, max_timestamp_step, next_after, follow_source, stamp, step_by_wall,
  number, replay_base, rewrite_for_replay, mark_last, default_timestamp_step, first_seq,
  number_with,
}
use webrtc_gateway.Session.Normalizer.Assemble.{push}
use webrtc_gateway.Session.Normalizer.Assemble.{set_parameter_sets}

-- What a call does to the outbound numbers.
record Continues (n m : Normalizer) (out : List Packet) : Type 0 where
  has : HasOutput m
  numbered : seqs out ≡ counting n.next_seq (length out)
  next : m.next_seq ≡ after n.next_seq (length out)
  stamped : All (λ (p : Packet). p.timestamp ≡ m.output_ts) out
  forward : sub32 m.output_ts n.output_ts ≤ max_timestamp_step

sub32-same : (o : ℕ) → sub32 o o ≤ max_timestamp_step
sub32-same o = omega arith

Keeps-Continues : (n m : Normalizer) → HasOutput n → Keeps n m → Continues n m []
unfolding HasOutput seqs counting after
Keeps-Continues n m (h, w) k = record {
  has = (k.same_output ∙ h, subst (λ x. x < 2 ^ 32) (sym k.same_ts) w);
  numbered = refl;
  next = k.same_seq;
  stamped = tt;
  forward =
      subst (λ x. sub32 x n.output_ts ≤ max_timestamp_step) (sym k.same_ts)
        (sub32-same n.output_ts);
}

-- A state that follows another, and from which a list is stamped.
stamped-Continues :
    (n b : Normalizer) (ps : List Packet)
    → HasOutput b
    → b.next_seq ≡ n.next_seq
    → sub32 b.output_ts n.output_ts ≤ max_timestamp_step
    → (m : Normalizer) → m.have_output ≡ b.have_output
    → m.output_ts ≡ b.output_ts
    → m.next_seq ≡ next_after b.next_seq ps
    → Continues n m (stamp b.next_seq b.output_ts ps)
unfolding HasOutput
stamped-Continues n b ps (h, w) e f m mh mt ms =
    let out = stamp b.next_seq b.output_ts ps in
    let l = length-stamp b.next_seq b.output_ts ps in
    record {
      has = (mh ∙ h, subst (λ x. x < 2 ^ 32) (sym mt) w);
      numbered = seqs-stamp b.next_seq b.output_ts ps ∙ ap₂ counting e (sym l);
      next = ms ∙ next_after-length b.next_seq ps ∙ ap₂ after e (sym l);
      stamped =
          subst (λ x. All (λ (p : Packet). p.timestamp ≡ x) out) (sym mt)
            (All-stamp b.next_seq b.output_ts ps);
      forward = subst (λ x. sub32 x n.output_ts ≤ max_timestamp_step) (sym mt) f;
    }

map_timestamp-follows :
    (source seq now : ℕ) (n : Normalizer)
    → HasOutput n
    → let m = map_timestamp source seq now n in
      HasOutput m.state
      × (m.state.next_seq ≡ n.next_seq)
      × (m.timestamp ≡ m.state.output_ts)
      × (sub32 m.timestamp n.output_ts ≤ max_timestamp_step)
unfolding HasOutput map_timestamp reuse_output follow_source step_by_wall
map_timestamp-follows source seq now n h =
    let a = map_timestamp-advances source seq now n h in
    let s = sub32-same n.output_ts in ground arith

number_with-Continues :
    (au : AccessUnit) (now : ℕ) (n : Normalizer)
    → HasOutput n
    → let r =
        number_with (map_timestamp au.source_timestamp (first_seq au.packets) now n) au now n in
      Continues n r.0 r.1.packets
unfolding number_with
number_with-Continues au now n h =
    let m = map_timestamp au.source_timestamp (first_seq au.packets) now n in
    let r = number_with m au now n in
    let (b, q, t, f) = map_timestamp-follows au.source_timestamp (first_seq au.packets) now n h in
    subst (λ x. Continues n r.0 (stamp m.state.next_seq x au.packets)) (sym t)
      (stamped-Continues n m.state au.packets b q
        (subst (λ x. sub32 x n.output_ts ≤ max_timestamp_step) t f) r.0 refl refl refl)

empty-packets : (ps : List Packet) → is_empty ps ≡ true → ps ≡ []
empty-packets [] e = refl
empty-packets (p ∷ ps) e = cc

number-Continues :
    (au : AccessUnit) (now : ℕ) (n : Normalizer)
    → HasOutput n
    → Continues n (number au now n).0 (number au now n).1.packets
unfolding number
number-Continues au now n h = elim (Bool-cases (is_empty au.packets)) [
  | inl e ↦
      let same : Keeps n n = record { same_output = refl; same_ts = refl; same_seq = refl } in
      rw e (subst (Continues n n) (sym (empty-packets au.packets e)) (Keeps-Continues n n h same))
  | inr e ↦ rw e (number_with-Continues au now n h)
]

next_after-mark_last :
    (seq : ℕ) (ps : List Packet) → next_after seq ps ≡ next_after seq (mark_last ps)
unfolding next_after mark_last
next_after-mark_last seq [] = refl
next_after-mark_last seq (p ∷ ps) = next_after-mark_last (u16 (seq + 1)) ps

replay_base-follows :
    (source seq now : ℕ) (n : Normalizer)
    → HasOutput n
    → let b = replay_base source seq now n in
      HasOutput b × (b.next_seq ≡ n.next_seq) × (sub32 b.output_ts n.output_ts ≤ max_timestamp_step)
unfolding HasOutput replay_base
replay_base-follows source seq now n h =
    let s = sub32-step n.output_ts default_timestamp_step in ground arith

rewrite_for_replay-Continues :
    (ps : List Packet) (now : ℕ) (n : Normalizer)
    → HasOutput n
    → Continues n (rewrite_for_replay ps now n).0 (rewrite_for_replay ps now n).1
unfolding rewrite_for_replay
rewrite_for_replay-Continues [] now n h =
    Keeps-Continues n n h (record { same_output = refl; same_ts = refl; same_seq = refl })
rewrite_for_replay-Continues (p ∷ ps) now n h =
    let b = replay_base p.timestamp p.sequence_number now n in
    let (o, q, f) = replay_base-follows p.timestamp p.sequence_number now n h in
    stamped-Continues n b (mark_last (p ∷ ps)) o q f
      (record b { next_seq = next_after b.next_seq (p ∷ ps) }) refl refl
      (next_after-mark_last b.next_seq (p ∷ ps))

module _ (marshal_size : Packet → ℕ) where
  call-Continues :
      (c : Call) (n : Normalizer)
      → HasOutput n
      → Continues n (call marshal_size c n).0 (call marshal_size c n).1
  unfolding call reset_source
  call-Continues (arrives p now) n h =
      Keeps-Continues n (push marshal_size p now n).0 h (push-Keeps marshal_size p now n)
  call-Continues (numbers au now) n h = number-Continues au now n h
  call-Continues (replays ps now) n h = rewrite_for_replay-Continues ps now n h
  call-Continues (switches generation reason) n h =
      Keeps-Continues n (reset_for_switch generation reason n) h
        (reset_for_switch-Keeps generation reason n)
  call-Continues drains n h =
      Keeps-Continues n (drop_current false n) h (drop_current-Keeps false n)
  call-Continues (seeds sps pps) n h =
      Keeps-Continues n (set_parameter_sets sps pps n) h (set_parameter_sets-Keeps sps pps n)

  -- Once something went out, the packets of every history are numbered one after the other modulo 2 ^ 16, and the
  -- timestamps of its calls never step back: each lies less than 2 ^ 31 ticks after the one before.
  pub calls_continuous :
      (cs : List Call) (n : Normalizer)
      → HasOutput n
      → let outs = (calls marshal_size cs n).1 in
        (seqs (concat outs) ≡ counting n.next_seq (length (concat outs))) × Forward n.output_ts outs
  unfolding calls seqs counting concat Forward
  calls_continuous [] n h = (refl, tt)
  calls_continuous (c ∷ cs) n h =
      let r = call marshal_size c n in
      let outs = (calls marshal_size cs r.0).1 in
      let k = call-Continues c n h in
      let (e, f) = calls_continuous cs r.0 k.has in
      (
        seqs-append r.1 (concat outs)
            ∙ ap₂ (λ xs ys. xs ++ ys) k.numbered
                (e ∙ ap (λ x. counting x (length (concat outs))) k.next)
            ∙ sym (counting-append n.next_seq r.1 (concat outs)),
        (r.0.output_ts, (k.stamped, k.forward, f)),
      )
