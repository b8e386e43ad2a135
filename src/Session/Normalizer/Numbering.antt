-- ===== src/Session/Normalizer/Numbering.antt =====
-- The outbound numbers of internal/session/h264_access_unit_normalizer.go over a history of its calls:
-- sequence numbers count on without a gap, and timestamps never run backwards.
use webrtc_gateway.Session.Normalizer.Assemble.{
  push, set_parameter_sets, push_locked, open_au, finish, gather, take_packet, start_au, check_size,
  check_seq, set_fragment,
}
use webrtc_gateway.Base.{
  ℕ, arith, Bool, true, false, [], ◌∷◌, ◌++◌, List, suc, ◌≡◌, ◌<◌, length, ap, ◌+◌, All, ◌^◌, u16,
  ◌≤◌, sub32, u32, ◌⊎◌, ◌∙◌, refl,
}
use webrtc_gateway.Session.Rtp.{Packet, AccessUnit}
use webrtc_gateway.Session.Normalizer.Timeline.{
  next_after, stamp, wall_clock_step, map_timestamp, reuse_output, follow_source, number,
  max_timestamp_step, step_by_wall, rewrite_for_replay, source_broken,
}
use webrtc_gateway.Session.Normalizer.{
  Normalizer, String, reset_for_switch, reset_source, drop_current, reset_current,
}
use Prim.Native.String.{String}
use Prim.Native.Nat.{zero}

pub data Call : Type 0 where
  arrives : Packet → ℕ → Call
  numbers : AccessUnit → ℕ → Call
  replays : List Packet → ℕ → Call
  switches : ℕ → String → Call
  drains : Call
  seeds : List ℕ → List ℕ → Call

module _ (marshal_size : Packet → ℕ) where
  -- The state after the call, and the packets that it numbers.
  unfoldable pub call : Call → Normalizer → Normalizer × List Packet
  call (arrives p now) n = ((push marshal_size p now n).0, [])
  call (numbers au now) n = let (m, out) = number au now n in (m, out.packets)
  call (replays ps now) n = rewrite_for_replay ps now n
  call (switches generation reason) n = (reset_for_switch generation reason n, [])
  call drains n = (reset_source n, [])
  call (seeds sps pps) n = (set_parameter_sets sps pps n, [])

  -- The packets of each call in turn.
  unfoldable pub calls : List Call → Normalizer → Normalizer × List (List Packet)
  calls [] n = (n, [])
  calls (c ∷ cs) n = let (m, out) = call c n in let (k, outs) = calls cs m in (k, out ∷ outs)

unfoldable pub seqs : List Packet → List ℕ
seqs [] = []
seqs (p ∷ ps) = p.sequence_number ∷ seqs ps

-- `count` numbers from `seq` on, modulo 2 ^ 16.
unfoldable pub counting : ℕ → ℕ → List ℕ
counting seq zero = []
counting seq (suc count) = seq ∷ counting (u16 (seq + 1)) count

unfoldable pub concat : List (List Packet) → List Packet
concat [] = []
concat (x ∷ xs) = x ++ concat xs

-- Each list has one timestamp, and from one to the next it steps by less than 2 ^ 31.
unfoldable pub Forward : ℕ → List (List Packet) → Type 0
Forward last [] = Unit
Forward last (x ∷ xs) =
    (ts : ℕ) × (All (λ (p : Packet). p.timestamp ≡ ts) x
      × (sub32 ts last ≤ max_timestamp_step)
      × Forward ts xs)

unfoldable pub HasOutput : Normalizer → Type 0
HasOutput n = (n.have_output ≡ true) × (n.output_ts < 2 ^ 32)

pub seqs-stamp : (seq ts : ℕ) (ps : List Packet) → seqs (stamp seq ts ps) ≡ counting seq (length ps)
unfolding seqs stamp counting
seqs-stamp seq ts [] = refl
seqs-stamp seq ts (p ∷ ps) = ap (λ xs. seq ∷ xs) (seqs-stamp (u16 (seq + 1)) ts ps)

pub length-stamp : (seq ts : ℕ) (ps : List Packet) → length (stamp seq ts ps) ≡ length ps
unfolding stamp
length-stamp seq ts [] = refl
length-stamp seq ts (p ∷ ps) = ap suc (length-stamp (u16 (seq + 1)) ts ps)

pub All-stamp :
    (seq ts : ℕ) (ps : List Packet) → All (λ (p : Packet). p.timestamp ≡ ts) (stamp seq ts ps)
unfolding stamp
All-stamp seq ts [] = tt
All-stamp seq ts (p ∷ ps) = (refl, All-stamp (u16 (seq + 1)) ts ps)

-- The number after `count` of them.
unfoldable pub after : ℕ → ℕ → ℕ
after seq zero = seq
after seq (suc count) = after (u16 (seq + 1)) count

pub next_after-length : (seq : ℕ) (ps : List Packet) → next_after seq ps ≡ after seq (length ps)
unfolding next_after after
next_after-length seq [] = refl
next_after-length seq (p ∷ ps) = next_after-length (u16 (seq + 1)) ps

pub seqs-append : (xs ys : List Packet) → seqs (xs ++ ys) ≡ seqs xs ++ seqs ys
unfolding seqs
seqs-append [] ys = refl
seqs-append (x ∷ xs) ys = ap (λ zs. x.sequence_number ∷ zs) (seqs-append xs ys)

pub counting-append :
    (seq : ℕ) (xs ys : List Packet)
    → counting seq (length (xs ++ ys))
      ≡ counting seq (length xs) ++ counting (after seq (length xs)) (length ys)
unfolding counting after
counting-append seq [] ys = refl
counting-append seq (x ∷ xs) ys = ap (λ zs. seq ∷ zs) (counting-append (u16 (seq + 1)) xs ys)

pub wall_clock_step-bounds :
    (last now : ℕ)
    → (1 ≤ (wall_clock_step last now).0) × ((wall_clock_step last now).0 ≤ max_timestamp_step)
unfolding wall_clock_step
wall_clock_step-bounds last now = ground arith

pub sub32-step : (o d : ℕ) → o < 2 ^ 32 → d < 2 ^ 32 → sub32 (u32 (o + d)) o ≡ d
sub32-step o d a b = omega arith

-- Once something went out, the timestamp of the next access unit is the last one, for a repeated source timestamp that is
-- reused, or lies ahead of it by 1 to 2 ^ 31 - 1 ticks.
pub map_timestamp-advances :
    (source seq now : ℕ) (n : Normalizer)
    → HasOutput n
    → let m = map_timestamp source seq now n in
      ((m.reused ≡ true) × (m.timestamp ≡ n.output_ts))
      ⊎ ((m.reused ≡ false)
          × (1 ≤ sub32 m.timestamp n.output_ts)
          × (sub32 m.timestamp n.output_ts ≤ max_timestamp_step))
unfolding HasOutput map_timestamp reuse_output follow_source step_by_wall source_broken
map_timestamp-advances source seq now n h =
    let w = wall_clock_step-bounds n.last_output_at now in
    let s = sub32-step n.output_ts (sub32 source n.last_source_ts) in
    let t = sub32-step n.output_ts (wall_clock_step n.last_output_at now).0 in ground arith

-- A state with the same outbound numbers.
pub record Keeps (n m : Normalizer) : Type 0 where
  pub same_output : m.have_output ≡ n.have_output
  pub same_ts : m.output_ts ≡ n.output_ts
  pub same_seq : m.next_seq ≡ n.next_seq

pub Keeps-trans : (n m k : Normalizer) → Keeps n m → Keeps m k → Keeps n k
Keeps-trans n m k a b = record {
  same_output = b.same_output ∙ a.same_output;
  same_ts = b.same_ts ∙ a.same_ts;
  same_seq = b.same_seq ∙ a.same_seq;
}

pub drop_current-Keeps : (over : Bool) (n : Normalizer) → Keeps n (drop_current over n)
unfolding drop_current reset_current
drop_current-Keeps over n = ground arith

finish-Keeps : (n : Normalizer) → Keeps n (finish n).0
unfolding finish reset_current
finish-Keeps n = record { same_output = refl; same_ts = refl; same_seq = refl }

module _ (marshal_size : Packet → ℕ) where
  open_au-Keeps : (p : Packet) (now : ℕ) (n : Normalizer) → Keeps n (open_au marshal_size p now n)
  unfolding open_au start_au
  open_au-Keeps p now n = let d = drop_current-Keeps false n in ground arith

  gather-Keeps : (p : Packet) (now : ℕ) (n : Normalizer) → Keeps n (gather marshal_size p now n)
  unfolding gather take_packet check_size check_seq set_fragment
  gather-Keeps p now n = let d = open_au-Keeps p now n in ground arith

  pub push-Keeps : (p : Packet) (now : ℕ) (n : Normalizer) → Keeps n (push marshal_size p now n).0
  unfolding push push_locked
  push-Keeps p now n =
      let g = gather marshal_size p now n in
      let d = gather-Keeps p now n in
      let f = Keeps-trans n g (finish g).0 d (finish-Keeps g) in
      let r = Keeps-trans n g (drop_current g.overflow g) d (drop_current-Keeps g.overflow g) in
      ground arith

pub set_parameter_sets-Keeps :
    (sps pps : List ℕ) (n : Normalizer) → Keeps n (set_parameter_sets sps pps n)
unfolding set_parameter_sets
set_parameter_sets-Keeps sps pps n = record { same_output = refl; same_ts = refl; same_seq = refl }

pub reset_for_switch-Keeps :
    (generation : ℕ) (reason : String) (n : Normalizer)
    → Keeps n (reset_for_switch generation reason n)
unfolding reset_for_switch
reset_for_switch-Keeps generation reason n =
    let d = drop_current-Keeps false n in
    record { same_output = d.same_output; same_ts = d.same_ts; same_seq = d.same_seq }
