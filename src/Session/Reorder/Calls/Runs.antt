-- ===== src/Session/Reorder/Calls/Runs.antt =====
-- The invariant of the reorder buffer (internal/session/reorder_buffer.go) through every operation and history.
use webrtc_gateway.Session.Reorder.Calls.Skipping.{skip_to-Advance}
use webrtc_gateway.Base.{
  zero, suc, some, ◌+◌, ℕ, ◌^◌, ◌≤◌, ◌<◌, ◌≡◌, ◌≢◌, refl, Bool, true, false, Bool-cases, inl, inr,
  none, List, [], ◌∷◌, arith, is_empty, sub16, All, ap, sym, subst, ◌∙◌,
}
use mathlib.Core.Bool.{false≢true}
use native.Mathlib.Decide.{dec_lt}
use webrtc_gateway.Session.Reorder.Window.{
  lookup, Entry, Packets, InWindow, Distinct, Absent, Absent-lookup,
}
use webrtc_gateway.Session.Reorder.Advance.{IsValid, Advance}
use webrtc_gateway.Session.Reorder.{Buffer, Timer, stopped, window_size, new_buffer, Outcome}
use webrtc_gateway.Session.Reorder.Calls.Lowest.{lowest_from_lem, none_below}
use webrtc_gateway.Session.Reorder.Calls.Drain.{drain_in_order, drain-next}
use webrtc_gateway.Session.Reorder.Calls.Valid.{push_lem, Advance-IsValid, skip_to-Guards}
use webrtc_gateway.Session.Reorder.Calls.{
  push, push_first, push_old, skip_to, timeout_flush, lowest_from, reset, drain, set_pacing,
  set_skip_handler,
}
use webrtc_gateway.Session.Reorder.Calls.Events.{
  Event, IsWord, run, run_out, step, arrives, paces, timer_ends, timeout, resets, drains,
  skip_handler,
}

empty_packets : (m : Packets) → is_empty m ≡ true → m ≡ []
empty_packets [] h = refl
empty_packets (p ∷ m) h = cc

-- With nothing held only the word bound is left to keep.
empty-IsValid : (b : Buffer) → b.next_seq < 2 ^ 16 → is_empty b.packets ≡ true → IsValid b
empty-IsValid b hn h =
    let none_held = sym (empty_packets b.packets h) in
    record {
      next_in = hn;
      window = subst (All (InWindow window_size b.next_seq)) none_held tt;
      distinct = subst Distinct none_held tt;
      gap = Absent-lookup b.next_seq b.packets (subst (Absent b.next_seq) none_held tt);
      pending_timed = λ pending. cc;
      pending_based = λ pending. cc;
      pending_open = λ pending. cc;
    }

pub new_buffer-IsValid : (f : Bool) → IsValid (new_buffer f)
unfolding new_buffer
new_buffer-IsValid f = empty-IsValid (new_buffer f) (omega arith) refl

unbased_empty : (b : Buffer) → IsValid b → b.has_base ≡ false → is_empty b.packets ≡ true
unbased_empty b v h = elim (Bool-cases (is_empty b.packets)) [
  | inl e ↦ e
  | inr pending ↦ absurd (false≢true (sym h ∙ v.pending_based pending))
]

push_first-IsValid :
    (seq : ℕ) (e : Entry) (b : Buffer)
    → IsValid b
    → b.has_base ≡ false
    → seq < 2 ^ 16
    → IsValid (push_first seq e b).buffer
unfolding push_first
push_first-IsValid seq e b v h hs =
    empty-IsValid (push_first seq e b).buffer (omega arith) (unbased_empty b v h)

-- The fields that the window does not depend on may change.
adjust-IsValid :
    (b : Buffer) (t : Timer) (pace dropped : ℕ) (handler : Bool)
    → (is_empty b.packets ≡ false → t ≢ stopped)
    → IsValid b
    → IsValid (record b { timer = t; pace = pace; dropped_old = dropped; has_on_skip = handler })
adjust-IsValid b t pace dropped handler timed v = record {
  next_in = v.next_in;
  window = v.window;
  distinct = v.distinct;
  gap = v.gap;
  pending_timed = timed;
  pending_based = v.pending_based;
  pending_open = v.pending_open;
}

push_old-IsValid : (b : Buffer) → IsValid b → IsValid (push_old b).buffer
unfolding push_old
push_old-IsValid b v =
    adjust-IsValid b b.timer b.pace (b.dropped_old + 1) b.has_on_skip v.pending_timed v

push_closed : (seq : ℕ) (e : Entry) (b : Buffer) → b.closed ≡ true → b ≡ (push seq e b).buffer
unfolding push
push_closed seq e b h = ground arith

push_first_eq :
    (seq : ℕ) (e : Entry) (b : Buffer)
    → b.closed ≡ false
    → b.has_base ≡ false
    → push_first seq e b ≡ push seq e b
unfolding push
push_first_eq seq e b o fresh = ground arith

push_late :
    (seq : ℕ) (e : Entry) (b : Buffer)
    → b.closed ≡ false
    → b.has_base ≡ true
    → 0x8000 ≤ sub16 seq b.next_seq
    → push_old b ≡ push seq e b
unfolding push
push_late seq e b o based ge = ground arith

pub push-IsValid :
    (seq : ℕ) (e : Entry) (b : Buffer) → IsValid b → seq < 2 ^ 16 → IsValid (push seq e b).buffer
push-IsValid seq e b v hs = elim (Bool-cases b.closed) [
  | inl c ↦ subst IsValid (push_closed seq e b c) v
  | inr o ↦ elim (Bool-cases b.has_base) [
    | inr fresh ↦
        subst (λ o. IsValid o.buffer) (push_first_eq seq e b o fresh)
          (push_first-IsValid seq e b v fresh hs)
    | inl based ↦ elim (dec_lt (sub16 seq b.next_seq) 0x8000) [
      | yes lt ↦
          (push_lem seq e b v (record { still_open = o; based = based; word = hs; ahead = lt })).3
      | no ge ↦
          subst (λ o. IsValid o.buffer) (push_late seq e b o based (omega arith))
            (push_old-IsValid b v)
    ]
  ]
]

timeout_flush_eq :
    (b : Buffer) (low : ℕ)
    → b.closed ≡ false
    → is_empty b.packets ≡ false
    → lowest_from b.next_seq b.packets none ≡ some low
    → skip_to low b ≡ timeout_flush b
unfolding timeout_flush
timeout_flush_eq b low o pending found = ground arith

-- A run that skips to a held packet hands it out.
held_positive :
    (n low : ℕ) (x : Entry) (m : Packets) (b : Buffer) (o : Outcome)
    → b.next_seq < 2 ^ 16
    → low < 2 ^ 16
    → lookup low m ≡ some x
    → Advance (sub16 low b.next_seq + n) (sub16 low b.next_seq) m b o
    → 0 < n
held_positive zero low x m b o hb hl held a =
    absurd
      (ground (arith, held, a.passes.rest low hl, ap (λ j. lookup j o.buffer.packets) stays, a.gap))
  where
    stays : o.buffer.next_seq ≡ low
    stays = omega (arith, a.passes.at)
held_positive (suc n) low x m b o hb hl held a = omega arith

-- While packets are held the timeout always finds one to skip to.
pub timeout_flush_lem :
    (b : Buffer)
    → IsValid b
    → is_empty b.packets ≡ false
    → (k : ℕ) × (n : ℕ) × Advance (k + n) k b.packets b (timeout_flush b)
      × IsValid (timeout_flush b).buffer
      × (k < window_size)
      × (0 < n)
timeout_flush_lem b v pending =
    let (low, found, word, near, all, held) =
      lowest_from_lem b.next_seq b.packets v.next_in v.window pending in
    let (n, adv) =
      skip_to-Advance low b v word near (λ j hj l. none_below b.next_seq low j b.packets all l) in
    let k = sub16 low b.next_seq in
    let same = timeout_flush_eq b low (v.pending_open pending) pending found in
    let valid =
      Advance-IsValid adv
        (skip_to-Guards low b (v.pending_open pending) (v.pending_based pending)) in
    (
      k,
      n,
      subst (Advance (k + n) k b.packets b) same adv,
      subst (λ o. IsValid o.buffer) same valid,
      near,
      held_positive n low held.0 b.packets b (skip_to low b) v.next_in word held.1 adv,
    )

pub timeout_flush-IsValid : (b : Buffer) → IsValid b → IsValid (timeout_flush b).buffer
unfolding timeout_flush
timeout_flush-IsValid b v = elim (Bool-cases (is_empty b.packets)) [
  | inl none_held ↦ subst IsValid (idle none_held) v
  | inr pending ↦ (timeout_flush_lem b v pending).3
]
  where
    idle : is_empty b.packets ≡ true → b ≡ (timeout_flush b).buffer
    idle e = ground arith

drain-IsValid : (b : Buffer) → IsValid b → IsValid (drain b).buffer
drain-IsValid b v =
    let left = (drain_in_order b v).2 in
    empty-IsValid (drain b).buffer (drain-next b v) (ap is_empty left)

run_out_stopped : (t : Timer) → run_out t ≡ stopped → t ≡ stopped
run_out_stopped t h = ground arith

pub step-IsValid : (e : Event) (b : Buffer) → IsWord e → IsValid b → IsValid (step e b)
unfolding step reset set_pacing set_skip_handler
step-IsValid (arrives seq e) b w v = push-IsValid seq e b v w
step-IsValid timer_ends b w v =
    adjust-IsValid b (run_out b.timer) b.pace b.dropped_old b.has_on_skip
      (λ p e. v.pending_timed p (run_out_stopped b.timer e)) v
step-IsValid timeout b w v = timeout_flush-IsValid b v
step-IsValid resets b w v = empty-IsValid (reset b) v.next_in refl
step-IsValid drains b w v = drain-IsValid b v
step-IsValid skip_handler b w v =
    adjust-IsValid b b.timer b.pace b.dropped_old true v.pending_timed v
step-IsValid (paces d) b w v =
    adjust-IsValid b b.timer (set_pacing d b).pace b.dropped_old b.has_on_skip v.pending_timed v

pub run-IsValid : (es : List Event) (b : Buffer) → All IsWord es → IsValid b → IsValid (run es b)
unfolding run
run-IsValid [] b w v = v
run-IsValid (e ∷ es) b w v = run-IsValid es (step e b) w.1 (step-IsValid e b w.0 v)
