-- ===== src/Session/Reorder/Calls/Valid.antt =====
-- The invariant of the reorder buffer (internal/session/reorder_buffer.go) is kept by every call.
use webrtc_gateway.Session.Reorder.Calls.Far.{push_far-Advance}
use webrtc_gateway.Base.{
  ℕ, ◌+◌, ◌/◌, ◌^◌, ◌≤◌, ◌<◌, ◌≡◌, ◌≢◌, refl, true, false, ltb, if◌then◌else◌, Bool-cases,
  Option-cases, inl, inr, none, some, [], ◌∷◌, arith, length, is_empty, sub16,
}
use native.Mathlib.Decide.{dec_lt, ℕ_discrete}
use webrtc_gateway.Session.Reorder.Window.{Entry, Packets, lookup, lookup_outside}
use webrtc_gateway.Session.Reorder.Advance.{IsValid, Advance}
use webrtc_gateway.Session.Reorder.{
  Buffer, Outcome, stopped, window_size, flush_consecutive, force_flush_to,
}
use webrtc_gateway.Session.Reorder.Calls.Push.{push_expected-Advance, push_ahead-Advance}
use webrtc_gateway.Session.Reorder.Calls.{
  push, push_expected, push_ahead, push_far, insert_absent, rearm_if_pending, skip_to,
}

pub nonempty_of_le : (l m : Packets) → length l ≤ length m → is_empty l ≡ false → is_empty m ≡ false
nonempty_of_le [] m h e = cc
nonempty_of_le (p ∷ l) [] h e = absurd (omega arith)
nonempty_of_le (p ∷ l) (q ∷ m) h e = refl

-- The fields of the buffer that decide who may still flush it.
pub record Guards (b : Buffer) : Type 0 where
  pub timed_guard : is_empty b.packets ≡ false → b.timer ≢ stopped
  pub based_guard : is_empty b.packets ≡ false → b.has_base ≡ true
  pub open_guard : is_empty b.packets ≡ false → b.closed ≡ false

pub Advance-IsValid :
    {n k : ℕ} {m : Packets} {b : Buffer} {o : Outcome}
    → Advance n k m b o
    → Guards o.buffer
    → IsValid o.buffer
Advance-IsValid a g = record {
  next_in = omega (arith, a.passes.at);
  window = a.passes.window;
  distinct = a.passes.distinct;
  gap = a.gap;
  pending_timed = g.timed_guard;
  pending_based = g.based_guard;
  pending_open = g.open_guard;
}

-- A push that is neither refused nor late.
pub record Accepts (seq : ℕ) (b : Buffer) : Type 0 where
  pub still_open : b.closed ≡ false
  pub based : b.has_base ≡ true
  pub word : seq < 2 ^ 16
  pub ahead : sub16 seq b.next_seq < 0x8000

push_expected-Guards :
    (e : Entry) (b : Buffer) {n : ℕ}
    → IsValid b
    → b.closed ≡ false
    → b.has_base ≡ true
    → Advance n 0 ((b.next_seq, e) ∷ b.packets) b (push_expected e b)
    → Guards (push_expected e b).buffer
unfolding push_expected flush_consecutive
push_expected-Guards e b v c h a = record {
  timed_guard = λ pending. rw pending (v.pending_timed (before pending));
  based_guard = λ _. h;
  open_guard = λ _. c;
}
  where
    before : is_empty (push_expected e b).buffer.packets ≡ false → is_empty b.packets ≡ false
    before =
        nonempty_of_le (push_expected e b).buffer.packets b.packets (omega (arith, a.passes.kept))

pub rearm-Guards : (b : Buffer) → b.closed ≡ false → b.has_base ≡ true → Guards (rearm_if_pending b)
unfolding rearm_if_pending
rearm-Guards b c h = elim (Bool-cases (is_empty b.packets)) [
  | inl gone ↦
      rw (gone, rearm_if_pending)
        (record { timed_guard = λ pending. cc; based_guard = λ _. h; open_guard = λ _. c })
  | inr pending ↦
      rw (pending, rearm_if_pending)
        (record { timed_guard = λ _ e. cc; based_guard = λ _. h; open_guard = λ _. c })
]

push_ahead-Guards :
    (seq : ℕ) (e : Entry) (b : Buffer)
    → IsValid b
    → b.closed ≡ false
    → b.has_base ≡ true
    → Guards (push_ahead seq e b).buffer
unfolding push_ahead
push_ahead-Guards seq e b v c h = elim (Option-cases (lookup seq b.packets)) [
  | inl miss ↦
      rw (miss, push_ahead)
        (record { timed_guard = λ _ e. cc; based_guard = λ _. h; open_guard = λ _. c })
  | inr (x, hit) ↦
      rw (hit, push_ahead)
        (record { timed_guard = v.pending_timed; based_guard = λ _. h; open_guard = λ _. c })
]

push_far-Guards :
    (seq : ℕ) (e : Entry) (b : Buffer)
    → b.closed ≡ false
    → b.has_base ≡ true
    → Guards (push_far seq e b).buffer
unfolding push_far flush_consecutive force_flush_to insert_absent
push_far-Guards seq e b c h =
    let o = force_flush_to (sub16 seq (window_size / 2)) b in
    let m = o.buffer.packets in
    let fresh : ℕ = elim (lookup seq m) [ none ↦ 1 | some _ ↦ 0 ] in
    let b1 : Buffer = record (o.buffer) {
      packets = insert_absent seq e m;
      buffered = o.buffer.buffered + fresh;
    } in
    rearm-Guards (flush_consecutive b1).buffer c h

pub skip_to-Guards :
    (low : ℕ) (b : Buffer) → b.closed ≡ false → b.has_base ≡ true → Guards (skip_to low b).buffer
unfolding skip_to flush_consecutive
skip_to-Guards low b c h =
    let d = sub16 low b.next_seq in
    let b1 : Buffer = record b {
      next_seq = low;
      timed_out = b.timed_out + d;
      skip_events = if ltb 0 d then b.skip_events + 1 else b.skip_events;
    } in
    rearm-Guards (flush_consecutive b1).buffer c h

push_expected_eq :
    (seq : ℕ) (e : Entry) (b : Buffer)
    → Accepts seq b
    → b.next_seq < 2 ^ 16
    → sub16 seq b.next_seq ≡ 0
    → (seq ≡ b.next_seq) × (push seq e b ≡ push_expected e b)
unfolding push
push_expected_eq seq e b a hn h = (omega arith, rw (a.still_open, a.based, h))

push_ahead_eq :
    (seq : ℕ) (e : Entry) (b : Buffer)
    → Accepts seq b
    → sub16 seq b.next_seq ≢ 0
    → sub16 seq b.next_seq < window_size
    → push seq e b ≡ push_ahead seq e b
unfolding push
push_ahead_eq seq e b a ne lt = ground arith

push_far_eq :
    (seq : ℕ) (e : Entry) (b : Buffer)
    → Accepts seq b
    → window_size ≤ sub16 seq b.next_seq
    → push seq e b ≡ push_far seq e b
unfolding push
push_far_eq seq e b a le = ground arith

abbrev Pushed : ℕ → Entry → Buffer → Outcome → Type 0
Pushed seq e b o =
    (n : ℕ) × (k : ℕ) × Advance n k (insert_absent seq e b.packets) b o × IsValid o.buffer

pub push_lem :
    (seq : ℕ) (e : Entry) (b : Buffer) → IsValid b → Accepts seq b → Pushed seq e b (push seq e b)
unfolding insert_absent
push_lem seq e b v a = elim (ℕ_discrete (sub16 seq b.next_seq) 0) [
  | yes zero_offset ↦
      let (same, eq) = push_expected_eq seq e b a v.next_in zero_offset in
      let (n, adv) = push_expected-Advance e b v in
      rw (eq, same, v.gap, insert_absent, same)
        (n, 0, adv, Advance-IsValid adv (push_expected-Guards e b v a.still_open a.based adv))
  | no ne ↦ elim (dec_lt (sub16 seq b.next_seq) window_size) [
    | yes lt ↦
        let adv = push_ahead-Advance seq e b v a.word ne lt in
        rw (push_ahead_eq seq e b a ne lt)
          (0, 0, adv, Advance-IsValid adv (push_ahead-Guards seq e b v a.still_open a.based))
    | no ge ↦
        let far : window_size ≤ sub16 seq b.next_seq = omega arith in
        let (n, k, _, _, adv) = push_far-Advance seq e b v a.word far a.ahead in
        rw
          (
            push_far_eq seq e b a far,
            lookup_outside seq window_size b.next_seq b.packets v.window far,
            insert_absent,
          )
          (n, k, adv, Advance-IsValid adv (push_far-Guards seq e b a.still_open a.based))
  ]
]
