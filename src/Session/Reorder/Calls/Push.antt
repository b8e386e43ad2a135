-- ===== src/Session/Reorder/Calls/Push.antt =====
-- `Push` of internal/session/reorder_buffer.go inside the window, as an advance of it.
use webrtc_gateway.Base.{
  ℕ, suc, ◌+◌, ◌^◌, ◌<◌, ◌≡◌, refl, false, [], ◌∷◌, arith, length, is_empty, u16, sub16, sym, subst,
  Bool-cases, Option-cases, inl, inr, ◌≢◌,
}
use webrtc_gateway.Session.Reorder.Window.{
  Entry, Packets, lookup, delete, lookup-none, delete_unheld,
}
use webrtc_gateway.Session.Reorder.Passes.{Passes, Passes-hit, Passes-zero}
use webrtc_gateway.Session.Reorder.Advance.{
  IsValid, Advance, passed, slide_gap, flush_consecutive_lem, pending_bound,
}
use webrtc_gateway.Session.Reorder.{Buffer, Outcome, window_size, flush_consecutive}
use webrtc_gateway.Session.Reorder.Calls.{
  push_expected, push_ahead, insert_absent, rearm_if_pending,
}

-- The expected packet goes out, and those that waited behind it.
pub push_expected-Advance :
    (e : Entry) (b : Buffer)
    → IsValid b
    → (n : ℕ) × Advance n 0 ((b.next_seq, e) ∷ b.packets) b (push_expected e b)
unfolding push_expected lookup delete
push_expected-Advance e b v =
    let b1 : Buffer = record b { released = b.released + 1; next_seq = u16 (b.next_seq + 1) } in
    let a = flush_consecutive_lem b1 (omega arith) (slide_gap b v) v.distinct in
    let n = length (flush_consecutive b1).writes in
    let gone : delete b.next_seq ((b.next_seq, e) ∷ b.packets) ≡ b.packets =
      ground (arith, delete_unheld b.next_seq b.packets (lookup-none b.next_seq b.packets v.gap)) in
    let full = pending_bound b v in
    (
      suc n,
      record {
        passes =
            Passes-hit window_size n ((b.next_seq, e) ∷ b.packets) b.next_seq e false
              (passed 0 (flush_consecutive b1)) v.next_in a.small
              (lookup-none b.next_seq b.packets v.gap, v.distinct) (ground arith)
              (subst
                (λ m.
                  Passes window_size n m (u16 (b.next_seq + 1)) (passed 0 (flush_consecutive b1)))
                (sym gone) a.passes);
        gap = a.gap;
        small = omega (arith, a.passes.kept, full);
        counted = omega (arith, a.counted);
        lost = a.lost;
        reported = a.reported;
        not_dropped = a.not_dropped;
      },
    )

pub quiet-Advance :
    (b : Buffer)
    → IsValid b
    → Advance 0 0 b.packets b (record { buffer = b; writes = []; skips = [] })
quiet-Advance b v = record {
  passes = Passes-zero window_size b.packets b.next_seq v.next_in v.window v.distinct;
  gap = v.gap;
  small = omega arith;
  counted = omega arith;
  lost = omega arith;
  reported = refl;
  not_dropped = refl;
}

-- A packet inside the window waits; one that is held already is ignored.
pub push_ahead-Advance :
    (seq : ℕ) (e : Entry) (b : Buffer)
    → IsValid b
    → seq < 2 ^ 16
    → sub16 seq b.next_seq ≢ 0
    → sub16 seq b.next_seq < window_size
    → Advance 0 0 (insert_absent seq e b.packets) b (push_ahead seq e b)
unfolding push_ahead insert_absent lookup
push_ahead-Advance seq e b v hs ne lt = elim (Option-cases (lookup seq b.packets)) [
  | inl miss ↦
      rw (miss, push_ahead, insert_absent)
        (record {
          passes =
              Passes-zero window_size ((seq, e) ∷ b.packets) b.next_seq v.next_in
                ((hs, lt), v.window) (lookup-none seq b.packets miss, v.distinct);
          gap = ground arith;
          small = omega arith;
          counted = omega arith;
          lost = omega arith;
          reported = refl;
          not_dropped = refl;
        })
  | inr (x, hit) ↦ rw (hit, push_ahead, insert_absent) (quiet-Advance b v)
]

-- Arming the timer moves nothing.
pub Advance-rearm :
    (n k : ℕ) (m : Packets) (b : Buffer) (o : Outcome)
    → Advance n k m b o
    → Advance n k m b (record o { buffer = rearm_if_pending o.buffer })
unfolding rearm_if_pending
Advance-rearm n k m b o a = elim (Bool-cases (is_empty o.buffer.packets)) [
  | inl none_left ↦ rw (none_left, rearm_if_pending) a
  | inr pending ↦
      rw (pending, rearm_if_pending)
        (record {
          passes = record {
            at = a.passes.at;
            entries = a.passes.entries;
            tally = a.passes.tally;
            kept = a.passes.kept;
            window = a.passes.window;
            distinct = a.passes.distinct;
            rest = a.passes.rest;
          };
          gap = a.gap;
          small = a.small;
          counted = a.counted;
          lost = a.lost;
          reported = a.reported;
          not_dropped = a.not_dropped;
        })
]
