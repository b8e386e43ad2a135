-- ===== src/Session/Reorder/Calls/Far.antt =====
-- `Push` of internal/session/reorder_buffer.go beyond the window: a forced flush, an insertion and a
-- second flush.
use webrtc_gateway.Base.{
  ℕ, ◌+◌, ◌-◌, ◌^◌, ◌≤◌, ◌<◌, ◌≡◌, refl, none, ◌∷◌, ◌++◌, arith, length, All, sub16, ◌∙◌, sym,
  map-append, ap₂, length-append,
}
use webrtc_gateway.Session.Reorder.Window.{
  Entry, Packets, InWindow, Distinct, lookup, lookup-none, lookup_outside,
}
use webrtc_gateway.Session.Reorder.Passes.{Passes, entry_of}
use webrtc_gateway.Session.Reorder.Counting.{length-InWindow, collect_ext, collect_add}
use webrtc_gateway.Session.Reorder.Advance.{
  IsValid, Advance, passed, flush_consecutive_lem, force_flush_to_lem,
}
use webrtc_gateway.Session.Reorder.{Buffer, Flush, window_size, flush_consecutive, force_flush_to}
use webrtc_gateway.Session.Reorder.Calls.{push_far, insert_absent}
use webrtc_gateway.Session.Reorder.Calls.Push.{Advance-rearm}

-- A forced flush, an insertion beyond it and a second flush are one run over the window with the
-- packet in it.
Passes-join :
    (n1 n2 seq : ℕ) (e : Entry) (m : Packets) (s : ℕ) (f1 f2 : Flush)
    → s < 2 ^ 16
    → seq < 2 ^ 16
    → n1 ≤ sub16 seq s
    → n1 + n2 < 2 ^ 16
    → Passes window_size n1 m s f1
    → Passes window_size n2 ((seq, e) ∷ f1.left) f1.next f2
    → f2.skipped ≡ 0
    → Passes window_size
        (n1 + n2)
        ((seq, e) ∷ m)
        s
        (record f2 { out = f1.out ++ f2.out; skipped = f1.skipped })
unfolding lookup
Passes-join n1 n2 seq e m s f1 f2 hs hq far lt p q z = record {
  at = omega (arith, p.at, q.at);
  entries =
      map-append entry_of f1.out f2.out
      ∙ ap₂ ◌++◌
          (p.entries ∙ collect_ext n1 s m ((seq, e) ∷ m) hs (omega arith) (λ j hj l. ground arith))
          (q.entries
            ∙ collect_ext n2 f1.next ((seq, e) ∷ f1.left) ((seq, e) ∷ m) (omega (arith, p.at))
                (omega arith) (λ j hj l. ground (arith, p.rest j, p.at)))
      ∙ sym (collect_add n1 n2 s f1.next ((seq, e) ∷ m) hs p.at);
  tally = omega (arith, p.tally, q.tally, length-append f1.out f2.out);
  kept = omega (arith, p.kept, q.kept, length-append f1.out f2.out);
  window = q.window;
  distinct = q.distinct;
  rest = λ j hj. ground (arith, q.rest j, p.rest j, p.at);
}

-- A packet beyond the window forces the window on to 32 numbers before it.
pub push_far-Advance :
    (seq : ℕ) (e : Entry) (b : Buffer)
    → IsValid b
    → seq < 2 ^ 16
    → window_size ≤ sub16 seq b.next_seq
    → sub16 seq b.next_seq < 0x8000
    → (n : ℕ) × (k : ℕ) × (n < 0x8000 + 128)
      × (sub16 seq b.next_seq ≤ n + 32)
      × Advance n k ((seq, e) ∷ b.packets) b (push_far seq e b)
unfolding push_far insert_absent
push_far-Advance seq e b v hs far near =
    let n1 = sub16 seq b.next_seq - 32 in
    let t = sub16 seq 32 in
    let o = force_flush_to t b in
    let forced =
      force_flush_to_lem n1 t b v.next_in (omega arith) (omega arith) v.window v.distinct in
    let p = forced.1 in
    let outside : lookup seq b.packets ≡ none =
      lookup_outside seq window_size b.next_seq b.packets v.window far in
    let miss : lookup seq o.buffer.packets ≡ none = ground (arith, p.rest seq, outside) in
    let b1 : Buffer = record (o.buffer) {
      packets = (seq, e) ∷ o.buffer.packets;
      buffered = o.buffer.buffered + 1;
    } in
    let inside : All (InWindow window_size o.buffer.next_seq) ((seq, e) ∷ o.buffer.packets) =
      ((hs, omega (arith, p.at)), p.window) in
    let once : Distinct ((seq, e) ∷ o.buffer.packets) =
      (lookup-none seq o.buffer.packets miss, p.distinct) in
    let a = flush_consecutive_lem b1 (omega (arith, p.at)) inside once in
    let n2 = length (flush_consecutive b1).writes in
    let few : n2 ≤ 64 = omega (
      arith,
      a.passes.kept,
      length-InWindow window_size o.buffer.next_seq ((seq, e) ∷ o.buffer.packets)
          (omega (arith, p.at)) (omega arith) inside once,
    ) in
    (
      n1 + n2,
      forced.0,
      omega arith,
      omega arith,
      rw (miss, push_far, insert_absent)
          (Advance-rearm (n1 + n2) forced.0 ((seq, e) ∷ b.packets) b
            (record {
              buffer = (flush_consecutive b1).buffer;
              writes = o.writes ++ (flush_consecutive b1).writes;
              skips = o.skips;
            })
            (record {
              passes =
                  Passes-join n1 n2 seq e b.packets b.next_seq (passed forced.0 o)
                    (passed 0 (flush_consecutive b1)) v.next_in hs (omega arith) (omega arith) p
                    a.passes refl;
              gap = a.gap;
              small = omega arith;
              counted = omega (
                arith,
                a.counted,
                forced.2,
                length-append o.writes (flush_consecutive b1).writes,
              );
              lost = omega (arith, a.lost, forced.3);
              reported = forced.4;
              not_dropped = a.not_dropped ∙ forced.5;
            })),
    )
