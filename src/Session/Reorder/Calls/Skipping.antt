-- ===== src/Session/Reorder/Calls/Skipping.antt =====
-- The timeout of internal/session/reorder_buffer.go: skipping to a held packet.
use webrtc_gateway.Base.{
  ℕ, zero, suc, ◌+◌, ◌^◌, ◌≤◌, ◌<◌, ◌≡◌, refl, none, [], ◌∷◌, arith, length, All, u16, sub16, ◌∙◌,
  ltb, if◌then◌else◌, subst, subst₂, ap₂,
}
use webrtc_gateway.Session.Reorder.Window.{
  Packets, InWindow, lookup, collect, lookup-none, delete_unheld, slide-InWindow,
}
use webrtc_gateway.Session.Reorder.Passes.{Passes, Passes-miss}
use webrtc_gateway.Session.Reorder.Advance.{
  IsValid, Advance, passed, flush_consecutive_lem, pending_bound,
}
use webrtc_gateway.Session.Reorder.{Buffer, Flush, window_size, flush_consecutive}
use webrtc_gateway.Session.Reorder.Calls.{skip_to}
use webrtc_gateway.Session.Reorder.Calls.Push.{Advance-rearm}

abbrev NoneBefore : ℕ → ℕ → Packets → Type 0
NoneBefore d s m = (j : ℕ) → j < 2 ^ 16 → sub16 j s < d → lookup j m ≡ none

NoneBefore-next :
    (d s : ℕ) (m : Packets)
    → s < 2 ^ 16
    → d < 2 ^ 16
    → NoneBefore (suc d) s m
    → NoneBefore d (u16 (s + 1)) m
NoneBefore-next d s m hs hd h = λ j hj l. h j hj (omega arith)

window_skip :
    (d s : ℕ) (m : Packets)
    → s < 2 ^ 16
    → d ≤ 2 ^ 16
    → NoneBefore d s m
    → All (InWindow window_size s) m
    → All (InWindow window_size (u16 (s + d))) m
window_skip zero s m hs hd h w = subst (λ t. All (InWindow window_size t) m) (omega arith) w
window_skip (suc d) s m hs hd h w =
    subst (λ t. All (InWindow window_size t) m) (omega arith)
      (window_skip d (u16 (s + 1)) m (omega arith) (omega arith)
        (NoneBefore-next d s m hs (omega arith) h)
        (subst (All (InWindow window_size (u16 (s + 1))))
          (delete_unheld s m (lookup-none s m (h s hs (omega arith))))
          (slide-InWindow window_size s m hs w)))

Passes-skip :
    (d n k s t : ℕ) (m : Packets) (f : Flush)
    → s < 2 ^ 16
    → d + n < 2 ^ 16
    → t ≡ u16 (s + d)
    → k ≡ f.skipped + d
    → NoneBefore d s m
    → Passes window_size n m t f
    → Passes window_size (d + n) m s (record f { skipped = k })
Passes-skip zero n k s t m f hs hn et ek h p = record {
  at = omega (arith, p.at);
  entries = p.entries ∙ ap₂ (λ a b. collect a b m) (omega arith) (omega arith);
  tally = omega (arith, p.tally);
  kept = p.kept;
  window = p.window;
  distinct = p.distinct;
  rest = λ j hj. ground (arith, p.rest j);
}
Passes-skip (suc d) n k s t m f hs hn et ek h p =
    subst₂ (λ a b. Passes window_size a m s (record f { skipped = b })) (omega arith) (omega arith)
      (Passes-miss window_size (d + n) m s (record f { skipped = f.skipped + d }) hs (omega arith)
        (h s hs (omega arith))
        (Passes-skip d n (f.skipped + d) (u16 (s + 1)) t m f (omega arith) (omega arith)
          (omega arith) refl (NoneBefore-next d s m hs (omega arith) h) p))

-- Skipping to a packet that is held loses exactly the numbers before it.
pub skip_to-Advance :
    (low : ℕ) (b : Buffer)
    → IsValid b
    → low < 2 ^ 16
    → sub16 low b.next_seq < window_size
    → NoneBefore (sub16 low b.next_seq) b.next_seq b.packets
    → (n : ℕ) × Advance
        (sub16 low b.next_seq + n)
        (sub16 low b.next_seq)
        b.packets
        b
        (skip_to low b)
unfolding skip_to
skip_to-Advance low b v hl near before =
    let d = sub16 low b.next_seq in
    let b1 : Buffer = record b {
      next_seq = low;
      timed_out = b.timed_out + d;
      skip_events = if ltb 0 d then b.skip_events + 1 else b.skip_events;
    } in
    let w : All (InWindow window_size low) b.packets =
      subst (λ t. All (InWindow window_size t) b.packets) (omega arith)
        (window_skip d b.next_seq b.packets v.next_in (omega arith) before v.window) in
    let a = flush_consecutive_lem b1 hl w v.distinct in
    let n = length (flush_consecutive b1).writes in
    let few = pending_bound b v in
    (
      n,
      Advance-rearm (d + n) d b.packets b
          (record {
            buffer = (flush_consecutive b1).buffer;
            writes = (flush_consecutive b1).writes;
            skips =
                if ltb 0 d
                then record { count = d; from_seq = b.next_seq; to_seq = sub16 low 1 } ∷ []
                else [];
          })
          (record {
            passes =
                Passes-skip d n d b.next_seq low b.packets (passed 0 (flush_consecutive b1))
                  v.next_in (omega (arith, a.passes.kept)) (omega arith) (omega arith) before
                  a.passes;
            gap = a.gap;
            small = omega (arith, a.passes.kept);
            counted = a.counted;
            lost = omega (arith, a.lost);
            reported = ground arith;
            not_dropped = a.not_dropped;
          }),
    )
