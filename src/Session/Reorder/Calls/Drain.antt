-- ===== src/Session/Reorder/Calls/Drain.antt =====
-- `Drain` of internal/session/reorder_buffer.go: its loop ends, and loses nothing.
use mathlib.Core.List.{map}
use webrtc_gateway.Base.{
  ℕ, zero, suc, ◌+◌, ◌^◌, ◌≤◌, ◌<◌, ◌≡◌, refl, true, none, [], ◌∷◌, arith, length, All, u16, ap,
  sym, ◌∙◌, Option-cases, inl, inr, subst, Bool-cases,
}
use webrtc_gateway.Session.Reorder.Window.{
  Entry, Packets, InWindow, Distinct, lookup, delete, collect, lookup-none, delete_unheld,
  delete-InWindow, delete-Distinct, length-delete, collect-delete, Absent-lookup,
}
use webrtc_gateway.Session.Reorder.Counting.{collect-none}
use webrtc_gateway.Session.Reorder.Passes.{entry_of}
use webrtc_gateway.Session.Reorder.Advance.{IsValid}
use webrtc_gateway.Session.Reorder.{Buffer, window_size, to_write}
use webrtc_gateway.Session.Reorder.Calls.{Drained, drain_loop, drain, any_ahead}

any_ahead_of_window :
    (n s : ℕ) (p : ℕ × Entry) (m : Packets)
    → n ≤ 0x8000
    → All (InWindow n s) (p ∷ m)
    → any_ahead s (p ∷ m) ≡ true
unfolding any_ahead
any_ahead_of_window n s (k, e) m hn w = ground arith

-- After a miss the window is shorter too.
miss-InWindow :
    (n s : ℕ) (m : Packets)
    → s < 2 ^ 16
    → n < 2 ^ 16
    → lookup s m ≡ none
    → All (InWindow (suc n) s) m
    → All (InWindow n (u16 (s + 1))) m
miss-InWindow n s m hs hn h w =
    subst (All (InWindow n (u16 (s + 1)))) (delete_unheld s m (lookup-none s m h))
      (delete-InWindow n s m hs hn w)

record Emptied (n s : ℕ) (m : Packets) (d : Drained) : Type 0 where
  none_left : d.left ≡ []
  entries : map entry_of d.out ≡ collect n s m
  all_out : length d.out ≡ length m
  none_stale : d.stale ≡ 0

Emptied-nil : (n s fuel : ℕ) → s < 2 ^ 16 → n ≤ 2 ^ 16 → Emptied n s [] (drain_loop fuel [] s)
unfolding drain_loop
Emptied-nil n s zero hs hn = record {
  none_left = refl;
  entries = sym (collect-none n s [] hs hn (λ j hj l. Absent-lookup j [] tt));
  all_out = refl;
  none_stale = refl;
}
Emptied-nil n s (suc fuel) hs hn = record {
  none_left = refl;
  entries = sym (collect-none n s [] hs hn (λ j hj l. Absent-lookup j [] tt));
  all_out = refl;
  none_stale = refl;
}

drain_loop-Emptied :
    (n fuel s : ℕ) (m : Packets)
    → s < 2 ^ 16
    → n ≤ fuel
    → n ≤ 0x8000
    → All (InWindow n s) m
    → Distinct m
    → Emptied n s m (drain_loop fuel m s)
unfolding drain_loop collect to_write
drain_loop-Emptied n fuel s [] hs hf hn w d = Emptied-nil n s fuel hs (omega arith)
drain_loop-Emptied zero fuel s (p ∷ m) hs hf hn w d = absurd (omega arith)
drain_loop-Emptied (suc n) zero s (p ∷ m) hs hf hn w d = absurd (omega arith)
drain_loop-Emptied (suc n) (suc fuel) s (p ∷ m) hs hf hn w d =
    elim (Option-cases (lookup s (p ∷ m))) [
      | inl miss ↦
          let w' = miss-InWindow n s (p ∷ m) hs (omega arith) miss w in
          let r =
            drain_loop-Emptied n fuel (u16 (s + 1)) (p ∷ m) (omega arith) (omega arith)
              (omega arith) w' d in
          rw (miss, any_ahead_of_window n (u16 (s + 1)) p m (omega arith) w', drain_loop)
            (record {
              none_left = r.none_left;
              entries = r.entries ∙ ground (arith, miss);
              all_out = r.all_out;
              none_stale = r.none_stale;
            })
      | inr (e, hit) ↦
          let m' = delete s (p ∷ m) in
          let r =
            drain_loop-Emptied n fuel (u16 (s + 1)) m' (omega arith) (omega arith) (omega arith)
              (delete-InWindow n s (p ∷ m) hs (omega arith) w) (delete-Distinct s (p ∷ m) d) in
          rw (hit, drain_loop)
            (record {
              none_left = r.none_left;
              entries = ground (
                arith,
                r.entries,
                collect-delete s n (u16 (s + 1)) (p ∷ m) hs (omega arith) (omega arith),
              );
              all_out = omega (arith, r.all_out, length-delete s e (p ∷ m) d hit);
              none_stale = r.none_stale;
            })
    ]

-- Drain hands out every packet that is held, in sequence order, and discards none.
pub drain_in_order :
    (b : Buffer)
    → IsValid b
    → let o = drain b in
      (map entry_of o.writes ≡ collect window_size b.next_seq b.packets)
      × (length o.writes ≡ length b.packets)
      × (o.buffer.packets ≡ [])
      × (o.buffer.released ≡ b.released + length b.packets)
      × (o.buffer.dropped_old ≡ b.dropped_old)
      × (o.buffer.closed ≡ true)
unfolding drain
drain_in_order b v =
    let r =
      drain_loop-Emptied window_size (2 ^ 16) b.next_seq b.packets v.next_in (omega arith)
        (omega arith) v.window v.distinct in
    (
      r.entries,
      r.all_out,
      r.none_left,
      ap (λ k. b.released + k) r.all_out,
      omega (arith, r.none_stale),
      refl,
    )

-- The loop ends in every state, valid or not: 2¹⁶ rounds leave no packet.
pub drain_loop_ends :
    (fuel s : ℕ) (m : Packets)
    → s < 2 ^ 16
    → fuel ≤ 2 ^ 16
    → All (InWindow fuel s) m
    → (drain_loop fuel m s).left ≡ []
unfolding drain_loop
drain_loop_ends zero s [] hs hf w = refl
drain_loop_ends zero s (p ∷ m) hs hf w = absurd (omega arith)
drain_loop_ends (suc fuel) s [] hs hf w = refl
drain_loop_ends (suc fuel) s (p ∷ m) hs hf w = elim (Option-cases (lookup s (p ∷ m))) [
  | inl miss ↦ elim (Bool-cases (any_ahead (u16 (s + 1)) (p ∷ m))) [
    | inl more ↦
        rw (miss, more, drain_loop)
          (drain_loop_ends fuel (u16 (s + 1)) (p ∷ m) (omega arith) (omega arith)
            (miss-InWindow fuel s (p ∷ m) hs (omega arith) miss w))
    | inr stale ↦ rw (miss, stale, drain_loop)
  ]
  | inr (e, hit) ↦
      rw (hit, drain_loop)
        (drain_loop_ends fuel (u16 (s + 1)) (delete s (p ∷ m)) (omega arith) (omega arith)
          (delete-InWindow fuel s (p ∷ m) hs (omega arith) w))
]

drain_loop-next : (fuel s : ℕ) (m : Packets) → s < 2 ^ 16 → (drain_loop fuel m s).next < 2 ^ 16
unfolding drain_loop
drain_loop-next zero s m hs = hs
drain_loop-next (suc fuel) s [] hs = hs
drain_loop-next (suc fuel) s (p ∷ m) hs = ground (
  arith,
  drain_loop-next fuel (u16 (s + 1)) (p ∷ m),
  drain_loop-next fuel (u16 (s + 1)) (delete s (p ∷ m)),
)

pub drain-next : (b : Buffer) → IsValid b → (drain b).buffer.next_seq < 2 ^ 16
unfolding drain
drain-next b v = drain_loop-next (2 ^ 16) b.next_seq b.packets v.next_in
