-- ===== src/Session/Reorder/Calls/Lowest.antt =====
-- The search for the lowest buffered packet in `timeoutFlush` (internal/session/reorder_buffer.go).
use webrtc_gateway.Base.{
  ℕ, ◌^◌, ◌≤◌, ◌<◌, ◌≡◌, refl, false, none, some, [], ◌∷◌, arith, is_empty, All, sub16, Bool-cases,
  inl, inr, ◌⊎◌, ==→ne, sym, ◌==◌,
}
use webrtc_gateway.Session.Reorder.Window.{Entry, Packets, InWindow, lookup}
use webrtc_gateway.Session.Reorder.{window_size}
use webrtc_gateway.Session.Reorder.Calls.{better, lowest_from}

abbrev pub AtLeast : ℕ → ℕ → ℕ × Entry → Type 0
AtLeast next low p = sub16 low next ≤ sub16 p.0 next

record IsNearest (next : ℕ) (m : Packets) (best low : ℕ) : Type 0 where
  found : lowest_from next m (some best) ≡ some low
  word : low < 2 ^ 16
  near : sub16 low next < window_size
  below_best : sub16 low next ≤ sub16 best next
  below_all : All (AtLeast next low) m
  held : (low ≡ best) ⊎ ((e : Entry) × (lookup low m ≡ some e))

better-min :
    (next seq best : ℕ)
    → next < 2 ^ 16
    → seq < 2 ^ 16
    → best < 2 ^ 16
    → sub16 seq next < window_size
    → sub16 best next < window_size
    → ((better seq (some best) ≡ some seq) × (sub16 seq next ≤ sub16 best next))
      ⊎ ((better seq (some best) ≡ some best) × (sub16 best next ≤ sub16 seq next))
unfolding better
better-min next seq best hn hs hb ws wb = ground arith

held_cons :
    (low seq : ℕ) (e : Entry) (m : Packets)
    → (low ≡ seq) ⊎ ((x : Entry) × (lookup low m ≡ some x))
    → (x : Entry) × (lookup low ((seq, e) ∷ m) ≡ some x)
unfolding lookup
held_cons low seq e m h = elim (Bool-cases (seq == low)) [
  | inl same ↦ (e, rw same)
  | inr other ↦ elim h [
    | inl eq ↦ absurd (==→ne seq low other (sym eq))
    | inr (x, l) ↦ (x, rw other l)
  ]
]

held_later :
    (low seq best : ℕ) (e : Entry) (m : Packets)
    → (low ≡ best) ⊎ ((x : Entry) × (lookup low m ≡ some x))
    → (low ≡ best) ⊎ ((x : Entry) × (lookup low ((seq, e) ∷ m) ≡ some x))
held_later low seq best e m (inl eq) = inl eq
held_later low seq best e m (inr h) = inr (held_cons low seq e m (inr h))

lowest_from-IsNearest :
    (next : ℕ) (m : Packets) (best : ℕ)
    → next < 2 ^ 16
    → best < 2 ^ 16
    → sub16 best next < window_size
    → All (InWindow window_size next) m
    → (low : ℕ) × IsNearest next m best low
unfolding lowest_from lookup
lowest_from-IsNearest next [] best hn hb wb w = (
  best,
  record {
    found = refl;
    word = hb;
    near = wb;
    below_best = omega arith;
    below_all = tt;
    held = inl refl;
  },
)
lowest_from-IsNearest next ((seq, e) ∷ m) best hn hb wb w =
    elim (better-min next seq best hn w.0.0 hb w.0.1 wb) [
      | inl (eq, le) ↦
          let (low, l) = lowest_from-IsNearest next m seq hn w.0.0 w.0.1 w.1 in
          (
            low,
            record {
              found = ground (arith, l.found);
              word = l.word;
              near = l.near;
              below_best = omega (arith, l.below_best);
              below_all = (l.below_best, l.below_all);
              held = inr (held_cons low seq e m l.held);
            },
          )
      | inr (eq, le) ↦
          let (low, l) = lowest_from-IsNearest next m best hn hb wb w.1 in
          (
            low,
            record {
              found = ground (arith, l.found);
              word = l.word;
              near = l.near;
              below_best = l.below_best;
              below_all = (omega (arith, l.below_best), l.below_all);
              held = held_later low seq best e m l.held;
            },
          )
    ]

-- In a window that is not empty the search finds the packet nearest to `next`.
pub lowest_from_lem :
    (next : ℕ) (m : Packets)
    → next < 2 ^ 16
    → All (InWindow window_size next) m
    → is_empty m ≡ false
    → (low : ℕ) × (lowest_from next m none ≡ some low)
      × (low < 2 ^ 16)
      × (sub16 low next < window_size)
      × All (AtLeast next low) m
      × ((e : Entry) × (lookup low m ≡ some e))
unfolding lowest_from lookup better
lowest_from_lem next [] hn w h = cc
lowest_from_lem next ((seq, e) ∷ m) hn w h =
    let (low, l) = lowest_from-IsNearest next m seq hn w.0.0 w.0.1 w.1 in
    (
      low,
      ground (arith, l.found),
      l.word,
      l.near,
      (l.below_best, l.below_all),
      held_cons low seq e m l.held,
    )

pub none_below :
    (next low j : ℕ) (m : Packets)
    → All (AtLeast next low) m
    → sub16 j next < sub16 low next
    → lookup j m ≡ none
unfolding lookup
none_below next low j [] h l = refl
none_below next low j ((k, e) ∷ m) h l = ground (arith, none_below next low j m h.1)
