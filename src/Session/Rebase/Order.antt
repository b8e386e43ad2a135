-- ===== src/Session/Rebase/Order.antt =====
-- The timeline of internal/session/uplink_video_ts_rebase.go never runs backwards, and keeps the distances of the
-- browser's timestamps between two discontinuities.
use webrtc_gateway.Base.{
  ℕ, arith, ◌<◌, ◌≡◌, true, ◌^◌, sub32, ◌≤◌, ◌⊎◌, none, ◌≢◌, List, u32, All, ◌+◌, ◌∷◌, [], subst,
}
use webrtc_gateway.Session.Rebase.{
  Rebaser, map_ts, reorder_window, max_timestamp_gap, wall_clock_step, Rebased,
}
use webrtc_gateway.Session.Normalizer.Numbering.{wall_clock_step-bounds, sub32-step}

pub record IsValid (r : Rebaser) : Type 0 where
  pub base_in : r.base < 2 ^ 32
  pub last_in_in : r.last_in < 2 ^ 32
  pub last_out_in : r.last_out < 2 ^ 32

-- Packets at the browser: a timestamp, an SSRC and the time.
pub record Arrival : Type 0 where
  pub at_browser : ℕ
  pub source : ℕ
  pub time : ℕ

-- The newest state after the packets, and what each of them gets.
unfoldable pub run : List Arrival → Rebaser → Rebaser × List Rebased
run [] r = (r, [])
run (a ∷ rest) r =
    let m = map_ts a.at_browser a.source a.time r in let (k, ms) = run rest m.state in (k, m ∷ ms)

sub32-sub32 : (o d : ℕ) → o < 2 ^ 32 → d < 2 ^ 32 → sub32 o (sub32 o d) ≡ d
sub32-sub32 o d a b = omega arith

map_ts-IsValid :
    (ts ssrc now : ℕ) (r : Rebaser) → ts < 2 ^ 32 → IsValid r → IsValid (map_ts ts ssrc now r).state
unfolding map_ts
map_ts-IsValid ts ssrc now r l v = ground arith

-- After the start a packet is a late one of the same stream, at its own distance behind the newest, or the newest
-- timestamp goes on by less than 2 ^ 31 ticks, by at least one where the packet is a discontinuity; within a stream the
-- step is that of the browser.
map_ts-advances :
    (ts ssrc now : ℕ) (r : Rebaser)
    → r.started ≡ true
    → ts < 2 ^ 32
    → IsValid r
    → let m = map_ts ts ssrc now r in
      ((m.state ≡ r)
        × (ssrc ≡ r.ssrc)
        × (sub32 r.last_out m.timestamp ≡ sub32 r.last_in ts)
        × (sub32 r.last_in ts ≤ reorder_window))
      ⊎ ((m.timestamp ≡ m.state.last_out)
          × (m.event ≡ none)
          × (ssrc ≡ r.ssrc)
          × (sub32 m.timestamp r.last_out ≡ sub32 ts r.last_in)
          × (sub32 ts r.last_in ≤ max_timestamp_gap))
      ⊎ ((m.timestamp ≡ m.state.last_out)
          × (m.event ≢ none)
          × (1 ≤ sub32 m.timestamp r.last_out)
          × (sub32 m.timestamp r.last_out < 2 ^ 31))
unfolding map_ts
map_ts-advances ts ssrc now r s l v =
    let w = wall_clock_step-bounds r.last_at now in
    let a = sub32-step r.last_out (sub32 ts r.last_in) in
    let b = sub32-step r.last_out (wall_clock_step r.last_at now).0 in
    let c = sub32-sub32 r.last_out (sub32 r.last_in ts) in ground arith

sub32-follow :
    (out newest ts : ℕ)
    → out < 2 ^ 32
    → newest < 2 ^ 32
    → ts < 2 ^ 32
    → sub32 (u32 (out + sub32 ts newest)) ts ≡ sub32 out newest
sub32-follow out newest ts a b c = omega arith

sub32-late :
    (out newest ts : ℕ)
    → out < 2 ^ 32
    → newest < 2 ^ 32
    → ts < 2 ^ 32
    → sub32 (sub32 out (sub32 newest ts)) ts ≡ sub32 out newest
sub32-late out newest ts a b c = omega arith

-- Every packet that is no discontinuity has the distance from its timestamp at the browser that its state had.
offset_kept :
    (ts ssrc now : ℕ) (r : Rebaser)
    → r.started ≡ true
    → ts < 2 ^ 32
    → IsValid r
    → let m = map_ts ts ssrc now r in
      m.event ≡ none
      → (sub32 m.timestamp ts ≡ sub32 r.last_out r.last_in)
        × (sub32 m.state.last_out m.state.last_in ≡ sub32 r.last_out r.last_in)
        × (m.state.started ≡ true)
unfolding map_ts
offset_kept ts ssrc now r s l v e =
    let a = sub32-follow r.last_out r.last_in ts in
    let b = sub32-late r.last_out r.last_in ts in ground arith

-- Packets that bring no discontinuity.
unfoldable pub Undisturbed : List Rebased → Type 0
Undisturbed ms = All (λ (m : Rebased). m.event ≡ none) ms

unfoldable pub OnTimeline : ℕ → List Arrival → List Rebased → Type 0
OnTimeline offset [] [] = Unit
OnTimeline offset (a ∷ rest) (m ∷ ms) =
    (sub32 m.timestamp a.at_browser ≡ offset) × OnTimeline offset rest ms
OnTimeline offset _ _ = ⊥

-- As long as there is no discontinuity all packets, late ones too, go out at one distance from their timestamps at the
-- browser, so that their distances from each other are kept.
pub run_offset :
    (rest : List Arrival) (r : Rebaser)
    → r.started ≡ true
    → IsValid r
    → All (λ (a : Arrival). a.at_browser < 2 ^ 32) rest
    → Undisturbed (run rest r).1
    → OnTimeline (sub32 r.last_out r.last_in) rest (run rest r).1
unfolding run Undisturbed OnTimeline
run_offset [] r s v ws us = tt
run_offset (a ∷ rest) r s v (w, ws) (u, us) =
    let m = map_ts a.at_browser a.source a.time r in
    let (e, f, t) = offset_kept a.at_browser a.source a.time r s w v u in
    let k = run_offset rest m.state t (map_ts-IsValid a.at_browser a.source a.time r w v) ws us in
    (e, subst (λ x. OnTimeline x rest (run rest m.state).1) f k)
