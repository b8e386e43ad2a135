-- ===== src/Session/Normalizer/Complete.antt =====
-- internal/session/h264_access_unit_normalizer.go hands out an access unit only when all of it is there: one
-- timestamp, no gap in the sequence numbers, every fragmentation unit whole, the marker at its end.
use webrtc_gateway.Base.{
  ℕ, arith, Bool, true, false, [], ◌∷◌, ◌++◌, refl, none, some, List, Option, ◌≡◌, u16, get_or, ◌⊎◌,
  ◌+◌, ◌≤◌, length, ◌<◌, if◌then◌else◌, ◌!=◌, subst, sym, ◌||◌, ltb, ◌-◌, if_cases, not, ◌&&◌,
}
use webrtc_gateway.Session.Rtp.{Packet}
use webrtc_gateway.Session.Normalizer.Assemble.{
  observe, Fragment, observe_fua, is_nal_type, fragment, is_some, start_au, open_au, take_packet,
  check_size, check_seq, set_fragment, gather,
}
use webrtc_gateway.Session.Normalizer.{Normalizer, drop_current, reset_current}
use webrtc_gateway.Session.Bits.{bit7, bit6, low5}
use webrtc_gateway.Session.Normalizer.Nal.{first_byte, inspect_stapa}

unfoldable pub Follows : Option ℕ → ℕ → Type 0
Follows none seq = Unit
Follows (some last) seq = seq ≡ u16 (last + 1)

-- A fragment of an FU-A with its header's type.
unfoldable pub IsFragment : List ℕ → ℕ → Type 0
IsFragment payload t =
    (low5 (first_byte payload) ≡ 28)
    × (3 ≤ length payload)
    × (low5 (get_or payload 1 0) ≡ t)
    × (1 ≤ t)
    × (t < 24)

abbrev pub starts : List ℕ → Bool
starts payload = bit7 (get_or payload 1 0)

abbrev pub ends : List ℕ → Bool
ends payload = bit6 (get_or payload 1 0)

-- A payload takes the NAL type of the fragmentation unit that is open to that of the one open after it.
unfoldable pub Fragments : Option ℕ → List ℕ → Option ℕ → Type 0
Fragments none payload none =
    (is_nal_type (low5 (first_byte payload)) ≡ true)
    ⊎ ((low5 (first_byte payload) ≡ 24) × (is_some (inspect_stapa payload) ≡ true))
Fragments none payload (some t) =
    IsFragment payload t × (starts payload ≡ true) × (ends payload ≡ false)
Fragments (some t) payload none =
    IsFragment payload t × (starts payload ≡ false) × (ends payload ≡ true)
Fragments (some t) payload (some u) =
    (t ≡ u) × IsFragment payload t × (starts payload ≡ false) × (ends payload ≡ false)

-- Packets of one timestamp that follow each other without a gap and without a marker: with the sequence number of the
-- last, and the NAL type of the fragmentation unit that is still open.
pub data Gathered (ts : ℕ) : List Packet → Option ℕ → Option ℕ → Type 0 where
  gathers_none : Gathered ts [] none none
  gathers :
      (ps : List Packet) (last unit : Option ℕ) (p : Packet) (after : Option ℕ)
      → Gathered ts ps last unit
      → p.timestamp ≡ ts
      → p.marker ≡ false
      → Follows last p.sequence_number
      → Fragments unit p.payload after
      → Gathered ts (ps ++ (p ∷ [])) (some p.sequence_number) after

-- The packets of a whole access unit.
pub record IsComplete (ts : ℕ) (all : List Packet) : Type 0 where
  pub before : List Packet
  pub last : Option ℕ
  pub unit : Option ℕ
  pub end : Packet
  pub parts : all ≡ before ++ (end ∷ [])
  pub gathered : Gathered ts before last unit
  pub same_timestamp : end.timestamp ≡ ts
  pub has_marker : end.marker ≡ true
  pub follows : Follows last end.sequence_number
  pub closes : Fragments unit end.payload none

abbrev pub open_type : Fragment → Option ℕ
open_type f = if f.is_open then some f.nal_type else none

abbrev pub last_of : Normalizer → Option ℕ
last_of n = if n.have_last_seq then some n.last_seq else none

-- While an access unit is gathered and not spoilt, its packets are a whole beginning of one.
unfoldable pub IsGathering : Normalizer → Type 0
IsGathering n =
    n.have_au ≡ true
    → n.invalid ≡ false
    → Gathered n.source_ts n.packets (last_of n) (open_type (fragment n))

observe-Fragments :
    (payload : List ℕ) (f : Fragment)
    → (observe payload f).1 ≡ true
    → Fragments (open_type f) payload (open_type (observe payload f).0)
unfolding observe observe_fua Fragments IsFragment
observe-Fragments payload f e = ground arith

unfoldable pub Opened : ℕ → Normalizer → Type 0
Opened ts n =
    (n.have_au ≡ true)
    × (n.source_ts ≡ ts)
    × (n.invalid ≡ false → Gathered ts n.packets (last_of n) (open_type (fragment n)))

start_au-Opened : (ts now : ℕ) (n : Normalizer) → Opened ts (start_au ts now n)
unfolding Opened start_au fragment
start_au-Opened ts now n = (refl, refl, λ _. gathers_none)

module _ (marshal_size : Packet → ℕ) where
  pub open_au-Opened :
      (p : Packet) (now : ℕ) (n : Normalizer)
      → IsGathering n
      → Opened p.timestamp (open_au marshal_size p now n)
  unfolding open_au Opened IsGathering drop_current reset_current
  open_au-Opened p now n g =
      let ts = p.timestamp in
      let dropped = start_au-Opened ts now (drop_current false n) in
      let fresh = start_au-Opened ts now n in
      let other = (ts != n.source_ts) || ltb n.config.max_age (now - n.started_at) in
      if_cases (λ (k : Normalizer). Opened ts (if not k.have_au then start_au ts now k else k))
        (n.have_au && other) (λ _. dropped)
        (λ e.
          if_cases (Opened ts) (not n.have_au) (λ _. fresh)
            (λ h.
              let a : n.have_au ≡ true = ground arith in
              let t : n.source_ts ≡ ts = ground arith in
              (
                a,
                t,
                subst
                    (λ x.
                      n.invalid ≡ false → Gathered x n.packets (last_of n) (open_type (fragment n)))
                    t (g a),
              )))

  pub taken-valid :
      (p : Packet) (n : Normalizer)
      → let m =
          take_packet marshal_size p (check_size marshal_size p (check_seq marshal_size p n)) in
        m.invalid ≡ false
        → (n.invalid ≡ false)
          × Follows (last_of n) p.sequence_number
          × ((observe p.payload (fragment n)).1 ≡ true)
          × (m.packets ≡ n.packets ++ (p ∷ []))
          × (fragment m ≡ (observe p.payload (fragment n)).0)
  unfolding take_packet check_size check_seq set_fragment fragment Follows
  taken-valid p n e = ground arith

  pub gather-parts :
      (p : Packet) (now : ℕ) (n : Normalizer)
      → IsGathering n
      → let m = gather marshal_size p now n in
        m.invalid ≡ false
        → (before : List Packet) × (last : Option ℕ) × (unit : Option ℕ) × (m.packets
            ≡ before ++ (p ∷ []))
          × Gathered p.timestamp before last unit
          × Follows last p.sequence_number
          × Fragments unit p.payload (open_type (fragment m))
  unfolding gather Opened
  gather-parts p now n g e =
      let o = open_au marshal_size p now n in
      let (_, _, w) = open_au-Opened p now n g in
      let (v, f, ok, ps, fr) = taken-valid p o e in
      (
        o.packets,
        last_of o,
        open_type (fragment o),
        ps,
        w v,
        f,
        subst (λ x. Fragments (open_type (fragment o)) p.payload (open_type x)) (sym fr)
            (observe-Fragments p.payload (fragment o) ok),
      )

  pub gather-fields :
      (p : Packet) (now : ℕ) (n : Normalizer)
      → let m = gather marshal_size p now n in
        (m.source_ts ≡ (open_au marshal_size p now n).source_ts)
        × (last_of m ≡ some p.sequence_number)
  unfolding gather take_packet check_size check_seq set_fragment fragment
  gather-fields p now n = ground arith
