-- ===== src/Session/Normalizer/Assemble.antt =====
-- How internal/session/h264_access_unit_normalizer.go gathers the packets of one access unit: push and
-- its parts. The size of a packet on the wire (MarshalSize of pion/rtp) is a parameter.
use webrtc_gateway.Base.{
  if◌then◌else◌, ℕ, Bool, List, ◌==◌, Option, true, get_or, false, ◌||◌, ◌+◌, [], ◌&&◌, some, leb,
  ◌!=◌, u16, not, is_empty, ltb, ◌-◌, length, ◌++◌, ◌∷◌,
}
use webrtc_gateway.Session.Rtp.{Packet, AccessUnit}
use webrtc_gateway.Session.Normalizer.{Normalizer, drop_current, reset_current}
use webrtc_gateway.Session.Bits.{low5, bit7, bit6}
use webrtc_gateway.Session.Normalizer.Nal.{
  inspect_access_unit, first_byte, nothing, update_cached, inspect_stapa, is_single, prefix_sets,
}
use mathlib.Core.Option.{none}

-- SetParameterSets
unfoldable pub set_parameter_sets : List ℕ → List ℕ → Normalizer → Normalizer
set_parameter_sets sps pps n = record n {
  cached_sps = if is_single sps 7 then sps else n.cached_sps;
  cached_pps = if is_single pps 8 then pps else n.cached_pps;
}

-- startLocked
unfoldable pub start_au : ℕ → ℕ → Normalizer → Normalizer
start_au ts now n = record n {
  have_au = true;
  source_ts = ts;
  started_at = now;
  packets = [];
  bytes = 0;
  invalid = false;
  overflow = false;
  have_last_seq = false;
  fu_open = false;
  fu_nal_type = 0;
}

-- The fragmentation state, fu_open and fu_nal_type.
pub record Fragment : Type 0 where
  pub is_open : Bool
  pub nal_type : ℕ

abbrev pub is_nal_type : ℕ → Bool
is_nal_type t = (t == 1) || (leb 5 t && leb t 12)

-- The FU-A case of observePayloadLocked.
unfoldable pub observe_fua : List ℕ → Fragment → Fragment × Bool
observe_fua payload f =
    let b = get_or payload 1 0 in
    let t = low5 b in
    if ltb (length payload) 3
    then (f, false)
    else if (t == 0) || leb 24 t || (bit7 b && bit6 b)
    then (f, false)
    else if bit7 b
    then if f.is_open then (f, false) else (record { is_open = true; nal_type = t }, true)
    else if not f.is_open || (f.nal_type != t)
    then (f, false)
    else if bit6 b
    then (record { is_open = false; nal_type = 0 }, true)
    else (f, true)

abbrev pub is_some : {A : Type 0} → Option A → Bool
is_some none = false
is_some (some x) = true

-- observePayloadLocked
unfoldable pub observe : List ℕ → Fragment → Fragment × Bool
observe payload f =
    let t = low5 (first_byte payload) in
    if is_empty payload
    then (f, false)
    else if is_nal_type t
    then (f, not f.is_open)
    else if t == 24
    then (f, not f.is_open && is_some (inspect_stapa payload))
    else if t == 28
    then observe_fua payload f
    else (f, false)

unfoldable pub fragment : Normalizer → Fragment
fragment n = record { is_open = n.fu_open; nal_type = n.fu_nal_type }

unfoldable pub set_fragment : Fragment → Normalizer → Normalizer
set_fragment f n = record n { fu_open = f.is_open; fu_nal_type = f.nal_type }

-- finishLocked
unfoldable pub finish : Normalizer → Normalizer × AccessUnit
finish n =
    let f = inspect_access_unit n.packets nothing in
    let sps = update_cached n.cached_sps n.packets 7 in
    let pps = update_cached n.cached_pps n.packets 8 in
    let ready = not (is_empty sps) && not (is_empty pps) in
    let force = ltb 0 n.force_prefix_remaining && ready && (not f.sps || not f.pps) in
    let prefixed = if f.idr then prefix_sets n.packets sps pps f force else (n.packets, false) in
    (
      reset_current (record n { cached_sps = sps; cached_pps = pps }),
      record {
        packets = prefixed.0;
        is_idr = f.idr;
        injected_parameter_sets = prefixed.1;
        parameter_sets_ready = ready;
        generation = n.generation;
        source_timestamp = n.source_ts;
        discontinuity = none;
        same_timestamp_split = none;
      },
    )

module _ (marshal_size : Packet → ℕ) where
  -- The packet opens an access unit, after the one at hand is dropped if it is of another timestamp or
  -- too old.
  unfoldable pub open_au : Packet → ℕ → Normalizer → Normalizer
  open_au p now n =
      let kept =
        if n.have_au && ((p.timestamp != n.source_ts) || ltb n.config.max_age (now - n.started_at))
        then drop_current false n
        else n in
      if not kept.have_au then start_au p.timestamp now kept else kept

  unfoldable pub check_seq : Packet → Normalizer → Normalizer
  check_seq p n = record n {
    invalid = n.invalid || (n.have_last_seq && (p.sequence_number != u16 (n.last_seq + 1)));
    have_last_seq = true;
    last_seq = p.sequence_number;
  }

  unfoldable pub check_size : Packet → Normalizer → Normalizer
  check_size p n =
      let size = n.bytes + marshal_size p in
      if leb n.config.max_packets (length n.packets) || ltb n.config.max_bytes size
      then record n { bytes = size; invalid = true; overflow = true; packets = [] }
      else record n { bytes = size }

  unfoldable pub take_packet : Packet → Normalizer → Normalizer
  take_packet p n =
      let seen = observe p.payload (fragment n) in
      if n.invalid
      then n
      else set_fragment seen.0 (record n { packets = n.packets ++ (p ∷ []); invalid = not seen.1 })

  unfoldable pub gather : Packet → ℕ → Normalizer → Normalizer
  gather p now n = take_packet p (check_size p (check_seq p (open_au p now n)))

  -- pushLocked
  unfoldable pub push_locked : Packet → ℕ → Normalizer → Normalizer × Option AccessUnit
  push_locked p now n =
      let g = gather p now n in
      let done = finish g in
      if not p.marker
      then (g, none)
      else if g.invalid || g.fu_open || is_empty g.packets
      then (drop_current g.overflow g, none)
      else (done.0, some done.1)

  -- Push, with the access unit that its callback gets.
  unfoldable pub push : Packet → ℕ → Normalizer → Normalizer × Option AccessUnit
  push p now n = if is_empty p.payload then (n, none) else push_locked p now n
