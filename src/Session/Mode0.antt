-- ===== src/Session/Mode0.antt =====
-- internal/session/h264_mode0.go: FU-A packets of the browser become single NAL unit packets for a peer that
-- negotiated packetization mode 0.
pub mod RoundTrip
pub mod Tests
use Prim.Native.String.{String}
use webrtc_gateway.Base.{
  [], ◌∷◌, ℕ, Bool, if◌then◌else◌, u16, ◌-◌, Option, ◌/◌, false, List, some, true, is_empty, none,
  ltb, ◌&&◌, length, ◌+◌, get_or, ◌!=◌, ◌==◌, ◌||◌, ◌*◌, ◌∷◌, ◌++◌, not, drop,
}
use webrtc_gateway.Session.Rtp.{Packet}
use webrtc_gateway.Session.Bits.{low5, bit7, bit6}
use text.Mathlib.Text.{◌==◌ as str_eq}
use webrtc_gateway.Session.Normalizer.Nal.{first_byte}

abbrev pub max_nal_payload : ℕ
max_nal_payload = 65507 - 12

pub data Mode0Result : Type 0 where
  passthrough buffered reassembled dropped : Mode0Result

pub record Mode0Decision : Type 0 where
  pub packet : Option Packet
  pub result : Mode0Result
  pub reason : String
  pub nal_bytes : ℕ

pub record Reassembler : Type 0 where
  pub active : Bool
  pub ssrc : ℕ
  pub timestamp : ℕ
  pub next_seq : ℕ
  pub payload_type : ℕ
  pub nal : List ℕ

abbrev pub gives : Packet → Mode0Result → Mode0Decision
gives p r = record { packet = some p; result = r; reason = ""; nal_bytes = 0 }

abbrev pub drops : String → ℕ → Mode0Decision
drops reason bytes = record { packet = none; result = dropped; reason = reason; nal_bytes = bytes }

abbrev pub waits : Mode0Decision
waits = record { packet = none; result = buffered; reason = ""; nal_bytes = 0 }

pub reset : Reassembler → Reassembler
reset r = record r { active = false; nal = [] }

-- The header of a fragmented NAL unit: `fuIndicator & 0xe0 | nalType`.
abbrev pub nal_header : ℕ → ℕ → ℕ
nal_header indicator header = indicator / 32 * 32 + low5 header

-- pushShortFUA, for a payload of at most two bytes.
pub push_short : Packet → Reassembler → Reassembler × Mode0Decision
unfolding reset
push_short p r =
    let indicator = first_byte p.payload in
    let header = get_or p.payload 1 0 in
    let whole = (length p.payload == 2) && bit7 header && bit6 header in
    (
      reset r,
      if whole
          then gives (record p { payload = nal_header indicator header ∷ [] }) reassembled
          else if r.active
          then drops "discontinuous-fua" 0
          else drops "short-nal" 0,
    )

-- The first fragment starts anew.
pub start_unit : Packet → Reassembler → Reassembler
start_unit p r = record {
  active = true;
  ssrc = p.ssrc;
  timestamp = p.timestamp;
  next_seq = u16 (p.sequence_number + 1);
  payload_type = p.payload_type;
  nal = nal_header (first_byte p.payload) (get_or p.payload 1 0) ∷ drop 2 p.payload;
}

pub goes_on : Packet → Reassembler → Bool
goes_on p r =
    r.active
    && (p.ssrc == r.ssrc)
    && (p.timestamp == r.timestamp)
    && (p.sequence_number == r.next_seq)

-- The end of push for a fragment, with the state that has taken it in.
pub settle : Packet → Reassembler → Reassembler × Mode0Decision
unfolding reset
settle p r =
    if ltb max_nal_payload (length r.nal)
    then (reset r, drops "oversized-fua" (length r.nal))
    else if not (bit6 (get_or p.payload 1 0))
    then (r, waits)
    else (reset r, gives (record p { payload = r.nal; payload_type = r.payload_type }) reassembled)

pub push_fragment : Packet → Reassembler → Reassembler × Mode0Decision
unfolding start_unit goes_on settle reset
push_fragment p r =
    let more = record r { next_seq = u16 (r.next_seq + 1); nal = r.nal ++ drop 2 p.payload } in
    if bit7 (get_or p.payload 1 0)
    then settle p (start_unit p r)
    else if not (goes_on p r)
    then (reset r, drops "discontinuous-fua" 0)
    else settle p more

-- A packet that is no fragment ends an open unit.
pub push_other : Packet → Reassembler → Reassembler × Mode0Decision
unfolding reset
push_other p r =
    let t = low5 (first_byte p.payload) in
    (
      reset r,
      if ltb 24 t
          then (if r.active then drops "discontinuous-fua" 0 else drops "unsupported-nal" 0)
          else if ltb max_nal_payload (length p.payload)
          then drops "oversized-fua" (length p.payload)
          else gives p passthrough,
    )

pub push : Packet → Reassembler → Reassembler × Mode0Decision
unfolding push_other push_short push_fragment
push p r =
    if is_empty p.payload
    then (r, drops "empty" 0)
    else if low5 (first_byte p.payload) != 28
    then push_other p r
    else if ltb (length p.payload) 3
    then push_short p r
    else push_fragment p r

-- mode0DropArmsRecovery
pub arms_recovery : String → Bool
arms_recovery reason = str_eq reason "discontinuous-fua" || str_eq reason "oversized-fua"
