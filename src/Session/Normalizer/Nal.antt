-- ===== src/Session/Normalizer/Nal.antt =====
-- What internal/session/h264_access_unit_normalizer.go reads from the payloads of an access unit: the
-- NAL types in it, its parameter sets, and the parameter sets that are put before an IDR.
use webrtc_gateway.Base.{
  ℕ, Bool, ◌||◌, List, false, Option, ◌==◌, [], ◌∷◌, leb, some, if◌then◌else◌, none, ltb, get_or,
  is_empty, ◌/◌, length, drop, suc, not, ◌!=◌, ◌*◌, ◌++◌, ◌&&◌, u16, ◌+◌, true, take,
}
use webrtc_gateway.Session.Bits.{low5, bit7, bit6, first_mb_in_slice}
use webrtc_gateway.Session.Rtp.{Packet}
use Prim.Native.Nat.{zero}

abbrev pub max_cached_fua : ℕ
max_cached_fua = 1200

-- Whether SPS, PPS and IDR were seen.
pub record Found : Type 0 where
  pub sps : Bool
  pub pps : Bool
  pub idr : Bool

abbrev pub nothing : Found
nothing = record { sps = false; pps = false; idr = false }

unfoldable pub note_type : ℕ → Found → Found
note_type t f = record { sps = f.sps || (t == 7); pps = f.pps || (t == 8); idr = f.idr || (t == 5) }

abbrev pub first_byte : List ℕ → ℕ
first_byte xs = get_or xs 0 0

-- The loop of inspectSTAPA on the bytes that are left, of which a round takes two or more.
unfoldable pub stapa_loop : ℕ → List ℕ → Found → Option Found
stapa_loop zero bytes f = none
stapa_loop (suc fuel) [] f = some f
stapa_loop (suc fuel) (a ∷ []) f = none
stapa_loop (suc fuel) (a ∷ b ∷ rest) f =
    let size = a * 256 + b in
    let more = stapa_loop fuel (drop size rest) (note_type (low5 (first_byte rest)) f) in
    if size == 0 then none else if ltb (length rest) size then none else more

unfoldable pub inspect_stapa : List ℕ → Option Found
inspect_stapa [] = none
inspect_stapa (h ∷ rest) =
    if ltb (length rest) 3
    then none
    else if low5 h != 24
    then none
    else stapa_loop (suc (length rest)) rest nothing

abbrev pub found_or : Option Found → Found
found_or none = nothing
found_or (some f) = f

unfoldable pub merge : Found → Found → Found
merge f g = record { sps = f.sps || g.sps; pps = f.pps || g.pps; idr = f.idr || g.idr }

-- One round of inspectAccessUnit: a NAL unit on its own, a STAP-A, or the start of an FU-A.
unfoldable pub inspect_payload : List ℕ → Found → Found
inspect_payload [] f = f
inspect_payload (h ∷ rest) f =
    if low5 h == 24
    then merge f (found_or (inspect_stapa (h ∷ rest)))
    else if low5 h == 28
    then if not (is_empty rest) && bit7 (first_byte rest)
      then note_type (low5 (first_byte rest)) f
      else f
    else note_type (low5 h) f

unfoldable pub inspect_access_unit : List Packet → Found → Found
inspect_access_unit [] f = f
inspect_access_unit (p ∷ ps) f = inspect_access_unit ps (inspect_payload p.payload f)

-- isSingleNALType
unfoldable pub is_single : List ℕ → ℕ → Bool
is_single payload t = ltb 1 (length payload) && (low5 (first_byte payload) == t)

-- The units that a loop over a STAP-A visits before it stops.
unfoldable pub stapa_units : ℕ → List ℕ → List (List ℕ)
stapa_units zero bytes = []
stapa_units (suc fuel) (a ∷ b ∷ rest) =
    let size = a * 256 + b in
    let more = stapa_units fuel (drop size rest) in
    if size == 0 then [] else if ltb (length rest) size then [] else take size rest ∷ more
stapa_units (suc fuel) _ = []

unfoldable pub first_single : List (List ℕ) → ℕ → Option (List ℕ)
first_single [] t = none
first_single (u ∷ us) t = if is_single u t then some u else first_single us t

-- The loop of reassembleFUAParameterSet over the packets after the first.
unfoldable pub fua_loop : List Packet → ℕ → ℕ → ℕ → List ℕ → Option (List ℕ)
fua_loop [] t top last nal = none
fua_loop (p ∷ ps) t top last nal =
    let h = first_byte p.payload in
    let b = get_or p.payload 1 0 in
    let body = drop 2 p.payload in
    let more = fua_loop ps t top p.sequence_number (nal ++ body) in
    if ltb (length p.payload) 3
    then none
    else if p.sequence_number != u16 (last + 1)
    then none
    else if (low5 h != 28) || (h / 32 != top) || bit7 b || (low5 b != t)
    then none
    else if ltb max_cached_fua (length nal + length body)
    then none
    else if bit6 b
    then some (nal ++ body)
    else more

-- reassembleFUAParameterSet; no result of it is empty.
unfoldable pub reassemble_fua : List Packet → ℕ → Option (List ℕ)
reassemble_fua [] t = none
reassemble_fua (p ∷ ps) t =
    let h = first_byte p.payload in
    let b = get_or p.payload 1 0 in
    let nal = (h / 32 * 32 + t) ∷ drop 2 p.payload in
    if ltb (length p.payload) 3
    then none
    else if (low5 h != 28) || not (bit7 b) || bit6 b || (low5 b != t)
    then none
    else if ltb max_cached_fua (length nal)
    then none
    else fua_loop ps t (h / 32) p.sequence_number nal

-- What cacheableNALFromPackets knows: nothing seen, a NAL unit, or one that cannot be cached.
pub data Cacheable : Type 0 where
  absent : Cacheable
  nal_unit : List ℕ → Cacheable
  not_cacheable : Cacheable

abbrev pub from_stapa : List ℕ → ℕ → Cacheable → Cacheable
from_stapa payload t seen =
    if not (is_empty payload) && (low5 (first_byte payload) == 24)
    then elim (first_single (stapa_units (length payload) (drop 1 payload)) t) [
      | none ↦ seen
      | some nal ↦ nal_unit nal
    ]
    else seen

abbrev pub starts_fua : List ℕ → ℕ → Bool
starts_fua payload t =
    leb 2 (length payload)
    && (low5 (first_byte payload) == 28)
    && bit7 (get_or payload 1 0)
    && (low5 (get_or payload 1 0) == t)

-- cacheableNALFromPackets, from what was seen so far.
unfoldable pub cacheable_nal : List Packet → ℕ → Cacheable → Cacheable
cacheable_nal [] t seen = seen
cacheable_nal (p ∷ ps) t seen =
    let single = cacheable_nal ps t (nal_unit p.payload) in
    let unchanged = cacheable_nal ps t (from_stapa p.payload t seen) in
    if is_single p.payload t
    then single
    else if starts_fua p.payload t
    then elim (reassemble_fua (p ∷ ps) t) [
      | none ↦ not_cacheable
      | some nal ↦ cacheable_nal ps t (nal_unit nal)
    ]
    else unchanged

-- updateCachedNALFromPackets
unfoldable pub update_cached : List ℕ → List Packet → ℕ → List ℕ
update_cached current packets t = elim (cacheable_nal packets t absent) [
  | absent ↦ current
  | nal_unit nal ↦ nal
  | not_cacheable ↦ []
]

-- stripSingleNALParameterSets
unfoldable pub strip_sets : List Packet → List Packet
strip_sets [] = []
strip_sets (p ∷ ps) =
    if is_single p.payload 7 || is_single p.payload 8 then strip_sets ps else p ∷ strip_sets ps

abbrev pub set_packet : Packet → List ℕ → Packet
set_packet template payload = record template { marker = false; payload = payload }

abbrev pub when : {A : Type 0} → Bool → A → List A → List A
when b x xs = if b then x ∷ xs else xs

-- prefixParameterSets
unfoldable pub prefix_sets : List Packet → List ℕ → List ℕ → Found → Bool → List Packet × Bool
prefix_sets [] sps pps f force = ([], false)
prefix_sets (p ∷ ps) sps pps f force =
    let need_sps = (not f.sps || force) && not (is_empty sps) in
    let need_pps = (not f.pps || force) && not (is_empty pps) in
    let stripped = strip_sets (p ∷ ps) in
    let rest = if force && not (is_empty stripped) then stripped else p ∷ ps in
    if not need_sps && not need_pps
    then (p ∷ ps, false)
    else (when need_sps (set_packet p sps) (when need_pps (set_packet p pps) rest), true)

unfoldable pub first_mb_of : List (List ℕ) → Option ℕ
first_mb_of [] = none
first_mb_of (u ∷ us) = elim (first_mb_in_slice u) [ some mb ↦ some mb | none ↦ first_mb_of us ]

-- h264AccessUnitFirstMB, with `none` for -1.
unfoldable pub first_mb : List Packet → Option ℕ
first_mb [] = none
first_mb (p ∷ ps) =
    let later = first_mb ps in
    let t = low5 (first_byte p.payload) in
    let here : Option ℕ =
      if is_empty p.payload
      then none
      else if (t == 1) || (t == 5) || (t == 28)
      then first_mb_in_slice p.payload
      else if t == 24
      then first_mb_of (stapa_units (length p.payload) (drop 1 p.payload))
      else none in
    elim here [ some mb ↦ some mb | none ↦ later ]
