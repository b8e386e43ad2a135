-- ===== src/Session/Bits.antt =====
-- The bit reader of internal/session/h264_sps.go, and the first macroblock of a slice
-- (internal/session/uplink_picture.go). Bytes are numbers below 256; a value of at most 32 bits does not
-- wrap in a Go uint.
pub mod Reads
use webrtc_gateway.Base.{
  ℕ, Bool, ◌%◌, List, ◌/◌, Option, ◌==◌, ◌∷◌, some, if◌then◌else◌, none, leb, ◌^◌, ◌+◌, ltb, suc,
  ◌&&◌, ◌-◌, length, ◌*◌, [], get_or, not, ◌||◌, is_empty,
}
use Prim.Native.Nat.{zero}

pub record Reader : Type 0 where
  pub bytes : List ℕ
  pub pos : ℕ

unfoldable pub bit : Reader → Option (ℕ × Reader)
bit r =
    if leb (length r.bytes * 8) r.pos
    then none
    else some
        ((get_or r.bytes (r.pos / 8) 0 / 2 ^ (7 - r.pos % 8)) % 2, record r { pos = r.pos + 1 })

unfoldable pub bits_loop : ℕ → ℕ → Reader → Option (ℕ × Reader)
bits_loop zero value r = some (value, r)
bits_loop (suc n) value r = elim (bit r) [
  | none ↦ none
  | some (b, r') ↦ bits_loop n (value * 2 + b) r'
]

-- `u`
unfoldable pub read_bits : ℕ → Reader → Option (ℕ × Reader)
read_bits n r = if ltb 32 n then none else bits_loop n 0 r

-- The loop of `ue` ends at the 32nd zero, so that 32 rounds are enough.
unfoldable pub nulls_loop : ℕ → ℕ → Reader → Option (ℕ × Reader)
nulls_loop zero nulls r = none
nulls_loop (suc fuel) nulls r = elim (bit r) [
  | none ↦ none
  | some (b, r') ↦
      let rest = nulls_loop fuel (nulls + 1) r' in
      if b == 1 then some (nulls, r') else if ltb 31 (nulls + 1) then none else rest
]

-- `ue`
unfoldable pub read_ue : Reader → Option (ℕ × Reader)
read_ue r = elim (nulls_loop 32 0 r) [
  | none ↦ none
  | some (nulls, r') ↦ if nulls == 0 then some (0, r') else elim (read_bits nulls r') [
    | none ↦ none
    | some (rest, r'') ↦ some (2 ^ nulls - 1 + rest, r'')
  ]
]

unfoldable pub strip_from : ℕ → List ℕ → List ℕ
strip_from nulls [] = []
strip_from nulls (b ∷ bs) =
    let skipped = strip_from 0 bs in
    let kept = strip_from (if b == 0 then nulls + 1 else 0) bs in
    if leb 2 nulls && (b == 3) then skipped else b ∷ kept

-- `stripEmulationPrevention`
unfoldable pub strip_emulation_prevention : List ℕ → List ℕ
strip_emulation_prevention rbsp = strip_from 0 rbsp

abbrev pub low5 : ℕ → ℕ
low5 b = b % 32

-- `b & 0x80 != 0` and `b & 0x40 != 0`
abbrev pub bit7 : ℕ → Bool
bit7 b = b / 128 % 2 == 1

abbrev pub bit6 : ℕ → Bool
bit6 b = b / 64 % 2 == 1

unfoldable pub slice_body : List ℕ → Option (List ℕ)
slice_body (h ∷ b ∷ rest) =
    if (low5 h == 1) || (low5 h == 5)
    then some (b ∷ rest)
    else if low5 h == 28
    then if is_empty rest || not (bit7 b)
      then none
      else if (low5 b == 1) || (low5 b == 5)
      then some rest
      else none
    else none
slice_body _ = none

-- `h264FirstMBInSlice`
unfoldable pub first_mb_in_slice : List ℕ → Option ℕ
first_mb_in_slice payload = elim (slice_body payload) [
  | none ↦ none
  | some body ↦ elim (read_ue (record { bytes = strip_emulation_prevention body; pos = 0 })) [
    | none ↦ none
    | some (mb, r) ↦ some mb
  ]
]
