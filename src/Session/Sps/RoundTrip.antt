-- ===== src/Session/Sps/RoundTrip.antt =====
-- The picture size that internal/session/h264_sps.go reads from the bytes of a written parameter set.
use webrtc_gateway.Base.{
  [], ◌∷◌, some, ℕ, List, ◌≡◌, All, Option, length, ◌≤◌, drop, ◌++◌, repeat, refl, arith, ap, ◌+◌,
  if◌then◌else◌, ◌==◌, ap₂, length-append, ◌∙◌, append_assoc,
}
use webrtc_gateway.Session.Sps.Writer.{
  write_bits_of, write_bits, protect_from, Sps, pack, byte, write_sps,
}
use webrtc_gateway.Session.Bits.Reads.{unpack, bits_of, length-unpack, At}
use webrtc_gateway.Session.Bits.{strip_from, Reader, strip_emulation_prevention, low5}
use webrtc_gateway.Session.Sps.{picture_size, parse_size}
use webrtc_gateway.Session.Sps.Reads.{IsWritable, size_from, parse_size-Reads}
use webrtc_gateway.Session.Sps.Codes.{length-write_bits}
use webrtc_gateway.Session.Sps.Size.{display_size, size_of-display}
use webrtc_gateway.Session.Normalizer.Nal.{first_byte}
use webrtc_gateway.Session.Sps.BitLists.{IsBit, and_then, write_bits_of-IsBit}

-- Eight bits make a byte that gives them back.
bits_of-byte :
    (a b c d e f g h : ℕ)
    → IsBit a
    → IsBit b
    → IsBit c
    → IsBit d
    → IsBit e
    → IsBit f
    → IsBit g
    → IsBit h
    → bits_of (byte a b c d e f g h) ≡ a ∷ b ∷ c ∷ d ∷ e ∷ f ∷ g ∷ h ∷ []
bits_of-byte a b c d e f g h ha hb hc hd he hf hg hh = ground arith

unpack-pack : (bs : List ℕ) → All IsBit bs → (pad : List ℕ) × (unpack (pack bs) ≡ bs ++ pad)
unfolding unpack pack
unpack-pack [] h = ([], refl)
unpack-pack (a ∷ []) h = (
  repeat 7 0,
  ap (λ (x : List ℕ). x ++ [])
      (bits_of-byte a 0 0 0 0 0 0 0 h.0 (omega arith) (omega arith) (omega arith) (omega arith)
        (omega arith) (omega arith) (omega arith)),
)
unpack-pack (a ∷ b ∷ []) h = (
  repeat 6 0,
  ap (λ (x : List ℕ). x ++ [])
      (bits_of-byte a b 0 0 0 0 0 0 h.0 h.1.0 (omega arith) (omega arith) (omega arith)
        (omega arith) (omega arith) (omega arith)),
)
unpack-pack (a ∷ b ∷ c ∷ []) h = (
  repeat 5 0,
  ap (λ (x : List ℕ). x ++ [])
      (bits_of-byte a b c 0 0 0 0 0 h.0 h.1.0 h.1.1.0 (omega arith) (omega arith) (omega arith)
        (omega arith) (omega arith)),
)
unpack-pack (a ∷ b ∷ c ∷ d ∷ []) h = (
  repeat 4 0,
  ap (λ (x : List ℕ). x ++ [])
      (bits_of-byte a b c d 0 0 0 0 h.0 h.1.0 h.1.1.0 h.1.1.1.0 (omega arith) (omega arith)
        (omega arith) (omega arith)),
)
unpack-pack (a ∷ b ∷ c ∷ d ∷ e ∷ []) h = (
  repeat 3 0,
  ap (λ (x : List ℕ). x ++ [])
      (bits_of-byte a b c d e 0 0 0 h.0 h.1.0 h.1.1.0 h.1.1.1.0 h.1.1.1.1.0 (omega arith)
        (omega arith) (omega arith)),
)
unpack-pack (a ∷ b ∷ c ∷ d ∷ e ∷ f ∷ []) h = (
  repeat 2 0,
  ap (λ (x : List ℕ). x ++ [])
      (bits_of-byte a b c d e f 0 0 h.0 h.1.0 h.1.1.0 h.1.1.1.0 h.1.1.1.1.0 h.1.1.1.1.1.0
        (omega arith) (omega arith)),
)
unpack-pack (a ∷ b ∷ c ∷ d ∷ e ∷ f ∷ g ∷ []) h = (
  repeat 1 0,
  ap (λ (x : List ℕ). x ++ [])
      (bits_of-byte a b c d e f g 0 h.0 h.1.0 h.1.1.0 h.1.1.1.0 h.1.1.1.1.0 h.1.1.1.1.1.0
        h.1.1.1.1.1.1.0 (omega arith)),
)
unpack-pack (a ∷ b ∷ c ∷ d ∷ e ∷ f ∷ g ∷ k ∷ rest) h =
    let (pad, ih) = unpack-pack rest h.1.1.1.1.1.1.1.1 in
    (
      pad,
      ap₂ (λ (x : List ℕ) (y : List ℕ). x ++ y)
          (bits_of-byte a b c d e f g k h.0 h.1.0 h.1.1.0 h.1.1.1.0 h.1.1.1.1.0 h.1.1.1.1.1.0
            h.1.1.1.1.1.1.0 h.1.1.1.1.1.1.1.0)
          ih,
    )

-- Emulation prevention is taken out again.
strip-protect : (n : ℕ) (bs : List ℕ) → strip_from n (protect_from n bs) ≡ bs
unfolding strip_from protect_from
strip-protect n [] = refl
strip-protect n (b ∷ bs) = ground (
  arith,
  strip-protect (if b == 0 then n + 1 else 0) bs,
  strip-protect (if b == 0 then 1 else 0) bs,
)

length-protect : (n : ℕ) (bs : List ℕ) → length bs ≤ length (protect_from n bs)
unfolding protect_from
length-protect n [] = omega arith
length-protect n (b ∷ bs) = ground (
  arith,
  length-protect (if b == 0 then n + 1 else 0) bs,
  length-protect (if b == 0 then 1 else 0) bs,
)

write_bits_of-long : (s : Sps) → 24 ≤ length (write_bits_of s)
unfolding write_bits_of
write_bits_of-long s =
    ground (arith, length-append (write_bits 8 s.profile) _, length-write_bits 8 s.profile)

size_read :
    (nal : List ℕ) (size : Option (ℕ × ℕ)) {r : Reader}
    → 4 ≤ length nal
    → low5 (first_byte nal) ≡ 7
    → parse_size (record { bytes = strip_emulation_prevention (drop 1 nal); pos = 0 })
      ≡ some (size, r)
    → picture_size nal ≡ size
unfolding picture_size
size_read nal size l t e = ground arith

long_enough :
    (s : Sps) (pad : List ℕ)
    → unpack (pack (write_bits_of s ++ (1 ∷ []))) ≡ (write_bits_of s ++ (1 ∷ [])) ++ pad
    → 4 ≤ length (write_sps s)
unfolding write_sps
long_enough s pad e =
    let bits = write_bits_of s ++ (1 ∷ []) in
    omega (
      arith,
      write_bits_of-long s,
      ap length e,
      length-unpack (pack bits),
      length-append bits pad,
      length-append (write_bits_of s) (1 ∷ []),
      length-protect 0 (pack bits),
    )

-- From the bytes of a written parameter set the parser gives the size of the cropping rectangle: for every profile whose
-- sets have no chroma format, of order type 0 or 2, with frames only or with fields, and with any crop on the four
-- sides. Where the crop leaves no picture the answer is none.
pub picture_size-write_sps : (s : Sps) → IsWritable s → picture_size (write_sps s) ≡ display_size s
unfolding write_sps strip_emulation_prevention
picture_size-write_sps s w =
    let bits = write_bits_of s ++ (1 ∷ []) in
    let (pad, e) =
      unpack-pack bits
        (and_then (write_bits_of s) (1 ∷ []) (write_bits_of-IsBit s) (omega arith, tt)) in
    let start : Reader = record { bytes = strip_from 0 (protect_from 0 (pack bits)); pos = 0 } in
    let at : At start (write_bits_of s ++ ((1 ∷ []) ++ pad)) =
      ap unpack (strip-protect 0 (pack bits)) ∙ e ∙ append_assoc (write_bits_of s) (1 ∷ []) pad in
    let (r, parsed, rest) = parse_size-Reads s w start ((1 ∷ []) ++ pad) at in
    size_read (write_sps s) (size_from s) (long_enough s pad e) refl parsed ∙ size_of-display s
