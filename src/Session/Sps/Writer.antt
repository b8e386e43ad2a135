-- ===== src/Session/Sps/Writer.antt =====
-- A writer of sequence parameter sets as H.264 lays them out, for profiles with no chroma format: the syntax
-- that internal/session/h264_sps.go reads.
use webrtc_gateway.Base.{
  [], ◌∷◌, none, some, List, Option, ℕ, ◌*◌, ◌++◌, if◌then◌else◌, suc, ◌+◌, ◌==◌, ◌/◌, leb, ◌%◌,
  ◌&&◌, zero, ltb,
}
use webrtc_gateway.Session.Bits.Reads.{code_of}
use webrtc_gateway.Session.Sps.{Crop}

-- `n` bits of a number, the highest first.
unfoldable pub write_bits : ℕ → ℕ → List ℕ
write_bits zero v = []
write_bits (suc n) v = write_bits n (v / 2) ++ (v % 2 ∷ [])

-- The binary digits of a positive number below 2 ^ (fuel + 1), less the leading 1.
unfoldable pub tail_bits : ℕ → ℕ → List ℕ
tail_bits zero m = []
tail_bits (suc fuel) m =
    let more = tail_bits fuel (m / 2) ++ (m % 2 ∷ []) in if ltb m 2 then [] else more

-- The Exp-Golomb code of a number.
unfoldable pub write_ue : ℕ → List ℕ
unfolding tail_bits
write_ue v = code_of (tail_bits 31 (v + 1))

pub record Sps : Type 0 where
  pub profile : ℕ
  pub flags : ℕ
  pub level : ℕ
  pub set_id : ℕ
  pub log_frame_num : ℕ
  -- the size of the order count for order type 0, nothing for type 2
  pub order_count : Option ℕ
  pub ref_frames : ℕ
  pub gaps : ℕ
  pub width_mbs : ℕ
  pub height_units : ℕ
  -- the adaptive flag of a set with fields, nothing for one with frames only
  pub fields : Option ℕ
  pub direct : ℕ
  pub crop : Option Crop

abbrev pub frames_only : Option ℕ → ℕ
frames_only none = 1
frames_only (some adaptive) = 0

abbrev pub no_crop : Crop
no_crop = record { left = 0; right = 0; top = 0; bottom = 0 }

abbrev pub crop_or_none : Option Crop → Crop
crop_or_none none = no_crop
crop_or_none (some c) = c

unfoldable pub write_order : Option ℕ → List ℕ
unfolding write_ue
write_order none = write_ue 2
write_order (some log) = write_ue 0 ++ write_ue log

unfoldable pub write_fields : Option ℕ → List ℕ
unfolding write_bits
write_fields none = write_bits 1 1
write_fields (some adaptive) = write_bits 1 0 ++ write_bits 1 adaptive

unfoldable pub write_crop : Option Crop → List ℕ
unfolding write_bits write_ue
write_crop none = write_bits 1 0
write_crop (some c) =
    write_bits 1 1
    ++ (write_ue c.left ++ (write_ue c.right ++ (write_ue c.top ++ write_ue c.bottom)))

unfoldable pub write_bits_of : Sps → List ℕ
unfolding write_order write_fields write_crop
write_bits_of s =
    write_bits 8 s.profile
    ++ (write_bits 8 s.flags
        ++ (write_bits 8 s.level
            ++ (write_ue s.set_id
                ++ (write_ue s.log_frame_num
                    ++ (write_order s.order_count
                        ++ (write_ue s.ref_frames
                            ++ (write_bits 1 s.gaps
                                ++ (write_ue s.width_mbs
                                    ++ (write_ue s.height_units
                                        ++ (write_fields s.fields
                                            ++ (write_bits 1 s.direct
                                                ++ write_crop s.crop)))))))))))

abbrev pub byte : ℕ → ℕ → ℕ → ℕ → ℕ → ℕ → ℕ → ℕ → ℕ
byte a b c d e f g h = a * 128 + b * 64 + c * 32 + d * 16 + e * 8 + f * 4 + g * 2 + h

-- Bits to bytes, the last byte filled up with zeros.
unfoldable pub pack : List ℕ → List ℕ
pack (a ∷ b ∷ c ∷ d ∷ e ∷ f ∷ g ∷ h ∷ rest) = byte a b c d e f g h ∷ pack rest
pack (a ∷ b ∷ c ∷ d ∷ e ∷ f ∷ g ∷ []) = byte a b c d e f g 0 ∷ []
pack (a ∷ b ∷ c ∷ d ∷ e ∷ f ∷ []) = byte a b c d e f 0 0 ∷ []
pack (a ∷ b ∷ c ∷ d ∷ e ∷ []) = byte a b c d e 0 0 0 ∷ []
pack (a ∷ b ∷ c ∷ d ∷ []) = byte a b c d 0 0 0 0 ∷ []
pack (a ∷ b ∷ c ∷ []) = byte a b c 0 0 0 0 0 ∷ []
pack (a ∷ b ∷ []) = byte a b 0 0 0 0 0 0 ∷ []
pack (a ∷ []) = byte a 0 0 0 0 0 0 0 ∷ []
pack [] = []

-- Emulation prevention: after two zeros a byte of at most 3 gets a 3 in front.
unfoldable pub protect_from : ℕ → List ℕ → List ℕ
protect_from nulls [] = []
protect_from nulls (b ∷ bs) =
    let kept = b ∷ protect_from (if b == 0 then nulls + 1 else 0) bs in
    let guarded = 3 ∷ b ∷ protect_from (if b == 0 then 1 else 0) bs in
    if leb 2 nulls && leb b 3 then guarded else kept

-- The NAL unit, with the stop bit at its end.
unfoldable pub write_sps : Sps → List ℕ
unfolding protect_from pack write_bits_of
write_sps s = 103 ∷ protect_from 0 (pack (write_bits_of s ++ (1 ∷ [])))
