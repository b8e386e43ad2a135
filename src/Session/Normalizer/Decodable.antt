-- ===== src/Session/Normalizer/Decodable.antt =====
-- internal/session/h264_access_unit_normalizer.go hands out an IDR with its parameter sets: inspectAccessUnit
-- finds an SPS and a PPS in what finishLocked makes of it.
use webrtc_gateway.Base.{ℕ, arith, true, [], ◌∷◌, refl, ◌≡◌, List, ◌||◌, if_cases, ◌∙◌, sym}
use webrtc_gateway.Session.Rtp.{Packet}
use webrtc_gateway.Session.Normalizer.Nal.{
  Found, inspect_access_unit, inspect_payload, note_type, merge, is_single, strip_sets, nothing,
}

-- The first is found in the second.
pub record Within (f g : Found) : Type 0 where
  pub sps_in : f.sps ≡ true → g.sps ≡ true
  pub pps_in : f.pps ≡ true → g.pps ≡ true
  pub idr_in : f.idr ≡ true → g.idr ≡ true

pub Within-trans : (f g h : Found) → Within f g → Within g h → Within f h
Within-trans f g h a b = ground arith

pub inspect_payload-Within : (payload : List ℕ) (f : Found) → Within f (inspect_payload payload f)
unfolding inspect_payload note_type merge
inspect_payload-Within [] f = ground arith
inspect_payload-Within (h ∷ rest) f = ground arith

inspect_payload_mono :
    (payload : List ℕ) (f g : Found)
    → Within f g
    → Within (inspect_payload payload f) (inspect_payload payload g)
unfolding inspect_payload note_type merge
inspect_payload_mono [] f g w = w
inspect_payload_mono (h ∷ rest) f g w = ground arith

pub inspect_access_unit-Within :
    (ps : List Packet) (f : Found) → Within f (inspect_access_unit ps f)
unfolding inspect_access_unit
inspect_access_unit-Within [] f = ground arith
inspect_access_unit-Within (p ∷ ps) f =
    Within-trans f (inspect_payload p.payload f)
      (inspect_access_unit ps (inspect_payload p.payload f)) (inspect_payload-Within p.payload f)
      (inspect_access_unit-Within ps (inspect_payload p.payload f))

pub inspect_access_unit_mono :
    (ps : List Packet) (f g : Found)
    → Within f g
    → Within (inspect_access_unit ps f) (inspect_access_unit ps g)
unfolding inspect_access_unit
inspect_access_unit_mono [] f g w = w
inspect_access_unit_mono (p ∷ ps) f g w =
    inspect_access_unit_mono ps (inspect_payload p.payload f) (inspect_payload p.payload g)
      (inspect_payload_mono p.payload f g w)

pub inspect-sps : (s : List ℕ) (f : Found) → is_single s 7 ≡ true → (inspect_payload s f).sps ≡ true
unfolding inspect_payload note_type is_single
inspect-sps [] f e = ground arith
inspect-sps (h ∷ rest) f e = ground arith

pub inspect-pps : (s : List ℕ) (f : Found) → is_single s 8 ≡ true → (inspect_payload s f).pps ≡ true
unfolding inspect_payload note_type is_single
inspect-pps [] f e = ground arith
inspect-pps (h ∷ rest) f e = ground arith

-- What is found of an IDR does not depend on parameter sets.
payload-idr :
    (payload : List ℕ) (f g : Found)
    → f.idr ≡ g.idr
    → (inspect_payload payload f).idr ≡ (inspect_payload payload g).idr
unfolding inspect_payload note_type merge
payload-idr [] f g e = e
payload-idr (h ∷ rest) f g e = ground arith

set-idr :
    (payload : List ℕ) (f : Found)
    → (is_single payload 7 || is_single payload 8) ≡ true
    → (inspect_payload payload f).idr ≡ f.idr
unfolding inspect_payload note_type is_single merge
set-idr [] f e = refl
set-idr (h ∷ rest) f e = ground arith

pub strip_sets-idr :
    (ps : List Packet) (f g : Found)
    → f.idr ≡ g.idr
    → (inspect_access_unit (strip_sets ps) f).idr ≡ (inspect_access_unit ps g).idr
unfolding inspect_access_unit strip_sets
strip_sets-idr [] f g e = e
strip_sets-idr (p ∷ ps) f g e =
    if_cases
      (λ (x : List Packet).
        (inspect_access_unit x f).idr ≡ (inspect_access_unit ps (inspect_payload p.payload g)).idr)
      (is_single p.payload 7 || is_single p.payload 8)
      (λ h. strip_sets-idr ps f (inspect_payload p.payload g) (e ∙ sym (set-idr p.payload g h)))
      (λ _.
        strip_sets-idr ps (inspect_payload p.payload f) (inspect_payload p.payload g)
          (payload-idr p.payload f g e))

pub nothing-Within : (f : Found) → Within nothing f
nothing-Within f = ground arith
