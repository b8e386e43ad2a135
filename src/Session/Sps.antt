-- ===== src/Session/Sps.antt =====
-- internal/session/h264_sps.go: the picture size that a sequence parameter set gives, and the parameter sets in a
-- payload. The numbers read have at most 32 bits, so that no sum or product of a Go uint wraps.
pub mod Writer
pub mod Size
pub mod Codes
pub mod Reads
pub mod BitLists
pub mod RoundTrip
pub mod Tests
use webrtc_gateway.Base.{
  [], ◌∷◌, none, some, Option, ℕ, List, Bool, ◌+◌, ◌==◌, if◌then◌else◌, ltb, ◌!=◌, ◌||◌, ◌*◌,
  length, is_empty, ◌-◌, leb, drop,
}
use webrtc_gateway.Session.Bits.{Reader, low5, read_ue, read_bits, strip_emulation_prevention}
use webrtc_gateway.Session.Normalizer.Nal.{first_byte, stapa_units}

-- A parser is a function of the reader; where it fails nothing more is read.
abbrev pub Parser : Type 0 → Type 0
Parser A = Reader → Option (A × Reader)

infixl 5 ◌>>=◌ ◌>>◌
pub ◌>>=◌ : {A B : Type 0} → Parser A → (A → Parser B) → Parser B
◌>>=◌ m f r = elim (m r) [ none ↦ none | some (a, r') ↦ f a r' ]

unfoldable pub ◌>>◌ : {A B : Type 0} → Parser A → Parser B → Parser B
m >> k = m >>= λ _. k

pub give : {A : Type 0} → A → Parser A
give a r = some (a, r)

pub refuse : {A : Type 0} → Parser A
refuse r = none

-- The profiles whose parameter sets have a chroma format.
unfoldable pub has_chroma : ℕ → Bool
has_chroma p =
    (p == 100)
    || (p == 110)
    || (p == 122)
    || (p == 244)
    || (p == 44)
    || (p == 83)
    || (p == 86)
    || (p == 118)
    || (p == 128)
    || (p == 138)
    || (p == 139)
    || (p == 134)
    || (p == 135)

-- What is read for a test, and skipped.
unfoldable pub skip_if : Bool → Parser ℕ → Parser ℕ
skip_if b m = if b then m else give 0

unfoldable pub chroma_fields : Parser ℕ
unfolding skip_if
chroma_fields = do
  chroma ← read_ue
  skip_if (chroma == 3) (read_bits 1)
  read_ue
  read_ue
  read_bits 1
  scaling ← read_bits 1
  if scaling != 0 then refuse else give chroma

-- The chroma format, 1 where the profile has none.
unfoldable pub chroma_of : ℕ → Parser ℕ
unfolding chroma_fields has_chroma
chroma_of profile = if has_chroma profile then chroma_fields else give 1

unfoldable pub order_fields : ℕ → Parser ℕ
order_fields poc = if poc == 0 then read_ue else if poc == 2 then give 0 else refuse

pub record Crop : Type 0 where
  pub left : ℕ
  pub right : ℕ
  pub top : ℕ
  pub bottom : ℕ

unfoldable pub crop_fields : ℕ → Parser Crop
crop_fields cropping =
    if cropping == 0 then give (record { left = 0; right = 0; top = 0; bottom = 0 }) else do
      l ← read_ue
      r ← read_ue
      t ← read_ue
      b ← read_ue
      give (record { left = l; right = r; top = t; bottom = b })

abbrev pub crop_unit_x : ℕ → ℕ
crop_unit_x chroma = if (chroma == 1) || (chroma == 2) then 2 else 1

abbrev pub crop_unit_y : ℕ → ℕ → ℕ
crop_unit_y chroma frame_mbs_only =
    if chroma == 1 then 2 * (2 - frame_mbs_only) else 2 - frame_mbs_only

-- The size from the fields, where the crop leaves a picture.
unfoldable pub size_of : ℕ → ℕ → ℕ → ℕ → Crop → Option (ℕ × ℕ)
size_of chroma width_mbs height_units frame_mbs_only c =
    let width = (width_mbs + 1) * 16 in
    let height = (height_units + 1) * 16 * (2 - frame_mbs_only) in
    let crop_x = (c.left + c.right) * crop_unit_x chroma in
    let crop_y = (c.top + c.bottom) * crop_unit_y chroma frame_mbs_only in
    if leb width crop_x || leb height crop_y then none else some (width - crop_x, height - crop_y)

-- The fields in their order, to the size.
unfoldable pub parse_size : Parser (Option (ℕ × ℕ))
unfolding chroma_of order_fields crop_fields skip_if
parse_size = do
  profile ← read_bits 8
  read_bits 8
  read_bits 8
  read_ue
  chroma ← chroma_of profile
  read_ue
  poc ← read_ue
  order_fields poc
  read_ue
  read_bits 1
  width_mbs ← read_ue
  height_units ← read_ue
  frame_mbs_only ← read_bits 1
  skip_if (frame_mbs_only == 0) (read_bits 1)
  read_bits 1
  cropping ← read_bits 1
  crop ← crop_fields cropping
  give (size_of chroma width_mbs height_units frame_mbs_only crop)

-- h264SPSPictureSize
unfoldable pub picture_size : List ℕ → Option (ℕ × ℕ)
unfolding parse_size
picture_size nal =
    if ltb (length nal) 4 || (low5 (first_byte nal) != 7)
    then none
    else elim (parse_size (record { bytes = strip_emulation_prevention (drop 1 nal); pos = 0 })) [
      | none ↦ none
      | some (size, r) ↦ size
    ]

unfoldable pub sps_only : List (List ℕ) → List (List ℕ)
sps_only [] = []
sps_only (u ∷ us) = if low5 (first_byte u) == 7 then u ∷ sps_only us else sps_only us

-- h264SPSUnits
unfoldable pub sps_units : List ℕ → List (List ℕ)
unfolding sps_only
sps_units payload =
    let t = low5 (first_byte payload) in
    if is_empty payload
    then []
    else if t == 7
    then payload ∷ []
    else if (t != 24) || ltb (length payload) 3
    then []
    else sps_only (stapa_units (length payload) (drop 1 payload))
