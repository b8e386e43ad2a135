-- ===== src/Session/Sps/Size.antt =====
-- The picture of a parameter set by the cropping rectangle of H.264, for 4:2:0: the size that internal/session/h264_sps.go
-- is to compute.
use webrtc_gateway.Base.{ℕ, Option, none, some, ◌*◌, ◌+◌, ◌-◌, ltb, if◌then◌else◌, ◌≡◌, arith}
use webrtc_gateway.Session.Sps.{size_of, Crop}
use webrtc_gateway.Session.Sps.Writer.{Sps, frames_only, crop_or_none}

-- The samples of a line that are shown, from the first to one behind the last; nothing where none is.
unfoldable pub shown : ℕ → ℕ → Option ℕ
shown first behind = if ltb first behind then some (behind - first) else none

abbrev pub picture : Option ℕ → Option ℕ → Option (ℕ × ℕ)
picture (some columns) (some rows) = some (columns, rows)
picture _ _ = none

-- A crop counts pairs of columns; and pairs of rows in a frame, but of each of its two fields where it has such.
abbrev pub shown_rows : Option ℕ → ℕ → Crop → Option ℕ
shown_rows none units c = shown (2 * c.top) (16 + 16 * units - 2 * c.bottom)
shown_rows (some adaptive) units c = shown (4 * c.top) (32 + 32 * units - 4 * c.bottom)

abbrev pub shown_columns : ℕ → Crop → Option ℕ
shown_columns mbs c = shown (2 * c.left) (16 + 16 * mbs - 2 * c.right)

abbrev pub display_size : Sps → Option (ℕ × ℕ)
display_size s =
    let c = crop_or_none s.crop in
    picture (shown_columns s.width_mbs c) (shown_rows s.fields s.height_units c)

shown_size :
    (fields : Option ℕ) (mbs units : ℕ) (c : Crop)
    → size_of 1 mbs units (frames_only fields) c
      ≡ picture (shown_columns mbs c) (shown_rows fields units c)
unfolding size_of shown
shown_size none mbs units c = ground arith
shown_size (some a) mbs units c = ground arith

pub size_of-display :
    (s : Sps)
    → size_of 1 s.width_mbs s.height_units (frames_only s.fields) (crop_or_none s.crop)
      ≡ display_size s
size_of-display s = shown_size s.fields s.width_mbs s.height_units (crop_or_none s.crop)
