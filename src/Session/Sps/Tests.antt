-- ===== src/Session/Sps/Tests.antt =====
-- Runs of the parameter set parser of internal/session, and its witness.
use webrtc_gateway.Base.{[], ◌∷◌, none, some, ◌≡◌, refl, arith}
use webrtc_gateway.Session.Sps.Writer.{write_sps, Sps}
use webrtc_gateway.Session.Sps.{has_chroma, sps_units, picture_size}
use webrtc_gateway.Session.Sps.Size.{shown}
use webrtc_gateway.Session.Sps.Reads.{IsWritable}
use webrtc_gateway.Session.Sps.RoundTrip.{picture_size-write_sps}
use webrtc_gateway.Session.Normalizer.Nal.{stapa_units}

-- A baseline set of 1280 by 720, whose last macroblock row is cropped.
abbrev wide : Sps
wide = record {
  profile = 66;
  flags = 192;
  level = 31;
  set_id = 0;
  log_frame_num = 0;
  order_count = none;
  ref_frames = 1;
  gaps = 0;
  width_mbs = 79;
  height_units = 44;
  fields = none;
  direct = 1;
  crop = none;
}

-- The same with fields, and a crop on each side.
abbrev cropped : Sps
cropped = record wide {
  order_count = some 4;
  height_units = 22;
  fields = some 0;
  crop = some (record { left = 1; right = 3; top = 1; bottom = 3 });
}

cropped-IsWritable : IsWritable cropped
unfolding has_chroma
cropped-IsWritable = record {
  profile_fits = omega arith;
  no_chroma = refl;
  flags_fit = omega arith;
  level_fits = omega arith;
  set_id_fits = omega arith;
  log_frame_num_fits = omega arith;
  order_fits = omega arith;
  ref_frames_fit = omega arith;
  gaps_fit = omega arith;
  width_fits = omega arith;
  height_fits = omega arith;
  fields_fit = omega arith;
  direct_fits = omega arith;
  crop_fits = omega arith;
}

picture_size-write_sps_example : picture_size (write_sps cropped) ≡ some (1272, 720)
unfolding shown
picture_size-write_sps_example = picture_size-write_sps cropped cropped-IsWritable

write_wide : write_sps wide ≡ 103 ∷ 66 ∷ 192 ∷ 31 ∷ 218 ∷ 1 ∷ 64 ∷ 22 ∷ 232 ∷ []
unfolding write_sps
write_wide = refl

sps_in_stapa : sps_units (24 ∷ 0 ∷ 2 ∷ 103 ∷ 66 ∷ 0 ∷ 2 ∷ 104 ∷ 1 ∷ []) ≡ (103 ∷ 66 ∷ []) ∷ []
unfolding sps_units stapa_units
sps_in_stapa = refl
