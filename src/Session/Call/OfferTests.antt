-- ===== src/Session/Call/OfferTests.antt =====
-- Runs of the validation of mid-call offers, and the witness.
use mathlib.Core.List.{reverse, reverse_aux}
use webrtc_gateway.Base.{is_empty, ◌↔◌, ◌∷◌, ◌≡◌, none, some, true, refl, ◌++◌, List, [], false}
use webrtc_gateway.Text.{
  codes, Text, text_eq, trim_space, trim_left, split_on, fields_from, integer, digits, to_lower,
  strip_prefix, has_prefix,
}
use webrtc_gateway.Session.Call.Offer.{
  validate_offer, lines_of, take_lines, take_line, parse_media_line, parse_rtpmap, payloads_of,
  put_codec, start_media, take_attribute, has_codec, judge_offer, malformed_sdp, missing_sdp,
  unsupported_video_codec, unsupported_audio_codec,
}
use webrtc_gateway.Session.Call.Malformed.{refused_iff, HasUnreadable}
use webrtc_gateway.Session.Call.Offered.{accepted_offers_media, Offered}
use webrtc_gateway.Sip.Trunk.{any}

abbrev line_end : Text
line_end = b'\r' ∷ b'\n' ∷ []

-- The lines, each with its end.
abbrev text_of : List Text → Text
text_of [] = []
text_of (l ∷ ls) = l ++ (line_end ++ text_of ls)

abbrev audio_lines : List Text
audio_lines =
    codes "v=0" ∷ codes "m=audio 5004 RTP/AVP 111" ∷ codes "a=rtpmap:111 Opus/48000/2" ∷ []

abbrev audio_and : List Text → Text
audio_and ls = text_of (audio_lines ++ ls)

abbrev video_lines : List Text
video_lines = codes "m=video 5006 RTP/AVP 96" ∷ codes "a=rtpmap:96 H264/90000" ∷ []

missing : (validate_offer (codes "  ")).refused ≡ some missing_sdp
unfolding validate_offer trim_space trim_left reverse reverse_aux
missing = refl

accepted : (validate_offer (audio_and video_lines)).refused ≡ none
unfolding validate_offer lines_of take_lines take_line parse_media_line parse_rtpmap payloads_of
    put_codec start_media take_attribute has_codec judge_offer split_on fields_from integer to_lower
    strip_prefix has_prefix text_eq trim_space trim_left reverse reverse_aux digits any
accepted = refl

active : (validate_offer (audio_and video_lines)).has_active_video ≡ true
unfolding validate_offer lines_of take_lines take_line parse_media_line parse_rtpmap payloads_of
    put_codec start_media take_attribute has_codec judge_offer split_on fields_from integer to_lower
    strip_prefix has_prefix text_eq trim_space trim_left reverse reverse_aux digits any
active = refl

no_h264 :
    (validate_offer (audio_and (codes "m=video 5006 RTP/AVP 96" ∷ []))).refused
    ≡ some unsupported_video_codec
unfolding validate_offer lines_of take_lines take_line parse_media_line parse_rtpmap payloads_of
    put_codec start_media take_attribute has_codec judge_offer split_on fields_from integer to_lower
    strip_prefix has_prefix text_eq trim_space trim_left reverse reverse_aux digits any
no_h264 = refl

upper_case :
    (validate_offer
      (text_of (codes "m=audio 5004 RTP/AVP 111" ∷ codes "a=RTPMAP:111 opus/48000" ∷ []))).refused
    ≡ some unsupported_audio_codec
unfolding validate_offer lines_of take_lines take_line parse_media_line parse_rtpmap payloads_of
    put_codec start_media take_attribute has_codec judge_offer split_on fields_from integer to_lower
    strip_prefix has_prefix text_eq trim_space trim_left reverse reverse_aux digits any
upper_case = refl

short_line :
    (validate_offer (audio_and (codes "m=video 0 RTP/AVP" ∷ []))).refused ≡ some malformed_sdp
unfolding validate_offer lines_of take_lines take_line parse_media_line parse_rtpmap payloads_of
    put_codec start_media take_attribute has_codec judge_offer split_on fields_from integer to_lower
    strip_prefix has_prefix text_eq trim_space trim_left reverse reverse_aux digits
short_line = refl

closed_video :
    (validate_offer (audio_and (codes "m=video 0 RTP/AVP 96" ∷ []))).requires_renegotiation ≡ true
unfolding validate_offer lines_of take_lines take_line parse_media_line parse_rtpmap payloads_of
    put_codec start_media take_attribute has_codec judge_offer split_on fields_from integer to_lower
    strip_prefix has_prefix text_eq trim_space trim_left reverse reverse_aux digits any
closed_video = refl

accepted_offers_media_example :
    Offered
      (lines_of (audio_and video_lines))
      (validate_offer (audio_and video_lines)).has_active_video
accepted_offers_media_example = accepted_offers_media (audio_and video_lines) accepted

abbrev short_media : Text
short_media = audio_and (codes "m=video 0 RTP/AVP" ∷ [])

refused_iff_example :
    ((validate_offer short_media).refused ≡ some malformed_sdp)
    ↔ ((is_empty (trim_space short_media) ≡ false) × HasUnreadable (lines_of short_media))
refused_iff_example = refused_iff short_media
