-- ===== src/Session/Call/Offer.antt =====
-- internal/session/midcall.go: ValidateMidCallSDP, which reads the SDP of a mid-call offer and tests it against what the
-- gateway can bridge.
use webrtc_gateway.Base.{
  Bool, if◌then◌else◌, List, Option, some, false, true, map, not, ◌&&◌, is_empty, [], ◌∷◌, ℕ, ◌==◌,
  ltb, none, ◌||◌,
}
use webrtc_gateway.Text.{
  codes, Text, text_eq, fields_from, strip_prefix, has_prefix, trim_space, integer, to_lower,
  split_on,
}
use webrtc_gateway.Sip.Trunk.{any}

-- MidCallMedia. A port is whether it is negative, and its size; the codecs are a map from payload types.
pub record Media : Type 0 where
  pub present : Bool
  pub port : Bool × ℕ
  pub direction : Text
  pub codecs : List ((Bool × ℕ) × Text)

abbrev pub unread : Media
unread = record { present = false; port = (true, 1); direction = codes "sendrecv"; codecs = [] }

-- The media that attributes belong to.
pub data Section : Type 0 where
  audio_section video_section other_section : Section

pub record Offer : Type 0 where
  pub audio : Media
  pub video : Media
  pub section : Section

abbrev pub same_integer : Bool × ℕ → Bool × ℕ → Bool
same_integer (true, m) (true, n) = m == n
same_integer (false, m) (false, n) = m == n
same_integer _ _ = false

-- An assignment to a map.
unfoldable pub put_codec : Bool × ℕ → Text → List ((Bool × ℕ) × Text) → List ((Bool × ℕ) × Text)
put_codec k name [] = (k, name) ∷ []
put_codec k name ((j, other) ∷ rest) =
    let more = put_codec k name rest in
    if same_integer j k then (k, name) ∷ rest else (j, other) ∷ more

-- The payload types of a media line, each without a codec; texts that are no number are left out.
unfoldable pub payloads_of : List Text → List ((Bool × ℕ) × Text)
payloads_of [] = []
payloads_of (t ∷ ts) = elim (integer t) [
  | none ↦ payloads_of ts
  | some k ↦ put_codec k [] (payloads_of ts)
]

-- strings.TrimPrefix
abbrev pub trim_prefix : Text → Text → Text
trim_prefix p s = elim (strip_prefix p s) [ none ↦ s | some t ↦ t ]

pub record MediaLine : Type 0 where
  pub kind : Text
  pub line_port : Bool × ℕ
  pub payloads : List ((Bool × ℕ) × Text)

abbrev pub media_with : Option (Bool × ℕ) → Text → List Text → Option MediaLine
media_with none k types = none
media_with (some n) k types =
    some (record { kind = trim_prefix (codes "m=") k; line_port = n; payloads = payloads_of types })

-- parseMidCallMediaLine
abbrev pub media_of : List Text → Option MediaLine
media_of (k ∷ p ∷ proto ∷ first ∷ more) = media_with (integer p) k (first ∷ more)
media_of _ = none

unfoldable pub parse_media_line : Text → Option MediaLine
parse_media_line line = media_of (fields_from [] line)

abbrev pub first_part : List Text → Text
first_part [] = []
first_part (t ∷ ts) = t

-- parseRTPMap
abbrev pub codec_of : List Text → Option ((Bool × ℕ) × Text)
codec_of (k ∷ name ∷ more) = elim (integer (trim_prefix (codes "a=rtpmap:") k)) [
  | none ↦ none
  | some pt ↦ some (pt, to_lower (first_part (split_on b'/' name)))
]
codec_of _ = none

unfoldable pub parse_rtpmap : Text → Option ((Bool × ℕ) × Text)
parse_rtpmap line = codec_of (fields_from [] line)

abbrev pub is_direction : Text → Bool
is_direction line =
    any (text_eq line)
      (codes "a=sendrecv" ∷ codes "a=sendonly" ∷ codes "a=recvonly" ∷ codes "a=inactive" ∷ [])

abbrev pub add_codec : Option ((Bool × ℕ) × Text) → Media → Media
add_codec none m = m
add_codec (some (pt, name)) m = record m { codecs = put_codec pt name m.codecs }

-- An attribute of the media that are read.
unfoldable pub take_attribute : Text → Media → Media
take_attribute line m =
    if is_direction line
    then record m { direction = trim_prefix (codes "a=") line }
    else if has_prefix (codes "a=rtpmap:") (to_lower line)
    then add_codec (parse_rtpmap line) m
    else m

abbrev pub read_media : MediaLine → Media → Media
read_media l m = record m { present = true; port = l.line_port; codecs = l.payloads }

unfoldable pub start_media : MediaLine → Offer → Offer
start_media l o =
    if text_eq l.kind (codes "audio")
    then record o { audio = read_media l o.audio; section = audio_section }
    else if text_eq l.kind (codes "video")
    then record o { video = read_media l o.video; section = video_section }
    else record o { section = other_section }

abbrev pub attribute_in : Section → Text → Offer → Offer
attribute_in audio_section line o = record o { audio = take_attribute line o.audio }
attribute_in video_section line o = record o { video = take_attribute line o.video }
attribute_in other_section line o = o

-- One line, with `none` for a media line that cannot be read.
unfoldable pub take_line : Text → Offer → Option Offer
take_line line o =
    if is_empty line
    then some o
    else if has_prefix (codes "m=") line
    then elim (parse_media_line line) [ none ↦ none | some l ↦ some (start_media l o) ]
    else some (attribute_in o.section line o)

unfoldable pub take_lines : List Text → Offer → Option Offer
take_lines [] o = some o
take_lines (l ∷ ls) o = elim (take_line l o) [ none ↦ none | some p ↦ take_lines ls p ]

-- The lines, without the spaces around them; a carriage return is a space.
unfoldable pub lines_of : Text → List Text
lines_of sdp = map trim_space (split_on b'\n' sdp)

-- mediaHasCodec, of a codec in lower case
unfoldable pub has_codec : Text → List ((Bool × ℕ) × Text) → Bool
has_codec name [] = false
has_codec name (c ∷ cs) = text_eq (to_lower c.1) name || has_codec name cs

pub data Refused : Type 0 where
  missing_sdp malformed_sdp unsupported_audio_codec unsupported_video_codec : Refused

-- MidCallSDPValidation, of status 200 where nothing is refused and 488 otherwise.
pub record OfferValidation : Type 0 where
  pub refused : Option Refused
  pub read : Offer
  pub has_opus : Bool
  pub has_h264 : Bool
  pub has_active_video : Bool
  pub requires_renegotiation : Bool

abbrev pub no_offer : Offer
no_offer = record { audio = unread; video = unread; section = other_section }

-- The zero value of MidCallMedia.
abbrev pub no_media : Media
no_media = record { present = false; port = (false, 0); direction = []; codecs = [] }

abbrev pub refuse_offer : Refused → OfferValidation
refuse_offer reason = record {
  refused = some reason;
  read = record { audio = no_media; video = no_media; section = other_section };
  has_opus = false;
  has_h264 = false;
  has_active_video = false;
  requires_renegotiation = false;
}

abbrev pub is_port_open : Bool × ℕ → Bool
is_port_open (negative, n) = not negative && ltb 0 n

abbrev pub is_live : Media → Bool
is_live m = m.present && is_port_open m.port && not (text_eq m.direction (codes "inactive"))

unfoldable pub judge_offer : Offer → OfferValidation
judge_offer o =
    let opus = has_codec (codes "opus") o.audio.codecs in
    let h264 = has_codec (codes "h264") o.video.codecs in
    if not o.audio.present || not (is_port_open o.audio.port) || not opus
    then refuse_offer unsupported_audio_codec
    else if is_live o.video && not h264
    then refuse_offer unsupported_video_codec
    else record {
      refused = none;
      read = o;
      has_opus = opus;
      has_h264 = h264;
      has_active_video = is_live o.video;
      requires_renegotiation =
          o.video.present
          && ((o.video.port.1 == 0) || text_eq o.video.direction (codes "inactive"));
    }

-- ValidateMidCallSDP
unfoldable pub validate_offer : Text → OfferValidation
validate_offer sdp =
    if is_empty (trim_space sdp)
    then refuse_offer missing_sdp
    else elim (take_lines (lines_of sdp) no_offer) [
      | none ↦ refuse_offer malformed_sdp
      | some o ↦ judge_offer o
    ]
