-- ===== src/Session/Call/Offered.antt =====
-- What an accepted mid-call offer says in its text (internal/session/midcall.go).
use webrtc_gateway.Base.{
  List, Bool, if_elim, Option, ◌≡◌, some, false, ◌⊎◌, inr, true, none, refl, inl, arith, is_empty,
  if_cases, not, ◌||◌, ◌&&◌, All-Member,
}
use webrtc_gateway.Text.{Text, text_eq, codes, trim_space}
use webrtc_gateway.Session.Call.Offer.{
  Media, is_port_open, Offer, take_lines, has_codec, no_offer, judge_offer, OfferValidation,
  Refused, refuse_offer, unsupported_audio_codec, unsupported_video_codec, is_live, lines_of,
  validate_offer, malformed_sdp,
}
use webrtc_gateway.Session.Call.Reading.{
  HasPort, take_lines-Reads, Reads, Read, IsRead, MapsTo, has_codec-Maps,
}

unread-IsRead : (ls : List Text) → IsRead ls no_offer
unread-IsRead ls = record { audio_read = (tt, inl refl); video_read = (tt, inl refl) }

open-HasPort :
    (k : Text) (ls : List Text) (m : Media)
    → Read ls k m
    → is_port_open m.port ≡ true
    → HasPort k ls
open-HasPort k ls m r y = elim r.1 [ inl n ↦ absurd (ground arith) | inr p ↦ p ]

-- What an offer that is accepted is tested for.
abbrev Judged : Offer → OfferValidation → Type 0
Judged o v =
    v.refused ≡ none
    → (is_port_open o.audio.port ≡ true)
      × (has_codec (codes "opus") o.audio.codecs ≡ true)
      × ((v.has_active_video ≡ false)
          ⊎ ((is_port_open o.video.port ≡ true) × (has_codec (codes "h264") o.video.codecs ≡ true)))

refuse_offer-Judged : (o : Offer) (reason : Refused) → Judged o (refuse_offer reason)
refuse_offer-Judged o reason r = absurd (ground arith)

audio_tested : (a b c : Bool) → (not a || not b || not c) ≡ false → (b ≡ true) × (c ≡ true)
audio_tested true true true n = (refl, refl)
audio_tested true true false n = absurd (ground arith)
audio_tested true false c n = absurd (ground arith)
audio_tested false b c n = absurd (ground arith)

video_tested :
    (a b c d : Bool)
    → ((a && b && c) && not d) ≡ false
    → ((a && b && c) ≡ false) ⊎ ((b ≡ true) × (d ≡ true))
video_tested false b c d n = inl refl
video_tested true false c d n = inl refl
video_tested true true false d n = inl refl
video_tested true true true true n = inr (refl, refl)
video_tested true true true false n = absurd (ground arith)

judge_offer-Judged : (o : Offer) → Judged o (judge_offer o)
unfolding judge_offer
judge_offer-Judged o =
    let opus = has_codec (codes "opus") o.audio.codecs in
    let h264 = has_codec (codes "h264") o.video.codecs in
    if_cases (Judged o) (not o.audio.present || not (is_port_open o.audio.port) || not opus)
      (λ y. refuse_offer-Judged o unsupported_audio_codec)
      (λ n.
        if_cases (Judged o) (is_live o.video && not h264)
          (λ y. refuse_offer-Judged o unsupported_video_codec)
          (λ d r.
            let audio = audio_tested o.audio.present (is_port_open o.audio.port) opus n in
            (
              audio.0,
              audio.1,
              video_tested o.video.present (is_port_open o.video.port)
                  (not (text_eq o.video.direction (codes "inactive"))) h264 d,
            )))

-- What the text of an accepted offer has, where the last part says whether its video is active.
abbrev pub Offered : List Text → Bool → Type 0
Offered ls is_active =
    HasPort (codes "audio") ls
    × MapsTo ls (codes "opus")
    × ((is_active ≡ false) ⊎ (HasPort (codes "video") ls × MapsTo ls (codes "h264")))

abbrev Honest : List Text → OfferValidation → Type 0
Honest ls v = v.refused ≡ none → Offered ls v.has_active_video

judge_offer-Honest : (ls : List Text) (o : Offer) → IsRead ls o → Honest ls (judge_offer o)
unfolding text_eq
judge_offer-Honest ls o h r =
    let t = judge_offer-Judged o r in
    (
      open-HasPort (codes "audio") ls o.audio h.audio_read t.0,
      has_codec-Maps ls (codes "opus") o.audio.codecs refl t.1 h.audio_read.0,
      elim t.2 [
        | inl idle ↦ inl idle
        | inr v ↦ inr (
          open-HasPort (codes "video") ls o.video h.video_read v.0,
          has_codec-Maps ls (codes "h264") o.video.codecs refl v.1 h.video_read.0,
        )
      ],
    )

judged-Honest :
    (ls : List Text) (x : Option Offer)
    → Reads ls x
    → Honest ls (elim x [ none ↦ refuse_offer malformed_sdp | some o ↦ judge_offer o ])
judged-Honest ls none h r = absurd (ground arith)
judged-Honest ls (some o) h r = judge_offer-Honest ls o h r

-- A mid-call offer that is accepted has in its text an audio line with a port above 0 and a line that maps a payload
-- type to Opus; and its video counts as active only where the text has a video line with a port above 0 and
-- a line that maps a payload type to H.264, in any case of the letters.
pub accepted_offers_media :
    (sdp : Text)
    → (validate_offer sdp).refused ≡ none
    → Offered (lines_of sdp) (validate_offer sdp).has_active_video
unfolding validate_offer
accepted_offers_media sdp =
    if_elim (Honest (lines_of sdp)) (is_empty (trim_space sdp)) (λ r. absurd (ground arith))
      (judged-Honest (lines_of sdp) (take_lines (lines_of sdp) no_offer) (
        take_lines-Reads (lines_of sdp) (lines_of sdp) no_offer (All-Member (lines_of sdp))
          (unread-IsRead (lines_of sdp))))
