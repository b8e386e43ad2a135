-- ===== src/Session/Call/Malformed.antt =====
-- When a mid-call offer is refused as malformed (internal/session/midcall.go).
use webrtc_gateway.Base.{
  List, Member, ◌∷◌, [], if_elim, if_cases, Option, Option-cases, ◌≡◌, some, none, inl, inr, not,
  ◌||◌, ◌&&◌, true, false, refl, arith, is_empty, ◌↔◌, subst,
}
use webrtc_gateway.Text.{Text, codes, has_prefix, trim_space}
use webrtc_gateway.Session.Call.Offer.{
  Offer, OfferValidation, Refused, MediaLine, no_offer, take_line, take_lines, parse_media_line,
  validate_offer, judge_offer, malformed_sdp, missing_sdp, unsupported_audio_codec,
  unsupported_video_codec, lines_of, refuse_offer, start_media, is_port_open, is_live, has_codec,
}

-- A media line of the text that cannot be read.
abbrev pub HasUnreadable : List Text → Type 0
HasUnreadable ls =
    (l : Text) × Member l ls × (has_prefix (codes "m=") l ≡ true) × (parse_media_line l ≡ none)

stops_at :
    (l : Text) (o : Offer)
    → has_prefix (codes "m=") l ≡ true
    → parse_media_line l ≡ none
    → take_line l o ≡ none
unfolding take_line has_prefix
stops_at [] o m e = absurd (ground arith)
stops_at (c ∷ s) o m e = rw (m, e) refl

unread_line :
    (x : Option MediaLine) (o : Offer)
    → elim x [ none ↦ none | some m ↦ some (start_media m o) ] ≡ none
    → x ≡ none
unread_line none o e = refl
unread_line (some m) o e = absurd (ground arith)

line_stops :
    (l : Text) (o : Offer)
    → take_line l o ≡ none
    → (has_prefix (codes "m=") l ≡ true) × (parse_media_line l ≡ none)
unfolding take_line
line_stops l o =
    let Q = λ (x : Option Offer).
      x ≡ none → (has_prefix (codes "m=") l ≡ true) × (parse_media_line l ≡ none) in
    if_elim Q (is_empty l) (λ e. absurd (ground arith))
      (if_cases Q (has_prefix (codes "m=") l) (λ m e. (m, unread_line (parse_media_line l) o e))
        (λ n e. absurd (ground arith)))

lines_stop : (ls : List Text) (o : Offer) → take_lines ls o ≡ none → HasUnreadable ls
unfolding take_lines
lines_stop [] o e = absurd (ground arith)
lines_stop (l ∷ ls) o e = elim (Option-cases (take_line l o)) [
  | inl n ↦ (let (m, h) = line_stops l o n in (l, inl refl, m, h))
  | inr (p, y) ↦ (let (u, i, m, h) = lines_stop ls p (rw (y, take_lines) at e) in (u, inr i, m, h))
]

unreadable_stops : (ls : List Text) (o : Offer) → HasUnreadable ls → take_lines ls o ≡ none
unfolding take_lines
unreadable_stops [] o (u, i, m, h) = absurd i
unreadable_stops (l ∷ ls) o (u, inl y, m, h) =
    let stops =
      stops_at l o (subst (λ x. has_prefix (codes "m=") x ≡ true) y m)
        (subst (λ x. parse_media_line x ≡ none) y h) in
    rw (stops, take_lines) refl
unreadable_stops (l ∷ ls) o (u, inr i, m, h) = elim (Option-cases (take_line l o)) [
  | inl n ↦ rw (n, take_lines) refl
  | inr (p, y) ↦ rw (y, take_lines) (unreadable_stops ls p (u, i, m, h))
]

abbrev IsMalformed : OfferValidation → Type 0
IsMalformed v = v.refused ≡ some malformed_sdp

refuses_codec : (r : Refused) → ¬ (r ≡ malformed_sdp) → ¬ IsMalformed (refuse_offer r)
refuses_codec r n e = ground (arith)

judge_offer_reads : (o : Offer) → ¬ IsMalformed (judge_offer o)
unfolding judge_offer
judge_offer_reads o =
    let Q = λ (v : OfferValidation). ¬ IsMalformed v in
    let opus = has_codec (codes "opus") o.audio.codecs in
    let h264 = has_codec (codes "h264") o.video.codecs in
    if_elim Q (not o.audio.present || not (is_port_open o.audio.port) || not opus)
      (refuses_codec unsupported_audio_codec (λ e. ground arith))
      (if_elim Q (is_live o.video && not h264)
        (refuses_codec unsupported_video_codec (λ e. ground arith)) (λ e. ground arith))

judged_none :
    (x : Option Offer)
    → IsMalformed (elim x [ none ↦ refuse_offer malformed_sdp | some o ↦ judge_offer o ])
    → x ≡ none
judged_none none e = refl
judged_none (some o) e = absurd (judge_offer_reads o e)

refused_lines :
    (sdp : Text)
    → IsMalformed (validate_offer sdp)
    → (is_empty (trim_space sdp) ≡ false) × (take_lines (lines_of sdp) no_offer ≡ none)
unfolding validate_offer
refused_lines sdp =
    let Q = λ (v : OfferValidation).
      IsMalformed v
      → (is_empty (trim_space sdp) ≡ false) × (take_lines (lines_of sdp) no_offer ≡ none) in
    if_cases Q (is_empty (trim_space sdp))
      (λ y e. absurd (refuses_codec missing_sdp (λ h. ground arith) e))
      (λ b e. (b, judged_none (take_lines (lines_of sdp) no_offer) e))

-- A mid-call offer is refused as malformed exactly where it is not blank and one of its media lines cannot be read,
-- wherever that line stands and whatever the others offer.
pub refused_iff :
    (sdp : Text)
    → ((validate_offer sdp).refused ≡ some malformed_sdp)
      ↔ ((is_empty (trim_space sdp) ≡ false) × HasUnreadable (lines_of sdp))
unfolding validate_offer
refused_iff sdp = (
  λ e. (let (b, n) = refused_lines sdp e in (b, lines_stop (lines_of sdp) no_offer n)),
  λ (b, h). rw (b, unreadable_stops (lines_of sdp) no_offer h) refl,
)
