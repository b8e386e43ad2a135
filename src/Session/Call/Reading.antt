-- ===== src/Session/Call/Reading.antt =====
-- What is known of a mid-call offer while its lines are read (internal/session/midcall.go).
use webrtc_gateway.Base.{
  List, Member, Bool, ◌∷◌, if_elim, ℕ, Option, ◌≡◌, All, [], some, false, ◌⊎◌, inr, true, none,
  refl, inl, arith, is_empty, subst, if_cases, ap, Bool-cases,
}
use webrtc_gateway.Text.{
  Text, integer, has_prefix, text_eq, codes, to_lower, fields_from, text_eq→eq,
}
use webrtc_gateway.Session.Call.Offer.{
  MediaLine, payloads_of, Media, take_attribute, put_codec, parse_media_line, is_port_open,
  media_of, parse_rtpmap, is_direction, add_codec, same_integer, Offer, Section, read_media,
  media_with, take_line, take_lines, start_media, attribute_in, audio_section, video_section,
  other_section, has_codec,
}

-- The text has a media line of this kind with a port that can be used, or a line that maps a payload type to a codec.
abbrev pub HasPort : Text → List Text → Type 0
HasPort k ls =
    (l : Text) × Member l ls
    × ((m : MediaLine) × (parse_media_line l ≡ some m)
        × (text_eq m.kind k ≡ true)
        × (is_port_open m.line_port ≡ true))

abbrev pub Maps : Text → List Text → Type 0
Maps name ls = (l : Text) × Member l ls × ((pt : Bool × ℕ) × (parse_rtpmap l ≡ some (pt, name)))

module _ (ls : List Text) where
  -- Every codec of a map comes from a line.
  abbrev Mapped : List ((Bool × ℕ) × Text) → Type 0
  Mapped cs = All (λ c. (c.1 ≡ []) ⊎ Maps c.1 ls) cs

  abbrev pub Read : Text → Media → Type 0
  Read k m = Mapped m.codecs × ((is_port_open m.port ≡ false) ⊎ HasPort k ls)

  put_codec-Mapped :
      (k : Bool × ℕ) (name : Text) (cs : List ((Bool × ℕ) × Text))
      → (name ≡ []) ⊎ Maps name ls
      → Mapped cs
      → Mapped (put_codec k name cs)
  unfolding put_codec
  put_codec-Mapped k name [] n h = (n, tt)
  put_codec-Mapped k name ((j, other) ∷ rest) n h =
      if_elim Mapped (same_integer j k) (n, h.1) (h.0, put_codec-Mapped k name rest n h.1)

  payloads-Mapped : (ts : List Text) → Mapped (payloads_of ts)
  unfolding payloads_of
  payloads-Mapped [] = tt
  payloads-Mapped (t ∷ ts) =
      elim (integer t)
        as (λ x.
          Mapped (elim x [ none ↦ payloads_of ts | some k ↦ put_codec k [] (payloads_of ts) ])) [
            | none ↦ payloads-Mapped ts
            | some k ↦ put_codec-Mapped k [] (payloads_of ts) (inl refl) (payloads-Mapped ts)
          ]

  add_codec-Read :
      (k l : Text) (m : Media) (x : Option ((Bool × ℕ) × Text))
      → Member l ls
      → parse_rtpmap l ≡ x
      → Read k m
      → Read k (add_codec x m)
  add_codec-Read k l m none i e h = h
  add_codec-Read k l m (some (pt, name)) i e h =
      (put_codec-Mapped pt name m.codecs (inr (l, i, (pt, e))) h.0, h.1)

  take_attribute-Read :
      (k l : Text) (m : Media) → Member l ls → Read k m → Read k (take_attribute l m)
  unfolding take_attribute
  take_attribute-Read k l m i h = if_elim (Read k) (is_direction l) h (
      if_elim (Read k) (has_prefix (codes "a=rtpmap:") (to_lower l))
        (add_codec-Read k l m (parse_rtpmap l) i refl h) h)

  media_with-Mapped :
      (x : Option (Bool × ℕ)) (k : Text) (ts : List Text) (m : MediaLine)
      → media_with x k ts ≡ some m
      → Mapped m.payloads
  media_with-Mapped none k ts m e = absurd (ground arith)
  media_with-Mapped (some n) k ts m e =
      subst Mapped (ap (λ o. elim o [ none ↦ [] | some l ↦ l.payloads ]) e) (payloads-Mapped ts)

  media-Mapped : (fs : List Text) (m : MediaLine) → media_of fs ≡ some m → Mapped m.payloads
  media-Mapped (k ∷ p ∷ proto ∷ first ∷ more) m e =
      media_with-Mapped (integer p) k (first ∷ more) m e
  media-Mapped [] m e = absurd (ground arith)
  media-Mapped (k ∷ []) m e = absurd (ground arith)
  media-Mapped (k ∷ p ∷ []) m e = absurd (ground arith)
  media-Mapped (k ∷ p ∷ proto ∷ []) m e = absurd (ground arith)

  -- What is known of an offer while it is read.
  pub record IsRead (o : Offer) : Type 0 where
    pub audio_read : Read (codes "audio") o.audio
    pub video_read : Read (codes "video") o.video

  read_media-Read :
      (k l : Text) (m : MediaLine) (a : Media)
      → Member l ls
      → parse_media_line l ≡ some m
      → text_eq m.kind k ≡ true
      → Read k (read_media m a)
  unfolding parse_media_line
  read_media-Read k l m a i e t = (
    media-Mapped (fields_from [] l) m e,
    elim (Bool-cases (is_port_open m.line_port)) [
      | inl y ↦ inr (l, i, (m, e, t, y))
      | inr n ↦ inl n
    ],
  )

  start_media-IsRead :
      (l : Text) (m : MediaLine) (o : Offer)
      → Member l ls
      → parse_media_line l ≡ some m
      → IsRead o
      → IsRead (start_media m o)
  unfolding start_media
  start_media-IsRead l m o i e h =
      if_cases IsRead (text_eq m.kind (codes "audio"))
        (λ t. record {
          audio_read = read_media-Read (codes "audio") l m o.audio i e t;
          video_read = h.video_read;
        })
        (λ n.
          if_cases IsRead (text_eq m.kind (codes "video"))
            (λ t. record {
              audio_read = h.audio_read;
              video_read = read_media-Read (codes "video") l m o.video i e t;
            })
            (λ d. record { audio_read = h.audio_read; video_read = h.video_read }))

  attribute_in-IsRead :
      (s : Section) (l : Text) (o : Offer) → Member l ls → IsRead o → IsRead (attribute_in s l o)
  attribute_in-IsRead audio_section l o i h = record {
    audio_read = take_attribute-Read (codes "audio") l o.audio i h.audio_read;
    video_read = h.video_read;
  }
  attribute_in-IsRead video_section l o i h = record {
    audio_read = h.audio_read;
    video_read = take_attribute-Read (codes "video") l o.video i h.video_read;
  }
  attribute_in-IsRead other_section l o i h = h

  -- An offer that is read, if it is.
  abbrev pub Reads : Option Offer → Type 0
  Reads none = Unit
  Reads (some o) = IsRead o

  media_line-Reads :
      (l : Text) (x : Option MediaLine) (o : Offer)
      → Member l ls
      → parse_media_line l ≡ x
      → IsRead o
      → Reads (elim x [ none ↦ none | some m ↦ some (start_media m o) ])
  media_line-Reads l none o i e h = tt
  media_line-Reads l (some m) o i e h = start_media-IsRead l m o i e h

  take_line-Reads : (l : Text) (o : Offer) → Member l ls → IsRead o → Reads (take_line l o)
  unfolding take_line
  take_line-Reads l o i h = if_elim Reads (is_empty l) h (
      if_elim Reads (has_prefix (codes "m=") l) (media_line-Reads l (parse_media_line l) o i refl h)
        (attribute_in-IsRead o.section l o i h))

  read_on :
      (rest : List Text) (x : Option Offer)
      → ((p : Offer) → IsRead p → Reads (take_lines rest p))
      → Reads x
      → Reads (elim x [ none ↦ none | some p ↦ take_lines rest p ])
  read_on rest none f r = tt
  read_on rest (some p) f r = f p r

  pub take_lines-Reads :
      (rest : List Text) (o : Offer)
      → All (λ l. Member l ls) rest
      → IsRead o
      → Reads (take_lines rest o)
  unfolding take_lines
  take_lines-Reads [] o i h = h
  take_lines-Reads (l ∷ rest) o i h =
      read_on rest (take_line l o) (λ p r. take_lines-Reads rest p i.1 r)
        (take_line-Reads l o i.0 h)

  -- A line maps to this codec, in any case of its letters.
  abbrev pub MapsTo : Text → Type 0
  MapsTo name = (codec : Text) × Maps codec ls × (to_lower codec ≡ name)

  no_codec :
      (name : Text) → text_eq [] name ≡ false → text_eq (to_lower []) name ≡ true → MapsTo name
  unfolding to_lower
  no_codec name n t = absurd (ground arith)

  -- A codec that is found is one that a line maps.
  pub has_codec-Maps :
      (name : Text) (cs : List ((Bool × ℕ) × Text))
      → text_eq [] name ≡ false
      → has_codec name cs ≡ true
      → Mapped cs
      → MapsTo name
  unfolding has_codec
  has_codec-Maps name [] n h m = absurd (ground arith)
  has_codec-Maps name (c ∷ cs) n h m = elim (Bool-cases (text_eq (to_lower c.1) name)) [
    | inl t ↦ elim m.0 [
      | inl void ↦ no_codec name n (subst (λ x. text_eq (to_lower x) name ≡ true) void t)
      | inr maps ↦ (c.1, maps, text_eq→eq (to_lower c.1) name t)
    ]
    | inr d ↦ has_codec-Maps name cs n (ground arith) m.1
  ]
