-- ===== src/Session/Feedback/Spacing.antt =====
-- How far apart the keyframe requests to the SIP side are (internal/session/switch_feedback.go), whatever happens between
-- the decision of a request and its preparation.
use webrtc_gateway.Base.{
  ℕ, Option, List, true, ◌∷◌, if◌then◌else◌, Bool, some, none, ◌≡◌, [], false, ◌⊎◌, not, arith,
  ◌&&◌, ◌||◌, ◌*◌, millisecond, refl, inl, inr, subst₂,
}
use webrtc_gateway.Session.Feedback.{Feedback, Request, Kind, is_fir, fir, pli}
use webrtc_gateway.Session.Feedback.Requests.{
  pli_bypass, aim, decide_request, prepare, Prepared, note_marker, pass_limits, pli_throttled,
  fir_throttled, prepared_of, numbered,
}
use webrtc_gateway.Session.Recovery.Burst.{is_recent}
use webrtc_gateway.Session.Feedback.Events.{
  sent, step, Sent, Event, sent_by, cons_option, prepares, decides, forwards,
}

-- Whether a request may go out, by the last request and the last FIR before it.
abbrev pub may_send : Option ℕ → Option ℕ → Sent → Bool
may_send last last_fir x = elim x.kind_sent [
  | pli ↦ x.bypassed || not (is_recent last x.at (300 * millisecond))
  | fir ↦ not (is_recent last_fir x.at (1000 * millisecond))
]

abbrev pub fir_after : Option ℕ → Sent → Option ℕ
fir_after last_fir x = if is_fir x.kind_sent then some x.at else last_fir

-- Every request keeps its distance to those before it.
unfoldable pub IsPaced : Option ℕ → Option ℕ → List Sent → Type 0
IsPaced last last_fir [] = true ≡ true
IsPaced last last_fir (x ∷ xs) =
    (may_send last last_fir x ≡ true) × IsPaced (some x.at) (fir_after last_fir x) xs

-- What a preparation leaves of the times, and when it sends.
abbrev pub Marked : ℕ → Request → Feedback → Feedback → Bool → Type 0
Marked now r s after ready =
    ((ready ≡ true)
      × (after.last_sip_pli ≡ some now)
      × (after.last_sip_fir ≡ (if is_fir r.kind then some now else s.last_sip_fir)))
    ⊎ ((ready ≡ false)
        × (after.last_sip_pli ≡ s.last_sip_pli)
        × (after.last_sip_fir ≡ s.last_sip_fir))

aim-Marked :
    (now : ℕ) (r : Request) (p : Prepared) (s : Feedback)
    → p.ready ≡ false
    → Marked now r s (aim now r p s).0 (aim now r p s).1.ready
unfolding aim
aim-Marked now r p s h = ground arith

pli_bypass-times :
    (now : ℕ) (r : Request) (s : Feedback)
    → ((pli_bypass now r s).0.last_sip_pli ≡ s.last_sip_pli)
      × ((pli_bypass now r s).0.last_sip_fir ≡ s.last_sip_fir)
unfolding pli_bypass
pli_bypass-times now r s = ground arith

-- A preparation marks the times of what it sends, and sends what may be sent.
abbrev pub Passes : ℕ → Request → Feedback → Bool → Feedback × Prepared → Type 0
Passes now r s bypass x =
    Marked now r s x.0 x.1.ready
    × ((x.1.ready ≡ false)
        ⊎ (may_send s.last_sip_pli s.last_sip_fir
              (record { at = now; kind_sent = r.kind; bypassed = bypass })
            ≡ true))

module _ (now : ℕ) (r : Request) (p : Prepared) (s : Feedback) (h : p.ready ≡ false) where
  pass_pli : r.kind ≡ pli → Passes now r s (pli_bypass now r s).1 (pass_limits now r p s)
  unfolding pass_limits pli_throttled
  pass_pli k =
      let a = aim-Marked now r p (pli_bypass now r s).0 h in
      let b = pli_bypass-times now r s in ground arith

  pass_fir : r.kind ≡ fir → Passes now r s false (pass_limits now r p s)
  unfolding pass_limits fir_throttled
  pass_fir k = let a = aim-Marked now r p s h in ground arith

abbrev pub bypass_of : ℕ → Request → Feedback → Bool
bypass_of now r s = not (is_fir r.kind) && (pli_bypass now r s).1

pub prepare_kind : (k : Kind) → (k ≡ pli) ⊎ (k ≡ fir)
prepare_kind pli = inl refl
prepare_kind fir = inr refl

prepare-Passes :
    (now : ℕ) (r : Request) (s : Feedback) → Passes now r s (bypass_of now r s) (prepare now r s)
unfolding prepare
prepare-Passes now r s = elim (prepare_kind r.kind) [
  | inl k ↦ (let a = pass_pli now r (prepared_of r s) s refl k in ground arith)
  | inr k ↦ (let a = pass_fir now r (prepared_of r s) (numbered r s) refl k in ground arith)
]

-- The times after an event, by what it sends.
unfoldable Follows : Option ℕ → Option ℕ → Option Sent → Option ℕ → Option ℕ → Type 0
Follows last last_fir none next next_fir = (next ≡ last) × (next_fir ≡ last_fir)
Follows last last_fir (some x) next next_fir =
    (may_send last last_fir x ≡ true) × (next ≡ some x.at) × (next_fir ≡ fir_after last_fir x)

Follows-IsPaced :
    (last last_fir : Option ℕ) (x : Option Sent) (next next_fir : Option ℕ) (xs : List Sent)
    → Follows last last_fir x next next_fir
    → IsPaced next next_fir xs
    → IsPaced last last_fir (cons_option x xs)
unfolding Follows IsPaced
Follows-IsPaced last last_fir none next next_fir xs (p, q) h = subst₂ (λ a b. IsPaced a b xs) p q h
Follows-IsPaced last last_fir (some x) next next_fir xs (m, p, q) h =
    (m, subst₂ (λ a b. IsPaced a b xs) p q h)

step-Follows :
    (e : Event) (s : Feedback)
    → Follows s.last_sip_pli s.last_sip_fir
        (sent_by e s)
        (step e s).last_sip_pli
        (step e s).last_sip_fir
unfolding step Follows decide_request note_marker
step-Follows (prepares now r) s = let t = prepare-Passes now r s in ground arith
step-Follows (decides now r) s = ground arith
step-Follows (forwards marker) s = ground arith
step-Follows _ s = (refl, refl)

-- In any history, from any state, a FIR goes out a second or more after the last one, and a PLI at least 300 ms
-- after the last request of either kind, unless it has a bypass.
pub sent-IsPaced :
    (es : List Event) (s : Feedback) → IsPaced s.last_sip_pli s.last_sip_fir (sent es s)
unfolding sent IsPaced
sent-IsPaced [] s = refl
sent-IsPaced (e ∷ es) s =
    Follows-IsPaced s.last_sip_pli s.last_sip_fir (sent_by e s) (step e s).last_sip_pli
      (step e s).last_sip_fir (sent es (step e s)) (step-Follows e s) (sent-IsPaced es (step e s))
