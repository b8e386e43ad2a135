-- ===== src/Session/Feedback/Bypassing.antt =====
-- The one-time bypass of a switch (internal/session/switch_feedback.go): a PLI that is sent although the last request is too
-- recent.
use webrtc_gateway.Base.{
  ℕ, Bool, true, false, not, ◌&&◌, ◌+◌, ◌≤◌, ◌≡◌, arith, refl, List, [], ◌∷◌, Bool-cases, inl, inr,
  ap, subst, sym,
}
use webrtc_gateway.Session.Recovery.Bypass.{step-Paid as recovery-Paid}
use webrtc_gateway.Text.{codes, text_eq, text_eq→eq}
use webrtc_gateway.Session.Feedback.{Feedback, Request, is_fir, pli, fir}
use webrtc_gateway.Session.Feedback.Requests.{
  prepare, pli_bypass, pli_throttled, pass_limits, aim, Prepared, decide_request, note_marker,
  prepared_of, numbered,
}
use webrtc_gateway.Session.Feedback.Events.{
  Event, step, prepares, recovery_does, recovers, run, decides, forwards, resets_media,
}
use webrtc_gateway.Session.Recovery.Events.{once, is_start, reset_recovery}
use webrtc_gateway.Session.Feedback.Spacing.{prepare_kind}

-- Whether an event sends a PLI for a switch within the interval that others keep.
abbrev pub hurries : Event → Feedback → Bool
hurries (prepares now r) s =
    (prepare now r s).1.ready
    && not (is_fir r.kind)
    && text_eq r.trigger (codes "switch")
    && pli_throttled now r.force s
hurries _ s = false

-- Whether an event gives a bypass: the start of a recovery, or other code that sets one.
abbrev pub gives : Event → Feedback → Bool
gives (recovery_does e) s = is_start e s.recovery
gives (recovers r) s = r.one_shot_pli
gives _ s = false

unfoldable pub times : (Event → Feedback → Bool) → List Event → Feedback → ℕ
times test [] s = 0
times test (e ∷ es) s = once (test e s) + times test es (step e s)

abbrev Paid : Event → Feedback → Type 0
Paid e s =
    once (hurries e s) + once (step e s).recovery.one_shot_pli
    ≤ once (gives e s) + once s.recovery.one_shot_pli

aim-recovery :
    (now : ℕ) (r : Request) (p : Prepared) (s : Feedback) → (aim now r p s).0.recovery ≡ s.recovery
unfolding aim
aim-recovery now r p s = ground arith

not_watchdog :
    (r : Request)
    → text_eq r.trigger (codes "switch") ≡ true
    → text_eq r.trigger (codes "watchdog-fir") ≡ false
unfolding text_eq
not_watchdog r e =
    subst (λ t. text_eq t (codes "watchdog-fir") ≡ false)
      (sym (text_eq→eq r.trigger (codes "switch") e)) refl

-- A bypass of a switch is the one that is left, and uses it up.
bypass_spent :
    (now : ℕ) (r : Request) (s : Feedback)
    → once ((pli_bypass now r s).1 && text_eq r.trigger (codes "switch"))
        + once (pli_bypass now r s).0.recovery.one_shot_pli
      ≤ once s.recovery.one_shot_pli
unfolding pli_bypass
bypass_spent now r s = elim (Bool-cases (text_eq r.trigger (codes "switch"))) [
  | inl t ↦ (let w = not_watchdog r t in ground arith)
  | inr n ↦ ground arith
]

pli_bypass-throttled :
    (now : ℕ) (force : Bool) (r : Request) (s : Feedback)
    → pli_throttled now force (pli_bypass now r s).0 ≡ pli_throttled now force s
unfolding pli_bypass pli_throttled
pli_bypass-throttled now force r s = ground arith

abbrev HurriedBy : ℕ → Request → Feedback → Feedback × Prepared → Type 0
HurriedBy now r s x =
    once (
        x.1.ready
        && not (is_fir r.kind)
        && text_eq r.trigger (codes "switch")
        && pli_throttled now r.force s)
      + once x.0.recovery.one_shot_pli
    ≤ once s.recovery.one_shot_pli

module _ (now : ℕ) (r : Request) (p : Prepared) (s : Feedback) (h : p.ready ≡ false) where
  pass_pli : r.kind ≡ pli → HurriedBy now r s (pass_limits now r p s)
  unfolding pass_limits
  pass_pli k =
      let left = (pli_bypass now r s).0 in
      let a = ap (λ x. x.one_shot_pli) (aim-recovery now r p left) in
      let b = bypass_spent now r s in let c = pli_bypass-throttled now r.force r s in ground arith

  pass_fir : r.kind ≡ fir → HurriedBy now r s (pass_limits now r p s)
  unfolding pass_limits
  pass_fir k = let a = ap (λ x. x.one_shot_pli) (aim-recovery now r p s) in ground arith

prepare-HurriedBy : (now : ℕ) (r : Request) (s : Feedback) → HurriedBy now r s (prepare now r s)
unfolding prepare
prepare-HurriedBy now r s = elim (prepare_kind r.kind) [
  | inl k ↦ (let a = pass_pli now r (prepared_of r s) s refl k in ground arith)
  | inr k ↦ (let a = pass_fir now r (prepared_of r s) (numbered r s) refl k in ground arith)
]

step-Paid : (e : Event) (s : Feedback) → Paid e s
unfolding step decide_request note_marker reset_recovery
step-Paid (prepares now r) s = omega (arith, prepare-HurriedBy now r s)
step-Paid (recovery_does e) s = omega (arith, recovery-Paid e s.recovery)
step-Paid (decides now r) s = ground arith
step-Paid (forwards marker) s = ground arith
step-Paid (recovers r) s = omega arith
step-Paid resets_media s = ground arith
step-Paid _ s = omega arith

-- In any history the PLIs for a switch that are sent within the interval that other requests keep are at most as many
-- as the starts of a recovery, the bypasses that other code sets, and the one that was left before: each of them
-- uses up a bypass.
pub hurried_once :
    (es : List Event) (s : Feedback)
    → times hurries es s + once (run es s).recovery.one_shot_pli
      ≤ times gives es s + once s.recovery.one_shot_pli
unfolding times run
hurried_once [] s = omega arith
hurried_once (e ∷ es) s = omega (arith, step-Paid e s, hurried_once es (step e s))
