-- ===== src/Session/Feedback/Waiting.antt =====
-- A request in the middle of a frame waits for its end (internal/session/sip_rtcp_fb.go).
use webrtc_gateway.Session.Feedback.Requests.{
  prepare, pli_bypass, note_marker, pass_limits, decide_request, aim, decide_feedback, Prepared,
  trigger_of, prepared_of, numbered,
}
use webrtc_gateway.Session.Feedback.Events.{
  Event, step, run, decides, prepares, forwards, resets_media,
}
use webrtc_gateway.Base.{
  List, ℕ, ◌≡◌, Bool, true, arith, false, not, some, ◌∷◌, ◌&&◌, ◌∙◌, none, [], refl,
}
use webrtc_gateway.Session.Feedback.{Feedback, Request}

-- Whether an event leaves the request that waits alone: no other one takes its place, and no frame ends.
abbrev pub is_quiet : Event → Feedback → Bool
is_quiet (decides now r) s = not (decide_feedback now s).pending_rtcp
is_quiet (forwards marker) s = not marker
is_quiet resets_media s = false
is_quiet _ s = true

unfoldable pub are_quiet : List Event → Feedback → Bool
are_quiet [] s = true
are_quiet (e ∷ es) s = is_quiet e s && are_quiet es (step e s)

aim-pending :
    (now : ℕ) (r : Request) (p : Prepared) (s : Feedback) → (aim now r p s).0.pending ≡ s.pending
unfolding aim
aim-pending now r p s = ground arith

pli_bypass-pending :
    (now : ℕ) (r : Request) (s : Feedback) → (pli_bypass now r s).0.pending ≡ s.pending
unfolding pli_bypass
pli_bypass-pending now r s = ground arith

pass_limits-pending :
    (now : ℕ) (r : Request) (p : Prepared) (s : Feedback)
    → (pass_limits now r p s).0.pending ≡ s.pending
unfolding pass_limits
pass_limits-pending now r p s =
    let a = aim-pending now r p (pli_bypass now r s).0 in
    let b = pli_bypass-pending now r s in let c = aim-pending now r p s in ground arith

prepare-pending : (now : ℕ) (r : Request) (s : Feedback) → (prepare now r s).0.pending ≡ s.pending
unfolding prepare
prepare-pending now r s =
    let a = pass_limits-pending now r (prepared_of r s) (numbered r s) in ground arith

step-pending : (e : Event) (s : Feedback) → is_quiet e s ≡ true → (step e s).pending ≡ s.pending
unfolding step decide_request note_marker
step-pending (prepares now r) s h = prepare-pending now r s
step-pending (decides now r) s h = ground arith
step-pending (forwards marker) s h = ground arith
step-pending resets_media s h = absurd (ground arith)
step-pending _ s h = refl

run-pending :
    (es : List Event) (s : Feedback) → are_quiet es s ≡ true → (run es s).pending ≡ s.pending
unfolding run are_quiet
run-pending [] s h = refl
run-pending (e ∷ es) s h =
    run-pending es (step e s) (ground arith) ∙ step-pending e s (ground arith)

decide_request-pending :
    (now : ℕ) (r : Request) (s : Feedback)
    → (decide_request now r s).1.pending_rtcp ≡ true
    → (decide_request now r s).0.pending ≡ some (record r { trigger = trigger_of r })
unfolding decide_request
decide_request-pending now r s h = ground arith

not_mid_frame :
    (now : ℕ) (r : Request) (s : Feedback)
    → (decide_request now r s).1.pending_rtcp ≡ true
    → ((decide_request now r s).1.send_rtcp ≡ false)
      × ((s.packet_seen && not s.last_packet_marker) ≡ true)
unfolding decide_request decide_feedback
not_mid_frame now r s h = ground arith

-- A request that is put off is one in the middle of a frame, and is not sent at once. Whatever happens, so long as the media state is not
-- reset, no frame ends and no other request is put off, the next packet with a marker hands it out as it was, with its
-- trigger and its authority, and a second marker hands out nothing.
pub waits_for_marker :
    (now : ℕ) (r : Request) (es : List Event) (s : Feedback)
    → (decide_request now r s).1.pending_rtcp ≡ true
    → are_quiet es (decide_request now r s).0 ≡ true
    → let (after, handed) = note_marker true (run es (decide_request now r s).0) in
      ((decide_request now r s).1.send_rtcp ≡ false)
      × ((s.packet_seen && not s.last_packet_marker) ≡ true)
      × (handed ≡ some (record r { trigger = trigger_of r }))
      × ((note_marker true after).1 ≡ none)
unfolding note_marker
waits_for_marker now r es s h q =
    let (a, b) = not_mid_frame now r s h in
    (a, b, run-pending es (decide_request now r s).0 q ∙ decide_request-pending now r s h, refl)
