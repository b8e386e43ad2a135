-- ===== src/Session/Call/Pending.antt =====
-- One mid-call negotiation at a time: what internal/session/midcall.go and switch_renegotiate.go promise about it.
use webrtc_gateway.Base.{[], ◌∷◌, none, some, ℕ, All, List, Bool, ◌≡◌, true, false, arith, ◌∙◌, ap}
use webrtc_gateway.Session.Call.Events.{
  step, run, Event, completes, fails, ends_by, ends_incoming_by, aborts,
}
use webrtc_gateway.Session.Call.Midcall.{
  abort_handoff, Request, snapshot_of, try_begin, try_claim, complete, fail, release_claim,
  clear_terminal, claim_incoming, apply_validation, arm_handoff, commit_handoff, drop_legacy_audio,
  is_for, settle_pending,
}
use webrtc_gateway.Text.{Text, text_eq, text_eq_refl}
use webrtc_gateway.Session.Call.{
  set_state, Call, set_call_info, Snapshot, begin_telemetry, mark_recorded, enter_state,
  transfer_out, transfer_in,
}
use webrtc_gateway.Session.Call.Progress.{
  take_progress, mark_video_ready, mark_audio_ready, claim_join_kick, claim_rtcp_kick, reset_media,
}

-- Whether an event may end the negotiation with this identifier: its completion, its failure, or a
-- terminal action of the call.
abbrev pub may_end : Text → Event → Bool
may_end i (completes now j) = text_eq i j
may_end i (fails now j) = text_eq i j
may_end i (ends_by now a) = true
may_end i (ends_incoming_by now a) = true
may_end i _ = false

abort-pending : (c : Call) → (abort_handoff c).0.pending ≡ c.pending
unfolding abort_handoff
abort-pending c = ground arith

is_for_pending :
    (r : Snapshot) (i : Text) (c : Call) → c.pending ≡ some r → is_for i c ≡ text_eq r.id i
is_for_pending r i c p = ground arith

module _ (now : ℕ) (i : Text) (c : Call) (other : is_for i c ≡ false) where
  complete_refused : complete now i c ≡ (c, false)
  unfolding complete
  complete_refused = ground arith

  fail_refused : fail now i c ≡ (c, false)
  unfolding fail
  fail_refused = ground arith

module _ (now : ℕ) (i : Text) (c : Call) (ours : is_for i c ≡ true) where
  complete_granted : ((complete now i c).1 ≡ true) × ((complete now i c).0.pending ≡ none)
  unfolding complete settle_pending
  complete_granted = ground arith

module _ (c : Call) (r : Snapshot) (p : c.pending ≡ some r) where
  begin_blocked : (now : ℕ) (q : Request) → (try_begin now q c).1 ≡ false
  unfolding try_begin
  begin_blocked now q = ground arith

  claim_blocked : (g : ℕ) → (try_claim g c).1 ≡ false
  unfolding try_claim
  claim_blocked g = ground arith

begin_granted :
    (now : ℕ) (q : Request) (c : Call)
    → (try_begin now q c).1 ≡ true
    → (try_begin now q c).0.pending ≡ some (snapshot_of now q)
unfolding try_begin
begin_granted now q c h = ground arith

step-pending :
    (r : Snapshot) (e : Event) (c : Call)
    → c.pending ≡ some r
    → may_end r.id e ≡ false
    → (step e c).pending ≡ some r
unfolding step set_state set_call_info begin_telemetry mark_recorded enter_state transfer_out
    transfer_in take_progress mark_video_ready mark_audio_ready claim_join_kick claim_rtcp_kick
    try_begin complete fail try_claim release_claim clear_terminal claim_incoming apply_validation
    arm_handoff commit_handoff drop_legacy_audio reset_media
step-pending r (completes now i) c p e =
    ap (λ (x : Call × Bool). x.0.pending) (complete_refused now i c (is_for_pending r i c p ∙ e))
    ∙ p
step-pending r (fails now i) c p e =
    ap (λ (x : Call × Bool). x.0.pending) (fail_refused now i c (is_for_pending r i c p ∙ e)) ∙ p
step-pending r aborts c p e = abort-pending c ∙ p
step-pending r _ c p e = ground arith

run-pending :
    (r : Snapshot) (es : List Event) (c : Call)
    → c.pending ≡ some r
    → All (λ e. may_end r.id e ≡ false) es
    → (run es c).pending ≡ some r
unfolding run
run-pending r [] c p h = p
run-pending r (e ∷ es) c p h = run-pending r es (step e c) (step-pending r e c p h.0) h.1

-- From its start a negotiation stays pending as it was begun, whatever happens, until it is completed or
-- failed by its own identifier or the call gets a terminal action. So long no other negotiation begins, no
-- switch generation is claimed, and the answer to any other identifier is refused and changes nothing; then its own
-- completion is granted, and after it nothing is pending.
pub pending_stays :
    (now : ℕ) (q : Request) (es : List Event) (c : Call)
    → (try_begin now q c).1 ≡ true
    → All (λ e. may_end (snapshot_of now q).id e ≡ false) es
    → (later : ℕ) (other : Request) (g : ℕ) (i : Text) → text_eq (snapshot_of now q).id i ≡ false
    → ((run es (try_begin now q c).0).pending ≡ some (snapshot_of now q))
      × ((try_begin later other (run es (try_begin now q c).0)).1 ≡ false)
      × ((try_claim g (run es (try_begin now q c).0)).1 ≡ false)
      × (complete later i (run es (try_begin now q c).0) ≡ (run es (try_begin now q c).0, false))
      × (fail later i (run es (try_begin now q c).0) ≡ (run es (try_begin now q c).0, false))
      × ((complete later (snapshot_of now q).id (run es (try_begin now q c).0)).1 ≡ true)
      × ((complete later (snapshot_of now q).id (run es (try_begin now q c).0)).0.pending ≡ none)
pending_stays now q es c b h later other g i n =
    let d = run es (try_begin now q c).0 in
    let r = snapshot_of now q in
    let p = run-pending r es (try_begin now q c).0 (begin_granted now q c b) h in
    let refused = is_for_pending r i d p ∙ n in
    let granted = complete_granted later r.id d (is_for_pending r r.id d p ∙ text_eq_refl r.id) in
    (
      p,
      begin_blocked d r p later other,
      claim_blocked d r p g,
      complete_refused later i d refused,
      fail_refused later i d refused,
      granted.0,
      granted.1,
    )
