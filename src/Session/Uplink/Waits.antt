-- ===== src/Session/Uplink/Waits.antt =====
-- What the gate of the keyframe requests to the browser promises (internal/session/uplink_keyframe_gate.go).
use webrtc_gateway.Base.{
  ℕ, List, Bool, ◌&&◌, ◌≡◌, Option, ◌∷◌, [], true, false, All, arith, some, ◌≤◌, is_within, ◌<◌,
  ◌+◌, ◌⊎◌, Bool-cases, inl, inr, subst, sym,
}
use webrtc_gateway.Session.Uplink.{
  observe_forward, decide_uplink, decide_session, Uplink, note_progress, is_switch_kind,
  is_remote_join_kind, is_sip_kind, flying, startup_fresh, fresh,
}
use webrtc_gateway.Text.{Text}
use webrtc_gateway.Session.Recovery.{is_after}

-- A packet that is forwarded to SIP.
pub record Forwarded : Type 0 where
  pub at : ℕ
  pub timestamp : ℕ
  pub is_idr : Bool
  pub marker : Bool

unfoldable pub forward : List Forwarded → Uplink → Uplink
forward [] u = u
forward (p ∷ ps) u = forward ps (observe_forward p.at p.timestamp p.is_idr p.marker u)

abbrev pub ends_idr : Forwarded → Bool
ends_idr p = p.is_idr && p.marker

stays_in_flight :
    (p : Forwarded) (u : Uplink)
    → u.in_flight ≡ true
    → ends_idr p ≡ false
    → (observe_forward p.at p.timestamp p.is_idr p.marker u).in_flight ≡ true
unfolding observe_forward note_progress
stays_in_flight p u f e = ground arith

forward_in_flight :
    (ps : List Forwarded) (u : Uplink)
    → u.in_flight ≡ true
    → All (λ p. ends_idr p ≡ false) ps
    → (forward ps u).in_flight ≡ true
unfolding forward
forward_in_flight [] u f h = f
forward_in_flight (p ∷ ps) u f h =
    forward_in_flight ps (observe_forward p.at p.timestamp p.is_idr p.marker u)
      (stays_in_flight p u f h.0) h.1

refused_in_flight :
    (kind : Text) (complete last_request : Option ℕ) (now : ℕ)
    → is_switch_kind kind ≡ false
    → decide_uplink kind true complete last_request now ≡ some flying
unfolding decide_uplink
refused_in_flight kind complete last_request now s = ground arith

fresh_join :
    (kind : Text) (complete last_request : Option ℕ) (now : ℕ)
    → is_switch_kind kind ≡ false
    → is_sip_kind kind ≡ false
    → is_within complete now startup_fresh ≡ true
    → decide_uplink kind false complete last_request now ≡ some fresh
unfolding decide_uplink
fresh_join kind complete last_request now s n w = ground arith

completes :
    (now ts : ℕ) (u : Uplink)
    → is_after now u.last_keyframe ≡ true
    → ((observe_forward now ts true true u).in_flight ≡ false)
      × ((observe_forward now ts true true u).complete_at ≡ some now)
unfolding observe_forward note_progress
completes now ts u h = ground arith

-- While an IDR is on its way to SIP, a request that neither a switch nor the first sight of the far end makes is
-- refused: this lasts until an IDR packet with a marker, whatever else is forwarded. That packet ends it, and where
-- it is newer than every keyframe before it, such a request is refused for 1.5 s more, unless it is one of SIP.
pub requests_wait :
    (ps : List Forwarded) (u : Uplink) (kind : Text) (now : ℕ) (ts end later : ℕ)
    → u.in_flight ≡ true
    → All (λ p. ends_idr p ≡ false) ps
    → is_switch_kind kind ≡ false
    → is_remote_join_kind kind ≡ false
    → is_after end (forward ps u).last_keyframe ≡ true
    → end ≤ later
    → later < end + startup_fresh
    → (decide_session kind now (forward ps u) ≡ some flying)
      × ((observe_forward end ts true true (forward ps u)).in_flight ≡ false)
      × ((is_sip_kind kind ≡ true)
          ⊎ (decide_session kind later (observe_forward end ts true true (forward ps u))
              ≡ some fresh))
unfolding decide_session
requests_wait ps u kind now ts end later f h s j n a b =
    let v = forward ps u in
    let i = forward_in_flight ps u f h in
    let r = refused_in_flight kind v.complete_at v.last_request now s in
    let (c, d) = completes end ts v n in
    let w = observe_forward end ts true true v in
    let t = fresh_join kind w.complete_at w.last_request later s in
    elim (Bool-cases (is_sip_kind kind)) [
      | inl k ↦ (ground arith, c, inl k)
      | inr k ↦ (
        ground arith,
        c,
        inr (
            let q =
              t k (subst (λ x. is_within x later startup_fresh ≡ true) (sym d) (ground arith)) in
            ground arith),
      )
    ]
