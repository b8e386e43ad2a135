-- ===== src/Sip/Trunk/Match/Eligible.antt =====
-- What a match of internal/sip/trunk_invite_match.go promises.
use webrtc_gateway.Base.{
  some, Option, ℕ, List, ◌≡◌, Member, ap, true, sym, false, subst, All-Member, arith,
}
use webrtc_gateway.Sip.Trunk.Match.{is_eligible, snapshot, owned_by}
use webrtc_gateway.Sip.Trunk.Match.Origins.{Request, extract_origins}
use webrtc_gateway.Sip.Trunk.Match.Invite.{match_invite, match_in_state, finalize}
use webrtc_gateway.Sip.Trunk.Match.Rules.{name_uri, name_to}
use webrtc_gateway.Sip.Trunk.Match.Rules.{sip_user_of}
use webrtc_gateway.Text.{Text}
use webrtc_gateway.Sip.Trunk.Registrar.{Manager}
use webrtc_gateway.Sip.Trunk.{Trunk, is_current}
use webrtc_gateway.Sip.Trunk.Order.{Shuffle, sort_by_id-Shuffle, sort_by_id-All}
use webrtc_gateway.Sip.Trunk.Match.Sound.{Sound, Chosen}
use webrtc_gateway.Sip.Trunk.Match.Fit.{Fit, by_rules-Sound}

module _ (ip : Text → Option Text) (now : ℕ) (req : Request) (m : Manager) where
  match_invite-Sound : Sound (Fit (snapshot m) now m.trunks) (match_invite ip now req m)
  unfolding match_invite match_in_state finalize snapshot
  match_invite-Sound =
      let ruri = name_uri ip (snapshot m) req.recipient in
      let to = name_to ip (snapshot m) req.to in
      by_rules-Sound ip (snapshot m) now m.trunks
        (sort_by_id-All (λ t. Member t m.trunks) m.trunks (All-Member m.trunks)) ruri to
        (sip_user_of ruri to) (extract_origins ip req)

  match_invite_owned :
      {t : Trunk}
      → (match_invite ip now req m).trunk ≡ some t
      → (match_invite ip now req m).owned ≡ m.owned_leases t.id
  unfolding match_invite match_in_state finalize snapshot owned_by
  match_invite_owned e = rw e

-- Whatever the INVITE says and wherever it comes from, the trunk that is chosen for it is one of the
-- manager's, enabled, owned by this gateway and registered at that time; the result says that it is
-- owned, and is not ambiguous.
pub match_invite_eligible :
    (ip : Text → Option Text) (now : ℕ) (req : Request) (m : Manager) {t : Trunk}
    → (match_invite ip now req m).trunk ≡ some t
    → Member t m.trunks
      × (t.enabled ≡ true)
      × (m.owned_leases t.id ≡ true)
      × (is_current now (m.identities t.id) ≡ true)
      × ((match_invite ip now req m).owned ≡ true)
      × ((match_invite ip now req m).ambiguous ≡ false)
unfolding is_eligible snapshot
match_invite_eligible ip now req m {t} e =
    let r = match_invite ip now req m in
    let s : Chosen (Fit (snapshot m) now m.trunks) (some t) r.ambiguous =
      subst (λ o. Chosen (Fit (snapshot m) now m.trunks) o r.ambiguous) e
        (match_invite-Sound ip now req m) in
    let o = match_invite_owned ip now req m e in
    (s.0.0, ground arith, ground arith, ground arith, ground arith, s.1)

-- The manager keeps its trunks in a map, which gives them in any order: the result is the same.
pub match_invite-Shuffle :
    (ip : Text → Option Text) (now : ℕ) (req : Request) (m : Manager) {ts : List Trunk}
    → Shuffle m.trunks ts
    → match_invite ip now req (record m { trunks = ts }) ≡ match_invite ip now req m
unfolding match_invite snapshot
match_invite-Shuffle ip now req m {ts} s =
    ap (λ us. match_in_state ip (record (snapshot m) { trunks = us }) now req)
      (sym (sort_by_id-Shuffle s))
