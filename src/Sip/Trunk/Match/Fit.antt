-- ===== src/Sip/Trunk/Match/Fit.antt =====
-- The candidates of each rule of internal/sip/trunk_invite_match.go are eligible, and so is the trunk chosen
-- by the rules together.
use webrtc_gateway.Base.{
  [], ◌∷◌, ℕ, Option, List, Member, All, Bool, keep_if-All, keep_if_pass, ◌≡◌, if◌then◌else◌,
  is_empty, keep_if, ◌||◌, true, ◌&&◌, if_elim, All-map, false,
}
use webrtc_gateway.Sip.Trunk.Match.{
  MatchState, is_eligible, apply_ownership, ruri_domain_port_fallback, Rule,
  to_domain_port_fallback, first_result, select_single,
}
use webrtc_gateway.Sip.Trunk.Match.Origins.{Origin, select_by_origin}
use webrtc_gateway.Text.{Text, trim_space}
use webrtc_gateway.Sip.Trunk.{Trunk}
use webrtc_gateway.Sip.Trunk.Match.Invite.{
  choose, by_rules, by_to, by_request_uri, by_origin, by_fallback,
}
use webrtc_gateway.Sip.Trunk.Match.Rules.{
  filter_eligible, eligible_by_username_and_domain_port, by_user_domain_port, by_user_domain,
  eligible_by_username, by_domain_port, has_domain,
}
use webrtc_gateway.Sip.Trunk.Match.Rules.{Named, has_user, has_port}
use webrtc_gateway.Sip.Trunk.Match.Sound.{
  Sound, SoundIfAny, or_no_match-Sound, pick_by_to-Sound, pick_by_uri-Sound, select_by_origin-Sound,
  select_single-Sound, pick_settled-Sound, first_result-Sound, &&-left,
}

-- What the chosen trunk is to be: one of a list, and eligible.
abbrev pub Fit : MatchState → ℕ → List Trunk → Trunk → Type 0
Fit st now ts t = Member t ts × (is_eligible st now t ≡ true)

module _ (ip : Text → Option Text) (st : MatchState) (now : ℕ) (ts : List Trunk) where
  All-Fit :
      (us : List Trunk)
      → All (λ t. Member t ts) us
      → All (λ t. is_eligible st now t ≡ true) us
      → All (Fit st now ts) us
  All-Fit [] m e = tt
  All-Fit (u ∷ us) m e = ((m.0, e.0), All-Fit us m.1 e.1)

  filter_eligible-Fit :
      (us : List Trunk)
      → All (λ t. Member t ts) us
      → All (Fit st now ts) (filter_eligible ip st now us)
  unfolding filter_eligible
  filter_eligible-Fit us m =
      All-Fit _ (keep_if-All _ (is_eligible st now) us m) (keep_if_pass (is_eligible st now) us)

  module _ (known : All (λ t. Member t ts) st.trunks) where
    guarded-Member :
        (b : Bool) (p : Trunk → Bool)
        → All (λ t. Member t ts) (if b then [] else keep_if p st.trunks)
    guarded-Member true p = tt
    guarded-Member false p = keep_if-All (λ t. Member t ts) p st.trunks known

    by_user_domain_port-Fit :
        (n : Named) → All (Fit st now ts) (filter_eligible ip st now (by_user_domain_port ip st n))
    unfolding by_user_domain_port
    by_user_domain_port-Fit n = filter_eligible-Fit (by_user_domain_port ip st n) (
        guarded-Member (is_empty n.named_host || is_empty n.named_user) (λ t.
          has_domain ip st n.named_host t && has_port n.named_port t && has_user n.named_user t))

    by_user_domain-Fit :
        (n : Named) → All (Fit st now ts) (filter_eligible ip st now (by_user_domain ip st n))
    unfolding by_user_domain
    by_user_domain-Fit n = filter_eligible-Fit (by_user_domain ip st n) (
        guarded-Member (is_empty n.named_host || is_empty n.named_user)
          (λ t. has_domain ip st n.named_host t && has_user n.named_user t))

    by_domain_port-Fit :
        (n : Named) → All (Fit st now ts) (filter_eligible ip st now (by_domain_port ip st n))
    unfolding by_domain_port
    by_domain_port-Fit n = filter_eligible-Fit (by_domain_port ip st n) (
        guarded-Member (is_empty n.named_host)
          (λ t. has_domain ip st n.named_host t && has_port n.named_port t))

    guarded-Fit :
        (b c : Bool) (p : Trunk → Bool) (us : List Trunk)
        → All (Fit st now ts) us
        → All (Fit st now ts) (if b then [] else if c then us else keep_if p us)
    guarded-Fit true c p us h = tt
    guarded-Fit false true p us h = h
    guarded-Fit false false p us h = keep_if-All (Fit st now ts) p us h

    fallback-Fit :
        (user : Text) (n : Named)
        → All (Fit st now ts) (eligible_by_username_and_domain_port ip st now user n)
    unfolding eligible_by_username_and_domain_port
    fallback-Fit user n =
        guarded-Fit (is_empty n.named_host) (is_empty (trim_space user))
          (has_user (trim_space user)) _ (by_domain_port-Fit n)

    eligible_if :
        (b : Bool) (user : Text)
        → All
            (Fit st now ts)
            (if b then [] else keep_if (λ t. is_eligible st now t && has_user user t) st.trunks)
    eligible_if true user = tt
    eligible_if false user =
        All-Fit _
          (keep_if-All (λ t. Member t ts) (λ t. is_eligible st now t && has_user user t) st.trunks
            known)
          (All-map (λ t. (is_eligible st now t && has_user user t) ≡ true)
            (λ t. is_eligible st now t ≡ true) _
            (λ t e. &&-left (is_eligible st now t) (has_user user t) e)
            (keep_if_pass (λ t. is_eligible st now t && has_user user t) st.trunks))

    username-Fit : (user : Text) → All (Fit st now ts) (eligible_by_username ip st now user)
    unfolding eligible_by_username
    username-Fit user = eligible_if (is_empty (trim_space user)) (trim_space user)

    choose-Sound :
        (us : List Trunk) (rule : Rule)
        → All (Fit st now ts) us
        → Sound (Fit st now ts) (choose ip st now us rule)
    unfolding choose apply_ownership
    choose-Sound us rule h =
        let s = select_single-Sound (Fit st now ts) ip us rule h in
        if_elim (Sound (Fit st now ts)) (select_single ip us rule).ambiguous s s

    origin-Sound :
        (user : Text) (os : List Origin)
        → Sound (Fit st now ts) (select_by_origin ip st (eligible_by_username ip st now user) os)
    origin-Sound user os = select_by_origin-Sound (Fit st now ts) ip st _ os (username-Fit user)

    by_request_uri-Sound :
        (n : Named) (user : Text) (os : List Origin)
        → SoundIfAny (Fit st now ts) (by_request_uri ip st now n user os)
    unfolding by_request_uri
    by_request_uri-Sound n user os =
        pick_by_uri-Sound (Fit st now ts) _ _ _ _ (choose-Sound _ _ (by_user_domain_port-Fit n))
          (choose-Sound _ _ (by_user_domain-Fit n)) (origin-Sound user os)

    by_to-Sound : (n : Named) → SoundIfAny (Fit st now ts) (by_to ip st now n)
    unfolding by_to
    by_to-Sound n =
        pick_by_to-Sound (Fit st now ts) _ _ _ (choose-Sound _ _ (by_user_domain_port-Fit n))
          (choose-Sound _ _ (by_user_domain-Fit n))

    by_fallback-Sound :
        (n : Named) (user : Text) (rule : Rule)
        → SoundIfAny (Fit st now ts) (by_fallback ip st now n user rule)
    unfolding by_fallback
    by_fallback-Sound n user rule =
        pick_settled-Sound (Fit st now ts) _ _ (choose-Sound _ rule (fallback-Fit user n))

    by_origin-Sound :
        (user : Text) (os : List Origin) → Sound (Fit st now ts) (by_origin ip st now user os)
    unfolding by_origin
    by_origin-Sound user os = or_no_match-Sound (Fit st now ts) _ _ (origin-Sound user os)

    pub by_rules-Sound :
        (ruri to : Named) (user : Text) (os : List Origin)
        → Sound (Fit st now ts) (by_rules ip st now ruri to user os)
    unfolding by_rules
    by_rules-Sound ruri to user os =
        let F = Fit st now ts in
        let r1 = by_request_uri ip st now ruri user os in
        let r2 = by_to ip st now to in
        let r3 = by_fallback ip st now ruri user ruri_domain_port_fallback in
        let r4 = by_fallback ip st now to user to_domain_port_fallback in
        let r5 = by_origin ip st now user os in
        first_result-Sound F r1 (first_result r2 (first_result r3 (first_result r4 r5)))
          (by_request_uri-Sound ruri user os)
          (first_result-Sound F r2 (first_result r3 (first_result r4 r5)) (by_to-Sound to) (
            first_result-Sound F r3 (first_result r4 r5) (by_fallback-Sound ruri user _)
              (first_result-Sound F r4 r5 (by_fallback-Sound to user _) (by_origin-Sound user os))))
