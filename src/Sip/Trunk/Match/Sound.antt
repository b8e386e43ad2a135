-- ===== src/Sip/Trunk/Match/Sound.antt =====
-- A property of all candidates holds of the trunk that is chosen from them, in each step of
-- internal/sip/trunk_invite_match.go.
use webrtc_gateway.Base.{
  [], ◌∷◌, none, some, Bool, Option, ◌&&◌, ◌≡◌, if_elim, false, List, true, refl, All, keep_if-All,
  if◌then◌else◌, subst, is_empty, sym, length, ◌==◌, ltb,
}
use webrtc_gateway.Sip.Trunk.Match.{
  no_rule, Reason, MatchResult, Rule, with_reason, settle, select_single, first_result, MatchState,
  is_settled, is_found, username_only_online,
}
use webrtc_gateway.Sip.Trunk.Match.Origins.{
  all_remain, Narrowed, decided, remains, select_by_origin, after_narrowing, relaxed_for,
  select_relaxed, narrow, select_remaining, select_exact, exact_for, Origin, narrow_by,
  same_provenance, from_source,
}
use webrtc_gateway.Sip.Trunk.{Trunk}
use webrtc_gateway.Sip.Trunk.Match.Invite.{or_no_match, pick_by_uri, pick_by_to, pick_settled}
use webrtc_gateway.Text.{Text}
use webrtc_gateway.Sip.Trunk.Groups.{collapse, collapse-All}

-- A chosen trunk has a property, and a result with a trunk is not ambiguous.
abbrev pub Chosen : (Trunk → Type 0) → Option Trunk → Bool → Type 0
Chosen P none b = Unit
Chosen P (some t) b = P t × (b ≡ false)

abbrev pub Sound : (Trunk → Type 0) → MatchResult → Type 0
Sound P r = Chosen P r.trunk r.ambiguous

abbrev pub SoundIfAny : (Trunk → Type 0) → Option MatchResult → Type 0
SoundIfAny P none = Unit
SoundIfAny P (some r) = Sound P r

module _ (P : Trunk → Type 0) where
  pub with_reason-Sound : (why : Reason) (r : MatchResult) → Sound P r → Sound P (with_reason why r)
  with_reason-Sound why r h = if_elim (Sound P) r.ambiguous h h

  pub first_result-Sound :
      (o : Option MatchResult) (r : MatchResult)
      → SoundIfAny P o
      → Sound P r
      → Sound P (first_result o r)
  first_result-Sound none r h k = k
  first_result-Sound (some q) r h k = h

  SoundNarrowed : Narrowed → Type 0
  SoundNarrowed (decided r) = Sound P r
  SoundNarrowed (remains pool rule) = All P pool
  SoundNarrowed all_remain = Unit

module _ (P : Trunk → Type 0) (ip : Text → Option Text) where
  settle-Sound :
      (ts : List Trunk) (r : MatchResult)
      → r.trunk ≡ none
      → r.ambiguous ≡ false
      → All P ts
      → Sound P (settle ts r)
  unfolding settle
  settle-Sound [] r e a h = subst (λ o. Chosen P o r.ambiguous) (sym e) tt
  settle-Sound (t ∷ []) r e a h = (h.0, a)
  settle-Sound (t ∷ u ∷ ts) r e a h = subst (λ o. Chosen P o true) (sym e) tt

  pub select_single-Sound :
      (ts : List Trunk) (rule : Rule) → All P ts → Sound P (select_single ip ts rule)
  unfolding select_single
  select_single-Sound ts rule h = settle-Sound (collapse ip ts) _ refl refl (collapse-All P ip ts h)

  module _ (st : MatchState) where
    exact_for-All : (o : Origin) (pool : List Trunk) → All P pool → All P (exact_for st o pool)
    unfolding exact_for
    exact_for-All o pool h = keep_if-All P _ pool h

    relaxed_for-All : (o : Origin) (pool : List Trunk) → All P pool → All P (relaxed_for st o pool)
    unfolding relaxed_for
    relaxed_for-All o pool h = keep_if-All P _ pool h

    select_exact-Sound :
        (os : List Origin) (pool : List Trunk)
        → All P pool
        → SoundIfAny P (select_exact ip st os pool)
    unfolding select_exact
    select_exact-Sound [] pool h = tt
    select_exact-Sound (o ∷ os) pool h =
        let more = select_exact-Sound os pool h in
        if_elim (SoundIfAny P) (same_provenance o.provenance from_source) more (
          if_elim (SoundIfAny P) (length (exact_for st o pool) == 1)
            (select_single-Sound _ _ (exact_for-All o pool h)) more)

    select_relaxed-Sound :
        (os : List Origin) (pool : List Trunk)
        → All P pool
        → SoundIfAny P (select_relaxed ip st os pool)
    unfolding select_relaxed
    select_relaxed-Sound [] pool h = tt
    select_relaxed-Sound (o ∷ os) pool h =
        let more = select_relaxed-Sound os pool h in
        if_elim (SoundIfAny P) (same_provenance o.provenance from_source) more (
          if_elim (SoundIfAny P) (length (relaxed_for st o pool) == 1)
            (select_single-Sound _ _ (relaxed_for-All o pool h)) more)

    select_remaining-Sound :
        (os : List Origin) (pool : List Trunk) (last : MatchResult)
        → All P pool
        → Sound P last
        → Sound P (select_remaining ip st os pool last)
    unfolding select_remaining
    select_remaining-Sound os pool last h l =
        first_result-Sound P _ _ (select_exact-Sound os pool h)
          (first_result-Sound P _ _ (select_relaxed-Sound os pool h) l)

    narrow-Sound :
        (os : List Origin) (ts : List Trunk) → All P ts → SoundNarrowed P (narrow ip st os ts)
    unfolding narrow narrow_by SoundNarrowed
    narrow-Sound [] ts h = tt
    narrow-Sound (o ∷ os) ts h =
        let e = exact_for-All o ts h in
        let r = relaxed_for-All o ts h in
        if_elim (SoundNarrowed P) (same_provenance o.provenance from_source)
          (if_elim (SoundNarrowed P) (length (exact_for st o ts) == 1) (select_single-Sound _ _ e) (
            if_elim (SoundNarrowed P) (ltb 1 (length (exact_for st o ts))) e (
              if_elim (SoundNarrowed P) (length (relaxed_for st o ts) == 1)
                (select_single-Sound _ _ r)
                (if_elim (SoundNarrowed P) (ltb 1 (length (relaxed_for st o ts))) r tt))))
          (narrow-Sound os ts h)

    after_narrowing-Sound :
        (n : Narrowed) (ts : List Trunk) (os : List Origin)
        → SoundNarrowed P n
        → All P ts
        → Sound P (after_narrowing ip st n ts os)
    unfolding after_narrowing SoundNarrowed
    after_narrowing-Sound (decided r) ts os n h = n
    after_narrowing-Sound (remains pool rule) ts os n h =
        select_remaining-Sound os pool _ n
          (with_reason-Sound P _ _ (select_single-Sound pool rule n))
    after_narrowing-Sound all_remain ts os n h =
        select_remaining-Sound os ts _ h (with_reason-Sound P _ _ (select_single-Sound ts _ h))

    pub select_by_origin-Sound :
        (ts : List Trunk) (os : List Origin) → All P ts → Sound P (select_by_origin ip st ts os)
    unfolding select_by_origin
    select_by_origin-Sound ts os h =
        let one = select_single-Sound ts username_only_online h in
        if_elim (Sound P) (is_empty ts) tt (
          if_elim (Sound P) (length ts == 1) one (
            if_elim (Sound P) (is_empty os) (with_reason-Sound P _ _ one)
              (after_narrowing-Sound (narrow ip st os ts) ts os (narrow-Sound os ts h) h)))

module _ (P : Trunk → Type 0) where
  pub pick_by_uri-Sound :
      (b : Bool) (p q r : MatchResult)
      → Sound P p
      → Sound P q
      → Sound P r
      → SoundIfAny P (pick_by_uri b p q r)
  unfolding pick_by_uri
  pick_by_uri-Sound b p q r hp hq hr =
      let any = SoundIfAny P in
      if_elim any b {x = none} tt (
        if_elim any (is_settled p) {x = some p} hp (
          if_elim any (is_found q) {x = some q} hq (
            if_elim any q.ambiguous {x = some (if is_settled r then r else q)} {y = none}
              (if_elim (Sound P) (is_settled r) hr hq) tt)))

  pub pick_by_to-Sound :
      (b : Bool) (p q : MatchResult) → Sound P p → Sound P q → SoundIfAny P (pick_by_to b p q)
  unfolding pick_by_to
  pick_by_to-Sound b p q hp hq =
      let any = SoundIfAny P in
      if_elim any b {x = none} tt (
        if_elim any (is_settled p) {x = some p} hp
          (if_elim any (is_found q) {x = some q} {y = none} hq tt))

  pub pick_settled-Sound :
      (b : Bool) (p : MatchResult) → Sound P p → SoundIfAny P (pick_settled b p)
  unfolding pick_settled
  pick_settled-Sound b p hp =
      if_elim (SoundIfAny P) b {x = none} tt
        (if_elim (SoundIfAny P) (is_settled p) {x = some p} {y = none} hp tt)

pub or_no_match-Sound :
    (P : Trunk → Type 0) (rule : Rule) (r : MatchResult) → Sound P r → Sound P (or_no_match rule r)
unfolding or_no_match
or_no_match-Sound P no_rule r h = h
or_no_match-Sound P _ r h = h

pub &&-left : (a b : Bool) → (a && b) ≡ true → a ≡ true
&&-left true b e = refl
&&-left false b e = e
