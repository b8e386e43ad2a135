-- ===== src/Sip/Trunk/Groups.antt =====
-- internal/sip/trunk_invite_match.go, collapseAgentIdentityGroup: of the agent trunks with one SIP identity only
-- the canonical one is a candidate. A group stands in the list in the place of its first trunk; the map
-- of the source gives the groups in any order, and the sort afterwards removes it.
use webrtc_gateway.Base.{
  inl, inr, [], ◌∷◌, none, some, List, All, Option, ◌≡◌, arith, ℕ, Bool, ◌<◌, if_elim, ◌⊎◌, subst,
  if◌then◌else◌, false, inr, leb, ◌++◌, ◌≤◌, All-append, ◌&&◌, ◌||◌, length, not, ltb, keep_if,
  ◌==◌, keep_if-All,
}
use mathlib.Core.Option.{some_inj}
use webrtc_gateway.Sip.Trunk.{Trunk, is_agent_device, is_agent, normalize_host, normalize_port}
use webrtc_gateway.Text.{Text, text_eq, trim_space}
use webrtc_gateway.Sip.Trunk.Order.{sort_by_id, sort_by_id-All}

-- One round of pickIdentityGroupCanonical.
unfoldable pub better_of : Trunk → Trunk → Trunk
better_of chosen trunk =
    let device_chosen = is_agent_device chosen.name in
    let device_trunk = is_agent_device trunk.name in
    if device_trunk && not device_chosen
    then trunk
    else if (if device_trunk then device_chosen else not device_chosen) && ltb trunk.id chosen.id
    then trunk
    else chosen

unfoldable pub canonical_from : Trunk → List Trunk → Trunk
canonical_from chosen [] = chosen
canonical_from chosen (t ∷ ts) = canonical_from (better_of chosen t) ts

-- pickIdentityGroupCanonical; a group is never empty.
unfoldable pub canonical : List Trunk → Option Trunk
canonical [] = none
canonical (t ∷ ts) = some (canonical_from t ts)

unfoldable pub canonicals : List (List Trunk) → List Trunk
canonicals [] = []
canonicals (g ∷ gs) = elim (canonical g) [ none ↦ canonicals gs | some t ↦ t ∷ canonicals gs ]

unfoldable pub grouped : Trunk → Bool
grouped t = is_agent t.name || is_agent_device t.name

module _ (canonical_ip : Text → Option Text) where
  unfoldable pub same_identity : Trunk → Trunk → Bool
  same_identity t u =
      text_eq (trim_space t.username) (trim_space u.username)
      && text_eq (normalize_host canonical_ip t.domain) (normalize_host canonical_ip u.domain)
      && (normalize_port t.port == normalize_port u.port)

  unfoldable pub in_group : Trunk → List Trunk → Bool
  in_group t [] = false
  in_group t (u ∷ us) = same_identity t u

  unfoldable pub add_to_groups : Trunk → List (List Trunk) → List (List Trunk)
  add_to_groups t [] = (t ∷ []) ∷ []
  add_to_groups t (g ∷ gs) = if in_group t g then (g ++ (t ∷ [])) ∷ gs else g ∷ add_to_groups t gs

  unfoldable pub group_all : List Trunk → List (List Trunk) → List (List Trunk)
  group_all [] gs = gs
  group_all (t ∷ ts) gs = group_all ts (if grouped t then add_to_groups t gs else gs)

  -- collapseAgentIdentityGroup
  unfoldable pub collapse : List Trunk → List Trunk
  collapse matches =
      if leb (length matches) 1
      then matches
      else sort_by_id (keep_if (λ t. not (grouped t)) matches ++ canonicals (group_all matches []))

-- A device trunk goes before an agent trunk, and then the lower ID.
abbrev pub rank : Trunk → ℕ
rank t = if is_agent_device t.name then 0 else 1

abbrev pub GoesBefore : Trunk → Trunk → Type 0
GoesBefore c t = (rank c < rank t) ⊎ ((rank c ≡ rank t) × (c.id ≤ t.id))

GoesBefore-trans : (a b c : Trunk) → GoesBefore a b → GoesBefore b c → GoesBefore a c
GoesBefore-trans a b c (inl h) (inl k) = inl (omega arith)
GoesBefore-trans a b c (inl h) (inr k) = inl (omega arith)
GoesBefore-trans a b c (inr h) (inl k) = inl (omega arith)
GoesBefore-trans a b c (inr h) (inr k) = inr (omega arith)

better_of_first : (c t : Trunk) → GoesBefore (better_of c t) c × GoesBefore (better_of c t) t
unfolding better_of
better_of_first c t = ground arith

canonical_from_first :
    (c : Trunk) (ts : List Trunk)
    → GoesBefore (canonical_from c ts) c × All (GoesBefore (canonical_from c ts)) ts
unfolding canonical_from
canonical_from_first c [] = (inr (omega arith), tt)
canonical_from_first c (t ∷ ts) =
    let b = better_of_first c t in
    let h = canonical_from_first (better_of c t) ts in
    (
      GoesBefore-trans (canonical_from (better_of c t) ts) (better_of c t) c h.0 b.0,
      (GoesBefore-trans (canonical_from (better_of c t) ts) (better_of c t) t h.0 b.1, h.1),
    )

-- The canonical trunk of a group goes before every trunk of the group.
pub canonical_first : (g : List Trunk) {t : Trunk} → canonical g ≡ some t → All (GoesBefore t) g
unfolding canonical
canonical_first [] e = ground arith
canonical_first (u ∷ us) {t} e =
    subst (λ v. All (GoesBefore v) (u ∷ us)) (some_inj.0 e) (canonical_from_first u us)

module _ {ℓ} (P : Trunk → Type ℓ) where
  canonical_from-All : (c : Trunk) (ts : List Trunk) → P c → All P ts → P (canonical_from c ts)
  unfolding canonical_from better_of
  canonical_from-All c [] p h = p
  canonical_from-All c (t ∷ ts) p h =
      canonical_from-All (better_of c t) ts (if_elim P _ h.0 (if_elim P _ h.0 p)) h.1

  canonicals-All : (gs : List (List Trunk)) → All (All P) gs → All P (canonicals gs)
  unfolding canonicals canonical
  canonicals-All [] h = tt
  canonicals-All ([] ∷ gs) h = canonicals-All gs h.1
  canonicals-All ((t ∷ ts) ∷ gs) h = (canonical_from-All t ts h.0.0 h.0.1, canonicals-All gs h.1)

  module _ (canonical_ip : Text → Option Text) where
    add_to_groups-All :
        (t : Trunk) (gs : List (List Trunk))
        → P t
        → All (All P) gs
        → All (All P) (add_to_groups canonical_ip t gs)
    unfolding add_to_groups
    add_to_groups-All t [] p h = ((p, tt), tt)
    add_to_groups-All t (g ∷ gs) p h =
        if_elim (All (All P)) (in_group canonical_ip t g) (All-append P g (t ∷ []) h.0 (p, tt), h.1)
          (h.0, add_to_groups-All t gs p h.1)

    group_all-All :
        (ts : List Trunk) (gs : List (List Trunk))
        → All P ts
        → All (All P) gs
        → All (All P) (group_all canonical_ip ts gs)
    unfolding group_all
    group_all-All [] gs h k = k
    group_all-All (t ∷ ts) gs h k =
        group_all-All ts _ h.1 (if_elim (All (All P)) (grouped t) (add_to_groups-All t gs h.0 k) k)

    -- What holds of every match holds of every trunk that is left.
    pub collapse-All :
        (matches : List Trunk) → All P matches → All P (collapse canonical_ip matches)
    unfolding collapse
    collapse-All matches h = if_elim (All P) (leb (length matches) 1) h (
        sort_by_id-All P _ (
          All-append P _ _ (keep_if-All P _ matches h)
            (canonicals-All (group_all canonical_ip matches []) (group_all-All matches [] h tt))))
