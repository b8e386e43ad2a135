-- ===== src/Sip/Trunk/Order.antt =====
-- sort.Slice by the ID of a trunk, as internal/sip/trunk_invite_match.go sorts what it took out of a map.
-- The IDs there are the keys of the map, so that each sort has one result.
use webrtc_gateway.Base.{
  [], ◌∷◌, List, All, ◌≡◌, ◌≢◌, if◌then◌else◌, arith, ap, if_elim, ltb, ◌∙◌, refl,
}
use webrtc_gateway.Sip.Trunk.{Trunk}

unfoldable pub put_by_id : Trunk → List Trunk → List Trunk
put_by_id t [] = t ∷ []
put_by_id t (u ∷ us) = if ltb t.id u.id then t ∷ u ∷ us else u ∷ put_by_id t us

unfoldable pub sort_by_id : List Trunk → List Trunk
sort_by_id [] = []
sort_by_id (t ∷ ts) = put_by_id t (sort_by_id ts)

-- The same trunks in another order, where trunks that change places have different IDs.
pub data Shuffle : List Trunk → List Trunk → Type 0 where
  same : (ts : List Trunk) → Shuffle ts ts
  under : (t : Trunk) {ts us : List Trunk} → Shuffle ts us → Shuffle (t ∷ ts) (t ∷ us)
  swap : (t u : Trunk) (ts : List Trunk) → t.id ≢ u.id → Shuffle (t ∷ u ∷ ts) (u ∷ t ∷ ts)
  then_by : {ts us vs : List Trunk} → Shuffle ts us → Shuffle us vs → Shuffle ts vs

put_by_id_comm :
    (t u : Trunk) (ts : List Trunk)
    → t.id ≢ u.id
    → put_by_id t (put_by_id u ts) ≡ put_by_id u (put_by_id t ts)
unfolding put_by_id
put_by_id_comm t u [] n = ground arith
put_by_id_comm t u (v ∷ vs) n = ground (arith, put_by_id_comm t u vs n)

-- The order in which a map gives its trunks does not matter.
pub sort_by_id-Shuffle : {ts us : List Trunk} → Shuffle ts us → sort_by_id ts ≡ sort_by_id us
unfolding sort_by_id
sort_by_id-Shuffle (same ts) = refl
sort_by_id-Shuffle (under t s) = ap (put_by_id t) (sort_by_id-Shuffle s)
sort_by_id-Shuffle (swap t u ts n) = put_by_id_comm t u (sort_by_id ts) n
sort_by_id-Shuffle (then_by s r) = sort_by_id-Shuffle s ∙ sort_by_id-Shuffle r

module _ {ℓ} (P : Trunk → Type ℓ) where
  put_by_id-All : (t : Trunk) (ts : List Trunk) → P t → All P ts → All P (put_by_id t ts)
  unfolding put_by_id
  put_by_id-All t [] p h = (p, tt)
  put_by_id-All t (u ∷ us) p h =
      if_elim (All P) (ltb t.id u.id) (p, h) (h.0, put_by_id-All t us p h.1)

  pub sort_by_id-All : (ts : List Trunk) → All P ts → All P (sort_by_id ts)
  unfolding sort_by_id
  sort_by_id-All [] h = tt
  sort_by_id-All (t ∷ ts) h = put_by_id-All t (sort_by_id ts) h.0 (sort_by_id-All ts h.1)
