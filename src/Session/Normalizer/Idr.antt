-- ===== src/Session/Normalizer/Idr.antt =====
-- An IDR that internal/session/h264_access_unit_normalizer.go hands out as ready can be decoded on its own: its SPS
-- and PPS are among its packets.
use webrtc_gateway.Base.{
  ℕ, arith, Bool, true, false, [], ◌∷◌, refl, none, some, List, ◌≡◌, is_empty, not, if◌then◌else◌,
  ◌||◌, ◌&&◌, if_cases, if_elim, ◌∙◌, Option, Bool-cases, inl, inr, ltb, subst, sym,
}
use webrtc_gateway.Session.Rtp.{Packet, AccessUnit}
use webrtc_gateway.Session.Normalizer.Assemble.{finish}
use webrtc_gateway.Session.Normalizer.Nal.{
  prefix_sets, inspect_access_unit, is_single, nothing, when, set_packet, strip_sets,
  inspect_payload, update_cached,
}
use webrtc_gateway.Session.Normalizer.Decodable.{
  Within, strip_sets-idr, inspect_access_unit-Within, inspect_payload-Within,
  inspect_access_unit_mono, nothing-Within, inspect-sps, inspect-pps,
}
use webrtc_gateway.Session.Normalizer.Caches.{IsCached, update_cached-IsCached}
use webrtc_gateway.Session.Normalizer.{Normalizer}

-- Parameter sets and an IDR, as inspectAccessUnit finds them.
unfoldable pub HasAll : List Packet → Type 0
HasAll ps =
    let f = inspect_access_unit ps nothing in (f.sps ≡ true) × (f.pps ≡ true) × (f.idr ≡ true)

-- The packets that are put in front, and what follows them.
when-found :
    (a b : Bool) (p : Packet) (sps pps : List ℕ) (rest : List Packet)
    → is_single sps 7 ≡ true
    → is_single pps 8 ≡ true
    → let f =
        inspect_access_unit (when a (set_packet p sps) (when b (set_packet p pps) rest)) nothing in
      Within (inspect_access_unit rest nothing) f
      × (a ≡ true → f.sps ≡ true)
      × (b ≡ true → f.pps ≡ true)
unfolding inspect_access_unit
when-found true true p sps pps rest s t =
    let f = inspect_payload sps nothing in
    let g = inspect_payload pps f in
    let w = inspect_access_unit-Within rest g in
    let v = inspect_payload-Within pps f in
    (
      inspect_access_unit_mono rest nothing g (nothing-Within g),
      λ _. w.sps_in (v.sps_in (inspect-sps sps nothing s)),
      λ _. w.pps_in (inspect-pps pps f t),
    )
when-found true false p sps pps rest s t =
    let f = inspect_payload sps nothing in
    let w = inspect_access_unit-Within rest f in
    (
      inspect_access_unit_mono rest nothing f (nothing-Within f),
      λ _. w.sps_in (inspect-sps sps nothing s),
      λ e. ground arith,
    )
when-found false true p sps pps rest s t =
    let f = inspect_payload pps nothing in
    let w = inspect_access_unit-Within rest f in
    (
      inspect_access_unit_mono rest nothing f (nothing-Within f),
      λ e. ground arith,
      λ _. w.pps_in (inspect-pps pps nothing t),
    )
when-found false false p sps pps rest s t = (
  inspect_access_unit_mono rest nothing nothing (nothing-Within nothing),
  λ e. ground arith,
  λ e. ground arith,
)

single-filled : (xs : List ℕ) (t : ℕ) → is_single xs t ≡ true → is_empty xs ≡ false
unfolding is_single
single-filled [] t e = ground arith
single-filled (x ∷ xs) t e = refl

-- Without force the packets are all there, and the IDR is in any case.
rest-found :
    (force : Bool) (ps : List Packet)
    → (inspect_access_unit ps nothing).idr ≡ true
    → let rest = if force && not (is_empty (strip_sets ps)) then strip_sets ps else ps in
      (force ≡ false → rest ≡ ps) × ((inspect_access_unit rest nothing).idr ≡ true)
rest-found force ps i = (
  λ e.
      if_cases (λ (x : List Packet). x ≡ ps) (force && not (is_empty (strip_sets ps)))
        (λ h. ground arith) (λ _. refl),
  if_elim (λ (x : List Packet). (inspect_access_unit x nothing).idr ≡ true)
      (force && not (is_empty (strip_sets ps))) (strip_sets-idr ps nothing nothing refl ∙ i) i,
)

prefix_sets-HasAll :
    (ps : List Packet) (sps pps : List ℕ) (force : Bool)
    → is_single sps 7 ≡ true
    → is_single pps 8 ≡ true
    → (inspect_access_unit ps nothing).idr ≡ true
    → HasAll (prefix_sets ps sps pps (inspect_access_unit ps nothing) force).0
unfolding HasAll prefix_sets inspect_access_unit
prefix_sets-HasAll [] sps pps force s t i = ground arith
prefix_sets-HasAll (p ∷ ps) sps pps force s t i =
    let f = inspect_access_unit (p ∷ ps) nothing in
    let need_sps = (not f.sps || force) && not (is_empty sps) in
    let need_pps = (not f.pps || force) && not (is_empty pps) in
    let stripped = strip_sets (p ∷ ps) in
    let rest = if force && not (is_empty stripped) then stripped else p ∷ ps in
    let n = single-filled sps 7 s in
    let m = single-filled pps 8 t in
    let r = rest-found force (p ∷ ps) i in
    let w = when-found need_sps need_pps p sps pps rest s t in
    if_cases (λ (x : List Packet × Bool). HasAll x.0) (not need_sps && not need_pps)
      (λ e. ground arith)
      (λ _.
        let have_sps : need_sps ≡ false → (f.sps ≡ true) × (force ≡ false) = λ e. ground arith in
        let have_pps : need_pps ≡ false → (f.pps ≡ true) × (force ≡ false) = λ e. ground arith in
        (
          elim (Bool-cases need_sps) [
            | inl e ↦ w.1 e
            | inr e ↦
                let (x, y) = have_sps e in
                w.0.sps_in (subst (λ q. (inspect_access_unit q nothing).sps ≡ true) (sym (r.0 y)) x)
          ],
          elim (Bool-cases need_pps) [
            | inl e ↦ w.2 e
            | inr e ↦
                let (x, y) = have_pps e in
                w.0.pps_in (subst (λ q. (inspect_access_unit q nothing).pps ≡ true) (sym (r.0 y)) x)
          ],
          w.0.idr_in r.1,
        ))

unfoldable pub CachesOk : Normalizer → Type 0
CachesOk n = IsCached 7 n.cached_sps × IsCached 8 n.cached_pps

-- An access unit that is marked as an IDR with its parameter sets ready has all three.
unfoldable pub IsDecodable : Option AccessUnit → Type 0
IsDecodable none = Unit
IsDecodable (some au) = au.is_idr ≡ true → au.parameter_sets_ready ≡ true → HasAll au.packets

cached-single :
    (t : ℕ) (nal : List ℕ) → IsCached t nal → is_empty nal ≡ false → is_single nal t ≡ true
unfolding IsCached
cached-single t nal c e = ground arith

pub finish-IsDecodable : (n : Normalizer) → CachesOk n → IsDecodable (some (finish n).1)
unfolding finish IsDecodable CachesOk
finish-IsDecodable n (c, d) i r =
    let f = inspect_access_unit n.packets nothing in
    let sps = update_cached n.cached_sps n.packets 7 in
    let pps = update_cached n.cached_pps n.packets 8 in
    let force =
      ltb 0 n.force_prefix_remaining
      && (not (is_empty sps) && not (is_empty pps))
      && (not f.sps || not f.pps) in
    let s = update_cached-IsCached n.cached_sps n.packets 7 (omega arith) c in
    let t = update_cached-IsCached n.cached_pps n.packets 8 (omega arith) d in
    let a : is_empty sps ≡ false = ground arith in
    let b : is_empty pps ≡ false = ground arith in
    if_cases (λ (x : List Packet × Bool). HasAll x.0) f.idr
      (λ _.
        prefix_sets-HasAll n.packets sps pps force (cached-single 7 sps s a)
          (cached-single 8 pps t b) i)
      (λ e. ground arith)
