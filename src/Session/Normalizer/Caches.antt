-- ===== src/Session/Normalizer/Caches.antt =====
-- The parameter sets that internal/session/h264_access_unit_normalizer.go keeps: each is empty or a single NAL
-- unit of its type, whichever way it came.
use webrtc_gateway.Session.Normalizer.Nal.{
  absent, nal_unit, not_cacheable, Cacheable, first_single, reassemble_fua, fua_loop, is_single,
  first_byte, cacheable_nal, from_stapa, update_cached, stapa_units, starts_fua,
}
use webrtc_gateway.Base.{
  ℕ, arith, true, [], ◌∷◌, ◌++◌, refl, some, List, ◌≡◌, ◌≤◌, ◌<◌, length-append, length, drop, ◌/◌,
  ◌*◌, ◌+◌, inr, ◌⊎◌, inl, if_cases, if_elim, not, Option-cases, is_empty, ◌&&◌, ◌==◌,
}
use webrtc_gateway.Session.Rtp.{Packet}
use webrtc_gateway.Session.Bits.{low5}

is_single-append : (xs ys : List ℕ) (t : ℕ) → is_single xs t ≡ true → is_single (xs ++ ys) t ≡ true
unfolding is_single
is_single-append [] ys t e = cc
is_single-append (x ∷ xs) ys t e = let l = length-append xs ys in ground arith

is_single-header :
    (h t : ℕ) (body : List ℕ)
    → t < 32
    → 1 ≤ length body
    → is_single ((h / 32 * 32 + t) ∷ body) t ≡ true
unfolding is_single
is_single-header h t body l n = ground arith

length-drop2 : (xs : List ℕ) → 3 ≤ length xs → 1 ≤ length (drop 2 xs)
length-drop2 [] l = ground arith
length-drop2 (a ∷ []) l = omega arith
length-drop2 (a ∷ b ∷ xs) l = omega arith

fua_loop-is_single :
    (ps : List Packet) (t top last : ℕ) (nal out : List ℕ)
    → is_single nal t ≡ true
    → fua_loop ps t top last nal ≡ some out
    → is_single out t ≡ true
unfolding fua_loop
fua_loop-is_single [] t top last nal out s e = cc
fua_loop-is_single (p ∷ ps) t top last nal out s e =
    let body = drop 2 p.payload in
    let k = is_single-append nal body t s in
    let i = fua_loop-is_single ps t top p.sequence_number (nal ++ body) out k in ground arith

reassemble_fua-is_single :
    (ps : List Packet) (t : ℕ) (out : List ℕ)
    → t < 32
    → reassemble_fua ps t ≡ some out
    → is_single out t ≡ true
unfolding reassemble_fua
reassemble_fua-is_single [] t out l e = cc
reassemble_fua-is_single (p ∷ ps) t out l e =
    let h = first_byte p.payload in
    let k = is_single-header h t (drop 2 p.payload) l in
    let n = length-drop2 p.payload in
    let i =
      fua_loop-is_single ps t (h / 32) p.sequence_number ((h / 32 * 32 + t) ∷ drop 2 p.payload)
        out in
    ground arith

IsUnitOf : ℕ → Cacheable → Type 0
IsUnitOf t absent = Unit
IsUnitOf t (nal_unit nal) = is_single nal t ≡ true
IsUnitOf t not_cacheable = Unit

first_single-is_single :
    (us : List (List ℕ)) (t : ℕ) (u : List ℕ) → first_single us t ≡ some u → is_single u t ≡ true
unfolding first_single
first_single-is_single [] t u e = cc
first_single-is_single (v ∷ us) t u e = let i = first_single-is_single us t u in ground arith

from_stapa-IsUnitOf :
    (payload : List ℕ) (t : ℕ) (seen : Cacheable)
    → IsUnitOf t seen
    → IsUnitOf t (from_stapa payload t seen)
unfolding IsUnitOf
from_stapa-IsUnitOf payload t seen s =
    let units = stapa_units (length payload) (drop 1 payload) in
    if_elim (IsUnitOf t) (not (is_empty payload) && (low5 (first_byte payload) == 24))
      (elim (Option-cases (first_single units t)) [
        | inl e ↦ rw e s
        | inr (u, e) ↦ rw e (first_single-is_single units t u e)
      ])
      s

cacheable_nal-IsUnitOf :
    (ps : List Packet) (t : ℕ) (seen : Cacheable)
    → t < 32
    → IsUnitOf t seen
    → IsUnitOf t (cacheable_nal ps t seen)
unfolding cacheable_nal IsUnitOf
cacheable_nal-IsUnitOf [] t seen l s = s
cacheable_nal-IsUnitOf (p ∷ ps) t seen l s =
    let P = IsUnitOf t in
    if_cases P (is_single p.payload t) (λ e. cacheable_nal-IsUnitOf ps t (nal_unit p.payload) l e)
      (λ _.
        if_elim P (starts_fua p.payload t)
          (elim (Option-cases (reassemble_fua (p ∷ ps) t)) [
            | inl e ↦ rw e tt
            | inr (u, e) ↦ rw e (
                cacheable_nal-IsUnitOf ps t (nal_unit u) l
                  (reassemble_fua-is_single (p ∷ ps) t u l e))
          ])
          (cacheable_nal-IsUnitOf ps t (from_stapa p.payload t seen) l
            (from_stapa-IsUnitOf p.payload t seen s)))

-- A cached parameter set: none, or a single NAL unit of its type.
unfoldable pub IsCached : ℕ → List ℕ → Type 0
IsCached t nal = (nal ≡ []) ⊎ (is_single nal t ≡ true)

update-cases :
    (current : List ℕ) (t : ℕ) (c : Cacheable)
    → IsCached t current
    → IsUnitOf t c
    → IsCached t (elim c [ absent ↦ current | nal_unit nal ↦ nal | not_cacheable ↦ [] ])
unfolding IsCached IsUnitOf
update-cases current t absent k u = k
update-cases current t (nal_unit nal) k u = inr u
update-cases current t not_cacheable k u = inl refl

pub update_cached-IsCached :
    (current : List ℕ) (ps : List Packet) (t : ℕ)
    → t < 32
    → IsCached t current
    → IsCached t (update_cached current ps t)
unfolding update_cached IsUnitOf
update_cached-IsCached current ps t l k =
    update-cases current t (cacheable_nal ps t absent) k (cacheable_nal-IsUnitOf ps t absent l tt)
