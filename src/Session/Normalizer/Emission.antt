-- ===== src/Session/Normalizer/Emission.antt =====
-- What Push of internal/session/h264_access_unit_normalizer.go hands out after any history of calls.
use webrtc_gateway.Base.{
  ℕ, arith, Bool, true, false, [], ◌∷◌, ◌++◌, refl, List, All, ◌≡◌, inl, ◌⊎◌, not, ◌||◌, inr, ◌&&◌,
  is_empty, if◌then◌else◌, if_elim, Option, some, ◌∙◌, if_cases, none, subst, ltb, sym,
}
use webrtc_gateway.Session.Rtp.{Packet, AccessUnit}
use webrtc_gateway.Session.Normalizer.Assemble.{fragment, gather, finish, push, push_locked}
use webrtc_gateway.Session.Normalizer.Nal.{
  prefix_sets, when, Found, set_packet, strip_sets, inspect_access_unit, nothing, update_cached,
}
use webrtc_gateway.Session.Normalizer.Complete.{
  IsGathering, Gathered, last_of, open_type, Opened, gather-fields, IsComplete, gather-parts,
  gathers, open_au-Opened, Fragments,
}
use webrtc_gateway.Session.Normalizer.{Normalizer, reset_current, drop_current}
use mathlib.Core.Option.{none}

pub reset-IsGathering : (n : Normalizer) → n.have_au ≡ false → IsGathering n
unfolding IsGathering
reset-IsGathering n e h = ground arith

pub Gathered-IsGathering :
    (n : Normalizer)
    → (n.invalid ≡ false → Gathered n.source_ts n.packets (last_of n) (open_type (fragment n)))
    → IsGathering n
unfolding IsGathering
Gathered-IsGathering n g _ e = g e

pub Gathered-subst :
    {ts us : ℕ} {ps qs : List Packet} {last last' unit : Option ℕ}
    → ts ≡ us
    → ps ≡ qs
    → last ≡ last'
    → Gathered ts ps last unit
    → Gathered us qs last' unit
Gathered-subst {ts = ts} {us = us} {ps = ps} {qs = qs} {last = last} {last' = last'} {unit = unit} e
      f h x =
    subst (λ t. Gathered t qs last' unit) e
      (subst (λ xs. Gathered ts xs last' unit) f (subst (λ l. Gathered ts ps l unit) h x))

-- The packets of an access unit: new copies of its parameter sets, and the packets that came, from which other
-- copies of them may be missing.
pub record IsUnit (sps pps : List ℕ) (core all : List Packet) : Type 0 where
  pub sets : List Packet
  pub rest : List Packet
  pub parts : all ≡ sets ++ rest
  pub copies :
      All (λ (q : Packet). (q.marker ≡ false) × ((q.payload ≡ sps) ⊎ (q.payload ≡ pps))) sets
  pub core_or_less : (rest ≡ core) ⊎ (rest ≡ strip_sets core)

when-append :
    (a b : Bool) (x y : Packet) (rest : List Packet)
    → when a x (when b y rest) ≡ when a x (when b y []) ++ rest
when-append true true x y rest = refl
when-append true false x y rest = refl
when-append false true x y rest = refl
when-append false false x y rest = refl

when-All :
    (a b : Bool) (p : Packet) (sps pps : List ℕ)
    → All
        (λ (q : Packet). (q.marker ≡ false) × ((q.payload ≡ sps) ⊎ (q.payload ≡ pps)))
        (when a (set_packet p sps) (when b (set_packet p pps) []))
when-All true true p sps pps = ((refl, inl refl), ((refl, inr refl), tt))
when-All true false p sps pps = ((refl, inl refl), tt)
when-All false true p sps pps = ((refl, inr refl), tt)
when-All false false p sps pps = tt

prefix_sets-IsUnit :
    (ps : List Packet) (sps pps : List ℕ) (f : Found) (force : Bool)
    → IsUnit sps pps ps (prefix_sets ps sps pps f force).0
unfolding prefix_sets
prefix_sets-IsUnit [] sps pps f force = record {
  sets = [];
  rest = [];
  parts = refl;
  copies = tt;
  core_or_less = inl refl;
}
prefix_sets-IsUnit (p ∷ ps) sps pps f force =
    let need_sps = (not f.sps || force) && not (is_empty sps) in
    let need_pps = (not f.pps || force) && not (is_empty pps) in
    let stripped = strip_sets (p ∷ ps) in
    let rest = if force && not (is_empty stripped) then stripped else p ∷ ps in
    let less : (rest ≡ p ∷ ps) ⊎ (rest ≡ stripped) =
      if_elim (λ (x : List Packet). (x ≡ p ∷ ps) ⊎ (x ≡ stripped))
        (force && not (is_empty stripped)) (inr refl) (inl refl) in
    let whole : IsUnit sps pps (p ∷ ps) (p ∷ ps) = record {
      sets = [];
      rest = p ∷ ps;
      parts = refl;
      copies = tt;
      core_or_less = inl refl;
    } in
    if_elim (λ (x : List Packet × Bool). IsUnit sps pps (p ∷ ps) x.0) (not need_sps && not need_pps)
      whole
      (record {
        sets = when need_sps (set_packet p sps) (when need_pps (set_packet p pps) []);
        rest = rest;
        parts = when-append need_sps need_pps (set_packet p sps) (set_packet p pps) rest;
        copies = when-All need_sps need_pps p sps pps;
        core_or_less = less;
      })

finish-IsUnit :
    (n : Normalizer)
    → let r = finish n in IsUnit r.0.cached_sps r.0.cached_pps n.packets r.1.packets
unfolding finish reset_current
finish-IsUnit n =
    let f = inspect_access_unit n.packets nothing in
    let sps = update_cached n.cached_sps n.packets 7 in
    let pps = update_cached n.cached_pps n.packets 8 in
    let ready = not (is_empty sps) && not (is_empty pps) in
    let force = ltb 0 n.force_prefix_remaining && ready && (not f.sps || not f.pps) in
    if_elim (λ (x : List Packet × Bool). IsUnit sps pps n.packets x.0) f.idr
      (prefix_sets-IsUnit n.packets sps pps f force)
      (record { sets = []; rest = n.packets; parts = refl; copies = tt; core_or_less = inl refl })

-- What is handed out while the packet `p` is pushed, if anything is: the parameter sets, and a complete access unit
-- that ends with `p`.
unfoldable pub IsEmission : Packet → Normalizer → Option AccessUnit → Type 0
IsEmission p m none = Unit
IsEmission p m (some au) =
    (core : List Packet) × IsComplete p.timestamp core
    × IsUnit m.cached_sps m.cached_pps core au.packets
    × (au.source_timestamp ≡ p.timestamp)
    × (m.have_au ≡ false)

module _ (marshal_size : Packet → ℕ) where
  gather-IsComplete :
      (p : Packet) (now : ℕ) (n : Normalizer)
      → IsGathering n
      → p.marker ≡ true
      → let m = gather marshal_size p now n in
        m.invalid ≡ false → m.fu_open ≡ false → IsComplete p.timestamp m.packets
  unfolding fragment
  gather-IsComplete p now n g k v c =
      let m = gather marshal_size p now n in
      let (before, last, unit, ps, w, f, fr) = gather-parts marshal_size p now n g v in
      let closed : open_type (fragment m) ≡ none = rw c refl in
      record {
        before = before;
        last = last;
        unit = unit;
        end = p;
        parts = ps;
        gathered = w;
        same_timestamp = refl;
        has_marker = k;
        follows = f;
        closes = subst (Fragments unit p.payload) closed fr;
      }

  gather-source :
      (p : Packet) (now : ℕ) (n : Normalizer)
      → IsGathering n
      → (gather marshal_size p now n).source_ts ≡ p.timestamp
  unfolding Opened
  gather-source p now n g =
      (gather-fields marshal_size p now n).0 ∙ (open_au-Opened marshal_size p now n g).1

  -- Every access unit that a push hands out is complete: its packets came in sequence on one timestamp, all fragments
  -- are there, and the last has the marker; before them only parameter sets are put.
  pub push-IsEmission :
      (p : Packet) (now : ℕ) (n : Normalizer)
      → IsGathering n
      → let r = push marshal_size p now n in IsEmission p r.0 r.1
  unfolding push push_locked IsEmission finish reset_current
  push-IsEmission p now n g =
      let m = gather marshal_size p now n in
      let P = λ (r : Normalizer × Option AccessUnit). IsEmission p r.0 r.1 in
      if_cases P (is_empty p.payload) (λ _. tt)
        (λ _.
          if_cases P (not p.marker) (λ _. tt)
            (λ k.
              if_cases P (m.invalid || m.fu_open || is_empty m.packets) (λ _. tt)
                (λ e.
                  let mark : p.marker ≡ true = ground arith in
                  let v : m.invalid ≡ false = ground arith in
                  let c : m.fu_open ≡ false = ground arith in
                  (
                    m.packets,
                    gather-IsComplete p now n g mark v c,
                    finish-IsUnit m,
                    gather-source p now n g,
                    refl,
                  ))))

  pub push-IsGathering :
      (p : Packet) (now : ℕ) (n : Normalizer)
      → IsGathering n
      → IsGathering (push marshal_size p now n).0
  unfolding push push_locked finish drop_current reset_current
  push-IsGathering p now n g =
      let m = gather marshal_size p now n in
      let P = λ (r : Normalizer × Option AccessUnit). IsGathering r.0 in
      if_cases P (is_empty p.payload) (λ _. g)
        (λ _.
          if_cases P (not p.marker)
            (λ k. Gathered-IsGathering m (λ v.
              let (before, last, unit, ps, w, f, fr) = gather-parts marshal_size p now n g v in
              let mark : p.marker ≡ false = ground arith in
              let x = gathers before last unit p (open_type (fragment m)) w refl mark f fr in
              let (_, l) = gather-fields marshal_size p now n in
              Gathered-subst (sym (gather-source p now n g)) (sym ps) (sym l) x))
            (λ k.
              if_elim P (m.invalid || m.fu_open || is_empty m.packets)
                (reset-IsGathering (drop_current m.overflow m) refl)
                (reset-IsGathering (finish m).0 refl)))
