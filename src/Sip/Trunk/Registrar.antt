-- ===== src/Sip/Trunk/Registrar.antt =====
-- internal/sip/trunk_registrar_identity.go: the registrar generation of each trunk, and the identity that a REGISTER
-- publishes under the generation it was started with. Each function holds the lock of the manager. A
-- missing key of the map of generations reads as 0, and an uint64 wraps.
use webrtc_gateway.Base.{
  [], ◌∷◌, none, some, List, ℕ, if◌then◌else◌, ◌+◌, u64, ◌≡◌, ◌==◌, Bool, ◌<◌, false, Option, ◌^◌,
  ◌!=◌, arith, ◌||◌, not, true, ◌↔◌, refl,
}
use webrtc_gateway.Text.{Text}
use webrtc_gateway.Sip.Trunk.{Identity, Trunk}

-- The fields of TrunkManager that matching and registration share; a map that is not made yet is empty.
pub record Manager : Type 0 where
  pub public_ip : Text
  pub local_port : ℕ
  pub trunks : List Trunk
  pub owned_leases : ℕ → Bool
  pub generations : ℕ → ℕ
  pub identities : ℕ → Option Identity

unfoldable pub update {ℓ} : {A : Type ℓ} → (ℕ → A) → ℕ → A → ℕ → A
update f k v j = if j == k then v else f j

unfoldable pub bump : ℕ → Manager → Manager
unfolding update
bump id m = record m { generations = update m.generations id (u64 (m.generations id + 1)) }

-- beginRegistrarOperation
unfoldable pub begin_operation : ℕ → Manager → Manager × ℕ
begin_operation id m = (bump id m, (bump id m).generations id)

-- invalidateRegistrarIdentity
unfoldable pub invalidate : ℕ → Manager → Manager
invalidate id m = record (bump id m) { identities = update m.identities id none }

-- tryPublishRegistrarIdentity, of an identity that is not nil.
unfoldable pub try_publish : ℕ → ℕ → Identity → Manager → Manager × Bool
try_publish id generation i m = if m.generations id != generation then (m, false) else (
  record m {
    identities =
        update m.identities id (some (record i { generation = generation; trunk_id = id }));
  },
  true,
)

unfoldable pub has_id : ℕ → List Trunk → Bool
has_id id [] = false
has_id id (t ∷ ts) = (t.id == id) || has_id id ts

-- Whether pruneRegistrarIdentitiesLocked drops the identity of a trunk.
unfoldable pub is_pruned : Manager → ℕ → Bool
unfolding has_id
is_pruned m id = elim (m.identities id) [ none ↦ false | some i ↦ not (has_id id m.trunks) ]

-- pruneRegistrarIdentitiesLocked: the rounds of its loop are about different trunks.
unfoldable pub prune : Manager → Manager
unfolding is_pruned
prune m = record m {
  generations = λ id. if is_pruned m id then u64 (m.generations id + 1) else m.generations id;
  identities = λ id. if is_pruned m id then none else m.identities id;
}

-- What happens to the identities between the start of a REGISTER and its answer; a change of the trunks
-- (a refresh from the database) comes before the prune that follows it.
pub data Event : Type 0 where
  begins : ℕ → Event
  invalidates : ℕ → Event
  publishes : ℕ → ℕ → Identity → Event
  loads : List Trunk → Event
  prunes : Event

unfoldable pub step : Event → Manager → Manager
unfolding begin_operation invalidate try_publish prune
step (begins id) m = (begin_operation id m).0
step (invalidates id) m = invalidate id m
step (publishes id g i) m = (try_publish id g i m).0
step (loads ts) m = record m { trunks = ts }
step prunes m = prune m

unfoldable pub run : List Event → Manager → Manager
run [] m = m
run (e ∷ es) m = run es (step e m)

-- Whether an event starts a newer operation for the trunk or takes its identity away.
abbrev supersedes : ℕ → Event → Manager → Bool
supersedes id (begins j) m = id == j
supersedes id (invalidates j) m = id == j
supersedes id (publishes j g i) m = false
supersedes id (loads ts) m = false
supersedes id prunes m = is_pruned m id

-- How often that happens in a history.
abbrev pub superseded : ℕ → List Event → Manager → ℕ
superseded id [] m = 0
superseded id (e ∷ es) m = (if supersedes id e m then 1 else 0) + superseded id es (step e m)

step_generation :
    (id : ℕ) (e : Event) (m : Manager)
    → m.generations id < 2 ^ 64
    → (step e m).generations id ≡ u64 (m.generations id + (if supersedes id e m then 1 else 0))
unfolding step bump
step_generation id (begins j) m h = ground arith
step_generation id (invalidates j) m h = ground arith
step_generation id (publishes j g i) m h = ground arith
step_generation id (loads ts) m h = ground arith
step_generation id prunes m h = ground arith

run_generation :
    (id : ℕ) (es : List Event) (m : Manager)
    → m.generations id < 2 ^ 64
    → (run es m).generations id ≡ u64 (m.generations id + superseded id es m)
unfolding run
run_generation id [] m h = omega arith
run_generation id (e ∷ es) m h =
    let s = step_generation id e m h in
    let r = run_generation id es (step e m) (omega (arith, s)) in omega (arith, s, r)

begun_generation :
    (id : ℕ) (m : Manager)
    → ((begin_operation id m).1 ≡ (begin_operation id m).0.generations id)
      × ((begin_operation id m).1 < 2 ^ 64)
unfolding begin_operation bump
begun_generation id m = (refl, ground arith)

-- The answer to a REGISTER is published exactly when, since its start, no newer operation for the trunk
-- was started and its identity was not taken away, which fewer than 2^64 events cannot hide.
pub publish_iff :
    (id : ℕ) (i : Identity) (es : List Event) (m : Manager)
    → superseded id es (begin_operation id m).0 < 2 ^ 64
    → ((try_publish id (begin_operation id m).1 i (run es (begin_operation id m).0)).1 ≡ true)
      ↔ (superseded id es (begin_operation id m).0 ≡ 0)
unfolding try_publish
publish_iff id i es m few =
    let b = begun_generation id m in
    let g = run_generation id es (begin_operation id m).0 (omega (arith, b)) in
    (λ h. ground (arith, g, b), λ h. ground (arith, g, b))
