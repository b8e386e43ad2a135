-- ===== src/Sip/Registry/Events.antt =====
-- Histories of the public accounts (internal/sip/public_registry.go): what the locks of concurrent calls, registrations,
-- refresh workers and cleanups do, in any order.
use webrtc_gateway.Base.{ℕ, [], Option, Bool, List, ltb, if◌then◌else◌, ◌∷◌, length}
use webrtc_gateway.Text.{Text}
use webrtc_gateway.Sip.Registry.{
  Registry, Reply, find_or_create, finish_registration, refresh_tick, increment, decrement, cleanup,
  begin_unregister, end_unregister,
}

pub data Event : Type 0 where
  acquires : (now : ℕ) → (domain username password : Text) → ℕ → Event
  registers : (now p : ℕ) → Reply → Event
  ticks : (now worker p : ℕ) → Reply → Event
  increments decrements : ℕ → Text → Event
  cleans : ℕ → Event
  begins_unregister ends_unregister : ℕ → Event
  stops : Event

-- An address is one that the registry gave out.
abbrev pub is_address : ℕ → Registry → Bool
is_address p r = ltb p (length r.heap)

-- What close(stopCh) of Stop does: every refresh worker ends.
abbrev pub stop_all : Registry → Registry
stop_all r = record r { running = [] }

module _ (literal_ip : Text → Option Bool) where
  unfoldable pub step : Event → Registry → Registry
  step (acquires now d u w port) r = (find_or_create literal_ip now d u w port r).0
  step (registers now p reply) r =
      if is_address p r then (finish_registration now p reply r).0 else r
  step (ticks now worker p reply) r = refresh_tick now worker p reply r
  step (increments now k) r = increment now k r
  step (decrements now k) r = decrement now k r
  step (cleans now) r = (cleanup now r).0
  step (begins_unregister p) r = (begin_unregister p r).0
  step (ends_unregister p) r = end_unregister p r
  step stops r = stop_all r

  unfoldable pub run : List Event → Registry → Registry
  run [] r = r
  run (e ∷ es) r = run es (step e r)
