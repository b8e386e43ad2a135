-- ===== src/Sip/Registry/Tests.antt =====
-- Runs of the public accounts (internal/sip/public_registry.go); instants in seconds, of a clock with a second as unit.
use webrtc_gateway.Sip.Registry.{
  build_key, Registry, resolve_destination, increment, find_or_create, trim_dot, entry_for, status,
  cleanup, finish_registration, begin_unregister, note_registered, is_ok, refresh_tick, final_reply,
  failed,
}
use webrtc_gateway.Store.{find}
use webrtc_gateway.Sip.Registry.Events.{
  run, step, Event, cleans, acquires, decrements, begins_unregister, increments, registers,
}
use webrtc_gateway.Base.{
  List, length, [], Option, arith, ◌≡◌, refl, Bool, ◌<◌, some, ℕ, ◌∷◌, if◌then◌else◌, false, none,
  ◌||◌, ◌⊎◌, ◌≤◌,
}
use webrtc_gateway.Sip.Registry.InUse.{in_use_stays}
use webrtc_gateway.Sip.Registry.Counting.{releases, uses_at}
use webrtc_gateway.Sip.Registry.Valid.{IsValid}
use webrtc_gateway.Sip.Registry.Acquire.{
  acquire, register_entry, Outcome, is_served, acquire_outcome,
}
use webrtc_gateway.Text.{Text, codes, text_eq, has_prefix, strip_prefix, strip_last}
use webrtc_gateway.Sip.Registry.Steps.{run-IsValid}
use webrtc_gateway.Session.Call.Midcall.{decimal}
use webrtc_gateway.Sip.Trunk.{any}

-- Dotted addresses of version 4 are literal ones.
abbrev is_literal : Text → Option Bool
is_literal s = if has_prefix (codes "10.") s then some false else none

abbrev empty_registry : Registry
empty_registry = record {
  heap = [];
  accounts = [];
  running = [];
  next_worker = 0;
  max_accounts = 1;
  idle_ttl = 600;
  register_expires = 3600;
}

empty-IsValid : IsValid empty_registry
empty-IsValid = record { keyed = tt; within = omega arith; owned = tt }

abbrev host : Text
host = codes "sip.io"

abbrev bob : Text
bob = codes "bob"

abbrev key : Text
key = codes "bob@sip.io"

abbrev registered : Registry
registered =
    (acquire is_literal 10 11 host bob (codes "pw") 5060 (status 401) (status 200) empty_registry).0

key_of_host : build_key is_literal host bob 5060 ≡ key
unfolding build_key has_prefix strip_prefix
key_of_host = refl

key_of_address : build_key is_literal (codes "10.0.0.1") bob 5060 ≡ codes "bob@10.0.0.1:5060"
unfolding build_key has_prefix strip_prefix decimal
key_of_address = refl

-- An SRV record names the destination of a host without a port.
destination :
    resolve_destination is_literal host 0 (some (codes "a.sip.io.", 5080)) ≡ codes "a.sip.io:5080"
unfolding resolve_destination trim_dot has_prefix strip_prefix strip_last decimal
destination = refl

-- Another password is not looked at while the account is registered; and it still counts as registered when its
-- registration has run out and every refresh failed.
other_password :
    (acquire is_literal 99999 99999 host bob
      (codes "no")
      5060
      (failed [])
      (failed [])
      (record (refresh_tick 2890 0 0 (failed []) registered) { max_accounts = 2 })).1
    ≡ some key
unfolding acquire find_or_create entry_for build_key has_prefix strip_prefix register_entry text_eq
    finish_registration note_registered refresh_tick any
other_password = refl

-- A full registry refuses an account that it has.
full_refuses :
    (acquire is_literal 20 21 host bob (codes "pw") 5060 (status 200) (status 200) registered).1
    ≡ none
unfolding acquire find_or_create entry_for build_key has_prefix strip_prefix register_entry text_eq
    finish_registration note_registered
full_refuses = refl

-- A cleanup between the registration and the count of the call takes the account away.
abbrev lost_call : List Event
lost_call = acquires 700 host bob (codes "pw") 5060 ∷ cleans 701 ∷ increments 702 key ∷ []

lost_account : (run is_literal lost_call (record registered { max_accounts = 2 })).accounts ≡ []
unfolding run step find_or_create entry_for build_key has_prefix strip_prefix cleanup increment
    acquire register_entry finish_registration note_registered text_eq
lost_account = refl

-- A registration that ends after the cleanup of its account leaves a refresh worker that nothing stops.
abbrev late_registration : List Event
late_registration =
    acquires 10 host bob (codes "pw") 5060
    ∷ cleans 700
    ∷ begins_unregister 0
    ∷ registers 701 0 (status 200)
    ∷ []

stray_worker :
    let r = run is_literal late_registration empty_registry in
    (r.accounts ≡ []) × (r.running ≡ (0, 0) ∷ [])
unfolding run step find_or_create entry_for build_key has_prefix strip_prefix cleanup
    begin_unregister finish_registration note_registered
stray_worker = (refl, refl)

run-IsValid_example : IsValid (run is_literal late_registration empty_registry)
run-IsValid_example = run-IsValid is_literal late_registration empty_registry empty-IsValid

abbrev calling : Registry
calling = increment 13 key (increment 12 key registered)

calling-IsValid : IsValid calling
unfolding increment acquire find_or_create entry_for build_key has_prefix strip_prefix
    register_entry finish_registration note_registered text_eq
calling-IsValid = record { keyed = (refl, tt); within = omega arith; owned = (refl, tt) }

abbrev busy : List Event
busy = cleans 5000 ∷ decrements 5001 key ∷ cleans 99999 ∷ begins_unregister 0 ∷ []

calling_found : find key calling.accounts ≡ some 0
unfolding increment acquire find_or_create entry_for build_key has_prefix strip_prefix
    register_entry finish_registration note_registered text_eq
calling_found = refl

calling_uses : uses_at calling.heap 0 ≡ some 2
unfolding increment acquire find_or_create entry_for build_key has_prefix strip_prefix
    register_entry finish_registration note_registered text_eq
calling_uses = refl

busy-releases : releases key busy ≡ 1
unfolding releases text_eq
busy-releases = refl

in_use_stays_example :
    (find key (run is_literal busy calling).accounts ≡ some 0)
    × ((d : ℕ) × (uses_at (run is_literal busy calling).heap 0 ≡ some d) × (0 < d))
in_use_stays_example =
    in_use_stays is_literal key 0 2 busy calling calling-IsValid calling_found calling_uses
      (omega (arith, busy-releases))

acquire_outcome_example :
    let k = build_key is_literal host bob 0 in
    ((length empty_registry.accounts < empty_registry.max_accounts)
      × Outcome k
          (is_served k empty_registry || is_ok (final_reply (status 407) (status 200)))
          (acquire is_literal 1 2 host bob (codes "pw") 0 (status 407) (status 200) empty_registry))
    ⊎ ((empty_registry.max_accounts ≤ length empty_registry.accounts)
        × (acquire is_literal 1 2 host bob (codes "pw") 0 (status 407) (status 200) empty_registry
            ≡ (empty_registry, none)))
acquire_outcome_example =
    acquire_outcome is_literal 1 2 host bob (codes "pw") 0 (status 407) (status 200) empty_registry
      empty-IsValid
