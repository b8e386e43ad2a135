-- ===== src/Sip/Registry/Steps.antt =====
-- Every history of the public accounts keeps the invariant (internal/sip/public_registry.go).
use webrtc_gateway.Text.{Text}
use webrtc_gateway.Base.{
  Option, Bool, ℕ, List, ◌≡◌, ◌∷◌, length, [], ◌<◌, leb, ◌++◌, if_cases, some, All-map, arith, refl,
  none, ◌+◌, ◌-◌, false,
}
use webrtc_gateway.Sip.Registry.{
  find_or_create, Account, Registry, increment, decrement, end_unregister, build_key, new_account,
  entry_for,
}
use webrtc_gateway.Sip.Registry.Events.{
  run, step, Event, acquires, registers, is_address, ticks, increments, decrements, cleans,
  begins_unregister, ends_unregister, stops,
}
use webrtc_gateway.Sip.Registry.Valid.{
  IsValid, key_at, refresh_at, finish_registration-IsValid, refresh_tick-IsValid, use_count-IsValid,
  cleanup-IsValid, begin_unregister-IsValid, on_account-IsValid,
}
use webrtc_gateway.Store.{view_last, find, view-append}

-- A new account comes under its key, at an address that no other one has.
entry_for-IsValid :
    (a : Account) (x : Option ℕ) (r : Registry)
    → length r.accounts < r.max_accounts
    → IsValid r
    → IsValid (entry_for a x r).0
unfolding entry_for
entry_for-IsValid a (some p) r l v = v
entry_for-IsValid a none r l v = record {
  keyed = (
    view_last (λ b. b.key) r.heap a,
    All-map (λ x. key_at r.heap x.1 ≡ some x.0) (λ x. key_at (r.heap ++ a ∷ []) x.1 ≡ some x.0)
        r.accounts (λ x h. view-append (λ b. b.key) r.heap a x.1 x.0 h) v.keyed,
  );
  within = omega arith;
  owned =
      All-map (λ x. refresh_at r.heap x.1 ≡ some (some x.0))
        (λ x. refresh_at (r.heap ++ a ∷ []) x.1 ≡ some (some x.0)) r.running
        (λ x h. view-append (λ b. b.refresh) r.heap a x.1 (some x.0) h) v.owned;
}

module _ (literal_ip : Text → Option Bool) where
  find_or_create-IsValid :
      (now : ℕ) (d u w : Text) (port : ℕ) (r : Registry)
      → IsValid r
      → IsValid (find_or_create literal_ip now d u w port r).0
  unfolding find_or_create
  find_or_create-IsValid now d u w port r v =
      if_cases (λ (x : Registry × Option ℕ). IsValid x.0) (leb r.max_accounts (length r.accounts))
        (λ full. v)
        (λ n.
          entry_for-IsValid (new_account literal_ip now d u w port)
            (find (build_key literal_ip d u port) r.accounts) r (ground arith) v)

  pub step-IsValid : (e : Event) (r : Registry) → IsValid r → IsValid (step literal_ip e r)
  unfolding step increment decrement end_unregister
  step-IsValid (acquires now d u w port) r v = find_or_create-IsValid now d u w port r v
  step-IsValid (registers now p reply) r v =
      if_cases IsValid (is_address p r) (λ a. finish_registration-IsValid now p reply r a v)
        (λ n. v)
  step-IsValid (ticks now worker p reply) r v = refresh_tick-IsValid now worker p reply r v
  step-IsValid (increments now k) r v =
      use_count-IsValid k (λ a. record a { ref_count = a.ref_count + 1; last_used = now }) r
        (λ a. refl) (λ a. refl) v (find k r.accounts)
  step-IsValid (decrements now k) r v =
      use_count-IsValid k (λ a. record a { ref_count = a.ref_count - 1; last_used = now }) r
        (λ a. refl) (λ a. refl) v (find k r.accounts)
  step-IsValid (cleans now) r v = cleanup-IsValid now r v
  step-IsValid (begins_unregister p) r v = begin_unregister-IsValid p r v
  step-IsValid (ends_unregister p) r v =
      on_account-IsValid p (λ a. record a { is_registered = false }) r (λ a. refl) (λ a. refl) v
  step-IsValid stops r v = record { keyed = v.keyed; within = v.within; owned = tt }

  -- Whatever calls, registrations, refresh workers and cleanups do, and in any order: a name in the map leads to an
  -- account of that name, there are at most as many as configured, and every refresh worker that runs is the one
  -- that its account can cancel.
  pub run-IsValid : (es : List Event) (r : Registry) → IsValid r → IsValid (run literal_ip es r)
  unfolding run
  run-IsValid [] r v = v
  run-IsValid (e ∷ es) r v = run-IsValid es (step literal_ip e r) (step-IsValid e r v)
