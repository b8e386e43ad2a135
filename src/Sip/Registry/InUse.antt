-- ===== src/Sip/Registry/InUse.antt =====
-- An account with a call is not taken away (internal/sip/public_registry.go).
use webrtc_gateway.Text.{Text, text_eq, text_eq→eq}
use webrtc_gateway.Base.{
  List, ℕ, ◌∷◌, Option, ◌≡◌, ◌+◌, some, ◌<◌, Bool-cases, [], arith, inl, subst, sym, inr, refl,
  false, if_elim, Bool, leb, length,
}
use webrtc_gateway.Sip.Registry.{Registry, decrement, end_unregister, find_or_create, new_account}
use webrtc_gateway.Sip.Registry.Steps.{step-IsValid}
use webrtc_gateway.Sip.Registry.Events.{
  step, Event, decrements, run, acquires, registers, is_address, ticks, increments, cleans,
  begins_unregister, ends_unregister, stops,
}
use webrtc_gateway.Store.{find}
use webrtc_gateway.Sip.Registry.Valid.{IsValid}
use webrtc_gateway.Sip.Registry.Counting.{
  InUse, begin_unregister-InUse, decrement-InUse, releases, uses_at, entry_for-InUse, finish-InUse,
  tick-InUse, increment-InUse, decrement_other-InUse, cleanup-InUse, kept_counted,
}

module _ (literal_ip : Text → Option Bool) where
  step-InUse :
      (k : Text) (p n : ℕ) (e : Event) (es : List Event) (r : Registry)
      → IsValid r
      → InUse k p (releases k (e ∷ es) + n) r
      → InUse k p (releases k es + n) (step literal_ip e r)
  unfolding step releases end_unregister find_or_create
  step-InUse k p n (acquires now d u w port) es r v h =
      if_elim (λ (x : Registry × Option ℕ). InUse k p (releases k es + n) x.0)
        (leb r.max_accounts (length r.accounts)) h
        (entry_for-InUse k p (releases k es + n) (new_account literal_ip now d u w port) r h)
  step-InUse k p n (registers now q reply) es r v h =
      if_elim (InUse k p (releases k es + n)) (is_address q r)
        (finish-InUse k p (releases k es + n) now q reply r h) h
  step-InUse k p n (ticks now worker q reply) es r v h =
      tick-InUse k p (releases k es + n) now worker q reply r h
  step-InUse k p n (increments now j) es r v h = increment-InUse k p (releases k es + n) now j r h
  step-InUse k p n (decrements now j) es r v h = elim (Bool-cases (text_eq j k)) [
    | inl e ↦
        (let q : releases k (decrements now j ∷ es) + n ≡ 1 + (releases k es + n) = ground arith in
          subst (λ i. InUse k p (releases k es + n) (decrement now i r)) (sym (text_eq→eq j k e))
            (decrement-InUse k p (releases k es + n) now r (subst (λ m. InUse k p m r) q h)))
    | inr d ↦
        (let q : releases k (decrements now j ∷ es) + n ≡ releases k es + n = ground arith in
          decrement_other-InUse k p (releases k es + n) now j r v d
            (subst (λ m. InUse k p m r) q h))
  ]
  step-InUse k p n (cleans now) es r v h = cleanup-InUse k p (releases k es + n) now r h
  step-InUse k p n (begins_unregister q) es r v h =
      begin_unregister-InUse k p (releases k es + n) q r h
  step-InUse k p n (ends_unregister q) es r v h = record {
    found = h.found;
    counted =
        kept_counted k p (releases k es + n) q (λ a. record a { is_registered = false }) r
          (λ a. refl) h;
  }
  step-InUse k p n stops es r v h = record { found = h.found; counted = h.counted }

  run-InUse :
      (k : Text) (p n : ℕ) (es : List Event) (r : Registry)
      → IsValid r
      → InUse k p (releases k es + n) r
      → InUse k p n (run literal_ip es r)
  unfolding run releases
  run-InUse k p n [] r v h = let q : 0 + n ≡ n = omega arith in subst (λ m. InUse k p m r) q h
  run-InUse k p n (e ∷ es) r v h =
      run-InUse k p n es (step literal_ip e r) (step-IsValid literal_ip e r v)
        (step-InUse k p n e es r v h)

  -- An account with more calls than a history gives back under its key is not taken away, whatever else happens in
  -- it and in any order: at its end the key leads to the same account, which still has a call.
  pub in_use_stays :
      (k : Text) (p c : ℕ) (es : List Event) (r : Registry)
      → IsValid r
      → find k r.accounts ≡ some p
      → uses_at r.heap p ≡ some c
      → releases k es < c
      → (find k (run literal_ip es r).accounts ≡ some p)
        × ((d : ℕ) × (uses_at (run literal_ip es r).heap p ≡ some d) × (0 < d))
  in_use_stays k p c es r v f s l =
      let u = run-InUse k p 0 es r v (record { found = f; counted = (c, s, omega arith) }) in
      (u.found, u.counted)
