-- ===== src/Sip/Registry/Counting.antt =====
-- What the operations do to an account with calls (internal/sip/public_registry.go).
use webrtc_gateway.Text.{Text, text_eq, text_eq→eq, text_eq_refl}
use webrtc_gateway.Base.{
  List, ℕ, ◌∷◌, Option, ◌≡◌, ◌+◌, true, some, if◌then◌else◌, ◌<◌, Bool-cases, [], ◌∙◌, arith, ◌==◌,
  inl, subst, sym, ==→eq, inr, ==→ne, refl, ◌-◌, false, if_cases, if_elim, ◌≢◌, none, Bool, not,
  ◌&&◌,
}
use webrtc_gateway.Sip.Registry.{
  Account, Registry, cleanup, keeps_entry, is_idle, decrement, finish_registration, refresh_tick,
  Reply, entry_for, increment, on_entry, note_error, failed, note_registered, on_account, status,
  not_sent, is_ok, begin_unregister,
}
use webrtc_gateway.Sip.Registry.Events.{Event, decrements}
use webrtc_gateway.Store.{
  find, find-keep_if, update_at, view, view_both, view-update_at_kept, view-update_at,
  view-update_at_other, view-append, find-All,
}
use webrtc_gateway.Sip.Registry.Valid.{IsValid, key_at}
use webrtc_gateway.Sip.Trunk.{any}

abbrev pub uses_at : List Account → ℕ → Option ℕ
uses_at = view (λ a. a.ref_count)

-- The account under a key has more than this many calls.
pub record InUse (k : Text) (p n : ℕ) (r : Registry) : Type 0 where
  pub found : find k r.accounts ≡ some p
  pub counted : (c : ℕ) × (uses_at r.heap p ≡ some c) × (n < c)

-- How often a history gives an account back.
unfoldable pub releases : Text → List Event → ℕ
releases k [] = 0
releases k (decrements now j ∷ es) = if text_eq j k then 1 + releases k es else releases k es
releases k (_ ∷ es) = releases k es

note_error-uses : (reply : Reply) (a : Account) → (note_error reply a).ref_count ≡ a.ref_count
note_error-uses not_sent a = refl
note_error-uses (failed e) a = refl
note_error-uses (status n) a = refl

module _ (k : Text) (p n : ℕ) where
  pub kept_counted :
      (q : ℕ) (f : Account → Account) (r : Registry)
      → ((a : Account) → (f a).ref_count ≡ a.ref_count)
      → InUse k p n r
      → (c : ℕ) × (uses_at (update_at r.heap q f) p ≡ some c) × (n < c)
  kept_counted q f r h u =
      let (c, s, l) = u.counted in (c, view-update_at_kept (λ a. a.ref_count) r.heap q p f h ∙ s, l)

  raised_counted :
      (q now : ℕ) (r : Registry)
      → InUse k p n r
      → (c : ℕ) × (uses_at
            (update_at r.heap q (λ a. record a { ref_count = a.ref_count + 1; last_used = now }))
            p
          ≡ some c)
        × (n < c)
  raised_counted q now r u =
      let f : Account → Account = λ a. record a { ref_count = a.ref_count + 1; last_used = now } in
      let (c, s, l) = u.counted in
      elim (Bool-cases (q == p)) [
        | inl e ↦
            (let g = view-update_at (λ a. a.ref_count) r.heap p f (λ x. x + 1) c (λ a. refl) s in
              (
                c + 1,
                subst (λ i. uses_at (update_at r.heap i f) p ≡ some (c + 1)) (sym (==→eq q p e)) g,
                omega arith,
              ))
        | inr d ↦ (c, view-update_at_other (λ a. a.ref_count) r.heap q p f (==→ne q p d) ∙ s, l)
      ]

  kept_stays : (now : ℕ) (r : Registry) → InUse k p n r → keeps_entry now r (k, p) ≡ true
  kept_stays now r u =
      let (c, s, l) = u.counted in
      let (a, e, i) = view_both (λ a. a.ref_count) (is_idle now r.idle_ttl) r.heap p c s in
      ground arith

  pub cleanup-InUse : (now : ℕ) (r : Registry) → InUse k p n r → InUse k p n (cleanup now r).0
  unfolding cleanup
  cleanup-InUse now r u = record {
    found = find-keep_if (keeps_entry now r) k p r.accounts u.found (kept_stays now r u);
    counted = u.counted;
  }

  pub entry_for-InUse :
      (a : Account) (r : Registry)
      → InUse k p n r
      → InUse k p n (entry_for a (find a.key r.accounts) r).0
  unfolding entry_for
  entry_for-InUse a r u = entry_cases (find a.key r.accounts) refl
    where
      entry_cases : (x : Option ℕ) → find a.key r.accounts ≡ x → InUse k p n (entry_for a x r).0
      entry_cases (some q) e = u
      entry_cases none e =
          let (c, s, l) = u.counted in
          record {
            found =
                if_cases (λ x. x ≡ some p) (text_eq a.key k)
                  (λ t.
                    let j = subst (λ x. find x r.accounts ≡ none) (text_eq→eq a.key k t) e in
                    absurd (ground arith))
                  (λ d. u.found);
            counted = (c, view-append (λ b. b.ref_count) r.heap a p c s, l);
          }

  pub finish-InUse :
      (now q : ℕ) (reply : Reply) (r : Registry)
      → InUse k p n r
      → InUse k p n (finish_registration now q reply r).0
  unfolding finish_registration note_registered
  finish-InUse now q reply r u =
      if_elim (λ (x : Registry × Bool). InUse k p n x.0) (is_ok reply)
        (record {
          found = u.found;
          counted =
              kept_counted q
                (λ a. record a {
                  is_registered = true;
                  expires_at = some (now + r.register_expires);
                  last_error = none;
                  refresh = some r.next_worker;
                })
                r (λ a. refl) u;
        })
        (record {
          found = u.found;
          counted = kept_counted q (note_error reply) r (note_error-uses reply) u;
        })

  pub tick-InUse :
      (now worker q : ℕ) (reply : Reply) (r : Registry)
      → InUse k p n r
      → InUse k p n (refresh_tick now worker q reply r)
  unfolding refresh_tick
  tick-InUse now worker q reply r u =
      if_elim (InUse k p n) (not (any (λ x. (x.0 == worker) && (x.1 == q)) r.running)) u (
        if_elim (InUse k p n) (is_ok reply)
          (record {
            found = u.found;
            counted =
                kept_counted q
                  (λ a. record a {
                    expires_at = some (now + r.register_expires);
                    last_error = none;
                  })
                  r (λ a. refl) u;
          })
          (failed_tick reply))
    where
      failed_tick :
          (x : Reply)
          → InUse k p n (elim x [ failed e ↦ on_account q (note_error (failed e)) r | _ ↦ r ])
      failed_tick (failed e) = record {
        found = u.found;
        counted = kept_counted q (note_error (failed e)) r (note_error-uses (failed e)) u;
      }
      failed_tick not_sent = u
      failed_tick (status s) = u

  pub increment-InUse :
      (now : ℕ) (j : Text) (r : Registry) → InUse k p n r → InUse k p n (increment now j r)
  unfolding increment
  increment-InUse now j r u = by_entry (find j r.accounts)
    where
      by_entry :
          (x : Option ℕ)
          → InUse k p n
              (on_entry x (λ a. record a { ref_count = a.ref_count + 1; last_used = now }) r)
      by_entry none = u
      by_entry (some q) = record { found = u.found; counted = raised_counted q now r u }

  -- The account of another key is another account.
  other_address :
      (j : Text) (q : ℕ) (r : Registry)
      → IsValid r
      → find k r.accounts ≡ some p
      → find j r.accounts ≡ some q
      → text_eq j k ≡ false
      → q ≢ p
  other_address j q r v f g d = λ e.
      let a = find-All (λ x. key_at r.heap x.1 ≡ some x.0) k p r.accounts v.keyed f in
      let b = find-All (λ x. key_at r.heap x.1 ≡ some x.0) j q r.accounts v.keyed g in
      let c = sym (subst (λ i. key_at r.heap i ≡ some j) e b) ∙ a in
      let m = text_eq_refl j in absurd (ground arith)

  pub decrement_other-InUse :
      (now : ℕ) (j : Text) (r : Registry)
      → IsValid r
      → text_eq j k ≡ false
      → InUse k p n r
      → InUse k p n (decrement now j r)
  unfolding decrement
  decrement_other-InUse now j r v d u = by_entry (find j r.accounts) refl
    where
      by_entry :
          (x : Option ℕ)
          → find j r.accounts ≡ x
          → InUse k p n
              (on_entry x (λ a. record a { ref_count = a.ref_count - 1; last_used = now }) r)
      by_entry none e = u
      by_entry (some q) e =
          let (c, s, l) = u.counted in
          record {
            found = u.found;
            counted = (
              c,
              view-update_at_other (λ a. a.ref_count) r.heap q p
                    (λ a. record a { ref_count = a.ref_count - 1; last_used = now })
                    (other_address j q r v u.found e d)
                  ∙ s,
              l,
            );
          }

pub decrement-InUse :
    (k : Text) (p n now : ℕ) (r : Registry) → InUse k p (1 + n) r → InUse k p n (decrement now k r)
unfolding decrement
decrement-InUse k p n now r u =
    let (c, s, l) = u.counted in
    let f : Account → Account = λ a. record a { ref_count = a.ref_count - 1; last_used = now } in
    let h = view-update_at (λ a. a.ref_count) r.heap p f (λ x. x - 1) c (λ a. refl) s in
    let t : InUse k p n (on_account p f r) = record {
      found = u.found;
      counted = (c - 1, h, omega arith);
    } in
    subst (λ x. InUse k p n (on_entry x f r)) (sym u.found) t

pub begin_unregister-InUse :
    (k : Text) (p n q : ℕ) (r : Registry) → InUse k p n r → InUse k p n (begin_unregister q r).0
unfolding begin_unregister
begin_unregister-InUse k p n q r u = record {
  found = u.found;
  counted = kept_counted k p n q (λ a. record a { refresh = none }) r (λ a. refl) u;
}
