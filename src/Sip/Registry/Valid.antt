-- ===== src/Sip/Registry/Valid.antt =====
-- The invariant of the public accounts (internal/sip/public_registry.go).
use webrtc_gateway.Base.{
  ℕ, List, All, ◌≢◌, Option, ◌≡◌, some, length, All-map, ◌≤◌, subst, ◌∙◌, sym, ◌∷◌, if_cases, ◌!=◌,
  arith, [], none, true, not, refl, if_elim, ◌+◌, Bool, keep_if-All, length-keep_if, ◌==◌, ◌&&◌,
}
use webrtc_gateway.Sip.Registry.{
  Registry, Account, on_account, stop_worker, worker_in, finish_registration, begin_unregister,
  Reply, is_ok, note_error, note_registered, refresh_tick, cleanup, failed, status, keeps_entry,
  not_sent, on_entry,
}
use webrtc_gateway.Store.{
  view, update_at, view-update_at_other, view-update_at_kept, view_defined, view-update_at,
}
use webrtc_gateway.Text.{Text}
use webrtc_gateway.Sip.Registry.Events.{is_address}
use webrtc_gateway.Sip.Trunk.{any}

abbrev pub key_at : List Account → ℕ → Option Text
key_at = view (λ a. a.key)

abbrev pub refresh_at : List Account → ℕ → Option (Option ℕ)
refresh_at = view (λ a. a.refresh)

-- A name in the map leads to an account of that name, the map is never fuller than configured, and every worker that
-- runs is the one that its account can cancel.
pub record IsValid (r : Registry) : Type 0 where
  pub keyed : All (λ e. key_at r.heap e.1 ≡ some e.0) r.accounts
  pub within : length r.accounts ≤ r.max_accounts
  pub owned : All (λ w. refresh_at r.heap w.1 ≡ some (some w.0)) r.running

pub on_account-IsValid :
    (p : ℕ) (f : Account → Account) (r : Registry)
    → ((a : Account) → (f a).key ≡ a.key)
    → ((a : Account) → (f a).refresh ≡ a.refresh)
    → IsValid r
    → IsValid (on_account p f r)
on_account-IsValid p f r k w v = record {
  keyed =
      All-map (λ e. key_at r.heap e.1 ≡ some e.0)
        (λ e. key_at (update_at r.heap p f) e.1 ≡ some e.0) r.accounts
        (λ e h. view-update_at_kept (λ a. a.key) r.heap p e.1 f k ∙ h) v.keyed;
  within = v.within;
  owned =
      All-map (λ e. refresh_at r.heap e.1 ≡ some (some e.0))
        (λ e. refresh_at (update_at r.heap p f) e.1 ≡ some (some e.0)) r.running
        (λ e h. view-update_at_kept (λ a. a.refresh) r.heap p e.1 f w ∙ h) v.owned;
}

module _ (heap : List Account) (p : ℕ) (f : Account → Account) where
  abbrev Owned : List Account → List (ℕ × ℕ) → Type 0
  Owned h running = All (λ w. refresh_at h w.1 ≡ some (some w.0)) running

  -- A worker of another account is not touched.
  owned_other :
      (w q : ℕ)
      → refresh_at heap q ≡ some (some w)
      → q ≢ p
      → refresh_at (update_at heap p f) q ≡ some (some w)
  owned_other w q h n = view-update_at_other (λ a. a.refresh) heap p q f (λ e. n (sym e)) ∙ h

  stop_none-Owned :
      (running : List (ℕ × ℕ))
      → ((w : ℕ) → refresh_at heap p ≢ some (some w))
      → Owned heap running
      → Owned (update_at heap p f) running
  stop_none-Owned running n h =
      All-map (λ x. refresh_at heap x.1 ≡ some (some x.0))
        (λ x. refresh_at (update_at heap p f) x.1 ≡ some (some x.0)) running
        (λ x o.
          owned_other x.0 x.1 o (λ e. n x.0 (subst (λ q. refresh_at heap q ≡ some (some x.0)) e o)))
        h

  stop_some-Owned :
      (v : ℕ) (running : List (ℕ × ℕ))
      → refresh_at heap p ≡ some (some v)
      → Owned heap running
      → Owned (update_at heap p f) (stop_worker (some v) running)
  stop_some-Owned v [] c h = tt
  stop_some-Owned v (x ∷ rest) c h =
      if_cases (Owned (update_at heap p f)) (x.0 != v)
        (λ kept. (
          owned_other x.0 x.1 h.0 (λ e.
              let t = subst (λ q. refresh_at heap q ≡ some (some x.0)) e h.0 in
              absurd (ground arith)),
          stop_some-Owned v rest c h.1,
        ))
        (λ dropped. stop_some-Owned v rest c h.1)

  stop-Owned :
      (o : Option (Option ℕ)) (running : List (ℕ × ℕ))
      → refresh_at heap p ≡ o
      → Owned heap running
      → Owned (update_at heap p f) (stop_worker (worker_in o) running)
  stop-Owned none running c h = stop_none-Owned running (λ w e. absurd (ground arith)) h
  stop-Owned (some none) running c h = stop_none-Owned running (λ w e. absurd (ground arith)) h
  stop-Owned (some (some v)) running c h = stop_some-Owned v running c h

note_error-kept :
    (reply : Reply) (a : Account)
    → ((note_error reply a).key ≡ a.key) × ((note_error reply a).refresh ≡ a.refresh)
note_error-kept not_sent a = (refl, refl)
note_error-kept (failed e) a = (refl, refl)
note_error-kept (status n) a = (refl, refl)

note_error-IsValid :
    (p : ℕ) (reply : Reply) (r : Registry) → IsValid r → IsValid (on_account p (note_error reply) r)
note_error-IsValid p reply r v =
    on_account-IsValid p (note_error reply) r (λ a. (note_error-kept reply a).0)
      (λ a. (note_error-kept reply a).1) v

keyed_on :
    (p : ℕ) (f : Account → Account) (r : Registry)
    → ((a : Account) → (f a).key ≡ a.key)
    → IsValid r
    → All (λ e. key_at (update_at r.heap p f) e.1 ≡ some e.0) r.accounts
keyed_on p f r k v =
    All-map (λ e. key_at r.heap e.1 ≡ some e.0) (λ e. key_at (update_at r.heap p f) e.1 ≡ some e.0)
      r.accounts (λ e h. view-update_at_kept (λ a. a.key) r.heap p e.1 f k ∙ h) v.keyed

note_registered-IsValid :
    (now p : ℕ) (r : Registry)
    → is_address p r ≡ true
    → IsValid r
    → IsValid (note_registered now p r)
unfolding note_registered
note_registered-IsValid now p r a v =
    let f : Account → Account = λ b. record b {
      is_registered = true;
      expires_at = some (now + r.register_expires);
      last_error = none;
      refresh = some r.next_worker;
    } in
    let (w, d) = view_defined (λ b. b.refresh) r.heap p (ground arith) in
    record {
      keyed = keyed_on p f r (λ b. refl) v;
      within = v.within;
      owned = (
        view-update_at (λ b. b.refresh) r.heap p f (λ x. some r.next_worker) w (λ b. refl) d,
        stop-Owned r.heap p f (refresh_at r.heap p) r.running refl v.owned,
      );
    }

pub finish_registration-IsValid :
    (now p : ℕ) (reply : Reply) (r : Registry)
    → is_address p r ≡ true
    → IsValid r
    → IsValid (finish_registration now p reply r).0
unfolding finish_registration
finish_registration-IsValid now p reply r a v =
    if_elim (λ (x : Registry × Bool). IsValid x.0) (is_ok reply)
      (note_registered-IsValid now p r a v) (note_error-IsValid p reply r v)

pub begin_unregister-IsValid : (p : ℕ) (r : Registry) → IsValid r → IsValid (begin_unregister p r).0
unfolding begin_unregister
begin_unregister-IsValid p r v =
    let f : Account → Account = λ b. record b { refresh = none } in
    record {
      keyed = keyed_on p f r (λ b. refl) v;
      within = v.within;
      owned = stop-Owned r.heap p f (refresh_at r.heap p) r.running refl v.owned;
    }

pub refresh_tick-IsValid :
    (now worker p : ℕ) (reply : Reply) (r : Registry)
    → IsValid r
    → IsValid (refresh_tick now worker p reply r)
unfolding refresh_tick
refresh_tick-IsValid now worker p reply r v =
    if_elim IsValid (not (any (λ x. (x.0 == worker) && (x.1 == p)) r.running)) v (
      if_elim IsValid (is_ok reply)
        (on_account-IsValid p
          (λ a. record a { expires_at = some (now + r.register_expires); last_error = none }) r
          (λ a. refl) (λ a. refl) v)
        (error_tick reply))
  where
    error_tick :
        (x : Reply) → IsValid (elim x [ failed e ↦ on_account p (note_error (failed e)) r | _ ↦ r ])
    error_tick (failed e) = note_error-IsValid p (failed e) r v
    error_tick not_sent = v
    error_tick (status n) = v

pub use_count-IsValid :
    (k : Text) (f : Account → Account) (r : Registry)
    → ((a : Account) → (f a).key ≡ a.key)
    → ((a : Account) → (f a).refresh ≡ a.refresh)
    → IsValid r
    → (x : Option ℕ) → IsValid (on_entry x f r)
use_count-IsValid k f r a b v none = v
use_count-IsValid k f r a b v (some p) = on_account-IsValid p f r a b v

pub cleanup-IsValid : (now : ℕ) (r : Registry) → IsValid r → IsValid (cleanup now r).0
unfolding cleanup
cleanup-IsValid now r v = record {
  keyed = keep_if-All (λ e. key_at r.heap e.1 ≡ some e.0) (keeps_entry now r) r.accounts v.keyed;
  within = omega (arith, length-keep_if (keeps_entry now r) r.accounts, v.within);
  owned = v.owned;
}
