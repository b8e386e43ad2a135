-- ===== src/Sip/Registry/Acquire.antt =====
-- AcquireAndRegister of internal/sip/public_registry.go as a whole, when nothing comes between its locks.
use webrtc_gateway.Base.{
  Option, ℕ, List, Bool, some, ◌≡◌, if◌then◌else◌, false, none, ◌<◌, true, length, ◌⊎◌, ◌||◌, ◌+◌,
  refl, if_cases, arith, inl, inr, Bool-cases, ◌∙◌, subst, ◌≤◌, length-append, leb, ◌∷◌, [],
}
use webrtc_gateway.Sip.Registry.{
  finish_registration, Reply, note_registered, Registry, Account, build_key, final_reply,
  find_or_create, is_ok, entry_for, new_account,
}
use webrtc_gateway.Text.{Text, text_eq_refl}
use webrtc_gateway.Store.{
  view, find, view_defined, view-update_at, view-within, find-All, view_last,
}
use webrtc_gateway.Sip.Registry.Valid.{IsValid, key_at}

abbrev pub registered_at : List Account → ℕ → Option Bool
registered_at = view (λ a. a.is_registered)

abbrev pub is_true : Option Bool → Bool
is_true none = false
is_true (some b) = b

abbrev pub key_of : Text → Registry × Bool → Registry × Option Text
key_of k (r, true) = (r, some k)
key_of k (r, false) = (r, none)

-- What follows the lock: a registration where the account has none.
unfoldable pub register_entry : ℕ → Text → Reply → ℕ → Registry → Registry × Option Text
register_entry later k reply p r =
    if is_true (registered_at r.heap p)
    then (r, some k)
    else key_of k (finish_registration later p reply r)

abbrev pub after_entry : ℕ → Text → Reply → Registry × Option ℕ → Registry × Option Text
after_entry later k reply (r, none) = (r, none)
after_entry later k reply (r, some p) = register_entry later k reply p r

-- AcquireAndRegister at two instants, by the answers of the registrar: the key, or `none` for an error.
unfoldable pub acquire :
    (Text → Option Bool)
    → (now later : ℕ) → (domain username password : Text) → ℕ
    → (first second : Reply) → Registry
    → Registry × Option Text
acquire literal_ip now later domain username password port first second r =
    after_entry later (build_key literal_ip domain username port) (final_reply first second)
      (find_or_create literal_ip now domain username password port r)

-- The key leads to an account that is registered.
abbrev pub IsServed : Text → Registry → Type 0
IsServed k r = (p : ℕ) × (find k r.accounts ≡ some p) × (registered_at r.heap p ≡ some true)

-- What a registration of the account at an address leads to.
abbrev pub Outcome : Text → Bool → Registry × Option Text → Type 0
Outcome k served (r, o) =
    ((served ≡ true) × (o ≡ some k) × IsServed k r) ⊎ ((served ≡ false) × (o ≡ none))

finish_registration-IsServed :
    (later p : ℕ) (k : Text) (reply : Reply) (r : Registry)
    → find k r.accounts ≡ some p
    → p < length r.heap
    → is_ok reply ≡ true
    → IsServed k (finish_registration later p reply r).0
unfolding finish_registration note_registered
finish_registration-IsServed later p k reply r f l o =
    let g : Account → Account = λ a. record a {
      is_registered = true;
      expires_at = some (later + r.register_expires);
      last_error = none;
      refresh = some r.next_worker;
    } in
    let (b, d) = view_defined (λ a. a.is_registered) r.heap p l in
    let h = view-update_at (λ a. a.is_registered) r.heap p g (λ x. true) b (λ a. refl) d in
    if_cases (λ (x : Registry × Bool). IsServed k x.0) (is_ok reply) (λ y. (p, f, h))
      (λ n. absurd (ground arith))

finish_registration-ok :
    (later p : ℕ) (reply : Reply) (r : Registry)
    → (finish_registration later p reply r).1 ≡ is_ok reply
unfolding finish_registration
finish_registration-ok later p reply r = ground arith

register_entry-Outcome :
    (later p : ℕ) (k : Text) (reply : Reply) (r : Registry)
    → find k r.accounts ≡ some p
    → p < length r.heap
    → Outcome k (is_true (registered_at r.heap p) || is_ok reply) (register_entry later k reply p r)
unfolding register_entry
register_entry-Outcome later p k reply r f l =
    let (b, d) = view_defined (λ a. a.is_registered) r.heap p l in
    let q = finish_registration-ok later p reply r in
    if_cases (Outcome k (is_true (registered_at r.heap p) || is_ok reply))
      (is_true (registered_at r.heap p)) (λ y. inl (ground arith, refl, (p, f, ground arith)))
      (λ n. elim (Bool-cases (is_ok reply)) [
        | inl o ↦
            (let v = finish_registration-IsServed later p k reply r f l o in
              keyed (finish_registration later p reply r) (q ∙ o) v (ground arith))
        | inr o ↦ unkeyed (finish_registration later p reply r) (q ∙ o) (ground arith)
      ])
  where
    keyed :
        (x : Registry × Bool)
        → x.1 ≡ true
        → IsServed k x.0
        → (is_true (registered_at r.heap p) || is_ok reply) ≡ true
        → Outcome k (is_true (registered_at r.heap p) || is_ok reply) (key_of k x)
    keyed (t, true) e v c = inl (c, refl, v)
    keyed (t, false) e v c = absurd (ground arith)

    unkeyed :
        (x : Registry × Bool)
        → x.1 ≡ false
        → (is_true (registered_at r.heap p) || is_ok reply) ≡ false
        → Outcome k (is_true (registered_at r.heap p) || is_ok reply) (key_of k x)
    unkeyed (t, false) e c = inr (c, refl)
    unkeyed (t, true) e c = absurd (ground arith)

-- Whether the account of a key is there and registered.
abbrev pub is_served : Text → Registry → Bool
is_served k r = elim (find k r.accounts) [
  | none ↦ false
  | some p ↦ is_true (registered_at r.heap p)
]

found_address :
    (k : Text) (p : ℕ) (r : Registry) → IsValid r → find k r.accounts ≡ some p → p < length r.heap
found_address k p r v f =
    view-within (λ a. a.key) r.heap p k
      (find-All (λ x. key_at r.heap x.1 ≡ some x.0) k p r.accounts v.keyed f)

entry_for-Outcome :
    (later : ℕ) (a : Account) (reply : Reply) (r : Registry)
    → IsValid r
    → a.is_registered ≡ false
    → Outcome a.key
        (is_served a.key r || is_ok reply)
        (after_entry later a.key reply (entry_for a (find a.key r.accounts) r))
unfolding entry_for
entry_for-Outcome later a reply r v n = by_entry (find a.key r.accounts) refl
  where
    by_entry :
        (x : Option ℕ)
        → find a.key r.accounts ≡ x
        → Outcome a.key
            (is_served a.key r || is_ok reply)
            (after_entry later a.key reply (entry_for a x r))
    by_entry (some p) e =
        let t = register_entry-Outcome later p a.key reply r e (found_address a.key p r v e) in
        let q : is_true (registered_at r.heap p) ≡ is_served a.key r = ground arith in
        subst (λ b. Outcome a.key (b || is_ok reply) (register_entry later a.key reply p r)) q t
    by_entry none e =
        let m = text_eq_refl a.key in
        let w = view_last (λ b. b.is_registered) r.heap a in
        let s : Registry = (entry_for a none r).0 in
        let t =
          register_entry-Outcome later (length r.heap) a.key reply s (ground arith)
            (omega (arith, length-append r.heap (a ∷ []))) in
        let q : is_true (registered_at s.heap (length r.heap)) ≡ is_served a.key r = ground arith in
        subst
          (λ b.
            Outcome a.key (b || is_ok reply) (register_entry later a.key reply (length r.heap) s))
          q t

-- With room in the map, an acquisition gives the key exactly where its account is registered already or the answer
-- that counts is 200, and the key then leads to a registered account. A full registry refuses every key and stays
-- as it was, also where the account is there.
pub acquire_outcome :
    (literal_ip : Text → Option Bool) (now later : ℕ) (d u w : Text) (port : ℕ)
    (first second : Reply) (r : Registry)
    → IsValid r
    → let k = build_key literal_ip d u port in
      ((length r.accounts < r.max_accounts)
        × Outcome k
            (is_served k r || is_ok (final_reply first second))
            (acquire literal_ip now later d u w port first second r))
      ⊎ ((r.max_accounts ≤ length r.accounts)
          × (acquire literal_ip now later d u w port first second r ≡ (r, none)))
unfolding acquire find_or_create
acquire_outcome literal_ip now later d u w port first second r v =
    let k = build_key literal_ip d u port in
    let reply = final_reply first second in
    let a = new_account literal_ip now d u w port in
    let t = entry_for-Outcome later a reply r v refl in
    if_cases
      (λ x.
        ((length r.accounts < r.max_accounts)
          × Outcome k (is_served k r || is_ok reply) (after_entry later k reply x))
        ⊎ ((r.max_accounts ≤ length r.accounts) × (after_entry later k reply x ≡ (r, none))))
      (leb r.max_accounts (length r.accounts)) (λ full. inr (ground arith, refl))
      (λ room. inl (ground arith, t))
