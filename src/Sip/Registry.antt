-- ===== src/Sip/Registry.antt =====
-- internal/sip/public_registry.go: the accounts that public calls register with. An account is shared between the map, its
-- refresh worker and the registrations under way, so that the map holds addresses. A function is what one lock does; registerAccount takes the lock of
-- the account twice in a row.
pub mod Events
pub mod Valid
pub mod Steps
pub mod Counting
pub mod InUse
pub mod Acquire
pub mod Tests
use webrtc_gateway.Base.{
  if◌then◌else◌, Bool, List, some, Option, ℕ, ◌++◌, leb, not, ◌==◌, none, keep_if, false, ◌∷◌, ◌+◌,
  length, ◌!=◌, true, ◌-◌, ◌||◌, ◌&&◌, map, ltb, [],
}
use webrtc_gateway.Text.{Text, strip_last, codes}
use webrtc_gateway.Sip.Trunk.Registrar.{update}
use webrtc_gateway.Session.Call.Midcall.{decimal}
use webrtc_gateway.Store.{view, find, update_at}
use webrtc_gateway.Sip.Trunk.{any}
use webrtc_gateway.Session.Normalizer.{positive}

-- The last answer of the registrar, or why there is none; the second number is the status.
pub data Reply : Type 0 where
  not_sent : Reply
  failed : Text → Reply
  status : ℕ → Reply

-- PublicAccount. `refresh` is the worker that RefreshCancel stops, and the text of LastError is that of an answer.
pub record Account : Type 0 where
  pub key : Text
  pub domain : Text
  pub port : ℕ
  pub username : Text
  pub password : Text
  pub is_registered : Bool
  pub ref_count : ℕ
  pub last_used : ℕ
  pub expires_at : Option ℕ
  pub refresh : Option ℕ
  pub last_error : Option Reply

-- PublicAccountRegistry: the accounts by their addresses, the map, and the refresh workers that run, each with the
-- account it refreshes. Configured numbers that are not positive are 0.
pub record Registry : Type 0 where
  pub heap : List Account
  pub accounts : List (Text × ℕ)
  pub running : List (ℕ × ℕ)
  pub next_worker : ℕ
  pub max_accounts : ℕ
  pub idle_ttl : ℕ
  pub register_expires : ℕ

-- The entry that is there, or a new one for the account.
unfoldable pub entry_for : Account → Option ℕ → Registry → Registry × Option ℕ
entry_for a (some p) r = (r, some p)
entry_for a none r = (
  record r { heap = r.heap ++ a ∷ []; accounts = (a.key, length r.heap) ∷ r.accounts },
  some (length r.heap),
)

-- Of a domain that is a literal IP address (net.ParseIP): whether it is one of version 6.
module _ (literal_ip : Text → Option Bool) where
  -- buildPublicAccountKey
  unfoldable pub build_key : Text → Text → ℕ → Text
  build_key domain username port =
      let named = username ++ b'@' ∷ domain in
      elim (literal_ip domain) [
        | none ↦ named
        | some v6 ↦
            if port == 0
            then named
            else if v6
            then username ++ codes "@[" ++ domain ++ codes "]:" ++ decimal 20 port []
            else named ++ b':' ∷ decimal 20 port []
      ]

  -- trimTrailingDot
  unfoldable pub trim_dot : Text → Text
  trim_dot s = elim (strip_last b'.' s) [ none ↦ s | some t ↦ t ]

  -- resolveSIPDestination, of the first SRV record for the domain, if there is one.
  unfoldable pub resolve_destination : Text → ℕ → Option (Text × ℕ) → Text
  resolve_destination domain port record_found = elim (literal_ip domain) [
    | some v6 ↦
        (let dialled = decimal 20 (positive port 5060) [] in
          if v6 then b'[' ∷ domain ++ codes "]:" ++ dialled else domain ++ b':' ∷ dialled)
    | none ↦ if port != 0 then domain ++ b':' ∷ decimal 20 port [] else elim record_found [
      | none ↦ domain ++ codes ":5060"
      | some (target, srv_port) ↦ trim_dot target ++ b':' ∷ decimal 20 srv_port []
    ]
  ]

  abbrev pub new_account : (now : ℕ) → (domain username password : Text) → ℕ → Account
  new_account now domain username password port = record {
    key = build_key domain username port;
    domain = domain;
    port = port;
    username = username;
    password = password;
    is_registered = false;
    ref_count = 0;
    last_used = now;
    expires_at = none;
    refresh = none;
    last_error = none;
  }

  -- The lock of AcquireAndRegister: the address of the account, which is created where it is missing, or `none`
  -- where the registry is full.
  unfoldable pub find_or_create :
      (now : ℕ) → (domain username password : Text) → ℕ → Registry → Registry × Option ℕ
  find_or_create now domain username password port r =
      if leb r.max_accounts (length r.accounts)
      then (r, none)
      else entry_for (new_account now domain username password port)
          (find (build_key domain username port) r.accounts) r

abbrev pub on_account : ℕ → (Account → Account) → Registry → Registry
on_account p f r = record r { heap = update_at r.heap p f }

-- The answer that counts: after a demand for authentication, the second one.
abbrev pub final_reply : Reply → Reply → Reply
final_reply (status n) second = if (n == 401) || (n == 407) then second else status n
final_reply first second = first

abbrev pub is_ok : Reply → Bool
is_ok (status n) = n == 200
is_ok _ = false

abbrev pub note_error : Reply → Account → Account
note_error not_sent a = a
note_error reply a = record a { last_error = some reply }

-- What a worker that is cancelled leaves running.
abbrev pub stop_worker : Option ℕ → List (ℕ × ℕ) → List (ℕ × ℕ)
stop_worker none running = running
stop_worker (some w) running = keep_if (λ x. x.0 != w) running

abbrev pub worker_in : Option (Option ℕ) → Option ℕ
worker_in none = none
worker_in (some w) = w

abbrev pub worker_of : ℕ → Registry → Option ℕ
worker_of p r = worker_in (view (λ a. a.refresh) r.heap p)

-- A registration that succeeds replaces the refresh worker of the account.
unfoldable pub note_registered : (now p : ℕ) → Registry → Registry
note_registered now p r =
    record (on_account p
      (λ a. record a {
        is_registered = true;
        expires_at = some (now + r.register_expires);
        last_error = none;
        refresh = some r.next_worker;
      })
      r) {
        running = (r.next_worker, p) ∷ stop_worker (worker_of p r) r.running;
        next_worker = r.next_worker + 1;
      }

-- The end of registerAccount, after the answer of the registrar: whether it succeeds.
unfoldable pub finish_registration : (now p : ℕ) → Reply → Registry → Registry × Bool
finish_registration now p reply r =
    if is_ok reply
    then (note_registered now p r, true)
    else (on_account p (note_error reply) r, false)

-- A tick of refreshWorker, which does nothing once it is stopped.
unfoldable pub refresh_tick : (now worker p : ℕ) → Reply → Registry → Registry
refresh_tick now worker p reply r =
    if not (any (λ x. (x.0 == worker) && (x.1 == p)) r.running)
    then r
    else if is_ok reply
    then on_account p
        (λ a. record a { expires_at = some (now + r.register_expires); last_error = none }) r
    else elim reply [ failed e ↦ on_account p (note_error (failed e)) r | _ ↦ r ]

abbrev pub on_entry : Option ℕ → (Account → Account) → Registry → Registry
on_entry none f r = r
on_entry (some p) f r = on_account p f r

-- IncrementRefCount
unfoldable pub increment : ℕ → Text → Registry → Registry
increment now k r =
    on_entry (find k r.accounts) (λ a. record a { ref_count = a.ref_count + 1; last_used = now }) r

-- DecrementRefCount
unfoldable pub decrement : ℕ → Text → Registry → Registry
decrement now k r =
    on_entry (find k r.accounts) (λ a. record a { ref_count = a.ref_count - 1; last_used = now }) r

-- The test of cleanup for an account that is not in use.
abbrev pub is_idle : ℕ → ℕ → Account → Bool
is_idle now ttl a = (a.ref_count == 0) && ltb (a.last_used + ttl) now

abbrev pub keeps_entry : ℕ → Registry → Text × ℕ → Bool
keeps_entry now r e = elim (view (is_idle now r.idle_ttl) r.heap e.1) [
  | some true ↦ false
  | _ ↦ true
]

-- The lock of cleanup, with the addresses of the accounts that are to be unregistered.
unfoldable pub cleanup : ℕ → Registry → Registry × List ℕ
cleanup now r = (
  record r { accounts = keep_if (keeps_entry now r) r.accounts },
  map (λ e. e.1) (keep_if (λ e. not (keeps_entry now r e)) r.accounts),
)

-- The start of unregisterAccount, which stops the refresh, and whether the account was registered.
unfoldable pub begin_unregister : ℕ → Registry → Registry × Bool
begin_unregister p r = (
  record (on_account p (λ a. record a { refresh = none }) r) {
    running = stop_worker (worker_of p r) r.running;
  },
  elim (view (λ a. a.is_registered) r.heap p) [ none ↦ false | some b ↦ b ],
)

-- Its end, after any answer.
unfoldable pub end_unregister : ℕ → Registry → Registry
end_unregister p r = on_account p (λ a. record a { is_registered = false }) r
