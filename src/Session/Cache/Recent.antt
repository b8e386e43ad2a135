-- ===== src/Session/Cache/Recent.antt =====
-- What internal/session/rtp_cache.go finds again: a packet is found until another takes its place in the ring.
use native.Mathlib.Nat.{mod-lt, mod-eq_of_lt}
use webrtc_gateway.Base.{
  ℕ, arith, Bool, true, false, [], ◌∷◌, refl, some, List, ◌<◌, length-repeat, ◌^◌, ◌%◌, is_empty,
  ◌≡◌, u16, ◌≢◌, length, get_or-set, get_or-set_other, length-set, if_elim, ◌||◌, ◌==◌, ◌∙◌, subst,
  ◌+◌, ◌≤◌, sym, ap, length-append,
}
use webrtc_gateway.Session.Cache.{
  store, Cache, init_history, cached, history_size, resend_seqs, retransmit, resend_pairs, NackPair,
  requested,
}

pub record IsValid (c : Cache) : Type 0 where
  pub size_some : 0 < c.size
  pub size_word : c.size < 2 ^ 16
  pub packets_size : length c.packets ≡ c.size
  pub seqs_size : length c.stored_seq ≡ c.size

pub init_history-IsValid : IsValid init_history
unfolding init_history
init_history-IsValid = record {
  size_some = omega arith;
  size_word = omega arith;
  packets_size = length-repeat {A = List ℕ} history_size [];
  seqs_size = length-repeat {A = ℕ} history_size 0;
}

pub store-IsValid : (seq : ℕ) (bytes : List ℕ) (c : Cache) → IsValid c → IsValid (store seq bytes c)
unfolding store
store-IsValid seq bytes c v =
    let index = seq % u16 c.size in
    let a = length-set c.packets index bytes in
    let b = length-set c.stored_seq index seq in
    if_elim IsValid (is_empty bytes || (c.size == 0)) v (record {
      size_some = v.size_some;
      size_word = v.size_word;
      packets_size = a ∙ v.packets_size;
      seqs_size = b ∙ v.seqs_size;
    })

index-lt : (seq : ℕ) (c : Cache) → IsValid c → seq % u16 c.size < c.size
index-lt seq c v =
    subst (λ x. seq % x < c.size) (sym (mod-eq_of_lt v.size_word)) (mod-lt seq v.size_some)

cached-store :
    (seq : ℕ) (bytes : List ℕ) (c : Cache)
    → IsValid c
    → is_empty bytes ≡ false
    → cached seq (store seq bytes c) ≡ some bytes
unfolding cached store
cached-store seq bytes c v e =
    let index = seq % u16 c.size in
    let l = index-lt seq c v in
    let a = get_or-set c.packets index bytes [] in
    let b = get_or-set c.stored_seq index seq 0 in ground arith

cached-store_other :
    (seq other : ℕ) (bytes : List ℕ) (c : Cache)
    → IsValid c
    → seq % u16 c.size ≢ other % u16 c.size
    → cached seq (store other bytes c) ≡ cached seq c
unfolding cached store
cached-store_other seq other bytes c v n =
    let a = get_or-set_other c.packets (other % u16 c.size) (seq % u16 c.size) bytes [] in
    let b = get_or-set_other c.stored_seq (other % u16 c.size) (seq % u16 c.size) other 0 in
    ground arith

store-size : (seq : ℕ) (bytes : List ℕ) (c : Cache) → (store seq bytes c).size ≡ c.size
unfolding store
store-size seq bytes c = ground arith

-- Packets stored one after the other, with the number of the first.
unfoldable pub store_from : ℕ → List (List ℕ) → Cache → Cache
store_from seq [] c = c
store_from seq (b ∷ bs) c = store_from (u16 (seq + 1)) bs (store seq b c)

store_from-keeps :
    (seq k : ℕ) (later : List (List ℕ)) (c : Cache)
    → IsValid c
    → c.size ≡ history_size
    → 1 ≤ k
    → k + length later ≤ history_size
    → cached seq (store_from (u16 (seq + k)) later c) ≡ cached seq c
unfolding store_from
store_from-keeps seq k [] c v e l m = refl
store_from-keeps seq k (b ∷ bs) c v e l m =
    let next = u16 (seq + k) in
    let d = store next b c in
    let apart : seq % 1024 ≢ next % 1024 = λ h. ground arith in
    let size : u16 c.size ≡ 1024 = ground arith in
    let first =
      cached-store_other seq next b c v (subst (λ x. seq % x ≢ next % x) (sym size) apart) in
    let follows : u16 (next + 1) ≡ u16 (seq + (k + 1)) = omega arith in
    let rest =
      store_from-keeps seq (k + 1) bs d (store-IsValid next b c v) (store-size next b c ∙ e)
        (omega arith) (omega arith) in
    ap (λ x. cached seq (store_from x bs d)) follows ∙ rest ∙ first

-- A packet is found for retransmission, with its own bytes, while fewer than 1024 packets of the following numbers were
-- stored after it, around the end of the numbers too and whatever was stored before.
pub recent_found :
    (seq : ℕ) (bytes : List ℕ) (later : List (List ℕ)) (c : Cache)
    → IsValid c
    → c.size ≡ history_size
    → is_empty bytes ≡ false
    → length later < history_size
    → cached seq (store_from (u16 (seq + 1)) later (store seq bytes c)) ≡ some bytes
recent_found seq bytes later c v e b l =
    store_from-keeps seq 1 later (store seq bytes c) (store-IsValid seq bytes c v)
      (store-size seq bytes c ∙ e) (omega arith) (omega arith)
    ∙ cached-store seq bytes c v b

-- How many numbers the pairs of a NACK ask for.
pub total : List NackPair → ℕ
total [] = 0
total (pair ∷ pairs) = length (requested pair) + total pairs

module _ (write_succeeds : List ℕ → Bool) where
  resend_seqs-total :
      (seqs : List ℕ) (c : Cache)
      → let r = resend_seqs write_succeeds seqs c in
        (r.sent + r.missing ≡ length seqs) × (r.sent ≤ length r.written)
  unfolding resend_seqs
  resend_seqs-total [] c = (refl, omega arith)
  resend_seqs-total (s ∷ ss) c = let i = resend_seqs-total ss c in ground arith

  resend_pairs-total :
      (pairs : List NackPair) (c : Cache)
      → let r = resend_pairs write_succeeds pairs c in
        (r.sent + r.missing ≡ total pairs) × (r.sent ≤ length r.written)
  unfolding resend_pairs total
  resend_pairs-total [] c = (refl, omega arith)
  resend_pairs-total (pair ∷ pairs) c =
      let (a, b) = resend_seqs-total (requested pair) c in
      let (d, e) = resend_pairs-total pairs c in
      let l =
        length-append (resend_seqs write_succeeds (requested pair) c).written
          (resend_pairs write_succeeds pairs c).written in
      (omega arith, omega arith)

  -- With a video track every number that a NACK asks for is counted once, as sent or as missing, and a packet is counted as
  -- sent only when it was written.
  retransmit-total :
      (pairs : List NackPair) (c : Cache)
      → is_empty pairs ≡ false
      → let r = retransmit write_succeeds true pairs c in
        (r.sent + r.missing ≡ total pairs) × (r.sent ≤ length r.written)
  unfolding retransmit
  retransmit-total pairs c e = let i = resend_pairs-total pairs c in rw e i
