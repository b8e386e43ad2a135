-- ===== src/Logstore/Conserved.antt =====
-- What becomes of the records of a history (internal/logstore/queue.go).
use webrtc_gateway.Base.{
  ℕ, List, Bool, ◌≡◌, ◌++◌, ◌<◌, is_empty, true, ◌∷◌, length, false, if_elim, ◌≤◌, [], arith, refl,
  ap, All, ◌∙◌, sym, append_assoc, append-nil, leb, if◌then◌else◌, ◌&&◌, ltb, not, Bool-cases, ◌+◌,
  if_cases, length-append, inl, subst, All-append, inr,
}
use webrtc_gateway.Logstore.{Pipeline, flush, Event, log, receive_from, logs, step, receives, run}
use webrtc_gateway.Session.Gate.Events.{stops}
use webrtc_gateway.Logstore.{ticks, stops}

module _ {A : Type 0} where
  abbrev pub flatten : List (List A × Bool) → List A
  flatten [] = []
  flatten ((b, s) ∷ rest) = b ++ flatten rest

  -- The records that went through: inserted, in the batch, or waiting.
  abbrev pub all_of : Pipeline A → List A
  all_of p = flatten p.inserts ++ (p.batch ++ p.queue)

  -- The records of a history that the queue takes.
  abbrev pub taken_by : Event A → Pipeline A → List A
  taken_by (logs e) p = if p.has_pool && ltb (length p.queue) p.capacity then e ∷ [] else []
  taken_by _ p = []

  unfoldable pub taken : List (Event A) → Pipeline A → List A
  taken [] p = []
  taken (e ∷ es) p = taken_by e p ++ taken es (step e p)

  abbrev pub IsBatch : ℕ → List A × Bool → Type 0
  IsBatch size (b, s) = (0 < length b) × (length b ≤ size)

  pub record IsValid (p : Pipeline A) : Type 0 where
    pub sized : 0 < p.batch_size
    pub filling : length p.batch < p.batch_size
    pub waiting : length p.queue ≤ p.capacity
    pub batches : All (IsBatch p.batch_size) p.inserts

  flatten-append : (xs ys : List (List A × Bool)) → flatten (xs ++ ys) ≡ flatten xs ++ flatten ys
  flatten-append [] ys = refl
  flatten-append ((b, s) ∷ rest) ys =
      ap (◌++◌ b) (flatten-append rest ys) ∙ sym (append_assoc b (flatten rest) (flatten ys))

  nonempty : (xs : List A) → is_empty xs ≡ false → 0 < length xs
  nonempty [] h = absurd (ground arith)
  nonempty (x ∷ xs) h = omega arith

  pub empty : (xs : List A) → is_empty xs ≡ true → xs ≡ []
  empty [] h = refl
  empty (x ∷ xs) h = absurd (ground arith)

  abbrev flushed : Bool → Pipeline A → Pipeline A
  flushed s p = record p { inserts = p.inserts ++ (p.batch, s) ∷ []; batch = [] }

  flushed-all_of : (s : Bool) (p : Pipeline A) → all_of (flushed s p) ≡ all_of p
  flushed-all_of s p =
      rw
        (
          flatten-append p.inserts ((p.batch, s) ∷ []),
          append-nil,
          append_assoc (flatten p.inserts) p.batch p.queue,
        )
        refl

  flush-all_of : (s : Bool) (p : Pipeline A) → all_of (flush s p) ≡ all_of p
  unfolding flush
  flush-all_of s p = if_elim (λ q. all_of q ≡ all_of p) (is_empty p.batch) refl (flushed-all_of s p)

  joined-all_of :
      (e : A) (rest : List A) (p : Pipeline A)
      → p.queue ≡ e ∷ rest
      → all_of (record p { queue = rest; batch = p.batch ++ e ∷ [] }) ≡ all_of p
  joined-all_of e rest p h =
      ap (◌++◌ (flatten p.inserts)) (append_assoc p.batch (e ∷ []) rest ∙ ap (◌++◌ p.batch) (sym h))

  receive-all_of :
      (q : List A) (s : Bool) (p : Pipeline A)
      → p.queue ≡ q
      → all_of (receive_from q s p) ≡ all_of p
  unfolding receive_from
  receive-all_of [] s p h = refl
  receive-all_of (e ∷ rest) s p h =
      let j : Pipeline A = record p { queue = rest; batch = p.batch ++ e ∷ [] } in
      let t = joined-all_of e rest p h in
      if_elim (λ q. all_of q ≡ all_of p) (leb p.batch_size (length j.batch)) (flush-all_of s j ∙ t)
        t

  queued-all_of :
      (e : A) (p : Pipeline A)
      → all_of (record p { queue = p.queue ++ e ∷ []; accepted = p.accepted + 1 })
        ≡ all_of p ++ e ∷ []
  queued-all_of e p =
      ap (◌++◌ (flatten p.inserts)) (sym (append_assoc p.batch p.queue (e ∷ [])))
      ∙ sym (append_assoc (flatten p.inserts) (p.batch ++ p.queue) (e ∷ []))

  log-all_of : (e : A) (p : Pipeline A) → all_of (log e p) ≡ all_of p ++ taken_by (logs e) p
  unfolding log
  log-all_of e p =
      let a = queued-all_of e p in
      let b = append-nil (all_of p) in
      elim (Bool-cases p.has_pool) [
        | inl h ↦ elim (Bool-cases (ltb (length p.queue) p.capacity)) [
          | inl l ↦ ground arith
          | inr n ↦ ground arith
        ]
        | inr h ↦ ground arith
      ]

  step-all_of : (e : Event A) (p : Pipeline A) → all_of (step e p) ≡ all_of p ++ taken_by e p
  unfolding step
  step-all_of (logs e) p = log-all_of e p
  step-all_of (receives s) p =
      if_elim (λ q. all_of q ≡ all_of p) p.stopped refl (receive-all_of p.queue s p refl)
      ∙ sym (append-nil (all_of p))
  step-all_of (ticks s) p =
      if_elim (λ q. all_of q ≡ all_of p) p.stopped refl (flush-all_of s p)
      ∙ sym (append-nil (all_of p))
  step-all_of (stops s) p =
      if_elim (λ q. all_of q ≡ all_of p) p.stopped refl (flush-all_of s p)
      ∙ sym (append-nil (all_of p))

  run-all_of : (es : List (Event A)) (p : Pipeline A) → all_of (run es p) ≡ all_of p ++ taken es p
  unfolding run taken
  run-all_of [] p = sym (append-nil (all_of p))
  run-all_of (e ∷ es) p =
      run-all_of es (step e p)
      ∙ ap (λ l. l ++ taken es (step e p)) (step-all_of e p)
      ∙ append_assoc (all_of p) (taken_by e p) (taken es (step e p))

  flush-IsValid :
      (s : Bool) (p : Pipeline A)
      → 0 < p.batch_size
      → length p.batch ≤ p.batch_size
      → length p.queue ≤ p.capacity
      → All (IsBatch p.batch_size) p.inserts
      → IsValid (flush s p)
  unfolding flush
  flush-IsValid s p z l w b =
      if_cases IsValid (is_empty p.batch)
        (λ e. record {
          sized = z;
          filling = subst (λ x. length x < p.batch_size) (sym (empty p.batch e)) z;
          waiting = w;
          batches = b;
        })
        (λ n. record {
          sized = z;
          filling = z;
          waiting = w;
          batches =
              All-append (IsBatch p.batch_size) p.inserts ((p.batch, s) ∷ []) b
                ((nonempty p.batch n, l), tt);
        })

  receive-IsValid :
      (q : List A) (s : Bool) (p : Pipeline A)
      → p.queue ≡ q
      → IsValid p
      → IsValid (receive_from q s p)
  unfolding receive_from
  receive-IsValid [] s p h v = v
  receive-IsValid (e ∷ rest) s p h v =
      let j : Pipeline A = record p { queue = rest; batch = p.batch ++ e ∷ [] } in
      let l = length-append p.batch (e ∷ []) in
      let w : length rest ≤ p.capacity = omega (arith, ap length h, v.waiting) in
      if_cases IsValid (leb p.batch_size (length j.batch))
        (λ full. flush-IsValid s j v.sized (omega (arith, l, v.filling)) w v.batches)
        (λ room. record {
          sized = v.sized;
          filling = ground arith;
          waiting = w;
          batches = v.batches;
        })

  log-IsValid : (e : A) (p : Pipeline A) → IsValid p → IsValid (log e p)
  unfolding log
  log-IsValid e p v = if_elim IsValid (not p.has_pool) v (
      if_cases IsValid (ltb (length p.queue) p.capacity)
        (λ l. record {
          sized = v.sized;
          filling = v.filling;
          waiting = let a = length-append p.queue (e ∷ []) in ground arith;
          batches = v.batches;
        })
        (λ n. record {
          sized = v.sized;
          filling = v.filling;
          waiting = v.waiting;
          batches = v.batches;
        }))

  step-IsValid : (e : Event A) (p : Pipeline A) → IsValid p → IsValid (step e p)
  unfolding step
  step-IsValid (logs e) p v = log-IsValid e p v
  step-IsValid (receives s) p v = if_elim IsValid p.stopped v (receive-IsValid p.queue s p refl v)
  step-IsValid (ticks s) p v =
      if_elim IsValid p.stopped v
        (flush-IsValid s p v.sized (omega (arith, v.filling)) v.waiting v.batches)
  step-IsValid (stops s) p v = if_elim IsValid p.stopped v (
      let w = flush-IsValid s p v.sized (omega (arith, v.filling)) v.waiting v.batches in
      record { sized = w.sized; filling = w.filling; waiting = w.waiting; batches = w.batches })

  pub run-IsValid : (es : List (Event A)) (p : Pipeline A) → IsValid p → IsValid (run es p)
  unfolding run
  run-IsValid [] p v = v
  run-IsValid (e ∷ es) p v = run-IsValid es (step e p) (step-IsValid e p v)

  -- In every history the records that the queue took are, in their order, those of the batches that were inserted or
  -- tried, then those of the batch, then those that wait: none is lost on the way or comes twice. Every batch that was
  -- tried has a record and at most as many as configured, and the queue is never longer than its capacity.
  pub records_conserved :
      (es : List (Event A)) (p : Pipeline A)
      → IsValid p
      → (flatten (run es p).inserts ++ ((run es p).batch ++ (run es p).queue)
          ≡ (flatten p.inserts ++ (p.batch ++ p.queue)) ++ taken es p)
        × IsValid (run es p)
  records_conserved es p v = (run-all_of es p, run-IsValid es p v)
