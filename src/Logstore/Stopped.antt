-- ===== src/Logstore/Stopped.antt =====
-- What the stop of a worker leaves behind (internal/logstore/queue.go).
use webrtc_gateway.Base.{
  ◌∷◌, Bool, ◌≡◌, List, false, ◌++◌, true, sym, [], append-nil, ◌∙◌, arith, ap, append_assoc, subst,
  refl,
}
use webrtc_gateway.Logstore.{ticks, stops, step, run, flush, log, Pipeline, Event, receives, logs}
use webrtc_gateway.Logstore.Conserved.{taken, taken_by, empty}

module _ {A : Type 0} where
  log_frozen :
      (e : A) (p : Pipeline A)
      → ((log e p).inserts ≡ p.inserts)
        × ((log e p).batch ≡ p.batch)
        × ((log e p).queue ≡ p.queue ++ taken_by (logs e) p)
        × ((log e p).stopped ≡ p.stopped)
  unfolding log
  log_frozen e p = let b = append-nil p.queue in ground arith

  worker_frozen :
      (s : Bool) (p : Pipeline A)
      → p.stopped ≡ true
      → (step (receives s) p ≡ p) × (step (ticks s) p ≡ p) × (step (stops s) p ≡ p)
  unfolding step
  worker_frozen s p h = (ground arith, ground arith, ground arith)

  -- What a worker leaves as it is once it has stopped.
  abbrev Frozen : Pipeline A → List A → Pipeline A → Type 0
  Frozen p more q = (q.inserts ≡ p.inserts) × (q.batch ≡ p.batch) × (q.queue ≡ p.queue ++ more)

  stopped-run :
      (es : List (Event A)) (p : Pipeline A) → p.stopped ≡ true → Frozen p (taken es p) (run es p)
  unfolding run taken step log
  stopped-run [] p h = (refl, refl, sym (append-nil p.queue))
  stopped-run (logs e ∷ es) p h =
      let (i, j, k, l) = log_frozen e p in
      let (a, b, c) = stopped-run es (log e p) (l ∙ h) in
      (
        a ∙ i,
        b ∙ j,
        c
            ∙ ap (λ x. x ++ taken es (log e p)) k
            ∙ append_assoc p.queue (taken_by (logs e) p) (taken es (log e p)),
      )
  stopped-run (receives s ∷ es) p h =
      subst (λ q. Frozen p (taken es q) (run es q)) (sym (worker_frozen s p h).0)
        (stopped-run es p h)
  stopped-run (ticks s ∷ es) p h =
      subst (λ q. Frozen p (taken es q) (run es q)) (sym (worker_frozen s p h).1)
        (stopped-run es p h)
  stopped-run (stops s ∷ es) p h =
      subst (λ q. Frozen p (taken es q) (run es q)) (sym (worker_frozen s p h).2)
        (stopped-run es p h)

  stop_frozen :
      (s : Bool) (p : Pipeline A)
      → p.stopped ≡ false
      → ((step (stops s) p).stopped ≡ true)
        × ((step (stops s) p).inserts ≡ (flush s p).inserts)
        × ((step (stops s) p).batch ≡ [])
        × ((step (stops s) p).queue ≡ p.queue)
  unfolding step flush
  stop_frozen s p h = let t = empty p.batch in ground arith

  -- A stop inserts the batch and nothing of the queue: whatever follows it, no record is inserted any more, those that
  -- waited then still wait, and the records that are logged after it wait behind them.
  pub stop_abandons_queue :
      (s : Bool) (es : List (Event A)) (p : Pipeline A)
      → p.stopped ≡ false
      → let q = run es (step (stops s) p) in
        (q.inserts ≡ (flush s p).inserts)
        × (q.batch ≡ [])
        × (q.queue ≡ p.queue ++ taken es (step (stops s) p))
  stop_abandons_queue s es p h =
      let (t, i, b, u) = stop_frozen s p h in
      let (x, y, z) = stopped-run es (step (stops s) p) t in
      (x ∙ i, y ∙ b, z ∙ ap (λ l. l ++ taken es (step (stops s) p)) u)
