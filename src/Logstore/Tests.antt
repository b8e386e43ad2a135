-- ===== src/Logstore/Tests.antt =====
-- Runs of the batch workers (internal/logstore/queue.go).
use webrtc_gateway.Logstore.{
  ticks, stops, step, run, Pipeline, log, receives, flush, Event, logs, receive_from,
}
use webrtc_gateway.Logstore.Conserved.{IsValid, flatten, taken, records_conserved}
use webrtc_gateway.Base.{List, ◌++◌, ℕ, true, arith, ◌∷◌, ◌≡◌, [], false, refl}
use webrtc_gateway.Logstore.Stopped.{stop_abandons_queue}

abbrev fresh : Pipeline ℕ
fresh = record {
  has_pool = true;
  queue = [];
  capacity = 3;
  batch = [];
  batch_size = 2;
  inserts = [];
  accepted = 0;
  dropped = 0;
  stopped = false;
}

fresh-IsValid : IsValid fresh
fresh-IsValid = record {
  sized = omega arith;
  filling = omega arith;
  waiting = omega arith;
  batches = tt;
}

-- The queue takes three of the first four records; a failed insert drops its batch.
abbrev morning : List (Event ℕ)
morning =
    logs 1
    ∷ logs 2
    ∷ logs 3
    ∷ logs 4
    ∷ receives true
    ∷ receives false
    ∷ receives true
    ∷ ticks true
    ∷ ticks true
    ∷ logs 5
    ∷ []

morning-run :
    ((run morning fresh).inserts ≡ (1 ∷ 2 ∷ [], false) ∷ (3 ∷ [], true) ∷ [])
    × ((run morning fresh).queue ≡ 5 ∷ [])
    × ((run morning fresh).dropped ≡ 1)
unfolding run step log flush receive_from
morning-run = (refl, refl, refl)

records_conserved_example :
    (flatten (run morning fresh).inserts ++ ((run morning fresh).batch ++ (run morning fresh).queue)
      ≡ (flatten fresh.inserts ++ (fresh.batch ++ fresh.queue)) ++ taken morning fresh)
    × IsValid (run morning fresh)
records_conserved_example = records_conserved morning fresh fresh-IsValid

running : (run morning fresh).stopped ≡ false
unfolding run step log flush receive_from
running = refl

stop_abandons_queue_example :
    let p = run morning fresh in
    let q = run (receives true ∷ logs 6 ∷ []) (step (stops true) p) in
    (q.inserts ≡ (flush true p).inserts)
    × (q.batch ≡ [])
    × (q.queue ≡ p.queue ++ taken (receives true ∷ logs 6 ∷ []) (step (stops true) p))
stop_abandons_queue_example =
    stop_abandons_queue true (receives true ∷ logs 6 ∷ []) (run morning fresh) running
