-- ===== src/Logstore.antt =====
-- internal/logstore/queue.go with LogEvent and RecordStats of logstore.go: call events and statistics, each through a bounded
-- queue to a worker that inserts them in batches. Both workers are the same but for their records.
pub mod Conserved
pub mod Stopped
pub mod Tests
use webrtc_gateway.Base.{
  List, if◌then◌else◌, Bool, true, ◌∷◌, ℕ, is_empty, not, ltb, ◌++◌, [], length, leb, ◌+◌,
}

module _ (A : Type 0) where
  -- A queue, its worker, and what went to the database: each batch in its order, and whether the insert succeeded.
  pub record Pipeline : Type 0 where
    pub has_pool : Bool
    pub queue : List A
    pub capacity : ℕ
    pub batch : List A
    pub batch_size : ℕ
    pub inserts : List (List A × Bool)
    pub accepted : ℕ
    pub dropped : ℕ
    pub stopped : Bool

  -- What can happen: a caller logs, and the worker takes one of the ready cases of its select. After its stop the
  -- worker does nothing.
  pub data Event : Type 0 where
    logs : A → Event
    receives ticks stops : (succeeds : Bool) → Event

module _ {A : Type 0} where
  -- LogEvent and RecordStats, which never wait.
  unfoldable pub log : A → Pipeline A → Pipeline A
  log e p =
      if not p.has_pool
      then p
      else if ltb (length p.queue) p.capacity
      then record p { queue = p.queue ++ e ∷ []; accepted = p.accepted + 1 }
      else record p { dropped = p.dropped + 1 }

  -- `flush` of a worker: the batch is empty afterwards, also where the insert fails.
  unfoldable pub flush : Bool → Pipeline A → Pipeline A
  flush succeeds p =
      if is_empty p.batch
      then p
      else record p { inserts = p.inserts ++ (p.batch, succeeds) ∷ []; batch = [] }

  -- A record that is received joins the batch, which is inserted once it is full.
  unfoldable pub receive_from : List A → Bool → Pipeline A → Pipeline A
  receive_from [] succeeds p = p
  receive_from (e ∷ rest) succeeds p =
      let q = record p { queue = rest; batch = p.batch ++ e ∷ [] } in
      if leb q.batch_size (length q.batch) then flush succeeds q else q

  unfoldable pub step : Event A → Pipeline A → Pipeline A
  step (logs e) p = log e p
  step (receives succeeds) p = if p.stopped then p else receive_from p.queue succeeds p
  step (ticks succeeds) p = if p.stopped then p else flush succeeds p
  step (stops succeeds) p = if p.stopped then p else record (flush succeeds p) { stopped = true }

  unfoldable pub run : List (Event A) → Pipeline A → Pipeline A
  run [] p = p
  run (e ∷ es) p = run es (step e p)
