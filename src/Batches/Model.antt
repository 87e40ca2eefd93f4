-- ===== src/Batches/Model.antt =====
-- The batch writer's state and its operations (shared/store/ch_batch_writer.go). A flush is two
-- steps, since rows may be enqueued while the sink is called.
use rogi_collector.Prelude.{
  ℕ, ◌+◌, ◌*◌, Bool, true, false, ◌&&◌, not, Option, none, some, List, [], ◌∷◌, ◌++◌, length, ltb,
  leb, nat_eq, if◌then◌else◌,
}
use rogi_collector.Journal.Model.{second}

-- BatchWriter. `rows` are those that the running flush holds ([] if there is none), `delivered`
-- those that the sink accepted, in order; `max_pending` 0 is no bound.
pub record BatchWriter (T : Type 0) : Type 0 where
  pub buffer : List T
  pub in_flight : ℕ
  pub rows : List T
  pub delivered : List T
  pub max_batch : ℕ
  pub max_pending : ℕ
  -- a token in flushCh
  pub signalled : Bool
  pub closed : Bool
  pub retry_delay : ℕ
  pub next_retry_at : ℕ
  -- DroppedTotal
  pub dropped : ℕ

unfoldable pub backoff : ℕ → ℕ
backoff delay =
    if nat_eq delay 0
    then second
    else if ltb (30 * second) (delay * 2)
    then 30 * second
    else delay * 2

module _ {T : Type 0} where
  -- newBatchWriter
  unfoldable pub new_batch_writer : ℕ → ℕ → BatchWriter T
  new_batch_writer max_batch max_pending = record {
    buffer = [];
    in_flight = 0;
    rows = [];
    delivered = [];
    max_batch = max_batch;
    max_pending = max_pending;
    signalled = false;
    closed = false;
    retry_delay = 0;
    next_retry_at = 0;
    dropped = 0;
  }

  abbrev pub is_full : BatchWriter T → Bool
  is_full w = ltb 0 w.max_pending && leb w.max_pending (length w.buffer + w.in_flight)

  -- Enqueue
  unfoldable pub enqueue : T → BatchWriter T → BatchWriter T
  enqueue row w =
      if w.closed
      then w
      else if is_full w
      then record w { dropped = w.dropped + 1 }
      else (let buffer' = w.buffer ++ row ∷ [] in
          record w {
            buffer = buffer';
            signalled = if leb w.max_batch (length buffer') then true else w.signalled;
          })

  -- flush up to the call of the sink
  unfoldable pub begin_flush : Bool → ℕ → BatchWriter T → BatchWriter T
  begin_flush force now w =
      if not force && ltb now w.next_retry_at
      then w
      else record w { buffer = []; in_flight = length w.buffer; rows = w.buffer }

  -- flush from the answer of the sink on
  unfoldable pub settle : Bool → ℕ → BatchWriter T → BatchWriter T
  settle true now w = record w {
    delivered = w.delivered ++ w.rows;
    rows = [];
    in_flight = 0;
    retry_delay = 0;
    next_retry_at = 0;
  }
  settle false now w = record w {
    buffer = w.rows ++ w.buffer;
    rows = [];
    in_flight = 0;
    retry_delay = backoff w.retry_delay;
    next_retry_at = now + backoff w.retry_delay;
  }

  -- Close up to its drain
  unfoldable pub close : BatchWriter T → BatchWriter T
  close w = record w { closed = true }

  -- The drain of Close: each attempt has the sink's answer and the time after it. `none` where
  -- the attempts do not reach its end.
  unfoldable pub close_loop : ℕ → List (Bool × ℕ) → BatchWriter T → Option (BatchWriter T)
  close_loop deadline [] w = elim w.buffer [ [] ↦ some w | _ ∷ _ ↦ none ]
  close_loop deadline ((fine, after) ∷ os) w =
      let w' = settle fine after (begin_flush true after w) in
      let rest = close_loop deadline os w' in
      elim w.buffer [
        | [] ↦ some w
        | _ ∷ _ ↦
            if fine
            then rest
            else if ltb deadline after
            then some (record w' { dropped = w'.dropped + length w.buffer })
            else rest
      ]
