-- ===== src/Batches/Safety.antt =====
-- Every history of the batch writer (shared/store/ch_batch_writer.go), enqueuing during flushes.
use mathlib.Core.List.{append-nil, append_assoc}
use rogi_collector.Prelude.{
  ℕ, ◌+◌, ◌*◌, ◌≤◌, ◌≡◌, refl, ap, subst, ◌⊎◌, inl, inr, Bool, true, false, ◌&&◌, not, List, [],
  ◌∷◌, ◌++◌, length, length-append, arith, ltb, leb, Bool-cases,
}
use rogi_collector.Journal.Model.{second}
use rogi_collector.Batches.Model.{
  BatchWriter, new_batch_writer, is_full, enqueue, begin_flush, backoff, settle, close,
}

backoff-le : (d : ℕ) → backoff d ≤ 30 * second
unfolding backoff
backoff-le d = ground arith

fits :
    (b r b' n : ℕ)
    → (n ≡ 0) ⊎ (b + r ≤ n)
    → b' ≡ b + 1
    → (ltb 0 n && leb n (b + r)) ≡ false
    → (n ≡ 0) ⊎ (b' + r ≤ n)
fits b r b' n (inl none_set) more room = inl none_set
fits b r b' n (inr within) more room = ground arith

module _ {T : Type 0} where
  -- A history: the rows that Enqueue took so far, and the writer. A flush begins only where none
  -- is running; the sink answers only a running one.
  pub data Run (max_batch max_pending : ℕ) : List T → BatchWriter T → Type 0 where
    new : Run max_batch max_pending [] (new_batch_writer max_batch max_pending)
    accept :
        {taken : List T} {w : BatchWriter T} (row : T)
        → Run max_batch max_pending taken w
        → (not w.closed && not (is_full w)) ≡ true
        → Run max_batch max_pending (taken ++ row ∷ []) (enqueue row w)
    refuse :
        {taken : List T} {w : BatchWriter T} (row : T)
        → Run max_batch max_pending taken w
        → (not w.closed && not (is_full w)) ≡ false
        → Run max_batch max_pending taken (enqueue row w)
    begin :
        {taken : List T} {w : BatchWriter T} (force : Bool) (now : ℕ)
        → Run max_batch max_pending taken w
        → w.rows ≡ []
        → Run max_batch max_pending taken (begin_flush force now w)
    answer :
        {taken : List T} {w : BatchWriter T} (fine : Bool) (now : ℕ)
        → Run max_batch max_pending taken w
        → Run max_batch max_pending taken (settle fine now w)
    closing :
        {taken : List T} {w : BatchWriter T}
        → Run max_batch max_pending taken w
        → Run max_batch max_pending taken (close w)

  pub record IsSafe (max_pending : ℕ) (taken : List T) (w : BatchWriter T) : Type 0 where
    pub lossless : taken ≡ w.delivered ++ (w.rows ++ w.buffer)
    pub counted : w.in_flight ≡ length w.rows
    pub cap : w.max_pending ≡ max_pending
    pub bounded : (max_pending ≡ 0) ⊎ (length w.buffer + length w.rows ≤ max_pending)
    pub patient : w.retry_delay ≤ 30 * second

  accept-IsSafe :
      (n : ℕ) (taken : List T) (w : BatchWriter T) (row : T)
      → (not w.closed && not (is_full w)) ≡ true
      → IsSafe n taken w
      → IsSafe n (taken ++ row ∷ []) (enqueue row w)
  unfolding enqueue
  accept-IsSafe n taken w row open_w s =
      let live : w.closed ≡ false = ground arith in
      let room : is_full w ≡ false = ground arith in
      let still : (n ≡ 0) ⊎ (length (w.buffer ++ row ∷ []) + length w.rows ≤ n) =
        fits (length w.buffer) (length w.rows) (length (w.buffer ++ row ∷ [])) n s.bounded
          (length-append w.buffer (row ∷ []))
          (subst (λ m. (ltb 0 m && leb m (length w.buffer + length w.rows)) ≡ false) s.cap
            (subst (λ m. (ltb 0 w.max_pending && leb w.max_pending (length w.buffer + m)) ≡ false)
              s.counted room)) in
      rw (enqueue, live, room)
        (record {
          lossless = simp (s.lossless, append_assoc);
          counted = s.counted;
          cap = s.cap;
          bounded = still;
          patient = s.patient;
        })

  refuse-IsSafe :
      (n : ℕ) (taken : List T) (w : BatchWriter T) (row : T)
      → (not w.closed && not (is_full w)) ≡ false
      → IsSafe n taken w
      → IsSafe n taken (enqueue row w)
  unfolding enqueue
  refuse-IsSafe n taken w row full s = elim (Bool-cases w.closed) [
    | inl over ↦
        rw (enqueue, over)
          (record {
            lossless = s.lossless;
            counted = s.counted;
            cap = s.cap;
            bounded = s.bounded;
            patient = s.patient;
          })
    | inr live ↦
        let no_room : is_full w ≡ true = ground arith in
        rw (enqueue, live, no_room)
          (record {
            lossless = s.lossless;
            counted = s.counted;
            cap = s.cap;
            bounded = s.bounded;
            patient = s.patient;
          })
  ]

  begin-IsSafe :
      (n : ℕ) (taken : List T) (w : BatchWriter T) (force : Bool) (now : ℕ)
      → w.rows ≡ []
      → IsSafe n taken w
      → IsSafe n taken (begin_flush force now w)
  unfolding begin_flush
  begin-IsSafe n taken w force now idle s =
      elim (Bool-cases (not force && ltb now w.next_retry_at)) [
        | inl early ↦ rw (begin_flush, early) s
        | inr due ↦
            let gone : length w.rows ≡ 0 = ap length idle in
            let idle_bound : (n ≡ 0) ⊎ (0 + length w.buffer ≤ n) = ground (arith, s.bounded) in
            rw (begin_flush, due)
              (record {
                lossless = simp (s.lossless, idle, append-nil);
                counted = refl;
                cap = s.cap;
                bounded = idle_bound;
                patient = s.patient;
              })
      ]

  settle-IsSafe :
      (n : ℕ) (taken : List T) (w : BatchWriter T) (fine : Bool) (now : ℕ)
      → IsSafe n taken w
      → IsSafe n taken (settle fine now w)
  unfolding settle
  settle-IsSafe n taken w true now s = record {
    lossless = simp (s.lossless, append_assoc);
    counted = refl;
    cap = s.cap;
    bounded = ground (arith, s.bounded);
    patient = omega arith;
  }
  settle-IsSafe n taken w false now s = record {
    lossless = s.lossless;
    counted = refl;
    cap = s.cap;
    bounded = ground (arith, s.bounded, length-append w.rows w.buffer);
    patient = backoff-le w.retry_delay;
  }

  -- In every history of a new writer, with rows enqueued during flushes and any answers of the
  -- sink: the rows that Enqueue took are, in order and each once, those that the sink accepted,
  -- those that the running flush holds and those that wait; where a bound is set the last two
  -- together are within it; and the delay before a retry is at most 30 seconds.
  pub Run-IsSafe :
      {max_batch max_pending : ℕ} {taken : List T} {w : BatchWriter T}
      → Run max_batch max_pending taken w
      → IsSafe max_pending taken w
  unfolding new_batch_writer close
  Run-IsSafe {max_pending = n} new = record {
    lossless = refl;
    counted = refl;
    cap = refl;
    bounded = inr (omega arith);
    patient = omega arith;
  }
  Run-IsSafe {max_pending = n} (accept {taken} {w} row r h) =
      accept-IsSafe n taken w row h (Run-IsSafe r)
  Run-IsSafe {max_pending = n} (refuse {taken} {w} row r h) =
      refuse-IsSafe n taken w row h (Run-IsSafe r)
  Run-IsSafe {max_pending = n} (begin {taken} {w} force now r h) =
      begin-IsSafe n taken w force now h (Run-IsSafe r)
  Run-IsSafe {max_pending = n} (answer {taken} {w} fine now r) =
      settle-IsSafe n taken w fine now (Run-IsSafe r)
  Run-IsSafe {max_pending = n} (closing r) =
      let s = Run-IsSafe r in
      record {
        lossless = s.lossless;
        counted = s.counted;
        cap = s.cap;
        bounded = s.bounded;
        patient = s.patient;
      }
