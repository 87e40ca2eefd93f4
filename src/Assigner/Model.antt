-- ===== src/Assigner/Model.antt =====
-- The assigner's loops (coordinator/internal/assigner.go) and a worker's load
-- (shared/model/worker.go). A map of workers is the list of its entries in the order in which one
-- range visits them. Logging and metrics are left out.
use rogi_collector.Prelude.{
  ℕ, ◌+◌, String, Bool, true, false, Option, none, some, List, [], ◌∷◌, ltb, leb, ◌==◌,
  if◌then◌else◌, update_where, Result, ok, err, ◌>>=◌,
}

-- The float64 operations that the code uses.
pub record Floats (F : Type 0) : Type 0 where
  pub zero : F
  pub one : F
  pub of_int : ℕ → F
  pub div : F → F → F
  pub lt : F → F → Bool
  pub ge : F → F → Bool

pub record WorkerLoad (F : Type 0) : Type 0 where
  pub worker_id : String
  pub connections : ℕ
  pub msg_per_sec : F
  pub max_conn : ℕ
  pub max_msg_per_sec : F

-- A channel, as far as the loops read it.
pub record LiveChannel : Type 0 where
  pub id : ℕ
  pub platform : String
  pub channel_id : String
  pub worker_id : Option String
  pub handoff_from : Option String

-- A connect command, with the worker that it is published to.
pub record WorkerCommand : Type 0 where
  pub to : String
  pub platform : String
  pub channel_id : String

-- The store's operations that the loops call; their errors are texts.
pub record ChannelStore (S : Type 0) : Type 0 where
  pub list_pending : ℕ → S → Result String (List LiveChannel)
  pub list_draining : S → Result String (List LiveChannel)
  pub list_stuck : ℕ → S → Result String (List LiveChannel)
  pub assign : ℕ → String → S → Result String S
  pub reassign : ℕ → String → String → S → Result String (Bool × S)

abbrev pub or_empty : Option String → String
or_empty none = ""
or_empty (some s) = s

-- assigned >= a.batchSize
abbrev pub batch_done : Option ℕ → ℕ → Bool
batch_done none assigned = false
batch_done (some b) assigned = leb b assigned

abbrev pub connect : String → LiveChannel → WorkerCommand
connect worker ch = record { to = worker; platform = ch.platform; channel_id = ch.channel_id }

module _ {F : Type 0} (fl : Floats F) where
  -- WorkerLoad.Load
  unfoldable pub load : WorkerLoad F → F
  load w =
      let conn_ratio =
        if ltb 0 w.max_conn
        then fl.div (fl.of_int w.connections) (fl.of_int w.max_conn)
        else fl.zero in
      let msg_ratio =
        if fl.lt fl.zero w.max_msg_per_sec
        then fl.div w.msg_per_sec w.max_msg_per_sec
        else fl.zero in
      if fl.lt msg_ratio conn_ratio then conn_ratio else msg_ratio

  unfoldable pub select_loop : F → String → F → List (String × WorkerLoad F) → String
  select_loop threshold best_id best_load [] = best_id
  select_loop threshold best_id best_load ((id, w) ∷ ws) =
      let skip = select_loop threshold best_id best_load ws in
      let take_it = select_loop threshold id (load w) ws in
      if fl.ge (load w) threshold then skip else if fl.lt (load w) best_load then take_it else skip

  -- selectWorker
  unfoldable pub select_worker : F → List (String × WorkerLoad F) → String
  select_worker threshold ws = select_loop threshold "" fl.one ws

  -- load.Connections++ on the local copy
  unfoldable pub count_connection :
      String → List (String × WorkerLoad F) → List (String × WorkerLoad F)
  count_connection worker ws =
      update_where (λ e. e.0 == worker)
        (λ e. (e.0, record e.1 { connections = e.1.connections + 1 })) ws

  module _ {S : Type 0} (st : ChannelStore S) (threshold : F) where
    -- The loop of AssignPending: how many it assigned, the commands in their order, the store.
    unfoldable pub assign_loop :
        List (String × WorkerLoad F) → List LiveChannel → S → ℕ × List WorkerCommand × S
    assign_loop ws [] s = (0, [], s)
    assign_loop ws (ch ∷ chs) s =
        let worker = select_worker threshold ws in
        elim (worker == "") [
          | true ↦ (0, [], s)
          | false ↦ elim (st.assign ch.id worker s) [
            | err e ↦ assign_loop ws chs s
            | ok s' ↦
                let (n, cs, s'') = assign_loop (count_connection worker ws) chs s' in
                (n + 1, connect worker ch ∷ cs, s'')
          ]
        ]

    -- AssignPending
    unfoldable pub assign_pending :
        ℕ → List (String × WorkerLoad F) → S → Result String (ℕ × List WorkerCommand × S)
    assign_pending batch_size [] s = ok (0, [], s)
    assign_pending batch_size (w ∷ ws) s = do
      pending ← st.list_pending batch_size s
      ok (assign_loop (w ∷ ws) pending s)

    -- The loop of ReassignDrainingChannels (`room` is what the batch still admits) and of
    -- RetryStuckHandoffs (no bound), with the worker that the channel is taken from.
    unfoldable pub reassign_loop :
        (LiveChannel → Option String)
        → Option ℕ
        → ℕ
        → List (String × WorkerLoad F)
        → List LiveChannel
        → S
        → ℕ × List WorkerCommand × S
    reassign_loop from batch assigned ws [] s = (assigned, [], s)
    reassign_loop from batch assigned ws (ch ∷ chs) s =
        let worker = select_worker threshold ws in
        elim (batch_done batch assigned) [
          | true ↦ (assigned, [], s)
          | false ↦ elim (worker == "") [
            | true ↦ (assigned, [], s)
            | false ↦ elim (st.reassign ch.id worker (or_empty (from ch)) s) [
              | err e ↦ reassign_loop from batch assigned ws chs s
              | ok (updated, s') ↦ elim updated [
                | false ↦ reassign_loop from batch assigned ws chs s'
                | true ↦
                    let (n, cs, s'') =
                      reassign_loop from batch (assigned + 1) (count_connection worker ws) chs s' in
                    (n, connect worker ch ∷ cs, s'')
              ]
            ]
          ]
        ]

    -- ReassignDrainingChannels
    unfoldable pub reassign_draining :
        ℕ → List (String × WorkerLoad F) → S → Result String (ℕ × List WorkerCommand × S)
    reassign_draining batch_size ws s = do
      channels ← st.list_draining s
      ok (reassign_loop (λ ch. ch.worker_id) (some batch_size) 0 ws channels s)

    -- RetryStuckHandoffs
    unfoldable pub retry_stuck :
        ℕ → List (String × WorkerLoad F) → S → Result String (ℕ × List WorkerCommand × S)
    retry_stuck age ws s = do
      stuck ← st.list_stuck age s
      ok (reassign_loop (λ ch. ch.handoff_from) none 0 ws stuck s)
