-- ===== src/Assigner/Tests.antt =====
-- The assigner's theorems with three workers, loads in whole numbers.
use rogi_collector.Prelude.{
  ℕ, ◌≡◌, refl, String, true, none, some, List, [], ◌∷◌, arith, ltb, leb, update_where, ok,
}
use rogi_collector.Assigner.Model.{
  Floats, WorkerLoad, LiveChannel, WorkerCommand, ChannelStore, load, select_loop, select_worker,
  count_connection, reassign_loop, reassign_draining,
}
use rogi_collector.Assigner.Select.{IsOrder, Chosen, select_worker_least}

-- Ratios in hundredths.
abbrev hundredths : Floats ℕ
hundredths = record {
  zero = 0;
  one = 100;
  of_int = λ n. n;
  div = λ a b. a;
  lt = ltb;
  ge = λ a b. leb b a;
}

order : IsOrder hundredths
order = record { irrefl = λ a. ground arith; trans = λ a b c h k. ground arith }

abbrev worker : String → ℕ → String × WorkerLoad ℕ
worker id n = (
  id,
  record { worker_id = id; connections = n; msg_per_sec = 0; max_conn = 100; max_msg_per_sec = 0 },
)

abbrev workers : List (String × WorkerLoad ℕ)
workers = worker "w1" 85 ∷ worker "w2" 40 ∷ worker "w3" 60 ∷ []

select_worker_least_example :
    Chosen hundredths 80 "" 100 workers (select_worker hundredths 80 workers)
select_worker_least_example = select_worker_least hundredths 80 order workers

-- A store with three draining channels that takes every reassignment.
abbrev store : ChannelStore ℕ
store = record {
  list_pending = λ n s. ok [];
  list_draining = λ s. ok (channel 1 ∷ channel 2 ∷ channel 3 ∷ []);
  list_stuck = λ t s. ok [];
  assign = λ id w s. ok s;
  reassign = λ id w old s. ok (true, s);
}
  where
    channel : ℕ → LiveChannel
    channel n = record {
      id = n;
      platform = "soop";
      channel_id = "ch";
      worker_id = some "w1";
      handoff_from = none;
    }

abbrev commands : List WorkerCommand
commands =
    record { to = "w2"; platform = "soop"; channel_id = "ch" }
    ∷ record { to = "w2"; platform = "soop"; channel_id = "ch" }
    ∷ []

reassigned : reassign_draining hundredths store 80 2 workers 0 ≡ ok (2, commands, 0)
unfolding reassign_draining reassign_loop select_worker select_loop load count_connection
    update_where
reassigned = refl
