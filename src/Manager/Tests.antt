-- ===== src/Manager/Tests.antt =====
-- The theorems on the worker's connections, at concrete calls.
use rogi_collector.Prelude.{some, ◌≡◌, refl, List, [], ◌∷◌, ◌*◌, exists?}
use rogi_collector.Journal.Model.{second}
use rogi_collector.Manager.Model.{
  Attempt, Manager, begun, begin_connect, register, end_connect, disconnect, tear_down,
  remove_entry,
}
use rogi_collector.Manager.Bounds.{
  Process, idle, Run, start, then_step, begins, registers, IsBounded, Run-IsBounded,
}
use rogi_collector.Manager.Orphans.{managing, remove_entry-orphans}
use rogi_collector.Manager.Backoff.{
  Turn, cleans, fails, IsReported, after_turns, after_turns-Reported,
}

abbrev attempt : Attempt
attempt = record { number = 1; key = "soop:a" }

abbrev dialing_one : Process
dialing_one = record {
  manager = (begin_connect "soop:a" (idle 2).manager).1;
  dialers = attempt ∷ [];
  enders = [];
}

abbrev registered_one : Process
registered_one = record {
  manager = (register attempt dialing_one.manager).1;
  dialers = [];
  enders = attempt ∷ [];
}

abbrev one_connection : Run (idle 2) registered_one
unfolding begin_connect exists?
one_connection = then_step (then_step start (begins attempt refl)) (registers [] [] attempt refl)

Run-IsBounded_example : IsBounded registered_one
Run-IsBounded_example = Run-IsBounded 2 registered_one one_connection

abbrev old_one : Attempt
old_one = record { number = 1; key = "soop:a" }

abbrev new_one : Attempt
new_one = record { number = 7; key = "soop:a" }

remove_entry-orphans_example :
    (m2 m3 : Manager) × (disconnect "soop:a"
        (tear_down old_one (managing 2 (old_one ∷ []) [] 0 (old_one ∷ [])))
      ≡ some m2)
    × (begin_connect "soop:a" m2 ≡ (begun, m3))
    × (let m4 = end_connect "soop:a" (register new_one m3).1 in
        (m4.conns ≡ new_one ∷ [])
        × (m4.live ≡ new_one ∷ [])
        × ((remove_entry old_one m4).conns ≡ [])
        × ((remove_entry old_one m4).live ≡ new_one ∷ []))
remove_entry-orphans_example = remove_entry-orphans 2 1 7 "soop:a"

-- Five failures, a hundred seconds apart, a cleanup that keeps the entry, one that drops it, and
-- one more failure, the newest first.
abbrev turns : List Turn
turns =
    fails (1200 * second)
    ∷ cleans (1100 * second)
    ∷ cleans (550 * second)
    ∷ fails (500 * second)
    ∷ fails (400 * second)
    ∷ fails (300 * second)
    ∷ fails (200 * second)
    ∷ fails (100 * second)
    ∷ []

after_turns-Reported_example : IsReported (after_turns turns)
after_turns-Reported_example = after_turns-Reported turns
