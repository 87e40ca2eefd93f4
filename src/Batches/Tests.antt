-- ===== src/Batches/Tests.antt =====
-- The batch writer's theorems at a history with a failed flush.
use rogi_collector.Prelude.{ℕ, ◌≡◌, refl, Bool, true, false, List, [], ◌∷◌, some}
use rogi_collector.Batches.Model.{
  BatchWriter, new_batch_writer, enqueue, begin_flush, settle, close_loop,
}
use rogi_collector.Batches.Safety.{Run, new, accept, refuse, begin, answer, IsSafe, Run-IsSafe}

abbrev w0 : BatchWriter ℕ
w0 = new_batch_writer 2 3

abbrev w1 : BatchWriter ℕ
w1 = enqueue 2 (enqueue 1 w0)

abbrev w2 : BatchWriter ℕ
w2 = enqueue 3 (begin_flush false 10 w1)

abbrev w3 : BatchWriter ℕ
w3 = enqueue 4 (settle false 11 w2)

history : Run 2 3 (1 ∷ 2 ∷ 3 ∷ []) w3
unfolding new_batch_writer enqueue begin_flush settle
history =
    refuse 4
      (answer false 11 (accept 3 (begin false 10 (accept 2 (accept 1 new refl) refl) refl) refl))
      refl

Run-IsSafe_example : IsSafe 3 (1 ∷ 2 ∷ 3 ∷ []) w3
Run-IsSafe_example = Run-IsSafe history

abbrev attempts : List (Bool × ℕ)
attempts = (false, 20) ∷ (true, 30) ∷ []

abbrev w4 : BatchWriter ℕ
w4 = settle true 30 (begin_flush true 30 (settle false 20 (begin_flush true 20 w3)))

drained : close_loop 50 attempts w3 ≡ some w4
unfolding new_batch_writer enqueue begin_flush settle close_loop
drained = refl
