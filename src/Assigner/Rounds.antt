-- ===== src/Assigner/Rounds.antt =====
-- The counts of the assigner's rounds (coordinator/internal/assigner.go).
use rogi_collector.Prelude.{
  ℕ, ◌+◌, ◌≤◌, ◌≡◌, sym, subst, inl, inr, String, Option, some, List, [], ◌∷◌, length, arith, leb,
  ◌==◌, Bool-cases, ok, Result-cases,
}
use rogi_collector.Assigner.Model.{
  Floats, WorkerLoad, LiveChannel, WorkerCommand, ChannelStore, or_empty, select_worker,
  count_connection, reassign_loop, reassign_draining,
}

module _ {F S : Type 0} (fl : Floats F) (st : ChannelStore S) (threshold : F) where
  reassign_loop_counts :
      (from : LiveChannel → Option String) (b assigned : ℕ) (ws : List (String × WorkerLoad F))
      (chs : List LiveChannel) (s : S)
      → assigned ≤ b
      → (let r = reassign_loop fl st threshold from (some b) assigned ws chs s in
          (r.0 ≡ assigned + length r.1) × (r.0 ≤ b))
  unfolding reassign_loop
  reassign_loop_counts from b assigned ws [] s low = (omega arith, low)
  reassign_loop_counts from b assigned ws (ch ∷ chs) s low =
      let worker = select_worker fl threshold ws in
      elim (Bool-cases (leb b assigned)) [
        | inl done ↦ rw (reassign_loop, done) (omega arith, low)
        | inr room ↦ elim (Bool-cases (worker == "")) [
          | inl nobody ↦ rw (reassign_loop, room, nobody) (omega arith, low)
          | inr somebody ↦ elim (Result-cases (st.reassign ch.id worker (or_empty (from ch)) s)) [
            | inl (x, failed) ↦
                rw (reassign_loop, room, somebody, failed)
                  (reassign_loop_counts from b assigned ws chs s low)
            | inr ((updated, s'), done) ↦ elim (Bool-cases updated) [
              | inr ended ↦
                  rw (reassign_loop, room, somebody, done, ended)
                    (reassign_loop_counts from b assigned ws chs s' low)
              | inl moved ↦
                  let (sum, fits) =
                    reassign_loop_counts from b (assigned + 1) (count_connection fl worker ws) chs
                      s' (ground arith) in
                  rw (reassign_loop, room, somebody, done, moved) (omega (arith, sum), fits)
            ]
          ]
        ]
      ]

  -- A round over draining workers reports as many channels as it published connect commands for,
  -- and at most the batch size, whatever the store answers.
  pub reassign_draining_counts :
      (batch_size : ℕ) (ws : List (String × WorkerLoad F)) (s : S) (r : ℕ × List WorkerCommand × S)
      → reassign_draining fl st threshold batch_size ws s ≡ ok r
      → (r.0 ≡ length r.1) × (r.0 ≤ batch_size)
  unfolding reassign_draining
  reassign_draining_counts batch_size ws s r h = elim (Result-cases (st.list_draining s)) [
    | inl (x, bad) ↦ absurd (ground arith)
    | inr (chs, listed) ↦
        let is : r
            ≡ reassign_loop fl st threshold (λ ch. ch.worker_id) (some batch_size) 0 ws chs s =
          ground arith in
        let counts =
          reassign_loop_counts (λ ch. ch.worker_id) batch_size 0 ws chs s (omega arith) in
        subst (λ (x : ℕ × List WorkerCommand × S). (x.0 ≡ length x.1) × (x.0 ≤ batch_size)) (sym is)
          (omega (arith, counts.0), counts.1)
  ]
