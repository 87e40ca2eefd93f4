-- ===== src/Batches/Closing.antt =====
-- The drain of Close (shared/store/ch_batch_writer.go).
use mathlib.Core.List.{append-nil}
use rogi_collector.Prelude.{
  ℕ, ◌+◌, ◌≡◌, refl, sym, ap, subst, ◌∙◌, ◌⊎◌, inl, inr, Bool, true, false, some, List, [], ◌∷◌,
  ◌++◌, length, arith, ltb, Bool-cases,
}
use rogi_collector.Batches.Model.{BatchWriter, begin_flush, settle, close_loop}

module _ {T : Type 0} where
  List-cases : (xs : List T) → (xs ≡ []) ⊎ ((y : T) × (ys : List T) × (xs ≡ y ∷ ys))
  List-cases [] = inl refl
  List-cases (x ∷ xs) = inr (x, xs, refl)

  -- The rows are delivered, or the rest is given up and counted.
  abbrev pub Ended : BatchWriter T → BatchWriter T → Type 0
  Ended w w' =
      (w'.delivered ++ w'.buffer ≡ w.delivered ++ w.buffer)
      × ((w'.buffer ≡ []) × (w'.dropped ≡ w.dropped) ⊎ (w'.dropped ≡ w.dropped + length w'.buffer))

  -- One attempt that the sink accepts, and one that it does not.
  attempt_fine :
      (now : ℕ) (w w' : BatchWriter T)
      → Ended (settle true now (begin_flush true now w)) w'
      → Ended w w'
  unfolding settle begin_flush
  attempt_fine now w w' (rows, end) = (rows ∙ append-nil _, end)

  attempt_failed :
      (now : ℕ) (w w' : BatchWriter T)
      → Ended (settle false now (begin_flush true now w)) w'
      → Ended w w'
  unfolding settle begin_flush
  attempt_failed now w w' (rows, end) = (rows ∙ ap (◌++◌ w.delivered) (append-nil w.buffer), end)

  unchanged : (w w' : BatchWriter T) → w.buffer ≡ [] → w' ≡ w → Ended w w'
  unchanged w w' empty same = subst (Ended w) (sym same) (refl, inl (empty, refl))

  given_up :
      (now : ℕ) (w w' : BatchWriter T)
      → (let x = settle false now (begin_flush true now w) in
          w' ≡ record x { dropped = x.dropped + length w.buffer })
      → Ended w w'
  unfolding settle begin_flush
  given_up now w w' is = subst (Ended w) (sym is) (
    ap (◌++◌ w.delivered) (append-nil w.buffer),
    inr (ap (λ (xs : List T). w.dropped + length xs) (sym (append-nil w.buffer))),
  )

  -- What Close's drain leaves, when it ends: the rows that were delivered or waiting are, in order,
  -- delivered or still in the buffer; and either the buffer is empty and nothing was dropped, or
  -- the deadline has passed and the rows in the buffer are counted as dropped.
  pub close_loop-Ended :
      (deadline : ℕ) (os : List (Bool × ℕ)) (w w' : BatchWriter T)
      → close_loop deadline os w ≡ some w'
      → Ended w w'
  unfolding close_loop
  close_loop-Ended deadline [] w w' h = elim (List-cases w.buffer) [
    | inl empty ↦ unchanged w w' empty (ground arith)
    | inr (y, ys, more) ↦ absurd (ground arith)
  ]
  close_loop-Ended deadline ((fine, after) ∷ os) w w' h = elim (List-cases w.buffer) [
    | inl empty ↦ unchanged w w' empty (ground arith)
    | inr (y, ys, more) ↦ elim (Bool-cases fine) [
      | inl good ↦
          let onward : close_loop deadline os (settle true after (begin_flush true after w))
              ≡ some w' =
            ground arith in
          attempt_fine after w w' (close_loop-Ended deadline os _ w' onward)
      | inr bad ↦ elim (Bool-cases (ltb deadline after)) [
        | inl late ↦ given_up after w w' (ground arith)
        | inr soon ↦
            let onward : close_loop deadline os (settle false after (begin_flush true after w))
                ≡ some w' =
              ground arith in
            attempt_failed after w w' (close_loop-Ended deadline os _ w' onward)
      ]
    ]
  ]
