-- ===== src/Manager/Backoff.antt =====
-- What a channel that fails to connect reports (ReconcilePlatform of worker/internal/manager.go).
use rogi_collector.Prelude.{
  ℕ, Option, none, some, Option-cases, inl, inr, ◌+◌, ◌≡◌, refl, ap, subst, ◌∙◌, Bool, true, false,
  ◌||◌, List, [], ◌∷◌, ◌++◌, length, leb, nat_eq, if◌then◌else◌, arith, select, select-append,
  length-append,
}
use rogi_collector.Manager.Model.{
  BackoffEntry, CoordEventType, ws_closed, unassign, clean_up, copied, failed_at, asks_unassign,
  on_failure,
}

-- What ReconcilePlatform does with a channel's entry, at its time: the cleanup, or the failure of a
-- connect.
pub data Turn : Type 0 where
  cleans fails : ℕ → Turn

-- The entry, and what happened since it was made: the failures and the events.
pub record Backoff : Type 0 where
  pub entry : Option BackoffEntry
  pub failed : ℕ
  pub told : List CoordEventType

abbrev pub no_backoff : Backoff
no_backoff = record { entry = none; failed = 0; told = [] }

-- After turns, the newest first.
unfoldable pub after_turns : List Turn → Backoff
after_turns [] = no_backoff
after_turns (cleans now ∷ turns) =
    let b = after_turns turns in
    elim (clean_up now b.entry) [ none ↦ no_backoff | some e ↦ record b { entry = some e } ]
after_turns (fails now ∷ turns) =
    let b = after_turns turns in
    let step = on_failure now (copied b.entry) in
    record { entry = some step.0; failed = b.failed + 1; told = b.told ++ step.1 }

abbrev pub is_ws_closed : CoordEventType → Bool
is_ws_closed ws_closed = true
is_ws_closed unassign = false

abbrev pub is_unassign : CoordEventType → Bool
is_unassign ws_closed = false
is_unassign unassign = true

-- What the entry says of the events so far.
abbrev pub Reported : ℕ → BackoffEntry × List CoordEventType → Type 0
Reported n r =
    (r.0.failures ≡ n)
    × (length (select is_ws_closed r.1) ≡ (if leb 3 n then 1 else 0))
    × (length (select is_unassign r.1) ≡ (if r.0.unassign_sent then 1 else 0))

closed_events :
    (b c : Bool)
    → length (
        select is_ws_closed
          ((if b then ws_closed ∷ [] else []) ++ (if c then unassign ∷ [] else [])))
      ≡ (if b then 1 else 0)
unfolding select
closed_events true true = refl
closed_events true false = refl
closed_events false true = refl
closed_events false false = refl

unassign_events :
    (b c : Bool)
    → length (
        select is_unassign
          ((if b then ws_closed ∷ [] else []) ++ (if c then unassign ∷ [] else [])))
      ≡ (if c then 1 else 0)
unfolding select
unassign_events true true = refl
unassign_events true false = refl
unassign_events false true = refl
unassign_events false false = refl

length-append_count :
    (p : CoordEventType → Bool) (xs ys : List CoordEventType)
    → length (select p (xs ++ ys)) ≡ length (select p xs) + length (select p ys)
length-append_count p xs ys =
    ap length (select-append p xs ys) ∙ length-append (select p xs) (select p ys)

count_three :
    (n : ℕ)
    → (if leb 3 n then 1 else 0) + (if nat_eq (n + 1) 3 then 1 else 0)
      ≡ (if leb 3 (n + 1) then 1 else 0)
count_three n = ground arith

once :
    (sent ask : Bool)
    → (ask ≡ true → sent ≡ false)
    → (if sent then 1 else 0) + (if ask then 1 else 0) ≡ (if sent || ask then 1 else 0)
once true true h = ground (arith, h refl)
once true false h = refl
once false true h = refl
once false false h = refl

on_failure-Reported :
    (n now : ℕ) (r : BackoffEntry × List CoordEventType)
    → Reported n r
    → Reported (n + 1) ((on_failure now r.0).0, r.1 ++ (on_failure now r.0).1)
unfolding on_failure failed_at
on_failure-Reported n now (e, events) (count, closed, asked) =
    let f : BackoffEntry = failed_at now e in
    (
      ap (λ k. k + 1) count,
      length-append_count is_ws_closed events _
          ∙ rw (closed_events (nat_eq (e.failures + 1) 3) (asks_unassign now f), closed, count)
              (count_three n),
      length-append_count is_unassign events _
          ∙ rw (unassign_events (nat_eq (e.failures + 1) 3) (asks_unassign now f), asked)
              (once e.unassign_sent (asks_unassign now f) (λ asks. ground (arith, asks))),
    )

abbrev pub IsReported : Backoff → Type 0
IsReported b = Reported b.failed (copied b.entry, b.told)

none-Reported : IsReported no_backoff
unfolding select
none-Reported = (refl, refl, refl)

clean_up-same :
    (now : ℕ) (o : Option BackoffEntry) (e : BackoffEntry) → clean_up now o ≡ some e → o ≡ some e
clean_up-same now none e h = h
clean_up-same now (some x) e h = ground arith

-- However often and whenever the connecting of a channel fails and the stale entries are cleaned
-- up: the channel's entry counts the failures since it was made, and since then the coordinator
-- was told exactly once that the channel's socket is closed if there were at least three of them
-- and never before, and at most once to unassign it, as the entry records. Without an entry
-- nothing is counted.
pub after_turns-Reported : (turns : List Turn) → IsReported (after_turns turns)
unfolding after_turns
after_turns-Reported [] = none-Reported
after_turns-Reported (cleans now ∷ turns) =
    let b = after_turns turns in
    let before = after_turns-Reported turns in
    elim (Option-cases (clean_up now b.entry)) [
      | inl dropped ↦ rw (after_turns, dropped) none-Reported
      | inr (e, kept) ↦
          rw (after_turns, kept)
            (subst (λ o. Reported b.failed (copied o, b.told)) (clean_up-same now b.entry e kept)
              before)
    ]
after_turns-Reported (fails now ∷ turns) =
    let b = after_turns turns in
    on_failure-Reported b.failed now (copied b.entry, b.told) (after_turns-Reported turns)
