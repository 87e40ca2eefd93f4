-- ===== src/Coordinator/Health.antt =====
-- The health checker (coordinator/internal/healthcheck.go).
use rogi_collector.Prelude.{
  ◌≡◌, refl, ap, inl, inr, String, not, Option, List, [], ◌∷◌, map, arith, is_some, ◌==◌, select,
  exists?, Bool-cases, Option-cases, Result-cases,
}
use rogi_collector.Coordinator.Model.{check, WorkerStore, mark_dead}

-- Check sorts the workers, in their order: alive are exactly those with a heartbeat, each with its
-- load, dead exactly those without.
pub check_partitions :
    {L : Type 0} (beat : String → Option L) (ids : List String)
    → ((check beat ids).alive_workers ≡ select (λ id. is_some (beat id)) ids)
      × ((check beat ids).dead_workers ≡ select (λ id. not (is_some (beat id))) ids)
      × (map (λ e. e.0) (check beat ids).worker_loads ≡ select (λ id. is_some (beat id)) ids)
unfolding check select
check_partitions beat [] = (refl, refl, refl)
check_partitions beat (id ∷ ids) =
    let (alive, dead, loads) = check_partitions beat ids in
    elim (Option-cases (beat id)) [
      | inl missing ↦ rw (check, missing) (alive, ap (◌∷◌ id) dead, loads)
      | inr (l, found) ↦ rw (check, found) (ap (◌∷◌ id) alive, dead, ap (◌∷◌ id) loads)
    ]

module _ {S : Type 0} (st : WorkerStore S) where
  -- MarkDead on a list of workers does what it does, with no draining workers, on those of the list
  -- that are not draining: a draining worker is neither marked nor unassigned nor counted.
  pub mark_dead_skips :
      (draining ids : List String) (s : S)
      → mark_dead st draining ids s
        ≡ mark_dead st [] (select (λ id. not (exists? (λ d. d == id) draining)) ids) s
  unfolding mark_dead select exists?
  mark_dead_skips draining [] s = refl
  mark_dead_skips draining (id ∷ ids) s =
      let again = mark_dead_skips draining ids in
      elim (Bool-cases (exists? (λ d. d == id) draining)) [
        | inl skipped ↦ rw (mark_dead, skipped) (again s)
        | inr taken ↦ elim (Result-cases (st.update_dead id s)) [
          | inl (e, failed) ↦ ground (arith, again s)
          | inr (s1, marked) ↦ elim (Result-cases (st.unassign id s1)) [
            | inl (e, failed) ↦ ground (arith, again s1)
            | inr (s2, done) ↦ ground (arith, again s2)
          ]
        ]
      ]
