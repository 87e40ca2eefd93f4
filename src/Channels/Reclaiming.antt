-- ===== src/Channels/Reclaiming.antt =====
-- The marking of dead workers (coordinator/internal/healthcheck.go) over the tables
-- (shared/store/postgres.go).
use rogi_collector.Prelude.{
  ℕ, ◌≡◌, refl, sym, ap, subst, inl, inr, String, Bool, true, false, Option, none, some, List, [],
  ◌∷◌, arith, ◌==◌, eq_iff, ok, Bool-cases, exists?, update_where, All,
}
use rogi_collector.Coordinator.Model.{WorkerStore, mark_dead}
use rogi_collector.Channels.Model.{live, is_text, ChannelRow, ChannelDb}
use rogi_collector.Channels.Changes.{
  set_pending, unassigns_worker, unassign_worker_channels, update_worker_status,
}
use rogi_collector.Channels.Sound.{IsSoundRow, IsSoundTables}
use rogi_collector.Channels.Steps.{unassigned_worker, status_updated, Step-IsSoundTables}

-- PgStore as the health checker's store.
abbrev pub worker_store : ℕ → WorkerStore ChannelDb
worker_store now = record {
  update_dead = λ id db. ok (update_worker_status now id "dead" db);
  unassign = λ id db. ok (unassign_worker_channels id db);
}

-- Whether a channel is assigned to a worker.
abbrev pub has_channels : String → ChannelDb → Bool
has_channels id db = exists? (λ (r : ChannelRow). is_text id r.worker_id) db.channels

-- Unassigning leaves the other workers without a channel without one.
update-free :
    (p q : ChannelRow → Bool) (f : ChannelRow → ChannelRow) (rows : List ChannelRow)
    → ((r : ChannelRow) → p (f r) ≡ false)
    → exists? p rows ≡ false
    → exists? p (update_where q f rows) ≡ false
unfolding exists? update_where
update-free p q f [] gone h = refl
update-free p q f (r ∷ rows) gone h = elim (Bool-cases (q r)) [
  | inl e ↦ rw (e, gone r) (update-free p q f rows gone (ground arith))
  | inr e ↦ ground (arith, update-free p q f rows gone)
]

holds : (id : String) (o : Option String) → is_text id o ≡ true → o ≡ some id
holds id none h = cc
holds id (some w) h = ap some ((eq_iff w id).0 h)

-- Unassigning a worker's channels leaves it none: only live channels have a worker.
unassign-frees :
    (id : String) (db : ChannelDb) (rows : List ChannelRow)
    → All (IsSoundRow db.workers) rows
    → exists?
        (λ (r : ChannelRow). is_text id r.worker_id)
        (update_where (unassigns_worker id) set_pending rows)
      ≡ false
unfolding exists? update_where
unassign-frees id db [] s = refl
unassign-frees id db (r ∷ rows) s = elim (Bool-cases (is_text id r.worker_id)) [
  | inr other ↦ ground (arith, unassign-frees id db rows s.1)
  | inl mine ↦
      let on : r.status ≡ live = (s.0.held id (holds id r.worker_id mine)).0 in
      let hit : unassigns_worker id r ≡ true = ground (arith, on, mine) in
      rw hit (unassign-frees id db rows s.1)
]

step-IsSound :
    (now : ℕ) (id : String) (db : ChannelDb)
    → IsSoundTables db
    → IsSoundTables (unassign_worker_channels id (update_worker_status now id "dead" db))
step-IsSound now id db s =
    Step-IsSoundTables (unassigned_worker id) (Step-IsSoundTables (status_updated now id "dead") s)

module _ (now : ℕ) (draining : List String) (id : String) where
  abbrev after_marking : List String → ChannelDb → ChannelDb
  after_marking dead db = (mark_dead (worker_store now) draining dead db).2

  after_marking-skips :
      (w : String) (dead : List String) (db : ChannelDb)
      → exists? (λ d. d == w) draining ≡ true
      → (mark_dead (worker_store now) draining (w ∷ dead) db).2 ≡ after_marking dead db
  unfolding mark_dead exists?
  after_marking-skips w dead db drains = rw (mark_dead, drains) refl

  after_marking-takes :
      (w : String) (dead : List String) (db : ChannelDb)
      → exists? (λ d. d == w) draining ≡ false
      → (mark_dead (worker_store now) draining (w ∷ dead) db).2
        ≡ after_marking dead (unassign_worker_channels w (update_worker_status now w "dead" db))
  unfolding mark_dead exists?
  after_marking-takes w dead db marked = rw (mark_dead, marked) refl

  mark_dead-free :
      (dead : List String) (db : ChannelDb)
      → has_channels id db ≡ false
      → has_channels id (after_marking dead db) ≡ false
  unfolding mark_dead update_worker_status unassign_worker_channels
  mark_dead-free [] db h = h
  mark_dead-free (w ∷ dead) db h = elim (Bool-cases (exists? (λ d. d == w) draining)) [
    | inl drains ↦ rw (after_marking-skips w dead db drains) (mark_dead-free dead db h)
    | inr marked ↦ rw (after_marking-takes w dead db marked) (
        mark_dead-free dead (unassign_worker_channels w (update_worker_status now w "dead" db)) (
          update-free (λ r. is_text id r.worker_id) (unassigns_worker w) set_pending db.channels
            (λ r. refl) h))
  ]

  -- Marking workers dead on sound tables leaves none of them a channel, but for those that are
  -- draining.
  pub mark_dead_frees :
      (dead : List String) (db : ChannelDb)
      → IsSoundTables db
      → exists? (λ d. d == id) dead ≡ true
      → exists? (λ d. d == id) draining ≡ false
      → has_channels id (mark_dead (worker_store now) draining dead db).2 ≡ false
  unfolding exists? unassign_worker_channels update_worker_status
  mark_dead_frees [] db s named stays = cc
  mark_dead_frees (w ∷ dead) db s named stays = elim (Bool-cases (w == id)) [
    | inl this ↦
        let is : w ≡ id = (eq_iff w id).0 this in
        rw
          (after_marking-takes w dead db
            (subst (λ (x : String). exists? (λ d. d == x) draining ≡ false) (sym is) stays))
          (mark_dead-free dead (unassign_worker_channels w (update_worker_status now w "dead" db)) (
            subst
              (λ (x : String).
                exists? (λ (r : ChannelRow). is_text id r.worker_id)
                  (update_where (unassigns_worker x) set_pending db.channels)
                ≡ false)
              (sym is) (unassign-frees id db db.channels s.rows)))
    | inr other ↦
        let rest : exists? (λ d. d == id) dead ≡ true = ground arith in
        elim (Bool-cases (exists? (λ d. d == w) draining)) [
          | inl drains ↦
              rw (after_marking-skips w dead db drains) (mark_dead_frees dead db s rest stays)
          | inr marked ↦
              rw (after_marking-takes w dead db marked)
                (mark_dead_frees dead _ (step-IsSound now w db s) rest stays)
        ]
  ]
