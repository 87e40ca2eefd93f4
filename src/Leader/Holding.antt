-- ===== src/Leader/Holding.antt =====
-- The discover service's leader election (discover/internal/leader.go) against the lease's keys
-- (shared/store/redis.go): an instance that stays the leader after a failed renewal still holds the
-- lease.
use rogi_collector.Prelude.{
  ℕ, ◌+◌, ◌*◌, ◌/◌, ◌≤◌, ◌<◌, ◌≡◌, ◌⊎◌, refl, ap, ◌∙◌, inl, inr, String, Bool, true, false, none,
  some, arith, ◌==◌, if◌then◌else◌, if-cases, Bool-cases, Option-cases,
}
use rogi_collector.Leader.Redis.{
  LeaseKeys, get, expiry, acquire_leader, is_holder, renew_leader, release_leader,
}
use rogi_collector.Leader.Election.{
  LeaderElectionConfig, LeaderElection, Call, should_keep_leadership, one_more_error,
  lose_leadership, try_acquire, try_renew,
}
use rogi_collector.Leader.Worlds.{
  LeaseWorld, Event, acquired, acquire_failed, renewed, renew_failed, other_acquired, other_renewed,
  other_released, Events, here, next,
}
use rogi_collector.Leader.Fencing.{get-live}

module _ (cfg : LeaderElectionConfig ℕ) (id : String) where
  -- The lease is held until the local deadline less the guard.
  abbrev pub Holds : LeaseKeys → LeaderElection → ℕ → Type 0
  Holds k me now =
      me.is_leader ≡ true
      → now + cfg.expiry_guard < me.lease_valid_until
      → (e : ℕ) × (k.leader ≡ some (id, e))
        × (me.lease_valid_until ≤ e + cfg.expiry_guard)
        × (e ≤ now + cfg.ttl)

  -- A script of another instance, made while this one holds the lease.
  other-Holds :
      (k k' : LeaseKeys) (me : LeaderElection) (now later : ℕ)
      → now ≤ later
      → ((e : ℕ) → k.leader ≡ some (id, e) → later < e → k' ≡ k)
      → Holds k me now
      → Holds k' me later
  other-Holds k k' me now later order keep h leads early =
      let (e, mine, low, high) = h leads (omega (arith, order, early)) in
      let same = keep e mine (omega (arith, low, early)) in
      (e, ap (λ (x : LeaseKeys). x.leader) same ∙ mine, low, omega (arith, order, high))

  acquire_leader-live :
      (now : ℕ) (other : String) (ttl : ℕ) (k : LeaseKeys) (e : ℕ)
      → k.leader ≡ some (id, e)
      → now < e
      → (acquire_leader now other ttl k).1 ≡ k
  unfolding acquire_leader
  acquire_leader-live now other ttl k e h live =
      let there : get now k.leader ≡ some id = ap (get now) h ∙ get-live now e id live in
      rw (acquire_leader, there) refl

  not_other :
      (now : ℕ) (other : String) (k : LeaseKeys) (e : ℕ)
      → (id == other) ≡ false
      → k.leader ≡ some (id, e)
      → now < e
      → is_holder other (get now k.leader) ≡ false
  not_other now other k e differ h live =
      let there : get now k.leader ≡ some id = ap (get now) h ∙ get-live now e id live in
      rw there differ

  renew_leader-live :
      (now : ℕ) (other : String) (ttl : ℕ) (k : LeaseKeys) (e : ℕ)
      → (id == other) ≡ false
      → k.leader ≡ some (id, e)
      → now < e
      → (renew_leader now other ttl k).1 ≡ k
  unfolding renew_leader
  renew_leader-live now other ttl k e differ h live =
      rw (renew_leader, not_other now other k e differ h live) refl

  release_leader-live :
      (now : ℕ) (other : String) (k : LeaseKeys) (e : ℕ)
      → (id == other) ≡ false
      → k.leader ≡ some (id, e)
      → now < e
      → (release_leader now other k).1 ≡ k
  unfolding release_leader
  release_leader-live now other k e differ h live =
      rw (release_leader, not_other now other k e differ h live) refl

  -- A renewal of this instance: the leader's key is extended, or nothing changes.
  renew_leader-cases :
      (now : ℕ) (k : LeaseKeys)
      → ((renew_leader now id cfg.ttl k).1.leader ≡ some (id, expiry now cfg.ttl))
        ⊎ (((renew_leader now id cfg.ttl k).1 ≡ k)
            × ((renew_leader now id cfg.ttl k).0.held ≡ false))
  unfolding renew_leader
  renew_leader-cases now k = elim (Bool-cases (is_holder id (get now k.leader))) [
    | inr other ↦ inr (rw (renew_leader, other) refl, rw (renew_leader, other) refl)
    | inl mine ↦ elim (Option-cases (get now k.fence)) [
      | inl nothing ↦ inl (rw (renew_leader, mine, nothing) refl)
      | inr (t, there) ↦ inl (rw (renew_leader, mine, there) refl)
    ]
  ]

  acquire_leader-cases :
      (now : ℕ) (k : LeaseKeys)
      → ((acquire_leader now id cfg.ttl k).1.leader ≡ some (id, expiry now cfg.ttl))
        ⊎ ((acquire_leader now id cfg.ttl k).0.held ≡ false)
  unfolding acquire_leader
  acquire_leader-cases now k = elim (Option-cases (get now k.leader)) [
    | inl nobody ↦ inl (rw (acquire_leader, nobody) refl)
    | inr (v, somebody) ↦ inr (rw (acquire_leader, somebody) refl)
  ]

  module _ (whole : (cfg.ttl / 1000000) * 1000000 ≡ cfg.ttl) where
    acquired-Holds :
        (w : LeaseWorld) (at_redis : ℕ) (c : Call)
        → w.me.is_leader ≡ false
        → at_redis ≤ c.ended
        → c.ended ≤ at_redis + cfg.expiry_guard
        → c.answer ≡ some (acquire_leader at_redis id cfg.ttl w.keys).0
        → Holds (acquire_leader at_redis id cfg.ttl w.keys).1 (try_acquire cfg c w.me).1 c.ended
    unfolding try_acquire
    acquired-Holds w at_redis c follows order soon answer =
        let r = acquire_leader at_redis id cfg.ttl w.keys in
        rw (try_acquire, answer)
          (if-cases (λ (x : ℕ × LeaderElection). Holds r.1 x.1 c.ended) r.0.held _ _
            (λ held leads early. elim (acquire_leader-cases at_redis w.keys) [
              | inl mine ↦ (
                expiry at_redis cfg.ttl,
                mine,
                omega (arith, whole, soon),
                omega (arith, whole, order),
              )
              | inr refused ↦ absurd (ground arith)
            ])
            (λ refused leads early. absurd (ground arith)))

    renewed-Holds :
        (w : LeaseWorld) (at_redis : ℕ) (c : Call)
        → c.started ≤ at_redis
        → at_redis ≤ c.ended
        → c.answer ≡ some (renew_leader at_redis id cfg.ttl w.keys).0
        → Holds (renew_leader at_redis id cfg.ttl w.keys).1 (try_renew cfg c w.me).1 c.ended
    unfolding try_renew lose_leadership
    renewed-Holds w at_redis c first order answer =
        let r = renew_leader at_redis id cfg.ttl w.keys in
        rw (try_renew, answer)
          (if-cases (λ (x : ℕ × LeaderElection). Holds r.1 x.1 c.ended) r.0.held _ _
            (λ held leads early. elim (renew_leader-cases at_redis w.keys) [
              | inl mine ↦ (
                expiry at_redis cfg.ttl,
                mine,
                omega (arith, whole, first),
                omega (arith, whole, order),
              )
              | inr (same, refused) ↦ absurd (ground arith)
            ])
            (λ refused leads early. absurd (ground arith)))

    -- The keys after a renewal whose answer was lost.
    kept-Holds :
        (w : LeaseWorld) (at_redis : ℕ) (ran : Bool) (now : ℕ) (me : LeaderElection)
        → w.clock ≤ at_redis
        → at_redis ≤ now
        → w.me.is_leader ≡ true
        → me.lease_valid_until ≡ w.me.lease_valid_until
        → Holds w.keys w.me w.clock
        → Holds (if ran then (renew_leader at_redis id cfg.ttl w.keys).1 else w.keys) me now
    kept-Holds w at_redis ran now me first order led same h leads early =
        let (e, mine, low, high) = h led (omega (arith, first, order, early, same)) in
        if-cases
          (λ (k : LeaseKeys).
            (x : ℕ) × (k.leader ≡ some (id, x))
            × (me.lease_valid_until ≤ x + cfg.expiry_guard)
            × (x ≤ now + cfg.ttl))
          ran _ _
          (λ done. elim (renew_leader-cases at_redis w.keys) [
            | inl extended ↦ (
              expiry at_redis cfg.ttl,
              extended,
              omega (arith, whole, same, low, high, first),
              omega (arith, whole, order),
            )
            | inr (kept, refused) ↦ (
              e,
              ap (λ (k : LeaseKeys). k.leader) kept ∙ mine,
              omega (arith, same, low),
              omega (arith, high, first, order),
            )
          ])
          (λ lost. (e, mine, omega (arith, same, low), omega (arith, high, first, order)))

    renew_failed-Holds :
        (w : LeaseWorld) (at_redis : ℕ) (ran : Bool) (c : Call)
        → w.me.is_leader ≡ true
        → w.clock ≤ at_redis
        → at_redis ≤ c.ended
        → c.answer ≡ none
        → Holds w.keys w.me w.clock
        → Holds
            (if ran then (renew_leader at_redis id cfg.ttl w.keys).1 else w.keys)
            (try_renew cfg c w.me).1
            c.ended
    unfolding try_renew lose_leadership
    renew_failed-Holds w at_redis ran c led first order answer h =
        rw (try_renew, answer)
          (if-cases
            (λ (x : ℕ × LeaderElection).
              Holds (if ran then (renew_leader at_redis id cfg.ttl w.keys).1 else w.keys) x.1
                c.ended)
            (should_keep_leadership cfg c.ended (one_more_error cfg w.me)) _ _
            (λ keeps.
              kept-Holds w at_redis ran c.ended (one_more_error cfg w.me) first order led refl h)
            (λ gives leads early. absurd (ground arith)))

    acquire_failed-follows :
        (w : LeaseWorld) (c : Call)
        → w.me.is_leader ≡ false
        → c.answer ≡ none
        → (try_acquire cfg c w.me).1.is_leader ≡ false
    unfolding try_acquire
    acquire_failed-follows w c follows answer = rw (try_acquire, answer) follows

    Event-Holds :
        {w w' : LeaseWorld}
        → Event cfg id w w'
        → Holds w.keys w.me w.clock
        → Holds w'.keys w'.me w'.clock
    Event-Holds (acquired {w} at_redis c follows first order soon answer) h =
        acquired-Holds w at_redis c follows order soon answer
    Event-Holds (acquire_failed {w} at_redis ran c follows first order answer) h = λ leads early.
        let still = acquire_failed-follows w c follows answer in absurd (ground arith)
    Event-Holds (renewed {w} at_redis c leads begun first order answer) h =
        renewed-Holds w at_redis c first order answer
    Event-Holds (renew_failed {w} at_redis ran c led first order answer) h =
        renew_failed-Holds w at_redis ran c led first order answer h
    Event-Holds (other_acquired {w} at_redis other ttl order) h =
        other-Holds w.keys _ w.me w.clock at_redis order
          (λ e mine live. acquire_leader-live at_redis other ttl w.keys e mine live) h
    Event-Holds (other_renewed {w} at_redis other ttl order differ) h =
        other-Holds w.keys _ w.me w.clock at_redis order
          (λ e mine live. renew_leader-live at_redis other ttl w.keys e differ mine live) h
    Event-Holds (other_released {w} at_redis other order differ) h =
        other-Holds w.keys _ w.me w.clock at_redis order
          (λ e mine live. release_leader-live at_redis other w.keys e differ mine live) h

    Events-Holds :
        {start w : LeaseWorld}
        → Events cfg id start w
        → start.me.is_leader ≡ false
        → Holds w.keys w.me w.clock
    Events-Holds here follows = λ leads early. absurd (ground arith)
    Events-Holds (next run event) follows = Event-Holds event (Events-Holds run follows)

    -- For a lease of whole milliseconds whose acquisitions took no longer than the expiry guard,
    -- whatever calls failed, were lost on the way back or were made by other instances: where the
    -- instance would stay the leader after a failed renewal, it is the leader in Redis.
    pub should_keep_leadership-leads :
        {start w : LeaseWorld}
        → Events cfg id start w
        → start.me.is_leader ≡ false
        → w.me.is_leader ≡ true
        → should_keep_leadership cfg w.clock w.me ≡ true
        → get w.clock w.keys.leader ≡ some id
    unfolding should_keep_leadership
    should_keep_leadership-leads {start} {w} run follows leads keeps =
        let early : w.clock + cfg.expiry_guard < w.me.lease_valid_until = ground arith in
        let (e, mine, low, high) = Events-Holds run follows leads early in
        ap (get w.clock) mine ∙ get-live w.clock e id (omega (arith, early, low))
