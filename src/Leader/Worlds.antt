-- ===== src/Leader/Worlds.antt =====
-- An instance of the discover service, the lease's keys in Redis and other instances
-- (discover/internal/leader.go, shared/store/redis.go), as events.
use rogi_collector.Prelude.{
  ℕ, ◌+◌, ◌≤◌, ◌≡◌, String, Bool, true, false, none, some, ◌==◌, if◌then◌else◌,
}
use rogi_collector.Leader.Redis.{LeaseKeys, acquire_leader, renew_leader, release_leader}
use rogi_collector.Leader.Election.{
  LeaderElectionConfig, LeaderElection, Call, try_acquire, try_renew,
}

-- The keys, an instance and the time.
pub record LeaseWorld : Type 0 where
  pub keys : LeaseKeys
  pub me : LeaderElection
  pub clock : ℕ

module _ (cfg : LeaderElectionConfig ℕ) (id : String) where
  -- A call of this instance that Redis runs at `at_redis`, or that it does not run, and a script of
  -- another instance. An acquisition takes no longer than the guard.
  pub data Event : LeaseWorld → LeaseWorld → Type 0 where
    acquired :
        {w : LeaseWorld} (at_redis : ℕ) (c : Call)
        → w.me.is_leader ≡ false
        → w.clock ≤ at_redis
        → at_redis ≤ c.ended
        → c.ended ≤ at_redis + cfg.expiry_guard
        → c.answer ≡ some (acquire_leader at_redis id cfg.ttl w.keys).0
        → Event w (record {
          keys = (acquire_leader at_redis id cfg.ttl w.keys).1;
          me = (try_acquire cfg c w.me).1;
          clock = c.ended;
        })
    acquire_failed :
        {w : LeaseWorld} (at_redis : ℕ) (ran : Bool) (c : Call)
        → w.me.is_leader ≡ false
        → w.clock ≤ at_redis
        → at_redis ≤ c.ended
        → c.answer ≡ none
        → Event w (record {
          keys = if ran then (acquire_leader at_redis id cfg.ttl w.keys).1 else w.keys;
          me = (try_acquire cfg c w.me).1;
          clock = c.ended;
        })
    renewed :
        {w : LeaseWorld} (at_redis : ℕ) (c : Call)
        → w.me.is_leader ≡ true
        → w.clock ≤ c.started
        → c.started ≤ at_redis
        → at_redis ≤ c.ended
        → c.answer ≡ some (renew_leader at_redis id cfg.ttl w.keys).0
        → Event w (record {
          keys = (renew_leader at_redis id cfg.ttl w.keys).1;
          me = (try_renew cfg c w.me).1;
          clock = c.ended;
        })
    renew_failed :
        {w : LeaseWorld} (at_redis : ℕ) (ran : Bool) (c : Call)
        → w.me.is_leader ≡ true
        → w.clock ≤ at_redis
        → at_redis ≤ c.ended
        → c.answer ≡ none
        → Event w (record {
          keys = if ran then (renew_leader at_redis id cfg.ttl w.keys).1 else w.keys;
          me = (try_renew cfg c w.me).1;
          clock = c.ended;
        })
    other_acquired :
        {w : LeaseWorld} (at_redis : ℕ) (other : String) (ttl : ℕ)
        → w.clock ≤ at_redis
        → Event w
            (record w { keys = (acquire_leader at_redis other ttl w.keys).1; clock = at_redis })
    other_renewed :
        {w : LeaseWorld} (at_redis : ℕ) (other : String) (ttl : ℕ)
        → w.clock ≤ at_redis
        → (id == other) ≡ false
        → Event w (record w { keys = (renew_leader at_redis other ttl w.keys).1; clock = at_redis })
    other_released :
        {w : LeaseWorld} (at_redis : ℕ) (other : String)
        → w.clock ≤ at_redis
        → (id == other) ≡ false
        → Event w (record w { keys = (release_leader at_redis other w.keys).1; clock = at_redis })

  pub data Events (start : LeaseWorld) : LeaseWorld → Type 0 where
    here : Events start start
    next : {w w' : LeaseWorld} → Events start w → Event w w' → Events start w'
