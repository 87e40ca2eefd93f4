-- ===== src/Leader/Election.antt =====
-- The discover service's leader election (discover/internal/leader.go): its settings, its delays and
-- one turn of its loop. Logging, the instance's name and the timers are left out.
use rogi_collector.Prelude.{
  ℕ, zero, suc, ◌+◌, ◌-◌, ◌*◌, ◌/◌, Bool, true, false, ◌||◌, Option, none, some, List, ◌∷◌, ltb,
  leb, if◌then◌else◌, ℤ, pos, negsuc,
}
use rogi_collector.Journal.Model.{second}
use rogi_collector.Leader.Redis.{LeaderLeaseResult}

abbrev pub millisecond : ℕ
millisecond = 1000000

-- The settings: signed as they are given, natural numbers once they are normalized.
pub record LeaderElectionConfig (D : Type 0) : Type 0 where
  pub ttl : D
  pub renew_interval : D
  pub acquire_interval : D
  pub renew_jitter : D
  pub acquire_jitter : D
  pub retry_interval : D
  pub operation_timeout : D
  pub expiry_guard : D
  pub max_consecutive_renew_errors : D

-- DefaultLeaderElectionConfig
abbrev pub default_config : LeaderElectionConfig ℕ
default_config = record {
  ttl = 15 * second;
  renew_interval = 3 * second;
  acquire_interval = 2 * second;
  renew_jitter = 750 * millisecond;
  acquire_jitter = 500 * millisecond;
  retry_interval = second;
  operation_timeout = 2 * second;
  expiry_guard = 2 * second;
  max_consecutive_renew_errors = 3;
}

-- A setting that is not positive takes its default.
abbrev pub or_default : ℕ → ℤ → ℕ
or_default d (pos zero) = d
or_default d (pos (suc n)) = suc n
or_default d (negsuc n) = d

abbrev pub bounded_guard : ℕ → ℕ → ℕ
bounded_guard ttl guard =
    if leb ttl guard then if ltb (ttl / 5) second then second else ttl / 5 else guard

-- normalized
unfoldable pub normalized : LeaderElectionConfig ℤ → LeaderElectionConfig ℕ
normalized c =
    let ttl = or_default default_config.ttl c.ttl in
    record {
      ttl = ttl;
      renew_interval = or_default default_config.renew_interval c.renew_interval;
      acquire_interval = or_default default_config.acquire_interval c.acquire_interval;
      renew_jitter = or_default default_config.renew_jitter c.renew_jitter;
      acquire_jitter = or_default default_config.acquire_jitter c.acquire_jitter;
      retry_interval = or_default default_config.retry_interval c.retry_interval;
      operation_timeout = or_default default_config.operation_timeout c.operation_timeout;
      expiry_guard = bounded_guard ttl (or_default default_config.expiry_guard c.expiry_guard);
      max_consecutive_renew_errors =
          or_default default_config.max_consecutive_renew_errors c.max_consecutive_renew_errors;
    }

abbrev pub min_loop_delay : ℕ
min_loop_delay = 100 * millisecond

-- withJitter, with what Int63n gave; a delay below zero is one below the least delay.
unfoldable pub with_jitter : ℕ → ℕ → ℕ → ℕ
with_jitter base jitter random =
    let base' = if leb base min_loop_delay then min_loop_delay else base in
    let delay = base' + random - jitter in
    if leb jitter 0 then base' else if ltb delay min_loop_delay then min_loop_delay else delay

pub data Callback : Type 0 where
  on_acquire on_lose : Callback

pub record LeaderElection : Type 0 where
  pub is_leader : Bool
  pub lease_token : ℕ
  pub lease_valid_until : ℕ
  pub consecutive_renew_errors : ℕ
  -- the callbacks, the newest first
  pub callbacks : List Callback

-- What a turn meets: when the call of Redis started and ended, its answer, `none` for an error, and
-- the random number of the next delay.
pub record Call : Type 0 where
  pub started : ℕ
  pub ended : ℕ
  pub answer : Option LeaderLeaseResult
  pub random : ℕ

module _ (cfg : LeaderElectionConfig ℕ) where
  -- nextAcquireDelay
  abbrev pub next_acquire_delay : ℕ → ℕ
  next_acquire_delay random = with_jitter cfg.acquire_interval cfg.acquire_jitter random

  -- nextRenewDelay
  unfoldable pub next_renew_delay : ℕ → Bool → ℕ → ℕ
  next_renew_delay rtt suspect random =
      let base =
        if suspect || leb (cfg.renew_interval / 2) rtt
        then cfg.retry_interval
        else cfg.renew_interval in
      with_jitter base cfg.renew_jitter random

  -- shouldKeepLeadership at a time: what remains of the lease is compared by adding the time.
  unfoldable pub should_keep_leadership : ℕ → LeaderElection → Bool
  should_keep_leadership now le =
      if leb le.lease_valid_until (now + cfg.expiry_guard)
      then false
      else if leb le.consecutive_renew_errors cfg.max_consecutive_renew_errors
      then true
      else ltb (now + (cfg.expiry_guard + cfg.retry_interval)) le.lease_valid_until

  -- loseLeadership
  unfoldable pub lose_leadership : LeaderElection → LeaderElection
  lose_leadership le = record {
    is_leader = false;
    lease_token = 0;
    lease_valid_until = 0;
    consecutive_renew_errors = 0;
    callbacks = on_lose ∷ le.callbacks;
  }

  abbrev pub take_lease : Call → LeaderElection → LeaderLeaseResult → LeaderElection
  take_lease c le lease = record {
    is_leader = true;
    lease_token = lease.token;
    lease_valid_until = c.ended + cfg.ttl;
    consecutive_renew_errors = 0;
    callbacks = on_acquire ∷ le.callbacks;
  }

  -- tryAcquire
  unfoldable pub try_acquire : Call → LeaderElection → ℕ × LeaderElection
  try_acquire c le = elim c.answer [
    | none ↦ (next_acquire_delay c.random, le)
    | some lease ↦
        if lease.held
        then (next_renew_delay 0 false c.random, take_lease c le lease)
        else (next_acquire_delay c.random, le)
  ]

  abbrev pub one_more_error : LeaderElection → LeaderElection
  one_more_error le = record le { consecutive_renew_errors = le.consecutive_renew_errors + 1 }

  abbrev pub keep_lease : Call → LeaderElection → LeaderLeaseResult → LeaderElection
  keep_lease c le lease = record le {
    lease_token = lease.token;
    lease_valid_until = c.started + cfg.ttl;
    consecutive_renew_errors = 0;
  }

  -- tryRenew
  unfoldable pub try_renew : Call → LeaderElection → ℕ × LeaderElection
  try_renew c le = elim c.answer [
    | none ↦
        if should_keep_leadership c.ended (one_more_error le)
        then (next_renew_delay (c.ended - c.started) true c.random, one_more_error le)
        else (next_acquire_delay c.random, lose_leadership le)
    | some lease ↦
        if lease.held
        then (next_renew_delay (c.ended - c.started) false c.random, keep_lease c le lease)
        else (next_acquire_delay c.random, lose_leadership le)
  ]

  -- A turn of the loop of Run.
  unfoldable pub turn : Call → LeaderElection → ℕ × LeaderElection
  turn c le = if le.is_leader then try_renew c le else try_acquire c le

-- FencingToken
abbrev pub fencing_token : LeaderElection → ℕ
fencing_token le = if le.is_leader then le.lease_token else 0
