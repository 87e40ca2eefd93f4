-- ===== src/Leader/Redis.antt =====
-- The leader lease's scripts (shared/store/redis.go). Times and durations are in nanoseconds; a
-- key is its value with the time it expires. A lease lasts for at least a millisecond.
use rogi_collector.Prelude.{
  ℕ, ◌+◌, ◌*◌, ◌/◌, String, Bool, true, false, Option, none, some, ltb, nat_eq, ◌==◌, if◌then◌else◌,
}

pub record LeaderLeaseResult : Type 0 where
  pub held : Bool
  pub token : ℕ

-- The three keys of a lease: the leader, the fence and the fence's counter.
pub record LeaseKeys : Type 0 where
  pub leader : Option (String × ℕ)
  pub fence : Option (ℕ × ℕ)
  pub counter : ℕ

-- GET
abbrev pub get {ℓ} : {A : Type ℓ} → ℕ → Option (A × ℕ) → Option A
get now none = none
get now (some (a, expires)) = if ltb now expires then some a else none

-- When a key set now with ttl.Milliseconds() expires.
abbrev pub expiry : ℕ → ℕ → ℕ
expiry now ttl = now + (ttl / 1000000) * 1000000

abbrev pub or_zero : Option ℕ → ℕ
or_zero none = 0
or_zero (some n) = n

-- A new token for a holder.
abbrev pub issue : ℕ → String → ℕ → LeaseKeys → LeaseKeys
issue now id ttl k = record {
  leader = some (id, expiry now ttl);
  fence = some (k.counter + 1, expiry now ttl);
  counter = k.counter + 1;
}

-- acquireLeaderScript
unfoldable pub acquire_leader : ℕ → String → ℕ → LeaseKeys → LeaderLeaseResult × LeaseKeys
acquire_leader now id ttl k = elim (get now k.leader) [
  | none ↦ (record { held = true; token = k.counter + 1 }, issue now id ttl k)
  | some holder ↦ (record { held = false; token = or_zero (get now k.fence) }, k)
]

abbrev pub is_holder : String → Option String → Bool
is_holder id none = false
is_holder id (some holder) = holder == id

-- renewLeaderScript
unfoldable pub renew_leader : ℕ → String → ℕ → LeaseKeys → LeaderLeaseResult × LeaseKeys
renew_leader now id ttl k =
    if is_holder id (get now k.leader)
    then elim (get now k.fence) [
      | none ↦ (record { held = true; token = k.counter + 1 }, issue now id ttl k)
      | some t ↦ (
        record { held = true; token = t },
        record k { leader = some (id, expiry now ttl); fence = some (t, expiry now ttl) },
      )
    ]
    else (record { held = false; token = 0 }, k)

-- ValidateLeaderLease
unfoldable pub validate_leader_lease : ℕ → ℕ → LeaseKeys → Bool
validate_leader_lease now token k = elim (get now k.fence) [
  | none ↦ false
  | some t ↦ nat_eq t token
]

-- releaseLeaderScript
unfoldable pub release_leader : ℕ → String → LeaseKeys → Bool × LeaseKeys
release_leader now id k =
    if is_holder id (get now k.leader)
    then (true, record k { leader = none; fence = none })
    else (false, k)

-- GetLeader
abbrev pub get_leader : ℕ → LeaseKeys → String
get_leader now k = elim (get now k.leader) [ none ↦ "" | some id ↦ id ]
