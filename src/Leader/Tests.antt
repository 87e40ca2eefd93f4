-- ===== src/Leader/Tests.antt =====
-- The leases' theorems on two instances.
use rogi_collector.Prelude.{
  ℕ, ℤ, ◌+◌, ◌*◌, ◌≤◌, ◌≡◌, refl, String, true, false, none, some, [], ◌∷◌, arith, find?, All, pos,
}
use rogi_collector.Journal.Model.{second}
use rogi_collector.Leader.Redis.{LeaseKeys, get, acquire_leader, validate_leader_lease}
use rogi_collector.Leader.Election.{
  LeaderElectionConfig, default_config, LeaderElection, Call, should_keep_leadership, try_acquire,
  turn,
}
use rogi_collector.Leader.Fencing.{
  Ledger, Run, here, next, acquire, IsFenced, of_token, validate_leader_lease-Current,
}
use rogi_collector.Leader.Turns as T
use rogi_collector.Leader.Worlds as W
use rogi_collector.Leader.Holding.{should_keep_leadership-leads}

abbrev no_keys : LeaseKeys
no_keys = record { leader = none; fence = none; counter = 0 }

abbrev start : Ledger
start = record { keys = no_keys; issued = [] }

start-IsFenced : IsFenced start
start-IsFenced = record { held = λ v e h. cc; free = λ h. refl; below = tt }

abbrev led : Ledger
led = record {
  keys = record {
    leader = some ("a", 15 * second + 1);
    fence = some (1, 15 * second + 1);
    counter = 1;
  };
  issued = (1, "a") ∷ [];
}

led_run : Run start led
unfolding acquire_leader
led_run = next here (acquire 1 "a" (15 * second))

led_valid : validate_leader_lease 7 1 led.keys ≡ true
unfolding validate_leader_lease
led_valid = refl

validate_leader_lease-Current_example :
    (v : String) × (get 7 led.keys.leader ≡ some v)
    × (find? (of_token 1) led.issued ≡ some (1, v))
    × All (λ (g : ℕ × String). g.0 ≤ 1) led.issued
validate_leader_lease-Current_example =
    validate_leader_lease-Current 7 1 start-IsFenced led_run led_valid

abbrev follower : LeaderElection
follower = record {
  is_leader = false;
  lease_token = 0;
  lease_valid_until = 0;
  consecutive_renew_errors = 0;
  callbacks = [];
}

abbrev first_call : Call
first_call = record {
  started = 1;
  ended = 3;
  answer = some (record { held = true; token = 1 });
  random = 0;
}

follower-IsPaired : T.IsPaired follower
follower-IsPaired = record { paired = refl; idle = λ e. refl }

Turns-IsPaired_example : T.IsPaired (turn default_config first_call follower).1
Turns-IsPaired_example = T.Turns-IsPaired (T.next first_call T.here) follower-IsPaired

abbrev given : LeaderElectionConfig ℤ
given = record {
  ttl = pos (10 * second);
  renew_interval = pos 0;
  acquire_interval = pos 0;
  renew_jitter = pos 0;
  acquire_jitter = pos 0;
  retry_interval = pos 0;
  operation_timeout = pos 0;
  expiry_guard = pos (20 * second);
  max_consecutive_renew_errors = pos 0;
}

abbrev waiting : W.LeaseWorld
waiting = record { keys = no_keys; me = follower; clock = 0 }

abbrev leading : W.LeaseWorld
leading = record {
  keys = led.keys;
  me = (try_acquire default_config first_call follower).1;
  clock = 3;
}

leading_run : W.Events default_config "a" waiting leading
unfolding acquire_leader
leading_run =
    W.next W.here (W.acquired 1 first_call refl (omega arith) (omega arith) (omega arith) refl)

is_leading : leading.me.is_leader ≡ true
unfolding try_acquire
is_leading = refl

keeps : should_keep_leadership default_config 3 leading.me ≡ true
unfolding try_acquire should_keep_leadership
keeps = refl

should_keep_leadership-leads_example : get 3 led.keys.leader ≡ some "a"
should_keep_leadership-leads_example =
    should_keep_leadership-leads default_config "a" refl leading_run refl is_leading keeps
