-- ===== src/Manager/Model.antt =====
-- The manager of a worker's connections (worker/internal/manager.go), as the critical sections of
-- its calls and goroutines. Metrics, logging, handoffs and the forwarding of messages are left out.
use rogi_collector.Prelude.{
  ℕ, ◌+◌, ◌-◌, ◌*◌, String, Bool, true, false, ◌&&◌, ◌||◌, not, Option, none, some, List, [], ◌∷◌,
  ◌++◌, length, leb, ltb, nat_eq, if◌then◌else◌, ◌==◌, select, exists?,
}
use rogi_collector.Journal.Model.{second}

-- A call of Connect, by a number of its own, with the connector it makes.
pub record Attempt : Type 0 where
  pub number : ℕ
  pub key : String

abbrev pub has_key : String → Attempt → Bool
has_key key a = a.key == key

abbrev pub same : Attempt → Attempt → Bool
same a b = nat_eq a.number b.number

pub record Manager : Type 0 where
  pub max_conn : ℕ
  -- conns, connecting and dialing
  pub conns : List Attempt
  pub connecting : List String
  pub dialing : ℕ
  -- the connectors that are connected
  pub live : List Attempt

pub data Begun : Type 0 where
  known_already max_connections begun : Begun

-- The first critical section of Connect.
unfoldable pub begin_connect : String → Manager → Begun × Manager
begin_connect key m =
    if exists? (has_key key) m.conns || exists? (λ k. k == key) m.connecting
    then (known_already, m)
    else if ltb 0 m.max_conn && leb m.max_conn (length m.conns + m.dialing)
    then (max_connections, m)
    else (begun, record m { connecting = key ∷ m.connecting; dialing = m.dialing + 1 })

-- Its second critical section, after the connector is connected: the connector is kept, or it is a
-- duplicate and is closed.
unfoldable pub register : Attempt → Manager → Bool × Manager
register a m =
    if exists? (has_key a.key) m.conns
    then (false, m)
    else (true, record m { conns = a ∷ m.conns; live = a ∷ m.live })

-- The deferred critical section of Connect.
unfoldable pub end_connect : String → Manager → Manager
end_connect key m = record m {
  dialing = m.dialing - 1;
  connecting = select (λ k. not (k == key)) m.connecting;
}

-- How the connector's making went: no connector or no grant, a dial that timed out or failed, a
-- context that was cancelled meanwhile, or a connection.
pub data Dial : Type 0 where
  unprepared timed_out dial_failed context_cancelled dialled : Dial

pub data ConnectResult : Type 0 where
  scope_denied opted_out already too_many failed duplicate connected : ConnectResult

abbrev pub after_dial : Attempt → Manager → Dial → ConnectResult × Manager
after_dial a m dialled = (if (register a m).0 then connected else duplicate, (register a m).1)
after_dial a m d = (failed, m)

abbrev pub after_begin : Attempt → Dial → Begun × Manager → ConnectResult × Manager
after_begin a dial (known_already, m) = (already, m)
after_begin a dial (max_connections, m) = (too_many, m)
after_begin a dial (begun, m) = ((after_dial a m dial).0, end_connect a.key (after_dial a m dial).1)

-- Connect, when nothing comes in between.
unfoldable pub connect_channel : Bool → Bool → Attempt → Dial → Manager → ConnectResult × Manager
connect_channel permitted is_opted_out a dial m =
    if not permitted
    then (scope_denied, m)
    else if is_opted_out
    then (opted_out, m)
    else after_begin a dial (begin_connect a.key m)

-- Disconnect; `none` without such a connection
unfoldable pub disconnect : String → Manager → Option Manager
disconnect key m =
    if exists? (has_key key) m.conns
    then some (record m {
      conns = select (λ a. not (has_key key a)) m.conns;
      live = select (λ a. not (exists? (λ c. has_key key c && same c a) m.conns)) m.live;
    })
    else none

-- DisconnectAll
unfoldable pub disconnect_all : Manager → Manager
disconnect_all m = record m {
  conns = [];
  live = select (λ a. not (exists? (λ c. same c a) m.conns)) m.live;
}

-- The handling of a connector's error: the connector is closed, then the entry of its key is
-- removed.
unfoldable pub tear_down : Attempt → Manager → Manager
tear_down a m = record m { live = select (λ b. not (same a b)) m.live }

unfoldable pub remove_entry : Attempt → Manager → Manager
remove_entry a m = record m { conns = select (λ b. not (has_key a.key b)) m.conns }

-- backoffEntry; a first failure of 0 is no time
pub record BackoffEntry : Type 0 where
  pub first_fail : ℕ
  pub last_fail : ℕ
  pub failures : ℕ
  pub unassign_sent : Bool

pub data CoordEventType : Type 0 where
  ws_closed unassign : CoordEventType

abbrev pub five_minutes : ℕ
five_minutes = 300 * second

-- The entry after a failure.
unfoldable pub failed_at : ℕ → BackoffEntry → BackoffEntry
failed_at now e = record e {
  last_fail = now;
  failures = e.failures + 1;
  first_fail = if nat_eq e.first_fail 0 then now else e.first_fail;
}

abbrev pub asks_unassign : ℕ → BackoffEntry → Bool
asks_unassign now e =
    not e.unassign_sent && (leb 3 e.failures && ltb (e.first_fail + five_minutes) now)

-- The failure of a connect in ReconcilePlatform: the entry and the events it publishes.
unfoldable pub on_failure : ℕ → BackoffEntry → BackoffEntry × List CoordEventType
on_failure now e =
    let f = failed_at now e in
    (
      record f { unassign_sent = f.unassign_sent || asks_unassign now f },
      (if nat_eq f.failures 3 then ws_closed ∷ [] else [])
          ++ (if asks_unassign now f then unassign ∷ [] else []),
    )

-- The entries that ReconcilePlatform cleans up, before it connects any channel.
abbrev pub is_stale : ℕ → BackoffEntry → Bool
is_stale now e = leb (e.last_fail + 600 * second) now

abbrev pub clean_up : ℕ → Option BackoffEntry → Option BackoffEntry
clean_up now none = none
clean_up now (some e) = if is_stale now e then none else some e

-- The entry that a failure copies: the zero value where there is none.
abbrev pub copied : Option BackoffEntry → BackoffEntry
copied none = record { first_fail = 0; last_fail = 0; failures = 0; unassign_sent = false }
copied (some e) = e

-- The channels that a reconciliation connects, of those that are missing and not held back.
abbrev pub batch_size : ℕ → ℕ
batch_size missing = if ltb 100 missing then 1000 else 300

abbrev pub held_back : ℕ → ℕ → Option BackoffEntry → Bool
held_back now backoff none = false
held_back now backoff (some e) = ltb now (e.last_fail + backoff)
