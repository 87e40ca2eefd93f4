-- ===== src/Coordinator/Model.antt =====
-- shouldDebounce and handleWSClosed of coordinator/internal/coordinator.go, and Check and MarkDead
-- of coordinator/internal/healthcheck.go. Logging is left out.
use Prim.Native.String.{◌++◌}
use rogi_collector.Prelude.{
  ℕ, ◌+◌, ◌*◌, String, Bool, true, false, not, Option, none, some, List, [], ◌∷◌, length, ltb, ◌==◌,
  if◌then◌else◌, find?, select, exists?, Result, ok, err,
}
use rogi_collector.Journal.Model.{second}

-- wsClosedDebounceTTL
abbrev pub debounce_ttl : ℕ
debounce_ttl = 30 * second

-- unassignCooldownTTL
abbrev pub unassign_ttl : ℕ
unassign_ttl = 600 * second

-- debounceMap and unassignCooldown: the time of the last event by key, one entry for a key.
abbrev pub of_key : String → String × ℕ → Bool
of_key key e = e.0 == key

abbrev pub is_recent : ℕ → ℕ → Option (String × ℕ) → Bool
is_recent ttl now none = false
is_recent ttl now (some e) = ltb now (e.1 + ttl)

-- The eviction of stale entries above the limit.
unfoldable pub evict : ℕ → ℕ → ℕ → List (String × ℕ) → List (String × ℕ)
evict ttl limit now m =
    if ltb limit (length m) then select (λ e. not (ltb (e.1 + ttl) now)) m else m

-- The debounce that shouldDebounce and handleUnassign make, each with its window and its limit.
unfoldable pub hold_off : ℕ → ℕ → String → ℕ → List (String × ℕ) → Bool × List (String × ℕ)
hold_off ttl limit key now m =
    if is_recent ttl now (find? (of_key key) m)
    then (true, m)
    else (false, evict ttl limit now ((key, now) ∷ select (λ e. not (of_key key e)) m))

-- shouldDebounce
abbrev pub should_debounce : String → ℕ → List (String × ℕ) → Bool × List (String × ℕ)
should_debounce key now m = hold_off debounce_ttl 500 key now m

pub record CoordEvent : Type 0 where
  pub platform : String
  pub channel_id : String
  pub worker_id : String

-- A channel's row, as far as the handler reads it.
pub record ChannelStatus : Type 0 where
  pub status : String
  pub ended_at : Option ℕ

-- What the handler does: a command to a worker, or the deletion of a chat stream.
pub data Effect : Type 0 where
  connect_command disconnect_command : String → String → String → Effect
  delete_stream : String → String → Effect
  -- UnassignChannel of a channel from a worker
  unassign_channel : String → String → String → Effect

-- The stream of a channel that ended more than 30 seconds ago.
unfoldable pub cleanup : ℕ → CoordEvent → Option ℕ → List Effect
cleanup now ev none = []
cleanup now ev (some t) =
    if ltb (t + 30 * second) now then delete_stream ev.platform ev.channel_id ∷ [] else []

abbrev pub is_draining : Option (List String) → String → Bool
is_draining none worker = false
is_draining (some ids) worker = exists? (λ id. id == worker) ids

-- handleWSClosed after the debounce: the draining workers (`none` where the query failed) and the
-- channel's row (`none` where it failed).
unfoldable pub react : ℕ → CoordEvent → Option (List String) → Option ChannelStatus → List Effect
react now ev draining ch = if is_draining draining ev.worker_id then [] else elim ch [
  | none ↦ []
  | some c ↦
      if not (c.status == "ended")
      then connect_command ev.worker_id ev.platform ev.channel_id ∷ []
      else disconnect_command ev.worker_id ev.platform ev.channel_id ∷ cleanup now ev c.ended_at
]

-- handleWSClosed
unfoldable pub handle_ws_closed :
    ℕ
    → CoordEvent
    → Option (List String)
    → Option ChannelStatus
    → List (String × ℕ)
    → List (String × ℕ) × List Effect
handle_ws_closed now ev draining ch m =
    let (debounced, m') = should_debounce (ev.platform ++ ":" ++ ev.channel_id) now m in
    (m', if debounced then [] else react now ev draining ch)

-- handleUnassign; `fine` is whether UnassignChannel gives no error.
unfoldable pub handle_unassign :
    ℕ → CoordEvent → Bool → List (String × ℕ) → List (String × ℕ) × List Effect
handle_unassign now ev fine m =
    let (held, m') = hold_off unassign_ttl 1000 (ev.platform ++ ":" ++ ev.channel_id) now m in
    let told =
      if fine then disconnect_command ev.worker_id ev.platform ev.channel_id ∷ [] else [] in
    (m', if held then [] else unassign_channel ev.platform ev.channel_id ev.worker_id ∷ told)

-- HealthCheckResult
pub record HealthCheckResult (L : Type 0) : Type 0 where
  pub alive_workers : List String
  pub dead_workers : List String
  pub worker_loads : List (String × L)

module _ {L : Type 0} where
  -- The loop of Check over the workers' heartbeats, `none` for a missing or nil one.
  unfoldable pub check : (String → Option L) → List String → HealthCheckResult L
  check beat [] = record { alive_workers = []; dead_workers = []; worker_loads = [] }
  check beat (id ∷ ids) =
      let rest = check beat ids in
      elim (beat id) [
        | none ↦ record rest { dead_workers = id ∷ rest.dead_workers }
        | some l ↦ record rest {
          alive_workers = id ∷ rest.alive_workers;
          worker_loads = (id, l) ∷ rest.worker_loads;
        }
      ]

-- The store's operations that MarkDead calls.
pub record WorkerStore (S : Type 0) : Type 0 where
  pub update_dead : String → S → Result String S
  pub unassign : String → S → Result String S

module _ {S : Type 0} (st : WorkerStore S) where
  -- The loop of MarkDead: how many workers it unassigned, the errors, the store.
  unfoldable pub mark_dead : List String → List String → S → ℕ × List String × S
  mark_dead draining [] s = (0, [], s)
  mark_dead draining (id ∷ ids) s = elim (exists? (λ d. d == id) draining) [
    | true ↦ mark_dead draining ids s
    | false ↦ elim (st.update_dead id s) [
      | err e ↦ let (n, es, s') = mark_dead draining ids s in (n, e ∷ es, s')
      | ok s1 ↦ elim (st.unassign id s1) [
        | err e ↦ let (n, es, s') = mark_dead draining ids s1 in (n, e ∷ es, s')
        | ok s2 ↦ let (n, es, s') = mark_dead draining ids s2 in (n + 1, es, s')
      ]
    ]
  ]
