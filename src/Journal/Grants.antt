-- ===== src/Journal/Grants.antt =====
-- Channel rows and owner grants (shared/store/collector.go, lines 27-175, and the heartbeat of
-- collector_maintenance.go). `now` is the clock of the transaction, `token` the new UUID.
use rogi_collector.Prelude.{
  ℕ, ◌+◌, ◌*◌, String, Bool, true, false, ◌&&◌, not, Option, none, some, List, [], ◌∷◌, ◌++◌, ltb,
  ◌==◌, if◌then◌else◌, is_some, find?, update_where, exists?, Result, ok, err, require, or_fail,
  ◌>>=◌, ◌>>◌,
}
use rogi_collector.Journal.Model.{
  Error, collection_disabled, owner, no_rows, Channel, GrantRow, Db, Env, second,
}

pub record CollectionState : Type 0 where
  pub channel : String
  pub generation : String
  pub current : ℕ
  pub expired_through : ℕ
  pub subscribed : Bool
  pub runtime : String
  pub state_at : ℕ
  pub last_received : Option ℕ

pub record OwnerGrant : Type 0 where
  pub token : String
  pub channel : String
  pub generation : String
  pub granted_at : ℕ
  pub valid_until : ℕ

-- token = $1
abbrev pub holds : Option String → String → Bool
holds none t = false
holds (some s) t = s == t

-- closed_at IS NULL AND valid_until > clock_timestamp()
abbrev pub grant_open : ℕ → GrantRow → Bool
grant_open now g = not (is_some g.closed_at) && ltb now g.valid_until

abbrev pub of_channel : String → Channel → Bool
of_channel ch c = c.channel_id == ch

-- The CASE of `collectionColumns`.
runtime_column : ℕ → List GrantRow → Channel → String
runtime_column now grants c =
    if (c.runtime_state == "connected")
      && not (exists? (λ g. holds c.owner_token g.token && grant_open now g) grants)
    then "reconnecting"
    else c.runtime_state

-- scanCollection
unfoldable pub scan_collection : ℕ → List GrantRow → Channel → CollectionState
unfolding runtime_column
scan_collection now grants c = record {
  channel = c.channel_id;
  generation = c.generation;
  current = c.next_offset;
  expired_through = c.expired_through;
  subscribed = c.subscribed;
  runtime = runtime_column now grants c;
  state_at = c.state_at;
  last_received = c.last_received_at;
}

-- CollectionState, and the locking read with which the transactions begin.
unfoldable pub collection_state : ℕ → String → Db → Result Error CollectionState
unfolding scan_collection
collection_state now ch db = do
  c ← or_fail (find? (of_channel ch) db.channels) no_rows
  ok (scan_collection now db.grants c)

-- The row that EnsureCollection inserts, with the defaults of the table.
unfoldable pub new_channel : ℕ → String → String → Channel
new_channel now fresh ch = record {
  channel_id = ch;
  generation = fresh;
  next_offset = 0;
  expired_through = 0;
  subscribed = true;
  owner_token = none;
  runtime_state = "waiting";
  state_at = now;
  last_received_at = none;
}

-- EnsureCollection; `fresh` is the new UUID.
unfoldable pub ensure_collection : Env → ℕ → String → String → Db → Result Error Db
ensure_collection e now fresh ch db =
    if ch == ""
    then ok db
    else if not (e.allows_collection ch)
    then err collection_disabled
    else if is_some (find? (of_channel ch) db.channels)
    then ok db
    else ok (record db { channels = db.channels ++ new_channel now fresh ch ∷ [] })

-- enabledTX: subscribed, and no active opt-out.
unfoldable pub enabled_tx : String → Db → Result Error Unit
enabled_tx ch db = do
  c ← or_fail (find? (of_channel ch) db.channels) no_rows
  require (c.subscribed && not (db.opted_out ch)) collection_disabled

-- CollectionEnabled
unfoldable pub collection_enabled : Env → String → Db → Result Error Bool
collection_enabled e ch db = if not (e.allows_collection ch) then ok false else do
  c ← or_fail (find? (of_channel ch) db.channels) no_rows
  ok (c.subscribed && not (db.opted_out ch))

-- SetCollectionState
unfoldable pub set_collection_state : ℕ → String → String → Db → Db
set_collection_state now ch state db = record db {
  channels =
      update_where (of_channel ch) (λ c. record c { runtime_state = state; state_at = now })
        db.channels;
}

-- The owner token of the row names a grant that is still open.
unfoldable pub holder_open : ℕ → Option String → Db → Result Error Bool
holder_open now none db = ok false
holder_open now (some t) db = do
  g ← or_fail (find? (λ g. g.token == t) db.grants) no_rows
  ok (grant_open now g)

-- The row that AcquireCollection inserts, and the grant that it returns.
unfoldable pub grant_row : ℕ → String → String → String → String → GrantRow
grant_row now token ch worker gen = record {
  token = token;
  channel_id = ch;
  worker_id = worker;
  generation = gen;
  granted_at = now;
  valid_until = now + 30 * second;
  closed_at = none;
}

unfoldable pub new_grant : ℕ → String → String → String → OwnerGrant
new_grant now token ch gen = record {
  token = token;
  channel = ch;
  generation = gen;
  granted_at = now;
  valid_until = now + 30 * second;
}

abbrev pub take_over : ℕ → String → Channel → Channel
take_over now token c = record c {
  owner_token = some token;
  runtime_state = "connecting";
  state_at = now;
}

-- AcquireCollection
unfoldable pub acquire_collection :
    Env → ℕ → String → String → String → Db → Result Error (OwnerGrant × Db)
acquire_collection e now token ch worker db = do
  require (e.allows_collection ch) collection_disabled
  c ← or_fail (find? (of_channel ch) db.channels) no_rows
  enabled_tx ch db
  require (db.live_on ch worker) owner
  held ← holder_open now c.owner_token db
  require (not held) owner
  ok (
    new_grant now token ch c.generation,
    record db {
      grants = db.grants ++ grant_row now token ch worker c.generation ∷ [];
      channels = update_where (of_channel ch) (take_over now token) db.channels;
    },
  )

-- The row that RenewCollection's UPDATE selects.
abbrev pub renewable : ℕ → Db → String → GrantRow → Bool
renewable now db token g =
    (g.token == token) && (grant_open now g && db.live_on g.channel_id g.worker_id)

-- RenewCollection
unfoldable pub renew_collection : ℕ → OwnerGrant → Db → Result Error (ℕ × Db)
renew_collection now g db = do
  c ← or_fail (find? (of_channel g.channel) db.channels) no_rows
  require (holds c.owner_token g.token && (c.generation == g.generation)) owner
  enabled_tx g.channel db
  require (exists? (renewable now db g.token) db.grants) owner
  ok (
    now + 30 * second,
    record db {
      grants =
          update_where (renewable now db g.token)
            (λ r. record r { valid_until = now + 30 * second }) db.grants;
    },
  )

-- closed_at = COALESCE(closed_at, clock_timestamp())
unfoldable pub close_grant : ℕ → GrantRow → GrantRow
close_grant now g = record g { closed_at = elim g.closed_at [ none ↦ some now | some t ↦ some t ] }

-- ReleaseCollection
unfoldable pub release_collection : ℕ → OwnerGrant → Db → Db
release_collection now g db = record db {
  grants = update_where (λ r. r.token == g.token) (close_grant now) db.grants;
}

-- GREATEST ignores a NULL.
greatest : Option ℕ → ℕ → Option ℕ
greatest none t = some t
greatest (some s) t = if ltb s t then some t else some s

-- CollectionHeartbeat: only the owner's row; a zero `last` keeps the stored time.
unfoldable pub collection_heartbeat : ℕ → OwnerGrant → String → Option ℕ → Db → Db
unfolding greatest
collection_heartbeat now g state last db = record db {
  channels =
      update_where (λ c. of_channel g.channel c && holds c.owner_token g.token) beat db.channels;
}
  where
    beat : Channel → Channel
    beat c = record c {
      runtime_state = state;
      state_at = now;
      last_received_at = elim last [
        | none ↦ c.last_received_at
        | some t ↦ greatest c.last_received_at t
      ];
    }
