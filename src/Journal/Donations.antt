-- ===== src/Journal/Donations.antt =====
-- The donation journal's writer and its retention (AppendDonation of shared/store/collector.go,
-- ExpireDonations and DispatchDonationOutbox of collector_consumer.go).
use rogi_collector.Prelude.{
  ℕ, ◌+◌, ◌-◌, ◌*◌, ◌^◌, String, Bool, true, ◌&&◌, ◌||◌, not, Option, none, some, List, [], ◌∷◌,
  ◌++◌, ltb, leb, nat_eq, int_eq, ◌==◌, if◌then◌else◌, is_some, max_uint64, find?, select,
  update_where, exists?, order_by, take, Result, ok, err, require, or_fail, ◌>>=◌, ◌>>◌,
}
use rogi_collector.Journal.Model.{
  Error, collection_disabled, owner, generation, cursor_expired, conflict, journal_full,
  invalid_policy, offset_exhausted, unverified_identity, Donation, GrantRow, Row, Consumer, Db, Env,
  second, day, validate,
}
use rogi_collector.Journal.Grants.{
  CollectionState, OwnerGrant, of_channel, collection_state, enabled_tx,
}

-- The observation that a replay repeats: the fields that AppendDonation compares.
abbrev pub same_observation : Donation → Donation → Bool
same_observation d o =
    (d.channel_id == o.channel_id)
    && ((d.connection_epoch == o.connection_epoch)
        && (nat_eq d.sequence o.sequence
            && (int_eq d.count o.count
                && ((d.donor_id == o.donor_id) && (d.message == o.message)))))

abbrev pub or_else : Option String → Option String → Option String
or_else none b = b
or_else (some a) b = some a

abbrev pub or_list : List String → List String → List String
or_list [] ys = ys
or_list (x ∷ xs) ys = x ∷ xs

-- json.Unmarshal of the stored payload into the given donation: the fields that the payload omits
-- when they are empty keep what the given donation has.
unfoldable pub overlay : Donation → Donation → Donation
overlay stored d = record stored {
  source_id = or_else stored.source_id d.source_id;
  broadcast_id = or_else stored.broadcast_id d.broadcast_id;
  reasons = or_list stored.reasons d.reasons;
  related = or_list stored.related d.related;
}

-- The branch of a known event id: the stored donation, or why there is none.
unfoldable pub replay : Donation → Option Donation → Result Error Donation
replay d none = err cursor_expired
replay d (some stored) =
    let read = overlay stored d in do require (same_observation read d) conflict; ok read

-- The grant of the observation was in force when it was accepted.
abbrev pub authorises : ℕ → OwnerGrant → ℕ → GrantRow → Bool
authorises now g accepted r =
    (r.channel_id == g.channel)
    && ((r.generation == g.generation)
        && (leb r.granted_at accepted
            && (leb accepted r.valid_until
                && (elim r.closed_at [ none ↦ true | some t ↦ leb accepted t ]
                    && leb accepted (now + second)))))

-- A stored observation with the same content, on another connection, in the last 30 seconds.
abbrev pub matches_recent : String → Donation → Row → Bool
matches_recent key d r =
    (r.channel_id == d.channel_id)
    && ((r.content_key == key)
        && (not (r.connection_epoch == d.connection_epoch)
            && (leb d.observed_at (r.observed_at + 30 * second)
                && leb r.observed_at d.observed_at)))

-- ORDER BY observed_at DESC LIMIT 1
latest : Option Row → List Row → Option Row
latest best [] = best
latest none (r ∷ rs) = latest (some r) rs
latest (some b) (r ∷ rs) = latest (some (if ltb b.observed_at r.observed_at then r else b)) rs

-- The identity status: review evidence shortly after a reconnect, never a drop.
unfoldable pub classify : String → List Row → Donation → Donation
unfolding latest
classify key rows d =
    let plain = record d { identity = "observation_only" } in
    let related = latest none (select (matches_recent key d) rows) in
    if not (nat_eq d.connection_started_at 0)
      && ltb d.observed_at (d.connection_started_at + 10 * second)
    then elim related [
      | none ↦ plain
      | some r ↦ record d {
        identity = "reconnect_ambiguous";
        reasons = "matching_observation_after_reconnect" ∷ [];
        related = r.event_id ∷ [];
      }
    ]
    else plain

unfoldable pub payload_size : (Donation → ℕ) → Option Donation → ℕ
payload_size size none = 0
payload_size size (some d) = size d

-- COALESCE(sum(pg_column_size(payload)), 0) over the channel's payloads
unfoldable pub payload_bytes : (Donation → ℕ) → String → List Row → ℕ
unfolding payload_size
payload_bytes size ch [] = 0
payload_bytes size ch (r ∷ rs) =
    (if r.channel_id == ch then payload_size size r.payload else 0) + payload_bytes size ch rs

-- The donation as the journal stores it.
unfoldable pub stamp : Env → CollectionState → List Row → Donation → Donation
stamp e c rows d =
    classify (e.content_key d) rows (record d { generation = c.generation; offset = c.current + 1 })

unfoldable pub row_of : Env → ℕ → Donation → Donation → Row
row_of e now d stored = record {
  event_id = stored.event_id;
  channel_id = stored.channel_id;
  generation = stored.generation;
  channel_offset = stored.offset;
  content_key = e.content_key d;
  connection_epoch = stored.connection_epoch;
  observed_at = stored.observed_at;
  payload = some stored;
  stored_at = now;
}

-- The three writes of a new donation: its row, its outbox entry and the channel's offset.
unfoldable pub store_donation : Env → ℕ → Donation → Donation → Db → Db
store_donation e now d stored db = record db {
  donations = db.donations ++ row_of e now d stored ∷ [];
  outbox =
      db.outbox
      ++ (record { event_id = stored.event_id; channel_id = stored.channel_id; created_at = now })
        ∷ [];
  channels =
      update_where (of_channel stored.channel_id)
        (λ c. record c { next_offset = stored.offset; last_received_at = some stored.observed_at })
        db.channels;
}

-- The part of AppendDonation after the lookup of the event id found nothing.
unfoldable pub append_new :
    Env → ℕ → OwnerGrant → Donation → ℕ → CollectionState → Db → Result Error (Donation × Db)
append_new e now g d accepted c db = do
  enabled_tx d.channel_id db
  r ← or_fail (find? (λ r. r.token == g.token) db.grants) owner
  require (authorises now g accepted r) owner
  require (not (nat_eq c.current max_uint64)) offset_exhausted
  require (not (is_some d.source_id)) unverified_identity
  let stored = stamp e c db.donations d
  require
      (leb (payload_bytes e.column_size d.channel_id db.donations + e.json_size stored) (2 ^ 30))
      journal_full
  ok (stored, store_donation e now d stored db)

-- AppendDonation. `accepted` is the time at which the spool took the observation.
unfoldable pub append_donation :
    Env → ℕ → OwnerGrant → Donation → ℕ → Db → Result Error (Donation × Db)
append_donation e now g d accepted db = do
  validate d
  require (leb now (accepted + 30 * day)) cursor_expired
  require ((d.channel_id == g.channel) && e.allows_collection d.channel_id) collection_disabled
  c ← collection_state now d.channel_id db
  require (g.generation == c.generation) generation
  elim (find? (λ r. r.event_id == d.event_id) db.donations) [
    | none ↦ append_new e now g d accepted c db
    | some r ↦ do stored ← replay d r.payload; ok (stored, db)
  ]

-- The rows of one channel and generation that still have their payload.
abbrev pub is_retained : String → String → Row → Bool
is_retained ch gen r = (r.channel_id == ch) && ((r.generation == gen) && is_some r.payload)

-- ORDER BY channel_offset
abbrev pub order_by_offset : List Row → List Row
order_by_offset = order_by (λ r. r.channel_offset)

-- COALESCE(ack_offset, baseline)
abbrev pub acked_through : Consumer → ℕ
acked_through p = elim p.ack_offset [ none ↦ p.baseline | some a ↦ a ]

-- NOT EXISTS(a consumer) OR EXISTS(a consumer of another generation or behind the offset)
unfoldable pub unacked : String → String → ℕ → List Consumer → Bool
unacked ch gen offset ps =
    not (exists? (λ p. p.channel_id == ch) ps)
    || exists?
        (λ p. (p.channel_id == ch) && (not (p.generation == gen) || ltb (acked_through p) offset))
        ps

-- The retention loop over the candidates. The sizes that it takes off `total` are summands of it.
unfoldable pub expire_loop : (Donation → ℕ) → ℕ → ℕ → ℕ → ℕ → (ℕ → Bool) → ℕ → ℕ → List Row → ℕ
expire_loop size now min_age max_age max_bytes unacked_at total through [] = through
expire_loop size now min_age max_age max_bytes unacked_at total through (v ∷ vs) =
    let rest =
      expire_loop size now min_age max_age max_bytes unacked_at
        (total - payload_size size v.payload) v.channel_offset vs in
    if ltb (v.stored_at + max_age) now || ltb max_bytes total
    then rest
    else if ltb now (v.stored_at + min_age)
    then through
    else if unacked_at v.channel_offset
    then through
    else rest

-- UPDATE collector_donations SET payload = NULL … channel_offset <= $3
abbrev pub drops : String → String → ℕ → Row → Bool
drops ch gen through r =
    (r.channel_id == ch) && ((r.generation == gen) && leb r.channel_offset through)

unfoldable pub drop_through : String → String → ℕ → Db → Db
drop_through ch gen through db = record db {
  donations = update_where (drops ch gen through) (λ r. record r { payload = none }) db.donations;
  channels = update_where (of_channel ch) (λ c. record c { expired_through = through }) db.channels;
}

-- How far the retention of one call goes.
unfoldable pub expire_point : Env → ℕ → ℕ → ℕ → ℕ → CollectionState → Db → ℕ
expire_point e now min_age max_age max_bytes c db =
    expire_loop e.column_size now min_age max_age max_bytes
      (λ offset. unacked c.channel c.generation offset db.consumers)
      (payload_bytes e.column_size c.channel db.donations) c.expired_through
      (take 500 (order_by_offset (select (is_retained c.channel c.generation) db.donations)))

-- ExpireDonations
unfoldable pub expire_donations : Env → ℕ → String → ℕ → ℕ → ℕ → Db → Result Error Db
expire_donations e now ch min_age max_age max_bytes db = do
  require (leb min_age max_age && ltb 0 max_bytes) invalid_policy
  c ← collection_state now ch db
  let through = expire_point e now min_age max_age max_bytes c db
  if ltb c.expired_through through then ok (drop_through ch c.generation through db) else ok db
