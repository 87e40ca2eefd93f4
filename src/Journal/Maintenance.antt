-- ===== src/Journal/Maintenance.antt =====
-- Retention of recovery metadata and the restore of a journal
-- (shared/store/collector_maintenance.go).
use rogi_collector.Prelude.{
  ℕ, ◌+◌, ◌*◌, ◌-◌, ◌^◌, String, Bool, ◌&&◌, not, Option, none, some, [], ◌∷◌, ◌++◌, ltb, ◌==◌,
  is_some, find?, select, update_where, exists?, Result, ok, require, or_fail, ◌>>=◌, ◌>>◌,
}
use rogi_collector.Journal.Model.{
  Error, generation, no_rows, missing_argument, Row, restore, Db, Env, day,
}
use rogi_collector.Journal.Grants.{of_channel, holds, close_grant}
use rogi_collector.Journal.Donations.{expire_donations}

-- created_at < clock_timestamp() - interval
abbrev older : ℕ → ℕ → ℕ → Bool
older now days at = ltb (at + days * day) now

-- The five deletions of MaintainCollection, in their order.
unfoldable pub purge : ℕ → String → Option String → Db → Db
purge now ch owner db =
    let outbox' = select (λ o. not ((o.channel_id == ch) && older now 90 o.created_at)) db.outbox in
    record db {
      outbox = outbox';
      donations =
          select
            (λ r. not (
              (r.channel_id == ch)
              && (not (is_some r.payload)
                  && (older now 90 r.stored_at
                      && not (exists? (λ o. o.event_id == r.event_id) outbox')))))
            db.donations;
      grants =
          select
            (λ g.
              not
                ((g.channel_id == ch) && (older now 90 g.valid_until && not (holds owner g.token))))
            db.grants;
      requests = select (λ q. not ((q.channel_id == ch) && older now 90 q.created_at)) db.requests;
      audits = select (λ a. not ((a.channel_id == ch) && older now 365 a.created_at)) db.audits;
    }

-- (SELECT owner_token FROM collector_channels WHERE channel_id = $1), NULL with no row.
abbrev pub owner_of : String → Db → Option String
owner_of ch db = elim (find? (of_channel ch) db.channels) [ none ↦ none | some c ↦ c.owner_token ]

-- MaintainCollection. The expiry commits on its own before the deletions.
unfoldable pub maintain_collection : Env → ℕ → String → Db → Result Error Db
maintain_collection e now ch db = do
  db' ← expire_donations e now ch (7 * day) (30 * day) (2 ^ 30 - 2 ^ 20) db
  ok (purge now ch (owner_of ch db') db')

-- jsonb_set(payload, '{journalGeneration}', next)
unfoldable pub relabel : String → Row → Row
relabel next r = record r {
  generation = next;
  payload = elim r.payload [ none ↦ none | some d ↦ some (record d { generation = next }) ];
}

-- The writes of RotateJournal.
unfoldable pub rotate : ℕ → String → String → String → String → Db → Db
rotate now ch reason current next db = record db {
  grants = update_where (λ g. g.channel_id == ch) (close_grant now) db.grants;
  donations =
      update_where (λ r. (r.channel_id == ch) && (r.generation == current)) (relabel next)
        db.donations;
  channels =
      update_where (of_channel ch)
        (λ c. record c {
          generation = next;
          owner_token = none;
          runtime_state = "recovery_required";
          state_at = now;
        })
        db.channels;
  audits =
      db.audits
      ++ (record {
        consumer_id = "collector_restore";
        channel_id = ch;
        entry = restore reason current next;
        created_at = now;
      })
        ∷ [];
}

-- RotateJournal; `next` is the new UUID.
unfoldable pub rotate_journal :
    ℕ → String → String → String → String → Db → Result Error (String × Db)
rotate_journal now next ch expected reason db = do
  require (not (ch == "") && (not (expected == "") && not (reason == ""))) missing_argument
  c ← or_fail (find? (of_channel ch) db.channels) no_rows
  require (c.generation == expected) generation
  ok (next, rotate now ch reason c.generation next db)
