-- ===== src/Channels/Sound.antt =====
-- The invariant of the tables.
use rogi_collector.Prelude.{
  ℕ, ◌<◌, ◌≡◌, String, Bool, true, ◌&&◌, some, List, map, ◌==◌, nat_eq, is_some, All,
}
use rogi_collector.Channels.Model.{live, ended, ChannelRow, WorkerRow, ChannelDb, is_registered}
use rogi_collector.Channels.Changes.{update_rows}
use rogi_collector.Channels.Laws.{Distinct, map-update_where, All-update_where}

-- A row: only a live channel has a worker, which is registered; the three columns of a handoff are
-- set or not set together; a channel that ended has its time.
pub record IsSoundRow (ws : List WorkerRow) (r : ChannelRow) : Type 0 where
  pub held : (w : String) → r.worker_id ≡ some w → (r.status ≡ live) × (is_registered w ws ≡ true)
  pub from_set : is_some r.handoff_from ≡ is_some r.handoff_status
  pub start_set : is_some r.handoff_started_at ≡ is_some r.handoff_status
  pub closed : r.status ≡ ended → is_some r.ended_at ≡ true

abbrev pub Key : Type 0
Key = ℕ × String × String

abbrev pub key_of : ChannelRow → Key
key_of r = (r.id, r.platform, r.channel_id)

abbrev pub same_id : Key → Key → Bool
same_id a b = nat_eq a.0 b.0

abbrev pub same_channel : Key → Key → Bool
same_channel a b = (a.1 == b.1) && (a.2 == b.2)

-- The keys of the rows: IDs below the sequence's next one, and no two rows of an ID or a channel.
pub record AreKeys (next_id : ℕ) (keys : List Key) : Type 0 where
  pub below : All (λ (k : Key). k.0 < next_id) keys
  pub ids : Distinct same_id keys
  pub channels : Distinct same_channel keys

pub record IsSoundTables (db : ChannelDb) : Type 0 where
  pub rows : All (IsSoundRow db.workers) db.channels
  pub keys : AreKeys db.next_id (map key_of db.channels)

-- An update that keeps the keys and the soundness of the rows it changes.
pub update_rows-IsSoundTables :
    (q : ChannelRow → Bool) (f : ChannelRow → ChannelRow) (db : ChannelDb)
    → ((r : ChannelRow) → key_of (f r) ≡ key_of r)
    → ((r : ChannelRow) → q r ≡ true → IsSoundRow db.workers r → IsSoundRow db.workers (f r))
    → IsSoundTables db
    → IsSoundTables (update_rows q f db)
update_rows-IsSoundTables q f db keep step s = record {
  rows = All-update_where (IsSoundRow db.workers) q f db.channels step s.rows;
  keys = rw (map-update_where key_of q f db.channels keep) s.keys;
}
