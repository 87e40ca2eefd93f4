-- ===== src/Channels/Upserting.antt =====
-- UpsertLiveChannels (shared/store/postgres.go) and UpsertLiveChannelsWithHistory
-- (shared/store/postgres_history.go).
use Prim.Native.String.{◌++◌ as ◌^◌}
use rogi_collector.Prelude.{
  ℕ, ◌+◌, String, Bool, not, Option, none, List, [], ◌∷◌, ◌++◌, if◌then◌else◌, ◌==◌, select,
  update_where, exists?, map, ℤ,
}
use rogi_collector.Channels.Model.{Status, pending, ended, is_ended, ChannelRow, ChannelDb, has_key}

-- The columns of a model.LiveChannel that the upserts take.
pub record FoundChannel : Type 0 where
  pub platform : String
  pub channel_id : String
  pub streamer_name : String
  pub viewer_count : ℤ
  pub title : Option String
  pub category : Option String
  pub category_code : Option String
  pub tags : List String
  pub thumbnail_url : Option String
  pub started_at : Option ℕ

-- The key that the duplicates are found by.
abbrev pub seen_key : FoundChannel → String
seen_key ch = ch.platform ^ (":" ^ ch.channel_id)

abbrev pub is_seen : FoundChannel → FoundChannel → Bool
is_seen ch o = seen_key o == seen_key ch

-- The loop over the channels: `deduped` is what has been kept.
unfoldable pub dedupe : List FoundChannel → List FoundChannel → List FoundChannel
dedupe deduped [] = deduped
dedupe deduped (ch ∷ chs) =
    dedupe
      (if exists? (is_seen ch) deduped
        then update_where (is_seen ch) (λ o. ch) deduped
        else deduped ++ ch ∷ [])
      chs

abbrev pub revived : Status → Status
revived ended = pending
revived s = s

-- ON CONFLICT … DO UPDATE
abbrev pub refresh : ℕ → FoundChannel → ChannelRow → ChannelRow
refresh now ch r = record r {
  streamer_name = ch.streamer_name;
  viewer_count = ch.viewer_count;
  last_seen_at = now;
  status = revived r.status;
  ended_at = if is_ended r.status then none else r.ended_at;
}

abbrev pub refresh_history : ℕ → FoundChannel → ChannelRow → ChannelRow
refresh_history now ch r = record (refresh now ch r) {
  title = ch.title;
  category = ch.category;
  category_code = ch.category_code;
  tags = ch.tags;
  thumbnail_url = ch.thumbnail_url;
  started_at = ch.started_at;
  current_session_seq =
      if is_ended r.status then r.current_session_seq + 1 else r.current_session_seq;
}

-- VALUES … with the columns' defaults
abbrev pub fresh_row : ℕ → FoundChannel → ℕ → ChannelRow
fresh_row now ch n = record {
  id = n;
  platform = ch.platform;
  channel_id = ch.channel_id;
  streamer_name = ch.streamer_name;
  viewer_count = ch.viewer_count;
  status = pending;
  worker_id = none;
  discovered_at = now;
  last_seen_at = now;
  ended_at = none;
  handoff_from = none;
  handoff_status = none;
  handoff_started_at = none;
  current_session_seq = 0;
  title = none;
  category = none;
  category_code = none;
  tags = [];
  thumbnail_url = none;
  started_at = none;
  metadata_hash = none;
}

abbrev pub fresh_history_row : ℕ → FoundChannel → ℕ → ChannelRow
fresh_history_row now ch n = record (fresh_row now ch n) {
  title = ch.title;
  category = ch.category;
  category_code = ch.category_code;
  tags = ch.tags;
  thumbnail_url = ch.thumbnail_url;
  started_at = ch.started_at;
}

module _ (set : FoundChannel → ChannelRow → ChannelRow)
    (fresh : FoundChannel → ℕ → ChannelRow) where
  -- One row of the statement: it takes an ID whether or not it is inserted.
  unfoldable pub upsert_row : FoundChannel → ChannelDb → ChannelDb
  upsert_row ch db =
      let q = has_key ch.platform ch.channel_id in
      record db {
        next_id = db.next_id + 1;
        channels =
            if exists? q db.channels
            then update_where q (set ch) db.channels
            else db.channels ++ fresh ch db.next_id ∷ [];
      }

  unfoldable pub upsert_rows : List FoundChannel → ChannelDb → ChannelDb
  upsert_rows [] db = db
  upsert_rows (ch ∷ chs) db = upsert_rows chs (upsert_row ch db)

-- UpsertLiveChannels
unfoldable pub upsert_live_channels : ℕ → List FoundChannel → ChannelDb → ChannelDb
upsert_live_channels now chs db = upsert_rows (refresh now) (fresh_row now) (dedupe [] chs) db

pub record UpsertedRow : Type 0 where
  pub id : ℕ
  pub platform : String
  pub channel_id : String
  pub session_seq : ℕ
  pub status : Status
  pub is_insert : Bool
  pub old_metadata_hash : Option String

abbrev pub returned : Bool → ChannelRow → UpsertedRow
returned is_insert r = record {
  id = r.id;
  platform = r.platform;
  channel_id = r.channel_id;
  session_seq = r.current_session_seq;
  status = r.status;
  is_insert = is_insert;
  old_metadata_hash = r.metadata_hash;
}

-- RETURNING: each row after the statement, and whether it was there before.
unfoldable pub returning : List FoundChannel → ChannelDb → ChannelDb → List UpsertedRow
returning [] before after = []
returning (ch ∷ chs) before after =
    let q = has_key ch.platform ch.channel_id in
    map (returned (not (exists? q before.channels))) (select q after.channels)
    ++ returning chs before after

-- UpsertLiveChannelsWithHistory
unfoldable pub upsert_live_channels_with_history :
    ℕ → List FoundChannel → ChannelDb → List UpsertedRow × ChannelDb
upsert_live_channels_with_history now chs db =
    let rows = dedupe [] chs in
    let db' = upsert_rows (refresh_history now) (fresh_history_row now) rows db in
    (returning rows db db', db')
