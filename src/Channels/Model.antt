-- ===== src/Channels/Model.antt =====
-- The rows of live_channels and workers (shared/migrations/001_initial.sql, 002_handoff.sql,
-- 003_broadcast_history.sql; shared/model/channel.go, shared/model/worker.go), the opt-outs
-- (005_collection_opt_outs.sql) and what PgStore holds. The widths of the columns are left out.
use rogi_collector.Prelude.{
  ℕ, String, Bool, true, false, ◌&&◌, Option, none, some, List, ◌==◌, nat_eq, leb, exists?, ℤ, pos,
  negsuc,
}

-- ChannelStatusPending, ChannelStatusLive, ChannelStatusEnded
pub data Status : Type 0 where
  pending live ended : Status

-- handoff_status, where it is set
pub data HandoffStatus : Type 0 where
  handing_over acked : HandoffStatus

abbrev pub is_pending : Status → Bool
is_pending pending = true
is_pending _ = false

abbrev pub is_live : Status → Bool
is_live live = true
is_live _ = false

abbrev pub is_ended : Status → Bool
is_ended ended = true
is_ended _ = false

-- handoff_status = 'pending'
abbrev pub is_handing_over : Option HandoffStatus → Bool
is_handing_over (some handing_over) = true
is_handing_over _ = false

-- handoff_status = 'acked'
abbrev pub is_acked : Option HandoffStatus → Bool
is_acked (some acked) = true
is_acked _ = false

-- A nullable column that equals a text.
abbrev pub is_text : String → Option String → Bool
is_text s none = false
is_text s (some t) = t == s

pub record ChannelRow : Type 0 where
  pub id : ℕ
  pub platform : String
  pub channel_id : String
  pub streamer_name : String
  pub viewer_count : ℤ
  pub status : Status
  pub worker_id : Option String
  pub discovered_at : ℕ
  pub last_seen_at : ℕ
  pub ended_at : Option ℕ
  pub handoff_from : Option String
  pub handoff_status : Option HandoffStatus
  pub handoff_started_at : Option ℕ
  pub current_session_seq : ℕ
  pub title : Option String
  pub category : Option String
  pub category_code : Option String
  pub tags : List String
  pub thumbnail_url : Option String
  pub started_at : Option ℕ
  pub metadata_hash : Option String

pub record WorkerRow : Type 0 where
  pub id : String
  pub status : String
  pub max_capacity : ℕ
  pub registered_at : ℕ
  pub last_heartbeat : ℕ

pub record OptOut : Type 0 where
  pub platform : String
  pub channel_id : String
  pub active : Bool

-- The database, as far as these operations use it, and the scope of the store.
pub record ChannelDb : Type 0 where
  pub channels : List ChannelRow
  pub workers : List WorkerRow
  -- `none` where the table does not exist
  pub opt_outs : Option (List OptOut)
  -- collector_channels.subscribed
  pub subscribed : String → Bool
  -- the sequence of live_channels.id
  pub next_id : ℕ
  pub collection_channel : Option String

-- platform = $1 AND channel_id = $2
abbrev pub has_key : String → String → ChannelRow → Bool
has_key p c r = (r.platform == p) && (r.channel_id == c)

-- id = $1
abbrev pub has_id : ℕ → ChannelRow → Bool
has_id n r = nat_eq r.id n

abbrev pub is_worker : String → WorkerRow → Bool
is_worker w r = r.id == w

abbrev pub is_registered : String → List WorkerRow → Bool
is_registered w ws = exists? (is_worker w) ws

-- EXISTS (SELECT 1 FROM collection_opt_outs …)
abbrev pub is_opted_out : List OptOut → ChannelRow → Bool
is_opted_out os r =
    exists? (λ o. o.active && ((o.platform == r.platform) && (o.channel_id == r.channel_id))) os

abbrev pub int_leb : ℤ → ℤ → Bool
int_leb (pos a) (pos b) = leb a b
int_leb (pos a) (negsuc b) = false
int_leb (negsuc a) (pos b) = true
int_leb (negsuc a) (negsuc b) = leb b a
