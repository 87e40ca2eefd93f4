-- ===== src/Channels/Listing.antt =====
-- Rows as the channels that the assigner reads (shared/store/postgres.go).
use rogi_collector.Prelude.{ℕ, String, List, map, Result, ok, err}
use rogi_collector.Assigner.Model.{LiveChannel, ChannelStore}
use rogi_collector.Channels.Model.{ChannelRow, ChannelDb}
use rogi_collector.Channels.Changes.{assign_channel, reassign_channel}
use rogi_collector.Channels.Queries.{
  list_pending_channels, list_draining_worker_channels, list_stuck_handoffs,
}

abbrev pub to_channel : ChannelRow → LiveChannel
to_channel r = record {
  id = r.id;
  platform = r.platform;
  channel_id = r.channel_id;
  worker_id = r.worker_id;
  handoff_from = r.handoff_from;
}

abbrev pub to_channels : Result String (List ChannelRow) → Result String (List LiveChannel)
to_channels (ok rs) = ok (map to_channel rs)
to_channels (err e) = err e

-- PgStore as the assigner's ChannelStore.
abbrev pub channel_store : ℕ → ChannelStore ChannelDb
channel_store now = record {
  list_pending = λ limit db. to_channels (list_pending_channels limit db);
  list_draining = λ db. ok (map to_channel (list_draining_worker_channels db));
  list_stuck = λ age db. ok (map to_channel (list_stuck_handoffs now age db));
  assign = assign_channel;
  reassign = reassign_channel now;
}
