-- ===== src/Channels/Tests.antt =====
-- The tables' theorems on one worker and two channels.
use rogi_collector.Prelude.{
  ◌==◌, false, ℕ, ◌≡◌, refl, sym, String, true, none, some, List, [], ◌∷◌, pos, ok, update_where,
  find?, exists?, select, ltb, leb,
}
use rogi_collector.Assigner.Model.{
  Floats, WorkerLoad, WorkerCommand, load, select_loop, select_worker, count_connection,
  assign_loop, assign_pending,
}
use rogi_collector.Channels.Model.{live, handing_over, ChannelRow, WorkerRow, ChannelDb, has_id}
use rogi_collector.Channels.Changes.{assign_channel, set_worker, register_worker, ack_handoff}
use rogi_collector.Channels.Upserting.{
  FoundChannel, upsert_live_channels, upsert_rows, upsert_row, dedupe, fresh_row,
}
use rogi_collector.Channels.Queries.{list_pending_channels, by_viewers, insert_viewers, get_channel}
use rogi_collector.Channels.Sound.{IsSoundTables}
use rogi_collector.Channels.Steps.{
  Run, here, next, registered, assigned, upserted, handoff_acked, Run-IsSoundTables,
}
use rogi_collector.Channels.Evolution.{Step-Continues}
use rogi_collector.Channels.Continuing.{Continues}
use rogi_collector.Channels.Found.{Upserted, upsert_live_channels_last}
use rogi_collector.Channels.Deduping.{last_found}
use rogi_collector.Coordinator.Model.{mark_dead}
use rogi_collector.Channels.Reclaiming.{worker_store, has_channels, mark_dead_frees}
use rogi_collector.Channels.Listing.{channel_store}
use rogi_collector.Channels.Serving.{is_for, Served, assign_pending_serves}

abbrev just_found : String → ℕ → FoundChannel
just_found c viewers = record {
  platform = "soop";
  channel_id = c;
  streamer_name = c;
  viewer_count = pos viewers;
  title = none;
  category = none;
  category_code = none;
  tags = [];
  thumbnail_url = none;
  started_at = none;
}

abbrev nothing_yet : ChannelDb
nothing_yet = record {
  channels = [];
  workers = [];
  opt_outs = some [];
  subscribed = λ c. true;
  next_id = 1;
  collection_channel = none;
}

nothing_yet-IsSoundTables : IsSoundTables nothing_yet
nothing_yet-IsSoundTables = record {
  rows = tt;
  keys = record { below = tt; ids = tt; channels = tt };
}

abbrev worker : WorkerRow
worker = record {
  id = "w1";
  status = "alive";
  max_capacity = 10;
  registered_at = 1;
  last_heartbeat = 1;
}

abbrev some_found : List FoundChannel
some_found = just_found "a" 5 ∷ just_found "b" 9 ∷ just_found "a" 7 ∷ []

abbrev with_worker : ChannelDb
with_worker = record nothing_yet { workers = worker ∷ [] }

abbrev with_channels : ChannelDb
with_channels = record with_worker {
  channels = fresh_row 3 (just_found "a" 7) 1 ∷ fresh_row 3 (just_found "b" 9) 2 ∷ [];
  next_id = 3;
}

register_worker-run : register_worker worker nothing_yet ≡ with_worker
unfolding register_worker update_where exists?
register_worker-run = refl

upsert_live_channels-run : upsert_live_channels 3 some_found with_worker ≡ with_channels
unfolding upsert_live_channels upsert_rows upsert_row dedupe update_where exists?
upsert_live_channels-run = refl

upserted_run : Run nothing_yet with_channels
upserted_run =
    rw (sym upsert_live_channels-run)
      (next (rw (sym register_worker-run) (next here (registered worker))) (upserted 3 some_found))

Run-IsSoundTables_example : IsSoundTables with_channels
Run-IsSoundTables_example = Run-IsSoundTables upserted_run nothing_yet-IsSoundTables

upsert_live_channels_last_example :
    Upserted 3
      (get_channel "soop" "a" with_worker)
      (get_channel "soop" "a" (upsert_live_channels 3 some_found with_worker))
      (last_found "soop" "a" some_found)
upsert_live_channels_last_example =
    upsert_live_channels_last "soop" "a" 3 some_found with_worker (refl, (refl, (refl, tt)))

-- Ratios in hundredths.
abbrev hundredths : Floats ℕ
hundredths = record {
  zero = 0;
  one = 100;
  of_int = λ n. n;
  div = λ a b. a;
  lt = ltb;
  ge = λ a b. leb b a;
}

abbrev loads : List (String × WorkerLoad ℕ)
loads =
    (
      "w1",
      record {
        worker_id = "w1";
        connections = 4;
        msg_per_sec = 0;
        max_conn = 10;
        max_msg_per_sec = 0;
      },
    )
    ∷ []

abbrev commands : List WorkerCommand
commands = record { to = "w1"; platform = "soop"; channel_id = "b" } ∷ []

abbrev assigned_db : ChannelDb
assigned_db = record with_channels {
  channels =
      fresh_row 3 (just_found "a" 7) 1
      ∷ record (fresh_row 3 (just_found "b" 9) 2) { worker_id = some "w1"; status = live }
      ∷ [];
}

assign_pending-run :
    assign_pending hundredths (channel_store 4) 80 1 loads with_channels
    ≡ ok (1, commands, assigned_db)
unfolding assign_pending assign_loop select_worker select_loop load count_connection
    list_pending_channels by_viewers insert_viewers select exists? assign_channel set_worker
    update_where
assign_pending-run = refl

assign_pending_serves_example :
    Served
      (some [])
      (get_channel "soop" "b" with_channels)
      (get_channel "soop" "b" assigned_db)
      (find? (is_for "soop" "b") commands)
assign_pending_serves_example =
    assign_pending_serves hundredths 80 4 "soop" "b" 1 loads with_channels
      (1, commands, assigned_db) Run-IsSoundTables_example assign_pending-run

abbrev waiting_row : ChannelRow
waiting_row = record (fresh_row 3 (just_found "b" 9) 2) {
  worker_id = some "w1";
  status = live;
  handoff_from = some "w0";
  handoff_status = some handing_over;
  handoff_started_at = some 4;
}

abbrev handing_db : ChannelDb
handing_db = record with_channels { channels = waiting_row ∷ [] }

found_waiting : find? (has_id 2) handing_db.channels ≡ some waiting_row
unfolding find?
found_waiting = refl

Step-Continues_example : Continues 2 waiting_row (ack_handoff "soop" "b" handing_db)
Step-Continues_example = Step-Continues (handoff_acked "soop" "b") 2 waiting_row found_waiting

assign_channel-run : assign_channel 2 "w1" with_channels ≡ ok assigned_db
unfolding assign_channel set_worker update_where exists?
assign_channel-run = refl

assigned_db-IsSoundTables : IsSoundTables assigned_db
assigned_db-IsSoundTables =
    Run-IsSoundTables (next upserted_run (assigned 2 "w1" assign_channel-run))
      nothing_yet-IsSoundTables

is_dead : exists? (λ d. d == "w1") ("w1" ∷ []) ≡ true
unfolding exists?
is_dead = refl

is_not_draining : exists? (λ d. d == "w1") [] ≡ false
unfolding exists?
is_not_draining = refl

mark_dead_frees_example :
    has_channels "w1" (mark_dead (worker_store 9) [] ("w1" ∷ []) assigned_db).2 ≡ false
mark_dead_frees_example =
    mark_dead_frees 9 [] "w1" ("w1" ∷ []) assigned_db assigned_db-IsSoundTables is_dead
      is_not_draining
