-- ===== src/Coordinator/Tests.antt =====
-- The coordinator's theorems at one channel and three workers.
use rogi_collector.Prelude.{
  arith, ℕ, ◌*◌, ◌≡◌, refl, String, true, false, not, Option, none, some, List, [], ◌∷◌, ◌==◌,
  if◌then◌else◌, find?, select, exists?, ok, pos, order_by, insert_by,
}
use rogi_collector.Journal.Model.{second}
use rogi_collector.Coordinator.Model.{
  debounce_ttl, hold_off, handle_unassign, CoordEvent, ChannelStatus, Effect, handle_ws_closed,
  WorkerStore,
}
use rogi_collector.Coordinator.Events.{Unassign, after_unassigns, unassign_once}
use rogi_collector.Coordinator.Reactions.{WsClosed}
use rogi_collector.Channels.Model.{pending, ended, ChannelRow, ChannelDb}
use rogi_collector.Channels.Queries.{list_ended_channels_before, list_all_known_channel_keys}
use rogi_collector.Coordinator.Cleanup.{
  is_key, delete_loop, delete_chat_streams, run_stream_cleanup, Spared, IsKnown,
  run_stream_cleanup-keeps, delete_chat_streams_all,
}

passed : (hold_off debounce_ttl 500 "soop:ch" (100 * second) []).0 ≡ false
unfolding hold_off find?
passed = refl

abbrev event : CoordEvent
event = record { platform = "soop"; channel_id = "ch"; worker_id = "w1" }

abbrev ended_channel : ChannelStatus
ended_channel = record { status = "ended"; ended_at = some (50 * second) }

abbrev beats : String → Option ℕ
beats id = if id == "w2" then none else some 7

abbrev ids : List String
ids = "w1" ∷ "w2" ∷ "w3" ∷ []

-- A store that keeps the workers that were unassigned.
abbrev store : WorkerStore (List String)
store = record { update_dead = λ id s. ok s; unassign = λ id s. ok (id ∷ s) }

acts : exists? (λ x. true) (handle_unassign (100 * second) event true []).1 ≡ true
unfolding handle_unassign hold_off find? exists?
acts = refl

abbrev of_another_worker : CoordEvent
of_another_worker = record event { worker_id = "w9" }

-- The event again, from another worker, and an event of another channel.
abbrev in_between : List Unassign
in_between =
    record { now = 200 * second; event = of_another_worker; fine = false }
    ∷ record { now = 300 * second; event = record event { channel_id = "other" }; fine = true }
    ∷ []

unassign_once_example :
    (handle_unassign
      (400 * second)
      of_another_worker
      true
      (after_unassigns in_between (handle_unassign (100 * second) event true []).0)).1
    ≡ []
unassign_once_example =
    unassign_once (100 * second) (400 * second) event of_another_worker true true in_between [] acts
      refl refl (omega arith, (omega arith, tt)) (omega arith)

-- An event of another worker and one of another channel in between.
abbrev closed_in_between : List WsClosed
closed_in_between =
    record {
      now = 110 * second;
      event = of_another_worker;
      draining = none;
      row = some ended_channel;
    }
    ∷ record {
      now = 120 * second;
      event = record event { channel_id = "other" };
      draining = some [];
      row = none;
    }
    ∷ []

abbrev handled : List (String × ℕ) × List Effect
handled = handle_ws_closed (100 * second) event (some []) (some ended_channel) []

-- A channel that is waiting, one that ended long ago, and their streams with an orphan.
abbrev row : String → ℕ → ChannelRow
row c n = record {
  id = n;
  platform = "soop";
  channel_id = c;
  streamer_name = c;
  viewer_count = pos 3;
  status = pending;
  worker_id = none;
  discovered_at = 1;
  last_seen_at = 1;
  ended_at = none;
  handoff_from = none;
  handoff_status = none;
  handoff_started_at = none;
  current_session_seq = 0;
  title = none;
  category = none;
  category_code = none;
  tags = [];
  thumbnail_url = none;
  started_at = none;
  metadata_hash = none;
}

abbrev tables : ChannelDb
tables = record {
  channels = row "a" 1 ∷ record (row "b" 2) { status = ended; ended_at = some 5 } ∷ [];
  workers = [];
  opt_outs = none;
  subscribed = λ c. true;
  next_id = 3;
  collection_channel = none;
}

abbrev streams : List String
streams = "chat:soop:a" ∷ "chat:soop:b" ∷ "chat:soop:c" ∷ []

spared : Spared (7200 * second) "chat:soop:a" (some tables)
unfolding exists?
spared = refl

is_known : IsKnown "chat:soop:a" (some tables)
unfolding exists?
is_known = refl

run_stream_cleanup-run :
    run_stream_cleanup (λ b. false) (7200 * second) (some tables) true (some tables) streams
    ≡ "chat:soop:a" ∷ []
unfolding run_stream_cleanup delete_loop list_ended_channels_before list_all_known_channel_keys
    order_by insert_by select exists?
run_stream_cleanup-run = refl

run_stream_cleanup-keeps_example :
    exists?
      (is_key "chat:soop:a")
      (run_stream_cleanup (λ b. false) (7200 * second) (some tables) true (some tables) streams)
    ≡ exists? (is_key "chat:soop:a") streams
run_stream_cleanup-keeps_example =
    run_stream_cleanup-keeps (λ b. false) "chat:soop:a" (7200 * second) (some tables) true
      (some tables) streams spared is_known

delete_chat_streams_all_example :
    delete_chat_streams (λ b. false) ("chat:soop:b" ∷ []) streams
    ≡ (true, select (λ k. not (exists? (is_key k) ("chat:soop:b" ∷ []))) streams)
delete_chat_streams_all_example =
    delete_chat_streams_all (λ b. false) ("chat:soop:b" ∷ []) streams (λ b. refl)
