-- ===== src/Channels/Steps.antt =====
-- The operations on the tables as steps, and the invariant over every sequence of them.
use rogi_collector.Prelude.{
  ℕ, ◌≡◌, refl, String, ◌∙◌, Bool, Option, List, [], arith, update_where, ok,
}
use rogi_collector.Channels.Model.{WorkerRow, OptOut, ChannelDb, has_id, is_worker}
use rogi_collector.Channels.Changes.{
  assign_channel, set_pending, unassigns_worker, unassign_worker_channels, unassigns,
  unassign_channel, reclaims, unassign_dead_worker_channels, set_ended, ends, mark_ended_channels,
  mark_channel_ended, opts_out, set_opted_out, end_collection_opted_out_live_channel,
  reassign_channel, acks, set_acked, ack_handoff, clears, clear_fields, clear_handoff,
  register_worker, update_worker_status, set_status, delete_worker,
}
use rogi_collector.Channels.Upserting.{
  FoundChannel, dedupe, refresh, refresh_history, fresh_row, fresh_history_row,
  upsert_live_channels, upsert_live_channels_with_history,
}
use rogi_collector.Channels.Laws.{exists?-update_where}
use rogi_collector.Channels.Preserve.{
  set_pending-IsSoundRow, set_ended-IsSoundRow, set_opted_out-IsSoundRow, revived_row,
  revived_history_row, fresh_row-IsSoundRow, fresh_history_row-IsSoundRow,
  upsert_rows-IsSoundTables,
}
use rogi_collector.Channels.Sound.{IsSoundTables, update_rows-IsSoundTables}
use rogi_collector.Channels.Operations.{
  assign_channel-IsSoundTables, reassign_channel-IsSoundTables, set_acked-IsSoundRow,
  clear_fields-IsSoundRow, workers-IsSoundTables, register_worker-IsSoundTables,
  delete_worker-IsSoundTables,
}

-- One operation on the tables, or a change of the opt-outs or the subscriptions.
pub data Step : ChannelDb → ChannelDb → Type 0 where
  upserted :
      {db : ChannelDb} (now : ℕ) (chs : List FoundChannel)
      → Step db (upsert_live_channels now chs db)
  upserted_with_history :
      {db : ChannelDb} (now : ℕ) (chs : List FoundChannel)
      → Step db (upsert_live_channels_with_history now chs db).1
  marked :
      {db : ChannelDb} (now : ℕ) (p : String) (active : List String)
      → Step db (mark_ended_channels now p active db).1
  marked_one : {db : ChannelDb} (now n : ℕ) → Step db (mark_channel_ended now n db)
  opted_out_ended :
      {db : ChannelDb} (now : ℕ) (p c : String)
      → Step db (end_collection_opted_out_live_channel now p c db).1
  assigned :
      {db db' : ChannelDb} (n : ℕ) (w : String) → assign_channel n w db ≡ ok db' → Step db db'
  unassigned_worker : {db : ChannelDb} (w : String) → Step db (unassign_worker_channels w db)
  unassigned : {db : ChannelDb} (p c w : String) → Step db (unassign_channel p c w db)
  reclaimed : {db : ChannelDb} → Step db (unassign_dead_worker_channels db).1
  reassigned :
      {db db' : ChannelDb} (now n : ℕ) (new old : String) (moved : Bool)
      → reassign_channel now n new old db ≡ ok (moved, db')
      → Step db db'
  handoff_acked : {db : ChannelDb} (p c : String) → Step db (ack_handoff p c db)
  handoff_cleared : {db : ChannelDb} (n : ℕ) → Step db (clear_handoff n db)
  registered : {db : ChannelDb} (w : WorkerRow) → Step db (register_worker w db)
  status_updated :
      {db : ChannelDb} (now : ℕ) (w s : String) → Step db (update_worker_status now w s db)
  deleted : {db : ChannelDb} (w : String) → Step db (delete_worker w db)
  outside :
      {db : ChannelDb} (os : Option (List OptOut)) (subscribed : String → Bool)
      → Step db (record db { opt_outs = os; subscribed = subscribed })

pub data Run (start : ChannelDb) : ChannelDb → Type 0 where
  here : Run start start
  next : {db db' : ChannelDb} → Run start db → Step db db' → Run start db'

pub Step-IsSoundTables : {db db' : ChannelDb} → Step db db' → IsSoundTables db → IsSoundTables db'
unfolding upsert_live_channels upsert_live_channels_with_history mark_ended_channels
    mark_channel_ended end_collection_opted_out_live_channel unassign_worker_channels
    unassign_channel unassign_dead_worker_channels ack_handoff clear_handoff update_worker_status
Step-IsSoundTables (upserted {db} now chs) =
    upsert_rows-IsSoundTables (refresh now) (fresh_row now) (λ ch r. refl) (λ ch n. refl)
      (λ ws ch r. revived_row ws now ch r) (λ ws ch n. fresh_row-IsSoundRow ws now ch n)
      (dedupe [] chs) db
Step-IsSoundTables (upserted_with_history {db} now chs) =
    upsert_rows-IsSoundTables (refresh_history now) (fresh_history_row now) (λ ch r. refl)
      (λ ch n. refl) (λ ws ch r. revived_history_row ws now ch r)
      (λ ws ch n. fresh_history_row-IsSoundRow ws now ch n) (dedupe [] chs) db
Step-IsSoundTables (marked {db} now p active) =
    update_rows-IsSoundTables (ends p active) (set_ended now) db (λ r. refl)
      (λ r e. set_ended-IsSoundRow db.workers now r)
Step-IsSoundTables (marked_one {db} now n) =
    update_rows-IsSoundTables (has_id n) (set_ended now) db (λ r. refl)
      (λ r e. set_ended-IsSoundRow db.workers now r)
Step-IsSoundTables (opted_out_ended {db} now p c) =
    update_rows-IsSoundTables (opts_out p c) (set_opted_out now) db (λ r. refl)
      (λ r e. set_opted_out-IsSoundRow db.workers now r)
Step-IsSoundTables {db} {db'} (assigned n w h) = assign_channel-IsSoundTables n w db db' h
Step-IsSoundTables (unassigned_worker {db} w) =
    update_rows-IsSoundTables (unassigns_worker w) set_pending db (λ r. refl)
      (λ r e. set_pending-IsSoundRow db.workers r)
Step-IsSoundTables (unassigned {db} p c w) =
    update_rows-IsSoundTables (unassigns p c w) set_pending db (λ r. refl)
      (λ r e. set_pending-IsSoundRow db.workers r)
Step-IsSoundTables (reclaimed {db}) =
    update_rows-IsSoundTables (reclaims db.workers) set_pending db (λ r. refl)
      (λ r e. set_pending-IsSoundRow db.workers r)
Step-IsSoundTables {db} {db'} (reassigned now n new old moved h) =
    reassign_channel-IsSoundTables now n new old db moved db' h
Step-IsSoundTables (handoff_acked {db} p c) =
    update_rows-IsSoundTables (acks p c) set_acked db (λ r. refl)
      (λ r e. set_acked-IsSoundRow db.workers r (ground arith))
Step-IsSoundTables (handoff_cleared {db} n) =
    update_rows-IsSoundTables (clears n) clear_fields db (λ r. refl)
      (λ r e. clear_fields-IsSoundRow db.workers r)
Step-IsSoundTables (registered {db} w) = register_worker-IsSoundTables w db
Step-IsSoundTables (status_updated {db} now w s) =
    workers-IsSoundTables (update_where (is_worker w) (set_status now s) db.workers) db (λ u h.
      exists?-update_where (is_worker u) (is_worker w) (set_status now s) db.workers (λ x. refl)
      ∙ h)
Step-IsSoundTables (deleted {db} w) = delete_worker-IsSoundTables w db
Step-IsSoundTables (outside os subscribed) = λ s. record { rows = s.rows; keys = s.keys }

-- Whatever operations were made on the tables, from sound ones on: a channel that has a worker is
-- live, on a registered worker; the handoff columns are set or cleared together; a channel that
-- ended has its time; and no two rows have one ID or one platform and channel.
pub Run-IsSoundTables :
    {start db : ChannelDb} → Run start db → IsSoundTables start → IsSoundTables db
Run-IsSoundTables here s = s
Run-IsSoundTables (next r step) s = Step-IsSoundTables step (Run-IsSoundTables r s)
