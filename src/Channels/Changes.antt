-- ===== src/Channels/Changes.antt =====
-- The updates of live_channels and workers (shared/store/postgres.go). The database's own failures
-- are left out: a statement that fails changes nothing.
use rogi_collector.Prelude.{
  ℕ, String, Bool, false, ◌&&◌, not, Option, none, some, List, [], ◌∷◌, ◌++◌, length, nat_eq,
  if◌then◌else◌, ◌==◌, select, update_where, exists?, find?, map, Result, ok, err, ◌>>=◌, is_some,
}
use rogi_collector.Channels.Model.{
  pending, live, ended, handing_over, acked, is_live, is_ended, is_handing_over, is_acked, is_text,
  ChannelRow, WorkerRow, ChannelDb, has_key, has_id, is_worker, is_registered,
}

abbrev pub update_rows : (ChannelRow → Bool) → (ChannelRow → ChannelRow) → ChannelDb → ChannelDb
update_rows q f db = record db { channels = update_where q f db.channels }

-- An update that sets worker_id, which refers to the table of workers.
unfoldable pub set_worker :
    (ChannelRow → Bool) → String → (ChannelRow → ChannelRow) → ChannelDb → Result String ChannelDb
set_worker q w f db =
    if exists? q db.channels && not (is_registered w db.workers)
    then err "foreign key violation"
    else ok (update_rows q f db)

abbrev pub clear_fields : ChannelRow → ChannelRow
clear_fields r = record r { handoff_from = none; handoff_status = none; handoff_started_at = none }

abbrev pub set_assigned : String → ChannelRow → ChannelRow
set_assigned w r = record (clear_fields r) { worker_id = some w; status = live }

abbrev pub assigns : Option String → ℕ → ChannelRow → Bool
assigns none n r = has_id n r
assigns (some c) n r =
    has_id n r && ((r.platform == "soop") && ((r.channel_id == c) && not (c == "")))

-- AssignChannel
unfoldable pub assign_channel : ℕ → String → ChannelDb → Result String ChannelDb
assign_channel n w db =
    let q = assigns db.collection_channel n in
    do
      db' ← set_worker q w (set_assigned w) db
      if is_some db.collection_channel && not (nat_eq (length (select q db.channels)) 1)
          then err "collection scope denied"
          else ok db'

abbrev pub set_pending : ChannelRow → ChannelRow
set_pending r = record (clear_fields r) { worker_id = none; status = pending }

abbrev pub unassigns_worker : String → ChannelRow → Bool
unassigns_worker w r = is_text w r.worker_id && not (is_ended r.status)

-- UnassignWorkerChannels
unfoldable pub unassign_worker_channels : String → ChannelDb → ChannelDb
unassign_worker_channels w db = update_rows (unassigns_worker w) set_pending db

abbrev pub unassigns : String → String → String → ChannelRow → Bool
unassigns p c w r = has_key p c r && (is_text w r.worker_id && not (is_ended r.status))

-- UnassignChannel
unfoldable pub unassign_channel : String → String → String → ChannelDb → ChannelDb
unassign_channel p c w db = update_rows (unassigns p c w) set_pending db

abbrev pub is_dead : List WorkerRow → Option String → Bool
is_dead ws none = false
is_dead ws (some w) = exists? (λ x. is_worker w x && (x.status == "dead")) ws

abbrev pub reclaims : List WorkerRow → ChannelRow → Bool
reclaims ws r = is_dead ws r.worker_id && is_live r.status

-- UnassignDeadWorkerChannels
unfoldable pub unassign_dead_worker_channels : ChannelDb → ℕ × ChannelDb
unassign_dead_worker_channels db = (
  length (select (reclaims db.workers) db.channels),
  update_rows (reclaims db.workers) set_pending db,
)

abbrev pub set_ended : ℕ → ChannelRow → ChannelRow
set_ended now r = record r { status = ended; ended_at = some now; worker_id = none }

-- The query without NOT IN is the one with no active channel.
abbrev pub ends : String → List String → ChannelRow → Bool
ends p active r =
    (r.platform == p) && (not (is_ended r.status) && not (exists? (λ c. c == r.channel_id) active))

-- MarkEndedChannels
unfoldable pub mark_ended_channels : ℕ → String → List String → ChannelDb → List String × ChannelDb
mark_ended_channels now p active db = (
  map (λ (r : ChannelRow). r.channel_id) (select (ends p active) db.channels),
  update_rows (ends p active) (set_ended now) db,
)

-- MarkChannelEnded
unfoldable pub mark_channel_ended : ℕ → ℕ → ChannelDb → ChannelDb
mark_channel_ended now n db = update_rows (has_id n) (set_ended now) db

abbrev pub opts_out : String → String → ChannelRow → Bool
opts_out p c r = has_key p c r && not (is_ended r.status)

abbrev pub end_time : ℕ → Option ℕ → Option ℕ
end_time now none = some now
end_time now (some t) = some t

abbrev pub set_opted_out : ℕ → ChannelRow → ChannelRow
set_opted_out now r = record r {
  status = ended;
  ended_at = end_time now r.ended_at;
  worker_id = none;
}

-- EndCollectionOptedOutLiveChannel; a channel has one row at most.
unfoldable pub end_collection_opted_out_live_channel :
    ℕ → String → String → ChannelDb → Option String × ChannelDb
end_collection_opted_out_live_channel now p c db = (
  elim (find? (opts_out p c) db.channels) [ none ↦ none | some r ↦ r.worker_id ],
  update_rows (opts_out p c) (set_opted_out now) db,
)

abbrev pub reassigns : ℕ → ChannelRow → Bool
reassigns n r = has_id n r && is_live r.status

abbrev pub set_handoff : ℕ → String → String → ChannelRow → ChannelRow
set_handoff now new old r = record r {
  worker_id = some new;
  handoff_from = some old;
  handoff_status = some handing_over;
  handoff_started_at = some now;
}

-- ReassignChannel
unfoldable pub reassign_channel :
    ℕ → ℕ → String → String → ChannelDb → Result String (Bool × ChannelDb)
reassign_channel now n new old db = if is_some db.collection_channel then ok (false, db) else do
  db' ← set_worker (reassigns n) new (set_handoff now new old) db
  ok (exists? (reassigns n) db.channels, db')

abbrev pub acks : String → String → ChannelRow → Bool
acks p c r = has_key p c r && is_handing_over r.handoff_status

abbrev pub set_acked : ChannelRow → ChannelRow
set_acked r = record r { handoff_status = some acked }

-- AckHandoff
unfoldable pub ack_handoff : String → String → ChannelDb → ChannelDb
ack_handoff p c db = update_rows (acks p c) set_acked db

abbrev pub clears : ℕ → ChannelRow → Bool
clears n r = has_id n r && is_acked r.handoff_status

-- ClearHandoff
unfoldable pub clear_handoff : ℕ → ChannelDb → ChannelDb
clear_handoff n db = update_rows (clears n) clear_fields db

abbrev pub refresh_worker : WorkerRow → WorkerRow → WorkerRow
refresh_worker w r = record r {
  status = w.status;
  max_capacity = w.max_capacity;
  last_heartbeat = w.last_heartbeat;
}

-- RegisterWorker
unfoldable pub register_worker : WorkerRow → ChannelDb → ChannelDb
register_worker w db = record db {
  workers =
      if is_registered w.id db.workers
      then update_where (is_worker w.id) (refresh_worker w) db.workers
      else db.workers ++ w ∷ [];
}

abbrev pub set_status : ℕ → String → WorkerRow → WorkerRow
set_status now s r = record r { status = s; last_heartbeat = now }

-- UpdateWorkerStatus
unfoldable pub update_worker_status : ℕ → String → String → ChannelDb → ChannelDb
update_worker_status now w s db = record db {
  workers = update_where (is_worker w) (set_status now s) db.workers;
}

abbrev pub set_orphaned : ChannelRow → ChannelRow
set_orphaned r = record r { worker_id = none }

-- DeleteWorker, with the foreign key's ON DELETE SET NULL.
unfoldable pub delete_worker : String → ChannelDb → ChannelDb
delete_worker w db = record db {
  workers = select (λ r. not (is_worker w r)) db.workers;
  channels = update_where (λ r. is_text w r.worker_id) set_orphaned db.channels;
}
