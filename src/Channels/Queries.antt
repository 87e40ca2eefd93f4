-- ===== src/Channels/Queries.antt =====
-- The queries of live_channels and workers (shared/store/postgres.go).
use Prim.Native.String.{◌++◌ as ◌^◌}
use rogi_collector.Prelude.{
  ℕ, ◌+◌, ◌*◌, ◌/◌, String, Bool, true, false, ◌&&◌, ◌||◌, not, Option, none, some, List, [], ◌∷◌,
  ltb, if◌then◌else◌, ◌==◌, find?, select, exists?, order_by, map, take, Result, ok, err,
}
use rogi_collector.Journal.Model.{second}
use rogi_collector.Channels.Model.{
  is_pending, is_live, is_ended, is_handing_over, is_acked, is_text, ChannelRow, WorkerRow, OptOut,
  ChannelDb, has_key, is_worker, is_opted_out, int_leb,
}

-- ORDER BY viewer_count DESC, equal counts in the order of the rows.
unfoldable pub insert_viewers : ChannelRow → List ChannelRow → List ChannelRow
insert_viewers r [] = r ∷ []
insert_viewers r (s ∷ ss) =
    if int_leb s.viewer_count r.viewer_count then r ∷ s ∷ ss else s ∷ insert_viewers r ss

unfoldable pub by_viewers : List ChannelRow → List ChannelRow
by_viewers [] = []
by_viewers (r ∷ rs) = insert_viewers r (by_viewers rs)

abbrev pub is_none {ℓ} : {A : Type ℓ} → Option A → Bool
is_none none = true
is_none (some _) = false

abbrev pub awaits_worker : ChannelRow → Bool
awaits_worker r = is_pending r.status && is_none r.worker_id

-- The rows that are not opted out; without the table of opt-outs, all.
abbrev pub permits : Option (List OptOut) → ChannelRow → Bool
permits none r = true
permits (some os) r = not (is_opted_out os r)

abbrev pub in_scope : String → (String → Bool) → ChannelRow → Bool
in_scope c subscribed r = (r.platform == "soop") && ((r.channel_id == c) && subscribed r.channel_id)

abbrev scoped_pending :
    String → ℕ → ChannelDb → Option (List OptOut) → Result String (List ChannelRow)
scoped_pending c limit db none = err "relation does not exist"
scoped_pending c limit db (some os) = ok (
    take limit (
      by_viewers (
        select (λ r. awaits_worker r && (in_scope c db.subscribed r && not (is_opted_out os r)))
          db.channels)))

-- ListPendingChannels
unfoldable pub list_pending_channels : ℕ → ChannelDb → Result String (List ChannelRow)
list_pending_channels limit db = elim db.collection_channel [
  | some c ↦ scoped_pending c limit db db.opt_outs
  | none ↦
      ok (
        take limit
          (by_viewers (select (λ r. awaits_worker r && permits db.opt_outs r) db.channels)))
]

-- ListWorkerChannels
unfoldable pub list_worker_channels : String → ChannelDb → List ChannelRow
list_worker_channels w db = by_viewers (
    order_by (λ r. r.id)
      (select (λ r. is_text w r.worker_id && (is_live r.status && permits db.opt_outs r))
        db.channels))

-- ListWorkerChannelsByPlatform
unfoldable pub list_worker_channels_by_platform : String → String → ChannelDb → List ChannelRow
list_worker_channels_by_platform w p db = by_viewers (
    order_by (λ r. r.id)
      (select (λ r. is_text w r.worker_id && ((r.platform == p) && is_live r.status)) db.channels))

-- GetChannel
unfoldable pub get_channel : String → String → ChannelDb → Option ChannelRow
get_channel p c db = find? (has_key p c) db.channels

-- ListAckedHandoffs
unfoldable pub list_acked_handoffs : String → ChannelDb → List ChannelRow
list_acked_handoffs old db =
    select (λ r. is_text old r.handoff_from && is_acked r.handoff_status) db.channels

abbrev pub started_before : ℕ → Option ℕ → Bool
started_before limit none = false
started_before limit (some t) = ltb t limit

abbrev pub is_stuck : ℕ → ℕ → ChannelRow → Bool
is_stuck now threshold r =
    is_handing_over r.handoff_status
    && (is_live r.status && elim r.handoff_started_at [
      | none ↦ false
      | some t ↦ ltb (t + (threshold / second) * second) now
    ])

-- ListStuckHandoffs
unfoldable pub list_stuck_handoffs : ℕ → ℕ → ChannelDb → List ChannelRow
list_stuck_handoffs now threshold db = select (is_stuck now threshold) db.channels

abbrev pub is_draining : List WorkerRow → Option String → Bool
is_draining ws none = false
is_draining ws (some w) = exists? (λ x. is_worker w x && (x.status == "draining")) ws

-- ListDrainingWorkerChannels
unfoldable pub list_draining_worker_channels : ChannelDb → List ChannelRow
list_draining_worker_channels db =
    select
      (λ r. is_draining db.workers r.worker_id && (is_live r.status && is_none r.handoff_status))
      db.channels

-- ListPendingHandoffs
unfoldable pub list_pending_handoffs : String → ChannelDb → List ChannelRow
list_pending_handoffs old db =
    select
      (λ r. is_text old r.handoff_from && (is_handing_over r.handoff_status && is_live r.status))
      db.channels

-- ListEndedChannelsBefore
unfoldable pub list_ended_channels_before : ℕ → ℕ → ChannelDb → List ChannelRow
list_ended_channels_before before limit db = take limit (
    order_by (λ r. elim r.ended_at [ none ↦ 0 | some t ↦ t ])
      (select (λ r. is_ended r.status && started_before before r.ended_at) db.channels))

-- ChatStreamKey
abbrev pub chat_stream_key : String → String → String
chat_stream_key p c = "chat:" ^ (p ^ (":" ^ c))

abbrev pub row_key : ChannelRow → String
row_key r = chat_stream_key r.platform r.channel_id

-- ListAllKnownChannelKeys
unfoldable pub list_all_known_channel_keys : ChannelDb → List String
list_all_known_channel_keys db = map row_key db.channels

-- ListActiveChannelKeys
unfoldable pub list_active_channel_keys : ChannelDb → List String
list_active_channel_keys db =
    map row_key (select (λ r. is_pending r.status || is_live r.status) db.channels)

-- One more in a group of GROUP BY.
unfoldable pub tally : String → List (String × ℕ) → List (String × ℕ)
tally w [] = (w, 1) ∷ []
tally w (g ∷ gs) = let rest = tally w gs in if g.0 == w then (w, g.1 + 1) ∷ gs else g ∷ rest

unfoldable pub group_workers : List ChannelRow → List (String × ℕ)
group_workers [] = []
group_workers (r ∷ rs) =
    let rest = group_workers rs in elim r.worker_id [ none ↦ rest | some w ↦ tally w rest ]

abbrev pub counts : Option String → ChannelRow → Bool
counts none r = is_live r.status
counts (some c) r = is_live r.status && ((r.platform == "soop") && (r.channel_id == c))

-- CountAssignedByWorker
unfoldable pub count_assigned_by_worker : ChannelDb → List (String × ℕ)
count_assigned_by_worker db = group_workers (select (counts db.collection_channel) db.channels)

-- ListWorkersByStatus
unfoldable pub list_workers_by_status : String → ChannelDb → List WorkerRow
list_workers_by_status s db = select (λ w. w.status == s) db.workers

-- ListAliveWorkers
unfoldable pub list_alive_workers : ChannelDb → List WorkerRow
list_alive_workers db = select (λ w. w.status == "alive") db.workers
