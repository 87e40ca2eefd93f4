-- ===== src/Channels/Evolution.antt =====
-- What one operation on the tables can do to a row.
use rogi_collector.Prelude.{
  ℕ, ◌≤◌, ◌≡◌, refl, sym, subst, inl, inr, String, Bool, some, [], arith, is_some, if-holds, ok,
  Result-cases, Bool-cases, find?,
}
use rogi_collector.Channels.Model.{is_ended, is_text, ChannelRow, ChannelDb, has_id}
use rogi_collector.Channels.Changes.{
  set_worker, assigns, set_assigned, assign_channel, set_pending, unassigns_worker,
  unassign_worker_channels, unassigns, unassign_channel, reclaims, unassign_dead_worker_channels,
  set_ended, ends, mark_ended_channels, mark_channel_ended, opts_out, set_opted_out,
  end_collection_opted_out_live_channel, reassigns, set_handoff, reassign_channel, acks, set_acked,
  ack_handoff, clears, clear_fields, clear_handoff, register_worker, update_worker_status,
  delete_worker, set_orphaned,
}
use rogi_collector.Channels.Upserting.{
  dedupe, refresh, refresh_history, fresh_row, fresh_history_row, upsert_live_channels,
  upsert_live_channels_with_history,
}
use rogi_collector.Channels.Steps.{
  Step, upserted, upserted_with_history, marked, marked_one, opted_out_ended, assigned,
  unassigned_worker, unassigned, reclaimed, reassigned, handoff_acked, handoff_cleared, registered,
  status_updated, deleted, outside,
}
use rogi_collector.Channels.Continuing.{
  kept_handoff, not_acked, unchanged, Continues, update_rows-Continues, set_worker-Continues,
  upsert_rows-Continues,
}

assign_channel-Continues :
    (i : ℕ) (w : String) (db db' : ChannelDb) (n : ℕ) (r : ChannelRow)
    → assign_channel i w db ≡ ok db'
    → find? (has_id n) db.channels ≡ some r
    → Continues n r db'
unfolding assign_channel
assign_channel-Continues i w db db' n r h there =
    let q = assigns db.collection_channel i in
    elim (Result-cases (set_worker q w (set_assigned w) db)) [
      | inl (e, bad) ↦ absurd (ground arith)
      | inr (t, good) ↦
          let is : db' ≡ t = ground arith in
          subst (Continues n r) (sym is) (
            set_worker-Continues q w (set_assigned w) db t n r (λ z. refl)
              (λ e. not_acked r (set_assigned w r) refl refl (omega arith) refl) good there)
    ]

reassign_channel-Continues :
    (now i : ℕ) (new old : String) (db : ChannelDb) (moved : Bool) (db' : ChannelDb) (n : ℕ)
    (r : ChannelRow)
    → reassign_channel now i new old db ≡ ok (moved, db')
    → find? (has_id n) db.channels ≡ some r
    → Continues n r db'
unfolding reassign_channel
reassign_channel-Continues now i new old db moved db' n r h there =
    elim (Bool-cases (is_some db.collection_channel)) [
      | inl scoped ↦
          let is : db' ≡ db = ground arith in subst (Continues n r) (sym is) (r, there, unchanged r)
      | inr free ↦ elim (Result-cases (set_worker (reassigns i) new (set_handoff now new old) db)) [
        | inl (e, bad) ↦ absurd (ground arith)
        | inr (t, good) ↦
            let is : db' ≡ t = ground arith in
            subst (Continues n r) (sym is) (
              set_worker-Continues (reassigns i) new (set_handoff now new old) db t n r (λ z. refl)
                (λ e. not_acked r (set_handoff now new old r) refl refl (omega arith) refl) good
                there)
      ]
    ]

-- One operation on the tables never removes a row. It keeps the row's ID, channel and first
-- discovery, never lowers its session number, and leaves a handoff acked only where it was acked or
-- pending, on the same worker or on none.
pub Step-Continues :
    {db db' : ChannelDb}
    → Step db db'
    → (n : ℕ) (r : ChannelRow) → find? (has_id n) db.channels ≡ some r
    → Continues n r db'
unfolding upsert_live_channels upsert_live_channels_with_history mark_ended_channels
    mark_channel_ended end_collection_opted_out_live_channel unassign_worker_channels
    unassign_channel unassign_dead_worker_channels ack_handoff clear_handoff update_worker_status
    register_worker delete_worker
Step-Continues (upserted {db} now chs) n r =
    upsert_rows-Continues (refresh now) (fresh_row now)
      (λ ch r. record {
        key = refl;
        discovered = refl;
        session = omega arith;
        handoff = refl;
        worker = refl;
      })
      (dedupe [] chs) db n r
Step-Continues (upserted_with_history {db} now chs) n r =
    upsert_rows-Continues (refresh_history now) (fresh_history_row now)
      (λ ch r. record {
        key = refl;
        discovered = refl;
        session =
            if-holds (λ (s : ℕ). r.current_session_seq ≤ s) (is_ended r.status) _ _ (omega arith)
              (omega arith);
        handoff = refl;
        worker = refl;
      })
      (dedupe [] chs) db n r
Step-Continues (marked {db} now p active) n r =
    update_rows-Continues (ends p active) (set_ended now) db n r (λ z. refl)
      (λ e. kept_handoff r (set_ended now r) refl refl (omega arith) refl (inr refl))
Step-Continues (marked_one {db} now i) n r =
    update_rows-Continues (has_id i) (set_ended now) db n r (λ z. refl)
      (λ e. kept_handoff r (set_ended now r) refl refl (omega arith) refl (inr refl))
Step-Continues (opted_out_ended {db} now p c) n r =
    update_rows-Continues (opts_out p c) (set_opted_out now) db n r (λ z. refl)
      (λ e. kept_handoff r (set_opted_out now r) refl refl (omega arith) refl (inr refl))
Step-Continues {db} {db'} (assigned i w h) n r = assign_channel-Continues i w db db' n r h
Step-Continues (unassigned_worker {db} w) n r =
    update_rows-Continues (unassigns_worker w) set_pending db n r (λ z. refl)
      (λ e. not_acked r (set_pending r) refl refl (omega arith) refl)
Step-Continues (unassigned {db} p c w) n r =
    update_rows-Continues (unassigns p c w) set_pending db n r (λ z. refl)
      (λ e. not_acked r (set_pending r) refl refl (omega arith) refl)
Step-Continues (reclaimed {db}) n r =
    update_rows-Continues (reclaims db.workers) set_pending db n r (λ z. refl)
      (λ e. not_acked r (set_pending r) refl refl (omega arith) refl)
Step-Continues {db} {db'} (reassigned now i new old moved h) n r =
    reassign_channel-Continues now i new old db moved db' n r h
Step-Continues (handoff_acked {db} p c) n r =
    update_rows-Continues (acks p c) set_acked db n r (λ z. refl)
      (λ e. record {
        key = refl;
        discovered = refl;
        session = omega arith;
        acks_pending = λ k. (inr (ground arith), inl refl);
      })
Step-Continues (handoff_cleared {db} i) n r =
    update_rows-Continues (clears i) clear_fields db n r (λ z. refl)
      (λ e. not_acked r (clear_fields r) refl refl (omega arith) refl)
Step-Continues (registered w) n r = λ h. (r, h, unchanged r)
Step-Continues (status_updated now w s) n r = λ h. (r, h, unchanged r)
Step-Continues (deleted {db} w) n r = λ h.
    update_rows-Continues (λ r. is_text w r.worker_id) set_orphaned db n r (λ z. refl)
      (λ e. kept_handoff r (set_orphaned r) refl refl (omega arith) refl (inr refl)) h
Step-Continues (outside os subscribed) n r = λ h. (r, h, unchanged r)
