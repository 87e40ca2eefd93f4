-- ===== src/Channels/Operations.antt =====
-- What the operations keep of the invariant of the tables.
use rogi_collector.Prelude.{
  ℕ, ◌≡◌, refl, sym, inl, inr, String, subst, ◌∙◌, if-cases, exists?-append, eq_iff, Bool, true,
  false, not, Option, none, some, List, [], ◌∷◌, arith, is_some, All-map, Bool-cases, select, ok,
  Result-cases,
}
use rogi_collector.Channels.Model.{
  Status, pending, live, ended, HandoffStatus, is_live, is_handing_over, is_text, ChannelRow,
  WorkerRow, ChannelDb, is_worker, is_registered,
}
use rogi_collector.Channels.Changes.{
  set_worker, assigns, set_assigned, assign_channel, reassigns, set_handoff, reassign_channel,
  set_acked, clear_fields, register_worker, refresh_worker, delete_worker, set_orphaned,
}
use rogi_collector.Channels.Laws.{
  map-update_where, exists?-update_where, exists?-select_kept, All-update_where_to,
}
use rogi_collector.Channels.Preserve.{set_worker-IsSoundTables}
use rogi_collector.Channels.Sound.{IsSoundRow, key_of, IsSoundTables}

set_assigned-IsSoundRow :
    (ws : List WorkerRow) (w : String) (r : ChannelRow)
    → is_registered w ws ≡ true
    → IsSoundRow ws (set_assigned w r)
set_assigned-IsSoundRow ws w r known = record {
  held = λ u h. (refl, subst (λ (x : String). is_registered x ws ≡ true) (ground arith) known);
  from_set = refl;
  start_set = refl;
  closed = λ h. cc;
}

pub assign_channel-IsSoundTables :
    (n : ℕ) (w : String) (db db' : ChannelDb)
    → assign_channel n w db ≡ ok db'
    → IsSoundTables db
    → IsSoundTables db'
unfolding assign_channel
assign_channel-IsSoundTables n w db db' h s =
    let q = assigns db.collection_channel n in
    elim (Result-cases (set_worker q w (set_assigned w) db)) [
      | inl (e, bad) ↦ absurd (ground arith)
      | inr (t, good) ↦
          let is : db' ≡ t = ground arith in
          subst IsSoundTables (sym is) (
            set_worker-IsSoundTables q w (set_assigned w) db t (λ r. refl)
              (λ r e k known. set_assigned-IsSoundRow db.workers w r known) good s)
    ]

set_handoff-IsSoundRow :
    (ws : List WorkerRow) (now : ℕ) (new old : String) (r : ChannelRow)
    → r.status ≡ live
    → is_registered new ws ≡ true
    → IsSoundRow ws (set_handoff now new old r)
set_handoff-IsSoundRow ws now new old r is_on known = record {
  held = λ u h. (is_on, subst (λ (x : String). is_registered x ws ≡ true) (ground arith) known);
  from_set = refl;
  start_set = refl;
  closed = λ h. cc;
}

is_live-live : (s : Status) → is_live s ≡ true → s ≡ live
is_live-live pending h = cc
is_live-live live h = refl
is_live-live ended h = cc

pub reassign_channel-IsSoundTables :
    (now n : ℕ) (new old : String) (db : ChannelDb) (moved : Bool) (db' : ChannelDb)
    → reassign_channel now n new old db ≡ ok (moved, db')
    → IsSoundTables db
    → IsSoundTables db'
unfolding reassign_channel
reassign_channel-IsSoundTables now n new old db moved db' h s =
    elim (Bool-cases (is_some db.collection_channel)) [
      | inl scoped ↦ let is : db' ≡ db = ground arith in subst IsSoundTables (sym is) s
      | inr free ↦ elim (Result-cases (set_worker (reassigns n) new (set_handoff now new old) db)) [
        | inl (e, bad) ↦ absurd (ground arith)
        | inr (t, good) ↦
            let is : db' ≡ t = ground arith in
            subst IsSoundTables (sym is) (
              set_worker-IsSoundTables (reassigns n) new (set_handoff now new old) db t (λ r. refl)
                (λ r e k known.
                  set_handoff-IsSoundRow db.workers now new old r
                    (is_live-live r.status (ground arith)) known)
                good s)
      ]
    ]

-- A handoff that was pending is set before and after.
pub set_acked-IsSoundRow :
    (ws : List WorkerRow) (r : ChannelRow)
    → is_handing_over r.handoff_status ≡ true
    → IsSoundRow ws r
    → IsSoundRow ws (set_acked r)
set_acked-IsSoundRow ws r on s = record {
  held = s.held;
  from_set = s.from_set ∙ is_set r.handoff_status on;
  start_set = s.start_set ∙ is_set r.handoff_status on;
  closed = s.closed;
}
  where
    is_set : (h : Option HandoffStatus) → is_handing_over h ≡ true → is_some h ≡ true
    is_set none e = e
    is_set (some x) e = refl

pub clear_fields-IsSoundRow :
    (ws : List WorkerRow) (r : ChannelRow) → IsSoundRow ws r → IsSoundRow ws (clear_fields r)
clear_fields-IsSoundRow ws r s = record {
  held = s.held;
  from_set = refl;
  start_set = refl;
  closed = s.closed;
}

-- The rows after a change of the workers that keeps every worker registered.
pub workers-IsSoundTables :
    (ws : List WorkerRow) (db : ChannelDb)
    → ((w : String) → is_registered w db.workers ≡ true → is_registered w ws ≡ true)
    → IsSoundTables db
    → IsSoundTables (record db { workers = ws })
workers-IsSoundTables ws db keep s = record {
  rows =
      All-map
        (λ r k. record {
          held = λ w h. ((k.held w h).0, keep w (k.held w h).1);
          from_set = k.from_set;
          start_set = k.start_set;
          closed = k.closed;
        })
        db.channels s.rows;
  keys = s.keys;
}

pub register_worker-IsSoundTables :
    (w : WorkerRow) (db : ChannelDb) → IsSoundTables db → IsSoundTables (register_worker w db)
unfolding register_worker
register_worker-IsSoundTables w db s =
    workers-IsSoundTables _ db
      (λ u h.
        if-cases (λ (ws : List WorkerRow). is_registered u ws ≡ true)
          (is_registered w.id db.workers) _ _
          (λ e.
            exists?-update_where (is_worker u) (is_worker w.id) (refresh_worker w) db.workers
              (λ x. refl)
            ∙ h)
          (λ e. rw (exists?-append (is_worker u) db.workers (w ∷ [])) (rw h refl)))
      s

other_worker :
    (w u : String) (x : WorkerRow) (o : Option String)
    → is_text w o ≡ false
    → o ≡ some u
    → is_worker u x ≡ true
    → not (is_worker w x) ≡ true
other_worker w u x none e h i = cc
other_worker w u x (some t) e h i =
    let same : x.id ≡ t = (eq_iff x.id u).0 i ∙ sym (ground arith) in rw same (rw e refl)

pub delete_worker-IsSoundTables :
    (w : String) (db : ChannelDb) → IsSoundTables db → IsSoundTables (delete_worker w db)
unfolding delete_worker
delete_worker-IsSoundTables w db s = record {
  rows =
      All-update_where_to (IsSoundRow db.workers)
        (IsSoundRow (select (λ r. not (is_worker w r)) db.workers)) (λ r. is_text w r.worker_id)
        set_orphaned db.channels
        (λ r e k. record {
          held = λ u h. cc;
          from_set = k.from_set;
          start_set = k.start_set;
          closed = k.closed;
        })
        (λ r e k. record {
          held = λ u h. (
            (k.held u h).0,
            exists?-select_kept (is_worker u) (λ r. not (is_worker w r)) db.workers
                (λ x i. other_worker w u x r.worker_id e h i) (k.held u h).1,
          );
          from_set = k.from_set;
          start_set = k.start_set;
          closed = k.closed;
        })
        s.rows;
  keys =
      rw (map-update_where key_of (λ r. is_text w r.worker_id) set_orphaned db.channels (λ r. refl))
        s.keys;
}
