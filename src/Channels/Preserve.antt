-- ===== src/Channels/Preserve.antt =====
-- What keeps the invariant of the tables.
use rogi_collector.Prelude.{
  exists?-map, ℕ, ◌+◌, ◌<◌, ◌≡◌, refl, sym, inl, inr, String, subst, ◌∙◌, Bool, true, false, ◌&&◌,
  is_some, Option, none, some, List, [], ◌∷◌, ◌++◌, map, arith, ◌==◌, nat_eq, All-map, Bool-cases,
  exists?, ok,
}
use rogi_collector.Channels.Model.{
  Status, pending, live, ended, ChannelRow, WorkerRow, ChannelDb, has_key, is_registered,
}
use rogi_collector.Channels.Changes.{
  update_rows, set_worker, set_pending, set_ended, end_time, set_opted_out,
}
use rogi_collector.Channels.Upserting.{
  FoundChannel, refresh, refresh_history, revived, fresh_row, fresh_history_row, upsert_row,
  upsert_rows,
}
use rogi_collector.Channels.Laws.{
  Distinct-snoc, map-update_where, map-snoc, All-update_where, All-snoc, All-none,
  update_where-none,
}
use rogi_collector.Channels.Sound.{
  IsSoundRow, Key, key_of, same_id, same_channel, AreKeys, IsSoundTables, update_rows-IsSoundTables,
}

-- The updates of a row.
pub set_pending-IsSoundRow :
    (ws : List WorkerRow) (r : ChannelRow) → IsSoundRow ws r → IsSoundRow ws (set_pending r)
set_pending-IsSoundRow ws r s = record {
  held = λ w h. cc;
  from_set = refl;
  start_set = refl;
  closed = λ h. cc;
}

pub set_ended-IsSoundRow :
    (ws : List WorkerRow) (now : ℕ) (r : ChannelRow)
    → IsSoundRow ws r
    → IsSoundRow ws (set_ended now r)
set_ended-IsSoundRow ws now r s = record {
  held = λ w h. cc;
  from_set = s.from_set;
  start_set = s.start_set;
  closed = λ h. refl;
}

end_time-set : (now : ℕ) (t : Option ℕ) → is_some (end_time now t) ≡ true
end_time-set now none = refl
end_time-set now (some t) = refl

pub set_opted_out-IsSoundRow :
    (ws : List WorkerRow) (now : ℕ) (r : ChannelRow)
    → IsSoundRow ws r
    → IsSoundRow ws (set_opted_out now r)
set_opted_out-IsSoundRow ws now r s = record {
  held = λ w h. cc;
  from_set = s.from_set;
  start_set = s.start_set;
  closed = λ h. end_time-set now r.ended_at;
}

pub set_worker-IsSoundTables :
    (q : ChannelRow → Bool) (w : String) (f : ChannelRow → ChannelRow) (db db' : ChannelDb)
    → ((r : ChannelRow) → key_of (f r) ≡ key_of r)
    → ((r : ChannelRow)
        → q r ≡ true
        → IsSoundRow db.workers r
        → is_registered w db.workers ≡ true
        → IsSoundRow db.workers (f r))
    → set_worker q w f db ≡ ok db'
    → IsSoundTables db
    → IsSoundTables db'
unfolding set_worker
set_worker-IsSoundTables q w f db db' keep step h s =
    elim (Bool-cases (is_registered w db.workers)) [
      | inl known ↦
          let is : db' ≡ update_rows q f db = ground arith in
          subst IsSoundTables (sym is)
            (update_rows-IsSoundTables q f db keep (λ r e k. step r e k known) s)
      | inr unknown ↦ elim (Bool-cases (exists? q db.channels)) [
        | inl hit ↦ absurd (ground arith)
        | inr miss ↦
            let is : db' ≡ update_rows q f db = ground arith in
            subst IsSoundTables (sym is) (rw (update_where-none q f db.channels miss) s)
      ]
    ]

revived-live : (s : Status) → s ≡ live → revived s ≡ live
revived-live s h = rw h refl

revived-ended : (s : Status) → ¬ (revived s ≡ ended)
revived-ended pending = λ h. cc
revived-ended live = λ h. cc
revived-ended ended = λ h. cc

pub revived_row :
    (ws : List WorkerRow) (now : ℕ) (ch : FoundChannel) (r : ChannelRow)
    → IsSoundRow ws r
    → IsSoundRow ws (refresh now ch r)
revived_row ws now ch r s = record {
  held = λ w h. (revived-live r.status (s.held w h).0, (s.held w h).1);
  from_set = s.from_set;
  start_set = s.start_set;
  closed = λ h. absurd (revived-ended r.status h);
}

-- A row of the upserts is as sound with the columns of the history.
pub revived_history_row :
    (ws : List WorkerRow) (now : ℕ) (ch : FoundChannel) (r : ChannelRow)
    → IsSoundRow ws r
    → IsSoundRow ws (refresh_history now ch r)
revived_history_row ws now ch r s =
    let k = revived_row ws now ch r s in
    record { held = k.held; from_set = k.from_set; start_set = k.start_set; closed = k.closed }

pub fresh_row-IsSoundRow :
    (ws : List WorkerRow) (now : ℕ) (ch : FoundChannel) (n : ℕ) → IsSoundRow ws (fresh_row now ch n)
fresh_row-IsSoundRow ws now ch n = record {
  held = λ w h. cc;
  from_set = refl;
  start_set = refl;
  closed = λ h. cc;
}

pub fresh_history_row-IsSoundRow :
    (ws : List WorkerRow) (now : ℕ) (ch : FoundChannel) (n : ℕ)
    → IsSoundRow ws (fresh_history_row now ch n)
fresh_history_row-IsSoundRow ws now ch n = record {
  held = λ w h. cc;
  from_set = refl;
  start_set = refl;
  closed = λ h. cc;
}

-- Keys after a new one.
AreKeys-snoc :
    (n : ℕ) (p c : String) (keys : List Key)
    → exists? (λ (k : Key). (k.1 == p) && (k.2 == c)) keys ≡ false
    → AreKeys n keys
    → AreKeys (n + 1) (keys ++ (n, p, c) ∷ [])
AreKeys-snoc n p c keys new s = record {
  below =
      All-snoc (λ (k : Key). k.0 < n + 1) keys (n, p, c)
        (All-map (λ k h. omega (arith, h)) keys s.below) (omega arith);
  ids =
      Distinct-snoc same_id keys (n, p, c) s.ids
        (All-none (λ (k : Key). k.0 < n) (λ (k : Key). nat_eq k.0 n) keys (λ k h. ground arith)
          s.below);
  channels = Distinct-snoc same_channel keys (n, p, c) s.channels new;
}

AreKeys-later : (n : ℕ) (keys : List Key) → AreKeys n keys → AreKeys (n + 1) keys
AreKeys-later n keys s = record {
  below = All-map (λ k h. omega (arith, h)) keys s.below;
  ids = s.ids;
  channels = s.channels;
}

module _ (set : FoundChannel → ChannelRow → ChannelRow) (fresh : FoundChannel → ℕ → ChannelRow)
    (set_keep : (ch : FoundChannel) (r : ChannelRow) → key_of (set ch r) ≡ key_of r)
    (fresh_key : (ch : FoundChannel) (n : ℕ)
      → key_of (fresh ch n) ≡ (n, ch.platform, ch.channel_id))
    (set_sound : (ws : List WorkerRow) (ch : FoundChannel) (r : ChannelRow)
      → IsSoundRow ws r
      → IsSoundRow ws (set ch r))
    (fresh_sound : (ws : List WorkerRow) (ch : FoundChannel) (n : ℕ)
      → IsSoundRow ws (fresh ch n)) where
  upsert_row-IsSoundTables :
      (ch : FoundChannel) (db : ChannelDb)
      → IsSoundTables db
      → IsSoundTables (upsert_row set fresh ch db)
  unfolding upsert_row
  upsert_row-IsSoundTables ch db s =
      let q = has_key ch.platform ch.channel_id in
      elim (Bool-cases (exists? q db.channels)) [
        | inl old ↦ rw old (record {
          rows =
              All-update_where (IsSoundRow db.workers) q (set ch) db.channels
                (λ r e k. set_sound db.workers ch r k) s.rows;
          keys =
              rw (map-update_where key_of q (set ch) db.channels (set_keep ch))
                (AreKeys-later db.next_id (map key_of db.channels) s.keys);
        })
        | inr new ↦ rw new (record {
          rows =
              All-snoc (IsSoundRow db.workers) db.channels (fresh ch db.next_id) s.rows
                (fresh_sound db.workers ch db.next_id);
          keys =
              rw (map-snoc key_of db.channels (fresh ch db.next_id), fresh_key ch db.next_id)
                (AreKeys-snoc db.next_id ch.platform ch.channel_id (map key_of db.channels)
                  (exists?-map (λ (k : Key). (k.1 == ch.platform) && (k.2 == ch.channel_id)) key_of
                      db.channels
                    ∙ new)
                  s.keys);
        })
      ]

  pub upsert_rows-IsSoundTables :
      (chs : List FoundChannel) (db : ChannelDb)
      → IsSoundTables db
      → IsSoundTables (upsert_rows set fresh chs db)
  unfolding upsert_rows
  upsert_rows-IsSoundTables [] db s = s
  upsert_rows-IsSoundTables (ch ∷ chs) db s =
      upsert_rows-IsSoundTables chs (upsert_row set fresh ch db) (upsert_row-IsSoundTables ch db s)
