-- ===== src/Channels/Found.antt =====
-- UpsertLiveChannels (shared/store/postgres.go) against its plain description: for each channel the
-- last one found counts.
use mathlib.Core.Bool.{true≢false}
use rogi_collector.Prelude.{
  ℕ, ◌≡◌, refl, sym, ap, subst, ◌∙◌, inl, inr, String, Bool, true, false, Option, none, some, List,
  [], ◌∷◌, arith, eq_iff, if◌then◌else◌, Bool-cases, Option-cases, find?, exists?,
  find?-none-exists?, find?-append_none, find?-append_some, find?-head, find?-skip, find?-test,
  exists?-find?, find?-update_where, find?-update_where-none, All, is_some,
}
use rogi_collector.Channels.Model.{
  Status, pending, live, ended, is_ended, ChannelRow, ChannelDb, has_key,
}
use rogi_collector.Channels.Upserting.{
  FoundChannel, dedupe, revived, refresh, fresh_row, upsert_row, upsert_rows, upsert_live_channels,
}
use rogi_collector.Channels.Queries.{get_channel}
use rogi_collector.Channels.Deduping.{has_found, last_found, IsPlain, dedupe-last}

-- A row before and after, given the last channel found for it.
abbrev pub Upserted : ℕ → Option ChannelRow → Option ChannelRow → Option FoundChannel → Type 0
Upserted now before after none = after ≡ before
Upserted now (some r) after (some ch) = after ≡ some (refresh now ch r)
Upserted now none after (some ch) = (n : ℕ) × (after ≡ some (fresh_row now ch n))

revived-twice : (s : Status) → revived (revived s) ≡ revived s
revived-twice pending = refl
revived-twice live = refl
revived-twice ended = refl

end_time-twice :
    (s : Status) (t : Option ℕ)
    → (if is_ended (revived s) then none else if is_ended s then none else t)
      ≡ (if is_ended s then none else t)
end_time-twice pending t = refl
end_time-twice live t = refl
end_time-twice ended t = refl

refresh-twice :
    (now : ℕ) (a b : FoundChannel) (r : ChannelRow)
    → refresh now b (refresh now a r) ≡ refresh now b r
refresh-twice now a b r = rw (revived-twice r.status, end_time-twice r.status r.ended_at) refl

find?-nil : (p c : String) → find? {A = ChannelRow} (has_key p c) [] ≡ none
unfolding find?
find?-nil p c = refl

module _ (now : ℕ) (ch : FoundChannel) (db : ChannelDb) where
  abbrev one_row : ChannelDb
  one_row = upsert_row (refresh now) (fresh_row now) ch db

  -- The channel of the row.
  upsert_row-here :
      Upserted now
        (find? (has_key ch.platform ch.channel_id) db.channels)
        (find? (has_key ch.platform ch.channel_id) one_row.channels)
        (some ch)
  unfolding upsert_row
  upsert_row-here =
      let q = has_key ch.platform ch.channel_id in
      elim (Option-cases (find? q db.channels)) [
        | inl nowhere ↦
            let new = find?-none-exists? q q db.channels (λ x e. e) nowhere in
            let keyed : q (fresh_row now ch db.next_id) ≡ true =
              rw
                (
                  (eq_iff ch.platform ch.platform).1 refl,
                  (eq_iff ch.channel_id ch.channel_id).1 refl,
                )
                refl in
            rw (nowhere, new)
              (
                db.next_id,
                find?-append_none q db.channels (fresh_row now ch db.next_id ∷ []) nowhere
                    ∙ find?-head q (fresh_row now ch db.next_id) [] keyed,
              )
        | inr (r, there) ↦
            let hit = find?-test q db.channels r there in
            elim (Bool-cases (exists? q db.channels)) [
              | inr new ↦ absurd (ground (arith, exists?-find? q q db.channels r new there))
              | inl old ↦
                  rw (there, old)
                    (find?-update_where q q (refresh now ch) db.channels r (λ z e. refl) there
                      ∙ rw hit refl)
            ]
      ]

  -- Another channel.
  upsert_row-there :
      (p c : String)
      → has_found p c ch ≡ false
      → find? (has_key p c) one_row.channels ≡ find? (has_key p c) db.channels
  unfolding upsert_row
  upsert_row-there p c other =
      let q = has_key ch.platform ch.channel_id in
      elim (Option-cases (find? (has_key p c) db.channels)) [
        | inl nowhere ↦ elim (Bool-cases (exists? q db.channels)) [
          | inl old ↦ rw old (
              find?-update_where-none (has_key p c) q (refresh now ch) db.channels (λ z e. refl)
                nowhere
              ∙ sym nowhere)
          | inr new ↦ rw new (
              find?-append_none (has_key p c) db.channels (fresh_row now ch db.next_id ∷ []) nowhere
              ∙ (find?-skip (has_key p c) (fresh_row now ch db.next_id) [] other ∙ find?-nil p c)
              ∙ sym nowhere)
        ]
        | inr (r, there) ↦ elim (Bool-cases (exists? q db.channels)) [
          | inl old ↦ rw old (
              find?-update_where (has_key p c) q (refresh now ch) db.channels r (λ z e. refl) there
              ∙ (rw (apart r (find?-test (has_key p c) db.channels r there)) (sym there)))
          | inr new ↦ rw new (
              find?-append_some (has_key p c) db.channels (fresh_row now ch db.next_id ∷ []) r there
              ∙ sym there)
        ]
      ]
    where
      apart : (r : ChannelRow) → has_key p c r ≡ true → has_key ch.platform ch.channel_id r ≡ false
      apart r keyed = elim (Bool-cases (has_key ch.platform ch.channel_id r)) [
        | inr e ↦ e
        | inl e ↦
            let same_p : r.platform ≡ ch.platform =
              (eq_iff r.platform ch.platform).0 (ground arith) in
            let same_c : r.channel_id ≡ ch.channel_id =
              (eq_iff r.channel_id ch.channel_id).0 (ground arith) in
            absurd (true≢false (sym keyed ∙ (rw (same_p, same_c) other)))
      ]

module _ (p c : String) (now : ℕ) where
  upsert_row-one :
      (ch : FoundChannel) (db : ChannelDb)
      → Upserted now
          (find? (has_key p c) db.channels)
          (find? (has_key p c) (upsert_row (refresh now) (fresh_row now) ch db).channels)
          (if has_found p c ch then some ch else none)
  upsert_row-one ch db = elim (Bool-cases (has_found p c ch)) [
    | inr other ↦ rw other (upsert_row-there now ch db p c other)
    | inl this ↦
        let same_p : ch.platform ≡ p = (eq_iff ch.platform p).0 (ground arith) in
        let same_c : ch.channel_id ≡ c = (eq_iff ch.channel_id c).0 (ground arith) in
        rw this (
          subst
            (λ (x : String).
              Upserted now (find? (has_key x c) db.channels)
                (find? (has_key x c) (one_row now ch db).channels) (some ch))
            same_p
            (subst
              (λ (x : String).
                Upserted now (find? (has_key ch.platform x) db.channels)
                  (find? (has_key ch.platform x) (one_row now ch db).channels) (some ch))
              same_c (upsert_row-here now ch db)))
  ]

  last_found-test :
      (chs : List FoundChannel) (x : FoundChannel)
      → last_found p c chs ≡ some x
      → has_found p c x ≡ true
  unfolding last_found
  last_found-test [] x h = cc
  last_found-test (ch ∷ chs) x h = elim (Option-cases (last_found p c chs)) [
    | inr (y, later) ↦ last_found-test chs x (ground arith)
    | inl nothing ↦ ground arith
  ]

  -- Two channels of the same row, one after the other.
  Upserted-twice :
      (before mid after : Option ChannelRow) (a b : FoundChannel)
      → has_found p c a ≡ true
      → has_found p c b ≡ true
      → Upserted now before mid (some a)
      → Upserted now mid after (some b)
      → Upserted now before after (some b)
  Upserted-twice (some r) mid after a b ha hb u v =
      subst (λ (o : Option ChannelRow). Upserted now o after (some b)) u v
      ∙ ap some (refresh-twice now a b r)
  Upserted-twice none mid after a b ha hb (n, u) v =
      let same_p : a.platform ≡ b.platform =
        (eq_iff a.platform p).0 (ground arith) ∙ sym ((eq_iff b.platform p).0 (ground arith)) in
      let same_c : a.channel_id ≡ b.channel_id =
        (eq_iff a.channel_id c).0 (ground arith) ∙ sym ((eq_iff b.channel_id c).0 (ground arith)) in
      let is : after ≡ some (refresh now b (fresh_row now a n)) =
        subst (λ (o : Option ChannelRow). Upserted now o after (some b)) u v in
      (n, is ∙ rw (same_p, same_c) refl)

  Upserted-then :
      (before mid after : Option ChannelRow) (b : Bool) (ch : FoundChannel)
      (later : Option FoundChannel)
      → b ≡ has_found p c ch
      → ((x : FoundChannel) → later ≡ some x → has_found p c x ≡ true)
      → Upserted now before mid (if b then some ch else none)
      → Upserted now mid after later
      → Upserted now before after (if is_some later then later else if b then some ch else none)
  Upserted-then before mid after true ch none hb hl u v =
      subst (λ (o : Option ChannelRow). Upserted now before o (some ch)) (sym v) u
  Upserted-then before mid after false ch none hb hl u v = v ∙ u
  Upserted-then before mid after true ch (some x) hb hl u v =
      Upserted-twice before mid after ch x (sym hb) (hl x refl) u v
  Upserted-then before mid after false ch (some x) hb hl u v =
      subst (λ (o : Option ChannelRow). Upserted now o after (some x)) u v

  upsert_rows-last :
      (chs : List FoundChannel) (db : ChannelDb)
      → Upserted now
          (find? (has_key p c) db.channels)
          (find? (has_key p c) (upsert_rows (refresh now) (fresh_row now) chs db).channels)
          (last_found p c chs)
  unfolding upsert_rows last_found
  upsert_rows-last [] db = refl
  upsert_rows-last (ch ∷ chs) db =
      Upserted-then (find? (has_key p c) db.channels) _ _ (has_found p c ch) ch (last_found p c chs)
        refl (λ x h. last_found-test chs x h) (upsert_row-one ch db)
        (upsert_rows-last chs (upsert_row (refresh now) (fresh_row now) ch db))

  -- Where no platform found has a colon in its name, an upsert leaves each channel's row as the
  -- last channel found under its platform and ID says: a row that was there is refreshed with it,
  -- and pending again if it had ended; a row that was not is inserted; other rows are kept.
  pub upsert_live_channels_last :
      (chs : List FoundChannel) (db : ChannelDb)
      → All IsPlain chs
      → Upserted now
          (get_channel p c db)
          (get_channel p c (upsert_live_channels now chs db))
          (last_found p c chs)
  unfolding upsert_live_channels get_channel last_found
  upsert_live_channels_last chs db plain =
      subst
        (Upserted now (find? (has_key p c) db.channels) (
          find? (has_key p c)
            (upsert_rows (refresh now) (fresh_row now) (dedupe [] chs) db).channels))
        (dedupe-last p c chs [] tt plain ∙ self (last_found p c chs))
        (upsert_rows-last (dedupe [] chs) db)
    where
      self : (o : Option FoundChannel) → (if is_some o then o else last_found p c []) ≡ o
      self none = refl
      self (some x) = refl
