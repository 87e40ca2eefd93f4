-- ===== src/Journal/Retention.antt =====
-- Expiry, maintenance, rotation and the outbox keep the journal sound.
use rogi_collector.Prelude.{
  ℕ, ◌+◌, ◌-◌, ◌*◌, ◌^◌, ◌≤◌, ◌<◌, ◌≡◌, refl, sym, ap, subst, ◌⊎◌, inl, inr, String, Bool, not,
  Option, none, some, List, [], ◌∷◌, arith, ltb, ◌==◌, Bool-cases, Option-cases, Result-cases,
  select, take, find?, ok, All, All-take,
}
use rogi_collector.Journal.Model.{Outbox, Donation, Channel, Row, Outbox, Db, Env, day}
use rogi_collector.Journal.Grants.{of_channel, collection_state, scan_collection}
use rogi_collector.Journal.Donations.{
  is_retained, order_by_offset, payload_size, expire_loop, expire_point, drop_through,
  expire_donations,
}
use rogi_collector.Journal.Consumers.{dispatch_outbox, dispatch_loop}
use rogi_collector.Journal.Maintenance.{
  purge, owner_of, maintain_collection, rotate, rotate_journal,
}
use rogi_collector.Journal.Invariant.{IsRun, IsRun-le, IsSoundDb, IsFresh, retained}
use rogi_collector.Journal.Batch.{order_by-run}
use rogi_collector.Journal.Preserve.{channel_of_find, drop-IsSound, rotate-IsSound, delete-IsSound}

IsRun-All : (e n : ℕ) (rs : List Row) → IsRun e n rs → All (λ r. r.channel_offset ≤ n) rs
IsRun-All e n [] h = tt
IsRun-All e n (r ∷ rs) h = (omega (arith, IsRun-le (e + 1) n rs h.2), IsRun-All (e + 1) n rs h.2)

module _ (size : Donation → ℕ) (now min_age max_age max_bytes : ℕ) (unacked_at : ℕ → Bool) where
  expire_loop-le :
      (n total through : ℕ) (vs : List Row)
      → through ≤ n
      → All (λ r. r.channel_offset ≤ n) vs
      → expire_loop size now min_age max_age max_bytes unacked_at total through vs ≤ n
  unfolding expire_loop
  expire_loop-le n total through [] h all = h
  expire_loop-le n total through (v ∷ vs) h all = ground (
    arith,
    expire_loop-le n (total - payload_size size v.payload) v.channel_offset vs all.0 all.1,
  )

-- The candidates of an expiry: the oldest retained rows of the channel.
pub candidates-run :
    (e n : ℕ) (rows : List Row) (ch gen : String)
    → IsRun e n (retained rows ch gen)
    → take 500 (order_by_offset (select (is_retained ch gen) rows))
      ≡ take 500 (retained rows ch gen)
candidates-run e n rows ch gen h = ap (take 500) (order_by-run e n _ h)

pub expire_point-le :
    (e : Env) (now min_age max_age max_bytes : ℕ) (c : Channel) (ch : String) (db : Db)
    → find? (of_channel ch) db.channels ≡ some c
    → c.channel_id ≡ ch
    → IsSoundDb db
    → expire_point e now min_age max_age max_bytes (scan_collection now db.grants c) db
      ≤ c.next_offset
unfolding expire_point scan_collection
expire_point-le e now min_age max_age max_bytes c ch db found id sound =
    let run =
      subst (λ k. IsRun c.expired_through c.next_offset (retained db.donations k c.generation))
        (sym id) (sound.run ch c found) in
    expire_loop-le e.column_size now min_age max_age max_bytes _ c.next_offset _ _ _
      (IsRun-le _ _ _ run)
      (rw (candidates-run _ _ db.donations c.channel_id c.generation run)
        (All-take (λ r. r.channel_offset ≤ c.next_offset) 500 _ (IsRun-All _ _ _ run)))

scan_generation :
    (now : ℕ) (db : Db) (c : Channel) → (scan_collection now db.grants c).generation ≡ c.generation
unfolding scan_collection
scan_generation now db c = refl

-- An expiry drops nothing, or moves the mark of the channel within its offsets.
abbrev pub Expired : Env → ℕ → ℕ → ℕ → ℕ → String → Db → Db → Type 0
Expired e now min_age max_age max_bytes ch db db' =
    (c : Channel) × (find? (of_channel ch) db.channels ≡ some c)
    × (let through =
          expire_point e now min_age max_age max_bytes (scan_collection now db.grants c) db in
        (c.expired_through < through) × (db' ≡ drop_through ch c.generation through db))

pub expire_donations-inv :
    (e : Env) (now : ℕ) (ch : String) (min_age max_age max_bytes : ℕ) (db db' : Db)
    → expire_donations e now ch min_age max_age max_bytes db ≡ ok db'
    → (db' ≡ db) ⊎ Expired e now min_age max_age max_bytes ch db db'
unfolding expire_donations collection_state
expire_donations-inv e now ch min_age max_age max_bytes db db' h =
    elim (Option-cases (find? (of_channel ch) db.channels)) [
      | inl missing ↦ absurd (ground arith)
      | inr (c, found) ↦
          elim (Bool-cases (
            ltb (scan_collection now db.grants c).expired_through (
              expire_point e now min_age max_age max_bytes (scan_collection now db.grants c) db))) [
                | inl moves ↦ inr (
                  c,
                  found,
                  (
                    unfold scan_collection in ground arith,
                    ground (arith, scan_generation now db c),
                  ),
                )
                | inr stays ↦ inl (ground arith)
              ]
    ]

pub Expired-IsSound :
    (e : Env) (now min_age max_age max_bytes : ℕ) (ch : String) (db db' : Db)
    → Expired e now min_age max_age max_bytes ch db db'
    → IsSoundDb db
    → IsSoundDb db'
unfolding drop_through
Expired-IsSound e now min_age max_age max_bytes ch db db' (c, found, (low, is)) sound =
    subst IsSoundDb (sym is) (
      drop-IsSound db.channels db.donations db.consumers sound ch c _ found (omega arith) (
        expire_point-le e now min_age max_age max_bytes c ch db found
          (channel_of_find ch db.channels c found) sound))

pub expire_donations-IsSound :
    (e : Env) (now : ℕ) (ch : String) (min_age max_age max_bytes : ℕ) (db db' : Db)
    → expire_donations e now ch min_age max_age max_bytes db ≡ ok db'
    → IsSoundDb db
    → IsSoundDb db'
expire_donations-IsSound e now ch min_age max_age max_bytes db db' h sound =
    elim (expire_donations-inv e now ch min_age max_age max_bytes db db' h) [
      | inl same ↦ subst IsSoundDb (sym same) sound
      | inr x ↦ Expired-IsSound e now min_age max_age max_bytes ch db db' x sound
    ]

purge-IsSound :
    (now : ℕ) (ch : String) (owner : Option String) (db : Db)
    → IsSoundDb db
    → IsSoundDb (purge now ch owner db)
unfolding purge
purge-IsSound now ch owner db sound =
    delete-IsSound db.channels db.donations db.consumers sound _ (λ r h. ground arith)

pub maintain_collection-IsSound :
    (e : Env) (now : ℕ) (ch : String) (db db' : Db)
    → maintain_collection e now ch db ≡ ok db'
    → IsSoundDb db
    → IsSoundDb db'
unfolding maintain_collection
maintain_collection-IsSound e now ch db db' h sound =
    elim (Result-cases (expire_donations e now ch (7 * day) (30 * day) (2 ^ 30 - 2 ^ 20) db)) [
      | inl (bad, failed) ↦ absurd (ground arith)
      | inr (mid, done) ↦
          let purged : db' ≡ purge now ch (owner_of ch mid) mid = ground arith in
          subst IsSoundDb (sym purged) (
            purge-IsSound now ch (owner_of ch mid) mid
              (expire_donations-IsSound e now ch _ _ _ db mid done sound))
    ]

pub rotate_journal-IsSound :
    (now : ℕ) (u ch expected reason : String) (db : Db) (next : String) (db' : Db)
    → IsFresh u db
    → rotate_journal now u ch expected reason db ≡ ok (next, db')
    → IsSoundDb db
    → IsSoundDb db'
unfolding rotate_journal
rotate_journal-IsSound now u ch expected reason db next db' fresh h sound =
    elim (Option-cases (find? (of_channel ch) db.channels)) [
      | inl missing ↦ absurd (ground arith)
      | inr (c, found) ↦
          let turned : db' ≡ rotate now ch reason c.generation u db = ground arith in
          subst IsSoundDb (sym turned) (
            unfold rotate in
            rotate-IsSound db.channels db.donations db.consumers sound ch u c
              (λ y. record y {
                generation = u;
                owner_token = none;
                runtime_state = "recovery_required";
                state_at = now;
              })
              found fresh.0 fresh.1 (λ y. refl) (refl, refl, refl))
    ]

dispatch_loop-IsSound :
    (notify deletes : Outbox → Bool) (rs : List Outbox) (db : Db)
    → IsSoundDb db
    → IsSoundDb (dispatch_loop notify deletes rs db).2
unfolding dispatch_loop
dispatch_loop-IsSound notify deletes [] db sound = sound
dispatch_loop-IsSound notify deletes (r ∷ rs) db sound = elim (Bool-cases (notify r)) [
  | inr failed ↦ rw failed sound
  | inl fine ↦ elim (Bool-cases (deletes r)) [
    | inr stuck ↦ rw (fine, stuck) sound
    | inl gone ↦
        rw (fine, gone)
          (dispatch_loop-IsSound notify deletes rs
            (record db { outbox = select (λ o. not (o.event_id == r.event_id)) db.outbox }) sound)
  ]
]

pub dispatch_outbox-IsSound :
    (notify deletes : Outbox → Bool) (db : Db)
    → IsSoundDb db
    → IsSoundDb (dispatch_outbox notify deletes db).2
unfolding dispatch_outbox
dispatch_outbox-IsSound notify deletes db = dispatch_loop-IsSound notify deletes _ db
