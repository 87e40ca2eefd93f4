-- ===== src/Journal/Expiry.antt =====
-- What ExpireDonations (shared/store/collector_consumer.go) may drop.
use rogi_collector.Prelude.{
  ℕ, ◌+◌, ◌-◌, ◌≤◌, ◌<◌, ◌≡◌, refl, sym, ap, subst, ◌∙◌, ◌⊎◌, inl, inr, String, Bool, false, ◌&&◌,
  ◌||◌, not, some, List, [], ◌∷◌, arith, ltb, ◌==◌, Bool-cases, find?, eq_iff, ok, take, select,
  All, All-take, exists?-find?, find?-test, update_where, find?-update_where_inv,
}
use rogi_collector.Journal.Model.{Donation, Channel, Row, Consumer, Db, Env}
use rogi_collector.Journal.Grants.{of_channel, scan_collection}
use rogi_collector.Journal.Donations.{
  is_retained, order_by_offset, payload_size, payload_bytes, unacked, acked_through, expire_loop,
  expire_point, drop_through, expire_donations,
}
use rogi_collector.Journal.Consumers.{of_consumer}
use rogi_collector.Journal.Invariant.{IsSoundDb, retained}
use rogi_collector.Journal.Preserve.{channel_of_find}
use rogi_collector.Journal.Retention.{candidates-run, expire_donations-inv}

-- Young enough not to be dropped by age.
abbrev pub Young : ℕ → ℕ → Row → Type 0
Young now max_age r = now ≤ r.stored_at + max_age

module _ (size : Donation → ℕ) (now min_age max_age max_bytes : ℕ) (unacked_at : ℕ → Bool) where
  unforced :
      (at total : ℕ)
      → now ≤ at + max_age
      → total ≤ max_bytes
      → (ltb (at + max_age) now || ltb max_bytes total) ≡ false
  unforced at total a b = ground arith

  -- Where nothing is forced, the loop stays at its start or stops at an acknowledged offset.
  loop_unforced :
      (total through : ℕ) (vs : List Row)
      → All (Young now max_age) vs
      → total ≤ max_bytes
      → (expire_loop size now min_age max_age max_bytes unacked_at total through vs ≡ through)
        ⊎ (unacked_at (expire_loop size now min_age max_age max_bytes unacked_at total through vs)
            ≡ false)
  unfolding expire_loop
  loop_unforced total through [] young small = inl refl
  loop_unforced total through (v ∷ vs) young small =
      let free : (ltb (v.stored_at + max_age) now || ltb max_bytes total) ≡ false =
        unforced v.stored_at total young.0 small in
      elim (Bool-cases (ltb now (v.stored_at + min_age))) [
        | inl fresh ↦ inl (rw (free, fresh))
        | inr old ↦ elim (Bool-cases (unacked_at v.channel_offset)) [
          | inl behind ↦ inl (rw (free, old, behind))
          | inr done ↦
              rw (free, old, done)
                (onward v.channel_offset done (
                  loop_unforced (total - payload_size size v.payload) v.channel_offset vs young.1
                    (omega arith)))
        ]
      ]
    where
      onward :
          (k : ℕ) {m : ℕ}
          → unacked_at k ≡ false
          → (m ≡ k) ⊎ (unacked_at m ≡ false)
          → (m ≡ through) ⊎ (unacked_at m ≡ false)
      onward k done (inl same) = inr (ap unacked_at same ∙ done)
      onward k done (inr acked) = inr acked

-- An acknowledged offset is acknowledged by every consumer, in the current generation.
unacked-all :
    (ch gen : String) (offset : ℕ) (ps : List Consumer) (consumer : String) (p : Consumer)
    → unacked ch gen offset ps ≡ false
    → find? (of_consumer consumer ch) ps ≡ some p
    → (p.generation ≡ gen) × (offset ≤ acked_through p)
unfolding unacked
unacked-all ch gen offset ps consumer p h at =
    let none_behind =
      exists?-find? (of_consumer consumer ch)
        (λ (q : Consumer).
          (q.channel_id == ch) && (not (q.generation == gen) || ltb (acked_through q) offset))
        ps p (ground arith) at in
    let mine = find?-test (of_consumer consumer ch) ps p at in
    ((eq_iff p.generation gen).0 (ground arith), ground arith)

one :
    (ch : String) (cs : List Channel) (a b : Channel)
    → find? (of_channel ch) cs ≡ some a
    → find? (of_channel ch) cs ≡ some b
    → a ≡ b
one ch cs a b h k = cc

moved_to :
    (ch : String) (cs : List Channel) (c c' : Channel) (through : ℕ)
    → find? (of_channel ch) cs ≡ some c
    → find?
        (of_channel ch)
        (update_where (of_channel ch) (λ y. record y { expired_through = through }) cs)
      ≡ some c'
    → c'.expired_through ≡ through
moved_to ch cs c c' through found after =
    let (b, at, is) =
      find?-update_where_inv (of_channel ch) (of_channel ch)
        (λ y. record y { expired_through = through }) cs c' (λ y t. refl) after in
    let e : c' ≡ record b { expired_through = through } =
      is ∙ rw (find?-test (of_channel ch) cs b at) in
    ap (λ (x : Channel). x.expired_through) e

drop_through-found :
    (ch gen : String) (through : ℕ) (db : Db) (c c' : Channel)
    → find? (of_channel ch) db.channels ≡ some c
    → find? (of_channel ch) (drop_through ch gen through db).channels ≡ some c'
    → c'.expired_through ≡ through
unfolding drop_through
drop_through-found ch gen through db c c' found after =
    moved_to ch db.channels c c' through found after

-- An expiry without a forced drop stays, or stops at an offset that no consumer is behind.
expire_point_unforced :
    (e : Env) (now : ℕ) (ch : String) (min_age max_age max_bytes : ℕ) (db : Db) (c : Channel)
    → IsSoundDb db
    → find? (of_channel ch) db.channels ≡ some c
    → All (Young now max_age) (retained db.donations ch c.generation)
    → payload_bytes e.column_size ch db.donations ≤ max_bytes
    → (expire_point e now min_age max_age max_bytes (scan_collection now db.grants c) db
        ≡ c.expired_through)
      ⊎ (unacked ch c.generation
            (expire_point e now min_age max_age max_bytes (scan_collection now db.grants c) db)
            db.consumers
          ≡ false)
unfolding expire_point scan_collection
expire_point_unforced e now ch min_age max_age max_bytes db c sound found young small =
    subst
      (λ (k : String).
        (expire_loop e.column_size now min_age max_age max_bytes
            (λ offset. unacked k c.generation offset db.consumers)
            (payload_bytes e.column_size k db.donations) c.expired_through
            (take 500 (order_by_offset (select (is_retained k c.generation) db.donations)))
          ≡ c.expired_through)
        ⊎ (unacked ch c.generation
              (expire_loop e.column_size now min_age max_age max_bytes
                (λ offset. unacked k c.generation offset db.consumers)
                (payload_bytes e.column_size k db.donations) c.expired_through
                (take 500 (order_by_offset (select (is_retained k c.generation) db.donations))))
              db.consumers
            ≡ false))
      (sym (channel_of_find ch db.channels c found))
      (loop_unforced e.column_size now min_age max_age max_bytes
        (λ offset. unacked ch c.generation offset db.consumers) _ _ _
        (rw (candidates-run _ _ db.donations ch c.generation (sound.run ch c found))
          (All-take (Young now max_age) 500 _ young))
        small)

abbrev Moves : Env → ℕ → ℕ → ℕ → ℕ → String → Db → Db → Channel → Type 0
Moves e now min_age max_age max_bytes ch db db' c =
    let through =
      expire_point e now min_age max_age max_bytes (scan_collection now db.grants c) db in
    (c.expired_through < through) × (db' ≡ drop_through ch c.generation through db)

keeps_unacked :
    (e : Env) (now : ℕ) (ch : String) (min_age max_age max_bytes : ℕ) (db db' : Db) (c c' : Channel)
    (consumer : String) (p : Consumer)
    → IsSoundDb db
    → find? (of_channel ch) db.channels ≡ some c
    → find? (of_channel ch) db'.channels ≡ some c'
    → All (Young now max_age) (retained db.donations ch c.generation)
    → payload_bytes e.column_size ch db.donations ≤ max_bytes
    → find? (of_consumer consumer ch) db.consumers ≡ some p
    → Moves e now min_age max_age max_bytes ch db db' c
    → (p.generation ≡ c.generation) × (c'.expired_through ≤ acked_through p)
keeps_unacked e now ch min_age max_age max_bytes db db' c c' consumer p sound found after young
      small at (low, is) =
    let mark =
      drop_through-found ch c.generation _ db c c' found
        (subst (λ (d : Db). find? (of_channel ch) d.channels ≡ some c') is after) in
    elim (expire_point_unforced e now ch min_age max_age max_bytes db c sound found young small) [
      | inl still ↦ absurd (omega (arith, still))
      | inr done ↦
          let (same, far) = unacked-all ch c.generation _ db.consumers consumer p done at in
          (same, rw mark far)
    ]

-- Where no retained donation is past the maximal age and the payloads are within their limit, an
-- expiry that moves the channel's mark moves it to an offset that every consumer of the channel
-- has acknowledged (or has as its baseline) in the channel's generation.
pub expire_keeps_unacked :
    (e : Env) (now : ℕ) (ch : String) (min_age max_age max_bytes : ℕ) (db db' : Db) (c c' : Channel)
    (consumer : String) (p : Consumer)
    → IsSoundDb db
    → expire_donations e now ch min_age max_age max_bytes db ≡ ok db'
    → find? (of_channel ch) db.channels ≡ some c
    → find? (of_channel ch) db'.channels ≡ some c'
    → c.expired_through < c'.expired_through
    → All (Young now max_age) (retained db.donations ch c.generation)
    → payload_bytes e.column_size ch db.donations ≤ max_bytes
    → find? (of_consumer consumer ch) db.consumers ≡ some p
    → (p.generation ≡ c.generation) × (c'.expired_through ≤ acked_through p)
expire_keeps_unacked e now ch min_age max_age max_bytes db db' c c' consumer p sound h found after
      moved young small at =
    elim (expire_donations-inv e now ch min_age max_age max_bytes db db' h) [
      | inl still ↦
          let same : c' ≡ c =
            one ch db.channels c' c
              (subst (λ (d : Db). find? (of_channel ch) d.channels ≡ some c') still after) found in
          absurd (omega (arith, ap (λ (x : Channel). x.expired_through) same))
      | inr (b, found_b, (low, is)) ↦
          keeps_unacked e now ch min_age max_age max_bytes db db' c c' consumer p sound found after
            young small at
            (subst (Moves e now min_age max_age max_bytes ch db db')
              (one ch db.channels b c found_b found) (low, is))
    ]
