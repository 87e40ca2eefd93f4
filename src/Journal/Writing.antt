-- ===== src/Journal/Writing.antt =====
-- What AppendDonation (shared/store/collector.go) guarantees to the spool and to the readers.
use rogi_collector.Prelude.{
  ℕ, ◌+◌, ◌*◌, ◌≤◌, ◌≡◌, refl, sym, ap, subst, ◌∙◌, inl, inr, String, Bool, true, ◌&&◌, Option,
  none, some, List, [], ◌∷◌, ◌++◌, arith, int_eq, ℤ, pos, negsuc, ◌==◌, Option-cases, Result-cases,
  find?, eq_iff, ok, find?-append_none, find?-head, find?-update_where, find?-test,
}
use rogi_collector.Journal.Model.{Donation, Channel, Row, Db, Env, validate, day}
use rogi_collector.Journal.Grants.{
  OwnerGrant, CollectionState, of_channel, collection_state, scan_collection,
}
use rogi_collector.Journal.Donations.{
  append_donation, or_else, or_list, overlay, replay, same_observation, stamp, store_donation,
  row_of, classify,
}
use rogi_collector.Journal.Append.{Appended, append_donation-inv, stamp-keeps}

abbrev pub by_event : String → Row → Bool
by_event id r = r.event_id == id

int_eq_refl : (a : ℤ) → int_eq a a ≡ true
int_eq_refl (pos n) = ground arith
int_eq_refl (negsuc n) = ground arith

classify-observation :
    (key : String) (rows : List Row) (d : Donation)
    → ((classify key rows d).event_id ≡ d.event_id)
      × ((classify key rows d).channel_id ≡ d.channel_id)
      × ((classify key rows d).connection_epoch ≡ d.connection_epoch)
      × ((classify key rows d).sequence ≡ d.sequence)
      × ((classify key rows d).count ≡ d.count)
      × ((classify key rows d).donor_id ≡ d.donor_id)
      × ((classify key rows d).message ≡ d.message)
unfolding classify
classify-observation key rows d = ground arith

-- The fields of an observation that the journal never changes.
stamp-observation :
    (e : Env) (c : CollectionState) (rows : List Row) (d : Donation)
    → ((stamp e c rows d).event_id ≡ d.event_id) × (same_observation (stamp e c rows d) d ≡ true)
unfolding stamp
stamp-observation e c rows d =
    let (id, ch, epoch, seq, count, donor, message) =
      classify-observation (e.content_key d) rows
        (record d { generation = c.generation; offset = c.current + 1 }) in
    (
      id,
      rw (ch, epoch, seq, count, donor, message)
          (ground (
            arith,
            (eq_iff d.channel_id d.channel_id).1 refl,
            (eq_iff d.connection_epoch d.connection_epoch).1 refl,
            (eq_iff d.donor_id d.donor_id).1 refl,
            (eq_iff d.message d.message).1 refl,
            int_eq_refl d.count,
          )),
    )

-- The tables after the three writes.
abbrev pub Stored : Donation → ℕ → Channel → Db → Db → Row → Type 0
Stored s now c db db' r =
    (c' : Channel) × (find? (of_channel s.channel_id) db'.channels ≡ some c')
    × (c'.generation ≡ c.generation)
    × (c'.next_offset ≡ s.offset)
    × (c'.expired_through ≡ c.expired_through)
    × (find? (by_event s.event_id) db'.donations ≡ some r)
    × (r.payload ≡ some s)
    × (db'.donations ≡ db.donations ++ r ∷ [])
    × (db'.outbox
        ≡ db.outbox
          ++ (record { event_id = s.event_id; channel_id = s.channel_id; created_at = now }) ∷ [])

store-effect :
    (e : Env) (now : ℕ) (d s : Donation) (db : Db) (c : Channel)
    → find? (of_channel s.channel_id) db.channels ≡ some c
    → find? (by_event s.event_id) db.donations ≡ none
    → Stored s now c db (store_donation e now d s db) (row_of e now d s)
unfolding store_donation row_of
store-effect e now d s db c found fresh = (
  record c { next_offset = s.offset; last_received_at = some s.observed_at },
  find?-update_where (of_channel s.channel_id) (of_channel s.channel_id) _ db.channels c
        (λ z t. refl) found
      ∙ rw (find?-test (of_channel s.channel_id) db.channels c found),
  refl,
  refl,
  refl,
  find?-append_none (by_event s.event_id) db.donations _ fresh ∙ itself,
  refl,
  refl,
  refl,
)
  where
    itself : find? (by_event s.event_id) (row_of e now d s ∷ []) ≡ some (row_of e now d s)
    itself =
        find?-head (by_event s.event_id) (row_of e now d s) []
          ((eq_iff s.event_id s.event_id).1 refl)

abbrev pub Effect : ℕ → Donation → Db → Donation → Db → Type 0
Effect now d db s db' =
    (c : Channel) × (r : Row) × (find? (of_channel s.channel_id) db.channels ≡ some c)
    × (s.event_id ≡ d.event_id)
    × (s.channel_id ≡ d.channel_id)
    × (s.offset ≡ c.next_offset + 1)
    × (s.generation ≡ c.generation)
    × Stored s now c db db' r

Appended-Effect :
    (e : Env) (now : ℕ) (d : Donation) (db : Db) (s : Donation) (db' : Db)
    → find? (by_event d.event_id) db.donations ≡ none
    → Appended e now d db s db'
    → Effect now d db s db'
unfolding scan_collection
Appended-Effect e now d db s db' fresh (c, found, room, is, writes) =
    let (o, gen, ch) = stamp-keeps e (scan_collection now db.grants c) db.donations d in
    let id : s.event_id ≡ d.event_id =
      ap (λ (x : Donation). x.event_id) is
      ∙ (stamp-observation e (scan_collection now db.grants c) db.donations d).0 in
    let in_channel : s.channel_id ≡ d.channel_id = ap (λ (x : Donation). x.channel_id) is ∙ ch in
    let at = subst (λ k. find? (of_channel k) db.channels ≡ some c) (sym in_channel) found in
    (
      c,
      row_of e now d s,
      at,
      id,
      in_channel,
      ap (λ (x : Donation). x.offset) is ∙ o,
      ap (λ (x : Donation). x.generation) is ∙ gen,
      subst (λ x. Stored s now c db x (row_of e now d s)) (sym writes)
          (store-effect e now d s db c at
            (subst (λ k. find? (by_event k) db.donations ≡ none) (sym id) fresh)),
    )

-- A new event (no row has its id) that is appended gets the offset after the channel's last one
-- and the channel's generation, under its own id and channel. Its row, with the returned donation
-- as payload, and its outbox entry are stored, the channel's last offset becomes its offset, and
-- no earlier donation changes.
pub append-Effect :
    (e : Env) (now : ℕ) (g : OwnerGrant) (d : Donation) (accepted : ℕ) (db : Db) (s : Donation)
    (db' : Db)
    → append_donation e now g d accepted db ≡ ok (s, db')
    → find? (by_event d.event_id) db.donations ≡ none
    → Effect now d db s db'
append-Effect e now g d accepted db s db' h fresh =
    elim (append_donation-inv e now g d accepted db s db' h) [
      | inl (r, known, same, still) ↦ absurd (clash known fresh)
      | inr (_, a) ↦ Appended-Effect e now d db s db' fresh a
    ]
  where
    clash : {o : Option Row} {r : Row} → o ≡ some r → o ≡ none → ⊥
    clash p q = cc

-- The checks that an append makes before it looks for the event.
abbrev Passes : Env → OwnerGrant → Donation → Channel → Type 0
Passes e g d c =
    (validate d ≡ ok tt)
    × (((d.channel_id == g.channel) && e.allows_collection d.channel_id) ≡ true)
    × ((g.generation == c.generation) ≡ true)

append_checks :
    (e : Env) (now : ℕ) (g : OwnerGrant) (d : Donation) (accepted : ℕ) (db : Db) (s : Donation)
    (db' : Db)
    → append_donation e now g d accepted db ≡ ok (s, db')
    → (c : Channel) × (find? (of_channel d.channel_id) db.channels ≡ some c) × Passes e g d c
unfolding append_donation collection_state scan_collection
append_checks e now g d accepted db s db' h =
    elim (Option-cases (find? (of_channel d.channel_id) db.channels)) [
      | inl missing ↦ absurd (ground arith)
      | inr (c, found) ↦ elim (Result-cases (validate d)) [
        | inl (bad, refused) ↦ absurd (ground arith)
        | inr (_, valid) ↦ (c, found, (valid, ground arith, ground arith))
      ]
    ]

append_known :
    (e : Env) (now : ℕ) (g : OwnerGrant) (d : Donation) (accepted : ℕ) (db : Db) (s : Donation)
    (c : Channel) (r : Row)
    → Passes e g d c
    → now ≤ accepted + 30 * day
    → find? (of_channel d.channel_id) db.channels ≡ some c
    → find? (by_event d.event_id) db.donations ≡ some r
    → replay d r.payload ≡ ok s
    → append_donation e now g d accepted db ≡ ok (s, db)
unfolding append_donation collection_state scan_collection
append_known e now g d accepted db s c r (valid, allowed, gen) soon found known same =
    ground (arith, valid, allowed, gen, found, known, same)

or_else_same : (o : Option String) → or_else o o ≡ o
or_else_same none = refl
or_else_same (some a) = refl

or_list_same : (xs : List String) → or_list xs xs ≡ xs
or_list_same [] = refl
or_list_same (x ∷ xs) = refl

overlay-own :
    (x d : Donation)
    → x.source_id ≡ d.source_id
    → x.broadcast_id ≡ d.broadcast_id
    → or_list x.reasons d.reasons ≡ x.reasons
    → or_list x.related d.related ≡ x.related
    → overlay x d ≡ x
unfolding overlay
overlay-own x d source broadcast reasons related =
    let id : or_else x.source_id d.source_id ≡ x.source_id =
      subst (λ o. or_else x.source_id o ≡ x.source_id) source (or_else_same x.source_id) in
    let stream : or_else x.broadcast_id d.broadcast_id ≡ x.broadcast_id =
      subst (λ o. or_else x.broadcast_id o ≡ x.broadcast_id) broadcast
        (or_else_same x.broadcast_id) in
    rw (id, stream, reasons, related) refl

overlay-classify :
    (key : String) (rows : List Row) (d : Donation) (gen : String) (n : ℕ)
    → (let s = classify key rows (record d { generation = gen; offset = n }) in overlay s d ≡ s)
unfolding classify
overlay-classify key rows d gen n =
    overlay-own (classify key rows (record d { generation = gen; offset = n })) d (ground arith)
      (ground arith) (ground (arith, or_list_same d.reasons))
      (ground (arith, or_list_same d.related))

replay_own :
    (e : Env) (now : ℕ) (d : Donation) (db : Db) (s : Donation) (db' : Db) (r : Row)
    → Appended e now d db s db'
    → r.payload ≡ some s
    → replay d r.payload ≡ ok s
unfolding replay stamp
replay_own e now d db s db' r (c, found, room, is, writes) paid =
    let state = scan_collection now db.grants c in
    let own : same_observation s d ≡ true =
      subst (λ x. same_observation x d ≡ true) (sym is)
        (stamp-observation e state db.donations d).1 in
    let back : overlay s d ≡ s =
      subst (λ x. overlay x d ≡ x) (sym is)
        (overlay-classify (e.content_key d) db.donations d state.generation (state.current + 1)) in
    rw (paid, back, own) refl

-- The spool may hand over an observation again, at once or much later: the repeated append returns
-- the donation of the first one and changes nothing, for as long as the observation is not 30 days
-- old, its event's row is as the first append left it (its payload is not dropped), and the
-- channel has the grant's generation; whatever else changed in the tables in between.
pub append_twice :
    (e : Env) (now later : ℕ) (g : OwnerGrant) (d : Donation) (accepted : ℕ) (db : Db)
    (s : Donation) (db' db'' : Db) (c : Channel)
    → append_donation e now g d accepted db ≡ ok (s, db')
    → find? (by_event d.event_id) db''.donations ≡ find? (by_event d.event_id) db'.donations
    → find? (of_channel d.channel_id) db''.channels ≡ some c
    → c.generation ≡ g.generation
    → later ≤ accepted + 30 * day
    → append_donation e later g d accepted db'' ≡ ok (s, db'')
append_twice e now later g d accepted db s db' db'' c h row channel gen soon =
    let (c0, found, passed) = append_checks e now g d accepted db s db' h in
    let passes : Passes e g d c =
      (passed.0, passed.1, (eq_iff g.generation c.generation).1 (sym gen)) in
    elim (append_donation-inv e now g d accepted db s db' h) [
      | inl (r, known, same, still) ↦
          append_known e later g d accepted db'' s c r passes soon channel
            (row
              ∙ subst (λ (x : Db). find? (by_event d.event_id) x.donations ≡ some r) (sym still)
                  known)
            same
      | inr (fresh, a) ↦
          let (
            c1,
            r,
            found1,
            id,
            in_channel,
            o,
            gen1,
            (c', found', gen', n, x, known, paid, _, _),
          ) =
            Appended-Effect e now d db s db' fresh a in
          append_known e later g d accepted db'' s c r passes soon channel
            (row ∙ subst (λ k. find? (by_event k) db'.donations ≡ some r) id known)
            (replay_own e now d db s db' r a paid)
    ]
