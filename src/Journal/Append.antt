-- ===== src/Journal/Append.antt =====
-- What AppendDonation does on success, and that it keeps the journal sound.
use rogi_collector.Prelude.{
  ℕ, ◌+◌, ◌≤◌, ◌<◌, ◌≡◌, refl, sym, ap, subst, ◌∙◌, ◌⊎◌, inl, inr, String, false, none, some, List,
  arith, nat_eq, ◌==◌, Option-cases, Result-cases, find?, max_uint64, ok,
}
use rogi_collector.Journal.Model.{Donation, Channel, Row, Db, Env}
use rogi_collector.Journal.Grants.{
  OwnerGrant, CollectionState, of_channel, collection_state, scan_collection,
}
use rogi_collector.Journal.Donations.{
  append_donation, append_new, replay, stamp, store_donation, row_of, classify,
}
use rogi_collector.Journal.Invariant.{IsSoundDb}
use rogi_collector.Journal.Preserve.{append-IsSound}

-- A success of the new-event branch.
append_new-inv :
    (e : Env) (now : ℕ) (g : OwnerGrant) (d : Donation) (accepted : ℕ) (c : CollectionState)
    (db : Db) (s : Donation) (db' : Db)
    → append_new e now g d accepted c db ≡ ok (s, db')
    → (nat_eq c.current max_uint64 ≡ false)
      × (s ≡ stamp e c db.donations d)
      × (db' ≡ store_donation e now d s db)
unfolding append_new
append_new-inv e now g d accepted c db s db' h = ground arith

abbrev pub Appended : Env → ℕ → Donation → Db → Donation → Db → Type 0
Appended e now d db s db' =
    (c : Channel) × (find? (of_channel d.channel_id) db.channels ≡ some c)
    × (nat_eq c.next_offset max_uint64 ≡ false)
    × (s ≡ stamp e (scan_collection now db.grants c) db.donations d)
    × (db' ≡ store_donation e now d s db)

-- The event was known: its stored payload comes back, and nothing is written.
abbrev pub Replayed : Donation → Db → Donation → Db → Type 0
Replayed d db s db' =
    (r : Row) × (find? (λ r. r.event_id == d.event_id) db.donations ≡ some r)
    × (replay d r.payload ≡ ok s)
    × (db' ≡ db)

pub append_donation-inv :
    (e : Env) (now : ℕ) (g : OwnerGrant) (d : Donation) (accepted : ℕ) (db : Db) (s : Donation)
    (db' : Db)
    → append_donation e now g d accepted db ≡ ok (s, db')
    → Replayed d db s db'
      ⊎ ((find? (λ r. r.event_id == d.event_id) db.donations ≡ none) × Appended e now d db s db')
unfolding append_donation collection_state
append_donation-inv e now g d accepted db s db' h =
    elim (Option-cases (find? (of_channel d.channel_id) db.channels)) [
      | inl missing ↦ absurd (ground arith)
      | inr (c, found) ↦ elim (Option-cases (find? (λ r. r.event_id == d.event_id) db.donations)) [
        | inl fresh ↦
            let done : append_new e now g d accepted (scan_collection now db.grants c) db
                ≡ ok (s, db') =
              ground arith in
            let (room, is, writes) = append_new-inv e now g d accepted _ db s db' done in
            inr (fresh, (c, found, unfold scan_collection in room, is, writes))
        | inr (r, known) ↦ elim (Result-cases (replay d r.payload)) [
          | inl (bad, refused) ↦ absurd (ground arith)
          | inr (stored, same) ↦ inl (r, known, ground arith, ground arith)
        ]
      ]
    ]

-- The label that `classify` adds leaves the journal's columns alone.
classify-keeps :
    (key : String) (rows : List Row) (d : Donation)
    → ((classify key rows d).offset ≡ d.offset)
      × ((classify key rows d).generation ≡ d.generation)
      × ((classify key rows d).channel_id ≡ d.channel_id)
unfolding classify
classify-keeps key rows d = ground arith

pub stamp-keeps :
    (e : Env) (c : CollectionState) (rows : List Row) (d : Donation)
    → ((stamp e c rows d).offset ≡ c.current + 1)
      × ((stamp e c rows d).generation ≡ c.generation)
      × ((stamp e c rows d).channel_id ≡ d.channel_id)
unfolding stamp
stamp-keeps e c rows d = classify-keeps _ rows _

room_below : (n : ℕ) → nat_eq n max_uint64 ≡ false → n ≤ max_uint64 → n < max_uint64
room_below n h k = ground arith

pub Appended-IsSound :
    (e : Env) (now : ℕ) (d : Donation) (db : Db) (s : Donation) (db' : Db)
    → Appended e now d db s db'
    → IsSoundDb db
    → IsSoundDb db'
unfolding store_donation row_of scan_collection
Appended-IsSound e now d db s db' (c, found, room, is, writes) sound =
    let (o, g, ch) = stamp-keeps e (scan_collection now db.grants c) db.donations d in
    subst IsSoundDb (sym writes) (
      append-IsSound db.channels db.donations db.consumers sound s.channel_id c (row_of e now d s) _
        (subst (λ k. find? (of_channel k) db.channels ≡ some c)
          (sym (ap (λ (x : Donation). x.channel_id) is ∙ ch)) found)
        (omega (arith, room_below c.next_offset room (sound.bounded d.channel_id c found))) refl
        (ap (λ (x : Donation). x.generation) is ∙ g) (ap (λ (x : Donation). x.offset) is ∙ o)
        (refl, refl, refl) (λ y. (refl, refl, refl, refl)))

pub append_donation-IsSound :
    (e : Env) (now : ℕ) (g : OwnerGrant) (d : Donation) (accepted : ℕ) (db : Db) (s : Donation)
    (db' : Db)
    → append_donation e now g d accepted db ≡ ok (s, db')
    → IsSoundDb db
    → IsSoundDb db'
append_donation-IsSound e now g d accepted db s db' h sound =
    elim (append_donation-inv e now g d accepted db s db' h) [
      | inl (r, known, same, still) ↦ subst IsSoundDb (sym still) sound
      | inr (fresh, a) ↦ Appended-IsSound e now d db s db' a sound
    ]
