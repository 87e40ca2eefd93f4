-- ===== src/Journal/Ownership.antt =====
-- Who may write: owner grants exclude one another, and a rotation shuts out the old generation.
use rogi_collector.Prelude.{
  ℕ, ◌+◌, ◌*◌, ◌≤◌, ◌≡◌, ◌≢◌, refl, sym, subst, ◌∙◌, inl, inr, String, Bool, true, ◌&&◌, not, none,
  some, [], ◌∷◌, ◌++◌, arith, ◌==◌, Option-cases, Result-cases, update_where, find?, eq_iff, ok,
  err, find?-update_where, find?-test,
}
use rogi_collector.Journal.Model.{
  owner, generation, Donation, Channel, GrantRow, Db, Env, validate, day,
}
use rogi_collector.Journal.Grants.{
  OwnerGrant, of_channel, grant_open, grant_row, new_grant, take_over, collection_state,
  scan_collection, enabled_tx, holder_open, acquire_collection,
}
use rogi_collector.Journal.Donations.{append_donation}
use rogi_collector.Journal.Consumers.{read_donations, ack_donations}
use rogi_collector.Journal.Maintenance.{rotate, rotate_journal}

abbrev pub by_token : String → GrantRow → Bool
by_token t g = g.token == t

-- Facts of a successful acquisition.
abbrev pub Acquired : Env → ℕ → String → String → String → Db → OwnerGrant → Db → Type 0
Acquired e now u ch worker db g db' =
    (c : Channel) × (e.allows_collection ch ≡ true)
    × (find? (of_channel ch) db.channels ≡ some c)
    × ((c.subscribed && not (db.opted_out ch)) ≡ true)
    × (g ≡ new_grant now u ch c.generation)
    × (db' ≡ record db {
      grants = db.grants ++ grant_row now u ch worker c.generation ∷ [];
      channels = update_where (of_channel ch) (take_over now u) db.channels;
    })

pub acquire_collection-inv :
    (e : Env) (now : ℕ) (u ch worker : String) (db : Db) (g : OwnerGrant) (db' : Db)
    → acquire_collection e now u ch worker db ≡ ok (g, db')
    → Acquired e now u ch worker db g db'
unfolding acquire_collection enabled_tx
acquire_collection-inv e now u ch worker db g db' h =
    elim (Option-cases (find? (of_channel ch) db.channels)) [
      | inl missing ↦ absurd (ground arith)
      | inr (c, found) ↦ elim (Result-cases (holder_open now c.owner_token db)) [
        | inl (bad, lost) ↦ absurd (ground arith)
        | inr (held, at) ↦ (c, ground arith, found, ground arith, ground arith, ground arith)
      ]
    ]

pub held_refuses :
    (e : Env) (now : ℕ) (u ch worker t : String) (db : Db) (c : Channel) (r : GrantRow)
    → e.allows_collection ch ≡ true
    → find? (of_channel ch) db.channels ≡ some c
    → (c.subscribed && not (db.opted_out ch)) ≡ true
    → c.owner_token ≡ some t
    → find? (by_token t) db.grants ≡ some r
    → grant_open now r ≡ true
    → acquire_collection e now u ch worker db ≡ err owner
unfolding acquire_collection enabled_tx holder_open
held_refuses e now u ch worker t db c r allowed found enabled owned at open_now = ground arith

rotate-inv :
    (now : ℕ) (u ch expected reason : String) (db : Db) (next : String) (db' : Db)
    → rotate_journal now u ch expected reason db ≡ ok (next, db')
    → (c : Channel) × (find? (of_channel ch) db'.channels ≡ some c) × (c.generation ≡ u)
unfolding rotate_journal
rotate-inv now u ch expected reason db next db' h =
    elim (Option-cases (find? (of_channel ch) db.channels)) [
      | inl missing ↦ absurd (ground arith)
      | inr (c, found) ↦
          let turned : db' ≡ rotate now ch reason c.generation u db = ground arith in
          subst
            (λ (x : Db).
              (y : Channel) × (find? (of_channel ch) x.channels ≡ some y) × (y.generation ≡ u))
            (sym turned)
            (unfold rotate in
              (
                record c {
                  generation = u;
                  owner_token = none;
                  runtime_state = "recovery_required";
                  state_at = now;
                },
                find?-update_where (of_channel ch) (of_channel ch) _ db.channels c (λ z t. refl)
                      found
                    ∙ rw (find?-test (of_channel ch) db.channels c found),
                refl,
              ))
    ]

-- An observation under a grant, fit for an append to the channel but for its generation.
abbrev pub FitToAppend : Env → ℕ → String → Donation → OwnerGrant → ℕ → Type 0
FitToAppend e now ch d g accepted =
    (validate d ≡ ok tt)
    × (now ≤ accepted + 30 * day)
    × (d.channel_id ≡ ch)
    × (g.channel ≡ ch)
    × (e.allows_collection ch ≡ true)

stale_append :
    (e : Env) (now : ℕ) (ch : String) (d : Donation) (g : OwnerGrant) (accepted : ℕ) (db : Db)
    (c : Channel)
    → find? (of_channel ch) db.channels ≡ some c
    → g.generation ≢ c.generation
    → FitToAppend e now ch d g accepted
    → append_donation e now g d accepted db ≡ err generation
unfolding append_donation collection_state scan_collection
stale_append e now ch d g accepted db c found stale (valid, soon, in_d, in_g, allowed) =
    let here : find? (of_channel d.channel_id) db.channels ≡ some c =
      subst (λ k. find? (of_channel k) db.channels ≡ some c) (sym in_d) found in
    let open_channel : e.allows_collection d.channel_id ≡ true =
      subst (λ k. e.allows_collection k ≡ true) (sym in_d) allowed in
    ground (
      arith,
      here,
      open_channel,
      valid,
      (eq_iff d.channel_id g.channel).1 (in_d ∙ sym in_g),
      eq_iff g.generation c.generation,
    )

stale_read :
    (now : ℕ) (consumer ch gen : String) (after rev limit : ℕ) (db : Db) (c : Channel)
    → find? (of_channel ch) db.channels ≡ some c
    → gen ≢ c.generation
    → read_donations now consumer ch gen after rev limit db ≡ err generation
unfolding read_donations collection_state scan_collection
stale_read now consumer ch gen after rev limit db c found stale =
    ground (arith, eq_iff gen c.generation)

stale_ack :
    (now : ℕ) (consumer ch gen : String) (offset rev : ℕ) (db : Db) (c : Channel)
    → find? (of_channel ch) db.channels ≡ some c
    → c.generation ≢ gen
    → ack_donations now consumer ch gen offset rev db ≡ err generation
unfolding ack_donations collection_state scan_collection
stale_ack now consumer ch gen offset rev db c found stale = ground (arith, eq_iff c.generation gen)

-- After a rotation the old generation is shut out: an append under a grant of it (which is fit
-- for an append otherwise), a read and an acknowledgement in it fail with the generation error.
-- The new UUID differs from the old generation.
pub rotate_fences :
    (e : Env) (now later : ℕ) (u ch expected reason : String) (db : Db) (next : String) (db' : Db)
    (d : Donation) (g : OwnerGrant) (accepted : ℕ) (consumer : String) (after rev limit offset : ℕ)
    → rotate_journal now u ch expected reason db ≡ ok (next, db')
    → u ≢ expected
    → FitToAppend e later ch d g accepted
    → g.generation ≡ expected
    → (append_donation e later g d accepted db' ≡ err generation)
      × (read_donations later consumer ch expected after rev limit db' ≡ err generation)
      × (ack_donations later consumer ch expected offset rev db' ≡ err generation)
rotate_fences e now later u ch expected reason db next db' d g accepted consumer after rev limit
      offset h new fit old =
    let (c, found, is) = rotate-inv now u ch expected reason db next db' h in
    (
      stale_append e later ch d g accepted db' c found (λ x. new (sym is ∙ sym x ∙ old)) fit,
      stale_read later consumer ch expected after rev limit db' c found (λ x. new (sym is ∙ sym x)),
      stale_ack later consumer ch expected offset rev db' c found (λ x. new (sym is ∙ x)),
    )
