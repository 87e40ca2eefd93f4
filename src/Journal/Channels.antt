-- ===== src/Journal/Channels.antt =====
-- The operations on channel rows and grants keep the journal sound.
use rogi_collector.Prelude.{
  ℕ, ◌≡◌, refl, sym, subst, inl, inr, String, Bool, ◌&&◌, ◌||◌, Option, [], ◌∷◌, ◌++◌, arith, ◌==◌,
  is_some, Bool-cases, Option-cases, update_where, find?, ok,
}
use rogi_collector.Journal.Model.{Channel, subscription_op, Db, Env}
use rogi_collector.Journal.Grants.{
  OwnerGrant, of_channel, holds, enabled_tx, new_channel, ensure_collection, set_collection_state,
  take_over, holder_open, acquire_collection, renew_collection, release_collection,
  collection_heartbeat,
}
use rogi_collector.Journal.Consumers.{set_subscription, of_request, request_result, save_request}
use rogi_collector.Journal.Invariant.{IsSound, IsSoundDb, IsFresh}
use rogi_collector.Journal.Preserve.{IsQuiet, quiet-IsSound, add-IsSound}

-- The update of one channel's quiet columns, whatever happens to the other tables.
quiet-step :
    (db db' : Db) (q : Channel → Bool) (f : Channel → Channel)
    → IsQuiet f
    → db'.channels ≡ update_where q f db.channels
    → db'.donations ≡ db.donations
    → db'.consumers ≡ db.consumers
    → IsSoundDb db
    → IsSoundDb db'
quiet-step db db' q f quiet cs rows ps sound =
    subst (λ x. IsSound x db'.donations db'.consumers) (sym cs)
      (subst (λ x. IsSound (update_where q f db.channels) x db'.consumers) (sym rows)
        (subst (λ x. IsSound (update_where q f db.channels) db.donations x) (sym ps)
          (quiet-IsSound db.channels db.donations db.consumers sound q f quiet)))

pub same-step :
    (db db' : Db)
    → db'.channels ≡ db.channels
    → db'.donations ≡ db.donations
    → db'.consumers ≡ db.consumers
    → IsSoundDb db
    → IsSoundDb db'
same-step db db' cs rows ps sound =
    subst (λ x. IsSound x db'.donations db'.consumers) (sym cs)
      (subst (λ x. IsSound db.channels x db'.consumers) (sym rows)
        (subst (IsSound db.channels db.donations) (sym ps) sound))

quiet :
    (c : Channel)
    → (c.channel_id ≡ c.channel_id)
      × (c.generation ≡ c.generation)
      × (c.next_offset ≡ c.next_offset)
      × (c.expired_through ≡ c.expired_through)
quiet c = (refl, refl, refl, refl)

pub set_collection_state-IsSound :
    (now : ℕ) (ch state : String) (db : Db)
    → IsSoundDb db
    → IsSoundDb (set_collection_state now ch state db)
unfolding set_collection_state
set_collection_state-IsSound now ch state db =
    quiet-step db (set_collection_state now ch state db) (of_channel ch) _ quiet refl refl refl

pub collection_heartbeat-IsSound :
    (now : ℕ) (g : OwnerGrant) (state : String) (last : Option ℕ) (db : Db)
    → IsSoundDb db
    → IsSoundDb (collection_heartbeat now g state last db)
unfolding collection_heartbeat
collection_heartbeat-IsSound now g state last db =
    quiet-step db (collection_heartbeat now g state last db)
      (λ c. of_channel g.channel c && holds c.owner_token g.token) _ quiet refl refl refl

pub release_collection-IsSound :
    (now : ℕ) (g : OwnerGrant) (db : Db) → IsSoundDb db → IsSoundDb (release_collection now g db)
unfolding release_collection
release_collection-IsSound now g db sound = sound

pub renew_collection-IsSound :
    (now : ℕ) (g : OwnerGrant) (db : Db) (until : ℕ) (db' : Db)
    → renew_collection now g db ≡ ok (until, db')
    → IsSoundDb db
    → IsSoundDb db'
unfolding renew_collection
renew_collection-IsSound now g db until db' h =
    same-step db db' (ground arith) (ground arith) (ground arith)

pub ensure_collection-IsSound :
    (e : Env) (now : ℕ) (u ch : String) (db db' : Db)
    → IsFresh u db
    → ensure_collection e now u ch db ≡ ok db'
    → IsSoundDb db
    → IsSoundDb db'
unfolding ensure_collection
ensure_collection-IsSound e now u ch db db' fresh h sound =
    elim (Bool-cases (ch == "" || is_some (find? (of_channel ch) db.channels))) [
      | inl known ↦ same-step db db' (ground arith) (ground arith) (ground arith) sound
      | inr new ↦
          let added : db' ≡ record db { channels = db.channels ++ new_channel now u ch ∷ [] } =
            ground arith in
          subst IsSoundDb (sym added) (
            unfold new_channel in
            add-IsSound db.channels db.donations db.consumers sound (new_channel now u ch) refl refl
              fresh.0 fresh.1)
    ]

pub acquire_collection-IsSound :
    (e : Env) (now : ℕ) (u ch worker : String) (db : Db) (g : OwnerGrant) (db' : Db)
    → acquire_collection e now u ch worker db ≡ ok (g, db')
    → IsSoundDb db
    → IsSoundDb db'
unfolding acquire_collection enabled_tx holder_open
acquire_collection-IsSound e now u ch worker db g db' h sound =
    quiet-step db db' (of_channel ch) (take_over now u) quiet (ground arith) (ground arith)
      (ground arith) sound

pub set_subscription-IsSound :
    (e : Env) (now : ℕ) (consumer ch key : String) (enabled : Bool) (db : Db) (was : Bool)
    (db' : Db)
    → set_subscription e now consumer ch key enabled db ≡ ok (was, db')
    → IsSoundDb db
    → IsSoundDb db'
unfolding set_subscription request_result save_request
set_subscription-IsSound e now consumer ch key enabled db was db' h sound =
    elim (Option-cases (find? (of_request consumer ch subscription_op key) db.requests)) [
      | inr (r, repeated) ↦ same-step db db' (ground arith) (ground arith) (ground arith) sound
      | inl new ↦
          quiet-step db db' (of_channel ch) (λ c. record c { subscribed = enabled }) quiet
            (ground arith) (ground arith) (ground arith) sound
    ]
