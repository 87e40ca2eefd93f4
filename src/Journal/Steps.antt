-- ===== src/Journal/Steps.antt =====
-- The operations as steps of the journal's state, and the invariant over every history.
use rogi_collector.Prelude.{ℕ, ◌≡◌, String, Bool, Option, List, [], find?, ok}
use rogi_collector.Journal.Model.{Outbox, Donation, RecoveryDecision, Db, Env}
use rogi_collector.Journal.Grants.{
  OwnerGrant, CollectionState, ensure_collection, set_collection_state, acquire_collection,
  renew_collection, release_collection, collection_heartbeat,
}
use rogi_collector.Journal.Donations.{append_donation, expire_donations}
use rogi_collector.Journal.Consumers.{
  read_donations, ack_donations, set_subscription, resolve_recovery, dispatch_outbox,
}
use rogi_collector.Journal.Maintenance.{maintain_collection, rotate_journal}
use rogi_collector.Journal.Append.{append_donation-IsSound}
use rogi_collector.Journal.Channels.{
  set_collection_state-IsSound, collection_heartbeat-IsSound, renew_collection-IsSound,
  release_collection-IsSound, ensure_collection-IsSound, acquire_collection-IsSound,
  set_subscription-IsSound,
}
use rogi_collector.Journal.Reading.{
  ack_donations-inv, Acked-IsSound, read_donations-inv, HasRead-IsSound, resolve_recovery-IsSound,
}
use rogi_collector.Journal.Retention.{
  expire_donations-IsSound, maintain_collection-IsSound, rotate_journal-IsSound,
  dispatch_outbox-IsSound,
}
use rogi_collector.Journal.Invariant.{IsSoundDb, IsFresh}

-- One successful operation. One that fails is rolled back, and is no step.
pub data Step (e : Env) : Db → Db → Type 0 where
  ensure :
      {db db' : Db} (now : ℕ) (u ch : String)
      → IsFresh u db
      → ensure_collection e now u ch db ≡ ok db'
      → Step e db db'
  set_state :
      {db : Db} (now : ℕ) (ch state : String) → Step e db (set_collection_state now ch state db)
  acquire :
      {db db' : Db} (now : ℕ) (u ch worker : String) (g : OwnerGrant)
      → acquire_collection e now u ch worker db ≡ ok (g, db')
      → Step e db db'
  renew :
      {db db' : Db} (now : ℕ) (g : OwnerGrant) (until : ℕ)
      → renew_collection now g db ≡ ok (until, db')
      → Step e db db'
  release : {db : Db} (now : ℕ) (g : OwnerGrant) → Step e db (release_collection now g db)
  heartbeat :
      {db : Db} (now : ℕ) (g : OwnerGrant) (state : String) (last : Option ℕ)
      → Step e db (collection_heartbeat now g state last db)
  append :
      {db db' : Db} (now : ℕ) (g : OwnerGrant) (d : Donation) (accepted : ℕ) (s : Donation)
      → append_donation e now g d accepted db ≡ ok (s, db')
      → Step e db db'
  read :
      {db db' : Db} (now : ℕ) (consumer ch gen : String) (after rev limit : ℕ)
      (r : List Donation × CollectionState)
      → read_donations now consumer ch gen after rev limit db ≡ ok (r, db')
      → Step e db db'
  ack :
      {db db' : Db} (now : ℕ) (consumer ch gen : String) (offset rev : ℕ)
      → ack_donations now consumer ch gen offset rev db ≡ ok db'
      → Step e db db'
  subscribe :
      {db db' : Db} (now : ℕ) (consumer ch key : String) (enabled was : Bool)
      → set_subscription e now consumer ch key enabled db ≡ ok (was, db')
      → Step e db db'
  resolve :
      {db db' : Db} (now : ℕ) (consumer ch key previous next : String) (resume expected : ℕ)
      (request : String) (d : RecoveryDecision)
      → resolve_recovery e now consumer ch key previous next resume expected request db
        ≡ ok (d, db')
      → Step e db db'
  dispatch :
      {db : Db} (notify deletes : Outbox → Bool) → Step e db (dispatch_outbox notify deletes db).2
  expire :
      {db db' : Db} (now : ℕ) (ch : String) (min_age max_age max_bytes : ℕ)
      → expire_donations e now ch min_age max_age max_bytes db ≡ ok db'
      → Step e db db'
  maintain :
      {db db' : Db} (now : ℕ) (ch : String)
      → maintain_collection e now ch db ≡ ok db'
      → Step e db db'
  rotation :
      {db db' : Db} (now : ℕ) (u ch expected reason next : String)
      → IsFresh u db
      → rotate_journal now u ch expected reason db ≡ ok (next, db')
      → Step e db db'
  -- Opt-outs and channel assignments, which other parts of the program write.
  outside :
      {db : Db} (opted : String → Bool) (live : String → String → Bool)
      → Step e db (record db { opted_out = opted; live_on = live })

pub data Reach (e : Env) (start : Db) : Db → Type 0 where
  here : Reach e start start
  next : {db db' : Db} → Reach e start db → Step e db db' → Reach e start db'

Step-IsSound : {e : Env} {db db' : Db} → Step e db db' → IsSoundDb db → IsSoundDb db'
Step-IsSound {e} {db} {db'} (ensure now u ch fresh h) =
    ensure_collection-IsSound e now u ch db db' fresh h
Step-IsSound (set_state {db} now ch state) = set_collection_state-IsSound now ch state db
Step-IsSound {e} {db} {db'} (acquire now u ch worker g h) =
    acquire_collection-IsSound e now u ch worker db g db' h
Step-IsSound {e} {db} {db'} (renew now g until h) = renew_collection-IsSound now g db until db' h
Step-IsSound (release {db} now g) = release_collection-IsSound now g db
Step-IsSound (heartbeat {db} now g state last) = collection_heartbeat-IsSound now g state last db
Step-IsSound {e} {db} {db'} (append now g d accepted s h) =
    append_donation-IsSound e now g d accepted db s db' h
Step-IsSound {e} {db} {db'} (read now consumer ch gen after rev limit r h) =
    HasRead-IsSound now consumer ch gen after rev limit db r.0 db'
      (read_donations-inv now consumer ch gen after rev limit db r.0 r.1 db' h)
Step-IsSound {e} {db} {db'} (ack now consumer ch gen offset rev h) =
    Acked-IsSound consumer ch gen offset rev db db'
      (ack_donations-inv now consumer ch gen offset rev db db' h)
Step-IsSound {e} {db} {db'} (subscribe now consumer ch key enabled was h) =
    set_subscription-IsSound e now consumer ch key enabled db was db' h
Step-IsSound {e} {db} {db'}
      (resolve now consumer ch key previous later resume expected request d h) =
    resolve_recovery-IsSound e now consumer ch key previous later resume expected request db d db' h
Step-IsSound (dispatch {db} notify deletes) = dispatch_outbox-IsSound notify deletes db
Step-IsSound {e} {db} {db'} (expire now ch min_age max_age max_bytes h) =
    expire_donations-IsSound e now ch min_age max_age max_bytes db db' h
Step-IsSound {e} {db} {db'} (maintain now ch h) = maintain_collection-IsSound e now ch db db' h
Step-IsSound {e} {db} {db'} (rotation now u ch expected reason later fresh h) =
    rotate_journal-IsSound now u ch expected reason db later db' fresh h
Step-IsSound (outside opted live) = λ s. s

-- A database with empty tables.
abbrev pub empty_db : (String → Bool) → (String → String → Bool) → Db
empty_db opted live = record {
  channels = [];
  grants = [];
  donations = [];
  outbox = [];
  consumers = [];
  requests = [];
  audits = [];
  opted_out = opted;
  live_on = live;
}

pub empty_db-IsSound :
    (opted : String → Bool) (live : String → String → Bool) → IsSoundDb (empty_db opted live)
unfolding find?
empty_db-IsSound opted live = record {
  run = λ ch c h. cc;
  bounded = λ ch c h. cc;
  ordered = λ consumer ch p h. cc;
  offered = λ consumer ch p c h _ _. cc;
}

-- From empty tables on, after any sequence of journal operations (new UUIDs being fresh) and of
-- changes of the opt-outs and assignments: each channel's retained payloads carry exactly the
-- offsets after its expiry mark up to its last offset, one each and in order, with the channel's
-- generation; and each consumer's baseline, acknowledgement and offered mark are in that order,
-- the last within the channel's offsets where the generations agree.
pub Reach-IsSound :
    {e : Env} {opted : String → Bool} {live : String → String → Bool} {db : Db}
    → Reach e (empty_db opted live) db
    → IsSoundDb db
Reach-IsSound {opted = opted} {live = live} here = empty_db-IsSound opted live
Reach-IsSound (next r st) = Step-IsSound st (Reach-IsSound r)
