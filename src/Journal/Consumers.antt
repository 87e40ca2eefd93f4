-- ===== src/Journal/Consumers.antt =====
-- The consumers' side of the journal (shared/store/collector_consumer.go): progress, reading,
-- acknowledging, subscription requests, recovery decisions and the outbox.
use Prim.Native.String.{len}
use rogi_collector.Prelude.{
  ℕ, ◌+◌, ◌%◌, ◌^◌, String, Bool, true, false, ◌&&◌, ◌||◌, not, Option, none, some, List, [], ◌∷◌,
  ◌++◌, ltb, leb, nat_eq, ◌==◌, if◌then◌else◌, is_some, max_uint64, find?, select, update_where,
  order_by, take, Result, ok, err, require, or_fail, ◌>>=◌, ◌>>◌,
}
use rogi_collector.Journal.Model.{
  Error, collection_disabled, generation, cursor_expired, cursor, revision, conflict, no_rows,
  Donation, Row, Outbox, Consumer, RecoveryDecision, Saved, subscription, recovery, Operation,
  subscription_op, recovery_op, Request, decision, LossRange, Db, Env,
}
use rogi_collector.Journal.Grants.{CollectionState, of_channel, collection_state, close_grant}
use rogi_collector.Journal.Donations.{is_retained, order_by_offset}

abbrev pub of_consumer : String → String → Consumer → Bool
of_consumer consumer ch p = (p.consumer_id == consumer) && (p.channel_id == ch)

-- progressTX
unfoldable pub progress : String → String → Db → Result Error Consumer
progress consumer ch db = or_fail (find? (of_consumer consumer ch) db.consumers) no_rows

-- A consumer's row with both cursors at one offset.
unfoldable pub consumer_at : String → String → String → ℕ → ℕ → Consumer
consumer_at consumer ch gen offset rev = record {
  consumer_id = consumer;
  channel_id = ch;
  generation = gen;
  baseline = offset;
  ack_offset = none;
  offered_offset = offset;
  recovery_revision = rev;
}

-- INSERT … ON CONFLICT DO NOTHING: a new consumer starts at the retained beginning.
unfoldable pub enroll : String → String → CollectionState → Db → Db
enroll consumer ch c db =
    if is_some (find? (of_consumer consumer ch) db.consumers) then db else record db {
      consumers = db.consumers ++ consumer_at consumer ch c.generation c.expired_through 0 ∷ [];
    }

-- The loop over the rows: the donations must follow one another without a gap. It returns them
-- with the last offset.
unfoldable pub read_loop : ℕ → List Row → Result Error (List Donation × ℕ)
read_loop next [] = ok ([], next)
read_loop next (r ∷ rs) =
    let rest = read_loop next rs in
    elim r.payload [
      | none ↦ rest
      | some d ↦
          let onward = read_loop d.offset rs in
          if nat_eq d.offset ((next + 1) % 2 ^ 64)
          then (do (ds, last) ← onward; ok (d ∷ ds, last))
          else err cursor_expired
    ]

abbrev pub clamp_limit : ℕ → ℕ
clamp_limit limit = if ltb limit 1 || ltb 500 limit then 100 else limit

-- The rows that one read returns.
unfoldable pub page : String → String → ℕ → ℕ → List Row → List Row
page ch gen after limit rows =
    take limit
      (order_by_offset (select (λ r. is_retained ch gen r && ltb after r.channel_offset) rows))

-- ReadDonations. A limit below 1 is given as 0.
unfoldable pub read_donations :
    ℕ
    → String
    → String
    → String
    → ℕ
    → ℕ
    → ℕ
    → Db
    → Result Error ((List Donation × CollectionState) × Db)
read_donations now consumer ch gen after rev limit db = do
  c ← collection_state now ch db
  require (gen == c.generation) generation
  require (not (ltb after c.expired_through)) cursor_expired
  require (not (ltb c.current after)) cursor
  let db' = enroll consumer ch c db
  p ← progress consumer ch db'
  require (p.generation == gen) generation
  require (nat_eq p.recovery_revision rev) revision
  require (not (ltb after p.baseline || ltb p.offered_offset after)) cursor
  (ds, last) ← read_loop after (page ch gen after (clamp_limit limit) db'.donations)
  if ltb p.offered_offset last
      then ok (
        (ds, c),
        record db' {
          consumers =
              update_where (of_consumer consumer ch) (λ q. record q { offered_offset = last })
                db'.consumers;
        },
      )
      else ok ((ds, c), db')

-- p.Ack != nil && offset < *p.Ack
abbrev pub acked_past : Option ℕ → ℕ → Bool
acked_past none offset = false
acked_past (some a) offset = ltb offset a

-- AckDonations. A consumer with no row has no cursor.
unfoldable pub ack_donations : ℕ → String → String → String → ℕ → ℕ → Db → Result Error Db
ack_donations now consumer ch gen offset rev db = do
  c ← collection_state now ch db
  require (c.generation == gen) generation
  require (not (ltb offset c.expired_through)) cursor_expired
  p ← or_fail (find? (of_consumer consumer ch) db.consumers) cursor
  require (p.generation == gen) generation
  require (nat_eq p.recovery_revision rev) revision
  require
      (not
        (leb offset p.baseline || (ltb p.offered_offset offset || acked_past p.ack_offset offset)))
      cursor
  ok (record db {
    consumers =
        update_where (of_consumer consumer ch) (λ q. record q { ack_offset = some offset })
          db.consumers;
  })

operation_eq : Operation → Operation → Bool
operation_eq subscription_op subscription_op = true
operation_eq recovery_op recovery_op = true
operation_eq _ _ = false

unfoldable pub of_request : String → String → Operation → String → Request → Bool
unfolding operation_eq
of_request consumer ch op key r =
    (r.consumer_id == consumer)
    && ((r.channel_id == ch) && (operation_eq r.operation op && (r.request_key == key)))

-- requestResult: the saved result of the same request, or a conflict with another body.
unfoldable pub request_result :
    Env → String → String → Operation → String → String → Db → Result Error (Option Saved)
request_result e consumer ch op key body db =
    elim (find? (of_request consumer ch op key) db.requests) [
      | none ↦ ok none
      | some r ↦ if r.body_hash == e.request_hash body then ok (some r.result) else err conflict
    ]

-- saveRequest
unfoldable pub save_request :
    Env → ℕ → String → String → Operation → String → String → Saved → Db → Db
save_request e now consumer ch op key body result db = record db {
  requests =
      db.requests
      ++ (record {
        consumer_id = consumer;
        channel_id = ch;
        operation = op;
        request_key = key;
        body_hash = e.request_hash body;
        result = result;
        created_at = now;
      })
        ∷ [];
}

-- json.Marshal of a Boolean.
unfoldable pub encode_bool : Bool → String
encode_bool true = "true"
encode_bool false = "false"

unfoldable pub saved_bool : Saved → Result Error Bool
saved_bool (subscription b) = ok b
saved_bool (recovery _) = err conflict

-- The writes of a new subscription decision.
unfoldable pub set_subscribed : ℕ → String → Bool → Db → Db
set_subscribed now ch enabled db = record db {
  channels = update_where (of_channel ch) (λ c. record c { subscribed = enabled }) db.channels;
  grants =
      if enabled
      then db.grants
      else update_where (λ g. g.channel_id == ch) (close_grant now) db.grants;
}

-- SetSubscription
unfoldable pub set_subscription :
    Env → ℕ → String → String → String → Bool → Db → Result Error (Bool × Db)
unfolding saved_bool set_subscribed
set_subscription e now consumer ch key enabled db = do
  require (not (key == "") && leb (len key) 200) cursor
  c ← collection_state now ch db
  saved ← request_result e consumer ch subscription_op key (encode_bool enabled) db
  elim saved [
    | some s ↦ do old ← saved_bool s; ok (old, db)
    | none ↦ do
      require (not enabled || not (db.opted_out ch)) collection_disabled
      ok (
        enabled,
        save_request e now consumer ch subscription_op key (encode_bool enabled)
            (subscription enabled) (set_subscribed now ch enabled db),
      )
  ]

-- The loop over the declared loss ranges: how far they cover the offsets after `covered`.
unfoldable pub cover : String → ℕ → List LossRange → Result Error ℕ
cover gen covered [] = ok covered
cover gen covered (r ∷ rs) =
    let rest = cover gen (if ltb covered r.end_offset then r.end_offset else covered) rs in
    if not (r.start_generation == gen)
      || (not (r.end_generation == gen) || ltb r.end_offset r.start_offset)
    then err cursor
    else if ltb ((covered + 1) % 2 ^ 64) r.start_offset
    then err cursor
    else rest

-- Where the consumer stands before the decision.
abbrev pub old_offset : Consumer → ℕ
old_offset p = elim p.ack_offset [ none ↦ p.baseline | some a ↦ a ]

-- Skipping retained events of the same generation wants the loss ranges that cover them.
unfoldable pub check_loss : Env → String → String → ℕ → ℕ → String → Result Error Unit
check_loss e previous next old resume request =
    if (previous == next) && ltb resume old
    then err cursor
    else if (previous == next) && ltb old resume
    then (do
      ranges ← or_fail (e.loss_ranges request) cursor
      covered ← cover previous old ranges
      require (nat_eq covered resume) cursor)
    else ok tt

-- A consumer with no row stands at the start of the previous generation.
unfoldable pub progress_or_new : String → String → String → Db → Consumer
progress_or_new consumer ch previous db = elim (find? (of_consumer consumer ch) db.consumers) [
  | some p ↦ p
  | none ↦ consumer_at consumer ch previous 0 0
]

-- INSERT … ON CONFLICT DO UPDATE of the consumer's row.
unfoldable pub restart_consumer : String → String → String → ℕ → ℕ → Db → Db
restart_consumer consumer ch next resume rev db =
    let row = consumer_at consumer ch next resume rev in
    if is_some (find? (of_consumer consumer ch) db.consumers)
    then record db { consumers = update_where (of_consumer consumer ch) (λ _. row) db.consumers }
    else record db { consumers = db.consumers ++ row ∷ [] }

saved_decision : Saved → Result Error RecoveryDecision
saved_decision (recovery d) = ok d
saved_decision (subscription _) = err conflict

-- The writes of a new decision: the consumer's row, the idempotency record and the audit.
unfoldable pub record_decision :
    Env → ℕ → String → String → String → String → RecoveryDecision → Db → Db
record_decision e now consumer ch key request d db =
    let db' = restart_consumer consumer ch d.new_generation d.resume_from d.revision db in
    let db'' = save_request e now consumer ch recovery_op key request (recovery d) db' in
    record db'' {
      audits =
          db''.audits
          ++ (record {
            consumer_id = consumer;
            channel_id = ch;
            entry = decision request d;
            created_at = now;
          })
            ∷ [];
    }

-- The part of ResolveRecovery that decides, for a request that was not seen before.
unfoldable pub decide_recovery :
    Env
    → String
    → String
    → ℕ
    → ℕ
    → String
    → CollectionState
    → Consumer
    → Result Error RecoveryDecision
decide_recovery e previous next resume expected request c p = do
  require (next == c.generation) generation
  require (not (ltb resume c.expired_through || ltb c.current resume)) cursor
  require (p.generation == previous) generation
  require (not (nat_eq expected max_uint64)) revision
  require (nat_eq expected p.recovery_revision) revision
  check_loss e previous next (old_offset p) resume request
  ok (record {
    previous_generation = previous;
    new_generation = next;
    previous_offset = old_offset p;
    resume_from = resume;
    revision = expected + 1;
  })

-- ResolveRecovery
unfoldable pub resolve_recovery :
    Env
    → ℕ
    → String
    → String
    → String
    → String
    → String
    → ℕ
    → ℕ
    → String
    → Db
    → Result Error (RecoveryDecision × Db)
unfolding saved_decision
resolve_recovery e now consumer ch key previous next resume expected request db = do
  c ← collection_state now ch db
  saved ← request_result e consumer ch recovery_op key request db
  elim saved [
    | some s ↦ do d ← saved_decision s; ok (d, db)
    | none ↦ do
      d ←
          decide_recovery e previous next resume expected request c
            (progress_or_new consumer ch previous db)
      ok (d, record_decision e now consumer ch key request d db)
  ]

-- The dispatch loop over the entries that were read, with what the notification and the deletion
-- of each answer: the channels told, whether all went well, and the tables. A deletion that fails
-- leaves its entry.
unfoldable pub dispatch_loop :
    (Outbox → Bool) → (Outbox → Bool) → List Outbox → Db → List String × Bool × Db
dispatch_loop notify deletes [] db = ([], true, db)
dispatch_loop notify deletes (r ∷ rs) db =
    let (told, fine, db') =
      dispatch_loop notify deletes rs
        (record db { outbox = select (λ o. not (o.event_id == r.event_id)) db.outbox }) in
    if not (notify r)
    then ([], false, db)
    else if not (deletes r)
    then (r.channel_id ∷ [], false, db)
    else (r.channel_id ∷ told, fine, db')

-- DispatchDonationOutbox
unfoldable pub dispatch_outbox : (Outbox → Bool) → (Outbox → Bool) → Db → List String × Bool × Db
dispatch_outbox notify deletes db =
    dispatch_loop notify deletes (take 100 (order_by (λ o. o.created_at) db.outbox)) db
