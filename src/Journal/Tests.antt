-- ===== src/Journal/Tests.antt =====
-- The journal's theorems at a concrete history: one channel, one worker, one consumer.
use mathlib.Core.Bool.{false≢true}
use rogi_collector.Prelude.{
  ℕ, ◌+◌, ◌*◌, ◌≤◌, ◌<◌, ◌≡◌, ◌≢◌, refl, String, Bool, true, false, none, some, List, [], ◌∷◌,
  arith, ◌==◌, find?, exists?, select, update_where, insert_by, order_by, max_uint64, eq_iff,
  Result, ok, err, pos, All,
}
use rogi_collector.Journal.Model.{
  Error, generation, Donation, Channel, Consumer, RecoveryDecision, LossRange, Db, Env, second, day,
  validate,
}
use rogi_collector.Journal.Grants.{
  CollectionState, OwnerGrant, of_channel, scan_collection, collection_state, new_channel,
  ensure_collection, enabled_tx, holder_open, grant_row, new_grant, acquire_collection, close_grant,
}
use rogi_collector.Journal.Donations.{
  replay, classify, payload_size, payload_bytes, stamp, row_of, store_donation, append_new,
  append_donation, unacked, expire_loop, acked_through, drop_through, expire_point,
  expire_donations,
}
use rogi_collector.Journal.Consumers.{
  of_consumer, progress, consumer_at, enroll, read_loop, page, read_donations, ack_donations,
  of_request, request_result, save_request, encode_bool, set_subscribed, set_subscription,
  old_offset, cover, check_loss, decide_recovery, dispatch_outbox,
}
use rogi_collector.Journal.Maintenance.{relabel, rotate, rotate_journal}
use rogi_collector.Journal.Invariant.{IsSoundDb, IsFresh, retained}
use rogi_collector.Journal.Steps.{
  Reach, empty_db, Reach-IsSound, ensure, acquire, append, read, ack, here, next,
}
use rogi_collector.Journal.Delivery.{recovery_covered, within}
use rogi_collector.Journal.Writing.{by_event, Effect, append-Effect, append_twice}
use rogi_collector.Journal.Ownership.{rotate_fences}
use rogi_collector.Journal.Outboxes.{pending, Dispatched, dispatch_exact}
use rogi_collector.Journal.Expiry.{expire_keeps_unacked}

abbrev pub env : Env
env = record {
  content_key = λ d. d.message;
  column_size = λ d. 100;
  json_size = λ d. 120;
  request_hash = λ body. body;
  loss_ranges = λ request. some (
      record { start_generation = "g1"; start_offset = 1; end_generation = "g1"; end_offset = 2 }
      ∷ []);
  allows_collection = λ ch. true;
}

abbrev pub now : ℕ
now = 1000 * second

abbrev ok_db : Result Error Db → Db
ok_db (ok db) = db
ok_db (err e) = empty_db (λ ch. false) (λ ch worker. true)

abbrev ok_pair : {A : Type 0} → Result Error (A × Db) → Db
ok_pair (ok (x, db)) = db
ok_pair (err e) = empty_db (λ ch. false) (λ ch worker. true)

abbrev pub donation : String → ℕ → Donation
donation id n = record {
  event_id = id;
  channel_id = "ch";
  count = pos 10;
  kind = "balloon";
  donor_id = "viewer";
  display_name = "Viewer";
  message = "hi";
  connection_epoch = "c1";
  sequence = n;
  observed_at = 999 * second;
  connection_started_at = 900 * second;
  source_id = none;
  broadcast_id = none;
  identity = "";
  reasons = [];
  related = [];
  generation = "";
  offset = 0;
}

abbrev pub grant : OwnerGrant
grant = record {
  token = "t1";
  channel = "ch";
  generation = "g1";
  granted_at = now;
  valid_until = now + 30 * second;
}

abbrev pub start : Db
start = empty_db (λ ch. false) (λ ch worker. true)

abbrev pub ensured : Db
ensured = ok_db (ensure_collection env now "g1" "ch" start)

abbrev pub acquired : Db
acquired = ok_pair (acquire_collection env now "t1" "ch" "w1" ensured)

abbrev pub stored : Donation → ℕ → Donation
stored d n = record d { identity = "observation_only"; generation = "g1"; offset = n }

abbrev pub one : Db
one = ok_pair (append_donation env now grant (donation "e1" 1) now acquired)

abbrev two : Db
two = ok_pair (append_donation env now grant (donation "e2" 2) now one)

abbrev offered : Db
offered = ok_pair (read_donations now "app" "ch" "g1" 0 0 10 two)

abbrev acked : Db
acked = ok_db (ack_donations now "app" "ch" "g1" 2 0 offered)

ensured_is : ensure_collection env now "g1" "ch" start ≡ ok ensured
unfolding ensure_collection new_channel find?
ensured_is = refl

acquired_is : acquire_collection env now "t1" "ch" "w1" ensured ≡ ok (grant, acquired)
unfolding ensure_collection new_channel find? acquire_collection enabled_tx holder_open grant_row
    new_grant update_where
acquired_is = refl

pub one_is :
    append_donation env now grant (donation "e1" 1) now acquired
    ≡ ok (stored (donation "e1" 1) 1, one)
unfolding ensure_collection new_channel find? acquire_collection enabled_tx holder_open grant_row
    new_grant update_where append_donation append_new collection_state scan_collection validate
    replay stamp classify select payload_bytes payload_size store_donation row_of
one_is = refl

two_is :
    append_donation env now grant (donation "e2" 2) now one ≡ ok (stored (donation "e2" 2) 2, two)
unfolding ensure_collection new_channel find? acquire_collection enabled_tx holder_open grant_row
    new_grant update_where append_donation append_new collection_state scan_collection validate
    replay stamp classify select payload_bytes payload_size store_donation row_of
two_is = refl

offered_is :
    read_donations now "app" "ch" "g1" 0 0 10 two
    ≡ ok (
      (
        stored (donation "e1" 1) 1 ∷ stored (donation "e2" 2) 2 ∷ [],
        scan_collection now two.grants (record (new_channel now "g1" "ch") {
          next_offset = 2;
          last_received_at = some (999 * second);
          owner_token = some "t1";
          runtime_state = "connecting";
        }),
      ),
      offered,
    )
unfolding ensure_collection new_channel find? acquire_collection enabled_tx holder_open grant_row
    new_grant update_where append_donation append_new collection_state scan_collection validate
    replay stamp classify select payload_bytes payload_size store_donation row_of read_donations
    progress consumer_at enroll read_loop page order_by insert_by exists?
offered_is = refl

acked_is : ack_donations now "app" "ch" "g1" 2 0 offered ≡ ok acked
unfolding ensure_collection new_channel find? acquire_collection enabled_tx holder_open grant_row
    new_grant update_where append_donation append_new collection_state scan_collection validate
    replay stamp classify select payload_bytes payload_size store_donation row_of read_donations
    progress consumer_at enroll read_loop page order_by insert_by exists? ack_donations
acked_is = refl

fresh : IsFresh "g1" start
unfolding exists?
fresh = (refl, refl)

history : Reach env start acked
history =
    next
      (next
        (next
          (next
            (next (next here (ensure now "g1" "ch" fresh ensured_is))
              (acquire now "t1" "ch" "w1" grant acquired_is))
            (append now grant (donation "e1" 1) now _ one_is))
          (append now grant (donation "e2" 2) now _ two_is))
        (read now "app" "ch" "g1" 0 0 10 _ offered_is))
      (ack now "app" "ch" "g1" 2 0 acked_is)

Reach-IsSound_example : IsSoundDb acked
Reach-IsSound_example = Reach-IsSound history

abbrev channel : Channel
channel = record (new_channel now "g1" "ch") {
  next_offset = 2;
  last_received_at = some (999 * second);
  owner_token = some "t1";
  runtime_state = "connecting";
}

abbrev reader : Consumer
reader = record (consumer_at "app" "ch" "g1" 0 0) { offered_offset = 2; ack_offset = some 2 }

channel_found : find? (of_channel "ch") acked.channels ≡ some channel
unfolding ensure_collection new_channel find? acquire_collection enabled_tx holder_open grant_row
    new_grant update_where append_donation append_new collection_state scan_collection validate
    replay stamp classify select payload_bytes payload_size store_donation row_of read_donations
    progress consumer_at enroll read_loop page order_by insert_by exists? ack_donations
channel_found = refl

reader_found : find? (of_consumer "app" "ch") acked.consumers ≡ some reader
unfolding ensure_collection new_channel find? acquire_collection enabled_tx holder_open grant_row
    new_grant update_where append_donation append_new collection_state scan_collection validate
    replay stamp classify select payload_bytes payload_size store_donation row_of read_donations
    progress consumer_at enroll read_loop page order_by insert_by exists? ack_donations
reader_found = refl

abbrev view : CollectionState
view = scan_collection now [] channel

abbrev lagging : Consumer
lagging = consumer_at "app" "ch" "g1" 0 4

abbrev decided : RecoveryDecision
decided = record {
  previous_generation = "g1";
  new_generation = "g1";
  previous_offset = 0;
  resume_from = 2;
  revision = 5;
}

decided_is : decide_recovery env "g1" "g1" 2 4 "request" view lagging ≡ ok decided
unfolding decide_recovery scan_collection new_channel consumer_at check_loss cover
decided_is = refl

abbrev lost : List LossRange
lost =
    record { start_generation = "g1"; start_offset = 1; end_generation = "g1"; end_offset = 2 } ∷ []

room : view.current ≤ max_uint64
unfolding scan_collection new_channel
room = omega arith

before : old_offset lagging < 2
unfolding consumer_at
before = omega arith

recovery_covered_example : exists? (within 2) lost ≡ true
recovery_covered_example =
    recovery_covered env "g1" 2 4 "request" view lagging decided lost 2 room decided_is refl before
      (omega arith)

new_event : find? (λ r. r.event_id == "e2") one.donations ≡ none
unfolding ensure_collection new_channel find? acquire_collection enabled_tx holder_open grant_row
    new_grant update_where append_donation append_new collection_state scan_collection validate
    replay stamp classify select payload_bytes payload_size store_donation row_of read_donations
    progress consumer_at enroll read_loop page order_by insert_by exists? ack_donations
new_event = refl

append-Effect_example : Effect now (donation "e2" 2) one (stored (donation "e2" 2) 2) two
append-Effect_example =
    append-Effect env now grant (donation "e2" 2) now one (stored (donation "e2" 2) 2) two two_is
      new_event

abbrev channel_two : Channel
channel_two = record (new_channel now "g1" "ch") {
  next_offset = 2;
  last_received_at = some (999 * second);
  owner_token = some "t1";
  runtime_state = "connecting";
}

-- The second donation was stored after the first, delivered and acknowledged: the first one's row
-- and the channel's generation are the same.
row_stays : find? (by_event "e1") acked.donations ≡ find? (by_event "e1") one.donations
unfolding ensure_collection new_channel find? acquire_collection enabled_tx holder_open grant_row
    new_grant update_where append_donation append_new collection_state scan_collection validate
    replay stamp classify select payload_bytes payload_size store_donation row_of read_donations
    progress consumer_at enroll read_loop page order_by insert_by exists? ack_donations
row_stays = refl

channel_is : find? (of_channel "ch") acked.channels ≡ some channel_two
unfolding ensure_collection new_channel find? acquire_collection enabled_tx holder_open grant_row
    new_grant update_where append_donation append_new collection_state scan_collection validate
    replay stamp classify select payload_bytes payload_size store_donation row_of read_donations
    progress consumer_at enroll read_loop page order_by insert_by exists? ack_donations
channel_is = refl

same_generation : channel_two.generation ≡ grant.generation
unfolding new_channel
same_generation = refl

append_twice_example :
    append_donation env (now + 60 * second) grant (donation "e1" 1) now acked
    ≡ ok (stored (donation "e1" 1) 1, acked)
append_twice_example =
    append_twice env now (now + 60 * second) grant (donation "e1" 1) now acquired
      (stored (donation "e1" 1) 1) one acked channel_two one_is row_stays channel_is same_generation
      (omega arith)

abbrev rotated : Db
rotated = ok_pair (rotate_journal now "g2" "ch" "g1" "disk loss" two)

turned : rotate_journal now "g2" "ch" "g1" "disk loss" two ≡ ok ("g2", rotated)
unfolding ensure_collection new_channel find? acquire_collection enabled_tx holder_open grant_row
    new_grant update_where append_donation append_new collection_state scan_collection validate
    replay stamp classify select payload_bytes payload_size store_donation row_of read_donations
    progress consumer_at enroll read_loop page order_by insert_by exists? ack_donations
    rotate_journal rotate relabel close_grant
turned = refl

valid : validate (donation "e3" 3) ≡ ok tt
unfolding validate
valid = refl

rotate_fences_example :
    (append_donation env now grant (donation "e3" 3) now rotated ≡ err generation)
    × (read_donations now "app" "ch" "g1" 0 0 10 rotated ≡ err generation)
    × (ack_donations now "app" "ch" "g1" 1 0 rotated ≡ err generation)
rotate_fences_example =
    rotate_fences env now now "g2" "ch" "g1" "disk loss" two "g2" rotated (donation "e3" 3) grant
      now "app" 0 0 10 1 turned (λ p. false≢true ((eq_iff "g2" "g1").1 p))
      (valid, omega arith, refl, refl, refl) refl

abbrev quiet : Db
quiet = ok_pair (set_subscription env now "app" "ch" "k1" false acquired)

quiet_is : set_subscription env now "app" "ch" "k1" false acquired ≡ ok (false, quiet)
unfolding ensure_collection new_channel find? acquire_collection enabled_tx holder_open grant_row
    new_grant update_where set_subscription collection_state scan_collection request_result
    save_request set_subscribed close_grant of_request encode_bool
quiet_is = refl

differ : encode_bool true ≢ encode_bool false
unfolding encode_bool
differ p = false≢true ((eq_iff "true" "false").1 p)

abbrev dispatched : List String × Bool × Db
dispatched = dispatch_outbox (λ o. true) (λ o. false) two

dispatch_exact_example :
    Dispatched (λ o. true) (λ o. false) (pending two) two dispatched.0 dispatched.1 dispatched.2
dispatch_exact_example = dispatch_exact (λ o. true) (λ o. false) two

abbrev expired : Db
expired = ok_db (expire_donations env (now + 8 * day) "ch" (7 * day) (30 * day) 1000 acked)

expired_is : expire_donations env (now + 8 * day) "ch" (7 * day) (30 * day) 1000 acked ≡ ok expired
unfolding ensure_collection new_channel find? acquire_collection enabled_tx holder_open grant_row
    new_grant update_where append_donation append_new collection_state scan_collection validate
    replay stamp classify select payload_bytes payload_size store_donation row_of read_donations
    progress consumer_at enroll read_loop page order_by insert_by exists? ack_donations
    expire_donations expire_point expire_loop unacked drop_through
expired_is = refl

after : find? (of_channel "ch") expired.channels ≡ some (record channel { expired_through = 2 })
unfolding ensure_collection new_channel find? acquire_collection enabled_tx holder_open grant_row
    new_grant update_where append_donation append_new collection_state scan_collection validate
    replay stamp classify select payload_bytes payload_size store_donation row_of read_donations
    progress consumer_at enroll read_loop page order_by insert_by exists? ack_donations
    expire_donations expire_point expire_loop unacked drop_through
after = refl

moved : channel.expired_through < 2
unfolding new_channel
moved = omega arith

young :
    All
      (λ r. now + 8 * day ≤ r.stored_at + 30 * day)
      (retained acked.donations "ch" channel.generation)
unfolding ensure_collection new_channel find? acquire_collection enabled_tx holder_open grant_row
    new_grant update_where append_donation append_new collection_state scan_collection validate
    replay stamp classify select payload_bytes payload_size store_donation row_of read_donations
    progress consumer_at enroll read_loop page order_by insert_by exists? ack_donations
young = (omega arith, (omega arith, tt))

small : payload_bytes env.column_size "ch" acked.donations ≤ 1000
unfolding ensure_collection new_channel find? acquire_collection enabled_tx holder_open grant_row
    new_grant update_where append_donation append_new collection_state scan_collection validate
    replay stamp classify select payload_bytes payload_size store_donation row_of read_donations
    progress consumer_at enroll read_loop page order_by insert_by exists? ack_donations
small = omega arith

expire_keeps_unacked_example : (reader.generation ≡ channel.generation) × (2 ≤ acked_through reader)
expire_keeps_unacked_example =
    expire_keeps_unacked env (now + 8 * day) "ch" (7 * day) (30 * day) 1000 acked expired channel
      (record channel { expired_through = 2 }) "app" reader (Reach-IsSound history) expired_is
      channel_found after moved young small reader_found
