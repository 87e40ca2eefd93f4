-- ===== src/Journal/Requests.antt =====
-- Subscription requests are idempotent (SetSubscription of shared/store/collector_consumer.go).
use Prim.Native.String.{len}
use rogi_collector.Prelude.{
  ℕ, ◌≡◌, ◌≢◌, refl, sym, subst, ◌∙◌, inl, inr, String, Bool, true, false, ◌&&◌, not, none, some,
  [], leb, arith, ◌==◌, Option-cases, Result-cases, find?, eq_iff, ok, err, find?-append_none,
  find?-head, find?-update_where, find?-test,
}
use rogi_collector.Journal.Model.{
  conflict, Channel, subscription, subscription_op, Request, Db, Env,
}
use rogi_collector.Journal.Grants.{of_channel, collection_state}
use rogi_collector.Journal.Consumers.{
  of_request, request_result, save_request, encode_bool, saved_bool, set_subscribed,
  set_subscription,
}

abbrev mine : String → String → String → Request → Bool
mine consumer ch key = of_request consumer ch subscription_op key

-- A saved request that the same key finds.
abbrev Known : Env → String → String → String → Bool → Bool → Db → Type 0
Known e consumer ch key enabled was db =
    (c : Channel) × (r : Request) × (find? (of_channel ch) db.channels ≡ some c)
    × ((not (key == "") && leb (len key) 200) ≡ true)
    × (find? (mine consumer ch key) db.requests ≡ some r)
    × ((r.body_hash == e.request_hash (encode_bool enabled)) ≡ true)
    × (saved_bool r.result ≡ ok was)

abbrev Differ : Env → Type 0
Differ e = e.request_hash (encode_bool true) ≢ e.request_hash (encode_bool false)

other_hash :
    (e : Env) (enabled : Bool) (r : Request)
    → Differ e
    → (r.body_hash == e.request_hash (encode_bool enabled)) ≡ true
    → (r.body_hash == e.request_hash (encode_bool (not enabled))) ≡ false
other_hash e true r differ h = ground (
  arith,
  eq_iff r.body_hash (e.request_hash (encode_bool true)),
  eq_iff r.body_hash (e.request_hash (encode_bool false)),
)
other_hash e false r differ h = ground (
  arith,
  eq_iff r.body_hash (e.request_hash (encode_bool true)),
  eq_iff r.body_hash (e.request_hash (encode_bool false)),
)

Known-again :
    (e : Env) (now : ℕ) (consumer ch key : String) (enabled was : Bool) (db : Db)
    → Known e consumer ch key enabled was db
    → set_subscription e now consumer ch key enabled db ≡ ok (was, db)
unfolding set_subscription collection_state request_result
Known-again e now consumer ch key enabled was db (c, r, found, good, at, same, saved) = ground arith

Known-conflict :
    (e : Env) (now : ℕ) (consumer ch key : String) (enabled was : Bool) (db : Db)
    → Differ e
    → Known e consumer ch key enabled was db
    → set_subscription e now consumer ch key (not enabled) db ≡ err conflict
unfolding set_subscription collection_state request_result
Known-conflict e now consumer ch key enabled was db differ (c, r, found, good, at, same, saved) =
    ground (arith, other_hash e enabled r differ same)

own :
    (i k q : String) (r : Request)
    → r.consumer_id ≡ i
    → r.channel_id ≡ k
    → r.operation ≡ subscription_op
    → r.request_key ≡ q
    → mine i k q r ≡ true
unfolding of_request
own i k q r a b o d =
    ground (
      arith,
      (eq_iff r.consumer_id i).1 a,
      (eq_iff r.channel_id k).1 b,
      (eq_iff r.request_key q).1 d,
    )

fresh-Known :
    (e : Env) (now : ℕ) (consumer ch key : String) (enabled : Bool) (db : Db) (c : Channel)
    → find? (of_channel ch) db.channels ≡ some c
    → (not (key == "") && leb (len key) 200) ≡ true
    → find? (mine consumer ch key) db.requests ≡ none
    → Known e consumer ch key enabled enabled (
        save_request e now consumer ch subscription_op key
          (encode_bool enabled)
          (subscription enabled)
          (set_subscribed now ch enabled db))
unfolding save_request set_subscribed saved_bool
fresh-Known e now consumer ch key enabled db c found good new = (
  record c { subscribed = enabled },
  _,
  find?-update_where (of_channel ch) (of_channel ch) _ db.channels c (λ z t. refl) found
      ∙ rw (find?-test (of_channel ch) db.channels c found),
  good,
  find?-append_none (mine consumer ch key) db.requests _ new
      ∙ find?-head (mine consumer ch key) _ [] (own consumer ch key _ refl refl refl refl),
  (eq_iff (e.request_hash (encode_bool enabled)) (e.request_hash (encode_bool enabled))).1 refl,
  refl,
)

subscribed-Known :
    (e : Env) (now : ℕ) (consumer ch key : String) (enabled : Bool) (db : Db) (was : Bool)
    (db' : Db)
    → set_subscription e now consumer ch key enabled db ≡ ok (was, db')
    → Known e consumer ch key enabled was db'
unfolding set_subscription collection_state request_result
subscribed-Known e now consumer ch key enabled db was db' h =
    elim (Option-cases (find? (of_channel ch) db.channels)) [
      | inl missing ↦ absurd (ground arith)
      | inr (c, found) ↦ elim (Option-cases (find? (mine consumer ch key) db.requests)) [
        | inr (r, repeated) ↦ elim (Result-cases (saved_bool r.result)) [
          | inl (bad, wrong) ↦ absurd (ground arith)
          | inr (old, saved) ↦
              let still : db' ≡ db = ground arith in
              subst (Known e consumer ch key enabled was) (sym still)
                (c, r, found, ground arith, repeated, ground arith, ground arith)
        ]
        | inl new ↦
            let is : was ≡ enabled = ground arith in
            let good : (not (key == "") && leb (len key) 200) ≡ true = ground arith in
            let writes : db'
                ≡ save_request e now consumer ch subscription_op key (encode_bool enabled)
                    (subscription enabled) (set_subscribed now ch enabled db) =
              ground arith in
            subst (Known e consumer ch key enabled was) (sym writes) (
              subst
                (λ w. Known e consumer ch key enabled w (
                  save_request e now consumer ch subscription_op key (encode_bool enabled)
                    (subscription enabled) (set_subscribed now ch enabled db)))
                (sym is) (fresh-Known e now consumer ch key enabled db c found good new))
      ]
    ]

-- A request that was accepted and is sent again under its key, with the same body, gets the saved
-- answer and changes nothing; with the other body it is refused as a conflict. The hashes of the
-- two bodies differ.
pub subscribe_again :
    (e : Env) (now later : ℕ) (consumer ch key : String) (enabled : Bool) (db : Db) (was : Bool)
    (db' : Db)
    → set_subscription e now consumer ch key enabled db ≡ ok (was, db')
    → Differ e
    → (set_subscription e later consumer ch key enabled db' ≡ ok (was, db'))
      × (set_subscription e later consumer ch key (not enabled) db' ≡ err conflict)
subscribe_again e now later consumer ch key enabled db was db' h differ =
    let known = subscribed-Known e now consumer ch key enabled db was db' h in
    (
      Known-again e later consumer ch key enabled was db' known,
      Known-conflict e later consumer ch key enabled was db' differ known,
    )
