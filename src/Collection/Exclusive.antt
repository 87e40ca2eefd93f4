-- ===== src/Collection/Exclusive.antt =====
-- While a worker accepts donations of a channel, nobody else can acquire it
-- (worker/internal/collection.go over shared/store/collector.go).
use rogi_collector.Prelude.{
  ℕ, ◌+◌, ◌*◌, ◌≤◌, ◌≡◌, refl, sym, ap, subst, ◌∙◌, ◌⊎◌, inl, inr, String, Bool, true, false, ◌&&◌,
  not, none, some, List, [], ◌∷◌, ◌++◌, arith, ltb, Bool-cases, Option-cases, Result-cases, Result,
  ok, err, find?, exists?, update_where, find?-append_none, find?-head, find?-test,
  find?-update_where, eq_iff, exists?-append, find?-none-exists?, find?-update_where-none,
  update_where-snoc, if-cases,
}
use rogi_collector.Journal.Model.{Error, owner, Donation, Channel, GrantRow, Db, Env, second}
use rogi_collector.Journal.Grants.{
  OwnerGrant, of_channel, grant_open, grant_row, new_grant, take_over, enabled_tx,
  acquire_collection, renewable, renew_collection,
}
use rogi_collector.Journal.Ownership.{by_token, acquire_collection-inv, held_refuses}
use rogi_collector.Spool.Model.{refused, Codec, DonationJournal, Io, Spool}
use rogi_collector.Spool.Save.{Limits, Clock}
use rogi_collector.Collection.Model.{Session, prepare_collection, renewed, renew, accept}

-- The journal holds the session's grant, open until the session's deadline at least.
pub record Owns (e : Env) (ch : String) (sd : Session × Db) : Type 0 where
  pub allowed : e.allows_collection ch ≡ true
  pub channel : Channel
  pub found : find? (of_channel ch) sd.1.channels ≡ some channel
  pub enabled : (channel.subscribed && not (sd.1.opted_out ch)) ≡ true
  pub owned : channel.owner_token ≡ some sd.0.grant.token
  pub older : List GrantRow
  pub row : GrantRow
  pub rows : sd.1.grants ≡ older ++ row ∷ []
  pub fresh : find? (by_token sd.0.grant.token) older ≡ none
  pub named : by_token sd.0.grant.token row ≡ true
  pub not_closed : row.closed_at ≡ none
  pub on_time : sd.0.deadline ≤ row.valid_until

abbrev session_of : ℕ → OwnerGrant → Session
session_of started g = record { grant = g; deadline = started + 30 * second; stopped = false }

acquired-Owns :
    (e : Env) (started now : ℕ) (token ch worker : String) (db : Db) (g : OwnerGrant) (db' : Db)
    → started ≤ now
    → find? (by_token token) db.grants ≡ none
    → acquire_collection e now token ch worker db ≡ ok (g, db')
    → Owns e ch (session_of started g, db')
unfolding grant_row new_grant
acquired-Owns e started now token ch worker db g db' early fresh h =
    let (c, allowed, found, enabled, is, writes) =
      acquire_collection-inv e now token ch worker db g db' h in
    subst (λ (x : OwnerGrant). Owns e ch (session_of started x, db')) (sym is)
      (subst (λ (x : Db). Owns e ch (session_of started (new_grant now token ch c.generation), x))
        (sym writes)
        (record {
          allowed = allowed;
          channel = take_over now token c;
          found =
              find?-update_where (of_channel ch) (of_channel ch) (take_over now token) db.channels c
                (λ z t. refl) found
              ∙ rw (find?-test (of_channel ch) db.channels c found) refl;
          enabled = enabled;
          owned = refl;
          older = db.grants;
          row = grant_row now token ch worker c.generation;
          rows = refl;
          fresh = fresh;
          named = (eq_iff token token).1 refl;
          not_closed = refl;
          on_time = omega (arith, early);
        }))

prepare_collection-Owns :
    (e : Env) (started now : ℕ) (token ch worker : String) (db : Db) (s : Session) (db' : Db)
    → started ≤ now
    → find? (by_token token) db.grants ≡ none
    → prepare_collection e started now token ch worker db ≡ ok (s, db')
    → Owns e ch (s, db')
unfolding prepare_collection
prepare_collection-Owns e started now token ch worker db s db' early fresh h =
    elim (Result-cases (acquire_collection e now token ch worker db)) [
      | inl (problem, refused_it) ↦ absurd (ground arith)
      | inr ((g, db''), is) ↦
          let same_session : session_of started g ≡ s = ground arith in
          let same_db : db'' ≡ db' = ground arith in
          subst (λ x. Owns e ch (x, db')) same_session
            (subst (λ x. Owns e ch (session_of started g, x)) same_db
              (acquired-Owns e started now token ch worker db g db'' early fresh is))
    ]

-- What a renewal changes.
renew_collection-inv :
    (now : ℕ) (g : OwnerGrant) (db : Db) (until : ℕ) (db' : Db)
    → renew_collection now g db ≡ ok (until, db')
    → (exists? (renewable now db g.token) db.grants ≡ true)
      × (db' ≡ record db {
        grants =
            update_where
              (renewable now db g.token)
              (λ r. record r { valid_until = now + 30 * second })
              db.grants;
      })
unfolding renew_collection enabled_tx
renew_collection-inv now g db until db' h =
    elim (Option-cases (find? (of_channel g.channel) db.channels)) [
      | inl missing ↦ absurd (ground arith)
      | inr (c, found) ↦ (ground arith, ground arith)
    ]

only_last :
    (q : GrantRow → Bool) (older : List GrantRow) (row : GrantRow)
    → exists? q older ≡ false
    → exists? q (older ++ row ∷ []) ≡ true
    → q row ≡ true
unfolding exists?
only_last q older row h there =
    let split = exists?-append q older (row ∷ []) in ground (arith, split)

open_until :
    (now : ℕ) (row : GrantRow) (deadline : ℕ)
    → row.closed_at ≡ none
    → deadline ≤ row.valid_until
    → ltb now deadline ≡ true
    → grant_open now row ≡ true
open_until now row deadline not_closed on_time early =
    rw not_closed (ground (arith, on_time, early))

renewed-Owns :
    (e : Env) (ch : String) (started now : ℕ) (s : Session) (db : Db) (r : Result Error (ℕ × Db))
    → started ≤ now
    → renew_collection now s.grant db ≡ r
    → Owns e ch (s, db)
    → Owns e ch (renewed started s db r)
renewed-Owns e ch started now s db (err problem) early is h = record {
  allowed = h.allowed;
  channel = h.channel;
  found = h.found;
  enabled = h.enabled;
  owned = h.owned;
  older = h.older;
  row = h.row;
  rows = h.rows;
  fresh = h.fresh;
  named = h.named;
  not_closed = h.not_closed;
  on_time = h.on_time;
}
renewed-Owns e ch started now s db (ok (until, db')) early is h =
    let tok = s.grant.token in
    let (there, writes) = renew_collection-inv now s.grant db until db' is in
    let q : GrantRow → Bool = renewable now db tok in
    let f : GrantRow → GrantRow = λ r. record r { valid_until = now + 30 * second } in
    let none_older : exists? q h.older ≡ false =
      find?-none-exists? (by_token tok) q h.older (λ x e. ground (arith, e)) h.fresh in
    let in_rows : exists? q (h.older ++ h.row ∷ []) ≡ true = ap (exists? q) (sym h.rows) ∙ there in
    let renews : q h.row ≡ true = only_last q h.older h.row none_older in_rows in
    subst
      (λ x. Owns e ch (
        record s {
          grant = record s.grant { valid_until = until };
          deadline = started + 30 * second;
        },
        x,
      ))
      (sym writes)
      (record {
        allowed = h.allowed;
        channel = h.channel;
        found = h.found;
        enabled = h.enabled;
        owned = h.owned;
        older = update_where q f h.older;
        row = f h.row;
        rows = ap (update_where q f) h.rows ∙ update_where-snoc q f h.older h.row renews;
        fresh = find?-update_where-none (by_token tok) q f h.older (λ x e. refl) h.fresh;
        named = h.named;
        not_closed = h.not_closed;
        on_time = omega (arith, early);
      })

-- A session, from its acquisition on through renewals; each is begun before the database makes it.
pub data Lives (e : Env) (ch : String) : Session × Db → Type 0 where
  prepares :
      (started now : ℕ) (token worker : String) (db : Db) (s : Session) (db' : Db)
      → started ≤ now
      → find? (by_token token) db.grants ≡ none
      → prepare_collection e started now token ch worker db ≡ ok (s, db')
      → Lives e ch (s, db')
  renews :
      (started now : ℕ) (sd : Session × Db)
      → started ≤ now
      → Lives e ch sd
      → Lives e ch (renew started now sd)

Lives-Owns : (e : Env) (ch : String) (sd : Session × Db) → Lives e ch sd → Owns e ch sd
unfolding renew
Lives-Owns e ch _ (prepares started now token worker db s db' early fresh h) =
    prepare_collection-Owns e started now token ch worker db s db' early fresh h
Lives-Owns e ch _ (renews started now (s, db) early l) =
    let h = Lives-Owns e ch (s, db) l in
    if-cases (Owns e ch) s.stopped _ _ (λ stopped. h)
      (λ goes_on. renewed-Owns e ch started now s db (renew_collection now s.grant db) early refl h)

module _ {J : Type 0} (k : Codec) (jr : DonationJournal J) (io : Io) where
  -- At any time of a session that was acquired with a new token and then renewed in whatever way,
  -- with no other change of the journal in between: either the sink refuses every donation and
  -- leaves the spool as it is, or nobody can acquire the channel at that time, whatever token and
  -- worker it is tried with. The clocks of the worker and of the database agree, and a call is begun
  -- before the database makes it.
  pub accept-excludes :
      (e : Env) (ch : String) (s : Session) (db : Db) (l : Limits) (t : Clock) (now : ℕ)
      (d : Donation) (spool : Spool J) (token worker : String)
      → Lives e ch (s, db)
      → (accept k jr io l t now d s spool ≡ (some (refused owner), spool))
        ⊎ (acquire_collection e now token ch worker db ≡ err owner)
  unfolding accept
  accept-excludes e ch s db l t now d spool token worker life =
      elim (Bool-cases (ltb now s.deadline)) [
        | inr late ↦ inl (rw late refl)
        | inl early ↦
            let h = Lives-Owns e ch (s, db) life in
            inr (
              held_refuses e now token ch worker s.grant.token db h.channel h.row h.allowed h.found
                h.enabled h.owned
                (ap (find? (by_token s.grant.token)) h.rows
                  ∙ find?-append_none (by_token s.grant.token) h.older (h.row ∷ []) h.fresh
                  ∙ find?-head (by_token s.grant.token) h.row [] h.named)
                (let n = h.not_closed in
                  let o = h.on_time in open_until now h.row s.deadline n o early))
      ]
