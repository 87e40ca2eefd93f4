-- ===== src/Collection/Tests.antt =====
-- The theorem on a worker's authority, at a session that was renewed once.
use rogi_collector.Prelude.{
  ◌+◌, ◌*◌, ◌≡◌, refl, ◌⊎◌, some, find?, none, ok, err, update_where, arith, false, ◌==◌,
}
use rogi_collector.Journal.Model.{owner, second, Db}
use rogi_collector.Journal.Grants.{
  acquire_collection, ensure_collection, new_channel, enabled_tx, holder_open, grant_row, new_grant,
}
use rogi_collector.Journal.Tests.{env, now, donation, grant, ensured, acquired}
use rogi_collector.Spool.Model.{refused}
use rogi_collector.Spool.Tests.{codec, calm, ids, limits, times, empty}
use rogi_collector.Collection.Model.{Session, prepare_collection, renew, accept}
use rogi_collector.Collection.Exclusive.{Lives, prepares, renews, accept-excludes}

abbrev session : Session
session = record { grant = grant; deadline = now + 30 * second; stopped = false }

new_token : find? (λ g. g.token == "t1") ensured.grants ≡ none
unfolding ensure_collection find?
new_token = refl

prepared : prepare_collection env now now "t1" "ch" "w1" ensured ≡ ok (session, acquired)
unfolding prepare_collection ensure_collection new_channel find? acquire_collection enabled_tx
    holder_open grant_row new_grant update_where
prepared = refl

abbrev renewed_at : Session × Db
renewed_at = renew (now + 8 * second) (now + 9 * second) (session, acquired)

session-Lives : Lives env "ch" renewed_at
session-Lives =
    renews (now + 8 * second) (now + 9 * second) (session, acquired) (omega arith)
      (prepares now now "t1" "w1" ensured session acquired (omega arith) new_token prepared)

accept-excludes_example :
    (accept codec ids calm limits times (now + 31 * second) (donation "e1" 1) renewed_at.0 empty
      ≡ (some (refused owner), empty))
    ⊎ (acquire_collection env (now + 31 * second) "t2" "ch" "w2" renewed_at.1 ≡ err owner)
accept-excludes_example =
    accept-excludes codec ids calm env "ch" renewed_at.0 renewed_at.1 limits times
      (now + 31 * second) (donation "e1" 1) empty "t2" "w2" session-Lives
