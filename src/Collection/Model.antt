-- ===== src/Collection/Model.antt =====
-- prepareCollection of worker/internal/collection.go: the grant with its local deadline, the sink
-- of the connector, and the renewal. The state that the sink reports after a failed save, and the
-- heartbeat after a renewal, are left out.
use rogi_collector.Prelude.{
  ℕ, ◌+◌, ◌*◌, String, Bool, true, false, not, Option, some, ltb, if◌then◌else◌, Result, ok, err,
}
use rogi_collector.Journal.Model.{Error, owner, Donation, Db, Env, second}
use rogi_collector.Journal.Grants.{OwnerGrant, acquire_collection, renew_collection}
use rogi_collector.Spool.Model.{SpoolError, refused, Codec, DonationJournal, Io, Spool}
use rogi_collector.Spool.Save.{Limits, Clock, save}

pub record Session : Type 0 where
  pub grant : OwnerGrant
  pub deadline : ℕ
  -- the renewal failed: the connection was stopped
  pub stopped : Bool

-- The acquisition, begun at the first time and made by the database at the second.
unfoldable pub prepare_collection :
    Env → ℕ → ℕ → String → String → String → Db → Result Error (Session × Db)
prepare_collection e started now token ch worker db =
    elim (acquire_collection e now token ch worker db) [
      | err problem ↦ err problem
      | ok (g, db') ↦
          ok (record { grant = g; deadline = started + 30 * second; stopped = false }, db')
    ]

-- What a renewal answers.
abbrev pub renewed : ℕ → Session → Db → Result Error (ℕ × Db) → Session × Db
renewed started s db (err problem) = (record s { stopped = true }, db)
renewed started s db (ok (until, db')) = (
  record s { grant = record s.grant { valid_until = until }; deadline = started + 30 * second },
  db',
)

-- A tick of the renewal's timer.
unfoldable pub renew : ℕ → ℕ → Session × Db → Session × Db
renew started now sd =
    if sd.0.stopped then sd else renewed started sd.0 sd.1 (renew_collection now sd.0.grant sd.1)

module _ {J : Type 0} (k : Codec) (jr : DonationJournal J) (io : Io) where
  -- The donation sink.
  unfoldable pub accept :
      Limits → Clock → ℕ → Donation → Session → Spool J → Option SpoolError × Spool J
  accept l t now d s spool =
      if not (ltb now s.deadline)
      then (some (refused owner), spool)
      else save k jr io l t s.grant d s.deadline spool
