-- ===== src/Spool/Handover.antt =====
-- The spool over the journal in PostgreSQL (worker/internal/pipeline/spool.go, AppendDonation of
-- shared/store/collector.go).
use rogi_collector.Prelude.{
  ℕ, ◌≡◌, ◌⊎◌, ◌∙◌, ap, subst, sym, inl, inr, none, some, [], ◌∷◌, ◌++◌, find?, ok,
  find?-append_some,
}
use rogi_collector.Journal.Model.{Donation, Row, Db, Env}
use rogi_collector.Journal.Grants.{OwnerGrant}
use rogi_collector.Journal.Donations.{append_donation}
use rogi_collector.Journal.Append.{append_donation-inv}
use rogi_collector.Journal.Writing.{by_event, append-Effect}
use rogi_collector.Spool.Model.{SpoolRecord, Codec, pg_journal, Spool, Io}
use rogi_collector.Spool.Save.{Limits, Clock, save}
use rogi_collector.Spool.Durable.{IsFaithful, file_name, Safe, save-Safe}

-- The record's event has a row.
abbrev pub HasRow : SpoolRecord → Db → Type 0
HasRow r db = (x : Row) × (find? (by_event r.donation.event_id) db.donations ≡ some x)

abbrev Extends : Donation → Db → Db → Type 0
Extends d db db' =
    ((x : Row) × (db' ≡ db) × (find? (by_event d.event_id) db.donations ≡ some x))
    ⊎ ((x : Row) × (db'.donations ≡ db.donations ++ x ∷ [])
        × (find? (by_event d.event_id) db'.donations ≡ some x))

append-Extends :
    (e : Env) (now : ℕ) (g : OwnerGrant) (d : Donation) (accepted : ℕ) (db : Db) (s : Donation)
    (db' : Db)
    → append_donation e now g d accepted db ≡ ok (s, db')
    → Extends d db db'
append-Extends e now g d accepted db s db' h =
    elim (append_donation-inv e now g d accepted db s db' h) [
      | inl (x, known, same, still) ↦ inl (x, still, known)
      | inr (fresh, a) ↦
          let (
            c,
            x,
            found,
            id,
            in_channel,
            o,
            gen,
            (c', found', gen', n, left, known, paid, rows, out),
          ) =
            append-Effect e now g d accepted db s db' h fresh in
          inr (x, rows, subst (λ k. find? (by_event k) db'.donations ≡ some x) id known)
    ]

HasRow-taken :
    (d : Donation) (db db' : Db)
    → Extends d db db'
    → (x : Row) × (find? (by_event d.event_id) db'.donations ≡ some x)
HasRow-taken d db db' (inl (x, still, known)) =
    (x, ap (λ (y : Db). find? (by_event d.event_id) y.donations) still ∙ known)
HasRow-taken d db db' (inr (x, rows, known)) = (x, known)

HasRow-stays :
    (d : Donation) (r : SpoolRecord) (db db' : Db) → Extends d db db' → HasRow r db → HasRow r db'
HasRow-stays d r db db' (inl (x, still, known)) has = subst (HasRow r) (sym still) has
HasRow-stays d r db db' (inr (x, rows, known)) (y, has) = (
  y,
  ap (find? (by_event r.donation.event_id)) rows
      ∙ find?-append_some (by_event r.donation.event_id) db.donations (x ∷ []) y has,
)

-- A donation for which Save returned no error, on a spool that hands its records to the journal in
-- PostgreSQL: when Save has returned, its record's file is in the directory, or the journal, as
-- Save's drain left it, has a row of its event, whatever the file system, the clock and the tables
-- are. The decoders undo the encoders at this record.
pub save-HasRow :
    (k : Codec) (e : Env) (io : Io) (l : Limits) (t : Clock) (g : OwnerGrant) (d : Donation)
    (deadline : ℕ) (s : Spool Db)
    → IsFaithful k (record { grant = g; donation = d; accepted_at = t.accepted })
    → (save k (pg_journal e) io l t g d deadline s).0 ≡ none
    → Safe k HasRow
        (file_name t.accepted d)
        (record { grant = g; donation = d; accepted_at = t.accepted })
        (save k (pg_journal e) io l t g d deadline s).1
save-HasRow k e io =
    save-Safe k (pg_journal e) io HasRow
      (λ now r x i j h.
        HasRow-taken r.donation i j (append-Extends e now r.grant r.donation r.accepted_at i x j h))
      (λ now r q x i j h.
        HasRow-stays q.donation r i j
          (append-Extends e now q.grant q.donation q.accepted_at i x j h))
