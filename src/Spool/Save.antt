-- ===== src/Spool/Save.antt =====
-- Save and Backlog (worker/internal/pipeline/spool.go).
use Prim.Native.String.{len, ◌++◌}
use rogi_collector.Prelude.{
  ℕ, ◌+◌, ◌-◌, ◌*◌, String, true, false, ◌&&◌, if◌then◌else◌, not, Option, none, some, List, ◌∷◌,
  length, ltb, leb, Result, ok, err, require, ◌>>=◌, ◌>>◌,
}
use rogi_collector.Journal.Model.{owner, second, Donation, validate}
use rogi_collector.Journal.Grants.{OwnerGrant}
use rogi_collector.Spool.Model.{
  SpoolRecord, SpoolEnvelope, Codec, DonationJournal, File, Spool, SpoolError, spool_full,
  invalid_event_id, io_failed, refused, unavailable, Io, list_files, remove_file, drain, padded,
  has_slash,
}

-- The limits of NewDonationSpool.
pub record Limits : Type 0 where
  pub max_bytes : ℕ
  pub max_files : ℕ

-- The clock's readings of one Save: before the listing, for the record, and after the write.
pub record Clock : Type 0 where
  pub checked : ℕ
  pub accepted : ℕ
  pub written : ℕ

abbrev pub put_file : File → List File → List File
put_file f fs = f ∷ remove_file f.name fs

-- The nanoseconds from the zero time to 1970, where UnixNano starts.
abbrev unix_epoch : ℕ
unix_epoch = 62135596800 * second

-- The name of a record's file, of a time from 1970 on.
unfoldable pub base_name : ℕ → Donation → String
base_name accepted d = padded 20 (accepted - unix_epoch) ++ "-" ++ d.event_id

-- A record's encoding with its checksum.
unfoldable pub envelope : Codec → SpoolRecord → SpoolEnvelope
envelope k r =
    let raw = k.encode_record r in record { version = 1; checksum = k.digest raw; content = raw }

-- The bytes of a record's file.
unfoldable pub encode : Codec → SpoolRecord → String
encode k r = k.encode_envelope (envelope k r)

-- The checks of Save before it writes; it returns the body to write.
unfoldable pub prepare :
    Codec → Io → Limits → Clock → OwnerGrant → Donation → ℕ → List File → Result SpoolError String
prepare k io l t g d deadline fs = do
  elim (validate d) [ ok _ ↦ ok tt | err e ↦ err (refused e) ]
  require (ltb t.checked deadline) (refused owner)
  (gs, size) ← list_files io fs
  require (ltb (length gs) l.max_files) spool_full
  let body = encode k (record { grant = g; donation = d; accepted_at = t.accepted })
  require (leb (size + len body) l.max_bytes) spool_full
  require (not (has_slash (base_name t.accepted d))) invalid_event_id
  ok body

-- errors.As(err, &unavailable): an unavailable journal is no failure of Save.
unfoldable pub tolerate : Option SpoolError → Option SpoolError
tolerate none = none
tolerate (some (unavailable e)) = none
tolerate (some e) = some e

module _ {J : Type 0} (k : Codec) (jr : DonationJournal J) (io : Io) where
  -- The part of Save from the creation of the pending file on.
  unfoldable pub commit : Clock → ℕ → String → String → Spool J → Option SpoolError × Spool J
  commit t deadline name body s =
      let pending = name ++ ".pending" in
      let final = name ++ ".json" in
      let left = record s {
        files =
            put_file (record { name = pending; regular = true; body = io.leaves pending }) s.files;
      } in
      let wrote = record s {
        files = put_file (record { name = pending; regular = true; body = body }) s.files;
      } in
      let renamed = record s {
        files =
            put_file (record { name = final; regular = true; body = body })
              (remove_file pending wrote.files);
      } in
      elim (io.opens pending && io.writes pending) [
        | false ↦ (some io_failed, if io.opens pending then left else s)
        | true ↦ elim (ltb t.written deadline) [
          | false ↦ (some (refused owner), wrote)
          | true ↦ elim (io.renames pending) [
            | false ↦ (some io_failed, wrote)
            | true ↦ elim (io.syncs final) [
              | false ↦ (some io_failed, renamed)
              | true ↦ let (e, s') = drain k jr io renamed in (tolerate e, s')
            ]
          ]
        ]
      ]

  -- Save; `none` is the nil error.
  unfoldable pub save :
      Limits → Clock → OwnerGrant → Donation → ℕ → Spool J → Option SpoolError × Spool J
  save l t g d deadline s = elim (prepare k io l t g d deadline s.files) [
    | err e ↦ (some e, s)
    | ok body ↦ commit t deadline (base_name t.accepted d) body s
  ]

  -- Backlog
  unfoldable pub backlog : Spool J → Result SpoolError (ℕ × ℕ)
  backlog s = do (fs, size) ← list_files io s.files; ok (length fs, size)
