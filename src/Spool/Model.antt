-- ===== src/Spool/Model.antt =====
-- The spool's directory, its records, and Save, Drain and Backlog
-- (worker/internal/pipeline/spool.go). The mutex makes its operations follow one another.
use Prim.Native.Nat.{Ordering}
use Prim.Native.String.{len, compare, ◌++◌}
use rogi_collector.Prelude.{
  ℕ, zero, suc, ◌+◌, ◌*◌, ◌/◌, ◌%◌, ◌^◌, String, Bool, true, false, ◌||◌, not, Option, none, some,
  List, [], ◌∷◌, leb, nat_eq, ◌==◌, if◌then◌else◌, select, Result, ok, err, require, or_fail, ◌>>=◌,
  ◌>>◌,
}
use rogi_collector.Journal.Model.{
  Error, owner, generation, collection_disabled, cursor_expired, conflict, Donation, Db, Env, day,
}
use rogi_collector.Journal.Grants.{OwnerGrant}
use rogi_collector.Journal.Donations.{append_donation}

pub record SpoolRecord : Type 0 where
  pub grant : OwnerGrant
  pub donation : Donation
  pub accepted_at : ℕ

pub record SpoolEnvelope : Type 0 where
  pub version : ℕ
  pub checksum : String
  pub content : String

-- encoding/json and crypto/sha256, as far as the spool calls them.
pub record Codec : Type 0 where
  pub encode_record : SpoolRecord → String
  pub decode_record : String → Option SpoolRecord
  pub encode_envelope : SpoolEnvelope → String
  pub decode_envelope : String → Option SpoolEnvelope
  pub digest : String → String

-- The journal that a spool hands its records to, with the clock of the call.
pub record DonationJournal (J : Type 0) : Type 0 where
  pub append : ℕ → OwnerGrant → Donation → ℕ → J → Result Error (Donation × J)

-- The journal in PostgreSQL.
abbrev pub pg_journal : Env → DonationJournal Db
pg_journal e = record { append = λ now g d accepted db. append_donation e now g d accepted db }

-- A directory entry.
pub record File : Type 0 where
  pub name : String
  pub regular : Bool
  pub body : String

pub record Spool (J : Type 0) : Type 0 where
  pub files : List File
  pub journal : J

pub data SpoolError : Type 0 where
  spool_full unexpected_entry incomplete_record unknown_record record_too_large : SpoolError
  corrupt_record checksum_mismatch corrupt_payload old_record invalid_event_id : SpoolError
  io_failed cancelled : SpoolError
  refused : Error → SpoolError
  -- journalUnavailable
  unavailable : Error → SpoolError

-- What the file system and the context answer, by the file's name, and the clock at that file.
pub record Io : Type 0 where
  pub lists : Bool
  pub opens : String → Bool
  pub writes : String → Bool
  -- what a failed write leaves in the file
  pub leaves : String → String
  pub renames : String → Bool
  -- syncDir after the rename, and after the removal
  pub syncs : String → Bool
  pub syncs_removal : String → Bool
  pub reads : String → Bool
  pub removes : String → Bool
  pub is_cancelled : String → Bool
  pub clock : String → ℕ

-- strings.HasSuffix
unfoldable pub has_suffix : String → String → Bool
has_suffix suffix String.[] = suffix == ""
has_suffix suffix (String.◌∷◌ c s) = (String.◌∷◌ c s == suffix) || has_suffix suffix s

-- The loop of `files` over the directory: the records' files and the bytes they take.
unfoldable pub scan : List File → Result SpoolError (List File × ℕ)
scan [] = ok ([], 0)
scan (f ∷ fs) =
    let rest = scan fs in
    if f.name == ".writer.lock"
    then rest
    else if not f.regular
    then err unexpected_entry
    else if has_suffix ".pending" f.name
    then err incomplete_record
    else if not (has_suffix ".json" f.name)
    then err unknown_record
    else do (gs, size) ← rest; ok (f ∷ gs, len f.body + size)

abbrev pub name_leb : String → String → Bool
name_leb s t = elim (compare s t) [ Ordering.gt ↦ false | _ ↦ true ]

unfoldable pub insert_name : File → List File → List File
insert_name f [] = f ∷ []
insert_name f (g ∷ gs) = if name_leb f.name g.name then f ∷ g ∷ gs else g ∷ insert_name f gs

-- sort.Strings
unfoldable pub sort_names : List File → List File
sort_names [] = []
sort_names (f ∷ fs) = insert_name f (sort_names fs)

-- files
unfoldable pub list_files : Io → List File → Result SpoolError (List File × ℕ)
list_files io fs = do require io.lists io_failed; (gs, size) ← scan fs; ok (sort_names gs, size)

abbrev pub named : String → File → Bool
named n f = f.name == n

abbrev pub remove_file : String → List File → List File
remove_file n fs = select (λ f. not (named n f)) fs

-- The checks of `drain` on one file, up to its record.
unfoldable pub load : Codec → ℕ → File → Result SpoolError SpoolRecord
load k now f = do
  require (leb (len f.body) (2 ^ 20)) record_too_large
  v ← or_fail (k.decode_envelope f.body) corrupt_record
  require (nat_eq v.version 1) corrupt_record
  require (k.digest v.content == v.checksum) checksum_mismatch
  r ← or_fail (k.decode_record v.content) corrupt_payload
  require (leb now (r.accepted_at + 30 * day)) old_record
  ok r

-- The errors after which a record is not tried again.
unfoldable pub is_final : Error → Bool
is_final owner = true
is_final generation = true
is_final collection_disabled = true
is_final cursor_expired = true
is_final conflict = true
is_final _ = false

abbrev pub failed : Error → SpoolError
failed e = if is_final e then refused e else unavailable e

module _ {J : Type 0} (k : Codec) (jr : DonationJournal J) (io : Io) where
  -- The loop of `drain`; `none` is the nil error.
  unfoldable pub drain_loop : List File → Spool J → Option SpoolError × Spool J
  drain_loop [] s = (none, s)
  drain_loop (f ∷ fs) s = elim (io.is_cancelled f.name) [
    | true ↦ (some cancelled, s)
    | false ↦ elim (io.reads f.name) [
      | false ↦ (some io_failed, s)
      | true ↦ elim (load k (io.clock f.name) f) [
        | err e ↦ (some e, s)
        | ok r ↦ elim (jr.append (io.clock f.name) r.grant r.donation r.accepted_at s.journal) [
          | err e ↦ (some (failed e), s)
          | ok (d, j) ↦ elim (io.removes f.name) [
            | false ↦ (some io_failed, record s { journal = j })
            | true ↦
                let s' : Spool J = record { files = remove_file f.name s.files; journal = j } in
                elim (io.syncs_removal f.name) [
                  | false ↦ (some io_failed, s')
                  | true ↦ drain_loop fs s'
                ]
          ]
        ]
      ]
    ]
  ]

  -- Drain
  unfoldable pub drain : Spool J → Option SpoolError × Spool J
  drain s = elim (list_files io s.files) [ err e ↦ (some e, s) | ok (fs, size) ↦ drain_loop fs s ]

-- The text of one digit.
abbrev digit : ℕ → String
digit d =
    if nat_eq d 0
    then "0"
    else if nat_eq d 1
    then "1"
    else if nat_eq d 2
    then "2"
    else if nat_eq d 3
    then "3"
    else if nat_eq d 4
    then "4"
    else if nat_eq d 5
    then "5"
    else if nat_eq d 6
    then "6"
    else if nat_eq d 7
    then "7"
    else if nat_eq d 8
    then "8"
    else "9"

-- %020d, for numbers of at most 20 digits.
unfoldable pub padded : ℕ → ℕ → String
padded zero n = ""
padded (suc k) n = padded k (n / 10) ++ digit (n % 10)

unfoldable pub has_slash : String → Bool
has_slash String.[] = false
has_slash (String.◌∷◌ c s) = (String.◌∷◌ c String.[] == "/") || has_slash s
