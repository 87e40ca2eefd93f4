-- ===== src/Spool/Tests.antt =====
-- The spool's theorems at a directory with one record.
use rogi_collector.Prelude.{
  find?, update_where, ℕ, arith, exists?, eq_iff, subst, sym, ◌+◌, ◌*◌, ◌≡◌, refl, String, true,
  false, Option, none, some, List, [], ◌∷◌, ◌==◌, if◌then◌else◌, select, ok,
}
use rogi_collector.Journal.Model.{second, validate, Donation, Db}
use rogi_collector.Journal.Tests.{env, now, donation, grant, acquired}
use rogi_collector.Journal.Grants.{
  scan_collection, collection_state, new_channel, ensure_collection, enabled_tx, holder_open,
  grant_row, new_grant, acquire_collection,
}
use rogi_collector.Journal.Donations.{
  replay, classify, payload_size, payload_bytes, stamp, row_of, store_donation, append_new,
  append_donation,
}
use rogi_collector.Spool.Model.{
  pg_journal, SpoolRecord, Codec, DonationJournal, File, Spool, SpoolError, Io, load, scan,
  has_suffix, insert_name, sort_names, list_files, drain_loop, drain, padded, has_slash,
}
use rogi_collector.Spool.Save.{
  Limits, Clock, base_name, envelope, encode, prepare, tolerate, commit, save,
}
use rogi_collector.Spool.Handover.{HasRow, save-HasRow}
use rogi_collector.Spool.Durable.{IsFaithful, file_name, Safe, save-Safe}

abbrev entry : SpoolRecord
entry = record { grant = grant; donation = donation "e1" 1; accepted_at = now }

-- A codec that writes a record as its event id.
abbrev pub codec : Codec
codec = record {
  encode_record = λ r. r.donation.event_id;
  decode_record = λ s. if s == "e1" then some entry else none;
  encode_envelope = λ v. v.content;
  decode_envelope = λ s. some (record { version = 1; checksum = s; content = s });
  digest = λ s. s;
}

abbrev pub calm : Io
calm = record {
  lists = true;
  opens = λ n. true;
  writes = λ n. true;
  leaves = λ n. "";
  renames = λ n. true;
  syncs = λ n. true;
  syncs_removal = λ n. true;
  reads = λ n. true;
  removes = λ n. true;
  is_cancelled = λ n. false;
  clock = λ n. now + 60 * second;
}

-- A journal that keeps the event ids.
abbrev pub ids : DonationJournal (List String)
ids = record { append = λ at g d accepted j. ok (d, d.event_id ∷ j) }

abbrev file : File
file = record { name = "1-e1.json"; regular = true; body = "e1" }

abbrev waiting : Spool (List String)
waiting = record { files = file ∷ []; journal = [] }

abbrev drained : Option SpoolError × Spool (List String)
drained = drain codec ids calm waiting

abbrev pub limits : Limits
limits = record { max_bytes = 1000; max_files = 10000 }

abbrev pub times : Clock
times = record { checked = now; accepted = now; written = now }

abbrev pub empty : Spool (List String)
empty = record { files = []; journal = [] }

abbrev saved : Option SpoolError × Spool (List String)
saved = save codec ids calm limits times grant (donation "e1" 1) (now + second) empty

faithful : IsFaithful codec entry
unfolding encode envelope
faithful = record { record_back = refl; envelope_back = refl }

saved_fine : saved.0 ≡ none
unfolding save prepare validate list_files scan has_suffix sort_names insert_name encode envelope
    base_name padded has_slash commit tolerate drain drain_loop load select
saved_fine = refl

-- The event id is in the list.
abbrev Kept : SpoolRecord → List String → Type 0
Kept r j = exists? (λ id. id == r.donation.event_id) j ≡ true

ids-takes :
    (at : ℕ) (r : SpoolRecord) (x : Donation) (i j : List String)
    → ids.append at r.grant r.donation r.accepted_at i ≡ ok (x, j)
    → Kept r j
unfolding exists?
ids-takes at r x i j h =
    let is : j ≡ r.donation.event_id ∷ i = ground arith in
    subst (Kept r) (sym is) (ground (arith, eq_iff r.donation.event_id r.donation.event_id))

ids-stays :
    (at : ℕ) (r q : SpoolRecord) (x : Donation) (i j : List String)
    → ids.append at q.grant q.donation q.accepted_at i ≡ ok (x, j)
    → Kept r i
    → Kept r j
unfolding exists?
ids-stays at r q x i j h k =
    let is : j ≡ q.donation.event_id ∷ i = ground arith in subst (Kept r) (sym is) (ground arith)

save-Safe_example : Safe codec Kept (file_name now (donation "e1" 1)) entry saved.1
save-Safe_example =
    save-Safe codec ids calm Kept ids-takes ids-stays limits times grant (donation "e1" 1)
      (now + second) empty faithful saved_fine

abbrev empty_pg : Spool Db
empty_pg = record { files = []; journal = acquired }

abbrev saved_pg : Option SpoolError × Spool Db
saved_pg =
    save codec (pg_journal env) calm limits times grant (donation "e1" 1) (now + second) empty_pg

pg_fine : saved_pg.0 ≡ none
unfolding save prepare validate list_files scan has_suffix sort_names insert_name encode envelope
    base_name padded has_slash commit tolerate drain drain_loop load select ensure_collection
    new_channel find? acquire_collection enabled_tx holder_open grant_row new_grant update_where
    append_donation append_new collection_state scan_collection replay stamp classify payload_bytes
    payload_size store_donation row_of
pg_fine = refl

save-HasRow_example : Safe codec HasRow (file_name now (donation "e1" 1)) entry saved_pg.1
save-HasRow_example =
    save-HasRow codec env calm limits times grant (donation "e1" 1) (now + second) empty_pg faithful
      pg_fine
