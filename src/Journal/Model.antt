-- ===== src/Journal/Model.antt =====
-- The donation observation (shared/model/donation.go), the errors and the tables of the donation
-- journal (shared/store/collector.go, collector_consumer.go, migration 006).
-- Times are nanoseconds from Go's zero time on, so a zero is `IsZero`. A payload column holds the
-- donation itself: encoding it to JSON and back is not modelled.
use rogi_collector.Prelude.{ℕ, String, Bool, false, ◌&&◌, not, Option, List, ℤ, pos, negsuc}
use rogi_collector.Prelude.{ltb, leb, nat_eq, ◌==◌, Result, require, ◌>>◌}
use Prim.Native.String.{len}

pub data Error : Type 0 where
  too_large invalid_donation collection_disabled owner generation cursor_expired cursor revision :
      Error
  conflict journal_full invalid_policy offset_exhausted unverified_identity missing_argument : Error
  -- pgx.ErrNoRows
  no_rows : Error

pub record Donation : Type 0 where
  pub event_id : String
  pub channel_id : String
  pub count : ℤ
  pub kind : String
  pub donor_id : String
  pub display_name : String
  pub message : String
  pub connection_epoch : String
  pub sequence : ℕ
  pub observed_at : ℕ
  pub connection_started_at : ℕ
  pub source_id : Option String
  pub broadcast_id : Option String
  pub identity : String
  pub reasons : List String
  pub related : List String
  pub generation : String
  pub offset : ℕ

-- A collector_channels row. `next_offset` is the last offset that was given out.
pub record Channel : Type 0 where
  pub channel_id : String
  pub generation : String
  pub next_offset : ℕ
  pub expired_through : ℕ
  pub subscribed : Bool
  pub owner_token : Option String
  pub runtime_state : String
  pub state_at : ℕ
  pub last_received_at : Option ℕ

-- A collector_owner_grants row.
pub record GrantRow : Type 0 where
  pub token : String
  pub channel_id : String
  pub worker_id : String
  pub generation : String
  pub granted_at : ℕ
  pub valid_until : ℕ
  pub closed_at : Option ℕ

-- A collector_donations row.
pub record Row : Type 0 where
  pub event_id : String
  pub channel_id : String
  pub generation : String
  pub channel_offset : ℕ
  pub content_key : String
  pub connection_epoch : String
  pub observed_at : ℕ
  pub payload : Option Donation
  pub stored_at : ℕ

-- A collector_outbox row.
pub record Outbox : Type 0 where
  pub event_id : String
  pub channel_id : String
  pub created_at : ℕ

-- A collector_consumers row.
pub record Consumer : Type 0 where
  pub consumer_id : String
  pub channel_id : String
  pub generation : String
  pub baseline : ℕ
  pub ack_offset : Option ℕ
  pub offered_offset : ℕ
  pub recovery_revision : ℕ

pub record RecoveryDecision : Type 0 where
  pub previous_generation : String
  pub new_generation : String
  pub previous_offset : ℕ
  pub resume_from : ℕ
  pub revision : ℕ

-- What a request wrote down as its result, for the operation that wrote it.
pub data Saved : Type 0 where
  subscription : Bool → Saved
  recovery : RecoveryDecision → Saved

pub data Operation : Type 0 where
  subscription_op recovery_op : Operation

-- A collector_requests row.
pub record Request : Type 0 where
  pub consumer_id : String
  pub channel_id : String
  pub operation : Operation
  pub request_key : String
  pub body_hash : String
  pub result : Saved
  pub created_at : ℕ

-- What a collector_recovery_audit row tells: a decision with its request, or a restore with its
-- reason, the previous generation and the new one.
pub data AuditEntry : Type 0 where
  decision : String → RecoveryDecision → AuditEntry
  restore : String → String → String → AuditEntry

-- A collector_recovery_audit row.
pub record Audit : Type 0 where
  pub consumer_id : String
  pub channel_id : String
  pub entry : AuditEntry
  pub created_at : ℕ

-- One entry of a recovery request's `unrecoveredRanges`, both ends included.
pub record LossRange : Type 0 where
  pub start_generation : String
  pub start_offset : ℕ
  pub end_generation : String
  pub end_offset : ℕ

-- The tables; `opted_out` and `live_on` read tables that other parts of the program write.
pub record Db : Type 0 where
  pub channels : List Channel
  pub grants : List GrantRow
  pub donations : List Row
  pub outbox : List Outbox
  pub consumers : List Consumer
  pub requests : List Request
  pub audits : List Audit
  pub opted_out : String → Bool
  pub live_on : String → String → Bool

-- What the journal calls and does not implement: SHA-256, the sizes that PostgreSQL and the JSON
-- encoder give a payload, the JSON reading of a recovery request, and the configured channels.
pub record Env : Type 0 where
  pub content_key : Donation → String
  pub column_size : Donation → ℕ
  pub json_size : Donation → ℕ
  pub request_hash : String → String
  pub loss_ranges : String → Option (List LossRange)
  pub allows_collection : String → Bool

abbrev pub second : ℕ
second = 1_000_000_000

abbrev pub day : ℕ
day = 86_400_000_000_000

abbrev valid_count : ℤ → Bool
valid_count (pos n) = ltb 0 n && leb n 9007199254740991
valid_count (negsuc _) = false

-- Donation.Validate
unfoldable pub validate : Donation → Result Error Unit
validate d = do
  require
      (leb (len d.event_id) 256
        && (leb (len d.channel_id) 100
            && (leb (len d.donor_id) 256
                && (leb (len d.display_name) 4096
                    && (leb (len d.message) 65536 && leb (len d.connection_epoch) 256)))))
      too_large
  require
      (not (d.event_id == "")
        && (not (d.channel_id == "")
            && (not (d.donor_id == "")
                && (not (d.connection_epoch == "")
                    && (not (nat_eq d.sequence 0)
                        && (valid_count d.count
                            && (d.kind == "balloon" && not (nat_eq d.observed_at 0))))))))
      invalid_donation
