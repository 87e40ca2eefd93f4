-- ===== src/Soop/Model.antt =====
-- The connector's state (SoopConnector of worker/internal/connector/soop.go) and the messages that
-- it sends (shared/model/message.go).
use rogi_collector.Prelude.{
  ℕ, ◌+◌, String, Bool, true, false, Option, none, some, List, [], ◌∷◌, ◌++◌, length, ltb,
  if◌then◌else◌, ℤ,
}
use rogi_collector.Journal.Model.{Donation}
use rogi_collector.Soop.Bytes.{Bytes}

pub data MessageType : Type 0 where
  chat donation subscription system : MessageType

-- EmoteToken, without the positions, which the connector sets to -1.
pub record EmoteToken : Type 0 where
  pub code : Bytes
  pub image_url : Bytes
  pub animated : Bool

-- ChatMessage, on the platform SOOP; the amounts where there are any.
pub record ChatMessage (F : Type 0) : Type 0 where
  pub id : Bytes
  pub kind : MessageType
  pub channel_id : Bytes
  pub streamer_name : Bytes
  pub user_id : Bytes
  pub nickname : Bytes
  pub message : Bytes
  pub timestamp : ℕ
  pub raw : Bytes
  pub amount : Option (F × ℤ)
  pub emotes : List EmoteToken

-- The mission gift that a field's JSON gives, its count read by parseJSONInt.
pub record GiftPayload : Type 0 where
  pub type_text : Bytes
  pub user_id : Bytes
  pub user_nick : Bytes
  pub title : Bytes
  pub gift_count : Option ℤ

-- What the connector calls: Unicode's white space and upper case, JSON, float64, and the reading
-- of bytes as a text.
pub record Texts (F : Type 0) : Type 0 where
  pub trim_space : Bytes → Bytes
  pub to_upper : Bytes → Bytes
  pub decode_gift : Bytes → Option GiftPayload
  pub parse_float : Bytes → Option F
  pub zero_float : F
  pub of_int : ℤ → F
  pub times_hundred : F → ℤ
  pub print_int : ℤ → Bytes
  pub text : Bytes → String

pub data ConnectorError : Type 0 where
  login_rejected join_rejected : ℤ → ConnectorError
  send_join acceptance_failed : ConnectorError

pub record Connector (F : Type 0) : Type 0 where
  pub channel_id : Bytes
  pub streamer_name : Bytes
  pub epoch : Bytes
  pub started_at : ℕ
  pub chat_no : Bytes
  pub ftk : Bytes
  -- joinedCh is set
  pub has_joined_channel : Bool
  -- joinedCh holds its token
  pub signalled : Bool
  pub join_requested : Bool
  pub joined : Bool
  pub last_received : ℕ
  pub alive : Bool
  pub seq : ℕ
  -- msgCh and errCh
  pub messages : List (ChatMessage F)
  pub errors : List ConnectorError
  -- OnMessageDropped
  pub dropped : ℕ
  -- the packets written, and the donations that the sink took, the newest first
  pub written : List Bytes
  pub accepted : List Donation

-- What a packet meets: the clock, whether a write succeeds, and the donation sink if one is set.
pub record World : Type 0 where
  pub now : ℕ
  pub uuid : Bytes
  pub writes : Bool
  pub sink : Option (Donation → Bool)

abbrev pub msg_buf_size : ℕ
msg_buf_size = 256

abbrev pub err_buf_size : ℕ
err_buf_size = 8

module _ {F : Type 0} where
  -- The state that Connect sets before it sends the login.
  unfoldable pub connected : Bytes → Bytes → Bytes → ℕ → Bytes → Bytes → Connector F
  connected channel_id streamer_name epoch started_at chat_no ftk = record {
    channel_id = channel_id;
    streamer_name = streamer_name;
    epoch = epoch;
    started_at = started_at;
    chat_no = chat_no;
    ftk = ftk;
    has_joined_channel = true;
    signalled = false;
    join_requested = false;
    joined = false;
    last_received = 0;
    alive = true;
    seq = 0;
    messages = [];
    errors = [];
    dropped = 0;
    written = [];
    accepted = [];
  }

  -- A send on errCh that drops the error where the channel is full.
  unfoldable pub post_error : ConnectorError → Connector F → Connector F
  post_error e c =
      if ltb (length c.errors) err_buf_size then record c { errors = c.errors ++ e ∷ [] } else c

  -- The send on msgCh, which drops the message where the channel is full.
  unfoldable pub push : ChatMessage F → Connector F → Connector F
  push m c =
      if ltb (length c.messages) msg_buf_size
      then record c { messages = c.messages ++ m ∷ [] }
      else record c { dropped = c.dropped + 1 }

  -- emitMessage of a conversion; `none` is a message without an ID. The others took a sequence
  -- number.
  unfoldable pub emit_message : Option (ChatMessage F) → Connector F → Connector F
  emit_message none c = c
  emit_message (some m) c = push m (record c { seq = c.seq + 1 })

  -- closeConn
  unfoldable pub close_conn : Connector F → Connector F
  close_conn c = record c { alive = false }
