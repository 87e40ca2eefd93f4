-- ===== src/Discovery/Model.antt =====
-- The state of the history emitter (discover/internal/history/emitter.go) and what it writes
-- (shared/store/history_store.go). A tracked channel holds the two parts of its key in
-- `Emitter.states`, the platform and the channel, since no platform's name has a colon.
use rogi_collector.Prelude.{
  ℕ, ◌*◌, String, Bool, ◌&&◌, not, Option, List, ◌∷◌, length, leb, if◌then◌else◌, ◌==◌, select, ℤ,
  pos, negsuc,
}
use rogi_collector.Journal.Model.{second}

-- maxIntervalAge
abbrev pub max_interval_age : ℕ
max_interval_age = 300 * second

-- boundedViewerCount
unfoldable pub bounded_viewer_count : ℤ → ℕ
bounded_viewer_count (negsuc n) = 0
bounded_viewer_count (pos n) = if leb 4294967295 n then 4294967295 else n

-- nonNegativeSessionSeq
abbrev pub non_negative_session_seq : ℤ → ℕ
non_negative_session_seq (negsuc n) = 0
non_negative_session_seq (pos n) = n

pub record ViewerInterval : Type 0 where
  pub valid_from : ℕ
  pub viewer_count : ℕ
  pub min_count : ℕ
  pub max_count : ℕ
  pub sample_count : ℕ

-- channelState, with its key
pub record ChannelState : Type 0 where
  pub platform : String
  pub channel_id : String
  pub session_seq : ℤ
  pub metadata_hash : String
  pub viewer_count : ℤ
  pub last_interval : Option ViewerInterval
  pub missed_polls : ℕ

abbrev pub of_channel : String → String → ChannelState → Bool
of_channel p id s = (s.platform == p) && (s.channel_id == id)

pub record DiscoveredChannel : Type 0 where
  pub channel_id : String
  pub streamer_name : String
  pub title : String
  pub category : String
  pub category_code : String
  pub tags : List String
  pub thumbnail_url : String
  pub viewer_count : ℤ
  pub started_at : Option ℕ

pub record UpsertResult : Type 0 where
  pub platform : String
  pub channel_id : String
  pub session_seq : ℤ
  pub is_insert : Bool

pub record ViewerCountRow : Type 0 where
  pub valid_from : ℕ
  pub valid_to : ℕ
  pub platform : String
  pub channel_id : String
  pub session_seq : ℕ
  pub viewer_count : ℕ
  pub min_count : ℕ
  pub max_count : ℕ
  pub sample_count : ℕ
  pub instance_id : String

-- The emitter's calls of the history store, as far as their arguments are used: the platform, the
-- channel and the session first.
pub data HistoryCall : Type 0 where
  insert_session : String → String → ℤ → ℕ → ℕ → ℤ → HistoryCall
  insert_metadata : String → String → ℤ → ℕ → String → HistoryCall
  close_metadata : String → String → ℤ → ℕ → HistoryCall
  close_session : String → String → ℤ → ℕ → ℕ → String → HistoryCall
  update_last_seen : String → String → ℤ → ℕ → ℤ → HistoryCall
  mark_session_gap : String → String → ℤ → HistoryCall

pub record Emitter : Type 0 where
  pub states : List ChannelState
  -- chWriter is set, and the rows it was given
  pub has_writer : Bool
  pub rows : List ViewerCountRow
  pub instance_id : String
  -- the calls of the store with whether they succeeded, the newest first
  pub calls : List (HistoryCall × Bool)

-- Whether the store's next call succeeds, given how many were made before.
abbrev pub Answers : Type 0
Answers = ℕ → HistoryCall → Bool

abbrev pub perform : Answers → HistoryCall → Emitter → Emitter
perform answers call e = record e { calls = (call, answers (length e.calls) call) ∷ e.calls }

abbrev pub succeeds : Answers → HistoryCall → Emitter → Bool
succeeds answers call e = answers (length e.calls) call

-- An interval of one sample.
abbrev pub fresh_interval : ℕ → ℕ → ViewerInterval
fresh_interval now count = record {
  valid_from = now;
  viewer_count = count;
  min_count = count;
  max_count = count;
  sample_count = 1;
}

-- e.states[key] = state
abbrev pub put_state : ChannelState → Emitter → Emitter
put_state s e = record e {
  states = s ∷ select (λ o. not (of_channel s.platform s.channel_id o)) e.states;
}
