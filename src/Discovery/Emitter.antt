-- ===== src/Discovery/Emitter.antt =====
-- The operations of the history emitter (discover/internal/history/emitter.go). The order in which
-- Go walks the map of states is the order of the list.
use rogi_collector.Prelude.{
  ℕ, ◌+◌, ◌*◌, ◌%◌, ◌^◌, String, Bool, ◌&&◌, not, Option, none, some, List, [], ◌∷◌, ◌++◌, ltb,
  if◌then◌else◌, int_eq, ◌==◌, find?, select, exists?, ℤ,
}
use rogi_collector.Journal.Model.{second}
use rogi_collector.Discovery.Model.{
  max_interval_age, bounded_viewer_count, non_negative_session_seq, ViewerInterval, ChannelState,
  of_channel, DiscoveredChannel, UpsertResult, ViewerCountRow, HistoryCall, insert_session,
  insert_metadata, close_metadata, close_session, update_last_seen, mark_session_gap, Emitter,
  Answers, perform, succeeds, fresh_interval, put_state,
}

-- The row of an interval that ends.
abbrev interval_row : String → ℕ → ChannelState → ViewerInterval → String → ViewerCountRow
interval_row p now s i instance_id = record {
  valid_from = i.valid_from;
  valid_to = now;
  platform = p;
  channel_id = s.channel_id;
  session_seq = non_negative_session_seq s.session_seq;
  viewer_count = i.viewer_count;
  min_count = i.min_count;
  max_count = i.max_count;
  sample_count = i.sample_count;
  instance_id = instance_id;
}

-- flushViewerInterval: the rows it adds, and the interval it leaves.
unfoldable pub flushed_rows : String → ℕ → ChannelState → Emitter → List ViewerCountRow
flushed_rows p now s e = elim s.last_interval [
  | none ↦ e.rows
  | some i ↦ if e.has_writer then e.rows ++ interval_row p now s i e.instance_id ∷ [] else e.rows
]

unfoldable pub flushed_interval : ChannelState → Emitter → Option ViewerInterval
flushed_interval s e = if e.has_writer then none else s.last_interval

-- The state of a channel whose session begins.
abbrev pub new_state : ℕ → UpsertResult → DiscoveredChannel → String → ChannelState
new_state now r ch hash = record {
  platform = r.platform;
  channel_id = r.channel_id;
  session_seq = r.session_seq;
  metadata_hash = hash;
  viewer_count = ch.viewer_count;
  last_interval = some (fresh_interval now (bounded_viewer_count ch.viewer_count));
  missed_polls = 0;
}

abbrev pub session_call : ℕ → String → UpsertResult → DiscoveredChannel → HistoryCall
session_call now platform r ch =
    let started : ℕ = elim ch.started_at [ none ↦ now | some at ↦ at ] in
    insert_session platform r.channel_id r.session_seq started now ch.viewer_count

-- computeMetadataHash, of SHA-256 and the sorted tags
module _ (metadata_hash_of : String → String → List String → String) where
  -- The channel is tracked from now on, if its session and its metadata are stored.
  unfoldable pub begin_session :
      Answers → ℕ → String → UpsertResult → DiscoveredChannel → Emitter → Emitter
  begin_session answers now platform r ch e =
      let hash = metadata_hash_of ch.title ch.category ch.tags in
      let session = session_call now platform r ch in
      let e1 = perform answers session e in
      if not (succeeds answers session e)
      then e1
      else let metadata = insert_metadata platform r.channel_id r.session_seq now hash in
        let e2 = perform answers metadata e1 in
        if not (succeeds answers metadata e1) then e2 else put_state (new_state now r ch hash) e2

  -- The comparison of the metadata: the emitter after its calls, and the hash.
  unfoldable pub note_metadata :
      Answers → ℕ → String → DiscoveredChannel → ChannelState → Emitter → Emitter × String
  note_metadata answers now platform ch s e =
      let hash = metadata_hash_of ch.title ch.category ch.tags in
      if hash == s.metadata_hash
      then (e, s.metadata_hash)
      else let closing = close_metadata platform s.channel_id s.session_seq now in
        let e1 = perform answers closing e in
        if not (succeeds answers closing e)
        then (e1, s.metadata_hash)
        else let metadata = insert_metadata platform s.channel_id s.session_seq now hash in
          (
            perform answers metadata e1,
            if succeeds answers metadata e1 then hash else s.metadata_hash,
          )

-- One more sample of an interval.
unfoldable pub sample : ℕ → ViewerInterval → ViewerInterval
sample count i = record i {
  sample_count = (i.sample_count + 1) % 2 ^ 16;
  min_count = if ltb count i.min_count then count else i.min_count;
  max_count = if ltb i.max_count count then count else i.max_count;
}

-- A poll with the same viewer count.
abbrev pub note_steady :
    String
    → ℕ
    → ℕ
    → ChannelState
    → Emitter
    → Option ViewerInterval
    → List ViewerCountRow × ChannelState
note_steady p now count s e none = (e.rows, s)
note_steady p now count s e (some i) =
    if ltb (i.valid_from + max_interval_age) now
    then (flushed_rows p now s e, record s { last_interval = some (fresh_interval now count) })
    else (e.rows, record s { last_interval = some (sample count i) })

-- The viewer count of a poll: the rows, and the channel's state.
unfoldable pub note_viewers :
    String → ℕ → DiscoveredChannel → ChannelState → Emitter → List ViewerCountRow × ChannelState
note_viewers p now ch s e =
    let count = bounded_viewer_count ch.viewer_count in
    if not (int_eq ch.viewer_count s.viewer_count)
    then (
      flushed_rows p now s e,
      record s { viewer_count = ch.viewer_count; last_interval = some (fresh_interval now count) },
    )
    else note_steady p now count s e s.last_interval

module _ (metadata_hash_of : String → String → List String → String) where
  -- A channel that is tracked already.
  unfoldable pub continue_session :
      Answers → ℕ → String → DiscoveredChannel → ChannelState → Emitter → Emitter
  continue_session answers now platform ch s e =
      let noted = note_metadata metadata_hash_of answers now platform ch s e in
      let e1 = noted.0 in
      let viewed =
        note_viewers platform now ch (record s { missed_polls = 0; metadata_hash = noted.1 }) e1 in
      let seen = update_last_seen platform s.channel_id s.session_seq now ch.viewer_count in
      perform answers seen (put_state viewed.1 (record e1 { rows = viewed.0 }))

  unfoldable pub process_one :
      Answers → ℕ → String → List DiscoveredChannel → UpsertResult → Emitter → Emitter
  process_one answers now platform discovered r e =
      elim (find? (λ ch. ch.channel_id == r.channel_id) discovered) [
        | none ↦ e
        | some ch ↦ elim (find? (of_channel r.platform r.channel_id) e.states) [
          | none ↦ begin_session metadata_hash_of answers now platform r ch e
          | some s ↦
              if r.is_insert
              then begin_session metadata_hash_of answers now platform r ch e
              else continue_session answers now platform ch s e
        ]
      ]

  -- ProcessDiscovered
  unfoldable pub process_discovered :
      Answers → ℕ → String → List DiscoveredChannel → List UpsertResult → Emitter → Emitter
  process_discovered answers now platform discovered [] e = e
  process_discovered answers now platform discovered (r ∷ rs) e =
      process_discovered answers now platform discovered rs
        (process_one answers now platform discovered r e)

abbrev pub has : String → List String → Bool
has id ids = exists? (λ i. i == id) ids

pub record EndedChannel : Type 0 where
  pub platform : String
  pub channel_id : String

pub record Detected : Type 0 where
  -- what is appended to the active IDs
  pub kept : List String
  pub to_end : List EndedChannel
  pub states : List ChannelState

-- One channel that is tracked.
unfoldable pub detect_one : String → List String → Bool → ChannelState → Detected → Detected
detect_one p active is_partial s d =
    if not (s.platform == p)
    then record d { states = s ∷ d.states }
    else if has s.channel_id active
    then record d { states = record s { missed_polls = 0 } ∷ d.states }
    else if is_partial
    then record d { kept = s.channel_id ∷ d.kept; states = s ∷ d.states }
    else if ltb (s.missed_polls + 1) 2
    then record d {
      kept = s.channel_id ∷ d.kept;
      states = record s { missed_polls = s.missed_polls + 1 } ∷ d.states;
    }
    else record d {
      to_end = record { platform = p; channel_id = s.channel_id } ∷ d.to_end;
      states = record s { missed_polls = s.missed_polls + 1 } ∷ d.states;
    }

unfoldable pub detect_loop : String → List String → Bool → List ChannelState → Detected
detect_loop p active is_partial [] = record { kept = []; to_end = []; states = [] }
detect_loop p active is_partial (s ∷ ss) =
    detect_one p active is_partial s (detect_loop p active is_partial ss)

-- DetectEndedChannels, after which the IDs are the active ones and those kept
abbrev pub detect_ended : String → List String → Bool → Emitter → Detected
detect_ended p active is_partial e = detect_loop p active is_partial e.states

-- ResetMissedPolls
unfoldable pub reset_loop : String → List String → List ChannelState → List ChannelState
reset_loop p ids [] = []
reset_loop p ids (s ∷ ss) =
    (if (s.platform == p) && has s.channel_id ids then record s { missed_polls = 0 } else s)
    ∷ reset_loop p ids ss

-- CommitEnded
unfoldable pub commit_one : Answers → ℕ → EndedChannel → Emitter → Emitter
commit_one answers now c e = elim (find? (of_channel c.platform c.channel_id) e.states) [
  | none ↦ e
  | some s ↦
      let closing = close_session c.platform c.channel_id s.session_seq now now "grace_timeout" in
      let e1 = perform answers closing e in
      if not (succeeds answers closing e) then e1 else record e1 {
        rows = flushed_rows c.platform now s e1;
        states = select (λ o. not (of_channel c.platform c.channel_id o)) e1.states;
      }
]

unfoldable pub commit_ended : Answers → ℕ → List EndedChannel → Emitter → Emitter
commit_ended answers now [] e = e
commit_ended answers now (c ∷ cs) e = commit_ended answers now cs (commit_one answers now c e)

-- FlushAll
unfoldable pub flush_states : ℕ → List ChannelState → Emitter → Emitter
flush_states now [] e = e
flush_states now (s ∷ ss) e = flush_states now ss (
    put_state (record s { last_interval = flushed_interval s e })
      (record e { rows = flushed_rows s.platform now s e }))

abbrev pub flush_all : ℕ → Emitter → Emitter
flush_all now e = flush_states now e.states e

-- An open session that the store lists, and what it answers about it.
pub record OpenSession : Type 0 where
  pub platform : String
  pub channel_id : String
  pub session_seq : ℤ
  pub last_seen_at : ℕ
  pub peak_viewer_count : ℤ
  pub stored_hash : String
  pub stored_viewers : Option ℤ

-- The time without news after which a session has a gap.
abbrev pub gap_after : String → ℕ
gap_after p = (if p == "cime" then 30 else 60) * 3 * second

abbrev pub recovered_state : OpenSession → ChannelState
recovered_state o = record {
  platform = o.platform;
  channel_id = o.channel_id;
  session_seq = o.session_seq;
  metadata_hash = o.stored_hash;
  viewer_count = elim o.stored_viewers [ none ↦ o.peak_viewer_count | some n ↦ n ];
  last_interval = none;
  missed_polls = 0;
}

unfoldable pub recover_one : Answers → ℕ → OpenSession → Emitter → Emitter
recover_one answers now o e = elim (find? (of_channel o.platform o.channel_id) e.states) [
  | some s ↦
      perform answers
        (close_session o.platform o.channel_id o.session_seq o.last_seen_at now "duplicate_cleanup")
        e
  | none ↦
      let e1 = put_state (recovered_state o) e in
      if ltb (o.last_seen_at + gap_after o.platform) now
      then perform answers (mark_session_gap o.platform o.channel_id o.session_seq) e1
      else e1
]

unfoldable pub recover_loop : Answers → ℕ → List OpenSession → Emitter → Emitter
recover_loop answers now [] e = e
recover_loop answers now (o ∷ os) e = recover_loop answers now os (recover_one answers now o e)

-- RecoverState; `none` where the store closes no orphans, or lists no sessions
unfoldable pub recover_state :
    Answers → ℕ → Bool → Option (List OpenSession) → Emitter → Option Emitter
recover_state answers now closes_orphans listed e =
    if not closes_orphans then none else elim listed [
      | none ↦ none
      | some sessions ↦ some (recover_loop answers now sessions (record e { states = [] }))
    ]
