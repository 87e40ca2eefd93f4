-- ===== src/Discovery/Histories.antt =====
-- The histories of the emitter (discover/internal/history/emitter.go).
use rogi_collector.Prelude.{
  ℕ, ◌≡◌, refl, ◌∙◌, String, Bool, false, ◌&&◌, ◌||◌, not, List, [], ◌∷◌, ◌==◌, find?, exists?,
  Option-cases, All, All-select_of, inl, inr, if-holds,
}
use rogi_collector.Discovery.Model.{
  ChannelState, of_channel, DiscoveredChannel, UpsertResult, HistoryCall, close_session,
  mark_session_gap, Emitter, Answers, perform, succeeds,
}
use rogi_collector.Discovery.Emitter.{
  flushed_rows, flushed_interval, process_discovered, EndedChannel, detect_loop, reset_loop, has,
  commit_one, commit_ended, flush_states, flush_all, OpenSession, recovered_state, recover_one,
  recover_loop,
}
use rogi_collector.Discovery.Grace.{Poll, IsKeyed, detect_loop-IsKeyed, detect_one-polled}
use rogi_collector.Discovery.Tidy.{
  IsFlat, IsFlatState, IsTidy, All-find?, select-IsKeyed, put_state-IsTidy, perform-IsTidy,
  flushed_rows-flat, with_rows-IsTidy, process_discovered-IsTidy,
}

detect_loop-flat :
    (p : String) (q : Poll) (ss : List ChannelState)
    → All IsFlatState ss
    → All IsFlatState (detect_loop p q.active q.is_partial ss).states
detect_loop-flat p q [] h = unfold detect_loop in tt
detect_loop-flat p q (s ∷ ss) h =
    rw (detect_one-polled p q s ss)
      (if-holds IsFlatState (s.platform == p) _ _ h.0 h.0, detect_loop-flat p q ss h.1)

detect-IsTidy :
    (p : String) (q : Poll) (e : Emitter)
    → IsTidy e
    → IsTidy (record e { states = (detect_loop p q.active q.is_partial e.states).states })
detect-IsTidy p q e h = record {
  keyed = detect_loop-IsKeyed p q e.states h.keyed;
  flat = detect_loop-flat p q e.states h.flat;
  rows_flat = h.rows_flat;
}

reset_loop-exists? :
    (p q id : String) (ids : List String) (ss : List ChannelState)
    → exists? (of_channel q id) (reset_loop p ids ss) ≡ exists? (of_channel q id) ss
unfolding reset_loop exists?
reset_loop-exists? p q id ids [] = refl
reset_loop-exists? p q id ids (s ∷ ss) = rw (reset_loop-exists? p q id ids ss) (
    if-holds
      (λ t.
        (of_channel q id t || exists? (of_channel q id) ss)
        ≡ (of_channel q id s || exists? (of_channel q id) ss))
      ((s.platform == p) && has s.channel_id ids) _ _ refl refl)

-- A state with the same key and the same interval.
abbrev Keeps : ChannelState → List ChannelState → ChannelState → Type 0
Keeps s ss t = (exists? (of_channel t.platform t.channel_id) ss ≡ false) × IsFlatState t

reset_loop-IsTidy :
    (p : String) (ids : List String) (ss : List ChannelState)
    → IsKeyed ss
    → All IsFlatState ss
    → IsKeyed (reset_loop p ids ss) × All IsFlatState (reset_loop p ids ss)
unfolding reset_loop
reset_loop-IsTidy p ids [] k h = (tt, tt)
reset_loop-IsTidy p ids (s ∷ ss) k h =
    let (keyed, flat) = reset_loop-IsTidy p ids ss k.1 h.1 in
    let alone : exists? (of_channel s.platform s.channel_id) (reset_loop p ids ss) ≡ false =
      reset_loop-exists? p s.platform s.channel_id ids ss ∙ k.0 in
    let (head, head_flat) =
      if-holds (Keeps s (reset_loop p ids ss)) ((s.platform == p) && has s.channel_id ids)
        (record s { missed_polls = 0 }) s (alone, h.0) (alone, h.0) in
    ((head, keyed), (head_flat, flat))

commit_one-IsTidy :
    (answers : Answers) (now : ℕ) (c : EndedChannel) (e : Emitter)
    → IsTidy e
    → IsTidy (commit_one answers now c e)
unfolding commit_one
commit_one-IsTidy answers now c e h =
    elim (Option-cases (find? (of_channel c.platform c.channel_id) e.states)) [
      | inl gone ↦ rw (commit_one, gone) h
      | inr (s, found) ↦
          let closing : HistoryCall =
            close_session c.platform c.channel_id s.session_seq now now "grace_timeout" in
          let e1 = perform answers closing e in
          let h1 : IsTidy e1 = perform-IsTidy answers closing e h in
          rw (commit_one, found)
            (if-holds IsTidy (not (succeeds answers closing e)) _ _ h1 (record {
              keyed =
                  select-IsKeyed (λ o. not (of_channel c.platform c.channel_id o)) e.states h.keyed;
              flat =
                  All-select_of IsFlatState (λ o. not (of_channel c.platform c.channel_id o))
                    e.states h.flat;
              rows_flat =
                  flushed_rows-flat c.platform now s e1
                    (All-find? IsFlatState (of_channel c.platform c.channel_id) e.states s h.flat
                      found)
                    h.rows_flat;
            }))
    ]

commit_ended-IsTidy :
    (answers : Answers) (now : ℕ) (cs : List EndedChannel) (e : Emitter)
    → IsTidy e
    → IsTidy (commit_ended answers now cs e)
unfolding commit_ended
commit_ended-IsTidy answers now [] e h = h
commit_ended-IsTidy answers now (c ∷ cs) e h =
    commit_ended-IsTidy answers now cs _ (commit_one-IsTidy answers now c e h)

flush_states-IsTidy :
    (now : ℕ) (ss : List ChannelState) (e : Emitter)
    → All IsFlatState ss
    → IsTidy e
    → IsTidy (flush_states now ss e)
unfolding flush_states flushed_interval
flush_states-IsTidy now [] e flat h = h
flush_states-IsTidy now (s ∷ ss) e flat h = flush_states-IsTidy now ss _ flat.1 (
    put_state-IsTidy (record s { last_interval = flushed_interval s e })
      (record e { rows = flushed_rows s.platform now s e })
      (if-holds (IsFlat s.viewer_count) e.has_writer _ _ tt flat.0)
      (with_rows-IsTidy _ e (flushed_rows-flat s.platform now s e flat.0 h.rows_flat) h))

recover_one-IsTidy :
    (answers : Answers) (now : ℕ) (o : OpenSession) (e : Emitter)
    → IsTidy e
    → IsTidy (recover_one answers now o e)
unfolding recover_one
recover_one-IsTidy answers now o e h =
    elim (Option-cases (find? (of_channel o.platform o.channel_id) e.states)) [
      | inr (s, found) ↦
          rw (recover_one, found)
            (perform-IsTidy answers
              (close_session o.platform o.channel_id o.session_seq o.last_seen_at now
                "duplicate_cleanup")
              e h)
      | inl new ↦
          let h1 = put_state-IsTidy (recovered_state o) e tt h in
          rw (recover_one, new)
            (if-holds IsTidy _ _ _
              (perform-IsTidy answers (mark_session_gap o.platform o.channel_id o.session_seq) _ h1)
              h1)
    ]

recover_loop-IsTidy :
    (answers : Answers) (now : ℕ) (os : List OpenSession) (e : Emitter)
    → IsTidy e
    → IsTidy (recover_loop answers now os e)
unfolding recover_loop
recover_loop-IsTidy answers now [] e h = h
recover_loop-IsTidy answers now (o ∷ os) e h =
    recover_loop-IsTidy answers now os _ (recover_one-IsTidy answers now o e h)

-- A new emitter, whose rows go to the writer if there is one.
abbrev pub new_emitter : String → Bool → Emitter
new_emitter instance_id has_writer = record {
  states = [];
  has_writer = has_writer;
  rows = [];
  instance_id = instance_id;
  calls = [];
}

module _ (metadata_hash_of : String → String → List String → String) where
  -- The emitter's operations. The writer is replaced by SetCHWriter.
  pub data Step : Emitter → Emitter → Type 0 where
    processes :
        (answers : Answers) (now : ℕ) (p : String) (chs : List DiscoveredChannel)
        (rs : List UpsertResult) (e : Emitter)
        → Step e (process_discovered metadata_hash_of answers now p chs rs e)
    detects :
        (p : String) (q : Poll) (e : Emitter)
        → Step e (record e { states = (detect_loop p q.active q.is_partial e.states).states })
    resets :
        (p : String) (ids : List String) (e : Emitter)
        → Step e (record e { states = reset_loop p ids e.states })
    commits :
        (answers : Answers) (now : ℕ) (cs : List EndedChannel) (e : Emitter)
        → Step e (commit_ended answers now cs e)
    flushes : (now : ℕ) (e : Emitter) → Step e (flush_all now e)
    recovers :
        (answers : Answers) (now : ℕ) (os : List OpenSession) (e : Emitter)
        → Step e (recover_loop answers now os (record e { states = [] }))
    sets_writer : (has : Bool) (e : Emitter) → Step e (record e { has_writer = has })

  pub data Run (e : Emitter) : Emitter → Type 0 where
    start : Run e e
    then_step : {f g : Emitter} → Run e f → Step f g → Run e g

  Step-IsTidy : {e f : Emitter} → Step e f → IsTidy e → IsTidy f
  Step-IsTidy (processes answers now p chs rs e) h =
      process_discovered-IsTidy metadata_hash_of answers now p chs rs e h
  Step-IsTidy (detects p q e) h = detect-IsTidy p q e h
  Step-IsTidy (resets p ids e) h =
      let (keyed, flat) = reset_loop-IsTidy p ids e.states h.keyed h.flat in
      record { keyed = keyed; flat = flat; rows_flat = h.rows_flat }
  Step-IsTidy (commits answers now cs e) h = commit_ended-IsTidy answers now cs e h
  Step-IsTidy (flushes now e) h = flush_states-IsTidy now e.states e h.flat h
  Step-IsTidy (recovers answers now os e) h =
      recover_loop-IsTidy answers now os (record e { states = [] })
        (record { keyed = tt; flat = tt; rows_flat = h.rows_flat })
  Step-IsTidy (sets_writer has e) h = record {
    keyed = h.keyed;
    flat = h.flat;
    rows_flat = h.rows_flat;
  }

  Run-keeps_IsTidy : {e f : Emitter} → Run e f → IsTidy e → IsTidy f
  Run-keeps_IsTidy start h = h
  Run-keeps_IsTidy (then_step r s) h = Step-IsTidy s (Run-keeps_IsTidy r h)

  -- Whatever polls, checks, commits, flushes and recoveries a new emitter goes through, and whatever
  -- the store answers: no two tracked channels have the same key, and every viewer interval, open or
  -- written, has one viewer count, its minimum and its maximum being that count.
  pub Run-IsTidy :
      (instance_id : String) (has_writer : Bool) (e : Emitter)
      → Run (new_emitter instance_id has_writer) e
      → IsTidy e
  Run-IsTidy instance_id has_writer e r =
      Run-keeps_IsTidy r (record { keyed = tt; flat = tt; rows_flat = tt })
