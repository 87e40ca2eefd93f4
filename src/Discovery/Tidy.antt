-- ===== src/Discovery/Tidy.antt =====
-- What the history emitter keeps true of its state (discover/internal/history/emitter.go).
use rogi_collector.Prelude.{
  exists?-select, exists?-select-not, ℕ, ◌+◌, ◌≡◌, refl, sym, ap, subst, String, Bool, true, not,
  Option, none, some, List, [], ◌∷◌, ◌++◌, ltb, int_eq, ◌==◌, find?, select, arith, Bool-cases,
  Option-cases, All, All-select_of, inl, inr, if-cases, if-holds, ℤ, pos, negsuc,
}
use rogi_collector.Discovery.Model.{
  max_interval_age, bounded_viewer_count, ViewerInterval, ChannelState, of_channel,
  DiscoveredChannel, UpsertResult, ViewerCountRow, HistoryCall, insert_metadata, close_metadata,
  Emitter, Answers, perform, succeeds, put_state,
}
use rogi_collector.Discovery.Emitter.{
  flushed_rows, begin_session, note_metadata, sample, new_state, session_call, note_steady,
  note_viewers, continue_session, process_one, process_discovered,
}
use rogi_collector.Discovery.Grace.{IsKeyed}

-- The interval's counts are all the given one.
abbrev pub IsFlat : ℤ → Option ViewerInterval → Type 0
IsFlat n none = Unit
IsFlat n (some i) =
    (i.viewer_count ≡ bounded_viewer_count n)
    × (i.min_count ≡ i.viewer_count)
    × (i.max_count ≡ i.viewer_count)

abbrev pub IsFlatState : ChannelState → Type 0
IsFlatState s = IsFlat s.viewer_count s.last_interval

abbrev pub IsFlatRow : ViewerCountRow → Type 0
IsFlatRow r = (r.min_count ≡ r.viewer_count) × (r.max_count ≡ r.viewer_count)

-- The tracked channels have different keys, and each interval, open or written, has one count.
pub record IsTidy (e : Emitter) : Type 0 where
  pub keyed : IsKeyed e.states
  pub flat : All IsFlatState e.states
  pub rows_flat : All IsFlatRow e.rows

All-snoc :
    {A : Type 0} (P : A → Type 0) (xs : List A) (y : A) → All P xs → P y → All P (xs ++ y ∷ [])
All-snoc P [] y h hy = (hy, tt)
All-snoc P (x ∷ xs) y h hy = (h.0, All-snoc P xs y h.1 hy)

pub All-find? :
    {A : Type 0} (P : A → Type 0) (p : A → Bool) (xs : List A) (x : A)
    → All P xs
    → find? p xs ≡ some x
    → P x
unfolding find?
All-find? P p [] x h found = cc
All-find? P p (y ∷ xs) x h found = elim (Bool-cases (p y)) [
  | inl e ↦ let is : y ≡ x = ground arith in subst P is h.0
  | inr e ↦ All-find? P p xs x h.1 (ground arith)
]

pub select-IsKeyed :
    (q : ChannelState → Bool) (ss : List ChannelState) → IsKeyed ss → IsKeyed (select q ss)
unfolding select
select-IsKeyed q [] k = tt
select-IsKeyed q (s ∷ ss) k =
    if-holds IsKeyed (q s) _ _
      (exists?-select (of_channel s.platform s.channel_id) q ss k.0, select-IsKeyed q ss k.1)
      (select-IsKeyed q ss k.1)

pub put_state-IsTidy :
    (s : ChannelState) (e : Emitter) → IsFlatState s → IsTidy e → IsTidy (put_state s e)
put_state-IsTidy s e flat h = record {
  keyed = (
    exists?-select-not (of_channel s.platform s.channel_id) e.states,
    select-IsKeyed (λ o. not (of_channel s.platform s.channel_id o)) e.states h.keyed,
  );
  flat = (
    flat,
    All-select_of IsFlatState (λ o. not (of_channel s.platform s.channel_id o)) e.states h.flat,
  );
  rows_flat = h.rows_flat;
}

-- A step of the emitter that changes its calls only.
pub perform-IsTidy :
    (answers : Answers) (call : HistoryCall) (e : Emitter)
    → IsTidy e
    → IsTidy (perform answers call e)
perform-IsTidy answers call e h = record { keyed = h.keyed; flat = h.flat; rows_flat = h.rows_flat }

pub flushed_rows-flat :
    (p : String) (now : ℕ) (s : ChannelState) (e : Emitter)
    → IsFlatState s
    → All IsFlatRow e.rows
    → All IsFlatRow (flushed_rows p now s e)
unfolding flushed_rows
flushed_rows-flat p now s e flat h = elim (Option-cases s.last_interval) [
  | inl closed ↦ rw (flushed_rows, closed) h
  | inr (i, pending) ↦
      let counts : IsFlat s.viewer_count (some i) = subst (IsFlat s.viewer_count) pending flat in
      rw (flushed_rows, pending)
        (if-holds (All IsFlatRow) e.has_writer _ _
          (All-snoc IsFlatRow e.rows _ h (counts.1, counts.2)) h)
]

pub with_rows-IsTidy :
    (rows : List ViewerCountRow) (e : Emitter)
    → All IsFlatRow rows
    → IsTidy e
    → IsTidy (record e { rows = rows })
with_rows-IsTidy rows e flat h = record { keyed = h.keyed; flat = h.flat; rows_flat = flat }

int_eq_sound : (a b : ℤ) → int_eq a b ≡ true → a ≡ b
int_eq_sound (pos m) (pos n) h = ap pos (ground (arith, h))
int_eq_sound (negsuc m) (negsuc n) h = ap negsuc (ground (arith, h))
int_eq_sound (pos m) (negsuc n) h = cc
int_eq_sound (negsuc m) (pos n) h = cc

sample-IsFlat :
    (n : ℤ) (i : ViewerInterval)
    → IsFlat n (some i)
    → IsFlat n (some (sample (bounded_viewer_count n) i))
unfolding sample
sample-IsFlat n i (is, low, high) = (
  is,
  if-cases (λ m. m ≡ i.viewer_count) (ltb (bounded_viewer_count n) i.min_count) _ _
      (λ below. sym is) (λ e. low),
  if-cases (λ m. m ≡ i.viewer_count) (ltb i.max_count (bounded_viewer_count n)) _ _
      (λ above. sym is) (λ e. high),
)

-- The rows, and a channel's state, have flat intervals.
abbrev IsFlatView : List ViewerCountRow × ChannelState → Type 0
IsFlatView v = All IsFlatRow v.0 × IsFlatState v.1

note_steady-flat :
    (p : String) (now : ℕ) (s : ChannelState) (e : Emitter) (interval : Option ViewerInterval)
    → s.last_interval ≡ interval
    → IsFlatState s
    → All IsFlatRow e.rows
    → IsFlatView (note_steady p now (bounded_viewer_count s.viewer_count) s e interval)
note_steady-flat p now s e none has_it flat h = (h, flat)
note_steady-flat p now s e (some i) has_it flat h =
    if-holds IsFlatView (ltb (i.valid_from + max_interval_age) now) _ _
      (flushed_rows-flat p now s e flat h, (refl, refl, refl))
      (h, sample-IsFlat s.viewer_count i (subst (IsFlat s.viewer_count) has_it flat))

note_viewers-flat :
    (p : String) (now : ℕ) (ch : DiscoveredChannel) (s : ChannelState) (e : Emitter)
    → IsFlatState s
    → All IsFlatRow e.rows
    → IsFlatView (note_viewers p now ch s e)
unfolding note_viewers
note_viewers-flat p now ch s e flat h =
    if-cases IsFlatView (not (int_eq ch.viewer_count s.viewer_count)) _ _
      (λ changed. (flushed_rows-flat p now s e flat h, (refl, refl, refl)))
      (λ same.
        let is : ch.viewer_count ≡ s.viewer_count = int_eq_sound _ _ (ground (arith, same)) in
        subst (λ n. IsFlatView (note_steady p now (bounded_viewer_count n) s e s.last_interval))
          (sym is) (note_steady-flat p now s e s.last_interval refl flat h))

module _ (metadata_hash_of : String → String → List String → String) where
  begin_session-IsTidy :
      (answers : Answers) (now : ℕ) (platform : String) (r : UpsertResult) (ch : DiscoveredChannel)
      (e : Emitter)
      → IsTidy e
      → IsTidy (begin_session metadata_hash_of answers now platform r ch e)
  unfolding begin_session
  begin_session-IsTidy answers now platform r ch e h =
      let hash = metadata_hash_of ch.title ch.category ch.tags in
      let session : HistoryCall = session_call now platform r ch in
      let metadata : HistoryCall = insert_metadata platform r.channel_id r.session_seq now hash in
      let e1 = perform answers session e in
      let h1 : IsTidy e1 = perform-IsTidy answers session e h in
      let h2 = perform-IsTidy answers metadata e1 h1 in
      if-holds IsTidy (not (succeeds answers session e)) _ _ h1 (
        if-holds IsTidy (not (succeeds answers metadata e1)) _ _ h2 (
          put_state-IsTidy (new_state now r ch hash) (perform answers metadata e1)
            (refl, refl, refl) h2))

  note_metadata-IsTidy :
      (answers : Answers) (now : ℕ) (platform : String) (ch : DiscoveredChannel) (s : ChannelState)
      (e : Emitter)
      → IsTidy e
      → IsTidy (note_metadata metadata_hash_of answers now platform ch s e).0
  unfolding note_metadata
  note_metadata-IsTidy answers now platform ch s e h =
      if-holds (λ (r : Emitter × String). IsTidy r.0)
        (metadata_hash_of ch.title ch.category ch.tags == s.metadata_hash) _ _ h
        (let closing : HistoryCall = close_metadata platform s.channel_id s.session_seq now in
          let metadata : HistoryCall =
            insert_metadata platform s.channel_id s.session_seq now
              (metadata_hash_of ch.title ch.category ch.tags) in
          let h1 = perform-IsTidy answers closing e h in
          if-holds (λ (r : Emitter × String). IsTidy r.0) (not (succeeds answers closing e)) _ _ h1
            (perform-IsTidy answers metadata (perform answers closing e) h1))

  continue_session-IsTidy :
      (answers : Answers) (now : ℕ) (platform : String) (ch : DiscoveredChannel) (s : ChannelState)
      (e : Emitter)
      → IsFlatState s
      → IsTidy e
      → IsTidy (continue_session metadata_hash_of answers now platform ch s e)
  unfolding continue_session
  continue_session-IsTidy answers now platform ch s e flat h =
      let noted = note_metadata metadata_hash_of answers now platform ch s e in
      let tidy : IsTidy noted.0 = note_metadata-IsTidy answers now platform ch s e h in
      let (rows, state) =
        note_viewers-flat platform now ch (record s { missed_polls = 0; metadata_hash = noted.1 })
          noted.0 flat tidy.rows_flat in
      perform-IsTidy answers _ _ (put_state-IsTidy _ _ state (with_rows-IsTidy _ noted.0 rows tidy))

  process_one-IsTidy :
      (answers : Answers) (now : ℕ) (platform : String) (chs : List DiscoveredChannel)
      (r : UpsertResult) (e : Emitter)
      → IsTidy e
      → IsTidy (process_one metadata_hash_of answers now platform chs r e)
  unfolding process_one
  process_one-IsTidy answers now platform chs r e h =
      elim (Option-cases (find? (λ ch. ch.channel_id == r.channel_id) chs)) [
        | inl absent ↦ rw (process_one, absent) h
        | inr (ch, there) ↦
            elim (Option-cases (find? (of_channel r.platform r.channel_id) e.states)) [
              | inl new ↦
                  rw (process_one, there, new) (begin_session-IsTidy answers now platform r ch e h)
              | inr (s, known) ↦
                  rw (process_one, there, known)
                    (if-holds IsTidy r.is_insert _ _
                      (begin_session-IsTidy answers now platform r ch e h)
                      (continue_session-IsTidy answers now platform ch s e
                        (All-find? IsFlatState (of_channel r.platform r.channel_id) e.states s
                          h.flat known)
                        h))
            ]
      ]

  pub process_discovered-IsTidy :
      (answers : Answers) (now : ℕ) (platform : String) (chs : List DiscoveredChannel)
      (rs : List UpsertResult) (e : Emitter)
      → IsTidy e
      → IsTidy (process_discovered metadata_hash_of answers now platform chs rs e)
  unfolding process_discovered
  process_discovered-IsTidy answers now platform chs [] e h = h
  process_discovered-IsTidy answers now platform chs (r ∷ rs) e h =
      process_discovered-IsTidy answers now platform chs rs _
        (process_one-IsTidy answers now platform chs r e h)
