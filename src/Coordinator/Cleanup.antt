-- ===== src/Coordinator/Cleanup.antt =====
-- The cleanup of chat streams (runStreamCleanup of coordinator/internal/coordinator.go,
-- DeleteChatStreams of shared/store/redis.go) over the tables of channels. The streams in Redis are
-- the list of their keys. Logging and the timeout are left out.
use rogi_collector.Prelude.{
  ℕ, zero, suc, ◌-◌, ◌*◌, ◌≤◌, ◌≡◌, refl, sym, ◌∙◌, ap, String, Bool, true, false, not, Option,
  none, some, List, [], ◌∷◌, map, take, drop, length, length-drop, arith, ◌==◌, eq_iff,
  if◌then◌else◌, if-holds, select, exists?, All-take, All-order_by, All-exists?, exists?-map,
  exists?-select_never, All-select_apart, exists?-take, exists?-drop, exists?-take-drop,
  exists?-select_same, select-same, select-and, ◌&&◌, ◌||◌,
}
use rogi_collector.Journal.Model.{second}
use rogi_collector.Channels.Model.{ChannelRow, ChannelDb, is_ended}
use rogi_collector.Channels.Queries.{
  row_key, started_before, list_ended_channels_before, list_all_known_channel_keys,
}

abbrev pub is_key : String → String → Bool
is_key key k = k == key

-- UNLINK
abbrev pub unlink : List String → List String → List String
unlink keys streams = select (λ k. not (exists? (is_key k) keys)) streams

module _ (fails : List String → Bool) where
  -- The loop of DeleteChatStreams: `fails` says which batch meets an error. Each turn of the fuel
  -- deletes up to a hundred streams.
  unfoldable pub delete_loop : ℕ → List String → List String → Bool × List String
  delete_loop fuel [] streams = (true, streams)
  delete_loop zero (k ∷ ks) streams = (false, streams)
  delete_loop (suc fuel) (k ∷ ks) streams =
      let batch = take 100 (k ∷ ks) in
      let rest = delete_loop fuel (drop 100 (k ∷ ks)) (unlink batch streams) in
      if fails batch then (false, streams) else rest

  -- DeleteChatStreams
  abbrev pub delete_chat_streams : List String → List String → Bool × List String
  delete_chat_streams keys streams = delete_loop (length keys) keys streams

  abbrev pub delete_orphans : List String → List String → List String
  delete_orphans known streams =
      (delete_chat_streams (select (λ k. not (exists? (is_key k) known)) streams) streams).1

  abbrev pub second_phase : Bool → Option ChannelDb → List String → List String
  second_phase false known streams = streams
  second_phase true none streams = streams
  second_phase true (some db) [] = []
  second_phase true (some db) (s ∷ ss) = delete_orphans (list_all_known_channel_keys db) (s ∷ ss)

  abbrev pub first_phase : ℕ → Option ChannelDb → List String → List String
  first_phase now none streams = streams
  first_phase now (some db) streams =
      (delete_chat_streams (map row_key (list_ended_channels_before (now - 3600 * second) 5000 db))
        streams).1

  -- runStreamCleanup: the tables as the two queries see them, `none` where a query fails, and
  -- whether the scan of Redis succeeds.
  unfoldable pub run_stream_cleanup :
      ℕ → Option ChannelDb → Bool → Option ChannelDb → List String → List String
  run_stream_cleanup now listed scanned known streams =
      second_phase scanned known (first_phase now listed streams)

unlink-keeps :
    (key : String) (keys streams : List String)
    → exists? (is_key key) keys ≡ false
    → exists? (is_key key) (unlink keys streams) ≡ exists? (is_key key) streams
unlink-keeps key keys streams h =
    exists?-select_same (is_key key) (λ k. not (exists? (is_key k) keys)) streams
      (λ x e. rw ((eq_iff x key).0 e) (rw h refl))

-- No channel of the key ended more than an hour ago.
abbrev pub Spared : ℕ → String → Option ChannelDb → Type 0
Spared now key none = Unit
Spared now key (some db) =
    exists?
      (λ r.
        (is_ended r.status && started_before (now - 3600 * second) r.ended_at)
        && is_key key (row_key r))
      db.channels
    ≡ false

-- A channel has the key.
abbrev pub IsKnown : String → Option ChannelDb → Type 0
IsKnown key none = Unit
IsKnown key (some db) = exists? (λ r. is_key key (row_key r)) db.channels ≡ true

module _ (fails : List String → Bool) (key : String) where
  delete_loop-keeps :
      (fuel : ℕ) (keys streams : List String)
      → exists? (is_key key) keys ≡ false
      → exists? (is_key key) (delete_loop fails fuel keys streams).1 ≡ exists? (is_key key) streams
  unfolding delete_loop
  delete_loop-keeps fuel [] streams h = refl
  delete_loop-keeps zero (k ∷ ks) streams h = refl
  delete_loop-keeps (suc fuel) (k ∷ ks) streams h =
      if-holds (λ (r : Bool × List String). exists? (is_key key) r.1 ≡ exists? (is_key key) streams)
        (fails (take 100 (k ∷ ks))) _ _ refl
        (delete_loop-keeps fuel (drop 100 (k ∷ ks)) (unlink (take 100 (k ∷ ks)) streams)
            (exists?-drop (is_key key) 100 (k ∷ ks) h)
          ∙ unlink-keeps key (take 100 (k ∷ ks)) streams (exists?-take (is_key key) 100 (k ∷ ks) h))

  first_phase-keeps :
      (now : ℕ) (listed : Option ChannelDb) (streams : List String)
      → Spared now key listed
      → exists? (is_key key) (first_phase fails now listed streams) ≡ exists? (is_key key) streams
  unfolding list_ended_channels_before
  first_phase-keeps now none streams h = refl
  first_phase-keeps now (some db) streams h =
      let rows = list_ended_channels_before (now - 3600 * second) 5000 db in
      delete_loop-keeps (length (map row_key rows)) (map row_key rows) streams (
        exists?-map (is_key key) row_key rows
        ∙ All-exists? (λ r. is_key key (row_key r)) rows
            (All-take (λ (r : ChannelRow). is_key key (row_key r) ≡ false) 5000 _
              (All-order_by (λ (r : ChannelRow). is_key key (row_key r) ≡ false) _ _
                (All-select_apart
                  (λ r. is_ended r.status && started_before (now - 3600 * second) r.ended_at)
                  (λ r. is_key key (row_key r)) db.channels h))))

  second_phase-keeps :
      (scanned : Bool) (known : Option ChannelDb) (streams : List String)
      → IsKnown key known
      → exists? (is_key key) (second_phase fails scanned known streams)
        ≡ exists? (is_key key) streams
  unfolding list_all_known_channel_keys
  second_phase-keeps false known streams h = refl
  second_phase-keeps true none streams h = refl
  second_phase-keeps true (some db) [] h = refl
  second_phase-keeps true (some db) (s ∷ ss) h =
      let known = list_all_known_channel_keys db in
      let orphans = select (λ k. not (exists? (is_key k) known)) (s ∷ ss) in
      let is_in : exists? (is_key key) known ≡ true =
        exists?-map (is_key key) row_key db.channels ∙ h in
      delete_loop-keeps (length orphans) orphans (s ∷ ss) (
        exists?-select_never (is_key key) (λ k. not (exists? (is_key k) known)) (s ∷ ss)
          (λ k e. rw ((eq_iff k key).0 e) (rw is_in refl)))

  -- A cleanup keeps the chat stream of every channel that is in the table when the known channels
  -- are listed and that was not listed as ended for more than an hour, whichever queries and
  -- deletions fail.
  pub run_stream_cleanup-keeps :
      (now : ℕ) (listed : Option ChannelDb) (scanned : Bool) (known : Option ChannelDb)
      (streams : List String)
      → Spared now key listed
      → IsKnown key known
      → exists? (is_key key) (run_stream_cleanup fails now listed scanned known streams)
        ≡ exists? (is_key key) streams
  unfolding run_stream_cleanup
  run_stream_cleanup-keeps now listed scanned known streams s k =
      second_phase-keeps scanned known (first_phase fails now listed streams) k
      ∙ first_phase-keeps now listed streams s

unlink-nothing : (streams : List String) → unlink [] streams ≡ streams
unfolding select exists?
unlink-nothing [] = refl
unlink-nothing (s ∷ ss) = ap (◌∷◌ s) (unlink-nothing ss)

-- Two deletions, one after the other.
unlink-unlink :
    (a b c streams : List String)
    → ((k : String) → exists? (is_key k) c ≡ (exists? (is_key k) a || exists? (is_key k) b))
    → unlink b (unlink a streams) ≡ unlink c streams
unlink-unlink a b c streams both =
    sym (select-and (λ k. not (exists? (is_key k) a)) (λ k. not (exists? (is_key k) b)) streams)
    ∙ select-same _ (λ k. not (exists? (is_key k) c)) streams
        (λ k. sym (rw (both k) (not_or (exists? (is_key k) a) (exists? (is_key k) b))))
  where
    not_or : (x y : Bool) → not (x || y) ≡ (not x && not y)
    not_or true y = refl
    not_or false y = refl

module _ (fails : List String → Bool) where
  delete_loop_all :
      (fuel : ℕ) (keys streams : List String)
      → ((batch : List String) → fails batch ≡ false)
      → length keys ≤ fuel
      → delete_loop fails fuel keys streams ≡ (true, unlink keys streams)
  unfolding delete_loop
  delete_loop_all fuel [] streams works enough = ap (λ s. (true, s)) (sym (unlink-nothing streams))
  delete_loop_all zero (k ∷ ks) streams works enough = absurd (omega arith)
  delete_loop_all (suc fuel) (k ∷ ks) streams works enough = rw (works (take 100 (k ∷ ks))) (
      delete_loop_all fuel (drop 100 (k ∷ ks)) (unlink (take 100 (k ∷ ks)) streams) works
        (omega (arith, length-drop 100 (k ∷ ks), enough))
      ∙ rw
          (unlink-unlink (take 100 (k ∷ ks)) (drop 100 (k ∷ ks)) (k ∷ ks) streams
            (λ x. exists?-take-drop (is_key x) 100 (k ∷ ks)))
          refl)

  -- Where no batch fails, DeleteChatStreams comes to its end, deletes exactly the streams of the
  -- given keys, however many batches they take, and reports success.
  pub delete_chat_streams_all :
      (keys streams : List String)
      → ((batch : List String) → fails batch ≡ false)
      → delete_chat_streams fails keys streams
        ≡ (true, select (λ k. not (exists? (is_key k) keys)) streams)
  delete_chat_streams_all keys streams works =
      delete_loop_all (length keys) keys streams works (omega arith)
