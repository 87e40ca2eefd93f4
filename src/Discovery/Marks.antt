-- ===== src/Discovery/Marks.antt =====
-- When a discovery cycle calls MarkEndedChannels (runDiscoveryCycle of
-- discover/internal/discover.go).
use rogi_collector.Prelude.{
  ◌≡◌, refl, sym, subst, ◌⊎◌, inl, inr, String, Bool, true, false, not, Option, none, some, List,
  ◌∷◌, nat_eq, find?, select, map, arith, Result, ok, err, if-cases, if-holds,
}
use rogi_collector.Discovery.Model.{ChannelState, of_channel, Emitter}
use rogi_collector.Discovery.Emitter.{has}
use rogi_collector.Discovery.Cycle.{
  DiscoveryResult, Answered, Discover, require_lease, permitted, Candidates, candidates, after_mark,
  finish, upsert, after_upsert, after_fetch, run_discovery_cycle,
}
use rogi_collector.Discovery.Grace.{ends, IsKeyed}
use rogi_collector.Discovery.Spared.{candidates-covers, candidates-active}

-- The channel is not live, and it was missing from this complete poll and from an earlier one.
abbrev pub IsOver : Answered → List String → String → ChannelState → Type 0
IsOver a active id s =
    (a.is_live id ≡ some false) × (ends (record { active = active; is_partial = false }) s ≡ true)

module _ (metadata_hash_of : String → String → List String → String) where
  -- Why a cycle may call MarkEndedChannels, which ends every channel that is not among the IDs.
  pub record MarksSafely (a : Answered) (p : String) (d : Discover) (ids : List String)
      : Type 0 where
    pub holds_token : nat_eq a.token 0 ≡ false
    pub leased : require_lease a "mark-ended" ≡ true
    pub result : DiscoveryResult
    pub fetched : a.fetched ≡ some result
    pub is_whole : result.is_partial ≡ false
    pub emitter : Option Emitter
    pub upserted :
        upsert metadata_hash_of a p
          (select (permitted p d) result.channels)
          (record d { consecutive_failures = 0 })
        ≡ ok emitter
    pub spares_found :
        (id : String)
        → has id (map (λ ch. ch.channel_id) (select (permitted p d) result.channels)) ≡ true
        → has id ids ≡ true
    pub spares_tracked :
        (e : Emitter) (id : String) (s : ChannelState)
        → emitter ≡ some e
        → IsKeyed e.states
        → find? (of_channel p id) e.states ≡ some s
        → (has id ids ≡ true)
          ⊎ IsOver a (map (λ ch. ch.channel_id) (select (permitted p d) result.channels)) id s

  -- MarkEndedChannels was not called, or for these reasons.
  abbrev pub IsGuarded : Answered → String → Discover → Bool × Discover → Type 0
  IsGuarded a p d r =
      (r.1.mark_calls ≡ d.mark_calls)
      ⊎ ((ids : List String) × (r.1.mark_calls ≡ ids ∷ d.mark_calls) × MarksSafely a p d ids)

  marks :
      (a : Answered) (c : Candidates) (d : Discover) (m : Option (List String))
      → (after_mark a c d m).1.mark_calls ≡ d.mark_calls
  marks a c d none = refl
  marks a c d (some ended) = refl

  after_upsert-IsGuarded :
      (a : Answered) (p : String) (d : Discover) (result : DiscoveryResult)
      → (u : Result Bool (Option Emitter)) → nat_eq a.token 0 ≡ false
      → a.fetched ≡ some result
      → upsert metadata_hash_of a p
          (select (permitted p d) result.channels)
          (record d { consecutive_failures = 0 })
        ≡ u
      → IsGuarded a p d
          (after_upsert metadata_hash_of a p result (record d { consecutive_failures = 0 }) u)
  unfolding finish permitted
  after_upsert-IsGuarded a p d result (err continues) holds_token fetched upserted = inl refl
  after_upsert-IsGuarded a p d result (ok emitter) holds_token fetched upserted =
      if-cases (IsGuarded a p d) result.is_partial _ _ (λ cut. inl refl)
        (λ whole.
          if-cases (λ r. IsGuarded a p d r) (not (require_lease a "mark-ended")) _ _
            (λ unleased. inl refl)
            (λ leased. inr (
              (candidates a p (map (λ ch. ch.channel_id) (select (permitted p d) result.channels))
                  emitter).ids,
              marks a
                  (candidates a p
                    (map (λ ch. ch.channel_id) (select (permitted p d) result.channels)) emitter)
                  _ (a.marked _),
              record {
                holds_token = holds_token;
                leased = ground (arith, leased);
                result = result;
                fetched = fetched;
                is_whole = whole;
                emitter = emitter;
                upserted = upserted;
                spares_found = λ id. candidates-active a p id _ emitter;
                spares_tracked = λ e id s has_e k h.
                    subst
                      (λ m.
                        (has id
                            (candidates a p
                              (map (λ ch. ch.channel_id) (select (permitted p d) result.channels))
                              m).ids
                          ≡ true)
                        ⊎ IsOver a
                            (map (λ ch. ch.channel_id) (select (permitted p d) result.channels)) id
                            s)
                      (sym has_e) (candidates-covers a p id _ e s k h);
              },
            )))

  after_fetch-IsGuarded :
      (a : Answered) (p : String) (d : Discover) (f : Option DiscoveryResult)
      → nat_eq a.token 0 ≡ false
      → a.fetched ≡ f
      → IsGuarded a p d (after_fetch metadata_hash_of a p d f)
  unfolding permitted
  after_fetch-IsGuarded a p d none holds_token fetched =
      if-holds (IsGuarded a p d) (a.cancelled "fetch") _ _ (inl refl) (inl refl)
  after_fetch-IsGuarded a p d (some result) holds_token fetched =
      after_upsert-IsGuarded a p d result _ holds_token fetched refl

  -- A discovery cycle calls MarkEndedChannels at most once, and only with a fencing token, a
  -- complete result of the platform, a successful upsert and a valid lease. The IDs that it spares
  -- hold every channel that was found and permitted, and every channel that the emitter tracks (if
  -- no two have one key) but those that were missing from at least two complete polls and that the
  -- platform reports as not live.
  pub run_discovery_cycle-marks :
      (a : Answered) (p : String) (d : Discover)
      → IsGuarded a p d (run_discovery_cycle metadata_hash_of a p d)
  unfolding run_discovery_cycle
  run_discovery_cycle-marks a p d =
      if-cases (IsGuarded a p d) (nat_eq a.token 0) _ _ (λ no_token. inl refl)
        (λ holds_token. after_fetch-IsGuarded a p d a.fetched holds_token refl)
