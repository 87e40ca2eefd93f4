-- ===== src/Discovery/Cycle.antt =====
-- The discovery cycle and the manual triggers (discover/internal/discover.go). Logging and metrics
-- are left out.
use rogi_collector.Prelude.{
  ℕ, ◌+◌, String, Bool, true, false, ◌&&◌, not, Option, none, some, List, [], ◌∷◌, ◌++◌, length,
  ltb, nat_eq, if◌then◌else◌, ◌==◌, find?, select, map, Result, ok, err,
}
use rogi_collector.Discovery.Model.{DiscoveredChannel, UpsertResult, Emitter, Answers}
use rogi_collector.Discovery.Emitter.{
  process_discovered, has, EndedChannel, detect_ended, reset_loop, commit_ended,
}

pub record DiscoveryResult : Type 0 where
  pub channels : List DiscoveredChannel
  pub is_partial : Bool

-- What a cycle meets: the fencing token, the answers of the platform and of the stores, `none` for
-- an error, and whether the context was cancelled when a step failed.
pub record Answered : Type 0 where
  pub now : ℕ
  pub token : ℕ
  pub lease : String → Option Bool
  pub cancelled : String → Bool
  pub fetched : Option DiscoveryResult
  pub upserted : List DiscoveredChannel → Option (List UpsertResult)
  pub plainly_upserted : List DiscoveredChannel → Bool
  pub is_live : String → Option Bool
  pub marked : List String → Option (List String)
  pub history : Answers

pub record Discover : Type 0 where
  pub allowlist : Option (List (String × List String))
  pub opted_out : Option (String → String → Bool)
  pub emitter : Option Emitter
  pub has_pg_store : Bool
  pub consecutive_failures : ℕ
  -- the arguments of the calls of MarkEndedChannels, the newest first
  pub mark_calls : List (List String)
  -- the notifier is set, and the IDs it was given, the newest first
  pub has_notifier : Bool
  pub notified : List (List String)

-- requireLease
abbrev pub require_lease : Answered → String → Bool
require_lease a step = elim (a.lease step) [ none ↦ false | some valid ↦ valid ]

abbrev pub allowed_ids : String → List (String × List String) → List String
allowed_ids p allowed = elim (find? (λ e. e.0 == p) allowed) [ none ↦ [] | some e ↦ e.1 ]

-- The allowlist and the opt-outs.
unfoldable pub permitted : String → Discover → DiscoveredChannel → Bool
permitted p d ch =
    elim d.allowlist [ none ↦ true | some allowed ↦ has ch.channel_id (allowed_ids p allowed) ]
    && elim d.opted_out [ none ↦ true | some is_opted_out ↦ not (is_opted_out p ch.channel_id) ]

pub record Validated : Type 0 where
  -- what is appended to the IDs
  pub kept : List String
  pub confirmed : List EndedChannel
  pub verified_live : List String

abbrev pub validate_one : Option Bool → EndedChannel → Validated → Validated
validate_one none c v = record v { kept = c.channel_id ∷ v.kept }
validate_one (some true) c v = record v {
  kept = c.channel_id ∷ v.kept;
  verified_live = c.channel_id ∷ v.verified_live;
}
validate_one (some false) c v = record v { confirmed = c ∷ v.confirmed }

-- validateEndedCandidates
unfoldable pub validate_candidates : (String → Option Bool) → List EndedChannel → Validated
validate_candidates is_live [] = record { kept = []; confirmed = []; verified_live = [] }
validate_candidates is_live (c ∷ cs) =
    validate_one (is_live c.channel_id) c (validate_candidates is_live cs)

-- The detection and the validation: the IDs for MarkEndedChannels, the channels to end, and the
-- emitter.
pub record Candidates : Type 0 where
  pub ids : List String
  pub to_end : List EndedChannel
  pub emitter : Option Emitter

unfoldable pub candidates : Answered → String → List String → Option Emitter → Candidates
candidates a p active none = record { ids = active; to_end = []; emitter = none }
candidates a p active (some e) =
    let d = detect_ended p active false e in
    let v = validate_candidates a.is_live d.to_end in
    record {
      ids = active ++ (d.kept ++ v.kept);
      to_end = v.confirmed;
      emitter = some (record e { states = reset_loop p v.verified_live d.states });
    }

abbrev pub commit_confirmed : Answered → List EndedChannel → Option Emitter → Option Emitter
commit_confirmed a ended none = none
commit_confirmed a ended (some e) = some (commit_ended a.history a.now ended e)

abbrev partial_seen : String → List String → Option Emitter → Option Emitter
partial_seen p active none = none
partial_seen p active (some e) = some (record e { states = (detect_ended p active true e).states })

-- What follows MarkEndedChannels.
abbrev pub after_mark : Answered → Candidates → Discover → Option (List String) → Bool × Discover
after_mark a c d none = (not (a.cancelled "mark-ended"), d)
after_mark a c d (some ended) = (
  true,
  record d {
    notified = if d.has_notifier && ltb 0 (length ended) then ended ∷ d.notified else d.notified;
    emitter = commit_confirmed a c.to_end c.emitter;
  },
)

-- The end of a cycle, after the upsert.
unfoldable pub finish : Answered → String → List String → Bool → Discover → Bool × Discover
finish a p active is_partial d =
    if is_partial
    then (true, record d { emitter = partial_seen p active d.emitter })
    else let c = candidates a p active d.emitter in
      let d1 : Discover = record d { emitter = c.emitter } in
      if not (require_lease a "mark-ended")
      then (true, d1)
      else let d2 : Discover = record d1 { mark_calls = c.ids ∷ d.mark_calls } in
        after_mark a c d2 (a.marked c.ids)

-- discoveredMap: the last channel of an ID counts.
unfoldable pub discovered_map :
    List DiscoveredChannel → List DiscoveredChannel → List DiscoveredChannel
discovered_map m [] = m
discovered_map m (ch ∷ chs) =
    discovered_map (ch ∷ select (λ o. not (o.channel_id == ch.channel_id)) m) chs

module _ (metadata_hash_of : String → String → List String → String) where
  -- The upsert, and the emitter after it; an error is what the cycle returns at once.
  unfoldable pub upsert :
      Answered → String → List DiscoveredChannel → Discover → Result Bool (Option Emitter)
  upsert a p channels d = elim (if d.has_pg_store then d.emitter else none) [
    | some e ↦
        if not (require_lease a "upsert-history") then err true else elim (a.upserted channels) [
          | none ↦ err (not (a.cancelled "upsert"))
          | some results ↦ ok (
              some (
                process_discovered metadata_hash_of a.history a.now p (discovered_map [] channels)
                  results e))
        ]
    | none ↦
        if not (require_lease a "upsert")
        then err true
        else if not (a.plainly_upserted channels)
        then err (not (a.cancelled "upsert"))
        else ok d.emitter
  ]

  -- What follows the upsert of the permitted channels.
  abbrev pub after_upsert :
      Answered
      → String
      → DiscoveryResult
      → Discover
      → Result Bool (Option Emitter)
      → Bool × Discover
  after_upsert a p result d (err continues) = (continues, d)
  after_upsert a p result d (ok emitter) =
      finish a p (map (λ ch. ch.channel_id) (select (permitted p d) result.channels))
        result.is_partial (record d { emitter = emitter })

  -- What follows FetchLiveChannels.
  abbrev pub after_fetch : Answered → String → Discover → Option DiscoveryResult → Bool × Discover
  after_fetch a p d none =
      if a.cancelled "fetch"
      then (false, d)
      else (true, record d { consecutive_failures = d.consecutive_failures + 1 })
  after_fetch a p d (some result) =
      let d1 : Discover = record d { consecutive_failures = 0 } in
      after_upsert a p result d1 (upsert a p (select (permitted p d1) result.channels) d1)

  -- runDiscoveryCycle
  unfoldable pub run_discovery_cycle : Answered → String → Discover → Bool × Discover
  run_discovery_cycle a p d = if nat_eq a.token 0 then (true, d) else after_fetch a p d a.fetched

-- The channels to the discovery loops, each with the platform that its loop polls: a loop is
-- started for each platform that the allowlist does not empty.
abbrev pub starts_loop : Option (List (String × List String)) → String → Bool
starts_loop none p = true
starts_loop (some allowed) p = ltb 0 (length (allowed_ids p allowed))

unfoldable pub loops : Option (List (String × List String)) → List String → List String
loops allowlist platforms = select (starts_loop allowlist) platforms

-- TriggerDiscoveryForPlatform: the platform whose loop is triggered.
unfoldable pub triggered : String → List String → List String → Option String
triggered p [] ls = none
triggered p (q ∷ qs) [] = none
triggered p (q ∷ qs) (l ∷ ls) = if q == p then some l else triggered p qs ls

abbrev pub first : List String → Option String
first [] = none
first (l ∷ ls) = some l
