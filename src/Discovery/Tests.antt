-- ===== src/Discovery/Tests.antt =====
-- The theorems on discovery, at concrete polls.
use rogi_collector.Prelude.{
  ◌≡◌, refl, ◌&&◌, not, String, true, false, Option, none, some, List, [], ◌∷◌, leb, find?, exists?,
  ◌==◌, pos,
}
use rogi_collector.Discovery.Model.{ChannelState, DiscoveredChannel, UpsertResult, Emitter, Answers}
use rogi_collector.Discovery.Emitter.{process_discovered, detect_loop}
use rogi_collector.Discovery.Cycle.{
  Answered, Discover, run_discovery_cycle, finish, loops, triggered, first,
}
use rogi_collector.Discovery.Grace.{Poll, after_polls, absences, detect_loop-ends}
use rogi_collector.Discovery.Ended.{Tracks, finish-keeps_live}
use rogi_collector.Discovery.Marks.{IsGuarded, run_discovery_cycle-marks}
use rogi_collector.Discovery.Triggers.{triggered-shifted}
use rogi_collector.Discovery.Tidy.{IsTidy}
use rogi_collector.Discovery.Histories.{
  new_emitter, start, then_step, processes, detects, Run-IsTidy,
}

abbrev plain_hash : String → String → List String → String
plain_hash title category tags = title

abbrev all_succeed : Answers
all_succeed n call = true

abbrev state_a : ChannelState
state_a = record {
  platform = "soop";
  channel_id = "a";
  session_seq = pos 1;
  metadata_hash = "t";
  viewer_count = pos 5;
  last_interval = none;
  missed_polls = 0;
}

abbrev whole_poll : Poll
whole_poll = record { active = "b" ∷ []; is_partial = false }

abbrev cut_poll : Poll
cut_poll = record { active = []; is_partial = true }

detect_loop-ends_example :
    exists?
      (λ c. c.channel_id == "a")
      (detect_loop "soop" whole_poll.active whole_poll.is_partial
        (after_polls "soop" (cut_poll ∷ whole_poll ∷ []) (state_a ∷ []))).to_end
    ≡ (not whole_poll.is_partial
        && leb 2 (absences "a" (whole_poll ∷ cut_poll ∷ whole_poll ∷ []) 0))
unfolding find? exists?
detect_loop-ends_example =
    detect_loop-ends "soop" "a" whole_poll (cut_poll ∷ whole_poll ∷ []) (state_a ∷ []) state_a
      (refl, tt) refl

abbrev emitter_a : Emitter
emitter_a = record {
  states = state_a ∷ [];
  has_writer = true;
  rows = [];
  instance_id = "i";
  calls = [];
}

abbrev channel_b : DiscoveredChannel
channel_b = record {
  channel_id = "b";
  streamer_name = "s";
  title = "t";
  category = "c";
  category_code = "c";
  tags = [];
  thumbnail_url = "u";
  viewer_count = pos 7;
  started_at = none;
}

abbrev upserted_b : UpsertResult
upserted_b = record { platform = "soop"; channel_id = "b"; session_seq = pos 1; is_insert = true }

abbrev answered : Answered
answered = record {
  now = 9;
  token = 1;
  lease = λ step. some true;
  cancelled = λ step. false;
  fetched = some (record { channels = channel_b ∷ []; is_partial = false });
  upserted = λ chs. some (upserted_b ∷ []);
  plainly_upserted = λ chs. true;
  is_live = λ id. none;
  marked = λ ids. some [];
  history = all_succeed;
}

abbrev discover_a : Discover
discover_a = record {
  allowlist = none;
  opted_out = none;
  emitter = some emitter_a;
  has_pg_store = true;
  consecutive_failures = 2;
  mark_calls = [];
  has_notifier = true;
  notified = [];
}

run_discovery_cycle-marks_example :
    IsGuarded plain_hash answered "soop" discover_a
      (run_discovery_cycle plain_hash answered "soop" discover_a)
run_discovery_cycle-marks_example = run_discovery_cycle-marks plain_hash answered "soop" discover_a

finish-keeps_live_example :
    Tracks "soop" "a" emitter_a (finish answered "soop" ("b" ∷ []) false discover_a)
unfolding exists?
finish-keeps_live_example =
    finish-keeps_live answered "soop" "soop" "a" ("b" ∷ []) false discover_a emitter_a refl refl
      (λ e. cc)

abbrev soop_only : Option (List (String × List String))
soop_only = some (("soop", "a" ∷ []) ∷ [])

triggered-shifted_example :
    triggered "soop" ("cime" ∷ "soop" ∷ []) (loops soop_only ("cime" ∷ "soop" ∷ []))
    ≡ first (loops soop_only [])
unfolding find?
triggered-shifted_example = triggered-shifted soop_only "cime" "soop" [] refl refl

abbrev processed : Emitter
processed =
    process_discovered plain_hash all_succeed 9 "soop" (channel_b ∷ []) (upserted_b ∷ [])
      (new_emitter "i" true)

Run-IsTidy_example :
    IsTidy (record processed { states = (detect_loop "soop" [] false processed.states).states })
Run-IsTidy_example = Run-IsTidy plain_hash "i" true _ (
    then_step
      (then_step start
        (processes all_succeed 9 "soop" (channel_b ∷ []) (upserted_b ∷ []) (new_emitter "i" true)))
      (detects "soop" (record { active = []; is_partial = false }) processed))
