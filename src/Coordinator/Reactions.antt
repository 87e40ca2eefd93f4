-- ===== src/Coordinator/Reactions.antt =====
-- What handleWSClosed does, and how often (coordinator/internal/coordinator.go).
use rogi_collector.Prelude.{
  [], ℕ, ◌+◌, ◌*◌, ◌<◌, ◌≡◌, String, true, false, Option, some, List, ◌∷◌, ◌==◌, All,
}
use rogi_collector.Journal.Model.{second}
use rogi_collector.Coordinator.Model.{
  connect_command, disconnect_command, unassign_channel, CoordEvent, ChannelStatus, Effect,
  delete_stream, is_draining, handle_ws_closed,
}

-- A reason for an effect of handleWSClosed, in the channel's row: it is of the event's own channel
-- and worker; a connect is for a channel that has not ended, a disconnect for one that has, and a
-- stream is deleted only where the channel ended more than 30 seconds before.
abbrev pub Justified : ℕ → CoordEvent → ChannelStatus → Effect → Type 0
Justified now ev s (connect_command w p c) =
    (w ≡ ev.worker_id) × (p ≡ ev.platform) × (c ≡ ev.channel_id) × ((s.status == "ended") ≡ false)
Justified now ev s (disconnect_command w p c) =
    (w ≡ ev.worker_id) × (p ≡ ev.platform) × (c ≡ ev.channel_id) × ((s.status == "ended") ≡ true)
Justified now ev s (delete_stream p c) =
    (t : ℕ) × (p ≡ ev.platform)
    × (c ≡ ev.channel_id)
    × ((s.status == "ended") ≡ true)
    × (s.ended_at ≡ some t)
    × (t + 30 * second < now)
Justified now ev s (unassign_channel p c w) = ⊥

-- All effects have their reason in the row that was read, and the worker was not draining.
abbrev pub Reacts :
    ℕ → CoordEvent → Option (List String) → Option ChannelStatus → List Effect → Type 0
Reacts now ev draining ch effects =
    (s : ChannelStatus) × (ch ≡ some s)
    × (is_draining draining ev.worker_id ≡ false)
    × All (Justified now ev s) effects

-- One call of handleWSClosed, with what the store answers.
pub record WsClosed : Type 0 where
  pub now : ℕ
  pub event : CoordEvent
  pub draining : Option (List String)
  pub row : Option ChannelStatus

-- The map after some calls, one after another.
abbrev pub after_ws_closed : List WsClosed → List (String × ℕ) → List (String × ℕ)
after_ws_closed [] m = m
after_ws_closed (u ∷ us) m =
    after_ws_closed us (handle_ws_closed u.now u.event u.draining u.row m).0
