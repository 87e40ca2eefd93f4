-- ===== src/Coordinator/Events.antt =====
-- The debounce of ws_closed events and their handling (coordinator/internal/coordinator.go).
use Prim.Native.String.{◌++◌}
use rogi_collector.Prelude.{
  [], ℕ, ◌+◌, ◌<◌, ◌≡◌, refl, inl, inr, String, Bool, true, false, not, some, List, ◌∷◌, length,
  arith, ltb, ◌==◌, find?, select, exists?, eq_iff, Bool-cases, find?-head, find?-select, sym, ap,
  subst, All,
}
use rogi_collector.Coordinator.Model.{
  of_key, is_recent, evict, hold_off, unassign_ttl, handle_unassign, CoordEvent,
}

pub evict-find :
    (ttl limit : ℕ) (key : String) (now : ℕ) (m : List (String × ℕ))
    → find? (of_key key) (evict ttl limit now ((key, now) ∷ m)) ≡ some (key, now)
unfolding evict select
evict-find ttl limit key now m =
    let mine = (eq_iff key key).1 refl in
    let young : not (ltb (now + ttl) now) ≡ true = ground arith in
    elim (Bool-cases (ltb limit (length ((key, now) ∷ m)))) [
      | inl many ↦ rw (many, young) (find?-head (of_key key) (key, now) _ mine)
      | inr few ↦ rw few (find?-head (of_key key) (key, now) m mine)
    ]

pub hold_off-keeps :
    (ttl limit : ℕ) (key other : String) (now later : ℕ) (m : List (String × ℕ))
    → find? (of_key key) m ≡ some (key, now)
    → later < now + ttl
    → find? (of_key key) (hold_off ttl limit other later m).1 ≡ some (key, now)
unfolding hold_off evict find?
hold_off-keeps ttl limit key other now later m known soon =
    elim (Bool-cases (is_recent ttl later (find? (of_key other) m))) [
      | inl recent ↦ rw recent known
      | inr stale ↦
          let young : not (ltb (now + ttl) later) ≡ true = ground arith in
          let differs : (other == key) ≡ false = elim (Bool-cases (other == key)) [
            | inl same ↦
                let is : other ≡ key = (eq_iff other key).0 same in
                let held : find? (of_key other) m ≡ some (key, now) =
                  subst (λ k. find? (of_key k) m ≡ some (key, now)) (sym is) known in
                absurd (ground (arith, held))
            | inr no_match ↦ no_match
          ] in
          let apart : (key == other) ≡ false = elim (Bool-cases (key == other)) [
            | inl same ↦
                let back : (other == key) ≡ true =
                  (eq_iff other key).1 (sym ((eq_iff key other).0 same)) in
                absurd (ground (arith, back))
            | inr no_match ↦ no_match
          ] in
          let kept =
            find?-select (of_key key) (λ e. not (of_key other e)) m (key, now) known
              (ap not apart) in
          let added : find? (of_key key) ((other, later) ∷ select (λ e. not (of_key other e)) m)
              ≡ some (key, now) =
            rw differs kept in
          elim (Bool-cases
            (ltb limit (length ((other, later) ∷ select (λ e. not (of_key other e)) m)))) [
              | inl many ↦
                  rw (stale, many)
                    (find?-select (of_key key) (λ e. not (ltb (e.1 + ttl) later)) _ (key, now) added
                      young)
              | inr few ↦ rw (stale, few) added
            ]
    ]

acted_at :
    (now : ℕ) (ev : CoordEvent) (fine : Bool) (m : List (String × ℕ))
    → exists? (λ x. true) (handle_unassign now ev fine m).1 ≡ true
    → find? (of_key (ev.platform ++ ":" ++ ev.channel_id)) (handle_unassign now ev fine m).0
      ≡ some (ev.platform ++ ":" ++ ev.channel_id, now)
unfolding handle_unassign hold_off exists?
acted_at now ev fine m acted =
    let key = ev.platform ++ ":" ++ ev.channel_id in
    elim (Bool-cases (is_recent unassign_ttl now (find? (of_key key) m))) [
      | inl recent ↦ absurd (ground arith)
      | inr stale ↦
          rw stale (evict-find unassign_ttl 1000 key now (select (λ e. not (of_key key e)) m))
    ]

held_off :
    (now later : ℕ) (ev : CoordEvent) (fine : Bool) (m : List (String × ℕ))
    → find? (of_key (ev.platform ++ ":" ++ ev.channel_id)) m
      ≡ some (ev.platform ++ ":" ++ ev.channel_id, now)
    → later < now + unassign_ttl
    → (handle_unassign later ev fine m).1 ≡ []
unfolding handle_unassign hold_off
held_off now later ev fine m known soon =
    let recent : ltb later (now + unassign_ttl) ≡ true = ground arith in rw (known, recent) refl

-- One call of handleUnassign: its time, its event, and whether UnassignChannel gives no error.
pub record Unassign : Type 0 where
  pub now : ℕ
  pub event : CoordEvent
  pub fine : Bool

-- The map after some calls, one after another.
abbrev pub after_unassigns : List Unassign → List (String × ℕ) → List (String × ℕ)
after_unassigns [] m = m
after_unassigns (u ∷ us) m = after_unassigns us (handle_unassign u.now u.event u.fine m).0

-- The key of an event's channel in both maps.
abbrev pub channel_key : CoordEvent → String
channel_key ev = ev.platform ++ ":" ++ ev.channel_id

after_unassigns-keeps :
    (us : List Unassign) (key : String) (now : ℕ) (m : List (String × ℕ))
    → All (λ (u : Unassign). u.now < now + unassign_ttl) us
    → find? (of_key key) m ≡ some (key, now)
    → find? (of_key key) (after_unassigns us m) ≡ some (key, now)
after_unassigns-keeps [] key now m times known = known
after_unassigns-keeps (u ∷ us) key now m times known = after_unassigns-keeps us key now _ times.1 (
    unfold handle_unassign in
    hold_off-keeps unassign_ttl 1000 key (channel_key u.event) now u.now m known times.0)

-- A channel that handleUnassign acted on is left alone by it for the ten minutes after that: an
-- event of the channel in that time, from whatever worker, has no effect, whatever other events,
-- of any channels and workers, were handled in between and whatever the store answered to them.
pub unassign_once :
    (now later : ℕ) (ev other : CoordEvent) (fine again : Bool) (us : List Unassign)
    (m : List (String × ℕ))
    → exists? (λ x. true) (handle_unassign now ev fine m).1 ≡ true
    → other.platform ≡ ev.platform
    → other.channel_id ≡ ev.channel_id
    → All (λ (u : Unassign). u.now < now + unassign_ttl) us
    → later < now + unassign_ttl
    → (handle_unassign later other again (after_unassigns us (handle_unassign now ev fine m).0)).1
      ≡ []
unassign_once now later ev other fine again us m acted platform channel times soon =
    let key = channel_key ev in
    let same : channel_key other ≡ key = rw (platform, channel) refl in
    let known = after_unassigns-keeps us key now _ times (acted_at now ev fine m acted) in
    let m' = after_unassigns us (handle_unassign now ev fine m).0 in
    held_off now later other again m'
      (subst (λ k. find? (of_key k) m' ≡ some (k, now)) (sym same) known) soon
