-- ===== src/Leader/Turns.antt =====
-- The turns of the discover service's leader election (discover/internal/leader.go).
use rogi_collector.Prelude.{
  ℕ, ◌<◌, ◌≡◌, refl, subst, inl, inr, Bool, true, false, List, [], ◌∷◌, arith, if-cases, Bool-cases,
  Option-cases,
}
use rogi_collector.Journal.Model.{second}
use rogi_collector.Leader.Election.{
  LeaderElectionConfig, Callback, on_acquire, on_lose, LeaderElection, Call, should_keep_leadership,
  one_more_error, lose_leadership, try_acquire, try_renew, turn,
}

-- The callbacks alternate, the newest one being the one that the leadership asks for.
abbrev pub alternates : Bool → List Callback → Bool
alternates false [] = true
alternates true [] = false
alternates true (on_acquire ∷ cs) = alternates false cs
alternates true (on_lose ∷ cs) = false
alternates false (on_lose ∷ cs) = alternates true cs
alternates false (on_acquire ∷ cs) = false

pub record IsPaired (le : LeaderElection) : Type 0 where
  pub paired : alternates le.is_leader le.callbacks ≡ true
  pub idle : le.is_leader ≡ false → le.lease_token ≡ 0

pub data Turns (cfg : LeaderElectionConfig ℕ) (start : LeaderElection)
    : LeaderElection → Type 0 where
  here : Turns cfg start start
  next : {le : LeaderElection} (c : Call) → Turns cfg start le → Turns cfg start (turn cfg c le).1

module _ (cfg : LeaderElectionConfig ℕ) where
  lose_leadership-IsPaired :
      (le : LeaderElection)
      → alternates true le.callbacks ≡ true
      → IsPaired (lose_leadership cfg le)
  unfolding lose_leadership
  lose_leadership-IsPaired le h = record { paired = h; idle = λ e. refl }

  try_acquire-IsPaired :
      (c : Call) (le : LeaderElection)
      → le.is_leader ≡ false
      → IsPaired le
      → IsPaired (try_acquire cfg c le).1
  unfolding try_acquire
  try_acquire-IsPaired c le follower s = elim (Option-cases c.answer) [
    | inl failed ↦ rw (try_acquire, failed) s
    | inr (lease, given) ↦ elim (Bool-cases lease.held) [
      | inr refused ↦ rw (try_acquire, given, refused) s
      | inl held ↦
          rw (try_acquire, given, held)
            (record {
              paired = subst (λ (b : Bool). alternates b le.callbacks ≡ true) follower s.paired;
              idle = λ e. absurd (ground arith);
            })
    ]
  ]

  try_renew-IsPaired :
      (c : Call) (le : LeaderElection)
      → le.is_leader ≡ true
      → IsPaired le
      → IsPaired (try_renew cfg c le).1
  unfolding try_renew
  try_renew-IsPaired c le leads s =
      let led : alternates true le.callbacks ≡ true =
        subst (λ (b : Bool). alternates b le.callbacks ≡ true) leads s.paired in
      elim (Option-cases c.answer) [
        | inl failed ↦
            elim (Bool-cases (should_keep_leadership cfg c.ended (one_more_error cfg le))) [
              | inl keeps ↦
                  rw (try_renew, failed, keeps) (record { paired = s.paired; idle = s.idle })
              | inr gives ↦ rw (try_renew, failed, gives) (lose_leadership-IsPaired le led)
            ]
        | inr (lease, given) ↦ elim (Bool-cases lease.held) [
          | inl held ↦
              rw (try_renew, given, held)
                (record { paired = s.paired; idle = λ e. absurd (ground arith) })
          | inr refused ↦ rw (try_renew, given, refused) (lose_leadership-IsPaired le led)
        ]
      ]

  turn-IsPaired : (c : Call) (le : LeaderElection) → IsPaired le → IsPaired (turn cfg c le).1
  unfolding turn
  turn-IsPaired c le s =
      if-cases (λ (r : ℕ × LeaderElection). IsPaired r.1) le.is_leader _ _
        (λ leads. try_renew-IsPaired c le leads s) (λ follows. try_acquire-IsPaired c le follows s)

-- Through any turns of the loop, whatever Redis answers and whenever: onAcquire and onLose
-- alternate, onAcquire being the last one exactly while the instance leads, and an instance that
-- does not lead has no fencing token.
pub Turns-IsPaired :
    {cfg : LeaderElectionConfig ℕ} {start le : LeaderElection}
    → Turns cfg start le
    → IsPaired start
    → IsPaired le
Turns-IsPaired here s = s
Turns-IsPaired {cfg} (next {le} c turns) s = turn-IsPaired cfg c le (Turns-IsPaired turns s)

pub record AreUsable (c : LeaderElectionConfig ℕ) : Type 0 where
  pub ttl_pos : 0 < c.ttl
  pub renew_pos : 0 < c.renew_interval
  pub acquire_pos : 0 < c.acquire_interval
  pub retry_pos : 0 < c.retry_interval
  pub timeout_pos : 0 < c.operation_timeout
  pub guard_pos : 0 < c.expiry_guard
  pub guard_lt : second < c.ttl → c.expiry_guard < c.ttl
