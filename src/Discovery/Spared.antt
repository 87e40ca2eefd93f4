-- ===== src/Discovery/Spared.antt =====
-- The IDs that a discovery cycle spares (DetectEndedChannels of
-- discover/internal/history/emitter.go and validateEndedCandidates of discover/internal/discover.go).
use rogi_collector.Prelude.{
  exists?-append, ◌≡◌, ◌≢◌, refl, sym, ap, subst, ◌∙◌, ◌⊎◌, inl, inr, String, Bool, true, false,
  ◌||◌, Option, none, some, List, [], ◌∷◌, ◌==◌, find?, exists?, arith, Bool-cases, eq_iff, All,
}
use rogi_collector.Discovery.Model.{ChannelState, of_channel, Emitter}
use rogi_collector.Discovery.Emitter.{
  has, EndedChannel, Detected, detect_one, detect_loop, detect_ended,
}
use rogi_collector.Discovery.Cycle.{
  Answered, Validated, validate_one, validate_candidates, candidates,
}
use rogi_collector.Discovery.Grace.{ends, IsKeyed, to_end-found, id_of}

abbrev named : String → EndedChannel → Bool
named id c = c.channel_id == id

-- Kept, or to be ended.
abbrev covers : String → Detected → Bool
covers id d = has id d.kept || exists? (named id) d.to_end

detect_one-covers :
    (p id : String) (active : List String) (s : ChannelState) (d : Detected)
    → covers id d ≡ true
    → covers id (detect_one p active false s d) ≡ true
unfolding detect_one exists?
detect_one-covers p id active s d h = ground arith

detect_one-covers_own :
    (p id : String) (active : List String) (s : ChannelState) (d : Detected)
    → of_channel p id s ≡ true
    → (has s.channel_id active || covers id (detect_one p active false s d)) ≡ true
unfolding detect_one exists?
detect_one-covers_own p id active s d h = ground arith

-- A tracked channel is active, kept, or to be ended.
detect_loop-covers :
    (p id : String) (active : List String) (ss : List ChannelState) (s : ChannelState)
    → find? (of_channel p id) ss ≡ some s
    → (has id active || covers id (detect_loop p active false ss)) ≡ true
unfolding find? detect_loop
detect_loop-covers p id active [] s h = cc
detect_loop-covers p id active (t ∷ ss) s h = elim (Bool-cases (of_channel p id t)) [
  | inl e ↦
      subst
        (λ x.
          (has x active || covers id (detect_one p active false t (detect_loop p active false ss)))
          ≡ true)
        (id_of p id t e) (detect_one-covers_own p id active t (detect_loop p active false ss) e)
  | inr e ↦ elim (Bool-cases (has id active)) [
    | inl found ↦ rw found refl
    | inr missing ↦
        let rest = detect_loop-covers p id active ss s (ground arith) in
        rw missing (
          detect_one-covers p id active t (detect_loop p active false ss)
            (ap (λ b. b || covers id (detect_loop p active false ss)) (sym missing) ∙ rest))
  ]
]

validate_one-kept :
    (id : String) (r : Option Bool) (c : EndedChannel) (v : Validated)
    → has id v.kept ≡ true
    → has id (validate_one r c v).kept ≡ true
unfolding exists?
validate_one-kept id none c v h = ground arith
validate_one-kept id (some true) c v h = ground arith
validate_one-kept id (some false) c v h = h

validate_one-kept_own :
    (id : String) (r : Option Bool) (c : EndedChannel) (v : Validated)
    → r ≢ some false
    → named id c ≡ true
    → has id (validate_one r c v).kept ≡ true
unfolding exists?
validate_one-kept_own id none c v alive h = ground arith
validate_one-kept_own id (some true) c v alive h = ground arith
validate_one-kept_own id (some false) c v alive h = absurd (alive refl)

-- A candidate is kept, or the platform said that it is not live.
validate_candidates-kept :
    (is_live : String → Option Bool) (id : String) (cs : List EndedChannel)
    → is_live id ≢ some false
    → exists? (named id) cs ≡ true
    → has id (validate_candidates is_live cs).kept ≡ true
unfolding validate_candidates exists?
validate_candidates-kept is_live id [] alive h = cc
validate_candidates-kept is_live id (c ∷ cs) alive h = elim (Bool-cases (named id c)) [
  | inl e ↦
      validate_one-kept_own id (is_live c.channel_id) c (validate_candidates is_live cs)
        (subst (λ x. is_live x ≢ some false) (sym ((eq_iff c.channel_id id).0 e)) alive) e
  | inr e ↦
      validate_one-kept id (is_live c.channel_id) c (validate_candidates is_live cs)
        (validate_candidates-kept is_live id cs alive (ground arith))
]

-- The confirmed channels are those that the platform said are not live.
abbrev pub IsDead : (String → Option Bool) → EndedChannel → Type 0
IsDead is_live c = is_live c.channel_id ≡ some false

validate_one-IsDead :
    (is_live : String → Option Bool) (r : Option Bool) (c : EndedChannel) (v : Validated)
    → is_live c.channel_id ≡ r
    → All (IsDead is_live) v.confirmed
    → All (IsDead is_live) (validate_one r c v).confirmed
validate_one-IsDead is_live none c v e h = h
validate_one-IsDead is_live (some true) c v e h = h
validate_one-IsDead is_live (some false) c v e h = (e, h)

pub validate_candidates-IsDead :
    (is_live : String → Option Bool) (cs : List EndedChannel)
    → All (IsDead is_live) (validate_candidates is_live cs).confirmed
unfolding validate_candidates
validate_candidates-IsDead is_live [] = tt
validate_candidates-IsDead is_live (c ∷ cs) =
    validate_one-IsDead is_live (is_live c.channel_id) c _ refl
      (validate_candidates-IsDead is_live cs)

-- A tracked channel is among the IDs, or it is not live and its grace is over.
pub candidates-covers :
    (a : Answered) (p id : String) (active : List String) (e : Emitter) (s : ChannelState)
    → IsKeyed e.states
    → find? (of_channel p id) e.states ≡ some s
    → (has id (candidates a p active (some e)).ids ≡ true)
      ⊎ ((a.is_live id ≡ some false)
          × (ends (record { active = active; is_partial = false }) s ≡ true))
unfolding candidates
candidates-covers a p id active e s k h =
    elim (Bool-cases (exists? (named id) (detect_ended p active false e).to_end)) [
      | inr safe ↦ inl (
          exists?-append (λ i. i == id) active _
          ∙ rw
              (exists?-append (λ i. i == id) (detect_ended p active false e).kept
                (validate_candidates a.is_live (detect_ended p active false e).to_end).kept)
              (let c = detect_loop-covers p id active e.states s h in ground arith))
      | inl out ↦ elim (life (a.is_live id)) [
        | inl dead ↦ inr (
          dead,
          sym (to_end-found p id (record { active = active; is_partial = false }) e.states s k h)
              ∙ out,
        )
        | inr alive ↦
            let kept =
              validate_candidates-kept a.is_live id (detect_ended p active false e).to_end alive
                out in
            inl (
              exists?-append (λ i. i == id) active _
              ∙ rw
                  (exists?-append (λ i. i == id) (detect_ended p active false e).kept
                    (validate_candidates a.is_live (detect_ended p active false e).to_end).kept)
                  (ground arith))
      ]
    ]
  where
    life : (r : Option Bool) → (r ≡ some false) ⊎ (r ≢ some false)
    life none = inr (λ e. cc)
    life (some true) = inr (λ e. cc)
    life (some false) = inl refl

pub candidates-active :
    (a : Answered) (p id : String) (active : List String) (e : Option Emitter)
    → has id active ≡ true
    → has id (candidates a p active e).ids ≡ true
unfolding candidates
candidates-active a p id active none h = h
candidates-active a p id active (some e) h = exists?-append (λ i. i == id) active _ ∙ rw h refl
