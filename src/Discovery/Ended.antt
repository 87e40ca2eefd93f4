-- ===== src/Discovery/Ended.antt =====
-- Which sessions a discovery cycle closes (CommitEnded of discover/internal/history/emitter.go and
-- the end of runDiscoveryCycle of discover/internal/discover.go).
use rogi_collector.Prelude.{
  ◌≡◌, ◌≢◌, refl, sym, ap, subst, ◌∙◌, inl, inr, String, Bool, true, false, ◌&&◌, not, Option, none,
  some, List, [], ◌∷◌, ◌==◌, find?, select, exists?, arith, Bool-cases, All, Option-cases, if-holds,
  eq_iff,
}
use rogi_collector.Discovery.Model.{
  ChannelState, of_channel, Emitter, HistoryCall, close_session, perform,
}
use rogi_collector.Discovery.Emitter.{
  has, EndedChannel, detect_ended, reset_loop, commit_one, commit_ended,
}
use rogi_collector.Discovery.Cycle.{
  Answered, Discover, require_lease, Validated, validate_candidates, Candidates, candidates,
  after_mark, commit_confirmed, finish,
}
use rogi_collector.Discovery.Grace.{id_of, exists?-polled}
use rogi_collector.Discovery.Spared.{IsDead, validate_candidates-IsDead}

-- Whether the channel is tracked.
abbrev pub is_tracked : String → String → Emitter → Bool
is_tracked p id e = exists? (of_channel p id) e.states

abbrev is_close : String → String → HistoryCall × Bool → Bool
is_close p id (close_session q x seq ended seen reason, answer) = (q == p) && (x == id)
is_close p id _ = false

-- The calls of CloseSession for a channel that were made of the store.
abbrev pub closings : String → String → Emitter → List (HistoryCall × Bool)
closings p id e = select (is_close p id) e.calls

-- The channel is tracked still, and its session was not closed since.
abbrev Keeps : String → String → Emitter → Emitter → Type 0
Keeps p id e f = (is_tracked p id f ≡ true) × (closings p id f ≡ closings p id e)

reset_loop-tracked :
    (p p' id : String) (ids : List String) (ss : List ChannelState)
    → exists? (of_channel p' id) (reset_loop p ids ss) ≡ exists? (of_channel p' id) ss
unfolding reset_loop exists?
reset_loop-tracked p p' id ids [] = refl
reset_loop-tracked p p' id ids (s ∷ ss) =
    elim (Bool-cases ((s.platform == p) && has s.channel_id ids)) [
      | inl e ↦ rw (e, reset_loop-tracked p p' id ids ss) refl
      | inr e ↦ rw (e, reset_loop-tracked p p' id ids ss) refl
    ]

select-tracked :
    (p id q x : String) (ss : List ChannelState)
    → x ≢ id
    → exists? (of_channel p id) ss ≡ true
    → exists? (of_channel p id) (select (λ o. not (of_channel q x o)) ss) ≡ true
unfolding exists? select
select-tracked p id q x [] ne h = h
select-tracked p id q x (s ∷ ss) ne h = elim (Bool-cases (of_channel q x s)) [
  | inl e ↦
      let other : of_channel p id s ≡ false = elim (Bool-cases (of_channel p id s)) [
        | inl same ↦ absurd (ne (sym (id_of q x s e) ∙ id_of p id s same))
        | inr apart ↦ apart
      ] in
      rw e (select-tracked p id q x ss ne (ground arith))
  | inr e ↦ rw e (ground (arith, select-tracked p id q x ss ne))
]

not_its_close : (p id q x : String) → x ≢ id → ((q == p) && (x == id)) ≡ false
not_its_close p id q x ne = elim (Bool-cases (x == id)) [
  | inl same ↦ absurd (ne ((eq_iff x id).0 same))
  | inr apart ↦ ground (arith, apart)
]

commit_one-Keeps :
    (a : Answered) (p id : String) (c : EndedChannel) (e0 e : Emitter)
    → c.channel_id ≢ id
    → Keeps p id e0 e
    → Keeps p id e0 (commit_one a.history a.now c e)
unfolding commit_one select
commit_one-Keeps a p id c e0 e ne (h, same) =
    elim (Option-cases (find? (of_channel c.platform c.channel_id) e.states)) [
      | inl gone ↦ rw (commit_one, gone) (h, same)
      | inr (s, found) ↦
          let other = not_its_close p id c.platform c.channel_id ne in
          let calls : closings p id (
                perform a.history
                  (close_session c.platform c.channel_id s.session_seq a.now a.now "grace_timeout")
                  e)
              ≡ closings p id e0 =
            rw other same in
          rw (commit_one, found)
            (if-holds (Keeps p id e0) _ _ _ (h, calls)
              (select-tracked p id c.platform c.channel_id e.states ne h, calls))
    ]

commit_ended-Keeps :
    (a : Answered) (p id : String) (cs : List EndedChannel) (e0 e : Emitter)
    → All (IsDead a.is_live) cs
    → a.is_live id ≢ some false
    → Keeps p id e0 e
    → Keeps p id e0 (commit_ended a.history a.now cs e)
unfolding commit_ended
commit_ended-Keeps a p id [] e0 e dead alive h = h
commit_ended-Keeps a p id (c ∷ cs) e0 e dead alive h =
    commit_ended-Keeps a p id cs e0 (commit_one a.history a.now c e) dead.1 alive (
      commit_one-Keeps a p id c e0 e
        (λ same. alive (subst (λ x. a.is_live x ≡ some false) same dead.0)) h)

-- The emitter is there, tracks the channel, and has closed its session no more often than before.
abbrev pub Tracks : String → String → Emitter → Bool × Discover → Type 0
Tracks p id e r =
    (f : Emitter) × (r.1.emitter ≡ some f)
    × (is_tracked p id f ≡ true)
    × (closings p id f ≡ closings p id e)

after_mark-Tracks :
    (a : Answered) (q id : String) (c : Candidates) (d : Discover) (e0 e : Emitter)
    (m : Option (List String))
    → d.emitter ≡ some e
    → c.emitter ≡ some e
    → All (IsDead a.is_live) c.to_end
    → a.is_live id ≢ some false
    → Keeps q id e0 e
    → Tracks q id e0 (after_mark a c d m)
after_mark-Tracks a q id c d e0 e none has_d has_c dead alive h = (e, has_d, h.0, h.1)
after_mark-Tracks a q id c d e0 e (some ended) has_d has_c dead alive h =
    let kept = commit_ended-Keeps a q id c.to_end e0 e dead alive h in
    (
      commit_ended a.history a.now c.to_end e,
      ap (commit_confirmed a c.to_end) has_c,
      kept.0,
      kept.1,
    )

finish-with_emitter :
    (a : Answered) (p q id : String) (active : List String) (is_partial : Bool) (d : Discover)
    (e : Emitter)
    → is_tracked q id e ≡ true
    → a.is_live id ≢ some false
    → Tracks q id e (finish a p active is_partial (record d { emitter = some e }))
unfolding finish candidates
finish-with_emitter a p q id active is_partial d e h alive =
    let seen : (cut : Bool)
        → is_tracked q id (record e { states = (detect_ended p active cut e).states }) ≡ true =
      λ cut. exists?-polled p q id (record { active = active; is_partial = cut }) e.states ∙ h in
    let v : Validated = validate_candidates a.is_live (detect_ended p active false e).to_end in
    let reset : Emitter = record e {
      states = reset_loop p v.verified_live (detect_ended p active false e).states;
    } in
    let still : is_tracked q id reset ≡ true =
      reset_loop-tracked p q id v.verified_live (detect_ended p active false e).states
      ∙ seen false in
    if-holds (Tracks q id e) is_partial _ _ (_, refl, seen true, refl)
      (if-holds (Tracks q id e) (not (require_lease a "mark-ended")) _ _ (reset, refl, still, refl)
        (after_mark-Tracks a q id (candidates a p active (some e)) _ e reset (a.marked _) refl refl
          (validate_candidates-IsDead a.is_live (detect_ended p active false e).to_end) alive
          (still, refl)))

-- A channel that is tracked before the end of a cycle, and that the platform does not report as not
-- live (it is live, or the question failed), is tracked after it, and CloseSession is not called
-- for it; this holds whether or not the cycle counts the channel as active, so also where an
-- allowlist leaves it out.
pub finish-keeps_live :
    (a : Answered) (p q id : String) (active : List String) (is_partial : Bool) (d : Discover)
    (e : Emitter)
    → d.emitter ≡ some e
    → is_tracked q id e ≡ true
    → a.is_live id ≢ some false
    → Tracks q id e (finish a p active is_partial d)
finish-keeps_live a p q id active is_partial d e has_e h alive =
    subst (λ m. Tracks q id e (finish a p active is_partial (record d { emitter = m }))) (sym has_e)
      (finish-with_emitter a p q id active is_partial d e h alive)
