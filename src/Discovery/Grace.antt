-- ===== src/Discovery/Grace.antt =====
-- When a channel that is missing from the polls is ended (DetectEndedChannels of
-- discover/internal/history/emitter.go).
use rogi_collector.Prelude.{
  ℕ, ◌+◌, ◌≡◌, refl, ap, subst, ◌∙◌, inl, inr, String, Bool, true, false, ◌&&◌, ◌||◌, not, some,
  List, [], ◌∷◌, leb, ltb, if◌then◌else◌, ◌==◌, find?, exists?, arith, Bool-cases, eq_iff,
  find?-test,
}
use rogi_collector.Discovery.Model.{ChannelState, of_channel}
use rogi_collector.Discovery.Emitter.{has, Detected, detect_one, detect_loop}

-- A poll of a platform: the channels it found, and whether it was cut short.
pub record Poll : Type 0 where
  pub active : List String
  pub is_partial : Bool

-- The states after some polls, the newest first, when no session ends in between.
abbrev pub after_polls : String → List Poll → List ChannelState → List ChannelState
after_polls p [] ss = ss
after_polls p (q ∷ qs) ss = (detect_loop p q.active q.is_partial (after_polls p qs ss)).states

-- In how many complete polls the channel was missing since it was last found, the newest first.
unfoldable pub absences : String → List Poll → ℕ → ℕ
absences id [] n = n
absences id (q ∷ qs) n =
    let before = absences id qs n in
    if has id q.active then 0 else if q.is_partial then before else before + 1

-- What a poll does to the one channel.
abbrev counted : String → Poll → ChannelState → ChannelState
counted id q s = record s {
  missed_polls =
      if has id q.active then 0 else if q.is_partial then s.missed_polls else s.missed_polls + 1;
}

pub id_of : (p id : String) (s : ChannelState) → of_channel p id s ≡ true → s.channel_id ≡ id
id_of p id s h = (eq_iff s.channel_id id).0 (ground (arith, h))

platform_of :
    (p id : String) (s : ChannelState) → of_channel p id s ≡ true → (s.platform == p) ≡ true
platform_of p id s h = ground (arith, h)

-- What a poll does to one channel that is tracked.
abbrev polled : String → Poll → ChannelState → ChannelState
polled p q s = if s.platform == p then counted s.channel_id q s else s

-- The channel is ended by this poll.
abbrev pub ends : Poll → ChannelState → Bool
ends q s = not (has s.channel_id q.active) && (not q.is_partial && leb 2 (s.missed_polls + 1))

detect_one-states :
    (p : String) (q : Poll) (s : ChannelState) (d : Detected)
    → (detect_one p q.active q.is_partial s d).states ≡ polled p q s ∷ d.states
unfolding detect_one
detect_one-states p q s d = elim (Bool-cases (s.platform == p)) [
  | inr other ↦ rw other refl
  | inl here ↦ elim (Bool-cases (has s.channel_id q.active)) [
    | inl found ↦ rw (here, found) refl
    | inr missing ↦ elim (Bool-cases q.is_partial) [
      | inl cut ↦ rw (here, missing, cut) refl
      | inr whole ↦ elim (Bool-cases (ltb (s.missed_polls + 1) 2)) [
        | inl grace ↦ rw (here, missing, whole, grace) refl
        | inr over ↦ rw (here, missing, whole, over) refl
      ]
    ]
  ]
]

detect_one-to_end :
    (p id : String) (q : Poll) (s : ChannelState) (d : Detected)
    → exists? (λ c. c.channel_id == id) (detect_one p q.active q.is_partial s d).to_end
      ≡ ((of_channel p id s && ends q s) || exists? (λ c. c.channel_id == id) d.to_end)
unfolding detect_one exists?
detect_one-to_end p id q s d = elim (Bool-cases (s.platform == p)) [
  | inr other ↦ rw (other) refl
  | inl here ↦ elim (Bool-cases (has s.channel_id q.active)) [
    | inl found ↦ elim (Bool-cases (s.channel_id == id)) [
      | inl same ↦ rw (here, found, same) refl
      | inr else_where ↦ rw (here, found, else_where) refl
    ]
    | inr missing ↦ ground (arith, here, missing)
  ]
]

pub detect_one-polled :
    (p : String) (q : Poll) (s : ChannelState) (ss : List ChannelState)
    → (detect_loop p q.active q.is_partial (s ∷ ss)).states
      ≡ polled p q s ∷ (detect_loop p q.active q.is_partial ss).states
unfolding detect_loop
detect_one-polled p q s ss = detect_one-states p q s (detect_loop p q.active q.is_partial ss)

polled-of_channel :
    (p p' id : String) (q : Poll) (s : ChannelState)
    → of_channel p' id (polled p q s) ≡ of_channel p' id s
polled-of_channel p p' id q s = elim (Bool-cases (s.platform == p)) [
  | inl e ↦ rw e refl
  | inr e ↦ rw e refl
]

-- A poll changes the channels' counts only.
find?-polled :
    (p id : String) (q : Poll) (ss : List ChannelState) (s : ChannelState)
    → find? (of_channel p id) ss ≡ some s
    → find? (of_channel p id) (detect_loop p q.active q.is_partial ss).states
      ≡ some (counted s.channel_id q s)
unfolding find?
find?-polled p id q [] s h = cc
find?-polled p id q (t ∷ ss) s h =
    rw (detect_one-polled p q t ss, polled-of_channel p p id q t)
      (elim (Bool-cases (of_channel p id t)) [
        | inl e ↦
            let is : t ≡ s = ground arith in
            rw (e, platform_of p id t e) (ap (λ u. some (counted u.channel_id q u)) is)
        | inr e ↦ rw e (find?-polled p id q ss s (ground arith))
      ])

-- No two tracked channels have the same key.
abbrev pub IsKeyed : List ChannelState → Type 0
IsKeyed [] = Unit
IsKeyed (s ∷ ss) = (exists? (of_channel s.platform s.channel_id) ss ≡ false) × IsKeyed ss

pub exists?-polled :
    (p p' id : String) (q : Poll) (ss : List ChannelState)
    → exists? (of_channel p' id) (detect_loop p q.active q.is_partial ss).states
      ≡ exists? (of_channel p' id) ss
unfolding exists?
exists?-polled p p' id q [] = unfold detect_loop in refl
exists?-polled p p' id q (s ∷ ss) =
    rw (detect_one-polled p q s ss, polled-of_channel p p' id q s, exists?-polled p p' id q ss) refl

polled-platform : (p : String) (q : Poll) (s : ChannelState) → (polled p q s).platform ≡ s.platform
polled-platform p q s = elim (Bool-cases (s.platform == p)) [
  | inl e ↦ rw e refl
  | inr e ↦ rw e refl
]

polled-channel_id :
    (p : String) (q : Poll) (s : ChannelState) → (polled p q s).channel_id ≡ s.channel_id
polled-channel_id p q s = elim (Bool-cases (s.platform == p)) [
  | inl e ↦ rw e refl
  | inr e ↦ rw e refl
]

pub detect_loop-IsKeyed :
    (p : String) (q : Poll) (ss : List ChannelState)
    → IsKeyed ss
    → IsKeyed (detect_loop p q.active q.is_partial ss).states
detect_loop-IsKeyed p q [] h = unfold detect_loop in tt
detect_loop-IsKeyed p q (s ∷ ss) h =
    rw
      (
        detect_one-polled p q s ss,
        polled-platform p q s,
        polled-channel_id p q s,
        exists?-polled p s.platform s.channel_id q ss,
      )
      (h.0, detect_loop-IsKeyed p q ss h.1)

or_false : (b : Bool) → (b || false) ≡ b
or_false true = refl
or_false false = refl

to_end-none :
    (p id : String) (q : Poll) (ss : List ChannelState)
    → exists? (of_channel p id) ss ≡ false
    → exists? (λ c. c.channel_id == id) (detect_loop p q.active q.is_partial ss).to_end ≡ false
unfolding exists? detect_loop
to_end-none p id q [] h = refl
to_end-none p id q (s ∷ ss) h =
    detect_one-to_end p id q s (detect_loop p q.active q.is_partial ss)
    ∙ ground (arith, to_end-none p id q ss)

pub to_end-found :
    (p id : String) (q : Poll) (ss : List ChannelState) (s : ChannelState)
    → IsKeyed ss
    → find? (of_channel p id) ss ≡ some s
    → exists? (λ c. c.channel_id == id) (detect_loop p q.active q.is_partial ss).to_end ≡ ends q s
unfolding exists? detect_loop find?
to_end-found p id q [] s k h = cc
to_end-found p id q (t ∷ ss) s k h =
    detect_one-to_end p id q t (detect_loop p q.active q.is_partial ss)
    ∙ elim (Bool-cases (of_channel p id t)) [
      | inl e ↦
          let is : t ≡ s = ground arith in
          let alone : exists? (of_channel p id) ss ≡ false =
            subst (λ x. exists? (of_channel p x) ss ≡ false) (id_of p id t e)
              (subst (λ x. exists? (of_channel x t.channel_id) ss ≡ false)
                ((eq_iff t.platform p).0 (platform_of p id t e)) k.0) in
          rw (e, to_end-none p id q ss alone) (or_false (ends q t) ∙ ap (ends q) is)
      | inr e ↦ rw e (to_end-found p id q ss s k.1 (ground arith))
    ]

after_polls-IsKeyed :
    (p : String) (qs : List Poll) (ss : List ChannelState)
    → IsKeyed ss
    → IsKeyed (after_polls p qs ss)
after_polls-IsKeyed p [] ss k = k
after_polls-IsKeyed p (q ∷ qs) ss k = detect_loop-IsKeyed p q _ (after_polls-IsKeyed p qs ss k)

counted-absences :
    (id : String) (q : Poll) (qs : List Poll) (n : ℕ) (s : ChannelState)
    → s.channel_id ≡ id
    → s.missed_polls ≡ absences id qs n
    → (counted s.channel_id q s).missed_polls ≡ absences id (q ∷ qs) n
unfolding absences
counted-absences id q qs n s named count = rw (named, count) refl

-- The channel is still tracked after the polls, and its count is that of its absences.
tracked :
    (p id : String) (qs : List Poll) (ss : List ChannelState) (s : ChannelState)
    → find? (of_channel p id) ss ≡ some s
    → (t : ChannelState) × (find? (of_channel p id) (after_polls p qs ss) ≡ some t)
      × (t.missed_polls ≡ absences id qs s.missed_polls)
unfolding absences
tracked p id [] ss s h = (s, h, refl)
tracked p id (q ∷ qs) ss s h =
    let (t, found, count) = tracked p id qs ss s h in
    (
      counted t.channel_id q t,
      find?-polled p id q (after_polls p qs ss) t found,
      counted-absences id q qs s.missed_polls t
          (id_of p id t (find?-test (of_channel p id) (after_polls p qs ss) t found)) count,
    )

ends-exact :
    (id : String) (q : Poll) (qs : List Poll) (n : ℕ) (t : ChannelState)
    → t.channel_id ≡ id
    → t.missed_polls ≡ absences id qs n
    → ends q t ≡ (not q.is_partial && leb 2 (absences id (q ∷ qs) n))
unfolding absences
ends-exact id q qs n t named count =
    rw (named, count)
      (elim (Bool-cases (has id q.active)) [
        | inl found ↦
            rw found (elim (Bool-cases q.is_partial) [ inl e ↦ rw e refl | inr e ↦ rw e refl ])
        | inr missing ↦
            rw missing (elim (Bool-cases q.is_partial) [ inl e ↦ rw e refl | inr e ↦ rw e refl ])
      ])

-- A channel that is tracked, after any polls of its platform: the next poll ends it exactly when
-- that poll is complete and the channel was missing from at least two complete polls, this one
-- included, since it was last found (or since its count was last that of the given state). Polls
-- that were cut short neither end it nor count. No two tracked channels have the same key.
pub detect_loop-ends :
    (p id : String) (q : Poll) (qs : List Poll) (ss : List ChannelState) (s : ChannelState)
    → IsKeyed ss
    → find? (of_channel p id) ss ≡ some s
    → exists?
        (λ c. c.channel_id == id)
        (detect_loop p q.active q.is_partial (after_polls p qs ss)).to_end
      ≡ (not q.is_partial && leb 2 (absences id (q ∷ qs) s.missed_polls))
detect_loop-ends p id q qs ss s k h =
    let (t, found, count) = tracked p id qs ss s h in
    to_end-found p id q (after_polls p qs ss) t (after_polls-IsKeyed p qs ss k) found
    ∙ ends-exact id q qs s.missed_polls t
        (id_of p id t (find?-test (of_channel p id) (after_polls p qs ss) t found)) count
