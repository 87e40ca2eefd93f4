-- ===== src/Leader/Fencing.antt =====
-- Fencing tokens: what a token that is still valid says (shared/store/redis.go).
use rogi_collector.Prelude.{
  ℕ, ◌+◌, ◌≤◌, ◌<◌, ◌≡◌, refl, ap, subst, ◌∙◌, inl, inr, String, Bool, true, false, Option, none,
  some, List, ◌∷◌, arith, ltb, nat_eq, eq_iff, if◌then◌else◌, Bool-cases, Option-cases, find?,
  find?-head, All, All-map,
}
use rogi_collector.Leader.Redis.{
  or_zero, LeaderLeaseResult, LeaseKeys, get, expiry, issue, acquire_leader, is_holder,
  renew_leader, validate_leader_lease, release_leader,
}

-- The keys, and the tokens that were issued with the instances that they were issued to, the newest
-- first.
pub record Ledger : Type 0 where
  pub keys : LeaseKeys
  pub issued : List (ℕ × String)

abbrev pub of_token : ℕ → ℕ × String → Bool
of_token t g = nat_eq g.0 t

-- The ledger after an answer: a token that the counter was raised for is noted.
abbrev pub answered : String → LeaderLeaseResult × LeaseKeys → Ledger → Ledger
answered id (r, k) l = record {
  keys = k;
  issued = if ltb l.keys.counter k.counter then (r.token, id) ∷ l.issued else l.issued;
}

-- A script that Redis ran for an instance, at any time.
pub data Step : Ledger → Ledger → Type 0 where
  acquire :
      {l : Ledger} (now : ℕ) (id : String) (ttl : ℕ)
      → Step l (answered id (acquire_leader now id ttl l.keys) l)
  renew :
      {l : Ledger} (now : ℕ) (id : String) (ttl : ℕ)
      → Step l (answered id (renew_leader now id ttl l.keys) l)
  release :
      {l : Ledger} (now : ℕ) (id : String)
      → Step l (record l { keys = (release_leader now id l.keys).1 })

pub data Run (start : Ledger) : Ledger → Type 0 where
  here : Run start start
  next : {l l' : Ledger} → Run start l → Step l l' → Run start l'

-- The leader's key and the fence stand and fall together; the fence holds the last token, which was
-- issued to the leader.
pub record IsFenced (l : Ledger) : Type 0 where
  pub held :
      (v : String) (e : ℕ)
      → l.keys.leader ≡ some (v, e)
      → (l.keys.fence ≡ some (l.keys.counter, e))
        × (find? (of_token l.keys.counter) l.issued ≡ some (l.keys.counter, v))
  pub free : l.keys.leader ≡ none → l.keys.fence ≡ none
  pub below : All (λ (g : ℕ × String). g.0 ≤ l.keys.counter) l.issued

-- A new token.
issue-IsFenced :
    (now : ℕ) (id : String) (ttl : ℕ) (l : Ledger)
    → IsFenced l
    → IsFenced (
        answered id (record { held = true; token = l.keys.counter + 1 }, issue now id ttl l.keys) l)
issue-IsFenced now id ttl l s =
    let grows : ltb l.keys.counter (l.keys.counter + 1) ≡ true = ground arith in
    rw grows (record {
      held = λ v e h.
          let same_id : id ≡ v = ground arith in
          let same_end : expiry now ttl ≡ e = ground arith in
          (
            rw same_end refl,
            find?-head (of_token (l.keys.counter + 1)) (l.keys.counter + 1, id) l.issued
                  (ground arith)
                ∙ rw same_id refl,
          );
      free = λ h. cc;
      below = (omega arith, All-map (λ g h. omega (arith, h)) l.issued s.below);
    })

-- An answer that changes no key.
refused-IsFenced :
    (id : String) (r : LeaderLeaseResult) (l : Ledger)
    → IsFenced l
    → IsFenced (answered id (r, l.keys) l)
refused-IsFenced id r l s =
    let stays : ltb l.keys.counter l.keys.counter ≡ false = ground arith in rw stays s

acquire-IsFenced :
    (now : ℕ) (id : String) (ttl : ℕ) (l : Ledger)
    → IsFenced l
    → IsFenced (answered id (acquire_leader now id ttl l.keys) l)
unfolding acquire_leader
acquire-IsFenced now id ttl l s = elim (Option-cases (get now l.keys.leader)) [
  | inl nobody ↦ rw (acquire_leader, nobody) (issue-IsFenced now id ttl l s)
  | inr (v, somebody) ↦
      rw (acquire_leader, somebody)
        (refused-IsFenced id (record { held = false; token = or_zero (get now l.keys.fence) }) l s)
]

-- A key that is there.
pub get-some :
    {A : Type 0} (now : ℕ) (o : Option (A × ℕ)) (a : A)
    → get now o ≡ some a
    → (e : ℕ) × (o ≡ some (a, e)) × (now < e)
get-some now none a h = cc
get-some now (some (b, e)) a h = (e, ground arith, ground arith)

pub get-live : {A : Type 0} (now e : ℕ) (a : A) → now < e → get now (some (a, e)) ≡ some a
get-live now e a h = ground arith

pub is_holder-some : (id : String) (o : Option String) → is_holder id o ≡ true → o ≡ some id
is_holder-some id none h = cc
is_holder-some id (some v) h = ap some ((eq_iff v id).0 h)

renew-IsFenced :
    (now : ℕ) (id : String) (ttl : ℕ) (l : Ledger)
    → IsFenced l
    → IsFenced (answered id (renew_leader now id ttl l.keys) l)
unfolding renew_leader
renew-IsFenced now id ttl l s = elim (Bool-cases (is_holder id (get now l.keys.leader))) [
  | inr other ↦
      rw (renew_leader, other) (refused-IsFenced id (record { held = false; token = 0 }) l s)
  | inl mine ↦
      let (e, leads, live) = get-some now l.keys.leader id (is_holder-some id _ mine) in
      let (fence, found) = s.held id e leads in
      let there : get now l.keys.fence ≡ some l.keys.counter =
        ap (get now) fence ∙ get-live now e l.keys.counter live in
      let stays : ltb l.keys.counter l.keys.counter ≡ false = ground arith in
      rw (renew_leader, mine, there, stays)
        (record {
          held = λ v x h.
              let same_id : id ≡ v = ground arith in
              let same_end : expiry now ttl ≡ x = ground arith in
              (rw same_end refl, found ∙ rw same_id refl);
          free = λ h. cc;
          below = s.below;
        })
]

Step-IsFenced : {l l' : Ledger} → Step l l' → IsFenced l → IsFenced l'
unfolding release_leader
Step-IsFenced (acquire {l} now id ttl) s = acquire-IsFenced now id ttl l s
Step-IsFenced (renew {l} now id ttl) s = renew-IsFenced now id ttl l s
Step-IsFenced (release {l} now id) s = elim (Bool-cases (is_holder id (get now l.keys.leader))) [
  | inl mine ↦ rw mine (record { held = λ v e h. cc; free = λ h. refl; below = s.below })
  | inr other ↦ rw other s
]

pub Run-IsFenced : {start l : Ledger} → Run start l → IsFenced start → IsFenced l
Run-IsFenced here s = s
Run-IsFenced (next r step) s = Step-IsFenced step (Run-IsFenced r s)

-- Whatever scripts ran from sound keys on: while a fencing token is valid, the instance that it was
-- issued to is the leader, and no later token has been issued.
pub validate_leader_lease-Current :
    {start l : Ledger} (now token : ℕ)
    → IsFenced start
    → Run start l
    → validate_leader_lease now token l.keys ≡ true
    → (v : String) × (get now l.keys.leader ≡ some v)
      × (find? (of_token token) l.issued ≡ some (token, v))
      × All (λ (g : ℕ × String). g.0 ≤ token) l.issued
unfolding validate_leader_lease
validate_leader_lease-Current {start} {l} now token s run h =
    let f : IsFenced l = Run-IsFenced run s in
    elim (Option-cases (get now l.keys.fence)) [
      | inl nothing ↦ absurd (ground arith)
      | inr (t, there) ↦ elim (Option-cases l.keys.leader) [
        | inl nobody ↦ let gone = f.free nobody in absurd (ground arith)
        | inr ((v, e), leads) ↦
            let (fence, found) = f.held v e leads in
            let (x, kept, live) = get-some now l.keys.fence t there in
            let same : l.keys.counter ≡ t = ground arith in
            let same_end : e ≡ x = ground arith in
            let is : t ≡ token = ground arith in
            (
              v,
              ap (get now) leads ∙ get-live now e v (rw same_end live),
              subst (λ (n : ℕ). find? (of_token n) l.issued ≡ some (n, v)) (same ∙ is) found,
              subst (λ (n : ℕ). All (λ (g : ℕ × String). g.0 ≤ n) l.issued) (same ∙ is) f.below,
            )
      ]
    ]
