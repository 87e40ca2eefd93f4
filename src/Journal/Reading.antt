-- ===== src/Journal/Reading.antt =====
-- Reading, acknowledging and deciding a recovery keep the journal sound.
use mathlib.Core.Path.{subst₂}
use rogi_collector.Prelude.{
  ℕ, ◌+◌, ◌≤◌, ◌<◌, ◌≡◌, ◌≢◌, refl, sym, ap, subst, ◌∙◌, ◌⊎◌, inl, inr, String, true, false, Option,
  none, some, List, arith, ltb, if◌then◌else◌, is_some, Bool-cases, Option-cases, update_where,
  find?, eq_iff, max_uint64, ok, Result-cases, min,
}
use rogi_collector.Journal.Model.{
  Donation, Channel, Consumer, RecoveryDecision, recovery_op, Db, Env,
}
use rogi_collector.Journal.Grants.{CollectionState, of_channel, collection_state, scan_collection}
use rogi_collector.Journal.Consumers.{
  of_consumer, consumer_at, progress, enroll, read_loop, clamp_limit, page, read_donations,
  acked_past, ack_donations, of_request, request_result, restart_consumer, progress_or_new,
  decide_recovery, record_decision, save_request, resolve_recovery,
}
use rogi_collector.Journal.Invariant.{retained, IsRun, IsRun-le, AckFits, IsOrdered, IsSoundDb}
use rogi_collector.Journal.Preserve.{IsFit, consumer-IsSound, new_consumer-IsSound}
use rogi_collector.Journal.Batch.{IsBatch, read_page}

-- Facts of an accepted acknowledgement.
abbrev pub Acked : String → String → String → ℕ → ℕ → Db → Db → Type 0
Acked consumer ch gen offset rev db db' =
    (c : Channel) × (p : Consumer) × (find? (of_channel ch) db.channels ≡ some c)
    × (find? (of_consumer consumer ch) db.consumers ≡ some p)
    × (c.generation ≡ gen)
    × (p.generation ≡ gen)
    × (p.recovery_revision ≡ rev)
    × (c.expired_through ≤ offset)
    × (p.baseline < offset)
    × (offset ≤ p.offered_offset)
    × (acked_past p.ack_offset offset ≡ false)
    × (db' ≡ record db {
      consumers =
          update_where (of_consumer consumer ch) (λ q. record q { ack_offset = some offset })
            db.consumers;
    })

pub ack_donations-inv :
    (now : ℕ) (consumer ch gen : String) (offset rev : ℕ) (db db' : Db)
    → ack_donations now consumer ch gen offset rev db ≡ ok db'
    → Acked consumer ch gen offset rev db db'
unfolding ack_donations collection_state
ack_donations-inv now consumer ch gen offset rev db db' h =
    elim (Option-cases (find? (of_channel ch) db.channels)) [
      | inl missing ↦ absurd (ground arith)
      | inr (c, found) ↦ elim (Option-cases (find? (of_consumer consumer ch) db.consumers)) [
        | inl unknown ↦ absurd (ground arith)
        | inr (p, known) ↦ (
          c,
          p,
          found,
          known,
          (eq_iff c.generation gen).0 (ground arith),
          (eq_iff p.generation gen).0 (ground arith),
          ground arith,
          ground arith,
          ground arith,
          ground arith,
          ground arith,
          ground arith,
        )
      ]
    ]

pub Acked-IsSound :
    (consumer ch gen : String) (offset rev : ℕ) (db db' : Db)
    → Acked consumer ch gen offset rev db db'
    → IsSoundDb db
    → IsSoundDb db'
Acked-IsSound consumer ch gen offset rev db db'
      (c, p, found, known, _, _, _, _, above, below, _, writes) sound =
    subst IsSoundDb (sym writes) (
      consumer-IsSound db.channels db.donations db.consumers sound consumer ch _ (λ y t. t)
        λ y at.
          let same : p ≡ y = cc (known, at) in
          let o = sound.ordered consumer ch y at in
          (
            record {
              start = o.start;
              ack =
                  subst (λ (q : Consumer). (q.baseline < offset) × (offset ≤ q.offered_offset)) same
                    (above, below);
              rev = o.rev;
            },
            λ x. sound.offered consumer ch y x at,
          ))

consumer_at-IsOrdered :
    (consumer ch gen : String) (offset rev : ℕ)
    → rev ≤ max_uint64
    → IsOrdered (consumer_at consumer ch gen offset rev)
unfolding consumer_at
consumer_at-IsOrdered consumer ch gen offset rev h = record {
  start = omega arith;
  ack = tt;
  rev = h;
}

consumer_at-test :
    (consumer ch gen : String) (offset rev : ℕ)
    → of_consumer consumer ch (consumer_at consumer ch gen offset rev) ≡ true
unfolding consumer_at
consumer_at-test consumer ch gen offset rev =
    ground (arith, (eq_iff consumer consumer).1 refl, (eq_iff ch ch).1 refl)

-- A new consumer starts at the retained beginning of the channel.
pub enroll-IsSound :
    (consumer ch : String) (now : ℕ) (db : Db) (c : Channel)
    → find? (of_channel ch) db.channels ≡ some c
    → IsSoundDb db
    → IsSoundDb (enroll consumer ch (scan_collection now db.grants c) db)
unfolding enroll scan_collection
enroll-IsSound consumer ch now db c found sound =
    elim (Bool-cases (is_some (find? (of_consumer consumer ch) db.consumers))) [
      | inl known ↦ rw known sound
      | inr new ↦ rw new (
          new_consumer-IsSound db.channels db.donations db.consumers sound
            (consumer_at consumer ch c.generation c.expired_through 0)
            (
              consumer_at-IsOrdered consumer ch c.generation c.expired_through 0 (omega arith),
              unfold consumer_at in
                  λ x at _.
                    let same : c ≡ x = cc (found, at) in
                    subst (λ (y : Channel). c.expired_through ≤ y.next_offset) same
                      (IsRun-le _ _ _ (sound.run ch c found)),
            ))
    ]

enroll-channels :
    (consumer ch : String) (c : CollectionState) (db : Db)
    → ((enroll consumer ch c db).channels ≡ db.channels)
      × ((enroll consumer ch c db).donations ≡ db.donations)
unfolding enroll
enroll-channels consumer ch c db = ground arith

-- The consumer after a read: the offered mark moves forward only.
unfoldable pub offer : String → String → Consumer → ℕ → Db → Db
offer consumer ch p last db =
    if ltb p.offered_offset last
    then record db {
      consumers =
          update_where (of_consumer consumer ch) (λ q. record q { offered_offset = last })
            db.consumers;
    }
    else db

-- Facts of a successful read.
abbrev pub HasRead : ℕ → String → String → String → ℕ → ℕ → ℕ → Db → List Donation → Db → Type 0
HasRead now consumer ch gen after rev limit db ds db' =
    (c : Channel) × (p : Consumer) × (last : ℕ) × (find? (of_channel ch) db.channels ≡ some c)
    × (c.generation ≡ gen)
    × (c.expired_through ≤ after)
    × (after ≤ c.next_offset)
    × (let db1 = enroll consumer ch (scan_collection now db.grants c) db in
        (find? (of_consumer consumer ch) db1.consumers ≡ some p)
        × (p.generation ≡ gen)
        × (p.recovery_revision ≡ rev)
        × (p.baseline ≤ after)
        × (after ≤ p.offered_offset)
        × (read_loop after (page ch gen after (clamp_limit limit) db1.donations) ≡ ok (ds, last))
        × (db' ≡ offer consumer ch p last db1))

pub read_donations-inv :
    (now : ℕ) (consumer ch gen : String) (after rev limit : ℕ) (db : Db) (ds : List Donation)
    (state : CollectionState) (db' : Db)
    → read_donations now consumer ch gen after rev limit db ≡ ok ((ds, state), db')
    → HasRead now consumer ch gen after rev limit db ds db'
unfolding read_donations collection_state scan_collection progress offer
read_donations-inv now consumer ch gen after rev limit db ds state db' h =
    elim (Option-cases (find? (of_channel ch) db.channels)) [
      | inl missing ↦ absurd (ground arith)
      | inr (c, found) ↦
          let db1 = enroll consumer ch (scan_collection now db.grants c) db in
          elim (Option-cases (find? (of_consumer consumer ch) db1.consumers)) [
            | inl unknown ↦ absurd (ground arith)
            | inr (p, known) ↦
                elim (Result-cases
                  (read_loop after (page ch gen after (clamp_limit limit) db1.donations))) [
                    | inl (bad, e) ↦ absurd (ground arith)
                    | inr ((es, last), e) ↦ (
                      c,
                      p,
                      last,
                      found,
                      sym ((eq_iff gen c.generation).0 (ground arith)),
                      ground arith,
                      ground arith,
                      (
                        known,
                        (eq_iff p.generation gen).0 (ground arith),
                        ground arith,
                        ground arith,
                        ground arith,
                        ground arith,
                        ground arith,
                      ),
                    )
                  ]
          ]
    ]

AckFits-later :
    (p q : Consumer) (o : Option ℕ)
    → q.baseline ≡ p.baseline
    → p.offered_offset ≤ q.offered_offset
    → AckFits p o
    → AckFits q o
AckFits-later p q none b h k = tt
AckFits-later p q (some a) b h k = (omega arith, omega arith)

offer-IsSound :
    (consumer ch : String) (p : Consumer) (last : ℕ) (db : Db) (c : Channel)
    → find? (of_consumer consumer ch) db.consumers ≡ some p
    → find? (of_channel ch) db.channels ≡ some c
    → last ≤ c.next_offset
    → IsSoundDb db
    → IsSoundDb (offer consumer ch p last db)
unfolding offer
offer-IsSound consumer ch p last db c known found room sound =
    elim (Bool-cases (ltb p.offered_offset last)) [
      | inl moves ↦ rw moves (
          consumer-IsSound db.channels db.donations db.consumers sound consumer ch
            (λ q. record q { offered_offset = last }) (λ y t. t)
            λ y at.
              let same : p ≡ y = cc (known, at) in
              let o = sound.ordered consumer ch y at in
              let on : y.offered_offset ≤ last =
                subst (λ (q : Consumer). q.offered_offset ≤ last) same (ground arith) in
              (
                record {
                  start = omega (arith, o.start);
                  ack =
                      AckFits-later y (record y { offered_offset = last }) y.ack_offset refl on
                        o.ack;
                  rev = o.rev;
                },
                λ x have _.
                    let same_row : c ≡ x = cc (found, have) in
                    subst (λ (z : Channel). last ≤ z.next_offset) same_row room,
              ))
      | inr stays ↦ rw stays sound
    ]

-- Where the loop of a successful read ends.
HasRead-last :
    (now : ℕ) (consumer ch gen : String) (after rev limit : ℕ) (db : Db) (ds : List Donation)
    (db' : Db) (h : HasRead now consumer ch gen after rev limit db ds db')
    → IsSoundDb db
    → (h.2 ≡ min h.0.next_offset (after + clamp_limit limit)) × IsBatch ch gen after h.2 ds
HasRead-last now consumer ch gen after rev limit db ds db'
      (c, p, last, found, cg, low, high, (known, pg, pr, pb, po, looped, is)) sound =
    let rows = (enroll-channels consumer ch (scan_collection now db.grants c) db).1 in
    let (es, looped', batch) =
      read_page ch gen c.expired_through c.next_offset after (clamp_limit limit) db.donations
        (subst (λ g. IsRun c.expired_through c.next_offset (retained db.donations ch g)) cg
          (sound.run ch c found))
        low high (sound.bounded ch c found) in
    let same : ok (es, min c.next_offset (after + clamp_limit limit)) ≡ ok (ds, last) =
      sym looped'
      ∙ ap (λ r. read_loop after (page ch gen after (clamp_limit limit) r)) (sym rows)
      ∙ looped in
    let ends : last ≡ min c.next_offset (after + clamp_limit limit) = cc same in
    let lists : es ≡ ds = cc same in (ends, subst₂ (IsBatch ch gen after) (sym ends) lists batch)

-- A read keeps the journal sound: it offers nothing past the last offset.
pub HasRead-IsSound :
    (now : ℕ) (consumer ch gen : String) (after rev limit : ℕ) (db : Db) (ds : List Donation)
    (db' : Db)
    → HasRead now consumer ch gen after rev limit db ds db'
    → IsSoundDb db
    → IsSoundDb db'
HasRead-IsSound now consumer ch gen after rev limit db ds db' h sound =
    let ends = (HasRead-last now consumer ch gen after rev limit db ds db' h sound).0 in
    let (c, p, last, found, cg, low, high, (known, pg, pr, pb, po, looped, is)) = h in
    let channels = (enroll-channels consumer ch (scan_collection now db.grants c) db).0 in
    subst IsSoundDb (sym is) (
      offer-IsSound consumer ch p last (enroll consumer ch (scan_collection now db.grants c) db) c
        known (rw channels found) (omega (arith, ends))
        (enroll-IsSound consumer ch now db c found sound))

-- Facts of a decision that was taken anew.
abbrev pub Decided :
    Env
    → ℕ
    → String
    → String
    → String
    → String
    → String
    → ℕ
    → ℕ
    → String
    → Db
    → RecoveryDecision
    → Db
    → Type 0
Decided e now consumer ch key previous next resume expected request db d db' =
    (c : Channel) × (find? (of_channel ch) db.channels ≡ some c)
    × (decide_recovery e previous next resume expected request (scan_collection now db.grants c)
          (progress_or_new consumer ch previous db)
        ≡ ok d)
    × (db' ≡ record_decision e now consumer ch key request d db)

pub resolve_recovery-inv :
    (e : Env) (now : ℕ) (consumer ch key previous next : String) (resume expected : ℕ)
    (request : String) (db : Db) (d : RecoveryDecision) (db' : Db)
    → resolve_recovery e now consumer ch key previous next resume expected request db ≡ ok (d, db')
    → (db' ≡ db) ⊎ Decided e now consumer ch key previous next resume expected request db d db'
unfolding resolve_recovery collection_state request_result
resolve_recovery-inv e now consumer ch key previous next resume expected request db d db' h =
    elim (Option-cases (find? (of_channel ch) db.channels)) [
      | inl missing ↦ absurd (ground arith)
      | inr (c, found) ↦
          elim (Option-cases (find? (of_request consumer ch recovery_op key) db.requests)) [
            | inr (r, repeated) ↦ inl (ground arith)
            | inl new ↦
                elim (Result-cases (
                  decide_recovery e previous next resume expected request
                    (scan_collection now db.grants c) (progress_or_new consumer ch previous db))) [
                      | inl (bad, refused) ↦ absurd (ground arith)
                      | inr (b, decided) ↦ inr (c, found, ground arith, ground arith)
                    ]
          ]
    ]

-- What a decision guarantees about its own fields.
abbrev pub Decides : String → ℕ → ℕ → ℕ → CollectionState → RecoveryDecision → Type 0
Decides next resume expected n c d =
    (d.new_generation ≡ next)
    × (next ≡ c.generation)
    × (d.resume_from ≡ resume)
    × (c.expired_through ≤ resume)
    × (resume ≤ c.current)
    × (d.revision ≡ expected + 1)
    × (expected ≢ max_uint64)
    × (expected ≡ n)

pub decide_recovery-inv :
    (e : Env) (previous next : String) (resume expected : ℕ) (request : String)
    (c : CollectionState) (p : Consumer) (d : RecoveryDecision)
    → decide_recovery e previous next resume expected request c p ≡ ok d
    → Decides next resume expected p.recovery_revision c d
unfolding decide_recovery
decide_recovery-inv e previous next resume expected request c p d h = (
  ground arith,
  (eq_iff next c.generation).0 (ground arith),
  ground arith,
  ground arith,
  ground arith,
  ground arith,
  ground arith,
  ground arith,
)

restart-IsSound :
    (consumer ch next : String) (resume rev : ℕ) (db : Db) (c : Channel)
    → find? (of_channel ch) db.channels ≡ some c
    → resume ≤ c.next_offset
    → rev ≤ max_uint64
    → IsSoundDb db
    → IsSoundDb (restart_consumer consumer ch next resume rev db)
unfolding restart_consumer
restart-IsSound consumer ch next resume rev db c found room small sound =
    let row = consumer_at consumer ch next resume rev in
    let fit : IsFit db.channels db.donations db.consumers sound ch row = (
      consumer_at-IsOrdered consumer ch next resume rev small,
      unfold consumer_at in
          λ x at _.
            let same : c ≡ x = cc (found, at) in
            subst (λ (y : Channel). resume ≤ y.next_offset) same room,
    ) in
    elim (Bool-cases (is_some (find? (of_consumer consumer ch) db.consumers))) [
      | inl known ↦ rw known (
          consumer-IsSound db.channels db.donations db.consumers sound consumer ch (λ _. row)
            (λ y t. consumer_at-test consumer ch next resume rev) (λ y at. fit))
      | inr new ↦ rw new (
          new_consumer-IsSound db.channels db.donations db.consumers sound row
            (unfold consumer_at in fit))
    ]

progress_or_new-bounded :
    (consumer ch previous : String) (db : Db)
    → IsSoundDb db
    → (progress_or_new consumer ch previous db).recovery_revision ≤ max_uint64
unfolding progress_or_new consumer_at
progress_or_new-bounded consumer ch previous db sound =
    elim (Option-cases (find? (of_consumer consumer ch) db.consumers)) [
      | inl new ↦ rw (new, progress_or_new) (omega arith)
      | inr (p, known) ↦ rw (known, progress_or_new) (sound.ordered consumer ch p known).rev
    ]

pub Decided-IsSound :
    (e : Env) (now : ℕ) (consumer ch key previous next : String) (resume expected : ℕ)
    (request : String) (db : Db) (d : RecoveryDecision) (db' : Db)
    → Decided e now consumer ch key previous next resume expected request db d db'
    → IsSoundDb db
    → IsSoundDb db'
unfolding record_decision save_request scan_collection
Decided-IsSound e now consumer ch key previous next resume expected request db d db'
      (c, found, decided, is) sound =
    let (g, current, r, low, high, rev, last, known) =
      decide_recovery-inv e previous next resume expected request _ _ d decided in
    subst IsSoundDb (sym is) (
      restart-IsSound consumer ch d.new_generation d.resume_from d.revision db c found (omega arith)
        (omega (arith, progress_or_new-bounded consumer ch previous db sound)) sound)

pub resolve_recovery-IsSound :
    (e : Env) (now : ℕ) (consumer ch key previous next : String) (resume expected : ℕ)
    (request : String) (db : Db) (d : RecoveryDecision) (db' : Db)
    → resolve_recovery e now consumer ch key previous next resume expected request db ≡ ok (d, db')
    → IsSoundDb db
    → IsSoundDb db'
resolve_recovery-IsSound e now consumer ch key previous next resume expected request db d db' h
      sound =
    elim (resolve_recovery-inv e now consumer ch key previous next resume expected request db d db'
      h) [
        | inl same ↦ subst IsSoundDb (sym same) sound
        | inr x ↦
            Decided-IsSound e now consumer ch key previous next resume expected request db d db' x
              sound
      ]
