-- ===== src/Journal/Delivery.antt =====
-- What a consumer may rely on: the reads, the acknowledgements and the recovery decisions of
-- shared/store/collector_consumer.go.
use rogi_collector.Prelude.{
  ℕ, ◌+◌, ◌≤◌, ◌<◌, ◌≡◌, refl, sym, subst, ◌∙◌, inl, inr, String, Bool, true, false, ◌&&◌, some,
  List, [], ◌∷◌, arith, ltb, leb, if◌then◌else◌, Bool-cases, Result-cases, find?, exists?, eq_iff,
  max_uint64, ok, find?-update_where, find?-test,
}
use rogi_collector.Journal.Model.{Channel, Consumer, RecoveryDecision, LossRange, Db, Env}
use rogi_collector.Journal.Grants.{CollectionState, of_channel}
use rogi_collector.Journal.Consumers.{
  of_consumer, acked_past, ack_donations, cover, check_loss, decide_recovery, old_offset,
}
use rogi_collector.Journal.Reading.{ack_donations-inv, decide_recovery-inv}

-- The consumer's row and its channel's row, with cursors that fit a read from `after`.
abbrev pub MayRead : String → String → Channel → Consumer → ℕ → Db → Type 0
MayRead consumer ch c p after db =
    (find? (of_channel ch) db.channels ≡ some c)
    × (find? (of_consumer consumer ch) db.consumers ≡ some p)
    × (p.generation ≡ c.generation)
    × (c.expired_through ≤ after)
    × (p.baseline ≤ after)
    × (after ≤ p.offered_offset)

-- The cursor of a consumer as an acknowledgement leaves it.
abbrev pub ack_row : ℕ → Consumer → Consumer
ack_row offset p = record p { ack_offset = some offset }

old :
    (p : Consumer) {offset : ℕ}
    → p.baseline < offset
    → acked_past p.ack_offset offset ≡ false
    → old_offset p ≤ offset
old p h k = ground arith

-- An accepted acknowledgement lies above the consumer's baseline, at or below what was offered,
-- and not below the previous acknowledgement; it is for the channel's generation and the
-- consumer's revision, and it writes that one offset in that one row.
pub ack_monotone :
    (now : ℕ) (consumer ch gen : String) (offset rev : ℕ) (db db' : Db)
    → ack_donations now consumer ch gen offset rev db ≡ ok db'
    → (p : Consumer) × (find? (of_consumer consumer ch) db.consumers ≡ some p)
      × (find? (of_consumer consumer ch) db'.consumers ≡ some (ack_row offset p))
      × (p.baseline < offset)
      × (old_offset p ≤ offset)
      × (offset ≤ p.offered_offset)
      × (p.generation ≡ gen)
      × (p.recovery_revision ≡ rev)
      × (db'.donations ≡ db.donations)
      × (db'.channels ≡ db.channels)
ack_monotone now consumer ch gen offset rev db db' h =
    let (c, p, found, known, cg, pg, pr, low, above, below, later, is) =
      ack_donations-inv now consumer ch gen offset rev db db' h in
    (
      p,
      known,
      subst (λ (d : Db). find? (of_consumer consumer ch) d.consumers ≡ some (ack_row offset p))
          (sym is)
          (find?-update_where (of_consumer consumer ch) (of_consumer consumer ch) (ack_row offset)
              db.consumers p (λ z t. refl) known
            ∙ rw (find?-test (of_consumer consumer ch) db.consumers p known)),
      above,
      old p above later,
      below,
      pg,
      pr,
      ground arith,
      ground arith,
    )

-- One declared range reaches an offset.
abbrev pub within : ℕ → LossRange → Bool
within x r = leb r.start_offset x && leb x r.end_offset

cover-within :
    (gen : String) (covered end x : ℕ) (rs : List LossRange)
    → cover gen covered rs ≡ ok end
    → covered < x
    → x ≤ end
    → end ≤ max_uint64
    → exists? (within x) rs ≡ true
unfolding cover exists?
cover-within gen covered end x [] h low high room = absurd (ground arith)
cover-within gen covered end x (r ∷ rs) h low high room = elim (Bool-cases (within x r)) [
  | inl here ↦ rw here
  | inr not_here ↦ ground (
    arith,
    cover-within gen (if ltb covered r.end_offset then r.end_offset else covered) end x rs,
  )
]

decided :
    (e : Env) (gen : String) (resume expected : ℕ) (request : String) (c : CollectionState)
    (p : Consumer) (d : RecoveryDecision)
    → decide_recovery e gen gen resume expected request c p ≡ ok d
    → check_loss e gen gen (old_offset p) resume request ≡ ok tt
unfolding decide_recovery
decided e gen resume expected request c p d h =
    elim (Result-cases (check_loss e gen gen (old_offset p) resume request)) [
      | inl (bad, refused) ↦ absurd (ground arith)
      | inr (_, passed) ↦ passed
    ]

loss_checked :
    (e : Env) (gen : String) (old_at resume : ℕ) (request : String) (ranges : List LossRange)
    → check_loss e gen gen old_at resume request ≡ ok tt
    → e.loss_ranges request ≡ some ranges
    → old_at < resume
    → cover gen old_at ranges ≡ ok resume
unfolding check_loss
loss_checked e gen old_at resume request ranges h declared skips =
    elim (Result-cases (cover gen old_at ranges)) [
      | inl (bad, refused) ↦ absurd (ground (arith, (eq_iff gen gen).1 refl))
      | inr (m, reached) ↦ ground (arith, (eq_iff gen gen).1 refl)
    ]

loss_forward :
    (e : Env) (gen : String) (old_at resume : ℕ) (request : String)
    → check_loss e gen gen old_at resume request ≡ ok tt
    → old_at ≤ resume
unfolding check_loss
loss_forward e gen old_at resume request h = ground (arith, (eq_iff gen gen).1 refl)

-- A recovery decision within one generation never moves a consumer back: it resumes at or after
-- its acknowledgement (or baseline) and within the channel's retained offsets, for the revision
-- that it expected, and counts the revision up.
pub recovery_forward :
    (e : Env) (gen : String) (resume expected : ℕ) (request : String) (c : CollectionState)
    (p : Consumer) (d : RecoveryDecision)
    → decide_recovery e gen gen resume expected request c p ≡ ok d
    → (old_offset p ≤ d.resume_from)
      × (c.expired_through ≤ d.resume_from)
      × (d.resume_from ≤ c.current)
      × (d.revision ≡ p.recovery_revision + 1)
      × (c.generation ≡ gen)
recovery_forward e gen resume expected request c p d h =
    let (g, current, r, low, high, rev, last, known) =
      decide_recovery-inv e gen gen resume expected request c p d h in
    let forward =
      loss_forward e gen (old_offset p) resume request
        (decided e gen resume expected request c p d h) in
    (omega arith, omega arith, omega arith, omega arith, sym current)

-- Where a recovery decision within one generation skips an offset that was neither acknowledged
-- nor below the baseline, one of the loss ranges that the request declares reaches that offset.
pub recovery_covered :
    (e : Env) (gen : String) (resume expected : ℕ) (request : String) (c : CollectionState)
    (p : Consumer) (d : RecoveryDecision) (ranges : List LossRange) (x : ℕ)
    → c.current ≤ max_uint64
    → decide_recovery e gen gen resume expected request c p ≡ ok d
    → e.loss_ranges request ≡ some ranges
    → old_offset p < x
    → x ≤ d.resume_from
    → exists? (within x) ranges ≡ true
recovery_covered e gen resume expected request c p d ranges x room h declared after upto =
    let (g, current, r, low, high, rev, last, known) =
      decide_recovery-inv e gen gen resume expected request c p d h in
    let skips =
      loss_checked e gen (old_offset p) resume request ranges
        (decided e gen resume expected request c p d h) declared in
    cover-within gen (old_offset p) resume x ranges (skips (omega arith)) after (omega arith)
      (omega arith)
