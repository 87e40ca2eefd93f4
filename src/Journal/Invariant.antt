-- ===== src/Journal/Invariant.antt =====
-- What is well-formed in the journal's tables, and how the single writes keep it.
use rogi_collector.Prelude.{
  ℕ, ◌+◌, ◌≤◌, ◌<◌, ◌≡◌, subst, String, Bool, Option, none, some, List, [], ◌∷◌, ◌++◌, arith, ltb,
  Bool-cases, inl, inr, max_uint64, find?, select, exists?, ◌==◌, false,
}
use rogi_collector.Journal.Model.{Donation, Channel, Row, Consumer, Db}
use rogi_collector.Journal.Grants.{of_channel}
use rogi_collector.Journal.Donations.{is_retained}
use rogi_collector.Journal.Consumers.{of_consumer}

-- The payload of a row tells the row's own channel, generation and offset.
abbrev pub Carries : Row → Option Donation → Type 0
Carries r none = ⊥
Carries r (some d) =
    (d.offset ≡ r.channel_offset) × (d.generation ≡ r.generation) × (d.channel_id ≡ r.channel_id)

-- The rows hold the offsets after `e` up to `n`, one each and in order.
abbrev pub IsRun : ℕ → ℕ → List Row → Type 0
IsRun e n [] = e ≡ n
IsRun e n (r ∷ rs) = (r.channel_offset ≡ e + 1) × Carries r r.payload × IsRun (e + 1) n rs

abbrev pub retained : List Row → String → String → List Row
retained rows ch gen = select (is_retained ch gen) rows

abbrev pub AckFits : Consumer → Option ℕ → Type 0
AckFits p none = Unit
AckFits p (some a) = (p.baseline < a) × (a ≤ p.offered_offset)

-- A consumer's cursors are in order.
pub record IsOrdered (p : Consumer) : Type 0 where
  pub start : p.baseline ≤ p.offered_offset
  pub ack : AckFits p p.ack_offset
  pub rev : p.recovery_revision ≤ max_uint64

-- Soundness reads three of the tables.
pub record IsSound (cs : List Channel) (rows : List Row) (ps : List Consumer) : Type 0 where
  -- The retained payloads of a channel are exactly the offsets that have not expired.
  pub run :
      (ch : String) (c : Channel)
      → find? (of_channel ch) cs ≡ some c
      → IsRun c.expired_through c.next_offset (retained rows ch c.generation)
  pub bounded :
      (ch : String) (c : Channel) → find? (of_channel ch) cs ≡ some c → c.next_offset ≤ max_uint64
  pub ordered :
      (consumer ch : String) (p : Consumer)
      → find? (of_consumer consumer ch) ps ≡ some p
      → IsOrdered p
  -- Nothing past the last offset was offered.
  pub offered :
      (consumer ch : String) (p : Consumer) (c : Channel)
      → find? (of_consumer consumer ch) ps ≡ some p
      → find? (of_channel ch) cs ≡ some c
      → p.generation ≡ c.generation
      → p.offered_offset ≤ c.next_offset

abbrev pub IsSoundDb : Db → Type 0
IsSoundDb db = IsSound db.channels db.donations db.consumers

-- A UUID that no row of the journal has as its generation.
abbrev pub IsFresh : String → Db → Type 0
IsFresh u db =
    (exists? (λ r. r.generation == u) db.donations ≡ false)
    × (exists? (λ p. p.generation == u) db.consumers ≡ false)

pub IsRun-le : (e n : ℕ) (rs : List Row) → IsRun e n rs → e ≤ n
IsRun-le e n [] h = omega arith
IsRun-le e n (r ∷ rs) h = omega (arith, IsRun-le (e + 1) n rs h.2)

pub IsRun-append :
    (e n : ℕ) (rs : List Row) (r : Row)
    → IsRun e n rs
    → r.channel_offset ≡ n + 1
    → Carries r r.payload
    → IsRun e (n + 1) (rs ++ r ∷ [])
IsRun-append e n [] r h k c = (omega arith, c, omega arith)
IsRun-append e n (s ∷ rs) r h k c = (h.0, h.1, IsRun-append (e + 1) n rs r h.2 k c)

-- The rows of a run that stay when those up to `m` lose their payload.
abbrev pub above : ℕ → Row → Bool
above m r = ltb m r.channel_offset

IsRun-all : (e n m : ℕ) (rs : List Row) → IsRun e n rs → m ≤ e → IsRun e n (select (above m) rs)
unfolding select
IsRun-all e n m [] h k = h
IsRun-all e n m (r ∷ rs) h k = elim (Bool-cases (above m r)) [
  | inl stays ↦ rw stays (h.0, h.1, IsRun-all (e + 1) n m rs h.2 (omega arith))
  | inr goes ↦ absurd (ground arith)
]

pub IsRun-above :
    (e n m : ℕ) (rs : List Row) → IsRun e n rs → e ≤ m → m ≤ n → IsRun m n (select (above m) rs)
unfolding select
IsRun-above e n m [] h a b = omega arith
IsRun-above e n m (r ∷ rs) h a b = elim (Bool-cases (above m r)) [
  | inl stays ↦
      rw stays (ground arith, h.1, IsRun-all (m + 1) n m rs (tail (ground arith)) (omega arith))
  | inr goes ↦ rw goes (IsRun-above (e + 1) n m rs h.2 (ground arith) b)
]
  where
    tail : e ≡ m → IsRun (m + 1) n rs
    tail same = subst (λ k. IsRun (k + 1) n rs) same h.2
