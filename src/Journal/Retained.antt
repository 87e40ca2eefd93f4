-- ===== src/Journal/Retained.antt =====
-- How the writes to the donations' table change the retained rows of a channel.
use rogi_collector.Prelude.{
  ℕ, ◌+◌, ◌≡◌, ◌≢◌, refl, inl, inr, String, Bool, true, false, ◌&&◌, Option, none, some, List, [],
  ◌∷◌, arith, ◌==◌, if◌then◌else◌, Bool-cases, select, update_where, exists?, eq_iff,
  select-update_where_ne,
}
use rogi_collector.Journal.Model.{Donation, Row}
use rogi_collector.Journal.Donations.{is_retained, drops}
use rogi_collector.Journal.Maintenance.{relabel}
use rogi_collector.Journal.Invariant.{Carries, IsRun, retained, above}

abbrev pub clear : Row → Row
clear r = record r { payload = none }

-- A drop through `m` leaves the rows above `m`.
pub retained-drop :
    (ch gen : String) (m : ℕ) (rows : List Row)
    → retained (update_where (drops ch gen m) clear rows) ch gen
      ≡ select (above m) (retained rows ch gen)
unfolding select update_where
retained-drop ch gen m [] = refl
retained-drop ch gen m (r ∷ rows) = ground (arith, retained-drop ch gen m rows)

-- The rows of another channel stay.
pub retained-drop_ne :
    (ch gen k g : String) (m : ℕ) (rows : List Row)
    → k ≢ ch
    → retained (update_where (drops ch gen m) clear rows) k g ≡ retained rows k g
retained-drop_ne ch gen k g m rows other =
    select-update_where_ne (is_retained k g) (drops ch gen m) clear rows λ r h. (
      ground (arith, eq_iff r.channel_id ch, eq_iff r.channel_id k),
      ground (arith, eq_iff r.channel_id ch, eq_iff r.channel_id k),
    )

abbrev pub rotates : String → String → Row → Bool
rotates ch gen r = (r.channel_id == ch) && (r.generation == gen)

module _ (ch gen next : String) (r : Row) where
  rotate_in :
      is_retained ch gen r ≡ true
      → (rotates ch gen r ≡ true) × (is_retained ch next (relabel next r) ≡ true)
  unfolding relabel
  rotate_in h = (ground arith, ground (arith, eq_iff next next))

  rotate_out :
      is_retained ch gen r ≡ false
      → (r.generation == next) ≡ false
      → is_retained ch next (if rotates ch gen r then relabel next r else r) ≡ false
  unfolding relabel
  rotate_out h fresh = ground arith

  Carries-relabel :
      (o : Option Donation)
      → r.payload ≡ o
      → Carries r o
      → Carries (relabel next r) (relabel next r).payload
  unfolding relabel
  Carries-relabel none e c = absurd c
  Carries-relabel (some d) e c = rw e (c.0, refl, c.2)

-- The rows of a channel keep their offsets under a new generation.
pub IsRun-rotate :
    (ch gen next : String) (e n : ℕ) (rows : List Row)
    → exists? (λ r. r.generation == next) rows ≡ false
    → IsRun e n (retained rows ch gen)
    → IsRun e n (retained (update_where (rotates ch gen) (relabel next) rows) ch next)
unfolding select update_where exists? relabel
IsRun-rotate ch gen next e n [] fresh h = h
IsRun-rotate ch gen next e n (r ∷ rows) fresh h = elim (Bool-cases (is_retained ch gen r)) [
  | inl k ↦
      let (turned, kept) = rotate_in ch gen next r k in
      let head = rw k at h in
      rw (turned, kept)
        (
          head.0,
          Carries-relabel ch gen next r r.payload refl head.1,
          IsRun-rotate ch gen next (e + 1) n rows (ground arith) head.2,
        )
  | inr k ↦
      rw (rotate_out ch gen next r k (ground arith))
        (IsRun-rotate ch gen next e n rows (ground arith) (rw k at h))
]

pub retained-rotate_ne :
    (ch gen next k g : String) (rows : List Row)
    → k ≢ ch
    → retained (update_where (rotates ch gen) (relabel next) rows) k g ≡ retained rows k g
unfolding relabel
retained-rotate_ne ch gen next k g rows other =
    select-update_where_ne (is_retained k g) (rotates ch gen) (relabel next) rows λ r h. (
      ground (arith, eq_iff r.channel_id ch, eq_iff r.channel_id k),
      ground (arith, eq_iff r.channel_id ch, eq_iff r.channel_id k),
    )
