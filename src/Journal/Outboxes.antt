-- ===== src/Journal/Outboxes.antt =====
-- The outbox (DispatchDonationOutbox of shared/store/collector_consumer.go) delivers at least once.
use rogi_collector.Prelude.{
  ℕ, suc, ◌≡◌, refl, sym, ap, ◌∙◌, inl, inr, String, Bool, true, false, not, List, [], ◌∷◌, map,
  arith, ◌==◌, Bool-cases, select, exists?, take, drop, ◌⊎◌, order_by, All,
}
use rogi_collector.Journal.Model.{Outbox, Db}
use rogi_collector.Journal.Consumers.{dispatch_loop, dispatch_outbox}

abbrev pub pending : Db → List Outbox
pending db = take 100 (order_by (λ o. o.created_at) db.outbox)

-- The entries that are not among those that were told.
abbrev pub kept : List Outbox → Outbox → Bool
kept told o = not (exists? (λ r. o.event_id == r.event_id) told)

-- How a dispatch ends: all entries were told and removed, or the next entry was not told, or it
-- was told but not removed.
abbrev pub End : (Outbox → Bool) → (Outbox → Bool) → List Outbox → ℕ → ℕ → Bool → Type 0
End notify deletes rs told gone fine =
    (fine ≡ true) × (told ≡ gone) × (take gone rs ≡ rs)
    ⊎ (fine ≡ false)
      × ((r : Outbox) × (rest : List Outbox) × (drop gone rs ≡ r ∷ rest)
          × ((told ≡ gone) × (notify r ≡ false)
              ⊎ (told ≡ suc gone) × (notify r ≡ true) × (deletes r ≡ false)))

abbrev pub Dispatched :
    (Outbox → Bool) → (Outbox → Bool) → List Outbox → Db → List String → Bool → Db → Type 0
Dispatched notify deletes rs db told fine db' =
    (n m : ℕ) × (told ≡ map (λ r. r.channel_id) (take n rs))
    × All (λ r. notify r ≡ true) (take n rs)
    × All (λ r. deletes r ≡ true) (take m rs)
    × (db' ≡ record db { outbox = select (kept (take m rs)) db.outbox })
    × End notify deletes rs n m fine

select-all : (xs : List Outbox) → select (kept []) xs ≡ xs
unfolding select exists?
select-all [] = refl
select-all (x ∷ xs) = ap (◌∷◌ x) (select-all xs)

select-kept :
    (r : Outbox) (told xs : List Outbox)
    → select (kept told) (select (λ o. not (o.event_id == r.event_id)) xs)
      ≡ select (kept (r ∷ told)) xs
unfolding select exists?
select-kept r told [] = refl
select-kept r told (x ∷ xs) = ground (arith, select-kept r told xs)

longer :
    (r : Outbox) (notify deletes : Outbox → Bool) (rs : List Outbox) (n m : ℕ) {fine : Bool}
    → End notify deletes rs n m fine
    → End notify deletes (r ∷ rs) (suc n) (suc m) fine
longer r notify deletes rs n m (inl (e, same, all)) = inl (e, ap suc same, ap (◌∷◌ r) all)
longer r notify deletes rs n m (inr (e, (x, rest, is, inl (same, failed)))) =
    inr (e, (x, rest, is, inl (ap suc same, failed)))
longer r notify deletes rs n m (inr (e, (x, rest, is, inr (more, heard, failed)))) =
    inr (e, (x, rest, is, inr (ap suc more, heard, failed)))

loop-Dispatched :
    (notify deletes : Outbox → Bool) (rs : List Outbox) (db : Db)
    → (let r = dispatch_loop notify deletes rs db in Dispatched notify deletes rs db r.0 r.1 r.2)
unfolding dispatch_loop
loop-Dispatched notify deletes [] db = (
  0,
  0,
  refl,
  tt,
  tt,
  ap (λ o. record db { outbox = o }) (sym (select-all db.outbox)),
  inl (refl, refl, refl),
)
loop-Dispatched notify deletes (r ∷ rs) db =
    let left = ap (λ o. record db { outbox = o }) (sym (select-all db.outbox)) in
    elim (Bool-cases (notify r)) [
      | inr failed ↦
          rw failed (0, 0, refl, tt, tt, left, inr (refl, (r, rs, refl, inl (refl, failed))))
      | inl told_r ↦ elim (Bool-cases (deletes r)) [
        | inr stuck ↦
            rw (told_r, stuck)
              (
                1,
                0,
                refl,
                (told_r, tt),
                tt,
                left,
                inr (refl, (r, rs, refl, inr (refl, told_r, stuck))),
              )
        | inl gone ↦
            let (n, m, told, all_told, all_gone, is, whole) =
              loop-Dispatched notify deletes rs
                (record db { outbox = select (λ o. not (o.event_id == r.event_id)) db.outbox }) in
            rw (told_r, gone)
              (
                suc n,
                suc m,
                ap (◌∷◌ r.channel_id) told,
                (told_r, all_told),
                (gone, all_gone),
                is ∙ ap (λ o. record db { outbox = o }) (select-kept r (take m rs) db.outbox),
                longer r notify deletes rs n m whole,
              )
      ]
    ]

-- One dispatch tells the channels of the oldest hundred entries in their order of creation, up to
-- the first notification or deletion that fails. It removes exactly the entries that it told,
-- except the last where its deletion failed: that one is told and stays. It reports success only if
-- all of the hundred were told and removed.
pub dispatch_exact :
    (notify deletes : Outbox → Bool) (db : Db)
    → (let r = dispatch_outbox notify deletes db in
        Dispatched notify deletes (pending db) db r.0 r.1 r.2)
unfolding dispatch_outbox
dispatch_exact notify deletes db = loop-Dispatched notify deletes (pending db) db
