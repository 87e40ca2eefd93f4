-- ===== src/Journal/Batch.antt =====
-- What one page of a sound journal holds: the offsets after the cursor, without a gap.
use rogi_collector.Prelude.{
  ℕ, zero, suc, ◌+◌, ◌≤◌, ◌≡◌, refl, ap, subst, ◌∙◌, String, true, Option, none, some, List, [],
  ◌∷◌, min, arith, nat_eq, ok, order_by, take, All, eq_iff, max_uint64, select-and, All-select,
  All-select_of, All-take, All-map, ◌%◌, ◌^◌, order_by-cons, insert_by, insert_by-le,
}
use rogi_collector.Journal.Model.{Donation, Row}
use rogi_collector.Journal.Donations.{is_retained, order_by_offset}
use rogi_collector.Journal.Consumers.{read_loop, page}
use rogi_collector.Journal.Invariant.{Carries, IsRun, IsRun-le, IsRun-above, above, retained}

-- The donations have the offsets after `e` up to `n`, one each and in order, under one label.
abbrev pub IsBatch : String → String → ℕ → ℕ → List Donation → Type 0
IsBatch ch gen e n [] = e ≡ n
IsBatch ch gen e n (d ∷ ds) =
    (d.offset ≡ e + 1) × (d.generation ≡ gen) × (d.channel_id ≡ ch) × IsBatch ch gen (e + 1) n ds

abbrev IsOf : String → String → Row → Type 0
IsOf ch gen r = (r.channel_id ≡ ch) × (r.generation ≡ gen)

pub order_by-run : (e n : ℕ) (rs : List Row) → IsRun e n rs → order_by_offset rs ≡ rs
unfolding order_by
order_by-run e n [] h = refl
order_by-run e n (r ∷ []) h = refl
order_by-run e n (r ∷ s ∷ rs) h =
    order_by-cons (λ (x : Row). x.channel_offset) r (s ∷ rs)
    ∙ ap (insert_by (λ x. x.channel_offset) r) (order_by-run (e + 1) n (s ∷ rs) h.2)
    ∙ insert_by-le (λ x. x.channel_offset) r s rs (omega arith)

IsRun-take : (k e n : ℕ) (rs : List Row) → IsRun e n rs → IsRun e (min n (e + k)) (take k rs)
IsRun-take zero e n rs h = omega (arith, IsRun-le e n rs h)
IsRun-take (suc k) e n [] h = omega arith
IsRun-take (suc k) e n (r ∷ rs) h = (
  h.0,
  h.1,
  subst (λ m. IsRun (e + 1) m (take k rs)) (omega arith) (IsRun-take k (e + 1) n rs h.2),
)

read_loop-run :
    (ch gen : String) (e n : ℕ) (rs : List Row)
    → IsRun e n rs
    → All (IsOf ch gen) rs
    → n ≤ max_uint64
    → (ds : List Donation) × (read_loop e rs ≡ ok (ds, n)) × IsBatch ch gen e n ds
unfolding read_loop
read_loop-run ch gen e n [] h of room = ([], ap (λ k. ok ([], k)) h, h)
read_loop-run ch gen e n (r ∷ rs) h of room =
    go r.payload refl h.1 (read_loop-run ch gen (e + 1) n rs h.2 of.1 room)
  where
    go :
        (o : Option Donation)
        → r.payload ≡ o
        → Carries r o
        → ((ds : List Donation) × (read_loop (e + 1) rs ≡ ok (ds, n)) × IsBatch ch gen (e + 1) n ds)
        → (ds : List Donation) × (read_loop e (r ∷ rs) ≡ ok (ds, n)) × IsBatch ch gen e n ds
    go none is c rest = absurd c
    go (some d) is c (ds, onward, batch) =
        let here : d.offset ≡ e + 1 = omega arith in
        let fits : nat_eq d.offset ((e + 1) % 2 ^ 64) ≡ true =
          ground (arith, IsRun-le (e + 1) n rs h.2) in
        (
          d ∷ ds,
          rw (is, read_loop) (rw (fits, here, onward)),
          (here, c.1 ∙ of.0.1, c.2 ∙ of.0.0, batch),
        )

module _ (ch gen : String) (e n after limit : ℕ) (rows : List Row) where
  -- The retained rows after a cursor, in the order of the query.
  page-IsRun :
      IsRun e n (retained rows ch gen)
      → e ≤ after
      → after ≤ n
      → IsRun after (min n (after + limit)) (page ch gen after limit rows)
  unfolding page
  page-IsRun h low high =
      let kept = IsRun-above e n after (retained rows ch gen) h low high in
      rw (select-and (is_retained ch gen) (above after) rows, order_by-run after n _ kept)
        (IsRun-take limit after n _ kept)

  page-IsOf :
      IsRun e n (retained rows ch gen)
      → e ≤ after
      → after ≤ n
      → All (IsOf ch gen) (page ch gen after limit rows)
  unfolding page
  page-IsOf h low high =
      let kept = IsRun-above e n after (retained rows ch gen) h low high in
      rw (select-and (is_retained ch gen) (above after) rows, order_by-run after n _ kept)
        (All-take (IsOf ch gen) limit _ (
          All-select_of (IsOf ch gen) (above after) _ (
            All-map
              (λ r t. (
                (eq_iff r.channel_id ch).0 (ground arith),
                (eq_iff r.generation gen).0 (ground arith),
              ))
              _ (All-select (is_retained ch gen) rows))))

  -- Reading a page of a sound journal never meets a gap.
  pub read_page :
      IsRun e n (retained rows ch gen)
      → e ≤ after
      → after ≤ n
      → n ≤ max_uint64
      → (ds : List Donation) × (read_loop after (page ch gen after limit rows)
          ≡ ok (ds, min n (after + limit)))
        × IsBatch ch gen after (min n (after + limit)) ds
  read_page h low high room =
      read_loop-run ch gen after _ _ (page-IsRun h low high) (page-IsOf h low high) (omega arith)
