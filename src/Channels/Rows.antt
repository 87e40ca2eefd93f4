-- ===== src/Channels/Rows.antt =====
-- Rows that are found again by their own ID and by their own channel, and lists of such rows.
use rogi_collector.Prelude.{
  exists?-map, ℕ, ◌≡◌, refl, sym, ◌∙◌, ap, inl, inr, Bool, true, false, some, List, [], ◌∷◌, map,
  arith, nat_eq, find?, exists?, exists?-find?, All, Bool-cases, if-holds, eq_iff,
}
use rogi_collector.Channels.Model.{ChannelRow, has_key, has_id, int_leb}
use rogi_collector.Channels.Queries.{insert_viewers, by_viewers}
use rogi_collector.Channels.Laws.{Distinct, exists?-All, All-zip}
use rogi_collector.Channels.Sound.{Key, key_of, same_id, same_channel, AreKeys}

module _ {ℓ κ} {A : Type ℓ} {B : Type κ} where
  -- A row that is found is found by what sets it apart.
  pub find?-Distinct :
      (same : B → B → Bool) (g : A → B) (p : A → Bool) (xs : List A) (r : A)
      → ((b : B) → same b b ≡ true)
      → Distinct same (map g xs)
      → find? p xs ≡ some r
      → find? (λ x. same (g x) (g r)) xs ≡ some r
  unfolding find?
  find?-Distinct same g p [] r self d h = cc
  find?-Distinct same g p (x ∷ xs) r self d h = elim (Bool-cases (p x)) [
    | inl e ↦ let is : x ≡ r = ground arith in rw (is, self (g r)) refl
    | inr e ↦
        let there : find? p xs ≡ some r = ground arith in
        let apart : same (g x) (g r) ≡ false =
          exists?-find? p (λ y. same (g x) (g y)) xs r (sym (exists?-map (same (g x)) g xs) ∙ d.0)
            there in
        rw apart (find?-Distinct same g p xs r self d.1 there)
  ]

-- Where a row stands under its ID and under its channel.
pub record IsRow (rows : List ChannelRow) (r : ChannelRow) : Type 0 where
  pub by_id : find? (has_id r.id) rows ≡ some r
  pub by_key : find? (has_key r.platform r.channel_id) rows ≡ some r

same_id_refl : (k : Key) → same_id k k ≡ true
same_id_refl k = ground arith

same_channel_refl : (k : Key) → same_channel k k ≡ true
same_channel_refl k = rw ((eq_iff k.1 k.1).1 refl, (eq_iff k.2 k.2).1 refl) refl

pub find?-IsRow :
    (n : ℕ) (rows : List ChannelRow) (p : ChannelRow → Bool) (r : ChannelRow)
    → AreKeys n (map key_of rows)
    → find? p rows ≡ some r
    → IsRow rows r
find?-IsRow n rows p r k h = record {
  by_id = find?-Distinct same_id key_of p rows r same_id_refl k.ids h;
  by_key = find?-Distinct same_channel key_of p rows r same_channel_refl k.channels h;
}

-- Two rows of an ID are one.
pub IsRow-unique :
    (rows : List ChannelRow) (r s : ChannelRow)
    → IsRow rows r
    → IsRow rows s
    → nat_eq s.id r.id ≡ true
    → s ≡ r
IsRow-unique rows r s a b e =
    let same : s.id ≡ r.id = ground arith in
    some_inj (sym b.by_id ∙ ap (λ (n : ℕ). find? (has_id n) rows) same ∙ a.by_id)
  where
    some_inj : {x y : ChannelRow} → some x ≡ some y → x ≡ y
    some_inj h = ground arith

-- Every row stands under its own ID and channel.
module _ {ℓ κ} {A : Type ℓ} {B : Type κ} where
  pub All-Distinct :
      (same : B → B → Bool) (g : A → B) (xs : List A)
      → ((b : B) → same b b ≡ true)
      → Distinct same (map g xs)
      → All (λ (r : A). find? (λ x. same (g x) (g r)) xs ≡ some r) xs
  unfolding find?
  All-Distinct same g [] self d = tt
  All-Distinct same g (x ∷ xs) self d = (
    rw (self (g x)) refl,
    All-zip (λ (r : A). same (g x) (g r) ≡ false)
        (λ (r : A). find? (λ y. same (g y) (g r)) xs ≡ some r) _ xs
        (λ r apart there. rw apart there)
        (exists?-All (λ r. same (g x) (g r)) xs (sym (exists?-map (same (g x)) g xs) ∙ d.0))
        (All-Distinct same g xs self d.1),
  )

pub All-IsRow :
    (n : ℕ) (rows : List ChannelRow) → AreKeys n (map key_of rows) → All (IsRow rows) rows
All-IsRow n rows k =
    All-zip (λ r. find? (has_id r.id) rows ≡ some r)
      (λ r. find? (has_key r.platform r.channel_id) rows ≡ some r) (IsRow rows) rows
      (λ r a b. record { by_id = a; by_key = b })
      (All-Distinct same_id key_of rows same_id_refl k.ids)
      (All-Distinct same_channel key_of rows same_channel_refl k.channels)

-- The order by viewers keeps the rows.
All-insert_viewers :
    (P : ChannelRow → Type 0) (r : ChannelRow) (rs : List ChannelRow)
    → P r
    → All P rs
    → All P (insert_viewers r rs)
unfolding insert_viewers
All-insert_viewers P r [] h k = (h, tt)
All-insert_viewers P r (s ∷ ss) h k =
    if-holds (All P) (int_leb s.viewer_count r.viewer_count) _ _ (h, k)
      (k.0, All-insert_viewers P r ss h k.1)

pub All-by_viewers :
    (P : ChannelRow → Type 0) (rs : List ChannelRow) → All P rs → All P (by_viewers rs)
unfolding by_viewers
All-by_viewers P [] h = tt
All-by_viewers P (r ∷ rs) h = All-insert_viewers P r (by_viewers rs) h.0 (All-by_viewers P rs h.1)

exists?-insert_viewers :
    (p : ChannelRow → Bool) (r : ChannelRow) (rs : List ChannelRow)
    → p r ≡ false
    → exists? p rs ≡ false
    → exists? p (insert_viewers r rs) ≡ false
unfolding insert_viewers exists?
exists?-insert_viewers p r [] h k = rw h refl
exists?-insert_viewers p r (s ∷ ss) h k =
    if-holds (λ (rs : List ChannelRow). exists? p rs ≡ false)
      (int_leb s.viewer_count r.viewer_count) _ _ (rw h k)
      (ground (arith, exists?-insert_viewers p r ss h))

abbrev pub same_row : ChannelRow → ChannelRow → Bool
same_row a b = nat_eq a.id b.id

Distinct-insert_viewers :
    (r : ChannelRow) (rs : List ChannelRow)
    → exists? (same_row r) rs ≡ false
    → Distinct same_row rs
    → Distinct same_row (insert_viewers r rs)
unfolding insert_viewers exists?
Distinct-insert_viewers r [] h d = (refl, tt)
Distinct-insert_viewers r (s ∷ ss) h d =
    if-holds (Distinct same_row) (int_leb s.viewer_count r.viewer_count) _ _ (h, d)
      (
        exists?-insert_viewers (same_row s) r ss (ground arith) d.0,
        Distinct-insert_viewers r ss (ground arith) d.1,
      )

exists?-by_viewers :
    (p : ChannelRow → Bool) (rs : List ChannelRow)
    → exists? p rs ≡ false
    → exists? p (by_viewers rs) ≡ false
unfolding by_viewers exists?
exists?-by_viewers p [] h = refl
exists?-by_viewers p (r ∷ rs) h =
    exists?-insert_viewers p r (by_viewers rs) (ground arith)
      (exists?-by_viewers p rs (ground arith))

pub Distinct-by_viewers :
    (rs : List ChannelRow) → Distinct same_row rs → Distinct same_row (by_viewers rs)
unfolding by_viewers
Distinct-by_viewers [] d = tt
Distinct-by_viewers (r ∷ rs) d =
    Distinct-insert_viewers r (by_viewers rs) (exists?-by_viewers (same_row r) rs d.0)
      (Distinct-by_viewers rs d.1)
