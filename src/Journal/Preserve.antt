-- ===== src/Journal/Preserve.antt =====
-- How each kind of write to the journal's tables keeps them sound.
use mathlib.Core.Path.{ap₂, subst₂, subst₃}
use rogi_collector.Prelude.{
  ℕ, ◌+◌, ◌≤◌, ◌<◌, ◌≡◌, ◌≢◌, refl, sym, ap, subst, ◌∙◌, inl, inr, String, Bool, true, false, ◌&&◌,
  Option, none, some, List, [], ◌∷◌, ◌++◌, arith, ◌==◌, is_some, Bool-cases, max_uint64, find?,
  select, update_where, exists?, eq_iff, find?-test, find?-append_inv, find?-update_where_inv,
  select-select_ne, select-append_true, select-append_false, select-none, exists?-weaken,
  exists?-find?,
}
use rogi_collector.Journal.Model.{Donation, Channel, Row, Consumer}
use rogi_collector.Journal.Grants.{of_channel}
use rogi_collector.Journal.Donations.{is_retained, drops}
use rogi_collector.Journal.Maintenance.{relabel}
use rogi_collector.Journal.Retained.{
  rotates, retained-drop, retained-drop_ne, IsRun-rotate, retained-rotate_ne,
}
use rogi_collector.Journal.Consumers.{of_consumer}
use rogi_collector.Journal.Invariant.{
  Carries, IsRun, IsRun-append, IsRun-above, IsOrdered, IsSound, retained,
}

pub channel_of_find :
    (ch : String) (cs : List Channel) (c : Channel)
    → find? (of_channel ch) cs ≡ some c
    → c.channel_id ≡ ch
channel_of_find ch cs c h = (eq_iff c.channel_id ch).0 (find?-test (of_channel ch) cs c h)

pub retained_generation :
    (ch gen : String) (r : Row) → is_retained ch gen r ≡ true → (r.generation == gen) ≡ true
retained_generation ch gen r h = ground arith

-- A row after the update of one channel: that channel's, or one that stayed.
pub channel_cases {ℓ} :
    (P : String → Channel → Type ℓ) (cs : List Channel) (ch : String) (c : Channel)
    (f : Channel → Channel)
    → ((y : Channel) → (f y).channel_id ≡ y.channel_id)
    → find? (of_channel ch) cs ≡ some c
    → P ch (f c)
    → ((k : String) (x : Channel) → k ≢ ch → find? (of_channel k) cs ≡ some x → P k x)
    → (k : String) (x : Channel) → find? (of_channel k) (update_where (of_channel ch) f cs) ≡ some x
    → P k x
channel_cases P cs ch c f keep found hit miss k x h =
    let (b, at, is) =
      find?-update_where_inv (of_channel k) (of_channel ch) f cs x
        (λ y _. ap (λ i. i == k) (keep y)) h in
    let id = channel_of_find k cs b at in
    elim (Bool-cases (of_channel ch b)) [
      | inl e ↦
          let same : k ≡ ch = sym id ∙ (eq_iff b.channel_id ch).0 e in
          subst (λ i. P i x) (sym same)
            (subst (P ch)
              (sym (
                is
                ∙ rw e (
                    ap f
                      (one ch b c (subst (λ i. find? (of_channel i) cs ≡ some b) same at) found))))
              hit)
      | inr e ↦
          miss k x (λ same. cc ((eq_iff b.channel_id ch).1 (id ∙ same)))
            (at ∙ ap some (sym (is ∙ rw e)))
    ]
  where
    one :
        (i : String) (a b : Channel)
        → find? (of_channel i) cs ≡ some a
        → find? (of_channel i) cs ≡ some b
        → a ≡ b
    one i a b h k = cc

same_ids :
    (consumer ch i k : String) (b : Consumer)
    → of_consumer consumer ch b ≡ true
    → of_consumer i k b ≡ true
    → (i ≡ consumer) × (k ≡ ch)
same_ids consumer ch i k b h g = (
  sym ((eq_iff b.consumer_id i).0 (ground arith))
      ∙ (eq_iff b.consumer_id consumer).0 (ground arith),
  sym ((eq_iff b.channel_id k).0 (ground arith)) ∙ (eq_iff b.channel_id ch).0 (ground arith),
)

same_test :
    (consumer ch i k : String) (a b : Consumer)
    → of_consumer consumer ch a ≡ true
    → of_consumer consumer ch b ≡ true
    → of_consumer i k a ≡ of_consumer i k b
same_test consumer ch i k a b h g =
    let ids : (a.consumer_id ≡ b.consumer_id) × (a.channel_id ≡ b.channel_id) = (
      (eq_iff a.consumer_id consumer).0 (ground arith)
          ∙ sym ((eq_iff b.consumer_id consumer).0 (ground arith)),
      (eq_iff a.channel_id ch).0 (ground arith) ∙ sym ((eq_iff b.channel_id ch).0 (ground arith)),
    ) in
    ap₂ (λ u v. (u == i) && (v == k)) ids.0 ids.1

-- An update of columns that soundness does not read.
abbrev pub IsQuiet : (Channel → Channel) → Type 0
IsQuiet f =
    (c : Channel)
    → ((f c).channel_id ≡ c.channel_id)
      × ((f c).generation ≡ c.generation)
      × ((f c).next_offset ≡ c.next_offset)
      × ((f c).expired_through ≡ c.expired_through)

module _ (cs : List Channel) (rows : List Row) (ps : List Consumer) (s : IsSound cs rows ps) where
  -- What a row of the updated table was before.
  before :
      (q : Channel → Bool) (f : Channel → Channel)
      → IsQuiet f
      → (ch : String) (c : Channel) → find? (of_channel ch) (update_where q f cs) ≡ some c
      → (b : Channel) × (find? (of_channel ch) cs ≡ some b)
        × (c.generation ≡ b.generation)
        × (c.next_offset ≡ b.next_offset)
        × (c.expired_through ≡ b.expired_through)
  before q f quiet ch c h =
      let (b, found, is) =
        find?-update_where_inv (of_channel ch) q f cs c (λ y _. ap (λ i. i == ch) (quiet y).0) h in
      let k = quiet b in (b, found, ground arith, ground arith, ground arith)

  pub quiet-IsSound :
      (q : Channel → Bool) (f : Channel → Channel)
      → IsQuiet f
      → IsSound (update_where q f cs) rows ps
  quiet-IsSound q f quiet = record {
    run = λ ch c h.
        let (b, found, g, n, x) = before q f quiet ch c h in
        subst₃ (λ u v w. IsRun v w (retained rows ch u)) (sym g) (sym x) (sym n) (s.run ch b found);
    bounded =
        λ ch c h. let (b, found, g, n, x) = before q f quiet ch c h in rw n (s.bounded ch b found);
    ordered = s.ordered;
    offered = λ consumer ch p c hp h same.
        let (b, found, g, n, x) = before q f quiet ch c h in
        rw n (s.offered consumer ch p b hp found (same ∙ g));
  }

  -- A new channel row, at zero, with a generation that no donation or consumer has.
  pub add-IsSound :
      (c : Channel)
      → c.next_offset ≡ 0
      → c.expired_through ≡ 0
      → exists? (λ r. r.generation == c.generation) rows ≡ false
      → exists? (λ p. p.generation == c.generation) ps ≡ false
      → IsSound (cs ++ c ∷ []) rows ps
  add-IsSound c zero_next zero_expired fresh_rows fresh_consumers = record {
    run = λ ch x h. elim (find?-append_inv (of_channel ch) cs c x h) [
      | inl old ↦ s.run ch x old
      | inr (missing, is, mine) ↦ rw (is, zero_next, zero_expired, nothing ch) refl
    ];
    bounded = λ ch x h. elim (find?-append_inv (of_channel ch) cs c x h) [
      | inl old ↦ s.bounded ch x old
      | inr (missing, is, mine) ↦ rw (is, zero_next) (omega arith)
    ];
    ordered = s.ordered;
    offered = λ consumer ch p x hp h same. elim (find?-append_inv (of_channel ch) cs c x h) [
      | inl old ↦ s.offered consumer ch p x hp old same
      | inr (missing, is, mine) ↦
          absurd (unknown consumer ch p hp (same ∙ ap (λ (y : Channel). y.generation) is))
    ];
  }
    where
      nothing : (ch : String) → retained rows ch c.generation ≡ []
      nothing ch =
          select-none (is_retained ch c.generation) rows
            (exists?-weaken _ _ rows (λ r k. retained_generation ch c.generation r k) fresh_rows)

      unknown :
          (consumer ch : String) (p : Consumer)
          → find? (of_consumer consumer ch) ps ≡ some p
          → p.generation ≡ c.generation
          → ⊥
      unknown consumer ch p hp same = cc (
        exists?-find? (of_consumer consumer ch) (λ (q : Consumer). q.generation == c.generation) ps
            p fresh_consumers hp,
        (eq_iff p.generation c.generation).1 same,
      )

  -- A new donation of the channel `ch`, at the next offset: its own channel, and the others.
  append_hit :
      (c : Channel) (r : Row) (k : String)
      → find? (of_channel k) cs ≡ some c
      → r.channel_id ≡ k
      → r.generation ≡ c.generation
      → r.channel_offset ≡ c.next_offset + 1
      → Carries r r.payload
      → IsRun c.expired_through r.channel_offset (retained (rows ++ r ∷ []) k c.generation)
  append_hit c r k found rc rg ro carries =
      subst (λ n. IsRun c.expired_through n (retained (rows ++ r ∷ []) k c.generation)) (sym ro)
        (rw (select-append_true (is_retained k c.generation) rows r is_new)
          (IsRun-append c.expired_through c.next_offset _ r (s.run k c found) ro carries))
    where
      has_payload : (o : Option Donation) → Carries r o → is_some o ≡ true
      has_payload none h = absurd h
      has_payload (some d) h = refl

      is_new : is_retained k c.generation r ≡ true
      is_new = ground (
        arith,
        (eq_iff r.channel_id k).1 rc,
        (eq_iff r.generation c.generation).1 rg,
        has_payload r.payload carries,
      )

  append_miss :
      (r : Row) (k gen : String)
      → r.channel_id ≢ k
      → retained (rows ++ r ∷ []) k gen ≡ retained rows k gen
  append_miss r k gen other =
      select-append_false (is_retained k gen) rows r (ground (arith, eq_iff r.channel_id k))

  -- The columns that an append changes.
  abbrev pub IsAppend : Row → (Channel → Channel) → Type 0
  IsAppend r f =
      (y : Channel)
      → ((f y).channel_id ≡ y.channel_id)
        × ((f y).generation ≡ y.generation)
        × ((f y).expired_through ≡ y.expired_through)
        × ((f y).next_offset ≡ r.channel_offset)

  pub append-IsSound :
      (ch : String) (c : Channel) (r : Row) (f : Channel → Channel)
      → find? (of_channel ch) cs ≡ some c
      → c.next_offset < max_uint64
      → r.channel_id ≡ ch
      → r.generation ≡ c.generation
      → r.channel_offset ≡ c.next_offset + 1
      → Carries r r.payload
      → IsAppend r f
      → IsSound (update_where (of_channel ch) f cs) (rows ++ r ∷ []) ps
  append-IsSound ch c r f found room rc rg ro carries writes =
      let (id, g, e, n) = writes c in
      let keep : (y : Channel) → (f y).channel_id ≡ y.channel_id = λ y. (writes y).0 in
      record {
        run =
            channel_cases
              (λ k x.
                IsRun x.expired_through x.next_offset (retained (rows ++ r ∷ []) k x.generation))
              cs ch c f keep found (rw (g, e, n) (append_hit c r ch found rc rg ro carries))
              (λ k x other at.
                rw (append_miss r k x.generation (λ q. other (sym q ∙ rc))) (s.run k x at));
        bounded =
            channel_cases (λ k x. x.next_offset ≤ max_uint64) cs ch c f keep found
              (omega (arith, n, ro)) (λ k x other at. s.bounded k x at);
        ordered = s.ordered;
        offered = λ consumer k p x hp h same.
            channel_cases
              (λ k x.
                find? (of_consumer consumer k) ps ≡ some p
                → p.generation ≡ x.generation
                → p.offered_offset ≤ x.next_offset)
              cs ch c f keep found
              (λ hp same. omega (arith, n, ro, s.offered consumer ch p c hp found (same ∙ g)))
              (λ k x other at hp same. s.offered consumer k p x hp at same) k x h hp same;
      }

  -- Payloads dropped up to `m`, with the expiry mark moved there.
  pub drop-IsSound :
      (ch : String) (c : Channel) (m : ℕ)
      → find? (of_channel ch) cs ≡ some c
      → c.expired_through ≤ m
      → m ≤ c.next_offset
      → IsSound
          (update_where (of_channel ch) (λ y. record y { expired_through = m }) cs)
          (update_where (drops ch c.generation m) (λ r. record r { payload = none }) rows)
          ps
  drop-IsSound ch c m found low high =
      let rows' = update_where (drops ch c.generation m) (λ r. record r { payload = none }) rows in
      record {
        run =
            channel_cases
              (λ k x. IsRun x.expired_through x.next_offset (retained rows' k x.generation)) cs ch c
              _ (λ y. refl) found
              (rw (retained-drop ch c.generation m rows)
                (IsRun-above c.expired_through c.next_offset m _ (s.run ch c found) low high))
              (λ k x other at.
                rw (retained-drop_ne ch c.generation k x.generation m rows other) (s.run k x at));
        bounded =
            channel_cases (λ k x. x.next_offset ≤ max_uint64) cs ch c _ (λ y. refl) found
              (s.bounded ch c found) (λ k x other at. s.bounded k x at);
        ordered = s.ordered;
        offered = λ consumer k p x hp h same.
            channel_cases
              (λ k x.
                find? (of_consumer consumer k) ps ≡ some p
                → p.generation ≡ x.generation
                → p.offered_offset ≤ x.next_offset)
              cs ch c _ (λ y. refl) found (λ hp same. s.offered consumer ch p c hp found same)
              (λ k x other at hp same. s.offered consumer k p x hp at same) k x h hp same;
      }

  -- A new generation of one channel's journal; no consumer stands in it yet.
  pub rotate-IsSound :
      (ch next : String) (c : Channel) (f : Channel → Channel)
      → find? (of_channel ch) cs ≡ some c
      → exists? (λ r. r.generation == next) rows ≡ false
      → exists? (λ p. p.generation == next) ps ≡ false
      → ((y : Channel) → (f y).channel_id ≡ y.channel_id)
      → ((f c).generation ≡ next)
        × ((f c).next_offset ≡ c.next_offset)
        × ((f c).expired_through ≡ c.expired_through)
      → IsSound
          (update_where (of_channel ch) f cs)
          (update_where (rotates ch c.generation) (relabel next) rows)
          ps
  rotate-IsSound ch next c f found fresh fresh_consumers keep (g, n, x) =
      let rows' = update_where (rotates ch c.generation) (relabel next) rows in
      record {
        run =
            channel_cases
              (λ k x. IsRun x.expired_through x.next_offset (retained rows' k x.generation)) cs ch c
              f keep found
              (rw (g, n, x)
                (IsRun-rotate ch c.generation next c.expired_through c.next_offset rows fresh
                  (s.run ch c found)))
              (λ k x other at.
                rw (retained-rotate_ne ch c.generation next k x.generation rows other)
                  (s.run k x at));
        bounded =
            channel_cases (λ k x. x.next_offset ≤ max_uint64) cs ch c f keep found
              (rw n (s.bounded ch c found)) (λ k x other at. s.bounded k x at);
        ordered = s.ordered;
        offered = λ consumer k p x hp h same.
            channel_cases
              (λ k x.
                find? (of_consumer consumer k) ps ≡ some p
                → p.generation ≡ x.generation
                → p.offered_offset ≤ x.next_offset)
              cs ch c f keep found
              (λ hp same. absurd (
                cc (
                  exists?-find? (of_consumer consumer ch) (λ (q : Consumer). q.generation == next)
                      ps p fresh_consumers hp,
                  (eq_iff p.generation next).1 (same ∙ g),
                )))
              (λ k x other at hp same. s.offered consumer k p x hp at same) k x h hp same;
      }

  -- A deletion of rows without a payload.
  pub delete-IsSound :
      (q : Row → Bool)
      → ((r : Row) → is_some r.payload ≡ true → q r ≡ true)
      → IsSound cs (select q rows) ps
  delete-IsSound q spares = record {
    run = λ ch c h.
        rw (select-select_ne (is_retained ch c.generation) q rows (λ r k. spares r (ground arith)))
          (s.run ch c h);
    bounded = s.bounded;
    ordered = s.ordered;
    offered = s.offered;
  }

  -- What a consumer's row must fulfil.
  abbrev pub IsFit : String → Consumer → Type 0
  IsFit ch p =
      IsOrdered p
      × ((c : Channel)
          → find? (of_channel ch) cs ≡ some c
          → p.generation ≡ c.generation
          → p.offered_offset ≤ c.next_offset)

  pub fits :
      (consumer ch : String) (p : Consumer)
      → find? (of_consumer consumer ch) ps ≡ some p
      → IsFit ch p
  fits consumer ch p h =
      (s.ordered consumer ch p h, λ c hc same. s.offered consumer ch p c h hc same)

  consumers-IsSound :
      (ps' : List Consumer)
      → ((consumer ch : String) (p : Consumer)
          → find? (of_consumer consumer ch) ps' ≡ some p
          → IsFit ch p)
      → IsSound cs rows ps'
  consumers-IsSound ps' fit = record {
    run = s.run;
    bounded = s.bounded;
    ordered = λ consumer ch p h. (fit consumer ch p h).0;
    offered = λ consumer ch p c h hc same. (fit consumer ch p h).1 c hc same;
  }

  -- One consumer's row written anew.
  pub consumer-IsSound :
      (consumer ch : String) (f : Consumer → Consumer)
      → ((y : Consumer) → of_consumer consumer ch y ≡ true → of_consumer consumer ch (f y) ≡ true)
      → ((y : Consumer) → find? (of_consumer consumer ch) ps ≡ some y → IsFit ch (f y))
      → IsSound cs rows (update_where (of_consumer consumer ch) f ps)
  consumer-IsSound consumer ch f keep good =
      consumers-IsSound (update_where (of_consumer consumer ch) f ps) λ i k x h.
        let (b, at, is) =
          find?-update_where_inv (of_consumer i k) (of_consumer consumer ch) f ps x
            (λ y t. same_test consumer ch i k (f y) y (keep y t) t) h in
        elim (Bool-cases (of_consumer consumer ch b)) [
          | inl e ↦
              let (ei, ek) = same_ids consumer ch i k b e (find?-test (of_consumer i k) ps b at) in
              subst (IsFit k) (sym (is ∙ rw e)) (
                subst (λ j. IsFit j (f b)) (sym ek)
                  (good b (subst₂ (λ u v. find? (of_consumer u v) ps ≡ some b) ei ek at)))
          | inr e ↦ subst (IsFit k) (sym (is ∙ rw e)) (fits i k b at)
        ]

  -- One more consumer.
  pub new_consumer-IsSound : (p : Consumer) → IsFit p.channel_id p → IsSound cs rows (ps ++ p ∷ [])
  new_consumer-IsSound p fit = consumers-IsSound (ps ++ p ∷ []) λ consumer ch q h.
      elim (find?-append_inv (of_consumer consumer ch) ps p q h) [
        | inl old ↦ fits consumer ch q old
        | inr (missing, is, mine) ↦
            subst (IsFit ch) (sym is)
              (subst (λ k. IsFit k p) ((eq_iff p.channel_id ch).0 (ground arith)) fit)
      ]
