-- ===== src/Channels/Waiting.antt =====
-- What ListPendingChannels (shared/store/postgres.go) lists.
use rogi_collector.Prelude.{
  Option, some, none, is_some, false, inl, inr, ap, ◌∙◌, not, exists?, select-none, length,
  update_where, All-exists?, All-map, Bool-cases, Option-cases, Result-cases, ℕ, ◌≡◌, refl, sym,
  subst, String, Bool, true, ◌&&◌, List, [], ◌∷◌, map, arith, nat_eq, ok, select, take, All,
  All-select_of, All-take, All-select,
}
use rogi_collector.Assigner.Model.{LiveChannel}
use rogi_collector.Channels.Model.{
  ChannelRow, ChannelDb, has_id, is_opted_out, is_registered, OptOut,
}
use rogi_collector.Channels.Changes.{update_rows, set_worker, set_assigned, assigns, assign_channel}
use rogi_collector.Channels.Queries.{
  by_viewers, awaits_worker, permits, in_scope, list_pending_channels,
}
use rogi_collector.Channels.Laws.{
  Distinct, Distinct-unmap, Distinct-map, Distinct-select, Distinct-take, All-zip,
  update_where-same_on,
}
use rogi_collector.Channels.Sound.{key_of, same_id, AreKeys, IsSoundTables}
use rogi_collector.Channels.Rows.{
  IsRow, IsRow-unique, All-IsRow, All-by_viewers, Distinct-by_viewers, same_row,
}
use rogi_collector.Channels.Listing.{to_channel, to_channels}

-- A channel that was listed, and its row.
pub record IsListed (db : ChannelDb) (ch : LiveChannel) : Type 0 where
  pub row : ChannelRow
  pub is : ch ≡ to_channel row
  pub stands : IsRow db.channels row
  pub waits : awaits_worker row ≡ true
  pub allowed : permits db.opt_outs row ≡ true

abbrev pub same_live : LiveChannel → LiveChannel → Bool
same_live a b = nat_eq a.id b.id

assigns-has_id :
    (scope : Option String) (n : ℕ) (r : ChannelRow) → assigns scope n r ≡ true → has_id n r ≡ true
assigns-has_id none n r h = h
assigns-has_id (some c) n r h = ground arith

-- An assignment that succeeds matches the row of its ID, also in a collection scope.
assign_channel-matches :
    (n : ℕ) (w : String) (db db' : ChannelDb) (r : ChannelRow)
    → AreKeys db.next_id (map key_of db.channels)
    → IsRow db.channels r
    → has_id n r ≡ true
    → assign_channel n w db ≡ ok db'
    → assigns db.collection_channel n r ≡ true
unfolding assign_channel
assign_channel-matches n w db db' r k stands here h =
    let q = assigns db.collection_channel n in
    elim (Bool-cases (q r)) [
      | inl hit ↦ hit
      | inr miss ↦
          let nowhere : exists? q db.channels ≡ false = All-exists? q db.channels (
            All-map
              (λ x s. elim (Bool-cases (q x)) [
                | inr e ↦ e
                | inl e ↦
                    let same : x ≡ r =
                      IsRow-unique db.channels r x stands s
                        (ground (arith, assigns-has_id db.collection_channel n x e)) in
                    ap q same ∙ miss
              ])
              db.channels (All-IsRow db.next_id db.channels k)) in
          let nothing : select q db.channels ≡ [] = select-none q db.channels nowhere in
          elim (Option-cases db.collection_channel) [
            | inl free ↦ absurd (ground (arith, ap (λ s. assigns s n r) free))
            | inr (c, scoped) ↦
                let denied : (is_some db.collection_channel
                      && not (nat_eq (length (select q db.channels)) 1))
                    ≡ true =
                  rw nothing (ap (λ s. is_some s && true) scoped) in
                elim (Result-cases (set_worker q w (set_assigned w) db)) [
                  | inl (e, bad) ↦ absurd (ground arith)
                  | inr (t, good) ↦ absurd (ground (arith, denied))
                ]
          ]
    ]

-- What an assignment of a row's ID does.
pub assign_channel-Effect :
    (n : ℕ) (w : String) (db db' : ChannelDb) (r : ChannelRow)
    → AreKeys db.next_id (map key_of db.channels)
    → IsRow db.channels r
    → has_id n r ≡ true
    → assign_channel n w db ≡ ok db'
    → db' ≡ update_rows (has_id n) (set_assigned w) db
unfolding assign_channel set_worker
assign_channel-Effect n w db db' r k stands here h =
    let q = assigns db.collection_channel n in
    let hit = assign_channel-matches n w db db' r k stands here h in
    let agree : update_where q (set_assigned w) db.channels
        ≡ update_where (has_id n) (set_assigned w) db.channels =
      update_where-same_on q (has_id n) (set_assigned w) db.channels (
        All-map
          (λ x s. elim (Bool-cases (has_id n x)) [
            | inl e ↦
                let same : x ≡ r = IsRow-unique db.channels r x stands s (ground arith) in
                ap q same ∙ (hit ∙ sym e)
            | inr e ↦ elim (Bool-cases (q x)) [
              | inr f ↦ f ∙ sym e
              | inl f ↦ absurd (ground (arith, assigns-has_id db.collection_channel n x f))
            ]
          ])
          db.channels (All-IsRow db.next_id db.channels k)) in
    let is : db' ≡ update_rows q (set_assigned w) db =
      elim (Bool-cases (exists? q db.channels && not (is_registered w db.workers))) [
        | inl bad ↦ absurd (ground arith)
        | inr good ↦
            elim (Bool-cases
              (is_some db.collection_channel && not (nat_eq (length (select q db.channels)) 1))) [
                | inl denied ↦ absurd (ground arith)
                | inr allowed ↦ ground arith
              ]
      ] in
    is ∙ rw agree refl

-- The rows of a listing that is sorted and cut.
sorted-IsListed :
    (q : ChannelRow → Bool) (limit : ℕ) (db : ChannelDb) (chs : List LiveChannel)
    → ((r : ChannelRow) → q r ≡ true → (awaits_worker r ≡ true) × (permits db.opt_outs r ≡ true))
    → IsSoundTables db
    → chs ≡ map to_channel (take limit (by_viewers (select q db.channels)))
    → All (IsListed db) chs × Distinct (λ a b. nat_eq a.id b.id) chs
sorted-IsListed q limit db chs waits s is =
    let rows = take limit (by_viewers (select q db.channels)) in
    let stand : All (IsRow db.channels) rows = All-take (IsRow db.channels) limit _ (
      All-by_viewers (IsRow db.channels) _ (
        All-select_of (IsRow db.channels) q db.channels
          (All-IsRow db.next_id db.channels s.keys))) in
    let waiting : All (λ (r : ChannelRow). q r ≡ true) rows =
      All-take (λ (r : ChannelRow). q r ≡ true) limit _
        (All-by_viewers (λ (r : ChannelRow). q r ≡ true) _ (All-select q db.channels)) in
    let apart : Distinct same_row rows = Distinct-take same_row limit _ (
      Distinct-by_viewers _ (
        Distinct-select same_row q db.channels
          (Distinct-unmap same_id key_of db.channels s.keys.ids))) in
    subst (λ (l : List LiveChannel). All (IsListed db) l × Distinct same_live l) (sym is)
      (
        to_All rows (
            All-zip (IsRow db.channels) (λ (r : ChannelRow). q r ≡ true)
              (λ (r : ChannelRow). IsListed db (to_channel r)) rows
              (λ r a b. record {
                row = r;
                is = refl;
                stands = a;
                waits = (waits r b).0;
                allowed = (waits r b).1;
              })
              stand waiting),
        Distinct-map same_live to_channel rows apart,
      )
  where
    to_All :
        (rs : List ChannelRow)
        → All (λ (r : ChannelRow). IsListed db (to_channel r)) rs
        → All (IsListed db) (map to_channel rs)
    to_All [] h = tt
    to_All (r ∷ rs) h = (h.0, to_All rs h.1)

pub list_pending_channels-IsListed :
    (limit : ℕ) (db : ChannelDb) (chs : List LiveChannel)
    → IsSoundTables db
    → to_channels (list_pending_channels limit db) ≡ ok chs
    → All (IsListed db) chs × Distinct (λ a b. nat_eq a.id b.id) chs
unfolding list_pending_channels
list_pending_channels-IsListed limit db chs s h = elim (Option-cases db.collection_channel) [
  | inl free ↦
      sorted-IsListed (λ r. awaits_worker r && permits db.opt_outs r) limit db chs
        (λ r e. (ground arith, ground arith)) s (ground arith)
  | inr (c, scoped) ↦ elim (Option-cases db.opt_outs) [
    | inl missing ↦ absurd (ground arith)
    | inr (os, there) ↦
        sorted-IsListed
          (λ r. awaits_worker r && (in_scope c db.subscribed r && not (is_opted_out os r))) limit db
          chs
          (λ r e.
            (ground arith, ap (λ (o : Option (List OptOut)). permits o r) there ∙ ground arith))
          s (ground arith)
  ]
]
