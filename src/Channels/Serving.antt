-- ===== src/Channels/Serving.antt =====
-- The tables as the store of the assigner (coordinator/internal/assigner.go over
-- shared/store/postgres.go): each channel that a command was published for had waited, and is live
-- on the commanded worker.
use rogi_collector.Prelude.{
  ℕ, ◌≡◌, refl, sym, subst, ◌∙◌, inl, inr, String, Bool, true, false, ◌&&◌, Option, none, some,
  List, [], ◌∷◌, map, arith, ◌==◌, nat_eq, if◌then◌else◌, ok, Result-cases, Bool-cases,
  Option-cases, find?, All, find?-update_where, find?-update_where-none, find?-test, find?-head,
  find?-skip, eq_iff,
}
use rogi_collector.Assigner.Model.{
  Floats, WorkerLoad, LiveChannel, WorkerCommand, connect, select_worker, count_connection,
  assign_loop, assign_pending,
}
use rogi_collector.Channels.Model.{OptOut, ChannelRow, ChannelDb, has_key, has_id}
use rogi_collector.Channels.Changes.{update_rows, set_assigned, assign_channel}
use rogi_collector.Channels.Queries.{awaits_worker, permits, list_pending_channels, get_channel}
use rogi_collector.Channels.Laws.{Distinct, map-update_where, exists?-All, All-zip}
use rogi_collector.Channels.Sound.{key_of, AreKeys, IsSoundTables}
use rogi_collector.Channels.Rows.{find?-IsRow, IsRow-unique}
use rogi_collector.Channels.Listing.{to_channels, channel_store}
use rogi_collector.Channels.Waiting.{
  IsListed, same_live, assign_channel-Effect, list_pending_channels-IsListed,
}

abbrev pub is_for : String → String → WorkerCommand → Bool
is_for p c cmd = (cmd.platform == p) && (cmd.channel_id == c)

-- A channel's row before and after, given the first command for it.
abbrev pub Served :
    Option (List OptOut) → Option ChannelRow → Option ChannelRow → Option WorkerCommand → Type 0
Served os before after none = after ≡ before
Served os before after (some cmd) =
    (r : ChannelRow) × (before ≡ some r)
    × (awaits_worker r ≡ true)
    × (permits os r ≡ true)
    × (after ≡ some (set_assigned cmd.to r))

module _ (db : ChannelDb) (w : String) (ch : LiveChannel) where
  abbrev after_assign : ChannelDb
  after_assign = update_rows (has_id ch.id) (set_assigned w) db

  IsListed-kept :
      (o : LiveChannel) → nat_eq ch.id o.id ≡ false → IsListed db o → IsListed after_assign o
  IsListed-kept o apart l =
      let other : has_id ch.id l.row ≡ false = ground (arith, l.is) in
      record {
        row = l.row;
        is = l.is;
        stands = record {
          by_id =
              find?-update_where (has_id l.row.id) (has_id ch.id) (set_assigned w) db.channels l.row
                (λ z e. refl) l.stands.by_id
              ∙ rw other refl;
          by_key =
              find?-update_where (has_key l.row.platform l.row.channel_id) (has_id ch.id)
                (set_assigned w) db.channels l.row (λ z e. refl) l.stands.by_key
              ∙ rw other refl;
        };
        waits = l.waits;
        allowed = l.allowed;
      }

  -- The row that is assigned.
  assigned_here :
      (p c : String) (l : IsListed db ch)
      → is_for p c (connect w ch) ≡ true
      → (find? (has_key p c) db.channels ≡ some l.row)
        × (find? (has_key p c) after_assign.channels ≡ some (set_assigned w l.row))
  assigned_here p c l e =
      let is_p : l.row.platform ≡ p = (eq_iff l.row.platform p).0 (ground (arith, l.is)) in
      let is_c : l.row.channel_id ≡ c = (eq_iff l.row.channel_id c).0 (ground (arith, l.is)) in
      let there : find? (has_key p c) db.channels ≡ some l.row =
        subst (λ (x : String). find? (has_key x c) db.channels ≡ some l.row) is_p
          (subst (λ (x : String). find? (has_key l.row.platform x) db.channels ≡ some l.row) is_c
            l.stands.by_key) in
      let hit : has_id ch.id l.row ≡ true = ground (arith, l.is) in
      (
        there,
        find?-update_where (has_key p c) (has_id ch.id) (set_assigned w) db.channels l.row
              (λ z e. refl) there
            ∙ rw hit refl,
      )

  -- The other rows.
  unassigned_there :
      (p c : String) (l : IsListed db ch)
      → AreKeys db.next_id (map key_of db.channels)
      → is_for p c (connect w ch) ≡ false
      → find? (has_key p c) after_assign.channels ≡ find? (has_key p c) db.channels
  unassigned_there p c l k e = elim (Option-cases (find? (has_key p c) db.channels)) [
    | inl nowhere ↦
        find?-update_where-none (has_key p c) (has_id ch.id) (set_assigned w) db.channels
          (λ z e. refl) nowhere
        ∙ sym nowhere
    | inr (y, there) ↦
        let keyed : has_key p c y ≡ true = find?-test (has_key p c) db.channels y there in
        let after : find? (has_key p c) after_assign.channels
            ≡ some (if has_id ch.id y then set_assigned w y else y) =
          find?-update_where (has_key p c) (has_id ch.id) (set_assigned w) db.channels y
            (λ z e. refl) there in
        elim (Bool-cases (has_id ch.id y)) [
          | inl hit ↦
              let is : y ≡ l.row =
                IsRow-unique db.channels l.row y l.stands
                  (find?-IsRow db.next_id db.channels (has_key p c) y k there)
                  (ground (arith, l.is)) in
              absurd (ground (arith, l.is, is))
          | inr miss ↦ after ∙ (rw miss (sym there))
        ]
  ]

  -- A command after which the rest of the round serves the channels.
  Served-next :
      (p c : String) (cs : List WorkerCommand) (after : Option ChannelRow) (l : IsListed db ch)
      → AreKeys db.next_id (map key_of db.channels)
      → Served db.opt_outs (find? (has_key p c) after_assign.channels) after (find? (is_for p c) cs)
      → Served db.opt_outs
          (find? (has_key p c) db.channels)
          after
          (find? (is_for p c) (connect w ch ∷ cs))
  Served-next p c cs after l k rest = elim (Bool-cases (is_for p c (connect w ch))) [
    | inl e ↦
        let (there, now_there) = assigned_here p c l e in
        subst (Served db.opt_outs (find? (has_key p c) db.channels) after)
          (sym (find?-head (is_for p c) (connect w ch) cs e))
          (l.row, there, l.waits, l.allowed, once now_there (find? (is_for p c) cs) rest)
    | inr e ↦
        subst (Served db.opt_outs (find? (has_key p c) db.channels) after)
          (sym (find?-skip (is_for p c) (connect w ch) cs e))
          (subst (λ (o : Option ChannelRow). Served db.opt_outs o after (find? (is_for p c) cs))
            (unassigned_there p c l k e) rest)
  ]
    where
      once :
          {before : Option ChannelRow}
          → before ≡ some (set_assigned w l.row)
          → (o : Option WorkerCommand) → Served db.opt_outs before after o
          → after ≡ some (set_assigned w l.row)
      once now_there none same = same ∙ now_there
      once now_there (some cmd) again = absurd (ground (arith, again.1, again.2))

module _ {F : Type 0} (fl : Floats F) (threshold : F) (now : ℕ) (p c : String) where
  Served-nothing :
      (os : Option (List OptOut)) (o : Option ChannelRow) → Served os o o (find? (is_for p c) [])
  unfolding find?
  Served-nothing os o = refl

  assign_loop-Served :
      (ws : List (String × WorkerLoad F)) (chs : List LiveChannel) (db : ChannelDb)
      → AreKeys db.next_id (map key_of db.channels)
      → All (IsListed db) chs
      → Distinct same_live chs
      → (let r = assign_loop fl (channel_store now) threshold ws chs db in
          Served db.opt_outs
            (find? (has_key p c) db.channels)
            (find? (has_key p c) r.2.channels)
            (find? (is_for p c) r.1))
  unfolding assign_loop
  assign_loop-Served ws [] db k listed apart = Served-nothing db.opt_outs _
  assign_loop-Served ws (ch ∷ chs) db k listed apart =
      let worker = select_worker fl threshold ws in
      elim (Bool-cases (worker == "")) [
        | inl nobody ↦ rw (assign_loop, nobody) (Served-nothing db.opt_outs _)
        | inr somebody ↦ elim (Result-cases (assign_channel ch.id worker db)) [
          | inl (x, failed) ↦
              rw (assign_loop, somebody, failed) (assign_loop-Served ws chs db k listed.1 apart.1)
          | inr (db', done) ↦
              let is : db' ≡ after_assign db worker ch =
                assign_channel-Effect ch.id worker db db' listed.0.row k listed.0.stands
                  (ground (arith, listed.0.is)) done in
              rw (assign_loop, somebody, done, is)
                (Served-next db worker ch p c _ _ listed.0 k (
                  assign_loop-Served (count_connection fl worker ws) chs (after_assign db worker ch)
                    (rw
                      (map-update_where key_of (has_id ch.id) (set_assigned worker) db.channels
                        (λ r. refl))
                      k)
                    (All-zip (λ (o : LiveChannel). nat_eq ch.id o.id ≡ false) (IsListed db)
                      (IsListed (after_assign db worker ch)) chs
                      (λ o e l. IsListed-kept db worker ch o e l)
                      (exists?-All (same_live ch) chs apart.0) listed.1)
                    apart.1))
        ]
      ]

  -- A round of AssignPending over the tables, in a collection scope or not: where it published a
  -- command for a channel, that channel's row was pending without a worker and not opted out, and
  -- is now live on the commanded worker; any other channel's row is as it was.
  pub assign_pending_serves :
      (batch_size : ℕ) (ws : List (String × WorkerLoad F)) (db : ChannelDb)
      (r : ℕ × List WorkerCommand × ChannelDb)
      → IsSoundTables db
      → assign_pending fl (channel_store now) threshold batch_size ws db ≡ ok r
      → Served db.opt_outs (get_channel p c db) (get_channel p c r.2) (find? (is_for p c) r.1)
  unfolding assign_pending get_channel
  assign_pending_serves batch_size [] db r s h =
      let is : r ≡ (0, [], db) = ground arith in
      subst
        (λ (x : ℕ × List WorkerCommand × ChannelDb).
          Served db.opt_outs (find? (has_key p c) db.channels) (find? (has_key p c) x.2.channels)
            (find? (is_for p c) x.1))
        (sym is) (Served-nothing db.opt_outs _)
  assign_pending_serves batch_size (w ∷ ws) db r s h =
      elim (Result-cases (to_channels (list_pending_channels batch_size db))) [
        | inl (e, bad) ↦ absurd (ground arith)
        | inr (chs, good) ↦
            let (listed, apart) = list_pending_channels-IsListed batch_size db chs s good in
            let is : r ≡ assign_loop fl (channel_store now) threshold (w ∷ ws) chs db =
              ground arith in
            subst
              (λ (x : ℕ × List WorkerCommand × ChannelDb).
                Served db.opt_outs (find? (has_key p c) db.channels)
                  (find? (has_key p c) x.2.channels) (find? (is_for p c) x.1))
              (sym is) (assign_loop-Served (w ∷ ws) chs db s.keys listed apart)
      ]
