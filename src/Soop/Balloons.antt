-- ===== src/Soop/Balloons.antt =====
-- Balloons that a donation sink must take (handlePacket of worker/internal/connector/soop.go).
use rogi_collector.Prelude.{
  ◌+◌, ◌<◌, ◌≡◌, refl, sym, subst, ◌⊎◌, inl, inr, Bool, true, false, ◌&&◌, not, some, [], ◌∷◌,
  length, length-append, arith, ltb, Bool-cases, Option-cases, Result-cases, ok, ℤ, pos, ◌++◌,
}
use rogi_collector.Journal.Model.{Donation, validate}
use rogi_collector.Soop.Packet.{Packet}
use rogi_collector.Soop.Texts.{field_at, parse_int, strip_suffix}
use rogi_collector.Soop.Bytes.{padded}
use rogi_collector.Soop.Model.{
  Texts, acceptance_failed, Connector, World, err_buf_size, post_error, close_conn,
}
use rogi_collector.Soop.Connector.{
  donation_of, takes, on_balloon, on_donation, on_content, touch, handle_packet,
}

module _ {F : Type 0} where
  -- The connection was closed, with an error to read, and no donation was recorded.
  pub record IsRefused (c d : Connector F) : Type 0 where
    pub closed : d.alive ≡ false
    pub reported : 0 < length d.errors
    pub kept : d.accepted ≡ c.accepted

module _ {F : Type 0} (t : Texts F) where
  -- What a balloon's packet says: the donor and the name in its second and third field, of this
  -- connection's channel, with the connection's next sequence number.
  pub record Describes (w : World) (p : Packet) (c : Connector F) (count : ℤ) (x : Donation)
      : Type 0 where
    pub numbered : x.sequence ≡ c.seq + 1
    pub event : x.event_id ≡ t.text (c.epoch ++ (b'-' ∷ padded 1 20 (c.seq + 1)))
    pub sort : x.kind ≡ "balloon"
    pub amount : x.count ≡ count
    pub channel : x.channel_id ≡ t.text c.channel_id
    pub donor : x.donor_id ≡ t.text (strip_suffix (field_at 1 p.fields))
    pub named_so : x.display_name ≡ t.text (field_at 2 p.fields)
    pub observed : x.observed_at ≡ w.now
    pub connection : x.connection_epoch ≡ t.text c.epoch

  -- The balloon that the packet describes was taken by the sink.
  pub record IsAccepted (w : World) (sink : Donation → Bool) (p : Packet) (c d : Connector F)
      : Type 0 where
    pub count : ℤ
    pub reads : parse_int (field_at 3 p.fields) ≡ some count
    pub donation : Donation
    pub described : Describes w p c count donation
    pub valid : validate donation ≡ ok tt
    pub taken : sink donation ≡ true
    pub recorded : d.accepted ≡ donation ∷ c.accepted
    pub counted : d.seq ≡ c.seq + 1
    pub stays : d.alive ≡ c.alive

  takes-valid :
      (sink : Donation → Bool) (x : Donation)
      → takes t sink x ≡ true
      → (validate x ≡ ok tt) × (sink x ≡ true)
  unfolding takes
  takes-valid sink x h = elim (Result-cases (validate x)) [
    | inl (e, bad) ↦ absurd (ground arith)
    | inr (u, good) ↦ (good, ground (arith, good))
  ]

  closing-IsRefused :
      (c : Connector F)
      → IsRefused c (close_conn (post_error acceptance_failed (record c { seq = c.seq + 1 })))
  unfolding post_error close_conn
  closing-IsRefused c = elim (Bool-cases (ltb (length c.errors) err_buf_size)) [
    | inl room ↦ simp room (record {
      closed = refl;
      reported = ground (arith, length-append c.errors (acceptance_failed ∷ []));
      kept = refl;
    })
    | inr full ↦ simp full (record { closed = refl; reported = ground (arith, full); kept = refl })
  ]

  on_balloon-cases :
      (w : World) (sink : Donation → Bool) (p : Packet) (c : Connector F)
      → IsAccepted w sink p c (on_balloon t w sink p c) ⊎ IsRefused c (on_balloon t w sink p c)
  unfolding on_balloon
  on_balloon-cases w sink p c = elim (Option-cases (parse_int (field_at 3 p.fields))) [
    | inl bad ↦ rw (on_balloon, bad) (inr (closing-IsRefused c))
    | inr (count, good) ↦ elim (Bool-cases (takes t sink (donation_of t w.now p count c))) [
      | inl taken ↦
          rw (on_balloon, good, taken)
            (inl (record {
              count = count;
              reads = good;
              donation = donation_of t w.now p count c;
              described =
                  unfold donation_of in
                  record {
                    numbered = refl;
                    event = refl;
                    sort = refl;
                    amount = refl;
                    channel = refl;
                    donor = refl;
                    named_so = refl;
                    observed = refl;
                    connection = refl;
                  };
              valid = (takes-valid sink (donation_of t w.now p count c) taken).0;
              taken = (takes-valid sink (donation_of t w.now p count c) taken).1;
              recorded = refl;
              counted = refl;
              stays = refl;
            }))
      | inr refused ↦ rw (on_balloon, good, refused) (inr (closing-IsRefused c))
    ]
  ]

  balloon_step :
      (w : World) (sink : Donation → Bool) (p : Packet) (c : Connector F)
      → w.sink ≡ some sink
      → p.cmd ≡ pos 18
      → (c.has_joined_channel && not c.joined) ≡ false
      → handle_packet t w p c ≡ on_balloon t w sink p (record c { last_received = w.now })
  unfolding handle_packet on_content on_donation on_balloon touch
  balloon_step w sink p c set cmd ready =
      simp (handle_packet, cmd, ready, on_donation, set, cmd) refl

  -- On a connection that is not waiting for its join and has a donation sink, a balloon is never
  -- lost in silence: either its count is a number, and the donation with this count, the packet's
  -- donor and name, the connection's channel and its next sequence number is valid, is taken by the
  -- sink and recorded, or the connection is closed with an error to read
  -- and no donation is recorded.
  pub handle_packet-keeps_balloon :
      (w : World) (sink : Donation → Bool) (p : Packet) (c : Connector F)
      → w.sink ≡ some sink
      → p.cmd ≡ pos 18
      → (c.has_joined_channel && not c.joined) ≡ false
      → IsAccepted w sink p c (handle_packet t w p c) ⊎ IsRefused c (handle_packet t w p c)
  handle_packet-keeps_balloon w sink p c set cmd ready =
      subst (λ d. IsAccepted w sink p c d ⊎ IsRefused c d)
        (sym (balloon_step w sink p c set cmd ready))
        (elim (on_balloon-cases w sink p (record c { last_received = w.now })) [
          | inl a ↦ inl (record {
            count = a.count;
            reads = a.reads;
            donation = a.donation;
            described = record {
              numbered = a.described.numbered;
              event = a.described.event;
              sort = a.described.sort;
              amount = a.described.amount;
              channel = a.described.channel;
              donor = a.described.donor;
              named_so = a.described.named_so;
              observed = a.described.observed;
              connection = a.described.connection;
            };
            valid = a.valid;
            taken = a.taken;
            recorded = a.recorded;
            counted = a.counted;
            stays = a.stays;
          })
          | inr r ↦ inr (record { closed = r.closed; reported = r.reported; kept = r.kept })
        ])
