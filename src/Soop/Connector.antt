-- ===== src/Soop/Connector.antt =====
-- handlePacket and handleFrame (worker/internal/connector/soop.go).
use rogi_collector.Prelude.{
  ℕ, ◌+◌, Bool, true, false, ◌&&◌, ◌||◌, not, none, some, List, [], ◌∷◌, ◌++◌, if◌then◌else◌, ℤ,
  pos, int_eq, ok, err,
}
use rogi_collector.Journal.Model.{Donation, validate}
use rogi_collector.Soop.Bytes.{Bytes, padded}
use rogi_collector.Soop.Packet.{Packet, field_sep, build}
use rogi_collector.Soop.Texts.{bytes, field_at, strip_suffix, parse_int}
use rogi_collector.Soop.Model.{
  system, Texts, Connector, World, login_rejected, join_rejected, send_join, acceptance_failed,
  push, post_error, emit_message, close_conn,
}
use rogi_collector.Soop.Convert.{
  is_cmd, message_of, convert_chat, convert_ogq, convert_donation, convert_subscription,
  convert_system,
}

module _ {F : Type 0} where
  -- The body of the join packet.
  unfoldable pub join_body : Connector F → Bytes
  join_body c =
      field_sep
      ∷ (c.chat_no
          ++ (field_sep ∷ (c.ftk ++ (field_sep ∷ b'0' ∷ field_sep ∷ field_sep ∷ field_sep ∷ []))))

  -- The login's acknowledgement: the join is written.
  unfoldable pub on_login : World → Packet → Connector F → Connector F
  on_login w p c =
      if not (int_eq p.ret (pos 0))
      then post_error (login_rejected p.ret) c
      else if not (c.alive && w.writes)
      then post_error send_join c
      else record c { written = c.written ++ build 2 (join_body c) ∷ []; join_requested = true }

  -- The join's acknowledgement.
  unfoldable pub on_join : Packet → Connector F → Connector F
  on_join p c =
      if not c.join_requested
      then c
      else if not (int_eq p.ret (pos 0))
      then post_error (join_rejected p.ret) c
      else record c { joined = true; signalled = c.has_joined_channel || c.signalled }

module _ {F : Type 0} (t : Texts F) where
  -- The donation of a balloon, with the sequence number that it takes.
  unfoldable pub donation_of : ℕ → Packet → ℤ → Connector F → Donation
  unfolding bytes
  donation_of now p count c = record {
    event_id = t.text (c.epoch ++ (b'-' ∷ padded 1 20 (c.seq + 1)));
    channel_id = t.text c.channel_id;
    count = count;
    kind = "balloon";
    donor_id = t.text (strip_suffix (field_at 1 p.fields));
    display_name = t.text (field_at 2 p.fields);
    message = "";
    connection_epoch = t.text c.epoch;
    sequence = c.seq + 1;
    observed_at = now;
    connection_started_at = c.started_at;
    source_id = none;
    broadcast_id = none;
    identity = "";
    reasons = [];
    related = [];
    generation = "";
    offset = 0;
  }

  -- The donation is valid and the sink takes it.
  unfoldable pub takes : (Donation → Bool) → Donation → Bool
  takes sink d = elim (validate d) [ ok _ ↦ sink d | err _ ↦ false ]

  -- A balloon with a donation sink.
  unfoldable pub on_balloon : World → (Donation → Bool) → Packet → Connector F → Connector F
  on_balloon w sink p c =
      let ticked = record c { seq = c.seq + 1 } in
      elim (parse_int (field_at 3 p.fields)) [
        | none ↦ close_conn (post_error acceptance_failed ticked)
        | some count ↦
            let d = donation_of w.now p count c in
            if takes sink d
            then record ticked { accepted = d ∷ c.accepted }
            else close_conn (post_error acceptance_failed ticked)
      ]

  -- The donations of a connection with a sink that are no balloons.
  unfoldable pub unsupported : World → Packet → Connector F → Connector F
  unfolding bytes
  unsupported w p c =
      let m = message_of t system [] [] (bytes "unsupported_donation_kind") w.now p c in
      push (record m { id = w.uuid; streamer_name = []; raw = [] }) c

  unfoldable pub on_donation : World → Packet → Connector F → Connector F
  on_donation w p c = elim w.sink [
    | none ↦ emit_message (convert_donation t w.now p c) c
    | some sink ↦ if is_cmd 18 p then on_balloon w sink p c else unsupported w p c
  ]

  -- The cases of handlePacket after the login and the join.
  unfoldable pub on_content : World → Packet → Connector F → Connector F
  on_content w p c =
      if is_cmd 5 p
      then emit_message (convert_chat t w.now p c) c
      else if is_cmd 109 p
      then emit_message (convert_ogq t w.now p c) c
      else if is_cmd 18 p || (is_cmd 37 p || (is_cmd 41 p || is_cmd 121 p))
      then on_donation w p c
      else if is_cmd 91 p || (is_cmd 93 p || is_cmd 108 p)
      then emit_message (convert_subscription t w.now p c) c
      else if is_cmd 10 p || is_cmd 104 p
      then emit_message (convert_system t w.now p c) c
      else c

  -- lastReceived, which chats, stickers and balloons set
  unfoldable pub touch : World → Packet → Connector F → Connector F
  touch w p c =
      if is_cmd 5 p || (is_cmd 109 p || is_cmd 18 p) then record c { last_received = w.now } else c

  -- handlePacket
  unfoldable pub handle_packet : World → Packet → Connector F → Connector F
  handle_packet w p c =
      if (c.has_joined_channel && not c.joined) && (not (is_cmd 1 p) && not (is_cmd 2 p))
      then c
      else if is_cmd 1 p
      then on_login w p c
      else if is_cmd 2 p
      then on_join p c
      else on_content w p (touch w p c)

  -- handleFrame, given the world that each packet meets
  unfoldable pub handle_packets : List (World × Packet) → Connector F → Connector F
  handle_packets [] c = c
  handle_packets ((w, p) ∷ ps) c = handle_packets ps (handle_packet w p c)
