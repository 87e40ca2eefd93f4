-- ===== src/Soop/Convert.antt =====
-- The conversion of packets to messages (worker/internal/connector/soop.go).
use rogi_collector.Prelude.{
  ℕ, ◌+◌, Bool, ◌||◌, not, Option, none, some, List, [], ◌∷◌, ◌++◌, take, if◌then◌else◌, ℤ, pos,
  int_eq,
}
use rogi_collector.Soop.Bytes.{Bytes, padded}
use rogi_collector.Soop.Packet.{Packet}
use rogi_collector.Soop.Texts.{
  bytes, bytes_eq, is_empty, field_at, without_returns, strip_suffix, matches_ogq_id,
  matches_ogq_number, non_empty_fields, spaced,
}
use rogi_collector.Soop.Model.{
  MessageType, chat, donation, subscription, system, ChatMessage, GiftPayload, Texts, Connector,
}

abbrev pub is_cmd : ℕ → Packet → Bool
is_cmd n p = int_eq p.cmd (pos n)

-- The first of the texts that is not empty, or "?".
unfoldable pub or_unknown : Bytes → Bytes
unfolding bytes
or_unknown name = if is_empty name then bytes "?" else name

unfoldable pub first_name : Bytes → Bytes → Bytes
first_name name other = or_unknown (if is_empty name then other else name)

-- label and Message of a mission gift
unfoldable pub gift_label : (Bytes → Bytes) → Bytes → Bytes
unfolding bytes bytes_eq
gift_label upper kind =
    if bytes_eq (upper kind) (bytes "CHALLENGE_GIFT")
    then bytes "도전미션"
    else if bytes_eq (upper kind) (bytes "GIFT")
    then bytes "대결미션"
    else bytes "미션"

module _ {F : Type 0} (t : Texts F) where
  -- strings.ToUpper(strings.TrimSpace(s))
  abbrev upper_trimmed : Bytes → Bytes
  upper_trimmed s = t.to_upper (t.trim_space s)

  abbrev pub titled : Bytes → Bytes
  titled title = if is_empty title then [] else bytes ": " ++ title

  unfoldable pub gift_message : GiftPayload → ℤ → Bytes
  unfolding bytes
  gift_message g count =
      gift_label upper_trimmed g.type_text
      ++ (bytes " 별풍선 " ++ (t.print_int count ++ (bytes "개" ++ titled (t.trim_space g.title))))

  -- parseMissionGiftPayload
  unfoldable pub parse_gift : List Bytes → Option (GiftPayload × ℤ)
  unfolding bytes bytes_eq
  parse_gift fields =
      if is_empty (field_at 0 fields) then none else elim (t.decode_gift (field_at 0 fields)) [
        | none ↦ none
        | some g ↦
            let kind = upper_trimmed g.type_text in
            if not (
              is_empty kind
              || (bytes_eq kind (bytes "GIFT") || bytes_eq kind (bytes "CHALLENGE_GIFT")))
            then none
            else elim g.gift_count [ none ↦ none | some n ↦ some (g, n) ]
      ]

  -- donationMessageForCommand
  unfoldable pub donation_message : Packet → Bytes
  unfolding bytes
  donation_message p =
      if is_cmd 18 p
      then bytes "별풍선 " ++ (field_at 3 p.fields ++ bytes "개")
      else if is_cmd 41 p
      then bytes "슈퍼챗 " ++ field_at 3 p.fields
      else if is_cmd 121 p
      then elim (parse_gift p.fields) [
        | some (g, n) ↦ gift_message g n
        | none ↦ spaced (non_empty_fields t.trim_space p.fields)
      ]
      else spaced (non_empty_fields t.trim_space (take 4 p.fields))

  -- parseNumericField
  abbrev pub parse_numeric : Bytes → F
  parse_numeric s = elim (t.parse_float s) [ none ↦ t.zero_float | some x ↦ x ]

  -- The ID of a conversion's message, with the sequence number that it takes.
  unfoldable pub message_id : Connector F → Bytes
  unfolding bytes
  message_id c =
      bytes "soop-" ++ (c.channel_id ++ (b'-' ∷ (c.epoch ++ (b'-' ∷ padded 1 20 (c.seq + 1)))))

  -- A message of this connection's channel, with no amount and no emotes.
  unfoldable pub message_of :
      MessageType → Bytes → Bytes → Bytes → ℕ → Packet → Connector F → ChatMessage F
  message_of kind user nickname message now p c = record {
    id = message_id c;
    kind = kind;
    channel_id = c.channel_id;
    streamer_name = c.streamer_name;
    user_id = user;
    nickname = nickname;
    message = message;
    timestamp = now;
    raw = p.raw;
    amount = none;
    emotes = [];
  }

  -- convertChatPacket
  unfoldable pub convert_chat : ℕ → Packet → Connector F → Option (ChatMessage F)
  convert_chat now p c =
      let user = strip_suffix (field_at 1 p.fields) in
      some (
        message_of chat user (first_name (field_at 5 p.fields) user)
          (without_returns (field_at 0 p.fields)) now p c)

  -- convertOGQPacket
  unfoldable pub convert_ogq : ℕ → Packet → Connector F → Option (ChatMessage F)
  unfolding bytes bytes_eq
  convert_ogq now p c =
      let group = field_at 2 p.fields in
      let sub = field_at 3 p.fields in
      let animated = bytes_eq (field_at 17 p.fields) (bytes "1") in
      let user = strip_suffix (field_at 5 p.fields) in
      let plain =
        message_of chat user (first_name (field_at 6 p.fields) user)
          (without_returns (field_at 1 p.fields)) now p c in
      if not (matches_ogq_id group) || not (matches_ogq_number sub)
      then none
      else some (record plain {
        emotes =
            record {
              code = group ++ (b':' ∷ sub);
              image_url =
                  bytes "https://ogq-sticker-global-cdn-z01.sooplive.com/sticker/"
                  ++ (group
                      ++ (b'/'
                          ∷ (sub
                              ++ (bytes "_160."
                                  ++ (if animated then bytes "webp" else bytes "png")))));
              animated = animated;
            }
            ∷ [];
      })

  -- convertDonationPacket
  unfoldable pub convert_donation : ℕ → Packet → Connector F → Option (ChatMessage F)
  convert_donation now p c =
      let gift = if is_cmd 121 p then parse_gift p.fields else none in
      let user = elim gift as (λ _. Bytes) [
        | none ↦ field_at 1 p.fields
        | some (g, n) ↦ g.user_id
      ] in
      let nickname = elim gift as (λ _. Bytes) [
        | none ↦ field_at 2 p.fields
        | some (g, n) ↦ g.user_nick
      ] in
      let amount = elim gift as (λ _. F) [
        | none ↦ parse_numeric (field_at 3 p.fields)
        | some (g, n) ↦ t.of_int n
      ] in
      let message = elim gift as (λ _. Bytes) [
        | none ↦ donation_message p
        | some (g, n) ↦ gift_message g n
      ] in
      let plain =
        message_of donation (strip_suffix user) (first_name nickname user) message now p c in
      some (record plain { amount = some (amount, t.times_hundred amount) })

  -- convertSubscriptionPacket
  unfoldable pub convert_subscription : ℕ → Packet → Connector F → Option (ChatMessage F)
  convert_subscription now p c = some (
      message_of subscription (strip_suffix (field_at 1 p.fields))
        (first_name (field_at 0 p.fields) (field_at 1 p.fields))
        (spaced (non_empty_fields t.trim_space (take 3 p.fields))) now p c)

  -- convertSystemPacket
  unfoldable pub convert_system : ℕ → Packet → Connector F → Option (ChatMessage F)
  unfolding bytes
  convert_system now p c =
      if is_empty (field_at 0 p.fields)
      then none
      else some (message_of system [] (bytes "system") (field_at 0 p.fields) now p c)
