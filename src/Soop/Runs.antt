-- ===== src/Soop/Runs.antt =====
-- The packets of a connection, from its beginning on (handlePacket of
-- worker/internal/connector/soop.go).
use rogi_collector.Prelude.{
  if-holds, ℕ, ◌+◌, ◌≤◌, refl, ap, ◌⊎◌, inl, inr, Bool, ◌&&◌, ◌||◌, not, List, [], ◌∷◌, drop,
  length, arith, Bool-cases, Option-cases,
}
use rogi_collector.Journal.Model.{Donation}
use rogi_collector.Soop.Bytes.{Bytes}
use rogi_collector.Soop.Packet.{Packet}
use rogi_collector.Soop.Texts.{field_at, parse_int}
use rogi_collector.Soop.Model.{
  Texts, acceptance_failed, Connector, World, connected, post_error, close_conn,
}
use rogi_collector.Soop.Convert.{is_cmd}
use rogi_collector.Soop.Connector.{
  donation_of, takes, on_balloon, unsupported, on_donation, on_content, touch, handle_packet,
}
use rogi_collector.Soop.Safety.{
  push-IsLive, tick-IsLive, emit_message-IsLive, with_errors-IsLive, post_error-IsLive,
  close_conn-IsLive, IsOrderly, on_login-IsWaiting, on_login-IsLive, on_join-IsOrderly,
  on_join-IsLive, IsWaiting, IsLive,
}

module _ {F : Type 0} (t : Texts F) where
  touch-IsLive : (w : World) (p : Packet) (c : Connector F) → IsLive c → IsLive (touch t w p c)
  unfolding touch
  touch-IsLive w p c l =
      if-holds IsLive (is_cmd 5 p || (is_cmd 109 p || is_cmd 18 p)) _ _
        (record {
          armed = l.armed;
          has_joined = l.has_joined;
          asked = l.asked;
          few_messages = l.few_messages;
          few_errors = l.few_errors;
          numbered = l.numbered;
        })
        l

  refused-IsLive :
      (c : Connector F)
      → IsLive c
      → IsLive (close_conn (post_error acceptance_failed (record c { seq = c.seq + 1 })))
  refused-IsLive c l = close_conn-IsLive _ (post_error-IsLive _ _ (tick-IsLive c l))

  on_balloon-IsLive :
      (w : World) (sink : Donation → Bool) (p : Packet) (c : Connector F)
      → IsLive c
      → IsLive (on_balloon t w sink p c)
  unfolding on_balloon donation_of
  on_balloon-IsLive w sink p c l = elim (Option-cases (parse_int (field_at 3 p.fields))) [
    | inl bad ↦ rw (on_balloon, bad) (refused-IsLive c l)
    | inr (count, good) ↦
        rw (on_balloon, good)
          (if-holds IsLive (takes t sink (donation_of t w.now p count c)) _ _
            (record {
              armed = l.armed;
              has_joined = l.has_joined;
              asked = l.asked;
              few_messages = l.few_messages;
              few_errors = l.few_errors;
              numbered = (omega arith, l.numbered);
            })
            (refused-IsLive c l))
  ]

  on_donation-IsLive :
      (w : World) (p : Packet) (c : Connector F) → IsLive c → IsLive (on_donation t w p c)
  unfolding on_donation unsupported
  on_donation-IsLive w p c l = elim (Option-cases w.sink) [
    | inl none_set ↦ rw (on_donation, none_set) (emit_message-IsLive _ c l)
    | inr (sink, set) ↦
        rw (on_donation, set)
          (if-holds IsLive (is_cmd 18 p) _ _ (on_balloon-IsLive w sink p c l) (push-IsLive _ c l))
  ]

  on_content-IsLive :
      (w : World) (p : Packet) (c : Connector F) → IsLive c → IsLive (on_content t w p c)
  unfolding on_content
  on_content-IsLive w p c l = if-holds IsLive (is_cmd 5 p) _ _ (emit_message-IsLive _ c l) (
      if-holds IsLive (is_cmd 109 p) _ _ (emit_message-IsLive _ c l) (
        if-holds IsLive (is_cmd 18 p || (is_cmd 37 p || (is_cmd 41 p || is_cmd 121 p))) _ _
          (on_donation-IsLive w p c l)
          (if-holds IsLive (is_cmd 91 p || (is_cmd 93 p || is_cmd 108 p)) _ _
            (emit_message-IsLive _ c l)
            (if-holds IsLive (is_cmd 10 p || is_cmd 104 p) _ _ (emit_message-IsLive _ c l) l))))

  handle_packet-IsLive :
      (w : World) (p : Packet) (c : Connector F) → IsLive c → IsLive (handle_packet t w p c)
  unfolding handle_packet
  handle_packet-IsLive w p c l =
      if-holds IsLive
        ((c.has_joined_channel && not c.joined) && (not (is_cmd 1 p) && not (is_cmd 2 p))) _ _ l
        (if-holds IsLive (is_cmd 1 p) _ _ (on_login-IsLive w p c l) (
          if-holds IsLive (is_cmd 2 p) _ _ (on_join-IsLive p c l)
            (on_content-IsLive w p _ (touch-IsLive w p c l))))

  handle_packet-IsOrderly :
      (w : World) (p : Packet) (c : Connector F) → IsWaiting c → IsOrderly (handle_packet t w p c)
  unfolding handle_packet
  handle_packet-IsOrderly w p c h = elim (Bool-cases (is_cmd 1 p)) [
    | inl login ↦ simp (login, h.armed, h.not_joined) (inl (on_login-IsWaiting w p c h))
    | inr no_login ↦ elim (Bool-cases (is_cmd 2 p)) [
      | inl join ↦ simp (no_login, join, h.armed, h.not_joined) (on_join-IsOrderly p c h)
      | inr content ↦ simp (no_login, content, h.armed, h.not_joined) (inl h)
    ]
  ]

  -- What happens to a connection: a packet arrives, the worker takes a message or an error, or the
  -- connection closes.
  pub data Step : Connector F → Connector F → Type 0 where
    arrives : (w : World) (p : Packet) (c : Connector F) → Step c (handle_packet t w p c)
    takes_message : (c : Connector F) → Step c (record c { messages = drop 1 c.messages })
    takes_error : (c : Connector F) → Step c (record c { errors = drop 1 c.errors })
    closes : (c : Connector F) → Step c (close_conn c)

  pub data Run (c : Connector F) : Connector F → Type 0 where
    start : Run c c
    then_step : {d e : Connector F} → Run c d → Step d e → Run c e

  length-drop_one : {A : Type 0} (n : ℕ) (xs : List A) → length xs ≤ n → length (drop 1 xs) ≤ n
  length-drop_one n [] h = h
  length-drop_one n (x ∷ xs) h = ground (arith, h)

  Step-IsLive : {c d : Connector F} → Step c d → IsLive c → IsLive d
  Step-IsLive (arrives w p c) l = handle_packet-IsLive w p c l
  Step-IsLive (takes_message c) l = record {
    armed = l.armed;
    has_joined = l.has_joined;
    asked = l.asked;
    few_messages = length-drop_one _ c.messages l.few_messages;
    few_errors = l.few_errors;
    numbered = l.numbered;
  }
  Step-IsLive (takes_error c) l = with_errors-IsLive _ c (length-drop_one _ c.errors l.few_errors) l
  Step-IsLive (closes c) l = close_conn-IsLive c l

  Step-IsWaiting : {c d : Connector F} → Step c d → IsWaiting c → IsOrderly d
  unfolding close_conn
  Step-IsWaiting (arrives w p c) h = handle_packet-IsOrderly w p c h
  Step-IsWaiting (takes_message c) h = inl (record {
    armed = h.armed;
    not_joined = h.not_joined;
    silent = ap (drop 1) h.silent;
    no_donation = h.no_donation;
    few_errors = h.few_errors;
  })
  Step-IsWaiting (takes_error c) h = inl (record {
    armed = h.armed;
    not_joined = h.not_joined;
    silent = h.silent;
    no_donation = h.no_donation;
    few_errors = length-drop_one _ c.errors h.few_errors;
  })
  Step-IsWaiting (closes c) h = inl (record {
    armed = h.armed;
    not_joined = h.not_joined;
    silent = h.silent;
    no_donation = h.no_donation;
    few_errors = h.few_errors;
  })

  Run-keeps_IsOrderly : {c d : Connector F} → Run c d → IsOrderly c → IsOrderly d
  Run-keeps_IsOrderly start h = h
  Run-keeps_IsOrderly (then_step r s) h = elim (Run-keeps_IsOrderly r h) [
    | inl waiting ↦ Step-IsWaiting s waiting
    | inr live ↦ inr (Step-IsLive s live)
  ]

  connected-IsWaiting :
      (id name epoch : Bytes) (at : ℕ) (chat_no ftk : Bytes)
      → IsWaiting (connected {F = F} id name epoch at chat_no ftk)
  unfolding connected
  connected-IsWaiting id name epoch at chat_no ftk = record {
    armed = refl;
    not_joined = refl;
    silent = refl;
    no_donation = refl;
    few_errors = omega arith;
  }

  -- Whatever packets arrive on a new connection, in whatever order the worker takes messages and
  -- errors or the connection closes: either the join was not acknowledged and nothing was emitted
  -- and no donation accepted, or the join was asked for and acknowledged, the two channels are
  -- within their sizes, and the accepted donations have strictly growing sequence numbers.
  pub Run-IsOrderly :
      (id name epoch : Bytes) (at : ℕ) (chat_no ftk : Bytes) (c : Connector F)
      → Run (connected id name epoch at chat_no ftk) c
      → IsWaiting c ⊎ IsLive c
  Run-IsOrderly id name epoch at chat_no ftk c r =
      Run-keeps_IsOrderly r (inl (connected-IsWaiting id name epoch at chat_no ftk))
