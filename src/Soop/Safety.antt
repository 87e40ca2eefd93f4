-- ===== src/Soop/Safety.antt =====
-- A connection waits for its join, and then keeps its bounds and its numbers
-- (worker/internal/connector/soop.go).
use rogi_collector.Prelude.{
  if-holds, ℕ, ◌+◌, ◌≤◌, ◌<◌, ◌≡◌, refl, sym, subst, ◌⊎◌, inl, inr, Bool, true, false, ◌&&◌, ◌||◌,
  not, Option, none, some, List, [], ◌∷◌, length, length-append, arith, ltb, if◌then◌else◌, int_eq,
  Bool-cases, pos,
}
use rogi_collector.Journal.Model.{Donation}
use rogi_collector.Soop.Packet.{Packet}
use rogi_collector.Soop.Model.{
  ChatMessage, ConnectorError, Connector, World, msg_buf_size, err_buf_size, push, post_error,
  emit_message, close_conn,
}
use rogi_collector.Soop.Connector.{on_login, on_join}

-- Newest first, the sequence numbers go down from below `n`.
abbrev pub Falling : ℕ → List Donation → Type 0
Falling n [] = Unit
Falling n (d ∷ ds) = (d.sequence < n) × Falling d.sequence ds

Falling-le : (n m : ℕ) (ds : List Donation) → n ≤ m → Falling n ds → Falling m ds
Falling-le n m [] low h = tt
Falling-le n m (d ∷ ds) low h = (omega (arith, h.0), h.1)

module _ {F : Type 0} where
  -- Before the join: nothing was emitted, and the sink took nothing.
  pub record IsWaiting (c : Connector F) : Type 0 where
    pub armed : c.has_joined_channel ≡ true
    pub not_joined : c.joined ≡ false
    pub silent : c.messages ≡ []
    pub no_donation : c.accepted ≡ []
    pub few_errors : length c.errors ≤ err_buf_size

  -- After it: the join was asked for, the channels are within their sizes, and the accepted
  -- donations have strictly growing sequence numbers.
  pub record IsLive (c : Connector F) : Type 0 where
    pub armed : c.has_joined_channel ≡ true
    pub has_joined : c.joined ≡ true
    pub asked : c.join_requested ≡ true
    pub few_messages : length c.messages ≤ msg_buf_size
    pub few_errors : length c.errors ≤ err_buf_size
    pub numbered : Falling (c.seq + 1) c.accepted

  pub push-IsLive : (m : ChatMessage F) (c : Connector F) → IsLive c → IsLive (push m c)
  unfolding push
  push-IsLive m c l = elim (Bool-cases (ltb (length c.messages) msg_buf_size)) [
    | inl room ↦ simp room (record {
      armed = l.armed;
      has_joined = l.has_joined;
      asked = l.asked;
      few_messages = ground (arith, length-append c.messages (m ∷ []));
      few_errors = l.few_errors;
      numbered = l.numbered;
    })
    | inr full ↦ simp full (record {
      armed = l.armed;
      has_joined = l.has_joined;
      asked = l.asked;
      few_messages = l.few_messages;
      few_errors = l.few_errors;
      numbered = l.numbered;
    })
  ]

  pub tick-IsLive : (c : Connector F) → IsLive c → IsLive (record c { seq = c.seq + 1 })
  tick-IsLive c l = record {
    armed = l.armed;
    has_joined = l.has_joined;
    asked = l.asked;
    few_messages = l.few_messages;
    few_errors = l.few_errors;
    numbered = Falling-le (c.seq + 1) (c.seq + 1 + 1) c.accepted (omega arith) l.numbered;
  }

  pub emit_message-IsLive :
      (m : Option (ChatMessage F)) (c : Connector F) → IsLive c → IsLive (emit_message m c)
  unfolding emit_message
  emit_message-IsLive none c l = l
  emit_message-IsLive (some m) c l = push-IsLive m _ (tick-IsLive c l)

  post_error-few :
      (e : ConnectorError) (c : Connector F)
      → length c.errors ≤ err_buf_size
      → length (post_error e c).errors ≤ err_buf_size
  unfolding post_error
  post_error-few e c h = ground (arith, length-append c.errors (e ∷ []))

  -- Posting an error changes the errors only.
  post_error-errors :
      (e : ConnectorError) (c : Connector F)
      → post_error e c ≡ record c { errors = (post_error e c).errors }
  unfolding post_error
  post_error-errors e c = elim (Bool-cases (ltb (length c.errors) err_buf_size)) [
    | inl room ↦ simp room refl
    | inr full ↦ simp full refl
  ]

  pub with_errors-IsLive :
      (es : List ConnectorError) (c : Connector F)
      → length es ≤ err_buf_size
      → IsLive c
      → IsLive (record c { errors = es })
  with_errors-IsLive es c few l = record {
    armed = l.armed;
    has_joined = l.has_joined;
    asked = l.asked;
    few_messages = l.few_messages;
    few_errors = few;
    numbered = l.numbered;
  }

  pub post_error-IsLive :
      (e : ConnectorError) (c : Connector F) → IsLive c → IsLive (post_error e c)
  post_error-IsLive e c l =
      subst IsLive (sym (post_error-errors e c))
        (with_errors-IsLive _ c (post_error-few e c l.few_errors) l)

  post_error-IsWaiting :
      (e : ConnectorError) (c : Connector F) → IsWaiting c → IsWaiting (post_error e c)
  post_error-IsWaiting e c h = subst IsWaiting (sym (post_error-errors e c)) (record {
    armed = h.armed;
    not_joined = h.not_joined;
    silent = h.silent;
    no_donation = h.no_donation;
    few_errors = post_error-few e c h.few_errors;
  })

  pub close_conn-IsLive : (c : Connector F) → IsLive c → IsLive (close_conn c)
  unfolding close_conn
  close_conn-IsLive c l = record {
    armed = l.armed;
    has_joined = l.has_joined;
    asked = l.asked;
    few_messages = l.few_messages;
    few_errors = l.few_errors;
    numbered = l.numbered;
  }

  -- Two states, each of which waits or is live.
  abbrev pub IsOrderly : Connector F → Type 0
  IsOrderly c = IsWaiting c ⊎ IsLive c

  pub on_login-IsWaiting :
      (w : World) (p : Packet) (c : Connector F) → IsWaiting c → IsWaiting (on_login w p c)
  unfolding on_login
  on_login-IsWaiting w p c h =
      if-holds IsWaiting (not (int_eq p.ret (pos 0))) _ _ (post_error-IsWaiting _ c h) (
        if-holds IsWaiting (not (c.alive && w.writes)) _ _ (post_error-IsWaiting _ c h) (record {
          armed = h.armed;
          not_joined = h.not_joined;
          silent = h.silent;
          no_donation = h.no_donation;
          few_errors = h.few_errors;
        }))

  pub on_login-IsLive :
      (w : World) (p : Packet) (c : Connector F) → IsLive c → IsLive (on_login w p c)
  unfolding on_login
  on_login-IsLive w p c l =
      if-holds IsLive (not (int_eq p.ret (pos 0))) _ _ (post_error-IsLive _ c l) (
        if-holds IsLive (not (c.alive && w.writes)) _ _ (post_error-IsLive _ c l) (record {
          armed = l.armed;
          has_joined = l.has_joined;
          asked = refl;
          few_messages = l.few_messages;
          few_errors = l.few_errors;
          numbered = l.numbered;
        }))

  -- The join's acknowledgement makes a connection that asked for it live.
  join-IsLive :
      (c : Connector F)
      → IsWaiting c
      → c.join_requested ≡ true
      → IsLive (record c { joined = true; signalled = c.has_joined_channel || c.signalled })
  join-IsLive c h asked = record {
    armed = h.armed;
    has_joined = refl;
    asked = asked;
    few_messages = subst (λ ms. length ms ≤ msg_buf_size) (sym h.silent) (omega arith);
    few_errors = h.few_errors;
    numbered = subst (Falling (c.seq + 1)) (sym h.no_donation) tt;
  }

  unless-holds :
      (P : Connector F → Type 0) (b : Bool) (c d : Connector F)
      → P c
      → (b ≡ true → P d)
      → P (if not b then c else d)
  unless-holds P true c d hc hd = hd refl
  unless-holds P false c d hc hd = hc

  pub on_join-IsOrderly : (p : Packet) (c : Connector F) → IsWaiting c → IsOrderly (on_join p c)
  unfolding on_join
  on_join-IsOrderly p c h = unless-holds IsOrderly c.join_requested _ _ (inl h) (λ asked.
      if-holds IsOrderly (not (int_eq p.ret (pos 0))) _ _ (inl (post_error-IsWaiting _ c h))
        (inr (join-IsLive c h asked)))

  pub on_join-IsLive : (p : Packet) (c : Connector F) → IsLive c → IsLive (on_join p c)
  unfolding on_join
  on_join-IsLive p c l = if-holds IsLive (not c.join_requested) _ _ l (
      if-holds IsLive (not (int_eq p.ret (pos 0))) _ _ (post_error-IsLive _ c l) (record {
        armed = l.armed;
        has_joined = refl;
        asked = l.asked;
        few_messages = l.few_messages;
        few_errors = l.few_errors;
        numbered = l.numbered;
      }))
