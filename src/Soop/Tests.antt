-- ===== src/Soop/Tests.antt =====
-- The theorems on the SOOP connector, at concrete packets.
use rogi_collector.Prelude.{
  ℕ, ◌+◌, ◌≡◌, refl, ◌⊎◌, true, none, some, List, [], ◌∷◌, ◌++◌, pos, arith, All, map,
}
use rogi_collector.Soop.Packet.{Packet, parse}
use rogi_collector.Soop.RoundTrip.{Sent, IsSendable, stream, received, four, parse-stream}
use rogi_collector.Soop.Malformed.{five, parse_negative_length}
use rogi_collector.Soop.Model.{Texts, Connector, World, connected}
use rogi_collector.Soop.Connector.{handle_packet}
use rogi_collector.Soop.Safety.{IsWaiting, IsLive}
use rogi_collector.Soop.Runs.{Run, start, then_step, arrives, Run-IsOrderly}
use rogi_collector.Soop.Balloons.{IsAccepted, IsRefused, handle_packet-keeps_balloon}

abbrev texts : Texts ℕ
texts = record {
  trim_space = λ cs. cs;
  to_upper = λ cs. cs;
  decode_gift = λ cs. none;
  parse_float = λ cs. none;
  zero_float = 0;
  of_int = λ z. 0;
  times_hundred = λ x. pos x;
  print_int = λ z. b'0' ∷ [];
  text = λ cs. "x";
}

abbrev two_sent : List Sent
two_sent =
    record { noise = 10 ∷ 13 ∷ []; cmd = 5; body = 12 ∷ b'h' ∷ 12 ∷ [] }
    ∷ record { noise = []; cmd = 18; body = [] }
    ∷ []

two_sent-IsSendable : All IsSendable two_sent
two_sent-IsSendable =
    (((refl, (refl, tt)), omega arith, omega arith), ((tt, omega arith, omega arith), tt))

parse-stream_example : parse (stream two_sent) ≡ some (map received two_sent)
parse-stream_example = parse-stream two_sent two_sent-IsSendable

parse_negative_length_example :
    parse (27 ∷ 9 ∷ (four 5 ++ (b'-' ∷ five (6 + 1) ++ (b'0' ∷ b'0' ∷ [])))) ≡ none
parse_negative_length_example = parse_negative_length 5 6 [] (omega arith) (omega arith)

abbrev new_connection : Connector ℕ
new_connection = connected (b'c' ∷ []) (b's' ∷ []) (b'e' ∷ []) 7 (b'1' ∷ []) (b'2' ∷ [])

-- A sink that takes every donation.
abbrev world : World
world = record { now = 9; uuid = b'u' ∷ []; writes = true; sink = some (λ d. true) }

abbrev login_ack : Packet
login_ack = record { cmd = pos 1; ret = pos 0; fields = []; raw = [] }

abbrev join_ack : Packet
join_ack = record { cmd = pos 2; ret = pos 0; fields = []; raw = [] }

abbrev balloon : Packet
balloon = record {
  cmd = pos 18;
  ret = pos 0;
  fields = [] ∷ (b'd' ∷ []) ∷ (b'n' ∷ []) ∷ (b'5' ∷ []) ∷ [];
  raw = [];
}

abbrev answered : Connector ℕ
answered = handle_packet texts world join_ack (handle_packet texts world login_ack new_connection)

abbrev three_packets : Run texts new_connection (handle_packet texts world balloon answered)
three_packets =
    then_step
      (then_step (then_step start (arrives world login_ack new_connection))
        (arrives world join_ack (handle_packet texts world login_ack new_connection)))
      (arrives world balloon answered)

Run-IsOrderly_example :
    IsWaiting (handle_packet texts world balloon answered)
    ⊎ IsLive (handle_packet texts world balloon answered)
Run-IsOrderly_example =
    Run-IsOrderly texts (b'c' ∷ []) (b's' ∷ []) (b'e' ∷ []) 7 (b'1' ∷ []) (b'2' ∷ [])
      (handle_packet texts world balloon answered) three_packets

abbrev joined_connection : Connector ℕ
joined_connection = record new_connection { joined = true; join_requested = true }

handle_packet-keeps_balloon_example :
    IsAccepted texts world
      (λ d. true)
      balloon
      joined_connection
      (handle_packet texts world balloon joined_connection)
    ⊎ IsRefused joined_connection (handle_packet texts world balloon joined_connection)
unfolding connected
handle_packet-keeps_balloon_example =
    handle_packet-keeps_balloon texts world (λ d. true) balloon joined_connection refl refl refl
