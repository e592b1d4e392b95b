-- ===== src/Web/TcpServer/Tests.antt =====
-- Runs of the server of webserver/TcpServer.cpp.
use dumais_lib.Prelude.{
  ℕ, ◌≡◌, refl, arith, false, length, none, some, List, [], ◌∷◌, ◌++◌, Text, codes,
}
use dumais_lib.Prelude.Maps.{lookup, insert}
use dumais_lib.Utils.RingBuffer.{empty_ring}
use dumais_lib.Utils.RingBuffer.Refine.{Holds, empty_ring-Holds}
use dumais_lib.Json.Decimal.{decimal, digits_below}
use dumais_lib.Json.Number.{to_lower}
use dumais_lib.Web.Matching.{
  line, skip_spaces, advance, match_at, search_text, regex, digits_from, atoi,
}
use dumais_lib.Web.Auth.{Server, build_buffered_response}
use dumais_lib.Web.Client.{Client, again, no_buffer, new_client, left_of}
use dumais_lib.Web.Sending.{waiting, Pending}
use dumais_lib.Web.Response.{Response, header_text}
use dumais_lib.Web.Response.Codes.{get_code, response_codes_string}
use dumais_lib.WebSocket.Handshake.{end_of_header}
use dumais_lib.Web.Framing.{content_length, is_chunked, process_data}
use dumais_lib.Web.Framing.Messages.{HasNoNul, IsMessage}
use dumais_lib.Web.Serving.{replied, has_client, on_client_message}
use dumais_lib.Web.Observer.{
  Ending, returned, undefined, State, Setup, Readings, new_state, sender_at, send_answers, answered,
}
use dumais_lib.Web.Observer.Peers.{addresses, AreDistinct}
use dumais_lib.Web.Observer.Known.{EndsIn, IsConnected, new_state-IsConnected, answered-IsConnected}
use dumais_lib.Web.Observer.Answering.{send_answers-returned}
use dumais_lib.Web.TcpServer.{
  new_peer, connection, none_left, take_connection, bytes, end_of_stream, receive, process_send,
  acceptable, readable, handle, served, given, stopped, Turn, turns,
}
use dumais_lib.Web.TcpServer.Connected.{AreNew, take_connection-IsConnected}
use dumais_lib.Web.TcpServer.Turns.{
  IsNewEvent, AreNewEvents, IsNewTurn, AreNewTurns, turns_new-IsConnected,
}
use dumais_lib.Web.TcpServer.Failing.{refusal_text, receive-refused}
use dumais_lib.Web.TcpServer.Replying.{receive-replied}

abbrev greeting : Response
greeting = build_buffered_response 3 (codes "hi") [] []

abbrev env : Setup
env = record { rx = regex; atoi = atoi; async = false; listener = some (λ q. some greeting) }

abbrev auth : Server
auth = record { passwords = []; sessions = []; session_expires = 0; needs_auth = false }

abbrev now : ℕ → Readings
now i = record { t0 = 0; t1 = 0; rand = λ k. 0 }

-- A server with one client.
abbrev one_client : State
one_client = take_connection env 5 1 (new_state auth)

one_client-IsConnected : IsConnected env one_client
unfolding new_state lookup addresses has_client
one_client-IsConnected =
    take_connection-IsConnected env 5 1 (new_state auth) refl refl (new_state-IsConnected env auth)

EndsIn-all : (P : State → Type 0) (m : Ending State) → ((s : State) → P s) → EndsIn P m
unfolding EndsIn
EndsIn-all P (returned s) h = h s
EndsIn-all P undefined h = tt
EndsIn-all P Ending.endless h = tt

abbrev request : Text
request = codes "POST / HTTP/1.1\r\nContent-Length: 2\r\n\r\nhi"

-- A client comes, is answered and leaves, a late answer comes, and the server is stopped.
abbrev some_turns : List Turn
some_turns =
    served
      (acceptable (connection 5 1 ∷ none_left ∷ [])
        ∷ readable 3 5 (bytes request [] now ∷ end_of_stream ∷ [])
        ∷ [])
      (λ fd. again ∷ [])
    ∷ given 1 [] (some greeting)
    ∷ stopped
    ∷ []

some_turns-AreNewTurns : AreNewTurns env some_turns (new_state auth)
unfolding AreNewTurns IsNewTurn AreNewEvents IsNewEvent AreNew new_state lookup addresses has_client
some_turns-AreNewTurns = (
  (
    (refl, refl, tt),
    EndsIn-all (AreNewEvents env (readable 3 5 (bytes request [] now ∷ end_of_stream ∷ []) ∷ []))
        (handle env (acceptable (connection 5 1 ∷ none_left ∷ [])) (new_state auth))
        (λ s. (tt, EndsIn-all (AreNewEvents env []) _ (λ t. tt))),
  ),
  EndsIn-all (AreNewTurns env (given 1 [] (some greeting) ∷ stopped ∷ [])) _ (λ s. (
    tt,
    EndsIn-all (AreNewTurns env (stopped ∷ [])) _
        (λ t. (tt, EndsIn-all (AreNewTurns env []) _ (λ u. tt))),
  )),
)

turns_new-IsConnected_example : EndsIn (IsConnected env) (turns env some_turns (new_state auth))
turns_new-IsConnected_example = turns_new-IsConnected env some_turns auth some_turns-AreNewTurns

send_answers-returned_example :
    (t : State) × (send_answers (answered 1 [] (some greeting) one_client) ≡ returned t)
    × IsConnected env t
    × (addresses t.client_list ≡ addresses (answered 1 [] (some greeting) one_client).client_list)
send_answers-returned_example =
    send_answers-returned env (answered 1 [] (some greeting) one_client)
      (answered-IsConnected env 1 [] (some greeting) one_client one_client-IsConnected)

abbrev chunked_request : Text
chunked_request = codes "OST / HTTP/1.1\r\nTransfer-Encoding: chunked\r\n\r\n"

new_client-Holds : Holds new_client.tx_list []
unfolding new_client
new_client-Holds = empty_ring-Holds no_buffer 4000 (omega arith) (omega arith)

receive-refused_example :
    (t : State) × (d : Client) × (receive env 1 5
        (new_peer 1)
        (b'P' ∷ chunked_request)
        []
        now
        one_client
      ≡ returned t)
    × (sender_at 1 t.client_list ≡ some d)
    × Pending d (left_of none ++ (waiting [] ++ refusal_text 3))
    × (process_send (λ fd. again ∷ []) t ≡ undefined)
unfolding new_state lookup insert take_connection process_data end_of_header is_chunked search_text
    match_at advance skip_spaces line to_lower new_peer new_client empty_ring refusal_text
receive-refused_example =
    receive-refused env 0 5 (new_peer 1) b'P' chunked_request [] now one_client 3 _
      (λ fd. again ∷ []) [] one_client-IsConnected refl refl refl refl new_client-Holds
      (omega arith)

request-IsMessage : IsMessage regex atoi request []
unfolding end_of_header HasNoNul content_length is_chunked search_text match_at advance skip_spaces
    line digits_from to_lower
request-IsMessage = record {
  header_end = 38;
  ends = refl;
  no_nul = ground arith;
  small = omega arith;
  content = refl;
  not_chunked = refl;
}

replied_greeting :
    on_client_message regex false (some (λ q. some greeting)) 0 0 (λ k. 0) auth request
    ≡ some (replied (some greeting), auth)
unfolding on_client_message
replied_greeting = refl

receive-replied_example :
    (t : State) × (d : Client) × (receive env 1 5 (new_peer 1) request [] now one_client
      ≡ returned t)
    × (sender_at 1 t.client_list ≡ some d)
    × Pending d (
        left_of none
        ++ (waiting [] ++ (header_text greeting (length greeting.content) ++ greeting.content)))
unfolding new_state lookup insert take_connection new_peer new_client empty_ring addresses
    AreDistinct has_client HasNoNul header_text get_code response_codes_string decimal digits_below
    build_buffered_response
receive-replied_example =
    receive-replied env 0 5 (new_peer 1) request [] now one_client greeting auth [] refl (refl, tt)
      refl refl request-IsMessage tt replied_greeting refl new_client-Holds (omega arith)
