-- ===== src/Web/Tests.antt =====
-- Runs of the client's queue of webserver/TcpClient.cpp.
use dumais_lib.Prelude.{none, some, [], ◌∷◌, ◌≡◌, refl, codes, arith}
use dumais_lib.Utils.RingBuffer.{empty_ring}
use dumais_lib.Utils.RingBuffer.Refine.{Holds, empty_ring-Holds, put_room}
use dumais_lib.Web.Query.{http_parser}
use dumais_lib.Web.Response.{Response}
use dumais_lib.Prelude.{false, none, refl, ◌≡◌, codes, []}
use dumais_lib.Prelude.{false}
use dumais_lib.Web.Client.{
  SendBuffer, Client, no_buffer, send_data, left_of, get_tx_data, sent_of, on_data_sent, again,
  sent, send_loop,
}
use dumais_lib.Web.Sending.{
  Pending, waiting, Fits, AreFitting, client_after, Continues, send_loop-Continues,
}

abbrev idle : Client
idle = record { tx_list = empty_ring no_buffer 2; current = none }

idle-Holds : Holds idle.tx_list []
idle-Holds = empty_ring-Holds no_buffer 2 (omega arith) (omega arith)

abbrev abc : SendBuffer
abc = record { buffer = codes "abc"; current_index = 0 }

-- A client that has sent one of three bytes.
abbrev busy : Client
busy = record idle { current = some (record abc { current_index = 1 }) }

busy-Pending : Pending busy (codes "bc")
unfolding Pending left_of waiting
busy-Pending = ([], idle-Holds, refl)

abbrev full : Client
full = send_data busy (codes "de")

full-Holds : Holds full.tx_list ((record { buffer = codes "de"; current_index = 0 }) ∷ [])
unfolding send_data empty_ring
full-Holds =
    (put_room idle.tx_list [] (record { buffer = codes "de"; current_index = 0 }) idle-Holds
      (omega arith)).1

send_loop-Continues_example : Continues (send_loop (again ∷ sent 1 ∷ sent 1 ∷ []) busy) (codes "bc")
unfolding AreFitting Fits client_after get_tx_data on_data_sent sent_of left_of
send_loop-Continues_example =
    send_loop-Continues (again ∷ sent 1 ∷ sent 1 ∷ []) busy (codes "bc")
      (tt, (omega arith, (omega arith, tt))) busy-Pending

abbrev greeting : Response
greeting = record {
  response_code = 3;
  content_type = [];
  auth_header = [];
  header = [];
  cookie = [];
  authentication_hack = false;
  header_built = false;
  content = codes "hi";
}

http_parser_test : http_parser (codes "GET /a?b=1&c=2 HTTP/1.1") ≡ record {
  request = codes "/a";
  param_list = (codes "b", codes "1") ∷ (codes "c", codes "2") ∷ [];
}
unfolding http_parser
http_parser_test = refl

-- A question mark behind the first line is taken for the start of the parameters.
http_parser_late_test : (http_parser (codes "GET /a HTTP/1.1 x?")).request ≡ codes "/a HTTP/1.1 x"
unfolding http_parser
http_parser_late_test = refl
