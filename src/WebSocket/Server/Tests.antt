-- ===== src/WebSocket/Server/Tests.antt =====
-- Runs of the server of websocket/WebSocketServer.cpp with a connection that it closes.
use dumais_lib.Prelude.{◌≡◌, refl, true, false, none, [], ◌∷◌}
use dumais_lib.Utils.RingBuffer.{empty_ring, put, take_slot}
use dumais_lib.Web.Client.{again, sent}
use dumais_lib.WebSocket.Parser.{new_parser, parse_ws_message}
use dumais_lib.WebSocket.Connection.{
  Connection, connected, enqueue, close_web_socket, process_frames, process_data,
}
use dumais_lib.WebSocket.Upgrade.{Socket, receive}
use dumais_lib.WebSocket.Server.Working.{send_loop}
use dumais_lib.WebSocket.Server.Silent.{Later, begun, received, looped, send_loop-closing}

abbrev open_connection : Connection
open_connection = record {
  state = connected;
  ws_parser = new_parser;
  tx_list = empty_ring (record { buffer = []; current_index = 0 }) 4;
  current = none;
  closing_time = 0;
  delivered = [];
}

-- A connection that is closed at the time 100 and receives a part of a frame.
abbrev closing_connection : Connection
closing_connection = close_web_socket 100 open_connection

abbrev after_part : Connection
after_part = record closing_connection {
  ws_parser = (parse_ws_message false new_parser (137 ∷ [])).2;
}

abbrev socket : Connection → Socket
socket c = record { http = false; http_parser = record { stored = [] }; connection = c; opened = 1 }

-- It is closed, receives a part of a frame, and is asked to send.
part_Later :
    Later
      (0, 0, 0)
      none
      false
      (socket closing_connection)
      (send_loop (sent 2 ∷ again ∷ []) (socket after_part)).2
unfolding receive process_data process_frames parse_ws_message close_web_socket enqueue put
    take_slot empty_ring
part_Later =
    looped (socket after_part) _ (sent 2 ∷ again ∷ [])
      (received (socket closing_connection) (socket after_part) 101 3 (137 ∷ []) true begun refl)
      refl

send_loop-closing_example :
    (send_loop (sent 2 ∷ []) (send_loop (sent 2 ∷ again ∷ []) (socket after_part)).2).0 ≡ []
send_loop-closing_example =
    send_loop-closing (0, 0, 0) none false 100 (socket open_connection) (socket closing_connection)
      (send_loop (sent 2 ∷ again ∷ []) (socket after_part)).2 (sent 2 ∷ []) refl refl part_Later
