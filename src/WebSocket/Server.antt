-- ===== src/WebSocket/Server.antt =====
-- The sockets of websocket/WebSocketServer.cpp: accepting connections and receiving from them, on any
-- results of the calls of the operating system.
pub mod Accepting
pub mod Working
pub mod Closing
pub mod Silent
mod Tests
use dumais_lib.Prelude.{
  ℕ, zero, suc, Bool, true, false, Option, none, some, List, [], ◌∷◌, Text, length, leb, ◌==◌,
  if◌then◌else◌,
}
use dumais_lib.Prelude.Maps.{Map, lookup, insert, erase}
use dumais_lib.Utils.RingBuffer.{empty_ring}
use dumais_lib.WebSocket.Parser.{new_parser}
use dumais_lib.WebSocket.Connection.{WsState}
use dumais_lib.WebSocket.Upgrade.{Socket, Handler, receive}

-- `webSockets`, from descriptors.
abbrev pub Sockets : Type 0
Sockets = Map Socket

pub record Server : Type 0 where
  pub web_sockets : Sockets
  pub max_connections : ℕ
  pub is_listening : Bool

-- `abort`.
unfoldable pub abort : Server → Server
abort server = record server { web_sockets = []; is_listening = false }

-- The constructor of `WebSocket`, which leaves the state as it finds it.
unfoldable pub new_socket : (state : WsState) → Socket
new_socket state = record {
  http = true;
  http_parser = record { stored = [] };
  connection = record {
    state = state;
    ws_parser = new_parser;
    tx_list = empty_ring (record { buffer = []; current_index = 0 }) 1000;
    current = none;
    closing_time = 0;
    delivered = [];
  };
  opened = 0;
}

-- What a call of `accept` returns: a descriptor, or -1 with the error `EAGAIN` or another one.
pub data Accepted : Type 0 where
  connection : (fd : ℕ) → Accepted
  none_left accept_failed : Accepted

-- The loop of `processAccept`, on the results of its calls; they end where the loop does.
unfoldable pub accept_loop : WsState → List Accepted → Server → Bool × Server
unfolding insert new_socket
accept_loop state [] server = (true, server)
accept_loop state (none_left ∷ calls) server = (true, server)
accept_loop state (accept_failed ∷ calls) server = (false, server)
accept_loop state (connection fd ∷ calls) server =
    accept_loop state calls
      (record server { web_sockets = insert fd (new_socket state) server.web_sockets })

-- `processAccept`.
unfoldable pub process_accept : WsState → List Accepted → Server → Bool × Server
unfolding accept_loop
process_accept state calls server =
    if leb server.max_connections (length server.web_sockets)
    then (true, server)
    else accept_loop state calls server

-- What a call of `recv` returns: data, nothing at the end of the stream, or -1 with the error `EAGAIN`
-- or another one.
pub data Received : Type 0 where
  bytes : Text → Received
  end_of_stream none_yet receive_failed : Received

-- How `processReceive` ends: with a server, or where an erased element is read, which has no defined
-- behaviour, or within `processData`.
pub data Ending : Type 0 where
  returned : Server → Ending
  undefined endless : Ending

-- The loop of `processReceive` for a socket, on the results of its calls.
module _ (behind : ℕ × ℕ × ℕ) (handler : Option Handler) (signed : Bool) (now fuel fd : ℕ) where
  unfoldable pub receive_calls : List Received → Server → Socket → Ending
  unfolding insert erase abort receive
  receive_calls [] server s = returned server
  receive_calls (end_of_stream ∷ calls) server s = undefined
  receive_calls (none_yet ∷ calls) server s = returned server
  receive_calls (receive_failed ∷ calls) server s = returned (abort server)
  receive_calls (bytes data_read ∷ calls) server s =
      elim (receive behind handler signed now fuel s data_read) [
        | none ↦ endless
        | some (open_still, next) ↦
            let more =
              receive_calls calls
                (record server { web_sockets = insert fd next server.web_sockets }) next in
            if open_still
            then more
            else returned (record server { web_sockets = erase fd server.web_sockets })
      ]

  -- `processReceive`.
  unfoldable pub process_receive : List Received → Server → Ending
  unfolding lookup receive_calls
  process_receive calls server = elim (lookup fd server.web_sockets) [
    | none ↦ returned server
    | some s ↦ receive_calls calls server s
  ]
