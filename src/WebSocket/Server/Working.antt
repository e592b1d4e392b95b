-- ===== src/WebSocket/Server/Working.antt =====
-- `WebSocketServer::work` of websocket/WebSocketServer.cpp: a round of events, the watchdogs and what
-- is to be sent.
use dumais_lib.Prelude.{
  ℕ, Bool, true, false, not, ◌&&◌, Option, none, some, List, [], ◌∷◌, ◌++◌, Text, take, drop,
  if◌then◌else◌,
}
use dumais_lib.Prelude.Maps.{Map}
use dumais_lib.Web.Client.{Outcome, again, send_failed, lost, sent}
use dumais_lib.WebSocket.Connection.{
  WsState, SendBuffer, is_connected, next_buffer, on_data_sent, watchdog,
}
use dumais_lib.WebSocket.Upgrade.{Socket, Handler}
use dumais_lib.WebSocket.Server.{
  Sockets, Server, abort, Accepted, process_accept, Received, Ending, returned, undefined, endless,
  process_receive,
}

-- `watchdog` of either protocol.
unfoldable pub watch : (now : ℕ) → Socket → Bool × Socket
unfolding watchdog
watch now s =
    if s.http
    then (true, s)
    else let (alive, c) = watchdog now s.connection in (alive, record s { connection = c })

-- `getTxData` of either protocol.
unfoldable pub left_of : Option SendBuffer → Text
left_of none = []
left_of (some b) = drop b.current_index b.buffer

unfoldable pub get_tx_data : Socket → Text × Socket
unfolding next_buffer left_of
get_tx_data s = if not s.http && not (is_connected s.connection.state) then ([], s) else (
  left_of (next_buffer s.connection).current,
  record s { connection = next_buffer s.connection },
)

-- The body of the loop of `processSend`, with the rounds that follow it. The results are the bytes that
-- go out, whether what follows is defined, and the socket: after an error and after the end of the
-- connection, the element of the loop over the map is erased and used again.
unfoldable pub after_send :
    (Socket → Text × Bool × Socket) → Outcome → Text × Socket → Text × Bool × Socket
unfolding on_data_sent
after_send rounds o ([], s) = ([], true, s)
after_send rounds again (b ∷ bytes, s) = rounds s
after_send rounds send_failed (b ∷ bytes, s) = ([], false, s)
after_send rounds lost (b ∷ bytes, s) = ([], false, s)
after_send rounds (sent n) (b ∷ bytes, s) =
    let (out, defined, s') = rounds (record s { connection = on_data_sent s.connection n }) in
    (take n (b ∷ bytes) ++ out, defined, s')

-- The loop for a socket, on the outcomes of its calls of `send` in turn; it ends when there is no data.
unfoldable pub send_loop : List Outcome → Socket → Text × Bool × Socket
unfolding get_tx_data after_send
send_loop [] s = ([], true, s)
send_loop (o ∷ os) s = after_send (send_loop os) o (get_tx_data s)

-- The loops over the map: `none` where the behaviour is not defined.
unfoldable pub watch_all : (now : ℕ) → Sockets → Option Sockets
unfolding watch
watch_all now [] = some []
watch_all now ((fd, s) ∷ m) =
    let rest = watch_all now m in
    if (watch now s).0
    then (elim rest [ none ↦ none | some left ↦ some ((fd, (watch now s).1) ∷ left) ])
    else none

-- The sockets, and the bytes that have gone out to each.
unfoldable pub send_all : (ℕ → List Outcome) → Sockets → Option (Sockets × Map Text)
unfolding send_loop
send_all os [] = some ([], [])
send_all os ((fd, s) ∷ m) =
    let rest = send_all os m in
    let (out, defined, s') = send_loop (os fd) s in
    if defined
    then (elim rest [ none ↦ none | some (left, outs) ↦ some ((fd, s') ∷ left, (fd, out) ∷ outs) ])
    else none

-- What `epoll_wait` reports, with the results of the calls that it leads to.
pub data Event : Type 0 where
  acceptable : WsState → List Accepted → Event
  readable : (fuel fd : ℕ) → List Received → Event
  writable : Event

unfoldable pub abort_unless : Bool × Server → Server
unfolding abort
abort_unless (true, server) = server
abort_unless (false, server) = abort server

module _ (behind : ℕ × ℕ × ℕ) (handler : Option Handler) (signed : Bool) (now : ℕ) where
  unfoldable pub handle : Event → Server → Ending
  unfolding process_accept process_receive abort_unless
  handle (acceptable state calls) server =
      returned (abort_unless (process_accept state calls server))
  handle (readable fuel fd calls) server =
      process_receive behind handler signed now fuel fd calls server
  handle writable server = returned server

  -- The loop over the events, which `abort` has freed if it was called.
  unfoldable pub handle_all : List Event → Server → Ending
  unfolding handle
  handle_all [] server = returned server
  handle_all (e ∷ es) server =
      if server.is_listening
      then (elim (handle e server) [
        | returned next ↦ handle_all es next
        | undefined ↦ undefined
        | endless ↦ endless
      ])
      else undefined

  unfoldable pub send_and_return : (ℕ → List Outcome) → Server → Ending
  unfolding watch_all send_all
  send_and_return os server = elim (watch_all now server.web_sockets) [
    | none ↦ undefined
    | some alive ↦ elim (send_all os alive) [
      | none ↦ undefined
      | some (left, outs) ↦ returned (record server { web_sockets = left })
    ]
  ]

  -- `work`: its result, and what it leaves.
  unfoldable pub work : List Event → (ℕ → List Outcome) → Server → Bool × Ending
  unfolding handle_all send_and_return
  work es os server =
      if server.is_listening
      then (
        true,
        elim (handle_all es server) [
          | returned next ↦ send_and_return os next
          | undefined ↦ undefined
          | endless ↦ endless
        ],
      )
      else (false, returned server)
