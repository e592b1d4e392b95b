-- ===== src/WebSocket/Server/Accepting.antt =====
-- How many connections websocket/WebSocketServer.cpp accepts.
use dumais_lib.Prelude.{
  ℕ, ◌+◌, ◌≡◌, refl, arith, Bool-cases, inl, inr, none, List, [], ◌∷◌, ◌++◌, map, length, leb,
  if◌then◌else◌,
}
use dumais_lib.Prelude.Maps.{lookup, insert, length-insert_new}
use dumais_lib.WebSocket.Connection.{WsState}
use dumais_lib.WebSocket.Upgrade.{Socket}
use dumais_lib.WebSocket.Server.{
  Sockets, Server, new_socket, connection, none_left, accept_loop, process_accept,
}

-- Descriptors that are all new, and different from each other.
unfoldable pub AreNew : List ℕ → Sockets → Type 0
unfolding lookup
AreNew [] m = Unit {0}
AreNew (fd ∷ fds) m = (lookup fd m ≡ none) × (((s : Socket) → AreNew fds (insert fd s m)))

accept_loop-count :
    (state : WsState) (fds : List ℕ) (server : Server)
    → AreNew fds server.web_sockets
    → length (accept_loop state (map connection fds ++ none_left ∷ []) server).1.web_sockets
      ≡ length server.web_sockets + length fds
unfolding accept_loop AreNew
accept_loop-count state [] server h = omega arith
accept_loop-count state (fd ∷ fds) server (new, h) = omega (
  arith,
  accept_loop-count state fds
      (record server { web_sockets = insert fd (new_socket state) server.web_sockets })
      (h (new_socket state)),
  length-insert_new fd (new_socket state) server.web_sockets new,
)

-- Connections that wait are all accepted if the server has less than its maximum when it starts,
-- however many they are, and none otherwise: the limit is looked at once. Their descriptors are
-- new and different from each other.
pub process_accept-count :
    (state : WsState) (fds : List ℕ) (server : Server)
    → AreNew fds server.web_sockets
    → length (process_accept state (map connection fds ++ none_left ∷ []) server).1.web_sockets ≡ (
        if leb server.max_connections (length server.web_sockets)
        then length server.web_sockets
        else length server.web_sockets + length fds)
unfolding process_accept
process_accept-count state fds server h =
    elim (Bool-cases (leb server.max_connections (length server.web_sockets))) [
      | inl e ↦ rw (process_accept, e) refl
      | inr e ↦ rw (process_accept, e) (accept_loop-count state fds server h)
    ]
