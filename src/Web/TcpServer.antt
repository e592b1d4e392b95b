-- ===== src/Web/TcpServer.antt =====
-- `TcpServer` of webserver/TcpServer.cpp, on any results of the calls of the operating system, with
-- the web server as the observer of its clients.
mod Tests
pub mod Connected
pub mod Runs
pub mod Turns
pub mod Failing
pub mod Replying
use dumais_lib.Prelude.{
  ℕ, suc, Bool, true, false, ◌&&◌, ◌||◌, Option, none, some, List, [], ◌∷◌, ◌++◌, Text, length,
  if◌then◌else◌,
}
use dumais_lib.Prelude.Maps.{lookup, insert, erase}
use dumais_lib.Web.Client.{Outcome, new_client, send_loop}
use dumais_lib.Web.Framing.{Receiver, on_receive}
use dumais_lib.Web.Response.{Response}
use dumais_lib.Web.Observer.{
  Ending, returned, undefined, endless, ◌>>=◌, Peer, Peers, State, Setup, Readings, connected,
  disconnected, on_messages, on_errors, answered, send_answers,
}

-- `abort`, and what `stop` does to the loop.
unfoldable pub abort : State → State
abort st = record st { stopping = true }

-- The constructor of `TcpClient`.
unfoldable pub new_peer : (address : ℕ) → Peer
unfolding new_client
new_peer address = record {
  address = address;
  receiver = record { failed = false; stored = []; messages = []; errors = [] };
  sender = new_client;
  sent = [];
}

-- What a call of `accept` returns: a descriptor, with the pointer of the client that is made for it, or
-- no socket, with the error `EAGAIN` or another one.
pub data Accepted : Type 0 where
  connection : (fd address : ℕ) → Accepted
  none_left accept_failed : Accepted

module _ (env : Setup) where
  -- A connection that is accepted.
  unfoldable pub take_connection : (fd address : ℕ) → State → State
  unfolding insert new_peer connected
  take_connection fd address st =
      connected env address
        (record st { client_list = insert fd (new_peer address) st.client_list })

  -- The loop of `processAccept`, on the results of its calls, which end where the loop does.
  unfoldable pub accept_loop : List Accepted → State → Bool × State
  unfolding take_connection
  accept_loop [] st = (true, st)
  accept_loop (none_left ∷ calls) st = (true, st)
  accept_loop (accept_failed ∷ calls) st = (false, st)
  accept_loop (connection fd address ∷ calls) st = accept_loop calls (take_connection fd address st)

  -- `processAccept`, and the branch of `run` that calls it.
  unfoldable pub process_accept : List Accepted → State → Bool × State
  unfolding accept_loop
  process_accept calls st = if st.stopping then (false, st) else accept_loop calls st

  unfoldable pub abort_unless : Bool × State → State
  unfolding abort
  abort_unless (true, st) = st
  abort_unless (false, st) = abort st

  unfoldable pub accept_event : List Accepted → State → State
  unfolding process_accept abort_unless
  accept_event calls st = abort_unless (process_accept calls st)

-- What a call of `read` returns: data, with what stands behind the buffer in memory and the readings of
-- the calls that follow from it; 0; or -1 with the error `ECONNRESET`, `EAGAIN` or another one.
pub data Received : Type 0 where
  bytes : (data_read behind : Text) → (ℕ → Readings) → Received
  end_of_stream reset none_yet receive_failed : Received

-- The members of the client that is removed are freed.
module _ (env : Setup) (fuel fd : ℕ) where
  unfoldable pub remove : Peer → State → State
  unfolding disconnected erase
  remove p st =
      let st' = disconnected env p.address st in
      record st' { client_list = erase fd st'.client_list }

  -- `onReceive` of the client, with the calls that it makes.
  unfoldable pub receive : Peer → (data_read behind : Text) → (ℕ → Readings) → State → Ending State
  unfolding on_receive insert on_messages on_errors
  receive p data_read behind now st =
      elim (on_receive env.rx env.atoi behind fuel
        (record (p.receiver) { messages = []; errors = [] }) data_read) [
          | none ↦ endless
          | some (ok, r) ↦
              on_messages env now 0 p.address r.messages
                (record st { client_list = insert fd (record p { receiver = r }) st.client_list })
              >>= on_errors p.address r.errors
        ]

  -- A round of the loop of `processReceive`: whether the loop goes on, and the state.
  unfoldable pub receive_round : Received → State → Ending (Bool × State)
  unfolding lookup receive remove abort
  receive_round call st = elim (lookup fd st.client_list) [
    | none ↦ undefined
    | some p ↦ if st.stopping then returned (false, st) else elim call [
      | bytes data_read behind now ↦
          receive p data_read behind now st >>= λ next. returned (true, next)
      | end_of_stream ↦ returned (false, remove p st)
      | reset ↦ returned (false, remove p st)
      | none_yet ↦ returned (false, st)
      | receive_failed ↦ returned (false, abort st)
    ]
  ]

  -- The loop, on the results of its calls, which end where the loop does.
  unfoldable pub receive_loop : List Received → State → Ending State
  unfolding receive_round
  receive_loop [] st = returned st
  receive_loop (call ∷ calls) st = receive_round call st >>= λ next. elim (next.0) [
    | true ↦ receive_loop calls next.1
    | false ↦ returned next.1
  ]

  -- `processReceive`.
  unfoldable pub process_receive : List Received → State → Ending State
  unfolding lookup receive_loop
  process_receive calls st = elim (lookup fd st.client_list) [
    | none ↦ returned st
    | some p ↦ receive_loop calls st
  ]

-- The round of `processSend` for a client, on the outcomes of its calls of `send`: a client that is
-- lost or has failed is erased through the iterator that is read or advanced next.
unfoldable pub send_peer : List Outcome → Peer → Ending (Bool × Peer)
unfolding send_loop
send_peer os p =
    let (out, ended, c) = send_loop os p.sender in
    if ended.up
    then if p.receiver.failed
      then undefined
      else returned (ended.aborted, record p { sender = c; sent = p.sent ++ out })
    else undefined

-- The outcomes are those of the client of a descriptor.
unfoldable pub send_peers : (ℕ → List Outcome) → Peers → Ending (Bool × Peers)
unfolding send_peer
send_peers os [] = returned (false, [])
send_peers os ((fd, p) ∷ m) = send_peer (os fd) p >>= λ first.
    send_peers os m >>= λ rest. returned (first.0 || rest.0, (fd, first.1) ∷ rest.1)

-- `processSend`.
unfoldable pub process_send : (ℕ → List Outcome) → State → Ending State
unfolding send_peers
process_send os st =
    if st.stopping
    then returned st
    else send_peers os st.client_list >>= λ (next : Bool × Peers).
        returned (record st { client_list = next.1; stopping = next.0 })

-- An event that `epoll_wait` reports, with the results of the calls that it leads to; `woken` is one of
-- the control descriptor or one that is not for reading.
pub data Event : Type 0 where
  acceptable : List Accepted → Event
  readable : (fuel fd : ℕ) → List Received → Event
  woken : Event

module _ (env : Setup) where
  unfoldable pub handle : Event → State → Ending State
  unfolding accept_event process_receive
  handle (acceptable calls) st = returned (accept_event env calls st)
  handle (readable fuel fd calls) st = process_receive env fuel fd calls st
  handle woken st = returned st

  unfoldable pub handle_all : List Event → State → Ending State
  unfolding handle
  handle_all [] st = returned st
  handle_all (e ∷ es) st = handle e st >>= handle_all es

  -- A round of the loop of `run`: the events, the answers of the listener, and what is to be sent.
  unfoldable pub round : List Event → (ℕ → List Outcome) → State → Ending State
  unfolding handle_all send_answers process_send
  round es os st = handle_all es st >>= send_answers >>= process_send os

-- The end of `run`: every client is closed and freed; the web server is not told.
unfoldable pub exit : State → State
exit st = record st { client_list = [] }

-- What the loop of `run` meets in turn: a round, an answer that the listener gives, or a call of
-- `stop`. What other threads do within a round stands before it or behind it.
pub data Turn : Type 0 where
  served : List Event → (ℕ → List Outcome) → Turn
  given : (client : ℕ) → (cookie : Text) → Option Response → Turn
  stopped : Turn

module _ (env : Setup) where
  unfoldable pub turn : Turn → State → Ending State
  unfolding round answered abort
  turn (served es os) st = if st.stopping then returned st else round env es os st
  turn (given a cookie resp) st = returned (answered a cookie resp st)
  turn stopped st = returned (abort st)

  -- The loop of `run`.
  unfoldable pub turns : List Turn → State → Ending State
  unfolding turn
  turns [] st = returned st
  turns (t ∷ ts) st = turn t st >>= turns ts

  -- `run`, which ends once the server is stopping.
  unfoldable pub run : List Turn → State → Ending State
  unfolding turns exit
  run ts st = turns ts st >>= λ end. returned (if end.stopping then exit end else end)
