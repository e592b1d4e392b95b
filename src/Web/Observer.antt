-- ===== src/Web/Observer.antt =====
-- `WebServer` of webserver/WebServer.cpp as the observer of the clients that webserver/TcpServer.cpp
-- keeps: what its calls do to those clients.
pub mod Peers
pub mod Known
pub mod Answering
pub mod Sent
use dumais_lib.Prelude.{
  ℕ, suc, ◌+◌, Bool, true, false, Option, none, some, List, [], ◌∷◌, ◌++◌, Text, length, ◌==◌,
  if◌then◌else◌,
}
use dumais_lib.Prelude.Maps.{Map}
use dumais_lib.Utils.RingBuffer.{Ring, empty_ring}
use dumais_lib.Web.Request.{Regex, Request}
use dumais_lib.Web.Auth.{Server}
use dumais_lib.Web.Client.{Client}
use dumais_lib.Web.Response.{Response, with_header, send_response}
use dumais_lib.Web.Framing.{Receiver}
use dumais_lib.Web.Serving.{
  Action, replied, deferred, on_client_message, on_framing_error, AsyncResponse, answer,
  on_client_connected, on_client_disconnected, process_async_queue,
}

-- How a function of the server ends: with a value, where it reads an object that it has deleted or
-- advances an iterator that it has erased, which has no defined behaviour, or not at all.
pub data Ending {ℓ} (A : Type ℓ) : Type ℓ where
  returned : A → Ending A
  undefined endless : Ending A

infixl 5 ◌>>=◌
abbrev pub ◌>>=◌ {ℓ κ} : {A : Type ℓ} {B : Type κ} → Ending A → (A → Ending B) → Ending B
returned a >>= f = f a
undefined >>= f = undefined
endless >>= f = endless

-- A `TcpClient`: the number that stands for its pointer, its two sides, and what has gone out to it.
pub record Peer : Type 0 where
  pub address : ℕ
  pub receiver : Receiver
  pub sender : Client
  pub sent : Text

-- `clientList`, from descriptors.
abbrev pub Peers : Type 0
Peers = Map Peer

-- The calls of the listener.
pub data Call : Type 0 where
  opened closed : Call
  asked : (client : ℕ) → (cookie : Text) → Request → Call  -- `processHTTPRequestAsync`

-- The members of `TcpServer` and of `WebServer` that change while the server runs, and the calls that
-- the listener has had.
pub record State : Type 0 where
  pub client_list : Peers
  pub stopping : Bool
  pub auth : Server
  pub clients : List ℕ
  pub responses : Ring AsyncResponse
  pub calls : List Call

-- The server once it is started: the ring has 200 slots.
unfoldable pub new_state : Server → State
unfolding empty_ring
new_state auth = record {
  client_list = [];
  stopping = false;
  auth = auth;
  clients = [];
  responses = empty_ring (record { client = 0; resp = none }) 200;
  calls = [];
}

-- What the server is given and does not change: the library's functions, the mode, and the listener
-- if there is one.
pub record Setup : Type 0 where
  pub rx : Regex
  pub atoi : Text → ℕ
  pub async : Bool
  pub listener : Option (Request → Option Response)

-- What the calls of `time` and `rand` return while a message is handled.
pub record Readings : Type 0 where
  pub t0 : ℕ
  pub t1 : ℕ
  pub rand : ℕ → ℕ

-- The client of a pointer.
unfoldable pub sender_at : ℕ → Peers → Option Client
sender_at a [] = none
sender_at a ((fd, p) ∷ m) = if p.address == a then some p.sender else sender_at a m

unfoldable pub set_sender : ℕ → Client → Peers → Peers
set_sender a c [] = []
set_sender a c ((fd, p) ∷ m) =
    if p.address == a then (fd, record p { sender = c }) ∷ m else (fd, p) ∷ set_sender a c m

-- `sendResponse`, whose rounds are one more than the response has bytes.
unfoldable pub respond : Response → (client : ℕ) → State → Ending State
unfolding sender_at set_sender
respond r a st = elim (sender_at a st.client_list) [
  | none ↦ undefined
  | some c ↦ elim (send_response (suc (length (with_header r).content)) r c) [
    | none ↦ endless
    | some d ↦ returned (record st { client_list = set_sender a d st.client_list })
  ]
]

unfoldable pub respond_if : Option Response → (client : ℕ) → State → Ending State
unfolding respond
respond_if none a st = returned st
respond_if (some r) a st = respond r a st

unfoldable pub called : Option (Request → Option Response) → Call → List Call → List Call
called none call calls = calls
called (some run) call calls = calls ++ call ∷ []

-- `onClientConnected`.
unfoldable pub connected : Setup → (client : ℕ) → State → State
unfolding on_client_connected called
connected env a st = record st {
  clients = on_client_connected a st.clients;
  calls = called env.listener opened st.calls;
}

-- `onClientDisconnected`.
unfoldable pub disconnected : Setup → (client : ℕ) → State → State
unfolding on_client_disconnected called
disconnected env a st = record st {
  clients = on_client_disconnected a st.clients;
  calls = called env.listener closed st.calls;
}

unfoldable pub perform : Setup → Action → (client : ℕ) → State → Ending State
unfolding respond_if called
perform env (replied r) a st = respond_if r a st
perform env (deferred cookie q) a st =
    returned (record st { calls = called env.listener (asked a cookie q) st.calls })

-- `onClientMessage`.
unfoldable pub on_message : Setup → Readings → (client : ℕ) → (buffer : Text) → State → Ending State
unfolding on_client_message perform
on_message env now a buffer st =
    elim (on_client_message env.rx env.async env.listener now.t0 now.t1 now.rand st.auth buffer) [
      | none ↦ undefined
      | some (action, auth) ↦ perform env action a (record st { auth = auth })
    ]

-- The calls that `onReceive` makes of its observer: the messages in turn, with the readings from the
-- number `i` on, and the error that ends it if there is one.
unfoldable pub on_messages :
    Setup → (ℕ → Readings) → (i : ℕ) → (client : ℕ) → List Text → State → Ending State
unfolding on_message
on_messages env now i a [] st = returned st
on_messages env now i a (buffer ∷ buffers) st =
    on_message env (now i) a buffer st >>= on_messages env now (i + 1) a buffers

unfoldable pub on_errors : (client : ℕ) → List ℕ → State → Ending State
unfolding on_framing_error respond
on_errors a [] st = returned st
on_errors a (error ∷ errors) st = respond (on_framing_error error) a st >>= on_errors a errors

-- The callback of a request that has been given to the listener.
unfoldable pub answered : (client : ℕ) → (cookie : Text) → Option Response → State → State
unfolding answer
answered a cookie resp st = record st { responses = (answer a cookie resp st.responses).1 }

-- The calls of `sendResponse` that `processAsyncQueue` makes.
unfoldable pub respond_all : List (ℕ × Response) → State → Ending State
unfolding respond
respond_all [] st = returned st
respond_all ((a, r) ∷ rs) st = respond r a st >>= respond_all rs

-- `processAsyncQueue`, whose rounds are one more than the ring has slots.
unfoldable pub send_answers : State → Ending State
unfolding process_async_queue respond_all
send_answers st = elim (process_async_queue (suc st.responses.size) st.clients st.responses) [
  | none ↦ endless
  | some (rs, left) ↦ respond_all rs (record st { responses = left })
]

-- `getConnectionCount`.
unfoldable pub get_connection_count : State → ℕ
get_connection_count st = length st.clients
