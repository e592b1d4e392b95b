-- ===== src/WebSocket/Server/Silent.antt =====
-- What goes out on a connection of websocket/WebSocket.cpp that has begun to close.
use dumais_lib.Prelude.{
  ℕ, ◌≡◌, refl, ap, sym, subst, ◌∙◌, arith, Bool, true, false, Option, none, some, List, [], Text,
  if◌then◌else◌,
}
use dumais_lib.Web.Client.{Outcome}
use dumais_lib.WebSocket.Frame.{send_data, ws_text, ws_binary}
use dumais_lib.WebSocket.Connection.{
  Connection, abort_web_socket, enqueue, close_web_socket, send_text, send_binary, process_data,
  watchdog,
}
use dumais_lib.WebSocket.Upgrade.{Socket, Handler, check_http_buffer, receive}
use dumais_lib.WebSocket.Server.Working.{watch, send_loop}
use dumais_lib.WebSocket.Server.Closing.{
  IsShut, enqueue-IsShut, close_web_socket-IsShut, process_data-IsShut, send_loop-IsShut,
}

module _ (behind : ℕ × ℕ × ℕ) (handler : Option Handler) (signed : Bool) where
  -- The sockets that `start` becomes, by data that is received, loops of sending, texts and bytes
  -- that the user sends, another close, and the watchdog, in any order.
  pub data Later (start : Socket) : Socket → Type 0 where
    begun : Later start start
    received :
        (s t : Socket) (now fuel : ℕ) (buf : Text) (open_still : Bool)
        → Later start s
        → receive behind handler signed now fuel s buf ≡ some (open_still, t)
        → Later start t
    looped :
        (s t : Socket) (os : List Outcome) → Later start s → (send_loop os s).2 ≡ t → Later start t
    texted :
        (s t : Socket) (text : Text)
        → Later start s
        → record s { connection = send_text s.connection text } ≡ t
        → Later start t
    bytes_given :
        (s t : Socket) (bytes : Text)
        → Later start s
        → record s { connection = send_binary s.connection bytes } ≡ t
        → Later start t
    closed_again :
        (s t : Socket) (now : ℕ)
        → Later start s
        → record s { connection = close_web_socket now s.connection } ≡ t
        → Later start t
    watched : (s t : Socket) (now : ℕ) → Later start s → (watch now s).1 ≡ t → Later start t

  -- A WebSocket that is not connected.
  abbrev IsSilent : Socket → Type 0
  IsSilent s = (s.http ≡ false) × IsShut s.connection

  -- What `receive` makes of the result for the connection.
  abbrev of_result : Socket → Option (Bool × Connection) → Option (Bool × Socket)
  of_result s none = none
  of_result s (some (open_still, d)) = some (open_still, record s { connection = d })

  abbrev socket_of : Socket → Option (Bool × Socket) → Socket
  socket_of s none = s
  socket_of s (some (open_still, t)) = t

  receive-IsSilent :
      (s t : Socket) (now fuel : ℕ) (buf : Text) (open_still : Bool)
      → IsSilent s
      → receive behind handler signed now fuel s buf ≡ some (open_still, t)
      → IsSilent t
  unfolding receive
  receive-IsSilent s t now fuel buf open_still (ws, shut) run =
      let call = process_data signed now fuel s.connection buf in
      let body : receive behind handler signed now fuel s buf ≡ of_result s call =
        ap
          (λ b. if b then some (true, check_http_buffer behind handler s buf) else of_result s call)
          ws
        ∙ refl in
      from call refl (sym body ∙ run)
    where
      from :
          (o : Option (Bool × Connection))
          → process_data signed now fuel s.connection buf ≡ o
          → of_result s o ≡ some (open_still, t)
          → IsSilent t
      from none e f = absurd (cc)
      from (some (b, d)) e f =
          subst IsSilent (ap (socket_of s) f)
            (ws, process_data-IsShut signed now fuel s.connection d buf b shut e)

  -- What the user sends.
  enqueued-IsShut :
      (c : Connection) (o : Option Text)
      → IsShut c
      → IsShut (elim o [ none ↦ c | some frame ↦ enqueue c frame ])
  enqueued-IsShut c none h = h
  enqueued-IsShut c (some frame) h = enqueue-IsShut c frame h

  watch-IsSilent : (now : ℕ) (s : Socket) → IsSilent s → IsSilent (watch now s).1
  unfolding watch watchdog abort_web_socket
  watch-IsSilent now s (ws, shut) =
      let call = watchdog now s.connection in
      let whole : watch now s ≡ (call.0, record s { connection = call.1 }) =
        ap (λ b. if b then (true, s) else (call.0, record s { connection = call.1 })) ws in
      let body : (watch now s).1 ≡ record s { connection = call.1 } = ap (λ r. r.1) whole in
      subst IsSilent (sym body) (ws, ground (arith, shut))

  Later-IsSilent : (start s : Socket) → IsSilent start → Later start s → IsSilent s
  unfolding send_text send_binary
  Later-IsSilent start _ h begun = h
  Later-IsSilent start t h (received s _ now fuel buf open_still l run) =
      receive-IsSilent s t now fuel buf open_still (Later-IsSilent start s h l) run
  Later-IsSilent start t h (looped s _ os l e) =
      let k = Later-IsSilent start s h l in
      subst IsSilent (sym (send_loop-IsShut os s k.0 k.1).1 ∙ e) k
  Later-IsSilent start t h (texted s _ text l e) =
      let k = Later-IsSilent start s h l in
      subst IsSilent e (k.0, enqueued-IsShut s.connection (send_data ws_text text) k.1)
  Later-IsSilent start t h (bytes_given s _ bytes l e) =
      let k = Later-IsSilent start s h l in
      subst IsSilent e (k.0, enqueued-IsShut s.connection (send_data ws_binary bytes) k.1)
  Later-IsSilent start t h (closed_again s _ now l e) =
      let k = Later-IsSilent start s h l in
      subst IsSilent e (k.0, close_web_socket-IsShut now s.connection)
  Later-IsSilent start t h (watched s _ now l e) =
      subst IsSilent e (watch-IsSilent now s (Later-IsSilent start s h l))

  -- Once a connection has begun to close, no byte goes out on it any more: not in any loop of
  -- sending, whatever the calls of `send` return, in any state that calls which return lead
  -- to: data received, loops of sending, texts and bytes that the user sends, further closes
  -- and the watchdog. The close frame that was put in its queue is never sent.
  pub send_loop-closing :
      (now : ℕ) (s start t : Socket) (os : List Outcome)
      → s.http ≡ false
      → record s { connection = close_web_socket now s.connection } ≡ start
      → Later start t
      → (send_loop os t).0 ≡ []
  send_loop-closing now s start t os ws e later =
      let closing : IsSilent start =
        subst IsSilent e (ws, close_web_socket-IsShut now s.connection) in
      let silent = Later-IsSilent start t closing later in
      (send_loop-IsShut os t silent.0 silent.1).0
