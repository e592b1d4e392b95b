-- ===== src/WebSocket/Server/Closing.antt =====
-- Connections of websocket/WebSocket.cpp that are closing or closed, in websocket/WebSocketServer.cpp.
use dumais_lib.Prelude.{
  ℕ, zero, suc, ◌+◌, ◌≤◌, ◌≡◌, refl, ap, sym, ◌∙◌, arith, Bool, false, Bool-cases, inl, inr, Option,
  none, some, List, [], ◌∷◌, Text, ◌==◌, take, drop, get_or, subst,
}
use dumais_lib.Prelude.Maps.{lookup}
use dumais_lib.Web.Client.{Outcome}
use dumais_lib.WebSocket.Frame.{ws_close, ws_ping, opcode_of}
use dumais_lib.WebSocket.Parser.{
  Status, Parser, error, message_ready, message_incomplete, parse_ws_message,
}
use dumais_lib.WebSocket.Connection.{
  Connection, closing, closing_timeout, is_connected, is_data, abort_web_socket, enqueue,
  close_web_socket, process_ping, process_packet, after_call, process_frames, process_data,
  watchdog,
}
use dumais_lib.WebSocket.Upgrade.{Socket, Handler}
use dumais_lib.WebSocket.Server.{Sockets, Server, undefined}
use dumais_lib.WebSocket.Server.Working.{
  watch, watch_all, get_tx_data, after_send, send_loop, send_and_return,
}

abbrev pub IsShut : Connection → Type 0
IsShut c = is_connected c.state ≡ false

pub enqueue-IsShut : (c : Connection) (bytes : Text) → IsShut c → IsShut (enqueue c bytes)
unfolding enqueue abort_web_socket
enqueue-IsShut c bytes h = ground arith

pub close_web_socket-IsShut : (now : ℕ) (c : Connection) → IsShut (close_web_socket now c)
unfolding close_web_socket
close_web_socket-IsShut now c = refl

process_ping-IsShut : (c : Connection) (bytes : Text) → IsShut c → IsShut (process_ping c bytes)
unfolding process_ping
process_ping-IsShut c [] h = enqueue-IsShut c [] h
process_ping-IsShut c (b ∷ bytes) h = enqueue-IsShut c _ h

process_packet-IsShut :
    (now : ℕ) (c : Connection) (header_size payload_size : ℕ) (buffer : Text)
    → IsShut c
    → IsShut (process_packet now c header_size payload_size buffer)
unfolding process_packet abort_web_socket
process_packet-IsShut now c header_size payload_size buffer h =
    let opcode = opcode_of (get_or buffer 0 0) in
    elim (Bool-cases (is_data opcode)) [
      | inl e ↦ rw (process_packet, e) h
      | inr e ↦ elim (Bool-cases (opcode == ws_close)) [
        | inl e' ↦ rw (process_packet, e, e') refl
        | inr e' ↦ elim (Bool-cases (opcode == ws_ping)) [
          | inl e'' ↦
              rw (process_packet, e, e', e'')
                (process_ping-IsShut c (take (payload_size + header_size) buffer) h)
          | inr e'' ↦ rw (process_packet, e, e', e'') (close_web_socket-IsShut now c)
        ]
      ]
    ]

-- The connection of a run that ends.
unfoldable EndsShut : Option Connection → Type 0
EndsShut none = Unit
EndsShut (some c) = IsShut c

after_call-EndsShut :
    (now : ℕ) (rounds : Connection → Text → Option Connection) (c : Connection) (buf : Text)
    (call : Status × ℕ × Parser)
    → IsShut c
    → ((d : Connection) (s : Text) → IsShut d → EndsShut (rounds d s))
    → EndsShut (after_call now rounds c buf call)
unfolding after_call EndsShut
after_call-EndsShut now rounds c buf (error, n, p) h ih =
    close_web_socket-IsShut now (record c { ws_parser = p })
after_call-EndsShut now rounds c buf (message_ready header_size payload_size buffer, n, p) h ih =
    ih _ (drop n buf)
      (process_packet-IsShut now (record c { ws_parser = p }) header_size payload_size buffer h)
after_call-EndsShut now rounds c buf (message_incomplete, n, p) h ih = ih _ (drop n buf) h

process_frames-EndsShut :
    (signed : Bool) (now fuel : ℕ) (c : Connection) (buf : Text)
    → IsShut c
    → EndsShut (process_frames signed now fuel c buf)
unfolding process_frames
process_frames-EndsShut signed now fuel c [] h = unfold EndsShut in h
process_frames-EndsShut signed now zero c (b ∷ buf) h = unfold EndsShut in tt
process_frames-EndsShut signed now (suc f) c (b ∷ buf) h =
    after_call-EndsShut now (process_frames signed now f) c (b ∷ buf)
      (parse_ws_message signed c.ws_parser (b ∷ buf)) h
      (λ d s k. process_frames-EndsShut signed now f d s k)

pub send_loop-IsShut :
    (os : List Outcome) (s : Socket)
    → s.http ≡ false
    → IsShut s.connection
    → ((send_loop os s).0 ≡ []) × ((send_loop os s).2 ≡ s)
unfolding send_loop
send_loop-IsShut [] s ws h = (refl, refl)
send_loop-IsShut (o ∷ os) s ws h =
    let e : get_tx_data s ≡ ([], s) = rw (get_tx_data, ws, h) refl in
    rw e (unfold after_send in (refl, refl))

pub process_data-IsShut :
    (signed : Bool) (now fuel : ℕ) (c d : Connection) (buf : Text) (open_still : Bool)
    → IsShut c
    → process_data signed now fuel c buf ≡ some (open_still, d)
    → IsShut d
unfolding process_data
process_data-IsShut signed now fuel c d buf open_still h run =
    from (process_frames signed now fuel c buf) refl
  where
    from : (o : Option Connection) → process_frames signed now fuel c buf ≡ o → IsShut d
    from none e =
        absurd (let f : none ≡ some (open_still, d) = sym (rw (process_data, e) refl) ∙ run in cc)
    from (some d') e =
        let same : d' ≡ d = cc (run, e) in
        let end = subst EndsShut e (process_frames-EndsShut signed now fuel c buf h) in
        subst IsShut same (unfold EndsShut in end)

watch-expired :
    (now : ℕ) (s : Socket)
    → s.http ≡ false
    → s.connection.state ≡ closing
    → s.connection.closing_time + closing_timeout ≤ now
    → (watch now s).0 ≡ false
unfolding watch watchdog
watch-expired now s ws state late = ground arith

watch_all-expired :
    (now fd : ℕ) (s : Socket) (m : Sockets)
    → lookup fd m ≡ some s
    → (watch now s).0 ≡ false
    → watch_all now m ≡ none
unfolding lookup watch_all
watch_all-expired now fd s [] found h = absurd (cc)
watch_all-expired now fd s ((d, t) ∷ m) found h = elim (Bool-cases (d == fd)) [
  | inl e ↦
      let f : some t ≡ some s = rw e at found in
      let g : t ≡ s = cc in
      let dead : (watch now t).0 ≡ false = ap (λ r. (watch now r).0) g ∙ h in
      rw (watch_all, dead) refl
  | inr e ↦ elim (Bool-cases (watch now t).0) [
    | inl alive ↦ rw (watch_all, alive) (rw (watch_all-expired now fd s m (rw e at found) h) refl)
    | inr dead ↦ rw (watch_all, dead) refl
  ]
]

-- If a connection has been closing for five seconds, the watchdogs of `work` lead to no defined
-- behaviour: the connection is erased within the loop over the map.
pub send_and_return-expired :
    (now fd : ℕ) (s : Socket) (server : Server) (os : ℕ → List Outcome) (behind : ℕ × ℕ × ℕ)
    (handler : Option Handler) (signed : Bool)
    → lookup fd server.web_sockets ≡ some s
    → s.http ≡ false
    → s.connection.state ≡ closing
    → s.connection.closing_time + closing_timeout ≤ now
    → send_and_return behind handler signed now os server ≡ undefined
unfolding send_and_return
send_and_return-expired now fd s server os behind handler signed found ws state late =
    rw
      (
        send_and_return,
        watch_all-expired now fd s server.web_sockets found (watch-expired now s ws state late),
      )
      refl
