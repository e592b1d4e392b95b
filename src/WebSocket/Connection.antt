-- ===== src/WebSocket/Connection.antt =====
-- The frame side of websocket/WebSocket.cpp: what the connection does with the data that it receives,
-- and its queue of data to send.
use dumais_lib.Prelude.{
  ℕ, zero, suc, ◌+◌, ◌-◌, ◌%◌, ◌/◌, ◌*◌, Bool, true, false, not, ◌&&◌, ◌||◌, Option, none, some,
  List, [], ◌∷◌, ◌++◌, Text, length, take, drop, get_or, leb, ◌==◌, if◌then◌else◌,
}
use Prim.Native.Nat.{bit_xor}
use dumais_lib.Utils.RingBuffer.{Ring, put, get}
use dumais_lib.WebSocket.Frame.{
  ws_continue, ws_text, ws_binary, ws_close, ws_ping, ws_pong, opcode_of, fin_of, send_data,
  generate_close_message,
}
use dumais_lib.WebSocket.Parser.{
  Parser, Status, error, message_ready, message_incomplete, parse_ws_message, reset_message_buffer,
}

-- `SendBuffer`; every buffer is the connection's own.
pub record SendBuffer : Type 0 where
  pub buffer : Text
  pub current_index : ℕ

-- `WebSocketMessage`.
pub record Message : Type 0 where
  pub buffer : Text
  pub type : ℕ
  pub fin : ℕ

pub data WsState : Type 0 where
  connected closing closed : WsState

-- The object once the protocol has been switched. `delivered` are the messages that `mOnMessage` was
-- called with, the latest last.
pub record Connection : Type 0 where
  pub state : WsState
  pub ws_parser : Parser
  pub tx_list : Ring SendBuffer
  pub current : Option SendBuffer
  pub closing_time : ℕ
  pub delivered : List Message

abbrev pub is_connected : WsState → Bool
is_connected connected = true
is_connected _ = false

abbrev pub is_closing : WsState → Bool
is_closing closing = true
is_closing _ = false

abbrev pub is_closed : WsState → Bool
is_closed closed = true
is_closed _ = false

unfoldable pub abort_web_socket : Connection → Connection
abort_web_socket c = record c { state = closed }

-- `sendData`: a full queue aborts the connection.
unfoldable pub enqueue : Connection → Text → Connection
unfolding abort_web_socket
enqueue c bytes =
    let (stored, ring) = put c.tx_list (record { buffer = bytes; current_index = 0 }) in
    if stored then record c { tx_list = ring } else abort_web_socket (record c { tx_list = ring })

-- `closeWebSocket`; `now` is what `time` returns.
unfoldable pub close_web_socket : ℕ → Connection → Connection
unfolding enqueue
close_web_socket now c = record (enqueue c generate_close_message) {
  state = closing;
  closing_time = now;
}

-- `sendText` and `sendBinary`.
unfoldable pub send_text : Connection → Text → Connection
unfolding enqueue
send_text c text = elim (send_data ws_text text) [ none ↦ c | some frame ↦ enqueue c frame ]

unfoldable pub send_binary : Connection → Text → Connection
unfolding enqueue
send_binary c bytes = elim (send_data ws_binary bytes) [ none ↦ c | some frame ↦ enqueue c frame ]

-- `payload[i] ^= mask[i%4]`, from the index `i` on.
unfoldable pub unmask : (mask : Text) (i : ℕ) → Text → Text
unmask mask i [] = []
unmask mask i (c ∷ s) = bit_xor c (get_or mask (i % 4) 0) ∷ unmask mask (i + 1) s

-- `processPing`: the frame is sent back with the opcode of a pong.
unfoldable pub process_ping : Connection → Text → Connection
unfolding enqueue
process_ping c [] = enqueue c []
process_ping c (first ∷ s) = enqueue c ((first / 16 * 16 + ws_pong) ∷ s)

abbrev pub is_data : ℕ → Bool
is_data opcode = opcode == ws_continue || opcode == ws_text || opcode == ws_binary

abbrev pub reset : Connection → Connection
reset c = record c { ws_parser = reset_message_buffer c.ws_parser }

-- `processWholeWSPacket`.
unfoldable pub process_packet : ℕ → Connection → (header_size payload_size : ℕ) → Text → Connection
unfolding unmask close_web_socket abort_web_socket process_ping
process_packet now c header_size payload_size buffer =
    let opcode = opcode_of (get_or buffer 0 0) in
    let mask = take 4 (drop (header_size - 4) buffer) in
    let payload = take payload_size (drop header_size buffer) in
    let message : Message = record {
      buffer = unmask mask 0 payload;
      type = opcode;
      fin = fin_of (get_or buffer 0 0);
    } in
    if is_data opcode
    then reset (record c { delivered = c.delivered ++ message ∷ [] })
    else if opcode == ws_close
    then reset (abort_web_socket (if is_connected c.state then close_web_socket now c else c))
    else if opcode == ws_ping
    then reset (process_ping c (take (payload_size + header_size) buffer))
    else close_web_socket now c

-- The body of the loop behind the call of the parser; `again` goes on with the rest of the data.
unfoldable pub after_call :
    (now : ℕ)
    → (again : Connection → Text → Option Connection) → Connection
    → Text
    → Status × ℕ × Parser
    → Option Connection
unfolding close_web_socket
after_call now again c buf (error, n, p) = some (close_web_socket now (record c { ws_parser = p }))
after_call now again c buf (message_ready header_size payload_size buffer, n, p) =
    again (process_packet now (record c { ws_parser = p }) header_size payload_size buffer)
      (drop n buf)
after_call now again c buf (message_incomplete, n, p) =
    again (record c { ws_parser = p }) (drop n buf)

-- The loop of `processData` over the frames; `none` means that the fuel ran out.
unfoldable pub process_frames : Bool → ℕ → (fuel : ℕ) → Connection → Text → Option Connection
unfolding after_call
process_frames signed now fuel c [] = some c
process_frames signed now zero c (b ∷ buf) = none
process_frames signed now (suc fuel) c (b ∷ buf) =
    after_call now (process_frames signed now fuel) c (b ∷ buf)
      (parse_ws_message signed c.ws_parser (b ∷ buf))

-- `processData`: the result is false once the connection is closed.
unfoldable pub process_data : Bool → ℕ → (fuel : ℕ) → Connection → Text → Option (Bool × Connection)
unfolding process_frames
process_data signed now fuel c buf = elim (process_frames signed now fuel c buf) [
  | none ↦ none
  | some c' ↦ some (not (is_closed c'.state), c')
]

-- `getTxData`: the data to send, and the connection with its current buffer.
unfoldable pub next_buffer : Connection → Connection
next_buffer c = elim c.current [
  | none ↦ let (next, ring) = get c.tx_list in record c { current = next; tx_list = ring }
  | some b ↦ c
]

unfoldable pub get_tx_data : Connection → Text × Connection
unfolding next_buffer
get_tx_data c =
    let c' = next_buffer c in
    if is_connected c.state
    then (elim c'.current [ none ↦ ([], c') | some b ↦ (drop b.current_index b.buffer, c') ])
    else ([], c)

-- `onDataSent`: a buffer that is sent whole is given up.
unfoldable pub on_data_sent : Connection → ℕ → Connection
on_data_sent c size = elim c.current [
  | none ↦ c
  | some b ↦
      let index = b.current_index + size in
      if index == length b.buffer
      then record c { current = none }
      else record c { current = some (record b { current_index = index }) }
]

-- `CLOSING_TIMEOUT`.
abbrev pub closing_timeout : ℕ
closing_timeout = 5

unfoldable pub watchdog : ℕ → Connection → Bool × Connection
unfolding abort_web_socket
watchdog now c =
    if is_closing c.state && leb (c.closing_time + closing_timeout) now
    then (false, abort_web_socket c)
    else (true, c)
