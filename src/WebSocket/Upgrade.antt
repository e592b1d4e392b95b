-- ===== src/WebSocket/Upgrade.antt =====
-- `checkHTTPBuffer` and `processData` of websocket/WebSocket.cpp: a connection until it has switched the
-- protocol, and then.
use dumais_lib.Prelude.{
  ℕ, ◌+◌, Bool, true, false, not, ◌||◌, Option, none, some, Text, codes, if◌then◌else◌,
}
use dumais_lib.Json.Number.{text_eq}
use dumais_lib.Rest.Parameters.{Values, lookup}
use dumais_lib.WebSocket.Connection.{Connection, connected, enqueue, process_data}
use dumais_lib.WebSocket.Handshake.{
  HttpRequest, HttpParser, is_ready, parse_incoming, reject, switch_protocol,
}

-- A `WebSocket` with the members that the handshake uses; `http` is the protocol, and `opened` counts
-- the calls of `mOnNewConnection`.
pub record Socket : Type 0 where
  pub http : Bool
  pub http_parser : HttpParser
  pub connection : Connection
  pub opened : ℕ

-- The user's handler, from the resource and the protocols to its answer and the protocol it chooses.
abbrev pub Handler : Type 0
Handler = Text → Values → Bool × Text

unfoldable pub send_reject : Socket → Socket
unfolding reject enqueue
send_reject s = record s { connection = enqueue s.connection (reject 404 (codes "Not Found")) }

-- The answer to a request that the handler takes.
unfoldable pub upgrade : (behind : ℕ × ℕ × ℕ) → (chosen : Text) → Option Text → Socket → Socket
unfolding switch_protocol enqueue
upgrade behind chosen none s = s
upgrade behind chosen (some key) s =
    let conn = enqueue s.connection (switch_protocol behind key chosen) in
    record s { http = false; connection = record conn { state = connected }; opened = s.opened + 1 }

-- What `checkHTTPBuffer` does with a request.
unfoldable pub answer_request :
    (behind : ℕ × ℕ × ℕ) → Option Handler → HttpRequest → Socket → Socket
unfolding text_eq upgrade send_reject lookup
answer_request behind handler req s =
    if not (is_ready req.status) || not (text_eq req.type (codes "GET")) then s else elim handler [
      | none ↦ send_reject s
      | some h ↦
          let (takes, chosen) = h req.resource req.protocols in
          if takes
          then upgrade behind chosen (lookup (codes "sec-websocket-key") req.headers) s
          else send_reject s
    ]

-- `checkHTTPBuffer`.
unfoldable pub check_http_buffer : (behind : ℕ × ℕ × ℕ) → Option Handler → Socket → Text → Socket
unfolding parse_incoming answer_request
check_http_buffer behind handler s buffer =
    let (req, parser) = parse_incoming s.http_parser buffer in
    answer_request behind handler req (record s { http_parser = parser })

-- `processData` of either protocol, as `process_data` has it.
unfoldable pub receive :
    (behind : ℕ × ℕ × ℕ)
    → Option Handler
    → (signed : Bool) → (now fuel : ℕ) → Socket
    → Text
    → Option (Bool × Socket)
unfolding check_http_buffer process_data
receive behind handler signed now fuel s buffer =
    if s.http
    then some (true, check_http_buffer behind handler s buffer)
    else elim (process_data signed now fuel s.connection buffer) [
      | none ↦ none
      | some (open_still, conn) ↦ some (open_still, record s { connection = conn })
    ]
